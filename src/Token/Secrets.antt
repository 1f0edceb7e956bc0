-- ===== src/Token/Secrets.antt =====
-- The token Secret: its creation, the publication of an endpoint in it and the withdrawal
-- (`ensureSecret`, `createSecret`, `applySecretMutations`, `invalidateTokenEndpoint`), and the mark
-- on the request that a written Secret leaves (`touchAPITokenRequest`).
pub mod Published
pub mod Withdrawn
pub mod Guarded
pub mod Ensured
pub mod Invalidated
use showroom_msp_private_llm.Prelude.{
  String, Bool, true, false, Option, none, some, List, [], ◌∷◌, ◌||◌, ◌&&◌, not, ◌==◌,
  if◌then◌else◌,
}
use showroom_msp_private_llm.Prelude.Text.{◌+++◌, trim_space}
use showroom_msp_private_llm.Prelude.Dict.{Dict, get, has, insert, remove}
use showroom_msp_private_llm.Kube.{ObjectMeta, LlmInstance, ApiTokenRequest, Secret, opaque}
use showroom_msp_private_llm.Api.{
  failure, not_found, Error, Result, ok, err, Api, pure, throw, ◌>>=◌, request, attempt, lift,
  get_secret, create_secret, update_secret, update_request, now,
}
use showroom_msp_private_llm.Auth.{
  slug_key, instance_key, request_key, credential_instance_key, credential_target_key,
}
use showroom_msp_private_llm.Token.{
  api_key_key, api_url_key, compatibility_key, updated_at_key, secret_version_key, unavailable_key,
  unavailable_url, TokenLibraries, owns_token_secret, token_secret_key,
}
use showroom_msp_private_llm.Token.Base64.{generate_token}
use showroom_msp_private_llm.Token.Rotation.{targets_byoc, rotate_token_for_target}

abbrev pub with_labels : Secret → Dict → Secret
with_labels sec labels = record sec { meta = record (sec.meta) { labels = labels } }

abbrev pub with_marks : Secret → Dict → Secret
with_marks sec annotations = record sec { meta = record (sec.meta) { annotations = annotations } }

abbrev pub with_content : Secret → Dict → Secret
with_content sec content = record sec { content = content }

-- The steps of `applySecretMutations`, each with the flag that says whether anything has changed.
abbrev pub drop_mark : Secret → Secret × Bool
drop_mark sec =
    if has sec.meta.annotations unavailable_key
    then (with_marks sec (remove unavailable_key sec.meta.annotations), true)
    else (sec, false)

abbrev pub set_label : String → String → Secret × Bool → Secret × Bool
set_label key value (sec, updated) =
    if get sec.meta.labels key == value
    then (sec, updated)
    else (with_labels sec (insert key value sec.meta.labels), true)

abbrev pub set_slug_label : String → Secret × Bool → Secret × Bool
set_slug_label slug out = if slug == "" then out else set_label slug_key slug out

abbrev pub set_url : String → Secret × Bool → Secret × Bool
set_url endpoint (sec, updated) =
    if not (has sec.content api_url_key) || not (get sec.content api_url_key == endpoint)
    then (with_content sec (insert api_url_key endpoint sec.content), true)
    else (sec, updated)

-- `applySecretMutations`
unfoldable pub apply_secret_mutations : Secret → String → String → String → Secret × Bool
apply_secret_mutations sec instance_name slug endpoint = set_url endpoint (
    set_slug_label slug
      (set_label compatibility_key "openai" (set_label instance_key instance_name (drop_mark sec))))

-- `touchAPITokenRequest`; the request as the function leaves it
unfoldable pub touch_api_token_request : ApiTokenRequest → String → Api ApiTokenRequest
touch_api_token_request tr version =
    if not (version == "") && get tr.meta.annotations secret_version_key == version
    then pure tr
    else do
      time ← request now
      request (
          update_request (record tr {
            meta = record (tr.meta) {
              annotations =
                  insert secret_version_key version
                    (insert updated_at_key time tr.meta.annotations);
            };
          }))

abbrev slug_labels : String → Dict → Dict
slug_labels slug labels = if slug == "" then labels else insert slug_key slug labels

abbrev new_labels : ApiTokenRequest → LlmInstance → String → Dict
new_labels tr inst slug = slug_labels slug (
    ("app.kubernetes.io/name", "llm-token")
    ∷ (instance_key, inst.meta.name)
    ∷ (request_key, tr.meta.name)
    ∷ (compatibility_key, "openai")
    ∷ [])

abbrev description_of : TokenLibraries → ApiTokenRequest → Dict
description_of libraries tr =
    ("llm.privatellms.msp/description", trim_space tr.spec.description) ∷ []

abbrev bind_instance : String → Dict → Dict
bind_instance uid annotations =
    if uid == "" then annotations else insert credential_instance_key uid annotations

-- The annotations of a new Secret of a remote workload.
abbrev bind_remote : LlmInstance → Dict → Dict
bind_remote inst annotations =
    insert credential_instance_key inst.meta.uid
      (insert credential_target_key inst.status.active_byoc_target_id annotations)

abbrev new_secret :
    ApiTokenRequest → LlmInstance → String → String → String → Dict → String → Secret
new_secret tr inst name slug endpoint annotations token = record {
  meta = record {
    namespace = tr.meta.namespace;
    name = name;
    uid = "";
    resource_version = "";
    generation = 0;
    created = none;
    deleting = none;
    labels = new_labels tr inst slug;
    annotations = annotations;
    controller = none;
    finalizers = [];
    owners = [];
  };
  type = opaque;
  content = [];
  string_data = (api_key_key, token) ∷ (api_url_key, endpoint) ∷ [];
}

-- The nil error of a call whose reply is not used.
abbrev finish : {A : Type 0} → Api A → Api (Unit {0})
finish m = m >>= λ _. pure tt

-- `ensureSecret` behind its rotation.
abbrev store : Bool → Secret × Bool → Api Secret
store rotated (sec, updated) = if updated || rotated then request (update_secret sec) else pure sec

abbrev publish :
    ApiTokenRequest → LlmInstance → String → String → Secret × Bool → Api ApiTokenRequest
publish tr inst slug endpoint (sec, rotated) = do
  stored ← store rotated (apply_secret_mutations sec inst.meta.name slug endpoint)
  touch_api_token_request tr stored.meta.resource_version

module _ (libraries : TokenLibraries) where
  -- The part of `createSecret` behind the choice of the annotations.
  abbrev submit : ApiTokenRequest → Secret → Api (Unit {0})
  submit tr draft = do
    secret ← lift (libraries.set_controller_reference tr draft)
    _ ← request (create_secret secret)
    pure tt

  abbrev first_marks : ApiTokenRequest → LlmInstance → Dict
  first_marks tr inst = bind_instance inst.meta.uid (description_of libraries tr)

  abbrev create_with :
      ApiTokenRequest → LlmInstance → String → String → String → String → Api (Unit {0})
  create_with tr inst name slug endpoint token =
      if targets_byoc inst
      then (if inst.status.active_byoc_target_id == "" || inst.meta.uid == ""
          then throw (failure "cannot mint a BYOC token before its target identity is established")
          else submit tr (
              new_secret tr inst name slug endpoint (bind_remote inst (first_marks tr inst)) token))
      else submit tr (new_secret tr inst name slug endpoint (first_marks tr inst) token)

  -- `createSecret` (the name `create_secret` is the API call's)
  unfoldable pub create_token_secret :
      ApiTokenRequest → LlmInstance → String → String → String → Api (Unit {0})
  create_token_secret tr inst name slug endpoint = do
    token ← generate_token 32
    create_with tr inst name slug endpoint token

  abbrev use_secret :
      ApiTokenRequest → LlmInstance → String → String → String → Result Secret → Api ApiTokenRequest
  use_secret tr inst name slug endpoint (err not_found) = do
    _ ← create_token_secret tr inst name slug endpoint
    pure tr
  use_secret tr inst name slug endpoint (err e) = throw e
  use_secret tr inst name slug endpoint (ok sec) =
      if not (owns_token_secret tr sec)
      then throw (failure "refusing to use token Secret: unexpected controller owner or type")
      else do
        rotation ← rotate_token_for_target sec (some inst) true slug
        publish tr inst slug endpoint rotation

  -- `ensureSecret`; the request as the function leaves it
  unfoldable pub ensure_secret :
      ApiTokenRequest → LlmInstance → String → String → String → Api ApiTokenRequest
  ensure_secret tr inst name slug endpoint = do
    found ← attempt (request (get_secret (record { namespace = tr.meta.namespace; name = name })))
    use_secret tr inst name slug endpoint found

-- The steps of `invalidateTokenEndpoint` behind the rotation.
abbrev pub is_pending_byoc : LlmInstance → Bool
is_pending_byoc inst = targets_byoc inst && not (inst.status.active_byoc_target_id == "")

abbrev pub relabel : Option LlmInstance → Secret × Bool → Secret × Bool
relabel none out = out
relabel (some inst) out =
    if is_pending_byoc inst then set_label instance_key inst.meta.name out else out

abbrev pub withdraw_url : Secret × Bool → Secret × Bool
withdraw_url (sec, changed) =
    if get sec.content api_url_key == unavailable_url
    then (sec, changed)
    else (with_content sec (insert api_url_key unavailable_url sec.content), true)

abbrev pub mark_unavailable : Secret × Bool → Secret × Bool
mark_unavailable (sec, changed) =
    if get sec.meta.annotations unavailable_key == "true"
    then (sec, changed)
    else (with_marks sec (insert unavailable_key "true" sec.meta.annotations), true)

unfoldable pub withdraw : Option LlmInstance → Secret × Bool → Secret × Bool
withdraw inst out = mark_unavailable (withdraw_url (relabel inst out))

abbrev store_changed : Secret × Bool → Api Secret
store_changed (sec, changed) = if changed then request (update_secret sec) else pure sec

abbrev with_secret_name : ApiTokenRequest → String → ApiTokenRequest
with_secret_name tr name = record tr { status = record (tr.status) { secret_name = name } }

abbrev withdraw_from : ApiTokenRequest → Option LlmInstance → Result Secret → Api ApiTokenRequest
withdraw_from tr inst (err not_found) = pure tr
withdraw_from tr inst (err e) = throw e
withdraw_from tr inst (ok sec) =
    if not (owns_token_secret tr sec)
    then throw (failure "refusing to invalidate token Secret: unexpected controller owner or type")
    else do
      rotation ← rotate_token_for_target sec inst false ""
      stored ← store_changed (withdraw inst rotation)
      touched ← touch_api_token_request tr stored.meta.resource_version
      pure (with_secret_name touched stored.meta.name)

-- `invalidateTokenEndpoint`; the request as the function leaves it
unfoldable pub invalidate_token_endpoint :
    ApiTokenRequest → Option LlmInstance → Api ApiTokenRequest
invalidate_token_endpoint tr inst = do
  found ← attempt (request (get_secret (token_secret_key tr)))
  withdraw_from tr inst found
