-- ===== src/Byoc/Keys.antt =====
-- The API keys that a model server on a tenant's cluster accepts, in
-- internal/controller/llminstance_byoc.go: `desiredAPIKeyFile` and `reconcileBYOCKeySecret`.
pub mod Granted
pub mod Published
use Prim.Native.Char.{code}
use Prim.Native.Nat.{compare, Ordering}
use showroom_msp_private_llm.Prelude.{
  String, Bool, true, false, Option, none, some, List, [], ◌∷◌, ◌++◌, ◌||◌, ◌&&◌, not, ◌==◌,
  if◌then◌else◌, nat_eq,
}
use showroom_msp_private_llm.Prelude.Text.{◌+++◌}
use showroom_msp_private_llm.Prelude.Dict.{get, insert, remove}
use showroom_msp_private_llm.Kube.{
  OwnerRef, LlmInstance, ApiTokenRequest, Secret, is_some, group_version, opaque,
}
use showroom_msp_private_llm.Api.{
  not_found, failure, Result, ok, err, cached, Key, Call, Api, pure, throw, ◌>>=◌, request, attempt,
  get_request, list_secrets, get_remote_secret, create_remote_secret, update_remote_secret,
}
use showroom_msp_private_llm.Auth.{instance_key, credential_instance_key, credential_target_key}
use showroom_msp_private_llm.Token.Base64.{generate_token}
use showroom_msp_private_llm.Hosted.Backend.{fresh_meta}
use showroom_msp_private_llm.Byoc.Target.{
  TargetLibraries, byoc_namespace, byoc_key_secret_name, check_byoc_object_owner,
  owner_uid_annotation,
}
use showroom_msp_private_llm.Byoc.Credentials.{byoc_labels}

abbrev pub api_key_file_key : String
api_key_file_key = "api-keys"

abbrev pub bootstrap_annotation : String
bootstrap_annotation = "llm.privatellms.msp/bootstrap-key"

-- Go's order of texts.
unfoldable pub text_leb : String → String → Bool
text_leb String.[] t = true
text_leb (String.◌∷◌ c s) String.[] = false
text_leb (String.◌∷◌ c s) (String.◌∷◌ d t) = elim (compare (code c) (code d)) [
  | Ordering.lt ↦ true
  | Ordering.eq ↦ text_leb s t
  | Ordering.gt ↦ false
]

unfoldable pub insert_key : String → List String → List String
insert_key k [] = k ∷ []
insert_key k (l ∷ keys) =
    let later = insert_key k keys in if text_leb k l then k ∷ l ∷ keys else l ∷ later

-- `sort.Strings`
unfoldable pub sort_keys : List String → List String
sort_keys [] = []
sort_keys (k ∷ keys) = insert_key k (sort_keys keys)

-- `strings.Join(keys, "\n") + "\n"`, of at least one key
unfoldable pub key_lines : List String → String
key_lines [] = ""
key_lines (k ∷ keys) = k +++ "\n" +++ key_lines keys

-- `strings.ContainsAny(s, "\r\n")`
unfoldable pub has_line_break : String → Bool
has_line_break String.[] = false
has_line_break (String.◌∷◌ c s) = nat_eq (code c) 13 || (nat_eq (code c) 10 || has_line_break s)

-- The first condition of the loop over the Secrets, of a Secret with a controller.
abbrev pub is_token_secret : Secret → OwnerRef → Bool
is_token_secret sec owner =
    owner.kind == "APITokenRequest"
    && (owner.api_version == group_version
        && (sec.type == opaque && not (is_some sec.meta.deleting)))

abbrev is_requested : LlmInstance → Secret → OwnerRef → ApiTokenRequest → Bool
is_requested inst sec owner tr =
    tr.meta.uid == owner.uid
    && (tr.spec.instance_name == inst.meta.name
        && (not (is_some tr.meta.deleting) && tr.status.secret_name == sec.meta.name))

abbrev is_targeted : LlmInstance → Secret → Bool
is_targeted inst sec =
    not (inst.status.active_byoc_target_id == "")
    && (get sec.meta.annotations credential_target_key == inst.status.active_byoc_target_id
        && get sec.meta.annotations credential_instance_key == inst.meta.uid)

abbrev held_key : Secret → String
held_key sec = get sec.content "OPENAI_API_KEY"

-- The other conditions of the loop.
unfoldable pub counts : LlmInstance → Secret → OwnerRef → ApiTokenRequest → Bool
counts inst sec owner tr =
    is_requested inst sec owner tr
    && (is_targeted inst sec && (not (held_key sec == "") && not (has_line_break (held_key sec))))

abbrev pub owner_request : LlmInstance → OwnerRef → Call
owner_request inst owner =
    get_request cached (record { namespace = inst.meta.namespace; name = owner.name })

abbrev pub judge_request :
    LlmInstance → Secret → OwnerRef → Result ApiTokenRequest → Api (List String)
judge_request inst sec owner (ok tr) =
    if counts inst sec owner tr then pure (held_key sec ∷ []) else pure []
judge_request inst sec owner (err not_found) = pure []
judge_request inst sec owner (err e) = throw e

-- One round of the loop: what it adds to the keys.
abbrev pub added_keys : LlmInstance → Secret → Option OwnerRef → Api (List String)
added_keys inst sec none = pure []
added_keys inst sec (some owner) =
    if not (is_token_secret sec owner)
    then pure []
    else do found ← attempt (request (owner_request inst owner)); judge_request inst sec owner found

-- The loop over the Secrets.
unfoldable pub collect_keys : LlmInstance → List Secret → Api (List String)
collect_keys inst [] = pure []
collect_keys inst (sec ∷ secrets) = do
  own ← added_keys inst sec sec.meta.controller
  later ← collect_keys inst secrets
  pure (own ++ later)

abbrev pub token_secrets : LlmInstance → Call
token_secrets inst = list_secrets cached inst.meta.namespace instance_key inst.meta.name

-- A fresh bootstrap key.
abbrev pub fresh_file : Api (String × Bool)
fresh_file = do token ← generate_token 32; pure (token +++ "\n", true)

abbrev pub is_bootstrap : Secret → Bool
is_bootstrap sec =
    get sec.meta.annotations bootstrap_annotation == "true"
    && not (get sec.content api_key_file_key == "")

abbrev pub bootstrap_from : LlmInstance → Result Secret → Api (String × Bool)
bootstrap_from inst (err not_found) = fresh_file
bootstrap_from inst (err e) = throw e
bootstrap_from inst (ok existing) =
    if not (check_byoc_object_owner existing.meta inst)
    then throw (failure "refusing unowned BYOC object")
    else if is_bootstrap existing
    then pure (get existing.content api_key_file_key, true)
    else fresh_file

-- What `reconcileBYOCKeySecret` makes of an existing Secret, and whether that is a change.
unfoldable pub converge_key_secret : Secret → String → Bool → Secret × Bool
converge_key_secret existing file bootstrap =
    let wanted = if bootstrap then "true" else "" in
    let same_file = get existing.content api_key_file_key == file in
    let same_mark = get existing.meta.annotations bootstrap_annotation == wanted in
    (
      record existing {
        meta = record (existing.meta) {
          annotations =
              if same_mark
              then existing.meta.annotations
              else if bootstrap
              then insert bootstrap_annotation "true" existing.meta.annotations
              else remove bootstrap_annotation existing.meta.annotations;
        };
        content =
            if same_file then existing.content else insert api_key_file_key file existing.content;
      },
      not same_file || not same_mark,
    )

module _ (libraries : TargetLibraries) where
  abbrev pub keys_key : String → Key
  keys_key slug = record { namespace = byoc_namespace; name = byoc_key_secret_name libraries slug }

  abbrev pub file_of : String → LlmInstance → String → List String → Api (String × Bool)
  file_of kubeconfig inst slug [] = do
    found ← attempt (request (get_remote_secret kubeconfig (keys_key slug)))
    bootstrap_from inst found
  file_of kubeconfig inst slug (k ∷ keys) = pure (key_lines (sort_keys (k ∷ keys)), false)

  -- `desiredAPIKeyFile`
  unfoldable pub desired_api_key_file : String → LlmInstance → String → Api (String × Bool)
  desired_api_key_file kubeconfig inst slug = do
    secrets ← request (token_secrets inst)
    keys ← collect_keys inst secrets
    file_of kubeconfig inst slug keys

  -- The Secret that `reconcileBYOCKeySecret` creates.
  unfoldable pub new_key_secret : LlmInstance → String → String → Bool → Secret
  new_key_secret inst slug file bootstrap = record {
    meta =
        record (fresh_meta byoc_namespace (byoc_key_secret_name libraries slug)
          (byoc_labels inst.meta.name slug)) {
            annotations =
                (owner_uid_annotation, inst.meta.uid)
                ∷ (if bootstrap then (bootstrap_annotation, "true") ∷ [] else []);
          };
    type = opaque;
    content = [];
    string_data = (api_key_file_key, file) ∷ [];
  }

  abbrev pub store_if_changed : String → Secret × Bool → Api String
  store_if_changed kubeconfig (sec, changed) =
      if not changed then pure sec.meta.resource_version else (do
        stored ← request (update_remote_secret kubeconfig sec)
        pure stored.meta.resource_version)

  abbrev pub store_keys : String → LlmInstance → String → String × Bool → Result Secret → Api String
  store_keys kubeconfig inst slug (file, bootstrap) (err not_found) = do
    stored ← request (create_remote_secret kubeconfig (new_key_secret inst slug file bootstrap))
    pure stored.meta.resource_version
  store_keys kubeconfig inst slug (file, bootstrap) (err e) = throw e
  store_keys kubeconfig inst slug (file, bootstrap) (ok existing) =
      if not (check_byoc_object_owner existing.meta inst)
      then throw (failure "refusing unowned BYOC object")
      else store_if_changed kubeconfig (converge_key_secret existing file bootstrap)

  -- `reconcileBYOCKeySecret`
  unfoldable pub reconcile_byoc_key_secret :
      String → LlmInstance → String → String × Bool → Api String
  reconcile_byoc_key_secret kubeconfig inst slug desired = do
    found ← attempt (request (get_remote_secret kubeconfig (keys_key slug)))
    store_keys kubeconfig inst slug desired found

  -- The two calls in `reconcileBYOCWorkload`; the revision of the Secret
  unfoldable pub publish_keys : String → LlmInstance → String → Api String
  publish_keys kubeconfig inst slug = do
    desired ← desired_api_key_file kubeconfig inst slug
    reconcile_byoc_key_secret kubeconfig inst slug desired
