-- ===== src/Token/Rotation.antt =====
-- `rotateTokenForTarget` and `legacyHostedBindingMatches`: a model key belongs to one instance UID
-- and, for a remote workload, to one cluster identity.
pub mod Bound
use showroom_msp_private_llm.Prelude.{
  String, Bool, true, false, Option, none, some, ◌||◌, ◌&&◌, not, ◌==◌, if◌then◌else◌,
}
use showroom_msp_private_llm.Prelude.Dict.{Dict, get, insert, remove}
use showroom_msp_private_llm.Kube.{LlmInstance, Secret, is_byoc}
use showroom_msp_private_llm.Api.{failure, Api, pure, throw, ◌>>=◌}
use showroom_msp_private_llm.Auth.{
  slug_key, instance_key, credential_instance_key, credential_target_key,
}
use showroom_msp_private_llm.Token.{api_key_key}
use showroom_msp_private_llm.Token.Base64.{generate_token}

-- `inst.IsBYOC() || inst.Status.ActiveBYOCKubeconfigSecretName != ""`
unfoldable pub targets_byoc : LlmInstance → Bool
targets_byoc inst = is_byoc inst || not (inst.status.active_byoc_kubeconfig_secret_name == "")

-- `legacyHostedBindingMatches`
unfoldable pub legacy_hosted_binding_matches : Secret → LlmInstance → String → Bool
legacy_hosted_binding_matches sec inst selected_slug =
    get sec.meta.labels instance_key == inst.meta.name
    && (not (selected_slug == "") && get sec.meta.labels slug_key == selected_slug)

abbrev with_annotations : Secret → Dict → Secret
with_annotations sec annotations = record sec {
  meta = record (sec.meta) { annotations = annotations };
}

abbrev bind_target : String → Dict → Dict
bind_target target annotations =
    if target == ""
    then remove credential_target_key annotations
    else insert credential_target_key target annotations

-- The Secret with a new key, bound to the target and the instance.
abbrev rekeyed : Secret → String → String → String → Secret
rekeyed sec token target uid = record sec {
  meta = record (sec.meta) {
    annotations = insert credential_instance_key uid (bind_target target sec.meta.annotations);
  };
  content = insert api_key_key token sec.content;
}

-- An unbound Secret of a hosted instance, still labelled for it: bound with the key that it has.
abbrev pub is_legacy_bound : Secret → LlmInstance → Bool → String → Bool
is_legacy_bound sec inst byoc selected_slug =
    not byoc
    && (get sec.meta.annotations credential_target_key == ""
        && (get sec.meta.annotations credential_instance_key == ""
            && legacy_hosted_binding_matches sec inst selected_slug))

-- The part of the function behind the choice of the target.
abbrev rotate_to : Secret → LlmInstance → Bool → String → String → Api (Secret × Bool)
rotate_to sec inst byoc target selected_slug =
    if is_legacy_bound sec inst byoc selected_slug
    then (if inst.meta.uid == ""
        then pure (sec, false)
        else pure (
          with_annotations sec (insert credential_instance_key inst.meta.uid sec.meta.annotations),
          true,
        ))
    else if get sec.meta.annotations credential_target_key == target
        && get sec.meta.annotations credential_instance_key == inst.meta.uid
    then pure (sec, false)
    else do token ← generate_token 32; pure (rekeyed sec token target inst.meta.uid, true)

-- `rotateTokenForTarget`; the Secret as it leaves it, and whether it has changed.
unfoldable pub rotate_token_for_target :
    Secret → Option LlmInstance → Bool → String → Api (Secret × Bool)
rotate_token_for_target sec none allow_hosted selected_slug = pure (sec, false)
rotate_token_for_target sec (some inst) allow_hosted selected_slug =
    if targets_byoc inst
    then (if inst.status.active_byoc_target_id == ""
        then pure (sec, false)
        else if inst.meta.uid == ""
        then throw (failure "cannot bind a BYOC key without an instance UID")
        else rotate_to sec inst true inst.status.active_byoc_target_id selected_slug)
    else if not allow_hosted
    then pure (sec, false)
    else rotate_to sec inst false "" selected_slug
