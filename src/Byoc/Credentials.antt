-- ===== src/Byoc/Credentials.antt =====
-- The operator's copy of a tenant's kubeconfig, and the tenant's own: `byocKubeconfig`,
-- `cachedBYOCKubeconfig`, `ensureCachedCredentials` and `deleteCachedBYOCCredentials` of
-- internal/controller/llminstance_byoc.go.
use showroom_msp_private_llm.Prelude.{String, Option, none, some, [], ◌∷◌, not, ◌==◌, if◌then◌else◌}
use showroom_msp_private_llm.Prelude.Dict.{Dict, get, insert}
use showroom_msp_private_llm.Kube.{LlmInstance, Secret, opaque}
use showroom_msp_private_llm.Api.{
  not_found, failure, Result, ok, err, Key, Api, pure, throw, ◌>>=◌, request, attempt, lift,
  ignore_not_found, get_secret, create_secret, update_secret, delete_secret,
}
use showroom_msp_private_llm.Hosted.Backend.{fresh_meta}
use showroom_msp_private_llm.Byoc.Target.{
  TargetLibraries, kubeconfig_key, is_controlled_by, byoc_credentials_name,
}

-- `byocLabels`
abbrev pub byoc_labels : String → String → Dict
byoc_labels name slug =
    ("app.kubernetes.io/name", "llama-cpp-server")
    ∷ ("llm.privatellms.msp/instance", name)
    ∷ ("llm.privatellms.msp/slug", slug)
    ∷ []

abbrev referenced_name : Option String → String
referenced_name none = ""
referenced_name (some name) = name

-- `inst.Spec.ClusterRef.KubeconfigSecretName`
abbrev pub kubeconfig_secret_name : LlmInstance → String
kubeconfig_secret_name inst = referenced_name inst.spec.cluster_ref

-- The tenant's kubeconfig, or the reason why there is none.
pub data Source : Type 0 where
  usable : String → Source
  unusable : String → Source

abbrev pub read_source : Result Secret → Api Source
read_source (ok sec) =
    if get sec.content kubeconfig_key == ""
    then pure (unusable "KubeconfigInvalid")
    else pure (usable (get sec.content kubeconfig_key))
read_source (err not_found) = pure (unusable "KubeconfigSecretMissing")
read_source (err e) = throw e

-- `byocKubeconfig`, for an instance that refers to a cluster
unfoldable pub byoc_kubeconfig : LlmInstance → Api Source
byoc_kubeconfig inst = do
  found ← attempt (
      request (
        get_secret
          (record { namespace = inst.meta.namespace; name = kubeconfig_secret_name inst })))
  read_source found

abbrev pub read_cached : LlmInstance → Result Secret → Api (Option String)
read_cached inst (err not_found) = pure none
read_cached inst (err e) = throw e
read_cached inst (ok cached) =
    if not (is_controlled_by cached.meta inst)
    then throw (failure "refusing foreign cached BYOC credentials")
    else if get cached.content kubeconfig_key == ""
    then throw (failure "cached BYOC credentials Secret has no kubeconfig")
    else pure (some (get cached.content kubeconfig_key))

module _ (libraries : TargetLibraries) where
  abbrev pub credentials_key : LlmInstance → String → Key
  credentials_key inst slug = record {
    namespace = inst.meta.namespace;
    name = byoc_credentials_name libraries slug;
  }

  -- `cachedBYOCKubeconfig`; `none` where it returns no data and no error
  unfoldable pub cached_byoc_kubeconfig : LlmInstance → String → Api (Option String)
  cached_byoc_kubeconfig inst slug = if slug == "" then pure none else do
    found ← attempt (request (get_secret (credentials_key inst slug)))
    read_cached inst found

  -- The Secret that `ensureCachedCredentials` creates.
  unfoldable pub new_credentials : LlmInstance → String → String → Secret
  new_credentials inst slug kubeconfig = record {
    meta =
        fresh_meta inst.meta.namespace (byoc_credentials_name libraries slug)
          (byoc_labels inst.meta.name slug);
    type = opaque;
    content = (kubeconfig_key, kubeconfig) ∷ [];
    string_data = [];
  }

  -- The last parameter is `ctrl.SetControllerReference` with the instance as owner.
  module _ (own_secret : LlmInstance → Secret → Result Secret) where
    abbrev refresh_credentials : LlmInstance → String → String → Result Secret → Api (Unit {0})
    refresh_credentials inst slug kubeconfig (err not_found) = do
      secret ← lift (own_secret inst (new_credentials inst slug kubeconfig))
      _ ← request (create_secret secret)
      pure tt
    refresh_credentials inst slug kubeconfig (err e) = throw e
    refresh_credentials inst slug kubeconfig (ok existing) =
        if not (is_controlled_by existing.meta inst)
        then throw (failure "refusing foreign cached BYOC credentials")
        else if get existing.content kubeconfig_key == kubeconfig
        then pure tt
        else (do
          _ ← request (
              update_secret
                (record existing { content = insert kubeconfig_key kubeconfig existing.content }))
          pure tt)

    -- `ensureCachedCredentials`
    unfoldable pub ensure_cached_credentials : LlmInstance → String → String → Api (Unit {0})
    ensure_cached_credentials inst slug kubeconfig = do
      found ← attempt (request (get_secret (credentials_key inst slug)))
      refresh_credentials inst slug kubeconfig found

  abbrev pub after_delete : Result (Unit {0}) → Api (Unit {0})
  after_delete (ok _) = pure tt
  after_delete (err e) = ignore_not_found e

  abbrev pub delete_cached : LlmInstance → Result Secret → Api (Unit {0})
  delete_cached inst (err e) = ignore_not_found e
  delete_cached inst (ok cached) =
      if not (is_controlled_by cached.meta inst)
      then throw (failure "refusing to delete foreign cached credentials")
      else (do deleted ← attempt (request (delete_secret cached)); after_delete deleted)

  -- `deleteCachedBYOCCredentials`
  unfoldable pub delete_cached_byoc_credentials : LlmInstance → String → Api (Unit {0})
  delete_cached_byoc_credentials inst slug = do
    found ← attempt (request (get_secret (credentials_key inst slug)))
    delete_cached inst found
