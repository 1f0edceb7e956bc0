-- ===== src/Byoc/Cleanup.antt =====
-- The removal of a workload from a tenant's cluster: `cleanupBYOCDNS`, `cleanupBYOCManagedTLS` and
-- `cleanupBYOCRemoteTLS` of internal/controller/llminstance_byoc_tls.go, and `cleanupBYOCObjects`,
-- `cleanupBYOC` and `cleanupChangedBYOCTarget` of internal/controller/llminstance_byoc.go.
pub mod Removed
use showroom_msp_private_llm.Prelude.{
  ℕ, String, Bool, true, false, Option, none, some, List, [], ◌∷◌, ◌++◌, ◌||◌, ◌&&◌, not, ◌==◌,
  if◌then◌else◌,
}
use showroom_msp_private_llm.Prelude.Text.{◌+++◌}
use showroom_msp_private_llm.Prelude.Dict.{get}
use showroom_msp_private_llm.Kube.{ObjectMeta, LlmInstance, Secret, is_byoc, is_some}
use showroom_msp_private_llm.Kube.Remote.{
  ObjectKind, deployment, service, secret, config_map, Certificate, DnsEntry,
}
use showroom_msp_private_llm.Kube.Status.{with_status, update_provisioning_status}
use showroom_msp_private_llm.Api.{
  Error, not_found, failure, tls_not_ready, join, Result, ok, err, Key, Api, pure, throw, ◌>>=◌,
  ◌>>◌, request, attempt, lift, ignore_not_found, get_secret, delete_secret, get_remote_object,
  delete_remote_object, get_remote_secret, delete_remote_secret, get_certificate,
  delete_certificate, get_dns_entry, delete_dns_entry,
}
use showroom_msp_private_llm.Slug.Policy.{select}
use showroom_msp_private_llm.Slug.Ownership.{Config}
use showroom_msp_private_llm.Byoc.Target.{
  TargetLibraries, TlsConfig, byoc_namespace, check_byoc_object_owner, require_byoc_tls_owner,
  require_byoc_target_secret, safe_byoc_slug, byoc_cleanup_tls_config, byoc_target_identity,
  byoc_cluster_identity, byoc_base_name, byoc_key_secret_name, byoc_tls_identity, byoc_tls_target,
  tls_owner_label, tls_certificate_label, tls_secret_type,
}
use showroom_msp_private_llm.Byoc.Certificates.{
  CertificateLibraries, certificate_key, last_valid, require_byoc_source_secret,
  owned_by_certificate, reconcile_byoc_managed_certificate,
}

-- `client.IgnoreNotFound` of a delete
abbrev pub gone : Result (Unit {0}) → Api (Unit {0})
gone (ok _) = pure tt
gone (err e) = ignore_not_found e

abbrev join_more : Error → Result (Unit {0}) → Error
join_more e (ok _) = e
join_more e (err other) = join e other

-- `errors.Join`
unfoldable pub join_errors : List Error → Result (Unit {0})
join_errors [] = ok tt
join_errors (e ∷ rest) = err (join_more e (join_errors rest))

-- What a removal from the list adds: its errors, and whether the object is still to be waited for.
abbrev pub Removal : Type 0
Removal = List Error × Bool

abbrev deletion_errors : Result (Unit {0}) → Removal
deletion_errors (ok _) = ([], true)
deletion_errors (err not_found) = ([], true)
deletion_errors (err e) = (e ∷ [], true)

-- One round of `cleanupBYOCObjects`, for a kind of object.
abbrev remove_found : String → LlmInstance → ObjectKind → Result ObjectMeta → Api Removal
remove_found kubeconfig inst kind (err not_found) = pure ([], false)
remove_found kubeconfig inst kind (err e) = pure (e ∷ [], false)
remove_found kubeconfig inst kind (ok obj) =
    if not (check_byoc_object_owner obj inst)
    then pure (failure "refusing unowned BYOC object" ∷ [], false)
    else (do
      deleted ← attempt (request (delete_remote_object kubeconfig kind obj))
      pure (deletion_errors deleted))

abbrev both : Removal → Removal → Removal
both (errors, pending) (more, later) = (errors ++ more, pending || later)

-- The loop of `cleanupBYOCObjects`.
unfoldable pub remove_objects : String → LlmInstance → List (ObjectKind × Key) → Api Removal
remove_objects kubeconfig inst [] = pure ([], false)
remove_objects kubeconfig inst ((kind, key) ∷ rest) = do
  found ← attempt (request (get_remote_object kubeconfig kind key))
  first ← remove_found kubeconfig inst kind found
  later ← remove_objects kubeconfig inst rest
  pure (both first later)

abbrev pub report_removal : Removal → Result (Unit {0})
report_removal (errors, pending) = join_errors (
    errors
    ++ (if pending then tls_not_ready "waiting for owned BYOC objects to disappear" ∷ [] else []))

module _ (libraries : TargetLibraries) where
  -- The objects of `cleanupBYOCObjects`.
  abbrev pub byoc_objects : String → List (ObjectKind × Key)
  byoc_objects slug =
      let named : String → Key = λ name. record { namespace = byoc_namespace; name = name } in
      (deployment, named (byoc_base_name libraries slug))
      ∷ (service, named (byoc_base_name libraries slug))
      ∷ (secret, named (byoc_key_secret_name libraries slug))
      ∷ (config_map, named (byoc_base_name libraries slug +++ "-proxy"))
      ∷ []

  -- `cleanupBYOCObjects`
  unfoldable pub cleanup_byoc_objects : String → LlmInstance → String → Api (Unit {0})
  cleanup_byoc_objects kubeconfig inst slug = do
    removal ← remove_objects kubeconfig inst (byoc_objects slug)
    lift (report_removal removal)

  abbrev pub remove_dns : LlmInstance → Result DnsEntry → Api (Unit {0})
  remove_dns inst (err not_found) = pure tt
  remove_dns inst (err e) = throw e
  remove_dns inst (ok entry) =
      if not (require_byoc_tls_owner entry.meta inst)
      then throw (failure "refusing foreign BYOC TLS object")
      else if is_some entry.meta.deleting
      then throw (tls_not_ready "waiting for DNSEntry removal")
      else (do
        deleted ← attempt (request (delete_dns_entry entry))
        _ ← gone deleted
        throw (tls_not_ready "waiting for DNSEntry removal"))

  -- `cleanupBYOCDNS`
  unfoldable pub cleanup_byoc_dns : LlmInstance → TlsConfig → String → Api (Unit {0})
  cleanup_byoc_dns inst cfg target_id = do
    names ← lift (byoc_tls_identity libraries inst cfg target_id)
    found ← attempt (request (get_dns_entry (certificate_key cfg names.0)))
    remove_dns inst found

  abbrev remove_remote_tls : String → LlmInstance → String → Result Secret → Api (Unit {0})
  remove_remote_tls kubeconfig inst target (err not_found) = pure tt
  remove_remote_tls kubeconfig inst target (err e) = throw e
  remove_remote_tls kubeconfig inst target (ok sec) =
      if not (require_byoc_target_secret sec inst target)
      then throw (failure "TLS Secret is not bound to the verified target")
      else if is_some sec.meta.deleting
      then throw (tls_not_ready "waiting for remote TLS Secret removal")
      else (do
        deleted ← attempt (request (delete_remote_secret kubeconfig sec))
        _ ← gone deleted
        throw (tls_not_ready "waiting for remote TLS Secret removal"))

  -- `cleanupBYOCRemoteTLS`
  unfoldable pub cleanup_byoc_remote_tls :
      String → LlmInstance → TlsConfig → String → Api (Unit {0})
  cleanup_byoc_remote_tls kubeconfig inst cfg target_id = do
    names ← lift (byoc_tls_identity libraries inst cfg target_id)
    target ← lift (byoc_tls_target libraries target_id)
    found ← attempt (
        request
          (get_remote_secret kubeconfig (record { namespace = byoc_namespace; name = names.0 })))
    remove_remote_tls kubeconfig inst target found
