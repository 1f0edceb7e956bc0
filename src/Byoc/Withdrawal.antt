-- ===== src/Byoc/Withdrawal.antt =====
-- The removal of the managed certificate: `cleanupBYOCManagedTLS` of
-- internal/controller/llminstance_byoc_tls.go.
pub mod Ordered
use showroom_msp_private_llm.Prelude.{
  String, Bool, true, false, List, [], ◌∷◌, ◌||◌, ◌&&◌, not, ◌==◌, if◌then◌else◌,
}
use showroom_msp_private_llm.Prelude.Dict.{get}
use showroom_msp_private_llm.Kube.{LlmInstance, Secret, is_some}
use showroom_msp_private_llm.Kube.Remote.{Certificate}
use showroom_msp_private_llm.Api.{
  Error, not_found, failure, tls_not_ready, Result, ok, err, Api, pure, throw, ◌>>=◌, request,
  attempt, lift, get_secret, delete_secret, get_certificate, delete_certificate,
}
use showroom_msp_private_llm.Byoc.Target.{
  TargetLibraries, TlsConfig, require_byoc_tls_owner, require_byoc_target_secret, byoc_tls_identity,
  byoc_tls_target, tls_owner_label, tls_certificate_label, tls_secret_type,
}
use showroom_msp_private_llm.Byoc.Certificates.{
  CertificateLibraries, certificate_key, last_valid, require_byoc_source_secret,
  owned_by_certificate, reconcile_byoc_managed_certificate,
}
use showroom_msp_private_llm.Byoc.Cleanup.{gone, cleanup_byoc_dns}

-- The check of the source Secret once its Certificate is gone; true where it is the instance's.
unfoldable pub is_orphan_of : String → LlmInstance → Secret → Bool
is_orphan_of name inst sec =
    let certificate_uid = get sec.meta.labels tls_certificate_label in
    get sec.meta.labels tls_owner_label == inst.meta.uid
    && (not (certificate_uid == "")
        && (sec.type == tls_secret_type
            && owned_by_certificate name certificate_uid sec.meta.owners))

-- The Secrets that are left when the Certificate is gone: the source, and the last valid copy.
pub data Kept : Type 0 where
  source last : Kept

abbrev pub kept_name : String → Kept → String
kept_name name source = name
kept_name name last = last_valid name

abbrev is_removable : String → String → LlmInstance → Kept → Secret → Bool
is_removable name target inst source sec = is_orphan_of name inst sec
is_removable name target inst last sec = require_byoc_target_secret sec inst target

abbrev delete_unless : Secret → Api (Unit {0})
delete_unless sec =
    if is_some sec.meta.deleting
    then pure tt
    else (do deleted ← attempt (request (delete_secret sec)); gone deleted)

-- One round of the loop over the two Secrets; whether the Secret is still to be waited for.
abbrev remove_kept : String → String → LlmInstance → Kept → Result Secret → Api Bool
remove_kept name target inst kept (err not_found) = pure false
remove_kept name target inst kept (err e) = throw e
remove_kept name target inst kept (ok sec) =
    if not (is_removable name target inst kept sec)
    then throw (failure "cannot verify TLS Secret ownership")
    else (do _ ← delete_unless sec; pure true)

unfoldable pub remove_secrets : TlsConfig → String → String → LlmInstance → List Kept → Api Bool
remove_secrets cfg name target inst [] = pure false
remove_secrets cfg name target inst (kept ∷ rest) = do
  found ← attempt (request (get_secret (certificate_key cfg (kept_name name kept))))
  pending ← remove_kept name target inst kept found
  later ← remove_secrets cfg name target inst rest
  pure (pending || later)

abbrev wait_for_secrets : Bool → Api (Unit {0})
wait_for_secrets pending =
    if pending then throw (tls_not_ready "waiting for managed TLS Secret removal") else pure tt

module _ (targets : TargetLibraries) (libraries : CertificateLibraries) where
  abbrev stop_issuance : Certificate → Api (Unit {0})
  stop_issuance cert = do
    deleted ← attempt (request (delete_certificate cert))
    _ ← gone deleted
    throw (tls_not_ready "waiting for Certificate removal")

  abbrev finish_handshake : LlmInstance → TlsConfig → String → Api (Unit {0})
  finish_handshake inst cfg target_id = do
    _ ← reconcile_byoc_managed_certificate targets libraries inst cfg target_id
    throw (tls_not_ready "waiting for source Certificate ownership")

  abbrev remove_issued :
      LlmInstance → TlsConfig → String → Certificate → Result Secret → Api (Unit {0})
  remove_issued inst cfg target_id cert (ok sec) =
      if not (require_byoc_source_secret sec cert inst)
      then finish_handshake inst cfg target_id
      else stop_issuance cert
  remove_issued inst cfg target_id cert (err not_found) = stop_issuance cert
  remove_issued inst cfg target_id cert (err e) = throw e

  abbrev remove_certificate :
      LlmInstance → TlsConfig → String → String → String → Result Certificate → Api (Unit {0})
  remove_certificate inst cfg target_id name target (err not_found) = do
    pending ← remove_secrets cfg name target inst (source ∷ last ∷ [])
    wait_for_secrets pending
  remove_certificate inst cfg target_id name target (err e) = throw e
  remove_certificate inst cfg target_id name target (ok cert) =
      if not (require_byoc_tls_owner cert.meta inst)
      then throw (failure "refusing foreign BYOC TLS object")
      else if is_some cert.meta.deleting
      then throw (tls_not_ready "waiting for Certificate removal")
      else (do
        issued ← attempt (request (get_secret (certificate_key cfg name)))
        remove_issued inst cfg target_id cert issued)

  -- `cleanupBYOCManagedTLS`
  unfoldable pub cleanup_byoc_managed_tls : LlmInstance → TlsConfig → String → Api (Unit {0})
  cleanup_byoc_managed_tls inst cfg target_id = do
    _ ← cleanup_byoc_dns targets inst cfg target_id
    names ← lift (byoc_tls_identity targets inst cfg target_id)
    target ← lift (byoc_tls_target targets target_id)
    found ← attempt (request (get_certificate (certificate_key cfg names.0)))
    remove_certificate inst cfg target_id names.0 target found
