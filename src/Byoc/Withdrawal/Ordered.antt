-- ===== src/Byoc/Withdrawal/Ordered.antt =====
-- The order in which `cleanupBYOCManagedTLS` removes things: the DNS entry, the Certificate, and its
-- Secrets, each only once the one before is gone.
use showroom_msp_private_llm.Prelude.{String, ◌≡◌, true, not, true_of_not, List, [], ◌∷◌}
use showroom_msp_private_llm.Kube.{LlmInstance, Secret, is_some}
use showroom_msp_private_llm.Kube.Remote.{Certificate, DnsEntry}
use showroom_msp_private_llm.Api.{
  not_found, conflict, already_exists, rejection, failure, tls_not_ready, join, Result, ok, err,
  Key, Call, Answer, get_secret, delete_secret, get_certificate, delete_certificate, get_dns_entry,
  delete_dns_entry,
}
use showroom_msp_private_llm.Api.Ensures.{
  Ensures, done, Ensures-mono, Ensures-bind, Ensures-lift, Ensures-try, Ensures-calls, Ensures-if,
}
use showroom_msp_private_llm.Byoc.Target.{
  TargetLibraries, TlsConfig, require_byoc_tls_owner, byoc_tls_identity, byoc_tls_target,
}
use showroom_msp_private_llm.Byoc.Certificates.{
  CertificateLibraries, certificate_key, require_byoc_source_secret,
}
use showroom_msp_private_llm.Byoc.Certificates.Bound.{
  IsCertificateCall, reconcile_byoc_managed_certificate-Ensures,
}
use showroom_msp_private_llm.Byoc.Cleanup.{gone, remove_dns, cleanup_byoc_dns}
use showroom_msp_private_llm.Byoc.Cleanup.Removed.{IfOk, gone-Ensures}
use showroom_msp_private_llm.Byoc.Withdrawal.{
  Kept, source, last, is_removable, delete_unless, remove_kept, remove_secrets, stop_issuance,
  remove_issued, remove_certificate, cleanup_byoc_managed_tls,
}

module _ (Obs : (c : Call) → Result (Answer c) → Type 0) (targets : TargetLibraries)
    (libraries : CertificateLibraries) (inst : LlmInstance) (cfg : TlsConfig)
    (target_id : String) where
  -- No DNS entry leads to the instance's host name any more.
  abbrev pub IsDnsGone : Type 0
  IsDnsGone =
      (names : String × String) × (byoc_tls_identity targets inst cfg target_id ≡ ok names)
      × Obs (get_dns_entry (certificate_key cfg names.0)) (err not_found)

  -- Nor is a certificate issued for it.
  abbrev pub IsIssuanceGone : Type 0
  IsIssuanceGone =
      (names : String × String) × (byoc_tls_identity targets inst cfg target_id ≡ ok names)
      × Obs (get_certificate (certificate_key cfg names.0)) (err not_found)

  -- The calls of `cleanupBYOCManagedTLS`.
  pub data IsManagedCall : Call → Type 0 where
    reads_dns : (key : Key) → IsManagedCall (get_dns_entry key)
    reads_certificate : (key : Key) → IsManagedCall (get_certificate key)
    reads_secret : (key : Key) → IsManagedCall (get_secret key)
    deletes_dns :
        {key : Key} {entry : DnsEntry}
        → Obs (get_dns_entry key) (ok entry)
        → require_byoc_tls_owner entry.meta inst ≡ true
        → IsManagedCall (delete_dns_entry entry)
    -- the handshake that binds the source Secret to the Certificate
    binds :
        {c : Call}
        → IsDnsGone
        → IsCertificateCall Obs targets libraries inst cfg target_id c
        → IsManagedCall c
    deletes_certificate :
        {key : Key} {cert : Certificate}
        → IsDnsGone
        → Obs (get_certificate key) (ok cert)
        → require_byoc_tls_owner cert.meta inst ≡ true
        → IsManagedCall (delete_certificate cert)
    deletes_secret :
        (name : String) {key : Key} {sec : Secret} {target : String} (kept : Kept)
        → IsDnsGone
        → IsIssuanceGone
        → Obs (get_secret key) (ok sec)
        → byoc_tls_target targets target_id ≡ ok target
        → is_removable name target inst kept sec ≡ true
        → IsManagedCall (delete_secret sec)

  remove_dns-Ensures :
      (key : Key) (r : Result DnsEntry)
      → Obs (get_dns_entry key) r
      → Ensures Obs IsManagedCall
          (IfOk (Obs (get_dns_entry key) (err not_found)))
          (remove_dns targets inst r)
  remove_dns-Ensures key (err not_found) shown = done shown
  remove_dns-Ensures key (err conflict) shown = done tt
  remove_dns-Ensures key (err already_exists) shown = done tt
  remove_dns-Ensures key (err (rejection _)) shown = done tt
  remove_dns-Ensures key (err (failure _)) shown = done tt
  remove_dns-Ensures key (err (tls_not_ready _)) shown = done tt
  remove_dns-Ensures key (err (join _ _)) shown = done tt
  remove_dns-Ensures key (ok entry) shown =
      Ensures-if (not (require_byoc_tls_owner entry.meta inst)) (λ _. done tt)
        (λ owned.
          Ensures-if (is_some entry.meta.deleting) (λ _. done tt)
            (λ _.
              Ensures-try _ (IsManagedCall.deletes_dns shown (true_of_not _ owned))
                (λ d _. gone-Ensures Obs _ (λ _. tt) d)))

  cleanup_byoc_dns-Ensures :
      Ensures Obs IsManagedCall (IfOk IsDnsGone) (cleanup_byoc_dns targets inst cfg target_id)
  unfolding cleanup_byoc_dns
  cleanup_byoc_dns-Ensures =
      Ensures-lift (byoc_tls_identity targets inst cfg target_id)
        (λ names n.
          Ensures-try _ (IsManagedCall.reads_dns _)
            (λ r shown. Ensures-mono (λ x h. found names n x h) (remove_dns-Ensures _ r shown)))
        (λ _ _. tt)
    where
      found :
          (names : String × String)
          → byoc_tls_identity targets inst cfg target_id ≡ ok names
          → (x : Result (Unit {0}))
          → IfOk (Obs (get_dns_entry (certificate_key cfg names.0)) (err not_found)) x
          → IfOk IsDnsGone x
      found names n (ok _) h = (names, n, h)
      found names n (err e) h = tt

  module _ (dns : IsDnsGone) where
    delete_unless-Ensures :
        (name : String) {key : Key} {target : String} (kept : Kept) (sec : Secret)
        → IsIssuanceGone
        → Obs (get_secret key) (ok sec)
        → byoc_tls_target targets target_id ≡ ok target
        → is_removable name target inst kept sec ≡ true
        → Ensures Obs IsManagedCall (λ _. Unit) (delete_unless sec)
    delete_unless-Ensures name kept sec issued shown t removable =
        Ensures-if (is_some sec.meta.deleting) (λ _. done tt)
          (λ _.
            Ensures-try _ (IsManagedCall.deletes_secret name kept dns issued shown t removable)
              (λ d _. over d))
      where
        over : (d : Result (Unit {0})) → Ensures Obs IsManagedCall (λ _. Unit) (gone d)
        over (ok _) = done tt
        over (err not_found) = done tt
        over (err conflict) = done tt
        over (err already_exists) = done tt
        over (err (rejection _)) = done tt
        over (err (failure _)) = done tt
        over (err (tls_not_ready _)) = done tt
        over (err (join _ _)) = done tt

    remove_kept-Ensures :
        (key : Key) (name target : String) (kept : Kept) (r : Result Secret)
        → IsIssuanceGone
        → Obs (get_secret key) r
        → byoc_tls_target targets target_id ≡ ok target
        → Ensures Obs IsManagedCall (λ _. Unit) (remove_kept name target inst kept r)
    remove_kept-Ensures key name target kept (err not_found) issued shown t = done tt
    remove_kept-Ensures key name target kept (err conflict) issued shown t = done tt
    remove_kept-Ensures key name target kept (err already_exists) issued shown t = done tt
    remove_kept-Ensures key name target kept (err (rejection _)) issued shown t = done tt
    remove_kept-Ensures key name target kept (err (failure _)) issued shown t = done tt
    remove_kept-Ensures key name target kept (err (tls_not_ready _)) issued shown t = done tt
    remove_kept-Ensures key name target kept (err (join _ _)) issued shown t = done tt
    remove_kept-Ensures key name target kept (ok sec) issued shown t =
        Ensures-if (not (is_removable name target inst kept sec)) (λ _. done tt)
          (λ removable.
            Ensures-bind
              (delete_unless-Ensures name kept sec issued shown t (true_of_not _ removable))
              (λ _ _. done tt) (λ _ _. tt))

    remove_secrets-Ensures :
        (name target : String) (kept : List Kept)
        → IsIssuanceGone
        → byoc_tls_target targets target_id ≡ ok target
        → Ensures Obs IsManagedCall (λ _. Unit) (remove_secrets cfg name target inst kept)
    unfolding remove_secrets
    remove_secrets-Ensures name target [] issued t = done tt
    remove_secrets-Ensures name target (kept ∷ rest) issued t =
        Ensures-try _ (IsManagedCall.reads_secret _) (λ r shown.
          Ensures-bind (remove_kept-Ensures _ name target kept r issued shown t)
            (λ _ _.
              Ensures-bind (remove_secrets-Ensures name target rest issued t) (λ _ _. done tt)
                (λ _ _. tt))
            (λ _ _. tt))

    stop_issuance-Ensures :
        {key : Key} (cert : Certificate)
        → Obs (get_certificate key) (ok cert)
        → require_byoc_tls_owner cert.meta inst ≡ true
        → Ensures Obs IsManagedCall (IfOk ⊥) (stop_issuance targets libraries cert)
    stop_issuance-Ensures cert shown owned =
        Ensures-try _ (IsManagedCall.deletes_certificate dns shown owned)
          (λ d _. gone-Ensures Obs _ (λ _. tt) d)

    remove_issued-Ensures :
        {key : Key} (cert : Certificate) (r : Result Secret)
        → Obs (get_certificate key) (ok cert)
        → require_byoc_tls_owner cert.meta inst ≡ true
        → Ensures Obs IsManagedCall
            (IfOk ⊥)
            (remove_issued targets libraries inst cfg target_id cert r)
    remove_issued-Ensures cert (ok sec) shown owned =
        Ensures-if (not (require_byoc_source_secret sec cert inst))
          (λ _.
            Ensures-bind
              (Ensures-calls (λ c h. IsManagedCall.binds dns h)
                (reconcile_byoc_managed_certificate-Ensures Obs targets libraries inst cfg
                  target_id))
              (λ _ _. done tt) (λ _ _. tt))
          (λ _. stop_issuance-Ensures cert shown owned)
    remove_issued-Ensures cert (err not_found) shown owned = stop_issuance-Ensures cert shown owned
    remove_issued-Ensures cert (err conflict) shown owned = done tt
    remove_issued-Ensures cert (err already_exists) shown owned = done tt
    remove_issued-Ensures cert (err (rejection _)) shown owned = done tt
    remove_issued-Ensures cert (err (failure _)) shown owned = done tt
    remove_issued-Ensures cert (err (tls_not_ready _)) shown owned = done tt
    remove_issued-Ensures cert (err (join _ _)) shown owned = done tt

    remove_certificate-Ensures :
        (names : String × String) (target : String) (r : Result Certificate)
        → byoc_tls_identity targets inst cfg target_id ≡ ok names
        → byoc_tls_target targets target_id ≡ ok target
        → Obs (get_certificate (certificate_key cfg names.0)) r
        → Ensures Obs IsManagedCall
            (IfOk (IsDnsGone × IsIssuanceGone))
            (remove_certificate targets libraries inst cfg target_id names.0 target r)
    remove_certificate-Ensures names target (err not_found) n t shown =
        let issued : IsIssuanceGone = (names, n, shown) in
        Ensures-bind (remove_secrets-Ensures names.0 target (source ∷ last ∷ []) issued t)
          (λ pending _. Ensures-if pending (λ _. done tt) (λ _. done (dns, issued))) (λ _ _. tt)
    remove_certificate-Ensures names target (err conflict) n t shown = done tt
    remove_certificate-Ensures names target (err already_exists) n t shown = done tt
    remove_certificate-Ensures names target (err (rejection _)) n t shown = done tt
    remove_certificate-Ensures names target (err (failure _)) n t shown = done tt
    remove_certificate-Ensures names target (err (tls_not_ready _)) n t shown = done tt
    remove_certificate-Ensures names target (err (join _ _)) n t shown = done tt
    remove_certificate-Ensures names target (ok cert) n t shown =
        Ensures-if (not (require_byoc_tls_owner cert.meta inst)) (λ _. done tt)
          (λ owned.
            Ensures-if (is_some cert.meta.deleting) (λ _. done tt)
              (λ _. Ensures-try _ (IsManagedCall.reads_secret _) (λ r _.
                Ensures-mono (λ x h. impossible x h)
                  (remove_issued-Ensures cert r shown (true_of_not _ owned)))))
      where
        impossible : (x : Result (Unit {0})) → IfOk ⊥ x → IfOk (IsDnsGone × IsIssuanceGone) x
        impossible (ok _) h = absurd h
        impossible (err e) h = tt

  pub cleanup_byoc_managed_tls-Ensures :
      Ensures Obs IsManagedCall
        (IfOk (IsDnsGone × IsIssuanceGone))
        (cleanup_byoc_managed_tls targets libraries inst cfg target_id)
  unfolding cleanup_byoc_managed_tls
  cleanup_byoc_managed_tls-Ensures =
      Ensures-bind cleanup_byoc_dns-Ensures
        (λ _ dns.
          Ensures-lift (byoc_tls_identity targets inst cfg target_id)
            (λ names n.
              Ensures-lift (byoc_tls_target targets target_id)
                (λ target t.
                  Ensures-try _ (IsManagedCall.reads_certificate _)
                    (λ r shown. remove_certificate-Ensures dns names target r n t shown))
                (λ _ _. tt))
            (λ _ _. tt))
        (λ _ _. tt)
