-- ===== src/Byoc/Certificates/Bound.antt =====
-- What `reconcileBYOCManagedCertificate` writes: only a Certificate that carries the instance's UID,
-- for the instance's host name and the operator's issuer.
use showroom_msp_private_llm.Prelude.{
  String, ◌≡◌, refl, true, false, not, ◌||◌, ◌==◌, true_of_not, inl, inr,
}
use showroom_msp_private_llm.Kube.{LlmInstance, Secret, is_some}
use showroom_msp_private_llm.Kube.Remote.{Certificate, CertificateSpec}
use showroom_msp_private_llm.Api.{
  not_found, conflict, already_exists, rejection, failure, tls_not_ready, join, Result, ok, err,
  Result-cases, Key, Call, Answer, get_secret, get_certificate, create_certificate,
  update_certificate,
}
use showroom_msp_private_llm.Api.Ensures.{
  Ensures, done, Ensures-bind, Ensures-call, Ensures-try, Ensures-if,
}
use showroom_msp_private_llm.Byoc.Target.{
  TargetLibraries, TlsConfig, byoc_tls_identity, require_byoc_tls_owner,
}
use showroom_msp_private_llm.Byoc.Certificates.{
  CertificateLibraries, validate_byoc_tls_issuer, byoc_certificate_spec, new_certificate,
  certificate_key, last_valid, preserve_byoc_certificate_renewal, require_byoc_source_secret,
  is_first_issuance, unless_free, refuse_secret, update_spec, converge_spec, check_source,
  check_certificate, create_new, ensure_certificate, reconcile_byoc_managed_certificate,
}

module _ (Obs : (c : Call) → Result (Answer c) → Type 0) (targets : TargetLibraries)
    (libraries : CertificateLibraries) (inst : LlmInstance) (cfg : TlsConfig)
    (target_id : String) where
  -- The calls of `reconcileBYOCManagedCertificate`. A Certificate is created only where neither it
  -- nor a Secret of its names was found; one is updated, in its spec alone, only if it carries the
  -- instance's UID and no owner reference, is not being deleted, and its spec asks for the
  -- instance's host name, the operator's issuer and the instance's labels.
  pub data IsCertificateCall : Call → Type 0 where
    reads : (key : Key) → IsCertificateCall (get_certificate key)
    looks : (key : Key) → IsCertificateCall (get_secret key)
    creates :
        {name hostname : String}
        → byoc_tls_identity targets inst cfg target_id ≡ ok (name, hostname)
        → Obs (get_certificate (certificate_key cfg name)) (err not_found)
        → Obs (get_secret (certificate_key cfg name)) (err not_found)
        → Obs (get_secret (certificate_key cfg (last_valid name))) (err not_found)
        → IsCertificateCall (create_certificate (new_certificate name hostname cfg inst))
    updates :
        {name hostname : String} (cert : Certificate) {desired : CertificateSpec}
        → byoc_tls_identity targets inst cfg target_id ≡ ok (name, hostname)
        → require_byoc_tls_owner cert.meta inst ≡ true
        → is_some cert.meta.deleting ≡ false
        → preserve_byoc_certificate_renewal libraries cert
            (byoc_certificate_spec name hostname cert.meta.uid cfg inst)
          ≡ ok desired
        → IsCertificateCall (update_certificate (record cert { spec = desired }))

  module _ (name hostname : String)
      (named : byoc_tls_identity targets inst cfg target_id ≡ ok (name, hostname)) where
    converge_spec-Ensures :
        (cert : Certificate)
        → require_byoc_tls_owner cert.meta inst ≡ true
        → is_some cert.meta.deleting ≡ false
        → Ensures Obs IsCertificateCall
            (λ _. Unit)
            (converge_spec targets libraries name hostname cfg inst cert)
    converge_spec-Ensures cert owned stays =
        spec-Ensures
          (preserve_byoc_certificate_renewal libraries cert
            (byoc_certificate_spec name hostname cert.meta.uid cfg inst))
          refl
      where
        spec-Ensures :
            (r : Result CertificateSpec)
            → preserve_byoc_certificate_renewal libraries cert
                (byoc_certificate_spec name hostname cert.meta.uid cfg inst)
              ≡ r
            → Ensures Obs IsCertificateCall (λ _. Unit) (update_spec targets libraries cert r)
        spec-Ensures (err e) h = done tt
        spec-Ensures (ok desired) h =
            Ensures-if (libraries.same_spec cert.spec desired) (λ _. done tt)
              (λ _.
                Ensures-call _ (IsCertificateCall.updates cert named owned stays h) (λ _ _. done tt)
                  (λ _ _. tt))

    check_source-Ensures :
        (cert : Certificate) (r : Result Secret)
        → require_byoc_tls_owner cert.meta inst ≡ true
        → is_some cert.meta.deleting ≡ false
        → Ensures Obs IsCertificateCall
            (λ _. Unit)
            (check_source targets libraries name hostname cfg inst cert r)
    check_source-Ensures cert (ok sec) owned stays =
        Ensures-if
          (require_byoc_source_secret sec cert inst || is_first_issuance name sec cert inst)
          (λ _. converge_spec-Ensures cert owned stays) (λ _. done tt)
    check_source-Ensures cert (err not_found) owned stays = converge_spec-Ensures cert owned stays
    check_source-Ensures cert (err conflict) owned stays = done tt
    check_source-Ensures cert (err already_exists) owned stays = done tt
    check_source-Ensures cert (err (rejection _)) owned stays = done tt
    check_source-Ensures cert (err (failure _)) owned stays = done tt
    check_source-Ensures cert (err (tls_not_ready _)) owned stays = done tt
    check_source-Ensures cert (err (join _ _)) owned stays = done tt

    check_certificate-Ensures :
        (cert : Certificate)
        → Ensures Obs IsCertificateCall
            (λ _. Unit)
            (check_certificate targets libraries name hostname cfg inst cert)
    check_certificate-Ensures cert =
        Ensures-if (not (require_byoc_tls_owner cert.meta inst)) (λ _. done tt)
          (λ owned.
            Ensures-if (is_some cert.meta.deleting) (λ _. done tt)
              (λ stays.
                Ensures-if (cert.meta.uid == "") (λ _. done tt)
                  (λ _.
                    Ensures-try _ (IsCertificateCall.looks _)
                      (λ r _. check_source-Ensures cert r (true_of_not _ owned) stays))))

    IsAbsent : Key → Result (Unit {0}) → Type 0
    IsAbsent key r = r ≡ ok tt → Obs (get_secret key) (err not_found)

    refuse_secret-Ensures :
        (key : Key) → Ensures Obs IsCertificateCall (IsAbsent key) (refuse_secret key)
    unfolding IsAbsent
    refuse_secret-Ensures key = Ensures-try _ (IsCertificateCall.looks key) judge
      where
        judge :
            (r : Result Secret)
            → Obs (get_secret key) r
            → Ensures Obs IsCertificateCall (IsAbsent key) (unless_free r)
        judge (ok _) shown = done (λ h. cc)
        judge (err not_found) shown = done (λ _. shown)
        judge (err conflict) shown = done (λ h. cc)
        judge (err already_exists) shown = done (λ h. cc)
        judge (err (rejection _)) shown = done (λ h. cc)
        judge (err (failure _)) shown = done (λ h. cc)
        judge (err (tls_not_ready _)) shown = done (λ h. cc)
        judge (err (join _ _)) shown = done (λ h. cc)

    create_new-Ensures :
        Obs (get_certificate (certificate_key cfg name)) (err not_found)
        → Ensures Obs IsCertificateCall
            (λ _. Unit)
            (create_new targets libraries name hostname cfg inst)
    unfolding IsAbsent
    create_new-Ensures missing =
        Ensures-bind (refuse_secret-Ensures (certificate_key cfg name))
          (λ _ free.
            Ensures-bind (refuse_secret-Ensures (certificate_key cfg (last_valid name)))
              (λ _ last_free.
                Ensures-call _
                  (IsCertificateCall.creates named missing (free refl) (last_free refl))
                  (λ cert _. check_certificate-Ensures cert) (λ _ _. tt))
              (λ _ _. tt))
          (λ _ _. tt)

    ensure_certificate-Ensures :
        (r : Result Certificate)
        → Obs (get_certificate (certificate_key cfg name)) r
        → Ensures Obs IsCertificateCall
            (λ _. Unit)
            (ensure_certificate targets libraries name hostname cfg inst r)
    ensure_certificate-Ensures (ok cert) shown = check_certificate-Ensures cert
    ensure_certificate-Ensures (err not_found) shown = create_new-Ensures shown
    ensure_certificate-Ensures (err conflict) shown = done tt
    ensure_certificate-Ensures (err already_exists) shown = done tt
    ensure_certificate-Ensures (err (rejection _)) shown = done tt
    ensure_certificate-Ensures (err (failure _)) shown = done tt
    ensure_certificate-Ensures (err (tls_not_ready _)) shown = done tt
    ensure_certificate-Ensures (err (join _ _)) shown = done tt

  pub reconcile_byoc_managed_certificate-Ensures :
      Ensures Obs IsCertificateCall
        (λ _. Unit)
        (reconcile_byoc_managed_certificate targets libraries inst cfg target_id)
  unfolding reconcile_byoc_managed_certificate
  reconcile_byoc_managed_certificate-Ensures =
      Ensures-if (not (validate_byoc_tls_issuer targets cfg)) (λ _. done tt)
        (λ _. elim (Result-cases (byoc_tls_identity targets inst cfg target_id)) [
          | inr (e, refused) ↦ rw refused (done tt)
          | inl ((name, hostname), named) ↦ rw named (
              Ensures-try _ (IsCertificateCall.reads _)
                (λ r shown. ensure_certificate-Ensures name hostname named r shown))
        ])
