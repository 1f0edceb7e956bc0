-- ===== src/Byoc/Material/Delivered.antt =====
-- Which key material `reconcileBYOCTLSSecret` writes, and where.
use showroom_msp_private_llm.Prelude.{
  ℕ, String, ◌≡◌, refl, ◌⊎◌, true, false, not, Option, none, some, inl, inr, true_of_not,
}
use showroom_msp_private_llm.Prelude.Lists.{All}
use showroom_msp_private_llm.Prelude.Dict.{Dict}
use showroom_msp_private_llm.Kube.{LlmInstance, Secret, is_some}
use showroom_msp_private_llm.Kube.Remote.{Certificate, CertificateSpec}
use showroom_msp_private_llm.Kube.Workloads.{home, remote}
use showroom_msp_private_llm.Api.{
  not_found, Result, ok, err, Key, Call, Answer, get_secret, get_certificate,
}
use showroom_msp_private_llm.Api.Ensures.{
  Ensures, done, Ensures-mono, Ensures-bind, Ensures-lift, Ensures-call, Ensures-try, Ensures-if,
  Ensures-calls,
}
use showroom_msp_private_llm.Api.Trace.{Seen, run, run_sound}
use showroom_msp_private_llm.Byoc.Target.{
  TlsConfig, byoc_tls_identity, byoc_tls_target, require_byoc_tls_owner, require_byoc_target_secret,
}
use showroom_msp_private_llm.Byoc.Certificates.{
  validate_byoc_tls_issuer, byoc_certificate_spec, certificate_key,
  preserve_byoc_certificate_renewal, require_byoc_source_secret,
}
use showroom_msp_private_llm.Byoc.Material.{
  MaterialLibraries, is_revoked, is_source_revoked, is_issued, validate_byoc_tls_material,
  issued_material, judge_source, retained, judge_cache, cache_key, choose_material, destination,
  deliver, deliver_converged, deliver_of, reconcile_byoc_tls_secret,
}
use showroom_msp_private_llm.Byoc.Material.Written.{IsTlsCall, write_byoc_tls_secret-Ensures}
use showroom_msp_private_llm.Byoc.Material.Usable.{IsUsable, validate_byoc_tls_material-IsUsable}

module _ (Obs : (c : Call) → Result (Answer c) → Type 0) where
  module _ (libraries : MaterialLibraries) (inst : LlmInstance) (cfg : TlsConfig)
      (name hostname target : String) (now : ℕ) where
    -- A Certificate that is the instance's, as the operator wants it, and not revoked.
    pub record IsCurrent (cert : Certificate) : Type 0 where
      pub shown : Obs (get_certificate (certificate_key cfg name)) (ok cert)
      pub owned : require_byoc_tls_owner cert.meta inst ≡ true
      pub kept : is_some cert.meta.deleting ≡ false
      pub desired : CertificateSpec
      pub wanted :
          preserve_byoc_certificate_renewal libraries.certificates cert
            (byoc_certificate_spec name hostname cert.meta.uid cfg inst)
          ≡ ok desired
      pub converged : libraries.certificates.same_spec cert.spec desired ≡ true
      pub not_revoked : is_revoked cert ≡ false

    -- The content of the source Secret of such a Certificate, once issued.
    pub record IsIssued (material : Dict × String) : Type 0 where
      pub cert : Certificate
      pub current : IsCurrent cert
      pub issued : is_issued cert ≡ true
      pub source : Secret
      pub found : Obs (get_secret (certificate_key cfg name)) (ok source)
      pub bound : require_byoc_source_secret source cert inst ≡ true
      pub not_revoked : is_source_revoked source ≡ false
      pub same : source.content ≡ material.0
      pub usable : IsUsable libraries material.0 hostname now material.1

    -- The content of the operator's own copy of the last valid pair.
    pub record IsRetained (material : Dict × String) : Type 0 where
      pub cert : Certificate
      pub current : IsCurrent cert
      pub copy : Secret
      pub found : Obs (get_secret (cache_key libraries inst cfg name hostname target now)) (ok copy)
      pub bound : require_byoc_target_secret copy inst target ≡ true
      pub same : copy.content ≡ material.0
      pub usable : IsUsable libraries material.0 hostname now material.1

    -- The calls of `reconcileBYOCTLSSecret` after the names are known. The source's pair goes to the
    -- operator's copy, and the source's or the copy's to the tenant's cluster.
    pub data IsDeliveryCall (kubeconfig : String) : Call → Type 0 where
      reads_certificate : (key : Key) → IsDeliveryCall kubeconfig (get_certificate key)
      looks : (key : Key) → IsDeliveryCall kubeconfig (get_secret key)
      retains :
          (material : Dict × String) {c : Call}
          → IsIssued material
          → IsTlsCall Obs
              (cache_key libraries inst cfg name hostname target now)
              inst
              target
              material.0
              home
              c
          → IsDeliveryCall kubeconfig c
      delivers :
          (material : Dict × String) {c : Call}
          → IsIssued material ⊎ IsRetained material
          → IsTlsCall Obs
              (destination libraries inst cfg name hostname target now)
              inst
              target
              material.0
              (remote kubeconfig)
              c
          → IsDeliveryCall kubeconfig c

    -- The returned revision is the digest of what was delivered.
    abbrev pub IfDelivered : Result String → Type 0
    IfDelivered (ok revision) =
        (material : Dict × String) × (IsIssued material ⊎ IsRetained material)
        × (material.1 ≡ revision)
    IfDelivered (err e) = Unit

    module _ (kubeconfig : String) (cert : Certificate) (current : IsCurrent cert) where
      abbrev IfIssued : Result (Option (Dict × String)) → Type 0
      IfIssued (ok (some material)) = IsIssued material
      IfIssued (ok none) = Unit
      IfIssued (err e) = Unit

      abbrev IfChosen : Result (Dict × String) → Type 0
      IfChosen (ok material) = IsIssued material ⊎ IsRetained material
      IfChosen (err e) = Unit

      judge_source-Ensures :
          (r : Result Secret)
          → Obs (get_secret (certificate_key cfg name)) r
          → Ensures Obs
              (IsDeliveryCall kubeconfig)
              IfIssued
              (judge_source libraries inst cfg name hostname target now cert r)
      judge_source-Ensures (err not_found) found = done tt
      judge_source-Ensures (err e) found = done tt
      judge_source-Ensures (ok source) found =
          Ensures-if (not (require_byoc_source_secret source cert inst)) (λ _. done tt)
            (λ bound.
              Ensures-if (is_source_revoked source) (λ _. done tt)
                (λ good.
                  Ensures-if (not (is_issued cert)) (λ _. done tt)
                    (λ issued.
                      judge (true_of_not _ bound) good (true_of_not _ issued)
                        (validate_byoc_tls_material libraries source.content hostname now) refl)))
        where
          judge :
              require_byoc_source_secret source cert inst ≡ true
              → is_source_revoked source ≡ false
              → is_issued cert ≡ true
              → (v : Result String)
              → validate_byoc_tls_material libraries source.content hostname now ≡ v
              → Ensures Obs
                  (IsDeliveryCall kubeconfig)
                  IfIssued
                  (issued_material libraries inst cfg name hostname target now source v)
          judge bound good issued (ok revision) valid = done (record {
            cert = cert;
            current = current;
            issued = issued;
            source = source;
            found = found;
            bound = bound;
            not_revoked = good;
            same = refl;
            usable = validate_byoc_tls_material-IsUsable libraries _ hostname now revision valid;
          })
          judge bound good issued (err e) valid = done tt

      judge_cache-Ensures :
          (r : Result Secret)
          → Obs (get_secret (cache_key libraries inst cfg name hostname target now)) r
          → Ensures Obs
              (IsDeliveryCall kubeconfig)
              IfChosen
              (judge_cache libraries inst cfg name hostname target now r)
      judge_cache-Ensures (err not_found) found = done tt
      judge_cache-Ensures (err e) found = done tt
      judge_cache-Ensures (ok copy) found =
          Ensures-if (not (require_byoc_target_secret copy inst target)) (λ _. done tt)
            (λ bound.
              judge (true_of_not _ bound)
                (validate_byoc_tls_material libraries copy.content hostname now) refl)
        where
          judge :
              require_byoc_target_secret copy inst target ≡ true
              → (v : Result String)
              → validate_byoc_tls_material libraries copy.content hostname now ≡ v
              → Ensures Obs
                  (IsDeliveryCall kubeconfig)
                  IfChosen
                  (retained libraries inst cfg name hostname target now copy v)
          judge bound (ok revision) valid = done (
              inr (record {
                cert = cert;
                current = current;
                copy = copy;
                found = found;
                bound = bound;
                same = refl;
                usable =
                    validate_byoc_tls_material-IsUsable libraries _ hostname now revision valid;
              }))
          judge bound (err e) valid = done tt

      choose_material-Ensures :
          (issued : Option (Dict × String))
          → IfIssued (ok issued)
          → Ensures Obs
              (IsDeliveryCall kubeconfig)
              IfChosen
              (choose_material libraries inst cfg name hostname target now issued)
      choose_material-Ensures (some material) h =
          Ensures-bind
            (Ensures-calls (λ c w. IsDeliveryCall.retains material h w)
              (write_byoc_tls_secret-Ensures Obs _ inst target material.0 home))
            (λ _ _. done (inl h)) (λ _ _. tt)
      choose_material-Ensures none h = Ensures-try _ (IsDeliveryCall.looks _) judge_cache-Ensures

      deliver-Ensures :
          Ensures Obs
            (IsDeliveryCall kubeconfig)
            IfDelivered
            (deliver libraries inst cfg name hostname target now kubeconfig cert)
      unfolding deliver
      deliver-Ensures = Ensures-try _ (IsDeliveryCall.looks _) (λ r found.
          Ensures-bind (judge_source-Ensures r found)
            (λ issued h.
              Ensures-bind (choose_material-Ensures issued h)
                (λ material chosen.
                  Ensures-bind
                    (Ensures-calls (λ c w. IsDeliveryCall.delivers material chosen w)
                      (write_byoc_tls_secret-Ensures Obs _ inst target material.0
                        (remote kubeconfig)))
                    (λ _ _. done (material, chosen, refl)) (λ _ _. tt))
                (λ _ _. tt))
            (λ _ _. tt))

    deliver_of-Ensures :
        (kubeconfig : String) (cert : Certificate)
        → Obs (get_certificate (certificate_key cfg name)) (ok cert)
        → Ensures Obs
            (IsDeliveryCall kubeconfig)
            IfDelivered
            (deliver_of libraries inst cfg name hostname target now kubeconfig cert)
    deliver_of-Ensures kubeconfig cert shown =
        Ensures-if (not (require_byoc_tls_owner cert.meta inst)) (λ _. done tt)
          (λ owned.
            Ensures-if (is_some cert.meta.deleting) (λ _. done tt)
              (λ stays. converged (true_of_not _ owned) stays _ refl))
      where
        converged :
            require_byoc_tls_owner cert.meta inst ≡ true
            → is_some cert.meta.deleting ≡ false
            → (d : Result CertificateSpec)
            → preserve_byoc_certificate_renewal libraries.certificates cert
                (byoc_certificate_spec name hostname cert.meta.uid cfg inst)
              ≡ d
            → Ensures Obs
                (IsDeliveryCall kubeconfig)
                IfDelivered
                (deliver_converged libraries inst cfg name hostname target now kubeconfig cert d)
        converged owned stays (err e) spec = done tt
        converged owned stays (ok wanted) spec =
            Ensures-if (not (libraries.certificates.same_spec cert.spec wanted)) (λ _. done tt)
              (λ same.
                Ensures-if (is_revoked cert) (λ _. done tt)
                  (λ good. deliver-Ensures kubeconfig cert (record {
                    shown = shown;
                    owned = owned;
                    kept = stays;
                    desired = wanted;
                    wanted = spec;
                    converged = true_of_not _ same;
                    not_revoked = good;
                  })))

  module _ (libraries : MaterialLibraries) (kubeconfig : String) (inst : LlmInstance)
      (cfg : TlsConfig) (target_id : String) (now : ℕ) where
    -- The names under which it goes, as `byocTLSIdentity` and `byocTLSTarget` give them.
    pub record IsNamed (name hostname target : String) : Type 0 where
      pub identity : byoc_tls_identity libraries.targets inst cfg target_id ≡ ok (name, hostname)
      pub targeted : byoc_tls_target libraries.targets target_id ≡ ok target

    pub data IsTlsDelivery : Call → Type 0 where
      under :
          {c : Call} (name hostname target : String)
          → IsNamed name hostname target
          → IsDeliveryCall libraries inst cfg name hostname target now kubeconfig c
          → IsTlsDelivery c

    abbrev pub IfTlsDelivered : Result String → Type 0
    IfTlsDelivered (err e) = Unit
    IfTlsDelivered (ok revision) =
        (name hostname target : String) × IsNamed name hostname target
        × IfDelivered libraries inst cfg name hostname target now (ok revision)

    abbrev named_result :
        (name hostname target : String)
        → IsNamed name hostname target
        → (r : Result String) → IfDelivered libraries inst cfg name hostname target now r
        → IfTlsDelivered r
    named_result name hostname target names (ok revision) h = (name, hostname, target, names, h)
    named_result name hostname target names (err e) h = tt

    reconcile_byoc_tls_secret-Ensures :
        Ensures Obs IsTlsDelivery IfTlsDelivered
          (reconcile_byoc_tls_secret libraries kubeconfig inst cfg target_id now)
    unfolding reconcile_byoc_tls_secret
    reconcile_byoc_tls_secret-Ensures =
        Ensures-if (not (validate_byoc_tls_issuer libraries.targets cfg)) (λ _. done tt)
          (λ _.
            Ensures-lift (byoc_tls_identity libraries.targets inst cfg target_id)
              (λ names identity.
                Ensures-lift (byoc_tls_target libraries.targets target_id)
                  (λ target targeted.
                    let known : IsNamed names.0 names.1 target = record {
                      identity = identity;
                      targeted = targeted;
                    } in
                    Ensures-call _
                      (IsTlsDelivery.under names.0 names.1 target known
                        (IsDeliveryCall.reads_certificate _))
                      (λ cert shown. Ensures-mono (named_result names.0 names.1 target known) (
                        Ensures-calls (λ c h. IsTlsDelivery.under names.0 names.1 target known h)
                          (deliver_of-Ensures libraries inst cfg names.0 names.1 target now
                            kubeconfig cert shown)))
                      (λ _ _. tt))
                  (λ _ _. tt))
              (λ _ _. tt))

module _ {W : Type 0} (answer : W → (c : Call) → Result (Answer c) × W)
    (libraries : MaterialLibraries) (kubeconfig : String) (inst : LlmInstance) (cfg : TlsConfig)
    (target_id : String) (now : ℕ) where
  -- Whatever the API servers answer, `reconcileBYOCTLSSecret` writes to the tenant's cluster and to
  -- the operator's copy only certificates with their keys that `validateBYOCTLSMaterial` accepts now
  -- for the instance's host name: the pair of the source Secret, bound to the instance's issued
  -- Certificate, or, on the tenant's cluster, the pair of the operator's copy, bound to the instance
  -- and the target; both only while the Certificate carries the instance's UID, is not being
  -- deleted, has the wanted spec and is not revoked, and the source Secret only if it is not revoked
  -- either. It overwrites only Secrets bound to the instance and the target, and creates one only
  -- where none was found. The returned revision is that of such a pair.
  pub reconcile_byoc_tls_secret_sound :
      (w : W)
      → IfTlsDelivered
          (Seen
            (run answer
              (reconcile_byoc_tls_secret libraries kubeconfig inst cfg target_id now)
              w).1)
          libraries
          kubeconfig
          inst
          cfg
          target_id
          now
          (run answer (reconcile_byoc_tls_secret libraries kubeconfig inst cfg target_id now) w).0
        × All
            (λ e.
              IsTlsDelivery
                (Seen
                  (run answer
                    (reconcile_byoc_tls_secret libraries kubeconfig inst cfg target_id now)
                    w).1)
                libraries
                kubeconfig
                inst
                cfg
                target_id
                now
                e.0)
            (run answer (reconcile_byoc_tls_secret libraries kubeconfig inst cfg target_id now) w).1
  reconcile_byoc_tls_secret_sound w =
      run_sound answer (reconcile_byoc_tls_secret libraries kubeconfig inst cfg target_id now) w (
        reconcile_byoc_tls_secret-Ensures
          (Seen
            (run answer (reconcile_byoc_tls_secret libraries kubeconfig inst cfg target_id now)
              w).1)
          libraries kubeconfig inst cfg target_id now)
