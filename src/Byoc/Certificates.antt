-- ===== src/Byoc/Certificates.antt =====
-- The managed certificate of a remote instance, in internal/controller/llminstance_byoc_tls.go:
-- `validateBYOCTLSIssuer`, `byocCertificateSpec`, `preserveBYOCCertificateRenewal`,
-- `requireBYOCSourceSecret` and `reconcileBYOCManagedCertificate`.
pub mod Bound
use showroom_msp_private_llm.Prelude.{
  String, Bool, true, false, Option, none, some, List, [], ◌∷◌, ◌||◌, ◌&&◌, not, ◌==◌,
  if◌then◌else◌,
}
use showroom_msp_private_llm.Prelude.Text.{◌+++◌}
use showroom_msp_private_llm.Prelude.Dict.{Dict, get}
use showroom_msp_private_llm.Prelude.Int.{pos}
use showroom_msp_private_llm.Kube.{OwnerRef, LlmInstance, Secret, is_some}
use showroom_msp_private_llm.Kube.Remote.{
  Field, absent, malformed, boolean, text, other, CertificateSpec, Certificate,
}
use showroom_msp_private_llm.Api.{
  Error, not_found, failure, tls_not_ready, Result, ok, err, Key, Api, pure, throw, ◌>>=◌, ◌>>◌,
  request, attempt, lift, get_secret, get_certificate, create_certificate, update_certificate,
}
use showroom_msp_private_llm.Hosted.Backend.{fresh_meta}
use showroom_msp_private_llm.Byoc.Target.{
  TargetLibraries, TlsConfig, byoc_tls_identity, require_byoc_tls_owner, tls_owner_label,
  tls_certificate_label, tls_secret_type,
}

abbrev pub certificate_api : String
certificate_api = "cert.gardener.cloud/v1alpha1"

-- An owner reference to the Certificate of a name and UID.
abbrev is_certificate : String → String → OwnerRef → Bool
is_certificate name uid owner =
    owner.api_version == certificate_api
    && (owner.kind == "Certificate" && (owner.name == name && owner.uid == uid))

-- The loops over the owner references of a Secret; true where none is foreign.
unfoldable pub owned_by_certificate : String → String → List OwnerRef → Bool
owned_by_certificate name uid [] = true
owned_by_certificate name uid (owner ∷ owners) =
    is_certificate name uid owner && owned_by_certificate name uid owners

-- `requireBYOCSourceSecret`; true where it returns nil
unfoldable pub require_byoc_source_secret : Secret → Certificate → LlmInstance → Bool
require_byoc_source_secret secret cert inst =
    not (cert.meta.uid == "")
    && (get secret.meta.labels tls_owner_label == inst.meta.uid
        && (get secret.meta.labels tls_certificate_label == cert.meta.uid
            && (owned_by_certificate cert.meta.name cert.meta.uid secret.meta.owners
                && secret.type == tls_secret_type)))

-- `firstIssuance`
unfoldable pub is_first_issuance : String → Secret → Certificate → LlmInstance → Bool
is_first_issuance name secret cert inst =
    get cert.spec.secret_labels tls_certificate_label == ""
    && (get secret.meta.labels tls_certificate_label == ""
        && (get secret.meta.labels tls_owner_label == inst.meta.uid
            && (secret.type == tls_secret_type
                && owned_by_certificate name cert.meta.uid secret.meta.owners)))

-- `byocCertificateSpec`, with `byocIssuerRef`
unfoldable pub byoc_certificate_spec :
    String → String → String → TlsConfig → LlmInstance → CertificateSpec
byoc_certificate_spec name hostname certificate_uid cfg inst = record {
  dns_names = hostname ∷ [];
  secret_name = name;
  secret_namespace = cfg.namespace;
  issuer_name = cfg.issuer_name;
  issuer_namespace = cfg.issuer_namespace;
  secret_labels =
      (tls_owner_label, inst.meta.uid)
      ∷ (if certificate_uid == "" then [] else (tls_certificate_label, certificate_uid) ∷ []);
  renew = absent;
  ensure_renewed_after = absent;
  rest = "";
}

-- `reflect.DeepEqual` on specs, and whether `time.Parse` reads an RFC 3339 time.
pub record CertificateLibraries : Type 0 where
  pub same_spec : CertificateSpec → CertificateSpec → Bool
  pub is_time : String → Bool

-- `validateBYOCTLSIssuer`; true where it returns nil
unfoldable pub validate_byoc_tls_issuer : TargetLibraries → TlsConfig → Bool
validate_byoc_tls_issuer libraries cfg =
    not (cfg.issuer_name == "")
    && (libraries.is_dns1123_subdomain cfg.issuer_name
        && (cfg.issuer_namespace == "" || libraries.is_dns1123_label cfg.issuer_namespace))

-- The loop of `preserveBYOCCertificateRenewal`, field by field.
unfoldable pub preserved_renew : Field → Result Field
preserved_renew absent = ok absent
preserved_renew (boolean b) = ok (boolean b)
preserved_renew malformed = err (failure "invalid BYOC Certificate renewal specification")
preserved_renew _ = err (failure "BYOC Certificate renew must be a boolean")

abbrev checked_time : Bool → String → Result Field
checked_time true t = ok (text t)
checked_time false t =
    err (failure "BYOC Certificate ensureRenewedAfter must be an RFC3339 timestamp")

unfoldable pub preserved_time : CertificateLibraries → Field → Result Field
preserved_time libraries absent = ok absent
preserved_time libraries (text t) = checked_time (libraries.is_time t) t
preserved_time libraries malformed = err (failure "invalid BYOC Certificate renewal specification")
preserved_time libraries _ =
    err (failure "BYOC Certificate ensureRenewedAfter must be an RFC3339 timestamp")

-- `preserveBYOCCertificateRenewal`
unfoldable pub preserve_byoc_certificate_renewal :
    CertificateLibraries → Certificate → CertificateSpec → Result CertificateSpec
preserve_byoc_certificate_renewal libraries cert desired = elim (preserved_renew cert.spec.renew) [
  | err e ↦ err e
  | ok renew ↦ (elim (preserved_time libraries cert.spec.ensure_renewed_after) [
    | err e ↦ err e
    | ok after ↦ ok (record desired { renew = renew; ensure_renewed_after = after })
  ])
]

abbrev pub certificate_key : TlsConfig → String → Key
certificate_key cfg name = record { namespace = cfg.namespace; name = name }

abbrev pub last_valid : String → String
last_valid name = name +++ "-last-valid"

abbrev unless_free : Result Secret → Api (Unit {0})
unless_free (ok _) = throw (failure "refusing pre-existing BYOC TLS Secret")
unless_free (err not_found) = pure tt
unless_free (err e) = throw e

abbrev refuse_secret : Key → Api (Unit {0})
refuse_secret key = do found ← attempt (request (get_secret key)); unless_free found

-- The Certificate that `reconcileBYOCManagedCertificate` creates.
unfoldable pub new_certificate : String → String → TlsConfig → LlmInstance → Certificate
new_certificate name hostname cfg inst = record {
  meta = fresh_meta cfg.namespace name ((tls_owner_label, inst.meta.uid) ∷ []);
  spec = byoc_certificate_spec name hostname "" cfg inst;
  state = "";
  observed_generation = pos 0;
}

module _ (targets : TargetLibraries) (libraries : CertificateLibraries) where
  abbrev update_spec : Certificate → Result CertificateSpec → Api (Unit {0})
  update_spec cert (err e) = throw e
  update_spec cert (ok desired) =
      if libraries.same_spec cert.spec desired
      then pure tt
      else do _ ← request (update_certificate (record cert { spec = desired })); pure tt

  abbrev converge_spec : String → String → TlsConfig → LlmInstance → Certificate → Api (Unit {0})
  converge_spec name hostname cfg inst cert = update_spec cert (
      preserve_byoc_certificate_renewal libraries cert
        (byoc_certificate_spec name hostname cert.meta.uid cfg inst))

  abbrev check_source :
      String → String → TlsConfig → LlmInstance → Certificate → Result Secret → Api (Unit {0})
  check_source name hostname cfg inst cert (ok source) =
      if require_byoc_source_secret source cert inst || is_first_issuance name source cert inst
      then converge_spec name hostname cfg inst cert
      else throw (failure "source TLS Secret is not bound to the instance Certificate")
  check_source name hostname cfg inst cert (err not_found) =
      converge_spec name hostname cfg inst cert
  check_source name hostname cfg inst cert (err e) = throw e

  -- The part of `reconcileBYOCManagedCertificate` for a Certificate that was read or created.
  abbrev check_certificate :
      String → String → TlsConfig → LlmInstance → Certificate → Api (Unit {0})
  check_certificate name hostname cfg inst cert =
      if not (require_byoc_tls_owner cert.meta inst)
      then throw (failure "refusing foreign BYOC TLS object")
      else if is_some cert.meta.deleting
      then throw (tls_not_ready "Certificate is deleting")
      else if cert.meta.uid == ""
      then throw (tls_not_ready "Certificate has no UID")
      else (do
        found ← attempt (request (get_secret (certificate_key cfg name)))
        check_source name hostname cfg inst cert found)

  abbrev create_new : String → String → TlsConfig → LlmInstance → Api (Unit {0})
  create_new name hostname cfg inst = do
    _ ← refuse_secret (certificate_key cfg name)
    _ ← refuse_secret (certificate_key cfg (last_valid name))
    cert ← request (create_certificate (new_certificate name hostname cfg inst))
    check_certificate name hostname cfg inst cert

  abbrev ensure_certificate :
      String → String → TlsConfig → LlmInstance → Result Certificate → Api (Unit {0})
  ensure_certificate name hostname cfg inst (ok cert) =
      check_certificate name hostname cfg inst cert
  ensure_certificate name hostname cfg inst (err not_found) = create_new name hostname cfg inst
  ensure_certificate name hostname cfg inst (err e) = throw e

  abbrev reconcile_named : TlsConfig → LlmInstance → Result (String × String) → Api (Unit {0})
  reconcile_named cfg inst (err e) = throw e
  reconcile_named cfg inst (ok (name, hostname)) = do
    found ← attempt (request (get_certificate (certificate_key cfg name)))
    ensure_certificate name hostname cfg inst found

  -- `reconcileBYOCManagedCertificate`
  unfoldable pub reconcile_byoc_managed_certificate :
      LlmInstance → TlsConfig → String → Api (Unit {0})
  reconcile_byoc_managed_certificate inst cfg target_id =
      if not (validate_byoc_tls_issuer targets cfg)
      then throw (failure "BYOC TLS requires a valid issuer")
      else reconcile_named cfg inst (byoc_tls_identity targets inst cfg target_id)
