-- ===== src/Byoc/Material.antt =====
-- The delivery of an issued certificate to a tenant's cluster, in
-- internal/controller/llminstance_byoc_tls.go: `validateBYOCTLSMaterial`, `writeBYOCTLSSecret` and
-- `reconcileBYOCTLSSecret`.
pub mod Usable
pub mod Written
pub mod Delivered
use showroom_msp_private_llm.Prelude.{
  ℕ, String, Bool, true, false, Option, none, some, List, [], ◌∷◌, ◌+◌, ◌||◌, ◌&&◌, not, ◌==◌, ltb,
  leb, nat_eq, if◌then◌else◌,
}
use showroom_msp_private_llm.Prelude.Dict.{Dict, get, has}
use showroom_msp_private_llm.Prelude.Int.{ℤ, pos, negsuc}
use showroom_msp_private_llm.Kube.{LlmInstance, Secret, is_some}
use showroom_msp_private_llm.Kube.Remote.{Certificate, CertificateSpec}
use showroom_msp_private_llm.Kube.Workloads.{Cluster, home, remote}
use showroom_msp_private_llm.Api.{
  not_found, failure, tls_not_ready, Result, ok, err, Key, Api, pure, throw, ◌>>=◌, request,
  attempt, lift, get_secret, create_secret, update_secret, get_certificate, get_remote_secret,
  create_remote_secret, update_remote_secret,
}
use showroom_msp_private_llm.Hosted.Backend.{fresh_meta}
use showroom_msp_private_llm.Byoc.Target.{
  TargetLibraries, TlsConfig, byoc_namespace, byoc_tls_identity, byoc_tls_target,
  require_byoc_tls_owner, require_byoc_target_secret, tls_owner_label, tls_target_label,
  tls_secret_type,
}
use showroom_msp_private_llm.Byoc.Certificates.{
  CertificateLibraries, validate_byoc_tls_issuer, byoc_certificate_spec, certificate_key,
  last_valid, preserve_byoc_certificate_renewal, require_byoc_source_secret,
}

-- The bits of a public key, of the kinds that the code tells apart.
pub data PublicKey : Type 0 where
  rsa ecdsa : ℕ → PublicKey
  unsupported : PublicKey

-- `x509.Certificate`; times are nanoseconds, and usages `x509.ExtKeyUsage`'s numbers.
pub record Leaf : Type 0 where
  pub is_ca : Bool
  pub dns_names : List String
  pub ip_addresses : List String
  pub email_addresses : List String
  pub uris : List String
  pub not_before : ℕ
  pub not_after : ℕ
  pub ext_key_usage : List ℕ
  pub public_key : PublicKey

-- `tls.X509KeyPair`, with the first certificate and the others; `x509.ParseCertificate`; whether
-- `leaf.Verify` accepts the leaf with the given intermediates for a host name, at a time, against
-- the operator's roots and for servers.
pub record MaterialLibraries : Type 0 where
  pub targets : TargetLibraries
  pub certificates : CertificateLibraries
  pub key_pair : String → String → Option (String × List String)
  pub parse_certificate : String → Option Leaf
  pub verifies : String → List String → String → ℕ → Bool

abbrev pub tls_cert_key : String
tls_cert_key = "tls.crt"

abbrev pub tls_private_key_key : String
tls_private_key_key = "tls.key"

abbrev is_empty : List String → Bool
is_empty [] = true
is_empty (_ ∷ _) = false

abbrev is_only : String → List String → Bool
is_only name [] = false
is_only name (n ∷ names) = n == name && is_empty names

unfoldable pub names_only : Leaf → String → Bool
names_only leaf hostname =
    not leaf.is_ca
    && (is_only hostname leaf.dns_names
        && (is_empty leaf.ip_addresses && (is_empty leaf.email_addresses && is_empty leaf.uris)))

-- `byocTLSRenewalMargin`
abbrev pub renewal_margin : ℕ
renewal_margin = 120000000000

unfoldable pub is_in_period : Leaf → ℕ → Bool
is_in_period leaf now = ltb (now + renewal_margin) leaf.not_after && leb leaf.not_before now

unfoldable pub has_server_auth : List ℕ → Bool
has_server_auth [] = false
has_server_auth (usage ∷ usages) = nat_eq usage 1 || has_server_auth usages

unfoldable pub is_strong : PublicKey → Bool
is_strong (rsa bits) = leb 2048 bits
is_strong (ecdsa bits) = leb 256 bits
is_strong unsupported = false

-- `copyBYOCTLSData`
unfoldable pub copy_byoc_tls_data : Dict → Dict
copy_byoc_tls_data content =
    (tls_cert_key, get content tls_cert_key)
    ∷ (tls_private_key_key, get content tls_private_key_key)
    ∷ []

abbrev has_only_pair : Dict → Bool
has_only_pair [] = true
has_only_pair ((k, _) ∷ rest) =
    (k == tls_cert_key || k == tls_private_key_key) && has_only_pair rest

-- `reflect.DeepEqual` of a Secret's data with what `copyBYOCTLSData` makes.
unfoldable pub same_pair : Dict → Dict → Bool
same_pair content desired =
    has_only_pair content
    && (has content tls_cert_key
        && (has content tls_private_key_key
            && (get content tls_cert_key == get desired tls_cert_key
                && get content tls_private_key_key == get desired tls_private_key_key)))

abbrev is_generation : ℤ → ℕ → Bool
is_generation (pos n) m = nat_eq n m
is_generation (negsuc _) m = false

abbrev revoked_annotation : String
revoked_annotation = "cert.gardener.cloud/revoked"

unfoldable pub is_revoked : Certificate → Bool
is_revoked cert = cert.state == "Revoked" || get cert.meta.annotations revoked_annotation == "true"

abbrev pub is_source_revoked : Secret → Bool
is_source_revoked source = get source.meta.annotations revoked_annotation == "true"

unfoldable pub is_issued : Certificate → Bool
is_issued cert =
    cert.state == "Ready" && is_generation cert.observed_generation cert.meta.generation

-- The client of `writeBYOCTLSSecret`: the controller's own, or the one of a kubeconfig.
abbrev pub read_tls : Cluster → Key → Api Secret
read_tls home key = request (get_secret key)
read_tls (remote kubeconfig) key = request (get_remote_secret kubeconfig key)

abbrev pub create_tls : Cluster → Secret → Api Secret
create_tls home sec = request (create_secret sec)
create_tls (remote kubeconfig) sec = request (create_remote_secret kubeconfig sec)

abbrev pub update_tls : Cluster → Secret → Api Secret
update_tls home sec = request (update_secret sec)
update_tls (remote kubeconfig) sec = request (update_remote_secret kubeconfig sec)

-- The Secret that `writeBYOCTLSSecret` creates.
unfoldable pub new_tls_secret : Key → LlmInstance → String → Dict → Secret
new_tls_secret key inst target content = record {
  meta =
      fresh_meta key.namespace key.name
        ((tls_owner_label, inst.meta.uid) ∷ (tls_target_label, target) ∷ []);
  type = tls_secret_type;
  content = copy_byoc_tls_data content;
  string_data = [];
}

abbrev pub write_found :
    Cluster → Key → LlmInstance → String → Dict → Result Secret → Api (Unit {0})
write_found cluster key inst target content (err not_found) = do
  _ ← create_tls cluster (new_tls_secret key inst target content)
  pure tt
write_found cluster key inst target content (err e) = throw e
write_found cluster key inst target content (ok sec) =
    if not (require_byoc_target_secret sec inst target)
    then throw (failure "TLS Secret is not bound to the verified target")
    else if is_some sec.meta.deleting
    then throw (tls_not_ready "TLS Secret is deleting")
    else if same_pair sec.content (copy_byoc_tls_data content)
    then pure tt
    else (do _ ← update_tls cluster (record sec { content = copy_byoc_tls_data content }); pure tt)

-- `writeBYOCTLSSecret`
unfoldable pub write_byoc_tls_secret : Cluster → Key → LlmInstance → String → Dict → Api (Unit {0})
write_byoc_tls_secret cluster key inst target content = do
  found ← attempt (read_tls cluster key)
  write_found cluster key inst target content found

module _ (libraries : MaterialLibraries) where
  abbrev parses_all : List String → Bool
  parses_all [] = true
  parses_all (raw ∷ rest) = elim (libraries.parse_certificate raw) [
    | none ↦ false
    | some _ ↦ parses_all rest
  ]

  abbrev pub validate_leaf : String → ℕ → String → List String → Option Leaf → Result String
  validate_leaf hostname now raw rest none = err (failure "TLS leaf certificate is invalid")
  validate_leaf hostname now raw rest (some leaf) =
      if not (names_only leaf hostname)
      then err (failure "TLS certificate must contain only the instance DNS SAN")
      else if not (is_in_period leaf now)
      then err (failure "TLS certificate is outside its usable validity period")
      else if not (has_server_auth leaf.ext_key_usage)
      then err (failure "TLS certificate lacks serverAuth usage")
      else if not (is_strong leaf.public_key)
      then err (failure "TLS public key is too small or of an unsupported type")
      else if not (parses_all rest)
      then err (failure "TLS certificate chain is invalid")
      else if not (libraries.verifies raw rest hostname now)
      then err (failure "TLS certificate chain or hostname verification failed")
      else ok (libraries.targets.sha256 raw)

  abbrev pub validate_pair : String → ℕ → Option (String × List String) → Result String
  validate_pair hostname now none =
      err (failure "TLS certificate and key are invalid or do not match")
  validate_pair hostname now (some (raw, rest)) =
      validate_leaf hostname now raw rest (libraries.parse_certificate raw)

  -- `validateBYOCTLSMaterial`
  unfoldable pub validate_byoc_tls_material : Dict → String → ℕ → Result String
  validate_byoc_tls_material content hostname now =
      validate_pair hostname now
        (libraries.key_pair (get content tls_cert_key) (get content tls_private_key_key))

  -- `now` is the reading of the clock, `data` and `revision` of the code are a pair.
  module _ (inst : LlmInstance) (cfg : TlsConfig) (name hostname target : String) (now : ℕ) where
    abbrev pub issued_material : Secret → Result String → Api (Option (Dict × String))
    issued_material source (ok revision) = pure (some (source.content, revision))
    issued_material source (err _) = pure none

    abbrev pub judge_source : Certificate → Result Secret → Api (Option (Dict × String))
    judge_source cert (err not_found) = pure none
    judge_source cert (err e) = throw e
    judge_source cert (ok source) =
        if not (require_byoc_source_secret source cert inst)
        then throw (failure "source TLS Secret is not bound to the instance Certificate")
        else if is_source_revoked source
        then throw (tls_not_ready "certificate has been revoked")
        else if not (is_issued cert)
        then pure none
        else issued_material source (validate_byoc_tls_material source.content hostname now)

    abbrev pub retained : Secret → Result String → Api (Dict × String)
    retained cache (ok revision) = pure (cache.content, revision)
    retained cache (err _) = throw (tls_not_ready "last serving certificate is no longer valid")

    abbrev pub judge_cache : Result Secret → Api (Dict × String)
    judge_cache (err not_found) = throw (tls_not_ready "no valid issued certificate")
    judge_cache (err e) = throw e
    judge_cache (ok cache) =
        if not (require_byoc_target_secret cache inst target)
        then throw (failure "TLS Secret is not bound to the verified target")
        else retained cache (validate_byoc_tls_material cache.content hostname now)

    abbrev pub cache_key : Key
    cache_key = certificate_key cfg (last_valid name)

    abbrev pub choose_material : Option (Dict × String) → Api (Dict × String)
    choose_material (some (content, revision)) = do
      _ ← write_byoc_tls_secret home cache_key inst target content
      pure (content, revision)
    choose_material none = do found ← attempt (request (get_secret cache_key)); judge_cache found

    abbrev pub destination : Key
    destination = record { namespace = byoc_namespace; name = name }

    -- From the reading of the source Secret on.
    unfoldable pub deliver : String → Certificate → Api String
    deliver kubeconfig cert = do
      found ← attempt (request (get_secret (certificate_key cfg name)))
      issued ← judge_source cert found
      chosen ← choose_material issued
      _ ← write_byoc_tls_secret (remote kubeconfig) destination inst target chosen.0
      pure chosen.1

    abbrev pub deliver_converged : String → Certificate → Result CertificateSpec → Api String
    deliver_converged kubeconfig cert (err e) = throw e
    deliver_converged kubeconfig cert (ok desired) =
        if not (libraries.certificates.same_spec cert.spec desired)
        then throw (tls_not_ready "Certificate specification has not converged")
        else if is_revoked cert
        then throw (tls_not_ready "certificate has been revoked")
        else deliver kubeconfig cert

    abbrev pub deliver_of : String → Certificate → Api String
    deliver_of kubeconfig cert =
        if not (require_byoc_tls_owner cert.meta inst)
        then throw (failure "refusing foreign BYOC TLS object")
        else if is_some cert.meta.deleting
        then throw (tls_not_ready "Certificate is deleting")
        else deliver_converged kubeconfig cert (
            preserve_byoc_certificate_renewal libraries.certificates cert
              (byoc_certificate_spec name hostname cert.meta.uid cfg inst))

  -- `reconcileBYOCTLSSecret`
  unfoldable pub reconcile_byoc_tls_secret :
      String → LlmInstance → TlsConfig → String → ℕ → Api String
  reconcile_byoc_tls_secret kubeconfig inst cfg target_id now =
      if not (validate_byoc_tls_issuer libraries.targets cfg)
      then throw (failure "BYOC TLS requires a valid issuer")
      else (do
        names ← lift (byoc_tls_identity libraries.targets inst cfg target_id)
        target ← lift (byoc_tls_target libraries.targets target_id)
        cert ← request (get_certificate (certificate_key cfg names.0))
        deliver_of inst cfg names.0 names.1 target now kubeconfig cert)
