-- ===== src/Tests/Certificates.antt =====
-- The delivery of a certificate to a tenant's cluster, on a sample where it has just been issued.
use showroom_msp_private_llm.Prelude.{
  ◌↔◌, ◌==◌, ◌&&◌, ℕ, String, ◌≡◌, refl, Bool, true, false, none, some, List, [], ◌∷◌,
}
use showroom_msp_private_llm.Prelude.Lists.{All}
use showroom_msp_private_llm.Prelude.Int.{pos}
use showroom_msp_private_llm.Kube.{Secret}
use showroom_msp_private_llm.Kube.Remote.{Certificate, absent}
use showroom_msp_private_llm.Api.{
  Result, ok, err, Call, Answer, Api, get_secret, get_certificate, create_remote_secret,
  create_dns_entry,
}
use showroom_msp_private_llm.Api.Trace.{Event, Seen, run}
use showroom_msp_private_llm.Api.Counted.{count_calls}
use showroom_msp_private_llm.Byoc.Target.{
  TlsConfig, tls_owner_label, tls_certificate_label, tls_target_label, tls_secret_type,
}
use showroom_msp_private_llm.Byoc.Dns.{AddressLibraries, reconcile_byoc_dns}
use showroom_msp_private_llm.Byoc.Dns.Public.{IsDnsCall, reconcile_byoc_dns_sound}
use showroom_msp_private_llm.Byoc.Material.{
  Leaf, rsa, MaterialLibraries, validate_byoc_tls_material, reconcile_byoc_tls_secret,
}
use showroom_msp_private_llm.Byoc.Material.Usable.{IsUsable, validate_byoc_tls_material_iff}
use showroom_msp_private_llm.Byoc.Material.Delivered.{
  IfTlsDelivered, IsTlsDelivery, reconcile_byoc_tls_secret_sound,
}
use showroom_msp_private_llm.Samples.{
  sample_targets, sample_byoc, sample_instance, sample_secret, meta_of, reply,
}

abbrev sample_leaf : Leaf
sample_leaf = record {
  is_ca = false;
  dns_names = "byoc-digest.models.example" ∷ [];
  ip_addresses = [];
  email_addresses = [];
  uris = [];
  not_before = 1000;
  not_after = 900000000000;
  ext_key_usage = 2 ∷ 1 ∷ [];
  public_key = rsa 4096;
}

abbrev sample_material : MaterialLibraries
sample_material = record {
  targets = sample_targets;
  certificates = record { same_spec = λ _ _. true; is_time = λ _. true };
  key_pair = λ cert key. some (cert, []);
  parse_certificate = λ _. some sample_leaf;
  verifies = λ _ _ _ _. true;
}

abbrev sample_certificate : Certificate
sample_certificate = record {
  meta = meta_of "byoc-digest" "c1" ((tls_owner_label, "u1") ∷ []) [] none;
  spec = record {
    dns_names = "byoc-digest.models.example" ∷ [];
    secret_name = "byoc-digest";
    secret_namespace = "operator";
    issuer_name = "garden";
    issuer_namespace = "";
    secret_labels = (tls_owner_label, "u1") ∷ (tls_certificate_label, "c1") ∷ [];
    renew = absent;
    ensure_renewed_after = absent;
    rest = "";
  };
  state = "Ready";
  observed_generation = pos 1;
}

-- Bound to the Certificate, and to the target.
abbrev issued_secret : Secret
issued_secret = record sample_secret {
  meta =
      meta_of "byoc-digest" "s3"
        ((tls_owner_label, "u1")
          ∷ (tls_certificate_label, "c1")
          ∷ (tls_target_label, "digest")
          ∷ [])
        [] none;
  type = tls_secret_type;
  content = ("tls.crt", "leaf") ∷ ("tls.key", "key") ∷ [];
}

abbrev issued_reply : (c : Call) → Result (Answer c)
issued_reply (get_certificate _) = ok sample_certificate
issued_reply (get_secret _) = ok issued_secret
issued_reply c = reply c

abbrev issued_answer : Unit {0} → (c : Call) → Result (Answer c) × Unit {0}
issued_answer w c = (issued_reply c, w)

abbrev sample_now : ℕ
sample_now = 2000

abbrev delivery : Api String
delivery =
    reconcile_byoc_tls_secret sample_material "kubeconfig" sample_instance (sample_byoc.tls)
      "cluster" sample_now

abbrev delivery_trace : List Event
delivery_trace = (run issued_answer delivery tt).1

abbrev is_delivery : Call → Bool
is_delivery (create_remote_secret _ _) = true
is_delivery _ = false

-- The pair arrives on the cluster, and its digest is returned.
delivery_test :
    (count_calls is_delivery delivery_trace ≡ 1) × ((run issued_answer delivery tt).0 ≡ ok "digest")
unfolding count_calls run reconcile_byoc_tls_secret validate_byoc_tls_material
    showroom_msp_private_llm.Api.◌>>=◌ showroom_msp_private_llm.Api.attempt
    showroom_msp_private_llm.Api.request showroom_msp_private_llm.Prelude.Dict.get
    showroom_msp_private_llm.Prelude.Dict.lookup showroom_msp_private_llm.Prelude.Dict.has
    showroom_msp_private_llm.Byoc.Target.byoc_tls_identity
    showroom_msp_private_llm.Byoc.Target.byoc_tls_target showroom_msp_private_llm.Byoc.Target.first
    showroom_msp_private_llm.Byoc.Target.has_dot
    showroom_msp_private_llm.Byoc.Target.require_byoc_tls_owner
    showroom_msp_private_llm.Byoc.Target.require_byoc_target_secret
    showroom_msp_private_llm.Byoc.Certificates.validate_byoc_tls_issuer
    showroom_msp_private_llm.Byoc.Certificates.byoc_certificate_spec
    showroom_msp_private_llm.Byoc.Certificates.preserve_byoc_certificate_renewal
    showroom_msp_private_llm.Byoc.Certificates.preserved_renew
    showroom_msp_private_llm.Byoc.Certificates.preserved_time
    showroom_msp_private_llm.Byoc.Certificates.require_byoc_source_secret
    showroom_msp_private_llm.Byoc.Certificates.owned_by_certificate
    showroom_msp_private_llm.Byoc.Material.deliver showroom_msp_private_llm.Byoc.Material.is_revoked
    showroom_msp_private_llm.Byoc.Material.is_issued
    showroom_msp_private_llm.Byoc.Material.names_only
    showroom_msp_private_llm.Byoc.Material.is_in_period
    showroom_msp_private_llm.Byoc.Material.has_server_auth
    showroom_msp_private_llm.Byoc.Material.is_strong
    showroom_msp_private_llm.Byoc.Material.same_pair
    showroom_msp_private_llm.Byoc.Material.copy_byoc_tls_data
    showroom_msp_private_llm.Byoc.Material.write_byoc_tls_secret
delivery_test = (refl, refl)

reconcile_byoc_tls_secret_sound_example :
    IfTlsDelivered
      (Seen delivery_trace)
      sample_material
      "kubeconfig"
      sample_instance
      sample_byoc.tls
      "cluster"
      sample_now
      (run issued_answer delivery tt).0
    × All
        (λ e.
          IsTlsDelivery
            (Seen delivery_trace)
            sample_material
            "kubeconfig"
            sample_instance
            sample_byoc.tls
            "cluster"
            sample_now
            e.0)
        delivery_trace
reconcile_byoc_tls_secret_sound_example =
    reconcile_byoc_tls_secret_sound issued_answer sample_material "kubeconfig" sample_instance
      sample_byoc.tls "cluster" sample_now tt

-- The result of the code, and what the description says of it.
validate_byoc_tls_material_iff_example :
    (validate_byoc_tls_material sample_material
        (issued_secret.content)
        "byoc-digest.models.example"
        sample_now
      ≡ ok "digest")
    ↔ IsUsable sample_material
        (issued_secret.content)
        "byoc-digest.models.example"
        sample_now
        "digest"
validate_byoc_tls_material_iff_example =
    validate_byoc_tls_material_iff sample_material (issued_secret.content)
      "byoc-digest.models.example" sample_now "digest"

-- Of the addresses only one in a documentation range is special.
abbrev sample_addresses : AddressLibraries
sample_addresses = record {
  parse_ip = λ _. some (record {
    is_global_unicast = true;
    is_private = false;
    is_loopback = false;
    is_link_local_unicast = false;
    is_unspecified = false;
  });
  parse_addr = λ s. some s;
  holds_address = λ range addr. range == "192.0.2.0/24" && addr == "192.0.2.1";
}

abbrev naming : Api (Unit {0})
naming =
    reconcile_byoc_dns sample_addresses sample_targets sample_instance (sample_byoc.tls) "8.8.8.8"
      "cluster"

abbrev is_naming : Call → Bool
is_naming (create_dns_entry _) = true
is_naming _ = false

-- The address gets its entry.
naming_test : count_calls is_naming (run issued_answer naming tt).1 ≡ 1
unfolding count_calls run reconcile_byoc_dns showroom_msp_private_llm.Api.◌>>=◌
    showroom_msp_private_llm.Api.attempt showroom_msp_private_llm.Api.request
    showroom_msp_private_llm.Byoc.Target.byoc_tls_identity
    showroom_msp_private_llm.Byoc.Target.first showroom_msp_private_llm.Byoc.Target.has_dot
    showroom_msp_private_llm.Byoc.Dns.valid_byoc_dns_target
    showroom_msp_private_llm.Byoc.Dns.is_public showroom_msp_private_llm.Byoc.Dns.is_special
naming_test = refl

reconcile_byoc_dns_sound_example :
    All
      (λ e.
        IsDnsCall sample_addresses
          (Seen (run issued_answer naming tt).1)
          sample_targets
          sample_instance
          sample_byoc.tls
          "8.8.8.8"
          "cluster"
          e.0)
      (run issued_answer naming tt).1
reconcile_byoc_dns_sound_example =
    reconcile_byoc_dns_sound issued_answer sample_addresses sample_targets sample_instance
      sample_byoc.tls "8.8.8.8" "cluster" tt
