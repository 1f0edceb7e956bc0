-- ===== src/Byoc/Dns.antt =====
-- The DNS entry of an instance on a tenant's cluster, in
-- internal/controller/llminstance_byoc_tls.go: `validBYOCDNSTarget` and `reconcileBYOCDNS`.
pub mod Public
use showroom_msp_private_llm.Prelude.{
  String, Bool, true, false, Option, none, some, List, [], ◌∷◌, ◌||◌, ◌&&◌, not, ◌==◌, nat_eq,
  if◌then◌else◌,
}
use showroom_msp_private_llm.Prelude.Dict.{get, insert}
use showroom_msp_private_llm.Prelude.Int.{ℤ, pos, negsuc}
use showroom_msp_private_llm.Kube.{LlmInstance, is_some}
use showroom_msp_private_llm.Kube.Remote.{DnsEntry}
use showroom_msp_private_llm.Api.{
  not_found, failure, tls_not_ready, Result, ok, err, Api, pure, throw, ◌>>=◌, request, attempt,
  lift, get_dns_entry, create_dns_entry, update_dns_entry,
}
use showroom_msp_private_llm.Hosted.Backend.{fresh_meta}
use showroom_msp_private_llm.Byoc.Target.{
  TargetLibraries, TlsConfig, byoc_tls_identity, require_byoc_tls_owner, tls_owner_label,
}
use showroom_msp_private_llm.Byoc.Certificates.{certificate_key}

-- What package `net` says of a parsed IP address.
pub record Ip : Type 0 where
  pub is_global_unicast : Bool
  pub is_private : Bool
  pub is_loopback : Bool
  pub is_link_local_unicast : Bool
  pub is_unspecified : Bool

-- `net.ParseIP`; `netip.ParseAddr` with `Unmap`; and whether a prefix contains an address.
pub record AddressLibraries : Type 0 where
  pub parse_ip : String → Option Ip
  pub parse_addr : String → Option String
  pub holds_address : String → String → Bool

-- The special ranges of `validBYOCDNSTarget`.
abbrev pub special_ranges : List String
special_ranges =
    "0.0.0.0/8" ∷ "100.64.0.0/10" ∷ "192.0.0.0/24" ∷ "192.0.2.0/24" ∷ "198.18.0.0/15"
    ∷ "198.51.100.0/24" ∷ "203.0.113.0/24" ∷ "240.0.0.0/4" ∷ "2001:db8::/32" ∷ "2001::/32"
    ∷ "2002::/16" ∷ "64:ff9b::/96" ∷ "64:ff9b:1::/48" ∷ []

unfoldable pub is_public : Ip → Bool
is_public ip =
    ip.is_global_unicast
    && (not ip.is_private
        && (not ip.is_loopback && (not ip.is_link_local_unicast && not ip.is_unspecified)))

abbrev pub dns_class_annotation : String
dns_class_annotation = "dns.gardener.cloud/class"

module _ (libraries : AddressLibraries) where
  -- The loop over the ranges; true where it returns false.
  unfoldable pub is_special : List String → String → Bool
  is_special [] addr = false
  is_special (range ∷ ranges) addr = libraries.holds_address range addr || is_special ranges addr

  abbrev outside_ranges : Option String → Bool
  outside_ranges none = false
  outside_ranges (some addr) = not (is_special special_ranges addr)

  abbrev public_ip : Option Ip → Bool
  public_ip none = false
  public_ip (some ip) = is_public ip

  -- `validBYOCDNSTarget`
  unfoldable pub valid_byoc_dns_target : String → Bool
  valid_byoc_dns_target address =
      public_ip (libraries.parse_ip address) && outside_ranges (libraries.parse_addr address)

  -- The `spec` that is wanted, on an entry.
  unfoldable pub with_target : String → String → DnsEntry → DnsEntry
  with_target hostname address entry = record entry {
    dns_name = hostname;
    targets = address ∷ [];
    ttl = pos 60;
    rest = "";
  }

  abbrev is_minute : ℤ → Bool
  is_minute (pos n) = nat_eq n 60
  is_minute (negsuc _) = false

  abbrev is_sole_target : String → List String → Bool
  is_sole_target address [] = false
  is_sole_target address (t ∷ []) = t == address
  is_sole_target address (_ ∷ _ ∷ _) = false

  -- `reflect.DeepEqual` with the wanted `spec`, and the class.
  unfoldable pub is_current_entry : TlsConfig → String → String → DnsEntry → Bool
  is_current_entry cfg hostname address entry =
      entry.dns_name == hostname
      && (is_sole_target address entry.targets
          && (is_minute entry.ttl
              && (entry.rest == ""
                  && get entry.meta.annotations dns_class_annotation == cfg.dns_class)))

  -- The entry that `reconcileBYOCDNS` creates.
  unfoldable pub new_dns_entry : LlmInstance → TlsConfig → String → String → String → DnsEntry
  new_dns_entry inst cfg name hostname address = record {
    meta = record (fresh_meta cfg.namespace name ((tls_owner_label, inst.meta.uid) ∷ [])) {
      annotations = (dns_class_annotation, cfg.dns_class) ∷ [];
    };
    dns_name = hostname;
    targets = address ∷ [];
    ttl = pos 60;
    rest = "";
  }

  unfoldable pub converge_entry : TlsConfig → String → String → DnsEntry → DnsEntry
  converge_entry cfg hostname address entry = with_target hostname address (record entry {
    meta = record (entry.meta) {
      annotations = insert dns_class_annotation cfg.dns_class entry.meta.annotations;
    };
  })

  abbrev pub ensure_entry :
      LlmInstance → TlsConfig → String → String → String → Result DnsEntry → Api (Unit {0})
  ensure_entry inst cfg name hostname address (err not_found) = do
    _ ← request (create_dns_entry (new_dns_entry inst cfg name hostname address))
    pure tt
  ensure_entry inst cfg name hostname address (err e) = throw e
  ensure_entry inst cfg name hostname address (ok entry) =
      if not (require_byoc_tls_owner entry.meta inst)
      then throw (failure "refusing foreign BYOC TLS object")
      else if is_some entry.meta.deleting
      then throw (tls_not_ready "DNSEntry is deleting")
      else if is_current_entry cfg hostname address entry
      then pure tt
      else (do _ ← request (update_dns_entry (converge_entry cfg hostname address entry)); pure tt)

  abbrev pub publish_address : LlmInstance → TlsConfig → String → String → String → Api (Unit {0})
  publish_address inst cfg name hostname address =
      if not (valid_byoc_dns_target address)
      then throw (failure "BYOC TLS requires a public unicast LoadBalancer IP address")
      else (do
        found ← attempt (request (get_dns_entry (certificate_key cfg name)))
        ensure_entry inst cfg name hostname address found)

  -- `reconcileBYOCDNS`
  unfoldable pub reconcile_byoc_dns :
      TargetLibraries → LlmInstance → TlsConfig → String → String → Api (Unit {0})
  reconcile_byoc_dns targets inst cfg address target_id =
      if cfg.dns_class == "" then throw (failure "BYOC TLS DNS class is required") else (do
        names ← lift (byoc_tls_identity targets inst cfg target_id)
        publish_address inst cfg names.0 names.1 address)
