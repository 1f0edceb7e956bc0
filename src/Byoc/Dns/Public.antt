-- ===== src/Byoc/Dns/Public.antt =====
-- Which DNS entries `reconcileBYOCDNS` writes.
use showroom_msp_private_llm.Prelude.{
  String, ◌≡◌, refl, Bool, true, false, not, Option, none, some, List, [], ◌∷◌, ◌==◌, true_of_not,
  and_parts, or_false_parts, false_of_not,
}
use showroom_msp_private_llm.Prelude.Lists.{All}
use showroom_msp_private_llm.Prelude.Dict.{get, get-insert_self}
use showroom_msp_private_llm.Prelude.Int.{pos}
use showroom_msp_private_llm.Kube.{LlmInstance, is_some}
use showroom_msp_private_llm.Kube.Remote.{DnsEntry}
use showroom_msp_private_llm.Api.{
  not_found, Result, ok, err, Call, Answer, get_dns_entry, create_dns_entry, update_dns_entry,
}
use showroom_msp_private_llm.Api.Ensures.{
  Ensures, done, Ensures-lift, Ensures-call, Ensures-try, Ensures-if,
}
use showroom_msp_private_llm.Api.Trace.{Seen, run, run_sound}
use showroom_msp_private_llm.Byoc.Target.{
  TargetLibraries, TlsConfig, byoc_tls_identity, require_byoc_tls_owner, tls_owner_label,
}
use showroom_msp_private_llm.Byoc.Certificates.{certificate_key}
use showroom_msp_private_llm.Byoc.Dns.{
  Ip, AddressLibraries, special_ranges, is_public, dns_class_annotation, is_special, outside_ranges,
  public_ip, valid_byoc_dns_target, with_target, is_current_entry, new_dns_entry, converge_entry,
  ensure_entry, reconcile_byoc_dns,
}

module _ (libraries : AddressLibraries) where
  -- A public address outside the special ranges.
  pub record IsPublic (address : String) : Type 0 where
    pub ip : Ip
    pub is_ip : libraries.parse_ip address ≡ some ip
    pub is_public_ip : is_public ip ≡ true
    pub addr : String
    pub is_addr : libraries.parse_addr address ≡ some addr
    pub is_outside : All (λ range. libraries.holds_address range addr ≡ false) special_ranges

  is_special-All :
      (ranges : List String) (addr : String)
      → is_special libraries ranges addr ≡ false
      → All (λ range. libraries.holds_address range addr ≡ false) ranges
  unfolding is_special
  is_special-All [] addr h = tt
  is_special-All (range ∷ ranges) addr h =
      let (this, others) = or_false_parts _ _ h in (this, is_special-All ranges addr others)

  valid_byoc_dns_target-IsPublic :
      (address : String) → valid_byoc_dns_target libraries address ≡ true → IsPublic address
  unfolding valid_byoc_dns_target
  valid_byoc_dns_target-IsPublic address h =
      from (libraries.parse_ip address) (libraries.parse_addr address) refl refl (and_parts _ _ h).0
        (and_parts _ _ h).1
    where
      from :
          (i : Option Ip) (a : Option String)
          → libraries.parse_ip address ≡ i
          → libraries.parse_addr address ≡ a
          → public_ip libraries i ≡ true
          → outside_ranges libraries a ≡ true
          → IsPublic address
      from none a e f p q = cc
      from (some i) none e f p q = cc
      from (some i) (some a) e f p q = record {
        ip = i;
        is_ip = e;
        is_public_ip = p;
        addr = a;
        is_addr = f;
        is_outside = is_special-All special_ranges a (false_of_not _ q);
      }

  -- An entry that leads from the host name to the one address.
  pub record Leads (entry : DnsEntry) (cfg : TlsConfig) (hostname address : String) : Type 0 where
    pub from_host : entry.dns_name ≡ hostname
    pub to_address : entry.targets ≡ address ∷ []
    pub for_a_minute : entry.ttl ≡ pos 60
    pub of_class : get entry.meta.annotations dns_class_annotation ≡ cfg.dns_class

  module _ (Obs : (c : Call) → Result (Answer c) → Type 0) (targets : TargetLibraries)
      (inst : LlmInstance) (cfg : TlsConfig) (address target_id : String) where
    -- The calls of `reconcileBYOCDNS`.
    pub data IsDnsCall : Call → Type 0 where
      reads :
          (name hostname : String)
          → byoc_tls_identity targets inst cfg target_id ≡ ok (name, hostname)
          → IsDnsCall (get_dns_entry (certificate_key cfg name))
      creates :
          (name hostname : String) {entry : DnsEntry}
          → byoc_tls_identity targets inst cfg target_id ≡ ok (name, hostname)
          → Obs (get_dns_entry (certificate_key cfg name)) (err not_found)
          → IsPublic address
          → (entry.meta.namespace ≡ cfg.namespace)
            × (entry.meta.name ≡ name)
            × (entry.meta.owners ≡ [])
            × (get entry.meta.labels tls_owner_label ≡ inst.meta.uid)
          → Leads entry cfg hostname address
          → IsDnsCall (create_dns_entry entry)
      updates :
          (name hostname : String) {old entry : DnsEntry}
          → byoc_tls_identity targets inst cfg target_id ≡ ok (name, hostname)
          → Obs (get_dns_entry (certificate_key cfg name)) (ok old)
          → require_byoc_tls_owner old.meta inst ≡ true
          → is_some old.meta.deleting ≡ false
          → (entry.meta.namespace ≡ old.meta.namespace)
            × (entry.meta.name ≡ old.meta.name)
            × (entry.meta.uid ≡ old.meta.uid)
            × (entry.meta.resource_version ≡ old.meta.resource_version)
            × (entry.meta.labels ≡ old.meta.labels)
            × (entry.meta.owners ≡ old.meta.owners)
          → IsPublic address
          → Leads entry cfg hostname address
          → IsDnsCall (update_dns_entry entry)

    module _ (name hostname : String)
        (named : byoc_tls_identity targets inst cfg target_id ≡ ok (name, hostname))
        (public : IsPublic address) where
      new_dns_entry-Leads :
          Leads (new_dns_entry libraries inst cfg name hostname address) cfg hostname address
      unfolding new_dns_entry get showroom_msp_private_llm.Prelude.Dict.lookup
      new_dns_entry-Leads = record {
        from_host = refl;
        to_address = refl;
        for_a_minute = refl;
        of_class = refl;
      }

      new_dns_entry_owned :
          let entry = new_dns_entry libraries inst cfg name hostname address in
          (entry.meta.namespace ≡ cfg.namespace)
          × (entry.meta.name ≡ name)
          × (entry.meta.owners ≡ [])
          × (get entry.meta.labels tls_owner_label ≡ inst.meta.uid)
      unfolding new_dns_entry get showroom_msp_private_llm.Prelude.Dict.lookup
      new_dns_entry_owned = (refl, refl, refl, refl)

      ensure_entry-Ensures :
          (r : Result DnsEntry)
          → Obs (get_dns_entry (certificate_key cfg name)) r
          → Ensures Obs IsDnsCall
              (λ _. Unit)
              (ensure_entry libraries inst cfg name hostname address r)
      unfolding converge_entry with_target
      ensure_entry-Ensures (err not_found) found =
          Ensures-call _
            (IsDnsCall.creates name hostname named found public new_dns_entry_owned
              new_dns_entry-Leads)
            (λ _ _. done tt) (λ _ _. tt)
      ensure_entry-Ensures (err e) found = done tt
      ensure_entry-Ensures (ok old) found =
          Ensures-if (not (require_byoc_tls_owner old.meta inst)) (λ _. done tt)
            (λ owned.
              Ensures-if (is_some old.meta.deleting) (λ _. done tt)
                (λ stays.
                  Ensures-if (is_current_entry libraries cfg hostname address old) (λ _. done tt)
                    (λ _.
                      Ensures-call _
                        (IsDnsCall.updates name hostname named found (true_of_not _ owned) stays
                          (refl, refl, refl, refl, refl, refl) public
                          (record {
                            from_host = refl;
                            to_address = refl;
                            for_a_minute = refl;
                            of_class =
                                get-insert_self dns_class_annotation cfg.dns_class
                                  old.meta.annotations;
                          }))
                        (λ _ _. done tt) (λ _ _. tt))))

    reconcile_byoc_dns-Ensures :
        Ensures Obs IsDnsCall
          (λ _. Unit)
          (reconcile_byoc_dns libraries targets inst cfg address target_id)
    unfolding reconcile_byoc_dns
    reconcile_byoc_dns-Ensures =
        Ensures-if (cfg.dns_class == "") (λ _. done tt)
          (λ _.
            Ensures-lift (byoc_tls_identity targets inst cfg target_id)
              (λ names identity.
                Ensures-if (not (valid_byoc_dns_target libraries address)) (λ _. done tt)
                  (λ valid. Ensures-try _ (IsDnsCall.reads names.0 names.1 identity) (
                    ensure_entry-Ensures names.0 names.1 identity
                      (valid_byoc_dns_target-IsPublic address (true_of_not _ valid)))))
              (λ _ _. tt))

module _ {W : Type 0} (answer : W → (c : Call) → Result (Answer c) × W)
    (libraries : AddressLibraries) (targets : TargetLibraries) (inst : LlmInstance)
    (cfg : TlsConfig) (address target_id : String) where
  -- Whatever the API server answers, `reconcileBYOCDNS` writes only entries of the instance's name that
  -- lead from its host name to the one given address, for a minute and with the operator's class, and
  -- only if that is the address of a public host outside the special ranges; it creates one only where
  -- none was found, in the operator's namespace with the label of the instance's UID, and updates only one that was read with the instance's UID and without an owner
  -- reference and is not being deleted.
  pub reconcile_byoc_dns_sound :
      (w : W)
      → All
          (λ e.
            IsDnsCall libraries
              (Seen
                (run answer (reconcile_byoc_dns libraries targets inst cfg address target_id) w).1)
              targets
              inst
              cfg
              address
              target_id
              e.0)
          (run answer (reconcile_byoc_dns libraries targets inst cfg address target_id) w).1
  reconcile_byoc_dns_sound w =
      (run_sound answer (reconcile_byoc_dns libraries targets inst cfg address target_id) w (
        reconcile_byoc_dns-Ensures libraries
          (Seen (run answer (reconcile_byoc_dns libraries targets inst cfg address target_id) w).1)
          targets inst cfg address target_id)).1
