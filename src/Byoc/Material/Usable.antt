-- ===== src/Byoc/Material/Usable.antt =====
-- What a pair of certificate and key is that `validateBYOCTLSMaterial` accepts.
use showroom_msp_private_llm.Prelude.{
  ap, sym, ◌∙◌, ◌↔◌, ◌≤◌, ◌<◌, ◌+◌, Memᴰ, arith, eq_iff, nat_eq, Bool-cases, Option-cases, inl, inr,
  true≢false, ℕ, String, ◌≡◌, refl, Bool, true, false, not, Option, none, some, List, [], ◌∷◌, ◌==◌,
  if◌then◌else◌, eq_of_==, and_parts, false_of_not,
}
use showroom_msp_private_llm.Prelude.Dict.{Dict, get}
use showroom_msp_private_llm.Prelude.Lists.{All}
use showroom_msp_private_llm.Api.{Error, Result, ok, err}
use showroom_msp_private_llm.Byoc.Material.{
  Leaf, PublicKey, rsa, ecdsa, unsupported, parses_all, MaterialLibraries, tls_cert_key,
  tls_private_key_key, is_empty, is_only, names_only, is_in_period, has_server_auth, is_strong,
  validate_leaf, validate_pair, validate_byoc_tls_material,
}

-- A check that did not refuse.
passed :
    {A : Type 0} {a : A} {x : Result A} (b : Bool) (e : Error)
    → (if not b then err e else x) ≡ ok a
    → (b ≡ true) × (x ≡ ok a)
passed true e h = (refl, h)
passed false e h = cc

ok_injective : {A : Type 0} {a b : A} → ok a ≡ ok b → a ≡ b
ok_injective h = cc

is_empty_lem : (names : List String) → is_empty names ≡ true → names ≡ []
is_empty_lem [] h = refl
is_empty_lem (_ ∷ _) h = cc

is_only_lem : (name : String) (names : List String) → is_only name names ≡ true → names ≡ name ∷ []
is_only_lem name [] h = cc
is_only_lem name (n ∷ names) h =
    only (eq_of_== n name (and_parts (n == name) (is_empty names) h).0)
      (is_empty_lem names (and_parts (n == name) (is_empty names) h).1)
  where
    only : n ≡ name → names ≡ [] → n ∷ names ≡ name ∷ []
    only e f = cc

-- The leaf is for the host name alone.
pub record IsForHost (leaf : Leaf) (hostname : String) : Type 0 where
  pub is_no_ca : leaf.is_ca ≡ false
  pub is_named : leaf.dns_names ≡ hostname ∷ []
  pub has_no_others : (leaf.ip_addresses ≡ []) × (leaf.email_addresses ≡ []) × (leaf.uris ≡ [])

names_only-IsForHost :
    (leaf : Leaf) (hostname : String) → names_only leaf hostname ≡ true → IsForHost leaf hostname
unfolding names_only
names_only-IsForHost leaf hostname h =
    let (ca, h1) = and_parts _ _ h in
    let (names, h2) = and_parts _ _ h1 in
    let (ips, h3) = and_parts _ _ h2 in
    let (emails, uris) = and_parts _ _ h3 in
    record {
      is_no_ca = false_of_not _ ca;
      is_named = is_only_lem hostname leaf.dns_names names;
      has_no_others = (is_empty_lem _ ips, is_empty_lem _ emails, is_empty_lem _ uris);
    }

only_is : (name : String) (names : List String) → names ≡ name ∷ [] → is_only name names ≡ true
only_is name names e = rw (e, (eq_iff name name).1 refl) refl

IsForHost-names_only :
    (leaf : Leaf) (hostname : String) → IsForHost leaf hostname → names_only leaf hostname ≡ true
unfolding names_only
IsForHost-names_only leaf hostname h =
    let (ips, emails, uris) = h.has_no_others in
    rw (h.is_no_ca, only_is hostname leaf.dns_names h.is_named, ips, emails, uris) refl

-- The certificate is valid from its start, and for the renewal margin to come.
abbrev pub IsInPeriod : Leaf → ℕ → Type 0
IsInPeriod leaf now = (leaf.not_before ≤ now) × (now + 120000000000 < leaf.not_after)

is_in_period-IsInPeriod :
    (leaf : Leaf) (now : ℕ) → is_in_period leaf now ≡ true → IsInPeriod leaf now
unfolding is_in_period
is_in_period-IsInPeriod leaf now h = (ground arith, ground arith)

IsInPeriod-is_in_period :
    (leaf : Leaf) (now : ℕ) → IsInPeriod leaf now → is_in_period leaf now ≡ true
unfolding is_in_period
IsInPeriod-is_in_period leaf now (from, until) = ground arith

server_auth_mem : (usages : List ℕ) → has_server_auth usages ≡ true → Memᴰ 1 usages
unfolding has_server_auth
server_auth_mem [] h = cc
server_auth_mem (u ∷ usages) h = elim (Bool-cases (nat_eq u 1)) [
  | inl here ↦ let e : 1 ≡ u = ground arith in Memᴰ.head e
  | inr there ↦ Memᴰ.tail (server_auth_mem usages (ground arith))
]

mem_server_auth : (usages : List ℕ) → Memᴰ 1 usages → has_server_auth usages ≡ true
unfolding has_server_auth
mem_server_auth [] m = elim m [ ]
mem_server_auth (u ∷ usages) (Memᴰ.head e) = ground arith
mem_server_auth (u ∷ usages) (Memᴰ.tail m) = let later = mem_server_auth usages m in ground arith

-- An RSA key of at least 2048 bits, or an ECDSA key of at least 256.
pub data IsStrong : PublicKey → Type 0 where
  strong_rsa : (bits : ℕ) → 2048 ≤ bits → IsStrong (rsa bits)
  strong_ecdsa : (bits : ℕ) → 256 ≤ bits → IsStrong (ecdsa bits)

is_strong-IsStrong : (key : PublicKey) → is_strong key ≡ true → IsStrong key
unfolding is_strong
is_strong-IsStrong (rsa bits) h = IsStrong.strong_rsa bits (ground arith)
is_strong-IsStrong (ecdsa bits) h = IsStrong.strong_ecdsa bits (ground arith)
is_strong-IsStrong unsupported h = cc

IsStrong-is_strong : (key : PublicKey) → IsStrong key → is_strong key ≡ true
unfolding is_strong
IsStrong-is_strong _ (IsStrong.strong_rsa bits h) = ground arith
IsStrong-is_strong _ (IsStrong.strong_ecdsa bits h) = ground arith

module _ (libraries : MaterialLibraries) where
  -- A certificate of the chain that can be parsed.
  abbrev IsParsed : String → Type 0
  IsParsed raw = (leaf : Leaf) × (libraries.parse_certificate raw ≡ some leaf)

  parses_all-All : (rest : List String) → parses_all libraries rest ≡ true → All IsParsed rest
  parses_all-All [] h = tt
  parses_all-All (raw ∷ rest) h = elim (Option-cases (libraries.parse_certificate raw)) [
    | inl bad ↦ absurd (true≢false (sym h ∙ rw (parses_all, bad) refl))
    | inr (leaf, good) ↦ ((leaf, good), parses_all-All rest (rw (parses_all, good) at h))
  ]

  All-parses_all : (rest : List String) → All IsParsed rest → parses_all libraries rest ≡ true
  All-parses_all [] h = refl
  All-parses_all (raw ∷ rest) ((leaf, good), later) =
      rw (parses_all, good) (All-parses_all rest later)

  -- The key fits the first certificate; it names the host alone, is in its period with the renewal
  -- margin, is for servers and has a strong key; its chain verifies; the revision is its digest.
  pub record IsUsable (content : Dict) (hostname : String) (now : ℕ) (revision : String)
      : Type 0 where
    pub raw : String
    pub rest : List String
    pub leaf : Leaf
    pub fits :
        libraries.key_pair (get content tls_cert_key) (get content tls_private_key_key)
        ≡ some (raw, rest)
    pub parsed : libraries.parse_certificate raw ≡ some leaf
    pub for_host : IsForHost leaf hostname
    pub in_period : IsInPeriod leaf now
    pub for_servers : Memᴰ 1 leaf.ext_key_usage
    pub strong : IsStrong leaf.public_key
    pub chain : All IsParsed rest
    pub verified : libraries.verifies raw rest hostname now ≡ true
    pub digest : libraries.targets.sha256 raw ≡ revision

  module _ (content : Dict) (hostname : String) (now : ℕ) (revision : String) where
    validate_leaf-IsUsable :
        (raw : String) (rest : List String) (o : Option Leaf)
        → libraries.key_pair (get content tls_cert_key) (get content tls_private_key_key)
          ≡ some (raw, rest)
        → libraries.parse_certificate raw ≡ o
        → validate_leaf libraries hostname now raw rest o ≡ ok revision
        → IsUsable content hostname now revision
    validate_leaf-IsUsable raw rest none pair read h = cc
    validate_leaf-IsUsable raw rest (some l) pair read h =
        let (named, h1) = passed (names_only l hostname) _ h in
        let (timely, h2) = passed (is_in_period l now) _ h1 in
        let (serving, h3) = passed (has_server_auth l.ext_key_usage) _ h2 in
        let (safe, h4) = passed (is_strong l.public_key) _ h3 in
        let (chained, h5) = passed _ _ h4 in
        let (accepted, h6) = passed (libraries.verifies raw rest hostname now) _ h5 in
        record {
          raw = raw;
          rest = rest;
          leaf = l;
          fits = pair;
          parsed = read;
          for_host = names_only-IsForHost l hostname named;
          in_period = is_in_period-IsInPeriod l now timely;
          for_servers = server_auth_mem l.ext_key_usage serving;
          strong = is_strong-IsStrong l.public_key safe;
          chain = parses_all-All rest chained;
          verified = accepted;
          digest = ok_injective h6;
        }

    validate_pair-IsUsable :
        (o : Option (String × List String))
        → libraries.key_pair (get content tls_cert_key) (get content tls_private_key_key) ≡ o
        → validate_pair libraries hostname now o ≡ ok revision
        → IsUsable content hostname now revision
    validate_pair-IsUsable none pair h = cc
    validate_pair-IsUsable (some (first, others)) pair h =
        validate_leaf-IsUsable first others (libraries.parse_certificate first) pair refl h

    pub validate_byoc_tls_material-IsUsable :
        validate_byoc_tls_material libraries content hostname now ≡ ok revision
        → IsUsable content hostname now revision
    unfolding validate_byoc_tls_material
    validate_byoc_tls_material-IsUsable h = validate_pair-IsUsable _ refl h

    IsUsable-validate_byoc_tls_material :
        IsUsable content hostname now revision
        → validate_byoc_tls_material libraries content hostname now ≡ ok revision
    unfolding validate_byoc_tls_material
    IsUsable-validate_byoc_tls_material u = rw u.fits (
        rw u.parsed (
          rw (IsForHost-names_only u.leaf hostname u.for_host) (
            rw (IsInPeriod-is_in_period u.leaf now u.in_period) (
              rw (mem_server_auth u.leaf.ext_key_usage u.for_servers) (
                rw (IsStrong-is_strong u.leaf.public_key u.strong)
                  (rw (All-parses_all u.rest u.chain) (rw u.verified (ap ok u.digest))))))))

    -- `validateBYOCTLSMaterial` accepts exactly the certificates whose key fits, that are no CA and name
    -- the host name and nothing else, that are valid now and for the two minutes of the renewal margin,
    -- that are for servers, have an RSA key of at least 2048 or an ECDSA key of at least 256 bits, and
    -- whose chain parses and verifies; what it returns is the certificate's digest.
    pub validate_byoc_tls_material_iff :
        (validate_byoc_tls_material libraries content hostname now ≡ ok revision)
        ↔ IsUsable content hostname now revision
    validate_byoc_tls_material_iff =
        (validate_byoc_tls_material-IsUsable, IsUsable-validate_byoc_tls_material)
