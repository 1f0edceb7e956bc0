-- ===== src/Slug/Policy/WellFormed.antt =====
-- What a parsed policy guarantees of its entries.
use showroom_msp_private_llm.Prelude.{
  String, ◌≡◌, refl, true, false, List, [], ◌∷◌, ◌==◌, ◌&&◌, arith, eq_iff, or_false_parts,
  Bool-cases, inl, inr,
}
use showroom_msp_private_llm.Prelude.Lists.{All}
use showroom_msp_private_llm.Prelude.Text.{has_prefix}
use showroom_msp_private_llm.Api.{Result, ok, err, Result-cases}
use showroom_msp_private_llm.Slug.Keys.{contains}
use showroom_msp_private_llm.Slug.Policy.{
  Entry, Configuration, Policy, Libraries, validate_entry, exists, identity, overlaps, Gathered,
  is_legacy, gather, add_entry, add_entries, nothing_gathered, build, parse,
}
use showroom_msp_private_llm.Slug.Policy.Prefixes.{NoOverlap}

-- Two entries name different objects, and two legacy ones slugs that do not overlap.
pub record IsApart (e f : Entry) : Type 0 where
  pub uids : (e.uid == f.uid) ≡ false
  pub identities : (identity e == identity f) ≡ false
  pub slugs : is_legacy e ≡ true → is_legacy f ≡ true → NoOverlap e.slug f.slug

module _ (libraries : Libraries) where
  -- Each entry is keyed by its UID, passed `validateEntry`, and is apart from those before it.
  abbrev pub IsSeparated : List (String × Entry) → Type 0
  IsSeparated [] = Unit
  IsSeparated ((uid, e) ∷ es) =
      (uid ≡ e.uid)
      × (validate_entry libraries e ≡ true)
      × All (λ x. IsApart e x.1) es
      × IsSeparated es

  pub record IsGathered (g : Gathered) : Type 0 where
    pub separated : IsSeparated g.entries
    pub slugs :
        (s : String)
        → overlaps g.slugs s ≡ false
        → All (λ x. is_legacy x.1 ≡ true → NoOverlap s x.1.slug) g.entries
    pub identities :
        (i : String)
        → contains g.identities i ≡ false
        → All (λ x. (i == identity x.1) ≡ false) g.entries

  All-uids :
      (uid : String) (es : List (String × Entry))
      → IsSeparated es
      → exists uid es ≡ false
      → All (λ x. (uid == x.1.uid) ≡ false) es
  unfolding exists
  All-uids uid [] s h = tt
  All-uids uid ((k, e) ∷ es) (same, _, _, rest) h =
      let (here, later) = or_false_parts (k == uid) (exists uid es) h in
      (ground (arith, same, here, eq_iff k uid, eq_iff uid e.uid), All-uids uid es rest later)

  All-IsApart :
      (e : Entry) (es : List (String × Entry))
      → All (λ x. (e.uid == x.1.uid) ≡ false) es
      → All (λ x. (identity e == identity x.1) ≡ false) es
      → (is_legacy e ≡ true → All (λ x. is_legacy x.1 ≡ true → NoOverlap e.slug x.1.slug) es)
      → All (λ x. IsApart e x.1) es
  All-IsApart e [] h k n = tt
  All-IsApart e (x ∷ es) (h, hs) (k, ks) n = (
    record { uids = h; identities = k; slugs = λ l m. (n l).0 m },
    All-IsApart e es hs ks (λ l. (n l).1),
  )

  gather-slugs :
      (e : Entry) (g : Gathered) (s : String)
      → IsGathered g
      → overlaps (gather e g).slugs s ≡ false
      → All (λ x. is_legacy x.1 ≡ true → NoOverlap s x.1.slug) (gather e g).entries
  unfolding overlaps
  gather-slugs e g s v h = elim (Bool-cases (is_legacy e)) [
    | inl legacy ↦
        let both : overlaps (e.slug ∷ g.slugs) s ≡ false = rw legacy at h in
        let (first, more) = or_false_parts (has_prefix e.slug s) _ both in
        let (second, later) = or_false_parts (has_prefix s e.slug) _ more in
        (λ _. (second, first), v.slugs s later)
    | inr derive ↦
        let later : overlaps g.slugs s ≡ false = rw derive at h in (λ l. cc, v.slugs s later)
  ]

  gather-identities :
      (e : Entry) (g : Gathered) (i : String)
      → IsGathered g
      → contains (gather e g).identities i ≡ false
      → All (λ x. (i == identity x.1) ≡ false) (gather e g).entries
  unfolding contains
  gather-identities e g i v h =
      let (here, later) = or_false_parts (identity e == i) (contains g.identities i) h in
      (ground (arith, here, eq_iff (identity e) i, eq_iff i (identity e)), v.identities i later)

  -- What a round that goes on has tested.
  add_entry_tests :
      (e : Entry) (g g' : Gathered)
      → add_entry libraries e g ≡ ok g'
      → (validate_entry libraries e ≡ true)
        × (exists e.uid g.entries ≡ false)
        × (contains g.identities (identity e) ≡ false)
        × ((is_legacy e && overlaps g.slugs e.slug) ≡ false)
        × (gather e g ≡ g')
  unfolding add_entry
  add_entry_tests e g g' h = ground arith

  add_entry-IsGathered :
      (e : Entry) (g g' : Gathered) → IsGathered g → add_entry libraries e g ≡ ok g' → IsGathered g'
  add_entry-IsGathered e g g' v h =
      let (valid, uids, ids, slugs, same) = add_entry_tests e g g' h in
      rw (← same) (record {
        separated = (
          refl,
          valid,
          All-IsApart e g.entries (All-uids e.uid g.entries v.separated uids)
              (v.identities (identity e) ids) (λ legacy. v.slugs e.slug (rw legacy at slugs)),
          v.separated,
        );
        slugs = λ s. gather-slugs e g s v;
        identities = λ i. gather-identities e g i v;
      })

  add_entries_step :
      (item : Entry) (items : List Entry) (g g' : Gathered)
      → add_entries libraries (item ∷ items) g ≡ ok g'
      → (g₁ : Gathered) × (add_entry libraries item g ≡ ok g₁)
        × (add_entries libraries items g₁ ≡ ok g')
  unfolding add_entries
  add_entries_step item items g g' h = elim (Result-cases (add_entry libraries item g)) [
    | inl (g₁, e) ↦ (g₁, e, rw (e, add_entries) at h)
    | inr (x, e) ↦ cc (e, h)
  ]

  add_entries-IsGathered :
      (items : List Entry) (g g' : Gathered)
      → IsGathered g
      → add_entries libraries items g ≡ ok g'
      → IsGathered g'
  unfolding add_entries
  add_entries-IsGathered [] g g' v h = let e : g ≡ g' = cc in rw (← e) v
  add_entries-IsGathered (item ∷ items) g g' v h =
      let (g₁, first, rest) = add_entries_step item items g g' h in
      add_entries-IsGathered items g₁ g' (add_entry-IsGathered item g g₁ v first) rest

  IsGathered-nothing : IsGathered nothing_gathered
  IsGathered-nothing = record { separated = tt; slugs = λ s h. tt; identities = λ i h. tt }

  build-IsSeparated :
      (config : Configuration) (p : Policy) → build libraries config ≡ ok p → IsSeparated p.entries
  unfolding build
  build-IsSeparated config p h =
      elim (Result-cases (add_entries libraries config.entries nothing_gathered)) [
        | inl (g, e) ↦
            let same : g.entries ≡ p.entries = ground arith in
            rw (← same)
              (add_entries-IsGathered config.entries nothing_gathered g IsGathered-nothing
                e).separated
        | inr (x, e) ↦ absurd (ground arith)
      ]

  -- A policy that `Parse` returns has only entries that passed `validateEntry`, each keyed by its
  -- UID; no two of them share a UID or a namespace and name, and the slugs of any two legacy
  -- entries do not begin with one another.
  pub parse-IsSeparated :
      (input : Result String) (p : Policy) → parse libraries input ≡ ok p → IsSeparated p.entries
  unfolding parse
  parse-IsSeparated (err e) p h = cc
  parse-IsSeparated (ok text) p h = elim (Result-cases (libraries.decode text)) [
    | inl (config, e) ↦ build-IsSeparated config p (ground arith)
    | inr (x, e) ↦ absurd (ground arith)
  ]
