-- ===== src/Slug/Policy/Selection.antt =====
-- Which slug an instance gets, and that the slugs of two instances never overlap.
use showroom_msp_private_llm.Prelude.{
  ◌≢◌, ==_of_ne, Option, ℕ, String, ◌≡◌, true, false, List, [], ◌∷◌, ◌==◌, arith, eq_iff, sym, ◌∙◌,
  ◌<◌, ◌↔◌, Bool-cases, inl, inr, none, some, Memᴰ, Option-cases,
}
use showroom_msp_private_llm.Prelude.Lists.{All-mem}
use showroom_msp_private_llm.Prelude.Text.{◌+++◌}
use showroom_msp_private_llm.Kube.{ObjectMeta}
use showroom_msp_private_llm.Api.{Result, ok}
use showroom_msp_private_llm.Slug.Policy.{
  Entry, Policy, Libraries, Chosen, validate_entry, find, is_legacy, parse, reserved, derived,
  select,
}
use showroom_msp_private_llm.Slug.Policy.Prefixes.{
  NoOverlap, NoOverlap-sym, NoOverlap-append, NoOverlap-append_both,
}
use showroom_msp_private_llm.Slug.Policy.WellFormed.{IsApart, IsSeparated, parse-IsSeparated}

abbrev pub slug_input : ObjectMeta → String
slug_input object = "llm.privatellms.msp/slug/v1:" +++ object.uid

module _ (libraries : Libraries) where
  -- The two ways to a slug: the entry of the object's UID is a legacy one, or the slug is derived.
  pub data IsSelected (p : Policy) (object : ObjectMeta) (c : Chosen) : Type 0 where
    by_legacy :
        (item : Entry)
        → find object.uid p.entries ≡ some item
        → is_legacy item ≡ true
        → c.slug ≡ item.slug
        → IsSelected p object c
    by_digest : c.slug ≡ reserved +++ libraries.digest (slug_input object) → IsSelected p object c

  select-IsSelected :
      (p : Policy) (object : ObjectMeta) (c : Chosen)
      → select libraries (some p) object ≡ ok c
      → IsSelected p object c
  unfolding select
  select-IsSelected p object c h = elim (Option-cases (find object.uid p.entries)) [
    | inl missing ↦ by_digest (ground arith)
    | inr (item, found) ↦ elim (Bool-cases (is_legacy item)) [
      | inl legacy ↦ by_legacy item found legacy (ground arith)
      | inr derive ↦ by_digest (ground arith)
    ]
  ]

  find-facts :
      (uid : String) (es : List (String × Entry)) (item : Entry)
      → IsSeparated libraries es
      → find uid es ≡ some item
      → (item.uid ≡ uid) × (validate_entry libraries item ≡ true)
  unfolding find
  find-facts uid [] item s h = cc
  find-facts uid ((k, e) ∷ es) item (same, valid, _, rest) h = elim (Bool-cases (k == uid)) [
    | inl here ↦
        let found : e ≡ item = ground arith in
        rw (← found) (sym same ∙ (eq_iff k uid).0 here, valid)
    | inr other ↦ find-facts uid es item rest (ground arith)
  ]

  find-mem :
      (uid : String) (es : List (String × Entry)) (item : Entry)
      → find uid es ≡ some item
      → (k : String) × Memᴰ (k, item) es
  unfolding find
  find-mem uid [] item h = cc
  find-mem uid ((k, e) ∷ es) item h = elim (Bool-cases (k == uid)) [
    | inl here ↦ let found : (k, e) ≡ (k, item) = ground arith in (k, Memᴰ.head (sym found))
    | inr other ↦ let (j, m) = find-mem uid es item (ground arith) in (j, Memᴰ.tail m)
  ]

  -- Two legacy entries found under different UIDs have slugs that do not overlap.
  find-NoOverlap :
      (u v : String) (es : List (String × Entry)) (e f : Entry)
      → IsSeparated libraries es
      → (u == v) ≡ false
      → find u es ≡ some e
      → find v es ≡ some f
      → is_legacy e ≡ true
      → is_legacy f ≡ true
      → NoOverlap e.slug f.slug
  unfolding find
  find-NoOverlap u v [] e f s n h k le lf = cc
  find-NoOverlap u v ((j, x) ∷ es) e f (same, valid, apart, rest) n h k le lf =
      elim (Bool-cases (j == u)) [
        | inl at_u ↦
            let x_e : x ≡ e = ground arith in
            let later : find v es ≡ some f = ground (arith, eq_iff j u, eq_iff j v, eq_iff u v) in
            let (i, m) = find-mem v es f later in
            rw (← x_e) ((All-mem (λ y. IsApart x y.1) apart m).slugs (rw x_e le) lf)
        | inr not_u ↦ elim (Bool-cases (j == v)) [
          | inl at_v ↦
              let x_f : x ≡ f = ground arith in
              let later : find u es ≡ some e = ground arith in
              let (i, m) = find-mem u es e later in
              NoOverlap-sym f.slug e.slug
                (rw (← x_f) ((All-mem (λ y. IsApart x y.1) apart m).slugs (rw x_f lf) le))
          | inr not_v ↦ find-NoOverlap u v es e f rest n (ground arith) (ground arith) le lf
        ]
      ]

  legacy-reserved :
      (item : Entry)
      → validate_entry libraries item ≡ true
      → is_legacy item ≡ true
      → NoOverlap item.slug reserved
  unfolding validate_entry
  legacy-reserved item h l = ground arith

  legacy-derived :
      (p : Policy) (item : Entry) (uid d : String)
      → IsSeparated libraries p.entries
      → find uid p.entries ≡ some item
      → is_legacy item ≡ true
      → NoOverlap item.slug (reserved +++ d)
  legacy-derived p item uid d s found legacy =
      NoOverlap-append item.slug reserved d
        (legacy-reserved item (find-facts uid p.entries item s found).1 legacy)

  IsSelected-NoOverlap :
      (p : Policy) (a b : ObjectMeta) (c d : Chosen)
      → IsSeparated libraries p.entries
      → (a.uid == b.uid) ≡ false
      → NoOverlap (libraries.digest (slug_input a)) (libraries.digest (slug_input b))
      → IsSelected p a c
      → IsSelected p b d
      → NoOverlap c.slug d.slug
  IsSelected-NoOverlap p a b c d s n no_clash (by_legacy e fe le se) (by_legacy f ff lf sf) =
      rw (se, sf) (find-NoOverlap a.uid b.uid p.entries e f s n fe ff le lf)
  IsSelected-NoOverlap p a b c d s n no_clash (by_legacy e fe le se) (by_digest sd) =
      rw (se, sd) (legacy-derived p e a.uid _ s fe le)
  IsSelected-NoOverlap p a b c d s n no_clash (by_digest sc) (by_legacy f ff lf sf) =
      rw (sc, sf) (NoOverlap-sym f.slug _ (legacy-derived p f b.uid _ s ff lf))
  IsSelected-NoOverlap p a b c d s n no_clash (by_digest sc) (by_digest sd) =
      rw (sc, sd) (NoOverlap-append_both reserved _ _ no_clash)

  -- Under a policy that `Parse` returned, two objects of different UIDs that `Select` gives a slug
  -- get slugs none of which begins with the other, legacy and derived ones alike, if the digests
  -- of the two UIDs do not begin with one another.
  pub select-NoOverlap :
      (input : Result String) (p : Policy) (a b : ObjectMeta) (c d : Chosen)
      → parse libraries input ≡ ok p
      → (a.uid == b.uid) ≡ false
      → NoOverlap (libraries.digest (slug_input a)) (libraries.digest (slug_input b))
      → select libraries (some p) a ≡ ok c
      → select libraries (some p) b ≡ ok d
      → NoOverlap c.slug d.slug
  select-NoOverlap input p a b c d parsed n no_clash sa sb =
      IsSelected-NoOverlap p a b c d (parse-IsSeparated libraries input p parsed) n no_clash
        (select-IsSelected p a c sa) (select-IsSelected p b d sb)

  -- An object that the operator has admitted, and the slug that it is due: it has a UID and a creation
  -- time, and either the policy has an entry of its UID that names it, with the entry's legacy slug if
  -- it has one, or it is not mapped and newer than the cutover.
  pub data IsDue (p : Policy) (object : ObjectMeta) (c : Chosen) : Type 0 where
    legacy :
        (item : Entry)
        → find object.uid p.entries ≡ some item
        → (item.namespace ≡ object.namespace) × (item.name ≡ object.name)
        → is_legacy item ≡ true
        → c ≡ record { slug = item.slug; source = "Legacy" }
        → IsDue p object c
    mapped :
        (item : Entry)
        → find object.uid p.entries ≡ some item
        → (item.namespace ≡ object.namespace) × (item.name ≡ object.name)
        → is_legacy item ≡ false
        → c ≡ derived libraries object.uid
        → IsDue p object c
    created :
        (time : ℕ)
        → object.created ≡ some time
        → find object.uid p.entries ≡ none
        → p.cutover < time
        → c ≡ derived libraries object.uid
        → IsDue p object c

  abbrev pub IsAdmitted : Option Policy → ObjectMeta → Chosen → Type 0
  IsAdmitted none object c = ⊥
  IsAdmitted (some p) object c = (object.uid ≢ "") × (object.created ≢ none) × IsDue p object c

  select-IsDue :
      (p : Policy) (object : ObjectMeta) (c : Chosen)
      → select libraries (some p) object ≡ ok c
      → IsDue p object c
  unfolding select
  select-IsDue p object c h = elim (Option-cases object.created) [
    | inl never ↦ absurd (ground arith)
    | inr (time, stamped) ↦ elim (Option-cases (find object.uid p.entries)) [
      | inl missing ↦ IsDue.created time stamped missing (ground arith) (ground arith)
      | inr (item, found) ↦
          let names : (item.namespace ≡ object.namespace) × (item.name ≡ object.name) =
            ground (arith, eq_iff item.namespace object.namespace, eq_iff item.name object.name) in
          elim (Bool-cases (is_legacy item)) [
            | inl old ↦ IsDue.legacy item found names old (ground arith)
            | inr other ↦ IsDue.mapped item found names other (ground arith)
          ]
    ]
  ]

  IsDue-select :
      (p : Policy) (object : ObjectMeta) (c : Chosen) (time : ℕ)
      → (object.uid == "") ≡ false
      → object.created ≡ some time
      → IsDue p object c
      → select libraries (some p) object ≡ ok c
  unfolding select
  IsDue-select p object c time named stamped (legacy item found (ns, n) old e) =
      let same_ns : (item.namespace == object.namespace) ≡ true = (eq_iff _ _).1 ns in
      let same_n : (item.name == object.name) ≡ true = (eq_iff _ _).1 n in ground arith
  IsDue-select p object c time named stamped (mapped item found (ns, n) other e) =
      let same_ns : (item.namespace == object.namespace) ≡ true = (eq_iff _ _).1 ns in
      let same_n : (item.name == object.name) ≡ true = (eq_iff _ _).1 n in ground arith
  IsDue-select p object c time named stamped (created t stamped' missing newer e) = ground arith

  -- `Select` gives an object a slug and a source exactly if there is a policy, the object has a UID
  -- and a creation time, and these are what it is due: the slug of the legacy entry of its UID, or the
  -- one that its UID derives if that entry is no legacy one, where the entry has the object's namespace
  -- and name; and, without an entry, the derived one if it was created after the cutover.
  pub select_iff :
      (policy : Option Policy) (object : ObjectMeta) (c : Chosen)
      → (select libraries policy object ≡ ok c) ↔ IsAdmitted policy object c
  unfolding select
  select_iff none object c = (λ h. cc, λ h. absurd h)
  select_iff (some p) object c = (
    λ h. (
      λ e. ground (arith, eq_iff object.uid ""),
      λ e. ground arith,
      select-IsDue p object c (unfold select in h),
    ),
    λ (named, stamped, due). elim (Option-cases object.created) [
      | inl never ↦ absurd (stamped never)
      | inr (time, e) ↦ unfold select in (IsDue-select p object c time (==_of_ne _ _ named) e due)
    ],
  )
