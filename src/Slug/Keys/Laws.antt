-- ===== src/Slug/Keys/Laws.antt =====
-- The token walk decides, of every JSON value, that each object in it has known, distinct fields.
use showroom_msp_private_llm.Prelude.{
  ℕ, zero, suc, ◌+◌, ◌<◌, ◌≤◌, String, ◌≡◌, refl, Bool, true, false, not, ◌&&◌, List, [], ◌∷◌,
  arith, ◌==◌, eq_iff, Bool-cases, inl, inr, and_parts, or_false_parts, false_of_not,
}
use showroom_msp_private_llm.Prelude.Lists.{length, All}
use showroom_msp_private_llm.Api.{Result, ok, err, Error}
use showroom_msp_private_llm.Slug.Keys.{
  Token, open_object, close_object, open_array, close_array, scalar, text, contains, is_known, more,
  skip_token, key_token, reject_duplicate_keys, object_fields, array_items,
}

-- JSON values as trees, and the tokens that the decoder makes of their text.
mutual
  pub data Json : Type 0 where
    atom : Json
    word : String → Json
    object : Members → Json
    array : Items → Json

  pub data Members : Type 0 where
    no_members : Members
    member : String → Json → Members → Members

  pub data Items : Type 0 where
    no_items : Items
    item : Json → Items → Items

-- The tokens of a value, in front of those that follow it.
unfoldable mutual
  pub tokens : Json → List Token → List Token
  tokens atom rest = scalar ∷ rest
  tokens (word s) rest = text s ∷ rest
  tokens (object ms) rest = open_object ∷ member_tokens ms rest
  tokens (array vs) rest = open_array ∷ item_tokens vs rest

  pub member_tokens : Members → List Token → List Token
  member_tokens no_members rest = close_object ∷ rest
  member_tokens (member k v ms) rest = text k ∷ tokens v (member_tokens ms rest)

  pub item_tokens : Items → List Token → List Token
  item_tokens no_items rest = close_array ∷ rest
  item_tokens (item v vs) rest = tokens v (item_tokens vs rest)

-- The number of tokens of a value.
mutual
  pub size : Json → ℕ
  size atom = 1
  size (word s) = 1
  size (object ms) = 1 + member_size ms
  size (array vs) = 1 + item_size vs

  pub member_size : Members → ℕ
  member_size no_members = 1
  member_size (member k v ms) = 1 + (size v + member_size ms)

  pub item_size : Items → ℕ
  item_size no_items = 1
  item_size (item v vs) = size v + item_size vs

abbrev pub names : Members → List String
names no_members = []
names (member k v ms) = k ∷ names ms

-- A field is known, has not been named before, and its value is well formed in turn.
unfoldable mutual
  pub well_keyed : Json → Bool
  well_keyed atom = true
  well_keyed (word s) = true
  well_keyed (object ms) = fresh_members [] ms
  well_keyed (array vs) = well_keyed_items vs

  pub fresh_members : List String → Members → Bool
  fresh_members seen no_members = true
  fresh_members seen (member k v ms) =
      not (contains seen k) && (is_known k && (well_keyed v && fresh_members (k ∷ seen) ms))

  pub well_keyed_items : Items → Bool
  well_keyed_items no_items = true
  well_keyed_items (item v vs) = well_keyed v && well_keyed_items vs

-- The walk of a value that is accepted or not, in front of any other tokens.
abbrev pub Verdict : Bool → List Token → Result (List Token) → Type 0
Verdict true rest r = r ≡ ok rest
Verdict false rest r = (e : Error) × (r ≡ err e)

more-tokens : (v : Json) (rest : List Token) → more (tokens v rest) ≡ true
unfolding tokens
more-tokens atom rest = refl
more-tokens (word s) rest = refl
more-tokens (object ms) rest = refl
more-tokens (array vs) rest = refl

size-pos : (v : Json) → 0 < size v
unfolding size
size-pos atom = omega arith
size-pos (word s) = omega arith
size-pos (object ms) = omega arith
size-pos (array vs) = omega arith

item_size-pos : (vs : Items) → 0 < item_size vs
unfolding size
item_size-pos no_items = omega arith
item_size-pos (item v vs) = omega (arith, item_size-pos vs)

Verdict-then :
    (b c : Bool) (mid rest : List Token) (r : Result (List Token))
    (next : List Token → Result (List Token))
    → Verdict b mid r
    → Verdict c rest (next mid)
    → Verdict (b && c) rest (elim r [ err e ↦ err e | ok rest' ↦ next rest' ])
Verdict-then true c mid rest r next h n = rw h n
Verdict-then false c mid rest r next (e, h) n = (e, rw h)

Verdict-key :
    (k : String) (seen : List String) (c : Bool) (mid rest : List Token)
    (next : String × List Token → Result (List Token))
    → Verdict c rest (next (k, mid))
    → Verdict
        (not (contains seen k) && (is_known k && c))
        rest
        (elim (key_token seen (text k ∷ mid)) [ err e ↦ err e | ok p ↦ next p ])
Verdict-key k seen c mid rest next n = elim (Bool-cases (contains seen k)) [
  | inl old ↦ rw old (_, refl)
  | inr new ↦ rw new (elim (Bool-cases (is_known k)) [
    | inl known ↦ rw known n
    | inr unknown ↦ rw unknown (_, refl)
  ])
]

Verdict-more :
    (ts : List Token) (b : Bool) (rest : List Token) (r : Result (List Token))
    → more ts ≡ true
    → Verdict b rest r
    → Verdict b rest (elim (more ts) [ false ↦ skip_token ts | true ↦ r ])
Verdict-more ts b rest r h v = rw h v

mutual
  unfolding reject_duplicate_keys tokens well_keyed size

  verdict :
      (v : Json) (fuel : ℕ) (rest : List Token)
      → size v ≤ fuel
      → Verdict (well_keyed v) rest (reject_duplicate_keys fuel (tokens v rest))
  verdict atom zero rest h = absurd (omega arith)
  verdict atom (suc fuel) rest h = refl
  verdict (word s) zero rest h = absurd (omega arith)
  verdict (word s) (suc fuel) rest h = refl
  verdict (object ms) zero rest h = absurd (omega arith)
  verdict (object ms) (suc fuel) rest h = Verdict-members ms [] fuel rest (omega arith)
  verdict (array vs) zero rest h = absurd (omega arith)
  verdict (array vs) (suc fuel) rest h = Verdict-items vs fuel rest (omega arith)

  Verdict-members :
      (ms : Members) (seen : List String) (fuel : ℕ) (rest : List Token)
      → member_size ms ≤ fuel
      → Verdict (fresh_members seen ms) rest (object_fields fuel seen (member_tokens ms rest))
  Verdict-members no_members seen zero rest h = absurd (omega arith)
  Verdict-members no_members seen (suc fuel) rest h = refl
  Verdict-members (member k v ms) seen zero rest h = absurd (omega arith)
  Verdict-members (member k v ms) seen (suc fuel) rest h =
      Verdict-key k seen (well_keyed v && fresh_members (k ∷ seen) ms)
        (tokens v (member_tokens ms rest)) rest _
        (Verdict-then (well_keyed v) (fresh_members (k ∷ seen) ms) (member_tokens ms rest) rest
          (reject_duplicate_keys fuel (tokens v (member_tokens ms rest)))
          (object_fields fuel (k ∷ seen)) (verdict v fuel (member_tokens ms rest) (omega arith))
          (Verdict-members ms (k ∷ seen) fuel rest (omega arith)))

  Verdict-items :
      (vs : Items) (fuel : ℕ) (rest : List Token)
      → item_size vs ≤ fuel
      → Verdict (well_keyed_items vs) rest (array_items fuel (item_tokens vs rest))
  Verdict-items no_items zero rest h = absurd (omega arith)
  Verdict-items no_items (suc fuel) rest h = refl
  Verdict-items (item v vs) zero rest h = absurd (omega (arith, item_size-pos vs))
  Verdict-items (item v vs) (suc fuel) rest h =
      Verdict-more (tokens v (item_tokens vs rest)) (well_keyed v && well_keyed_items vs) rest _
        (more-tokens v (item_tokens vs rest))
        (Verdict-then (well_keyed v) (well_keyed_items vs) (item_tokens vs rest) rest
          (reject_duplicate_keys fuel (tokens v (item_tokens vs rest))) (array_items fuel)
          (verdict v fuel (item_tokens vs rest) (omega (arith, item_size-pos vs)))
          (Verdict-items vs fuel rest (omega (arith, size-pos v))))

abbrev pub Distinct : List String → Type 0
Distinct [] = Unit
Distinct (k ∷ ks) = (contains ks k ≡ false) × Distinct ks

mutual
  unfolding size tokens

  size-le-tokens : (v : Json) (rest : List Token) → size v + length rest ≤ length (tokens v rest)
  size-le-tokens atom rest = omega arith
  size-le-tokens (word s) rest = omega arith
  size-le-tokens (object ms) rest = omega (arith, member_size-le-tokens ms rest)
  size-le-tokens (array vs) rest = omega (arith, item_size-le-tokens vs rest)

  member_size-le-tokens :
      (ms : Members) (rest : List Token)
      → member_size ms + length rest ≤ length (member_tokens ms rest)
  member_size-le-tokens no_members rest = omega arith
  member_size-le-tokens (member k v ms) rest =
      omega (arith, size-le-tokens v (member_tokens ms rest), member_size-le-tokens ms rest)

  item_size-le-tokens :
      (vs : Items) (rest : List Token) → item_size vs + length rest ≤ length (item_tokens vs rest)
  item_size-le-tokens no_items rest = omega arith
  item_size-le-tokens (item v vs) rest =
      omega (arith, size-le-tokens v (item_tokens vs rest), item_size-le-tokens vs rest)

-- With fuel for the number of tokens, `rejectDuplicateKeys` accepts exactly the JSON values whose
-- objects all have known field names with no repetition, and leaves the tokens behind the value;
-- it refuses every other value with an error.
pub reject_duplicate_keys_decides :
    (v : Json) (rest : List Token)
    → Verdict (well_keyed v) rest (reject_duplicate_keys (length (tokens v rest)) (tokens v rest))
reject_duplicate_keys_decides v rest =
    verdict v (length (tokens v rest)) rest (omega (arith, size-le-tokens v rest))

not-contains :
    (k : String) (seen ns : List String)
    → All (λ j. contains (k ∷ seen) j ≡ false) ns
    → contains ns k ≡ false
unfolding contains
not-contains k seen [] h = refl
not-contains k seen (j ∷ ns) (h, hs) =
    ground (arith, eq_iff k j, eq_iff j k, not-contains k seen ns hs)

contains-tail :
    (k : String) (seen ns : List String)
    → All (λ j. contains (k ∷ seen) j ≡ false) ns
    → All (λ j. contains seen j ≡ false) ns
unfolding contains
contains-tail k seen [] h = tt
contains-tail k seen (j ∷ ns) (h, hs) =
    ((or_false_parts (k == j) (contains seen j) h).1, contains-tail k seen ns hs)

fresh_members-names :
    (ms : Members) (seen : List String)
    → fresh_members seen ms ≡ true
    → All (λ j. contains seen j ≡ false) (names ms)
      × Distinct (names ms)
      × All (λ j. is_known j ≡ true) (names ms)
unfolding fresh_members
fresh_members-names no_members seen h = (tt, tt, tt)
fresh_members-names (member k v ms) seen h =
    let (new, h1) = and_parts _ _ h in
    let (known, h2) = and_parts _ _ h1 in
    let (good, later) = and_parts _ _ h2 in
    let (apart, distinct, all_known) = fresh_members-names ms (k ∷ seen) later in
    (
      (false_of_not _ new, contains-tail k seen (names ms) apart),
      (not-contains k seen (names ms) apart, distinct),
      (known, all_known),
    )

-- If `rejectDuplicateKeys` accepts an object, then its field names are pairwise different and each
-- is one of the seven known names.
pub accepted_names :
    (ms : Members) (rest : List Token)
    → reject_duplicate_keys (length (tokens (object ms) rest)) (tokens (object ms) rest) ≡ ok rest
    → Distinct (names ms) × All (λ k. is_known k ≡ true) (names ms)
unfolding well_keyed
accepted_names ms rest h = elim (Bool-cases (fresh_members [] ms)) [
  | inl yes_case ↦
      let (_, distinct, known) = fresh_members-names ms [] yes_case in (distinct, known)
  | inr no_case ↦
      let (e, refused) : (e : Error) × (reject_duplicate_keys (length (tokens (object ms) rest))
              (tokens (object ms) rest)
            ≡ err e) =
        rw no_case at (reject_duplicate_keys_decides (object ms) rest) in
      cc
]
