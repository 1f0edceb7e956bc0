-- ===== src/Prelude/Dict.antt =====
-- Go's `map[string]string` as an association list, read at its first entry. A nil map and an empty
-- one are both `[]`: the sources read them alike and make the map before they write to it.
use showroom_msp_private_llm.Prelude.{
  String, ◌≡◌, refl, Bool, true, false, Option, none, some, List, [], ◌∷◌, arith, ◌==◌, eq_iff,
  if◌then◌else◌,
}
use text.Mathlib.TextPositions.{eq_refl}

abbrev pub Dict : Type 0
Dict = List (String × String)

unfoldable pub lookup : String → Dict → Option String
lookup key [] = none
lookup key ((first, value) ∷ rest) =
    let later = lookup key rest in if first == key then some value else later

-- `m[k]`, the empty text where the key is missing
unfoldable pub get : Dict → String → String
get m k = elim (lookup k m) [ none ↦ "" | some v ↦ v ]

-- `_, exists := m[k]`
unfoldable pub has : Dict → String → Bool
has m k = elim (lookup k m) [ none ↦ false | some v ↦ true ]

-- `m[k] = v`
unfoldable pub insert : String → String → Dict → Dict
insert key value [] = (key, value) ∷ []
insert key value ((first, old) ∷ rest) =
    let later = insert key value rest in
    if first == key then (key, value) ∷ rest else (first, old) ∷ later

-- `delete(m, k)`
unfoldable pub remove : String → Dict → Dict
remove k [] = []
remove k ((j, v) ∷ m) = let rest = remove k m in if j == k then rest else (j, v) ∷ rest

-- An insertion changes what is found under its own key only.
pub lookup-insert :
    (key j value : String) (dict : Dict)
    → lookup j (insert key value dict) ≡ (if key == j then some value else lookup j dict)
unfolding insert lookup
lookup-insert key j value [] = refl
lookup-insert key j value ((first, old) ∷ rest) =
    ground (arith, lookup-insert key j value rest, eq_iff first j, eq_iff first key, eq_iff key j)

pub lookup-remove :
    (k j : String) (m : Dict) → lookup j (remove k m) ≡ (if k == j then none else lookup j m)
unfolding lookup remove
lookup-remove k j [] = ground arith
lookup-remove k j ((i, v) ∷ m) =
    ground (arith, lookup-remove k j m, eq_iff i k, eq_iff i j, eq_iff k j)

pub get-insert :
    (k j v : String) (m : Dict) → get (insert k v m) j ≡ (if k == j then v else get m j)
unfolding get
get-insert k j v m = ground (arith, lookup-insert k j v m)

pub get-remove : (k j : String) (m : Dict) → get (remove k m) j ≡ (if k == j then "" else get m j)
unfolding get
get-remove k j m = ground (arith, lookup-remove k j m)

pub get-insert_self : (k v : String) (m : Dict) → get (insert k v m) k ≡ v
get-insert_self k v m = rw (get-insert k k v m) (rw (eq_refl k))

pub get-insert_ne : (k j v : String) (m : Dict) → (k == j) ≡ false → get (insert k v m) j ≡ get m j
get-insert_ne k j v m h = rw (get-insert k j v m) (rw h)

pub get-remove_self : (k : String) (m : Dict) → get (remove k m) k ≡ ""
get-remove_self k m = rw (get-remove k k m) (rw (eq_refl k))

pub get-remove_ne : (k j : String) (m : Dict) → (k == j) ≡ false → get (remove k m) j ≡ get m j
get-remove_ne k j m h = rw (get-remove k j m) (rw h)

pub has-insert :
    (k j v : String) (m : Dict) → has (insert k v m) j ≡ (if k == j then true else has m j)
unfolding has
has-insert k j v m = ground (arith, lookup-insert k j v m)

pub has-remove :
    (k j : String) (m : Dict) → has (remove k m) j ≡ (if k == j then false else has m j)
unfolding has
has-remove k j m = ground (arith, lookup-remove k j m)
