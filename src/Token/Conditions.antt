-- ===== src/Token/Conditions.antt =====
-- `setTRStatusCondition`: which conditions a status has after it.
use showroom_msp_private_llm.Prelude.{
  String, ◌≡◌, ◌⊎◌, inl, inr, false, List, [], ◌∷◌, ◌++◌, Memᴰ, ◌==◌, ◌↔◌, Bool-cases,
}
use showroom_msp_private_llm.Prelude.Lists.{mem_of_mem_append}
use showroom_msp_private_llm.Kube.{Condition}
use showroom_msp_private_llm.Token.{without_type, set_condition}

module _ (type : String) where
  -- The conditions of other types.
  abbrev IsKept : Condition → List Condition → Type 0
  IsKept c cs = Memᴰ c cs × ((c.type == type) ≡ false)

  IsKept-later :
      {c : Condition} (d : Condition) {cs : List Condition} → IsKept c cs → IsKept c (d ∷ cs)
  IsKept-later d (held, apart) = (Memᴰ.tail held, apart)

  IsKept-here :
      {c d : Condition} {cs rest : List Condition}
      → (d.type == type) ≡ false
      → (Memᴰ c rest → IsKept c cs)
      → Memᴰ c (d ∷ rest)
      → IsKept c (d ∷ cs)
  IsKept-here other later (Memᴰ.head e) = (Memᴰ.head e, rw e other)
  IsKept-here {d} other later (Memᴰ.tail n) = IsKept-later d (later n)

  without_type-IsKept :
      (c : Condition) (cs : List Condition) → Memᴰ c (without_type type cs) → IsKept c cs
  unfolding without_type
  without_type-IsKept c [] m = elim m [ ]
  without_type-IsKept c (d ∷ cs) m = elim (Bool-cases (d.type == type)) [
    | inl same ↦ IsKept-later d (without_type-IsKept c cs (rw same at m))
    | inr other ↦ IsKept-here other (without_type-IsKept c cs) (rw other at m)
  ]

  kept_member : (c : Condition) (cs : List Condition) → IsKept c cs → Memᴰ c (without_type type cs)
  unfolding without_type
  kept_member c [] (m, apart) = elim m [ ]
  kept_member c (d ∷ cs) (Memᴰ.head e, apart) =
      let other : (d.type == type) ≡ false = (rw e at apart) in rw other (Memᴰ.head e)
  kept_member c (d ∷ cs) (Memᴰ.tail m, apart) = elim (Bool-cases (d.type == type)) [
    | inl same ↦ rw same (kept_member c cs (m, apart))
    | inr other ↦ rw other (Memᴰ.tail (kept_member c cs (m, apart)))
  ]

append_cases : (c d : Condition) (cs : List Condition) → Memᴰ c (cs ++ d ∷ []) → (c ≡ d) ⊎ Memᴰ c cs
append_cases c d [] (Memᴰ.head e) = inl e
append_cases c d [] (Memᴰ.tail m) = elim m [ ]
append_cases c d (x ∷ cs) (Memᴰ.head e) = inr (Memᴰ.head e)
append_cases c d (x ∷ cs) (Memᴰ.tail m) = elim (append_cases c d cs m) [
  | inl e ↦ inl e
  | inr n ↦ inr (Memᴰ.tail n)
]

append_left : (c d : Condition) (cs : List Condition) → Memᴰ c cs → Memᴰ c (cs ++ d ∷ [])
append_left c d [] m = elim m [ ]
append_left c d (x ∷ cs) (Memᴰ.head e) = Memᴰ.head e
append_left c d (x ∷ cs) (Memᴰ.tail m) = Memᴰ.tail (append_left c d cs m)

-- After `setTRStatusCondition` the conditions of a status are the given one and those that it had
-- of other types.
pub set_condition_iff :
    (cond : Condition) (cs : List Condition) (c : Condition)
    → Memᴰ c (set_condition cond cs) ↔ ((c ≡ cond) ⊎ (Memᴰ c cs × ((c.type == cond.type) ≡ false)))
unfolding set_condition
set_condition_iff cond cs c = (
  λ m. elim (append_cases c cond (without_type cond.type cs) m) [
    | inl e ↦ inl e
    | inr n ↦ inr (without_type-IsKept cond.type c cs n)
  ],
  λ h. elim h [
    | inl e ↦ mem_of_mem_append (without_type cond.type cs) (cond ∷ []) (Memᴰ.head e)
    | inr kept ↦ append_left c cond (without_type cond.type cs) (kept_member cond.type c cs kept)
  ],
)
