-- ===== src/Prelude/Lists.antt =====
-- Lists measured by native numbers, and predicates on all members.
use Prim.Native.Nat.{ℕ, suc}
use mathlib.Core.List.{List, [], ◌∷◌, ◌++◌, Memᴰ}

module _ {ℓ} {A : Type ℓ} where
  abbrev pub length : List A → ℕ
  length [] = 0
  length (x ∷ xs) = suc (length xs)

module _ {ℓ κ} {A : Type ℓ} (P : A → Type κ) where
  -- A predicate holds of all members.
  abbrev pub All : List A → Type κ
  All [] = Unit
  All (x ∷ xs) = P x × All xs

  pub All-mem : {x : A} {xs : List A} → All xs → Memᴰ x xs → P x
  All-mem {xs = []} _ m = elim m [ ]
  All-mem {xs = y ∷ ys} (h, hs) (Memᴰ.head e) = rw e h
  All-mem {xs = y ∷ ys} (h, hs) (Memᴰ.tail m) = All-mem {xs = ys} hs m

pub mem_of_mem_append {ℓ} : {A : Type ℓ} {x : A} (xs ys : List A) → Memᴰ x ys → Memᴰ x (xs ++ ys)
mem_of_mem_append [] ys m = m
mem_of_mem_append (y ∷ xs) ys m = Memᴰ.tail (mem_of_mem_append xs ys m)
