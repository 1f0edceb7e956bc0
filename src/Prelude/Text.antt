-- ===== src/Prelude/Text.antt =====
-- The functions of Go's package `strings` that the sources call, over native texts.
use Prim.Native.Char.{Char, code}
use Prim.Native.String
use Prim.Native.String.{String, [], ◌∷◌}
use mathlib.Core.Path.{◌≡◌, refl}
use mathlib.Core.Logic.{◌↔◌}
use mathlib.Core.Bool.{Bool, true, false, ◌||◌}
use Prim.Native.Nat.{ℕ, compare, Ordering}
use text.Mathlib.Text.{starts_with, ◌==◌}
use text.Mathlib.TextBridge.{IsPrefix}
use text.Mathlib.TextEquality.{starts_with_iff}

infixr 65 ◌+++◌
abbrev pub ◌+++◌ : String → String → String
s +++ t = String.◌++◌ s t

-- `strings.HasPrefix(s, p)`
abbrev pub has_prefix : String → String → Bool
has_prefix s p = starts_with s p

-- The text behind as many characters as `p` has.
behind : String → String → String
behind [] s = s
behind p [] = []
behind (_ ∷ p) (_ ∷ s) = behind p s

-- `strings.TrimPrefix(s, p)`
unfoldable pub trim_prefix : String → String → String
unfolding behind
trim_prefix s p = elim (has_prefix s p) [ true ↦ behind p s | false ↦ s ]

abbrev same : ℕ → ℕ → Bool
same a b = elim (compare a b) [ Ordering.eq ↦ true | _ ↦ false ]

abbrev between : ℕ → ℕ → ℕ → Bool
between lo hi c = elim (compare lo c) [
  | Ordering.gt ↦ false
  | _ ↦ elim (compare c hi) [ Ordering.gt ↦ false | _ ↦ true ]
]

-- `unicode.IsSpace`
unfoldable pub is_space : Char → Bool
is_space c =
    between 9 13 (code c)
    || same 32 (code c)
    || same 0x85 (code c)
    || same 0xa0 (code c)
    || same 0x1680 (code c)
    || between 0x2000 0x200a (code c)
    || between 0x2028 0x2029 (code c)
    || same 0x202f (code c)
    || same 0x205f (code c)
    || same 0x3000 (code c)

trim_left : (Char → Bool) → String → String
trim_left p [] = []
trim_left p (c ∷ s) = elim (p c) [ true ↦ trim_left p s | false ↦ c ∷ s ]

abbrev keep_unless : Bool → Char → String → String
keep_unless true c [] = []
keep_unless _ c r = c ∷ r

trim_right : (Char → Bool) → String → String
trim_right p [] = []
trim_right p (c ∷ s) = keep_unless (p c) c (trim_right p s)

-- `strings.TrimSpace(s)`
unfoldable pub trim_space : String → String
unfolding trim_left trim_right is_space
trim_space s = trim_right is_space (trim_left is_space s)

abbrev is_slash : Char → Bool
is_slash c = same b'/' (code c)

-- `strings.TrimRight(s, "/")`
unfoldable pub trim_slashes : String → String
unfolding trim_right
trim_slashes s = trim_right is_slash s

-- `strings.TrimRight(s, "/")`
unfoldable pub trim_right_slashes : String → String
unfolding trim_right
trim_right_slashes s = trim_right is_slash s

abbrev is_padding : Char → Bool
is_padding c = same b'=' (code c)

-- `strings.TrimRight(s, "=")`
unfoldable pub trim_padding : String → String
unfolding trim_right
trim_padding s = trim_right is_padding s

trim_tests :
    (trim_space " \ta b " ≡ "a b")
    × (trim_slashes "/llm/x//" ≡ "/llm/x")
    × (trim_prefix "Bearer abc" "Bearer " ≡ "abc")
    × (trim_prefix "Basic abc" "Bearer " ≡ "Basic abc")
unfolding trim_space trim_slashes trim_prefix
trim_tests = (refl, refl, refl, refl)

pub has_prefix_iff : (s p : String) → (has_prefix s p ≡ true) ↔ IsPrefix p s
has_prefix_iff s p = starts_with_iff s p

-- `strings.TrimSpace(s) == ""`
abbrev pub is_blank : String → Bool
is_blank s = trim_space s == ""

pub is_blank-empty : is_blank "" ≡ true
unfolding trim_space
is_blank-empty = refl
