-- ===== src/Slug/Policy/Prefixes.antt =====
-- Texts none of which begins with the other, and the prefix facts behind the reserved "llm-".
use Prim.Native.Char.{Char}
use Prim.Native.String.{[], ◌∷◌}
use text.Mathlib.TextBridge.{IsPrefix}
use text.Mathlib.TextLemmas.{
  nil-append, cons-append, cons-eq-cons, append_assoc, append_cancel_left, prefix-append,
}
use showroom_msp_private_llm.Prelude.{
  String, ◌≡◌, sym, ap, ◌∙◌, false, ◌⊎◌, inl, inr, Bool-cases, true≢false,
}
use showroom_msp_private_llm.Prelude.Text.{◌+++◌, has_prefix, has_prefix_iff}

abbrev pub NoOverlap : String → String → Type 0
NoOverlap s t = (has_prefix s t ≡ false) × (has_prefix t s ≡ false)

pub NoOverlap-sym : (s t : String) → NoOverlap s t → NoOverlap t s
NoOverlap-sym s t h = (h.1, h.0)

prefix-cons : {c d : Char} (a b : String) → c ≡ d → IsPrefix a b → IsPrefix (c ∷ a) (d ∷ b)
prefix-cons {c} a b e (u, h) = (u, cons-append c a u ∙ cons-eq-cons.1 (e, h))

-- Two prefixes of one text are comparable.
comparable : (a b u v : String) → (a +++ u) ≡ (b +++ v) → IsPrefix a b ⊎ IsPrefix b a
comparable [] b u v e = inl (b, nil-append b)
comparable (c ∷ a) [] u v e = inr (c ∷ a, nil-append (c ∷ a))
comparable (c ∷ a) (d ∷ b) u v e =
    let (head, tail) = cons-eq-cons.0 (sym (cons-append c a u) ∙ e ∙ cons-append d b v) in
    elim (comparable a b u v tail) [
      | inl p ↦ inl (prefix-cons a b head p)
      | inr p ↦ inr (prefix-cons b a (sym head) p)
    ]

prefix_trans : (a b c : String) → IsPrefix a b → IsPrefix b c → IsPrefix a c
prefix_trans a b c (u, p) (v, q) = (u +++ v, sym (append_assoc a u v) ∙ ap (λ t. t +++ v) p ∙ q)

no_prefix : (s p : String) → (IsPrefix p s → ⊥) → has_prefix s p ≡ false
no_prefix s p h = elim (Bool-cases (has_prefix s p)) [
  | inl e ↦ absurd (h ((has_prefix_iff s p).0 e))
  | inr e ↦ e
]

not_prefix : (s p : String) → has_prefix s p ≡ false → IsPrefix p s → ⊥
not_prefix s p h i = true≢false (sym ((has_prefix_iff s p).1 i) ∙ h)

-- A text outside a reserved prefix overlaps no text behind that prefix.
pub NoOverlap-append : (s p d : String) → NoOverlap s p → NoOverlap s (p +++ d)
NoOverlap-append s p d (out, in_out) = (
  no_prefix s (p +++ d)
      (λ i. not_prefix s p out (prefix_trans p (p +++ d) s (prefix-append p d) i)),
  no_prefix (p +++ d) s (λ i. elim (comparable s p i.0 d i.1) [
    | inl q ↦ not_prefix p s in_out q
    | inr q ↦ not_prefix s p out q
  ]),
)

has_prefix-append :
    (p a b : String) → has_prefix a b ≡ false → has_prefix (p +++ a) (p +++ b) ≡ false
has_prefix-append p a b h = no_prefix (p +++ a) (p +++ b) (λ i.
    not_prefix a b h (i.0, append_cancel_left p (b +++ i.0) a (sym (append_assoc p b i.0) ∙ i.1)))

-- A common prefix changes nothing.
pub NoOverlap-append_both : (p a b : String) → NoOverlap a b → NoOverlap (p +++ a) (p +++ b)
NoOverlap-append_both p a b (h, k) = (has_prefix-append p a b h, has_prefix-append p b a k)
