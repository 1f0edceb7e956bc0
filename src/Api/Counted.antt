-- ===== src/Api/Counted.antt =====
-- How many calls of a kind a handler makes at most, whatever the replies.
use showroom_msp_private_llm.Prelude.{
  ℕ, suc, ◌≤◌, ◌≡◌, Bool, true, false, List, [], ◌∷◌, arith, Bool-cases, inl, inr, if◌then◌else◌,
}
use showroom_msp_private_llm.Api.{Result, ok, err, Call, Answer, Api, return, call, ◌>>=◌}
use showroom_msp_private_llm.Api.Ensures.{Ensures, done, made}
use showroom_msp_private_llm.Api.Trace.{Event, run}

-- The calls of a trace that are counted.
unfoldable pub count_calls : (Call → Bool) → List Event → ℕ
count_calls counted [] = 0
count_calls counted ((c, _) ∷ rest) =
    let later = count_calls counted rest in if counted c then suc later else later

module _ (counted : Call → Bool) where
  pub data AtMost {A : Type 0} : ℕ → Api A → Type 0 where
    ends : {n : ℕ} {r : Result A} → AtMost n (return r)
    free :
        {n : ℕ} {c : Call} {k : Result (Answer c) → Api A}
        → counted c ≡ false
        → ((r : Result (Answer c)) → AtMost n (k r))
        → AtMost n (call c k)
    used :
        {n : ℕ} {c : Call} {k : Result (Answer c) → Api A}
        → ((r : Result (Answer c)) → AtMost n (k r))
        → AtMost (suc n) (call c k)

module _ {counted : Call → Bool} where
  -- What makes no such call may come first.
  pub AtMost-bind :
      {A B : Type 0} {n : ℕ} {R : Result A → Type 0} {m : Api A} {f : A → Api B}
      → Ensures (λ _ _. Unit) (λ c. counted c ≡ false) R m
      → ((a : A) → AtMost counted n (f a))
      → AtMost counted n (m >>= f)
  unfolding ◌>>=◌
  AtMost-bind (done {r = ok a} h) next = next a
  AtMost-bind (done {r = err e} h) next = ends
  AtMost-bind (made other more) next = free other (λ r. AtMost-bind (more r tt) next)

  pub AtMost-if :
      {A : Type 0} {n : ℕ} (b : Bool) {l m : Api A}
      → AtMost counted n l
      → AtMost counted n m
      → AtMost counted n (if b then l else m)
  AtMost-if true yes_case no_case = yes_case
  AtMost-if false yes_case no_case = no_case

  pub count_calls-run :
      {W : Type 0} (answer : W → (c : Call) → Result (Answer c) × W) {A : Type 0} {n : ℕ}
      (m : Api A) (w : W)
      → AtMost counted n m
      → count_calls counted (run answer m w).1 ≤ n
  unfolding run count_calls
  count_calls-run answer (return r) w ends = omega arith
  count_calls-run answer (call c k) w (free other next) =
      let (r, w') = answer w c in rw other (count_calls-run answer (k r) w' (next r))
  count_calls-run answer (call c k) w (used next) =
      let (r, w') = answer w c in
      let later = count_calls-run answer (k r) w' (next r) in
      elim (Bool-cases (counted c)) [
        | inl e ↦ rw e (omega (arith, later))
        | inr e ↦ rw e (omega (arith, later))
      ]
