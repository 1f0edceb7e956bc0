-- ===== src/Api/Ensures.antt =====
-- What a handler may call and return, whatever the replies. `Obs c r` stands for "the call `c` was
-- made and got the reply `r`", `P` bounds the calls that are made, `R` the result.
use showroom_msp_private_llm.Prelude.{◌≡◌, refl, Bool, true, false, if◌then◌else◌}
use showroom_msp_private_llm.Api.{
  Error, Result, ok, err, Call, Answer, Api, return, call, ◌>>=◌, request, attempt,
}

module _ (Obs : (c : Call) → Result (Answer c) → Type 0) (P : Call → Type 0) where
  pub data Ensures {A : Type 0} (R : Result A → Type 0) : Api A → Type 0 where
    done : {r : Result A} → R r → Ensures R (return r)
    made :
        {c : Call} {k : Result (Answer c) → Api A}
        → P c
        → ((r : Result (Answer c)) → Obs c r → Ensures R (k r))
        → Ensures R (call c k)

module _ {Obs : (c : Call) → Result (Answer c) → Type 0} {P : Call → Type 0} where
  pub Ensures-mono :
      {A : Type 0} {S R : Result A → Type 0} {m : Api A}
      → ((r : Result A) → S r → R r)
      → Ensures Obs P S m
      → Ensures Obs P R m
  Ensures-mono {R} f (done {r} h) = done (f r h)
  Ensures-mono {R} f (made p n) = made p (λ r o. Ensures-mono f (n r o))

  pub Ensures-bind :
      {A B : Type 0} {S : Result A → Type 0} {R : Result B → Type 0} {m : Api A} {f : A → Api B}
      → Ensures Obs P S m
      → ((a : A) → S (ok a) → Ensures Obs P R (f a))
      → ((e : Error) → S (err e) → R (err e))
      → Ensures Obs P R (m >>= f)
  unfolding ◌>>=◌
  Ensures-bind (done {r = ok a} h) next fail = next a h
  Ensures-bind (done {r = err e} h) next fail = done (fail e h)
  Ensures-bind (made p n) next fail = made p (λ r o. Ensures-bind (n r o) next fail)

  -- An error of `m` is looked at, and not passed on.
  pub Ensures-attempt :
      {A B : Type 0} {S : Result A → Type 0} {R : Result B → Type 0} {m : Api A}
      {f : Result A → Api B}
      → Ensures Obs P S m
      → ((r : Result A) → S r → Ensures Obs P R (f r))
      → Ensures Obs P R (attempt m >>= f)
  unfolding attempt ◌>>=◌
  Ensures-attempt (done {r} h) next = next r h
  Ensures-attempt (made p n) next = made p (λ r o. Ensures-attempt (n r o) next)

  pub Ensures-request :
      (c : Call) {R : Result (Answer c) → Type 0}
      → P c
      → ((r : Result (Answer c)) → Obs c r → R r)
      → Ensures Obs P R (request c)
  unfolding request
  Ensures-request c p f = made p (λ r o. done (f r o))

  -- The commonest step: one call, then the rest.
  pub Ensures-call :
      {B : Type 0} {R : Result B → Type 0} (c : Call) {f : Answer c → Api B}
      → P c
      → ((a : Answer c) → Obs c (ok a) → Ensures Obs P R (f a))
      → ((e : Error) → Obs c (err e) → R (err e))
      → Ensures Obs P R (request c >>= f)
  Ensures-call c p next fail = Ensures-bind {S = Obs c} (Ensures-request c p (λ r o. o)) next fail

  -- A result that no call gives, then the rest.
  pub Ensures-lift :
      {A B : Type 0} {R : Result B → Type 0} (r : Result A) {f : A → Api B}
      → ((a : A) → r ≡ ok a → Ensures Obs P R (f a))
      → ((e : Error) → r ≡ err e → R (err e))
      → Ensures Obs P R (return r >>= f)
  unfolding ◌>>=◌
  Ensures-lift (ok a) next fail = next a refl
  Ensures-lift (err e) next fail = done (fail e refl)

  -- One call whose reply is looked at, then the rest.
  pub Ensures-try :
      {B : Type 0} {R : Result B → Type 0} (c : Call) {f : Result (Answer c) → Api B}
      → P c
      → ((r : Result (Answer c)) → Obs c r → Ensures Obs P R (f r))
      → Ensures Obs P R (attempt (request c) >>= f)
  unfolding ◌>>=◌ attempt request
  Ensures-try c p next = made p next

  pub Ensures-if :
      {A : Type 0} {R : Result A → Type 0} (b : Bool) {m n : Api A}
      → (b ≡ true → Ensures Obs P R m)
      → (b ≡ false → Ensures Obs P R n)
      → Ensures Obs P R (if b then m else n)
  Ensures-if true yes_case no_case = yes_case refl
  Ensures-if false yes_case no_case = no_case refl

-- What bounds fewer calls also bounds more.
pub Ensures-calls :
    {Obs : (c : Call) → Result (Answer c) → Type 0} {P Q : Call → Type 0} {A : Type 0}
    {R : Result A → Type 0} {m : Api A}
    → ((c : Call) → P c → Q c)
    → Ensures Obs P R m
    → Ensures Obs Q R m
Ensures-calls {Q} f (done h) = done h
Ensures-calls {Q} f (made {c} p n) = made (f c p) (λ r o. Ensures-calls f (n r o))

-- The call stands in the tree: the handler makes it for some replies.
pub data IsCallOf {A : Type 0} (c : Call) : Api A → Type 0 where
  here : {k : Result (Answer c) → Api A} → IsCallOf c (call c k)
  later :
      {d : Call} {k : Result (Answer d) → Api A}
      → (r : Result (Answer d)) → IsCallOf c (k r)
      → IsCallOf c (call d k)

-- Nothing but its own calls can be said of any handler.
pub Ensures-any :
    {Obs : (c : Call) → Result (Answer c) → Type 0} {A : Type 0} (m : Api A)
    → Ensures Obs (λ c. IsCallOf c m) (λ _. Unit) m
Ensures-any (return r) = done tt
Ensures-any (call d k) =
    made IsCallOf.here (λ r _. Ensures-calls (λ c h. IsCallOf.later r h) (Ensures-any (k r)))
