-- ===== src/Api/Settled.antt =====
-- Running a handler while nothing else writes: each call has one reply.
use showroom_msp_private_llm.Prelude.{◌≡◌, refl}
use showroom_msp_private_llm.Api.{
  Result, ok, err, Call, Answer, Api, return, call, ◌>>=◌, request, attempt,
}
use showroom_msp_private_llm.Api.Ensures.{Ensures, done, made}

module _ (reply : (c : Call) → Result (Answer c)) where
  unfoldable pub value : {A : Type 0} → Api A → Result A
  value (return r) = r
  value (call c k) = value (k (reply c))

module _ (reply : (c : Call) → Result (Answer c)) where
  pub value-bind_ok :
      {A B : Type 0} (m : Api A) (f : A → Api B) (a : A)
      → value reply m ≡ ok a
      → value reply (m >>= f) ≡ value reply (f a)
  unfolding value ◌>>=◌
  value-bind_ok (return (ok b)) f a h = let e : b ≡ a = cc in rw e
  value-bind_ok (return (err x)) f a h = cc
  value-bind_ok (call c k) f a h = value-bind_ok (k (reply c)) f a h

  pub value-try :
      {B : Type 0} (c : Call) (f : Result (Answer c) → Api B)
      → value reply (attempt (request c) >>= f) ≡ value reply (f (reply c))
  unfolding value ◌>>=◌ attempt request
  value-try c f = refl

  pub value-call :
      {B : Type 0} (c : Call) (f : Answer c → Api B) (a : Answer c)
      → reply c ≡ ok a
      → value reply (request c >>= f) ≡ value reply (f a)
  value-call c f a h = value-bind_ok (request c) f a (unfold value request in h)

  -- What `Ensures` promises, where "was observed" reads "is the reply".
  pub value_sound :
      {P : Call → Type 0} {A : Type 0} {R : Result A → Type 0} (m : Api A)
      → Ensures (λ c r. reply c ≡ r) P R m
      → R (value reply m)
  unfolding value
  value_sound (return r) (done h) = h
  value_sound (call c k) (made p n) = value_sound (k (reply c)) (n (reply c) refl)
