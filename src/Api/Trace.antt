-- ===== src/Api/Trace.antt =====
-- Running a handler against an environment that answers each call, and the trace that it leaves.
-- `answer` is arbitrary: the API server with all its other writers, the clock, the random source.
use showroom_msp_private_llm.Prelude.{refl, List, [], ◌∷◌, Memᴰ}
use showroom_msp_private_llm.Prelude.Lists.{All}
use showroom_msp_private_llm.Api.{Result, Call, Answer, Api, return, call}
use showroom_msp_private_llm.Api.Ensures.{Ensures, done, made}

abbrev pub Event : Type 0
Event = (c : Call) × Result (Answer c)

module _ {W : Type 0} (answer : W → (c : Call) → Result (Answer c) × W) where
  -- The result of a run from the world `w`, and its calls with their replies in order.
  unfoldable pub run : {A : Type 0} → Api A → W → Result A × List Event
  run (return r) w = (r, [])
  run (call c k) w =
      let (r, w') = answer w c in let (result, rest) = run (k r) w' in (result, (c, r) ∷ rest)

abbrev pub Seen : List Event → (c : Call) → Result (Answer c) → Type 0
Seen t c r = Memᴰ {A = Event} (c, r) t

All-Seen : (t u : List Event) → ((e : Event) → Memᴰ e u → Memᴰ e t) → All (λ e. Seen t e.0 e.1) u
All-Seen t [] f = tt
All-Seen t (e ∷ u) f = (f e (Memᴰ.head refl), All-Seen t u (λ d m. f d (Memᴰ.tail m)))

module _ {W : Type 0} (answer : W → (c : Call) → Result (Answer c) × W) where
  run-Ensures :
      {Obs : (c : Call) → Result (Answer c) → Type 0} {P : Call → Type 0} {A : Type 0}
      {R : Result A → Type 0} (m : Api A) (w : W)
      → Ensures Obs P R m
      → All (λ e. Obs e.0 e.1) (run answer m w).1
      → R (run answer m w).0 × All (λ e. P e.0) (run answer m w).1
  unfolding run
  run-Ensures (return r) w (done h) all = (h, tt)
  run-Ensures (call c k) w (made p n) (o, all) =
      let (r, w') = answer w c in
      let (result, rest) = run-Ensures (k r) w' (n r o) all in (result, (p, rest))

  -- What `Ensures` promises holds of every run, where "was observed" reads "stands in the trace".
  pub run_sound :
      {P : Call → Type 0} {A : Type 0} {R : Result A → Type 0} (m : Api A) (w : W)
      → Ensures (Seen (run answer m w).1) P R m
      → R (run answer m w).0 × All (λ e. P e.0) (run answer m w).1
  run_sound m w h = run-Ensures m w h (All-Seen (run answer m w).1 (run answer m w).1 (λ e i. i))
