-- ===== src/Auth/Verified.antt =====
-- The handler of /auth/verify: what its responses promise, and that it only reads.
use showroom_msp_private_llm.Prelude.{
  String, ◌≡◌, refl, Bool, true, false, not, Option, some, List, ◌==◌, arith, Option-cases, inl,
  inr, true_of_not, or_false_parts, ◌||◌,
}
use showroom_msp_private_llm.Prelude.Text.{has_prefix}
use showroom_msp_private_llm.Api.{Result, ok, err, Call, Answer}
use showroom_msp_private_llm.Api.Ensures.{Ensures, done, Ensures-attempt, Ensures-if}
use showroom_msp_private_llm.Api.Trace.{Event, Seen, run, run_sound}
use showroom_msp_private_llm.Slug.Policy.{Libraries, Policy}
use showroom_msp_private_llm.Auth.{
  Binding, Query, parse_binding, respond, bearer_token, verify, Response,
}
use showroom_msp_private_llm.Auth.Granted.{IsLiveRead, IsGranted, authorize-Ensures}

module _ (libraries : Libraries) (policy : Option Policy)
    (Obs : (c : Call) → Result (Answer c) → Type 0) where
  -- A request that gets status 200: its query binds an instance, and it carries a granted token.
  pub record IsAccepted (query : Query) (header : String) : Type 0 where
    pub binding : Binding
    pub bound : parse_binding libraries query ≡ some binding
    pub bearer : has_prefix header "Bearer " ≡ true
    pub granted : IsGranted libraries policy Obs binding (bearer_token header)

  -- What a response promises: it is one of four, and 200 only for an accepted request.
  pub record IsSound (query : Query) (header : String) (r : Result Response) : Type 0 where
    pub response : Response
    pub returned : r ≡ ok response
    pub accepted : response.status ≡ 200 → IsAccepted query header

  verify-Ensures :
      (query : Query) (header : String)
      → Ensures Obs IsLiveRead (IsSound query header) (verify libraries policy query header)
  unfolding verify
  verify-Ensures query header = elim (Option-cases (parse_binding libraries query)) [
    | inl missing ↦
        rw missing
          (done (record { response = _; returned = refl; accepted = λ e. absurd (omega arith) }))
    | inr (binding, bound) ↦ rw bound (
        Ensures-if (not (has_prefix header "Bearer ") || bearer_token header == "")
          (λ _.
            done (record { response = _; returned = refl; accepted = λ e. absurd (omega arith) }))
          (λ carried.
            Ensures-attempt (authorize-Ensures libraries policy Obs binding (bearer_token header))
              (λ r. answer binding bound (true_of_not _ (or_false_parts _ _ carried).0) r)))
  ]
    where
      answer :
          (binding : Binding)
          → parse_binding libraries query ≡ some binding
          → has_prefix header "Bearer " ≡ true
          → (r : Result Bool)
          → (r ≡ ok true → IsGranted libraries policy Obs binding (bearer_token header))
          → Ensures Obs IsLiveRead (IsSound query header) (respond r)
      answer binding bound bearer (err e) f =
          done (record { response = _; returned = refl; accepted = λ e. absurd (omega arith) })
      answer binding bound bearer (ok false) f =
          done (record { response = _; returned = refl; accepted = λ e. absurd (omega arith) })
      answer binding bound bearer (ok true) f = done (record {
        response = _;
        returned = refl;
        accepted =
            λ e. record { binding = binding; bound = bound; bearer = bearer; granted = f refl };
      })

module _ {W : Type 0} (answer : W → (c : Call) → Result (Answer c) × W) (libraries : Libraries)
    (policy : Option Policy) where
  abbrev pub verify_trace : Query → String → W → List Event
  verify_trace query header w = (run answer (verify libraries policy query header) w).1

  -- Whatever the API server answers, the handler of /auth/verify returns a response, and one of
  -- status 200 only for an accepted request: the query binds an instance that the API showed, of
  -- the bound UID and the bound slug, which the operator's policy still selects, hosted and not
  -- being deleted; and the bearer token is the key of a Secret that the API listed, opaque, bound
  -- to the instance's UID and to no remote target, and named by a live token request that controls
  -- it and refers to the instance.
  pub verify-IsSound :
      (query : Query) (header : String) (w : W)
      → IsSound libraries policy
          (Seen (verify_trace query header w))
          query
          header
          (run answer (verify libraries policy query header) w).0
  verify-IsSound query header w =
      (run_sound answer (verify libraries policy query header) w
        (verify-Ensures libraries policy (Seen (verify_trace query header w)) query header)).0
