-- ===== src/Hosted/Middlewares/Stripped.antt =====
-- What `reconcileStripMiddleware` writes: only the instance's own middleware.
use showroom_msp_private_llm.Prelude.{String, ◌≡◌, true, not, true_of_not, List, [], ◌∷◌, inl, inr}
use showroom_msp_private_llm.Prelude.Dict.{Dict}
use showroom_msp_private_llm.Kube.{LlmInstance}
use showroom_msp_private_llm.Kube.Workloads.{Middleware}
use showroom_msp_private_llm.Api.{
  Error, not_found, conflict, already_exists, rejection, failure, tls_not_ready, join, Result, ok,
  err, Result-cases, Key, Call, Answer, get_middleware, create_middleware, update_middleware, ◌>>=◌,
}
use showroom_msp_private_llm.Api.Ensures.{Ensures, done, Ensures-call, Ensures-try, Ensures-if}
use showroom_msp_private_llm.Slug.Ownership.{owns_llm_resource}
use showroom_msp_private_llm.Hosted.Backend.{backend_key}
use showroom_msp_private_llm.Hosted.Middlewares.{
  MiddlewareLibraries, strip_middleware_name, empty_middleware, create_strip, is_single,
  update_strip, missing_strip, read_strip, reconcile_strip_middleware,
}

module _ (Obs : (c : Call) → Result (Answer c) → Type 0) (libraries : MiddlewareLibraries)
    (inst : LlmInstance) (labels : Dict) where
  abbrev pub key_of : String → Key
  key_of name = backend_key inst name

  -- The calls of `reconcileStripMiddleware`: it updates a middleware that it read and that the
  -- instance controls, in its prefixes alone, and creates one with the instance as controller.
  pub data IsStripCall (name prefix : String) : Call → Type 0 where
    reads : IsStripCall name prefix (get_middleware (key_of name))
    updates :
        {old out : Middleware}
        → Obs (get_middleware (key_of name)) (ok old)
        → owns_llm_resource inst old.meta ≡ true
        → libraries.set_nested_prefixes (prefix ∷ []) old ≡ ok out
        → IsStripCall name prefix (update_middleware out)
    creates :
        {out : Middleware}
        → Obs (get_middleware (key_of name)) (err not_found)
        → libraries.own_middleware inst
            (record (empty_middleware inst labels name) { prefixes = prefix ∷ [] })
          ≡ ok out
        → IsStripCall name prefix (create_middleware out)

  module _ (name prefix : String) where
    create_strip-Ensures :
        Obs (get_middleware (key_of name)) (err not_found)
        → Ensures Obs
            (IsStripCall name prefix)
            (λ _. Unit)
            (create_strip libraries inst labels name prefix)
    unfolding ◌>>=◌
    create_strip-Ensures missing =
        elim (Result-cases (
          libraries.own_middleware inst
            (record (empty_middleware inst labels name) { prefixes = prefix ∷ [] }))) [
              | inl (out, e) ↦ rw e (
                  Ensures-call (create_middleware out) (IsStripCall.creates missing e)
                    (λ _ _. done tt) (λ _ _. tt))
              | inr (e, refused) ↦ rw refused (done tt)
            ]

    missing_strip-Ensures :
        (e : Error)
        → Obs (get_middleware (key_of name)) (err e)
        → Ensures Obs
            (IsStripCall name prefix)
            (λ _. Unit)
            (missing_strip libraries inst labels name prefix e)
    missing_strip-Ensures not_found shown = create_strip-Ensures shown
    missing_strip-Ensures conflict shown = done tt
    missing_strip-Ensures already_exists shown = done tt
    missing_strip-Ensures (rejection _) shown = done tt
    missing_strip-Ensures (failure _) shown = done tt
    missing_strip-Ensures (tls_not_ready _) shown = done tt
    missing_strip-Ensures (join _ _) shown = done tt

    update_strip-Ensures :
        (old : Middleware) (r : Result (List String))
        → Obs (get_middleware (key_of name)) (ok old)
        → owns_llm_resource inst old.meta ≡ true
        → Ensures Obs (IsStripCall name prefix) (λ _. Unit) (update_strip libraries old prefix r)
    update_strip-Ensures old (err e) shown owned = done tt
    update_strip-Ensures old (ok current) shown owned =
        Ensures-if (is_single current prefix) (λ _. done tt)
          (λ _. elim (Result-cases (libraries.set_nested_prefixes (prefix ∷ []) old)) [
            | inl (out, e) ↦ rw e (
                Ensures-call (update_middleware out) (IsStripCall.updates shown owned e)
                  (λ _ _. done tt) (λ _ _. tt))
            | inr (e, refused) ↦ rw refused (done tt)
          ])

    read_strip-Ensures :
        (r : Result Middleware)
        → Obs (get_middleware (key_of name)) r
        → Ensures Obs
            (IsStripCall name prefix)
            (λ _. Unit)
            (read_strip libraries inst labels name prefix r)
    read_strip-Ensures (err e) shown =
        Ensures-if (libraries.is_no_match e) (λ _. done tt) (λ _. missing_strip-Ensures e shown)
    read_strip-Ensures (ok old) shown =
        Ensures-if (not (owns_llm_resource inst old.meta)) (λ _. done tt)
          (λ owned.
            update_strip-Ensures old (libraries.nested_prefixes old) shown (true_of_not _ owned))

  pub reconcile_strip_middleware-Ensures :
      (service prefix : String)
      → Ensures Obs
          (IsStripCall (strip_middleware_name service) prefix)
          (λ _. Unit)
          (reconcile_strip_middleware libraries inst labels service prefix)
  unfolding reconcile_strip_middleware
  reconcile_strip_middleware-Ensures service prefix =
      Ensures-try _ IsStripCall.reads
        (λ r shown. read_strip-Ensures (strip_middleware_name service) prefix r shown)
