-- ===== src/Hosted/Middlewares/Authenticated.antt =====
-- What `reconcileAuthMiddleware` writes: only the instance's own middleware, with the settings
-- that the authentication depends on.
use showroom_msp_private_llm.Prelude.{
  String, ◌≡◌, Bool, true, false, not, ◌&&◌, ◌==◌, true_of_not, inl, inr,
}
use showroom_msp_private_llm.Prelude.Dict.{Dict}
use showroom_msp_private_llm.Kube.{LlmInstance}
use showroom_msp_private_llm.Kube.Workloads.{Settings, Middleware}
use showroom_msp_private_llm.Api.{
  Error, not_found, conflict, already_exists, rejection, failure, tls_not_ready, join, Result, ok,
  err, Result-cases, Key, Call, Answer, get_middleware, create_middleware, update_middleware, ◌>>=◌,
}
use showroom_msp_private_llm.Api.Ensures.{Ensures, done, Ensures-call, Ensures-try, Ensures-if}
use showroom_msp_private_llm.Slug.Ownership.{owns_llm_resource}
use showroom_msp_private_llm.Hosted.Backend.{backend_key}
use showroom_msp_private_llm.Hosted.Middlewares.{
  MiddlewareLibraries, auth_middleware_name, desired_settings, empty_middleware, write_auth,
  ensure_auth, create_auth, missing_auth, read_auth, auth_address, reconcile_auth_middleware,
}

module _ (Obs : (c : Call) → Result (Answer c) → Type 0) (libraries : MiddlewareLibraries)
    (inst : LlmInstance) (labels : Dict) where
  abbrev pub key_of : String → Key
  key_of name = backend_key inst name

  -- The calls of `reconcileAuthMiddleware`, for the address that the middleware shall ask.
  pub data IsAuthCall (name address : String) (create_if_missing : Bool) : Call → Type 0 where
    reads : IsAuthCall name address create_if_missing (get_middleware (key_of name))
    updates :
        {old out : Middleware} {current : Settings}
        → Obs (get_middleware (key_of name)) (ok old)
        → owns_llm_resource inst old.meta ≡ true
        → libraries.nested_settings old ≡ ok current
        → libraries.set_nested_settings (desired_settings address current) old ≡ ok out
        → IsAuthCall name address create_if_missing (update_middleware out)
    creates :
        {draft out : Middleware} {current : Settings}
        → Obs (get_middleware (key_of name)) (err not_found)
        → create_if_missing ≡ true
        → libraries.own_middleware inst (empty_middleware inst labels name) ≡ ok draft
        → libraries.nested_settings draft ≡ ok current
        → libraries.set_nested_settings (desired_settings address current) draft ≡ ok out
        → IsAuthCall name address create_if_missing (create_middleware out)

  module _ (name address : String) (create_if_missing : Bool) where
    -- The write behind the owner's check, for either way to come by the middleware.
    ensure_auth-Ensures :
        (creating : Bool) (mw : Middleware)
        → ((out : Middleware) (current : Settings)
            → libraries.nested_settings mw ≡ ok current
            → libraries.set_nested_settings (desired_settings address current) mw ≡ ok out
            → IsAuthCall name address create_if_missing
                (elim creating [ true ↦ create_middleware out | false ↦ update_middleware out ]))
        → Ensures Obs
            (IsAuthCall name address create_if_missing)
            (λ _. Unit)
            (ensure_auth libraries creating address mw)
    ensure_auth-Ensures creating mw allowed = elim (Result-cases (libraries.nested_settings mw)) [
      | inr (e, malformed) ↦ rw (ensure_auth, malformed) (done tt)
      | inl (current, e) ↦
          rw (ensure_auth, e)
            (Ensures-if
              (not creating && libraries.same_settings current (desired_settings address current))
              (λ _. done tt)
              (λ _.
                elim (Result-cases
                  (libraries.set_nested_settings (desired_settings address current) mw)) [
                    | inr (f, malformed) ↦ rw malformed (done tt)
                    | inl (out, f) ↦ rw f (write-Ensures creating out (allowed out current e f))
                  ]))
    ]
      where
        write-Ensures :
            (creating : Bool) (out : Middleware)
            → IsAuthCall name address create_if_missing
                (elim creating [ true ↦ create_middleware out | false ↦ update_middleware out ])
            → Ensures Obs
                (IsAuthCall name address create_if_missing)
                (λ _. Unit)
                (write_auth libraries creating out)
        write-Ensures true out h =
            Ensures-call (create_middleware out) h (λ _ _. done tt) (λ _ _. tt)
        write-Ensures false out h =
            Ensures-call (update_middleware out) h (λ _ _. done tt) (λ _ _. tt)

    create_auth-Ensures :
        Obs (get_middleware (key_of name)) (err not_found)
        → Ensures Obs
            (IsAuthCall name address create_if_missing)
            (λ _. Unit)
            (create_auth libraries inst labels name address create_if_missing)
    unfolding ◌>>=◌
    create_auth-Ensures missing =
        Ensures-if (not create_if_missing) (λ _. done tt)
          (λ wanted.
            elim (Result-cases
              (libraries.own_middleware inst (empty_middleware inst labels name))) [
                | inl (draft, e) ↦ rw e (
                    ensure_auth-Ensures true draft
                      (λ out current f g. IsAuthCall.creates missing (true_of_not _ wanted) e f g))
                | inr (e, refused) ↦ rw refused (done tt)
              ])

    missing_auth-Ensures :
        (e : Error)
        → Obs (get_middleware (key_of name)) (err e)
        → Ensures Obs
            (IsAuthCall name address create_if_missing)
            (λ _. Unit)
            (missing_auth libraries inst labels name address create_if_missing e)
    missing_auth-Ensures not_found shown = create_auth-Ensures shown
    missing_auth-Ensures conflict shown = done tt
    missing_auth-Ensures already_exists shown = done tt
    missing_auth-Ensures (rejection _) shown = done tt
    missing_auth-Ensures (failure _) shown = done tt
    missing_auth-Ensures (tls_not_ready _) shown = done tt
    missing_auth-Ensures (join _ _) shown = done tt

    read_auth-Ensures :
        (r : Result Middleware)
        → Obs (get_middleware (key_of name)) r
        → Ensures Obs
            (IsAuthCall name address create_if_missing)
            (λ _. Unit)
            (read_auth libraries inst labels name address create_if_missing r)
    read_auth-Ensures (err e) shown =
        Ensures-if (libraries.is_no_match e) (λ _. done tt) (λ _. missing_auth-Ensures e shown)
    read_auth-Ensures (ok old) shown =
        Ensures-if (not (owns_llm_resource inst old.meta)) (λ _. done tt)
          (λ owned.
            ensure_auth-Ensures false old
              (λ out current f g. IsAuthCall.updates shown (true_of_not _ owned) f g))

  pub reconcile_auth_middleware-Ensures :
      (url service slug : String) (create_if_missing : Bool)
      → Ensures Obs
          (IsAuthCall
            (auth_middleware_name service)
            (auth_address libraries url inst slug)
            create_if_missing)
          (λ _. Unit)
          (reconcile_auth_middleware libraries url inst labels service slug create_if_missing)
  unfolding reconcile_auth_middleware
  reconcile_auth_middleware-Ensures url service slug create_if_missing =
      Ensures-if (inst.meta.uid == "") (λ _. done tt)
        (λ _. Ensures-try _ IsAuthCall.reads (λ r shown.
          read_auth-Ensures (auth_middleware_name service) (auth_address libraries url inst slug)
            create_if_missing r shown))
