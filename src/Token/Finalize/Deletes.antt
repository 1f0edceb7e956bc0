-- ===== src/Token/Finalize/Deletes.antt =====
-- `finalizeTokenRequest` deletes only Secrets that the request controls.
use showroom_msp_private_llm.Prelude.{
  ℕ, zero, suc, ◌≡◌, refl, true, not, List, [], ◌∷◌, Memᴰ, true_of_not,
}
use showroom_msp_private_llm.Kube.{ApiTokenRequest, Secret}
use showroom_msp_private_llm.Api.{
  not_found, conflict, already_exists, rejection, failure, tls_not_ready, join, Result, ok, err,
  cached, Call, Answer, Api, get_request, list_secrets, delete_secret, update_request,
}
use showroom_msp_private_llm.Api.Ensures.{Ensures, done, Ensures-bind, Ensures-try, Ensures-if}
use showroom_msp_private_llm.Auth.{request_key}
use showroom_msp_private_llm.Token.{finalizer, TokenLibraries, owns_token_secret}
use showroom_msp_private_llm.Token.Finalize.{
  delete_secrets, delete_listed, without_finalizer, after_read, after_update, release,
  key_of_request, finalize_token_request,
}

module _ (Obs : (c : Call) → Result (Answer c) → Type 0) (libraries : TokenLibraries)
    (tr : ApiTokenRequest) where
  abbrev pub candidates : Call
  candidates = list_secrets cached tr.meta.namespace request_key tr.meta.name

  -- The calls of `finalizeTokenRequest`: a Secret that is deleted was listed under the request's
  -- label and is controlled by the request; an update only takes the finalizer off the request as
  -- it was given or as it was read again.
  pub data IsFinalizeCall : Call → Type 0 where
    lists : IsFinalizeCall candidates
    deletes :
        {sec : Secret} {listed : List Secret}
        → Obs candidates (ok listed)
        → Memᴰ sec listed
        → owns_token_secret tr sec ≡ true
        → IsFinalizeCall (delete_secret sec)
    releases : IsFinalizeCall (update_request (without_finalizer libraries tr))
    releases_fresh :
        {fresh : ApiTokenRequest}
        → Obs (get_request cached (key_of_request tr)) (ok fresh)
        → IsFinalizeCall (update_request (without_finalizer libraries fresh))
    reads_again : IsFinalizeCall (get_request cached (key_of_request tr))

  delete_secrets-Ensures :
      (all secrets : List Secret)
      → Obs candidates (ok all)
      → ((sec : Secret) → Memᴰ sec secrets → Memᴰ sec all)
      → Ensures Obs IsFinalizeCall (λ _. Unit) (delete_secrets tr secrets)
  unfolding delete_secrets
  delete_secrets-Ensures all [] shown sub = done tt
  delete_secrets-Ensures all (sec ∷ rest) shown sub =
      let tail = delete_secrets-Ensures all rest shown (λ s m. sub s (Memᴰ.tail m)) in
      Ensures-if (not (owns_token_secret tr sec)) (λ _. tail)
        (λ owned.
          Ensures-try (delete_secret sec)
            (deletes shown (sub sec (Memᴰ.head refl)) (true_of_not _ owned)) (λ _ _. tail))

  delete_listed-Ensures :
      (r : Result (List Secret))
      → Obs candidates r
      → Ensures Obs IsFinalizeCall (λ _. Unit) (delete_listed tr r)
  delete_listed-Ensures (err e) shown = done tt
  delete_listed-Ensures (ok secrets) shown = delete_secrets-Ensures secrets secrets shown (λ _ m. m)

  module _ (again : ApiTokenRequest → Api (Unit {0}))
      (next : (t : ApiTokenRequest)
        → IsFinalizeCall (update_request (without_finalizer libraries t))
        → Ensures Obs IsFinalizeCall (λ _. Unit) (again t)) where
    after_read-Ensures :
        (r : Result ApiTokenRequest)
        → Obs (get_request cached (key_of_request tr)) r
        → Ensures Obs IsFinalizeCall (λ _. Unit) (after_read again r)
    after_read-Ensures (err e) shown = done tt
    after_read-Ensures (ok fresh) shown = next fresh (releases_fresh shown)

    after_update-Ensures :
        (r : Result ApiTokenRequest)
        → Ensures Obs IsFinalizeCall (λ _. Unit) (after_update (key_of_request tr) again r)
    after_update-Ensures (ok _) = done tt
    after_update-Ensures (err not_found) = done tt
    after_update-Ensures (err conflict) =
        Ensures-try (get_request cached (key_of_request tr)) reads_again after_read-Ensures
    after_update-Ensures (err already_exists) = done tt
    after_update-Ensures (err (rejection _)) = done tt
    after_update-Ensures (err (failure _)) = done tt
    after_update-Ensures (err (tls_not_ready _)) = done tt
    after_update-Ensures (err (join _ _)) = done tt

  release-Ensures :
      (rounds : ℕ) (t : ApiTokenRequest)
      → IsFinalizeCall (update_request (without_finalizer libraries t))
      → Ensures Obs IsFinalizeCall (λ _. Unit) (release libraries (key_of_request tr) rounds t)
  unfolding release
  release-Ensures zero t h = done tt
  release-Ensures (suc rounds) t h =
      Ensures-try (update_request (without_finalizer libraries t)) h (λ r _.
        after_update-Ensures (λ fresh. release libraries (key_of_request tr) rounds fresh)
          (λ fresh f. release-Ensures rounds fresh f) r)

  pub finalize-Ensures :
      Ensures Obs IsFinalizeCall (λ _. Unit) (finalize_token_request libraries tr)
  unfolding finalize_token_request
  finalize-Ensures =
      Ensures-if (not (libraries.contains_finalizer tr.meta.finalizers finalizer)) (λ _. done tt)
        (λ _. Ensures-try candidates lists (λ r shown.
          Ensures-bind (delete_listed-Ensures r shown) (λ _ _. release-Ensures 3 tr releases)
            (λ _ _. tt)))
