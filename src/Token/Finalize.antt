-- ===== src/Token/Finalize.antt =====
-- `finalizeTokenRequest`: the deletion of a request's Secrets and the removal of its finalizer.
pub mod Deletes
use showroom_msp_private_llm.Prelude.{
  ℕ, zero, suc, String, Bool, true, false, List, [], ◌∷◌, ◌||◌, ◌&&◌, not, ◌==◌, if◌then◌else◌,
}
use showroom_msp_private_llm.Kube.{ApiTokenRequest, Secret}
use showroom_msp_private_llm.Api.{
  not_found, conflict, Error, Result, ok, err, cached, Key, Api, pure, throw, ◌>>=◌, ◌>>◌, request,
  attempt, get_request, list_secrets, delete_secret, update_request,
}
use showroom_msp_private_llm.Auth.{request_key}
use showroom_msp_private_llm.Token.{finalizer, TokenLibraries, owns_token_secret}

-- The loop over the listed Secrets. A failed deletion is logged only.
unfoldable pub delete_secrets : ApiTokenRequest → List Secret → Api (Unit {0})
delete_secrets tr [] = pure tt
delete_secrets tr (sec ∷ rest) =
    if not (owns_token_secret tr sec)
    then delete_secrets tr rest
    else do _ ← attempt (request (delete_secret sec)); delete_secrets tr rest

abbrev delete_listed : ApiTokenRequest → Result (List Secret) → Api (Unit {0})
delete_listed tr (err _) = pure tt
delete_listed tr (ok secrets) = delete_secrets tr secrets

abbrev pub key_of_request : ApiTokenRequest → Key
key_of_request tr = record { namespace = tr.meta.namespace; name = tr.meta.name }

-- What a round does behind its update; `again` is the next round, from the object read.
abbrev after_read : (ApiTokenRequest → Api (Unit {0})) → Result ApiTokenRequest → Api (Unit {0})
after_read again (err _) = pure tt
after_read again (ok fresh) = again fresh

abbrev after_update :
    Key → (ApiTokenRequest → Api (Unit {0})) → Result ApiTokenRequest → Api (Unit {0})
after_update key again (ok _) = pure tt
after_update key again (err not_found) = pure tt
after_update key again (err conflict) = do
  found ← attempt (request (get_request cached key))
  after_read again found
after_update key again (err e) = throw e

module _ (libraries : TokenLibraries) where
  abbrev without_finalizer : ApiTokenRequest → ApiTokenRequest
  without_finalizer tr = record tr {
    meta = record (tr.meta) {
      finalizers = libraries.remove_finalizer tr.meta.finalizers finalizer;
    };
  }

  -- The loop that removes the finalizer, with the number of rounds left.
  unfoldable pub release : Key → ℕ → ApiTokenRequest → Api (Unit {0})
  release key zero tr = pure tt
  release key (suc rounds) tr = do
    updated ← attempt (request (update_request (without_finalizer tr)))
    after_update key (λ fresh. release key rounds fresh) updated

  -- `finalizeTokenRequest`
  unfoldable pub finalize_token_request : ApiTokenRequest → Api (Unit {0})
  finalize_token_request tr =
      if not (libraries.contains_finalizer tr.meta.finalizers finalizer) then pure tt else do
        listed ← attempt (request (list_secrets cached tr.meta.namespace request_key tr.meta.name))
        delete_listed tr listed >> release (key_of_request tr) 3 tr
