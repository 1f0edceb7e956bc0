-- ===== src/Auth/Granted.antt =====
-- What stands behind a request that the auth server lets through, in any run against the API.
use showroom_msp_private_llm.Prelude.{
  String, ◌≡◌, refl, ap, true, false, not, Option, none, some, List, [], ◌∷◌, Memᴰ, ◌==◌, arith,
  eq_of_==, true_of_not,
}
use showroom_msp_private_llm.Prelude.Dict.{get}
use showroom_msp_private_llm.Kube.{OwnerRef, LlmInstance, ApiTokenRequest, Secret}
use showroom_msp_private_llm.Api.{
  Result, ok, err, Call, Answer, get_instance, get_request, list_secrets, not_found, live,
}
use showroom_msp_private_llm.Api.Ensures.{
  Ensures, done, Ensures-mono, Ensures-bind, Ensures-call, Ensures-try, Ensures-if,
}
use showroom_msp_private_llm.Slug.Policy.{Libraries, Policy, select}
use showroom_msp_private_llm.Auth.{
  Binding, names_instance, is_request_owner, holds_secret, request_of, judge_owner, check_owner,
  owns_token, any_owned, has_slug, is_hosted, instance_of, secrets_of, admit, authorize,
}

-- The auth server's calls are reads past the manager's cache.
abbrev pub IsLiveRead : Call → Type 0
IsLiveRead (get_instance live _) = Unit
IsLiveRead (get_request live _) = Unit
IsLiveRead (list_secrets live _ _ _) = Unit
IsLiveRead _ = ⊥

module _ (Obs : (c : Call) → Result (Answer c) → Type 0) where
  -- A Secret that belongs to a live token request for the instance, as the API showed them.
  pub record IsOwnedToken (inst : LlmInstance) (sec : Secret) : Type 0 where
    pub named : names_instance inst sec ≡ true
    pub owner : OwnerRef
    pub controlled : sec.meta.controller ≡ some owner
    pub by_request : is_request_owner owner ≡ true
    pub tr : ApiTokenRequest
    pub shown : Obs (request_of inst owner) (ok tr)
    pub held : holds_secret inst sec owner tr ≡ true

  check_owner-Ensures :
      (inst : LlmInstance) (sec : Secret) (o : Option OwnerRef)
      → names_instance inst sec ≡ true
      → sec.meta.controller ≡ o
      → Ensures Obs IsLiveRead (λ r. r ≡ ok true → IsOwnedToken inst sec) (check_owner inst sec o)
  check_owner-Ensures inst sec none named controlled = done (λ e. cc)
  check_owner-Ensures inst sec (some owner) named controlled =
      Ensures-if (not (is_request_owner owner)) (λ _. done (λ e. cc))
        (λ by_request. Ensures-try (request_of inst owner) tt (λ r shown. judge r shown by_request))
    where
      judge :
          (r : Result ApiTokenRequest)
          → Obs (request_of inst owner) r
          → not (is_request_owner owner) ≡ false
          → Ensures Obs IsLiveRead
              (λ r. r ≡ ok true → IsOwnedToken inst sec)
              (judge_owner inst sec owner r)
      judge (ok found) shown by_request = done (λ held. record {
        named = named;
        owner = owner;
        controlled = controlled;
        by_request = ground arith;
        tr = found;
        shown = shown;
        held = ground arith;
      })
      judge (err not_found) shown by_request = done (λ e. cc)
      judge (err e) shown by_request = done (λ e. cc)

  owns_token-Ensures :
      (inst : LlmInstance) (sec : Secret)
      → Ensures Obs IsLiveRead (λ r. r ≡ ok true → IsOwnedToken inst sec) (owns_token inst sec)
  unfolding owns_token
  owns_token-Ensures inst sec =
      Ensures-if (not (names_instance inst sec)) (λ _. done (λ e. cc))
        (λ named. check_owner-Ensures inst sec sec.meta.controller (ground arith) refl)

  -- A Secret among those listed has the token, and belongs to a token request.
  abbrev HasOwned : LlmInstance → String → List Secret → Type 0
  HasOwned inst token secrets =
      (sec : Secret) × Memᴰ sec secrets
      × (get sec.content "OPENAI_API_KEY" ≡ token)
      × IsOwnedToken inst sec

  HasOwned-cons :
      (inst : LlmInstance) (token : String) (sec : Secret) (secrets : List Secret)
      → HasOwned inst token secrets
      → HasOwned inst token (sec ∷ secrets)
  HasOwned-cons inst token sec secrets (s, m, k, o) = (s, Memᴰ.tail m, k, o)

  pub any_owned-Ensures :
      (inst : LlmInstance) (token : String) (secrets : List Secret)
      → Ensures Obs IsLiveRead
          (λ r. r ≡ ok true → HasOwned inst token secrets)
          (any_owned inst token secrets)
  unfolding any_owned
  any_owned-Ensures inst token [] = done (λ e. cc)
  any_owned-Ensures inst token (sec ∷ secrets) =
      let later : Ensures Obs IsLiveRead (λ r. r ≡ ok true → HasOwned inst token (sec ∷ secrets))
          (any_owned inst token secrets) =
        Ensures-mono (λ r f h. HasOwned-cons inst token sec secrets (f h))
          (any_owned-Ensures inst token secrets) in
      Ensures-if (not (get sec.content "OPENAI_API_KEY" == token)) (λ _. later)
        (λ same.
          Ensures-bind (owns_token-Ensures inst sec)
            (λ valid owned.
              Ensures-if valid
                (λ is_true. done (λ _.
                  (sec, Memᴰ.head refl, eq_of_== _ _ (true_of_not _ same), owned (ap ok is_true))))
                (λ _. later))
            (λ e _ h. cc))

module _ (libraries : Libraries) (policy : Option Policy)
    (Obs : (c : Call) → Result (Answer c) → Type 0) where
  -- The evidence for an accepted token.
  pub record IsGranted (binding : Binding) (token : String) : Type 0 where
    pub inst : LlmInstance
    pub instance_shown : Obs (instance_of binding) (ok inst)
    pub selected : has_slug inst binding (select libraries policy inst.meta) ≡ true
    pub hosted : is_hosted inst binding ≡ true
    pub secrets : List Secret
    pub secrets_shown : Obs (secrets_of inst binding) (ok secrets)
    pub sec : Secret
    pub listed : Memᴰ sec secrets
    pub key : get sec.content "OPENAI_API_KEY" ≡ token
    pub owned : IsOwnedToken Obs inst sec

  pub authorize-Ensures :
      (binding : Binding) (token : String)
      → Ensures Obs IsLiveRead
          (λ r. r ≡ ok true → IsGranted binding token)
          (authorize libraries policy binding token)
  unfolding authorize
  authorize-Ensures binding token = Ensures-try (instance_of binding) tt judge
    where
      judge :
          (r : Result LlmInstance)
          → Obs (instance_of binding) r
          → Ensures Obs IsLiveRead
              (λ r. r ≡ ok true → IsGranted binding token)
              (admit libraries policy binding token r)
      judge (err not_found) shown = done (λ e. cc)
      judge (err e) shown = done (λ e. cc)
      judge (ok found) shown =
          Ensures-if (not (has_slug found binding (select libraries policy found.meta)))
            (λ _. done (λ e. cc))
            (λ slug_held.
              Ensures-if (not (is_hosted found binding)) (λ _. done (λ e. cc))
                (λ is_here.
                  Ensures-call (secrets_of found binding) tt
                    (λ all listed.
                      Ensures-mono
                        (λ r f h.
                          let (s, m, k, o) = f h in
                          record {
                            inst = found;
                            instance_shown = shown;
                            selected = ground arith;
                            hosted = ground arith;
                            secrets = all;
                            secrets_shown = listed;
                            sec = s;
                            listed = m;
                            key = k;
                            owned = o;
                          })
                        (any_owned-Ensures Obs found token all))
                    (λ e _ h. cc)))
