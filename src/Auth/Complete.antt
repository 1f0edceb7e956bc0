-- ===== src/Auth/Complete.antt =====
-- Exactly which tokens are accepted while the cluster's state stands still.
use showroom_msp_private_llm.Prelude.{
  String, ◌≡◌, refl, ◌∙◌, Bool, true, false, Option, none, some, List, [], ◌∷◌, Memᴰ, ◌==◌, ◌↔◌,
  ◌⊎◌, eq_iff, Bool-cases, inl, inr, if◌then◌else◌,
}
use showroom_msp_private_llm.Prelude.Dict.{get}
use showroom_msp_private_llm.Kube.{OwnerRef, LlmInstance, ApiTokenRequest, Secret}
use showroom_msp_private_llm.Api.{
  Result, ok, err, Call, Answer, get_request, live, Key, not_found, Api, pure,
}
use showroom_msp_private_llm.Api.Settled.{value, value-bind_ok, value-try, value-call, value_sound}
use showroom_msp_private_llm.Slug.Policy.{Libraries, Policy}
use showroom_msp_private_llm.Auth.{
  Binding, names_instance, is_request_owner, holds_secret, request_of, judge_owner, check_owner,
  owns_token, any_owned, secrets_of, authorize,
}
use showroom_msp_private_llm.Auth.Granted.{IsOwnedToken, IsGranted, authorize-Ensures}

module _ (reply : (c : Call) → Result (Answer c)) where
  -- A lookup of a token request finds it or finds that it is gone.
  abbrev pub FindsRequests : Type 0
  FindsRequests =
      (k : Key)
      → ((tr : ApiTokenRequest) × (reply (get_request live k) ≡ ok tr))
        ⊎ (reply (get_request live k) ≡ err not_found)

  abbrev Shown : (c : Call) → Result (Answer c) → Type 0
  Shown c r = reply c ≡ r

  owns_token-total :
      (inst : LlmInstance) (sec : Secret)
      → FindsRequests
      → (b : Bool) × (value reply (owns_token inst sec) ≡ ok b)
  unfolding owns_token
  owns_token-total inst sec finds = elim (Bool-cases (names_instance inst sec)) [
    | inl named ↦ rw named (check sec.meta.controller)
    | inr other ↦ rw other (false, unfold value in refl)
  ]
    where
      judged :
          (owner : OwnerRef) (r : Result ApiTokenRequest)
          → ((tr : ApiTokenRequest) × (r ≡ ok tr)) ⊎ (r ≡ err not_found)
          → (b : Bool) × (value reply (judge_owner inst sec owner r) ≡ ok b)
      judged owner r (inl (tr, e)) = rw e (holds_secret inst sec owner tr, unfold value in refl)
      judged owner r (inr e) = rw e (false, unfold value in refl)

      check : (o : Option OwnerRef) → (b : Bool) × (value reply (check_owner inst sec o) ≡ ok b)
      check none = (false, unfold value in refl)
      check (some owner) = elim (Bool-cases (is_request_owner owner)) [
        | inl by_request ↦
            rw by_request (rw value-try (judged owner (reply (request_of inst owner)) (finds _)))
        | inr by_other ↦ rw by_other (false, unfold value in refl)
      ]

  owns_token_complete :
      (inst : LlmInstance) (sec : Secret)
      → IsOwnedToken Shown inst sec
      → value reply (owns_token inst sec) ≡ ok true
  unfolding owns_token
  owns_token_complete inst sec o =
      rw (o.named, o.controlled)
        (rw o.by_request (rw value-try (rw o.shown (rw o.held (unfold value in refl)))))

  either :
      (b : Bool) (rest : Api Bool)
      → value reply rest ≡ ok true
      → value reply (if b then pure true else rest) ≡ ok true
  unfolding value
  either true rest h = refl
  either false rest h = h

  any_owned_complete :
      (inst : LlmInstance) (token : String) (secrets : List Secret) (sec : Secret)
      → FindsRequests
      → Memᴰ sec secrets
      → get sec.content "OPENAI_API_KEY" ≡ token
      → IsOwnedToken Shown inst sec
      → value reply (any_owned inst token secrets) ≡ ok true
  unfolding any_owned
  any_owned_complete inst token [] sec finds m k o = elim m [ ]
  any_owned_complete inst token (s ∷ secrets) sec finds (Memᴰ.head e) k o =
      let same : (get s.content "OPENAI_API_KEY" == token) ≡ true = (eq_iff _ _).1 (rw (← e) k) in
      rw same (
        value-bind_ok reply (owns_token inst s) _ true (owns_token_complete inst s (rw e at o))
        ∙ (unfold value in refl))
  any_owned_complete inst token (s ∷ secrets) sec finds (Memᴰ.tail m) k o =
      elim (Bool-cases (get s.content "OPENAI_API_KEY" == token)) [
        | inl same ↦
            let (b, total) = owns_token-total inst s finds in
            rw same (
              value-bind_ok reply (owns_token inst s) _ b total
              ∙ either b _ (any_owned_complete inst token secrets sec finds m k o))
        | inr other ↦ rw other (any_owned_complete inst token secrets sec finds m k o)
      ]

  authorize_complete :
      (libraries : Libraries) (policy : Option Policy) (binding : Binding) (token : String)
      → FindsRequests
      → IsGranted libraries policy Shown binding token
      → value reply (authorize libraries policy binding token) ≡ ok true
  unfolding authorize
  authorize_complete libraries policy binding token finds g = rw value-try (
      rw g.instance_shown (
        rw g.selected (
          rw g.hosted (
            value-call reply (secrets_of g.inst binding) (any_owned g.inst token) g.secrets
              g.secrets_shown
            ∙ any_owned_complete g.inst token g.secrets g.sec finds g.listed g.key g.owned))))

  -- While the cluster's state stands still and no lookup of a token request fails, `authorize`
  -- answers true exactly if the binding's instance is hosted, is not being deleted, has the bound
  -- UID and the slug that the policy selects, and one of the Secrets listed for that slug has the
  -- token and belongs to a live token request for the instance.
  pub authorize_iff :
      (libraries : Libraries) (policy : Option Policy) (binding : Binding) (token : String)
      → FindsRequests
      → (value reply (authorize libraries policy binding token) ≡ ok true)
        ↔ IsGranted libraries policy Shown binding token
  authorize_iff libraries policy binding token finds = (
    value_sound reply (authorize libraries policy binding token)
        (authorize-Ensures libraries policy Shown binding token),
    authorize_complete libraries policy binding token finds,
  )
