-- ===== src/Token/Secrets/Invalidated.antt =====
-- What `invalidateTokenEndpoint` may write, whatever the API server answers.
use showroom_msp_private_llm.Prelude.{
  Bool-cases, inl, inr, sym, true≢false, ◌==◌, ◌≡◌, refl, ◌∙◌, Bool, true, false, not, Option, none,
  some, true_of_not,
}
use showroom_msp_private_llm.Prelude.Dict.{get}
use showroom_msp_private_llm.Kube.{LlmInstance, ApiTokenRequest, Secret}
use showroom_msp_private_llm.Api.{
  not_found, conflict, already_exists, rejection, failure, tls_not_ready, join, Result, ok, err,
  Call, Answer, get_secret, update_secret, pure,
}
use showroom_msp_private_llm.Api.Ensures.{
  Ensures, done, Ensures-mono, Ensures-bind, Ensures-try, Ensures-if, Ensures-calls,
  Ensures-request,
}
use showroom_msp_private_llm.Auth.{instance_key}
use showroom_msp_private_llm.Token.{
  owns_token_secret, token_secret_key, unavailable_key, unavailable_url,
}
use showroom_msp_private_llm.Token.Rotation.{targets_byoc, rotate_token_for_target}
use showroom_msp_private_llm.Token.Rotation.Bound.{
  target_of, instance_of, key_of, expected_target, is_established, IsRandomRead, Rotates,
  rotate_token-Ensures,
}
use showroom_msp_private_llm.Token.Secrets.{
  is_pending_byoc, store_changed, withdraw, withdraw_from, invalidate_token_endpoint,
}
use showroom_msp_private_llm.Token.Secrets.Published.{url_of, label_of, IsSameSecret}
use showroom_msp_private_llm.Token.Secrets.Withdrawn.{withdraw-IsWithdrawn}
use showroom_msp_private_llm.Token.Secrets.Guarded.{
  SameOwner, owns_token_secret-same, rotated_same, rotated_bound, rotated_key, IsSafeKey, IsTouch,
  IsTouch-Ensures, IsTouched,
}

module _ (Obs : (c : Call) → Result (Answer c) → Type 0) (tr : ApiTokenRequest)
    (inst : Option LlmInstance) where
  -- There is no instance, or none with an established remote target.
  abbrev pub HasNoTarget : Type 0
  HasNoTarget = (i : LlmInstance) → inst ≡ some i → is_established i false ≡ false

  -- A Secret that `invalidateTokenEndpoint` hands to an update: the request controls what was read
  -- and what is written; no endpoint is left; for an instance with an established remote target
  -- the key is bound to it and the label names it; otherwise key, bindings, owner and the request's
  -- label are as read.
  pub record IsLeft (sec out : Secret) : Type 0 where
    pub owned : owns_token_secret tr out ≡ true
    pub url : url_of out ≡ unavailable_url
    pub marked : get out.meta.annotations unavailable_key ≡ "true"
    pub bound :
        (i : LlmInstance)
        → inst ≡ some i
        → is_established i false ≡ true
        → (target_of out ≡ expected_target i)
          × (instance_of out ≡ i.meta.uid)
          × IsSafeKey Obs sec i "" (key_of out)
    pub kept : HasNoTarget → IsSameSecret out sec
    pub relabelled :
        (i : LlmInstance)
        → inst ≡ some i
        → is_pending_byoc i ≡ true
        → label_of instance_key out ≡ i.meta.name

  -- What the rotation leaves, of which the withdrawal is made.
  record IsTurned (sec : Secret) (out : Secret × Bool) : Type 0 where
    same : SameOwner out.0 sec
    bound :
        (i : LlmInstance)
        → inst ≡ some i
        → is_established i false ≡ true
        → (target_of out.0 ≡ expected_target i)
          × (instance_of out.0 ≡ i.meta.uid)
          × IsSafeKey Obs sec i "" (key_of out.0)
    kept : HasNoTarget → out.0 ≡ sec

  abbrev Turns : Secret → Result (Secret × Bool) → Type 0
  Turns sec (err e) = Unit
  Turns sec (ok out) = IsTurned sec out

  left :
      {sec : Secret} {out : Secret × Bool}
      → owns_token_secret tr sec ≡ true
      → IsTurned sec out
      → IsLeft sec (withdraw inst out).0
  left {sec} {out} owned t =
      let w = withdraw-IsWithdrawn inst out.0 out.1 in
      let (type, namespace, controller) = t.same in
      record {
        owned =
            owns_token_secret-same tr _ sec
              (w.same.type ∙ type, w.same.namespace ∙ namespace, w.same.controller ∙ controller)
              owned;
        url = w.url;
        marked = w.marked;
        bound = λ i e h.
            let (target, uid, key) = t.bound i e h in
            (w.same.target ∙ target, w.same.instance_uid ∙ uid, rw w.same.key key);
        kept = λ h. rw (← (t.kept h)) w.same;
        relabelled = w.relabelled;
      }

  -- The calls of `invalidateTokenEndpoint`.
  pub data IsInvalidateCall : Call → Type 0 where
    reads_secret : IsInvalidateCall (get_secret (token_secret_key tr))
    draws : {c : Call} → IsRandomRead Obs c → IsInvalidateCall c
    touches : {c : Call} → IsTouch Obs tr c → IsInvalidateCall c
    withdraws :
        {sec out : Secret}
        → Obs (get_secret (token_secret_key tr)) (ok sec)
        → owns_token_secret tr sec ≡ true
        → IsLeft sec out
        → IsInvalidateCall (update_secret out)

module _ (Obs : (c : Call) → Result (Answer c) → Type 0) (tr : ApiTokenRequest) where
  -- The request as `invalidateTokenEndpoint` leaves it, but for its status.
  pub record IsRequestLeft (u : ApiTokenRequest) : Type 0 where
    pub base : ApiTokenRequest
    pub touched : IsTouched Obs tr base
    pub same_meta : u.meta ≡ base.meta
    pub same_spec : u.spec ≡ base.spec

  abbrev pub IfRequestLeft : Result ApiTokenRequest → Type 0
  IfRequestLeft (ok u) = IsRequestLeft u
  IfRequestLeft (err e) = Unit

  -- Without an established target the rotation leaves the Secret.
  rotate_unestablished :
      (i : LlmInstance) (sec : Secret)
      → is_established i false ≡ false
      → rotate_token_for_target sec (some i) false "" ≡ pure (sec, false)
  unfolding rotate_token_for_target
  rotate_unestablished i sec h = elim (Bool-cases (targets_byoc i)) [
    | inl byoc ↦ elim (Bool-cases (i.status.active_byoc_target_id == "")) [
      | inl empty ↦ rw (byoc, empty) refl
      | inr known ↦
          let is_known : is_established i false ≡ true = (rw (byoc, known) refl) in
          absurd (true≢false (sym is_known ∙ h))
    ]
    | inr hosted ↦ rw hosted refl
  ]

  rotate-Ensures :
      (inst : Option LlmInstance) (sec : Secret)
      → Ensures Obs
          (IsInvalidateCall Obs tr inst)
          (Turns Obs tr inst sec)
          (rotate_token_for_target sec inst false "")
  unfolding rotate_token_for_target
  rotate-Ensures none sec =
      done (record { same = (refl, refl, refl); bound = λ i e h. absurd cc; kept = λ _. refl })
  rotate-Ensures (some i) sec = elim (Bool-cases (is_established i false)) [
    | inl turns ↦
        Ensures-calls (λ c h. draws h)
          (Ensures-mono (turned turns)
            (unfold rotate_token_for_target in (rotate_token-Ensures Obs sec i false "")))
    | inr stays ↦ rw (rotate_unestablished i sec stays) (
        done (record {
          same = (refl, refl, refl);
          bound =
              λ j e est. let same : i ≡ j = cc in absurd (true≢false (sym est ∙ rw (← same) stays));
          kept = λ _. refl;
        }))
  ]
    where
      turned :
          is_established i false ≡ true
          → (r : Result (Secret × Bool)) → Rotates Obs sec i false "" r
          → Turns Obs tr (some i) sec r
      turned turns (err e) h = tt
      turned turns (ok out) h = record {
        kept = λ none_turns. absurd (true≢false (sym turns ∙ none_turns i refl));
        same = rotated_same Obs h;
        bound = λ j e est.
            let same : i ≡ j = cc in
            rw (← same) (
              let est' : is_established i false ≡ true = (rw same est) in
              let (target, uid) = rotated_bound Obs h est' in
              (target, uid, rotated_key Obs h est'));
      }

  module _ (inst : Option LlmInstance) where
    finish-Ensures :
        (sec : Secret) (out : Secret × Bool)
        → Obs (get_secret (token_secret_key tr)) (ok sec)
        → owns_token_secret tr sec ≡ true
        → IsTurned Obs tr inst sec out
        → Ensures Obs (IsInvalidateCall Obs tr inst) (λ _. Unit) (store_changed (withdraw inst out))
    finish-Ensures sec out shown owned t =
        Ensures-if (withdraw inst out).1
          (λ _.
            Ensures-request (update_secret (withdraw inst out).0)
              (withdraws shown owned (left Obs tr inst owned t)) (λ _ _. tt))
          (λ _. done tt)

    withdraw_from-Ensures :
        (r : Result Secret)
        → Obs (get_secret (token_secret_key tr)) r
        → Ensures Obs (IsInvalidateCall Obs tr inst) IfRequestLeft (withdraw_from tr inst r)
    withdraw_from-Ensures (err not_found) shown =
        done
          (record { base = tr; touched = IsTouched.unchanged; same_meta = refl; same_spec = refl })
    withdraw_from-Ensures (err conflict) shown = done tt
    withdraw_from-Ensures (err already_exists) shown = done tt
    withdraw_from-Ensures (err (rejection _)) shown = done tt
    withdraw_from-Ensures (err (failure _)) shown = done tt
    withdraw_from-Ensures (err (tls_not_ready _)) shown = done tt
    withdraw_from-Ensures (err (join _ _)) shown = done tt
    withdraw_from-Ensures (ok sec) shown =
        Ensures-if (not (owns_token_secret tr sec)) (λ _. done tt)
          (λ owned.
            Ensures-bind (rotate-Ensures inst sec)
              (λ out t.
                Ensures-bind (finish-Ensures sec out shown (true_of_not _ owned) t)
                  (λ stored _.
                    Ensures-bind
                      (Ensures-calls (λ c h. touches h)
                        (IsTouch-Ensures Obs tr stored.meta.resource_version))
                      (λ left touched. done (record {
                        base = left;
                        touched = touched;
                        same_meta = refl;
                        same_spec = refl;
                      }))
                      (λ _ _. tt))
                  (λ _ _. tt))
              (λ _ _. tt))

    pub invalidate-Ensures :
        Ensures Obs (IsInvalidateCall Obs tr inst) IfRequestLeft (invalidate_token_endpoint tr inst)
    unfolding invalidate_token_endpoint
    invalidate-Ensures =
        Ensures-try (get_secret (token_secret_key tr)) reads_secret
          (λ r shown. withdraw_from-Ensures r shown)
