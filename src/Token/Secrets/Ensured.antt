-- ===== src/Token/Secrets/Ensured.antt =====
-- What `ensureSecret` may write, whatever the API server answers.
use showroom_msp_private_llm.Prelude.{
  String, ◌≡◌, ◌≢◌, refl, sym, ◌∙◌, Bool, true, not, ◌||◌, ◌==◌, inl, inr, Bool-cases, ==_of_ne,
  eq_of_==, true_of_not,
}
use showroom_msp_private_llm.Prelude.Dict.{Dict, lookup, get, get-insert_self, get-insert_ne}
use showroom_msp_private_llm.Kube.{LlmInstance, ApiTokenRequest, Secret}
use showroom_msp_private_llm.Api.{
  not_found, conflict, already_exists, rejection, failure, tls_not_ready, join, Result, ok, err,
  Call, Answer, ◌>>=◌, request, get_secret, create_secret, update_secret, Result-cases,
}
use showroom_msp_private_llm.Api.Ensures.{
  Ensures, done, Ensures-bind, Ensures-call, Ensures-try, Ensures-if, Ensures-calls,
  Ensures-request,
}
use showroom_msp_private_llm.Auth.{
  slug_key, instance_key, credential_instance_key, credential_target_key,
}
use showroom_msp_private_llm.Token.{TokenLibraries, owns_token_secret}
use showroom_msp_private_llm.Token.Rotation.{targets_byoc}
use showroom_msp_private_llm.Token.Rotation.Bound.{
  expected_target, is_established, IsFresh, IsRotated, rotate_token-Ensures, generate_token-Ensures,
}
use showroom_msp_private_llm.Token.Secrets.{
  apply_secret_mutations, create_token_secret, ensure_secret, publish, submit, new_secret,
  first_marks, bind_remote, new_labels, use_secret,
}
use showroom_msp_private_llm.Token.Secrets.Guarded.{
  IsEnsureCall, secret_key, served, IsTouch-Ensures, IsTouched, IfTouched, reads_secret, draws,
  touches, updates, creates,
}

new_labels_slug :
    (tr : ApiTokenRequest) (inst : LlmInstance) (slug : String)
    → slug ≢ ""
    → get (new_labels tr inst slug) slug_key ≡ slug
new_labels_slug tr inst slug h = rw (==_of_ne slug "" h) (get-insert_self slug_key slug _)

new_labels_instance :
    (tr : ApiTokenRequest) (inst : LlmInstance) (slug : String)
    → get (new_labels tr inst slug) instance_key ≡ inst.meta.name
unfolding get lookup
new_labels_instance tr inst slug = elim (Bool-cases (slug == "")) [
  | inl e ↦ rw e refl
  | inr e ↦ rw e (get-insert_ne slug_key instance_key slug _ refl)
]

module _ (libraries : TokenLibraries) (tr : ApiTokenRequest) (inst : LlmInstance) where
  first_marks_instance : get (first_marks libraries tr inst) credential_instance_key ≡ inst.meta.uid
  unfolding get lookup
  first_marks_instance = elim (Bool-cases (inst.meta.uid == "")) [
    | inl e ↦ rw e (sym (eq_of_== inst.meta.uid "" e))
    | inr e ↦ rw e (get-insert_self credential_instance_key inst.meta.uid _)
  ]

  first_marks_target : get (first_marks libraries tr inst) credential_target_key ≡ ""
  unfolding get lookup
  first_marks_target = elim (Bool-cases (inst.meta.uid == "")) [
    | inl e ↦ rw e refl
    | inr e ↦
        rw e (get-insert_ne credential_instance_key credential_target_key inst.meta.uid _ refl)
  ]

module _ (Obs : (c : Call) → Result (Answer c) → Type 0) (libraries : TokenLibraries)
    (tr : ApiTokenRequest) (inst : LlmInstance) (name slug endpoint : String) where
  abbrev P : Call → Type 0
  P = IsEnsureCall Obs libraries tr inst name slug endpoint

  submit-Ensures :
      (annotations : Dict) (token : String)
      → Obs (get_secret (secret_key Obs tr name)) (err not_found)
      → IsFresh Obs token
      → get annotations credential_target_key ≡ expected_target inst
      → get annotations credential_instance_key ≡ inst.meta.uid
      → Ensures Obs P
          (λ _. Unit)
          (submit libraries tr (new_secret tr inst name slug endpoint annotations token))
  unfolding ◌>>=◌ request get lookup
  submit-Ensures annotations token missing fresh t i =
      let draft = new_secret tr inst name slug endpoint annotations token in
      elim (Result-cases (libraries.set_controller_reference tr draft)) [
        | inl (out, e) ↦ rw e (
            Ensures-call (create_secret out)
              (creates missing (record {
                draft = draft;
                controlled = e;
                fresh = fresh;
                url = refl;
                instance_label = new_labels_instance tr inst slug;
                slug_label = new_labels_slug tr inst slug;
                target = t;
                instance_uid = i;
              }))
              (λ _ _. done tt) (λ _ _. tt))
        | inr (e, refused) ↦ rw refused (done tt)
      ]

  create-Ensures :
      Obs (get_secret (secret_key Obs tr name)) (err not_found)
      → Ensures Obs P (λ _. Unit) (create_token_secret libraries tr inst name slug endpoint)
  unfolding create_token_secret
  create-Ensures missing =
      Ensures-bind (Ensures-calls (λ c h. draws h) (generate_token-Ensures Obs))
        (λ token fresh. elim (Bool-cases (targets_byoc inst)) [
          | inl byoc ↦ rw byoc (
              Ensures-if (inst.status.active_byoc_target_id == "" || inst.meta.uid == "")
                (λ _. done tt)
                (λ _.
                  submit-Ensures (bind_remote inst (first_marks libraries tr inst)) token missing
                    fresh
                    (get-insert_ne credential_instance_key credential_target_key _ _ refl
                      ∙ get-insert_self credential_target_key _ _
                      ∙ (rw byoc refl))
                    (get-insert_self credential_instance_key _ _)))
          | inr hosted ↦ rw hosted (
              submit-Ensures (first_marks libraries tr inst) token missing fresh
                (first_marks_target libraries tr inst ∙ (rw hosted refl))
                (first_marks_instance libraries tr inst))
        ])
        (λ _ _. tt)

  publish-Ensures :
      (sec : Secret) (rotation : Secret × Bool)
      → Obs (get_secret (secret_key Obs tr name)) (ok sec)
      → owns_token_secret tr sec ≡ true
      → is_established inst true ≡ true
      → IsRotated Obs sec inst true slug rotation
      → Ensures Obs P (IfTouched Obs tr) (publish tr inst slug endpoint rotation)
  publish-Ensures sec rotation shown owned h r =
      let out = apply_secret_mutations rotation.0 inst.meta.name slug endpoint in
      Ensures-bind {S = λ _. Unit}
        (Ensures-if (out.1 || rotation.1)
          (λ _.
            Ensures-request (update_secret out.0) (updates shown owned (served Obs owned h r))
              (λ _ _. tt))
          (λ _. done tt))
        (λ stored _.
          Ensures-calls (λ c h. touches h) (IsTouch-Ensures Obs tr stored.meta.resource_version))
        (λ _ _. tt)

  use_secret-Ensures :
      (r : Result Secret)
      → Obs (get_secret (secret_key Obs tr name)) r
      → is_established inst true ≡ true
      → Ensures Obs P (IfTouched Obs tr) (use_secret libraries tr inst name slug endpoint r)
  use_secret-Ensures (err not_found) shown h =
      Ensures-bind (create-Ensures shown) (λ _ _. done IsTouched.unchanged) (λ _ _. tt)
  use_secret-Ensures (err conflict) shown h = done tt
  use_secret-Ensures (err already_exists) shown h = done tt
  use_secret-Ensures (err (rejection _)) shown h = done tt
  use_secret-Ensures (err (failure _)) shown h = done tt
  use_secret-Ensures (err (tls_not_ready _)) shown h = done tt
  use_secret-Ensures (err (join _ _)) shown h = done tt
  use_secret-Ensures (ok sec) shown h =
      Ensures-if (not (owns_token_secret tr sec)) (λ _. done tt)
        (λ owned.
          Ensures-bind
            (Ensures-calls (λ c h. draws h) (rotate_token-Ensures Obs sec inst true slug))
            (λ rotation r. publish-Ensures sec rotation shown (true_of_not _ owned) h r)
            (λ _ _. tt))

  pub ensure_secret-Ensures :
      is_established inst true ≡ true
      → Ensures Obs P (IfTouched Obs tr) (ensure_secret libraries tr inst name slug endpoint)
  unfolding ensure_secret
  ensure_secret-Ensures h =
      Ensures-try (get_secret (secret_key Obs tr name)) reads_secret
        (λ r shown. use_secret-Ensures r shown h)
