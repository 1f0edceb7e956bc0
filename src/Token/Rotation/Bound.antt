-- ===== src/Token/Rotation/Bound.antt =====
-- After a rotation a token Secret is bound to its instance and target, and it keeps its key only if
-- it was bound to them before.
use showroom_msp_private_llm.Prelude.{
  ℕ, String, ◌≡◌, refl, sym, ◌∙◌, Bool, true, false, not, some, List, ◌&&◌, ◌==◌, inl, inr, arith,
  Bool-cases, eq_of_==, and_parts, false_of_not, if◌then◌else◌,
}
use showroom_msp_private_llm.Prelude.Text.{trim_padding}
use showroom_msp_private_llm.Prelude.Dict.{
  get, insert, get-insert_self, get-insert_ne, get-remove_self,
}
use showroom_msp_private_llm.Kube.{LlmInstance, Secret}
use showroom_msp_private_llm.Api.{Result, ok, err, Call, Answer, read_random}
use showroom_msp_private_llm.Api.Ensures.{Ensures, done, Ensures-if, Ensures-call, Ensures-bind}
use showroom_msp_private_llm.Api.Trace.{Seen, run, run_sound}
use showroom_msp_private_llm.Prelude.Lists.{All}
use showroom_msp_private_llm.Auth.{credential_instance_key, credential_target_key}
use showroom_msp_private_llm.Token.{api_key_key}
use showroom_msp_private_llm.Token.Base64.{encode, generate_token}
use showroom_msp_private_llm.Token.Rotation.{
  targets_byoc, bind_target, rekeyed, is_legacy_bound, with_annotations, rotate_to,
  rotate_token_for_target,
}

-- The bindings of a Secret.
abbrev pub target_of : Secret → String
target_of sec = get sec.meta.annotations credential_target_key

abbrev pub instance_of : Secret → String
instance_of sec = get sec.meta.annotations credential_instance_key

abbrev pub key_of : Secret → String
key_of sec = get sec.content api_key_key

rekeyed-target :
    (sec : Secret) (token target uid : String) → target_of (rekeyed sec token target uid) ≡ target
rekeyed-target sec token target uid =
    get-insert_ne credential_instance_key credential_target_key uid
      (bind_target target sec.meta.annotations) refl
    ∙ bound (target == "") refl
  where
    bound :
        (b : Bool)
        → (target == "") ≡ b
        → get (bind_target target sec.meta.annotations) credential_target_key ≡ target
    bound true e =
        rw e
          (get-remove_self credential_target_key sec.meta.annotations ∙ (cc (eq_of_== target "" e)))
    bound false e = rw e (get-insert_self credential_target_key target sec.meta.annotations)

-- The two sides of a Secret that the rotation leaves alone.
abbrev pub SameElsewhere : Secret → Secret → Type 0
SameElsewhere a b =
    (a.type ≡ b.type)
    × (a.meta.namespace ≡ b.meta.namespace)
    × (a.meta.name ≡ b.meta.name)
    × (a.meta.labels ≡ b.meta.labels)
    × (a.meta.controller ≡ b.meta.controller)
    × (a.meta.deleting ≡ b.meta.deleting)

-- The target that a key of the instance is for: none for a hosted instance.
abbrev pub expected_target : LlmInstance → String
expected_target inst = if targets_byoc inst then inst.status.active_byoc_target_id else ""

-- Whether the target is established: for a remote workload by its identity, for a hosted instance
-- by the caller, that has found it Ready.
abbrev pub is_established : LlmInstance → Bool → Bool
is_established inst allow_hosted =
    if targets_byoc inst then not (inst.status.active_byoc_target_id == "") else allow_hosted

module _ (Obs : (c : Call) → Result (Answer c) → Type 0) where
  -- The key is that of 32 bytes that the random source gave.
  abbrev pub IsFresh : String → Type 0
  IsFresh key =
      (bytes : List ℕ) × Obs (read_random 32) (ok bytes) × (key ≡ trim_padding (encode bytes))

  -- The three ways out: nothing changed, an unbound Secret that still carries the labels of the
  -- instance is bound with its key, or the key is new.
  pub data IsRotated (sec : Secret) (inst : LlmInstance) (allow : Bool) (slug : String)
      (out : Secret × Bool) : Type 0 where
    untouched :
        out ≡ (sec, false)
        → (is_established inst allow ≡ true
            → (target_of sec ≡ expected_target inst) × (instance_of sec ≡ inst.meta.uid))
        → IsRotated sec inst allow slug out
    adopted :
        out.1 ≡ true
        → is_legacy_bound sec inst (targets_byoc inst) slug ≡ true
        → key_of out.0 ≡ key_of sec
        → (target_of out.0 ≡ "") × (instance_of out.0 ≡ inst.meta.uid)
        → SameElsewhere out.0 sec
        → IsRotated sec inst allow slug out
    renewed :
        out.1 ≡ true
        → IsFresh (key_of out.0)
        → (target_of out.0 ≡ expected_target inst) × (instance_of out.0 ≡ inst.meta.uid)
        → SameElsewhere out.0 sec
        → IsRotated sec inst allow slug out

  -- The rotation's only call is for random bytes.
  abbrev pub IsRandomRead : Call → Type 0
  IsRandomRead c = c ≡ read_random 32

  abbrev pub Rotates : Secret → LlmInstance → Bool → String → Result (Secret × Bool) → Type 0
  Rotates sec inst allow slug (err e) = Unit
  Rotates sec inst allow slug (ok out) = IsRotated sec inst allow slug out

  abbrev pub GotFresh : Result String → Type 0
  GotFresh (err e) = Unit
  GotFresh (ok key) = IsFresh key

  pub generate_token-Ensures : Ensures Obs IsRandomRead GotFresh (generate_token 32)
  unfolding generate_token
  generate_token-Ensures =
      Ensures-call (read_random 32) refl (λ bytes shown. done (bytes, shown, refl)) (λ e _. tt)

  renewed_Secret :
      (sec : Secret) (inst : LlmInstance) (allow : Bool) (slug target token : String)
      → target ≡ expected_target inst
      → IsFresh token
      → IsRotated sec inst allow slug (rekeyed sec token target inst.meta.uid, true)
  renewed_Secret sec inst allow slug target token e fresh =
      renewed refl (rw (get-insert_self api_key_key token sec.content) fresh)
        (
          rekeyed-target sec token target inst.meta.uid ∙ e,
          get-insert_self credential_instance_key inst.meta.uid
              (bind_target target sec.meta.annotations),
        )
        (refl, refl, refl, refl, refl, refl)

  adopted_Secret :
      (sec : Secret) (inst : LlmInstance) (allow : Bool) (slug : String)
      → is_legacy_bound sec inst (targets_byoc inst) slug ≡ true
      → IsRotated sec inst allow slug (
        with_annotations sec (insert credential_instance_key inst.meta.uid sec.meta.annotations),
        true,
      )
  adopted_Secret sec inst allow slug legacy =
      let (_, rest) = and_parts _ _ legacy in
      let (untargeted, _) = and_parts _ _ rest in
      adopted refl legacy refl
        (
          get-insert_ne credential_instance_key credential_target_key inst.meta.uid
                sec.meta.annotations refl
              ∙ eq_of_== _ _ untargeted,
          get-insert_self credential_instance_key inst.meta.uid sec.meta.annotations,
        )
        (refl, refl, refl, refl, refl, refl)

  -- An unbound hosted Secret of an instance with no UID counts as bound to it.
  unbound_Secret :
      (sec : Secret) (inst : LlmInstance) (allow : Bool) (slug : String)
      → is_legacy_bound sec inst (targets_byoc inst) slug ≡ true
      → (inst.meta.uid == "") ≡ true
      → IsRotated sec inst allow slug (sec, false)
  unbound_Secret sec inst allow slug legacy anonymous =
      let (hosted, rest) = and_parts _ _ legacy in
      let (untargeted, rest') = and_parts _ _ rest in
      let (unowned, _) = and_parts _ _ rest' in
      untouched refl (λ _. (
        rw (false_of_not (targets_byoc inst) hosted) (eq_of_== _ _ untargeted),
        eq_of_== (instance_of sec) "" unowned ∙ sym (eq_of_== inst.meta.uid "" anonymous),
      ))

  rotate_to-Ensures :
      (sec : Secret) (inst : LlmInstance) (allow : Bool) (slug target : String)
      → target ≡ expected_target inst
      → Ensures Obs IsRandomRead
          (Rotates sec inst allow slug)
          (rotate_to sec inst (targets_byoc inst) target slug)
  rotate_to-Ensures sec inst allow slug target e =
      Ensures-if (is_legacy_bound sec inst (targets_byoc inst) slug)
        (λ legacy.
          Ensures-if (inst.meta.uid == "")
            (λ anonymous. done (unbound_Secret sec inst allow slug legacy anonymous))
            (λ _. done (adopted_Secret sec inst allow slug legacy)))
        (λ _.
          Ensures-if (target_of sec == target && instance_of sec == inst.meta.uid)
            (λ held.
              let (t, i) = and_parts _ _ held in
              done (untouched refl (λ _. (eq_of_== _ _ t ∙ e, eq_of_== _ _ i))))
            (λ _.
              Ensures-bind generate_token-Ensures
                (λ token fresh. done (renewed_Secret sec inst allow slug target token e fresh))
                (λ e _. tt)))

  pub rotate_token-Ensures :
      (sec : Secret) (inst : LlmInstance) (allow : Bool) (slug : String)
      → Ensures Obs IsRandomRead
          (Rotates sec inst allow slug)
          (rotate_token_for_target sec (some inst) allow slug)
  unfolding rotate_token_for_target
  rotate_token-Ensures sec inst allow slug = elim (Bool-cases (targets_byoc inst)) [
    | inl byoc ↦ rw byoc (
        Ensures-if (inst.status.active_byoc_target_id == "")
          (λ unknown. done (untouched refl (λ h. absurd (never byoc unknown h))))
          (λ _.
            Ensures-if (inst.meta.uid == "") (λ _. done tt)
              (λ _. rw byoc at (
                rotate_to-Ensures sec inst allow slug inst.status.active_byoc_target_id
                  (rw byoc)))))
    | inr hosted ↦ rw hosted (
        Ensures-if (not allow)
          (λ barred. done (untouched refl (λ h. absurd (barred_never hosted barred h))))
          (λ _. rw hosted at (rotate_to-Ensures sec inst allow slug "" (rw hosted))))
  ]
    where
      never :
          targets_byoc inst ≡ true
          → (inst.status.active_byoc_target_id == "") ≡ true
          → is_established inst allow ≡ true
          → ⊥
      never byoc unknown h = ground arith

      barred_never :
          targets_byoc inst ≡ false → not allow ≡ true → is_established inst allow ≡ true → ⊥
      barred_never hosted barred h = ground arith

module _ {W : Type 0} (answer : W → (c : Call) → Result (Answer c) × W) (sec : Secret)
    (inst : LlmInstance) (allow : Bool) (slug : String) where
  -- Whatever the random source gives, `rotateTokenForTarget` on a Secret leaves one of three: the
  -- Secret as it was, which then is bound to the instance's UID and target if the target is
  -- established; or an unbound Secret of a hosted instance, with the labels of that instance and
  -- of the selected slug, bound to the UID with the key that it has; or the Secret with a new key
  -- from 32 random bytes, bound to the UID and the target. Labels, name, type and controller stay.
  -- The only call is for those bytes.
  pub rotate_token_sound :
      (w : W)
      → Rotates
          (Seen (run answer (rotate_token_for_target sec (some inst) allow slug) w).1)
          sec
          inst
          allow
          slug
          (run answer (rotate_token_for_target sec (some inst) allow slug) w).0
        × All
            (λ e. e.0 ≡ read_random 32)
            (run answer (rotate_token_for_target sec (some inst) allow slug) w).1
  rotate_token_sound w = run_sound answer (rotate_token_for_target sec (some inst) allow slug) w (
      rotate_token-Ensures
        (Seen (run answer (rotate_token_for_target sec (some inst) allow slug) w).1) sec inst allow
        slug)
