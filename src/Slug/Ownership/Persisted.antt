-- ===== src/Slug/Ownership/Persisted.antt =====
-- The slug of an instance never changes once it is in the status, and is used only after the API
-- server has shown that it is persisted.
use showroom_msp_private_llm.Prelude.{
  String, ◌≡◌, refl, Bool, true, false, ◌⊎◌, inl, inr, arith, eq_iff, eq_of_==, true_of_not,
  or_false_parts, and_parts,
}
use showroom_msp_private_llm.Prelude.Lists.{All}
use showroom_msp_private_llm.Kube.{LlmInstance}
use showroom_msp_private_llm.Api.{
  Result, ok, err, Result-cases, Call, Answer, get_instance, patch_instance_status,
}
use showroom_msp_private_llm.Api.Ensures.{Ensures, done, Ensures-try, Ensures-if}
use showroom_msp_private_llm.Api.Trace.{Seen, run, run_sound}
use showroom_msp_private_llm.Slug.Policy.{Chosen, select}
use showroom_msp_private_llm.Slug.Ownership.{
  Config, instance_key_of, select_slug, keep_slug, with_slug, Outcome, is_other, is_dropped,
  is_current, check_persisted, after_patch, persist_slug, ensure_slug,
}

module _ (config : Config) (inst : LlmInstance) where
  -- A slug that `selectSlug` allows is the policy's choice, and the one in the status and the one
  -- of a running remote workload, where these are set. A derived slug is new to an instance only
  -- if that has no endpoint and no remote workload.
  pub record IsAllowed (chosen : Chosen) : Type 0 where
    pub selected : select config.libraries config.policy inst.meta ≡ ok chosen
    pub kept : (inst.status.slug ≡ "") ⊎ (inst.status.slug ≡ chosen.slug)
    pub kept_remote :
        (inst.status.active_byoc_slug ≡ "") ⊎ (inst.status.active_byoc_slug ≡ chosen.slug)
    pub renamed_nothing :
        chosen.source ≡ "Derived"
        → inst.status.slug ≡ ""
        → (inst.status.endpoint ≡ "")
          × (inst.status.active_byoc_slug ≡ "")
          × (inst.status.active_byoc_kubeconfig_secret_name ≡ "")

  keep_slug-IsAllowed :
      (c chosen : Chosen)
      → select config.libraries config.policy inst.meta ≡ ok c
      → keep_slug inst c ≡ ok chosen
      → IsAllowed chosen
  keep_slug-IsAllowed c chosen s h =
      let same : c ≡ chosen = ground arith in
      rw (← same) (record {
        selected = s;
        kept = ground (arith, eq_iff inst.status.slug "", eq_iff inst.status.slug c.slug);
        kept_remote = ground (
          arith,
          eq_iff inst.status.active_byoc_slug "",
          eq_iff inst.status.active_byoc_slug c.slug,
        );
        renamed_nothing = λ derived unset. (
          ground (
            arith,
            eq_iff c.source "Derived",
            eq_iff inst.status.slug "",
            eq_iff inst.status.endpoint "",
          ),
          ground (
            arith,
            eq_iff c.source "Derived",
            eq_iff inst.status.slug "",
            eq_iff inst.status.active_byoc_slug "",
          ),
          ground (
            arith,
            eq_iff c.source "Derived",
            eq_iff inst.status.slug "",
            eq_iff inst.status.active_byoc_kubeconfig_secret_name "",
          ),
        );
      })

  pub select_slug-IsAllowed :
      (chosen : Chosen) → select_slug config inst ≡ ok chosen → IsAllowed chosen
  unfolding select_slug
  select_slug-IsAllowed chosen h =
      elim (Result-cases (select config.libraries config.policy inst.meta)) [
        | inl (c, s) ↦ keep_slug-IsAllowed c chosen s (rw (s, select_slug) at h)
        | inr (e, s) ↦ absurd (ground arith)
      ]

  -- The one write of `ensureSlug`: the object with the allowed slug, the rest as it was.
  abbrev pub IsSlugCall : Call → Type 0
  IsSlugCall (patch_instance_status i) =
      (chosen : Chosen) × IsAllowed chosen × (i ≡ with_slug inst chosen)
  IsSlugCall (get_instance reader key) = (reader ≡ config.reader) × (key ≡ instance_key_of inst)
  IsSlugCall _ = ⊥

  module _ (Obs : (c : Call) → Result (Answer c) → Type 0) where
    -- A slug that `ensureSlug` hands out is allowed, and is in the status already, or in the
    -- object of the same UID that the API server showed after the write.
    pub record IsPersisted (slug : String) (requeue : Bool) : Type 0 where
      pub chosen : Chosen
      pub allowed : IsAllowed chosen
      pub same : slug ≡ chosen.slug
      pub shown :
          ((requeue ≡ false)
            × (inst.status.slug ≡ chosen.slug)
            × (inst.status.slug_source ≡ chosen.source))
          ⊎ ((requeue ≡ true)
              × ((p : LlmInstance) × Obs (get_instance config.reader (instance_key_of inst)) (ok p)
                  × (p.meta.uid ≡ inst.meta.uid)
                  × (p.status.slug ≡ chosen.slug)
                  × (p.status.slug_source ≡ chosen.source)))

    -- Where the object in memory comes from: it has the metadata of the one given, or of the one that
    -- the API server returned for the write.
    pub data IsLeft (after : LlmInstance) : Type 0 where
      kept : after.meta ≡ inst.meta → IsLeft after
      returned :
          {written shown : LlmInstance}
          → Obs (patch_instance_status written) (ok shown)
          → after.meta ≡ shown.meta
          → IsLeft after

    abbrev pub HandsOut : Result Outcome → Type 0
    HandsOut (err e) = ⊥
    HandsOut (ok (after, err e)) = IsLeft after
    HandsOut (ok (after, ok (slug, requeue))) =
        IsPersisted slug requeue × (requeue ≡ false → after ≡ inst)

    check_persisted-Ensures :
        (after : LlmInstance) (chosen : Chosen) (r : Result LlmInstance)
        → IsAllowed chosen
        → Obs (get_instance config.reader (instance_key_of inst)) r
        → IsLeft after
        → Ensures Obs IsSlugCall HandsOut (check_persisted inst after chosen r)
    check_persisted-Ensures after chosen (err e) allowed shown left = done left
    check_persisted-Ensures after chosen (ok p) allowed shown left =
        Ensures-if (is_other inst p) (λ _. done left)
          (λ same.
            Ensures-if (is_dropped chosen p) (λ _. done left)
              (λ kept. done (
                record {
                  chosen = chosen;
                  allowed = allowed;
                  same = refl;
                  shown =
                      let (slug, source) = or_false_parts _ _ kept in
                      inr (
                        refl,
                        (
                          p,
                          shown,
                          eq_of_== _ _ (true_of_not _ (or_false_parts _ _ same).0),
                          eq_of_== _ _ (true_of_not _ slug),
                          eq_of_== _ _ (true_of_not _ source),
                        ),
                      );
                },
                λ h. cc,
              )))

    after_patch-Ensures :
        (chosen : Chosen) (r : Result LlmInstance)
        → IsAllowed chosen
        → Obs (patch_instance_status (with_slug inst chosen)) r
        → Ensures Obs IsSlugCall HandsOut (after_patch config inst chosen r)
    after_patch-Ensures chosen (err e) allowed patched = done (kept refl)
    after_patch-Ensures chosen (ok after) allowed patched =
        Ensures-try (get_instance config.reader (instance_key_of inst)) (refl, refl)
          (λ r shown. check_persisted-Ensures after chosen r allowed shown (returned patched refl))

    persist_slug-Ensures :
        (chosen : Chosen)
        → IsAllowed chosen
        → Ensures Obs IsSlugCall HandsOut (persist_slug config inst chosen)
    persist_slug-Ensures chosen allowed =
        Ensures-if (is_current inst chosen)
          (λ held.
            let (slug, source) = and_parts _ _ held in
            done (
              record {
                chosen = chosen;
                allowed = allowed;
                same = refl;
                shown = inl (refl, eq_of_== _ _ slug, eq_of_== _ _ source);
              },
              λ _. refl,
            ))
          (λ _.
            Ensures-try (patch_instance_status (with_slug inst chosen)) (chosen, allowed, refl)
              (λ r patched. after_patch-Ensures chosen r allowed patched))

    pub ensure_slug-Ensures : Ensures Obs IsSlugCall HandsOut (ensure_slug config inst)
    unfolding ensure_slug
    ensure_slug-Ensures = elim (Result-cases (select_slug config inst)) [
      | inl (chosen, s) ↦
          rw (s, ensure_slug) (persist_slug-Ensures chosen (select_slug-IsAllowed chosen s))
      | inr (e, s) ↦ rw (s, ensure_slug) (done (kept refl))
    ]

module _ {W : Type 0} (answer : W → (c : Call) → Result (Answer c) × W) (config : Config)
    (inst : LlmInstance) where
  -- Whatever the API server answers, `ensureSlug` writes at most the instance's own status with a
  -- slug that `selectSlug` allows (the policy's choice, equal to the slug in the status and to that
  -- of the remote workload where these are set), and nothing else of the object; and it hands out
  -- only an allowed slug that is in the status already or that the API server showed in the object
  -- of the same UID after the write; the object in memory is then as it was unless the caller shall
  -- requeue.
  pub ensure_slug_sound :
      (w : W)
      → HandsOut config inst
          (Seen (run answer (ensure_slug config inst) w).1)
          (run answer (ensure_slug config inst) w).0
        × All (λ e. IsSlugCall config inst e.0) (run answer (ensure_slug config inst) w).1
  ensure_slug_sound w =
      run_sound answer (ensure_slug config inst) w
        (ensure_slug-Ensures config inst (Seen (run answer (ensure_slug config inst) w).1))
