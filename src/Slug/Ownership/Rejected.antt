-- ===== src/Slug/Ownership/Rejected.antt =====
-- What happens to an instance whose slug is refused.
use showroom_msp_private_llm.Prelude.{
  ◌≡◌, refl, sym, ◌∙◌, true, false, not, arith, true_of_not, false_of_not, true≢false,
}
use showroom_msp_private_llm.Prelude.Lists.{All}
use showroom_msp_private_llm.Kube.{LlmInstance, Ingress}
use showroom_msp_private_llm.Kube.Status.{update_provisioning_status, with_status}
use showroom_msp_private_llm.Api.{
  Error, not_found, Result, ok, err, Call, Answer, get_ingress, delete_ingress,
  update_instance_status, is_rejection,
}
use showroom_msp_private_llm.Api.Ensures.{Ensures, done, Ensures-try, Ensures-if, Ensures-bind}
use showroom_msp_private_llm.Api.Trace.{Seen, run, run_sound}
use showroom_msp_private_llm.Slug.Ownership.{
  Config, owns_llm_resource, join_result, forget_instance, remove_route, route_key, reject_slug,
}

module _ (config : Config) (inst : LlmInstance) (cause : Error) where
  -- Calls are made only for a refusal: a read of the instance's route, its deletion if the instance
  -- controls it, and a status with no endpoint that leaves the rest of the object and the slug.
  abbrev pub IsRejectCall : Call → Type 0
  IsRejectCall (get_ingress reader key) = is_rejection cause ≡ true
  IsRejectCall (delete_ingress ing) =
      (is_rejection cause ≡ true) × (owns_llm_resource inst ing.meta ≡ true)
  IsRejectCall (update_instance_status i) =
      (is_rejection cause ≡ true)
      × (i.status.endpoint ≡ "")
      × (i.meta ≡ inst.meta)
      × (i.spec ≡ inst.spec)
      × (i.status.slug ≡ inst.status.slug)
  IsRejectCall _ = ⊥

  -- What a refusal leads to, in what the API has shown: the instance's route was looked up; where an
  -- Ingress of the instance was found, its deletion was tried; and the write of a status without an
  -- endpoint was tried.
  module _ (Obs : (c : Call) → Result (Answer c) → Type 0) where
    pub record IsWithdrawnRoute : Type 0 where
      pub looked : Result Ingress
      pub shown : Obs (get_ingress config.reader (route_key inst)) looked
      pub removed :
          (ing : Ingress)
          → looked ≡ ok ing
          → owns_llm_resource inst ing.meta ≡ true
          → (d : Result (Unit {0})) × Obs (delete_ingress ing) d
      pub written : LlmInstance
      pub no_endpoint : written.status.endpoint ≡ ""
      pub same_object : (written.meta ≡ inst.meta) × (written.spec ≡ inst.spec)
      pub reply : Result LlmInstance
      pub answered : Obs (update_instance_status written) reply

    -- An error is returned, and it is still a refusal exactly if the cause was one.
    abbrev pub Reports : Result Error → Type 0
    Reports r =
        (e : Error) × (r ≡ ok e)
        × (is_rejection cause ≡ true → (is_rejection e ≡ true) × IsWithdrawnRoute)
        × (is_rejection cause ≡ false → e ≡ cause)

  join_result_keeps :
      (e : Error) (r : Result (Unit {0}))
      → is_rejection e ≡ true
      → is_rejection (join_result e r) ≡ true
  join_result_keeps e (ok _) h = h
  join_result_keeps e (err other) h = ground arith

  abbrev rejected_status : LlmInstance
  rejected_status =
      with_status config.set_condition inst false "Provisioning" "" "SlugOwnershipError"
        "Inference identity requires a valid operator policy and an exclusively owned route"

  module _ (Obs : (c : Call) → Result (Answer c) → Type 0) where
    -- What the removal of the route has tried, for what the lookup replied.
    abbrev IsTried : Result Ingress → Type 0
    IsTried looked =
        (ing : Ingress)
        → looked ≡ ok ing
        → owns_llm_resource inst ing.meta ≡ true
        → (d : Result (Unit {0})) × Obs (delete_ingress ing) d

    abbrev IsReturned : Result Ingress → Result (Result (Unit {0})) → Type 0
    IsReturned looked (ok r) = IsTried looked
    IsReturned looked (err e) = ⊥

    remove_route-Ensures :
        (r : Result Ingress)
        → is_rejection cause ≡ true
        → Ensures Obs IsRejectCall (IsReturned r) (remove_route inst r)
    remove_route-Ensures (err not_found) h = done (λ ing e _. absurd cc)
    remove_route-Ensures (err e) h = done (λ ing f _. absurd cc)
    remove_route-Ensures (ok found) h =
        Ensures-if (not (owns_llm_resource inst found.meta))
          (λ foreign. done (λ ing e owned. absurd (foreign_route ing e owned foreign)))
          (λ owned.
            Ensures-try (delete_ingress found) (h, true_of_not _ owned)
              (λ d shown. done (λ ing e _. (d, deleted ing e d shown))))
      where
        foreign_route :
            (ing : Ingress)
            → ok found ≡ ok ing
            → owns_llm_resource inst ing.meta ≡ true
            → not (owns_llm_resource inst found.meta) ≡ true
            → ⊥
        foreign_route ing e owned foreign =
            let same : found ≡ ing = cc in
            true≢false (sym owned ∙ rw (← same) (false_of_not _ foreign))

        deleted :
            (ing : Ingress)
            → ok found ≡ ok ing
            → (d : Result (Unit {0})) → Obs (delete_ingress found) d
            → Obs (delete_ingress ing) d
        deleted ing e d shown = let same : found ≡ ing = cc in rw (← same) shown

    pub reject_slug-Ensures : Ensures Obs IsRejectCall (Reports Obs) (reject_slug config inst cause)
    unfolding reject_slug update_provisioning_status with_status
    reject_slug-Ensures =
        Ensures-if (not (is_rejection cause)) (λ other. done (cause, refl, λ h. cc, λ _. refl))
          (λ refused.
            let h = true_of_not _ refused in
            Ensures-try (get_ingress config.reader (route_key inst)) h (λ r looked.
              Ensures-bind (remove_route-Ensures r h)
                (λ route tried.
                  Ensures-try (update_instance_status (rejected_status)) (h, refl, refl, refl, refl)
                    (λ status answered. done (
                      join_result (join_result cause route) (forget_instance status),
                      refl,
                      λ _. (
                        join_result_keeps _ (forget_instance status)
                            (join_result_keeps cause route h),
                        record {
                          looked = r;
                          shown = looked;
                          removed = tried;
                          written = rejected_status;
                          no_endpoint = refl;
                          same_object = (refl, refl);
                          reply = status;
                          answered = answered;
                        },
                      ),
                      λ n. cc,
                    )))
                (λ e never. absurd never)))

module _ {W : Type 0} (answer : W → (c : Call) → Result (Answer c) × W) (config : Config)
    (inst : LlmInstance) (cause : Error) where
  -- Whatever the API server answers, `rejectSlug` returns the cause untouched and makes no call if
  -- the cause is no refusal; otherwise it looks up the instance's route, tries to delete the
  -- Ingress found if the instance controls it, and tries to write the instance's own status with no
  -- endpoint, spec, identity and slug as they were; it deletes no Ingress that the instance does not
  -- control and writes no other status, and it returns an error that is still a refusal.
  pub reject_slug_sound :
      (w : W)
      → Reports config inst cause
          (Seen (run answer (reject_slug config inst cause) w).1)
          (run answer (reject_slug config inst cause) w).0
        × All
            (λ e. IsRejectCall config inst cause e.0)
            (run answer (reject_slug config inst cause) w).1
  reject_slug_sound w = run_sound answer (reject_slug config inst cause) w (
      reject_slug-Ensures config inst cause (Seen (run answer (reject_slug config inst cause) w).1))
