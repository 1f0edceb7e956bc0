-- ===== src/Instance/Finalized.antt =====
-- `finalizeLLMInstance` makes only calls that `Calls` allows.
use showroom_msp_private_llm.Prelude.{
  ℕ, zero, suc, ◌≡◌, refl, true, false, ◌||◌, ◌==◌, not, ◌⊎◌, inl, inr, false_of_not, true_of_not,
  eq_of_==, or_false_parts,
}
use showroom_msp_private_llm.Kube.{LlmInstance, is_byoc}
use showroom_msp_private_llm.Api.{
  not_found, conflict, already_exists, rejection, failure, tls_not_ready, join, Result, ok, err,
  Key, Call, Answer, get_instance, update_instance,
}
use showroom_msp_private_llm.Api.Ensures.{
  Ensures, done, Ensures-bind, Ensures-try, Ensures-calls, Ensures-if,
}
use showroom_msp_private_llm.Byoc.Departure.Released.{cleanup_byoc-Ensures}
use showroom_msp_private_llm.Instance.{
  Reconciler, byoc_config, instance_finalizer, retry_fresh, after_finalizer_update, remove_rounds,
  without_instance_finalizer, finalize_llm_instance,
}
use showroom_msp_private_llm.Instance.Calls.{HasNoRemote, IsFinalizeCall}

module _ (Obs : (c : Call) → Result (Answer c) → Type 0) (r : Reconciler) (key : Key)
    (inst : LlmInstance) where
  abbrev Allowed : Call → Type 0
  Allowed = IsFinalizeCall Obs r key inst

  abbrev IsSource : LlmInstance → Type 0
  IsSource i = (i ≡ inst) ⊎ Obs (get_instance r.slugs.reader key) (ok i)

  -- The finalizer is away: it was not there, or the API server accepted the update without it, or has
  -- the instance no more; or the update had a conflict, which wakes the controller again.
  pub data IsOver : Type 0 where
    absent : r.contains_finalizer inst.meta.finalizers instance_finalizer ≡ false → IsOver
    dropped :
        (i : LlmInstance) {after : LlmInstance}
        → HasNoRemote Obs r key inst
        → Obs (update_instance (without_instance_finalizer r i)) (ok after)
        → IsOver
    gone :
        (i : LlmInstance)
        → HasNoRemote Obs r key inst
        → Obs (update_instance (without_instance_finalizer r i)) (err not_found)
        → IsOver
    outdated :
        (i : LlmInstance)
        → HasNoRemote Obs r key inst
        → Obs (update_instance (without_instance_finalizer r i)) (err conflict)
        → IsOver

  abbrev pub IfOver : Result (Unit {0}) → Type 0
  IfOver (ok _) = IsOver
  IfOver (err e) = Unit

  module _ (there : r.contains_finalizer inst.meta.finalizers instance_finalizer ≡ true)
      (left : HasNoRemote Obs r key inst) where
    after_finalizer_update-Ensures :
        (n : ℕ) (i : LlmInstance) (u : Result LlmInstance)
        → Obs (update_instance (without_instance_finalizer r i)) u
        → ((fresh : LlmInstance)
            → IsSource fresh
            → IsOver
            → Ensures Obs Allowed IfOver (remove_rounds r n key fresh))
        → Ensures Obs Allowed IfOver (after_finalizer_update r (remove_rounds r n key) key u)
    after_finalizer_update-Ensures n i (ok _) shown again = done (IsOver.dropped i left shown)
    after_finalizer_update-Ensures n i (err not_found) shown again = done (IsOver.gone i left shown)
    after_finalizer_update-Ensures n i (err conflict) shown again =
        Ensures-try _ IsFinalizeCall.reads_again (λ g read. look g read)
      where
        look :
            (g : Result LlmInstance)
            → Obs (get_instance r.slugs.reader key) g
            → Ensures Obs Allowed IfOver (retry_fresh r (remove_rounds r n key) g)
        look (ok fresh) read = again fresh (inr read) (IsOver.outdated i left shown)
        look (err e) read = done (IsOver.outdated i left shown)
    after_finalizer_update-Ensures n i (err already_exists) shown again = done tt
    after_finalizer_update-Ensures n i (err (rejection _)) shown again = done tt
    after_finalizer_update-Ensures n i (err (failure _)) shown again = done tt
    after_finalizer_update-Ensures n i (err (tls_not_ready _)) shown again = done tt
    after_finalizer_update-Ensures n i (err (join _ _)) shown again = done tt

    again-Ensures :
        (n : ℕ) (i : LlmInstance)
        → IsSource i
        → IsOver
        → Ensures Obs Allowed IfOver (remove_rounds r n key i)
    unfolding remove_rounds
    again-Ensures zero i source over = done over
    again-Ensures (suc n) i source over =
        Ensures-try _ (IsFinalizeCall.drops_finalizer i there left source)
          (λ u shown. after_finalizer_update-Ensures n i u shown (again-Ensures n))

    attempt_round-Ensures :
        (n : ℕ) (i : LlmInstance)
        → IsSource i
        → Ensures Obs Allowed IfOver (remove_rounds r (suc n) key i)
    unfolding remove_rounds
    attempt_round-Ensures n i source =
        Ensures-try _ (IsFinalizeCall.drops_finalizer i there left source)
          (λ u shown. after_finalizer_update-Ensures n i u shown (again-Ensures n))

  pub finalize-Ensures : Ensures Obs Allowed IfOver (finalize_llm_instance r key inst)
  unfolding finalize_llm_instance
  finalize-Ensures =
      Ensures-if (not (r.contains_finalizer inst.meta.finalizers instance_finalizer))
        (λ absent. done (IsOver.absent (false_of_not _ absent)))
        (λ there.
          Ensures-if (is_byoc inst || not (inst.status.active_byoc_kubeconfig_secret_name == ""))
            (λ _.
              Ensures-bind
                (Ensures-calls (λ c h. IsFinalizeCall.cleans_up h)
                  (cleanup_byoc-Ensures Obs (byoc_config r) inst))
                (λ _ left. attempt_round-Ensures (true_of_not _ there) left 2 inst (inl refl))
                (λ _ _. tt))
            (λ local.
              attempt_round-Ensures (true_of_not _ there)
                (inl (eq_of_== _ _ (true_of_not _ (or_false_parts _ _ local).1))) 2 inst
                (inl refl)))
