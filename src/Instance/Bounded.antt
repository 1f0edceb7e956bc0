-- ===== src/Instance/Bounded.antt =====
-- `finalizeLLMInstance` as a whole: the finalizer goes last, and the loop that removes it ends.
use showroom_msp_private_llm.Prelude.{
  String, ℕ, zero, suc, ◌≤◌, ◌≡◌, refl, Bool, true, false, ◌||◌, ◌==◌, not,
}
use showroom_msp_private_llm.Kube.{LlmInstance, is_byoc}
use showroom_msp_private_llm.Api.{
  not_found, conflict, already_exists, rejection, failure, tls_not_ready, join, Result, ok, err,
  Key, Call, Answer, update_instance, ◌>>=◌, request, attempt,
}
use showroom_msp_private_llm.Api.Ensures.{Ensures-calls}
use showroom_msp_private_llm.Api.Trace.{Seen, run, run_sound}
use showroom_msp_private_llm.Api.Counted.{
  count_calls, AtMost, ends, free, used, AtMost-bind, AtMost-if, count_calls-run,
}
use showroom_msp_private_llm.Byoc.Cleanup.Removed.{IsObjectCall, IsRemoteTlsCall}
use showroom_msp_private_llm.Byoc.Certificates.Bound.{IsCertificateCall}
use showroom_msp_private_llm.Byoc.Withdrawal.Ordered.{IsManagedCall}
use showroom_msp_private_llm.Byoc.Departure.{ByocConfig, tls_of}
use showroom_msp_private_llm.Byoc.Departure.Guarded.{IsRemoteCall, IsManagedCallOf}
use showroom_msp_private_llm.Byoc.Departure.Released.{IsCleanupCall, cleanup_byoc-Ensures}
use showroom_msp_private_llm.Instance.{
  Reconciler, byoc_config, instance_finalizer, retry_fresh, after_finalizer_update, remove_rounds,
  finalize_llm_instance,
}
use showroom_msp_private_llm.Prelude.Lists.{All}
use showroom_msp_private_llm.Instance.Calls.{IsFinalizeCall}
use showroom_msp_private_llm.Instance.Finalized.{IfOver, finalize-Ensures}

abbrev pub is_update : Call → Bool
is_update (update_instance _) = true
is_update _ = false

-- Every reply is possible.
abbrev Any : (c : Call) → Result (Answer c) → Type 0
Any _ _ = Unit

module _ {config : ByocConfig} (inst : LlmInstance) where
  managed-not_update :
      {target_id : String} {c : Call}
      → IsManagedCallOf Any config inst target_id c
      → is_update c ≡ false
  managed-not_update (IsManagedCallOf.managed h) = managed_call h
    where
      managed_call :
          {target_id : String} {c : Call}
          → IsManagedCall Any config.targets config.certificates inst
              (tls_of config inst)
              target_id
              c
          → is_update c ≡ false
      managed_call (IsManagedCall.reads_dns _) = refl
      managed_call (IsManagedCall.reads_certificate _) = refl
      managed_call (IsManagedCall.reads_secret _) = refl
      managed_call (IsManagedCall.deletes_dns _ _) = refl
      managed_call (IsManagedCall.binds _ (IsCertificateCall.reads _)) = refl
      managed_call (IsManagedCall.binds _ (IsCertificateCall.looks _)) = refl
      managed_call (IsManagedCall.binds _ (IsCertificateCall.creates _ _ _ _)) = refl
      managed_call (IsManagedCall.binds _ (IsCertificateCall.updates _ _ _ _ _)) = refl
      managed_call (IsManagedCall.deletes_certificate _ _ _) = refl
      managed_call (IsManagedCall.deletes_secret _ _ _ _ _ _ _) = refl

  remote-not_update :
      {slug kubeconfig target_id : String} {c : Call}
      → IsRemoteCall Any config inst slug kubeconfig target_id c
      → is_update c ≡ false
  remote-not_update IsRemoteCall.identifies = refl
  remote-not_update (IsRemoteCall.objects _ (IsObjectCall.reads _ _)) = refl
  remote-not_update (IsRemoteCall.objects _ (IsObjectCall.deletes _ _)) = refl
  remote-not_update (IsRemoteCall.certificate _ _ (IsRemoteTlsCall.reads _)) = refl
  remote-not_update (IsRemoteCall.certificate _ _ (IsRemoteTlsCall.deletes _ _ _)) = refl

  -- `cleanupBYOC` does not update the instance.
  cleanup-not_update : {c : Call} → IsCleanupCall Any config inst c → is_update c ≡ false
  cleanup-not_update (IsCleanupCall.managed h) = managed-not_update h
  cleanup-not_update (IsCleanupCall.caches _) = refl
  cleanup-not_update (IsCleanupCall.remote _ _ h) = remote-not_update h
  cleanup-not_update (IsCleanupCall.releases _ _ _ _) = refl

module _ (r : Reconciler) (key : Key) where
  after_finalizer_update-AtMost :
      (n : ℕ) (u : Result LlmInstance)
      → ((inst : LlmInstance) → AtMost is_update n (remove_rounds r n key inst))
      → AtMost is_update n (after_finalizer_update r (remove_rounds r n key) key u)
  unfolding attempt request ◌>>=◌
  after_finalizer_update-AtMost n (ok _) again = ends
  after_finalizer_update-AtMost n (err not_found) again = ends
  after_finalizer_update-AtMost n (err conflict) again = free refl λ g. fresh g
    where
      fresh :
          (g : Result LlmInstance) → AtMost is_update n (retry_fresh r (remove_rounds r n key) g)
      fresh (ok inst) = again inst
      fresh (err e) = ends
  after_finalizer_update-AtMost n (err already_exists) again = ends
  after_finalizer_update-AtMost n (err (rejection _)) again = ends
  after_finalizer_update-AtMost n (err (failure _)) again = ends
  after_finalizer_update-AtMost n (err (tls_not_ready _)) again = ends
  after_finalizer_update-AtMost n (err (join _ _)) again = ends

  remove_rounds-AtMost :
      (n : ℕ) (inst : LlmInstance) → AtMost is_update n (remove_rounds r n key inst)
  unfolding remove_rounds attempt request ◌>>=◌
  remove_rounds-AtMost zero inst = ends
  remove_rounds-AtMost (suc n) inst =
      used λ u. after_finalizer_update-AtMost n u (remove_rounds-AtMost n)

  finalize-AtMost : (inst : LlmInstance) → AtMost is_update 3 (finalize_llm_instance r key inst)
  unfolding finalize_llm_instance
  finalize-AtMost inst =
      AtMost-if (not (r.contains_finalizer inst.meta.finalizers instance_finalizer)) ends (
        AtMost-if (is_byoc inst || not (inst.status.active_byoc_kubeconfig_secret_name == ""))
          (AtMost-bind
            (Ensures-calls (λ c h. cleanup-not_update inst h)
              (cleanup_byoc-Ensures Any (byoc_config r) inst))
            (λ _. remove_rounds-AtMost 3 inst))
          (remove_rounds-AtMost 3 inst))

  -- Whatever the API servers answer, `finalizeLLMInstance` calls only what `cleanupBYOC` may call,
  -- reads of the instance, and updates that take the finalizer off the instance given or one read
  -- again, and these only once nothing of the instance is left on a tenant's cluster, if it was on one.
  -- It tries three such updates at most, however often the API server answers with a conflict; and it
  -- reports success only if the finalizer was not there, or after such an update was accepted, found
  -- the instance gone, or had a conflict.
  pub finalize_llm_instance_sound :
      {W : Type 0} (answer : W → (c : Call) → Result (Answer c) × W) (w : W) (inst : LlmInstance)
      → IfOver
          (Seen (run answer (finalize_llm_instance r key inst) w).1)
          r
          key
          inst
          (run answer (finalize_llm_instance r key inst) w).0
        × All
            (λ e.
              IsFinalizeCall
                (Seen (run answer (finalize_llm_instance r key inst) w).1)
                r
                key
                inst
                e.0)
            (run answer (finalize_llm_instance r key inst) w).1
        × (count_calls is_update (run answer (finalize_llm_instance r key inst) w).1 ≤ 3)
  finalize_llm_instance_sound answer w inst =
      let Obs : (c : Call) → Result (Answer c) → Type 0 =
        Seen (run answer (finalize_llm_instance r key inst) w).1 in
      let (over, calls) =
        run_sound answer (finalize_llm_instance r key inst) w (finalize-Ensures Obs r key inst) in
      (
        over,
        calls,
        count_calls-run answer (finalize_llm_instance r key inst) w (finalize-AtMost inst),
      )
