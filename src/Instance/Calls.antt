-- ===== src/Instance/Calls.antt =====
-- The calls that `Reconcile` may make, each with what it has checked before.
use showroom_msp_private_llm.Prelude.{String, ◌≡◌, true, false, ◌⊎◌}
use showroom_msp_private_llm.Kube.{LlmInstance, is_byoc, is_some}
use showroom_msp_private_llm.Kube.Status.{with_status}
use showroom_msp_private_llm.Api.{
  Error, Result, ok, err, Key, Call, Answer, get_instance, patch_instance_status, update_instance,
  update_instance_status,
}
use showroom_msp_private_llm.Api.Ensures.{IsCallOf}
use showroom_msp_private_llm.Slug.Policy.{Chosen}
use showroom_msp_private_llm.Slug.Ownership.{select_slug}
use showroom_msp_private_llm.Slug.Ownership.Rejected.{IsRejectCall}
use showroom_msp_private_llm.Slug.Ownership.Persisted.{IsSlugCall, IsPersisted}
use showroom_msp_private_llm.Slug.Routes.Exclusive.{IsExclusive, IsRouteRead}
use showroom_msp_private_llm.Hosted.Models.{model_for_instance}
use showroom_msp_private_llm.Hosted.Ceilings.{check}
use showroom_msp_private_llm.Hosted.Backend.{service_name, llama_labels}
use showroom_msp_private_llm.Hosted.Middlewares.{auth_middleware_name, auth_address}
use showroom_msp_private_llm.Hosted.Middlewares.Authenticated.{IsAuthCall}
use showroom_msp_private_llm.Byoc.Departure.Released.{IsCleanupCall, HasLeft}
use showroom_msp_private_llm.Byoc.Departure.Moved.{IsMoveCall}
use showroom_msp_private_llm.Instance.{
  Reconciler, byoc_config, instance_finalizer, with_finalizers, forget_target,
  without_instance_finalizer, rejected_settings,
}
use showroom_msp_private_llm.Instance.Hosted.{IsHostedCall}

module _ (Obs : (c : Call) → Result (Answer c) → Type 0) (r : Reconciler) (key : Key) where
  -- The object in memory has the metadata of one that the API server returned in this run: for the
  -- read of the instance, or for a write of its status.
  pub data IsShown (inst : LlmInstance) : Type 0 where
    read :
        {i : LlmInstance}
        → Obs (get_instance r.slugs.reader key) (ok i)
        → inst.meta ≡ i.meta
        → IsShown inst
    patched :
        {written i : LlmInstance}
        → Obs (patch_instance_status written) (ok i)
        → inst.meta ≡ i.meta
        → IsShown inst
    updated :
        {written i : LlmInstance}
        → Obs (update_instance_status written) (ok i)
        → inst.meta ≡ i.meta
        → IsShown inst

  -- What was checked before any workload is touched: the instance that the API server returned keeps
  -- to the provider's ceilings, its slug is allowed and persisted, and, for a hosted one, no other
  -- Ingress that the API listed overlaps the route.
  pub record IsCleared (inst : LlmInstance) (slug : String) : Type 0 where
    pub read : Obs (get_instance r.slugs.reader key) (ok inst)
    pub within : check r.texts r.ceilings inst ≡ ok tt
    pub persisted : IsPersisted r.slugs inst Obs slug false
    pub exclusive : is_byoc inst ≡ false → IsExclusive r.public.route Obs inst slug (ok tt)

  -- Nothing of the instance is left on a tenant's cluster, or it was on none.
  abbrev pub HasNoRemote : LlmInstance → Type 0
  HasNoRemote inst =
      (inst.status.active_byoc_kubeconfig_secret_name ≡ "") ⊎ HasLeft Obs (byoc_config r) inst

  -- The calls of `finalizeLLMInstance`: the finalizer goes last, from the instance given or from one
  -- that was read again.
  pub data IsFinalizeCall (inst : LlmInstance) : Call → Type 0 where
    cleans_up : {c : Call} → IsCleanupCall Obs (byoc_config r) inst c → IsFinalizeCall inst c
    reads_again : IsFinalizeCall inst (get_instance r.slugs.reader key)
    drops_finalizer :
        (i : LlmInstance)
        → r.contains_finalizer inst.meta.finalizers instance_finalizer ≡ true
        → HasNoRemote inst
        → (i ≡ inst) ⊎ Obs (get_instance r.slugs.reader key) (ok i)
        → IsFinalizeCall inst (update_instance (without_instance_finalizer r i))

  -- The calls of `Reconcile`.
  pub data IsReconcileCall : Call → Type 0 where
    reads : IsReconcileCall (get_instance r.slugs.reader key)
    -- for an instance that is being deleted
    finalizes :
        {inst : LlmInstance} {c : Call}
        → Obs (get_instance r.slugs.reader key) (ok inst)
        → is_some inst.meta.deleting ≡ true
        → IsFinalizeCall inst c
        → IsReconcileCall c
    -- before the checks are passed
    refuses :
        (inst : LlmInstance) (cause : Error) {c : Call}
        → IsShown inst
        → IsRejectCall r.slugs inst cause c
        → IsReconcileCall c
    upgrades_auth :
        {inst : LlmInstance} {chosen : Chosen} {c : Call}
        → Obs (get_instance r.slugs.reader key) (ok inst)
        → select_slug r.slugs inst ≡ ok chosen
        → IsAuthCall Obs r.middlewares inst
            (llama_labels inst.meta.name)
            (auth_middleware_name (service_name inst))
            (auth_address r.middlewares r.auth_service_url inst chosen.slug)
            false
            c
        → IsReconcileCall c
    rejects_settings :
        {inst : LlmInstance} {e : Error}
        → Obs (get_instance r.slugs.reader key) (ok inst)
        → check r.texts r.ceilings inst ≡ err e
        → IsReconcileCall
            (update_instance_status (rejected_settings r inst (r.prints.show_error e)))
    adds_finalizer :
        {inst : LlmInstance}
        → Obs (get_instance r.slugs.reader key) (ok inst)
        → check r.texts r.ceilings inst ≡ ok tt
        → IsReconcileCall (
            update_instance
              (with_finalizers inst (r.add_finalizer inst.meta.finalizers instance_finalizer)))
    persists_slug :
        {inst : LlmInstance} {c : Call}
        → Obs (get_instance r.slugs.reader key) (ok inst)
        → check r.texts r.ceilings inst ≡ ok tt
        → IsSlugCall r.slugs inst c
        → IsReconcileCall c
    checks_route : {c : Call} → IsRouteRead r.public.route c → IsReconcileCall c
    -- behind them
    reports :
        {inst : LlmInstance} (after : LlmInstance) {slug : String}
        → IsCleared inst slug
        → IsShown after
        → IsReconcileCall (
            update_instance_status (
              with_status r.slugs.set_condition after false "Provisioning" ""
                "BYOCTargetCleanupFailed" "Cannot safely clean up the previous BYOC target"))
    moves :
        {inst : LlmInstance} {slug : String} {c : Call}
        → IsCleared inst slug
        → IsMoveCall Obs (byoc_config r) inst c
        → IsReconcileCall c
    provisions :
        {inst after : LlmInstance} {slug : String} {c : Call}
        → IsCleared inst slug
        → IsShown after
        → (inst.status.active_byoc_kubeconfig_secret_name ≡ "" → after ≡ inst)
        → is_byoc after ≡ true
        → IsCallOf c (r.reconcile_byoc after slug (model_for_instance r.texts inst))
        → IsReconcileCall c
    hosted :
        {inst after : LlmInstance} {slug : String} {c : Call}
        → IsCleared inst slug
        → IsShown after
        → (inst.status.active_byoc_kubeconfig_secret_name ≡ "" → after ≡ inst)
        → is_byoc after ≡ false
        → IsHostedCall Obs r (forget_target after) slug (model_for_instance r.texts inst) c
        → IsReconcileCall c
