-- ===== src/Instance.antt =====
-- The instance controller's own loop: `Reconcile`, `getInstance`, `rejectModelSettings` and
-- `finalizeLLMInstance` of internal/controller/llminstance_controller.go. When it leaves a
-- tenant's own cluster, it calls `cleanupChangedBYOCTarget` and `cleanupBYOC` of Byoc/Departure.
pub mod Hosted
pub mod Calls
pub mod Finalized
pub mod Guarded
pub mod Bounded
use showroom_msp_private_llm.Prelude.{
  ℕ, zero, suc, String, Bool, true, false, Option, none, some, List, not, ◌||◌, ◌==◌, if◌then◌else◌,
}
use showroom_msp_private_llm.Prelude.Text.{◌+++◌}
use showroom_msp_private_llm.Kube.{LlmInstance, InstanceStatus, is_byoc, is_some}
use showroom_msp_private_llm.Kube.Status.{
  with_status, update_provisioning_status, update_ready_status,
}
use showroom_msp_private_llm.Api.{
  Error, not_found, conflict, Result, ok, err, Key, Call, get_instance, update_instance,
  update_instance_status, Api, pure, throw, ◌>>=◌, ◌>>◌, request, attempt,
}
use showroom_msp_private_llm.Byoc.Target.{TargetLibraries, TlsConfig}
use showroom_msp_private_llm.Byoc.Certificates.{CertificateLibraries}
use showroom_msp_private_llm.Byoc.Departure.{ByocConfig, cleanup_byoc, cleanup_changed_byoc_target}
use showroom_msp_private_llm.Slug.Policy.{Chosen}
use showroom_msp_private_llm.Slug.Ownership.{Config, select_slug, ensure_slug, reject_slug}
use showroom_msp_private_llm.Slug.Routes.{check_slug_route}
use showroom_msp_private_llm.Hosted.Models.{ModelSelection, Texts, model_for_instance}
use showroom_msp_private_llm.Hosted.Ceilings.{ModelServerCeilings, check}
use showroom_msp_private_llm.Hosted.Deployments.{Readiness}
use showroom_msp_private_llm.Hosted.Ingresses.{PublicConfig, instance_endpoint, reconcile_ingress}
use showroom_msp_private_llm.Hosted.Backend.{
  BackendLibraries, service_name, llama_labels, reconcile_deployment, reconcile_service,
}
use showroom_msp_private_llm.Hosted.Middlewares.{
  MiddlewareLibraries, reconcile_strip_middleware, reconcile_auth_middleware,
  upgrade_existing_auth_middleware,
}
use showroom_msp_private_llm.Hosted.Readiness.{Prints, evaluate_instance_readiness}

-- `ctrl.Result`
pub data Requeue : Type 0 where
  never at_once : Requeue
  after_seconds : ℕ → Requeue

-- The fields of `LLMInstanceReconciler`, and of the Kubernetes libraries the tests and changes of
-- finalizers and `apiequality.Semantic.DeepEqual` on statuses. `tls`, `targets` and `certificates` are
-- for tenants' clusters. `reconcile_byoc` stands for `reconcileBYOC`, whose body is not modelled:
-- nothing is assumed of it.
pub record Reconciler : Type 0 where
  pub slugs : Config
  pub public : PublicConfig
  pub backend : BackendLibraries
  pub middlewares : MiddlewareLibraries
  pub prints : Prints
  pub texts : Texts
  pub ceilings : ModelServerCeilings
  pub auth_service_url : String
  pub same_status : InstanceStatus → InstanceStatus → Bool
  pub contains_finalizer : List String → String → Bool
  pub add_finalizer : List String → String → List String
  pub remove_finalizer : List String → String → List String
  pub tls : TlsConfig
  pub targets : TargetLibraries
  pub certificates : CertificateLibraries
  pub reconcile_byoc : LlmInstance → String → ModelSelection → Api Requeue

-- What the cleanups of tenants' clusters use of it.
abbrev pub byoc_config : Reconciler → ByocConfig
byoc_config r = record {
  slugs = r.slugs;
  tls = r.tls;
  targets = r.targets;
  certificates = r.certificates;
}

abbrev pub instance_finalizer : String
instance_finalizer = "llm.privatellms.msp/llminstance-finalizer"

abbrev with_finalizers : LlmInstance → List String → LlmInstance
with_finalizers inst names = record inst { meta = record (inst.meta) { finalizers = names } }

-- The object without the name of a remote target, from which a hosted workload is reconciled.
unfoldable pub forget_target : LlmInstance → LlmInstance
forget_target inst = record inst {
  status = record (inst.status) { active_byoc_kubeconfig_secret_name = "" };
}

module _ (r : Reconciler) where
  -- `RemoveFinalizer`
  unfoldable pub without_instance_finalizer : LlmInstance → LlmInstance
  without_instance_finalizer inst =
      with_finalizers inst (r.remove_finalizer inst.meta.finalizers instance_finalizer)

  abbrev retry_fresh : (LlmInstance → Api (Unit {0})) → Result LlmInstance → Api (Unit {0})
  retry_fresh again (ok fresh) = again fresh
  retry_fresh again (err e) = pure tt

  abbrev after_finalizer_update :
      (LlmInstance → Api (Unit {0})) → Key → Result LlmInstance → Api (Unit {0})
  after_finalizer_update again key (ok _) = pure tt
  after_finalizer_update again key (err not_found) = pure tt
  after_finalizer_update again key (err conflict) = do
    fresh ← attempt (request (get_instance r.slugs.reader key))
    retry_fresh again fresh
  after_finalizer_update again key (err e) = throw e

  -- The loop of `finalizeLLMInstance`, with the number of rounds that are left.
  unfoldable pub remove_rounds : ℕ → Key → LlmInstance → Api (Unit {0})
  remove_rounds zero key inst = pure tt
  remove_rounds (suc n) key inst = do
    updated ← attempt (request (update_instance (without_instance_finalizer inst)))
    after_finalizer_update (remove_rounds n key) key updated

  -- `finalizeLLMInstance`
  unfoldable pub finalize_llm_instance : Key → LlmInstance → Api (Unit {0})
  finalize_llm_instance key inst =
      if not (r.contains_finalizer inst.meta.finalizers instance_finalizer)
      then pure tt
      else if is_byoc inst || not (inst.status.active_byoc_kubeconfig_secret_name == "")
      then cleanup_byoc (byoc_config r) inst >> remove_rounds 3 key inst
      else remove_rounds 3 key inst

  abbrev rejected_settings : LlmInstance → String → LlmInstance
  rejected_settings inst message =
      with_status r.slugs.set_condition inst false "Rejected" "" "ModelSettingsRejected" message

  -- `rejectModelSettings`
  unfoldable pub reject_model_settings : LlmInstance → String → Api (Unit {0})
  reject_model_settings inst message =
      if r.same_status inst.status (rejected_settings inst message).status
      then pure tt
      else do _ ← request (update_instance_status (rejected_settings inst message)); pure tt

  -- `return ctrl.Result{}, r.rejectSlug(ctx, inst, err)`
  abbrev refuse : LlmInstance → Error → Api Requeue
  refuse inst cause = do e ← reject_slug r.slugs inst cause; throw e

  abbrev go_on : LlmInstance → Api Requeue → Result (Unit {0}) → Api Requeue
  go_on inst next (err e) = refuse inst e
  go_on inst next (ok _) = next

  -- `if err := step; err != nil { return ctrl.Result{}, r.rejectSlug(ctx, inst, err) }`
  abbrev guard : LlmInstance → Api (Unit {0}) → Api Requeue → Api Requeue
  guard inst step next = do result ← attempt step; go_on inst next result

  abbrev publish_readiness : LlmInstance → String → Readiness → Api Requeue
  publish_readiness inst slug s =
      if not s.ready
      then (do
        _ ←
            update_provisioning_status r.slugs.set_condition inst (instance_endpoint r.public slug)
              s.reason s.message
        pure (after_seconds 5))
      else (do
        _ ← update_ready_status r.slugs.set_condition inst (instance_endpoint r.public slug)
        pure (after_seconds 30))

  abbrev check_readiness : LlmInstance → String → Api Requeue
  check_readiness inst slug = do
    s ← evaluate_instance_readiness r.prints inst (service_name inst)
    publish_readiness inst slug s

  -- The part of `Reconcile` for a hosted workload.
  unfoldable pub reconcile_hosted : LlmInstance → String → ModelSelection → Api Requeue
  reconcile_hosted inst slug model =
      let labels = llama_labels inst.meta.name in
      let service = service_name inst in
      let prefix = "/llm/" +++ slug in
      guard inst (reconcile_deployment r.backend inst labels model) (
        guard inst (reconcile_service r.backend inst labels service) (
          guard inst (reconcile_strip_middleware r.middlewares inst labels service prefix) (
            guard inst
              (reconcile_auth_middleware r.middlewares r.auth_service_url inst labels service slug
                true)
              (guard inst (reconcile_ingress r.public inst labels service prefix)
                (check_readiness inst slug)))))

  abbrev report_cleanup : LlmInstance → Error → Api Requeue
  report_cleanup inst e = do
    _ ←
        update_provisioning_status r.slugs.set_condition inst "" "BYOCTargetCleanupFailed"
          "Cannot safely clean up the previous BYOC target"
    throw e

  abbrev after_cleanup : String → ModelSelection → LlmInstance × Result (Unit {0}) → Api Requeue
  after_cleanup slug model (inst, err e) = report_cleanup inst e
  after_cleanup slug model (inst, ok _) =
      if is_byoc inst
      then r.reconcile_byoc inst slug model
      else reconcile_hosted (forget_target inst) slug model

  -- `Reconcile` behind its check of the route.
  abbrev reconcile_target : LlmInstance → String → Api Requeue
  reconcile_target inst slug = do
    cleaned ← cleanup_changed_byoc_target (byoc_config r) inst slug
    after_cleanup slug (model_for_instance r.texts inst) cleaned

  abbrev reconcile_routed : LlmInstance → String → Api Requeue
  reconcile_routed inst slug =
      if is_byoc inst
      then reconcile_target inst slug
      else guard inst (check_slug_route r.public.route inst slug) (reconcile_target inst slug)

  abbrev after_slug : LlmInstance × Result (String × Bool) → Api Requeue
  after_slug (inst, err e) = refuse inst e
  after_slug (inst, ok (slug, requeue)) =
      if requeue then pure at_once else reconcile_routed inst slug

  abbrev after_finalizer_added : Result LlmInstance → Api Requeue
  after_finalizer_added (ok _) = pure at_once
  after_finalizer_added (err _) = pure (after_seconds 5)

  abbrev reconcile_allowed : LlmInstance → Api Requeue
  reconcile_allowed inst =
      if not (r.contains_finalizer inst.meta.finalizers instance_finalizer)
      then (do
        updated ← attempt (
            request (
              update_instance
                (with_finalizers inst (r.add_finalizer inst.meta.finalizers instance_finalizer))))
        after_finalizer_added updated)
      else (do handed_out ← ensure_slug r.slugs inst; after_slug handed_out)

  abbrev after_check : LlmInstance → Result (Unit {0}) → Api Requeue
  after_check inst (err e) = do _ ← reject_model_settings inst (r.prints.show_error e); pure never
  after_check inst (ok _) = reconcile_allowed inst

  abbrev after_select : LlmInstance → Result Chosen → Api Requeue
  after_select inst (err e) = refuse inst e
  after_select inst (ok _) =
      guard inst (upgrade_existing_auth_middleware r.middlewares r.auth_service_url r.slugs inst)
        (after_check inst (check r.texts r.ceilings inst))

  abbrev reconcile_present : Key → LlmInstance → Api Requeue
  reconcile_present key inst =
      if is_some inst.meta.deleting
      then (do _ ← finalize_llm_instance key inst; pure never)
      else after_select inst (select_slug r.slugs inst)

  -- What follows `getInstance`.
  abbrev after_get_instance : Key → Result LlmInstance → Api Requeue
  after_get_instance key (ok inst) = reconcile_present key inst
  after_get_instance key (err not_found) = pure never
  after_get_instance key (err e) = throw e

  -- `Reconcile`
  unfoldable pub reconcile_llm_instance : Key → Api Requeue
  reconcile_llm_instance key = do
    found ← attempt (request (get_instance r.slugs.reader key))
    after_get_instance key found
