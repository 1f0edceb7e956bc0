-- ===== src/Hosted/Backend.antt =====
-- The cluster objects behind a hosted instance's route, in
-- internal/controller/llminstance_controller.go: `reconcileDeployment` and `reconcileService`.
pub mod Owned
use showroom_msp_private_llm.Prelude.{
  String, Bool, true, false, none, [], ◌∷◌, ◌||◌, not, if◌then◌else◌,
}
use showroom_msp_private_llm.Prelude.Text.{◌+++◌}
use showroom_msp_private_llm.Prelude.Dict.{Dict}
use showroom_msp_private_llm.Kube.{ObjectMeta, LlmInstance}
use showroom_msp_private_llm.Kube.Workloads.{home, Resources, Deployment, Service}
use showroom_msp_private_llm.Api.{
  Error, not_found, rejection, Result, ok, err, Key, Api, pure, throw, ◌>>=◌, request, attempt,
  lift, get_deployment, create_deployment, update_deployment, get_service, create_service,
}
use showroom_msp_private_llm.Slug.Ownership.{owns_llm_resource}
use showroom_msp_private_llm.Hosted.Models.{ModelSelection}
use showroom_msp_private_llm.Hosted.Deployments.{
  desired_replicas, ensure_deployment_replicas, effective_dns_policy, ensure_deployment_dns_policy,
}
use showroom_msp_private_llm.Hosted.Containers.{build_deployment, ensure_deployment_model}

-- Of the Kubernetes libraries: `apiequality.Semantic.DeepEqual` on resources, and
-- `ctrl.SetControllerReference` with the instance as owner.
pub record BackendLibraries : Type 0 where
  pub same_resources : Resources → Resources → Bool
  pub own_deployment : LlmInstance → Deployment → Result Deployment
  pub own_service : LlmInstance → Service → Result Service

-- `errSlugBackendOwnership`
abbrev pub foreign_backend : Error
foreign_backend = rejection "named hosted backend is not controlled by this LLMInstance"

abbrev pub service_name : LlmInstance → String
service_name inst = inst.meta.name +++ "-llama"

abbrev pub backend_key : LlmInstance → String → Key
backend_key inst name = record { namespace = inst.meta.namespace; name = name }

-- `llamaLabels`
abbrev pub llama_labels : String → Dict
llama_labels name =
    ("app.kubernetes.io/name", "llama-cpp-server") ∷ ("llm.privatellms.msp/instance", name) ∷ []

abbrev pub fresh_meta : String → String → Dict → ObjectMeta
fresh_meta namespace name labels = record {
  namespace = namespace;
  name = name;
  uid = "";
  resource_version = "";
  generation = 0;
  created = none;
  deleting = none;
  labels = labels;
  annotations = [];
  controller = none;
  finalizers = [];
  owners = [];
}

-- The Service that `reconcileService` creates.
unfoldable pub desired_service : LlmInstance → Dict → String → Service
desired_service inst labels name = record {
  meta = fresh_meta inst.meta.namespace name labels;
  type = "";
  selector = labels;
  ports =
      record { name = "http"; port = 8000; target_port = 8000; node_port = 0; protocol = "TCP" }
      ∷ [];
  load_balancer = [];
}

module _ (libraries : BackendLibraries) where
  -- The changes of `reconcileDeployment` to an existing Deployment, and whether there are any.
  unfoldable pub ensure_deployment : LlmInstance → ModelSelection → Deployment → Deployment × Bool
  ensure_deployment inst model existing =
      let (scaled, replicas_changed) =
        ensure_deployment_replicas existing (desired_replicas inst) in
      let (served, model_changed) =
        ensure_deployment_model libraries.same_resources scaled model [] in
      let (resolved, dns_changed) =
        ensure_deployment_dns_policy served (effective_dns_policy inst) in
      (resolved, replicas_changed || (model_changed || dns_changed))

  abbrev create_new_deployment : LlmInstance → Deployment → Api (Unit {0})
  create_new_deployment inst draft = do
    deploy ← lift (libraries.own_deployment inst draft)
    _ ← request (create_deployment home deploy)
    pure tt

  abbrev update_if_changed : Deployment × Bool → Api (Unit {0})
  update_if_changed (deploy, changed) =
      if not changed then pure tt else do _ ← request (update_deployment home deploy); pure tt

  abbrev reconcile_read_deployment :
      LlmInstance → Dict → ModelSelection → Result Deployment → Api (Unit {0})
  reconcile_read_deployment inst labels model (err not_found) =
      create_new_deployment inst (build_deployment inst labels (desired_replicas inst) model)
  reconcile_read_deployment inst labels model (err e) = throw e
  reconcile_read_deployment inst labels model (ok existing) =
      if not (owns_llm_resource inst existing.meta)
      then throw foreign_backend
      else update_if_changed (ensure_deployment inst model existing)

  -- `reconcileDeployment`
  unfoldable pub reconcile_deployment : LlmInstance → Dict → ModelSelection → Api (Unit {0})
  reconcile_deployment inst labels model = do
    found ← attempt (request (get_deployment home (backend_key inst (service_name inst))))
    reconcile_read_deployment inst labels model found

  abbrev create_new_service : LlmInstance → Service → Api (Unit {0})
  create_new_service inst draft = do
    service ← lift (libraries.own_service inst draft)
    _ ← request (create_service home service)
    pure tt

  abbrev reconcile_read_service : LlmInstance → Dict → String → Result Service → Api (Unit {0})
  reconcile_read_service inst labels name (err not_found) =
      create_new_service inst (desired_service inst labels name)
  reconcile_read_service inst labels name (err e) = throw e
  reconcile_read_service inst labels name (ok service) =
      if not (owns_llm_resource inst service.meta) then throw foreign_backend else pure tt

  -- `reconcileService`
  unfoldable pub reconcile_service : LlmInstance → Dict → String → Api (Unit {0})
  reconcile_service inst labels name = do
    found ← attempt (request (get_service home (backend_key inst name)))
    reconcile_read_service inst labels name found
