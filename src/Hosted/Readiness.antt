-- ===== src/Hosted/Readiness.antt =====
-- Whether a hosted instance is ready: `evaluateInstanceReadiness`, `serviceHasReadyEndpoints`,
-- `serviceProbeURL` and `runServiceHealthCheck` of internal/controller/llminstance_controller.go.
-- The probe itself is a call, to the `ServiceHealthChecker` or an HTTP client.
pub mod Probed
use showroom_msp_private_llm.Prelude.{ℕ, String, Bool, true, false, List, not, if◌then◌else◌}
use showroom_msp_private_llm.Prelude.Text.{◌+++◌}
use showroom_msp_private_llm.Prelude.Int.{ℤ, pos}
use showroom_msp_private_llm.Kube.{LlmInstance}
use showroom_msp_private_llm.Kube.Workloads.{home, Cluster, Subset, Deployment}
use showroom_msp_private_llm.Api.{
  Error, not_found, Result, ok, err, Key, Api, pure, throw, ◌>>=◌, request, attempt, get_deployment,
  get_endpoints, check_health,
}
use showroom_msp_private_llm.Hosted.Deployments.{Readiness, deployment_readiness, any_ready_subset}
use showroom_msp_private_llm.Hosted.Backend.{backend_key, service_name}

abbrev still_waiting : String → String → Api Readiness
still_waiting reason message = pure (record { ready = false; reason = reason; message = message })

abbrev pub provisioned : Readiness
provisioned = record { ready = true; reason = "Provisioned"; message = "LLM instance is ready" }

-- The Kubernetes libraries' and Go's texts: an integer, and an error.
pub record Prints : Type 0 where
  pub show : ℤ → String
  pub show_error : Error → String

-- `serviceProbeURL` on the port and path that it is called with
abbrev pub service_probe_url : String → String → String
service_probe_url namespace service =
    "http://" +++ service +++ "." +++ namespace +++ ".svc.cluster.local:8000/health"

-- What `serviceHasReadyEndpoints` returns without an error: whether there are some, and a message.
abbrev endpoints_message : String → Result (List Subset) → Api (Bool × String)
endpoints_message service (ok subsets) =
    if any_ready_subset subsets 8000
    then pure (true, "")
    else pure (false, "Service \"" +++ service +++ "\" has no ready endpoints on port 8000")
endpoints_message service (err not_found) =
    pure (false, "Endpoints for Service \"" +++ service +++ "\" not found")
endpoints_message service (err e) = throw e

-- `serviceHasReadyEndpoints`, on port 8000
unfoldable pub service_has_ready_endpoints : Cluster → Key → Api (Bool × String)
service_has_ready_endpoints cluster key = do
  found ← attempt (request (get_endpoints cluster key))
  endpoints_message key.name found

module _ (prints : Prints) where
  abbrev report_probe : String → Result (Unit {0}) → Api Readiness
  report_probe url (ok _) = pure provisioned
  report_probe url (err e) =
      still_waiting "HealthCheckFailed"
        ("Service probe failed for " +++ url +++ ": " +++ prints.show_error e)

  abbrev probe : LlmInstance → String → Api Readiness
  probe inst service = do
    replied ← attempt (request (check_health (service_probe_url inst.meta.namespace service)))
    report_probe (service_probe_url inst.meta.namespace service) replied

  abbrev check_endpoints : LlmInstance → String → Bool × String → Api Readiness
  check_endpoints inst service (found, message) =
      if not found then still_waiting "ServiceEndpointsMissing" message else probe inst service

  abbrev check_deployment : LlmInstance → String → Readiness → Api Readiness
  check_deployment inst service r = if not r.ready then pure r else do
    endpoints ← service_has_ready_endpoints home (backend_key inst service)
    check_endpoints inst service endpoints

  abbrev read_deployment : LlmInstance → String → Result Deployment → Api Readiness
  read_deployment inst service (ok deploy) =
      check_deployment inst service (deployment_readiness prints.show deploy (service_name inst))
  read_deployment inst service (err not_found) =
      still_waiting "DeploymentNotFound" ("Deployment \"" +++ service_name inst +++ "\" not found")
  read_deployment inst service (err e) = throw e

  -- `evaluateInstanceReadiness`
  unfoldable pub evaluate_instance_readiness : LlmInstance → String → Api Readiness
  evaluate_instance_readiness inst service = do
    found ← attempt (request (get_deployment home (backend_key inst (service_name inst))))
    read_deployment inst service found
