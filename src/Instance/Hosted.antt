-- ===== src/Instance/Hosted.antt =====
-- The part of `Reconcile` for a hosted workload: what it writes, and what it has seen when it
-- publishes the instance as ready.
use showroom_msp_private_llm.Prelude.{String, true, false, not, true_of_not}
use showroom_msp_private_llm.Prelude.Text.{◌+++◌}
use showroom_msp_private_llm.Prelude.Dict.{Dict}
use showroom_msp_private_llm.Kube.{LlmInstance}
use showroom_msp_private_llm.Kube.Status.{
  with_status, update_provisioning_status, update_ready_status,
}
use showroom_msp_private_llm.Api.{Error, Result, ok, err, Call, Answer, update_instance_status, Api}
use showroom_msp_private_llm.Api.Ensures.{
  Ensures, done, Ensures-bind, Ensures-attempt, Ensures-call, Ensures-calls, Ensures-if,
}
use showroom_msp_private_llm.Slug.Ownership.Rejected.{IsRejectCall, reject_slug-Ensures}
use showroom_msp_private_llm.Hosted.Models.{ModelSelection}
use showroom_msp_private_llm.Hosted.Deployments.{Readiness}
use showroom_msp_private_llm.Hosted.Ingresses.{instance_endpoint}
use showroom_msp_private_llm.Hosted.Ingresses.Guarded.{IsIngressCall, reconcile_ingress-Ensures}
use showroom_msp_private_llm.Hosted.Backend.{service_name, llama_labels}
use showroom_msp_private_llm.Hosted.Backend.Owned.{
  IsDeploymentCall, IsServiceCall, reconcile_deployment-Ensures, reconcile_service-Ensures,
}
use showroom_msp_private_llm.Hosted.Middlewares.{
  strip_middleware_name, auth_middleware_name, auth_address,
}
use showroom_msp_private_llm.Hosted.Middlewares.Stripped.{
  IsStripCall, reconcile_strip_middleware-Ensures,
}
use showroom_msp_private_llm.Hosted.Middlewares.Authenticated.{
  IsAuthCall, reconcile_auth_middleware-Ensures,
}
use showroom_msp_private_llm.Hosted.Readiness.Probed.{
  IsServed, IsReadiness, IsReadinessCall, evaluate_instance_readiness-Ensures,
}
use showroom_msp_private_llm.Instance.{
  Requeue, Reconciler, refuse, go_on, guard, publish_readiness, reconcile_hosted,
}

module _ (Obs : (c : Call) → Result (Answer c) → Type 0) (r : Reconciler) (inst : LlmInstance)
    (slug : String) where
  abbrev labels : Dict
  labels = llama_labels inst.meta.name

  abbrev service : String
  service = service_name inst

  abbrev prefix : String
  prefix = "/llm/" +++ slug

  -- The calls for a hosted workload: those of its five objects, those that look whether it serves,
  -- those of a refusal, and a status. That status is `Ready` only on evidence that the instance
  -- serves.
  pub data IsHostedCall (model : ModelSelection) : Call → Type 0 where
    deployment :
        {c : Call} → IsDeploymentCall Obs r.backend inst labels model c → IsHostedCall model c
    backend : {c : Call} → IsServiceCall Obs r.backend inst labels service c → IsHostedCall model c
    strip :
        {c : Call}
        → IsStripCall Obs r.middlewares inst labels (strip_middleware_name service) prefix c
        → IsHostedCall model c
    auth :
        {c : Call}
        → IsAuthCall Obs r.middlewares inst labels
            (auth_middleware_name service)
            (auth_address r.middlewares r.auth_service_url inst slug)
            true
            c
        → IsHostedCall model c
    ingress :
        {c : Call} → IsIngressCall Obs r.public inst labels service prefix c → IsHostedCall model c
    probes : {c : Call} → IsReadinessCall Obs r.prints inst service c → IsHostedCall model c
    refuses : (cause : Error) {c : Call} → IsRejectCall r.slugs inst cause c → IsHostedCall model c
    waits :
        (s : Readiness)
        → IsHostedCall model (
            update_instance_status (
              with_status r.slugs.set_condition inst false "Provisioning"
                (instance_endpoint r.public slug)
                s.reason
                s.message))
    serves :
        IsServed Obs r.prints inst service
        → IsHostedCall model (
            update_instance_status (
              with_status r.slugs.set_condition inst true "Ready"
                (instance_endpoint r.public slug)
                "Provisioned"
                "LLM instance is ready"))

  module _ {P : Call → Type 0}
      (refused : (cause : Error) (c : Call) → IsRejectCall r.slugs inst cause c → P c) where
    pub refuse-Ensures : (cause : Error) → Ensures Obs P (λ _. Unit) (refuse r inst cause)
    refuse-Ensures cause =
        Ensures-bind (Ensures-calls (refused cause) (reject_slug-Ensures r.slugs inst cause Obs))
          (λ _ _. done tt) (λ _ _. tt)

    -- A step whose error is refused.
    pub guard-Ensures :
        {step : Api (Unit {0})} {next : Api Requeue} {R : Result (Unit {0}) → Type 0}
        → Ensures Obs P R step
        → (R (ok tt) → Ensures Obs P (λ _. Unit) next)
        → Ensures Obs P (λ _. Unit) (guard r inst step next)
    guard-Ensures {next} {R} first rest = Ensures-attempt first decide
      where
        decide : (a : Result (Unit {0})) → R a → Ensures Obs P (λ _. Unit) (go_on r inst next a)
        decide (ok tt) h = rest h
        decide (err e) h = refuse-Ensures e

  publish_readiness-Ensures :
      (model : ModelSelection) (s : Readiness)
      → IsReadiness Obs r.prints inst service (ok s)
      → Ensures Obs (IsHostedCall model) (λ _. Unit) (publish_readiness r inst slug s)
  unfolding update_provisioning_status update_ready_status
  publish_readiness-Ensures model s served =
      Ensures-if (not s.ready) (λ _. Ensures-call _ (waits s) (λ _ _. done tt) (λ _ _. tt))
        (λ stands.
          Ensures-call _ (serves (served (true_of_not _ stands))) (λ _ _. done tt) (λ _ _. tt))

  pub reconcile_hosted-Ensures :
      (model : ModelSelection)
      → Ensures Obs (IsHostedCall model) (λ _. Unit) (reconcile_hosted r inst slug model)
  unfolding reconcile_hosted
  reconcile_hosted-Ensures model =
      let refused : (cause : Error) (c : Call)
          → IsRejectCall r.slugs inst cause c
          → IsHostedCall model c =
        λ cause c h. refuses cause h in
      guard-Ensures refused
        (Ensures-calls (λ c h. deployment h)
          (reconcile_deployment-Ensures Obs r.backend inst labels model))
        (λ _.
          guard-Ensures refused
            (Ensures-calls (λ c h. backend h)
              (reconcile_service-Ensures Obs r.backend inst labels service))
            (λ _.
              guard-Ensures refused
                (Ensures-calls (λ c h. strip h)
                  (reconcile_strip_middleware-Ensures Obs r.middlewares inst labels service prefix))
                (λ _.
                  guard-Ensures refused
                    (Ensures-calls (λ c h. auth h)
                      (reconcile_auth_middleware-Ensures Obs r.middlewares inst labels
                        r.auth_service_url service slug true))
                    (λ _.
                      guard-Ensures refused
                        (Ensures-calls (λ c h. ingress h)
                          (reconcile_ingress-Ensures Obs r.public inst labels service prefix))
                        (λ _.
                          Ensures-bind
                            (Ensures-calls (λ c h. probes h)
                              (evaluate_instance_readiness-Ensures Obs r.prints inst service))
                            (λ s served. publish_readiness-Ensures model s served) (λ _ _. tt))))))
