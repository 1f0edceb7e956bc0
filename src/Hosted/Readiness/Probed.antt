-- ===== src/Hosted/Readiness/Probed.antt =====
-- What `evaluateInstanceReadiness` has seen when it reports an instance as ready, and what it calls.
use showroom_msp_private_llm.Prelude.{
  String, ◌≡◌, Bool, true, List, not, true_of_not, false_of_not, true≢false, sym, ◌∙◌,
}
use showroom_msp_private_llm.Kube.{LlmInstance}
use showroom_msp_private_llm.Kube.Workloads.{home, Subset, Deployment}
use showroom_msp_private_llm.Api.{
  not_found, conflict, already_exists, rejection, failure, tls_not_ready, join, Result, ok, err,
  Call, Answer, get_deployment, get_endpoints, check_health, ◌>>=◌,
}
use showroom_msp_private_llm.Api.Ensures.{Ensures, done, Ensures-bind, Ensures-try, Ensures-if}
use showroom_msp_private_llm.Hosted.Deployments.{Readiness, deployment_readiness, any_ready_subset}
use showroom_msp_private_llm.Hosted.Deployments.Ready.{IsRolledOut, deployment_readiness_iff}
use showroom_msp_private_llm.Hosted.Backend.{backend_key, service_name}
use showroom_msp_private_llm.Hosted.Readiness.{
  Prints, service_probe_url, endpoints_message, service_has_ready_endpoints, report_probe, probe,
  check_endpoints, read_deployment, evaluate_instance_readiness,
}

module _ (Obs : (c : Call) → Result (Answer c) → Type 0) (prints : Prints) (inst : LlmInstance)
    (service : String) where
  -- Evidence that the instance serves: the API returned a Deployment that is rolled out and
  -- endpoints of the service with a ready address on port 8000, and the service's probe succeeded.
  pub record IsServed : Type 0 where
    pub deploy : Deployment
    pub read : Obs (get_deployment home (backend_key inst (service_name inst))) (ok deploy)
    pub rolled_out : IsRolledOut deploy
    pub subsets : List Subset
    pub listed : Obs (get_endpoints home (backend_key inst service)) (ok subsets)
    pub addressed : any_ready_subset subsets 8000 ≡ true
    pub healthy : Obs (check_health (service_probe_url inst.meta.namespace service)) (ok tt)

  abbrev pub IsReadiness : Result Readiness → Type 0
  IsReadiness (ok r) = r.ready ≡ true → IsServed
  IsReadiness (err e) = Unit

  -- Nothing is written.
  pub data IsReadinessCall : Call → Type 0 where
    deployment : IsReadinessCall (get_deployment home (backend_key inst (service_name inst)))
    endpoints : IsReadinessCall (get_endpoints home (backend_key inst service))
    health : IsReadinessCall (check_health (service_probe_url inst.meta.namespace service))

  abbrev IsFound : Result (Bool × String) → Type 0
  IsFound (ok (found, _)) =
      found ≡ true
      → (subsets : List Subset) × Obs (get_endpoints home (backend_key inst service)) (ok subsets)
        × (any_ready_subset subsets 8000 ≡ true)
  IsFound (err e) = Unit

  endpoints-Ensures :
      Ensures Obs IsReadinessCall IsFound
        (service_has_ready_endpoints home (backend_key inst service))
  unfolding service_has_ready_endpoints
  endpoints-Ensures = Ensures-try _ endpoints judge
    where
      judge :
          (r : Result (List Subset))
          → Obs (get_endpoints home (backend_key inst service)) r
          → Ensures Obs IsReadinessCall IsFound (endpoints_message service r)
      judge (ok subsets) shown =
          Ensures-if (any_ready_subset subsets 8000) (λ some. done (λ _. (subsets, shown, some)))
            (λ _. done (λ h. cc))
      judge (err not_found) shown = done (λ h. cc)
      judge (err conflict) shown = done tt
      judge (err already_exists) shown = done tt
      judge (err (rejection _)) shown = done tt
      judge (err (failure _)) shown = done tt
      judge (err (tls_not_ready _)) shown = done tt
      judge (err (join _ _)) shown = done tt

  module _ (deploy : Deployment)
      (read : Obs (get_deployment home (backend_key inst (service_name inst))) (ok deploy))
      (rolled_out : IsRolledOut deploy) where
    probe-Ensures :
        (subsets : List Subset)
        → Obs (get_endpoints home (backend_key inst service)) (ok subsets)
        → any_ready_subset subsets 8000 ≡ true
        → Ensures Obs IsReadinessCall IsReadiness (probe prints inst service)
    probe-Ensures subsets listed addressed = Ensures-try _ health judge
      where
        judge :
            (r : Result (Unit {0}))
            → Obs (check_health (service_probe_url inst.meta.namespace service)) r
            → Ensures Obs IsReadinessCall IsReadiness
                (report_probe prints (service_probe_url inst.meta.namespace service) r)
        judge (ok tt) shown = done λ _. record {
          deploy = deploy;
          read = read;
          rolled_out = rolled_out;
          subsets = subsets;
          listed = listed;
          addressed = addressed;
          healthy = shown;
        }
        judge (err e) shown = done (λ h. cc)

    serve-Ensures : Ensures Obs IsReadinessCall IsReadiness (
        service_has_ready_endpoints home (backend_key inst service)
        >>= check_endpoints prints inst service)
    serve-Ensures =
        Ensures-bind endpoints-Ensures
          (λ found evidence.
            Ensures-if (not found.0) (λ _. done (λ h. cc))
              (λ some.
                let (subsets, listed, addressed) = evidence (true_of_not _ some) in
                probe-Ensures subsets listed addressed))
          (λ _ _. tt)

  read_deployment-Ensures :
      (r : Result Deployment)
      → Obs (get_deployment home (backend_key inst (service_name inst))) r
      → Ensures Obs IsReadinessCall IsReadiness (read_deployment prints inst service r)
  read_deployment-Ensures (err not_found) shown = done (λ h. cc)
  read_deployment-Ensures (err conflict) shown = done tt
  read_deployment-Ensures (err already_exists) shown = done tt
  read_deployment-Ensures (err (rejection _)) shown = done tt
  read_deployment-Ensures (err (failure _)) shown = done tt
  read_deployment-Ensures (err (tls_not_ready _)) shown = done tt
  read_deployment-Ensures (err (join _ _)) shown = done tt
  read_deployment-Ensures (ok deploy) shown =
      let r = deployment_readiness prints.show deploy (service_name inst) in
      Ensures-if (not r.ready)
        (λ waiting. done (λ h. absurd (true≢false (sym h ∙ false_of_not _ waiting))))
        (λ stands. serve-Ensures deploy shown (
          (deployment_readiness_iff prints.show deploy (service_name inst)).0
            (true_of_not _ stands)))

  pub evaluate_instance_readiness-Ensures :
      Ensures Obs IsReadinessCall IsReadiness (evaluate_instance_readiness prints inst service)
  unfolding evaluate_instance_readiness
  evaluate_instance_readiness-Ensures =
      Ensures-try _ deployment (λ r shown. read_deployment-Ensures r shown)
