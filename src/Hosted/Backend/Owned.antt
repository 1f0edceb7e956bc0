-- ===== src/Hosted/Backend/Owned.antt =====
-- `reconcileDeployment` and `reconcileService` write only what the instance controls.
use showroom_msp_private_llm.Prelude.{String, ◌≡◌, true, not, true_of_not, inl, inr}
use showroom_msp_private_llm.Prelude.Dict.{Dict}
use showroom_msp_private_llm.Kube.{LlmInstance}
use showroom_msp_private_llm.Kube.Workloads.{home, Deployment, Service}
use showroom_msp_private_llm.Api.{
  not_found, conflict, already_exists, rejection, failure, tls_not_ready, join, Result, ok, err,
  Result-cases, Call, Answer, get_deployment, create_deployment, update_deployment, get_service,
  create_service, ◌>>=◌,
}
use showroom_msp_private_llm.Api.Ensures.{Ensures, done, Ensures-call, Ensures-try, Ensures-if}
use showroom_msp_private_llm.Slug.Ownership.{owns_llm_resource}
use showroom_msp_private_llm.Hosted.Models.{ModelSelection}
use showroom_msp_private_llm.Hosted.Deployments.{desired_replicas}
use showroom_msp_private_llm.Hosted.Containers.{build_deployment}
use showroom_msp_private_llm.Hosted.Backend.{
  BackendLibraries, backend_key, service_name, desired_service, ensure_deployment,
  create_new_deployment, reconcile_read_deployment, reconcile_deployment, create_new_service,
  reconcile_read_service, reconcile_service,
}

module _ (Obs : (c : Call) → Result (Answer c) → Type 0) (libraries : BackendLibraries)
    (inst : LlmInstance) (labels : Dict) where
  -- The calls of `reconcileDeployment`: it reads the instance's Deployment, updates the one that it
  -- read if the instance controls it, and creates one, with the instance as controller, if there
  -- was none.
  pub data IsDeploymentCall (model : ModelSelection) : Call → Type 0 where
    reads : IsDeploymentCall model (get_deployment home (backend_key inst (service_name inst)))
    updates :
        {old : Deployment}
        → Obs (get_deployment home (backend_key inst (service_name inst))) (ok old)
        → owns_llm_resource inst old.meta ≡ true
        → IsDeploymentCall model
            (update_deployment home (ensure_deployment libraries inst model old).0)
    creates :
        {out : Deployment}
        → Obs (get_deployment home (backend_key inst (service_name inst))) (err not_found)
        → libraries.own_deployment inst (build_deployment inst labels (desired_replicas inst) model)
          ≡ ok out
        → IsDeploymentCall model (create_deployment home out)

  -- The calls of `reconcileService`, which never updates a Service.
  pub data IsServiceCall (name : String) : Call → Type 0 where
    reads : IsServiceCall name (get_service home (backend_key inst name))
    creates :
        {out : Service}
        → Obs (get_service home (backend_key inst name)) (err not_found)
        → libraries.own_service inst (desired_service inst labels name) ≡ ok out
        → IsServiceCall name (create_service home out)

  create_new-Ensures :
      (model : ModelSelection)
      → Obs (get_deployment home (backend_key inst (service_name inst))) (err not_found)
      → Ensures Obs
          (IsDeploymentCall model)
          (λ _. Unit)
          (create_new_deployment libraries inst
            (build_deployment inst labels (desired_replicas inst) model))
  unfolding ◌>>=◌
  create_new-Ensures model missing =
      let draft = build_deployment inst labels (desired_replicas inst) model in
      elim (Result-cases (libraries.own_deployment inst draft)) [
        | inl (out, e) ↦ rw e (
            Ensures-call (create_deployment home out) (IsDeploymentCall.creates missing e)
              (λ _ _. done tt) (λ _ _. tt))
        | inr (e, refused) ↦ rw refused (done tt)
      ]

  read-Ensures :
      (model : ModelSelection) (r : Result Deployment)
      → Obs (get_deployment home (backend_key inst (service_name inst))) r
      → Ensures Obs
          (IsDeploymentCall model)
          (λ _. Unit)
          (reconcile_read_deployment libraries inst labels model r)
  read-Ensures model (err not_found) shown = create_new-Ensures model shown
  read-Ensures model (err conflict) shown = done tt
  read-Ensures model (err already_exists) shown = done tt
  read-Ensures model (err (rejection _)) shown = done tt
  read-Ensures model (err (failure _)) shown = done tt
  read-Ensures model (err (tls_not_ready _)) shown = done tt
  read-Ensures model (err (join _ _)) shown = done tt
  read-Ensures model (ok old) shown =
      Ensures-if (not (owns_llm_resource inst old.meta)) (λ _. done tt)
        (λ owned.
          Ensures-if (not (ensure_deployment libraries inst model old).1) (λ _. done tt)
            (λ _.
              Ensures-call (update_deployment home (ensure_deployment libraries inst model old).0)
                (IsDeploymentCall.updates shown (true_of_not _ owned)) (λ _ _. done tt)
                (λ _ _. tt)))

  pub reconcile_deployment-Ensures :
      (model : ModelSelection)
      → Ensures Obs
          (IsDeploymentCall model)
          (λ _. Unit)
          (reconcile_deployment libraries inst labels model)
  unfolding reconcile_deployment
  reconcile_deployment-Ensures model =
      Ensures-try _ IsDeploymentCall.reads (λ r shown. read-Ensures model r shown)

  create_service-Ensures :
      (name : String)
      → Obs (get_service home (backend_key inst name)) (err not_found)
      → Ensures Obs
          (IsServiceCall name)
          (λ _. Unit)
          (create_new_service libraries inst (desired_service inst labels name))
  unfolding ◌>>=◌
  create_service-Ensures name missing =
      elim (Result-cases (libraries.own_service inst (desired_service inst labels name))) [
        | inl (out, e) ↦ rw e (
            Ensures-call (create_service home out) (IsServiceCall.creates missing e)
              (λ _ _. done tt) (λ _ _. tt))
        | inr (e, refused) ↦ rw refused (done tt)
      ]

  read_service-Ensures :
      (name : String) (r : Result Service)
      → Obs (get_service home (backend_key inst name)) r
      → Ensures Obs
          (IsServiceCall name)
          (λ _. Unit)
          (reconcile_read_service libraries inst labels name r)
  read_service-Ensures name (err not_found) shown = create_service-Ensures name shown
  read_service-Ensures name (err conflict) shown = done tt
  read_service-Ensures name (err already_exists) shown = done tt
  read_service-Ensures name (err (rejection _)) shown = done tt
  read_service-Ensures name (err (failure _)) shown = done tt
  read_service-Ensures name (err (tls_not_ready _)) shown = done tt
  read_service-Ensures name (err (join _ _)) shown = done tt
  read_service-Ensures name (ok service) shown =
      Ensures-if (not (owns_llm_resource inst service.meta)) (λ _. done tt) (λ _. done tt)

  pub reconcile_service-Ensures :
      (name : String)
      → Ensures Obs (IsServiceCall name) (λ _. Unit) (reconcile_service libraries inst labels name)
  unfolding reconcile_service
  reconcile_service-Ensures name =
      Ensures-try _ IsServiceCall.reads (λ r shown. read_service-Ensures name r shown)
