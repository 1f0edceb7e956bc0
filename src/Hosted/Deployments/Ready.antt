-- ===== src/Hosted/Deployments/Ready.antt =====
-- When a Deployment counts as ready.
use showroom_msp_private_llm.Prelude.{String, ◌≡◌, refl, true, ◌↔◌, arith}
use showroom_msp_private_llm.Prelude.Int.{ℤ, pos, ◌≤ℤ◌, le_of_not_ltb, not_ltb_of_le}
use showroom_msp_private_llm.Kube.Workloads.{Deployment}
use showroom_msp_private_llm.Hosted.Deployments.{desired_replicas_of, deployment_readiness}

-- The current generation was observed, and all desired replicas are updated, ready and available.
pub record IsRolledOut (deploy : Deployment) : Type 0 where
  pub observed : (pos deploy.meta.generation) ≤ℤ deploy.observed_generation
  pub updated : desired_replicas_of deploy.replicas ≤ℤ deploy.updated_replicas
  pub ready : desired_replicas_of deploy.replicas ≤ℤ deploy.ready_replicas
  pub available : desired_replicas_of deploy.replicas ≤ℤ deploy.available_replicas

-- `deploymentReadiness` reports a Deployment as ready exactly if it has observed its current
-- generation and as many replicas as are desired, at least one, are updated, ready and available.
pub deployment_readiness_iff :
    (show : ℤ → String) (deploy : Deployment) (name : String)
    → ((deployment_readiness show deploy name).ready ≡ true) ↔ IsRolledOut deploy
unfolding deployment_readiness
deployment_readiness_iff show deploy name =
    let desired : ℤ = desired_replicas_of deploy.replicas in
    (
      λ h. record {
        observed =
            le_of_not_ltb (pos deploy.meta.generation) deploy.observed_generation (ground arith);
        updated = le_of_not_ltb desired deploy.updated_replicas (ground arith);
        ready = le_of_not_ltb desired deploy.ready_replicas (ground arith);
        available = le_of_not_ltb desired deploy.available_replicas (ground arith);
      },
      λ r.
          rw
            (
              not_ltb_of_le (pos deploy.meta.generation) deploy.observed_generation r.observed,
              not_ltb_of_le desired deploy.updated_replicas r.updated,
              not_ltb_of_le desired deploy.ready_replicas r.ready,
              not_ltb_of_le desired deploy.available_replicas r.available,
            )
            refl,
    )
