-- ===== src/Kube/Status.antt =====
-- Status updates of an instance: `updateProvisioningStatus` and `updateReadyStatus` of
-- internal/controller/llminstance_controller.go.
use showroom_msp_private_llm.Prelude.{String, Bool, true, false, List}
use showroom_msp_private_llm.Kube.{Condition, LlmInstance}
use showroom_msp_private_llm.Api.{Api, request, update_instance_status}

module _ (set_condition : Condition → List Condition → List Condition) where
  abbrev ready_condition : LlmInstance → Bool → String → String → Condition
  ready_condition inst status reason message = record {
    type = "Ready";
    status = status;
    reason = reason;
    message = message;
    observed_generation = inst.meta.generation;
  }

  -- The instance with a new Ready condition, phase and endpoint.
  unfoldable pub with_status : LlmInstance → Bool → String → String → String → String → LlmInstance
  with_status inst status phase endpoint reason message = record inst {
    status = record (inst.status) {
      conditions =
          set_condition (ready_condition inst status reason message) inst.status.conditions;
      phase = phase;
      endpoint = endpoint;
      observed_generation = inst.meta.generation;
    };
  }

  -- `updateProvisioningStatus`
  unfoldable pub update_provisioning_status :
      LlmInstance → String → String → String → Api LlmInstance
  update_provisioning_status inst endpoint reason message =
      request
        (update_instance_status (with_status inst false "Provisioning" endpoint reason message))

  -- `updateReadyStatus`
  unfoldable pub update_ready_status : LlmInstance → String → Api LlmInstance
  update_ready_status inst endpoint = request (
      update_instance_status
        (with_status inst true "Ready" endpoint "Provisioned" "LLM instance is ready"))
