-- ===== src/Tests/InstanceRuns.antt =====
-- The instance controller on the sample cluster.
use showroom_msp_private_llm.Prelude.{
  String, ◌≡◌, ◌≤◌, refl, Bool, true, false, some, List, [], ◌∷◌, ◌==◌, if◌then◌else◌,
}
use showroom_msp_private_llm.Prelude.Lists.{All}
use showroom_msp_private_llm.Api.{Key}
use showroom_msp_private_llm.Api.Trace.{Event, Seen, run}
use showroom_msp_private_llm.Api.Counted.{count_calls}
use showroom_msp_private_llm.Auth.{parse_binding}
use showroom_msp_private_llm.Hosted.Models.{resolve_model}
use showroom_msp_private_llm.Hosted.Containers.{ensure_deployment_model}
use showroom_msp_private_llm.Hosted.Containers.Converged.{
  IsDownloading, IsServing, ensure_deployment_model_serves, ensure_deployment_model_converges,
}
use showroom_msp_private_llm.Hosted.Middlewares.{binding_query}
use showroom_msp_private_llm.Hosted.Middlewares.Bound.{parse_binding-encode}
use showroom_msp_private_llm.Instance.{finalize_llm_instance, reconcile_llm_instance}
use showroom_msp_private_llm.Instance.Bounded.{is_update, finalize_llm_instance_sound}
use showroom_msp_private_llm.Instance.Finalized.{IfOver}
use showroom_msp_private_llm.Instance.Calls.{IsFinalizeCall}
use showroom_msp_private_llm.Samples.{
  sample_instance, sample_texts, sample_deployment, sample_middlewares, sample_libraries,
  sample_reconciler, answer,
}

abbrev sample_key : Key
sample_key = record { namespace = "team"; name = "chat" }

ensure_deployment_model_serves_example :
    let out =
      (ensure_deployment_model
        (λ _ _. true)
        sample_deployment
        (resolve_model sample_texts "phi-2")
        []).0 in
    All (IsDownloading (λ _ _. true) (resolve_model sample_texts "phi-2")) out.pod.init_containers
    × All
        (λ c.
          c.name ≡ "llama-cpp-server"
          → IsServing (λ _ _. true) (resolve_model sample_texts "phi-2") [] c)
        out.pod.containers
ensure_deployment_model_serves_example =
    ensure_deployment_model_serves (λ _ _. true) (λ _. refl) (resolve_model sample_texts "phi-2") []
      sample_deployment

ensure_deployment_model_converges_example :
    (ensure_deployment_model
      (λ _ _. true)
      (ensure_deployment_model
        (λ _ _. true)
        sample_deployment
        (resolve_model sample_texts "phi-2")
        []).0
      (resolve_model sample_texts "phi-2")
      []).1
    ≡ false
ensure_deployment_model_converges_example =
    ensure_deployment_model_converges (λ _ _. true) (λ _. refl) (resolve_model sample_texts "phi-2")
      [] sample_deployment

parse_binding-encode_example :
    parse_binding sample_libraries (binding_query sample_instance "chat")
    ≡ some (record { namespace = "team"; name = "chat"; uid = "u1"; slug = "chat" })
unfolding showroom_msp_private_llm.Prelude.Text.trim_space
parse_binding-encode_example =
    parse_binding-encode sample_libraries sample_middlewares
      (λ _. binding_query sample_instance "chat") sample_instance "chat" (λ key. refl) refl refl
      refl refl refl refl refl

abbrev finalize_trace : List Event
finalize_trace =
    (run answer (finalize_llm_instance sample_reconciler sample_key sample_instance) tt).1

finalize_llm_instance_sound_example :
    IfOver
      (Seen finalize_trace)
      sample_reconciler
      sample_key
      sample_instance
      (run answer (finalize_llm_instance sample_reconciler sample_key sample_instance) tt).0
    × All
        (λ e. IsFinalizeCall (Seen finalize_trace) sample_reconciler sample_key sample_instance e.0)
        finalize_trace
    × (count_calls is_update finalize_trace ≤ 3)
finalize_llm_instance_sound_example =
    finalize_llm_instance_sound sample_reconciler sample_key answer tt sample_instance

abbrev instance_trace : List Event
instance_trace = (run answer (reconcile_llm_instance sample_reconciler sample_key) tt).1
