-- ===== src/Tests/HostedWorkload.antt =====
-- The hosted workload on the sample cluster.
use showroom_msp_private_llm.Prelude.{
  String, ◌≡◌, refl, Bool, true, false, none, some, List, [], ◌∷◌, ◌↔◌,
}
use showroom_msp_private_llm.Prelude.Lists.{All}
use showroom_msp_private_llm.Prelude.Int.{pos}
use showroom_msp_private_llm.Kube.{Ingress}
use showroom_msp_private_llm.Api.{ok}
use showroom_msp_private_llm.Api.Trace.{Event, Seen, run}
use showroom_msp_private_llm.Hosted.Models.{set_server_int_flag, server_int_flag}
use showroom_msp_private_llm.Hosted.Models.Flags.{server_int_flag-set_server_int_flag}
use showroom_msp_private_llm.Hosted.Ceilings.{ModelServerCeilings, check}
use showroom_msp_private_llm.Hosted.Ceilings.Within.{IsValid, IsWithin, check_iff}
use showroom_msp_private_llm.Hosted.Deployments.{deployment_readiness}
use showroom_msp_private_llm.Hosted.Deployments.Ready.{IsRolledOut, deployment_readiness_iff}
use showroom_msp_private_llm.Hosted.Ingresses.{ensure_ingress, reconcile_ingress}
use showroom_msp_private_llm.Hosted.Ingresses.Routed.{IsRouted, ensure_ingress-IsRouted}
use showroom_msp_private_llm.Hosted.Ingresses.Guarded.{IsIngressCall, reconcile_ingress_sound}
use showroom_msp_private_llm.Samples.{
  sample_instance, sample_texts, public_config, answer, meta_of, sample_deployment,
}

abbrev arguments : List String
arguments = "--ctx-size" ∷ "1" ∷ "--jinja" ∷ []

server_int_flag-set_server_int_flag_example :
    server_int_flag sample_texts
      (set_server_int_flag sample_texts arguments "--ctx-size" (pos 8))
      "--ctx-size"
      (pos 0)
    ≡ pos 8
server_int_flag-set_server_int_flag_example =
    server_int_flag-set_server_int_flag sample_texts "--ctx-size" (pos 8) (pos 0) arguments refl
      refl

abbrev ceilings : ModelServerCeilings
ceilings = record {
  cpu_milli = pos 1000;
  memory_mib = pos 0;
  context_size = pos 8192;
  parallel_slots = pos 0;
}

accepted_test : check sample_texts ceilings sample_instance ≡ ok tt
unfolding check showroom_msp_private_llm.Hosted.Ceilings.validate
    showroom_msp_private_llm.Hosted.Ceilings.all_in_range
    showroom_msp_private_llm.Hosted.Ceilings.none_exceeds
    showroom_msp_private_llm.Hosted.Ceilings.cpu_milli_of
    showroom_msp_private_llm.Hosted.Models.model_for_instance
    showroom_msp_private_llm.Hosted.Models.resolve_model
    showroom_msp_private_llm.Prelude.Text.trim_space
    showroom_msp_private_llm.Hosted.Ceilings.memory_mib_of server_int_flag
accepted_test = refl

check_iff_example :
    (check sample_texts ceilings sample_instance ≡ ok tt)
    ↔ (IsValid ceilings × IsWithin sample_texts ceilings sample_instance)
check_iff_example = check_iff sample_texts ceilings sample_instance

deployment_readiness_iff_example :
    ((deployment_readiness sample_texts.show sample_deployment "chat-llama").ready ≡ true)
    ↔ IsRolledOut sample_deployment
deployment_readiness_iff_example =
    deployment_readiness_iff sample_texts.show sample_deployment "chat-llama"

-- An Ingress with a default backend and a path matcher.
abbrev open_ingress : Ingress
open_ingress = record {
  meta =
      meta_of "chat-llama" "i1" []
        (("traefik.ingress.kubernetes.io/router.pathmatcher", "PathPrefix") ∷ []) none;
  class_name = none;
  default_backend = some "elsewhere";
  rules = [];
  tls = [];
}

ensure_ingress-IsRouted_example :
    IsRouted public_config sample_instance "chat-llama" "/llm/chat"
      (ensure_ingress public_config sample_instance "chat-llama" "/llm/chat" open_ingress).0
ensure_ingress-IsRouted_example =
    ensure_ingress-IsRouted public_config sample_instance "chat-llama" "/llm/chat" open_ingress

abbrev ingress_trace : List Event
ingress_trace =
    (run answer (reconcile_ingress public_config sample_instance [] "chat-llama" "/llm/chat") tt).1

reconcile_ingress_sound_example :
    All
      (λ e.
        IsIngressCall
          (Seen ingress_trace)
          public_config
          sample_instance
          []
          "chat-llama"
          "/llm/chat"
          e.0)
      ingress_trace
reconcile_ingress_sound_example =
    reconcile_ingress_sound answer public_config sample_instance [] "chat-llama" "/llm/chat" tt
