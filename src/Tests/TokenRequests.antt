-- ===== src/Tests/TokenRequests.antt =====
-- The controller of token requests on the sample cluster.
use showroom_msp_private_llm.Prelude.{
  ◌≡◌, refl, Bool, true, false, none, some, [], ◌∷◌, List, String,
}
use showroom_msp_private_llm.Prelude.Lists.{All}
use showroom_msp_private_llm.Kube.{LlmInstance, Secret}
use showroom_msp_private_llm.Api.{ok, Key, read_random}
use showroom_msp_private_llm.Api.Trace.{Event, Seen, run}
use showroom_msp_private_llm.Token.Rotation.{rotate_token_for_target}
use showroom_msp_private_llm.Token.Rotation.Bound.{Rotates, rotate_token_sound}
use showroom_msp_private_llm.Token.Secrets.{apply_secret_mutations, withdraw}
use showroom_msp_private_llm.Token.Secrets.Published.{
  IsPublished, apply_secret_mutations-IsPublished,
}
use showroom_msp_private_llm.Token.Secrets.{invalidate_token_endpoint}
use showroom_msp_private_llm.Api.{Api}
use showroom_msp_private_llm.Kube.{ApiTokenRequest}
use showroom_msp_private_llm.Token.Reconcile.{reconcile, finished}
use showroom_msp_private_llm.Kube.{Condition}
use showroom_msp_private_llm.Prelude.{◌↔◌, ◌⊎◌, Memᴰ, ◌==◌}
use showroom_msp_private_llm.Api.Settled.{value}
use showroom_msp_private_llm.Token.{set_condition}
use showroom_msp_private_llm.Token.Conditions.{set_condition_iff}
use showroom_msp_private_llm.Token.Reconcile.{find_token_requests_for_instance}
use showroom_msp_private_llm.Token.Reconcile.Requeued.{IsRequestFor, find_token_requests_iff}
use showroom_msp_private_llm.Samples.{reply, sample_request}
use showroom_msp_private_llm.Samples.{sample_instance, sample_secret, answer, token_libraries}

abbrev request_key : Key
request_key = record { namespace = "team"; name = "alice" }

-- The sample request is served.
reconcile_test : (run answer (reconcile token_libraries request_key) tt).0 ≡ ok finished
unfolding run reconcile showroom_msp_private_llm.Api.◌>>=◌ showroom_msp_private_llm.Api.attempt
    showroom_msp_private_llm.Api.request showroom_msp_private_llm.Token.Reconcile.current_slug
    showroom_msp_private_llm.Slug.Policy.select showroom_msp_private_llm.Slug.Policy.find
    showroom_msp_private_llm.Prelude.Text.trim_space
    showroom_msp_private_llm.Token.Reconcile.instance_ready
    showroom_msp_private_llm.Token.Reconcile.valid_endpoint
    showroom_msp_private_llm.Token.Rotation.targets_byoc showroom_msp_private_llm.Kube.is_byoc
    showroom_msp_private_llm.Token.Secrets.ensure_secret
    showroom_msp_private_llm.Token.owns_token_secret rotate_token_for_target
    showroom_msp_private_llm.Prelude.Dict.get showroom_msp_private_llm.Prelude.Dict.has
    showroom_msp_private_llm.Prelude.Dict.insert showroom_msp_private_llm.Prelude.Dict.lookup
    showroom_msp_private_llm.Prelude.Dict.remove
    showroom_msp_private_llm.Token.Reconcile.update_ready_status
    showroom_msp_private_llm.Token.Rotation.legacy_hosted_binding_matches apply_secret_mutations
    showroom_msp_private_llm.Token.Secrets.touch_api_token_request
reconcile_test = refl

-- The Secret of another instance, which is retargeted.
abbrev other_instance : LlmInstance
other_instance = record sample_instance {
  meta = record (sample_instance.meta) { name = "code"; uid = "u2" };
}

abbrev run_rotation : List Event
run_rotation =
    (run answer (rotate_token_for_target sample_secret (some other_instance) true "code") tt).1

rotate_token_sound_example :
    Rotates
      (Seen run_rotation)
      sample_secret
      other_instance
      true
      "code"
      (run answer (rotate_token_for_target sample_secret (some other_instance) true "code") tt).0
    × All (λ e. e.0 ≡ read_random 32) run_rotation
rotate_token_sound_example = rotate_token_sound answer sample_secret other_instance true "code" tt

apply_secret_mutations-IsPublished_example :
    IsPublished sample_secret
      (apply_secret_mutations sample_secret "chat" "chat" "https://models.example/llm/chat").0
      "chat"
      "chat"
      "https://models.example/llm/chat"
apply_secret_mutations-IsPublished_example =
    apply_secret_mutations-IsPublished sample_secret "chat" "chat" "https://models.example/llm/chat"

abbrev withdrawal : Api ApiTokenRequest
withdrawal = invalidate_token_endpoint sample_request (some sample_instance)

abbrev pending : Condition
pending = record {
  type = "Ready";
  status = false;
  reason = "InstanceNotReady";
  message = "";
  observed_generation = 0;
}

set_condition_iff_example :
    Memᴰ pending (set_condition pending sample_instance.status.conditions) ↔ (
      (pending ≡ pending)
      ⊎ (Memᴰ pending sample_instance.status.conditions × ((pending.type == pending.type) ≡ false)))
set_condition_iff_example = set_condition_iff pending sample_instance.status.conditions pending

find_token_requests_iff_example :
    (keys : List Key) × (value reply (find_token_requests_for_instance sample_instance) ≡ ok keys)
    × ((key : Key) → Memᴰ key keys ↔ IsRequestFor sample_instance (sample_request ∷ []) key)
find_token_requests_iff_example =
    find_token_requests_iff reply sample_instance (sample_request ∷ []) refl
