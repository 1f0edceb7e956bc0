-- ===== src/Tests/RemoteClusters.antt =====
-- Leaving a tenant's cluster, on a sample where the remote objects are still there.
use showroom_msp_private_llm.Prelude.{
  String, ◌≡◌, refl, Bool, true, false, none, some, List, [], ◌∷◌, ◌==◌, if◌then◌else◌,
}
use showroom_msp_private_llm.Prelude.Lists.{All}
use showroom_msp_private_llm.Kube.{ObjectMeta, LlmInstance, Secret}
use showroom_msp_private_llm.Api.{
  not_found, Result, ok, err, Call, Answer, Api, get_secret, list_secrets, get_namespace,
  get_remote_object, delete_remote_object,
}
use showroom_msp_private_llm.Api.Trace.{Event, Seen, run}
use showroom_msp_private_llm.Api.Counted.{count_calls}
use showroom_msp_private_llm.Byoc.Target.{
  RestConfig, TargetLibraries, verified_byoc_rest_config, owner_uid_annotation, kubeconfig_key,
}
use showroom_msp_private_llm.Byoc.Target.Verified.{IsAccepted, verified_byoc_rest_config-IsAccepted}
use showroom_msp_private_llm.Auth.{credential_instance_key, credential_target_key}
use showroom_msp_private_llm.Byoc.Keys.{sort_keys, desired_api_key_file, publish_keys}
use showroom_msp_private_llm.Byoc.Keys.Granted.{IfFile, IsKeysRead, desired_api_key_file_sound}
use showroom_msp_private_llm.Byoc.Keys.Published.{IfPublished, IsPublishCall, publish_keys_sound}
use showroom_msp_private_llm.Byoc.Departure.{ByocConfig, cleanup_byoc, cleanup_changed_byoc_target}
use showroom_msp_private_llm.Byoc.Departure.Released.{
  IsCleanedUp, IsCleanupCall, cleanup_byoc_sound,
}
use showroom_msp_private_llm.Byoc.Departure.Moved.{IsMoveCall, cleanup_changed_byoc_target_sound}
use showroom_msp_private_llm.Samples.{
  sample_targets, sample_rest, sample_byoc, sample_instance, sample_status, sample_secret, meta_of,
  instance_owner, reply,
}

verified_byoc_rest_config-IsAccepted_example : IsAccepted sample_targets "kubeconfig" sample_rest
unfolding verified_byoc_rest_config
verified_byoc_rest_config-IsAccepted_example =
    verified_byoc_rest_config-IsAccepted sample_targets "kubeconfig" sample_rest refl

-- An instance whose workload runs on the cluster of the identity `digest`.
abbrev remote_instance : LlmInstance
remote_instance = record sample_instance {
  status = record sample_status {
    active_byoc_kubeconfig_secret_name = "mine";
    active_byoc_target_id = "digest";
    active_byoc_slug = "chat";
  };
}

abbrev remote_object : ObjectMeta
remote_object = meta_of "llm-digest" "o1" [] ((owner_uid_annotation, "u1") ∷ []) none

abbrev sample_credentials : Secret
sample_credentials = record sample_secret {
  meta = meta_of "llm-digest-credentials" "s2" [] [] (some instance_owner);
  content = (kubeconfig_key, "kubeconfig") ∷ [];
}

-- The operator's namespace holds nothing of the instance any more; the tenant's cluster does.
abbrev remote_reply : (c : Call) → Result (Answer c)
remote_reply (get_secret key) =
    if key.namespace == "operator" then err not_found else ok sample_credentials
remote_reply (get_namespace _ _) = ok (meta_of "kube-system" "n1" [] [] none)
remote_reply (get_remote_object _ _ _) = ok remote_object
remote_reply c = reply c

abbrev remote_answer : Unit {0} → (c : Call) → Result (Answer c) × Unit {0}
remote_answer w c = (remote_reply c, w)

abbrev cleanup_trace : List Event
cleanup_trace = (run remote_answer (cleanup_byoc sample_byoc remote_instance) tt).1

abbrev is_removal : Call → Bool
is_removal (delete_remote_object _ _ _) = true
is_removal _ = false

-- The four objects are deleted.
removals_test : count_calls is_removal cleanup_trace ≡ 4
unfolding count_calls run cleanup_byoc showroom_msp_private_llm.Api.◌>>=◌
    showroom_msp_private_llm.Byoc.Withdrawal.cleanup_byoc_managed_tls
    showroom_msp_private_llm.Byoc.Cleanup.cleanup_byoc_dns
    showroom_msp_private_llm.Byoc.Target.byoc_tls_identity
    showroom_msp_private_llm.Byoc.Target.has_dot
    showroom_msp_private_llm.Byoc.Target.byoc_cleanup_tls_config
    showroom_msp_private_llm.Byoc.Target.first showroom_msp_private_llm.Api.attempt
    showroom_msp_private_llm.Api.request showroom_msp_private_llm.Byoc.Target.byoc_tls_target
    showroom_msp_private_llm.Byoc.Withdrawal.remove_secrets
    showroom_msp_private_llm.Byoc.Credentials.cached_byoc_kubeconfig
    showroom_msp_private_llm.Prelude.Dict.get showroom_msp_private_llm.Prelude.Dict.lookup
    showroom_msp_private_llm.Byoc.Cleanup.cleanup_byoc_objects
    showroom_msp_private_llm.Byoc.Cleanup.join_errors
    showroom_msp_private_llm.Byoc.Cleanup.remove_objects
    showroom_msp_private_llm.Byoc.Departure.remove_remote
    showroom_msp_private_llm.Byoc.Target.byoc_base_name
    showroom_msp_private_llm.Byoc.Target.byoc_cluster_identity
    showroom_msp_private_llm.Byoc.Target.byoc_target_identity
    showroom_msp_private_llm.Byoc.Target.check_byoc_object_owner verified_byoc_rest_config
removals_test = refl

cleanup_byoc_sound_example :
    IsCleanedUp
      (Seen cleanup_trace)
      sample_byoc
      remote_instance
      (run remote_answer (cleanup_byoc sample_byoc remote_instance) tt).0
    × All (λ e. IsCleanupCall (Seen cleanup_trace) sample_byoc remote_instance e.0) cleanup_trace
cleanup_byoc_sound_example = cleanup_byoc_sound remote_answer sample_byoc remote_instance tt

abbrev move_trace : List Event
move_trace =
    (run remote_answer (cleanup_changed_byoc_target sample_byoc remote_instance "chat") tt).1

cleanup_changed_byoc_target_sound_example :
    All (λ e. IsMoveCall (Seen move_trace) sample_byoc remote_instance e.0) move_trace
cleanup_changed_byoc_target_sound_example =
    cleanup_changed_byoc_target_sound remote_answer sample_byoc remote_instance "chat" tt

-- The one sample key, as a file that the tenant's cluster does not have yet.
abbrev bound_secret : Secret
bound_secret = record sample_secret {
  meta = record (sample_secret.meta) {
    annotations = (credential_instance_key, "u1") ∷ (credential_target_key, "digest") ∷ [];
  };
}

abbrev key_reply : (c : Call) → Result (Answer c)
key_reply (list_secrets _ _ _ _) = ok (bound_secret ∷ sample_secret ∷ [])
key_reply c = reply c

abbrev key_answer : Unit {0} → (c : Call) → Result (Answer c) × Unit {0}
key_answer w c = (key_reply c, w)

abbrev key_file : Api (String × Bool)
key_file = desired_api_key_file sample_targets "kubeconfig" remote_instance "chat"

-- Of the two listed Secrets only the one bound to the cluster counts.
key_file_test : (run key_answer key_file tt).0 ≡ ok ("k\n", false)
unfolding run desired_api_key_file showroom_msp_private_llm.Api.◌>>=◌
    showroom_msp_private_llm.Api.attempt showroom_msp_private_llm.Api.request
    showroom_msp_private_llm.Byoc.Keys.collect_keys showroom_msp_private_llm.Byoc.Keys.counts
    showroom_msp_private_llm.Byoc.Keys.has_line_break showroom_msp_private_llm.Byoc.Keys.key_lines
    showroom_msp_private_llm.Byoc.Keys.sort_keys showroom_msp_private_llm.Byoc.Keys.insert_key
    showroom_msp_private_llm.Prelude.Dict.get showroom_msp_private_llm.Prelude.Dict.lookup
key_file_test = refl

sort_keys_test : sort_keys ("b" ∷ "ab" ∷ "a" ∷ []) ≡ "a" ∷ "ab" ∷ "b" ∷ []
unfolding sort_keys showroom_msp_private_llm.Byoc.Keys.insert_key
    showroom_msp_private_llm.Byoc.Keys.text_leb
sort_keys_test = refl

desired_api_key_file_sound_example :
    IfFile
      (Seen (run key_answer key_file tt).1)
      sample_targets
      "kubeconfig"
      remote_instance
      "chat"
      (run key_answer key_file tt).0
    × All
        (λ e.
          IsKeysRead
            (Seen (run key_answer key_file tt).1)
            sample_targets
            "kubeconfig"
            remote_instance
            "chat"
            e.0)
        (run key_answer key_file tt).1
desired_api_key_file_sound_example =
    desired_api_key_file_sound key_answer sample_targets "kubeconfig" remote_instance "chat" tt

abbrev publication : Api String
publication = publish_keys sample_targets "kubeconfig" remote_instance "chat"

publish_keys_sound_example :
    IfPublished
      (Seen (run key_answer publication tt).1)
      sample_targets
      "kubeconfig"
      remote_instance
      "chat"
      (run key_answer publication tt).0
    × All
        (λ e.
          IsPublishCall
            (Seen (run key_answer publication tt).1)
            sample_targets
            "kubeconfig"
            remote_instance
            "chat"
            e.0)
        (run key_answer publication tt).1
publish_keys_sound_example =
    publish_keys_sound key_answer sample_targets "kubeconfig" remote_instance "chat" tt
