-- ===== src/Byoc/Departure.antt =====
-- When a workload leaves a tenant's cluster: `cleanupBYOC`, for an instance that is deleted, and
-- `cleanupChangedBYOCTarget`, for one that moves, of internal/controller/llminstance_byoc.go.
pub mod Guarded
pub mod Released
pub mod Moved
use showroom_msp_private_llm.Prelude.{
  String, Bool, true, false, Option, none, some, ◌&&◌, ◌||◌, not, ◌==◌, if◌then◌else◌,
}
use showroom_msp_private_llm.Kube.{LlmInstance, is_byoc}
use showroom_msp_private_llm.Kube.Status.{with_status, update_provisioning_status}
use showroom_msp_private_llm.Api.{
  Error, failure, Result, ok, err, Api, pure, throw, ◌>>=◌, attempt, lift,
}
use showroom_msp_private_llm.Slug.Policy.{Chosen, select}
use showroom_msp_private_llm.Slug.Ownership.{Config}
use showroom_msp_private_llm.Byoc.Target.{
  TargetLibraries, TlsConfig, safe_byoc_slug, byoc_cleanup_tls_config, byoc_target_identity,
  byoc_cluster_identity,
}
use showroom_msp_private_llm.Byoc.Certificates.{CertificateLibraries}
use showroom_msp_private_llm.Byoc.Credentials.{
  Source, usable, unusable, kubeconfig_secret_name, byoc_kubeconfig, cached_byoc_kubeconfig,
  delete_cached_byoc_credentials,
}
use showroom_msp_private_llm.Byoc.Cleanup.{cleanup_byoc_objects, cleanup_byoc_remote_tls}
use showroom_msp_private_llm.Byoc.Withdrawal.{cleanup_byoc_managed_tls}

-- The fields of the reconciler for tenants' clusters.
pub record ByocConfig : Type 0 where
  pub slugs : Config
  pub tls : TlsConfig
  pub targets : TargetLibraries
  pub certificates : CertificateLibraries

abbrev when : Bool → Api (Unit {0}) → Api (Unit {0})
when wanted m = if wanted then m else pure tt

-- The instance without its previous target, as `cleanupChangedBYOCTarget` leaves it.
unfoldable pub without_target : LlmInstance → LlmInstance
without_target inst = record inst {
  status = record (inst.status) {
    active_byoc_kubeconfig_secret_name = "";
    active_byoc_target_id = "";
    active_byoc_tls_domain = "";
    active_byoc_tls_namespace = "";
  };
}

module _ (config : ByocConfig) where
  abbrev pub tls_of : LlmInstance → TlsConfig
  tls_of inst = byoc_cleanup_tls_config config.tls inst

  -- The last check before anything remote is deleted: the cluster is the one that was recorded.
  abbrev check_cluster : String → String → Api (Unit {0})
  check_cluster target_id actual =
      if not (target_id == "") && not (actual == target_id)
      then throw (failure "refusing cleanup on replacement BYOC cluster")
      else pure tt

  -- The sequence that both functions have in common: the client, the identity of its cluster, the
  -- objects there, and the remote certificate.
  unfoldable pub remove_remote : LlmInstance → String → String → String → Api (Unit {0})
  remove_remote inst slug kubeconfig target_id = do
    _ ← lift (config.targets.builds_client kubeconfig)
    api_id ← lift (byoc_target_identity config.targets kubeconfig)
    actual ← byoc_cluster_identity config.targets kubeconfig api_id
    _ ← check_cluster target_id actual
    _ ← cleanup_byoc_objects config.targets kubeconfig inst slug
    when (not (target_id == ""))
        (cleanup_byoc_remote_tls config.targets kubeconfig inst (tls_of inst) target_id)

  -- The managed certificate and the DNS entry, which go first.
  abbrev remove_managed : LlmInstance → String → Api (Unit {0})
  remove_managed inst target_id =
      when (not (target_id == ""))
        (cleanup_byoc_managed_tls config.targets config.certificates inst (tls_of inst) target_id)

  abbrev selected_slug : Result Chosen → Api String
  selected_slug (ok chosen) = pure chosen.slug
  selected_slug (err e) = throw e

  abbrev cleanup_slug : LlmInstance → Api String
  cleanup_slug inst =
      if inst.status.active_byoc_slug == ""
        && not (inst.status.active_byoc_kubeconfig_secret_name == "")
      then selected_slug (select config.slugs.libraries config.slugs.policy inst.meta)
      else pure inst.status.active_byoc_slug

  abbrev remove_cached : LlmInstance → String → Option String → Api (Unit {0})
  remove_cached inst slug none =
      throw (failure "cannot clean BYOC without protected cached credentials")
  remove_cached inst slug (some kubeconfig) = do
    _ ← remove_remote inst slug kubeconfig inst.status.active_byoc_target_id
    delete_cached_byoc_credentials config.targets inst slug

  -- `cleanupBYOC`
  unfoldable pub cleanup_byoc : LlmInstance → Api (Unit {0})
  cleanup_byoc inst = do
    slug ← cleanup_slug inst
    _ ← remove_managed inst inst.status.active_byoc_target_id
    if inst.status.active_byoc_kubeconfig_secret_name == "" then pure tt else do
      cached ← cached_byoc_kubeconfig config.targets inst slug
      remove_cached inst slug cached

  abbrev refers_to_previous : LlmInstance → Bool
  refers_to_previous inst =
      inst.status.active_byoc_kubeconfig_secret_name == kubeconfig_secret_name inst

  -- Whether the workload must leave its cluster, for an instance whose kubeconfig still has the
  -- previous Secret's name and the same API server: only if the cluster behind it is another.
  abbrev compare_cluster : LlmInstance → String → String → Api Bool
  compare_cluster inst kubeconfig api_id = do
    _ ← lift (config.targets.builds_client kubeconfig)
    current ← byoc_cluster_identity config.targets kubeconfig api_id
    pure (
        not
          (inst.status.active_byoc_target_id == "" || current == inst.status.active_byoc_target_id))

  abbrev compare_source : LlmInstance → String → Source → Api Bool
  compare_source inst old (unusable _) = pure (not (refers_to_previous inst))
  compare_source inst old (usable kubeconfig) = do
    old_api ← lift (byoc_target_identity config.targets old)
    new_api ← lift (byoc_target_identity config.targets kubeconfig)
    if refers_to_previous inst && old_api == new_api
        then compare_cluster inst kubeconfig new_api
        else pure true

  -- The decision of `cleanupChangedBYOCTarget`.
  unfoldable pub has_left : LlmInstance → String → Api Bool
  has_left inst old =
      if not (is_byoc inst)
      then pure true
      else do source ← byoc_kubeconfig inst; compare_source inst old source

  abbrev announce : LlmInstance → String → Api LlmInstance
  announce inst message =
      update_provisioning_status config.slugs.set_condition inst "" "BYOCTargetChanging" message

  -- The object as a failed update of its status leaves it.
  abbrev announced : LlmInstance → String → LlmInstance
  announced inst message =
      with_status config.slugs.set_condition inst false "Provisioning" "" "BYOCTargetChanging"
        message

  -- The object, and what the function returns.
  abbrev pub Departure : Type 0
  Departure = LlmInstance × Result (Unit {0})

  abbrev release_credentials : LlmInstance → String → Result LlmInstance → Api Departure
  release_credentials inst slug (err e) =
      pure (announced (without_target inst) "Previous BYOC target removed", err e)
  release_credentials inst slug (ok shown) = do
    deleted ← attempt (delete_cached_byoc_credentials config.targets shown slug)
    pure (shown, deleted)

  abbrev forget : LlmInstance → String → Result (Unit {0}) → Api Departure
  forget inst slug (err e) = pure (inst, err e)
  forget inst slug (ok _) = do
    updated ← attempt (announce (without_target inst) "Previous BYOC target removed")
    release_credentials inst slug updated

  abbrev remove_previous : LlmInstance → String → String → String → Api (Unit {0})
  remove_previous inst slug old target_id = do
    _ ← remove_managed inst target_id
    remove_remote inst slug old target_id

  abbrev depart : LlmInstance → String → String → Result LlmInstance → Api Departure
  depart inst slug old (err e) = pure (announced inst "Removing the previous BYOC endpoint", err e)
  depart inst slug old (ok shown) = do
    removed ← attempt (remove_previous shown slug old inst.status.active_byoc_target_id)
    forget shown slug removed

  abbrev depart_if : LlmInstance → String → String → Result Bool → Api Departure
  depart_if inst slug old (err e) = pure (inst, err e)
  depart_if inst slug old (ok left) = if not left then pure (inst, ok tt) else do
    updated ← attempt (announce inst "Removing the previous BYOC endpoint")
    depart inst slug old updated

  abbrev leave_cached : LlmInstance → String → Result (Option String) → Api Departure
  leave_cached inst slug (err e) = pure (inst, err e)
  leave_cached inst slug (ok none) =
      pure (inst, err (failure "cached BYOC credentials missing for previous target"))
  leave_cached inst slug (ok (some old)) = do
    left ← attempt (has_left inst old)
    depart_if inst slug old left

  -- `cleanupChangedBYOCTarget`
  unfoldable pub cleanup_changed_byoc_target : LlmInstance → String → Api Departure
  cleanup_changed_byoc_target inst slug =
      if inst.status.active_byoc_kubeconfig_secret_name == "" then pure (inst, ok tt) else do
        cached ← attempt (cached_byoc_kubeconfig config.targets inst (safe_byoc_slug inst slug))
        leave_cached inst (safe_byoc_slug inst slug) cached
