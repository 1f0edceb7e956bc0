-- ===== src/Byoc/Departure/Moved.antt =====
-- What `cleanupChangedBYOCTarget` calls: it withdraws the endpoint before it removes anything, and
-- forgets the target only once nothing is left there.
use showroom_msp_private_llm.Prelude.{
  String, ◌≡◌, refl, Bool, true, false, not, ◌&&◌, ◌==◌, ne_of_==, Option, none, some,
}
use showroom_msp_private_llm.Prelude.Dict.{get}
use showroom_msp_private_llm.Prelude.Lists.{All}
use showroom_msp_private_llm.Kube.{ObjectMeta, LlmInstance, Secret, is_byoc}
use showroom_msp_private_llm.Kube.Status.{with_status, update_provisioning_status}
use showroom_msp_private_llm.Api.{
  not_found, conflict, already_exists, rejection, failure, tls_not_ready, join, Result, ok, err,
  Key, Call, Answer, get_secret, delete_secret, get_namespace, update_instance_status,
}
use showroom_msp_private_llm.Api.Ensures.{
  Ensures, done, Ensures-mono, Ensures-bind, Ensures-attempt, Ensures-lift, Ensures-try,
  Ensures-calls, Ensures-if,
}
use showroom_msp_private_llm.Api.Trace.{Seen, run, run_sound}
use showroom_msp_private_llm.Byoc.Target.{
  kubeconfig_key, is_controlled_by, safe_byoc_slug, byoc_target_identity, byoc_cluster_identity,
  cluster_identity,
}
use showroom_msp_private_llm.Byoc.Credentials.{
  Source, usable, unusable, credentials_key, read_source, byoc_kubeconfig,
}
use showroom_msp_private_llm.Byoc.Cleanup.Removed.{IfOk}
use showroom_msp_private_llm.Byoc.Departure.{
  ByocConfig, Departure, without_target, announced, refers_to_previous, compare_source, has_left,
  release_credentials, forget, remove_previous, depart, depart_if, leave_cached,
  cleanup_changed_byoc_target,
}
use showroom_msp_private_llm.Byoc.Departure.Guarded.{
  IsRemoteCall, IsVacated, IsUnmanaged, IsManagedCallOf, remove_managed-Ensures,
  remove_remote-Ensures,
}
use showroom_msp_private_llm.Byoc.Departure.Released.{
  IsCachedCopy, IsCached, cached_byoc_kubeconfig-Ensures, delete_cached-Ensures,
}

module _ (Obs : (c : Call) → Result (Answer c) → Type 0) (config : ByocConfig)
    (inst : LlmInstance) where
  abbrev previous : String
  previous = inst.status.active_byoc_target_id

  -- The status without an endpoint is written, and the API server returned this object for it.
  abbrev pub IsWithdrawn : LlmInstance → Type 0
  IsWithdrawn shown =
      Obs (update_instance_status (announced config inst "Removing the previous BYOC endpoint"))
        (ok shown)

  -- The calls of `cleanupChangedBYOCTarget`.
  pub data IsMoveCall : Call → Type 0 where
    reads : (key : Key) → IsMoveCall (get_secret key)
    identifies : (kubeconfig : String) → IsMoveCall (get_namespace kubeconfig "kube-system")
    withdraws :
        IsMoveCall
          (update_instance_status (announced config inst "Removing the previous BYOC endpoint"))
    managed :
        {shown : LlmInstance} {c : Call}
        → IsWithdrawn shown
        → IsManagedCallOf Obs config shown previous c
        → IsMoveCall c
    remote :
        {shown : LlmInstance} {slug old : String} {c : Call}
        → IsWithdrawn shown
        → IsCachedCopy Obs config inst slug old
        → IsUnmanaged Obs config shown previous
        → IsRemoteCall Obs config shown slug old previous c
        → IsMoveCall c
    forgets :
        {shown : LlmInstance} (slug old : String)
        → IsWithdrawn shown
        → IsUnmanaged Obs config shown previous
        → IsVacated Obs config shown slug old previous
        → IsMoveCall (
            update_instance_status
              (announced config (without_target shown) "Previous BYOC target removed"))
    releases :
        {shown after : LlmInstance} (slug old : String) {cached : Secret}
        → IsUnmanaged Obs config shown previous
        → IsVacated Obs config shown slug old previous
        → Obs
            (update_instance_status
              (announced config (without_target shown) "Previous BYOC target removed"))
            (ok after)
        → Obs (get_secret (credentials_key config.targets after slug)) (ok cached)
        → is_controlled_by cached.meta after ≡ true
        → IsMoveCall (delete_secret cached)

  -- The object as the function leaves it has the metadata of the one given, or of one that the API
  -- server returned for a status.
  pub data Leaves (after : LlmInstance) : Type 0 where
    kept : after.meta ≡ inst.meta → Leaves after
    stored :
        {written i : LlmInstance}
        → Obs (update_instance_status written) (ok i)
        → after.meta ≡ i.meta
        → Leaves after

  abbrev pub IfLeft : Result (Departure config) → Type 0
  IfLeft (ok (after, _)) = Leaves after
  IfLeft (err e) = ⊥

  source-Ensures : Ensures Obs IsMoveCall (λ _. Unit) (byoc_kubeconfig inst)
  unfolding byoc_kubeconfig
  source-Ensures = Ensures-try _ (IsMoveCall.reads _) (λ r _. judge r)
    where
      judge : (r : Result Secret) → Ensures Obs IsMoveCall (λ _. Unit) (read_source r)
      judge (ok sec) =
          Ensures-if (get sec.content kubeconfig_key == "") (λ _. done tt) (λ _. done tt)
      judge (err not_found) = done tt
      judge (err conflict) = done tt
      judge (err already_exists) = done tt
      judge (err (rejection _)) = done tt
      judge (err (failure _)) = done tt
      judge (err (tls_not_ready _)) = done tt
      judge (err (join _ _)) = done tt

  cluster-Ensures :
      (kubeconfig api_id : String)
      → Ensures Obs IsMoveCall (λ _. Unit) (byoc_cluster_identity config.targets kubeconfig api_id)
  unfolding byoc_cluster_identity
  cluster-Ensures kubeconfig api_id =
      Ensures-try _ (IsMoveCall.identifies kubeconfig) (λ r _. judge r)
    where
      judge :
          (r : Result ObjectMeta)
          → Ensures Obs IsMoveCall (λ _. Unit) (cluster_identity config.targets api_id r)
      judge (err e) = done tt
      judge (ok system) = Ensures-if (system.uid == "") (λ _. done tt) (λ _. done tt)

  compare_source-Ensures :
      (old : String) (s : Source)
      → Ensures Obs IsMoveCall (λ _. Unit) (compare_source config inst old s)
  compare_source-Ensures old (unusable _) = done tt
  compare_source-Ensures old (usable kubeconfig) =
      Ensures-lift (byoc_target_identity config.targets old)
        (λ old_api _.
          Ensures-lift (byoc_target_identity config.targets kubeconfig)
            (λ new_api _.
              Ensures-if (refers_to_previous config inst && old_api == new_api)
                (λ _.
                  Ensures-lift (config.targets.builds_client kubeconfig)
                    (λ _ _.
                      Ensures-bind (cluster-Ensures kubeconfig new_api) (λ _ _. done tt)
                        (λ _ _. tt))
                    (λ _ _. tt))
                (λ _. done tt))
            (λ _ _. tt))
        (λ _ _. tt)

  has_left-Ensures : (old : String) → Ensures Obs IsMoveCall (λ _. Unit) (has_left config inst old)
  unfolding has_left
  has_left-Ensures old =
      Ensures-if (not (is_byoc inst)) (λ _. done tt)
        (λ _. Ensures-bind source-Ensures (λ s _. compare_source-Ensures old s) (λ _ _. tt))

  -- The target is forgotten, or there was none, only if nothing is left there.
  module _ (slug old : String) (copy : IsCachedCopy Obs config inst slug old) where
    abbrev IsEmpty : LlmInstance → Result (Unit {0}) → Type 0
    IsEmpty shown r =
        IfOk (IsUnmanaged Obs config shown previous × IsVacated Obs config shown slug old previous)
          r

    remove_previous-Ensures :
        (shown : LlmInstance)
        → IsWithdrawn shown
        → Ensures Obs IsMoveCall (IsEmpty shown) (remove_previous config shown slug old previous)
    remove_previous-Ensures shown withdrawn =
        Ensures-bind
          (Ensures-calls (λ c h. IsMoveCall.managed withdrawn h)
            (remove_managed-Ensures Obs config shown previous))
          (λ _ unmanaged.
            Ensures-mono (λ x h. both unmanaged x h)
              (Ensures-calls (λ c h. IsMoveCall.remote withdrawn copy unmanaged h)
                (remove_remote-Ensures Obs config shown slug old previous)))
          (λ _ _. tt)
      where
        both :
            IsUnmanaged Obs config shown previous
            → (x : Result (Unit {0})) → IfOk (IsVacated Obs config shown slug old previous) x
            → IsEmpty shown x
        both unmanaged (ok _) vacated = (unmanaged, vacated)
        both unmanaged (err e) h = tt

    forget-Ensures :
        (shown : LlmInstance) (r : Result (Unit {0}))
        → IsWithdrawn shown
        → IsEmpty shown r
        → Ensures Obs IsMoveCall IfLeft (forget config shown slug r)
    unfolding update_provisioning_status with_status without_target
    forget-Ensures shown (err e) withdrawn empty = done (Leaves.stored withdrawn refl)
    forget-Ensures shown (ok _) withdrawn (unmanaged, vacated) =
        Ensures-try _ (IsMoveCall.forgets slug old withdrawn unmanaged vacated) judge
      where
        judge :
            (u : Result LlmInstance)
            → Obs
                (update_instance_status
                  (announced config (without_target shown) "Previous BYOC target removed"))
                u
            → Ensures Obs IsMoveCall IfLeft (release_credentials config shown slug u)
        judge (err e) updated = done (Leaves.stored withdrawn refl)
        judge (ok after) updated =
            Ensures-attempt
              (delete_cached-Ensures Obs config after IsMoveCall.reads slug
                (λ cached read controlled.
                  IsMoveCall.releases slug old unmanaged vacated updated read controlled))
              (λ _ _. done (Leaves.stored updated refl))

    depart-Ensures :
        (left : Result Bool) → Ensures Obs IsMoveCall IfLeft (depart_if config inst slug old left)
    unfolding update_provisioning_status with_status
    depart-Ensures (err e) = done (Leaves.kept refl)
    depart-Ensures (ok left) =
        Ensures-if (not left) (λ _. done (Leaves.kept refl))
          (λ _. Ensures-try _ IsMoveCall.withdraws judge)
      where
        judge :
            (u : Result LlmInstance)
            → Obs
                (update_instance_status
                  (announced config inst "Removing the previous BYOC endpoint"))
                u
            → Ensures Obs IsMoveCall IfLeft (depart config inst slug old u)
        judge (err e) withdrawn = done (Leaves.kept refl)
        judge (ok shown) withdrawn =
            Ensures-attempt (remove_previous-Ensures shown withdrawn)
              (λ r empty. forget-Ensures shown r withdrawn empty)

  leave_cached-Ensures :
      (slug : String) (cached : Result (Option String))
      → IsCached Obs config inst slug cached
      → Ensures Obs IsMoveCall IfLeft (leave_cached config inst slug cached)
  leave_cached-Ensures slug (err e) copy = done (Leaves.kept refl)
  leave_cached-Ensures slug (ok none) copy = done (Leaves.kept refl)
  leave_cached-Ensures slug (ok (some old)) copy =
      Ensures-attempt (has_left-Ensures old) (λ left _. depart-Ensures slug old copy left)

  -- Where there was no target, the object is the one given.
  abbrev pub IsMoved : Result (Departure config) → Type 0
  IsMoved (ok (after, _)) =
      Leaves after × (inst.status.active_byoc_kubeconfig_secret_name ≡ "" → after ≡ inst)
  IsMoved (err e) = ⊥

  pub cleanup_changed_byoc_target-Ensures :
      (slug : String)
      → Ensures Obs IsMoveCall IsMoved (cleanup_changed_byoc_target config inst slug)
  unfolding cleanup_changed_byoc_target
  cleanup_changed_byoc_target-Ensures slug =
      Ensures-if (inst.status.active_byoc_kubeconfig_secret_name == "")
        (λ _. done (Leaves.kept refl, λ _. refl))
        (λ targeted. Ensures-mono (moved targeted) (
          Ensures-attempt
            (cached_byoc_kubeconfig-Ensures Obs config inst IsMoveCall.reads
              (safe_byoc_slug inst slug))
            (λ cached copy. leave_cached-Ensures (safe_byoc_slug inst slug) cached copy)))
    where
      moved :
          (inst.status.active_byoc_kubeconfig_secret_name == "") ≡ false
          → (r : Result (Departure config)) → IfLeft r
          → IsMoved r
      moved targeted (ok _) left = (left, λ empty. absurd (ne_of_== _ _ targeted empty))
      moved targeted (err e) left = left

module _ {W : Type 0} (answer : W → (c : Call) → Result (Answer c) × W) (config : ByocConfig)
    (inst : LlmInstance) where
  -- Whatever the API servers answer, `cleanupChangedBYOCTarget` removes nothing before the API server
  -- has accepted a status without an endpoint; it deletes objects on the previous cluster only
  -- through the operator's own copy of the credentials, once DNS entry and Certificate were found to
  -- be gone, and only if the copy leads to the cluster of the recorded identity; it forgets the
  -- target only once everything there was found to be gone; and it deletes the copy only after the
  -- API server has accepted the status without the target.
  pub cleanup_changed_byoc_target_sound :
      (slug : String) (w : W)
      → All
          (λ e.
            IsMoveCall
              (Seen (run answer (cleanup_changed_byoc_target config inst slug) w).1)
              config
              inst
              e.0)
          (run answer (cleanup_changed_byoc_target config inst slug) w).1
  cleanup_changed_byoc_target_sound slug w =
      (run_sound answer (cleanup_changed_byoc_target config inst slug) w (
        cleanup_changed_byoc_target-Ensures
          (Seen (run answer (cleanup_changed_byoc_target config inst slug) w).1) config inst
          slug)).1
