-- ===== src/Byoc/Departure/Released.antt =====
-- The operator's copy of the credentials goes last: the calls of `cleanupBYOC` and of
-- `cleanupChangedBYOCTarget` as a whole.
use showroom_msp_private_llm.Prelude.{
  String, ◌≡◌, refl, true, not, ◌&&◌, ◌==◌, true_of_not, eq_of_==, Option, none, some, ◌⊎◌, inl,
  inr,
}
use showroom_msp_private_llm.Prelude.Dict.{get}
use showroom_msp_private_llm.Prelude.Lists.{All}
use showroom_msp_private_llm.Kube.{LlmInstance, Secret}
use showroom_msp_private_llm.Api.{
  not_found, conflict, already_exists, rejection, failure, tls_not_ready, join, Result, ok, err,
  Key, Call, Answer, get_secret, delete_secret,
}
use showroom_msp_private_llm.Api.Ensures.{
  Ensures, done, Ensures-mono, Ensures-bind, Ensures-try, Ensures-calls, Ensures-if,
}
use showroom_msp_private_llm.Api.Trace.{Seen, run, run_sound}
use showroom_msp_private_llm.Slug.Policy.{Chosen, select}
use showroom_msp_private_llm.Byoc.Target.{kubeconfig_key, is_controlled_by}
use showroom_msp_private_llm.Byoc.Credentials.{
  credentials_key, read_cached, cached_byoc_kubeconfig, after_delete, delete_cached,
  delete_cached_byoc_credentials,
}
use showroom_msp_private_llm.Byoc.Cleanup.Removed.{IfOk}
use showroom_msp_private_llm.Byoc.Departure.{
  ByocConfig, selected_slug, cleanup_slug, remove_cached, cleanup_byoc,
}
use showroom_msp_private_llm.Byoc.Departure.Guarded.{
  IsRemoteCall, IsVacated, IsUnmanaged, IsManagedCallOf, remove_managed-Ensures,
  remove_remote-Ensures,
}

module _ (Obs : (c : Call) → Result (Answer c) → Type 0) (config : ByocConfig)
    (inst : LlmInstance) where
  -- The kubeconfig is the operator's copy, which the instance controls.
  pub record IsCachedCopy (slug kubeconfig : String) : Type 0 where
    pub cached : Secret
    pub read : Obs (get_secret (credentials_key config.targets inst slug)) (ok cached)
    pub controlled : is_controlled_by cached.meta inst ≡ true
    pub same : kubeconfig ≡ get cached.content kubeconfig_key

  abbrev pub IsCached : String → Result (Option String) → Type 0
  IsCached slug (ok (some kubeconfig)) = IsCachedCopy slug kubeconfig
  IsCached slug _ = Unit

  module _ {P : Call → Type 0} (reads : (key : Key) → P (get_secret key)) where
    pub cached_byoc_kubeconfig-Ensures :
        (slug : String)
        → Ensures Obs P (IsCached slug) (cached_byoc_kubeconfig config.targets inst slug)
    unfolding cached_byoc_kubeconfig
    cached_byoc_kubeconfig-Ensures slug =
        Ensures-if (slug == "") (λ _. done tt) (λ _. Ensures-try _ (reads _) judge)
      where
        judge :
            (r : Result Secret)
            → Obs (get_secret (credentials_key config.targets inst slug)) r
            → Ensures Obs P (IsCached slug) (read_cached inst r)
        judge (err not_found) shown = done tt
        judge (err conflict) shown = done tt
        judge (err already_exists) shown = done tt
        judge (err (rejection _)) shown = done tt
        judge (err (failure _)) shown = done tt
        judge (err (tls_not_ready _)) shown = done tt
        judge (err (join _ _)) shown = done tt
        judge (ok cached) shown =
            Ensures-if (not (is_controlled_by cached.meta inst)) (λ _. done tt)
              (λ controlled.
                Ensures-if (get cached.content kubeconfig_key == "") (λ _. done tt)
                  (λ _. done (record {
                    cached = cached;
                    read = shown;
                    controlled = true_of_not _ controlled;
                    same = refl;
                  })))

    pub delete_cached-Ensures :
        (slug : String)
        → ((cached : Secret)
            → Obs (get_secret (credentials_key config.targets inst slug)) (ok cached)
            → is_controlled_by cached.meta inst ≡ true
            → P (delete_secret cached))
        → Ensures Obs P (λ _. Unit) (delete_cached_byoc_credentials config.targets inst slug)
    unfolding delete_cached_byoc_credentials
    delete_cached-Ensures slug deletes = Ensures-try _ (reads _) judge
      where
        over : (d : Result (Unit {0})) → Ensures Obs P (λ _. Unit) (after_delete config.targets d)
        over (ok _) = done tt
        over (err not_found) = done tt
        over (err conflict) = done tt
        over (err already_exists) = done tt
        over (err (rejection _)) = done tt
        over (err (failure _)) = done tt
        over (err (tls_not_ready _)) = done tt
        over (err (join _ _)) = done tt

        judge :
            (r : Result Secret)
            → Obs (get_secret (credentials_key config.targets inst slug)) r
            → Ensures Obs P (λ _. Unit) (delete_cached config.targets inst r)
        judge (err not_found) shown = done tt
        judge (err conflict) shown = done tt
        judge (err already_exists) shown = done tt
        judge (err (rejection _)) shown = done tt
        judge (err (failure _)) shown = done tt
        judge (err (tls_not_ready _)) shown = done tt
        judge (err (join _ _)) shown = done tt
        judge (ok cached) shown =
            Ensures-if (not (is_controlled_by cached.meta inst)) (λ _. done tt)
              (λ controlled.
                Ensures-try _ (deletes cached shown (true_of_not _ controlled)) (λ d _. over d))

  -- The calls of `cleanupBYOC`.
  pub data IsCleanupCall : Call → Type 0 where
    managed :
        {c : Call}
        → IsManagedCallOf Obs config inst inst.status.active_byoc_target_id c
        → IsCleanupCall c
    caches : (key : Key) → IsCleanupCall (get_secret key)
    remote :
        {slug kubeconfig : String} {c : Call}
        → IsUnmanaged Obs config inst inst.status.active_byoc_target_id
        → IsCachedCopy slug kubeconfig
        → IsRemoteCall Obs config inst slug kubeconfig inst.status.active_byoc_target_id c
        → IsCleanupCall c
    releases :
        {slug kubeconfig : String} {cached : Secret}
        → IsUnmanaged Obs config inst inst.status.active_byoc_target_id
        → IsVacated Obs config inst slug kubeconfig inst.status.active_byoc_target_id
        → Obs (get_secret (credentials_key config.targets inst slug)) (ok cached)
        → is_controlled_by cached.meta inst ≡ true
        → IsCleanupCall (delete_secret cached)

  -- The instance has left the cluster: nothing of it was found there, nor a certificate or DNS entry.
  pub record HasLeft : Type 0 where
    pub slug : String
    pub kubeconfig : String
    pub unmanaged : IsUnmanaged Obs config inst inst.status.active_byoc_target_id
    pub copy : IsCachedCopy slug kubeconfig
    pub vacated : IsVacated Obs config inst slug kubeconfig inst.status.active_byoc_target_id

  abbrev pub IsCleanedUp : Result (Unit {0}) → Type 0
  IsCleanedUp r = IfOk ((inst.status.active_byoc_kubeconfig_secret_name ≡ "") ⊎ HasLeft) r

  remove_cached-Ensures :
      (slug : String) (cached : Option String)
      → IsUnmanaged Obs config inst inst.status.active_byoc_target_id
      → IsCached slug (ok cached)
      → Ensures Obs IsCleanupCall IsCleanedUp (remove_cached config inst slug cached)
  remove_cached-Ensures slug none unmanaged copy = done tt
  remove_cached-Ensures slug (some kubeconfig) unmanaged copy =
      Ensures-bind
        (Ensures-calls (λ c h. IsCleanupCall.remote unmanaged copy h)
          (remove_remote-Ensures Obs config inst slug kubeconfig inst.status.active_byoc_target_id))
        (λ _ vacated.
          Ensures-mono
            (λ x _.
              left
                (record {
                  slug = slug;
                  kubeconfig = kubeconfig;
                  unmanaged = unmanaged;
                  copy = copy;
                  vacated = vacated;
                })
                x)
            (delete_cached-Ensures IsCleanupCall.caches slug (λ cached shown controlled.
              IsCleanupCall.releases unmanaged vacated shown controlled)))
        (λ _ _. tt)
    where
      left : HasLeft → (x : Result (Unit {0})) → IsCleanedUp x
      left h (ok _) = inr h
      left h (err e) = tt

  pub cleanup_byoc-Ensures : Ensures Obs IsCleanupCall IsCleanedUp (cleanup_byoc config inst)
  unfolding cleanup_byoc
  cleanup_byoc-Ensures =
      Ensures-bind slug-Ensures
        (λ slug _.
          Ensures-bind
            (Ensures-calls (λ c h. IsCleanupCall.managed h)
              (remove_managed-Ensures Obs config inst inst.status.active_byoc_target_id))
            (λ _ unmanaged.
              Ensures-if (inst.status.active_byoc_kubeconfig_secret_name == "")
                (λ empty. done (inl (eq_of_== _ _ empty)))
                (λ _.
                  Ensures-bind (cached_byoc_kubeconfig-Ensures IsCleanupCall.caches slug)
                    (λ cached copy. remove_cached-Ensures slug cached unmanaged copy) (λ _ _. tt)))
            (λ _ _. tt))
        (λ _ _. tt)
    where
      selected :
          (r : Result Chosen) → Ensures Obs IsCleanupCall (λ _. Unit) (selected_slug config r)
      selected (ok chosen) = done tt
      selected (err e) = done tt

      slug-Ensures : Ensures Obs IsCleanupCall (λ _. Unit) (cleanup_slug config inst)
      slug-Ensures =
          Ensures-if
            (inst.status.active_byoc_slug == ""
              && not (inst.status.active_byoc_kubeconfig_secret_name == ""))
            (λ _. selected (select config.slugs.libraries config.slugs.policy inst.meta))
            (λ _. done tt)

module _ {W : Type 0} (answer : W → (c : Call) → Result (Answer c) × W) (config : ByocConfig)
    (inst : LlmInstance) where
  -- Whatever the API servers answer, `cleanupBYOC` deletes objects on the tenant's cluster only once
  -- the instance's DNS entry and Certificate were found to be gone, only through the operator's own
  -- copy of the credentials, and only if that leads to the cluster of the recorded identity; it
  -- deletes only objects that it read and that carry the instance's UID; it deletes the copy of the
  -- credentials only once all objects there were found to be gone; and it succeeds for an instance
  -- with a remote workload only if all of that was found to be gone.
  pub cleanup_byoc_sound :
      (w : W)
      → IsCleanedUp
          (Seen (run answer (cleanup_byoc config inst) w).1)
          config
          inst
          (run answer (cleanup_byoc config inst) w).0
        × All
            (λ e. IsCleanupCall (Seen (run answer (cleanup_byoc config inst) w).1) config inst e.0)
            (run answer (cleanup_byoc config inst) w).1
  cleanup_byoc_sound w =
      run_sound answer (cleanup_byoc config inst) w
        (cleanup_byoc-Ensures (Seen (run answer (cleanup_byoc config inst) w).1) config inst)
