-- ===== src/Byoc/Departure/Guarded.antt =====
-- What `cleanupBYOC` and `cleanupChangedBYOCTarget` have seen before they delete anything: the order
-- of the removals, the identity of the cluster, and the owner of every object.
use showroom_msp_private_llm.Prelude.{
  String, ◌≡◌, refl, false, not, ◌&&◌, ◌==◌, true_of_not, eq_of_==, Bool-cases, ◌⊎◌, inl, inr,
}
use showroom_msp_private_llm.Prelude.Text.{◌+++◌}
use showroom_msp_private_llm.Kube.{ObjectMeta, LlmInstance}
use showroom_msp_private_llm.Api.{Result, ok, err, Call, Answer, get_namespace}
use showroom_msp_private_llm.Api.Ensures.{
  Ensures, done, Ensures-mono, Ensures-bind, Ensures-lift, Ensures-try, Ensures-calls, Ensures-if,
}
use showroom_msp_private_llm.Byoc.Target.{
  TargetLibraries, nul, byoc_target_identity, cluster_identity, byoc_cluster_identity,
}
use showroom_msp_private_llm.Byoc.Cleanup.{byoc_objects}
use showroom_msp_private_llm.Byoc.Cleanup.Removed.{
  IfOk, IsObjectCall, AllGone, cleanup_byoc_objects-Ensures, IsRemoteTlsCall, IsTlsGone,
  cleanup_byoc_remote_tls-Ensures,
}
use showroom_msp_private_llm.Byoc.Withdrawal.Ordered.{
  IsDnsGone, IsIssuanceGone, IsManagedCall, cleanup_byoc_managed_tls-Ensures,
}
use showroom_msp_private_llm.Byoc.Departure.{ByocConfig, tls_of, remove_remote, remove_managed}

module _ (Obs : (c : Call) → Result (Answer c) → Type 0) (config : ByocConfig) where
  abbrev targets : TargetLibraries
  targets = config.targets

  -- The kubeconfig leads to the cluster of the recorded identity, where one is recorded.
  pub record IsRecorded (kubeconfig target_id : String) : Type 0 where
    pub api_id : String
    pub identified : byoc_target_identity targets kubeconfig ≡ ok api_id
    pub system : ObjectMeta
    pub shown : Obs (get_namespace kubeconfig "kube-system") (ok system)
    pub same : (target_id ≡ "") ⊎ (targets.sha256 (api_id +++ nul +++ system.uid) ≡ target_id)

  -- The calls to the remote cluster: only behind the check of its identity, and the certificate only
  -- once the other objects are gone.
  pub data IsRemoteCall (inst : LlmInstance) (slug kubeconfig target_id : String)
      : Call → Type 0 where
    identifies :
        IsRemoteCall inst slug kubeconfig target_id (get_namespace kubeconfig "kube-system")
    objects :
        {c : Call}
        → IsRecorded kubeconfig target_id
        → IsObjectCall Obs kubeconfig inst c
        → IsRemoteCall inst slug kubeconfig target_id c
    certificate :
        {c : Call}
        → IsRecorded kubeconfig target_id
        → AllGone Obs kubeconfig inst (byoc_objects targets slug)
        → IsRemoteTlsCall Obs targets kubeconfig inst (tls_of config inst) target_id c
        → IsRemoteCall inst slug kubeconfig target_id c

  -- Nothing of the instance is left on the cluster.
  pub record IsVacated (inst : LlmInstance) (slug kubeconfig target_id : String) : Type 0 where
    pub recorded : IsRecorded kubeconfig target_id
    pub removed : AllGone Obs kubeconfig inst (byoc_objects targets slug)
    pub certificate :
        (target_id ≡ "") ⊎ IsTlsGone Obs targets kubeconfig inst (tls_of config inst) target_id

  -- Nor is a certificate or a DNS entry, where there was a target.
  abbrev pub IsUnmanaged : LlmInstance → String → Type 0
  IsUnmanaged inst target_id =
      (target_id ≡ "")
      ⊎ (IsDnsGone Obs targets config.certificates inst (tls_of config inst) target_id
          × IsIssuanceGone Obs targets config.certificates inst (tls_of config inst) target_id)

  pub data IsManagedCallOf (inst : LlmInstance) (target_id : String) : Call → Type 0 where
    managed :
        {c : Call}
        → IsManagedCall Obs targets config.certificates inst (tls_of config inst) target_id c
        → IsManagedCallOf inst target_id c

  pub remove_managed-Ensures :
      (inst : LlmInstance) (target_id : String)
      → Ensures Obs
          (IsManagedCallOf inst target_id)
          (IfOk (IsUnmanaged inst target_id))
          (remove_managed config inst target_id)
  remove_managed-Ensures inst target_id =
      Ensures-if (not (target_id == ""))
        (λ _.
          Ensures-mono (λ x h. wrap x h)
            (Ensures-calls (λ c h. IsManagedCallOf.managed h)
              (cleanup_byoc_managed_tls-Ensures Obs targets config.certificates inst
                (tls_of config inst) target_id)))
        (λ empty. done (inl (eq_of_== _ _ (true_of_not _ empty))))
    where
      wrap :
          (x : Result (Unit {0}))
          → IfOk
              (IsDnsGone Obs targets config.certificates inst (tls_of config inst) target_id
                × IsIssuanceGone Obs targets config.certificates inst
                    (tls_of config inst)
                    target_id)
              x
          → IfOk (IsUnmanaged inst target_id) x
      wrap (ok _) h = inr h
      wrap (err e) h = tt

  module _ (inst : LlmInstance) (slug kubeconfig target_id : String) where
    abbrev IsIdentity : String → Result String → Type 0
    IsIdentity api_id (err e) = Unit
    IsIdentity api_id (ok actual) =
        (system : ObjectMeta) × Obs (get_namespace kubeconfig "kube-system") (ok system)
        × (actual ≡ targets.sha256 (api_id +++ nul +++ system.uid))

    cluster-IsIdentity-Ensures :
        (api_id : String)
        → Ensures Obs
            (IsRemoteCall inst slug kubeconfig target_id)
            (IsIdentity api_id)
            (byoc_cluster_identity targets kubeconfig api_id)
    unfolding byoc_cluster_identity
    cluster-IsIdentity-Ensures api_id = Ensures-try _ IsRemoteCall.identifies judge
      where
        judge :
            (r : Result ObjectMeta)
            → Obs (get_namespace kubeconfig "kube-system") r
            → Ensures Obs
                (IsRemoteCall inst slug kubeconfig target_id)
                (IsIdentity api_id)
                (cluster_identity targets api_id r)
        judge (err e) shown = done tt
        judge (ok system) shown =
            Ensures-if (system.uid == "") (λ _. done tt) (λ _. done (system, shown, refl))

    abbrev Matches : String → Result (Unit {0}) → Type 0
    Matches actual r = IfOk ((target_id ≡ "") ⊎ (actual ≡ target_id)) r

    matches :
        (actual : String)
        → not (target_id == "") && not (actual == target_id) ≡ false
        → (target_id ≡ "") ⊎ (actual ≡ target_id)
    matches actual h = elim (Bool-cases (target_id == "")) [
      | inl empty ↦ inl (eq_of_== _ _ empty)
      | inr set ↦ inr (eq_of_== _ _ (true_of_not _ (rw set at h)))
    ]

    remove_recorded :
        IsRecorded kubeconfig target_id
        → AllGone Obs kubeconfig inst (byoc_objects targets slug)
        → (x : Result (Unit {0}))
        → IfOk (IsTlsGone Obs targets kubeconfig inst (tls_of config inst) target_id) x
        → IfOk (IsVacated inst slug kubeconfig target_id) x
    remove_recorded recorded all (ok _) h = record {
      recorded = recorded;
      removed = all;
      certificate = inr h;
    }
    remove_recorded recorded all (err e) h = tt

    pub remove_remote-Ensures :
        Ensures Obs
          (IsRemoteCall inst slug kubeconfig target_id)
          (IfOk (IsVacated inst slug kubeconfig target_id))
          (remove_remote config inst slug kubeconfig target_id)
    unfolding remove_remote
    remove_remote-Ensures =
        Ensures-lift (targets.builds_client kubeconfig)
          (λ _ _.
            Ensures-lift (byoc_target_identity targets kubeconfig)
              (λ api_id identified.
                Ensures-bind (cluster-IsIdentity-Ensures api_id)
                  (λ actual (system, shown, is_actual).
                    Ensures-bind
                      (Ensures-if {R = Matches actual}
                        (not (target_id == "") && not (actual == target_id)) (λ _. done tt)
                        (λ h. done (matches actual h)))
                      (λ _ same.
                        let recorded : IsRecorded kubeconfig target_id = record {
                          api_id = api_id;
                          identified = identified;
                          system = system;
                          shown = shown;
                          same = rw is_actual at same;
                        } in
                        Ensures-bind
                          (Ensures-calls (λ c h. IsRemoteCall.objects recorded h)
                            (cleanup_byoc_objects-Ensures Obs targets kubeconfig inst slug))
                          (λ _ all.
                            Ensures-if (not (target_id == ""))
                              (λ _.
                                Ensures-mono (λ x h. remove_recorded recorded all x h)
                                  (Ensures-calls (λ c h. IsRemoteCall.certificate recorded all h)
                                    (cleanup_byoc_remote_tls-Ensures Obs targets kubeconfig inst
                                      (tls_of config inst) target_id)))
                              (λ empty. done (record {
                                recorded = recorded;
                                removed = all;
                                certificate = inl (eq_of_== _ _ (true_of_not _ empty));
                              })))
                          (λ _ _. tt))
                      (λ _ _. tt))
                  (λ _ _. tt))
              (λ _ _. tt))
          (λ _ _. tt)
