-- ===== src/Byoc/Material/Written.antt =====
-- Which Secrets `writeBYOCTLSSecret` overwrites.
use showroom_msp_private_llm.Prelude.{String, ◌≡◌, true, false, not, true_of_not}
use showroom_msp_private_llm.Prelude.Dict.{Dict}
use showroom_msp_private_llm.Kube.{LlmInstance, Secret, is_some}
use showroom_msp_private_llm.Kube.Workloads.{Cluster, home, remote}
use showroom_msp_private_llm.Api.{
  not_found, Result, ok, err, Key, Call, Answer, get_secret, create_secret, update_secret,
  get_remote_secret, create_remote_secret, update_remote_secret,
}
use showroom_msp_private_llm.Api.Ensures.{
  Ensures, done, Ensures-bind, Ensures-request, Ensures-try, Ensures-if,
}
use showroom_msp_private_llm.Byoc.Target.{require_byoc_target_secret}
use showroom_msp_private_llm.Byoc.Material.{
  copy_byoc_tls_data, same_pair, new_tls_secret, create_tls, update_tls, write_found,
  write_byoc_tls_secret,
}

module _ (Obs : (c : Call) → Result (Answer c) → Type 0) where
  module _ (key : Key) (inst : LlmInstance) (target : String) (content : Dict) where
    -- A Secret as read that may be overwritten: it is bound to the instance and to the target.
    pub record IsBound (old : Secret) : Type 0 where
      pub bound : require_byoc_target_secret old inst target ≡ true
      pub kept : is_some old.meta.deleting ≡ false

    -- The calls of `writeBYOCTLSSecret`.
    pub data IsTlsCall : Cluster → Call → Type 0 where
      reads : IsTlsCall home (get_secret key)
      creates :
          Obs (get_secret key) (err not_found)
          → IsTlsCall home (create_secret (new_tls_secret key inst target content))
      updates :
          {old : Secret}
          → Obs (get_secret key) (ok old)
          → IsBound old
          → IsTlsCall home (update_secret (record old { content = copy_byoc_tls_data content }))
      reads_remote :
          {kubeconfig : String} → IsTlsCall (remote kubeconfig) (get_remote_secret kubeconfig key)
      creates_remote :
          {kubeconfig : String}
          → Obs (get_remote_secret kubeconfig key) (err not_found)
          → IsTlsCall
              (remote kubeconfig)
              (create_remote_secret kubeconfig (new_tls_secret key inst target content))
      updates_remote :
          {kubeconfig : String} {old : Secret}
          → Obs (get_remote_secret kubeconfig key) (ok old)
          → IsBound old
          → IsTlsCall (remote kubeconfig) (
              update_remote_secret kubeconfig (record old { content = copy_byoc_tls_data content }))

    write_found-Ensures :
        (S : Result Secret → Type 0) (cluster : Cluster) (r : Result Secret)
        → S r
        → (S (err not_found)
            → Ensures Obs
                (IsTlsCall cluster)
                (λ _. Unit)
                (create_tls cluster (new_tls_secret key inst target content)))
        → ((old : Secret)
            → S (ok old)
            → IsBound old
            → Ensures Obs
                (IsTlsCall cluster)
                (λ _. Unit)
                (update_tls cluster (record old { content = copy_byoc_tls_data content })))
        → Ensures Obs
            (IsTlsCall cluster)
            (λ _. Unit)
            (write_found cluster key inst target content r)
    write_found-Ensures S cluster (err not_found) shown create update =
        Ensures-bind (create shown) (λ _ _. done tt) (λ _ _. tt)
    write_found-Ensures S cluster (err e) shown create update = done tt
    write_found-Ensures S cluster (ok old) shown create update =
        Ensures-if (not (require_byoc_target_secret old inst target)) (λ _. done tt)
          (λ owned.
            Ensures-if (is_some old.meta.deleting) (λ _. done tt)
              (λ stays.
                Ensures-if (same_pair old.content (copy_byoc_tls_data content)) (λ _. done tt)
                  (λ _.
                    Ensures-bind
                      (update old shown (record { bound = true_of_not _ owned; kept = stays }))
                      (λ _ _. done tt) (λ _ _. tt))))

    pub write_byoc_tls_secret-Ensures :
        (cluster : Cluster)
        → Ensures Obs
            (IsTlsCall cluster)
            (λ _. Unit)
            (write_byoc_tls_secret cluster key inst target content)
    unfolding write_byoc_tls_secret
    write_byoc_tls_secret-Ensures home = Ensures-try _ IsTlsCall.reads (λ r shown.
        write_found-Ensures (Obs (get_secret key)) home r shown
          (λ gone. Ensures-request _ (IsTlsCall.creates gone) (λ _ _. tt))
          (λ old found bound. Ensures-request _ (IsTlsCall.updates found bound) (λ _ _. tt)))
    write_byoc_tls_secret-Ensures (remote kubeconfig) =
        Ensures-try _ IsTlsCall.reads_remote (λ r shown.
          write_found-Ensures (Obs (get_remote_secret kubeconfig key)) (remote kubeconfig) r shown
            (λ gone. Ensures-request _ (IsTlsCall.creates_remote gone) (λ _ _. tt))
            (λ old found bound.
              Ensures-request _ (IsTlsCall.updates_remote found bound) (λ _ _. tt)))
