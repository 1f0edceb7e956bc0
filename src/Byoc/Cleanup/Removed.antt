-- ===== src/Byoc/Cleanup/Removed.antt =====
-- What the removals from a tenant's cluster delete, and what is known to be gone when they succeed.
use showroom_msp_private_llm.Prelude.{
  String, ◌≡◌, refl, true, false, not, true_of_not, or_false_parts, List, [], ◌∷◌, ◌++◌,
}
use showroom_msp_private_llm.Prelude.Lists.{All}
use showroom_msp_private_llm.Kube.{ObjectMeta, LlmInstance, Secret, is_some}
use showroom_msp_private_llm.Kube.Remote.{ObjectKind}
use showroom_msp_private_llm.Api.{
  Error, not_found, conflict, already_exists, rejection, failure, tls_not_ready, join, Result, ok,
  err, Key, Call, Answer, get_remote_object, delete_remote_object, get_remote_secret,
  delete_remote_secret, throw, ◌>>=◌,
}
use showroom_msp_private_llm.Api.Ensures.{
  Ensures, done, Ensures-mono, Ensures-bind, Ensures-lift, Ensures-try, Ensures-if,
}
use showroom_msp_private_llm.Byoc.Target.{
  TargetLibraries, TlsConfig, byoc_namespace, check_byoc_object_owner, require_byoc_target_secret,
  byoc_tls_identity, byoc_tls_target,
}
use showroom_msp_private_llm.Byoc.Cleanup.{
  gone, join_errors, Removal, deletion_errors, remove_found, remove_objects, report_removal,
  byoc_objects, cleanup_byoc_objects, remove_remote_tls, cleanup_byoc_remote_tls,
}

-- What succeeds establishes `P`.
abbrev pub IfOk : Type 0 → Result (Unit {0}) → Type 0
IfOk P (ok _) = P
IfOk P (err e) = Unit

module _ (Obs : (c : Call) → Result (Answer c) → Type 0) where
  -- The wait behind a delete never succeeds.
  pub gone-Ensures :
      {A : Type 0} {P : Call → Type 0} {R : Result A → Type 0} (e : Error)
      → ((f : Error) → R (err f))
      → (r : Result (Unit {0})) → Ensures Obs P R (gone r >>= λ _. throw e)
  unfolding ◌>>=◌
  gone-Ensures e fails (ok _) = done (fails e)
  gone-Ensures e fails (err not_found) = done (fails e)
  gone-Ensures e fails (err conflict) = done (fails _)
  gone-Ensures e fails (err already_exists) = done (fails _)
  gone-Ensures e fails (err (rejection _)) = done (fails _)
  gone-Ensures e fails (err (failure _)) = done (fails _)
  gone-Ensures e fails (err (tls_not_ready _)) = done (fails _)
  gone-Ensures e fails (err (join _ _)) = done (fails _)

  module _ (kubeconfig : String) (inst : LlmInstance) where
    -- The calls of `cleanupBYOCObjects`: an object is deleted only as it was read, and if it carries
    -- the instance's UID and no owner reference.
    pub data IsObjectCall : Call → Type 0 where
      reads : (kind : ObjectKind) (key : Key) → IsObjectCall (get_remote_object kubeconfig kind key)
      deletes :
          {kind : ObjectKind} {key : Key} {obj : ObjectMeta}
          → Obs (get_remote_object kubeconfig kind key) (ok obj)
          → check_byoc_object_owner obj inst ≡ true
          → IsObjectCall (delete_remote_object kubeconfig kind obj)

    abbrev pub AllGone : List (ObjectKind × Key) → Type 0
    AllGone objects = All (λ o. Obs (get_remote_object kubeconfig o.0 o.1) (err not_found)) objects

    abbrev IsFree : Type 0 → Result Removal → Type 0
    IsFree P (ok (errors, pending)) = errors ≡ [] → pending ≡ false → P
    IsFree P (err e) = Unit

    deletion_errors-pending : (r : Result (Unit {0})) → (deletion_errors r).1 ≡ true
    deletion_errors-pending (ok _) = refl
    deletion_errors-pending (err not_found) = refl
    deletion_errors-pending (err conflict) = refl
    deletion_errors-pending (err already_exists) = refl
    deletion_errors-pending (err (rejection _)) = refl
    deletion_errors-pending (err (failure _)) = refl
    deletion_errors-pending (err (tls_not_ready _)) = refl
    deletion_errors-pending (err (join _ _)) = refl

    remove_found-Ensures :
        (kind : ObjectKind) (key : Key) (r : Result ObjectMeta)
        → Obs (get_remote_object kubeconfig kind key) r
        → Ensures Obs IsObjectCall
            (IsFree (Obs (get_remote_object kubeconfig kind key) (err not_found)))
            (remove_found kubeconfig inst kind r)
    remove_found-Ensures kind key (err not_found) shown = done (λ _ _. shown)
    remove_found-Ensures kind key (err conflict) shown = done (λ h _. cc)
    remove_found-Ensures kind key (err already_exists) shown = done (λ h _. cc)
    remove_found-Ensures kind key (err (rejection _)) shown = done (λ h _. cc)
    remove_found-Ensures kind key (err (failure _)) shown = done (λ h _. cc)
    remove_found-Ensures kind key (err (tls_not_ready _)) shown = done (λ h _. cc)
    remove_found-Ensures kind key (err (join _ _)) shown = done (λ h _. cc)
    remove_found-Ensures kind key (ok obj) shown =
        Ensures-if (not (check_byoc_object_owner obj inst)) (λ _. done (λ h _. cc))
          (λ owned.
            Ensures-try _ (IsObjectCall.deletes shown (true_of_not _ owned))
              (λ r _. done (λ _ pending. let h = deletion_errors-pending r in cc)))

    append_nil : {A : Type 0} (xs ys : List A) → xs ++ ys ≡ [] → (xs ≡ []) × (ys ≡ [])
    append_nil [] ys h = (refl, h)
    append_nil (x ∷ xs) ys h = cc

    remove_objects-Ensures :
        (objects : List (ObjectKind × Key))
        → Ensures Obs IsObjectCall
            (IsFree (AllGone objects))
            (remove_objects kubeconfig inst objects)
    unfolding remove_objects
    remove_objects-Ensures [] = done (λ _ _. tt)
    remove_objects-Ensures ((kind, key) ∷ rest) =
        Ensures-try _ (IsObjectCall.reads kind key) (λ r shown.
          Ensures-bind (remove_found-Ensures kind key r shown)
            (λ first here.
              Ensures-bind (remove_objects-Ensures rest)
                (λ later there. done (λ none waits.
                  let (no_first, no_later) = append_nil first.0 later.0 none in
                  let (first_gone, later_gone) = or_false_parts first.1 later.1 waits in
                  (here no_first first_gone, there no_later later_gone)))
                (λ _ _. tt))
            (λ _ _. tt))

  report_removal-IfOk :
      (P : Type 0) (removal : Removal)
      → (removal.0 ≡ [] → removal.1 ≡ false → P)
      → IfOk P (report_removal removal)
  unfolding join_errors
  report_removal-IfOk P ([], false) h = h refl refl
  report_removal-IfOk P ([], true) h = tt
  report_removal-IfOk P (e ∷ errors, pending) h = tt

  module _ (libraries : TargetLibraries) (kubeconfig : String) (inst : LlmInstance) where
    pub cleanup_byoc_objects-Ensures :
        (slug : String)
        → Ensures Obs
            (IsObjectCall kubeconfig inst)
            (IfOk (AllGone kubeconfig inst (byoc_objects libraries slug)))
            (cleanup_byoc_objects libraries kubeconfig inst slug)
    unfolding cleanup_byoc_objects
    cleanup_byoc_objects-Ensures slug =
        Ensures-bind (remove_objects-Ensures kubeconfig inst (byoc_objects libraries slug))
          (λ removal h. done (report_removal-IfOk _ removal h)) (λ _ _. tt)

    -- The calls of `cleanupBYOCRemoteTLS`.
    pub data IsRemoteTlsCall (cfg : TlsConfig) (target_id : String) : Call → Type 0 where
      reads : (key : Key) → IsRemoteTlsCall cfg target_id (get_remote_secret kubeconfig key)
      deletes :
          {key : Key} {sec : Secret} {target : String}
          → Obs (get_remote_secret kubeconfig key) (ok sec)
          → byoc_tls_target libraries target_id ≡ ok target
          → require_byoc_target_secret sec inst target ≡ true
          → IsRemoteTlsCall cfg target_id (delete_remote_secret kubeconfig sec)

    -- The certificate's Secret is not on the remote cluster.
    abbrev pub IsTlsGone : TlsConfig → String → Type 0
    IsTlsGone cfg target_id =
        (names : String × String) × (byoc_tls_identity libraries inst cfg target_id ≡ ok names)
        × Obs (get_remote_secret kubeconfig (record { namespace = byoc_namespace; name = names.0 }))
            (err not_found)

    module _ (cfg : TlsConfig) (target_id : String) where
      remove_remote_tls-Ensures :
          (key : Key) (target : String) (r : Result Secret)
          → Obs (get_remote_secret kubeconfig key) r
          → byoc_tls_target libraries target_id ≡ ok target
          → Ensures Obs
              (IsRemoteTlsCall cfg target_id)
              (IfOk (Obs (get_remote_secret kubeconfig key) (err not_found)))
              (remove_remote_tls libraries kubeconfig inst target r)
      remove_remote_tls-Ensures key target (err not_found) shown t = done shown
      remove_remote_tls-Ensures key target (err conflict) shown t = done tt
      remove_remote_tls-Ensures key target (err already_exists) shown t = done tt
      remove_remote_tls-Ensures key target (err (rejection _)) shown t = done tt
      remove_remote_tls-Ensures key target (err (failure _)) shown t = done tt
      remove_remote_tls-Ensures key target (err (tls_not_ready _)) shown t = done tt
      remove_remote_tls-Ensures key target (err (join _ _)) shown t = done tt
      remove_remote_tls-Ensures key target (ok sec) shown t =
          Ensures-if (not (require_byoc_target_secret sec inst target)) (λ _. done tt)
            (λ bound.
              Ensures-if (is_some sec.meta.deleting) (λ _. done tt)
                (λ _.
                  Ensures-try _ (IsRemoteTlsCall.deletes shown t (true_of_not _ bound))
                    (λ d _. gone-Ensures _ (λ _. tt) d)))

      pub cleanup_byoc_remote_tls-Ensures :
          Ensures Obs
            (IsRemoteTlsCall cfg target_id)
            (IfOk (IsTlsGone cfg target_id))
            (cleanup_byoc_remote_tls libraries kubeconfig inst cfg target_id)
      unfolding cleanup_byoc_remote_tls
      cleanup_byoc_remote_tls-Ensures =
          Ensures-lift (byoc_tls_identity libraries inst cfg target_id)
            (λ names n.
              Ensures-lift (byoc_tls_target libraries target_id)
                (λ target t. Ensures-try _ (IsRemoteTlsCall.reads _) (λ r shown.
                  Ensures-mono (λ x h. found names n x h)
                    (remove_remote_tls-Ensures _ target r shown t)))
                (λ _ _. tt))
            (λ _ _. tt)
        where
          found :
              (names : String × String)
              → byoc_tls_identity libraries inst cfg target_id ≡ ok names
              → (x : Result (Unit {0}))
              → IfOk
                  (Obs
                    (get_remote_secret kubeconfig
                      (record { namespace = byoc_namespace; name = names.0 }))
                    (err not_found))
                  x
              → IfOk (IsTlsGone cfg target_id) x
          found names n (ok _) h = (names, n, h)
          found names n (err e) h = tt
