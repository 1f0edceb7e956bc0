-- ===== src/Byoc/Keys/Published.antt =====
-- Which Secret on a tenant's cluster the file of API keys goes to, and what it is when that succeeds.
use showroom_msp_private_llm.Prelude.{
  String, ◌≡◌, refl, Bool, true, false, not, ◌==◌, if◌then◌else◌, true_of_not, or_false_parts,
  eq_of_==,
}
use showroom_msp_private_llm.Prelude.Dict.{
  Dict, get, insert, remove, get-insert_self, get-insert_ne, get-remove_self, get-remove_ne,
}
use showroom_msp_private_llm.Prelude.Lists.{All}
use showroom_msp_private_llm.Kube.{LlmInstance, Secret}
use showroom_msp_private_llm.Api.{
  not_found, Result, ok, err, Call, Answer, get_remote_secret, create_remote_secret,
  update_remote_secret,
}
use showroom_msp_private_llm.Api.Ensures.{
  Ensures, done, Ensures-mono, Ensures-bind, Ensures-call, Ensures-try, Ensures-if, Ensures-calls,
}
use showroom_msp_private_llm.Api.Trace.{Seen, run, run_sound}
use showroom_msp_private_llm.Byoc.Target.{TargetLibraries, check_byoc_object_owner}
use showroom_msp_private_llm.Byoc.Keys.{
  api_key_file_key, bootstrap_annotation, converge_key_secret, keys_key, new_key_secret,
  store_if_changed, store_keys, reconcile_byoc_key_secret, publish_keys,
}
use showroom_msp_private_llm.Byoc.Keys.Granted.{IsKeysRead, IsKeyFile, desired_api_key_file-Ensures}

abbrev mark_of : Bool → String
mark_of bootstrap = if bootstrap then "true" else ""

-- The Secret has the file and the right mark.
pub record Holds (sec : Secret) (file : String) (bootstrap : Bool) : Type 0 where
  pub is_file : get sec.content api_key_file_key ≡ file
  pub is_marked : get sec.meta.annotations bootstrap_annotation ≡ mark_of bootstrap

-- An update touches the file and the mark alone.
pub record SameButKeys (new old : Secret) : Type 0 where
  pub same_type : new.type ≡ old.type
  pub same_name : (new.meta.namespace ≡ old.meta.namespace) × (new.meta.name ≡ old.meta.name)
  pub same_version :
      (new.meta.uid ≡ old.meta.uid) × (new.meta.resource_version ≡ old.meta.resource_version)
  pub same_labels : new.meta.labels ≡ old.meta.labels
  pub same_owners : new.meta.owners ≡ old.meta.owners
  pub same_annotations :
      (key : String)
      → (bootstrap_annotation == key) ≡ false
      → get new.meta.annotations key ≡ get old.meta.annotations key
  pub same_content :
      (key : String) → (api_key_file_key == key) ≡ false → get new.content key ≡ get old.content key

module _ (existing : Secret) (file : String) where
  converge_file :
      (b : Bool)
      → (get existing.content api_key_file_key == file) ≡ b
      → get
          (if b then existing.content else insert api_key_file_key file existing.content)
          api_key_file_key
        ≡ file
  converge_file true e = eq_of_== _ _ e
  converge_file false e = get-insert_self api_key_file_key file existing.content

  converge_other :
      (b : Bool) (key : String)
      → (api_key_file_key == key) ≡ false
      → get (if b then existing.content else insert api_key_file_key file existing.content) key
        ≡ get existing.content key
  converge_other true key ne = refl
  converge_other false key ne = get-insert_ne api_key_file_key key file existing.content ne

  abbrev remarked : Bool → Bool → Dict
  remarked same bootstrap =
      if same
      then existing.meta.annotations
      else if bootstrap
      then insert bootstrap_annotation "true" existing.meta.annotations
      else remove bootstrap_annotation existing.meta.annotations

  converge_mark :
      (b bootstrap : Bool)
      → (get existing.meta.annotations bootstrap_annotation == mark_of bootstrap) ≡ b
      → get (remarked b bootstrap) bootstrap_annotation ≡ mark_of bootstrap
  converge_mark true bootstrap e = eq_of_== _ _ e
  converge_mark false true e = get-insert_self bootstrap_annotation "true" existing.meta.annotations
  converge_mark false false e = get-remove_self bootstrap_annotation existing.meta.annotations

  converge_elsewhere :
      (b bootstrap : Bool) (key : String)
      → (bootstrap_annotation == key) ≡ false
      → get (remarked b bootstrap) key ≡ get existing.meta.annotations key
  converge_elsewhere true bootstrap key ne = refl
  converge_elsewhere false true key ne =
      get-insert_ne bootstrap_annotation key "true" existing.meta.annotations ne
  converge_elsewhere false false key ne =
      get-remove_ne bootstrap_annotation key existing.meta.annotations ne

  converge_key_secret-Holds :
      (bootstrap : Bool) → Holds (converge_key_secret existing file bootstrap).0 file bootstrap
  unfolding converge_key_secret
  converge_key_secret-Holds bootstrap = record {
    is_file = converge_file _ refl;
    is_marked = converge_mark _ bootstrap refl;
  }

  converge_key_secret-SameButKeys :
      (bootstrap : Bool) → SameButKeys (converge_key_secret existing file bootstrap).0 existing
  unfolding converge_key_secret
  converge_key_secret-SameButKeys bootstrap = record {
    same_type = refl;
    same_name = (refl, refl);
    same_version = (refl, refl);
    same_labels = refl;
    same_owners = refl;
    same_annotations = λ key ne. converge_elsewhere _ bootstrap key ne;
    same_content = λ key ne. converge_other _ key ne;
  }

  -- What is reported as unchanged has the file and the mark already.
  converge_unchanged :
      (bootstrap : Bool)
      → (converge_key_secret existing file bootstrap).1 ≡ false
      → Holds existing file bootstrap
  unfolding converge_key_secret
  converge_unchanged bootstrap h = record {
    is_file = eq_of_== _ _ (true_of_not _ (or_false_parts _ _ h).0);
    is_marked = eq_of_== _ _ (true_of_not _ (or_false_parts _ _ h).1);
  }

module _ (Obs : (c : Call) → Result (Answer c) → Type 0) where
  module _ (libraries : TargetLibraries) (kubeconfig : String) (inst : LlmInstance)
      (slug file : String) (bootstrap : Bool) where
    abbrev key_secret : Call
    key_secret = get_remote_secret kubeconfig (keys_key libraries slug)

    -- The calls of `reconcileBYOCKeySecret`.
    pub data IsKeySecretCall : Call → Type 0 where
      reads : IsKeySecretCall key_secret
      creates :
          Obs key_secret (err not_found)
          → IsKeySecretCall
              (create_remote_secret kubeconfig (new_key_secret libraries inst slug file bootstrap))
      updates :
          (old new : Secret)
          → Obs key_secret (ok old)
          → check_byoc_object_owner old.meta inst ≡ true
          → Holds new file bootstrap
          → SameButKeys new old
          → IsKeySecretCall (update_remote_secret kubeconfig new)

    -- Of which object the returned revision is: one that was read with the file, or one that the
    -- cluster answered to a write of it.
    pub data IsRevision : String → Type 0 where
      kept :
          (old : Secret)
          → Obs key_secret (ok old)
          → check_byoc_object_owner old.meta inst ≡ true
          → Holds old file bootstrap
          → IsRevision old.meta.resource_version
      created :
          (stored : Secret)
          → Obs
              (create_remote_secret kubeconfig (new_key_secret libraries inst slug file bootstrap))
              (ok stored)
          → IsRevision stored.meta.resource_version
      updated :
          (new stored : Secret)
          → Holds new file bootstrap
          → Obs (update_remote_secret kubeconfig new) (ok stored)
          → IsRevision stored.meta.resource_version

    abbrev IfRevision : Result String → Type 0
    IfRevision (ok revision) = IsRevision revision
    IfRevision (err e) = Unit

    store-Ensures :
        (old new : Secret) (changed : Bool)
        → Obs key_secret (ok old)
        → check_byoc_object_owner old.meta inst ≡ true
        → Holds new file bootstrap
        → SameButKeys new old
        → (changed ≡ false → Holds old file bootstrap)
        → Ensures Obs IsKeySecretCall IfRevision
            (store_if_changed libraries kubeconfig (new, changed))
    store-Ensures old new true shown owned holds same unchanged =
        Ensures-call _ (IsKeySecretCall.updates old new shown owned holds same)
          (λ stored answered. done (IsRevision.updated new stored holds answered)) (λ _ _. tt)
    store-Ensures old new false shown owned holds same unchanged =
        done (rw (same.same_version.1) (IsRevision.kept old shown owned (unchanged refl)))

    store_keys-Ensures :
        (r : Result Secret)
        → Obs key_secret r
        → Ensures Obs IsKeySecretCall IfRevision
            (store_keys libraries kubeconfig inst slug (file, bootstrap) r)
    store_keys-Ensures (err not_found) shown =
        Ensures-call _ (IsKeySecretCall.creates shown)
          (λ stored answered. done (IsRevision.created stored answered)) (λ _ _. tt)
    store_keys-Ensures (err e) shown = done tt
    store_keys-Ensures (ok old) shown =
        Ensures-if (not (check_byoc_object_owner old.meta inst)) (λ _. done tt)
          (λ owned.
            store-Ensures old _ _ shown (true_of_not _ owned)
              (converge_key_secret-Holds old file bootstrap)
              (converge_key_secret-SameButKeys old file bootstrap)
              (converge_unchanged old file bootstrap))

    reconcile_byoc_key_secret-Ensures :
        Ensures Obs IsKeySecretCall IfRevision
          (reconcile_byoc_key_secret libraries kubeconfig inst slug (file, bootstrap))
    unfolding reconcile_byoc_key_secret
    reconcile_byoc_key_secret-Ensures = Ensures-try _ IsKeySecretCall.reads store_keys-Ensures

  module _ (libraries : TargetLibraries) (kubeconfig : String) (inst : LlmInstance)
      (slug : String) where
    -- A call of `desiredAPIKeyFile`, or one of `reconcileBYOCKeySecret` for the file that it found.
    pub data IsPublishCall : Call → Type 0 where
      collects : {c : Call} → IsKeysRead Obs libraries kubeconfig inst slug c → IsPublishCall c
      publishes :
          (desired : String × Bool) {c : Call}
          → IsKeyFile Obs libraries kubeconfig inst slug desired
          → IsKeySecretCall libraries kubeconfig inst slug desired.0 desired.1 c
          → IsPublishCall c

    -- The returned revision is of a file with the right keys.
    abbrev pub IfPublished : Result String → Type 0
    IfPublished (ok revision) =
        (desired : String × Bool) × IsKeyFile Obs libraries kubeconfig inst slug desired
        × IsRevision libraries kubeconfig inst slug desired.0 desired.1 revision
    IfPublished (err e) = Unit

    published :
        (desired : String × Bool)
        → IsKeyFile Obs libraries kubeconfig inst slug desired
        → (r : Result String) → IfRevision libraries kubeconfig inst slug desired.0 desired.1 r
        → IfPublished r
    published desired right (ok revision) h = (desired, right, h)
    published desired right (err e) h = tt

    publish_keys-Ensures :
        Ensures Obs IsPublishCall IfPublished (publish_keys libraries kubeconfig inst slug)
    unfolding publish_keys
    publish_keys-Ensures =
        Ensures-bind
          (Ensures-calls (λ c h. IsPublishCall.collects h)
            (desired_api_key_file-Ensures Obs libraries kubeconfig inst slug))
          (λ desired right. Ensures-mono (published desired right) (
            Ensures-calls (λ c h. IsPublishCall.publishes desired right h)
              (reconcile_byoc_key_secret-Ensures libraries kubeconfig inst slug desired.0
                desired.1)))
          (λ _ _. tt)

module _ {W : Type 0} (answer : W → (c : Call) → Result (Answer c) × W)
    (libraries : TargetLibraries) (kubeconfig : String) (inst : LlmInstance) (slug : String) where
  -- Whatever the API servers answer, `desiredAPIKeyFile` followed by `reconcileBYOCKeySecret` writes
  -- to the tenant's cluster only the Secret of the keys: it creates one, with the instance's UID, only
  -- where none was found, and updates only one that was read with the instance's UID and without an
  -- owner reference. What it updates has a file with the keys of exactly those listed Secrets that
  -- count, or a bootstrap key, and the mark if and only if that is a bootstrap key; its type, names,
  -- versions, labels, owner references and other annotations and contents are as they were read. The
  -- returned revision is that of a Secret that was read with such a file and mark, or that the cluster
  -- answered to such a write.
  pub publish_keys_sound :
      (w : W)
      → IfPublished
          (Seen (run answer (publish_keys libraries kubeconfig inst slug) w).1)
          libraries
          kubeconfig
          inst
          slug
          (run answer (publish_keys libraries kubeconfig inst slug) w).0
        × All
            (λ e.
              IsPublishCall
                (Seen (run answer (publish_keys libraries kubeconfig inst slug) w).1)
                libraries
                kubeconfig
                inst
                slug
                e.0)
            (run answer (publish_keys libraries kubeconfig inst slug) w).1
  publish_keys_sound w = run_sound answer (publish_keys libraries kubeconfig inst slug) w (
      publish_keys-Ensures (Seen (run answer (publish_keys libraries kubeconfig inst slug) w).1)
        libraries kubeconfig inst slug)
