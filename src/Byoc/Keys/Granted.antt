-- ===== src/Byoc/Keys/Granted.antt =====
-- Which keys get into the file of API keys on a tenant's cluster.
use showroom_msp_private_llm.Prelude.{
  ◌==◌, and_parts, eq_of_==, eq_iff, true≢false, sym, ◌∙◌, String, ◌≡◌, refl, Bool, true, false,
  not, Option, none, some, List, [], ◌∷◌, ◌++◌, true_of_not, false_of_not,
}
use showroom_msp_private_llm.Prelude.Text.{◌+++◌}
use showroom_msp_private_llm.Prelude.Dict.{get}
use showroom_msp_private_llm.Prelude.Lists.{All}
use showroom_msp_private_llm.Kube.{
  OwnerRef, LlmInstance, ApiTokenRequest, Secret, is_some, group_version, opaque,
}
use showroom_msp_private_llm.Auth.{credential_instance_key, credential_target_key}
use showroom_msp_private_llm.Api.{
  not_found, Result, ok, err, Call, Answer, get_remote_secret, read_random,
}
use showroom_msp_private_llm.Api.Ensures.{
  Ensures, done, Ensures-bind, Ensures-call, Ensures-try, Ensures-if, Ensures-calls,
}
use showroom_msp_private_llm.Api.Trace.{Seen, run, run_sound}
use showroom_msp_private_llm.Token.Rotation.Bound.{IsFresh, generate_token-Ensures}
use showroom_msp_private_llm.Byoc.Target.{TargetLibraries, check_byoc_object_owner}
use showroom_msp_private_llm.Byoc.Keys.{
  api_key_file_key, sort_keys, key_lines, is_token_secret, held_key, has_line_break, counts,
  owner_request, judge_request, added_keys, collect_keys, token_secrets, fresh_file, is_bootstrap,
  bootstrap_from, keys_key, file_of, desired_api_key_file,
}

module _ (Obs : (c : Call) → Result (Answer c) → Type 0) where
  module _ (inst : LlmInstance) where
    -- A Secret with a controller that may be a token request's.
    pub record IsTokenSecret (sec : Secret) (owner : OwnerRef) : Type 0 where
      pub of_request : (owner.kind ≡ "APITokenRequest") × (owner.api_version ≡ group_version)
      pub is_opaque : sec.type ≡ opaque
      pub stays : is_some sec.meta.deleting ≡ false

    -- Its key counts: the request is the instance's and publishes this Secret, the Secret is bound to
    -- the instance and its active target, and the key is one line.
    pub record IsCounted (sec : Secret) (owner : OwnerRef) (tr : ApiTokenRequest) : Type 0 where
      pub same_request : tr.meta.uid ≡ owner.uid
      pub of_instance : tr.spec.instance_name ≡ inst.meta.name
      pub is_live : is_some tr.meta.deleting ≡ false
      pub publishes : tr.status.secret_name ≡ sec.meta.name
      pub is_active : (inst.status.active_byoc_target_id == "") ≡ false
      pub of_target :
          get sec.meta.annotations credential_target_key ≡ inst.status.active_byoc_target_id
      pub of_uid : get sec.meta.annotations credential_instance_key ≡ inst.meta.uid
      pub has_key : (held_key sec == "") ≡ false
      pub has_one_line : has_line_break (held_key sec) ≡ false

    is_token_secret-IsTokenSecret :
        (sec : Secret) (owner : OwnerRef)
        → is_token_secret sec owner ≡ true
        → IsTokenSecret sec owner
    is_token_secret-IsTokenSecret sec owner h =
        let (kind, h1) = and_parts _ _ h in
        let (version, h2) = and_parts _ _ h1 in
        let (type, live) = and_parts _ _ h2 in
        record {
          of_request = (eq_of_== _ _ kind, eq_of_== _ _ version);
          is_opaque = eq_of_== _ _ type;
          stays = false_of_not _ live;
        }

    IsTokenSecret-is_token_secret :
        (sec : Secret) (owner : OwnerRef)
        → IsTokenSecret sec owner
        → is_token_secret sec owner ≡ true
    IsTokenSecret-is_token_secret sec owner h =
        rw ((eq_iff owner.kind "APITokenRequest").1 h.of_request.0) (
          rw ((eq_iff owner.api_version group_version).1 h.of_request.1)
            (rw ((eq_iff sec.type opaque).1 h.is_opaque) (rw h.stays refl)))

    counts-IsCounted :
        (sec : Secret) (owner : OwnerRef) (tr : ApiTokenRequest)
        → counts inst sec owner tr ≡ true
        → IsCounted sec owner tr
    unfolding counts
    counts-IsCounted sec owner tr h =
        let (requested, h1) = and_parts _ _ h in
        let (targeted, h2) = and_parts _ _ h1 in
        let (keyed, line) = and_parts _ _ h2 in
        let (uid, r1) = and_parts _ _ requested in
        let (name, r2) = and_parts _ _ r1 in
        let (live, secret) = and_parts _ _ r2 in
        let (active, t1) = and_parts _ _ targeted in
        let (target, bound) = and_parts _ _ t1 in
        record {
          same_request = eq_of_== _ _ uid;
          of_instance = eq_of_== _ _ name;
          is_live = false_of_not _ live;
          publishes = eq_of_== _ _ secret;
          is_active = false_of_not _ active;
          of_target = eq_of_== _ _ target;
          of_uid = eq_of_== _ _ bound;
          has_key = false_of_not _ keyed;
          has_one_line = false_of_not _ line;
        }

    IsCounted-counts :
        (sec : Secret) (owner : OwnerRef) (tr : ApiTokenRequest)
        → IsCounted sec owner tr
        → counts inst sec owner tr ≡ true
    unfolding counts
    IsCounted-counts sec owner tr h = rw ((eq_iff tr.meta.uid owner.uid).1 h.same_request) (
        rw ((eq_iff tr.spec.instance_name inst.meta.name).1 h.of_instance) (
          rw h.is_live (
            rw ((eq_iff tr.status.secret_name sec.meta.name).1 h.publishes) (
              rw h.is_active (
                rw
                  ((eq_iff (get sec.meta.annotations credential_target_key)
                      inst.status.active_byoc_target_id).1
                    h.of_target)
                  (rw
                    ((eq_iff (get sec.meta.annotations credential_instance_key) inst.meta.uid).1
                      h.of_uid)
                    (rw h.has_key (rw h.has_one_line refl))))))))

    -- What a listed Secret adds to the keys, and why.
    pub data Adds (sec : Secret) : List String → Type 0 where
      uncontrolled : sec.meta.controller ≡ none → Adds sec []
      foreign :
          (owner : OwnerRef)
          → sec.meta.controller ≡ some owner
          → (IsTokenSecret sec owner → ⊥)
          → Adds sec []
      revoked :
          (owner : OwnerRef)
          → sec.meta.controller ≡ some owner
          → Obs (owner_request inst owner) (err not_found)
          → Adds sec []
      refused :
          (owner : OwnerRef) (tr : ApiTokenRequest)
          → sec.meta.controller ≡ some owner
          → Obs (owner_request inst owner) (ok tr)
          → (IsCounted sec owner tr → ⊥)
          → Adds sec []
      granted :
          (owner : OwnerRef) (tr : ApiTokenRequest)
          → sec.meta.controller ≡ some owner
          → IsTokenSecret sec owner
          → Obs (owner_request inst owner) (ok tr)
          → IsCounted sec owner tr
          → Adds sec (held_key sec ∷ [])

    -- The keys of the listed Secrets, in their order.
    pub data Collects : List Secret → List String → Type 0 where
      nothing : Collects [] []
      more :
          (sec : Secret) {secrets : List Secret} (own later : List String)
          → Adds sec own
          → Collects secrets later
          → Collects (sec ∷ secrets) (own ++ later)

    pub data IsRequestRead : Call → Type 0 where
      reads : (owner : OwnerRef) → IsRequestRead (owner_request inst owner)

    abbrev IfKeys : (List String → Type 0) → Result (List String) → Type 0
    IfKeys P (ok keys) = P keys
    IfKeys P (err e) = Unit

    judge_request-Ensures :
        (sec : Secret) (owner : OwnerRef)
        → sec.meta.controller ≡ some owner
        → is_token_secret sec owner ≡ true
        → (r : Result ApiTokenRequest) → Obs (owner_request inst owner) r
        → Ensures Obs IsRequestRead (IfKeys (Adds sec)) (judge_request inst sec owner r)
    judge_request-Ensures sec owner controlled kind (ok tr) shown =
        Ensures-if (counts inst sec owner tr)
          (λ yes. done (
            Adds.granted owner tr controlled (is_token_secret-IsTokenSecret sec owner kind) shown
              (counts-IsCounted sec owner tr yes)))
          (λ no. done (
            Adds.refused owner tr controlled shown
              (λ h. true≢false (sym (IsCounted-counts sec owner tr h) ∙ no))))
    judge_request-Ensures sec owner controlled kind (err not_found) shown =
        done (Adds.revoked owner controlled shown)
    judge_request-Ensures sec owner controlled kind (err e) shown = done tt

    added_keys-Ensures :
        (sec : Secret) (o : Option OwnerRef)
        → sec.meta.controller ≡ o
        → Ensures Obs IsRequestRead (IfKeys (Adds sec)) (added_keys inst sec o)
    added_keys-Ensures sec none controlled = done (Adds.uncontrolled controlled)
    added_keys-Ensures sec (some owner) controlled =
        Ensures-if (not (is_token_secret sec owner))
          (λ no. done (
            Adds.foreign owner controlled (λ h.
              true≢false (sym (IsTokenSecret-is_token_secret sec owner h) ∙ false_of_not _ no))))
          (λ yes.
            Ensures-try _ (IsRequestRead.reads owner)
              (judge_request-Ensures sec owner controlled (true_of_not _ yes)))

    collect_keys-Ensures :
        (secrets : List Secret)
        → Ensures Obs IsRequestRead (IfKeys (Collects secrets)) (collect_keys inst secrets)
    unfolding collect_keys
    collect_keys-Ensures [] = done Collects.nothing
    collect_keys-Ensures (sec ∷ secrets) =
        Ensures-bind (added_keys-Ensures sec sec.meta.controller refl)
          (λ own adds.
            Ensures-bind (collect_keys-Ensures secrets)
              (λ later rest. done (Collects.more sec own later adds rest)) (λ _ _. tt))
          (λ _ _. tt)

  module _ (libraries : TargetLibraries) (kubeconfig : String) (inst : LlmInstance)
      (slug : String) where
    -- The calls of `desiredAPIKeyFile`: it writes nothing.
    pub data IsKeysRead : Call → Type 0 where
      lists : IsKeysRead (token_secrets inst)
      reads_request : (owner : OwnerRef) → IsKeysRead (owner_request inst owner)
      reads_file : IsKeysRead (get_remote_secret kubeconfig (keys_key libraries slug))
      draws : IsKeysRead (read_random 32)

    abbrev remote_file : Call
    remote_file = get_remote_secret kubeconfig (keys_key libraries slug)

    -- The content of the file, and whether it is the bootstrap key's.
    pub data IsKeyFile : String × Bool → Type 0 where
      granted :
          (secrets : List Secret) (k : String) (keys : List String)
          → Obs (token_secrets inst) (ok secrets)
          → Collects inst secrets (k ∷ keys)
          → IsKeyFile (key_lines (sort_keys (k ∷ keys)), false)
      kept :
          (secrets : List Secret) (file : Secret)
          → Obs (token_secrets inst) (ok secrets)
          → Collects inst secrets []
          → Obs remote_file (ok file)
          → check_byoc_object_owner file.meta inst ≡ true
          → is_bootstrap file ≡ true
          → IsKeyFile (get file.content api_key_file_key, true)
      bootstrapped :
          (secrets : List Secret) (token : String)
          → Obs (token_secrets inst) (ok secrets)
          → Collects inst secrets []
          → IsFresh Obs token
          → IsKeyFile (token +++ "\n", true)

    abbrev pub IfFile : Result (String × Bool) → Type 0
    IfFile (ok file) = IsKeyFile file
    IfFile (err e) = Unit

    module _ (secrets : List Secret) (shown : Obs (token_secrets inst) (ok secrets))
        (empty : Collects inst secrets []) where
      fresh_file-Ensures : Ensures Obs IsKeysRead IfFile fresh_file
      fresh_file-Ensures =
          Ensures-bind (Ensures-calls (λ c e. rw e IsKeysRead.draws) (generate_token-Ensures Obs))
            (λ token fresh. done (IsKeyFile.bootstrapped secrets token shown empty fresh))
            (λ _ _. tt)

      bootstrap_from-Ensures :
          (r : Result Secret)
          → Obs remote_file r
          → Ensures Obs IsKeysRead IfFile (bootstrap_from inst r)
      bootstrap_from-Ensures (err not_found) found = fresh_file-Ensures
      bootstrap_from-Ensures (err e) found = done tt
      bootstrap_from-Ensures (ok file) found =
          Ensures-if (not (check_byoc_object_owner file.meta inst)) (λ _. done tt)
            (λ owned.
              Ensures-if (is_bootstrap file)
                (λ marked.
                  done (IsKeyFile.kept secrets file shown empty found (true_of_not _ owned) marked))
                (λ _. fresh_file-Ensures))

    file_of-Ensures :
        (secrets : List Secret) (keys : List String)
        → Obs (token_secrets inst) (ok secrets)
        → Collects inst secrets keys
        → Ensures Obs IsKeysRead IfFile (file_of libraries kubeconfig inst slug keys)
    file_of-Ensures secrets [] shown all =
        Ensures-try _ IsKeysRead.reads_file (bootstrap_from-Ensures secrets shown all)
    file_of-Ensures secrets (k ∷ keys) shown all = done (IsKeyFile.granted secrets k keys shown all)

    pub desired_api_key_file-Ensures :
        Ensures Obs IsKeysRead IfFile (desired_api_key_file libraries kubeconfig inst slug)
    unfolding desired_api_key_file
    desired_api_key_file-Ensures =
        Ensures-call (token_secrets inst) IsKeysRead.lists
          (λ secrets shown.
            Ensures-bind (Ensures-calls requests (collect_keys-Ensures inst secrets))
              (λ keys all. file_of-Ensures secrets keys shown all) (λ _ _. tt))
          (λ _ _. tt)
      where
        requests : (c : Call) → IsRequestRead inst c → IsKeysRead c
        requests c (IsRequestRead.reads owner) = IsKeysRead.reads_request owner

module _ {W : Type 0} (answer : W → (c : Call) → Result (Answer c) × W)
    (libraries : TargetLibraries) (kubeconfig : String) (inst : LlmInstance) (slug : String) where
  -- Whatever the API answers, `desiredAPIKeyFile` only reads, and draws random bytes. The file that
  -- it returns has, sorted, the keys of exactly those listed Secrets whose controller is a token
  -- request that the API showed, not being deleted, of the instance, with the Secret's name in its
  -- status, and which are bound to the instance's UID and to its active target and hold a key
  -- without a line break; a Secret whose request is gone adds nothing. Only where no Secret counts
  -- is it a bootstrap key: the one on the cluster, of an object that carries the instance's UID and
  -- the mark, or a fresh one.
  pub desired_api_key_file_sound :
      (w : W)
      → IfFile
          (Seen (run answer (desired_api_key_file libraries kubeconfig inst slug) w).1)
          libraries
          kubeconfig
          inst
          slug
          (run answer (desired_api_key_file libraries kubeconfig inst slug) w).0
        × All
            (λ e.
              IsKeysRead
                (Seen (run answer (desired_api_key_file libraries kubeconfig inst slug) w).1)
                libraries
                kubeconfig
                inst
                slug
                e.0)
            (run answer (desired_api_key_file libraries kubeconfig inst slug) w).1
  desired_api_key_file_sound w =
      run_sound answer (desired_api_key_file libraries kubeconfig inst slug) w (
        desired_api_key_file-Ensures
          (Seen (run answer (desired_api_key_file libraries kubeconfig inst slug) w).1) libraries
          kubeconfig inst slug)
