-- ===== src/Token/Secrets/Guarded.antt =====
-- `ensureSecret` and `invalidateTokenEndpoint` write only the Secret of the request, only if the
-- request controls it, and with a key that is bound to the instance and its target.
use showroom_msp_private_llm.Prelude.{
  String, ◌≡◌, ◌≢◌, refl, ◌∙◌, Bool, true, false, not, ◌&&◌, ◌==◌, ◌⊎◌, inl, inr, and_parts,
  false_of_not,
}
use showroom_msp_private_llm.Prelude.Dict.{Dict, get}
use showroom_msp_private_llm.Kube.{LlmInstance, ApiTokenRequest, Secret}
use showroom_msp_private_llm.Api.{
  not_found, Result, ok, err, Call, Answer, Key, get_secret, create_secret, update_secret,
  update_request, now,
}
use showroom_msp_private_llm.Api.Ensures.{Ensures, done, Ensures-call, Ensures-if, Ensures-request}
use showroom_msp_private_llm.Auth.{slug_key, instance_key}
use showroom_msp_private_llm.Token.{
  api_key_key, api_url_key, secret_version_key, TokenLibraries, owns_token_secret,
}
use showroom_msp_private_llm.Token.Rotation.{targets_byoc, is_legacy_bound}
use showroom_msp_private_llm.Token.Rotation.Bound.{
  target_of, instance_of, key_of, expected_target, is_established, IsFresh, IsRotated, untouched,
  adopted, renewed, IsRandomRead,
}
use showroom_msp_private_llm.Token.Secrets.{apply_secret_mutations, touch_api_token_request}
use showroom_msp_private_llm.Token.Secrets.Published.{
  url_of, label_of, is_marked, apply_secret_mutations-IsPublished,
}

-- What `ownsTokenSecret` looks at.
abbrev pub SameOwner : Secret → Secret → Type 0
SameOwner a b =
    (a.type ≡ b.type)
    × (a.meta.namespace ≡ b.meta.namespace)
    × (a.meta.controller ≡ b.meta.controller)

pub owns_token_secret-same :
    (tr : ApiTokenRequest) (a b : Secret)
    → SameOwner a b
    → owns_token_secret tr b ≡ true
    → owns_token_secret tr a ≡ true
unfolding owns_token_secret
owns_token_secret-same tr a b (t, n, c) h = rw (t, n, c) h

module _ (Obs : (c : Call) → Result (Answer c) → Type 0) where
  pub rotated_same :
      {sec : Secret} {inst : LlmInstance} {allow : Bool} {slug : String} {out : Secret × Bool}
      → IsRotated Obs sec inst allow slug out
      → SameOwner out.0 sec
  rotated_same (untouched e _) = rw e (refl, refl, refl)
  rotated_same (adopted _ _ _ _ (t, n, _, _, c, _)) = (t, n, c)
  rotated_same (renewed _ _ _ (t, n, _, _, c, _)) = (t, n, c)

  pub rotated_bound :
      {sec : Secret} {inst : LlmInstance} {allow : Bool} {slug : String} {out : Secret × Bool}
      → IsRotated Obs sec inst allow slug out
      → is_established inst allow ≡ true
      → (target_of out.0 ≡ expected_target inst) × (instance_of out.0 ≡ inst.meta.uid)
  rotated_bound (untouched e f) h = rw e (f h)
  rotated_bound {inst} (adopted _ legacy _ (t, i) _) h =
      let hosted : targets_byoc inst ≡ false = false_of_not _ (and_parts _ _ legacy).0 in
      (t ∙ (rw hosted refl), i)
  rotated_bound (renewed _ _ b _) h = b

  -- Where the key of a Secret may come from: it was bound to the instance and the target already,
  -- or carries a hosted instance's labels unbound, or is new.
  abbrev pub IsSafeKey : Secret → LlmInstance → String → String → Type 0
  IsSafeKey sec inst slug key =
      ((key ≡ key_of sec)
        × (((target_of sec ≡ expected_target inst) × (instance_of sec ≡ inst.meta.uid))
            ⊎ (is_legacy_bound sec inst (targets_byoc inst) slug ≡ true)))
      ⊎ IsFresh Obs key

  pub rotated_key :
      {sec : Secret} {inst : LlmInstance} {allow : Bool} {slug : String} {out : Secret × Bool}
      → IsRotated Obs sec inst allow slug out
      → is_established inst allow ≡ true
      → IsSafeKey sec inst slug (key_of out.0)
  rotated_key (untouched e f) h = inl (rw e (refl, inl (f h)))
  rotated_key (adopted _ legacy k _ _) h = inl (k, inr legacy)
  rotated_key (renewed _ fresh _ _) h = inr fresh

  -- A Secret that `ensureSecret` hands to an update: the request controls what was read and what
  -- is written; the endpoint, the labels and the bindings are the instance's.
  pub record IsServed (tr : ApiTokenRequest) (inst : LlmInstance) (slug endpoint : String)
      (sec out : Secret) : Type 0 where
    pub owned : owns_token_secret tr out ≡ true
    pub url : url_of out ≡ endpoint
    pub instance_label : label_of instance_key out ≡ inst.meta.name
    pub slug_label : slug ≢ "" → label_of slug_key out ≡ slug
    pub unmarked : is_marked out ≡ false
    pub target : target_of out ≡ expected_target inst
    pub instance_uid : instance_of out ≡ inst.meta.uid
    pub key : IsSafeKey sec inst slug (key_of out)

  pub served :
      {tr : ApiTokenRequest} {inst : LlmInstance} {slug endpoint : String} {sec : Secret}
      {rotation : Secret × Bool}
      → owns_token_secret tr sec ≡ true
      → is_established inst true ≡ true
      → IsRotated Obs sec inst true slug rotation
      → IsServed tr inst slug endpoint sec
          (apply_secret_mutations rotation.0 inst.meta.name slug endpoint).0
  served {tr} {inst} {slug} {endpoint} {sec} {rotation} owned h r =
      let p = apply_secret_mutations-IsPublished rotation.0 inst.meta.name slug endpoint in
      let (target, uid) = rotated_bound r h in
      record {
        owned =
            owns_token_secret-same tr _ sec
              (let (t, n, c) = rotated_same r in
                (p.same.type ∙ t, p.same.namespace ∙ n, p.same.controller ∙ c))
              owned;
        url = p.url;
        instance_label = p.instance_label;
        slug_label = p.slug_label;
        unmarked = p.unmarked;
        target = p.same.target ∙ target;
        instance_uid = p.same.instance_uid ∙ uid;
        key = rw (p.same.key) (rotated_key r h);
      }

  -- The first write of a Secret: only where none was found, with a fresh key, the endpoint and the
  -- labels of the instance, as `SetControllerReference` leaves it.
  pub record IsNew (libraries : TokenLibraries) (tr : ApiTokenRequest) (inst : LlmInstance)
      (slug endpoint : String) (out : Secret) : Type 0 where
    pub draft : Secret
    pub controlled : libraries.set_controller_reference tr draft ≡ ok out
    pub fresh : IsFresh Obs (get draft.string_data api_key_key)
    pub url : get draft.string_data api_url_key ≡ endpoint
    pub instance_label : label_of instance_key draft ≡ inst.meta.name
    pub slug_label : slug ≢ "" → label_of slug_key draft ≡ slug
    pub target : target_of draft ≡ expected_target inst
    pub instance_uid : instance_of draft ≡ inst.meta.uid

  abbrev pub secret_key : ApiTokenRequest → String → Key
  secret_key tr name = record { namespace = tr.meta.namespace; name = name }

  abbrev remarked : ApiTokenRequest → Dict → ApiTokenRequest
  remarked tr annotations = record tr { meta = record (tr.meta) { annotations = annotations } }

  -- The request with other annotations.
  pub record IsMarked (tr t : ApiTokenRequest) : Type 0 where
    pub same_spec : t.spec ≡ tr.spec
    pub same_status : t.status ≡ tr.status
    pub same_finalizers : t.meta.finalizers ≡ tr.meta.finalizers
    pub same_key : (t.meta.namespace ≡ tr.meta.namespace) × (t.meta.name ≡ tr.meta.name)
    pub same_version :
        (t.meta.uid ≡ tr.meta.uid) × (t.meta.resource_version ≡ tr.meta.resource_version)

  -- The calls of `touchAPITokenRequest`: the clock, and an update of the request's marks.
  pub data IsTouch (tr : ApiTokenRequest) : Call → Type 0 where
    clock : IsTouch tr now
    mark : {t : ApiTokenRequest} → IsMarked tr t → IsTouch tr (update_request t)

  -- The request as `touchAPITokenRequest` leaves it: as it was, or as the API server returned the
  -- marked one.
  pub data IsTouched (tr : ApiTokenRequest) : ApiTokenRequest → Type 0 where
    unchanged : IsTouched tr tr
    stored :
        {t u : ApiTokenRequest} → IsMarked tr t → Obs (update_request t) (ok u) → IsTouched tr u

  abbrev pub IfTouched : ApiTokenRequest → Result ApiTokenRequest → Type 0
  IfTouched tr (ok u) = IsTouched tr u
  IfTouched tr (err e) = Unit

  pub IsTouch-Ensures :
      (tr : ApiTokenRequest) (version : String)
      → Ensures Obs (IsTouch tr) (IfTouched tr) (touch_api_token_request tr version)
  unfolding touch_api_token_request
  IsTouch-Ensures tr version =
      Ensures-if (not (version == "") && get tr.meta.annotations secret_version_key == version)
        (λ _. done IsTouched.unchanged)
        (λ _.
          Ensures-call now clock
            (λ time _. Ensures-request (update_request _) (mark marked) returned) (λ _ _. tt))
    where
      marked : {annotations : Dict} → IsMarked tr (remarked tr annotations)
      marked = record {
        same_spec = refl;
        same_status = refl;
        same_finalizers = refl;
        same_key = (refl, refl);
        same_version = (refl, refl);
      }

      returned :
          {annotations : Dict} (r : Result ApiTokenRequest)
          → Obs (update_request (remarked tr annotations)) r
          → IfTouched tr r
      returned (ok u) shown = IsTouched.stored marked shown
      returned (err e) shown = tt

  module _ (libraries : TokenLibraries) (tr : ApiTokenRequest) (inst : LlmInstance)
      (name slug endpoint : String) where
    -- The calls of `ensureSecret`.
    pub data IsEnsureCall : Call → Type 0 where
      reads_secret : IsEnsureCall (get_secret (secret_key tr name))
      draws : {c : Call} → IsRandomRead Obs c → IsEnsureCall c
      touches : {c : Call} → IsTouch tr c → IsEnsureCall c
      updates :
          {sec out : Secret}
          → Obs (get_secret (secret_key tr name)) (ok sec)
          → owns_token_secret tr sec ≡ true
          → IsServed tr inst slug endpoint sec out
          → IsEnsureCall (update_secret out)
      creates :
          {out : Secret}
          → Obs (get_secret (secret_key tr name)) (err not_found)
          → IsNew libraries tr inst slug endpoint out
          → IsEnsureCall (create_secret out)
