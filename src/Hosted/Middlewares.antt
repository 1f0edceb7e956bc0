-- ===== src/Hosted/Middlewares.antt =====
-- The two Traefik middlewares in front of a hosted instance, in
-- internal/controller/llminstance_controller.go: `reconcileStripMiddleware`, and the authentication
-- of `reconcileAuthMiddleware`, `reconcileForwardAuthMiddleware` and `upgradeExistingAuthMiddleware`.
pub mod Stripped
pub mod Authenticated
pub mod Bound
use showroom_msp_private_llm.Prelude.{
  String, Bool, true, false, Option, none, some, List, [], ◌∷◌, ◌&&◌, not, ◌==◌, if◌then◌else◌,
}
use showroom_msp_private_llm.Prelude.Text.{◌+++◌, trim_right_slashes}
use showroom_msp_private_llm.Prelude.Dict.{Dict}
use showroom_msp_private_llm.Kube.{LlmInstance, is_byoc}
use showroom_msp_private_llm.Kube.Workloads.{Setting, text, flag, empty_list, Settings, Middleware}
use showroom_msp_private_llm.Api.{
  Error, not_found, rejection, Result, ok, err, Key, Call, Api, pure, throw, ◌>>=◌, request,
  attempt, lift, get_middleware, create_middleware, update_middleware,
}
use showroom_msp_private_llm.Slug.Policy.{Chosen}
use showroom_msp_private_llm.Slug.Ownership.{Config, select_slug, owns_llm_resource}
use showroom_msp_private_llm.Auth.{Query}
use showroom_msp_private_llm.Hosted.Backend.{backend_key, service_name, llama_labels, fresh_meta}

-- Of the Kubernetes libraries: whether an error says that the cluster knows no Middleware (both
-- tests of the sources), the accessors of unstructured objects, `apiequality.Semantic.DeepEqual` on
-- a block of settings, and `ctrl.SetControllerReference`; of Go's net/url, `Values.Encode`.
pub record MiddlewareLibraries : Type 0 where
  pub is_no_match : Error → Bool
  pub nested_prefixes : Middleware → Result (List String)
  pub set_nested_prefixes : List String → Middleware → Result Middleware
  pub nested_settings : Middleware → Result Settings
  pub set_nested_settings : Settings → Middleware → Result Middleware
  pub same_settings : Settings → Settings → Bool
  pub own_middleware : LlmInstance → Middleware → Result Middleware
  pub encode : Query → String

abbrev pub strip_middleware_name : String → String
strip_middleware_name service = service +++ "-strip"

abbrev pub auth_middleware_name : String → String
auth_middleware_name service = service +++ "-auth"

abbrev is_single : List String → String → Bool
is_single (x ∷ []) value = x == value
is_single _ value = false

-- The query that `reconcileAuthMiddleware` encodes.
unfoldable pub binding_query : LlmInstance → String → Query
binding_query inst slug =
    ("namespace", inst.meta.namespace ∷ [])
    ∷ ("instance", inst.meta.name ∷ [])
    ∷ ("uid", inst.meta.uid ∷ [])
    ∷ ("slug", slug ∷ [])
    ∷ []

-- `desired[key] = value`
unfoldable pub put_setting : String → Setting → Settings → Settings
put_setting key value [] = (key, value) ∷ []
put_setting key value ((first, old) ∷ rest) =
    let later = put_setting key value rest in
    if first == key then (key, value) ∷ rest else (first, old) ∷ later

unfoldable pub setting : String → Settings → Option Setting
setting key [] = none
setting key ((first, value) ∷ rest) =
    let later = setting key rest in if first == key then some value else later

-- The settings that `reconcileAuthMiddleware` writes over the current ones.
unfoldable pub desired_settings : String → Settings → Settings
desired_settings address current =
    put_setting "authResponseHeaders" empty_list
      (put_setting "trustForwardHeader" (flag false) (put_setting "address" (text address) current))

abbrev pub empty_middleware : LlmInstance → Dict → String → Middleware
empty_middleware inst labels name = record {
  meta = fresh_meta inst.meta.namespace name labels;
  prefixes = [];
  forward_auth = [];
}

module _ (libraries : MiddlewareLibraries) where
  abbrev create_strip : LlmInstance → Dict → String → String → Api (Unit {0})
  create_strip inst labels name prefix = do
    mw ← lift (
        libraries.own_middleware inst
          (record (empty_middleware inst labels name) { prefixes = prefix ∷ [] }))
    _ ← request (create_middleware mw)
    pure tt

  abbrev update_strip : Middleware → String → Result (List String) → Api (Unit {0})
  update_strip mw prefix (err e) = throw (rejection "invalid strip middleware")
  update_strip mw prefix (ok current) =
      if is_single current prefix
      then pure tt
      else (elim (libraries.set_nested_prefixes (prefix ∷ []) mw) [
        | err e ↦ throw (rejection "invalid strip middleware")
        | ok changed ↦ (do _ ← request (update_middleware changed); pure tt)
      ])

  abbrev missing_strip : LlmInstance → Dict → String → String → Error → Api (Unit {0})
  missing_strip inst labels name prefix not_found = create_strip inst labels name prefix
  missing_strip inst labels name prefix e = throw e

  abbrev read_strip : LlmInstance → Dict → String → String → Result Middleware → Api (Unit {0})
  read_strip inst labels name prefix (err e) =
      if libraries.is_no_match e then pure tt else missing_strip inst labels name prefix e
  read_strip inst labels name prefix (ok mw) =
      if not (owns_llm_resource inst mw.meta)
      then throw (rejection "refusing to update foreign strip middleware")
      else update_strip mw prefix (libraries.nested_prefixes mw)

  -- `reconcileStripMiddleware`
  unfoldable pub reconcile_strip_middleware : LlmInstance → Dict → String → String → Api (Unit {0})
  reconcile_strip_middleware inst labels service prefix = do
    found ← attempt (request (get_middleware (backend_key inst (strip_middleware_name service))))
    read_strip inst labels (strip_middleware_name service) prefix found

  abbrev write_auth : Bool → Middleware → Api (Unit {0})
  write_auth true mw = do _ ← request (create_middleware mw); pure tt
  write_auth false mw = do _ ← request (update_middleware mw); pure tt

  abbrev ensure_settings : Bool → String → Middleware → Settings → Api (Unit {0})
  ensure_settings creating address mw current =
      if not creating && libraries.same_settings current (desired_settings address current)
      then pure tt
      else (elim (libraries.set_nested_settings (desired_settings address current) mw) [
        | err e ↦ throw (rejection "invalid forwardAuth middleware")
        | ok changed ↦ write_auth creating changed
      ])

  -- The part of `reconcileAuthMiddleware` behind its check of the owner.
  abbrev ensure_auth : Bool → String → Middleware → Api (Unit {0})
  ensure_auth creating address mw = elim (libraries.nested_settings mw) [
    | err e ↦ throw (rejection "invalid forwardAuth middleware")
    | ok current ↦ ensure_settings creating address mw current
  ]

  abbrev create_auth : LlmInstance → Dict → String → String → Bool → Api (Unit {0})
  create_auth inst labels name address create_if_missing =
      if not create_if_missing then pure tt else do
        mw ← lift (libraries.own_middleware inst (empty_middleware inst labels name))
        ensure_auth true address mw

  abbrev missing_auth : LlmInstance → Dict → String → String → Bool → Error → Api (Unit {0})
  missing_auth inst labels name address create_if_missing not_found =
      create_auth inst labels name address create_if_missing
  missing_auth inst labels name address create_if_missing e = throw e

  abbrev read_auth :
      LlmInstance → Dict → String → String → Bool → Result Middleware → Api (Unit {0})
  read_auth inst labels name address create_if_missing (err e) =
      if libraries.is_no_match e
      then pure tt
      else missing_auth inst labels name address create_if_missing e
  read_auth inst labels name address create_if_missing (ok mw) =
      if not (owns_llm_resource inst mw.meta)
      then throw (rejection "refusing to update foreign forwardAuth middleware")
      else ensure_auth false address mw

  -- The second parameter is the reconciler's `AuthServiceURL`.
  module _ (auth_service_url : String) where
    unfoldable pub auth_address : LlmInstance → String → String
    auth_address inst slug =
        trim_right_slashes auth_service_url
        +++ "/auth/verify?"
        +++ libraries.encode (binding_query inst slug)

    -- `reconcileAuthMiddleware`; `reconcileForwardAuthMiddleware` where the last argument is true
    unfoldable pub reconcile_auth_middleware :
        LlmInstance → Dict → String → String → Bool → Api (Unit {0})
    reconcile_auth_middleware inst labels service slug create_if_missing =
        if inst.meta.uid == ""
        then throw (rejection "cannot bind forwardAuth to an instance without a UID")
        else (do
          found ←
              attempt (request (get_middleware (backend_key inst (auth_middleware_name service))))
          read_auth inst labels (auth_middleware_name service) (auth_address inst slug)
              create_if_missing found)

    abbrev upgrade_selected : LlmInstance → Result Chosen → Api (Unit {0})
    upgrade_selected inst (err e) = throw e
    upgrade_selected inst (ok chosen) =
        reconcile_auth_middleware inst (llama_labels inst.meta.name) (service_name inst) chosen.slug
          false

    -- `upgradeExistingAuthMiddleware`
    unfoldable pub upgrade_existing_auth_middleware : Config → LlmInstance → Api (Unit {0})
    upgrade_existing_auth_middleware config inst =
        if is_byoc inst then pure tt else upgrade_selected inst (select_slug config inst)
