-- ===== src/Auth.antt =====
-- The forward-auth server: internal/auth/server.go. The listener of `Start` and `httpServer` and
-- the deadlines are the runtime's: a lookup that runs out of time is a call that replies an error.
pub mod Granted
pub mod Verified
pub mod Complete
use showroom_msp_private_llm.Prelude.{
  String, Bool, true, false, Option, none, some, List, [], ◌∷◌, ◌||◌, ◌&&◌, not, ◌==◌, ℕ,
  if◌then◌else◌, nat_eq,
}
use showroom_msp_private_llm.Prelude.Text.{has_prefix, trim_prefix, trim_space, is_blank}
use showroom_msp_private_llm.Prelude.Dict.{get}
use showroom_msp_private_llm.Prelude.Lists.{length}
use showroom_msp_private_llm.Kube.{
  OwnerRef, LlmInstance, ApiTokenRequest, Secret, is_byoc, is_some, group_version, opaque,
}
use showroom_msp_private_llm.Api.{
  Error, Result, ok, err, Reader, cached, live, Key, Call, get_instance, get_request, list_secrets,
  Api, pure, throw, ◌>>=◌, request, attempt, unless_gone,
}
use showroom_msp_private_llm.Slug.Policy.{Libraries, Policy, Chosen, select}

-- The client of the server: cmd/main.go gives it the manager's reader of the API, not its cache.
abbrev auth_reader : Reader
auth_reader = live

abbrev pub slug_key : String
slug_key = "llm.privatellms.msp/slug"

abbrev pub credential_instance_key : String
credential_instance_key = "llm.privatellms.msp/credential-instance-uid"

abbrev pub credential_target_key : String
credential_target_key = "llm.privatellms.msp/credential-target"

abbrev pub instance_key : String
instance_key = "llm.privatellms.msp/instance"

abbrev pub request_key : String
request_key = "llm.privatellms.msp/apitokenrequest"

-- `instanceBinding`
pub record Binding : Type 0 where
  pub namespace : String
  pub name : String
  pub uid : String
  pub slug : String

-- `url.Values`
abbrev pub Query : Type 0
Query = List (String × List String)

-- `query[key]`
unfoldable pub query_values : Query → String → List String
query_values [] key = []
query_values ((k, vs) ∷ rest) key = if k == key then vs else query_values rest key

-- `query.Get(key)`
abbrev pub first_value : List String → String
first_value [] = ""
first_value (v ∷ _) = v

-- The loop of `parseBinding`: every key has one value, which is not blank.
unfoldable pub has_single_values : Query → List String → Bool
has_single_values query [] = true
has_single_values query (key ∷ keys) =
    let values = query_values query key in
    if not (nat_eq (length values) 1) || is_blank (first_value values)
    then false
    else has_single_values query keys

abbrev binding_keys : List String
binding_keys = "namespace" ∷ "instance" ∷ "uid" ∷ "slug" ∷ []

module _ (libraries : Libraries) where
  -- `parseBinding`; `none` where its second result is false
  unfoldable pub parse_binding : Query → Option Binding
  parse_binding query =
      let b : Binding = record {
        namespace = first_value (query_values query "namespace");
        name = first_value (query_values query "instance");
        uid = first_value (query_values query "uid");
        slug = first_value (query_values query "slug");
      } in
      if not (has_single_values query binding_keys)
      then none
      else if libraries.is_dns1123_label b.namespace
          && libraries.is_dns1123_subdomain b.name
          && libraries.is_label_value b.slug
      then some b
      else none

-- The part of `ownsToken` that looks at the Secret alone, up to its controller.
abbrev names_instance : LlmInstance → Secret → Bool
names_instance inst sec =
    sec.meta.namespace == inst.meta.namespace
    && (sec.type == opaque
        && (not (is_some sec.meta.deleting)
            && (get sec.meta.labels instance_key == inst.meta.name
                && (get sec.meta.annotations credential_instance_key == inst.meta.uid
                    && get sec.meta.annotations credential_target_key == ""))))

abbrev is_request_owner : OwnerRef → Bool
is_request_owner owner =
    not (owner.uid == "") && (owner.kind == "APITokenRequest" && owner.api_version == group_version)

-- The last line of `ownsToken`.
abbrev holds_secret : LlmInstance → Secret → OwnerRef → ApiTokenRequest → Bool
holds_secret inst sec owner tr =
    tr.meta.uid == owner.uid
    && (not (is_some tr.meta.deleting)
        && (tr.spec.instance_name == inst.meta.name
            && (tr.status.secret_name == sec.meta.name
                && (nat_eq tr.status.observed_generation tr.meta.generation
                    && get sec.meta.labels request_key == tr.meta.name))))

abbrev request_of : LlmInstance → OwnerRef → Call
request_of inst owner =
    get_request auth_reader (record { namespace = inst.meta.namespace; name = owner.name })

abbrev judge_owner : LlmInstance → Secret → OwnerRef → Result ApiTokenRequest → Api Bool
judge_owner inst sec owner (ok tr) = pure (holds_secret inst sec owner tr)
judge_owner inst sec owner (err e) = unless_gone false e

abbrev check_owner : LlmInstance → Secret → Option OwnerRef → Api Bool
check_owner inst sec none = pure false
check_owner inst sec (some owner) =
    if not (is_request_owner owner)
    then pure false
    else do found ← attempt (request (request_of inst owner)); judge_owner inst sec owner found

-- `ownsToken`
unfoldable pub owns_token : LlmInstance → Secret → Api Bool
owns_token inst sec =
    if not (names_instance inst sec) then pure false else check_owner inst sec sec.meta.controller

-- The loop over the Secrets; bytes are compared as texts.
unfoldable pub any_owned : LlmInstance → String → List Secret → Api Bool
any_owned inst token [] = pure false
any_owned inst token (sec ∷ secrets) =
    if not (get sec.content "OPENAI_API_KEY" == token)
    then any_owned inst token secrets
    else do valid ← owns_token inst sec; if valid then pure true else any_owned inst token secrets

-- A response: its status, and the `WWW-Authenticate` header.
pub record Response : Type 0 where
  pub status : ℕ
  pub challenge : Option String

-- The binding's instance still has the slug that the operator's policy selects for it.
abbrev has_slug : LlmInstance → Binding → Result Chosen → Bool
has_slug inst binding (err _) = false
has_slug inst binding (ok chosen) =
    chosen.slug == binding.slug
    && (inst.status.slug == chosen.slug && inst.status.slug_source == chosen.source)

abbrev is_hosted : LlmInstance → Binding → Bool
is_hosted inst binding =
    inst.meta.uid == binding.uid
    && (not (is_some inst.meta.deleting)
        && (not (is_byoc inst) && inst.status.active_byoc_kubeconfig_secret_name == ""))

abbrev instance_of : Binding → Call
instance_of binding =
    get_instance auth_reader (record { namespace = binding.namespace; name = binding.name })

abbrev secrets_of : LlmInstance → Binding → Call
secrets_of inst binding = list_secrets auth_reader inst.meta.namespace slug_key binding.slug

abbrev respond : Result Bool → Api Response
respond (err e) = pure (record { status = 500; challenge = none })
respond (ok false) =
    pure (record { status = 401; challenge = some "Bearer error=\"invalid_token\"" })
respond (ok true) = pure (record { status = 200; challenge = none })

abbrev bearer_token : String → String
bearer_token header = trim_space (trim_prefix header "Bearer ")

module _ (libraries : Libraries) (policy : Option Policy) where
  abbrev admit : Binding → String → Result LlmInstance → Api Bool
  admit binding token (err e) = unless_gone false e
  admit binding token (ok inst) =
      if not (has_slug inst binding (select libraries policy inst.meta))
      then pure false
      else if not (is_hosted inst binding)
      then pure false
      else do secrets ← request (secrets_of inst binding); any_owned inst token secrets

  -- `authorize`
  unfoldable pub authorize : Binding → String → Api Bool
  authorize binding token = do
    found ← attempt (request (instance_of binding))
    admit binding token found

  abbrev verify_binding : String → Option Binding → Api Response
  verify_binding header none = pure (record { status = 400; challenge = none })
  verify_binding header (some binding) =
      if not (has_prefix header "Bearer ") || bearer_token header == ""
      then pure (record { status = 401; challenge = some "Bearer" })
      else do allowed ← attempt (authorize binding (bearer_token header)); respond allowed

  -- The handler of /auth/verify, from the query and the `Authorization` header.
  unfoldable pub verify : Query → String → Api Response
  verify query header = verify_binding header (parse_binding libraries query)
