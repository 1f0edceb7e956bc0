-- ===== src/Token.antt =====
-- The controller of API token requests: internal/controller/tokenrequest_controller.go. `Rotation`
-- binds keys to their target, `Secrets` writes the token Secret, `Conditions` is about status
-- conditions, `Reconcile` is the handler, `Finalize` the deletion of a request.
pub mod Base64
pub mod Conditions
pub mod Rotation
pub mod Secrets
pub mod Reconcile
pub mod Finalize
use showroom_msp_private_llm.Prelude.{
  String, Bool, true, false, Option, none, some, List, [], ◌∷◌, ◌++◌, ◌||◌, ◌&&◌, not, ◌==◌,
  if◌then◌else◌,
}
use showroom_msp_private_llm.Prelude.Text.{◌+++◌}
use showroom_msp_private_llm.Kube.{
  OwnerRef, ObjectMeta, Condition, LlmInstance, ApiTokenRequest, Secret, group_version, opaque,
}
use showroom_msp_private_llm.Api.{Key, Result}
use showroom_msp_private_llm.Slug.Policy.{Libraries, Policy}

abbrev pub api_key_key : String
api_key_key = "OPENAI_API_KEY"

abbrev pub api_url_key : String
api_url_key = "OPENAI_API_URL"

abbrev pub compatibility_key : String
compatibility_key = "apeirora.eu/llm-api-compatibility"

abbrev pub updated_at_key : String
updated_at_key = "llm.privatellms.msp/secret-updated-at"

abbrev pub secret_version_key : String
secret_version_key = "llm.privatellms.msp/token-secret-version"

abbrev pub unavailable_key : String
unavailable_key = "llm.privatellms.msp/endpoint-unavailable"

abbrev pub unavailable_url : String
unavailable_url = "https://unavailable.invalid"

abbrev pub finalizer : String
finalizer = "llm.privatellms.msp/apitokenrequest-finalizer"

-- What `net/url.Parse` makes of a text.
pub record Url : Type 0 where
  pub scheme : String
  pub host : String
  pub has_user : Bool
  pub opaque_part : String
  pub raw_query : String
  pub force_query : Bool
  pub fragment : String
  pub raw_path : String
  pub path : String
  pub port : String
  pub hostname : String

-- The libraries that the controller calls: the slug policy with its own; `meta.FindStatusCondition`;
-- the finalizer functions of `controllerutil`; `ctrl.SetControllerReference` with the token request
-- as owner; `url.Parse`, and whether `net.ParseIP` knows a text as an address.
pub record TokenLibraries : Type 0 where
  pub libraries : Libraries
  pub policy : Option Policy
  pub find_condition : List Condition → String → Option Condition
  pub contains_finalizer : List String → String → Bool
  pub add_finalizer : List String → String → List String
  pub remove_finalizer : List String → String → List String
  pub set_controller_reference : ApiTokenRequest → Secret → Result Secret
  pub parse_url : String → Option Url
  pub is_ip : String → Bool

abbrev is_owner : ApiTokenRequest → Option OwnerRef → Bool
is_owner tr none = false
is_owner tr (some owner) =
    owner.api_version == group_version
    && (owner.kind == "APITokenRequest" && (owner.uid == tr.meta.uid && owner.name == tr.meta.name))

-- `ownsTokenSecret`
unfoldable pub owns_token_secret : ApiTokenRequest → Secret → Bool
owns_token_secret tr sec =
    not (tr.meta.uid == "")
    && (sec.meta.namespace == tr.meta.namespace
        && (is_owner tr sec.meta.controller && sec.type == opaque))

abbrev pub token_secret_key : ApiTokenRequest → Key
token_secret_key tr = record { namespace = tr.meta.namespace; name = tr.meta.name +++ "-token" }

-- `setTRStatusCondition` on the list of conditions
unfoldable pub without_type : String → List Condition → List Condition
without_type type [] = []
without_type type (c ∷ cs) =
    let rest = without_type type cs in if c.type == type then rest else c ∷ rest

unfoldable pub set_condition : Condition → List Condition → List Condition
set_condition cond cs = without_type cond.type cs ++ cond ∷ []
