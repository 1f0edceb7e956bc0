-- ===== src/Byoc/Target.antt =====
-- Which cluster a kubeconfig leads to, and which objects there are the instance's:
-- `verifiedBYOCRESTConfig`, `byocTargetIdentity`, `byocClusterIdentity`, `checkBYOCObjectOwner` and
-- `safeBYOCSlug` of internal/controller/llminstance_byoc_transport.go, the names of
-- internal/controller/llminstance_byoc.go, and the names and owners of
-- internal/controller/llminstance_byoc_tls.go.
pub mod Verified
use Prim.Native.String
use showroom_msp_private_llm.Prelude.{
  ℕ, zero, suc, String, Bool, true, false, Option, none, some, List, [], ◌∷◌, ◌||◌, ◌&&◌, not, ◌==◌,
  if◌then◌else◌,
}
use showroom_msp_private_llm.Prelude.Text.{◌+++◌, trim_space}
use showroom_msp_private_llm.Prelude.Dict.{get}
use showroom_msp_private_llm.Kube.{OwnerRef, ObjectMeta, LlmInstance, Secret}
use showroom_msp_private_llm.Api.{
  Error, failure, Result, ok, err, Key, Api, pure, throw, ◌>>=◌, request, attempt, get_namespace,
}
use showroom_msp_private_llm.Token.{Url}

-- `api.Cluster`, `api.AuthInfo` and `api.Context` of a kubeconfig; of a plugin, whether there is one.
pub record KubeCluster : Type 0 where
  pub server : String
  pub insecure_skip_tls_verify : Bool
  pub certificate_authority : String
  pub proxy_url : String

pub record AuthInfo : Type 0 where
  pub has_exec : Bool
  pub has_auth_provider : Bool
  pub token_file : String
  pub client_certificate : String
  pub client_key : String

-- A kubeconfig's current context: its cluster and its credentials, where these are found.
pub record Context : Type 0 where
  pub cluster : Option KubeCluster
  pub auth : Option AuthInfo

-- What `rest.Config` has of a cluster, the deadline of a request in seconds, and whether the
-- configuration has its own choice of a proxy, which is none (without it the environment's is used).
pub record RestConfig : Type 0 where
  pub host : String
  pub server_name : String
  pub ca_data : String
  pub timeout : ℕ
  pub without_proxy : Bool

-- `clientcmd.Load`, with the current context if there is one; `clientcmd.RESTConfigFromKubeConfig`;
-- `url.Parse`; the two validators of apimachinery; SHA-256 in hexadecimal; whether a client can be
-- built (`remoteClientForKubeconfig`: the builder is configurable).
pub record TargetLibraries : Type 0 where
  pub load : String → Option (Option Context)
  pub rest_config : String → Option RestConfig
  pub parse_url : String → Option Url
  pub is_dns1123_label : String → Bool
  pub is_dns1123_subdomain : String → Bool
  pub sha256 : String → String
  pub builds_client : String → Result (Unit {0})

-- The first characters of a text, as `s[:n]` on ASCII.
unfoldable pub first : ℕ → String → String
first zero s = ""
first (suc n) String.[] = ""
first (suc n) (String.◌∷◌ c s) = String.◌∷◌ c (first n s)

abbrev pub byoc_namespace : String
byoc_namespace = "private-llm"

abbrev pub kubeconfig_key : String
kubeconfig_key = "kubeconfig"

abbrev pub owner_uid_annotation : String
owner_uid_annotation = "llm.privatellms.msp/owner-uid"

abbrev pub tls_owner_label : String
tls_owner_label = "llm.privatellms.msp/tls-owner-uid"

abbrev pub tls_certificate_label : String
tls_certificate_label = "llm.privatellms.msp/tls-certificate-uid"

abbrev pub tls_target_label : String
tls_target_label = "llm.privatellms.msp/tls-target"

abbrev pub tls_secret_type : String
tls_secret_type = "kubernetes.io/tls"

-- `BYOCTLSConfig`
pub record TlsConfig : Type 0 where
  pub domain : String
  pub namespace : String
  pub issuer_name : String
  pub issuer_namespace : String
  pub dns_class : String

abbrev has_no_owners : List OwnerRef → Bool
has_no_owners [] = true
has_no_owners (_ ∷ _) = false

-- `checkBYOCObjectOwner`; true where it returns nil
unfoldable pub check_byoc_object_owner : ObjectMeta → LlmInstance → Bool
check_byoc_object_owner obj inst =
    not (inst.meta.uid == "")
    && (get obj.annotations owner_uid_annotation == inst.meta.uid && has_no_owners obj.owners)

-- `requireBYOCTLSOwner`; true where it returns nil
unfoldable pub require_byoc_tls_owner : ObjectMeta → LlmInstance → Bool
require_byoc_tls_owner obj inst =
    get obj.labels tls_owner_label == inst.meta.uid
    && (not (inst.meta.uid == "") && has_no_owners obj.owners)

-- `requireBYOCTargetSecret`; true where it returns nil
unfoldable pub require_byoc_target_secret : Secret → LlmInstance → String → Bool
require_byoc_target_secret secret inst target =
    require_byoc_tls_owner secret.meta inst
    && (get secret.meta.labels tls_target_label == target && secret.type == tls_secret_type)

abbrev is_controlled : Option OwnerRef → String → Bool
is_controlled none uid = false
is_controlled (some owner) uid = owner.uid == uid

-- `metav1.IsControlledBy`
abbrev pub is_controlled_by : ObjectMeta → LlmInstance → Bool
is_controlled_by obj inst = is_controlled obj.controller inst.meta.uid

-- `safeBYOCSlug`
unfoldable pub safe_byoc_slug : LlmInstance → String → String
safe_byoc_slug inst slug =
    if not (inst.status.active_byoc_slug == "")
    then inst.status.active_byoc_slug
    else trim_space slug

-- `byocCleanupTLSConfig`
unfoldable pub byoc_cleanup_tls_config : TlsConfig → LlmInstance → TlsConfig
byoc_cleanup_tls_config cfg inst = record cfg {
  domain =
      if not (inst.status.active_byoc_tls_domain == "")
      then inst.status.active_byoc_tls_domain
      else cfg.domain;
  namespace =
      if not (inst.status.active_byoc_tls_namespace == "")
      then inst.status.active_byoc_tls_namespace
      else cfg.namespace;
}

-- `strings.Contains(s, ".")`
unfoldable pub has_dot : String → Bool
has_dot String.[] = false
has_dot (String.◌∷◌ c s) = first 1 (String.◌∷◌ c s) == "." || has_dot s

abbrev pub nul : String
nul = "\0"

module _ (libraries : TargetLibraries) where
  abbrev is_verified_url : Option Url → Bool
  is_verified_url none = false
  is_verified_url (some u) =
      u.scheme == "https"
      && (not (u.hostname == "") && (not u.has_user && (u.raw_query == "" && u.fragment == "")))

  abbrev is_verified_cluster : KubeCluster → Bool
  is_verified_cluster c =
      is_verified_url (libraries.parse_url c.server)
      && (not c.insecure_skip_tls_verify && (c.certificate_authority == "" && c.proxy_url == ""))

  abbrev is_inline : Option AuthInfo → Bool
  is_inline none = true
  is_inline (some auth) =
      not auth.has_exec
      && (not auth.has_auth_provider
          && (auth.token_file == "" && (auth.client_certificate == "" && auth.client_key == "")))

  abbrev checked_config : Option RestConfig → Result RestConfig
  checked_config none = err (failure "invalid BYOC kubeconfig credentials")
  checked_config (some cfg) = ok (record cfg { timeout = 30; without_proxy = true })

  abbrev verified_cluster : String → Option AuthInfo → Option KubeCluster → Result RestConfig
  verified_cluster kubeconfig auth none = err (failure "BYOC kubeconfig has no selected cluster")
  verified_cluster kubeconfig auth (some c) =
      if not (is_verified_cluster c)
      then err (failure "BYOC API requires verified HTTPS and inline CA kubeconfig without a proxy")
      else if not (is_inline auth)
      then err (failure "BYOC kubeconfig requires inline credentials")
      else checked_config (libraries.rest_config kubeconfig)

  abbrev verified_context : String → Option (Option Context) → Result RestConfig
  verified_context kubeconfig none = err (failure "invalid BYOC kubeconfig")
  verified_context kubeconfig (some none) = err (failure "BYOC kubeconfig has no current context")
  verified_context kubeconfig (some (some c)) = verified_cluster kubeconfig c.auth c.cluster

  -- `verifiedBYOCRESTConfig`
  unfoldable pub verified_byoc_rest_config : String → Result RestConfig
  verified_byoc_rest_config kubeconfig = verified_context kubeconfig (libraries.load kubeconfig)

  abbrev identity_of : Result RestConfig → Result String
  identity_of (err e) = err e
  identity_of (ok cfg) =
      ok (libraries.sha256 (cfg.host +++ nul +++ cfg.server_name +++ nul +++ cfg.ca_data))

  -- `byocTargetIdentity`
  unfoldable pub byoc_target_identity : String → Result String
  byoc_target_identity kubeconfig = identity_of (verified_byoc_rest_config kubeconfig)

  abbrev pub cluster_identity : String → Result ObjectMeta → Api String
  cluster_identity api_id (err e) = throw e
  cluster_identity api_id (ok ns) =
      if ns.uid == ""
      then throw (failure "BYOC cluster namespace has no UID")
      else pure (libraries.sha256 (api_id +++ nul +++ ns.uid))

  -- `byocClusterIdentity`, through the client of a kubeconfig
  unfoldable pub byoc_cluster_identity : String → String → Api String
  byoc_cluster_identity kubeconfig api_id = do
    found ← attempt (request (get_namespace kubeconfig "kube-system"))
    cluster_identity api_id found

  -- `byocBaseName`, and the names made from it
  unfoldable pub byoc_base_name : String → String
  byoc_base_name slug = "llm-" +++ first 12 (libraries.sha256 slug)

  abbrev pub byoc_key_secret_name : String → String
  byoc_key_secret_name slug = byoc_base_name slug +++ "-keys"

  abbrev pub byoc_credentials_name : String → String
  byoc_credentials_name slug = byoc_base_name slug +++ "-credentials"

  abbrev named : TlsConfig → String → Result (String × String)
  named cfg name =
      if not (libraries.is_dns1123_subdomain (name +++ "." +++ cfg.domain))
      then err (failure "BYOC TLS hostname is invalid")
      else ok (name, name +++ "." +++ cfg.domain)

  -- `byocTLSIdentity`: the name of the objects, and the host name
  unfoldable pub byoc_tls_identity : LlmInstance → TlsConfig → String → Result (String × String)
  byoc_tls_identity inst cfg target_id =
      if inst.meta.uid == ""
      then err (failure "BYOC TLS requires an instance UID")
      else if not (libraries.is_dns1123_subdomain cfg.domain) || not (has_dot cfg.domain)
      then err (failure "BYOC TLS requires an operator configured DNS domain")
      else if not (libraries.is_dns1123_label cfg.namespace) || cfg.namespace == inst.meta.namespace
      then err (failure "BYOC TLS requires a separate operator credential namespace")
      else if target_id == ""
      then err (failure "BYOC TLS requires a verified target identity")
      else named cfg ("byoc-" +++ first 32 (libraries.sha256 (inst.meta.uid +++ nul +++ target_id)))

  -- `byocTLSTarget`
  unfoldable pub byoc_tls_target : String → Result String
  byoc_tls_target target_id =
      if target_id == ""
      then err (failure "BYOC TLS requires a verified target identity")
      else ok (first 32 (libraries.sha256 target_id))
