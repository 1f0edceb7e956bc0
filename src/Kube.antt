-- ===== src/Kube.antt =====
-- The objects of the two custom resources (api/v1alpha1/llminstance_types.go,
-- api/v1alpha1/tokenrequest_types.go) and of the cluster objects that the controllers read and
-- write, with the fields that the sources use.
pub mod Status
pub mod Workloads
pub mod Remote
use showroom_msp_private_llm.Prelude.{
  ℕ, String, Bool, true, false, Option, none, some, List, ◌==◌, not,
}
use showroom_msp_private_llm.Prelude.Dict.{Dict}
use showroom_msp_private_llm.Prelude.Int.{ℤ}

-- An owner reference.
pub record OwnerRef : Type 0 where
  pub api_version : String
  pub kind : String
  pub name : String
  pub uid : String

-- `metav1.ObjectMeta`. A zero time is `none`; `controller` is what `metav1.GetControllerOf` gives, and
-- `owners` are all owner references.
pub record ObjectMeta : Type 0 where
  pub namespace : String
  pub name : String
  pub uid : String
  pub resource_version : String
  pub generation : ℕ
  pub created : Option ℕ
  pub deleting : Option ℕ
  pub labels : Dict
  pub annotations : Dict
  pub controller : Option OwnerRef
  pub finalizers : List String
  pub owners : List OwnerRef

pub record Condition : Type 0 where
  pub type : String
  pub status : Bool
  pub reason : String
  pub message : String
  pub observed_generation : ℕ

pub record CpuResources : Type 0 where
  pub request_milli : ℤ
  pub limit_milli : ℤ

pub record MemoryResources : Type 0 where
  pub request_mib : ℤ
  pub limit_mib : ℤ

pub record ModelServerResources : Type 0 where
  pub cpu : Option CpuResources
  pub memory : Option MemoryResources

-- `LLMInstanceSpec`; `cluster_ref` is the name that `ClusterRef` holds.
pub record InstanceSpec : Type 0 where
  pub model : String
  pub replicas : ℤ
  pub resources : Option ModelServerResources
  pub context_size : Option ℤ
  pub parallel_slots : Option ℤ
  pub dns_policy : String
  pub cluster_ref : Option String

-- `LLMInstanceStatus`
pub record InstanceStatus : Type 0 where
  pub slug : String
  pub slug_source : String
  pub phase : String
  pub endpoint : String
  pub active_byoc_kubeconfig_secret_name : String
  pub active_byoc_target_id : String
  pub active_byoc_tls_domain : String
  pub active_byoc_tls_namespace : String
  pub active_byoc_slug : String
  pub observed_generation : ℕ
  pub conditions : List Condition

pub record LlmInstance : Type 0 where
  pub meta : ObjectMeta
  pub spec : InstanceSpec
  pub status : InstanceStatus

abbrev byoc_ref : Option String → Bool
byoc_ref none = false
byoc_ref (some name) = not (name == "")

-- `IsBYOC`
unfoldable pub is_byoc : LlmInstance → Bool
is_byoc i = byoc_ref i.spec.cluster_ref

pub record TokenRequestSpec : Type 0 where
  pub instance_name : String
  pub description : String

pub record TokenRequestStatus : Type 0 where
  pub phase : String
  pub secret_name : String
  pub observed_generation : ℕ
  pub conditions : List Condition

pub record ApiTokenRequest : Type 0 where
  pub meta : ObjectMeta
  pub spec : TokenRequestSpec
  pub status : TokenRequestStatus

-- `corev1.Secret`; `string_data` is what a create call hands over in clear.
pub record Secret : Type 0 where
  pub meta : ObjectMeta
  pub type : String
  pub content : Dict
  pub string_data : Dict

pub record HttpPath : Type 0 where
  pub path : String
  pub path_type : String
  pub service : String
  pub port : ℕ

pub record IngressRule : Type 0 where
  pub host : String
  pub http : Option (List HttpPath)

pub record IngressTls : Type 0 where
  pub hosts : List String
  pub secret_name : String

-- `networkingv1.Ingress`; of the default backend only its service's name matters.
pub record Ingress : Type 0 where
  pub meta : ObjectMeta
  pub class_name : Option String
  pub default_backend : Option String
  pub rules : List IngressRule
  pub tls : List IngressTls

abbrev pub is_some : Option ℕ → Bool
is_some none = false
is_some (some _) = true

abbrev pub group_version : String
group_version = "llm.privatellms.msp/v1alpha1"

abbrev pub opaque : String
opaque = "Opaque"
