-- ===== src/Kube/Workloads.antt =====
-- The objects of a model server's workload, with the fields that the instance controller reads and
-- writes: Deployments, Services, their endpoints, and Traefik's middlewares.
use showroom_msp_private_llm.Prelude.{ℕ, String, Bool, Option, List}
use showroom_msp_private_llm.Prelude.Dict.{Dict}
use showroom_msp_private_llm.Prelude.Int.{ℤ}
use showroom_msp_private_llm.Kube.{ObjectMeta}

-- Which API server a call goes to: the controller's own, or the one of a tenant's kubeconfig.
pub data Cluster : Type 0 where
  home : Cluster
  remote : String → Cluster

-- `http_get` has the path and the `IntValue` of the port.
pub data ProbeHandler : Type 0 where
  http_get : String → ℤ → ProbeHandler
  exec : List String → ProbeHandler
  tcp_socket : ℤ → ProbeHandler

pub record Probe : Type 0 where
  pub handler : ProbeHandler
  pub initial_delay_seconds : ℕ
  pub period_seconds : ℕ
  pub timeout_seconds : ℕ
  pub success_threshold : ℕ
  pub failure_threshold : ℕ

pub record ContainerPort : Type 0 where
  pub name : String
  pub port : ℕ
  pub protocol : String

pub record VolumeMount : Type 0 where
  pub name : String
  pub mount_path : String
  pub read_only : Bool

-- `corev1.ResourceRequirements`: quantities by resource name, each the text that was parsed.
pub record Resources : Type 0 where
  pub requests : Dict
  pub limits : Dict

-- An environment variable with its value.
abbrev pub EnvVar : Type 0
EnvVar = String × String

pub record Container : Type 0 where
  pub name : String
  pub image : String
  pub command : List String
  pub args : List String
  pub env : List EnvVar
  pub ports : List ContainerPort
  pub readiness_probe : Option Probe
  pub liveness_probe : Option Probe
  pub volume_mounts : List VolumeMount
  pub resources : Resources

pub data VolumeSource : Type 0 where
  empty_dir : VolumeSource
  secret config_map : String → VolumeSource

pub record Volume : Type 0 where
  pub name : String
  pub source : VolumeSource

pub record PodSpec : Type 0 where
  pub dns_policy : String
  pub init_containers : List Container
  pub containers : List Container
  pub volumes : List Volume

pub record Deployment : Type 0 where
  pub meta : ObjectMeta
  pub replicas : Option ℤ
  pub selector : Dict
  pub template_labels : Dict
  pub template_annotations : Dict
  pub pod : PodSpec
  pub observed_generation : ℤ
  pub updated_replicas : ℤ
  pub ready_replicas : ℤ
  pub available_replicas : ℤ

pub record ServicePort : Type 0 where
  pub name : String
  pub port : ℕ
  pub target_port : ℕ
  pub node_port : ℕ
  pub protocol : String

-- `load_balancer` has the IP address and the host name of each entry of its status.
pub record Service : Type 0 where
  pub meta : ObjectMeta
  pub type : String
  pub selector : Dict
  pub ports : List ServicePort
  pub load_balancer : List (String × String)

-- The endpoints of a Service: per subset, how many addresses are ready, and the ports.
abbrev pub Subset : Type 0
Subset = ℕ × List ℕ

-- A value of a `forwardAuth` block; any other than those that the controller writes by its JSON.
pub data Setting : Type 0 where
  text : String → Setting
  flag : Bool → Setting
  empty_list : Setting
  other : String → Setting

abbrev pub Settings : Type 0
Settings = List (String × Setting)

-- A Traefik Middleware, an unstructured object; what its `spec` holds is read and written by the
-- accessors of the Kubernetes libraries alone.
pub record Middleware : Type 0 where
  pub meta : ObjectMeta
  pub prefixes : List String
  pub forward_auth : Settings
