-- ===== src/Samples.antt =====
-- A small cluster for the tests: an instance of a hosted model, a token request for it, and the
-- token Secret that the request controls.
use showroom_msp_private_llm.Prelude.{
  String, Bool, true, false, Option, none, some, List, [], ◌∷◌, ◌==◌, ◌||◌, if◌then◌else◌,
}
use showroom_msp_private_llm.Prelude.Int.{pos}
use showroom_msp_private_llm.Prelude.Dict.{Dict}
use showroom_msp_private_llm.Kube.{
  OwnerRef, ObjectMeta, Condition, InstanceStatus, LlmInstance, ApiTokenRequest, Secret,
  group_version, opaque,
}
use showroom_msp_private_llm.Kube.Workloads.{Deployment}
use showroom_msp_private_llm.Api.{
  not_found, Result, ok, err, live, Call, Answer, get_instance, patch_instance_status,
  update_instance_status, update_instance, get_request, list_requests, update_request,
  update_request_status, get_secret, list_secrets, create_secret, update_secret, delete_secret,
  get_ingress, list_ingresses, create_ingress, update_ingress, delete_ingress, get_deployment,
  create_deployment, update_deployment, get_service, create_service, get_endpoints, get_middleware,
  create_middleware, update_middleware, check_health, get_namespace, get_remote_object,
  delete_remote_object, get_remote_secret, create_remote_secret, update_remote_secret,
  delete_remote_secret, create_dns_entry, update_dns_entry, get_certificate, create_certificate,
  update_certificate, delete_certificate, get_dns_entry, delete_dns_entry, read_random, now, pure,
}
use showroom_msp_private_llm.Slug.Keys.{open_object, close_object}
use showroom_msp_private_llm.Slug.Policy.{Entry, Libraries, Policy}
use showroom_msp_private_llm.Slug.Ownership.{Config}
use showroom_msp_private_llm.Slug.Routes.{RouteConfig}
use showroom_msp_private_llm.Hosted.Models.{Texts}
use showroom_msp_private_llm.Hosted.Ingresses.{PublicConfig}
use showroom_msp_private_llm.Hosted.Middlewares.{MiddlewareLibraries}
use showroom_msp_private_llm.Byoc.Target.{RestConfig, TargetLibraries}
use showroom_msp_private_llm.Byoc.Departure.{ByocConfig}
use showroom_msp_private_llm.Instance.{never, Reconciler}
use showroom_msp_private_llm.Token.{Url, finalizer, TokenLibraries, set_condition}

abbrev pub legacy_entry : String → String → String → Entry
legacy_entry uid name slug = record {
  uid = uid;
  namespace = "team";
  name = name;
  mode = "legacy";
  slug = slug;
}

abbrev pub sample_libraries : Libraries
sample_libraries = record {
  tokens = λ _. open_object ∷ close_object ∷ [];
  decode = λ _. ok (record {
    cutover = "2026-01-01T00:00:00Z";
    entries = legacy_entry "u1" "chat" "chat" ∷ legacy_entry "u2" "code" "code" ∷ [];
  });
  at_end = λ _. true;
  parse_time = λ _. some 10;
  is_dns1123_label = λ _. true;
  is_dns1123_subdomain = λ _. true;
  is_label_value = λ _. true;
  digest = λ s. s;
}

abbrev pub sample_policy : Policy
sample_policy = record {
  cutover = 10;
  entries = ("u2", legacy_entry "u2" "code" "code") ∷ ("u1", legacy_entry "u1" "chat" "chat") ∷ [];
}

abbrev pub meta_of : String → String → Dict → Dict → Option OwnerRef → ObjectMeta
meta_of name uid labels annotations controller = record {
  namespace = "team";
  name = name;
  uid = uid;
  resource_version = "7";
  generation = 1;
  created = some 20;
  deleting = none;
  labels = labels;
  annotations = annotations;
  controller = controller;
  finalizers = finalizer ∷ [];
  owners = [];
}

abbrev pub sample_status : InstanceStatus
sample_status = record {
  slug = "chat";
  slug_source = "Legacy";
  phase = "Ready";
  endpoint = "https://models.example/llm/chat";
  active_byoc_kubeconfig_secret_name = "";
  active_byoc_target_id = "";
  active_byoc_tls_domain = "";
  active_byoc_tls_namespace = "";
  active_byoc_slug = "";
  observed_generation = 1;
  conditions =
      record { type = "Ready"; status = true; reason = ""; message = ""; observed_generation = 1 }
      ∷ [];
}

abbrev pub sample_instance : LlmInstance
sample_instance = record {
  meta = meta_of "chat" "u1" [] [] none;
  spec = record {
    model = "phi";
    replicas = pos 1;
    resources = none;
    context_size = none;
    parallel_slots = none;
    dns_policy = "";
    cluster_ref = none;
  };
  status = sample_status;
}

-- The instance before its slug is in the status.
abbrev pub new_instance : LlmInstance
new_instance = record sample_instance {
  status = record sample_status { slug = ""; slug_source = ""; endpoint = "" };
}

abbrev pub sample_request : ApiTokenRequest
sample_request = record {
  meta = meta_of "alice" "r1" [] [] none;
  spec = record { instance_name = "chat"; description = "" };
  status = record {
    phase = "Ready";
    secret_name = "alice-token";
    observed_generation = 1;
    conditions = [];
  };
}

abbrev pub request_owner : OwnerRef
request_owner = record {
  api_version = group_version;
  kind = "APITokenRequest";
  name = "alice";
  uid = "r1";
}

abbrev pub sample_secret : Secret
sample_secret = record {
  meta =
      meta_of "alice-token" "s1"
        (("llm.privatellms.msp/instance", "chat")
          ∷ ("llm.privatellms.msp/slug", "chat")
          ∷ ("llm.privatellms.msp/apitokenrequest", "alice")
          ∷ [])
        (("llm.privatellms.msp/credential-instance-uid", "u1") ∷ []) (some request_owner);
  type = opaque;
  content = ("OPENAI_API_KEY", "k") ∷ ("OPENAI_API_URL", "https://old.example") ∷ [];
  string_data = [];
}

abbrev pub instance_owner : OwnerRef
instance_owner = record {
  api_version = group_version;
  kind = "LLMInstance";
  name = "chat";
  uid = "u1";
}

-- A Deployment that is rolled out, with a server that runs another image.
abbrev pub sample_deployment : Deployment
sample_deployment = record {
  meta = meta_of "chat-llama" "d1" [] [] (some instance_owner);
  replicas = some (pos 2);
  selector = [];
  template_labels = [];
  template_annotations = [];
  pod = record {
    dns_policy = "ClusterFirst";
    init_containers = [];
    containers =
        record {
          name = "llama-cpp-server";
          image = "old";
          command = [];
          args = [];
          env = ("HOME", "/") ∷ [];
          ports = [];
          readiness_probe = none;
          liveness_probe = none;
          volume_mounts = [];
          resources = record { requests = []; limits = [] };
        }
        ∷ [];
    volumes = [];
  };
  observed_generation = pos 3;
  updated_replicas = pos 2;
  ready_replicas = pos 2;
  available_replicas = pos 2;
}

-- The replies of the cluster; writes succeed.
abbrev pub reply : (c : Call) → Result (Answer c)
reply (get_instance _ _) = ok sample_instance
reply (patch_instance_status i) = ok i
reply (update_instance_status i) = ok i
reply (update_instance i) = ok i
reply (get_request _ _) = ok sample_request
reply (list_requests _) = ok (sample_request ∷ [])
reply (update_request t) = ok t
reply (update_request_status t) = ok t
reply (get_secret _) = ok sample_secret
reply (list_secrets _ _ _ _) = ok (sample_secret ∷ [])
reply (create_secret s) = ok s
reply (update_secret s) = ok s
reply (delete_secret _) = ok tt
reply (get_ingress _ _) = err not_found
reply (list_ingresses _) = ok []
reply (create_ingress i) = ok i
reply (update_ingress i) = ok i
reply (delete_ingress _) = ok tt
reply (get_deployment _ _) = ok sample_deployment
reply (create_deployment _ d) = ok d
reply (update_deployment _ d) = ok d
reply (get_service _ _) = err not_found
reply (create_service _ s) = ok s
reply (get_endpoints _ _) = ok ((1, 8000 ∷ []) ∷ [])
reply (get_middleware _) = err not_found
reply (create_middleware m) = ok m
reply (update_middleware m) = ok m
reply (check_health _) = ok tt
reply (get_namespace _ _) = err not_found
reply (get_remote_object _ _ _) = err not_found
reply (delete_remote_object _ _ _) = ok tt
reply (get_remote_secret _ _) = err not_found
reply (create_remote_secret _ s) = ok s
reply (update_remote_secret _ s) = ok s
reply (delete_remote_secret _ _) = ok tt
reply (get_certificate _) = err not_found
reply (create_certificate c) = ok c
reply (update_certificate c) = ok c
reply (delete_certificate _) = ok tt
reply (get_dns_entry _) = err not_found
reply (create_dns_entry d) = ok d
reply (update_dns_entry d) = ok d
reply (delete_dns_entry _) = ok tt
reply (read_random _) = ok (77 ∷ 97 ∷ 110 ∷ [])
reply now = ok "2026-02-01T00:00:00Z"

abbrev pub answer : Unit {0} → (c : Call) → Result (Answer c) × Unit {0}
answer w c = (reply c, w)

abbrev find_by_type : List Condition → String → Option Condition
find_by_type [] type = none
find_by_type (c ∷ cs) type =
    let rest = find_by_type cs type in if c.type == type then some c else rest

abbrev contains_name : List String → String → Bool
contains_name [] name = false
contains_name (n ∷ ns) name = n == name || contains_name ns name

abbrev remove_name : List String → String → List String
remove_name [] name = []
remove_name (n ∷ ns) name = let rest = remove_name ns name in if n == name then rest else n ∷ rest

abbrev owned_by : ApiTokenRequest → Secret → Secret
owned_by tr sec = record sec { meta = record (sec.meta) { controller = some request_owner } }

abbrev pub token_libraries : TokenLibraries
token_libraries = record {
  libraries = sample_libraries;
  policy = some sample_policy;
  find_condition = find_by_type;
  contains_finalizer = contains_name;
  add_finalizer = λ ns name. name ∷ ns;
  remove_finalizer = remove_name;
  set_controller_reference = λ tr sec. ok (owned_by tr sec);
  parse_url = λ _. none;
  is_ip = λ _. false;
}

abbrev pub slug_config : Config
slug_config = record {
  libraries = sample_libraries;
  policy = some sample_policy;
  reader = live;
  set_condition = set_condition;
}

abbrev pub route_config : RouteConfig
route_config = record { to_lower = λ s. s; reader = live; public_host = "models.example" }

-- Numbers are printed as one digit, and only that is read back.
abbrev pub sample_texts : Texts
sample_texts = record {
  to_lower = λ s. s;
  show = λ _. "8";
  atoi = λ s. if s == "8" then some (pos 8) else none;
  milli_value = λ _. pos 500;
  whole_value = λ _. pos 1073741824;
}

abbrev pub public_config : PublicConfig
public_config = record {
  route = route_config;
  public_scheme = "https";
  is_https = true;
  tls_secret_name = "public-tls";
  extra_annotations = ("team", "models") ∷ [];
  set_controller_reference = λ inst ing. ok ing;
}

abbrev pub sample_middlewares : MiddlewareLibraries
sample_middlewares = record {
  is_no_match = λ _. false;
  nested_prefixes = λ mw. ok mw.prefixes;
  set_nested_prefixes = λ prefixes mw. ok (record mw { prefixes = prefixes });
  nested_settings = λ mw. ok mw.forward_auth;
  set_nested_settings = λ settings mw. ok (record mw { forward_auth = settings });
  same_settings = λ _ _. false;
  own_middleware =
      λ inst mw. ok (record mw { meta = record (mw.meta) { controller = some instance_owner } });
  encode = λ _. "namespace=team&instance=chat&uid=u1&slug=chat";
}

abbrev pub sample_url : Url
sample_url = record {
  scheme = "https";
  host = "cluster.example";
  has_user = false;
  opaque_part = "";
  raw_query = "";
  force_query = false;
  fragment = "";
  raw_path = "";
  path = "";
  port = "";
  hostname = "cluster.example";
}

abbrev pub sample_rest : RestConfig
sample_rest = record {
  host = "cluster.example";
  server_name = "";
  ca_data = "CA";
  timeout = 30;
  without_proxy = true;
}

abbrev pub sample_targets : TargetLibraries
sample_targets = record {
  load = λ _. some (
      some (record {
        cluster = some (record {
          server = "https://cluster.example";
          insecure_skip_tls_verify = false;
          certificate_authority = "";
          proxy_url = "";
        });
        auth = none;
      }));
  rest_config = λ _. some sample_rest;
  parse_url = λ _. some sample_url;
  is_dns1123_label = λ _. true;
  is_dns1123_subdomain = λ _. true;
  sha256 = λ s. "digest";
  builds_client = λ _. ok tt;
}

abbrev pub sample_byoc : ByocConfig
sample_byoc = record {
  slugs = slug_config;
  tls = record {
    domain = "models.example";
    namespace = "operator";
    issuer_name = "garden";
    issuer_namespace = "";
    dns_class = "public";
  };
  targets = sample_targets;
  certificates = record { same_spec = λ _ _. true; is_time = λ _. true };
}

abbrev pub sample_reconciler : Reconciler
sample_reconciler = record {
  slugs = slug_config;
  public = public_config;
  backend = record {
    same_resources = λ _ _. true;
    own_deployment = λ inst d. ok d;
    own_service = λ inst s. ok s;
  };
  middlewares = sample_middlewares;
  prints = record { show = λ _. "8"; show_error = λ _. "error" };
  texts = sample_texts;
  ceilings = record {
    cpu_milli = pos 1000;
    memory_mib = pos 0;
    context_size = pos 8192;
    parallel_slots = pos 0;
  };
  auth_service_url = "http://auth/";
  same_status = λ _ _. false;
  contains_finalizer = λ _ _. true;
  add_finalizer = λ ns name. name ∷ ns;
  remove_finalizer = remove_name;
  tls = sample_byoc.tls;
  targets = sample_targets;
  certificates = sample_byoc.certificates;
  reconcile_byoc = λ inst slug model. pure never;
}
