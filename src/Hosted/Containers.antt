-- ===== src/Hosted/Containers.antt =====
-- The containers of a model server, in internal/controller/llminstance_controller.go: the one that
-- downloads the model, the server with its probes, the Deployment that is created from them
-- (`buildDeployment`), and how an existing one is brought up to date (`ensureDeploymentModel`).
pub mod Current
pub mod Converged
use showroom_msp_private_llm.Prelude.{
  ℕ, String, Bool, true, false, Option, none, some, List, [], ◌∷◌, ◌++◌, ◌||◌, ◌&&◌, not, ◌==◌,
  if◌then◌else◌, nat_eq,
}
use showroom_msp_private_llm.Prelude.Text.{◌+++◌}
use showroom_msp_private_llm.Prelude.Dict.{Dict, insert}
use showroom_msp_private_llm.Prelude.Int.{ℤ, pos}
use showroom_msp_private_llm.Kube.{LlmInstance}
use showroom_msp_private_llm.Kube.Workloads.{
  ProbeHandler, http_get, Probe, EnvVar, VolumeMount, Container, Resources, Volume, empty_dir,
  Deployment,
}
use showroom_msp_private_llm.Hosted.Models.{ModelSelection, path}
use showroom_msp_private_llm.Hosted.Deployments.{
  effective_dns_policy, server_arguments, model_download_command, same_integer,
}

-- `llamaModelVolume`
abbrev llama_model_volume : Volume
llama_model_volume = record { name = "models-volume"; source = empty_dir }

abbrev models_mount : VolumeMount
models_mount = record { name = "models-volume"; mount_path = "/models"; read_only = false }

-- `requests[name] = resource.MustParse(value)`, if there is a value
abbrev put_quantity : String → String → Dict → Dict
put_quantity name value quantities =
    if value == "" then quantities else insert name value quantities

-- The resources of `llamaInitContainer`.
unfoldable pub init_resources : ModelSelection → Resources
init_resources model = record {
  requests = put_quantity "ephemeral-storage" model.ephemeral_storage_request [];
  limits = put_quantity "ephemeral-storage" model.ephemeral_storage_limit [];
}

-- The resources of `llamaServerContainer`.
unfoldable pub server_resources : ModelSelection → Resources
server_resources model = record {
  requests = put_quantity "memory" model.memory_request (put_quantity "cpu" model.cpu_request []);
  limits = put_quantity "memory" model.memory_limit (put_quantity "cpu" model.cpu_limit []);
}

-- `llamaInitContainer`
unfoldable pub llama_init_container : ModelSelection → Container
llama_init_container model = record {
  name = "download-model";
  image = "curlimages/curl:8.8.0";
  command = "/bin/sh" ∷ "-c" ∷ [];
  args = model_download_command model ∷ [];
  env = [];
  ports = [];
  readiness_probe = none;
  liveness_probe = none;
  volume_mounts = models_mount ∷ [];
  resources = init_resources model;
}

-- `llmReadinessProbe`
abbrev pub llm_readiness_probe : Probe
llm_readiness_probe = record {
  handler = http_get "/health" (pos 8000);
  initial_delay_seconds = 0;
  period_seconds = 5;
  timeout_seconds = 2;
  success_threshold = 0;
  failure_threshold = 6;
}

-- `llmLivenessProbe`
abbrev pub llm_liveness_probe : Probe
llm_liveness_probe = record {
  handler = http_get "/health" (pos 8000);
  initial_delay_seconds = 20;
  period_seconds = 10;
  timeout_seconds = 2;
  success_threshold = 0;
  failure_threshold = 6;
}

abbrev pub llama_server_image : String
llama_server_image =
    "ghcr.io/ggml-org/llama.cpp@sha256:51570a4f93c5ce81ac6f2b1ea16a58771cfded2adb34241df7e75329b24fe76e"

-- `llamaServerContainer`
unfoldable pub llama_server_container : ModelSelection → List String → Container
llama_server_container model extra_args = record {
  name = "llama-cpp-server";
  image = llama_server_image;
  command = "/app/llama-server" ∷ [];
  args = server_arguments model extra_args;
  env = ("MODEL_PATH", path model) ∷ [];
  ports = record { name = ""; port = 8000; protocol = "TCP" } ∷ [];
  readiness_probe = some llm_readiness_probe;
  liveness_probe = some llm_liveness_probe;
  volume_mounts = models_mount ∷ [];
  resources = server_resources model;
}

-- `buildDeployment`
unfoldable pub build_deployment : LlmInstance → Dict → ℤ → ModelSelection → Deployment
build_deployment inst labels replicas model = record {
  meta = record {
    namespace = inst.meta.namespace;
    name = inst.meta.name +++ "-llama";
    uid = "";
    resource_version = "";
    generation = 0;
    created = none;
    deleting = none;
    labels = labels;
    annotations = [];
    controller = none;
    finalizers = [];
    owners = [];
  };
  replicas = some replicas;
  selector = labels;
  template_labels = labels;
  template_annotations = [];
  pod = record {
    dns_policy = effective_dns_policy inst;
    init_containers = llama_init_container model ∷ [];
    containers = llama_server_container model [] ∷ [];
    volumes = llama_model_volume ∷ [];
  };
  observed_generation = pos 0;
  updated_replicas = pos 0;
  ready_replicas = pos 0;
  available_replicas = pos 0;
}

-- One assignment of `ensureDeploymentModel`: the value that the field has then, and whether it has
-- changed.
unfoldable pub keep_or {ℓ} : {A : Type ℓ} → Bool → A → A → A × Bool
keep_or same current desired = if same then (current, false) else (desired, true)

-- `stringSliceEqual`
unfoldable pub string_slice_equal : List String → List String → Bool
string_slice_equal [] [] = true
string_slice_equal (a ∷ xs) (b ∷ ys) = a == b && string_slice_equal xs ys
string_slice_equal _ _ = false

-- The loop of `ensureDeploymentModel` over the environment: it with the path written, whether the
-- variable was found, and whether it had another value.
unfoldable pub write_model_path : String → List EnvVar → List EnvVar × (Bool × Bool)
write_model_path value [] = ([], (false, false))
write_model_path value ((name, old) ∷ env) =
    let (later, (found, changed)) = write_model_path value env in
    if name == "MODEL_PATH"
    then ((name, value) ∷ later, (true, not (old == value) || changed))
    else ((name, old) ∷ later, (found, changed))

unfoldable pub ensure_env : String → List EnvVar → List EnvVar × Bool
ensure_env value env =
    let (written, (found, changed)) = write_model_path value env in
    if found then (written, changed) else (env ++ ("MODEL_PATH", value) ∷ [], true)

-- The condition of `ensureLLMContainerProbes`, negated.
abbrev checks_health : ProbeHandler → Bool
checks_health (http_get path port) = path == "/health" && same_integer port (pos 8000)
checks_health _ = false

unfoldable pub is_health_probe : Option Probe → Bool
is_health_probe none = false
is_health_probe (some probe) = checks_health probe.handler

-- `ensureLLMContainerProbes`
unfoldable pub ensure_llm_container_probes : Container → Container × Bool
ensure_llm_container_probes c =
    let readiness =
      keep_or (is_health_probe c.readiness_probe) c.readiness_probe (some llm_readiness_probe) in
    let liveness =
      keep_or (is_health_probe c.liveness_probe) c.liveness_probe (some llm_liveness_probe) in
    (
      record c { readiness_probe = readiness.0; liveness_probe = liveness.0 },
      readiness.1 || liveness.1,
    )

-- The loops over the containers.
unfoldable pub ensure_each : (Container → Container × Bool) → List Container → List Container × Bool
ensure_each ensure [] = ([], false)
ensure_each ensure (c ∷ cs) =
    let (first, changed) = ensure c in
    let (rest, later) = ensure_each ensure cs in (first ∷ rest, changed || later)

-- `apiequality.Semantic.DeepEqual` on resources
module _ (same_resources : Resources → Resources → Bool) where
  -- The first loop's body.
  unfoldable pub ensure_init_container : ModelSelection → Container → Container × Bool
  ensure_init_container model c =
      if not (c.name == "download-model")
      then (c, false)
      else (let desired = init_resources model in
          let command = model_download_command model ∷ [] in
          let args = keep_or (string_slice_equal c.args command) c.args command in
          let resources = keep_or (same_resources c.resources desired) c.resources desired in
          (record c { args = args.0; resources = resources.0 }, args.1 || resources.1))

  -- The second loop's body.
  unfoldable pub ensure_server_container :
      ModelSelection → List String → Container → Container × Bool
  ensure_server_container model extra_args c =
      if not (c.name == "llama-cpp-server")
      then (c, false)
      else (let desired = server_resources model in
          let arguments = server_arguments model extra_args in
          let image = keep_or (c.image == llama_server_image) c.image llama_server_image in
          let env = ensure_env (path model) c.env in
          let args = keep_or (string_slice_equal c.args arguments) c.args arguments in
          let resources = keep_or (same_resources c.resources desired) c.resources desired in
          let (probed, changed) =
            ensure_llm_container_probes
              (record c { image = image.0; env = env.0; args = args.0; resources = resources.0 }) in
          (probed, image.1 || (env.1 || (args.1 || (resources.1 || changed)))))

  -- `ensureDeploymentModel`
  unfoldable pub ensure_deployment_model :
      Deployment → ModelSelection → List String → Deployment × Bool
  ensure_deployment_model deploy model extra_args =
      let inits = ensure_each (ensure_init_container model) deploy.pod.init_containers in
      let servers = ensure_each (ensure_server_container model extra_args) deploy.pod.containers in
      (
        record deploy {
          pod = record (deploy.pod) { init_containers = inits.0; containers = servers.0 };
        },
        inits.1 || servers.1,
      )
