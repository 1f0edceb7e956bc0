-- ===== src/Hosted/Deployments.antt =====
-- The Deployment of a hosted instance, in internal/controller/llminstance_controller.go: when it
-- counts as ready (`deploymentReadiness`), its replicas and DNS policy, the arguments of its server
-- and the command that downloads the model.
pub mod Ready
use showroom_msp_private_llm.Prelude.{
  ℕ, String, Bool, true, false, Option, none, some, List, [], ◌∷◌, ◌++◌, ◌||◌, ◌==◌, if◌then◌else◌,
  nat_eq,
}
use showroom_msp_private_llm.Prelude.Text.{◌+++◌}
use showroom_msp_private_llm.Prelude.Int.{ℤ, pos, negsuc, ltb_ℤ}
use showroom_msp_private_llm.Kube.{LlmInstance}
use showroom_msp_private_llm.Kube.Workloads.{Subset, Deployment}
use showroom_msp_private_llm.Hosted.Models.{ModelSelection, path}

-- Whether an object is ready, with a reason and a message if it is not.
pub record Readiness : Type 0 where
  pub ready : Bool
  pub reason : String
  pub message : String

abbrev not_ready : String → String → Readiness
not_ready reason message = record { ready = false; reason = reason; message = message }

abbrev pub desired_replicas_of : Option ℤ → ℤ
desired_replicas_of none = pos 1
desired_replicas_of (some n) = if ltb_ℤ (pos 0) n then n else pos 1

-- `deploymentReadiness`; `show` prints an integer. The name stands in the message as it is in the
-- source, for names without special characters.
unfoldable pub deployment_readiness : (ℤ → String) → Deployment → String → Readiness
deployment_readiness show deploy name =
    let desired = desired_replicas_of deploy.replicas in
    let named = "Deployment \"" +++ name +++ "\"" in
    if ltb_ℤ deploy.observed_generation (pos deploy.meta.generation)
    then not_ready "DeploymentProgressing" (named +++ " has not observed latest generation")
    else if ltb_ℤ deploy.updated_replicas desired
    then not_ready "DeploymentProgressing"
        (named +++ " updated replicas " +++ show deploy.updated_replicas +++ "/" +++ show desired)
    else if ltb_ℤ deploy.ready_replicas desired
    then not_ready "DeploymentNotReady"
        (named +++ " ready replicas " +++ show deploy.ready_replicas +++ "/" +++ show desired)
    else if ltb_ℤ deploy.available_replicas desired
    then not_ready "DeploymentNotAvailable" (
        named
        +++ " available replicas "
        +++ show deploy.available_replicas
        +++ "/"
        +++ show desired)
    else record { ready = true; reason = ""; message = "" }

abbrev has_port : List ℕ → ℕ → Bool
has_port [] port = false
has_port (p ∷ ports) port = nat_eq p port || has_port ports port

-- The loop of `serviceHasReadyEndpoints` over the subsets; true where it returns true.
unfoldable pub any_ready_subset : List Subset → ℕ → Bool
any_ready_subset [] port = false
any_ready_subset ((addresses, ports) ∷ subsets) port =
    let later = any_ready_subset subsets port in
    if nat_eq addresses 0 then later else has_port ports port || later

-- `desiredReplicas` of `reconcileDeployment`
unfoldable pub desired_replicas : LlmInstance → ℤ
desired_replicas inst = if ltb_ℤ (pos 0) inst.spec.replicas then inst.spec.replicas else pos 1

abbrev pub same_integer : ℤ → ℤ → Bool
same_integer (pos a) (pos b) = nat_eq a b
same_integer (negsuc a) (negsuc b) = nat_eq a b
same_integer _ _ = false

abbrev has_replicas : Option ℤ → ℤ → Bool
has_replicas none desired = false
has_replicas (some current) desired = same_integer current desired

-- `ensureDeploymentReplicas`; the Deployment, and whether it has changed
unfoldable pub ensure_deployment_replicas : Deployment → ℤ → Deployment × Bool
ensure_deployment_replicas deploy desired =
    if has_replicas deploy.replicas desired
    then (deploy, false)
    else (record deploy { replicas = some desired }, true)

-- `effectiveDNSPolicy`
unfoldable pub effective_dns_policy : LlmInstance → String
effective_dns_policy inst = if inst.spec.dns_policy == "Default" then "Default" else "ClusterFirst"

-- `ensureDeploymentDNSPolicy`
unfoldable pub ensure_deployment_dns_policy : Deployment → String → Deployment × Bool
ensure_deployment_dns_policy deploy desired =
    if deploy.pod.dns_policy == desired
    then (deploy, false)
    else (record deploy { pod = record (deploy.pod) { dns_policy = desired } }, true)

-- The arguments of `llamaServerContainer`.
unfoldable pub server_arguments : ModelSelection → List String → List String
server_arguments model extra_args =
    ("-m" ∷ path model ∷ "--port" ∷ "8000" ∷ "--host" ∷ "0.0.0.0" ∷ [])
    ++ model.server_args
    ++ extra_args

abbrev curl : String
curl =
    "curl --fail --location --retry 10 --retry-all-errors --retry-delay 5 --retry-max-time 600 --connect-timeout 30"

-- `modelDownloadCommand`
unfoldable pub model_download_command : ModelSelection → String
model_download_command model =
    let whole = path model in
    let partial = path model +++ ".partial" in
    if model.sha256 == ""
    then curl +++ " --continue-at - --output " +++ whole +++ " " +++ model.url
    else "if [ -f " +++ whole +++ " ] && printf '" +++ model.sha256 +++ "  " +++ whole
      +++ "\\n' | sha256sum -c -; then exit 0; fi; rm -f " +++ whole +++ "; (" +++ curl
      +++ " --continue-at - --output " +++ partial +++ " " +++ model.url +++ " || (rm -f "
      +++ partial +++ " && " +++ curl +++ " --output " +++ partial +++ " " +++ model.url
      +++ ")) && if printf '" +++ model.sha256 +++ "  " +++ partial
      +++ "\\n' | sha256sum -c -; then mv " +++ partial +++ " " +++ whole +++ "; else rm -f "
      +++ partial +++ "; exit 1; fi"
