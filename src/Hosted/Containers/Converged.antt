-- ===== src/Hosted/Containers/Converged.antt =====
-- What `ensureDeploymentModel` leaves behind, and that it then has nothing left to do.
use showroom_msp_private_llm.Prelude.{
  String, ◌≡◌, refl, Bool, true, false, some, List, [], ◌∷◌, ◌||◌, ◌==◌, Bool-cases, inl, inr,
  eq_of_==,
}
use text.Mathlib.TextPositions.{eq_refl}
use showroom_msp_private_llm.Prelude.Lists.{All}
use showroom_msp_private_llm.Prelude.Dict.{lookup}
use showroom_msp_private_llm.Kube.Workloads.{Container, Resources, Deployment}
use showroom_msp_private_llm.Hosted.Models.{ModelSelection, path}
use showroom_msp_private_llm.Hosted.Deployments.{server_arguments, model_download_command}
use showroom_msp_private_llm.Hosted.Containers.{
  string_slice_equal, is_health_probe, ensure_llm_container_probes, llm_readiness_probe,
  llm_liveness_probe, llama_server_image, init_resources, server_resources, ensure_each,
  ensure_init_container, ensure_server_container, ensure_deployment_model,
}
use showroom_msp_private_llm.Hosted.Containers.Current.{
  keep_or_passes, keep_or_again, string_slice_equal_refl, string_slice_equal_sound,
  ensure_env_again, lookup-ensure_env,
}

or_false : (a b : Bool) → a ≡ false → b ≡ false → (a || b) ≡ false
or_false a b p q = rw p q

-- What holds of one container then holds of all.
ensure_each-All :
    (P : Container → Type 0) (f : Container → Container × Bool)
    → ((c : Container) → P (f c).0)
    → (cs : List Container) → All P (ensure_each f cs).0
unfolding ensure_each
ensure_each-All P f h [] = tt
ensure_each-All P f h (c ∷ cs) = (h c, ensure_each-All P f h cs)

ensure_each_again :
    (f : Container → Container × Bool)
    → ((c : Container) → (f (f c).0).1 ≡ false)
    → (cs : List Container) → (ensure_each f (ensure_each f cs).0).1 ≡ false
unfolding ensure_each
ensure_each_again f h [] = refl
ensure_each_again f h (c ∷ cs) = or_false _ _ (h c) (ensure_each_again f h cs)

ensure_llm_container_probes_again :
    (c : Container) → (ensure_llm_container_probes (ensure_llm_container_probes c).0).1 ≡ false
unfolding ensure_llm_container_probes is_health_probe
ensure_llm_container_probes_again c =
    or_false _ _ (keep_or_again is_health_probe c.readiness_probe (some llm_readiness_probe) refl)
      (keep_or_again is_health_probe c.liveness_probe (some llm_liveness_probe) refl)

module _ (same_resources : Resources → Resources → Bool) where
  -- A container that downloads the model does so by the command for the selected model.
  abbrev pub IsDownloading : ModelSelection → Container → Type 0
  IsDownloading model c =
      c.name ≡ "download-model"
      → (c.args ≡ model_download_command model ∷ [])
        × (same_resources c.resources (init_resources model) ≡ true)

  -- The container of the server runs the pinned image on the selected model, with the arguments,
  -- resources and environment of that model, and is probed on its health path.
  pub record IsServing (model : ModelSelection) (extra_args : List String) (c : Container)
      : Type 0 where
    pub image : c.image ≡ llama_server_image
    pub args : c.args ≡ server_arguments model extra_args
    pub env : lookup "MODEL_PATH" c.env ≡ some (path model)
    pub resources : same_resources c.resources (server_resources model) ≡ true
    pub readiness : is_health_probe c.readiness_probe ≡ true
    pub liveness : is_health_probe c.liveness_probe ≡ true

module _ (same_resources : Resources → Resources → Bool)
    (same : (r : Resources) → same_resources r r ≡ true) where
  ensure_init_container-IsDownloading :
      (model : ModelSelection) (c : Container)
      → IsDownloading same_resources model (ensure_init_container same_resources model c).0
  unfolding ensure_init_container
  ensure_init_container-IsDownloading model c = elim (Bool-cases (c.name == "download-model")) [
    | inl e ↦ rw e λ named. (
      string_slice_equal_sound _ _ (
          keep_or_passes (λ xs. string_slice_equal xs (model_download_command model ∷ [])) c.args
            (model_download_command model ∷ []) (string_slice_equal_refl _)),
      keep_or_passes (λ r. same_resources r (init_resources model)) c.resources
          (init_resources model) (same _),
    )
    | inr e ↦ rw e λ named. cc (rw (named, eq_refl "download-model") at e)
  ]

  ensure_init_container_again :
      (model : ModelSelection) (c : Container)
      → (ensure_init_container same_resources model
          (ensure_init_container same_resources model c).0).1
        ≡ false
  unfolding ensure_init_container
  ensure_init_container_again model c = elim (Bool-cases (c.name == "download-model")) [
    | inl e ↦ rw e (
        rw e (
          or_false _ _
            (keep_or_again (λ xs. string_slice_equal xs (model_download_command model ∷ [])) c.args
              (model_download_command model ∷ []) (string_slice_equal_refl _))
            (keep_or_again (λ r. same_resources r (init_resources model)) c.resources
              (init_resources model) (same _))))
    | inr e ↦ rw e (rw e refl)
  ]

  module _ (model : ModelSelection) (extra_args : List String) where
    ensure_server_container-IsServing :
        (c : Container)
        → (ensure_server_container same_resources model extra_args c).0.name ≡ "llama-cpp-server"
        → IsServing same_resources model extra_args
            (ensure_server_container same_resources model extra_args c).0
    unfolding ensure_server_container ensure_llm_container_probes is_health_probe
    ensure_server_container-IsServing c = elim (Bool-cases (c.name == "llama-cpp-server")) [
      | inl e ↦ rw e λ named. record {
        image = eq_of_== _ _ (
            keep_or_passes (λ i. i == llama_server_image) c.image llama_server_image
              (eq_refl llama_server_image));
        args = string_slice_equal_sound _ _ (
            keep_or_passes (λ xs. string_slice_equal xs (server_arguments model extra_args)) c.args
              (server_arguments model extra_args) (string_slice_equal_refl _));
        env = lookup-ensure_env (path model) c.env;
        resources =
            keep_or_passes (λ r. same_resources r (server_resources model)) c.resources
              (server_resources model) (same _);
        readiness =
            keep_or_passes is_health_probe c.readiness_probe (some llm_readiness_probe) refl;
        liveness = keep_or_passes is_health_probe c.liveness_probe (some llm_liveness_probe) refl;
      }
      | inr e ↦ rw e λ named. cc (rw (named, eq_refl "llama-cpp-server") at e)
    ]

    ensure_server_container_again :
        (c : Container)
        → (ensure_server_container same_resources model extra_args
            (ensure_server_container same_resources model extra_args c).0).1
          ≡ false
    unfolding ensure_server_container
    ensure_server_container_again c = elim (Bool-cases (c.name == "llama-cpp-server")) [
      | inl e ↦ rw e (
          unfold ensure_llm_container_probes in
          rw e (
            or_false _ _
              (keep_or_again (λ i. i == llama_server_image) c.image llama_server_image
                (eq_refl llama_server_image))
              (or_false _ _ (ensure_env_again (path model) c.env) (
                or_false _ _
                  (keep_or_again (λ xs. string_slice_equal xs (server_arguments model extra_args))
                    c.args (server_arguments model extra_args) (string_slice_equal_refl _))
                  (or_false _ _
                    (keep_or_again (λ r. same_resources r (server_resources model)) c.resources
                      (server_resources model) (same _))
                    (ensure_llm_container_probes_again c))))))
      | inr e ↦ rw e (rw e refl)
    ]

    -- If resources count as the same as themselves, then behind `ensureDeploymentModel` every init
    -- container that is called `download-model` downloads the selected model, and every container
    -- called `llama-cpp-server` runs the pinned image with the arguments, the environment, the
    -- resources and the health probes for that model.
    pub ensure_deployment_model_serves :
        (deploy : Deployment)
        → let out = (ensure_deployment_model same_resources deploy model extra_args).0 in
          All (IsDownloading same_resources model) out.pod.init_containers
          × All
              (λ c. c.name ≡ "llama-cpp-server" → IsServing same_resources model extra_args c)
              out.pod.containers
    unfolding ensure_deployment_model
    ensure_deployment_model_serves deploy = (
      ensure_each-All (IsDownloading same_resources model) _
          (ensure_init_container-IsDownloading model) deploy.pod.init_containers,
      ensure_each-All
          (λ c. c.name ≡ "llama-cpp-server" → IsServing same_resources model extra_args c) _
          ensure_server_container-IsServing deploy.pod.containers,
    )

    -- If resources count as the same as themselves, then a Deployment that `ensureDeploymentModel`
    -- has brought up to date is not changed by it again: the controller does not update the
    -- Deployment for its model once more, so that the pods are not restarted without end.
    pub ensure_deployment_model_converges :
        (deploy : Deployment)
        → (ensure_deployment_model same_resources
            (ensure_deployment_model same_resources deploy model extra_args).0
            model
            extra_args).1
          ≡ false
    unfolding ensure_deployment_model
    ensure_deployment_model_converges deploy =
        or_false _ _
          (ensure_each_again _ (ensure_init_container_again model) deploy.pod.init_containers)
          (ensure_each_again _ ensure_server_container_again deploy.pod.containers)
