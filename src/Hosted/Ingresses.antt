-- ===== src/Hosted/Ingresses.antt =====
-- The public route of a hosted instance: `reconcileIngress`, `buildDesiredIngress` and the functions
-- that they call, and `instanceEndpoint`, in internal/controller/llminstance_controller.go.
pub mod Routed
pub mod Kept
pub mod Guarded
use showroom_msp_private_llm.Prelude.{
  ℕ, String, Bool, true, false, Option, none, some, List, [], ◌∷◌, ◌||◌, ◌&&◌, not, ◌==◌,
  if◌then◌else◌, nat_eq,
}
use showroom_msp_private_llm.Prelude.Text.{◌+++◌, trim_space, trim_prefix}
use showroom_msp_private_llm.Prelude.Dict.{Dict, get, has, insert, remove}
use showroom_msp_private_llm.Kube.{LlmInstance, HttpPath, IngressRule, IngressTls, Ingress}
use showroom_msp_private_llm.Api.{
  Error, not_found, rejection, Result, ok, err, cached, Api, pure, throw, ◌>>=◌, ◌>>◌, request,
  attempt, lift, get_ingress, create_ingress, update_ingress,
}
use showroom_msp_private_llm.Slug.Ownership.{owns_llm_resource, route_key}
use showroom_msp_private_llm.Slug.Routes.{RouteConfig, check_slug_route, slug_ingress_rules}

abbrev pub middlewares_key : String
middlewares_key = "traefik.ingress.kubernetes.io/router.middlewares"

abbrev pub entrypoints_key : String
entrypoints_key = "traefik.ingress.kubernetes.io/router.entrypoints"

abbrev pub tls_key : String
tls_key = "traefik.ingress.kubernetes.io/router.tls"

abbrev pub pathmatcher_key : String
pathmatcher_key = "traefik.ingress.kubernetes.io/router.pathmatcher"

-- The fields of the reconciler that the route depends on; `is_https` is
-- `strings.EqualFold(r.PublicScheme, "https")`, and the last is `ctrl.SetControllerReference` with
-- the instance as owner.
pub record PublicConfig : Type 0 where
  pub route : RouteConfig
  pub public_scheme : String
  pub is_https : Bool
  pub tls_secret_name : String
  pub extra_annotations : Dict
  pub set_controller_reference : LlmInstance → Ingress → Result Ingress

abbrev with_annotations : Ingress → Dict → Ingress
with_annotations ing annotations = record ing {
  meta = record (ing.meta) { annotations = annotations };
}

abbrev annotate : String → String → Ingress × Bool → Ingress × Bool
annotate key value (ing, updated) =
    if get ing.meta.annotations key == value
    then (ing, updated)
    else (with_annotations ing (insert key value ing.meta.annotations), true)

abbrev drop_annotation : String → Ingress × Bool → Ingress × Bool
drop_annotation key (ing, updated) =
    if has ing.meta.annotations key
    then (with_annotations ing (remove key ing.meta.annotations), true)
    else (ing, updated)

-- `ensureIngressAnnotations`
unfoldable pub ensure_ingress_annotations : Ingress → String → String → Bool → Ingress × Bool
ensure_ingress_annotations ing middleware entry https =
    let entered =
      annotate entrypoints_key entry (annotate middlewares_key middleware (ing, false)) in
    if https then annotate tls_key "true" entered else drop_annotation tls_key entered

-- One round of `applyExtraIngressAnnotations`.
abbrev apply_extra : Bool → String → String → Ingress × Bool → Ingress × Bool
apply_extra override key value (ing, updated) =
    if not (has ing.meta.annotations key) || override || not (get ing.meta.annotations key == value)
    then (with_annotations ing (insert key value ing.meta.annotations), true)
    else (ing, updated)

-- `applyExtraIngressAnnotations`
unfoldable pub apply_extra_ingress_annotations : Dict → Bool → Ingress × Bool → Ingress × Bool
apply_extra_ingress_annotations [] override out = out
apply_extra_ingress_annotations ((key, value) ∷ extra) override out =
    apply_extra_ingress_annotations extra override (apply_extra override key value out)

abbrev is_traefik : Option String → Bool
is_traefik none = false
is_traefik (some name) = name == "traefik"

-- `ensureIngressClass`
unfoldable pub ensure_ingress_class : Ingress × Bool → Ingress × Bool
ensure_ingress_class (ing, updated) =
    if is_traefik ing.class_name
    then (ing, updated)
    else (record ing { class_name = some "traefik" }, true)

abbrev same_path : HttpPath → HttpPath → Bool
same_path a b =
    a.path == b.path
    && (a.path_type == b.path_type && (a.service == b.service && nat_eq a.port b.port))

unfoldable pub same_paths : List HttpPath → List HttpPath → Bool
same_paths [] [] = true
same_paths (a ∷ xs) (b ∷ ys) = same_path a b && same_paths xs ys
same_paths _ _ = false

abbrev same_http : Option (List HttpPath) → Option (List HttpPath) → Bool
same_http none none = true
same_http (some a) (some b) = same_paths a b
same_http _ _ = false

-- `apiequality.Semantic.DeepEqual` on rules
unfoldable pub same_rules : List IngressRule → List IngressRule → Bool
same_rules [] [] = true
same_rules (a ∷ xs) (b ∷ ys) = a.host == b.host && same_http a.http b.http && same_rules xs ys
same_rules _ _ = false

abbrev has_backend : Option String → Bool
has_backend none = false
has_backend (some _) = true

-- `ensureIngressHTTPRule`
unfoldable pub ensure_ingress_http_rule :
    RouteConfig → String → String → Ingress × Bool → Ingress × Bool
ensure_ingress_http_rule route prefix service (ing, updated) =
    let desired = slug_ingress_rules route prefix service in
    let changed = not (same_rules ing.rules desired) || has_backend ing.default_backend in
    drop_annotation pathmatcher_key
      (record ing { rules = desired; default_backend = none }, updated || changed)

abbrev first_host : List String → String → Bool
first_host [] host = false
first_host (h ∷ _) host = h == host

abbrev has_tls : List IngressTls → String → String → Bool
has_tls [] secret host = false
has_tls (t ∷ _) secret host = t.secret_name == secret && first_host t.hosts host

abbrev desired_tls : PublicConfig → List IngressTls
desired_tls config =
    record {
      hosts = config.route.public_host ∷ [];
      secret_name = trim_space config.tls_secret_name;
    }
    ∷ []

-- `ensureIngressTLS`
unfoldable pub ensure_ingress_tls : PublicConfig → Ingress × Bool → Ingress × Bool
ensure_ingress_tls config (ing, updated) =
    if not config.is_https || trim_space config.tls_secret_name == ""
    then (ing, updated)
    else if has_tls ing.tls (trim_space config.tls_secret_name) config.route.public_host
    then (ing, updated)
    else (record ing { tls = desired_tls config }, true)

-- `desiredIngressEntryPoints`
abbrev entry_points : Bool → String
entry_points https = if https then "websecure,web" else "web"

-- `desiredMiddlewareAnnotation`, with `authMiddlewareName` and `stripMiddlewareName`
abbrev pub desired_middleware : String → String → String
desired_middleware namespace service =
    namespace +++ "-" +++ service +++ "-auth@kubernetescrd," +++ namespace +++ "-" +++ service
    +++ "-strip@kubernetescrd"

-- `instanceEndpoint`
unfoldable pub instance_endpoint : PublicConfig → String → String
instance_endpoint config slug =
    let scheme = if config.public_scheme == "" then "http" else config.public_scheme in
    if trim_space config.route.public_host == "" || trim_space slug == ""
    then ""
    else scheme +++ "://" +++ config.route.public_host +++ "/llm/" +++ slug

module _ (config : PublicConfig) where
  -- The Ingress of `buildDesiredIngress` before its last two calls.
  abbrev first_ingress : LlmInstance → Dict → String → String → Ingress
  first_ingress inst labels service prefix = record {
    meta = record {
      namespace = inst.meta.namespace;
      name = service;
      uid = "";
      resource_version = "";
      generation = 0;
      created = none;
      deleting = none;
      labels = labels;
      annotations =
          (entrypoints_key, entry_points config.is_https)
          ∷ (middlewares_key, desired_middleware inst.meta.namespace service)
          ∷ [];
      controller = none;
      finalizers = [];
      owners = [];
    };
    class_name = some "traefik";
    default_backend = none;
    rules =
        record {
          host = config.route.public_host;
          http =
              some (
                record { path = prefix; path_type = "Prefix"; service = service; port = 8000 }
                ∷ []);
        }
        ∷ [];
    tls =
        if not config.is_https || trim_space config.tls_secret_name == ""
        then []
        else desired_tls config;
  }

  -- `buildDesiredIngress`
  unfoldable pub build_desired_ingress : LlmInstance → Dict → String → String → Ingress
  build_desired_ingress inst labels service prefix =
      (ensure_ingress_http_rule config.route prefix service (
        apply_extra_ingress_annotations config.extra_annotations false
          (first_ingress inst labels service prefix, false))).0

  -- The updates of `reconcileIngress`, in their order.
  unfoldable pub ensure_ingress : LlmInstance → String → String → Ingress → Ingress × Bool
  ensure_ingress inst service prefix ing = ensure_ingress_tls config (
      ensure_ingress_http_rule config.route prefix service (
        ensure_ingress_class (
          apply_extra_ingress_annotations config.extra_annotations true (
            ensure_ingress_annotations ing (desired_middleware inst.meta.namespace service)
              (entry_points config.is_https) config.is_https))))

  abbrev create_from : LlmInstance → Ingress → Api (Unit {0})
  create_from inst draft = do
    ing ← lift (config.set_controller_reference inst draft)
    _ ← request (create_ingress ing)
    pure tt

  abbrev update_if : Ingress × Bool → Api (Unit {0})
  update_if (ing, updated) =
      if not updated then pure tt else do _ ← request (update_ingress ing); pure tt

  abbrev reconcile_read : LlmInstance → Dict → String → String → Result Ingress → Api (Unit {0})
  reconcile_read inst labels service prefix (err not_found) =
      create_from inst (build_desired_ingress inst labels service prefix)
  reconcile_read inst labels service prefix (err e) = throw e
  reconcile_read inst labels service prefix (ok ing) =
      if not (owns_llm_resource inst ing.meta)
      then throw (rejection "named Ingress is not controlled by this LLMInstance")
      else update_if (ensure_ingress inst service prefix ing)

  -- `reconcileIngress`
  unfoldable pub reconcile_ingress : LlmInstance → Dict → String → String → Api (Unit {0})
  reconcile_ingress inst labels service prefix = do
    _ ← check_slug_route config.route inst (trim_prefix prefix "/llm/")
    found ←
        attempt (
          request (get_ingress cached (record { namespace = inst.meta.namespace; name = service })))
    reconcile_read inst labels service prefix found
