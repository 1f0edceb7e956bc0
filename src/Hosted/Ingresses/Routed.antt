-- ===== src/Hosted/Ingresses/Routed.antt =====
-- What the public route of an instance looks like, whatever Ingress was found.
use showroom_msp_private_llm.Prelude.{
  String, ◌≡◌, refl, ap, ◌∙◌, Bool, true, false, not, none, some, [], ◌∷◌, ◌||◌, ◌==◌, inl, inr,
  arith, Bool-cases, Option-cases, eq_of_==,
}
use showroom_msp_private_llm.Prelude.Text.{trim_space}
use showroom_msp_private_llm.Prelude.Dict.{
  Dict, lookup, get, has, get-insert_self, get-insert_ne, get-remove_ne, has-remove,
}
use text.Mathlib.TextPositions.{eq_refl}
use showroom_msp_private_llm.Kube.{LlmInstance, Ingress}
use showroom_msp_private_llm.Slug.Routes.{slug_ingress_rules}
use showroom_msp_private_llm.Hosted.Ingresses.{
  PublicConfig, middlewares_key, entrypoints_key, tls_key, pathmatcher_key, annotate,
  drop_annotation, ensure_ingress_annotations, apply_extra, apply_extra_ingress_annotations,
  ensure_ingress_class, ensure_ingress_http_rule, has_tls, ensure_ingress_tls, entry_points,
  desired_middleware, first_ingress, build_desired_ingress, ensure_ingress,
}

abbrev pub annotation_of : String → Ingress → String
annotation_of key ing = get ing.meta.annotations key

-- The parts of an Ingress that decide where a request goes.
abbrev SameTarget : Ingress → Ingress → Type 0
SameTarget a b =
    (a.rules ≡ b.rules) × (a.default_backend ≡ b.default_backend) × (a.class_name ≡ b.class_name)

module _ (key value : String) (o : Ingress × Bool) where
  annotate_self : annotation_of key (annotate key value o).0 ≡ value
  annotate_self = elim (Bool-cases (annotation_of key o.0 == value)) [
    | inl e ↦ rw e (eq_of_== _ _ e)
    | inr e ↦ rw e (get-insert_self key value o.0.meta.annotations)
  ]

  annotate_other :
      (j : String)
      → (key == j) ≡ false
      → annotation_of j (annotate key value o).0 ≡ annotation_of j o.0
  annotate_other j h = elim (Bool-cases (annotation_of key o.0 == value)) [
    | inl e ↦ rw e refl
    | inr e ↦ rw e (get-insert_ne key j value o.0.meta.annotations h)
  ]

module _ (key : String) (o : Ingress × Bool) where
  drop_annotation_self : has (drop_annotation key o).0.meta.annotations key ≡ false
  drop_annotation_self = elim (Bool-cases (has o.0.meta.annotations key)) [
    | inl e ↦ rw e (has-remove key key o.0.meta.annotations ∙ (rw (eq_refl key) refl))
    | inr e ↦ rw e e
  ]

  drop_annotation_other :
      (j : String)
      → (key == j) ≡ false
      → annotation_of j (drop_annotation key o).0 ≡ annotation_of j o.0
  drop_annotation_other j h = elim (Bool-cases (has o.0.meta.annotations key)) [
    | inl e ↦ rw e (get-remove_ne key j o.0.meta.annotations h)
    | inr e ↦ rw e refl
  ]

  drop_annotation_target : SameTarget (drop_annotation key o).0 o.0
  drop_annotation_target = elim (Bool-cases (has o.0.meta.annotations key)) [
    | inl e ↦ rw e (refl, refl, refl)
    | inr e ↦ rw e (refl, refl, refl)
  ]

ensure_ingress_annotations_middleware :
    (ing : Ingress) (middleware entry : String) (https : Bool)
    → annotation_of middlewares_key (ensure_ingress_annotations ing middleware entry https).0
      ≡ middleware
unfolding ensure_ingress_annotations
ensure_ingress_annotations_middleware ing middleware entry https =
    let m = annotate middlewares_key middleware (ing, false) in
    let e = annotate entrypoints_key entry m in
    let held =
      annotate_other entrypoints_key entry m middlewares_key refl
      ∙ annotate_self middlewares_key middleware (ing, false) in
    elim (Bool-cases https) [
      | inl on ↦ rw on (annotate_other tls_key "true" e middlewares_key refl ∙ held)
      | inr off ↦ rw off (drop_annotation_other tls_key e middlewares_key refl ∙ held)
    ]

module _ (override : Bool) (j : String) where
  apply_extra_other :
      (key value : String) (o : Ingress × Bool)
      → (key == j) ≡ false
      → annotation_of j (apply_extra override key value o).0 ≡ annotation_of j o.0
  apply_extra_other key value o h =
      elim (Bool-cases
        (not (has o.0.meta.annotations key) || override || not (annotation_of key o.0 == value))) [
          | inl e ↦ rw e (get-insert_ne key j value o.0.meta.annotations h)
          | inr e ↦ rw e refl
        ]

  apply_extra_keeps :
      (extra : Dict) (o : Ingress × Bool)
      → lookup j extra ≡ none
      → annotation_of j (apply_extra_ingress_annotations extra override o).0 ≡ annotation_of j o.0
  unfolding apply_extra_ingress_annotations lookup
  apply_extra_keeps [] o h = refl
  apply_extra_keeps ((key, value) ∷ extra) o h = elim (Bool-cases (key == j)) [
    | inl same ↦ absurd (ground (arith, same))
    | inr other ↦
        apply_extra_keeps extra (apply_extra override key value o) (ground (arith, other))
        ∙ apply_extra_other key value o other
  ]

apply_extra_class :
    (extra : Dict) (o : Ingress × Bool)
    → (apply_extra_ingress_annotations extra false o).0.class_name ≡ o.0.class_name
unfolding apply_extra_ingress_annotations
apply_extra_class [] o = refl
apply_extra_class ((key, value) ∷ extra) o =
    apply_extra_class extra (apply_extra false key value o) ∙ step
  where
    step : (apply_extra false key value o).0.class_name ≡ o.0.class_name
    step =
        elim (Bool-cases
          (not (has o.0.meta.annotations key) || false || not (annotation_of key o.0 == value))) [
            | inl e ↦ rw e refl
            | inr e ↦ rw e refl
          ]

module _ (config : PublicConfig) (service prefix : String) (o : Ingress × Bool) where
  http_rule_target :
      ((ensure_ingress_http_rule config.route prefix service o).0.rules
        ≡ slug_ingress_rules config.route prefix service)
      × ((ensure_ingress_http_rule config.route prefix service o).0.default_backend ≡ none)
      × ((ensure_ingress_http_rule config.route prefix service o).0.class_name ≡ o.0.class_name)
  unfolding ensure_ingress_http_rule
  http_rule_target = drop_annotation_target pathmatcher_key _

  http_rule_matcher :
      has
        (ensure_ingress_http_rule config.route prefix service o).0.meta.annotations
        pathmatcher_key
      ≡ false
  unfolding ensure_ingress_http_rule
  http_rule_matcher = drop_annotation_self pathmatcher_key _

  http_rule_middleware :
      annotation_of middlewares_key (ensure_ingress_http_rule config.route prefix service o).0
      ≡ annotation_of middlewares_key o.0
  unfolding ensure_ingress_http_rule
  http_rule_middleware = drop_annotation_other pathmatcher_key _ middlewares_key refl

  tls_keeps :
      ((ensure_ingress_tls config o).0.meta ≡ o.0.meta)
      × SameTarget (ensure_ingress_tls config o).0 o.0
  unfolding ensure_ingress_tls
  tls_keeps = elim (Bool-cases (not config.is_https || trim_space config.tls_secret_name == "")) [
    | inl e ↦ rw e (refl, (refl, refl, refl))
    | inr e ↦
        elim (Bool-cases
          (has_tls o.0.tls (trim_space config.tls_secret_name) config.route.public_host)) [
            | inl f ↦ rw (e, f) (refl, (refl, refl, refl))
            | inr f ↦ rw (e, f) (refl, (refl, refl, refl))
          ]
  ]

class_keeps :
    (o : Ingress × Bool)
    → ((ensure_ingress_class o).0.meta ≡ o.0.meta)
      × ((ensure_ingress_class o).0.class_name ≡ some "traefik")
unfolding ensure_ingress_class
class_keeps o = elim (Option-cases o.0.class_name) [
  | inl unset ↦ rw unset (refl, refl)
  | inr (name, set) ↦ elim (Bool-cases (name == "traefik")) [
    | inl e ↦ rw (set, e) (refl, ap some (eq_of_== _ _ e))
    | inr e ↦ rw (set, e) (refl, refl)
  ]
]

module _ (config : PublicConfig) (inst : LlmInstance) (service prefix : String) where
  -- The route leads only to the instance's service: the two paths of the selected slug under the
  -- public host, no default backend, no annotation that would match paths in another way; and
  -- through the authentication and the strip middleware, if no extra annotation replaces them.
  pub record IsRouted (ing : Ingress) : Type 0 where
    pub rules : ing.rules ≡ slug_ingress_rules config.route prefix service
    pub no_backend : ing.default_backend ≡ none
    pub class : ing.class_name ≡ some "traefik"
    pub matcher : has ing.meta.annotations pathmatcher_key ≡ false
    pub middlewares :
        lookup middlewares_key config.extra_annotations ≡ none
        → annotation_of middlewares_key ing ≡ desired_middleware inst.meta.namespace service

  -- Whatever Ingress was found, after the updates of `reconcileIngress` it has exactly the two paths
  -- of the slug under the public host, which lead to the instance's service, the class of the
  -- controller, no default backend and no path matcher; and it names the authentication and the
  -- strip middleware, if the operator's extra annotations do not name that annotation themselves.
  pub ensure_ingress-IsRouted :
      (ing : Ingress) → IsRouted (ensure_ingress config inst service prefix ing).0
  unfolding ensure_ingress
  ensure_ingress-IsRouted ing =
      let a =
        ensure_ingress_annotations ing (desired_middleware inst.meta.namespace service)
          (entry_points config.is_https) config.is_https in
      let b = apply_extra_ingress_annotations config.extra_annotations true a in
      let c = ensure_ingress_class b in
      let d = ensure_ingress_http_rule config.route prefix service c in
      let (same, target) = tls_keeps config service prefix d in
      let (rules, backend, class) = target in
      let (rules', backend', class') = http_rule_target config service prefix c in
      record {
        rules = rules ∙ rules';
        no_backend = backend ∙ backend';
        class = class ∙ class' ∙ (class_keeps b).1;
        matcher =
            ap (λ m. has m.annotations pathmatcher_key) same
            ∙ http_rule_matcher config service prefix c;
        middlewares = λ h.
            ap (λ m. get m.annotations middlewares_key) same
            ∙ http_rule_middleware config service prefix c
            ∙ ap (λ m. get m.annotations middlewares_key) (class_keeps b).0
            ∙ apply_extra_keeps true middlewares_key config.extra_annotations a h
            ∙ ensure_ingress_annotations_middleware ing
                (desired_middleware inst.meta.namespace service) (entry_points config.is_https)
                config.is_https;
      }

  pub build_desired_ingress-IsRouted :
      (labels : Dict) → IsRouted (build_desired_ingress config inst labels service prefix)
  unfolding build_desired_ingress
  build_desired_ingress-IsRouted labels =
      let first : Ingress × Bool = (first_ingress config inst labels service prefix, false) in
      let a = apply_extra_ingress_annotations config.extra_annotations false first in
      let (rules, backend, class) = http_rule_target config service prefix a in
      record {
        rules = rules;
        no_backend = backend;
        class = class ∙ apply_extra_class config.extra_annotations first;
        matcher = http_rule_matcher config service prefix a;
        middlewares = λ h.
            http_rule_middleware config service prefix a
            ∙ apply_extra_keeps false middlewares_key config.extra_annotations first h
            ∙ (unfold get lookup in refl);
      }
