-- ===== src/Hosted/Ingresses/Kept.antt =====
-- What the updates of `reconcileIngress` leave of an Ingress's metadata: all but the annotations.
use showroom_msp_private_llm.Prelude.{
  String, ◌≡◌, refl, ◌∙◌, Bool, true, false, not, ◌||◌, ◌==◌, [], ◌∷◌, Bool-cases, inl, inr,
}
use showroom_msp_private_llm.Prelude.Text.{trim_space}
use showroom_msp_private_llm.Prelude.Dict.{Dict, get, has}
use showroom_msp_private_llm.Kube.{ObjectMeta, LlmInstance, Ingress}
use showroom_msp_private_llm.Slug.Routes.{RouteConfig}
use showroom_msp_private_llm.Hosted.Ingresses.{
  PublicConfig, annotate, drop_annotation, ensure_ingress_annotations, apply_extra,
  apply_extra_ingress_annotations, is_traefik, ensure_ingress_class, ensure_ingress_http_rule,
  has_tls, ensure_ingress_tls, first_ingress, tls_key, entrypoints_key, middlewares_key,
  pathmatcher_key, ensure_ingress, build_desired_ingress,
}

-- What of an Ingress's metadata no update touches: all but the annotations.
abbrev pub identity_of : ObjectMeta → ObjectMeta
identity_of meta = record meta { annotations = [] }

abbrev pub IsKept : Ingress × Bool → Ingress × Bool → Type 0
IsKept new old = identity_of new.0.meta ≡ identity_of old.0.meta

annotate-IsKept : (key value : String) (o : Ingress × Bool) → IsKept (annotate key value o) o
annotate-IsKept key value o = elim (Bool-cases (get o.0.meta.annotations key == value)) [
  | inl e ↦ rw e refl
  | inr e ↦ rw e refl
]

drop_annotation-IsKept : (key : String) (o : Ingress × Bool) → IsKept (drop_annotation key o) o
drop_annotation-IsKept key o = elim (Bool-cases (has o.0.meta.annotations key)) [
  | inl e ↦ rw e refl
  | inr e ↦ rw e refl
]

ensure_ingress_annotations-IsKept :
    (ing : Ingress) (middleware entry : String) (https : Bool)
    → IsKept (ensure_ingress_annotations ing middleware entry https) (ing, false)
unfolding ensure_ingress_annotations
ensure_ingress_annotations-IsKept ing middleware entry true =
    annotate-IsKept tls_key "true" _
    ∙ annotate-IsKept entrypoints_key entry _
    ∙ annotate-IsKept middlewares_key middleware (ing, false)
ensure_ingress_annotations-IsKept ing middleware entry false =
    drop_annotation-IsKept tls_key _
    ∙ annotate-IsKept entrypoints_key entry _
    ∙ annotate-IsKept middlewares_key middleware (ing, false)

apply_extra-IsKept :
    (override : Bool) (key value : String) (o : Ingress × Bool)
    → IsKept (apply_extra override key value o) o
apply_extra-IsKept override key value (ing, updated) =
    elim (Bool-cases (
      not (has ing.meta.annotations key)
      || override
      || not (get ing.meta.annotations key == value))) [ inl e ↦ rw e refl | inr e ↦ rw e refl ]

extras-IsKept :
    (extra : Dict) (override : Bool) (o : Ingress × Bool)
    → IsKept (apply_extra_ingress_annotations extra override o) o
unfolding apply_extra_ingress_annotations
extras-IsKept [] override o = refl
extras-IsKept ((key, value) ∷ extra) override o =
    extras-IsKept extra override _ ∙ apply_extra-IsKept override key value o

ensure_ingress_class-IsKept : (o : Ingress × Bool) → IsKept (ensure_ingress_class o) o
unfolding ensure_ingress_class
ensure_ingress_class-IsKept o = elim (Bool-cases (is_traefik o.0.class_name)) [
  | inl e ↦ rw e refl
  | inr e ↦ rw e refl
]

ensure_ingress_http_rule-IsKept :
    (route : RouteConfig) (prefix service : String) (o : Ingress × Bool)
    → IsKept (ensure_ingress_http_rule route prefix service o) o
unfolding ensure_ingress_http_rule
ensure_ingress_http_rule-IsKept route prefix service o = drop_annotation-IsKept pathmatcher_key _

ensure_ingress_tls-IsKept :
    (config : PublicConfig) (o : Ingress × Bool) → IsKept (ensure_ingress_tls config o) o
unfolding ensure_ingress_tls
ensure_ingress_tls-IsKept config o =
    elim (Bool-cases (not config.is_https || trim_space config.tls_secret_name == "")) [
      | inl e ↦ rw e refl
      | inr e ↦
          elim (Bool-cases
            (has_tls o.0.tls (trim_space config.tls_secret_name) config.route.public_host)) [
              | inl f ↦ rw (e, f) refl
              | inr f ↦ rw (e, f) refl
            ]
    ]

pub ensure_ingress-IsKept :
    (config : PublicConfig) (inst : LlmInstance) (service prefix : String) (ing : Ingress)
    → IsKept (ensure_ingress config inst service prefix ing) (ing, false)
unfolding ensure_ingress
ensure_ingress-IsKept config inst service prefix ing =
    ensure_ingress_tls-IsKept config _
    ∙ ensure_ingress_http_rule-IsKept config.route prefix service _
    ∙ ensure_ingress_class-IsKept _
    ∙ extras-IsKept config.extra_annotations true _
    ∙ ensure_ingress_annotations-IsKept ing _ _ config.is_https

pub build_desired_ingress-IsKept :
    (config : PublicConfig) (inst : LlmInstance) (labels : Dict) (service prefix : String)
    → identity_of (build_desired_ingress config inst labels service prefix).meta
      ≡ identity_of (first_ingress config inst labels service prefix).meta
unfolding build_desired_ingress
build_desired_ingress-IsKept config inst labels service prefix =
    ensure_ingress_http_rule-IsKept config.route prefix service _
    ∙ extras-IsKept config.extra_annotations false
        (first_ingress config inst labels service prefix, false)
