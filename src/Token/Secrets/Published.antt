-- ===== src/Token/Secrets/Published.antt =====
-- What a token Secret looks like after an endpoint has been published in it, and after it has been
-- withdrawn.
use showroom_msp_private_llm.Prelude.{
  String, ◌≡◌, ◌≢◌, refl, ap, ◌∙◌, Bool, false, not, ◌||◌, ◌==◌, inl, inr, arith, Bool-cases,
  eq_of_==, or_false_parts, ==_of_ne, true_of_not,
}
use showroom_msp_private_llm.Prelude.Dict.{
  Dict, get, has, insert, remove, get-insert_self, get-insert_ne, get-remove_ne, has-remove,
}
use showroom_msp_private_llm.Kube.{Secret}
use showroom_msp_private_llm.Auth.{slug_key, instance_key, request_key}
use showroom_msp_private_llm.Token.{api_key_key, api_url_key, compatibility_key, unavailable_key}
use showroom_msp_private_llm.Token.Rotation.Bound.{target_of, instance_of, key_of}
use showroom_msp_private_llm.Token.Secrets.{
  with_labels, with_marks, with_content, drop_mark, set_label, set_slug_label, set_url,
  apply_secret_mutations,
}

abbrev pub url_of : Secret → String
url_of sec = get sec.content api_url_key

abbrev pub label_of : String → Secret → String
label_of key sec = get sec.meta.labels key

abbrev pub is_marked : Secret → Bool
is_marked sec = has sec.meta.annotations unavailable_key

-- What neither the publication nor the withdrawal touches.
pub record IsSameSecret (a b : Secret) : Type 0 where
  pub type : a.type ≡ b.type
  pub namespace : a.meta.namespace ≡ b.meta.namespace
  pub name : a.meta.name ≡ b.meta.name
  pub controller : a.meta.controller ≡ b.meta.controller
  pub deleting : a.meta.deleting ≡ b.meta.deleting
  pub request_label : label_of request_key a ≡ label_of request_key b
  pub key : key_of a ≡ key_of b
  pub target : target_of a ≡ target_of b
  pub instance_uid : instance_of a ≡ instance_of b

pub IsSameSecret-refl : (a : Secret) → IsSameSecret a a
IsSameSecret-refl a = record {
  type = refl;
  namespace = refl;
  name = refl;
  controller = refl;
  deleting = refl;
  request_label = refl;
  key = refl;
  target = refl;
  instance_uid = refl;
}

pub IsSameSecret-trans : {a b c : Secret} → IsSameSecret a b → IsSameSecret b c → IsSameSecret a c
IsSameSecret-trans f g = record {
  type = f.type ∙ g.type;
  namespace = f.namespace ∙ g.namespace;
  name = f.name ∙ g.name;
  controller = f.controller ∙ g.controller;
  deleting = f.deleting ∙ g.deleting;
  request_label = f.request_label ∙ g.request_label;
  key = f.key ∙ g.key;
  target = f.target ∙ g.target;
  instance_uid = f.instance_uid ∙ g.instance_uid;
}

pub relabelled-same :
    (sec : Secret) (labels : Dict)
    → get labels request_key ≡ label_of request_key sec
    → IsSameSecret (with_labels sec labels) sec
relabelled-same sec labels h = record {
  type = refl;
  namespace = refl;
  name = refl;
  controller = refl;
  deleting = refl;
  request_label = h;
  key = refl;
  target = refl;
  instance_uid = refl;
}

pub remarked-same :
    (sec : Secret) (annotations : Dict)
    → target_of (with_marks sec annotations) ≡ target_of sec
    → instance_of (with_marks sec annotations) ≡ instance_of sec
    → IsSameSecret (with_marks sec annotations) sec
remarked-same sec annotations h i = record {
  type = refl;
  namespace = refl;
  name = refl;
  controller = refl;
  deleting = refl;
  request_label = refl;
  key = refl;
  target = h;
  instance_uid = i;
}

pub refilled-same :
    (sec : Secret) (content : Dict)
    → get content api_key_key ≡ key_of sec
    → IsSameSecret (with_content sec content) sec
refilled-same sec content h = record {
  type = refl;
  namespace = refl;
  name = refl;
  controller = refl;
  deleting = refl;
  request_label = refl;
  key = h;
  target = refl;
  instance_uid = refl;
}

-- Each step keeps the rest, and what it sets is there, whether it had to write it or not.
drop_mark-same : (sec : Secret) → IsSameSecret (drop_mark sec).0 sec
drop_mark-same sec = elim (Bool-cases (is_marked sec)) [
  | inl e ↦ rw e (
      remarked-same sec (remove unavailable_key sec.meta.annotations)
        (get-remove_ne unavailable_key _ sec.meta.annotations refl)
        (get-remove_ne unavailable_key _ sec.meta.annotations refl))
  | inr e ↦ rw e (IsSameSecret-refl sec)
]

drop_mark_unmarked : (sec : Secret) → is_marked (drop_mark sec).0 ≡ false
drop_mark_unmarked sec =
    ground (arith, has-remove unavailable_key unavailable_key sec.meta.annotations)

module _ (key value : String) (o : Secret × Bool) where
  pub set_label-same : (key == request_key) ≡ false → IsSameSecret (set_label key value o).0 o.0
  set_label-same h = elim (Bool-cases (get o.0.meta.labels key == value)) [
    | inl e ↦ rw e (IsSameSecret-refl o.0)
    | inr e ↦ rw e (
        relabelled-same o.0 (insert key value o.0.meta.labels)
          (get-insert_ne key request_key value o.0.meta.labels h))
  ]

  pub set_label_self : label_of key (set_label key value o).0 ≡ value
  set_label_self = elim (Bool-cases (get o.0.meta.labels key == value)) [
    | inl e ↦ rw e (eq_of_== _ _ e)
    | inr e ↦ rw e (get-insert_self key value o.0.meta.labels)
  ]

  set_label_other :
      (j : String) → (key == j) ≡ false → label_of j (set_label key value o).0 ≡ label_of j o.0
  set_label_other j h = elim (Bool-cases (get o.0.meta.labels key == value)) [
    | inl e ↦ rw e refl
    | inr e ↦ rw e (get-insert_ne key j value o.0.meta.labels h)
  ]

  set_label_mark : is_marked (set_label key value o).0 ≡ is_marked o.0
  set_label_mark = elim (Bool-cases (get o.0.meta.labels key == value)) [
    | inl e ↦ rw e refl
    | inr e ↦ rw e refl
  ]

module _ (endpoint : String) (o : Secret × Bool) where
  set_url-same : IsSameSecret (set_url endpoint o).0 o.0
  set_url-same =
      elim (Bool-cases (not (has o.0.content api_url_key) || not (url_of o.0 == endpoint))) [
        | inl e ↦ rw e (
            refilled-same o.0 (insert api_url_key endpoint o.0.content)
              (get-insert_ne api_url_key api_key_key endpoint o.0.content refl))
        | inr e ↦ rw e (IsSameSecret-refl o.0)
      ]

  set_url_self : url_of (set_url endpoint o).0 ≡ endpoint
  set_url_self =
      elim (Bool-cases (not (has o.0.content api_url_key) || not (url_of o.0 == endpoint))) [
        | inl e ↦ rw e (get-insert_self api_url_key endpoint o.0.content)
        | inr e ↦ rw e (eq_of_== _ _ (true_of_not _ (or_false_parts _ _ e).1))
      ]

  set_url_labels : (set_url endpoint o).0.meta ≡ o.0.meta
  set_url_labels =
      elim (Bool-cases (not (has o.0.content api_url_key) || not (url_of o.0 == endpoint))) [
        | inl e ↦ rw e refl
        | inr e ↦ rw e refl
      ]

-- The label of the slug, and the other labels and marks under it.
module _ (slug : String) (o : Secret × Bool) where
  set_slug_label-same : IsSameSecret (set_slug_label slug o).0 o.0
  set_slug_label-same = elim (Bool-cases (slug == "")) [
    | inl e ↦ rw e (IsSameSecret-refl o.0)
    | inr e ↦ rw e (set_label-same slug_key slug o refl)
  ]

  set_slug_label_self : slug ≢ "" → label_of slug_key (set_slug_label slug o).0 ≡ slug
  set_slug_label_self h = rw (==_of_ne slug "" h) (set_label_self slug_key slug o)

  set_slug_label_other :
      (j : String) → (slug_key == j) ≡ false → label_of j (set_slug_label slug o).0 ≡ label_of j o.0
  set_slug_label_other j h = elim (Bool-cases (slug == "")) [
    | inl e ↦ rw e refl
    | inr e ↦ rw e (set_label_other slug_key slug o j h)
  ]

  set_slug_label_mark : is_marked (set_slug_label slug o).0 ≡ is_marked o.0
  set_slug_label_mark = elim (Bool-cases (slug == "")) [
    | inl e ↦ rw e refl
    | inr e ↦ rw e (set_label_mark slug_key slug o)
  ]

-- A Secret that publishes an endpoint.
pub record IsPublished (sec out : Secret) (name slug endpoint : String) : Type 0 where
  pub same : IsSameSecret out sec
  pub url : url_of out ≡ endpoint
  pub instance_label : label_of instance_key out ≡ name
  pub slug_label : slug ≢ "" → label_of slug_key out ≡ slug
  pub compatibility : label_of compatibility_key out ≡ "openai"
  pub unmarked : is_marked out ≡ false

-- `applySecretMutations` publishes the endpoint: the Secret then has that URL, the labels of the
-- instance, of the slug if there is one, and of the API's kind, and no mark of unavailability;
-- its key, its bindings, its owner and the label of its request stay.
pub apply_secret_mutations-IsPublished :
    (sec : Secret) (name slug endpoint : String)
    → IsPublished sec (apply_secret_mutations sec name slug endpoint).0 name slug endpoint
unfolding apply_secret_mutations
apply_secret_mutations-IsPublished sec name slug endpoint =
    let a = drop_mark sec in
    let b = set_label instance_key name a in
    let c = set_label compatibility_key "openai" b in
    let d = set_slug_label slug c in
    let labels : (j : String) → label_of j (set_url endpoint d).0 ≡ label_of j d.0 =
      λ j. ap (λ m. get m.labels j) (set_url_labels endpoint d) in
    record {
      same = IsSameSecret-trans (set_url-same endpoint d) (
          IsSameSecret-trans (set_slug_label-same slug c) (
            IsSameSecret-trans (set_label-same compatibility_key "openai" b refl)
              (IsSameSecret-trans (set_label-same instance_key name a refl) (drop_mark-same sec))));
      url = set_url_self endpoint d;
      instance_label =
          labels instance_key
          ∙ set_slug_label_other slug c instance_key refl
          ∙ set_label_other compatibility_key "openai" b instance_key refl
          ∙ set_label_self instance_key name a;
      slug_label = λ h. labels slug_key ∙ set_slug_label_self slug c h;
      compatibility =
          labels compatibility_key
          ∙ set_slug_label_other slug c compatibility_key refl
          ∙ set_label_self compatibility_key "openai" b;
      unmarked =
          ap (λ m. has m.annotations unavailable_key) (set_url_labels endpoint d)
          ∙ set_slug_label_mark slug c
          ∙ set_label_mark compatibility_key "openai" b
          ∙ set_label_mark instance_key name a
          ∙ drop_mark_unmarked sec;
    }
