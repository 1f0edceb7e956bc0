-- ===== src/Token/Secrets/Withdrawn.antt =====
-- What a token Secret looks like after its endpoint has been withdrawn.
use showroom_msp_private_llm.Prelude.{
  ◌≡◌, refl, ap, ◌∙◌, Bool, true, Option, none, some, ◌==◌, inl, inr, Bool-cases, eq_of_==,
}
use showroom_msp_private_llm.Prelude.Dict.{get, insert, get-insert_self, get-insert_ne}
use showroom_msp_private_llm.Kube.{LlmInstance, Secret}
use showroom_msp_private_llm.Auth.{instance_key}
use showroom_msp_private_llm.Token.{api_key_key, api_url_key, unavailable_key, unavailable_url}
use showroom_msp_private_llm.Token.Secrets.{
  relabel, withdraw_url, mark_unavailable, withdraw, is_pending_byoc,
}
use showroom_msp_private_llm.Token.Secrets.Published.{
  url_of, label_of, IsSameSecret, IsSameSecret-refl, IsSameSecret-trans, remarked-same,
  refilled-same, set_label-same, set_label_self,
}

module _ (o : Secret × Bool) where
  withdraw_url-same : IsSameSecret (withdraw_url o).0 o.0
  withdraw_url-same = elim (Bool-cases (url_of o.0 == unavailable_url)) [
    | inl e ↦ rw e (IsSameSecret-refl o.0)
    | inr e ↦ rw e (
        refilled-same o.0 (insert api_url_key unavailable_url o.0.content)
          (get-insert_ne api_url_key api_key_key unavailable_url o.0.content refl))
  ]

  withdraw_url_self : url_of (withdraw_url o).0 ≡ unavailable_url
  withdraw_url_self = elim (Bool-cases (url_of o.0 == unavailable_url)) [
    | inl e ↦ rw e (eq_of_== _ _ e)
    | inr e ↦ rw e (get-insert_self api_url_key unavailable_url o.0.content)
  ]

  withdraw_url_meta : (withdraw_url o).0.meta ≡ o.0.meta
  withdraw_url_meta = elim (Bool-cases (url_of o.0 == unavailable_url)) [
    | inl e ↦ rw e refl
    | inr e ↦ rw e refl
  ]

  mark_unavailable-same : IsSameSecret (mark_unavailable o).0 o.0
  mark_unavailable-same = elim (Bool-cases (get o.0.meta.annotations unavailable_key == "true")) [
    | inl e ↦ rw e (IsSameSecret-refl o.0)
    | inr e ↦ rw e (
        remarked-same o.0 (insert unavailable_key "true" o.0.meta.annotations)
          (get-insert_ne unavailable_key _ "true" o.0.meta.annotations refl)
          (get-insert_ne unavailable_key _ "true" o.0.meta.annotations refl))
  ]

  mark_unavailable_self : get (mark_unavailable o).0.meta.annotations unavailable_key ≡ "true"
  mark_unavailable_self = elim (Bool-cases (get o.0.meta.annotations unavailable_key == "true")) [
    | inl e ↦ rw e (eq_of_== _ _ e)
    | inr e ↦ rw e (get-insert_self unavailable_key "true" o.0.meta.annotations)
  ]

  mark_unavailable_rest :
      ((mark_unavailable o).0.content ≡ o.0.content)
      × ((mark_unavailable o).0.meta.labels ≡ o.0.meta.labels)
  mark_unavailable_rest = elim (Bool-cases (get o.0.meta.annotations unavailable_key == "true")) [
    | inl e ↦ rw e (refl, refl)
    | inr e ↦ rw e (refl, refl)
  ]

relabel-same : (inst : Option LlmInstance) (o : Secret × Bool) → IsSameSecret (relabel inst o).0 o.0
relabel-same none o = IsSameSecret-refl o.0
relabel-same (some inst) o = elim (Bool-cases (is_pending_byoc inst)) [
  | inl e ↦ rw e (set_label-same instance_key inst.meta.name o refl)
  | inr e ↦ rw e (IsSameSecret-refl o.0)
]

-- A Secret without an endpoint; that of a remote workload already names its instance.
pub record IsWithdrawn (sec out : Secret) (inst : Option LlmInstance) : Type 0 where
  pub same : IsSameSecret out sec
  pub url : url_of out ≡ unavailable_url
  pub marked : get out.meta.annotations unavailable_key ≡ "true"
  pub relabelled :
      (i : LlmInstance)
      → inst ≡ some i
      → is_pending_byoc i ≡ true
      → label_of instance_key out ≡ i.meta.name

-- The part of `invalidateTokenEndpoint` behind the rotation, on the Secret that this leaves.
pub withdraw-IsWithdrawn :
    (inst : Option LlmInstance) (sec : Secret) (rotated : Bool)
    → IsWithdrawn sec (withdraw inst (sec, rotated)).0 inst
unfolding withdraw
withdraw-IsWithdrawn inst sec rotated =
    let a = relabel inst (sec, rotated) in
    let b = withdraw_url a in
    record {
      same =
          IsSameSecret-trans (mark_unavailable-same b)
            (IsSameSecret-trans (withdraw_url-same a) (relabel-same inst (sec, rotated)));
      url = ap (λ d. get d api_url_key) (mark_unavailable_rest b).0 ∙ withdraw_url_self a;
      marked = mark_unavailable_self b;
      relabelled = λ i e pending.
          ap (λ d. get d instance_key) (mark_unavailable_rest b).1
          ∙ ap (λ m. get m.labels instance_key) (withdraw_url_meta a)
          ∙ (rw (e, pending) (set_label_self instance_key i.meta.name (sec, rotated)));
    }
