-- ===== src/Hosted/Ingresses/Guarded.antt =====
-- `reconcileIngress` writes only the instance's own Ingress, behind the check of the route.
use showroom_msp_private_llm.Prelude.{String, ◌≡◌, ap, true, not, [], true_of_not, inl, inr}
use showroom_msp_private_llm.Prelude.Lists.{All}
use showroom_msp_private_llm.Prelude.Text.{trim_prefix}
use showroom_msp_private_llm.Prelude.Dict.{Dict}
use showroom_msp_private_llm.Kube.{LlmInstance, Ingress}
use showroom_msp_private_llm.Api.{
  not_found, conflict, already_exists, rejection, failure, tls_not_ready, join, Result, ok, err,
  Result-cases, cached, Call, Answer, Key, get_ingress, create_ingress, update_ingress, ◌>>=◌,
  request,
}
use showroom_msp_private_llm.Api.Ensures.{
  Ensures, done, Ensures-bind, Ensures-call, Ensures-try, Ensures-if, Ensures-calls,
}
use showroom_msp_private_llm.Api.Trace.{Seen, run, run_sound}
use showroom_msp_private_llm.Slug.Ownership.{owns_llm_resource}
use showroom_msp_private_llm.Slug.Routes.Exclusive.{
  IsExclusive, IsRouteRead, check_slug_route-Ensures,
}
use showroom_msp_private_llm.Hosted.Ingresses.{
  PublicConfig, first_ingress, ensure_ingress, build_desired_ingress, create_from, reconcile_read,
  reconcile_ingress,
}
use showroom_msp_private_llm.Hosted.Ingresses.Kept.{
  identity_of, ensure_ingress-IsKept, build_desired_ingress-IsKept,
}
use showroom_msp_private_llm.Hosted.Ingresses.Routed.{
  IsRouted, ensure_ingress-IsRouted, build_desired_ingress-IsRouted,
}

module _ (Obs : (c : Call) → Result (Answer c) → Type 0) (config : PublicConfig)
    (inst : LlmInstance) (labels : Dict) (service prefix : String) where
  abbrev own_key : Key
  own_key = record { namespace = inst.meta.namespace; name = service }

  -- The slug's path is free of other Ingresses, among those that the API listed.
  abbrev pub IsFree : Type 0
  IsFree = IsExclusive config.route Obs inst (trim_prefix prefix "/llm/") (ok tt)

  -- The calls of `reconcileIngress`.
  pub data IsIngressCall : Call → Type 0 where
    checks : {c : Call} → IsRouteRead config.route c → IsIngressCall c
    reads : IsIngressCall (get_ingress cached own_key)
    updates :
        {ing out : Ingress}
        → IsFree
        → Obs (get_ingress cached own_key) (ok ing)
        → owns_llm_resource inst ing.meta ≡ true
        → identity_of out.meta ≡ identity_of ing.meta
        → IsRouted config inst service prefix out
        → IsIngressCall (update_ingress out)
    creates :
        {draft out : Ingress}
        → IsFree
        → Obs (get_ingress cached own_key) (err not_found)
        → config.set_controller_reference inst draft ≡ ok out
        → (draft.meta.namespace ≡ inst.meta.namespace)
          × (draft.meta.name ≡ service)
          × (draft.meta.labels ≡ labels)
          × (draft.meta.owners ≡ [])
        → IsRouted config inst service prefix draft
        → IsIngressCall (create_ingress out)

  new_key :
      (draft : Ingress)
      → identity_of draft.meta ≡ identity_of (first_ingress config inst labels service prefix).meta
      → (draft.meta.namespace ≡ inst.meta.namespace)
        × (draft.meta.name ≡ service)
        × (draft.meta.labels ≡ labels)
        × (draft.meta.owners ≡ [])
  new_key draft h =
      (ap (λ m. m.namespace) h, ap (λ m. m.name) h, ap (λ m. m.labels) h, ap (λ m. m.owners) h)

  create-Ensures :
      IsFree
      → Obs (get_ingress cached own_key) (err not_found)
      → Ensures Obs IsIngressCall
          (λ _. Unit)
          (create_from config inst (build_desired_ingress config inst labels service prefix))
  unfolding ◌>>=◌ request
  create-Ensures free missing =
      let draft = build_desired_ingress config inst labels service prefix in
      elim (Result-cases (config.set_controller_reference inst draft)) [
        | inl (out, e) ↦ rw e (
            Ensures-call (create_ingress out)
              (creates free missing e
                (new_key draft (build_desired_ingress-IsKept config inst labels service prefix))
                (build_desired_ingress-IsRouted config inst service prefix labels))
              (λ _ _. done tt) (λ _ _. tt))
        | inr (e, refused) ↦ rw refused (done tt)
      ]

  read-Ensures :
      (r : Result Ingress)
      → IsFree
      → Obs (get_ingress cached own_key) r
      → Ensures Obs IsIngressCall (λ _. Unit) (reconcile_read config inst labels service prefix r)
  read-Ensures (err not_found) free shown = create-Ensures free shown
  read-Ensures (err conflict) free shown = done tt
  read-Ensures (err already_exists) free shown = done tt
  read-Ensures (err (rejection _)) free shown = done tt
  read-Ensures (err (failure _)) free shown = done tt
  read-Ensures (err (tls_not_ready _)) free shown = done tt
  read-Ensures (err (join _ _)) free shown = done tt
  read-Ensures (ok ing) free shown =
      let out = ensure_ingress config inst service prefix ing in
      Ensures-if (not (owns_llm_resource inst ing.meta)) (λ _. done tt)
        (λ owned.
          Ensures-if (not out.1) (λ _. done tt)
            (λ _.
              Ensures-call (update_ingress out.0)
                (updates free shown (true_of_not _ owned)
                  (ensure_ingress-IsKept config inst service prefix ing)
                  (ensure_ingress-IsRouted config inst service prefix ing))
                (λ _ _. done tt) (λ _ _. tt)))

  pub reconcile_ingress-Ensures :
      Ensures Obs IsIngressCall (λ _. Unit) (reconcile_ingress config inst labels service prefix)
  unfolding reconcile_ingress
  reconcile_ingress-Ensures =
      Ensures-bind
        (Ensures-calls (λ c h. checks h)
          (check_slug_route-Ensures config.route Obs inst (trim_prefix prefix "/llm/")))
        (λ _ free.
          Ensures-try (get_ingress cached own_key) reads (λ r shown. read-Ensures r free shown))
        (λ _ _. tt)

module _ {W : Type 0} (answer : W → (c : Call) → Result (Answer c) × W) (config : PublicConfig)
    (inst : LlmInstance) (labels : Dict) (service prefix : String) where
  -- Whatever the API server answers, `reconcileIngress` besides reading only updates an Ingress that
  -- it read and that the instance controls, of whose metadata it changes nothing but the annotations,
  -- or creates one where none was found, under the service's name in the instance's namespace and
  -- with the instance's controller reference; it does so only if no other Ingress that the API listed
  -- overlaps the path of the slug; and what it writes leads to the instance's service alone, through
  -- the authentication middleware if the extra annotations do not replace that annotation.
  pub reconcile_ingress_sound :
      (w : W)
      → All
          (λ e.
            IsIngressCall
              (Seen (run answer (reconcile_ingress config inst labels service prefix) w).1)
              config
              inst
              labels
              service
              prefix
              e.0)
          (run answer (reconcile_ingress config inst labels service prefix) w).1
  reconcile_ingress_sound w =
      (run_sound answer (reconcile_ingress config inst labels service prefix) w (
        reconcile_ingress-Ensures
          (Seen (run answer (reconcile_ingress config inst labels service prefix) w).1) config inst
          labels service prefix)).1
