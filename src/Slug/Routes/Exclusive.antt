-- ===== src/Slug/Routes/Exclusive.antt =====
-- A route that passes `checkSlugRoute` is the instance's alone.
use showroom_msp_private_llm.Prelude.{
  String, ◌≡◌, refl, true, false, Option, none, some, List, [], ◌∷◌, ◌||◌, ◌&&◌, not, ◌⊎◌, inl, inr,
  Bool-cases, or_false_parts,
}
use showroom_msp_private_llm.Prelude.Lists.{All}
use showroom_msp_private_llm.Prelude.Text.{◌+++◌, trim_slashes}
use showroom_msp_private_llm.Kube.{LlmInstance, Ingress, IngressRule, HttpPath}
use showroom_msp_private_llm.Api.{
  not_found, Result, ok, err, Call, Answer, get_ingress, list_ingresses,
}
use showroom_msp_private_llm.Api.Ensures.{Ensures, done, Ensures-try, Ensures-if, Ensures-call}
use showroom_msp_private_llm.Api.Trace.{Seen, run, run_sound}
use showroom_msp_private_llm.Slug.Policy.Prefixes.{NoOverlap}
use showroom_msp_private_llm.Slug.Ownership.{owns_llm_resource, route_key}
use showroom_msp_private_llm.Slug.Routes.{
  RouteConfig, host_claims_slug_host, overlaps_path, any_path, rule_conflicts, any_rule,
  has_backend, is_own, any_conflict, check_listed, check_named, check_slug_route,
}

module _ (config : RouteConfig) where
  abbrev pub PathsApart : String → Option (List HttpPath) → Type 0
  PathsApart selected none = Unit
  PathsApart selected (some paths) = All (λ path. NoOverlap (trim_slashes path.path) selected) paths

  -- A foreign Ingress that leaves the selected path alone: it has no default backend, and no path of
  -- a rule for the public host overlaps it.
  abbrev pub LeavesAlone : String → Ingress → Type 0
  LeavesAlone selected ing =
      (ing.default_backend ≡ none)
      × All
          (λ rule.
            host_claims_slug_host config.to_lower rule.host config.public_host ≡ true
            → PathsApart selected rule.http)
          ing.rules

  any_path-apart :
      (selected : String) (paths : List HttpPath)
      → any_path selected paths ≡ false
      → All (λ path. NoOverlap (trim_slashes path.path) selected) paths
  unfolding any_path overlaps_path
  any_path-apart selected [] h = tt
  any_path-apart selected (path ∷ paths) h =
      let (here, later) = or_false_parts (overlaps_path selected path) _ h in
      (or_false_parts _ _ here, any_path-apart selected paths later)

  rule_conflicts-apart :
      (selected host : String) (http : Option (List HttpPath))
      → rule_conflicts config selected host http ≡ false
      → host_claims_slug_host config.to_lower host config.public_host ≡ true
      → PathsApart selected http
  rule_conflicts-apart selected host none h claimed = tt
  rule_conflicts-apart selected host (some paths) h claimed =
      any_path-apart selected paths (rw claimed at h)

  any_rule-apart :
      (selected : String) (rules : List IngressRule)
      → any_rule config selected rules ≡ false
      → All
          (λ rule.
            host_claims_slug_host config.to_lower rule.host config.public_host ≡ true
            → PathsApart selected rule.http)
          rules
  unfolding any_rule
  any_rule-apart selected [] h = tt
  any_rule-apart selected (rule ∷ rules) h =
      let (here, later) = or_false_parts (rule_conflicts config selected rule.host rule.http) _ h in
      (rule_conflicts-apart selected rule.host rule.http here, any_rule-apart selected rules later)

  no_backend : (b : Option String) → has_backend config b ≡ false → b ≡ none
  no_backend none h = refl
  no_backend (some s) h = cc

  any_conflict-alone :
      (inst : LlmInstance) (selected : String) (ings : List Ingress)
      → any_conflict config inst selected ings ≡ false
      → All (λ ing. (is_own config inst ing ≡ true) ⊎ LeavesAlone selected ing) ings
  unfolding any_conflict
  any_conflict-alone inst selected [] h = tt
  any_conflict-alone inst selected (ing ∷ ings) h =
      let (here, later) =
        or_false_parts
          (not (is_own config inst ing)
            && (has_backend config ing.default_backend || any_rule config selected ing.rules))
          _ h in
      (either here, any_conflict-alone inst selected ings later)
    where
      either :
          (not (is_own config inst ing)
              && (has_backend config ing.default_backend || any_rule config selected ing.rules))
            ≡ false
          → (is_own config inst ing ≡ true) ⊎ LeavesAlone selected ing
      either free = elim (Bool-cases (is_own config inst ing)) [
        | inl own ↦ inl own
        | inr foreign ↦
            let both : (has_backend config ing.default_backend
                  || any_rule config selected ing.rules)
                ≡ false =
              rw foreign at free in
            let (b, r) = or_false_parts (has_backend config ing.default_backend) _ both in
            inr (no_backend ing.default_backend b, any_rule-apart selected ing.rules r)
      ]

  -- The check's calls are reads of Ingresses.
  abbrev pub IsRouteRead : Call → Type 0
  IsRouteRead (get_ingress _ _) = Unit
  IsRouteRead (list_ingresses _) = Unit
  IsRouteRead _ = ⊥

  module _ (Obs : (c : Call) → Result (Answer c) → Type 0) where
    -- Every Ingress that the API listed is the instance's own or leaves its path alone.
    abbrev pub IsExclusive : LlmInstance → String → Result (Unit {0}) → Type 0
    IsExclusive inst slug r =
        r ≡ ok tt
        → (ings : List Ingress) × Obs (list_ingresses config.reader) (ok ings)
          × All (λ ing. (is_own config inst ing ≡ true) ⊎ LeavesAlone ("/llm/" +++ slug) ing) ings

    check_listed-Ensures :
        (inst : LlmInstance) (slug : String)
        → Ensures Obs IsRouteRead (IsExclusive inst slug) (check_listed config inst slug)
    check_listed-Ensures inst slug =
        Ensures-call (list_ingresses config.reader) tt
          (λ ings shown.
            Ensures-if (any_conflict config inst ("/llm/" +++ slug) ings) (λ _. done (λ e. cc))
              (λ free.
                done (λ _. (ings, shown, any_conflict-alone inst ("/llm/" +++ slug) ings free))))
          (λ e _ h. cc)

    pub check_slug_route-Ensures :
        (inst : LlmInstance) (slug : String)
        → Ensures Obs IsRouteRead (IsExclusive inst slug) (check_slug_route config inst slug)
    unfolding check_slug_route
    check_slug_route-Ensures inst slug =
        Ensures-try (get_ingress config.reader (route_key inst)) tt (λ r _. named r)
      where
        named :
            (r : Result Ingress)
            → Ensures Obs IsRouteRead (IsExclusive inst slug) (check_named config inst slug r)
        named (ok ing) =
            Ensures-if (not (owns_llm_resource inst ing.meta)) (λ _. done (λ e. cc))
              (λ _. check_listed-Ensures inst slug)
        named (err not_found) = check_listed-Ensures inst slug
        named (err e) = done (λ e. cc)

module _ {W : Type 0} (answer : W → (c : Call) → Result (Answer c) × W) (config : RouteConfig)
    (inst : LlmInstance) (slug : String) where
  -- Whatever the API server answers, if `checkSlugRoute` passes, then of the Ingresses that the API
  -- listed, in all namespaces, each is the instance's own, or has no default backend and no path,
  -- in a rule whose host can match the public host, that begins with the selected path or is
  -- itself the beginning of it; and the check has only read Ingresses.
  pub check_slug_route_sound :
      (w : W)
      → IsExclusive config
          (Seen (run answer (check_slug_route config inst slug) w).1)
          inst
          slug
          (run answer (check_slug_route config inst slug) w).0
        × All (λ e. IsRouteRead config e.0) (run answer (check_slug_route config inst slug) w).1
  check_slug_route_sound w = run_sound answer (check_slug_route config inst slug) w (
      check_slug_route-Ensures config (Seen (run answer (check_slug_route config inst slug) w).1)
        inst slug)
