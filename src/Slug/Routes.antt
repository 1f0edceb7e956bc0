-- ===== src/Slug/Routes.antt =====
-- The routes of internal/controller/slug_policy.go: `hostClaimsSlugHost`, `checkSlugRoute` and
-- `slugIngressRules`. `strings.ToLower` is a parameter, since its table covers all of Unicode.
pub mod Exclusive
use Prim.Native.Char.{code}
use showroom_msp_private_llm.Prelude.{
  ℕ, suc, String, Bool, true, false, Option, none, some, List, [], ◌∷◌, ◌||◌, ◌&&◌, not, ◌==◌,
  if◌then◌else◌, nat_eq,
}
use showroom_msp_private_llm.Prelude.Text.{◌+++◌, has_prefix, trim_slashes}
use showroom_msp_private_llm.Kube.{LlmInstance, Ingress, IngressRule, HttpPath}
use showroom_msp_private_llm.Api.{
  Error, rejection, not_found, Result, ok, err, Reader, get_ingress, list_ingresses, Api, pure,
  throw, ◌>>=◌, request, attempt,
}
use showroom_msp_private_llm.Slug.Ownership.{owns_llm_resource, route_key}

-- `strings.HasSuffix(s, t)`
unfoldable pub has_suffix : String → String → Bool
has_suffix String.[] t = "" == t
has_suffix (String.◌∷◌ c s) t = String.◌∷◌ c s == t || has_suffix s t

-- `strings.Count(s, ".")`
unfoldable pub count_dots : String → ℕ
count_dots String.[] = 0
count_dots (String.◌∷◌ c s) = if nat_eq (code c) b'.' then suc (count_dots s) else count_dots s

-- `s[1:]`, of a text that begins with an ASCII character
abbrev pub behind_first : String → String
behind_first String.[] = ""
behind_first (String.◌∷◌ _ s) = s

module _ (to_lower : String → String) where
  abbrev claims : String → String → Bool
  claims rule host =
      if rule == "" || rule == host
      then true
      else has_prefix rule "*."
        && (has_suffix host (behind_first rule) && nat_eq (count_dots host) (count_dots rule))

  -- `hostClaimsSlugHost`
  unfoldable pub host_claims_slug_host : String → String → Bool
  host_claims_slug_host rule host = claims (to_lower rule) (to_lower host)

-- One path of a rule overlaps the selected path, either way round.
unfoldable pub overlaps_path : String → HttpPath → Bool
overlaps_path selected path =
    has_prefix (trim_slashes path.path) selected || has_prefix selected (trim_slashes path.path)

unfoldable pub any_path : String → List HttpPath → Bool
any_path selected [] = false
any_path selected (path ∷ paths) = overlaps_path selected path || any_path selected paths

-- The fields of the reconciler that the check reads.
pub record RouteConfig : Type 0 where
  pub to_lower : String → String
  pub reader : Reader
  pub public_host : String

module _ (config : RouteConfig) where
  abbrev rule_conflicts : String → String → Option (List HttpPath) → Bool
  rule_conflicts selected host none = false
  rule_conflicts selected host (some paths) =
      host_claims_slug_host config.to_lower host config.public_host && any_path selected paths

  unfoldable pub any_rule : String → List IngressRule → Bool
  any_rule selected [] = false
  any_rule selected (rule ∷ rules) =
      rule_conflicts selected rule.host rule.http || any_rule selected rules

  abbrev has_backend : Option String → Bool
  has_backend none = false
  has_backend (some _) = true

  -- The Ingress of the instance itself.
  abbrev is_own : LlmInstance → Ingress → Bool
  is_own inst ing =
      ing.meta.namespace == inst.meta.namespace
      && (ing.meta.name == inst.meta.name +++ "-llama" && owns_llm_resource inst ing.meta)

  -- The loop over the listed Ingresses; true where it returns the conflict.
  unfoldable pub any_conflict : LlmInstance → String → List Ingress → Bool
  any_conflict inst selected [] = false
  any_conflict inst selected (ing ∷ ings) =
      not (is_own inst ing) && (has_backend ing.default_backend || any_rule selected ing.rules)
      || any_conflict inst selected ings

  abbrev check_listed : LlmInstance → String → Api (Unit {0})
  check_listed inst slug = do
    ingresses ← request (list_ingresses config.reader)
    if any_conflict inst ("/llm/" +++ slug) ingresses
        then throw (rejection "another Ingress overlaps the selected inference path")
        else pure tt

  abbrev check_named : LlmInstance → String → Result Ingress → Api (Unit {0})
  check_named inst slug (ok named) =
      if not (owns_llm_resource inst named.meta)
      then throw (rejection "named Ingress is not controlled by this LLMInstance")
      else check_listed inst slug
  check_named inst slug (err not_found) = check_listed inst slug
  check_named inst slug (err e) = throw e

  -- `checkSlugRoute`
  unfoldable pub check_slug_route : LlmInstance → String → Api (Unit {0})
  check_slug_route inst slug = do
    named ← attempt (request (get_ingress config.reader (route_key inst)))
    check_named inst slug named

  -- `slugIngressRules`
  unfoldable pub slug_ingress_rules : String → String → List IngressRule
  slug_ingress_rules path svc_name =
      record {
        host = config.public_host;
        http = some (
            record { path = path; path_type = "Exact"; service = svc_name; port = 8000 }
            ∷ record { path = path +++ "/"; path_type = "Prefix"; service = svc_name; port = 8000 }
            ∷ []);
      }
      ∷ []
