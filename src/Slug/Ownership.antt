-- ===== src/Slug/Ownership.antt =====
-- internal/controller/slug_policy.go: the slug that an instance may use, its persistence in the
-- status, and what happens to an instance that may use none. `Routes` has the checks of the routes.
pub mod Persisted
pub mod Rejected
use showroom_msp_private_llm.Prelude.{
  String, Bool, true, false, Option, none, some, List, ◌||◌, ◌&&◌, not, ◌==◌, if◌then◌else◌,
}
use showroom_msp_private_llm.Prelude.Text.{◌+++◌}
use showroom_msp_private_llm.Kube.{
  OwnerRef, ObjectMeta, Condition, LlmInstance, Ingress, group_version,
}
use showroom_msp_private_llm.Kube.Status.{update_provisioning_status}
use showroom_msp_private_llm.Api.{
  Error, rejection, failure, join, not_found, Result, ok, err, Reader, Key, Call, get_instance,
  patch_instance_status, get_ingress, delete_ingress, Api, pure, throw, ◌>>=◌, request, attempt,
  is_rejection,
}
use showroom_msp_private_llm.Slug.Policy.{Libraries, Policy, Chosen, select}

-- The fields of `LLMInstanceReconciler` that these functions read, and
-- `meta.SetStatusCondition` of the Kubernetes libraries. `reader` is `routeReader()`: the API
-- server itself where `RouteReader` is set, the manager's cache otherwise.
pub record Config : Type 0 where
  pub libraries : Libraries
  pub policy : Option Policy
  pub reader : Reader
  pub set_condition : Condition → List Condition → List Condition

abbrev pub instance_key_of : LlmInstance → Key
instance_key_of inst = record { namespace = inst.meta.namespace; name = inst.meta.name }

abbrev is_instance_owner : LlmInstance → Option OwnerRef → Bool
is_instance_owner inst none = false
is_instance_owner inst (some owner) =
    owner.uid == inst.meta.uid
    && (owner.name == inst.meta.name
        && (owner.kind == "LLMInstance" && owner.api_version == group_version))

-- `ownsLLMResource`, and `ownsSlugIngress`
unfoldable pub owns_llm_resource : LlmInstance → ObjectMeta → Bool
owns_llm_resource inst obj =
    not (inst.meta.uid == "")
    && (obj.namespace == inst.meta.namespace && is_instance_owner inst obj.controller)

-- The guards of `selectSlug` behind the policy's choice.
abbrev keep_slug : LlmInstance → Chosen → Result Chosen
keep_slug inst chosen =
    if chosen.source == "Derived"
      && (inst.status.slug == ""
          && (not (inst.status.endpoint == "")
              || (not (inst.status.active_byoc_slug == "")
                  || not (inst.status.active_byoc_kubeconfig_secret_name == ""))))
    then err (rejection "a previously provisioned instance requires its reviewed legacy slug")
    else if not (inst.status.active_byoc_slug == "")
          && not (inst.status.active_byoc_slug == chosen.slug)
        || not (inst.status.slug == "") && not (inst.status.slug == chosen.slug)
    then err (rejection "operator slug mapping changed")
    else ok chosen

abbrev with_slug : LlmInstance → Chosen → LlmInstance
with_slug inst chosen = record inst {
  status = record (inst.status) { slug = chosen.slug; slug_source = chosen.source };
}

-- The object as the function leaves it, and what it returns: the slug, and whether to requeue.
abbrev Outcome : Type 0
Outcome = LlmInstance × Result (String × Bool)

abbrev is_other : LlmInstance → LlmInstance → Bool
is_other before persisted =
    not (persisted.meta.uid == before.meta.uid)
    || (not (persisted.meta.namespace == before.meta.namespace)
        || not (persisted.meta.name == before.meta.name))

abbrev is_dropped : Chosen → LlmInstance → Bool
is_dropped chosen persisted =
    not (persisted.status.slug == chosen.slug)
    || not (persisted.status.slug_source == chosen.source)

abbrev is_current : LlmInstance → Chosen → Bool
is_current inst chosen = inst.status.slug == chosen.slug && inst.status.slug_source == chosen.source

abbrev check_persisted : LlmInstance → LlmInstance → Chosen → Result LlmInstance → Api Outcome
check_persisted before after chosen (err e) = pure (after, err e)
check_persisted before after chosen (ok persisted) =
    if is_other before persisted
    then pure (after, err (rejection "instance identity changed during slug persistence"))
    else if is_dropped chosen persisted
    then pure (after, err (rejection "LLMInstance schema must persist status.slug"))
    else pure (after, ok (chosen.slug, true))

-- `errors.Join` of an error and another that may be nil
abbrev join_result : Error → Result (Unit {0}) → Error
join_result e (ok _) = e
join_result e (err other) = join e other

abbrev forget_instance : Result LlmInstance → Result (Unit {0})
forget_instance (ok _) = ok tt
forget_instance (err e) = err e

-- `client.IgnoreNotFound`
abbrev ignore_gone : Result (Unit {0}) → Result (Unit {0})
ignore_gone (err not_found) = ok tt
ignore_gone r = r

-- What `rejectSlug` does to the Ingress of the instance's name, with the error that it notes.
abbrev remove_route : LlmInstance → Result Ingress → Api (Result (Unit {0}))
remove_route inst (err not_found) = pure (ok tt)
remove_route inst (err e) = pure (err e)
remove_route inst (ok ing) =
    if not (owns_llm_resource inst ing.meta)
    then pure (err (rejection "named Ingress is not controlled by this LLMInstance"))
    else do deleted ← attempt (request (delete_ingress ing)); pure (ignore_gone deleted)

abbrev pub route_key : LlmInstance → Key
route_key inst = record { namespace = inst.meta.namespace; name = inst.meta.name +++ "-llama" }

module _ (config : Config) where
  -- `selectSlug`
  unfoldable pub select_slug : LlmInstance → Result Chosen
  select_slug inst = elim (select config.libraries config.policy inst.meta) [
    | err e ↦ err (rejection "unsafe inference identity or route configuration")
    | ok chosen ↦ keep_slug inst chosen
  ]

  abbrev after_patch : LlmInstance → Chosen → Result LlmInstance → Api Outcome
  after_patch inst chosen (err e) = pure (with_slug inst chosen, err e)
  after_patch inst chosen (ok after) = do
    found ← attempt (request (get_instance config.reader (instance_key_of inst)))
    check_persisted inst after chosen found

  -- `ensureSlug` behind its `selectSlug`
  abbrev persist_slug : LlmInstance → Chosen → Api Outcome
  persist_slug inst chosen =
      if is_current inst chosen then pure (inst, ok (chosen.slug, false)) else do
        patched ← attempt (request (patch_instance_status (with_slug inst chosen)))
        after_patch inst chosen patched

  -- `ensureSlug`
  unfoldable pub ensure_slug : LlmInstance → Api Outcome
  ensure_slug inst = elim (select_slug inst) [
    | err e ↦ pure (inst, err e)
    | ok chosen ↦ persist_slug inst chosen
  ]

  -- `rejectSlug`; the error that it returns
  unfoldable pub reject_slug : LlmInstance → Error → Api Error
  reject_slug inst cause = if not (is_rejection cause) then pure cause else do
    found ← attempt (request (get_ingress config.reader (route_key inst)))
    route ← remove_route inst found
    status ← attempt (
        update_provisioning_status config.set_condition inst "" "SlugOwnershipError"
          "Inference identity requires a valid operator policy and an exclusively owned route")
    pure (join_result (join_result cause route) (forget_instance status))
