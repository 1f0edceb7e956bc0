-- ===== src/Token/Reconcile.antt =====
-- The handler of token requests: `Reconcile`, its status updates and `ensureFinalizer`,
-- `validBYOCTokenEndpoint`, and `findTokenRequestsForInstance`, which maps a changed instance to its
-- requests.
pub mod Serving
pub mod Requeued
use showroom_msp_private_llm.Prelude.{
  ℕ, String, Bool, true, false, Option, none, some, List, [], ◌∷◌, ◌||◌, ◌&&◌, not, ◌==◌,
  if◌then◌else◌, nat_eq,
}
use showroom_msp_private_llm.Prelude.Text.{◌+++◌, trim_space}
use showroom_msp_private_llm.Kube.{Condition, LlmInstance, ApiTokenRequest, is_some}
use showroom_msp_private_llm.Api.{
  not_found, Error, Result, ok, err, cached, Key, Api, pure, throw, ◌>>=◌, request, attempt,
  get_instance, get_request, list_requests, update_request, update_request_status,
}
use showroom_msp_private_llm.Slug.Policy.{Chosen, select}
use showroom_msp_private_llm.Slug.Routes.{has_suffix, count_dots}
use showroom_msp_private_llm.Token.{finalizer, Url, TokenLibraries, set_condition}
use showroom_msp_private_llm.Token.Rotation.{targets_byoc}
use showroom_msp_private_llm.Token.Secrets.{ensure_secret, invalidate_token_endpoint}
use showroom_msp_private_llm.Token.Finalize.{finalize_token_request}

-- `ctrl.Result`; the delay in seconds
pub record Requeue : Type 0 where
  pub requeue : Bool
  pub after : ℕ

abbrev pub finished : Requeue
finished = record { requeue = false; after = 0 }

abbrev pub retry_in : ℕ → Requeue
retry_in seconds = record { requeue = false; after = seconds }

abbrev ready_condition : Bool → String → String → Condition
ready_condition status reason message = record {
  type = "Ready";
  status = status;
  reason = reason;
  message = message;
  observed_generation = 0;
}

-- `updateReadyStatus`
unfoldable pub update_ready_status : ApiTokenRequest → String → Api ApiTokenRequest
update_ready_status tr secret_name = request (
    update_request_status (record tr {
      status = record (tr.status) {
        conditions =
            set_condition (ready_condition true "Provisioned" "Token generated")
              tr.status.conditions;
        secret_name = secret_name;
        phase = "Ready";
        observed_generation = tr.meta.generation;
      };
    }))

-- `updatePendingStatus`
unfoldable pub update_pending_status : ApiTokenRequest → String → String → Api ApiTokenRequest
update_pending_status tr reason message = request (
    update_request_status (record tr {
      status = record (tr.status) {
        conditions = set_condition (ready_condition false reason message) tr.status.conditions;
        phase = "Pending";
        observed_generation = tr.meta.generation;
      };
    }))

-- The conditions that the first test of `validBYOCTokenEndpoint` refuses.
abbrev is_plain_https : Url → Bool
is_plain_https u =
    u.scheme == "https"
    && (not (u.host == "")
        && (not u.has_user
            && (u.opaque_part == ""
                && (u.raw_query == ""
                    && (not u.force_query
                        && (u.fragment == ""
                            && (u.raw_path == ""
                                && ((u.path == "" || u.path == "/")
                                    && (u.port == "" || u.port == "443")))))))))

abbrev condition_holds : LlmInstance → Option Condition → Bool
condition_holds inst none = false
condition_holds inst (some ready) =
    ready.status
    && (nat_eq inst.status.observed_generation inst.meta.generation
        && (nat_eq ready.observed_generation inst.meta.generation
            && not (is_some inst.meta.deleting)))

abbrev slug_if_current : LlmInstance → Result Chosen → String
slug_if_current inst (err _) = ""
slug_if_current inst (ok chosen) =
    if not (inst.status.slug == chosen.slug) || not (inst.status.slug_source == chosen.source)
    then ""
    else chosen.slug

abbrev joined : List String → String
joined [] = ""
joined (s ∷ []) = s
joined (s ∷ t) = s +++ " and " +++ joined t

abbrev name_if : Bool → String → List String → List String
name_if missing name rest = if missing then name ∷ rest else rest

module _ (libraries : TokenLibraries) where
  abbrev checks_out : Option Url → Bool
  checks_out none = false
  checks_out (some u) =
      is_plain_https u
      && ((u.host == u.hostname || u.host == u.hostname +++ ":443")
          && (not (libraries.is_ip u.hostname)
              && (libraries.libraries.is_dns1123_subdomain u.hostname
                  && (not (nat_eq (count_dots u.hostname) 0)
                      && not (has_suffix u.hostname ".invalid")))))

  -- `validBYOCTokenEndpoint`
  unfoldable pub valid_byoc_token_endpoint : String → Bool
  valid_byoc_token_endpoint endpoint = checks_out (libraries.parse_url endpoint)

  -- The values that `Reconcile` computes from the instance.
  unfoldable pub current_slug : LlmInstance → String
  current_slug inst = slug_if_current inst (select libraries.libraries libraries.policy inst.meta)

  unfoldable pub instance_ready : LlmInstance → Bool
  instance_ready inst =
      condition_holds inst (libraries.find_condition inst.status.conditions "Ready")

  abbrev pub endpoint_of : LlmInstance → String
  endpoint_of inst = trim_space inst.status.endpoint

  unfoldable pub valid_endpoint : LlmInstance → Bool
  valid_endpoint inst =
      not (targets_byoc inst)
      || not (inst.status.active_byoc_target_id == "")
        && valid_byoc_token_endpoint (endpoint_of inst)

  -- `Sprintf`'s message; the name stands in quotes (`%q`) of a name without special characters.
  abbrev waiting_message : LlmInstance → String
  waiting_message inst =
      "Waiting for LLMInstance \""
      +++ inst.meta.name
      +++ "\" to populate "
      +++ joined (
          name_if (current_slug inst == "") "operator-selected slug" (
            name_if (endpoint_of inst == "") "status.endpoint" (
              name_if (not (instance_ready inst)) "current Ready condition"
                (name_if (not (valid_endpoint inst)) "verified HTTPS endpoint" []))))

  abbrev pub must_wait : LlmInstance → Bool
  must_wait inst =
      current_slug inst == ""
      || (endpoint_of inst == "" || (not (instance_ready inst) || not (valid_endpoint inst)))

  abbrev serve : ApiTokenRequest → LlmInstance → Api Requeue
  serve tr inst =
      if must_wait inst
      then (do
        left ← invalidate_token_endpoint tr (some inst)
        _ ← update_pending_status left "InstanceNotReady" (waiting_message inst)
        pure (retry_in 10))
      else do
        left ←
            ensure_secret libraries tr inst (tr.meta.name +++ "-token") (current_slug inst)
              (endpoint_of inst)
        _ ← update_ready_status left (tr.meta.name +++ "-token")
        pure finished

  abbrev with_instance : ApiTokenRequest → Result LlmInstance → Api Requeue
  with_instance tr (ok inst) = serve tr inst
  with_instance tr (err not_found) = do
    left ← invalidate_token_endpoint tr none
    _ ← update_pending_status left "InstanceNotFound" "Referenced LLMInstance not found"
    pure (retry_in 10)
  with_instance tr (err e) = throw e

  abbrev after_finalizer : Result ApiTokenRequest → Api Requeue
  after_finalizer (err _) = pure (retry_in 5)
  after_finalizer (ok _) = pure (record { requeue = true; after = 0 })

  abbrev add_finalizer_to : ApiTokenRequest → ApiTokenRequest
  add_finalizer_to tr = record tr {
    meta = record (tr.meta) { finalizers = libraries.add_finalizer tr.meta.finalizers finalizer };
  }

  -- `Reconcile` on a request that is not being deleted, with `ensureFinalizer`.
  abbrev reconcile_live : String → ApiTokenRequest → Api Requeue
  reconcile_live namespace tr =
      if not (libraries.contains_finalizer tr.meta.finalizers finalizer)
      then (do
        added ← attempt (request (update_request (add_finalizer_to tr)))
        after_finalizer added)
      else do
        found ← attempt (
            request (
              get_instance cached (record { namespace = namespace; name = tr.spec.instance_name })))
        with_instance tr found

  abbrev reconcile_found : Key → Result ApiTokenRequest → Api Requeue
  reconcile_found key (err not_found) = pure finished
  reconcile_found key (err e) = throw e
  reconcile_found key (ok tr) =
      if is_some tr.meta.deleting
      then (do _ ← finalize_token_request libraries tr; pure finished)
      else reconcile_live key.namespace tr

  -- `Reconcile`
  unfoldable pub reconcile : Key → Api Requeue
  reconcile key = do found ← attempt (request (get_request cached key)); reconcile_found key found

abbrev requests_of : LlmInstance → List ApiTokenRequest → List Key
requests_of inst [] = []
requests_of inst (tr ∷ rest) =
    let keys = requests_of inst rest in
    if not (trim_space tr.spec.instance_name == inst.meta.name)
    then keys
    else record { namespace = tr.meta.namespace; name = tr.meta.name } ∷ keys

abbrev keys_of : LlmInstance → Result (List ApiTokenRequest) → Api (List Key)
keys_of inst (err _) = pure []
keys_of inst (ok requests) = pure (requests_of inst requests)

-- `findTokenRequestsForInstance`
unfoldable pub find_token_requests_for_instance : LlmInstance → Api (List Key)
find_token_requests_for_instance inst = do
  listed ← attempt (request (list_requests inst.meta.namespace))
  keys_of inst listed
