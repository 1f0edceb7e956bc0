-- ===== src/Token/Reconcile/Serving.antt =====
-- What the handler of token requests may write, whatever the API server answers.
use showroom_msp_private_llm.Prelude.{String, ◌≡◌, ◌≢◌, true, false, Option}
use showroom_msp_private_llm.Prelude.Text.{◌+++◌}
use showroom_msp_private_llm.Kube.{LlmInstance, ApiTokenRequest, is_some}
use showroom_msp_private_llm.Api.{
  Result, ok, cached, Call, Answer, Key, get_instance, get_request, update_request,
  update_request_status, ◌>>=◌,
}
use showroom_msp_private_llm.Api.Ensures.{Ensures}
use showroom_msp_private_llm.Token.{TokenLibraries}
use showroom_msp_private_llm.Token.Rotation.{targets_byoc}
use showroom_msp_private_llm.Token.Secrets.Guarded.{IsEnsureCall, IsTouched}
use showroom_msp_private_llm.Token.Secrets.Invalidated.{IsInvalidateCall}
use showroom_msp_private_llm.Token.Finalize.Deletes.{IsFinalizeCall}
use showroom_msp_private_llm.Token.Reconcile.{
  valid_byoc_token_endpoint, current_slug, instance_ready, endpoint_of, add_finalizer_to,
}

module _ (Obs : (c : Call) → Result (Answer c) → Type 0) (libraries : TokenLibraries)
    (key : Key) where
  abbrev pub instance_of_request : ApiTokenRequest → Call
  instance_of_request tr =
      get_instance cached (record { namespace = key.namespace; name = tr.spec.instance_name })

  -- The instance of a request, as the API showed it, that serves: it has the slug of the operator's
  -- policy, an endpoint, and a Ready condition for its generation; and the endpoint of a remote
  -- workload is one that was verified for an established target.
  pub record IsServing (tr : ApiTokenRequest) (inst : LlmInstance) : Type 0 where
    pub shown : Obs (instance_of_request tr) (ok inst)
    pub slug : current_slug libraries inst ≢ ""
    pub endpoint : endpoint_of libraries inst ≢ ""
    pub ready : instance_ready libraries inst ≡ true
    pub verified :
        targets_byoc inst ≡ true
        → (inst.status.active_byoc_target_id ≢ "")
          × (valid_byoc_token_endpoint libraries (endpoint_of libraries inst) ≡ true)

  abbrev token_name : ApiTokenRequest → String
  token_name tr = tr.meta.name +++ "-token"

  -- The calls of `Reconcile`. Besides reads: adding the finalizer; `ensureSecret` and a Ready
  -- status for an instance that serves; `invalidateTokenEndpoint` and a Pending status; and
  -- `finalizeTokenRequest` for a request that is being deleted. All are about the request that was
  -- read, or about the request as an earlier write returned it.
  pub data IsReconcileCall : Call → Type 0 where
    reads_request : IsReconcileCall (get_request cached key)
    reads_instance :
        {tr : ApiTokenRequest}
        → Obs (get_request cached key) (ok tr)
        → IsReconcileCall (instance_of_request tr)
    adds_finalizer :
        {tr : ApiTokenRequest}
        → Obs (get_request cached key) (ok tr)
        → is_some tr.meta.deleting ≡ false
        → IsReconcileCall (update_request (add_finalizer_to libraries tr))
    ensures :
        {tr : ApiTokenRequest} {inst : LlmInstance} {c : Call}
        → Obs (get_request cached key) (ok tr)
        → is_some tr.meta.deleting ≡ false
        → IsServing tr inst
        → IsEnsureCall Obs libraries tr inst
            (token_name tr)
            (current_slug libraries inst)
            (endpoint_of libraries inst)
            c
        → IsReconcileCall c
    invalidates :
        {tr : ApiTokenRequest} {inst : Option LlmInstance} {c : Call}
        → Obs (get_request cached key) (ok tr)
        → is_some tr.meta.deleting ≡ false
        → IsInvalidateCall Obs tr inst c
        → IsReconcileCall c
    reports_ready :
        {tr : ApiTokenRequest} {inst : LlmInstance} {u t : ApiTokenRequest}
        → Obs (get_request cached key) (ok tr)
        → IsServing tr inst
        → IsTouched Obs tr u
        → (t.status.phase ≡ "Ready")
          × (t.status.secret_name ≡ token_name tr)
          × (t.meta ≡ u.meta)
          × (t.spec ≡ u.spec)
        → IsReconcileCall (update_request_status t)
    reports_pending :
        {tr u t : ApiTokenRequest}
        → Obs (get_request cached key) (ok tr)
        → IsTouched Obs tr u
        → (t.status.phase ≡ "Pending") × (t.meta ≡ u.meta) × (t.spec ≡ u.spec)
        → IsReconcileCall (update_request_status t)
    finalizes :
        {tr : ApiTokenRequest} {c : Call}
        → Obs (get_request cached key) (ok tr)
        → is_some tr.meta.deleting ≡ true
        → IsFinalizeCall Obs libraries tr c
        → IsReconcileCall c
