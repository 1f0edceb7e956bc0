-- ===== src/Instance/Guarded.antt =====
-- `Reconcile` makes only calls that `Calls` allows.
use showroom_msp_private_llm.Prelude.{String}
use showroom_msp_private_llm.Kube.{LlmInstance}
use showroom_msp_private_llm.Api.{Error, Result, ok, Key, Call, Answer, get_instance}
use showroom_msp_private_llm.Api.Ensures.{Ensures}
use showroom_msp_private_llm.Slug.Ownership.Rejected.{IsRejectCall}
use showroom_msp_private_llm.Instance.{Reconciler}
use showroom_msp_private_llm.Instance.Calls.{IsShown, IsCleared, IsReconcileCall}

module _ (Obs : (c : Call) → Result (Answer c) → Type 0) (r : Reconciler) (key : Key) where
  abbrev Allowed : Call → Type 0
  Allowed = IsReconcileCall Obs r key

  abbrev Shown : LlmInstance → Type 0
  Shown = IsShown Obs r key

  abbrev Read : LlmInstance → Type 0
  Read inst = Obs (get_instance r.slugs.reader key) (ok inst)

  abbrev Cleared : LlmInstance → String → Type 0
  Cleared = IsCleared Obs r key

  abbrev refused :
      (inst : LlmInstance)
      → Shown inst
      → (cause : Error) (c : Call) → IsRejectCall r.slugs inst cause c
      → Allowed c
  refused inst shown cause c h = IsReconcileCall.refuses inst cause shown h
