-- ===== src/Hosted/Ceilings.antt =====
-- internal/controller/model_server_ceilings.go: the provider's limits on the settings that a tenant
-- chooses for a model server.
pub mod Within
use showroom_msp_private_llm.Prelude.{
  ℕ, zero, suc, ◌*◌, ◌/◌, ◌+◌, String, Bool, true, false, List, [], ◌∷◌, ◌||◌, ◌==◌, if◌then◌else◌,
  nat_eq,
}
use showroom_msp_private_llm.Prelude.Int.{ℤ, pos, negsuc, ltb_ℤ}
use showroom_msp_private_llm.Kube.{LlmInstance}
use showroom_msp_private_llm.Api.{Result, ok, err, failure}
use showroom_msp_private_llm.Hosted.Models.{
  ModelSelection, Texts, resolve_model, model_for_instance, server_int_flag,
}

-- `ModelServerCeilings`; zero stands for the model's own budget.
pub record ModelServerCeilings : Type 0 where
  pub cpu_milli : ℤ
  pub memory_mib : ℤ
  pub context_size : ℤ
  pub parallel_slots : ℤ

-- The loop of `Validate` over values with their maxima; true where it ends.
unfoldable pub all_in_range : List (ℤ × ℕ) → Bool
all_in_range [] = true
all_in_range ((value, maximum) ∷ rest) =
    if ltb_ℤ value (pos 0) || ltb_ℤ (pos maximum) value then false else all_in_range rest

-- `Validate`; true where it returns nil
unfoldable pub validate : ModelServerCeilings → Bool
validate c = all_in_range (
    (c.cpu_milli, 16000)
    ∷ (c.memory_mib, 65536)
    ∷ (c.context_size, 131072)
    ∷ (c.parallel_slots, 16)
    ∷ [])

-- Division of an int64 by a positive number rounds towards zero.
abbrev quotient : ℤ → ℕ → ℤ
quotient (pos n) d = pos (n / d)
quotient (negsuc n) d = elim (suc n / d) [ zero ↦ pos 0 | suc q ↦ negsuc q ]

abbrev is_zero : ℤ → Bool
is_zero (pos n) = nat_eq n 0
is_zero (negsuc n) = false

-- The maximum that applies: the ceiling, or the model's budget where the ceiling is zero.
abbrev pub ceiling_or : ℤ → ℤ → ℤ
ceiling_or ceiling budget = if is_zero ceiling then budget else ceiling

-- The loop of `check`; true where no request exceeds its maximum.
unfoldable pub none_exceeds : List (ℤ × ℤ) → Bool
none_exceeds [] = true
none_exceeds ((requested, maximum) ∷ rest) =
    if ltb_ℤ maximum requested then false else none_exceeds rest

module _ (texts : Texts) where
  -- `cpuMilli`
  unfoldable pub cpu_milli_of : String → ℤ
  cpu_milli_of value = if value == "" then pos 0 else texts.milli_value value

  -- `memoryMiB`
  unfoldable pub memory_mib_of : String → ℤ
  memory_mib_of value =
      if value == "" then pos 0 else quotient (texts.whole_value value) (1024 * 1024)

  abbrev pub context_of : ModelSelection → ℤ
  context_of model = server_int_flag texts model.server_args "--ctx-size" (pos 0)

  abbrev pub parallel_of : ModelSelection → ℤ
  parallel_of model = server_int_flag texts model.server_args "--parallel" (pos 4)

  -- What the model asks for, beside what it may have.
  abbrev limits : ModelServerCeilings → ModelSelection → ModelSelection → List (ℤ × ℤ)
  limits c baseline desired =
      (cpu_milli_of desired.cpu_request, ceiling_or c.cpu_milli (cpu_milli_of baseline.cpu_request))
      ∷ (cpu_milli_of desired.cpu_limit, ceiling_or c.cpu_milli (cpu_milli_of baseline.cpu_limit))
      ∷ (
        memory_mib_of desired.memory_request,
        ceiling_or c.memory_mib (memory_mib_of baseline.memory_request),
      )
      ∷ (
        memory_mib_of desired.memory_limit,
        ceiling_or c.memory_mib (memory_mib_of baseline.memory_limit),
      )
      ∷ (context_of desired, ceiling_or c.context_size (context_of baseline))
      ∷ (parallel_of desired, ceiling_or c.parallel_slots (parallel_of baseline))
      ∷ []

  -- `check`
  unfoldable pub check : ModelServerCeilings → LlmInstance → Result (Unit {0})
  check c inst =
      if validate c
      then (if none_exceeds
            (limits c (resolve_model texts inst.spec.model) (model_for_instance texts inst))
          then ok tt
          else err (failure "a model setting exceeds its provider ceiling"))
      else err (failure "a ceiling is out of range")
