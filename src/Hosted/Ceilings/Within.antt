-- ===== src/Hosted/Ceilings/Within.antt =====
-- Which instances the ceilings let through.
use showroom_msp_private_llm.Prelude.{
  ℕ, ◌≡◌, refl, true, List, [], ◌∷◌, ◌||◌, ◌↔◌, arith, Bool-cases, inl, inr, or_false_parts,
  true≢false, sym,
}
use showroom_msp_private_llm.Prelude.Lists.{All}
use showroom_msp_private_llm.Prelude.Int.{ℤ, pos, ltb_ℤ, ◌≤ℤ◌, le_of_not_ltb, not_ltb_of_le}
use showroom_msp_private_llm.Kube.{LlmInstance}
use showroom_msp_private_llm.Api.{ok}
use showroom_msp_private_llm.Hosted.Models.{Texts, resolve_model, model_for_instance}
use showroom_msp_private_llm.Hosted.Ceilings.{
  ModelServerCeilings, all_in_range, validate, ceiling_or, none_exceeds, cpu_milli_of,
  memory_mib_of, context_of, parallel_of, limits, check,
}

none_exceeds_iff : (ls : List (ℤ × ℤ)) → (none_exceeds ls ≡ true) ↔ All (λ l. l.0 ≤ℤ l.1) ls
unfolding none_exceeds
none_exceeds_iff [] = (λ _. tt, λ _. refl)
none_exceeds_iff ((requested, maximum) ∷ ls) = (
  λ h. elim (Bool-cases (ltb_ℤ maximum requested)) [
    | inl over ↦ absurd (true≢false (sym (rw over at h)))
    | inr under ↦ (le_of_not_ltb requested maximum under, (none_exceeds_iff ls).0 (rw under at h))
  ],
  λ (h, hs). rw (not_ltb_of_le requested maximum h) ((none_exceeds_iff ls).1 hs),
)

abbrev IsInRange : ℤ × ℕ → Type 0
IsInRange (value, maximum) = (pos 0 ≤ℤ value) × (value ≤ℤ pos maximum)

all_in_range_iff : (ls : List (ℤ × ℕ)) → (all_in_range ls ≡ true) ↔ All IsInRange ls
unfolding all_in_range
all_in_range_iff [] = (λ _. tt, λ _. refl)
all_in_range_iff ((value, maximum) ∷ ls) = (
  λ h. elim (Bool-cases (ltb_ℤ value (pos 0) || ltb_ℤ (pos maximum) value)) [
    | inl out ↦ absurd (true≢false (sym (rw out at h)))
    | inr within ↦
        let (low, high) = or_false_parts _ _ within in
        (
          (le_of_not_ltb (pos 0) value low, le_of_not_ltb value (pos maximum) high),
          (all_in_range_iff ls).0 (rw within at h),
        )
  ],
  λ ((low, high), hs).
      rw (not_ltb_of_le (pos 0) value low, not_ltb_of_le value (pos maximum) high)
        ((all_in_range_iff ls).1 hs),
)

-- The ceilings themselves are in range.
pub record IsValid (c : ModelServerCeilings) : Type 0 where
  pub cpu : IsInRange (c.cpu_milli, 16000)
  pub memory : IsInRange (c.memory_mib, 65536)
  pub context : IsInRange (c.context_size, 131072)
  pub parallel : IsInRange (c.parallel_slots, 16)

module _ (texts : Texts) where
  -- Each setting of the instance's model server is at most its ceiling, or at most the budget of
  -- the requested model where the ceiling is zero.
  pub record IsWithin (c : ModelServerCeilings) (inst : LlmInstance) : Type 0 where
    pub cpu_request :
        cpu_milli_of texts (model_for_instance texts inst).cpu_request
        ≤ℤ ceiling_or c.cpu_milli
            (cpu_milli_of texts (resolve_model texts inst.spec.model).cpu_request)
    pub cpu_limit :
        cpu_milli_of texts (model_for_instance texts inst).cpu_limit
        ≤ℤ ceiling_or c.cpu_milli
            (cpu_milli_of texts (resolve_model texts inst.spec.model).cpu_limit)
    pub memory_request :
        memory_mib_of texts (model_for_instance texts inst).memory_request
        ≤ℤ ceiling_or c.memory_mib
            (memory_mib_of texts (resolve_model texts inst.spec.model).memory_request)
    pub memory_limit :
        memory_mib_of texts (model_for_instance texts inst).memory_limit
        ≤ℤ ceiling_or c.memory_mib
            (memory_mib_of texts (resolve_model texts inst.spec.model).memory_limit)
    pub context :
        context_of texts (model_for_instance texts inst)
        ≤ℤ ceiling_or c.context_size (context_of texts (resolve_model texts inst.spec.model))
    pub parallel :
        parallel_of texts (model_for_instance texts inst)
        ≤ℤ ceiling_or c.parallel_slots (parallel_of texts (resolve_model texts inst.spec.model))

  -- `check` accepts an instance exactly if the ceilings are in their ranges and each setting of its
  -- model server is within its ceiling, where zero stands for the budget of the requested model.
  pub check_iff :
      (c : ModelServerCeilings) (inst : LlmInstance)
      → (check texts c inst ≡ ok tt) ↔ (IsValid c × IsWithin c inst)
  unfolding check validate
  check_iff c inst = (
    λ h. elim (Bool-cases (validate c)) [
      | inl valid ↦
          let (a, (b, (d, (e, _)))) = (all_in_range_iff _).0 valid in
          elim (Bool-cases (none_exceeds ls)) [
            | inl under ↦
                let (p, (q, (r, (s, (t, (u, _)))))) = (none_exceeds_iff ls).0 under in
                (
                  record { cpu = a; memory = b; context = d; parallel = e },
                  record {
                    cpu_request = p;
                    cpu_limit = q;
                    memory_request = r;
                    memory_limit = s;
                    context = t;
                    parallel = u;
                  },
                )
            | inr over ↦ absurd (ground (arith, valid, over))
          ]
      | inr invalid ↦ absurd (ground (arith, invalid))
    ],
    λ (v, w).
        let valid : validate c ≡ true =
          (all_in_range_iff _).1 (v.cpu, (v.memory, (v.context, (v.parallel, tt)))) in
        let under : none_exceeds ls ≡ true = (none_exceeds_iff ls).1 (
          w.cpu_request,
          (w.cpu_limit, (w.memory_request, (w.memory_limit, (w.context, (w.parallel, tt))))),
        ) in
        rw (valid, under) refl,
  )
    where
      ls : List (ℤ × ℤ)
      ls = limits texts c (resolve_model texts inst.spec.model) (model_for_instance texts inst)
