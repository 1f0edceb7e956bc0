-- ===== src/Token/Reconcile/Requeued.antt =====
-- Which token requests a changed instance requeues.
use showroom_msp_private_llm.Prelude.{
  ◌≡◌, refl, Bool, true, List, [], ◌∷◌, Memᴰ, ◌==◌, ◌↔◌, inl, inr, Bool-cases, eq_of_==, eq_iff,
}
use showroom_msp_private_llm.Prelude.Text.{trim_space}
use showroom_msp_private_llm.Kube.{LlmInstance, ApiTokenRequest}
use showroom_msp_private_llm.Api.{Result, ok, Call, Answer, Key, list_requests}
use showroom_msp_private_llm.Api.Settled.{value, value-try}
use showroom_msp_private_llm.Token.Finalize.{key_of_request}
use showroom_msp_private_llm.Token.Reconcile.{requests_of, find_token_requests_for_instance}

-- A request in the list that refers to the instance, up to white space.
abbrev pub IsRequestFor : LlmInstance → List ApiTokenRequest → Key → Type 0
IsRequestFor inst trs key =
    (tr : ApiTokenRequest) × Memᴰ tr trs
    × (trim_space tr.spec.instance_name ≡ inst.meta.name)
    × (key ≡ key_of_request tr)

module _ (inst : LlmInstance) (key : Key) where
  abbrev names_it : ApiTokenRequest → Bool
  names_it tr = trim_space tr.spec.instance_name == inst.meta.name

  later :
      (tr : ApiTokenRequest) (trs : List ApiTokenRequest)
      → IsRequestFor inst trs key
      → IsRequestFor inst (tr ∷ trs) key
  later tr trs (t, m, named, e) = (t, Memᴰ.tail m, named, e)

  here :
      (tr : ApiTokenRequest) (trs : List ApiTokenRequest) (keys : List Key)
      → names_it tr ≡ true
      → (Memᴰ key keys → IsRequestFor inst trs key)
      → Memᴰ key (key_of_request tr ∷ keys)
      → IsRequestFor inst (tr ∷ trs) key
  here tr trs keys named rest (Memᴰ.head e) = (tr, Memᴰ.head refl, eq_of_== _ _ named, e)
  here tr trs keys named rest (Memᴰ.tail m) = later tr trs (rest m)

  requests_of_sound :
      (trs : List ApiTokenRequest) → Memᴰ key (requests_of inst trs) → IsRequestFor inst trs key
  requests_of_sound [] m = elim m [ ]
  requests_of_sound (tr ∷ trs) m = elim (Bool-cases (names_it tr)) [
    | inl named ↦ here tr trs (requests_of inst trs) named (requests_of_sound trs) (rw named at m)
    | inr other ↦ later tr trs (requests_of_sound trs (rw other at m))
  ]

  requests_of_complete :
      (trs : List ApiTokenRequest) → IsRequestFor inst trs key → Memᴰ key (requests_of inst trs)
  requests_of_complete [] (t, m, named, e) = elim m [ ]
  requests_of_complete (tr ∷ trs) (t, Memᴰ.head same, named, e) =
      let hit : names_it tr ≡ true = (rw (← same) ((eq_iff _ _).1 named)) in
      rw hit (Memᴰ.head (rw (← same) e))
  requests_of_complete (tr ∷ trs) (t, Memᴰ.tail m, named, e) = elim (Bool-cases (names_it tr)) [
    | inl hit ↦ rw hit (Memᴰ.tail (requests_of_complete trs (t, m, named, e)))
    | inr miss ↦ rw miss (requests_of_complete trs (t, m, named, e))
  ]

-- If the listing of the token requests in the instance's namespace gives a list, then
-- `findTokenRequestsForInstance` returns exactly the keys of those requests in it whose instance
-- name, without the white space around it, is the instance's.
pub find_token_requests_iff :
    (reply : (c : Call) → Result (Answer c)) (inst : LlmInstance) (trs : List ApiTokenRequest)
    → reply (list_requests inst.meta.namespace) ≡ ok trs
    → (keys : List Key) × (value reply (find_token_requests_for_instance inst) ≡ ok keys)
      × ((key : Key) → Memᴰ key keys ↔ IsRequestFor inst trs key)
unfolding find_token_requests_for_instance
find_token_requests_iff reply inst trs listed = (
  requests_of inst trs,
  (rw value-try (rw listed (unfold value in refl))),
  (λ key. (requests_of_sound inst key trs, requests_of_complete inst key trs)),
)
