-- ===== src/Tests/SlugPolicy.antt =====
-- The slug policy, its persistence and the checks of routes on the sample cluster.
use showroom_msp_private_llm.Prelude.{
  ℕ, ◌≡◌, refl, Bool, true, false, none, some, [], ◌∷◌, ◌↔◌, ◌<◌, String, ◌==◌, arith,
}
use showroom_msp_private_llm.Prelude.Lists.{All, length}
use showroom_msp_private_llm.Kube.{ObjectMeta}
use showroom_msp_private_llm.Api.{ok, Error, rejection}
use showroom_msp_private_llm.Api.Trace.{Seen, run}
use showroom_msp_private_llm.Slug.Keys.{Token, close_object, reject_duplicate_keys}
use showroom_msp_private_llm.Slug.Keys.Laws.{
  Members, object, member, no_members, atom, tokens, names, Verdict, well_keyed, Distinct,
  reject_duplicate_keys_decides, accepted_names,
}
use showroom_msp_private_llm.Slug.Keys.{is_known}
use showroom_msp_private_llm.Slug.Policy.{Entry, parse, find, select, derived, Chosen}
use showroom_msp_private_llm.Slug.Policy.Prefixes.{NoOverlap}
use showroom_msp_private_llm.Slug.Policy.WellFormed.{IsSeparated, parse-IsSeparated}
use showroom_msp_private_llm.Slug.Policy.Selection.{
  select-NoOverlap, IsAdmitted, select_iff, slug_input,
}
use showroom_msp_private_llm.Slug.Ownership.{ensure_slug, reject_slug}
use showroom_msp_private_llm.Slug.Ownership.Persisted.{HandsOut, IsSlugCall, ensure_slug_sound}
use showroom_msp_private_llm.Slug.Ownership.Rejected.{Reports, IsRejectCall, reject_slug_sound}
use showroom_msp_private_llm.Slug.Routes.{check_slug_route}
use showroom_msp_private_llm.Slug.Routes.Exclusive.{
  IsExclusive, IsRouteRead, check_slug_route_sound,
}
use showroom_msp_private_llm.Samples.{
  sample_libraries, sample_policy, sample_instance, new_instance, meta_of, answer, slug_config,
  route_config,
}

parse_test : parse sample_libraries (ok "{}") ≡ ok sample_policy
unfolding parse reject_duplicate_keys showroom_msp_private_llm.Slug.Policy.build
    showroom_msp_private_llm.Slug.Policy.add_entries showroom_msp_private_llm.Slug.Policy.add_entry
    showroom_msp_private_llm.Slug.Policy.validate_entry
    showroom_msp_private_llm.Prelude.Text.trim_space showroom_msp_private_llm.Slug.Policy.exists
    showroom_msp_private_llm.Slug.Keys.contains showroom_msp_private_llm.Slug.Policy.overlaps
parse_test = refl

chat_test :
    select sample_libraries (some sample_policy) sample_instance.meta
    ≡ ok (record { slug = "chat"; source = "Legacy" })
unfolding select showroom_msp_private_llm.Slug.Policy.find
chat_test = refl

abbrev other_meta : ObjectMeta
other_meta = meta_of "math" "u3" [] [] none

other_test :
    select sample_libraries (some sample_policy) other_meta ≡ ok (derived sample_libraries "u3")
unfolding select find
other_test = refl

apart_test :
    NoOverlap
      (sample_libraries.digest (slug_input sample_instance.meta))
      (sample_libraries.digest (slug_input other_meta))
apart_test = (refl, refl)

parse-IsSeparated_example : IsSeparated sample_libraries sample_policy.entries
parse-IsSeparated_example = parse-IsSeparated sample_libraries (ok "{}") sample_policy parse_test

select-NoOverlap_example : NoOverlap "chat" (derived sample_libraries "u3").slug
select-NoOverlap_example =
    select-NoOverlap sample_libraries (ok "{}") sample_policy sample_instance.meta other_meta
      (record { slug = "chat"; source = "Legacy" }) (derived sample_libraries "u3") parse_test refl
      apart_test chat_test other_test

select_iff_example :
    (select sample_libraries (some sample_policy) other_meta ≡ ok (derived sample_libraries "u3"))
    ↔ IsAdmitted sample_libraries (some sample_policy) other_meta (derived sample_libraries "u3")
select_iff_example =
    select_iff sample_libraries (some sample_policy) other_meta (derived sample_libraries "u3")

ensure_slug_sound_example :
    HandsOut slug_config new_instance
      (Seen (run answer (ensure_slug slug_config new_instance) tt).1)
      (run answer (ensure_slug slug_config new_instance) tt).0
    × All
        (λ e. IsSlugCall slug_config new_instance e.0)
        (run answer (ensure_slug slug_config new_instance) tt).1
ensure_slug_sound_example = ensure_slug_sound answer slug_config new_instance tt

abbrev cause : Error
cause = rejection "route taken"

reject_slug_sound_example :
    Reports slug_config sample_instance cause
      (Seen (run answer (reject_slug slug_config sample_instance cause) tt).1)
      (run answer (reject_slug slug_config sample_instance cause) tt).0
    × All
        (λ e. IsRejectCall slug_config sample_instance cause e.0)
        (run answer (reject_slug slug_config sample_instance cause) tt).1
reject_slug_sound_example = reject_slug_sound answer slug_config sample_instance cause tt

check_slug_route_sound_example :
    IsExclusive route_config
      (Seen (run answer (check_slug_route route_config sample_instance "chat") tt).1)
      sample_instance
      "chat"
      (run answer (check_slug_route route_config sample_instance "chat") tt).0
    × All
        (λ e. IsRouteRead route_config e.0)
        (run answer (check_slug_route route_config sample_instance "chat") tt).1
check_slug_route_sound_example =
    check_slug_route_sound answer route_config sample_instance "chat" tt

abbrev twice : Members
twice = member "uid" atom (member "uid" atom no_members)

reject_duplicate_keys_decides_example : Verdict (well_keyed (object twice)) (close_object ∷ []) (
    reject_duplicate_keys
      (length (tokens (object twice) (close_object ∷ [])))
      (tokens (object twice) (close_object ∷ [])))
reject_duplicate_keys_decides_example =
    reject_duplicate_keys_decides (object twice) (close_object ∷ [])

twice_test : well_keyed (object twice) ≡ false
unfolding well_keyed showroom_msp_private_llm.Slug.Keys.contains is_known
twice_test = refl

abbrev apart : Members
apart = member "uid" atom (member "name" atom no_members)

accepted_test :
    reject_duplicate_keys (length (tokens (object apart) [])) (tokens (object apart) []) ≡ ok []
unfolding reject_duplicate_keys tokens showroom_msp_private_llm.Slug.Keys.contains is_known
accepted_test = refl

accepted_names_example : Distinct (names apart) × All (λ k. is_known k ≡ true) (names apart)
accepted_names_example = accepted_names apart [] accepted_test
