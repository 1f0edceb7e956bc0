-- ===== src/Tests/AuthServer.antt =====
-- The forward-auth server on the sample cluster.
use showroom_msp_private_llm.Prelude.{◌≡◌, refl, Bool, true, none, some, [], ◌∷◌, inl, ◌↔◌, String}
use showroom_msp_private_llm.Api.{ok}
use showroom_msp_private_llm.Api.Settled.{value}
use showroom_msp_private_llm.Api.Trace.{Seen, run}
use showroom_msp_private_llm.Auth.{Binding, Query, authorize, verify, Response}
use showroom_msp_private_llm.Auth.Granted.{IsGranted}
use showroom_msp_private_llm.Auth.Verified.{IsSound, verify_trace, verify-IsSound}
use showroom_msp_private_llm.Auth.Complete.{authorize_iff}
use showroom_msp_private_llm.Samples.{
  sample_libraries, sample_policy, sample_request, reply, answer,
}

abbrev query : Query
query =
    ("namespace", "team" ∷ [])
    ∷ ("instance", "chat" ∷ [])
    ∷ ("uid", "u1" ∷ [])
    ∷ ("slug", "chat" ∷ [])
    ∷ []

abbrev binding : Binding
binding = record { namespace = "team"; name = "chat"; uid = "u1"; slug = "chat" }

accepts_test :
    (run answer (verify sample_libraries (some sample_policy) query "Bearer k") tt).0
    ≡ ok (record { status = 200; challenge = none })
unfolding verify run authorize showroom_msp_private_llm.Auth.parse_binding
    showroom_msp_private_llm.Auth.has_single_values showroom_msp_private_llm.Auth.query_values
    showroom_msp_private_llm.Prelude.Text.trim_space
    showroom_msp_private_llm.Prelude.Text.trim_prefix showroom_msp_private_llm.Api.◌>>=◌
    showroom_msp_private_llm.Api.attempt showroom_msp_private_llm.Api.request
    showroom_msp_private_llm.Slug.Policy.select showroom_msp_private_llm.Slug.Policy.find
    showroom_msp_private_llm.Kube.is_byoc showroom_msp_private_llm.Auth.any_owned
    showroom_msp_private_llm.Prelude.Dict.get showroom_msp_private_llm.Prelude.Dict.lookup
    showroom_msp_private_llm.Auth.owns_token
accepts_test = refl

rejects_test :
    (run answer (verify sample_libraries (some sample_policy) query "Bearer j") tt).0
    ≡ ok (record { status = 401; challenge = some "Bearer error=\"invalid_token\"" })
unfolding verify run authorize showroom_msp_private_llm.Auth.parse_binding
    showroom_msp_private_llm.Auth.has_single_values showroom_msp_private_llm.Auth.query_values
    showroom_msp_private_llm.Prelude.Text.trim_space
    showroom_msp_private_llm.Prelude.Text.trim_prefix showroom_msp_private_llm.Api.◌>>=◌
    showroom_msp_private_llm.Api.attempt showroom_msp_private_llm.Api.request
    showroom_msp_private_llm.Slug.Policy.select showroom_msp_private_llm.Slug.Policy.find
    showroom_msp_private_llm.Kube.is_byoc showroom_msp_private_llm.Auth.any_owned
    showroom_msp_private_llm.Prelude.Dict.get showroom_msp_private_llm.Prelude.Dict.lookup
rejects_test = refl

verify-IsSound_example :
    IsSound sample_libraries
      (some sample_policy)
      (Seen (verify_trace answer sample_libraries (some sample_policy) query "Bearer k" tt))
      query
      "Bearer k"
      (run answer (verify sample_libraries (some sample_policy) query "Bearer k") tt).0
verify-IsSound_example =
    verify-IsSound answer sample_libraries (some sample_policy) query "Bearer k" tt

authorize_iff_example :
    (value reply (authorize sample_libraries (some sample_policy) binding "k") ≡ ok true)
    ↔ IsGranted sample_libraries (some sample_policy) (λ c r. reply c ≡ r) binding "k"
authorize_iff_example =
    authorize_iff reply sample_libraries (some sample_policy) binding "k"
      (λ k. inl (sample_request, refl))
