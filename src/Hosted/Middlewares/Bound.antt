-- ===== src/Hosted/Middlewares/Bound.antt =====
-- The address that the authentication middleware asks binds the route to one instance: what the
-- forward-auth server reads back from it.
use showroom_msp_private_llm.Prelude.{String, ◌≡◌, refl, true, false, some}
use showroom_msp_private_llm.Prelude.Text.{is_blank}
use showroom_msp_private_llm.Kube.{LlmInstance}
use showroom_msp_private_llm.Slug.Policy.{Libraries}
use showroom_msp_private_llm.Auth.{Query, query_values, has_single_values, parse_binding}
use showroom_msp_private_llm.Hosted.Middlewares.{MiddlewareLibraries, binding_query}

module _ (libraries : Libraries) (mw : MiddlewareLibraries) (parse_query : String → Query) where
  -- If the query that net/url has encoded is parsed again to the same values, and namespace, name and
  -- slug pass the auth server's syntax checks and the UID is not blank, then what `parseBinding` of
  -- the auth server reads from the query of the middleware's address is the binding to that very
  -- instance and slug.
  pub parse_binding-encode :
      (inst : LlmInstance) (slug : String)
      → ((key : String)
          → query_values (parse_query (mw.encode (binding_query inst slug))) key
            ≡ query_values (binding_query inst slug) key)
      → is_blank inst.meta.namespace ≡ false
      → is_blank inst.meta.name ≡ false
      → is_blank inst.meta.uid ≡ false
      → is_blank slug ≡ false
      → libraries.is_dns1123_label inst.meta.namespace ≡ true
      → libraries.is_dns1123_subdomain inst.meta.name ≡ true
      → libraries.is_label_value slug ≡ true
      → parse_binding libraries (parse_query (mw.encode (binding_query inst slug)))
        ≡ some (record {
          namespace = inst.meta.namespace;
          name = inst.meta.name;
          uid = inst.meta.uid;
          slug = slug;
        })
  unfolding parse_binding has_single_values binding_query query_values
  parse_binding-encode inst slug back namespace name uid selected label subdomain value =
      rw (back "namespace", back "instance", back "uid", back "slug")
        (rw (namespace, name, uid, selected, label, subdomain, value) refl)
