-- ===== src/Byoc/Target/Verified.antt =====
-- Which kubeconfigs pass: those that lead to a verified HTTPS server with inline credentials.
use showroom_msp_private_llm.Prelude.{
  String, ◌≡◌, refl, Bool, true, false, ◌&&◌, not, ◌==◌, Option, none, some, and_parts,
  false_of_not, eq_of_==,
}
use showroom_msp_private_llm.Api.{ok}
use showroom_msp_private_llm.Token.{Url}
use showroom_msp_private_llm.Byoc.Target.{
  KubeCluster, AuthInfo, Context, RestConfig, TargetLibraries, is_verified_url, is_verified_cluster,
  is_inline, checked_config, verified_cluster, verified_context, verified_byoc_rest_config,
}

-- Credentials that run no plugin and name no file.
abbrev pub IsInline : Option AuthInfo → Type 0
IsInline none = Unit
IsInline (some auth) =
    (auth.has_exec ≡ false)
    × (auth.has_auth_provider ≡ false)
    × (auth.token_file ≡ "")
    × (auth.client_certificate ≡ "")
    × (auth.client_key ≡ "")

module _ (libraries : TargetLibraries) where
  -- The cluster's API server is a plain HTTPS address without user, query or fragment; its
  -- certificate is verified, and neither a file with an authority nor a proxy is named.
  pub record IsVerified (c : KubeCluster) : Type 0 where
    pub url : Url
    pub parsed : libraries.parse_url c.server ≡ some url
    pub scheme : url.scheme ≡ "https"
    pub plain : (url.has_user ≡ false) × (url.raw_query ≡ "") × (url.fragment ≡ "")
    pub verified : c.insecure_skip_tls_verify ≡ false
    pub no_file : c.certificate_authority ≡ ""
    pub no_proxy : c.proxy_url ≡ ""

  is_verified_cluster-IsVerified :
      (c : KubeCluster) → is_verified_cluster libraries c ≡ true → IsVerified c
  is_verified_cluster-IsVerified c h = from (libraries.parse_url c.server) refl h
    where
      from :
          (u : Option Url)
          → libraries.parse_url c.server ≡ u
          → is_verified_url libraries u
              && (not c.insecure_skip_tls_verify
                  && (c.certificate_authority == "" && c.proxy_url == ""))
            ≡ true
          → IsVerified c
      from none e h = cc
      from (some u) e h =
          let (address, rest) = and_parts _ _ h in
          let (secure, files) = and_parts _ _ rest in
          let (authority, proxy) = and_parts _ _ files in
          let (scheme, named) = and_parts _ _ address in
          let (host, bare) = and_parts _ _ named in
          let (user, tail) = and_parts _ _ bare in
          let (query, fragment) = and_parts _ _ tail in
          record {
            url = u;
            parsed = e;
            scheme = eq_of_== _ _ scheme;
            plain = (false_of_not _ user, eq_of_== _ _ query, eq_of_== _ _ fragment);
            verified = false_of_not _ secure;
            no_file = eq_of_== _ _ authority;
            no_proxy = eq_of_== _ _ proxy;
          }

  is_inline-IsInline : (auth : Option AuthInfo) → is_inline libraries auth ≡ true → IsInline auth
  is_inline-IsInline none h = tt
  is_inline-IsInline (some auth) h =
      let (exec, rest) = and_parts _ _ h in
      let (provider, files) = and_parts _ _ rest in
      let (token, keys) = and_parts _ _ files in
      let (certificate, key) = and_parts _ _ keys in
      (
        false_of_not _ exec,
        false_of_not _ provider,
        eq_of_== _ _ token,
        eq_of_== _ _ certificate,
        eq_of_== _ _ key,
      )

  -- A kubeconfig that passed: its current context has a verified cluster and inline credentials.
  pub record IsAccepted (kubeconfig : String) (cfg : RestConfig) : Type 0 where
    pub context : Context
    pub cluster : KubeCluster
    pub loaded : libraries.load kubeconfig ≡ some (some context)
    pub selected : context.cluster ≡ some cluster
    pub is_verified : IsVerified cluster
    pub is_inlined : IsInline context.auth
    pub made : RestConfig
    pub is_made : libraries.rest_config kubeconfig ≡ some made
    pub restricts : cfg ≡ record made { timeout = 30; without_proxy = true }

  checked-same :
      (r : Option RestConfig) (cfg : RestConfig)
      → checked_config libraries r ≡ ok cfg
      → (made : RestConfig) × (r ≡ some made)
        × (cfg ≡ record made { timeout = 30; without_proxy = true })
  checked-same none cfg h = cc
  checked-same (some c) cfg h =
      let e : cfg ≡ record c { timeout = 30; without_proxy = true } = cc in (c, refl, e)

  accept :
      (kubeconfig : String) (cfg : RestConfig) (x : Context) (c : Option KubeCluster)
      → libraries.load kubeconfig ≡ some (some x)
      → x.cluster ≡ c
      → verified_cluster libraries kubeconfig x.auth c ≡ ok cfg
      → IsAccepted kubeconfig cfg
  accept kubeconfig cfg x none loaded selected h = cc
  accept kubeconfig cfg x (some c) loaded selected h =
      decide (is_verified_cluster libraries c) (is_inline libraries x.auth) refl refl h
    where
      decide :
          (a b : Bool)
          → is_verified_cluster libraries c ≡ a
          → is_inline libraries x.auth ≡ b
          → verified_cluster libraries kubeconfig x.auth (some c) ≡ ok cfg
          → IsAccepted kubeconfig cfg
      decide true true va ib h =
          let (made, is_made, restricts) =
            checked-same (libraries.rest_config kubeconfig) cfg (rw (va, ib) at h) in
          record {
            context = x;
            cluster = c;
            loaded = loaded;
            selected = selected;
            is_verified = is_verified_cluster-IsVerified c va;
            is_inlined = is_inline-IsInline x.auth ib;
            made = made;
            is_made = is_made;
            restricts = restricts;
          }
      decide true false va ib h = cc (rw (va, ib) at h)
      decide false b va ib h = cc (rw va at h)

  -- A kubeconfig from which `verifiedBYOCRESTConfig` makes a client configuration has a current
  -- context whose API server is a plain HTTPS address with a verified certificate, without a proxy
  -- and without a file as authority, and whose credentials, if any, run no plugin and name no file;
  -- the configuration is the one that the Kubernetes libraries make of that kubeconfig, with a
  -- deadline of 30 seconds for a request and without a proxy.
  pub verified_byoc_rest_config-IsAccepted :
      (kubeconfig : String) (cfg : RestConfig)
      → verified_byoc_rest_config libraries kubeconfig ≡ ok cfg
      → IsAccepted kubeconfig cfg
  unfolding verified_byoc_rest_config
  verified_byoc_rest_config-IsAccepted kubeconfig cfg h = from (libraries.load kubeconfig) refl h
    where
      from :
          (l : Option (Option Context))
          → libraries.load kubeconfig ≡ l
          → verified_context libraries kubeconfig l ≡ ok cfg
          → IsAccepted kubeconfig cfg
      from none e h = cc
      from (some none) e h = cc
      from (some (some x)) e h = accept kubeconfig cfg x x.cluster e refl h
