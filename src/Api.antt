-- ===== src/Api.antt =====
-- The controllers' and the auth server's side of the Kubernetes API, of the clock and of the random
-- source: a handler is a tree of the calls that it makes, each followed by what it does with any
-- reply. The API server is no part of the repository: nothing is assumed of its replies, so other
-- writers may act between any two calls.
pub mod Ensures
pub mod Trace
pub mod Settled
pub mod Counted
use showroom_msp_private_llm.Prelude.{
  ℕ, String, ◌≡◌, refl, ◌⊎◌, inl, inr, Bool, true, false, List, ◌||◌,
}
use showroom_msp_private_llm.Kube.{ObjectMeta, LlmInstance, ApiTokenRequest, Secret, Ingress}
use showroom_msp_private_llm.Kube.Remote.{ObjectKind, Certificate, DnsEntry}
use showroom_msp_private_llm.Kube.Workloads.{Cluster, Deployment, Service, Subset, Middleware}

-- Go's `error`, with the distinctions that the sources test for: those of `apierrors`, a failed
-- policy check (what wraps `errSlugRejection`), a certificate, an endpoint or a removal that is to be
-- waited for (what wraps `ErrBYOCTLSNotReady`), any other text, and `errors.Join`.
pub data Error : Type 0 where
  not_found conflict already_exists : Error
  rejection : String → Error
  failure : String → Error
  tls_not_ready : String → Error
  join : Error → Error → Error

-- `apierrors.IsNotFound`
abbrev pub is_not_found : Error → Bool
is_not_found not_found = true
is_not_found _ = false

-- `apierrors.IsConflict`
abbrev pub is_conflict : Error → Bool
is_conflict conflict = true
is_conflict _ = false

-- `errors.Is(err, errSlugRejection)`
abbrev pub is_rejection : Error → Bool
is_rejection (rejection _) = true
is_rejection (join a b) = is_rejection a || is_rejection b
is_rejection _ = false

-- `errors.Is(err, ErrBYOCTLSNotReady)`
abbrev pub is_tls_not_ready : Error → Bool
is_tls_not_ready (tls_not_ready _) = true
is_tls_not_ready (join a b) = is_tls_not_ready a || is_tls_not_ready b
is_tls_not_ready _ = false

pub data Result {ℓ} (A : Type ℓ) : Type ℓ where
  ok : A → Result A
  err : Error → Result A

pub Result-cases {ℓ} :
    {A : Type ℓ} (r : Result A) → ((a : A) × (r ≡ ok a)) ⊎ ((e : Error) × (r ≡ err e))
Result-cases (ok a) = inl (a, refl)
Result-cases (err e) = inr (e, refl)

-- Through which client a read goes: the manager's cache, or the API server itself.
pub data Reader : Type 0 where
  cached live : Reader

pub record Key : Type 0 where
  pub namespace : String
  pub name : String

-- What goes to a tenant's own cluster names the kubeconfig of the client.
-- A write hands over the whole object; the reply to an update is the object as the server returns
-- it. A delete hands over the object that was read, whose UID is its precondition, and for
-- some deletes of the source also its resource version.
pub data Call : Type 0 where
  get_instance : Reader → Key → Call
  patch_instance_status : LlmInstance → Call
  update_instance_status : LlmInstance → Call
  update_instance : LlmInstance → Call
  get_request : Reader → Key → Call
  list_requests : String → Call
  update_request : ApiTokenRequest → Call
  update_request_status : ApiTokenRequest → Call
  get_secret : Key → Call
  list_secrets : Reader → String → String → String → Call
  create_secret : Secret → Call
  update_secret : Secret → Call
  delete_secret : Secret → Call
  get_ingress : Reader → Key → Call
  list_ingresses : Reader → Call
  create_ingress : Ingress → Call
  update_ingress : Ingress → Call
  delete_ingress : Ingress → Call
  get_deployment : Cluster → Key → Call
  create_deployment : Cluster → Deployment → Call
  update_deployment : Cluster → Deployment → Call
  get_service : Cluster → Key → Call
  create_service : Cluster → Service → Call
  get_endpoints : Cluster → Key → Call
  get_middleware : Key → Call
  create_middleware : Middleware → Call
  update_middleware : Middleware → Call
  check_health : String → Call
  get_namespace : String → String → Call
  get_remote_object : String → ObjectKind → Key → Call
  delete_remote_object : String → ObjectKind → ObjectMeta → Call
  get_remote_secret : String → Key → Call
  create_remote_secret : String → Secret → Call
  update_remote_secret : String → Secret → Call
  delete_remote_secret : String → Secret → Call
  get_certificate : Key → Call
  create_certificate : Certificate → Call
  update_certificate : Certificate → Call
  delete_certificate : Certificate → Call
  get_dns_entry : Key → Call
  create_dns_entry : DnsEntry → Call
  update_dns_entry : DnsEntry → Call
  delete_dns_entry : DnsEntry → Call
  read_random : ℕ → Call
  now : Call

abbrev pub Answer : Call → Type 0
Answer (get_instance _ _) = LlmInstance
Answer (patch_instance_status _) = LlmInstance
Answer (update_instance_status _) = LlmInstance
Answer (update_instance _) = LlmInstance
Answer (get_request _ _) = ApiTokenRequest
Answer (list_requests _) = List ApiTokenRequest
Answer (update_request _) = ApiTokenRequest
Answer (update_request_status _) = ApiTokenRequest
Answer (get_secret _) = Secret
Answer (list_secrets _ _ _ _) = List Secret
Answer (create_secret _) = Secret
Answer (update_secret _) = Secret
Answer (delete_secret _) = Unit {0}
Answer (get_ingress _ _) = Ingress
Answer (list_ingresses _) = List Ingress
Answer (create_ingress _) = Ingress
Answer (update_ingress _) = Ingress
Answer (delete_ingress _) = Unit {0}
Answer (get_deployment _ _) = Deployment
Answer (create_deployment _ _) = Deployment
Answer (update_deployment _ _) = Deployment
Answer (get_service _ _) = Service
Answer (create_service _ _) = Service
Answer (get_endpoints _ _) = List Subset
Answer (get_middleware _) = Middleware
Answer (create_middleware _) = Middleware
Answer (update_middleware _) = Middleware
Answer (check_health _) = Unit {0}
Answer (get_namespace _ _) = ObjectMeta
Answer (get_remote_object _ _ _) = ObjectMeta
Answer (delete_remote_object _ _ _) = Unit {0}
Answer (get_remote_secret _ _) = Secret
Answer (create_remote_secret _ _) = Secret
Answer (update_remote_secret _ _) = Secret
Answer (delete_remote_secret _ _) = Unit {0}
Answer (get_certificate _) = Certificate
Answer (create_certificate _) = Certificate
Answer (update_certificate _) = Certificate
Answer (delete_certificate _) = Unit {0}
Answer (get_dns_entry _) = DnsEntry
Answer (create_dns_entry _) = DnsEntry
Answer (update_dns_entry _) = DnsEntry
Answer (delete_dns_entry _) = Unit {0}
Answer (read_random _) = List ℕ
Answer now = String

-- A handler: it returns, or makes a call and goes on from the reply.
pub data Api (A : Type 0) : Type 0 where
  return : Result A → Api A
  call : (c : Call) → (Result (Answer c) → Api A) → Api A

abbrev pub pure : {A : Type 0} → A → Api A
pure a = return (ok a)

abbrev pub throw : {A : Type 0} → Error → Api A
throw e = return (err e)

-- `if err := c(); err != nil { return err }`
infixl 5 ◌>>=◌ ◌>>◌
unfoldable pub ◌>>=◌ : {A B : Type 0} → Api A → (A → Api B) → Api B
return (ok a) >>= f = f a
return (err e) >>= f = return (err e)
call c k >>= f = call c (λ r. k r >>= f)

abbrev pub ◌>>◌ : {B : Type 0} → Api (Unit {0}) → Api B → Api B
m >> n = m >>= λ _. n

unfoldable pub request : (c : Call) → Api (Answer c)
request c = call c (λ r. return r)

-- A call whose error the caller looks at.
unfoldable pub attempt : {A : Type 0} → Api A → Api (Result A)
attempt (return r) = return (ok r)
attempt (call c k) = call c (λ r. attempt (k r))

abbrev pub lift : {A : Type 0} → Result A → Api A
lift r = return r

-- `client.IgnoreNotFound(err)`
abbrev pub ignore_not_found : Error → Api (Unit {0})
ignore_not_found not_found = pure tt
ignore_not_found e = throw e

-- What a failed lookup returns from its caller: nothing where the object is gone.
abbrev pub unless_gone : {A : Type 0} → A → Error → Api A
unless_gone a not_found = pure a
unless_gone a e = throw e
