-- ===== src/Lib.antt =====
-- The operator for private language models of the showroom: tenants declare model servers
-- (`LLMInstance`) and ask for keys to them (`APITokenRequest`). One controller provisions the
-- servers, on the provider's cluster or on a cluster of the tenant, and their public routes; one
-- writes each key into a token Secret; a forward-auth server decides which key opens which route.
-- Routes are named by slugs, which only the operator's policy assigns.
--
-- Which file models what, from the repository's root:
-- - Kube: the objects, with the specs and status of api/v1alpha1/llminstance_types.go and
--   api/v1alpha1/tokenrequest_types.go; Kube/Status: `updateProvisioningStatus` and
--   `updateReadyStatus` of internal/controller/llminstance_controller.go.
-- - Api: a handler as a tree of its calls of the Kubernetes API, of the clock and of the random
--   source. Api/Ensures bounds what a handler calls and returns whatever the replies; Api/Trace
--   and Api/Settled run one, against any environment or against fixed replies; Api/Counted bounds how
--   many calls of a kind it makes.
-- - Slug/Keys and Slug/Policy: internal/slugpolicy/policy.go (`rejectDuplicateKeys`, `Parse`,
--   `validateEntry`, `Select`).
-- - Slug/Ownership and Slug/Routes: internal/controller/slug_policy.go (`selectSlug`, `ensureSlug`,
--   `ownsLLMResource`, `rejectSlug`; `hostClaimsSlugHost`, `checkSlugRoute`, `slugIngressRules`).
-- - Auth: internal/auth/server.go (`parseBinding`, `authorize`, `ownsToken`, the handler of
--   /auth/verify).
-- - Token: internal/controller/tokenrequest_controller.go. Token/Base64 has `generateToken`,
--   Token/Rotation `rotateTokenForTarget`, Token/Secrets `ensureSecret`, `createSecret`,
--   `applySecretMutations`, `invalidateTokenEndpoint` and `touchAPITokenRequest`, Token/Reconcile
--   `Reconcile`, the status updates, `validBYOCTokenEndpoint` and `findTokenRequestsForInstance`,
--   Token/Finalize `finalizeTokenRequest`.
-- - Hosted: the hosted workload of internal/controller/llminstance_controller.go. Hosted/Models has
--   `resolveModel`, `modelForInstance`, `setServerIntFlag` and `serverIntFlag`; Hosted/Ceilings
--   internal/controller/model_server_ceilings.go; Hosted/Deployments `deploymentReadiness`, the
--   replicas, the DNS policy, the server's arguments and the download command; Hosted/Containers the
--   containers, `buildDeployment` and `ensureDeploymentModel`; Hosted/Backend `reconcileDeployment` and
--   `reconcileService`; Hosted/Middlewares `reconcileStripMiddleware` and `reconcileAuthMiddleware`;
--   Hosted/Ingresses `reconcileIngress` with the functions that it calls, and `instanceEndpoint`;
--   Hosted/Readiness `evaluateInstanceReadiness`.
-- - Byoc: tenants' own clusters. Byoc/Target has the guards on kubeconfigs, the identities and the
--   ownership tests (internal/controller/llminstance_byoc_transport.go, and the names and owners of
--   internal/controller/llminstance_byoc_tls.go); Byoc/Certificates `reconcileBYOCManagedCertificate`;
--   Byoc/Credentials the copies of kubeconfigs; Byoc/Keys `desiredAPIKeyFile` and
--   `reconcileBYOCKeySecret`; Byoc/Material `validateBYOCTLSMaterial`, `writeBYOCTLSSecret` and
--   `reconcileBYOCTLSSecret`; Byoc/Dns `reconcileBYOCDNS`; Byoc/Cleanup and Byoc/Withdrawal the
--   removals, and Byoc/Departure `cleanupBYOC` and `cleanupChangedBYOCTarget`, of
--   internal/controller/llminstance_byoc.go and internal/controller/llminstance_byoc_tls.go.
-- - Instance: `Reconcile`, `rejectModelSettings` and `finalizeLLMInstance` of
--   internal/controller/llminstance_controller.go. Instance/Calls lists the calls that it may make.
-- - Kube/Workloads: Deployments, Services and Traefik's middlewares, as far as they are used; Kube/Remote:
--   Gardener's certificates and DNS entries.
-- - Samples and Tests: a small cluster, and the theorems and handlers on it.
--
-- Parameters, since their code is not in the repository: the API server, the clock and the random
-- source, of whose replies nothing is assumed (other writers may act between any two calls);
-- `encoding/json`, `time.Parse`, `net/url.Parse`, the parsing of IP addresses and prefixes,
-- `strings.ToLower`, the validators of apimachinery, SHA-256, the loading of kubeconfigs and the
-- building of clients, the parsing and verification of certificates, `SetControllerReference`, the
-- functions on conditions and finalizers, and the printing and reading of integers and of resource
-- quantities.
--
-- Maps are association lists, whose missing keys read as the empty text as in Go; bytes are texts;
-- times are seconds, those of X.509 certificates nanoseconds. An error keeps only what the code
-- tests for, so messages are shortened, and log lines and transition times are left out.
-- `rejectDuplicateKeys` runs on fuel for the number of tokens, which a theorem shows to be enough;
-- the finalizer's loop has the three rounds of the code.
--
-- Not modelled: `reconcileBYOC`, the provisioning of a workload on a tenant's cluster, of which the
-- keys, the certificate and the DNS entry are modelled but not the Deployment, the Service, the proxy's
-- configuration and the loop around them (the instance controller's loop takes it as a parameter, of
-- which nothing is assumed), the start-up in cmd/main.go but for the client of the auth server,
-- generated code, and the test programs under test.
pub mod Prelude
pub mod Kube
pub mod Api
pub mod Slug
pub mod Auth
pub mod Token
pub mod Hosted
pub mod Byoc
pub mod Instance
pub mod Samples
pub mod Tests
