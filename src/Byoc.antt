-- ===== src/Byoc.antt =====
-- A workload on a tenant's own cluster: the identity of that cluster and of the objects on it
-- (`Target`, of internal/controller/llminstance_byoc_transport.go and the names of
-- internal/controller/llminstance_byoc.go), the managed certificate (`Certificates`, of
-- internal/controller/llminstance_byoc_tls.go), its delivery (`Material`) and the DNS entry
-- (`Dns`, of the same file), the API
-- keys (`Keys`), and the removal of everything
-- (`Cleanup`, `Withdrawal` and `Departure`, of both).
pub mod Target
pub mod Certificates
pub mod Credentials
pub mod Keys
pub mod Material
pub mod Dns
pub mod Cleanup
pub mod Withdrawal
pub mod Departure
