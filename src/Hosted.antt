-- ===== src/Hosted.antt =====
-- The hosted workload of internal/controller/llminstance_controller.go: the model's settings
-- (`Models`), the provider's limits on them (`Ceilings`, of
-- internal/controller/model_server_ceilings.go), the Deployment (`Deployments`) and the public route
-- (`Ingresses`).
pub mod Models
pub mod Ceilings
pub mod Deployments
pub mod Containers
pub mod Backend
pub mod Middlewares
pub mod Readiness
pub mod Ingresses
