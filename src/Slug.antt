-- ===== src/Slug.antt =====
-- Operator-owned naming of instances: internal/slugpolicy/policy.go (`Keys`, `Policy`) and
-- internal/controller/slug_policy.go (`Ownership`, `Routes`).
pub mod Keys
pub mod Policy
pub mod Ownership
pub mod Routes
