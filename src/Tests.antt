-- ===== src/Tests.antt =====
-- The theorems on the sample cluster, and runs of the handlers on it.
pub mod AuthServer
pub mod SlugPolicy
pub mod TokenRequests
pub mod HostedWorkload
pub mod InstanceRuns
pub mod RemoteClusters
pub mod Certificates
