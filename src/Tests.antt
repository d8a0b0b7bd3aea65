-- ===== src/Tests.antt =====
-- The theorems at concrete inputs: a cluster with one machine over the in-memory cloud, a Verda
-- account with a few instances and volumes, and the services of one load balancer.
mod Fixtures
mod Remote
mod Machines
mod Accounts
mod Webhooks
mod Services
mod Templates
mod Factories
mod Clusters
mod Scripts
mod Accesses
