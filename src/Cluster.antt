-- ===== src/Cluster.antt =====
-- The state of the cluster: agent/cluster_state.py and the clients that it reads with.
pub mod Redact
pub mod Secrets
pub mod Walk
pub mod Withheld
pub mod Partial
pub mod Objects
pub mod Parse
pub mod Pods
pub mod Labels
pub mod Events
pub mod EventOrder
pub mod Session
pub mod Client
pub mod Urls
pub mod FluxParse
pub mod FluxObjects
pub mod Flux
pub mod State
pub mod Targets
pub mod PodSearch
pub mod Evidence
pub mod Delivery
pub mod Collect
pub mod Rules
pub mod Permitted
pub mod Names
pub mod Answers
pub mod Reads
pub mod Owners
pub mod OwnerWalk
pub mod FluxWithheld
pub mod FluxPaths
pub mod FluxReads
pub mod Bounds
pub mod Workloads
pub mod PodGather
pub mod PodReads
pub mod EvidenceReads
pub mod TargetBounds
pub mod DeliveryReads
pub mod Scope
