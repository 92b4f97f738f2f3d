-- ===== src/Store.antt =====
-- src/eastwatch/controller/store.py, class ControllerStore: a module for each group of methods.
pub mod Workspaces
pub mod Events
pub mod Outbox
pub mod Claim
pub mod Leases
pub mod Complete
pub mod Reap
pub mod Actions
pub mod Finish
