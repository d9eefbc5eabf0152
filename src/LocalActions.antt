-- ===== src/LocalActions.antt =====
-- packages/hcp-runner/src/local-actions: leases and grants, the command policy, the engine that
-- authorises actions, and the mapping of their errors.
pub mod Lease
pub mod Manager
pub mod Policy
pub mod Patch
pub mod Engine
pub mod Errors
