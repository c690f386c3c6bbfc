-- ===== src/Orchestrator/Nodes.antt =====
-- src/orchestrator/nodes.py. A node takes the state and returns it as LangGraph merges the node's
-- partial update into it: the keys of the update are set, and `failed_attempts`, `resolved_errors`
-- and `logs` are concatenated. Logging calls are left out.
pub mod Context
pub mod Session
pub mod Bootstrap
pub mod Repair
pub mod Immunize
pub mod Commit
pub mod Total
