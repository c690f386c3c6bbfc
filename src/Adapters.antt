-- ===== src/Adapters.antt =====
-- Adapters of the ports: src/agents, src/infrastructure.
pub mod InMemory
pub mod Reports
pub mod Docker
pub mod Git
pub mod GitHub
pub mod Real
pub mod Demo
