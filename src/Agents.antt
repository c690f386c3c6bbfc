-- ===== src/Agents.antt =====
-- src/agents: the agents that use a language model, and what they share.
pub mod Focus
pub mod Prompts
pub mod Llm
pub mod Tester
pub mod Reporter
pub mod Swe
