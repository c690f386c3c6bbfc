-- ===== src/Orchestrator.antt =====
-- src/orchestrator: the nodes of the healing graph, the routers between them, and the graph.
pub mod Routers
pub mod Regression
pub mod Nodes
pub mod Graph
