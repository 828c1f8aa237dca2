-- ===== src/Node.antt =====
-- The node: its chain specifications, command line and services.
pub mod ChainSpec
pub mod Service
pub mod Cli
pub mod Command
