-- ===== src/Node/Service.antt =====
-- node/src/service.rs and node/src/rpc.rs: how a node is put together and started. The libraries are
-- the parameter `Outside`; each call that acts on the node is a `Call`, and an action keeps the
-- calls that it made, in order.
mod Interface
mod Calls
mod Partial
mod Start
pub mod Executor
pub mod Consensus
pub mod Stages
pub mod Order
pub mod Phases
pub mod Components
pub mod Shared
pub mod Identity
pub mod Panics
pub mod Starts
pub mod Rpc
pub mod Methods
pub mod Numbers
pub mod Tests
pub use Interface.*
pub use Calls.*
unfoldable pub use Partial.*
unfoldable pub use Start.*
