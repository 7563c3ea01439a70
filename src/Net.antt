-- ===== src/Net.antt =====
-- The network layer, src/crates/bey-net.
pub mod StateMachine
pub mod Receiver
pub mod Stream
pub mod FlowControl
pub mod Metrics
pub mod PriorityQueue
pub mod Token
pub mod Engine
