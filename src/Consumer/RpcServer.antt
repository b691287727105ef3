-- ===== src/Consumer/RpcServer.antt =====
-- rpc_server.py: `State` is the object, `Answer` the callback of the model's queue, `Duplicates` the choice
-- among an organization's servers, and `Callbacks` the other two callbacks.
pub mod State
pub mod Answer
pub mod Duplicates
pub mod Callbacks
pub mod Consult
pub mod Fate
pub mod Delivery
pub mod Completion
pub mod Completed
pub mod Events
pub mod InFlight
pub mod Expiry
pub mod Private
pub mod Tasks
pub mod Connection
