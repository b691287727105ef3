-- ===== src/Consumer.antt =====
-- src/consumer: the process that hands out the inference servers of one model. `Server` is an
-- inference server, `Exceptions` what the code raises, `Message` what goes through RabbitMQ, `Broker`
-- the calls of RabbitMQ and of the event loop, `Priority` and `Policy` the two packages of that name, `Main`
-- the process.
pub mod Server
pub mod Exceptions
pub mod Message
pub mod Broker
pub mod Priority
pub mod Policy
pub mod Strategy
pub mod Settings
pub mod Pinger
pub mod RpcServer
pub mod Main
mod Examples
