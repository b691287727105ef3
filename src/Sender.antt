-- ===== src/Sender.antt =====
-- The sender: the process that takes the users' HTTP requests, asks the consumer of the model for an
-- inference server through RabbitMQ, and forwards the request to it.
pub mod RpcClient
pub mod Models
pub mod Users
pub mod Settings
pub mod Http
pub mod Access
pub mod Proxy
pub mod Usage
pub mod App
mod Examples
