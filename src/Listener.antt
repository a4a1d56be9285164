-- ===== src/Listener.antt =====
-- internal/listener: how each kind of listener turns a message into an event. The names of the
-- sources are those of internal/listener/schema.
pub mod Tcp
pub mod Vault
pub mod PubSub
pub mod Sqs
pub mod Watch
pub mod EventGrid
pub mod Polling
pub mod KubeConfig
pub mod Sockets
pub mod Mock
pub mod Providers
