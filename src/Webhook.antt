-- ===== src/Webhook.antt =====
-- internal/listener/webhook: the routes of the Configs' webhooks and the server that they share.
pub mod Auth
pub mod Retry
pub mod Route
pub mod Server
