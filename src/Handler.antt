-- ===== src/Handler.antt =====
-- internal/handler: which objects an event updates, and how. `Schema` is the handlers' interface,
-- `Processor` the loop over the destinations, and there is a module for each handler.
pub mod Objects
pub mod Matching
pub mod Schema
pub mod Deployment
pub mod ExternalSecret
pub mod PushSecret
pub mod Workflow
pub mod Processor
pub mod Kept
