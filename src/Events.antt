-- ===== src/Events.antt =====
-- internal/events/secret_rotation.go: the event that every listener publishes.
use reloader.Prelude.{String}

pub record SecretRotationEvent : Type 0 where
  pub secret_identifier : String
  pub rotation_timestamp : String
  pub trigger_source : String
  -- Empty unless a Kubernetes watch published the event.
  pub namespace : String
