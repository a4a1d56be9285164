-- ===== src/Listener/PubSub.antt =====
-- internal/listener/pubsub/listener.go: audit logs of Google's Secret Manager.
pub mod Names
use reloader.Prelude.{
  String, Bool, true, false, ◌==◌, Option, none, some, List, [], ◌∷◌, if◌then◌else◌, split,
  get_elem?,
}
use reloader.Events.{SecretRotationEvent}

-- By the fields that the listener reads.
pub record AuditLogMessage : Type 0 where
  pub method_name : String
  pub resource_name : String

-- How the handler of a message ends: with an answer to the subscription, and what it has published.
-- `panicked` is an index out of range.
pub data Outcome : Type 0 where
  nack : Outcome
  ack : Option SecretRotationEvent → Outcome
  panicked : Outcome

abbrev pub add_secret_version : String
add_secret_version = "google.cloud.secretmanager.v1.SecretManagerService.AddSecretVersion"

abbrev pub event_of : String → String → SecretRotationEvent
event_of name msg_time = record {
  secret_identifier = name;
  rotation_timestamp = msg_time;
  trigger_source = "GooglePubSub";
  namespace = "";
}

-- `cancelled` says whether the context has ended; `unmarshal` is json.Unmarshal, `none` if it fails.
module _ (unmarshal : String → Option AuditLogMessage) where
  unfoldable pub process_message : Bool → String → String → Outcome
  process_message cancelled msg_time data_ = if cancelled then nack else elim (unmarshal data_) [
    | none ↦ nack
    | some audit ↦
        if audit.method_name == add_secret_version
        then elim (get_elem? (split b'/' audit.resource_name) 3) [
          | none ↦ panicked
          | some name ↦ ack (some (event_of name msg_time))
        ]
        else ack none
  ]
