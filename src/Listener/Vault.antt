-- ===== src/Listener/Vault.antt =====
-- internal/listener/hashivault/listener.go and pkg/models/vault: audit logs of a Vault.
pub mod Publishes
use reloader.Prelude.{
  String, Bool, true, false, ◌&&◌, ◌==◌, Option, none, some, if◌then◌else◌, split_second,
  trim_prefix,
}
use reloader.Events.{SecretRotationEvent}
use reloader.Chan.{Ready, select_send, sent, cancelled}

pub record AuthRequest : Type 0 where
  pub operation : String
  pub path : String

pub record AuthResponse : Type 0 where
  pub mount_point : String
  pub mount_type : String

-- By the fields that the listener reads.
pub record AuditLog : Type 0 where
  pub auth_type : String
  pub auth_request : Option AuthRequest
  pub auth_response : Option AuthResponse

unfoldable pub valid_message : AuditLog → Bool
valid_message m =
    m.auth_type == "response"
    && (elim m.auth_response [ none ↦ false | some r ↦ r.mount_type == "kv" ])

-- What becomes of a message; `panicked` is a nil pointer or an index out of range.
pub data Outcome : Type 0 where
  unparsed : Outcome
  ignored : Outcome
  published : SecretRotationEvent → Outcome
  dropped : Outcome
  panicked : Outcome

abbrev pub event_of : String → String → SecretRotationEvent
event_of path timestamp = record {
  secret_identifier = path;
  rotation_timestamp = timestamp;
  trigger_source = "HashicorpVault";
  namespace = "";
}

-- The switch on the operation: a case without a body does nothing.
abbrev by_operation : AuthRequest → String → String → Ready → Outcome
by_operation request path timestamp ready =
    if request.operation == "create"
    then ignored
    else if request.operation == "update"
    then elim (select_send ready) [
      | sent ↦ published (event_of path timestamp)
      | cancelled ↦ dropped
    ]
    else ignored

abbrev of_log : Option AuthRequest → Option AuthResponse → String → Ready → Outcome
of_log none response timestamp ready = panicked
of_log (some request) none timestamp ready = panicked
of_log (some request) (some response) timestamp ready =
    elim (split_second request.path response.mount_point) [
      | none ↦ panicked
      | some part ↦ by_operation request (trim_prefix part "data/") timestamp ready
    ]

-- `unmarshal` is json.Unmarshal into an `AuditLog`, `none` if it fails.
module _ (unmarshal : String → Option AuditLog) where
  unfoldable pub process_fn : String → Ready → String → Outcome
  process_fn timestamp ready message = elim (unmarshal message) [
    | none ↦ unparsed
    | some msg ↦
        if valid_message msg
        then of_log msg.auth_request msg.auth_response timestamp ready
        else ignored
  ]
