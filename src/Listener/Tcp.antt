-- ===== src/Listener/Tcp.antt =====
-- internal/listener/tcp/listener.go: the messages of a connection, and what becomes of each.
pub mod Framing
use Prim.Native.Char.{code}
use reloader.Prelude.{
  String, Bool, true, false, ◌==◌, Option, none, some, List, [], ◌∷◌, ◌++◌, if◌then◌else◌, split,
}
use reloader.Api.{TcpSocketConfig}
use reloader.Events.{SecretRotationEvent}
use reloader.Chan.{Ready, select_send, sent, cancelled}

-- What `gjson.Get` finds in a message, once it exists: a text, or another value.
pub data Value : Type 0 where
  text : String → Value
  other : Value

-- What becomes of a message.
pub data Outcome : Type 0 where
  invalid_json : Outcome
  identifier_not_found : Outcome
  identifier_not_text : Outcome
  published : SecretRotationEvent → Outcome
  dropped : Outcome

-- When a message is processed: the time, and what the select meets.
pub record Moment : Type 0 where
  pub timestamp : String
  pub ready : Ready

abbrev pub publish : SecretRotationEvent → Ready → Outcome
publish event ready = elim (select_send ready) [ sent ↦ published event | cancelled ↦ dropped ]

abbrev pub event_of : String → String → SecretRotationEvent
event_of identifier timestamp = record {
  secret_identifier = identifier;
  rotation_timestamp = timestamp;
  trigger_source = "TCPSocket";
  namespace = "";
}

-- `valid` is gjson.Valid, and `gjson_get` is gjson.Get, `none` if the value does not exist.
module _ (valid : String → Bool) (gjson_get : String → String → Option Value) where
  unfoldable pub default_process : TcpSocketConfig → Moment → String → Outcome
  default_process config m message =
      if valid message
      then elim (gjson_get message config.secret_identifier_on_payload) [
        | none ↦ identifier_not_found
        | some v ↦ elim v [
          | text s ↦ publish (event_of s m.timestamp) m.ready
          | other ↦ identifier_not_text
        ]
      ]
      else invalid_json

-- A turn of the loop that reads a connection: whether the context has ended, and what the read
-- returns, `none` for an error.
pub record Turn : Type 0 where
  pub cancelled : Bool
  pub bytes : Option String

-- The parts of a buffer that are not empty.
unfoldable pub non_empty : List String → List String
non_empty [] = []
non_empty (m ∷ ms) = let rest = non_empty ms in if m == "" then rest else m ∷ rest

unfoldable pub messages_of : String → List String
unfolding non_empty
messages_of buf = non_empty (split b'\n' buf)

-- `readMessage`: the messages that it passes on to the process function, in order, over the turns of
-- its loop. A nil connection ends it.
unfoldable pub read_message : Bool → List Turn → List String
unfolding messages_of
read_message has_conn [] = []
read_message has_conn (t ∷ ts) =
    let rest = read_message has_conn ts in
    if t.cancelled
    then []
    else if has_conn
    then elim t.bytes [ none ↦ [] | some buf ↦ messages_of buf ++ rest ]
    else []
