-- ===== src/Listener/Sqs.antt =====
-- internal/listener/sqs/listener.go: messages of an SQS queue.
use reloader.Prelude.{String, Option, none, some, List, [], ◌∷◌, Result, ok, err}
use reloader.Events.{SecretRotationEvent}
use reloader.Chan.{Ready, select_send, sent, cancelled}

-- By the fields that the listener reads: `detail.eventTime` and `detail.requestParameters.secretId`.
pub record SecretMessage : Type 0 where
  pub event_time : String
  pub secret_id : String

pub data MessageError : Type 0 where
  empty_body : MessageError
  failed_to_parse : MessageError
  context_ended : MessageError

-- `unmarshal` is json.Unmarshal into a `SecretMessage`, `none` if it fails.
module _ (unmarshal : String → Option SecretMessage) where
  unfoldable pub parse_event : String → Option SecretRotationEvent
  parse_event json_data = elim (unmarshal json_data) [
    | none ↦ none
    | some m ↦ some (record {
      secret_identifier = m.secret_id;
      rotation_timestamp = m.event_time;
      trigger_source = "AwsSqs";
      namespace = "";
    })
  ]

  -- A message is its body, which may be nil; the result is the event that is published.
  unfoldable pub process_message : Option String → Ready → Result MessageError SecretRotationEvent
  unfolding parse_event
  process_message none ready = err empty_body
  process_message (some body) ready = elim (parse_event body) [
    | none ↦ err failed_to_parse
    | some event ↦ elim (select_send ready) [ sent ↦ ok event | cancelled ↦ err context_ended ]
  ]

  -- The loop over a batch: a message that fails does not stop it.
  unfoldable pub process_batch : List (Option String × Ready) → List SecretRotationEvent
  unfolding process_message
  process_batch [] = []
  process_batch ((message, ready) ∷ rest) =
      let later = process_batch rest in
      elim (process_message message ready) [ ok event ↦ event ∷ later | err _ ↦ later ]
