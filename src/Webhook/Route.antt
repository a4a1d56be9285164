-- ===== src/Webhook/Route.antt =====
-- One webhook endpoint: how a request is handled (internal/listener/webhook/route.go).
pub mod Publishes
use Prim.Native.String.{len}
use reloader.Prelude.{
  ℕ, ◌*◌, ◌^◌, ltb, String, Bool, true, false, ◌==◌, Option, none, some, List, [], ◌∷◌, Result, ok,
  err, if◌then◌else◌,
}
use reloader.Events.{SecretRotationEvent}
use reloader.Api.{WebhookConfig, RetryPolicy}
use reloader.Chan.{Ready, Select, sent, cancelled, select_send}
use reloader.Secrets.{GetSecret}
use reloader.Webhook.Auth.{Verdict, granted, denied, panicked, authenticate}
use reloader.Webhook.Retry.{RetryMessage}

abbrev pub default_identifier_path : String
default_identifier_path = "0.data.ObjectName"

abbrev pub max_webhook_body_bytes : ℕ
max_webhook_body_bytes = 2 ^ 20

-- A route; `id` is its identity as a pointer.
pub record Route : Type 0 where
  pub id : ℕ
  pub config_name : String
  pub config : Option WebhookConfig

-- `body` is what arrives before the body ends, or before reading it fails.
pub record Request : Type 0 where
  pub method : String
  pub path : String
  pub authorization : String
  pub body : String
  pub body_fails : Bool

pub data PayloadError : Type 0 where
  max_bytes_error : PayloadError
  read_error : PayloadError

-- `parsePayloadToString`, through `http.MaxBytesReader`.
unfoldable pub parse_payload_to_string : Request → ℕ → Result PayloadError String
parse_payload_to_string req limit =
    if ltb limit (len req.body)
    then err max_bytes_error
    else if req.body_fails
    then err read_error
    else ok req.body

unfoldable pub get_identifier_path : Option WebhookConfig → String
get_identifier_path none = default_identifier_path
get_identifier_path (some config) =
    if config.secret_identifier_on_payload == ""
    then default_identifier_path
    else config.secret_identifier_on_payload

unfoldable pub has_retry_policy : Option WebhookConfig → Bool
has_retry_policy none = false
has_retry_policy (some config) = elim config.retry_policy [ none ↦ false | some _ ↦ true ]

-- What a request meets: the time, what is ready when the event is published, and when the retry
-- message is queued.
pub record Moment : Type 0 where
  pub timestamp : String
  pub seconds : ℕ
  pub publish : Ready
  pub queue : Ready

-- The status of the response, the event published and the message queued for a retry. A panic
-- writes nothing.
pub data Handled : Type 0 where
  response : ℕ → Option SecretRotationEvent → Option RetryMessage → Handled
  panic : Handled

-- `processEvent`: nil, or the error of the context.
unfoldable pub process_event : Ready → Select
process_event r = select_send r

unfoldable pub event_of : String → String → SecretRotationEvent
event_of secret_identifier now = record {
  secret_identifier = secret_identifier;
  rotation_timestamp = now;
  trigger_source = "Webhook";
  namespace = "";
}

-- The send of a retry message, unless the context ends first.
unfoldable pub enqueue_retry :
    Option WebhookConfig → SecretRotationEvent → Moment → Option RetryMessage
unfolding has_retry_policy
enqueue_retry config event m =
    if has_retry_policy config
    then elim (select_send m.queue) [
      | sent ↦ some (record { event = event; current_run = 1; retry_at = m.seconds })
      | cancelled ↦ none
    ]
    else none

-- `client` reads Secrets, `base64_decode` is the standard encoding's, and `gjson_get payload path`
-- is the text that `gjson.Get` finds, `none` if it does not exist.
module _ (client : GetSecret) (base64_decode : String → Option String)
    (gjson_get : String → String → Option String) where
  unfoldable pub process_payload : Option WebhookConfig → Moment → String → Handled
  process_payload config m payload = elim (gjson_get payload (get_identifier_path config)) [
    | none ↦ response 400 none none
    | some identifier ↦ elim (process_event m.publish) [
      | sent ↦ response 204 (some (event_of identifier m.timestamp)) none
      | cancelled ↦ response 500 none (enqueue_retry config (event_of identifier m.timestamp) m)
    ]
  ]

  unfoldable pub after_auth : Route → Moment → Request → Verdict → Handled
  after_auth r m req panicked = panic
  after_auth r m req (denied e) = response 401 none none
  after_auth r m req granted = elim (parse_payload_to_string req max_webhook_body_bytes) [
    | err max_bytes_error ↦ response 413 none none
    | err read_error ↦ response 400 none none
    | ok payload ↦ process_payload r.config m payload
  ]

  unfoldable pub handle : Route → Moment → Request → Handled
  unfolding after_auth process_payload
  handle r m req = after_auth r m req (authenticate client base64_decode r.config req.authorization)
