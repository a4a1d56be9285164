-- ===== src/Examples/Webhook.antt =====
-- Runs of the webhook server, its authentication and its retries.
use Prim.Native.String.{◌++◌}
use reloader.Prelude.{
  ℕ, ◌≡◌, ◌↔◌, ◌⊎◌, refl, ◌==◌, ap, true, false, Option, none, some, List, [], ◌∷◌, arith,
}
use reloader.Api.{WebhookConfig}
use reloader.Chan.{room, done, select_send}
use reloader.Events.{SecretRotationEvent}
use reloader.Webhook.Auth.{authenticate, auth_of, check, granted, panicked}
use reloader.Webhook.Auth.Granted.{authenticate_iff, Authorizes}
use reloader.Webhook.Auth.Panics.{authenticate_panics_iff, PanicsAt}
use reloader.Webhook.Retry.{RetryMessage, Round, Retried, retry_message, max_retries_of, stop}
use reloader.Webhook.Retry.Bounded.{Bounded, retry_message-Bounded}
use reloader.Webhook.Route.{
  Route, Request, Moment, response, handle, event_of, after_auth, process_payload,
  parse_payload_to_string, get_identifier_path, process_event, enqueue_retry, has_retry_policy,
}
use reloader.Webhook.Route.Publishes.{handle-publishes_iff, Accepted, retry_futile}
use reloader.Webhook.Server.{
  route_key_from_path, new_webhook_server, register, unregister, recover, serve_http,
}
use reloader.Webhook.Server.Serving.{serve_http-key}
use reloader.Webhook.Server.Paths.{one, IsKey, IsSegment, route_key_from_path_iff}
use reloader.Webhook.Server.Entries.{new_route}
use reloader.Webhook.Server.Lifecycle.{IsSound, Call, registers, unregisters, calls, server-IsSound}
use reloader.Examples.Inputs.{
  client, base64_decode, gjson_get, webhook_with, bearer_only, basic_only, linear,
}

abbrev guarded : WebhookConfig
guarded = webhook_with "" (some bearer_only) none

authenticate_iff_example :
    (authenticate client base64_decode (some guarded) "Bearer t0ken" ≡ granted) ↔ (
      (auth_of (some guarded) ≡ none)
      ⊎ ((auth : _) × (auth_of (some guarded) ≡ some auth)
          × Authorizes client base64_decode auth "Bearer t0ken"))
authenticate_iff_example = authenticate_iff client base64_decode (some guarded) "Bearer t0ken"

authenticate_panics_iff_example :
    (authenticate client base64_decode (some (webhook_with "" (some basic_only) none)) "Bearer x"
      ≡ panicked)
    ↔ PanicsAt client base64_decode basic_only "Bearer x"
authenticate_panics_iff_example =
    authenticate_panics_iff client base64_decode (webhook_with "" (some basic_only) none) basic_only
      "Bearer x" refl

abbrev pub event : SecretRotationEvent
event = record {
  secret_identifier = "db";
  rotation_timestamp = "now";
  trigger_source = "Webhook";
  namespace = "";
}

abbrev message : RetryMessage
message = record { event = event; current_run = 1; retry_at = 5 }

abbrev blocked : ℕ → Round
blocked n = record { done_at_head = false; now = 9; done_in_wait = false; ready = done; later = 9 }

retry_message-Bounded_example :
    (r : Retried) × (retry_message 11 "linear" (max_retries_of linear) blocked message ≡ some r)
    × Bounded linear blocked event 9 1 r
retry_message-Bounded_example =
    retry_message-Bounded linear blocked 9 (λ n. omega arith) 11 message (omega arith) (omega arith)

abbrev pub route : Route
route = record { id = 0; config_name = "app"; config = some (webhook_with "" none (some linear)) }

abbrev pub request : Request
request = record {
  method = "POST";
  path = "/webhook/app";
  authorization = "";
  body = "db";
  body_fails = false;
}

abbrev pub open_moment : Moment
open_moment = record { timestamp = "now"; seconds = 5; publish = room; queue = room }

abbrev late : Moment
late = record { timestamp = "now"; seconds = 5; publish = done; queue = room }

handle-publishes_iff_example :
    (handle client base64_decode gjson_get route open_moment request
      ≡ response 204 (some event) none)
    ↔ (Accepted client base64_decode gjson_get route open_moment request event
        × (◌≡◌ {A = ℕ} 204 204)
        × (◌≡◌ {A = Option RetryMessage} none none))
handle-publishes_iff_example =
    handle-publishes_iff client base64_decode gjson_get route open_moment request 204 event none

abbrev ended : ℕ → Round
ended n = record { done_at_head = true; now = 9; done_in_wait = false; ready = done; later = 9 }

retry_futile_example :
    (retry_message 11 "linear" (max_retries_of linear) ended message ≡ some stop)
    × (◌≡◌ {A = Option SecretRotationEvent} none none)
    × (◌≡◌ {A = ℕ} 500 500)
unfolding handle after_auth process_payload authenticate check parse_payload_to_string
    get_identifier_path process_event enqueue_retry has_retry_policy select_send event_of
retry_futile_example =
    retry_futile client base64_decode gjson_get route late request 500 none message 10 "linear"
      (max_retries_of linear) ended refl (λ _. refl)

route_key_from_path_iff_example :
    (route_key_from_path "/webhook/app/a" ≡ some "app/a")
    ↔ (("/webhook/app/a" ≡ "/webhook/" ++ "app/a") × IsKey "app/a")
route_key_from_path_iff_example = route_key_from_path_iff "/webhook/app/a" "app/a"

app-IsSegment : IsSegment "app"
app-IsSegment = (
  (λ e. absurd (cc (ap (λ s. s == "") e))),
  ((λ e. ground arith), ((λ e. ground arith), ((λ e. ground arith), tt))),
)

abbrev served : List Call
served = registers "app" none ∷ registers "app" none ∷ unregisters "app" ∷ []

server-IsSound_example : IsSound (calls served new_webhook_server)
server-IsSound_example = server-IsSound served

app-IsKey : IsKey "app"
app-IsKey = one app-IsSegment

serve_http-key_example :
    (serve_http client base64_decode gjson_get
        (register "app" none new_webhook_server)
        open_moment
        request
      ≡ recover (
          handle client base64_decode gjson_get
            (new_route "app" none new_webhook_server)
            open_moment
            request))
    × (serve_http client base64_decode gjson_get
          (unregister "app" new_webhook_server)
          open_moment
          request
        ≡ response 404 none none)
serve_http-key_example =
    serve_http-key client base64_decode gjson_get "app" none new_webhook_server open_moment request
      refl app-IsKey refl
