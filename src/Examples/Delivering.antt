-- ===== src/Examples/Delivering.antt =====
-- A webhook request that reaches the event handler.
use mathlib.Core.List.{Mem}
use reloader.Prelude.{◌≡◌, refl, none, some, List, [], ◌∷◌, arith}
use reloader.Webhook.Auth.{authenticate, check}
use reloader.Webhook.Route.{response, handle, get_identifier_path, event_of}
use reloader.Chan.{select_send}
use reloader.Webhook.Route.Publishes.{Accepted}
use reloader.Controller.Dispatch
use reloader.Controller.Dispatch.{Dispatcher, Move, set_up}
use reloader.Controller.Dispatch.Accounted.{events_of, run-Accounted}
use reloader.Examples.Surviving.{watching, providers-NeverPanics}
use reloader.Controller.Dispatch.Requests.{request-handled}
use reloader.Examples.Inputs.{client, base64_decode, gjson_get}
use reloader.Examples.Webhook.{route, request, open_moment, event}
use reloader.Examples.Handling.{providers, deployed}

request-Accepted : Accepted client base64_decode gjson_get route open_moment request event
unfolding authenticate check get_identifier_path select_send event_of
request-Accepted = record {
  authentic = refl;
  fits = omega arith;
  whole = refl;
  identifier = "db";
  found = refl;
  sends = refl;
  event_is = refl;
}

request-handled_example :
    (handle client base64_decode gjson_get route open_moment request
      ≡ response 204 (some event) none)
    × (ms : List Move) × Mem event (
        events_of
          (Dispatch.run providers (Dispatch.send event ∷ ms) (set_up watching deployed)).handled)
unfolding Dispatch.run
request-handled_example =
    request-handled providers client base64_decode gjson_get route open_moment request event
      (set_up watching deployed) request-Accepted (run-Accounted providers [] watching deployed)
      refl refl providers-NeverPanics (omega arith)
