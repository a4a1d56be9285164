-- ===== src/Webhook/Server.antt =====
-- The server that all webhook routes share (internal/listener/webhook/server.go). The context of
-- each route is part of the state, by the route's identity, so that a route that is dropped from
-- the table is still there.
pub mod Paths
pub mod Entries
pub mod Lifecycle
pub mod Serving
pub mod Running
use Prim.Native.String.{◌++◌}
use reloader.Prelude.{
  ℕ, suc, ◌+◌, ◌<◌, leb, eqb, String, Bool, true, false, not, ◌==◌, ◌||◌, Option, none, some, List,
  [], ◌∷◌, if◌then◌else◌, Map, string_eq, lookup, insert, delete, has_prefix, trim_prefix, split,
  is_some,
}
use reloader.Api.{WebhookConfig}
use reloader.Secrets.{GetSecret}
use reloader.Webhook.Route.{
  Route, Request, Moment, Handled, response, panic, handle, has_retry_policy,
}

abbrev pub webhook_route_prefix : String
webhook_route_prefix = "/webhook/"

-- The key that the parts of a path behind the prefix stand for.
unfoldable pub key_of_parts : List String → Option String
key_of_parts (a ∷ []) = some a
key_of_parts (a ∷ b ∷ []) = if a == "" || b == "" then none else some (a ++ ("/" ++ b))
key_of_parts _ = none

unfoldable pub route_key_from_path : String → Option String
unfolding key_of_parts
route_key_from_path path =
    if not (has_prefix path webhook_route_prefix)
    then none
    else let rest = trim_prefix path webhook_route_prefix in
      if rest == "" then none else key_of_parts (split b'/' rest)

-- A source's key in the routes. The prefix of a listener key is cut off where it is there.
unfoldable pub route_key : String → String → String → ℕ → String
route_key config_name path_suffix listener_key webhook_source_count =
    if not (path_suffix == "")
    then config_name ++ ("/" ++ path_suffix)
    else if leb webhook_source_count 1
    then config_name
    else config_name ++ ("/" ++ trim_prefix listener_key "Webhook-")

-- `cancelled` says of each route ever made, by its identity, whether `shutdown` was called on it.
pub record WebhookServer : Type 0 where
  pub routes : Map String Route
  pub cancelled : ℕ → Bool
  pub next_id : ℕ

abbrev pub new_webhook_server : WebhookServer
new_webhook_server = record { routes = []; cancelled = λ _. false; next_id = 0 }

-- `shutdown`: cancel the route's context and wait for its retry worker.
unfoldable pub shutdown : Route → WebhookServer → WebhookServer
shutdown r s = record s { cancelled = λ i. if eqb i r.id then true else s.cancelled i }

abbrev shutdown_if : Option Route → WebhookServer → WebhookServer
shutdown_if none s = s
shutdown_if (some r) s = shutdown r s

unfoldable pub register : String → Option WebhookConfig → WebhookServer → WebhookServer
unfolding shutdown
register key config s =
    let s' = shutdown_if (lookup key s.routes) s in
    record s' {
      routes =
          insert key (record { id = s'.next_id; config_name = key; config = config }) s'.routes;
      next_id = suc s'.next_id;
    }

unfoldable pub unregister : String → WebhookServer → WebhookServer
unfolding shutdown
unregister key s = elim (lookup key s.routes) [
  | none ↦ s
  | some r ↦ let s' = shutdown r s in record s' { routes = delete key s'.routes }
]

unfoldable pub has_route : String → WebhookServer → Bool
has_route key s = is_some (lookup key s.routes)

-- `recoverMiddleware`: a panic of the handler is answered with 500.
unfoldable pub recover : Handled → Handled
recover panic = response 500 none none
recover (response status event queued) = response status event queued

module _ (client : GetSecret) (base64_decode : String → Option String)
    (gjson_get : String → String → Option String) where
  unfoldable pub serve_key : WebhookServer → Moment → Request → Option String → Handled
  serve_key s m req none = response 404 none none
  serve_key s m req (some key) = elim (lookup key s.routes) [
    | none ↦ response 404 none none
    | some r ↦ recover (handle client base64_decode gjson_get r m req)
  ]

  unfoldable pub serve_http : WebhookServer → Moment → Request → Handled
  unfolding serve_key
  serve_http s m req =
      if not (req.method == "POST")
      then response 405 none none
      else serve_key s m req (route_key_from_path req.path)
