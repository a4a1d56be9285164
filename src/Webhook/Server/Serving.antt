-- ===== src/Webhook/Server/Serving.antt =====
-- What the server answers before and after routes come and go.
use Prim.Native.String.{◌++◌}
use reloader.Prelude.{
  String, false, ◌==◌, eq_iff, eq_refl, ◌≡◌, ◌≢◌, refl, sym, ap, ◌∙◌, Option, none, some, string_eq,
  lookup, Bool-cases, Option-cases, inl, inr,
}
use reloader.Api.{WebhookConfig}
use reloader.Secrets.{GetSecret}
use reloader.Webhook.Route.{Route, Request, Moment, Handled, response, handle}
use reloader.Webhook.Server.{
  WebhookServer, webhook_route_prefix, route_key_from_path, register, unregister, recover,
  serve_key, serve_http,
}
use reloader.Webhook.Server.Paths.{IsKey, route_key_from_path_iff}
use reloader.Webhook.Server.Entries.{new_route, lookup-register, lookup-unregister}

module _ (client : GetSecret) (base64_decode : String → Option String)
    (gjson_get : String → String → Option String) (key : String) (config : Option WebhookConfig)
    (s : WebhookServer) (m : Moment) (req : Request) (posts : req.method ≡ "POST") where
  abbrev serve : WebhookServer → Handled
  serve server = serve_http client base64_decode gjson_get server m req

  abbrev of_route : Option Route → Handled
  of_route none = response 404 none none
  of_route (some r) = recover (handle client base64_decode gjson_get r m req)

  served :
      (server : WebhookServer) (k : String)
      → route_key_from_path req.path ≡ some k
      → serve server ≡ of_route (lookup k server.routes)
  unfolding serve_http
  served server k named = elim (Option-cases (lookup k server.routes)) [
    | inl gone ↦ rw ((eq_iff req.method "POST").1 posts, named, gone, serve_http, serve_key) refl
    | inr (r, there) ↦
        rw ((eq_iff req.method "POST").1 posts, named, there, serve_http, serve_key) refl
  ]

  -- A POST to the path of a key that a path can name is handled by the key's new route once it is
  -- registered, whatever the server held before, with 500 in place of a panic; it is answered with
  -- 404 once the key is unregistered.
  pub serve_http-key :
      IsKey key
      → req.path ≡ webhook_route_prefix ++ key
      → (serve_http client base64_decode gjson_get (register key config s) m req
          ≡ recover (handle client base64_decode gjson_get (new_route key config s) m req))
        × (serve_http client base64_decode gjson_get (unregister key s) m req
            ≡ response 404 none none)
  serve_http-key is path =
      let named = (route_key_from_path_iff req.path key).1 (path, is) in
      let there : lookup key (register key config s).routes ≡ some (new_route key config s) =
        rw (lookup-register key config s key, eq_refl key) refl in
      let gone : lookup key (unregister key s).routes ≡ none =
        rw (lookup-unregister key s key, eq_refl key) refl in
      (
        served (register key config s) key named ∙ ap of_route there,
        served (unregister key s) key named ∙ ap of_route gone,
      )

  -- A POST to the path of another key is answered as before the registration or the removal.
  pub serve_http-others :
      (k : String)
      → k ≢ key
      → route_key_from_path req.path ≡ some k
      → (serve_http client base64_decode gjson_get (register key config s) m req
          ≡ serve_http client base64_decode gjson_get s m req)
        × (serve_http client base64_decode gjson_get (unregister key s) m req
            ≡ serve_http client base64_decode gjson_get s m req)
  serve_http-others k ne named =
      let other : (key == k) ≡ false = elim (Bool-cases (key == k)) [
        | inl same ↦ absurd (ne (sym ((eq_iff key k).0 same)))
        | inr h ↦ h
      ] in
      (
        served (register key config s) k named
            ∙ ap of_route (lookup-register key config s k ∙ rw other refl)
            ∙ sym (served s k named),
        served (unregister key s) k named
            ∙ ap of_route (lookup-unregister key s k ∙ rw other refl)
            ∙ sym (served s k named),
      )
