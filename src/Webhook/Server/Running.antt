-- ===== src/Webhook/Server/Running.antt =====
-- internal/listener/webhook/server.go: Start and closeHTTPServer. How net/http's server ends is the
-- scheduler's choice.
use reloader.Prelude.{Bool, String, Option, none, some, Result, ok, err, ◌>>=◌, if◌then◌else◌}

-- What `Serve` returns: http.ErrServerClosed, or another error, or nil.
pub data ServeEnd : Type 0 where
  server_closed : ServeEnd
  serve_failed : String → ServeEnd
  no_error : ServeEnd

-- Which case of the select is taken: the server has ended by itself, or the context has; then the
-- shutdown may fail, and the server ends.
pub data Ending : Type 0 where
  by_itself : ServeEnd → Ending
  by_context : Option String → ServeEnd → Ending

pub data StartError : Type 0 where
  listen_failed : String → StartError
  ended_with : String → StartError
  shutdown_failed : String → StartError

abbrev end_of : ServeEnd → Result StartError (Unit {0})
end_of server_closed = ok tt
end_of no_error = ok tt
end_of (serve_failed e) = err (ended_with e)

-- `closeHTTPServer`, by whether it was called before: only the first call shuts the server down.
unfoldable pub close_http_server : Bool → Option String → Result StartError (Unit {0})
close_http_server closed none = ok tt
close_http_server closed (some e) = if closed then ok tt else err (shutdown_failed e)

-- `Start`; `listen_fails` is the error of net.Listen, if any.
unfoldable pub start : Bool → Option String → Ending → Result StartError (Unit {0})
unfolding close_http_server
start closed (some e) ending = err (listen_failed e)
start closed none (by_itself end) = end_of end
start closed none (by_context shutdown_fails end) =
    close_http_server closed shutdown_fails >>= λ _. end_of end
