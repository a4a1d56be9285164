-- ===== src/Examples/Sources.antt =====
-- Runs of the validation, of the readers of Secrets, and of the listeners' messages.
use reloader.Prelude.{
  List, if◌then◌else◌, String, ◌==◌, ap, ◌≡◌, ◌≢◌, ◌↔◌, refl, arith, true, false, none, some, [],
  ◌∷◌, ok, Distinct, cut_text, strip_prefix?, Occurs-of_cut_text,
}
use reloader.Api.{ConfigSpec, AzureEventGridConfig}
use reloader.Api.Validation.{validate, webhook_suffixes}
use reloader.Api.Validation.Unique.{validate-eq-ok_iff}
use reloader.Chan.{room, select_send}
use reloader.Listener.Tcp.{read_message}
use reloader.Listener.Tcp.Framing.{IsMessage, frame, concat, turn_of, read_message-frame}
use reloader.Listener.Vault.{AuditLog, AuthRequest, AuthResponse, published, event_of, process_fn}
use reloader.Listener.Vault.Publishes.{process_fn-update}
use reloader.Listener.Watch
use reloader.Listener.EventGrid.{Arrival, Json, handle_events, unanswered}
use reloader.Listener.EventGrid.Delivery.{Delivered, handle_events-Delivered}
use reloader.Listener.Watch.{Report, map_report, versions_after}
use reloader.Listener.Watch.Changes.{last_version, map_report-publishes_iff}
use reloader.Examples.Inputs.{webhook_source, app}

abbrev two_sources : ConfigSpec
two_sources = record {
  notification_sources = webhook_source "a" ∷ webhook_source " b " ∷ [];
  destinations_to_watch = [];
}

validate-eq-ok_iff_example :
    (validate two_sources ≡ ok tt) ↔ Distinct (webhook_suffixes two_sources.notification_sources)
validate-eq-ok_iff_example = validate-eq-ok_iff two_sources

full : {m : String} → (m == "") ≡ false → m ≢ ""
full e empty = absurd (cc (ap (λ s. s == "") empty))

abbrev ab-IsMessage : IsMessage "ab"
ab-IsMessage = (full refl, ((λ e. omega (arith, e)), ((λ e. omega (arith, e)), tt)))

c-IsMessage : IsMessage "c"
c-IsMessage = (full refl, ((λ e. omega (arith, e)), tt))

read_message-frame_example :
    read_message true (turn_of (frame ("ab" ∷ "c" ∷ [])) ∷ (turn_of (frame ("c" ∷ [])) ∷ []))
    ≡ "ab" ∷ "c" ∷ "c" ∷ []
unfolding concat
read_message-frame_example =
    read_message-frame (("ab" ∷ "c" ∷ []) ∷ (("c" ∷ []) ∷ []))
      ((ab-IsMessage, (c-IsMessage, tt)), ((c-IsMessage, tt), tt))

abbrev request : String → AuthRequest
request path = record { operation = "update"; path = path }

abbrev response : AuthResponse
response = record { mount_point = "kv/"; mount_type = "kv" }

abbrev audit : String → AuditLog
audit path = record {
  auth_type = "response";
  auth_request = some (request path);
  auth_response = some response;
}

process_fn-update_example :
    process_fn (λ path. some (audit path)) "now" room "kv/data/db" ≡ published (event_of "db" "now")
unfolding cut_text strip_prefix? select_send
process_fn-update_example =
    process_fn-update (λ path. some (audit path)) "kv/data/db" "now" "db" room (audit "kv/data/db")
      (request "kv/data/db") response refl
      (record { type = refl; requested = refl; answered = refl; mount = refl }) refl refl
      (full refl) (Occurs-of_cut_text "kv/" "data/db" refl) refl

abbrev report : String → Report
report version = record {
  name = app;
  resource_version = version;
  deletion_timestamp = none;
  now = "now";
}

map_report-publishes_iff_example :
    ((map_report (report "2") (versions_after (report "1" ∷ report "1" ∷ []) [])).1
      ≡ some (Watch.event_of (report "2")))
    ↔ ((Watch.event_of (report "2") ≡ Watch.event_of (report "2"))
        × ((false ≡ false)
            × ((v : String) × ((last_version app (report "1" ∷ report "1" ∷ []) none ≡ some v)
                  × ("2" ≢ v)))))
map_report-publishes_iff_example =
    map_report-publishes_iff (report "1" ∷ report "1" ∷ []) (report "2")
      (Watch.event_of (report "2"))

abbrev json : Json
json = record {
  name_of = λ d. if d == "{}" then none else some d;
  validation_of = λ d. none;
  events_of = λ b. none;
  to_lower = λ s. s;
}

abbrev arrival : String → String → Arrival
arrival type data_ = record {
  event = record { event_type = type; event_time = "now"; data_ = data_ };
  ready = room;
  encodes = true;
}

abbrev grid : AzureEventGridConfig
grid = record { host = "0.0.0.0"; port = 8080; subscriptions = "sub" ∷ [] }

abbrev arrived : List Arrival
arrived =
    arrival "Microsoft.EventGrid.SubscriptionValidationEvent" "{}"
    ∷ arrival "Microsoft.KeyVault.SecretNewVersionCreated" "{}"
    ∷ arrival "Microsoft.KeyVault.SecretNewVersionCreated" "db"
    ∷ []

handle_events-Delivered_example :
    Delivered json grid "sub" arrived (handle_events json grid "sub" arrived unanswered).published
handle_events-Delivered_example = handle_events-Delivered json grid "sub" arrived
