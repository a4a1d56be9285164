-- ===== src/Listener/EventGrid.antt =====
-- internal/listener/eventgrid/listener.go: the requests of Azure's Event Grid.
pub mod Delivery
pub mod Paths
use reloader.Prelude.{
  ℕ, String, Bool, true, false, ◌==◌, Option, none, some, List, [], ◌∷◌, ◌++◌, if◌then◌else◌, any,
}
use reloader.Events.{SecretRotationEvent}
use reloader.Api.{AzureEventGridConfig}
use reloader.Chan.{Ready, select_send, sent, cancelled}

-- By the fields that the listener reads; `data` is the raw text, `event_time` its printed time.
pub record EventGridEvent : Type 0 where
  pub event_type : String
  pub event_time : String
  pub data_ : String

pub record SubscriptionValidationData : Type 0 where
  pub validation_code : String
  pub validation_url : String

-- An event of a request with what it meets: the channel, and whether the answer is encoded.
pub record Arrival : Type 0 where
  pub event : EventGridEvent
  pub ready : Ready
  pub encodes : Bool

-- What a handler has done: the status that was written first, the events that it published, and the
-- addresses that it calls back.
pub record Answer : Type 0 where
  pub status : Option ℕ
  pub published : List SecretRotationEvent
  pub callbacks : List String

abbrev pub unanswered : Answer
unanswered = record { status = none; published = []; callbacks = [] }

-- `WriteHeader`: only the first call counts.
unfoldable pub write : ℕ → Answer → Answer
write code a = record a { status = elim a.status [ none ↦ some code | some first ↦ some first ] }

abbrev pub event_of : String → String → SecretRotationEvent
event_of name time = record {
  secret_identifier = name;
  rotation_timestamp = time;
  trigger_source = "AzureEventGrid";
  namespace = "";
}

abbrev publish : SecretRotationEvent → Answer → Answer
publish event a = record a { published = a.published ++ event ∷ [] }

abbrev call_back : String → Answer → Answer
call_back url a = record a { callbacks = a.callbacks ++ url ∷ [] }

-- `name_of` is json.Unmarshal into SecretNewVersionCreatedData, by its `objectName`; `validation_of`
-- into SubscriptionValidationData; `events_of` into the events of a body; and `to_lower` is
-- strings.ToLower.
pub record Json : Type 0 where
  pub name_of : String → Option String
  pub validation_of : String → Option SubscriptionValidationData
  pub events_of : String → Option (List EventGridEvent)
  pub to_lower : String → String

module _ (json : Json) (config : AzureEventGridConfig) (subscription_header : String) where
  unfoldable pub handle_secret_event : Arrival → Answer → Answer
  handle_secret_event e a = elim (json.name_of e.event.data_) [
    | none ↦ write 400 a
    | some name ↦ elim (select_send e.ready) [
      | sent ↦ write 200 (publish (event_of name e.event.event_time) a)
      | cancelled ↦ a
    ]
  ]

  unfoldable pub handle_event_grid_handshake : Arrival → Answer → Answer
  handle_event_grid_handshake e a =
      let name = json.to_lower subscription_header in
      if name == ""
      then write 400 a
      else if any (λ sub. sub == name) config.subscriptions
      then elim (json.validation_of e.event.data_) [
        | none ↦ write 400 a
        | some v ↦
            if e.encodes then call_back v.validation_url (write 200 a) else write 500 (write 200 a)
      ]
      else write 404 a

  -- The switch on the type of one event.
  unfoldable pub handle_event : Arrival → Answer → Answer
  handle_event e a =
      if e.event.event_type == "Microsoft.EventGrid.SubscriptionValidationEvent"
      then handle_event_grid_handshake e a
      else if e.event.event_type == "Microsoft.KeyVault.SecretNewVersionCreated"
      then handle_secret_event e a
      else a

  unfoldable pub handle_events : List Arrival → Answer → Answer
  handle_events [] a = a
  handle_events (e ∷ es) a = handle_events es (handle_event e a)

  abbrev arrivals : (EventGridEvent → Arrival) → List EventGridEvent → List Arrival
  arrivals meets [] = []
  arrivals meets (e ∷ es) = meets e ∷ arrivals meets es

  -- `eventHandler`: `body` is what was read, `none` if reading failed.
  unfoldable pub event_handler : (EventGridEvent → Arrival) → Option String → Answer
  event_handler meets none = write 400 unanswered
  event_handler meets (some body) = elim (json.events_of body) [
    | none ↦ write 400 unanswered
    | some events ↦ handle_events (arrivals meets events) unanswered
  ]
