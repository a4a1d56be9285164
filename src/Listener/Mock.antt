-- ===== src/Listener/Mock.antt =====
-- internal/listener/mock: a listener that emits fixed events.
use reloader.Prelude.{
  ℕ, ◌+◌, ◌*◌, String, Bool, true, false, List, [], ◌∷◌, Result, ok, err, if◌then◌else◌,
}
use reloader.Api.{MockConfig}
use reloader.Events.{SecretRotationEvent}

-- MockNotificationListener; the interval is in nanoseconds.
pub record MockNotificationListener : Type 0 where
  pub events : List SecretRotationEvent
  pub emit_interval : ℕ
  pub stopped : Bool

unfoldable pub new_mock_listener : List SecretRotationEvent → ℕ → MockNotificationListener
new_mock_listener events emit_interval = record {
  events = events;
  emit_interval = emit_interval;
  stopped = false;
}

-- The goroutine: each event with the time that it has slept by then.
unfoldable pub emit : ℕ → ℕ → List SecretRotationEvent → List (ℕ × SecretRotationEvent)
emit interval slept [] = []
emit interval slept (event ∷ events) =
    (slept + interval, event) ∷ emit interval (slept + interval) events

-- `Start`; the goroutine looks at `stopped` no more.
unfoldable pub start : MockNotificationListener → Result String (List (ℕ × SecretRotationEvent))
unfolding emit
start m =
    if m.stopped then err "listener has been stopped" else ok (emit m.emit_interval 0 m.events)

unfoldable pub stop : MockNotificationListener → MockNotificationListener
stop m = record m { stopped = true }

abbrev mock_events : List SecretRotationEvent
mock_events =
    record {
      secret_identifier =
          "aws://secret/arn:aws:secretsmanager:us-east-1:123456789012:secret:mysecret";
      rotation_timestamp = "2024-09-19T12:00:00Z";
      trigger_source = "aws-secretsmanager";
      namespace = "";
    }
    ∷ []

-- The listener of `CreateListener`: the interval of the configuration is in milliseconds. The product
-- of an `int32` and 10^6 is in the range of a `time.Duration`.
unfoldable pub of_config : MockConfig → MockNotificationListener
unfolding new_mock_listener
of_config config = new_mock_listener mock_events (config.emit_interval * 1_000_000)
