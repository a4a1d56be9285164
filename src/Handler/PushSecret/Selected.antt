-- ===== src/Handler/PushSecret/Selected.antt =====
-- Which PushSecrets an event annotates.
use reloader.Prelude.{◌≡◌, ◌⊎◌, some, Any, Result, Bool}
use reloader.Events.{SecretRotationEvent}
use reloader.Api.{DestinationCriteria, DestinationToWatch}
use reloader.Handler.Objects.{PushSecret, push_secret, Cluster}
use reloader.Handler.Matching.{WatchError, is_push_secret_watched}
use reloader.Handler.Matching.Watched.{Watched}
use reloader.Handler.Kept.{Kept}

module _ {W : Type 0} (cluster : Cluster W) (event : SecretRotationEvent)
    (dest : DestinationToWatch) (criteria : DestinationCriteria)
    (is : dest.push_secret ≡ some criteria) (w : W) where
  -- A PushSecret that the destination watches and that refers to the event's secret.
  abbrev pub IsConcerned : PushSecret → Type 0
  IsConcerned d =
      Watched cluster w d.meta criteria
      × ((d.selector_secret ≡ some event.secret_identifier)
          ⊎ Any (λ key. key ≡ event.secret_identifier) d.remote_keys)

  abbrev watched : PushSecret → Result WatchError Bool
  watched d = is_push_secret_watched cluster w d dest
