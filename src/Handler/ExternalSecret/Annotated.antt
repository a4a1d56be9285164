-- ===== src/Handler/ExternalSecret/Annotated.antt =====
-- Which ExternalSecrets an event annotates.
use reloader.Prelude.{◌≡◌, ◌⊎◌, some, Any, All, Result, Bool}
use reloader.Events.{SecretRotationEvent}
use reloader.Api.{DestinationCriteria, DestinationToWatch}
use reloader.Handler.Objects.{ExternalSecret, external_secret, Cluster}
use reloader.Handler.Matching.{WatchError, is_external_secret_watched}
use reloader.Handler.Matching.Watched.{Watched}
use reloader.Handler.ExternalSecret.References.{Compiles, EntryRefers, TemplatesRefer}
use reloader.Handler.Kept.{Kept}

module _ {W : Type 0} (cluster : Cluster W) (event : SecretRotationEvent)
    (dest : DestinationToWatch) (criteria : DestinationCriteria)
    (is : dest.external_secret ≡ some criteria) (w : W) where
  -- An ExternalSecret that the destination watches and that refers to the event's secret.
  abbrev pub IsConcerned : ExternalSecret → Type 0
  IsConcerned d =
      Watched cluster w d.meta criteria
      × (Any (λ key. key ≡ event.secret_identifier) d.remote_keys
          ⊎ (Any (EntryRefers cluster event.secret_identifier) d.data_from
              ⊎ TemplatesRefer cluster event.secret_identifier d.template))

  -- The patterns of its entries compile.
  abbrev pub PatternsCompile : ExternalSecret → Type 0
  PatternsCompile d = All (Compiles cluster event.secret_identifier) d.data_from

  abbrev watched : ExternalSecret → Result WatchError Bool
  watched d = is_external_secret_watched cluster w d dest
