-- ===== src/Handler/Deployment/Reloads.antt =====
-- Which Deployments an event reloads.
use reloader.Prelude.{String, ◌==◌, ◌≡◌, Option, none, some, Any, if◌then◌else◌, Result, Bool}
use reloader.Events.{SecretRotationEvent}
use reloader.Api.{DestinationCriteria, DestinationToWatch}
use reloader.Handler.Objects.{Deployment, deployment, Cluster}
use reloader.Handler.Matching.{WatchError, is_deployment_watched}
use reloader.Handler.Matching.Watched.{Watched}
use reloader.Handler.Deployment.References.{ContainerRefers}
use reloader.Handler.Kept.{Kept}

module _ {W : Type 0} (cluster : Cluster W) (event : SecretRotationEvent)
    (dest : DestinationToWatch) (criteria : DestinationCriteria)
    (is : dest.deployment ≡ some criteria) (w : W) where
  -- A Deployment that the destination watches and that refers to the event's secret.
  abbrev pub IsConcerned : Deployment → Type 0
  IsConcerned d =
      Watched cluster w d.meta criteria × Any (ContainerRefers event.secret_identifier) d.containers

  abbrev watched : Deployment → Result WatchError Bool
  watched d = is_deployment_watched cluster w d dest

  -- The namespace that is listed; all of them if the event has none.
  abbrev pub listed : Option String
  listed = if event.namespace == "" then none else some event.namespace
