-- ===== src/Examples/Surviving.antt =====
-- HandleEvent with the handler of Deployments alone does not panic.
use reloader.Prelude.{
  String, ◌==◌, ◌≡◌, inl, inr, subst, some, some-injective, [], ◌∷◌, string_eq, lookup, Bool-cases,
}
use reloader.Api.{DestinationToWatch}
use reloader.Handler.Objects.{Deployment}
use reloader.Handler.Schema.{Provider, get_provider}
use reloader.Handler.Processor.{EventHandler}
use reloader.Handler.Processor.Safe.{IsSafe, handle_event-Survives}
use reloader.Handler.Deployment.{new_handler}
use reloader.Handler.Deployment.Safe.{new_handler-IsSafe}
use reloader.Controller.Dispatch.Drains.{NeverPanics}
use reloader.Examples.Handling.{cluster, providers, destination}

provided-IsSafe :
    (name : String) (prov : Provider Deployment) (dest : DestinationToWatch)
    → get_provider name providers ≡ some prov
    → IsSafe (prov dest)
unfolding get_provider lookup
provided-IsSafe name prov dest e = elim (Bool-cases ("Deployment" == name)) [
  | inl is ↦
      subst (λ (p : Provider Deployment). IsSafe (p dest))
        (some-injective (new_handler cluster) prov (rw is at e)) (new_handler-IsSafe cluster dest)
  | inr other ↦ absurd (cc (rw other at e))
]

-- The event handler once a destination of Deployments is cached.
abbrev pub watching : EventHandler
watching = record { cache = destination ∷ [] }

pub providers-NeverPanics : NeverPanics providers watching.cache
providers-NeverPanics event w =
    handle_event-Survives providers provided-IsSafe watching.cache event w
