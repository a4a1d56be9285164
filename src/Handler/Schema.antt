-- ===== src/Handler/Schema.antt =====
-- internal/handler/schema/schema.go: the interface of the handlers and the registry of providers.
use reloader.Prelude.{
  String, Bool, false, Option, none, some, List, Result, Map, string_eq, lookup, insert,
}
use reloader.Events.{SecretRotationEvent}
use reloader.Api.{DestinationToWatch}
use reloader.Secrets.{ClientError}
use reloader.Handler.Objects.{Object}

-- The errors of a handler. `regexp_panic` is a panic, which ends the process.
pub data HandlerError : Type 0 where
  wrong_destination : HandlerError
  list_failed : ClientError → HandlerError
  wrong_object : HandlerError
  regexp_panic : HandlerError
  update_failed : ClientError → HandlerError
  get_failed : ClientError → HandlerError
  rollout_timeout : HandlerError

-- The methods of a handler, over the states `W` of the cluster.
pub record Handler (W : Type 0) : Type 0 where
  pub filter : DestinationToWatch → SecretRotationEvent → W → Result HandlerError (List Object)
  pub references : Object → String → Result HandlerError Bool
  pub apply : Object → SecretRotationEvent → W → Result HandlerError (Unit {0}) × W
  pub wait_for : Object → W → Result HandlerError (Unit {0}) × W

module _ {W : Type 0} where
  abbrev pub with_apply :
      (Object → SecretRotationEvent → W → Result HandlerError (Unit {0}) × W)
      → Handler W
      → Handler W
  with_apply f h = record h { apply = f }

  abbrev pub with_reference : (Object → String → Result HandlerError Bool) → Handler W → Handler W
  with_reference f h = record h { references = f }

  abbrev pub with_wait_for :
      (Object → W → Result HandlerError (Unit {0}) × W) → Handler W → Handler W
  with_wait_for f h = record h { wait_for = f }

-- A provider is its `NewHandler`.
abbrev pub Provider : Type 0 → Type 0
Provider W = DestinationToWatch → Handler W

abbrev pub Registry : Type 0 → Type 0
Registry W = Map String (Provider W)

module _ {W : Type 0} where
  unfoldable pub force_register : String → Provider W → Registry W → Registry W
  force_register name prov providers = insert name prov providers

  -- `RegisterProvider`. The value that `LoadOrStore` returns is never nil, so the result is false.
  unfoldable pub register_provider : String → Provider W → Registry W → Registry W × Bool
  register_provider name prov providers = elim (lookup name providers) [
    | some _ ↦ (providers, false)
    | none ↦ (insert name prov providers, false)
  ]

  unfoldable pub get_provider : String → Registry W → Option (Provider W)
  get_provider name providers = lookup name providers
