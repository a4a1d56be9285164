-- ===== src/Handler/Processor.antt =====
-- internal/handler/processor.go: an event against the destinations that are watched.
pub mod Ordered
pub mod Complete
pub mod Safe
use reloader.Prelude.{
  String, Bool, true, false, Option, none, some, List, [], ◌∷◌, ◌++◌, Result, ok, err,
  if◌then◌else◌,
}
use reloader.Events.{SecretRotationEvent}
use reloader.Api.{DestinationToWatch}
use reloader.Handler.Objects.{Object}
use reloader.Handler.Schema.{
  HandlerError, wrong_destination, list_failed, wrong_object, regexp_panic, update_failed,
  get_failed, rollout_timeout, Handler, Registry, get_provider,
}

-- The calls of a handler that change the cluster or wait for it, with whether they succeeded.
pub data Action : Type 0 where
  applied : Object → Bool → Action
  waited : Object → Bool → Action

pub data ProcessError : Type 0 where
  failed_to_filter : HandlerError → ProcessError
  failed_reference : HandlerError → ProcessError
  failed_to_wait : HandlerError → ProcessError

-- Why a run of `HandleEvent` stops early: it returns an error, or it panics, which ends the process.
pub data Stop : Type 0 where
  returned : ProcessError → Stop
  panicked : Stop

-- What ends the run when a method of a handler fails; a panic is not wrapped.
abbrev pub stop_by : (HandlerError → ProcessError) → HandlerError → Stop
stop_by wrap wrong_destination = returned (wrap wrong_destination)
stop_by wrap (list_failed e) = returned (wrap (list_failed e))
stop_by wrap wrong_object = returned (wrap wrong_object)
stop_by wrap regexp_panic = panicked
stop_by wrap (update_failed e) = returned (wrap (update_failed e))
stop_by wrap (get_failed e) = returned (wrap (get_failed e))
stop_by wrap rollout_timeout = returned (wrap rollout_timeout)

-- How a run ends, what it did, and the cluster that it leaves.
pub record Run (W : Type 0) : Type 0 where
  pub result : Result Stop (Unit {0})
  pub actions : List Action
  pub world : W

module _ {W : Type 0} where
  abbrev pub done : W → Run W
  done w = record { result = ok tt; actions = []; world = w }

  abbrev pub fail : Stop → W → Run W
  fail e w = record { result = err e; actions = []; world = w }

  abbrev pub after : List Action → Run W → Run W
  after actions r = record r { actions = actions ++ r.actions }

  -- The loop over the objects of one destination.
  unfoldable pub handle_objects : Handler W → SecretRotationEvent → List Object → W → Run W
  handle_objects h event [] w = done w
  handle_objects h event (obj ∷ objs) w =
      let skipped = handle_objects h event objs w in
      let (a, w₁) = h.apply obj event w in
      let not_applied = handle_objects h event objs w₁ in
      let (b, w₂) = h.wait_for obj w₁ in
      let waited_for = handle_objects h event objs w₂ in
      elim (h.references obj event.secret_identifier) [
        | err e ↦ fail (stop_by failed_reference e) w
        | ok false ↦ skipped
        | ok true ↦ elim a [
          | err _ ↦ after (applied obj false ∷ []) not_applied
          | ok _ ↦ elim b [
            | err e ↦
                after (applied obj true ∷ waited obj false ∷ [])
                  (fail (stop_by failed_to_wait e) w₂)
            | ok _ ↦ after (applied obj true ∷ waited obj true ∷ []) waited_for
          ]
        ]
      ]

  unfoldable pub handle_destination :
      Handler W → SecretRotationEvent → DestinationToWatch → W → Run W
  handle_destination h event dest w = elim (h.filter dest event w) [
    | err e ↦ fail (stop_by failed_to_filter e) w
    | ok objs ↦ handle_objects h event objs w
  ]

  abbrev pub then_by : Result Stop (Unit {0}) → Run W → (W → Run W) → Run W
  then_by (err _) r k = r
  then_by (ok _) r k = after r.actions (k r.world)

  -- An error of one destination ends the whole event.
  abbrev pub then_run : Run W → (W → Run W) → Run W
  then_run r k = then_by r.result r k

  -- `HandleEvent`: the loop over the destinations; those without a provider are skipped.
  unfoldable pub handle_event :
      Registry W → SecretRotationEvent → List DestinationToWatch → W → Run W
  handle_event providers event [] w = done w
  handle_event providers event (dest ∷ rest) w = elim (get_provider dest.type providers) [
    | none ↦ handle_event providers event rest w
    | some prov ↦
        then_run (handle_destination (prov dest) event dest w) (handle_event providers event rest)
  ]

-- The cache of an `EventHandler`, which `UpdateDestinationsToWatch` replaces.
pub record EventHandler : Type 0 where
  pub cache : List DestinationToWatch

abbrev pub new_event_handler : EventHandler
new_event_handler = record { cache = [] }

unfoldable pub update_destinations_to_watch : List DestinationToWatch → EventHandler → EventHandler
update_destinations_to_watch watch h = record h { cache = watch }
