-- ===== src/Controller.antt =====
-- internal/controller/reloader_controller.go: the reconciliation of one Config. The API server and
-- controller-runtime's functions on finalizers are parameters.
pub mod Reconcile
pub mod Safety
pub mod Live
pub mod Settles
pub mod Dispatch
pub mod History
pub mod Program
use reloader.Prelude.{
  String, Bool, true, false, not, ◌&&◌, ◌==◌, Option, none, some, List, [], ◌∷◌, ◌++◌, Result, ok,
  err, if◌then◌else◌, Map, string_eq, lookup, insert, is_some,
}
use reloader.Api.{ConfigSpec, NotificationSource}
use reloader.Api.Validation.{Duplicate}
use reloader.Secrets.{ClientError, not_found, failed}
use reloader.Manager.{
  NamespacedName, name_eq, Host, Manager, ManageError, invalid, panicked, manage_listeners,
}
use reloader.Handler.Processor.{EventHandler, update_destinations_to_watch}

abbrev pub processed_annotation : String
processed_annotation = "reloader/processed"

abbrev pub reloader_finalizer : String
reloader_finalizer = "reloader.external-secrets.io/finalizer"

-- v1alpha1.Config
pub record Config : Type 0 where
  pub finalizers : List String
  pub annotations : Map String String
  pub deletion_timestamp : Option String
  pub spec : ConfigSpec

-- The `controllerutil` package of controller-runtime.
pub record ControllerUtil : Type 0 where
  pub contains_finalizer : Config → String → Bool
  pub add_finalizer : Config → String → Config
  pub remove_finalizer : Config → String → Config

-- What the API server answers to `Get` and to `Update`, and the time.
pub record ApiServer : Type 0 where
  pub get : NamespacedName → Result ClientError Config
  pub update : Config → Result ClientError Config
  pub now : String

pub data ReconcileError : Type 0 where
  unable_to_fetch : ClientError → ReconcileError
  not_managed : List Duplicate → ReconcileError
  finalizers_not_updated : ClientError → ReconcileError
  annotation_not_updated : ClientError → ReconcileError
  -- What controller-runtime makes of a panic of `Reconcile`, which it recovers by default.
  recovered_panic : ReconcileError

-- ReloaderReconciler, by the state that it keeps between calls.
pub record Reconciler : Type 0 where
  pub listener_manager : Manager
  pub event_handler : EventHandler

-- How a call ends, the state that it leaves, and the objects that it sent to the server.
pub record Reconciled : Type 0 where
  pub requeue : Bool
  pub error : Option ReconcileError
  pub state : Reconciler
  pub updates : List Config

unfoldable pub is_resource_new : Config → Bool
is_resource_new cfg = not (is_some (lookup processed_annotation cfg.annotations))

-- A missing key of a Go map of strings reads as the empty string.
abbrev or_empty : Option String → String
or_empty none = ""
or_empty (some s) = s

abbrev failing : Result ClientError Config → (ClientError → ReconcileError) → Option ReconcileError
failing (ok _) f = none
failing (err e) f = some (f e)

-- How a branch that ends with a call of `ManageListeners` ends.
abbrev pub with_managed : Result ManageError Manager → List Config → Reconciler → Reconciled
with_managed (ok lm) updates r = record {
  requeue = false;
  error = none;
  state = record r { listener_manager = lm };
  updates = updates;
}
with_managed (err (invalid dups)) updates r = record {
  requeue = false;
  error = some (not_managed dups);
  state = r;
  updates = updates;
}
with_managed (err (panicked lm)) updates r = record {
  requeue = false;
  error = some recovered_panic;
  state = record r { listener_manager = lm };
  updates = updates;
}

module _ (host : Host) (util : ControllerUtil) (api : ApiServer) where
  -- The call of `ManageListeners` with which a branch ends.
  abbrev manage :
      NamespacedName → Option (List NotificationSource) → List Config → Reconciler → Reconciled
  manage req sources updates r =
      with_managed (manage_listeners host req sources r.listener_manager) updates r

  -- A Config that is being deleted: its listeners first, then the finalizer.
  abbrev finalize : NamespacedName → Config → Reconciler → Reconciled
  finalize req cfg r = elim (manage_listeners host req (some []) r.listener_manager) [
    | err e ↦ with_managed (err e) [] r
    | ok lm ↦ record {
      requeue = false;
      error =
          failing (api.update (util.remove_finalizer cfg reloader_finalizer))
            finalizers_not_updated;
      state = record r { listener_manager = lm };
      updates = util.remove_finalizer cfg reloader_finalizer ∷ [];
    }
  ]

  abbrev adopt : Config → Reconciler → Reconciled
  adopt cfg r = record {
    requeue = false;
    error = failing (api.update (util.add_finalizer cfg reloader_finalizer)) finalizers_not_updated;
    state = r;
    updates = util.add_finalizer cfg reloader_finalizer ∷ [];
  }

  abbrev pub annotated : Config → Config
  annotated cfg = record cfg { annotations = insert processed_annotation api.now cfg.annotations }

  -- The destinations, then the listeners.
  abbrev refresh : NamespacedName → List Config → Config → Reconciler → Reconciled
  refresh req updates cfg r = manage req (some cfg.spec.notification_sources) updates (record r {
    event_handler = update_destinations_to_watch cfg.spec.destinations_to_watch r.event_handler;
  })

  -- A Config with the finalizer; `Update` overwrites the object with the server's answer.
  abbrev initialize : NamespacedName → Config → Reconciler → Reconciled
  initialize req cfg r =
      if is_resource_new cfg
      then if or_empty (lookup processed_annotation cfg.annotations) == ""
        then elim (api.update (annotated cfg)) [
          | err e ↦ record {
            requeue = true;
            error = some (annotation_not_updated e);
            state = r;
            updates = annotated cfg ∷ [];
          }
          | ok answer ↦ refresh req (annotated cfg ∷ []) answer r
        ]
        else refresh req [] cfg r
      else refresh req [] cfg r

  -- `Reconcile`
  unfoldable pub reconcile_config : NamespacedName → Reconciler → Reconciled
  reconcile_config req r = elim (api.get req) [
    | err e ↦ elim e [
      | not_found ↦ manage req none [] r
      | failed m ↦ record {
        requeue = false;
        error = some (unable_to_fetch (failed m));
        state = r;
        updates = [];
      }
    ]
    | ok cfg ↦
        if is_some cfg.deletion_timestamp && util.contains_finalizer cfg reloader_finalizer
        then finalize req cfg r
        else if not (util.contains_finalizer cfg reloader_finalizer)
        then adopt cfg r
        else initialize req cfg r
  ]
