-- ===== src/Controller/Program.antt =====
-- internal/controller/reloader_controller.go: SetupWithManager and the graceful shutdown, that is the
-- reconciliations, the loop of events and the manager of listeners together. What controller-runtime
-- answers is an argument.
pub mod ShutDown
use reloader.Prelude.{String, Option, List, [], ◌∷◌, Result, ◌>>=◌, if◌then◌else◌}
use reloader.Api.{NotificationSource}
use reloader.Webhook.Server.{WebhookServer}
use reloader.Handler.Schema.{Registry}
use reloader.Handler.Processor.{new_event_handler}
use reloader.Manager.{NamespacedName, Host, Manager}
use reloader.Manager.Sound.{new_manager}
use reloader.Manager.StopAll.{stop_all}
use reloader.Controller.{ControllerUtil, ApiServer, Reconciler, reconcile_config}
use reloader.Controller.Dispatch
use reloader.Controller.Dispatch.{Dispatcher, Move}

-- ReloaderReconciler after SetupWithManager: its `eventHandler` is the one of the loop, which
-- `Reconcile` updates.
pub record Program (W : Type 0) : Type 0 where
  pub listener_manager : Manager
  pub dispatcher : Dispatcher W

-- What happens next: a reconciliation with what the API server answers, a move of the listeners, the
-- loop or the goroutines, or the shutdown.
pub data Turn : Type 0 where
  reconcile : ApiServer → NamespacedName → Turn
  move : Move → Turn
  shut_down : Turn

module _ {W : Type 0} where
  -- The `ReloaderReconciler` that `Reconcile` sees.
  abbrev pub reconciler_of : Program W → Reconciler
  reconciler_of p = record {
    listener_manager = p.listener_manager;
    event_handler = p.dispatcher.event_handler;
  }

  abbrev pub reconciled : Reconciler → Program W → Program W
  reconciled r p = record {
    listener_manager = r.listener_manager;
    dispatcher = record p.dispatcher { event_handler = r.event_handler };
  }

  -- `SetupWithManager`: the program that it starts, and its error, from the errors of `mgr.Add` and
  -- of `Complete`.
  unfoldable pub set_up_with_manager :
      Result String (Unit {0})
      → Result String (Unit {0})
      → Option WebhookServer
      → W
      → Program W × Result String (Unit {0})
  set_up_with_manager added completed server world = (
    record {
      listener_manager = new_manager server;
      dispatcher = Dispatch.set_up new_event_handler world;
    },
    added >>= λ _. completed,
  )

module _ {W : Type 0} (host : Host) (util : ControllerUtil) (providers : Registry W) where
  -- The function that `mgr.Add` is given, once the context of controller-runtime has ended: it
  -- cancels the context of the listeners and of the loop, then stops all listeners. The errors are
  -- those that `StopAll` joins.
  unfoldable pub graceful_shutdown : Program W → Program W × List NotificationSource
  graceful_shutdown p =
      let (lm, errs) = stop_all host p.listener_manager in
      (
        record {
          listener_manager = lm;
          dispatcher = Dispatch.step providers Dispatch.cancel p.dispatcher;
        },
        errs,
      )

  unfoldable pub live_turn : Turn → Program W → Program W
  live_turn (reconcile api req) p =
      reconciled (reconcile_config host util api req (reconciler_of p)).state p
  live_turn (move m) p = record p { dispatcher = Dispatch.step providers m p.dispatcher }
  live_turn shut_down p = (graceful_shutdown p).0

  -- After a panic of a goroutine the process is over, and nothing happens.
  unfoldable pub turn : Turn → Program W → Program W
  unfolding live_turn
  turn t p = if p.dispatcher.crashed then p else live_turn t p

  unfoldable pub turns : List Turn → Program W → Program W
  turns [] p = p
  turns (t ∷ ts) p = turns ts (turn t p)

  -- The moves of the listeners, the loop and the goroutines alone.
  unfoldable pub moves : List Move → Program W → Program W
  moves ms p = record p { dispatcher = Dispatch.run providers ms p.dispatcher }
