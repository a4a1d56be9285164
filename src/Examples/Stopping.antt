-- ===== src/Examples/Stopping.antt =====
-- A run of the program that is shut down.
use reloader.Prelude.{
  true, false, refl, ◌≡◌, none, some, List, [], ◌∷◌, ok, string_eq, lookup, insert, delete,
}
use reloader.Webhook.Server.{new_webhook_server, route_key, register, unregister}
use reloader.Api.Validation.{
  validate, validate_unique_webhook_path_suffixes, validate_from, validate_step,
}
use reloader.Handler.Objects.{Deployment}
use reloader.Manager.{
  name_eq, manage_listeners, scope_of, put_scope, check_sources, reconcile, visit, remove_unwanted,
  add_new, create_listener, webhook_config, stop_listener, desired_from, generate_listener_key,
  config_of, count_webhooks, interrupted, add_until, panics_on, begins,
}
use reloader.Manager.Manages.{own_at}
use reloader.Controller.{is_resource_new, reconcile_config}
use reloader.Controller.Dispatch
use reloader.Controller.Dispatch.{Move}
use reloader.Controller.Dispatch.Accounted.{Accounted}
use reloader.Controller.Program
use reloader.Controller.Program.{
  Program, Turn, turn, live_turn, turns, moves, set_up_with_manager, graceful_shutdown,
}
use reloader.Controller.Dispatch.Leaves.{Left}
use reloader.Controller.Program.ShutDown.{after, shut_down-rests}
use reloader.Examples.Inputs.{host, app}
use reloader.Examples.Managing.{covers, util, api}
use reloader.Handler.Processor.{handle_event, update_destinations_to_watch}
use reloader.Examples.Handling.{providers, deployed, event}

-- A Config is reconciled, and an event is sent and received, before the shutdown.
abbrev so_far : List Turn
so_far =
    Program.reconcile (api none) app
    ∷ Program.move (Dispatch.send event)
    ∷ Program.move Dispatch.receive
    ∷ []

-- Then one more event is sent, and the goroutine of the first one returns.
abbrev meanwhile : List Move
meanwhile = Dispatch.send event ∷ Dispatch.finish 0 ∷ []

abbrev stopped : Program Deployment
stopped =
    after host util providers covers (ok tt) (ok tt) (some new_webhook_server) deployed so_far
      meanwhile

alive : stopped.dispatcher.crashed ≡ false
unfolding turn live_turn turns set_up_with_manager moves graceful_shutdown Dispatch.run
    Dispatch.step Dispatch.live_step Dispatch.accept Dispatch.dispatch Dispatch.pick
    Dispatch.finish_event handle_event reconcile_config is_resource_new manage_listeners interrupted
    add_until panics_on begins scope_of put_scope check_sources reconcile visit remove_unwanted
    add_new create_listener webhook_config stop_listener desired_from generate_listener_key
    config_of validate validate_unique_webhook_path_suffixes validate_from route_key register
    unregister lookup insert delete count_webhooks validate_step update_destinations_to_watch
alive = refl

shut_down-rests_example :
    (lookup "Webhook-f00" (own_at app stopped.listener_manager) ≡ none)
    × (stopped.listener_manager.stopped 0 ≡ true)
    × Accounted stopped.dispatcher
    × Left stopped.dispatcher
        (Dispatch.run providers (Dispatch.see_done ∷ Dispatch.receive ∷ []) stopped.dispatcher)
unfolding turn live_turn turns set_up_with_manager Dispatch.step Dispatch.live_step Dispatch.accept
    Dispatch.dispatch reconcile_config is_resource_new manage_listeners interrupted add_until
    panics_on begins scope_of put_scope check_sources reconcile visit remove_unwanted add_new
    create_listener webhook_config stop_listener desired_from generate_listener_key config_of
    validate validate_unique_webhook_path_suffixes validate_from route_key register unregister
    lookup insert delete count_webhooks validate_step
shut_down-rests_example =
    shut_down-rests host util providers covers (ok tt) (ok tt) (some new_webhook_server) deployed
      so_far meanwhile (Dispatch.receive ∷ []) app "Webhook-f00" alive
