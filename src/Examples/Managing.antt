-- ===== src/Examples/Managing.antt =====
-- Runs of the listener manager and of the controller.
use reloader.Prelude.{
  ◌∙◌, sym, any, ◌==◌, eq_refl, Bool-cases, String, Bool, true, false, ◌≡◌, ◌≢◌, ◌⊎◌, inl, inr,
  refl, Option, none, some, List, [], ◌∷◌, ok, if◌then◌else◌, string_eq, lookup, insert, delete,
  is_some, All, ap, trim_space, trim_left, trim_right,
}
use reloader.Api.{NotificationSource}
use reloader.Api.Validation.{
  validate, validate_unique_webhook_path_suffixes, validate_from, validate_step, suffix_of,
  webhook_suffixes,
}
use reloader.Webhook.Server.{new_webhook_server, register, unregister, route_key}
use reloader.Manager.{
  NamespacedName, name_eq, Manager, manage_listeners, scope_of, put_scope, check_sources, reconcile,
  visit, remove_unwanted, stop_listener, add_new, create_listener, desired_from,
  generate_listener_key, config_of, count_webhooks, webhook_config, interrupted, add_until,
  panics_on, begins,
}
use reloader.Manager.Sound.{IsSound, Call, manage, manages, new_manager, manager-IsSound}
use reloader.Manager.Reconcile.{Covers, runs_at}
use reloader.Manager.Manages.{own_at, manage_listeners-runs}
use reloader.Handler.Processor.{new_event_handler, update_destinations_to_watch}
use reloader.Controller.{
  Config, ControllerUtil, ApiServer, Reconciler, reloader_finalizer, is_resource_new,
  reconcile_config,
}
use reloader.Controller.Reconcile.{FinalizerLaws, HasFinalizer, IsLive}
use reloader.Manager.History.{manages-keeps}
use reloader.Controller.History.{reached, reconciles-finalizer, reconciles-others}
use reloader.Controller.Safety.{after, reconcile_config-starts}
use reloader.Controller.Settles.{
  KeepLaws, reconciled, after_call, IsQuiet, reconcile_config-settles,
}
use reloader.Controller.Live.{AreCalm, IsServed, reconcile_config-IsServed}
use reloader.Examples.Inputs.{host, app, other_app, manager, running, webhook_source}

pub covers : Covers host
covers ks k h = h

abbrev sources : Option (List NotificationSource)
sources = some (webhook_source "a" ∷ [])

kept : manage_listeners host app sources manager ≡ ok manager
unfolding manage_listeners interrupted add_until panics_on begins scope_of put_scope check_sources
    reconcile visit remove_unwanted stop_listener add_new create_listener desired_from
    generate_listener_key config_of validate validate_unique_webhook_path_suffixes validate_from
    validate_step suffix_of trim_space trim_left trim_right lookup insert delete
kept = refl

manage_listeners-runs_example :
    is_some (lookup "Webhook-f00" (own_at app manager))
    ≡ runs_at host true
        (lookup "Webhook-f00" (desired_from host [] (webhook_source "a" ∷ [])))
        (lookup "Webhook-f00" (own_at app manager))
manage_listeners-runs_example =
    manage_listeners-runs host app sources manager manager "Webhook-f00" covers kept

apart : other_app ≢ app
apart e = absurd (cc (ap (λ (n : NamespacedName). n.name == "app") e))

abbrev contains : Config → String → Bool
contains c f = any (λ x. x == f) c.finalizers

abbrev without : String → List String → List String
without f [] = []
without f (x ∷ xs) = let rest = without f xs in if x == f then rest else x ∷ rest

abbrev pub util : ControllerUtil
util = record {
  contains_finalizer = contains;
  add_finalizer = λ c f. if contains c f then c else record c { finalizers = f ∷ c.finalizers };
  remove_finalizer = λ c f. record c { finalizers = without f c.finalizers };
}

laws : FinalizerLaws util
laws = record {
  contains-add = λ c f. elim (Bool-cases (contains c f)) [
    | inl has ↦ rw has has
    | inr new ↦ rw new (rw (eq_refl f) refl)
  ];
  contains-annotations = λ c a f. refl;
}

abbrev config : Option String → Config
config deletion = record {
  finalizers = reloader_finalizer ∷ [];
  annotations = [];
  deletion_timestamp = deletion;
  spec = record { notification_sources = webhook_source "a" ∷ []; destinations_to_watch = [] };
}

abbrev pub api : Option String → ApiServer
api deletion = record { get = λ _. ok (config deletion); update = λ c. ok c; now = "now" }

abbrev reconciler : Reconciler
reconciler = record { listener_manager = manager; event_handler = new_event_handler }

-- `app` with one webhook source, from the start.
abbrev one_source : List NotificationSource
one_source = webhook_source "a" ∷ []

abbrev served : Manager
served = manages host ((app, some one_source) ∷ []) (new_manager (some new_webhook_server))

held : lookup "Webhook-f00" (own_at app served) ≡ some running
unfolding manage_listeners interrupted add_until panics_on begins scope_of put_scope check_sources
    reconcile visit remove_unwanted add_new create_listener webhook_config stop_listener
    desired_from generate_listener_key config_of validate validate_unique_webhook_path_suffixes
    validate_from route_key register unregister lookup insert delete count_webhooks validate_step
held = refl

dropped : manage_listeners host app (some []) served ≡ ok (manage host (app, some []) served)
unfolding manage_listeners interrupted add_until panics_on begins scope_of put_scope check_sources
    reconcile visit remove_unwanted add_new create_listener webhook_config stop_listener
    desired_from generate_listener_key config_of validate validate_unique_webhook_path_suffixes
    validate_from route_key register unregister lookup insert delete count_webhooks validate_step
dropped = refl

manages-keeps_example :
    (lookup "Webhook-f00" (own_at app (manage host (app, some []) served))
      ≡ (if is_some (lookup "Webhook-f00" (desired_from host [] [])) then some running else none))
    × ((manage host (app, some []) served).stopped 0
        ≡ (if is_some (lookup "Webhook-f00" (desired_from host [] [])) then false else true))
manages-keeps_example =
    manages-keeps host (some new_webhook_server) ((app, some one_source) ∷ []) app (some [])
      (manage host (app, some []) served) "Webhook-f00" running covers dropped held

-- The Config is reconciled once, before it is deleted.
abbrev history : List (ApiServer × NamespacedName)
history = (api none, app) ∷ []

reached-held :
    lookup "Webhook-f00"
      (own_at app (reached host util (some new_webhook_server) history).listener_manager)
    ≡ some running
unfolding reconcile_config is_resource_new manage_listeners interrupted add_until panics_on begins
    scope_of put_scope check_sources reconcile visit remove_unwanted add_new create_listener
    webhook_config stop_listener desired_from generate_listener_key config_of validate
    validate_unique_webhook_path_suffixes validate_from route_key register unregister lookup insert
    delete count_webhooks validate_step
reached-held = refl

abbrev now_reached : Reconciler
now_reached = reached host util (some new_webhook_server) history

reconciles-finalizer_example :
    All
      (HasFinalizer host util
        (api (some "t"))
        app
        (reached host util (some new_webhook_server) history))
      (reconcile_config host util
        (api (some "t"))
        app
        (reached host util (some new_webhook_server) history)).updates
    ⊎ ((lookup "Webhook-f00" (
            own_at app
              (reconcile_config host util
                (api (some "t"))
                app
                (reached host util (some new_webhook_server) history)).state.listener_manager)
          ≡ none)
        × ((reconcile_config host util (api (some "t")) app (
                reached host util (some new_webhook_server) history)).state.listener_manager.stopped
              0
            ≡ true))
reconciles-finalizer_example =
    reconciles-finalizer host util laws covers (some new_webhook_server) history (api (some "t"))
      app "Webhook-f00" running reached-held

reconciles-others_example :
    (lookup app (after host util (api none) other_app now_reached laws).listeners
      ≡ lookup app now_reached.listener_manager.listeners)
    × ((after host util (api none) other_app now_reached laws).stopped 0 ≡ false)
reconciles-others_example =
    reconciles-others host util laws (some new_webhook_server) history (api none) other_app app
      "Webhook-f00" running (λ e. apart (sym e)) reached-held

calm : AreCalm host util (api none) app reconciler (config none)
unfolding panics_on
calm = (refl, tt)

reconcile_config-IsServed_example :
    IsServed host util
      (api none)
      app
      reconciler
      (config none)
      (reconcile_config host util (api none) app reconciler)
unfolding webhook_suffixes
reconcile_config-IsServed_example =
    reconcile_config-IsServed host util (api none) app reconciler (config none) covers refl refl
      (rw (eq_refl reloader_finalizer) refl) (tt, tt) calm refl

abbrev fresh : Reconciler
fresh = record {
  listener_manager = record {
    listeners = [];
    server = some new_webhook_server;
    stopped = λ _. false;
    next_id = 0;
  };
  event_handler = new_event_handler;
}

started :
    is_some (
      lookup "Webhook-f00"
        (own_at app (reconcile_config host util (api none) app fresh).state.listener_manager))
    ≡ true
unfolding reconcile_config is_resource_new update_destinations_to_watch manage_listeners scope_of
    put_scope check_sources reconcile visit remove_unwanted stop_listener add_new create_listener
    count_webhooks webhook_config desired_from generate_listener_key config_of validate
    validate_unique_webhook_path_suffixes validate_from validate_step suffix_of trim_space trim_left
    trim_right lookup insert delete register route_key interrupted add_until panics_on
started = refl

reconcile_config-starts_example : IsLive host util (api none) app fresh
unfolding lookup
reconcile_config-starts_example =
    reconcile_config-starts host util (api none) app fresh laws covers "Webhook-f00" refl
      (λ e. absurd (cc (sym (ap is_some e) ∙ started)))

keep : KeepLaws util
keep = record {
  keeps-deletion =
      λ c f. elim (Bool-cases (contains c f)) [ inl has ↦ rw has refl | inr new ↦ rw new refl ];
}

abbrev unmarked : Config
unmarked = record (config none) { finalizers = [] }

reconcile_config-settles_example :
    ((reconciled host util app "now"
        (after_call host util app "now" (after_call host util app "now" unmarked fresh) reconciler)
        fresh).updates
      ≡ [])
    × IsQuiet host util app "now"
        (after_call host util app "now" (after_call host util app "now" unmarked fresh) reconciler)
reconcile_config-settles_example =
    reconcile_config-settles host util app "now" laws keep unmarked fresh reconciler fresh refl

abbrev managing : List Call
managing = (app, sources) ∷ (other_app, sources) ∷ (app, some []) ∷ []

manager-IsSound_example : IsSound (manages host managing (new_manager (some new_webhook_server)))
manager-IsSound_example = manager-IsSound host (some new_webhook_server) managing
