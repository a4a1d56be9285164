-- ===== src/Controller/History.antt =====
-- What holds after any reconciliations of any Configs, from the start of the program.
use reloader.Prelude.{
  String, true, false, ◌≡◌, ◌≢◌, ap, ◌∙◌, ◌⊎◌, sym, subst, Option, none, some, List, [], ◌∷◌,
  string_eq, lookup, All,
}
use reloader.Webhook.Server.{WebhookServer}
use reloader.Handler.Processor.{new_event_handler}
use reloader.Manager.{NamespacedName, name_eq, Host, Listener, own_of}
use reloader.Manager.Reconcile.{Covers}
use reloader.Manager.Manages.{own_at}
use reloader.Manager.Sound.{
  IsSound, new_manager, new_manager-IsSound, manage_listeners-IsSound, left_by-IsSound,
}
use reloader.Manager.History.{IsAlone-of_IsSound}
use reloader.Controller.{ControllerUtil, ApiServer, Reconciler, reconcile_config}
use reloader.Controller.Reconcile.{
  FinalizerLaws, HasFinalizer, idle, torn_down, managed, interrupted, reconcile_config-Step,
}
use reloader.Controller.Safety.{after, reconcile_config-finalizer, reconcile_config-others}

-- A call of `Reconcile`: what the API server answers then, and for which Config.
abbrev pub Call : Type 0
Call = ApiServer × NamespacedName

abbrev pub new_reconciler : Option WebhookServer → Reconciler
new_reconciler server = record {
  listener_manager = new_manager server;
  event_handler = new_event_handler;
}

module _ (host : Host) (util : ControllerUtil) where
  abbrev pub reconciles : List Call → Reconciler → Reconciler
  reconciles [] r = r
  reconciles ((api, req) ∷ cs) r = reconciles cs (reconcile_config host util api req r).state

  -- The state after reconciliations from the start of the program.
  abbrev pub reached : Option WebhookServer → List Call → Reconciler
  reached server cs = reconciles cs (new_reconciler server)

  module _ (laws : FinalizerLaws util) where
    reconcile_config-IsSound :
        (api : ApiServer) (req : NamespacedName) (r : Reconciler)
        → IsSound r.listener_manager
        → IsSound (reconcile_config host util api req r).state.listener_manager
    reconcile_config-IsSound api req r sound =
        elim (reconcile_config-Step host util api req r laws) [
          | idle e _ ↦ subst IsSound (sym e) sound
          | managed sources _ e _ ↦ manage_listeners-IsSound host req sources _ _ e sound
          | interrupted sources _ e _ ↦ left_by-IsSound host req sources _ _ e sound
          | torn_down sources _ e ↦ manage_listeners-IsSound host req sources _ _ e sound
        ]

    reconciles-IsSound :
        (cs : List Call) (r : Reconciler)
        → IsSound r.listener_manager
        → IsSound (reconciles cs r).listener_manager
    reconciles-IsSound [] r sound = sound
    reconciles-IsSound ((api, req) ∷ cs) r sound =
        reconciles-IsSound cs (reconcile_config host util api req r).state
          (reconcile_config-IsSound api req r sound)

    -- After any reconciliations from the start of the program, the next one keeps the entries of every
    -- other Config in the manager, and none of the listeners in them has been stopped.
    pub reconciles-others :
        (server : Option WebhookServer) (cs : List Call) (api : ApiServer) (req m : NamespacedName)
        (k : String) (l : Listener)
        → m ≢ req
        → lookup k (own_at m (reached server cs).listener_manager) ≡ some l
        → (lookup m (after host util api req (reached server cs) laws).listeners
            ≡ lookup m (reached server cs).listener_manager.listeners)
          × ((after host util api req (reached server cs) laws).stopped l.id ≡ false)
    reconciles-others server cs api req m k l ne found =
        let r = reached server cs in
        let same = reconcile_config-others host util api req r laws m ne in
        let sound =
          reconcile_config-IsSound api req r
            (reconciles-IsSound cs (new_reconciler server) (new_manager-IsSound server)) in
        (same, (sound.live m k l (ap (λ o. lookup k (own_of o)) same ∙ found)).1)

    -- After any reconciliations from the start of the program, whatever the API server answered: the
    -- next one sends an object without the finalizer only once the listeners of its Config are torn
    -- down. That is, every object that it sends has the finalizer, or any listener that the Config
    -- had is gone from the manager and was stopped. That a range visits every key of a map is a
    -- hypothesis, and so are controller-runtime's laws of finalizers.
    pub reconciles-finalizer :
        Covers host
        → (server : Option WebhookServer) (cs : List Call) (api : ApiServer) (req : NamespacedName)
          (k : String) (l : Listener)
        → lookup k (own_at req (reached server cs).listener_manager) ≡ some l
        → All
            (HasFinalizer host util api req (reached server cs))
            (reconcile_config host util api req (reached server cs)).updates
          ⊎ ((lookup k (own_at req (after host util api req (reached server cs) laws)) ≡ none)
              × ((after host util api req (reached server cs) laws).stopped l.id ≡ true))
    reconciles-finalizer covers server cs api req k l found =
        let r = reached server cs in
        let sound = reconciles-IsSound cs (new_reconciler server) (new_manager-IsSound server) in
        reconcile_config-finalizer host util api req r laws covers k l found
          (IsAlone-of_IsSound r.listener_manager req k l sound found)
