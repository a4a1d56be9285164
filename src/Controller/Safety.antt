-- ===== src/Controller/Safety.antt =====
-- What holds of the listeners after any reconciliation, whichever branch it takes.
use reloader.Prelude.{
  String, true, false, ◌≡◌, ◌≢◌, ◌⊎◌, inl, inr, refl, ap, ◌∙◌, Option, none, some, List, [], ok,
  string_eq, lookup, is_some, All,
}
use reloader.Api.{NotificationSource}
use reloader.Manager.{
  NamespacedName, name_eq, Host, Listener, Manager, manage_listeners, sources_of, desired_from,
}
use reloader.Manager.Stops.{IsAlone}
use reloader.Manager.Reconcile.{Covers}
use reloader.Manager.Manages.{
  own_at, manage_listeners-runs, manage_listeners-keeps, manage_listeners-others, left-others,
}
use reloader.Controller.{ControllerUtil, ApiServer, Reconciler, reconcile_config}
use reloader.Controller.Reconcile.{
  FinalizerLaws, HasFinalizer, IsLive, idle, torn_down, managed, interrupted, reconcile_config-Step,
}

none_of_not_some : (o : Option Listener) → is_some o ≡ false → o ≡ none
none_of_not_some none e = refl
none_of_not_some (some l) e = absurd (cc e)

module _ (host : Host) (covers : Covers host) (req : NamespacedName)
    (sources : Option (List NotificationSource)) (empty : sources_of host sources ≡ []) where
  own-none :
      (lm lm' : Manager) (k : String)
      → manage_listeners host req sources lm ≡ ok lm'
      → lookup k (own_at req lm') ≡ none
  unfolding desired_from lookup
  own-none lm lm' k e =
      none_of_not_some (lookup k (own_at req lm'))
        (rw empty at (manage_listeners-runs host req sources lm lm' k covers e))

  own-stopped :
      (lm lm' : Manager) (k : String) (l : Listener)
      → manage_listeners host req sources lm ≡ ok lm'
      → lookup k (own_at req lm) ≡ some l
      → IsAlone k l (own_at req lm)
      → lm'.stopped l.id ≡ true
  unfolding desired_from lookup
  own-stopped lm lm' k l e found alone =
      (rw empty at (manage_listeners-keeps host req sources lm lm' k l covers e found alone)).1

module _ (host : Host) (util : ControllerUtil) (api : ApiServer) (req : NamespacedName)
    (r : Reconciler) (laws : FinalizerLaws util) where
  -- The manager before a reconciliation, and after it.
  abbrev before : Manager
  before = r.listener_manager

  abbrev pub after : Manager
  after = (reconcile_config host util api req r).state.listener_manager

  -- A reconciliation sends an object without the finalizer to the API server only once the listeners
  -- of the Config are torn down: every object that it sends has the finalizer, or any listener that
  -- the Config had is gone from the manager and was stopped. That a range visits every key of a map
  -- is a hypothesis, and so are controller-runtime's laws of finalizers, and that no other listener
  -- of the Config has the same identity.
  pub reconcile_config-finalizer :
      Covers host
      → (k : String) (l : Listener) → lookup k (own_at req before) ≡ some l
      → IsAlone k l (own_at req before)
      → All (HasFinalizer host util api req r) (reconcile_config host util api req r).updates
        ⊎ ((lookup k (own_at req after) ≡ none) × (after.stopped l.id ≡ true))
  reconcile_config-finalizer covers k l found alone =
      elim (reconcile_config-Step host util api req r laws) [
        | idle _ sent ↦ inl sent
        | managed _ _ _ sent ↦ inl sent
        | interrupted _ _ _ sent ↦ inl sent
        | torn_down sources empty e ↦ inr (
          own-none host covers req sources empty before after k e,
          own-stopped host covers req sources empty before after k l e found alone,
        )
      ]

  -- A listener that runs after a reconciliation at a key where none ran before was started for a
  -- Config that is there, has the finalizer and is not being deleted.
  pub reconcile_config-starts :
      Covers host
      → (k : String) → lookup k (own_at req before) ≡ none
      → lookup k (own_at req after) ≢ none
      → IsLive host util api req r
  reconcile_config-starts covers k gone runs =
      elim (reconcile_config-Step host util api req r laws) [
        | idle e _ ↦ absurd (runs (ap (λ (m : Manager). lookup k (own_at req m)) e ∙ gone))
        | managed _ live _ _ ↦ live
        | interrupted _ live _ _ ↦ live
        | torn_down sources empty e ↦
            absurd (runs (own-none host covers req sources empty before after k e))
      ]

  -- A reconciliation leaves the listeners of every other Config as they are.
  pub reconcile_config-others :
      (m : NamespacedName) → m ≢ req → lookup m after.listeners ≡ lookup m before.listeners
  reconcile_config-others m ne = elim (reconcile_config-Step host util api req r laws) [
    | idle e _ ↦ ap (λ (x : Manager). lookup m x.listeners) e
    | managed sources _ e _ ↦ manage_listeners-others host req sources before after m e ne
    | interrupted sources _ e _ ↦ left-others host req sources before after m e ne
    | torn_down sources _ e ↦ manage_listeners-others host req sources before after m e ne
  ]
