-- ===== src/Controller/Live.antt =====
-- A reconciliation of a Config that has the finalizer and is not being deleted.
use reloader.Prelude.{
  String, true, ◌==◌, ◌≡◌, inl, inr, refl, ap, none, some, List, [], ◌∷◌, ok, string_eq, lookup,
  All, false, is_some, Bool-cases, Distinct,
}
use reloader.Api.Validation.{webhook_suffixes}
use reloader.Manager.{NamespacedName, name_eq, Host, panics_on, desired_from}
use reloader.Manager.Calm.{stopped_in-none}
use reloader.Manager.Reconcile.{Covers, runs_at}
use reloader.Manager.Manages.{own_at, manage_listeners-runs, manage_listeners-ok_iff}
use reloader.Handler.Processor.{update_destinations_to_watch}
use reloader.Controller.{
  Config, ControllerUtil, ApiServer, Reconciler, Reconciled, reloader_finalizer, is_resource_new,
  or_empty, processed_annotation, annotated, with_managed, manage, refresh, initialize,
  reconcile_config,
}

module _ (host : Host) (util : ControllerUtil) (api : ApiServer) (req : NamespacedName)
    (r : Reconciler) (cfg : Config) where
  -- The call succeeds, the destinations are the Config's, and its listeners are those that are desired
  -- and ran before or can be created and started.
  abbrev pub IsServed : Reconciled → Type 0
  IsServed out =
      (out.error ≡ none)
      × ((out.state.event_handler.cache ≡ cfg.spec.destinations_to_watch)
          × ((k : String)
              → is_some (lookup k (own_at req out.state.listener_manager))
                ≡ runs_at host (is_some r.listener_manager.server)
                    (lookup k (desired_from host [] cfg.spec.notification_sources))
                    (lookup k (own_at req r.listener_manager))))

  -- No source of the Config has a listener whose creation or start panics.
  abbrev pub AreCalm : Type 0
  AreCalm = All (λ s. panics_on host s ≡ false) cfg.spec.notification_sources

  refresh-IsServed :
      (updates : List Config)
      → Covers host
      → Distinct (webhook_suffixes cfg.spec.notification_sources)
      → AreCalm
      → IsServed (refresh host util api req updates cfg r)
  unfolding update_destinations_to_watch
  refresh-IsServed updates covers distinct calm =
      let sources = cfg.spec.notification_sources in
      let (lm, e) =
        (manage_listeners-ok_iff host req sources r.listener_manager).1
          (distinct, stopped_in-none host req (some sources) r.listener_manager calm) in
      rw (e, refresh, manage, with_managed)
        (
          refl,
          (
            refl,
            λ k. manage_listeners-runs host req (some sources) r.listener_manager lm k covers e,
          ),
        )

  initialize-IsServed :
      Covers host
      → Distinct (webhook_suffixes cfg.spec.notification_sources)
      → AreCalm
      → api.update (annotated host util api cfg) ≡ ok (annotated host util api cfg)
      → IsServed (initialize host util api req cfg r)
  initialize-IsServed covers distinct calm taken = elim (Bool-cases (is_resource_new cfg)) [
    | inr old ↦ rw (old, initialize) (refresh-IsServed [] covers distinct calm)
    | inl new ↦ elim (Bool-cases (or_empty (lookup processed_annotation cfg.annotations) == "")) [
      | inr marked ↦ rw (new, marked, initialize) (refresh-IsServed [] covers distinct calm)
      | inl unmarked ↦
          rw (new, unmarked, taken, initialize)
            (refresh-IsServed (annotated host util api cfg ∷ []) covers distinct calm)
    ]
  ]

  -- A reconciliation of a Config that is there, has the finalizer, is not being deleted, and has no
  -- two webhook sources with the same path suffix and no source whose listener panics when it is
  -- created or started succeeds, provided that the API server takes the annotated object as it is: the destinations of the Config are the ones that events are handled
  -- for, and the manager holds a listener at a key exactly if a source with that key is desired, and the listener
  -- ran before or can be created and started.
  pub reconcile_config-IsServed :
      Covers host
      → api.get req ≡ ok cfg
      → cfg.deletion_timestamp ≡ none
      → util.contains_finalizer cfg reloader_finalizer ≡ true
      → Distinct (webhook_suffixes cfg.spec.notification_sources)
      → AreCalm
      → api.update (annotated host util api cfg) ≡ ok (annotated host util api cfg)
      → IsServed (reconcile_config host util api req r)
  unfolding reconcile_config
  reconcile_config-IsServed covers got alive has distinct calm taken =
      rw (got, has, ap is_some alive, reconcile_config)
        (initialize-IsServed covers distinct calm taken)
