-- ===== src/Controller/Reconcile.antt =====
-- What a reconciliation does to the listeners and to the Config.
use reloader.Prelude.{
  String, true, ◌==◌, ◌≡◌, inl, inr, refl, ap, ◌∙◌, Option, none, some, List, [], ◌∷◌, ok, err, Map,
  string_eq, lookup, insert, is_some, Bool-cases, Option-cases, Result-cases, All,
}
use reloader.Api.{NotificationSource}
use reloader.Secrets.{not_found, failed}
use reloader.Manager.{
  NamespacedName, name_eq, Host, invalid, panicked, manage_listeners, sources_of,
}
use reloader.Manager.Calm.{empty-calm}
use reloader.Controller.{
  Config, ControllerUtil, ApiServer, Reconciler, Reconciled, reloader_finalizer, is_resource_new,
  or_empty, processed_annotation, annotated, with_managed, manage, finalize, adopt, refresh,
  initialize, reconcile_config,
}

-- What controller-runtime documents of its functions on finalizers: an added finalizer is there,
-- and annotations do not matter.
pub record FinalizerLaws (util : ControllerUtil) : Type 0 where
  pub contains-add :
      (c : Config) (f : String) → util.contains_finalizer (util.add_finalizer c f) f ≡ true
  pub contains-annotations :
      (c : Config) (a : Map String String) (f : String)
      → util.contains_finalizer (record c { annotations = a }) f ≡ util.contains_finalizer c f

module _ (host : Host) (util : ControllerUtil) (api : ApiServer) (req : NamespacedName)
    (r : Reconciler) where
  abbrev pub HasFinalizer : Config → Type 0
  HasFinalizer c = util.contains_finalizer c reloader_finalizer ≡ true

  -- The Config is there, is not being deleted, and has the finalizer.
  abbrev pub IsLive : Type 0
  IsLive =
      (cfg : Config) × ((api.get req ≡ ok cfg)
        × ((cfg.deletion_timestamp ≡ none) × HasFinalizer cfg))

  -- The ways in which a call treats the listeners.
  pub data Step (out : Reconciled) : Type 0 where
    idle : out.state.listener_manager ≡ r.listener_manager → All HasFinalizer out.updates → Step out
    torn_down :
        (sources : Option (List NotificationSource))
        → sources_of host sources ≡ []
        → manage_listeners host req sources r.listener_manager ≡ ok out.state.listener_manager
        → Step out
    managed :
        (sources : Option (List NotificationSource))
        → IsLive
        → manage_listeners host req sources r.listener_manager ≡ ok out.state.listener_manager
        → All HasFinalizer out.updates
        → Step out
    interrupted :
        (sources : Option (List NotificationSource))
        → IsLive
        → manage_listeners host req sources r.listener_manager
          ≡ err (panicked out.state.listener_manager)
        → All HasFinalizer out.updates
        → Step out

  finalize-Step : (cfg : Config) → Step (finalize host util api req cfg r)
  finalize-Step cfg = elim (Result-cases (manage_listeners host req (some []) r.listener_manager)) [
    | inl (lm, e) ↦ rw (e, finalize) (torn_down (some []) refl e)
    | inr (invalid dups, e) ↦ rw (e, finalize, with_managed) (idle refl tt)
    | inr (panicked lm, e) ↦ absurd (empty-calm host req (some []) r.listener_manager lm refl e)
  ]

  missing-Step : Step (manage host util api req none [] r)
  missing-Step = elim (Result-cases (manage_listeners host req none r.listener_manager)) [
    | inl (lm, e) ↦ rw (e, manage, with_managed) (torn_down none refl e)
    | inr (invalid dups, e) ↦ rw (e, manage, with_managed) (idle refl tt)
    | inr (panicked lm, e) ↦ absurd (empty-calm host req none r.listener_manager lm refl e)
  ]

  module _ (laws : FinalizerLaws util) where
    adopt-Step : (cfg : Config) → Step (adopt host util api cfg r)
    adopt-Step cfg = idle refl (laws.contains-add cfg reloader_finalizer, tt)

    refresh-Step :
        (updates : List Config) (cfg : Config)
        → IsLive
        → All HasFinalizer updates
        → Step (refresh host util api req updates cfg r)
    refresh-Step updates cfg live sent =
        let sources = some cfg.spec.notification_sources in
        elim (Result-cases (manage_listeners host req sources r.listener_manager)) [
          | inl (lm, e) ↦ rw (e, refresh, manage, with_managed) (managed sources live e sent)
          | inr (invalid dups, e) ↦ rw (e, refresh, manage, with_managed) (idle refl sent)
          | inr (panicked lm, e) ↦
              rw (e, refresh, manage, with_managed) (interrupted sources live e sent)
        ]

    annotated-HasFinalizer :
        (cfg : Config) → HasFinalizer cfg → HasFinalizer (annotated host util api cfg)
    annotated-HasFinalizer cfg h =
        laws.contains-annotations cfg (insert processed_annotation api.now cfg.annotations)
          reloader_finalizer
        ∙ h

    initialize-Step :
        (cfg : Config)
        → api.get req ≡ ok cfg
        → cfg.deletion_timestamp ≡ none
        → HasFinalizer cfg
        → Step (initialize host util api req cfg r)
    initialize-Step cfg got alive has =
        let live : IsLive = (cfg, (got, (alive, has))) in
        elim (Bool-cases (is_resource_new cfg)) [
          | inr old ↦ rw (old, initialize) (refresh-Step [] cfg live tt)
          | inl new ↦
              elim (Bool-cases (or_empty (lookup processed_annotation cfg.annotations) == "")) [
                | inr marked ↦ rw (new, marked, initialize) (refresh-Step [] cfg live tt)
                | inl unmarked ↦ elim (Result-cases (api.update (annotated host util api cfg))) [
                  | inr (x, refused) ↦
                      rw (new, unmarked, refused, initialize)
                        (idle refl (annotated-HasFinalizer cfg has, tt))
                  | inl (answer, taken) ↦
                      rw (new, unmarked, taken, initialize)
                        (refresh-Step (annotated host util api cfg ∷ []) answer live
                          (annotated-HasFinalizer cfg has, tt))
                ]
              ]
        ]

    pub reconcile_config-Step : Step (reconcile_config host util api req r)
    unfolding reconcile_config
    reconcile_config-Step = elim (Result-cases (api.get req)) [
      | inr (not_found, e) ↦ rw (e, reconcile_config) missing-Step
      | inr (failed m, e) ↦ rw (e, reconcile_config) (idle refl tt)
      | inl (cfg, e) ↦ elim (Bool-cases (util.contains_finalizer cfg reloader_finalizer)) [
        | inr lacks ↦ elim (Option-cases cfg.deletion_timestamp) [
          | inl alive ↦ rw (e, lacks, ap is_some alive, reconcile_config) (adopt-Step cfg)
          | inr (t, dying) ↦ rw (e, lacks, ap is_some dying, reconcile_config) (adopt-Step cfg)
        ]
        | inl has ↦ elim (Option-cases cfg.deletion_timestamp) [
          | inl alive ↦
              rw (e, has, ap is_some alive, reconcile_config) (initialize-Step cfg e alive has)
          | inr (t, dying) ↦ rw (e, has, ap is_some dying, reconcile_config) (finalize-Step cfg)
        ]
      ]
    ]
