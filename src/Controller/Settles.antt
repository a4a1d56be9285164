-- ===== src/Controller/Settles.antt =====
-- Reconciliations of one Config, one after another, against a server that stores what it is sent.
use reloader.Prelude.{
  subst, String, true, false, ◌==◌, ◌≡◌, inl, inr, refl, sym, ap, ◌∙◌, none, some, List, [], ◌∷◌,
  ok, string_eq, lookup, insert, lookup-insert, is_some, Bool-cases, Option-cases, Result-cases,
}
use reloader.Manager.{NamespacedName, Host, invalid, panicked, manage_listeners}
use reloader.Controller.{
  Config, ControllerUtil, ApiServer, Reconciler, Reconciled, reloader_finalizer,
  processed_annotation, is_resource_new, or_empty, with_managed, manage, annotated, refresh,
  initialize, reconcile_config,
}
use reloader.Controller.Reconcile.{FinalizerLaws}

-- Adding a finalizer leaves the time of deletion as it is.
pub record KeepLaws (util : ControllerUtil) : Type 0 where
  pub keeps-deletion :
      (c : Config) (f : String) → (util.add_finalizer c f).deletion_timestamp ≡ c.deletion_timestamp

-- A server that has the Config and takes every update.
abbrev pub server_with : String → Config → ApiServer
server_with now cfg = record { get = λ _. ok cfg; update = λ c. ok c; now = now }

-- The object that the server has after a call.
abbrev pub stored : Config → List Config → Config
stored cfg [] = cfg
stored cfg (c ∷ cs) = stored c cs

module _ (host : Host) (util : ControllerUtil) (req : NamespacedName) (now : String) where
  abbrev pub reconciled : Config → Reconciler → Reconciled
  reconciled cfg r = reconcile_config host util (server_with now cfg) req r

  abbrev pub after_call : Config → Reconciler → Config
  after_call cfg r = stored cfg (reconciled cfg r).updates

  abbrev IsAlive : Config → Type 0
  IsAlive cfg = cfg.deletion_timestamp ≡ none

  abbrev Has : Config → Type 0
  Has cfg = util.contains_finalizer cfg reloader_finalizer ≡ true

  abbrev pub IsQuiet : Config → Type 0
  IsQuiet cfg = IsAlive cfg × (Has cfg × (is_resource_new cfg ≡ false))

  refresh-updates :
      (sent : List Config) (cfg cfg' : Config) (r : Reconciler)
      → (refresh host util (server_with now cfg) req sent cfg' r).updates ≡ sent
  refresh-updates sent cfg cfg' r =
      elim (Result-cases
        (manage_listeners host req (some cfg'.spec.notification_sources) r.listener_manager)) [
          | inl (lm, e) ↦ rw (e, refresh, manage, with_managed) refl
          | inr (invalid dups, e) ↦ rw (e, refresh, manage, with_managed) refl
          | inr (panicked lm, e) ↦ rw (e, refresh, manage, with_managed) refl
        ]

  reconciled-live :
      (cfg : Config) (r : Reconciler)
      → IsAlive cfg
      → Has cfg
      → reconciled cfg r ≡ initialize host util (server_with now cfg) req cfg r
  unfolding reconcile_config
  reconciled-live cfg r alive has = rw (has, ap is_some alive, reconcile_config) refl

  reconciled-new :
      (cfg : Config) (r : Reconciler)
      → util.contains_finalizer cfg reloader_finalizer ≡ false
      → (reconciled cfg r).updates ≡ util.add_finalizer cfg reloader_finalizer ∷ []
  unfolding reconcile_config
  reconciled-new cfg r lacks = elim (Option-cases cfg.deletion_timestamp) [
    | inl e ↦ rw (lacks, ap is_some e, reconcile_config) refl
    | inr (t, e) ↦ rw (lacks, ap is_some e, reconcile_config) refl
  ]

  quiet-updates : (cfg : Config) (r : Reconciler) → IsQuiet cfg → (reconciled cfg r).updates ≡ []
  quiet-updates cfg r (alive, (has, old)) =
      ap (λ (o : Reconciled). o.updates) (reconciled-live cfg r alive has)
      ∙ rw (old, initialize) (refresh-updates [] cfg cfg r)

  module _ (laws : FinalizerLaws util) (keep : KeepLaws util) where
    annotated-IsQuiet :
        (cfg : Config)
        → IsAlive cfg
        → Has cfg
        → IsQuiet (annotated host util (server_with now cfg) cfg)
    unfolding is_resource_new
    annotated-IsQuiet cfg alive has = (
      alive,
      (
        laws.contains-annotations cfg (insert processed_annotation now cfg.annotations)
              reloader_finalizer
            ∙ has,
        rw (lookup-insert processed_annotation processed_annotation now cfg.annotations) refl,
      ),
    )

    missing_of_new :
        (cfg : Config)
        → is_resource_new cfg ≡ true
        → lookup processed_annotation cfg.annotations ≡ none
    unfolding is_resource_new
    missing_of_new cfg new = elim (Option-cases (lookup processed_annotation cfg.annotations)) [
      | inl gone ↦ gone
      | inr (v, there) ↦ absurd (cc (rw (there, is_resource_new) at new))
    ]

    updates-new :
        (cfg : Config) (r : Reconciler)
        → is_resource_new cfg ≡ true
        → (initialize host util (server_with now cfg) req cfg r).updates
          ≡ annotated host util (server_with now cfg) cfg ∷ []
    updates-new cfg r new =
        let cfg' = annotated host util (server_with now cfg) cfg in
        let empty : (or_empty (lookup processed_annotation cfg.annotations) == "") ≡ true =
          ap (λ o. or_empty o == "") (missing_of_new cfg new) in
        rw (new, empty, initialize) (refresh-updates (cfg' ∷ []) cfg cfg' r)

    live-IsQuiet :
        (cfg : Config) (r : Reconciler) → IsAlive cfg → Has cfg → IsQuiet (after_call cfg r)
    live-IsQuiet cfg r alive has = elim (Bool-cases (is_resource_new cfg)) [
      | inr old ↦
          subst IsQuiet (sym (ap (stored cfg) (quiet-updates cfg r (alive, (has, old)))))
            (alive, (has, old))
      | inl new ↦
          subst IsQuiet
            (sym (
              ap (stored cfg) (
                ap (λ (o : Reconciled). o.updates) (reconciled-live cfg r alive has)
                ∙ updates-new cfg r new)))
            (annotated-IsQuiet cfg alive has)
    ]

    IsQuiet-stays : (cfg : Config) (r : Reconciler) → IsQuiet cfg → IsQuiet (after_call cfg r)
    IsQuiet-stays cfg r q = subst IsQuiet (sym (ap (stored cfg) (quiet-updates cfg r q))) q

    -- A Config that is not being deleted settles: the third of three calls on it, and on what the
    -- server has after the calls before, sends nothing to the server, whatever the controller's state
    -- at each call; the Config then has the finalizer and the annotation. The server takes every
    -- update, and controller-runtime's functions obey their laws.
    pub reconcile_config-settles :
        (cfg : Config) (r₁ r₂ r₃ : Reconciler)
        → cfg.deletion_timestamp ≡ none
        → ((reconciled (after_call (after_call cfg r₁) r₂) r₃).updates ≡ [])
          × IsQuiet (after_call (after_call cfg r₁) r₂)
    reconcile_config-settles cfg r₁ r₂ r₃ alive =
        let quiet : IsQuiet (after_call (after_call cfg r₁) r₂) =
          elim (Bool-cases (util.contains_finalizer cfg reloader_finalizer)) [
            | inl has ↦ IsQuiet-stays (after_call cfg r₁) r₂ (live-IsQuiet cfg r₁ alive has)
            | inr lacks ↦
                let same = ap (stored cfg) (reconciled-new cfg r₁ lacks) in
                subst (λ c. IsQuiet (after_call c r₂)) (sym same)
                  (live-IsQuiet (util.add_finalizer cfg reloader_finalizer) r₂
                    (keep.keeps-deletion cfg reloader_finalizer ∙ alive)
                    (laws.contains-add cfg reloader_finalizer))
          ] in
        (quiet-updates (after_call (after_call cfg r₁) r₂) r₃ quiet, quiet)
