-- ===== src/Manager/Manages.antt =====
-- `ManageListeners` as a whole: what it does for the Config it is called for, and for the others.
use reloader.Prelude.{
  String, true, ◌≡◌, ◌≢◌, ◌↔◌, inl, inr, refl, sym, ◌∙◌, ap, arith, Option, none, some, List, [],
  ◌∷◌, ok, err, if◌then◌else◌, Map, string_eq, lookup, lookup-insert, lookup-delete, is_some,
  Option-cases, Result-cases, Distinct, beq_refl, ok-injective,
}
use reloader.Api.{NotificationSource}
use reloader.Api.Validation.{webhook_suffixes}
use reloader.Api.Validation.Unique.{validate-eq-ok_iff}
use reloader.Manager.{
  NamespacedName, name_eq, same_name_iff, Host, Listener, Scope, Manager, panicked, interrupted,
  leave_scope, reconcile, own_of, put_own, desired_from, scope_of, put_scope, check_sources,
  sources_of, manage_listeners,
}
use reloader.Manager.Stops.{IsAlone}
use reloader.Manager.Reconcile.{
  Covers, runs_at, reconcile-runs, reconcile-stops, own-reconcile_there, own-reconcile_unwanted,
}

-- The listeners of a Config, by key.
abbrev pub own_at : NamespacedName → Manager → Map String Listener
own_at manifest lm = own_of (lookup manifest lm.listeners)

put_own_self :
    (manifest : NamespacedName) (own : Map String Listener)
    (all : Map NamespacedName (Map String Listener))
    → own_of (lookup manifest (put_own manifest own all)) ≡ own
put_own_self manifest [] all = rw (lookup-delete, beq_refl manifest)
put_own_self manifest (x ∷ xs) all = rw (lookup-insert, beq_refl manifest)

pub put_own_other :
    (manifest m : NamespacedName) (own : Map String Listener)
    (all : Map NamespacedName (Map String Listener))
    → m ≢ manifest
    → lookup m (put_own manifest own all) ≡ lookup m all
put_own_other manifest m [] all ne =
    ground (arith, lookup-delete manifest m all, same_name_iff manifest m)
put_own_other manifest m (x ∷ xs) all ne =
    ground (arith, lookup-insert manifest m (x ∷ xs) all, same_name_iff manifest m)

module _ (host : Host) (manifest : NamespacedName) (sources : Option (List NotificationSource))
    (lm : Manager) where
  abbrev pub desired : Map String NotificationSource
  desired = desired_from host [] (sources_of host sources)

  abbrev pub after : Manager
  after = put_scope host manifest (reconcile host manifest desired (scope_of host manifest lm)) lm

  -- The state in which a panic stops the loops, if there is one.
  abbrev pub stopped_in : Option Scope
  stopped_in = interrupted host manifest desired (scope_of host manifest lm)

  pub managed : (lm' : Manager) → manage_listeners host manifest sources lm ≡ ok lm' → lm' ≡ after
  unfolding manage_listeners
  managed lm' e = elim (Result-cases (check_sources host sources)) [
    | inr (x, bad) ↦ absurd (cc (rw (bad, manage_listeners) at e))
    | inl (_, fine) ↦ elim (Option-cases stopped_in) [
      | inl calm ↦ sym (ok-injective (rw (fine, calm, manage_listeners) at e))
      | inr (st, stops) ↦ absurd (cc (rw (fine, stops, manage_listeners) at e))
    ]
  ]

  -- A call that panics leaves what the loops had done.
  pub left_by :
      (lm' : Manager)
      → manage_listeners host manifest sources lm ≡ err (panicked lm')
      → (st : Scope) × ((stopped_in ≡ some st) × (lm' ≡ leave_scope host manifest st lm))
  unfolding manage_listeners
  left_by lm' e = elim (Result-cases (check_sources host sources)) [
    | inr (x, bad) ↦ absurd (cc (rw (bad, manage_listeners) at e))
    | inl (_, fine) ↦ elim (Option-cases stopped_in) [
      | inl calm ↦ absurd (cc (rw (fine, calm, manage_listeners) at e))
      | inr (st, stops) ↦ (st, (stops, cc (rw (fine, stops, manage_listeners) at e)))
    ]
  ]

  pub own-after :
      own_at manifest after ≡ (reconcile host manifest desired (scope_of host manifest lm)).own
  unfolding put_scope
  own-after =
      put_own_self manifest (reconcile host manifest desired (scope_of host manifest lm)).own
        lm.listeners

  -- After a successful call a listener of the Config runs at a key exactly if a source with that key
  -- is desired, and the listener ran before or can be created and started.
  pub manage_listeners-runs :
      (lm' : Manager) (k : String)
      → Covers host
      → manage_listeners host manifest sources lm ≡ ok lm'
      → is_some (lookup k (own_at manifest lm'))
        ≡ runs_at host (is_some lm.server) (lookup k desired) (lookup k (own_at manifest lm))
  unfolding scope_of
  manage_listeners-runs lm' k covers e =
      rw (managed lm' e, own-after)
        (reconcile-runs host covers manifest desired (scope_of host manifest lm) k)

  -- A successful call keeps a listener that ran before, the same one and not stopped, exactly if a
  -- source with its key is desired; else it stops it and drops its entry. That no other listener of
  -- the Config has the same identity is a hypothesis.
  pub manage_listeners-keeps :
      (lm' : Manager) (k : String) (l : Listener)
      → Covers host
      → manage_listeners host manifest sources lm ≡ ok lm'
      → lookup k (own_at manifest lm) ≡ some l
      → IsAlone k l (own_at manifest lm)
      → (lookup k (own_at manifest lm') ≡ (if is_some (lookup k desired) then some l else none))
        × (lm'.stopped l.id ≡ (if is_some (lookup k desired) then lm.stopped l.id else true))
  unfolding scope_of put_scope
  manage_listeners-keeps lm' k l covers e found alone =
      let st = scope_of host manifest lm in
      (
        ap (λ (x : Manager). lookup k (own_at manifest x)) (managed lm' e)
            ∙ ap (lookup k) own-after
            ∙ elim (Option-cases (lookup k desired)) [
              | inl d ↦ rw d (own-reconcile_unwanted host covers manifest desired st k d)
              | inr (source, d) ↦
                  rw d (own-reconcile_there host covers manifest desired st k d found)
            ],
        ap (λ (x : Manager). x.stopped l.id) (managed lm' e)
            ∙ reconcile-stops host covers manifest desired st k l found alone,
      )

  -- A successful call leaves the listeners of every other Config as they are.
  pub manage_listeners-others :
      (lm' : Manager) (m : NamespacedName)
      → manage_listeners host manifest sources lm ≡ ok lm'
      → m ≢ manifest
      → lookup m lm'.listeners ≡ lookup m lm.listeners
  unfolding put_scope
  manage_listeners-others lm' m e ne =
      ap (λ (x : Manager). lookup m x.listeners) (managed lm' e)
      ∙ put_own_other manifest m (reconcile host manifest desired (scope_of host manifest lm)).own
          lm.listeners ne

  -- So does a call that panics.
  pub left-others :
      (lm' : Manager) (m : NamespacedName)
      → manage_listeners host manifest sources lm ≡ err (panicked lm')
      → m ≢ manifest
      → lookup m lm'.listeners ≡ lookup m lm.listeners
  unfolding leave_scope
  left-others lm' m e ne =
      let (st, (_, is)) = left_by lm' e in
      ap (λ (x : Manager). lookup m x.listeners) is
      ∙ ground (arith, lookup-insert manifest m st.own lm.listeners, same_name_iff manifest m)

  managed_iff :
      ((lm' : Manager) × (manage_listeners host manifest sources lm ≡ ok lm'))
      ↔ ((check_sources host sources ≡ ok tt) × (stopped_in ≡ none))
  unfolding manage_listeners
  managed_iff = (
    (λ (lm', e). elim (Result-cases (check_sources host sources)) [
      | inr (x, bad) ↦ absurd (cc (rw (bad, manage_listeners) at e))
      | inl (_, fine) ↦ elim (Option-cases stopped_in) [
        | inl calm ↦ (fine, calm)
        | inr (st, stops) ↦ absurd (cc (rw (fine, stops, manage_listeners) at e))
      ]
    ]),
    (λ (fine, calm). (after, rw (fine, calm, manage_listeners) refl)),
  )

-- A call for a list of sources succeeds exactly if no two of its webhook sources have the same
-- trimmed path suffix and no panic stops its loops.
pub manage_listeners-ok_iff :
    (host : Host) (manifest : NamespacedName) (sources : List NotificationSource) (lm : Manager)
    → ((lm' : Manager) × (manage_listeners host manifest (some sources) lm ≡ ok lm'))
      ↔ (Distinct (webhook_suffixes sources) × (stopped_in host manifest (some sources) lm ≡ none))
unfolding check_sources
manage_listeners-ok_iff host manifest sources lm =
    let (to, from) = managed_iff host manifest (some sources) lm in
    let (there, back) =
      validate-eq-ok_iff (record { notification_sources = sources; destinations_to_watch = [] }) in
    ((λ h. (there (to h).0, (to h).1)), (λ (d, calm). from (back d, calm)))
