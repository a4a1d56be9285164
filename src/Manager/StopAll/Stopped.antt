-- ===== src/Manager/StopAll/Stopped.antt =====
-- What `StopAll` leaves.
use reloader.Prelude.{
  ℕ, String, true, false, ◌≡◌, inl, inr, refl, sym, ap, subst, ◌∙◌, Option, none, some, List, [],
  ◌∷◌, map, Any, Map, string_eq, lookup, insert, lookup-insert, beq_refl, Bool-cases, Option-cases,
}
use reloader.Api.{NotificationSource}
use reloader.Manager.{
  NamespacedName, name_eq, same_name, same_name_iff, Host, Listener, Scope, Manager,
  remove_unwanted, visit, keys, own_of, scope_of,
}
use reloader.Manager.StopAll.{stop_own, stop_configs, stop_all}
use reloader.Manager.Loops.{Has-keys, own_removed_unwanted, own_removed_none}
use reloader.Manager.Stops.{stopped_stays, stopped_unwanted}
use reloader.Manager.Reconcile.{Covers}
use reloader.Manager.Manages.{own_at}

module _ (host : Host) (covers : Covers host) where
  -- Stopping a Config's listeners is removing all that are not in the empty map of desired sources.
  stop_own-visit :
      (ks : List String) (st : Scope) (errs : List NotificationSource)
      → (stop_own host ks st errs).0 ≡ visit (remove_unwanted []) ks st
  unfolding stop_own visit remove_unwanted lookup
  stop_own-visit [] st errs = refl
  stop_own-visit (k ∷ ks) st errs = stop_own-visit ks (remove_unwanted [] k st) _

  abbrev emptied : NamespacedName → Manager → Scope
  emptied m lm = visit (remove_unwanted []) (host.order (keys (own_at m lm))) (scope_of host m lm)

  abbrev next : NamespacedName → Manager → Manager
  next m lm = record {
    listeners = insert m (emptied m lm).own lm.listeners;
    server = (emptied m lm).server;
    stopped = (emptied m lm).stopped;
    next_id = (emptied m lm).next_id;
  }

  own-emptied :
      (m : NamespacedName) (lm : Manager) (k : String) → lookup k (emptied m lm).own ≡ none
  unfolding scope_of lookup
  own-emptied m lm k = elim (Option-cases (lookup k (own_at m lm))) [
    | inl gone ↦ own_removed_none [] (host.order (keys (own_at m lm))) k (scope_of host m lm) gone
    | inr (l, there) ↦
        own_removed_unwanted [] (host.order (keys (own_at m lm))) k (scope_of host m lm) refl
          (covers (keys (own_at m lm)) k (Has-keys k (own_at m lm) there))
  ]

  own-next_self : (m : NamespacedName) (lm : Manager) → own_at m (next m lm) ≡ (emptied m lm).own
  own-next_self m lm = rw (lookup-insert m m (emptied m lm).own lm.listeners, beq_refl m) refl

  own-next_other :
      (m n : NamespacedName) (lm : Manager)
      → same_name m n ≡ false
      → own_at n (next m lm) ≡ own_at n lm
  own-next_other m n lm other = rw (lookup-insert m n (emptied m lm).own lm.listeners, other) refl

  stopped-next :
      (m : NamespacedName) (lm : Manager) (k : String) (l : Listener)
      → lookup k (own_at m lm) ≡ some l
      → (next m lm).stopped l.id ≡ true
  unfolding scope_of lookup
  stopped-next m lm k l there =
      stopped_unwanted [] (host.order (keys (own_at m lm))) k l (scope_of host m lm) refl there
        (covers (keys (own_at m lm)) k (Has-keys k (own_at m lm) there))

  stopped-next_stays :
      (m : NamespacedName) (lm : Manager) (i : ℕ)
      → lm.stopped i ≡ true
      → (next m lm).stopped i ≡ true
  unfolding scope_of
  stopped-next_stays m lm i h =
      stopped_stays [] (host.order (keys (own_at m lm))) (scope_of host m lm) i h

  -- The loop goes on with the listeners of its first Config stopped.
  stop_configs-next :
      (m : NamespacedName) (ms : List NamespacedName) (lm : Manager)
      (errs : List NotificationSource)
      → (errs' : List NotificationSource) × (stop_configs host (m ∷ ms) lm errs
          ≡ stop_configs host ms (next m lm) errs')
  unfolding stop_configs scope_of
  stop_configs-next m ms lm errs =
      let ks = host.order (keys (own_at m lm)) in
      let errs' = (stop_own host ks (scope_of host m lm) errs).1 in
      (
        errs',
        ap
            (λ (st : Scope).
              stop_configs host ms
                (record {
                  listeners = insert m st.own lm.listeners;
                  server = st.server;
                  stopped = st.stopped;
                  next_id = st.next_id;
                })
                errs')
            (stop_own-visit ks (scope_of host m lm) errs),
      )

  abbrev pub IsStopped : Option Listener → Manager → Type 0
  IsStopped none lm = Unit
  IsStopped (some l) lm = lm.stopped l.id ≡ true

  -- What holds of the manager once the loop has passed a Config, for the listener at a key.
  abbrev Done : NamespacedName → String → Option Listener → Manager → Type 0
  Done n k o lm = (lookup k (own_at n lm) ≡ none) × IsStopped o lm

  IsStopped-next :
      (m : NamespacedName) (o : Option Listener) (lm : Manager)
      → IsStopped o lm
      → IsStopped o (next m lm)
  IsStopped-next m none lm h = tt
  IsStopped-next m (some l) lm h = stopped-next_stays m lm l.id h

  IsStopped-first :
      (m : NamespacedName) (k : String) (o : Option Listener) (lm : Manager)
      → lookup k (own_at m lm) ≡ o
      → IsStopped o (next m lm)
  IsStopped-first m k none lm e = tt
  IsStopped-first m k (some l) lm e = stopped-next m lm k l e

  none-next_self :
      (m : NamespacedName) (lm : Manager) (k : String) → lookup k (own_at m (next m lm)) ≡ none
  none-next_self m lm k = ap (lookup k) (own-next_self m lm) ∙ own-emptied m lm k

  none-next :
      (m n : NamespacedName) (lm : Manager) (k : String)
      → lookup k (own_at n lm) ≡ none
      → lookup k (own_at n (next m lm)) ≡ none
  none-next m n lm k gone = elim (Bool-cases (same_name m n)) [
    | inl same ↦
        subst (λ x. lookup k (own_at x (next m lm)) ≡ none) ((same_name_iff m n).0 same)
          (none-next_self m lm k)
    | inr other ↦ ap (lookup k) (own-next_other m n lm other) ∙ gone
  ]

  Done-stays :
      (ms : List NamespacedName) (lm : Manager) (errs : List NotificationSource)
      (n : NamespacedName) (k : String) (o : Option Listener)
      → Done n k o lm
      → Done n k o (stop_configs host ms lm errs).0
  Done-stays [] lm errs n k o d = unfold stop_configs in d
  Done-stays (m ∷ ms) lm errs n k o (gone, stopped) =
      let (errs', e) = stop_configs-next m ms lm errs in
      subst (λ (p : Manager × List NotificationSource). Done n k o p.0) (sym e)
        (Done-stays ms (next m lm) errs' n k o
          (none-next m n lm k gone, IsStopped-next m o lm stopped))

  Done-passed :
      (ms : List NamespacedName) (lm : Manager) (errs : List NotificationSource)
      (n : NamespacedName) (k : String) (o : Option Listener)
      → Any (λ j. j ≡ n) ms
      → lookup k (own_at n lm) ≡ o
      → Done n k o (stop_configs host ms lm errs).0
  Done-passed [] lm errs n k o h e = absurd h
  Done-passed (m ∷ ms) lm errs n k o h e =
      let (errs', step) = stop_configs-next m ms lm errs in
      subst (λ (p : Manager × List NotificationSource). Done n k o p.0) (sym step)
        (elim (Bool-cases (same_name m n)) [
          | inl same ↦
              let is = (same_name_iff m n).0 same in
              Done-stays ms (next m lm) errs' n k o (
                subst (λ x. lookup k (own_at x (next m lm)) ≡ none) is (none-next_self m lm k),
                IsStopped-first m k o lm (ap (λ x. lookup k (own_at x lm)) is ∙ e),
              )
          | inr other ↦ elim h [
            | inl is ↦ absurd (cc (sym ((same_name_iff m n).1 is) ∙ other))
            | inr later ↦
                Done-passed ms (next m lm) errs' n k o later
                  (ap (lookup k) (own-next_other m n lm other) ∙ e)
          ]
        ])

  Has-manifests :
      (n : NamespacedName) (all : Map NamespacedName (Map String Listener))
      {own : Map String Listener}
      → lookup n all ≡ some own
      → Any (λ j. j ≡ n) (map (λ e. e.0) all)
  unfolding lookup
  Has-manifests n [] e = absurd (cc e)
  Has-manifests n ((j, w) ∷ all) e = elim (Bool-cases (same_name j n)) [
    | inl same ↦ inl ((same_name_iff j n).0 same)
    | inr other ↦ inr (Has-manifests n all (rw other at e))
  ]

  -- After `StopAll` no Config has a listener at any key, and every listener that the manager held was
  -- stopped, whether or not stopping some of them failed. That a range visits every key of a map is a
  -- hypothesis.
  pub stop_all-IsStopped :
      (lm : Manager) (n : NamespacedName) (k : String)
      → (lookup k (own_at n (stop_all host lm).0) ≡ none)
        × IsStopped (lookup k (own_at n lm)) (stop_all host lm).0
  unfolding stop_all lookup
  stop_all-IsStopped lm n k = elim (Option-cases (lookup n lm.listeners)) [
    | inl gone ↦
        let empty : lookup k (own_at n lm) ≡ none = ap (λ o. lookup k (own_of o)) gone in
        Done-stays (map (λ e. e.0) lm.listeners) lm [] n k (lookup k (own_at n lm))
          (empty, subst (λ o. IsStopped o lm) (sym empty) tt)
    | inr (own, there) ↦
        Done-passed (map (λ e. e.0) lm.listeners) lm [] n k (lookup k (own_at n lm))
          (Has-manifests n lm.listeners there) refl
  ]
