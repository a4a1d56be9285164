-- ===== src/Manager/Reconcile.antt =====
-- What runs after `ManageListeners`: the listeners of the desired sources, and no others.
use reloader.Prelude.{
  String, Bool, true, false, ◌||◌, ◌≡◌, inl, inr, refl, sym, ◌∙◌, ap, Option, none, some, List,
  if◌then◌else◌, Map, string_eq, lookup, is_some, Bool-cases, Option-cases,
}
use reloader.Api.{NotificationSource}
use reloader.Manager.{
  NamespacedName, name_eq, Host, Listener, Scope, remove_unwanted, visit, keys, reconcile,
  startable,
}
use reloader.Manager.Loops.{
  Has, Has-keys, own_removed_wanted, own_removed_unwanted, own_removed_none, server_removed,
  own_added_there, own_added_not, own_added,
}
use reloader.Manager.Stops.{IsAlone, stopped_unwanted, stopped_wanted, stopped-add}

-- A range over a map visits every key that is in it.
abbrev pub Covers : Host → Type 0
Covers host = (ks : List String) (k : String) → Has k ks → Has k (host.order ks)

-- Whether a listener runs at a key afterwards: its source is desired, and it ran before or can be
-- created and started.
abbrev pub runs_at : Host → Bool → Option NotificationSource → Option Listener → Bool
runs_at host has_server none l = false
runs_at host has_server (some source) l = is_some l || startable host has_server source

module _ (host : Host) (covers : Covers host) (manifest : NamespacedName)
    (desired : Map String NotificationSource) (st : Scope) where
  abbrev pruned : Scope
  pruned = visit (remove_unwanted desired) (host.order (keys st.own)) st

  own-pruned_unwanted : (k : String) → lookup k desired ≡ none → lookup k pruned.own ≡ none
  own-pruned_unwanted k e = elim (Option-cases (lookup k st.own)) [
    | inl gone ↦ own_removed_none desired (host.order (keys st.own)) k st gone
    | inr (l, found) ↦
        own_removed_unwanted desired (host.order (keys st.own)) k st (ap is_some e)
          (covers (keys st.own) k (Has-keys k st.own found))
  ]

  pub own-reconcile_unwanted :
      (k : String)
      → lookup k desired ≡ none
      → lookup k (reconcile host manifest desired st).own ≡ none
  unfolding reconcile
  own-reconcile_unwanted k e =
      own_added_not host manifest desired (host.order (keys desired)) k pruned (rw e refl)
        (own-pruned_unwanted k e)

  pub own-reconcile_there :
      (k : String) {source : NotificationSource} {l : Listener}
      → lookup k desired ≡ some source
      → lookup k st.own ≡ some l
      → lookup k (reconcile host manifest desired st).own ≡ some l
  unfolding reconcile
  own-reconcile_there k e found =
      own_added_there host manifest desired (host.order (keys desired)) k pruned
        (own_removed_wanted desired (host.order (keys st.own)) k st (ap is_some e) ∙ found)

  own-reconcile_missing :
      (k : String) {source : NotificationSource}
      → lookup k desired ≡ some source
      → lookup k st.own ≡ none
      → is_some (lookup k (reconcile host manifest desired st).own)
        ≡ startable host (is_some st.server) source
  unfolding reconcile
  own-reconcile_missing k {source} e gone =
      let still = own_removed_none desired (host.order (keys st.own)) k st gone in
      let servers = server_removed desired (host.order (keys st.own)) st in
      elim (Bool-cases (startable host (is_some st.server) source)) [
        | inl starts ↦
            own_added host manifest desired (host.order (keys desired)) k pruned
              (rw (e, servers) starts) (covers (keys desired) k (Has-keys k desired e))
            ∙ sym starts
        | inr fails ↦
            ap is_some (
              own_added_not host manifest desired (host.order (keys desired)) k pruned
                (rw (e, servers) fails) still)
            ∙ sym fails
      ]

  pub reconcile-runs :
      (k : String)
      → is_some (lookup k (reconcile host manifest desired st).own)
        ≡ runs_at host (is_some st.server) (lookup k desired) (lookup k st.own)
  reconcile-runs k = elim (Option-cases (lookup k desired)) [
    | inl e ↦ rw e (ap is_some (own-reconcile_unwanted k e))
    | inr (source, e) ↦ elim (Option-cases (lookup k st.own)) [
      | inl gone ↦ rw (e, gone) (own-reconcile_missing k e gone)
      | inr (l, found) ↦ rw (e, found) (ap is_some (own-reconcile_there k e found))
    ]
  ]

  pub reconcile-stops :
      (k : String) (l : Listener)
      → lookup k st.own ≡ some l
      → IsAlone k l st.own
      → (reconcile host manifest desired st).stopped l.id
        ≡ (if is_some (lookup k desired) then st.stopped l.id else true)
  unfolding reconcile
  reconcile-stops k l found alone =
      stopped-add host manifest desired (host.order (keys desired)) pruned l.id
      ∙ elim (Bool-cases (is_some (lookup k desired))) [
        | inl wanted ↦
            rw wanted (stopped_wanted desired (host.order (keys st.own)) k l st wanted alone)
        | inr unwanted ↦ rw unwanted (
            stopped_unwanted desired (host.order (keys st.own)) k l st unwanted found
              (covers (keys st.own) k (Has-keys k st.own found)))
      ]
