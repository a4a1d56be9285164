-- ===== src/Manager/Sound.antt =====
-- Whatever calls of `ManageListeners` were made, the manager's listeners run and are told apart.
use reloader.Prelude.{
  ℕ, ◌<◌, ◌≤◌, String, false, ◌≡◌, ◌≢◌, ◌⊎◌, inl, inr, refl, sym, ap, subst, ◌∙◌, Option, some,
  List, [], ◌∷◌, Result, ok, err, string_eq, lookup, lookup-insert, beq_refl, arith, Map,
  Bool-cases, Result-cases,
}
use reloader.Api.{NotificationSource}
use reloader.Webhook.Server.{WebhookServer}
use reloader.Manager.{
  NamespacedName, name_eq, same_name, same_name_iff, Host, Listener, Scope, Manager, reconcile,
  own_of, scope_of, put_scope, leave_scope, ManageError, invalid, panicked, manage_listeners,
}
use reloader.Manager.Fits.{Fits, reconcile-Fits, interrupted-Fits}
use reloader.Manager.Manages.{
  own_at, desired, after, managed, own-after, put_own_other, stopped_in, left_by,
}

-- Every listener that is held runs, has an identity below the next one, and shares it with no other.
pub record IsSound (lm : Manager) : Type 0 where
  pub live :
      (n : NamespacedName) (k : String) (l : Listener)
      → lookup k (own_at n lm) ≡ some l
      → (l.id < lm.next_id) × (lm.stopped l.id ≡ false)
  pub distinct :
      (m n : NamespacedName) (j k : String) (l q : Listener)
      → lookup j (own_at m lm) ≡ some l
      → lookup k (own_at n lm) ≡ some q
      → l.id ≡ q.id
      → (m ≡ n) × (j ≡ k)
  pub fresh : (i : ℕ) → lm.next_id ≤ i → lm.stopped i ≡ false

module _ (host : Host) (manifest : NamespacedName) (sources : Option (List NotificationSource))
    (lm : Manager) (sound : IsSound lm) where
  -- The identities of the other Configs' listeners.
  record Other (i : ℕ) : Type 0 where
    name : NamespacedName
    key : String
    listener : Listener
    other : name ≢ manifest
    there : lookup key (own_at name lm) ≡ some listener
    is : listener.id ≡ i

  scope-Fits : Fits Other (scope_of host manifest lm)
  unfolding scope_of
  scope-Fits = record {
    live = λ k l e.
        let (below, runs) = sound.live manifest k l e in
        (
          below,
          (
            runs,
            λ (o : Other l.id).
                o.other (sound.distinct o.name manifest o.key k o.listener l o.there e o.is).0,
          ),
        );
    distinct = λ j k l q e f same. (sound.distinct manifest manifest j k l q e f same).1;
    others = λ i (o : Other i).
        let (below, runs) = sound.live o.name o.key o.listener o.there in
        (subst (λ x. x < lm.next_id) o.is below, subst (λ x. lm.stopped x ≡ false) o.is runs);
    fresh = sound.fresh;
  }

  abbrev ended : Scope
  ended = reconcile host manifest (desired host manifest sources lm) (scope_of host manifest lm)

  ended-Fits : Fits Other ended
  ended-Fits = reconcile-Fits Other host manifest (desired host manifest sources lm) _ scope-Fits

  elsewhere :
      (n : NamespacedName) (k : String) (l : Listener) (i : ℕ)
      → n ≢ manifest
      → lookup k (own_at n lm) ≡ some l
      → l.id ≡ i
      → Other i
  elsewhere n k l i ne e is = record {
    name = n;
    key = k;
    listener = l;
    other = ne;
    there = e;
    is = is;
  }

  -- A state of the loops that is put into the manager's listeners.
  module _ (st : Scope) (fits : Fits Other st) (all : Map NamespacedName (Map String Listener))
      (self : own_of (lookup manifest all) ≡ st.own)
      (others : (n : NamespacedName) → n ≢ manifest → lookup n all ≡ lookup n lm.listeners) where
    abbrev put : Manager
    put = record { listeners = all; server = st.server; stopped = st.stopped; next_id = st.next_id }

    -- Where a listener is held afterwards: in the scope, or where it was before.
    place :
        (n : NamespacedName) (k : String) (l : Listener)
        → lookup k (own_at n put) ≡ some l
        → ((n ≡ manifest) × (lookup k st.own ≡ some l))
          ⊎ ((n ≢ manifest) × (lookup k (own_at n lm) ≡ some l))
    place n k l e = elim (Bool-cases (same_name n manifest)) [
      | inl same ↦
          let is = (same_name_iff n manifest).0 same in
          inl (is, sym (ap (lookup k) self) ∙ ap (λ x. lookup k (own_at x put)) (sym is) ∙ e)
      | inr other ↦
          let ne : n ≢ manifest =
            λ is. absurd (cc (sym ((same_name_iff n manifest).1 is) ∙ other)) in
          inr (ne, sym (ap (λ o. lookup k (own_of o)) (others n ne)) ∙ e)
    ]

    put-IsSound : IsSound put
    put-IsSound = record {
      live = λ n k l e. elim (place n k l e) [
        | inl (_, e') ↦ let (below, (runs, _)) = fits.live k l e' in (below, runs)
        | inr (ne, e') ↦ fits.others l.id (elsewhere n k l l.id ne e' refl)
      ];
      distinct = λ m n j k l q e f same. elim (place m j l e) [
        | inl (is_m, e') ↦ elim (place n k q f) [
          | inl (is_n, f') ↦ (is_m ∙ sym is_n, fits.distinct j k l q e' f' same)
          | inr (ne, f') ↦ absurd ((fits.live j l e').1.1 (elsewhere n k q l.id ne f' (sym same)))
        ]
        | inr (ne, e') ↦ elim (place n k q f) [
          | inl (is_n, f') ↦ absurd ((fits.live k q f').1.1 (elsewhere m j l q.id ne e' same))
          | inr (_, f') ↦ sound.distinct m n j k l q e' f' same
        ]
      ];
      fresh = fits.fresh;
    }

  after-IsSound : IsSound (after host manifest sources lm)
  unfolding put_scope
  after-IsSound =
      put-IsSound ended ended-Fits _ (own-after host manifest sources lm)
        (λ n ne. put_own_other manifest n ended.own lm.listeners ne)

  left-IsSound :
      (st : Scope)
      → stopped_in host manifest sources lm ≡ some st
      → IsSound (leave_scope host manifest st lm)
  unfolding leave_scope
  left-IsSound st stops =
      put-IsSound st
        (interrupted-Fits Other host manifest (desired host manifest sources lm) _ st scope-Fits
          stops)
        _ (rw (lookup-insert manifest manifest st.own lm.listeners, beq_refl manifest) refl)
        (λ n ne.
          ground (arith, lookup-insert manifest n st.own lm.listeners, same_name_iff manifest n))

-- A call of `ManageListeners`; one whose validation fails leaves the manager as it was, and one that
-- panics, which its caller recovers, leaves what it had done.
abbrev pub Call : Type 0
Call = NamespacedName × Option (List NotificationSource)

abbrev or_unchanged : Manager → Result ManageError Manager → Manager
or_unchanged lm (ok lm') = lm'
or_unchanged lm (err (invalid dups)) = lm
or_unchanged lm (err (panicked lm')) = lm'

abbrev pub manage : Host → Call → Manager → Manager
manage host (manifest, sources) lm = or_unchanged lm (manage_listeners host manifest sources lm)

abbrev pub manages : Host → List Call → Manager → Manager
manages host [] lm = lm
manages host (c ∷ cs) lm = manages host cs (manage host c lm)

abbrev pub new_manager : Option WebhookServer → Manager
new_manager server = record { listeners = []; server = server; stopped = λ _. false; next_id = 0 }

pub new_manager-IsSound : (server : Option WebhookServer) → IsSound (new_manager server)
unfolding lookup
new_manager-IsSound server = record {
  live = λ n k l e. absurd (cc e);
  distinct = λ m n j k l q e f same. absurd (cc e);
  fresh = λ i le. refl;
}

pub manage_listeners-IsSound :
    (host : Host) (manifest : NamespacedName) (sources : Option (List NotificationSource))
    (lm lm' : Manager)
    → manage_listeners host manifest sources lm ≡ ok lm'
    → IsSound lm
    → IsSound lm'
manage_listeners-IsSound host manifest sources lm lm' e sound =
    subst IsSound (sym (managed host manifest sources lm lm' e))
      (after-IsSound host manifest sources lm sound)

pub left_by-IsSound :
    (host : Host) (manifest : NamespacedName) (sources : Option (List NotificationSource))
    (lm lm' : Manager)
    → manage_listeners host manifest sources lm ≡ err (panicked lm')
    → IsSound lm
    → IsSound lm'
left_by-IsSound host manifest sources lm lm' e sound =
    let (st, (stops, is)) = left_by host manifest sources lm lm' e in
    subst IsSound (sym is) (left-IsSound host manifest sources lm sound st stops)

manage-IsSound : (host : Host) (c : Call) (lm : Manager) → IsSound lm → IsSound (manage host c lm)
manage-IsSound host (manifest, sources) lm sound =
    elim (Result-cases (manage_listeners host manifest sources lm)) [
      | inr (invalid dups, e) ↦ subst (λ r. IsSound (or_unchanged lm r)) (sym e) sound
      | inr (panicked lm', e) ↦
          subst (λ r. IsSound (or_unchanged lm r)) (sym e)
            (left_by-IsSound host manifest sources lm lm' e sound)
      | inl (lm', e) ↦
          subst (λ r. IsSound (or_unchanged lm r)) (sym e)
            (manage_listeners-IsSound host manifest sources lm lm' e sound)
    ]

manages-IsSound :
    (host : Host) (cs : List Call) (lm : Manager) → IsSound lm → IsSound (manages host cs lm)
manages-IsSound host [] lm sound = sound
manages-IsSound host (c ∷ cs) lm sound =
    manages-IsSound host cs (manage host c lm) (manage-IsSound host c lm sound)

-- Whatever calls of `ManageListeners` a new manager has served, for whatever Configs and sources, those
-- that panicked in the middle included,
-- each listener that it holds has not been stopped, and no two of them, at different keys or of
-- different Configs, have the same identity.
pub manager-IsSound :
    (host : Host) (server : Option WebhookServer) (cs : List Call)
    → IsSound (manages host cs (new_manager server))
manager-IsSound host server cs =
    manages-IsSound host cs (new_manager server) (new_manager-IsSound server)
