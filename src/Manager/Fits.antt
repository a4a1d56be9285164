-- ===== src/Manager/Fits.antt =====
-- The loops over one Config's listeners keep every identity apart and no running listener stopped.
use reloader.Prelude.{
  ℕ, ◌<◌, ◌≤◌, eqb_iff, String, true, false, ◌&&◌, ◌==◌, eq_iff, ◌≡◌, ◌≢◌, ◌⊎◌, inl, inr, sym, ap,
  subst, ◌∙◌, arith, Option, none, some, some-injective, List, [], ◌∷◌, if◌then◌else◌, Map,
  string_eq, lookup, lookup-insert, lookup-delete, is_some, Bool-cases, Option-cases,
}
use reloader.Api.{NotificationSource, WebhookConfig}
use reloader.Webhook.Server.{WebhookServer, route_key}
use reloader.Manager.{
  NamespacedName, Host, Listener, Scope, stop_listener, remove_unwanted, webhook_config, store,
  start_webhook, visit, count_webhooks, create_listener, add_new, reconcile, begins, is_works,
  add_until, panics_at, interrupted,
}

-- The listeners of the scope have identities of their own, below the next one, and run; `Other` are
-- the identities of the other Configs' listeners, which run as well.
pub record Fits (Other : ℕ → Type 0) (st : Scope) : Type 0 where
  pub live :
      (k : String) (l : Listener)
      → lookup k st.own ≡ some l
      → (l.id < st.next_id) × ((st.stopped l.id ≡ false) × (¬ Other l.id))
  pub distinct :
      (j k : String) (l q : Listener)
      → lookup j st.own ≡ some l
      → lookup k st.own ≡ some q
      → l.id ≡ q.id
      → j ≡ k
  pub others : (i : ℕ) → Other i → (i < st.next_id) × (st.stopped i ≡ false)
  pub fresh : (i : ℕ) → st.next_id ≤ i → st.stopped i ≡ false

module _ (Other : ℕ → Type 0) (key : String) (st : Scope) (fits : Fits Other st) where
  still :
      (l : Listener) (i : ℕ)
      → i ≢ l.id
      → st.stopped i ≡ false
      → (stop_listener key l st).stopped i ≡ false
  unfolding stop_listener
  still l i ne e = ground (arith, eqb_iff i l.id)

  left :
      (l : Listener) (k : String) (q : Listener)
      → lookup k (stop_listener key l st).own ≡ some q
      → (lookup k st.own ≡ some q) × (k ≢ key)
  unfolding stop_listener
  left l k q e = elim (Bool-cases (key == k)) [
    | inl same ↦ absurd (
        cc (
          sym (lookup-delete key k st.own ∙ ap (λ b. if b then none else lookup k st.own) same)
          ∙ e))
    | inr other ↦ (
      sym (lookup-delete key k st.own ∙ ap (λ b. if b then none else lookup k st.own) other) ∙ e,
      (λ z. absurd (cc (sym ((eq_iff key k).1 (sym z)) ∙ other))),
    )
  ]

  stop_listener-Fits :
      (l : Listener) → lookup key st.own ≡ some l → Fits Other (stop_listener key l st)
  unfolding stop_listener
  stop_listener-Fits l there = record {
    live = λ k q e.
        let (before, ne) = left l k q e in
        let (below, (runs, apart)) = fits.live k q before in
        (
          below,
          (still l q.id (λ same. ne (fits.distinct k key q l before there same)) runs, apart),
        );
    distinct = λ j k q p e f same. fits.distinct j k q p (left l j q e).0 (left l k p f).0 same;
    others = λ i o.
        let (below, runs) = fits.others i o in
        (below, still l i (λ same. (fits.live key l there).1.1 (subst Other same o)) runs);
    fresh = λ i le.
        still l i (λ same. absurd (omega (arith, (fits.live key l there).0, same, le)))
          (fits.fresh i le);
  }

  remove_unwanted-Fits :
      (desired : Map String NotificationSource) → Fits Other (remove_unwanted desired key st)
  unfolding remove_unwanted
  remove_unwanted-Fits desired = elim (Option-cases (lookup key st.own)) [
    | inl e ↦ rw (e, remove_unwanted) fits
    | inr (l, e) ↦ elim (Bool-cases (is_some (lookup key desired))) [
      | inl wanted ↦ rw (e, wanted, remove_unwanted) fits
      | inr unwanted ↦ rw (e, unwanted, remove_unwanted) (stop_listener-Fits l e)
    ]
  ]

  module _ (source : NotificationSource) (route : Option String)
      (server : Option WebhookServer) where
    abbrev made : Listener
    made = record { id = st.next_id; source = source; route = route }

    -- What a key holds after a listener is stored: the new one, or what it held.
    held :
        (k : String) (q : Listener)
        → lookup k (store key source route server st).own ≡ some q
        → ((k ≡ key) × (q ≡ made)) ⊎ (lookup k st.own ≡ some q)
    held k q e = elim (Bool-cases (key == k)) [
      | inl same ↦ inl (
        sym ((eq_iff key k).0 same),
        some-injective q made (
            sym e
            ∙ lookup-insert key k made st.own
            ∙ ap (λ b. if b then some made else lookup k st.own) same),
      )
      | inr other ↦ inr (
          sym (
            lookup-insert key k made st.own
            ∙ ap (λ b. if b then some made else lookup k st.own) other)
          ∙ e)
    ]

    older : (k : String) (q : Listener) → lookup k st.own ≡ some q → q.id ≢ st.next_id
    older k q e same = absurd (omega (arith, (fits.live k q e).0, same))

    store-Fits : Fits Other (store key source route server st)
    store-Fits = record {
      live = λ k q e. elim (held k q e) [
        | inl (_, new) ↦ rw new (
          omega arith,
          (
            fits.fresh st.next_id (omega arith),
            (λ o. absurd (omega (arith, (fits.others st.next_id o).0))),
          ),
        )
        | inr before ↦ let (below, rest) = fits.live k q before in (omega (arith, below), rest)
      ];
      distinct = λ j k q p e f same. elim (held j q e) [
        | inl (at_j, new) ↦ elim (held k p f) [
          | inl (at_k, _) ↦ at_j ∙ sym at_k
          | inr before ↦ absurd (older k p before (sym same ∙ ap (λ (x : Listener). x.id) new))
        ]
        | inr before ↦ elim (held k p f) [
          | inl (at_k, new) ↦ absurd (older j q before (same ∙ ap (λ (x : Listener). x.id) new))
          | inr before' ↦ fits.distinct j k q p before before' same
        ]
      ];
      others = λ i o. let (below, runs) = fits.others i o in (omega (arith, below), runs);
      fresh = λ i le. fits.fresh i (omega (arith, le));
    }

  hooked :
      (host : Host) (manifest : NamespacedName) (count : ℕ) (source : NotificationSource)
      → (source.type == "Webhook") ≡ true
      → Fits Other (create_listener host manifest count key source st)
  unfolding create_listener
  hooked host manifest count source hook =
      rw (hook, create_listener) (served st.server (webhook_config source))
    where
      served :
          (server : Option WebhookServer) (config : Option WebhookConfig)
          → Fits Other (elim server [
            | none ↦ st
            | some _ ↦ elim config [
              | none ↦ st
              | some c ↦
                  start_webhook key source (route_key manifest.name c.path_suffix key count) c st
            ]
          ])
      served none config = fits
      served (some s) none = fits
      served (some s) (some c) =
          store-Fits source (some (route_key manifest.name c.path_suffix key count)) _

  create_listener-Fits :
      (host : Host) (manifest : NamespacedName) (count : ℕ) (source : NotificationSource)
      → Fits Other (create_listener host manifest count key source st)
  unfolding create_listener
  create_listener-Fits host manifest count source = elim (Bool-cases (source.type == "Webhook")) [
    | inl hook ↦ hooked host manifest count source hook
    | inr other ↦
        elim (Bool-cases (host.has_provider source.type && is_works (begins host source))) [
          | inl starts ↦ rw (other, starts, create_listener) (store-Fits source none st.server)
          | inr fails ↦ rw (other, fails, create_listener) fits
        ]
  ]

module _ (Other : ℕ → Type 0) (host : Host) (manifest : NamespacedName) where
  add_new-Fits :
      (desired : Map String NotificationSource) (key : String) (st : Scope)
      → Fits Other st
      → Fits Other (add_new host manifest desired key st)
  unfolding add_new
  add_new-Fits desired key st fits = elim (Option-cases (lookup key desired)) [
    | inl e ↦ rw (e, add_new) fits
    | inr (source, e) ↦ elim (Bool-cases (is_some (lookup key st.own))) [
      | inl there ↦ rw (e, there, add_new) fits
      | inr missing ↦
          rw (e, missing, add_new)
            (create_listener-Fits Other key st fits host manifest (count_webhooks desired) source)
    ]
  ]

  visit-Fits :
      (body : String → Scope → Scope)
      → ((k : String) (st : Scope) → Fits Other st → Fits Other (body k st))
      → (ks : List String) (st : Scope) → Fits Other st
      → Fits Other (visit body ks st)
  unfolding visit
  visit-Fits body keeps [] st fits = fits
  visit-Fits body keeps (k ∷ ks) st fits = visit-Fits body keeps ks (body k st) (keeps k st fits)

  pub reconcile-Fits :
      (desired : Map String NotificationSource) (st : Scope)
      → Fits Other st
      → Fits Other (reconcile host manifest desired st)
  unfolding reconcile
  reconcile-Fits desired st fits =
      visit-Fits (add_new host manifest desired) (add_new-Fits desired) _ _ (
        visit-Fits (remove_unwanted desired) (λ k s f. remove_unwanted-Fits Other k s f desired) _
          st fits)

  add_until-Fits :
      (desired : Map String NotificationSource) (ks : List String) (st st' : Scope)
      → Fits Other st
      → add_until host manifest desired ks st ≡ some st'
      → Fits Other st'
  unfolding add_until
  add_until-Fits desired [] st st' fits e = absurd (cc e)
  add_until-Fits desired (k ∷ ks) st st' fits e = elim (Bool-cases (panics_at host desired k st)) [
    | inl panics_here ↦
        subst (Fits Other) (some-injective st st' (rw (panics_here, add_until) at e)) fits
    | inr passed ↦
        add_until-Fits desired ks (add_new host manifest desired k st) st'
          (add_new-Fits desired k st fits) (rw (passed, add_until) at e)
  ]

  pub interrupted-Fits :
      (desired : Map String NotificationSource) (st st' : Scope)
      → Fits Other st
      → interrupted host manifest desired st ≡ some st'
      → Fits Other st'
  unfolding interrupted
  interrupted-Fits desired st st' fits e =
      add_until-Fits desired _ _ st'
        (visit-Fits (remove_unwanted desired) (λ k s f. remove_unwanted-Fits Other k s f desired) _
          st fits)
        e
