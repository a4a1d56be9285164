-- ===== src/Manager/Loops.antt =====
-- The two loops of `ManageListeners`, at each key.
use reloader.Prelude.{
  ℕ, String, Bool, true, false, not, ◌&&◌, ◌==◌, eq_iff, eq_refl, ◌≡◌, inl, inr, refl, ◌∙◌, ap,
  arith, Option, none, some, List, [], ◌∷◌, Any, if◌then◌else◌, Map, string_eq, lookup,
  lookup-insert, lookup-delete, is_some, Bool-cases, Option-cases,
}
use reloader.Api.{NotificationSource}
use reloader.Webhook.Server.{route_key}
use reloader.Manager.{
  NamespacedName, Host, Listener, Scope, stop_listener, remove_unwanted, webhook_config, visit,
  keys, count_webhooks, create_listener, add_new, startable,
}

abbrev pub Has : String → List String → Type 0
Has k ks = Any (λ j. j ≡ k) ks

pub Has-keys {ℓ} :
    {V : Type ℓ} (k : String) (m : Map String V) {v : V} → lookup k m ≡ some v → Has k (keys m)
unfolding lookup
Has-keys k [] e = cc
Has-keys k ((j, w) ∷ m) e = elim (Bool-cases (j == k)) [
  | inl same ↦ inl ((eq_iff j k).0 same)
  | inr other ↦ inr (Has-keys k m (rw other at e))
]

module _ (desired : Map String NotificationSource) where
  pub own-remove :
      (j k : String) (st : Scope)
      → lookup k (remove_unwanted desired j st).own
        ≡ (if j == k && not (is_some (lookup k desired)) then none else lookup k st.own)
  unfolding remove_unwanted stop_listener
  own-remove j k st = elim (Option-cases (lookup j st.own)) [
    | inl e ↦ ground (arith, e, eq_iff j k)
    | inr (l, e) ↦ ground (arith, e, eq_iff j k, lookup-delete j k st.own)
  ]

  -- A wanted listener is passed over.
  pub own_removed_wanted :
      (ks : List String) (k : String) (st : Scope)
      → is_some (lookup k desired) ≡ true
      → lookup k (visit (remove_unwanted desired) ks st).own ≡ lookup k st.own
  unfolding visit
  own_removed_wanted [] k st w = refl
  own_removed_wanted (j ∷ ks) k st w =
      own_removed_wanted ks k (remove_unwanted desired j st) w ∙ ground (arith, own-remove j k st)

  pub own_removed_none :
      (ks : List String) (k : String) (st : Scope)
      → lookup k st.own ≡ none
      → lookup k (visit (remove_unwanted desired) ks st).own ≡ none
  unfolding visit
  own_removed_none [] k st e = e
  own_removed_none (j ∷ ks) k st e =
      own_removed_none ks k (remove_unwanted desired j st) (ground (arith, own-remove j k st))

  -- An unwanted one is gone when its key is passed.
  pub own_removed_unwanted :
      (ks : List String) (k : String) (st : Scope)
      → is_some (lookup k desired) ≡ false
      → Has k ks
      → lookup k (visit (remove_unwanted desired) ks st).own ≡ none
  unfolding visit
  own_removed_unwanted [] k st w h = absurd h
  own_removed_unwanted (j ∷ ks) k st w (inl e) =
      own_removed_none ks k (remove_unwanted desired j st)
        (ground (arith, own-remove j k st, eq_iff j k))
  own_removed_unwanted (j ∷ ks) k st w (inr h) =
      own_removed_unwanted ks k (remove_unwanted desired j st) w h

  pub server_removed :
      (ks : List String) (st : Scope)
      → is_some (visit (remove_unwanted desired) ks st).server ≡ is_some st.server
  unfolding visit remove_unwanted stop_listener
  server_removed [] st = refl
  server_removed (j ∷ ks) st = server_removed ks (remove_unwanted desired j st) ∙ ground arith

module _ (host : Host) (manifest : NamespacedName) where
  abbrev route_for : ℕ → String → NotificationSource → Option String
  route_for count key source =
      if source.type == "Webhook"
      then elim (webhook_config source) [
        | none ↦ none
        | some config ↦ some (route_key manifest.name config.path_suffix key count)
      ]
      else none

  own-create :
      (count : ℕ) (j k : String) (source : NotificationSource) (st : Scope)
      → lookup k (create_listener host manifest count j source st).own ≡ (
          if startable host (is_some st.server) source && j == k
          then some (record { id = st.next_id; source = source; route = route_for count j source })
          else lookup k st.own)
  unfolding create_listener startable
  own-create count j k source st = ground (
    arith,
    lookup-insert j k
        (record { id = st.next_id; source = source; route = route_for count j source }) st.own,
  )

  server-create :
      (count : ℕ) (j : String) (source : NotificationSource) (st : Scope)
      → is_some (create_listener host manifest count j source st).server ≡ is_some st.server
  unfolding create_listener
  server-create count j source st = ground arith

  -- Whether a key's listener, if it is missing, is created and started.
  abbrev pub wants : Bool → Option NotificationSource → Bool
  wants has_server none = false
  wants has_server (some source) = startable host has_server source

  module _ (desired : Map String NotificationSource) where
    server-add :
        (j : String) (st : Scope)
        → is_some (add_new host manifest desired j st).server ≡ is_some st.server
    unfolding add_new
    server-add j st = elim (Option-cases (lookup j desired)) [
      | inl e ↦ rw (e, add_new)
      | inr (source, e) ↦ ground (arith, e, server-create (count_webhooks desired) j source st)
    ]

    -- A listener that is there stays.
    own-add_there :
        (j k : String) (st : Scope) {l : Listener}
        → lookup k st.own ≡ some l
        → lookup k (add_new host manifest desired j st).own ≡ some l
    unfolding add_new
    own-add_there j k st h = elim (Option-cases (lookup j desired)) [
      | inl e ↦ ground arith
      | inr (source, e) ↦
          ground (arith, eq_iff j k, own-create (count_webhooks desired) j k source st)
    ]

    pub own_added_there :
        (ks : List String) (k : String) (st : Scope) {l : Listener}
        → lookup k st.own ≡ some l
        → lookup k (visit (add_new host manifest desired) ks st).own ≡ some l
    unfolding visit
    own_added_there [] k st h = h
    own_added_there (j ∷ ks) k st h =
        own_added_there ks k (add_new host manifest desired j st) (own-add_there j k st h)

    -- At a key that is not desired, or not startable, nothing is added.
    own-add_not :
        (j k : String) (st : Scope)
        → wants (is_some st.server) (lookup k desired) ≡ false
        → lookup k st.own ≡ none
        → lookup k (add_new host manifest desired j st).own ≡ none
    unfolding add_new
    own-add_not j k st w h = elim (Option-cases (lookup j desired)) [
      | inl e ↦ ground arith
      | inr (source, e) ↦
          ground (arith, eq_iff j k, own-create (count_webhooks desired) j k source st)
    ]

    pub own_added_not :
        (ks : List String) (k : String) (st : Scope)
        → wants (is_some st.server) (lookup k desired) ≡ false
        → lookup k st.own ≡ none
        → lookup k (visit (add_new host manifest desired) ks st).own ≡ none
    unfolding visit
    own_added_not [] k st w h = h
    own_added_not (j ∷ ks) k st w h =
        own_added_not ks k (add_new host manifest desired j st)
          (ap (λ b. wants b (lookup k desired)) (server-add j st) ∙ w) (own-add_not j k st w h)

    missing_before :
        (j k : String) (st : Scope)
        → lookup k (add_new host manifest desired j st).own ≡ none
        → lookup k st.own ≡ none
    missing_before j k st h = elim (Option-cases (lookup k st.own)) [
      | inl e ↦ e
      | inr (l, e) ↦ absurd (cc (own-add_there j k st e))
    ]

    own-add_self :
        (k : String) (st : Scope)
        → wants (is_some st.server) (lookup k desired) ≡ true
        → lookup k st.own ≡ none
        → is_some (lookup k (add_new host manifest desired k st).own) ≡ true
    unfolding add_new
    own-add_self k st w h = elim (Option-cases (lookup k desired)) [
      | inl e ↦ ground arith
      | inr (source, e) ↦
          ground (arith, eq_refl k, own-create (count_webhooks desired) k k source st)
    ]

    -- A startable listener is there when its key is passed.
    pub own_added :
        (ks : List String) (k : String) (st : Scope)
        → wants (is_some st.server) (lookup k desired) ≡ true
        → Has k ks
        → is_some (lookup k (visit (add_new host manifest desired) ks st).own) ≡ true
    unfolding visit
    own_added [] k st w h = absurd h
    own_added (j ∷ ks) k st w h =
        let next = add_new host manifest desired j st in
        elim (Option-cases (lookup k next.own)) [
          | inr (l, found) ↦ ap is_some (own_added_there ks k next found)
          | inl missing ↦ elim h [
            | inl e ↦ absurd (ground (arith, own-add_self k st w (missing_before j k st missing)))
            | inr h' ↦
                own_added ks k next (ap (λ b. wants b (lookup k desired)) (server-add j st) ∙ w) h'
          ]
        ]
