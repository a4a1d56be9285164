-- ===== src/Manager/Stops.antt =====
-- Which listeners `ManageListeners` stops.
use reloader.Prelude.{
  ℕ, eqb, eqb_iff, String, Bool, true, false, not, ◌&&◌, ◌==◌, eq_iff, ◌≡◌, inl, inr, refl, ◌∙◌,
  arith, Option, none, some, List, [], ◌∷◌, if◌then◌else◌, Map, string_eq, lookup, is_some,
  Bool-cases, Option-cases,
}
use reloader.Api.{NotificationSource}
use reloader.Manager.{
  NamespacedName, Host, Listener, Scope, stop_listener, remove_unwanted, visit, create_listener,
  add_new,
}
use reloader.Manager.Loops.{Has, own-remove}

-- No other key has the listener's identity.
abbrev pub IsAlone : String → Listener → Map String Listener → Type 0
IsAlone k l own = (j : String) (q : Listener) → lookup j own ≡ some q → q.id ≡ l.id → j ≡ k

module _ (desired : Map String NotificationSource) where
  abbrev hits : ℕ → String → Option Listener → Bool
  hits i j none = false
  hits i j (some q) = not (is_some (lookup j desired)) && eqb i q.id

  stopped-remove :
      (j : String) (st : Scope) (i : ℕ)
      → (remove_unwanted desired j st).stopped i
        ≡ (if hits i j (lookup j st.own) then true else st.stopped i)
  unfolding remove_unwanted stop_listener
  stopped-remove j st i = elim (Option-cases (lookup j st.own)) [
    | inl e ↦ ground (arith, e)
    | inr (l, e) ↦ ground (arith, e)
  ]

  pub stopped_stays :
      (ks : List String) (st : Scope) (i : ℕ)
      → st.stopped i ≡ true
      → (visit (remove_unwanted desired) ks st).stopped i ≡ true
  unfolding visit
  stopped_stays [] st i h = h
  stopped_stays (j ∷ ks) st i h =
      stopped_stays ks (remove_unwanted desired j st) i (ground (arith, stopped-remove j st i))

  pub stopped_unwanted :
      (ks : List String) (k : String) (l : Listener) (st : Scope)
      → is_some (lookup k desired) ≡ false
      → lookup k st.own ≡ some l
      → Has k ks
      → (visit (remove_unwanted desired) ks st).stopped l.id ≡ true
  unfolding visit
  stopped_unwanted [] k l st w e h = absurd h
  stopped_unwanted (j ∷ ks) k l st w e h = elim (Bool-cases (j == k)) [
    | inl same ↦
        stopped_stays ks (remove_unwanted desired j st) l.id
          (ground (arith, eq_iff j k, eqb_iff l.id l.id, stopped-remove j st l.id))
    | inr other ↦ elim h [
      | inl z ↦ absurd (ground (arith, eq_iff j k))
      | inr h' ↦
          stopped_unwanted ks k l (remove_unwanted desired j st) w
            (ground (arith, own-remove desired j k st)) h'
    ]
  ]

  pub stopped_wanted :
      (ks : List String) (k : String) (l : Listener) (st : Scope)
      → is_some (lookup k desired) ≡ true
      → IsAlone k l st.own
      → (visit (remove_unwanted desired) ks st).stopped l.id ≡ st.stopped l.id
  unfolding visit
  stopped_wanted [] k l st w a = refl
  stopped_wanted (j ∷ ks) k l st w a =
      stopped_wanted ks k l (remove_unwanted desired j st) w
        (λ i q e same. a i q (ground (arith, own-remove desired j i st)) same)
      ∙ elim (Option-cases (lookup j st.own)) [
        | inl e ↦ ground (arith, e, stopped-remove j st l.id)
        | inr (q, e) ↦ ground (arith, e, stopped-remove j st l.id, a j q e)
      ]

module _ (host : Host) (manifest : NamespacedName) (desired : Map String NotificationSource) where
  pub stopped-add :
      (ks : List String) (st : Scope) (i : ℕ)
      → (visit (add_new host manifest desired) ks st).stopped i ≡ st.stopped i
  unfolding visit add_new create_listener
  stopped-add [] st i = refl
  stopped-add (j ∷ ks) st i = stopped-add ks (add_new host manifest desired j st) i ∙ ground arith
