-- ===== src/Manager/Calm.antt =====
-- When no panic stops the loops of `ManageListeners`.
use reloader.Prelude.{
  String, false, ◌≡◌, ◌≢◌, inl, inr, refl, sym, ◌∙◌, Option, none, some, some-injective, subst,
  ◌==◌, insert, List, [], ◌∷◌, err, Map, string_eq, lookup, lookup-insert, is_some, All, Bool-cases,
  Option-cases,
}
use reloader.Api.{NotificationSource}
use reloader.Manager.{
  NamespacedName, Host, Scope, Manager, panicked, panics_on, panics_at, add_new, add_until,
  interrupted, generate_listener_key, desire, desired_from, sources_of, manage_listeners,
}
use reloader.Manager.Manages.{stopped_in, left_by}

module _ (host : Host) where
  abbrev IsCalm : NotificationSource → Type 0
  IsCalm source = panics_on host source ≡ false

  abbrev AreCalm : Map String NotificationSource → Type 0
  AreCalm desired =
      (k : String) (source : NotificationSource) → lookup k desired ≡ some source → IsCalm source

  desire-AreCalm :
      (source : NotificationSource) (desired : Map String NotificationSource)
      → IsCalm source
      → AreCalm desired
      → AreCalm (desire host source desired)
  desire-AreCalm source desired calm rest k s e =
      elim (Option-cases (generate_listener_key host source)) [
        | inl none_ ↦ rest k s (rw (none_, desire) at e)
        | inr (key, is) ↦
            let found : lookup k (insert key source desired) ≡ some s = rw (is, desire) at e in
            elim (Bool-cases (key == k)) [
              | inl same ↦
                  subst IsCalm
                    (some-injective source s
                      (sym (rw (lookup-insert key k source desired, same) refl) ∙ found))
                    calm
              | inr other ↦
                  rest k s (sym (rw (lookup-insert key k source desired, other) refl) ∙ found)
            ]
      ]

  desired_from-AreCalm :
      (desired : Map String NotificationSource) (sources : List NotificationSource)
      → All IsCalm sources
      → AreCalm desired
      → AreCalm (desired_from host desired sources)
  unfolding desired_from
  desired_from-AreCalm desired [] calm rest = rest
  desired_from-AreCalm desired (s ∷ ss) (calm, calms) rest =
      desired_from-AreCalm (desire host s desired) ss calms (desire-AreCalm s desired calm rest)

  goes_past :
      (desired : Map String NotificationSource) (k : String) (st : Scope)
      → AreCalm desired
      → panics_at host desired k st ≡ false
  goes_past desired k st calm = elim (Option-cases (lookup k desired)) [
    | inl none_ ↦ rw (none_, panics_at) refl
    | inr (source, there) ↦ elim (Bool-cases (is_some (lookup k st.own))) [
      | inl has ↦ rw (there, panics_at, has) refl
      | inr new ↦ rw (there, panics_at, new) (calm k source there)
    ]
  ]

  add_until-none :
      (manifest : NamespacedName) (desired : Map String NotificationSource) (ks : List String)
      (st : Scope)
      → AreCalm desired
      → add_until host manifest desired ks st ≡ none
  unfolding add_until
  add_until-none manifest desired [] st calm = refl
  add_until-none manifest desired (k ∷ ks) st calm =
      rw (goes_past desired k st calm, add_until)
        (add_until-none manifest desired ks (add_new host manifest desired k st) calm)

  -- Without a source whose listener panics, no panic stops the loops.
  pub stopped_in-none :
      (manifest : NamespacedName) (sources : Option (List NotificationSource)) (lm : Manager)
      → All IsCalm (sources_of host sources)
      → stopped_in host manifest sources lm ≡ none
  unfolding interrupted lookup
  stopped_in-none manifest sources lm calm =
      add_until-none manifest _ _ _
        (desired_from-AreCalm [] (sources_of host sources) calm (λ k s e. absurd (cc e)))

  -- A call without sources does not panic.
  pub empty-calm :
      (manifest : NamespacedName) (sources : Option (List NotificationSource)) (lm lm' : Manager)
      → sources_of host sources ≡ []
      → manage_listeners host manifest sources lm ≢ err (panicked lm')
  empty-calm manifest sources lm lm' empty e =
      let (st, (stops, _)) = left_by host manifest sources lm lm' e in
      cc (sym (stopped_in-none manifest sources lm (subst (All IsCalm) (sym empty) tt)) ∙ stops)
