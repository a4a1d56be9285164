-- ===== src/Listener/Providers/Kinds.antt =====
-- Each registered provider creates the kind of listener that the manager keys the source by, from
-- the same block of the source.
use reloader.Prelude.{
  String, ◌==◌, eq_iff, ◌≡◌, refl, sym, subst, ap, ap₂, ◌∙◌, inl, inr, some, some-injective, [],
  ◌∷◌, ok, Map, string_eq, lookup, insert, All, Bool-cases,
}
use reloader.Api.{NotificationSource}
use reloader.Manager.{SourceConfig, config_of}
use reloader.Listener.Providers.{
  Created, Env, Provider, register_provider, get_provider, register_all, packages, registered,
}
use reloader.Listener.Providers.Stands.{
  Stands, azure-Gives, vault-Gives, config_map-Gives, secret-Gives, mock-Gives, google-Gives,
  aws-Gives, tcp-Gives,
}

-- What holds of every entry of a map holds of the one that is found.
lookup-All :
    {V : Type 0} (P : String × V → Type 0) (m : Map String V) (k : String) {v : V}
    → All P m
    → lookup k m ≡ some v
    → P (k, v)
unfolding lookup
lookup-All P [] k h e = absurd (cc e)
lookup-All P ((j, w) ∷ m) k (h, hs) e = elim (Bool-cases (j == k)) [
  | inl same ↦
      subst P
        (ap₂ (λ a b. (a, b)) ((eq_iff j k).0 same) (some-injective w _ (rw (same, lookup) at e))) h
  | inr other ↦ lookup-All P m k hs (rw (other, lookup) at e)
]

-- The names are different, so that every package's provider is registered.
registered-packages : {C : Type 0} → registered {C = C} ≡ packages
unfolding registered register_all register_provider insert lookup
registered-packages = refl

module _ {C : Type 0} (env : Env C) where
  -- A provider goes with the type that it is registered for.
  abbrev Serves : String → Provider C → Type 0
  Serves type prov =
      (s : NotificationSource) (l : Created C)
      → s.type ≡ type
      → prov env (some s) ≡ ok l
      → (c : SourceConfig) × ((config_of s ≡ some c) × Stands env c l)

  packages-Serves : All (λ e. Serves e.0 e.1) packages
  unfolding config_of
  packages-Serves = (
    λ s l is e. (_, (rw (is, config_of) refl, azure-Gives env s l e)),
    (
      λ s l is e. (_, (rw (is, config_of) refl, vault-Gives env s l e)),
      (
        λ s l is e. (_, (rw (is, config_of) refl, config_map-Gives env s l e)),
        (
          λ s l is e. (_, (rw (is, config_of) refl, secret-Gives env s l e)),
          (
            λ s l is e. (_, (rw (is, config_of) refl, mock-Gives env s l e)),
            (
              λ s l is e. (_, (rw (is, config_of) refl, google-Gives env s l e)),
              (
                λ s l is e. (_, (rw (is, config_of) refl, aws-Gives env s l e)),
                (λ s l is e. (_, (rw (is, config_of) refl, tcp-Gives env s l e)), tt),
              ),
            ),
          ),
        ),
      ),
    ),
  )

  -- The listener that a registered provider creates for a source stands for the block of the source
  -- that the manager keys it by: it is of the kind that the source's type names, and it is made from
  -- that block, which is there. In particular a source of a type without a key has no provider.
  pub get_provider-Stands :
      (s : NotificationSource) (prov : Provider C) (l : Created C)
      → get_provider s.type registered ≡ some prov
      → prov env (some s) ≡ ok l
      → (c : SourceConfig) × ((config_of s ≡ some c) × Stands env c l)
  unfolding get_provider
  get_provider-Stands s prov l there e =
      lookup-All (λ e. Serves e.0 e.1) packages s.type packages-Serves
        (ap (λ m. lookup s.type m) (sym registered-packages) ∙ there) s l refl e
