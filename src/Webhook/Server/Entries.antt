-- ===== src/Webhook/Server/Entries.antt =====
-- What Register and Unregister of internal/listener/webhook/server.go change in the table of routes.
use reloader.Prelude.{
  ℕ, suc, eqb, String, Bool, true, false, ◌==◌, eq_iff, Option, none, some, if◌then◌else◌,
  string_eq, lookup, insert, lookup-insert, lookup-delete, ◌≡◌, inl, inr, arith, Option-cases,
}
use reloader.Api.{WebhookConfig}
use reloader.Webhook.Route.{Route}
use reloader.Webhook.Server.{WebhookServer, register, unregister}

abbrev pub new_route : String → Option WebhookConfig → WebhookServer → Route
new_route key config s = record { id = s.next_id; config_name = key; config = config }

abbrev pub ends : ℕ → Option Route → Bool
ends i none = false
ends i (some r) = eqb i r.id

module _ (key : String) (config : Option WebhookConfig) (s : WebhookServer) where
  pub routes-register :
      (register key config s).routes ≡ insert key (new_route key config s) s.routes
  unfolding register
  routes-register = elim (Option-cases (lookup key s.routes)) [
    | inl e ↦ rw (e, register)
    | inr (r, e) ↦ rw (e, register)
  ]

  pub next-register : (register key config s).next_id ≡ suc s.next_id
  unfolding register
  next-register = elim (Option-cases (lookup key s.routes)) [
    | inl e ↦ rw (e, register)
    | inr (r, e) ↦ rw (e, register)
  ]

  pub cancelled-register :
      (i : ℕ)
      → (register key config s).cancelled i
        ≡ (if ends i (lookup key s.routes) then true else s.cancelled i)
  unfolding register
  cancelled-register i = elim (Option-cases (lookup key s.routes)) [
    | inl e ↦ rw (e, register)
    | inr (r, e) ↦ rw (e, register)
  ]

  -- After a registration the table holds the new route at its key and is unchanged at the others.
  pub lookup-register :
      (k : String)
      → lookup k (register key config s).routes
        ≡ (if key == k then some (new_route key config s) else lookup k s.routes)
  lookup-register k = rw routes-register (lookup-insert key k (new_route key config s) s.routes)

module _ (key : String) (s : WebhookServer) where
  -- After a removal the table holds nothing at the key and is unchanged at the others.
  pub lookup-unregister :
      (k : String)
      → lookup k (unregister key s).routes ≡ (if key == k then none else lookup k s.routes)
  unfolding unregister
  lookup-unregister k = elim (Option-cases (lookup key s.routes)) [
    | inl e ↦ rw (e, unregister) (ground (arith, eq_iff key k))
    | inr (r, e) ↦ rw (e, unregister) (lookup-delete key k s.routes)
  ]

  pub next-unregister : (unregister key s).next_id ≡ s.next_id
  unfolding unregister
  next-unregister = elim (Option-cases (lookup key s.routes)) [
    | inl e ↦ rw (e, unregister)
    | inr (r, e) ↦ rw (e, unregister)
  ]

  pub cancelled-unregister :
      (i : ℕ)
      → (unregister key s).cancelled i
        ≡ (if ends i (lookup key s.routes) then true else s.cancelled i)
  unfolding unregister
  cancelled-unregister i = elim (Option-cases (lookup key s.routes)) [
    | inl e ↦ rw (e, unregister)
    | inr (r, e) ↦ rw (e, unregister)
  ]
