-- ===== src/Webhook/Server/Lifecycle.antt =====
-- Routes come and go: the table holds exactly the routes whose context is not cancelled.
use reloader.Prelude.{
  ℕ, ◌<◌, ◌≤◌, eqb, String, false, eq_iff, eq_refl, Option, some, List, [], ◌∷◌, string_eq, lookup,
  ◌≡◌, ◌≢◌, refl, inl, inr, arith, Bool-cases, Option-cases,
}
use reloader.Api.{WebhookConfig}
use reloader.Webhook.Route.{Route}
use reloader.Webhook.Server.{WebhookServer, new_webhook_server, register, unregister}
use reloader.Webhook.Server.Entries.{
  new_route, lookup-register, next-register, cancelled-register, lookup-unregister, next-unregister,
  cancelled-unregister,
}

pub record IsSound (s : WebhookServer) : Type 0 where
  pub live :
      (k : String) (r : Route)
      → lookup k s.routes ≡ some r
      → (r.id < s.next_id) × (s.cancelled r.id ≡ false)
  pub distinct :
      (j k : String) (r q : Route)
      → lookup j s.routes ≡ some r
      → lookup k s.routes ≡ some q
      → r.id ≡ q.id
      → j ≡ k
  pub fresh : (i : ℕ) → s.next_id ≤ i → s.cancelled i ≡ false
  -- No context is left running without a route.
  pub kept :
      (i : ℕ)
      → i < s.next_id
      → s.cancelled i ≡ false
      → (k : String) × (r : Route) × (lookup k s.routes ≡ some r) × (r.id ≡ i)

module _ (key : String) (config : Option WebhookConfig) (s : WebhookServer) (h : IsSound s) where
  live_register :
      (k : String) (r : Route)
      → lookup k (register key config s).routes ≡ some r
      → (r.id < (register key config s).next_id) × ((register key config s).cancelled r.id ≡ false)
  live_register k r e = elim (Option-cases (lookup key s.routes)) [
    | inl o ↦ ground (
      arith,
      o,
      lookup-register key config s k,
      next-register key config s,
      cancelled-register key config s r.id,
      h.live k r,
      h.fresh s.next_id,
    )
    | inr (q, o) ↦ ground (
      arith,
      o,
      lookup-register key config s k,
      next-register key config s,
      cancelled-register key config s r.id,
      eq_iff key k,
      h.live k r,
      h.live key q o,
      h.fresh s.next_id,
      h.distinct key k q r o,
    )
  ]

  distinct_register :
      (j k : String) (r q : Route)
      → lookup j (register key config s).routes ≡ some r
      → lookup k (register key config s).routes ≡ some q
      → r.id ≡ q.id
      → j ≡ k
  distinct_register j k r q e f same = ground (
    arith,
    lookup-register key config s j,
    lookup-register key config s k,
    eq_iff key j,
    eq_iff key k,
    h.live j r,
    h.live k q,
    h.distinct j k r q,
  )

  kept_register :
      (i : ℕ)
      → i < (register key config s).next_id
      → (register key config s).cancelled i ≡ false
      → (k : String) × (r : Route) × (lookup k (register key config s).routes ≡ some r) × (r.id ≡ i)
  kept_register i below alive = elim (Bool-cases (eqb i s.next_id)) [
    | inl new ↦ (
      key,
      new_route key config s,
      rw (lookup-register key config s) (rw (eq_refl key)),
      ground arith,
    )
    | inr old ↦
        let ne : i ≢ s.next_id = ground arith in
        let (k, r, found, same) =
          h.kept i (omega (arith, next-register key config s))
            (ground (arith, cancelled-register key config s i)) in
        (
          k,
          r,
          ground (
            arith,
            lookup-register key config s k,
            cancelled-register key config s i,
            eq_iff key k,
          ),
          same,
        )
  ]

  pub register-IsSound : IsSound (register key config s)
  register-IsSound = record {
    live = live_register;
    distinct = distinct_register;
    fresh = λ i le. elim (Option-cases (lookup key s.routes)) [
      | inl o ↦
          ground (arith, cancelled-register key config s i, next-register key config s, h.fresh i)
      | inr (q, o) ↦ ground (
        arith,
        cancelled-register key config s i,
        next-register key config s,
        h.fresh i,
        h.live key q o,
      )
    ];
    kept = kept_register;
  }

module _ (key : String) (s : WebhookServer) (h : IsSound s) where
  live_unregister :
      (k : String) (r : Route)
      → lookup k (unregister key s).routes ≡ some r
      → (r.id < (unregister key s).next_id) × ((unregister key s).cancelled r.id ≡ false)
  live_unregister k r e = elim (Option-cases (lookup key s.routes)) [
    | inl o ↦ ground (
      arith,
      lookup-unregister key s k,
      next-unregister key s,
      cancelled-unregister key s r.id,
      h.live k r,
    )
    | inr (q, o) ↦ ground (
      arith,
      lookup-unregister key s k,
      next-unregister key s,
      cancelled-unregister key s r.id,
      eq_iff key k,
      h.live k r,
      h.distinct key k q r o,
    )
  ]

  distinct_unregister :
      (j k : String) (r q : Route)
      → lookup j (unregister key s).routes ≡ some r
      → lookup k (unregister key s).routes ≡ some q
      → r.id ≡ q.id
      → j ≡ k
  distinct_unregister j k r q e f same =
      ground (arith, lookup-unregister key s j, lookup-unregister key s k, h.distinct j k r q)

  kept_unregister :
      (i : ℕ)
      → i < (unregister key s).next_id
      → (unregister key s).cancelled i ≡ false
      → (k : String) × (r : Route) × (lookup k (unregister key s).routes ≡ some r) × (r.id ≡ i)
  kept_unregister i below alive =
      let (k, r, found, same) =
        h.kept i (omega (arith, next-unregister key s))
          (ground (arith, cancelled-unregister key s i)) in
      (
        k,
        r,
        ground (arith, lookup-unregister key s k, cancelled-unregister key s i, eq_iff key k),
        same,
      )

  pub unregister-IsSound : IsSound (unregister key s)
  unregister-IsSound = record {
    live = live_unregister;
    distinct = distinct_unregister;
    fresh = λ i le. elim (Option-cases (lookup key s.routes)) [
      | inl o ↦ ground (arith, cancelled-unregister key s i, next-unregister key s, h.fresh i)
      | inr (q, o) ↦
          ground
            (arith, cancelled-unregister key s i, next-unregister key s, h.fresh i, h.live key q o)
    ];
    kept = kept_unregister;
  }

-- A call on the shared server.
pub data Call : Type 0 where
  registers : String → Option WebhookConfig → Call
  unregisters : String → Call

abbrev pub call : Call → WebhookServer → WebhookServer
call (registers key config) s = register key config s
call (unregisters key) s = unregister key s

abbrev pub calls : List Call → WebhookServer → WebhookServer
calls [] s = s
calls (c ∷ cs) s = calls cs (call c s)

new_webhook_server-IsSound : IsSound new_webhook_server
unfolding lookup
new_webhook_server-IsSound = record {
  live = λ k r e. absurd (cc);
  distinct = λ j k r q e f same. absurd (cc);
  fresh = λ i le. refl;
  kept = λ i below alive. absurd (omega arith);
}

calls-IsSound : (cs : List Call) (s : WebhookServer) → IsSound s → IsSound (calls cs s)
calls-IsSound [] s h = h
calls-IsSound (registers key config ∷ cs) s h =
    calls-IsSound cs (register key config s) (register-IsSound key config s h)
calls-IsSound (unregisters key ∷ cs) s h =
    calls-IsSound cs (unregister key s) (unregister-IsSound key s h)

-- Whatever registrations and removals a new server has served, its table holds routes whose
-- contexts run, different keys hold different routes, and every route ever made is in the table or
-- has its context cancelled.
pub server-IsSound : (cs : List Call) → IsSound (calls cs new_webhook_server)
server-IsSound cs = calls-IsSound cs new_webhook_server new_webhook_server-IsSound
