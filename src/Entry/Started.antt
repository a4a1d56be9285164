-- ===== src/Entry/Started.antt =====
-- When the program runs, and when it ends well.
use reloader.Prelude.{
  ◌≡◌, ◌↔◌, refl, sym, inl, inr, some, ok, ◌>>=◌, bind-ok, bind_of, Result-cases,
}
use reloader.Webhook.Server.{new_webhook_server}
use reloader.Controller.Program.{Program, set_up_with_manager}
use reloader.Entry.{Flags, Runtime, manager_options, prepare, main}

-- Every call before `Start` succeeds.
pub record IsReady (rt : Runtime) (flags : Flags) : Type 0 where
  pub configured : rt.get_config ≡ ok tt
  pub managed : rt.new_manager (manager_options flags) ≡ ok tt
  pub webhook_added : rt.add_webhook ≡ ok tt
  pub shutdown_added : rt.add_shutdown ≡ ok tt
  pub completed : rt.complete ≡ ok tt
  pub health_checked : rt.add_healthz_check ≡ ok tt
  pub ready_checked : rt.add_readyz_check ≡ ok tt

module _ {W : Type 0} (rt : Runtime) (flags : Flags) (world : W) where
  abbrev pub fresh : Program W
  fresh = (set_up_with_manager rt.add_shutdown rt.complete (some new_webhook_server) world).0

  prepare-eq : IsReady rt flags → prepare rt flags world ≡ ok fresh
  unfolding prepare set_up_with_manager
  prepare-eq h = bind_of _ h.configured (
      bind_of _ h.managed (
        bind_of _ h.webhook_added (
          bind_of _ (bind_of _ h.shutdown_added h.completed)
            (bind_of _ h.health_checked (bind_of _ h.ready_checked refl)))))

  prepare-IsReady : {p : Program W} → prepare rt flags world ≡ ok p → IsReady rt flags
  unfolding prepare set_up_with_manager
  prepare-IsReady e =
      let (_, (c, e1)) = bind-ok rt.get_config _ e in
      let (_, (m, e2)) = bind-ok (rt.new_manager (manager_options flags)) _ e1 in
      let (_, (w, e3)) = bind-ok rt.add_webhook _ e2 in
      let (_, (s, e4)) = bind-ok (rt.add_shutdown >>= λ _. rt.complete) _ e3 in
      let (_, (a, b)) = bind-ok rt.add_shutdown _ s in
      let (_, (h, e5)) = bind-ok rt.add_healthz_check _ e4 in
      let (_, (r, e6)) = bind-ok rt.add_readyz_check _ e5 in
      record {
        configured = c;
        managed = m;
        webhook_added = w;
        shutdown_added = a;
        completed = b;
        health_checked = h;
        ready_checked = r;
      }

  -- The program ends with exit code 0 exactly if every call of controller-runtime succeeds.
  main-exit_iff : ((main rt flags world).0 ≡ 0) ↔ (IsReady rt flags × (rt.start ≡ ok tt))
  unfolding main
  main-exit_iff = (
    (λ e. elim (Result-cases (prepare rt flags world)) [
      | inr (x, p) ↦ absurd (cc (rw (p, main) at e))
      | inl (q, p) ↦ elim (Result-cases rt.start) [
        | inr (x, s) ↦ absurd (cc (rw (p, s, main) at e))
        | inl (_, s) ↦ (prepare-IsReady p, s)
      ]
    ]),
    (λ (h, s). rw (prepare-eq h, main) (rw s refl)),
  )

  -- A program that runs is the one that is freshly set up.
  main-runs : (p : Program W) → (main rt flags world).1 ≡ some p → IsReady rt flags × (p ≡ fresh)
  unfolding main
  main-runs p e = elim (Result-cases (prepare rt flags world)) [
    | inr (x, q) ↦ absurd (cc (rw (q, main) at e))
    | inl (r, q) ↦
        let ready = prepare-IsReady q in (ready, cc (sym (prepare-eq ready), q, rw (q, main) at e))
  ]
