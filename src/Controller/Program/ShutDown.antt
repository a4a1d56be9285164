-- ===== src/Controller/Program/ShutDown.antt =====
-- What the shutdown leaves, whatever happened before it.
use reloader.Prelude.{
  String, true, false, ◌≡◌, sym, ap, subst, ◌∙◌, Option, none, List, [], ◌∷◌, if_elim, Result,
  string_eq, lookup,
}
use reloader.Webhook.Server.{WebhookServer}
use reloader.Handler.Schema.{Registry}
use reloader.Manager.{NamespacedName, name_eq, Host}
use reloader.Manager.Reconcile.{Covers}
use reloader.Manager.Manages.{own_at}
use reloader.Manager.StopAll.Stopped.{IsStopped, stop_all-IsStopped}
use reloader.Controller.{ControllerUtil, reconcile_config}
use reloader.Controller.Dispatch.{Dispatcher, Move, see_done, cancel, leave, live_step, step, run}
use reloader.Controller.Dispatch.Accounted.{Accounted, from-Accounted, run-Accounted}
use reloader.Handler.Processor.{EventHandler}
use reloader.Controller.Dispatch.Drains.{live-eq}
use reloader.Controller.Program.{
  Program, Turn, reconcile, move, shut_down, reconciler_of, set_up_with_manager, graceful_shutdown,
  live_turn, turn, turns, moves,
}
use reloader.Controller.Dispatch.Leaves.{Left, leave-ends, run-done, run-Left, alive_before}

module _ {W : Type 0} where
  -- A change of the destinations loses no event.
  reconciled-Accounted :
      (eh : EventHandler) (d : Dispatcher W)
      → Accounted d
      → Accounted (record d { event_handler = eh })
  reconciled-Accounted eh d h = record {
    in_order = h.in_order;
    each_once = h.each_once;
    within = h.within;
  }

module _ {W : Type 0} (host : Host) (util : ControllerUtil) (providers : Registry W) where
  live_turn-Accounted :
      (t : Turn) (p : Program W)
      → Accounted p.dispatcher
      → Accounted (live_turn host util providers t p).dispatcher
  unfolding live_turn graceful_shutdown run
  live_turn-Accounted (reconcile api req) p h =
      reconciled-Accounted
        (reconcile_config host util api req (reconciler_of p)).state.event_handler p.dispatcher h
  live_turn-Accounted (move m) p h = from-Accounted providers (m ∷ []) p.dispatcher h
  live_turn-Accounted shut_down p h = from-Accounted providers (cancel ∷ []) p.dispatcher h

  turn-Accounted :
      (t : Turn) (p : Program W)
      → Accounted p.dispatcher
      → Accounted (turn host util providers t p).dispatcher
  unfolding turn
  turn-Accounted t p h =
      if_elim (λ (x : Program W). Accounted x.dispatcher) p.dispatcher.crashed (λ _. h)
        (λ _. live_turn-Accounted t p h)

  turns-Accounted :
      (ts : List Turn) (p : Program W)
      → Accounted p.dispatcher
      → Accounted (turns host util providers ts p).dispatcher
  unfolding turns
  turns-Accounted [] p h = h
  turns-Accounted (t ∷ ts) p h =
      turns-Accounted ts (turn host util providers t p) (turn-Accounted t p h)

  module _ (covers : Covers host) (added completed : Result String (Unit {0})) where
    -- The program after any turns since SetupWithManager.
    abbrev pub before : Option WebhookServer → W → List Turn → Program W
    before server world ts =
        turns host util providers ts (set_up_with_manager added completed server world).0

    -- Then the shutdown, and moves of the listeners, the loop and the goroutines.
    abbrev pub after : Option WebhookServer → W → List Turn → List Move → Program W
    after server world ts ms =
        moves host util providers ms
          (graceful_shutdown host util providers (before server world ts)).0

    set_up-Accounted :
        (server : Option WebhookServer) (world : W)
        → Accounted (set_up_with_manager added completed server world).0.dispatcher
    unfolding set_up_with_manager run
    set_up-Accounted server world = run-Accounted providers [] _ world

    -- Whatever was reconciled, sent, received and handled since the set-up, and whatever listeners,
    -- loop and goroutines did after the shutdown, as long as no reconciliation came after it and no
    -- goroutine has panicked: no Config has a listener at any key; each listener that the manager
    -- held was stopped; each event that the channel took is still in it, with one goroutine or
    -- handled; and once the loop looks at its context it returns, and receives no event after that,
    -- so that those still in the channel stay there. That a range visits every key of a map is a
    -- hypothesis.
    pub shut_down-rests :
        (server : Option WebhookServer) (world : W) (ts : List Turn) (ms later : List Move)
        (n : NamespacedName) (k : String)
        → (after server world ts ms).dispatcher.crashed ≡ false
        → (lookup k (own_at n (after server world ts ms).listener_manager) ≡ none)
          × IsStopped host covers
              (lookup k (own_at n (before server world ts).listener_manager))
              (after server world ts ms).listener_manager
          × Accounted (after server world ts ms).dispatcher
          × Left
              (after server world ts ms).dispatcher
              (run providers (see_done ∷ later) (after server world ts ms).dispatcher)
    unfolding moves graceful_shutdown run live_step
    shut_down-rests server world ts ms later n k alive =
        let p = before server world ts in
        let d = step providers cancel p.dispatcher in
        let d' = run providers ms d in
        let held = turns-Accounted ts _ (set_up-Accounted server world) in
        let (gone, stopped) = stop_all-IsStopped host covers p.listener_manager n k in
        let up = alive_before providers (cancel ∷ ms) p.dispatcher alive in
        let cancelled : d.context_done ≡ true =
          ap (λ (x : Dispatcher W). x.context_done) (live-eq providers cancel p.dispatcher up) in
        let (left, same) = leave-ends d' (run-done providers ms d cancelled) in
        let (still, none_taken) = run-Left providers later (leave d') left in
        (
          gone,
          stopped,
          from-Accounted providers (cancel ∷ ms) p.dispatcher held,
          subst (λ x. Left d' (run providers later x)) (sym (live-eq providers see_done d' alive))
              (still, none_taken ∙ same),
        )
