-- ===== src/Controller/Dispatch/Drains.antt =====
-- As long as the loop goes on and HandleEvent does not panic, everything that was sent can be handled.
use mathlib.Core.List.{append-nil, Perm}
use reloader.Prelude.{
  zero, false, ◌≡◌, ◌≢◌, Result, ok, err, refl, sym, subst, ap, ◌∙◌, some, List, [], ◌∷◌, ◌++◌, map,
  if_elim,
}
use reloader.Events.{SecretRotationEvent}
use reloader.Handler.Schema.{Registry}
use reloader.Api.{DestinationToWatch}
use reloader.Handler.Processor.{Stop, returned as returned_error, panicked, Run, handle_event}
use reloader.Controller.Dispatch.{
  Dispatcher, Move, receive, finish, pick, dispatch, ended, finish_event, live_step, step, run,
}
use reloader.Controller.Dispatch.Accounted.{events_of, Accounted, from-Accounted}

module _ {W : Type 0} (providers : Registry W) where
  run-append :
      (ms ns : List Move) (d : Dispatcher W)
      → run providers (ms ++ ns) d ≡ run providers ns (run providers ms d)
  unfolding run
  run-append [] ns d = refl
  run-append (m ∷ ms) ns d = run-append ms ns (step providers m d)

  -- One `receive` for each event in the channel, one `finish` for each goroutine.
  abbrev receives : List SecretRotationEvent → List Move
  receives q = map (λ _. receive) q

  abbrev finishes : List SecretRotationEvent → List Move
  finishes r = map (λ _. finish 0) r

  pub live-eq :
      (m : Move) (d : Dispatcher W)
      → d.crashed ≡ false
      → step providers m d ≡ live_step providers m d
  unfolding step
  live-eq m d alive =
      if_elim (λ x. x ≡ live_step providers m d) d.crashed (λ c. absurd (cc (sym alive ∙ c)))
        (λ _. refl)

  -- Only the channel is emptied.
  record Emptied (d d' : Dispatcher W) : Type 0 where
    empty : d'.event_chan ≡ []
    same : d'.accepted ≡ d.accepted
    alive : d'.crashed ≡ d.crashed
    cache : d'.event_handler.cache ≡ d.event_handler.cache

  abbrev received : SecretRotationEvent → List SecretRotationEvent → Dispatcher W → Dispatcher W
  received event rest d = record d {
    event_chan = rest;
    running = d.running ++ event ∷ [];
    taken = d.taken ++ event ∷ [];
  }

  dispatch-eq :
      (event : SecretRotationEvent) (rest : List SecretRotationEvent) (d : Dispatcher W)
      → d.returned ≡ false
      → dispatch (event ∷ rest) d ≡ received event rest d
  unfolding dispatch
  dispatch-eq event rest d going =
      if_elim (λ x. x ≡ received event rest d) d.returned (λ r. absurd (cc (sym going ∙ r)))
        (λ _. refl)

  receives-Emptied :
      (q : List SecretRotationEvent) (d : Dispatcher W)
      → d.event_chan ≡ q
      → d.returned ≡ false
      → d.crashed ≡ false
      → Emptied d (run providers (receives q) d)
  unfolding run live_step
  receives-Emptied [] d e going alive = record {
    empty = e;
    same = refl;
    alive = refl;
    cache = refl;
  }
  receives-Emptied (event ∷ rest) d e going alive =
      let now : step providers receive d ≡ received event rest d =
        live-eq receive d alive ∙ ap (λ q. dispatch q d) e ∙ dispatch-eq event rest d going in
      subst (λ x. Emptied d (run providers (receives rest) x)) (sym now)
        (let h = receives-Emptied rest (received event rest d) refl going alive in
          record { empty = h.empty; same = h.same; alive = h.alive; cache = h.cache })

  -- Only the goroutines return; those that still run are `left`.
  record Returned (left : List SecretRotationEvent) (d d' : Dispatcher W) : Type 0 where
    others : d'.running ≡ left
    chan : d'.event_chan ≡ d.event_chan
    same : d'.accepted ≡ d.accepted
    alive : d'.crashed ≡ d.crashed
    cache : d'.event_handler.cache ≡ d.event_handler.cache

  ended-Returned :
      (event : SecretRotationEvent) (rest : List SecretRotationEvent) (r : Run W)
      (result : Result Stop (Unit {0})) (d : Dispatcher W)
      → result ≢ err panicked
      → Returned rest d (ended providers event rest r result d)
  ended-Returned event rest r (ok _) d safe = record {
    others = refl;
    chan = refl;
    same = refl;
    alive = refl;
    cache = refl;
  }
  ended-Returned event rest r (err (returned_error e)) d safe = record {
    others = refl;
    chan = refl;
    same = refl;
    alive = refl;
    cache = refl;
  }
  ended-Returned event rest r (err panicked) d safe = absurd (safe refl)

  -- `HandleEvent` never panics with these destinations.
  abbrev pub NeverPanics : List DestinationToWatch → Type 0
  NeverPanics cache =
      (event : SecretRotationEvent) (w : W)
      → (handle_event providers event cache w).result ≢ err panicked

  finishes-Returned :
      (r : List SecretRotationEvent) (d : Dispatcher W)
      → d.running ≡ r
      → d.crashed ≡ false
      → NeverPanics d.event_handler.cache
      → Returned [] d (run providers (finishes r) d)
  unfolding run live_step pick finish_event
  finishes-Returned [] d e alive safe = record {
    others = e;
    chan = refl;
    same = refl;
    alive = refl;
    cache = refl;
  }
  finishes-Returned (event ∷ rest) d e alive safe =
      let d' = finish_event providers (some (event, rest)) d in
      let r = handle_event providers event d.event_handler.cache d.world in
      let now : step providers (finish 0) d ≡ d' =
        live-eq (finish 0) d alive ∙ ap (λ r. finish_event providers (pick zero r) d) e in
      let one = ended-Returned event rest r r.result d (safe event d.world) in
      let h =
        finishes-Returned rest d' one.others (one.alive ∙ alive)
          (subst NeverPanics (sym one.cache) safe) in
      subst (λ x. Returned [] d (run providers (finishes rest) x)) (sym now)
        (record {
          others = h.others;
          chan = h.chan ∙ one.chan;
          same = h.same ∙ one.same;
          alive = h.alive ∙ one.alive;
          cache = h.cache ∙ one.cache;
        })

  -- From any state in which the events are accounted for, the loop has not returned and no goroutine
  -- has panicked, and if HandleEvent never panics with the destinations that are cached, there are
  -- steps of the loop and of the goroutines, without the listeners, after which the channel is empty,
  -- no goroutine runs, and the events that were handled are exactly those that the channel ever took,
  -- each once.
  pub run-drains :
      (d : Dispatcher W)
      → Accounted d
      → d.returned ≡ false
      → d.crashed ≡ false
      → NeverPanics d.event_handler.cache
      → (ms : List Move) × ((run providers ms d).event_chan ≡ [])
        × ((run providers ms d).running ≡ [])
        × Perm d.accepted (events_of (run providers ms d).handled)
  run-drains d h going alive safe =
      let mid = run providers (receives d.event_chan) d in
      let a = receives-Emptied d.event_chan d refl going alive in
      let b =
        finishes-Returned mid.running mid refl (a.alive ∙ alive)
          (subst NeverPanics (sym a.cache) safe) in
      let ms = receives d.event_chan ++ finishes mid.running in
      let end = run-append (receives d.event_chan) (finishes mid.running) d in
      let k = from-Accounted providers ms d h in
      let chan : (run providers ms d).event_chan ≡ [] =
        ap (λ x. x.event_chan) end ∙ b.chan ∙ a.empty in
      let idle : (run providers ms d).running ≡ [] = ap (λ x. x.running) end ∙ b.others in
      let same : (run providers ms d).accepted ≡ d.accepted =
        ap (λ x. x.accepted) end ∙ b.same ∙ a.same in
      let all : d.accepted ≡ (run providers ms d).taken =
        sym same
        ∙ k.in_order
        ∙ ap (λ q. (run providers ms d).taken ++ q) chan
        ∙ append-nil (run providers ms d).taken in
      (
        ms,
        chan,
        idle,
        subst (λ l. Perm l (events_of (run providers ms d).handled)) (sym all)
            (subst
              (λ r. Perm (run providers ms d).taken (r ++ events_of (run providers ms d).handled))
              idle k.each_once),
      )
