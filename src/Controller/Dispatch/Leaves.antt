-- ===== src/Controller/Dispatch/Leaves.antt =====
-- How the loop leaves once its context has ended, and what a crash stops.
use reloader.Prelude.{
  true, false, ◌≡◌, refl, sym, ap, ◌∙◌, Option, none, some, List, [], ◌∷◌, if_elim, Result, ok, err,
  string_eq, Bool-cases, inl, inr,
}
use reloader.Events.{SecretRotationEvent}
use reloader.Handler.Schema.{Registry}
use reloader.Manager.{name_eq}
use reloader.Controller.Dispatch.{
  Dispatcher, Move, send, receive, finish, see_done, cancel, accept, dispatch, leave, ended,
  finish_event, pick, live_step, step, run,
}
use reloader.Handler.Processor.{Stop, returned as returned_error, panicked, Run, handle_event}

module _ {W : Type 0} where
  -- The loop has returned, and received no event since.
  abbrev pub Left : Dispatcher W → Dispatcher W → Type 0
  Left d d' = (d'.returned ≡ true) × (d'.taken ≡ d.taken)

  accept-keeps :
      (event : SecretRotationEvent) (d : Dispatcher W)
      → ((accept event d).context_done ≡ d.context_done)
        × ((accept event d).returned ≡ d.returned)
        × ((accept event d).taken ≡ d.taken)
  unfolding accept
  accept-keeps event d =
      if_elim
        (λ (x : Dispatcher W).
          (x.context_done ≡ d.context_done) × (x.returned ≡ d.returned) × (x.taken ≡ d.taken))
        _ (λ _. (refl, refl, refl)) (λ _. (refl, refl, refl))

  dispatch-context :
      (q : List SecretRotationEvent) (d : Dispatcher W)
      → (dispatch q d).context_done ≡ d.context_done
  unfolding dispatch
  dispatch-context [] d = refl
  dispatch-context (event ∷ rest) d =
      if_elim (λ (x : Dispatcher W). x.context_done ≡ d.context_done) d.returned (λ _. refl)
        (λ _. refl)

  dispatch-Left :
      (q : List SecretRotationEvent) (d : Dispatcher W) → d.returned ≡ true → Left d (dispatch q d)
  unfolding dispatch
  dispatch-Left [] d h = (h, refl)
  dispatch-Left (event ∷ rest) d h =
      if_elim (Left d) d.returned (λ _. (h, refl)) (λ alive. absurd (cc (sym h ∙ alive)))

  leave-context : (d : Dispatcher W) → (leave d).context_done ≡ d.context_done
  unfolding leave
  leave-context d =
      if_elim (λ (x : Dispatcher W). x.context_done ≡ d.context_done) d.context_done (λ _. refl)
        (λ _. refl)

  leave-Left : (d : Dispatcher W) → d.returned ≡ true → Left d (leave d)
  unfolding leave
  leave-Left d h = if_elim (Left d) d.context_done (λ _. (refl, refl)) (λ _. (h, refl))

  pub leave-ends : (d : Dispatcher W) → d.context_done ≡ true → Left d (leave d)
  unfolding leave
  leave-ends d h =
      if_elim (Left d) d.context_done (λ _. (refl, refl)) (λ c. absurd (cc (sym h ∙ c)))

module _ {W : Type 0} (providers : Registry W) where
  ended-keeps :
      (event : SecretRotationEvent) (others : List SecretRotationEvent) (r : Run W)
      (result : Result Stop (Unit {0})) (d : Dispatcher W)
      → ((ended providers event others r result d).context_done ≡ d.context_done)
        × ((ended providers event others r result d).returned ≡ d.returned)
        × ((ended providers event others r result d).taken ≡ d.taken)
  ended-keeps event others r (ok _) d = (refl, refl, refl)
  ended-keeps event others r (err (returned_error e)) d = (refl, refl, refl)
  ended-keeps event others r (err panicked) d = (refl, refl, refl)

  finish-keeps :
      (o : Option (SecretRotationEvent × List SecretRotationEvent)) (d : Dispatcher W)
      → ((finish_event providers o d).context_done ≡ d.context_done)
        × ((finish_event providers o d).returned ≡ d.returned)
        × ((finish_event providers o d).taken ≡ d.taken)
  unfolding finish_event
  finish-keeps none d = (refl, refl, refl)
  finish-keeps (some (event, others)) d =
      let r = handle_event providers event d.event_handler.cache d.world in
      ended-keeps event others r r.result d

  live_step-done :
      (m : Move) (d : Dispatcher W)
      → d.context_done ≡ true
      → (live_step providers m d).context_done ≡ true
  unfolding live_step
  live_step-done (send event) d h = (accept-keeps event d).0 ∙ h
  live_step-done receive d h = dispatch-context d.event_chan d ∙ h
  live_step-done (finish i) d h = (finish-keeps (pick i d.running) d).0 ∙ h
  live_step-done see_done d h = leave-context d ∙ h
  live_step-done cancel d h = refl

  step-done :
      (m : Move) (d : Dispatcher W)
      → d.context_done ≡ true
      → (step providers m d).context_done ≡ true
  unfolding step
  step-done m d h =
      if_elim (λ (x : Dispatcher W). x.context_done ≡ true) d.crashed (λ _. h)
        (λ _. live_step-done m d h)

  -- After a crash nothing happens.
  step-crashed : (m : Move) (d : Dispatcher W) → d.crashed ≡ true → step providers m d ≡ d
  unfolding step
  step-crashed m d h = if_elim (λ x. x ≡ d) d.crashed (λ _. refl) (λ c. absurd (cc (sym h ∙ c)))

  run-crashed : (ms : List Move) (d : Dispatcher W) → d.crashed ≡ true → run providers ms d ≡ d
  unfolding run
  run-crashed [] d h = refl
  run-crashed (m ∷ ms) d h =
      let same = step-crashed m d h in ap (run providers ms) same ∙ run-crashed ms d h

  -- A process that is alive after some steps was alive before them.
  pub alive_before :
      (ms : List Move) (d : Dispatcher W) → (run providers ms d).crashed ≡ false → d.crashed ≡ false
  alive_before ms d alive = elim (Bool-cases d.crashed) [
    | inl crashed ↦ absurd (
        cc (
          sym crashed
          ∙ sym (ap (λ (x : Dispatcher W). x.crashed) (run-crashed ms d crashed))
          ∙ alive))
    | inr up ↦ up
  ]

  pub run-done :
      (ms : List Move) (d : Dispatcher W)
      → d.context_done ≡ true
      → (run providers ms d).context_done ≡ true
  unfolding run
  run-done [] d h = h
  run-done (m ∷ ms) d h = run-done ms (step providers m d) (step-done m d h)

  live_step-Left :
      (m : Move) (d : Dispatcher W) → d.returned ≡ true → Left d (live_step providers m d)
  unfolding live_step
  live_step-Left (send event) d h = ((accept-keeps event d).1 ∙ h, (accept-keeps event d).2)
  live_step-Left receive d h = dispatch-Left d.event_chan d h
  live_step-Left (finish i) d h =
      ((finish-keeps (pick i d.running) d).1 ∙ h, (finish-keeps (pick i d.running) d).2)
  live_step-Left see_done d h = leave-Left d h
  live_step-Left cancel d h = (h, refl)

  step-Left : (m : Move) (d : Dispatcher W) → d.returned ≡ true → Left d (step providers m d)
  unfolding step
  step-Left m d h = if_elim (Left d) d.crashed (λ _. (h, refl)) (λ _. live_step-Left m d h)

  pub run-Left :
      (ms : List Move) (d : Dispatcher W) → d.returned ≡ true → Left d (run providers ms d)
  unfolding run
  run-Left [] d h = (h, refl)
  run-Left (m ∷ ms) d h =
      let (gone, same) = step-Left m d h in
      let (end, still) = run-Left ms (step providers m d) gone in (end, still ∙ same)
