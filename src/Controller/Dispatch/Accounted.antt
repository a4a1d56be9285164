-- ===== src/Controller/Dispatch/Accounted.antt =====
-- Every event that was sent is in the channel, in a goroutine, or handled.
use mathlib.Core.List.{append_assoc, Perm, perm_middle, perm_append_singleton}
use mathlib.Core.List.Perm
use reloader.Prelude.{
  ℕ, zero, suc, ◌≤◌, ltb, ◌≡◌, refl, sym, subst, ap, ◌∙◌, arith, Option, none, some, some-injective,
  List, [], ◌∷◌, ◌++◌, map, Result, ok, err, if_elim, length, Option-cases, inl, inr,
}
use reloader.Events.{SecretRotationEvent}
use reloader.Handler.Schema.{Registry}
use reloader.Handler.Processor.{
  EventHandler, ProcessError, Stop, returned as returned_error, panicked, Run, handle_event,
}
use reloader.Controller.Dispatch.{
  event_channel_buffer_size, Dispatcher, Move, send, receive, finish, see_done, cancel, set_up,
  pick, accept, dispatch, leave, finish_event, ended, live_step, step, run,
}

abbrev pub events_of :
    List (SecretRotationEvent × Result ProcessError (Unit {0})) → List SecretRotationEvent
events_of xs = map (λ x. x.0) xs

pub events_of-append :
    (xs : List (SecretRotationEvent × Result ProcessError (Unit {0})))
    (x : SecretRotationEvent × Result ProcessError (Unit {0}))
    → events_of (xs ++ x ∷ []) ≡ events_of xs ++ x.0 ∷ []
events_of-append [] x = refl
events_of-append (y ∷ ys) x = ap (λ l. y.0 ∷ l) (events_of-append ys x)

length-snoc : {A : Type 0} (xs : List A) (x : A) → length (xs ++ x ∷ []) ≡ suc (length xs)
length-snoc [] x = refl
length-snoc (y ∷ ys) x = ap suc (length-snoc ys x)

pub pick-Perm :
    {A : Type 0} (i : ℕ) (xs : List A) {x : A} {ys : List A}
    → pick i xs ≡ some (x, ys)
    → Perm xs (x ∷ ys)
unfolding pick
pick-Perm i [] e = absurd (cc e)
pick-Perm zero (x ∷ xs) e =
    subst (λ p. Perm (x ∷ xs) (p.0 ∷ p.1)) (some-injective (x, xs) _ e) (Perm.refl (x ∷ xs))
pick-Perm (suc i) (x ∷ xs) e = elim (Option-cases (pick i xs)) [
  | inl none_there ↦ absurd (cc (rw (none_there, pick) at e))
  | inr ((y, ys), found) ↦
      subst (λ p. Perm (x ∷ xs) (p.0 ∷ p.1)) (some-injective (y, x ∷ ys) _ (rw (found, pick) at e))
        (Perm.trans (Perm.cons x (pick-Perm i xs found)) (Perm.swap y x ys))
]

module _ {W : Type 0} where
  -- The events that the channel took are those that were received, then those that are in it, in
  -- order; of those received each is running or handled, none twice; the channel is within its bound.
  pub record Accounted (d : Dispatcher W) : Type 0 where
    pub in_order : d.accepted ≡ d.taken ++ d.event_chan
    pub each_once : Perm d.taken (d.running ++ events_of d.handled)
    pub within : length d.event_chan ≤ event_channel_buffer_size

  accept-Accounted :
      (event : SecretRotationEvent) (d : Dispatcher W) → Accounted d → Accounted (accept event d)
  unfolding accept
  accept-Accounted event d h =
      if_elim Accounted (ltb (length d.event_chan) event_channel_buffer_size)
        (λ c. record {
          in_order =
              ap (λ l. l ++ event ∷ []) h.in_order ∙ append_assoc d.taken d.event_chan (event ∷ []);
          each_once = h.each_once;
          within = ground (arith, length-snoc d.event_chan event);
        })
        (λ _. h)

  dispatch-Accounted :
      (q : List SecretRotationEvent) (d : Dispatcher W)
      → d.event_chan ≡ q
      → Accounted d
      → Accounted (dispatch q d)
  unfolding dispatch
  dispatch-Accounted [] d e h = h
  dispatch-Accounted (event ∷ rest) d e h =
      if_elim Accounted d.returned (λ _. h)
        (λ _. record {
          in_order =
              h.in_order ∙ ap (λ l. d.taken ++ l) e ∙ sym (append_assoc d.taken (event ∷ []) rest);
          each_once =
              subst (Perm (d.taken ++ event ∷ []))
                (sym (append_assoc d.running (event ∷ []) (events_of d.handled)))
                (Perm.trans (perm_append_singleton event d.taken) (
                  Perm.trans (Perm.cons event h.each_once)
                    (Perm.symm (perm_middle d.running (events_of d.handled)))));
          within =
              let full : length (event ∷ rest) ≤ event_channel_buffer_size =
                subst (λ l. length l ≤ event_channel_buffer_size) e h.within in
              omega arith;
        })

module _ {W : Type 0} (providers : Registry W) where
  recorded-Perm :
      (event : SecretRotationEvent) (others : List SecretRotationEvent)
      (result : Result ProcessError (Unit {0})) (d : Dispatcher W)
      → Perm d.running (event ∷ others)
      → Accounted d
      → Perm d.taken (others ++ events_of (d.handled ++ (event, result) ∷ []))
  recorded-Perm event others result d share h =
      let handled = events_of d.handled in
      subst (λ l. Perm d.taken (others ++ l)) (sym (events_of-append d.handled (event, result)))
        (subst (Perm d.taken) (append_assoc others handled (event ∷ [])) (
          Perm.trans h.each_once (
            Perm.trans (Perm.append share (Perm.refl handled))
              (Perm.symm (perm_append_singleton event (others ++ handled))))))

  ended-Accounted :
      (event : SecretRotationEvent) (others : List SecretRotationEvent) (r : Run W)
      (result : Result Stop (Unit {0})) (d : Dispatcher W)
      → Perm d.running (event ∷ others)
      → Accounted d
      → Accounted (ended providers event others r result d)
  ended-Accounted event others r (ok _) d share h = record {
    in_order = h.in_order;
    each_once = recorded-Perm event others (ok tt) d share h;
    within = h.within;
  }
  ended-Accounted event others r (err (returned_error e)) d share h = record {
    in_order = h.in_order;
    each_once = recorded-Perm event others (err e) d share h;
    within = h.within;
  }
  ended-Accounted event others r (err panicked) d share h = record {
    in_order = h.in_order;
    each_once = h.each_once;
    within = h.within;
  }

  finish-Accounted :
      (o : Option (SecretRotationEvent × List SecretRotationEvent)) (d : Dispatcher W)
      → ((p : SecretRotationEvent × List SecretRotationEvent)
          → o ≡ some p
          → Perm d.running (p.0 ∷ p.1))
      → Accounted d
      → Accounted (finish_event providers o d)
  unfolding finish_event
  finish-Accounted none d shares h = h
  finish-Accounted (some (event, others)) d shares h =
      let r = handle_event providers event d.event_handler.cache d.world in
      ended-Accounted event others r r.result d (shares (event, others) refl) h

  live_step-Accounted :
      (m : Move) (d : Dispatcher W) → Accounted d → Accounted (live_step providers m d)
  unfolding live_step leave
  live_step-Accounted (send event) d h = accept-Accounted event d h
  live_step-Accounted receive d h = dispatch-Accounted d.event_chan d refl h
  live_step-Accounted (finish i) d h =
      finish-Accounted (pick i d.running) d (λ p e. pick-Perm i d.running e) h
  live_step-Accounted see_done d h =
      if_elim Accounted d.context_done
        (λ _. record { in_order = h.in_order; each_once = h.each_once; within = h.within }) (λ _. h)
  live_step-Accounted cancel d h = record {
    in_order = h.in_order;
    each_once = h.each_once;
    within = h.within;
  }

  step-Accounted : (m : Move) (d : Dispatcher W) → Accounted d → Accounted (step providers m d)
  unfolding step
  step-Accounted m d h = if_elim Accounted d.crashed (λ _. h) (λ _. live_step-Accounted m d h)

  pub from-Accounted :
      (ms : List Move) (d : Dispatcher W) → Accounted d → Accounted (run providers ms d)
  unfolding run
  from-Accounted [] d h = h
  from-Accounted (m ∷ ms) d h = from-Accounted ms (step providers m d) (step-Accounted m d h)

  -- Whatever listeners, loop and goroutines do after the set-up: the events that the channel took are
  -- those that the loop has received, in the same order, followed by those in the channel; each
  -- received event is with one goroutine or handled, none is lost and none is doubled; and the channel
  -- never holds more than 256 events.
  pub run-Accounted :
      (ms : List Move) (eh : EventHandler) (w : W) → Accounted (run providers ms (set_up eh w))
  run-Accounted ms eh w =
      from-Accounted ms (set_up eh w)
        (record { in_order = refl; each_once = Perm.refl []; within = omega arith })
