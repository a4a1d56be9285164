-- ===== src/Controller/Dispatch/Requests.antt =====
-- From an endpoint of the webhook server to HandleEvent.
use mathlib.Core.List.{Mem, mem-append_right, mem-cons_self}
use mathlib.Core.List.Perm
use reloader.Prelude.{
  ◌<◌, ltb, String, false, ◌≡◌, refl, sym, subst, ◌∙◌, arith, Option, none, some, List, [], ◌∷◌,
  ◌++◌, if_elim, length,
}
use reloader.Events.{SecretRotationEvent}
use reloader.Secrets.{GetSecret}
use reloader.Webhook.Route.{Route, Moment, Request, response, handle}
use reloader.Webhook.Route.Publishes.{Accepted, handle-publishes_iff}
use reloader.Handler.Schema.{Registry}
use reloader.Controller.Dispatch.{
  event_channel_buffer_size, Dispatcher, Move, send, accept, live_step, step, run,
}
use reloader.Controller.Dispatch.Accounted.{events_of, Accounted, from-Accounted}
use reloader.Controller.Dispatch.Drains.{NeverPanics, live-eq, run-drains}

module _ {W : Type 0} where
  -- The channel takes an event that it has room for, and the loop goes on.
  accept-room :
      (event : SecretRotationEvent) (d : Dispatcher W)
      → length d.event_chan < event_channel_buffer_size
      → ((accept event d).accepted ≡ d.accepted ++ event ∷ [])
        × ((accept event d).returned ≡ d.returned)
        × ((accept event d).crashed ≡ d.crashed)
        × ((accept event d).event_handler.cache ≡ d.event_handler.cache)
  unfolding accept
  accept-room event d room =
      if_elim
        (λ (x : Dispatcher W).
          (x.accepted ≡ d.accepted ++ event ∷ [])
          × (x.returned ≡ d.returned)
          × (x.crashed ≡ d.crashed)
          × (x.event_handler.cache ≡ d.event_handler.cache))
        (ltb (length d.event_chan) event_channel_buffer_size) (λ _. (refl, refl, refl, refl))
        (λ full. absurd (ground (arith, room, full)))

module _ {W : Type 0} (providers : Registry W) where
  -- An event that is sent while there is room, the loop goes on and nothing panics can be handled.
  sent-handled :
      (event : SecretRotationEvent) (d : Dispatcher W)
      → Accounted d
      → d.returned ≡ false
      → d.crashed ≡ false
      → NeverPanics providers d.event_handler.cache
      → length d.event_chan < event_channel_buffer_size
      → (ms : List Move) × Mem event (events_of (run providers (send event ∷ ms) d).handled)
  unfolding run live_step
  sent-handled event d h going alive safe room =
      let (added, same, up, cache) = accept-room event d room in
      let now : step providers (send event) d ≡ accept event d =
        live-eq providers (send event) d alive in
      let (ms, chan, idle, all) =
        run-drains providers (accept event d)
          (subst Accounted now (from-Accounted providers (send event ∷ []) d h)) (same ∙ going)
          (up ∙ alive) (subst (NeverPanics providers) (sym cache) safe) in
      (
        ms,
        subst (λ x. Mem event (events_of (run providers ms x).handled)) (sym now)
            ((Perm.mem_iff all).0
              (subst (Mem event) (sym added) (mem-append_right d.accepted mem-cons_self))),
      )

  module _ (client : GetSecret) (base64_decode : String → Option String)
      (gjson_get : String → String → Option String) where
    -- A request to an endpoint that passes authentication, whose body is whole and small enough and
    -- has the identifier, and whose event is sent, is answered with 204; and if the channel has room,
    -- the loop of the controller has not returned, no goroutine has panicked and HandleEvent never
    -- panics with the cached destinations, there are steps of the loop and of the goroutines by which
    -- HandleEvent is called for the event and returns.
    pub request-handled :
        (r : Route) (m : Moment) (req : Request) (event : SecretRotationEvent) (d : Dispatcher W)
        → Accepted client base64_decode gjson_get r m req event
        → Accounted d
        → d.returned ≡ false
        → d.crashed ≡ false
        → NeverPanics providers d.event_handler.cache
        → length d.event_chan < event_channel_buffer_size
        → (handle client base64_decode gjson_get r m req ≡ response 204 (some event) none)
          × (ms : List Move) × Mem event (events_of (run providers (send event ∷ ms) d).handled)
    request-handled r m req event d a h going alive safe room =
        let (ms, done) = sent-handled event d h going alive safe room in
        (
          (handle-publishes_iff client base64_decode gjson_get r m req 204 event none).1
              (a, refl, refl),
          ms,
          done,
        )
