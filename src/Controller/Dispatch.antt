-- ===== src/Controller/Dispatch.antt =====
-- internal/controller/reloader_controller.go: the channel of events and processEvents, which starts a
-- goroutine for each event. The calls that one goroutine makes on the cluster are one step here.
pub mod Accounted
pub mod Drains
pub mod Requests
pub mod Leaves
use reloader.Prelude.{
  ℕ, zero, suc, ltb, Bool, true, false, not, ◌&&◌, Option, none, some, List, [], ◌∷◌, ◌++◌, Result,
  ok, err, if◌then◌else◌, length,
}
use reloader.Events.{SecretRotationEvent}
use reloader.Handler.Schema.{Registry}
use reloader.Handler.Processor.{
  EventHandler, ProcessError, Stop, returned as returned_error, panicked, Run, handle_event,
}

abbrev pub event_channel_buffer_size : ℕ
event_channel_buffer_size = 256

-- The channel, the goroutines that run, and those that have returned, with what they returned; and
-- whether a goroutine has panicked, which nothing recovers, so that the process is over.
-- `accepted` and `taken` are the events that were ever sent on the channel and received from it.
pub record Dispatcher (W : Type 0) : Type 0 where
  pub event_chan : List SecretRotationEvent
  pub running : List SecretRotationEvent
  pub handled : List (SecretRotationEvent × Result ProcessError (Unit {0}))
  pub context_done : Bool
  pub returned : Bool
  pub crashed : Bool
  pub event_handler : EventHandler
  pub world : W
  pub accepted : List SecretRotationEvent
  pub taken : List SecretRotationEvent

-- What happens next: a listener sends an event, the loop receives one or sees that the context has
-- ended, the goroutine at a position returns, or the context ends.
pub data Move : Type 0 where
  send : SecretRotationEvent → Move
  receive : Move
  finish : ℕ → Move
  see_done : Move
  cancel : Move

abbrev pub set_up : {W : Type 0} → EventHandler → W → Dispatcher W
set_up event_handler world = record {
  event_chan = [];
  running = [];
  handled = [];
  context_done = false;
  returned = false;
  crashed = false;
  event_handler = event_handler;
  world = world;
  accepted = [];
  taken = [];
}

-- The goroutine at a position, and the others.
unfoldable pub pick : {A : Type 0} → ℕ → List A → Option (A × List A)
pick i [] = none
pick zero (x ∷ xs) = some (x, xs)
pick (suc i) (x ∷ xs) = elim (pick i xs) [ none ↦ none | some (y, ys) ↦ some (y, x ∷ ys) ]

module _ {W : Type 0} where
  -- A channel that is full makes the sender wait.
  unfoldable pub accept : SecretRotationEvent → Dispatcher W → Dispatcher W
  accept event d =
      if ltb (length d.event_chan) event_channel_buffer_size
      then record d { event_chan = d.event_chan ++ event ∷ []; accepted = d.accepted ++ event ∷ [] }
      else d

  -- The case of the select that receives an event: a goroutine is started for it.
  unfoldable pub dispatch : List SecretRotationEvent → Dispatcher W → Dispatcher W
  dispatch [] d = d
  dispatch (event ∷ rest) d = if d.returned then d else record d {
    event_chan = rest;
    running = d.running ++ event ∷ [];
    taken = d.taken ++ event ∷ [];
  }

  unfoldable pub leave : Dispatcher W → Dispatcher W
  leave d = if d.context_done then record d { returned = true } else d

module _ {W : Type 0} (providers : Registry W) where
  -- What the end of `HandleEvent` leaves: a goroutine that panics does not return.
  abbrev pub ended :
      SecretRotationEvent
      → List SecretRotationEvent
      → Run W
      → Result Stop (Unit {0})
      → Dispatcher W
      → Dispatcher W
  ended event others r (ok _) d = record d {
    running = others;
    handled = d.handled ++ (event, ok tt) ∷ [];
    world = r.world;
  }
  ended event others r (err (returned_error e)) d = record d {
    running = others;
    handled = d.handled ++ (event, err e) ∷ [];
    world = r.world;
  }
  ended event others r (err panicked) d = record d { crashed = true; world = r.world }

  -- The goroutine of an event: `HandleEvent`, with the destinations that are cached by then.
  unfoldable pub finish_event :
      Option (SecretRotationEvent × List SecretRotationEvent) → Dispatcher W → Dispatcher W
  finish_event none d = d
  finish_event (some (event, others)) d =
      let r = handle_event providers event d.event_handler.cache d.world in
      ended event others r r.result d

  unfoldable pub live_step : Move → Dispatcher W → Dispatcher W
  unfolding accept dispatch leave finish_event pick
  live_step (send event) d = accept event d
  live_step receive d = dispatch d.event_chan d
  live_step (finish i) d = finish_event (pick i d.running) d
  live_step see_done d = leave d
  live_step cancel d = record d { context_done = true }

  -- A step; a move that is not possible leaves the state as it is, and after a crash none is.
  unfoldable pub step : Move → Dispatcher W → Dispatcher W
  unfolding live_step
  step m d = if d.crashed then d else live_step m d

  unfoldable pub run : List Move → Dispatcher W → Dispatcher W
  run [] d = d
  run (m ∷ ms) d = run ms (step m d)
