-- ===== src/Webhook/Retry.antt =====
-- The retry queue of a webhook route (internal/listener/webhook/route.go).
pub mod Bounded
use reloader.Prelude.{
  ℕ, zero, suc, ◌+◌, ◌^◌, ◌≤◌, ◌<◌, String, Bool, true, false, ◌==◌, ◌||◌, ◌&&◌, ltb, leb, Option,
  none, some, List, [], ◌∷◌, if◌then◌else◌,
}
use Prim.Native.Nat.{min}
use reloader.Events.{SecretRotationEvent}
use reloader.Api.{ℤ, pos, negsuc, ge_int, RetryPolicy}
use reloader.Chan.{Ready, Select, sent, cancelled, select_send}

abbrev pub default_max_retries : ℕ
default_max_retries = 10

-- Times are seconds.
pub record RetryMessage : Type 0 where
  pub event : SecretRotationEvent
  pub current_run : ℕ
  pub retry_at : ℕ

-- `min(policy.MaxRetries, defaultMaxRetries)`, over Go's signed `int`.
unfoldable pub max_retries_of : RetryPolicy → ℤ
max_retries_of policy = elim policy.max_retries [
  | pos n ↦ pos (min n default_max_retries)
  | negsuc n ↦ negsuc n
]

-- `getNextRetryAt`, at the time `now`.
unfoldable pub get_next_retry_at : String → ℕ → ℕ → ℕ
get_next_retry_at algorithm current_run now =
    if algorithm == "linear" then now + 1 else now + 2 ^ current_run

-- What one round of the loop meets: whether the context is done at its head, the time, whether the
-- context ends while it waits, what is ready when it publishes, and the time after that.
pub record Round : Type 0 where
  pub done_at_head : Bool
  pub now : ℕ
  pub done_in_wait : Bool
  pub ready : Ready
  pub later : ℕ

pub data Ending : Type 0 where
  stopped : Ending
  delivered : Ending
  gave_up : Ending

-- How the loop ended, with the events that it published and the retry times that it computed.
pub record Retried : Type 0 where
  pub ending : Ending
  pub published : List SecretRotationEvent
  pub attempts : ℕ
  pub scheduled : List ℕ

abbrev pub stop : Retried
stop = record { ending = stopped; published = []; attempts = 0; scheduled = [] }

abbrev deliver : SecretRotationEvent → Retried
deliver event = record { ending = delivered; published = event ∷ []; attempts = 1; scheduled = [] }

abbrev give_up : Retried
give_up = record { ending = gave_up; published = []; attempts = 1; scheduled = [] }

abbrev retried_at : ℕ → Retried → Retried
retried_at at r = record r { attempts = suc r.attempts; scheduled = at ∷ r.scheduled }

-- `message.currentRun++` and the new retry time.
abbrev next_message : String → Round → RetryMessage → RetryMessage
next_message algorithm r message = record message {
  current_run = message.current_run + 1;
  retry_at = get_next_retry_at algorithm (message.current_run + 1) r.later;
}

-- The loop of `retryMessage`, with fuel; the round of a run is `env` at its number.
unfoldable pub retry_message : ℕ → String → ℤ → (ℕ → Round) → RetryMessage → Option Retried
retry_message zero algorithm max env message = none
retry_message (suc fuel) algorithm max env message =
    let r = env message.current_run in
    let next = next_message algorithm r message in
    let again = retry_message fuel algorithm max env next in
    if r.done_at_head || (ltb r.now message.retry_at && r.done_in_wait)
    then some stop
    else elim (select_send r.ready) [
      | sent ↦ some (deliver message.event)
      | cancelled ↦
          if ge_int message.current_run max
          then some give_up
          else elim again [ none ↦ none | some rest ↦ some (retried_at next.retry_at rest) ]
    ]

-- What the worker's `select` receives in a round.
pub data Received : Type 0 where
  context_done : Received
  queue_closed : Received
  message : RetryMessage → (ℕ → Round) → Received

-- `handleRetries`: the messages up to the end of the context, one after another.
pub handle_retries : RetryPolicy → List Received → List (Option Retried)
handle_retries policy [] = []
handle_retries policy (context_done ∷ rest) = []
handle_retries policy (queue_closed ∷ rest) = []
handle_retries policy (message m env ∷ rest) =
    retry_message (suc default_max_retries) policy.algorithm (max_retries_of policy) env m
    ∷ handle_retries policy rest
