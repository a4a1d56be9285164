-- ===== src/Listener/Polling.antt =====
-- pkg/listener/aws/aws_sqs.go: the polling of an SQS queue, and internal/listener/sqs/listener.go:
-- the loop that takes the batches. The queue is a state that the client's calls read and change.
pub mod InOrder
pub mod Batches
pub mod Accounts
use reloader.Prelude.{
  ℕ, String, Bool, true, false, not, ◌&&◌, Option, none, some, List, [], ◌∷◌, ◌++◌, map, Result, ok,
  err, if◌then◌else◌,
}
use reloader.Api.{AwsSqsConfig}
use reloader.Events.{SecretRotationEvent}
use reloader.Chan.{Ready}
use reloader.Listener.Sqs.{SecretMessage, process_message}

-- The SDK's message, by the fields that are read; its strings are pointers.
pub record Message : Type 0 where
  pub message_id : Option String
  pub receipt_handle : Option String
  pub body : Option String

pub record ReceiveMessageInput : Type 0 where
  pub queue_url : String
  pub max_number_of_messages : ℕ
  pub wait_time_seconds : ℕ
  pub visibility_timeout : ℕ

-- `nil_message_id` is a panic, which ends the process.
pub data PollError : Type 0 where
  failed_to_receive : String → PollError
  nil_message_id : PollError

-- SQSClientInterface, over the states `W` of the queue; `delete_message` says whether it succeeded.
pub record SqsClient (W : Type 0) : Type 0 where
  pub receive_message : ReceiveMessageInput → W → Result String (List Message) × W
  pub delete_message : String → Option String → W → Bool × W

abbrev input_of : AwsSqsConfig → ReceiveMessageInput
input_of config = record {
  queue_url = config.queue_url;
  max_number_of_messages = config.max_number_of_messages;
  wait_time_seconds = config.wait_time_seconds;
  visibility_timeout = config.visibility_timeout;
}

module _ {W : Type 0} (client : SqsClient W) (config : AwsSqsConfig) where
  -- The loop that deletes what was received. A deletion that fails is logged with the message's id.
  unfoldable pub delete_messages : List Message → W → Result PollError (Unit {0}) × W
  delete_messages [] w = (ok tt, w)
  delete_messages (m ∷ ms) w =
      let (deleted, w') = client.delete_message config.queue_url m.receipt_handle w in
      let rest = delete_messages ms w' in
      if deleted
      then rest
      else elim m.message_id [ none ↦ (err nil_message_id, w') | some _ ↦ rest ]

  abbrev after_deletion :
      List Message → Result PollError (Unit {0}) × W → Result PollError (List Message) × W
  after_deletion messages (ok _, w) = (ok messages, w)
  after_deletion messages (err e, w) = (err e, w)

  abbrev after_receipt : Result String (List Message) × W → Result PollError (List Message) × W
  after_receipt (err e, w) = (err (failed_to_receive e), w)
  after_receipt (ok messages, w) = after_deletion messages (delete_messages messages w)

  unfoldable pub poll_messages : W → Result PollError (List Message) × W
  unfolding delete_messages
  poll_messages w = after_receipt (client.receive_message (input_of config) w)

-- Where the goroutine of the poller stands.
pub data Phase : Type 0 where
  polling : Phase
  sending : List Message → Phase
  waiting : Phase
  stopped : Phase

-- The two goroutines. `error_pending` says that the buffer of the channel of errors, which holds
-- one, is full; `batch` is what the consumer has yet to process. `polled` and `handled` are what has
-- been polled and processed so far, `handled` with what the select met.
pub record Pipeline (W : Type 0) : Type 0 where
  pub queue : W
  pub cancelled : Bool
  pub phase : Phase
  pub error_pending : Bool
  pub batch : List (Option String)
  pub consuming : Bool
  pub polled : List (Option String)
  pub handled : List (Option String × Ready)
  pub published : List SecretRotationEvent

-- What one of the goroutines, or the caller of `Stop`, does next.
pub data Move : Type 0 where
  cancel : Move
  poll : Move
  send : Move
  see_done : Move
  time_out : Move
  process : Ready → Move
  take_error : Move
  see_closed : Move

-- The listener as `Start` leaves it.
abbrev pub started : {W : Type 0} → W → Pipeline W
started w = record {
  queue = w;
  cancelled = false;
  phase = polling;
  error_pending = false;
  batch = [];
  consuming = true;
  polled = [];
  handled = [];
  published = [];
}

abbrev pub bodies : List Message → List (Option String)
bodies ms = map (λ m. m.body) ms

abbrev is_idle : List (Option String) → Bool
is_idle [] = true
is_idle (_ ∷ _) = false

abbrev is_stopped : Phase → Bool
is_stopped stopped = true
is_stopped _ = false

-- An event is published, or its message has failed, which is logged.
abbrev pub publish :
    {E : Type 0}
    → Result E SecretRotationEvent
    → List SecretRotationEvent
    → List SecretRotationEvent
publish (ok event) events = events ++ event ∷ []
publish (err _) events = events

module _ {W : Type 0} where
  -- What the poller does with the result of a poll. A batch that is empty is not sent; an error goes
  -- to the channel of errors, if that has room; a panic ends both goroutines.
  unfoldable pub polled_with : Result PollError (List Message) × W → Pipeline W → Pipeline W
  polled_with (ok [], w) p = record p { queue = w }
  polled_with (ok (m ∷ ms), w) p = record p {
    queue = w;
    phase = sending (m ∷ ms);
    polled = p.polled ++ bodies (m ∷ ms);
  }
  polled_with (err (failed_to_receive _), w) p = record p {
    queue = w;
    phase = waiting;
    error_pending = true;
  }
  polled_with (err nil_message_id, w) p = record p { queue = w; phase = stopped; consuming = false }

  -- The batch changes hands when the poller stands at the send and the consumer at its select.
  unfoldable pub hand_over : Phase → Pipeline W → Pipeline W
  hand_over (sending ms) p =
      if p.consuming && is_idle p.batch then record p { phase = polling; batch = bodies ms } else p
  hand_over _ p = p

  -- A select that has the context's end as one of its cases.
  unfoldable pub leave : Phase → Pipeline W → Pipeline W
  leave (sending _) p = if p.cancelled then record p { phase = stopped } else p
  leave waiting p = if p.cancelled then record p { phase = stopped } else p
  leave _ p = p

  abbrev resume : Phase → Pipeline W → Pipeline W
  resume waiting p = record p { phase = polling }
  resume _ p = p

  unfoldable pub take : Pipeline W → Pipeline W
  take p = if p.consuming && is_idle p.batch then record p { error_pending = false } else p

  -- Both channels are closed once the poller has stopped.
  unfoldable pub finish : Pipeline W → Pipeline W
  finish p = if is_stopped p.phase && is_idle p.batch then record p { consuming = false } else p

module _ {W : Type 0} (unmarshal : String → Option SecretMessage) where
  -- The consumer's loop over a batch.
  unfoldable pub process_next : List (Option String) → Ready → Pipeline W → Pipeline W
  process_next [] ready p = p
  process_next (message ∷ rest) ready p = record p {
    batch = rest;
    handled = p.handled ++ (message, ready) ∷ [];
    published = publish (process_message unmarshal message ready) p.published;
  }

module _ {W : Type 0} (client : SqsClient W) (config : AwsSqsConfig)
    (unmarshal : String → Option SecretMessage) where
  -- The select with a default at the head of the poller's loop.
  unfoldable pub at_head : Pipeline W → Phase → Pipeline W
  unfolding polled_with
  at_head p polling =
      if p.cancelled
      then record p { phase = stopped }
      else polled_with (poll_messages client config p.queue) p
  at_head p _ = p

  -- A step of the two goroutines; a move that is not possible leaves the state as it is.
  unfoldable pub step : Move → Pipeline W → Pipeline W
  unfolding at_head process_next hand_over leave take finish
  step cancel p = record p { cancelled = true }
  step poll p = at_head p p.phase
  step send p = hand_over p.phase p
  step see_done p = leave p.phase p
  step time_out p = resume p.phase p
  step (process ready) p = if p.consuming then process_next unmarshal p.batch ready p else p
  step take_error p = take p
  step see_closed p = finish p

  unfoldable pub run : List Move → Pipeline W → Pipeline W
  run [] p = p
  run (m ∷ ms) p = run ms (step m p)
