-- ===== src/Listener/Polling/InOrder.antt =====
-- What becomes of the messages of an SQS queue: the two goroutines against a single queue that
-- delivers in order.
use mathlib.Core.List.{append-nil}
use reloader.Prelude.{
  String, Bool, true, ◌&&◌, ◌≡◌, refl, sym, ap, ap₂, ◌∙◌, subst, Option, List, [], ◌∷◌, ◌++◌,
  Result, ok, err, if_elim, and_iff, and_iff,
}
use reloader.Api.{AwsSqsConfig}
use reloader.Events.{SecretRotationEvent}
use reloader.Chan.{Ready}
use reloader.Listener.Sqs.{SecretMessage, process_message}
use reloader.Listener.Polling.{
  Message, SqsClient, PollError, failed_to_receive, nil_message_id, poll_messages, Phase, polling,
  sending, waiting, stopped, Pipeline, Move, cancel, poll, send, see_done, time_out, process,
  take_error, see_closed, bodies, publish, polled_with, process_next, hand_over, leave, at_head,
  step, is_idle, resume, take, finish,
}

-- The abstract view: the messages that are still to be processed, and the events so far.
pub record Delivery : Type 0 where
  pub pending : List (Option String)
  pub events : List SecretRotationEvent

abbrev delivery : List (Option String) → List SecretRotationEvent → Delivery
delivery pending events = record { pending = pending; events = events }

abbrev pub in_hand : Phase → List (Option String)
in_hand (sending ms) = bodies ms
in_hand _ = []

abbrev pub view : {W : Type 0} → Pipeline W → Delivery
view p = delivery (p.batch ++ in_hand p.phase) p.published

pub idle-nil : (xs : List (Option String)) → is_idle xs ≡ true → xs ≡ []
idle-nil [] e = refl
idle-nil (x ∷ xs) e = absurd (cc e)

-- What a delivery in order may do: take in messages at the back, process the one in front, and, once
-- `ended`, drop messages from the back.
module _ (unmarshal : String → Option SecretMessage) where
  pub data Delivers (ended : Bool) : Delivery → Delivery → Type 0 where
    stay : {d : Delivery} → Delivers ended d d
    receive :
        {pending : List (Option String)} {events : List SecretRotationEvent}
        (ms : List (Option String))
        → Delivers ended (delivery pending events) (delivery (pending ++ ms) events)
    deliver :
        {rest : List (Option String)} {events : List SecretRotationEvent} (message : Option String)
        (ready : Ready)
        → Delivers ended
            (delivery (message ∷ rest) events)
            (delivery rest (publish (process_message unmarshal message ready) events))
    lose :
        {kept : List (Option String)} {events : List SecretRotationEvent}
        (lost : List (Option String))
        → ended ≡ true
        → Delivers ended (delivery (kept ++ lost) events) (delivery kept events)

module _ {W : Type 0} (client : SqsClient W) (config : AwsSqsConfig)
    (unmarshal : String → Option SecretMessage) where
  abbrev Steps : Pipeline W → Pipeline W → Type 0
  Steps p q = Delivers unmarshal p.cancelled (view p) (view q)

  -- A move that changes neither the pending messages nor the events.
  same_view :
      (p : Pipeline W) {d : Delivery} → view p ≡ d → Delivers unmarshal p.cancelled (view p) d
  same_view p e = subst (Delivers unmarshal p.cancelled (view p)) e stay

  -- The poller stands where it holds no batch.
  empty_hand :
      (p : Pipeline W) {ph : Phase}
      → in_hand ph ≡ []
      → p.phase ≡ ph
      → view p ≡ delivery (p.batch ++ []) p.published
  empty_hand p none e = ap (λ h. delivery (p.batch ++ h) p.published) (ap in_hand e ∙ none)

  polled-Steps :
      (r : Result PollError (List Message) × W) (p : Pipeline W)
      → p.phase ≡ polling
      → Steps p (polled_with r p)
  unfolding polled_with
  polled-Steps (ok [], w) p e = stay
  polled-Steps (ok (m ∷ ms), w) p e =
      subst
        (λ b. Delivers unmarshal p.cancelled (view p) (delivery (b ++ bodies (m ∷ ms)) p.published))
        (ap (λ ph. p.batch ++ in_hand ph) e ∙ append-nil p.batch) (receive (bodies (m ∷ ms)))
  polled-Steps (err (failed_to_receive _), w) p e = same_view p (empty_hand p refl e)
  polled-Steps (err nil_message_id, w) p e = same_view p (empty_hand p refl e)

  head-Steps :
      (p : Pipeline W) (ph : Phase) → p.phase ≡ ph → Steps p (at_head client config unmarshal p ph)
  unfolding at_head
  head-Steps p polling e =
      if_elim (Steps p) p.cancelled (λ c. same_view p (empty_hand p refl e))
        (λ c. polled-Steps (poll_messages client config p.queue) p e)
  head-Steps p (sending _) e = stay
  head-Steps p waiting e = stay
  head-Steps p stopped e = stay

  leave-Steps : (p : Pipeline W) (ph : Phase) → p.phase ≡ ph → Steps p (leave ph p)
  unfolding leave
  leave-Steps p (sending ms) e =
      if_elim (Steps p) p.cancelled
        (λ c.
          subst
            (λ h.
              Delivers unmarshal p.cancelled (delivery (p.batch ++ h) p.published)
                (delivery (p.batch ++ []) p.published))
            (sym (ap in_hand e))
            (subst
              (λ k.
                Delivers unmarshal p.cancelled (delivery (p.batch ++ bodies ms) p.published)
                  (delivery k p.published))
              (sym (append-nil p.batch)) (lose (bodies ms) c)))
        (λ c. stay)
  leave-Steps p waiting e =
      if_elim (Steps p) p.cancelled (λ c. same_view p (empty_hand p refl e)) (λ c. stay)
  leave-Steps p polling e = stay
  leave-Steps p stopped e = stay

  hand_over-Steps : (p : Pipeline W) (ph : Phase) → p.phase ≡ ph → Steps p (hand_over ph p)
  unfolding hand_over
  hand_over-Steps p (sending ms) e =
      if_elim (Steps p) (p.consuming && is_idle p.batch)
        (λ c. same_view p (
          ap₂ (λ b h. delivery (b ++ h) p.published)
            (idle-nil p.batch ((and_iff p.consuming (is_idle p.batch)).0 c).1) (ap in_hand e)
          ∙ ap (λ b. delivery b p.published) (sym (append-nil (bodies ms)))))
        (λ c. stay)
  hand_over-Steps p waiting e = stay
  hand_over-Steps p polling e = stay
  hand_over-Steps p stopped e = stay

  process-Steps :
      (p : Pipeline W) (b : List (Option String)) (ready : Ready)
      → p.batch ≡ b
      → Steps p (process_next unmarshal b ready p)
  unfolding process_next
  process-Steps p [] ready e = stay
  process-Steps p (message ∷ rest) ready e =
      subst
        (λ b. Delivers unmarshal p.cancelled (delivery (b ++ in_hand p.phase) p.published) (
          delivery (rest ++ in_hand p.phase)
            (publish (process_message unmarshal message ready) p.published)))
        (sym e) (deliver message ready)

  resume-Steps : (p : Pipeline W) (ph : Phase) → p.phase ≡ ph → Steps p (resume ph p)
  resume-Steps p waiting e = same_view p (empty_hand p refl e)
  resume-Steps p polling e = stay
  resume-Steps p (sending _) e = stay
  resume-Steps p stopped e = stay

  -- Every step of the two goroutines is a step of a queue that delivers in order: it takes in a batch
  -- at the back, processes the message in front, drops messages from the back once the listener has
  -- been stopped, or changes nothing that is seen of it.
  pub step-Delivers :
      (m : Move) (p : Pipeline W)
      → Delivers unmarshal p.cancelled (view p) (view (step client config unmarshal m p))
  unfolding step take finish
  step-Delivers cancel p = stay
  step-Delivers poll p = head-Steps p p.phase refl
  step-Delivers send p = hand_over-Steps p p.phase refl
  step-Delivers see_done p = leave-Steps p p.phase refl
  step-Delivers time_out p = resume-Steps p p.phase refl
  step-Delivers (process ready) p =
      if_elim (Steps p) p.consuming (λ _. process-Steps p p.batch ready refl) (λ _. stay)
  step-Delivers take_error p =
      if_elim (Steps p) (p.consuming && is_idle p.batch) (λ _. stay) (λ _. stay)
  step-Delivers see_closed p = if_elim (Steps p) _ (λ _. stay) (λ _. stay)
