-- ===== src/Listener/Polling/Accounts.antt =====
-- Where the messages that were polled from an SQS queue are, at any time.
use mathlib.Core.List.{append-nil, append_assoc}
use reloader.Prelude.{
  String, Bool, false, ◌&&◌, ◌≡◌, ◌≢◌, refl, sym, ap, ap₂, ◌∙◌, ◌⊎◌, inl, inr, Option, List, [],
  ◌∷◌, ◌++◌, Result, ok, err, if_elim, and_iff,
}
use reloader.Api.{AwsSqsConfig}
use reloader.Chan.{Ready}
use reloader.Listener.Sqs.{SecretMessage, process_message, process_batch}
use reloader.Listener.Polling.{
  Message, SqsClient, PollError, failed_to_receive, nil_message_id, poll_messages, Phase, polling,
  sending, waiting, stopped, Pipeline, Move, cancel, poll, send, see_done, time_out, process,
  take_error, see_closed, started, bodies, publish, polled_with, process_next, hand_over, leave,
  at_head, step, run, is_idle, is_stopped, resume, take, finish,
}
use reloader.Listener.Polling.InOrder.{in_hand, idle-nil}
use reloader.Listener.Polling.Batches.{first_of, first_of-append, process_batch-append}

module _ {W : Type 0} (unmarshal : String → Option SecretMessage) where
  -- The polled messages, in order: those that were handled, those of the consumer's batch, those that
  -- the poller is sending, and those that were dropped when the listener was stopped.
  pub record Accounts (p : Pipeline W) : Type 0 where
    pub lost : List (Option String)
    pub all : p.polled ≡ first_of p.handled ++ (p.batch ++ (in_hand p.phase ++ lost))
    pub events : p.published ≡ process_batch unmarshal p.handled
    pub kept : p.cancelled ≡ false → lost ≡ []
    pub ended : (lost ≡ []) ⊎ (p.phase ≡ stopped)

  -- While the poller runs, or if nothing was dropped, every polled message is handled, in the batch or
  -- in hand.
  of_live :
      (p : Pipeline W)
      → p.polled ≡ first_of p.handled ++ (p.batch ++ in_hand p.phase)
      → p.published ≡ process_batch unmarshal p.handled
      → Accounts p
  of_live p e events = record {
    lost = [];
    all = e ∙ ap (λ h. first_of p.handled ++ (p.batch ++ h)) (sym (append-nil (in_hand p.phase)));
    events = events;
    kept = λ _. refl;
    ended = inl refl;
  }

  live :
      (p : Pipeline W) {ph : Phase}
      → p.phase ≡ ph
      → ph ≢ stopped
      → Accounts p
      → p.polled ≡ first_of p.handled ++ (p.batch ++ in_hand ph)
  live p {ph} e runs h =
      let none : h.lost ≡ [] = elim h.ended [ inl n ↦ n | inr s ↦ absurd (runs (sym e ∙ s)) ] in
      h.all
      ∙ ap₂ (λ k l. first_of p.handled ++ (p.batch ++ (in_hand k ++ l))) e none
      ∙ ap (λ k. first_of p.handled ++ (p.batch ++ k)) (append-nil (in_hand ph))

  -- The rest of the state does not matter.
  retouch :
      (w : W) (pending consuming : Bool) (p : Pipeline W)
      → Accounts p
      → Accounts (record p { queue = w; error_pending = pending; consuming = consuming })
  retouch w pending consuming p h = record {
    lost = h.lost;
    all = h.all;
    events = h.events;
    kept = h.kept;
    ended = h.ended;
  }

  polled-Accounts :
      (r : Result PollError (List Message) × W) (p : Pipeline W)
      → p.phase ≡ polling
      → Accounts p
      → Accounts (polled_with r p)
  unfolding polled_with
  polled-Accounts (ok [], w) p e h = retouch w p.error_pending p.consuming p h
  polled-Accounts (ok (m ∷ ms), w) p e h =
      of_live _
        (ap (λ l. l ++ bodies (m ∷ ms))
            (live p e (λ x. absurd (cc x)) h
              ∙ ap (λ b. first_of p.handled ++ b) (append-nil p.batch))
          ∙ append_assoc (first_of p.handled) p.batch (bodies (m ∷ ms)))
        h.events
  polled-Accounts (err (failed_to_receive _), w) p e h =
      of_live _ (live p e (λ x. absurd (cc x)) h) h.events
  polled-Accounts (err nil_message_id, w) p e h =
      of_live _ (live p e (λ x. absurd (cc x)) h) h.events

  leave-Accounts : (p : Pipeline W) (ph : Phase) → p.phase ≡ ph → Accounts p → Accounts (leave ph p)
  unfolding leave
  leave-Accounts p (sending ms) e h =
      if_elim Accounts p.cancelled
        (λ c. record {
          lost = bodies ms;
          all = live p e (λ x. absurd (cc x)) h;
          events = h.events;
          kept = λ n. absurd (cc (sym c ∙ n));
          ended = inr refl;
        })
        (λ _. h)
  leave-Accounts p waiting e h =
      if_elim Accounts p.cancelled (λ _. of_live _ (live p e (λ x. absurd (cc x)) h) h.events)
        (λ _. h)
  leave-Accounts p polling e h = h
  leave-Accounts p stopped e h = h

  hand_over-Accounts :
      (p : Pipeline W) (ph : Phase) → p.phase ≡ ph → Accounts p → Accounts (hand_over ph p)
  unfolding hand_over
  hand_over-Accounts p (sending ms) e h =
      if_elim Accounts (p.consuming && is_idle p.batch)
        (λ c.
          of_live _
            (live p e (λ x. absurd (cc x)) h
              ∙ ap (λ b. first_of p.handled ++ (b ++ bodies ms))
                  (idle-nil p.batch ((and_iff p.consuming (is_idle p.batch)).0 c).1)
              ∙ ap (λ b. first_of p.handled ++ b) (sym (append-nil (bodies ms))))
            h.events)
        (λ _. h)
  hand_over-Accounts p waiting e h = h
  hand_over-Accounts p polling e h = h
  hand_over-Accounts p stopped e h = h

  process-Accounts :
      (p : Pipeline W) (b : List (Option String)) (ready : Ready)
      → p.batch ≡ b
      → Accounts p
      → Accounts (process_next unmarshal b ready p)
  unfolding process_next
  process-Accounts p [] ready e h = h
  process-Accounts p (message ∷ rest) ready e h = record {
    lost = h.lost;
    all =
        h.all
        ∙ ap (λ b. first_of p.handled ++ (b ++ (in_hand p.phase ++ h.lost))) e
        ∙ sym
            (append_assoc (first_of p.handled) (message ∷ []) (rest ++ (in_hand p.phase ++ h.lost)))
        ∙ ap (λ l. l ++ (rest ++ (in_hand p.phase ++ h.lost)))
            (sym (first_of-append p.handled ((message, ready) ∷ [])));
    events =
        ap (publish (process_message unmarshal message ready)) h.events
        ∙ sym (process_batch-append unmarshal p.handled message ready);
    kept = h.kept;
    ended = h.ended;
  }

  resume-Accounts :
      (p : Pipeline W) (ph : Phase) → p.phase ≡ ph → Accounts p → Accounts (resume ph p)
  resume-Accounts p waiting e h = of_live _ (live p e (λ x. absurd (cc x)) h) h.events
  resume-Accounts p polling e h = h
  resume-Accounts p (sending _) e h = h
  resume-Accounts p stopped e h = h

module _ {W : Type 0} (client : SqsClient W) (config : AwsSqsConfig)
    (unmarshal : String → Option SecretMessage) where
  head-Accounts :
      (p : Pipeline W) (ph : Phase)
      → p.phase ≡ ph
      → Accounts unmarshal p
      → Accounts unmarshal (at_head client config unmarshal p ph)
  unfolding at_head
  head-Accounts p polling e h =
      if_elim (Accounts unmarshal) p.cancelled
        (λ _. of_live unmarshal _ (live unmarshal p e (λ x. absurd (cc x)) h) h.events)
        (λ _. polled-Accounts unmarshal (poll_messages client config p.queue) p e h)
  head-Accounts p (sending _) e h = h
  head-Accounts p waiting e h = h
  head-Accounts p stopped e h = h

  step-Accounts :
      (m : Move) (p : Pipeline W)
      → Accounts unmarshal p
      → Accounts unmarshal (step client config unmarshal m p)
  unfolding step take finish
  step-Accounts cancel p h = record {
    lost = h.lost;
    all = h.all;
    events = h.events;
    kept = λ e. absurd (cc e);
    ended = h.ended;
  }
  step-Accounts poll p h = head-Accounts p p.phase refl h
  step-Accounts send p h = hand_over-Accounts unmarshal p p.phase refl h
  step-Accounts see_done p h = leave-Accounts unmarshal p p.phase refl h
  step-Accounts time_out p h = resume-Accounts unmarshal p p.phase refl h
  step-Accounts (process ready) p h =
      if_elim (Accounts unmarshal) p.consuming
        (λ _. process-Accounts unmarshal p p.batch ready refl h) (λ _. h)
  step-Accounts take_error p h =
      if_elim (Accounts unmarshal) (p.consuming && is_idle p.batch)
        (λ _. retouch unmarshal p.queue false p.consuming p h) (λ _. h)
  step-Accounts see_closed p h =
      if_elim (Accounts unmarshal) (is_stopped p.phase && is_idle p.batch)
        (λ _. retouch unmarshal p.queue p.error_pending false p h) (λ _. h)

  from-Accounts :
      (ms : List Move) (p : Pipeline W)
      → Accounts unmarshal p
      → Accounts unmarshal (run client config unmarshal ms p)
  unfolding run
  from-Accounts [] p h = h
  from-Accounts (m ∷ ms) p h =
      from-Accounts ms (step client config unmarshal m p) (step-Accounts m p h)

  -- Whatever the two goroutines do after the start, and however the queue answers: the messages that
  -- were polled are, in order, those that were handled, those of the batch at hand, those that the
  -- poller is about to send, and those that were dropped; a message is dropped only if the listener
  -- was stopped, and the poller then polls no more; and the events published are those of the
  -- handled messages, each once.
  pub run-Accounts :
      (ms : List Move) (w : W) → Accounts unmarshal (run client config unmarshal ms (started w))
  unfolding process_batch
  run-Accounts ms w = from-Accounts ms (started w) (of_live unmarshal (started w) refl refl)
