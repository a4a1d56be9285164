-- ===== src/Examples/Queues.antt =====
-- Runs of the polling of an SQS queue and of the dispatch of events.
use mathlib.Core.List.{Perm}
use reloader.Prelude.{String, false, ◌≡◌, refl, Option, none, some, List, [], ◌∷◌, ok}
use reloader.Api.{AwsSqsConfig}
use reloader.Chan.{room}
use reloader.Listener.Sqs.{SecretMessage}
use reloader.Listener.Polling
use reloader.Listener.Polling.{
  Message, SqsClient, Pipeline, started, step, run, poll_messages, delete_messages, polled_with,
  hand_over, process_next, leave,
}
use reloader.Listener.Polling.InOrder.{Delivers, view, step-Delivers}
use reloader.Listener.Polling.Accounts.{Accounts, run-Accounts}
use reloader.Handler.Objects.{Deployment}
use reloader.Controller.Dispatch
use reloader.Controller.Dispatch.{Dispatcher, set_up}
use reloader.Controller.Dispatch.Accounted.{Accounted, run-Accounted, events_of}
use reloader.Controller.Dispatch.Drains.{NeverPanics, run-drains}
use reloader.Examples.Surviving.{watching, providers-NeverPanics}
use reloader.Examples.Handling.{providers, deployed, event}

-- A queue is the messages that are to be received; a call gives all of them, and a deletion fails.
abbrev queue : SqsClient (List Message)
queue = record { receive_message = λ _ w. (ok w, []); delete_message = λ _ _ w. (false, w) }

abbrev message : String → Message
message body = record { message_id = some body; receipt_handle = some body; body = some body }

abbrev config : AwsSqsConfig
config = record {
  queue_url = "https://sqs";
  auth = record {
    auth_method = "static";
    region = "eu-west-1";
    service_account = none;
    secret_ref = none;
  };
  max_number_of_messages = 10;
  wait_time_seconds = 20;
  visibility_timeout = 30;
}

abbrev unmarshal : String → Option SecretMessage
unmarshal body = some (record { event_time = "now"; secret_id = body })

-- The listener is stopped when one message of the first batch is processed and the next batch is
-- about to be sent.
abbrev moves : List Polling.Move
moves = Polling.poll ∷ Polling.send ∷ Polling.process room ∷ Polling.cancel ∷ Polling.see_done ∷ []

run-Accounts_example :
    Accounts unmarshal (run queue config unmarshal moves (started (message "a" ∷ message "b" ∷ [])))
run-Accounts_example = run-Accounts queue config unmarshal moves (message "a" ∷ message "b" ∷ [])

step-Delivers_example :
    Delivers unmarshal false
      (view (started (message "a" ∷ [])))
      (view (step queue config unmarshal Polling.poll (started (message "a" ∷ []))))
step-Delivers_example =
    step-Delivers queue config unmarshal Polling.poll (started (message "a" ∷ []))

abbrev steps : List Dispatch.Move
steps = Dispatch.send event ∷ Dispatch.receive ∷ Dispatch.send event ∷ Dispatch.finish 0 ∷ []

abbrev dispatcher : Dispatcher Deployment
dispatcher = Dispatch.run providers steps (set_up watching deployed)

run-Accounted_example : Accounted dispatcher
run-Accounted_example = run-Accounted providers steps watching deployed

-- The same before the goroutine returns: one event runs, and one is in the channel.
abbrev pending : List Dispatch.Move
pending = Dispatch.send event ∷ Dispatch.receive ∷ Dispatch.send event ∷ []

abbrev waiting : Dispatcher Deployment
waiting = Dispatch.run providers pending (set_up watching deployed)

alive : (waiting.returned ≡ false) × (waiting.crashed ≡ false)
unfolding Dispatch.run Dispatch.step Dispatch.live_step Dispatch.accept Dispatch.dispatch
alive = (refl, refl)

waiting-NeverPanics : NeverPanics providers waiting.event_handler.cache
unfolding Dispatch.run Dispatch.step Dispatch.live_step Dispatch.accept Dispatch.dispatch
waiting-NeverPanics = providers-NeverPanics

run-drains_example :
    (ms : List Dispatch.Move) × ((Dispatch.run providers ms waiting).event_chan ≡ [])
    × ((Dispatch.run providers ms waiting).running ≡ [])
    × Perm waiting.accepted (events_of (Dispatch.run providers ms waiting).handled)
run-drains_example =
    run-drains providers waiting (run-Accounted providers pending watching deployed) alive.0 alive.1
      waiting-NeverPanics
