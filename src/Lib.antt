-- ===== src/Lib.antt =====
-- A verification library for Reloader, the Kubernetes controller that listens for changes of secrets
-- and updates the objects that use them.
--
-- The program. A Config names notification sources and destinations. The controller reconciles each
-- Config: it keeps the finalizer and the annotation of the object, hands the destinations to the
-- event handler, and has the listener manager start a listener for each source and stop the others.
-- A listener turns what it hears (a webhook request, a line on a socket, a message of a queue, a
-- report of a Kubernetes watch) into a rotation event on the channel. The event handler takes each
-- event to the destinations: it filters the objects of the destination's kind, asks which refer to
-- the event's secret, updates those, and waits for each update.
--
-- The files. Each file opens with the code that it is about.
--   Prelude/       Go's strings, maps and (value, error) results, and the lemmas on them.
--   Events         internal/events: SecretRotationEvent.
--   Api/           api/v1alpha1: the types, and ConfigSpec.Validate (Api/Validation).
--   Chan           Go's select between a channel and a context.
--   Secrets        internal/util/secret_retriever.go, internal/util/resolvers, and the readers of a
--                  Secret's key in the webhook route and the Kubernetes watch.
--   Cloud/         pkg/auth: Aws (with internal/util/token_retriever.go) and Gcp.
--   Webhook/       internal/listener/webhook: route.go is Auth (authenticate), Retry (handleRetries,
--                  retryMessage) and Route (handle); server.go is Server (RouteKey,
--                  routeKeyFromPath, Register, Unregister, ServeHTTP) and Server/Running (Start).
--   Manager/       internal/listener/manager.go: ManageListeners, and StopAll (Manager/StopAll).
--   Handler/       internal/handler: Schema (the registry), Processor (HandleEvent), and the handlers
--                  Deployment, ExternalSecret, PushSecret and Workflow; Matching is their
--                  isResourceWatched with internal/util/resource_watch.go.
--   Listener/      internal/listener: Tcp and Sockets (tcp), Vault (hashivault), PubSub, Sqs and Polling
--                  (sqs, with pkg/listener/aws), EventGrid, Watch and KubeConfig (kubernetes), Mock,
--                  and Providers (schema, register.go and each provider.go).
--   Controller     internal/controller/reloader_controller.go: Reconcile, Controller/Dispatch for
--                  processEvents, and Controller/Program for SetupWithManager and the shutdown, where
--                  reconciliations, manager, loop and goroutines run together.
--   Entry          cmd/main.go: the options, the start of the program and its exit code.
--   Examples/      runs at concrete inputs.
-- A Go function keeps its name in the spelling of this library; a handler that writes a response, or
-- a call that changes shared state, returns the response or the state that it leaves. A module below
-- a component proves what its name says: Webhook/Server/Paths is about paths, and so on.
--
-- State. The manager's listeners and the server's routes carry an identity, the number of their
-- creation, so that a stop or a cancellation is recorded for the listener or route and not for its
-- key, and a dropped one can still be spoken of. The loops over one Config's listeners run on the
-- part of the manager's state that they change. The cluster is a state of a type that the handlers
-- do not know, which the client's calls read and change.
--
-- Goroutines. Where several goroutines share channels (the poller and the consumer of an SQS queue,
-- the loop that dispatches events and its goroutines) a state holds them all, a move says which one
-- goes on and how, and a run is a list of moves. A move that is not possible changes nothing, so that
-- the lists are all the interleavings. What has gone through a channel is kept in the state. A
-- goroutine's calls on a cluster or queue are one step.
--
-- Parameters. Code that is not in the repository is an argument of what uses it: the API server and
-- the client, controller-runtime's functions on finalizers, JSON and SHA-1, base64, gjson, the
-- meaning of label selectors and of regular expressions, and the order in which Go visits a map. The
-- scheduler's choice in a select, the time, and what a read returns are arguments as well.
--
-- Panics. A panic that ends the process (of a goroutine that handles an event, without recover) is a
-- state of its own, after which nothing happens. One inside Reconcile, which controller-runtime
-- recovers by default, leaves the manager with what the loops had done.
--
-- Numbers and fuel. Counts and times are natural numbers, MaxRetries is a signed number. The retry
-- loop runs on fuel; eleven units are enough, since a run number starts at one and the loop gives up
-- at ten at the latest. The wait for a Deployment runs on the 6000 ticks of 100 ms that ten minutes
-- hold. All other loops are recursive on the list, the map or the text that they walk.
--
-- Not modelled: logging, the text of error messages, the transport below sockets and net/http's server,
-- the start of goroutines that share nothing, and the locks, under which each call on shared state is
-- one step; what controller-runtime does with what is registered; the options of Google's IAM
-- client; how the flags are read; generated code.
mod Prelude
pub mod Events
pub mod Api
pub mod Chan
pub mod Secrets
pub mod Cloud
pub mod Webhook
pub mod Manager
pub mod Handler
pub mod Listener
pub mod Controller
pub mod Entry
mod Examples
