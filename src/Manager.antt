-- ===== src/Manager.antt =====
-- internal/listener/manager.go: which listeners run for each Config. The providers' listeners are
-- not looked into here: what creating and starting a listener comes to is a parameter.
pub mod Loops
pub mod Stops
pub mod Reconcile
pub mod Manages
pub mod Calm
pub mod StopAll
pub mod Fits
pub mod Sound
pub mod History
use Prim.Native.String.{◌++◌ as ◌+++◌}
use reloader.Prelude.{
  ℕ, suc, ◌+◌, eqb, String, Bool, true, false, not, ◌&&◌, ◌||◌, ◌==◌, eq_iff, ◌≡◌, ◌↔◌, refl, ap₂,
  arith, Option, none, some, List, [], ◌∷◌, ◌++◌, map, Result, ok, err, if◌then◌else◌, Eq, Map,
  string_eq, lookup, insert, delete, is_some,
}
use reloader.Api.{
  AwsSqsConfig, AzureEventGridConfig, GooglePubSubConfig, HashicorpVaultConfig, TcpSocketConfig,
  MockConfig, KubernetesObjectConfig, WebhookConfig, NotificationSource, ConfigSpec,
}
use reloader.Api.Validation.{Duplicate, validate}
use reloader.Webhook.Server.{WebhookServer, register, unregister, route_key}

-- types.NamespacedName
pub record NamespacedName : Type 0 where
  pub namespace : String
  pub name : String

abbrev pub same_name : NamespacedName → NamespacedName → Bool
same_name a b = a.namespace == b.namespace && a.name == b.name

pub same_name_iff : (a b : NamespacedName) → (same_name a b ≡ true) ↔ (a ≡ b)
same_name_iff a b = (
  λ h. ground (arith, eq_iff a.namespace b.namespace, eq_iff a.name b.name),
  λ e. ground (arith, eq_iff a.namespace b.namespace, eq_iff a.name b.name),
)

instance abbrev pub name_eq : Eq NamespacedName
name_eq = record { beq = same_name; beq_iff = same_name_iff }

-- The configuration of a source that its type selects: a pointer, which may be nil.
pub data SourceConfig : Type 0 where
  aws_sqs : Option AwsSqsConfig → SourceConfig
  azure_event_grid : Option AzureEventGridConfig → SourceConfig
  google_pub_sub : Option GooglePubSubConfig → SourceConfig
  hashicorp_vault : Option HashicorpVaultConfig → SourceConfig
  tcp_socket : Option TcpSocketConfig → SourceConfig
  mock : Option MockConfig → SourceConfig
  kubernetes_secret : Option KubernetesObjectConfig → SourceConfig
  kubernetes_config_map : Option KubernetesObjectConfig → SourceConfig
  webhook : Option WebhookConfig → SourceConfig

unfoldable pub config_of : NotificationSource → Option SourceConfig
config_of s =
    if s.type == "AwsSqs"
    then some (aws_sqs s.aws_sqs)
    else if s.type == "AzureEventGrid"
    then some (azure_event_grid s.azure_event_grid)
    else if s.type == "GooglePubSub"
    then some (google_pub_sub s.google_pub_sub)
    else if s.type == "HashicorpVault"
    then some (hashicorp_vault s.hashicorp_vault)
    else if s.type == "TCPSocket"
    then some (tcp_socket s.tcp_socket)
    else if s.type == "Mock"
    then some (mock s.mock)
    else if s.type == "KubernetesSecret"
    then some (kubernetes_secret s.kubernetes_secret)
    else if s.type == "KubernetesConfigMap"
    then some (kubernetes_config_map s.kubernetes_config_map)
    else if s.type == "Webhook"
    then some (webhook s.webhook)
    else none

-- What a call of a provider or of its listener comes to; some panic.
pub data Attempt : Type 0 where
  works : Attempt
  fails : Attempt
  panics : Attempt

-- What the manager calls and this repository's other code decides: the hash of a configuration in
-- JSON, whether a type has a provider, what creating a listener of a source and starting it come to,
-- whether stopping it fails, and the order in which a range over a map visits the keys.
pub record Host : Type 0 where
  pub fingerprint : SourceConfig → String
  pub has_provider : String → Bool
  pub creates : NotificationSource → Attempt
  pub starts : NotificationSource → Attempt
  pub stop_fails : NotificationSource → Bool
  pub order : List String → List String

-- `CreateListener`, then `Start` of the listener that it gives.
unfoldable pub begins : Host → NotificationSource → Attempt
begins host source = elim (host.creates source) [
  | works ↦ host.starts source
  | fails ↦ fails
  | panics ↦ panics
]

abbrev pub is_works : Attempt → Bool
is_works works = true
is_works fails = false
is_works panics = false

abbrev pub is_panics : Attempt → Bool
is_panics works = false
is_panics fails = false
is_panics panics = true

-- Whether the creation or start of a source's listener panics; those of a webhook listener do not.
unfoldable pub panics_on : Host → NotificationSource → Bool
panics_on host source =
    not (source.type == "Webhook")
    && (host.has_provider source.type && is_panics (begins host source))

-- A listener; `route` is its key on the webhook server, if it is a webhook listener.
pub record Listener : Type 0 where
  pub id : ℕ
  pub source : NotificationSource
  pub route : Option String

-- The part of the state that the loops over one Config's listeners change. `stopped` says which
-- listeners had `Stop` called, by their identity.
pub record Scope : Type 0 where
  pub own : Map String Listener
  pub server : Option WebhookServer
  pub stopped : ℕ → Bool
  pub next_id : ℕ

pub record Manager : Type 0 where
  pub listeners : Map NamespacedName (Map String Listener)
  pub server : Option WebhookServer
  pub stopped : ℕ → Bool
  pub next_id : ℕ

-- How a call of `ManageListeners` fails: the validation, or a panic, with the manager that it leaves.
pub data ManageError : Type 0 where
  invalid : List Duplicate → ManageError
  panicked : Manager → ManageError

abbrev on_server : (WebhookServer → WebhookServer) → Option WebhookServer → Option WebhookServer
on_server f none = none
on_server f (some s) = some (f s)

abbrev unregister_route : Option String → Option WebhookServer → Option WebhookServer
unregister_route none server = server
unregister_route (some key) server = on_server (unregister key) server

-- `l.Stop()` and the removal of its entry.
unfoldable pub stop_listener : String → Listener → Scope → Scope
stop_listener key l st = record {
  own = delete key st.own;
  server = unregister_route l.route st.server;
  stopped = λ i. if eqb i l.id then true else st.stopped i;
  next_id = st.next_id;
}

-- The loop over the listeners there are, at one key.
unfoldable pub remove_unwanted : Map String NotificationSource → String → Scope → Scope
remove_unwanted desired key st = elim (lookup key st.own) [
  | none ↦ st
  | some l ↦ if is_some (lookup key desired) then st else stop_listener key l st
]

abbrev empty_webhook_config : WebhookConfig
empty_webhook_config = record {
  secret_identifier_on_payload = "";
  path_suffix = "";
  auth = none;
  retry_policy = none;
}

-- The configuration of a webhook source; `none` where another block is set in its place.
unfoldable pub webhook_config : NotificationSource → Option WebhookConfig
webhook_config source = elim source.webhook [
  | some config ↦ some config
  | none ↦
      if is_some source.kubernetes_secret || is_some source.kubernetes_config_map
      then none
      else some empty_webhook_config
]

abbrev store : String → NotificationSource → Option String → Option WebhookServer → Scope → Scope
store key source route server st = record {
  own = insert key (record { id = st.next_id; source = source; route = route }) st.own;
  server = server;
  stopped = st.stopped;
  next_id = suc st.next_id;
}

abbrev start_webhook : String → NotificationSource → String → WebhookConfig → Scope → Scope
start_webhook key source route config st =
    store key source (some route) (on_server (register route (some config)) st.server) st

-- A range over a map, by the keys that it visits.
unfoldable pub visit : (String → Scope → Scope) → List String → Scope → Scope
visit body [] st = st
visit body (key ∷ keys) st = visit body keys (body key st)

abbrev pub keys {ℓ} : {V : Type ℓ} → Map String V → List String
keys m = map (λ e. e.0) m

unfoldable pub count_webhooks : Map String NotificationSource → ℕ
count_webhooks [] = 0
count_webhooks ((_, source) ∷ rest) =
    let n = count_webhooks rest in if source.type == "Webhook" then suc n else n

abbrev pub own_of : Option (Map String Listener) → Map String Listener
own_of none = []
own_of (some own) = own

-- An empty map of listeners is dropped.
abbrev put_own :
    NamespacedName
    → Map String Listener
    → Map NamespacedName (Map String Listener)
    → Map NamespacedName (Map String Listener)
put_own manifest [] all = delete manifest all
put_own manifest (e ∷ es) all = insert manifest (e ∷ es) all

module _ (host : Host) where
  unfoldable pub generate_listener_key : NotificationSource → Option String
  generate_listener_key source = elim (config_of source) [
    | none ↦ none
    | some config ↦ some (source.type +++ ("-" +++ host.fingerprint config))
  ]

  abbrev desire : NotificationSource → Map String NotificationSource → Map String NotificationSource
  desire source desired = elim (generate_listener_key source) [
    | none ↦ desired
    | some key ↦ insert key source desired
  ]

  -- The sources by their keys; those of an unsupported type are left out.
  unfoldable pub desired_from :
      Map String NotificationSource → List NotificationSource → Map String NotificationSource
  desired_from desired [] = desired
  desired_from desired (source ∷ rest) = desired_from (desire source desired) rest

  -- A listener for a source that has none.
  unfoldable pub create_listener : NamespacedName → ℕ → String → NotificationSource → Scope → Scope
  create_listener manifest count key source st =
      if source.type == "Webhook"
      then elim st.server [
        | none ↦ st
        | some _ ↦ elim (webhook_config source) [
          | none ↦ st
          | some config ↦
              start_webhook key source (route_key manifest.name config.path_suffix key count) config
                st
        ]
      ]
      else if host.has_provider source.type && is_works (begins host source)
      then store key source none st.server st
      else st

  -- The loop over the desired listeners, at one key.
  unfoldable pub add_new : NamespacedName → Map String NotificationSource → String → Scope → Scope
  add_new manifest desired key st = elim (lookup key desired) [
    | none ↦ st
    | some source ↦
        if is_some (lookup key st.own)
        then st
        else create_listener manifest (count_webhooks desired) key source st
  ]

  -- Both loops, the unwanted listeners first.
  unfoldable pub reconcile : NamespacedName → Map String NotificationSource → Scope → Scope
  reconcile manifest desired st =
      visit (add_new manifest desired) (host.order (keys desired))
        (visit (remove_unwanted desired) (host.order (keys st.own)) st)

  abbrev panics_at : Map String NotificationSource → String → Scope → Bool
  panics_at desired key st = elim (lookup key desired) [
    | none ↦ false
    | some source ↦ not (is_some (lookup key st.own)) && panics_on host source
  ]

  -- The loop over the desired listeners up to a panic: the state that it leaves, if there is one.
  unfoldable pub add_until :
      NamespacedName → Map String NotificationSource → List String → Scope → Option Scope
  add_until manifest desired [] st = none
  add_until manifest desired (key ∷ rest) st =
      let later = add_until manifest desired rest (add_new manifest desired key st) in
      if panics_at desired key st then some st else later

  -- Both loops, if the second one panics.
  unfoldable pub interrupted : NamespacedName → Map String NotificationSource → Scope → Option Scope
  interrupted manifest desired st =
      add_until manifest desired (host.order (keys desired))
        (visit (remove_unwanted desired) (host.order (keys st.own)) st)

  unfoldable pub scope_of : NamespacedName → Manager → Scope
  scope_of manifest lm = record {
    own = own_of (lookup manifest lm.listeners);
    server = lm.server;
    stopped = lm.stopped;
    next_id = lm.next_id;
  }

  unfoldable pub put_scope : NamespacedName → Scope → Manager → Manager
  put_scope manifest st lm = record {
    listeners = put_own manifest st.own lm.listeners;
    server = st.server;
    stopped = st.stopped;
    next_id = st.next_id;
  }

  -- A call that panics does not come to drop an empty map.
  unfoldable pub leave_scope : NamespacedName → Scope → Manager → Manager
  leave_scope manifest st lm = record {
    listeners = insert manifest st.own lm.listeners;
    server = st.server;
    stopped = st.stopped;
    next_id = st.next_id;
  }

  -- The validation that is skipped for a nil slice.
  unfoldable pub check_sources :
      Option (List NotificationSource) → Result (List Duplicate) (Unit {0})
  check_sources none = ok tt
  check_sources (some sources) =
      validate (record { notification_sources = sources; destinations_to_watch = [] })

  abbrev pub sources_of : Option (List NotificationSource) → List NotificationSource
  sources_of none = []
  sources_of (some sources) = sources

  -- `ManageListeners`
  unfoldable pub manage_listeners :
      NamespacedName → Option (List NotificationSource) → Manager → Result ManageError Manager
  unfolding scope_of put_scope leave_scope check_sources
  manage_listeners manifest sources lm = elim (check_sources sources) [
    | err e ↦ err (invalid e)
    | ok _ ↦
        elim (interrupted manifest (desired_from [] (sources_of sources)) (scope_of manifest lm)) [
          | some st ↦ err (panicked (leave_scope manifest st lm))
          | none ↦ ok (
              put_scope manifest
                (reconcile manifest (desired_from [] (sources_of sources)) (scope_of manifest lm))
                lm)
        ]
  ]

-- Whether a listener that is not there yet is created and started; a webhook listener needs the
-- server, and no other block in place of its own.
unfoldable pub startable : Host → Bool → NotificationSource → Bool
startable host has_server source =
    if source.type == "Webhook"
    then has_server && is_some (webhook_config source)
    else host.has_provider source.type && is_works (begins host source)
