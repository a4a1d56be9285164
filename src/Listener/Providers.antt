-- ===== src/Listener/Providers.antt =====
-- The registry of the listeners' providers (internal/listener/schema/schema.go), what each provider
-- creates (provider.go of each package below internal/listener), and which are registered
-- (internal/listener/register.go and the packages' `init`).
pub mod Stands
pub mod Kinds
use reloader.Prelude.{
  String, Bool, true, false, Option, none, some, List, [], ◌∷◌, Result, ok, err, ◌>>=◌, Map,
  string_eq, lookup, insert,
}
use reloader.Api.{
  AwsSdkAuth, AwsSqsConfig, AzureEventGridConfig, GooglePubSubConfig, HashicorpVaultConfig,
  TcpSocketConfig, MockConfig, KubernetesObjectConfig, NotificationSource,
}
use reloader.Secrets.{GetSecret}
use reloader.Cloud.Aws.{GetServiceAccount, LoadOptions, AuthError, create_aws_sdk_config}
use reloader.Cloud.Gcp.{Google, GcpError, TokenSource, new_token_source}
use reloader.Listener.KubeConfig.{Handler, new_handler}
use reloader.Listener.Sockets.{TcpSocket, new_tcp_socket_listener, vault_socket}
use reloader.Listener.Mock.{MockNotificationListener, of_config}

pub data CreateError : Type 0 where
  config_nil : CreateError
  parse_failed : String → CreateError
  aws_config_failed : AuthError → CreateError
  token_source_failed : GcpError → CreateError
  client_failed : String → CreateError

-- A listener as it is created, by its configuration and what it got from the cloud.
pub data Created (C : Type 0) : Type 0 where
  aws_sqs_listener : AwsSqsConfig → C → Created C
  event_grid_listener : AzureEventGridConfig → Created C
  google_pub_sub : GooglePubSubConfig → TokenSource → Created C
  hashicorp_vault : HashicorpVaultConfig → TcpSocket → Created C
  tcp_socket : TcpSocket → Created C
  mock : MockNotificationListener → Created C
  kubernetes : Handler → Created C

-- What creation depends on: JSON, the SDKs and the cluster. `C` is the SDK's configuration for AWS.
-- The target of `TransformConfig` is the same record, of pkg/models/aws.
pub record Env (C : Type 0) : Type 0 where
  pub marshal : AwsSqsConfig → Result String String
  pub unmarshal : String → Result String AwsSqsConfig
  pub load_default_config : LoadOptions → Result String C
  pub client : GetSecret
  pub accounts : GetServiceAccount
  pub google : Google
  pub new_client_fails : String → TokenSource → Option String

-- `TransformConfig` of internal/util/mapper
unfoldable pub transform_config :
    {A B : Type 0} → (A → Result String String) → (String → Result String B) → A → Result String B
transform_config marshal unmarshal config = marshal config >>= unmarshal

-- A provider is its `CreateListener`; the source is a pointer.
abbrev pub Provider : Type 0 → Type 0
Provider C = Env C → Option NotificationSource → Result CreateError (Created C)

abbrev pub Registry : Type 0 → Type 0
Registry C = Map String (Provider C)

abbrev failing : {E A : Type 0} → (E → CreateError) → Result E A → Result CreateError A
failing f (ok a) = ok a
failing f (err e) = err (f e)

-- `config == nil || config.X == nil`
abbrev block_of :
    {B : Type 0}
    → (NotificationSource → Option B)
    → Option NotificationSource
    → Result CreateError B
block_of block none = err config_nil
block_of block (some source) = elim (block source) [ none ↦ err config_nil | some b ↦ ok b ]

module _ {C : Type 0} where
  -- `NewAWSSQSListener` of pkg/listener/aws
  unfoldable pub new_aws_sqs_listener : Env C → AwsSqsConfig → Result CreateError (Created C)
  new_aws_sqs_listener env config =
      failing aws_config_failed
        (create_aws_sdk_config env.load_default_config env.client env.accounts config.auth)
      >>= λ aws_config. ok (aws_sqs_listener config aws_config)

  unfoldable pub create_aws_sqs : Provider C
  unfolding new_aws_sqs_listener transform_config
  create_aws_sqs env source = block_of (λ s. s.aws_sqs) source >>= λ config.
      failing parse_failed (transform_config env.marshal env.unmarshal config)
      >>= new_aws_sqs_listener env

  unfoldable pub create_azure_event_grid : Provider C
  create_azure_event_grid env source =
      block_of (λ s. s.azure_event_grid) source >>= λ config. ok (event_grid_listener config)

  unfoldable pub with_client :
      Env C → GooglePubSubConfig → TokenSource → Result CreateError (Created C)
  with_client env config ts = elim (env.new_client_fails config.project_id ts) [
    | some e ↦ err (client_failed e)
    | none ↦ ok (google_pub_sub config ts)
  ]

  unfoldable pub create_google_pub_sub : Provider C
  unfolding with_client
  create_google_pub_sub env source = block_of (λ s. s.google_pub_sub) source >>= λ config.
      failing token_source_failed
        (new_token_source env.google env.client env.accounts config.auth config.project_id)
      >>= with_client env config

  unfoldable pub create_hashicorp_vault : Provider C
  create_hashicorp_vault env source = block_of (λ s. s.hashicorp_vault) source >>= λ config.
      ok (hashicorp_vault config (vault_socket config))

  unfoldable pub create_tcp_socket : Provider C
  create_tcp_socket env source = block_of (λ s. s.tcp_socket) source >>= λ config.
      ok (tcp_socket (new_tcp_socket_listener config))

  unfoldable pub create_mock : Provider C
  create_mock env source = block_of (λ s. s.mock) source >>= λ config. ok (mock (of_config config))

  unfoldable pub create_kubernetes_secret : Provider C
  create_kubernetes_secret env source = block_of (λ s. s.kubernetes_secret) source >>= λ config.
      ok (kubernetes (new_handler "secret" config))

  unfoldable pub create_kubernetes_config_map : Provider C
  create_kubernetes_config_map env source =
      block_of (λ s. s.kubernetes_config_map) source >>= λ config.
      ok (kubernetes (new_handler "configmap" config))

  unfoldable pub force_register : String → Provider C → Registry C → Registry C
  force_register name prov providers = insert name prov providers

  -- `RegisterProvider`: the first provider of a name stays.
  unfoldable pub register_provider : String → Provider C → Registry C → Registry C × Bool
  register_provider name prov providers = elim (lookup name providers) [
    | some _ ↦ (providers, false)
    | none ↦ (insert name prov providers, true)
  ]

  unfoldable pub get_provider : String → Registry C → Option (Provider C)
  get_provider name providers = lookup name providers

  unfoldable pub register_all : List (String × Provider C) → Registry C → Registry C
  unfolding register_provider
  register_all [] providers = providers
  register_all ((name, prov) ∷ rest) providers =
      register_all rest (register_provider name prov providers).0

  -- The packages that internal/listener imports, in the order of their paths.
  abbrev pub packages : List (String × Provider C)
  packages =
      ("AzureEventGrid", create_azure_event_grid)
      ∷ ("HashicorpVault", create_hashicorp_vault)
      ∷ ("KubernetesConfigMap", create_kubernetes_config_map)
      ∷ ("KubernetesSecret", create_kubernetes_secret)
      ∷ ("Mock", create_mock)
      ∷ ("GooglePubSub", create_google_pub_sub)
      ∷ ("AwsSqs", create_aws_sqs)
      ∷ ("TCPSocket", create_tcp_socket)
      ∷ []

  -- The registry once the program has been initialised.
  unfoldable pub registered : Registry C
  unfolding register_all
  registered = register_all packages []
