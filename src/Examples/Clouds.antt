-- ===== src/Examples/Clouds.antt =====
-- Runs of the credentials for the clouds and of the providers of the listeners.
use reloader.Prelude.{
  true, ◌==◌, ◌==◌, ◌≡◌, ◌↔◌, refl, Option, none, some, [], ◌∷◌, ok, err, if◌then◌else◌, lookup,
  insert,
}
use reloader.Api.{
  ServiceAccountSelector, AwsSdkAuth, GooglePubSubAuth, KubernetesObjectConfig,
  AzureEventGridConfig, NotificationSource, SecretKeySelector,
}
use reloader.Secrets.{not_found}
use reloader.Cloud.Aws.{GetServiceAccount, LoadOptions, web_identity, new_token_retriever}
use reloader.Cloud.Gcp.{Google, jwt_token_source, new_token_source}
use reloader.Cloud.Gcp.Chosen.{Chosen}
use reloader.Cloud.Gcp.Granted.{new_token_source-ok_iff}
use reloader.Listener.KubeConfig.{
  RestConfig, Kube, nil_client_set, get_kube_config, start, new_handler,
}
use reloader.Listener.KubeConfig.Reached.{Reaches, get_kube_config-ok_iff}
use reloader.Listener.KubeConfig.Panics.{ByAccount, start-panics_iff}
use reloader.Listener.EventGrid.Paths
use reloader.Listener.EventGrid.Paths.{paths_of, AreServed, start-eq_iff}
use reloader.Manager.{SourceConfig, config_of}
use reloader.Listener.Providers.{mock, Env, create_mock, get_provider, registered}
use reloader.Listener.Providers.Stands.{Stands}
use reloader.Listener.Providers.Kinds.{get_provider-Stands}
use reloader.Listener.Mock.{of_config}
use reloader.Examples.Inputs.{client, selector}

abbrev accounts : GetServiceAccount
accounts name namespace =
    if name == "reloader"
    then ok (some (("eks.amazonaws.com/role-arn", "arn:role") ∷ []))
    else err not_found

abbrev account : ServiceAccountSelector
account = record { name = "reloader"; namespace = "default"; audiences = [] }

-- An SDK that loads every configuration, as the options themselves.
abbrev irsa : AwsSdkAuth
irsa = record {
  auth_method = "irsa";
  region = "eu-west-1";
  service_account = some account;
  secret_ref = none;
}

abbrev role : LoadOptions
role = record {
  region = "eu-west-1";
  credentials = web_identity "arn:role" (new_token_retriever "reloader" "default");
}

abbrev google : Google
google = record {
  default_fails = none;
  jwt_config_fails = λ _ _. none;
  new_sa_token_generator_fails = none;
  new_iam_client_fails = none;
  create_token = λ r. ok r.name;
  marshal = λ _. ok "{}";
  post = λ _ body. ok (record { status_code = 200; body = ok body });
  unmarshal_token = λ body. ok (record { access_token = body });
  generate_access_token = λ r. ok r.name;
  default_auth_scopes = [];
}

abbrev keyed : GooglePubSubAuth
keyed = record { secret_ref = some (selector "token"); workload_identity = none }

new_token_source-ok_iff_example :
    (new_token_source google client accounts (some keyed) "p" ≡ ok (jwt_token_source "t0ken"))
    ↔ Chosen google client accounts "p" (some keyed) (jwt_token_source "t0ken")
new_token_source-ok_iff_example =
    new_token_source-ok_iff google client accounts (some keyed) "p" (jwt_token_source "t0ken")

abbrev kube : Kube
kube = record {
  get_config = err "no cluster";
  from_kube_config = λ text. ok (record { host = text; ca_data = none; bearer_token = "" });
  pem_decode = λ cert. some cert;
  parse_certificate_fails = λ _. none;
  base64_decode = λ _. none;
  new_for_config = λ cfg. ok (λ r. ok r.name);
  new_manager_fails = λ _. none;
  label_selector_fails = λ _. none;
  complete_fails = λ _. none;
}

abbrev remote : Option SecretKeySelector → KubernetesObjectConfig
remote token = record {
  server_url = "https://cluster";
  auth = some (record {
    kube_config_ref = none;
    ca_bundle = "";
    token_ref = token;
    service_account_ref = some account;
  });
  label_selector = none;
}

abbrev reached : RestConfig
reached = record { host = "https://cluster"; ca_data = none; bearer_token = "t0ken" }

get_kube_config-ok_iff_example :
    (get_kube_config kube client (new_handler "secret" (remote (some (selector "token"))))
      ≡ ok reached)
    ↔ Reaches kube client (new_handler "secret" (remote (some (selector "token")))) reached
get_kube_config-ok_iff_example =
    get_kube_config-ok_iff kube client (new_handler "secret" (remote (some (selector "token"))))
      reached

start-panics_iff_example :
    (start kube client (new_handler "secret" (remote none)) ≡ err nil_client_set)
    ↔ ByAccount kube client (remote none)
start-panics_iff_example = start-panics_iff kube client "secret" (remote none)

abbrev grid : AzureEventGridConfig
grid = record { host = "0.0.0.0"; port = 8080; subscriptions = "a" ∷ "b" ∷ [] }

abbrev grid_server : Paths.Server
grid_server = record { host = "0.0.0.0"; port = 8080; paths = "/a" ∷ "/b" ∷ [] }

-- Patterns without wildcards, of which only equal ones conflict.
abbrev patterns : Paths.Patterns
patterns = record { is_valid = λ _. true; conflicts = λ p q. p == q }

start-eq_iff_example :
    (Paths.start patterns grid ≡ some grid_server)
    ↔ (AreServed patterns (paths_of grid.subscriptions) × (grid_server ≡ grid_server))
start-eq_iff_example = start-eq_iff patterns grid grid_server

abbrev mock_source : NotificationSource
mock_source = record {
  type = "Mock";
  aws_sqs = none;
  azure_event_grid = none;
  google_pub_sub = none;
  webhook = none;
  hashicorp_vault = none;
  kubernetes_secret = none;
  kubernetes_config_map = none;
  tcp_socket = none;
  mock = some (record { emit_interval = 100 });
}

abbrev env : Env LoadOptions
env = record {
  marshal = λ config. ok config.queue_url;
  unmarshal = λ _. err "no configuration";
  load_default_config = ok;
  client = client;
  accounts = accounts;
  google = google;
  new_client_fails = λ _ _. none;
}

get_provider-Stands_example :
    (c : SourceConfig) × ((config_of mock_source ≡ some c)
      × Stands env c (mock (of_config (record { emit_interval = 100 }))))
unfolding get_provider registered create_mock lookup insert
get_provider-Stands_example =
    get_provider-Stands env mock_source create_mock
      (mock (of_config (record { emit_interval = 100 }))) refl refl
