-- ===== src/Examples/Inputs.antt =====
-- The inputs of the runs: a cluster with one Secret, webhook sources, and a host that starts
-- everything.
use reloader.Prelude.{
  String, true, false, ◌==◌, Option, none, some, [], ◌∷◌, ok, err, Map, if◌then◌else◌,
}
use reloader.Api.{
  SecretKeySelector, BasicAuth, BearerToken, WebhookAuth, WebhookConfig, NotificationSource,
  RetryPolicy, pos,
}
use reloader.Secrets.{GetSecret, not_found}
use reloader.Manager.{NamespacedName, works, Host, Manager, Listener}
use reloader.Webhook.Server.{new_webhook_server}

abbrev pub secret_data : Map String String
secret_data = ("user", "ann") ∷ ("password", "pw") ∷ ("token", "t0ken") ∷ []

abbrev pub client : GetSecret
client name namespace = if name == "creds" then ok secret_data else err not_found

abbrev pub selector : String → SecretKeySelector
selector key = record { name = "creds"; key = key; namespace = "default" }

abbrev pub basic : BasicAuth
basic = record { username_secret_ref = selector "user"; password_secret_ref = selector "password" }

abbrev pub bearer : BearerToken
bearer = record { bearer_token_secret_ref = selector "token" }

abbrev pub base64_decode : String → Option String
base64_decode s = if s == "YW5uOnB3" then some "ann:pw" else none

abbrev pub basic_only : WebhookAuth
basic_only = record { basic_auth = some basic; bearer_token = none }

abbrev pub bearer_only : WebhookAuth
bearer_only = record { basic_auth = none; bearer_token = some bearer }

abbrev pub webhook_with : String → Option WebhookAuth → Option RetryPolicy → WebhookConfig
webhook_with suffix auth policy = record {
  secret_identifier_on_payload = "id";
  path_suffix = suffix;
  auth = auth;
  retry_policy = policy;
}

abbrev pub linear : RetryPolicy
linear = record { max_retries = pos 3; algorithm = "linear" }

abbrev pub webhook_source : String → NotificationSource
webhook_source suffix = record {
  type = "Webhook";
  aws_sqs = none;
  azure_event_grid = none;
  google_pub_sub = none;
  webhook = some (webhook_with suffix none none);
  hashicorp_vault = none;
  kubernetes_secret = none;
  kubernetes_config_map = none;
  tcp_socket = none;
  mock = none;
}

abbrev pub gjson_get : String → String → Option String
gjson_get payload path = if path == "id" then some payload else none

abbrev pub host : Host
host = record {
  fingerprint = λ _. "f00";
  has_provider = λ _. true;
  creates = λ _. works;
  starts = λ _. works;
  stop_fails = λ _. false;
  order = λ ks. ks;
}

abbrev pub app : NamespacedName
app = record { namespace = "default"; name = "app" }

abbrev pub other_app : NamespacedName
other_app = record { namespace = "default"; name = "other" }

-- A listener of `app` at the key that the host's fingerprint gives every webhook source.
abbrev pub running : Listener
running = record { id = 0; source = webhook_source "a"; route = some "app/a" }

abbrev pub manager : Manager
manager = record {
  listeners = (app, ("Webhook-f00", running) ∷ []) ∷ [];
  server = some new_webhook_server;
  stopped = λ _. false;
  next_id = 1;
}
