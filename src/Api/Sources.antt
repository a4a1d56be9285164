-- ===== src/Api/Sources.antt =====
-- api/v1alpha1: the notification sources and the selectors that they refer to. An optional pointer
-- is an `Option`; an `int32` that no code computes with is its value.
use reloader.Prelude.{ℕ, String, Option, List, Bool, true, leb}

-- A label selector is the text of its API object: `metav1` is not part of this repository, and the
-- meaning of a selector is a parameter of the definitions that use it.
abbrev pub LabelSelector : Type 0
LabelSelector = String

pub record ServiceAccountSelector : Type 0 where
  pub name : String
  pub namespace : String
  pub audiences : List String

pub record SecretKeySelector : Type 0 where
  pub name : String
  pub key : String
  pub namespace : String

pub record AwsSdkSecretRef : Type 0 where
  pub access_key_id : SecretKeySelector
  pub secret_access_key : SecretKeySelector

pub record AwsSdkAuth : Type 0 where
  pub auth_method : String
  pub region : String
  pub service_account : Option ServiceAccountSelector
  pub secret_ref : Option AwsSdkSecretRef

pub record AwsSqsConfig : Type 0 where
  pub queue_url : String
  pub auth : AwsSdkAuth
  pub max_number_of_messages : ℕ
  pub wait_time_seconds : ℕ
  pub visibility_timeout : ℕ

pub record AzureEventGridConfig : Type 0 where
  pub host : String
  pub port : ℕ
  pub subscriptions : List String

pub record GcpWorkloadIdentity : Type 0 where
  pub service_account_ref : ServiceAccountSelector
  pub cluster_location : String
  pub cluster_name : String
  pub cluster_project_id : String

pub record GooglePubSubAuth : Type 0 where
  pub secret_ref : Option SecretKeySelector
  pub workload_identity : Option GcpWorkloadIdentity

pub record GooglePubSubConfig : Type 0 where
  pub subscription_id : String
  pub project_id : String
  pub auth : Option GooglePubSubAuth

pub record HashicorpVaultConfig : Type 0 where
  pub host : String
  pub port : ℕ

pub record TcpSocketConfig : Type 0 where
  pub host : String
  pub port : ℕ
  pub secret_identifier_on_payload : String

pub record MockConfig : Type 0 where
  pub emit_interval : ℕ

pub record KubernetesAuth : Type 0 where
  pub kube_config_ref : Option SecretKeySelector
  pub ca_bundle : String
  pub token_ref : Option SecretKeySelector
  pub service_account_ref : Option ServiceAccountSelector

pub record KubernetesObjectConfig : Type 0 where
  pub server_url : String
  pub auth : Option KubernetesAuth
  pub label_selector : Option LabelSelector

-- Go's `int`, for a count that a user may set below zero: `negsuc n` is -(n + 1).
pub data ℤ : Type 0 where
  pos : ℕ → ℤ
  negsuc : ℕ → ℤ

-- `n >= z`
abbrev pub ge_int : ℕ → ℤ → Bool
ge_int n (pos m) = leb m n
ge_int n (negsuc _) = true

pub record RetryPolicy : Type 0 where
  pub max_retries : ℤ
  pub algorithm : String

pub record BasicAuth : Type 0 where
  pub username_secret_ref : SecretKeySelector
  pub password_secret_ref : SecretKeySelector

pub record BearerToken : Type 0 where
  pub bearer_token_secret_ref : SecretKeySelector

pub record WebhookAuth : Type 0 where
  pub basic_auth : Option BasicAuth
  pub bearer_token : Option BearerToken

pub record WebhookConfig : Type 0 where
  pub secret_identifier_on_payload : String
  pub path_suffix : String
  pub auth : Option WebhookAuth
  pub retry_policy : Option RetryPolicy

pub record NotificationSource : Type 0 where
  pub type : String
  pub aws_sqs : Option AwsSqsConfig
  pub azure_event_grid : Option AzureEventGridConfig
  pub google_pub_sub : Option GooglePubSubConfig
  pub webhook : Option WebhookConfig
  pub hashicorp_vault : Option HashicorpVaultConfig
  pub kubernetes_secret : Option KubernetesObjectConfig
  pub kubernetes_config_map : Option KubernetesObjectConfig
  pub tcp_socket : Option TcpSocketConfig
  pub mock : Option MockConfig
