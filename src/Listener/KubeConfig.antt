-- ===== src/Listener/KubeConfig.antt =====
-- internal/listener/kubernetes/listener.go: how a Kubernetes watch is started and which cluster it
-- goes to. client-go, controller-runtime, PEM, X.509 and base64 are parameters.
pub mod Certificates
pub mod Reached
pub mod Panics
use Prim.Native.String.{◌++◌ as ◌+++◌}
use reloader.Prelude.{String, ◌==◌, Option, none, some, Result, ok, err, ◌>>=◌, if◌then◌else◌}
use reloader.Api.{
  ServiceAccountSelector, SecretKeySelector, LabelSelector, KubernetesAuth, KubernetesObjectConfig,
}
use reloader.Secrets.{GetSecret, SecretError, fetch_secret_key}
use reloader.Cloud.Gcp.{TokenRequest}

-- rest.Config, by the fields that the code writes.
pub record RestConfig : Type 0 where
  pub host : String
  pub ca_data : Option String
  pub bearer_token : String

-- The client set of a cluster, by the creation of tokens of service accounts.
abbrev pub ClientSet : Type 0
ClientSet = TokenRequest → Result String String

pub data KubeError : Type 0 where
  no_default_config : String → KubeError
  secret_failed : SecretError → KubeError
  bad_kube_config : String → KubeError
  no_server_url : KubeError
  not_base64 : KubeError
  not_pem : KubeError
  not_certificate : String → KubeError
  token_failed : String → KubeError
  selector_nil : KubeError
  no_auth_provider : KubeError
  no_client_set : String → KubeError
  no_manager : String → KubeError
  no_selector : String → KubeError
  no_controller : String → KubeError
  -- A call of a method on a nil interface: a panic.
  nil_client_set : KubeError

-- `pem_decode` gives the bytes of the first block; the fields named `…_fails` give the error, if any.
pub record Kube : Type 0 where
  pub get_config : Result String RestConfig
  pub from_kube_config : String → Result String RestConfig
  pub pem_decode : String → Option String
  pub parse_certificate_fails : String → Option String
  pub base64_decode : String → Option String
  pub new_for_config : RestConfig → Result String ClientSet
  pub new_manager_fails : RestConfig → Option String
  pub label_selector_fails : LabelSelector → Option String
  pub complete_fails : String → Option String

-- Handler, by what `Start` reads and changes; `mgr` is the cluster that the started manager watches.
pub record Handler : Type 0 where
  pub config : KubernetesObjectConfig
  pub name : String
  pub ctrl_client_set : Option ClientSet
  pub mgr : Option RestConfig

abbrev failing : {A : Type 0} → (String → KubeError) → Result String A → Result KubeError A
failing f (ok a) = ok a
failing f (err e) = err (f e)

-- `if err != nil { return … }`
abbrev unless : (String → KubeError) → Option String → Result KubeError (Unit {0})
unless f none = ok tt
unless f (some e) = err (f e)

abbrev of_secret : Result SecretError String → Result KubeError String
of_secret (ok v) = ok v
of_secret (err e) = err (secret_failed e)

module _ (kube : Kube) (client : GetSecret) where
  abbrev parsed_block : String → Option String → Result KubeError String
  parsed_block cert none = err not_pem
  parsed_block cert (some block) =
      unless not_certificate (kube.parse_certificate_fails block) >>= λ _. ok cert

  unfoldable pub parse_certificate_bytes : String → Result KubeError String
  parse_certificate_bytes cert = parsed_block cert (kube.pem_decode cert)

  unfoldable pub base64decode : String → Result KubeError String
  unfolding parse_certificate_bytes
  base64decode cert = elim (parse_certificate_bytes cert) [
    | ok c ↦ ok c
    | err _ ↦ elim (kube.base64_decode cert) [
      | none ↦ err not_base64
      | some certificate ↦ parse_certificate_bytes certificate
    ]
  ]

  -- An empty bundle gives no data.
  unfoldable pub fetch_ca_cert_from_source : String → Result KubeError (Option String)
  unfolding base64decode
  fetch_ca_cert_from_source bundle =
      if bundle == "" then ok none else base64decode bundle >>= λ pem. ok (some pem)

  unfoldable pub service_account_token :
      Option ClientSet → Option ServiceAccountSelector → Result KubeError String
  service_account_token set none = err selector_nil
  service_account_token none (some sa) = err nil_client_set
  service_account_token (some create_token) (some sa) = failing token_failed (
      create_token (record {
        name = sa.name;
        namespace = sa.namespace;
        audiences = sa.audiences;
        expiration_seconds = 3600;
      }))

  -- The switch on the way of authentication, and the token that it gives.
  unfoldable pub bearer_token :
      Option ClientSet
      → Option SecretKeySelector
      → Option ServiceAccountSelector
      → Result KubeError String
  unfolding service_account_token
  bearer_token set (some sel) sa = of_secret (fetch_secret_key client (some sel))
  bearer_token set none (some sa) = service_account_token set (some sa)
  bearer_token set none none = err no_auth_provider

  abbrev remote :
      Option ClientSet → KubernetesObjectConfig → KubernetesAuth → Result KubeError RestConfig
  remote set config auth =
      if config.server_url == ""
      then err no_server_url
      else (fetch_ca_cert_from_source auth.ca_bundle >>= λ ca.
          bearer_token set auth.token_ref auth.service_account_ref >>= λ token.
          ok (record { host = config.server_url; ca_data = ca; bearer_token = token }))

  -- With authentication configured: a kubeconfig of a Secret, or the server of the configuration.
  unfoldable pub by_auth :
      Option ClientSet
      → KubernetesObjectConfig
      → KubernetesAuth
      → Option SecretKeySelector
      → Result KubeError RestConfig
  unfolding fetch_ca_cert_from_source bearer_token
  by_auth set config auth (some sel) = of_secret (fetch_secret_key client (some sel)) >>= λ text.
      failing bad_kube_config (kube.from_kube_config text)
  by_auth set config auth none = remote set config auth

  unfoldable pub with_auth :
      Option ClientSet
      → KubernetesObjectConfig
      → Option KubernetesAuth
      → Result KubeError RestConfig
  unfolding by_auth
  with_auth set config none = failing no_default_config kube.get_config
  with_auth set config (some auth) = by_auth set config auth auth.kube_config_ref

  unfoldable pub get_kube_config : Handler → Result KubeError RestConfig
  unfolding with_auth
  get_kube_config h = with_auth h.ctrl_client_set h.config h.config.auth

  abbrev select_fails : Option LabelSelector → Result KubeError (Unit {0})
  select_fails none = ok tt
  select_fails (some s) = unless no_selector (kube.label_selector_fails s)

  -- `Start`: the handler with its manager, or the error.
  unfoldable pub start : Handler → Result KubeError Handler
  unfolding get_kube_config
  start h = get_kube_config h >>= λ cfg. failing no_client_set (kube.new_for_config cfg) >>= λ set.
      unless no_manager (kube.new_manager_fails cfg) >>= λ _.
      select_fails h.config.label_selector >>= λ _.
      unless no_controller (kube.complete_fails ("k8s" +++ h.name)) >>= λ _.
      ok (record h { ctrl_client_set = some set; mgr = some cfg })

-- The handler as `CreateListener` of k8ssecret and k8sconfigmap leaves it.
unfoldable pub new_handler : String → KubernetesObjectConfig → Handler
new_handler name config = record {
  config = record {
    server_url = config.server_url;
    auth = config.auth;
    label_selector = config.label_selector;
  };
  name = name;
  ctrl_client_set = none;
  mgr = none;
}
