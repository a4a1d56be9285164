-- ===== src/Cloud/Gcp.antt =====
-- pkg/auth/gcp: the tokens for Google's Pub/Sub. The Kubernetes API, Google's libraries and the
-- exchange over HTTP are parameters.
pub mod Exchange
pub mod Chosen
pub mod Granted
use Prim.Native.String.{◌++◌ as ◌+++◌}
use reloader.Prelude.{
  ℕ, eqb, String, ◌==◌, Option, none, some, List, [], ◌∷◌, Result, ok, err, ◌>>=◌, if◌then◌else◌,
  Map, string_eq, lookup,
}
use reloader.Api.{SecretKeySelector, GcpWorkloadIdentity, GooglePubSubAuth}
use reloader.Secrets.{ClientError, GetSecret, SecretError, secret_key_ref}
use reloader.Cloud.Aws.{GetServiceAccount}

abbrev cloud_platform_role : String
cloud_platform_role = "https://www.googleapis.com/auth/cloud-platform"

-- oauth2.Token, by the field that the code writes.
pub record Token : Type 0 where
  pub access_token : String

-- oauth2.TokenSource: Google's default, one that signs with a key in JSON, or a fixed token.
pub data TokenSource : Type 0 where
  default_token_source : TokenSource
  jwt_token_source : String → TokenSource
  static_token_source : Token → TokenSource

pub data GcpError : Type 0 where
  no_default : String → GcpError
  secret_failed : SecretError → GcpError
  jwt_failed : String → GcpError
  unable_to_initialize : GcpError
  service_account_failed : ClientError → GcpError
  token_failed : String → GcpError
  exchange_failed : String → GcpError
  exchange_status : ℕ → GcpError
  access_failed : String → GcpError

-- authenticationv1.TokenRequest with the account that it is for.
pub record TokenRequest : Type 0 where
  pub name : String
  pub namespace : String
  pub audiences : List String
  pub expiration_seconds : ℕ

-- A response, whose body may fail to be read.
pub record Response : Type 0 where
  pub status_code : ℕ
  pub body : Result String String

pub record AccessTokenRequest : Type 0 where
  pub name : String
  pub scope : List String
  pub credentials : Token

-- Code that is not in the repository: Google's DefaultTokenSource and JWTConfigFromJSON (by whether
-- they fail), the set-up of the clients of Kubernetes and IAM, the two that create tokens, the POST
-- of a body to an address, and json.Marshal and json.Unmarshal.
pub record Google : Type 0 where
  pub default_fails : Option String
  pub jwt_config_fails : String → String → Option String
  pub new_sa_token_generator_fails : Option String
  pub new_iam_client_fails : Option String
  pub create_token : TokenRequest → Result String String
  pub marshal : Map String String → Result String String
  pub post : String → String → Result String Response
  pub unmarshal_token : String → Result String Token
  pub generate_access_token : AccessTokenRequest → Result String String
  pub default_auth_scopes : List String

abbrev failing : {A : Type 0} → (String → GcpError) → Result String A → Result GcpError A
failing f (ok a) = ok a
failing f (err e) = err (f e)

abbrev of_account : {A : Type 0} → Result ClientError A → Result GcpError A
of_account (ok a) = ok a
of_account (err e) = err (service_account_failed e)

-- A missing annotation, or a nil map, reads as the empty string.
abbrev annotation : String → Option (Map String String) → String
annotation key none = ""
annotation key (some annotations) = elim (lookup key annotations) [ none ↦ "" | some v ↦ v ]

abbrev id_pool_of : String → String
id_pool_of project = project +++ ".svc.id.goog"

abbrev id_provider_of : String → GcpWorkloadIdentity → String
id_provider_of project wi =
    "https://container.googleapis.com/v1/projects/"
    +++ (project
        +++ ("/locations/" +++ (wi.cluster_location +++ ("/clusters/" +++ wi.cluster_name))))

abbrev exchange_request : String → String → String → Map String String
exchange_request k8s_token id_pool id_provider =
    ("grant_type", "urn:ietf:params:oauth:grant-type:token-exchange")
    ∷ ("subject_token_type", "urn:ietf:params:oauth:token-type:jwt")
    ∷ ("requested_token_type", "urn:ietf:params:oauth:token-type:access_token")
    ∷ ("subject_token", k8s_token)
    ∷ ("audience", "identitynamespace:" +++ (id_pool +++ (":" +++ id_provider)))
    ∷ ("scope", cloud_platform_role)
    ∷ []

-- The project of the cluster, where the configuration names one.
unfoldable pub cluster_project : GooglePubSubAuth → String → String
cluster_project auth project = elim auth.workload_identity [
  | none ↦ project
  | some wi ↦ if wi.cluster_project_id == "" then project else wi.cluster_project_id
]

module _ (google : Google) where
  -- `Generate` of the generator of tokens of service accounts, which live for 15 minutes.
  unfoldable pub generate_sa_token : List String → String → String → Result String String
  generate_sa_token audiences name namespace = google.create_token (record {
    name = name;
    namespace = namespace;
    audiences = audiences;
    expiration_seconds = 900;
  })

  abbrev read_token : Response → Result GcpError Token
  read_token resp =
      if eqb resp.status_code 200
      then failing exchange_failed resp.body
        >>= (λ body. failing exchange_failed (google.unmarshal_token body))
      else err (exchange_status resp.status_code)

  -- `Generate` of the generator of identity-binding tokens.
  unfoldable pub generate_id_bind_token : String → String → String → Result GcpError Token
  generate_id_bind_token k8s_token id_pool id_provider =
      failing exchange_failed (google.marshal (exchange_request k8s_token id_pool id_provider))
      >>= λ body.
          failing exchange_failed
            (google.post "https://securetoken.googleapis.com/v1/identitybindingtoken" body)
          >>= read_token

  -- The token of the account that an annotation names, or the identity-binding token itself.
  unfoldable pub impersonate : String → Token → Result GcpError TokenSource
  impersonate gcp_sa id_bind_token =
      if gcp_sa == ""
      then ok (static_token_source id_bind_token)
      else failing access_failed (
          google.generate_access_token (record {
            name = "projects/-/serviceAccounts/" +++ gcp_sa;
            scope = google.default_auth_scopes;
            credentials = id_bind_token;
          }))
        >>= λ token. ok (static_token_source (record { access_token = token }))

  -- `TokenSource` of a workload identity for a project; nil without one in the configuration.
  unfoldable pub token_source :
      GetServiceAccount → String → Option GcpWorkloadIdentity → Result GcpError (Option TokenSource)
  unfolding generate_sa_token generate_id_bind_token impersonate
  token_source accounts project none = ok none
  token_source accounts project (some wi) =
      let sa = wi.service_account_ref in
      let id_pool = id_pool_of project in
      of_account (accounts sa.name sa.namespace) >>= λ annotations.
      failing token_failed (generate_sa_token (id_pool ∷ sa.audiences) sa.name sa.namespace)
      >>= λ k8s_token.
          generate_id_bind_token k8s_token id_pool (id_provider_of project wi) >>= λ id_bind_token.
          impersonate (annotation "iam.gke.io/gcp-service-account" annotations) id_bind_token
          >>= λ ts. ok (some ts)

  unfoldable pub token_source_from_secret :
      GetSecret → Option SecretKeySelector → Result GcpError (Option TokenSource)
  unfolding secret_key_ref
  token_source_from_secret client none = ok none
  token_source_from_secret client (some sel) = elim (secret_key_ref client sel) [
    | err e ↦ err (secret_failed e)
    | ok credentials ↦ elim (google.jwt_config_fails credentials cloud_platform_role) [
      | some e ↦ err (jwt_failed e)
      | none ↦ ok (some (jwt_token_source credentials))
    ]
  ]

  abbrev default_source : Result GcpError TokenSource
  default_source = elim google.default_fails [
    | some e ↦ err (no_default e)
    | none ↦ ok default_token_source
  ]

  -- `newWorkloadIdentity`, by whether it fails.
  abbrev new_workload_identity : Result GcpError (Unit {0})
  new_workload_identity = elim google.new_sa_token_generator_fails [
    | some _ ↦ err unable_to_initialize
    | none ↦ elim google.new_iam_client_fails [ some _ ↦ err unable_to_initialize | none ↦ ok tt ]
  ]

  abbrev or_default : Option TokenSource → Result GcpError TokenSource
  or_default (some ts) = ok ts
  or_default none = default_source

  -- Without a key, a workload identity is set up, whether or not the configuration has one.
  abbrev or_identity :
      GetServiceAccount
      → GooglePubSubAuth
      → String
      → Option TokenSource
      → Result GcpError TokenSource
  or_identity accounts auth project (some ts) = ok ts
  or_identity accounts auth project none = new_workload_identity >>= λ _.
      token_source accounts (cluster_project auth project) auth.workload_identity >>= or_default

  unfoldable pub new_token_source :
      GetSecret → GetServiceAccount → Option GooglePubSubAuth → String → Result GcpError TokenSource
  unfolding token_source token_source_from_secret
  new_token_source client accounts none project = default_source
  new_token_source client accounts (some auth) project =
      token_source_from_secret client auth.secret_ref >>= or_identity accounts auth project
