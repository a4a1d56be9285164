-- ===== src/Cloud/Aws.antt =====
-- pkg/auth/aws/auth.go and internal/util/token_retriever.go: the credentials for AWS. The SDK's
-- loader of a configuration is a parameter, and so is the API server.
pub mod Granted
pub mod Panics
use reloader.Prelude.{
  String, ◌==◌, Option, none, some, List, [], ◌∷◌, Result, ok, err, ◌>>=◌, if◌then◌else◌, Map,
  string_eq, lookup,
}
use reloader.Api.{ServiceAccountSelector, SecretKeySelector, AwsSdkSecretRef, AwsSdkAuth}
use reloader.Secrets.{ClientError, GetSecret, SecretError, get_secret}

-- `client.Get` of a ServiceAccount, by name and namespace: its annotations, `none` for a nil map.
abbrev pub GetServiceAccount : Type 0
GetServiceAccount = String → String → Result ClientError (Option (Map String String))

-- `Create` of the subresource `token`: of an account, by name and namespace, for the audiences.
abbrev pub CreateToken : Type 0
CreateToken = String → String → List String → Result ClientError String

pub record TokenRetriever : Type 0 where
  pub service_account_name : String
  pub service_account_namespace : String
  pub audiences : List String

unfoldable pub new_token_retriever : String → String → TokenRetriever
new_token_retriever name namespace = record {
  service_account_name = name;
  service_account_namespace = namespace;
  audiences = "sts.amazonaws.com" ∷ [];
}

unfoldable pub get_service_account_token : CreateToken → TokenRetriever → Result ClientError String
get_service_account_token create tr =
    create tr.service_account_name tr.service_account_namespace tr.audiences

unfoldable pub get_identity_token : CreateToken → TokenRetriever → Result ClientError String
unfolding get_service_account_token
get_identity_token create tr = elim (get_service_account_token create tr) [
  | err e ↦ err e
  | ok token ↦ ok token
]

-- The two providers of credentials that are handed to the SDK.
pub data Credentials : Type 0 where
  static_credentials : String → String → Credentials
  web_identity : String → TokenRetriever → Credentials

-- What `LoadDefaultConfig` is called with.
pub record LoadOptions : Type 0 where
  pub region : String
  pub credentials : Credentials

-- `nil_pointer` is a panic.
pub data AuthError : Type 0 where
  unsupported_method : String → AuthError
  secret_failed : SecretError → AuthError
  key_not_found : String → AuthError
  service_account_failed : ClientError → AuthError
  no_annotations : String → AuthError
  role_not_found : String → AuthError
  load_failed : String → AuthError
  nil_pointer : AuthError

abbrev loaded : {C : Type 0} → Result String C → Result AuthError C
loaded (ok config) = ok config
loaded (err e) = err (load_failed e)

abbrev at_key : SecretKeySelector → Option String → Result AuthError String
at_key sel none = err (key_not_found sel.name)
at_key sel (some v) = ok v

abbrev role_of : String → Option (Map String String) → Result AuthError String
role_of name none = err (no_annotations name)
role_of name (some annotations) = elim (lookup "eks.amazonaws.com/role-arn" annotations) [
  | none ↦ err (role_not_found name)
  | some role ↦ ok role
]

module _ {C : Type 0} (load_default_config : LoadOptions → Result String C) where
  -- `createAWSSessionWithWebIdentity`
  unfoldable pub create_aws_session_with_web_identity :
      TokenRetriever → String → String → Result AuthError C
  create_aws_session_with_web_identity retriever role region =
      loaded (
        load_default_config (record { region = region; credentials = web_identity role retriever }))

  module _ (client : GetSecret) (accounts : GetServiceAccount) where
    -- `GetSecret` and the look-up of the key, as `loadConfigWithSecret` has them twice.
    unfoldable pub read_key : SecretKeySelector → Result AuthError String
    unfolding get_secret
    read_key sel = elim (get_secret client sel.name sel.namespace) [
      | err e ↦ err (secret_failed e)
      | ok secret ↦ at_key sel (lookup sel.key secret)
    ]

    unfoldable pub load_config_with_secret :
        AwsSdkAuth → Option AwsSdkSecretRef → Result AuthError C
    unfolding read_key
    load_config_with_secret config none = err nil_pointer
    load_config_with_secret config (some ref) = read_key ref.access_key_id >>= λ key_id.
        read_key ref.secret_access_key >>= λ secret_key. loaded (
          load_default_config
            (record { region = config.region; credentials = static_credentials key_id secret_key }))

    unfoldable pub get_role_arn : String → String → Result AuthError String
    get_role_arn name namespace = elim (accounts name namespace) [
      | err e ↦ err (service_account_failed e)
      | ok annotations ↦ role_of name annotations
    ]

    unfoldable pub load_config_with_service_account :
        AwsSdkAuth → Option ServiceAccountSelector → Result AuthError C
    unfolding get_role_arn create_aws_session_with_web_identity
    load_config_with_service_account config none = err nil_pointer
    load_config_with_service_account config (some sa) =
        get_role_arn sa.name sa.namespace >>= λ role.
        create_aws_session_with_web_identity (new_token_retriever sa.name sa.namespace) role
          config.region

    -- `CreateAWSSDKConfig`
    unfoldable pub create_aws_sdk_config : AwsSdkAuth → Result AuthError C
    unfolding load_config_with_secret load_config_with_service_account
    create_aws_sdk_config config =
        if config.auth_method == "static"
        then load_config_with_secret config config.secret_ref
        else if config.auth_method == "irsa"
        then load_config_with_service_account config config.service_account
        else err (unsupported_method config.auth_method)
