-- ===== src/Cloud/Aws/Granted.antt =====
-- When a configuration for AWS is loaded, and with which credentials.
use reloader.Prelude.{String, ◌≡◌, some, Result, ok, Map, string_eq, lookup}
use reloader.Api.{ServiceAccountSelector, AwsSdkSecretRef, AwsSdkAuth}
use reloader.Secrets.{GetSecret, Denotes}
use reloader.Cloud.Aws.{
  GetServiceAccount, new_token_retriever, static_credentials, web_identity, LoadOptions,
}

-- The credentials that a configuration asks for, as the cluster holds them.
pub data Entitled (client : GetSecret) (accounts : GetServiceAccount) (config : AwsSdkAuth)
    : LoadOptions → Type 0 where
  by_secret :
      (ref : AwsSdkSecretRef) (key_id secret_key : String)
      → config.auth_method ≡ "static"
      → config.secret_ref ≡ some ref
      → Denotes client ref.access_key_id key_id
      → Denotes client ref.secret_access_key secret_key
      → Entitled client accounts config
          (record { region = config.region; credentials = static_credentials key_id secret_key })
  by_account :
      (sa : ServiceAccountSelector) (annotations : Map String String) (role : String)
      → config.auth_method ≡ "irsa"
      → config.service_account ≡ some sa
      → accounts sa.name sa.namespace ≡ ok (some annotations)
      → lookup "eks.amazonaws.com/role-arn" annotations ≡ some role
      → Entitled client accounts config (record {
        region = config.region;
        credentials = web_identity role (new_token_retriever sa.name sa.namespace);
      })

module _ {C : Type 0} (load : LoadOptions → Result String C) (client : GetSecret)
    (accounts : GetServiceAccount) where
  abbrev pub Loads : AwsSdkAuth → C → Type 0
  Loads config c = (o : LoadOptions) × (Entitled client accounts config o × (load o ≡ ok c))
