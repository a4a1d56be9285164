-- ===== src/Cloud/Aws/Panics.antt =====
-- When the creation of a configuration for AWS panics.
use reloader.Prelude.{
  String, ◌==◌, eq_iff, ◌≡◌, ◌↔◌, ◌⊎◌, inl, inr, refl, Option, none, some, Result, ok, err,
  bind-avoids, Map, string_eq, lookup, Bool-cases, Option-cases, Result-cases,
}
use reloader.Api.{ServiceAccountSelector, SecretKeySelector, AwsSdkSecretRef, AwsSdkAuth}
use reloader.Secrets.{GetSecret, get_secret}
use reloader.Cloud.Aws.{
  GetServiceAccount, LoadOptions, nil_pointer, at_key, role_of, loaded,
  create_aws_session_with_web_identity, read_key, load_config_with_secret, get_role_arn,
  load_config_with_service_account, create_aws_sdk_config,
}

at_key-safe : (sel : SecretKeySelector) (o : Option String) → ¬ (at_key sel o ≡ err nil_pointer)
at_key-safe sel none e = absurd (cc e)
at_key-safe sel (some w) e = absurd (cc e)

loaded-safe : {C : Type 0} (r : Result String C) → ¬ (loaded r ≡ err nil_pointer)
loaded-safe (ok config) e = absurd (cc e)
loaded-safe (err x) e = absurd (cc e)

role_of-safe :
    (name : String) (o : Option (Map String String)) → ¬ (role_of name o ≡ err nil_pointer)
role_of-safe name none e = absurd (cc e)
role_of-safe name (some annotations) e =
    elim (Option-cases (lookup "eks.amazonaws.com/role-arn" annotations)) [
      | inl missing ↦ absurd (cc (rw (missing, role_of) at e))
      | inr (role, found) ↦ absurd (cc (rw (found, role_of) at e))
    ]

module _ {C : Type 0} (load : LoadOptions → Result String C) (client : GetSecret)
    (accounts : GetServiceAccount) where
  -- The method is given, but not the block that belongs to it.
  abbrev pub LacksBlock : AwsSdkAuth → Type 0
  LacksBlock config =
      ((config.auth_method ≡ "static") × (config.secret_ref ≡ none))
      ⊎ ((config.auth_method ≡ "irsa") × (config.service_account ≡ none))

  read_key-safe :
      (sel : SecretKeySelector) → ¬ (read_key load client accounts sel ≡ err nil_pointer)
  unfolding read_key get_secret
  read_key-safe sel e = elim (Result-cases (client sel.name sel.namespace)) [
    | inl (secret, got) ↦ at_key-safe sel _ (rw (got, get_secret, read_key) at e)
    | inr (x, got) ↦ absurd (cc (rw (got, get_secret, read_key) at e))
  ]

  get_role_arn-safe :
      (name namespace : String)
      → ¬ (get_role_arn load client accounts name namespace ≡ err nil_pointer)
  unfolding get_role_arn
  get_role_arn-safe name namespace e = elim (Result-cases (accounts name namespace)) [
    | inl (o, got) ↦ role_of-safe name o (rw (got, get_role_arn) at e)
    | inr (x, got) ↦ absurd (cc (rw (got, get_role_arn) at e))
  ]

  secret_panics :
      (config : AwsSdkAuth) (ref : Option AwsSdkSecretRef)
      → load_config_with_secret load client accounts config ref ≡ err nil_pointer
      → ref ≡ none
  unfolding load_config_with_secret
  secret_panics config none e = refl
  secret_panics config (some ref) e = absurd (
      bind-avoids nil_pointer _ _ (read_key-safe ref.access_key_id)
        (λ key_id.
          bind-avoids nil_pointer _ _ (read_key-safe ref.secret_access_key)
            (λ secret_key. loaded-safe _))
        e)

  account_panics :
      (config : AwsSdkAuth) (sa : Option ServiceAccountSelector)
      → load_config_with_service_account load client accounts config sa ≡ err nil_pointer
      → sa ≡ none
  unfolding load_config_with_service_account create_aws_session_with_web_identity
  account_panics config none e = refl
  account_panics config (some sa) e = absurd (
      bind-avoids nil_pointer _ _ (get_role_arn-safe sa.name sa.namespace) (λ role. loaded-safe _)
        e)

  config_panics :
      (config : AwsSdkAuth)
      → create_aws_sdk_config load client accounts config ≡ err nil_pointer
      → LacksBlock config
  unfolding create_aws_sdk_config
  config_panics config done = elim (Bool-cases (config.auth_method == "static")) [
    | inl is ↦ inl (
      (eq_iff config.auth_method "static").0 is,
      secret_panics config config.secret_ref (rw (is, create_aws_sdk_config) at done),
    )
    | inr not ↦ elim (Bool-cases (config.auth_method == "irsa")) [
      | inl is ↦ inr (
        (eq_iff config.auth_method "irsa").0 is,
        account_panics config config.service_account (rw (not, is, create_aws_sdk_config) at done),
      )
      | inr neither ↦ absurd (cc (rw (not, neither, create_aws_sdk_config) at done))
    ]
  ]

  block_panics :
      (config : AwsSdkAuth)
      → LacksBlock config
      → create_aws_sdk_config load client accounts config ≡ err nil_pointer
  unfolding create_aws_sdk_config load_config_with_secret load_config_with_service_account
  block_panics config (inl (is, e)) = rw (is, e, create_aws_sdk_config) refl
  block_panics config (inr (is, e)) = rw (is, e, create_aws_sdk_config) refl

  -- The creation panics exactly if the block of the method that is configured is missing; every
  -- failure of the cluster or of the SDK is an error.
  pub create_aws_sdk_config-panics_iff :
      (config : AwsSdkAuth)
      → (create_aws_sdk_config load client accounts config ≡ err nil_pointer) ↔ LacksBlock config
  create_aws_sdk_config-panics_iff config = (config_panics config, block_panics config)
