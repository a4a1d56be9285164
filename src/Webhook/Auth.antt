-- ===== src/Webhook/Auth.antt =====
-- Authentication of a webhook request (internal/listener/webhook/route.go).
pub mod Granted
pub mod Panics
use reloader.Prelude.{
  String, Bool, true, false, ◌||◌, ◌==◌, Option, none, some, Result, ok, err, split_n2, equal_fold,
  if◌then◌else◌, is_some,
}
use Prim.Native.String.{◌++◌}
use reloader.Api.{SecretKeySelector, BasicAuth, BearerToken, WebhookAuth, WebhookConfig}
use reloader.Secrets.{GetSecret, SecretError, decode_secret}

pub data AuthError : Type 0 where
  malformed_header : AuthError
  secret_error : SecretError → AuthError
  not_base64 : AuthError
  invalid_token : AuthError

-- A call returns nil, returns an error, or panics on a nil pointer.
pub data Verdict : Type 0 where
  granted : Verdict
  denied : AuthError → Verdict
  panicked : Verdict

abbrev compare_token : Bool → Verdict
compare_token true = granted
compare_token false = denied invalid_token

abbrev pub auth_of : Option WebhookConfig → Option WebhookAuth
auth_of none = none
auth_of (some config) = config.auth

-- The client reads Secrets, and `base64_decode` is `base64.StdEncoding.DecodeString`.
module _ (client : GetSecret) (base64_decode : String → Option String) where
  unfoldable pub authenticate_with_basic_auth : String → BasicAuth → Verdict
  authenticate_with_basic_auth request_token basic_auth =
      elim (decode_secret client basic_auth.username_secret_ref) [
        | err e ↦ denied (secret_error e)
        | ok username ↦ elim (decode_secret client basic_auth.password_secret_ref) [
          | err e ↦ denied (secret_error e)
          | ok password ↦ elim (base64_decode request_token) [
            | none ↦ denied not_base64
            | some user_pw ↦ compare_token ((username ++ (":" ++ password)) == user_pw)
          ]
        ]
      ]

  -- A nil `bearer` is dereferenced.
  unfoldable pub authenticate_with_bearer : String → Option BearerToken → Verdict
  authenticate_with_bearer request_token none = panicked
  authenticate_with_bearer request_token (some bearer) =
      elim (decode_secret client bearer.bearer_token_secret_ref) [
        | err e ↦ denied (secret_error e)
        | ok token ↦ compare_token (token == request_token)
      ]

  -- Basic authentication if it is configured and the scheme names it, bearer authentication else.
  unfoldable pub by_scheme : String → String → Option BasicAuth → Option BearerToken → Verdict
  by_scheme scheme token none bearer = authenticate_with_bearer token bearer
  by_scheme scheme token (some basic) bearer =
      if equal_fold scheme "basic"
      then authenticate_with_basic_auth token basic
      else authenticate_with_bearer token bearer

  unfoldable pub with_header : Option (String × String) → WebhookAuth → Verdict
  with_header none auth = denied malformed_header
  with_header (some (scheme, token)) auth = by_scheme scheme token auth.basic_auth auth.bearer_token

  unfoldable pub check : Option WebhookAuth → String → Verdict
  check none header = granted
  check (some auth) header =
      if is_some auth.basic_auth || is_some auth.bearer_token
      then with_header (split_n2 b' ' header) auth
      else granted

  -- `header` is the value of the header Authorization, empty if there is none.
  unfoldable pub authenticate : Option WebhookConfig → String → Verdict
  unfolding check with_header by_scheme
  authenticate config header = check (auth_of config) header
