-- ===== src/Webhook/Auth/Panics.antt =====
-- When the authentication of a webhook request panics.
use reloader.Prelude.{
  String, true, false, ◌||◌, ◌≡◌, refl, ◌≢◌, ◌↔◌, inl, inr, Option, none, some, split_n2,
  equal_fold, is_some, arith, Bool-cases, Option-cases,
}
use reloader.Api.{BasicAuth, BearerToken, WebhookAuth, WebhookConfig}
use reloader.Secrets.{GetSecret}
use reloader.Webhook.Auth.{
  panicked, authenticate_with_basic_auth, authenticate_with_bearer, by_scheme, with_header, check,
  authenticate,
}

module _ (client : GetSecret) (base64_decode : String → Option String) where
  basic-ne-panicked :
      (token : String) (b : BasicAuth)
      → authenticate_with_basic_auth client base64_decode token b ≢ panicked
  unfolding authenticate_with_basic_auth
  basic-ne-panicked token b = ground arith

  bearer_panics :
      (token : String) (o : Option BearerToken)
      → authenticate_with_bearer client base64_decode token o ≡ panicked
      → o ≡ none
  unfolding authenticate_with_bearer
  bearer_panics token none e = refl
  bearer_panics token (some b) e = ground arith

  abbrev pub PanicsAt : WebhookAuth → String → Type 0
  PanicsAt auth header =
      (b : BasicAuth) × (scheme : String) × (token : String) × (auth.basic_auth ≡ some b)
      × (auth.bearer_token ≡ none)
      × (split_n2 b' ' header ≡ some (scheme, token))
      × (equal_fold scheme "basic" ≡ false)

  scheme_panics :
      (auth : WebhookAuth) (header scheme token : String) (basic : Option BasicAuth)
      → auth.basic_auth ≡ basic
      → split_n2 b' ' header ≡ some (scheme, token)
      → (is_some auth.basic_auth || is_some auth.bearer_token) ≡ true
      → by_scheme client base64_decode scheme token basic auth.bearer_token ≡ panicked
      → PanicsAt auth header
  unfolding by_scheme
  scheme_panics auth header scheme token none p s set e =
      absurd (ground (arith, bearer_panics token auth.bearer_token e))
  scheme_panics auth header scheme token (some b) p s set e =
      elim (Bool-cases (equal_fold scheme "basic")) [
        | inl named ↦ absurd (basic-ne-panicked token b (rw named at e))
        | inr other ↦ (b, scheme, token, p, bearer_panics token _ (rw other at e), s, other)
      ]

  check_panics :
      (auth : WebhookAuth) (header : String)
      → check client base64_decode (some auth) header ≡ panicked
      → PanicsAt auth header
  unfolding check with_header
  check_panics auth header e =
      elim (Bool-cases (is_some auth.basic_auth || is_some auth.bearer_token)) [
        | inr unset ↦ absurd (ground arith)
        | inl set ↦ elim (Option-cases (split_n2 b' ' header)) [
          | inl bad ↦ absurd (ground arith)
          | inr ((scheme, token), s) ↦
              scheme_panics auth header scheme token _ refl s set (rw (set, s) at e)
        ]
      ]

  panics_at :
      (auth : WebhookAuth) (header : String)
      → PanicsAt auth header
      → check client base64_decode (some auth) header ≡ panicked
  unfolding check with_header by_scheme authenticate_with_bearer
  panics_at auth header (b, scheme, token, p, q, s, other) = ground arith

  -- Where authentication is configured it panics exactly if basic authentication is the only
  -- method and the header has two parts of which the first does not fold to "basic".
  pub authenticate_panics_iff :
      (config : WebhookConfig) (auth : WebhookAuth) (header : String)
      → config.auth ≡ some auth
      → (authenticate client base64_decode (some config) header ≡ panicked) ↔ PanicsAt auth header
  unfolding authenticate
  authenticate_panics_iff config auth header e =
      rw e (check_panics auth header, panics_at auth header)
