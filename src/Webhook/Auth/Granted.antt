-- ===== src/Webhook/Auth/Granted.antt =====
-- When a webhook request is let through.
use Prim.Native.String.{◌++◌}
use reloader.Prelude.{
  String, true, false, ◌||◌, eq_iff, eq_refl, ◌≡◌, refl, sym, subst, some-injective, ◌↔◌, ◌⊎◌, inl,
  inr, Option, none, some, ok, split_n2, equal_fold, is_some, arith, Bool-cases, Option-cases,
  Result-cases,
}
use reloader.Api.{BasicAuth, BearerToken, WebhookAuth, WebhookConfig}
use reloader.Secrets.{GetSecret, decode_secret, Denotes}
use reloader.Secrets.Reads.{decode_secret-eq-ok, decode_secret_of_Denotes}
use reloader.Webhook.Auth.{
  granted, authenticate_with_basic_auth, authenticate_with_bearer, by_scheme, with_header, auth_of,
  check, authenticate,
}

module _ (client : GetSecret) (base64_decode : String → Option String) where
  -- The credentials that a header must carry, read off the configuration and the cluster.
  pub data Authorizes (auth : WebhookAuth) (header : String) : Type 0 where
    open_route : auth.basic_auth ≡ none → auth.bearer_token ≡ none → Authorizes auth header
    by_basic :
        (b : BasicAuth) (scheme token user password : String)
        → auth.basic_auth ≡ some b
        → split_n2 b' ' header ≡ some (scheme, token)
        → equal_fold scheme "basic" ≡ true
        → Denotes client b.username_secret_ref user
        → Denotes client b.password_secret_ref password
        → base64_decode token ≡ some (user ++ (":" ++ password))
        → Authorizes auth header
    by_bearer :
        (b : BearerToken) (scheme token : String)
        → auth.bearer_token ≡ some b
        → (auth.basic_auth ≡ none) ⊎ (equal_fold scheme "basic" ≡ false)
        → split_n2 b' ' header ≡ some (scheme, token)
        → Denotes client b.bearer_token_secret_ref token
        → Authorizes auth header

  basic_granted :
      (token : String) (b : BasicAuth)
      → authenticate_with_basic_auth client base64_decode token b ≡ granted
      → (user : String) × (password : String) × (decode_secret client b.username_secret_ref
          ≡ ok user)
        × (decode_secret client b.password_secret_ref ≡ ok password)
        × (base64_decode token ≡ some (user ++ (":" ++ password)))
  unfolding authenticate_with_basic_auth
  basic_granted token b e = elim (Result-cases (decode_secret client b.username_secret_ref)) [
    | inr (x, p) ↦ absurd (ground arith)
    | inl (user, p) ↦ elim (Result-cases (decode_secret client b.password_secret_ref)) [
      | inr (x, q) ↦ absurd (ground arith)
      | inl (password, q) ↦ elim (Option-cases (base64_decode token)) [
        | inl r ↦ absurd (ground arith)
        | inr (pair, r) ↦
            (user, password, p, q, ground (arith, eq_iff (user ++ (":" ++ password)) pair))
      ]
    ]
  ]

  basic_grants :
      (token user password : String) (b : BasicAuth)
      → decode_secret client b.username_secret_ref ≡ ok user
      → decode_secret client b.password_secret_ref ≡ ok password
      → base64_decode token ≡ some (user ++ (":" ++ password))
      → authenticate_with_basic_auth client base64_decode token b ≡ granted
  unfolding authenticate_with_basic_auth
  basic_grants token user password b p q r = ground (arith, eq_refl (user ++ (":" ++ password)))

  bearer_granted :
      (token : String) (b : BearerToken)
      → authenticate_with_bearer client base64_decode token (some b) ≡ granted
      → decode_secret client b.bearer_token_secret_ref ≡ ok token
  unfolding authenticate_with_bearer
  bearer_granted token b e = elim (Result-cases (decode_secret client b.bearer_token_secret_ref)) [
    | inr (x, p) ↦ absurd (ground arith)
    | inl (stored, p) ↦ ground (arith, eq_iff stored token)
  ]

  bearer_grants :
      (token : String) (b : BearerToken)
      → decode_secret client b.bearer_token_secret_ref ≡ ok token
      → authenticate_with_bearer client base64_decode token (some b) ≡ granted
  unfolding authenticate_with_bearer
  bearer_grants token b p = ground (arith, eq_refl token)

  scheme_other :
      (auth : WebhookAuth) (header scheme token : String) (bearer : Option BearerToken)
      → auth.bearer_token ≡ bearer
      → split_n2 b' ' header ≡ some (scheme, token)
      → equal_fold scheme "basic" ≡ false
      → authenticate_with_bearer client base64_decode token bearer ≡ granted
      → Authorizes auth header
  scheme_other auth header scheme token none q s other e =
      absurd (unfold authenticate_with_bearer in cc e)
  scheme_other auth header scheme token (some b) q s other e =
      by_bearer b scheme token q (inr other) s
        (decode_secret-eq-ok client _ token (bearer_granted token b e))

  -- A header that splits: the two methods by the configured references.
  scheme_granted :
      (auth : WebhookAuth) (header scheme token : String) (basic : Option BasicAuth)
      (bearer : Option BearerToken)
      → auth.basic_auth ≡ basic
      → auth.bearer_token ≡ bearer
      → split_n2 b' ' header ≡ some (scheme, token)
      → by_scheme client base64_decode scheme token basic bearer ≡ granted
      → Authorizes auth header
  unfolding by_scheme
  scheme_granted auth header scheme token none none p q s e =
      absurd (unfold authenticate_with_bearer in cc e)
  scheme_granted auth header scheme token none (some b) p q s e =
      by_bearer b scheme token q (inl p) s
        (decode_secret-eq-ok client _ token (bearer_granted token b e))
  scheme_granted auth header scheme token (some a) bearer p q s e =
      elim (Bool-cases (equal_fold scheme "basic")) [
        | inl named ↦
            let (user, password, u, w, d) = basic_granted token a (rw named at e) in
            by_basic a scheme token user password p s named (decode_secret-eq-ok client _ user u)
              (decode_secret-eq-ok client _ password w) d
        | inr other ↦ scheme_other auth header scheme token bearer q s other (rw other at e)
      ]

  granted_Authorizes :
      (auth : WebhookAuth) (header : String)
      → check client base64_decode (some auth) header ≡ granted
      → Authorizes auth header
  unfolding check with_header
  granted_Authorizes auth header e =
      elim (Bool-cases (is_some auth.basic_auth || is_some auth.bearer_token)) [
        | inr unset ↦ open_route (ground arith) (ground arith)
        | inl set ↦ elim (Option-cases (split_n2 b' ' header)) [
          | inl bad ↦ absurd (ground arith)
          | inr ((scheme, token), s) ↦
              scheme_granted auth header scheme token _ _ refl refl s (rw (set, s) at e)
        ]
      ]

  Authorizes-granted :
      (auth : WebhookAuth) (header : String)
      → Authorizes auth header
      → check client base64_decode (some auth) header ≡ granted
  unfolding check with_header by_scheme
  Authorizes-granted auth header (open_route p q) = rw (p, q)
  Authorizes-granted auth header (by_basic b scheme token user password p s named u w d) =
      rw (p, s)
        (rw named (
          basic_grants token user password b (decode_secret_of_Denotes client _ user u)
            (decode_secret_of_Denotes client _ password w) d))
  Authorizes-granted auth header (by_bearer b scheme token q c s d) =
      ground (arith, bearer_grants token b (decode_secret_of_Denotes client _ token d))

  check_iff :
      (o : Option WebhookAuth) (header : String)
      → (check client base64_decode o header ≡ granted)
        ↔ ((o ≡ none) ⊎ ((auth : WebhookAuth) × (o ≡ some auth) × Authorizes auth header))
  check_iff none header = ((λ _. inl refl), (λ _. unfold check in refl))
  check_iff (some auth) header = (
    (λ e. inr (auth, refl, granted_Authorizes auth header e)),
    (λ h. elim h [
      | inl e ↦ absurd (cc)
      | inr (a, e, z) ↦
          Authorizes-granted auth header
            (subst (λ x. Authorizes x header) (some-injective a auth (sym e)) z)
    ]),
  )

  -- A request passes authentication exactly if its route has no authentication configured, or the
  -- header carries the credentials that the configuration and the cluster's Secrets call for: the
  -- base64 of user:password behind a scheme that folds to "basic", or the bearer token behind any
  -- scheme where basic authentication is not configured or the scheme does not fold to "basic".
  pub authenticate_iff :
      (config : Option WebhookConfig) (header : String)
      → (authenticate client base64_decode config header ≡ granted) ↔ (
          (auth_of config ≡ none)
          ⊎ ((auth : WebhookAuth) × (auth_of config ≡ some auth) × Authorizes auth header))
  unfolding authenticate
  authenticate_iff config header = check_iff (auth_of config) header
