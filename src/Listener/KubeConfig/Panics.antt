-- ===== src/Listener/KubeConfig/Panics.antt =====
-- When the start of a Kubernetes watch panics.
use Prim.Native.String.{◌++◌ as ◌+++◌}
use reloader.Prelude.{
  String, ◌==◌, ◌≡◌, ◌↔◌, refl, ◌∙◌, inl, inr, Option, none, some, Result, ok, err, bind-eq,
  bind_err, bind-avoids, bind-err_first, bind-err_second, Bool-cases, Option-cases, Result-cases,
}
use reloader.Api.{
  ServiceAccountSelector, SecretKeySelector, LabelSelector, KubernetesAuth, KubernetesObjectConfig,
}
use reloader.Secrets.{GetSecret, SecretError}
use reloader.Listener.KubeConfig.{
  KubeError, nil_client_set, bad_kube_config, not_certificate, Kube, failing, unless, of_secret,
  parsed_block, parse_certificate_bytes, base64decode, fetch_ca_cert_from_source,
  service_account_token, bearer_token, remote, by_auth, with_auth, get_kube_config, select_fails,
  start, new_handler,
}
use reloader.Listener.KubeConfig.Certificates.{ca_cert-Certificate, ca_cert-eq}
use reloader.Listener.KubeConfig.Reached.{Server}

module _ {A : Type 0} (f : String → KubeError)
    (avoids : (x : String) → ¬ (f x ≡ nil_client_set)) where
  failing-safe : (r : Result String A) → ¬ (failing f r ≡ err nil_client_set)
  failing-safe (ok b) e = absurd (cc e)
  failing-safe (err x) e = avoids x (cc e)

unless-safe :
    (f : String → KubeError)
    → ((x : String) → ¬ (f x ≡ nil_client_set))
    → (o : Option String) → ¬ (unless f o ≡ err nil_client_set)
unless-safe f k none e = absurd (cc e)
unless-safe f k (some x) e = k x (cc e)

secret-safe : (r : Result SecretError String) → ¬ (of_secret r ≡ err nil_client_set)
secret-safe (ok b) e = absurd (cc e)
secret-safe (err x) e = absurd (cc e)

select-safe :
    (kube : Kube) (client : GetSecret) (o : Option LabelSelector)
    → ¬ (select_fails kube client o ≡ err nil_client_set)
select-safe kube client none e = absurd (cc e)
select-safe kube client (some s) e =
    unless-safe _ (λ x e. absurd (cc e)) (kube.label_selector_fails s) e

module _ (kube : Kube) (client : GetSecret) where
  -- The configuration authenticates with a service account, for a server whose certificate is in order.
  pub record ByAccount (config : KubernetesObjectConfig) : Type 0 where
    pub auth : KubernetesAuth
    pub ca : Option String
    pub sa : ServiceAccountSelector
    pub server : Server kube client config auth ca
    pub no_token : auth.token_ref ≡ none
    pub account : auth.service_account_ref ≡ some sa

  parsed-safe :
      (cert : String) (o : Option String) → ¬ (parsed_block kube client cert o ≡ err nil_client_set)
  parsed-safe cert none e = absurd (cc e)
  parsed-safe cert (some block) e =
      bind-avoids nil_client_set (unless not_certificate (kube.parse_certificate_fails block)) _
        (unless-safe not_certificate (λ x e. absurd (cc e)) (kube.parse_certificate_fails block))
        (λ _ e. absurd (cc e)) e

  decode-safe : (cert : String) → ¬ (base64decode kube client cert ≡ err nil_client_set)
  unfolding base64decode parse_certificate_bytes
  decode-safe cert e = elim (Result-cases (parse_certificate_bytes kube client cert)) [
    | inl (c, got) ↦ absurd (cc (rw (got, base64decode) at e))
    | inr (x, bad) ↦ elim (Option-cases (kube.base64_decode cert)) [
      | inl garbled ↦ absurd (cc (rw (bad, garbled, base64decode) at e))
      | inr (certificate, plain) ↦
          parsed-safe certificate (kube.pem_decode certificate) (rw (bad, plain, base64decode) at e)
    ]
  ]

  fetch-safe :
      (bundle : String) → ¬ (fetch_ca_cert_from_source kube client bundle ≡ err nil_client_set)
  unfolding fetch_ca_cert_from_source
  fetch-safe bundle e = elim (Bool-cases (bundle == "")) [
    | inl empty ↦ absurd (cc (rw (empty, fetch_ca_cert_from_source) at e))
    | inr full ↦
        bind-avoids nil_client_set (base64decode kube client bundle) _ (decode-safe bundle)
          (λ _ e. absurd (cc e)) (rw (full, fetch_ca_cert_from_source) at e)
  ]

  token-panics :
      (config : KubernetesObjectConfig) (auth : KubernetesAuth) (ca : Option String)
      (sel : Option SecretKeySelector) (sa : Option ServiceAccountSelector)
      → Server kube client config auth ca
      → auth.token_ref ≡ sel
      → auth.service_account_ref ≡ sa
      → bearer_token kube client none sel sa ≡ err nil_client_set
      → ByAccount config
  unfolding bearer_token
  token-panics config auth ca (some sel) sa s t a e = absurd (secret-safe _ e)
  token-panics config auth ca none (some sa) s t a e = record {
    auth = auth;
    ca = ca;
    sa = sa;
    server = s;
    no_token = t;
    account = a;
  }
  token-panics config auth ca none none s t a e = absurd (cc e)

  auth-panics :
      (config : KubernetesObjectConfig) (auth : KubernetesAuth) (sel : Option SecretKeySelector)
      → config.auth ≡ some auth
      → auth.kube_config_ref ≡ sel
      → by_auth kube client none config auth sel ≡ err nil_client_set
      → ByAccount config
  unfolding by_auth
  auth-panics config auth (some sel) is k e = absurd (
      bind-avoids nil_client_set (of_secret _) _ (secret-safe _)
        (λ text. failing-safe bad_kube_config (λ x e. absurd (cc e)) (kube.from_kube_config text))
        e)
  auth-panics config auth none is k e = elim (Bool-cases (config.server_url == "")) [
    | inl empty ↦ absurd (cc (rw (empty, remote) at e))
    | inr url ↦
        let (ca, (got, e1)) =
          bind-err_second nil_client_set (fetch_ca_cert_from_source kube client auth.ca_bundle) _
            (fetch-safe auth.ca_bundle) (rw (url, remote) at e) in
        token-panics config auth ca auth.token_ref auth.service_account_ref
          (record {
            configured = is;
            no_kube_config = k;
            has_url = url;
            certificate = ca_cert-Certificate kube client auth.ca_bundle got;
          })
          refl refl
          (bind-err_first nil_client_set
            (bearer_token kube client none auth.token_ref auth.service_account_ref) _
            (λ _ e. absurd (cc e)) e1)
  ]

  config-panics :
      (config : KubernetesObjectConfig) (auth : Option KubernetesAuth)
      → config.auth ≡ auth
      → with_auth kube client none config auth ≡ err nil_client_set
      → ByAccount config
  unfolding with_auth
  config-panics config none is e = absurd (failing-safe _ (λ x e. absurd (cc e)) _ e)
  config-panics config (some auth) is e = auth-panics config auth auth.kube_config_ref is refl e

  start-panics :
      (name : String) (config : KubernetesObjectConfig)
      → start kube client (new_handler name config) ≡ err nil_client_set
      → ByAccount config
  unfolding start get_kube_config new_handler
  start-panics name config e = config-panics config config.auth refl (
      bind-err_first nil_client_set (with_auth kube client none config config.auth) _
        (λ cfg.
          bind-avoids nil_client_set _ _
            (failing-safe _ (λ x e. absurd (cc e)) (kube.new_for_config cfg))
            (λ set.
              bind-avoids nil_client_set _ _
                (unless-safe _ (λ x e. absurd (cc e)) (kube.new_manager_fails cfg))
                (λ _.
                  bind-avoids nil_client_set _ _ (select-safe kube client config.label_selector)
                    (λ _.
                      bind-avoids nil_client_set _ _
                        (unless-safe _ (λ x e. absurd (cc e))
                          (kube.complete_fails ("k8s" +++ name)))
                        (λ _ e. absurd (cc e))))))
        e)

  account-panics :
      (name : String) (config : KubernetesObjectConfig)
      → ByAccount config
      → start kube client (new_handler name config) ≡ err nil_client_set
  unfolding start get_kube_config with_auth by_auth bearer_token service_account_token new_handler
  account-panics name config h =
      let s = h.server in
      let token = bearer_token kube client none h.auth.token_ref h.auth.service_account_ref in
      let stuck : token ≡ err nil_client_set = rw (h.no_token, h.account, bearer_token) refl in
      let config_fails : with_auth kube client none config config.auth ≡ err nil_client_set =
        rw (s.configured, with_auth, s.no_kube_config, by_auth, s.has_url)
          (bind-eq _ (ca_cert-eq kube client h.auth.ca_bundle s.certificate) ∙ bind_err _ stuck) in
      bind_err _ config_fails

  -- The start of a watch that a provider has created panics exactly if its configuration
  -- authenticates with a service account: no kubeconfig and no token, a server's address, and a
  -- bundle that is empty or a certificate, in PEM or the base64 of that. The client set that is to create the token is set only
  -- after the configuration that needs it.
  pub start-panics_iff :
      (name : String) (config : KubernetesObjectConfig)
      → (start kube client (new_handler name config) ≡ err nil_client_set) ↔ ByAccount config
  start-panics_iff name config = (start-panics name config, account-panics name config)
