-- ===== src/Listener/KubeConfig/Reached.antt =====
-- Which cluster a Kubernetes watch reaches, and when its start panics.
use reloader.Prelude.{
  String, false, ◌==◌, ◌≡◌, ◌↔◌, refl, subst, ap, inl, inr, Option, none, some, Result, ok, err,
  bind-ok, bind_of, ok-injective, Bool-cases, ◌∙◌,
}
use reloader.Api.{ServiceAccountSelector, SecretKeySelector, KubernetesAuth, KubernetesObjectConfig}
use reloader.Secrets.{GetSecret, SecretError, Denotes, fetch_secret_key}
use reloader.Secrets.Reads.{readers_agree}
use reloader.Listener.KubeConfig.Certificates.{
  Certificate, Creates, ca_cert-Certificate, ca_cert-eq,
}
use reloader.Listener.KubeConfig.{
  RestConfig, ClientSet, KubeError, nil_client_set, Kube, Handler, failing, unless, of_secret,
  fetch_ca_cert_from_source, service_account_token, bearer_token, remote, by_auth, with_auth,
  get_kube_config,
}

failing-ok :
    {A : Type 0} (f : String → KubeError) (r : Result String A) {a : A}
    → failing f r ≡ ok a
    → r ≡ ok a
failing-ok f (ok b) e = ap ok (ok-injective e)
failing-ok f (err x) e = absurd (cc e)

failing-safe :
    {A : Type 0} (f : String → KubeError) (r : Result String A)
    → ((x : String) → ¬ (f x ≡ nil_client_set))
    → ¬ (failing f r ≡ err nil_client_set)
failing-safe f (ok b) k e = absurd (cc e)
failing-safe f (err x) k e = k x (cc e)

unless-safe :
    (f : String → KubeError) (o : Option String)
    → ((x : String) → ¬ (f x ≡ nil_client_set))
    → ¬ (unless f o ≡ err nil_client_set)
unless-safe f none k e = absurd (cc e)
unless-safe f (some x) k e = k x (cc e)

secret-ok : (r : Result SecretError String) {v : String} → of_secret r ≡ ok v → r ≡ ok v
secret-ok (ok b) e = ap ok (ok-injective e)
secret-ok (err x) e = absurd (cc e)

secret-safe : (r : Result SecretError String) → ¬ (of_secret r ≡ err nil_client_set)
secret-safe (ok b) e = absurd (cc e)
secret-safe (err x) e = absurd (cc e)

module _ (kube : Kube) (client : GetSecret) where
  -- The server that an authentication by token or account is for, with the data of its certificate.
  pub record Server (config : KubernetesObjectConfig) (auth : KubernetesAuth) (ca : Option String)
      : Type 0 where
    pub configured : config.auth ≡ some auth
    pub no_kube_config : auth.kube_config_ref ≡ none
    pub has_url : (config.server_url == "") ≡ false
    pub certificate : Certificate kube client auth.ca_bundle ca

  -- The cluster that a handler reaches, and as whom.
  pub data Reaches (h : Handler) : RestConfig → Type 0 where
    by_default :
        {cfg : RestConfig} → h.config.auth ≡ none → kube.get_config ≡ ok cfg → Reaches h cfg
    by_kube_config :
        {cfg : RestConfig} (auth : KubernetesAuth) (sel : SecretKeySelector) (text : String)
        → h.config.auth ≡ some auth
        → auth.kube_config_ref ≡ some sel
        → Denotes client sel text
        → kube.from_kube_config text ≡ ok cfg
        → Reaches h cfg
    by_token :
        (auth : KubernetesAuth) (ca : Option String) (sel : SecretKeySelector) (token : String)
        → Server h.config auth ca
        → auth.token_ref ≡ some sel
        → Denotes client sel token
        → Reaches h (record { host = h.config.server_url; ca_data = ca; bearer_token = token })
    by_account :
        (auth : KubernetesAuth) (ca : Option String) (sa : ServiceAccountSelector) (token : String)
        → Server h.config auth ca
        → auth.token_ref ≡ none
        → auth.service_account_ref ≡ some sa
        → Creates kube client h.ctrl_client_set sa token
        → Reaches h (record { host = h.config.server_url; ca_data = ca; bearer_token = token })

  fetched :
      (sel : SecretKeySelector) {v : String}
      → of_secret (fetch_secret_key client (some sel)) ≡ ok v
      → Denotes client sel v
  fetched sel {v} e = (readers_agree client sel v).1.0 (secret-ok _ e)

  account-Creates :
      (set : Option ClientSet) (sa : ServiceAccountSelector) {token : String}
      → service_account_token kube client set (some sa) ≡ ok token
      → Creates kube client set sa token
  unfolding service_account_token
  account-Creates none sa e = absurd (cc e)
  account-Creates (some create_token) sa e = (create_token, (refl, failing-ok _ _ e))

  account-eq :
      (set : Option ClientSet) (sa : ServiceAccountSelector) {token : String}
      → Creates kube client set sa token
      → service_account_token kube client set (some sa) ≡ ok token
  unfolding service_account_token
  account-eq set sa (create_token, (is, made)) =
      ap (λ s. service_account_token kube client s (some sa)) is ∙ ap (failing _) made

  token-Reaches :
      (h : Handler) (auth : KubernetesAuth) (ca : Option String) (token : String)
      (sel : Option SecretKeySelector) (sa : Option ServiceAccountSelector)
      → Server h.config auth ca
      → auth.token_ref ≡ sel
      → auth.service_account_ref ≡ sa
      → bearer_token kube client h.ctrl_client_set sel sa ≡ ok token
      → Reaches h (record { host = h.config.server_url; ca_data = ca; bearer_token = token })
  unfolding bearer_token
  token-Reaches h auth ca token (some sel) sa s t a e =
      by_token auth ca sel token s t (fetched sel e)
  token-Reaches h auth ca token none (some sa) s t a e =
      by_account auth ca sa token s t a (account-Creates h.ctrl_client_set sa e)
  token-Reaches h auth ca token none none s t a e = absurd (cc e)

  auth-Reaches :
      (h : Handler) (auth : KubernetesAuth) (sel : Option SecretKeySelector) {cfg : RestConfig}
      → h.config.auth ≡ some auth
      → auth.kube_config_ref ≡ sel
      → by_auth kube client h.ctrl_client_set h.config auth sel ≡ ok cfg
      → Reaches h cfg
  unfolding by_auth
  auth-Reaches h auth (some sel) is k e =
      let (text, (got, e1)) = bind-ok (of_secret _) _ e in
      by_kube_config auth sel text is k (fetched sel got) (failing-ok _ _ e1)
  auth-Reaches h auth none is k e = elim (Bool-cases (h.config.server_url == "")) [
    | inl empty ↦ absurd (cc (rw (empty, remote) at e))
    | inr url ↦
        let (ca, (got, e1)) =
          bind-ok (fetch_ca_cert_from_source kube client auth.ca_bundle) _
            (rw (url, remote) at e) in
        let (token, (found, e2)) =
          bind-ok
            (bearer_token kube client h.ctrl_client_set auth.token_ref auth.service_account_ref) _
            e1 in
        subst (Reaches h) (ok-injective e2) (
          token-Reaches h auth ca token auth.token_ref auth.service_account_ref
            (record {
              configured = is;
              no_kube_config = k;
              has_url = url;
              certificate = ca_cert-Certificate kube client auth.ca_bundle got;
            })
            refl refl found)
  ]

  config-Reaches :
      (h : Handler) (auth : Option KubernetesAuth) {cfg : RestConfig}
      → h.config.auth ≡ auth
      → with_auth kube client h.ctrl_client_set h.config auth ≡ ok cfg
      → Reaches h cfg
  unfolding with_auth
  config-Reaches h none is e = by_default is (failing-ok _ _ e)
  config-Reaches h (some auth) is e = auth-Reaches h auth auth.kube_config_ref is refl e

  denoted :
      (sel : SecretKeySelector) {v : String}
      → Denotes client sel v
      → of_secret (fetch_secret_key client (some sel)) ≡ ok v
  denoted sel {v} d = ap of_secret ((readers_agree client sel v).1.1 d)

  remote-eq :
      (set : Option ClientSet) (config : KubernetesObjectConfig) (auth : KubernetesAuth)
      {ca : Option String} {token : String}
      → Server config auth ca
      → bearer_token kube client set auth.token_ref auth.service_account_ref ≡ ok token
      → with_auth kube client set config config.auth
        ≡ ok (record { host = config.server_url; ca_data = ca; bearer_token = token })
  unfolding with_auth by_auth
  remote-eq set config auth s found =
      rw (s.configured, with_auth, s.no_kube_config, by_auth, s.has_url)
        (bind_of _ (ca_cert-eq kube client auth.ca_bundle s.certificate) (bind_of _ found refl))

  get_kube_config_of_Reaches :
      (h : Handler) {cfg : RestConfig} → Reaches h cfg → get_kube_config kube client h ≡ ok cfg
  unfolding get_kube_config with_auth by_auth bearer_token
  get_kube_config_of_Reaches h (by_default is found) = rw (is, with_auth) (ap (failing _) found)
  get_kube_config_of_Reaches h (by_kube_config auth sel text is k d found) =
      rw (is, with_auth, k, by_auth) (bind_of _ (denoted sel d) (ap (failing _) found))
  get_kube_config_of_Reaches h (by_token auth ca sel token s t d) =
      remote-eq h.ctrl_client_set h.config auth s (rw (t, bearer_token) (denoted sel d))
  get_kube_config_of_Reaches h (by_account auth ca sa token s t a found) =
      remote-eq h.ctrl_client_set h.config auth s
        (rw (t, a, bearer_token) (account-eq h.ctrl_client_set sa found))

  -- A handler gets the configuration of a cluster exactly in one of these ways: without
  -- authentication the default one; from the kubeconfig that the cluster holds at the given key; or,
  -- for the configured server, with the bundle's certificate (none if the bundle is empty, else the
  -- bundle if it is a certificate in PEM, else what it is the base64 of) and the token that the
  -- cluster holds at the given key or, without one, the token that an existing client set creates
  -- for the service account, for an hour.
  pub get_kube_config-ok_iff :
      (h : Handler) (cfg : RestConfig) → (get_kube_config kube client h ≡ ok cfg) ↔ Reaches h cfg
  unfolding get_kube_config
  get_kube_config-ok_iff h cfg = (config-Reaches h h.config.auth refl, get_kube_config_of_Reaches h)
