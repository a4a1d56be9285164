-- ===== src/Cloud/Gcp/Chosen.antt =====
-- Which source of tokens a configuration gets.
use Prim.Native.String.{◌++◌ as ◌+++◌}
use reloader.Prelude.{
  String, ◌≡◌, refl, sym, subst, ap, ◌∙◌, inl, inr, Option, none, some, ◌∷◌, Result, ok, err, ◌>>=◌,
  bind-ok, ok-injective, Option-cases, Result-cases, Map,
}
use reloader.Api.{SecretKeySelector, GcpWorkloadIdentity, GooglePubSubAuth}
use reloader.Secrets.{ClientError, GetSecret, Denotes, secret_key_ref}
use reloader.Secrets.Reads.{readers_agree}
use reloader.Cloud.Aws.{GetServiceAccount}
use reloader.Cloud.Gcp.Exchange.{
  IsProject, Binds, Speaks, failing-ok, bound-Binds, impersonate-Speaks, cluster_project-IsProject,
}
use reloader.Cloud.Gcp.{
  Google, Token, TokenSource, default_token_source, jwt_token_source, cloud_platform_role, failing,
  of_account, cluster_project, generate_sa_token, generate_id_bind_token, impersonate, token_source,
  token_source_from_secret, default_source, new_workload_identity, or_default, or_identity,
  new_token_source,
}

of_account-ok : {A : Type 0} (r : Result ClientError A) {a : A} → of_account r ≡ ok a → r ≡ ok a
of_account-ok (ok b) e = ap ok (ok-injective e)
of_account-ok (err x) e = absurd (cc e)

module _ (google : Google) (client : GetSecret) (accounts : GetServiceAccount) where
  -- The token that a service account's own token, for the pool of a project, is exchanged for;
  -- `annotations` are those of the account.
  pub record Exchanged (project : String) (wi : GcpWorkloadIdentity)
      (annotations : Option (Map String String)) (token : Token) : Type 0 where
    pub k8s_token : String
    pub account :
        accounts wi.service_account_ref.name wi.service_account_ref.namespace ≡ ok annotations
    pub created :
        google.create_token (record {
          name = wi.service_account_ref.name;
          namespace = wi.service_account_ref.namespace;
          audiences = (project +++ ".svc.id.goog") ∷ wi.service_account_ref.audiences;
          expiration_seconds = 900;
        })
        ≡ ok k8s_token
    pub binds : Binds google project wi k8s_token token

  -- The clients of Kubernetes and of Google's IAM can be set up.
  abbrev pub CanExchange : Type 0
  CanExchange = (google.new_sa_token_generator_fails ≡ none) × (google.new_iam_client_fails ≡ none)

  -- Who vouches for a configuration, and the source of tokens that it gets.
  pub data Chosen (project : String) : Option GooglePubSubAuth → TokenSource → Type 0 where
    ambient : google.default_fails ≡ none → Chosen project none default_token_source
    no_credentials :
        {auth : GooglePubSubAuth}
        → auth.secret_ref ≡ none
        → auth.workload_identity ≡ none
        → CanExchange
        → google.default_fails ≡ none
        → Chosen project (some auth) default_token_source
    by_key :
        {auth : GooglePubSubAuth} {credentials : String} (sel : SecretKeySelector)
        → auth.secret_ref ≡ some sel
        → Denotes client sel credentials
        → google.jwt_config_fails credentials cloud_platform_role ≡ none
        → Chosen project (some auth) (jwt_token_source credentials)
    by_identity :
        {auth : GooglePubSubAuth} {ts : TokenSource} (wi : GcpWorkloadIdentity) (own : String)
        (annotations : Option (Map String String)) (token : Token)
        → auth.secret_ref ≡ none
        → auth.workload_identity ≡ some wi
        → CanExchange
        → IsProject wi project own
        → Exchanged own wi annotations token
        → Speaks google annotations token ts
        → Chosen project (some auth) ts

  pub ready-CanExchange : new_workload_identity google ≡ ok tt → CanExchange
  ready-CanExchange e = elim (Option-cases google.new_sa_token_generator_fails) [
    | inr (x, fails) ↦ absurd (cc (rw (fails, new_workload_identity) at e))
    | inl works ↦ elim (Option-cases google.new_iam_client_fails) [
      | inr (x, fails) ↦ absurd (cc (rw (works, fails, new_workload_identity) at e))
      | inl also ↦ (works, also)
    ]
  ]

  default-ok :
      {ts : TokenSource}
      → default_source google ≡ ok ts
      → (google.default_fails ≡ none) × (ts ≡ default_token_source)
  default-ok e = elim (Option-cases google.default_fails) [
    | inl works ↦ (works, sym (ok-injective (rw (works, default_source) at e)))
    | inr (x, fails) ↦ absurd (cc (rw (fails, default_source) at e))
  ]

  abbrev KeySource : SecretKeySelector → Option TokenSource → Type 0
  KeySource sel o =
      (credentials : String) × ((o ≡ some (jwt_token_source credentials))
        × (Denotes client sel credentials
            × (google.jwt_config_fails credentials cloud_platform_role ≡ none)))

  secret-ok :
      (sel : SecretKeySelector) {o : Option TokenSource}
      → token_source_from_secret google client (some sel) ≡ ok o
      → KeySource sel o
  unfolding token_source_from_secret
  secret-ok sel e = elim (Result-cases (secret_key_ref client sel)) [
    | inr (x, got) ↦ absurd (cc (rw (got, token_source_from_secret) at e))
    | inl (credentials, got) ↦
        let read = (readers_agree client sel credentials).2.0 got in
        elim (Option-cases (google.jwt_config_fails credentials cloud_platform_role)) [
          | inl works ↦ (
            credentials,
            (sym (ok-injective (rw (got, works, token_source_from_secret) at e)), (read, works)),
          )
          | inr (x, fails) ↦ absurd (cc (rw (got, fails, token_source_from_secret) at e))
        ]
  ]

  abbrev Identity : String → GcpWorkloadIdentity → Option TokenSource → Type 0
  Identity project wi o =
      (annotations : Option (Map String String)) × ((token : Token) × ((ts : TokenSource) × ((o
              ≡ some ts)
            × (Exchanged project wi annotations token × Speaks google annotations token ts))))

  token_source-ok :
      (project : String) (wi : GcpWorkloadIdentity) {o : Option TokenSource}
      → token_source google accounts project (some wi) ≡ ok o
      → Identity project wi o
  unfolding token_source generate_sa_token
  token_source-ok project wi e =
      let (annotations, (account, e1)) = bind-ok (of_account _) _ e in
      let (k8s_token, (created, e2)) = bind-ok (failing _ _) _ e1 in
      let (token, (bound, e3)) = bind-ok (generate_id_bind_token google _ _ _) _ e2 in
      let (ts, (last, e4)) = bind-ok (impersonate google _ _) _ e3 in
      (
        annotations,
        (
          token,
          (
            ts,
            (
              sym (ok-injective e4),
              (
                record {
                  k8s_token = k8s_token;
                  account = of_account-ok _ account;
                  created = failing-ok _ _ created;
                  binds = bound-Binds google project wi k8s_token bound;
                },
                impersonate-Speaks google annotations token last,
              ),
            ),
          ),
        ),
      )

  -- A configuration without a key.
  keyless-Chosen :
      (auth : GooglePubSubAuth) (project : String) (wi : Option GcpWorkloadIdentity)
      {ts : TokenSource}
      → auth.secret_ref ≡ none
      → auth.workload_identity ≡ wi
      → (new_workload_identity google >>= λ _.
          token_source google accounts (cluster_project auth project) wi >>= or_default google)
        ≡ ok ts
      → Chosen project (some auth) ts
  unfolding token_source
  keyless-Chosen auth project none no_key is e =
      let (_, (ready, e1)) = bind-ok (new_workload_identity google) _ e in
      let (works, which) = default-ok e1 in
      subst (Chosen project (some auth)) (sym which)
        (no_credentials no_key is (ready-CanExchange ready) works)
  keyless-Chosen auth project (some wi) no_key is e =
      let (_, (ready, e1)) = bind-ok (new_workload_identity google) _ e in
      let (o, (found, e2)) =
        bind-ok (token_source google accounts (cluster_project auth project) (some wi)) _ e1 in
      let (annotations, (token, (ts, (which, (exchanged, last))))) =
        token_source-ok (cluster_project auth project) wi found in
      subst (Chosen project (some auth)) (ok-injective (ap (or_default google) (sym which) ∙ e2)) (
        by_identity wi (cluster_project auth project) annotations token no_key is
          (ready-CanExchange ready) (cluster_project-IsProject auth wi project is) exchanged last)

  key-Chosen :
      (auth : GooglePubSubAuth) (project : String) (key : Option SecretKeySelector)
      {ts : TokenSource}
      → auth.secret_ref ≡ key
      → (token_source_from_secret google client key >>= or_identity google accounts auth project)
        ≡ ok ts
      → Chosen project (some auth) ts
  unfolding token_source_from_secret
  key-Chosen auth project none is e = keyless-Chosen auth project auth.workload_identity is refl e
  key-Chosen auth project (some sel) is e =
      let (o, (found, e1)) = bind-ok (token_source_from_secret google client (some sel)) _ e in
      let (credentials, (which, (read, works))) = secret-ok sel found in
      subst (Chosen project (some auth))
        (ok-injective (ap (or_identity google accounts auth project) (sym which) ∙ e1))
        (by_key sel is read works)

  pub new_token_source-Chosen :
      (auth : Option GooglePubSubAuth) (project : String) {ts : TokenSource}
      → new_token_source google client accounts auth project ≡ ok ts
      → Chosen project auth ts
  unfolding new_token_source
  new_token_source-Chosen none project e =
      let (works, which) = default-ok e in subst (Chosen project none) (sym which) (ambient works)
  new_token_source-Chosen (some auth) project e = key-Chosen auth project auth.secret_ref refl e
