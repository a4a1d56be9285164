-- ===== src/Cloud/Gcp/Granted.antt =====
-- A configuration gets a source of tokens exactly in the ways of `Chosen`.
use reloader.Prelude.{String, ◌≡◌, ◌↔◌, refl, ap, ◌∙◌, Option, none, some, ok, bind_of, Map}
use reloader.Api.{SecretKeySelector, GcpWorkloadIdentity, GooglePubSubAuth}
use reloader.Secrets.{GetSecret, Denotes}
use reloader.Secrets.Reads.{readers_agree}
use reloader.Cloud.Aws.{GetServiceAccount}
use reloader.Cloud.Gcp.{
  Google, token_failed, Token, TokenSource, jwt_token_source, cloud_platform_role, failing,
  of_account, cluster_project, token_source, token_source_from_secret, default_source,
  new_workload_identity, generate_sa_token, new_token_source,
}
use reloader.Cloud.Gcp.Exchange.{
  Speaks, bound-eq, impersonate_of_Speaks, cluster_project_of_IsProject,
}
use reloader.Cloud.Gcp.Chosen.{
  Exchanged, CanExchange, Chosen, ambient, no_credentials, by_key, by_identity,
  new_token_source-Chosen,
}

module _ (google : Google) (client : GetSecret) (accounts : GetServiceAccount) where
  no_key-eq :
      {o : Option SecretKeySelector} → o ≡ none → token_source_from_secret google client o ≡ ok none
  unfolding token_source_from_secret
  no_key-eq is = ap (token_source_from_secret google client) is

  key-eq :
      (sel : SecretKeySelector) {credentials : String}
      → Denotes client sel credentials
      → google.jwt_config_fails credentials cloud_platform_role ≡ none
      → token_source_from_secret google client (some sel) ≡ ok (some (jwt_token_source credentials))
  unfolding token_source_from_secret
  key-eq sel {credentials} read works =
      rw ((readers_agree client sel credentials).2.1 read, token_source_from_secret) (rw works refl)

  token_source-eq :
      {project : String} (wi : GcpWorkloadIdentity) {annotations : Option (Map String String)}
      {token : Token} {ts : TokenSource}
      → Exchanged google client accounts project wi annotations token
      → Speaks google annotations token ts
      → token_source google accounts project (some wi) ≡ ok (some ts)
  unfolding token_source generate_sa_token
  token_source-eq {project} wi {annotations} {token} x last = bind_of _ (ap of_account x.account) (
      bind_of _ (ap (failing token_failed) x.created) (
        bind_of _ (bound-eq google project wi x.k8s_token x.binds)
          (bind_of _ (impersonate_of_Speaks google annotations token last) refl)))

  set_up-eq : CanExchange google client accounts → new_workload_identity google ≡ ok tt
  set_up-eq (works, also) = rw (works, also, new_workload_identity) refl

  new_token_source_of_Chosen :
      (project : String) {auth : Option GooglePubSubAuth} {ts : TokenSource}
      → Chosen google client accounts project auth ts
      → new_token_source google client accounts auth project ≡ ok ts
  unfolding new_token_source token_source
  new_token_source_of_Chosen project (ambient works) = rw (works, default_source) refl
  new_token_source_of_Chosen project (no_credentials {auth} no_key no_identity ready works) =
      bind_of _ (no_key-eq no_key) (
        bind_of _ (set_up-eq ready) (
          bind_of _ (ap (token_source google accounts (cluster_project auth project)) no_identity)
            (rw (works, default_source) refl)))
  new_token_source_of_Chosen project (by_key sel is read works) =
      bind_of _ (ap (token_source_from_secret google client) is ∙ key-eq sel read works) refl
  new_token_source_of_Chosen project
        (by_identity {auth} wi own annotations token no_key is ready project_is x last) =
      bind_of _ (no_key-eq no_key) (
        bind_of _ (set_up-eq ready) (
          bind_of _
            (ap (token_source google accounts (cluster_project auth project)) is
              ∙ ap (λ p. token_source google accounts p (some wi))
                  (cluster_project_of_IsProject auth wi project own is project_is)
              ∙ token_source-eq wi x last)
            refl))

  -- A configuration gets a source of tokens exactly in one of these ways. Without a configuration it
  -- is Google's default. With a key it is the key that the cluster holds, and nothing else is tried.
  -- With a workload identity alone it is the token that the account's own token, for the pool of the
  -- cluster's project if it is named and else of the given one, is exchanged for, or the one of the
  -- account that the annotation names. With neither it is Google's default, but only if a workload
  -- identity can be set up.
  pub new_token_source-ok_iff :
      (auth : Option GooglePubSubAuth) (project : String) (ts : TokenSource)
      → (new_token_source google client accounts auth project ≡ ok ts)
        ↔ Chosen google client accounts project auth ts
  new_token_source-ok_iff auth project ts = (
    new_token_source-Chosen google client accounts auth project,
    new_token_source_of_Chosen project,
  )
