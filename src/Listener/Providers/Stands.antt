-- ===== src/Listener/Providers/Stands.antt =====
-- What each provider creates from the block of a source that it looks at.
use reloader.Prelude.{
  ◌≡◌, sym, subst, ap, ◌∙◌, inl, inr, Option, some, Result, ok, err, ◌>>=◌, bind-ok, ok-injective,
  string_eq, Option-cases,
}
use reloader.Api.{
  AwsSqsConfig, AzureEventGridConfig, GooglePubSubConfig, HashicorpVaultConfig, TcpSocketConfig,
  MockConfig, KubernetesObjectConfig, NotificationSource,
}
use reloader.Cloud.Aws.{create_aws_sdk_config}
use reloader.Cloud.Gcp.{TokenSource, new_token_source}
use reloader.Listener.KubeConfig.{new_handler}
use reloader.Listener.Sockets.{new_tcp_socket_listener, vault_socket}
use reloader.Listener.Mock.{of_config}
use reloader.Manager.{SourceConfig}
use reloader.Listener.Providers.{
  CreateError, token_source_failed, parse_failed, aws_config_failed, Created, aws_sqs_listener,
  event_grid_listener, google_pub_sub, hashicorp_vault, tcp_socket, mock, kubernetes, Env,
  transform_config, Provider, failing, block_of, with_client, new_aws_sqs_listener, create_aws_sqs,
  create_azure_event_grid, create_google_pub_sub, create_hashicorp_vault, create_tcp_socket,
  create_mock, create_kubernetes_secret, create_kubernetes_config_map,
}

module _ {C : Type 0} (env : Env C) where
  -- The listeners that a block stands for; there is none for a webhook, or for a missing block.
  pub data Stands : SourceConfig → Created C → Type 0 where
    aws :
        {config parsed : AwsSqsConfig} {aws_config : C}
        → transform_config env.marshal env.unmarshal config ≡ ok parsed
        → create_aws_sdk_config env.load_default_config env.client env.accounts parsed.auth
          ≡ ok aws_config
        → Stands (SourceConfig.aws_sqs (some config)) (aws_sqs_listener parsed aws_config)
    azure :
        {config : AzureEventGridConfig}
        → Stands (SourceConfig.azure_event_grid (some config)) (event_grid_listener config)
    google :
        {config : GooglePubSubConfig} {ts : TokenSource}
        → new_token_source env.google env.client env.accounts config.auth config.project_id ≡ ok ts
        → Stands (SourceConfig.google_pub_sub (some config)) (google_pub_sub config ts)
    vault :
        {config : HashicorpVaultConfig}
        → Stands
            (SourceConfig.hashicorp_vault (some config))
            (hashicorp_vault config (vault_socket config))
    tcp :
        {config : TcpSocketConfig}
        → Stands
            (SourceConfig.tcp_socket (some config))
            (tcp_socket (new_tcp_socket_listener config))
    mocked :
        {config : MockConfig} → Stands (SourceConfig.mock (some config)) (mock (of_config config))
    secret :
        {config : KubernetesObjectConfig}
        → Stands
            (SourceConfig.kubernetes_secret (some config))
            (kubernetes (new_handler "secret" config))
    config_map :
        {config : KubernetesObjectConfig}
        → Stands
            (SourceConfig.kubernetes_config_map (some config))
            (kubernetes (new_handler "configmap" config))

  failing-ok :
      {E A : Type 0} (f : E → CreateError) (r : Result E A) {a : A} → failing f r ≡ ok a → r ≡ ok a
  failing-ok f (ok b) e = ap ok (ok-injective e)
  failing-ok f (err x) e = absurd (cc e)

  block-ok :
      {B : Type 0} (block : NotificationSource → Option B) (s : NotificationSource) {b : B}
      → block_of block (some s) ≡ ok b
      → block s ≡ some b
  block-ok block s e = elim (Option-cases (block s)) [
    | inl missing ↦ absurd (cc (rw (missing, block_of) at e))
    | inr (c, there) ↦ there ∙ ap some (ok-injective (rw (there, block_of) at e))
  ]

  -- What a provider of a type gives for a source of that type.
  abbrev pub Gives : Provider C → (NotificationSource → SourceConfig) → Type 0
  Gives prov config =
      (s : NotificationSource) (l : Created C) → prov env (some s) ≡ ok l → Stands (config s) l

  -- A provider is given by what it makes of its block.
  block-Gives :
      {B : Type 0} (block : NotificationSource → Option B) (wrap : Option B → SourceConfig)
      (make : B → Result CreateError (Created C))
      → ((b : B) (l : Created C) → make b ≡ ok l → Stands (wrap (some b)) l)
      → Gives (λ _ source. block_of block source >>= make) (λ s. wrap (block s))
  block-Gives block wrap make h s l e =
      let (b, (found, made)) = bind-ok (block_of block (some s)) make e in
      subst (λ o. Stands (wrap o) l) (sym (block-ok block s found)) (h b l made)

  made :
      (c : SourceConfig) {l k : Created C}
      → Stands c l
      → ◌≡◌ {A = Result CreateError (Created C)} (ok l) (ok k)
      → Stands c k
  made c h e = subst (Stands c) (ok-injective e) h

  pub azure-Gives :
      Gives create_azure_event_grid (λ s. SourceConfig.azure_event_grid s.azure_event_grid)
  unfolding create_azure_event_grid
  azure-Gives =
      block-Gives (λ s. s.azure_event_grid) SourceConfig.azure_event_grid _
        (λ b l e. made _ azure e)

  pub vault-Gives :
      Gives create_hashicorp_vault (λ s. SourceConfig.hashicorp_vault s.hashicorp_vault)
  unfolding create_hashicorp_vault
  vault-Gives =
      block-Gives (λ s. s.hashicorp_vault) SourceConfig.hashicorp_vault _ (λ b l e. made _ vault e)

  pub tcp-Gives : Gives create_tcp_socket (λ s. SourceConfig.tcp_socket s.tcp_socket)
  unfolding create_tcp_socket
  tcp-Gives = block-Gives (λ s. s.tcp_socket) SourceConfig.tcp_socket _ (λ b l e. made _ tcp e)

  pub mock-Gives : Gives create_mock (λ s. SourceConfig.mock s.mock)
  unfolding create_mock
  mock-Gives = block-Gives (λ s. s.mock) SourceConfig.mock _ (λ b l e. made _ mocked e)

  pub secret-Gives :
      Gives create_kubernetes_secret (λ s. SourceConfig.kubernetes_secret s.kubernetes_secret)
  unfolding create_kubernetes_secret
  secret-Gives =
      block-Gives (λ s. s.kubernetes_secret) SourceConfig.kubernetes_secret _
        (λ b l e. made _ secret e)

  pub config_map-Gives :
      Gives create_kubernetes_config_map
        (λ s. SourceConfig.kubernetes_config_map s.kubernetes_config_map)
  unfolding create_kubernetes_config_map
  config_map-Gives =
      block-Gives (λ s. s.kubernetes_config_map) SourceConfig.kubernetes_config_map _
        (λ b l e. made _ config_map e)

  client-ok :
      (config : GooglePubSubConfig) (ts : TokenSource) {l : Created C}
      → with_client env config ts ≡ ok l
      → google_pub_sub config ts ≡ l
  unfolding with_client
  client-ok config ts e = elim (Option-cases (env.new_client_fails config.project_id ts)) [
    | inl works ↦ ok-injective (rw (works, with_client) at e)
    | inr (x, fails) ↦ absurd (cc (rw (fails, with_client) at e))
  ]

  pub google-Gives : Gives create_google_pub_sub (λ s. SourceConfig.google_pub_sub s.google_pub_sub)
  unfolding create_google_pub_sub
  google-Gives =
      block-Gives (λ s. s.google_pub_sub) SourceConfig.google_pub_sub _
        λ b l e.
          let (ts, (got, e1)) = bind-ok (failing token_source_failed _) _ e in
          subst (Stands (SourceConfig.google_pub_sub (some b))) (client-ok b ts e1)
            (google (failing-ok _ _ got))

  pub aws-Gives : Gives create_aws_sqs (λ s. SourceConfig.aws_sqs s.aws_sqs)
  unfolding create_aws_sqs new_aws_sqs_listener
  aws-Gives =
      block-Gives (λ s. s.aws_sqs) SourceConfig.aws_sqs _
        λ b l e.
          let (parsed, (got, e1)) = bind-ok (failing parse_failed _) _ e in
          let (aws_config, (loaded, e2)) = bind-ok (failing aws_config_failed _) _ e1 in
          made _ (aws (failing-ok _ _ got) (failing-ok _ _ loaded)) e2
