-- ===== src/Entry.antt =====
-- cmd/main.go: the options that the flags give controller-runtime, and the start of the program. The
-- package that reads the flags and what controller-runtime answers are arguments.
pub mod Started
use reloader.Prelude.{
  ℕ, String, Bool, true, false, Option, none, some, List, [], ◌∷◌, Result, ok, err, ◌>>=◌,
  if◌then◌else◌,
}
use reloader.Webhook.Server.{new_webhook_server}
use reloader.Controller.Program.{Program, set_up_with_manager}

pub record Flags : Type 0 where
  pub metrics_addr : String
  pub enable_leader_election : Bool
  pub probe_addr : String
  pub secure_metrics : Bool
  pub enable_http2 : Bool
  pub webhook_addr : String

-- The flags of a command line that sets none.
abbrev pub default_flags : Flags
default_flags = record {
  metrics_addr = "0";
  enable_leader_election = false;
  probe_addr = ":8081";
  secure_metrics = true;
  enable_http2 = false;
  webhook_addr = ":8090";
}

-- The field of `tls.Config` that is set here.
pub record TlsConfig : Type 0 where
  pub next_protos : List String

abbrev pub disable_http2 : TlsConfig → TlsConfig
disable_http2 c = record c { next_protos = "http/1.1" ∷ [] }

unfoldable pub tls_opts : Flags → List (TlsConfig → TlsConfig)
tls_opts flags = if flags.enable_http2 then [] else disable_http2 ∷ []

-- `filters` of controller-runtime.
pub data FilterProvider : Type 0 where
  with_authentication_and_authorization : FilterProvider

pub record MetricsServerOptions : Type 0 where
  pub bind_address : String
  pub secure_serving : Bool
  pub tls_opts : List (TlsConfig → TlsConfig)
  pub filter_provider : Option FilterProvider

unfoldable pub metrics_server_options : Flags → MetricsServerOptions
metrics_server_options flags = record {
  bind_address = flags.metrics_addr;
  secure_serving = flags.secure_metrics;
  tls_opts = tls_opts flags;
  filter_provider =
      if flags.secure_metrics then some with_authentication_and_authorization else none;
}

-- `ctrl.Options`, less the scheme.
pub record ManagerOptions : Type 0 where
  pub metrics : MetricsServerOptions
  pub health_probe_bind_address : String
  pub leader_election : Bool
  pub leader_election_id : String

abbrev pub manager_options : Flags → ManagerOptions
manager_options flags = record {
  metrics = metrics_server_options flags;
  health_probe_bind_address = flags.probe_addr;
  leader_election = flags.enable_leader_election;
  leader_election_id = "0cd7d2f7.externalsecrets.com";
}

-- What the calls of controller-runtime return: `GetConfigOrDie`, which ends the program itself,
-- `NewManager`, `Add` of the webhook server and of the shutdown, `Complete`, the two checks, and
-- `Start`, once the program has ended.
pub record Runtime : Type 0 where
  pub get_config : Result String (Unit {0})
  pub new_manager : ManagerOptions → Result String (Unit {0})
  pub add_webhook : Result String (Unit {0})
  pub add_shutdown : Result String (Unit {0})
  pub complete : Result String (Unit {0})
  pub add_healthz_check : Result String (Unit {0})
  pub add_readyz_check : Result String (Unit {0})
  pub start : Result String (Unit {0})

module _ {W : Type 0} (rt : Runtime) (flags : Flags) (world : W) where
  -- Up to the call of `Start`: the program that is ready to run, or the error that ends it.
  unfoldable pub prepare : Result String (Program W)
  prepare = rt.get_config >>= λ _. rt.new_manager (manager_options flags) >>= λ _.
      rt.add_webhook >>= λ _.
      let (program, set_up) =
        set_up_with_manager rt.add_shutdown rt.complete (some new_webhook_server) world in
      set_up >>= λ _. rt.add_healthz_check >>= λ _. rt.add_readyz_check >>= λ _. ok program

  -- `main`: the exit code, and the program if it came to run.
  unfoldable pub main : ℕ × Option (Program W)
  main = elim prepare [
    | err _ ↦ (1, none)
    | ok program ↦ (elim rt.start [ err _ ↦ 1 | ok _ ↦ 0 ], some program)
  ]
