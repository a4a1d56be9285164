-- ===== src/Examples/Handling.antt =====
-- Runs of the handlers.
use reloader.Prelude.{List, true, false, ◌≡◌, ◌↔◌, none, some, [], ◌∷◌, ok}
use reloader.Api.{DestinationCriteria, DestinationToWatch}
use reloader.Events.{SecretRotationEvent}
use reloader.Handler.Objects.{
  PushSecret, push_secret, ObjectMeta, ExternalSecret, external_secret, Deployment, deployment,
  Cluster, read, timeout,
}
use reloader.Handler.Matching.Watched.{Watched}
use reloader.Handler.Schema.{Registry}
use reloader.Handler.Deployment.{wait_for, max_ticks, new_handler, references}
use reloader.Handler.Kept.{Kept}
use reloader.Handler.ExternalSecret.{references as external_references}
use reloader.Handler.Deployment.Rollout.{CompletesIn, wait_for_iff}
use reloader.Handler.ExternalSecret
use reloader.Handler.ExternalSecret.Annotated
use reloader.Handler.PushSecret
use reloader.Handler.PushSecret.Selected
use reloader.Handler.Processor.{handle_event}
use reloader.Handler.Processor.Ordered.{InOrder, handle_event-InOrder}

abbrev meta : ObjectMeta
meta = record { name = "web"; namespace = "default"; labels = []; annotations = [] }

abbrev pub deployed : Deployment
deployed = record {
  meta = meta;
  generation = 2;
  observed_generation = 2;
  paused = false;
  replicas = some 3;
  updated_replicas = 3;
  available_replicas = 3;
  ready_replicas = 3;
  conditions =
      record { type = "Progressing"; status = "True"; reason = "NewReplicaSetAvailable" } ∷ [];
  template_annotations = [];
  containers =
      record {
        env =
            record {
              value_from = some (record { secret_key_ref = some "db"; config_map_key_ref = none });
            }
            ∷ [];
        env_from = [];
      }
      ∷ [];
}

-- The cluster is its one Deployment.
abbrev pub cluster : Cluster Deployment
cluster = record {
  as_selector = λ s. some (λ labels. true);
  regexp_matches = λ r s. some true;
  namespace_labels = λ w n. ok [];
  list_deployments = λ w n. ok (w ∷ []);
  list_external_secrets = λ w. ok [];
  list_push_secrets = λ w. ok [];
  list_workflows = λ w. ok [];
  update = λ o w. (ok tt, w);
  tick = λ namespace name w. (read (ok w), w);
}

abbrev criteria : DestinationCriteria
criteria = record { namespace_selectors = []; label_selectors = none; names = "web" ∷ [] }

abbrev pub destination : DestinationToWatch
destination = record {
  type = "Deployment";
  workflow_run_template = none;
  external_secret = none;
  push_secret = none;
  deployment = some criteria;
  update_strategy = none;
  match_strategy = none;
  wait_strategy = none;
}

abbrev pub event : SecretRotationEvent
event = record {
  secret_identifier = "db";
  rotation_timestamp = "now";
  trigger_source = "Webhook";
  namespace = "";
}

wait_for_iff_example :
    (wait_for cluster (deployment deployed) deployed ≡ (ok tt, deployed))
    ↔ CompletesIn cluster deployed max_ticks deployed deployed
wait_for_iff_example = wait_for_iff cluster deployed deployed deployed

abbrev pub providers : Registry Deployment
providers = ("Deployment", new_handler cluster) ∷ []

handle_event-InOrder_example : InOrder (handle_event providers event (destination ∷ []) deployed)
handle_event-InOrder_example = handle_event-InOrder providers event (destination ∷ []) deployed

abbrev external : ExternalSecret
external = record {
  meta = meta;
  remote_keys = "api" ∷ [];
  data_from = record { extract = none; find = some (some "d.*") } ∷ [];
  template = none;
}

-- A cluster that lists one kind of object: ExternalSecrets, then PushSecrets.
abbrev listing : List ExternalSecret → List PushSecret → Cluster (Unit {0})
listing externals pushes = record {
  as_selector = λ s. some (λ labels. true);
  regexp_matches = λ r s. some true;
  namespace_labels = λ w n. ok [];
  list_deployments = λ w n. ok [];
  list_external_secrets = λ w. ok externals;
  list_push_secrets = λ w. ok pushes;
  list_workflows = λ w. ok [];
  update = λ o w. (ok tt, w);
  tick = λ namespace name w. (timeout, w);
}

abbrev to_externals : DestinationToWatch
to_externals = record destination {
  type = "ExternalSecret";
  external_secret = some criteria;
  deployment = none;
}

abbrev externals : Cluster (Unit {0})
externals = listing (external ∷ []) []

abbrev pushed : PushSecret
pushed = record { meta = meta; selector_secret = some "db"; remote_keys = "remote" ∷ [] }

abbrev to_pushes : DestinationToWatch
to_pushes = record destination {
  type = "PushSecret";
  push_secret = some criteria;
  deployment = none;
}

abbrev pushes : Cluster (Unit {0})
pushes = listing [] (pushed ∷ [])
