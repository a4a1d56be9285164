-- ===== src/Handler/Deployment.antt =====
-- internal/handler/deployment: the handler of Deployments.
pub mod Rollout
pub mod Safe
pub mod Reloads
pub mod References
use reloader.Prelude.{
  ℕ, zero, suc, String, Bool, true, false, not, ◌&&◌, ◌||◌, ◌==◌, eqb, Option, none, some, List, [],
  ◌∷◌, ◌++◌, map, Result, ok, err, Map, string_eq, insert, any, if◌then◌else◌, is_some,
}
use reloader.Events.{SecretRotationEvent}
use reloader.Api.{DestinationToWatch}
use reloader.Secrets.{ClientError}
use reloader.Handler.Objects.{
  EnvVarSource, EnvVar, EnvFromSource, Container, DeploymentCondition, Deployment, Object, is_named,
  deployment, external_secret, push_secret, workflow, Cluster, Tick, timeout, read,
}
use reloader.Handler.Matching.{is_deployment_watched, WatchError}
use reloader.Handler.Schema.{
  HandlerError, wrong_destination, list_failed, wrong_object, update_failed, get_failed,
  rollout_timeout, Handler, Provider,
}

abbrev env_references : String → EnvVar → Bool
env_references identifier e = elim e.value_from [
  | none ↦ false
  | some from ↦
      is_named identifier from.secret_key_ref || is_named identifier from.config_map_key_ref
]

abbrev env_from_references : String → EnvFromSource → Bool
env_from_references identifier e =
    is_named identifier e.secret_ref || is_named identifier e.config_map_ref

unfoldable pub contains_key : Container → String → Bool
contains_key container identifier =
    any (env_references identifier) container.env
    || any (env_from_references identifier) container.env_from

-- `_references`
unfoldable pub references : Object → String → Result HandlerError Bool
references (deployment d) identifier =
    ok (any (λ (c : Container). contains_key c identifier) d.containers)
references _ identifier = err wrong_object

-- The annotations that an update sets on the pod template.
unfoldable pub annotate : SecretRotationEvent → Deployment → Deployment
annotate event d = record d {
  template_annotations = insert "reloader.external-secrets.io/trigger-source" event.trigger_source (
      insert "reloader.external-secrets.io/last-reloaded" event.rotation_timestamp
        d.template_annotations);
}

unfoldable pub replicas_ready : Deployment → Bool
replicas_ready d = elim d.replicas [
  | none ↦ false
  | some n ↦ eqb d.updated_replicas n && (eqb d.available_replicas n && eqb d.ready_replicas n)
]

abbrev pub is_available : DeploymentCondition → Bool
is_available c =
    c.type == "Progressing" && (c.status == "True" && c.reason == "NewReplicaSetAvailable")

-- `isDeploymentRolloutComplete`
unfoldable pub is_deployment_rollout_complete : Deployment → Bool
unfolding replicas_ready
is_deployment_rollout_complete d =
    if not (eqb d.generation d.observed_generation)
    then false
    else if d.paused
    then false
    else any (λ (c : DeploymentCondition). is_available c && replicas_ready d) d.conditions

-- The ticks of 100 ms in the ten minutes of the timeout.
abbrev pub max_ticks : ℕ
max_ticks = 6000

module _ {W : Type 0} (cluster : Cluster W) where
  -- `client.Update`
  abbrev update : Object → W → Result HandlerError (Unit {0}) × W
  update obj w =
      let (r, w') = cluster.update obj w in
      (elim r [ ok _ ↦ ok tt | err e ↦ err (update_failed e) ], w')

  -- The loop of `Filter`: a Deployment that fails to be matched is skipped.
  unfoldable pub filter_items : W → DestinationToWatch → List Deployment → List Object
  filter_items w dest [] = []
  filter_items w dest (d ∷ ds) =
      let rest = filter_items w dest ds in
      elim (is_deployment_watched cluster w d dest) [
        | err _ ↦ rest
        | ok watched ↦ if watched then deployment d ∷ rest else rest
      ]

  -- `cache` is the destination that the handler was made for.
  unfoldable pub filter :
      DestinationToWatch
      → DestinationToWatch
      → SecretRotationEvent
      → W
      → Result HandlerError (List Object)
  filter cache dest event w =
      if is_some dest.deployment
      then elim (cluster.list_deployments w
          (if event.namespace == "" then none else some event.namespace)) [
            | err e ↦ err (list_failed e)
            | ok items ↦ ok (filter_items w cache items)
          ]
      else err wrong_destination

  -- `_apply`
  unfoldable pub apply : Object → SecretRotationEvent → W → Result HandlerError (Unit {0}) × W
  apply (deployment d) event w = update (deployment (annotate event d)) w
  apply _ event w = (err wrong_object, w)

  -- The loop of `_waitFor`, over the ticks that are left before the timeout.
  unfoldable pub wait_loop : ℕ → Deployment → W → Result HandlerError (Unit {0}) × W
  wait_loop zero d w = (err rollout_timeout, w)
  wait_loop (suc n) d w =
      let step = cluster.tick d.meta.namespace d.meta.name w in
      let again = wait_loop n d step.1 in
      elim step.0 [
        | timeout ↦ (err rollout_timeout, step.1)
        | read r ↦ elim r [
          | err e ↦ (err (get_failed e), step.1)
          | ok current ↦ if is_deployment_rollout_complete current then (ok tt, step.1) else again
        ]
      ]

  -- `_waitFor`
  unfoldable pub wait_for : Object → W → Result HandlerError (Unit {0}) × W
  wait_for (deployment d) w = wait_loop max_ticks d w
  wait_for _ w = (err wrong_object, w)

  -- `NewHandler`
  abbrev pub new_handler : Provider W
  new_handler cache = record {
    filter = filter cache;
    references = references;
    apply = apply;
    wait_for = wait_for;
  }
