-- ===== src/Handler/Deployment/Safe.antt =====
-- The handler of Deployments does not panic.
use reloader.Prelude.{
  ℕ, zero, suc, String, ◌==◌, ◌≡◌, ◌≢◌, inl, inr, none, some, Result, ok, err, refl, sym, subst,
  if◌then◌else◌, is_some, Bool-cases, Result-cases,
}
use reloader.Events.{SecretRotationEvent}
use reloader.Api.{DestinationToWatch}
use reloader.Handler.Objects.{
  Object, Deployment, deployment, external_secret, push_secret, workflow, Cluster, Tick, timeout,
  read,
}
use reloader.Handler.Schema.{HandlerError, regexp_panic, rollout_timeout, get_failed}
use reloader.Handler.Processor.Safe.{IsSafe}
use reloader.Handler.Deployment.{
  references, filter, is_deployment_rollout_complete, max_ticks, wait_loop, wait_for, new_handler,
}

module _ {W : Type 0} (cluster : Cluster W) where
  -- What a tick of the wait comes to.
  abbrev ticked : Tick → W → Result HandlerError (Unit {0}) × W → Result HandlerError (Unit {0}) × W
  ticked timeout w again = (err rollout_timeout, w)
  ticked (read (err e)) w again = (err (get_failed e), w)
  ticked (read (ok current)) w again =
      if is_deployment_rollout_complete current then (ok tt, w) else again

  ticked-safe :
      (t : Tick) (w : W) (again : Result HandlerError (Unit {0}) × W)
      → again.0 ≢ err regexp_panic
      → (ticked t w again).0 ≢ err regexp_panic
  ticked-safe timeout w again safe = λ z. cc z
  ticked-safe (read (err e)) w again safe = λ z. cc z
  ticked-safe (read (ok current)) w again safe =
      elim (Bool-cases (is_deployment_rollout_complete current)) [
        | inl complete ↦ rw (complete, ticked) (λ z. cc z)
        | inr waits ↦ rw (waits, ticked) safe
      ]

  tick-eq :
      (n : ℕ) (d : Deployment) (w : W) (t : Tick)
      → (cluster.tick d.meta.namespace d.meta.name w).0 ≡ t
      → wait_loop cluster (suc n) d w
        ≡ ticked t
            (cluster.tick d.meta.namespace d.meta.name w).1
            (wait_loop cluster n d (cluster.tick d.meta.namespace d.meta.name w).1)
  unfolding wait_loop
  tick-eq n d w timeout e = rw (e, wait_loop) refl
  tick-eq n d w (read (err x)) e = rw (e, wait_loop) refl
  tick-eq n d w (read (ok current)) e = rw (e, wait_loop) refl

  wait_loop-safe : (n : ℕ) (d : Deployment) (w : W) → (wait_loop cluster n d w).0 ≢ err regexp_panic
  unfolding wait_loop
  wait_loop-safe zero d w = λ z. cc z
  wait_loop-safe (suc n) d w =
      let (t, w') = cluster.tick d.meta.namespace d.meta.name w in
      subst (λ (x : Result HandlerError (Unit {0}) × W). x.0 ≢ err regexp_panic)
        (sym (tick-eq n d w t refl))
        (ticked-safe t w' (wait_loop cluster n d w') (wait_loop-safe n d w'))

  filter-safe :
      (cache dest : DestinationToWatch) (event : SecretRotationEvent) (w : W)
      → filter cluster cache dest event w ≢ err regexp_panic
  unfolding filter
  filter-safe cache dest event w = elim (Bool-cases (is_some dest.deployment)) [
    | inr other ↦ rw (other, filter) (λ z. cc z)
    | inl mine ↦
        elim (Result-cases (
          cluster.list_deployments w
            (if event.namespace == "" then none else some event.namespace))) [
              | inr (x, bad) ↦ rw (mine, bad, filter) (λ z. cc z)
              | inl (items, good) ↦ rw (mine, good, filter) (λ z. cc z)
            ]
  ]

  refers-safe : (obj : Object) (identifier : String) → references obj identifier ≢ err regexp_panic
  unfolding references
  refers-safe (deployment d) identifier = λ z. cc z
  refers-safe (external_secret d) identifier = λ z. cc z
  refers-safe (push_secret d) identifier = λ z. cc z
  refers-safe (workflow d) identifier = λ z. cc z

  waits-safe : (obj : Object) (w : W) → (wait_for cluster obj w).0 ≢ err regexp_panic
  unfolding wait_for
  waits-safe (deployment d) w = wait_loop-safe max_ticks d w
  waits-safe (external_secret d) w = λ z. cc z
  waits-safe (push_secret d) w = λ z. cc z
  waits-safe (workflow d) w = λ z. cc z

  pub new_handler-IsSafe : (cache : DestinationToWatch) → IsSafe (new_handler cluster cache)
  new_handler-IsSafe cache = record {
    filters = filter-safe cache;
    refers = refers-safe;
    waits = waits-safe;
  }
