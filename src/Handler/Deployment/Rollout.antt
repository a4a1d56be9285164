-- ===== src/Handler/Deployment/Rollout.antt =====
-- When the rollout of a Deployment is complete, and how waiting for it ends.
use reloader.Prelude.{
  ℕ, zero, suc, Bool, true, false, ◌&&◌, ◌≡◌, ◌↔◌, ◌⊎◌, inl, inr, refl, sym, ap, subst, ◌∙◌, arith,
  eqb, eqb_iff, eq_iff, some, List, [], ◌∷◌, Any, any, Result, ok, err, Bool-cases, Option-cases,
}
use reloader.Secrets.{ClientError}
use reloader.Handler.Objects.{
  DeploymentCondition, Deployment, deployment, Cluster, Tick, timeout, read,
}
use reloader.Handler.Schema.{HandlerError}
use reloader.Handler.Deployment.{
  is_available, replicas_ready, is_deployment_rollout_complete, max_ticks, wait_loop, wait_for,
}

-- A condition that says that the new replica set is available.
abbrev pub IsAvailable : DeploymentCondition → Type 0
IsAvailable c =
    (c.type ≡ "Progressing") × ((c.status ≡ "True") × (c.reason ≡ "NewReplicaSetAvailable"))

abbrev AreReady : Deployment → ℕ → Type 0
AreReady d n = (d.updated_replicas ≡ n) × ((d.available_replicas ≡ n) × (d.ready_replicas ≡ n))

-- A rollout that is complete, without the program's tests.
pub record IsComplete (d : Deployment) : Type 0 where
  pub observed : d.generation ≡ d.observed_generation
  pub runs : d.paused ≡ false
  pub available : Any IsAvailable d.conditions
  pub wanted : ℕ
  pub replicas : d.replicas ≡ some wanted
  pub ready : AreReady d wanted

is_available_iff : (c : DeploymentCondition) → (is_available c ≡ true) ↔ IsAvailable c
is_available_iff c = (
  (λ h. ground (
    arith,
    eq_iff c.type "Progressing",
    eq_iff c.status "True",
    eq_iff c.reason "NewReplicaSetAvailable",
  )),
  (λ h. ground (
    arith,
    eq_iff c.type "Progressing",
    eq_iff c.status "True",
    eq_iff c.reason "NewReplicaSetAvailable",
  )),
)

both : {a b : Bool} → (a && b) ≡ true → (a ≡ true) × (b ≡ true)
both {a = true} e = (refl, e)
both {a = false} e = absurd (cc e)

are_ready :
    (d : Deployment) (n : ℕ)
    → (eqb d.updated_replicas n && (eqb d.available_replicas n && eqb d.ready_replicas n) ≡ true)
      ↔ AreReady d n
are_ready d n = ((λ h. ground arith), (λ h. ground arith))

to_ready : (d : Deployment) (n : ℕ) → d.replicas ≡ some n → replicas_ready d ≡ true → AreReady d n
unfolding replicas_ready
to_ready d n has e = (are_ready d n).0 (rw (has, replicas_ready) at e)

from_ready : (d : Deployment) (n : ℕ) → d.replicas ≡ some n → AreReady d n → replicas_ready d ≡ true
unfolding replicas_ready
from_ready d n has h = rw (has, replicas_ready) ((are_ready d n).1 h)

wanted_of : (d : Deployment) → replicas_ready d ≡ true → (n : ℕ) × (d.replicas ≡ some n)
unfolding replicas_ready
wanted_of d e = elim (Option-cases d.replicas) [
  | inl gone ↦ absurd (cc (rw (gone, replicas_ready) at e))
  | inr (n, has) ↦ (n, has)
]

any-IsAvailable :
    (b : Bool) (cs : List DeploymentCondition)
    → any (λ (c : DeploymentCondition). is_available c && b) cs ≡ true
    → (b ≡ true) × Any IsAvailable cs
any-IsAvailable b [] e = absurd (cc e)
any-IsAvailable b (c ∷ cs) e = elim (Bool-cases (is_available c && b)) [
  | inl here ↦ let (h, k) = both here in (k, inl ((is_available_iff c).0 h))
  | inr other ↦ let (h, k) = any-IsAvailable b cs (rw other at e) in (h, inr k)
]

available_any :
    (b : Bool) (cs : List DeploymentCondition)
    → b ≡ true
    → Any IsAvailable cs
    → any (λ (c : DeploymentCondition). is_available c && b) cs ≡ true
available_any b [] e h = absurd h
available_any b (c ∷ cs) e (inl here) = rw ((is_available_iff c).1 here, e) refl
available_any b (c ∷ cs) e (inr there) = elim (Bool-cases (is_available c && b)) [
  | inl h ↦ rw h refl
  | inr h ↦ rw h (available_any b cs e there)
]

IsComplete-of : (d : Deployment) → is_deployment_rollout_complete d ≡ true → IsComplete d
unfolding is_deployment_rollout_complete
IsComplete-of d e = elim (Bool-cases (eqb d.generation d.observed_generation)) [
  | inr other ↦ absurd (cc (rw (other, is_deployment_rollout_complete) at e))
  | inl same ↦ elim (Bool-cases d.paused) [
    | inl paused ↦ absurd (cc (rw (same, paused, is_deployment_rollout_complete) at e))
    | inr runs ↦
        let (ready, found) =
          any-IsAvailable (replicas_ready d) d.conditions
            (rw (same, runs, is_deployment_rollout_complete) at e) in
        let (n, has) = wanted_of d ready in
        record {
          observed = (eqb_iff d.generation d.observed_generation).0 same;
          runs = runs;
          available = found;
          wanted = n;
          replicas = has;
          ready = to_ready d n has ready;
        }
  ]
]

of_complete : (d : Deployment) → IsComplete d → is_deployment_rollout_complete d ≡ true
unfolding is_deployment_rollout_complete
of_complete d c =
    rw
      (
        (eqb_iff d.generation d.observed_generation).1 c.observed,
        c.runs,
        is_deployment_rollout_complete,
      )
      (available_any (replicas_ready d) d.conditions (from_ready d c.wanted c.replicas c.ready)
        c.available)

-- The test of the rollout says yes exactly if the Deployment's last generation was observed, it is
-- not paused, some condition says that the new replica set is available, and the updated, the
-- available and the ready replicas are as many as are wanted.
pub is_deployment_rollout_complete_iff :
    (d : Deployment) → (is_deployment_rollout_complete d ≡ true) ↔ IsComplete d
is_deployment_rollout_complete_iff d = (IsComplete-of d, of_complete d)

-- A run of reads of a Deployment, each one incomplete, at most `n` of them and then a complete one,
-- from the cluster's state `w` to `w'`.
pub data CompletesIn {W : Type 0} (cluster : Cluster W) (d : Deployment) : ℕ → W → W → Type 0 where
  here :
      {n : ℕ} {w w' : W} (current : Deployment)
      → cluster.tick d.meta.namespace d.meta.name w ≡ (read (ok current), w')
      → IsComplete current
      → CompletesIn cluster d (suc n) w w'
  later :
      {n : ℕ} {w w₁ w' : W} (current : Deployment)
      → cluster.tick d.meta.namespace d.meta.name w ≡ (read (ok current), w₁)
      → ¬ IsComplete current
      → CompletesIn cluster d n w₁ w'
      → CompletesIn cluster d (suc n) w w'

module _ {W : Type 0} (cluster : Cluster W) (d : Deployment) where
  abbrev look : W → Tick × W
  look w = cluster.tick d.meta.namespace d.meta.name w

  tick-cases :
      (t : Tick × W)
      → ((w₁ : W) × (t ≡ (timeout, w₁)))
        ⊎ (((e : ClientError) × ((w₁ : W) × (t ≡ (read (err e), w₁))))
            ⊎ ((c : Deployment) × ((w₁ : W) × (t ≡ (read (ok c), w₁)))))
  tick-cases (timeout, w₁) = inl (w₁, refl)
  tick-cases (read (err e), w₁) = inr (inl (e, (w₁, refl)))
  tick-cases (read (ok c), w₁) = inr (inr (c, (w₁, refl)))

  ends : Result HandlerError (Unit {0}) × W → Bool
  ends (ok _, w) = true
  ends (err _, w) = false

  wait_loop-to :
      (n : ℕ) (w w' : W) → wait_loop cluster n d w ≡ (ok tt, w') → CompletesIn cluster d n w w'
  unfolding wait_loop ends
  wait_loop-to zero w w' e = absurd (cc (ap ends e))
  wait_loop-to (suc n) w w' e = elim (tick-cases (look w)) [
    | inl (w₁, t) ↦ absurd (cc (ap ends (rw (t, wait_loop) at e)))
    | inr (inl (x, (w₁, t))) ↦ absurd (cc (ap ends (rw (t, wait_loop) at e)))
    | inr (inr (c, (w₁, t))) ↦ elim (Bool-cases (is_deployment_rollout_complete c)) [
      | inl full ↦
          here c
            (t
              ∙ ap (λ (x : W). (read (ok c), x))
                  (sym (ap (λ p. p.1) t) ∙ ap (λ p. p.1) (rw (t, full, wait_loop) at e)))
            ((is_deployment_rollout_complete_iff c).0 full)
      | inr other ↦
          later c t
            (λ done. absurd (cc (sym ((is_deployment_rollout_complete_iff c).1 done) ∙ other)))
            (wait_loop-to n w₁ w' (
              subst (λ x. wait_loop cluster n d x ≡ (ok tt, w')) (ap (λ p. p.1) t)
                (rw (t, other, wait_loop) at e)))
    ]
  ]

  wait_loop-from :
      (n : ℕ) (w w' : W) → CompletesIn cluster d n w w' → wait_loop cluster n d w ≡ (ok tt, w')
  unfolding wait_loop
  wait_loop-from zero w w' x = elim x [ ]
  wait_loop-from (suc n) w w' (here c t done) =
      rw (t, (is_deployment_rollout_complete_iff c).1 done, wait_loop)
        (ap (λ x. (ok tt, x)) (ap (λ p. p.1) t))
  wait_loop-from (suc n) w w' (later {w₁} c t undone rest) =
      elim (Bool-cases (is_deployment_rollout_complete c)) [
        | inl full ↦ absurd (undone ((is_deployment_rollout_complete_iff c).0 full))
        | inr other ↦
            rw (t, other, wait_loop)
              (subst (λ x. wait_loop cluster n d x ≡ (ok tt, w')) (sym (ap (λ p. p.1) t))
                (wait_loop-from n w₁ w' rest))
      ]

  -- Waiting for a Deployment reports success exactly if, before the timeout and within 6000 reads,
  -- a read finds it complete, and all reads before that one find it incomplete without an error.
  pub wait_for_iff :
      (w w' : W)
      → (wait_for cluster (deployment d) w ≡ (ok tt, w')) ↔ CompletesIn cluster d max_ticks w w'
  unfolding wait_for
  wait_for_iff w w' = (wait_loop-to max_ticks w w', wait_loop-from max_ticks w w')
