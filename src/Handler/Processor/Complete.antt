-- ===== src/Handler/Processor/Complete.antt =====
-- Which objects of a destination an event updates.
use reloader.Prelude.{
  String, Bool, true, false, List, [], ◌∷◌, ◌++◌, Result, ok, err, ◌≡◌, refl, ap, ◌⊎◌, ◌≢◌, inl,
  inr,
}
use reloader.Events.{SecretRotationEvent}
use reloader.Handler.Objects.{Object}
use reloader.Handler.Schema.{HandlerError, Handler}
use reloader.Handler.Processor.{Action, applied, waited, Stop, Run, fail, handle_objects}
use reloader.Handler.Processor.Ordered.{taken, unknown, passed, not_updated, not_ready, updated}

-- The objects that updates were tried on, in order.
abbrev pub attempted : List Action → List Object
attempted [] = []
attempted (applied o b ∷ xs) = o ∷ attempted xs
attempted (waited o b ∷ xs) = attempted xs

abbrev pub keep_if : Result HandlerError Bool → Object → List Object → List Object
keep_if (ok true) o os = o ∷ os
keep_if (ok false) o os = os
keep_if (err _) o os = os

module _ {W : Type 0} where
  -- The objects that refer to an identifier.
  abbrev pub targets : Handler W → String → List Object → List Object
  targets h identifier [] = []
  targets h identifier (o ∷ os) = keep_if (h.references o identifier) o (targets h identifier os)

  -- The objects up to the first whose references cannot be told, and the others.
  pub record Attempts (h : Handler W) (event : SecretRotationEvent) (objs : List Object) (r : Run W)
      : Type 0 where
    pub left : List Object
    pub split : attempted r.actions ++ left ≡ targets h event.secret_identifier objs
    pub all_or_failed : (left ≡ []) ⊎ (r.result ≢ ok tt)

  Attempts-none :
      (h : Handler W) (event : SecretRotationEvent) (objs : List Object) (e : Stop) (w : W)
      → Attempts h event objs (fail e w)
  Attempts-none h event objs e w = record {
    left = targets h event.secret_identifier objs;
    split = refl;
    all_or_failed = inr (λ z. cc);
  }

  handle_objects-Attempts :
      (h : Handler W) (event : SecretRotationEvent) (objs : List Object) (w : W)
      → Attempts h event objs (handle_objects h event objs w)
  handle_objects-Attempts h event [] w =
      unfold handle_objects in record { left = []; split = refl; all_or_failed = inl refl }
  handle_objects-Attempts h event (obj ∷ objs) w = elim (taken h event obj objs w) [
    | unknown e _ q ↦ rw q (Attempts-none h event (obj ∷ objs) _ w)
    | passed p q ↦
        let a = handle_objects-Attempts h event objs w in
        rw q (record { left = a.left; split = rw p a.split; all_or_failed = a.all_or_failed })
    | not_updated p q ↦
        let a = handle_objects-Attempts h event objs (h.apply obj event w).1 in
        rw q (record {
          left = a.left;
          split = rw p (ap (λ l. obj ∷ l) a.split);
          all_or_failed = a.all_or_failed;
        })
    | not_ready e p _ q ↦ rw q (record {
      left = targets h event.secret_identifier objs;
      split = rw p refl;
      all_or_failed = inr (λ z. cc);
    })
    | updated p q ↦
        let a = handle_objects-Attempts h event objs (h.wait_for obj (h.apply obj event w).1).1 in
        rw q (record {
          left = a.left;
          split = rw p (ap (λ l. obj ∷ l) a.split);
          all_or_failed = a.all_or_failed;
        })
  ]

  -- The updates of one destination are tried on objects that refer to the event's identifier, each
  -- once, in the order in which the filter lists them, and from the first of them on; if the run
  -- succeeds, on all of them, whether or not some updates failed.
  pub handle_objects-attempts :
      (h : Handler W) (event : SecretRotationEvent) (objs : List Object) (w : W)
      → (left : List Object) × (attempted (handle_objects h event objs w).actions ++ left
          ≡ targets h event.secret_identifier objs)
        × ((left ≡ []) ⊎ ((handle_objects h event objs w).result ≢ ok tt))
  handle_objects-attempts h event objs w =
      let a = handle_objects-Attempts h event objs w in (a.left, a.split, a.all_or_failed)
