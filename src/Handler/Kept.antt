-- ===== src/Handler/Kept.antt =====
-- Which of the listed objects of a destination an event updates, for any kind of object: what the
-- `Filter`s of internal/handler and the loop of `HandleEvent` have in common.
use mathlib.Core.List.{append-nil}
use reloader.Prelude.{
  Bool, true, false, ◌≡◌, ◌≢◌, ◌↔◌, inl, inr, sym, ap, ◌∙◌, subst, List, [], ◌∷◌, ◌++◌, Result, ok,
  err, if◌then◌else◌, Result-cases, ok-injective, All,
}
use reloader.Events.{SecretRotationEvent}
use reloader.Api.{DestinationToWatch}
use reloader.Handler.Objects.{Object}
use reloader.Handler.Schema.{Handler}
use reloader.Handler.Processor.{Run, handle_objects, handle_destination}
use reloader.Handler.Processor.Complete.{attempted, targets, keep_if, handle_objects-attempts}

not_ok : {E : Type 0} {b : Result E Bool} → b ≡ ok false → b ≢ ok true
not_ok e h = absurd (cc (ok-injective (sym e ∙ h)))

module _ {A : Type 0} (wrap : A → Object) where
  -- The objects are the listed ones with a property, in order.
  pub data Kept (P : A → Type 0) : List A → List Object → Type 0 where
    nil : Kept P [] []
    keep :
        (a : A) {items : List A} {os : List Object}
        → P a
        → Kept P items os
        → Kept P (a ∷ items) (wrap a ∷ os)
    drop :
        (a : A) {items : List A} {os : List Object}
        → ¬ P a
        → Kept P items os
        → Kept P (a ∷ items) os

  -- The loop of a `Filter`.
  abbrev pub keep_watched : {E : Type 0} → (A → Result E Bool) → List A → List Object
  keep_watched test [] = []
  keep_watched test (a ∷ items) =
      let rest = keep_watched test items in
      elim (test a) [ err _ ↦ rest | ok watched ↦ if watched then wrap a ∷ rest else rest ]

  module _ {W E : Type 0} (h : Handler W) (event : SecretRotationEvent) (test : A → Result E Bool)
      (P : A → Type 0) where
    -- An object is watched and refers to the event's secret exactly if it has the property.
    abbrev pub Decides : A → Type 0
    Decides a =
        ((test a ≡ ok true) × (h.references (wrap a) event.secret_identifier ≡ ok true)) ↔ P a

    Kept-targets :
        (items : List A)
        → All Decides items
        → Kept P items (targets h event.secret_identifier (keep_watched test items))
    Kept-targets [] ds = nil
    Kept-targets (a ∷ items) (d, ds) = elim (Result-cases (test a)) [
      | inr (e, failed) ↦
          rw (failed, keep_watched)
            (drop a (λ p. absurd (cc (sym failed ∙ (d.1 p).0))) (Kept-targets items ds))
      | inl (false, no_match) ↦
          rw (no_match, keep_watched)
            (drop a (λ p. not_ok no_match (d.1 p).0) (Kept-targets items ds))
      | inl (true, match_) ↦ elim (Result-cases (h.references (wrap a) event.secret_identifier)) [
        | inl (true, refers) ↦
            rw (match_, keep_watched, refers, keep_if)
              (keep a (d.0 (match_, refers)) (Kept-targets items ds))
        | inl (false, other) ↦
            rw (match_, keep_watched, other, keep_if)
              (drop a (λ p. not_ok other (d.1 p).1) (Kept-targets items ds))
        | inr (e, failed) ↦
            rw (match_, keep_watched, failed, keep_if)
              (drop a (λ p. absurd (cc (sym failed ∙ (d.1 p).1))) (Kept-targets items ds))
      ]
    ]

    -- A run of a destination that succeeds has tried updates on the objects with the property.
    pub Kept-run :
        (dest : DestinationToWatch) (w : W) (items : List A)
        → handle_destination h event dest w ≡ handle_objects h event (keep_watched test items) w
        → All Decides items
        → (handle_destination h event dest w).result ≡ ok tt
        → Kept P items (attempted (handle_destination h event dest w).actions)
    Kept-run dest w items run decides fine =
        let objs = keep_watched test items in
        let (left, parts, rest) = handle_objects-attempts h event objs w in
        elim rest [
          | inr bad ↦ absurd (bad (sym (ap (λ (r : Run W). r.result) run) ∙ fine))
          | inl none_left ↦
              subst (Kept P items)
                (sym parts
                  ∙ ap (λ l. attempted (handle_objects h event objs w).actions ++ l) none_left
                  ∙ append-nil (attempted (handle_objects h event objs w).actions)
                  ∙ ap (λ (r : Run W). attempted r.actions) (sym run))
                (Kept-targets items decides)
        ]
