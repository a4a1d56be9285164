-- ===== src/Listener/Polling/Batches.antt =====
-- Batches of an SQS queue that are processed one message at a time.
use reloader.Prelude.{
  String, ◌≡◌, refl, ap, ◌∙◌, inl, inr, Option, List, [], ◌∷◌, ◌++◌, map, Result, ok, err,
  Result-cases,
}
use reloader.Events.{SecretRotationEvent}
use reloader.Chan.{Ready}
use reloader.Listener.Sqs.{SecretMessage, process_message, process_batch}
use reloader.Listener.Polling.{publish}

abbrev pub first_of : List (Option String × Ready) → List (Option String)
first_of xs = map (λ x. x.0) xs

pub first_of-append :
    (xs ys : List (Option String × Ready)) → first_of (xs ++ ys) ≡ first_of xs ++ first_of ys
first_of-append [] ys = refl
first_of-append (x ∷ xs) ys = ap (λ l. x.0 ∷ l) (first_of-append xs ys)

publish-cons :
    {E : Type 0} (r : Result E SecretRotationEvent) (event : SecretRotationEvent)
    (events : List SecretRotationEvent)
    → event ∷ publish r events ≡ publish r (event ∷ events)
publish-cons (ok _) event events = refl
publish-cons (err _) event events = refl

pub process_batch-append :
    (unmarshal : String → Option SecretMessage) (xs : List (Option String × Ready))
    (message : Option String) (ready : Ready)
    → process_batch unmarshal (xs ++ (message, ready) ∷ [])
      ≡ publish (process_message unmarshal message ready) (process_batch unmarshal xs)
unfolding process_batch
process_batch-append unmarshal [] message ready =
    elim (Result-cases (process_message unmarshal message ready)) [
      | inl (event, e) ↦ rw (e, process_batch) refl
      | inr (bad, e) ↦ rw (e, process_batch) refl
    ]
process_batch-append unmarshal ((first, met) ∷ xs) message ready =
    let rest = process_batch-append unmarshal xs message ready in
    elim (Result-cases (process_message unmarshal first met)) [
      | inl (event, e) ↦
          rw (e, process_batch)
            (ap (λ l. event ∷ l) rest
              ∙ publish-cons (process_message unmarshal message ready) event
                  (process_batch unmarshal xs))
      | inr (bad, e) ↦ rw (e, process_batch) rest
    ]
