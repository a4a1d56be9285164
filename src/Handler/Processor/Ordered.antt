-- ===== src/Handler/Processor/Ordered.antt =====
-- The order of what an event does: one object after another, each waited for.
use reloader.Prelude.{
  true, false, List, [], ◌∷◌, ◌++◌, ok, err, ◌≡◌, refl, sym, ap, subst, ◌∙◌, ◌⊎◌, ◌≢◌, Option-cases,
  Result-cases, inl, inr,
}
use mathlib.Core.List.{append_assoc}
use reloader.Events.{SecretRotationEvent}
use reloader.Api.{DestinationToWatch}
use reloader.Handler.Objects.{Object}
use reloader.Handler.Schema.{HandlerError, Handler, Registry, get_provider}
use reloader.Handler.Processor.{
  Action, applied, waited, Stop, stop_by, failed_reference, failed_to_wait, Run, done, fail, after,
  handle_objects, handle_destination, then_by, then_run, handle_event,
}

-- Each successful update is followed at once by the wait for the same object, which succeeds.
pub data Clean : List Action → Type 0 where
  nil : Clean []
  skip : (o : Object) {xs : List Action} → Clean xs → Clean (applied o false ∷ xs)
  next : (o : Object) {xs : List Action} → Clean xs → Clean (applied o true ∷ waited o true ∷ xs)

-- The same, but the last wait may fail, and then nothing follows it.
pub data Ordered (xs : List Action) : Type 0 where
  clean : Clean xs → Ordered xs
  broken :
      (before : List Action) (o : Object)
      → Clean before
      → xs ≡ before ++ applied o true ∷ waited o false ∷ []
      → Ordered xs

Clean-append : {xs ys : List Action} → Clean xs → Clean ys → Clean (xs ++ ys)
Clean-append nil h = h
Clean-append (skip o c) h = skip o (Clean-append c h)
Clean-append (next o c) h = next o (Clean-append c h)

Ordered-append : (xs ys : List Action) → Clean xs → Ordered ys → Ordered (xs ++ ys)
Ordered-append xs ys c (clean d) = clean (Clean-append c d)
Ordered-append xs ys c (broken before o d e) =
    broken (xs ++ before) o (Clean-append c d)
      (ap (λ l. xs ++ l) e ∙ sym (append_assoc xs before _))

-- What holds of a run: its actions are in order, and clean if it succeeds.
pub record InOrder {W : Type 0} (r : Run W) : Type 0 where
  pub ordered : Ordered r.actions
  pub clean_or_failed : Clean r.actions ⊎ (r.result ≢ ok tt)

module _ {W : Type 0} where
  InOrder-done : (w : W) → InOrder (done w)
  InOrder-done w = record { ordered = clean nil; clean_or_failed = inl nil }

  InOrder-fail : (e : Stop) (w : W) → InOrder (fail e w)
  InOrder-fail e w = record { ordered = clean nil; clean_or_failed = inl nil }

  InOrder-after : (xs : List Action) (r : Run W) → Clean xs → InOrder r → InOrder (after xs r)
  InOrder-after xs r c h = record {
    ordered = Ordered-append xs r.actions c h.ordered;
    clean_or_failed = elim h.clean_or_failed [ inl d ↦ inl (Clean-append c d) | inr ne ↦ inr ne ];
  }

  InOrder-broken :
      (o : Object) (e : Stop) (w : W)
      → InOrder (after (applied o true ∷ waited o false ∷ []) (fail e w))
  InOrder-broken o e w = record { ordered = broken [] o nil refl; clean_or_failed = inr (λ z. cc) }

  -- The ways in which the loop takes an object.
  module _ (h : Handler W) (event : SecretRotationEvent) (obj : Object) (objs : List Object)
      (w : W) where
    abbrev pub w_applied : W
    w_applied = (h.apply obj event w).1

    abbrev pub w_waited : W
    w_waited = (h.wait_for obj w_applied).1

    pub data Taken : Type 0 where
      unknown :
          (e : HandlerError)
          → h.references obj event.secret_identifier ≡ err e
          → handle_objects h event (obj ∷ objs) w ≡ fail (stop_by failed_reference e) w
          → Taken
      passed :
          h.references obj event.secret_identifier ≡ ok false
          → handle_objects h event (obj ∷ objs) w ≡ handle_objects h event objs w
          → Taken
      not_updated :
          h.references obj event.secret_identifier ≡ ok true
          → handle_objects h event (obj ∷ objs) w
            ≡ after (applied obj false ∷ []) (handle_objects h event objs w_applied)
          → Taken
      not_ready :
          (e : HandlerError)
          → h.references obj event.secret_identifier ≡ ok true
          → (h.wait_for obj w_applied).0 ≡ err e
          → handle_objects h event (obj ∷ objs) w
            ≡ after
                (applied obj true ∷ waited obj false ∷ [])
                (fail (stop_by failed_to_wait e) w_waited)
          → Taken
      updated :
          h.references obj event.secret_identifier ≡ ok true
          → handle_objects h event (obj ∷ objs) w
            ≡ after (applied obj true ∷ waited obj true ∷ []) (handle_objects h event objs w_waited)
          → Taken

    pub taken : Taken
    unfolding handle_objects
    taken = elim (Result-cases (h.references obj event.secret_identifier)) [
      | inr (e, p) ↦ unknown e p (rw (p, handle_objects))
      | inl (false, p) ↦ passed p (rw (p, handle_objects))
      | inl (true, p) ↦ elim (Result-cases (h.apply obj event w).0) [
        | inr (e, q) ↦ not_updated p (rw (p, q, handle_objects))
        | inl (_, q) ↦ elim (Result-cases (h.wait_for obj w_applied).0) [
          | inr (e, r) ↦ not_ready e p r (rw (p, q, r, handle_objects))
          | inl (_, r) ↦ updated p (rw (p, q, r, handle_objects))
        ]
      ]
    ]

  handle_objects-InOrder :
      (h : Handler W) (event : SecretRotationEvent) (objs : List Object) (w : W)
      → InOrder (handle_objects h event objs w)
  handle_objects-InOrder h event [] w = unfold handle_objects in InOrder-done w
  handle_objects-InOrder h event (obj ∷ objs) w = elim (taken h event obj objs w) [
    | unknown e _ q ↦ rw q (InOrder-fail _ w)
    | passed _ q ↦ rw q (handle_objects-InOrder h event objs w)
    | not_updated _ q ↦
        rw q (InOrder-after _ _ (skip obj nil) (handle_objects-InOrder h event objs _))
    | not_ready e _ _ q ↦ rw q (InOrder-broken obj _ _)
    | updated _ q ↦ rw q (InOrder-after _ _ (next obj nil) (handle_objects-InOrder h event objs _))
  ]

  handle_destination-InOrder :
      (h : Handler W) (event : SecretRotationEvent) (dest : DestinationToWatch) (w : W)
      → InOrder (handle_destination h event dest w)
  unfolding handle_destination
  handle_destination-InOrder h event dest w = elim (Result-cases (h.filter dest event w)) [
    | inr (e, p) ↦ rw (p, handle_destination) (InOrder-fail _ w)
    | inl (objs, p) ↦ rw (p, handle_destination) (handle_objects-InOrder h event objs w)
  ]

  then_run-InOrder :
      (r : Run W) (k : W → Run W) → InOrder r → ((w : W) → InOrder (k w)) → InOrder (then_run r k)
  then_run-InOrder r k h ih = elim (Result-cases r.result) [
    | inr (e, p) ↦ subst InOrder (sym (ap (λ x. then_by x r k) p)) h
    | inl (_, p) ↦ subst InOrder (sym (ap (λ x. then_by x r k) p)) (elim h.clean_or_failed [
      | inl c ↦ InOrder-after r.actions (k r.world) c (ih r.world)
      | inr ne ↦ absurd (ne p)
    ])
  ]

  -- Whatever the providers, the destinations and the cluster, the updates of an event are made one
  -- at a time: each update that succeeds is followed at once by the wait for the same object; if
  -- that wait fails, it is the last action of the whole event; and a run that succeeds has no
  -- failing wait.
  pub handle_event-InOrder :
      (providers : Registry W) (event : SecretRotationEvent) (dests : List DestinationToWatch)
      (w : W)
      → InOrder (handle_event providers event dests w)
  unfolding handle_event
  handle_event-InOrder providers event [] w = InOrder-done w
  handle_event-InOrder providers event (dest ∷ rest) w =
      elim (Option-cases (get_provider dest.type providers)) [
        | inl p ↦ rw (p, handle_event) (handle_event-InOrder providers event rest w)
        | inr (prov, p) ↦
            rw (p, handle_event)
              (then_run-InOrder (handle_destination (prov dest) event dest w)
                (handle_event providers event rest)
                (handle_destination-InOrder (prov dest) event dest w)
                (λ u. handle_event-InOrder providers event rest u))
      ]
