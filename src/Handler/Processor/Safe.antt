-- ===== src/Handler/Processor/Safe.antt =====
-- A handler whose methods do not panic does not make HandleEvent panic.
use reloader.Prelude.{
  String, ◌≡◌, ◌≢◌, refl, sym, subst, ap, ◌∙◌, inl, inr, some, List, [], ◌∷◌, err, Option-cases,
  Result-cases,
}
use reloader.Events.{SecretRotationEvent}
use reloader.Api.{DestinationToWatch}
use reloader.Handler.Objects.{Object}
use reloader.Handler.Schema.{
  HandlerError, wrong_destination, list_failed, wrong_object, regexp_panic, update_failed,
  get_failed, rollout_timeout, Handler, Provider, Registry, get_provider,
}
use reloader.Handler.Processor.{
  ProcessError, failed_to_filter, failed_reference, failed_to_wait, panicked, stop_by, Run, fail,
  handle_objects, handle_destination, then_by, then_run, handle_event,
}
use reloader.Handler.Processor.Ordered.{taken, unknown, passed, not_updated, not_ready, updated}

stop_by-panicked :
    (wrap : HandlerError → ProcessError) (e : HandlerError)
    → stop_by wrap e ≡ panicked
    → e ≡ regexp_panic
stop_by-panicked wrap wrong_destination h = absurd (cc h)
stop_by-panicked wrap (list_failed e) h = absurd (cc h)
stop_by-panicked wrap wrong_object h = absurd (cc h)
stop_by-panicked wrap regexp_panic h = refl
stop_by-panicked wrap (update_failed e) h = absurd (cc h)
stop_by-panicked wrap (get_failed e) h = absurd (cc h)
stop_by-panicked wrap rollout_timeout h = absurd (cc h)

module _ {W : Type 0} where
  -- The methods of a handler that HandleEvent calls and whose failure ends it do not panic.
  pub record IsSafe (h : Handler W) : Type 0 where
    pub filters :
        (dest : DestinationToWatch) (event : SecretRotationEvent) (w : W)
        → h.filter dest event w ≢ err regexp_panic
    pub refers :
        (obj : Object) (identifier : String) → h.references obj identifier ≢ err regexp_panic
    pub waits : (obj : Object) (w : W) → (h.wait_for obj w).0 ≢ err regexp_panic

  abbrev Survives : Run W → Type 0
  Survives r = r.result ≢ err panicked

  fail-Survives :
      (wrap : HandlerError → ProcessError) (e : HandlerError) (w : W)
      → e ≢ regexp_panic
      → Survives (fail (stop_by wrap e) w)
  fail-Survives wrap e w ne z = ne (stop_by-panicked wrap e (cc z))

  handle_objects-Survives :
      (h : Handler W) (event : SecretRotationEvent) (objs : List Object) (w : W)
      → IsSafe h
      → Survives (handle_objects h event objs w)
  unfolding handle_objects
  handle_objects-Survives h event [] w safe = λ z. cc z
  handle_objects-Survives h event (obj ∷ objs) w safe = elim (taken h event obj objs w) [
    | unknown e p q ↦ subst Survives (sym q) (
        fail-Survives failed_reference e w
          (λ is. safe.refers obj event.secret_identifier (p ∙ ap err is)))
    | passed p q ↦ subst Survives (sym q) (handle_objects-Survives h event objs w safe)
    | not_updated p q ↦ subst Survives (sym q) (handle_objects-Survives h event objs _ safe)
    | not_ready e p r q ↦
        subst Survives (sym q)
          (fail-Survives failed_to_wait e w (λ is. safe.waits obj _ (r ∙ ap err is)))
    | updated p q ↦ subst Survives (sym q) (handle_objects-Survives h event objs _ safe)
  ]

  handle_destination-Survives :
      (h : Handler W) (event : SecretRotationEvent) (dest : DestinationToWatch) (w : W)
      → IsSafe h
      → Survives (handle_destination h event dest w)
  unfolding handle_destination
  handle_destination-Survives h event dest w safe = elim (Result-cases (h.filter dest event w)) [
    | inr (e, p) ↦
        rw (p, handle_destination)
          (fail-Survives failed_to_filter e w (λ is. safe.filters dest event w (p ∙ ap err is)))
    | inl (objs, p) ↦ rw (p, handle_destination) (handle_objects-Survives h event objs w safe)
  ]

  then_run-Survives :
      (r : Run W) (k : W → Run W)
      → Survives r
      → ((w : W) → Survives (k w))
      → Survives (then_run r k)
  then_run-Survives r k h ih = elim (Result-cases r.result) [
    | inr (e, p) ↦ subst Survives (sym (ap (λ x. then_by x r k) p)) h
    | inl (_, p) ↦ subst Survives (sym (ap (λ x. then_by x r k) p)) (ih r.world)
  ]

  -- With handlers that do not panic HandleEvent does not panic.
  pub handle_event-Survives :
      (providers : Registry W)
      → ((name : String) (prov : Provider W) (dest : DestinationToWatch)
          → get_provider name providers ≡ some prov
          → IsSafe (prov dest))
      → (dests : List DestinationToWatch) (event : SecretRotationEvent) (w : W)
      → (handle_event providers event dests w).result ≢ err panicked
  unfolding handle_event
  handle_event-Survives providers safe [] event w = λ z. cc z
  handle_event-Survives providers safe (dest ∷ rest) event w =
      elim (Option-cases (get_provider dest.type providers)) [
        | inl p ↦ rw (p, handle_event) (handle_event-Survives providers safe rest event w)
        | inr (prov, p) ↦
            rw (p, handle_event)
              (then_run-Survives (handle_destination (prov dest) event dest w)
                (handle_event providers event rest)
                (handle_destination-Survives (prov dest) event dest w (safe dest.type prov dest p))
                (λ u. handle_event-Survives providers safe rest event u))
      ]
