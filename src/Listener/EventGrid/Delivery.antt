-- ===== src/Listener/EventGrid/Delivery.antt =====
-- Which events a request publishes, and whom it calls back.
use mathlib.Core.List.{append-nil, append_assoc}
use reloader.Prelude.{
  subst, String, ◌==◌, eq_iff, ◌≡◌, inl, inr, refl, sym, ap, ◌∙◌, some, List, [], ◌∷◌, ◌++◌, any,
  Bool-cases, Option-cases,
}
use reloader.Events.{SecretRotationEvent}
use reloader.Api.{AzureEventGridConfig}
use reloader.Chan.{select_send, select_send-cases, sent}
use reloader.Listener.EventGrid.{
  Arrival, Answer, write, event_of, Json, handle_secret_event, handle_event_grid_handshake,
  handle_event, handle_events, unanswered,
}

abbrev validation : String
validation = "Microsoft.EventGrid.SubscriptionValidationEvent"

module _ (json : Json) (config : AzureEventGridConfig) (header : String) where
  -- An event of a new secret version, whose data names the secret, when the channel takes it.
  abbrev pub Announces : Arrival → String → Type 0
  Announces e name =
      (e.event.event_type ≡ "Microsoft.KeyVault.SecretNewVersionCreated")
      × ((json.name_of e.event.data_ ≡ some name) × (select_send e.ready ≡ sent))

  -- The events that are published for one event of a request.
  pub data Delivers (e : Arrival) : List SecretRotationEvent → Type 0 where
    one : (name : String) → Announces e name → Delivers e (event_of name e.event.event_time ∷ [])
    nothing : ((name : String) → ¬ Announces e name) → Delivers e []

  -- The same for all the events of a request, in order.
  pub data Delivered : List Arrival → List SecretRotationEvent → Type 0 where
    nil : Delivered [] []
    cons :
        (e : Arrival) {es : List Arrival} {xs ys : List SecretRotationEvent}
        → Delivers e xs
        → Delivered es ys
        → Delivered (e ∷ es) (xs ++ ys)

  kinds_differ :
      (e : Arrival)
      → e.event.event_type ≡ validation
      → ¬ (e.event.event_type ≡ "Microsoft.KeyVault.SecretNewVersionCreated")
  kinds_differ e h k = absurd (cc (ap (λ s. s == validation) (sym h ∙ k)))

  handshake-published :
      (e : Arrival) (a : Answer)
      → (handle_event_grid_handshake json config header e a).published ≡ a.published
  unfolding handle_event_grid_handshake write
  handshake-published e a = elim (Bool-cases (json.to_lower header == "")) [
    | inl h ↦ rw (h, handle_event_grid_handshake) refl
    | inr h ↦ elim (Bool-cases (any (λ sub. sub == json.to_lower header) config.subscriptions)) [
      | inr k ↦ rw (h, k, handle_event_grid_handshake) refl
      | inl k ↦ elim (Option-cases (json.validation_of e.event.data_)) [
        | inl v ↦ rw (h, k, v, handle_event_grid_handshake) refl
        | inr (d, v) ↦ elim (Bool-cases e.encodes) [
          | inl c ↦ rw (h, k, v, c, handle_event_grid_handshake) refl
          | inr c ↦ rw (h, k, v, c, handle_event_grid_handshake) refl
        ]
      ]
    ]
  ]

  -- What one event adds.
  abbrev Adds : Arrival → Answer → Answer → Type 0
  Adds e a b = (xs : List SecretRotationEvent) × (Delivers e xs × (b.published ≡ a.published ++ xs))

  secret-Adds :
      (e : Arrival) (a : Answer)
      → e.event.event_type ≡ "Microsoft.KeyVault.SecretNewVersionCreated"
      → Adds e a (handle_secret_event json config header e a)
  unfolding handle_secret_event write
  secret-Adds e a is = elim (Option-cases (json.name_of e.event.data_)) [
    | inl bad ↦
        rw (bad, handle_secret_event)
          ([], (nothing (λ name h. absurd (cc (sym bad ∙ h.1.0))), sym (append-nil a.published)))
    | inr (name, good) ↦ elim (select_send-cases e.ready) [
      | inl room ↦
          rw (good, room, handle_secret_event)
            (event_of name e.event.event_time ∷ [], (one name (is, (good, room)), refl))
      | inr ended ↦
          rw (good, ended, handle_secret_event)
            ([], (nothing (λ n h. absurd (cc (sym ended ∙ h.1.1))), sym (append-nil a.published)))
    ]
  ]

  event-Adds : (e : Arrival) (a : Answer) → Adds e a (handle_event json config header e a)
  unfolding handle_event
  event-Adds e a =
      let hello = e.event.event_type == "Microsoft.EventGrid.SubscriptionValidationEvent" in
      let secret = e.event.event_type == "Microsoft.KeyVault.SecretNewVersionCreated" in
      elim (Bool-cases hello) [
        | inl h ↦
            rw (h, handle_event)
              (
                [],
                (
                  nothing (λ name k.
                      absurd (kinds_differ e ((eq_iff e.event.event_type validation).0 h) k.0)),
                  handshake-published e a ∙ sym (append-nil a.published),
                ),
              )
        | inr h ↦ elim (Bool-cases secret) [
          | inl k ↦
              rw (h, k, handle_event)
                (secret-Adds e a
                  ((eq_iff e.event.event_type "Microsoft.KeyVault.SecretNewVersionCreated").0 k))
          | inr k ↦
              rw (h, k, handle_event)
                (
                  [],
                  (
                    nothing (λ name q. absurd (
                        cc (
                          sym (
                            (eq_iff e.event.event_type
                                "Microsoft.KeyVault.SecretNewVersionCreated").1
                              q.0)
                          ∙ k))),
                    sym (append-nil a.published),
                  ),
                )
        ]
      ]

  events-Delivered :
      (es : List Arrival) (a : Answer)
      → (ys : List SecretRotationEvent) × (Delivered es ys
          × ((handle_events json config header es a).published ≡ a.published ++ ys))
  unfolding handle_events
  events-Delivered [] a = ([], (nil, sym (append-nil a.published)))
  events-Delivered (e ∷ es) a =
      let (xs, (d, p)) = event-Adds e a in
      let (ys, (ds, q)) = events-Delivered es (handle_event json config header e a) in
      (xs ++ ys, (cons e d ds, q ∙ ap (λ l. l ++ ys) p ∙ append_assoc a.published xs ys))

  -- A request publishes one event for each of its events that announces a new version of a secret,
  -- names the secret and is taken by the channel, in their order, and nothing else: neither a failed
  -- event nor a handshake in the same request stops the others.
  pub handle_events-Delivered :
      (es : List Arrival) → Delivered es (handle_events json config header es unanswered).published
  handle_events-Delivered es =
      let (ys, (d, p)) = events-Delivered es unanswered in subst (Delivered es) (sym p) d
