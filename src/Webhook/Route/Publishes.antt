-- ===== src/Webhook/Route/Publishes.antt =====
-- What a request to a webhook route publishes, and what becomes of a request that fails.
use Prim.Native.String.{len}
use reloader.Prelude.{
  ℕ, suc, ◌≤◌, String, true, false, Option, none, some, ok, ◌≡◌, refl, ◌↔◌, inl, inr, arith,
  Option-cases, Result-cases,
}
use reloader.Events.{SecretRotationEvent}
use reloader.Api.{WebhookConfig, ℤ}
use reloader.Chan.{sent, select_send, is_done, done_of_cancelled, select_send-cases}
use reloader.Secrets.{GetSecret}
use reloader.Webhook.Auth.{Verdict, granted, denied, panicked, authenticate}
use reloader.Webhook.Retry.{RetryMessage, Round, stop, retry_message}
use reloader.Webhook.Retry.Bounded.{round_stops}
use reloader.Webhook.Route.{
  max_webhook_body_bytes, Route, Request, max_bytes_error, read_error, parse_payload_to_string,
  get_identifier_path, Moment, response, process_event, event_of, enqueue_retry, process_payload,
  after_auth, handle,
}

module _ (client : GetSecret) (base64_decode : String → Option String)
    (gjson_get : String → String → Option String) where
  -- A request that is accepted, with the event that it stands for.
  pub record Accepted (r : Route) (m : Moment) (req : Request) (event : SecretRotationEvent)
      : Type 0 where
    pub authentic : authenticate client base64_decode r.config req.authorization ≡ granted
    pub fits : len req.body ≤ max_webhook_body_bytes
    pub whole : req.body_fails ≡ false
    pub identifier : String
    pub found : gjson_get req.body (get_identifier_path r.config) ≡ some identifier
    pub sends : select_send m.publish ≡ sent
    pub event_is : event ≡ event_of identifier m.timestamp

  payload-ok :
      (req : Request) (payload : String)
      → parse_payload_to_string req max_webhook_body_bytes ≡ ok payload
      → (len req.body ≤ max_webhook_body_bytes) × (req.body_fails ≡ false) × (req.body ≡ payload)
  unfolding parse_payload_to_string
  payload-ok req payload e = ground arith

  ok-payload :
      (req : Request)
      → len req.body ≤ max_webhook_body_bytes
      → req.body_fails ≡ false
      → parse_payload_to_string req max_webhook_body_bytes ≡ ok req.body
  unfolding parse_payload_to_string
  ok-payload req h e = ground arith

  published_of_payload :
      (config : Option WebhookConfig) (m : Moment) (payload : String) (status : ℕ)
      (event : SecretRotationEvent) (queued : Option RetryMessage)
      → process_payload client base64_decode gjson_get config m payload
        ≡ response status (some event) queued
      → (identifier : String) × (gjson_get payload (get_identifier_path config) ≡ some identifier)
        × (select_send m.publish ≡ sent)
        × (event ≡ event_of identifier m.timestamp)
        × (status ≡ 204)
        × (queued ≡ none)
  unfolding process_payload process_event
  published_of_payload config m payload status event queued e =
      elim (Option-cases (gjson_get payload (get_identifier_path config))) [
        | inl missing ↦ absurd (ground arith)
        | inr (identifier, found) ↦ elim (select_send-cases m.publish) [
          | inl s ↦ (identifier, found, s, ground arith, ground arith, ground arith)
          | inr s ↦ absurd (ground arith)
        ]
      ]

  published_of_verdict :
      (r : Route) (m : Moment) (req : Request) (v : Verdict) (status : ℕ)
      (event : SecretRotationEvent) (queued : Option RetryMessage)
      → authenticate client base64_decode r.config req.authorization ≡ v
      → after_auth client base64_decode gjson_get r m req v ≡ response status (some event) queued
      → Accepted r m req event × (status ≡ 204) × (queued ≡ none)
  unfolding after_auth
  published_of_verdict r m req panicked status event queued v e = cc
  published_of_verdict r m req (denied x) status event queued v e = absurd (ground arith)
  published_of_verdict r m req granted status event queued v e =
      elim (Result-cases (parse_payload_to_string req max_webhook_body_bytes)) [
        | inr (max_bytes_error, p) ↦ absurd (ground arith)
        | inr (read_error, p) ↦ absurd (ground arith)
        | inl (payload, p) ↦
            let (fits, whole, same) = payload-ok req payload p in
            let (identifier, found, sends, is, code, unqueued) =
              published_of_payload r.config m payload status event queued
                (rw (p, after_auth) at e) in
            (
              record {
                authentic = v;
                fits = fits;
                whole = whole;
                identifier = identifier;
                found = rw same found;
                sends = sends;
                event_is = is;
              },
              code,
              unqueued,
            )
      ]

  published_of_handle :
      (r : Route) (m : Moment) (req : Request) (status : ℕ) (event : SecretRotationEvent)
      (queued : Option RetryMessage)
      → handle client base64_decode gjson_get r m req ≡ response status (some event) queued
      → Accepted r m req event × (status ≡ 204) × (queued ≡ none)
  unfolding handle
  published_of_handle r m req status event queued e =
      published_of_verdict r m req _ status event queued refl e

  handled_of_Accepted :
      (r : Route) (m : Moment) (req : Request) (event : SecretRotationEvent)
      → Accepted r m req event
      → handle client base64_decode gjson_get r m req ≡ response 204 (some event) none
  unfolding handle after_auth process_payload process_event
  handled_of_Accepted r m req event a = ground (arith, ok-payload req a.fits a.whole)

  queued_of_payload :
      (config : Option WebhookConfig) (m : Moment) (payload : String) (status : ℕ)
      (event : Option SecretRotationEvent) (msg : RetryMessage)
      → process_payload client base64_decode gjson_get config m payload
        ≡ response status event (some msg)
      → (is_done m.publish ≡ true) × (status ≡ 500) × (event ≡ none) × (msg.current_run ≡ 1)
  unfolding process_payload process_event enqueue_retry
  queued_of_payload config m payload status event msg e =
      ground (arith, done_of_cancelled m.publish)

  queued_of_verdict :
      (r : Route) (m : Moment) (req : Request) (v : Verdict) (status : ℕ)
      (event : Option SecretRotationEvent) (msg : RetryMessage)
      → after_auth client base64_decode gjson_get r m req v ≡ response status event (some msg)
      → (is_done m.publish ≡ true) × (status ≡ 500) × (event ≡ none) × (msg.current_run ≡ 1)
  unfolding after_auth
  queued_of_verdict r m req panicked status event msg e = absurd (cc)
  queued_of_verdict r m req (denied x) status event msg e = absurd (ground arith)
  queued_of_verdict r m req granted status event msg e =
      elim (Result-cases (parse_payload_to_string req max_webhook_body_bytes)) [
        | inr (max_bytes_error, p) ↦ absurd (ground arith)
        | inr (read_error, p) ↦ absurd (ground arith)
        | inl (payload, p) ↦
            queued_of_payload r.config m payload status event msg (rw (p, after_auth) at e)
      ]

  queued_of_handle :
      (r : Route) (m : Moment) (req : Request) (status : ℕ) (event : Option SecretRotationEvent)
      (msg : RetryMessage)
      → handle client base64_decode gjson_get r m req ≡ response status event (some msg)
      → (is_done m.publish ≡ true) × (status ≡ 500) × (event ≡ none) × (msg.current_run ≡ 1)
  unfolding handle
  queued_of_handle r m req status event msg e = queued_of_verdict r m req _ status event msg e

  -- A request publishes an event exactly if it passes authentication, its whole body arrives and is
  -- at most 1 MiB, the payload has the identifier at the configured path, and the channel takes the
  -- event before the context ends; the response then has status 204 and nothing is queued.
  pub handle-publishes_iff :
      (r : Route) (m : Moment) (req : Request) (status : ℕ) (event : SecretRotationEvent)
      (queued : Option RetryMessage)
      → (handle client base64_decode gjson_get r m req ≡ response status (some event) queued)
        ↔ (Accepted r m req event × (status ≡ 204) × (queued ≡ none))
  handle-publishes_iff r m req status event queued = (
    published_of_handle r m req status event queued,
    λ (a, code, unqueued). rw (code, unqueued) (handled_of_Accepted r m req event a),
  )

  -- A message that a request queues for a retry is never delivered: if the route's context, once
  -- done, is done at the head of the message's first round, then the worker stops there and
  -- publishes nothing. The request itself publishes nothing either, and answers 500.
  pub retry_futile :
      (r : Route) (m : Moment) (req : Request) (status : ℕ) (event : Option SecretRotationEvent)
      (msg : RetryMessage) (fuel : ℕ) (algorithm : String) (max : ℤ) (env : ℕ → Round)
      → handle client base64_decode gjson_get r m req ≡ response status event (some msg)
      → (is_done m.publish ≡ true → (env 1).done_at_head ≡ true)
      → (retry_message (suc fuel) algorithm max env msg ≡ some stop)
        × (event ≡ none)
        × (status ≡ 500)
  retry_futile r m req status event msg fuel algorithm max env e stays =
      let (over, code, silent, first) = queued_of_handle r m req status event msg e in
      (round_stops fuel algorithm max env msg (rw first (rw (stays over))), silent, code)
