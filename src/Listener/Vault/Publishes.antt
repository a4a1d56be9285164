-- ===== src/Listener/Vault/Publishes.antt =====
-- When an audit log is published, and when it panics.
use Prim.Native.String.{◌++◌}
use reloader.Prelude.{
  String, true, eq_iff, ◌≡◌, ◌≢◌, refl, ap, ◌∙◌, Option, some, split_second, trim_prefix-append,
  Occurs, split_second-append, split_second_absent,
}
use reloader.Chan.{Ready, select_send, sent}
use reloader.Listener.Vault.{
  AuthRequest, AuthResponse, AuditLog, valid_message, published, panicked, event_of, by_operation,
  of_log, process_fn,
}

-- A response of a key-value mount, with the request that it answers.
pub record IsKv (msg : AuditLog) (request : AuthRequest) (response : AuthResponse) : Type 0 where
  pub type : msg.auth_type ≡ "response"
  pub requested : msg.auth_request ≡ some request
  pub answered : msg.auth_response ≡ some response
  pub mount : response.mount_type ≡ "kv"

IsKv-valid :
    (msg : AuditLog) (request : AuthRequest) (response : AuthResponse)
    → IsKv msg request response
    → valid_message msg ≡ true
unfolding valid_message
IsKv-valid msg request response kv =
    rw
      (
        kv.answered,
        (eq_iff msg.auth_type "response").1 kv.type,
        (eq_iff response.mount_type "kv").1 kv.mount,
        valid_message,
      )
      refl

module _ (unmarshal : String → Option AuditLog) where
  -- An update of a secret of a key-value mount, as an audit log reports it, publishes exactly one
  -- event if the channel takes it: the event names the secret by its path below the mount point,
  -- without the `data/` of the second version of the engine. That the mount point is not empty, and
  -- does not occur again in the rest of the path, are hypotheses.
  pub process_fn-update :
      (message timestamp secret : String) (ready : Ready) (msg : AuditLog) (request : AuthRequest)
      (response : AuthResponse)
      → unmarshal message ≡ some msg
      → IsKv msg request response
      → request.operation ≡ "update"
      → request.path ≡ response.mount_point ++ ("data/" ++ secret)
      → response.mount_point ≢ ""
      → ¬ Occurs response.mount_point ("data/" ++ secret)
      → select_send ready ≡ sent
      → process_fn unmarshal timestamp ready message ≡ published (event_of secret timestamp)
  unfolding process_fn
  process_fn-update message timestamp secret ready msg request response parsed kv update path full
        absent room =
      let part : split_second request.path response.mount_point ≡ some ("data/" ++ secret) =
        ap (λ p. split_second p response.mount_point) path
        ∙ split_second-append response.mount_point ("data/" ++ secret) full absent in
      rw
        (
          parsed,
          IsKv-valid msg request response kv,
          kv.requested,
          kv.answered,
          part,
          update,
          room,
          of_log,
          by_operation,
          process_fn,
        )
        (ap (λ p. published (event_of p timestamp)) (trim_prefix-append "data/" secret))

  -- A response of a key-value mount whose path does not hold its mount point panics, whatever its
  -- operation; the mount point is not empty.
  pub process_fn-panics :
      (message timestamp : String) (ready : Ready) (msg : AuditLog) (request : AuthRequest)
      (response : AuthResponse)
      → unmarshal message ≡ some msg
      → IsKv msg request response
      → response.mount_point ≢ ""
      → ¬ Occurs response.mount_point request.path
      → process_fn unmarshal timestamp ready message ≡ panicked
  unfolding process_fn
  process_fn-panics message timestamp ready msg request response parsed kv full absent =
      rw
        (
          parsed,
          IsKv-valid msg request response kv,
          kv.requested,
          kv.answered,
          split_second_absent response.mount_point request.path full absent,
          of_log,
          process_fn,
        )
        refl
