-- ===== src/Listener/PubSub/Names.antt =====
-- The secret that an audit log of Google's Secret Manager names.
use Prim.Native.Char.{Char, code}
use reloader.Prelude.{
  String, false, eq_iff, ◌≡◌, refl, ap, ◌∙◌, Option, none, some, List, ◌∷◌, split, get_elem?, Lacks,
  join, split-join, All, Option-cases, inl, inr,
}
use reloader.Listener.PubSub.{
  AuditLogMessage, Outcome, ack, panicked, add_secret_version, event_of, process_message,
}

abbrev pub slash : Char
slash = "/"

-- The answer for the segment that names the secret, if the resource's name has it.
abbrev pub answer : String → Option String → Outcome
answer msg_time none = panicked
answer msg_time (some name) = ack (some (event_of name msg_time))

-- A log of a new secret version, for a resource whose name has segments between slashes: if there
-- is a fourth segment, the message is acknowledged and one event is published, for the secret that
-- this segment names; if there is none, the handler panics. The context has not ended.
pub process_message-segments :
    (unmarshal : String → Option AuditLogMessage) (msg_time data_ : String)
    (audit : AuditLogMessage) (w : String) (ws : List String)
    → unmarshal data_ ≡ some audit
    → audit.method_name ≡ add_secret_version
    → audit.resource_name ≡ join slash (w ∷ ws)
    → All (Lacks (code slash)) (w ∷ ws)
    → process_message unmarshal false msg_time data_ ≡ answer msg_time (get_elem? (w ∷ ws) 3)
unfolding process_message
process_message-segments unmarshal msg_time data_ audit w ws parsed method name_of lacks =
    let parts : get_elem? (split (code slash) audit.resource_name) 3 ≡ get_elem? (w ∷ ws) 3 =
      ap (λ n. get_elem? (split (code slash) n) 3) name_of
      ∙ ap (λ x. get_elem? x 3) (split-join slash w ws lacks) in
    elim (Option-cases (get_elem? (w ∷ ws) 3)) [
      | inl missing ↦
          rw
            (
              parsed,
              (eq_iff audit.method_name add_secret_version).1 method,
              parts ∙ missing,
              missing,
              process_message,
            )
            refl
      | inr (name, found) ↦
          rw
            (
              parsed,
              (eq_iff audit.method_name add_secret_version).1 method,
              parts ∙ found,
              found,
              process_message,
            )
            refl
    ]
