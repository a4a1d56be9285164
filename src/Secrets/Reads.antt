-- ===== src/Secrets/Reads.antt =====
-- The three readers of a Secret's key give the value that the cluster holds there, or no value.
use reloader.Prelude.{
  String, ◌≡◌, refl, ◌↔◌, Option, none, some, ok, string_eq, Result-cases, inl, inr, arith,
}
use reloader.Api.{SecretKeySelector}
use reloader.Secrets.{
  GetSecret, at_key, get_secret, decode_secret, fetch_secret_key, secret_key_ref, Denotes,
}

at_key-eq-ok :
    (sel : SecretKeySelector) (o : Option String) (v : String) → at_key sel o ≡ ok v → o ≡ some v
at_key-eq-ok sel none v e = cc
at_key-eq-ok sel (some w) v e = ground arith

module _ (client : GetSecret) (sel : SecretKeySelector) where
  pub decode_secret-eq-ok : (v : String) → decode_secret client sel ≡ ok v → Denotes client sel v
  unfolding decode_secret
  decode_secret-eq-ok v e = elim (Result-cases (client sel.name sel.namespace)) [
    | inl (secret, got) ↦ record {
      secret = secret;
      read = got;
      entry = at_key-eq-ok sel _ v (rw (got, get_secret, decode_secret) at e);
    }
    | inr (x, got) ↦ absurd (cc (rw (got, get_secret, decode_secret) at e))
  ]

  pub decode_secret_of_Denotes :
      (v : String) → Denotes client sel v → decode_secret client sel ≡ ok v
  unfolding decode_secret
  decode_secret_of_Denotes v d = rw (d.read, get_secret, decode_secret) (rw d.entry)

  pub fetch_secret_key-eq : fetch_secret_key client (some sel) ≡ decode_secret client sel
  unfolding fetch_secret_key decode_secret
  fetch_secret_key-eq = refl

  pub secret_key_ref-eq : secret_key_ref client sel ≡ decode_secret client sel
  unfolding secret_key_ref decode_secret
  secret_key_ref-eq = elim (Result-cases (client sel.name sel.namespace)) [
    | inl (secret, got) ↦ rw (got, get_secret, decode_secret, secret_key_ref)
    | inr (x, got) ↦ rw (got, get_secret, decode_secret, secret_key_ref)
  ]

pub readers_agree :
    (client : GetSecret) (sel : SecretKeySelector) (v : String)
    → ((decode_secret client sel ≡ ok v) ↔ Denotes client sel v)
      × ((fetch_secret_key client (some sel) ≡ ok v) ↔ Denotes client sel v)
      × ((secret_key_ref client sel ≡ ok v) ↔ Denotes client sel v)
readers_agree client sel v =
    let to = decode_secret-eq-ok client sel v in
    let from = decode_secret_of_Denotes client sel v in
    ((to, from), rw fetch_secret_key-eq (to, from), rw secret_key_ref-eq (to, from))
