-- ===== src/Listener/KubeConfig/Certificates.antt =====
-- The certificate of a bundle, and the token of a service account.
use reloader.Prelude.{
  String, ◌==◌, eq_iff, ◌≡◌, ◌≢◌, refl, sym, subst, ◌∙◌, inl, inr, Option, none, some, ok, err,
  bind-ok, bind_of, ok-injective, Bool-cases, Option-cases, Result-cases,
}
use reloader.Api.{ServiceAccountSelector}
use reloader.Secrets.{GetSecret}
use reloader.Listener.KubeConfig.{
  ClientSet, KubeError, Kube, unless, parsed_block, parse_certificate_bytes, base64decode,
  fetch_ca_cert_from_source,
}

module _ (kube : Kube) (client : GetSecret) where
  -- A text whose first PEM block is a certificate.
  abbrev pub IsPem : String → Type 0
  IsPem text =
      (block : String) × ((kube.pem_decode text ≡ some block)
        × (kube.parse_certificate_fails block ≡ none))

  -- What a bundle gives: nothing if it is empty, itself if it is PEM, else what it is the base64 of.
  pub data Certificate (bundle : String) : Option String → Type 0 where
    empty : bundle ≡ "" → Certificate bundle none
    plain : bundle ≢ "" → IsPem bundle → Certificate bundle (some bundle)
    encoded :
        (text : String)
        → bundle ≢ ""
        → ¬ IsPem bundle
        → kube.base64_decode bundle ≡ some text
        → IsPem text
        → Certificate bundle (some text)

  block-ok :
      (text : String) (o : Option String) {c : String}
      → kube.pem_decode text ≡ o
      → parsed_block kube client text o ≡ ok c
      → IsPem text × (text ≡ c)
  block-ok text none is e = absurd (cc e)
  block-ok text (some block) is e = elim (Option-cases (kube.parse_certificate_fails block)) [
    | inl good ↦ ((block, (is, good)), ok-injective (rw (good, unless) at e))
    | inr (x, bad) ↦ absurd (cc (rw (bad, unless) at e))
  ]

  parse-ok :
      (text : String) {c : String}
      → parse_certificate_bytes kube client text ≡ ok c
      → IsPem text × (text ≡ c)
  unfolding parse_certificate_bytes
  parse-ok text e = block-ok text (kube.pem_decode text) refl e

  parse-eq : (text : String) → IsPem text → parse_certificate_bytes kube client text ≡ ok text
  unfolding parse_certificate_bytes
  parse-eq text (block, (is, good)) = rw (is, parsed_block, good, unless) refl

  parse-not :
      (text : String) {x : KubeError}
      → parse_certificate_bytes kube client text ≡ err x
      → ¬ IsPem text
  parse-not text e p = absurd (cc (sym (parse-eq text p) ∙ e))

  decoded-Certificate :
      (bundle : String) {c : String}
      → bundle ≢ ""
      → base64decode kube client bundle ≡ ok c
      → Certificate bundle (some c)
  unfolding base64decode
  decoded-Certificate bundle ne e =
      elim (Result-cases (parse_certificate_bytes kube client bundle)) [
        | inl (c', p) ↦
            let (pem, same) = parse-ok bundle p in
            subst (λ x. Certificate bundle (some x))
              (same ∙ ok-injective (rw (p, base64decode) at e)) (plain ne pem)
        | inr (x, p) ↦ elim (Option-cases (kube.base64_decode bundle)) [
          | inl bad ↦ absurd (cc (rw (p, bad, base64decode) at e))
          | inr (text, good) ↦
              let (pem, same) = parse-ok text (rw (p, good, base64decode) at e) in
              subst (λ x. Certificate bundle (some x)) same
                (encoded text ne (parse-not bundle p) good pem)
        ]
      ]

  pub ca_cert-Certificate :
      (bundle : String) {ca : Option String}
      → fetch_ca_cert_from_source kube client bundle ≡ ok ca
      → Certificate bundle ca
  unfolding fetch_ca_cert_from_source
  ca_cert-Certificate bundle e = elim (Bool-cases (bundle == "")) [
    | inl none_there ↦
        subst (Certificate bundle) (ok-injective (rw (none_there, fetch_ca_cert_from_source) at e))
          (empty ((eq_iff bundle "").0 none_there))
    | inr other ↦
        let (pem, (found, e1)) =
          bind-ok (base64decode kube client bundle) _
            (rw (other, fetch_ca_cert_from_source) at e) in
        subst (Certificate bundle) (ok-injective e1) (
          decoded-Certificate bundle (λ is. absurd (cc (sym ((eq_iff bundle "").1 is) ∙ other)))
            found)
  ]

  decoded-eq :
      (bundle : String) {c : String}
      → Certificate bundle (some c)
      → base64decode kube client bundle ≡ ok c
  unfolding base64decode
  decoded-eq bundle (plain ne pem) = rw (parse-eq bundle pem, base64decode) refl
  decoded-eq bundle (encoded text ne no_pem good pem) =
      elim (Result-cases (parse_certificate_bytes kube client bundle)) [
        | inl (c', p) ↦ absurd (no_pem (parse-ok bundle p).0)
        | inr (x, p) ↦ rw (p, good, base64decode) (parse-eq text pem)
      ]

  not_empty : (bundle : String) {c : String} → Certificate bundle (some c) → bundle ≢ ""
  not_empty bundle (plain ne _) = ne
  not_empty bundle (encoded _ ne _ _ _) = ne

  present-eq :
      (bundle : String) {c : String}
      → Certificate bundle (some c)
      → fetch_ca_cert_from_source kube client bundle ≡ ok (some c)
  unfolding fetch_ca_cert_from_source
  present-eq bundle d = elim (Bool-cases (bundle == "")) [
    | inl is ↦ absurd (not_empty bundle d ((eq_iff bundle "").0 is))
    | inr other ↦ rw (other, fetch_ca_cert_from_source) (bind_of _ (decoded-eq bundle d) refl)
  ]

  pub ca_cert-eq :
      (bundle : String) {ca : Option String}
      → Certificate bundle ca
      → fetch_ca_cert_from_source kube client bundle ≡ ok ca
  unfolding fetch_ca_cert_from_source
  ca_cert-eq bundle (empty is) = rw ((eq_iff bundle "").1 is, fetch_ca_cert_from_source) refl
  ca_cert-eq bundle (plain ne pem) = present-eq bundle (plain ne pem)
  ca_cert-eq bundle (encoded text ne no_pem good pem) =
      present-eq bundle (encoded text ne no_pem good pem)

  -- A client set that is there has created the token, for an hour.
  abbrev pub Creates : Option ClientSet → ServiceAccountSelector → String → Type 0
  Creates set sa token =
      (create_token : ClientSet) × ((set ≡ some create_token)
        × (create_token (record {
          name = sa.name;
          namespace = sa.namespace;
          audiences = sa.audiences;
          expiration_seconds = 3600;
        })
            ≡ ok token))
