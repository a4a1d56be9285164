-- ===== src/Api/Validation/Unique.antt =====
-- A specification is accepted exactly when its webhook path suffixes are distinct.
use reloader.Prelude.{
  ℕ, suc, String, ◌≡◌, refl, ◌≢◌, ◌↔◌, none, some, List, [], ◌∷◌, ◌++◌, arith, ◌==◌, eq_iff, Map,
  string_eq, lookup, insert, lookup-insert, All, Distinct, ok, Bool-cases, Option-cases, inl, inr,
  true, false,
}
use reloader.Api.Sources.{NotificationSource}
use reloader.Api.Destinations.{ConfigSpec}
use reloader.Api.Validation.{
  Duplicate, Seen, suffix_of, validate_step, validate_from, verdict, validate, webhook_suffixes,
  webhook_notification_source_type,
}

abbrev Unseen : Map String ℕ → List String → Type 0
Unseen seen ws = All (λ w. lookup w seen ≡ none) ws

step-ne-nil :
    (i : ℕ) (s : NotificationSource) (seen : Map String ℕ) (dups : List Duplicate)
    → dups ≢ []
    → (validate_step i s (seen, dups)).1 ≢ []
unfolding validate_step
step-ne-nil i s seen [] h = absurd (h refl)
step-ne-nil i s seen (d ∷ ds) h = ground arith

validate_from-ne-nil :
    (i : ℕ) (srcs : List NotificationSource) (seen : Map String ℕ) (dups : List Duplicate)
    → dups ≢ []
    → (validate_from i srcs (seen, dups)).1 ≢ []
unfolding validate_from
validate_from-ne-nil i [] seen dups h = h
validate_from-ne-nil i (s ∷ rest) seen dups h =
    let st = validate_step i s (seen, dups) in
    validate_from-ne-nil (suc i) rest st.0 st.1 (step-ne-nil i s seen dups h)

Unseen-insert :
    (w : String) (i : ℕ) (seen : Map String ℕ) (ws : List String)
    → Unseen (insert w i seen) ws ↔ (All (λ y. w ≢ y) ws × Unseen seen ws)
Unseen-insert w i seen [] = ((λ _. (tt, tt)), (λ _. tt))
Unseen-insert w i seen (v ∷ ws) =
    let (to, from) = Unseen-insert w i seen ws in
    (
      (λ h. ground (arith, to h.1, lookup-insert w v i seen, eq_iff w v)),
      (λ h. ground (arith, from (h.0.1, h.1.1), lookup-insert w v i seen, eq_iff w v)),
    )

abbrev Accepts : Map String ℕ → List String → Type 0
Accepts seen ws = Distinct ws × Unseen seen ws

append-ne-nil : (ds : List Duplicate) (d : Duplicate) → ds ++ d ∷ [] ≢ []
append-ne-nil [] d e = cc
append-ne-nil (c ∷ ds) d e = cc

validate_from-cons :
    (i : ℕ) (s : NotificationSource) (rest : List NotificationSource) (st : Seen)
    → validate_from i (s ∷ rest) st ≡ validate_from (suc i) rest (validate_step i s st)
unfolding validate_from
validate_from-cons i s rest st = refl

module _ (i : ℕ) (s : NotificationSource) (seen : Map String ℕ) (dups : List Duplicate) where
  step_other :
      (s.type == webhook_notification_source_type) ≡ false
      → validate_step i s (seen, dups) ≡ (seen, dups)
  unfolding validate_step
  step_other e = rw e

  step_fresh :
      (s.type == webhook_notification_source_type) ≡ true
      → lookup (suffix_of s) seen ≡ none
      → validate_step i s (seen, dups) ≡ (insert (suffix_of s) i seen, dups)
  unfolding validate_step
  step_fresh e f = rw (e, f)

  step_taken :
      {first : ℕ}
      → (s.type == webhook_notification_source_type) ≡ true
      → lookup (suffix_of s) seen ≡ some first
      → (validate_step i s (seen, dups)).1 ≢ []
  unfolding validate_step
  step_taken e f = rw (e, f) (append-ne-nil dups _)

validate_from-eq-nil_iff :
    (i : ℕ) (srcs : List NotificationSource) (seen : Map String ℕ)
    → ((validate_from i srcs (seen, [])).1 ≡ []) ↔ Accepts seen (webhook_suffixes srcs)
unfolding validate_from webhook_suffixes
validate_from-eq-nil_iff i [] seen = ((λ _. (tt, tt)), (λ _. refl))
validate_from-eq-nil_iff i (s ∷ rest) seen =
    elim (Bool-cases (s.type == webhook_notification_source_type)) [
      | inr other ↦
          rw (validate_from-cons, step_other i s seen [] other, other)
            (validate_from-eq-nil_iff (suc i) rest seen)
      | inl hook ↦ elim (Option-cases (lookup (suffix_of s) seen)) [
        | inl fresh ↦
            let (to, from) = validate_from-eq-nil_iff (suc i) rest (insert (suffix_of s) i seen) in
            let (there, back) = Unseen-insert (suffix_of s) i seen (webhook_suffixes rest) in
            rw (validate_from-cons, step_fresh i s seen [] hook fresh, hook)
              (
                (λ h. let (d, u) = to h in let (a, v) = there u in ((a, d), (fresh, v))),
                (λ h. from (h.0.1, back (h.0.0, h.1.1))),
              )
        | inr (first, taken) ↦
            let st = validate_step i s (seen, []) in
            rw (validate_from-cons, hook)
              (
                (λ h. absurd (
                    validate_from-ne-nil (suc i) rest st.0 st.1 (step_taken i s seen [] hook taken)
                      h)),
                (λ h. cc (h.1.0)),
              )
      ]
    ]

verdict-eq-ok : (ds : List Duplicate) → (verdict ds ≡ ok tt) ↔ (ds ≡ [])
verdict-eq-ok [] = ((λ _. refl), (λ _. refl))
verdict-eq-ok (d ∷ ds) = ((λ e. cc), (λ e. cc))

Unseen-nil : (ws : List String) → Unseen [] ws
unfolding lookup
Unseen-nil [] = tt
Unseen-nil (w ∷ ws) = (refl, Unseen-nil ws)

-- Validation succeeds exactly when no two webhook sources have the same trimmed path suffix; a
-- source without a suffix counts as one with the empty suffix.
pub validate-eq-ok_iff :
    (s : ConfigSpec) → (validate s ≡ ok tt) ↔ Distinct (webhook_suffixes s.notification_sources)
unfolding validate
validate-eq-ok_iff s =
    let (to, from) = validate_from-eq-nil_iff 0 s.notification_sources [] in
    let (open_ok, close_ok) = verdict-eq-ok (validate_from 0 s.notification_sources ([], [])).1 in
    ((λ h. (to (open_ok h)).0), (λ d. close_ok (from (d, Unseen-nil _))))
