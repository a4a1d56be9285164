-- ===== src/Handler/Matching/Selectors.antt =====
-- Label selectors as the API gives them and as they are read.
use reloader.Prelude.{
  Bool, true, false, ◌||◌, Option, none, some, List, [], ◌∷◌, ok, any, All, Any, ◌≡◌, refl, sym, ap,
  ◌↔◌, ◌≢◌, inl, inr, Option-cases, Result-cases, Bool-cases, ok-injective, ◌∙◌, some-injective,
}
use reloader.Api.{LabelSelector}
use reloader.Handler.Objects.{Cluster}
use reloader.Handler.Matching.{Labels, Selector, read_selectors}

pub or_true : (a : Bool) {b : Bool} → b ≡ true → (a || b) ≡ true
or_true true h = refl
or_true false h = h

module _ {W : Type 0} (cluster : Cluster W) (w : W) where
  -- A selector of the API that is valid and matches a set of labels.
  abbrev pub Selects : LabelSelector → Labels → Type 0
  Selects s labels =
      (selector : Selector) × (cluster.as_selector s ≡ some selector) × (selector labels ≡ true)

  abbrev pub IsValidSelector : LabelSelector → Type 0
  IsValidSelector s = (selector : Selector) × (cluster.as_selector s ≡ some selector)

  abbrev pub SelectedBy : Option LabelSelector → Labels → Type 0
  SelectedBy none labels = Unit
  SelectedBy (some s) labels = Selects s labels

  -- The selectors as read, beside their texts.
  pub selectors_valid :
      (ss : List LabelSelector) (selectors : List Selector)
      → read_selectors cluster w ss ≡ ok selectors
      → All IsValidSelector ss
  unfolding read_selectors
  selectors_valid [] selectors e = tt
  selectors_valid (s ∷ ss) selectors e = elim (Option-cases (cluster.as_selector s)) [
    | inl bad ↦ absurd (cc (rw (bad, read_selectors) at e))
    | inr (selector, good) ↦ elim (Result-cases (read_selectors cluster w ss)) [
      | inr (x, bad) ↦ absurd (cc (rw (good, bad, read_selectors) at e))
      | inl (rest, fine) ↦ ((selector, good), selectors_valid ss rest fine)
    ]
  ]

  pub selectors_match :
      (ss : List LabelSelector) (selectors : List Selector) (labels : Labels)
      → read_selectors cluster w ss ≡ ok selectors
      → (any (λ (selector : Selector). selector labels) selectors ≡ true)
        ↔ Any (λ s. Selects s labels) ss
  unfolding read_selectors
  selectors_match [] selectors labels e =
      let same : [] ≡ selectors = ok-injective e in
      rw (← same) ((λ h. absurd (cc)), (λ h. absurd h))
  selectors_match (s ∷ ss) selectors labels e = elim (Option-cases (cluster.as_selector s)) [
    | inl bad ↦ absurd (cc (rw (bad, read_selectors) at e))
    | inr (selector, good) ↦ elim (Result-cases (read_selectors cluster w ss)) [
      | inr (x, bad) ↦ absurd (cc (rw (good, bad, read_selectors) at e))
      | inl (rest, fine) ↦
          let (to, from) = selectors_match ss rest labels fine in
          let same : selector ∷ rest ≡ selectors =
            ok-injective (rw (good, fine, read_selectors) at e) in
          rw (← same) (
            (λ h. elim (Bool-cases (selector labels)) [
              | inl here ↦ inl (selector, good, here)
              | inr there ↦ inr (to (rw there at h))
            ]),
            (λ h. elim h [
              | inl (sel, known, here) ↦
                  let one : sel ≡ selector = some-injective sel selector (sym known ∙ good) in
                  rw (ap (λ (f : Selector). f labels) (sym one) ∙ here) refl
              | inr later ↦ or_true (selector labels) (from later)
            ]),
          )
    ]
  ]

  pub selectors_read :
      (ss : List LabelSelector)
      → All IsValidSelector ss
      → (selectors : List Selector) × (read_selectors cluster w ss ≡ ok selectors)
  unfolding read_selectors
  selectors_read [] h = ([], refl)
  selectors_read (s ∷ ss) ((selector, good), h) =
      let (rest, fine) = selectors_read ss h in
      (selector ∷ rest, rw (good, read_selectors) (rw fine))

  pub selectors-ne-nil :
      (s : LabelSelector) (ss : List LabelSelector) → read_selectors cluster w (s ∷ ss) ≢ ok []
  unfolding read_selectors
  selectors-ne-nil s ss e = elim (Option-cases (cluster.as_selector s)) [
    | inl bad ↦ cc (rw (bad, read_selectors) at e)
    | inr (selector, good) ↦ elim (Result-cases (read_selectors cluster w ss)) [
      | inr (x, bad) ↦ cc (rw (good, bad, read_selectors) at e)
      | inl (rest, fine) ↦ cc (ok-injective (rw (good, fine, read_selectors) at e))
    ]
  ]
