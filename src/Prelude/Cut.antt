-- ===== src/Prelude/Cut.antt =====
-- Where `strings.Split` cuts a text at a separator that is a text.
use Prim.Native.Char.{Char}
use Prim.Native.String.{String, [], ◌∷◌, ◌++◌}
use mathlib.Core.Path.{◌≡◌, refl, sym, ap, ◌∙◌}
use mathlib.Core.Logic.{◌≢◌, inl, inr}
use mathlib.Core.Bool.{true}
use mathlib.Core.Option
use mathlib.Core.Option.{Option, none, some}
use text.Mathlib.Text.{◌==◌}
use text.Mathlib.TextEquality.{eq_iff}
use text.Mathlib.TextLemmas.{nil-append, cons-append}
use reloader.Prelude.Tests.{is_some, Bool-cases, Option-cases}
use reloader.Prelude.Text.{strip_prefix?, strip_prefix?-append, strip_prefix?-eq-some}
use reloader.Prelude.Split.{cut_text, split_second}

-- The first text stands somewhere in the second.
abbrev pub Occurs : String → String → Type 0
Occurs sep s = (a : String) × ((b : String) × (s ≡ a ++ (sep ++ b)))

Occurs-cons : (sep : String) {s : String} (c : Char) → Occurs sep s → Occurs sep (c ∷ s)
Occurs-cons sep c (a, (b, e)) = (c ∷ a, (b, ap (λ x. c ∷ x) e ∙ sym (cons-append c a _)))

Occurs-first : (sep : String) {s rest : String} → strip_prefix? sep s ≡ some rest → Occurs sep s
Occurs-first sep {s} {rest} e =
    ([], (rest, strip_prefix?-eq-some sep s rest e ∙ sym (nil-append (sep ++ rest))))

cut_text_absent : (sep s : String) → ¬ Occurs sep s → cut_text sep s ≡ none
unfolding cut_text
cut_text_absent sep [] h = elim (Option-cases (strip_prefix? sep [])) [
  | inl e ↦ rw e refl
  | inr (rest, e) ↦ absurd (h (Occurs-first sep e))
]
cut_text_absent sep (c ∷ s) h = elim (Option-cases (strip_prefix? sep (c ∷ s))) [
  | inl e ↦ rw (e, cut_text_absent sep s (λ o. h (Occurs-cons sep c o)), cut_text) refl
  | inr (rest, e) ↦ absurd (h (Occurs-first sep e))
]

cut_text_prefix :
    (sep t rest : String) → strip_prefix? sep t ≡ some rest → cut_text sep t ≡ some ([], rest)
unfolding cut_text
cut_text_prefix sep [] rest e = rw (e, cut_text) refl
cut_text_prefix sep (c ∷ t) rest e = rw (e, cut_text) refl

-- A text that begins with the separator, which does not occur again: the second part is the rest.
pub split_second-append :
    (sep s : String) → sep ≢ "" → ¬ Occurs sep s → split_second (sep ++ s) sep ≡ some s
unfolding split_second
split_second-append sep s full absent = elim (Bool-cases (sep == "")) [
  | inl empty ↦ absurd (full ((eq_iff sep "").0 empty))
  | inr other ↦
      rw
        (
          other,
          cut_text_prefix sep (sep ++ s) s (strip_prefix?-append sep s),
          cut_text_absent sep s absent,
        )
        refl
]

-- A text without the separator has no second part.
pub split_second_absent : (sep s : String) → sep ≢ "" → ¬ Occurs sep s → split_second s sep ≡ none
unfolding split_second
split_second_absent sep s full absent = elim (Bool-cases (sep == "")) [
  | inl empty ↦ absurd (full ((eq_iff sep "").0 empty))
  | inr other ↦ rw (other, cut_text_absent sep s absent) refl
]

is_some-map :
    (c : Char) (o : Option (String × String))
    → is_some {A = String × String} (Option.map (λ (p : String × String). (c ∷ p.0, p.1)) o)
      ≡ is_some o
is_some-map c none = refl
is_some-map c (some p) = refl

cut_text_cons :
    (sep : String) (c : Char) (s : String)
    → is_some (cut_text sep s) ≡ true
    → is_some (cut_text sep (c ∷ s)) ≡ true
unfolding cut_text
cut_text_cons sep c s h = elim (Option-cases (strip_prefix? sep (c ∷ s))) [
  | inl e ↦ rw (e, cut_text) (is_some-map c (cut_text sep s) ∙ h)
  | inr (rest, e) ↦ rw (e, cut_text) refl
]

cut_text_there : (sep a b : String) → is_some (cut_text sep (a ++ (sep ++ b))) ≡ true
cut_text_there sep [] b =
    ap (λ t. is_some (cut_text sep t)) (nil-append (sep ++ b))
    ∙ ap is_some (cut_text_prefix sep (sep ++ b) b (strip_prefix?-append sep b))
cut_text_there sep (c ∷ a) b =
    ap (λ t. is_some (cut_text sep t)) (cons-append c a (sep ++ b))
    ∙ cut_text_cons sep c (a ++ (sep ++ b)) (cut_text_there sep a b)

-- A text in which no cut is found does not hold the separator.
pub Occurs-of_cut_text : (sep s : String) → cut_text sep s ≡ none → ¬ Occurs sep s
Occurs-of_cut_text sep s e (a, (b, same)) =
    absurd
      (cc (sym (ap is_some e) ∙ ap (λ t. is_some (cut_text sep t)) same ∙ cut_text_there sep a b))
