-- ===== src/Prelude/Reflect.antt =====
-- Boolean tests against what they decide.
use mathlib.Core.Path.{◌≡◌, refl}
use mathlib.Core.Logic.{◌↔◌, ◌⊎◌, inl, inr}
use mathlib.Core.Bool.{Bool, true, false, ◌||◌, ◌&&◌}
use mathlib.Core.List.{List, [], ◌∷◌}
use reloader.Prelude.Tests.{if◌then◌else◌}
use reloader.Prelude.Lists.{Any, any}

-- A property of both branches holds of the conditional.
pub if_elim :
    {A : Type 0} (P : A → Type 0) (b : Bool) {x y : A}
    → (b ≡ true → P x)
    → (b ≡ false → P y)
    → P (if b then x else y)
if_elim P true f g = f refl
if_elim P false f g = g refl

pub or_iff : (a b : Bool) → ((a || b) ≡ true) ↔ ((a ≡ true) ⊎ (b ≡ true))
or_iff true b = ((λ _. inl refl), (λ _. refl))
or_iff false b = ((λ e. inr e), (λ h. elim h [ inl e ↦ absurd (cc e) | inr e ↦ e ]))

pub and_iff : (a b : Bool) → ((a && b) ≡ true) ↔ ((a ≡ true) × (b ≡ true))
and_iff true b = ((λ e. (refl, e)), (λ h. h.1))
and_iff false b = ((λ e. absurd (cc e)), (λ h. absurd (cc h.0)))

pub or_of :
    {a b : Bool} {P Q : Type 0} → ((a ≡ true) ↔ P) → ((b ≡ true) ↔ Q) → ((a || b) ≡ true) ↔ (P ⊎ Q)
or_of {a} {b} p q = (
  (λ e. elim ((or_iff a b).0 e) [ inl h ↦ inl (p.0 h) | inr h ↦ inr (q.0 h) ]),
  (λ h. (or_iff a b).1 (elim h [ inl x ↦ inl (p.1 x) | inr y ↦ inr (q.1 y) ])),
)

module _ {A : Type 0} {P : A → Type 0} (p : A → Bool) (decides : (a : A) → (p a ≡ true) ↔ P a) where
  any_to : (xs : List A) → any p xs ≡ true → Any P xs
  any_to [] e = absurd (cc e)
  any_to (x ∷ xs) e = elim ((or_iff (p x) (any p xs)).0 e) [
    | inl here ↦ inl ((decides x).0 here)
    | inr there ↦ inr (any_to xs there)
  ]

  any_from : (xs : List A) → Any P xs → any p xs ≡ true
  any_from [] h = absurd h
  any_from (x ∷ xs) (inl here) = (or_iff (p x) (any p xs)).1 (inl ((decides x).1 here))
  any_from (x ∷ xs) (inr there) = (or_iff (p x) (any p xs)).1 (inr (any_from xs there))

  -- The loop that stops at the first element that passes.
  pub any_iff : (xs : List A) → (any p xs ≡ true) ↔ Any P xs
  any_iff xs = (any_to xs, any_from xs)
