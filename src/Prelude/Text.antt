-- ===== src/Prelude/Text.antt =====
-- The functions of Go's package `strings` that the program calls, over native texts. Each is
-- recursive on the text.
use Prim.Native.Char.{code}
use Prim.Native.String.{String, [], ◌∷◌, ◌++◌}
use mathlib.Core.Path.{◌≡◌, ap₂}
use mathlib.Core.Bool.{Bool, true, false}
use mathlib.Core.Option.{Option, none, some}
use mathlib.Core.List.{[], ◌∷◌}
use native.Mathlib.Omega.{arith}
use text.Mathlib.TextEquality.{Char-path}
use text.Mathlib.TextLemmas.{nil-append, cons-append}
use reloader.Prelude.Tests.{eqb, if◌then◌else◌}

-- What is left of the second text behind the first, if the first is its prefix.
unfoldable pub strip_prefix? : String → String → Option String
strip_prefix? [] s = some s
strip_prefix? (c ∷ p) [] = none
strip_prefix? (c ∷ p) (d ∷ s) =
    let rest = strip_prefix? p s in if eqb (code c) (code d) then rest else none

-- strings.HasPrefix(s, prefix)
unfoldable pub has_prefix : String → String → Bool
unfolding strip_prefix?
has_prefix s prefix = elim (strip_prefix? prefix s) [ none ↦ false | some _ ↦ true ]

-- strings.TrimPrefix(s, prefix)
unfoldable pub trim_prefix : String → String → String
unfolding strip_prefix?
trim_prefix s prefix = elim (strip_prefix? prefix s) [ none ↦ s | some rest ↦ rest ]

pub strip_prefix?-append : (p s : String) → strip_prefix? p (p ++ s) ≡ some s
unfolding strip_prefix?
strip_prefix?-append [] s = rw nil-append
strip_prefix?-append (c ∷ p) s = rw cons-append (ground (arith, strip_prefix?-append p s))

pub has_prefix-append : (p s : String) → has_prefix (p ++ s) p ≡ true
unfolding has_prefix
has_prefix-append p s = rw (strip_prefix?-append p s, has_prefix)

pub trim_prefix-append : (p s : String) → trim_prefix (p ++ s) p ≡ s
unfolding trim_prefix
trim_prefix-append p s = rw (strip_prefix?-append p s, trim_prefix)

pub strip_prefix?-eq-some : (p t s : String) → strip_prefix? p t ≡ some s → t ≡ p ++ s
unfolding strip_prefix?
strip_prefix?-eq-some [] t s e = rw nil-append (ground arith)
strip_prefix?-eq-some (c ∷ p) [] s e = cc
strip_prefix?-eq-some (c ∷ p) (d ∷ t) s e =
    rw cons-append (
      ap₂ (λ x y. x ∷ y) (Char-path d c (ground arith))
        (strip_prefix?-eq-some p t s (ground arith)))
