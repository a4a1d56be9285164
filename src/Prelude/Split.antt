-- ===== src/Prelude/Split.antt =====
-- `strings.Split`, `SplitN`, `TrimSpace` and `EqualFold`, with the laws of splitting at a character.
use Prim.Native.Nat.{ℕ, ◌+◌}
use Prim.Native.Char.{Char, code}
use Prim.Native.String.{String, [], ◌∷◌, ◌++◌}
use mathlib.Core.Path.{◌≡◌, refl, ap, ap₂, ◌∙◌}
use mathlib.Core.Logic.{◌≢◌, inl, inr}
use mathlib.Core.Bool.{Bool, true, false, not, ◌&&◌, ◌||◌}
use mathlib.Core.Option
use mathlib.Core.Option.{Option, none, some}
use mathlib.Core.List.{List, [], ◌∷◌}
use native.Mathlib.Omega.{arith}
use text.Mathlib.Text.{◌==◌}
use text.Mathlib.TextEquality.{Char-path}
use text.Mathlib.TextLemmas.{nil-append, cons-append}
use reloader.Prelude.Tests.{eqb, leb, if◌then◌else◌, Bool-cases}
use reloader.Prelude.Lists.{All}
use reloader.Prelude.Text.{strip_prefix?}

abbrev cons_head : Char → List String → List String
cons_head c [] = (c ∷ []) ∷ []
cons_head c (w ∷ ws) = (c ∷ w) ∷ ws

-- strings.Split(s, sep) for a separator of one character, given by its code point.
unfoldable pub split : ℕ → String → List String
split sep [] = [] ∷ []
split sep (c ∷ s) =
    let rest = split sep s in if eqb (code c) sep then [] ∷ rest else cons_head c rest

-- The two parts of strings.SplitN(s, sep, 2); `none` if it returns a single part.
unfoldable pub split_n2 : ℕ → String → Option (String × String)
split_n2 sep [] = none
split_n2 sep (c ∷ s) =
    let rest = split_n2 sep s in
    if eqb (code c) sep
    then some ([], s)
    else Option.map (λ (p : String × String). (c ∷ p.0, p.1)) rest

-- The text up to the first occurrence of a separator, and the text behind it.
unfoldable pub cut_text : String → String → Option (String × String)
unfolding strip_prefix?
cut_text sep [] = Option.map (λ rest. ([], rest)) (strip_prefix? sep [])
cut_text sep (c ∷ s) =
    let later = Option.map (λ (p : String × String). (c ∷ p.0, p.1)) (cut_text sep s) in
    elim (strip_prefix? sep (c ∷ s)) [ none ↦ later | some rest ↦ some ([], rest) ]

abbrev second_char : String → Option String
second_char (c ∷ d ∷ s) = some (d ∷ [])
second_char _ = none

-- strings.Split(s, sep)[1]; `none` is the panic of an index out of range. An empty separator
-- splits a text into its characters.
unfoldable pub split_second : String → String → Option String
unfolding cut_text
split_second s sep = if sep == "" then second_char s else elim (cut_text sep s) [
  | none ↦ none
  | some (_, rest) ↦ elim (cut_text sep rest) [ none ↦ some rest | some (mid, _) ↦ some mid ]
]

-- unicode.IsSpace
abbrev is_space : Char → Bool
is_space ch =
    let c = code ch in
    (leb 9 c && leb c 13)
    || eqb c 32
    || eqb c 0x85
    || eqb c 0xA0
    || eqb c 0x1680
    || (leb 0x2000 c && leb c 0x200a)
    || eqb c 0x2028
    || eqb c 0x2029
    || eqb c 0x202f
    || eqb c 0x205f
    || eqb c 0x3000

unfoldable pub trim_left : String → String
trim_left [] = []
trim_left (c ∷ s) = let rest = trim_left s in if is_space c then rest else c ∷ s

unfoldable pub trim_right : String → String
trim_right [] = []
trim_right (c ∷ s) = let rest = trim_right s in if is_space c && rest == "" then [] else c ∷ rest

-- strings.TrimSpace(s)
unfoldable pub trim_space : String → String
unfolding trim_left trim_right
trim_space s = trim_right (trim_left s)

-- The code point of a character's simple fold, for the characters that fold to an ASCII letter.
abbrev fold_code : Char → ℕ
fold_code ch =
    let c = code ch in
    if leb b'A' c && leb c b'Z'
    then c + 32
    else if eqb c 0x17f
    then b's'
    else if eqb c 0x212a
    then b'k'
    else c

-- strings.EqualFold(s, t) where t is ASCII.
unfoldable pub equal_fold : String → String → Bool
equal_fold [] [] = true
equal_fold [] (_ ∷ _) = false
equal_fold (_ ∷ _) [] = false
equal_fold (c ∷ s) (d ∷ t) = eqb (fold_code c) (fold_code d) && equal_fold s t

-- The separator does not occur in the text.
abbrev pub Lacks : ℕ → String → Type 0
Lacks sep [] = Unit
Lacks sep (c ∷ s) = (code c ≢ sep) × Lacks sep s

unfoldable pub lacks : ℕ → String → Bool
lacks sep [] = true
lacks sep (c ∷ s) = not (eqb (code c) sep) && lacks sep s

pub lacks-Lacks : (sep : ℕ) (s : String) → lacks sep s ≡ true → Lacks sep s
unfolding lacks
lacks-Lacks sep [] e = tt
lacks-Lacks sep (c ∷ s) e = ((λ same. ground arith), lacks-Lacks sep s (ground arith))

pub split_of_Lacks : (sep : ℕ) (s : String) → Lacks sep s → split sep s ≡ s ∷ []
unfolding split
split_of_Lacks sep [] h = refl
split_of_Lacks sep (c ∷ s) h = ground (arith, split_of_Lacks sep s h.1)

pub split-append :
    (sep : ℕ) (a : String) (c : Char) (s : String)
    → code c ≡ sep
    → Lacks sep a
    → split sep (a ++ (c ∷ s)) ≡ a ∷ split sep s
unfolding split
split-append sep [] c s e h = rw nil-append (ground arith)
split-append sep (d ∷ a) c s e h = rw cons-append (ground (arith, split-append sep a c s e h.1))

-- strings.Join(parts, sep)
unfoldable pub join : Char → List String → String
join c [] = []
join c (w ∷ []) = w
join c (w ∷ (v ∷ ws)) = w ++ (c ∷ join c (v ∷ ws))

join-cons_head : (sep c : Char) (ws : List String) → join sep (cons_head c ws) ≡ c ∷ join sep ws
unfolding join
join-cons_head sep c [] = refl
join-cons_head sep c (w ∷ []) = refl
join-cons_head sep c (w ∷ (v ∷ ws)) = cons-append c w _

split-ne-nil : (sep : ℕ) (s : String) → split sep s ≢ []
unfolding split
split-ne-nil sep [] = ground arith
split-ne-nil sep (c ∷ s) = ground (arith, split-ne-nil sep s)

join_nil_cons : (sep : Char) (ws : List String) → ws ≢ [] → join sep ([] ∷ ws) ≡ sep ∷ join sep ws
unfolding join
join_nil_cons sep [] h = absurd (h refl)
join_nil_cons sep (w ∷ ws) h = nil-append _

-- Joining the parts gives the text back.
pub join-split : (c : Char) (s : String) → join c (split (code c) s) ≡ s
unfolding split
join-split c [] = unfold join in refl
join-split c (d ∷ s) = elim (Bool-cases (eqb (code d) (code c))) [
  | inl same ↦ rw same (
      join_nil_cons c (split (code c) s) (split-ne-nil _ s)
      ∙ ap₂ (λ x y. x ∷ y) (Char-path c d (ground arith)) (join-split c s))
  | inr other ↦ rw other (join-cons_head c d _ ∙ ap (λ x. d ∷ x) (join-split c s))
]

cons_head-Lacks :
    (sep : ℕ) (c : Char) (ws : List String)
    → code c ≢ sep
    → All (Lacks sep) ws
    → All (Lacks sep) (cons_head c ws)
cons_head-Lacks sep c [] h k = ((h, tt), tt)
cons_head-Lacks sep c (w ∷ ws) h k = ((h, k.0), k.1)

-- No part holds the separator.
pub split-Lacks : (sep : ℕ) (s : String) → All (Lacks sep) (split sep s)
unfolding split
split-Lacks sep [] = (tt, tt)
split-Lacks sep (c ∷ s) = elim (Bool-cases (eqb (code c) sep)) [
  | inl same ↦ rw same (tt, split-Lacks sep s)
  | inr other ↦ rw other (cons_head-Lacks sep c (split sep s) (ground arith) (split-Lacks sep s))
]

-- Splitting what was joined gives the parts back, if no part holds the separator.
pub split-join :
    (c : Char) (w : String) (ws : List String)
    → All (Lacks (code c)) (w ∷ ws)
    → split (code c) (join c (w ∷ ws)) ≡ w ∷ ws
unfolding join
split-join c w [] h = split_of_Lacks (code c) w h.0
split-join c w (v ∷ ws) h =
    split-append (code c) w c (join c (v ∷ ws)) refl h.0 ∙ ap (λ x. w ∷ x) (split-join c v ws h.1)
