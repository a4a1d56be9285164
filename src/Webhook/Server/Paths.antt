-- ===== src/Webhook/Server/Paths.antt =====
-- Request paths and route keys.
use Prim.Native.Char.{Char}
use Prim.Native.String.{◌++◌, [], ◌∷◌}
use text.Mathlib.TextLemmas.{cons-append, nil-append, cons-ne-nil}
use reloader.Prelude.{
  ℕ, leb, String, ◌==◌, eq_iff, none, some, List, [], ◌∷◌, if◌then◌else◌, has_prefix, trim_prefix,
  split, ◌≡◌, ◌≢◌, refl, sym, ap, ◌∙◌, ◌↔◌, inl, inr, arith, All, Lacks, split_of_Lacks,
  split-append, split-Lacks, join, join-split, has_prefix-append, trim_prefix-append, strip_prefix?,
  strip_prefix?-eq-some, Bool-cases, Option-cases,
}
use reloader.Webhook.Server.{webhook_route_prefix, key_of_parts, route_key_from_path, route_key}

abbrev pub slash : Char
slash = "/"

-- A segment of a path: not empty, and with no slash.
abbrev pub IsSegment : String → Type 0
IsSegment s = (s ≢ "") × Lacks b'/' s

-- The keys of routes that a path can name: one segment, or two joined by a slash.
pub data IsKey (key : String) : Type 0 where
  one : IsSegment key → IsKey key
  two : (a b : String) → IsSegment a → IsSegment b → key ≡ a ++ ("/" ++ b) → IsKey key

slash-append : (s : String) → "/" ++ s ≡ slash ∷ s
slash-append s = cons-append slash [] s ∙ ap (λ t. slash ∷ t) (nil-append s)

path_of_rest :
    (rest : String)
    → route_key_from_path (webhook_route_prefix ++ rest)
      ≡ (if rest == "" then none else key_of_parts (split b'/' rest))
unfolding route_key_from_path
path_of_rest rest =
    rw (has_prefix-append webhook_route_prefix rest, trim_prefix-append webhook_route_prefix rest)

split_of_two :
    (a b : String) → IsSegment a → IsSegment b → split b'/' (a ++ ("/" ++ b)) ≡ a ∷ b ∷ []
split_of_two a b (p, h) (q, k) =
    ap (λ t. split b'/' (a ++ t)) (slash-append b)
    ∙ split-append b'/' a slash b refl h
    ∙ ap (λ t. a ∷ t) (split_of_Lacks b'/' b k)

key_of_two :
    (a b : String) → IsSegment a → IsSegment b → key_of_parts (a ∷ b ∷ []) ≡ some (a ++ ("/" ++ b))
unfolding key_of_parts
key_of_two a b (p, h) (q, k) = ground (arith, eq_iff a "", eq_iff b "")

append-ne-nil : (a b : String) → a ≢ "" → a ++ b ≢ ""
append-ne-nil [] b h e = h refl
append-ne-nil (c ∷ a) b h e = cons-ne-nil c (a ++ b) (sym (cons-append c a b) ∙ e)

path_of_IsKey :
    (key : String) → IsKey key → route_key_from_path (webhook_route_prefix ++ key) ≡ some key
path_of_IsKey key (one (p, h)) =
    rw (path_of_rest, split_of_Lacks b'/' key h)
      (unfold key_of_parts in ground (arith, eq_iff key ""))
path_of_IsKey key (two a b p q e) =
    rw (e, path_of_rest, split_of_two a b p q)
      (ground
        (arith, key_of_two a b p q, append-ne-nil a ("/" ++ b) p.0, eq_iff (a ++ ("/" ++ b)) ""))

IsKey-of_split :
    (rest key : String) (parts : List String)
    → rest ≢ ""
    → join slash parts ≡ rest
    → All (Lacks b'/') parts
    → key_of_parts parts ≡ some key
    → (rest ≡ key) × IsKey key
unfolding key_of_parts join
IsKey-of_split rest key [] h j l e = absurd (cc)
IsKey-of_split rest key (a ∷ []) h j l e =
    let same : a ≡ key = ground arith in (sym j ∙ same, one (rw (← same) (λ z. h (sym j ∙ z), l.0)))
IsKey-of_split rest key (a ∷ b ∷ []) h j l e =
    let same : a ++ ("/" ++ b) ≡ key = ground arith in
    (
      sym j ∙ sym (ap (λ t. a ++ t) (slash-append b)) ∙ same,
      two a b (ground (arith, eq_iff a ""), l.0) (ground (arith, eq_iff b ""), l.1.0) (sym same),
    )
IsKey-of_split rest key (a ∷ b ∷ (c ∷ ws)) h j l e = absurd (cc)

IsKey-of_path :
    (path key : String)
    → route_key_from_path path ≡ some key
    → (path ≡ webhook_route_prefix ++ key) × IsKey key
unfolding route_key_from_path has_prefix trim_prefix
IsKey-of_path path key e = elim (Option-cases (strip_prefix? webhook_route_prefix path)) [
  | inl missing ↦ absurd (ground arith)
  | inr (rest, found) ↦ elim (Bool-cases (rest == "")) [
    | inl empty ↦ absurd (ground arith)
    | inr full ↦
        let (same, is) =
          IsKey-of_split rest key (split b'/' rest) (ground (arith, eq_iff rest ""))
            (join-split slash rest) (split-Lacks b'/' rest) (rw (found, full) at e) in
        (
          strip_prefix?-eq-some webhook_route_prefix path rest found
              ∙ ap (λ t. webhook_route_prefix ++ t) same,
          is,
        )
  ]
]

-- A path names the route key `key` exactly if it is the prefix /webhook/ followed by the key, and
-- the key is one segment or two segments joined by a slash, a segment being a text that is not
-- empty and holds no slash.
pub route_key_from_path_iff :
    (path key : String)
    → (route_key_from_path path ≡ some key) ↔ ((path ≡ webhook_route_prefix ++ key) × IsKey key)
route_key_from_path_iff path key = (IsKey-of_path path key, λ (e, is). rw e (path_of_IsKey key is))

-- The key of a source is one that a path can name.
pub route_key-IsKey :
    (config_name path_suffix listener_key : String) (webhook_source_count : ℕ)
    → IsSegment config_name
    → Lacks b'/' path_suffix
    → IsSegment (trim_prefix listener_key "Webhook-")
    → IsKey (route_key config_name path_suffix listener_key webhook_source_count)
unfolding route_key
route_key-IsKey name suffix listener n p q r = elim (Bool-cases (suffix == "")) [
  | inr given ↦ rw given (two name suffix p (ground (arith, eq_iff suffix ""), q) refl)
  | inl empty ↦ elim (Bool-cases (leb n 1)) [
    | inl few ↦ rw (empty, few) (one p)
    | inr many ↦ rw (empty, many) (two name (trim_prefix listener "Webhook-") p r refl)
  ]
]

-- Whatever the listener key and the number of webhook sources, the path that carries the route key
-- of a source names that key again, if the Config's name is a segment, and so are the path suffix,
-- where it is not empty, and what follows the prefix of the listener key.
pub route_key_from_path-route_key :
    (config_name path_suffix listener_key : String) (webhook_source_count : ℕ)
    → IsSegment config_name
    → Lacks b'/' path_suffix
    → IsSegment (trim_prefix listener_key "Webhook-")
    → route_key_from_path (
        webhook_route_prefix ++ route_key config_name path_suffix listener_key webhook_source_count)
      ≡ some (route_key config_name path_suffix listener_key webhook_source_count)
route_key_from_path-route_key name suffix listener n p q r =
    path_of_IsKey _ (route_key-IsKey name suffix listener n p q r)
