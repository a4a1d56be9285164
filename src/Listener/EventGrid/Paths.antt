-- ===== src/Listener/EventGrid/Paths.antt =====
-- internal/listener/eventgrid/listener.go: Start and Stop, and the paths that the server handles.
use Prim.Native.String.{◌++◌ as ◌+++◌}
use mathlib.Core.List.{append-nil, append_assoc}
use reloader.Prelude.{
  ℕ, String, Bool, true, false, not, ◌&&◌, ◌⊎◌, ◌≡◌, ◌↔◌, refl, sym, ◌∙◌, inl, inr, Option, none,
  some, List, [], ◌∷◌, ◌++◌, map, if◌then◌else◌, any, All, All-append, is_some, Bool-cases,
  Option-cases, ap, some-injective,
}
use reloader.Api.{AzureEventGridConfig}

-- The server: its address, and the paths of its multiplexer, which all have the same handler.
pub record Server : Type 0 where
  pub host : String
  pub port : ℕ
  pub paths : List String

abbrev pub path_of : String → String
path_of subscription = "/" +++ subscription

-- The patterns of net/http's multiplexer: whether one can be parsed, and whether one conflicts with
-- one that is registered, as two equal patterns do.
pub record Patterns : Type 0 where
  pub is_valid : String → Bool
  pub conflicts : String → String → Bool

module _ (patterns : Patterns) where
  -- `HandleFunc`, by the patterns that are registered: it panics on a pattern that cannot be parsed or
  -- that conflicts with one of them.
  unfoldable pub handle_func : String → List String → Option (List String)
  handle_func path mux =
      if patterns.is_valid path && not (any (λ p. patterns.conflicts p path) mux)
      then some (mux ++ path ∷ [])
      else none

  abbrev and_then :
      Option (List String) → (List String → Option (List String)) → Option (List String)
  and_then none f = none
  and_then (some mux) f = f mux

  unfoldable pub register_paths : List String → List String → Option (List String)
  unfolding handle_func
  register_paths [] mux = some mux
  register_paths (subscription ∷ rest) mux =
      and_then (handle_func (path_of subscription) mux) (register_paths rest)

  -- `Start`: the server, or a panic.
  unfoldable pub start : AzureEventGridConfig → Option Server
  start config = elim (register_paths config.subscriptions []) [
    | none ↦ none
    | some paths ↦ some (record { host = config.host; port = config.port; paths = paths })
  ]

-- `Stop`, by the server and whether closing it fails: the outer `none` is a panic, of a listener that
-- was not started; else the error, if any.
unfoldable pub stop : Option Server → Option String → Option (Option String)
stop none close_fails = none
stop (some server) close_fails = some close_fails

module _ {A : Type 0} (P : A → Type 0) where
  All-snoc : (xs : List A) (x : A) → All P (xs ++ x ∷ []) → All P xs × P x
  All-snoc [] x (h, _) = (tt, h)
  All-snoc (y ∷ ys) x (h, hs) = let (k, last) = All-snoc ys x hs in ((h, k), last)

-- The paths of the subscriptions.
abbrev pub paths_of : List String → List String
paths_of subs = map path_of subs

none_true : {A : Type 0} (f : A → Bool) (xs : List A) → any f xs ≡ false → All (λ x. f x ≡ false) xs
none_true f [] e = tt
none_true f (x ∷ xs) e = elim (Bool-cases (f x)) [
  | inl yes_ ↦ absurd (cc (rw yes_ at e))
  | inr no_ ↦ (no_, none_true f xs (rw no_ at e))
]

none_true_of :
    {A : Type 0} (f : A → Bool) (xs : List A) → All (λ x. f x ≡ false) xs → any f xs ≡ false
none_true_of f [] h = refl
none_true_of f (x ∷ xs) (h, hs) = rw h (none_true_of f xs hs)

module _ (patterns : Patterns) where
  abbrev Apart : String → String → Type 0
  Apart p q = patterns.conflicts p q ≡ false

  -- Every pattern can be parsed, and none conflicts with one before it.
  abbrev pub AreServed : List String → Type 0
  AreServed [] = Unit
  AreServed (p ∷ ps) = (patterns.is_valid p ≡ true) × (All (Apart p) ps × AreServed ps)

  abbrev Fresh : List String → List String → Type 0
  Fresh subs mux = All (λ s. All (λ p. Apart p (path_of s)) mux) subs

  Fresh-snoc :
      (subs mux : List String) (path : String)
      → Fresh subs (mux ++ path ∷ [])
      → Fresh subs mux × All (Apart path) (paths_of subs)
  Fresh-snoc [] mux path h = (tt, tt)
  Fresh-snoc (s ∷ subs) mux path (h, hs) =
      let (old, new) = All-snoc (λ p. Apart p (path_of s)) mux path h in
      let (olds, news) = Fresh-snoc subs mux path hs in ((old, olds), (new, news))

  Fresh-snoc_of :
      (subs mux : List String) (path : String)
      → Fresh subs mux
      → All (Apart path) (paths_of subs)
      → Fresh subs (mux ++ path ∷ [])
  Fresh-snoc_of [] mux path h k = tt
  Fresh-snoc_of (s ∷ subs) mux path (h, hs) (k, ks) = (
    All-append (λ p. Apart p (path_of s)) mux (path ∷ []) h (k, tt),
    Fresh-snoc_of subs mux path hs ks,
  )

  -- `HandleFunc` registers a pattern exactly if it can be parsed and conflicts with none.
  handle_func-cases :
      (path : String) (mux : List String)
      → (handle_func patterns path mux ≡ none)
        ⊎ ((handle_func patterns path mux ≡ some (mux ++ path ∷ []))
            × ((patterns.is_valid path ≡ true) × All (λ p. Apart p path) mux))
  unfolding handle_func
  handle_func-cases path mux = elim (Bool-cases (patterns.is_valid path)) [
    | inr bad ↦ inl (rw (bad, handle_func) refl)
    | inl good ↦ elim (Bool-cases (any (λ p. patterns.conflicts p path) mux)) [
      | inl there ↦ inl (rw (good, there, handle_func) refl)
      | inr new ↦ inr (rw (good, new, handle_func) refl, (good, none_true _ mux new))
    ]
  ]

  handle_func-eq :
      (path : String) (mux : List String)
      → patterns.is_valid path ≡ true
      → All (λ p. Apart p path) mux
      → handle_func patterns path mux ≡ some (mux ++ path ∷ [])
  unfolding handle_func
  handle_func-eq path mux good new = rw (good, none_true_of _ mux new, handle_func) refl

  register-AreServed :
      (subs mux : List String)
      → is_some (register_paths patterns subs mux) ≡ true
      → AreServed (paths_of subs) × Fresh subs mux
  unfolding register_paths
  register-AreServed [] mux e = (tt, tt)
  register-AreServed (s ∷ subs) mux e = elim (handle_func-cases (path_of s) mux) [
    | inl panics ↦ absurd (cc (rw (panics, register_paths) at e))
    | inr (adds, (good, new)) ↦
        let (served, fresh) =
          register-AreServed subs (mux ++ path_of s ∷ []) (rw (adds, register_paths) at e) in
        let (olds, news) = Fresh-snoc subs mux (path_of s) fresh in
        ((good, (news, served)), (new, olds))
  ]

  register_of_AreServed :
      (subs mux : List String)
      → AreServed (paths_of subs)
      → Fresh subs mux
      → register_paths patterns subs mux ≡ some (mux ++ paths_of subs)
  unfolding register_paths
  register_of_AreServed [] mux d h = ap some (sym (append-nil mux))
  register_of_AreServed (s ∷ subs) mux (good, (news, d)) (new, olds) =
      rw (handle_func-eq (path_of s) mux good new, register_paths)
        (register_of_AreServed subs (mux ++ path_of s ∷ []) d
            (Fresh-snoc_of subs mux (path_of s) olds news)
          ∙ ap some (append_assoc mux (path_of s ∷ []) (paths_of subs)))

  Fresh-nil : (subs : List String) → Fresh subs []
  Fresh-nil [] = tt
  Fresh-nil (s ∷ subs) = (tt, Fresh-nil subs)

  -- The start of a listener gives a server exactly if every subscription's path is a pattern that
  -- net/http can parse and that conflicts with none before it, and else it panics; the server then
  -- handles the paths of the subscriptions at the configured address, in order and no others.
  pub start-eq_iff :
      (config : AzureEventGridConfig) (server : Server)
      → (start patterns config ≡ some server) ↔ (
          AreServed (paths_of config.subscriptions)
          × (server ≡ record {
            host = config.host;
            port = config.port;
            paths = paths_of config.subscriptions;
          }))
  unfolding start
  start-eq_iff config server =
      let subs = config.subscriptions in
      (
        (λ e. elim (Option-cases (register_paths patterns subs [])) [
          | inl panics ↦ absurd (cc (rw (panics, start) at e))
          | inr (paths, good) ↦
              let (d, _) = register-AreServed subs [] (ap is_some good) in
              let all = register_of_AreServed subs [] d (Fresh-nil subs) in
              (d, sym (some-injective _ server (rw (all, start) at e)))
        ]),
        (λ (d, is).
            rw (register_of_AreServed subs [] d (Fresh-nil subs), start) (ap some (sym is))),
      )
