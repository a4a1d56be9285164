-- ===== src/Listener/Tcp/Framing.antt =====
-- The framing of messages on a connection: each ends in a newline.
use Prim.Native.Char.{Char}
use Prim.Native.String.{String, [], ◌∷◌, ◌++◌ as ◌+++◌}
use reloader.Prelude.{
  true, false, ◌==◌, eq_iff, ◌≡◌, ◌≢◌, refl, ap, ap₂, ◌∙◌, some, List, [], ◌∷◌, ◌++◌, map, split,
  Lacks, split_of_Lacks, split-append, All, Bool-cases, inl, inr,
}
use reloader.Listener.Tcp.{Turn, non_empty, messages_of, read_message}

-- A message that can be framed: it is not empty and holds no newline.
abbrev pub IsMessage : String → Type 0
IsMessage m = (m ≢ "") × Lacks b'\n' m

abbrev newline : Char
newline = "\n"

-- The messages, each with a newline behind it.
unfoldable pub frame : List String → String
frame [] = ""
frame (m ∷ ms) = m +++ (newline ∷ frame ms)

abbrev pub turn_of : String → Turn
turn_of bytes = record { cancelled = false; bytes = some bytes }

unfoldable pub concat : List (List String) → List String
concat [] = []
concat (ms ∷ mss) = ms ++ concat mss

ne_of_full : (m : String) → m ≢ "" → (m == "") ≡ false
ne_of_full m full = elim (Bool-cases (m == "")) [
  | inl empty ↦ absurd (full ((eq_iff m "").0 empty))
  | inr other ↦ other
]

messages_of-frame : (ms : List String) → All IsMessage ms → messages_of (frame ms) ≡ ms
unfolding messages_of frame split non_empty
messages_of-frame [] h = refl
messages_of-frame (m ∷ ms) ((full, lacks), h) =
    ap non_empty (split-append b'\n' m newline (frame ms) refl lacks)
    ∙ rw (ne_of_full m full) (ap (λ x. m ∷ x) (messages_of-frame ms h))

messages_of_single : (a : String) → a ≢ "" → Lacks b'\n' a → messages_of a ≡ a ∷ []
unfolding messages_of non_empty
messages_of_single a full lacks =
    ap non_empty (split_of_Lacks b'\n' a lacks) ∙ rw (ne_of_full a full) refl

-- Where each read returns whole messages, each with its newline, the messages are passed on one by
-- one, all of them and in order, over all the reads of the connection.
pub read_message-frame :
    (mss : List (List String))
    → All (All IsMessage) mss
    → read_message true (map (λ ms. turn_of (frame ms)) mss) ≡ concat mss
unfolding read_message concat
read_message-frame [] h = refl
read_message-frame (ms ∷ mss) (h, k) =
    ap₂ (λ x y. x ++ y) (messages_of-frame ms h) (read_message-frame mss k)

-- A message that arrives in two reads is passed on as two messages, its pieces.
pub read_message-pieces :
    (a b : String)
    → IsMessage a
    → IsMessage b
    → read_message true (turn_of a ∷ turn_of (frame (b ∷ [])) ∷ []) ≡ a ∷ b ∷ []
unfolding read_message messages_of non_empty
read_message-pieces a b (full, lacks) h =
    ap₂ (λ x y. x ++ (y ++ [])) (messages_of_single a full lacks)
      (messages_of-frame (b ∷ []) (h, tt))
