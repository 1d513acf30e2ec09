-- ===== src/Common/Escape/RoundTrip.antt =====
-- `strescape` and `strdeescape` together, and the buffer that `strescape` writes to.
use vimgdb.Base.{
  ℕ, ◌+◌, ◌*◌, ◌^◌, ◌≤◌, ◌<◌, ◌≡◌, ◌≢◌, refl, sym, ◌∙◌, ap, false, [], ◌∷◌, ◌++◌, some, arith,
  length, length-append, ◌==◌, append_assoc, append-nil, All, All-append,
}
use vimgdb.Common.Text.{Bytes, ensure}
use vimgdb.Common.Escape.{escape_char, escape_loop, strescape, deescape_char, strdeescape}
use vimgdb.Common.Escape.InPlace.{deescape_text, strdeescape-text}

escape_text : Bytes → Bytes
escape_text [] = []
escape_text (c ∷ s) = escape_char c ++ escape_text s

escape_loop-text : (s dst : Bytes) → escape_loop s dst ≡ dst ++ escape_text s
unfolding escape_loop escape_text
escape_loop-text [] dst = sym (append-nil dst)
escape_loop-text (c ∷ s) dst = simp (escape_loop-text s, append_assoc)

deescape_plain :
    (c : ℕ) (t : Bytes) → (c == b'\\') ≡ false → deescape_text (c ∷ t) ≡ c ∷ deescape_text t
unfolding deescape_text
deescape_plain c [] h = refl
deescape_plain c (d ∷ t) h = rw h

deescape_pair :
    (d x : ℕ) (t : Bytes)
    → deescape_char d ≡ some x
    → deescape_text (b'\\' ∷ d ∷ t) ≡ x ∷ deescape_text t
unfolding deescape_text
deescape_pair d x t h = rw h

deescape-escape_char :
    (c : ℕ) (t : Bytes) → deescape_text (escape_char c ++ t) ≡ c ∷ deescape_text t
unfolding escape_char deescape_char
deescape-escape_char c t = ground (
  arith,
  deescape_plain c t,
  deescape_pair b't' 9 t refl,
  deescape_pair b'n' 10 t refl,
  deescape_pair b'r' 13 t refl,
  deescape_pair b'"' b'"' t refl,
  deescape_pair b'\\' b'\\' t refl,
)

deescape-escape_text : (s : Bytes) → deescape_text (escape_text s) ≡ s
unfolding escape_text deescape_text
deescape-escape_text [] = refl
deescape-escape_text (c ∷ s) =
    deescape-escape_char c (escape_text s) ∙ ap (λ t. c ∷ t) (deescape-escape_text s)

-- Escaping a text and de-escaping the result in place gives the text back, for every text and
-- every size of the buffer that `strescape` is handed.
pub strdeescape-strescape : (s : Bytes) (max : ℕ) → strdeescape (strescape s max).text ≡ some s
unfolding strescape
strdeescape-strescape s max =
    strdeescape-text (escape_loop s [])
    ∙ ap (λ t. some (deescape_text t)) (escape_loop-text s [])
    ∙ ap some (deescape-escape_text s)

length-escape_char : (c : ℕ) → length (escape_char c) ≤ 2
unfolding escape_char
length-escape_char c = ground arith

length-escape_text : (s : Bytes) → length (escape_text s) ≤ 2 * length s
unfolding escape_text
length-escape_text [] = omega arith
length-escape_text (c ∷ s) = omega (
  arith,
  length-append (escape_char c) (escape_text s),
  length-escape_char c,
  length-escape_text s,
)

-- Where the sizes fit into 32 bits, the escaped text and its terminator fit into the buffer that
-- `strescape` leaves, and that buffer is never smaller than the one it was handed.
pub strescape_fits :
    (s : Bytes) (max : ℕ)
    → max + length s * 2 + 1 < 2 ^ 32
    → (length (strescape s max).text + 1 ≤ (strescape s max).max) × (max ≤ (strescape s max).max)
unfolding strescape ensure
strescape_fits s max h = rw (escape_loop-text s []) (ground (arith, length-escape_text s))

-- Not a tab, a newline or a carriage return.
abbrev pub Printable : ℕ → Type 0
Printable c = (c ≢ 9) × (c ≢ 10) × (c ≢ 13)

escape_char-Printable : (c : ℕ) → All Printable (escape_char c)
unfolding escape_char
escape_char-Printable c = ground arith

escape_text-Printable : (s : Bytes) → All Printable (escape_text s)
unfolding escape_text
escape_text-Printable [] = tt
escape_text-Printable (c ∷ s) =
    All-append Printable (escape_char c) (escape_text s) (escape_char-Printable c)
      (escape_text-Printable s)

-- No tab, newline or carriage return is left in an escaped text, so that it stays on one line of
-- the protocol.
pub strescape-Printable : (s : Bytes) (max : ℕ) → All Printable (strescape s max).text
unfolding strescape
strescape-Printable s max = rw (escape_loop-text s []) (escape_text-Printable s)
