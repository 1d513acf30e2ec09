-- ===== src/Common/Escape/InPlace.antt =====
-- The in-place loop of `strdeescape` against a function on texts.
use vimgdb.Base.{
  ℕ, zero, suc, ◌+◌, ◌<◌, ◌≡◌, refl, ◌∙◌, ap, true, false, inl, inr, [], ◌∷◌, ◌++◌, none, some,
  arith, length, length-append, get_or-append, get_or_out, set, set-append, take, take-append, ◌==◌,
  if◌then◌else◌, Bool-cases, Option-cases, append_assoc, append-nil, lt→ltb, le→ltb,
}
use vimgdb.Common.Text.{Bytes, char_at}
use vimgdb.Common.Escape.{
  deescape_char, move, deescape_pair, deescape_step, deescape_loop, terminate, strdeescape, Cursor,
  cursor,
}

-- What de-escaping makes of a text: each escape sequence becomes its byte, all else stays.
unfoldable pub deescape_text : Bytes → Bytes
deescape_text [] = []
deescape_text (c ∷ []) = c ∷ []
deescape_text (c ∷ d ∷ s) =
    let plain = c ∷ deescape_text (d ∷ s) in
    let short = deescape_text s in
    if c == b'\\' then (elim (deescape_char d) [ some x ↦ x ∷ short | none ↦ plain ]) else plain

-- What a write at the front of the gap does to the gap, when the gap's end moves over `c`.
shift : Bytes → ℕ → Bytes
shift [] c = []
shift (g ∷ gap) c = gap ++ c ∷ []

length-shift : (gap : Bytes) (c : ℕ) → length (shift gap c) ≡ length gap
unfolding shift
length-shift [] c = refl
length-shift (g ∷ gap) c = omega (arith, length-append gap (c ∷ []))

set-shift :
    (out gap r : Bytes) (c v o : ℕ)
    → o ≡ length out
    → set (out ++ gap ++ c ∷ r) o v ≡ (out ++ v ∷ []) ++ shift gap c ++ r
unfolding shift
set-shift out [] r c v o e = simp (append-nil, append_assoc, set-append out c v r o e)
set-shift out (g ∷ gap) r c v o e = simp (append_assoc, set-append out g v (gap ++ c ∷ r) o e)

char-gap :
    (out gap r : Bytes) (c i : ℕ)
    → i ≡ length out + length gap
    → char_at (out ++ gap ++ c ∷ r) i ≡ c
char-gap out gap r c i e = get_or-append (out ++ gap) c 0 r i (omega (arith, length-append out gap))

move-shift :
    (out gap r : Bytes) (c i o : ℕ)
    → o ≡ length out
    → i ≡ length out + length gap
    → move (out ++ gap ++ c ∷ r) i o ≡ (out ++ c ∷ []) ++ shift gap c ++ r
unfolding move shift
move-shift out [] r c i o e e' =
    let same : (i == o) ≡ true = ground arith in rw same (simp (append-nil, append_assoc))
move-shift out (g ∷ gap) r c i o e e' =
    let apart : (i == o) ≡ false = ground arith in
    rw (apart, char-gap out (g ∷ gap) r c i e') (set-shift out (g ∷ gap) r c c o e)

-- One round moves the byte at the gap's end, or the byte that it stands for, to the gap's front.
module _ (out gap r : Bytes) (c i o : ℕ) (e : o ≡ length out)
    (e' : i ≡ length out + length gap) where
  step_plain :
      (c == b'\\') ≡ false
      → deescape_step (out ++ gap ++ c ∷ r) i o
        ≡ cursor ((out ++ c ∷ []) ++ shift gap c ++ r) (i + 1) (o + 1)
  unfolding deescape_step
  step_plain h = rw (char-gap out gap r c i e', h, move-shift out gap r c i o e e')

  step_keep :
      (c == b'\\') ≡ true
      → deescape_char (char_at (out ++ gap ++ c ∷ r) (i + 1)) ≡ none
      → deescape_step (out ++ gap ++ c ∷ r) i o
        ≡ cursor ((out ++ c ∷ []) ++ shift gap c ++ r) (i + 1) (o + 1)
  unfolding deescape_step deescape_pair
  step_keep h k =
      rw (char-gap out gap r c i e', h, deescape_pair, k, move-shift out gap r c i o e e')

  step_pair :
      (x : ℕ)
      → (c == b'\\') ≡ true
      → deescape_char (char_at (out ++ gap ++ c ∷ r) (i + 1)) ≡ some x
      → deescape_step (out ++ gap ++ c ∷ r) i o
        ≡ cursor ((out ++ x ∷ []) ++ shift gap c ++ r) (i + 1 + 1) (o + 1)
  unfolding deescape_step deescape_pair
  step_pair x h k = rw (char-gap out gap r c i e', h, deescape_pair, k, set-shift out gap r c x o e)

-- The terminator, which is read behind a last backslash, is part of no escape sequence.
deescape_char_end :
    (c i : ℕ) (out gap : Bytes)
    → i ≡ length out + length gap
    → deescape_char (char_at (out ++ gap ++ c ∷ []) (i + 1)) ≡ none
unfolding deescape_char
deescape_char_end c i out gap e = rw (
    get_or_out (out ++ gap ++ c ∷ []) (i + 1) 0
      (omega (arith, length-append (out ++ gap) (c ∷ []), length-append out gap)))

char_next :
    (out gap r : Bytes) (c d i : ℕ)
    → i ≡ length out + length gap
    → char_at (out ++ gap ++ c ∷ d ∷ r) (i + 1) ≡ d
char_next out gap r c d i e =
    rw (← append_assoc (out ++ gap) (c ∷ []) (d ∷ r))
      (char-gap (out ++ gap) (c ∷ []) r d (i + 1) (omega (arith, length-append out gap)))

regroup : (out gap : Bytes) (d : ℕ) (r : Bytes) → out ++ (gap ++ d ∷ []) ++ r ≡ out ++ gap ++ d ∷ r
regroup out gap d r = simp append_assoc

-- The loop ends, and leaves `t` before its write position.
record Leaves (fuel len : ℕ) (s : Bytes) (i o : ℕ) (t : Bytes) : Type 0 where
  last : Cursor
  runs : deescape_loop fuel len s i o ≡ some last
  text : take last.o last.buf ≡ t

Leaves-step :
    {fuel len i o i' o' : ℕ} {s s' : Bytes} (out : Bytes) (x : ℕ) (t : Bytes)
    → i < len
    → deescape_step s i o ≡ cursor s' i' o'
    → Leaves fuel len s' i' o' ((out ++ x ∷ []) ++ t)
    → Leaves (suc fuel) len s i o (out ++ x ∷ t)
unfolding deescape_loop
Leaves-step {len} {i} out x t h e l = record {
  last = l.last;
  runs = rw (lt→ltb i len h, e) l.runs;
  text = l.text ∙ append_assoc out (x ∷ []) t;
}

Leaves-end :
    (fuel len i o : ℕ) (out gap : Bytes)
    → o ≡ length out
    → len ≡ i + 0
    → Leaves (suc fuel) len (out ++ gap ++ []) i o (out ++ [])
unfolding deescape_loop
Leaves-end fuel len i o out gap e n = record {
  last = cursor (out ++ gap ++ []) i o;
  runs = rw (le→ltb i len (omega arith));
  text = simp (append_assoc, append-nil) (take-append out gap o e);
}

-- The loop at a point where the bytes of `gap`, between `o` and `i`, are stale.
deescape_loop-text :
    (fuel len i o : ℕ) (out gap r : Bytes)
    → o ≡ length out
    → i ≡ length out + length gap
    → len ≡ i + length r
    → length r < fuel
    → Leaves fuel len (out ++ gap ++ r) i o (out ++ deescape_text r)
unfolding deescape_text
deescape_loop-text zero len i o out gap r e e' n f = absurd (omega arith)
deescape_loop-text (suc fuel) len i o out gap [] e e' n f = Leaves-end fuel len i o out gap e n
deescape_loop-text (suc fuel) len i o out gap (c ∷ []) e e' n f =
    let next =
      deescape_loop-text fuel len (i + 1) (o + 1) (out ++ c ∷ []) (shift gap c) []
        (omega (arith, length-append out (c ∷ [])))
        (omega (arith, length-append out (c ∷ []), length-shift gap c)) (omega arith)
        (omega arith) in
    elim (Bool-cases (c == b'\\')) [
      | inl h ↦
          Leaves-step out c [] (omega arith)
            (step_keep out gap [] c i o e e' h (deescape_char_end c i out gap e')) next
      | inr h ↦ Leaves-step out c [] (omega arith) (step_plain out gap [] c i o e e' h) next
    ]
deescape_loop-text (suc fuel) len i o out gap (c ∷ d ∷ r) e e' n f =
    let next =
      deescape_loop-text fuel len (i + 1) (o + 1) (out ++ c ∷ []) (shift gap c) (d ∷ r)
        (omega (arith, length-append out (c ∷ [])))
        (omega (arith, length-append out (c ∷ []), length-shift gap c)) (omega arith)
        (omega arith) in
    let pair = λ (x : ℕ).
      deescape_loop-text fuel len (i + 1 + 1) (o + 1) (out ++ x ∷ []) (shift gap c ++ d ∷ []) r
        (omega (arith, length-append out (x ∷ [])))
        (omega (
          arith,
          length-append out (x ∷ []),
          length-append (shift gap c) (d ∷ []),
          length-shift gap c,
        ))
        (omega arith) (omega arith) in
    let k = char_next out gap r c d i e' in
    elim (Bool-cases (c == b'\\')) [
      | inr h ↦
          rw h (Leaves-step out c _ (omega arith) (step_plain out gap (d ∷ r) c i o e e' h) next)
      | inl h ↦ rw h (elim (Option-cases (deescape_char d)) [
        | inl p ↦ rw p (
            Leaves-step out c _ (omega arith)
              (step_keep out gap (d ∷ r) c i o e e' h (ap deescape_char k ∙ p)) next)
        | inr (x, p) ↦ rw p (
            Leaves-step out x _ (omega arith)
              (step_pair out gap (d ∷ r) c i o e e' x h (ap deescape_char k ∙ p))
              (rw (regroup (out ++ x ∷ []) (shift gap c) d r) at (pair x)))
      ])
    ]

-- For every text, the in-place loop of `strdeescape` ends and leaves the de-escaped text.
pub strdeescape-text : (s : Bytes) → strdeescape s ≡ some (deescape_text s)
unfolding strdeescape
strdeescape-text s =
    let l =
      deescape_loop-text (length s + 1) (length s) 0 0 [] [] s refl refl (omega arith)
        (omega arith) in
    ap terminate l.runs ∙ ap some l.text
