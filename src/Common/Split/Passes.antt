-- ===== src/Common/Split/Passes.antt =====
-- The loops of `strsplit` under two rules of escaping that agree on a line: they go the same way,
-- and each ends at a rest that is no longer than the line.
use vimgdb.Base.{
  ℕ, zero, suc, ◌+◌, ◌≤◌, ◌<◌, ◌≡◌, refl, Bool, true, false, ◌&&◌, ◌||◌, inl, inr, [], ◌∷◌, arith,
  length, ◌==◌, Bool-cases, All,
}
use native.Mathlib.Numerals.{add-one}
use vimgdb.Common.Text.{Bytes, char_at}
use vimgdb.Common.Split.{
  blank, quote, backslash, skip, Quoted, closed, unterminated, quoted, unquoted, WordEnd, ends,
  past, out_of_fuel, next_piece, after_quote, word, word_end,
}

-- Behind the blanks stands something else.
skip-head : (s : Bytes) → (char_at (skip s) 0 == blank) ≡ false
unfolding skip
skip-head [] = refl
skip-head (c ∷ s) = elim (Bool-cases (c == blank)) [ inl h ↦ rw h (skip-head s) | inr h ↦ rw h h ]

unquoted-blank :
    (esc : ℕ → Bool) (c : ℕ) (s : Bytes) (n : ℕ)
    → (c == blank) ≡ true
    → unquoted esc (c ∷ s) n ≡ (c ∷ s, n)
unfolding unquoted
unquoted-blank esc c [] n h = rw h
unquoted-blank esc c (d ∷ s) n h = rw h

-- `P` holds of the bytes of the line, and makes the two rules agree.
module _ (P : ℕ → Type 0) (esc esc' : ℕ → Bool)
    (agree : (c d : ℕ) → P c → (c == backslash && esc d) ≡ (c == backslash && esc' d)) where
  -- A rest of the line, no longer than `b`.
  pub record Rest (b : ℕ) (s : Bytes) : Type 0 where
    pub short : length s ≤ b
    pub clean : All P s

  abbrev SameQuoted : ℕ → Quoted → Quoted → Type 0
  SameQuoted b (closed s n) q = (closed s n ≡ q) × Rest b s
  SameQuoted b (unterminated n) q = unterminated n ≡ q

  abbrev pub SameWord : ℕ → WordEnd → WordEnd → Type 0
  SameWord b (ends s n) w = (ends s n ≡ w) × Rest b s
  SameWord b past w = past ≡ w
  SameWord b out_of_fuel w = ⊥

  Rest-mono : {b b' : ℕ} {s : Bytes} → b ≤ b' → Rest b s → Rest b' s
  Rest-mono h r = record { short = omega (arith, r.short); clean = r.clean }

  SameQuoted-mono : {b b' : ℕ} (p q : Quoted) → b ≤ b' → SameQuoted b p q → SameQuoted b' p q
  SameQuoted-mono (closed s n) q h r = (r.0, Rest-mono h r.1)
  SameQuoted-mono (unterminated n) q h r = r

  SameWord-mono : {b b' : ℕ} (p q : WordEnd) → b ≤ b' → SameWord b p q → SameWord b' p q
  SameWord-mono (ends s n) q h r = (r.0, Rest-mono h r.1)
  SameWord-mono past q h r = r
  SameWord-mono out_of_fuel q h r = r

  skip-Rest : {b : ℕ} (s : Bytes) → Rest b s → Rest b (skip s)
  unfolding skip
  skip-Rest [] r = r
  skip-Rest (c ∷ s) r = elim (Bool-cases (c == blank)) [
    | inl h ↦ rw h (skip-Rest s (record { short = omega (arith, r.short); clean = r.clean.1 }))
    | inr h ↦ rw h r
  ]

  quoted-same :
      (s : Bytes) (n : ℕ) → All P s → SameQuoted (length s) (quoted esc s n) (quoted esc' s n)
  unfolding quoted
  quoted-same [] n a = refl
  quoted-same (c ∷ []) n a = elim (Bool-cases (c == quote)) [
    | inl h ↦ rw h (refl, record { short = omega arith; clean = tt })
    | inr h ↦ rw h refl
  ]
  quoted-same (c ∷ d ∷ s) n a = elim (Bool-cases (c == quote)) [
    | inl h ↦ rw h (refl, record { short = omega arith; clean = a.1 })
    | inr h ↦ elim (Bool-cases (c == backslash && esc' d)) [
      | inl p ↦
          rw (h, agree c d a.0, p) (SameQuoted-mono _ _ (omega arith) (quoted-same s (n + 1) a.1.1))
      | inr p ↦
          rw (h, agree c d a.0, p)
            (SameQuoted-mono _ _ (omega arith) (quoted-same (d ∷ s) (n + 1) a.1))
    ]
  ]

  unquoted-same :
      (s : Bytes) (n : ℕ)
      → All P s
      → (unquoted esc s n ≡ unquoted esc' s n) × Rest (length s) (unquoted esc s n).0
  unfolding unquoted
  unquoted-same [] n a = (refl, record { short = omega arith; clean = tt })
  unquoted-same (c ∷ []) n a = elim (Bool-cases (c == blank || c == quote)) [
    | inl h ↦ rw h (refl, record { short = omega arith; clean = a })
    | inr h ↦ rw h (refl, record { short = omega arith; clean = tt })
  ]
  unquoted-same (c ∷ d ∷ s) n a = elim (Bool-cases (c == blank || c == quote)) [
    | inl h ↦ rw h (refl, record { short = omega arith; clean = a })
    | inr h ↦ elim (Bool-cases (c == backslash && esc' d)) [
      | inl p ↦
          let r = unquoted-same s (n + 1) a.1.1 in
          rw (h, agree c d a.0, p) (r.0, Rest-mono (omega arith) r.1)
      | inr p ↦
          let r = unquoted-same (d ∷ s) (n + 1) a.1 in
          rw (h, agree c d a.0, p) (r.0, Rest-mono (omega arith) r.1)
    ]
  ]

  -- Outside quotes a piece that begins with no blank and no quote takes a byte at least.
  unquoted-Rest :
      (c : ℕ) (s : Bytes) (n : ℕ)
      → (c == blank || c == quote) ≡ false
      → All P (c ∷ s)
      → Rest (length s) (unquoted esc (c ∷ s) n).0
  unfolding unquoted
  unquoted-Rest c [] n h a = rw h (record { short = omega arith; clean = tt })
  unquoted-Rest c (d ∷ s) n h a = elim (Bool-cases (c == backslash && esc d)) [
    | inl p ↦ rw (h, p) (Rest-mono (omega arith) (unquoted-same s (n + 1) a.1.1).1)
    | inr p ↦ rw (h, p) (unquoted-same (d ∷ s) (n + 1) a.1).1
  ]

  next_piece-same :
      (more more' : Bytes → ℕ → WordEnd) {b : ℕ} (s : Bytes) (n : ℕ)
      → Rest b s
      → SameWord b (more s n) (more' s n)
      → SameWord b (next_piece more s n) (next_piece more' s n)
  unfolding next_piece
  next_piece-same more more' s n r m = elim (Bool-cases (char_at s 0 == blank)) [
    | inl h ↦ rw h (refl, r)
    | inr h ↦ rw h m
  ]

  after_quote-same :
      (more more' : Bytes → ℕ → WordEnd) (b : ℕ) (p q : Quoted)
      → SameQuoted b p q
      → ((s : Bytes) (n : ℕ) → Rest b s → SameWord b (more s n) (more' s n))
      → SameWord b (after_quote more p) (after_quote more' q)
  unfolding after_quote
  after_quote-same more more' b (closed [] n) q r m = rw (← r.0) (refl, r.1)
  after_quote-same more more' b (closed (c ∷ s) n) q r m =
      rw (← r.0) (next_piece-same more more' (c ∷ s) n r.1 (m (c ∷ s) n r.1))
  after_quote-same more more' b (unterminated n) q r m = rw (← r) refl

  -- An argument that begins with no blank takes a byte at least.
  word_step-same :
      (fuel c : ℕ) (s : Bytes) (n : ℕ)
      → All P (c ∷ s)
      → (c == blank) ≡ false
      → ((r : Bytes) (m : ℕ)
          → Rest (length s) r
          → SameWord (length s) (word esc fuel r m) (word esc' fuel r m))
      → SameWord (length s) (word esc (suc fuel) (c ∷ s) n) (word esc' (suc fuel) (c ∷ s) n)
  unfolding word
  word_step-same fuel c s n a nb ih = elim (Bool-cases (c == quote)) [
    | inl h ↦ rw h (after_quote-same _ _ (length s) _ _ (quoted-same s n a.1) ih)
    | inr h ↦
        let rest = unquoted-Rest c s n (ground arith) a in
        rw (h, ← (unquoted-same (c ∷ s) n a).0) (next_piece-same _ _ _ _ rest (ih _ _ rest))
  ]

  -- One that begins with a blank is empty.
  word-blank-same :
      (fuel c : ℕ) (s : Bytes) (n : ℕ)
      → All P (c ∷ s)
      → (c == blank) ≡ true
      → SameWord (length (c ∷ s)) (word esc (suc fuel) (c ∷ s) n) (word esc' (suc fuel) (c ∷ s) n)
  unfolding word next_piece
  word-blank-same fuel c s n a b =
      let no_quote : (c == quote) ≡ false = ground arith in
      rw (no_quote, unquoted-blank esc c s n b, unquoted-blank esc' c s n b, b)
        (refl, record { short = omega arith; clean = a })

  word-same :
      (fuel : ℕ) (s : Bytes) (n : ℕ)
      → length s < fuel
      → All P s
      → SameWord (length s) (word esc fuel s n) (word esc' fuel s n)
  word-same zero s n f a = absurd (omega arith)
  word-same (suc fuel) [] n f a = unfold word in (refl, record { short = omega arith; clean = tt })
  word-same (suc fuel) (c ∷ s) n f a = elim (Bool-cases (c == blank)) [
    | inl b ↦ word-blank-same fuel c s n a b
    | inr nb ↦
        SameWord-mono (word esc (suc fuel) (c ∷ s) n) (word esc' (suc fuel) (c ∷ s) n) (omega arith)
          (word_step-same fuel c s n a nb (λ r m rest.
            SameWord-mono (word esc fuel r m) (word esc' fuel r m) rest.short
              (word-same fuel r m (omega (arith, rest.short)) rest.clean)))
  ]

  -- The argument behind the blanks of a line: the rest behind it is shorter than the line.
  word_end-same :
      (c : ℕ) (s : Bytes)
      → (c == blank) ≡ false
      → All P (c ∷ s)
      → SameWord (length s) (word_end esc (c ∷ s)) (word_end esc' (c ∷ s))
  word_end-same c s nb a = rw (add-one (suc (length s))) (
      word_step-same (suc (length s)) c s 0 a nb (λ r m rest.
        SameWord-mono (word esc (suc (length s)) r m) (word esc' (suc (length s)) r m) rest.short
          (word-same (suc (length s)) r m (omega (arith, rest.short)) rest.clean)))

  -- What both passes find behind the blanks of a line: nothing, or an argument.
  pub data Start (line : Bytes) : Bytes → Type 0 where
    none_left : Start line []
    begins :
        (c : ℕ) (s : Bytes)
        → length s < length line
        → SameWord (length s) (word_end esc (c ∷ s)) (word_end esc' (c ∷ s))
        → Start line (c ∷ s)

  pub skip-Start : (line : Bytes) → All P line → Start line (skip line)
  skip-Start line a =
      go (skip line) (skip-head line) (skip-Rest line (record { short = omega arith; clean = a }))
    where
      go :
          (start : Bytes)
          → (char_at start 0 == blank) ≡ false
          → Rest (length line) start
          → Start line start
      go [] h r = none_left
      go (c ∷ s) h r = begins c s r.short (word_end-same c s h r.clean)
