-- ===== src/Common/Split/Span.antt =====
-- What the second pass of `strsplit` counts for a piece of the line is what it copies of it.
use vimgdb.Base.{
  ℕ, zero, suc, ◌+◌, ◌-◌, ◌≤◌, ◌<◌, ◌≡◌, refl, ◌∙◌, ap, true, false, ◌&&◌, ◌||◌, inl, inr, [], ◌∷◌,
  ◌++◌, none, some, arith, length, length-append, ◌==◌, Bool-cases, Option-cases, append_assoc,
  append-nil, ==_iff,
}
use vimgdb.Common.Text.{Bytes, char_at}
use vimgdb.Common.Escape.{deescape_char}
use vimgdb.Common.Split.{
  blank, quote, backslash, store_escape, Quoted, closed, unterminated, quoted, unquoted, WordEnd,
  ends, past, out_of_fuel, next_piece, after_quote, word, copy, make_arg,
}

-- Copying from `s` up to `s'` appends some text, of `n' - n` bytes.
pub record Span (s s' : Bytes) (n n' : ℕ) : Type 0 where
  pub text : Bytes
  pub count : n' ≡ n + length text
  pub shorter : length s' ≤ length s
  pub runs :
      (j k : ℕ) (out : Bytes)
      → j + length s' ≡ length s + k
      → copy j s out ≡ copy k s' (out ++ text)

Span-refl : (s : Bytes) (n : ℕ) → Span s s n n
Span-refl s n = record {
  text = [];
  count = omega arith;
  shorter = omega arith;
  runs = λ j k out e. let e' : j ≡ k = omega arith in rw (e', append-nil);
}

Span-trans :
    {s s' s'' : Bytes} {n n' n'' : ℕ} → Span s s' n n' → Span s' s'' n' n'' → Span s s'' n n''
Span-trans {s} {s'} {s''} a b = record {
  text = a.text ++ b.text;
  count = omega (arith, length-append a.text b.text, a.count, b.count);
  shorter = omega (arith, a.shorter, b.shorter);
  runs = λ j k out e.
      a.runs j (j + length s' - length s) out (omega (arith, a.shorter, b.shorter))
      ∙ b.runs (j + length s' - length s) k (out ++ a.text) (omega (arith, a.shorter, b.shorter))
      ∙ ap (copy k s'') (append_assoc out a.text b.text);
}

-- A piece that one round of the copying loop takes.
Span-round :
    (s s' v : Bytes) (n : ℕ)
    → length s' < length s
    → ((k : ℕ) (out : Bytes) → copy (length s - length s' + k) s out ≡ copy k s' (out ++ v))
    → Span s s' n (n + length v)
Span-round s s' v n h run = record {
  text = v;
  count = refl;
  shorter = omega arith;
  runs = λ j k out e. let e' : j ≡ length s - length s' + k = omega arith in rw e' (run k out);
}

copy-quote : (k : ℕ) (s out : Bytes) → copy (suc k) (quote ∷ s) out ≡ copy k s out
unfolding copy
copy-quote zero s out = refl
copy-quote (suc k) s out = refl

copy_plain :
    (k c : ℕ) (s out : Bytes)
    → (c == quote) ≡ false
    → (c == backslash) ≡ false
    → copy (suc k) (c ∷ s) out ≡ copy k s (out ++ c ∷ [])
unfolding copy
copy_plain zero c s out h h' = rw (h, h')
copy_plain (suc k) c s out h h' = rw (h, h')

copy_slash :
    (k : ℕ) (s out : Bytes)
    → deescape_char (char_at s 0) ≡ none
    → copy (suc k) (backslash ∷ s) out ≡ copy k s (out ++ backslash ∷ [])
unfolding copy
copy_slash zero s out h = rw h
copy_slash (suc k) s out h = rw h

copy_pair :
    (k d x : ℕ) (s out : Bytes)
    → deescape_char d ≡ some x
    → copy (suc (suc k)) (backslash ∷ d ∷ s) out ≡ copy k s (out ++ x ∷ [])
unfolding copy
copy_pair k d x s out h = rw h

Span-one :
    (c : ℕ) (s v : Bytes) (n n' : ℕ)
    → n' ≡ n + length v
    → ((k : ℕ) (out : Bytes) → copy (suc k) (c ∷ s) out ≡ copy k s (out ++ v))
    → Span (c ∷ s) s n n'
Span-one c s v n n' e run = record {
  text = v;
  count = e;
  shorter = omega arith;
  runs = λ j k out f. let f' : j ≡ suc k = omega arith in rw f' (run k out);
}

Span-two :
    (c d : ℕ) (s v : Bytes) (n n' : ℕ)
    → n' ≡ n + length v
    → ((k : ℕ) (out : Bytes) → copy (suc (suc k)) (c ∷ d ∷ s) out ≡ copy k s (out ++ v))
    → Span (c ∷ d ∷ s) s n n'
Span-two c d s v n n' e run = record {
  text = v;
  count = e;
  shorter = omega arith;
  runs = λ j k out f. let f' : j ≡ suc (suc k) = omega arith in rw f' (run k out);
}

-- The second pass takes a byte with the backslash before it exactly where the copy does.
store_escape-some : (d : ℕ) → store_escape d ≡ true → (x : ℕ) × (deescape_char d ≡ some x)
unfolding deescape_char
store_escape-some d h = elim (Option-cases (deescape_char d)) [
  | inl e ↦ absurd (ground arith)
  | inr p ↦ p
]

store_escape-none : (d : ℕ) → store_escape d ≡ false → deescape_char d ≡ none
unfolding deescape_char
store_escape-none d h = ground arith

-- One byte that is no quote and starts no escape sequence.
Span-single :
    (c : ℕ) (s : Bytes) (n : ℕ)
    → (c == quote) ≡ false
    → (c == backslash && store_escape (char_at s 0)) ≡ false
    → Span (c ∷ s) s n (n + 1)
Span-single c s n q h = elim (Bool-cases (c == backslash)) [
  | inr p ↦ Span-one c s (c ∷ []) n (n + 1) refl (λ k out. copy_plain k c s out q p)
  | inl p ↦ Span-one c s (c ∷ []) n (n + 1) refl (λ k out.
      rw ((==_iff c backslash).0 p)
        (copy_slash k s out (store_escape-none (char_at s 0) (rw p at h))))
]

Span-pair :
    (c d : ℕ) (s : Bytes) (n : ℕ)
    → (c == backslash && store_escape d) ≡ true
    → Span (c ∷ d ∷ s) s n (n + 1)
Span-pair c d s n h =
    let (x, e) = store_escape-some d (ground arith) in
    let p : c ≡ backslash = ground arith in
    Span-two c d s (x ∷ []) n (n + 1) refl (λ k out. rw p (copy_pair k d x s out e))

abbrev QuotedSpan : Bytes → ℕ → Quoted → Type 0
QuotedSpan s n (closed s' n') = Span s s' n n' × (length s' < length s)
QuotedSpan s n (unterminated n') = Unit

QuotedSpan-trans :
    {s s' : Bytes} {n n' : ℕ} (q : Quoted) → Span s s' n n' → QuotedSpan s' n' q → QuotedSpan s n q
QuotedSpan-trans (closed r m) a b = (Span-trans a b.0, omega (arith, a.shorter, b.1))
QuotedSpan-trans (unterminated m) a b = tt

Span-quote : (c : ℕ) (s : Bytes) (n : ℕ) → (c == quote) ≡ true → QuotedSpan (c ∷ s) n (closed s n)
Span-quote c s n h = (
  Span-one c s [] n n (omega arith)
      (λ k out. rw ((==_iff c quote).0 h, append-nil) (copy-quote k s out)),
  omega arith,
)

-- The text behind an opening quote.
quoted-Span : (s : Bytes) (n : ℕ) → QuotedSpan s n (quoted store_escape s n)
unfolding quoted
quoted-Span [] n = tt
quoted-Span (c ∷ []) n = elim (Bool-cases (c == quote)) [
  | inl h ↦ rw h (Span-quote c [] n h)
  | inr h ↦ rw h tt
]
quoted-Span (c ∷ d ∷ s) n = elim (Bool-cases (c == quote)) [
  | inl h ↦ rw h (Span-quote c (d ∷ s) n h)
  | inr h ↦ elim (Bool-cases (c == backslash && store_escape d)) [
    | inl p ↦ rw (h, p) (QuotedSpan-trans _ (Span-pair c d s n p) (quoted-Span s (n + 1)))
    | inr p ↦
        rw (h, p) (QuotedSpan-trans _ (Span-single c (d ∷ s) n h p) (quoted-Span (d ∷ s) (n + 1)))
  ]
]

-- Text outside quotes.
unquoted-Span :
    (s : Bytes) (n : ℕ) → Span s (unquoted store_escape s n).0 n (unquoted store_escape s n).1
unfolding unquoted
unquoted-Span [] n = Span-refl [] n
unquoted-Span (c ∷ []) n = elim (Bool-cases (c == blank || c == quote)) [
  | inl h ↦ rw h (Span-refl (c ∷ []) n)
  | inr h ↦ rw h (Span-single c [] n (ground arith) (ground arith))
]
unquoted-Span (c ∷ d ∷ s) n = elim (Bool-cases (c == blank || c == quote)) [
  | inl h ↦ rw h (Span-refl (c ∷ d ∷ s) n)
  | inr h ↦ elim (Bool-cases (c == backslash && store_escape d)) [
    | inl p ↦ rw (h, p) (Span-trans (Span-pair c d s n p) (unquoted-Span s (n + 1)))
    | inr p ↦
        rw (h, p)
          (Span-trans (Span-single c (d ∷ s) n (ground arith) p) (unquoted-Span (d ∷ s) (n + 1)))
  ]
]

abbrev pub WordSpan : Bytes → ℕ → WordEnd → Type 0
WordSpan s n (ends s' n') = Span s s' n n'
WordSpan s n past = Unit
WordSpan s n out_of_fuel = Unit

WordSpan-trans :
    {s s' : Bytes} {n n' : ℕ} (e : WordEnd) → Span s s' n n' → WordSpan s' n' e → WordSpan s n e
WordSpan-trans (ends r m) a b = Span-trans a b
WordSpan-trans past a b = tt
WordSpan-trans out_of_fuel a b = tt

next_piece-Span :
    (more : Bytes → ℕ → WordEnd) {s s' : Bytes} {n n' : ℕ}
    → Span s s' n n'
    → WordSpan s' n' (more s' n')
    → WordSpan s n (next_piece more s' n')
unfolding next_piece
next_piece-Span more {s'} {n'} a b = elim (Bool-cases (char_at s' 0 == blank)) [
  | inl h ↦ rw h a
  | inr h ↦ rw h (WordSpan-trans (more s' n') a b)
]

after_quote-Span :
    (more : Bytes → ℕ → WordEnd) (s : Bytes) (n : ℕ) (q : Quoted)
    → QuotedSpan s n q
    → ((r : Bytes) (m : ℕ) → WordSpan r m (more r m))
    → WordSpan s n (after_quote more q)
unfolding after_quote
after_quote-Span more s n (closed [] m) a b = a.0
after_quote-Span more s n (closed (c ∷ r) m) a b = next_piece-Span more a.0 (b (c ∷ r) m)
after_quote-Span more s n (unterminated m) a b = tt

-- A whole argument, as far as its loop gets.
pub word-Span : (fuel : ℕ) (s : Bytes) (n : ℕ) → WordSpan s n (word store_escape fuel s n)
unfolding word
word-Span zero s n = tt
word-Span (suc fuel) [] n = Span-refl [] n
word-Span (suc fuel) (c ∷ s) n = elim (Bool-cases (c == quote)) [
  | inr h ↦
      rw h (next_piece-Span (word store_escape fuel) (unquoted-Span (c ∷ s) n) (word-Span fuel _ _))
  | inl h ↦
      let q = quoted store_escape s n in
      rw h (
        after_quote-Span (word store_escape fuel) (c ∷ s) n q
          (QuotedSpan-trans q (Span-quote c s n h).0 (quoted-Span s n)) (word-Span fuel))
]

-- The copy of an argument has just the size that was counted for it.
pub make_arg-length :
    (s rest : Bytes) (n : ℕ)
    → Span s rest 0 n
    → length (make_arg s rest n).text ≡ (make_arg s rest n).arg_len
unfolding make_arg
make_arg-length s rest n a =
    ap length (a.runs (length s - length rest) 0 [] (omega (arith, a.shorter)))
    ∙ unfold copy in omega (arith, a.count)
