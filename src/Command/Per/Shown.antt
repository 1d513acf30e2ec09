-- ===== src/Command/Per/Shown.antt =====
-- What the loops over a range print, and what they leave in its memory.
use mathlib.Core.Option.{some-injective}
use vimgdb.Base.{
  ℕ, ◌+◌, ◌*◌, ◌/◌, ◌%◌, ◌^◌, ◌<◌, ◌≤◌, ◌≡◌, refl, ◌∙◌, sym, ap, subst, arith, Bool, true, false,
  not, ◌&&◌, List, [], ◌∷◌, ◌++◌, Option, none, some, All, Bool-cases, inl, inr, length, ◌==◌,
  lt→ltb,
}
use vimgdb.Base.Bits.{bit_and}
use vimgdb.Base.Runs.{pure, ◌>>=◌, gets, modify, and_then, Ends, bind-Ends}
use vimgdb.Common.Text.{Bytes, codes, u32}
use vimgdb.Common.Page.{Page, put, advance, tag_on, tag_off}
use vimgdb.Common.Page.Lines.{
  newlines, IsLine, newlines-IsLine, part, IsPaged, put-IsPaged, put_line-IsPaged,
  advance-IsNumbered, IsBelow,
}
use vimgdb.Command.Per.{Bits, defined, fields_fit}
use vimgdb.Command.Per.Print.{
  Formats, Screen, bit_val, coloured, titled, wrap_row, to_page, slice, swap_at, swap_content,
  field_text, put_bits, put_fields,
}
use vimgdb.Command.Per.Swapped.{swap_at_lem}

-- `printf` writes no newline into a number.
abbrev pub IsInline : Formats → Type 0
IsInline fmt = (n x : ℕ) → IsLine (fmt.hex n x)

-- The window is printed down to a line at `n` or below, the sections and the registers stand at lines that rise, and
-- the memory holds `content`.
pub record IsShown (n : ℕ) (content : Bytes) (s : Screen) : Type 0 where
  pub paged : IsPaged n s.page
  pub secs : IsBelow s.line_secs n
  pub regs : IsBelow s.line_regs n
  pub same : s.content ≡ content

-- A field starts in the lower 32 bits, and its name is part of a line.
abbrev pub IsNarrow : Bits → Type 0
IsNarrow b = (b.idx < 32) × IsLine b.name

pub defined-Ends :
    {S A : Type 0} (P : A → S → Type 0) (o : Option A) (a : A) (s : S)
    → o ≡ some a
    → P a s
    → Ends P (defined o s)
unfolding defined pure
defined-Ends P none a s e h = cc
defined-Ends P (some b) a s e h = subst (λ b. P b s) (sym (some-injective b a e)) h

pub to_page-Ends :
    (n : ℕ) (c : Bytes) (g : Page → Page) (s : Screen)
    → IsShown n c s
    → IsPaged n (g s.page)
    → Ends (λ _ t. IsShown n c t) (to_page g s)
unfolding to_page modify
to_page-Ends n c g s h k = record { paged = k; secs = h.secs; regs = h.regs; same = h.same }

wrap_row-IsPaged : (n i : ℕ) (p : Page) → IsPaged n p → IsPaged n (wrap_row i p)
unfolding wrap_row
wrap_row-IsPaged n i p h = elim (Bool-cases (not (i == 0) && (i % 4 == 0))) [
  | inl e ↦ rw e (put_line-IsPaged n (10 ∷ []) p refl h).0
  | inr e ↦ rw e h
]

pub coloured-newlines : (m : Bool) (t : Bytes) → IsLine t → newlines (coloured m t) ≡ 0
unfolding coloured
coloured-newlines false t h = newlines-IsLine t h
coloured-newlines true t h =
    part (tag_on (codes "c") ++ t) (tag_off (codes "c")) 0
      (part (tag_on (codes "c")) t 0 refl (newlines-IsLine t h)) refl

bit_val-some : (v : ℕ) (b : Bits) → b.idx < 32 → (x : ℕ) × (bit_val v b ≡ some x)
unfolding bit_val
bit_val-some v b h =
    (bit_and 64 v (u32 (b.mask * 2 ^ b.idx)) / 2 ^ b.idx, rw (lt→ltb b.idx 32 h) refl)

two_lines-IsPaged : (n : ℕ) (p : Page) → IsPaged n p → IsPaged n (advance 2 (put (10 ∷ 10 ∷ []) p))
unfolding advance put
two_lines-IsPaged n p h = record {
  numbered = advance-IsNumbered (10 ∷ 10 ∷ []) 2 p refl h.numbered;
  behind = omega (arith, h.behind);
}

module _ (fmt : Formats) (f : IsInline fmt) where
  field_text-newlines : (b : Bits) (x : ℕ) → IsLine b.name → newlines (field_text fmt b x) ≡ 0
  unfolding field_text
  field_text-newlines b x h =
      part (codes "   " ++ tag_on (codes "h3") ++ b.name ++ tag_off (codes "h3 "))
        (coloured (not (x == b.value)) (fmt.hex (u32 (b.nbits + 3) / 4) x)) 0
        (part (codes "   " ++ tag_on (codes "h3") ++ b.name) (tag_off (codes "h3 ")) 0
          (part (codes "   " ++ tag_on (codes "h3")) b.name 0 refl (newlines-IsLine b.name h)) refl)
        (coloured-newlines (not (x == b.value)) _ (f (u32 (b.nbits + 3) / 4) x))

  -- The fields that are left behind differ from those before in their values only.
  abbrev pub AreFields : ℕ → Bytes → ℕ → List Bits → List Bits → Screen → Type 0
  AreFields n c nbytes bits l s =
      IsShown n c s × All IsNarrow l × (fields_fit nbytes l ≡ fields_fit nbytes bits)

  put_bits-Ends :
      (v i n nbytes : ℕ) (c : Bytes) (bits : List Bits) (s : Screen)
      → All IsNarrow bits
      → IsShown n c s
      → Ends (AreFields n c nbytes bits) (put_bits fmt v i bits s)
  unfolding put_bits pure
  put_bits-Ends v i n nbytes c [] s a h = (h, tt, refl)
  put_bits-Ends v i n nbytes c (b ∷ bits) s a h =
      let (x, e) = bit_val-some v b a.0.0 in
      bind-Ends (λ _ t. IsShown n c t) (AreFields n c nbytes (b ∷ bits)) (to_page (wrap_row i)) _ s
        (to_page-Ends n c (wrap_row i) s h (wrap_row-IsPaged n i s.page h.paged))
        (λ _ s h.
          bind-Ends (λ y t. IsShown n c t) (AreFields n c nbytes (b ∷ bits)) (defined (bit_val v b))
            _ s (defined-Ends (λ y t. IsShown n c t) (bit_val v b) x s e h)
            (λ x s h.
              bind-Ends (λ _ t. IsShown n c t) (AreFields n c nbytes (b ∷ bits))
                (to_page (put (field_text fmt b x))) _ s
                (to_page-Ends n c (put (field_text fmt b x)) s h (
                  put-IsPaged n (field_text fmt b x) s.page (field_text-newlines b x a.0.1)
                    h.paged))
                (λ _ s h.
                  bind-Ends (AreFields n c nbytes bits) (AreFields n c nbytes (b ∷ bits))
                    (put_bits fmt v (i + 1) bits) _ s
                    (put_bits-Ends v (i + 1) n nbytes c bits s a.1 h)
                    (λ l s k. (k.0, (a.0, k.1), unfold fields_fit in rw k.2 refl)))))

  pub put_fields-Ends :
      (at m n nbytes : ℕ) (c : Bytes) (bits : List Bits) (s : Screen)
      → All IsNarrow bits
      → IsShown n c s
      → Ends (AreFields n c nbytes bits) (put_fields fmt at m bits s)
  unfolding put_fields gets pure ◌>>=◌ and_then
  put_fields-Ends at m n nbytes c [] s a h = (h, tt, refl)
  put_fields-Ends at m n nbytes c (b ∷ bits) s a h =
      bind-Ends (AreFields n c nbytes (b ∷ bits)) (AreFields n c nbytes (b ∷ bits))
        (put_bits fmt (fmt.strtoll (slice at m s.content)) 0 (b ∷ bits)) _ s
        (put_bits-Ends (fmt.strtoll (slice at m s.content)) 0 n nbytes c (b ∷ bits) s a h)
        (λ l s k.
          bind-Ends (λ _ t. IsShown n c t) (AreFields n c nbytes (b ∷ bits))
            (to_page (λ p. advance 2 (put (10 ∷ 10 ∷ []) p))) _ s
            (to_page-Ends n c (λ p. advance 2 (put (10 ∷ 10 ∷ []) p)) s k.0
              (two_lines-IsPaged n s.page k.0.paged))
            (λ _ s h. (h, k.1, k.2)))

pub titled-newlines :
    (name desc : Bytes) → IsLine name → IsLine desc → newlines (titled name desc) ≡ 0
unfolding titled
titled-newlines name [] h k = newlines-IsLine name h
titled-newlines name (c ∷ desc) h k =
    part (name ++ codes " - ") (c ∷ desc) 0
      (part name (codes " - ") 0 (newlines-IsLine name h) refl) (newlines-IsLine (c ∷ desc) k)

-- What is turned around once, and turned back.
pub record Turns (swap : Bool) (at m : ℕ) (c t : Bytes) : Type 0 where
  pub there :
      (s : Screen)
      → s.content ≡ c
      → Ends (λ _ u. u ≡ record s { content = t }) (swap_content swap at m s)
  pub back :
      (s : Screen)
      → s.content ≡ t
      → Ends (λ _ u. u ≡ record s { content = c }) (swap_content swap at m s)
  pub plain : IsLine t

swap_content-Ends :
    (at m : ℕ) (c t : Bytes) (s : Screen)
    → swap_at at m c ≡ some t
    → s.content ≡ c
    → Ends (λ _ u. u ≡ record s { content = t }) (swap_content true at m s)
unfolding swap_content gets modify ◌>>=◌ and_then
swap_content-Ends at m c t s e h =
    bind-Ends (λ x u. (x ≡ t) × (u ≡ s)) (λ _ u. u ≡ record s { content = t })
      (defined (swap_at at m s.content)) _ s
      (defined-Ends (λ x u. (x ≡ t) × (u ≡ s)) (swap_at at m s.content) t s
        (ap (swap_at at m) h ∙ e) (refl, refl))
      (λ x u k. rw (k.0, k.1) refl)

same_content : (c : Bytes) (s : Screen) → s.content ≡ c → s ≡ record s { content = c }
same_content c s h = ap (λ c. record s { content = c }) h

pub swap_content-Turns :
    (swap : Bool) (at k : ℕ) (c : Bytes)
    → at + k * 2 ≤ length c
    → IsLine c
    → (t : Bytes) × Turns swap at (k * 2) c t
unfolding swap_content pure
swap_content-Turns false at k c h l =
    (c, record { there = same_content c; back = same_content c; plain = l })
swap_content-Turns true at k c h l =
    let (t, r) = swap_at_lem c at k h l in
    (
      t,
      record {
        there = λ s h. swap_content-Ends at (k * 2) c t s r.there h;
        back = λ s h. swap_content-Ends at (k * 2) t c s r.back h;
        plain = r.plain;
      },
    )
