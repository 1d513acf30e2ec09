-- ===== src/Command/Per/Kept.antt =====
-- The registers and the sections of a range, printed with no read outside of its memory, which is
-- left as it was.
use vimgdb.Base.{
  ℕ, suc, ◌+◌, ◌*◌, ◌^◌, ◌<◌, ◌≤◌, ◌≡◌, refl, sym, subst, arith, Bool, true, false, not, List, [],
  ◌∷◌, ◌++◌, All, Bool-cases, inl, inr, length, ◌==◌, le→leb,
}
use vimgdb.Base.Maps.{bytes_same}
use vimgdb.Base.Runs.{pure, ◌>>=◌, gets, modify, and_then, Ends, Ends-then, bind-Ends}
use vimgdb.Common.Text.{Bytes, codes, u32}
use vimgdb.Common.Page.{put_line, tag_on, tag_off}
use vimgdb.Common.Page.Lines.{newlines, IsLine, part, IsPaged, put_line-IsPaged, IsBelow}
use vimgdb.Command.Per.{Bits, Register, Section, fields_fit, register_fits}
use vimgdb.Command.Per.Print.{
  Formats, Screen, coloured, titled, to_page, slice, swap_content, put_fields, headline_text,
  register_text, put_value, is_inside, put_inside, put_headline, put_register, byte_swap_cond,
}
use vimgdb.Command.Per.Swapped.{IsLine-slice}
use vimgdb.Command.Per.Shown.{
  IsInline, IsShown, IsNarrow, AreFields, put_fields-Ends, swap_content-Turns, titled-newlines,
  coloured-newlines,
}

-- A register that passes the checks of `Per` in a range of `size` bytes, with no sum that wraps
-- around; its texts are parts of a line.
pub record IsFit (size : ℕ) (reg : Register) : Type 0 where
  pub fits : register_fits size reg ≡ true
  pub small : reg.offset + reg.nbytes < 2 ^ 32
  pub narrow : All IsNarrow reg.bits
  pub named : IsLine reg.name
  pub described : IsLine reg.desc

abbrev pub AreFit : ℕ → List (ℕ × Register) → Type 0
AreFit size = All (λ (p, reg). IsFit size reg)

abbrev pub IsFitSection : ℕ → Section → Type 0
IsFitSection size sec = IsLine sec.name × AreFit size sec.regs

register_text-newlines :
    (fmt : Formats) (size : ℕ) (reg : Register) (m : Bool) (t : Bytes)
    → IsFit size reg
    → IsLine t
    → newlines (register_text fmt reg m t) ≡ 1
unfolding register_text
register_text-newlines fmt size reg m t r h =
    part
      (codes "  "
        ++ tag_on (codes "h2")
        ++ titled reg.name reg.desc
        ++ tag_off (codes "h2 = ")
        ++ coloured m t)
      (10 ∷ []) 1
      (part
        (codes "  " ++ tag_on (codes "h2") ++ titled reg.name reg.desc ++ tag_off (codes "h2 = "))
        (coloured m t) 0
        (part (codes "  " ++ tag_on (codes "h2") ++ titled reg.name reg.desc)
          (tag_off (codes "h2 = ")) 0
          (part (codes "  " ++ tag_on (codes "h2")) (titled reg.name reg.desc) 0 refl
            (titled-newlines reg.name reg.desc r.named r.described))
          refl)
        (coloured-newlines m t h))
      refl

headline_text-newlines :
    (fmt : Formats) (size : ℕ) (reg : Register)
    → IsFit size reg
    → newlines (headline_text fmt reg) ≡ 1
unfolding headline_text
headline_text-newlines fmt size reg r =
    part (b' ' ∷ tag_on (codes "h1") ++ titled reg.name reg.desc ++ tag_off (codes "h1")) (10 ∷ [])
      1
      (part (b' ' ∷ tag_on (codes "h1") ++ titled reg.name reg.desc) (tag_off (codes "h1")) 0
        (part (b' ' ∷ tag_on (codes "h1")) (titled reg.name reg.desc) 0 refl
          (titled-newlines reg.name reg.desc r.named r.described))
        refl)
      refl

inside :
    (size : ℕ) (reg : Register)
    → (reg.nbytes == 0) ≡ false
    → IsFit size reg
    → reg.offset + reg.nbytes ≤ size
unfolding register_fits
inside size reg e r = ground (arith, r.fits, r.small)

-- An object is registered at the next line, which is at `n` or below.
pub record IsOpen (n : ℕ) (content : Bytes) (s : Screen) : Type 0 where
  pub paged : IsPaged n s.page
  pub secs : IsBelow s.line_secs (suc n)
  pub regs : IsBelow s.line_regs (suc n)
  pub same : s.content ≡ content

pub put_line-Ends :
    (n : ℕ) (d t : Bytes) (s : Screen)
    → IsOpen n d s
    → newlines t ≡ 1
    → Ends (λ _ s. IsShown (suc n) d s) (to_page (put_line t) s)
unfolding to_page modify
put_line-Ends n d t s h k =
    let (p, m) = put_line-IsPaged n t s.page k h.paged in
    record {
      paged = record { numbered = p.numbered; behind = m };
      secs = h.secs;
      regs = h.regs;
      same = h.same;
    }

opened : (n : ℕ) (c t : Bytes) (s : Screen) → IsOpen n c s → IsOpen n t (record s { content = t })
opened n c t s h = record { paged = h.paged; secs = h.secs; regs = h.regs; same = refl }

closed : (n : ℕ) (c t : Bytes) (s : Screen) → IsShown n t s → IsShown n c (record s { content = c })
closed n c t s h = record { paged = h.paged; secs = h.secs; regs = h.regs; same = refl }

-- A register that is left fit, and the memory as it was.
abbrev pub Left : (c : Bytes) (size n : ℕ) → Register → Screen → Type 0
Left c size n reg s = IsShown n c s × IsFit size reg

refit :
    (size : ℕ) (reg : Register) (bits : List Bits)
    → IsFit size reg
    → All IsNarrow bits
    → fields_fit reg.nbytes bits ≡ fields_fit reg.nbytes reg.bits
    → IsFit size (record reg { bits = bits })
refit size reg bits r a e = record {
  fits = (unfold register_fits in rw e r.fits);
  small = r.small;
  narrow = a;
  named = r.named;
  described = r.described;
}

module _ (fmt : Formats) (f : IsInline fmt) (size : ℕ) (c old : Bytes) (big : size < 2 ^ 31)
    (long : size * 2 ≤ length c) (before : size * 2 ≤ length old) (l : IsLine c) where
  put_value-Ends :
      (swap : Bool) (reg : Register) (at k n : ℕ) (s : Screen)
      → at + k * 2 ≤ length c
      → IsFit size reg
      → IsOpen n c s
      → Ends (Left c size (suc n)) (put_value fmt swap old reg at (k * 2) s)
  unfolding put_value gets pure ◌>>=◌ and_then
  put_value-Ends swap reg at k n s i r h =
      let (t, w) = swap_content-Turns swap at k c i l in
      let m : Bool = not (bytes_same (slice at (k * 2) s.content) (slice at (k * 2) old)) in
      bind-Ends (λ _ s. IsOpen n t s) (Left c size (suc n)) (swap_content swap at (k * 2)) _ s
        (Ends-then (λ _ u. u ≡ record s { content = t }) (λ _ s. IsOpen n t s) _ (w.there s h.same)
          (λ _ u e. subst (IsOpen n t) (sym e) (opened n c t s h)))
        (λ _ s h.
          bind-Ends (λ _ s. IsShown (suc n) t s) (Left c size (suc n))
            (to_page (put_line (register_text fmt reg m (slice at (k * 2) s.content)))) _ s
            (put_line-Ends n t _ s h (
              register_text-newlines fmt size reg m (slice at (k * 2) s.content) r
                (IsLine-slice at (k * 2) s.content (subst IsLine (sym h.same) w.plain))))
            (λ _ s h.
              bind-Ends (AreFields fmt f (suc n) t reg.nbytes reg.bits) (Left c size (suc n))
                (put_fields fmt at (k * 2) reg.bits) _ s
                (put_fields-Ends fmt f at (k * 2) (suc n) reg.nbytes t reg.bits s r.narrow h)
                (λ bits s a.
                  bind-Ends (λ _ s. IsShown (suc n) c s) (Left c size (suc n))
                    (swap_content swap at (k * 2)) _ s
                    (Ends-then (λ _ u. u ≡ record s { content = c }) (λ _ s. IsShown (suc n) c s) _
                      (w.back s a.0.same)
                      (λ _ u e. subst (IsShown (suc n) c) (sym e) (closed (suc n) c t s a.0)))
                    (λ _ s h. (h, refit size reg bits r a.1 a.2)))))

  -- Behind the checks, the digits of a register lie inside of both contents.
  pub put_register-Ends :
      (end_little : Bool) (reg : Register) (n : ℕ) (s : Screen)
      → IsFit size reg
      → IsOpen n c s
      → Ends (Left c size (suc n)) (put_register fmt end_little old reg s)
  unfolding put_register put_inside put_headline pure
  put_register-Ends end_little reg n s r h = elim (Bool-cases (reg.nbytes == 0)) [
    | inl e ↦ rw e (
        bind-Ends (λ _ s. IsShown (suc n) c s) (Left c size (suc n))
          (to_page (put_line (headline_text fmt reg))) _ s
          (put_line-Ends n c (headline_text fmt reg) s h (headline_text-newlines fmt size reg r))
          (λ _ s h. (h, r)))
    | inr e ↦
        let b : reg.offset + reg.nbytes ≤ size = inside size reg e r in
        let at : u32 (reg.offset * 2) ≡ reg.offset * 2 = omega (arith, b, big) in
        let k : u32 (reg.nbytes * 2) ≡ reg.nbytes * 2 = omega (arith, b, big) in
        let i : is_inside (reg.offset * 2) (reg.nbytes * 2) s.content old ≡ true =
          rw
            (
              h.same,
              le→leb (reg.offset * 2 + reg.nbytes * 2) (length c) (omega (arith, b, long)),
              le→leb (reg.offset * 2 + reg.nbytes * 2) (length old) (omega (arith, b, before)),
            )
            refl in
        rw (e, at, k, i)
          (put_value-Ends (byte_swap_cond reg.opt end_little) reg (reg.offset * 2) reg.nbytes n s
            (omega (arith, b, long)) r h)
  ]
