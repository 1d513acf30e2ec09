-- ===== src/Command/Per/Sections.antt =====
-- The sections of a range with their registers.
use vimgdb.Base.{
  ℕ, suc, ◌*◌, ◌^◌, ◌<◌, ◌≤◌, ◌≡◌, refl, arith, Bool, true, false, List, [], ◌∷◌, ◌++◌, All,
  Bool-cases, inl, inr, length, if◌then◌else◌,
}
use vimgdb.Base.Runs.{pure, ◌>>=◌, modify, and_then, Ends, bind-Ends}
use vimgdb.Common.Text.{Bytes, codes}
use vimgdb.Common.Page.{put_line, mark, tag_on, tag_off}
use vimgdb.Common.Page.Lines.{newlines, IsLine, newlines-IsLine, part, IsBelow-later, mark-IsBelow}
use vimgdb.Command.Per.{Register, Section}
use vimgdb.Command.Per.Print.{
  Formats, Screen, to_page, put_register, put_registers, section_text, put_body, put_section,
  put_sections,
}
use vimgdb.Command.Per.Shown.{IsInline, IsShown}
use vimgdb.Command.Per.Kept.{AreFit, IsFitSection, IsOpen, put_line-Ends, Left, put_register-Ends}

module _ (c : Bytes) where
  -- The window is printed down to its next line.
  abbrev pub IsKept : Screen → Type 0
  IsKept s = IsShown s.page.line c s

  settled : (n : ℕ) (s : Screen) → IsShown n c s → IsKept s
  settled n s h = record {
    paged = record { numbered = h.paged.numbered; behind = omega arith };
    secs = IsBelow-later s.line_secs n s.page.line h.paged.behind h.secs;
    regs = IsBelow-later s.line_regs n s.page.line h.paged.behind h.regs;
    same = h.same;
  }

  marked_reg :
      (p : ℕ) (s : Screen)
      → IsKept s
      → IsOpen s.page.line c (record s { line_regs = mark s.page p s.line_regs })
  marked_reg p s h = record {
    paged = h.paged;
    secs = IsBelow-later s.line_secs s.page.line (suc s.page.line) (omega arith) h.secs;
    regs = mark-IsBelow s.page p s.line_regs (suc s.page.line) (omega arith) h.regs;
    same = h.same;
  }

  marked_sec :
      (p : ℕ) (s : Screen)
      → IsKept s
      → IsOpen s.page.line c (record s { line_secs = mark s.page p s.line_secs })
  marked_sec p s h = record {
    paged = h.paged;
    secs = mark-IsBelow s.page p s.line_secs (suc s.page.line) (omega arith) h.secs;
    regs = IsBelow-later s.line_regs s.page.line (suc s.page.line) (omega arith) h.regs;
    same = h.same;
  }

  unmarked : (s : Screen) → IsKept s → IsOpen s.page.line c s
  unmarked s h = record {
    paged = h.paged;
    secs = IsBelow-later s.line_secs s.page.line (suc s.page.line) (omega arith) h.secs;
    regs = IsBelow-later s.line_regs s.page.line (suc s.page.line) (omega arith) h.regs;
    same = h.same;
  }

module _ (fmt : Formats) (f : IsInline fmt) (size : ℕ) (c old : Bytes) (big : size < 2 ^ 31)
    (long : size * 2 ≤ length c) (before : size * 2 ≤ length old) (l : IsLine c) where
  put_registers-Ends :
      (end_little : Bool) (regs : List (ℕ × Register)) (s : Screen)
      → AreFit size regs
      → IsKept c s
      → Ends (λ l s. IsKept c s × AreFit size l) (put_registers fmt end_little old regs s)
  unfolding put_registers modify pure ◌>>=◌ and_then
  put_registers-Ends end_little [] s a h = (h, tt)
  put_registers-Ends end_little ((p, reg) ∷ regs) s a h =
      bind-Ends (Left c size (suc s.page.line)) (λ l s. IsKept c s × AreFit size l)
        (put_register fmt end_little old reg) _ _
        (put_register-Ends fmt f size c old big long before l end_little reg s.page.line _ a.0
          (marked_reg c p s h))
        (λ reg t k.
          bind-Ends (λ l s. IsKept c s × AreFit size l) (λ l s. IsKept c s × AreFit size l)
            (put_registers fmt end_little old regs) _ t
            (put_registers-Ends end_little regs t a.1 (settled c (suc s.page.line) t k.0))
            (λ l s m. (m.0, (k.1, m.1))))

  section_text-newlines : (sec : Section) → IsLine sec.name → newlines (section_text fmt sec) ≡ 1
  unfolding section_text
  section_text-newlines sec h = elim (Bool-cases sec.expanded) [
    | inl e ↦ rw e (around b'-' refl)
    | inr e ↦ rw e (around b'+' refl)
  ]
    where
      around :
          (x : ℕ)
          → newlines (b'[' ∷ x ∷ codes "] " ++ tag_on (codes "h0")) ≡ 0
          → newlines (
              b'[' ∷ x ∷ codes "] "
              ++ tag_on (codes "h0")
              ++ sec.name
              ++ tag_off (codes "h0")
              ++ 10 ∷ [])
            ≡ 1
      around x e =
          part (b'[' ∷ x ∷ codes "] " ++ tag_on (codes "h0") ++ sec.name ++ tag_off (codes "h0"))
            (10 ∷ []) 1
            (part (b'[' ∷ x ∷ codes "] " ++ tag_on (codes "h0") ++ sec.name) (tag_off (codes "h0"))
              0
              (part (b'[' ∷ x ∷ codes "] " ++ tag_on (codes "h0")) sec.name 0 e
                (newlines-IsLine sec.name h))
              refl)
            refl

  put_body-Ends :
      (end_little : Bool) (sec : Section) (s : Screen)
      → IsFitSection size sec
      → IsKept c s
      → Ends (λ sec s. IsKept c s × IsFitSection size sec) (put_body fmt end_little old sec s)
  unfolding put_body pure
  put_body-Ends end_little sec s a h =
      bind-Ends (λ l s. IsKept c s × AreFit size l) (λ sec s. IsKept c s × IsFitSection size sec)
        (if sec.expanded then put_registers fmt end_little old sec.regs else pure sec.regs) _ s
        (by_fold sec.expanded)
        (λ l t m.
          bind-Ends (λ _ v. IsShown (suc t.page.line) c v)
            (λ sec s. IsKept c s × IsFitSection size sec) (to_page (put_line (10 ∷ [])))
            (λ _. pure (record sec { regs = l })) t
            (put_line-Ends t.page.line c (10 ∷ []) t (unmarked c t m.0) refl)
            (λ _ v q. (settled c (suc t.page.line) v q, (a.0, m.1))))
    where
      by_fold :
          (b : Bool)
          → Ends
              (λ l s. IsKept c s × AreFit size l)
              ((if b then put_registers fmt end_little old sec.regs else pure sec.regs) s)
      by_fold true = put_registers-Ends end_little sec.regs s a.1 h
      by_fold false = (h, a.1)

  put_section-Ends :
      (end_little : Bool) (p : ℕ) (sec : Section) (s : Screen)
      → IsFitSection size sec
      → IsKept c s
      → Ends (λ sec s. IsKept c s × IsFitSection size sec) (put_section fmt end_little old p sec s)
  unfolding put_section modify ◌>>=◌ and_then
  put_section-Ends end_little p sec s a h =
      bind-Ends (λ _ t. IsShown (suc s.page.line) c t) (λ sec s. IsKept c s × IsFitSection size sec)
        (to_page (put_line (section_text fmt sec))) (λ _. put_body fmt end_little old sec) _
        (put_line-Ends s.page.line c (section_text fmt sec) _ (marked_sec c p s h)
          (section_text-newlines sec a.0))
        (λ _ t k. put_body-Ends end_little sec t a (settled c (suc s.page.line) t k))

  -- Every section is printed, with no read outside of the memory, at lines that rise; the memory is
  -- left as it was, and the registers fit as before.
  pub put_sections-Ends :
      (end_little : Bool) (secs : List (ℕ × Section)) (s : Screen)
      → All (λ (p, sec). IsFitSection size sec) secs
      → IsKept c s
      → Ends
          (λ l s. IsKept c s × All (λ (p, sec). IsFitSection size sec) l)
          (put_sections fmt end_little old secs s)
  unfolding put_sections pure
  put_sections-Ends end_little [] s a h = (h, tt)
  put_sections-Ends end_little ((p, sec) ∷ secs) s a h =
      bind-Ends (λ sec s. IsKept c s × IsFitSection size sec)
        (λ l s. IsKept c s × All (λ (p, sec). IsFitSection size sec) l)
        (put_section fmt end_little old p sec) _ s (put_section-Ends end_little p sec s a.0 h)
        (λ sec t k.
          bind-Ends (λ l s. IsKept c s × All (λ (p, sec). IsFitSection size sec) l)
            (λ l s. IsKept c s × All (λ (p, sec). IsFitSection size sec) l)
            (put_sections fmt end_little old secs) _ t (put_sections-Ends end_little secs t a.1 k.0)
            (λ l s m. (m.0, (k.1, m.1))))
