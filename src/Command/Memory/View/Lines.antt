-- ===== src/Command/Memory/View/Lines.antt =====
-- What `cmd_memory_update` prints, against the lines at which it registers the segments.
use vimgdb.Base.{
  ℕ, ◌+◌, ◌*◌, ◌<◌, ◌≤◌, ◌≡◌, refl, ◌∙◌, sym, ap, subst, length, append-nil, Bool, true, false,
  List, [], ◌∷◌, ◌++◌, Option, none, some, arith, All, All-append, ◌^◌, Bool-cases, inl, inr,
  append_assoc,
}
use vimgdb.Common.Text.{Bytes, u32}
use vimgdb.Common.LineMap.Find.{items, items-add}
use vimgdb.Common.LineMap.{clear}
use vimgdb.Common.Page.{mark}
use vimgdb.Common.Page.Lines.{IsLine, IsNumbered, blank-IsNumbered, IsBelow, mark-IsBelow}
use vimgdb.Gui.Interface.{Gui}
use vimgdb.Gdb.Events.{Handlers}
use vimgdb.Command.Memory.{Memory, Formats, dump}
use vimgdb.Command.Memory.Paged.{IsInline, dump-IsPaged}
use vimgdb.Command.Memory.Roomy.{dump-Roomy}
use vimgdb.Command.Memory.View.{
  Segments, Memories, Reads, Calls, Chunk, refresh, Shown, show, shown, register, enough,
  align_memory, fresh_memory,
}

abbrev pub pointers : Segments → List ℕ
pointers [] = []
pointers ((p, mem) ∷ lst) = p ∷ pointers lst

-- The buffer for the characters of a line has room for each segment.
abbrev pub IsWide : ℕ → Segments → Type 0
IsWide len = All (λ (p, mem). (0 < mem.alignment) × (mem.alignment * 2 + 1 ≤ len))

-- gdb writes no newline into the digits of the memory.
abbrev pub IsPlain : {G : Type 0} → Reads G → Type 0
IsPlain {G} read =
    (at : Bytes) (n : ℕ) (g : G) (m : Chunk) → (read at n g).0 ≡ some m → IsLine m.content

-- The window that is printed: the pointers `before` stand at lines that rise, each above what is
-- printed next; the number of the next line is counted; no write went behind `asciib`.
pub record IsShown {G : Type 0} (len : ℕ) (before : List ℕ) (v : Shown G) : Type 0 where
  pub registered : items v.line_mems ≡ before
  pub placed : IsBelow v.line_mems v.text.page.line
  pub numbered : IsNumbered v.text.page
  pub inside : v.text.fits ≡ true
  pub size : v.text.asciib_len ≡ len

module _ {G : Type 0} (read : Reads G) (fmt : Formats) (f : IsInline fmt)
    (plain : IsPlain read) where
  segment-IsShown :
      (len p : ℕ) (mem : Memory) (m : Chunk) (g : G) (before : List ℕ) (v : Shown G)
      → 0 < mem.alignment
      → mem.alignment * 2 + 1 ≤ len
      → IsLine m.content
      → IsShown len before v
      → IsShown len (before ++ p ∷ []) (record {
        printed = v.printed ++ (p, refresh m mem) ∷ [];
        line_mems = mark v.text.page p v.line_mems;
        text = dump fmt (refresh m mem) v.text;
        gdb = g;
      })
  unfolding refresh mark
  segment-IsShown len p mem m g before v pos wide c h =
      let paged = dump-IsPaged fmt f (refresh m mem) v.text c h.numbered in
      let (n, r) =
        dump-Roomy mem.alignment len wide pos fmt (refresh m mem) refl (length v.text.ascii) v.text
          (record { inside = h.inside; filled = refl; size = h.size }) in
      record {
        registered = items-add v.line_mems v.text.page.line p ∙ ap (λ l. l ++ p ∷ []) h.registered;
        placed = mark-IsBelow v.text.page p v.line_mems _ (omega (arith, paged.behind)) h.placed;
        numbered = paged.numbered;
        inside = r.inside;
        size = r.size;
      }

  show-IsShown :
      (len : ℕ) (lst : Segments) (before : List ℕ) (v : Shown G)
      → IsWide len lst
      → IsShown len before v
      → (show read fmt lst v).0 ≡ true
      → IsShown len (before ++ pointers lst) (show read fmt lst v).1
  unfolding show
  show-IsShown len [] before v w h = λ e. subst (λ l. IsShown len l v) (sym (append-nil before)) h
  show-IsShown len ((p, mem) ∷ lst) before v w h =
      by_answer
        (λ v h e.
          subst (λ l. IsShown len l (show read fmt lst v).1)
            (append_assoc before (p ∷ []) (pointers lst))
            (show-IsShown len lst (before ++ p ∷ []) v w.1 h e))
        (read mem.begin mem.length v.gdb).0 refl
    where
      Next : Bool × Shown G → Type 0
      Next r = r.0 ≡ true → IsShown len (before ++ p ∷ pointers lst) r.1

      by_answer :
          ((v : Shown G) → IsShown len (before ++ p ∷ []) v → Next (show read fmt lst v))
          → (m : Option Chunk) → (read mem.begin mem.length v.gdb).0 ≡ m
          → let g : G = (read mem.begin mem.length v.gdb).1 in
            Next (elim m as (λ _. Bool × Shown G) [
              | none ↦ (false, record v { gdb = g; printed = v.printed ++ (p, mem) ∷ lst })
              | some m ↦ show read fmt lst (record v {
                printed = v.printed ++ (p, refresh m mem) ∷ [];
                line_mems = mark v.text.page p v.line_mems;
                text = dump fmt (refresh m mem) v.text;
                gdb = g;
              })
            ])
      by_answer more none q = λ e. cc
      by_answer more (some m) q = more _ (
          segment-IsShown len p mem m _ before v w.0.0 w.0.1 (plain mem.begin mem.length v.gdb m q)
            h)

module _ {G U : Type 0} (ui : Gui U) (calls : Calls G) (fmt : Formats)
    (h : Handlers (Memories G U)) where
  -- Where gdb reads all segments, the window shows each of them: they are registered in their order
  -- at ascending lines above the next one, the number of which the newlines of the text count; and
  -- no byte is written behind the buffer for the characters, if it has room for a line of every
  -- segment with each character escaped.
  pub shown-IsShown :
      (s : Memories G U)
      → IsInline fmt
      → IsPlain calls.read
      → IsWide s.asciib_len s.mem_lst
      → (shown ui calls fmt h s).0 ≡ true
      → IsShown s.asciib_len (pointers s.mem_lst) (shown ui calls fmt h s).1
  unfolding shown clear
  shown-IsShown s f plain w e =
      show-IsShown calls.read fmt f plain s.asciib_len s.mem_lst [] _ w
        (record {
          registered = refl;
          placed = record { rising = tt; below = tt };
          numbered = blank-IsNumbered;
          inside = refl;
          size = refl;
        })
        e

  -- A new segment, with an alignment below 2^31 if it has one of its own, leaves the buffer with
  -- room for a line of every segment, where only numbers above zero are taken for powers of two.
  pub register-IsWide :
      (args : List Bytes) (m : Chunk) (s : Memories G U)
      → ((n : ℕ) → calls.is_pwr2 n ≡ true → 0 < n)
      → All (λ arg. u32 (calls.strtol arg) < 2 ^ 31) args
      → 17 ≤ s.asciib_len
      → IsWide s.asciib_len s.mem_lst
      → let t : Memories G U =
          register ui calls fmt h args
            (align_memory ui calls fmt h args (fresh_memory ui calls fmt h m))
            s in
        IsWide t.asciib_len t.mem_lst
  unfolding register enough align_memory fresh_memory
  register-IsWide [] m s pos small l w =
      All-append (λ (p, m). (0 < m.alignment) × (m.alignment * 2 + 1 ≤ s.asciib_len)) s.mem_lst _ w
        ((omega arith, omega arith), tt)
  register-IsWide (arg ∷ args) m s pos small l w =
      elim (Bool-cases (calls.is_pwr2 (u32 (calls.strtol arg)))) [
        | inl e ↦ rw e (wide (u32 (calls.strtol arg)) (pos (u32 (calls.strtol arg)) e) small.0)
        | inr e ↦ rw e (wide 8 (omega arith) (omega arith))
      ]
    where
      wide :
          (al : ℕ)
          → 0 < al
          → al < 2 ^ 31
          → IsWide (enough (arg ∷ args) al s.asciib_len) (
              s.mem_lst
              ++ (
                s.fresh,
                record {
                  begin = m.begin;
                  content = m.content;
                  content_old = [];
                  length = m.length;
                  alignment = al;
                  expanded = true;
                },
              )
                ∷ [])
      wide al pos small =
          All-append
            (λ (p, m).
              (0 < m.alignment) × (m.alignment * 2 + 1 ≤ enough (arg ∷ args) al s.asciib_len))
            s.mem_lst _ (wider s.mem_lst w) ((pos, ground arith), tt)
        where
          wider :
              (lst : Segments)
              → IsWide s.asciib_len lst
              → IsWide (enough (arg ∷ args) al s.asciib_len) lst
          wider [] a = tt
          wider ((p, m) ∷ lst) a = ((a.0.0, ground (arith, a.0.1)), wider lst a.1)
