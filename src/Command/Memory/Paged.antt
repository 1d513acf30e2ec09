-- ===== src/Command/Memory/Paged.antt =====
-- The lines of a dump are counted.
use vimgdb.Base.{
  ℕ, zero, suc, ◌+◌, ◌-◌, ◌*◌, ◌/◌, ◌≡◌, ◌≢◌, refl, Bool, true, false, not, [], ◌∷◌, ◌++◌, ◌==◌,
  ltb, if◌then◌else◌, length, take, drop, arith, All, All-append, Bool-cases, inl, inr,
}
use vimgdb.Base.Maps.{bytes_same}
use vimgdb.Common.Text.{Bytes, codes}
use vimgdb.Common.Escape.{strescape}
use vimgdb.Common.Escape.RoundTrip.{Printable, strescape-Printable}
use vimgdb.Common.Page.{tag_on, tag_off, put, advance, put_line, repeat}
use vimgdb.Common.Page.Lines.{
  IsPaged, put-IsPaged, put_line-IsPaged, part, newlines, IsLine, newlines-IsLine, IsNumbered,
  put_line-IsNumbered,
}
use vimgdb.Command.Memory.{
  Memory, Formats, pair_at, Dump, on_page, push, fill, end_line, restart, put_address, columns,
  header, column_line, byte_text, wrap, put_byte, put_content, lead, trail, last, dump,
}

-- What the formats print holds no newline.
pub record IsInline (fmt : Formats) : Type 0 where
  pub address : (n : ℕ) → IsLine (fmt.address n)
  pub decimal : (n : ℕ) → IsLine (fmt.decimal n)
  pub column : (n : ℕ) → IsLine (fmt.column n)

Printable-IsLine : (t : Bytes) → All Printable t → IsLine t
Printable-IsLine [] h = tt
Printable-IsLine (c ∷ t) h = (h.0.1, Printable-IsLine t h.1)

IsLine-drop : (n : ℕ) (t : Bytes) → IsLine t → IsLine (drop n t)
IsLine-drop zero t h = h
IsLine-drop (suc n) [] h = tt
IsLine-drop (suc n) (c ∷ t) h = IsLine-drop n t h.1

IsLine-take : (n : ℕ) (t : Bytes) → IsLine t → IsLine (take n t)
IsLine-take zero t h = tt
IsLine-take (suc n) [] h = tt
IsLine-take (suc n) (c ∷ t) h = (h.0, IsLine-take n t h.1)

pair-IsLine : (i : ℕ) (t : Bytes) → IsLine t → IsLine (pair_at i t)
pair-IsLine i t h = (IsLine-take 2 _ (IsLine-drop (i * 2) t h))

module _ (n : ℕ) where
  chosen-IsPaged :
      (b : Bool) (x y : Dump)
      → IsPaged n x.page
      → IsPaged n y.page
      → IsPaged n (if b then x else y).page
  chosen-IsPaged true x y h k = h
  chosen-IsPaged false x y h k = k

  fill-IsPaged : (d : Dump) → IsPaged n d.page → IsPaged n (fill d).page
  unfolding fill push on_page
  fill-IsPaged d h = put-IsPaged n (codes "??") d.page refl h

  fills-IsPaged : (k : ℕ) (d : Dump) → IsPaged n d.page → IsPaged n (repeat k fill d).page
  unfolding repeat
  fills-IsPaged zero d h = h
  fills-IsPaged (suc k) d h = fills-IsPaged k (fill d) (fill-IsPaged d h)

  end_line-IsPaged : (d : Dump) → IsPaged n d.page → IsPaged n (end_line d).page
  unfolding end_line
  end_line-IsPaged d h =
      let esc = strescape d.ascii d.asciib_len in
      (put_line-IsPaged n _ d.page
        (part (codes "    " ++ tag_on (codes "h2") ++ esc.text ++ tag_off (codes "h2")) (10 ∷ []) 1
          (part (codes "    " ++ tag_on (codes "h2") ++ esc.text) (tag_off (codes "h2")) 0
            (part (codes "    " ++ tag_on (codes "h2")) esc.text 0 refl (
              newlines-IsLine esc.text
                (Printable-IsLine esc.text (strescape-Printable d.ascii d.asciib_len))))
            refl)
          refl)
        h).0

  last-IsPaged : (d : Dump) → IsPaged n d.page → IsPaged n (last d).page
  unfolding last on_page
  last-IsPaged d h = elim (Bool-cases (length d.ascii == 0)) [
    | inl e ↦ rw e (end_line-IsPaged d h)
    | inr e ↦ rw e ((put_line-IsPaged n (10 ∷ []) (end_line d).page refl (end_line-IsPaged d h)).0)
  ]

  module _ (fmt : Formats) (f : IsInline fmt) where
    put_address-IsPaged :
        (a : ℕ) (d : Dump) → IsPaged n d.page → IsPaged n (put_address fmt a d).page
    unfolding put_address on_page
    put_address-IsPaged a d h =
        put-IsPaged n _ d.page
          (part (b' ' ∷ tag_on (codes "h1") ++ fmt.address a ++ tag_off (codes "h1")) (codes "    ")
            0
            (part (b' ' ∷ tag_on (codes "h1") ++ fmt.address a) (tag_off (codes "h1")) 0
              (part (b' ' ∷ tag_on (codes "h1")) (fmt.address a) 0 refl
                (newlines-IsLine _ (f.address a)))
              refl)
            refl)
          h

    columns-IsLine : (k i : ℕ) → IsLine (columns fmt k i)
    unfolding columns
    columns-IsLine zero i = tt
    columns-IsLine (suc k) i =
        All-append (λ c. c ≢ 10) (fmt.column i) (columns fmt k (i + 1)) (f.column i)
          (columns-IsLine k (i + 1))

    column_line-newlines : (mem : Memory) → newlines (column_line fmt mem) ≡ 1
    unfolding column_line
    column_line-newlines mem =
        part (margin ++ columns fmt mem.alignment 0 ++ tag_off (codes "h1")) (10 ∷ []) 1
          (part (margin ++ columns fmt mem.alignment 0) (tag_off (codes "h1")) 0
            (part margin (columns fmt mem.alignment 0) 0 refl
              (newlines-IsLine _ (columns-IsLine mem.alignment 0)))
            refl)
          refl
      where
        margin : Bytes
        margin = codes "                       " ++ tag_on (codes "h1")

    wrap-IsPaged :
        (mem : Memory) (i addr : ℕ) (d : Dump)
        → IsPaged n d.page
        → IsPaged n (wrap fmt mem i addr d).page
    unfolding wrap restart
    wrap-IsPaged mem i addr d h =
        elim (Bool-cases (addr + 1 == (addr + mem.alignment) / mem.alignment * mem.alignment)) [
          | inr e ↦ rw e h
          | inl e ↦ rw e (elim (Bool-cases (ltb (i + 1) mem.length)) [
            | inl q ↦
                rw q (put_address-IsPaged (addr + 1) (restart (end_line d)) (end_line-IsPaged d h))
            | inr q ↦ rw q (end_line-IsPaged d h)
          ])
        ]

    byte_text-newlines :
        (mem : Memory) (i : ℕ) → IsLine mem.content → newlines (byte_text fmt mem i) ≡ 0
    unfolding byte_text
    byte_text-newlines mem i c =
        elim (Bool-cases (bytes_same (pair_at i mem.content) (pair_at i mem.content_old))) [
          | inl e ↦ rw e (
              part (pair_at i mem.content) [] 0 (newlines-IsLine _ (pair-IsLine i mem.content c))
                refl)
          | inr e ↦ rw e (
              part (tag_on (codes "c") ++ pair_at i mem.content) (tag_off (codes "c")) 0
                (part (tag_on (codes "c")) (pair_at i mem.content) 0 refl
                  (newlines-IsLine _ (pair-IsLine i mem.content c)))
                refl)
        ]

    content-IsPaged :
        (mem : Memory) (k i addr : ℕ) (d : Dump)
        → IsLine mem.content
        → IsPaged n d.page
        → IsPaged n (put_content fmt mem k i addr d).page
    unfolding put_content put_byte push on_page
    content-IsPaged mem zero i addr d c h = h
    content-IsPaged mem (suc k) i addr d c h =
        content-IsPaged mem k (i + 1) (addr + 1) (put_byte fmt mem i addr d) c (
          wrap-IsPaged mem i addr _
            (put-IsPaged n (byte_text fmt mem i) d.page (byte_text-newlines mem i c) h))

    lead-IsPaged : (mem : Memory) (d : Dump) → IsPaged n d.page → IsPaged n (lead fmt mem d).page
    unfolding lead restart
    lead-IsPaged mem d h =
        let addr = fmt.strtoll mem.begin in
        let displ = addr / mem.alignment * mem.alignment in
        fills-IsPaged (addr - displ) (put_address fmt displ (restart d))
          (put_address-IsPaged displ (restart d) h)

    trail-IsPaged : (mem : Memory) (d : Dump) → IsPaged n d.page → IsPaged n (trail fmt mem d).page
    unfolding trail
    trail-IsPaged mem d h =
        elim (Bool-cases (
          (fmt.strtoll mem.begin + mem.length) / mem.alignment * mem.alignment
          == fmt.strtoll mem.begin + mem.length)) [
            | inl e ↦ rw e h
            | inr e ↦ rw e (
                fills-IsPaged
                  ((fmt.strtoll mem.begin + mem.length + mem.alignment)
                      / mem.alignment
                      * mem.alignment
                    - (fmt.strtoll mem.begin + mem.length))
                  d h)
          ]

module _ (fmt : Formats) (f : IsInline fmt) where
  header-newlines : (mem : Memory) → newlines (header fmt mem) ≡ 1
  unfolding header
  header-newlines mem = elim (Bool-cases mem.expanded) [
    | inl e ↦ rw e (counts (codes "[-] ") refl)
    | inr e ↦ rw e (counts (codes "[+] ") refl)
  ]
    where
      counts :
          (t : Bytes)
          → newlines t ≡ 0
          → newlines (
              t
              ++ tag_on (codes "h0memory dump: ")
              ++ fmt.address (fmt.strtoll mem.begin)
              ++ tag_off (codes "h0 (")
              ++ fmt.decimal mem.length
              ++ codes " bytes)"
              ++ 10 ∷ [])
            ≡ 1
      counts t h =
          part _ (10 ∷ []) 1
            (part
              (t
                ++ tag_on (codes "h0memory dump: ")
                ++ fmt.address (fmt.strtoll mem.begin)
                ++ tag_off (codes "h0 (")
                ++ fmt.decimal mem.length)
              (codes " bytes)") 0
              (part
                (t
                  ++ tag_on (codes "h0memory dump: ")
                  ++ fmt.address (fmt.strtoll mem.begin)
                  ++ tag_off (codes "h0 ("))
                (fmt.decimal mem.length) 0
                (part (t ++ tag_on (codes "h0memory dump: ") ++ fmt.address (fmt.strtoll mem.begin))
                  (tag_off (codes "h0 (")) 0
                  (part (t ++ tag_on (codes "h0memory dump: "))
                    (fmt.address (fmt.strtoll mem.begin)) 0
                    (part t (tag_on (codes "h0memory dump: ")) 0 h refl)
                    (newlines-IsLine _ (f.address (fmt.strtoll mem.begin))))
                  refl)
                (newlines-IsLine _ (f.decimal mem.length)))
              refl)
            refl

  -- The lines of a segment are counted, and there is at least one.
  pub dump-IsPaged :
      (mem : Memory) (d : Dump)
      → IsLine mem.content
      → IsNumbered d.page
      → IsPaged (suc d.page.line) (dump fmt mem d).page
  unfolding dump on_page
  dump-IsPaged mem d c h =
      chosen-IsPaged n (not mem.expanded) _ _
        ((put_line-IsPaged n (10 ∷ []) (put_line (header fmt mem) d.page) refl head).0)
        (last-IsPaged n (trail fmt mem filled) (
          trail-IsPaged n fmt f mem filled (
            content-IsPaged n fmt f mem mem.length 0 (fmt.strtoll mem.begin) (lead fmt mem begun) c
              (lead-IsPaged n fmt f mem begun
                (put_line-IsPaged n (column_line fmt mem) (put_line (header fmt mem) d.page)
                  (column_line-newlines n fmt f mem) head).0))))
    where
      begun : Dump
      begun = on_page (λ p. put_line (column_line fmt mem) (put_line (header fmt mem) p)) d

      filled : Dump
      filled = put_content fmt mem mem.length 0 (fmt.strtoll mem.begin) (lead fmt mem begun)

      n : ℕ
      n = suc d.page.line

      head : IsPaged n (put_line (header fmt mem) d.page)
      head = record {
        numbered = put_line-IsNumbered (header fmt mem) d.page (header-newlines mem) h;
        behind = unfold put_line put advance in omega arith;
      }
