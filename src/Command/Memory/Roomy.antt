-- ===== src/Command/Memory/Roomy.antt =====
-- The writes of a dump to `asciib`.
use native.Mathlib.Nat.{mod-lt, mod-eq_of_lt, mod_self, mod-add-mod, add-mod_right, div-add-mod'}
use vimgdb.Base.{
  ℕ, zero, suc, ◌+◌, ◌-◌, ◌*◌, ◌%◌, ◌<◌, ◌≤◌, ◌≡◌, ◌≢◌, refl, ◌∙◌, ap, sym, subst, Bool, true,
  false, not, [], ◌∷◌, ◌==◌, ==_iff, ltb, lt→ltb, if◌then◌else◌, length, length-append, arith,
  Bool-cases, inl, inr,
}
use vimgdb.Common.Text.{codes, ensure}
use vimgdb.Common.Escape.{strescape}
use vimgdb.Common.Page.{Page, put, put_line, repeat}
use vimgdb.Command.Memory.{
  Memory, Formats, align, Dump, on_page, push, fill, end_line, restart, put_address, wrap, put_byte,
  put_content, lead, trail, last, dump, header, column_line,
}

-- All writes so far lie in `asciib`, which has the size `len`, and `n` bytes stand in it.
pub record Roomy (len n : ℕ) (d : Dump) : Type 0 where
  pub inside : d.fits ≡ true
  pub filled : length d.ascii ≡ n
  pub size : d.asciib_len ≡ len

-- The size is enough for a line of `al` bytes, each of which may be escaped.
module _ (al len : ℕ) (wide : al * 2 + 1 ≤ len) where
  push-Roomy : (c n : ℕ) (d : Dump) → n < al → Roomy len n d → Roomy len (n + 1) (push c d)
  unfolding push
  push-Roomy c n d h r = record {
    inside =
        rw (r.inside, lt→ltb (length d.ascii) d.asciib_len (omega (arith, r.filled, r.size))) refl;
    filled = omega (arith, length-append d.ascii (c ∷ []), r.filled);
    size = r.size;
  }

  moved : (n : ℕ) (f : Page → Page) (d : Dump) → Roomy len n d → Roomy len n (on_page f d)
  unfolding on_page
  moved n f d r = record { inside = r.inside; filled = r.filled; size = r.size }

  recounted : (n m : ℕ) (d : Dump) → n ≡ m → Roomy len n d → Roomy len m d
  recounted n m d e r = record { inside = r.inside; filled = r.filled ∙ e; size = r.size }

  fills-Roomy :
      (k n m : ℕ) (d : Dump) → n + k ≡ m → m ≤ al → Roomy len n d → Roomy len m (repeat k fill d)
  unfolding repeat fill on_page
  fills-Roomy zero n m d e h r = recounted n m d (omega (arith, e)) r
  fills-Roomy (suc k) n m d e h r = fills-Roomy k (n + 1) m (fill d) (omega (arith, e)) h (
      push-Roomy 32 n (on_page (put (codes "??")) d) (omega (arith, e))
        (record { inside = r.inside; filled = r.filled; size = r.size }))

  -- The buffer has room for the escaped line, and stays.
  end_line-Roomy : (n : ℕ) (d : Dump) → n ≤ al → Roomy len n d → Roomy len n (end_line d)
  unfolding end_line strescape ensure
  end_line-Roomy n d h r = record {
    inside =
        rw (r.inside, lt→ltb (length d.ascii) d.asciib_len (omega (arith, r.filled, r.size))) refl;
    filled = r.filled;
    size = ground (arith, r.size, r.filled, wide);
  }

  restart-Roomy : (n : ℕ) (d : Dump) → Roomy len n d → Roomy len 0 (restart d)
  unfolding restart
  restart-Roomy n d r = record { inside = r.inside; filled = refl; size = r.size }

  last-Roomy : (n : ℕ) (d : Dump) → n ≤ al → Roomy len n d → Roomy len n (last d)
  unfolding last
  last-Roomy n d h r = elim (Bool-cases (length d.ascii == 0)) [
    | inl e ↦ rw e (end_line-Roomy n d h r)
    | inr e ↦ rw e (moved n (put_line (10 ∷ [])) (end_line d) (end_line-Roomy n d h r))
  ]

  module _ (pos : 0 < al) where
    -- The start of the next line.
    next_line : (a : ℕ) → align (a + al) al ≡ align a al + al
    next_line a = omega (arith, div-add-mod' (a + al) al, div-add-mod' a al, add-mod_right a al)

    -- The next address ends a line.
    mod_next : (a : ℕ) → a + 1 ≡ align (a + al) al → (a + 1) % al ≡ 0
    mod_next a e =
        let full : a % al + 1 ≡ al = omega (arith, next_line a, div-add-mod' a al) in
        sym (mod-add-mod a al 1) ∙ ap (λ n. n % al) full ∙ mod_self al

    -- It lies in the same line.
    mod_same : (a : ℕ) → a + 1 ≢ align (a + al) al → (a + 1) % al ≡ a % al + 1
    mod_same a e =
        sym (mod-add-mod a al 1)
        ∙ mod-eq_of_lt (ground (arith, next_line a, div-add-mod' a al, mod-lt a pos, e))

    module _ (fmt : Formats) (mem : Memory) (same : mem.alignment ≡ al) where
      put_address-Roomy : (a n : ℕ) (d : Dump) → Roomy len n d → Roomy len n (put_address fmt a d)
      unfolding put_address
      put_address-Roomy a n d r = record { inside = r.inside; filled = r.filled; size = r.size }

      chosen-Roomy :
          (n : ℕ) (b : Bool) (x y : Dump)
          → Roomy len n x
          → Roomy len n y
          → Roomy len n (if b then x else y)
      chosen-Roomy n true x y h k = h
      chosen-Roomy n false x y h k = k

      wrap-Roomy :
          (i a : ℕ) (d : Dump)
          → Roomy len (a % al + 1) d
          → Roomy len ((a + 1) % al) (wrap fmt mem i a d)
      unfolding wrap
      wrap-Roomy i a d r = elim (Bool-cases (a + 1 == align (a + mem.alignment) mem.alignment)) [
        | inl e ↦
            let q = (==_iff (a + 1) (align (a + mem.alignment) mem.alignment)).0 e in
            rw (e, mod_next a (subst (λ k. a + 1 ≡ align (a + k) k) same q))
              (chosen-Roomy 0 (ltb (i + 1) mem.length) _ _
                (put_address-Roomy (a + 1) 0 (restart (end_line d)) (ended d r)) (ended d r))
        | inr e ↦
            rw e (recounted (a % al + 1) ((a + 1) % al) d (sym (mod_same a (λ q. differs q e))) r)
      ]
        where
          ended : (d : Dump) → Roomy len (a % al + 1) d → Roomy len 0 (restart (end_line d))
          ended d r =
              restart-Roomy (a % al + 1) (end_line d)
                (end_line-Roomy (a % al + 1) d (omega (arith, mod-lt a pos)) r)

          differs :
              a + 1 ≡ align (a + al) al
              → (a + 1 == align (a + mem.alignment) mem.alignment) ≡ false
              → ⊥
          differs q e =
              let p =
                (==_iff (a + 1) (align (a + mem.alignment) mem.alignment)).1
                  (subst (λ k. a + 1 ≡ align (a + k) k) (sym same) q) in
              cc

      content-Roomy :
          (k i a : ℕ) (d : Dump)
          → Roomy len (a % al) d
          → Roomy len ((a + k) % al) (put_content fmt mem k i a d)
      unfolding put_content put_byte on_page
      content-Roomy zero i a d r = recounted (a % al) _ d (ap (λ n. n % al) (omega arith)) r
      content-Roomy (suc k) i a d r =
          recounted _ ((a + suc k) % al) _ (ap (λ n. n % al) (omega arith)) (
            content-Roomy k (i + 1) (a + 1) (put_byte fmt mem i a d) (
              wrap-Roomy i a _ (
                push-Roomy _ (a % al) (on_page (put _) d) (mod-lt a pos)
                  (record { inside = r.inside; filled = r.filled; size = r.size }))))

      lead-Roomy :
          (n : ℕ) (d : Dump)
          → Roomy len n d
          → Roomy len (fmt.strtoll mem.begin % al) (lead fmt mem d)
      unfolding lead
      lead-Roomy n d r =
          let a = fmt.strtoll mem.begin in
          fills-Roomy (a - align a mem.alignment) 0 (a % al)
            (put_address fmt (align a mem.alignment) (restart d))
            (rw same (omega (arith, div-add-mod' a al))) (omega (arith, mod-lt a pos))
            (put_address-Roomy (align a mem.alignment) 0 (restart d) (restart-Roomy n d r))

      -- A line that is begun is filled.
      trail-Roomy :
          (a : ℕ) (d : Dump)
          → fmt.strtoll mem.begin + mem.length ≡ a
          → Roomy len (a % al) d
          → (n : ℕ) × ((n ≤ al) × Roomy len n (trail fmt mem d))
      unfolding trail
      trail-Roomy a d e r = rw e (elim (Bool-cases (align a mem.alignment == a)) [
        | inl q ↦ (a % al, rw q (omega (arith, mod-lt a pos), r))
        | inr q ↦ (
          al,
          rw q (
            omega arith,
            fills-Roomy (align (a + mem.alignment) mem.alignment - a) (a % al) al d
                (rw same (omega (arith, next_line a, div-add-mod' a al, mod-lt a pos)))
                (omega arith) r,
          ),
        )
      ])

      -- A line of `alignment` bytes fits into `asciib`, escaped and with its terminator, wherever the
      -- segment starts and ends.
      pub dump-Roomy : (n : ℕ) (d : Dump) → Roomy len n d → (m : ℕ) × Roomy len m (dump fmt mem d)
      unfolding dump
      dump-Roomy n d r = elim (Bool-cases (not mem.expanded)) [
        | inl e ↦ (n, rw e (moved n (λ p. put_line (10 ∷ []) (put_line (header fmt mem) p)) d r))
        | inr e ↦
            let (m, (h, k)) = trail-Roomy (fmt.strtoll mem.begin + mem.length) _ refl (
              content-Roomy mem.length 0 (fmt.strtoll mem.begin) _ (
                lead-Roomy n _ (
                  moved n (λ p. put_line (column_line fmt mem) (put_line (header fmt mem) p)) d
                    r))) in
            (m, rw e (last-Roomy m _ h k))
      ]
