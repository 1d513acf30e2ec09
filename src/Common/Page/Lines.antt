-- ===== src/Common/Page/Lines.antt =====
-- The number of the line against the text, and the objects that are registered at lines.
use vimgdb.Base.{
  ℕ, ◌+◌, ◌<◌, ◌≤◌, ◌≡◌, ◌≢◌, refl, List, [], ◌∷◌, ◌++◌, ◌==◌, if◌then◌else◌, arith, All,
  All-append,
}
use vimgdb.Common.Text.{Bytes}
use vimgdb.Common.LineMap.{Entry, add}
use vimgdb.Common.LineMap.Find.{Ascending}
use vimgdb.Common.Page.{Page, blank, put, advance, put_line, mark}

abbrev pub newlines : Bytes → ℕ
newlines [] = 0
newlines (c ∷ t) = (if c == 10 then 1 else 0) + newlines t

pub newlines-append : (s t : Bytes) → newlines (s ++ t) ≡ newlines s + newlines t
newlines-append [] t = omega arith
newlines-append (c ∷ s) t = omega (arith, newlines-append s t)

abbrev pub IsLine : Bytes → Type 0
IsLine = All (λ c. c ≢ 10)

pub newlines-IsLine : (t : Bytes) → IsLine t → newlines t ≡ 0
newlines-IsLine [] h = refl
newlines-IsLine (c ∷ t) h = ground (arith, newlines-IsLine t)

-- The next line is the one behind the newlines of the text.
pub record IsNumbered (p : Page) : Type 0 where
  pub counted : p.line ≡ 1 + newlines p.obuf

pub blank-IsNumbered : IsNumbered blank
unfolding blank
blank-IsNumbered = record { counted = refl }

pub put-IsNumbered : (t : Bytes) (p : Page) → newlines t ≡ 0 → IsNumbered p → IsNumbered (put t p)
unfolding put
put-IsNumbered t p h n = record { counted = omega (arith, newlines-append p.obuf t, n.counted) }

pub advance-IsNumbered :
    (t : Bytes) (k : ℕ) (p : Page)
    → newlines t ≡ k
    → IsNumbered p
    → IsNumbered (advance k (put t p))
unfolding put advance
advance-IsNumbered t k p h n = record {
  counted = omega (arith, newlines-append p.obuf t, n.counted);
}

pub put_line-IsNumbered :
    (t : Bytes) (p : Page) → newlines t ≡ 1 → IsNumbered p → IsNumbered (put_line t p)
unfolding put_line
put_line-IsNumbered t p h n = advance-IsNumbered t 1 p h n

-- A part of a line, and what stands behind it.
pub part : (x t : Bytes) (k : ℕ) → newlines x ≡ 0 → newlines t ≡ k → newlines (x ++ t) ≡ k
part x t k h e = omega (arith, newlines-append x t, h, e)

-- Counted, with the next line at `n` or below.
pub record IsPaged (n : ℕ) (p : Page) : Type 0 where
  pub numbered : IsNumbered p
  pub behind : n ≤ p.line

pub put-IsPaged :
    (n : ℕ) (t : Bytes) (p : Page) → newlines t ≡ 0 → IsPaged n p → IsPaged n (put t p)
unfolding put
put-IsPaged n t p h k = record { numbered = put-IsNumbered t p h k.numbered; behind = k.behind }

pub put_line-IsPaged :
    (n : ℕ) (t : Bytes) (p : Page)
    → newlines t ≡ 1
    → IsPaged n p
    → IsPaged n (put_line t p) × (n < (put_line t p).line)
unfolding put_line put advance
put_line-IsPaged n t p h k = (
  record { numbered = put_line-IsNumbered t p h k.numbered; behind = omega (arith, k.behind) },
  omega (arith, k.behind),
)

-- The objects stand at ascending lines, above the next one.
pub record IsBelow {ℓ} {A : Type ℓ} (marks : List (Entry A)) (line : ℕ) : Type ℓ where
  pub rising : Ascending marks
  pub below : All (λ e. e.line < line) marks

module _ {ℓ} {A : Type ℓ} where
  pub IsBelow-later : (marks : List (Entry A)) (l m : ℕ) → l ≤ m → IsBelow marks l → IsBelow marks m
  IsBelow-later marks l m h b = record { rising = b.rising; below = later marks b.below }
    where
      later : (v : List (Entry A)) → All (λ e. e.line < l) v → All (λ e. e.line < m) v
      later [] a = tt
      later (e ∷ v) a = (omega (arith, a.0), later v a.1)

  Ascending-add :
      (v : List (Entry A)) (l : ℕ) (a : A)
      → Ascending v
      → All (λ e. e.line < l) v
      → Ascending (v ++ record { line = l; item = a } ∷ [])
  Ascending-add [] l a h b = (tt, tt)
  Ascending-add (e ∷ v) l a h b = (
    All-append (λ d. e.line < d.line) v (record { line = l; item = a } ∷ []) h.0 (b.0, tt),
    Ascending-add v l a h.1 b.1,
  )

  -- An object is registered at the next line; with that line printed, it stands above.
  pub mark-IsBelow :
      (p : Page) (a : A) (marks : List (Entry A)) (m : ℕ)
      → p.line < m
      → IsBelow marks p.line
      → IsBelow (mark p a marks) m
  unfolding mark add
  mark-IsBelow p a marks m h b = record {
    rising = Ascending-add marks p.line a b.rising b.below;
    below =
        All-append (λ (e : Entry A). e.line < m) marks (record { line = p.line; item = a } ∷ [])
          (IsBelow-later marks p.line m (omega arith) b).below (h, tt);
  }
