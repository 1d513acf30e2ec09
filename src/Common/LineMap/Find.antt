-- ===== src/Common/LineMap/Find.antt =====
-- Which object a line belongs to.
use mathlib.Core.List.{reverse-append, reverse_aux}
use vimgdb.Base.{
  ℕ, ◌≤◌, ◌<◌, ◌≡◌, refl, ◌∙◌, ap, List, [], ◌∷◌, ◌++◌, some, arith, All, reverse, le→leb, lt→leb,
}
use vimgdb.Common.LineMap.{Entry, add, find_loop, find}

module _ {ℓ} {A : Type ℓ} where
  -- The entries in the order in which a window is printed: at ascending lines.
  abbrev pub Ascending : List (Entry A) → Type 0
  Ascending [] = Unit
  Ascending (e ∷ v) = All (λ d. e.line < d.line) v × Ascending v

  -- The line stands above the next entry, if there is one.
  abbrev pub Before : ℕ → List (Entry A) → Type 0
  Before line [] = Unit
  Before line (e ∷ v) = line < e.line

  Before-All :
      (line : ℕ) (v : List (Entry A)) → Ascending v → Before line v → All (λ e. line < e.line) v
  Before-All line [] a b = tt
  Before-All line (e ∷ v) a b = (b, later line e v a.0 b)
    where
      later :
          (n : ℕ) (e : Entry A) (v : List (Entry A))
          → All (λ d. e.line < d.line) v
          → n < e.line
          → All (λ d. n < d.line) v
      later n e [] a b = tt
      later n e (d ∷ v) a b = (omega (arith, a.0), later n e v a.1 b)

  Ascending-behind :
      (before : List (Entry A)) (e : Entry A) (behind : List (Entry A))
      → Ascending (before ++ e ∷ behind)
      → Ascending behind
  Ascending-behind [] e behind a = a.1
  Ascending-behind (d ∷ before) e behind a = Ascending-behind before e behind a.1

  -- The entries below the line are passed over.
  find_loop-skip :
      (line : ℕ) (v acc it : List (Entry A))
      → All (λ d. line < d.line) v
      → find_loop (reverse_aux v acc ++ it) line ≡ find_loop (acc ++ it) line
  unfolding find_loop
  find_loop-skip line [] acc it a = refl
  find_loop-skip line (d ∷ v) acc it a =
      find_loop-skip line v (d ∷ acc) it a.1 ∙ rw (lt→leb d.line line a.0)

  -- In a window that was printed from the top down, a line from an entry on and above the next one
  -- belongs to that entry.
  pub find-between :
      (line : ℕ) (before : List (Entry A)) (e : Entry A) (behind : List (Entry A))
      → Ascending (before ++ e ∷ behind)
      → e.line ≤ line
      → Before line behind
      → find (before ++ e ∷ behind) line ≡ some e.item
  unfolding find find_loop
  find-between line before e behind a h b = rw (reverse-append before (e ∷ behind)) (
      find_loop-skip line behind (e ∷ []) (reverse before)
        (Before-All line behind (Ascending-behind before e behind a) b)
      ∙ rw (le→leb e.line line h))

-- The registered objects.
abbrev pub items {ℓ} : {A : Type ℓ} → List (Entry A) → List A
items [] = []
items (e ∷ v) = e.item ∷ items v

pub items-add {ℓ} :
    {A : Type ℓ} (v : List (Entry A)) (line : ℕ) (item : A)
    → items (add v line item) ≡ items v ++ item ∷ []
unfolding add
items-add [] line item = refl
items-add (e ∷ v) line item = ap (λ l. e.item ∷ l) (items-add v line item)
