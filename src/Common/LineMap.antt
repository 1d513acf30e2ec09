-- ===== src/Common/LineMap.antt =====
-- common/linemap.cc: the object that is printed at a line of a window.
pub mod Find
use vimgdb.Base.{ℕ, List, [], ◌∷◌, ◌++◌, Option, none, some, leb, if◌then◌else◌, reverse}

-- `data` is a pointer; a found entry holds the pointer that was added.
pub record Entry {ℓ} (A : Type ℓ) : Type ℓ where
  pub line : ℕ
  pub item : A

module _ {ℓ} {A : Type ℓ} where
  -- `v.push_back({ .line = line, .data = data })`
  unfoldable pub add : List (Entry A) → ℕ → A → List (Entry A)
  add v line item = v ++ record { line = line; item = item } ∷ []

  -- The loop from `v.rbegin()` to `v.rend()`.
  unfoldable pub find_loop : List (Entry A) → ℕ → Option A
  find_loop [] line = none
  find_loop (e ∷ it) line = if leb e.line line then some e.item else find_loop it line

  unfoldable pub find : List (Entry A) → ℕ → Option A
  unfolding find_loop
  find v line = find_loop (reverse v) line

unfoldable pub clear {ℓ} : {A : Type ℓ} → List (Entry A) → List (Entry A)
clear v = []
