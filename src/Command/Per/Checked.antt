-- ===== src/Command/Per/Checked.antt =====
-- The registers that pass the checks of a load.
use vimgdb.Base.{ℕ, ◌+◌, ◌*◌, ◌^◌, ◌≤◌, ◌≡◌, ◌⊎◌, List, Option, none, some, All}
use vimgdb.Command.Memory.View.{Chunk}
use vimgdb.Command.Per.{Register, Section, Range}
use vimgdb.Command.Per.Check.{acquired}

-- A register of at least one byte lies inside of its range, and each field inside of the register,
-- but for sums that wrap around; the register is linked with the range.
pub record IsInside (parent size : ℕ) (reg : Register) : Type 0 where
  pub linked : reg.parent ≡ some parent
  pub bytes : (reg.offset + reg.nbytes ≤ size) ⊎ (2 ^ 32 ≤ reg.offset + reg.nbytes)
  pub bits : All (λ b. (b.idx + b.nbits ≤ reg.nbytes * 8) ⊎ (2 ^ 32 ≤ b.idx + b.nbits)) reg.bits

abbrev pub IsTaken : (parent size : ℕ) → Register → Type 0
IsTaken parent size reg = (reg.nbytes ≡ 0) ⊎ IsInside parent size reg

-- What holds of each element, if there is a list.
abbrev pub Each : {A : Type 0} → (A → Type 0) → Option (List A) → Type 0
Each P none = Unit
Each P (some l) = All P l

abbrev IsTakenSection : (parent size : ℕ) → Section → Type 0
IsTakenSection p size sec = All (λ (q, reg). IsTaken p size reg) sec.regs

-- The registers of a range with pointer `p` lie inside of it, and the range has a memory.
pub record IsLoaded (p : ℕ) (r : Range) : Type 0 where
  pub chunk : Chunk
  pub read : r.mem ≡ some (acquired chunk)
  pub taken : All (λ (q, sec). IsTakenSection p r.size sec) r.sections

abbrev IsLoaded? : ℕ → Option Range → Type 0
IsLoaded? p none = Unit
IsLoaded? p (some r) = IsLoaded p r
