-- ===== src/Gui/Vim/Growth.antt =====
-- The output buffer of `win_vprint`, which doubles until a text fits.
use vimgdb.Base.{
  ℕ, zero, suc, ◌*◌, ◌^◌, ◌<◌, ◌≤◌, ◌≡◌, refl, false, Option, some, arith, Bool-cases, inl, inr,
  ltb, lt→ltb, ltb→lt,
}
use vimgdb.Common.Text.{u32, doubled}
use vimgdb.Gui.Vim.Windows.{grow, grow_fuel}

abbrev Grows : ℕ → ℕ → Option ℕ → Type 0
Grows len size r = (n : ℕ) × (r ≡ some n) × (len < n) × (size ≤ n)

-- As long as the buffer is too small, its size does not wrap around.
fits : (size len : ℕ) → len < 2 ^ 31 → ltb len size ≡ false → u32 (size * 2) ≡ size * 2
fits size len small e = ground arith

grow-Grows :
    (fuel len size : ℕ)
    → len < 2 ^ 31
    → len < size * 2 ^ fuel
    → Grows len size (grow (suc fuel) len size)
unfolding grow
grow-Grows zero len size small h =
    (size, rw (lt→ltb len size (omega arith)) refl, omega arith, omega arith)
grow-Grows (suc fuel) len size small h = elim (Bool-cases (ltb len size)) [
  | inl e ↦ (size, rw e refl, ltb→lt len size e, omega arith)
  | inr e ↦
      let twice : u32 (size * 2) ≡ size * 2 = fits size len small e in
      let (n, r, k, m) = grow-Grows fuel len (size * 2) small (rw (← doubled size fuel) h) in
      (n, rw (e, twice) r, k, omega arith)
]

-- For a text below 2^31 bytes, from a buffer that is not empty, the loop of `win_vprint` ends
-- with a buffer that holds the text and its terminator, and that is no smaller than before.
pub grow_enough :
    (len size : ℕ)
    → len < 2 ^ 31
    → 0 < size
    → (n : ℕ) × (grow grow_fuel len size ≡ some n) × (len < n) × (size ≤ n)
grow_enough len size small h = grow-Grows 31 len size small (omega arith)
