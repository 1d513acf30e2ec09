-- ===== src/Command/Per/Fields.antt =====
-- The fields of a register: `per_bits_t` and its value.
use vimgdb.Base.{
  ℕ, zero, suc, ◌+◌, ◌-◌, ◌*◌, ◌/◌, ◌%◌, ◌^◌, ◌<◌, ◌≤◌, ◌≡◌, refl, ◌∙◌, ap, arith, some, lt→ltb,
}
use native.Mathlib.Nat.{pow-succ', mul-div_cancel, mod-eq_of_lt}
use vimgdb.Base.Bits.{bit_or, bit_or-above, bit_and-field, field-lt, pow2_pos}
use vimgdb.Common.Text.{u32}
use vimgdb.Command.Per.{Bits, BitsItem, mask_loop, with_mask, new_bits}
use vimgdb.Command.Per.Print.{bit_val}

mask_loop_lem : (n i : ℕ) → i + n ≤ 32 → mask_loop n i (2 ^ i - 1) ≡ some (2 ^ (i + n) - 1)
unfolding mask_loop
mask_loop_lem zero i h = ap (λ k. some (2 ^ k - 1)) (omega arith)
mask_loop_lem (suc n) i h =
    let p = pow2_pos i in
    let o : bit_or 32 (2 ^ i - 1) (2 ^ i) ≡ 2 ^ (i + 1) - 1 =
      bit_or-above 32 (2 ^ i - 1) i (omega (arith, p)) (omega arith) ∙ next i in
    rw (mask_loop, lt→ltb i 32 (omega arith), o)
      (mask_loop_lem n (i + 1) (omega arith) ∙ ap (λ k. some (2 ^ k - 1)) (omega arith))
  where
    next : (i : ℕ) → 2 ^ i - 1 + 2 ^ i ≡ 2 ^ (i + 1) - 1
    next i =
        let e : 2 ^ (i + 1) ≡ 2 ^ suc i = ap (λ k. 2 ^ k) (omega arith) in
        omega (arith, e, pow-succ' 2 i, pow2_pos i)

-- What the constructor makes of a field of up to 32 bits.
abbrev pub made : BitsItem → Bits
made b = record { name = b.name; idx = b.idx; nbits = b.nbits; mask = 2 ^ b.nbits - 1; value = 0 }

pub new_bits_lem : (b : BitsItem) → b.idx < 2 ^ 32 → b.nbits ≤ 32 → new_bits b ≡ some (made b)
unfolding new_bits with_mask
new_bits_lem b i n =
    let z : 0 + b.nbits ≡ b.nbits = omega arith in
    let e : mask_loop b.nbits 0 0 ≡ some (2 ^ b.nbits - 1) =
      mask_loop_lem b.nbits 0 (omega arith) ∙ ap (λ k. some (2 ^ k - 1)) z in
    ap (λ k. with_mask b (mask_loop k 0 0)) (u32_small b.nbits (omega arith))
    ∙ rw (e, u32_small b.nbits (omega arith), u32_small b.idx i) refl
  where
    u32_small : (k : ℕ) → k < 2 ^ 32 → u32 k ≡ k
    u32_small k h = mod-eq_of_lt h

-- For a field of at most 32 bits that lies in the lower 32 bits of a register, update takes out the
-- `nbits` bits from the bit `idx` on.
pub bit_val-new_bits :
    (b : BitsItem) (v : ℕ)
    → b.idx < 32
    → b.idx + b.nbits ≤ 32
    → (f : Bits) × (new_bits b ≡ some f) × (bit_val v f ≡ some ((v / 2 ^ b.idx) % 2 ^ b.nbits))
unfolding bit_val
bit_val-new_bits b v i n = (
  made b,
  new_bits_lem b (omega arith) (omega arith),
  rw (lt→ltb b.idx 32 i, u, bit_and-field 64 v b.nbits b.idx (omega arith))
      (ap some (mul-div_cancel _ (pow2_pos b.idx))),
)
  where
    u : u32 ((2 ^ b.nbits - 1) * 2 ^ b.idx) ≡ (2 ^ b.nbits - 1) * 2 ^ b.idx
    u = mod-eq_of_lt (field-lt b.nbits b.idx 32 (omega arith))
