-- ===== src/Base/Bits.antt =====
-- The operators of C on the bits of a word of `w` bits, and the masks of a field of bits.
use native.Mathlib.Nat.{
  pow-succ', pow-le-pow_right, one-le-pow, div-div-eq-div-mul, div-add-mod, mul-add-mod_self_left,
  mod-lt, mod-eq_of_lt, div-one,
}
use vimgdb.Base.{
  ℕ, zero, suc, ◌+◌, ◌-◌, ◌*◌, ◌/◌, ◌%◌, ◌^◌, ◌<◌, ◌≤◌, ◌≡◌, refl, ◌∙◌, sym, ap, subst, arith, ◌==◌,
  if◌then◌else◌,
}

-- `a & b`
unfoldable pub bit_and : (w a b : ℕ) → ℕ
bit_and zero a b = 0
bit_and (suc w) a b = (a % 2) * (b % 2) + 2 * bit_and w (a / 2) (b / 2)

-- `a | b`
unfoldable pub bit_or : (w a b : ℕ) → ℕ
bit_or zero a b = 0
bit_or (suc w) a b = (if a % 2 == 1 then 1 else b % 2) + 2 * bit_or w (a / 2) (b / 2)

pub pow2_pos : (n : ℕ) → 0 < 2 ^ n
pow2_pos n = one-le-pow n 2 (omega arith)

bit_and-zero : (w a : ℕ) → bit_and w a 0 ≡ 0
unfolding bit_and
bit_and-zero zero a = refl
bit_and-zero (suc w) a = rw (bit_and-zero w (a / 2)) (omega arith)

bit_or-zero : (w a : ℕ) → a < 2 ^ w → bit_or w a 0 ≡ a
unfolding bit_or
bit_or-zero zero a h = omega arith
bit_or-zero (suc w) a h = rw (bit_or-zero w (a / 2) (omega (arith, pow-succ' 2 w))) (ground arith)

half : (n : ℕ) → (2 * n) / 2 ≡ n
half n = omega arith

-- A bit above those of a number is added to it.
pub bit_or-above : (w a i : ℕ) → a < 2 ^ i → i < w → bit_or w a (2 ^ i) ≡ a + 2 ^ i
unfolding bit_or
bit_or-above zero a i h k = absurd (omega arith)
bit_or-above (suc w) a zero h k =
    let e : 0 ≡ a = omega arith in
    subst (λ a. bit_or (suc w) a 1 ≡ a + 1) e (rw (bit_or-zero w 0 (pow2_pos w)) (ground arith))
bit_or-above (suc w) a (suc i) h k =
    let e : 2 ^ suc i ≡ 2 * 2 ^ i = pow-succ' 2 i in
    rw (e, half (2 ^ i), bit_or-above w (a / 2) i (omega (arith, e)) (omega arith)) (ground arith)

-- The lowest bits.
mod_step : (a m : ℕ) → 0 < m → a % (2 * m) ≡ a % 2 + 2 * ((a / 2) % m)
mod_step a m h =
    let c = a % 2 + 2 * ((a / 2) % m) in
    let l : (a / 2) % m < m = mod-lt (a / 2) h in
    ap (λ n. n % (2 * m)) whole
    ∙ mul-add-mod_self_left (2 * m) (a / 2 / m) c
    ∙ mod-eq_of_lt (omega (arith, l))
  where
    whole : a ≡ 2 * m * (a / 2 / m) + (a % 2 + 2 * ((a / 2) % m))
    whole = grind (arith, div-add-mod (a / 2) m)

pub bit_and-low : (w v n : ℕ) → n ≤ w → bit_and w v (2 ^ n - 1) ≡ v % 2 ^ n
unfolding bit_and
bit_and-low w v zero h = bit_and-zero w v ∙ omega arith
bit_and-low zero v (suc n) h = absurd (omega arith)
bit_and-low (suc w) v (suc n) h =
    let e : 2 ^ suc n ≡ 2 * 2 ^ n = pow-succ' 2 n in
    let p = pow2_pos n in
    let d : (2 ^ suc n - 1) / 2 ≡ 2 ^ n - 1 = omega (arith, e, p) in
    let m : (2 ^ suc n - 1) % 2 ≡ 1 = omega (arith, e, p) in
    rw (d, m, bit_and-low w (v / 2) n (omega arith))
      (omega arith ∙ sym (mod_step v (2 ^ n) p) ∙ ap (λ m. v % m) (sym e))

times_double : (a n : ℕ) → a * 2 ^ suc n ≡ 2 * (a * 2 ^ n)
times_double a n = rw (pow-succ' 2 n) (grind arith)

-- `n` bits from the bit `k` on.
pub bit_and-field :
    (w v n k : ℕ) → n + k ≤ w → bit_and w v ((2 ^ n - 1) * 2 ^ k) ≡ ((v / 2 ^ k) % 2 ^ n) * 2 ^ k
unfolding bit_and
bit_and-field w v n zero h =
    ap (λ m. bit_and w v m) (omega arith)
    ∙ bit_and-low w v n (omega arith)
    ∙ rw (div-one v) (omega arith)
bit_and-field zero v n (suc k) h = absurd (omega arith)
bit_and-field (suc w) v n (suc k) h =
    let m = (2 ^ n - 1) * 2 ^ k in
    let z : (2 * m) % 2 ≡ 0 = omega arith in
    let d : v / 2 / 2 ^ k ≡ v / 2 ^ suc k =
      div-div-eq-div-mul v 2 (2 ^ k) ∙ ap (λ m. v / m) (sym (pow-succ' 2 k)) in
    rw
      (
        times_double (2 ^ n - 1) k,
        z,
        half m,
        bit_and-field w (v / 2) n k (omega arith),
        d,
        times_double ((v / 2 ^ suc k) % 2 ^ n) k,
      )
      (omega arith)

field_end : (n k : ℕ) → (2 ^ n - 1) * 2 ^ k + 2 ^ k ≡ 2 ^ (n + k)
field_end n zero =
    let e : 2 ^ (n + 0) ≡ 2 ^ n = ap (λ m. 2 ^ m) (omega arith) in omega (arith, e, pow2_pos n)
field_end n (suc k) =
    let e : 2 ^ (n + suc k) ≡ 2 ^ suc (n + k) = ap (λ m. 2 ^ m) (omega arith) in
    omega (arith, e, times_double (2 ^ n - 1) k, field_end n k, pow-succ' 2 k, pow-succ' 2 (n + k))

-- A field's mask fits into a word of that many bits.
pub field-lt : (n k w : ℕ) → n + k ≤ w → (2 ^ n - 1) * 2 ^ k < 2 ^ w
field-lt n k w h =
    omega (arith, field_end n k, pow2_pos k, pow-le-pow_right {n = 2} (omega arith) h)
