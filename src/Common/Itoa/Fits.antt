-- ===== src/Common/Itoa/Fits.antt =====
-- The length of a number, and the room for its text.
use native.Mathlib.Nat.{pow-le-pow_left}
use vimgdb.Base.{
  ℕ, zero, suc, ◌+◌, ◌*◌, ◌^◌, ◌<◌, ◌≤◌, ◌≡◌, ◌⊎◌, inl, inr, refl, subst, arith, Bool, true, false,
  ◌++◌, some, ◌==◌, ==_iff, ltb, ltb→lt, ltb→le, Bool-cases, if◌then◌else◌, length,
}
use vimgdb.Common.Text.{Bytes, u32, ensure}
use vimgdb.Common.Itoa.{
  Doubles, strlen_loop, strlen, Numerals, Number, sign, numeral, write_number, itoa,
}

-- A number below a power of the base has no more digits than the exponent says.
pub record IsShort (fmt : Numerals) : Type 0 where
  pub decimal : (v k : ℕ) → 0 < k → v < 10 ^ k → length (fmt.decimal v) ≤ k
  pub hex : (v k : ℕ) → 0 < k → v < 16 ^ k → length (fmt.hex v) ≤ k

-- Conversion keeps the order, and numbers apart that are far from each other. The powers of ten and
-- of sixteen up to the exponent 22 are whole numbers of at most 53 bits but for factors of two, for
-- which `pow` is exact.
pub record IsRounded (d : Doubles) : Type 0 where
  pub mono : (a b : ℕ) → a ≤ b → d.to_double a ≤ d.to_double b
  pub apart : (a b : ℕ) → 2 * a < b → d.to_double a < d.to_double b
  pub powers :
      (base n : ℕ) → (base ≡ 10) ⊎ (base ≡ 16) → n ≤ 22 → d.pow base n ≡ d.to_double (base ^ n)

-- A length that the number needs.
record IsLength (v base n : ℕ) : Type 0 where
  pos : 0 < n
  top : n ≤ 22
  enough : v < base ^ n

abbrev IsBase : ℕ → Type 0
IsBase base = (base ≡ 10) ⊎ (base ≡ 16)

at_least : {base : ℕ} → IsBase base → 10 ≤ base
at_least (inl e) = omega (arith, e)
at_least (inr e) = omega (arith, e)

module _ (d : Doubles) (r : IsRounded d) (v base : ℕ) (b : IsBase base) (h : v < 2 ^ 64) where
  passed : (len : ℕ) → len ≤ 22 → ltb (d.to_double v) (d.pow base len) ≡ true → v < base ^ len
  passed len t e = elim (Bool-cases (ltb v (base ^ len))) [
    | inl q ↦ ltb→lt v (base ^ len) q
    | inr q ↦
        let m = r.mono (base ^ len) v (ltb→le v (base ^ len) q) in
        let f = ltb→lt (d.to_double v) (d.pow base len) e in
        absurd (omega (arith, m, f, r.powers base len b t))
  ]

  -- The loop has ended at 22, as 10^22 is above 2^65.
  ended : ltb (d.to_double v) (d.pow base 22) ≡ false → ⊥
  ended e =
      let f = ltb→le (d.to_double v) (d.pow base 22) e in
      let w = r.apart v (base ^ 22) (omega (arith, h, pow-le-pow_left (at_least b) 22)) in
      absurd (omega (arith, f, w, r.powers base 22 b (omega arith)))

  strlen_loop-IsLength :
      (fuel len : ℕ)
      → 0 < len
      → len + fuel ≡ 66
      → len ≤ 22
      → (n : ℕ) × (strlen_loop d fuel v base len ≡ some n) × IsLength v base n
  unfolding strlen_loop
  strlen_loop-IsLength zero len p f t = absurd (omega arith)
  strlen_loop-IsLength (suc fuel) len p f t =
      elim (Bool-cases (ltb (d.to_double v) (d.pow base len))) [
        | inl e ↦
            (len, rw (strlen_loop, e) refl, record { pos = p; top = t; enough = passed len t e })
        | inr e ↦ elim (Bool-cases (len == 22)) [
          | inl q ↦ absurd (
              ended
                (subst (λ n. ltb (d.to_double v) (d.pow base n) ≡ false) ((==_iff len 22).0 q) e))
          | inr q ↦
              let (n, s, k) =
                strlen_loop-IsLength fuel (len + 1) (omega arith) (omega arith)
                  (ground (arith, q)) in
              (n, rw (strlen_loop, e) s, k)
        ]
      ]

  strlen-IsLength : (n : ℕ) × (strlen d v base ≡ some n) × IsLength v base n
  unfolding strlen
  strlen-IsLength = strlen_loop-IsLength 65 1 (omega arith) (omega arith) (omega arith)

ensure-room : (max len : ℕ) → max + len < 2 ^ 32 → len ≤ ensure max len
unfolding ensure
ensure-room max len h = ground arith

sign-length : (neg : Bool) (t : Bytes) → length (sign neg ++ t) ≡ (if neg then 1 else 0) + length t
unfolding sign
sign-length true t = omega arith
sign-length false t = omega arith

-- In base 10 or 16 the text has the digits that were counted, with the sign.
numeral-IsShort :
    (fmt : Numerals) (neg : Bool) (v base n : ℕ)
    → IsShort fmt
    → (base ≡ 10) ⊎ (base ≡ 16)
    → IsLength v base n
    → (t : Bytes) × (numeral fmt neg v base ≡ some t) × (length t ≤ n + (if neg then 1 else 0))
unfolding numeral
numeral-IsShort fmt neg v base n s (inl e) k =
    let d = s.decimal v n k.pos (subst (λ b. v < b ^ n) e k.enough) in
    (sign neg ++ fmt.decimal v, rw e refl, omega (arith, d, sign-length neg (fmt.decimal v)))
numeral-IsShort fmt neg v base n s (inr e) k =
    let d = s.hex v n k.pos (subst (λ b. v < b ^ n) e k.enough) in
    (sign neg ++ fmt.hex v, rw e refl, omega (arith, d, sign-length neg (fmt.hex v)))

-- Where numbers become doubles in order and apart, and pow is exact for the powers of ten and
-- sixteen up to the exponent 22, itoa of a number below 2^64 in base 10 or 16, for printf's
-- numerals of no more digits than a number needs, ends with a text that fits with its terminator
-- into the buffer that it leaves, unless the size of the buffer plus 66 passes 32 bits.
pub itoa-fits :
    (d : Doubles) (fmt : Numerals) (neg : Bool) (v max base : ℕ)
    → IsRounded d
    → IsShort fmt
    → (base ≡ 10) ⊎ (base ≡ 16)
    → v < 2 ^ 64
    → max + 66 < 2 ^ 32
    → (w : Number) × (t : Bytes) × (itoa fmt d neg v max base ≡ some w)
      × (w.text ≡ some t)
      × (length t < w.max)
unfolding itoa write_number
itoa-fits d fmt neg v max base r s b h m =
    let (n, e, k) = strlen-IsLength d r v base b h in
    let (t, f, l) = numeral-IsShort fmt neg v base n s b k in
    let len = u32 (n + 1 + (if neg then 1 else 0)) in
    let small : len ≡ n + 1 + (if neg then 1 else 0) = sized neg n k.top in
    (
      record { text = numeral fmt neg v base; max = ensure max len },
      t,
      rw e refl,
      f,
      omega (arith, l, small, ensure-room max len (bounded neg n k.top)),
    )
  where
    sized :
        (neg : Bool) (n : ℕ)
        → n ≤ 22
        → u32 (n + 1 + (if neg then 1 else 0)) ≡ n + 1 + (if neg then 1 else 0)
    sized true n h = omega arith
    sized false n h = omega arith

    bounded : (neg : Bool) (n : ℕ) → n ≤ 22 → max + u32 (n + 1 + (if neg then 1 else 0)) < 2 ^ 32
    bounded true n h = omega (arith, m)
    bounded false n h = omega (arith, m)
