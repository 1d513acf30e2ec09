-- ===== src/Common/Itoa.antt =====
-- `itoa`, the `strlen` of a number and `stralloc` of common/string.cc, with allocations that succeed.
pub mod Fits
use vimgdb.Base.{
  ℕ, zero, suc, ◌+◌, Bool, true, false, [], ◌∷◌, ◌++◌, Option, none, some, ◌==◌, ltb, if◌then◌else◌,
  take,
}
use vimgdb.Common.Text.{Bytes, u32, ensure}

-- Double arithmetic, for doubles that are whole numbers: a number as a double, and `pow`.
pub record Doubles : Type 0 where
  pub to_double : ℕ → ℕ
  pub pow : (base len : ℕ) → ℕ

module _ (d : Doubles) where
  -- The loop on fuel; `none` means that the fuel ran out. Both sides of the test are doubles.
  unfoldable pub strlen_loop : ℕ → (val base len : ℕ) → Option ℕ
  strlen_loop zero val base len = none
  strlen_loop (suc fuel) val base len = elim (ltb (d.to_double val) (d.pow base len)) [
    | true ↦ some len
    | false ↦ strlen_loop fuel val base (len + 1)
  ]

  -- `strlen` of an `unsigned long int`.
  unfoldable pub strlen : (val base : ℕ) → Option ℕ
  unfolding strlen_loop
  strlen val base = strlen_loop 65 val base 1

  -- With one character for the sign of a negative number, which comes as its absolute value.
  unfoldable pub signed_strlen : Bool → (val base : ℕ) → Option ℕ
  unfolding strlen
  signed_strlen neg val base = elim (strlen val base) [
    | none ↦ none
    | some len ↦ some (len + (if neg then 1 else 0))
  ]

-- What `printf` makes of a number by `%lu` and `%lx`.
pub record Numerals : Type 0 where
  pub decimal : ℕ → Bytes
  pub hex : ℕ → Bytes

-- The text that is returned, if there is one, and `*max`.
pub record Number : Type 0 where
  pub text : Option Bytes
  pub max : ℕ

unfoldable pub sign : Bool → Bytes
sign true = b'-' ∷ []
sign false = []

module _ (fmt : Numerals) where
  -- `switch(base)`
  unfoldable pub numeral : Bool → (v base : ℕ) → Option Bytes
  unfolding sign
  numeral neg v base =
      if base == 10
      then some (sign neg ++ fmt.decimal v)
      else if base == 16
      then some (sign neg ++ fmt.hex v)
      else none

  -- Behind the length of the number.
  unfoldable pub write_number : Bool → (v max base : ℕ) → Option ℕ → Option Number
  unfolding numeral ensure
  write_number neg v max base none = none
  write_number neg v max base (some n) =
      let len = u32 (n + 1 + (if neg then 1 else 0)) in
      some (record { text = numeral neg v base; max = ensure max len })

  unfoldable pub itoa : Doubles → Bool → (v max base : ℕ) → Option Number
  unfolding write_number strlen
  itoa d neg v max base = write_number neg v max base (strlen d v base)

-- `stralloc`: the first `len` characters; null as an empty text.
unfoldable pub stralloc : Option Bytes → ℕ → Bytes
stralloc none len = []
stralloc (some s) len = take len s
