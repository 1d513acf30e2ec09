-- ===== src/Tests/Text.antt =====
-- Runs of the functions of common/.
use native.Mathlib.Nat.{pow-zero, pow-succ', pow-suc, div-lt_iff_lt-mul}
use vimgdb.Common.Itoa.{Doubles, Numerals, Number, strlen, itoa}
use vimgdb.Common.Itoa.Fits.{IsShort, IsRounded, itoa-fits}
use vimgdb.Base.{
  ℕ, zero, suc, ◌/◌, ◌*◌, ◌%◌, ◌^◌, ◌<◌, inl, inr, true, subst, Bool-cases, ltb, lt→ltb,
  length-append, if◌then◌else◌, ◌+◌, ◌≤◌, ◌≡◌, refl, List, [], ◌∷◌, ◌++◌, none, some, All, length,
  arith,
}
use vimgdb.Common.Text.{Bytes, codes}
use vimgdb.Common.Escape.{strescape, strdeescape}
use vimgdb.Common.Escape.InPlace.{deescape_text, strdeescape-text}
use vimgdb.Common.Escape.RoundTrip.{
  strdeescape-strescape, strescape_fits, strescape-Printable, Printable,
}
use vimgdb.Common.Split.{Arg, argv, overrun, strsplit}
use vimgdb.Common.Split.Length.{ArgvFits, strsplit-ArgvFits}
use vimgdb.Common.Split.Count.{Ends, strsplit-Ends, strsplit_plain}
use vimgdb.Common.LineMap.{Entry, find}
use vimgdb.Common.LineMap.Find.{find-between}
use vimgdb.Base.{reverse}
use vimgdb.Common.Swap.{strswap2}
use vimgdb.Common.Swap.Pairs.{flat, strswap2-flat}

-- A quotation mark, a backslash and a newline.
abbrev text : Bytes
text = codes "a\"b\\c" ++ 10 ∷ []

strescape_test : (strescape text 4).text ≡ codes "a\\\"b\\\\c\\n"
unfolding strescape
strescape_test = refl

strdeescape_test : strdeescape (codes "\\t\\x\\") ≡ some (9 ∷ codes "\\x\\")
unfolding strdeescape
strdeescape_test = refl

abbrev line : Bytes
line = codes "break \"main file.c:12\"  now"

strsplit_test :
    strsplit line
    ≡ argv (
        record { arg_len = 5; text = codes "break" }
        ∷ record { arg_len = 14; text = codes "main file.c:12" }
        ∷ record { arg_len = 3; text = codes "now" }
        ∷ [])
unfolding strsplit
strsplit_test = refl

-- An escaped backslash before a closing quotation mark, then another argument: the first pass
-- counts no argument for what the second one splits in two.
strsplit-overrun_test : strsplit (codes "\"a\\\\\" \"b\"") ≡ overrun
unfolding strsplit
strsplit-overrun_test = refl

strdeescape-strescape_example : strdeescape (strescape text 4).text ≡ some text
strdeescape-strescape_example = strdeescape-strescape text 4

strdeescape-text_example : strdeescape (codes "\\t\\x\\") ≡ some (deescape_text (codes "\\t\\x\\"))
strdeescape-text_example = strdeescape-text (codes "\\t\\x\\")

strescape_fits_example :
    (length (strescape text 4).text + 1 ≤ (strescape text 4).max) × (4 ≤ (strescape text 4).max)
strescape_fits_example = strescape_fits text 4 (omega arith)

strescape-Printable_example : All Printable (strescape text 4).text
strescape-Printable_example = strescape-Printable text 4

strsplit-ArgvFits_example : ArgvFits (strsplit line)
strsplit-ArgvFits_example = strsplit-ArgvFits line

strsplit-Ends_example : Ends (strsplit line)
strsplit-Ends_example = strsplit-Ends line

strsplit_plain_example : (args : List Arg) × (strsplit line ≡ argv args)
strsplit_plain_example = strsplit_plain line (ground arith)

abbrev entries : List (Entry ℕ)
entries = record { line = 2; item = 20 } ∷ record { line = 5; item = 50 } ∷ []

find_test : find entries 1 ≡ none
unfolding find
find_test = refl

find-between_example : find entries 4 ≡ some 20
find-between_example =
    find-between 4 [] (record { line = 2; item = 20 }) (record { line = 5; item = 50 } ∷ [])
      ((omega arith, tt), (tt, tt)) (omega arith) (omega arith)

abbrev digits : List (ℕ × ℕ)
digits = (b'0', b'a') ∷ (b'f', b'f') ∷ []

strswap2_test : strswap2 (codes "0aff") ≡ some (codes "ff0a")
unfolding strswap2
strswap2_test = refl

-- The digits of a number.
abbrev digits_of : (base fuel v : ℕ) → Bytes
digits_of base zero v = []
digits_of base (suc fuel) v =
    if ltb v base then (48 + v) ∷ [] else digits_of base fuel (v / base) ++ (48 + v % base) ∷ []

length-digits_of :
    (base fuel v k : ℕ) → 0 < base → 0 < k → v < base ^ k → length (digits_of base fuel v) ≤ k
length-digits_of base zero v k b p h = omega arith
length-digits_of base (suc fuel) v zero b p h = absurd (omega arith)
length-digits_of base (suc fuel) v (suc zero) b p h =
    let e : base ^ 1 ≡ base = rw (pow-succ' base 0, pow-zero base) (omega arith) in
    rw (lt→ltb v base (subst (λ n. v < n) e h)) (omega arith)
length-digits_of base (suc fuel) v (suc (suc k)) b p h = elim (Bool-cases (ltb v base)) [
  | inl e ↦ rw e (omega arith)
  | inr e ↦
      let less : v / base < base ^ suc k =
        (div-lt_iff_lt-mul b).1 (subst (λ n. v < n) (pow-suc base (suc k)) h) in
      rw e (
        omega (
          arith,
          length-append (digits_of base fuel (v / base)) ((48 + v % base) ∷ []),
          length-digits_of base fuel (v / base) (suc k) b (omega arith) less,
        ))
]

abbrev numerals : Numerals
numerals = record { decimal = λ v. digits_of 10 20 v; hex = λ v. digits_of 16 16 v }

numerals-IsShort : IsShort numerals
numerals-IsShort = record {
  decimal = λ v k p h. length-digits_of 10 20 v k (omega arith) p h;
  hex = λ v k p h. length-digits_of 16 16 v k (omega arith) p h;
}

-- From 2^53 on a number is rounded to a multiple of 2^11, as a double is between 2^63 and 2^64.
abbrev rounded : ℕ → ℕ
rounded n = if ltb n (2 ^ 53) then n else (n + 2 ^ 10) / 2 ^ 11 * 2 ^ 11

abbrev doubles : Doubles
doubles = record { to_double = λ n. rounded n; pow = λ base n. rounded (base ^ n) }

doubles-IsRounded : IsRounded doubles
doubles-IsRounded = record {
  mono = λ a b h. ground arith;
  apart = λ a b h. ground arith;
  powers = λ base n b h. refl;
}

-- A number of 19 digits whose double is the next power of ten.
strlen_test : strlen doubles 9999999999999999999 10 ≡ some 20
unfolding strlen
strlen_test = refl

itoa_test :
    itoa numerals doubles true 120 2 10 ≡ some (record { text = some (codes "-120"); max = 7 })
unfolding itoa
itoa_test = refl

itoa-fits_example :
    (w : Number) × (t : Bytes) × (itoa numerals doubles true 120 2 10 ≡ some w)
    × (w.text ≡ some t)
    × (length t < w.max)
itoa-fits_example =
    itoa-fits doubles numerals true 120 2 10 doubles-IsRounded numerals-IsShort (inl refl)
      (omega arith) (omega arith)

swapped : strswap2 (flat digits) ≡ some (flat (reverse digits))
swapped = strswap2-flat digits
