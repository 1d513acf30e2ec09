-- ===== src/Command/Memory/Hex.antt =====
-- The values that `gdb_memory_t::set` of gdb/memory.cc writes, in hexadecimal digits.
use vimgdb.Base.{
  ℕ, zero, suc, ◌+◌, ◌*◌, ◌-◌, ◌/◌, ◌%◌, ◌<◌, ◌≤◌, ◌≡◌, refl, ◌∙◌, sym, ap, lt→ltb, Bool-cases, inl,
  inr, false, not, ◌&&◌, [], ◌∷◌, ◌++◌, ◌==◌, ltb, if◌then◌else◌, length, length-append, take, drop,
  append_assoc, append-nil, get_or-append, take-append, arith, All,
}
use vimgdb.Common.Text.{Bytes, char_at}
use vimgdb.Command.Memory.{pair_at, byte_of, ctoi}

-- `(char)(v + (v > 9 ? 87 : 48))` for a digit.
abbrev pub digit : ℕ → ℕ
digit v = v + (if ltb 9 v then 87 else 48)

-- `CTOHEXSTR(c, s)` with a `char` that may be negative: what stands in `s[0]` and `s[1]`.
unfoldable pub ctohexstr : ℕ → Bytes
ctohexstr c =
    if ltb c 128
    then digit (c / 16) ∷ digit (c % 16) ∷ []
    else (48 - (256 - c) / 16) ∷ (48 - (256 - c) % 16) ∷ []

-- `for(; len>0; len--) CTOHEXSTR(value[len], p + len * 2 - 2)`, with what stands behind.
unfoldable pub hex_loop : (len : ℕ) → Bytes → Bytes → Bytes
unfolding ctohexstr
hex_loop zero value p = p
hex_loop (suc len) value p = hex_loop len value (ctohexstr (char_at value (suc len)) ++ p)

-- What is handed to gdb; the result -1; or a read or a write outside of the value.
pub data Value : Type 0 where
  digits : Bytes → Value
  unclosed outside : Value

unfoldable pub set_value : Bytes → Value
unfolding hex_loop ctohexstr
set_value value =
    if char_at value 0 == b'"'
    then (if not (char_at value (length value - 1) == b'"')
        then unclosed
        else if ltb (length value) 2
        then outside
        else digits (hex_loop (length value - 2) value []))
    else if char_at value 0 == b'\''
    then (if ltb (length value) 2 then outside else digits (ctohexstr (char_at value 1)))
    else if char_at value 0 == b'0' && char_at value 1 == b'x'
    then digits (drop 2 value)
    else digits value

-- The digits of all characters.
abbrev pub hex : Bytes → Bytes
hex [] = []
hex (c ∷ s) = ctohexstr c ++ hex s

ctoi-digit : (v : ℕ) → v < 16 → ctoi (digit v) ≡ v
ctoi-digit v h = elim (Bool-cases (ltb 9 v)) [ inl e ↦ ground arith | inr e ↦ ground arith ]

byte_of-ctohexstr : (c : ℕ) (t : Bytes) → c < 128 → byte_of (take 2 (ctohexstr c ++ t)) ≡ c
unfolding ctohexstr byte_of
byte_of-ctohexstr c t h =
    rw (lt→ltb c 128 h, ctoi-digit (c / 16) (omega arith), ctoi-digit (c % 16) (omega arith))
      (omega arith)

length-ctohexstr : (c : ℕ) → length (ctohexstr c) ≡ 2
unfolding ctohexstr
length-ctohexstr c = elim (Bool-cases (ltb c 128)) [ inl e ↦ rw e refl | inr e ↦ rw e refl ]

hex-take :
    (n : ℕ) (s : Bytes)
    → n < length s
    → hex (take (suc n) s) ≡ hex (take n s) ++ ctohexstr (char_at s n)
hex-take n [] h = absurd (omega arith)
hex-take zero (c ∷ s) h = append-nil (ctohexstr c)
hex-take (suc n) (c ∷ s) h =
    ap (λ t. ctohexstr c ++ t) (hex-take n s (omega arith))
    ∙ sym (append_assoc (ctohexstr c) (hex (take n s)) (ctohexstr (char_at s n)))

hex_loop_lem : (n q : ℕ) (s p : Bytes) → n ≤ length s → hex_loop n (q ∷ s) p ≡ hex (take n s) ++ p
unfolding hex_loop
hex_loop_lem zero q s p h = refl
hex_loop_lem (suc n) q s p h =
    hex_loop_lem n q s (ctohexstr (char_at s n) ++ p) (omega arith)
    ∙ sym (append_assoc (hex (take n s)) (ctohexstr (char_at s n)) p)
    ∙ ap (λ t. t ++ p) (sym (hex-take n s (omega arith)))

drop_behind : (xs ys : Bytes) (m k : ℕ) → k ≡ length xs + m → drop k (xs ++ ys) ≡ drop m ys
drop_behind [] ys m k e = ap (λ n. drop n ys) (e ∙ omega arith)
drop_behind (x ∷ xs) ys m zero e = absurd (omega arith)
drop_behind (x ∷ xs) ys m (suc k) e = drop_behind xs ys m k (omega arith)

pair_at-hex :
    (i : ℕ) (s : Bytes)
    → All (λ c. c < 128) s
    → i < length s
    → byte_of (pair_at i (hex s)) ≡ char_at s i
pair_at-hex i [] a h = absurd (omega arith)
pair_at-hex zero (c ∷ s) a h = byte_of-ctohexstr c (hex s) a.0
pair_at-hex (suc i) (c ∷ s) a h =
    ap (λ t. byte_of (take 2 t))
      (drop_behind (ctohexstr c) (hex s) (i * 2) (suc i * 2) (omega (arith, length-ctohexstr c)))
    ∙ pair_at-hex i s a.1 (omega arith)

set_value-quoted : (s : Bytes) → set_value (b'"' ∷ s ++ b'"' ∷ []) ≡ digits (hex s)
unfolding set_value
set_value-quoted s =
    let l : length (s ++ b'"' ∷ []) ≡ length s + 1 = length-append s (b'"' ∷ []) in
    rw
      (
        get_or-append (b'"' ∷ s) b'"' 0 [] (suc (length (s ++ b'"' ∷ [])) - 1) (omega (arith, l)),
        not_short,
        short,
      )
      (ap digits (
        hex_loop_lem (length s) b'"' (s ++ b'"' ∷ []) [] (omega (arith, l))
        ∙ append-nil _
        ∙ ap hex (take-append s (b'"' ∷ []) (length s) refl)))
  where
    short : suc (length (s ++ b'"' ∷ [])) - 2 ≡ length s
    short = omega (arith, length-append s (b'"' ∷ []))

    not_short : ltb (suc (length (s ++ b'"' ∷ []))) 2 ≡ false
    not_short = ground (arith, length-append s (b'"' ∷ []))

-- A value in quotation marks is handed to gdb as the digits of its characters, and the dump shows
-- each of them again: for ASCII characters, the pair of digits at each place is read as the
-- character at that place.
pub set_value-shown :
    (s : Bytes) (i : ℕ)
    → All (λ c. c < 128) s
    → i < length s
    → (set_value (b'"' ∷ s ++ b'"' ∷ []) ≡ digits (hex s))
      × (byte_of (pair_at i (hex s)) ≡ char_at s i)
set_value-shown s i a h = (set_value-quoted s, pair_at-hex i s a h)
