-- ===== src/Common/Escape.antt =====
-- `strescape` and `strdeescape` of common/string.cc.
pub mod InPlace
pub mod RoundTrip
use vimgdb.Base.{
  ℕ, zero, suc, ◌+◌, ◌*◌, List, [], ◌∷◌, ◌++◌, Option, none, some, ltb, ◌==◌, if◌then◌else◌, length,
  set, take,
}
use vimgdb.Common.Text.{Bytes, char_at, u32, ensure}

-- What one round of the loop of `strescape` writes behind `dst[o]`.
unfoldable pub escape_char : ℕ → Bytes
escape_char c =
    if c == 9
    then b'\\' ∷ b't' ∷ []
    else if c == 10
    then b'\\' ∷ b'n' ∷ []
    else if c == 13
    then b'\\' ∷ b'r' ∷ []
    else if c == b'"'
    then b'\\' ∷ b'"' ∷ []
    else if c == b'\\'
    then b'\\' ∷ b'\\' ∷ []
    else c ∷ []

-- The loop over the copy `src`, of less than 2^31 bytes, as `len/2` of a 32-bit `len` bounds it; `dst` is what stands in the target before `o`.
escape_loop : Bytes → Bytes → Bytes
escape_loop [] dst = dst
escape_loop (c ∷ src) dst = escape_loop src (dst ++ escape_char c)

-- What `strescape` leaves: the text in `*_dst` and the size in `*max`.
pub record Escaped : Type 0 where
  pub text : Bytes
  pub max : ℕ

-- Behind the null tests, and with `new` that succeeds.
unfoldable pub strescape : Bytes → ℕ → Escaped
unfolding escape_loop escape_char ensure
strescape s max =
    let len = u32 (length s * 2 + 1) in record { text = escape_loop s []; max = ensure max len }

-- The byte that a backslash before `c` stands for, if the two are an escape sequence.
unfoldable pub deescape_char : ℕ → Option ℕ
deescape_char c =
    if c == b't'
    then some 9
    else if c == b'n'
    then some 10
    else if c == b'r'
    then some 13
    else if c == b'"'
    then some b'"'
    else if c == b'\\'
    then some b'\\'
    else none

-- The loop's variables: the buffer, which is read at `i` and written at `o`.
pub record Cursor : Type 0 where
  pub buf : Bytes
  pub i : ℕ
  pub o : ℕ

abbrev pub cursor : Bytes → ℕ → ℕ → Cursor
cursor s i o = record { buf = s; i = i; o = o }

-- `if(i != o) s[o] = s[i]`
unfoldable pub move : Bytes → ℕ → ℕ → Bytes
move s i o = if i == o then s else set s o (char_at s i)

-- A backslash at `i`: an escape sequence takes two bytes, any other backslash stays.
unfoldable pub deescape_pair : Bytes → ℕ → ℕ → Cursor
deescape_pair s i o = elim (deescape_char (char_at s (i + 1))) [
  | some c ↦ cursor (set s o c) (i + 1) o
  | none ↦ cursor (move s i o) i o
]

-- The body of the loop, with the `i++, o++` of its head.
unfoldable pub deescape_step : Bytes → ℕ → ℕ → Cursor
deescape_step s i o =
    let c = if char_at s i == b'\\' then deescape_pair s i o else cursor (move s i o) i o in
    cursor c.buf (c.i + 1) (c.o + 1)

-- The loop on fuel; `none` means that the fuel ran out.
deescape_loop : ℕ → ℕ → Bytes → ℕ → ℕ → Option Cursor
deescape_loop zero len s i o = none
deescape_loop (suc fuel) len s i o =
    let c = deescape_step s i o in
    let rest = deescape_loop fuel len c.buf c.i c.o in
    if ltb i len then rest else some (cursor s i o)

-- `s[o] = 0`: the string is what stands before `o`.
unfoldable pub terminate : Option Cursor → Option Bytes
terminate none = none
terminate (some c) = some (take c.o c.buf)

unfoldable pub strdeescape : Bytes → Option Bytes
unfolding deescape_loop deescape_step deescape_pair deescape_char move terminate
strdeescape s = terminate (deescape_loop (length s + 1) (length s) s 0 0)
