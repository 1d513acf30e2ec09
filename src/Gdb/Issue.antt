-- ===== src/Gdb/Issue.antt =====
-- The line that `mi_issue_cmd` of gdb/gdb.cc writes to gdb: a token, a command and its parameters,
-- as a format spells them.
pub mod Spelled
pub mod Ends
use vimgdb.Base.{
  ℕ, zero, suc, ◌+◌, Bool, true, false, List, [], ◌∷◌, ◌++◌, ◌&&◌, ◌||◌, Option, none, some, ◌==◌,
  if◌then◌else◌, length, drop, take,
}
use vimgdb.Base.Maps.{bytes_same}
use vimgdb.Common.Text.{Bytes, codes, char_at}

-- `itoa` of a number without sign, in base 10 and 16: what `sprintf` makes of it.
pub record Digits : Type 0 where
  pub decimal : ℕ → Bytes
  pub hexadecimal : ℕ → Bytes

-- A variadic argument: a number by its sign and absolute value, a string, or an array of strings
-- with its length.
pub data Param : Type 0 where
  number : (negative : Bool) → ℕ → Param
  string : Bytes → Param
  array : List Bytes → Param

-- A round of the loop: what is written, the rest of the format and of the arguments; the result -1;
-- or an argument of another type than the format says.
pub data Round : Type 0 where
  wrote : Bytes → Bytes → List Param → Round
  invalid mistyped : Round

-- `strncmp(s, prefix, n) == 0`, with `n` the length of `prefix`.
abbrev pub starts : Bytes → Bytes → Bool
starts prefix s = bytes_same (take (length prefix) s) prefix

-- `for(j=0; j<argc; j++){ … }`, with `mark` for a quotation mark or nothing.
unfoldable pub join : (mark : Bytes) → List Bytes → Bytes
join mark [] = []
join mark (s ∷ []) = mark ++ s ++ mark
join mark (s ∷ t ∷ ss) = mark ++ s ++ mark ++ b' ' ∷ join mark (t ∷ ss)

-- `itoa` of an `int` or a `long int`.
abbrev pub signed : Digits → Bool → ℕ → Bytes
signed d true v = b'-' ∷ d.decimal v
signed d false v = d.decimal v

-- The cases that take a number, and leave `fmt`.
unfoldable pub put_signed : Digits → Bytes → List Param → Round
put_signed d fmt (number neg v ∷ args) = wrote (signed d neg v) fmt args
put_signed d fmt _ = mistyped

unfoldable pub put_unsigned : (ℕ → Bytes) → Bytes → List Param → Round
put_unsigned print fmt (number false v ∷ args) = wrote (print v) fmt args
put_unsigned print fmt _ = mistyped

-- The cases that take strings.
unfoldable pub put_array : (mark : Bytes) → Bytes → List Param → Round
put_array mark fmt (array ss ∷ args) = wrote (join mark ss) fmt args
put_array mark fmt _ = mistyped

unfoldable pub put_string : Bytes → List Param → Round
put_string fmt (string s ∷ args) = wrote s fmt args
put_string fmt _ = mistyped

-- `"%l"`, with what stands behind it.
unfoldable pub put_long : Digits → Bytes → List Param → Round
unfolding put_signed put_unsigned
put_long d fmt args =
    if char_at fmt 0 == b'd'
    then put_signed d (drop 1 fmt) args
    else if char_at fmt 0 == b'u'
    then put_unsigned d.decimal (drop 1 fmt) args
    else if char_at fmt 0 == b'x'
    then put_unsigned d.hexadecimal (drop 1 fmt) args
    else invalid

-- `"%s"`, with what stands behind it.
unfoldable pub put_text : Bytes → List Param → Round
unfolding put_array put_string
put_text fmt args =
    if starts (codes "s %d") fmt
    then put_array [] (drop 4 fmt) args
    else if starts (codes "sq %d") fmt
    then put_array (b'"' ∷ []) (drop 5 fmt) args
    else put_string fmt args

-- `"%"`, with what stands behind it.
unfoldable pub put_param : Digits → Bytes → List Param → Round
unfolding put_long put_signed put_unsigned put_text
put_param d fmt args =
    if char_at fmt 0 == b'l'
    then put_long d (drop 1 fmt) args
    else if char_at fmt 0 == b'd'
    then put_signed d (drop 1 fmt) args
    else if char_at fmt 0 == b'u'
    then put_unsigned d.decimal (drop 1 fmt) args
    else if char_at fmt 0 == b'x'
    then put_unsigned d.hexadecimal (drop 1 fmt) args
    else if char_at fmt 0 == b's'
    then put_text (drop 1 fmt) args
    else invalid

-- A character of the format.
unfoldable pub put : Digits → ℕ → Bytes → List Param → Round
unfolding put_param
put d c fmt args = if c == b'%' then put_param d fmt args else wrote (c ∷ []) fmt args

-- What the loop wrote, and how it ended; the fuel ran out at `stuck`.
pub data Params : Type 0 where
  params : Bytes → Params
  refused undefined stuck : Params

unfoldable pub continue : (Bytes → List Param → Params) → Round → Params
continue more invalid = refused
continue more mistyped = undefined
continue more (wrote t fmt args) = elim (more fmt args) [
  | params u ↦ params (t ++ u)
  | refused ↦ refused
  | undefined ↦ undefined
  | stuck ↦ stuck
]

-- `for(i=0; i<strlen(fmt); i++)` on fuel.
unfoldable pub put_all : Digits → ℕ → Bytes → List Param → Params
put_all d zero fmt args = stuck
put_all d (suc fuel) [] args = params []
put_all d (suc fuel) (c ∷ fmt) args = continue (put_all d fuel) (put d c fmt args)

-- `if(*fmt != 0) gdb_term->write(" ")`
abbrev pub space : Bytes → Bytes
space [] = []
space (c ∷ fmt) = b' ' ∷ []

-- All that is written for a command, with the newline; a refused one leaves its line without end.
unfoldable pub issue_line : Digits → (token : ℕ) → (cmd fmt : Bytes) → List Param → Params
unfolding put_all continue put
issue_line d token cmd fmt args = elim (put_all d (length fmt + 1) fmt args) [
  | params t ↦ params (d.decimal token ++ b'-' ∷ cmd ++ space fmt ++ t ++ 10 ∷ [])
  | refused ↦ refused
  | undefined ↦ undefined
  | stuck ↦ stuck
]
