-- ===== src/Common/Split.antt =====
-- `strsplit` of common/string.cc. A position `i` of the line is held as the rest of the line from
-- `i` on, so that `i == len` is the empty rest; the one position behind it, which an unterminated
-- quote leads to, is a result of its own.
pub mod Count
pub mod Passes
pub mod Length
pub mod Span
use vimgdb.Base.{
  ℕ, zero, suc, ◌+◌, ◌-◌, Bool, true, false, ◌&&◌, ◌||◌, List, [], ◌∷◌, ◌++◌, Option, none, some,
  ltb, ◌==◌, if◌then◌else◌, length, drop,
}
use vimgdb.Common.Text.{Bytes, char_at}
use vimgdb.Common.Escape.{deescape_char}

abbrev pub blank : ℕ
blank = b' '

abbrev pub quote : ℕ
quote = b'"'

abbrev pub backslash : ℕ
backslash = b'\\'

-- The byte behind a backslash that the first pass takes with it.
abbrev pub count_escape : ℕ → Bool
count_escape c = c == quote

-- The bytes behind a backslash that the second pass takes with it.
abbrev pub store_escape : ℕ → Bool
store_escape c = c == quote || c == b'n' || c == b'r' || c == b't' || c == backslash

-- `i == len`
abbrev pub at_end : Bytes → Bool
at_end [] = true
at_end (c ∷ s) = false

-- `if(line[i] == ' '){ while(++i < len && line[i] == ' '); … }`
unfoldable pub skip : Bytes → Bytes
skip [] = []
skip (c ∷ s) = let rest = skip s in if c == blank then rest else c ∷ s

-- Where the loop over a quoted text ends, with the bytes counted.
pub data Quoted : Type 0 where
  closed : Bytes → ℕ → Quoted
  unterminated : ℕ → Quoted

-- `while(++i < len && line[i] != '"'){ … }` and the `++i` behind it; the argument is the rest
-- behind the opening quote.
unfoldable pub quoted : (ℕ → Bool) → Bytes → ℕ → Quoted
quoted esc [] n = unterminated n
quoted esc (c ∷ []) n = if c == quote then closed [] n else unterminated (n + 1)
quoted esc (c ∷ d ∷ s) n =
    let pair = quoted esc s (n + 1) in
    let single = quoted esc (d ∷ s) (n + 1) in
    if c == quote then closed (d ∷ s) n else if c == backslash && esc d then pair else single

-- `do{ … }while(++i < len)` over text outside quotes.
unfoldable pub unquoted : (ℕ → Bool) → Bytes → ℕ → Bytes × ℕ
unquoted esc [] n = ([], n)
unquoted esc (c ∷ []) n = if c == blank || c == quote then (c ∷ [], n) else ([], n + 1)
unquoted esc (c ∷ d ∷ s) n =
    let pair = unquoted esc s (n + 1) in
    let single = unquoted esc (d ∷ s) (n + 1) in
    if c == blank || c == quote
    then (c ∷ d ∷ s, n)
    else if c == backslash && esc d
    then pair
    else single

-- Where an argument ends: at a rest of the line, or behind its end (`i > len`).
pub data WordEnd : Type 0 where
  ends : Bytes → ℕ → WordEnd
  past : WordEnd
  out_of_fuel : WordEnd

-- `if(line[i] == ' ') break;`, or else the next piece.
unfoldable pub next_piece : (Bytes → ℕ → WordEnd) → Bytes → ℕ → WordEnd
next_piece more rest n = if char_at rest 0 == blank then ends rest n else more rest n

-- `if(++i >= len) break;` behind a quoted text.
unfoldable pub after_quote : (Bytes → ℕ → WordEnd) → Quoted → WordEnd
after_quote more (closed [] n) = ends [] n
after_quote more (closed (c ∷ s) n) = next_piece more (c ∷ s) n
after_quote more (unterminated n) = past

-- `while(i < len){ … if(line[i] == ' ') break; }`: the pieces of one argument.
unfoldable pub word : (ℕ → Bool) → ℕ → Bytes → ℕ → WordEnd
word esc zero s n = out_of_fuel
word esc (suc fuel) [] n = ends [] n
word esc (suc fuel) (c ∷ s) n =
    let more = word esc fuel in
    let text = after_quote more (quoted esc s n) in
    let plain = next_piece more (unquoted esc (c ∷ s) n).0 (unquoted esc (c ∷ s) n).1 in
    if c == quote then text else plain

abbrev pub word_end : (ℕ → Bool) → Bytes → WordEnd
word_end esc s = word esc (length s + 1) s 0

-- Behind an argument of the first pass: `if(i > len) break; argc++;`.
unfoldable pub count_word : (Bytes → ℕ → Option ℕ) → ℕ → WordEnd → Option ℕ
count_word more argc (ends rest n) = more rest (argc + 1)
count_word more argc past = some argc
count_word more argc out_of_fuel = none

-- The first pass: the number of arguments.
unfoldable pub count_args : ℕ → Bytes → ℕ → Option ℕ
count_args zero line argc = none
count_args (suc fuel) line argc =
    let start = skip line in
    let next = count_word (count_args fuel) argc (word_end count_escape start) in
    if at_end start then some argc else next

-- `for(; start<i; start++)`: the bytes of an argument, `k` of the line from `start` on.
unfoldable pub copy : ℕ → Bytes → Bytes → Bytes
copy zero s arg = arg
copy (suc zero) s arg =
    if char_at s 0 == quote
    then arg
    else if char_at s 0 == backslash
    then (elim (deescape_char (char_at s 1)) [
      | some x ↦ arg ++ x ∷ []
      | none ↦ arg ++ backslash ∷ []
    ])
    else arg ++ char_at s 0 ∷ []
copy (suc (suc k)) s arg =
    let skipped = copy (suc k) (drop 1 s) arg in
    let slash = copy (suc k) (drop 1 s) (arg ++ backslash ∷ []) in
    let pair = λ (x : ℕ). copy k (drop 2 s) (arg ++ x ∷ []) in
    let plain = copy (suc k) (drop 1 s) (arg ++ char_at s 0 ∷ []) in
    if char_at s 0 == quote
    then skipped
    else if char_at s 0 == backslash
    then (elim (deescape_char (char_at s 1)) [ some x ↦ pair x | none ↦ slash ])
    else plain

-- An argument: the size counted for it, less the terminator, and the bytes copied.
pub record Arg : Type 0 where
  pub arg_len : ℕ
  pub text : Bytes

-- `argv[argc] = new char[arg_len + 1]` and the copy of what stands between `start` and `i`.
unfoldable pub make_arg : Bytes → Bytes → ℕ → Arg
make_arg start rest n = record { arg_len = n; text = copy (length start - length rest) start [] }

-- The arguments; or a write to `argv[argc]` behind the slots that the first pass counted.
pub data Argv : Type 0 where
  argv : List Arg → Argv
  overrun : Argv
  stuck : Argv

-- Behind an argument of the second pass: `if(i > len) break;`, or the argument is stored.
unfoldable pub store_word : (ℕ → Bytes → List Arg → Argv) → ℕ → Bytes → List Arg → WordEnd → Argv
store_word more zero start done (ends rest n) = overrun
store_word more (suc slots) start done (ends rest n) =
    more slots rest (done ++ make_arg start rest n ∷ [])
store_word more _ start done past = argv done
store_word more _ start done out_of_fuel = stuck

-- The second pass: `slots` of the array are left, `done` are the arguments so far.
unfoldable pub store_args : ℕ → ℕ → Bytes → List Arg → Argv
store_args zero slots line done = stuck
store_args (suc fuel) slots line done =
    let start = skip line in
    let next = store_word (store_args fuel) slots start done (word_end store_escape start) in
    if at_end start then argv done else next

-- The second pass in the array that the first one sized.
unfoldable pub store_all : Bytes → Option ℕ → Argv
store_all line none = stuck
store_all line (some argc) = store_args (length line + 1) argc line []

-- `strsplit` of a line that is not null.
unfoldable pub strsplit : Bytes → Argv
unfolding skip quoted unquoted next_piece after_quote word count_word count_args copy make_arg
    store_word store_args store_all deescape_char
strsplit line = store_all line (count_args (length line + 1) line 0)
