-- ===== src/Common/Text.antt =====
-- C strings: what the functions of common/string.cc share.
use Prim.Native.Char.{code}
use Prim.Native.String.{String}
use native.Mathlib.Nat.{pow-succ'}
use vimgdb.Base.{ℕ, suc, ◌*◌, ◌≡◌, arith, ◌+◌, ◌%◌, ◌^◌, List, [], ◌∷◌, get_or, ltb, if◌then◌else◌}

abbrev pub Bytes : Type 0
Bytes = List ℕ

-- The bytes of an ASCII literal.
abbrev pub codes : String → Bytes
codes String.[] = []
codes (String.◌∷◌ c s) = code c ∷ codes s

-- `s[i]` of a string that is held without its terminator: the terminator is read at its end.
abbrev pub char_at : Bytes → ℕ → ℕ
char_at s i = get_or s i 0

abbrev pub u32 : ℕ → ℕ
u32 n = n % 2 ^ 32

-- `if(*max < len){ *max += len; ... new char[*max] }`: the size of a buffer that is kept between
-- calls and enlarged when it is too small.
unfoldable pub ensure : ℕ → ℕ → ℕ
ensure max len = if ltb max len then u32 (max + len) else max

-- A size on fuel: one doubling less to come.
pub doubled : (n fuel : ℕ) → n * 2 ^ suc fuel ≡ (n * 2) * 2 ^ fuel
doubled n fuel = rw (pow-succ' 2 fuel) (omega arith)
