-- ===== src/Common/Dynarray.antt =====
-- common/dynarray.cc: an output buffer that grows while text is added at its end. Allocations
-- succeed.
pub mod Appends
use vimgdb.Base.{
  ℕ, zero, suc, ◌+◌, ◌-◌, ◌*◌, ◌^◌, [], ◌++◌, Option, none, some, ltb, if◌then◌else◌, length, take,
}
use vimgdb.Common.Text.{Bytes, u32}

-- `s` is the string in the buffer, without its terminator.
pub record Dynarray : Type 0 where
  pub len : ℕ
  pub idx : ℕ
  pub s : Bytes

unfoldable pub init : Dynarray
init = record { len = 1024; idx = 0; s = [] }

-- `len - idx` of unsigned numbers.
abbrev pub space : Dynarray → ℕ
space d = u32 (d.len + 2 ^ 32 - d.idx)

-- `vsnprintf(s + idx, len - idx, …)` for a text that the format makes: what does not fit is cut
-- off, and one byte is the terminator's.
unfoldable pub print_at : Bytes → Dynarray → Dynarray
print_at text d = record d { s = take d.idx d.s ++ take (space d - 1) text }

-- The loop of `add` on fuel, with the number that it returns.
unfoldable pub add_loop : ℕ → Bytes → Dynarray → Option (ℕ × Dynarray)
add_loop zero text d = none
add_loop (suc fuel) text d =
    let p = print_at text d in
    let rest = add_loop fuel text (record p { len = u32 (d.len * 2) }) in
    if ltb (length text) (space d)
    then some (length text, record p { idx = u32 (d.idx + length text) })
    else rest

-- The doublings that lead from one byte to 2^31.
unfoldable pub add : Bytes → Dynarray → Option (ℕ × Dynarray)
unfolding add_loop print_at
add text d = add_loop 32 text d

unfoldable pub clear : Dynarray → Dynarray
clear d = record d { idx = 0; s = [] }
