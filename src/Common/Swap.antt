-- ===== src/Common/Swap.antt =====
-- `strswap2` of common/string.cc: the two-digit groups of a text in the opposite order.
pub mod Pairs
use vimgdb.Base.{ℕ, zero, suc, ◌+◌, [], ◌∷◌, ◌++◌, Option, none, some, length}
use vimgdb.Common.Text.{Bytes, char_at}

-- The loop, with `k` for `len - i`: `t[i]` and `t[i + 1]` are written behind what `t` holds. For an
-- odd `len` the last round reads before the text.
unfoldable pub swap_loop : ℕ → Bytes → Bytes → Option Bytes
swap_loop zero s t = some t
swap_loop (suc zero) s t = none
swap_loop (suc (suc k)) s t = swap_loop k s (t ++ char_at s k ∷ char_at s (k + 1) ∷ [])

-- With the length of the text as `len`.
unfoldable pub strswap2 : Bytes → Option Bytes
unfolding swap_loop
strswap2 s = swap_loop (length s) s []
