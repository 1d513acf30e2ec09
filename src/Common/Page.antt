-- ===== src/Common/Page.antt =====
-- The text of a window while a command prints it: `obuf`, a growing output buffer, and `line`, the
-- number of the line that is printed next, at which a line map registers objects.
pub mod Lines
use vimgdb.Base.{ℕ, zero, suc, ◌+◌, List, [], ◌∷◌, ◌++◌}
use vimgdb.Common.Text.{Bytes}
use vimgdb.Common.LineMap.{Entry, add}

pub record Page : Type 0 where
  pub obuf : Bytes
  pub line : ℕ

-- `obuf.clear(); line = 1;`
unfoldable pub blank : Page
blank = record { obuf = []; line = 1 }

-- `obuf.add(…)`
unfoldable pub put : Bytes → Page → Page
put t p = record p { obuf = p.obuf ++ t }

-- `line += n`
unfoldable pub advance : ℕ → Page → Page
advance n p = record p { line = p.line + n }

-- `obuf.add(…); line++;`
unfoldable pub put_line : Bytes → Page → Page
unfolding put advance
put_line t p = advance 1 (put t p)

-- The `n` rounds of a counted loop that prints.
unfoldable pub repeat {ℓ} : {S : Type ℓ} → ℕ → (S → S) → S → S
repeat zero f s = s
repeat (suc n) f s = repeat n f (f s)

-- `line_map.add(line, data)`
unfoldable pub mark {ℓ} : {A : Type ℓ} → Page → A → List (Entry A) → List (Entry A)
mark p a marks = add marks p.line a

-- The tags that start and end a part of a line in a colour: an accent in its two bytes, or a
-- backtick, and the name.
abbrev pub tag_on : Bytes → Bytes
tag_on name = 194 ∷ 180 ∷ name

abbrev pub tag_off : Bytes → Bytes
tag_off name = b'`' ∷ name
