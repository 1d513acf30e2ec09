-- ===== src/Gdb/Breakpoints.antt =====
-- gdb/breakpoint.cc, and the commands for breakpoints that `mi_issue_cmd` hands to gdb. What gdb
-- answers is a parameter: a table that gdb keeps, of the breakpoints and whether they are enabled,
-- is all that is known of it.
use vimgdb.Base.{ℕ, ◌≡◌, Bool, true, false, ◌&&◌, List, Option, none, some, ◌==◌, if◌then◌else◌}
use vimgdb.Common.Text.{Bytes}

-- `gdb_breakpoint_t`; the strings may be null.
pub record Breakpoint : Type 0 where
  pub num : ℕ
  pub temporary : Bool
  pub line : ℕ
  pub filename : Option Bytes
  pub fullname : Option Bytes
  pub at : Option Bytes
  pub condition : Option Bytes
  pub ignore_cnt : Option Bytes
  pub enabled : Bool

-- Commands with their result: whether gdb accepts, and the breakpoint it reports.
pub record Gdb (G : Type 0) : Type 0 where
  pub break_insert : List Bytes → G → Option Breakpoint × G
  pub break_delete : ℕ → G → Bool × G
  pub break_enable : ℕ → G → Bool × G
  pub break_disable : ℕ → G → Bool × G

-- What gdb documents: a new breakpoint has a number that none has, a command changes the one
-- breakpoint that it names, and a refused command changes nothing.
pub record IsTable {G : Type 0} (gdb : Gdb G) (enabled_at : ℕ → G → Option Bool) : Type 0 where
  pub fresh :
      (args : List Bytes) (g : G) (b : Breakpoint)
      → (gdb.break_insert args g).0 ≡ some b
      → enabled_at b.num g ≡ none
  pub inserted :
      (args : List Bytes) (g : G) (b : Breakpoint)
      → (gdb.break_insert args g).0 ≡ some b
      → (n : ℕ)
      → enabled_at n (gdb.break_insert args g).1
        ≡ (if b.num == n then some b.enabled else enabled_at n g)
  pub not_inserted :
      (args : List Bytes) (g : G)
      → (gdb.break_insert args g).0 ≡ none
      → (n : ℕ) → enabled_at n (gdb.break_insert args g).1 ≡ enabled_at n g
  pub deleted :
      (k n : ℕ) (g : G)
      → enabled_at n (gdb.break_delete k g).1
        ≡ (if (gdb.break_delete k g).0 && k == n then none else enabled_at n g)
  pub enables :
      (k n : ℕ) (g : G)
      → enabled_at n (gdb.break_enable k g).1
        ≡ (if (gdb.break_enable k g).0 && k == n then some true else enabled_at n g)
  pub disables :
      (k n : ℕ) (g : G)
      → enabled_at n (gdb.break_disable k g).1
        ≡ (if (gdb.break_disable k g).0 && k == n then some false else enabled_at n g)
