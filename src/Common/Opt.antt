-- ===== src/Common/Opt.antt =====
-- common/opt.cc: the options of the program. What it prints on an error is left out.
pub mod Spelled
use vimgdb.Base.{
  ℕ, ◌+◌, ◌-◌, Bool, List, [], ◌∷◌, ◌++◌, Option, none, some, ◌==◌, if◌then◌else◌, length, map,
}
use vimgdb.Common.Text.{Bytes, codes, char_at}
use vimgdb.Common.Split.{Arg, Argv, argv, overrun, stuck, strsplit}

-- `opt_t`
pub record Opt : Type 0 where
  pub prg_name : Bytes
  pub vim_cwd : Bytes
  pub log_file : Option Bytes
  pub gdb_argv : List Bytes

-- A result, the result `-1`, or an access outside of an array.
pub data Outcome (A : Type 0) : Type 0 where
  done : A → Outcome A
  refused stray : Outcome A

unfoldable pub then_do : {A B : Type 0} → Outcome A → (A → Outcome B) → Outcome B
then_do (done a) f = f a
then_do refused f = refused
then_do stray f = stray

-- The variables of the loop: the arguments of `-c`, null at first, and the log file.
pub record Seen : Type 0 where
  pub gdb_argv : Option (List Bytes)
  pub log_file : Option Bytes

abbrev pub unseen : Seen
unseen = record { gdb_argv = none; log_file = none }

-- `case 'd'`, where `daemon` says whether `daemon(1, 0)` succeeds.
unfoldable pub daemonise : (daemon : Bool) → Seen → Outcome Seen
daemonise daemon s = if daemon then done s else refused

-- `case 'c'`
unfoldable pub gdb_line : Bytes → Seen → Outcome Seen
gdb_line line s = elim (strsplit line) [
  | argv args ↦ done (record s { gdb_argv = some (map (λ (a : Arg). a.text) args) })
  | overrun ↦ stray
  | stuck ↦ stray
]

-- `case 'l'`
unfoldable pub log_to : Bytes → Seen → Outcome Seen
log_to file s = done (record s { log_file = some file })

-- The loop over `argv[1]` up to the one before the last. The second byte tells an option; of an
-- empty argument it lies behind the terminator.
unfoldable pub opt_loop : (daemon : Bool) → List Bytes → Seen → Outcome Seen
opt_loop daemon [] s = done s
opt_loop daemon ([] ∷ args) s = stray
opt_loop daemon ((c ∷ a) ∷ []) s = if char_at a 0 == b'd' then daemonise daemon s else refused
opt_loop daemon ((c ∷ a) ∷ b ∷ args) s =
    let next = then_do (daemonise daemon s) (opt_loop daemon (b ∷ args)) in
    let gdb = then_do (gdb_line b s) (opt_loop daemon args) in
    let log = then_do (log_to b s) (opt_loop daemon args) in
    if char_at a 0 == b'd'
    then next
    else if char_at a 0 == b'c'
    then gdb
    else if char_at a 0 == b'l'
    then log
    else refused

-- `opt.vim_cwd` without a slash at its end; an empty one is read before its first byte.
unfoldable pub strip : Bytes → Outcome Bytes
strip [] = stray
strip (c ∷ []) = if c == b'/' then done [] else done (c ∷ [])
strip (c ∷ d ∷ s) = then_do (strip (d ∷ s)) (λ t. done (c ∷ t))

-- `GDB_CMD`, `GDB_ARGV1` and `GDB_ARGV2`
abbrev pub gdb_tail : List Bytes
gdb_tail = codes "--interpreter=mi" ∷ codes "-q" ∷ []

-- The command line of gdb; `-c` with an empty line reads and writes outside of the arrays.
unfoldable pub gdb_command : Option (List Bytes) → Outcome (List Bytes)
gdb_command none = done (codes "gdb" ∷ gdb_tail)
gdb_command (some []) = stray
gdb_command (some (a ∷ args)) = done (a ∷ args ++ gdb_tail)

-- `argv[argc - 1]`, and what stands before it.
unfoldable pub last_of : Bytes → List Bytes → Bytes
last_of a [] = a
last_of a (b ∷ args) = last_of b args

unfoldable pub but_last : Bytes → List Bytes → List Bytes
but_last a [] = []
but_last a (b ∷ args) = a ∷ but_last b args

unfoldable pub finish : Bytes → Bytes → Seen → Outcome Opt
finish prg cwd s =
    then_do (gdb_command s.gdb_argv)
      (λ g. done (record { prg_name = prg; vim_cwd = cwd; log_file = s.log_file; gdb_argv = g }))

unfoldable pub opt_parse : (daemon : Bool) → List Bytes → Outcome Opt
unfolding then_do
opt_parse daemon [] = refused
opt_parse daemon (prg ∷ []) = refused
opt_parse daemon (prg ∷ a ∷ args) =
    then_do (strip (last_of a args))
      (λ cwd. then_do (opt_loop daemon (but_last a args) unseen) (finish prg cwd))
