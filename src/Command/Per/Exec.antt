-- ===== src/Command/Per/Exec.antt =====
-- `Per` with its sub-commands: `cmd_per_exec` of user_cmd/per.cc. What USER logs is left out.
use vimgdb.Base.{
  ℕ, ◌+◌, ◌%◌, ◌^◌, Bool, false, not, List, [], ◌∷◌, ◌++◌, Option, none, some, ◌==◌, if◌then◌else◌,
  or_else,
}
use vimgdb.Base.Maps.{lookup, insert, nat_key, bytes_key}
use vimgdb.Base.Runs.{Run, pure, ◌>>=◌, ◌>>◌, gets, modify, on, crash, within}
use vimgdb.Common.Text.{Bytes, codes}
use vimgdb.Common.Swap.{strswap2}
use vimgdb.Common.LineMap.{Entry, find}
use vimgdb.Gui.Interface.{Gui}
use vimgdb.Gdb.Events.{Handlers, inf_update}
use vimgdb.Command.Memory.Hex.{Value, digits, unclosed, outside, set_value}
use vimgdb.Command.Per.{Register, Section, build_ranges, defined}
use vimgdb.Command.Per.Check.{Ranges, check_ranges}
use vimgdb.Command.Per.Print.{Formats, byte_swap_cond}
use vimgdb.Command.Per.View.{
  PerCmd, set, fold, complete, export, view, Parsed, Calls, Pers, on_gdb, cmd_per_update,
  cmd_per_cleanup,
}

-- A section that was found at a line is folded or unfolded.
unfoldable pub toggle_sections : ℕ → List (ℕ × Section) → List (ℕ × Section)
toggle_sections p [] = []
toggle_sections p ((q, sec) ∷ secs) =
    (if q == p then (q, record sec { expanded = not sec.expanded }) else (q, sec))
    ∷ toggle_sections p secs

unfoldable pub toggle_ranges : ℕ → Ranges → Ranges
unfolding toggle_sections
toggle_ranges p [] = []
toggle_ranges p ((q, r) ∷ ranges) =
    (q, record r { sections = toggle_sections p r.sections }) ∷ toggle_ranges p ranges

-- A pointer to a register.
unfoldable pub in_sections : ℕ → List (ℕ × Section) → Option Register
in_sections p [] = none
in_sections p ((q, sec) ∷ secs) = or_else (lookup p sec.regs) (in_sections p secs)

unfoldable pub in_ranges : ℕ → Ranges → Option Register
unfolding in_sections
in_ranges p [] = none
in_ranges p ((q, r) ∷ ranges) = or_else (in_sections p r.sections) (in_ranges p ranges)

module _ {G U : Type 0} (ui : Gui U) (calls : Calls G) (fmt : Formats)
    (h : Handlers (Pers G U)) where
  -- Behind a change, the window is printed again.
  unfoldable pub then_update : (Pers G U → Pers G U) → Run (Pers G U) Bool
  unfolding cmd_per_update
  then_update f = do modify f; cmd_per_update ui calls fmt h; pure false

  -- Behind the parser: the ranges are in the list, and stay there if it failed.
  unfoldable pub load_parsed : Bytes → Parsed → Run (Pers G U) Bool
  unfolding within check_ranges build_ranges cmd_per_cleanup then_update
  load_parsed path t = do
    ranges ← within (λ s. s.fresh) (λ s p. record s { fresh = p }) (build_ranges t.ranges)
    modify (λ s. record s { range_lst = ranges; end_little = t.end_little })
    if not t.ok then pure false else do
      checked ← on_gdb ui calls fmt h (check_ranges calls.acquire ranges)
      on checked (then_update (cmd_per_cleanup ui calls fmt h))
          (λ ranges. then_update (λ s. record s { range_lst = ranges; per_file = some path }))

  unfoldable pub per_load : Bytes → Run (Pers G U) Bool
  unfolding load_parsed cmd_per_cleanup
  per_load path = do
    modify (cmd_per_cleanup ui calls fmt h)
    on (calls.perparse path) (pure false) (load_parsed path)

  -- `gdb_memory_t::set`, and the update if gdb took the value.
  unfoldable pub write_register : ℕ → Value → ℕ → Run (Pers G U) Bool
  unfolding inf_update
  write_register addr unclosed nbytes = pure false
  write_register addr outside nbytes = crash
  write_register addr (digits value) nbytes = do
    ok ← gets (λ s. (calls.write addr value nbytes s.gdb).0)
    modify (λ s. record s { gdb = (calls.write addr value nbytes s.gdb).1 })
    if ok then (inf_update h >> pure false) else pure false

  -- The headlines have no range: `reg->parent` is null.
  unfoldable pub set_register : Register → Bytes → Run (Pers G U) Bool
  unfolding byte_swap_cond defined write_register
  set_register reg value = do
    s ← gets (λ s. s)
    value ← if byte_swap_cond reg.opt s.end_little then defined (strswap2 value) else pure value
    on reg.parent (crash) (λ p.
        on (lookup p s.range_lst) (crash)
          (λ r. write_register ((r.base + reg.offset) % 2 ^ 64) (set_value value) reg.nbytes))

  unfoldable pub per_set : Bytes → Bytes → Run (Pers G U) Bool
  unfolding find in_ranges set_register
  per_set line value = do
    reg ← gets (λ s. find s.line_regs (calls.atoi line))
    lst ← gets (λ s. s.range_lst)
    on reg (pure false) (λ p. on (in_ranges p lst) (crash) (λ reg. set_register reg value))

  unfoldable pub per_fold : Bytes → Run (Pers G U) Bool
  unfolding find toggle_ranges then_update
  per_fold line = do
    sec ← gets (λ s. find s.line_secs (calls.atoi line))
    on sec (pure false)
        (λ p. then_update (λ s. record s { range_lst = toggle_ranges p s.range_lst }))

  -- The items of the lists for completion end in a backslash and an n.
  unfoldable pub line_rows : List (Entry ℕ) → Bytes
  line_rows [] = []
  line_rows (e ∷ lst) = fmt.decimal e.line ++ codes "\\n" ++ line_rows lst

  -- What a file holds behind `fopen`, the writes and `fclose`.
  unfoldable pub write_file : Bytes → (Pers G U → Bytes) → Run (Pers G U) Bool
  write_file path text = do
    modify (λ s. if calls.opens path then record s { files = insert path (text s) s.files } else s)
    pure false

  unfoldable pub per_complete : Bytes → Run (Pers G U) Bool
  unfolding write_file line_rows
  per_complete path =
      write_file path (λ s. line_rows s.line_secs ++ codes "<regs>" ++ line_rows s.line_regs)

  unfoldable pub export_text : Option Bytes → Bytes
  export_text none = []
  export_text (some file) = codes "Per " ++ file ++ 10 ∷ 10 ∷ []

  unfoldable pub per_export : Bytes → Run (Pers G U) Bool
  unfolding write_file export_text
  per_export path = write_file path (λ s. export_text s.per_file)

  -- The sub-commands, by the arguments behind them.
  unfoldable pub per_subcmd : PerCmd → List Bytes → Run (Pers G U) Bool
  unfolding per_set per_fold per_complete per_export cmd_per_update
  per_subcmd set (line ∷ value ∷ args) = per_set line value
  per_subcmd fold (line ∷ args) = per_fold line
  per_subcmd complete (path ∷ args) = per_complete path
  per_subcmd export (path ∷ args) = per_export path
  per_subcmd view args = cmd_per_update ui calls fmt h >> pure false
  per_subcmd _ _ = pure false

  -- A first argument that is no sub-command is a file.
  unfoldable pub cmd_per_exec : List Bytes → Run (Pers G U) Bool
  unfolding per_subcmd per_load
  cmd_per_exec (name ∷ sub ∷ args) = on (calls.subcmd sub) (per_load sub) (λ c. per_subcmd c args)
  cmd_per_exec _ = pure false
