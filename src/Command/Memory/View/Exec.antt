-- ===== src/Command/Memory/View/Exec.antt =====
-- Runs of `Memory` against the segments behind the lines of the window.
use vimgdb.Base.{
  ℕ, ◌≡◌, Bool, true, false, not, List, [], ◌∷◌, Option, none, some, if◌then◌else◌, All, Bool-cases,
  inl, inr,
}
use vimgdb.Base.Runs.{Run, pure, and_then, ◌>>=◌, ◌>>◌, gets, modify, on, Then, Stays, bind-Then}
use vimgdb.Common.Text.{Bytes, codes, u32}
use vimgdb.Common.LineMap.{find}
use vimgdb.Gui.Interface.{Gui}
use vimgdb.Gdb.Events.{Handlers, run_handlers, inf_update}
use vimgdb.Command.Memory.{Formats}
use vimgdb.Command.Memory.Hex.{Value, digits, unclosed, outside, set_value}
use vimgdb.Command.Memory.View.{
  MemoryCmd, add, delete, set, fold, complete, view, other, Memories, Calls, Chunk,
  cmd_memory_update, register, memory_add, at_line, memory_delete, memory_fold, write_memory,
  memory_complete, memory_subcmd, cmd_memory_exec, then_update, align_memory, fresh_memory,
}
use vimgdb.Command.Memory.View.Live.{Holds, opened-Holds, updated-Holds}

module _ {G U : Type 0} (ui : Gui U) (calls : Calls G) (fmt : Formats)
    (h : Handlers (Memories G U)) where
  memory_add-Holds :
      (addr bytes : Bytes) (args : List Bytes) (w : ℕ) (s : Memories G U)
      → ui.win_getid (codes "memory") s.ui ≡ some w
      → (Holds ui calls fmt h) s
      → Then (Holds ui calls fmt h) (memory_add ui calls fmt h addr bytes args s)
  unfolding memory_add gets modify pure on ◌>>=◌ and_then
  memory_add-Holds addr bytes args w s e k =
      by_answer (calls.read addr (u32 (calls.strtol bytes)) s.gdb).0
    where
      read_on : Memories G U
      read_on = record s { gdb = (calls.read addr (u32 (calls.strtol bytes)) s.gdb).1 }

      by_answer :
          (m : Option Chunk)
          → Then (Holds ui calls fmt h) (
              on m
                (pure false)
                (λ m. then_update ui calls fmt h (
                  register ui calls fmt h args
                    (align_memory ui calls fmt h args (fresh_memory ui calls fmt h m))))
                read_on)
      by_answer none = record { live = k.live }
      by_answer (some m) =
          updated-Holds ui calls fmt h
            (register ui calls fmt h args
              (align_memory ui calls fmt h args (fresh_memory ui calls fmt h m)))
            w read_on e

  at_line-Holds :
      (line : Bytes) (f : ℕ → Memories G U → Memories G U) (w : ℕ) (s : Memories G U)
      → ((p : ℕ) → ui.win_getid (codes "memory") (f p s).ui ≡ some w)
      → (Holds ui calls fmt h) s
      → Then (Holds ui calls fmt h) (at_line ui calls fmt h line f s)
  unfolding at_line gets pure on ◌>>=◌ and_then
  at_line-Holds line f w s e k = by_line (find s.line_mems (calls.atoi line))
    where
      by_line :
          (p : Option ℕ)
          → Then
              (Holds ui calls fmt h)
              (on p (pure false) (λ p. then_update ui calls fmt h (f p)) s)
      by_line none = k
      by_line (some p) = updated-Holds ui calls fmt h (f p) w s (e p)

  run_handlers-Holds :
      (l : List (Run (Memories G U) Bool))
      → All (λ m. Stays (Holds ui calls fmt h) m) l
      → Stays (Holds ui calls fmt h) (run_handlers l)
  unfolding run_handlers pure
  run_handlers-Holds [] a s k = k
  run_handlers-Holds (m ∷ l) a s k =
      bind-Then (Holds ui calls fmt h) (Holds ui calls fmt h) m _ s (a.0 s k)
        (λ _ s k. run_handlers-Holds l a.1 s k)

  inf_update-Holds :
      Stays (Holds ui calls fmt h) h.get_changed
      → All (λ m. Stays (Holds ui calls fmt h) m) h.stop_hdlr_lst
      → Stays (Holds ui calls fmt h) (inf_update h)
  unfolding inf_update
  inf_update-Holds c a s k =
      bind-Then (Holds ui calls fmt h) (Holds ui calls fmt h) h.get_changed _ s (c s k)
        (λ _ s k. run_handlers-Holds h.stop_hdlr_lst a s k)

  write_memory-Holds :
      (addr : Bytes) (v : Value) (count : ℕ)
      → Stays (Holds ui calls fmt h) (inf_update h)
      → Stays (Holds ui calls fmt h) (write_memory ui calls fmt h addr v count)
  unfolding write_memory gets modify pure ◌>>=◌ and_then
  write_memory-Holds addr unclosed count i s k = k
  write_memory-Holds addr outside count i s k = tt
  write_memory-Holds addr (digits value) count i s k =
      by_answer (calls.write addr value count s.gdb).0
    where
      written : Memories G U
      written = record s { gdb = (calls.write addr value count s.gdb).1 }

      by_answer :
          (ok : Bool)
          → Then
              (Holds ui calls fmt h)
              ((if ok then (inf_update h >> pure false) else pure false) written)
      by_answer true =
          bind-Then (Holds ui calls fmt h) (Holds ui calls fmt h) (inf_update h) _ written
            (i written (record { live = k.live })) (λ _ s k. k)
      by_answer false = record { live = k.live }

  memory_complete-Holds :
      (path : Bytes) → Stays (Holds ui calls fmt h) (memory_complete ui calls fmt h path)
  unfolding memory_complete modify pure ◌>>=◌ and_then
  memory_complete-Holds path s k = elim (Bool-cases (not (calls.opens path))) [
    | inl e ↦ rw e k
    | inr e ↦ rw e (record { live = k.live })
  ]

  memory_subcmd-Holds :
      (c : MemoryCmd) (args : List Bytes) (w : ℕ) (s : Memories G U)
      → Stays (Holds ui calls fmt h) (inf_update h)
      → ui.win_getid (codes "memory") s.ui ≡ some w
      → (Holds ui calls fmt h) s
      → Then (Holds ui calls fmt h) (memory_subcmd ui calls fmt h c args s)
  unfolding memory_subcmd memory_delete memory_fold pure
  memory_subcmd-Holds add [] w s i e k = k
  memory_subcmd-Holds add (addr ∷ []) w s i e k = k
  memory_subcmd-Holds add (addr ∷ bytes ∷ args) w s i e k = memory_add-Holds addr bytes args w s e k
  memory_subcmd-Holds delete [] w s i e k = k
  memory_subcmd-Holds delete (line ∷ args) w s i e k = at_line-Holds line _ w s (λ p. e) k
  memory_subcmd-Holds set [] w s i e k = k
  memory_subcmd-Holds set (addr ∷ []) w s i e k = k
  memory_subcmd-Holds set (addr ∷ value ∷ args) w s i e k =
      write_memory-Holds addr (set_value value) _ i s k
  memory_subcmd-Holds fold [] w s i e k = k
  memory_subcmd-Holds fold (line ∷ args) w s i e k = at_line-Holds line _ w s (λ p. e) k
  memory_subcmd-Holds complete [] w s i e k = k
  memory_subcmd-Holds complete (path ∷ args) w s i e k = memory_complete-Holds path s k
  memory_subcmd-Holds view args w s i e k =
      bind-Then (Holds ui calls fmt h) (Holds ui calls fmt h) (cmd_memory_update ui calls fmt h) _ s
        (opened-Holds ui calls fmt h w s e) (λ _ s k. k)
  memory_subcmd-Holds other args w s i e k = k

  -- While the window of the memory is there, a run of `Memory` that returns, with any arguments,
  -- leaves each line of the window with a segment that is registered: where neither the update of
  -- the variables nor a handler leaves a line without its segment.
  pub cmd_memory_exec-Holds :
      (args : List Bytes) (w : ℕ) (s : Memories G U)
      → Stays (Holds ui calls fmt h) h.get_changed
      → All (λ m. Stays (Holds ui calls fmt h) m) h.stop_hdlr_lst
      → ui.win_getid (codes "memory") s.ui ≡ some w
      → (Holds ui calls fmt h) s
      → Then (Holds ui calls fmt h) (cmd_memory_exec ui calls fmt h args s)
  unfolding cmd_memory_exec on pure
  cmd_memory_exec-Holds [] w s c a e k = k
  cmd_memory_exec-Holds (name ∷ []) w s c a e k = k
  cmd_memory_exec-Holds (name ∷ sub ∷ args) w s c a e k = by_cmd (calls.subcmd sub)
    where
      by_cmd :
          (c : Option MemoryCmd)
          → Then
              (Holds ui calls fmt h)
              (on c (pure false) (λ c. memory_subcmd ui calls fmt h c args) s)
      by_cmd none = k
      by_cmd (some m) = memory_subcmd-Holds m args w s (inf_update-Holds c a) e k
