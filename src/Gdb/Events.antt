-- ===== src/Gdb/Events.antt =====
-- Events of gdb (gdb/gdb.cc): `mi_proc_async` queues them, `event_thread` handles them, and the
-- state of the inferior follows them. What `USER` logs is left out.
pub mod Follows
use vimgdb.Base.{ℕ, Bool, true, false, not, List, [], ◌∷◌, ◌++◌, Option, none, some, if◌then◌else◌}
use vimgdb.Base.Maps.{bytes_same}
use vimgdb.Base.Runs.{Run, pure, ◌>>=◌, ◌>>◌, gets, modify, crash, on}
use vimgdb.Common.Text.{Bytes, codes}
use vimgdb.Gui.Interface.{Gui}
use vimgdb.Gdb.Handshake.{ResultClass, exit, stopped, running}

-- The members of `gdb_frame_t` that an event uses.
pub record Frame : Type 0 where
  pub fullname : Option Bytes
  pub line : ℕ

-- `gdb_event_stop_t`; the strings may be null.
pub record Stop : Type 0 where
  pub reason : Option Bytes
  pub thread_id : ℕ
  pub frame : Option Frame
  pub signal : Option Bytes

-- `response_t` in the list of events.
pub record Event : Type 0 where
  pub rclass : ResultClass
  pub result : Option Stop

-- The members of `gdbif` for events, and the user interface with all that the handlers change.
pub record Inferior (U : Type 0) : Type 0 where
  pub is_running : Bool
  pub cur_thread : ℕ
  pub event_lst : List Event
  pub ui : U

-- What the thread calls: the registered handlers, the update of the variables, and whether a file
-- can be opened.
pub record Handlers (U : Type 0) : Type 0 where
  pub get_changed : Run U Bool
  pub stop_hdlr_lst : List (Run U Bool)
  pub exit_hdlr_lst : List (Run U Bool)
  pub file_exists : Option Bytes → Bool

unfoldable pub is_event : ResultClass → Bool
is_event exit = true
is_event stopped = true
is_event running = true
is_event _ = false

-- `list_for_each(…, e){ if(e->hdlr() != 0) … }`
unfoldable pub run_handlers : {U : Type 0} → List (Run U Bool) → Run U (Unit {0})
run_handlers [] = pure tt
run_handlers (hdlr ∷ hdlrs) = hdlr >> run_handlers hdlrs

-- `inf_update`, less its signal.
unfoldable pub inf_update : {U : Type 0} → Handlers U → Run U (Unit {0})
inf_update h = h.get_changed >> run_handlers h.stop_hdlr_lst

module _ {U : Type 0} (ui : Gui U) (h : Handlers U) where
  unfoldable pub mi_proc_async : ResultClass → Option Stop → Run (Inferior U) Bool
  mi_proc_async rclass result = do
    modify (λ s.
        if is_event rclass
        then record s {
          event_lst = s.event_lst ++ record { rclass = rclass; result = result } ∷ [];
        }
        else s)
    pure true

  unfoldable pub call_ui : {A : Type 0} → Run U A → Run (Inferior U) A
  call_ui m s = elim (m s.ui) [ none ↦ none | some (a, u) ↦ some (a, record s { ui = u }) ]

  -- The place where the inferior stopped.
  unfoldable pub show_frame : Frame → Run U (Unit {0})
  show_frame f = if not (h.file_exists f.fullname) then pure tt else do
    win ← ui.win_create f.fullname
    ui.win_anno_add win f.line (codes "ip") (codes "White") (codes "Black")
    win ← ui.win_create f.fullname
    ui.win_cursor_set win (some f.line) 0
    pure tt

  -- Behind the tests for the reason.
  unfoldable pub stop_update : Option Frame → Run (Inferior U) Bool
  stop_update frame = do call_ui (inf_update h); call_ui (on frame (pure tt) show_frame); pure true

  -- `"signal-received"`
  unfoldable pub by_signal : Stop → Bytes → Run (Inferior U) Bool
  by_signal stop signal =
      if bytes_same signal (codes "SIGSEGV")
      then mi_proc_async exit none
      else stop_update stop.frame

  unfoldable pub by_reason : Stop → Bytes → Run (Inferior U) Bool
  by_reason stop reason =
      if bytes_same reason (codes "exited-normally")
      then pure true
      else if bytes_same reason (codes "signal-received")
      then on stop.signal (crash) (by_signal stop)
      else stop_update stop.frame

  unfoldable pub evt_stopped : Stop → Run (Inferior U) Bool
  evt_stopped stop = do
    modify (λ s. record s { is_running = false })
    on stop.reason (pure false)
        (λ reason. do modify (λ s. record s { cur_thread = stop.thread_id }); by_reason stop reason)

  unfoldable pub evt_running : Run (Inferior U) Bool
  evt_running = do modify (λ s. record s { is_running = true }); pure true

  -- Whether the thread goes on behind an event.
  unfoldable pub handle : Event → Run (Inferior U) Bool
  handle e = elim e.rclass as (λ _. Run (Inferior U) Bool) [
    | exit ↦ (call_ui (run_handlers h.exit_hdlr_lst) >> pure false)
    | stopped ↦ (on e.result (crash) evt_stopped >> pure true)
    | running ↦ (evt_running >> pure true)
    | _ ↦ pure true
  ]

  -- `list_rm`, and the event is handled. On an empty list the thread waits for an event; if the wait
  -- returns without one, `list_first` is null and is read.
  unfoldable pub take_event : List Event → Run (Inferior U) Bool
  take_event [] = crash
  take_event (e ∷ rest) = do modify (λ s. record s { event_lst = rest }); handle e

  -- A round of `event_thread`.
  unfoldable pub event_round : Run (Inferior U) Bool
  event_round = do lst ← gets (λ s. s.event_lst); take_event lst
