-- ===== src/Gui/Vim/Events.antt =====
-- Replies and events that arrive from vim, and `readline` (gui/vim/vimui.cc).
use vimgdb.Base.{ℕ, Bool, true, false, List, [], ◌∷◌, ◌++◌, Option, some, ◌==◌, if◌then◌else◌}
use vimgdb.Common.Text.{Bytes}
use vimgdb.Gui.Vim.State.{Cursor}
use vimgdb.Base.Runs.{pure, ◌>>◌, on, crash}
use vimgdb.Gui.Vim.{Ui}
use vimgdb.Gui.Vim.Windows.{win_create, win_destroy}

-- `vim_event_id_t`
pub data EventId : Type 0 where
  none_event disconnect startup_done killed file_opened insert remove key_command : EventId
  key_at_pos new_dot_and_mark accept auth detach version : EventId

-- `vim_event_t`, less its links; `data` is null for most.
pub record Event : Type 0 where
  pub evt_id : EventId
  pub buf_id : ℕ
  pub text : Option Bytes

-- `e->evt_id & (E_KEYCOMMAND | E_FILEOPENED | E_KILLED | E_DISCONNECT)`
unfoldable pub is_queued : EventId → Bool
is_queued key_command = true
is_queued file_opened = true
is_queued killed = true
is_queued disconnect = true
is_queued _ = false

-- `proc_event`: the event list behind it.
unfoldable pub proc_event : ℕ → Event → List Event → List Event
proc_event buf_id e event_lst =
    if is_queued e.evt_id then event_lst ++ record e { buf_id = buf_id } ∷ [] else event_lst

-- `proc_reply`: the reply that the waiting action takes, if the sequence number is its own.
unfoldable pub proc_reply : ℕ → ℕ → Option Cursor → Option Cursor → Option Cursor
proc_reply own seq_num r reply = if own == seq_num then r else reply

-- What `readline` comes to: it returns a command line, or null at the end, or it stands at its wait
-- for an event, with an empty list.
pub data Line : Type 0 where
  line : Bytes → Line
  shutdown : Line
  waiting : Line

module _ (cwd : Bytes) (vim : ℕ → Option Cursor) where
  -- `readline` with the events that it takes from the list, and those that it leaves there. A
  -- command without its text is a read through null.
  unfoldable pub readline : List Event → Ui (Line × List Event)
  readline [] = pure (waiting, [])
  readline (e ∷ event_lst) =
      let rest = readline event_lst in
      elim e.evt_id as (λ _. Ui (Line × List Event)) [
        | key_command ↦ on e.text (crash) (λ s. pure (line s, event_lst))
        | file_opened ↦ (do win_create cwd vim e.text; rest)
        | killed ↦ (do win_destroy (some e.buf_id); rest)
        | disconnect ↦ pure (shutdown, event_lst)
        | _ ↦ rest
      ]
