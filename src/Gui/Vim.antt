-- ===== src/Gui/Vim.antt =====
-- `class vimui` of gui/vim/vimui.cc: windows of vim, driven by lines over a socket. The locks are
-- left out: each function is one step of the thread that holds them.
pub mod State
pub mod Windows
pub mod Notes
pub mod Events
pub mod Keeps
pub mod Maps
pub mod Destroy
pub mod Printing
pub mod Reach
pub mod Interface
pub mod Unmarked
pub mod Growth
use vimgdb.Base.{
  ℕ, zero, suc, ◌+◌, ◌-◌, ◌*◌, ◌%◌, ◌^◌, Bool, true, false, not, ◌&&◌, List, [], ◌∷◌, ◌++◌, Option,
  none, some, ltb, leb, ◌==◌, if◌then◌else◌, length,
}
use vimgdb.Base.Runs.{Run, pure, and_then, ◌>>=◌, ◌>>◌, gets, modify, crash, on}
use vimgdb.Base.Maps.{lookup, insert, nat_key, bytes_key}
use vimgdb.Common.Text.{Bytes, char_at, u32}
use vimgdb.Gui.Vim.State.{
  Win, Cursor, Buffer, Action, edit_file, put_buffer_number, stop_document_listen, close,
  start_atomic, end_atomic, init_done, get_cursor, define_anno_type, add_anno, remove_anno,
  set_dot_offset, set_dot, set_read_only, insert_text, remove_text, Message, Vim,
}

-- A run of a function of the class.
abbrev pub Ui : Type 0 → Type 0
Ui A = Run Vim A

-- Results `0` and `-1`.
abbrev pub ok : Bool
ok = true

abbrev pub failed : Bool
failed = false

-- `if(action(…) != 0) goto err;`
abbrev pub try : Ui Bool → Ui Bool → Ui Bool
try m k = m >>= λ r. if r then k else pure failed

-- `action(CMD, …)` with a format that it knows.
unfoldable pub command : Win → Action → Ui Bool
command none a s = some (failed, s)
command (some id) a s = some (
  ok,
  record s {
    seq_num = s.seq_num + 1;
    sent = s.sent ++ record { buf_id = id; action = a; seq_num = s.seq_num + 1 } ∷ [];
  },
)

abbrev pub find_buffer : Win → Vim → Option Buffer
find_buffer none s = none
find_buffer (some id) s = lookup id s.bufid_map

abbrev pub buffer : Win → Ui (Option Buffer)
buffer win = gets (find_buffer win)

-- A write through the pointer to a buffer that is in the map.
unfoldable pub update : ℕ → (Buffer → Buffer) → Vim → Vim
update id f s = elim (lookup id s.bufid_map) [
  | none ↦ s
  | some b ↦ record s { bufid_map = insert id (f b) s.bufid_map }
]

-- The working directory of vim, and the replies of vim: to the function call with a sequence
-- number, a cursor, or null for an empty reply.
module _ (cwd : Bytes) (vim : ℕ → Option Cursor) where
  -- `action(FCT, …)`: the reply is waited for.
  unfoldable pub call : Win → Action → Ui (Bool × Option Cursor)
  call win a = do
    r ← command win a
    seq ← gets (λ s. s.seq_num)
    pure (r, if r then vim seq else none)

  -- `cwd/name`, unless the name is an absolute path.
  unfoldable pub full_name : Bytes → Bytes
  full_name name = if char_at name 0 == b'/' then name else cwd ++ b'/' ∷ name

  unfoldable pub win_getid : Bytes → Vim → Win
  win_getid name s = lookup (full_name name) s.bufname_map

  -- `win_cursor_set`; `none` stands for the line -1.
  unfoldable pub win_cursor_set : Win → Option ℕ → ℕ → Ui Bool
  win_cursor_set win (some line) col = command win (set_dot line col)
  win_cursor_set win none col = do
    b ← buffer win
    on b (pure failed) (λ b. command win (set_dot_offset (u32 (b.len + 2 ^ 32 - 1))))

  -- The part of `atomic` for `en`.
  unfoldable pub atomic_begin : Win → Bool → Ui Bool
  atomic_begin win apply = try (command (some 0) start_atomic) (do
    modify (λ s. record s { cursor = none })
    (r, c) ← call (some 0) get_cursor
    modify (λ s. record s { cursor = c })
    if apply then modify (λ s. record s { in_atomic = true }) else pure tt
    b ← buffer win
    on b (pure ok) (λ b. if not b.preserve then pure ok else do
      modify (update b.id (λ b. record b { cursor = none }))
      try (command win init_done) (do
        (r, c) ← call (some 0) get_cursor
        modify (update b.id (λ b. record b { cursor = c }))
        pure ok)))

  -- `if(buf && buf->preserve){ … }` of the other part: the cursor is read through its pointer.
  unfoldable pub restore_window : Win → Ui Bool
  restore_window win = do
    b ← buffer win
    on b (pure ok) (λ b.
        if not b.preserve
        then pure ok
        else on b.cursor (crash) (λ c. win_cursor_set win (some c.line) c.column))

  -- `if(cursor && cursor->bufid > 0){ … }`
  unfoldable pub restore_cursor : Ui Bool
  restore_cursor = do
    c ← gets (λ s. s.cursor)
    on c (pure ok)
        (λ c. if c.bufid == 0 then pure ok else command (some c.bufid) (set_dot c.line c.column))

  -- The part of `atomic` for `!en`.
  unfoldable pub atomic_end : Win → Bool → Ui Bool
  atomic_end win apply = try (restore_window win) (
      try restore_cursor (
        try (command (some 0) end_atomic) (do
          if apply then modify (λ s. record s { in_atomic = false }) else pure tt
          modify (λ s. record s { cursor = none })
          (r, c) ← call (some 0) get_cursor
          modify (λ s. record s { cursor = c })
          pure ok)))

  -- Nothing is done inside another atomic block, unless `apply` is set.
  unfoldable pub atomic : Win → (en apply : Bool) → Ui Bool
  atomic win en apply = do
    inside ← gets (λ s. s.in_atomic)
    if inside && not apply
        then pure ok
        else if en
        then atomic_begin win apply
        else atomic_end win apply
