-- ===== src/Gui/Vim/Windows.antt =====
-- Windows of `class vimui`: creation, lookup, removal, text (gui/vim/vimui.cc).
use vimgdb.Base.{
  ℕ, zero, suc, ◌+◌, ◌*◌, ◌^◌, Bool, true, false, [], Option, none, some, ltb, leb, ◌==◌,
  if◌then◌else◌, length,
}
use vimgdb.Base.Maps.{insert, erase, nat_key, bytes_key}
use vimgdb.Common.Text.{Bytes, char_at, u32}
use vimgdb.Gui.Vim.State.{
  Win, Cursor, Buffer, edit_file, put_buffer_number, stop_document_listen, close, set_read_only,
  insert_text, remove_text, Vim,
}
use vimgdb.Base.Runs.{pure, ◌>>=◌, ◌>>◌, gets, modify, on, crash}
use vimgdb.Gui.Vim.{
  Ui, ok, failed, try, command, buffer, update, full_name, win_getid, win_cursor_set, atomic,
}

-- `while(1){ … if(len < ostr_len) break; ostr_len *= 2; … }` on fuel.
unfoldable pub grow : ℕ → ℕ → ℕ → Option ℕ
grow zero len ostr_len = none
grow (suc fuel) len ostr_len =
    let rest = grow fuel len (u32 (ostr_len * 2)) in
    if ltb len ostr_len then some ostr_len else rest

-- The doublings that lead from one byte to 2^31.
abbrev pub grow_fuel : ℕ
grow_fuel = 32

abbrev pub fresh_buffer : ℕ → Bytes → Buffer
fresh_buffer id name = record {
  id = id;
  name = name;
  len = 0;
  readonly = false;
  preserve = false;
  cursor = none;
  annos = [];
  anno_types = [];
}

-- `id > 0`
abbrev pub is_id : Win → Bool
is_id none = false
is_id (some id) = ltb 0 id

-- `if(buf->readonly) action(CMD, "setReadOnly", …);`
unfoldable pub when_readonly : Win → Bool → Ui (Unit {0})
when_readonly win ro = do
  b ← buffer win
  on b (pure tt) (λ b. if b.readonly then (command win (set_read_only ro) >> pure tt) else pure tt)

-- The entries of a buffer leave both maps.
unfoldable pub forget : Buffer → Vim → Vim
forget b s = record s {
  bufname_map = erase b.name s.bufname_map;
  bufid_map = erase b.id s.bufid_map;
}

unfoldable pub win_destroy : Win → Ui Bool
win_destroy win =
    try (command win close)
      (do b ← buffer win; on b (pure failed) (λ b. modify (forget b) >> pure ok))

unfoldable pub win_cursor_preserve : Win → Bool → Ui Bool
win_cursor_preserve win pc = do
  b ← buffer win
  on b (pure failed) (λ b. modify (update b.id (λ b. record b { preserve = pc })) >> pure ok)

-- The result for a known window is an uninitialised variable: `none`.
unfoldable pub win_readonly : Win → Bool → Ui (Option Bool)
win_readonly win ro = do
  b ← buffer win
  on b (pure (some failed)) (λ b. do
    modify (update b.id (λ b. record b { readonly = ro }))
    command win (set_read_only ro)
    pure none)

-- The text goes behind what the window holds.
unfoldable pub append_text : ℕ → Bytes → Ui Bool
append_text id text = do
  b ← buffer (some id)
  on b (pure failed) (λ b. do
    command (some id) (insert_text b.len text)
    modify (update id (λ b. record b { len = u32 (b.len + length text) }))
    pure ok)

unfoldable pub drop_text : ℕ → Ui Bool
drop_text id = do
  b ← buffer (some id)
  on b (pure failed) (λ b. do
    command (some id) (remove_text b.len)
    modify (update id (λ b. record b { len = 0 }))
    pure ok)

module _ (cwd : Bytes) (vim : ℕ → Option Cursor) where
  unfoldable pub win_atomic : Win → Bool → Ui Bool
  win_atomic win en = atomic cwd vim win en true

  -- The part of `win_create` for a name that has no buffer; an id that does not fit into `int` is
  -- refused.
  unfoldable pub create_buffer : Bytes → Ui Win
  create_buffer name = do
    id ← gets (λ s. s.next_bufid)
    modify (λ s. record s { next_bufid = id + 1 })
    if leb (2 ^ 31) id then pure none else do
      let path = full_name cwd vim name
      command (some id) (if char_at name 0 == b'/' then edit_file path else put_buffer_number path)
      command (some id) stop_document_listen
      modify (λ s. record s {
        bufname_map = insert path id s.bufname_map;
        bufid_map = insert id (fresh_buffer id path) s.bufid_map;
      })
      pure (some id)

  -- `none` is the null name.
  unfoldable pub win_create : Option Bytes → Ui Win
  win_create none = pure none
  win_create (some name) = do
    win ← gets (win_getid cwd vim name)
    if is_id win then pure win else create_buffer name

  unfoldable pub move_dot : ℕ → Ui Bool
  move_dot id = do
    inside ← gets (λ s. s.in_atomic)
    if inside then pure ok else win_cursor_set cwd vim (some id) none 0

  -- `text` is what `vsnprintf` makes of the format and its arguments.
  unfoldable pub win_vprint : Win → Bytes → Ui (Unit {0})
  win_vprint win text = do
    b ← buffer win
    on b (pure tt) (λ b. do
      atomic cwd vim win true false
      size ← gets (λ s. s.ostr_len)
      on (grow grow_fuel (length text) size) (crash)
          (λ size'. modify (λ s. record s { ostr_len = size' }))
      when_readonly win false
      append_text b.id text
      when_readonly win true
      move_dot b.id
      atomic cwd vim win false false
      pure tt)

  -- Nothing is printed to a window of id 0 or below.
  unfoldable pub win_print : Win → Bytes → Ui (Unit {0})
  win_print none text = pure tt
  win_print (some zero) text = pure tt
  win_print (some (suc id)) text = win_vprint (some (suc id)) text

  unfoldable pub win_clear : Win → Ui (Unit {0})
  win_clear win = do
    b ← buffer win
    on b (pure tt) (λ b. do
      atomic cwd vim win true false
      when_readonly win false
      drop_text b.id
      when_readonly win true
      atomic cwd vim win false false
      pure tt)
