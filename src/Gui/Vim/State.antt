-- ===== src/Gui/Vim/State.antt =====
-- The state of `class vimui` of gui/vim/vimui.cc, and what it sends.
use vimgdb.Base.{ℕ, Bool, List, Option}
use vimgdb.Common.Text.{Bytes}

-- A handle `int win`: `none` stands for every negative one.
abbrev pub Win : Type 0
Win = Option ℕ

-- `vim_cursor_t`
pub record Cursor : Type 0 where
  pub bufid : ℕ
  pub line : ℕ
  pub column : ℕ

-- `buffer_t`
pub record Buffer : Type 0 where
  pub id : ℕ
  pub name : Bytes
  pub len : ℕ
  pub readonly : Bool
  pub preserve : Bool
  pub cursor : Option Cursor
  pub annos : List (Bytes × ℕ)
  pub anno_types : List (Bytes × ℕ)

-- The actions with their arguments, as the format strings spell them.
pub data Action : Type 0 where
  edit_file put_buffer_number : Bytes → Action
  stop_document_listen close start_atomic end_atomic init_done get_cursor : Action
  define_anno_type : (key sign color_fg color_bg : Bytes) → Action
  add_anno : (id annotype line : ℕ) → Action
  remove_anno : ℕ → Action
  set_dot_offset : ℕ → Action
  set_dot : (line column : ℕ) → Action
  set_read_only : Bool → Action
  insert_text : ℕ → Bytes → Action
  remove_text : ℕ → Action

-- A line of the protocol.
pub record Message : Type 0 where
  pub buf_id : ℕ
  pub action : Action
  pub seq_num : ℕ

-- A buffer is known by the id under which it was created, so that `bufname_map` leads to it by that
-- id. `sent` holds the lines in their order.
pub record Vim : Type 0 where
  pub bufname_map : List (Bytes × ℕ)
  pub bufid_map : List (ℕ × Buffer)
  pub next_bufid : ℕ
  pub next_anno : ℕ
  pub seq_num : ℕ
  pub in_atomic : Bool
  pub cursor : Option Cursor
  pub ostr_len : ℕ
  pub sent : List Message
