-- ===== src/Gui/Vim/Notes.antt =====
-- Annotations (signs at lines) of `class vimui` (gui/vim/vimui.cc).
use vimgdb.Base.{ℕ, zero, suc, ◌+◌, ◌%◌, Bool, true, false, ◌∷◌, ◌++◌, Option, none, some, length}
use vimgdb.Base.Maps.{lookup, insert, erase, bytes_key}
use vimgdb.Common.Text.{Bytes}
use vimgdb.Gui.Vim.State.{Win, Cursor, Buffer, define_anno_type, add_anno, remove_anno}
use vimgdb.Base.Runs.{pure, ◌>>=◌, ◌>>◌, gets, modify, on}
use vimgdb.Gui.Vim.{Ui, ok, failed, try, command, buffer, update, atomic}

-- `key = line; key += sign;`: an `int` that is assigned to a `string` becomes one `char`.
unfoldable pub anno_key : ℕ → Bytes → Bytes
anno_key line sign = (line % 256) ∷ sign

-- `key = sign; key += color_fg; key += color_bg;`
abbrev pub type_key : (sign color_fg color_bg : Bytes) → Bytes
type_key sign color_fg color_bg = sign ++ color_fg ++ color_bg

abbrev pub anno_type : Bytes → Buffer → ℕ
anno_type key b = elim (lookup key b.anno_types) [ none ↦ 0 | some n ↦ n ]

module _ (cwd : Bytes) (vim : ℕ → Option Cursor) where
  -- `err: atomic(win, false, false); … return -1;`
  unfoldable pub anno_err : Win → Ui Bool
  anno_err win = atomic cwd vim win false false >> pure failed

  -- The type of an annotation, which is defined with its first use: the ids count from 1.
  unfoldable pub define_type : ℕ → ℕ → (sign color_fg color_bg : Bytes) → Ui ℕ
  define_type id (suc annotype) sign color_fg color_bg = pure (suc annotype)
  define_type id zero sign color_fg color_bg = do
    let key = type_key sign color_fg color_bg
    command (some id) (define_anno_type key sign color_fg color_bg)
    b ← buffer (some id)
    let n : ℕ = elim b [ none ↦ 0 | some b ↦ length b.anno_types + 1 ]
    modify (update id (λ b. record b { anno_types = insert key n b.anno_types }))
    pure n

  unfoldable pub win_anno_add : Win → ℕ → (sign color_fg color_bg : Bytes) → Ui Bool
  win_anno_add win line sign color_fg color_bg = do
    b ← buffer win
    on b (anno_err win) (λ b. do
      let annotype = anno_type (type_key sign color_fg color_bg) b
      atomic cwd vim win true false
      annotype ← define_type b.id annotype sign color_fg color_bg
      id ← gets (λ s. s.next_anno)
      command win (add_anno id annotype line)
      modify (update b.id (λ b. record b { annos = insert (anno_key line sign) id b.annos }))
      modify (λ s. record s { next_anno = id + 1 })
      atomic cwd vim win false false
      pure ok)

unfoldable pub win_anno_delete : Win → ℕ → Bytes → Ui Bool
win_anno_delete win line sign = do
  b ← buffer win
  on b (pure failed) (λ b. on (lookup (anno_key line sign) b.annos) (pure ok) (λ id.
      try (command win (remove_anno id)) (do
        modify (update b.id (λ b. record b { annos = erase (anno_key line sign) b.annos }))
        pure ok)))
