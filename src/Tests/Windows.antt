-- ===== src/Tests/Windows.antt =====
-- Runs of the windows, their annotations and their events, of gui/vim/vimui.cc.
use vimgdb.Base.{ℕ, ◌≡◌, ◌≢◌, refl, Option, none, some, arith}
use vimgdb.Base.Maps.{lookup, nat_key, bytes_key}
use vimgdb.Common.Text.{Bytes, codes}
use vimgdb.Gui.Vim.State.{Cursor, Buffer, Vim}
use vimgdb.Base.Runs.{◌>>=◌, and_then, gets, modify, pure, on, crash}
use vimgdb.Gui.Vim.{
  command, call, update, full_name, win_getid, win_cursor_set, atomic, atomic_begin, atomic_end,
  restore_window, restore_cursor, ok,
}
use vimgdb.Gui.Vim.Windows.{
  fresh_buffer, grow, when_readonly, append_text, move_dot, create_buffer, win_create, win_destroy,
  win_print, win_vprint,
}
use vimgdb.Gui.Vim.Keeps.{Same-update}
use vimgdb.Gui.Vim.Maps.{IsConsistent, Same-IsConsistent, Opens, win_create-Opens}
use vimgdb.Gui.Vim.Destroy.{win_destroy-known}
use vimgdb.Gui.Vim.Reach.{start, creates, prints, Reach, here, next, Reach-IsConsistent}
use vimgdb.Base.{[], ◌≤◌, ◌<◌, ◌∷◌}
use vimgdb.Gui.Vim.Windows.{grow_fuel}
use vimgdb.Gui.Vim.Growth.{grow_enough}
use vimgdb.Gui.Vim.Notes.{anno_key, win_anno_delete}
use vimgdb.Gui.Vim.Unmarked.{IsUnmarked, win_anno_delete-known}
use vimgdb.Gui.Vim.Events.{Event, file_opened, key_command, line, readline}

abbrev cwd : Bytes
cwd = codes "/w"

-- Vim always replies with a cursor in its window 1.
abbrev vim : ℕ → Option Cursor
vim n = some (record { bufid = 1; line = n; column = 0 })

abbrev after : {A : Type 0} → Option (A × Vim) → Vim
after none = start
after (some (a, s)) = s

abbrev one_window : Vim
one_window = after (win_create cwd vim (some (codes "log")) start)

abbrev printed : Vim
printed = after (win_print cwd vim (some 1) (codes "hi") one_window)

reached : Reach cwd vim printed
unfolding win_create win_print start ◌>>=◌ gets win_getid create_buffer modify command pure
    win_vprint on atomic atomic_begin call grow when_readonly append_text update move_dot and_then
    atomic_end crash full_name restore_cursor restore_window win_cursor_set
reached =
    next (next here (creates (some (codes "log")) (some 1) refl))
      (prints (some 1) (codes "hi") refl)

printed_test : printed.next_bufid ≡ 2
unfolding win_create win_print start ◌>>=◌ gets win_getid create_buffer modify command pure
    win_vprint on atomic atomic_begin call grow when_readonly append_text update move_dot and_then
    atomic_end crash full_name restore_cursor restore_window win_cursor_set
printed_test = refl

Reach-IsConsistent_example : IsConsistent printed
Reach-IsConsistent_example = Reach-IsConsistent cwd vim reached

win_create-Opens_example :
    Opens cwd vim (codes "/x.c") printed (win_create cwd vim (some (codes "/x.c")) printed)
win_create-Opens_example =
    win_create-Opens cwd vim (codes "/x.c") printed (omega (arith, printed_test))
      (Reach-IsConsistent cwd vim reached)

the_buffer : lookup 1 one_window.bufid_map ≡ some (fresh_buffer 1 (codes "/w/log"))
unfolding win_create start ◌>>=◌ gets win_getid create_buffer modify command pure full_name
the_buffer = refl

one_IsConsistent : IsConsistent one_window
unfolding win_create start ◌>>=◌ gets win_getid create_buffer modify command pure full_name
one_IsConsistent =
    Reach-IsConsistent cwd vim (next here (creates (some (codes "log")) (some 1) refl))

win_destroy-known_example :
    (s' : Vim) × (win_destroy (some 1) one_window ≡ some (ok, s'))
    × IsConsistent s'
    × (lookup 1 s'.bufid_map ≡ none)
    × (lookup (codes "/w/log") s'.bufname_map ≡ none)
    × ((j : ℕ) → j ≢ 1 → lookup j s'.bufid_map ≡ lookup j one_window.bufid_map)
win_destroy-known_example =
    win_destroy-known 1 (fresh_buffer 1 (codes "/w/log")) one_window the_buffer one_IsConsistent

grow_enough_example : (n : ℕ) × (grow grow_fuel 700 256 ≡ some n) × (700 < n) × (256 ≤ n)
grow_enough_example = grow_enough 700 256 (omega arith) (omega arith)

-- The two lines are told apart by nothing.
anno_key_test : anno_key 3 (codes "b") ≡ anno_key 259 (codes "b")
unfolding anno_key
anno_key_test = refl

abbrev opened : Event
opened = record { evt_id = file_opened; buf_id = 0; text = some (codes "log") }

abbrev typed : Event
typed = record { evt_id = key_command; buf_id = 0; text = some (codes "Break view") }

readline_test :
    readline cwd vim (opened ∷ typed ∷ opened ∷ []) start
    ≡ some ((line (codes "Break view"), opened ∷ []), one_window)
unfolding readline win_create start ◌>>=◌ and_then gets win_getid create_buffer modify command pure
    full_name on
readline_test = refl

-- A window with a sign at line 3, and a sign of another name at line 5.
abbrev mark : Buffer → Buffer
mark b = record b { annos = (3 ∷ codes "b", 7) ∷ (5 ∷ codes "ip", 8) ∷ [] }

abbrev marked : Buffer
marked = mark (fresh_buffer 1 (codes "/w/log"))

abbrev with_signs : Vim
with_signs = update 1 mark one_window

the_signs : lookup 1 with_signs.bufid_map ≡ some marked
unfolding update win_create start ◌>>=◌ gets win_getid create_buffer modify command pure full_name
    and_then
the_signs = refl

with_signs-IsConsistent : IsConsistent with_signs
with_signs-IsConsistent =
    Same-IsConsistent (Same-update 1 mark (λ b. refl) one_window) one_IsConsistent

win_anno_delete-known_example :
    (s' : Vim) × (win_anno_delete (some 1) 3 (codes "b") with_signs ≡ some (ok, s'))
    × IsUnmarked 1 (anno_key 3 (codes "b")) marked with_signs s'
win_anno_delete-known_example =
    win_anno_delete-known 1 3 (codes "b") marked with_signs the_signs with_signs-IsConsistent
