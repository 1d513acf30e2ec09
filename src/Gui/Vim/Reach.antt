-- ===== src/Gui/Vim/Reach.antt =====
-- `class vimui` as a state machine: what its operations can reach from its constructor.
use vimgdb.Base.{
  ℕ, ◌+◌, ◌^◌, ◌≡◌, refl, ◌∙◌, ap, sym, subst, Bool, true, false, Option, none, some, [], inl, inr,
  arith, leb, Bool-cases,
}
use mathlib.Core.Option.{some-injective}
use vimgdb.Base.Maps.{nat_key}
use vimgdb.Common.Text.{Bytes}
use vimgdb.Gui.Vim.State.{Win, Cursor, Buffer, Vim}
use vimgdb.Base.Runs.{pure, ◌>>=◌, gets, modify}
use vimgdb.Gui.Vim.{atomic, find_buffer, win_cursor_set, win_getid}
use vimgdb.Gui.Vim.Windows.{
  win_create, create_buffer, is_id, win_destroy, win_print, win_clear, win_cursor_preserve,
  win_readonly,
}
use vimgdb.Gui.Vim.Notes.{win_anno_add, win_anno_delete}
use vimgdb.Gui.Vim.Keeps.{Same-run, Keeps-atomic, Keeps-win_cursor_set}
use vimgdb.Gui.Vim.Maps.{IsConsistent, Same-IsConsistent, win_create-Opens}
use vimgdb.Gui.Vim.Destroy.{win_destroy-known, win_destroy-unknown}
use vimgdb.Gui.Vim.Printing.{
  Keeps-print, Keeps-clear, Keeps-cursor_preserve, Keeps-readonly, Keeps-anno_add,
  Keeps-anno_delete,
}

-- `vimui::vimui` and `init`, with the buffer of 256 bytes for output.
unfoldable pub start : Vim
start = record {
  bufname_map = [];
  bufid_map = [];
  next_bufid = 1;
  next_anno = 1;
  seq_num = 1;
  in_atomic = false;
  cursor = none;
  ostr_len = 256;
  sent = [];
}

module _ (cwd : Bytes) (vim : ℕ → Option Cursor) where
  -- A call of an operation that returns.
  pub data Step (s s' : Vim) : Type 0 where
    creates : (name : Option Bytes) (w : Win) → win_create cwd vim name s ≡ some (w, s') → Step s s'
    destroys : (win : Win) (r : Bool) → win_destroy win s ≡ some (r, s') → Step s s'
    prints : (win : Win) (text : Bytes) → win_print cwd vim win text s ≡ some (tt, s') → Step s s'
    clears : (win : Win) → win_clear cwd vim win s ≡ some (tt, s') → Step s s'
    groups :
        (win : Win) (en apply r : Bool) → atomic cwd vim win en apply s ≡ some (r, s') → Step s s'
    moves :
        (win : Win) (line : Option ℕ) (col : ℕ) (r : Bool)
        → win_cursor_set cwd vim win line col s ≡ some (r, s')
        → Step s s'
    preserves : (win : Win) (pc r : Bool) → win_cursor_preserve win pc s ≡ some (r, s') → Step s s'
    protects :
        (win : Win) (ro : Bool) (r : Option Bool) → win_readonly win ro s ≡ some (r, s') → Step s s'
    annotates :
        (win : Win) (line : ℕ) (sign color_fg color_bg : Bytes) (r : Bool)
        → win_anno_add cwd vim win line sign color_fg color_bg s ≡ some (r, s')
        → Step s s'
    unannotates :
        (win : Win) (line : ℕ) (sign : Bytes) (r : Bool)
        → win_anno_delete win line sign s ≡ some (r, s')
        → Step s s'

  pub data Reach : Vim → Type 0 where
    here : Reach start
    next : {s s' : Vim} → Reach s → Step s s' → Reach s'

state_of :
    {A : Type 0} {a a' : A} {s s' : Vim}
    → ◌≡◌ {A = Option (A × Vim)} (some (a, s)) (some (a', s'))
    → s ≡ s'
state_of e = ap (λ p. p.1) (some-injective _ _ e)

start-IsConsistent : IsConsistent start
unfolding start
start-IsConsistent = record { start = omega arith; by_id = λ i b e. cc; by_name = λ n i e. cc }

destroy-IsConsistent :
    (win : Win) (r : Bool) (s s' : Vim)
    → win_destroy win s ≡ some (r, s')
    → IsConsistent s
    → IsConsistent s'
destroy-IsConsistent win r s s' e c = go win e (find_buffer win s) refl
  where
    go :
        (win : Win)
        → win_destroy win s ≡ some (r, s')
        → (o : Option Buffer) → find_buffer win s ≡ o
        → IsConsistent s'
    go win e none h =
        let (t, f, k) = win_destroy-unknown win s h in
        subst IsConsistent (state_of (sym f ∙ e)) (Same-IsConsistent k c)
    go none e (some b) h = cc
    go (some i) e (some b) h =
        let (t, f, k, _, _, _) = win_destroy-known i b s h c in
        subst IsConsistent (state_of (sym f ∙ e)) k

wider-IsConsistent :
    (s : Vim) → IsConsistent s → IsConsistent (record s { next_bufid = s.next_bufid + 1 })
wider-IsConsistent s c = record {
  start = omega (arith, c.start);
  by_id = λ i b e. let (x, y, z, w) = c.by_id i b e in (x, y, z, omega arith);
  by_name = c.by_name;
}

module _ (cwd : Bytes) (vim : ℕ → Option Cursor) where
  create_full :
      (name : Bytes) (s : Vim)
      → leb (2 ^ 31) s.next_bufid ≡ true
      → create_buffer cwd vim name s ≡ some (none, record s { next_bufid = s.next_bufid + 1 })
  unfolding create_buffer ◌>>=◌ gets modify pure
  create_full name s h = rw h refl

  -- Where the ids have run out.
  full-IsConsistent :
      (name : Bytes) (w : Win) (s s' : Vim)
      → leb (2 ^ 31) s.next_bufid ≡ true
      → win_create cwd vim (some name) s ≡ some (w, s')
      → IsConsistent s
      → IsConsistent s'
  unfolding win_create ◌>>=◌ gets pure
  full-IsConsistent name w s s' h e c = elim (Bool-cases (is_id (win_getid cwd vim name s))) [
    | inl k ↦ subst IsConsistent (state_of (rw k at e)) c
    | inr k ↦
        subst IsConsistent (state_of (sym (create_full name s h) ∙ (rw k at e)))
          (wider-IsConsistent s c)
  ]

  create-IsConsistent :
      (name : Option Bytes) (w : Win) (s s' : Vim)
      → win_create cwd vim name s ≡ some (w, s')
      → IsConsistent s
      → IsConsistent s'
  create-IsConsistent none w s s' e c = unfold win_create pure in subst IsConsistent (state_of e) c
  create-IsConsistent (some name) w s s' e c = elim (Bool-cases (leb (2 ^ 31) s.next_bufid)) [
    | inl h ↦ full-IsConsistent name w s s' h e c
    | inr h ↦
        let (_, t, f, k, _, _) = win_create-Opens cwd vim name s (ground arith) c in
        subst IsConsistent (state_of (sym f ∙ e)) k
  ]

  pub Step-IsConsistent : {s s' : Vim} → Step cwd vim s s' → IsConsistent s → IsConsistent s'
  Step-IsConsistent {s} {s'} (creates name w e) c = create-IsConsistent name w s s' e c
  Step-IsConsistent {s} {s'} (destroys win r e) c = destroy-IsConsistent win r s s' e c
  Step-IsConsistent (prints win text e) c =
      Same-IsConsistent (Same-run (Keeps-print cwd vim win text) e) c
  Step-IsConsistent (clears win e) c = Same-IsConsistent (Same-run (Keeps-clear cwd vim win) e) c
  Step-IsConsistent (groups win en apply r e) c =
      Same-IsConsistent (Same-run (Keeps-atomic cwd vim win en apply) e) c
  Step-IsConsistent (moves win line col r e) c =
      Same-IsConsistent (Same-run (Keeps-win_cursor_set cwd vim win line col) e) c
  Step-IsConsistent (preserves win pc r e) c =
      Same-IsConsistent (Same-run (Keeps-cursor_preserve win pc) e) c
  Step-IsConsistent (protects win ro r e) c =
      Same-IsConsistent (Same-run (Keeps-readonly win ro) e) c
  Step-IsConsistent (annotates win line sign fg bg r e) c =
      Same-IsConsistent (Same-run (Keeps-anno_add cwd vim win line sign fg bg) e) c
  Step-IsConsistent (unannotates win line sign r e) c =
      Same-IsConsistent (Same-run (Keeps-anno_delete win line sign) e) c

  -- In every state that the operations reach from a new user interface, whatever vim replies, the
  -- window behind a name and the window behind an id are one.
  pub Reach-IsConsistent : {s : Vim} → Reach cwd vim s → IsConsistent s
  Reach-IsConsistent here = start-IsConsistent
  Reach-IsConsistent (next r st) = Step-IsConsistent st (Reach-IsConsistent r)
