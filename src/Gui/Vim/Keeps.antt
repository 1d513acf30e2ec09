-- ===== src/Gui/Vim/Keeps.antt =====
-- Runs that leave alone which windows there are.
use vimgdb.Base.{
  ℕ, ◌≡◌, refl, ◌∙◌, ap, sym, subst, Bool, true, false, Option, none, some, if◌then◌else◌, ◌==◌,
  ==_iff, arith, Bool-cases, inl, inr,
}
use vimgdb.Base.Maps.{lookup, insert, lookup-insert, nat_key}
use vimgdb.Common.Text.{Bytes}
use vimgdb.Gui.Vim.State.{Win, Cursor, Buffer, Action, Vim}
use vimgdb.Base.Runs.{pure, and_then, ◌>>=◌, gets, modify, crash, on}
use vimgdb.Gui.Vim.{
  Ui, command, update, call, win_cursor_set, atomic_begin, restore_window, restore_cursor,
  atomic_end, atomic,
}

-- What ties a buffer to the maps.
abbrev pub shape : Option Buffer → Option (ℕ × Bytes)
shape none = none
shape (some b) = some (b.id, b.name)

-- The same windows, under the same ids and names.
pub record Same (s s' : Vim) : Type 0 where
  pub names : s'.bufname_map ≡ s.bufname_map
  pub next : s'.next_bufid ≡ s.next_bufid
  pub shapes : (i : ℕ) → shape (lookup i s'.bufid_map) ≡ shape (lookup i s.bufid_map)

pub Same-refl : (s : Vim) → Same s s
Same-refl s = record { names = refl; next = refl; shapes = λ i. refl }

pub Same-trans : {s t u : Vim} → Same s t → Same t u → Same s u
Same-trans a b = record {
  names = b.names ∙ a.names;
  next = b.next ∙ a.next;
  shapes = λ i. b.shapes i ∙ a.shapes i;
}

abbrev After : {A : Type 0} → Vim → Option (A × Vim) → Type 0
After s none = Unit
After s (some (a, s')) = Same s s'

-- Every run of `m` keeps the windows.
pub record Keeps {A : Type 0} (m : Ui A) : Type 0 where
  runs : (s : Vim) → After s (m s)

pub Same-run :
    {A : Type 0} {m : Ui A} {a : A} {s s' : Vim} → Keeps m → m s ≡ some (a, s') → Same s s'
Same-run {s} k e = subst (After s) e (k.runs s)

module _ {A : Type 0} where
  pub Keeps-pure : (a : A) → Keeps (pure a)
  unfolding pure
  Keeps-pure a = record { runs = λ s. Same-refl s }

  pub Keeps-gets : (f : Vim → A) → Keeps (gets f)
  unfolding gets
  Keeps-gets f = record { runs = λ s. Same-refl s }

  pub Keeps-crash : Keeps {A = A} crash
  unfolding crash
  Keeps-crash = record { runs = λ s. tt }

  pub Keeps-if : (b : Bool) (m n : Ui A) → Keeps m → Keeps n → Keeps (if b then m else n)
  Keeps-if true m n km kn = km
  Keeps-if false m n km kn = kn

pub Keeps-modify : (f : Vim → Vim) → ((s : Vim) → Same s (f s)) → Keeps (modify f)
unfolding modify
Keeps-modify f h = record { runs = h }

After-trans : {A : Type 0} {s s' : Vim} (r : Option (A × Vim)) → Same s s' → After s' r → After s r
After-trans none h k = tt
After-trans (some (a, s'')) h k = Same-trans h k

After-bind :
    {A B : Type 0} (s : Vim) (r : Option (A × Vim)) (f : A → Ui B)
    → After s r
    → ((a : A) (s' : Vim) → After s' (f a s'))
    → After s (and_then r f)
unfolding and_then
After-bind s none f h k = tt
After-bind s (some (a, s')) f h k = After-trans (f a s') h (k a s')

pub Keeps-bind :
    {A B : Type 0} (m : Ui A) (f : A → Ui B) → Keeps m → ((a : A) → Keeps (f a)) → Keeps (m >>= f)
unfolding ◌>>=◌
Keeps-bind m f km kf = record { runs = λ s. After-bind s (m s) f (km.runs s) (λ a. (kf a).runs) }

pub Keeps-on :
    {A B : Type 0} (o : Option B) (n : Ui A) (f : B → Ui A)
    → Keeps n
    → ((b : B) → Keeps (f b))
    → Keeps (on o n f)
unfolding on
Keeps-on none n f kn kf = kn
Keeps-on (some b) n f kn kf = kf b

pub Keeps-command : (w : Win) (a : Action) → Keeps (command w a)
unfolding command
Keeps-command none a = record { runs = λ s. Same-refl s }
Keeps-command (some id) a = record {
  runs = λ s. (record { names = refl; next = refl; shapes = λ i. refl });
}

-- A change of a buffer that leaves its id and name.
pub Same-update :
    (id : ℕ) (f : Buffer → Buffer)
    → ((b : Buffer) → shape (some (f b)) ≡ shape (some b))
    → (s : Vim) → Same s (update id f s)
unfolding update
Same-update id f h s = go (lookup id s.bufid_map) refl
  where
    go :
        (o : Option Buffer)
        → lookup id s.bufid_map ≡ o
        → Same s
            (elim o [ none ↦ s | some b ↦ record s { bufid_map = insert id (f b) s.bufid_map } ])
    go none e = Same-refl s
    go (some b) e = record {
      names = refl;
      next = refl;
      shapes = λ i. rw (lookup-insert id i (f b) s.bufid_map) (elim (Bool-cases (id == i)) [
        | inl p ↦ rw (p, ← (==_iff id i).0 p, e) (h b)
        | inr p ↦ rw p refl
      ]);
    }

-- A change of the other fields.
pub Same-fields :
    {s s' : Vim}
    → s'.bufname_map ≡ s.bufname_map
    → s'.next_bufid ≡ s.next_bufid
    → s'.bufid_map ≡ s.bufid_map
    → Same s s'
Same-fields n x b = record { names = n; next = x; shapes = λ i. ap (λ m. shape (lookup i m)) b }

pub Keeps-update :
    (id : ℕ) (f : Buffer → Buffer)
    → ((b : Buffer) → shape (some (f b)) ≡ shape (some b))
    → Keeps (modify (update id f))
Keeps-update id f h = Keeps-modify (update id f) (Same-update id f h)

pub ruleset keeps = (
  Keeps-pure, Keeps-gets, Keeps-crash, Keeps-if, Keeps-bind, Keeps-on, Keeps-command, Keeps-modify,
  Same-fields, Keeps-update, refl,
)

module _ (cwd : Bytes) (vim : ℕ → Option Cursor) where
  pub Keeps-win_cursor_set :
      (w : Win) (line : Option ℕ) (col : ℕ) → Keeps (win_cursor_set cwd vim w line col)
  unfolding win_cursor_set
  Keeps-win_cursor_set w none col = search keeps
  Keeps-win_cursor_set w (some line) col = search keeps

  pub Keeps-call : (w : Win) (a : Action) → Keeps (call cwd vim w a)
  unfolding call
  Keeps-call w a = search keeps

  Keeps-begin : (w : Win) (apply : Bool) → Keeps (atomic_begin cwd vim w apply)
  unfolding atomic_begin
  Keeps-begin w apply = search (keeps, Keeps-call) depth 16

  Keeps-restore_window : (w : Win) → Keeps (restore_window cwd vim w)
  unfolding restore_window
  Keeps-restore_window w = search (keeps, Keeps-win_cursor_set) depth 9

  Keeps-restore_cursor : Keeps (restore_cursor cwd vim)
  unfolding restore_cursor
  Keeps-restore_cursor = search keeps

  Keeps-end : (w : Win) (apply : Bool) → Keeps (atomic_end cwd vim w apply)
  unfolding atomic_end
  Keeps-end w apply =
      search (keeps, Keeps-call, Keeps-restore_window, Keeps-restore_cursor) depth 16

  pub Keeps-atomic : (w : Win) (en apply : Bool) → Keeps (atomic cwd vim w en apply)
  unfolding atomic
  Keeps-atomic w en apply = search (keeps, Keeps-begin, Keeps-end) depth 7
