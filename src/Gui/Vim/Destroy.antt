-- ===== src/Gui/Vim/Destroy.antt =====
-- `win_destroy` of `class vimui` against the two maps of windows.
use vimgdb.Base.{
  ℕ, ◌+◌, ◌<◌, ◌≡◌, ◌≢◌, refl, ◌∙◌, ap, sym, false, none, some, ◌==◌, ==_iff, arith, Bool-cases,
  inl, inr, [], ◌∷◌, ◌++◌,
}
use vimgdb.Base.Maps.{
  lookup, erase, lookup-erase, nat_key, bytes_key, bytes_same, bytes_same_iff, same_self,
}
use mathlib.Core.Option.{some-injective}
use vimgdb.Common.Text.{Bytes}
use vimgdb.Gui.Vim.State.{Win, Buffer, Vim, close}
use vimgdb.Base.Runs.{pure, ◌>>=◌, gets, modify, on}
use vimgdb.Gui.Vim.{ok, failed, command, find_buffer}
use vimgdb.Gui.Vim.Windows.{forget, win_destroy}
use vimgdb.Gui.Vim.Keeps.{Same, Same-fields}
use vimgdb.Gui.Vim.Maps.{IsConsistent, Same-IsConsistent, none-ne-some}

forget-IsConsistent :
    (i : ℕ) (b : Buffer) (s : Vim)
    → lookup i s.bufid_map ≡ some b
    → IsConsistent s
    → IsConsistent (forget b s)
unfolding forget
forget-IsConsistent i b s known c = record {
  start = c.start;
  by_id = λ j d e.
      let e' = sym (lookup-erase b.id j s.bufid_map) ∙ e in
      elim (Bool-cases (b.id == j)) [
        | inl h ↦ absurd (none-ne-some (rw h at e'))
        | inr h ↦ id_left j d h (rw h at e')
      ];
  by_name = λ n j e.
      let e' = sym (lookup-erase b.name n s.bufname_map) ∙ e in
      elim (Bool-cases (bytes_same b.name n)) [
        | inl h ↦ absurd (none-ne-some (rw h at e'))
        | inr h ↦ name_left n j h (rw h at e')
      ];
}
  where
    -- Two windows of one name are one window.
    one : (j : ℕ) (d : Buffer) → lookup j s.bufid_map ≡ some d → b.name ≡ d.name → b.id ≡ j
    one j d e same =
        let (x, y, _, _) = c.by_id i b known in
        let (_, y', _, _) = c.by_id j d e in
        x ∙ some-injective _ _ (sym y ∙ ap (λ n. lookup n s.bufname_map) same ∙ y')

    id_left :
        (j : ℕ) (d : Buffer)
        → (b.id == j) ≡ false
        → lookup j s.bufid_map ≡ some d
        → (d.id ≡ j)
          × (lookup d.name (erase b.name s.bufname_map) ≡ some j)
          × (0 < j)
          × (j < s.next_bufid)
    id_left j d h e =
        let (x, y, z, w) = c.by_id j d e in
        (
          x,
          lookup-erase b.name d.name s.bufname_map ∙ (elim (Bool-cases (bytes_same b.name d.name)) [
            | inl k ↦
                let same = one j d e ((bytes_same_iff b.name d.name).0 k) in absurd (ground arith)
            | inr k ↦ rw k y
          ]),
          z,
          w,
        )

    name_left :
        (n : Bytes) (j : ℕ)
        → bytes_same b.name n ≡ false
        → lookup n s.bufname_map ≡ some j
        → (d : Buffer) × (lookup j (erase b.id s.bufid_map) ≡ some d) × (d.name ≡ n)
    name_left n j h e =
        let (d, x, y) = c.by_name n j e in
        let (p, _, _, _) = c.by_id i b known in
        (
          d,
          lookup-erase b.id j s.bufid_map ∙ (elim (Bool-cases (b.id == j)) [
            | inl k ↦
                let at : i ≡ j = sym p ∙ (==_iff b.id j).0 k in
                let same : some b ≡ some d = sym known ∙ ap (λ i. lookup i s.bufid_map) at ∙ x in
                let named : b.name ≡ n =
                  ap (λ (b : Buffer). b.name) (some-injective _ _ same) ∙ y in
                absurd (ground (arith, bytes_same_iff b.name n))
            | inr k ↦ rw k x
          ]),
          y,
        )

abbrev closing : ℕ → Vim → Vim
closing i s = record s {
  seq_num = s.seq_num + 1;
  sent = s.sent ++ record { buf_id = i; action = close; seq_num = s.seq_num + 1 } ∷ [];
}

abbrev closed : ℕ → Buffer → Vim → Vim
closed i b s = record (closing i s) {
  bufname_map = erase b.name s.bufname_map;
  bufid_map = erase b.id s.bufid_map;
}

-- Of a window that is there, `win_destroy` succeeds: neither its id nor its name leads anywhere
-- afterwards, every other id leads where it led, and the maps stay consistent.
pub win_destroy-known :
    (i : ℕ) (b : Buffer) (s : Vim)
    → lookup i s.bufid_map ≡ some b
    → IsConsistent s
    → (s' : Vim) × (win_destroy (some i) s ≡ some (ok, s'))
      × IsConsistent s'
      × (lookup i s'.bufid_map ≡ none)
      × (lookup b.name s'.bufname_map ≡ none)
      × ((j : ℕ) → j ≢ i → lookup j s'.bufid_map ≡ lookup j s.bufid_map)
unfolding win_destroy command ◌>>=◌ gets modify on pure forget
win_destroy-known i b s known c =
    let (p, _, _, _) = c.by_id i b known in
    let s' = closed i b s in
    (
      s',
      rw known refl,
      Same-IsConsistent {s' = s'} (Same-fields {s = forget b s} refl refl refl)
          (forget-IsConsistent i b s known c),
      lookup-erase b.id i s.bufid_map ∙ rw (p, same_self i) refl,
      lookup-erase b.name b.name s.bufname_map ∙ rw (same_self b.name) refl,
      λ j ne.
          let other : (b.id == j) ≡ false = ground (arith, λ (e : j ≡ i). ne e) in
          lookup-erase b.id j s.bufid_map ∙ rw other refl,
    )

pub win_destroy-unknown :
    (win : Win) (s : Vim)
    → find_buffer win s ≡ none
    → (s' : Vim) × (win_destroy win s ≡ some (failed, s')) × Same s s'
unfolding win_destroy command ◌>>=◌ gets on pure
win_destroy-unknown none s h = (s, refl, Same-fields refl refl refl)
win_destroy-unknown (some i) s h =
    (closing i s, rw h refl, Same-fields {s' = closing i s} refl refl refl)
