-- ===== src/Gui/Vim/Unmarked.antt =====
-- `win_anno_delete` of `class vimui` against the annotations of the window.
use vimgdb.Base.{
  ℕ, ◌+◌, ◌≡◌, ◌≢◌, refl, ◌∙◌, sym, subst, false, Option, none, some, List, [], ◌∷◌, ◌++◌, ◌==◌,
  arith, Bool-cases, inl, inr, append-nil,
}
use vimgdb.Base.Maps.{
  lookup, insert, erase, lookup-insert, lookup-erase, nat_key, bytes_key, bytes_same,
  bytes_same_iff, same_self,
}
use vimgdb.Common.Text.{Bytes}
use vimgdb.Gui.Vim.State.{Buffer, Vim, Message, remove_anno}
use vimgdb.Base.Runs.{pure, and_then, ◌>>=◌, gets, modify, on}
use vimgdb.Gui.Vim.{ok, command, update}
use vimgdb.Gui.Vim.Notes.{anno_key, win_anno_delete}
use vimgdb.Gui.Vim.Keeps.{Same, Same-refl, Same-trans, Same-fields, Same-update}
use vimgdb.Gui.Vim.Maps.{IsConsistent}

-- The request for an annotation that is there.
abbrev pub requests : (i seq_num : ℕ) → Option ℕ → List Message
requests i seq_num none = []
requests i seq_num (some n) =
    record { buf_id = i; action = remove_anno n; seq_num = seq_num + 1 } ∷ []

-- In a window the annotation under a key is gone, and it was asked for.
pub record IsUnmarked (i : ℕ) (key : Bytes) (b : Buffer) (s s' : Vim) : Type 0 where
  pub left : Buffer
  pub known : lookup i s'.bufid_map ≡ some left
  pub gone : lookup key left.annos ≡ none
  pub others : (k : Bytes) → k ≢ key → lookup k left.annos ≡ lookup k b.annos
  pub windows : (j : ℕ) → j ≢ i → lookup j s'.bufid_map ≡ lookup j s.bufid_map
  pub sent : s'.sent ≡ s.sent ++ requests i s.seq_num (lookup key b.annos)
  pub same : Same s s'

abbrev without : Bytes → Buffer → Buffer
without key b = record b { annos = erase key b.annos }

abbrev asked : (i n : ℕ) → Vim → Vim
asked i n s = record s {
  seq_num = s.seq_num + 1;
  sent = s.sent ++ record { buf_id = i; action = remove_anno n; seq_num = s.seq_num + 1 } ∷ [];
}

updated :
    (i n : ℕ) (key : Bytes) (b : Buffer) (s : Vim)
    → lookup i s.bufid_map ≡ some b
    → update i (without key) (asked i n s)
      ≡ record (asked i n s) { bufid_map = insert i (without key b) s.bufid_map }
unfolding update
updated i n key b s known = rw (update, known) refl

differ : (key k : Bytes) → k ≢ key → bytes_same key k ≡ false
differ key k ne = elim (Bool-cases (bytes_same key k)) [
  | inl e ↦ absurd (ne (sym ((bytes_same_iff key k).0 e)))
  | inr e ↦ e
]

update-IsUnmarked :
    (i n : ℕ) (key : Bytes) (b : Buffer) (s : Vim)
    → lookup i s.bufid_map ≡ some b
    → lookup key b.annos ≡ some n
    → IsUnmarked i key b s (update i (without key) (asked i n s))
update-IsUnmarked i n key b s known e =
    subst (IsUnmarked i key b s) (sym (updated i n key b s known)) (record {
      left = without key b;
      known = lookup-insert i i (without key b) s.bufid_map ∙ rw (same_self i) refl;
      gone = lookup-erase key key b.annos ∙ rw (same_self key) refl;
      others = λ k ne. lookup-erase key k b.annos ∙ rw (differ key k ne) refl;
      windows = λ j ne.
          let other : (i == j) ≡ false = ground (arith, λ (e : j ≡ i). ne e) in
          lookup-insert i j (without key b) s.bufid_map ∙ rw other refl;
      sent = rw e refl;
      same = subst (Same s) (updated i n key b s known) (
          Same-trans (Same-fields {s = s} {s' = asked i n s} refl refl refl)
            (Same-update i (without key) (λ b. refl) (asked i n s)));
    })

-- Nothing is changed where no annotation stands under the key.
absent-IsUnmarked :
    (i : ℕ) (key : Bytes) (b : Buffer) (s : Vim)
    → lookup i s.bufid_map ≡ some b
    → lookup key b.annos ≡ none
    → IsUnmarked i key b s s
absent-IsUnmarked i key b s known e = record {
  left = b;
  known = known;
  gone = e;
  others = λ k ne. refl;
  windows = λ j ne. refl;
  sent = rw e (sym (append-nil s.sent));
  same = Same-refl s;
}

-- In a window that is there, with consistent maps of windows, `win_anno_delete` succeeds: no annotation stands under the key of the
-- line and the sign afterwards, and if one did, vim is asked to remove the one of that id, and is
-- asked for nothing else. Every annotation under another key, every other window, and the names of
-- the windows stay as they were.
pub win_anno_delete-known :
    (i line : ℕ) (sign : Bytes) (b : Buffer) (s : Vim)
    → lookup i s.bufid_map ≡ some b
    → IsConsistent s
    → (s' : Vim) × (win_anno_delete (some i) line sign s ≡ some (ok, s'))
      × IsUnmarked i (anno_key line sign) b s s'
unfolding win_anno_delete command ◌>>=◌ and_then gets modify on pure
win_anno_delete-known i line sign b s known c = by_anno (lookup key b.annos) refl
  where
    key : Bytes
    key = anno_key line sign

    by_anno :
        (o : Option ℕ)
        → lookup key b.annos ≡ o
        → (s' : Vim) × (win_anno_delete (some i) line sign s ≡ some (ok, s'))
          × IsUnmarked i key b s s'
    by_anno none e = (s, rw (known, e) refl, absent-IsUnmarked i key b s known e)
    by_anno (some n) e = (
      update i (without key) (asked i n s),
      rw (known, e, (c.by_id i b known).0) refl,
      update-IsUnmarked i n key b s known e,
    )
