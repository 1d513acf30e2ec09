-- ===== src/Gui/Vim/Maps.antt =====
-- The two maps of `class vimui` agree: by name and by id they lead to the same windows.
use vimgdb.Base.{
  ℕ, zero, suc, ◌+◌, ◌^◌, ◌<◌, ◌≡◌, refl, ◌∙◌, ap, sym, subst, false, Option, none, some, [], ◌∷◌,
  ◌++◌, if◌then◌else◌, ◌==◌, ==_iff, arith, Bool-cases, inl, inr, lt→leb, lt→ltb,
}
use vimgdb.Base.Maps.{
  lookup, insert, lookup-insert, nat_key, bytes_key, bytes_same, bytes_same_iff, same_self,
}
use mathlib.Core.Option.{some-injective}
use vimgdb.Common.Text.{Bytes, char_at}
use vimgdb.Gui.Vim.State.{
  Win, Cursor, Buffer, Vim, Action, edit_file, put_buffer_number, stop_document_listen,
}
use vimgdb.Base.Runs.{pure, ◌>>=◌, gets, modify}
use vimgdb.Gui.Vim.{command, full_name, win_getid}
use vimgdb.Gui.Vim.Windows.{is_id, fresh_buffer, create_buffer, win_create}
use vimgdb.Gui.Vim.Keeps.{Same, Same-fields, shape}

-- The window behind a name and the window behind an id are one; ids are positive, and below the
-- next one.
pub record IsConsistent (s : Vim) : Type 0 where
  pub start : 0 < s.next_bufid
  pub by_id :
      (i : ℕ) (b : Buffer)
      → lookup i s.bufid_map ≡ some b
      → (b.id ≡ i) × (lookup b.name s.bufname_map ≡ some i) × (0 < i) × (i < s.next_bufid)
  pub by_name :
      (n : Bytes) (i : ℕ)
      → lookup n s.bufname_map ≡ some i
      → (b : Buffer) × (lookup i s.bufid_map ≡ some b) × (b.name ≡ n)

pub none-ne-some : {A : Type 0} {a : A} → ◌≡◌ {A = Option A} none (some a) → ⊥
none-ne-some e = cc

of_shape :
    (o : Option Buffer) (b : Buffer)
    → shape (some b) ≡ shape o
    → (b' : Buffer) × (o ≡ some b') × (b'.id ≡ b.id) × (b'.name ≡ b.name)
of_shape none b e = cc
of_shape (some b') b e = (b', refl, ground arith, ground arith)

pub Same-IsConsistent : {s s' : Vim} → Same s s' → IsConsistent s → IsConsistent s'
Same-IsConsistent {s} {s'} k c = record {
  start = rw k.next c.start;
  by_id = λ i b e.
      let (b', e', p, q) = of_shape (lookup i s.bufid_map) b (ap shape (sym e) ∙ k.shapes i) in
      let (x, y, z, w) = c.by_id i b' e' in (sym p ∙ x, rw (k.names, ← q) y, z, rw k.next w);
  by_name = λ n i e.
      let (b, e', q) = c.by_name n i (rw k.names at e) in
      let (b', f, p, r) =
        of_shape (lookup i s'.bufid_map) b (ap shape (sym e') ∙ sym (k.shapes i)) in
      (b', f, r ∙ q);
}

-- A new window under the next id.
abbrev opened : Bytes → Vim → Vim
opened path s = record s {
  bufname_map = insert path s.next_bufid s.bufname_map;
  bufid_map = insert s.next_bufid (fresh_buffer s.next_bufid path) s.bufid_map;
  next_bufid = s.next_bufid + 1;
}

opened-IsConsistent :
    (path : Bytes) (s : Vim)
    → lookup path s.bufname_map ≡ none
    → IsConsistent s
    → IsConsistent (opened path s)
opened-IsConsistent path s new c = record {
  start = omega arith;
  by_id = λ i b e.
      let e' =
        sym (lookup-insert s.next_bufid i (fresh_buffer s.next_bufid path) s.bufid_map) ∙ e in
      elim (Bool-cases (s.next_bufid == i)) [
        | inl h ↦ newest i b ((==_iff s.next_bufid i).0 h) (rw h at e')
        | inr h ↦ older i b (rw h at e')
      ];
  by_name = λ n i e.
      let e' = sym (lookup-insert path n s.next_bufid s.bufname_map) ∙ e in
      elim (Bool-cases (bytes_same path n)) [
        | inl h ↦ named n i ((bytes_same_iff path n).0 h) (rw h at e')
        | inr h ↦ renamed n i (rw h at e')
      ];
}
  where
    newest :
        (i : ℕ) (b : Buffer)
        → s.next_bufid ≡ i
        → some (fresh_buffer s.next_bufid path) ≡ some b
        → (b.id ≡ i)
          × (lookup b.name (opened path s).bufname_map ≡ some i)
          × (0 < i)
          × (i < (opened path s).next_bufid)
    newest i b h e =
        subst
          (λ (b : Buffer).
            (b.id ≡ i)
            × (lookup b.name (opened path s).bufname_map ≡ some i)
            × (0 < i)
            × (i < (opened path s).next_bufid))
          (some-injective _ _ e)
          (
            h,
            rw (lookup-insert path path s.next_bufid s.bufname_map, same_self path) (ap some h),
            omega (arith, c.start),
            omega arith,
          )

    older :
        (i : ℕ) (b : Buffer)
        → lookup i s.bufid_map ≡ some b
        → (b.id ≡ i)
          × (lookup b.name (opened path s).bufname_map ≡ some i)
          × (0 < i)
          × (i < (opened path s).next_bufid)
    older i b e =
        let (x, y, z, w) = c.by_id i b e in
        (
          x,
          lookup-insert path b.name s.next_bufid s.bufname_map
              ∙ (elim (Bool-cases (bytes_same path b.name)) [
                | inl h ↦
                    let same = (bytes_same_iff path b.name).0 h in
                    absurd (none-ne-some (sym new ∙ ap (λ n. lookup n s.bufname_map) same ∙ y))
                | inr h ↦ rw h y
              ]),
          z,
          omega arith,
        )

    named :
        (n : Bytes) (i : ℕ)
        → path ≡ n
        → some s.next_bufid ≡ some i
        → (b : Buffer) × (lookup i (opened path s).bufid_map ≡ some b) × (b.name ≡ n)
    named n i h e =
        let same = some-injective _ _ e in
        (
          fresh_buffer s.next_bufid path,
          lookup-insert s.next_bufid i (fresh_buffer s.next_bufid path) s.bufid_map
              ∙ rw ((==_iff s.next_bufid i).1 same) refl,
          h,
        )

    renamed :
        (n : Bytes) (i : ℕ)
        → lookup n s.bufname_map ≡ some i
        → (b : Buffer) × (lookup i (opened path s).bufid_map ≡ some b) × (b.name ≡ n)
    renamed n i e =
        let (b, x, y) = c.by_name n i e in
        let (_, _, _, w) = c.by_id i b x in
        let apart : (s.next_bufid == i) ≡ false = ground arith in
        (
          b,
          lookup-insert s.next_bufid i (fresh_buffer s.next_bufid path) s.bufid_map ∙ rw apart x,
          y,
        )

-- With the two lines to vim.
abbrev announced : Bytes → Action → Vim → Vim
announced path a s = record (opened path s) {
  seq_num = s.seq_num + 1 + 1;
  sent =
      (s.sent ++ record { buf_id = s.next_bufid; action = a; seq_num = s.seq_num + 1 } ∷ [])
      ++ record {
        buf_id = s.next_bufid;
        action = stop_document_listen;
        seq_num = s.seq_num + 1 + 1;
      }
        ∷ [];
}

module _ (cwd : Bytes) (vim : ℕ → Option Cursor) where
  -- A window that is new keeps the others, by name.
  abbrev pub Opens : Bytes → Vim → Option (Win × Vim) → Type 0
  Opens name s r =
      (id : ℕ) × (s' : Vim) × (r ≡ some (some id, s'))
      × IsConsistent s'
      × (win_getid cwd vim name s' ≡ some id)
      × ((n : Bytes) (j : ℕ) → lookup n s.bufname_map ≡ some j → lookup n s'.bufname_map ≡ some j)

  create_buffer-Opens :
      (name : Bytes) (s : Vim)
      → win_getid cwd vim name s ≡ none
      → s.next_bufid < 2 ^ 31
      → IsConsistent s
      → Opens name s (create_buffer cwd vim name s)
  unfolding create_buffer win_getid command ◌>>=◌ gets modify pure
  create_buffer-Opens name s new small c =
      let path = full_name cwd vim name in
      let c' = opened-IsConsistent path s new c in
      let s' =
        announced path (if char_at name 0 == b'/' then edit_file path else put_buffer_number path)
          s in
      (
        s.next_bufid,
        s',
        rw (lt→leb (2 ^ 31) s.next_bufid small) refl,
        Same-IsConsistent {s' = s'} (Same-fields {s = opened path s} refl refl refl) c',
        lookup-insert path path s.next_bufid s.bufname_map ∙ rw (same_self path) refl,
        λ n j e. lookup-insert path n s.next_bufid s.bufname_map ∙ apart path new n j e,
      )
    where
      apart :
          (path : Bytes)
          → lookup path s.bufname_map ≡ none
          → (n : Bytes) (j : ℕ) → lookup n s.bufname_map ≡ some j
          → (if bytes_same path n then some s.next_bufid else lookup n s.bufname_map) ≡ some j
      apart path new n j e = elim (Bool-cases (bytes_same path n)) [
        | inr h ↦ rw h e
        | inl h ↦ absurd (
            none-ne-some
              (sym new ∙ ap (λ n. lookup n s.bufname_map) ((bytes_same_iff path n).0 h) ∙ e))
      ]

  -- While there are ids, a name always gets a window: in a consistent state `win_create` returns
  -- an id under which `win_getid` then finds the name, the maps stay consistent, and every name
  -- that had a window keeps it.
  pub win_create-Opens :
      (name : Bytes) (s : Vim)
      → s.next_bufid < 2 ^ 31
      → IsConsistent s
      → Opens name s (win_create cwd vim (some name) s)
  unfolding win_create win_getid ◌>>=◌ gets pure
  win_create-Opens name s small c = go (win_getid cwd vim name s) refl
    where
      go :
          (w : Win)
          → win_getid cwd vim name s ≡ w
          → Opens name s ((if is_id w then pure w else create_buffer cwd vim name) s)
      go none e = create_buffer-Opens name s e small c
      go (some zero) e =
          let (b, x, _) = c.by_name _ zero e in
          let (_, _, z, _) = c.by_id zero b x in absurd (omega arith)
      go (some (suc id)) e =
          (suc id, s, rw (lt→ltb 0 (suc id) (omega arith)) refl, c, e, λ n j h. h)
