-- ===== src/Command/Break/Agrees.antt =====
-- Every run of `Break` keeps the registry of breakpoints.
use vimgdb.Base.{
  ℕ, ◌≡◌, refl, ◌∙◌, ap, sym, subst, Bool, true, false, ◌&&◌, List, [], ◌∷◌, Option, none, some,
  ◌==◌, ==_iff, if◌then◌else◌, Bool-cases, Option-cases, inl, inr,
}
use vimgdb.Base.Maps.{lookup, erase, bytes_key}
use vimgdb.Base.Runs.{
  Run, pure, and_then, ◌>>=◌, ◌>>◌, gets, modify, crash, on, Then, Stays, bind-Then,
}
use vimgdb.Common.Text.{Bytes, codes}
use vimgdb.Gui.Interface.{Gui, IsSound}
use vimgdb.Gdb.Breakpoints.{Breakpoint, Gdb, IsTable}
use vimgdb.Command.Break.{
  Subcmd, add, delete, enable, disable, complete, export, view, other, Session, Calls,
  takes_argument, place, location, issue, set_lst, write_file, breakpt_print, breakpt_list,
  export_lst, mark, unmark, register, break_add, delete_found, break_switch, found, break_subcmd,
  cmd_break_exec,
}
use vimgdb.Command.Break.Screen.{Both, breakpt_print-Both, mark-Both, unmark-Both, on-Both}
use vimgdb.Command.Break.Table.{
  Agreed, Agreed-same, Agreed-more, Agreed-insert, Agreed-erase, Agreed-set,
}

-- The flag is no part of the location.
location-enabled :
    (calls : Calls) (b : Breakpoint) (on : Bool)
    → location calls (record b { enabled = on }) ≡ location calls b
unfolding location place
location-enabled calls b on = refl

module _ {G U : Type 0} where
  -- The registry agrees with gdb, and the user interface is sound.
  pub record IsAgreed (calls : Calls) (enabled_at : ℕ → G → Option Bool) (P : U → Type 0)
      (s : Session G U) : Type 0 where
    pub registry : Agreed (location calls) s.breakpt_lst (λ n. enabled_at n s.gdb)
    pub interface : P s.ui

module _ {G U : Type 0} (gdb : Gdb G) (ui : Gui U) (calls : Calls)
    (enabled_at : ℕ → G → Option Bool) (P : U → Type 0) (table : IsTable gdb enabled_at)
    (sound : IsSound ui P) where
  abbrev Agrees : List (Bytes × Breakpoint) → G → Type 0
  Agrees lst g = Agreed (location calls) lst (λ n. enabled_at n g)

  write_file-Agrees :
      (path text : Bytes) → Stays (Both P Agrees) (write_file gdb ui calls path text)
  unfolding write_file modify
  write_file-Agrees path text s h = h

  breakpt_list-Agrees : (path : Bytes) → Stays (Both P Agrees) (breakpt_list gdb ui calls path)
  unfolding breakpt_list ◌>>=◌ and_then gets pure
  breakpt_list-Agrees path s h = elim (Bool-cases (calls.opens path)) [
    | inr e ↦ rw e h
    | inl e ↦ rw e (on-Both gdb ui calls P sound Agrees _ _ (write_file-Agrees path) s h)
  ]

  export_lst-Agrees : (path : Bytes) → Stays (Both P Agrees) (export_lst gdb ui calls path)
  unfolding export_lst ◌>>=◌ and_then gets pure
  export_lst-Agrees path s h = elim (Bool-cases (calls.opens path)) [
    | inr e ↦ rw e h
    | inl e ↦ rw e (on-Both gdb ui calls P sound Agrees _ _ (λ t. write_file-Agrees path _) s h)
  ]

  -- The location is taken: gdb deletes the new one, or else it keeps one more than the registry.
  duplicate :
      (b : Breakpoint) (t : ℕ → Option Bool) (lst : List (Bytes × Breakpoint)) (g : G)
      → t b.num ≡ none
      → ((n : ℕ) → enabled_at n g ≡ (if b.num == n then some b.enabled else t n))
      → Agreed (location calls) lst t
      → Agrees lst (gdb.break_delete b.num g).1
  duplicate b t lst g new h a = elim (Bool-cases (gdb.break_delete b.num g).0) [
    | inl d ↦
        Agreed-same (location calls) lst t (λ n. enabled_at n (gdb.break_delete b.num g).1)
          (λ n. table.deleted b.num n g ∙ rw (d, h n) (gone n)) a
    | inr d ↦
        Agreed-more (location calls) lst t (λ n. enabled_at n (gdb.break_delete b.num g).1) b.num
          b.enabled new (λ n. table.deleted b.num n g ∙ rw d (h n)) a
  ]
    where
      gone :
          (n : ℕ)
          → (if true && b.num == n then none else (if b.num == n then some b.enabled else t n))
            ≡ t n
      gone n = elim (Bool-cases (b.num == n)) [
        | inl e ↦ rw e (sym new ∙ ap t ((==_iff b.num n).0 e))
        | inr e ↦ rw e refl
      ]

  register-Agrees :
      (b : Breakpoint) (key : Bytes) (t : ℕ → Option Bool) (s : Session G U)
      → location calls b ≡ some key
      → t b.num ≡ none
      → ((n : ℕ) → enabled_at n s.gdb ≡ (if b.num == n then some b.enabled else t n))
      → Agreed (location calls) s.breakpt_lst t
      → P s.ui
      → Then (Both P Agrees) (register gdb ui calls b key s)
  unfolding register ◌>>=◌ and_then gets on pure set_lst modify issue
  register-Agrees b key t s at new h a p = go (lookup key s.breakpt_lst) refl
    where
      go :
          (o : Option Breakpoint)
          → lookup key s.breakpt_lst ≡ o
          → Then (Both P Agrees) (register gdb ui calls b key s)
      go none e = rw e (
          bind-Then (Both P Agrees) (Both P Agrees) (breakpt_print gdb ui calls)
            (λ _. mark gdb ui calls b (codes "DarkRed")) _
            (breakpt_print-Both gdb ui calls P sound Agrees _
              (Agreed-insert (location calls) s.breakpt_lst t _ key b at new h a, p))
            (λ _ s' q. mark-Both gdb ui calls P sound Agrees b (codes "DarkRed") s' q))
      go (some c) e = rw e (duplicate b t s.breakpt_lst s.gdb new h a, p)

  break_add-Agrees : (args : List Bytes) → Stays (Both P Agrees) (break_add gdb ui calls args)
  unfolding break_add ◌>>=◌ and_then issue on pure crash
  break_add-Agrees args s (a, p) = go (gdb.break_insert args s.gdb).0 refl
    where
      go :
          (o : Option Breakpoint)
          → (gdb.break_insert args s.gdb).0 ≡ o
          → Then (Both P Agrees) (break_add gdb ui calls args s)
      go none e = rw e (
        Agreed-same (location calls) s.breakpt_lst (λ n. enabled_at n s.gdb) _
            (table.not_inserted args s.gdb e) a,
        p,
      )
      go (some b) e = rw e (elim (Option-cases (location calls b)) [
        | inl f ↦ rw f tt
        | inr (key, f) ↦ rw f (
            register-Agrees b key (λ n. enabled_at n s.gdb) _ f (table.fresh args s.gdb b e)
              (table.inserted args s.gdb b e) a p)
      ])

  delete_found-Agrees :
      (key : Bytes) (b : Breakpoint) (s : Session G U)
      → lookup key s.breakpt_lst ≡ some b
      → Both P Agrees s
      → Then (Both P Agrees) (delete_found gdb ui calls key b s)
  unfolding delete_found ◌>>=◌ and_then issue pure set_lst modify
  delete_found-Agrees key b s e (a, p) = elim (Bool-cases (gdb.break_delete b.num s.gdb).0) [
    | inr d ↦ rw d (
      Agreed-same (location calls) s.breakpt_lst (λ n. enabled_at n s.gdb) _
          (λ n. table.deleted b.num n s.gdb ∙ rw d refl) a,
      p,
    )
    | inl d ↦ rw d (
        bind-Then (Both P Deleted) (Both P Agrees) (unmark gdb ui calls b) _ _
          (unmark-Both gdb ui calls P sound Deleted b _ (
            Agreed-erase (location calls) s.breakpt_lst (λ n. enabled_at n s.gdb) _ key b e
                (λ n. table.deleted b.num n s.gdb ∙ rw d refl) a,
            p,
          ))
          (λ _ s' q. breakpt_print-Both gdb ui calls P sound Agrees _ q))
  ]
    where
      -- Between the two: gdb has deleted it, the registry is about to.
      Deleted : List (Bytes × Breakpoint) → G → Type 0
      Deleted lst g = Agrees (erase key lst) g

  break_switch-Agrees :
      (command : ℕ → G → Bool × G) (flag : Bool) (color key : Bytes) (b : Breakpoint)
      → ((k n : ℕ) (g : G)
          → enabled_at n (command k g).1
            ≡ (if (command k g).0 && k == n then some flag else enabled_at n g))
      → (s : Session G U) → lookup key s.breakpt_lst ≡ some b
      → Both P Agrees s
      → Then (Both P Agrees) (break_switch gdb ui calls command flag color key b s)
  unfolding break_switch ◌>>=◌ and_then issue pure set_lst modify
  break_switch-Agrees command flag color key b law s e (a, p) =
      elim (Bool-cases (command b.num s.gdb).0) [
        | inr d ↦ rw d (
          Agreed-same (location calls) s.breakpt_lst (λ n. enabled_at n s.gdb) _
              (λ n. law b.num n s.gdb ∙ rw d refl) a,
          p,
        )
        | inl d ↦ rw d (
            bind-Then (Both P Agrees) (Both P Agrees) (breakpt_print gdb ui calls) _ _
              (breakpt_print-Both gdb ui calls P sound Agrees _ (
                Agreed-set (location calls) s.breakpt_lst (λ n. enabled_at n s.gdb) _ key b flag e
                    (location-enabled calls b flag) (λ n. law b.num n s.gdb ∙ rw d refl) a,
                p,
              ))
              (λ _ s' q.
                bind-Then (Both P Agrees) (Both P Agrees) (unmark gdb ui calls b) _ s'
                  (unmark-Both gdb ui calls P sound Agrees b s' q)
                  (λ _ s' q. mark-Both gdb ui calls P sound Agrees b color s' q)))
      ]

  found-Agrees :
      (key : Bytes) (f : Breakpoint → Run (Session G U) (Unit {0})) (s : Session G U)
      → ((b : Breakpoint) → lookup key s.breakpt_lst ≡ some b → Then (Both P Agrees) (f b s))
      → Both P Agrees s
      → Then (Both P Agrees) (found gdb ui calls key f s)
  unfolding found ◌>>=◌ and_then gets on pure
  found-Agrees key f s h q = elim (Option-cases (lookup key s.breakpt_lst)) [
    | inl e ↦ rw e q
    | inr (b, e) ↦ rw e (h b e)
  ]

  break_subcmd-Agrees :
      (c : Subcmd) (arg : Bytes) (args : List Bytes)
      → Stays (Both P Agrees) (break_subcmd gdb ui calls c arg args)
  unfolding break_subcmd pure
  break_subcmd-Agrees add arg args s q = break_add-Agrees (arg ∷ args) s q
  break_subcmd-Agrees delete arg args s q =
      found-Agrees arg _ s (λ b e. delete_found-Agrees arg b s e q) q
  break_subcmd-Agrees enable arg args s q =
      found-Agrees arg _ s
        (λ b e. break_switch-Agrees gdb.break_enable true _ arg b table.enables s e q) q
  break_subcmd-Agrees disable arg args s q =
      found-Agrees arg _ s
        (λ b e. break_switch-Agrees gdb.break_disable false _ arg b table.disables s e q) q
  break_subcmd-Agrees complete arg args s q = breakpt_list-Agrees arg s q
  break_subcmd-Agrees export arg args s q = export_lst-Agrees arg s q
  break_subcmd-Agrees view arg args s q = breakpt_print-Both gdb ui calls P sound Agrees s q
  break_subcmd-Agrees other arg args s q = q

  exec-Both : (argv : List Bytes) → Stays (Both P Agrees) (cmd_break_exec gdb ui calls argv)
  unfolding cmd_break_exec on pure
  exec-Both [] s q = q
  exec-Both (name ∷ []) s q = q
  exec-Both (name ∷ sub ∷ []) s q = go (calls.subcmd sub)
    where
      go :
          (o : Option Subcmd)
          → Then (Both P Agrees) (
              on o
                (pure false)
                (λ c.
                  if takes_argument c
                  then pure false
                  else (break_subcmd gdb ui calls c [] [] >> pure false))
                s)
      go none = q
      go (some c) = elim (Bool-cases (takes_argument c)) [
        | inl e ↦ rw e q
        | inr e ↦ rw e (
            bind-Then (Both P Agrees) (Both P Agrees) _ _ s (break_subcmd-Agrees c [] [] s q)
              (λ _ s q. q))
      ]
  exec-Both (name ∷ sub ∷ arg ∷ args) s q = go (calls.subcmd sub)
    where
      go :
          (o : Option Subcmd)
          → Then
              (Both P Agrees)
              (on o (pure false) (λ c. break_subcmd gdb ui calls c arg args >> pure false) s)
      go none = q
      go (some c) =
          bind-Then (Both P Agrees) (Both P Agrees) _ _ s (break_subcmd-Agrees c arg args s q)
            (λ _ s q. q)

  -- A run of `Break` that returns, with whatever arguments, keeps the registry in agreement with
  -- gdb, where gdb behaves as documented and the operations of the user interface keep `P`: each
  -- breakpoint stands under its location, gdb knows it by its number, enabled or not as the
  -- registry says, and no two have one number. `P` holds of the user interface afterwards.
  pub cmd_break_exec-IsAgreed :
      (argv : List Bytes) (r : Bool) (s s' : Session G U)
      → IsAgreed calls enabled_at P s
      → cmd_break_exec gdb ui calls argv s ≡ some (r, s')
      → IsAgreed calls enabled_at P s'
  cmd_break_exec-IsAgreed argv r s s' h e =
      let (a, p) = subst (Then (Both P Agrees)) e (exec-Both argv s (h.registry, h.interface)) in
      record { registry = a; interface = p }
