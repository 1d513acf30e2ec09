-- ===== src/Gdb/Registry/Changes.antt =====
-- What gdb reports of the variables, and what the user sets (gdb/variable.cc): `get_changed`, `set`
-- and `format`.
use vimgdb.Base.{ℕ, Bool, true, false, not, ◌||◌, List, [], ◌∷◌, ◌==◌, if◌then◌else◌}
use vimgdb.Base.Maps.{lookup, nat_key, bytes_key}
use vimgdb.Base.Runs.{Run, pure, ◌>>=◌, ◌>>◌, gets, on}
use vimgdb.Common.Text.{Bytes}
use vimgdb.Gdb.Registry.{
  Object, Change, Gdb, Registry, deref, store, erase_childs, ask, release, init_childs,
}

module _ {G : Type 0} (gdb : Gdb G) where
  -- `var->parent == 0 || var->parent->childs_visible`
  unfoldable pub is_shown : Object → Run (Registry G) Bool
  is_shown v = on v.parent (pure true) (λ q. do w ← deref q; pure w.childs_visible)

  -- `if(v->type_changed)`
  unfoldable pub retype : ℕ → Change → Run (Registry G) (Unit {0})
  retype p c = on c.type_changed (pure tt) (λ type. do
    v ← deref p
    store p (record v { type = type; nchilds = c.nchilds })
    erase_childs p
    init_childs gdb p
    pure tt)

  -- A variable that gdb reports; whether the loop goes on.
  unfoldable pub take_change : ℕ → Change → Run (Registry G) Bool
  take_change p c = do
    v ← deref p
    shown ← is_shown v
    store p (record v { modified = v.modified || shown })
    retype p c
    if c.inscope == b'i' then release gdb p else pure true

  unfoldable pub changes : List Change → Run (Registry G) Bool
  changes [] = pure true
  changes (c ∷ cl) = do
    var ← gets (λ s. lookup c.name s.gdb_var_lst)
    ok ← on var (pure true) (λ p. take_change p c)
    if ok then changes cl else pure false

  unfoldable pub get_changed : Run (Registry G) Bool
  get_changed = do cl ← ask gdb gdb.update; on cl (pure false) changes

  -- What `set` and `format` do if gdb took the command.
  unfoldable pub mark_modified : ℕ → Bool → Run (Registry G) Bool
  mark_modified p ok =
      if not ok
      then pure false
      else do v ← deref p; store p (record v { modified = true }); pure true

  unfoldable pub set : ℕ → List Bytes → Run (Registry G) Bool
  set p argv = do v ← deref p; ok ← ask gdb (gdb.assign v.name argv); mark_modified p ok

  unfoldable pub format : ℕ → Bytes → Run (Registry G) Bool
  format p fmt = do v ← deref p; ok ← ask gdb (gdb.set_format v.name fmt); mark_modified p ok
