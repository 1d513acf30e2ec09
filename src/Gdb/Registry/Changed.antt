-- ===== src/Gdb/Registry/Changed.antt =====
-- What `get_changed`, `set` and `format` do keeps the registry.
use vimgdb.Base.{
  ℕ, ◌≡◌, refl, Bool, true, false, ◌||◌, List, [], ◌∷◌, Option, none, some, ◌==◌, if◌then◌else◌,
}
use vimgdb.Base.Maps.{lookup, nat_key, bytes_key}
use vimgdb.Base.Runs.{pure, ◌>>=◌, ◌>>◌, and_then, gets, on, crash, Then, Stays, bind-Then}
use vimgdb.Common.Text.{Bytes}
use vimgdb.Gdb.Registry.{
  Object, Change, Gdb, Registry, deref, store, erase_childs, release, init_childs,
}
use vimgdb.Gdb.Registry.Changes.{
  is_shown, retype, take_change, changes, get_changed, mark_modified, set, format,
}
use vimgdb.Gdb.Registry.Sound.{IsSound}
use vimgdb.Gdb.Registry.Kept.{
  deref-Then, store-Then, ask-Then, init_childs-IsSound, erase_childs-IsSound, release-IsSound,
}

module _ {G : Type 0} (gdb : Gdb G) where
  retype-IsSound : (p : ℕ) (c : Change) → Stays IsSound (retype gdb p c)
  unfolding retype on pure
  retype-IsSound p c = by_type c.type_changed
    where
      retyped :
          (type : Bytes)
          → Stays (IsSound {G = G}) (do
            v ← deref p
            store p (record v { type = type; nchilds = c.nchilds })
            erase_childs p
            init_childs gdb p
            pure tt)
      retyped type s h = deref-Then p _ s (λ v there.
          store-Then p v (record v { type = type; nchilds = c.nchilds }) _ s there refl refl h
            (λ s h.
              bind-Then IsSound IsSound (erase_childs p) _ s (erase_childs-IsSound p s h) (λ _ s h.
                bind-Then IsSound IsSound (init_childs gdb p) _ s (init_childs-IsSound gdb p s h)
                  (λ _ s h. h))))

      by_type :
          (o : Option Bytes)
          → Stays (IsSound {G = G}) (
              on o (pure tt) (λ type. do
                v ← deref p
                store p (record v { type = type; nchilds = c.nchilds })
                erase_childs p
                init_childs gdb p
                pure tt))
      by_type none s h = h
      by_type (some t) s h = retyped t s h

  -- With an object that is still there.
  abbrev Held : ℕ → Object → Registry G → Type 0
  Held p v s = IsSound s × (lookup p s.objects ≡ some v)

  is_shown-Held : (p : ℕ) (v w : Object) → Stays (Held p v) (is_shown gdb w)
  unfolding is_shown deref gets on crash pure ◌>>=◌ and_then
  is_shown-Held p v w s h = by_parent w.parent
    where
      by_object :
          (o : Option Object)
          → Then (Held p v) (and_then (on o (crash) pure s) (λ w. pure w.childs_visible))
      by_object none = tt
      by_object (some w) = h

      by_parent :
          (o : Option ℕ)
          → Then (Held p v) (on o (pure true) (λ q. do w ← deref q; pure w.childs_visible) s)
      by_parent none = h
      by_parent (some q) = by_object (lookup q s.objects)

  take_change-IsSound : (p : ℕ) (c : Change) → Stays IsSound (take_change gdb p c)
  unfolding take_change pure
  take_change-IsSound p c s h = deref-Then p _ s (λ v there.
      bind-Then (Held p v) IsSound (is_shown gdb v) _ s (is_shown-Held p v v s (h, there))
        (λ shown s k.
          store-Then p v (record v { modified = v.modified || shown }) _ s k.1 refl refl k.0
            (λ s h.
              bind-Then IsSound IsSound (retype gdb p c) _ s (retype-IsSound p c s h)
                (λ _ s h. by_scope (c.inscope == b'i') s h))))
    where
      by_scope : (b : Bool) → Stays (IsSound {G = G}) (if b then release gdb p else pure true)
      by_scope true s h = release-IsSound gdb p s h
      by_scope false s h = h

  changes-IsSound : (cl : List Change) → Stays IsSound (changes gdb cl)
  unfolding changes gets pure ◌>>=◌ and_then
  changes-IsSound [] s h = h
  changes-IsSound (c ∷ cl) s h =
      bind-Then IsSound IsSound
        (on (lookup c.name s.gdb_var_lst) (pure true) (λ p. take_change gdb p c)) _ s
        (by_var (lookup c.name s.gdb_var_lst))
        (λ ok s h. more (λ s h. changes-IsSound cl s h) ok s h)
    where
      by_var : (o : Option ℕ) → Then IsSound (on o (pure true) (λ p. take_change gdb p c) s)
      by_var none = unfold on pure in h
      by_var (some p) = unfold on in take_change-IsSound p c s h

      more :
          Stays IsSound (changes gdb cl)
          → (ok : Bool) → Stays IsSound (if ok then changes gdb cl else pure false)
      more n true s h = n s h
      more n false s h = h

  pub get_changed-IsSound : Stays IsSound (get_changed gdb)
  unfolding get_changed pure
  get_changed-IsSound s h = ask-Then gdb gdb.update _ s h by_list
    where
      by_list :
          (o : Option (List Change)) → Stays (IsSound {G = G}) (on o (pure false) (changes gdb))
      by_list none s h = unfold on pure in h
      by_list (some l) s h = unfold on in changes-IsSound l s h

  mark_modified-IsSound : (p : ℕ) (ok : Bool) → Stays IsSound (mark_modified gdb p ok)
  unfolding mark_modified pure
  mark_modified-IsSound p false s h = h
  mark_modified-IsSound p true s h =
      deref-Then p _ s
        (λ v there. store-Then p v (record v { modified = true }) _ s there refl refl h (λ s h. h))

  pub set-IsSound : (p : ℕ) (argv : List Bytes) → Stays IsSound (set gdb p argv)
  unfolding set
  set-IsSound p argv s h =
      deref-Then p _ s
        (λ v there. ask-Then gdb (gdb.assign v.name argv) _ s h (mark_modified-IsSound p))

  pub format-IsSound : (p : ℕ) (fmt : Bytes) → Stays IsSound (format gdb p fmt)
  unfolding format
  format-IsSound p fmt s h =
      deref-Then p _ s
        (λ v there. ask-Then gdb (gdb.set_format v.name fmt) _ s h (mark_modified-IsSound p))
