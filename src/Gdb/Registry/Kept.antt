-- ===== src/Gdb/Registry/Kept.antt =====
-- The release of a variable, and its children, keep the registry.
use vimgdb.Base.{
  ℕ, zero, suc, ◌+◌, ◌-◌, ◌^◌, ◌≡◌, refl, Bool, true, false, not, List, [], ◌∷◌, ◌++◌, Option, none,
  some, ◌==◌, if◌then◌else◌, length,
}
use vimgdb.Base.Maps.{lookup, insert, nat_key, bytes_key}
use vimgdb.Base.Runs.{
  Run, pure, ◌>>=◌, ◌>>◌, and_then, gets, modify, on, crash, Then, Stays, bind-Then,
}
use vimgdb.Common.Text.{Bytes, u32}
use vimgdb.Gdb.Registry.{
  Object, Created, Gdb, Registry, new_object, list_in, deref, store, allocate, for_each, destroy,
  delete_object, erase_childs, ask, release, add_child, init_childs,
}
use vimgdb.Gdb.Registry.Sound.{
  IsSound, store-IsSound, allocate-IsSound, lookup-old, lookup-child, list_in-IsSound,
  unlist-IsSound,
}

module _ {G A : Type 0} where
  -- Behind a read of an object, in the same state.
  pub deref-Then :
      (p : ℕ) (f : Object → Run (Registry G) A) (s : Registry G)
      → ((v : Object) → lookup p s.objects ≡ some v → Then IsSound (f v s))
      → Then IsSound ((deref p >>= f) s)
  unfolding deref gets on crash pure ◌>>=◌ and_then
  deref-Then p f s k = go (lookup p s.objects) refl
    where
      go :
          (o : Option Object)
          → lookup p s.objects ≡ o
          → Then IsSound (and_then (on o (crash) pure s) f)
      go none e = tt
      go (some v) e = k v e

  pub store-Then :
      (p : ℕ) (v w : Object) (f : Unit {0} → Run (Registry G) A) (s : Registry G)
      → lookup p s.objects ≡ some v
      → w.name ≡ v.name
      → w.origin ≡ v.origin
      → IsSound s
      → ((t : Registry G) → IsSound t → Then IsSound (f tt t))
      → Then IsSound ((store p w >>= f) s)
  unfolding store modify ◌>>=◌ and_then
  store-Then p v w f s there n o h k = k _ (store-IsSound s p v w there n o h)

module _ {G : Type 0} where
  stored-IsSound :
      (p : ℕ) (v w : Object) (s : Registry G)
      → lookup p s.objects ≡ some v
      → w.name ≡ v.name
      → w.origin ≡ v.origin
      → IsSound s
      → Then IsSound (store p w s)
  unfolding store modify
  stored-IsSound p v w s there n o h = store-IsSound s p v w there n o h

  for_each-IsSound :
      {A : Type 0} (f : A → Run (Registry G) (Unit {0})) (l : List A)
      → ((x : A) → Stays IsSound (f x))
      → Stays IsSound (for_each f l)
  unfolding for_each pure
  for_each-IsSound f [] k s h = h
  for_each-IsSound f (x ∷ l) k s h =
      bind-Then IsSound IsSound (f x) _ s (k x s h) (λ _ s h. for_each-IsSound f l k s h)

  destroy-IsSound : (fuel p : ℕ) → Stays IsSound (destroy {G = G} fuel p)
  unfolding destroy crash modify ◌>>=◌ and_then
  destroy-IsSound zero p s h = tt
  destroy-IsSound (suc fuel) p s h = deref-Then p _ s (λ v there.
      for_each-IsSound (destroy fuel) v.childs (destroy-IsSound fuel) _
        (unlist-IsSound s p v there h))

  delete_object-IsSound : (p : ℕ) → Stays IsSound (delete_object {G = G} p)
  unfolding delete_object
  delete_object-IsSound p s h = destroy-IsSound (length s.objects) p s h

  pub erase_childs-IsSound : (p : ℕ) → Stays IsSound (erase_childs {G = G} p)
  unfolding erase_childs
  erase_childs-IsSound p s h = deref-Then p _ s (λ v there.
      bind-Then IsSound IsSound (for_each delete_object v.childs) _ s
        (for_each-IsSound delete_object v.childs delete_object-IsSound s h)
        (λ _ s h. deref-Then p _ s (λ v there. stored-IsSound p v _ s there refl refl h)))

module _ {G : Type 0} (gdb : Gdb G) where
  pub asked-IsSound : (s : Registry G) (g : G) → IsSound s → IsSound (record s { gdb = g })
  asked-IsSound s g h = record {
    listed = h.listed;
    callstacks = h.callstacks;
    registers = h.registers;
    users = h.users;
    known = h.known;
    below = h.below;
  }

  pub ask-Then :
      {A B : Type 0} (f : G → A × G) (k : A → Run (Registry G) B) (s : Registry G)
      → IsSound s
      → ((a : A) (t : Registry G) → IsSound t → Then IsSound (k a t))
      → Then IsSound ((ask gdb f >>= k) s)
  unfolding ask ◌>>=◌ and_then
  ask-Then f k s h n = n (f s.gdb).0 _ (asked-IsSound s (f s.gdb).1 h)

  pub release-IsSound : (p : ℕ) → Stays IsSound (release gdb p)
  unfolding release gets on pure ◌>>=◌ and_then
  release-IsSound p s h = deref-Then p _ s (λ v there.
      let refcnt = u32 (v.refcnt + 2 ^ 32 - 1) in
      store-Then p v (record v { refcnt = refcnt }) _ s there refl refl h
        (λ s h. by_count (not (refcnt == 0)) v.name s h))
    where
      deleted :
          (ok : Bool)
          → Stays (IsSound {G = G}) (if ok then (delete_object p >> pure true) else pure false)
      deleted true s h =
          bind-Then IsSound IsSound (delete_object p) _ s (delete_object-IsSound p s h) (λ _ s h. h)
      deleted false s h = h

      by_count :
          (b : Bool) (name : Bytes)
          → Stays (IsSound {G = G}) (
              gets (λ s. lookup name s.gdb_var_lst) >>= λ listed.
              if b
              then pure true
              else (on listed (pure true) (λ q. ask gdb (gdb.delete name)) >>= λ ok.
                  if ok then (delete_object p >> pure true) else pure false))
      by_count true name s h = h
      by_count false name s h = by_listed (lookup name s.gdb_var_lst)
        where
          by_listed :
              (listed : Option ℕ)
              → Then IsSound (
                  (on listed (pure true) (λ q. ask gdb (gdb.delete name)) >>= λ ok.
                  if ok then (delete_object p >> pure true) else pure false)
                    s)
          by_listed none = deleted true s h
          by_listed (some q) = ask-Then (gdb.delete name) _ s h deleted

  add_child-IsSound : (p : ℕ) (c : Created) → Stays IsSound (add_child gdb p c)
  unfolding add_child allocate store new_object gets modify pure ◌>>=◌ and_then
  add_child-IsSound p c s h = deref-Then p _ s (λ v there. added v there)
    where
      added :
          (v : Object)
          → lookup p s.objects ≡ some v
          → IsSound (
              list_in c.name s.fresh (record s {
                objects =
                    insert p
                      (record v { childs = v.childs ++ s.fresh ∷ [] })
                      (insert s.fresh (new_object v.origin (some p) c) s.objects);
                fresh = s.fresh + 1;
              }))
      added v there =
          let w : Object = new_object v.origin (some p) c in
          let u : Object = record v { childs = v.childs ++ s.fresh ∷ [] } in
          list_in-IsSound _ c.name s.fresh w (lookup-child s p v w u there h) refl (
            store-IsSound _ p v u (lookup-old s p v w there h) refl refl
              (allocate-IsSound s w (h.known p v there) h))

  pub init_childs-IsSound : (p : ℕ) → Stays IsSound (init_childs gdb p)
  unfolding init_childs pure on ◌>>=◌ and_then
  init_childs-IsSound p s h =
      deref-Then p _ s (λ v there. by_childs (not (length v.childs == 0)) v.name)
    where
      by_list :
          (o : Option (List Created))
          → Stays
              (IsSound {G = G})
              (on o (pure false) (λ clst. for_each (add_child gdb p) clst >> pure true))
      by_list none s h = h
      by_list (some l) s h =
          bind-Then IsSound IsSound (for_each (add_child gdb p) l) _ s
            (for_each-IsSound (add_child gdb p) l (add_child-IsSound p) s h) (λ _ s h. h)

      by_childs :
          (b : Bool) (name : Bytes)
          → Then IsSound (
              (if b
                  then pure true
                  else (ask gdb (gdb.list_children name) >>= λ clst.
                      on clst (pure false) (λ clst. for_each (add_child gdb p) clst >> pure true)))
                s)
      by_childs true name = h
      by_childs false name = ask-Then (gdb.list_children name) _ s h by_list
