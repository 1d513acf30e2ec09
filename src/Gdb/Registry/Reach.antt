-- ===== src/Gdb/Registry/Reach.antt =====
-- What the operations on variables can reach from an empty registry.
use vimgdb.Base.{ℕ, ◌+◌, ◌≡◌, refl, subst, Bool, true, List, [], ◌++◌, Option, none, some}
use vimgdb.Base.Maps.{lookup, insert, nat_key, bytes_key}
use vimgdb.Base.Runs.{Run, pure, ◌>>=◌, ◌>>◌, and_then, gets, modify, on, Then, Stays}
use vimgdb.Common.Text.{Bytes, u32}
use vimgdb.Gdb.Registry.{
  Origin, unknown, callstack, registers, user, Object, Created, Gdb, is_known, Registry, new_object,
  key_of, frame_addr, dollar, list_in, by_origin, deref, store, allocate, ask, release,
  thread_frame, express, enter, create, share, acquire_key, acquire, init_childs,
}
use vimgdb.Gdb.Registry.Changes.{get_changed, set, format}
use vimgdb.Gdb.Registry.Sound.{
  IsSound, allocate-IsSound, lookup-new, list_in-IsSound, by_origin-IsSound,
}
use vimgdb.Gdb.Registry.Kept.{
  deref-Then, store-Then, ask-Then, asked-IsSound, init_childs-IsSound, release-IsSound,
}
use vimgdb.Gdb.Registry.Changed.{get_changed-IsSound, set-IsSound, format-IsSound}

-- gdb names a new variable as it was asked to.
abbrev pub IsEcho : {G : Type 0} → Gdb G → Type 0
IsEcho {G} gdb =
    (at : Option (ℕ × ℕ)) (key frame_addr expr : Bytes) (g : G) (c : Created)
    → (gdb.create at key frame_addr expr g).0 ≡ some c
    → c.name ≡ key

module _ {G : Type 0} (gdb : Gdb G) (echo : IsEcho gdb) where
  -- The new variable, registered under its key.
  created-IsSound :
      (origin : Origin) (key : Bytes) (c : Created) (s : Registry G)
      → is_known origin ≡ true
      → c.name ≡ key
      → IsSound s
      → IsSound (
          by_origin origin (insert key s.fresh) (
            list_in key s.fresh (record s {
              objects = insert s.fresh (new_object origin none c) s.objects;
              fresh = s.fresh + 1;
            })))
  unfolding list_in new_object
  created-IsSound origin key c s k n h =
      let w : Object = new_object origin none c in
      by_origin-IsSound origin _ key s.fresh w (lookup-new s s.fresh w) n refl
        (list_in-IsSound _ key s.fresh w (lookup-new s s.fresh w) n (allocate-IsSound s w k h))

  express-IsSound : (p : ℕ) (name : Bytes) → Stays IsSound (express gdb p name)
  unfolding express
  express-IsSound p name s h = ask-Then gdb (gdb.info_expression name) _ s h by_exp
    where
      by_exp :
          (o : Option Bytes)
          → Stays (IsSound {G = G}) (
              on o
                (pure none)
                (λ exp. do v ← deref p; store p (record v { exp = some exp }); pure (some p)))
      by_exp none s h = unfold on pure in h
      by_exp (some e) s h =
          unfold on in
          deref-Then p _ s (λ v there.
            store-Then p v (record v { exp = some e }) (λ _. pure (some p)) s there refl refl h
              (λ s h. unfold pure in h))

  enter-IsSound :
      (origin : Origin) (key : Bytes) (c : Created)
      → is_known origin ≡ true
      → c.name ≡ key
      → Stays IsSound (enter gdb origin key c)
  unfolding enter allocate gets modify pure ◌>>=◌ and_then
  enter-IsSound origin key c k n s h =
      express-IsSound s.fresh c.name _ (created-IsSound origin key c s k n h)

  create-IsSound :
      (origin : Origin) (key expr : Bytes) (frame : ℕ)
      → is_known origin ≡ true
      → Stays IsSound (create gdb origin key expr frame)
  unfolding create ask gets pure on ◌>>=◌ and_then
  create-IsSound origin key expr frame k s h = by_answer (answer s.gdb).0 refl
    where
      answer : G → Option Created × G
      answer g =
          gdb.create (thread_frame gdb (gdb.inf_threadid g) frame) key (frame_addr origin)
            (dollar origin ++ expr) g

      by_answer :
          (o : Option Created)
          → (answer s.gdb).0 ≡ o
          → Then IsSound
              (on o (pure none) (enter gdb origin key) (record s { gdb = (answer s.gdb).1 }))
      by_answer none e = asked-IsSound gdb s _ h
      by_answer (some c) e =
          enter-IsSound origin key c k (echo _ key _ _ s.gdb c e) _ (asked-IsSound gdb s _ h)

  share-IsSound : (p : ℕ) → Stays IsSound (share gdb p)
  unfolding share
  share-IsSound p s h = deref-Then p _ s (λ v there.
      store-Then p v (record v { refcnt = u32 (v.refcnt + 1) }) (λ _. pure (some p)) s there refl
        refl h (λ s h. unfold pure in h))

  acquire_key-IsSound :
      (origin : Origin) (key expr : Bytes) (frame : ℕ)
      → is_known origin ≡ true
      → Stays IsSound (acquire_key gdb origin key expr frame)
  unfolding acquire_key gets ◌>>=◌ and_then
  acquire_key-IsSound origin key expr frame k s h = by_var (lookup key s.gdb_var_lst)
    where
      by_var : (o : Option ℕ) → Then IsSound (on o (create gdb origin key expr frame) (share gdb) s)
      by_var none = unfold on in create-IsSound origin key expr frame k s h
      by_var (some p) = unfold on in share-IsSound p s h

  acquire-IsSound :
      (origin : Origin) (context expr : Bytes) (frame : ℕ)
      → Stays IsSound (acquire gdb origin context expr frame)
  unfolding acquire key_of is_known on pure
  acquire-IsSound unknown context expr frame s h = h
  acquire-IsSound callstack context expr frame s h =
      acquire_key-IsSound callstack _ expr frame refl s h
  acquire-IsSound registers context expr frame s h =
      acquire_key-IsSound registers _ expr frame refl s h
  acquire-IsSound user context expr frame s h = acquire_key-IsSound user _ expr frame refl s h

-- Before any variable.
unfoldable pub no_variables : {G : Type 0} → G → Registry G
no_variables g = record {
  objects = [];
  fresh = 0;
  gdb_var_lst = [];
  gdb_callstack_var = [];
  gdb_register_var = [];
  gdb_user_var = [];
  gdb = g;
}

module _ {G : Type 0} (gdb : Gdb G) where
  -- A call of an operation that returns.
  pub data Step (s s' : Registry G) : Type 0 where
    acquires :
        (origin : Origin) (context expr : Bytes) (frame : ℕ) (r : Option ℕ)
        → acquire gdb origin context expr frame s ≡ some (r, s')
        → Step s s'
    releases : (p : ℕ) (r : Bool) → release gdb p s ≡ some (r, s') → Step s s'
    updates : (r : Bool) → get_changed gdb s ≡ some (r, s') → Step s s'
    lists_childs : (p : ℕ) (r : Bool) → init_childs gdb p s ≡ some (r, s') → Step s s'
    assigns : (p : ℕ) (argv : List Bytes) (r : Bool) → set gdb p argv s ≡ some (r, s') → Step s s'
    formats : (p : ℕ) (fmt : Bytes) (r : Bool) → format gdb p fmt s ≡ some (r, s') → Step s s'

  pub data Reach (g : G) : Registry G → Type 0 where
    starts : Reach g (no_variables g)
    steps : {s s' : Registry G} → Reach g s → Step s s' → Reach g s'

  returned :
      {A : Type 0} (m : Run (Registry G) A) (s s' : Registry G) (r : A)
      → Then IsSound (m s)
      → m s ≡ some (r, s')
      → IsSound s'
  returned m s s' r h e = subst (Then IsSound) e h

  Step-IsSound : IsEcho gdb → (s s' : Registry G) → IsSound s → Step s s' → IsSound s'
  Step-IsSound echo s s' h (acquires o c x f r e) =
      returned (acquire gdb o c x f) s s' r (acquire-IsSound gdb echo o c x f s h) e
  Step-IsSound echo s s' h (releases p r e) =
      returned (release gdb p) s s' r (release-IsSound gdb p s h) e
  Step-IsSound echo s s' h (updates r e) =
      returned (get_changed gdb) s s' r (get_changed-IsSound gdb s h) e
  Step-IsSound echo s s' h (lists_childs p r e) =
      returned (init_childs gdb p) s s' r (init_childs-IsSound gdb p s h) e
  Step-IsSound echo s s' h (assigns p a r e) =
      returned (set gdb p a) s s' r (set-IsSound gdb p a s h) e
  Step-IsSound echo s s' h (formats p f r e) =
      returned (format gdb p f) s s' r (format-IsSound gdb p f s h) e

  -- In every state that sequences of the operations on variables reach from an empty registry, where
  -- gdb names a new variable as it was asked to, whatever else it answers: each entry of
  -- gdb_var_lst points to an object that is not deleted and has that name, each entry of a map of an
  -- origin to one of that origin as well, and every object has an origin and a pointer that no later
  -- one gets.
  pub Reach-IsSound : (g : G) (s : Registry G) → IsEcho gdb → Reach g s → IsSound s
  unfolding no_variables
  Reach-IsSound g _ echo starts = record {
    listed = λ key p e. cc;
    callstacks = λ key p e. cc;
    registers = λ key p e. cc;
    users = λ key p e. cc;
    known = λ p v e. cc;
    below = λ p v e. cc;
  }
  Reach-IsSound g _ echo (steps {s} {s'} r e) = Step-IsSound echo s s' (Reach-IsSound g s echo r) e
