-- ===== src/Gdb/Registry/Sound.antt =====
-- The invariant of the registry, and the changes of a single object.
use mathlib.Core.Option.{some-injective}
use vimgdb.Base.{
  ℕ, ◌+◌, ◌<◌, ◌≤◌, ◌≡◌, refl, ◌∙◌, sym, ap, arith, true, false, none, some, ◌==◌, ==_iff,
  Bool-cases, inl, inr,
}
use vimgdb.Base.Maps.{lookup, insert, erase, nat_key, bytes_key, lookup-insert}
use vimgdb.Common.Text.{Bytes}
use vimgdb.Gdb.Registry.{
  Origin, unknown, callstack, registers, user, Object, is_known, Registry, list_in, by_origin,
  unlist,
}
use vimgdb.Gdb.Registry.Named.{
  AreNamed, Extends, AreNamed-extend, AreNamed-insert, AreNamed-erase, AreNamed-drop, by_pointer,
  left, contradictory,
}

-- Each entry of a map points to an object of its name, in the maps of an origin to one of that
-- origin; the objects have an origin and pointers below the next one.
pub record IsSound {G : Type 0} (s : Registry G) : Type 0 where
  pub listed : AreNamed none s.objects s.gdb_var_lst
  pub callstacks : AreNamed (some callstack) s.objects s.gdb_callstack_var
  pub registers : AreNamed (some registers) s.objects s.gdb_register_var
  pub users : AreNamed (some user) s.objects s.gdb_user_var
  pub known : (p : ℕ) (v : Object) → lookup p s.objects ≡ some v → is_known v.origin ≡ true
  pub below : (p : ℕ) (v : Object) → lookup p s.objects ≡ some v → p < s.fresh

abbrev number : Origin → ℕ
number unknown = 0
number callstack = 1
number registers = 2
number user = 3

-- Two origins differ.
clash : {o r : Origin} → o ≡ r → (number o == number r) ≡ false → ⊥
clash {o} {r} e n = contradictory (sym ((==_iff (number o) (number r)).1 (ap number e)) ∙ n)

module _ {G : Type 0} where
  -- An object is written, and the others are still there.
  put-IsSound :
      (s : Registry G) (p fresh : ℕ) (w : Object)
      → Extends s.objects (insert p w s.objects)
      → is_known w.origin ≡ true
      → p < fresh
      → s.fresh ≤ fresh
      → IsSound s
      → IsSound (record s { objects = insert p w s.objects; fresh = fresh })
  put-IsSound s p fresh w x k b f h = record {
    listed = AreNamed-extend none s.objects (insert p w s.objects) s.gdb_var_lst x h.listed;
    callstacks =
        AreNamed-extend (some callstack) s.objects (insert p w s.objects) s.gdb_callstack_var x
          h.callstacks;
    registers =
        AreNamed-extend (some registers) s.objects (insert p w s.objects) s.gdb_register_var x
          h.registers;
    users = AreNamed-extend (some user) s.objects (insert p w s.objects) s.gdb_user_var x h.users;
    known = by_pointer s.objects p w (λ _ u. is_known u.origin ≡ true) k h.known;
    below =
        by_pointer s.objects p w (λ q _. q < fresh) b (λ q u e. omega (arith, h.below q u e, f));
  }

  -- An object is written that keeps its name and its origin.
  pub store-IsSound :
      (s : Registry G) (p : ℕ) (v w : Object)
      → lookup p s.objects ≡ some v
      → w.name ≡ v.name
      → w.origin ≡ v.origin
      → IsSound s
      → IsSound (record s { objects = insert p w s.objects })
  store-IsSound s p v w there n o h =
      put-IsSound s p s.fresh w x (rw o (h.known p v there)) (h.below p v there) (omega arith) h
    where
      x : Extends s.objects (insert p w s.objects)
      x q u e = elim (Bool-cases (p == q)) [
        | inl r ↦
            let same : v ≡ u =
              some-injective v u
                (sym there ∙ ap (λ p. lookup p s.objects) ((==_iff p q).0 r) ∙ e) in
            (
              w,
              lookup-insert p q w s.objects ∙ rw r refl,
              n ∙ ap (λ (v : Object). v.name) same,
              o ∙ ap (λ (v : Object). v.origin) same,
            )
        | inr r ↦ (u, lookup-insert p q w s.objects ∙ rw r e, refl, refl)
      ]

  -- A new object.
  pub allocate-IsSound :
      (s : Registry G) (w : Object)
      → is_known w.origin ≡ true
      → IsSound s
      → IsSound (record s { objects = insert s.fresh w s.objects; fresh = s.fresh + 1 })
  allocate-IsSound s w k h = put-IsSound s s.fresh (s.fresh + 1) w x k (omega arith) (omega arith) h
    where
      x : Extends s.objects (insert s.fresh w s.objects)
      x q u e = elim (Bool-cases (s.fresh == q)) [
        | inl r ↦ absurd (omega (arith, h.below q u e, (==_iff s.fresh q).0 r))
        | inr r ↦ (u, lookup-insert s.fresh q w s.objects ∙ rw r e, refl, refl)
      ]

  pub lookup-new : (s : Registry G) (p : ℕ) (w : Object) → lookup p (insert p w s.objects) ≡ some w
  lookup-new s p w = lookup-insert p p w s.objects ∙ rw ((==_iff p p).1 refl) refl

  -- The next pointer is that of no object, in either order.
  next_new :
      (s : Registry G) (p : ℕ) (v : Object)
      → lookup p s.objects ≡ some v
      → IsSound s
      → ((s.fresh == p) ≡ false) × ((p == s.fresh) ≡ false)
  next_new s p v there h = let b = h.below p v there in (ground (arith, b), ground (arith, b))

  pub lookup-old :
      (s : Registry G) (p : ℕ) (v w : Object)
      → lookup p s.objects ≡ some v
      → IsSound s
      → lookup p (insert s.fresh w s.objects) ≡ some v
  lookup-old s p v w there h =
      lookup-insert s.fresh p w s.objects ∙ rw (next_new s p v there h).0 there

  pub lookup-child :
      (s : Registry G) (p : ℕ) (v w u : Object)
      → lookup p s.objects ≡ some v
      → IsSound s
      → lookup s.fresh (insert p u (insert s.fresh w s.objects)) ≡ some w
  lookup-child s p v w u there h =
      lookup-insert p s.fresh u (insert s.fresh w s.objects)
      ∙ rw (next_new s p v there h).1 (lookup-new s s.fresh w)

  -- A name for an object.
  pub list_in-IsSound :
      (s : Registry G) (key : Bytes) (p : ℕ) (v : Object)
      → lookup p s.objects ≡ some v
      → v.name ≡ key
      → IsSound s
      → IsSound (list_in key p s)
  unfolding list_in
  list_in-IsSound s key p v there n h = record {
    listed = AreNamed-insert none s.objects s.gdb_var_lst key p v there n tt h.listed;
    callstacks = h.callstacks;
    registers = h.registers;
    users = h.users;
    known = h.known;
    below = h.below;
  }

  pub by_origin-IsSound :
      (o : Origin) (s : Registry G) (key : Bytes) (p : ℕ) (v : Object)
      → lookup p s.objects ≡ some v
      → v.name ≡ key
      → v.origin ≡ o
      → IsSound s
      → IsSound (by_origin o (insert key p) s)
  unfolding by_origin
  by_origin-IsSound unknown s key p v there n f h = h
  by_origin-IsSound callstack s key p v there n f h = record {
    listed = h.listed;
    callstacks =
        AreNamed-insert (some callstack) s.objects s.gdb_callstack_var key p v there n f
          h.callstacks;
    registers = h.registers;
    users = h.users;
    known = h.known;
    below = h.below;
  }
  by_origin-IsSound registers s key p v there n f h = record {
    listed = h.listed;
    callstacks = h.callstacks;
    registers =
        AreNamed-insert (some registers) s.objects s.gdb_register_var key p v there n f h.registers;
    users = h.users;
    known = h.known;
    below = h.below;
  }
  by_origin-IsSound user s key p v there n f h = record {
    listed = h.listed;
    callstacks = h.callstacks;
    registers = h.registers;
    users = AreNamed-insert (some user) s.objects s.gdb_user_var key p v there n f h.users;
    known = h.known;
    below = h.below;
  }

  -- An object of an origin, without its names.
  gone-IsSound :
      (o : Origin) (s : Registry G) (p : ℕ) (v : Object)
      → lookup p s.objects ≡ some v
      → v.origin ≡ o
      → is_known o ≡ true
      → IsSound s
      → IsSound (
          by_origin o
            (erase v.name)
            (record s { objects = erase p s.objects; gdb_var_lst = erase v.name s.gdb_var_lst }))
  unfolding by_origin is_known
  gone-IsSound unknown s p v there f k h = cc
  gone-IsSound callstack s p v there f k h = record {
    listed = AreNamed-erase none s.objects s.gdb_var_lst p v there h.listed;
    callstacks =
        AreNamed-erase (some callstack) s.objects s.gdb_callstack_var p v there h.callstacks;
    registers =
        AreNamed-drop registers s.objects s.gdb_register_var p v there (λ e. clash (sym f ∙ e) refl)
          h.registers;
    users =
        AreNamed-drop user s.objects s.gdb_user_var p v there (λ e. clash (sym f ∙ e) refl) h.users;
    known = λ q u e. h.known q u (left s.objects p q u e);
    below = λ q u e. h.below q u (left s.objects p q u e);
  }
  gone-IsSound registers s p v there f k h = record {
    listed = AreNamed-erase none s.objects s.gdb_var_lst p v there h.listed;
    callstacks =
        AreNamed-drop callstack s.objects s.gdb_callstack_var p v there
          (λ e. clash (sym f ∙ e) refl) h.callstacks;
    registers = AreNamed-erase (some registers) s.objects s.gdb_register_var p v there h.registers;
    users =
        AreNamed-drop user s.objects s.gdb_user_var p v there (λ e. clash (sym f ∙ e) refl) h.users;
    known = λ q u e. h.known q u (left s.objects p q u e);
    below = λ q u e. h.below q u (left s.objects p q u e);
  }
  gone-IsSound user s p v there f k h = record {
    listed = AreNamed-erase none s.objects s.gdb_var_lst p v there h.listed;
    callstacks =
        AreNamed-drop callstack s.objects s.gdb_callstack_var p v there
          (λ e. clash (sym f ∙ e) refl) h.callstacks;
    registers =
        AreNamed-drop registers s.objects s.gdb_register_var p v there (λ e. clash (sym f ∙ e) refl)
          h.registers;
    users = AreNamed-erase (some user) s.objects s.gdb_user_var p v there h.users;
    known = λ q u e. h.known q u (left s.objects p q u e);
    below = λ q u e. h.below q u (left s.objects p q u e);
  }

  -- What the destructor leaves in front of the children.
  pub unlist-IsSound :
      (s : Registry G) (p : ℕ) (v : Object)
      → lookup p s.objects ≡ some v
      → IsSound s
      → IsSound (unlist v (record s { objects = erase p s.objects }))
  unfolding unlist
  unlist-IsSound s p v there h =
      rw (h.known p v there) (gone-IsSound v.origin s p v there refl (h.known p v there) h)
