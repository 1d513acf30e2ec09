-- ===== src/Gdb/Registry/Named.antt =====
-- A map of names against the objects that it points to.
use mathlib.Core.Option.{some-injective}
use vimgdb.Base.{
  ℕ, ◌≡◌, ◌≢◌, refl, ◌∙◌, sym, ap, subst, Bool, true, false, List, Option, none, some, ◌==◌, ==_iff,
  Bool-cases, inl, inr,
}
use vimgdb.Base.Maps.{
  lookup, insert, erase, nat_key, bytes_key, bytes_same, bytes_same_iff, lookup-insert,
  lookup-erase,
}
use vimgdb.Common.Text.{Bytes}
use vimgdb.Gdb.Registry.{Origin, Object, Names}

abbrev pub Objects : Type 0
Objects = List (ℕ × Object)

-- The origin that a map is kept for, or none.
abbrev pub IsFrom : Option Origin → Object → Type 0
IsFrom none v = Unit
IsFrom (some o) v = v.origin ≡ o

-- An object at the pointer, with the name and the origin.
pub record IsNamed (o : Option Origin) (objs : Objects) (key : Bytes) (p : ℕ) : Type 0 where
  pub object : Object
  pub there : lookup p objs ≡ some object
  pub named : object.name ≡ key
  pub from : IsFrom o object

-- Each entry points to an object of its name.
abbrev pub AreNamed : Option Origin → Objects → Names → Type 0
AreNamed o objs m = (key : Bytes) (p : ℕ) → lookup key m ≡ some p → IsNamed o objs key p

-- The objects are still there, each with its name and its origin.
abbrev pub Extends : Objects → Objects → Type 0
Extends objs objs' =
    (p : ℕ) (v : Object)
    → lookup p objs ≡ some v
    → (w : Object) × (lookup p objs' ≡ some w) × (w.name ≡ v.name) × (w.origin ≡ v.origin)

keeps_origin : (o : Option Origin) (v w : Object) → w.origin ≡ v.origin → IsFrom o v → IsFrom o w
keeps_origin none v w e h = tt
keeps_origin (some o) v w e h = e ∙ h

pub AreNamed-extend :
    (o : Option Origin) (objs objs' : Objects) (m : Names)
    → Extends objs objs'
    → AreNamed o objs m
    → AreNamed o objs' m
AreNamed-extend o objs objs' m x h key p e =
    let k = h key p e in
    let (w, there, n, r) = x p k.object k.there in
    record {
      object = w;
      there = there;
      named = n ∙ k.named;
      from = keeps_origin o k.object w r k.from;
    }

pub AreNamed-insert :
    (o : Option Origin) (objs : Objects) (m : Names) (key : Bytes) (p : ℕ) (v : Object)
    → lookup p objs ≡ some v
    → v.name ≡ key
    → IsFrom o v
    → AreNamed o objs m
    → AreNamed o objs (insert key p m)
AreNamed-insert o objs m key p v there n f h j q e = elim (Bool-cases (bytes_same key j)) [
  | inl s ↦
      let r : p ≡ q = some-injective p q (sym (lookup-insert key j p m ∙ rw s refl) ∙ e) in
      subst (λ q. IsNamed o objs j q) r
        (record { object = v; there = there; named = n ∙ (bytes_same_iff key j).0 s; from = f })
  | inr s ↦ h j q (sym (lookup-insert key j p m ∙ rw s refl) ∙ e)
]

pub contradictory : ◌≡◌ {A = Bool} true false → ⊥
contradictory e = cc

-- Another object is left where it is.
lookup-other :
    (p q : ℕ) (objs : Objects) → (p == q) ≡ false → lookup q (erase p objs) ≡ lookup q objs
lookup-other p q objs e = lookup-erase p q objs ∙ rw e refl

same_object :
    (p q : ℕ) (objs : Objects) (v w : Object)
    → (p == q) ≡ true
    → lookup p objs ≡ some v
    → lookup q objs ≡ some w
    → v ≡ w
same_object p q objs v w e h k =
    some-injective v w (sym h ∙ ap (λ p. lookup p objs) ((==_iff p q).0 e) ∙ k)

-- Without another object.
without :
    (o : Option Origin) (objs : Objects) (j : Bytes) (p q : ℕ)
    → (p == q) ≡ false
    → IsNamed o objs j q
    → IsNamed o (erase p objs) j q
without o objs j p q e k = record {
  object = k.object;
  there = lookup-other p q objs e ∙ k.there;
  named = k.named;
  from = k.from;
}

pub AreNamed-erase :
    (o : Option Origin) (objs : Objects) (m : Names) (p : ℕ) (v : Object)
    → lookup p objs ≡ some v
    → AreNamed o objs m
    → AreNamed o (erase p objs) (erase v.name m)
AreNamed-erase o objs m p v there h j q e = elim (Bool-cases (bytes_same v.name j)) [
  | inl s ↦
      let none_some : ◌≡◌ {A = Option ℕ} none (some q) =
        sym (lookup-erase v.name j m ∙ rw s refl) ∙ e in
      cc
  | inr s ↦
      let k = h j q (sym (lookup-erase v.name j m ∙ rw s refl) ∙ e) in
      elim (Bool-cases (p == q)) [
        | inl r ↦
            let same : v.name ≡ j =
              ap (λ (v : Object). v.name) (same_object p q objs v k.object r there k.there)
              ∙ k.named in
            absurd (contradictory (sym ((bytes_same_iff v.name j).1 same) ∙ s))
        | inr r ↦ without o objs j p q r k
      ]
]

pub AreNamed-drop :
    (o : Origin) (objs : Objects) (m : Names) (p : ℕ) (v : Object)
    → lookup p objs ≡ some v
    → v.origin ≢ o
    → AreNamed (some o) objs m
    → AreNamed (some o) (erase p objs) m
AreNamed-drop o objs m p v there n h j q e =
    let k = h j q e in
    elim (Bool-cases (p == q)) [
      | inl r ↦ absurd (
          n (
            ap (λ (v : Object). v.origin) (same_object p q objs v k.object r there k.there)
            ∙ k.from))
      | inr r ↦ without (some o) objs j p q r k
    ]

-- What holds of the object that is written, and of the others.
pub by_pointer :
    (objs : Objects) (p : ℕ) (w : Object) (P : ℕ → Object → Type 0)
    → P p w
    → ((q : ℕ) (u : Object) → lookup q objs ≡ some u → P q u)
    → (q : ℕ) (u : Object) → lookup q (insert p w objs) ≡ some u
    → P q u
by_pointer objs p w P here others q u e = elim (Bool-cases (p == q)) [
  | inl r ↦
      subst (λ q. P q u) ((==_iff p q).0 r)
        (subst (P p) (some-injective w u (sym (lookup-insert p q w objs ∙ rw r refl) ∙ e)) here)
  | inr r ↦ others q u (sym (lookup-insert p q w objs ∙ rw r refl) ∙ e)
]

-- What is left without an object was there before.
pub left :
    (objs : Objects) (p q : ℕ) (u : Object)
    → lookup q (erase p objs) ≡ some u
    → lookup q objs ≡ some u
left objs p q u e = elim (Bool-cases (p == q)) [
  | inl r ↦
      let none_some : ◌≡◌ {A = Option Object} none (some u) =
        sym (lookup-erase p q objs ∙ rw r refl) ∙ e in
      cc
  | inr r ↦ sym (lookup-erase p q objs ∙ rw r refl) ∙ e
]
