-- ===== src/Command/Break/Table.antt =====
-- The registry of breakpoints against the table of gdb.
use vimgdb.Base.{
  ℕ, ◌≡◌, refl, ◌∙◌, ap, sym, subst, Bool, false, List, Option, none, some, ◌==◌, ==_iff, ==_self,
  if◌then◌else◌, Bool-cases, ◌⊎◌, inl, inr, arith,
}
use vimgdb.Base.Maps.{
  lookup, insert, erase, lookup-insert, lookup-erase, bytes_key, bytes_same, bytes_same_iff,
}
use mathlib.Core.Option.{some-injective}
use vimgdb.Common.Text.{Bytes}
use vimgdb.Gdb.Breakpoints.{Breakpoint}

-- Each breakpoint is registered under its location, gdb knows it under its number with the same
-- flag, and no two have one number.
pub record Agreed (location : Breakpoint → Option Bytes) (lst : List (Bytes × Breakpoint))
    (table : ℕ → Option Bool) : Type 0 where
  pub located : (k : Bytes) (b : Breakpoint) → lookup k lst ≡ some b → location b ≡ some k
  pub known : (k : Bytes) (b : Breakpoint) → lookup k lst ≡ some b → table b.num ≡ some b.enabled
  pub apart :
      (k j : Bytes) (b c : Breakpoint)
      → lookup k lst ≡ some b
      → lookup j lst ≡ some c
      → b.num ≡ c.num
      → k ≡ j

module _ (location : Breakpoint → Option Bytes) (lst : List (Bytes × Breakpoint)) where
  pub Agreed-same :
      (t t' : ℕ → Option Bool)
      → ((n : ℕ) → t' n ≡ t n)
      → Agreed location lst t
      → Agreed location lst t'
  Agreed-same t t' h a = record {
    located = a.located;
    known = λ k b e. h b.num ∙ a.known k b e;
    apart = a.apart;
  }

  -- A number that gdb does not know is none of the registry's.
  unknown :
      (t : ℕ → Option Bool) (n : ℕ)
      → Agreed location lst t
      → t n ≡ none
      → (k : Bytes) (b : Breakpoint) → lookup k lst ≡ some b
      → (n == b.num) ≡ false
  unknown t n a new k b e = elim (Bool-cases (n == b.num)) [
    | inr h ↦ h
    | inl h ↦
        let same = ap t ((==_iff n b.num).0 h) in
        absurd (none_some (sym new ∙ same ∙ a.known k b e))
  ]
    where
      none_some : {x : Bool} → ◌≡◌ {A = Option Bool} none (some x) → ⊥
      none_some e = cc

  -- gdb has one more, which is not registered.
  pub Agreed-more :
      (t t' : ℕ → Option Bool) (new : ℕ) (on : Bool)
      → t new ≡ none
      → ((n : ℕ) → t' n ≡ (if new == n then some on else t n))
      → Agreed location lst t
      → Agreed location lst t'
  Agreed-more t t' new on f h a = record {
    located = a.located;
    known = λ k b e. h b.num ∙ rw (unknown t new a f k b e) (a.known k b e);
    apart = a.apart;
  }

  -- It is registered under a location that is free.
  pub Agreed-insert :
      (t t' : ℕ → Option Bool) (key : Bytes) (new : Breakpoint)
      → location new ≡ some key
      → t new.num ≡ none
      → ((n : ℕ) → t' n ≡ (if new.num == n then some new.enabled else t n))
      → Agreed location lst t
      → Agreed location (insert key new lst) t'
  Agreed-insert t t' key new at f h a = record {
    located = λ k b e. elim (cases k b e) [
      | inl (p, q) ↦ subst (λ b. location b ≡ some k) q (at ∙ ap some p)
      | inr e ↦ a.located k b e
    ];
    known = λ k b e. elim (cases k b e) [
      | inl (p, q) ↦
          subst (λ (b : Breakpoint). t' b.num ≡ some b.enabled) q
            (h new.num ∙ rw (==_self new.num) refl)
      | inr e ↦ h b.num ∙ rw (unknown t new.num a f k b e) (a.known k b e)
    ];
    apart = λ k j b c e d s. elim (cases k b e) [
      | inl (p, q) ↦ (elim (cases j c d) [
        | inl (p', q') ↦ sym p ∙ p'
        | inr d ↦ absurd (clash j c d (ap (λ (b : Breakpoint). b.num) q ∙ s))
      ])
      | inr e ↦ (elim (cases j c d) [
        | inl (p', q') ↦ absurd (clash k b e (ap (λ (b : Breakpoint). b.num) q' ∙ sym s))
        | inr d ↦ a.apart k j b c e d s
      ])
    ];
  }
    where
      cases :
          (k : Bytes) (b : Breakpoint)
          → lookup k (insert key new lst) ≡ some b
          → ((key ≡ k) × (new ≡ b)) ⊎ (lookup k lst ≡ some b)
      cases k b e =
          let e' = sym (lookup-insert key k new lst) ∙ e in
          elim (Bool-cases (bytes_same key k)) [
            | inl h ↦ inl ((bytes_same_iff key k).0 h, some-injective _ _ (rw h at e'))
            | inr h ↦ inr (rw h at e')
          ]

      clash : (k : Bytes) (b : Breakpoint) → lookup k lst ≡ some b → new.num ≡ b.num → ⊥
      clash k b e s = ground (arith, unknown t new.num a f k b e, s)

  -- A registered breakpoint is deleted on both sides.
  pub Agreed-erase :
      (t t' : ℕ → Option Bool) (key : Bytes) (old : Breakpoint)
      → lookup key lst ≡ some old
      → ((n : ℕ) → t' n ≡ (if old.num == n then none else t n))
      → Agreed location lst t
      → Agreed location (erase key lst) t'
  Agreed-erase t t' key old e h a = record {
    located = λ k b d. a.located k b (left k b d).1;
    known = λ k b d. let (ne, d) = left k b d in h b.num ∙ rw (other k b ne d) (a.known k b d);
    apart = λ k j b c d d'. a.apart k j b c (left k b d).1 (left j c d').1;
  }
    where
      left :
          (k : Bytes) (b : Breakpoint)
          → lookup k (erase key lst) ≡ some b
          → (bytes_same key k ≡ false) × (lookup k lst ≡ some b)
      left k b d =
          let d' = sym (lookup-erase key k lst) ∙ d in
          elim (Bool-cases (bytes_same key k)) [
            | inl h ↦ absurd (none_some (rw h at d'))
            | inr h ↦ (h, rw h at d')
          ]
        where
          none_some : {x : Breakpoint} → ◌≡◌ {A = Option Breakpoint} none (some x) → ⊥
          none_some e = cc

      other :
          (k : Bytes) (b : Breakpoint)
          → bytes_same key k ≡ false
          → lookup k lst ≡ some b
          → (old.num == b.num) ≡ false
      other k b ne d = elim (Bool-cases (old.num == b.num)) [
        | inr h ↦ h
        | inl h ↦
            let same = a.apart key k old b e d ((==_iff old.num b.num).0 h) in
            ground (arith, (bytes_same_iff key k).1 same, ne)
      ]

  -- The flag of a registered breakpoint is set on both sides; its location stays.
  pub Agreed-set :
      (t t' : ℕ → Option Bool) (key : Bytes) (old : Breakpoint) (on : Bool)
      → lookup key lst ≡ some old
      → location (record old { enabled = on }) ≡ location old
      → ((n : ℕ) → t' n ≡ (if old.num == n then some on else t n))
      → Agreed location lst t
      → Agreed location (insert key (record old { enabled = on }) lst) t'
  Agreed-set t t' key old on e at h a = record {
    located = λ k b d. elim (cases k b d) [
      | inl (p, q) ↦ subst (λ b. location b ≡ some k) q (at ∙ a.located key old e ∙ ap some p)
      | inr (ne, d) ↦ a.located k b d
    ];
    known = λ k b d. elim (cases k b d) [
      | inl (p, q) ↦
          subst (λ (b : Breakpoint). t' b.num ≡ some b.enabled) q
            (h old.num ∙ rw (==_self old.num) refl)
      | inr (ne, d) ↦ h b.num ∙ rw (other k b ne d) (a.known k b d)
    ];
    apart = λ k j b c d d' s.
        let (b', d, p) = was k b d in
        let (c', d', q) = was j c d' in a.apart k j b' c' d d' (p ∙ s ∙ sym q);
  }
    where
      cases :
          (k : Bytes) (b : Breakpoint)
          → lookup k (insert key (record old { enabled = on }) lst) ≡ some b
          → ((key ≡ k) × (record old { enabled = on } ≡ b))
            ⊎ ((bytes_same key k ≡ false) × (lookup k lst ≡ some b))
      cases k b d =
          let d' = sym (lookup-insert key k (record old { enabled = on }) lst) ∙ d in
          elim (Bool-cases (bytes_same key k)) [
            | inl h ↦ inl ((bytes_same_iff key k).0 h, some-injective _ _ (rw h at d'))
            | inr h ↦ inr (h, rw h at d')
          ]

      other :
          (k : Bytes) (b : Breakpoint)
          → bytes_same key k ≡ false
          → lookup k lst ≡ some b
          → (old.num == b.num) ≡ false
      other k b ne d = elim (Bool-cases (old.num == b.num)) [
        | inr h ↦ h
        | inl h ↦
            let same = a.apart key k old b e d ((==_iff old.num b.num).0 h) in
            ground (arith, (bytes_same_iff key k).1 same, ne)
      ]

      was :
          (k : Bytes) (b : Breakpoint)
          → lookup k (insert key (record old { enabled = on }) lst) ≡ some b
          → (b' : Breakpoint) × (lookup k lst ≡ some b') × (b'.num ≡ b.num)
      was k b d = elim (cases k b d) [
        | inl (p, q) ↦
            (old, subst (λ k. lookup k lst ≡ some old) p e, ap (λ (b : Breakpoint). b.num) q)
        | inr (ne, d) ↦ (b, d, refl)
      ]
