-- ===== src/Command/Per/Swapped.antt =====
-- `strswap2` inside of the content of a memory.
use mathlib.Core.List.{reverse-reverse, reverse-cons}
use vimgdb.Base.{
  ℕ, zero, suc, ◌+◌, ◌*◌, ◌≤◌, ◌≡◌, ◌≢◌, refl, ◌∙◌, sym, ap, subst, arith, List, [], ◌∷◌, ◌++◌,
  some, All-append, length, length-append, take, drop, take-append, drop-append, append_assoc,
  reverse,
}
use vimgdb.Common.Text.{Bytes}
use vimgdb.Common.Swap.Pairs.{flat, flat-append, strswap2-flat}
use vimgdb.Common.Page.Lines.{IsLine}
use vimgdb.Command.Per.Print.{slice, splice, swap_at}

-- A text as what stands before a place, what stands there and what stands behind.
record Cut (s : Bytes) (at n : ℕ) : Type 0 where
  before : Bytes
  there : Bytes
  behind : Bytes
  whole : s ≡ (before ++ there) ++ behind
  first : at ≡ length before
  second : n ≡ length there

empty : (b : Bytes) → 0 ≡ length b → b ≡ []
empty [] h = refl
empty (c ∷ b) h = absurd (omega arith)

cut : (s : Bytes) (at n : ℕ) → at + n ≤ length s → Cut s at n
cut s zero zero h = record {
  before = [];
  there = [];
  behind = s;
  whole = refl;
  first = refl;
  second = refl;
}
cut [] zero (suc n) h = absurd (omega arith)
cut (c ∷ s) zero (suc n) h =
    let k = cut s zero n (omega arith) in
    record {
      before = [];
      there = c ∷ k.there;
      behind = k.behind;
      whole =
          ap (λ t. c ∷ t) (k.whole ∙ ap (λ b. (b ++ k.there) ++ k.behind) (empty k.before k.first));
      first = refl;
      second = ap suc k.second;
    }
cut [] (suc at) n h = absurd (omega arith)
cut (c ∷ s) (suc at) n h =
    let k = cut s at n (omega arith) in
    record {
      before = c ∷ k.before;
      there = k.there;
      behind = k.behind;
      whole = ap (λ t. c ∷ t) k.whole;
      first = ap suc k.first;
      second = k.second;
    }

pairs : (k : ℕ) (x : Bytes) → length x ≡ k * 2 → (ps : List (ℕ × ℕ)) × (x ≡ flat ps)
pairs zero [] h = ([], refl)
pairs zero (a ∷ x) h = absurd (omega arith)
pairs (suc k) [] h = absurd (omega arith)
pairs (suc k) (a ∷ []) h = absurd (omega arith)
pairs (suc k) (a ∷ b ∷ x) h =
    let (ps, e) = pairs k x (omega arith) in ((a, b) ∷ ps, ap (λ t. a ∷ b ∷ t) e)

swap_at-parts :
    (a b : Bytes) (ps : List (ℕ × ℕ)) (at n : ℕ)
    → at ≡ length a
    → n ≡ length (flat ps)
    → swap_at at n ((a ++ flat ps) ++ b) ≡ some ((a ++ flat (reverse ps)) ++ b)
unfolding swap_at splice
swap_at-parts a b ps at n h k = rw (t, d, r, take-append (flat ps) b n k, strswap2-flat ps) refl
  where
    t : take at ((a ++ flat ps) ++ b) ≡ a
    t = ap (λ s. take at s) (append_assoc a (flat ps) b) ∙ take-append a (flat ps ++ b) at h

    d : drop at ((a ++ flat ps) ++ b) ≡ flat ps ++ b
    d = ap (λ s. drop at s) (append_assoc a (flat ps) b) ∙ drop-append a (flat ps ++ b) at h

    r : drop (at + n) ((a ++ flat ps) ++ b) ≡ b
    r = drop-append (a ++ flat ps) b (at + n) (omega (arith, length-append a (flat ps)))

length-flat : (ps : List (ℕ × ℕ)) → length (flat ps) ≡ length ps * 2
length-flat [] = refl
length-flat ((a, b) ∷ ps) = omega (arith, length-flat ps)

length-reverse : (ps : List (ℕ × ℕ)) → length (reverse ps) ≡ length ps
length-reverse [] = refl
length-reverse (p ∷ ps) =
    ap length (reverse-cons p ps)
    ∙ omega (arith, length-append (reverse ps) (p ∷ []), length-reverse ps)

IsLine-reverse : (ps : List (ℕ × ℕ)) → IsLine (flat ps) → IsLine (flat (reverse ps))
IsLine-reverse [] h = tt
IsLine-reverse ((a, b) ∷ ps) h =
    let e : flat (reverse ((a, b) ∷ ps)) ≡ flat (reverse ps) ++ a ∷ b ∷ [] =
      ap flat (reverse-cons (a, b) ps) ∙ flat-append (reverse ps) ((a, b) ∷ []) in
    subst IsLine (sym e) (
      All-append (λ c. c ≢ 10) (flat (reverse ps)) (a ∷ b ∷ []) (IsLine-reverse ps h.1.1)
        (h.0, (h.1.0, tt)))

IsLine-before : (s t : Bytes) → IsLine (s ++ t) → IsLine s
IsLine-before [] t h = tt
IsLine-before (c ∷ s) t h = (h.0, IsLine-before s t h.1)

IsLine-behind : (s t : Bytes) → IsLine (s ++ t) → IsLine t
IsLine-behind [] t h = h
IsLine-behind (c ∷ s) t h = IsLine-behind s t h.1

IsLine-take : (n : ℕ) (s : Bytes) → IsLine s → IsLine (take n s)
IsLine-take zero s h = tt
IsLine-take (suc n) [] h = tt
IsLine-take (suc n) (c ∷ s) h = (h.0, IsLine-take n s h.1)

IsLine-drop : (n : ℕ) (s : Bytes) → IsLine s → IsLine (drop n s)
IsLine-drop zero s h = h
IsLine-drop (suc n) [] h = tt
IsLine-drop (suc n) (c ∷ s) h = IsLine-drop n s h.1

pub IsLine-slice : (at n : ℕ) (s : Bytes) → IsLine s → IsLine (slice at n s)
IsLine-slice at n s h = IsLine-take n (drop at s) (IsLine-drop at s h)

-- The pairs of digits at a place are turned around: turned around again, they give the text as it
-- was.
pub record IsTurned (at n : ℕ) (s t : Bytes) : Type 0 where
  pub there : swap_at at n s ≡ some t
  pub back : swap_at at n t ≡ some s
  pub plain : IsLine t
  pub long : length t ≡ length s

pub swap_at_lem :
    (s : Bytes) (at k : ℕ)
    → at + k * 2 ≤ length s
    → IsLine s
    → (t : Bytes) × IsTurned at (k * 2) s t
swap_at_lem s at k h line = (
  turned,
  record {
    there = ap (swap_at at (k * 2)) e ∙ swap_at-parts a b ps at (k * 2) c.first n;
    back =
        swap_at-parts a b (reverse ps) at (k * 2) c.first (omega (arith, n, l))
        ∙ ap (λ qs. some ((a ++ flat qs) ++ b)) (reverse-reverse ps)
        ∙ ap some (sym e);
    plain =
        All-append (λ c. c ≢ 10) (a ++ flat (reverse ps)) b
          (All-append (λ c. c ≢ 10) a (flat (reverse ps)) (IsLine-before a (flat ps) front)
            (IsLine-reverse ps (IsLine-behind a (flat ps) front)))
          (IsLine-behind (a ++ flat ps) b (subst IsLine e line));
    long = omega (
      arith,
      length-append (a ++ flat (reverse ps)) b,
      length-append a (flat (reverse ps)),
      length-append (a ++ flat ps) b,
      length-append a (flat ps),
      l,
      ap length e,
    );
  },
)
  where
    c : Cut s at (k * 2)
    c = cut s at (k * 2) h

    a : Bytes
    a = c.before

    b : Bytes
    b = c.behind

    paired : (ps : List (ℕ × ℕ)) × (c.there ≡ flat ps)
    paired = pairs k c.there (sym c.second)

    ps : List (ℕ × ℕ)
    ps = paired.0

    turned : Bytes
    turned = (a ++ flat (reverse ps)) ++ b

    e : s ≡ (a ++ flat ps) ++ b
    e = c.whole ∙ ap (λ x. (a ++ x) ++ b) paired.1

    n : k * 2 ≡ length (flat ps)
    n = c.second ∙ ap length paired.1

    l : length (flat (reverse ps)) ≡ length (flat ps)
    l = omega (arith, length-flat ps, length-flat (reverse ps), length-reverse ps)

    front : IsLine (a ++ flat ps)
    front = IsLine-before (a ++ flat ps) b (subst IsLine e line)
