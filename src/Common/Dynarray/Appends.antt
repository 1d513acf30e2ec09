-- ===== src/Common/Dynarray/Appends.antt =====
-- `add` appends, whatever the buffer's size.
use vimgdb.Base.{
  ℕ, zero, suc, ◌+◌, ◌-◌, ◌*◌, ◌^◌, ◌<◌, ◌≤◌, ◌≡◌, refl, sym, ap, false, Bool-cases, inl, inr,
  arith, [], ◌∷◌, ◌++◌, Option, some, ltb, lt→ltb, ltb→lt, length, take, take-append, length-append,
}
use vimgdb.Common.Text.{Bytes, u32, doubled}
use vimgdb.Common.Dynarray.{Dynarray, space, print_at, add_loop, add}

-- The string ends at `idx`, which lies in the buffer.
pub record IsString (d : Dynarray) : Type 0 where
  pub ends : length d.s ≡ d.idx
  pub inside : d.idx < d.len
  pub small : d.len < 2 ^ 32

-- The buffer may hold more behind `idx`, which a round has written and the next one overwrites.
record IsPrefix (base : Bytes) (d : Dynarray) : Type 0 where
  starts : take d.idx d.s ≡ base
  at : length base ≡ d.idx
  within : d.idx < d.len
  bound : d.len < 2 ^ 32

abbrev Appended : Bytes → Bytes → Option (ℕ × Dynarray) → Type 0
Appended base text r =
    (d : Dynarray) × (r ≡ some (length text, d)) × IsString d × (d.s ≡ base ++ text)

take_all : (t : Bytes) (k : ℕ) → length t ≤ k → take k t ≡ t
take_all [] zero h = refl
take_all [] (suc k) h = refl
take_all (c ∷ t) zero h = absurd (omega arith)
take_all (c ∷ t) (suc k) h = ap (λ t. c ∷ t) (take_all t k (omega arith))

space_is : (d : Dynarray) → d.idx < d.len → d.len < 2 ^ 32 → space d ≡ d.len - d.idx
space_is d h k = omega arith

-- The round in which the text fits.
last : Bytes → Dynarray → Dynarray
last text d = record (print_at text d) { idx = u32 (d.idx + length text) }

last-Appended :
    (base text : Bytes) (d : Dynarray)
    → IsPrefix base d
    → d.idx + length text < 2 ^ 31
    → length text < space d
    → IsString (last text d) × ((last text d).s ≡ base ++ text)
unfolding last print_at
last-Appended base text d p small h =
    let all = take_all text (space d - 1) (omega arith) in
    let kept : u32 (d.idx + length text) ≡ d.idx + length text = omega arith in
    let room = space_is d p.within p.bound in
    (
      record {
        ends = rw (p.starts, all, kept) (omega (arith, length-append base text, p.at));
        inside = rw kept (omega (arith, p.within));
        small = p.bound;
      },
      rw (p.starts, all) refl,
    )

-- A round in which it does not fit.
grown : Bytes → Dynarray → Dynarray
grown text d = record (print_at text d) { len = u32 (d.len * 2) }

grown-IsPrefix :
    (base text : Bytes) (d : Dynarray)
    → IsPrefix base d
    → d.idx + length text < 2 ^ 31
    → ltb (length text) (space d) ≡ false
    → IsPrefix base (grown text d) × ((grown text d).len ≡ d.len * 2)
unfolding grown print_at
grown-IsPrefix base text d p small h =
    let room = space_is d p.within p.bound in
    let short : d.len ≤ d.idx + length text = ground (arith, p.within, room, h) in
    let twice : u32 (d.len * 2) ≡ d.len * 2 = omega arith in
    (
      record {
        starts = rw p.starts (take-append base (take (space d - 1) text) d.idx (sym p.at));
        at = p.at;
        within = rw twice (omega (arith, p.within));
        bound = rw twice (omega arith);
      },
      twice,
    )

add_loop-Appended :
    (fuel : ℕ) (base text : Bytes) (d : Dynarray)
    → IsPrefix base d
    → d.idx + length text < 2 ^ 31
    → d.idx + length text < d.len * 2 ^ fuel
    → Appended base text (add_loop (suc fuel) text d)
unfolding add_loop print_at last grown
add_loop-Appended zero base text d p small h =
    let room = space_is d p.within p.bound in
    let fits : length text < space d = omega arith in
    let (a, b) = last-Appended base text d p small fits in
    (last text d, rw (lt→ltb (length text) (space d) fits) refl, a, b)
add_loop-Appended (suc fuel) base text d p small h =
    elim (Bool-cases (ltb (length text) (space d))) [
      | inl e ↦
          let (a, b) = last-Appended base text d p small (ltb→lt (length text) (space d) e) in
          (last text d, rw e refl, a, b)
      | inr e ↦
          let (q, twice) = grown-IsPrefix base text d p small e in
          let more : d.idx + length text < (grown text d).len * 2 ^ fuel =
            rw (twice, ← doubled d.len fuel) h in
          rw e (add_loop-Appended fuel base text (grown text d) q small more)
    ]

-- From a string in its buffer, as long as all stays below 2^31 bytes, `add` ends with the text
-- behind that string, and returns the length of the text.
pub add-appends :
    (text : Bytes) (d : Dynarray)
    → IsString d
    → length d.s + length text < 2 ^ 31
    → (d' : Dynarray) × (add text d ≡ some (length text, d')) × IsString d' × (d'.s ≡ d.s ++ text)
unfolding add
add-appends text d h small =
    add_loop-Appended 31 d.s text d
      (record {
        starts = take_all d.s d.idx (omega (arith, h.ends));
        at = h.ends;
        within = h.inside;
        bound = h.small;
      })
      (omega (arith, h.ends)) (omega (arith, h.ends, h.inside))
