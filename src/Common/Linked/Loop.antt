-- ===== src/Common/Linked/Loop.antt =====
-- `list_for_each` with a body that removes nodes and deletes them.
use vimgdb.Base.{
  ℕ, ◌≡◌, ◌≢◌, refl, ap, sym, subst, Bool, List, [], ◌∷◌, ◌++◌, Option, none, some, if◌then◌else◌,
  length, append_assoc, All-append, Bool-cases, inl, inr,
}
use vimgdb.Common.Linked.{Linked, list_rm, follow, for_loop, list_for_each, deleted, delete_entry}
use vimgdb.Common.Linked.Chains.{
  Forth, Away, Distinct, Forth-store, Back-store, Forth-tail, Distinct-behind, Away-Distinct,
}
use vimgdb.Common.Linked.Removal.{list_rm-IsList}
use vimgdb.Common.Linked.Sequence.{IsList}

-- The body removes and deletes the nodes that the test takes, and leaves the other ones.
abbrev pub sweep : (ℕ → Bool) → Linked → ℕ → Linked → Option Linked
sweep gone junk n l = if gone n then delete_entry junk n l else some l

-- The nodes that are left.
abbrev pub kept : (ℕ → Bool) → List ℕ → List ℕ
kept gone [] = []
kept gone (x ∷ xs) = let rest = kept gone xs in if gone x then rest else x ∷ rest

abbrev first : List ℕ → Option ℕ
first [] = none
first (x ∷ xs) = some x

Forth-first : (next : ℕ → Option ℕ) (p : Option ℕ) (xs : List ℕ) → Forth next p xs → p ≡ first xs
Forth-first next p [] f = f
Forth-first next p (x ∷ xs) f = f.0

Away-others :
    (pre : List ℕ) (n : ℕ) (post : List ℕ) → Distinct (pre ++ n ∷ post) → Away n (pre ++ post)
Away-others pre n post d =
    All-append (λ x. x ≢ n) pre post (Away-Distinct pre n post d)
      (Distinct-behind pre (n ∷ post) d).0

-- The node behind one of the list, if there is one, follows it.
next-first :
    (pre : List ℕ) (n : ℕ) (post : List ℕ) (l : Linked)
    → IsList (pre ++ n ∷ post) l
    → l.next n ≡ first post
next-first pre n post l h =
    Forth-first l.next (l.next n) post (Forth-tail l.next l.head pre n post h.forth)

delete_entry-IsList :
    (junk : Linked) (pre : List ℕ) (n : ℕ) (post : List ℕ) (l : Linked)
    → IsList (pre ++ n ∷ post) l
    → (m : Linked) × (delete_entry junk n l ≡ some m) × IsList (pre ++ post) m
unfolding delete_entry deleted
delete_entry-IsList junk pre n post l h =
    let (k, q) = head_of pre h in
    let m = list_rm n k l in
    let r = list_rm-IsList pre n post k l q h in
    let a = Away-others pre n post h.distinct in
    (
      deleted junk n k l,
      ap
          (λ (p : Option ℕ). elim p as (λ _. Option Linked) [
            | none ↦ none
            | some h ↦ some (deleted junk n h l)
          ])
          q,
      record {
        forth = Forth-store n (junk.next n) m.next m.head (pre ++ post) a r.forth;
        back = Back-store n (junk.prev n) m.prev _ (pre ++ post) a r.back;
        distinct = r.distinct;
      },
    )
  where
    head_of : (pre : List ℕ) → IsList (pre ++ n ∷ post) l → (k : ℕ) × (l.head ≡ some k)
    head_of [] h = (n, h.forth.0)
    head_of (x ∷ pre) h = (x, h.forth.0)

-- From the first of the nodes `todo` on, with the nodes `pre` behind the loop.
for_loop-IsList :
    (gone : ℕ → Bool) (junk : Linked) (pre todo : List ℕ) (l : Linked)
    → IsList (pre ++ todo) l
    → (m : Linked) × (for_loop
          (length todo)
          (sweep gone junk)
          (first todo)
          (follow (first todo) l)
          l
        ≡ some (todo, m))
      × IsList (pre ++ kept gone todo) m
unfolding for_loop follow
for_loop-IsList gone junk pre [] l h = (l, refl, h)
for_loop-IsList gone junk pre (n ∷ todo) l h = elim (Bool-cases (gone n)) [
  | inl e ↦
      let (k, d, s) = delete_entry-IsList junk pre n todo l h in
      let (m, r, t) = for_loop-IsList gone junk pre todo k s in
      (m, rw (for_loop, e, d, next-first pre n todo l h, r) refl, rw e t)
  | inr e ↦
      let s = subst (λ xs. IsList xs l) (sym (append_assoc pre (n ∷ []) todo)) h in
      let (m, r, t) = for_loop-IsList gone junk (pre ++ n ∷ []) todo l s in
      (
        m,
        rw (for_loop, e, next-first pre n todo l h, r) refl,
        rw e (subst (λ xs. IsList xs m) (append_assoc pre (n ∷ []) (kept gone todo)) t),
      )
]

-- A loop of `list_for_each` whose body removes any of the nodes that it comes to with `list_rm` and
-- deletes them, whatever a deleted node then holds, comes to each node of the list once, in their
-- order, ends within a round for each, and leaves the other nodes in their order.
pub list_for_each-removes :
    (gone : ℕ → Bool) (junk : Linked) (xs : List ℕ) (l : Linked)
    → IsList xs l
    → (m : Linked) × (list_for_each (length xs) (sweep gone junk) l ≡ some (xs, m))
      × IsList (kept gone xs) m
unfolding list_for_each
list_for_each-removes gone junk xs l h =
    let (m, r, t) = for_loop-IsList gone junk [] xs l h in
    (
      m,
      subst (λ p. for_loop (length xs) (sweep gone junk) p (follow p l) l ≡ some (xs, m))
          (sym (Forth-first l.next l.head xs h.forth)) r,
      t,
    )
