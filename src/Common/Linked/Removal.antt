-- ===== src/Common/Linked/Removal.antt =====
-- `list_rm` against the sequence of the nodes.
use mathlib.Core.Option.{some-injective}
use vimgdb.Base.{
  ℕ, ◌≡◌, ◌≢◌, refl, ◌∙◌, sym, ap, subst, false, List, [], ◌∷◌, ◌++◌, Option, none, some, ◌==◌,
  ==_iff, arith, append-nil,
}
use vimgdb.Common.Linked.{Linked, store, unlink_next, unlink_prev, list_rm}
use vimgdb.Common.Linked.Chains.{
  store_here, store_other, Forth, last_of, Away, Distinct, Back-store, last_of-append, Forth-splice,
  Back-append, Back-split, Forth-tail, All-at, Distinct-without, Distinct-front, Distinct-behind,
  last_of-Distinct, Away-Distinct, All-front,
}
use vimgdb.Common.Linked.Sequence.{IsList}

-- The head is removed: the next node becomes the head and knows the last node.
list_rm_first :
    (e : ℕ) (post : List ℕ) (l : Linked) → IsList (e ∷ post) l → IsList post (list_rm e e l)
unfolding list_rm unlink_next unlink_prev
list_rm_first e [] l h =
    rw ((==_iff e e).1 refl, h.forth.1) (record { forth = h.forth.1; back = tt; distinct = tt })
list_rm_first e (y ∷ post) l h =
    rw ((==_iff e e).1 refl, h.forth.1.0)
      (record {
        forth = (h.forth.1.0, h.forth.1.1);
        back = (
          store_here y (l.prev e) l.prev ∙ h.back.0,
          Back-store y (l.prev e) l.prev y post h.distinct.1.0 h.back.1.1,
        );
        distinct = h.distinct.1;
      })

-- What `list_rm` writes for a node that is not the head: `k` is the node whose `prev` is changed.
abbrev removed : (e x k : ℕ) → Linked → Linked
removed e x k l = record {
  head = some x;
  next = store (l.prev e) (l.next e) l.next;
  prev = store k (l.prev e) l.prev;
}

-- The node that follows, or else the head.
abbrev follower : Option ℕ → ℕ → ℕ
follower (some n) x = n
follower none x = x

unlink_prev_lem :
    (e x : ℕ) (n : Option ℕ) (l : Linked)
    → l.next e ≡ n
    → unlink_prev e x l ≡ record l { prev = store (follower n x) (l.prev e) l.prev }
unfolding unlink_prev store
unlink_prev_lem e x none l q = rw (unlink_prev, q) refl
unlink_prev_lem e x (some n) l q = rw (unlink_prev, q) refl

list_rm_lem :
    (e x : ℕ) (n : Option ℕ) (l : Linked)
    → (e == x) ≡ false
    → store (l.prev e) (l.next e) l.next e ≡ n
    → list_rm e x l ≡ removed e x (follower n x) l
unfolding list_rm unlink_next
list_rm_lem e x n l q r = rw q (
    ap (λ (m : Linked). record m { head = some x })
      (unlink_prev_lem e x n (record l { next = store (l.prev e) (l.next e) l.next }) r))

-- A node behind the head is removed.
module _ (e x : ℕ) (pre post : List ℕ) (l : Linked) (h : IsList (x ∷ pre ++ e ∷ post) l) where
  before : l.prev e ≡ last_of x pre
  before = (Back-split l.prev (last_of 0 (x ∷ pre ++ e ∷ post)) (x ∷ pre) (e ∷ post) h.back).1.0

  behind : Forth l.next (l.next e) post
  behind = Forth-tail l.next l.head (x ∷ pre) e post h.forth

  no_head : (e == x) ≡ false
  no_head = ground (arith, All-at (λ z. z ≢ x) pre e post h.distinct.0)

  next_kept : (n : Option ℕ) → l.next e ≡ n → store (l.prev e) (l.next e) l.next e ≡ n
  next_kept n q =
      store_other (l.prev e) e (l.next e) l.next
        (λ r. (last_of-Distinct x pre (e ∷ post) h.distinct).0 (r ∙ before))
      ∙ q

  spliced : Forth (store (l.prev e) (l.next e) l.next) (some x) (x ∷ pre ++ post)
  spliced =
      subst (λ k. Forth (store k (l.next e) l.next) (some x) (x ∷ pre ++ post)) (sym before)
        (Forth-splice (l.next e) l.next (some x) x pre (e ∷ post) post
          (Distinct-front (x ∷ pre) (e ∷ post) h.distinct)
          (last_of-Distinct x pre (e ∷ post) h.distinct).1 (refl, h.forth.1) behind)

list_rm_last :
    (e x : ℕ) (pre : List ℕ) (l : Linked)
    → IsList (x ∷ pre ++ e ∷ []) l
    → IsList (x ∷ pre) (list_rm e x l)
list_rm_last e x pre l h =
    subst (IsList (x ∷ pre))
      (sym (
        list_rm_lem e x none l (no_head e x pre [] l h)
          (next_kept e x pre [] l h none (behind e x pre [] l h))))
      (record {
        forth =
            subst (Forth (store (l.prev e) (l.next e) l.next) (some x)) (append-nil (x ∷ pre))
              (spliced e x pre [] l h);
        back = (
          store_here x (l.prev e) l.prev ∙ before e x pre [] l h,
          Back-store x (l.prev e) l.prev x pre (All-front (λ z. z ≢ x) pre (e ∷ []) h.distinct.0)
              (Back-split l.prev x pre (e ∷ []) h.back.1).0,
        );
        distinct = Distinct-front (x ∷ pre) (e ∷ []) h.distinct;
      })

list_rm_inner :
    (e x y : ℕ) (pre post : List ℕ) (l : Linked)
    → IsList (x ∷ pre ++ e ∷ y ∷ post) l
    → IsList (x ∷ pre ++ y ∷ post) (list_rm e x l)
list_rm_inner e x y pre post l h =
    subst (IsList (x ∷ pre ++ y ∷ post))
      (sym (
        list_rm_lem e x (some y) l (no_head e x pre (y ∷ post) l h)
          (next_kept e x pre (y ∷ post) l h (some y) (behind e x pre (y ∷ post) l h).0)))
      (record {
        forth = spliced e x pre (y ∷ post) l h;
        back = (
          store_other y x (l.prev e) l.prev away.0
              ∙ h.back.0
              ∙ last_of-append x e pre (y ∷ post)
              ∙ sym (last_of-append x y pre post),
          Back-append (store y (l.prev e) l.prev) x pre (y ∷ post)
              (Back-store y (l.prev e) l.prev x pre away.1
                (Back-split l.prev x pre (e ∷ y ∷ post) h.back.1).0)
              (
                store_here y (l.prev e) l.prev ∙ before e x pre (y ∷ post) l h,
                Back-store y (l.prev e) l.prev y post
                    (Distinct-behind (x ∷ pre) (e ∷ y ∷ post) h.distinct).1.0
                    (Back-split l.prev x pre (e ∷ y ∷ post) h.back.1).1.1.1,
              ),
        );
        distinct = rest;
      })
  where
    rest : Distinct (x ∷ pre ++ y ∷ post)
    rest = Distinct-without (x ∷ pre) e (y ∷ post) h.distinct

    away : Away y (x ∷ pre)
    away = Away-Distinct (x ∷ pre) y post rest

-- `list_rm` of any node leaves the other ones in their order.
pub list_rm-IsList :
    (pre : List ℕ) (e : ℕ) (post : List ℕ) (head : ℕ) (l : Linked)
    → l.head ≡ some head
    → IsList (pre ++ e ∷ post) l
    → IsList (pre ++ post) (list_rm e head l)
list_rm-IsList [] e post head l q h =
    subst (λ k. IsList post (list_rm e k l)) (some-injective e head (sym h.forth.0 ∙ q))
      (list_rm_first e post l h)
list_rm-IsList (x ∷ pre) e [] head l q h =
    subst (λ k. IsList (x ∷ pre ++ []) (list_rm e k l)) (some-injective x head (sym h.forth.0 ∙ q))
      (subst (λ t. IsList t (list_rm e x l)) (sym (append-nil (x ∷ pre)))
        (list_rm_last e x pre l h))
list_rm-IsList (x ∷ pre) e (y ∷ post) head l q h =
    subst (λ k. IsList (x ∷ pre ++ y ∷ post) (list_rm e k l))
      (some-injective x head (sym h.forth.0 ∙ q)) (list_rm_inner e x y pre post l h)
