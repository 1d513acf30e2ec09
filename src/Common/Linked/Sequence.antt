-- ===== src/Common/Linked/Sequence.antt =====
-- The linked nodes against the sequence that they stand for.
use vimgdb.Base.{
  ℕ, ◌≡◌, refl, ◌∙◌, sym, subst, Bool, List, [], ◌∷◌, ◌++◌, Option, none, some, if◌then◌else◌,
  length, append-nil,
}
use vimgdb.Common.Linked.{Linked, store, list_add_head, list_add_tail, list_find}
use vimgdb.Common.Linked.Chains.{
  store_here, store_other, Forth, Back, last_of, Away, Distinct, Forth-store, Back-store,
  last_of-Away, last_of-append, Forth-splice, Back-append, Distinct-append,
}

-- The list stands for the sequence of its nodes.
pub record IsList (xs : List ℕ) (l : Linked) : Type 0 where
  pub forth : Forth l.next l.head xs
  pub back : Back l.prev (last_of 0 xs) xs
  pub distinct : Distinct xs

-- `list_add_tail` puts a new node behind the others.
pub list_add_tail-IsList :
    (el : ℕ) (xs : List ℕ) (l : Linked)
    → Away el xs
    → IsList xs l
    → IsList (xs ++ el ∷ []) (list_add_tail el l)
unfolding list_add_tail
list_add_tail-IsList el [] l a h = rw h.forth (record {
  forth = (refl, store_here el none l.next);
  back = (store_here el el l.prev, tt);
  distinct = (tt, tt);
})
list_add_tail-IsList el (x ∷ xs) l a h = rw h.forth.0 (record {
  forth =
      subst (λ k. Forth (store k (some el) next) (some x) (x ∷ xs ++ el ∷ [])) (sym ends)
        (Forth-splice (some el) next (some x) x xs [] (el ∷ []) h.distinct
          ((λ e. last_of-Away el x xs a.0 a.1 (sym e)), tt)
          (subst (Forth next (some x)) (sym (append-nil (x ∷ xs)))
            (Forth-store el none l.next (some x) (x ∷ xs) a (refl, h.forth.1)))
          (refl, store_here el none l.next));
  back = (
    store_here x el prev ∙ sym (last_of-append x el xs []),
    Back-append (store x el prev) x xs (el ∷ [])
        (Back-store x el prev x xs h.distinct.0 (Back-store el (l.prev x) l.prev x xs a.1 h.back.1))
        (
          store_other x el el prev (λ e. a.0 (sym e)) ∙ store_here el (l.prev x) l.prev ∙ h.back.0,
          tt,
        ),
  );
  distinct = Distinct-append (x ∷ xs) el h.distinct a;
})
  where
    next : ℕ → Option ℕ
    next = store el none l.next

    prev : ℕ → ℕ
    prev = store el (l.prev x) l.prev

    ends : prev x ≡ last_of x xs
    ends = store_other el x (l.prev x) l.prev a.0 ∙ h.back.0

-- `list_add_head` puts a new node in front of the others.
pub list_add_head-IsList :
    (el : ℕ) (xs : List ℕ) (l : Linked)
    → Away el xs
    → IsList xs l
    → IsList (el ∷ xs) (list_add_head el l)
unfolding list_add_head
list_add_head-IsList el [] l a h = rw h.forth (record {
  forth = (refl, store_here el none l.next);
  back = (store_here el el l.prev, tt);
  distinct = (tt, tt);
})
list_add_head-IsList el (x ∷ xs) l a h = rw h.forth.0 (record {
  forth = (
    refl,
    subst (λ q. Forth (store el (some x) l.next) q (x ∷ xs)) (sym (store_here el (some x) l.next))
        (Forth-store el (some x) l.next (some x) (x ∷ xs) a (refl, h.forth.1)),
  );
  back = (
    store_other x el el prev (λ e. a.0 (sym e)) ∙ store_here el (l.prev x) l.prev ∙ h.back.0,
    (
      store_here x el prev,
      Back-store x el prev x xs h.distinct.0 (Back-store el (l.prev x) l.prev x xs a.1 h.back.1),
    ),
  );
  distinct = (a, h.distinct);
})
  where
    prev : ℕ → ℕ
    prev = store el (l.prev x) l.prev

-- The first element that the test takes.
abbrev pub first_of : (ℕ → Bool) → List ℕ → Option ℕ
first_of is [] = none
first_of is (x ∷ xs) = let rest = first_of is xs in if is x then some x else rest

finds :
    (is : ℕ → Bool) (next : ℕ → Option ℕ) (p : Option ℕ) (xs : List ℕ)
    → Forth next p xs
    → list_find (length xs) is p next ≡ first_of is xs
unfolding list_find
finds is next p [] f = rw f refl
finds is next p (x ∷ xs) f = rw (f.0, finds is next (next x) xs f.1) refl

-- `list_find` gives the first node that the test takes, or null.
list_find-IsList :
    (is : ℕ → Bool) (xs : List ℕ) (l : Linked)
    → IsList xs l
    → list_find (length xs) is l.head l.next ≡ first_of is xs
list_find-IsList is xs l h = finds is l.next l.head xs h.forth
