-- ===== src/Common/Linked/Refines.antt =====
-- Linked lists against sequences.
use vimgdb.Base.{
  ℕ, ◌≡◌, refl, ◌∙◌, ap, subst, sym, Bool, true, false, ◌||◌, List, [], ◌∷◌, ◌++◌, Option, none,
  some, ◌==◌, ==_iff, if◌then◌else◌,
}
use vimgdb.Common.Linked.{Linked, list_add_head, list_add_tail, list_rm}
use vimgdb.Common.Linked.Chains.{Away}
use vimgdb.Common.Linked.Removal.{list_rm-IsList}
use vimgdb.Common.Linked.Sequence.{IsList, list_add_head-IsList, list_add_tail-IsList}

-- What is done with a list.
pub data Op : Type 0 where
  add_head add_tail rm : ℕ → Op

-- On the nodes; `list_rm` reads the head through null if there is none.
abbrev pub on_nodes : Op → Linked → Option Linked
on_nodes (add_head n) l = some (list_add_head n l)
on_nodes (add_tail n) l = some (list_add_tail n l)
on_nodes (rm n) l = elim l.head [ none ↦ none | some h ↦ some (list_rm n h l) ]

abbrev pub all_on_nodes : List Op → Linked → Option Linked
all_on_nodes [] l = some l
all_on_nodes (o ∷ ops) l = elim (on_nodes o l) [ none ↦ none | some m ↦ all_on_nodes ops m ]

abbrev pub remove : ℕ → List ℕ → List ℕ
remove n [] = []
remove n (x ∷ xs) = let rest = remove n xs in if x == n then xs else x ∷ rest

-- On the sequence.
abbrev pub on_sequence : Op → List ℕ → List ℕ
on_sequence (add_head n) xs = n ∷ xs
on_sequence (add_tail n) xs = xs ++ n ∷ []
on_sequence (rm n) xs = remove n xs

abbrev pub all_on_sequence : List Op → List ℕ → List ℕ
all_on_sequence [] xs = xs
all_on_sequence (o ∷ ops) xs = all_on_sequence ops (on_sequence o xs)

abbrev pub is_in : ℕ → List ℕ → Bool
is_in n [] = false
is_in n (x ∷ xs) = x == n || is_in n xs

-- A node that is added is not in the list, and one that is removed is.
abbrev pub IsAllowed : Op → List ℕ → Type 0
IsAllowed (add_head n) xs = Away n xs
IsAllowed (add_tail n) xs = Away n xs
IsAllowed (rm n) xs = is_in n xs ≡ true

abbrev pub AreAllowed : List Op → List ℕ → Type 0
AreAllowed [] xs = Unit
AreAllowed (o ∷ ops) xs = IsAllowed o xs × AreAllowed ops (on_sequence o xs)

-- Where a node stands.
record Place (n : ℕ) (xs : List ℕ) : Type 0 where
  pre : List ℕ
  post : List ℕ
  around : xs ≡ pre ++ n ∷ post
  without : remove n xs ≡ pre ++ post

or_right : (a b : Bool) → (a || b) ≡ true → a ≡ false → b ≡ true
or_right true b h q = cc
or_right false b h q = h

place : (n : ℕ) (xs : List ℕ) → is_in n xs ≡ true → Place n xs
place n [] e = absurd cc
place n (x ∷ xs) e = by_head (x == n) refl (place n xs)
  where
    by_head : (b : Bool) → (x == n) ≡ b → (is_in n xs ≡ true → Place n xs) → Place n (x ∷ xs)
    by_head true q more = record {
      pre = [];
      post = xs;
      around = ap (λ y. y ∷ xs) ((==_iff x n).0 q);
      without = ap (λ b. if b then xs else x ∷ remove n xs) q;
    }
    by_head false q more =
        let p = more (or_right (x == n) (is_in n xs) e q) in
        record {
          pre = x ∷ p.pre;
          post = p.post;
          around = ap (λ ys. x ∷ ys) p.around;
          without = ap (λ b. if b then xs else x ∷ remove n xs) q ∙ ap (λ ys. x ∷ ys) p.without;
        }

rm-IsList :
    (n : ℕ) (xs : List ℕ) (l : Linked)
    → Place n xs
    → IsList xs l
    → (m : Linked) × ((on_nodes (rm n) l ≡ some m) × IsList (remove n xs) m)
rm-IsList n xs l p h =
    let (k, q) = head_of p.pre (subst (λ ys. IsList ys l) p.around h) in
    (
      list_rm n k l,
      (
        ap
            (λ (r : Option ℕ). elim r as (λ _. Option Linked) [
              | none ↦ none
              | some h ↦ some (list_rm n h l)
            ])
            q,
        subst (λ ys. IsList ys (list_rm n k l)) (sym p.without)
            (list_rm-IsList p.pre n p.post k l q (subst (λ ys. IsList ys l) p.around h)),
      ),
    )
  where
    head_of : (pre : List ℕ) → IsList (pre ++ n ∷ p.post) l → (k : ℕ) × (l.head ≡ some k)
    head_of [] h = (n, h.forth.0)
    head_of (x ∷ pre) h = (x, h.forth.0)

op-IsList :
    (o : Op) (xs : List ℕ) (l : Linked)
    → IsAllowed o xs
    → IsList xs l
    → (m : Linked) × ((on_nodes o l ≡ some m) × IsList (on_sequence o xs) m)
op-IsList (add_head n) xs l a h = (list_add_head n l, (refl, list_add_head-IsList n xs l a h))
op-IsList (add_tail n) xs l a h = (list_add_tail n l, (refl, list_add_tail-IsList n xs l a h))
op-IsList (rm n) xs l a h = rm-IsList n xs l (place n xs a) h

-- Any sequence of additions of new nodes and removals of listed ones reads nothing through null, and
-- does to the linked nodes what it does to the sequence that they stand for.
pub all_on_nodes-IsList :
    (ops : List Op) (xs : List ℕ) (l : Linked)
    → AreAllowed ops xs
    → IsList xs l
    → (m : Linked) × ((all_on_nodes ops l ≡ some m) × IsList (all_on_sequence ops xs) m)
all_on_nodes-IsList [] xs l a h = (l, (refl, h))
all_on_nodes-IsList (o ∷ ops) xs l a h =
    let (m, (e, k)) = op-IsList o xs l a.0 h in
    let (n, (q, r)) = all_on_nodes-IsList ops (on_sequence o xs) m a.1 k in
    (
      n,
      (
        ap
              (λ (r : Option Linked). elim r as (λ _. Option Linked) [
                | none ↦ none
                | some m ↦ all_on_nodes ops m
              ])
              e
            ∙ q,
        r,
      ),
    )
