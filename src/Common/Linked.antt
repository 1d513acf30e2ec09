-- ===== src/Common/Linked.antt =====
-- include/common/list.h: lists of nodes that are linked in both directions. `head->prev` is the
-- last node, and the `next` of the last node is null.
pub mod Chains
pub mod Sequence
pub mod Removal
pub mod Refines
pub mod Loop
use vimgdb.Base.{
  ℕ, zero, suc, Bool, true, false, not, List, [], ◌∷◌, Option, none, some, ◌==◌, if◌then◌else◌,
}

-- The links of all nodes, and the pointer to the head.
pub record Linked : Type 0 where
  pub head : Option ℕ
  pub next : ℕ → Option ℕ
  pub prev : ℕ → ℕ

-- A write of the member of a node.
unfoldable pub store {ℓ} : {A : Type ℓ} → ℕ → A → (ℕ → A) → ℕ → A
store k v f n = if n == k then v else f n

unfoldable pub list_init : ℕ → Linked → Linked
unfolding store
list_init head l = record l { next = store head none l.next; prev = store head head l.prev }

-- The writes come one after the other: `head` is the one before.
unfoldable pub list_add_head : ℕ → Linked → Linked
unfolding store
list_add_head el l = elim l.head [
  | none ↦ record { head = some el; next = store el none l.next; prev = store el el l.prev }
  | some h ↦ record {
    head = some el;
    next = store el (some h) l.next;
    prev = store h el (store el (l.prev h) l.prev);
  }
]

unfoldable pub list_add_tail : ℕ → Linked → Linked
unfolding store
list_add_tail el l = elim l.head [
  | none ↦ record { head = some el; next = store el none l.next; prev = store el el l.prev }
  | some h ↦
      let prev = store el (l.prev h) l.prev in
      record {
        head = some h;
        next = store (prev h) (some el) (store el none l.next);
        prev = store h el prev;
      }
]

-- The first write of `list_rm`.
unfoldable pub unlink_next : (entry h : ℕ) → Linked → Linked
unfolding store
unlink_next entry h l =
    if not (entry == h) then record l { next = store (l.prev entry) (l.next entry) l.next } else l

-- The second one.
unfoldable pub unlink_prev : (entry h : ℕ) → Linked → Linked
unfolding store
unlink_prev entry h l = elim (l.next entry) [
  | some n ↦ record l { prev = store n (l.prev entry) l.prev }
  | none ↦ record l { prev = store h (l.prev entry) l.prev }
]

-- `list_rm` with a head that is not null.
unfoldable pub list_rm : (entry h : ℕ) → Linked → Linked
unfolding unlink_next unlink_prev
list_rm entry h l =
    let m = unlink_prev entry h (unlink_next entry h l) in
    record m { head = if entry == h then m.next entry else some h }

-- `entry == 0 ? 0 : entry->next`
unfoldable pub follow : Option ℕ → Linked → Option ℕ
follow none l = none
follow (some n) l = l.next n

-- The loop of `list_for_each` on fuel, with its prefetched `next` and its body, which may change the
-- links and ends with nothing where it reads through null. The nodes that it comes to; `none` also
-- where the fuel runs out.
unfoldable pub for_loop :
    ℕ
    → (body : ℕ → Linked → Option Linked) → (entry next : Option ℕ) → Linked
    → Option (List ℕ × Linked)
unfolding follow
for_loop fuel body none next l = some ([], l)
for_loop zero body (some n) next l = none
for_loop (suc fuel) body (some n) next l = elim (body n l) [
  | none ↦ none
  | some m ↦ elim (for_loop fuel body next (follow next m) m) [
    | none ↦ none
    | some (ns, k) ↦ some (n ∷ ns, k)
  ]
]

unfoldable pub list_for_each :
    ℕ → (body : ℕ → Linked → Option Linked) → Linked → Option (List ℕ × Linked)
unfolding for_loop follow
list_for_each fuel body l = for_loop fuel body l.head (follow l.head l) l

-- `list_rm` and `delete`; what a deleted node holds is not known.
unfoldable pub deleted : (junk : Linked) → (n h : ℕ) → Linked → Linked
unfolding list_rm store
deleted junk n h l =
    let m = list_rm n h l in
    record m { next = store n (junk.next n) m.next; prev = store n (junk.prev n) m.prev }

-- As the body of a loop; `list_rm` reads the head.
unfoldable pub delete_entry : (junk : Linked) → ℕ → Linked → Option Linked
unfolding deleted
delete_entry junk n l = elim l.head [ none ↦ none | some h ↦ some (deleted junk n h l) ]

-- `list_find` by a test, on fuel.
unfoldable pub list_find : ℕ → (ℕ → Bool) → (entry : Option ℕ) → (ℕ → Option ℕ) → Option ℕ
list_find fuel is none next = none
list_find zero is (some n) next = none
list_find (suc fuel) is (some n) next =
    let rest = list_find fuel is (next n) next in if is n then some n else rest

unfoldable pub list_empty : Linked → Bool
list_empty l = elim l.head [ none ↦ true | some h ↦ false ]
