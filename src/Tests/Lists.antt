-- ===== src/Tests/Lists.antt =====
-- Linked lists of a few nodes.
use vimgdb.Base.{◌≡◌, ◌==◌, if◌then◌else◌, refl, List, [], ◌∷◌, none, some}
use vimgdb.Common.Linked.{Linked, list_for_each}
use vimgdb.Common.Linked.Sequence.{IsList}
use vimgdb.Common.Linked.Loop.{sweep, list_for_each-removes}
use vimgdb.Common.Linked.Refines.{Op, add_head, add_tail, rm, all_on_nodes, all_on_nodes-IsList}

abbrev no_nodes : Linked
no_nodes = record { head = none; next = λ n. none; prev = λ n. 0 }

no_nodes-IsList : IsList [] no_nodes
no_nodes-IsList = record { forth = refl; back = tt; distinct = tt }

abbrev steps : List Op
steps = add_tail 3 ∷ add_head 5 ∷ add_tail 7 ∷ rm 3 ∷ []

all_on_nodes-IsList_example :
    (m : Linked) × ((all_on_nodes steps no_nodes ≡ some m) × IsList (5 ∷ 7 ∷ []) m)
all_on_nodes-IsList_example =
    all_on_nodes-IsList steps [] no_nodes
      (tt, (((λ e. cc), tt), (((λ e. cc), ((λ e. cc), tt)), (refl, tt)))) no_nodes-IsList

-- The nodes 5 and 7.
abbrev two_nodes : Linked
two_nodes = record {
  head = some 5;
  next = λ n. if n == 5 then some 7 else none;
  prev = λ n. if n == 5 then 7 else 5;
}

two_nodes-IsList : IsList (5 ∷ 7 ∷ []) two_nodes
two_nodes-IsList = record {
  forth = (refl, (refl, refl));
  back = (refl, (refl, tt));
  distinct = (((λ e. cc), tt), (tt, tt));
}

-- The node 5 is deleted, and then holds null.
list_for_each-removes_example :
    (m : Linked) × (list_for_each 2 (sweep (λ n. n == 5) no_nodes) two_nodes ≡ some (5 ∷ 7 ∷ [], m))
    × IsList (7 ∷ []) m
list_for_each-removes_example =
    list_for_each-removes (λ n. n == 5) no_nodes (5 ∷ 7 ∷ []) two_nodes two_nodes-IsList
