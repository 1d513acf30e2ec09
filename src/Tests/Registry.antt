-- ===== src/Tests/Registry.antt =====
-- Variables with a gdb that creates each one, with one child.
use mathlib.Core.Option.{some-injective}
use vimgdb.Base.{ℕ, ◌+◌, ◌≡◌, refl, sym, ap, true, false, [], ◌∷◌, ◌++◌, none, some}
use vimgdb.Base.Runs.{pure, ◌>>=◌, gets, modify, on, crash}
use vimgdb.Common.Text.{Bytes, codes}
use vimgdb.Gdb.Registry.{
  user, Object, Created, Gdb, Registry, acquire, init_childs, release, destroy, delete_object,
  key_of, acquire_key, create, thread_frame, frame_addr, dollar, enter, express, ask, allocate,
  new_object, list_in, by_origin, deref, store, add_child, for_each, unlist, is_known,
}
use vimgdb.Gdb.Registry.Sound.{IsSound}
use vimgdb.Gdb.Registry.Reach.{
  IsEcho, no_variables, acquires, lists_childs, starts, steps, Reach-IsSound,
}

abbrev answer : Bytes → Created
answer name = record { name = name; exp = some (codes "x"); type = codes "int"; nchilds = 1 }

abbrev gdb : Gdb ℕ
gdb = record {
  inf_threadid = λ g. 1;
  create = λ at key f e g. (some (answer key), g + 1);
  info_expression = λ name g. (some (codes "x"), g + 1);
  delete = λ name g. (true, g + 1);
  update = λ g. (some [], g + 1);
  list_children = λ name g. (some (answer (name ++ codes ".y") ∷ []), g + 1);
  assign = λ name argv g. (true, g + 1);
  set_format = λ name fmt g. (true, g + 1);
}

gdb-IsEcho : IsEcho gdb
gdb-IsEcho at key f e g c h = ap (λ (c : Created). c.name) (some-injective c (answer key) (sym h))

abbrev x : Object
x = record {
  name = codes "u:x";
  exp = some (codes "x");
  type = codes "int";
  inscope = b't';
  modified = true;
  childs_visible = false;
  nchilds = 1;
  refcnt = 1;
  origin = user;
  childs = [];
  parent = none;
}

abbrev y : Object
y = record x { name = codes "u:x.y"; parent = some 0 }

abbrev one : Registry ℕ
one = record {
  objects = (0, x) ∷ [];
  fresh = 1;
  gdb_var_lst = (codes "u:x", 0) ∷ [];
  gdb_callstack_var = [];
  gdb_register_var = [];
  gdb_user_var = (codes "u:x", 0) ∷ [];
  gdb = 2;
}

abbrev two : Registry ℕ
two = record one {
  objects = (0, record x { childs = 1 ∷ [] }) ∷ (1, y) ∷ [];
  fresh = 2;
  gdb_var_lst = (codes "u:x", 0) ∷ (codes "u:x.y", 1) ∷ [];
  gdb = 3;
}

acquired : acquire gdb user [] (codes "x") 0 (no_variables 0) ≡ some (some 0, one)
unfolding acquire no_variables key_of acquire_key create thread_frame frame_addr dollar enter
    express ask allocate new_object list_in by_origin deref store ◌>>=◌ gets modify on pure
acquired = refl

listed : init_childs gdb 0 one ≡ some (true, two)
unfolding init_childs add_child for_each ask allocate new_object list_in deref store ◌>>=◌ gets
    modify on pure
listed = refl

-- The variable is gone with its child.
released : release gdb 0 two ≡ some (true, record (no_variables 0) { fresh = 2; gdb = 4 })
unfolding release no_variables delete_object destroy for_each ask unlist is_known by_origin deref
    store ◌>>=◌ gets modify on pure crash
released = refl

-- A child that is released by itself stays in the list of its parent, whose release then reads an
-- object that is gone.
released_child : (release gdb 1 >>= λ ok. release gdb 0) two ≡ none
unfolding release delete_object destroy for_each ask unlist is_known by_origin deref store ◌>>=◌
    gets modify on pure crash
released_child = refl

Reach-IsSound_example : IsSound two
Reach-IsSound_example = Reach-IsSound gdb 0 two gdb-IsEcho (
    steps (steps starts (acquires user [] (codes "x") 0 (some 0) acquired))
      (lists_childs 0 true listed))
