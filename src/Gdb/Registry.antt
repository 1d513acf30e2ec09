-- ===== src/Gdb/Registry.antt =====
-- The registry of variables (gdb/variable.cc): the objects by their pointers, and the maps that
-- name them. A read through the pointer of a deleted object ends a run with nothing. What ERROR logs
-- is left out.
pub mod Changes
pub mod Named
pub mod Sound
pub mod Kept
pub mod Changed
pub mod Reach
pub mod Fuel
use vimgdb.Base.{
  ℕ, zero, suc, ◌+◌, ◌-◌, ◌%◌, ◌^◌, Bool, true, false, not, ◌&&◌, ◌||◌, List, [], ◌∷◌, ◌++◌, Option,
  none, some, ◌==◌, if◌then◌else◌, length,
}
use vimgdb.Base.Maps.{lookup, insert, erase, nat_key, bytes_key}
use vimgdb.Base.Runs.{Run, pure, ◌>>=◌, ◌>>◌, gets, modify, on, crash}
use vimgdb.Common.Text.{Bytes, codes, u32}

-- `gdb_origin_t`
pub data Origin : Type 0 where
  unknown callstack registers user : Origin

-- The members of `gdb_variable_t` that its functions use; the others come with what gdb answers.
pub record Object : Type 0 where
  pub name : Bytes
  pub exp : Option Bytes
  pub type : Bytes
  pub inscope : ℕ
  pub modified : Bool
  pub childs_visible : Bool
  pub nchilds : ℕ
  pub refcnt : ℕ
  pub origin : Origin
  pub childs : List ℕ
  pub parent : Option ℕ

-- What gdb answers for a new variable, and what it answers to `var-update`.
pub record Created : Type 0 where
  pub name : Bytes
  pub exp : Option Bytes
  pub type : Bytes
  pub nchilds : ℕ

pub record Change : Type 0 where
  pub name : Bytes
  pub inscope : ℕ
  pub type_changed : Option Bytes
  pub nchilds : ℕ

-- gdb: its thread, and its answers to `var-create` (with the thread and the frame, if there is a
-- thread), `var-info-expression`, `var-delete`, `var-update`, `var-list-children`, `var-assign` and
-- `var-set-format`.
pub record Gdb (G : Type 0) : Type 0 where
  pub inf_threadid : G → ℕ
  pub create : Option (ℕ × ℕ) → (key frame_addr expr : Bytes) → G → Option Created × G
  pub info_expression : Bytes → G → Option Bytes × G
  pub delete : Bytes → G → Bool × G
  pub update : G → Option (List Change) × G
  pub list_children : Bytes → G → Option (List Created) × G
  pub assign : Bytes → List Bytes → G → Bool × G
  pub set_format : Bytes → Bytes → G → Bool × G

abbrev pub Names : Type 0
Names = List (Bytes × ℕ)

-- `gdb_var_lst` and the maps for each origin; `fresh` is the next pointer.
pub record Registry (G : Type 0) : Type 0 where
  pub objects : List (ℕ × Object)
  pub fresh : ℕ
  pub gdb_var_lst : Names
  pub gdb_callstack_var : Names
  pub gdb_register_var : Names
  pub gdb_user_var : Names
  pub gdb : G

-- The constructor, with what gdb answered.
unfoldable pub new_object : Origin → Option ℕ → Created → Object
new_object origin parent c = record {
  name = c.name;
  exp = c.exp;
  type = c.type;
  inscope = b't';
  modified = true;
  childs_visible = false;
  nchilds = c.nchilds;
  refcnt = 1;
  origin = origin;
  childs = [];
  parent = parent;
}

-- The key, by the origin.
unfoldable pub key_of : Origin → (context expr : Bytes) → Option Bytes
key_of unknown context expr = none
key_of callstack context expr = some (codes "s:" ++ context ++ codes ":" ++ expr)
key_of registers context expr = some (codes "r:" ++ expr)
key_of user context expr = some (codes "u:" ++ expr)

-- `(origin == O_USER ? "@" : "*")`
unfoldable pub frame_addr : Origin → Bytes
frame_addr user = codes "@"
frame_addr _ = codes "*"

-- `(origin == O_REGISTER ? "$" : "")`
unfoldable pub dollar : Origin → Bytes
dollar registers = codes "$"
dollar _ = []

-- `origin != O_UNKNOWN`
unfoldable pub is_known : Origin → Bool
is_known unknown = false
is_known _ = true

module _ {G : Type 0} where
  -- `gdb_var_lst[key] = var`, and the map of the origin.
  unfoldable pub list_in : Bytes → ℕ → Registry G → Registry G
  list_in key p s = record s { gdb_var_lst = insert key p s.gdb_var_lst }

  unfoldable pub by_origin : Origin → (Names → Names) → Registry G → Registry G
  by_origin unknown f s = s
  by_origin callstack f s = record s { gdb_callstack_var = f s.gdb_callstack_var }
  by_origin registers f s = record s { gdb_register_var = f s.gdb_register_var }
  by_origin user f s = record s { gdb_user_var = f s.gdb_user_var }

  -- What the destructor erases; a name that is null comes with no origin.
  unfoldable pub unlist : Object → Registry G → Registry G
  unfolding by_origin is_known
  unlist v s =
      if is_known v.origin
      then by_origin v.origin (erase v.name) (record s { gdb_var_lst = erase v.name s.gdb_var_lst })
      else s

  -- `*p`
  unfoldable pub deref : ℕ → Run (Registry G) Object
  deref p = do v ← gets (λ s. lookup p s.objects); on v (crash) pure

  unfoldable pub store : ℕ → Object → Run (Registry G) (Unit {0})
  store p v = modify (λ s. record s { objects = insert p v s.objects })

  unfoldable pub allocate : Object → Run (Registry G) ℕ
  allocate v = do
    p ← gets (λ s. s.fresh)
    modify (λ s. record s { objects = insert p v s.objects; fresh = p + 1 })
    pure p

  unfoldable pub for_each :
      {A : Type 0} → (A → Run (Registry G) (Unit {0})) → List A → Run (Registry G) (Unit {0})
  for_each f [] = pure tt
  for_each f (x ∷ xs) = f x >> for_each f xs

  -- The destructor, on fuel: the maps, the members, and `erase_childs`.
  unfoldable pub destroy : ℕ → ℕ → Run (Registry G) (Unit {0})
  destroy zero p = crash
  destroy (suc fuel) p = do
    v ← deref p
    modify (λ s. unlist v (record s { objects = erase p s.objects }))
    for_each (destroy fuel) v.childs

  -- `delete v`: each object is destroyed once.
  unfoldable pub delete_object : ℕ → Run (Registry G) (Unit {0})
  delete_object p s = destroy (length s.objects) p s

  unfoldable pub erase_childs : ℕ → Run (Registry G) (Unit {0})
  erase_childs p = do
    v ← deref p
    for_each delete_object v.childs
    v ← deref p
    store p (record v { childs = [] })

module _ {G : Type 0} (gdb : Gdb G) where
  -- A command to gdb.
  unfoldable pub ask : {A : Type 0} → (G → A × G) → Run (Registry G) A
  ask f s = let (a, g) = f s.gdb in some (a, record s { gdb = g })

  unfoldable pub release : ℕ → Run (Registry G) Bool
  release p = do
    v ← deref p
    let refcnt = u32 (v.refcnt + 2 ^ 32 - 1)
    store p (record v { refcnt = refcnt })
    listed ← gets (λ s. lookup v.name s.gdb_var_lst)
    if not (refcnt == 0) then pure true else do
      ok ← on listed (pure true) (λ q. ask (gdb.delete v.name))
      if ok then (delete_object p >> pure true) else pure false

  -- `thread` and `frame`, if there is a thread.
  unfoldable pub thread_frame : ℕ → ℕ → Option (ℕ × ℕ)
  thread_frame thread frame = if thread == 0 then none else some (thread, frame)

  -- The expression of a new variable, which stays registered if gdb gives none.
  unfoldable pub express : ℕ → Bytes → Run (Registry G) (Option ℕ)
  express p name = do
    exp ← ask (gdb.info_expression name)
    on exp (pure none) (λ exp. do v ← deref p; store p (record v { exp = some exp }); pure (some p))

  unfoldable pub enter : Origin → Bytes → Created → Run (Registry G) (Option ℕ)
  enter origin key c = do
    p ← allocate (new_object origin none c)
    modify (λ s. by_origin origin (insert key p) (list_in key p s))
    express p c.name

  -- A variable that is not registered yet.
  unfoldable pub create : Origin → (key expr : Bytes) → ℕ → Run (Registry G) (Option ℕ)
  create origin key expr frame = do
    thread ← gets (λ s. gdb.inf_threadid s.gdb)
    c ← ask (gdb.create (thread_frame thread frame) key (frame_addr origin) (dollar origin ++ expr))
    on c (pure none) (enter origin key)

  -- `var->refcnt++`
  unfoldable pub share : ℕ → Run (Registry G) (Option ℕ)
  share p = do v ← deref p; store p (record v { refcnt = u32 (v.refcnt + 1) }); pure (some p)

  unfoldable pub acquire_key : Origin → (key expr : Bytes) → ℕ → Run (Registry G) (Option ℕ)
  acquire_key origin key expr frame = do
    var ← gets (λ s. lookup key s.gdb_var_lst)
    on var (create origin key expr frame) share

  unfoldable pub acquire : Origin → (context expr : Bytes) → ℕ → Run (Registry G) (Option ℕ)
  acquire origin context expr frame =
      on (key_of origin context expr) (pure none) (λ key. acquire_key origin key expr frame)

  -- A child of the variable.
  unfoldable pub add_child : ℕ → Created → Run (Registry G) (Unit {0})
  add_child p c = do
    v ← deref p
    q ← allocate (new_object v.origin (some p) c)
    store p (record v { childs = v.childs ++ q ∷ [] })
    modify (list_in c.name q)

  unfoldable pub init_childs : ℕ → Run (Registry G) Bool
  init_childs p = do
    v ← deref p
    if not (length v.childs == 0) then pure true else do
      clst ← ask (gdb.list_children v.name)
      on clst (pure false) (λ clst. for_each (add_child p) clst >> pure true)
