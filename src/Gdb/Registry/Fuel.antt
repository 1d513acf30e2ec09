-- ===== src/Gdb/Registry/Fuel.antt =====
-- The destructor of a variable ends.
use vimgdb.Base.{ℕ, ◌≤◌, Option, none, some, length}
use vimgdb.Base.Maps.{erase, nat_key, bytes_key}
use vimgdb.Base.Runs.{◌>>◌}
use vimgdb.Gdb.Registry.{Object, Registry, unlist, for_each, destroy}

module _ {G : Type 0} where
  abbrev Within : ℕ → Registry G → Type 0
  Within k s = length s.objects ≤ k

  -- Behind the read of the object.
  abbrev after : ℕ → ℕ → Registry G → Option Object → Option (Unit {0} × Registry G)
  after fuel p s none = none
  after fuel p s (some v) =
      for_each (destroy fuel) v.childs (unlist v (record s { objects = erase p s.objects }))
