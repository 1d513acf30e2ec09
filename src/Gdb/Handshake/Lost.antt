-- ===== src/Gdb/Handshake/Lost.antt =====
-- What becomes of a call when gdb ends.
use vimgdb.Base.{◌≡◌, refl, true, ◌==◌, none, some, Bool-cases, inl, inr}
use vimgdb.Gdb.Handshake.{
  exit, is_exit, is_error, Response, Mi, mi_proc_result, take_resp, returned, Step, wakes,
}

module _ {R : Type 0} where
  -- The response with which the reader says that gdb ended.
  abbrev pub ended : Response R
  ended = record { rclass = exit; result = none; token = 0 }

  exit_lem :
      (m : Mi R) → mi_proc_result exit 0 none m ≡ record m { resp = some ended; woken = m.waiting }
  unfolding mi_proc_result is_exit
  exit_lem m = elim (Bool-cases (m.token == 0)) [ inl e ↦ rw e refl | inr e ↦ rw e refl ]

  -- A call that waits when the reader ends can take its next step, and returns -1.
  pub exit-wakes :
      (m : Mi R)
      → m.waiting ≡ true
      → Step (mi_proc_result exit 0 none m) (take_resp ended (mi_proc_result exit 0 none m))
        × (returned ended ≡ none)
  unfolding returned is_error is_exit
  exit-wakes m w = (rw (exit_lem m) (wakes ended w w refl), refl)
