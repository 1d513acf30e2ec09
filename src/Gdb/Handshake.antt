-- ===== src/Gdb/Handshake.antt =====
-- `mi_issue_cmd` and `mi_proc_result` of gdb/gdb.cc: a command waits for the result with its token.
-- The thread that issues and the thread that reads from gdb take steps in any order; between a lock
-- and its unlock no other step is taken.
pub mod Matched
pub mod Lost
use vimgdb.Base.{
  ℕ, ◌+◌, ◌≡◌, Bool, true, false, not, ◌&&◌, List, [], ◌∷◌, ◌++◌, Option, none, some, ◌==◌, ◌⊎◌,
  if◌then◌else◌,
}
use vimgdb.Common.Text.{Bytes, u32}

-- `gdb_result_class_t`
pub data ResultClass : Type 0 where
  done running connected error exit stopped break_created break_modified : ResultClass
  break_deleted thread_created thread_exited thread_selected thread_grp_added : ResultClass
  thread_grp_started thread_grp_exited param_changed lib_loaded lib_unloaded : ResultClass

unfoldable pub is_exit : ResultClass → Bool
is_exit exit = true
is_exit _ = false

unfoldable pub is_error : ResultClass → Bool
is_error error = true
is_error _ = false

-- `response_t`, with the token of the record that set it.
pub record Response (R : Type 0) : Type 0 where
  pub rclass : ResultClass
  pub result : Option R
  pub token : ℕ

-- What a call of `mi_issue_cmd` got: the token that it wrote, the response, and whether a signal woke
-- it.
pub record Answer (R : Type 0) : Type 0 where
  pub issued : ℕ
  pub response : Response R
  pub signalled : Bool

-- The members of `gdbif` and the thread that waits on `resp_avail`: `waiting` once it released
-- `resp_mtx`, `woken` once it was signalled. `answers` are the calls that returned, in order.
pub record Mi (R : Type 0) : Type 0 where
  pub token : ℕ
  pub resp : Option (Response R)
  pub waiting : Bool
  pub woken : Bool
  pub answers : List (Answer R)

module _ {R : Type 0} where
  unfoldable pub init : Mi R
  init = record { token = 1; resp = none; waiting = false; woken = false; answers = [] }

  -- The newline behind the command, and the wait.
  unfoldable pub wait_resp : Mi R → Mi R
  wait_resp m = record m { waiting = true; woken = false }

  -- `mi_proc_result`: a signal wakes only a thread that waits.
  unfoldable pub mi_proc_result : ResultClass → ℕ → Option R → Mi R → Mi R
  mi_proc_result rclass token result m =
      if not (m.token == token) && not (is_exit rclass) then m else record m {
        resp = some (record { rclass = rclass; result = result; token = token });
        woken = m.waiting;
      }

  -- Behind the wait: `resp = this->resp; token++;`
  unfoldable pub take_resp : Response R → Mi R → Mi R
  take_resp resp m = record m {
    token = u32 (m.token + 1);
    waiting = false;
    woken = false;
    answers = m.answers ++ record { issued = m.token; response = resp; signalled = m.woken } ∷ [];
  }

  -- What the call returns: -1, or 0 with the result.
  unfoldable pub returned : Response R → Option (Option R)
  returned r = if is_error r.rclass then none else if is_exit r.rclass then none else some r.result

  -- `issues` is a call that is let in by the lock of the function; `wakes` is its end. There is no
  -- loop around `pthread_cond_wait`, which may return without a signal: `wakes_early` then takes what
  -- the member holds, which is anything before the first result.
  pub data Step (m : Mi R) : Mi R → Type 0 where
    issues : m.waiting ≡ false → Step m (wait_resp m)
    receives :
        (rclass : ResultClass) (token : ℕ) (result : Option R)
        → Step m (mi_proc_result rclass token result m)
    wakes :
        (resp : Response R)
        → m.waiting ≡ true
        → m.woken ≡ true
        → m.resp ≡ some resp
        → Step m (take_resp resp m)
    wakes_early :
        (resp : Response R)
        → m.waiting ≡ true
        → m.woken ≡ false
        → (m.resp ≡ some resp) ⊎ (m.resp ≡ none)
        → Step m (take_resp resp m)

  pub data Reach (m : Mi R) : Mi R → Type 0 where
    here : Reach m m
    next : {n o : Mi R} → Reach m n → Step n o → Reach m o
