-- ===== src/Tests/Gdb.antt =====
-- Runs of the threads that talk to gdb.
use vimgdb.Base.{
  ℕ, ◌+◌, ◌%◌, ◌<◌, ◌≡◌, ◌≢◌, refl, true, false, not, List, [], ◌∷◌, ◌++◌, none, some, length,
  arith, ◌^◌, inl,
}
use vimgdb.Base.Runs.{pure, and_then, ◌>>=◌, gets, modify, on}
use vimgdb.Common.Text.{Bytes, codes}
use vimgdb.Gui.Interface.{Gui}
use vimgdb.Gdb.Reader.{is_complete, begin, append, flush, read_byte, read_all}
use vimgdb.Gdb.Reader.Prompts.{without_cr, concat, read_all-seen, IsReading, read_all-IsReading}
use vimgdb.Gdb.Handshake.{
  done, exit, stopped, is_exit, Response, Mi, init, wait_resp, mi_proc_result, take_resp, returned,
  Step, issues, receives, wakes, wakes_early, Reach, here, next,
}
use vimgdb.Gdb.Handshake.Matched.{IsMatched, Reach-IsMatched}
use vimgdb.Gdb.Handshake.Lost.{ended, exit-wakes}
use vimgdb.Gdb.Events.{
  Event, Inferior, Handlers, is_event, mi_proc_async, by_signal, by_reason, evt_stopped, handle,
  take_event, event_round,
}
use vimgdb.Gdb.Events.Follows.{runs_after, thread_after, behind, event_round-follows}
use vimgdb.Gdb.Issue.{
  Digits, number, string, array, params, refused, stuck, join, space, issue_line,
}
use vimgdb.Gdb.Issue.Spelled.{
  Item, literal, uns, quoted, text, spell, arguments, meanings, IsClear, issue_line-spell,
}
use vimgdb.Gdb.Issue.Ends.{issue_line-ends}

-- What gdb writes: two texts with their prompts, and the begin of a third.
abbrev written : Bytes
written = codes "1^done\r\n(gdb) \r\n*running\n(gdb) \n~\"x"

read_written :
    (read_all written begin).parsed ≡ codes "1^done\n(gdb) \n" ∷ codes "*running\n(gdb) \n" ∷ []
unfolding read_all read_byte flush is_complete append begin
read_written = refl

read_all-seen_example :
    concat (read_all written begin).parsed ++ (read_all written begin).line ≡ without_cr written
read_all-seen_example = read_all-seen written

begin-IsReading : IsReading begin
unfolding begin is_complete
begin-IsReading = record { complete = tt; pending = refl; room = omega arith; enough = omega arith }

written_small : length begin.line + length written < 2 ^ 31
unfolding begin
written_small = omega arith

read_all-IsReading_example : IsReading (read_all written begin)
read_all-IsReading_example = read_all-IsReading written begin written_small begin-IsReading

-- A call, another call's response, its own response, and its return; then a call that wakes without
-- a signal and takes the response of the one before.
abbrev asked : Mi ℕ
asked = wait_resp init

abbrev answered : Mi ℕ
answered = mi_proc_result done 1 (some 7) (mi_proc_result done 5 (some 8) asked)

abbrev response : Response ℕ
response = record { rclass = done; result = some 7; token = 1 }

abbrev over : Mi ℕ
over = take_resp response (wait_resp (take_resp response answered))

ran : Reach init over
unfolding init wait_resp mi_proc_result is_exit take_resp
ran =
    next
      (next
        (next
          (next (next (next here (issues refl)) (receives done 5 (some 8)))
            (receives done 1 (some 7)))
          (wakes response refl refl refl))
        (issues refl))
      (wakes_early response refl refl (inl refl))

Reach-IsMatched_example : IsMatched over
Reach-IsMatched_example = Reach-IsMatched ran

asked_waits : asked.waiting ≡ true
unfolding wait_resp
asked_waits = refl

exit-wakes_example :
    Step (mi_proc_result exit 0 none asked) (take_resp ended (mi_proc_result exit 0 none asked))
    × (returned (ended {R = ℕ}) ≡ none)
exit-wakes_example = exit-wakes asked asked_waits

-- A user interface that counts its windows.
abbrev counting : Gui ℕ
counting = record {
  win_getid = λ name u. some u;
  win_create = λ name u. some (some u, u + 1);
  win_atomic = λ win en u. some (true, u);
  win_clear = λ win u. some (tt, u);
  win_print = λ win t u. some (tt, u);
  win_anno_add = λ win l s f b u. some (true, u);
  win_anno_delete = λ win l s u. some (true, u);
  win_cursor_set = λ win l c u. some (true, u);
}

abbrev handlers : Handlers ℕ
handlers = record {
  get_changed = λ u. some (true, u);
  stop_hdlr_lst = (λ u. some (true, u + 10)) ∷ [];
  exit_hdlr_lst = [];
  file_exists = λ name. true;
}

abbrev fault : Event
fault = record {
  rclass = stopped;
  result = some (record {
    reason = some (codes "signal-received");
    thread_id = 2;
    frame = some (record { fullname = some (codes "/m.c"); line = 4 });
    signal = some (codes "SIGSEGV");
  });
}

abbrev hit : Event
hit = record {
  rclass = stopped;
  result = some (record {
    reason = some (codes "breakpoint-hit");
    thread_id = 3;
    frame = some (record { fullname = some (codes "/m.c"); line = 4 });
    signal = none;
  });
}

abbrev queued : List Event → Inferior ℕ
queued l = record { is_running = true; cur_thread = 1; event_lst = l; ui = 0 }

abbrev gone : Event
gone = record { rclass = exit; result = none }

abbrev faulted : Inferior ℕ
faulted = record { is_running = false; cur_thread = 2; event_lst = hit ∷ gone ∷ []; ui = 0 }

fault_ran : event_round counting handlers (queued (fault ∷ hit ∷ [])) ≡ some (true, faulted)
unfolding event_round take_event handle evt_stopped by_reason by_signal mi_proc_async is_event gets
    modify pure on ◌>>=◌ and_then
fault_ran = refl

event_round-follows_example :
    (true ≡ not (is_exit stopped))
    × (false ≡ runs_after stopped true)
    × (2 ≡ thread_after fault 1)
    × (hit ∷ gone ∷ [] ≡ behind fault (hit ∷ []))
event_round-follows_example =
    event_round-follows counting handlers fault (hit ∷ []) true (queued (fault ∷ hit ∷ [])) faulted
      refl fault_ran

-- Numbers of one digit.
abbrev digits : Digits
digits = record { decimal = λ n. (48 + n % 10) ∷ []; hexadecimal = λ n. (48 + n % 16) ∷ [] }

abbrev asks : List Item
asks =
    literal b'-'
    ∷ literal b' '
    ∷ uns 3
    ∷ literal b' '
    ∷ quoted (codes "a b" ∷ codes "c" ∷ [])
    ∷ literal b' '
    ∷ text (codes "on")
    ∷ []

asks_line :
    issue_line digits 4
      (codes "break-insert")
      (codes "- %u %ssq %d %s")
      (number false 3 ∷ array (codes "a b" ∷ codes "c" ∷ []) ∷ string (codes "on") ∷ [])
    ≡ params (codes "4-break-insert - 3 \"a b\" \"c\" on\n")
unfolding issue_line join
asks_line = refl

asks-IsClear : IsClear asks
asks-IsClear = ((λ e. cc), ((λ e. cc), ((λ e. cc), ((λ e. cc), (refl, refl, tt)))))

issue_line-spell_example :
    issue_line digits 4 (codes "break-insert") (spell asks) (arguments asks)
    ≡ params (
        digits.decimal 4
        ++ b'-' ∷ codes "break-insert"
        ++ space (spell asks)
        ++ meanings digits asks
        ++ 10 ∷ [])
issue_line-spell_example = issue_line-spell digits 4 (codes "break-insert") asks asks-IsClear

-- A format that ends in a percent sign is refused.
percent_line : issue_line digits 4 (codes "x") (codes "a%") [] ≡ refused
unfolding issue_line
percent_line = refl

issue_line-ends_example :
    issue_line digits 4 (codes "x") (codes "%d a%") (number true 3 ∷ []) ≢ stuck
issue_line-ends_example = issue_line-ends digits 4 (codes "x") (codes "%d a%") (number true 3 ∷ [])
