-- ===== src/Gdb/Events/Follows.antt =====
-- The state of the inferior follows the events, in their order.
use vimgdb.Base.{
  ℕ, ◌≡◌, refl, ◌∙◌, sym, ap, subst, Bool, true, false, not, Bool-cases, inl, inr, List, [], ◌∷◌,
  ◌++◌, Option, none, some, if◌then◌else◌,
}
use vimgdb.Base.Maps.{bytes_same, bytes_same_iff}
use vimgdb.Base.Runs.{Run, pure, and_then, ◌>>=◌, gets, modify, crash, on, Yields, bind-Yields}
use vimgdb.Common.Text.{Bytes, codes}
use vimgdb.Gui.Interface.{Gui}
use vimgdb.Gdb.Handshake.{
  ResultClass, exit, stopped, running, done, connected, error, break_created, break_modified,
  break_deleted, thread_created, thread_exited, thread_selected, thread_grp_added,
  thread_grp_started, thread_grp_exited, param_changed, lib_loaded, lib_unloaded, is_exit,
}
use vimgdb.Gdb.Events.{
  Frame, Stop, Event, Inferior, Handlers, is_event, run_handlers, inf_update, mi_proc_async,
  call_ui, show_frame, stop_update, by_signal, by_reason, evt_stopped, evt_running, handle,
  take_event, event_round,
}

-- A text that is there, and equal to another.
abbrev pub is_text : Bytes → Option Bytes → Bool
is_text t none = false
is_text t (some s) = bytes_same s t

-- The reason and the signal of a segmentation fault.
abbrev pub faults : Option Bytes → Option Bytes → Bool
faults reason signal =
    if is_text (codes "signal-received") reason then is_text (codes "SIGSEGV") signal else false

abbrev pub and_exit : Bool → List Event → List Event
and_exit true l = l ++ record { rclass = exit; result = none } ∷ []
and_exit false l = l

-- What the events behind the first one are, once that one is handled.
abbrev pub behind : Event → List Event → List Event
behind e rest = elim e.rclass as (λ _. List Event) [
  | stopped ↦ (elim e.result [ none ↦ rest | some s ↦ and_exit (faults s.reason s.signal) rest ])
  | _ ↦ rest
]

-- Whether the inferior runs, and its thread.
abbrev pub runs_after : ResultClass → Bool → Bool
runs_after running b = true
runs_after stopped b = false
runs_after _ b = b

abbrev pub thread_of : Stop → ℕ → ℕ
thread_of s t = elim s.reason [ none ↦ t | some r ↦ s.thread_id ]

abbrev pub thread_after : Event → ℕ → ℕ
thread_after e t = elim e.rclass as (λ _. ℕ) [
  | stopped ↦ (elim e.result [ none ↦ t | some s ↦ thread_of s t ])
  | _ ↦ t
]

module _ {U : Type 0} (ui : Gui U) (h : Handlers U) where
  -- The members of the inferior, with any result.
  abbrev Core : {A : Type 0} → Bool → ℕ → List Event → A → Inferior U → Type 0
  Core b t l a s = (s.is_running ≡ b) × (s.cur_thread ≡ t) × (s.event_lst ≡ l)

  call_ui-Core :
      {A : Type 0} (m : Run U A) (b : Bool) (t : ℕ) (l : List Event) (s : Inferior U)
      → Core b t l tt s
      → Yields (Core b t l) (call_ui ui h m s)
  unfolding call_ui
  call_ui-Core {A} m b t l s c = go (m s.ui)
    where
      go :
          (o : Option (A × U))
          → Yields
              (Core b t l)
              (elim o [ none ↦ none | some (a, u) ↦ some (a, record s { ui = u }) ])
      go none = tt
      go (some (a, u)) = c

  stop_update-Core :
      (f : Option Frame) (b : Bool) (t : ℕ) (l : List Event) (s : Inferior U)
      → Core b t l tt s
      → Yields (Core b t l) (stop_update ui h f s)
  unfolding stop_update pure
  stop_update-Core f b t l s c =
      bind-Yields (Core b t l) (Core b t l) (call_ui ui h (inf_update h)) _ s
        (call_ui-Core (inf_update h) b t l s c)
        (λ _ s c.
          bind-Yields (Core b t l) (Core b t l) (call_ui ui h (on f (pure tt) (show_frame ui h))) _
            s (call_ui-Core (on f (pure tt) (show_frame ui h)) b t l s c) (λ _ s c. c))

  -- No text is both.
  other_reason :
      (r : Bytes)
      → bytes_same r (codes "exited-normally") ≡ true
      → bytes_same r (codes "signal-received") ≡ false
  other_reason r e = rw ((bytes_same_iff r (codes "exited-normally")).0 e) refl

  signal-Core :
      (stop : Stop) (g : Bytes) (b : Bool) (t : ℕ) (l : List Event) (s : Inferior U)
      → Core b t l tt s
      → Yields (Core b t (and_exit (bytes_same g (codes "SIGSEGV")) l)) (by_signal ui h stop g s)
  unfolding by_signal mi_proc_async is_event modify pure ◌>>=◌ and_then
  signal-Core stop g b t l s c = elim (Bool-cases (bytes_same g (codes "SIGSEGV"))) [
    | inl e ↦ rw e (c.0, c.1, ap (λ l. l ++ record { rclass = exit; result = none } ∷ []) c.2)
    | inr e ↦ rw e (stop_update-Core stop.frame b t l s c)
  ]

  reason-Core :
      (stop : Stop) (r : Bytes) (g : Option Bytes) (b : Bool) (t : ℕ) (l : List Event)
      (s : Inferior U)
      → stop.signal ≡ g
      → Core b t l tt s
      → Yields (Core b t (and_exit (faults (some r) g) l)) (by_reason ui h stop r s)
  unfolding by_reason on crash pure by_signal
  reason-Core stop r g b t l s f c = elim (Bool-cases (bytes_same r (codes "exited-normally"))) [
    | inl e ↦ rw (e, other_reason r e) c
    | inr e ↦ (elim (Bool-cases (bytes_same r (codes "signal-received"))) [
      | inr k ↦ rw (e, k) (stop_update-Core stop.frame b t l s c)
      | inl k ↦ rw (e, k) (by g f)
    ])
  ]
    where
      by :
          (g : Option Bytes)
          → stop.signal ≡ g
          → Yields
              (Core b t (and_exit (is_text (codes "SIGSEGV") g) l))
              (on stop.signal crash (by_signal ui h stop) s)
      by none f = rw f tt
      by (some g) f = rw f (signal-Core stop g b t l s c)

  -- What holds behind a round that took `e` in the state `s`.
  abbrev Followed : Event → List Event → Inferior U → Bool → Inferior U → Type 0
  Followed e rest s more s' =
      (more ≡ not (is_exit e.rclass))
      × (s'.is_running ≡ runs_after e.rclass s.is_running)
      × (s'.cur_thread ≡ thread_after e s.cur_thread)
      × (s'.event_lst ≡ behind e rest)

  stopped-Followed :
      (reason signal : Option Bytes) (thread_id : ℕ) (frame : Option Frame) (rest : List Event)
      (s : Inferior U)
      → s.event_lst ≡ rest
      → let stop : Stop = record {
        reason = reason;
        thread_id = thread_id;
        frame = frame;
        signal = signal;
      } in
        let e : Event = record { rclass = stopped; result = some stop } in
        Yields (Followed e rest s) (handle ui h e s)
  unfolding handle evt_stopped modify ◌>>=◌ and_then pure on is_exit
  stopped-Followed none signal thread_id frame rest s q = (refl, refl, refl, q)
  stopped-Followed (some r) signal thread_id frame rest s q =
      let stop : Stop = record {
        reason = some r;
        thread_id = thread_id;
        frame = frame;
        signal = signal;
      } in
      bind-Yields (Core false thread_id (and_exit (faults (some r) signal) rest))
        (Followed (record { rclass = stopped; result = some stop }) rest s) (by_reason ui h stop r)
        (λ _. pure true) (record s { is_running = false; cur_thread = thread_id })
        (reason-Core _ r signal false thread_id rest
          (record s { is_running = false; cur_thread = thread_id }) refl (refl, refl, q))
        (λ _ s' c. (refl, c.0, c.1, c.2))

  handle-Followed :
      (k : ResultClass) (result : Option Stop) (rest : List Event) (s : Inferior U)
      → s.event_lst ≡ rest
      → let e : Event = record { rclass = k; result = result } in
        Yields (Followed e rest s) (handle ui h e s)
  unfolding handle pure on crash evt_running modify ◌>>=◌ and_then is_exit
  handle-Followed exit result rest s q =
      bind-Yields (Core s.is_running s.cur_thread rest)
        (Followed (record { rclass = exit; result = result }) rest s)
        (call_ui ui h (run_handlers h.exit_hdlr_lst)) (λ _. pure false) s
        (call_ui-Core (run_handlers h.exit_hdlr_lst) s.is_running s.cur_thread rest s
          (refl, refl, q))
        (λ _ s' c. (refl, c.0, c.1, c.2))
  handle-Followed stopped none rest s q = tt
  handle-Followed stopped (some stop) rest s q =
      stopped-Followed stop.reason stop.signal stop.thread_id stop.frame rest s q
  handle-Followed running result rest s q = (refl, refl, refl, q)
  handle-Followed done result rest s q = (refl, refl, refl, q)
  handle-Followed connected result rest s q = (refl, refl, refl, q)
  handle-Followed error result rest s q = (refl, refl, refl, q)
  handle-Followed break_created result rest s q = (refl, refl, refl, q)
  handle-Followed break_modified result rest s q = (refl, refl, refl, q)
  handle-Followed break_deleted result rest s q = (refl, refl, refl, q)
  handle-Followed thread_created result rest s q = (refl, refl, refl, q)
  handle-Followed thread_exited result rest s q = (refl, refl, refl, q)
  handle-Followed thread_selected result rest s q = (refl, refl, refl, q)
  handle-Followed thread_grp_added result rest s q = (refl, refl, refl, q)
  handle-Followed thread_grp_started result rest s q = (refl, refl, refl, q)
  handle-Followed thread_grp_exited result rest s q = (refl, refl, refl, q)
  handle-Followed param_changed result rest s q = (refl, refl, refl, q)
  handle-Followed lib_loaded result rest s q = (refl, refl, refl, q)
  handle-Followed lib_unloaded result rest s q = (refl, refl, refl, q)

  -- A round of the event thread that returns has taken the first event of the list and none
  -- other; the thread goes on unless that event was the end of gdb; the inferior runs behind
  -- `running`, is stopped behind `stopped` and is as before behind any other; its thread is that of
  -- the last stop with a reason; and a segmentation fault queues the end of gdb behind the other
  -- events.
  pub event_round-follows :
      (e : Event) (rest : List Event) (more : Bool) (s s' : Inferior U)
      → s.event_lst ≡ e ∷ rest
      → event_round ui h s ≡ some (more, s')
      → (more ≡ not (is_exit e.rclass))
        × (s'.is_running ≡ runs_after e.rclass s.is_running)
        × (s'.cur_thread ≡ thread_after e s.cur_thread)
        × (s'.event_lst ≡ behind e rest)
  unfolding event_round take_event gets modify ◌>>=◌ and_then
  event_round-follows e rest more s s' q r =
      subst (Yields (Followed e rest (record s { event_lst = rest })))
        (sym (ap (λ l. take_event ui h l s) q) ∙ r)
        (handle-Followed e.rclass e.result rest (record s { event_lst = rest }) refl)
