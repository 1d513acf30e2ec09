-- ===== src/Command/Memory/View/Live.antt =====
-- The registered segments behind the lines of the window.
use vimgdb.Base.{
  ℕ, ◌≡◌, refl, ◌∙◌, sym, subst, Bool, true, false, ◌||◌, ◌==◌, ==_iff, List, [], ◌∷◌, ◌++◌, Option,
  none, some, if◌then◌else◌, All, All-append, Bool-cases, inl, inr,
}
use vimgdb.Base.Runs.{Run, pure, and_then, ◌>>=◌, gets, modify, on, Then, Stays, bind-Then}
use vimgdb.Common.Text.{codes}
use vimgdb.Common.LineMap.{Entry, clear, add as add_entry}
use vimgdb.Common.Page.{mark}
use vimgdb.Gui.Interface.{Gui}
use vimgdb.Gdb.Events.{Handlers}
use vimgdb.Command.Memory.{Memory, Formats, Dump, dump}
use vimgdb.Command.Memory.View.{
  Segments, Memories, Reads, Calls, Chunk, refresh, Shown, show, call_ui, shown, take_shown,
  print_shown, cmd_memory_update, then_update,
}

-- The pointer is that of a segment.
abbrev pub is_segment : Segments → ℕ → Bool
is_segment [] p = false
is_segment ((q, mem) ∷ lst) p = q == p || is_segment lst p

is_segment-append :
    (l r : Segments) (p : ℕ) → is_segment (l ++ r) p ≡ (is_segment l p || is_segment r p)
is_segment-append [] r p = refl
is_segment-append ((q, mem) ∷ l) r p = elim (Bool-cases (q == p)) [
  | inl e ↦ rw e refl
  | inr e ↦ rw e (is_segment-append l r p)
]

-- Each entry of the line map points to a registered segment.
abbrev pub IsLive : List (Entry ℕ) → Segments → Type 0
IsLive marks lst = All (λ e. is_segment lst e.item ≡ true) marks

IsLive-append : (marks : List (Entry ℕ)) (l r : Segments) → IsLive marks l → IsLive marks (l ++ r)
IsLive-append [] l r h = tt
IsLive-append (e ∷ marks) l r h =
    (is_segment-append l r e.item ∙ rw h.0 refl, IsLive-append marks l r h.1)

or_true : (b : Bool) → (b || true) ≡ true
or_true true = refl
or_true false = refl

IsLive-mark :
    (d : Dump) (p : ℕ) (mem : Memory) (marks : List (Entry ℕ)) (l : Segments)
    → IsLive marks l
    → IsLive (mark d.page p marks) (l ++ (p, mem) ∷ [])
unfolding mark add_entry
IsLive-mark d p mem marks l h =
    All-append (λ e. is_segment (l ++ (p, mem) ∷ []) e.item ≡ true) marks
      (record { line = d.page.line; item = p } ∷ []) (IsLive-append marks l ((p, mem) ∷ []) h)
      (
        is_segment-append l ((p, mem) ∷ []) p ∙ rw ((==_iff p p).1 refl) (or_true (is_segment l p)),
        tt,
      )

module _ {G : Type 0} (read : Reads G) (fmt : Formats) where
  show-IsLive :
      (lst : Segments) (v : Shown G)
      → IsLive v.line_mems v.printed
      → let w : Shown G = (show read fmt lst v).1 in IsLive w.line_mems w.printed
  unfolding show
  show-IsLive [] v h = h
  show-IsLive ((p, mem) ∷ lst) v h =
      by_answer (λ w k. show-IsLive lst w k) (read mem.begin mem.length v.gdb).0
    where
      by_answer :
          ((w : Shown G)
            → IsLive w.line_mems w.printed
            → IsLive (show read fmt lst w).1.line_mems (show read fmt lst w).1.printed)
          → (m : Option Chunk)
          → let g : G = (read mem.begin mem.length v.gdb).1 in
            let w : Shown G =
              (elim m as (λ _. Bool × Shown G) [
                | none ↦ (false, record v { gdb = g; printed = v.printed ++ (p, mem) ∷ lst })
                | some m ↦ show read fmt lst (record v {
                  printed = v.printed ++ (p, refresh m mem) ∷ [];
                  line_mems = mark v.text.page p v.line_mems;
                  text = dump fmt (refresh m mem) v.text;
                  gdb = g;
                })
              ]).1 in
            IsLive w.line_mems w.printed
      by_answer more none = IsLive-append v.line_mems v.printed ((p, mem) ∷ lst) h
      by_answer more (some m) =
          more _ (IsLive-mark v.text p (refresh m mem) v.line_mems v.printed h)

module _ {G U : Type 0} (ui : Gui U) (calls : Calls G) (fmt : Formats)
    (h : Handlers (Memories G U)) where
  -- The line map of the state.
  pub record Holds (s : Memories G U) : Type 0 where
    pub live : IsLive s.line_mems s.mem_lst

  call_ui-Holds : {A : Type 0} (m : Run U A) → Stays Holds (call_ui ui calls fmt h m)
  unfolding call_ui
  call_ui-Holds {A} m s k = go (m s.ui)
    where
      go :
          (o : Option (A × U))
          → Then Holds (elim o as (λ _. Option (A × Memories G U)) [
            | none ↦ none
            | some (a, u) ↦ some (a, record s { ui = u })
          ])
      go none = tt
      go (some (a, u)) = record { live = k.live }

  print_shown-Holds : (w : ℕ) (d : Dump) → Stays Holds (print_shown ui calls fmt h w d)
  unfolding print_shown pure
  print_shown-Holds w d s k =
      bind-Then Holds Holds (call_ui ui calls fmt h (ui.win_atomic (some w) true)) _ s
        (call_ui-Holds (ui.win_atomic (some w) true) s k)
        (λ _ s k.
          bind-Then Holds Holds (call_ui ui calls fmt h (ui.win_clear (some w))) _ s
            (call_ui-Holds (ui.win_clear (some w)) s k)
            (λ _ s k.
              bind-Then Holds Holds
                (call_ui ui calls fmt h (ui.win_print (some w) (calls.format d.page.obuf))) _ s
                (call_ui-Holds (ui.win_print (some w) (calls.format d.page.obuf)) s k)
                (λ _ s k.
                  bind-Then Holds Holds (call_ui ui calls fmt h (ui.win_atomic (some w) false)) _ s
                    (call_ui-Holds (ui.win_atomic (some w) false) s k) (λ _ s k. k))))

  taken-Holds : (s : Memories G U) → Holds (take_shown ui calls fmt h (shown ui calls fmt h s).1 s)
  unfolding shown take_shown clear
  taken-Holds s = record { live = show-IsLive calls.read fmt s.mem_lst _ tt }

  -- With the window open, whatever the line map held before.
  pub opened-Holds :
      (w : ℕ) (s : Memories G U)
      → ui.win_getid (codes "memory") s.ui ≡ some w
      → Then Holds (cmd_memory_update ui calls fmt h s)
  unfolding cmd_memory_update gets modify ◌>>=◌ and_then on pure
  opened-Holds w s e = rw e (printed (shown ui calls fmt h s).0)
    where
      printed :
          (b : Bool)
          → let v : Shown G = (shown ui calls fmt h s).1 in
            Then Holds (
              (if b then print_shown ui calls fmt h w v.text else pure false)
                (take_shown ui calls fmt h v s))
      printed true = print_shown-Holds w (shown ui calls fmt h s).1.text _ (taken-Holds s)
      printed false = taken-Holds s

  cmd_memory_update-Holds : Stays Holds (cmd_memory_update ui calls fmt h)
  cmd_memory_update-Holds s k = by_window (ui.win_getid (codes "memory") s.ui) refl
    where
      by_window :
          (w : Option ℕ)
          → ui.win_getid (codes "memory") s.ui ≡ w
          → Then Holds (cmd_memory_update ui calls fmt h s)
      by_window none e = unfold cmd_memory_update gets ◌>>=◌ and_then on pure in rw e k
      by_window (some w) e = opened-Holds w s e

  pub updated-Holds :
      (f : Memories G U → Memories G U) (w : ℕ) (s : Memories G U)
      → ui.win_getid (codes "memory") (f s).ui ≡ some w
      → Then Holds (then_update ui calls fmt h f s)
  unfolding then_update modify pure
  updated-Holds f w s e =
      bind-Then (λ t. t ≡ f s) Holds (modify f) _ s refl
        (λ _ t q.
          bind-Then Holds Holds (cmd_memory_update ui calls fmt h) _ t
            (subst (λ t. Then Holds (cmd_memory_update ui calls fmt h t)) (sym q)
              (opened-Holds w (f s) e))
            (λ _ s k. k))
