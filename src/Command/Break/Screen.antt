-- ===== src/Command/Break/Screen.antt =====
-- What `Break` does to the user interface leaves the registry and gdb alone.
use vimgdb.Base.{true, false, List, Option, none, some}
use vimgdb.Base.Maps.{bytes_key}
use vimgdb.Base.Runs.{Run, pure, and_then, ◌>>=◌, ◌>>◌, gets, crash, on, Then, Stays, bind-Then}
use vimgdb.Common.Text.{Bytes, codes}
use vimgdb.Gui.Vim.State.{Win}
use vimgdb.Gui.Interface.{Gui, IsSound}
use vimgdb.Gdb.Breakpoints.{Breakpoint, Gdb}
use vimgdb.Command.Break.{Session, Calls, rows, window_row, call_ui, breakpt_print, mark, unmark}

-- What holds of the registry and of gdb, while the user interface is sound.
abbrev pub Both :
    {G U : Type 0} → (U → Type 0) → (List (Bytes × Breakpoint) → G → Type 0) → Session G U → Type 0
Both P R s = R s.breakpt_lst s.gdb × P s.ui

module _ {G U : Type 0} (gdb : Gdb G) (ui : Gui U) (calls : Calls) (P : U → Type 0)
    (sound : IsSound ui P) where
  module _ (R : List (Bytes × Breakpoint) → G → Type 0) where
    call_ui-Both :
        {A : Type 0} (m : Run U A) → Stays P m → Stays (Both P R) (call_ui gdb ui calls m)
    unfolding call_ui
    call_ui-Both {A} m h s (r, p) = go (m s.ui) (h s.ui p)
      where
        go :
            (o : Option (A × U))
            → Then P o
            → Then (Both P R) (elim o [ none ↦ none | some (a, u) ↦ some (a, record s { ui = u }) ])
        go none q = tt
        go (some (a, u)) q = (r, q)

    ui-Then :
        {A B : Type 0} (m : Run U A) (f : A → Run (Session G U) B) (Q : Session G U → Type 0)
        (s : Session G U)
        → Stays P m
        → Both P R s
        → ((a : A) (s : Session G U) → Both P R s → Then Q (f a s))
        → Then Q ((call_ui gdb ui calls m >>= f) s)
    ui-Then m f Q s h b k =
        bind-Then (Both P R) Q (call_ui gdb ui calls m) f s (call_ui-Both m h s b) k

    pub breakpt_print-Both : Stays (Both P R) (breakpt_print gdb ui calls)
    unfolding breakpt_print ◌>>=◌ and_then gets on pure crash
    breakpt_print-Both s b =
        go (ui.win_getid (codes "breakpoints") s.ui)
          (rows calls (window_row calls) (calls.in_order s.breakpt_lst))
      where
        go :
            (w : Win) (t : Option Bytes)
            → Then (Both P R) (
                on w
                  (pure tt)
                  (λ id. on t (crash) (λ text. do
                    call_ui gdb ui calls (ui.win_atomic (some id) true)
                    call_ui gdb ui calls (ui.win_clear (some id))
                    call_ui gdb ui calls (ui.win_print (some id) (calls.format text))
                    call_ui gdb ui calls (ui.win_atomic (some id) false)
                    pure tt))
                  s)
        go none t = b
        go (some id) none = tt
        go (some id) (some text) = ui-Then _ _ (Both P R) s (sound.group (some id) true) b (λ _ s b.
            ui-Then _ _ (Both P R) s (sound.clear (some id)) b (λ _ s b.
              ui-Then _ _ (Both P R) s (sound.print (some id) (calls.format text)) b
                (λ _ s b. ui-Then _ _ (Both P R) s (sound.group (some id) false) b (λ _ s b. b))))

    pub on-Both :
        {A : Type 0} (o : Option A) (f : A → Run (Session G U) (Unit {0}))
        → ((a : A) → Stays (Both P R) (f a))
        → Stays (Both P R) (on o crash f)
    unfolding on crash
    on-Both none f h s b = tt
    on-Both (some a) f h s b = h a s b

    pub mark-Both : (b : Breakpoint) (color : Bytes) → Stays (Both P R) (mark gdb ui calls b color)
    unfolding mark pure
    mark-Both b color s h = ui-Then _ _ (Both P R) s (sound.create b.fullname) h (λ w s h.
        ui-Then _ _ (Both P R) s (sound.anno_add w b.line (codes "b") (codes "Black") color) h
          (λ _ s h. h))

    pub unmark-Both : (b : Breakpoint) → Stays (Both P R) (unmark gdb ui calls b)
    unfolding unmark pure
    unmark-Both b s h =
        ui-Then _ _ (Both P R) s (sound.create b.fullname) h (λ w s h.
          ui-Then _ _ (Both P R) s (sound.anno_delete w b.line (codes "b")) h (λ _ s h. h))
