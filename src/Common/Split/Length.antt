-- ===== src/Common/Split/Length.antt =====
-- Every argument that `strsplit` stores fills the buffer that it allocated for it.
use vimgdb.Base.{
  ℕ, zero, suc, ◌+◌, ◌≡◌, inl, inr, Option, none, some, List, [], ◌∷◌, length, Bool-cases, All,
  All-append,
}
use vimgdb.Common.Text.{Bytes}
use vimgdb.Common.Split.{
  at_end, skip, store_escape, WordEnd, ends, past, out_of_fuel, word_end, Arg, Argv, argv, overrun,
  stuck, make_arg, store_word, store_args, count_args, store_all, strsplit,
}
use vimgdb.Common.Split.Span.{WordSpan, word-Span, make_arg-length}

-- The copied text and its terminator are `arg_len + 1` bytes, the size of the allocation.
abbrev pub Fits : Arg → Type 0
Fits a = length a.text ≡ a.arg_len

abbrev pub ArgvFits : Argv → Type 0
ArgvFits (argv args) = All Fits args
ArgvFits overrun = Unit
ArgvFits stuck = Unit

store_word-Fits :
    (more : ℕ → Bytes → List Arg → Argv) (slots : ℕ) (start : Bytes) (done : List Arg) (e : WordEnd)
    → All Fits done
    → WordSpan start 0 e
    → ((left : ℕ) (rest : Bytes) (args : List Arg) → All Fits args → ArgvFits (more left rest args))
    → ArgvFits (store_word more slots start done e)
unfolding store_word
store_word-Fits more zero start done (ends rest n) d s next = tt
store_word-Fits more (suc slots) start done (ends rest n) d s next =
    next slots rest _
      (All-append Fits done (make_arg start rest n ∷ []) d (make_arg-length start rest n s, tt))
store_word-Fits more zero start done past d s next = d
store_word-Fits more (suc slots) start done past d s next = d
store_word-Fits more zero start done out_of_fuel d s next = tt
store_word-Fits more (suc slots) start done out_of_fuel d s next = tt

store_args-Fits :
    (fuel slots : ℕ) (line : Bytes) (done : List Arg)
    → All Fits done
    → ArgvFits (store_args fuel slots line done)
unfolding store_args
store_args-Fits zero slots line done d = tt
store_args-Fits (suc fuel) slots line done d = elim (Bool-cases (at_end (skip line))) [
  | inl h ↦ rw h d
  | inr h ↦ rw h (
      store_word-Fits (store_args fuel) slots (skip line) done (word_end store_escape (skip line)) d
        (word-Span (length (skip line) + 1) (skip line) 0) (store_args-Fits fuel))
]

-- Whatever the line, each argument that `strsplit` hands out holds just as many bytes as its
-- buffer was sized for, so that no copy runs over its buffer.
pub strsplit-ArgvFits : (line : Bytes) → ArgvFits (strsplit line)
unfolding strsplit
strsplit-ArgvFits line = all (count_args (length line + 1) line 0)
  where
    all : (argc : Option ℕ) → ArgvFits (store_all line argc)
    all none = tt
    all (some argc) = store_args-Fits (length line + 1) argc line [] tt
