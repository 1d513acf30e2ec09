-- ===== src/Common/Split/Count.antt =====
-- The two passes of `strsplit`: both end, and without a backslash they find as many arguments.
use vimgdb.Base.{
  ℕ, zero, suc, ◌+◌, ◌≤◌, ◌<◌, ◌≡◌, ◌≢◌, refl, ◌∙◌, ap, ◌&&◌, List, [], ◌∷◌, ◌++◌, Option, none,
  some, arith, length, ◌==◌, if◌then◌else◌, append_assoc, append-nil, All,
}
use vimgdb.Common.Text.{Bytes}
use vimgdb.Common.Split.{
  backslash, at_end, skip, count_escape, store_escape, WordEnd, ends, past, out_of_fuel, word_end,
  count_word, count_args, Arg, Argv, argv, overrun, stuck, make_arg, store_word, store_args,
  store_all, strsplit,
}
use vimgdb.Common.Split.Passes.{SameWord, Start, none_left, begins, skip-Start}

abbrev Any : ℕ → Type 0
Any _ = Unit {0}

abbrev pub NoBackslash : ℕ → Type 0
NoBackslash c = c ≢ backslash

All-Any : (s : Bytes) → All Any s
All-Any [] = tt
All-Any (c ∷ s) = (tt, All-Any s)

NoBackslash-agree :
    (c d : ℕ)
    → NoBackslash c
    → (c == backslash && count_escape d) ≡ (c == backslash && store_escape d)
NoBackslash-agree c d h = ground (arith, h)

-- The first pass ends.
abbrev Counts : Option ℕ → Type 0
Counts none = ⊥
Counts (some argc) = Unit

count_word-Counts :
    (more : Bytes → ℕ → Option ℕ) (argc b : ℕ) (e : WordEnd)
    → SameWord Any count_escape count_escape (λ c d _. refl) b e e
    → ((rest : Bytes) → length rest ≤ b → Counts (more rest (argc + 1)))
    → Counts (count_word more argc e)
unfolding count_word
count_word-Counts more argc b (ends rest n) s next = next rest s.1.short
count_word-Counts more argc b past s next = tt
count_word-Counts more argc b out_of_fuel s next = s

count_args-Counts :
    (fuel : ℕ) (line : Bytes) (argc : ℕ) → length line < fuel → Counts (count_args fuel line argc)
unfolding count_args
count_args-Counts zero line argc f = absurd (omega arith)
count_args-Counts (suc fuel) line argc f =
    go (count_args-Counts fuel) (skip line)
      (skip-Start Any count_escape count_escape _ line (All-Any line))
  where
    go :
        ((rest : Bytes) (k : ℕ) → length rest < fuel → Counts (count_args fuel rest k))
        → (start : Bytes) → Start Any count_escape count_escape (λ c d _. refl) line start
        → Counts (
            if at_end start
            then some argc
            else count_word (count_args fuel) argc (word_end count_escape start))
    go ih _ none_left = tt
    go ih _ (begins c s h w) =
        count_word-Counts (count_args fuel) argc (length s) _ w
          (λ rest r. ih rest (argc + 1) (omega arith))

-- The second pass ends.
abbrev pub Ends : Argv → Type 0
Ends (argv args) = Unit
Ends overrun = Unit
Ends stuck = ⊥

store_word-Ends :
    (more : ℕ → Bytes → List Arg → Argv) (slots : ℕ) (start : Bytes) (done : List Arg) (b : ℕ)
    (e : WordEnd)
    → SameWord Any store_escape store_escape (λ c d _. refl) b e e
    → ((left : ℕ) (rest : Bytes) (args : List Arg) → length rest ≤ b → Ends (more left rest args))
    → Ends (store_word more slots start done e)
unfolding store_word
store_word-Ends more zero start done b (ends rest n) s next = tt
store_word-Ends more (suc slots) start done b (ends rest n) s next = next slots rest _ s.1.short
store_word-Ends more zero start done b past s next = tt
store_word-Ends more (suc slots) start done b past s next = tt
store_word-Ends more zero start done b out_of_fuel s next = s
store_word-Ends more (suc slots) start done b out_of_fuel s next = s

store_args-Ends :
    (fuel slots : ℕ) (line : Bytes) (done : List Arg)
    → length line < fuel
    → Ends (store_args fuel slots line done)
unfolding store_args
store_args-Ends zero slots line done f = absurd (omega arith)
store_args-Ends (suc fuel) slots line done f =
    go (store_args-Ends fuel) (skip line)
      (skip-Start Any store_escape store_escape _ line (All-Any line))
  where
    go :
        ((left : ℕ) (rest : Bytes) (args : List Arg)
          → length rest < fuel
          → Ends (store_args fuel left rest args))
        → (start : Bytes) → Start Any store_escape store_escape (λ c d _. refl) line start
        → Ends (
            if at_end start
            then argv done
            else store_word (store_args fuel) slots start done (word_end store_escape start))
    go ih _ none_left = tt
    go ih _ (begins c s h w) =
        store_word-Ends (store_args fuel) slots (c ∷ s) done (length s) _ w
          (λ left rest args r. ih left rest args (omega arith))

-- Both passes of `strsplit` end on every line.
pub strsplit-Ends : (line : Bytes) → Ends (strsplit line)
unfolding strsplit
strsplit-Ends line =
    all (count_args (length line + 1) line 0)
      (count_args-Counts (length line + 1) line 0 (omega arith))
  where
    all : (argc : Option ℕ) → Counts argc → Ends (store_all line argc)
    all none c = absurd c
    all (some argc) c = store_args-Ends (length line + 1) argc line [] (omega arith)

-- The first pass finds `k` arguments, and the second one stores as many, given the slots.
record Agree (fuel : ℕ) (line : Bytes) (argc : ℕ) : Type 0 where
  more : ℕ
  counted : count_args fuel line argc ≡ some (argc + more)
  stored :
      (slots : ℕ) (done : List Arg)
      → more ≤ slots
      → (args : List Arg) × (store_args fuel slots line done ≡ argv (done ++ args))

-- What a pass does behind the blanks.
abbrev count_start : ℕ → ℕ → Bytes → Option ℕ
count_start fuel argc start =
    if at_end start
    then some argc
    else count_word (count_args fuel) argc (word_end count_escape start)

abbrev store_start : ℕ → ℕ → Bytes → List Arg → Argv
store_start fuel slots start done =
    if at_end start
    then argv done
    else store_word (store_args fuel) slots start done (word_end store_escape start)

record AgreeAt (fuel : ℕ) (start : Bytes) (argc : ℕ) : Type 0 where
  more : ℕ
  counted : count_start fuel argc start ≡ some (argc + more)
  stored :
      (slots : ℕ) (done : List Arg)
      → more ≤ slots
      → (args : List Arg) × (store_start fuel slots start done ≡ argv (done ++ args))

-- The slot for one more argument is there.
store_slot :
    (fuel : ℕ) (start rest : Bytes) (n slots k : ℕ) (done : List Arg)
    → suc k ≤ slots
    → ((left : ℕ) (done' : List Arg)
        → k ≤ left
        → (args : List Arg) × (store_args fuel left rest done' ≡ argv (done' ++ args)))
    → (args : List Arg) × (store_word (store_args fuel) slots start done (ends rest n)
        ≡ argv (done ++ args))
unfolding store_word
store_slot fuel start rest n zero k done h next = absurd (omega arith)
store_slot fuel start rest n (suc slots) k done h next =
    let a = make_arg start rest n in
    let (args, e) = next slots (done ++ a ∷ []) (omega arith) in
    (a ∷ args, e ∙ ap argv (append_assoc done (a ∷ []) args))

-- The argument that the line begins with, and those behind it.
word-AgreeAt :
    (fuel argc c : ℕ) (s : Bytes) (e e' : WordEnd)
    → word_end count_escape (c ∷ s) ≡ e
    → word_end store_escape (c ∷ s) ≡ e'
    → SameWord NoBackslash count_escape store_escape NoBackslash-agree (length s) e e'
    → ((rest : Bytes) (k : ℕ) → length rest ≤ length s → All NoBackslash rest → Agree fuel rest k)
    → AgreeAt fuel (c ∷ s) argc
unfolding count_word store_word
word-AgreeAt fuel argc c s (ends rest n) e' p q w ih =
    let a = ih rest (argc + 1) w.1.short w.1.clean in
    record {
      more = suc a.more;
      counted = rw p (a.counted ∙ ap some (omega arith));
      stored = λ slots done h.
          rw (q, ← w.0) (store_slot fuel (c ∷ s) rest n slots a.more done h a.stored);
    }
word-AgreeAt fuel argc c s past e' p q w ih = record {
  more = 0;
  counted = rw p (ap some (omega arith));
  stored = λ slots done h. ([], rw (q, ← w, append-nil));
}
word-AgreeAt fuel argc c s out_of_fuel e' p q w ih = absurd w

Start-AgreeAt :
    (fuel argc : ℕ) (line start : Bytes)
    → length line < suc fuel
    → Start NoBackslash count_escape store_escape NoBackslash-agree line start
    → ((rest : Bytes) (k : ℕ) → length rest < fuel → All NoBackslash rest → Agree fuel rest k)
    → AgreeAt fuel start argc
Start-AgreeAt fuel argc line _ f none_left ih = record {
  more = 0;
  counted = ap some (omega arith);
  stored = λ slots done h. ([], rw append-nil);
}
Start-AgreeAt fuel argc line _ f (begins c s h w) ih =
    word-AgreeAt fuel argc c s _ _ refl refl w (λ rest k r. ih rest k (omega arith))

args-Agree :
    (fuel argc : ℕ) (line : Bytes)
    → length line < fuel
    → All NoBackslash line
    → Agree fuel line argc
unfolding count_args store_args
args-Agree zero argc line f a = absurd (omega arith)
args-Agree (suc fuel) argc line f a =
    let at =
      Start-AgreeAt fuel argc line (skip line) f
        (skip-Start NoBackslash count_escape store_escape NoBackslash-agree line a)
        (λ rest k. args-Agree fuel k rest) in
    record { more = at.more; counted = at.counted; stored = at.stored }

-- On a line without a backslash, the slots that the first pass counts are enough for all that the
-- second pass stores: `strsplit` hands out an array of arguments.
pub strsplit_plain :
    (line : Bytes) → All NoBackslash line → (args : List Arg) × (strsplit line ≡ argv args)
unfolding strsplit
strsplit_plain line a =
    let g = args-Agree (length line + 1) 0 line (omega arith) a in
    let (args, e) = g.stored (0 + g.more) [] (omega arith) in
    (args, ap (store_all line) g.counted ∙ e)
