-- ===== src/Common/Opt/Spelled.antt =====
-- `opt_parse` against the options that a command line spells.
use vimgdb.Base.{◌≡◌, refl, ◌∙◌, ap, sym, Bool, List, [], ◌∷◌, ◌++◌}
use vimgdb.Common.Text.{Bytes, codes}
use vimgdb.Common.Opt.{
  Outcome, done, refused, stray, then_do, Seen, unseen, daemonise, gdb_line, log_to, opt_loop,
  strip, last_of, but_last, finish, opt_parse,
}

-- The options that the usage text names.
pub data Choice : Type 0 where
  as_daemon : Choice
  with_gdb : Bytes → Choice
  with_log : Bytes → Choice

abbrev pub spell : List Choice → List Bytes
spell [] = []
spell (as_daemon ∷ os) = codes "-d" ∷ spell os
spell (with_gdb line ∷ os) = codes "-c" ∷ line ∷ spell os
spell (with_log file ∷ os) = codes "-l" ∷ file ∷ spell os

-- The options take effect one after the other, until one fails.
abbrev pub choose : (daemon : Bool) → List Choice → Seen → Outcome Seen
choose daemon [] s = done s
choose daemon (as_daemon ∷ os) s = then_do (daemonise daemon s) (choose daemon os)
choose daemon (with_gdb line ∷ os) s = then_do (gdb_line line s) (choose daemon os)
choose daemon (with_log file ∷ os) s = then_do (log_to file s) (choose daemon os)

then_do-done : {A : Type 0} (r : Outcome A) → then_do r done ≡ r
unfolding then_do
then_do-done (done a) = refl
then_do-done refused = refl
then_do-done stray = refl

then_do_same :
    {A B : Type 0} (r : Outcome A) (f g : A → Outcome B)
    → ((a : A) → f a ≡ g a)
    → then_do r f ≡ then_do r g
unfolding then_do
then_do_same (done a) f g h = h a
then_do_same refused f g h = refl
then_do_same stray f g h = refl

opt_loop-spell :
    (daemon : Bool) (os : List Choice) (s : Seen)
    → opt_loop daemon (spell os) s ≡ choose daemon os s
unfolding opt_loop
opt_loop-spell daemon [] s = refl
opt_loop-spell daemon (as_daemon ∷ []) s = sym (then_do-done (daemonise daemon s))
opt_loop-spell daemon (as_daemon ∷ as_daemon ∷ os) s =
    then_do_same (daemonise daemon s) _ _ (opt_loop-spell daemon (as_daemon ∷ os))
opt_loop-spell daemon (as_daemon ∷ with_gdb line ∷ os) s =
    then_do_same (daemonise daemon s) _ _ (opt_loop-spell daemon (with_gdb line ∷ os))
opt_loop-spell daemon (as_daemon ∷ with_log file ∷ os) s =
    then_do_same (daemonise daemon s) _ _ (opt_loop-spell daemon (with_log file ∷ os))
opt_loop-spell daemon (with_gdb line ∷ os) s =
    then_do_same (gdb_line line s) _ _ (opt_loop-spell daemon os)
opt_loop-spell daemon (with_log file ∷ os) s =
    then_do_same (log_to file s) _ _ (opt_loop-spell daemon os)

-- What stands in front of the last argument.
last_of-append : (a b : Bytes) (args : List Bytes) → last_of a (args ++ b ∷ []) ≡ b
unfolding last_of
last_of-append a b [] = refl
last_of-append a b (c ∷ args) = last_of-append c b args

but_last-append : (a b : Bytes) (args : List Bytes) → but_last a (args ++ b ∷ []) ≡ a ∷ args
unfolding but_last
but_last-append a b [] = refl
but_last-append a b (c ∷ args) = ap (λ t. a ∷ t) (but_last-append c b args)

split_parse :
    (daemon : Bool) (prg cwd : Bytes) (args : List Bytes)
    → opt_parse daemon (prg ∷ args ++ cwd ∷ [])
      ≡ then_do (strip cwd) (λ cwd. then_do (opt_loop daemon args unseen) (finish prg cwd))
unfolding opt_parse last_of but_last
split_parse daemon prg cwd [] = refl
split_parse daemon prg cwd (a ∷ args) =
    rw (last_of-append a cwd args, but_last-append a cwd args) refl

-- A command line that spells options, with the working directory behind them, is parsed into what
-- the options say one after the other, and fails just where one of them or the directory fails.
pub opt_parse-spell :
    (daemon : Bool) (prg cwd : Bytes) (os : List Choice)
    → opt_parse daemon (prg ∷ spell os ++ cwd ∷ [])
      ≡ then_do (strip cwd) (λ cwd. then_do (choose daemon os unseen) (finish prg cwd))
opt_parse-spell daemon prg cwd os =
    split_parse daemon prg cwd (spell os)
    ∙ ap (λ r. then_do (strip cwd) (λ cwd. then_do r (finish prg cwd)))
        (opt_loop-spell daemon os unseen)
