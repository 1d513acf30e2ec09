-- ===== src/Tests/Options.antt =====
-- Runs of `opt_parse` and of the output buffer.
use vimgdb.Base.{◌+◌, ◌^◌, ◌<◌, ◌≡◌, refl, true, List, [], ◌∷◌, ◌++◌, some, length, arith}
use vimgdb.Common.Text.{codes}
use vimgdb.Common.Split.{strsplit}
use vimgdb.Common.Opt.{
  done, stray, then_do, unseen, gdb_line, log_to, opt_loop, strip, gdb_command, last_of, but_last,
  finish, opt_parse,
}
use vimgdb.Common.Opt.Spelled.{Choice, with_gdb, with_log, spell, choose, opt_parse-spell}
use vimgdb.Common.Dynarray.{Dynarray, init, add}
use vimgdb.Common.Dynarray.Appends.{IsString, add-appends}

abbrev choices : List Choice
choices = with_gdb (codes "gdb -x y") ∷ with_log (codes "log") ∷ []

opt_parse_test :
    opt_parse true (codes "vimgdb" ∷ spell choices ++ codes "/w/" ∷ [])
    ≡ done (record {
      prg_name = codes "vimgdb";
      vim_cwd = codes "/w";
      log_file = some (codes "log");
      gdb_argv = codes "gdb" ∷ codes "-x" ∷ codes "y" ∷ codes "--interpreter=mi" ∷ codes "-q" ∷ [];
    })
unfolding opt_parse strip last_of but_last opt_loop gdb_line log_to gdb_command finish strsplit
opt_parse_test = refl

-- An empty command line for gdb: the array of the arguments is read where it has no element.
opt_parse-stray_test :
    opt_parse true (codes "vimgdb" ∷ spell (with_gdb [] ∷ []) ++ codes "/w" ∷ []) ≡ stray
unfolding opt_parse strip last_of but_last opt_loop gdb_line gdb_command finish strsplit
opt_parse-stray_test = refl

opt_parse-spell_example :
    opt_parse true (codes "vimgdb" ∷ spell choices ++ codes "/w/" ∷ [])
    ≡ then_do
        (strip (codes "/w/"))
        (λ cwd. then_do (choose true choices unseen) (finish (codes "vimgdb") cwd))
opt_parse-spell_example = opt_parse-spell true (codes "vimgdb") (codes "/w/") choices

init-IsString : IsString init
unfolding init
init-IsString = record { ends = refl; inside = omega arith; small = omega arith }

init_small : length init.s + length (codes "abc") < 2 ^ 31
unfolding init
init_small = omega arith

add-appends_example :
    (d' : Dynarray) × (add (codes "abc") init ≡ some (length (codes "abc"), d'))
    × IsString d'
    × (d'.s ≡ init.s ++ codes "abc")
add-appends_example = add-appends (codes "abc") init init-IsString init_small
