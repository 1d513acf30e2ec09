-- ===== src/Tests/Variables.antt =====
-- A variable with two children, of which one is unfolded.
use vimgdb.Base.{ℕ, ◌+◌, ◌≡◌, refl, Bool, true, false, [], ◌∷◌, ◌++◌, some, arith}
use vimgdb.Common.Text.{codes}
use vimgdb.Common.Page.{blank, put}
use vimgdb.Common.Page.Lines.{IsLine, blank-IsNumbered}
use vimgdb.Gdb.Variables.{
  Info, Variable, variable, no_child, child, Evaluates, Output, equation, update, print_flat,
  print_row, end_group, print,
}
use vimgdb.Gdb.Variables.Printed.{IsAnswered, IsPlain, visible, IsPrinted, print-IsPrinted}

abbrev five : Evaluates ℕ
five name g = (some (codes "5"), g + 1)

five-IsAnswered : IsAnswered five
five-IsAnswered name g = (codes "5", (refl, ((λ e. cc), tt)))

abbrev info : ℕ → Bool → ℕ → Info
info this visible nchilds = record {
  this = this;
  name = codes "v";
  exp = codes "x";
  value = codes "0";
  inscope = b't';
  modified = true;
  childs_visible = visible;
  nchilds = nchilds;
}

abbrev tree : Variable
tree = variable (info 1 true 2) (
    child (variable (info 2 false 1) (child (variable (info 3 false 0) no_child) no_child))
      (child (variable (info 4 false 0) no_child) no_child))

abbrev start : Output ℕ
start = record { page = blank; line_map = []; gdb = 0 }

-- A variable that is not expanded, in the colour of a modified one.
flat_text : (print_flat five (info 4 false 0) start).1.page.obuf ≡ (194 ∷ 180 ∷ codes "cx = 5`c")
unfolding print_flat update equation blank put
flat_text = refl

-- The child that is hidden is not evaluated.
tree_gdb : (print five 1 tree start).1.1.gdb ≡ 3
unfolding print update print_row end_group
tree_gdb = refl

tree-IsPlain : IsPlain tree
unfolding IsPlain
tree-IsPlain = (plain, ((plain, ((plain, tt), tt)), ((plain, tt), tt)))
  where
    plain : IsLine (codes "x") × IsLine (codes "0")
    plain = (((λ e. cc), tt), ((λ e. cc), tt))

start-IsPrinted : IsPrinted 1 [] start
unfolding blank
start-IsPrinted = record {
  paged = record { numbered = blank-IsNumbered; behind = omega arith };
  placed = record { rising = tt; below = tt };
  registered = refl;
}

print-IsPrinted_example :
    ((print five 1 tree start).0 ≡ true)
    × IsPrinted 1 ([] ++ visible tree) (print five 1 tree start).1.1
print-IsPrinted_example =
    print-IsPrinted five five-IsAnswered 1 tree 1 [] start tree-IsPlain start-IsPrinted
