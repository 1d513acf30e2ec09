-- ===== src/Gdb/Variables.antt =====
-- Variables of gdb (gdb/variable.cc): how a variable and its children are updated and printed.
pub mod Printed
use vimgdb.Base.{
  ℕ, zero, suc, ◌+◌, Bool, true, false, ◌&&◌, List, [], ◌∷◌, ◌++◌, Option, none, some, ◌==◌,
  if◌then◌else◌,
}
use vimgdb.Common.Text.{Bytes, codes}
use vimgdb.Common.LineMap.{Entry}
use vimgdb.Common.Page.{Page, put, put_line, mark, tag_on, tag_off}

-- The members of `gdb_variable_t` that are printed, and its pointer.
pub record Info : Type 0 where
  pub this : ℕ
  pub name : Bytes
  pub exp : Bytes
  pub value : Bytes
  pub inscope : ℕ
  pub modified : Bool
  pub childs_visible : Bool
  pub nchilds : ℕ

mutual
  -- A variable with its `childs`.
  pub data Variable : Type 0 where
    variable : Info → Children → Variable

  pub data Children : Type 0 where
    no_child : Children
    child : Variable → Children → Children

-- gdb's answer to `var-evaluate-expression`.
abbrev pub Evaluates : Type 0 → Type 0
Evaluates G = Bytes → G → Option Bytes × G

-- The arguments that `print` writes to, and gdb.
pub record Output (G : Type 0) : Type 0 where
  pub page : Page
  pub line_map : List (Entry ℕ)
  pub gdb : G

unfoldable pub spaces : ℕ → Bytes
spaces zero = []
spaces (suc n) = 32 ∷ spaces n

-- `exp = value`, in a colour if it was modified.
unfoldable pub equation : Info → Bytes
equation i =
    (if i.modified then tag_on (codes "c") else [])
    ++ i.exp
    ++ codes " = "
    ++ i.value
    ++ (if i.modified then tag_off (codes "c") else [])

-- `(nchilds == 0 ? "   " : (childs_visible ? "[-]" : "[+]"))`
abbrev pub fold_sign : Info → Bytes
fold_sign i =
    if i.nchilds == 0 then codes "   " else if i.childs_visible then codes "[-]" else codes "[+]"

-- The line of a variable.
unfoldable pub row : ℕ → Info → Bytes
row rec_lvl i = spaces rec_lvl ++ fold_sign i ++ codes " " ++ equation i ++ 10 ∷ []

module _ {G : Type 0} (evaluate : Evaluates G) where
  -- `update`; the result is `none` where it returns -1.
  unfoldable pub update : Info → G → Option Info × G
  update i g =
      if i.modified && i.inscope == b't'
      then (let (s, g) = evaluate i.name g in
          (elim s [ none ↦ none | some s ↦ some (record i { value = s }) ], g))
      else (some i, g)

  -- `print` of a variable that is not expanded.
  unfoldable pub print_flat : Info → Output G → Option Info × Output G
  print_flat i out =
      let (o, g) = update i out.gdb in
      elim o [
        | none ↦ (none, record out { gdb = g })
        | some j ↦ (
          some (record j { modified = false }),
          record out { page = put (equation j) out.page; gdb = g },
        )
      ]

  -- The line of a variable, and its entry in the line map.
  unfoldable pub print_row : ℕ → Info → Output G → Output G
  print_row rec_lvl i out = record out {
    page = put_line (row rec_lvl i) out.page;
    line_map = mark out.page i.this out.line_map;
  }

  -- `if(rec_lvl == 1 && childs_visible)`
  unfoldable pub end_group : ℕ → Info → Output G → Output G
  end_group rec_lvl i out =
      if rec_lvl == 1 && i.childs_visible
      then record out { page = put_line (10 ∷ []) out.page }
      else out

  unfoldable mutual
    -- `print` of a variable that is expanded: whether it returned 0, and what was changed.
    pub print : ℕ → Variable → Output G → Bool × (Variable × Output G)
    print rec_lvl (variable i cs) out =
        let (o, g) = update i out.gdb in
        elim o [
          | none ↦ (false, (variable i cs, record out { gdb = g }))
          | some j ↦
              let begun = print_row rec_lvl j (record out { gdb = g }) in
              let (ds, ended) = print_childs (rec_lvl + 1) cs begun in
              if j.childs_visible
              then (true, (variable (record j { modified = false }) ds, end_group rec_lvl j ended))
              else (true, (variable (record j { modified = false }) cs, end_group rec_lvl j begun))
        ]

    -- `for(it=childs.begin(); it!=childs.end(); it++)`: what a child returns is left out.
    pub print_childs : ℕ → Children → Output G → Children × Output G
    print_childs rec_lvl no_child out = (no_child, out)
    print_childs rec_lvl (child v cs) out =
        let (ok, (w, first)) = print rec_lvl v out in
        let (ds, rest) = print_childs rec_lvl cs first in (child w ds, rest)
