-- ===== src/Gdb/Issue/Spelled.antt =====
-- A format and its arguments against what they spell.
use vimgdb.Base.{
  ℕ, zero, suc, ◌+◌, ◌<◌, ◌≡◌, ◌≢◌, refl, Bool, false, List, [], ◌∷◌, ◌++◌, length, arith,
}
use vimgdb.Common.Text.{Bytes, codes}
use vimgdb.Gdb.Issue.{
  Digits, Param, number, string, array, Round, wrote, starts, join, signed, put, Params, params,
  continue, put_all, space, issue_line,
}

-- A piece of a format with its argument.
pub data Item : Type 0 where
  literal : ℕ → Item
  dec long_dec : Bool → ℕ → Item
  uns long_uns hex long_hex : ℕ → Item
  text : Bytes → Item
  words quoted : List Bytes → Item

abbrev pub spell : List Item → Bytes
spell [] = []
spell (literal c ∷ is) = c ∷ spell is
spell (dec neg v ∷ is) = codes "%d" ++ spell is
spell (long_dec neg v ∷ is) = codes "%ld" ++ spell is
spell (uns v ∷ is) = codes "%u" ++ spell is
spell (long_uns v ∷ is) = codes "%lu" ++ spell is
spell (hex v ∷ is) = codes "%x" ++ spell is
spell (long_hex v ∷ is) = codes "%lx" ++ spell is
spell (text s ∷ is) = codes "%s" ++ spell is
spell (words ss ∷ is) = codes "%ss %d" ++ spell is
spell (quoted ss ∷ is) = codes "%ssq %d" ++ spell is

abbrev pub arguments : List Item → List Param
arguments [] = []
arguments (literal c ∷ is) = arguments is
arguments (dec neg v ∷ is) = number neg v ∷ arguments is
arguments (long_dec neg v ∷ is) = number neg v ∷ arguments is
arguments (uns v ∷ is) = number false v ∷ arguments is
arguments (long_uns v ∷ is) = number false v ∷ arguments is
arguments (hex v ∷ is) = number false v ∷ arguments is
arguments (long_hex v ∷ is) = number false v ∷ arguments is
arguments (text s ∷ is) = string s ∷ arguments is
arguments (words ss ∷ is) = array ss ∷ arguments is
arguments (quoted ss ∷ is) = array ss ∷ arguments is

-- What an item stands for.
abbrev pub meaning : Digits → Item → Bytes
meaning d (literal c) = c ∷ []
meaning d (dec neg v) = signed d neg v
meaning d (long_dec neg v) = signed d neg v
meaning d (uns v) = d.decimal v
meaning d (long_uns v) = d.decimal v
meaning d (hex v) = d.hexadecimal v
meaning d (long_hex v) = d.hexadecimal v
meaning d (text s) = s
meaning d (words ss) = join [] ss
meaning d (quoted ss) = join (b'"' ∷ []) ss

abbrev pub meanings : Digits → List Item → Bytes
meanings d [] = []
meanings d (i ∷ is) = meaning d i ++ meanings d is

-- No literal is a percent sign, and no string is followed by what would make it an array.
abbrev pub IsClear : List Item → Type 0
IsClear [] = Unit
IsClear (literal c ∷ is) = (c ≢ b'%') × IsClear is
IsClear (text s ∷ is) =
    (starts (codes "s %d") (spell is) ≡ false)
    × (starts (codes "sq %d") (spell is) ≡ false)
    × IsClear is
IsClear (_ ∷ is) = IsClear is

continue-params :
    (more : Bytes → List Param → Params) (r : Round) (t u fmt : Bytes) (args : List Param)
    → r ≡ wrote t fmt args
    → more fmt args ≡ params u
    → continue more r ≡ params (t ++ u)
unfolding continue
continue-params more r t u fmt args e h = rw (e, continue, h) refl

put_all-spell :
    (d : Digits) (fuel : ℕ) (is : List Item)
    → length (spell is) < fuel
    → IsClear is
    → put_all d fuel (spell is) (arguments is) ≡ params (meanings d is)
unfolding put_all put
put_all-spell d zero is h c = absurd (omega arith)
put_all-spell d (suc fuel) [] h c = refl
put_all-spell d (suc fuel) (literal x ∷ is) h (ne, c) =
    continue-params (put_all d fuel) _ (x ∷ []) _ (spell is) (arguments is)
      (ground (arith, λ (e : x ≡ b'%'). ne e)) (put_all-spell d fuel is (omega arith) c)
put_all-spell d (suc fuel) (dec neg v ∷ is) h c =
    continue-params (put_all d fuel) _ _ _ (spell is) (arguments is) refl
      (put_all-spell d fuel is (omega arith) c)
put_all-spell d (suc fuel) (text s ∷ is) h (a, b, c) =
    continue-params (put_all d fuel) _ _ _ (spell is) (arguments is) (rw (a, b) refl)
      (put_all-spell d fuel is (omega arith) c)
put_all-spell d (suc fuel) (words ss ∷ is) h c =
    continue-params (put_all d fuel) _ _ _ (spell is) (arguments is) refl
      (put_all-spell d fuel is (omega arith) c)
put_all-spell d (suc fuel) (long_dec neg v ∷ is) h c =
    continue-params (put_all d fuel) _ _ _ (spell is) (arguments is) refl
      (put_all-spell d fuel is (omega arith) c)
put_all-spell d (suc fuel) (uns v ∷ is) h c =
    continue-params (put_all d fuel) _ _ _ (spell is) (arguments is) refl
      (put_all-spell d fuel is (omega arith) c)
put_all-spell d (suc fuel) (long_uns v ∷ is) h c =
    continue-params (put_all d fuel) _ _ _ (spell is) (arguments is) refl
      (put_all-spell d fuel is (omega arith) c)
put_all-spell d (suc fuel) (hex v ∷ is) h c =
    continue-params (put_all d fuel) _ _ _ (spell is) (arguments is) refl
      (put_all-spell d fuel is (omega arith) c)
put_all-spell d (suc fuel) (long_hex v ∷ is) h c =
    continue-params (put_all d fuel) _ _ _ (spell is) (arguments is) refl
      (put_all-spell d fuel is (omega arith) c)
put_all-spell d (suc fuel) (quoted ss ∷ is) h c =
    continue-params (put_all d fuel) _ _ _ (spell is) (arguments is) refl
      (put_all-spell d fuel is (omega arith) c)

-- For every list of pieces that no neighbour distorts, the line that is issued for their format
-- and their arguments is the token, the command and what the pieces stand for, and a newline.
pub issue_line-spell :
    (d : Digits) (token : ℕ) (cmd : Bytes) (is : List Item)
    → IsClear is
    → issue_line d token cmd (spell is) (arguments is)
      ≡ params (d.decimal token ++ b'-' ∷ cmd ++ space (spell is) ++ meanings d is ++ 10 ∷ [])
unfolding issue_line
issue_line-spell d token cmd is c =
    rw (issue_line, put_all-spell d (length (spell is) + 1) is (omega arith) c) refl
