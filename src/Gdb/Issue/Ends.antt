-- ===== src/Gdb/Issue/Ends.antt =====
-- The loop over a format ends.
use vimgdb.Base.{
  ℕ, zero, suc, ◌+◌, ◌<◌, ◌≤◌, ◌≢◌, refl, Bool, true, false, List, [], ◌∷◌, ◌++◌, ◌==◌,
  if◌then◌else◌, length, drop, arith,
}
use vimgdb.Common.Text.{Bytes, codes, char_at}
use vimgdb.Gdb.Issue.{
  Digits, Param, number, string, array, Round, wrote, invalid, mistyped, put, put_param, put_text,
  put_long, put_signed, put_unsigned, put_array, put_string, starts, Params, params, refused,
  undefined, stuck, space, continue, put_all, issue_line,
}

-- What a round leaves of the format.
abbrev left : Round → Bytes
left (wrote t fmt args) = fmt
left invalid = []
left mistyped = []

record Leaves (n : ℕ) (r : Round) : Type 0 where
  shorter : length (left r) ≤ n

length-drop : (n : ℕ) (s : Bytes) → length (drop n s) ≤ length s
length-drop zero s = omega arith
length-drop (suc n) [] = omega arith
length-drop (suc n) (c ∷ s) = omega (arith, length-drop n s)

module _ (d : Digits) (n : ℕ) where
  put_signed-Leaves :
      (fmt : Bytes) (args : List Param) → length fmt ≤ n → Leaves n (put_signed d fmt args)
  unfolding put_signed
  put_signed-Leaves fmt [] h = record { shorter = omega arith }
  put_signed-Leaves fmt (number neg v ∷ args) h = record { shorter = omega arith }
  put_signed-Leaves fmt (string s ∷ args) h = record { shorter = omega arith }
  put_signed-Leaves fmt (array ss ∷ args) h = record { shorter = omega arith }

  put_unsigned-Leaves :
      (print : ℕ → Bytes) (fmt : Bytes) (args : List Param)
      → length fmt ≤ n
      → Leaves n (put_unsigned print fmt args)
  unfolding put_unsigned
  put_unsigned-Leaves print fmt [] h = record { shorter = omega arith }
  put_unsigned-Leaves print fmt (number true v ∷ args) h = record { shorter = omega arith }
  put_unsigned-Leaves print fmt (number false v ∷ args) h = record { shorter = omega arith }
  put_unsigned-Leaves print fmt (string s ∷ args) h = record { shorter = omega arith }
  put_unsigned-Leaves print fmt (array ss ∷ args) h = record { shorter = omega arith }

  put_array-Leaves :
      (mark fmt : Bytes) (args : List Param) → length fmt ≤ n → Leaves n (put_array mark fmt args)
  unfolding put_array
  put_array-Leaves mark fmt [] h = record { shorter = omega arith }
  put_array-Leaves mark fmt (number neg v ∷ args) h = record { shorter = omega arith }
  put_array-Leaves mark fmt (string s ∷ args) h = record { shorter = omega arith }
  put_array-Leaves mark fmt (array ss ∷ args) h = record { shorter = omega arith }

  put_string-Leaves :
      (fmt : Bytes) (args : List Param) → length fmt ≤ n → Leaves n (put_string fmt args)
  unfolding put_string
  put_string-Leaves fmt [] h = record { shorter = omega arith }
  put_string-Leaves fmt (number neg v ∷ args) h = record { shorter = omega arith }
  put_string-Leaves fmt (string s ∷ args) h = record { shorter = omega arith }
  put_string-Leaves fmt (array ss ∷ args) h = record { shorter = omega arith }

  none_left : Leaves n invalid
  none_left = record { shorter = omega arith }

  shorter_by : (k : ℕ) (fmt : Bytes) → length fmt ≤ n → length (drop k fmt) ≤ n
  shorter_by k fmt h = omega (arith, length-drop k fmt)

  -- A test chooses between two rounds.
  chosen-Leaves : (b : Bool) (x y : Round) → Leaves n x → Leaves n y → Leaves n (if b then x else y)
  chosen-Leaves true x y h k = h
  chosen-Leaves false x y h k = k

  put_long-Leaves :
      (fmt : Bytes) (args : List Param) → length fmt ≤ n → Leaves n (put_long d fmt args)
  unfolding put_long
  put_long-Leaves fmt args h =
      let k = shorter_by 1 fmt h in
      chosen-Leaves (char_at fmt 0 == b'd') _ _ (put_signed-Leaves _ args k) (
        chosen-Leaves (char_at fmt 0 == b'u') _ _ (put_unsigned-Leaves d.decimal _ args k) (
          chosen-Leaves (char_at fmt 0 == b'x') _ _ (put_unsigned-Leaves d.hexadecimal _ args k)
            none_left))

  put_text-Leaves :
      (fmt : Bytes) (args : List Param) → length fmt ≤ n → Leaves n (put_text fmt args)
  unfolding put_text
  put_text-Leaves fmt args h =
      chosen-Leaves (starts (codes "s %d") fmt) _ _
        (put_array-Leaves [] _ args (shorter_by 4 fmt h))
        (chosen-Leaves (starts (codes "sq %d") fmt) _ _
          (put_array-Leaves (b'"' ∷ []) _ args (shorter_by 5 fmt h)) (put_string-Leaves fmt args h))

  put_param-Leaves :
      (fmt : Bytes) (args : List Param) → length fmt ≤ n → Leaves n (put_param d fmt args)
  unfolding put_param
  put_param-Leaves fmt args h =
      let k = shorter_by 1 fmt h in
      chosen-Leaves (char_at fmt 0 == b'l') _ _ (put_long-Leaves _ args k) (
        chosen-Leaves (char_at fmt 0 == b'd') _ _ (put_signed-Leaves _ args k) (
          chosen-Leaves (char_at fmt 0 == b'u') _ _ (put_unsigned-Leaves d.decimal _ args k) (
            chosen-Leaves (char_at fmt 0 == b'x') _ _ (put_unsigned-Leaves d.hexadecimal _ args k)
              (chosen-Leaves (char_at fmt 0 == b's') _ _ (put_text-Leaves _ args k) none_left))))

  put-Leaves :
      (c : ℕ) (fmt : Bytes) (args : List Param) → length fmt ≤ n → Leaves n (put d c fmt args)
  unfolding put
  put-Leaves c fmt args h =
      chosen-Leaves (c == b'%') _ _ (put_param-Leaves fmt args h) (record { shorter = h })

continue-ends :
    (more : Bytes → List Param → Params) (n : ℕ) (r : Round)
    → Leaves n r
    → ((fmt : Bytes) (args : List Param) → length fmt ≤ n → more fmt args ≢ stuck)
    → continue more r ≢ stuck
unfolding continue
continue-ends more n invalid h k = λ e. cc
continue-ends more n mistyped h k = λ e. cc
continue-ends more n (wrote t fmt args) h k = ends (more fmt args) (k fmt args h.shorter)
  where
    ends :
        (p : Params)
        → p ≢ stuck
        → elim p as (λ _. Params) [
          | params u ↦ params (t ++ u)
          | refused ↦ refused
          | undefined ↦ undefined
          | stuck ↦ stuck
        ]
          ≢ stuck
    ends (params u) q e = cc
    ends refused q e = cc
    ends undefined q e = cc
    ends stuck q e = q refl

put_all-ends :
    (d : Digits) (fuel : ℕ) (fmt : Bytes) (args : List Param)
    → length fmt < fuel
    → put_all d fuel fmt args ≢ stuck
unfolding put_all
put_all-ends d zero fmt args h = absurd (omega arith)
put_all-ends d (suc fuel) [] args h = λ e. cc
put_all-ends d (suc fuel) (c ∷ fmt) args h =
    continue-ends (put_all d fuel) (length fmt) (put d c fmt args)
      (put-Leaves d (length fmt) c fmt args (omega arith))
      (λ f a k. put_all-ends d fuel f a (omega arith))

-- For every format and all arguments, the loop over the format ends within a round for each
-- character: it wrote the line, refused the format, or met an argument of another type.
pub issue_line-ends :
    (d : Digits) (token : ℕ) (cmd fmt : Bytes) (args : List Param)
    → issue_line d token cmd fmt args ≢ stuck
unfolding issue_line
issue_line-ends d token cmd fmt args =
    ends (put_all d (length fmt + 1) fmt args)
      (put_all-ends d (length fmt + 1) fmt args (omega arith))
  where
    ends :
        (p : Params)
        → p ≢ stuck
        → elim p as (λ _. Params) [
          | params t ↦ params (d.decimal token ++ b'-' ∷ cmd ++ space fmt ++ t ++ 10 ∷ [])
          | refused ↦ refused
          | undefined ↦ undefined
          | stuck ↦ stuck
        ]
          ≢ stuck
    ends (params u) q e = cc
    ends refused q e = cc
    ends undefined q e = cc
    ends stuck q e = q refl
