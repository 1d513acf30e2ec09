-- ===== src/Gdb/Variables/Printed.antt =====
-- The lines that a variable is printed to.
use vimgdb.Base.{
  ℕ, zero, suc, ◌+◌, ◌≡◌, refl, ◌∙◌, sym, ap, subst, Bool, true, false, ◌&&◌, List, [], ◌∷◌, ◌++◌,
  Option, none, some, ◌==◌, if◌then◌else◌, arith, Bool-cases, inl, inr, append-nil, append_assoc,
}
use vimgdb.Common.Text.{Bytes, codes}
use vimgdb.Common.LineMap.Find.{items, items-add}
use vimgdb.Common.Page.{put, advance, put_line, mark, tag_on, tag_off}
use vimgdb.Common.Page.Lines.{
  newlines, IsLine, newlines-IsLine, part, IsPaged, put_line-IsPaged, IsBelow, IsBelow-later,
  mark-IsBelow,
}
use vimgdb.Gdb.Variables.{
  Info, Variable, variable, Children, no_child, child, Evaluates, Output, spaces, equation,
  fold_sign, row, update, print_row, end_group, print, print_childs,
}

-- gdb prints no newline into a value, and evaluates every variable.
abbrev pub IsAnswered : {G : Type 0} → Evaluates G → Type 0
IsAnswered {G} evaluate =
    (name : Bytes) (g : G) → (s : Bytes) × (((evaluate name g).0 ≡ some s) × IsLine s)

abbrev IsFlat : Info → Type 0
IsFlat i = IsLine i.exp × IsLine i.value

unfoldable mutual
  -- No name and no value holds a newline.
  pub IsPlain : Variable → Type 0
  IsPlain (variable i cs) = IsFlat i × ArePlain cs

  pub ArePlain : Children → Type 0
  ArePlain no_child = Unit
  ArePlain (child v cs) = IsPlain v × ArePlain cs

unfoldable mutual
  -- The variables that are visible, in the order of their lines.
  pub visible : Variable → List ℕ
  visible (variable i cs) = i.this ∷ (if i.childs_visible then all_visible cs else [])

  pub all_visible : Children → List ℕ
  all_visible no_child = []
  all_visible (child v cs) = visible v ++ all_visible cs

-- The next line is counted, at `n` or below; the variables `before` stand at rising lines above it.
pub record IsPrinted {G : Type 0} (n : ℕ) (before : List ℕ) (out : Output G) : Type 0 where
  pub paged : IsPaged n out.page
  pub placed : IsBelow out.line_map out.page.line
  pub registered : items out.line_map ≡ before

spaces-newlines : (n : ℕ) → newlines (spaces n) ≡ 0
unfolding spaces
spaces-newlines zero = refl
spaces-newlines (suc n) = omega (arith, spaces-newlines n)

equation-newlines : (i : Info) → IsFlat i → newlines (equation i) ≡ 0
unfolding equation
equation-newlines i f = elim (Bool-cases i.modified) [
  | inl e ↦ rw e (around (tag_on (codes "c")) (tag_off (codes "c")) refl refl)
  | inr e ↦ rw e (around [] [] refl refl)
]
  where
    around :
        (s t : Bytes)
        → newlines s ≡ 0
        → newlines t ≡ 0
        → newlines (s ++ i.exp ++ codes " = " ++ i.value ++ t) ≡ 0
    around s t h k =
        part (s ++ i.exp ++ codes " = " ++ i.value) t 0
          (part (s ++ i.exp ++ codes " = ") i.value 0
            (part (s ++ i.exp) (codes " = ") 0 (part s i.exp 0 h (newlines-IsLine i.exp f.0)) refl)
            (newlines-IsLine i.value f.1))
          k

row-newlines : (rec_lvl : ℕ) (i : Info) → IsFlat i → newlines (row rec_lvl i) ≡ 1
unfolding row
row-newlines rec_lvl i f =
    part (spaces rec_lvl ++ fold_sign i ++ codes " " ++ equation i) (10 ∷ []) 1
      (part (spaces rec_lvl ++ fold_sign i ++ codes " ") (equation i) 0
        (part (spaces rec_lvl ++ fold_sign i) (codes " ") 0
          (part (spaces rec_lvl) (fold_sign i) 0 (spaces-newlines rec_lvl) sign) refl)
        (equation-newlines i f))
      refl
  where
    sign : newlines (fold_sign i) ≡ 0
    sign = elim (Bool-cases (i.nchilds == 0)) [
      | inl e ↦ rw e refl
      | inr e ↦ rw e (elim (Bool-cases i.childs_visible) [ inl q ↦ rw q refl | inr q ↦ rw q refl ])
    ]

module _ {G : Type 0} (evaluate : Evaluates G) (answers : IsAnswered evaluate) where
  -- What `update` makes of a variable.
  record Updated (i : Info) (o : Option Info) : Type 0 where
    j : Info
    found : o ≡ some j
    same : j.this ≡ i.this
    kept : j.childs_visible ≡ i.childs_visible
    flat : IsFlat j

  update-Updated : (i : Info) (g : G) → IsFlat i → Updated i (update evaluate i g).0
  unfolding update
  update-Updated i g f = elim (Bool-cases (i.modified && i.inscope == b't')) [
    | inl e ↦
        let (s, (q, l)) = answers i.name g in
        rw (e, q)
          (record {
            j = record i { value = s };
            found = refl;
            same = refl;
            kept = refl;
            flat = (f.0, l);
          })
    | inr e ↦ rw e (record { j = i; found = refl; same = refl; kept = refl; flat = f })
  ]

  print_row-IsPrinted :
      (n rec_lvl : ℕ) (i : Info) (before : List ℕ) (out : Output G)
      → IsFlat i
      → IsPrinted n before out
      → IsPrinted n (before ++ i.this ∷ []) (print_row evaluate rec_lvl i out)
  unfolding print_row mark
  print_row-IsPrinted n rec_lvl i before out f h =
      let (p, q) = put_line-IsPaged n (row rec_lvl i) out.page (row-newlines rec_lvl i f) h.paged in
      record {
        paged = p;
        placed =
            mark-IsBelow out.page i.this out.line_map _ (unfold put_line advance put in omega arith)
              h.placed;
        registered =
            items-add out.line_map out.page.line i.this ∙ ap (λ l. l ++ i.this ∷ []) h.registered;
      }

  end_group-IsPrinted :
      (n rec_lvl : ℕ) (i : Info) (before : List ℕ) (out : Output G)
      → IsPrinted n before out
      → IsPrinted n before (end_group evaluate rec_lvl i out)
  unfolding end_group
  end_group-IsPrinted n rec_lvl i before out h =
      elim (Bool-cases (rec_lvl == 1 && i.childs_visible)) [
        | inl e ↦ rw e (record {
          paged = (put_line-IsPaged n (10 ∷ []) out.page refl h.paged).0;
          placed =
              IsBelow-later out.line_map out.page.line _
                (unfold put_line advance put in omega arith) h.placed;
          registered = h.registered;
        })
        | inr e ↦ rw e h
      ]

  -- What `print` returned and left.
  abbrev Done : ℕ → List ℕ → Bool × (Variable × Output G) → Type 0
  Done n before r = (r.0 ≡ true) × IsPrinted n before r.1.1

  picked-Done :
      (n : ℕ) (b c : Bool) (k m : ℕ) (tail before : List ℕ) (v w : Variable) (x y : Output G)
      → b ≡ c
      → k ≡ m
      → IsPrinted n (before ++ k ∷ [] ++ tail) x
      → IsPrinted n (before ++ k ∷ []) y
      → Done n
          (before ++ m ∷ (if c then tail else []))
          (if b then (true, (v, x)) else (true, (w, y)))
  picked-Done n true true k m tail before v w x y e q h g = (
    refl,
    subst (λ l. IsPrinted n l x)
        (append_assoc before (k ∷ []) tail ∙ ap (λ t. before ++ t ∷ tail) q) h,
  )
  picked-Done n true false k m tail before v w x y e q h g = absurd cc
  picked-Done n false true k m tail before v w x y e q h g = absurd cc
  picked-Done n false false k m tail before v w x y e q h g =
      (refl, subst (λ l. IsPrinted n l y) (ap (λ t. before ++ t ∷ []) q) g)

  mutual
    unfolding print print_childs IsPlain ArePlain visible all_visible

    print_lem :
        (rec_lvl : ℕ) (v : Variable) (n : ℕ) (before : List ℕ) (out : Output G)
        → IsPlain v
        → IsPrinted n before out
        → ((print evaluate rec_lvl v out).0 ≡ true)
          × IsPrinted n (before ++ visible v) (print evaluate rec_lvl v out).1.1
    print_lem rec_lvl (variable i cs) n before out p h =
        let u = update-Updated i out.gdb p.0 in
        let begun : Output G =
          print_row evaluate rec_lvl u.j (record out { gdb = (update evaluate i out.gdb).1 }) in
        let row_h : IsPrinted n (before ++ u.j.this ∷ []) begun =
          print_row-IsPrinted n rec_lvl u.j before
            (record out { gdb = (update evaluate i out.gdb).1 }) u.flat
            (record { paged = h.paged; placed = h.placed; registered = h.registered }) in
        let ended_h =
          print_childs_lem (rec_lvl + 1) cs n (before ++ u.j.this ∷ []) begun p.1 row_h in
        subst
          (λ (o : Option Info).
            Done n (before ++ i.this ∷ (if i.childs_visible then all_visible cs else []))
              (elim o as (λ _. Bool × (Variable × Output G)) [
                | none ↦
                    (false, (variable i cs, record out { gdb = (update evaluate i out.gdb).1 }))
                | some j ↦
                    let row_out =
                      print_row evaluate rec_lvl j
                        (record out { gdb = (update evaluate i out.gdb).1 }) in
                    let (ds, all_out) = print_childs evaluate (rec_lvl + 1) cs row_out in
                    if j.childs_visible
                    then (
                      true,
                      (
                        variable (record j { modified = false }) ds,
                        end_group evaluate rec_lvl j all_out,
                      ),
                    )
                    else (
                      true,
                      (
                        variable (record j { modified = false }) cs,
                        end_group evaluate rec_lvl j row_out,
                      ),
                    )
              ]))
          (sym u.found)
          (picked-Done n u.j.childs_visible i.childs_visible u.j.this i.this (all_visible cs) before
            (variable (record u.j { modified = false })
              (print_childs evaluate (rec_lvl + 1) cs begun).0)
            (variable (record u.j { modified = false }) cs) _ _ u.kept u.same
            (end_group-IsPrinted n rec_lvl u.j _ _ ended_h)
            (end_group-IsPrinted n rec_lvl u.j _ _ row_h))

    print_childs_lem :
        (rec_lvl : ℕ) (cs : Children) (n : ℕ) (before : List ℕ) (out : Output G)
        → ArePlain cs
        → IsPrinted n before out
        → IsPrinted n (before ++ all_visible cs) (print_childs evaluate rec_lvl cs out).1
    print_childs_lem rec_lvl no_child n before out p h =
        subst (λ l. IsPrinted n l out) (sym (append-nil before)) h
    print_childs_lem rec_lvl (child v cs) n before out p h =
        let first = (print_lem rec_lvl v n before out p.0 h).1 in
        subst
          (λ l.
            IsPrinted n l (print_childs evaluate rec_lvl cs (print evaluate rec_lvl v out).1.1).1)
          (append_assoc before (visible v) (all_visible cs))
          (print_childs_lem rec_lvl cs n (before ++ visible v) (print evaluate rec_lvl v out).1.1
            p.1 first)

  -- Where gdb evaluates each variable, `print` returns 0, and it prints the variable and its visible
  -- children, each registered at its own line, at rising lines above the next one; the number of the
  -- next line is that of the newlines, if no name and no value holds one.
  pub print-IsPrinted :
      (rec_lvl : ℕ) (v : Variable) (n : ℕ) (before : List ℕ) (out : Output G)
      → IsPlain v
      → IsPrinted n before out
      → ((print evaluate rec_lvl v out).0 ≡ true)
        × IsPrinted n (before ++ visible v) (print evaluate rec_lvl v out).1.1
  print-IsPrinted = print_lem
