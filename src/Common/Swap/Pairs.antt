-- ===== src/Common/Swap/Pairs.antt =====
-- `strswap2` on a text of pairs.
use mathlib.Core.List.{reverse-cons, reverse-reverse}
use vimgdb.Base.{
  ℕ, suc, ◌+◌, ◌≡◌, refl, ◌∙◌, sym, ap, subst, List, [], ◌∷◌, ◌++◌, some, arith, length,
  length-append, get_or-append, append-nil, append_assoc, reverse,
}
use vimgdb.Common.Text.{Bytes, char_at}
use vimgdb.Common.Swap.{swap_loop, strswap2}

abbrev pub flat : List (ℕ × ℕ) → Bytes
flat [] = []
flat ((a, b) ∷ ps) = a ∷ b ∷ flat ps

-- The pairs of a list from its end.
abbrev back : List (ℕ × ℕ) → Bytes
back [] = []
back ((a, b) ∷ ps) = back ps ++ a ∷ b ∷ []

pub flat-append : (ps qs : List (ℕ × ℕ)) → flat (ps ++ qs) ≡ flat ps ++ flat qs
flat-append [] qs = refl
flat-append ((a, b) ∷ ps) qs = ap (λ t. a ∷ b ∷ t) (flat-append ps qs)

back-flat : (ps : List (ℕ × ℕ)) → back ps ≡ flat (reverse ps)
back-flat [] = refl
back-flat ((a, b) ∷ ps) =
    ap (λ t. t ++ a ∷ b ∷ []) (back-flat ps)
    ∙ sym (ap flat (reverse-cons (a, b) ps) ∙ flat-append (reverse ps) ((a, b) ∷ []))

back-reverse : (ps : List (ℕ × ℕ)) → back (reverse ps) ≡ flat ps
back-reverse ps = back-flat (reverse ps) ∙ ap flat (reverse-reverse ps)

second : (s rest : Bytes) (a b n : ℕ) → n ≡ length s + 1 → char_at (s ++ a ∷ b ∷ rest) n ≡ b
second s rest a b n e =
    ap (λ t. char_at t n) (sym (append_assoc s (a ∷ []) (b ∷ rest)))
    ∙ get_or-append (s ++ a ∷ []) b 0 rest n (omega (arith, length-append s (a ∷ [])))

swap_loop-back :
    (ps : List (ℕ × ℕ)) (rest t : Bytes)
    → swap_loop (length (back ps)) (back ps ++ rest) t ≡ some (t ++ flat ps)
unfolding swap_loop
swap_loop-back [] rest t = rw append-nil refl
swap_loop-back ((a, b) ∷ ps) rest t =
    let n = length (back ps) in
    let s' : Bytes = back ps ++ a ∷ b ∷ rest in
    let two : length (back ps ++ a ∷ b ∷ []) ≡ suc (suc n) =
      omega (arith, length-append (back ps) (a ∷ b ∷ [])) in
    ap (λ k. swap_loop k ((back ps ++ a ∷ b ∷ []) ++ rest) t) two
    ∙ ap (λ s. swap_loop (suc (suc n)) s t) (append_assoc (back ps) (a ∷ b ∷ []) rest)
    ∙ ap (λ x. swap_loop n s' (t ++ x ∷ char_at s' (n + 1) ∷ []))
        (get_or-append (back ps) a 0 (b ∷ rest) n refl)
    ∙ ap (λ y. swap_loop n s' (t ++ a ∷ y ∷ [])) (second (back ps) rest a b (n + 1) refl)
    ∙ swap_loop-back ps (a ∷ b ∷ rest) (t ++ a ∷ b ∷ [])
    ∙ ap some (append_assoc t (a ∷ b ∷ []) (flat ps))

-- A text of pairs is turned into the same pairs in the opposite order; the loop ends and reads
-- inside of the text only.
pub strswap2-flat : (ps : List (ℕ × ℕ)) → strswap2 (flat ps) ≡ some (flat (reverse ps))
unfolding strswap2
strswap2-flat ps =
    let r = reverse ps in
    subst (λ s. swap_loop (length s) s [] ≡ some (flat r)) (back-reverse ps)
      (ap (λ s. swap_loop (length (back r)) s []) (sym (append-nil (back r)))
        ∙ swap_loop-back r [] [])
