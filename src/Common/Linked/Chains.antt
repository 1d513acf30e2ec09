-- ===== src/Common/Linked/Chains.antt =====
-- The two chains of links.
use vimgdb.Base.{
  ℕ, ◌≡◌, ◌≢◌, refl, ◌∙◌, sym, subst, List, [], ◌∷◌, ◌++◌, Option, none, some, ◌==◌, ==_iff, All,
  All-append, Bool-cases, inl, inr,
}
use vimgdb.Common.Linked.{store}

pub store_here {ℓ} : {A : Type ℓ} (k : ℕ) (v : A) (f : ℕ → A) → store k v f k ≡ v
unfolding store
store_here k v f = rw ((==_iff k k).1 refl) refl

pub store_other {ℓ} : {A : Type ℓ} (k n : ℕ) (v : A) (f : ℕ → A) → n ≢ k → store k v f n ≡ f n
unfolding store
store_other k n v f h = elim (Bool-cases (n == k)) [
  | inl e ↦ absurd (h ((==_iff n k).0 e))
  | inr e ↦ rw e refl
]

-- From `p` on, `next` runs through the nodes, up to null.
abbrev pub Forth : (ℕ → Option ℕ) → Option ℕ → List ℕ → Type 0
Forth next p [] = p ≡ none
Forth next p (x ∷ xs) = (p ≡ some x) × Forth next (next x) xs

-- `prev` of the first node is `q`, and `prev` of any other one is the node before.
abbrev pub Back : (ℕ → ℕ) → ℕ → List ℕ → Type 0
Back prev q [] = Unit
Back prev q (x ∷ xs) = (prev x ≡ q) × Back prev x xs

-- The last node, or `d`.
abbrev pub last_of : ℕ → List ℕ → ℕ
last_of d [] = d
last_of d (x ∷ xs) = last_of x xs

abbrev pub Away : ℕ → List ℕ → Type 0
Away k = All (λ x. x ≢ k)

abbrev pub Distinct : List ℕ → Type 0
Distinct [] = Unit
Distinct (x ∷ xs) = Away x xs × Distinct xs

pub Forth-store :
    (k : ℕ) (v : Option ℕ) (next : ℕ → Option ℕ) (p : Option ℕ) (xs : List ℕ)
    → Away k xs
    → Forth next p xs
    → Forth (store k v next) p xs
Forth-store k v next p [] a f = f
Forth-store k v next p (x ∷ xs) a f = (
  f.0,
  subst (λ q. Forth (store k v next) q xs) (sym (store_other k x v next a.0))
      (Forth-store k v next (next x) xs a.1 f.1),
)

pub Back-store :
    (k v : ℕ) (prev : ℕ → ℕ) (q : ℕ) (xs : List ℕ)
    → Away k xs
    → Back prev q xs
    → Back (store k v prev) q xs
Back-store k v prev q [] a b = tt
Back-store k v prev q (x ∷ xs) a b =
    (store_other k x v prev a.0 ∙ b.0, Back-store k v prev x xs a.1 b.1)

pub last_of-Away : (k x : ℕ) (xs : List ℕ) → x ≢ k → Away k xs → last_of x xs ≢ k
last_of-Away k x [] h a = h
last_of-Away k x (y ∷ xs) h a = last_of-Away k y xs a.0 a.1

pub last_of-append : (d y : ℕ) (xs ys : List ℕ) → last_of d (xs ++ y ∷ ys) ≡ last_of y ys
last_of-append d y [] ys = refl
last_of-append d y (x ∷ xs) ys = last_of-append x y xs ys

-- With the last node of a part redirected, the part is followed by what the new link leads to.
pub Forth-splice :
    (v : Option ℕ) (next : ℕ → Option ℕ) (p : Option ℕ) (x : ℕ) (xs old new : List ℕ)
    → Distinct (x ∷ xs)
    → Away (last_of x xs) new
    → Forth next p (x ∷ xs ++ old)
    → Forth next v new
    → Forth (store (last_of x xs) v next) p (x ∷ xs ++ new)
Forth-splice v next p x [] old new d a f n = (
  f.0,
  subst (λ q. Forth (store x v next) q new) (sym (store_here x v next))
      (Forth-store x v next v new a n),
)
Forth-splice v next p x (y ∷ xs) old new d a f n = (
  f.0,
  subst (λ q. Forth (store (last_of y xs) v next) q (y ∷ xs ++ new))
      (sym (store_other (last_of y xs) x v next (λ e. last_of-Away x y xs d.0.0 d.0.1 (sym e))))
      (Forth-splice v next (next x) y xs old new d.1 a f.1 n),
)

pub Back-append :
    (prev : ℕ → ℕ) (q : ℕ) (xs ys : List ℕ)
    → Back prev q xs
    → Back prev (last_of q xs) ys
    → Back prev q (xs ++ ys)
Back-append prev q [] ys b c = c
Back-append prev q (x ∷ xs) ys b c = (b.0, Back-append prev x xs ys b.1 c)

pub Back-split :
    (prev : ℕ → ℕ) (q : ℕ) (xs ys : List ℕ)
    → Back prev q (xs ++ ys)
    → Back prev q xs × Back prev (last_of q xs) ys
Back-split prev q [] ys b = (tt, b)
Back-split prev q (x ∷ xs) ys b = let (c, d) = Back-split prev x xs ys b.1 in ((b.0, c), d)

pub Forth-tail :
    (next : ℕ → Option ℕ) (p : Option ℕ) (xs : List ℕ) (e : ℕ) (ys : List ℕ)
    → Forth next p (xs ++ e ∷ ys)
    → Forth next (next e) ys
Forth-tail next p [] e ys f = f.1
Forth-tail next p (x ∷ xs) e ys f = Forth-tail next (next x) xs e ys f.1

module _ {ℓ} (P : ℕ → Type ℓ) where
  pub All-at : (xs : List ℕ) (e : ℕ) (ys : List ℕ) → All P (xs ++ e ∷ ys) → P e
  All-at [] e ys a = a.0
  All-at (x ∷ xs) e ys a = All-at xs e ys a.1

  pub All-front : (xs ys : List ℕ) → All P (xs ++ ys) → All P xs
  All-front [] ys a = tt
  All-front (x ∷ xs) ys a = (a.0, All-front xs ys a.1)

pub Distinct-append : (xs : List ℕ) (k : ℕ) → Distinct xs → Away k xs → Distinct (xs ++ k ∷ [])
Distinct-append [] k d a = (tt, tt)
Distinct-append (x ∷ xs) k d a =
    (All-append (λ y. y ≢ x) xs (k ∷ []) d.0 ((λ e. a.0 (sym e)), tt), Distinct-append xs k d.1 a.1)

pub Distinct-without :
    (pre : List ℕ) (e : ℕ) (post : List ℕ) → Distinct (pre ++ e ∷ post) → Distinct (pre ++ post)
Distinct-without [] e post d = d.1
Distinct-without (x ∷ pre) e post d = (without pre d.0, Distinct-without pre e post d.1)
  where
    without : (pre : List ℕ) → Away x (pre ++ e ∷ post) → Away x (pre ++ post)
    without [] a = a.1
    without (y ∷ pre) a = (a.0, without pre a.1)

pub Distinct-front : (xs ys : List ℕ) → Distinct (xs ++ ys) → Distinct xs
Distinct-front [] ys d = tt
Distinct-front (x ∷ xs) ys d = (All-front (λ y. y ≢ x) xs ys d.0, Distinct-front xs ys d.1)

pub Distinct-behind : (xs ys : List ℕ) → Distinct (xs ++ ys) → Distinct ys
Distinct-behind [] ys d = d
Distinct-behind (x ∷ xs) ys d = Distinct-behind xs ys d.1

pub last_of-Distinct : (x : ℕ) (xs ys : List ℕ) → Distinct (x ∷ xs ++ ys) → Away (last_of x xs) ys
last_of-Distinct x [] ys d = d.0
last_of-Distinct x (y ∷ xs) ys d = last_of-Distinct y xs ys d.1

pub Away-Distinct : (xs : List ℕ) (y : ℕ) (ys : List ℕ) → Distinct (xs ++ y ∷ ys) → Away y xs
Away-Distinct [] y ys d = tt
Away-Distinct (x ∷ xs) y ys d =
    ((λ e. All-at (λ z. z ≢ x) xs y ys d.0 (sym e)), Away-Distinct xs y ys d.1)
