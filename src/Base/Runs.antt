-- ===== src/Base/Runs.antt =====
-- Code that changes a state and may fail: `none` is a read through a null pointer, or a loop
-- without an end.
use mathlib.Core.Option.{Option, none, some}

abbrev pub Run : Type 0 → Type 0 → Type 0
Run S A = S → Option (A × S)

unfoldable pub pure : {S A : Type 0} → A → Run S A
pure a s = some (a, s)

unfoldable pub and_then : {S A B : Type 0} → Option (A × S) → (A → Run S B) → Option (B × S)
and_then none f = none
and_then (some (a, s)) f = f a s

infixl 5 ◌>>=◌ ◌>>◌
unfoldable pub ◌>>=◌ : {S A B : Type 0} → Run S A → (A → Run S B) → Run S B
unfolding and_then
◌>>=◌ m f s = and_then (m s) f

abbrev pub ◌>>◌ : {S A B : Type 0} → Run S A → Run S B → Run S B
m >> n = m >>= λ _. n

unfoldable pub gets : {S A : Type 0} → (S → A) → Run S A
gets f s = some (f s, s)

unfoldable pub modify : {S : Type 0} → (S → S) → Run S (Unit {0})
modify f s = some (tt, f s)

-- A read through null, or a loop without an end.
unfoldable pub crash : {S A : Type 0} → Run S A
crash s = none

-- A test for null.
unfoldable pub on : {S A B : Type 0} → Option B → Run S A → (B → Run S A) → Run S A
on none n f = n
on (some b) n f = f b

-- What holds of the state that a run leaves, if it returns.
abbrev pub Then : {S A : Type 0} → (S → Type 0) → Option (A × S) → Type 0
Then P none = Unit
Then P (some (a, s)) = P s

abbrev pub Stays : {S A : Type 0} → (S → Type 0) → Run S A → Type 0
Stays P m = (s : _) → P s → Then P (m s)

module _ {S A B : Type 0} (P Q : S → Type 0) where
  and_then-Then :
      (r : Option (A × S)) (f : A → Run S B)
      → Then P r
      → ((a : A) (s : S) → P s → Then Q (f a s))
      → Then Q (and_then r f)
  unfolding and_then
  and_then-Then none f h k = tt
  and_then-Then (some (a, s)) f h k = k a s h

  pub bind-Then :
      (m : Run S A) (f : A → Run S B) (s : S)
      → Then P (m s)
      → ((a : A) (s : S) → P s → Then Q (f a s))
      → Then Q ((m >>= f) s)
  unfolding ◌>>=◌
  bind-Then m f s h k = and_then-Then (m s) f h k

-- What holds of the result and of the state that a run leaves, if it returns.
abbrev pub Yields : {S A : Type 0} → (A → S → Type 0) → Option (A × S) → Type 0
Yields P none = Unit
Yields P (some (a, s)) = P a s

module _ {S A B : Type 0} (P : A → S → Type 0) (Q : B → S → Type 0) where
  and_then-Yields :
      (r : Option (A × S)) (f : A → Run S B)
      → Yields P r
      → ((a : A) (s : S) → P a s → Yields Q (f a s))
      → Yields Q (and_then r f)
  unfolding and_then
  and_then-Yields none f h k = tt
  and_then-Yields (some (a, s)) f h k = k a s h

  pub bind-Yields :
      (m : Run S A) (f : A → Run S B) (s : S)
      → Yields P (m s)
      → ((a : A) (s : S) → P a s → Yields Q (f a s))
      → Yields Q ((m >>= f) s)
  unfolding ◌>>=◌
  bind-Yields m f s h k = and_then-Yields (m s) f h k

-- A run that returns, and what holds of its result and of the state that it leaves.
abbrev pub Ends : {S A : Type 0} → (A → S → Type 0) → Option (A × S) → Type 0
Ends P none = ⊥
Ends P (some (a, s)) = P a s

module _ {S A B : Type 0} (P : A → S → Type 0) (Q : B → S → Type 0) where
  and_then-Ends :
      (r : Option (A × S)) (f : A → Run S B)
      → Ends P r
      → ((a : A) (s : S) → P a s → Ends Q (f a s))
      → Ends Q (and_then r f)
  unfolding and_then
  and_then-Ends none f h k = absurd h
  and_then-Ends (some (a, s)) f h k = k a s h

  pub bind-Ends :
      (m : Run S A) (f : A → Run S B) (s : S)
      → Ends P (m s)
      → ((a : A) (s : S) → P a s → Ends Q (f a s))
      → Ends Q ((m >>= f) s)
  unfolding ◌>>=◌
  bind-Ends m f s h k = and_then-Ends (m s) f h k

-- What follows from what holds at the end.
pub Ends-then :
    {S A : Type 0} (P Q : A → S → Type 0) (r : Option (A × S))
    → Ends P r
    → ((a : A) (s : S) → P a s → Q a s)
    → Ends Q r
Ends-then P Q none h k = h
Ends-then P Q (some (a, s)) h k = k a s h

-- A run on a part of a state.
unfoldable pub put_back : {S T A : Type 0} → (T → S) → Option (A × T) → Option (A × S)
put_back put none = none
put_back put (some (a, t)) = some (a, put t)

unfoldable pub within : {S T A : Type 0} → (S → T) → (S → T → S) → Run T A → Run S A
unfolding put_back
within get put m s = put_back (put s) (m (get s))

pub put_back-Ends :
    {S T A : Type 0} (P : A → T → Type 0) (Q : A → S → Type 0) (put : T → S) (r : Option (A × T))
    → Ends P r
    → ((a : A) (t : T) → P a t → Q a (put t))
    → Ends Q (put_back put r)
unfolding put_back
put_back-Ends P Q put none h k = h
put_back-Ends P Q put (some (a, t)) h k = k a t h
