-- ===== src/Base/Maps.antt =====
-- `std::map` as an association list, over a Boolean equality of keys.
use mathlib.Core.Path.{◌≡◌, refl}
use mathlib.Core.Logic.{◌↔◌, inl, inr}
use mathlib.Core.Bool.{Bool, true, false, ◌&&◌}
use mathlib.Core.Option.{Option, none, some}
use mathlib.Core.List.{List, [], ◌∷◌}
use native.Mathlib.Omega.{arith}
use Prim.Native.Nat.{ℕ}
use vimgdb.Base.Tests.{◌==◌, ==_iff, if◌then◌else◌, Bool-cases}

pub record Key {ℓ} (K : Type ℓ) : Type ℓ where
  pub same : K → K → Bool
  pub same_iff : (a b : K) → (same a b ≡ true) ↔ (a ≡ b)

instance abbrev pub nat_key : Key ℕ
nat_key = record { same = ◌==◌; same_iff = ==_iff }

abbrev pub bytes_same : List ℕ → List ℕ → Bool
bytes_same [] [] = true
bytes_same [] (b ∷ t) = false
bytes_same (a ∷ s) [] = false
bytes_same (a ∷ s) (b ∷ t) = a == b && bytes_same s t

pub bytes_same_iff : (a b : List ℕ) → (bytes_same a b ≡ true) ↔ (a ≡ b)
bytes_same_iff [] [] = (λ _. refl, λ _. refl)
bytes_same_iff [] (b ∷ t) = (λ h. cc, λ h. cc)
bytes_same_iff (a ∷ s) [] = (λ h. cc, λ h. cc)
bytes_same_iff (a ∷ s) (b ∷ t) = ground (arith, bytes_same_iff s t)

instance abbrev pub bytes_key : Key (List ℕ)
bytes_key = record { same = bytes_same; same_iff = bytes_same_iff }

module _ {ℓ κ} {K : Type ℓ} {V : Type κ} ⦃e : Key K⦄ where
  -- `map.find(k)`, with `none` for `map.end()`.
  abbrev pub lookup : K → List (K × V) → Option V
  lookup k [] = none
  lookup k ((j, v) ∷ m) = if e.same j k then some v else lookup k m

  -- `map[k] = v`
  abbrev pub insert : K → V → List (K × V) → List (K × V)
  insert k v [] = (k, v) ∷ []
  insert k v ((j, w) ∷ m) = if e.same j k then (k, v) ∷ m else (j, w) ∷ insert k v m

  -- `map.erase(k)`
  abbrev pub erase : K → List (K × V) → List (K × V)
  erase k [] = []
  erase k ((j, w) ∷ m) = if e.same j k then erase k m else (j, w) ∷ erase k m

  pub lookup-insert :
      (k j : K) (v : V) (m : List (K × V))
      → lookup j (insert k v m) ≡ (if e.same k j then some v else lookup j m)
  lookup-insert k j v [] = refl
  lookup-insert k j v ((i, w) ∷ m) = elim (Bool-cases (e.same i k)) [
    | inl h ↦ rw (h, (e.same_iff i k).0 h) (ground arith)
    | inr h ↦
        rw (h, lookup-insert k j v m)
          (ground (arith, e.same_iff i j, e.same_iff k j, e.same_iff i k))
  ]

  pub lookup-erase :
      (k j : K) (m : List (K × V))
      → lookup j (erase k m) ≡ (if e.same k j then none else lookup j m)
  lookup-erase k j [] = ground arith
  lookup-erase k j ((i, w) ∷ m) = elim (Bool-cases (e.same i k)) [
    | inl h ↦ rw (h, lookup-erase k j m, (e.same_iff i k).0 h) (ground arith)
    | inr h ↦
        rw (h, lookup-erase k j m) (ground (arith, e.same_iff i j, e.same_iff k j, e.same_iff i k))
  ]

pub same_self {ℓ} : {K : Type ℓ} ⦃e : Key K⦄ (k : K) → e.same k k ≡ true
same_self ⦃e⦄ k = (e.same_iff k k).1 refl
