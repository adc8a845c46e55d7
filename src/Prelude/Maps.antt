-- ===== src/Prelude/Maps.antt =====
-- Go's maps as association lists, and sets of keys as lists of distinct keys.
use mathlib.Core.Path.{◌≡◌, refl}
use mathlib.Core.Bool.{Bool, false, ◌||◌}
use mathlib.Core.List.{List, [], ◌∷◌, ◌++◌}
use mathlib.Core.Option.{Option, none, some}
use native.Mathlib.Omega.{arith}
use gotst.Prelude.Tests.{if◌then◌else◌}
use gotst.Prelude.Equality.{Eq, ◌==◌}

module _ {ℓ} {K : Type ℓ} ⦃e : Eq K⦄ where
  unfoldable pub contains : List K → K → Bool
  contains [] k = false
  contains (j ∷ js) k = (j == k) || contains js k

  -- `delete(m, k)` on the keys of a map.
  unfoldable pub delete : K → List K → List K
  delete k [] = []
  delete k (j ∷ js) = let rest = delete k js in if j == k then rest else j ∷ rest

  pub contains-append :
      (xs ys : List K) (k : K) → contains (xs ++ ys) k ≡ (contains xs k || contains ys k)
  unfolding contains
  contains-append [] ys k = refl
  contains-append (x ∷ xs) ys k = ground (arith, contains-append xs ys k)

  pub contains-delete :
      (k j : K) (xs : List K) → contains (delete k xs) j ≡ (if k == j then false else contains xs j)
  unfolding contains delete
  contains-delete k j [] = ground arith
  contains-delete k j (x ∷ xs) =
      ground (arith, contains-delete k j xs, e.beq_iff x k, e.beq_iff x j, e.beq_iff k j)

module _ {ℓ κ} {K : Type ℓ} ⦃e : Eq K⦄ {V : Type κ} where
  unfoldable pub lookup : K → List (K × V) → Option V
  lookup key [] = none
  lookup key ((k, v) ∷ rest) = if k == key then some v else lookup key rest

  -- `m[k] = v`.
  unfoldable pub insert : K → V → List (K × V) → List (K × V)
  insert key v [] = (key, v) ∷ []
  insert key v ((k, old) ∷ rest) =
      if k == key then (key, v) ∷ rest else (k, old) ∷ insert key v rest

  pub lookup-insert :
      (key other : K) (v : V) (entries : List (K × V))
      → lookup other (insert key v entries)
        ≡ (if key == other then some v else lookup other entries)
  unfolding lookup insert
  lookup-insert key other v [] = refl
  lookup-insert key other v ((k, old) ∷ rest) = ground (
    arith,
    lookup-insert key other v rest,
    e.beq_iff key other,
    e.beq_iff k key,
    e.beq_iff k other,
  )

  -- `delete(m, k)` on a map.
  unfoldable pub erase : K → List (K × V) → List (K × V)
  erase key [] = []
  erase key ((k, v) ∷ entries) =
      let rest = erase key entries in if k == key then rest else (k, v) ∷ rest

  pub lookup-erase :
      (key other : K) (entries : List (K × V))
      → lookup other (erase key entries) ≡ (if key == other then none else lookup other entries)
  unfolding lookup erase
  lookup-erase key other [] = ground arith
  lookup-erase key other ((k, v) ∷ rest) =
      ground (
        arith,
        lookup-erase key other rest,
        e.beq_iff key other,
        e.beq_iff k key,
        e.beq_iff k other,
      )
