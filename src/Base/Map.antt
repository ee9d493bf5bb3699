-- ===== src/Base/Map.antt =====
-- `HashMap` and `DashMap` as association lists. The order of the list is the order in which the
-- source iterates; no statement rests on a particular order.
use mathlib.Core.Path.{◌≡◌, refl}
use mathlib.Core.Logic.{inl, inr}
use mathlib.Core.Bool.{Bool, true, false}
use mathlib.Core.Option.{Option, none, some}
use mathlib.Core.List.{List, [], ◌∷◌}
use native.Mathlib.Omega.{arith}
use crabstash.Base.Tests.{Eq, ◌==◌, if◌then◌else◌, Bool-cases}
use crabstash.Base.Lists.{all}

abbrev pub Map {ℓ κ} : Type ℓ → Type κ → Type (ℓ ⊔ κ)
Map K V = List (K × V)

module _ {ℓ κ} {K : Type ℓ} {V : Type κ} ⦃e : Eq K⦄ where
  unfoldable pub get : K → Map K V → Option V
  get k [] = none
  get k ((j, v) ∷ m) = if j == k then some v else get k m

  unfoldable pub contains_key : K → Map K V → Bool
  contains_key k m = elim (get k m) [ none ↦ false | some v ↦ true ]

  unfoldable pub remove : K → Map K V → Map K V
  remove k [] = []
  remove k ((j, v) ∷ m) = let rest = remove k m in if j == k then rest else (j, v) ∷ rest

  -- The old value, if any, is replaced.
  unfoldable pub insert : K → V → Map K V → Map K V
  insert k v m = (k, v) ∷ remove k m

  pub get-remove : (k j : K) (m : Map K V) → get j (remove k m) ≡ (if k == j then none else get j m)
  unfolding get remove
  get-remove k j [] = ground arith
  get-remove k j ((i, v) ∷ m) =
      ground (arith, get-remove k j m, e.beq_iff i k, e.beq_iff i j, e.beq_iff k j)

  pub get-insert :
      (k j : K) (v : V) (m : Map K V) → get j (insert k v m) ≡ (if k == j then some v else get j m)
  unfolding get insert
  get-insert k j v m = ground (arith, get-remove k j m, e.beq_iff k j)

  pub get-insert_self : (k : K) (v : V) (m : Map K V) → get k (insert k v m) ≡ some v
  get-insert_self k v m = ground (arith, get-insert k k v m, e.beq_iff k k)

  -- What holds of every entry holds of the entry that a key leads to.
  pub get-all :
      (p : K × V → Bool) (m : Map K V) (k : K) (v : V)
      → all p m ≡ true
      → get k m ≡ some v
      → p (k, v) ≡ true
  unfolding get all
  get-all p [] k v h g = ground arith
  get-all p ((j, w) ∷ m) k v h g = ground (arith, e.beq_iff j k, get-all p m k v)

  -- No key stands twice.
  abbrev pub Distinct : Map K V → Type κ
  Distinct [] = Unit
  Distinct ((k, v) ∷ m) = (get k m ≡ none) × Distinct m

  pub get-remove_self : (k : K) (m : Map K V) → get k (remove k m) ≡ none
  get-remove_self k m = ground (arith, get-remove k k m, e.beq_iff k k)

  pub get-remove-none : (k j : K) (m : Map K V) → get j m ≡ none → get j (remove k m) ≡ none
  get-remove-none k j m h = ground (arith, get-remove k j m)

  pub remove-Distinct : (k : K) (m : Map K V) → Distinct m → Distinct (remove k m)
  unfolding remove
  remove-Distinct k [] d = tt
  remove-Distinct k ((j, v) ∷ m) d = elim (Bool-cases (j == k)) [
    | inl same ↦ rw same (remove-Distinct k m d.1)
    | inr other ↦ rw other (get-remove-none k j m d.0, remove-Distinct k m d.1)
  ]

  pub insert-Distinct : (k : K) (v : V) (m : Map K V) → Distinct m → Distinct (insert k v m)
  unfolding insert
  insert-Distinct k v m d = (get-remove_self k m, remove-Distinct k m d)

  -- A key that is absent has nothing to remove.
  pub remove_absent : (k : K) (m : Map K V) → get k m ≡ none → remove k m ≡ m
  unfolding get remove
  remove_absent k [] h = refl
  remove_absent k ((j, v) ∷ m) h = ground (arith, remove_absent k m)
