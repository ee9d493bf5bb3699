-- ===== src/Base/Set.antt =====
-- `HashSet` as a list; the order of the list is the order in which the source iterates.
use mathlib.Core.Path.{◌≡◌, refl}
use mathlib.Core.Logic.{inl, inr}
use mathlib.Core.Bool.{Bool, true, false, ◌||◌, not}
use mathlib.Core.List.{List, [], ◌∷◌}
use native.Mathlib.Omega.{arith}
use crabstash.Base.Tests.{Eq, ◌==◌, if◌then◌else◌, Bool-cases}
use crabstash.Base.Lists.{In, all, is_empty, all-In, all-false_witness}

module _ {ℓ} {A : Type ℓ} ⦃e : Eq A⦄ where
  unfoldable pub contains : A → List A → Bool
  contains a [] = false
  contains a (x ∷ xs) = x == a || contains a xs

  unfoldable pub insert : A → List A → List A
  unfolding contains
  insert a xs = if contains a xs then xs else a ∷ xs

  unfoldable pub remove : A → List A → List A
  remove a [] = []
  remove a (x ∷ xs) = let rest = remove a xs in if x == a then rest else x ∷ rest

  unfoldable pub is_disjoint : List A → List A → Bool
  is_disjoint xs ys = all (λ x. not (contains x ys)) xs

  pub contains-insert :
      (a b : A) (xs : List A) → contains b (insert a xs) ≡ (a == b || contains b xs)
  unfolding contains insert
  contains-insert a b xs = elim (Bool-cases (contains a xs)) [
    | inl old ↦ rw old (ground (arith, e.beq_iff a b))
    | inr new ↦ rw new refl
  ]

  pub contains-remove :
      (a b : A) (xs : List A) → contains b (remove a xs) ≡ (if a == b then false else contains b xs)
  unfolding contains remove
  contains-remove a b [] = ground arith
  contains-remove a b (x ∷ xs) =
      ground (arith, contains-remove a b xs, e.beq_iff x a, e.beq_iff x b, e.beq_iff a b)

  -- Inserting never empties a set.
  pub is_empty-insert : (a : A) (xs : List A) → is_empty (insert a xs) ≡ false
  unfolding contains insert
  is_empty-insert a [] = refl
  is_empty-insert a (x ∷ xs) = ground arith

module _ {A : Type 0} ⦃e : Eq A⦄ where
  pub contains→In : (a : A) (xs : List A) → contains a xs ≡ true → In a xs
  unfolding contains
  contains→In a [] h = ground arith
  contains→In a (x ∷ xs) h = elim (Bool-cases (x == a)) [
    | inl same ↦ inl (ground (arith, e.beq_iff x a))
    | inr other ↦ inr (contains→In a xs (ground arith))
  ]

  pub In→contains : (a : A) (xs : List A) → In a xs → contains a xs ≡ true
  unfolding contains
  In→contains a [] m = absurd m
  In→contains a (x ∷ xs) (inl q) = ground (arith, e.beq_iff x a)
  In→contains a (x ∷ xs) (inr m) = ground (arith, In→contains a xs m)

  -- Sets that are disjoint share no element, and sets that are not share one.
  pub is_disjoint→ :
      (xs ys : List A) (a : A) → is_disjoint xs ys ≡ true → In a xs → contains a ys ≡ false
  unfolding is_disjoint
  is_disjoint→ xs ys a h m = let k = all-In (λ x. not (contains x ys)) xs h a m in ground arith

  pub is_disjoint-false :
      (xs ys : List A) → is_disjoint xs ys ≡ false → (a : A) × In a xs × (contains a ys ≡ true)
  unfolding is_disjoint
  is_disjoint-false xs ys h =
      let (a, m, f) = all-false_witness (λ x. not (contains x ys)) xs h in (a, m, ground arith)
