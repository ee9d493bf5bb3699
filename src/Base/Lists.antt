-- ===== src/Base/Lists.antt =====
-- Lists measured by native numbers, with the tests that the source makes by iterators.
use Prim.Native.Nat.{ℕ, zero, suc, ◌+◌, ◌<◌}
use mathlib.Core.Path.{◌≡◌, refl, ap}
use mathlib.Core.Logic.{◌≢◌, ◌⊎◌, inl, inr}
use mathlib.Core.Bool.{Bool, true, false, ◌&&◌, ◌||◌}
use mathlib.Core.List.{List, [], ◌∷◌, ◌++◌}
use native.Mathlib.Omega.{arith}
use crabstash.Base.Tests.{if◌then◌else◌, Bool-cases}

module _ {ℓ} {A : Type ℓ} where
  abbrev pub length : List A → ℕ
  length [] = 0
  length (x ∷ xs) = suc (length xs)

  abbrev pub is_empty : List A → Bool
  is_empty [] = true
  is_empty (x ∷ xs) = false

  abbrev pub take : ℕ → List A → List A
  take zero xs = []
  take (suc n) [] = []
  take (suc n) (x ∷ xs) = x ∷ take n xs

  abbrev pub drop : ℕ → List A → List A
  drop zero xs = xs
  drop (suc n) [] = []
  drop (suc n) (x ∷ xs) = drop n xs

  abbrev pub get_or : List A → ℕ → A → A
  get_or [] i d = d
  get_or (x ∷ xs) zero d = x
  get_or (x ∷ xs) (suc i) d = get_or xs i d

  -- A write out of bounds changes nothing.
  abbrev pub set : List A → ℕ → A → List A
  set [] i v = []
  set (x ∷ xs) zero v = v ∷ xs
  set (x ∷ xs) (suc i) v = x ∷ set xs i v

  -- `iter().all(p)`
  unfoldable pub all : (A → Bool) → List A → Bool
  all p [] = true
  all p (x ∷ xs) = p x && all p xs

  -- `iter().any(p)`
  unfoldable pub any : (A → Bool) → List A → Bool
  any p [] = false
  any p (x ∷ xs) = p x || any p xs

  -- `retain(p)`
  unfoldable pub retain : (A → Bool) → List A → List A
  retain p [] = []
  retain p (x ∷ xs) = let rest = retain p xs in if p x then x ∷ rest else rest

  -- A predicate of every element.
  abbrev pub All {κ} : (A → Type κ) → List A → Type κ
  All P [] = Unit
  All P (x ∷ xs) = P x × All P xs

-- The value is an element, with its place.
abbrev pub In : {A : Type 0} → A → List A → Type 0
In a [] = ⊥
In a (x ∷ xs) = (a ≡ x) ⊎ In a xs

module _ {ℓ} {A : Type ℓ} where
  pub length-append : (xs ys : List A) → length (xs ++ ys) ≡ length xs + length ys
  length-append [] ys = omega arith
  length-append (x ∷ xs) ys = omega (arith, length-append xs ys)

  pub take-length : (xs ys : List A) → take (length xs) (xs ++ ys) ≡ xs
  take-length [] ys = refl
  take-length (x ∷ xs) ys = ap (◌∷◌ x) (take-length xs ys)

  pub drop-length : (xs ys : List A) → drop (length xs) (xs ++ ys) ≡ ys
  drop-length [] ys = refl
  drop-length (x ∷ xs) ys = drop-length xs ys

  pub length-set : (xs : List A) (i : ℕ) (v : A) → length (set xs i v) ≡ length xs
  length-set [] i v = refl
  length-set (x ∷ xs) zero v = refl
  length-set (x ∷ xs) (suc i) v = ap suc (length-set xs i v)

  pub get_or-set_self :
      (xs : List A) (i : ℕ) (v d : A) → i < length xs → get_or (set xs i v) i d ≡ v
  get_or-set_self [] i v d h = elim h [ ]
  get_or-set_self (x ∷ xs) zero v d h = refl
  get_or-set_self (x ∷ xs) (suc i) v d h = get_or-set_self xs i v d (omega arith)

  pub get_or-set_ne :
      (xs : List A) (i j : ℕ) (v d : A) → i ≢ j → get_or (set xs i v) j d ≡ get_or xs j d
  get_or-set_ne [] i j v d h = refl
  get_or-set_ne (x ∷ xs) zero zero v d h = absurd (h refl)
  get_or-set_ne (x ∷ xs) zero (suc j) v d h = refl
  get_or-set_ne (x ∷ xs) (suc i) zero v d h = refl
  get_or-set_ne (x ∷ xs) (suc i) (suc j) v d h = get_or-set_ne xs i j v d (λ e. h (ap suc e))

  pub all-append : (p : A → Bool) (xs ys : List A) → all p (xs ++ ys) ≡ (all p xs && all p ys)
  unfolding all
  all-append p [] ys = refl
  all-append p (x ∷ xs) ys = ground (arith, all-append p xs ys)

  pub all→All : (p : A → Bool) (xs : List A) → all p xs ≡ true → All (λ x. p x ≡ true) xs
  unfolding all
  all→All p [] h = tt
  all→All p (x ∷ xs) h = (ground arith, all→All p xs (ground arith))

pub all-In :
    {A : Type 0} (p : A → Bool) (xs : List A) → all p xs ≡ true → (a : A) → In a xs → p a ≡ true
unfolding all
all-In p [] h a m = absurd m
all-In p (x ∷ xs) h a (inl e) = rw e (ground arith)
all-In p (x ∷ xs) h a (inr m) = all-In p xs (ground arith) a m

-- A test that fails of all fails of some element.
pub all-false_witness :
    {A : Type 0} (p : A → Bool) (xs : List A) → all p xs ≡ false → (a : A) × In a xs × (p a ≡ false)
unfolding all
all-false_witness p [] h = cc
all-false_witness p (x ∷ xs) h = elim (Bool-cases (p x)) [
  | inl e ↦ let (a, m, f) = all-false_witness p xs (ground arith) in (a, inr m, f)
  | inr e ↦ (x, inl refl, e)
]

pub any-In :
    {A : Type 0} (p : A → Bool) (xs : List A) (a : A) → In a xs → p a ≡ true → any p xs ≡ true
unfolding any
any-In p [] a m h = absurd m
any-In p (x ∷ xs) a (inl e) h = let h' : p x ≡ true = rw e at h in ground arith
any-In p (x ∷ xs) a (inr m) h = ground (arith, any-In p xs a m h)

pub any_witness :
    {A : Type 0} (p : A → Bool) (xs : List A) → any p xs ≡ true → (a : A) × In a xs × (p a ≡ true)
unfolding any
any_witness p [] h = cc
any_witness p (x ∷ xs) h = elim (Bool-cases (p x)) [
  | inl e ↦ (x, inl refl, e)
  | inr e ↦ let (a, m, f) = any_witness p xs (ground arith) in (a, inr m, f)
]

pub In-append_left : {A : Type 0} (xs ys : List A) (a : A) → In a xs → In a (xs ++ ys)
In-append_left [] ys a m = absurd m
In-append_left (x ∷ xs) ys a (inl e) = inl e
In-append_left (x ∷ xs) ys a (inr m) = inr (In-append_left xs ys a m)

pub In-append_right : {A : Type 0} (xs ys : List A) (a : A) → In a ys → In a (xs ++ ys)
In-append_right [] ys a m = m
In-append_right (x ∷ xs) ys a m = inr (In-append_right xs ys a m)

pub In-append_cases : {A : Type 0} (xs ys : List A) (a : A) → In a (xs ++ ys) → In a xs ⊎ In a ys
In-append_cases [] ys a m = inr m
In-append_cases (x ∷ xs) ys a (inl e) = inl (inl e)
In-append_cases (x ∷ xs) ys a (inr m) = elim (In-append_cases xs ys a m) [
  | inl l ↦ inl (inr l)
  | inr r ↦ inr r
]

pub In-retain→ :
    {A : Type 0} (p : A → Bool) (xs : List A) (a : A) → In a (retain p xs) → In a xs × (p a ≡ true)
unfolding retain
In-retain→ p [] a m = absurd m
In-retain→ p (x ∷ xs) a m = elim (Bool-cases (p x)) [
  | inl e ↦ kept e (In-retain→ p xs a) (rw e at m)
  | inr e ↦ let (i, h) = In-retain→ p xs a (rw e at m) in (inr i, h)
]
  where
    kept :
        p x ≡ true
        → (In a (retain p xs) → In a xs × (p a ≡ true))
        → In a (x ∷ retain p xs)
        → In a (x ∷ xs) × (p a ≡ true)
    kept e ih (inl q) = (inl q, rw q e)
    kept e ih (inr i) = (inr (ih i).0, (ih i).1)

pub In→retain :
    {A : Type 0} (p : A → Bool) (xs : List A) (a : A) → In a xs → p a ≡ true → In a (retain p xs)
unfolding retain
In→retain p [] a m h = absurd m
In→retain p (x ∷ xs) a (inl e) h = let h' : p x ≡ true = rw e at h in rw h' (inl e)
In→retain p (x ∷ xs) a (inr m) h = elim (Bool-cases (p x)) [
  | inl e ↦ rw e (inr (In→retain p xs a m h))
  | inr e ↦ rw e (In→retain p xs a m h)
]
