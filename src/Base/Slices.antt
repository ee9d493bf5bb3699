-- ===== src/Base/Slices.antt =====
-- Byte strings, `Bytes` and `[u8]`, as lists of numbers, with the order of slices: lexicographic, a
-- proper prefix first.
use Prim.Native.Nat.{ℕ, compare, Ordering}
use mathlib.Core.Path.{◌≡◌, refl}
use mathlib.Core.Logic.{◌↔◌}
use mathlib.Core.Bool.{Bool, true, false, not, ◌&&◌}
use mathlib.Core.List.{List, [], ◌∷◌}
use native.Mathlib.Omega.{arith}
use crabstash.Base.Tests.{Eq, eqb}

abbrev pub Bytes : Type 0
Bytes = List ℕ

unfoldable pub bytes_beq : Bytes → Bytes → Bool
bytes_beq [] [] = true
bytes_beq [] (y ∷ ys) = false
bytes_beq (x ∷ xs) [] = false
bytes_beq (x ∷ xs) (y ∷ ys) = eqb x y && bytes_beq xs ys

pub bytes_beq→eq : (xs ys : Bytes) → bytes_beq xs ys ≡ true → xs ≡ ys
unfolding bytes_beq
bytes_beq→eq [] [] h = refl
bytes_beq→eq [] (y ∷ ys) h = cc
bytes_beq→eq (x ∷ xs) [] h = cc
bytes_beq→eq (x ∷ xs) (y ∷ ys) h = ground (arith, bytes_beq→eq xs ys)

pub bytes_beq_refl : (xs : Bytes) → bytes_beq xs xs ≡ true
unfolding bytes_beq
bytes_beq_refl [] = refl
bytes_beq_refl (x ∷ xs) = ground (arith, bytes_beq_refl xs)

pub bytes_beq_iff : (xs ys : Bytes) → (bytes_beq xs ys ≡ true) ↔ (xs ≡ ys)
bytes_beq_iff xs ys = (bytes_beq→eq xs ys, λ e. rw e (bytes_beq_refl ys))

instance abbrev pub bytes_eq : Eq Bytes
bytes_eq = record { beq = bytes_beq; beq_iff = bytes_beq_iff }

-- `Ord::cmp` of slices.
unfoldable pub bytes_cmp : Bytes → Bytes → Ordering
bytes_cmp [] [] = Ordering.eq
bytes_cmp [] (y ∷ ys) = Ordering.lt
bytes_cmp (x ∷ xs) [] = Ordering.gt
bytes_cmp (x ∷ xs) (y ∷ ys) =
    let rest = bytes_cmp xs ys in
    elim (compare x y) [
      | Ordering.lt ↦ Ordering.lt
      | Ordering.eq ↦ rest
      | Ordering.gt ↦ Ordering.gt
    ]

abbrev pub bytes_lt : Bytes → Bytes → Bool
bytes_lt a b = elim (bytes_cmp a b) [ Ordering.lt ↦ true | _ ↦ false ]

abbrev pub bytes_le : Bytes → Bytes → Bool
bytes_le a b = elim (bytes_cmp a b) [ Ordering.gt ↦ false | _ ↦ true ]

abbrev pub reverse_ordering : Ordering → Ordering
reverse_ordering Ordering.lt = Ordering.gt
reverse_ordering Ordering.eq = Ordering.eq
reverse_ordering Ordering.gt = Ordering.lt

pub bytes_cmp_refl : (xs : Bytes) → bytes_cmp xs xs ≡ Ordering.eq
unfolding bytes_cmp
bytes_cmp_refl [] = refl
bytes_cmp_refl (x ∷ xs) = ground (arith, bytes_cmp_refl xs)

pub bytes_cmp-eq : (xs ys : Bytes) → bytes_cmp xs ys ≡ Ordering.eq → xs ≡ ys
unfolding bytes_cmp
bytes_cmp-eq [] [] h = refl
bytes_cmp-eq [] (y ∷ ys) h = cc
bytes_cmp-eq (x ∷ xs) [] h = cc
bytes_cmp-eq (x ∷ xs) (y ∷ ys) h = ground (arith, bytes_cmp-eq xs ys)

pub bytes_cmp-reverse : (xs ys : Bytes) → bytes_cmp ys xs ≡ reverse_ordering (bytes_cmp xs ys)
unfolding bytes_cmp
bytes_cmp-reverse [] [] = refl
bytes_cmp-reverse [] (y ∷ ys) = refl
bytes_cmp-reverse (x ∷ xs) [] = refl
bytes_cmp-reverse (x ∷ xs) (y ∷ ys) = ground (arith, bytes_cmp-reverse xs ys)

pub bytes_le_trans :
    (xs ys zs : Bytes) → bytes_le xs ys ≡ true → bytes_le ys zs ≡ true → bytes_le xs zs ≡ true
unfolding bytes_cmp
bytes_le_trans [] [] zs h k = k
bytes_le_trans [] (y ∷ ys) [] h k = cc
bytes_le_trans [] (y ∷ ys) (z ∷ zs) h k = refl
bytes_le_trans (x ∷ xs) [] zs h k = cc
bytes_le_trans (x ∷ xs) (y ∷ ys) [] h k = cc
bytes_le_trans (x ∷ xs) (y ∷ ys) (z ∷ zs) h k = ground (arith, bytes_le_trans xs ys zs)

pub bytes_lt-not_le : (xs ys : Bytes) → bytes_lt xs ys ≡ not (bytes_le ys xs)
bytes_lt-not_le xs ys = ground (arith, bytes_cmp-reverse xs ys)

pub bytes_le_of_lt : (xs ys : Bytes) → bytes_lt xs ys ≡ true → bytes_le xs ys ≡ true
bytes_le_of_lt xs ys h = ground arith

pub bytes_le_refl : (xs : Bytes) → bytes_le xs xs ≡ true
bytes_le_refl xs = ground (arith, bytes_cmp_refl xs)

pub bytes_lt_of_le_of_lt :
    (xs ys zs : Bytes) → bytes_le xs ys ≡ true → bytes_lt ys zs ≡ true → bytes_lt xs zs ≡ true
bytes_lt_of_le_of_lt xs ys zs h k =
    ground (arith, bytes_lt-not_le xs zs, bytes_lt-not_le ys zs, bytes_le_trans zs xs ys)

pub bytes_lt_of_lt_of_le :
    (xs ys zs : Bytes) → bytes_lt xs ys ≡ true → bytes_le ys zs ≡ true → bytes_lt xs zs ≡ true
bytes_lt_of_lt_of_le xs ys zs h k =
    ground (arith, bytes_lt-not_le xs zs, bytes_lt-not_le xs ys, bytes_le_trans ys zs xs)
