-- ===== src/Storage/Iterator/Denotes.antt =====
-- The versions that an iterator runs through, and what the iterators built from others make of them.
use crabstash.Base.{
  nat_eq, bytes_eq, Bytes, Bound, before_end, ◌≡◌, refl, sym, ◌∙◌, inl, inr, Bool, true, false,
  Option, List, [], ◌∷◌, ◌==◌, arith, Bool-cases, if◌then◌else◌,
}
use crabstash.Common.Error.{Result, ok, err}
use crabstash.Common.Key.{Key}
use crabstash.Storage.Iterator.{
  StorageIterator, TwoMergeIterator, choose_a, new_two_merge, two_merge_next, two_merge_iterator,
  and_then, rechoose, skip_same, check_bound, new_bounded, bounded_next, bounded_iterator,
}

abbrev pub Entry : Type 0
Entry = Key × Option Bytes

-- The iterator runs through the versions of the list and then ends, and no step of it fails.
abbrev pub Denotes : {I : Type 0} → StorageIterator I → I → List Entry → Type 0
Denotes it i [] = it.is_valid i ≡ false
Denotes it i ((k, v) ∷ es) =
    (it.is_valid i ≡ true)
    × (it.key i ≡ k)
    × (it.value i ≡ v)
    × ((it.next i).1 ≡ ok tt)
    × Denotes it (it.next i).0 es

-- The merge of two lists, in which a version hides the other list's next version of the same key.
abbrev pub merge_two : (Key → Key → Bool) → List Entry → List Entry → List Entry
merge_two le [] ys = ys
merge_two le (x ∷ xs) [] = x ∷ xs
merge_two le (x ∷ xs) (y ∷ ys) =
    if le x.0 y.0
    then x ∷ (if x.0.bytes == y.0.bytes then merge_two le xs ys else merge_two le xs (y ∷ ys))
    else y ∷ merge_two le (x ∷ xs) ys

-- The versions up to the first key behind the end.
abbrev pub until : Bound → List Entry → List Entry
until end [] = []
until end (e ∷ es) = if before_end e.0.bytes end then e ∷ until end es else []

pub and_then-ok :
    {A B : Type 0} (p : A × Result (Unit {0})) (failed : A → B) (go_on : A → B × Result (Unit {0}))
    → p.1 ≡ ok tt
    → and_then p failed go_on ≡ go_on p.0
and_then-ok (a, ok u) failed go_on h = refl
and_then-ok (a, err e) failed go_on h = cc

pair_ok : {A : Type 0} (p : A × Result (Unit {0})) → p.1 ≡ ok tt → p ≡ (p.0, ok tt)
pair_ok (a, ok u) h = refl
pair_ok (a, err e) h = cc

merge_two_nil : (le : Key → Key → Bool) (xs : List Entry) → merge_two le xs [] ≡ xs
merge_two_nil le [] = refl
merge_two_nil le (x ∷ xs) = refl

module _ {A B : Type 0} (le : Key → Key → Bool) (ia : StorageIterator A)
    (ib : StorageIterator B) where
  abbrev two : StorageIterator (TwoMergeIterator A B)
  two = two_merge_iterator le ia ib

  next-b :
      (a : A) (b : B)
      → choose_a le ia ib a b ≡ false
      → (ib.next b).1 ≡ ok tt
      → two_merge_next le ia ib (new_two_merge le ia ib a b)
        ≡ (new_two_merge le ia ib a (ib.next b).0, ok tt)
  unfolding two_merge_next
  next-b a b c h = rw c (
      and_then-ok (ib.next b) (λ b'. record { a = a; b = b'; use_a = false })
        (λ b'. rechoose le ia ib a b') h)

  next-a :
      (a : A) (b b' : B)
      → choose_a le ia ib a b ≡ true
      → skip_same le ia ib a b ≡ (b', ok tt)
      → (ia.next a).1 ≡ ok tt
      → two_merge_next le ia ib (new_two_merge le ia ib a b)
        ≡ (new_two_merge le ia ib (ia.next a).0 b', ok tt)
  unfolding two_merge_next
  next-a a b b' c s h =
      rw (c, s)
        (and_then-ok (ia.next a) (λ a'. record { a = a'; b = b'; use_a = true })
          (λ a'. rechoose le ia ib a' b') h)

  -- What the test of the two iterators sees.
  choose-b : (a : A) (b : B) → ia.is_valid a ≡ false → choose_a le ia ib a b ≡ false
  unfolding choose_a
  choose-b a b h = rw h refl

  choose-a_only :
      (a : A) (b : B) → ia.is_valid a ≡ true → ib.is_valid b ≡ false → choose_a le ia ib a b ≡ true
  unfolding choose_a
  choose-a_only a b h k = rw (h, k) refl

  choose-le :
      (a : A) (b : B)
      → ia.is_valid a ≡ true
      → ib.is_valid b ≡ true
      → choose_a le ia ib a b ≡ le (ia.key a) (ib.key b)
  unfolding choose_a
  choose-le a b h k = rw (h, k) refl

  -- Two iterators that run through lists are merged as the lists are, whatever the order of keys.
  pub two_merge-Denotes :
      (xs ys : List Entry) (a : A) (b : B)
      → Denotes ia a xs
      → Denotes ib b ys
      → Denotes two (new_two_merge le ia ib a b) (merge_two le xs ys)
  unfolding two_merge_iterator
  two_merge-Denotes [] [] a b da db = rw (da, db) refl
  two_merge-Denotes [] ((k, v) ∷ ys) a b da (bv, bk, bval, bok, db) =
      let c = choose-b a b da in
      let n = next-b a b c bok in
      rw (n, c) (ground (arith, bv), bk, bval, refl, two_merge-Denotes [] ys a (ib.next b).0 da db)
  two_merge-Denotes ((k, v) ∷ xs) [] a b (av, ak, aval, aok, da) db =
      let c = choose-a_only a b av db in
      let n = next-a a b b c (rw db refl) aok in
      rw (n, c)
        (
          ground (arith, av),
          ak,
          aval,
          refl,
          rw (merge_two_nil le xs) at (two_merge-Denotes xs [] (ia.next a).0 b da db),
        )
  two_merge-Denotes ((k, v) ∷ xs) ((j, w) ∷ ys) a b (av, ak, aval, aok, da)
        (bv, bk, bval, bok, db) =
      let c : choose_a le ia ib a b ≡ le k j = rw (sym ak, sym bk) (choose-le a b av bv) in
      elim (Bool-cases (le k j)) [
        | inr later ↦
            let n = next-b a b (c ∙ later) bok in
            let picked = c ∙ later in
            rw (later, n, picked)
              (
                ground (arith, av),
                bk,
                bval,
                refl,
                two_merge-Denotes ((k, v) ∷ xs) ys a (ib.next b).0 (av, ak, aval, aok, da) db,
              )
        | inl first ↦ elim (Bool-cases (k.bytes == j.bytes)) [
          | inl same ↦
              let skip : skip_same le ia ib a b ≡ ((ib.next b).0, ok tt) =
                rw (bv, ak, bk, same) (pair_ok (ib.next b) bok) in
              let n = next-a a b (ib.next b).0 (c ∙ first) skip aok in
              let picked = c ∙ first in
              rw (first, same, n, picked)
                (
                  ground (arith, av),
                  ak,
                  aval,
                  refl,
                  two_merge-Denotes xs ys (ia.next a).0 (ib.next b).0 da db,
                )
          | inr other ↦
              let n = next-a a b b (c ∙ first) (rw (bv, ak, bk, other) refl) aok in
              let picked = c ∙ first in
              rw (first, other, n, picked)
                (
                  ground (arith, av),
                  ak,
                  aval,
                  refl,
                  two_merge-Denotes xs ((j, w) ∷ ys) (ia.next a).0 b da (bv, bk, bval, bok, db),
                )
        ]
      ]

module _ {I : Type 0} (it : StorageIterator I) where
  bounded-step :
      (i : I) (end : Bound) (v : Bool)
      → (it.next i).1 ≡ ok tt
      → bounded_next it (record { inner = i; end_bound = end; valid = v })
        ≡ (new_bounded it (it.next i).0 end, ok tt)
  unfolding bounded_next new_bounded check_bound
  bounded-step i end v h =
      and_then-ok (it.next i) (λ j. record { inner = j; end_bound = end; valid = v })
        (λ j. (check_bound it (record { inner = j; end_bound = end; valid = v }), ok tt)) h

  -- An iterator with an end runs through the versions up to the first key behind the end.
  pub bounded-Denotes :
      (es : List Entry) (i : I) (end : Bound)
      → Denotes it i es
      → Denotes (bounded_iterator it) (new_bounded it i end) (until end es)
  unfolding bounded_iterator new_bounded check_bound
  bounded-Denotes [] i end d = rw d refl
  bounded-Denotes ((k, v) ∷ es) i end (iv, ik, ival, iok, d) =
      elim (Bool-cases (before_end k.bytes end)) [
        | inl inside ↦
            rw (iv, ik, inside, bounded-step i end true iok)
              (iv, ik, ival, refl, bounded-Denotes es (it.next i).0 end d)
        | inr past ↦ rw (iv, ik, past) refl
      ]
