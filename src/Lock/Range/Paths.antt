-- ===== src/Lock/Range/Paths.antt =====
-- The search of the interval tree finds every lock to which a path leads from the node it starts at.
use crabstash.Base.{
  ℕ, zero, suc, ◌+◌, ◌<◌, ◌≤◌, ◌≡◌, inl, inr, refl, bytes_le, Bound, true, false, Option, none,
  some, List, [], ◌∷◌, ◌++◌, arith, In, In-append_left, In-append_right, In-append_cases,
  Bool-cases, length, map, if◌then◌else◌,
}
use crabstash.Lock.Range.{
  RangeLockEntry, overlaps, IntervalNode, unbounded_end, bound_to_bytes, compare_starts, is_less,
  bound_less_than, bound_greater_than, node_at, at_child, find_overlapping_recursive,
}
use crabstash.Lock.Range.Order.{max_end-overlaps, start-overlaps}

-- Every child stands behind its parent, and before the place b.
pub record IsForward (nodes : List IntervalNode) (b : ℕ) : Type 0 where
  pub left_forward : (i c : ℕ) → (node_at nodes i).left ≡ some c → (i < c) × (c < b)
  pub right_forward : (i c : ℕ) → (node_at nodes i).right ≡ some c → (i < c) × (c < b)

-- The node i bounds the end of the node j.
abbrev pub Covers : List IntervalNode → ℕ → ℕ → Type 0
Covers nodes i j =
    bytes_le (bound_to_bytes (node_at nodes j).entry.end) (node_at nodes i).max_end ≡ true

-- The node j stands below the node i, or is it, and nothing on the way to it hides its lock.
pub data Trail (nodes : List IntervalNode) : ℕ → ℕ → Type 0 where
  here : (i : ℕ) → Covers nodes i i → Trail nodes i i
  at_left :
      (i c j : ℕ)
      → (node_at nodes i).left ≡ some c
      → Covers nodes i j
      → Trail nodes c j
      → Trail nodes i j
  at_right :
      (i c j : ℕ)
      → (node_at nodes i).right ≡ some c
      → Covers nodes i j
      → is_less (compare_starts (node_at nodes j).entry.start (node_at nodes i).entry.start) ≡ false
      → Trail nodes c j
      → Trail nodes i j

pub Trail-Covers : (nodes : List IntervalNode) (i j : ℕ) → Trail nodes i j → Covers nodes i j
Trail-Covers nodes i j (here _ h) = h
Trail-Covers nodes i j (at_left _ c _ e h p) = h
Trail-Covers nodes i j (at_right _ c _ e h s p) = h

pub In-node_at :
    (nodes : List IntervalNode) (i : ℕ)
    → i < length nodes
    → In (node_at nodes i).entry (map (λ (n : IntervalNode). n.entry) nodes)
In-node_at [] i lt = absurd (omega arith)
In-node_at (n ∷ nodes) zero lt = inl refl
In-node_at (n ∷ nodes) (suc i) lt = inr (In-node_at nodes i (omega arith))

pub node_at-In :
    (nodes : List IntervalNode) (a : RangeLockEntry)
    → In a (map (λ (n : IntervalNode). n.entry) nodes)
    → (i : ℕ) × (i < length nodes) × (a ≡ (node_at nodes i).entry)
node_at-In [] a m = absurd m
node_at-In (n ∷ nodes) a (inl e) = (0, omega arith, e)
node_at-In (n ∷ nodes) a (inr m) = let (i, lt, e) = node_at-In nodes a m in (suc i, omega arith, e)

module _ (nodes : List IntervalNode) (start end : Bound) where
  abbrev pub Hit : ℕ → ℕ → ℕ → Type 0
  Hit fuel i j = In (node_at nodes j).entry (find_overlapping_recursive fuel nodes i start end)

  -- A node that is not past gives what its left child, itself and its right child give.
  abbrev parts : ℕ → ℕ → List RangeLockEntry
  parts fuel i =
      at_child (node_at nodes i).left (λ c. find_overlapping_recursive fuel nodes c start end)
      ++ ((if overlaps (node_at nodes i).entry start end then (node_at nodes i).entry ∷ [] else [])
          ++ (if bound_greater_than (node_at nodes i).entry.start end
              then []
              else at_child (node_at nodes i).right
                  (λ c. find_overlapping_recursive fuel nodes c start end)))

  find-parts :
      (fuel i : ℕ)
      → bound_less_than (node_at nodes i).max_end start ≡ false
      → find_overlapping_recursive (suc fuel) nodes i start end ≡ parts fuel i
  unfolding find_overlapping_recursive
  find-parts fuel i h = rw h refl

  find-past :
      (fuel i : ℕ)
      → bound_less_than (node_at nodes i).max_end start ≡ true
      → find_overlapping_recursive (suc fuel) nodes i start end ≡ []
  unfolding find_overlapping_recursive
  find-past fuel i h = rw h refl

  not-past :
      (i j : ℕ)
      → bound_less_than unbounded_end start ≡ false
      → overlaps (node_at nodes j).entry start end ≡ true
      → Covers nodes i j
      → bound_less_than (node_at nodes i).max_end start ≡ false
  not-past i j u o c = elim (Bool-cases (bound_less_than (node_at nodes i).max_end start)) [
    | inl past ↦
        let f =
          max_end-overlaps (node_at nodes j).entry (node_at nodes i).max_end start end c u past in
        cc
    | inr reach ↦ reach
  ]

  pub find_complete :
      (fuel b i j : ℕ)
      → IsForward nodes b
      → bound_less_than unbounded_end start ≡ false
      → overlaps (node_at nodes j).entry start end ≡ true
      → i < b
      → b ≤ fuel + i
      → Trail nodes i j
      → Hit fuel i j
  find_complete zero b i j fw u o lt le p = absurd (omega arith)
  find_complete (suc fuel) b i j fw u o lt le (here _ c) =
      rw (find-parts fuel i (not-past i i u o c), o)
        (In-append_right
          (at_child (node_at nodes i).left (λ k. find_overlapping_recursive fuel nodes k start end))
          _ _ (inl refl))
  find_complete (suc fuel) b i j fw u o lt le (at_left _ k _ e c p) =
      let (f, g) = fw.left_forward i k e in
      let ih = find_complete fuel b k j fw u o g (omega arith) p in
      rw (find-parts fuel i (not-past i j u o c), e)
        (In-append_left (find_overlapping_recursive fuel nodes k start end) _ _ ih)
  find_complete (suc fuel) b i j fw u o lt le (at_right _ k _ e c s p) =
      let (f, g) = fw.right_forward i k e in
      let ih = find_complete fuel b k j fw u o g (omega arith) p in
      elim (Bool-cases (bound_greater_than (node_at nodes i).entry.start end)) [
        | inl past ↦
            let f' =
              start-overlaps (node_at nodes j).entry (node_at nodes i).entry.start start end s
                past in
            cc
        | inr on ↦ rw (find-parts fuel i (not-past i j u o c)) (
            In-append_right
              (at_child (node_at nodes i).left
                (λ k'. find_overlapping_recursive fuel nodes k' start end))
              _ _
              (In-append_right
                (if overlaps (node_at nodes i).entry start end
                  then (node_at nodes i).entry ∷ []
                  else [])
                _ _ (rw (on, e) ih)))
      ]

  -- What a search may answer: a lock of the tree that overlaps the range.
  abbrev pub Answer : RangeLockEntry → Type 0
  Answer a = In a (map (λ (n : IntervalNode). n.entry) nodes) × (overlaps a start end ≡ true)

  own_sound :
      (i : ℕ) (a : RangeLockEntry)
      → i < length nodes
      → In a
          (if overlaps (node_at nodes i).entry start end then (node_at nodes i).entry ∷ [] else [])
      → Answer a
  own_sound i a lt m = elim (Bool-cases (overlaps (node_at nodes i).entry start end)) [
    | inl o ↦ elim (rw o at m) [ inl e ↦ rw e (In-node_at nodes i lt, o) | inr n ↦ absurd n ]
    | inr o ↦ let m' : ⊥ = rw o at m in absurd m'
  ]

  right_sound :
      (first : Bound) (right : List RangeLockEntry) (a : RangeLockEntry)
      → (In a right → Answer a)
      → In a (if bound_greater_than first end then [] else right)
      → Answer a
  right_sound first right a h m = elim (Bool-cases (bound_greater_than first end)) [
    | inl past ↦ let m' : ⊥ = rw past at m in absurd m'
    | inr on ↦ let m' : In a right = rw on at m in h m'
  ]

  child_sound :
      (o : Option ℕ) (search_at : ℕ → List RangeLockEntry) (a : RangeLockEntry)
      → ((c : ℕ) → o ≡ some c → In a (search_at c) → Answer a)
      → In a (at_child o search_at)
      → Answer a
  child_sound none search_at a h m = absurd m
  child_sound (some c) search_at a h m = h c refl m

  pub find_sound :
      (fuel i : ℕ) (a : RangeLockEntry)
      → IsForward nodes (length nodes)
      → i < length nodes
      → In a (find_overlapping_recursive fuel nodes i start end)
      → Answer a
  unfolding find_overlapping_recursive
  find_sound zero i a fw lt m = absurd m
  find_sound (suc fuel) i a fw lt m =
      elim (Bool-cases (bound_less_than (node_at nodes i).max_end start)) [
        | inl past ↦ let m' : ⊥ = rw (find-past fuel i past) at m in absurd m'
        | inr reach ↦
            from_parts (node_at nodes i).left (node_at nodes i).right
              (λ c e k. find_sound fuel c a fw (fw.left_forward i c e).1 k)
              (λ c e k. find_sound fuel c a fw (fw.right_forward i c e).1 k)
              (rw (find-parts fuel i reach) at m)
      ]
    where
      from_parts :
          (l r : Option ℕ)
          → ((c : ℕ)
              → l ≡ some c
              → In a (find_overlapping_recursive fuel nodes c start end)
              → Answer a)
          → ((c : ℕ)
              → r ≡ some c
              → In a (find_overlapping_recursive fuel nodes c start end)
              → Answer a)
          → In a (
              at_child l (λ c. find_overlapping_recursive fuel nodes c start end)
              ++ ((if overlaps (node_at nodes i).entry start end
                    then (node_at nodes i).entry ∷ []
                    else [])
                  ++ (if bound_greater_than (node_at nodes i).entry.start end
                      then []
                      else at_child r (λ c. find_overlapping_recursive fuel nodes c start end))))
          → Answer a
      from_parts l r hl hr k = elim (In-append_cases _ _ a k) [
        | inl k' ↦ child_sound l _ a hl k'
        | inr k' ↦ elim (In-append_cases _ _ a k') [
          | inl k'' ↦ own_sound i a lt k''
          | inr k'' ↦ right_sound (node_at nodes i).entry.start _ a (child_sound r _ a hr) k''
        ]
      ]
