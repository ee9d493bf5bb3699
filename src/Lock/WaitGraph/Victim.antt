-- ===== src/Lock/WaitGraph/Victim.antt =====
-- The victim of a deadlock.
use crabstash.Base.{
  nat_eq, ℕ, ◌≤◌, ◌≡◌, ◌≢◌, ◌⊎◌, refl, Option, none, some, List, [], ◌∷◌, Ordering, arith, In, All,
  inl, inr, subst, sym, ap,
}
use crabstash.Base.Map
use crabstash.Lock.WaitGraph.{
  TxnInfo, WaitForGraph, candidates, victim_order, insert_by, sort_by, first_or, select_victims,
}

-- `a` is at least as good a victim as `b`: it has the larger priority number; or the same one, and it
-- started later; or also at the same time, and it has no more locks.
abbrev pub IsBetter : TxnInfo → TxnInfo → Type 0
IsBetter a b =
    (b.priority ≤ a.priority)
    × (a.priority ≡ b.priority → b.start_ts ≤ a.start_ts)
    × (a.priority ≡ b.priority → a.start_ts ≡ b.start_ts → a.lock_count ≤ b.lock_count)

IsBetter-trans : (a b c : TxnInfo) → IsBetter a b → IsBetter b c → IsBetter a c
IsBetter-trans a b c h k = (omega arith, λ e. omega arith, λ e f. omega arith)

gt-IsBetter : (c d : ℕ × TxnInfo) → victim_order c d ≡ Ordering.gt → IsBetter d.1 c.1
unfolding victim_order
gt-IsBetter c d h = (ground arith, λ e. ground arith, λ e f. ground arith)

not-gt-IsBetter : (c d : ℕ × TxnInfo) → victim_order c d ≢ Ordering.gt → IsBetter c.1 d.1
unfolding victim_order
not-gt-IsBetter c d h = (ground arith, λ e. ground arith, λ e f. ground arith)

IsBetter-refl : (a : TxnInfo) → IsBetter a a
IsBetter-refl a = (omega arith, λ e. omega arith, λ e f. omega arith)

-- The first of the list is at least as good as all of it.
abbrev Leads : List (ℕ × TxnInfo) → Type 0
Leads [] = Unit
Leads (c ∷ rest) = All (λ (d : ℕ × TxnInfo). IsBetter c.1 d.1) rest

Ordering-cases : (o : Ordering) → (o ≡ Ordering.gt) ⊎ (o ≢ Ordering.gt)
Ordering-cases Ordering.lt = inr (λ e. cc)
Ordering-cases Ordering.eq = inr (λ e. cc)
Ordering-cases Ordering.gt = inl refl

insert_by-gt :
    (c d : ℕ × TxnInfo) (rest : List (ℕ × TxnInfo))
    → victim_order c d ≡ Ordering.gt
    → insert_by c (d ∷ rest) ≡ d ∷ insert_by c rest
unfolding insert_by
insert_by-gt c d rest h = ground arith

insert_by-not-gt :
    (c d : ℕ × TxnInfo) (rest : List (ℕ × TxnInfo))
    → victim_order c d ≢ Ordering.gt
    → insert_by c (d ∷ rest) ≡ c ∷ d ∷ rest
unfolding insert_by
insert_by-not-gt c d rest h = ground arith

module _ (P : ℕ × TxnInfo → Type 0) where
  insert_by-All : (c : ℕ × TxnInfo) (l : List (ℕ × TxnInfo)) → P c → All P l → All P (insert_by c l)
  insert_by-All c [] p ps = unfold insert_by in (p, tt)
  insert_by-All c (d ∷ rest) p ps = elim (Ordering-cases (victim_order c d)) [
    | inl g ↦ rw (insert_by-gt c d rest g) (ps.0, insert_by-All c rest p ps.1)
    | inr n ↦ rw (insert_by-not-gt c d rest n) (p, ps)
  ]

  sort_by-All : (l : List (ℕ × TxnInfo)) → All P l → All P (sort_by l)
  unfolding sort_by
  sort_by-All [] ps = tt
  sort_by-All (c ∷ l) ps = insert_by-All c (sort_by l) ps.0 (sort_by-All l ps.1)

All-IsBetter-trans :
    (a b : TxnInfo) (l : List (ℕ × TxnInfo))
    → IsBetter a b
    → All (λ (d : ℕ × TxnInfo). IsBetter b d.1) l
    → All (λ (d : ℕ × TxnInfo). IsBetter a d.1) l
All-IsBetter-trans a b [] h ps = tt
All-IsBetter-trans a b (d ∷ l) h ps =
    (IsBetter-trans a b d.1 h ps.0, All-IsBetter-trans a b l h ps.1)

insert_by-Leads : (c : ℕ × TxnInfo) (l : List (ℕ × TxnInfo)) → Leads l → Leads (insert_by c l)
insert_by-Leads c [] h = unfold insert_by in tt
insert_by-Leads c (d ∷ rest) h = elim (Ordering-cases (victim_order c d)) [
  | inl g ↦
      rw (insert_by-gt c d rest g)
        (insert_by-All (λ (e : ℕ × TxnInfo). IsBetter d.1 e.1) c rest (gt-IsBetter c d g) h)
  | inr n ↦
      rw (insert_by-not-gt c d rest n)
        (not-gt-IsBetter c d n, All-IsBetter-trans c.1 d.1 rest (not-gt-IsBetter c d n) h)
]

sort_by-Leads : (l : List (ℕ × TxnInfo)) → Leads (sort_by l)
unfolding sort_by
sort_by-Leads [] = tt
sort_by-Leads (c ∷ l) = insert_by-Leads c (sort_by l) (sort_by-Leads l)

-- The element is still in the list after it is sorted.
insert_by-In :
    (a c : ℕ × TxnInfo) (l : List (ℕ × TxnInfo)) → (a ≡ c) ⊎ In a l → In a (insert_by c l)
insert_by-In a c [] (inl e) = unfold insert_by in inl e
insert_by-In a c [] (inr m) = absurd m
insert_by-In a c (d ∷ rest) m = elim (Ordering-cases (victim_order c d)) [
  | inl g ↦ rw (insert_by-gt c d rest g) (behind (insert_by-In a c rest) m)
  | inr n ↦ rw (insert_by-not-gt c d rest n) m
]
  where
    behind :
        ((a ≡ c) ⊎ In a rest → In a (insert_by c rest))
        → (a ≡ c) ⊎ ((a ≡ d) ⊎ In a rest)
        → (a ≡ d) ⊎ In a (insert_by c rest)
    behind f (inl e) = inr (f (inl e))
    behind f (inr (inl e)) = inl e
    behind f (inr (inr i)) = inr (f (inr i))

sort_by-In : (a : ℕ × TxnInfo) (l : List (ℕ × TxnInfo)) → In a l → In a (sort_by l)
unfolding sort_by
sort_by-In a [] m = absurd m
sort_by-In a (c ∷ l) (inl e) = insert_by-In a c (sort_by l) (inl e)
sort_by-In a (c ∷ l) (inr m) = insert_by-In a c (sort_by l) (inr (sort_by-In a l m))

-- A candidate is a registered transaction of the cycle, and every such transaction is one.
abbrev IsCandidate : WaitForGraph → List ℕ → ℕ × TxnInfo → Type 0
IsCandidate g cycle c = In c.0 cycle × (Map.get c.0 g.txn_info ≡ some c.1)

widen :
    (g : WaitForGraph) (id : ℕ) (cycle : List ℕ) (l : List (ℕ × TxnInfo))
    → All (IsCandidate g cycle) l
    → All (IsCandidate g (id ∷ cycle)) l
widen g id cycle [] ps = tt
widen g id cycle (c ∷ l) ps = ((inr ps.0.0, ps.0.1), widen g id cycle l ps.1)

candidates-IsCandidate :
    (g : WaitForGraph) (cycle : List ℕ) → All (IsCandidate g cycle) (candidates g cycle)
unfolding candidates
candidates-IsCandidate g [] = tt
candidates-IsCandidate g (id ∷ cycle) =
    add (Map.get id g.txn_info) refl (candidates-IsCandidate g cycle)
  where
    add :
        (o : Option TxnInfo)
        → Map.get id g.txn_info ≡ o
        → All (IsCandidate g cycle) (candidates g cycle)
        → All
            (IsCandidate g (id ∷ cycle))
            (elim o [ none ↦ candidates g cycle | some info ↦ (id, info) ∷ candidates g cycle ])
    add none e ps = widen g id cycle (candidates g cycle) ps
    add (some info) e ps = ((inl refl, e), widen g id cycle (candidates g cycle) ps)

In-candidates :
    (g : WaitForGraph) (cycle : List ℕ) (t : ℕ) (info : TxnInfo)
    → In t cycle
    → Map.get t g.txn_info ≡ some info
    → In (t, info) (candidates g cycle)
unfolding candidates
In-candidates g [] t info m h = absurd m
In-candidates g (id ∷ cycle) t info (inl e) h =
    let h' : Map.get id g.txn_info ≡ some info = rw e at h in
    subst
      (λ (o : Option TxnInfo).
        In (t, info) (elim o [ none ↦ candidates g cycle | some i ↦ (id, i) ∷ candidates g cycle ]))
      (sym h') (inl (ap (λ (n : ℕ). (n, info)) e))
In-candidates g (id ∷ cycle) t info (inr m) h =
    keep (Map.get id g.txn_info) (In-candidates g cycle t info m h)
  where
    keep :
        (o : Option TxnInfo)
        → In (t, info) (candidates g cycle)
        → In
            (t, info)
            (elim o [ none ↦ candidates g cycle | some i ↦ (id, i) ∷ candidates g cycle ])
    keep none i = i
    keep (some x) i = inr i

leader :
    (g : WaitForGraph) (cycle : List ℕ) (fallback : ℕ) (a : ℕ × TxnInfo) (l : List (ℕ × TxnInfo))
    → Leads l
    → All (IsCandidate g cycle) l
    → In a l
    → (w : TxnInfo) × In (first_or l fallback) cycle
      × (Map.get (first_or l fallback) g.txn_info ≡ some w)
      × IsBetter w a.1
leader g cycle fallback a [] h ps m = absurd m
leader g cycle fallback a (c ∷ l) h ps (inl e) = (c.1, ps.0.0, ps.0.1, rw e (IsBetter-refl c.1))
leader g cycle fallback a (c ∷ l) h ps (inr m) = (c.1, ps.0.0, ps.0.1, pick l h m)
  where
    pick :
        (r : List (ℕ × TxnInfo))
        → All (λ (d : ℕ × TxnInfo). IsBetter c.1 d.1) r
        → In a r
        → IsBetter c.1 a.1
    pick [] q i = absurd i
    pick (d ∷ r) q (inl e) = rw e q.0
    pick (d ∷ r) q (inr i) = pick r q.1 i

-- Of a cycle with a registered transaction exactly one victim is chosen. It is a registered
-- transaction of the cycle, and none of the registered ones in the cycle is a better victim: none has
-- a larger priority number, none with the same one started later, and none that is equal in both has
-- fewer locks.
pub select_victims-IsBetter :
    (g : WaitForGraph) (first : ℕ) (cycle : List ℕ) (t : ℕ) (info : TxnInfo)
    → In t (first ∷ cycle)
    → Map.get t g.txn_info ≡ some info
    → (v : ℕ) × (w : TxnInfo) × (select_victims g first cycle ≡ v ∷ [])
      × In v (first ∷ cycle)
      × (Map.get v g.txn_info ≡ some w)
      × IsBetter w info
unfolding select_victims
select_victims-IsBetter g first cycle t info m h =
    let l = candidates g (first ∷ cycle) in
    let (w, i, found, better) =
      leader g (first ∷ cycle) first (t, info) (sort_by l) (sort_by-Leads l)
        (sort_by-All (IsCandidate g (first ∷ cycle)) l (candidates-IsCandidate g (first ∷ cycle)))
        (sort_by-In (t, info) l (In-candidates g (first ∷ cycle) t info m h)) in
    (first_or (sort_by l) first, w, refl, i, found, better)
