-- ===== src/Lock/WaitGraph.antt =====
-- crabstash-lock/src/deadlock.rs: the graph of the transactions that wait for one another, and the
-- choice of the victim of a deadlock.
pub mod Edges
pub mod Victim
use crabstash.Base.{
  nat_eq, ℕ, ◌+◌, ◌-◌, ◌%◌, ◌^◌, compare, Ordering, Bool, true, false, Option, none, some, List, [],
  ◌∷◌, if◌then◌else◌, ◌==◌, is_empty, reverse_ordering,
}
use crabstash.Base.Map
use crabstash.Base.Map.{Map}
use crabstash.Base.Set

pub record TxnInfo : Type 0 where
  pub start_ts : ℕ
  pub lock_count : ℕ
  pub priority : ℕ

pub record WaitForGraph : Type 0 where
  pub edges : Map ℕ (List ℕ)
  pub txn_info : Map ℕ TxnInfo

abbrev pub new : WaitForGraph
new = record { edges = []; txn_info = [] }

unfoldable pub register_txn : WaitForGraph → ℕ → ℕ → ℕ → WaitForGraph
register_txn g txn_id start_ts priority = record g {
  txn_info =
      Map.insert txn_id (record { start_ts = start_ts; lock_count = 0; priority = priority })
        g.txn_info;
}

-- `for waiters in edges.values_mut() { waiters.remove(&txn_id) }`
unfoldable pub remove_everywhere : ℕ → Map ℕ (List ℕ) → Map ℕ (List ℕ)
remove_everywhere txn_id [] = []
remove_everywhere txn_id ((waiter, waiters) ∷ edges) =
    (waiter, Set.remove txn_id waiters) ∷ remove_everywhere txn_id edges

unfoldable pub unregister_txn : WaitForGraph → ℕ → WaitForGraph
unregister_txn g txn_id = record {
  edges = remove_everywhere txn_id (Map.remove txn_id g.edges);
  txn_info = Map.remove txn_id g.txn_info;
}

-- `entry(k).or_default()`
abbrev pub or_default : Option (List ℕ) → List ℕ
or_default none = []
or_default (some s) = s

unfoldable pub add_wait_edge : WaitForGraph → ℕ → ℕ → WaitForGraph
add_wait_edge g waiter holder = if waiter == holder then g else record g {
  edges = Map.insert waiter (Set.insert holder (or_default (Map.get waiter g.edges))) g.edges;
}

unfoldable pub remove_wait_edge_from : Option (List ℕ) → WaitForGraph → ℕ → ℕ → WaitForGraph
remove_wait_edge_from none g waiter holder = g
remove_wait_edge_from (some holders) g waiter holder =
    let holders' = Set.remove holder holders in
    if is_empty holders'
    then record g { edges = Map.remove waiter g.edges }
    else record g { edges = Map.insert waiter holders' g.edges }

unfoldable pub remove_wait_edge : WaitForGraph → ℕ → ℕ → WaitForGraph
unfolding remove_wait_edge_from
remove_wait_edge g waiter holder = remove_wait_edge_from (Map.get waiter g.edges) g waiter holder

unfoldable pub remove_all_waits : WaitForGraph → ℕ → WaitForGraph
remove_all_waits g waiter = record g { edges = Map.remove waiter g.edges }

unfoldable pub set_lock_count : (ℕ → ℕ) → Option TxnInfo → WaitForGraph → ℕ → WaitForGraph
set_lock_count f none g txn_id = g
set_lock_count f (some info) g txn_id = record g {
  txn_info = Map.insert txn_id (record info { lock_count = f info.lock_count }) g.txn_info;
}

-- The count is a machine word.
unfoldable pub increment_lock_count : WaitForGraph → ℕ → WaitForGraph
unfolding set_lock_count
increment_lock_count g txn_id =
    set_lock_count (λ n. (n + 1) % 2 ^ 64) (Map.get txn_id g.txn_info) g txn_id

-- `saturating_sub(1)`
unfoldable pub decrement_lock_count : WaitForGraph → ℕ → WaitForGraph
unfolding set_lock_count
decrement_lock_count g txn_id = set_lock_count (λ n. n - 1) (Map.get txn_id g.txn_info) g txn_id

-- `cycle.iter().filter_map(…)`
unfoldable pub candidates : WaitForGraph → List ℕ → List (ℕ × TxnInfo)
candidates g [] = []
candidates g (id ∷ cycle) =
    let rest = candidates g cycle in
    elim (Map.get id g.txn_info) [ none ↦ rest | some info ↦ (id, info) ∷ rest ]

abbrev pub then_with : Ordering → Ordering → Ordering
then_with Ordering.eq o = o
then_with Ordering.lt o = Ordering.lt
then_with Ordering.gt o = Ordering.gt

-- The comparison of `sort_by`: what comes first is the better victim.
unfoldable pub victim_order : ℕ × TxnInfo → ℕ × TxnInfo → Ordering
victim_order a b = then_with (reverse_ordering (compare a.1.priority b.1.priority)) (
    then_with (reverse_ordering (compare a.1.start_ts b.1.start_ts))
      (compare a.1.lock_count b.1.lock_count))

-- `sort_by`, a stable sort: what compares equal stays in order.
unfoldable pub insert_by : ℕ × TxnInfo → List (ℕ × TxnInfo) → List (ℕ × TxnInfo)
insert_by c [] = c ∷ []
insert_by c (d ∷ rest) =
    let later = insert_by c rest in
    elim (victim_order c d) [ Ordering.gt ↦ d ∷ later | _ ↦ c ∷ d ∷ rest ]

unfoldable pub sort_by : List (ℕ × TxnInfo) → List (ℕ × TxnInfo)
unfolding insert_by
sort_by [] = []
sort_by (c ∷ rest) = insert_by c (sort_by rest)

abbrev pub first_or : List (ℕ × TxnInfo) → ℕ → ℕ
first_or [] fallback = fallback
first_or (c ∷ rest) fallback = c.0

-- The cycle has a first transaction: the caller never passes an empty one.
unfoldable pub select_victims : WaitForGraph → ℕ → List ℕ → List ℕ
select_victims g first cycle = first_or (sort_by (candidates g (first ∷ cycle))) first ∷ []
