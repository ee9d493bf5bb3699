-- ===== src/Lock/Range.antt =====
-- crabstash-lock/src/range_lock.rs: range locks, and the interval tree that finds them. The tree is an
-- arena: a vector of nodes whose children are places in the vector. An access out of bounds would
-- panic; a default node stands for it here, and it is never read.
pub mod Order
pub mod Paths
pub mod Insertion
pub mod Descent
pub mod Exact
pub mod Entries
pub mod History
use crabstash.Base.{
  ℕ, zero, suc, Bytes, bytes_cmp, bytes_lt, bytes_le, Bound, included, excluded, unbounded,
  key_in_range, Ordering, Bool, true, false, not, ◌&&◌, Option, none, some, List, [], ◌∷◌, ◌++◌,
  map, retain, length, is_empty, get_or, set, if◌then◌else◌, ◌==◌, nat_eq,
}
use crabstash.Lock.Mode.{LockMode}

pub record RangeLockEntry : Type 0 where
  pub txn_id : ℕ
  pub mode : LockMode
  pub start : Bound
  pub end : Bound

unfoldable pub contains_key : RangeLockEntry → Bytes → Bool
contains_key entry key = key_in_range key entry.start entry.end

unfoldable pub is_before : Bound → Bound → Bool
is_before unbounded other_start = false
is_before (included e) unbounded = false
is_before (excluded e) unbounded = false
is_before (included e) (included s) = bytes_lt e s
is_before (included e) (excluded s) = bytes_le e s
is_before (excluded e) (included s) = bytes_le e s
is_before (excluded e) (excluded s) = bytes_le e s

unfoldable pub is_after : Bound → Bound → Bool
is_after unbounded other_end = false
is_after (included s) unbounded = false
is_after (excluded s) unbounded = false
is_after (included s) (included e) = bytes_lt e s
is_after (included s) (excluded e) = bytes_le e s
is_after (excluded s) (included e) = bytes_le e s
is_after (excluded s) (excluded e) = bytes_le e s

unfoldable pub overlaps : RangeLockEntry → Bound → Bound → Bool
unfolding is_before is_after
overlaps entry other_start other_end =
    not (is_before entry.end other_start) && not (is_after entry.start other_end)

pub record IntervalNode : Type 0 where
  pub entry : RangeLockEntry
  pub max_end : Bytes
  pub left : Option ℕ
  pub right : Option ℕ

pub record IntervalTree : Type 0 where
  pub nodes : List IntervalNode

abbrev pub new : IntervalTree
new = record { nodes = [] }

unfoldable pub replicate : ℕ → ℕ → Bytes
replicate zero b = []
replicate (suc n) b = b ∷ replicate n b

-- `[0xFF; 256]`
unfoldable pub unbounded_end : Bytes
unfolding replicate
unbounded_end = replicate 256 0xFF

unfoldable pub bound_to_bytes : Bound → Bytes
bound_to_bytes (included b) = b
bound_to_bytes (excluded b) = b
bound_to_bytes unbounded = unbounded_end

abbrev pub less_if : Bool → Ordering
less_if true = Ordering.lt
less_if false = Ordering.gt

unfoldable pub compare_starts : Bound → Bound → Ordering
compare_starts unbounded unbounded = Ordering.eq
compare_starts unbounded (included b) = Ordering.lt
compare_starts unbounded (excluded b) = Ordering.lt
compare_starts (included a) unbounded = Ordering.gt
compare_starts (excluded a) unbounded = Ordering.gt
compare_starts (included a) (included b) = bytes_cmp a b
compare_starts (included a) (excluded b) = less_if (bytes_le a b)
compare_starts (excluded a) (included b) = less_if (bytes_lt a b)
compare_starts (excluded a) (excluded b) = bytes_cmp a b

unfoldable pub bound_less_than : Bytes → Bound → Bool
bound_less_than max_end unbounded = false
bound_less_than max_end (included s) = bytes_lt max_end s
bound_less_than max_end (excluded s) = bytes_le max_end s

unfoldable pub bound_greater_than : Bound → Bound → Bool
bound_greater_than unbounded end = false
bound_greater_than (included s) unbounded = false
bound_greater_than (excluded s) unbounded = false
bound_greater_than (included s) (included e) = bytes_lt e s
bound_greater_than (included s) (excluded e) = bytes_le e s
bound_greater_than (excluded s) (included e) = bytes_lt e s
bound_greater_than (excluded s) (excluded e) = bytes_le e s

abbrev pub leaf_node : RangeLockEntry → Bytes → IntervalNode
leaf_node entry max_end = record { entry = entry; max_end = max_end; left = none; right = none }

abbrev pub default_node : IntervalNode
default_node =
    leaf_node (record { txn_id = 0; mode = LockMode.s; start = unbounded; end = unbounded }) []

abbrev pub node_at : List IntervalNode → ℕ → IntervalNode
node_at nodes idx = get_or nodes idx default_node

-- `if max_end > *node_max { … }`
unfoldable pub raise_max : IntervalNode → Bytes → IntervalNode
raise_max node max_end =
    if bytes_lt node.max_end max_end then record node { max_end = max_end } else node

abbrev pub is_less : Ordering → Bool
is_less Ordering.lt = true
is_less Ordering.eq = false
is_less Ordering.gt = false

-- One round of the loop of `insert`: it ends, or goes on at a child.
pub data Walk : Type 0 where
  stop : List IntervalNode → Walk
  go : List IntervalNode → ℕ → Walk

abbrev pub walk_left : Option ℕ → List IntervalNode → ℕ → IntervalNode → ℕ → Walk
walk_left none nodes idx node new_idx = stop (set nodes idx (record node { left = some new_idx }))
walk_left (some left_idx) nodes idx node new_idx = go (set nodes idx node) left_idx

abbrev pub walk_right : Option ℕ → List IntervalNode → ℕ → IntervalNode → ℕ → Walk
walk_right none nodes idx node new_idx = stop (set nodes idx (record node { right = some new_idx }))
walk_right (some right_idx) nodes idx node new_idx = go (set nodes idx node) right_idx

unfoldable pub insert_round : List IntervalNode → ℕ → ℕ → Bytes → Bound → Walk
unfolding raise_max
insert_round nodes idx new_idx max_end start =
    let node = raise_max (node_at nodes idx) max_end in
    if is_less (compare_starts start node.entry.start)
    then walk_left node.left nodes idx node new_idx
    else walk_right node.right nodes idx node new_idx

abbrev pub walk_on : Walk → (List IntervalNode → ℕ → List IntervalNode) → List IntervalNode
walk_on (stop nodes) loop = nodes
walk_on (go nodes idx) loop = loop nodes idx

-- A child stands behind its parent in the vector, so there are at most as many rounds as nodes.
unfoldable pub insert_loop : ℕ → List IntervalNode → ℕ → ℕ → Bytes → Bound → List IntervalNode
insert_loop zero nodes idx new_idx max_end start = nodes
insert_loop (suc fuel) nodes idx new_idx max_end start =
    walk_on (insert_round nodes idx new_idx max_end start)
      (λ nodes' idx'. insert_loop fuel nodes' idx' new_idx max_end start)

unfoldable pub insert : IntervalTree → RangeLockEntry → IntervalTree
insert tree entry =
    let max_end = bound_to_bytes entry.end in
    if is_empty tree.nodes then record { nodes = leaf_node entry max_end ∷ [] } else record {
      nodes =
          insert_loop (length tree.nodes) tree.nodes 0 (length tree.nodes) max_end entry.start
          ++ leaf_node entry max_end ∷ [];
    }

abbrev pub at_child : Option ℕ → (ℕ → List RangeLockEntry) → List RangeLockEntry
at_child none search_at = []
at_child (some idx) search_at = search_at idx

unfoldable pub find_overlapping_recursive :
    ℕ → List IntervalNode → ℕ → Bound → Bound → List RangeLockEntry
find_overlapping_recursive zero nodes idx start end = []
find_overlapping_recursive (suc fuel) nodes idx start end =
    let node = node_at nodes idx in
    let below =
      λ (o : Option ℕ). at_child o (λ i. find_overlapping_recursive fuel nodes i start end) in
    if bound_less_than node.max_end start
    then []
    else below node.left
      ++ ((if overlaps node.entry start end then node.entry ∷ [] else [])
          ++ (if bound_greater_than node.entry.start end then [] else below node.right))

unfoldable pub find_overlapping : IntervalTree → Bound → Bound → List RangeLockEntry
find_overlapping tree start end =
    if is_empty tree.nodes
    then []
    else find_overlapping_recursive (length tree.nodes) tree.nodes 0 start end

unfoldable pub find_containing_key : IntervalTree → Bytes → List RangeLockEntry
find_containing_key tree key = find_overlapping tree (included key) (included key)

abbrev pub entries : IntervalTree → List RangeLockEntry
entries tree = map (λ (n : IntervalNode). n.entry) tree.nodes

-- `for entry in entries { self.insert(entry) }`
unfoldable pub insert_all : IntervalTree → List RangeLockEntry → IntervalTree
insert_all tree [] = tree
insert_all tree (entry ∷ rest) = insert_all (insert tree entry) rest

unfoldable pub remove_by_txn : IntervalTree → ℕ → IntervalTree
unfolding insert_all
remove_by_txn tree txn_id = insert_all new (
    entries
      (record { nodes = retain (λ (n : IntervalNode). not (n.entry.txn_id == txn_id)) tree.nodes }))
