-- ===== src/Lock/Range/Entries.antt =====
-- The locks of an interval tree after an insertion and after a removal, in the order of the vector.
use crabstash.Base.{
  nat_eq, ◌==◌, ℕ, zero, suc, ◌≡◌, inl, inr, refl, sym, ap, ◌∙◌, Bytes, bytes_lt, Bound, not, List,
  [], ◌∷◌, ◌++◌, map, retain, length, set, Bool-cases, Option, none, some,
}
use crabstash.Lock.Range.{
  RangeLockEntry, IntervalNode, IntervalTree, new, bound_to_bytes, compare_starts, is_less,
  leaf_node, node_at, raise_max, walk_left, walk_right, walk_on, insert_round, insert_loop, insert,
  entries, insert_all, remove_by_txn,
}

abbrev entries_of : List IntervalNode → List RangeLockEntry
entries_of nodes = map (λ (n : IntervalNode). n.entry) nodes

entries-set :
    (nodes : List IntervalNode) (i : ℕ) (n : IntervalNode)
    → n.entry ≡ (node_at nodes i).entry
    → entries_of (set nodes i n) ≡ entries_of nodes
entries-set [] i n h = refl
entries-set (m ∷ nodes) zero n h = rw h refl
entries-set (m ∷ nodes) (suc i) n h = ap (◌∷◌ m.entry) (entries-set nodes i n h)

same-entry-raise_max : (node : IntervalNode) (m : Bytes) → (raise_max node m).entry ≡ node.entry
unfolding raise_max
same-entry-raise_max node m = elim (Bool-cases (bytes_lt node.max_end m)) [
  | inl lt ↦ rw lt refl
  | inr ge ↦ rw ge refl
]

walk_left-entries :
    (o : Option ℕ) (nodes : List IntervalNode) (i n : ℕ) (node : IntervalNode)
    (loop : List IntervalNode → ℕ → List IntervalNode)
    → node.entry ≡ (node_at nodes i).entry
    → ((ns : List IntervalNode) (j : ℕ) → entries_of (loop ns j) ≡ entries_of ns)
    → entries_of (walk_on (walk_left o nodes i node n) loop) ≡ entries_of nodes
walk_left-entries none nodes i n node loop h ih =
    entries-set nodes i (record node { left = some n }) h
walk_left-entries (some c) nodes i n node loop h ih =
    ih (set nodes i node) c ∙ entries-set nodes i node h

walk_right-entries :
    (o : Option ℕ) (nodes : List IntervalNode) (i n : ℕ) (node : IntervalNode)
    (loop : List IntervalNode → ℕ → List IntervalNode)
    → node.entry ≡ (node_at nodes i).entry
    → ((ns : List IntervalNode) (j : ℕ) → entries_of (loop ns j) ≡ entries_of ns)
    → entries_of (walk_on (walk_right o nodes i node n) loop) ≡ entries_of nodes
walk_right-entries none nodes i n node loop h ih =
    entries-set nodes i (record node { right = some n }) h
walk_right-entries (some c) nodes i n node loop h ih =
    ih (set nodes i node) c ∙ entries-set nodes i node h

insert_loop-entries :
    (fuel : ℕ) (nodes : List IntervalNode) (idx n : ℕ) (max_end : Bytes) (start : Bound)
    → entries_of (insert_loop fuel nodes idx n max_end start) ≡ entries_of nodes
unfolding insert_loop insert_round
insert_loop-entries zero nodes idx n max_end start = refl
insert_loop-entries (suc fuel) nodes idx n max_end start =
    let node = raise_max (node_at nodes idx) max_end in
    let loop = λ (ns : List IntervalNode) (i : ℕ). insert_loop fuel ns i n max_end start in
    let ih = λ (ns : List IntervalNode) (i : ℕ). insert_loop-entries fuel ns i n max_end start in
    let same = same-entry-raise_max (node_at nodes idx) max_end in
    elim (Bool-cases (is_less (compare_starts start node.entry.start))) [
      | inl less ↦ rw less (walk_left-entries node.left nodes idx n node loop same ih)
      | inr more ↦ rw more (walk_right-entries node.right nodes idx n node loop same ih)
    ]

entries-append :
    (nodes : List IntervalNode) (n : IntervalNode)
    → entries_of (nodes ++ n ∷ []) ≡ entries_of nodes ++ n.entry ∷ []
entries-append [] n = refl
entries-append (m ∷ nodes) n = ap (◌∷◌ m.entry) (entries-append nodes n)

pub entries-insert :
    (tree : IntervalTree) (entry : RangeLockEntry)
    → entries (insert tree entry) ≡ entries tree ++ entry ∷ []
unfolding insert
entries-insert tree entry = by_nodes tree.nodes
  where
    by_nodes :
        (nodes : List IntervalNode)
        → entries (insert (record { nodes = nodes }) entry) ≡ entries_of nodes ++ entry ∷ []
    by_nodes [] = refl
    by_nodes (m ∷ ms) =
        entries-append
          (insert_loop (length (m ∷ ms)) (m ∷ ms) 0 (length (m ∷ ms)) (bound_to_bytes entry.end)
            entry.start)
          (leaf_node entry (bound_to_bytes entry.end))
        ∙ ap (λ (es : List RangeLockEntry). es ++ entry ∷ [])
            (insert_loop-entries (length (m ∷ ms)) (m ∷ ms) 0 (length (m ∷ ms))
              (bound_to_bytes entry.end) entry.start)

append_nil : (es : List RangeLockEntry) → es ++ [] ≡ es
append_nil [] = refl
append_nil (e ∷ es) = ap (◌∷◌ e) (append_nil es)

append_assoc : (xs ys zs : List RangeLockEntry) → (xs ++ ys) ++ zs ≡ xs ++ (ys ++ zs)
append_assoc [] ys zs = refl
append_assoc (x ∷ xs) ys zs = ap (◌∷◌ x) (append_assoc xs ys zs)

entries-insert_all :
    (tree : IntervalTree) (added : List RangeLockEntry)
    → entries (insert_all tree added) ≡ entries tree ++ added
unfolding insert_all
entries-insert_all tree [] = sym (append_nil (entries tree))
entries-insert_all tree (e ∷ added) =
    entries-insert_all (insert tree e) added
    ∙ ap (λ (es : List RangeLockEntry). es ++ added) (entries-insert tree e)
    ∙ append_assoc (entries tree) (e ∷ []) added

-- The locks of the other transactions.
abbrev pub others : ℕ → List RangeLockEntry → List RangeLockEntry
others txn_id es = retain (λ (e : RangeLockEntry). not (e.txn_id == txn_id)) es

entries-retain :
    (nodes : List IntervalNode) (txn_id : ℕ)
    → entries_of (retain (λ (n : IntervalNode). not (n.entry.txn_id == txn_id)) nodes)
      ≡ others txn_id (entries_of nodes)
unfolding retain
entries-retain [] txn_id = refl
entries-retain (n ∷ nodes) txn_id = elim (Bool-cases (not (n.entry.txn_id == txn_id))) [
  | inl keep ↦ rw keep (ap (◌∷◌ n.entry) (entries-retain nodes txn_id))
  | inr drop ↦ rw drop (entries-retain nodes txn_id)
]

pub entries-remove_by_txn :
    (tree : IntervalTree) (txn_id : ℕ)
    → entries (remove_by_txn tree txn_id) ≡ others txn_id (entries tree)
unfolding remove_by_txn
entries-remove_by_txn tree txn_id =
    entries-insert_all new (
      entries (record {
        nodes = retain (λ (n : IntervalNode). not (n.entry.txn_id == txn_id)) tree.nodes;
      }))
    ∙ entries-retain tree.nodes txn_id
