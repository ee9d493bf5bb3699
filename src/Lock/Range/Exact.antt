-- ===== src/Lock/Range/Exact.antt =====
-- The interval tree against a plain list of the locks that are in it.
use crabstash.Base.{
  nat_eq, ◌==◌, retain, not, ℕ, zero, suc, ◌<◌, ◌≡◌, ◌↔◌, refl, sym, ◌∙◌, Bound, true, false, List,
  [], ◌∷◌, ◌++◌, length, arith, In, subst, bytes_le_refl, none, some,
}
use native.Mathlib.Decide.{dec_lt}
use crabstash.Lock.Range.{
  RangeLockEntry, overlaps, IntervalNode, IntervalTree, new, unbounded_end, bound_to_bytes,
  bound_less_than, leaf_node, node_at, insert_loop, insert, find_overlapping, entries, insert_all,
  remove_by_txn,
}
use crabstash.Lock.Range.Paths.{IsForward, Trail, here, find_complete, find_sound, node_at-In}
use crabstash.Lock.Range.Insertion.{Trail-Extends}
use crabstash.Lock.Range.Descent.{insert_loop-Placed}

-- A path leads from the root to every node.
pub record IsSearchable (tree : IntervalTree) : Type 0 where
  pub forward : IsForward tree.nodes (length tree.nodes)
  pub paths : (j : ℕ) → j < length tree.nodes → Trail tree.nodes 0 j

pub new-IsSearchable : IsSearchable new
new-IsSearchable = record {
  forward = record { left_forward = λ i c e. cc; right_forward = λ i c e. cc };
  paths = λ j lt. absurd (omega arith);
}

lone-IsForward :
    (entry : RangeLockEntry) → IsForward (leaf_node entry (bound_to_bytes entry.end) ∷ []) 1
lone-IsForward entry = record {
  left_forward = λ i c e. let e' : none ≡ some c = sym (no_left i) ∙ e in cc;
  right_forward = λ i c e. let e' : none ≡ some c = sym (no_right i) ∙ e in cc;
}
  where
    no_left : (i : ℕ) → (node_at (leaf_node entry (bound_to_bytes entry.end) ∷ []) i).left ≡ none
    no_left zero = refl
    no_left (suc i) = refl

    no_right : (i : ℕ) → (node_at (leaf_node entry (bound_to_bytes entry.end) ∷ []) i).right ≡ none
    no_right zero = refl
    no_right (suc i) = refl

pub insert-IsSearchable :
    (tree : IntervalTree) (entry : RangeLockEntry)
    → IsSearchable tree
    → IsSearchable (insert tree entry)
unfolding insert
insert-IsSearchable tree entry s = by_nodes tree.nodes s.forward s.paths
  where
    lone-path : (j : ℕ) → j < 1 → Trail (leaf_node entry (bound_to_bytes entry.end) ∷ []) 0 j
    lone-path zero lt = here 0 (bytes_le_refl (bound_to_bytes entry.end))
    lone-path (suc j) lt = absurd (omega arith)

    by_nodes :
        (nodes : List IntervalNode)
        → IsForward nodes (length nodes)
        → ((j : ℕ) → j < length nodes → Trail nodes 0 j)
        → IsSearchable (insert (record { nodes = nodes }) entry)
    by_nodes [] fw ps = record { forward = lone-IsForward entry; paths = lone-path }
    by_nodes (m ∷ ms) fw ps =
        let p =
          insert_loop-Placed entry (length (m ∷ ms)) (m ∷ ms) 0 (length (m ∷ ms)) fw refl
            (omega arith) (omega arith) in
        record {
          forward = rw p.grown_length p.forward;
          paths = λ j lt. elim (dec_lt j (length (m ∷ ms))) [
            | yes old ↦ Trail-Extends (m ∷ ms) _ 0 j p.extends fw (omega arith) old (ps j old)
            | no other ↦
                let q : length (m ∷ ms) ≡ j = omega (arith, p.grown_length) in
                subst
                  (λ (k : ℕ).
                    Trail
                      (insert_loop (length (m ∷ ms)) (m ∷ ms) 0 (length (m ∷ ms))
                          (bound_to_bytes entry.end) entry.start
                        ++ leaf_node entry (bound_to_bytes entry.end) ∷ [])
                      0 k)
                  q p.path
          ];
        }

insert_all-IsSearchable :
    (tree : IntervalTree) (added : List RangeLockEntry)
    → IsSearchable tree
    → IsSearchable (insert_all tree added)
unfolding insert_all
insert_all-IsSearchable tree [] s = s
insert_all-IsSearchable tree (entry ∷ rest) s =
    insert_all-IsSearchable (insert tree entry) rest (insert-IsSearchable tree entry s)

pub remove_by_txn-IsSearchable :
    (tree : IntervalTree) (txn_id : ℕ) → IsSearchable (remove_by_txn tree txn_id)
unfolding remove_by_txn
remove_by_txn-IsSearchable tree txn_id =
    insert_all-IsSearchable new
      (entries (record {
        nodes = retain (λ (n : IntervalNode). not (n.entry.txn_id == txn_id)) tree.nodes;
      }))
      new-IsSearchable

-- The search of a tree answers exactly its locks that overlap the range.
pub find_overlapping-IsSearchable :
    (tree : IntervalTree) (start end : Bound) (a : RangeLockEntry)
    → IsSearchable tree
    → bound_less_than unbounded_end start ≡ false
    → In a (find_overlapping tree start end) ↔ (In a (entries tree) × (overlaps a start end ≡ true))
unfolding find_overlapping
find_overlapping-IsSearchable tree start end a s u = by_nodes tree.nodes s.forward s.paths
  where
    by_nodes :
        (nodes : List IntervalNode)
        → IsForward nodes (length nodes)
        → ((j : ℕ) → j < length nodes → Trail nodes 0 j)
        → In a (find_overlapping (record { nodes = nodes }) start end)
          ↔ (In a (entries (record { nodes = nodes })) × (overlaps a start end ≡ true))
    by_nodes [] fw ps = (λ m. absurd m, λ m. absurd m.0)
    by_nodes (m ∷ ms) fw ps = (
      find_sound (m ∷ ms) start end (length (m ∷ ms)) 0 a fw (omega arith),
      λ (i, o).
          let (j, lt, e) = node_at-In (m ∷ ms) a i in
          rw e (
            find_complete (m ∷ ms) start end (length (m ∷ ms)) (length (m ∷ ms)) 0 j fw u
              (rw e at o) (omega arith) (omega arith) (ps j lt)),
    )
