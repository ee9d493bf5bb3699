-- ===== src/Lock/WaitGraph/Edges.antt =====
-- What each operation on the wait-for graph does to the edges.
use crabstash.Base.{
  nat_eq, eqb_iff, ℕ, ◌≡◌, refl, Bool, true, false, not, ◌&&◌, ◌||◌, Option, none, some, List, [],
  ◌∷◌, if◌then◌else◌, ◌==◌, is_empty, arith, Bool-cases, Option-cases, inl, inr, ap, ◌∙◌, fun_ext,
}
use crabstash.Base.Map
use crabstash.Base.Map.{Map}
use crabstash.Base.Set
use crabstash.Lock.WaitGraph.{
  TxnInfo, WaitForGraph, register_txn, remove_everywhere, unregister_txn, or_default, add_wait_edge,
  remove_wait_edge_from, remove_wait_edge, remove_all_waits, increment_lock_count,
  decrement_lock_count, set_lock_count,
}

-- The graph says that `waiter` waits for `holder`.
unfoldable pub waits_for : WaitForGraph → ℕ → ℕ → Bool
waits_for g waiter holder = Set.contains holder (or_default (Map.get waiter g.edges))

empty-contains : (s : List ℕ) (b : ℕ) → is_empty s ≡ true → Set.contains b s ≡ false
unfolding Set.contains
empty-contains [] b h = refl
empty-contains (x ∷ s) b h = absurd (ground arith)

get-remove_everywhere :
    (t w : ℕ) (m : Map ℕ (List ℕ)) (h : ℕ)
    → Set.contains h (or_default (Map.get w (remove_everywhere t m)))
      ≡ (if t == h then false else Set.contains h (or_default (Map.get w m)))
unfolding remove_everywhere Map.get Set.contains
get-remove_everywhere t w [] h = ground arith
get-remove_everywhere t w ((i, s) ∷ m) h = elim (Bool-cases (i == w)) [
  | inl here ↦ rw here (Set.contains-remove t h s)
  | inr there ↦ rw there (get-remove_everywhere t w m h)
]

-- Exactly the new edge is added; a transaction never waits for itself.
add_wait_edge_lem :
    (g : WaitForGraph) (w h a b : ℕ)
    → waits_for (add_wait_edge g w h) a b
      ≡ ((not (w == h) && (w == a && h == b)) || waits_for g a b)
unfolding waits_for add_wait_edge Set.contains
add_wait_edge_lem g w h a b = elim (Bool-cases (w == h)) [
  | inl self ↦ rw self refl
  | inr apart ↦ rw apart (
      ground (
        arith,
        Map.get-insert w a (Set.insert h (or_default (Map.get w g.edges))) g.edges,
        Set.contains-insert h b (or_default (Map.get w g.edges)),
        eqb_iff w a,
      ))
]

-- Exactly the removed edge is gone, also where the last edge of a waiter takes its entry with it.
remove_wait_edge_lem :
    (g : WaitForGraph) (w h a b : ℕ)
    → waits_for (remove_wait_edge g w h) a b ≡ (if w == a && h == b then false else waits_for g a b)
unfolding waits_for remove_wait_edge
remove_wait_edge_lem g w h a b = elim (Option-cases (Map.get w g.edges)) [
  | inl absent ↦ rw (absent, remove_wait_edge_from) (no_entry absent)
  | inr (s, found) ↦ rw (found, remove_wait_edge_from) (entry s found)
]
  where
    no_entry :
        Map.get w g.edges ≡ none
        → waits_for g a b ≡ (if w == a && h == b then false else waits_for g a b)
    no_entry absent = unfold Set.contains in ground (arith, eqb_iff w a)

    entry :
        (s : List ℕ)
        → Map.get w g.edges ≡ some s
        → waits_for (remove_wait_edge_from (some s) g w h) a b
          ≡ (if w == a && h == b then false else waits_for g a b)
    entry s found = elim (Bool-cases (is_empty (Set.remove h s))) [
      | inl last ↦ ground (
        arith,
        Map.get-remove w a g.edges,
        eqb_iff w a,
        Set.contains-remove h b s,
        empty-contains (Set.remove h s) b last,
      )
      | inr more ↦ ground (
        arith,
        Map.get-insert w a (Set.remove h s) g.edges,
        eqb_iff w a,
        Set.contains-remove h b s,
      )
    ]

-- An unregistered transaction neither waits nor is waited for; the other edges stay.
unregister_txn_lem :
    (g : WaitForGraph) (t a b : ℕ)
    → waits_for (unregister_txn g t) a b ≡ (if t == a || t == b then false else waits_for g a b)
unfolding waits_for unregister_txn Set.contains
unregister_txn_lem g t a b =
    get-remove_everywhere t a (Map.remove t g.edges) b ∙ ground (arith, Map.get-remove t a g.edges)

-- The waits of one transaction are dropped; the edges towards it and all others stay.
remove_all_waits_lem :
    (g : WaitForGraph) (t a b : ℕ)
    → waits_for (remove_all_waits g t) a b ≡ (if t == a then false else waits_for g a b)
unfolding waits_for remove_all_waits Set.contains
remove_all_waits_lem g t a b = ground (arith, Map.get-remove t a g.edges)

-- What each operation does to the edges, as one statement over the operations.
pub data GraphOp : Type 0 where
  register : ℕ → ℕ → ℕ → GraphOp
  unregister : ℕ → GraphOp
  add remove : ℕ → ℕ → GraphOp
  remove_all increment decrement : ℕ → GraphOp

abbrev pub apply : WaitForGraph → GraphOp → WaitForGraph
apply g (register t start_ts priority) = register_txn g t start_ts priority
apply g (unregister t) = unregister_txn g t
apply g (add w h) = add_wait_edge g w h
apply g (remove w h) = remove_wait_edge g w h
apply g (remove_all t) = remove_all_waits g t
apply g (increment t) = increment_lock_count g t
apply g (decrement t) = decrement_lock_count g t

abbrev pub apply_all : WaitForGraph → List GraphOp → WaitForGraph
apply_all g [] = g
apply_all g (op ∷ ops) = apply_all (apply g op) ops

-- The edges that the calls have added and not taken away again, computed from the calls alone.
abbrev pub expected : (ℕ → ℕ → Bool) → GraphOp → ℕ → ℕ → Bool
expected e (register t s p) a b = e a b
expected e (unregister t) a b = if t == a || t == b then false else e a b
expected e (add w h) a b = (not (w == h) && (w == a && h == b)) || e a b
expected e (remove w h) a b = if w == a && h == b then false else e a b
expected e (remove_all t) a b = if t == a then false else e a b
expected e (increment t) a b = e a b
expected e (decrement t) a b = e a b

abbrev pub expected_all : (ℕ → ℕ → Bool) → List GraphOp → ℕ → ℕ → Bool
expected_all e [] = e
expected_all e (op ∷ ops) = expected_all (expected e op) ops

waits_for-set_lock_count :
    (f : ℕ → ℕ) (o : Option TxnInfo) (g : WaitForGraph) (t a b : ℕ)
    → waits_for (set_lock_count f o g t) a b ≡ waits_for g a b
unfolding waits_for set_lock_count
waits_for-set_lock_count f none g t a b = refl
waits_for-set_lock_count f (some info) g t a b = refl

waits_for-apply :
    (g : WaitForGraph) (op : GraphOp) (a b : ℕ)
    → waits_for (apply g op) a b ≡ expected (waits_for g) op a b
waits_for-apply g (register t s p) a b = unfold waits_for register_txn in refl
waits_for-apply g (unregister t) a b = unregister_txn_lem g t a b
waits_for-apply g (add w h) a b = add_wait_edge_lem g w h a b
waits_for-apply g (remove w h) a b = remove_wait_edge_lem g w h a b
waits_for-apply g (remove_all t) a b = remove_all_waits_lem g t a b
waits_for-apply g (increment t) a b =
    unfold increment_lock_count in waits_for-set_lock_count _ (Map.get t g.txn_info) g t a b
waits_for-apply g (decrement t) a b =
    unfold decrement_lock_count in waits_for-set_lock_count _ (Map.get t g.txn_info) g t a b

-- After any sequence of calls, from any graph, the edges are exactly those that the calls describe:
-- the operations on the sets, with their special cases, implement a plain relation.
pub waits_for-apply_all :
    (g : WaitForGraph) (ops : List GraphOp) (a b : ℕ)
    → waits_for (apply_all g ops) a b ≡ expected_all (waits_for g) ops a b
waits_for-apply_all g [] a b = refl
waits_for-apply_all g (op ∷ ops) a b =
    waits_for-apply_all (apply g op) ops a b
    ∙ ap (λ (e : ℕ → ℕ → Bool). expected_all e ops a b)
        (fun_ext λ c. fun_ext λ d. waits_for-apply g op c d)
