-- ===== src/Lock/Range/Descent.antt =====
-- The loop of `IntervalTree::insert` ends at a place for the new node, and what it passes grows.
use crabstash.Base.{
  ℕ, zero, suc, ◌+◌, ◌<◌, ◌≤◌, ◌≡◌, inl, inr, refl, sym, bytes_lt, bytes_le, bytes_le_refl,
  bytes_le_trans, bytes_le_of_lt, bytes_lt-not_le, true, false, Option, none, some, List, [], ◌∷◌,
  ◌++◌, arith, Bool-cases, length, set, length-set, get_or-set_self, subst, ◌∙◌, length-append,
}
use crabstash.Lock.Range.{
  RangeLockEntry, IntervalNode, bound_to_bytes, compare_starts, is_less, leaf_node, default_node,
  node_at, raise_max, walk_left, walk_right, insert_round, walk_on, insert_loop,
}
use crabstash.Lock.Range.Paths.{IsForward, Trail, here, at_left, at_right}
use crabstash.Lock.Range.Insertion.{
  Grows, Grows-refl, Extends, Extends-trans, set-Extends, append-Extends, append-IsForward,
  set-IsForward, node_at-append_left, node_at-append_length,
}

module _ (entry : RangeLockEntry) where
  abbrev pub new_node : IntervalNode
  new_node = leaf_node entry (bound_to_bytes entry.end)

  -- The node n of the grown nodes is the new one, and a path leads to it from idx.
  pub record Placed (nodes : List IntervalNode) (idx n : ℕ) (final : List IntervalNode)
      : Type 0 where
    pub extends : Extends nodes final
    pub grown_length : length final ≡ suc n
    pub forward : IsForward final (suc n)
    pub last : node_at final n ≡ new_node
    pub path : Trail final idx n

  -- The node that the loop has reached, with the end raised.
  record Raised (nodes : List IntervalNode) (idx : ℕ) (node : IntervalNode) : Type 0 where
    grows : Grows (node_at nodes idx) node
    same_left : node.left ≡ (node_at nodes idx).left
    same_right : node.right ≡ (node_at nodes idx).right
    bounds : bytes_le (bound_to_bytes entry.end) node.max_end ≡ true

  raise_max-Raised :
      (nodes : List IntervalNode) (idx : ℕ)
      → Raised nodes idx (raise_max (node_at nodes idx) (bound_to_bytes entry.end))
  unfolding raise_max
  raise_max-Raised nodes idx =
      elim (Bool-cases (bytes_lt (node_at nodes idx).max_end (bound_to_bytes entry.end))) [
        | inl lt ↦ rw lt record {
          grows = record {
            same_entry = refl;
            raised = bytes_le_of_lt (node_at nodes idx).max_end (bound_to_bytes entry.end) lt;
            keeps_left = λ c e. e;
            keeps_right = λ c e. e;
          };
          same_left = refl;
          same_right = refl;
          bounds = bytes_le_refl (bound_to_bytes entry.end);
        }
        | inr ge ↦ rw ge record {
          grows = record {
            same_entry = refl;
            raised = bytes_le_refl (node_at nodes idx).max_end;
            keeps_left = λ c e. e;
            keeps_right = λ c e. e;
          };
          same_left = refl;
          same_right = refl;
          bounds =
              ground
                (arith, bytes_lt-not_le (node_at nodes idx).max_end (bound_to_bytes entry.end));
        }
      ]

  -- Below a node whose end is raised to the new lock's, the path goes on to the left or to the right.
  left_path :
      (final : List IntervalNode) (idx c n : ℕ) (node : IntervalNode)
      → Grows node (node_at final idx)
      → bytes_le (bound_to_bytes entry.end) node.max_end ≡ true
      → node.left ≡ some c
      → node_at final n ≡ new_node
      → Trail final c n
      → Trail final idx n
  left_path final idx c n node g b e last p =
      at_left idx c n (g.keeps_left c e)
        (rw last (
          bytes_le_trans (bound_to_bytes entry.end) node.max_end (node_at final idx).max_end b
            g.raised))
        p

  right_path :
      (final : List IntervalNode) (idx c n : ℕ) (node : IntervalNode)
      → Grows node (node_at final idx)
      → bytes_le (bound_to_bytes entry.end) node.max_end ≡ true
      → is_less (compare_starts entry.start node.entry.start) ≡ false
      → node.right ≡ some c
      → node_at final n ≡ new_node
      → Trail final c n
      → Trail final idx n
  right_path final idx c n node g b s e last p =
      at_right idx c n (g.keeps_right c e)
        (rw last (
          bytes_le_trans (bound_to_bytes entry.end) node.max_end (node_at final idx).max_end b
            g.raised))
        (rw (last, g.same_entry) s) p

  -- The loop ends: the node that it has reached, which has grown, gets the new node as a child.
  stop-Placed :
      (nodes : List IntervalNode) (idx n : ℕ) (node : IntervalNode)
      → IsForward nodes n
      → length nodes ≡ n
      → idx < n
      → Grows (node_at nodes idx) node
      → ((c : ℕ) → node.left ≡ some c → (idx < c) × (c < suc n))
      → ((c : ℕ) → node.right ≡ some c → (idx < c) × (c < suc n))
      → ((final : List IntervalNode)
          → node_at final idx ≡ node
          → node_at final n ≡ new_node
          → Trail final n n
          → Trail final idx n)
      → Placed nodes idx n (set nodes idx node ++ new_node ∷ [])
  stop-Placed nodes idx n node fw len lt g l r path = record {
    extends = ext;
    grown_length = omega (arith, len', length-append {0} (set nodes idx node) (new_node ∷ []));
    forward =
        append-IsForward (set nodes idx node) entry (bound_to_bytes entry.end) (suc n)
          (set-IsForward nodes idx node n (suc n) lt' (omega arith) fw l r);
    last = last;
    path =
        path (set nodes idx node ++ new_node ∷ []) at_idx last
          (here n (rw last (bytes_le_refl (bound_to_bytes entry.end))));
  }
    where
      lt' : idx < length nodes
      lt' = omega (arith, len, lt)

      len' : length (set nodes idx node) ≡ n
      len' = omega (arith, len, length-set nodes idx node)

      ext : Extends nodes (set nodes idx node ++ new_node ∷ [])
      ext =
          Extends-trans nodes (set nodes idx node) (set nodes idx node ++ new_node ∷ [])
            (set-Extends nodes idx node lt' g) (append-Extends (set nodes idx node) new_node)

      last : node_at (set nodes idx node ++ new_node ∷ []) n ≡ new_node
      last =
          subst (λ (k : ℕ). node_at (set nodes idx node ++ new_node ∷ []) k ≡ new_node) len'
            (node_at-append_length (set nodes idx node) new_node)

      at_idx : node_at (set nodes idx node ++ new_node ∷ []) idx ≡ node
      at_idx =
          node_at-append_left (set nodes idx node) new_node idx (omega (arith, len', lt))
          ∙ get_or-set_self nodes idx node default_node lt'

  -- The loop goes on at a child: what holds of the rest of it holds of all of it.
  go-Placed :
      (nodes : List IntervalNode) (idx c n : ℕ) (node : IntervalNode) (final : List IntervalNode)
      → idx < length nodes
      → Grows (node_at nodes idx) node
      → (Grows node (node_at final idx)
          → node_at final n ≡ new_node
          → Trail final c n
          → Trail final idx n)
      → Placed (set nodes idx node) c n final
      → Placed nodes idx n final
  go-Placed nodes idx c n node final lt g path p = record {
    extends =
        Extends-trans nodes (set nodes idx node) final (set-Extends nodes idx node lt g) p.extends;
    grown_length = p.grown_length;
    forward = p.forward;
    last = p.last;
    path = path grows p.last p.path;
  }
    where
      grows : Grows node (node_at final idx)
      grows =
          rw (get_or-set_self nodes idx node default_node lt) at
            (p.extends.grown idx (omega (arith, length-set nodes idx node, lt)))

  left-Placed :
      (o : Option ℕ) (nodes : List IntervalNode) (idx n : ℕ) (node : IntervalNode)
      (loop : List IntervalNode → ℕ → List IntervalNode)
      → o ≡ node.left
      → IsForward nodes n
      → length nodes ≡ n
      → idx < n
      → Raised nodes idx node
      → ((c : ℕ)
          → node.left ≡ some c
          → Placed (set nodes idx node) c n (loop (set nodes idx node) c ++ new_node ∷ []))
      → Placed nodes idx n (walk_on (walk_left o nodes idx node n) loop ++ new_node ∷ [])
  left-Placed none nodes idx n node loop e fw len lt r ih =
      stop-Placed nodes idx n (record node { left = some n }) fw len lt
        (record {
          same_entry = r.grows.same_entry;
          raised = r.grows.raised;
          keeps_left = λ c h. let no_child : none ≡ some c = e ∙ r.same_left ∙ h in cc;
          keeps_right = r.grows.keeps_right;
        })
        (λ c h. let q : n ≡ c = cc in (omega arith, omega arith))
        (λ c h. let (f, g) = fw.right_forward idx c (sym r.same_right ∙ h) in (f, omega arith))
        (λ final at_idx last p.
          left_path final idx n n (record node { left = some n })
            (rw at_idx (Grows-refl (record node { left = some n }))) r.bounds refl last p)
  left-Placed (some c) nodes idx n node loop e fw len lt r ih =
      go-Placed nodes idx c n node (loop (set nodes idx node) c ++ new_node ∷ []) (omega arith)
        r.grows
        (λ g last p.
          left_path (loop (set nodes idx node) c ++ new_node ∷ []) idx c n node g r.bounds (sym e)
            last p)
        (ih c (sym e))

  right-Placed :
      (o : Option ℕ) (nodes : List IntervalNode) (idx n : ℕ) (node : IntervalNode)
      (loop : List IntervalNode → ℕ → List IntervalNode)
      → o ≡ node.right
      → is_less (compare_starts entry.start node.entry.start) ≡ false
      → IsForward nodes n
      → length nodes ≡ n
      → idx < n
      → Raised nodes idx node
      → ((c : ℕ)
          → node.right ≡ some c
          → Placed (set nodes idx node) c n (loop (set nodes idx node) c ++ new_node ∷ []))
      → Placed nodes idx n (walk_on (walk_right o nodes idx node n) loop ++ new_node ∷ [])
  right-Placed none nodes idx n node loop e s fw len lt r ih =
      stop-Placed nodes idx n (record node { right = some n }) fw len lt
        (record {
          same_entry = r.grows.same_entry;
          raised = r.grows.raised;
          keeps_left = r.grows.keeps_left;
          keeps_right = λ c h. let no_child : none ≡ some c = e ∙ r.same_right ∙ h in cc;
        })
        (λ c h. let (f, g) = fw.left_forward idx c (sym r.same_left ∙ h) in (f, omega arith))
        (λ c h. let q : n ≡ c = cc in (omega arith, omega arith))
        (λ final at_idx last p.
          right_path final idx n n (record node { right = some n })
            (rw at_idx (Grows-refl (record node { right = some n }))) r.bounds s refl last p)
  right-Placed (some c) nodes idx n node loop e s fw len lt r ih =
      go-Placed nodes idx c n node (loop (set nodes idx node) c ++ new_node ∷ []) (omega arith)
        r.grows
        (λ g last p.
          right_path (loop (set nodes idx node) c ++ new_node ∷ []) idx c n node g r.bounds s
            (sym e) last p)
        (ih c (sym e))

  Raised-IsForward :
      (nodes : List IntervalNode) (idx n : ℕ) (node : IntervalNode)
      → IsForward nodes n
      → length nodes ≡ n
      → idx < n
      → Raised nodes idx node
      → IsForward (set nodes idx node) n
  Raised-IsForward nodes idx n node fw len lt r =
      set-IsForward nodes idx node n n (omega arith) (omega arith) fw
        (λ c h. fw.left_forward idx c (sym r.same_left ∙ h))
        (λ c h. fw.right_forward idx c (sym r.same_right ∙ h))

  -- With as many rounds as nodes stand at the place or behind it, the loop places the new node.
  pub insert_loop-Placed :
      (fuel : ℕ) (nodes : List IntervalNode) (idx n : ℕ)
      → IsForward nodes n
      → length nodes ≡ n
      → idx < n
      → n ≤ fuel + idx
      → Placed nodes idx n
          (insert_loop fuel nodes idx n (bound_to_bytes entry.end) entry.start ++ new_node ∷ [])
  unfolding insert_loop insert_round
  insert_loop-Placed zero nodes idx n fw len lt le = absurd (omega arith)
  insert_loop-Placed (suc fuel) nodes idx n fw len lt le =
      let node = raise_max (node_at nodes idx) (bound_to_bytes entry.end) in
      let r = raise_max-Raised nodes idx in
      let loop = λ (ns : List IntervalNode) (i : ℕ).
        insert_loop fuel ns i n (bound_to_bytes entry.end) entry.start in
      let rest = λ (c : ℕ) (ahead : idx < c) (inside : c < n).
        insert_loop-Placed fuel (set nodes idx node) c n
          (Raised-IsForward nodes idx n node fw len lt r) (omega (arith, length-set nodes idx node))
          inside (omega arith) in
      elim (Bool-cases (is_less (compare_starts entry.start node.entry.start))) [
        | inl less ↦ rw less (
            left-Placed node.left nodes idx n node loop refl fw len lt r
              (λ c h. let (f, g) = fw.left_forward idx c (sym r.same_left ∙ h) in rest c f g))
        | inr more ↦ rw more (
            right-Placed node.right nodes idx n node loop refl more fw len lt r
              (λ c h. let (f, g) = fw.right_forward idx c (sym r.same_right ∙ h) in rest c f g))
      ]
