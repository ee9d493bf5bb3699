-- ===== src/Lock/Range/Insertion.antt =====
-- A lock that is inserted into the interval tree gets a path from the root, and every path stays.
use crabstash.Base.{
  ℕ, zero, suc, ◌<◌, ◌≤◌, ◌≡◌, ◌≢◌, ◌⊎◌, inl, inr, refl, sym, Bytes, bytes_le, bytes_le_refl,
  bytes_le_trans, true, none, some, List, [], ◌∷◌, ◌++◌, arith, Bool-cases, length, set, length-set,
  length-append, get_or-set_self, get_or-set_ne, eqb,
}
use crabstash.Lock.Range.{
  RangeLockEntry, IntervalNode, bound_to_bytes, leaf_node, default_node, node_at,
}
use crabstash.Lock.Range.Paths.{IsForward, Covers, Trail, here, at_left, at_right}

-- A node may have become a larger end and children where it had none.
pub record Grows (m n : IntervalNode) : Type 0 where
  pub same_entry : n.entry ≡ m.entry
  pub raised : bytes_le m.max_end n.max_end ≡ true
  pub keeps_left : (c : ℕ) → m.left ≡ some c → n.left ≡ some c
  pub keeps_right : (c : ℕ) → m.right ≡ some c → n.right ≡ some c

pub Grows-refl : (m : IntervalNode) → Grows m m
Grows-refl m = record {
  same_entry = refl;
  raised = bytes_le_refl m.max_end;
  keeps_left = λ c e. e;
  keeps_right = λ c e. e;
}

Grows-trans : (l m n : IntervalNode) → Grows l m → Grows m n → Grows l n
Grows-trans l m n g h = record {
  same_entry = cc;
  raised = bytes_le_trans l.max_end m.max_end n.max_end g.raised h.raised;
  keeps_left = λ c e. h.keeps_left c (g.keeps_left c e);
  keeps_right = λ c e. h.keeps_right c (g.keeps_right c e);
}

-- The nodes of one tree grow to the nodes of the other, place by place.
pub record Extends (xs ys : List IntervalNode) : Type 0 where
  pub longer : length xs ≤ length ys
  pub grown : (i : ℕ) → i < length xs → Grows (node_at xs i) (node_at ys i)

pub Extends-trans : (xs ys zs : List IntervalNode) → Extends xs ys → Extends ys zs → Extends xs zs
Extends-trans xs ys zs g h = record {
  longer = omega (arith, g.longer, h.longer);
  grown = λ i lt.
      Grows-trans (node_at xs i) (node_at ys i) (node_at zs i) (g.grown i lt)
        (h.grown i (omega (arith, g.longer)));
}

pub node_at-set :
    (nodes : List IntervalNode) (i j : ℕ) (n : IntervalNode)
    → i < length nodes
    → ((i ≡ j) × (node_at (set nodes i n) j ≡ n))
      ⊎ ((i ≢ j) × (node_at (set nodes i n) j ≡ node_at nodes j))
node_at-set nodes i j n lt = elim (Bool-cases (eqb i j)) [
  | inl e ↦
      let e' : i ≡ j = ground arith in
      inl (e', rw (sym e') (get_or-set_self nodes i n default_node lt))
  | inr e ↦ let e' : i ≢ j = ground arith in inr (e', get_or-set_ne nodes i j n default_node e')
]

pub set-Extends :
    (nodes : List IntervalNode) (i : ℕ) (n : IntervalNode)
    → i < length nodes
    → Grows (node_at nodes i) n
    → Extends nodes (set nodes i n)
set-Extends nodes i n lt g = record {
  longer = omega (arith, length-set nodes i n);
  grown = λ j jlt. elim (node_at-set nodes i j n lt) [
    | inl (e, h) ↦ rw (h, sym e) g
    | inr (e, h) ↦ rw h (Grows-refl (node_at nodes j))
  ];
}

pub node_at-append_left :
    (nodes : List IntervalNode) (n : IntervalNode) (i : ℕ)
    → i < length nodes
    → node_at (nodes ++ n ∷ []) i ≡ node_at nodes i
node_at-append_left [] n i lt = absurd (omega arith)
node_at-append_left (m ∷ nodes) n zero lt = refl
node_at-append_left (m ∷ nodes) n (suc i) lt = node_at-append_left nodes n i (omega arith)

pub node_at-append_length :
    (nodes : List IntervalNode) (n : IntervalNode) → node_at (nodes ++ n ∷ []) (length nodes) ≡ n
node_at-append_length [] n = refl
node_at-append_length (m ∷ nodes) n = node_at-append_length nodes n

pub append-Extends :
    (nodes : List IntervalNode) (n : IntervalNode) → Extends nodes (nodes ++ n ∷ [])
append-Extends nodes n = record {
  longer = omega (arith, length-append {0} nodes (n ∷ []));
  grown = λ i lt. rw (node_at-append_left nodes n i lt) (Grows-refl (node_at nodes i));
}

-- A node is an old one, the new leaf, or stands for no place.
node_at-append_cases :
    (nodes : List IntervalNode) (n : IntervalNode) (i : ℕ)
    → (node_at (nodes ++ n ∷ []) i ≡ node_at nodes i) ⊎ (node_at (nodes ++ n ∷ []) i ≡ n)
node_at-append_cases [] n zero = inr refl
node_at-append_cases [] n (suc i) = inl refl
node_at-append_cases (m ∷ nodes) n zero = inl refl
node_at-append_cases (m ∷ nodes) n (suc i) = node_at-append_cases nodes n i

pub append-IsForward :
    (nodes : List IntervalNode) (entry : RangeLockEntry) (max_end : Bytes) (b : ℕ)
    → IsForward nodes b
    → IsForward (nodes ++ leaf_node entry max_end ∷ []) b
append-IsForward nodes entry max_end b fw = record {
  left_forward = λ i c e. elim (node_at-append_cases nodes (leaf_node entry max_end) i) [
    | inl h ↦ fw.left_forward i c (rw h at e)
    | inr h ↦ let e' : none ≡ some c = rw h at e in cc
  ];
  right_forward = λ i c e. elim (node_at-append_cases nodes (leaf_node entry max_end) i) [
    | inl h ↦ fw.right_forward i c (rw h at e)
    | inr h ↦ let e' : none ≡ some c = rw h at e in cc
  ];
}

-- The write of a node whose children, if it has any, stand behind it keeps the order of the places.
pub set-IsForward :
    (nodes : List IntervalNode) (i : ℕ) (n : IntervalNode) (b b' : ℕ)
    → i < length nodes
    → b ≤ b'
    → IsForward nodes b
    → ((c : ℕ) → n.left ≡ some c → (i < c) × (c < b'))
    → ((c : ℕ) → n.right ≡ some c → (i < c) × (c < b'))
    → IsForward (set nodes i n) b'
set-IsForward nodes i n b b' lt le fw l r = record {
  left_forward = λ j c e. elim (node_at-set nodes i j n lt) [
    | inl (q, h) ↦ rw (sym q) (l c (rw h at e))
    | inr (q, h) ↦ let (f, g) = fw.left_forward j c (rw h at e) in (f, omega arith)
  ];
  right_forward = λ j c e. elim (node_at-set nodes i j n lt) [
    | inl (q, h) ↦ rw (sym q) (r c (rw h at e))
    | inr (q, h) ↦ let (f, g) = fw.right_forward j c (rw h at e) in (f, omega arith)
  ];
}

Covers-Extends :
    (xs ys : List IntervalNode) (i j : ℕ)
    → Extends xs ys
    → i < length xs
    → j < length xs
    → Covers xs i j
    → Covers ys i j
Covers-Extends xs ys i j ext lt jlt c = rw ((ext.grown j jlt).same_entry) (
    bytes_le_trans (bound_to_bytes (node_at xs j).entry.end) (node_at xs i).max_end
      (node_at ys i).max_end c (ext.grown i lt).raised)

-- Growing the nodes keeps every path.
pub Trail-Extends :
    (xs ys : List IntervalNode) (i j : ℕ)
    → Extends xs ys
    → IsForward xs (length xs)
    → i < length xs
    → j < length xs
    → Trail xs i j
    → Trail ys i j
Trail-Extends xs ys i j ext fw lt jlt (here _ c) = here i (Covers-Extends xs ys i i ext lt lt c)
Trail-Extends xs ys i j ext fw lt jlt (at_left _ k _ e c p) =
    at_left i k j ((ext.grown i lt).keeps_left k e) (Covers-Extends xs ys i j ext lt jlt c)
      (Trail-Extends xs ys k j ext fw (fw.left_forward i k e).1 jlt p)
Trail-Extends xs ys i j ext fw lt jlt (at_right _ k _ e c s p) =
    at_right i k j ((ext.grown i lt).keeps_right k e) (Covers-Extends xs ys i j ext lt jlt c)
      (rw ((ext.grown i lt).same_entry, (ext.grown j jlt).same_entry) s)
      (Trail-Extends xs ys k j ext fw (fw.right_forward i k e).1 jlt p)
