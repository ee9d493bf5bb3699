-- ===== src/Lock/Ssi/Writers.antt =====
-- crabstash-lock/src/ssi.rs: the counter of active writers over the runs of the manager.
use crabstash.Base.{
  nat_eq, eqb_iff, ℕ, ◌+◌, ◌%◌, ◌^◌, ◌≡◌, inl, inr, refl, ◌∙◌, ap, Bytes, Bound, Bool, true, false,
  not, none, some, List, [], ◌∷◌, is_empty, if◌then◌else◌, ltb, arith, Bool-cases, Option-cases,
  ◌==◌,
}
use crabstash.Base.Map
use crabstash.Base.Map.{Map}
use crabstash.Base.Set
use crabstash.Lock.Ssi.RwSet
use crabstash.Lock.Ssi.RwSet.{ReadWriteSet}
use crabstash.Lock.Ssi.Manager
use crabstash.Lock.Ssi.Manager.{SsiManager, SsiStats, bump, drop_one, is_writer}
use crabstash.Lock.Ssi.Validate.{install, validate_and_commit_with_keys}
use crabstash.Lock.Ssi.Stale.{validate-cases}

abbrev pub one_if : Bool → ℕ
one_if true = 1
one_if false = 0

-- How many active transactions have written.
unfoldable pub writers : Map ℕ ReadWriteSet → ℕ
writers [] = 0
writers ((t, s) ∷ m) = one_if (is_writer (some s)) + writers m

-- The counter is the number of active transactions that have written, as a machine word; and no
-- transaction is active twice.
pub record CountsWriters (m : SsiManager) : Type 0 where
  pub distinct : Map.Distinct m.active_txns
  pub counted : m.active_writers ≡ writers m.active_txns % 2 ^ 64

writers-remove :
    (t : ℕ) (a : Map ℕ ReadWriteSet)
    → Map.Distinct a
    → writers (Map.remove t a) + one_if (is_writer (Map.get t a)) ≡ writers a
unfolding writers Map.remove Map.get
writers-remove t [] d = refl
writers-remove t ((j, s) ∷ a) d = elim (Bool-cases (j == t)) [
  | inl same ↦ rw (same, Map.remove_absent t a (rw ((eqb_iff j t).0 same) at d.0)) (omega arith)
  | inr other ↦ rw other (omega (arith, writers-remove t a d.1))
]

writers-insert :
    (t : ℕ) (s : ReadWriteSet) (a : Map ℕ ReadWriteSet)
    → Map.Distinct a
    → writers (Map.insert t s a) + one_if (is_writer (Map.get t a))
      ≡ writers a + one_if (is_writer (some s))
unfolding Map.insert
writers-insert t s a d = unfold writers in omega (arith, writers-remove t a d)

-- One call of the manager.
pub data SsiOp : Type 0 where
  begin_read_only begin : ℕ → ℕ → SsiOp
  read write : ℕ → Bytes → SsiOp
  range_read : ℕ → Bound → Bound → SsiOp
  validate : ℕ → ℕ → ℕ → List Bytes → SsiOp
  abort commit_read_only watermark : ℕ → SsiOp

module _ (hash_key : Bytes → ℕ) where
  abbrev pub step : SsiManager → SsiOp → SsiManager
  step m (begin_read_only t ts) = Manager.begin_read_only_txn m t ts
  step m (begin t ts) = Manager.begin_txn_with_ts m t ts
  step m (read t key) = Manager.record_read hash_key m t key
  step m (write t key) = Manager.record_write hash_key m t key
  step m (range_read t start end) = Manager.record_range_read m t start end
  step m (validate t r c keys) = (validate_and_commit_with_keys m t r c keys).0
  step m (abort t) = Manager.abort_txn m t
  step m (commit_read_only t) = Manager.commit_read_only_txn m t
  step m (watermark w) = Manager.advance_watermark m w

-- A transaction begins under an identifier that is not active.
abbrev pub IsFresh : SsiManager → SsiOp → Type 0
IsFresh m (begin t ts) = Map.get t m.active_txns ≡ none
IsFresh m (begin_read_only t ts) = Unit
IsFresh m (read t key) = Unit
IsFresh m (write t key) = Unit
IsFresh m (range_read t start end) = Unit
IsFresh m (validate t r c keys) = Unit
IsFresh m (abort t) = Unit
IsFresh m (commit_read_only t) = Unit
IsFresh m (watermark w) = Unit

begin-CountsWriters :
    (m : SsiManager) (t ts : ℕ)
    → Map.get t m.active_txns ≡ none
    → CountsWriters m
    → CountsWriters (Manager.begin_txn_with_ts m t ts)
unfolding Manager.begin_txn_with_ts
begin-CountsWriters m t ts fresh inv = record {
  distinct = Map.insert-Distinct t RwSet.new m.active_txns inv.distinct;
  counted =
      inv.counted
      ∙ ap (λ (n : ℕ). n % 2 ^ 64)
          (ground (arith, writers-insert t RwSet.new m.active_txns inv.distinct));
}

-- A set that is replaced by one with the same writes.
same_writes-CountsWriters :
    (m : SsiManager) (t : ℕ) (s s' : ReadWriteSet)
    → Map.get t m.active_txns ≡ some s
    → is_empty s'.write_keys ≡ is_empty s.write_keys
    → CountsWriters m
    → m.active_writers ≡ writers (Map.insert t s' m.active_txns) % 2 ^ 64
same_writes-CountsWriters m t s s' active same inv =
    inv.counted
    ∙ ap (λ (n : ℕ). n % 2 ^ 64) (ground (arith, writers-insert t s' m.active_txns inv.distinct))

module _ (hash_key : Bytes → ℕ) where
  read-CountsWriters :
      (m : SsiManager) (t : ℕ) (key : Bytes)
      → CountsWriters m
      → CountsWriters (Manager.record_read hash_key m t key)
  unfolding Manager.record_read
  read-CountsWriters m t key inv = elim (Option-cases (Map.get t m.active_txns)) [
    | inl absent ↦ rw absent inv
    | inr (s, active) ↦ rw active (record {
      distinct =
          Map.insert-Distinct t (RwSet.record_read hash_key s key) m.active_txns inv.distinct;
      counted =
          same_writes-CountsWriters m t s (RwSet.record_read hash_key s key) active
            (unfold RwSet.record_read in refl) inv;
    })
  ]

  write-CountsWriters :
      (m : SsiManager) (t : ℕ) (key : Bytes)
      → CountsWriters m
      → CountsWriters (Manager.record_write hash_key m t key)
  unfolding Manager.record_write
  write-CountsWriters m t key inv = elim (Option-cases (Map.get t m.active_txns)) [
    | inl absent ↦ rw absent inv
    | inr (s, active) ↦ rw active (record {
      distinct =
          Map.insert-Distinct t (RwSet.record_write hash_key s key) m.active_txns inv.distinct;
      counted =
          unfold RwSet.record_write in
          ground (
            arith,
            inv.counted,
            writers-insert t (RwSet.record_write hash_key s key) m.active_txns inv.distinct,
            Set.is_empty-insert (hash_key key) s.write_keys,
          );
    })
  ]

range_read-CountsWriters :
    (m : SsiManager) (t : ℕ) (start end : Bound)
    → CountsWriters m
    → CountsWriters (Manager.record_range_read m t start end)
unfolding Manager.record_range_read
range_read-CountsWriters m t start end inv = elim (Option-cases (Map.get t m.active_txns)) [
  | inl absent ↦ rw absent inv
  | inr (s, active) ↦ rw active (record {
    distinct =
        Map.insert-Distinct t (RwSet.record_range_read s start end) m.active_txns inv.distinct;
    counted =
        same_writes-CountsWriters m t s (RwSet.record_range_read s start end) active
          (unfold RwSet.record_range_read in refl) inv;
  })
]

-- One writer fewer, on the counter and in the count.
drop_one-count :
    (count n n' : ℕ) (b : Bool)
    → count ≡ n % 2 ^ 64
    → n' + one_if b ≡ n
    → (if b then drop_one count else count) ≡ n' % 2 ^ 64
drop_one-count count n n' true e f = omega arith
drop_one-count count n n' false e f = omega arith

abort-CountsWriters :
    (m : SsiManager) (t : ℕ) → CountsWriters m → CountsWriters (Manager.abort_txn m t)
unfolding Manager.abort_txn
abort-CountsWriters m t inv = record {
  distinct = Map.remove-Distinct t m.active_txns inv.distinct;
  counted =
      drop_one-count m.active_writers (writers m.active_txns) (writers (Map.remove t m.active_txns))
        (is_writer (Map.get t m.active_txns)) inv.counted
        (writers-remove t m.active_txns inv.distinct);
}

install-CountsWriters :
    (m : SsiManager) (st : SsiStats) (s s' : ReadWriteSet) (t r c : ℕ) (keys : List Bytes)
    → Map.get t m.active_txns ≡ some s
    → s'.write_keys ≡ s.write_keys
    → CountsWriters m
    → CountsWriters (install m st s' t r c keys)
unfolding install
install-CountsWriters m st s s' t r c keys active same inv = record {
  distinct = Map.remove-Distinct t m.active_txns inv.distinct;
  counted =
      drop_one-count m.active_writers (writers m.active_txns) (writers (Map.remove t m.active_txns))
        (not (is_empty s'.write_keys)) inv.counted
        (ground (arith, writers-remove t m.active_txns inv.distinct));
}

validate-CountsWriters :
    (m : SsiManager) (t r c : ℕ) (keys : List Bytes)
    → CountsWriters m
    → CountsWriters (validate_and_commit_with_keys m t r c keys).0
validate-CountsWriters m t r c keys inv = elim (Option-cases (Map.get t m.active_txns)) [
  | inl absent ↦ unfold validate_and_commit_with_keys in rw absent inv
  | inr (s, active) ↦
      let (st, s', reads, writes, which) = validate-cases m t r c keys s active in
      elim which [
        | inl e ↦ rw e (install-CountsWriters m st s s' t r c keys active writes inv)
        | inr (x, e) ↦ rw e (record {
          distinct = Map.insert-Distinct t s' m.active_txns inv.distinct;
          counted = same_writes-CountsWriters m t s s' active (ap is_empty writes) inv;
        })
      ]
]

module _ (hash_key : Bytes → ℕ) where
  step-CountsWriters :
      (m : SsiManager) (op : SsiOp)
      → IsFresh m op
      → CountsWriters m
      → CountsWriters (step hash_key m op)
  step-CountsWriters m (begin_read_only t ts) f inv =
      unfold Manager.begin_read_only_txn in
      record { distinct = inv.distinct; counted = inv.counted }
  step-CountsWriters m (begin t ts) f inv = begin-CountsWriters m t ts f inv
  step-CountsWriters m (read t key) f inv = read-CountsWriters hash_key m t key inv
  step-CountsWriters m (write t key) f inv = write-CountsWriters hash_key m t key inv
  step-CountsWriters m (range_read t start end) f inv = range_read-CountsWriters m t start end inv
  step-CountsWriters m (validate t r c keys) f inv = validate-CountsWriters m t r c keys inv
  step-CountsWriters m (abort t) f inv = abort-CountsWriters m t inv
  step-CountsWriters m (commit_read_only t) f inv =
      unfold Manager.commit_read_only_txn in
      record { distinct = inv.distinct; counted = inv.counted }
  step-CountsWriters m (watermark w) f inv =
      unfold Manager.advance_watermark in
      elim (Bool-cases (ltb m.watermark w)) [
        | inl y ↦ rw y (record { distinct = inv.distinct; counted = inv.counted })
        | inr n ↦ rw n inv
      ]

  -- A run in which every transaction begins under an identifier that is not active.
  pub data FreshRun (m : SsiManager) : SsiManager → Type 0 where
    start : FreshRun m m
    after :
        {n : SsiManager} (op : SsiOp)
        → FreshRun m n
        → IsFresh n op
        → FreshRun m (step hash_key n op)

  -- After any run from a new manager in which every transaction begins under an identifier that is not
  -- active at that point, the counter of active writers is the number of transactions that are active
  -- and have written, modulo the size of a word.
  pub active_writers-count :
      {m : SsiManager} → FreshRun Manager.new m → m.active_writers ≡ writers m.active_txns % 2 ^ 64
  unfolding writers
  active_writers-count run = (FreshRun-CountsWriters run).counted
    where
      FreshRun-CountsWriters : {n : SsiManager} → FreshRun Manager.new n → CountsWriters n
      FreshRun-CountsWriters start = record { distinct = tt; counted = refl }
      FreshRun-CountsWriters (after op r f) = step-CountsWriters _ op f (FreshRun-CountsWriters r)
