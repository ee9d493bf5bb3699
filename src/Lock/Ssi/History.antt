-- ===== src/Lock/Ssi/History.antt =====
-- The index of writes over any sequence of calls of the manager.
use crabstash.Base.{
  nat_eq, ℕ, ◌<◌, ◌≤◌, ◌≡◌, ◌≢◌, inl, inr, refl, Bytes, false, some, List, [], ◌∷◌, is_empty,
  retain, leb, ltb, arith, All, In, In→retain, Bool-cases, Option-cases, ◌==◌,
}
use crabstash.Base.Map
use crabstash.Base.Map.{Map}
use crabstash.Lock.Ssi.RwSet.{ReadWriteSet}
use crabstash.Lock.Ssi.Manager
use crabstash.Lock.Ssi.Manager.{SsiManager, WriteIndexEntry, prune_index}
use crabstash.Lock.Ssi.Validate.{ok, entries_of, start_or, validate_and_commit_with_keys}
use crabstash.Lock.Ssi.Stale.{validate-adds, validate-keeps, entry-refuses}
use crabstash.Lock.Ssi.Writers.{SsiOp, step}

In-not_empty : (e : WriteIndexEntry) (es : List WriteIndexEntry) → In e es → is_empty es ≡ false
In-not_empty e [] i = absurd i
In-not_empty e (x ∷ es) i = refl

prune_index-keeps :
    (w : ℕ) (e : WriteIndexEntry) (index : Map ℕ (List WriteIndexEntry)) (k : ℕ)
    → w ≤ e.commit_ts
    → In e (entries_of (Map.get k index))
    → In e (entries_of (Map.get k (prune_index w index)))
unfolding prune_index Map.get
prune_index-keeps w e [] k le i = i
prune_index-keeps w e ((j, entries) ∷ index) k le i = elim (Bool-cases (j == k)) [
  | inl same ↦
      let kept =
        In→retain (λ (x : WriteIndexEntry). leb w x.commit_ts) entries e (rw same at i)
          (ground arith) in
      rw (In-not_empty e (retain (λ (x : WriteIndexEntry). leb w x.commit_ts) entries) kept, same)
        kept
  | inr other ↦
      let later = prune_index-keeps w e index k le (rw other at i) in
      elim (Bool-cases (is_empty (retain (λ (x : WriteIndexEntry). leb w x.commit_ts) entries))) [
        | inl y ↦ rw y later
        | inr n ↦ rw (n, other) later
      ]
]

-- The call does not advance the watermark beyond a time.
abbrev pub Spares : ℕ → SsiOp → Type 0
Spares c (SsiOp.begin_read_only t ts) = Unit
Spares c (SsiOp.begin t ts) = Unit
Spares c (SsiOp.read t key) = Unit
Spares c (SsiOp.write t key) = Unit
Spares c (SsiOp.range_read t start end) = Unit
Spares c (SsiOp.validate t r ts keys) = Unit
Spares c (SsiOp.abort t) = Unit
Spares c (SsiOp.commit_read_only t) = Unit
Spares c (SsiOp.watermark w) = w ≤ c

module _ (hash_key : Bytes → ℕ) where
  step-keeps :
      (m : SsiManager) (op : SsiOp) (k : ℕ) (e : WriteIndexEntry)
      → Spares e.commit_ts op
      → In e (entries_of (Map.get k m.write_index))
      → In e (entries_of (Map.get k (step hash_key m op).write_index))
  step-keeps m (SsiOp.begin_read_only t ts) k e le i = unfold Manager.begin_read_only_txn in i
  step-keeps m (SsiOp.begin t ts) k e le i = unfold Manager.begin_txn_with_ts in i
  step-keeps m (SsiOp.read t key) k e le i =
      unfold Manager.record_read in
      elim (Option-cases (Map.get t m.active_txns)) [
        | inl absent ↦ rw absent i
        | inr (s, active) ↦ rw active i
      ]
  step-keeps m (SsiOp.write t key) k e le i =
      unfold Manager.record_write in
      elim (Option-cases (Map.get t m.active_txns)) [
        | inl absent ↦ rw absent i
        | inr (s, active) ↦ rw active i
      ]
  step-keeps m (SsiOp.range_read t start end) k e le i =
      unfold Manager.record_range_read in
      elim (Option-cases (Map.get t m.active_txns)) [
        | inl absent ↦ rw absent i
        | inr (s, active) ↦ rw active i
      ]
  step-keeps m (SsiOp.validate t r c keys) k e le i = validate-keeps m t r c keys k e i
  step-keeps m (SsiOp.abort t) k e le i = unfold Manager.abort_txn in i
  step-keeps m (SsiOp.commit_read_only t) k e le i = unfold Manager.commit_read_only_txn in i
  step-keeps m (SsiOp.watermark w) k e le i =
      unfold Manager.advance_watermark in
      elim (Bool-cases (ltb m.watermark w)) [
        | inl y ↦ rw y (prune_index-keeps w e m.write_index k le i)
        | inr n ↦ rw n i
      ]

  -- The manager after a sequence of calls.
  abbrev pub calls : SsiManager → List SsiOp → SsiManager
  calls m [] = m
  calls m (op ∷ ops) = calls (step hash_key m op) ops

  calls-keeps :
      (m : SsiManager) (ops : List SsiOp) (k : ℕ) (e : WriteIndexEntry)
      → All (Spares e.commit_ts) ops
      → In e (entries_of (Map.get k m.write_index))
      → In e (entries_of (Map.get k (calls m ops).write_index))
  calls-keeps m [] k e le i = i
  calls-keeps m (op ∷ ops) k e le i =
      calls-keeps (step hash_key m op) ops k e le.1 (step-keeps m op k e le.0 i)

  -- After a transaction has committed a write at `c`, and after any further calls that do not advance
  -- the watermark beyond `c`, the validation of an active transaction that has by then read the key
  -- fails, if its snapshot is older than `c` and its commit is after the start of the writer.
  pub stale_reader_fails :
      (m m' : SsiManager) (t r c : ℕ) (keys : List Bytes) (s : ReadWriteSet) (k : ℕ)
      (ops : List SsiOp) (t₂ r₂ c₂ : ℕ) (keys₂ : List Bytes) (s₂ : ReadWriteSet)
      → Map.get t m.active_txns ≡ some s
      → validate_and_commit_with_keys m t r c keys ≡ (m', ok)
      → In k s.write_keys
      → All (Spares c) ops
      → Map.get t₂ (calls m' ops).active_txns ≡ some s₂
      → In k s₂.read_keys
      → r₂ < c
      → start_or (Map.get t m.active_start_ts) r < c₂
      → (validate_and_commit_with_keys (calls m' ops) t₂ r₂ c₂ keys₂).1 ≢ ok
  stale_reader_fails m m' t r c keys s k ops t₂ r₂ c₂ keys₂ s₂ active done w spared active₂ rd
        before after =
      let entry : WriteIndexEntry = record {
        commit_ts = c;
        start_ts = start_or (Map.get t m.active_start_ts) r;
      } in
      entry-refuses (calls m' ops) t₂ r₂ c₂ keys₂ s₂ k entry active₂ rd
        (calls-keeps m' ops k entry spared (validate-adds m m' t r c keys s k active done w)) before
        after
