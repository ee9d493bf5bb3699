-- ===== src/Txn/Transaction/Commit.antt =====
-- What `prepare_commit` and `commit` decide, and what a commit means to the transactions after it.
use crabstash.Base.{
  bytes_eq, nat_eq, ℕ, Bytes, ◌<◌, ◌≡◌, ◌↔◌, ◌∙◌, ap, refl, true, false, ◌||◌, Option, some, List,
  [], ◌∷◌, ◌++◌, any, any-In, any_witness, In, In-append_right, arith, Bool-cases, Option-cases,
  inl, inr, ◌==◌,
}
use crabstash.Base.Map
use crabstash.Base.Map.{Map}
use crabstash.Base.Set
use crabstash.Common.Error.{ok, err, transaction_conflict, transaction_aborted}
use crabstash.Txn.WriteSet
use crabstash.Txn.WriteSet.{WriteSet}
use crabstash.Txn.Transaction.{
  TransactionState, Transaction, TransactionManager, CommittedEntry, is_plain_serializable,
  invalidates, validate_serializable, prepare_commit, keys, collect, write_keys, commit_at, commit,
  is_active,
}

-- A transaction that committed after `txn` started, and started before the time at which `txn` is to
-- commit, has written a key that `txn` has read.
abbrev pub Overwritten : TransactionManager → Transaction → ℕ → Type 0
Overwritten m txn commit_ts =
    (other : CommittedEntry) × In other m.committed_txns
    × (txn.start_ts < other.commit_ts)
    × (other.start_ts < commit_ts)
    × ((key : Bytes) × In key txn.read_set × (Set.contains key other.writes ≡ true))

invalidates→ :
    (txn : Transaction) (commit_ts : ℕ) (other : CommittedEntry)
    → invalidates txn commit_ts other ≡ true
    → (txn.start_ts < other.commit_ts)
      × (other.start_ts < commit_ts)
      × ((key : Bytes) × In key txn.read_set × (Set.contains key other.writes ≡ true))
invalidates→ txn commit_ts other h = (
  ground arith,
  ground arith,
  any_witness (λ read_key. Set.contains read_key other.writes) txn.read_set (ground arith),
)

→invalidates :
    (txn : Transaction) (commit_ts : ℕ) (other : CommittedEntry) (key : Bytes)
    → txn.start_ts < other.commit_ts
    → other.start_ts < commit_ts
    → In key txn.read_set
    → Set.contains key other.writes ≡ true
    → invalidates txn commit_ts other ≡ true
→invalidates txn commit_ts other key a b m c =
    let found = any-In (λ read_key. Set.contains read_key other.writes) txn.read_set key m c in
    ground (arith, found)

-- A serializable transaction is refused, with a conflict, exactly when a committed transaction that
-- overlaps with it has written a key that it has read.
pub prepare_commit-conflict_iff :
    (m : TransactionManager) (txn : Transaction) (commit_ts : ℕ)
    → is_plain_serializable txn.isolation ≡ true
    → (prepare_commit m txn commit_ts ≡ err transaction_conflict) ↔ Overwritten m txn commit_ts
unfolding prepare_commit validate_serializable
prepare_commit-conflict_iff m txn commit_ts s =
    elim (Bool-cases (any (invalidates txn commit_ts) m.committed_txns)) [
      | inl found ↦ (
        λ _.
            let (other, i, h) = any_witness (invalidates txn commit_ts) m.committed_txns found in
            let (a, b, read) = invalidates→ txn commit_ts other h in (other, i, a, b, read),
        λ _. rw (s, found) refl,
      )
      | inr clear ↦ (
        λ h. let h' = rw (s, clear) at h in absurd (ground arith),
        λ (other, i, a, b, (key, r, c)).
            let found =
              any-In (invalidates txn commit_ts) m.committed_txns other i
                (→invalidates txn commit_ts other key a b r c) in
            absurd (ground arith),
      )
    ]

module _ (k : Bytes) where
  contains-collect : (ks : List Bytes) → Set.contains k (collect ks) ≡ Set.contains k ks
  unfolding collect Set.contains
  contains-collect [] = refl
  contains-collect (j ∷ ks) =
      ground (arith, contains-collect ks, Set.contains-insert j k (collect ks))

  contains-append :
      (xs ys : List Bytes) → Set.contains k (xs ++ ys) ≡ (Set.contains k xs || Set.contains k ys)
  unfolding Set.contains
  contains-append [] ys = refl
  contains-append (x ∷ xs) ys = ground (arith, contains-append xs ys)

  contains-keys :
      (puts : Map Bytes Bytes) (v : Bytes)
      → Map.get k puts ≡ some v
      → Set.contains k (keys puts) ≡ true
  unfolding Set.contains Map.get keys
  contains-keys [] v g = ground arith
  contains-keys ((j, w) ∷ puts) v g = elim (Bool-cases (j == k)) [
    | inl same ↦ rw same refl
    | inr other ↦ rw other (contains-keys puts v (rw other at g))
  ]

  -- Every key that the transaction reads back from its own writes is one of its write keys.
  written :
      (w : WriteSet) (v : Option Bytes)
      → WriteSet.get w k ≡ some v
      → Set.contains k (write_keys w) ≡ true
  unfolding WriteSet.get write_keys
  written w v g =
      contains-collect (keys w.puts ++ w.deletes)
      ∙ contains-append (keys w.puts) w.deletes
      ∙ elim (Bool-cases (Set.contains k w.deletes)) [
        | inl deleted ↦ ground arith
        | inr kept ↦ elim (Option-cases (Map.get k w.puts)) [
          | inl absent ↦ let g' = rw (kept, absent) at g in absurd (ground arith)
          | inr (u, put) ↦ ground (arith, contains-keys w.puts u put)
        ]
      ]

-- What a commit that succeeds has done: the transaction was active and stamped, it is committed and
-- no longer active, and its entry stands behind those of the earlier commits.
pub commit_lem :
    (m m' : TransactionManager) (txn txn' : Transaction)
    → commit m txn ≡ ok (m', txn')
    → (ts : ℕ) × (is_active txn ≡ true)
      × (txn.commit_ts ≡ some ts)
      × (txn' ≡ record txn { state = TransactionState.committed })
      × (m' ≡ record {
        active_txns = Set.remove txn.id m.active_txns;
        committed_txns =
            m.committed_txns
            ++ record { commit_ts = ts; start_ts = txn.start_ts; writes = write_keys txn.write_set }
              ∷ [];
      })
unfolding commit commit_at
commit_lem m m' txn txn' h = elim (Bool-cases (is_active txn)) [
  | inl a ↦ elim (Option-cases txn.commit_ts) [
    | inl n ↦ let h' = rw (a, n) at h in cc
    | inr (ts, s) ↦ let h' = rw (a, s) at h in (ts, a, s, cc, cc)
  ]
  | inr f ↦ let h' = rw f at h in cc
]

-- A transaction that has committed is not active, and no manager commits it again.
pub commit_once :
    (m m' n : TransactionManager) (txn txn' : Transaction)
    → commit m txn ≡ ok (m', txn')
    → (Set.contains txn.id m'.active_txns ≡ false) × (commit n txn' ≡ err transaction_aborted)
unfolding commit
commit_once m m' n txn txn' h =
    let (ts, a, s, p, q) = commit_lem m m' txn txn' h in
    (
      ap (λ (o : TransactionManager). Set.contains txn.id o.active_txns) q
          ∙ ground (
            arith,
            Set.contains-remove txn.id txn.id m.active_txns,
            nat_eq.beq_iff txn.id txn.id,
          ),
      rw p refl,
    )

-- First committer wins: once `first` has committed, a serializable transaction that started before
-- that commit, that has read a key which `first` wrote, and whose commit time is after the start of
-- `first`, is refused with a conflict.
pub first_committer_wins :
    (m m' : TransactionManager) (first first' reader : Transaction) (ts commit_ts : ℕ) (key : Bytes)
    (v : Option Bytes)
    → commit m first ≡ ok (m', first')
    → first.commit_ts ≡ some ts
    → reader.start_ts < ts
    → first.start_ts < commit_ts
    → is_plain_serializable reader.isolation ≡ true
    → In key reader.read_set
    → WriteSet.get first.write_set key ≡ some v
    → prepare_commit m' reader commit_ts ≡ err transaction_conflict
first_committer_wins m m' first first' reader ts commit_ts key v h stamp before after s read wrote =
    let (ts', a, s', p, q) = commit_lem m m' first first' h in
    let same : ts' ≡ ts = cc in
    let entry : CommittedEntry = record {
      commit_ts = ts;
      start_ts = first.start_ts;
      writes = write_keys first.write_set;
    } in
    let last : In entry m'.committed_txns =
      rw (q, same) (In-append_right m.committed_txns (entry ∷ []) entry (inl refl)) in
    (prepare_commit-conflict_iff m' reader commit_ts s).1
      (entry, last, before, after, (key, read, written key first.write_set v wrote))
