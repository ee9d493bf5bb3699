-- ===== src/Txn/Engine/Commit.antt =====
-- What the reads, the writes and the commits of the engine do together.
use crabstash.Base.{
  nat_eq, bytes_eq, bytes_beq_refl, ℕ, Bytes, ◌≡◌, ◌∙◌, sym, refl, ap, true, false, Option, none,
  some, List, [], ◌∷◌, arith, Bool-cases, inl, inr,
}
use crabstash.Common.Error.{Error, Result, ok, err}
use crabstash.Lock.Error.{LockResult}
use crabstash.Lock.Ssi.Manager.{SsiManager}
use crabstash.Lock.Ssi.Validate.{SsiResult}
use crabstash.Txn.Timestamp.{get_timestamp}
use crabstash.Txn.WriteSet
use crabstash.Txn.WriteSet.{WriteSet, get-put}
use crabstash.Txn.Transaction
use crabstash.Txn.Transaction.{
  IsolationLevel, Transaction, TransactionManager, TransactionState, is_plain_serializable,
}
use crabstash.Txn.Transaction.Commit.{commit_lem}
use crabstash.Txn.Engine.{
  Locks, MvccEngine, Outcome, Storage, begin_with_isolation, commit, commit_last, commit_prepared,
  commit_read_only, commit_stored, commit_validated, get, get_from, put, store_writes, validated,
  write_key, write_locked,
}

module _ {S K : Type 0} (db : Storage S) (locks : Locks K) where
  module _ (hash_key : Bytes → ℕ) where
    get-written :
        (e : MvccEngine S K) (txn : Transaction) (key : Bytes) (v : Option Bytes)
        → WriteSet.get txn.write_set key ≡ some v
        → (get db locks hash_key e txn key).answer ≡ ok v
    unfolding get get_from
    get-written e txn key v h = rw h refl

    write_locked-put :
        (e : MvccEngine S K) (txn : Transaction) (key value : Bytes) (o : K × LockResult (Unit {0}))
        → (write_locked db locks hash_key (λ w. WriteSet.put w key value) e txn key o).answer
          ≡ ok tt
        → WriteSet.get
            (write_locked db locks hash_key
              (λ w. WriteSet.put w key value)
              e
              txn
              key
              o).txn.write_set
            key
          ≡ some (some value)
    unfolding write_locked
    write_locked-put e txn key value (k, LockResult.err x) h = cc
    write_locked-put e txn key value (k, LockResult.ok u) h =
        rw (get-put txn.write_set key key value, bytes_beq_refl key) refl

    write_key-put :
        (e : MvccEngine S K) (txn : Transaction) (key value : Bytes)
        → (write_key db locks hash_key (λ w. WriteSet.put w key value) e txn key).answer ≡ ok tt
        → WriteSet.get
            (write_key db locks hash_key (λ w. WriteSet.put w key value) e txn key).txn.write_set
            key
          ≡ some (some value)
    unfolding write_key
    write_key-put e txn key value p = elim (Bool-cases (Transaction.is_read_only txn.isolation)) [
      | inl r ↦ let p' = rw r at p in cc
      | inr w ↦ rw w (write_locked-put e txn key value _ (rw w at p))
    ]

    -- A transaction that has put a value under a key, and was answered that it did, reads that value
    -- under the key, whatever the storage holds.
    pub get-put_own :
        (e : MvccEngine S K) (txn : Transaction) (key value : Bytes)
        → (put db locks hash_key e txn key value).answer ≡ ok tt
        → (get db locks hash_key
            (put db locks hash_key e txn key value).engine
            (put db locks hash_key e txn key value).txn
            key).answer
          ≡ ok (some value)
    unfolding put
    get-put_own e txn key value h =
        get-written _ _ key (some value) (write_key-put e txn key value h)

    -- Whether a transaction has a commit time, and how it is isolated, do not change when it reads.
    get_keeps :
        (e : MvccEngine S K) (txn : Transaction) (key : Bytes)
        → ((get db locks hash_key e txn key).txn.commit_ts ≡ txn.commit_ts)
          × ((get db locks hash_key e txn key).txn.isolation ≡ txn.isolation)
    unfolding get
    get_keeps e txn key = by_local (WriteSet.get txn.write_set key)
      where
        by_local :
            (o : Option (Option Bytes))
            → ((get_from db locks hash_key o e txn key).txn.commit_ts ≡ txn.commit_ts)
              × ((get_from db locks hash_key o e txn key).txn.isolation ≡ txn.isolation)
        by_local (some v) = unfold get_from in (refl, refl)
        by_local none = unfold get_from Transaction.record_read in (ground arith, ground arith)

    -- Reads of one transaction, one after the other.
    abbrev pub reads : MvccEngine S K → Transaction → List Bytes → MvccEngine S K × Transaction
    reads e txn [] = (e, txn)
    reads e txn (key ∷ keys) =
        reads (get db locks hash_key e txn key).engine (get db locks hash_key e txn key).txn keys

    reads_keep :
        (e : MvccEngine S K) (txn : Transaction) (keys : List Bytes)
        → ((reads e txn keys).1.commit_ts ≡ txn.commit_ts)
          × ((reads e txn keys).1.isolation ≡ txn.isolation)
    reads_keep e txn [] = (refl, refl)
    reads_keep e txn (key ∷ keys) =
        let here = get_keeps e txn key in
        let later =
          reads_keep (get db locks hash_key e txn key).engine (get db locks hash_key e txn key).txn
            keys in
        (later.0 ∙ here.0, later.1 ∙ here.1)

  prepare_commit-stamped :
      (m : TransactionManager) (txn txn' : Transaction) (ts : ℕ)
      → Transaction.prepare_commit m txn ts ≡ ok txn'
      → record txn { commit_ts = some ts } ≡ txn'
  unfolding Transaction.prepare_commit Transaction.validate_serializable
  prepare_commit-stamped m txn txn' ts p = ground arith

  commit-unstamped :
      (m : TransactionManager) (txn : Transaction)
      → txn.commit_ts ≡ none
      → Transaction.commit m txn ≡ err Error.transaction_aborted
  unfolding Transaction.commit Transaction.commit_at
  commit-unstamped m txn h = elim (Bool-cases (Transaction.is_active txn)) [
    | inl a ↦ rw (a, h) refl
    | inr f ↦ rw f refl
  ]

  commit-read_only_unstamped :
      (e : MvccEngine S K) (txn : Transaction) (now : ℕ)
      → Transaction.is_read_only txn.isolation ≡ true
      → txn.commit_ts ≡ none
      → ((commit db locks e txn now).answer ≡ err Error.transaction_aborted)
        × ((commit db locks e txn now).engine.lock_manager ≡ e.lock_manager)
        × ((commit db locks e txn now).engine.ssi_manager ≡ e.ssi_manager)
  unfolding commit commit_read_only
  commit-read_only_unstamped e txn now r n =
      rw (r, commit-unstamped e.txn_manager txn n) (refl, refl, refl)

  -- A read-only transaction can never commit: after any reads, its commit is refused as aborted, and
  -- leaves its locks and its entries in the conflict manager behind.
  pub commit-begin_read_only :
      (hash_key : Bytes → ℕ) (e : MvccEngine S K) (isolation : IsolationLevel) (now later : ℕ)
      (polls : List SsiManager) (keys : List Bytes)
      → Transaction.is_read_only isolation ≡ true
      → let (e₁, txn₁) = begin_with_isolation db locks e isolation now polls in
        let (e₂, txn₂) = reads hash_key e₁ txn₁ keys in
        ((commit db locks e₂ txn₂ later).answer ≡ err Error.transaction_aborted)
        × ((commit db locks e₂ txn₂ later).engine.lock_manager ≡ e₂.lock_manager)
        × ((commit db locks e₂ txn₂ later).engine.ssi_manager ≡ e₂.ssi_manager)
  unfolding begin_with_isolation Transaction.begin
  commit-begin_read_only hash_key e isolation now later polls keys r =
      let keeps = reads_keep hash_key _ _ keys in
      commit-read_only_unstamped _ _ later (ap Transaction.is_read_only keeps.1 ∙ r) keeps.0

  -- The storage has taken all writes, the locks are released and the transaction is committed.
  abbrev pub IsDone : WriteSet → MvccEngine S K → Transaction → Outcome S K (Unit {0}) → Type 0
  IsDone w e txn out =
      (store_writes db locks w e.storage ≡ (out.engine.storage, ok tt))
      × (out.engine.lock_manager ≡ locks.release_all e.lock_manager txn.id)
      × (out.txn.state ≡ TransactionState.committed)

  commit_last-ok :
      (o : Result (TransactionManager × Transaction)) (e : MvccEngine S K) (txn : Transaction)
      → Transaction.commit e.txn_manager txn ≡ o
      → (commit_last db locks o e txn).answer ≡ ok tt
      → ((commit_last db locks o e txn).engine.storage ≡ e.storage)
        × ((commit_last db locks o e txn).engine.lock_manager
            ≡ locks.release_all e.lock_manager txn.id)
        × ((commit_last db locks o e txn).txn.state ≡ TransactionState.committed)
  unfolding commit_last
  commit_last-ok (err x) e txn p h = cc
  commit_last-ok (ok (m, txn')) e txn p h =
      let (ts, a, s, q, r) = commit_lem e.txn_manager m txn txn' p in
      (refl, refl, ap (λ (t : Transaction). t.state) q)

  commit_stored-ok :
      (o : S × Result (Unit {0})) (e : MvccEngine S K) (txn : Transaction)
      → (commit_stored db locks o e txn).answer ≡ ok tt
      → (o ≡ ((commit_stored db locks o e txn).engine.storage, ok tt))
        × ((commit_stored db locks o e txn).engine.lock_manager
            ≡ locks.release_all e.lock_manager txn.id)
        × ((commit_stored db locks o e txn).txn.state ≡ TransactionState.committed)
  unfolding commit_stored
  commit_stored-ok (s, err x) e txn h = cc
  commit_stored-ok (s, ok u) e txn h =
      let (a, b, c) =
        commit_last-ok (Transaction.commit e.txn_manager txn) (record e { storage = s }) txn refl
          h in
      (ap (λ (x : S). (x, ok tt)) (sym a), b, c)

  commit_prepared-ok :
      (o : Result Transaction) (e : MvccEngine S K) (txn : Transaction) (ts : ℕ)
      → Transaction.prepare_commit e.txn_manager txn ts ≡ o
      → (commit_prepared db locks o e txn).answer ≡ ok tt
      → IsDone txn.write_set e txn (commit_prepared db locks o e txn)
  unfolding commit_prepared
  commit_prepared-ok (err x) e txn ts p h = cc
  commit_prepared-ok (ok txn') e txn ts p h =
      let same = prepare_commit-stamped e.txn_manager txn txn' ts p in
      let (a, b, c) = commit_stored-ok (store_writes db locks txn'.write_set e.storage) e txn' h in
      (
        ap (λ (t : Transaction). store_writes db locks t.write_set e.storage) same ∙ a,
        b ∙ ap (λ (t : Transaction). locks.release_all e.lock_manager t.id) (sym same),
        c,
      )

  commit_validated-ok :
      (v : SsiManager × SsiResult) (e : MvccEngine S K) (txn : Transaction) (ts : ℕ)
      → (commit_validated db locks v e txn ts).answer ≡ ok tt
      → (v.1 ≡ SsiResult.ok) × IsDone txn.write_set e txn (commit_validated db locks v e txn ts)
  unfolding commit_validated
  commit_validated-ok (m, SsiResult.err c) e txn ts h = cc
  commit_validated-ok (m, SsiResult.ok) e txn ts h =
      (refl, commit_prepared-ok _ (record e { ssi_manager = m }) txn ts refl h)

  -- What a commit that answers with success has done, in terms of the steps of the code.
  pub commit-IsDone :
      (e : MvccEngine S K) (txn : Transaction) (now : ℕ)
      → Transaction.is_read_only txn.isolation ≡ false
      → (commit db locks e txn now).answer ≡ ok tt
      → ((validated db locks e txn (get_timestamp e.ts_oracle now).1).1 ≡ SsiResult.ok)
        × IsDone txn.write_set e txn (commit db locks e txn now)
  unfolding commit
  commit-IsDone e txn now w h = rw w (commit_validated-ok _ _ txn _ (rw w at h))
