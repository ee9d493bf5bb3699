-- ===== src/Txn/Engine/Refused.antt =====
-- crabstash-txn/src/mvcc.rs: the commits that one of the two validations refuses.
use crabstash.Base.{
  bytes_eq, nat_eq, ℕ, ◌≡◌, ◌≢◌, ◌⊎◌, ◌↔◌, refl, true, false, some, [], arith, inl, inr,
}
use crabstash.Base.Map
use crabstash.Base.Map.{Map}
use crabstash.Common.Error.{Error, Result, ok, err, transaction_conflict}
use crabstash.Lock.Ssi.Manager.{SsiManager}
use crabstash.Lock.Ssi.RwSet.{ReadWriteSet}
use crabstash.Lock.Ssi.Validate.{SsiResult, validate_and_commit}
use crabstash.Lock.Ssi.Accept.{IsSerializable, validate-ok_iff}
use crabstash.Txn.Timestamp.{get_timestamp}
use crabstash.Txn.Transaction
use crabstash.Txn.Transaction.{Transaction, IsolationLevel, is_plain_serializable}
use crabstash.Txn.Transaction.Commit.{Overwritten, prepare_commit-conflict_iff}
use crabstash.Txn.Engine.{
  Locks, MvccEngine, Outcome, Storage, commit, commit_prepared, commit_validated, validated,
}

plain-may_write :
    (isolation : IsolationLevel)
    → is_plain_serializable isolation ≡ true
    → Transaction.is_read_only isolation ≡ false
plain-may_write isolation plain = ground arith

module _ {S K : Type 0} (db : Storage S) (locks : Locks K) where
  validated-ok_iff :
      (e : MvccEngine S K) (txn : Transaction) (s : ReadWriteSet) (ts : ℕ)
      → is_plain_serializable txn.isolation ≡ true
      → Map.get txn.id e.ssi_manager.active_txns ≡ some s
      → ((validated db locks e txn ts).1 ≡ SsiResult.ok)
        ↔ IsSerializable e.ssi_manager s txn.start_ts ts
  unfolding validate_and_commit
  validated-ok_iff e txn s ts plain active =
      rw plain (validate-ok_iff e.ssi_manager txn.id txn.start_ts ts [] s active)

  -- The call failed, and the storage, the locks and the transaction are as before.
  abbrev pub IsRefused : MvccEngine S K → Transaction → Outcome S K (Unit {0}) → Type 0
  IsRefused e txn out =
      ((x : Error) × (out.answer ≡ err x))
      × (out.engine.storage ≡ e.storage)
      × (out.engine.lock_manager ≡ e.lock_manager)
      × (out.txn ≡ txn)

  commit_prepared-IsRefused :
      (o : Result Transaction) (e : MvccEngine S K) (txn : Transaction)
      → ((txn' : Transaction) → o ≢ ok txn')
      → IsRefused e txn (commit_prepared db locks o e txn)
  unfolding commit_prepared
  commit_prepared-IsRefused (err x) e txn n = ((x, refl), refl, refl, refl)
  commit_prepared-IsRefused (ok txn') e txn n = absurd (n txn' refl)

  commit_validated-IsRefused :
      (v : SsiManager × SsiResult) (e : MvccEngine S K) (txn : Transaction) (ts : ℕ)
      → (v.1 ≢ SsiResult.ok)
        ⊎ (Transaction.prepare_commit e.txn_manager txn ts ≡ err transaction_conflict)
      → IsRefused e txn (commit_validated db locks v e txn ts)
  unfolding commit_validated
  commit_validated-IsRefused (m, SsiResult.err c) e txn ts why = ((_, refl), refl, refl, refl)
  commit_validated-IsRefused (m, SsiResult.ok) e txn ts (inl n) = absurd (n refl)
  commit_validated-IsRefused (m, SsiResult.ok) e txn ts (inr p) =
      commit_prepared-IsRefused _ (record e { ssi_manager = m }) txn (λ txn' q. cc)

  -- The commit of a serializable transaction that the conflict manager knows is refused whenever one
  -- of the two validations has a reason: a conflict that was noted before, a key it read or a range it
  -- read that was written since, as the conflict manager knows it, or a key it read that a committed
  -- transaction wrote, as the transaction manager knows it. The storage, the locks and the transaction
  -- then stay as they were.
  pub commit-IsRefused :
      (e : MvccEngine S K) (txn : Transaction) (now : ℕ) (s : ReadWriteSet)
      → is_plain_serializable txn.isolation ≡ true
      → Map.get txn.id e.ssi_manager.active_txns ≡ some s
      → (¬ IsSerializable e.ssi_manager s txn.start_ts (get_timestamp e.ts_oracle now).1)
        ⊎ Overwritten e.txn_manager txn (get_timestamp e.ts_oracle now).1
      → IsRefused e txn (commit db locks e txn now)
  unfolding commit
  commit-IsRefused e txn now s plain active why =
      let ts = (get_timestamp e.ts_oracle now).1 in
      let e' : MvccEngine S K = record e { ts_oracle = (get_timestamp e.ts_oracle now).0 } in
      let reason : ((validated db locks e txn ts).1 ≢ SsiResult.ok)
          ⊎ (Transaction.prepare_commit e.txn_manager txn ts ≡ err transaction_conflict) =
        elim why [
          | inl stale ↦ inl (λ q. stale ((validated-ok_iff e txn s ts plain active).0 q))
          | inr over ↦ inr ((prepare_commit-conflict_iff e.txn_manager txn ts plain).1 over)
        ] in
      rw (plain-may_write txn.isolation plain)
        (commit_validated-IsRefused (validated db locks e txn ts) e' txn ts reason)
