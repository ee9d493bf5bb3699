-- ===== src/Txn/Engine/Stored.antt =====
-- crabstash-txn/src/mvcc.rs: what a commit leaves in a storage that keeps to its contract.
use crabstash.Base.{
  bytes_eq, nat_eq, ℕ, Bytes, ◌≡◌, ◌∙◌, sym, ap, refl, false, Option, none, some, List, [], ◌∷◌,
  arith, Bool-cases, inl, inr, if◌then◌else◌, ◌==◌,
}
use mathlib.Core.Option
use crabstash.Base.Map
use crabstash.Base.Map.{Map}
use crabstash.Base.Set
use crabstash.Common.Error.{Result, ok, err}
use crabstash.Txn.WriteSet
use crabstash.Txn.WriteSet.{WriteSet, Write, last_write, get-run, IsConsistent}
use crabstash.Txn.Transaction
use crabstash.Txn.Transaction.{Transaction, TransactionState, is_plain_serializable}
use crabstash.Txn.Engine.{
  Locks, MvccEngine, Storage, commit, store_deletes, store_puts, store_writes, then_store,
}
use crabstash.Txn.Engine.Commit.{commit-IsDone}

-- The contract of a storage whose newest values `look` reads: a write that succeeds sets its own key
-- and leaves all others.
pub record IsStore {S : Type 0} (db : Storage S) (look : S → Bytes → Option Bytes) : Type 0 where
  pub look-put :
      (s s' : S) (k v j : Bytes)
      → db.put s k v ≡ (s', ok tt)
      → look s' j ≡ (if k == j then some v else look s j)
  pub look-delete :
      (s s' : S) (k j : Bytes)
      → db.delete s k ≡ (s', ok tt)
      → look s' j ≡ (if k == j then none else look s j)

-- What a key holds after a commit: the value that was written, nothing after a deletion, and what it
-- held before if it was not written.
abbrev pub after_commit : Option (Option Bytes) → Option Bytes → Option Bytes
after_commit none old = old
after_commit (some v) old = v

run-Distinct :
    (w : WriteSet) (writes : List Write)
    → Map.Distinct w.puts
    → Map.Distinct (WriteSet.run w writes).puts
run-Distinct w [] d = d
run-Distinct w (Write.put_key k v ∷ writes) d =
    run-Distinct (WriteSet.put w k v) writes
      (unfold WriteSet.put in Map.insert-Distinct k v w.puts d)
run-Distinct w (Write.delete_key k ∷ writes) d =
    run-Distinct (WriteSet.delete w k) writes
      (unfold WriteSet.delete in Map.remove-Distinct k w.puts d)

new-IsConsistent : IsConsistent WriteSet.new
unfolding Set.contains
new-IsConsistent = record { apart = λ j h. ground arith }

new_get : (key : Bytes) → WriteSet.get WriteSet.new key ≡ none
unfolding WriteSet.get Set.contains Map.get
new_get key = refl

module _ {S K : Type 0} (db : Storage S) (locks : Locks K) (look : S → Bytes → Option Bytes) where
  then_store-ok :
      (o : S × Result (Unit {0})) (f : S → S × Result (Unit {0})) (s' : S)
      → then_store db locks o f ≡ (s', ok tt)
      → (s₁ : S) × (o ≡ (s₁, ok tt)) × (f s₁ ≡ (s', ok tt))
  then_store-ok (s, err x) f s' h = cc
  then_store-ok (s, ok u) f s' h = (s, refl, h)

  look-store_deletes :
      (laws : IsStore db look) (deletes : List Bytes) (s s' : S) (j : Bytes)
      → store_deletes db locks deletes s ≡ (s', ok tt)
      → look s' j ≡ (if Set.contains j deletes then none else look s j)
  unfolding store_deletes Set.contains
  look-store_deletes laws [] s s' j h = ap (λ (p : S × Result (Unit {0})). look p.0 j) (sym h)
  look-store_deletes laws (k ∷ deletes) s s' j h =
      let (s₁, first, rest) = then_store-ok (db.delete s k) (store_deletes db locks deletes) s' h in
      look-store_deletes laws deletes s₁ s' j rest ∙ ground (arith, laws.look-delete s s₁ k j first)

  look-store_puts :
      (laws : IsStore db look) (puts : Map Bytes Bytes) (after : S → S × Result (Unit {0}))
      (s s' : S) (j : Bytes)
      → Map.Distinct puts
      → store_puts db locks puts after s ≡ (s', ok tt)
      → (s₁ : S) × (after s₁ ≡ (s', ok tt))
        × (look s₁ j ≡ after_commit (Option.map some (Map.get j puts)) (look s j))
  unfolding store_puts Map.get
  look-store_puts laws [] after s s' j d h = (s, h, refl)
  look-store_puts laws ((k, v) ∷ puts) after s s' j d h =
      let (s₁, first, rest) = then_store-ok (db.put s k v) (store_puts db locks puts after) s' h in
      let (s₂, last, seen) = look-store_puts laws puts after s₁ s' j d.1 rest in
      let put = laws.look-put s s₁ k v j first in
      (
        s₂,
        last,
        seen ∙ elim (Bool-cases (k == j)) [
          | inl same ↦
              let absent = rw ((bytes_eq.beq_iff k j).0 same) at d.0 in
              rw (same, absent) (rw same at put)
          | inr other ↦ rw other (rw (rw other at put) refl)
        ],
      )

  look-store_writes :
      (laws : IsStore db look) (w : WriteSet) (s s' : S) (j : Bytes)
      → Map.Distinct w.puts
      → store_writes db locks w s ≡ (s', ok tt)
      → look s' j ≡ after_commit (WriteSet.get w j) (look s j)
  unfolding store_writes WriteSet.get
  look-store_writes laws w s s' j d h =
      let (s₁, last, seen) =
        look-store_puts laws w.puts (store_deletes db locks w.deletes) s s' j d h in
      look-store_deletes laws w.deletes s₁ s' j last
      ∙ elim (Bool-cases (Set.contains j w.deletes)) [
        | inl gone ↦ rw gone refl
        | inr kept ↦ rw kept seen
      ]

  pub commit-ok :
      (laws : IsStore db look) (e : MvccEngine S K) (txn : Transaction) (now : ℕ)
      (writes : List Write) (key : Bytes)
      → txn.write_set ≡ WriteSet.run WriteSet.new writes
      → Transaction.is_read_only txn.isolation ≡ false
      → (commit db locks e txn now).answer ≡ ok tt
      → (look (commit db locks e txn now).engine.storage key
          ≡ after_commit (last_write none writes key) (look e.storage key))
        × ((commit db locks e txn now).engine.lock_manager
            ≡ locks.release_all e.lock_manager txn.id)
        × ((commit db locks e txn now).txn.state ≡ TransactionState.committed)
  commit-ok laws e txn now writes key made writer h =
      let (accepted, (stored, released, state)) = commit-IsDone db locks e txn now writer h in
      let distinct : Map.Distinct txn.write_set.puts =
        rw made (run-Distinct WriteSet.new writes tt) in
      let read : WriteSet.get txn.write_set key ≡ last_write none writes key = rw made (
        (get-run WriteSet.new writes key new-IsConsistent).0
        ∙ ap (λ o. last_write o writes key) (new_get key)) in
      (
        look-store_writes laws txn.write_set e.storage (commit db locks e txn now).engine.storage
              key distinct stored
            ∙ ap (λ o. after_commit o (look e.storage key)) read,
        released,
        state,
      )
