-- ===== src/Storage/Iterator/Snapshots.antt =====
-- What a snapshot iterator shows.
use crabstash.Base.{
  nat_eq, bytes_eq, ℕ, zero, suc, ◌<◌, Bytes, ◌≡◌, refl, sym, inl, inr, Option, none, some, List,
  [], ◌∷◌, length, retain, leb, arith, Bool-cases, if◌then◌else◌,
}
use crabstash.Common.Error.{ok}
use crabstash.Common.Key.{Key}
use crabstash.Storage.Iterator.{
  StorageIterator, SnapshotIterator, is_some_and_eq, advance_to_visible, new_snapshot,
  snapshot_next, snapshot_iterator,
}
use crabstash.Storage.Iterator.Denotes.{Entry, Denotes, and_then-ok}

-- The first version of each key, where versions of a key stand together.
abbrev pub firsts : Option Bytes → List Entry → List Entry
firsts last [] = []
firsts last (e ∷ es) =
    if is_some_and_eq last e.0.bytes then firsts last es else e ∷ firsts (some e.0.bytes) es

-- The versions that are not newer than the snapshot.
abbrev pub up_to : ℕ → List Entry → List Entry
up_to ts = retain (λ (e : Entry). leb e.0.timestamp ts)

module _ {I : Type 0} (it : StorageIterator I) (fuel : ℕ) (ts : ℕ) where
  abbrev at : I → Option Bytes → SnapshotIterator I
  at i last = record { inner = i; snapshot_ts = ts; last_key = last }

  next-at :
      (i : I) (last : Option Bytes) (k : Key)
      → it.key i ≡ k
      → (it.next i).1 ≡ ok tt
      → snapshot_next it fuel (at i last)
        ≡ (advance_to_visible it fuel (at (it.next i).0 (some k.bytes)), ok tt)
  unfolding snapshot_next
  next-at i last k e h = rw (sym e) (
      and_then-ok (it.next i) (λ j. at j (some (it.key i).bytes))
        (λ j. (advance_to_visible it fuel (at j (some (it.key i).bytes)), ok tt)) h)

  advance-Denotes :
      (es : List Entry) (n : ℕ) (i : I) (last : Option Bytes)
      → length es < n
      → length es < fuel
      → Denotes it i es
      → Denotes
          (snapshot_iterator it fuel)
          (advance_to_visible it n (at i last))
          (up_to ts (firsts last es))
  unfolding advance_to_visible snapshot_iterator retain
  advance-Denotes es zero i last lt lf d = absurd (omega arith)
  advance-Denotes [] (suc n) i last lt lf d = rw d d
  advance-Denotes ((k, v) ∷ es) (suc n) i last lt lf (iv, ik, ival, iok, d) =
      elim (Bool-cases (is_some_and_eq last k.bytes)) [
        | inl again ↦
            rw (iv, ik, again)
              (advance-Denotes es n (it.next i).0 last (omega arith) (omega arith) d)
        | inr new ↦ elim (Bool-cases (leb k.timestamp ts)) [
          | inl seen ↦
              let n' = next-at i last k ik iok in
              rw (iv, ik, new, seen, n')
                (
                  iv,
                  ik,
                  ival,
                  refl,
                  advance-Denotes es fuel (it.next i).0 (some k.bytes) (omega arith) (omega arith)
                      d,
                )
          | inr later ↦
              rw (iv, ik, new, later)
                (advance-Denotes es n (it.next i).0 (some k.bytes) (omega arith) (omega arith) d)
        ]
      ]

  -- A snapshot iterator whose fuel exceeds the versions, over versions that stand together for each
  -- key, runs through the first version of each key, if that is not newer than the snapshot.
  pub snapshot-Denotes :
      (es : List Entry) (i : I)
      → length es < fuel
      → Denotes it i es
      → Denotes (snapshot_iterator it fuel) (new_snapshot it fuel i ts) (up_to ts (firsts none es))
  unfolding new_snapshot
  snapshot-Denotes es i lt d = advance-Denotes es fuel i none lt lt d
