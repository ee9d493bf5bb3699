-- ===== src/Lock/Ssi/Stale.antt =====
-- What a committed write means to the transactions that have read its key.
use crabstash.Base.{
  Option-cases, nat_eq, eqb_iff, ap, sym, ℕ, ◌<◌, ◌≡◌, ◌≢◌, ◌⊎◌, inl, inr, refl, ◌∙◌, Bytes, Option,
  none, some, List, [], ◌∷◌, ◌++◌, ◌==◌, In, Bool-cases, In-append_left, In-append_right,
}
use crabstash.Base.Map
use crabstash.Base.Map.{Map}
use crabstash.Lock.Ssi.RwSet.{ReadWriteSet}
use crabstash.Lock.Ssi.Manager.{SsiManager, SsiStats, WriteIndexEntry}
use crabstash.Lock.Ssi.Validate.{
  SsiConflict, SsiResult, ok, err, entries_of, inbound, verdict, index_writes, start_or, install,
  finish, decide, with_inbound, validate_from, validate_and_commit_with_keys, count_conflicts,
  keep_active,
}
use crabstash.Lock.Ssi.Accept.{entries_of-In, scan_of, scan-keys, validate-ok_iff}

-- The list of a hash that was written gets the new entry, and no entry is lost.
index_writes-keeps :
    (entry e : WriteIndexEntry) (ws : List ℕ) (index : Map ℕ (List WriteIndexEntry)) (k : ℕ)
    → In e (entries_of (Map.get k index))
    → In e (entries_of (Map.get k (index_writes entry ws index)))
unfolding index_writes
index_writes-keeps entry e [] index k i = i
index_writes-keeps entry e (w ∷ ws) index k i =
    index_writes-keeps entry e ws (Map.insert w (entries_of (Map.get w index) ++ entry ∷ []) index)
      k
      (elim (Bool-cases (w == k)) [
        | inl same ↦
            rw (Map.get-insert w k (entries_of (Map.get w index) ++ entry ∷ []) index, same)
              (In-append_left (entries_of (Map.get w index)) (entry ∷ []) e
                (rw (sym ((eqb_iff w k).0 same)) at i))
        | inr other ↦
            rw (Map.get-insert w k (entries_of (Map.get w index) ++ entry ∷ []) index, other) i
      ])

index_writes-adds :
    (entry : WriteIndexEntry) (ws : List ℕ) (index : Map ℕ (List WriteIndexEntry)) (k : ℕ)
    → In k ws
    → In entry (entries_of (Map.get k (index_writes entry ws index)))
unfolding index_writes
index_writes-adds entry [] index k m = absurd m
index_writes-adds entry (w ∷ ws) index k (inl e) = index_writes-keeps entry entry ws _ k (
    rw e (
      rw (Map.get-insert_self w (entries_of (Map.get w index) ++ entry ∷ []) index)
        (In-append_right (entries_of (Map.get w index)) (entry ∷ []) entry (inl refl))))
index_writes-adds entry (w ∷ ws) index k (inr m) = index_writes-adds entry ws _ k m

finish-cases :
    (m : SsiManager) (v : SsiStats × SsiResult) (s : ReadWriteSet) (t r c : ℕ) (keys : List Bytes)
    → (finish m v s t r c keys ≡ (install m v.0 s t r c keys, ok))
      ⊎ ((x : SsiConflict) × (finish m v s t r c keys ≡ (keep_active m v.0 s t, err x)))
unfolding finish
finish-cases m (stats, ok) s t r c keys = inl refl
finish-cases m (stats, err x) s t r c keys = inr (x, refl)

decide-cases :
    (m : SsiManager) (f : Option SsiConflict) (stats : SsiStats) (s : ReadWriteSet) (t r c : ℕ)
    (keys : List Bytes)
    → (st : SsiStats) × ((decide m f stats s t r c keys ≡ (install m st s t r c keys, ok))
        ⊎ ((x : SsiConflict) × (decide m f stats s t r c keys ≡ (keep_active m st s t, err x))))
unfolding decide
decide-cases m (some x) stats s t r c keys = (stats, inr (x, refl))
decide-cases m none stats s t r c keys =
    ((verdict s stats).0, finish-cases m (verdict s stats) s t r c keys)

-- A validation of an active transaction either installs the commit or keeps the transaction active;
-- the set that it goes by has the reads and the writes of the transaction.
pub validate-cases :
    (m : SsiManager) (t r c : ℕ) (keys : List Bytes) (s : ReadWriteSet)
    → Map.get t m.active_txns ≡ some s
    → (st : SsiStats) × (s' : ReadWriteSet) × (s'.read_keys ≡ s.read_keys)
      × (s'.write_keys ≡ s.write_keys)
      × ((validate_and_commit_with_keys m t r c keys ≡ (install m st s' t r c keys, ok))
          ⊎ ((x : SsiConflict) × (validate_and_commit_with_keys m t r c keys
                ≡ (keep_active m st s' t, err x))))
unfolding validate_and_commit_with_keys
validate-cases m t r c keys s active =
    let scan = scan_of m s t r c in
    let (st, which) = decide-cases m scan.found scan.stats scan.s t r c keys in
    let same =
      scan-keys t r c m.committed_txns (
        with_inbound m s t r c,
        count_conflicts m.stats (inbound t r c m.write_index s.read_keys),
      ) in
    rw (active, validate_from) (st, scan.s, same.0, same.1, which)

-- What an accepted validation writes to the index.
validate-index :
    (m m' : SsiManager) (t r c : ℕ) (keys : List Bytes) (s : ReadWriteSet)
    → Map.get t m.active_txns ≡ some s
    → validate_and_commit_with_keys m t r c keys ≡ (m', ok)
    → m'.write_index
      ≡ index_writes
          (record { commit_ts = c; start_ts = start_or (Map.get t m.active_start_ts) r })
          s.write_keys
          m.write_index
validate-index m m' t r c keys s active h =
    let (st, s', reads, writes, which) = validate-cases m t r c keys s active in
    by_case st s' writes which
  where
    by_case :
        (st : SsiStats) (s' : ReadWriteSet)
        → s'.write_keys ≡ s.write_keys
        → (validate_and_commit_with_keys m t r c keys ≡ (install m st s' t r c keys, ok))
          ⊎ ((x : SsiConflict) × (validate_and_commit_with_keys m t r c keys
                ≡ (keep_active m st s' t, err x)))
        → m'.write_index
          ≡ index_writes
              (record { commit_ts = c; start_ts = start_or (Map.get t m.active_start_ts) r })
              s.write_keys
              m.write_index
    by_case st s' writes (inl e) =
        ap (λ (p : SsiManager × SsiResult). p.0.write_index) (sym h ∙ e)
        ∙ unfold install in
          ap
            (λ ws.
              index_writes
                (record { commit_ts = c; start_ts = start_or (Map.get t m.active_start_ts) r }) ws
                m.write_index)
            writes
    by_case st s' writes (inr (x, e)) =
        absurd (cc (ap (λ (p : SsiManager × SsiResult). p.1) (sym h ∙ e)))

-- An accepted validation leaves an entry for each key that the transaction wrote.
pub validate-adds :
    (m m' : SsiManager) (t r c : ℕ) (keys : List Bytes) (s : ReadWriteSet) (k : ℕ)
    → Map.get t m.active_txns ≡ some s
    → validate_and_commit_with_keys m t r c keys ≡ (m', ok)
    → In k s.write_keys
    → In
        (record { commit_ts = c; start_ts = start_or (Map.get t m.active_start_ts) r })
        (entries_of (Map.get k m'.write_index))
validate-adds m m' t r c keys s k active done w =
    rw (validate-index m m' t r c keys s active done) (
      index_writes-adds
        (record { commit_ts = c; start_ts = start_or (Map.get t m.active_start_ts) r }) s.write_keys
        m.write_index k w)

-- A validation loses no entry of the index.
pub validate-keeps :
    (m : SsiManager) (t r c : ℕ) (keys : List Bytes) (k : ℕ) (e : WriteIndexEntry)
    → In e (entries_of (Map.get k m.write_index))
    → In e (entries_of (Map.get k (validate_and_commit_with_keys m t r c keys).0.write_index))
validate-keeps m t r c keys k e i = elim (Option-cases (Map.get t m.active_txns)) [
  | inl absent ↦ unfold validate_and_commit_with_keys in unfold validate_from in rw absent i
  | inr (s, active) ↦
      let (st, s', reads, writes, which) = validate-cases m t r c keys s active in
      elim which [
        | inl q ↦ rw q (unfold install in index_writes-keeps _ e s'.write_keys m.write_index k i)
        | inr (x, q) ↦ rw q i
      ]
]

-- An active transaction that has read a key with an unseen entry in the index is refused.
pub entry-refuses :
    (m : SsiManager) (t r c : ℕ) (keys : List Bytes) (s : ReadWriteSet) (k : ℕ)
    (e : WriteIndexEntry)
    → Map.get t m.active_txns ≡ some s
    → In k s.read_keys
    → In e (entries_of (Map.get k m.write_index))
    → r < e.commit_ts
    → e.start_ts < c
    → (validate_and_commit_with_keys m t r c keys).1 ≢ ok
entry-refuses m t r c keys s k e active rd i before after same =
    let (a, stale, p) = (validate-ok_iff m t r c keys s active).0 same in
    let (writers, g, j) = entries_of-In (Map.get k m.write_index) e i in
    stale (k, writers, e, rd, g, j, before, after)
