-- ===== src/Lock/Ssi/Accept.antt =====
-- Which transactions a validation accepts.
use crabstash.Base.{
  ◌<◌, In, all-In, all-false_witness, any-In, any_witness, key_in_range, nat_eq, Bound, ap, sym, ℕ,
  ◌≡◌, ◌↔◌, inl, inr, refl, ◌∙◌, Bytes, Bool, true, false, not, ◌&&◌, Option, none, some, List, [],
  ◌∷◌, ◌++◌, all, is_empty, arith, Bool-cases,
}
use crabstash.Base.Map
use crabstash.Base.Map.{Map}
use crabstash.Lock.Ssi.RwSet
use crabstash.Lock.Ssi.RwSet.{ReadWriteSet, has_dangerous_structure}
use crabstash.Lock.Ssi.Manager.{SsiManager, SsiStats, CommittedTxn, WriteIndexEntry}
use crabstash.Lock.Ssi.Validate.{
  SsiConflict, SsiResult, ok, err, is_conflicting, conflicts_with, entries_of, inbound, is_phantom,
  note_committed, Scan, scan_committed, verdict, finish, decide, with_inbound, validate_from,
  validate_and_commit_with_keys, count_conflicts,
}

-- The keys that were read have no conflicting entry.
abbrev pub fresh_reads : ℕ → ℕ → Map ℕ (List WriteIndexEntry) → List ℕ → Bool
fresh_reads read_ts commit_ts index read_set =
    all (λ k. all (λ e. not (is_conflicting read_ts commit_ts e)) (entries_of (Map.get k index)))
      read_set

-- No transaction that committed in the window wrote into a range that was read.
abbrev pub no_phantom : ℕ → ℕ → List (Bound × Bound) → Map ℕ CommittedTxn → Bool
no_phantom read_ts commit_ts ranges committed =
    all (λ (c : ℕ × CommittedTxn). not (is_phantom read_ts commit_ts ranges c.0 c.1)) committed

conflicts_with-is_empty :
    (t r c : ℕ) (writers : List WriteIndexEntry)
    → is_empty (conflicts_with t r c writers) ≡ all (λ e. not (is_conflicting r c e)) writers
unfolding conflicts_with all
conflicts_with-is_empty t r c [] = refl
conflicts_with-is_empty t r c (e ∷ writers) = elim (Bool-cases (is_conflicting r c e)) [
  | inl y ↦ rw y refl
  | inr n ↦ rw n (conflicts_with-is_empty t r c writers)
]

is_empty-append {ℓ} :
    {A : Type ℓ} (xs ys : List A) → is_empty (xs ++ ys) ≡ (is_empty xs && is_empty ys)
is_empty-append [] ys = refl
is_empty-append (x ∷ xs) ys = refl

inbound-is_empty :
    (t r c : ℕ) (index : Map ℕ (List WriteIndexEntry)) (read_set : List ℕ)
    → is_empty (inbound t r c index read_set) ≡ fresh_reads r c index read_set
unfolding inbound all
inbound-is_empty t r c index [] = refl
inbound-is_empty t r c index (k ∷ read_set) =
    is_empty-append (conflicts_with t r c (entries_of (Map.get k index)))
      (inbound t r c index read_set)
    ∙ ground (
      arith,
      conflicts_with-is_empty t r c (entries_of (Map.get k index)),
      inbound-is_empty t r c index read_set,
    )

-- A step of the scan finds conflicts of the writes, and leaves the rest of the set.
note_committed-inbound :
    (t r c ts : ℕ) (x : CommittedTxn) (acc : ReadWriteSet × SsiStats)
    → (note_committed t r c ts x acc).0.inbound_conflicts ≡ acc.0.inbound_conflicts
unfolding note_committed
note_committed-inbound t r c ts x (s, stats) = ground arith

note_committed-ranges :
    (t r c ts : ℕ) (x : CommittedTxn) (acc : ReadWriteSet × SsiStats)
    → (note_committed t r c ts x acc).0.read_ranges ≡ acc.0.read_ranges
unfolding note_committed
note_committed-ranges t r c ts x (s, stats) = ground arith

note_committed-reads :
    (t r c ts : ℕ) (x : CommittedTxn) (acc : ReadWriteSet × SsiStats)
    → ((note_committed t r c ts x acc).0.read_keys ≡ acc.0.read_keys)
      × ((note_committed t r c ts x acc).0.write_keys ≡ acc.0.write_keys)
unfolding note_committed
note_committed-reads t r c ts x (s, stats) = ground arith

-- Whether the scan ends with nothing found.
abbrev pub is_clear : Option SsiConflict → Bool
is_clear none = true
is_clear (some x) = false

module _ (t r c : ℕ) where
  scan-inbound :
      (committed : Map ℕ CommittedTxn) (acc : ReadWriteSet × SsiStats)
      → (scan_committed t r c committed acc).s.inbound_conflicts ≡ acc.0.inbound_conflicts
  unfolding scan_committed
  scan-inbound [] acc = refl
  scan-inbound ((ts, x) ∷ rest) acc =
      let acc' = note_committed t r c ts x acc in
      elim (Bool-cases (is_phantom r c acc'.0.read_ranges ts x)) [
        | inl y ↦ rw y (note_committed-inbound t r c ts x acc)
        | inr n ↦ rw n (scan-inbound rest acc' ∙ note_committed-inbound t r c ts x acc)
      ]

  pub scan-keys :
      (committed : Map ℕ CommittedTxn) (acc : ReadWriteSet × SsiStats)
      → ((scan_committed t r c committed acc).s.read_keys ≡ acc.0.read_keys)
        × ((scan_committed t r c committed acc).s.write_keys ≡ acc.0.write_keys)
  unfolding scan_committed
  scan-keys [] acc = (refl, refl)
  scan-keys ((ts, x) ∷ rest) acc =
      let acc' = note_committed t r c ts x acc in
      let here = note_committed-reads t r c ts x acc in
      let there = scan-keys rest acc' in
      elim (Bool-cases (is_phantom r c acc'.0.read_ranges ts x)) [
        | inl y ↦ rw y here
        | inr n ↦ rw n (there.0 ∙ here.0, there.1 ∙ here.1)
      ]

  scan-found :
      (committed : Map ℕ CommittedTxn) (acc : ReadWriteSet × SsiStats)
      → is_clear (scan_committed t r c committed acc).found
        ≡ no_phantom r c acc.0.read_ranges committed
  unfolding scan_committed all
  scan-found [] acc = refl
  scan-found ((ts, x) ∷ rest) acc =
      let acc' = note_committed t r c ts x acc in
      let same = note_committed-ranges t r c ts x acc in
      elim (Bool-cases (is_phantom r c acc'.0.read_ranges ts x)) [
        | inl y ↦ rw (y, rw same at y) refl
        | inr n ↦
            rw (n, rw same at n) (scan-found rest acc' ∙ ap (λ rs. no_phantom r c rs rest) same)
      ]

-- The two tests pass exactly if there is no inbound conflict.
verdict-ok :
    (s : ReadWriteSet) (stats : SsiStats)
    → ((verdict s stats).1 ≡ ok) ↔ (is_empty s.inbound_conflicts ≡ true)
unfolding verdict has_dangerous_structure
verdict-ok s stats = (λ h. ground arith, λ h. ground arith)

-- The transaction has read nothing stale.
abbrev pub is_serializable : SsiManager → ReadWriteSet → ℕ → ℕ → Bool
is_serializable m s read_ts commit_ts =
    is_empty s.inbound_conflicts
    && fresh_reads read_ts commit_ts m.write_index s.read_keys
    && no_phantom read_ts commit_ts s.read_ranges m.committed_txns

finish-result :
    (m : SsiManager) (v : SsiStats × SsiResult) (s : ReadWriteSet) (t r c : ℕ) (keys : List Bytes)
    → (finish m v s t r c keys).1 ≡ v.1
unfolding finish
finish-result m (stats, ok) s t r c keys = refl
finish-result m (stats, err x) s t r c keys = refl

decide-ok :
    (m : SsiManager) (f : Option SsiConflict) (stats : SsiStats) (s : ReadWriteSet) (t r c : ℕ)
    (keys : List Bytes)
    → ((decide m f stats s t r c keys).1 ≡ ok)
      ↔ ((is_clear f && is_empty s.inbound_conflicts) ≡ true)
unfolding decide
decide-ok m (some x) stats s t r c keys = (λ h. ground arith, λ h. ground arith)
decide-ok m none stats s t r c keys = (
  λ h. (verdict-ok s stats).0 (sym (finish-result m (verdict s stats) s t r c keys) ∙ h),
  λ h. finish-result m (verdict s stats) s t r c keys ∙ (verdict-ok s stats).1 h,
)

abbrev pub scan_of : SsiManager → ReadWriteSet → ℕ → ℕ → ℕ → Scan
scan_of m s t r c =
    scan_committed t r c m.committed_txns
      (with_inbound m s t r c, count_conflicts m.stats (inbound t r c m.write_index s.read_keys))

scan-is_serializable :
    (m : SsiManager) (s : ReadWriteSet) (t r c : ℕ)
    → (is_clear (scan_of m s t r c).found && is_empty (scan_of m s t r c).s.inbound_conflicts)
      ≡ is_serializable m s r c
scan-is_serializable m s t r c =
    let new_conflicts = inbound t r c m.write_index s.read_keys in
    let acc : ReadWriteSet × SsiStats =
      (with_inbound m s t r c, count_conflicts m.stats new_conflicts) in
    ground (
      arith,
      scan-found t r c m.committed_txns acc,
      scan-inbound t r c m.committed_txns acc,
      is_empty-append s.inbound_conflicts new_conflicts,
      inbound-is_empty t r c m.write_index s.read_keys,
    )

-- A key that was read has been written by a transaction that committed after the snapshot `r` and had
-- started before the commit at `c`.
abbrev pub StaleRead : Map ℕ (List WriteIndexEntry) → List ℕ → ℕ → ℕ → Type 0
StaleRead index read_keys r c =
    (k : ℕ) × (writers : List WriteIndexEntry) × (e : WriteIndexEntry) × In k read_keys
    × (Map.get k index ≡ some writers)
    × In e writers
    × (r < e.commit_ts)
    × (e.start_ts < c)

-- A transaction that committed between the snapshot `r` and `c` wrote a key into a range that was read.
abbrev pub Phantom : Map ℕ CommittedTxn → List (Bound × Bound) → ℕ → ℕ → Type 0
Phantom committed ranges r c =
    (ts : ℕ) × (x : CommittedTxn) × (key : Bytes) × (range : Bound × Bound) × In (ts, x) committed
    × (r < ts)
    × (ts < c)
    × In key x.write_keys
    × In range ranges
    × (key_in_range key range.0 range.1 ≡ true)

fresh_reads-entry :
    (r c : ℕ) (index : Map ℕ (List WriteIndexEntry)) (read_set : List ℕ) (k : ℕ)
    (e : WriteIndexEntry)
    → fresh_reads r c index read_set ≡ true
    → In k read_set
    → In e (entries_of (Map.get k index))
    → is_conflicting r c e ≡ false
fresh_reads-entry r c index read_set k e h m i =
    let row =
      all-In (λ j. all (λ x. not (is_conflicting r c x)) (entries_of (Map.get j index))) read_set h
        k m in
    let cell = all-In (λ x. not (is_conflicting r c x)) (entries_of (Map.get k index)) row e i in
    ground arith

pub entries_of-In :
    (o : Option (List WriteIndexEntry)) (e : WriteIndexEntry)
    → In e (entries_of o)
    → (writers : List WriteIndexEntry) × (o ≡ some writers) × In e writers
entries_of-In none e i = absurd i
entries_of-In (some writers) e i = (writers, refl, i)

fresh_reads_iff :
    (r c : ℕ) (index : Map ℕ (List WriteIndexEntry)) (read_keys : List ℕ)
    → (fresh_reads r c index read_keys ≡ true) ↔ (¬ StaleRead index read_keys r c)
fresh_reads_iff r c index read_keys = elim (Bool-cases (fresh_reads r c index read_keys)) [
  | inl fresh ↦ (
    λ _ (k, writers, e, m, g, i, before, after).
        let clean = fresh_reads-entry r c index read_keys k e fresh m (rw g i) in ground arith,
    λ _. fresh,
  )
  | inr stale ↦ (
    λ h. absurd (ground arith),
    λ none_stale.
        let (k, m, row) =
          all-false_witness
            (λ j. all (λ x. not (is_conflicting r c x)) (entries_of (Map.get j index))) read_keys
            stale in
        let (e, i, cell) =
          all-false_witness (λ x. not (is_conflicting r c x)) (entries_of (Map.get k index)) row in
        let (writers, g, j) = entries_of-In (Map.get k index) e i in
        absurd (none_stale (k, writers, e, m, g, j, ground arith, ground arith)),
  )
]

key_in_ranges_iff :
    (key : Bytes) (ranges : List (Bound × Bound))
    → (RwSet.key_in_ranges key ranges ≡ true)
      ↔ ((range : Bound × Bound) × In range ranges × (key_in_range key range.0 range.1 ≡ true))
unfolding RwSet.key_in_ranges
key_in_ranges_iff key ranges = (
  any_witness (λ (r : Bound × Bound). key_in_range key r.0 r.1) ranges,
  λ (range, i, h). any-In (λ (r : Bound × Bound). key_in_range key r.0 r.1) ranges range i h,
)

no_phantom_iff :
    (r c : ℕ) (ranges : List (Bound × Bound)) (committed : Map ℕ CommittedTxn)
    → (no_phantom r c ranges committed ≡ true) ↔ (¬ Phantom committed ranges r c)
no_phantom_iff r c ranges committed = elim (Bool-cases (no_phantom r c ranges committed)) [
  | inl clear ↦ (
    λ _ (ts, x, key, range, i, before, after, w, inside, h).
        let clean =
          all-In (λ (p : ℕ × CommittedTxn). not (is_phantom r c ranges p.0 p.1)) committed clear
            (ts, x) i in
        let hit =
          any-In (λ k. RwSet.key_in_ranges k ranges) x.write_keys key w
            ((key_in_ranges_iff key ranges).1 (range, inside, h)) in
        ground arith,
    λ _. clear,
  )
  | inr found ↦ (
    λ h. absurd (ground arith),
    λ no_phantoms.
        let ((ts, x), i, hit) =
          all-false_witness (λ (p : ℕ × CommittedTxn). not (is_phantom r c ranges p.0 p.1))
            committed found in
        let (key, w, h) =
          any_witness (λ k. RwSet.key_in_ranges k ranges) x.write_keys (ground arith) in
        let (range, inside, k) = (key_in_ranges_iff key ranges).0 h in
        absurd (no_phantoms (ts, x, key, range, i, ground arith, ground arith, w, inside, k)),
  )
]

-- No conflict was noted for the transaction before, and it has read nothing stale.
abbrev pub IsSerializable : SsiManager → ReadWriteSet → ℕ → ℕ → Type 0
IsSerializable m s r c =
    (s.inbound_conflicts ≡ [])
    × (¬ StaleRead m.write_index s.read_keys r c)
    × (¬ Phantom m.committed_txns s.read_ranges r c)

is_serializable_iff :
    (m : SsiManager) (s : ReadWriteSet) (r c : ℕ)
    → (is_serializable m s r c ≡ true) ↔ IsSerializable m s r c
is_serializable_iff m s r c =
    let reads = fresh_reads_iff r c m.write_index s.read_keys in
    let ranges = no_phantom_iff r c s.read_ranges m.committed_txns in
    (
      λ h. (ground arith, reads.0 (ground arith), ranges.0 (ground arith)),
      λ (a, b, p). let b' = reads.1 b in let p' = ranges.1 p in ground arith,
    )

-- A commit of an active transaction is accepted exactly if no conflict was noted for it before, no
-- key that it read was written by a transaction that committed after its snapshot and had started
-- before its commit, and no transaction that committed between its snapshot and its commit wrote a
-- key into a range that it read.
pub validate-ok_iff :
    (m : SsiManager) (t r c : ℕ) (keys : List Bytes) (s : ReadWriteSet)
    → Map.get t m.active_txns ≡ some s
    → ((validate_and_commit_with_keys m t r c keys).1 ≡ ok) ↔ IsSerializable m s r c
unfolding validate_and_commit_with_keys
validate-ok_iff m t r c keys s active =
    let scan = scan_of m s t r c in
    let choice = decide-ok m scan.found scan.stats scan.s t r c keys in
    let exact = is_serializable_iff m s r c in
    rw (active, validate_from)
      (
        λ h. exact.0 (sym (scan-is_serializable m s t r c) ∙ choice.0 h),
        λ h. choice.1 (scan-is_serializable m s t r c ∙ exact.1 h),
      )
