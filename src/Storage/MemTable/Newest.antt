-- ===== src/Storage/MemTable/Newest.antt =====
-- A read at a time sees the newest version that is not newer.
use crabstash.Base.{
  bytes_eq, nat_eq, ℕ, ◌≤◌, ◌<◌, Bytes, bytes_cmp_refl, bytes_cmp-eq, bytes_cmp-reverse,
  bytes_beq_iff, ◌≡◌, ◌↔◌, ◌⊎◌, refl, sym, ◌∙◌, ap, inl, inr, Bool, true, Ordering, Option, none,
  some, List, [], ◌∷◌, leb, ◌==◌, retain, In, In-retain→, In→retain, All, Bool-cases, Option-cases,
  arith,
}
use crabstash.Common.Key.{Key}
use crabstash.Storage.MemTable.{
  Entry, key_cmp, Ascending, not_before, SkipMap, MemTable, get_at_ts, first_visible,
}

abbrev version : Bytes → ℕ → Key
version d t = record { bytes = d; timestamp = t }

lt_of-In :
    (y : Entry) (es : List Entry) (x : Entry)
    → All (λ (z : Entry). key_cmp y.0 z.0 ≡ Ordering.lt) es
    → In x es
    → key_cmp y.0 x.0 ≡ Ordering.lt
lt_of-In y [] x h m = absurd m
lt_of-In y (z ∷ es) x h (inl e) = rw e h.0
lt_of-In y (z ∷ es) x h (inr m) = lt_of-In y es x h.1 m

-- The first of the entries from a version on stands before the others.
first-In :
    (p : Entry → Bool) (es : List Entry) (e : Entry) (rest : List Entry) (x : Entry)
    → Ascending es
    → retain p es ≡ e ∷ rest
    → In x (retain p es)
    → (x ≡ e) ⊎ (key_cmp e.0 x.0 ≡ Ordering.lt)
unfolding retain
first-In p [] e rest x asc h m = absurd m
first-In p (y ∷ es) e rest x asc h m = elim (Bool-cases (p y)) [
  | inr skipped ↦ first-In p es e rest x asc.1 (rw skipped at h) (rw skipped at m)
  | inl kept ↦
      let h' : y ∷ retain p es ≡ e ∷ rest = rw kept at h in
      let q : y ≡ e = cc in of_kept q (rw kept at m)
]
  where
    of_kept : y ≡ e → In x (y ∷ retain p es) → (x ≡ e) ⊎ (key_cmp e.0 x.0 ≡ Ordering.lt)
    of_kept q (inl same) = inl (same ∙ q)
    of_kept q (inr later) = inr (rw (sym q) (lt_of-In y es x asc.0 (In-retain→ p es x later).0))

-- An entry from a version on that has the key of the version is not newer.
version-not_before :
    (d : Bytes) (ts : ℕ) (e : Entry)
    → not_before (version d ts) e ≡ true
    → e.0.bytes ≡ d
    → e.0.timestamp ≤ ts
version-not_before d ts e h q =
    let h' : not_before (version e.0.bytes ts) e ≡ true = rw (sym q) at h in
    ground (arith, bytes_cmp_refl e.0.bytes)

not_before-version :
    (d : Bytes) (ts t : ℕ) (v : Option Bytes)
    → t ≤ ts
    → not_before (version d ts) (version d t, v) ≡ true
not_before-version d ts t v le = ground (arith, bytes_cmp_refl d)

older_version :
    {d : Bytes} (k : Key) (u : ℕ)
    → k.bytes ≡ d
    → key_cmp k (version d u) ≡ Ordering.lt
    → u < k.timestamp
older_version {d} k u q c =
    let c' : key_cmp (version d k.timestamp) (version d u) ≡ Ordering.lt = rw q at c in
    ground (arith, bytes_cmp_refl d)

-- An entry between two versions of a key is a version of the key.
between-bytes :
    (d : Bytes) (ts t : ℕ) (e : Entry)
    → not_before (version d ts) e ≡ true
    → key_cmp e.0 (version d t) ≡ Ordering.lt
    → e.0.bytes ≡ d
between-bytes d ts t e h k =
    bytes_cmp-eq e.0.bytes d (ground (arith, bytes_cmp-reverse e.0.bytes d))

module _ {M : Type 0} (skip : SkipMap M) (m : M) (d : Bytes) (ts : ℕ) where
  abbrev from_version : List Entry
  from_version = retain (not_before (version d ts)) (skip.iter m)

  -- The value of the newest version of the key that is not newer than the time.
  abbrev pub IsNewest : Option Bytes → Type 0
  IsNewest v =
      (t : ℕ) × (t ≤ ts)
      × (skip.get m (version d t) ≡ some v)
      × ((u : ℕ) → t < u → u ≤ ts → skip.get m (version d u) ≡ none)

  stored-In :
      (t : ℕ) (v : Option Bytes)
      → t ≤ ts
      → skip.get m (version d t) ≡ some v
      → In (version d t, v) from_version
  stored-In t v le g =
      In→retain (not_before (version d ts)) (skip.iter m) (version d t, v)
        ((skip.iter_iff m (version d t) v).1 g) (not_before-version d ts t v le)

  -- The first entry from the version on, if it has the key, is the newest.
  head-IsNewest :
      (k : Key) (w : Option Bytes) (rest : List Entry)
      → from_version ≡ (k, w) ∷ rest
      → k.bytes ≡ d
      → (k.timestamp ≤ ts)
        × (skip.get m (version d k.timestamp) ≡ some w)
        × ((u : ℕ) → k.timestamp < u → u ≤ ts → skip.get m (version d u) ≡ none)
  head-IsNewest k w rest h q =
      let (i, nb) = In-retain→ (not_before (version d ts)) (skip.iter m) (k, w) (rw h (inl refl)) in
      let same : k ≡ version d k.timestamp = λ j. record { bytes = q j; timestamp = k.timestamp } in
      let g : skip.get m k ≡ some w = (skip.iter_iff m k w).0 i in
      (
        version-not_before d ts (k, w) nb q,
        rw (sym same) g,
        λ u lt le. elim (Option-cases (skip.get m (version d u))) [
          | inl absent ↦ absent
          | inr (x, found) ↦ newer u x lt (
              first-In (not_before (version d ts)) (skip.iter m) (k, w) rest (version d u, x)
                (skip.iter_ascending m) h (stored-In u x le found))
        ],
      )
    where
      newer :
          (u : ℕ) (x : Option Bytes)
          → k.timestamp < u
          → (◌≡◌ {A = Entry} (version d u, x) (k, w)) ⊎ (key_cmp k (version d u) ≡ Ordering.lt)
          → skip.get m (version d u) ≡ none
      newer u x lt (inl e) =
          let t : u ≡ k.timestamp = ap (λ (y : Entry). y.0.timestamp) e in absurd (omega arith)
      newer u x lt (inr c) = let t = older_version k u q c in absurd (omega arith)

  searched :
      (v : Option Bytes) (es : List Entry)
      → from_version ≡ es
      → (first_visible skip d ts es ≡ some v) ↔ IsNewest v
  unfolding first_visible
  searched v [] h = (
    λ e. cc,
    λ (t, le, g, none_newer).
        let absent : In {A = Entry} (version d t, v) [] = rw h at (stored-In t v le g) in
        absurd absent,
  )
  searched v ((k, w) ∷ rest) h = elim (Bool-cases (k.bytes == d)) [
    | inr other ↦ rw other (
      λ e. cc,
      λ (t, le, g, none_newer).
          let q = of_same t v (
            first-In (not_before (version d ts)) (skip.iter m) (k, w) rest (version d t, v)
              (skip.iter_ascending m) h (stored-In t v le g)) in
          ground (arith, bytes_beq_iff k.bytes d),
    )
    | inl same ↦
        let q : k.bytes ≡ d = (bytes_beq_iff k.bytes d).0 same in
        let (le, g, newest) = head-IsNewest k w rest h q in
        let seen : leb k.timestamp ts ≡ true = ground arith in
        rw (same, seen)
          (
            λ e. let e' : w ≡ v = cc in (k.timestamp, le, rw (sym e') g, newest),
            λ (t, tle, tg, none_newer). of_first t tg none_newer q le g (
                first-In (not_before (version d ts)) (skip.iter m) (k, w) rest (version d t, v)
                  (skip.iter_ascending m) h (stored-In t v tle tg)),
          )
  ]
    where
      of_same :
          (t : ℕ) (x : Option Bytes)
          → (◌≡◌ {A = Entry} (version d t, x) (k, w)) ⊎ (key_cmp k (version d t) ≡ Ordering.lt)
          → k.bytes ≡ d
      of_same t x (inl e) = sym (ap (λ (y : Entry). y.0.bytes) e)
      of_same t x (inr c) =
          let (i, nb) =
            In-retain→ (not_before (version d ts)) (skip.iter m) (k, w) (rw h (inl refl)) in
          between-bytes d ts t (k, w) nb c

      of_first :
          (t : ℕ)
          → skip.get m (version d t) ≡ some v
          → ((u : ℕ) → t < u → u ≤ ts → skip.get m (version d u) ≡ none)
          → k.bytes ≡ d
          → k.timestamp ≤ ts
          → skip.get m (version d k.timestamp) ≡ some w
          → (◌≡◌ {A = Entry} (version d t, v) (k, w)) ⊎ (key_cmp k (version d t) ≡ Ordering.lt)
          → some w ≡ some v
      of_first t tg newer q le g (inl e) = ap (λ (y : Entry). some y.1) (sym e)
      of_first t tg newer q le g (inr c) =
          let gone = newer k.timestamp (older_version k t q c) le in cc

-- `get_at_ts` answers exactly the value of the newest version of the key that is not newer than the
-- time, where a deletion is the value `none`, if the map keeps its entries in order.
pub get_at_ts_iff :
    {M : Type 0} (skip : SkipMap M) (table : MemTable skip) (key_data : Bytes) (ts : ℕ)
    (v : Option Bytes)
    → (get_at_ts skip table key_data ts ≡ some v) ↔ IsNewest skip table.map key_data ts v
unfolding get_at_ts
get_at_ts_iff skip table key_data ts v =
    rw (skip.range_from-iter table.map (version key_data ts))
      (searched skip table.map key_data ts v (from_version skip table.map key_data ts) refl)
