-- ===== src/Tests/SkipMaps.antt =====
-- A map of versions as an ordered list, which has what the memtable relies on.
use crabstash.Base.{
  bytes_eq, nat_eq, ◌<◌, Bytes, bytes_cmp, bytes_cmp_refl, bytes_cmp-eq, bytes_cmp-reverse,
  bytes_lt_of_le_of_lt, ◌≡◌, ◌↔◌, ◌⊎◌, refl, sym, ◌∙◌, ap, inl, inr, Ordering, Option, none, some,
  List, [], ◌∷◌, retain, In, All, arith, bytes_beq,
}
use crabstash.Common.Key.{Key, newest_first}
use crabstash.Storage.MemTable
use crabstash.Storage.MemTable.{Entry, key_cmp, Ascending, not_before, SkipMap, MemTable, get_at_ts}
use crabstash.Storage.MemTable.Newest.{IsNewest, get_at_ts_iff}

key_cmp_refl : (k : Key) → key_cmp k k ≡ Ordering.eq
key_cmp_refl k = ground (arith, bytes_cmp_refl k.bytes)

key_cmp-eq : (a b : Key) → key_cmp a b ≡ Ordering.eq → a ≡ b
key_cmp-eq a b h =
    let d : a.bytes ≡ b.bytes = bytes_cmp-eq a.bytes b.bytes (ground arith) in
    let t : a.timestamp ≡ b.timestamp = ground arith in λ i. record { bytes = d i; timestamp = t i }

key_cmp-reverse : (a b : Key) → key_cmp a b ≡ Ordering.gt → key_cmp b a ≡ Ordering.lt
key_cmp-reverse a b h = ground (arith, bytes_cmp-reverse a.bytes b.bytes)

lt_cases :
    (a b : Key)
    → key_cmp a b ≡ Ordering.lt
    → (bytes_cmp a.bytes b.bytes ≡ Ordering.lt)
      ⊎ ((a.bytes ≡ b.bytes) × (b.timestamp < a.timestamp))
lt_cases a b h = of_cmp (bytes_cmp a.bytes b.bytes) refl h
  where
    of_cmp :
        (o : Ordering)
        → bytes_cmp a.bytes b.bytes ≡ o
        → newest_first o a.timestamp b.timestamp ≡ Ordering.lt
        → (bytes_cmp a.bytes b.bytes ≡ Ordering.lt)
          ⊎ ((a.bytes ≡ b.bytes) × (b.timestamp < a.timestamp))
    of_cmp Ordering.lt e q = inl e
    of_cmp Ordering.eq e q = inr (bytes_cmp-eq a.bytes b.bytes e, ground arith)
    of_cmp Ordering.gt e q = cc

key_cmp_trans :
    (a b c : Key)
    → key_cmp a b ≡ Ordering.lt
    → key_cmp b c ≡ Ordering.lt
    → key_cmp a c ≡ Ordering.lt
key_cmp_trans a b c h k = by_cases (lt_cases a b h) (lt_cases b c k)
  where
    by_cases :
        (bytes_cmp a.bytes b.bytes ≡ Ordering.lt)
          ⊎ ((a.bytes ≡ b.bytes) × (b.timestamp < a.timestamp))
        → (bytes_cmp b.bytes c.bytes ≡ Ordering.lt)
          ⊎ ((b.bytes ≡ c.bytes) × (c.timestamp < b.timestamp))
        → key_cmp a c ≡ Ordering.lt
    by_cases (inl p) (inl q) =
        let r = bytes_lt_of_le_of_lt a.bytes b.bytes c.bytes (ground arith) (ground arith) in
        ground arith
    by_cases (inl p) (inr (q, t)) =
        let p' : bytes_cmp a.bytes c.bytes ≡ Ordering.lt = rw q at p in ground arith
    by_cases (inr (p, t)) (inl q) =
        let q' : bytes_cmp a.bytes c.bytes ≡ Ordering.lt = rw p q in ground arith
    by_cases (inr (p, t)) (inr (q, u)) =
        let e : bytes_cmp a.bytes c.bytes ≡ Ordering.eq = rw (p, q) (bytes_cmp_refl c.bytes) in
        ground arith

abbrev pub place : Ordering → Entry → Entry → List Entry → List Entry → List Entry
place Ordering.lt x e es rest = x ∷ e ∷ es
place Ordering.eq x e es rest = x ∷ es
place Ordering.gt x e es rest = e ∷ rest

abbrev pub ins : Key → Option Bytes → List Entry → List Entry
ins k v [] = (k, v) ∷ []
ins k v (e ∷ es) = place (key_cmp k e.0) (k, v) e es (ins k v es)

abbrev pub pick : Ordering → Option Bytes → Option (Option Bytes) → Option (Option Bytes)
pick Ordering.lt v rest = rest
pick Ordering.eq v rest = some v
pick Ordering.gt v rest = rest

abbrev pub lookup : List Entry → Key → Option (Option Bytes)
lookup [] k = none
lookup (e ∷ es) k = pick (key_cmp k e.0) e.1 (lookup es k)

pub lookup-ins_self :
    (k : Key) (v : Option Bytes) (es : List Entry) → lookup (ins k v es) k ≡ some v
lookup-ins_self k v [] = rw (key_cmp_refl k) refl
lookup-ins_self k v (e ∷ es) = by_order (key_cmp k e.0) refl (lookup-ins_self k v es)
  where
    by_order :
        (o : Ordering)
        → key_cmp k e.0 ≡ o
        → lookup (ins k v es) k ≡ some v
        → lookup (ins k v (e ∷ es)) k ≡ some v
    by_order Ordering.lt h ih = rw (h, key_cmp_refl k) refl
    by_order Ordering.eq h ih = rw (h, key_cmp_refl k) refl
    by_order Ordering.gt h ih = rw (h, h) ih

skip_other :
    (j k : Key) (v : Option Bytes) (rest : Option (Option Bytes))
    → (k ≡ j → ⊥)
    → pick (key_cmp j k) v rest ≡ rest
skip_other j k v rest ne = by_order (key_cmp j k) refl
  where
    by_order : (o : Ordering) → key_cmp j k ≡ o → pick (key_cmp j k) v rest ≡ rest
    by_order Ordering.lt h = rw h refl
    by_order Ordering.eq h = absurd (ne (sym (key_cmp-eq j k h)))
    by_order Ordering.gt h = rw h refl

pub lookup-ins_ne :
    (k j : Key) (v : Option Bytes) (es : List Entry)
    → (k ≡ j → ⊥)
    → lookup (ins k v es) j ≡ lookup es j
lookup-ins_ne k j v [] ne = skip_other j k v none ne
lookup-ins_ne k j v (e ∷ es) ne = by_order (key_cmp k e.0) refl (lookup-ins_ne k j v es ne)
  where
    by_order :
        (o : Ordering)
        → key_cmp k e.0 ≡ o
        → lookup (ins k v es) j ≡ lookup es j
        → lookup (ins k v (e ∷ es)) j ≡ lookup (e ∷ es) j
    by_order Ordering.lt h ih = rw h (skip_other j k v (lookup (e ∷ es) j) ne)
    by_order Ordering.eq h ih =
        let q = key_cmp-eq k e.0 h in
        rw h (
          skip_other j k v (lookup es j) ne
          ∙ sym (skip_other j e.0 e.1 (lookup es j) (λ p. ne (q ∙ p))))
    by_order Ordering.gt h ih = rw (h, ih) refl

pub lookup→In : (es : List Entry) (k : Key) (v : Option Bytes) → lookup es k ≡ some v → In (k, v) es
lookup→In [] k v h = cc
lookup→In (e ∷ es) k v h = by_order (key_cmp k e.0) refl (lookup→In es k v)
  where
    by_order :
        (o : Ordering)
        → key_cmp k e.0 ≡ o
        → (lookup es k ≡ some v → In (k, v) es)
        → In (k, v) (e ∷ es)
    by_order Ordering.lt q ih = inr (ih (rw q at h))
    by_order Ordering.gt q ih = inr (ih (rw q at h))
    by_order Ordering.eq q ih =
        let h' : some e.1 ≡ some v = rw q at h in
        let w : v ≡ e.1 = cc in let same = key_cmp-eq k e.0 q in inl (λ i. (same i, w i))

pub In→lookup :
    (es : List Entry) (k : Key) (v : Option Bytes)
    → Ascending es
    → In (k, v) es
    → lookup es k ≡ some v
In→lookup [] k v asc m = absurd m
In→lookup (e ∷ es) k v asc (inl q) =
    let same : key_cmp k e.0 ≡ Ordering.eq =
      rw (ap (λ (y : Entry). y.0) (sym q)) (key_cmp_refl k) in
    rw same (ap (λ (y : Entry). some y.1) (sym q))
In→lookup (e ∷ es) k v asc (inr m) =
    behind (key_cmp k e.0) refl (all_behind es (k, v) asc.0 m) (In→lookup es k v asc.1 m)
  where
    all_behind :
        (xs : List Entry) (x : Entry)
        → All (λ (z : Entry). key_cmp e.0 z.0 ≡ Ordering.lt) xs
        → In x xs
        → key_cmp e.0 x.0 ≡ Ordering.lt
    all_behind [] x h n = absurd n
    all_behind (z ∷ xs) x h (inl q) = rw q h.0
    all_behind (z ∷ xs) x h (inr n) = all_behind xs x h.1 n

    behind :
        (o : Ordering)
        → key_cmp k e.0 ≡ o
        → key_cmp e.0 k ≡ Ordering.lt
        → lookup es k ≡ some v
        → lookup (e ∷ es) k ≡ some v
    behind Ordering.lt q lt ih = rw q ih
    behind Ordering.gt q lt ih = rw q ih
    behind Ordering.eq q lt ih =
        let same = key_cmp-eq k e.0 q in
        let again : key_cmp k k ≡ Ordering.lt = rw (sym same) at lt in
        let no_less = key_cmp_refl k in cc

All-In :
    (y : Key) (es : List Entry)
    → ((x : Entry) → In x es → key_cmp y x.0 ≡ Ordering.lt)
    → All (λ (z : Entry). key_cmp y z.0 ≡ Ordering.lt) es
All-In y [] h = tt
All-In y (e ∷ es) h = (h e (inl refl), All-In y es (λ x m. h x (inr m)))

In-All :
    (y : Key) (es : List Entry) (x : Entry)
    → All (λ (z : Entry). key_cmp y z.0 ≡ Ordering.lt) es
    → In x es
    → key_cmp y x.0 ≡ Ordering.lt
In-All y [] x h m = absurd m
In-All y (z ∷ es) x h (inl q) = rw q h.0
In-All y (z ∷ es) x h (inr m) = In-All y es x h.1 m

In-ins :
    (k : Key) (v : Option Bytes) (es : List Entry) (x : Entry)
    → In x (ins k v es)
    → (x ≡ (k, v)) ⊎ In x es
In-ins k v [] x (inl q) = inl q
In-ins k v [] x (inr m) = absurd m
In-ins k v (e ∷ es) x m = by_order (key_cmp k e.0) (In-ins k v es x) m
  where
    by_order :
        (o : Ordering)
        → (In x (ins k v es) → (◌≡◌ {A = Entry} x (k, v)) ⊎ In x es)
        → In x (place o (k, v) e es (ins k v es))
        → (◌≡◌ {A = Entry} x (k, v)) ⊎ In x (e ∷ es)
    by_order Ordering.lt ih (inl q) = inl q
    by_order Ordering.lt ih (inr n) = inr n
    by_order Ordering.eq ih (inl q) = inl q
    by_order Ordering.eq ih (inr n) = inr (inr n)
    by_order Ordering.gt ih (inl q) = inr (inl q)
    by_order Ordering.gt ih (inr n) = elim (ih n) [ inl q ↦ inl q | inr old ↦ inr (inr old) ]

pub ins-Ascending :
    (k : Key) (v : Option Bytes) (es : List Entry) → Ascending es → Ascending (ins k v es)
ins-Ascending k v [] asc = (tt, tt)
ins-Ascending k v (e ∷ es) asc = by_order (key_cmp k e.0) refl (ins-Ascending k v es asc.1)
  where
    by_order :
        (o : Ordering)
        → key_cmp k e.0 ≡ o
        → Ascending (ins k v es)
        → Ascending (place o (k, v) e es (ins k v es))
    by_order Ordering.lt h ih =
        ((h, All-In k es (λ x m. key_cmp_trans k e.0 x.0 h (In-All e.0 es x asc.0 m))), asc)
    by_order Ordering.eq h ih =
        (All-In k es (λ x m. rw (key_cmp-eq k e.0 h) (In-All e.0 es x asc.0 m)), asc.1)
    by_order Ordering.gt h ih = (
      All-In e.0 (ins k v es) (λ x m. elim (In-ins k v es x m) [
        | inl q ↦ rw q (key_cmp-reverse k e.0 h)
        | inr old ↦ In-All e.0 es x asc.0 old
      ]),
      ih,
    )

pub record Sorted : Type 0 where
  pub items : List Entry
  pub order : Ascending items

abbrev pub sorted_map : SkipMap Sorted
sorted_map = record {
  empty = record { items = []; order = tt };
  insert = λ m k v. record { items = ins k v m.items; order = ins-Ascending k v m.items m.order };
  get = λ m k. lookup m.items k;
  iter = λ m. m.items;
  range_from = λ m k. retain (not_before k) m.items;
  get_empty = λ k. refl;
  get-insert_self = λ m k v. lookup-ins_self k v m.items;
  get-insert_ne = λ m k j v ne. lookup-ins_ne k j v m.items ne;
  iter_iff = λ m k v. (In→lookup m.items k v m.order, lookup→In m.items k v);
  iter_ascending = λ m. m.order;
  range_from-iter = λ m k. refl;
}

-- Three versions of the key 7, the last one a deletion.
abbrev pub versions : MemTable sorted_map
versions =
    MemTable.delete sorted_map
      (MemTable.put sorted_map
        (MemTable.put sorted_map (MemTable.new sorted_map)
          (record { bytes = 7 ∷ []; timestamp = 3 }) (1 ∷ []))
        (record { bytes = 7 ∷ []; timestamp = 9 }) (2 ∷ []))
      (record { bytes = 7 ∷ []; timestamp = 12 })

get_at_ts_iff_example :
    (get_at_ts sorted_map versions (7 ∷ []) 10 ≡ some (some (2 ∷ [])))
    ↔ IsNewest sorted_map versions.map (7 ∷ []) 10 (some (2 ∷ []))
get_at_ts_iff_example = get_at_ts_iff sorted_map versions (7 ∷ []) 10 (some (2 ∷ []))

read_at_10 : get_at_ts sorted_map versions (7 ∷ []) 10 ≡ some (some (2 ∷ []))
unfolding get_at_ts MemTable.first_visible MemTable.put MemTable.delete retain bytes_cmp bytes_beq
read_at_10 = refl
