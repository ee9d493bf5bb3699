-- ===== src/Lock/Entry/Waiting.antt =====
-- What the calls on an entry answer, and what they leave in the queue.
use crabstash.Base.{
  ap, ◌∙◌, ◌↔◌, ◌++◌, all, nat_eq, ℕ, ◌≡◌, ◌≢◌, ◌⊎◌, inl, inr, refl, Bool, true, false, ◌||◌, ◌&&◌,
  not, none, some, List, [], ◌∷◌, arith, In, all-false_witness, Bool-cases, Option-cases,
  if◌then◌else◌, ◌==◌, In-retain→, eqb_iff,
}
use crabstash.Base.Map
use crabstash.Base.Map.{Map}
use crabstash.Lock.Mode.{
  LockMode, is_compatible, mode_beq_iff, can_upgrade_to, mode_eq, Covers, IsWeaker,
  not-can_upgrade_to-Covers_iff, not-can_upgrade_to_self,
}
use crabstash.Lock.Error.{ok, err, timeout}
use crabstash.Lock.Entry.{
  LockEntry, is_compatible_with_holders, already_held, grant, try_acquire, remove_from_queue, Wake,
  Progress, returned, waiting, wait_loop, acquire, release, get_mode, is_held_by,
}

-- A failed attempt changes nothing, and there is a holder, another transaction, whose mode excludes
-- the one that was asked for.
pub try_acquire-refused :
    (e : LockEntry) (txn_id : ℕ) (mode : LockMode)
    → (try_acquire e txn_id mode).1 ≡ false
    → ((try_acquire e txn_id mode).0 ≡ e)
      × ((h : ℕ × LockMode) × In h e.holders × (h.0 ≢ txn_id) × (is_compatible mode h.1 ≡ false))
unfolding try_acquire is_compatible_with_holders
try_acquire-refused e txn_id mode refused =
    let (h, m, f) =
      all-false_witness (λ (h : ℕ × LockMode). h.0 == txn_id || is_compatible mode h.1) e.holders
        (ground arith) in
    (ground arith, (h, m, ground (arith, eqb_iff h.0 txn_id), ground arith))

-- The mode that a transaction holds after a successful attempt is the one that it asked for, or one
-- that it already held and that has no upgrade to the one asked for.
pub try_acquire-granted :
    (e : LockEntry) (txn_id : ℕ) (mode : LockMode)
    → (try_acquire e txn_id mode).1 ≡ true
    → (get_mode (try_acquire e txn_id mode).0 txn_id ≡ some mode)
      ⊎ ((held : LockMode) × (get_mode e txn_id ≡ some held)
          × (can_upgrade_to held mode ≡ false)
          × ((try_acquire e txn_id mode).0 ≡ e))
unfolding try_acquire get_mode already_held
try_acquire-granted e txn_id mode granted = elim (Option-cases (Map.get txn_id e.holders)) [
  | inl absent ↦ inl (ground (arith, Map.get-insert_self txn_id mode e.holders))
  | inr (held, g) ↦ elim (Bool-cases (held == mode)) [
    | inl same ↦ inl (ground (arith, (mode_beq_iff held mode).0 same))
    | inr other ↦ elim (Bool-cases (can_upgrade_to held mode)) [
      | inl up ↦ inl (ground (arith, Map.get-insert_self txn_id mode e.holders))
      | inr stuck ↦ inr (held, g, stuck, ground arith)
    ]
  ]
]

-- After a successful attempt the transaction holds the key, in a mode that excludes all that the mode
-- it asked for excludes, unless it already held SIX and asked for X, or held one of S and IX and asked
-- for the other: then the held mode excludes less, and the attempt has changed nothing.
pub try_acquire-Covers_iff :
    (e : LockEntry) (txn_id : ℕ) (mode : LockMode)
    → (try_acquire e txn_id mode).1 ≡ true
    → (held : LockMode) × (get_mode (try_acquire e txn_id mode).0 txn_id ≡ some held)
      × (Covers held mode ↔ (¬ IsWeaker held mode))
      × (IsWeaker held mode → (try_acquire e txn_id mode).0 ≡ e)
try_acquire-Covers_iff e txn_id mode granted = elim (try_acquire-granted e txn_id mode granted) [
  | inl new ↦
      let exact = not-can_upgrade_to-Covers_iff mode mode (not-can_upgrade_to_self mode) in
      (mode, new, exact, λ w. absurd (exact.0 (λ c h. h) w))
  | inr (held, g, stuck, same) ↦ (
    held,
    ap (λ (x : LockEntry). get_mode x txn_id) same ∙ g,
    not-can_upgrade_to-Covers_iff held mode stuck,
    λ w. same,
  )
]

module _ (txn_id : ℕ) where
  not-In-remove_from_queue : (e : LockEntry) → ¬ In txn_id (remove_from_queue e txn_id).wait_queue
  unfolding remove_from_queue
  not-In-remove_from_queue e m =
      let k = In-retain→ (λ id. not (id == txn_id)) e.wait_queue txn_id m in
      ground (arith, k.1, eqb_iff txn_id txn_id)

  -- What a returned call has done: it is out of the queue, and it holds the mode unless it failed
  -- with a time-out.
  abbrev pub Settled : LockMode → Progress → Type 0
  Settled mode (returned (ok u) e) = (¬ In txn_id e.wait_queue) × (get_mode e txn_id ≡ some mode)
  Settled mode (returned (err r) e) = (¬ In txn_id e.wait_queue) × (r ≡ timeout)
  Settled mode (waiting e) = Unit

  module _ (grantable : Map ℕ LockMode → Bool) (deadline : Bool) (mode : LockMode) where
    granted-Settled :
        (e : LockEntry)
        → Settled mode (returned (ok tt) (remove_from_queue (grant e txn_id mode) txn_id))
    unfolding get_mode
    granted-Settled e = (
      not-In-remove_from_queue (grant e txn_id mode),
      unfold remove_from_queue in Map.get-insert_self txn_id mode e.holders,
    )

    timeout-Settled :
        (e : LockEntry) → Settled mode (returned (err timeout) (remove_from_queue e txn_id))
    timeout-Settled e = (not-In-remove_from_queue e, refl)

    wait_loop-Settled :
        (wakes : List Wake) (e : LockEntry)
        → Settled mode (wait_loop grantable deadline txn_id mode wakes e)
    unfolding wait_loop
    wait_loop-Settled [] e = elim (Bool-cases (grantable e.holders)) [
      | inl g ↦ rw g (granted-Settled e)
      | inr b ↦ rw b tt
    ]
    wait_loop-Settled (w ∷ wakes) e = elim (Bool-cases (grantable e.holders)) [
      | inl g ↦ rw g (granted-Settled e)
      | inr b ↦ elim (Bool-cases (deadline && w.expired)) [
        | inl t ↦ rw (b, t) (timeout-Settled e)
        | inr f ↦ elim (Bool-cases (deadline && w.timed_out)) [
          | inl t ↦ rw (b, f, t) (timeout-Settled (w.others e))
          | inr z ↦ rw (b, f, z) (wait_loop-Settled wakes (w.others e))
        ]
      ]
    ]

-- A call of `acquire` that had to wait and returns has left the queue; it then holds the mode that it
-- asked for, or has failed with a time-out.
pub acquire-Settled :
    (e : LockEntry) (txn_id : ℕ) (mode : LockMode) (deadline : Bool)
    (meanwhile : LockEntry → LockEntry) (wakes : List Wake)
    → (try_acquire e txn_id mode).1 ≡ false
    → Settled txn_id mode (acquire e txn_id mode deadline meanwhile wakes)
unfolding acquire
acquire-Settled e txn_id mode deadline meanwhile wakes refused =
    rw refused (wait_loop-Settled txn_id _ deadline mode wakes _)

-- The entry after some wake-ups, as the other threads leave it.
abbrev pub woken : List Wake → LockEntry → LockEntry
woken [] e = e
woken (w ∷ wakes) e = woken wakes (w.others e)

-- No other transaction holds the key in a mode that excludes the one asked for.
abbrev pub Admits : ℕ → LockMode → LockEntry → Type 0
Admits txn_id mode e =
    (h : ℕ × LockMode) → In h e.holders → h.0 ≢ txn_id → is_compatible mode h.1 ≡ true

Admits-is_compatible_with_holders :
    (txn_id : ℕ) (mode : LockMode) (e : LockEntry)
    → Admits txn_id mode e
    → is_compatible_with_holders e.holders txn_id mode ≡ true
unfolding is_compatible_with_holders
Admits-is_compatible_with_holders txn_id mode e admits =
    elim (Bool-cases
      (all (λ (h : ℕ × LockMode). h.0 == txn_id || is_compatible mode h.1) e.holders)) [
        | inl y ↦ y
        | inr n ↦
            let (h, m, f) =
              all-false_witness (λ (h : ℕ × LockMode). h.0 == txn_id || is_compatible mode h.1)
                e.holders n in
            absurd (ground (arith, admits h m, eqb_iff h.0 txn_id))
      ]

module _ (grantable : Map ℕ LockMode → Bool) (txn_id : ℕ) (mode : LockMode) where
  wait_loop-returned :
      (before later : List Wake) (e : LockEntry)
      → grantable (woken before e).holders ≡ true
      → (e' : LockEntry) × (wait_loop grantable false txn_id mode (before ++ later) e
          ≡ returned (ok tt) e')
  unfolding wait_loop
  wait_loop-returned [] [] e h = (remove_from_queue (grant e txn_id mode) txn_id, rw h)
  wait_loop-returned [] (w ∷ later) e h = (remove_from_queue (grant e txn_id mode) txn_id, rw h)
  wait_loop-returned (w ∷ before) later e h = elim (Bool-cases (grantable e.holders)) [
    | inl g ↦ (remove_from_queue (grant e txn_id mode) txn_id, rw g)
    | inr b ↦ let (e', p) = wait_loop-returned before later (w.others e) h in (e', rw b p)
  ]

-- A call of `acquire` without a deadline that has to wait returns as soon as, after some wake-ups, the
-- other holders admit the mode: it then holds the key in this mode and has left the queue.
pub acquire_progress :
    (e : LockEntry) (txn_id : ℕ) (mode : LockMode) (meanwhile : LockEntry → LockEntry)
    (before later : List Wake)
    → (try_acquire e txn_id mode).1 ≡ false
    → Admits txn_id mode
        (woken before (meanwhile (record e { wait_queue = e.wait_queue ++ txn_id ∷ [] })))
    → (e' : LockEntry) × (acquire e txn_id mode false meanwhile (before ++ later)
        ≡ returned (ok tt) e')
      × (get_mode e' txn_id ≡ some mode)
      × (¬ In txn_id e'.wait_queue)
acquire_progress e txn_id mode meanwhile before later refused admits =
    let queued = record e { wait_queue = e.wait_queue ++ txn_id ∷ [] } in
    let grantable : Map ℕ LockMode → Bool =
      λ holders. is_compatible_with_holders holders txn_id mode in
    let (e', p) =
      wait_loop-returned grantable txn_id mode before later (meanwhile queued)
        (Admits-is_compatible_with_holders txn_id mode (woken before (meanwhile queued)) admits) in
    let q : acquire e txn_id mode false meanwhile (before ++ later) ≡ returned (ok tt) e' =
      unfold acquire in rw (refused, (try_acquire-refused e txn_id mode refused).0) p in
    let settled =
      rw q at (acquire-Settled e txn_id mode false meanwhile (before ++ later) refused) in
    (e', q, settled.1, settled.0)

-- A release answers whether the lock was held, takes it from that transaction, and leaves the locks
-- of all others and the queue.
pub release_lem :
    (e : LockEntry) (txn_id j : ℕ)
    → ((release e txn_id).1 ≡ is_held_by e txn_id)
      × (get_mode (release e txn_id).0 j ≡ (if txn_id == j then none else get_mode e j))
      × ((release e txn_id).0.wait_queue ≡ e.wait_queue)
unfolding release is_held_by get_mode
release_lem e txn_id j = (refl, Map.get-remove txn_id j e.holders, refl)
