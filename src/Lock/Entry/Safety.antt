-- ===== src/Lock/Entry/Safety.antt =====
-- The holders of a key never exclude one another.
use crabstash.Base.{
  nat_eq, ℕ, ◌≡◌, ◌≢◌, inl, inr, refl, Bool, true, ◌||◌, ◌&&◌, none, some, List, [], ◌∷◌, arith,
  all, All, Bool-cases, Option-cases, ◌==◌,
}
use crabstash.Base.Map
use crabstash.Base.Map.{Map}
use crabstash.Lock.Mode.{
  LockMode, is_compatible, is_compatible_comm, not-is_compatible-x, can_upgrade_to, mode_eq,
}
use crabstash.Lock.Entry.{
  LockEntry, is_compatible_with_holders, already_held, grant, try_acquire, remove_from_queue, Wake,
  Progress, returned, waiting, wait_loop, acquire, can_upgrade, upgrade, release, get_mode,
}

-- Two transactions hold the key in modes that are compatible.
pub record IsCompatible (e : LockEntry) : Type 0 where
  pub apart :
      (i j : ℕ) (a b : LockMode)
      → i ≢ j
      → Map.get i e.holders ≡ some a
      → Map.get j e.holders ≡ some b
      → is_compatible a b ≡ true

-- What the test of the holders says of another holder.
pub holders-compatible :
    (h : Map ℕ LockMode) (txn_id : ℕ) (mode : LockMode) (j : ℕ) (b : LockMode)
    → is_compatible_with_holders h txn_id mode ≡ true
    → Map.get j h ≡ some b
    → j ≢ txn_id
    → is_compatible mode b ≡ true
unfolding is_compatible_with_holders
holders-compatible h txn_id mode j b t g n =
    let k = Map.get-all (λ (e : ℕ × LockMode). e.0 == txn_id || is_compatible mode e.1) h j b t g in
    ground arith

-- Granting a lock that passed the test keeps the holders compatible.
pub grant-IsCompatible :
    (e : LockEntry) (txn_id : ℕ) (mode : LockMode)
    → is_compatible_with_holders e.holders txn_id mode ≡ true
    → IsCompatible e
    → IsCompatible (grant e txn_id mode)
grant-IsCompatible e txn_id mode t inv = record {
  apart = λ i j a b ne gi gj. ground (
    arith,
    Map.get-insert txn_id i mode e.holders,
    Map.get-insert txn_id j mode e.holders,
    inv.apart i j a b ne,
    holders-compatible e.holders txn_id mode i a t,
    holders-compatible e.holders txn_id mode j b t,
    is_compatible_comm mode a,
  );
}

-- An attempt keeps the holders compatible, whatever it answers.
pub try_acquire-IsCompatible :
    (e : LockEntry) (txn_id : ℕ) (mode : LockMode)
    → IsCompatible e
    → IsCompatible (try_acquire e txn_id mode).0
unfolding try_acquire
try_acquire-IsCompatible e txn_id mode inv =
    elim (Bool-cases (already_held (Map.get txn_id e.holders) mode)) [
      | inl held ↦ rw held inv
      | inr new ↦ elim (Bool-cases (is_compatible_with_holders e.holders txn_id mode)) [
        | inl fits ↦ rw (new, fits) (grant-IsCompatible e txn_id mode fits inv)
        | inr clash ↦ rw (new, clash) inv
      ]
    ]

pub release-IsCompatible :
    (e : LockEntry) (txn_id : ℕ) → IsCompatible e → IsCompatible (release e txn_id).0
unfolding release
release-IsCompatible e txn_id inv = record {
  apart = λ i j a b ne gi gj. ground (
    arith,
    Map.get-remove txn_id i e.holders,
    Map.get-remove txn_id j e.holders,
    inv.apart i j a b ne,
  );
}

-- The entry that a call leaves, whether it has returned or still waits.
abbrev pub after : Progress → LockEntry
after (returned r e) = e
after (waiting e) = e

-- What the other threads do keeps the holders compatible.
abbrev pub Keeps : (LockEntry → LockEntry) → Type 0
Keeps f = (e : LockEntry) → IsCompatible e → IsCompatible (f e)

queue-IsCompatible :
    (e : LockEntry) (q : List ℕ) → IsCompatible e → IsCompatible (record e { wait_queue = q })
queue-IsCompatible e q inv = record { apart = inv.apart }

can_upgrade-is_compatible_with_holders :
    (txn_id : ℕ) (mode : LockMode) (h : Map ℕ LockMode)
    → can_upgrade txn_id mode h ≡ is_compatible_with_holders h txn_id mode
unfolding can_upgrade is_compatible_with_holders all
can_upgrade-is_compatible_with_holders txn_id mode [] = refl
can_upgrade-is_compatible_with_holders txn_id mode ((i, a) ∷ h) =
    ground (arith, is_compatible_comm a mode, can_upgrade-is_compatible_with_holders txn_id mode h)

module _ (grantable : Map ℕ LockMode → Bool) (txn_id : ℕ) (mode : LockMode)
    (sound : (h : Map ℕ LockMode)
      → grantable h ≡ true
      → is_compatible_with_holders h txn_id mode ≡ true)
    (deadline : Bool) where
  wait_loop-IsCompatible :
      (wakes : List Wake) (e : LockEntry)
      → All (λ (w : Wake). Keeps w.others) wakes
      → IsCompatible e
      → IsCompatible (after (wait_loop grantable deadline txn_id mode wakes e))
  unfolding wait_loop remove_from_queue
  wait_loop-IsCompatible [] e k inv = elim (Bool-cases (grantable e.holders)) [
    | inl g ↦
        rw g (queue-IsCompatible _ _ (grant-IsCompatible e txn_id mode (sound e.holders g) inv))
    | inr b ↦ rw b inv
  ]
  wait_loop-IsCompatible (w ∷ wakes) e k inv = elim (Bool-cases (grantable e.holders)) [
    | inl g ↦
        rw g (queue-IsCompatible _ _ (grant-IsCompatible e txn_id mode (sound e.holders g) inv))
    | inr b ↦ elim (Bool-cases (deadline && w.expired)) [
      | inl x ↦ rw (b, x) (queue-IsCompatible _ _ inv)
      | inr y ↦ elim (Bool-cases (deadline && w.timed_out)) [
        | inl x ↦ rw (b, y, x) (queue-IsCompatible _ _ (k.0 e inv))
        | inr z ↦ rw (b, y, z) (wait_loop-IsCompatible wakes (w.others e) k.1 (k.0 e inv))
      ]
    ]
  ]

-- `acquire` keeps the holders compatible, whether it is granted at once, after a wait, times out or
-- still waits, if what the other threads do meanwhile keeps them compatible.
pub acquire-IsCompatible :
    (e : LockEntry) (txn_id : ℕ) (mode : LockMode) (deadline : Bool)
    (meanwhile : LockEntry → LockEntry) (wakes : List Wake)
    → Keeps meanwhile
    → All (λ (w : Wake). Keeps w.others) wakes
    → IsCompatible e
    → IsCompatible (after (acquire e txn_id mode deadline meanwhile wakes))
unfolding acquire
acquire-IsCompatible e txn_id mode deadline meanwhile wakes km kw inv =
    let step = try_acquire-IsCompatible e txn_id mode inv in
    elim (Bool-cases (try_acquire e txn_id mode).1) [
      | inl g ↦ rw g step
      | inr b ↦ rw b (
          wait_loop-IsCompatible (λ h. is_compatible_with_holders h txn_id mode) txn_id mode
            (λ h t. t) deadline wakes _ kw (km _ (queue-IsCompatible _ _ step)))
    ]

-- `upgrade` keeps the holders compatible, whatever it answers and also while it waits, if what the
-- other threads do meanwhile keeps them compatible.
pub upgrade-IsCompatible :
    (e : LockEntry) (txn_id : ℕ) (mode : LockMode) (deadline : Bool)
    (meanwhile : LockEntry → LockEntry) (wakes : List Wake)
    → Keeps meanwhile
    → All (λ (w : Wake). Keeps w.others) wakes
    → IsCompatible e
    → IsCompatible (after (upgrade e txn_id mode deadline meanwhile wakes))
unfolding upgrade
upgrade-IsCompatible e txn_id mode deadline meanwhile wakes km kw inv =
    elim (Option-cases (Map.get txn_id e.holders)) [
      | inl absent ↦ rw absent inv
      | inr (a, held) ↦ elim (Bool-cases (a == mode)) [
        | inl same ↦ rw (held, same) inv
        | inr other ↦ elim (Bool-cases (can_upgrade_to a mode)) [
          | inr refused ↦ rw (held, other, refused) inv
          | inl up ↦
              rw (held, other, up)
                (wait_loop-IsCompatible (can_upgrade txn_id mode) txn_id mode
                  (λ h t. rw can_upgrade-is_compatible_with_holders at t) deadline wakes _ kw
                  (km _ (queue-IsCompatible _ _ inv)))
        ]
      ]
    ]

-- While the holders of a key are compatible and one transaction holds it in mode X, no other
-- transaction holds it in any mode.
pub exclusive_holder_alone :
    (e : LockEntry) (i j : ℕ)
    → IsCompatible e
    → get_mode e i ≡ some LockMode.x
    → i ≢ j
    → get_mode e j ≡ none
unfolding get_mode
exclusive_holder_alone e i j inv h ne = elim (Option-cases (Map.get j e.holders)) [
  | inl absent ↦ absent
  | inr (b, held) ↦ cc (inv.apart i j LockMode.x b ne h held, not-is_compatible-x b)
]
