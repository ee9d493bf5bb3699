-- ===== src/Lock/Entry.antt =====
-- crabstash-lock/src/lock_entry.rs: the holders of one key and the transactions that wait for it.
-- A mutex is held for each of the steps below, so a step is one function of the entry. The condition
-- variable is not part of the state: a waiting call goes through a list of wake-ups, and each wake-up
-- says what the other threads did to the entry in the meantime.
pub mod Safety
pub mod Waiting
use crabstash.Base.{
  ℕ, Bytes, Bool, true, false, not, ◌&&◌, ◌||◌, Option, none, some, List, [], ◌∷◌, ◌++◌, all,
  retain, length, if◌then◌else◌, nat_eq, ◌==◌,
}
use crabstash.Base.Map
use crabstash.Base.Map.{Map}
use crabstash.Lock.Mode.{LockMode, mode_eq, is_compatible, can_upgrade_to}
use crabstash.Lock.Error.{LockResult, ok, err, timeout, not_held, invalid_upgrade}

pub record LockEntry : Type 0 where
  pub key : Bytes
  pub holders : Map ℕ LockMode
  pub wait_queue : List ℕ

abbrev pub new : Bytes → LockEntry
new key = record { key = key; holders = []; wait_queue = [] }

unfoldable pub is_compatible_with_holders : Map ℕ LockMode → ℕ → LockMode → Bool
is_compatible_with_holders holders txn_id mode =
    all (λ (h : ℕ × LockMode). h.0 == txn_id || is_compatible mode h.1) holders

-- The first test of `try_acquire`.
unfoldable pub already_held : Option LockMode → LockMode → Bool
already_held none mode = false
already_held (some held_mode) mode = held_mode == mode || not (can_upgrade_to held_mode mode)

abbrev pub grant : LockEntry → ℕ → LockMode → LockEntry
grant e txn_id mode = record e { holders = Map.insert txn_id mode e.holders }

unfoldable pub try_acquire : LockEntry → ℕ → LockMode → LockEntry × Bool
try_acquire e txn_id mode =
    if already_held (Map.get txn_id e.holders) mode
    then (e, true)
    else if is_compatible_with_holders e.holders txn_id mode
    then (grant e txn_id mode, true)
    else (e, false)

unfoldable pub remove_from_queue : LockEntry → ℕ → LockEntry
remove_from_queue e txn_id = record e {
  wait_queue = retain (λ id. not (id == txn_id)) e.wait_queue;
}

-- One round of a waiting loop: whether the deadline has passed when it is looked at, what the other
-- threads do to the entry during the wait, and whether the wait ends by its time-out.
pub record Wake : Type 0 where
  pub expired : Bool
  pub others : LockEntry → LockEntry
  pub timed_out : Bool

-- A call that returns, or one that still waits when the listed wake-ups are over.
pub data Progress : Type 0 where
  returned : LockResult (Unit {0}) → LockEntry → Progress
  waiting : LockEntry → Progress

-- The loop of `acquire` and of `upgrade`, which differ in the test of the holders.
unfoldable pub wait_loop :
    (Map ℕ LockMode → Bool) → Bool → ℕ → LockMode → List Wake → LockEntry → Progress
wait_loop grantable deadline txn_id mode [] e =
    if grantable e.holders
    then returned (ok tt) (remove_from_queue (grant e txn_id mode) txn_id)
    else waiting e
wait_loop grantable deadline txn_id mode (w ∷ wakes) e =
    let rest = wait_loop grantable deadline txn_id mode wakes (w.others e) in
    if grantable e.holders
    then returned (ok tt) (remove_from_queue (grant e txn_id mode) txn_id)
    else if deadline && w.expired
    then returned (err timeout) (remove_from_queue e txn_id)
    else if deadline && w.timed_out
    then returned (err timeout) (remove_from_queue (w.others e) txn_id)
    else rest

-- `meanwhile` is what the other threads do between the first attempt and the loop.
unfoldable pub acquire :
    LockEntry → ℕ → LockMode → Bool → (LockEntry → LockEntry) → List Wake → Progress
acquire e txn_id mode deadline meanwhile wakes =
    let (e', granted) = try_acquire e txn_id mode in
    if granted
    then returned (ok tt) e'
    else wait_loop (λ holders. is_compatible_with_holders holders txn_id mode) deadline txn_id mode
        wakes (meanwhile (record e' { wait_queue = e'.wait_queue ++ txn_id ∷ [] }))

unfoldable pub can_upgrade : ℕ → LockMode → Map ℕ LockMode → Bool
can_upgrade txn_id target_mode =
    all (λ (h : ℕ × LockMode). h.0 == txn_id || is_compatible h.1 target_mode)

-- `upgrade`, once the mode that the transaction holds has been looked up.
unfoldable pub upgrade_from :
    Option LockMode
    → LockEntry
    → ℕ
    → LockMode
    → Bool
    → (LockEntry → LockEntry)
    → List Wake
    → Progress
upgrade_from none e txn_id target_mode deadline meanwhile wakes = returned (err not_held) e
upgrade_from (some current_mode) e txn_id target_mode deadline meanwhile wakes =
    if current_mode == target_mode
    then returned (ok tt) e
    else if not (can_upgrade_to current_mode target_mode)
    then returned (err invalid_upgrade) e
    else wait_loop (can_upgrade txn_id target_mode) deadline txn_id target_mode wakes
        (meanwhile (record e { wait_queue = txn_id ∷ e.wait_queue }))

unfoldable pub upgrade :
    LockEntry → ℕ → LockMode → Bool → (LockEntry → LockEntry) → List Wake → Progress
unfolding upgrade_from
upgrade e txn_id target_mode deadline meanwhile wakes =
    upgrade_from (Map.get txn_id e.holders) e txn_id target_mode deadline meanwhile wakes

unfoldable pub release : LockEntry → ℕ → LockEntry × Bool
release e txn_id =
    (record e { holders = Map.remove txn_id e.holders }, Map.contains_key txn_id e.holders)

unfoldable pub is_held_by : LockEntry → ℕ → Bool
is_held_by e txn_id = Map.contains_key txn_id e.holders

unfoldable pub get_mode : LockEntry → ℕ → Option LockMode
get_mode e txn_id = Map.get txn_id e.holders

unfoldable pub holder_count : LockEntry → ℕ
holder_count e = length e.holders

unfoldable pub waiter_count : LockEntry → ℕ
waiter_count e = length e.wait_queue

abbrev pub get_holders : LockEntry → List (ℕ × LockMode)
get_holders e = e.holders

abbrev pub get_waiters : LockEntry → List ℕ
get_waiters e = e.wait_queue
