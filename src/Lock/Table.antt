-- ===== src/Lock/Table.antt =====
-- crabstash-lock/src/lock_table.rs: the table of the locks on keys and on ranges. A call holds no lock
-- of the table while it waits for a key, so what the other threads do to the table in the meantime is
-- a parameter of the call.
pub mod Ranges
pub mod Check
pub mod Release
pub mod Safety
pub mod Calls
use crabstash.Base.{
  nat_eq, ℕ, Bytes, bytes_eq, Bound, key_in_range, Bool, true, false, not, ◌&&◌, ◌||◌, any, Option,
  none, some, List, [], ◌∷◌, ◌==◌, if◌then◌else◌,
}
use crabstash.Base.Map
use crabstash.Base.Map.{Map}
use crabstash.Lock.Mode.{LockMode, is_compatible}
use crabstash.Lock.Error.{LockResult, ok, err, range_conflict, range_locks_disabled, not_held}
use crabstash.Lock.Entry
use crabstash.Lock.Entry.{
  LockEntry, Wake, Progress, returned, waiting, try_acquire, acquire, upgrade, release,
}
use crabstash.Lock.Range
use crabstash.Lock.Range.{RangeLockEntry, IntervalTree, find_overlapping, find_containing_key}
use crabstash.Lock.Escalation
use crabstash.Lock.Escalation.{EscalationConfig, EscalationState}
use crabstash.Lock.WaitGraph
use crabstash.Lock.WaitGraph.{WaitForGraph}

pub record LockConfig : Type 0 where
  pub lock_timeout_ms : ℕ
  pub deadlock_check_interval_ms : ℕ
  pub enable_range_locks : Bool
  pub escalation : EscalationConfig

-- `LockConfig::default`
abbrev pub default_config : LockConfig
default_config = record {
  lock_timeout_ms = 10000;
  deadlock_check_interval_ms = 10;
  enable_range_locks = true;
  escalation = Escalation.default_config;
}

pub record LockTable : Type 0 where
  pub key_locks : Map Bytes LockEntry
  pub range_locks : IntervalTree
  pub waiter_graph : WaitForGraph
  pub escalation_state : Map ℕ EscalationState
  pub config : LockConfig

abbrev pub new : LockConfig → LockTable
new config = record {
  key_locks = [];
  range_locks = Range.new;
  waiter_graph = WaitGraph.new;
  escalation_state = [];
  config = config;
}

unfoldable pub register_txn : LockTable → ℕ → ℕ → ℕ → LockTable
register_txn table txn_id start_ts priority = record table {
  waiter_graph = WaitGraph.register_txn table.waiter_graph txn_id start_ts priority;
  escalation_state = Map.insert txn_id Escalation.new table.escalation_state;
}

unfoldable pub unregister_txn : LockTable → ℕ → LockTable
unregister_txn table txn_id = record table {
  waiter_graph = WaitGraph.unregister_txn table.waiter_graph txn_id;
  escalation_state = Map.remove txn_id table.escalation_state;
}

-- `range_entry.txn_id != txn_id && !mode.is_compatible(&range_entry.mode)`
abbrev pub clashes : ℕ → LockMode → ℕ → LockMode → Bool
clashes txn_id mode holder_id held_mode =
    not (holder_id == txn_id) && not (is_compatible mode held_mode)

abbrev pub any_range_clashes : ℕ → LockMode → List RangeLockEntry → Bool
any_range_clashes txn_id mode = any (λ (r : RangeLockEntry). clashes txn_id mode r.txn_id r.mode)

abbrev pub any_holder_clashes : ℕ → LockMode → Map ℕ LockMode → Bool
any_holder_clashes txn_id mode = any (λ (h : ℕ × LockMode). clashes txn_id mode h.0 h.1)

unfoldable pub check_range_conflict : LockTable → ℕ → Bytes → LockMode → Bool
check_range_conflict table txn_id key mode =
    if not table.config.enable_range_locks
    then false
    else any_range_clashes txn_id mode (find_containing_key table.range_locks key)

abbrev pub held_conflict : Option LockEntry → ℕ → LockMode → Bool
held_conflict none txn_id mode = false
held_conflict (some entry) txn_id mode = any_holder_clashes txn_id mode (Entry.get_holders entry)

unfoldable pub check_conflict : LockTable → ℕ → Bytes → LockMode → Bool
unfolding check_range_conflict
check_conflict table txn_id key mode =
    held_conflict (Map.get key table.key_locks) txn_id mode
    || check_range_conflict table txn_id key mode

-- The loop of `lock_range` over the locks on keys.
unfoldable pub key_clashes : ℕ → LockMode → Bound → Bound → Bytes × LockEntry → Bool
key_clashes txn_id mode start end (key, entry) =
    key_in_range entry.key start end && any_holder_clashes txn_id mode (Entry.get_holders entry)

unfoldable pub lock_range :
    LockTable → ℕ → Bound → Bound → LockMode → LockTable × LockResult (Unit {0})
unfolding key_clashes
lock_range table txn_id start end mode =
    if not table.config.enable_range_locks
    then (table, err range_locks_disabled)
    else if any_range_clashes txn_id mode (find_overlapping table.range_locks start end)
    then (table, err range_conflict)
    else if any (key_clashes txn_id mode start end) table.key_locks
    then (table, err range_conflict)
    else (
      record table {
        range_locks =
            Range.insert table.range_locks
              (record { txn_id = txn_id; mode = mode; start = start; end = end });
      },
      ok tt,
    )

-- The range lock that the escalation takes; its result is dropped.
abbrev pub lock_bounding_range : Option (Bound × Bound) → LockTable → ℕ → LockTable
lock_bounding_range none table txn_id = table
lock_bounding_range (some (start, end)) table txn_id =
    (lock_range table txn_id start end LockMode.x).0

unfoldable pub escalate_if_needed : Option EscalationState → LockTable → ℕ → Bytes → LockTable
escalate_if_needed none table txn_id key = table
escalate_if_needed (some state) table txn_id key =
    let recorded = Escalation.record_key_lock state key in
    let action =
      Escalation.check_escalation (Escalation.get_lock_count recorded) table.config.escalation in
    let (state', must_lock) = Escalation.handle_escalation_action action recorded in
    let table' = record table {
      escalation_state = Map.insert txn_id state' table.escalation_state;
    } in
    if must_lock
    then lock_bounding_range (Escalation.compute_bounding_range state') table' txn_id
    else table'

unfoldable pub record_lock_acquired : LockTable → ℕ → Bytes → LockTable
unfolding escalate_if_needed
record_lock_acquired table txn_id key =
    let table' = escalate_if_needed (Map.get txn_id table.escalation_state) table txn_id key in
    record table' { waiter_graph = WaitGraph.increment_lock_count table'.waiter_graph txn_id }

-- A call that returns, or one that still waits when the listed wake-ups are over.
pub data Outcome : Type 0 where
  done : LockResult (Unit {0}) → LockTable → Outcome
  blocked : LockTable → Outcome

-- What the other threads do while a call of `lock_key` or `upgrade_lock` is under way: to the entry of
-- the key before its holders are read, before it is queued, between the queue and the loop and at each wake-up, and to the
-- rest of the table.
pub record Others : Type 0 where
  pub before : LockEntry → LockEntry
  pub between : LockEntry → LockEntry
  pub meanwhile : LockEntry → LockEntry
  pub wakes : List Wake
  pub elsewhere : LockTable → LockTable

abbrev pub put_entry : LockTable → Bytes → LockEntry → LockTable
put_entry table key entry = record table { key_locks = Map.insert key entry table.key_locks }

abbrev pub add_wait_edges : WaitForGraph → ℕ → Map ℕ LockMode → WaitForGraph
add_wait_edges g txn_id [] = g
add_wait_edges g txn_id ((holder_id, held_mode) ∷ holders) =
    add_wait_edges (WaitGraph.add_wait_edge g txn_id holder_id) txn_id holders

abbrev pub remove_wait_edges : WaitForGraph → ℕ → Map ℕ LockMode → WaitForGraph
remove_wait_edges g txn_id [] = g
remove_wait_edges g txn_id ((holder_id, held_mode) ∷ holders) =
    remove_wait_edges (WaitGraph.remove_wait_edge g txn_id holder_id) txn_id holders

abbrev pub without_edges : LockTable → ℕ → Map ℕ LockMode → LockTable
without_edges table txn_id holders = record table {
  waiter_graph = remove_wait_edges table.waiter_graph txn_id holders;
}

unfoldable pub after_wait : Progress → LockTable → ℕ → Bytes → Map ℕ LockMode → Outcome
after_wait (returned (ok u) entry) table txn_id key holders =
    done (ok tt)
      (record_lock_acquired (without_edges (put_entry table key entry) txn_id holders) txn_id key)
after_wait (returned (err e) entry) table txn_id key holders =
    done (err e) (without_edges (put_entry table key entry) txn_id holders)
after_wait (waiting entry) table txn_id key holders = blocked (put_entry table key entry)

unfoldable pub wait_for_key : LockTable → LockEntry → ℕ → Bytes → LockMode → Bool → Others → Outcome
unfolding after_wait
wait_for_key table entry txn_id key mode deadline others =
    let read = others.before entry in
    let holders = Entry.get_holders read in
    let table' = record table { waiter_graph = add_wait_edges table.waiter_graph txn_id holders } in
    after_wait (acquire (others.between read) txn_id mode deadline others.meanwhile others.wakes)
      (others.elsewhere table') txn_id key holders

-- `entry(key).or_insert_with(…)`
abbrev pub or_new : Option LockEntry → Bytes → LockEntry
or_new none key = Entry.new key
or_new (some entry) key = entry

unfoldable pub lock_entry : LockTable → LockEntry → ℕ → Bytes → LockMode → Bool → Others → Outcome
unfolding wait_for_key
lock_entry table entry txn_id key mode deadline others =
    let (entry', granted) = try_acquire entry txn_id mode in
    if granted
    then done (ok tt) (record_lock_acquired (put_entry table key entry') txn_id key)
    else wait_for_key (put_entry table key entry') entry' txn_id key mode deadline others

unfoldable pub lock_key : LockTable → ℕ → Bytes → LockMode → Bool → Others → Outcome
unfolding check_range_conflict lock_entry
lock_key table txn_id key mode deadline others =
    if check_range_conflict table txn_id key mode
    then done (err range_conflict) table
    else lock_entry table (or_new (Map.get key table.key_locks) key) txn_id key mode deadline others

abbrev pub after_upgrade : Progress → LockTable → Bytes → Outcome
after_upgrade (returned r entry) table key = done r (put_entry table key entry)
after_upgrade (waiting entry) table key = blocked (put_entry table key entry)

unfoldable pub upgrade_entry : Option LockEntry → LockTable → ℕ → Bytes → Bool → Others → Outcome
upgrade_entry none table txn_id key deadline others = done (err not_held) table
upgrade_entry (some entry) table txn_id key deadline others =
    after_upgrade
      (upgrade (others.before entry) txn_id LockMode.x deadline others.meanwhile others.wakes)
      (others.elsewhere table) key

unfoldable pub upgrade_lock : LockTable → ℕ → Bytes → Bool → Others → Outcome
unfolding upgrade_entry
upgrade_lock table txn_id key deadline others =
    upgrade_entry (Map.get key table.key_locks) table txn_id key deadline others

abbrev pub release_each : Map Bytes LockEntry → ℕ → Map Bytes LockEntry
release_each [] txn_id = []
release_each ((key, entry) ∷ locks) txn_id =
    (key, (release entry txn_id).0) ∷ release_each locks txn_id

unfoldable pub release_all : LockTable → ℕ → LockTable
unfolding unregister_txn
release_all table txn_id =
    unregister_txn
      (record table {
        key_locks = release_each table.key_locks txn_id;
        range_locks = Range.remove_by_txn table.range_locks txn_id;
        waiter_graph = WaitGraph.remove_all_waits table.waiter_graph txn_id;
      })
      txn_id
