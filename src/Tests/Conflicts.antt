-- ===== src/Tests/Conflicts.antt =====
-- The wait-for graph, escalation and the detection of conflicts, on small states.
use crabstash.Base.{
  List, nat_eq, bytes_eq, ℕ, ◌%◌, ◌^◌, ◌<◌, ◌≤◌, ◌≡◌, ◌≢◌, ◌↔◌, inl, inr, refl, true, false, some,
  [], ◌∷◌, arith, included, key_in_range, In, Bytes,
}
use crabstash.Base.Map
use crabstash.Base.Set
use crabstash.Base.Map.{Map}
use crabstash.Lock.WaitGraph
use crabstash.Lock.WaitGraph.{WaitForGraph, TxnInfo, select_victims}
use crabstash.Lock.WaitGraph.Edges.{
  GraphOp, apply_all, expected_all, waits_for, waits_for-apply_all,
}
use crabstash.Lock.WaitGraph.Victim.{IsBetter, select_victims-IsBetter}
use crabstash.Lock.Escalation
use crabstash.Lock.Escalation.{
  EscalationConfig, EscalationState, default_config, compute_bounding_range, check_escalation,
}
use crabstash.Lock.Escalation.Range.{compute_bounding_range-covers}
use crabstash.Lock.Escalation.Once.{escalations, escalations-le-one}
use crabstash.Lock.Ssi.Bloom
use crabstash.Lock.Ssi.Bloom.{insert_all, may_contain, new-HasSize, may_contain-insert_all}
use crabstash.Lock.Ssi.RwSet
use crabstash.Lock.Ssi.RwSet.{ReadWriteSet}
use crabstash.Lock.Ssi.Manager
use crabstash.Lock.Ssi.Manager.{SsiManager}
use crabstash.Lock.Ssi.Validate
use crabstash.Lock.Ssi.Validate.{
  start_or, SsiConflict, ok, err, write_skew, validate_and_commit_with_keys,
}
use crabstash.Lock.Ssi.Accept.{IsSerializable, validate-ok_iff}
use crabstash.Lock.Ssi.History.{calls, stale_reader_fails}
use crabstash.Lock.Ssi.Writers.{SsiOp, FreshRun, step, writers, active_writers-count}

waits_for-apply_all_example :
    waits_for
      (apply_all WaitGraph.new (GraphOp.add 1 2 ∷ GraphOp.add 2 1 ∷ GraphOp.unregister 1 ∷ []))
      2
      1
    ≡ expected_all
        (waits_for WaitGraph.new)
        (GraphOp.add 1 2 ∷ GraphOp.add 2 1 ∷ GraphOp.unregister 1 ∷ [])
        2
        1
waits_for-apply_all_example =
    waits_for-apply_all WaitGraph.new
      (GraphOp.add 1 2 ∷ GraphOp.add 2 1 ∷ GraphOp.unregister 1 ∷ []) 2 1

abbrev older_info : TxnInfo
older_info = record { start_ts = 10; lock_count = 3; priority = 0 }

abbrev younger_info : TxnInfo
younger_info = record { start_ts = 20; lock_count = 1; priority = 0 }

-- Transactions 1 and 2 wait for each other; 2 started later.
abbrev deadlocked : WaitForGraph
deadlocked = record {
  edges = (1, 2 ∷ []) ∷ (2, 1 ∷ []) ∷ [];
  txn_info = (1, older_info) ∷ (2, younger_info) ∷ [];
}

older-found : Map.get 1 deadlocked.txn_info ≡ some older_info
unfolding Map.get
older-found = refl

younger_is_the_victim : select_victims deadlocked 1 (2 ∷ []) ≡ 2 ∷ []
unfolding select_victims WaitGraph.sort_by WaitGraph.insert_by WaitGraph.candidates
    WaitGraph.victim_order Map.get
younger_is_the_victim = refl

select_victims-IsBetter_example :
    (v : ℕ) × (w : TxnInfo) × (select_victims deadlocked 1 (2 ∷ []) ≡ v ∷ [])
    × In v (1 ∷ 2 ∷ [])
    × (Map.get v deadlocked.txn_info ≡ some w)
    × IsBetter w older_info
select_victims-IsBetter_example =
    select_victims-IsBetter deadlocked 1 (2 ∷ []) 1 older_info (inl refl) older-found

abbrev three_keys : EscalationState
three_keys = record {
  key_lock_count = 3;
  locked_keys = (5 ∷ []) ∷ (2 ∷ 9 ∷ []) ∷ (7 ∷ []) ∷ [];
  escalated = false;
  warning_logged = false;
}

compute_bounding_range-covers_example :
    (lo : Bytes) × (hi : Bytes) × (compute_bounding_range three_keys
      ≡ some (included lo, included hi))
    × (key_in_range (5 ∷ []) (included lo) (included hi) ≡ true)
    × In lo three_keys.locked_keys
    × In hi three_keys.locked_keys
compute_bounding_range-covers_example = compute_bounding_range-covers three_keys (5 ∷ []) (inl refl)

abbrev small_config : EscalationConfig
small_config = record {
  warning_threshold = 1;
  auto_escalate_threshold = 2;
  emergency_threshold = 3;
}

escalations-le-one_example :
    escalations small_config Escalation.new ((5 ∷ []) ∷ (2 ∷ []) ∷ (7 ∷ []) ∷ []) ≤ 1
escalations-le-one_example =
    escalations-le-one small_config Escalation.new ((5 ∷ []) ∷ (2 ∷ []) ∷ (7 ∷ []) ∷ [])

may_contain-insert_all_example : may_contain (insert_all Bloom.new (12345 ∷ 678 ∷ [])) 678 ≡ true
may_contain-insert_all_example =
    may_contain-insert_all Bloom.new (12345 ∷ 678 ∷ []) 678 new-HasSize (inr (inl refl))

-- The hash of a key is its first byte.
abbrev first_byte : Bytes → ℕ
first_byte [] = 0
first_byte (b ∷ bs) = b

-- Transaction 1 starts at 10 and writes the key 5; transaction 2 starts at 11.
abbrev writer_and_reader : SsiManager
writer_and_reader = record Manager.new {
  active_txns = (1, record RwSet.new { write_keys = 5 ∷ [] }) ∷ (2, RwSet.new) ∷ [];
  active_start_ts = (1, 10) ∷ (2, 11) ∷ [];
  active_writers = 1;
}

abbrev writer_set : ReadWriteSet
writer_set = record RwSet.new { write_keys = 5 ∷ [] }

abbrev reader_set : ReadWriteSet
reader_set = record RwSet.new { read_keys = 5 ∷ [] }

writer-active : Map.get 1 writer_and_reader.active_txns ≡ some writer_set
unfolding Map.get
writer-active = refl

validate-ok_iff_example :
    ((validate_and_commit_with_keys writer_and_reader 1 10 20 []).1 ≡ ok)
    ↔ IsSerializable writer_and_reader writer_set 10 20
validate-ok_iff_example = validate-ok_iff writer_and_reader 1 10 20 [] writer_set writer-active

abbrev after_write : SsiManager
after_write = (validate_and_commit_with_keys writer_and_reader 1 10 20 []).0

write-committed : validate_and_commit_with_keys writer_and_reader 1 10 20 [] ≡ (after_write, ok)
unfolding validate_and_commit_with_keys Validate.validate_from Map.get Validate.inbound
    Validate.scan_committed Validate.decide Validate.verdict Validate.finish
    RwSet.has_dangerous_structure
write-committed = refl

-- Transaction 2 reads the key after the commit, and the watermark advances to the commit.
abbrev read_and_advance : List SsiOp
read_and_advance = SsiOp.read 2 (5 ∷ []) ∷ SsiOp.watermark 20 ∷ []

reader-active :
    Map.get 2 (calls first_byte after_write read_and_advance).active_txns ≡ some reader_set
unfolding validate_and_commit_with_keys Validate.validate_from Map.get Map.insert Map.remove
    Validate.inbound Validate.scan_committed Validate.decide Validate.verdict Validate.finish
    RwSet.has_dangerous_structure Validate.install Manager.update_safe_snapshot Manager.record_read
    RwSet.record_read Manager.advance_watermark Set.insert
reader-active = refl

writer-start : start_or (Map.get 1 writer_and_reader.active_start_ts) 10 < 21
unfolding Map.get
writer-start = omega arith

stale_reader_fails_example :
    (validate_and_commit_with_keys (calls first_byte after_write read_and_advance) 2 11 21 []).1
    ≢ ok
stale_reader_fails_example =
    stale_reader_fails first_byte writer_and_reader after_write 1 10 20 [] writer_set 5
      read_and_advance 2 11 21 [] reader_set writer-active write-committed (inl refl)
      (tt, (omega arith, tt)) reader-active (inl refl) (omega arith) writer-start

-- A new manager, after a transaction has begun and written a key.
abbrev began : SsiManager
began = step first_byte Manager.new (SsiOp.begin 1 10)

abbrev wrote : SsiManager
wrote = step first_byte began (SsiOp.write 1 (5 ∷ []))

began-run : FreshRun first_byte Manager.new wrote
unfolding Map.get
began-run =
    FreshRun.after (SsiOp.write 1 (5 ∷ [])) (FreshRun.after (SsiOp.begin 1 10) FreshRun.start refl)
      tt

active_writers-count_example : wrote.active_writers ≡ writers wrote.active_txns % 2 ^ 64
active_writers-count_example = active_writers-count first_byte began-run
