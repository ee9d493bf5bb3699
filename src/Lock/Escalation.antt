-- ===== src/Lock/Escalation.antt =====
-- crabstash-lock/src/escalation.rs: when a transaction's key locks become one range lock.
pub mod Range
pub mod Once
use crabstash.Base.{
  ℕ, ◌+◌, ◌%◌, ◌^◌, Bytes, bytes_cmp, bytes_lt, bytes_le, Bound, included, Bool, true, false, not,
  Option, none, some, List, [], ◌∷◌, ◌++◌, if◌then◌else◌, leb,
}

pub record EscalationConfig : Type 0 where
  pub warning_threshold : ℕ
  pub auto_escalate_threshold : ℕ
  pub emergency_threshold : ℕ

-- `EscalationConfig::default`
abbrev pub default_config : EscalationConfig
default_config = record {
  warning_threshold = 1000;
  auto_escalate_threshold = 5000;
  emergency_threshold = 10000;
}

pub record EscalationState : Type 0 where
  pub key_lock_count : ℕ
  pub locked_keys : List Bytes
  pub escalated : Bool
  pub warning_logged : Bool

abbrev pub new : EscalationState
new = record { key_lock_count = 0; locked_keys = []; escalated = false; warning_logged = false }

-- The counter is a machine word.
unfoldable pub record_key_lock : EscalationState → Bytes → EscalationState
record_key_lock state key = record state {
  key_lock_count = (state.key_lock_count + 1) % 2 ^ 64;
  locked_keys = state.locked_keys ++ key ∷ [];
}

abbrev pub get_lock_count : EscalationState → ℕ
get_lock_count state = state.key_lock_count

abbrev pub is_escalated : EscalationState → Bool
is_escalated state = state.escalated

-- `swap` answers the old flag.
unfoldable pub mark_escalated : EscalationState → EscalationState × Bool
mark_escalated state = (record state { escalated = true }, not state.escalated)

-- `iter().min()` and `iter().max()` of a list that is not empty.
unfoldable pub min_key : Bytes → List Bytes → Bytes
min_key k [] = k
min_key k (j ∷ keys) = min_key (if bytes_lt j k then j else k) keys

unfoldable pub max_key : Bytes → List Bytes → Bytes
max_key k [] = k
max_key k (j ∷ keys) = max_key (if bytes_le k j then j else k) keys

unfoldable pub bounding_range : List Bytes → Option (Bound × Bound)
bounding_range [] = none
bounding_range (k ∷ keys) = some (included (min_key k keys), included (max_key k keys))

unfoldable pub compute_bounding_range : EscalationState → Option (Bound × Bound)
unfolding bounding_range
compute_bounding_range state = bounding_range state.locked_keys

unfoldable pub clear : EscalationState → EscalationState
clear state = new

pub data EscalationAction : Type 0 where
  nothing warn escalate force_escalate : EscalationAction

unfoldable pub check_escalation : ℕ → EscalationConfig → EscalationAction
check_escalation count config =
    if leb config.emergency_threshold count
    then force_escalate
    else if leb config.auto_escalate_threshold count
    then escalate
    else if leb config.warning_threshold count
    then warn
    else nothing

-- The answer says whether the caller has to take the range lock. What is logged is left out.
unfoldable pub handle_escalation_action :
    EscalationAction → EscalationState → EscalationState × Bool
unfolding mark_escalated
handle_escalation_action nothing state = (state, false)
handle_escalation_action warn state = (record state { warning_logged = true }, false)
handle_escalation_action escalate state = mark_escalated state
handle_escalation_action force_escalate state = mark_escalated state
