-- ===== src/Lock/Escalation/Once.antt =====
-- A transaction escalates at most once.
use crabstash.Base.{
  ℕ, ◌+◌, ◌≤◌, ◌≡◌, refl, Bytes, Bool, true, false, List, [], ◌∷◌, arith, if◌then◌else◌,
}
use crabstash.Lock.Escalation.{
  EscalationConfig, EscalationState, EscalationAction, nothing, warn, escalate, force_escalate,
  record_key_lock, get_lock_count, check_escalation, handle_escalation_action,
}

-- The part of `record_lock_acquired` of lock_table.rs that decides on the escalation.
unfoldable pub note_key_lock : EscalationConfig → EscalationState → Bytes → EscalationState × Bool
note_key_lock config state key =
    let state' = record_key_lock state key in
    handle_escalation_action (check_escalation (get_lock_count state') config) state'

-- How often a sequence of key locks asks for the range lock.
unfoldable pub escalations : EscalationConfig → EscalationState → List Bytes → ℕ
escalations config state [] = 0
escalations config state (key ∷ keys) =
    let (state', now) = note_key_lock config state key in
    (if now then 1 else 0) + escalations config state' keys

abbrev pub severity : EscalationAction → ℕ
severity nothing = 0
severity warn = 1
severity escalate = 2
severity force_escalate = 3

-- More locks never call for a weaker action, whatever the thresholds are.
pub check_escalation_mono :
    (a b : ℕ) (config : EscalationConfig)
    → a ≤ b
    → severity (check_escalation a config) ≤ severity (check_escalation b config)
unfolding check_escalation
check_escalation_mono a b config h = ground arith

handle-escalated :
    (action : EscalationAction) (state : EscalationState)
    → state.escalated ≡ true
    → ((handle_escalation_action action state).1 ≡ false)
      × ((handle_escalation_action action state).0.escalated ≡ true)
unfolding handle_escalation_action
handle-escalated nothing state h = (refl, h)
handle-escalated warn state h = (refl, h)
handle-escalated escalate state h = ground arith
handle-escalated force_escalate state h = ground arith

note_key_lock-escalated :
    (config : EscalationConfig) (state : EscalationState) (key : Bytes)
    → state.escalated ≡ true
    → ((note_key_lock config state key).1 ≡ false)
      × ((note_key_lock config state key).0.escalated ≡ true)
unfolding note_key_lock
note_key_lock-escalated config state key h =
    handle-escalated _ (record_key_lock state key) (unfold record_key_lock in h)

note_key_lock-true :
    (config : EscalationConfig) (state : EscalationState) (key : Bytes)
    → (note_key_lock config state key).1 ≡ true
    → (note_key_lock config state key).0.escalated ≡ true
unfolding note_key_lock handle_escalation_action
note_key_lock-true config state key h =
    by_action (check_escalation (get_lock_count (record_key_lock state key)) config) h
  where
    by_action :
        (action : EscalationAction)
        → (handle_escalation_action action (record_key_lock state key)).1 ≡ true
        → (handle_escalation_action action (record_key_lock state key)).0.escalated ≡ true
    by_action nothing g = cc
    by_action warn g = cc
    by_action escalate g = refl
    by_action force_escalate g = refl

escalations-escalated :
    (config : EscalationConfig) (state : EscalationState) (keys : List Bytes)
    → state.escalated ≡ true
    → escalations config state keys ≡ 0
unfolding escalations
escalations-escalated config state [] h = refl
escalations-escalated config state (key ∷ keys) h =
    let (no_lock, still) = note_key_lock-escalated config state key h in
    rw (no_lock, escalations-escalated config (note_key_lock config state key).0 keys still)

escalations-at_most :
    (config : EscalationConfig) (state : EscalationState) (keys : List Bytes)
    → escalations config state keys ≤ 1
unfolding escalations
escalations-at_most config state [] = omega arith
escalations-at_most config state (key ∷ keys) =
    let state' = (note_key_lock config state key).0 in
    ground (
      arith,
      note_key_lock-true config state key,
      escalations-escalated config state' keys,
      escalations-at_most config state' keys,
    )

-- However many keys a transaction locks, it asks for the range lock at most once, and not at all
-- once it is marked as escalated.
pub escalations-le-one :
    (config : EscalationConfig) (state : EscalationState) (keys : List Bytes)
    → escalations config state keys ≤ (if state.escalated then 0 else 1)
escalations-le-one config state keys =
    ground (arith, escalations-escalated config state keys, escalations-at_most config state keys)
