-- ===== src/Common/Error.antt =====
-- crabstash-common/src/error.rs: the errors of the database. The operating system's error inside
-- `Io` and the texts are left out: no code looks at them.
pub data Error : Type 0 where
  io corruption key_not_found transaction_conflict transaction_aborted invalid_argument : Error
  lock_timeout deadlock lock_conflict write_skew phantom_read serializable_conflict : Error

pub data Result {ℓ} (A : Type ℓ) : Type ℓ where
  ok : A → Result A
  err : Error → Result A
