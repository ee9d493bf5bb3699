-- ===== src/Storage/Wal/Ending.antt =====
-- Recovery ends on any bytes, also on those that no log wrote.
use crabstash.Base.{
  ℕ, zero, suc, ◌<◌, Bytes, ◌≡◌, ◌≢◌, refl, inl, inr, Bool, Option, none, some, [], ◌∷◌, length,
  take, drop, eqb, arith, Bool-cases,
}
use crabstash.Storage.Codec.{read_exact, get_le, length-read_exact}
use crabstash.Storage.Wal.{
  RecordType, WalRecord, Step, finished, found, failed, panicked, Recovered, ok, err, panic,
  unfinished, step_of, corrupt_or, parse_payload, decode_body, decode_record, checked, read_body,
  next_record, push, after_step, recover_loop, recover, try_from,
}

-- What a round leaves to read is shorter.
abbrev Shorter : ℕ → Step → Type 0
Shorter n finished = Unit
Shorter n (found r rest) = length rest < n
Shorter n (failed e) = Unit
Shorter n panicked = Unit

corrupt_or-Shorter :
    (parse : Bytes → Option WalRecord) (rest : Bytes) (o : Option Bytes) (n : ℕ)
    → length rest < n
    → Shorter n (corrupt_or parse rest o)
corrupt_or-Shorter parse rest none n lt = tt
corrupt_or-Shorter parse rest (some payload) n lt = of_step (parse payload)
  where
    of_step : (o : Option WalRecord) → Shorter n (step_of rest o)
    of_step none = tt
    of_step (some r) = lt

module _ (hash : Bytes → ℕ) (decompress : Bytes → Option Bytes) (flag : Bool) where
  decode_record-Shorter :
      (buf rest : Bytes) (n : ℕ)
      → length rest < n
      → Shorter n (decode_record hash decompress flag buf rest)
  unfolding decode_record decode_body
  decode_record-Shorter [] rest n lt = tt
  decode_record-Shorter (b ∷ body) rest n lt = of_type (try_from b)
    where
      of_type : (o : Option RecordType) → Shorter n (decode_body hash decompress flag o b body rest)
      of_type none = tt
      of_type (some t) = corrupt_or-Shorter (parse_payload t) rest _ n lt

  checked-Shorter :
      (checksum : ℕ) (o : Option (Bytes × Bytes)) (n : ℕ)
      → ((buf rest : Bytes) → o ≡ some (buf, rest) → length rest < n)
      → Shorter n (checked hash decompress flag checksum o)
  unfolding checked
  checked-Shorter checksum none n lt = tt
  checked-Shorter checksum (some (buf, rest)) n lt = elim (Bool-cases (eqb (hash buf) checksum)) [
    | inl same ↦ rw same (decode_record-Shorter buf rest n (lt buf rest refl))
    | inr other ↦ rw other tt
  ]

  next_record-Shorter :
      (bytes : Bytes) → Shorter (length bytes) (next_record hash decompress flag bytes)
  unfolding next_record read_body
  next_record-Shorter bytes = of_header (read_exact 8 bytes) refl
    where
      of_header :
          (o : Option (Bytes × Bytes))
          → read_exact 8 bytes ≡ o
          → Shorter (length bytes) (read_body hash decompress flag o)
      of_header none h = tt
      of_header (some (header, rest)) h =
          checked-Shorter (get_le (take 4 header)) (read_exact (get_le (drop 4 header)) rest)
            (length bytes)
            (λ buf tail k. omega (
              arith,
              length-read_exact 8 bytes header rest h,
              length-read_exact (get_le (drop 4 header)) rest buf tail k,
            ))

  recover_loop_ends :
      (n : ℕ) (bytes : Bytes)
      → length bytes < n
      → recover_loop hash decompress flag n bytes ≢ unfinished
  unfolding recover_loop after_step
  recover_loop_ends zero bytes lt = absurd (omega arith)
  recover_loop_ends (suc n) bytes lt =
      of_step (next_record hash decompress flag bytes) (next_record-Shorter bytes)
        (λ rest short. recover_loop_ends n rest (omega arith))
    where
      push-unfinished :
          (r : WalRecord) (o : Recovered)
          → push hash decompress flag r o ≡ unfinished
          → o ≡ unfinished
      push-unfinished r (ok records) h = cc
      push-unfinished r (err e) h = cc
      push-unfinished r panic h = cc
      push-unfinished r unfinished h = refl

      of_step :
          (s : Step)
          → Shorter (length bytes) s
          → ((rest : Bytes)
              → length rest < length bytes
              → recover_loop hash decompress flag n rest ≢ unfinished)
          → after_step hash decompress flag s (recover_loop hash decompress flag n) ≢ unfinished
      of_step finished short ih h = cc
      of_step (found r rest) short ih h = ih rest short (push-unfinished r _ h)
      of_step (failed e) short ih h = cc
      of_step panicked short ih h = cc

  -- Recovery ends on any bytes: with records, an error or a panic, and never for want of rounds.
  pub recover_ends : (bytes : Bytes) → recover hash decompress flag bytes ≢ unfinished
  unfolding recover
  recover_ends bytes = recover_loop_ends (suc (length bytes)) bytes (omega arith)
