-- ===== src/Storage/Batch.antt =====
-- crabstash-storage/src/batch.rs: the operations that are written together.
use crabstash.Base.{
  ℕ, ◌+◌, ◌%◌, ◌^◌, ◌≡◌, ◌∙◌, refl, ap, Bytes, Bool, List, [], ◌∷◌, ◌++◌, length, is_empty, arith,
}

pub data BatchOperation : Type 0 where
  put : Bytes → Bytes → BatchOperation
  delete : Bytes → BatchOperation

pub record WriteBatch : Type 0 where
  pub operations : List BatchOperation
  pub approximate_size : ℕ

-- Also `with_capacity`, which only reserves memory.
abbrev pub new : WriteBatch
new = record { operations = []; approximate_size = 0 }

-- The size is a machine word.
unfoldable pub add_put : WriteBatch → Bytes → Bytes → WriteBatch
add_put batch key value = record {
  operations = batch.operations ++ BatchOperation.put key value ∷ [];
  approximate_size = (batch.approximate_size + (length key + length value)) % 2 ^ 64;
}

unfoldable pub add_delete : WriteBatch → Bytes → WriteBatch
add_delete batch key = record {
  operations = batch.operations ++ BatchOperation.delete key ∷ [];
  approximate_size = (batch.approximate_size + length key) % 2 ^ 64;
}

abbrev pub clear : WriteBatch → WriteBatch
clear batch = new

abbrev pub len : WriteBatch → ℕ
len batch = length batch.operations

abbrev pub is_empty_batch : WriteBatch → Bool
is_empty_batch batch = is_empty batch.operations

-- One call that changes a batch.
pub data BatchCall : Type 0 where
  record_of : BatchOperation → BatchCall
  clear_all : BatchCall

abbrev pub apply : WriteBatch → BatchCall → WriteBatch
apply batch (record_of (BatchOperation.put key value)) = add_put batch key value
apply batch (record_of (BatchOperation.delete key)) = add_delete batch key
apply batch clear_all = clear batch

abbrev pub apply_all : WriteBatch → List BatchCall → WriteBatch
apply_all batch [] = batch
apply_all batch (call ∷ calls) = apply_all (apply batch call) calls

-- The operations since the last clearing, in the order of the calls.
abbrev pub expected : List BatchOperation → List BatchCall → List BatchOperation
expected ops [] = ops
expected ops (record_of op ∷ calls) = expected (ops ++ op ∷ []) calls
expected ops (clear_all ∷ calls) = expected [] calls

abbrev pub size_of : BatchOperation → ℕ
size_of (BatchOperation.put key value) = length key + length value
size_of (BatchOperation.delete key) = length key

unfoldable pub total_size : List BatchOperation → ℕ
total_size [] = 0
total_size (op ∷ ops) = size_of op + total_size ops

total_size-append :
    (ops : List BatchOperation) (op : BatchOperation)
    → total_size (ops ++ op ∷ []) ≡ total_size ops + size_of op
unfolding total_size
total_size-append [] op = omega arith
total_size-append (o ∷ ops) op = omega (arith, total_size-append ops op)

apply-size :
    (batch : WriteBatch) (call : BatchCall)
    → batch.approximate_size ≡ total_size batch.operations % 2 ^ 64
    → (apply batch call).approximate_size ≡ total_size (apply batch call).operations % 2 ^ 64
unfolding add_put add_delete
apply-size batch (record_of (BatchOperation.put key value)) h =
    omega (arith, h, total_size-append batch.operations (BatchOperation.put key value))
apply-size batch (record_of (BatchOperation.delete key)) h =
    omega (arith, h, total_size-append batch.operations (BatchOperation.delete key))
apply-size batch clear_all h = unfold total_size in refl

apply_all-size :
    (calls : List BatchCall) (batch : WriteBatch)
    → batch.approximate_size ≡ total_size batch.operations % 2 ^ 64
    → (apply_all batch calls).approximate_size
      ≡ total_size (apply_all batch calls).operations % 2 ^ 64
apply_all-size [] batch h = h
apply_all-size (call ∷ calls) batch h =
    apply_all-size calls (apply batch call) (apply-size batch call h)

operations-apply_all :
    (calls : List BatchCall) (batch : WriteBatch)
    → (apply_all batch calls).operations ≡ expected batch.operations calls
unfolding add_put add_delete
operations-apply_all [] batch = refl
operations-apply_all (record_of (BatchOperation.put key value) ∷ calls) batch =
    operations-apply_all calls (add_put batch key value)
operations-apply_all (record_of (BatchOperation.delete key) ∷ calls) batch =
    operations-apply_all calls (add_delete batch key)
operations-apply_all (clear_all ∷ calls) batch = operations-apply_all calls new

-- After any calls on a new batch, it holds the operations since the last clearing in their order,
-- and its size is the sum of their keys and values, as a machine word.
pub apply_all-new :
    (calls : List BatchCall)
    → ((apply_all new calls).operations ≡ expected [] calls)
      × ((apply_all new calls).approximate_size ≡ total_size (expected [] calls) % 2 ^ 64)
apply_all-new calls =
    let same = operations-apply_all calls new in
    (
      same,
      apply_all-size calls new (unfold total_size in refl)
          ∙ ap (λ ops. total_size ops % 2 ^ 64) same,
    )
