-- ===== src/Memory/Queue/Histories.antt =====
-- About histories of calls of storage/memory/store.go and the consistency of the queue.
use openiotrsp.Common.{
  ◌+◌, ◌^◌, ◌≤◌, ◌<◌, List, [], ◌∷◌, arith, length, eq_nat, eq_bytes, lookup, Context,
}
use openiotrsp.Prelude.Int64.{inc64-eq}
use openiotrsp.Storage.{TenantId, Time}
use openiotrsp.Memory.State.{
  Store, new_store, eq_device_key, eq_result_key, eq_profile_key, eq_associated_key, eq_config_key,
  eq_notification_key,
}
use openiotrsp.Memory.Devices.{register_device, next_euicc_package_counter}
use openiotrsp.Memory.Operations.{enqueue_operation}
use openiotrsp.Memory.Results.{record_euicc_package_result}
use openiotrsp.Memory.Calls.{
  Call, Change, registers, counts, enqueues, records_result, apply, step, run,
}
use openiotrsp.Memory.Queue.{IsQueueValid}
use openiotrsp.Memory.Queue.Enqueue.{enqueue-IsQueueValid}
use openiotrsp.Memory.Queue.Frame.{
  register-IsQueueValid, count-IsQueueValid, aside-IsQueueValid, aside_frame,
}
use openiotrsp.Memory.Queue.Complete.{record-IsQueueValid}

pub apply-IsQueueValid :
    (at : Time) (c : Context) (t : TenantId) (change : Change) (s : Store)
    → s.next_operation_id + 1 < 2 ^ 63
    → IsQueueValid s
    → IsQueueValid (apply at c t change s)
unfolding apply
apply-IsQueueValid at c t (registers device) s room v = register-IsQueueValid c t device s v
apply-IsQueueValid at c t (counts eid) s room v = count-IsQueueValid c t eid s v
apply-IsQueueValid at c t (enqueues request) s room v = enqueue-IsQueueValid at c t request s v room
apply-IsQueueValid at c t (records_result result) s room v = record-IsQueueValid at c t result s v
apply-IsQueueValid at c t change s room v = aside-IsQueueValid at c t change s tt v

-- A call takes at most one id.
pub apply_next :
    (at : Time) (c : Context) (t : TenantId) (change : Change) (s : Store)
    → s.next_operation_id + 1 < 2 ^ 63
    → (apply at c t change s).next_operation_id ≤ s.next_operation_id + 1
unfolding apply register_device next_euicc_package_counter enqueue_operation
    record_euicc_package_result
apply_next at c t (registers device) s room = ground arith
apply_next at c t (counts eid) s room = ground arith
apply_next at c t (enqueues request) s room = ground (arith, inc64-eq s.next_operation_id)
apply_next at c t (records_result result) s room = ground arith
apply_next at c t change s room = omega (arith, (aside_frame at c t change s tt).2)

pub run-IsQueueValid :
    (calls : List Call) (s : Store)
    → s.next_operation_id + length calls < 2 ^ 63
    → IsQueueValid s
    → IsQueueValid (run calls s)
unfolding run step
run-IsQueueValid [] s room v = v
run-IsQueueValid (call ∷ calls) s room v =
    let one : s.next_operation_id + 1 < 2 ^ 63 = omega arith in
    run-IsQueueValid calls (apply call.now call.ctx call.tenant_id call.change s)
      (omega (arith, apply_next call.now call.ctx call.tenant_id call.change s one))
      (apply-IsQueueValid call.now call.ctx call.tenant_id call.change s one v)

pub new_store-IsQueueValid : IsQueueValid new_store
unfolding new_store lookup
new_store-IsQueueValid = record {
  distinct = tt;
  positive = omega arith;
  keyed = λ i a l. cc;
  fresh = λ i a l. absurd (ground arith);
  known = λ i a l. absurd (ground arith);
  passed = λ i a d l m. absurd (ground arith);
  unique = λ i j a b l m p q. absurd (ground arith);
  numbered = λ k d l. absurd (ground arith);
}

-- After any fewer than 2^63 - 1 calls from the empty store, the queue is consistent: operations
-- are filed under their ids, which are distinct, positive and below the id counter; the device of
-- each is registered and its sequence counter has passed the operation's positive number; and no
-- two operations of a device share a number.
pub run-new_store-IsQueueValid :
    (calls : List Call) → length calls + 1 < 2 ^ 63 → IsQueueValid (run calls new_store)
unfolding new_store
run-new_store-IsQueueValid calls room =
    run-IsQueueValid calls new_store (omega arith) new_store-IsQueueValid
