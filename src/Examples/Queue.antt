-- ===== src/Examples/Queue.antt =====
-- The theorems of the operation queue, on a store with two operations.
use openiotrsp.Memory.Results.{
  record_euicc_package_result, get_operation_result, normalize_result_status,
}
use openiotrsp.Memory.State.{
  new_store, eq_device_key, eq_result_key, eq_profile_key, eq_associated_key, eq_config_key,
  eq_notification_key, MemoryOperation, Store,
}
use openiotrsp.Memory.Devices.{register_device, next_euicc_package_counter}
use openiotrsp.Memory.Queue.Select.{IsOldest}
use openiotrsp.Memory.Operations.{
  fetch_pending_operations, enqueue_operation, is_pending_of, list_operations, get_operation,
  get_operation_by_sequence,
}
use openiotrsp.Memory.Queue.{IsQueueValid}
use openiotrsp.Memory.Calls.{run, step, apply, Call, records_result, counts}
use openiotrsp.Common.{
  ◌^◌, ◌<◌, ◌≡◌, refl, ◌↔◌, inl, true, some, List, [], ◌∷◌, arith, nat_eq, if◌then◌else◌, All,
  eq_nat, eq_bytes, bytes_eq, Int64, inc64, gt64, Dict, lookup, insert, ok,
}
use mathlib.Core.List.{Permᴰ}
use openiotrsp.Memory.State.{
  new_device_key, device_key_eq, eq_device_key, eq_result_key, eq_profile_key, eq_associated_key,
  eq_config_key, eq_notification_key,
}
use openiotrsp.Storage.{Operation, normalize_tenant_id, OperationStatus}
use openiotrsp.Storage.Api.{live}
use openiotrsp.Examples.Data.{
  two_calls, queue_of_two, first_queued, first_result, call_at, own_tenant, card, package_request,
}
use openiotrsp.Memory.Queue.Histories.{run-new_store-IsQueueValid}
use openiotrsp.Memory.Queue.Fetch.{fetch_pending-IsOldest, fetch_visit}
use openiotrsp.Memory.Queue.Lifecycle.{record_completes, completed}
use openiotrsp.Memory.Queue.Delivery.{run-Spares, Spares}
use openiotrsp.Memory.Counters.{count-fresh}
use openiotrsp.Memory.Queue.Reads.{reads_agree, enqueued_is_read}

run-new_store-IsQueueValid_example : IsQueueValid queue_of_two
run-new_store-IsQueueValid_example = run-new_store-IsQueueValid two_calls (omega arith)

two_valid : IsQueueValid queue_of_two
two_valid = run-new_store-IsQueueValid two_calls (omega arith)

two_next : queue_of_two.next_operation_id ≡ 3
unfolding run step apply enqueue_operation register_device new_store new_device_key
    normalize_tenant_id bytes_eq lookup insert inc64 device_key_eq
two_next = refl

two_room : queue_of_two.next_operation_id < 2 ^ 63
two_room = rw two_next (omega arith)

first_there : lookup 1 queue_of_two.operations ≡ some first_queued
unfolding run step apply enqueue_operation register_device new_store new_device_key
    normalize_tenant_id bytes_eq lookup insert inc64 device_key_eq
first_there = refl

one_positive : gt64 1 0 ≡ true
unfolding gt64
one_positive = refl

fetch_pending-IsOldest_example :
    (ops : List Operation) × (fetch_pending_operations live own_tenant card 1 queue_of_two
      ≡ (ok ops, queue_of_two))
    × IsOldest
        (is_pending_of (normalize_tenant_id own_tenant) card)
        1
        (normalize_tenant_id own_tenant)
        queue_of_two
        ops
fetch_pending-IsOldest_example =
    fetch_pending-IsOldest own_tenant card 1 queue_of_two two_valid two_room one_positive

abbrev second_queued : MemoryOperation
second_queued = record first_queued {
  operation = record first_queued.operation {
    id = 2;
    sequence_number = 2;
    created_at = 3;
    updated_at = 3;
  };
}

abbrev other_way : Dict Int64 MemoryOperation
other_way = (2, second_queued) ∷ (1, first_queued) ∷ []

visited_other_way : Permᴰ queue_of_two.operations other_way
unfolding run step apply enqueue_operation register_device new_store new_device_key
    normalize_tenant_id bytes_eq lookup insert inc64 device_key_eq
visited_other_way = Permᴰ.swap refl refl

fetch_visit_example :
    ((fetch_pending_operations live own_tenant card 1 queue_of_two).0
      ≡ (fetch_pending_operations live own_tenant card 1
          (record queue_of_two { operations = other_way })).0)
    × ((list_operations live own_tenant card 1 queue_of_two).0
        ≡ (list_operations live own_tenant card 1
            (record queue_of_two { operations = other_way })).0)
fetch_visit_example =
    fetch_visit own_tenant card 1 queue_of_two two_valid two_room other_way visited_other_way

own_default : first_queued.tenant_id ≡ normalize_tenant_id own_tenant
unfolding normalize_tenant_id bytes_eq
own_default = refl

record_completes_example :
    let after = (record_euicc_package_result 9 live own_tenant first_result queue_of_two).1 in
    ((record_euicc_package_result 9 live own_tenant first_result queue_of_two).0 ≡ ok tt)
    × ((j : Int64)
        → lookup j after.operations ≡ (
            if nat_eq 1 j
            then some (completed 9 first_result.status first_queued)
            else lookup j queue_of_two.operations))
    × ((get_operation_result live own_tenant 1 after).0
        ≡ ok (record {
          operation_id = 1;
          eid = card;
          sequence_number = 1;
          status = normalize_result_status first_result.status;
          payload = first_result.payload;
          created_at = 9;
        }))
record_completes_example =
    record_completes queue_of_two two_valid 1 first_queued first_there own_tenant own_default 9
      first_result (inl refl)

abbrev second_done : List Call
second_done =
    call_at 5 (records_result (record first_result { operation_id = 2 }))
    ∷ call_at 6 (counts card)
    ∷ []

spared : All (Spares 1 first_queued) second_done
spared = (
  (λ result e mine names. ground (arith, names, e)),
  ((λ result e mine names. ground (arith, e)), tt),
)

run-Spares_example : lookup 1 (run second_done queue_of_two).operations ≡ some first_queued
run-Spares_example =
    run-Spares second_done queue_of_two 1 first_queued two_valid (rw two_next (omega arith))
      first_there spared

counted_first : (next_euicc_package_counter live own_tenant card queue_of_two).0 ≡ ok 1
unfolding run step apply enqueue_operation register_device new_store new_device_key
    normalize_tenant_id bytes_eq lookup insert inc64 device_key_eq next_euicc_package_counter
counted_first = refl

count-fresh_example :
    (c : Int64) × ((next_euicc_package_counter live own_tenant card
        (run second_done (next_euicc_package_counter live own_tenant card queue_of_two).1)).0
      ≡ ok c)
    × (1 < c)
count-fresh_example =
    count-fresh own_tenant card 1 queue_of_two second_done (omega arith) counted_first

reads_agree_example :
    let op = first_queued.operation in
    ((get_operation live own_tenant op.id queue_of_two).0 ≡ ok op)
    ↔ ((get_operation_by_sequence live own_tenant op.eid op.sequence_number queue_of_two).0 ≡ ok op)
reads_agree_example = reads_agree queue_of_two two_valid own_tenant first_queued.operation

abbrev third_queued : Operation
third_queued = record first_queued.operation {
  id = 3;
  sequence_number = 3;
  created_at = 4;
  updated_at = 4;
}

abbrev queue_of_three : Store
queue_of_three = (enqueue_operation 4 live own_tenant package_request queue_of_two).1

third_enqueued :
    enqueue_operation 4 live own_tenant package_request queue_of_two
    ≡ (ok third_queued, queue_of_three)
unfolding run step apply enqueue_operation register_device new_store new_device_key
    normalize_tenant_id bytes_eq lookup insert inc64 device_key_eq
third_enqueued = refl

enqueued_is_read_example :
    ((get_operation live own_tenant 3 queue_of_three).0 ≡ ok third_queued)
    × ((get_operation_by_sequence live own_tenant card 3 queue_of_three).0 ≡ ok third_queued)
    × (third_queued.eid ≡ package_request.eid)
    × (third_queued.kind ≡ package_request.kind)
    × (third_queued.payload ≡ package_request.payload)
    × (third_queued.status ≡ OperationStatus.pending)
enqueued_is_read_example =
    enqueued_is_read 4 own_tenant package_request queue_of_two queue_of_three third_queued two_valid
      (rw two_next (omega arith)) third_enqueued
