-- ===== src/Examples/Tenants.antt =====
-- Another tenant's calls, on the store with two operations.
use openiotrsp.Common.{
  ◌≡◌, refl, ◌≢◌, List, [], ◌∷◌, arith, ascii, eq_nat, eq_bytes, bytes_eq, inc64, lookup, insert,
}
use openiotrsp.Storage.{normalize_tenant_id, default_tenant_id}
use openiotrsp.Storage.Api.{live}
use openiotrsp.Examples.Data.{queue_of_two, two_calls, package_request, card_device, first_result}
use openiotrsp.Memory.Calls.{Call, Change, run, step, apply, registers, enqueues, records_result}
use openiotrsp.Memory.State.{
  new_store, new_device_key, device_key_eq, eq_device_key, eq_result_key, eq_profile_key,
  eq_associated_key, eq_config_key, eq_notification_key,
}
use openiotrsp.Memory.Devices.{register_device}
use openiotrsp.Memory.Operations.{enqueue_operation}
use openiotrsp.Memory.Queue.Histories.{run-new_store-IsQueueValid}
use openiotrsp.Memory.Isolation.{SameFor}
use openiotrsp.Memory.Isolation.Histories.{run-SameFor}

abbrev foreign_call : Change → Call
foreign_call change = record { ctx = live; tenant_id = ascii "other"; now = 9; change = change }

-- The other tenant has a device with the same EID, and records a result by the same id.
abbrev foreign_calls : List Call
foreign_calls =
    foreign_call (registers card_device)
    ∷ foreign_call (enqueues package_request)
    ∷ foreign_call (records_result first_result)
    ∷ []

foreign_tenant : normalize_tenant_id (ascii "other") ≢ default_tenant_id
unfolding normalize_tenant_id bytes_eq
foreign_tenant e = absurd (ground (arith, e))

three_used : queue_of_two.next_operation_id ≡ 3
unfolding run step apply enqueue_operation register_device new_store new_device_key
    normalize_tenant_id bytes_eq lookup insert inc64 device_key_eq
three_used = refl

run-SameFor_example : SameFor default_tenant_id queue_of_two (run foreign_calls queue_of_two)
run-SameFor_example =
    run-SameFor default_tenant_id foreign_calls queue_of_two
      (run-new_store-IsQueueValid two_calls (omega arith)) (rw three_used (omega arith))
      (foreign_tenant, (foreign_tenant, (foreign_tenant, tt)))
