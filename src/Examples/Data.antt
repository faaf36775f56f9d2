-- ===== src/Examples/Data.antt =====
-- A store with one device and two queued operations, by its calls.
use openiotrsp.Common.{List, [], ◌∷◌, Bytes, ascii, eq_nat, eq_bytes}
use openiotrsp.Storage.{
  Device, TenantId, Time, OperationKind, OperationStatus, OperationRequest, EuiccPackageResult,
  default_tenant_id,
}
use openiotrsp.Storage.Api.{live}
use openiotrsp.Memory.Calls.{Call, Change, run, registers, enqueues}
use openiotrsp.Memory.State.{
  Store, MemoryOperation, new_store, eq_device_key, eq_result_key, eq_profile_key,
  eq_associated_key, eq_config_key, eq_notification_key,
}

abbrev pub own_tenant : TenantId
own_tenant = []

abbrev pub card : Bytes
card = ascii "89"

abbrev pub call_at : Time → Change → Call
call_at at change = record { ctx = live; tenant_id = own_tenant; now = at; change = change }

abbrev pub package_request : OperationRequest
package_request = record { eid = card; kind = OperationKind.euicc_package; payload = [] }

abbrev pub card_device : Device
card_device = record { eid = card }

abbrev pub two_calls : List Call
two_calls =
    call_at 1 (registers card_device)
    ∷ call_at 2 (enqueues package_request)
    ∷ call_at 3 (enqueues package_request)
    ∷ []

abbrev pub queue_of_two : Store
queue_of_two = run two_calls new_store

-- The first operation of that store.
abbrev pub first_queued : MemoryOperation
first_queued = record {
  tenant_id = default_tenant_id;
  operation = record {
    id = 1;
    eid = card;
    sequence_number = 1;
    kind = OperationKind.euicc_package;
    payload = [];
    status = OperationStatus.pending;
    created_at = 2;
    updated_at = 2;
  };
}

-- A result that names it by its id.
abbrev pub first_result : EuiccPackageResult
first_result = record {
  eid = [];
  operation_id = 1;
  sequence_number = 0;
  status = OperationStatus.done;
  payload = ascii "ok";
}
