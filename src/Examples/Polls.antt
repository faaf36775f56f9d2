-- ===== src/Examples/Polls.antt =====
-- A poll of a device with two queued packages, and an inventory.
use openiotrsp.Common.{
  ◌≡◌, refl, true, false, none, some, List, [], ◌∷◌, Bytes, eq_nat, eq_bytes, Result,
}
use openiotrsp.Prelude.Equality.{Bytes}
use openiotrsp.Prelude.Action.{Result}
use openiotrsp.Memory.Calls.{run, Call, registers, enqueues}
use openiotrsp.Memory.State.{
  new_store, Store, eq_device_key, eq_result_key, eq_profile_key, eq_associated_key, eq_config_key,
  eq_notification_key,
}
use openiotrsp.Memory.Api.{memory_api}
use openiotrsp.Storage.Api.{live}
use openiotrsp.EuiccPkg.State.{hex_encode, hex_digit, sync_profile_inventory}
use openiotrsp.EuiccPkg.Outcome.{profile_infos}
use openiotrsp.IpaData.{sync_inventory}
use openiotrsp.IpaData.Inventory.{sync_inventory_agrees}
use openiotrsp.Asn1.IpaData.{IpaEuiccData}
use openiotrsp.Asn1.Tlv.{tag_get_eim_package, tag_eid}
use openiotrsp.Asn1.Esipa.{GetEimPackageRequest}
use openiotrsp.Examples.Data.{own_tenant, call_at, card_device, package_request}
use openiotrsp.Examples.Objects.{Node, leaf, tree, tree_lib}

abbrev zeros : Bytes
zeros = 0 ∷ 0 ∷ 0 ∷ 0 ∷ 0 ∷ 0 ∷ 0 ∷ 0 ∷ 0 ∷ 0 ∷ 0 ∷ 0 ∷ 0 ∷ 0 ∷ 0 ∷ 0 ∷ []

unfoldable polled : List Call
unfolding hex_encode hex_digit
polled =
    call_at 1 (registers (record card_device { eid = hex_encode zeros }))
    ∷ call_at 2 (enqueues (record package_request { eid = hex_encode zeros }))
    ∷ []

unfoldable poll_store : Store
poll_store = run polled new_store

unfoldable poll_object : Node
poll_object = tree tag_get_eim_package (leaf tag_eid zeros ∷ [])

abbrev poll_request : GetEimPackageRequest
poll_request = record {
  eid = zeros;
  notify_state_change = false;
  state_change_cause = none;
  rplmn = none;
}

abbrev reported_data : IpaEuiccData Node
reported_data = record {
  eid = none;
  notifications = [];
  notifications_raw = none;
  default_smdp_address = none;
  euicc_package_results = [];
  euicc_package_result_raw = none;
  euicc_info1 = none;
  euicc_info1_raw = none;
  euicc_info2 = none;
  euicc_info2_raw = none;
  root_smds_address = none;
  association_token = none;
  eum_certificate_raw = none;
  euicc_certificate_raw = none;
  eim_transaction_id = none;
  ipa_capabilities = none;
  ipa_capabilities_raw = none;
  device_info_raw = none;
  profile_info_list_present = true;
  profiles =
      record { iccid = 137 ∷ 1 ∷ []; profile_state = some 1; fallback_attribute = false } ∷ [];
  raw_objects = [];
}

sync_inventory_agrees_example :
    sync_inventory tree_lib (memory_api 3) live own_tenant (hex_encode zeros) reported_data
    ≡ sync_profile_inventory
        (memory_api 3)
        live
        own_tenant
        (hex_encode zeros)
        (profile_infos reported_data.profiles)
sync_inventory_agrees_example =
    sync_inventory_agrees tree_lib (memory_api 3) live own_tenant (hex_encode zeros) reported_data
      refl
