-- ===== src/Examples/Esipa.antt =====
-- The theorems of the ESipa front end, on objects that are trees.
use openiotrsp.Asn1.Result.Values.{result_objects}
use openiotrsp.Esipa.Results.{asn1_wire}
use openiotrsp.Esipa.Results.{verify_with}
use openiotrsp.Examples.Objects.{tree}
use openiotrsp.Asn1.Tlv.{tag_eq}
use openiotrsp.Common.{bytes_eq}
use openiotrsp.Esipa.Select.{decode_package_request}
use openiotrsp.EuiccPkg.Operation.{enable}
use openiotrsp.Examples.Results.{plain_crypto}
use openiotrsp.EuiccPkg.Outcome.{zero_result}
use openiotrsp.Esipa.Notify.Acks.{append_ack_sequences-IsUnion}
use openiotrsp.Asn1.BitString.RoundTrip.{bit_string_read_back}
use mathlib.Core.List.{Memᴰ}
use openiotrsp.Esipa.Select.Match.{IsFoundFor, match_pending-IsFoundFor}
use openiotrsp.Esipa.Results.Trusted.{IsVerified, verified_operation_result-IsVerified}
use openiotrsp.Asn1.BitString.{unmarshal_bit_string, marshal_bit_string}
use openiotrsp.Esipa.Notify.{append_ack_sequences}
use openiotrsp.Esipa.Select.{match_pending_euicc_package_by_correlation}
use openiotrsp.EuiccPkg.Result.{PackageResult, result_ok}
use openiotrsp.Esipa.Results.{verified_operation_result}
use openiotrsp.Examples.Objects.{package_operation, Node, tree_lib, desk_api, result_bytes}
use openiotrsp.Common.{
  ◌≡◌, refl, ◌≢◌, ◌↔◌, ◌⊎◌, true, false, some, [], ◌∷◌, arith, ascii, eq_nat, eq_bytes, AllPairs,
  Int64, ok,
}
use openiotrsp.Storage.Api.{live}
use openiotrsp.Storage.{Operation, OperationStatus}
use openiotrsp.Esipa.{ecdsa_key}

finds_operation :
    match_pending_euicc_package_by_correlation tree_lib desk_api live []
      (ascii "89")
      (65 ∷ [])
      4
      []
      (package_operation ∷ [])
    ≡ (ok (package_operation ∷ []), package_operation ∷ [])
unfolding match_pending_euicc_package_by_correlation decode_package_request bytes_eq tree_lib tag_eq
    tree
finds_operation = refl

match_pending-IsFoundFor_example :
    (operation : Operation) × (package_operation ∷ [] ≡ operation ∷ [])
    × IsFoundFor tree_lib desk_api []
        (ascii "89")
        (65 ∷ [])
        4
        []
        (package_operation ∷ [])
        operation
        (package_operation ∷ [])
match_pending-IsFoundFor_example =
    match_pending-IsFoundFor tree_lib desk_api [] (ascii "89") (65 ∷ []) 4 []
      (package_operation ∷ []) (package_operation ∷ []) (package_operation ∷ []) finds_operation

abbrev verified_outcome : PackageResult Node
verified_outcome = record zero_result {
  succeeded = true;
  operation = enable;
  result_code = result_ok;
}

verifies :
    verified_operation_result tree_lib plain_crypto desk_api live []
      (ascii "89")
      package_operation
      result_bytes
      (ecdsa_key tt)
      []
    ≡ (ok (some verified_outcome, OperationStatus.done), [])
unfolding verified_operation_result decode_package_request bytes_eq tree_lib tag_eq tree verify_with
    asn1_wire result_objects
verifies = refl

verified_operation_result-IsVerified_example :
    IsVerified tree_lib plain_crypto desk_api live []
      (ascii "89")
      package_operation
      result_bytes
      (ecdsa_key tt)
      []
      (some verified_outcome)
verified_operation_result-IsVerified_example =
    verified_operation_result-IsVerified tree_lib plain_crypto desk_api live [] (ascii "89")
      package_operation result_bytes (ecdsa_key tt) [] [] (some verified_outcome) verifies

acks_distinct : AllPairs (λ (a : Int64) b. a ≢ b) (4 ∷ 7 ∷ [])
acks_distinct = ((λ e. ground arith, tt), (tt, tt))

append_ack_sequences-IsUnion_example :
    let acks = append_ack_sequences (4 ∷ 7 ∷ []) (7 ∷ 9 ∷ 9 ∷ []) in
    AllPairs (λ a b. a ≢ b) acks
    × ((x : Int64) → Memᴰ x acks ↔ (Memᴰ x (4 ∷ 7 ∷ []) ⊎ Memᴰ x (7 ∷ 9 ∷ 9 ∷ [])))
append_ack_sequences-IsUnion_example =
    append_ack_sequences-IsUnion (4 ∷ 7 ∷ []) (7 ∷ 9 ∷ 9 ∷ []) acks_distinct

bit_string_read_back_example :
    unmarshal_bit_string (marshal_bit_string (true ∷ false ∷ true ∷ []))
    ≡ ok (true ∷ false ∷ true ∷ [])
bit_string_read_back_example = bit_string_read_back (true ∷ false ∷ true ∷ [])
