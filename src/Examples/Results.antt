-- ===== src/Examples/Results.antt =====
-- The theorems of package results, on objects that are a tag and a number and signatures that are
-- the signed bytes.
use openiotrsp.Common.{
  ℕ, ◌≡◌, refl, ◌↔◌, true, false, none, some, List, [], ◌∷◌, ascii, eq_nat, eq_bytes, bytes_eq,
  Int64, invalid_input, encoding_error, ok, err,
}
use openiotrsp.Asn1.Package.{EuiccPackage, psmo_enable, kind_psmo}
use openiotrsp.Asn1.Result.{EuiccResultData, EuiccPackageResult, kind_ok}
use openiotrsp.EuiccPkg.Operation.{
  enable, package_operation_kind, package_psmo, package_eco, result_tag, only_psmo, only_eco,
  psmo_kind,
}
use openiotrsp.EuiccPkg.Result.{PackageResult, result_ok}
use openiotrsp.EuiccPkg.Outcome.{TlvApi, zero_result, is_result_ok, map_operation_result}
use openiotrsp.EuiccPkg.Outcome.Parse.{
  operation_result, outcome_of, psmo_operation_result, result_data_by_tag, tagged_result,
  integer_operation_result, integer_outcome,
}
use openiotrsp.EuiccPkg.Outcome.Agreement.{operation_result-Agrees}
use openiotrsp.EuiccPkg.Outcome.Claims.{Agrees}
use openiotrsp.EuiccPkg.Verify.{
  Crypto, ResultInput, verify_result, verify_kind, verify_signed, signature_input,
  verify_signed_bytes, SignedRequest, match_signed_result,
}
use openiotrsp.EuiccPkg.Verify.Trust.{
  match_signed_result-Matches, Matches, verify_result-Trusted, Trusted,
}

abbrev pub Numbered : Type 0
Numbered = ℕ × Int64

abbrev pub numbered_api : TlvApi Numbered
numbered_api = record {
  is_context_specific = λ raw. true;
  tag_value = λ raw. raw.0;
  is_universal_integer = λ raw. false;
  children = λ raw. raw ∷ [];
  read_integer = λ raw. ok raw.1;
  read_profile_list = λ raw. err (encoding_error []);
  read_set_default_dp = λ raw. ok raw.1;
  read_add_eim = λ raw. err (encoding_error []);
  read_list_eim = λ raw. err (encoding_error []);
}

-- A signature is good if it is the signed bytes.
abbrev pub plain_crypto : Crypto (Unit {0})
plain_crypto = record {
  sha256 = λ bytes. bytes;
  verify_asn1 = λ key digest signature. bytes_eq digest signature;
  verify_tr03111 = λ key digest signature. err (invalid_input []);
  association_token_tlv = λ token. ok (132 ∷ 1 ∷ token ∷ []);
}

abbrev pub enable_package : EuiccPackage Numbered
enable_package = record {
  kind = kind_psmo;
  psmos =
      record {
        operation = psmo_enable;
        iccid = ascii "01";
        rollback_flag = false;
        profile_info_list_request = none;
        immediate_enable = none;
        set_default_dp_address = none;
      }
      ∷ [];
  ecos = [];
}

-- The result of enable, tag 3, with the value 0.
abbrev pub enable_data : List (EuiccResultData Numbered)
enable_data = some (3, 0) ∷ []

abbrev pub enabled : PackageResult Numbered
enabled = record (zero_result {Tlv = Numbered}) {
  succeeded = true;
  operation = enable;
  result_code = result_ok;
}

reads_enabled : operation_result numbered_api enable_package enable_data ≡ ok enabled
unfolding operation_result package_psmo package_eco outcome_of psmo_operation_result
    result_data_by_tag result_tag tagged_result integer_operation_result integer_outcome
    map_operation_result is_result_ok only_psmo only_eco psmo_kind
reads_enabled = refl

operation_result-Agrees_example :
    Agrees numbered_api enable_data (package_operation_kind enable_package) enabled
operation_result-Agrees_example =
    operation_result-Agrees numbered_api enable_package enable_data enabled reads_enabled

abbrev pub enable_request : SignedRequest Numbered
enable_request = record {
  request = record {
    euicc_package_signed = record {
      eim_id = ascii "eim";
      eid = [];
      counter_value = 4;
      eim_transaction_id = some (1 ∷ []);
      euicc_package = enable_package;
    };
    eim_signature = [];
  };
  der = [];
  signed_der = [];
  signature_input_bytes = [];
  tenant_id = [];
  eid = ascii "89";
  eid_value = [];
  eim_id = ascii "eim";
  counter_value = 4;
  eim_transaction_id = 1 ∷ [];
  euicc_package = enable_package;
}

match_signed_result-Matches_example :
    (match_signed_result enable_request 7 (ascii "eim") 4 (1 ∷ []) 7 ≡ ok tt)
    ↔ Matches enable_request 7 (ascii "eim") 4 (1 ∷ []) 7
match_signed_result-Matches_example =
    match_signed_result-Matches enable_request 7 (ascii "eim") 4 (1 ∷ []) 7

abbrev pub enable_input : ResultInput Numbered (Unit {0})
enable_input = record {
  request = enable_request;
  result_der = [];
  euicc_public_key = some tt;
  association_token = some 9;
  operation_id = 1;
  sequence_number = 0;
}

abbrev pub enable_answer : EuiccPackageResult Numbered
enable_answer = record {
  kind = kind_ok;
  signed = some (record {
    result_data = record {
      eim_id = ascii "eim";
      counter_value = 4;
      eim_transaction_id = 1 ∷ [];
      seq_number = 12;
      results = enable_data;
    };
    euicc_sign_epr = 5 ∷ 132 ∷ 1 ∷ 9 ∷ [];
  });
  error_signed = none;
  error_unsigned = none;
}

accepts_answer :
    verify_result numbered_api plain_crypto enable_input enable_answer (5 ∷ []) ≡ ok enabled
unfolding verify_result verify_kind verify_signed signature_input verify_signed_bytes
    match_signed_result operation_result package_psmo package_eco outcome_of psmo_operation_result
    result_data_by_tag result_tag tagged_result integer_operation_result integer_outcome
    map_operation_result is_result_ok only_psmo only_eco psmo_kind bytes_eq
accepts_answer = refl

verify_result-Trusted_example :
    Trusted numbered_api plain_crypto enable_input enable_answer (5 ∷ [])
verify_result-Trusted_example =
    verify_result-Trusted numbered_api plain_crypto enable_input enable_answer (5 ∷ []) enabled
      accepts_answer refl
