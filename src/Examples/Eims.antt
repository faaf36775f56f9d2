-- ===== src/Examples/Eims.antt =====
-- The theorems of the eIM associations, with a codec that writes the association token only.
use openiotrsp.Memory.Api.{Holds}
use openiotrsp.Memory.State.{associated_key_eq}
use openiotrsp.Memory.Configs.{set_associated_eim}
use openiotrsp.Common.{
  ◌≡◌, refl, true, false, Option, none, some, [], ◌∷◌, arith, if◌then◌else◌, Bytes, ascii, eq_nat,
  eq_bytes, bytes_eq, Int64, lookup, insert, encoding_error, Result, ok, err, inr,
}
use openiotrsp.Storage.Api.{live}
use openiotrsp.Examples.Data.{own_tenant, card, call_at, card_device}
use openiotrsp.Examples.Package.{clock, shown, one_profile, held}
use openiotrsp.Storage.{normalize_tenant_id}
use openiotrsp.Memory.Calls.{run, step, apply, registers, sets_associated}
use openiotrsp.Memory.Devices.{register_device}
use openiotrsp.Memory.State.{
  new_store, device_key_eq, new_device_key, Store, eq_device_key, eq_result_key, eq_profile_key,
  eq_associated_key, eq_config_key, eq_notification_key,
}
use openiotrsp.Asn1.Package.{EimConfigurationData, Eco, eco_add_eim, eco_update_eim}
use openiotrsp.EuiccPkg.Operation.{add_eim, update_eim, delete_eim, OperationKind}
use openiotrsp.EuiccPkg.Result.{
  PackageResult, no_result, eco_ok, no_package_error, no_unsigned_error,
}
use openiotrsp.EuiccPkg.Association.{EimCodec, apply_eco}
use openiotrsp.EuiccPkg.Association.Tokens.{
  add_eim_lem, update_eim_lem, delete_eim_lem, Associates, TokenBefore,
}

abbrev config_of : Option Int64 → EimConfigurationData (Unit {0})
config_of token = record {
  eim_id = ascii "eim";
  eim_fqdn = none;
  eim_id_type = none;
  counter_value = none;
  association_token = token;
  eim_public_key_data = none;
  trusted_public_key_data_tls = none;
  eim_supported_protocol = none;
  euicc_ci_pkid = none;
  indirect_profile_download = false;
  esipa_proprietary_protocol_information = none;
}

abbrev write_token : Option Int64 → Bytes
write_token none = []
write_token (some token) = token ∷ []

abbrev read_token : Bytes → Result (Option Int64)
read_token [] = ok none
read_token (token ∷ []) = ok (some token)
read_token _ = err (encoding_error [])

abbrev read_config : Result (Option Int64) → Result (EimConfigurationData (Unit {0}))
read_config (ok token) = ok (config_of token)
read_config (err e) = err e

abbrev token_codec : EimCodec (Unit {0})
token_codec = record {
  encode = λ config. ok (write_token config.association_token);
  decode = λ payload. read_config (read_token payload);
}

abbrev add_one : Eco (Unit {0})
add_one = record { operation = eco_add_eim; config = some (config_of none); eim_id = [] }

abbrev update_one : Eco (Unit {0})
update_one = record { operation = eco_update_eim; config = some (config_of none); eim_id = [] }

abbrev token_result : PackageResult (Unit {0})
token_result = record {
  succeeded = true;
  operation = OperationKind.add_eim;
  result_code = no_result;
  eco_result_code = eco_ok;
  raw_result_code = 0;
  add_eim_association_token = some 42;
  last_eim_deleted = false;
  eims = [];
  profiles = [];
  rules_authorisation_table = none;
  package_error = no_package_error;
  raw_package_error = 0;
  unsigned_package_error = no_unsigned_error;
  raw_unsigned_error = 0;
}

add_eim_example :
    (r : Store) × (apply_eco token_codec clock live own_tenant card add_eim add_one
        (some token_result)
        one_profile
      ≡ (ok tt, r))
    × Associates token_codec clock own_tenant card shown one_profile r (config_of none) (42 ∷ [])
add_eim_example =
    add_eim_lem token_codec clock own_tenant card shown one_profile add_one (config_of none)
      token_result (42 ∷ []) held refl refl

-- A device whose association holds the token 42.
abbrev with_token_stored : Store
with_token_stored =
    run
      (call_at 1 (registers card_device)
        ∷ call_at 2 (
            sets_associated (record {
              eid = card;
              eim_id = ascii "eim";
              eim_id_type = none;
              config_payload = 42 ∷ [];
            }))
        ∷ [])
      new_store

token_held : Holds own_tenant card with_token_stored
unfolding run step apply register_device set_associated_eim new_store new_device_key
    normalize_tenant_id bytes_eq lookup insert device_key_eq associated_key_eq
token_held = record {
  device = record { next_sequence = 1; next_euicc_package_counter = 1 };
  known = refl;
  distinct = tt;
  own = λ key state l. ground (arith, l);
}

holds_token :
    TokenBefore token_codec clock own_tenant card shown with_token_stored (ascii "eim") (some 42)
unfolding lookup run step set_associated_eim register_device new_store insert device_key_eq bytes_eq
    normalize_tenant_id associated_key_eq
holds_token = inr (
  record { eid = card; eim_id = ascii "eim"; eim_id_type = none; config_payload = 42 ∷ [] },
  config_of (some 42),
  refl,
  refl,
  refl,
)

update_eim_example :
    (r : Store) × (apply_eco token_codec clock live own_tenant card update_eim update_one none
        with_token_stored
      ≡ (ok tt, r))
    × Associates token_codec clock own_tenant card shown with_token_stored r
        (config_of none)
        (42 ∷ [])
update_eim_example =
    update_eim_lem token_codec clock own_tenant card shown with_token_stored update_one
      (config_of none) none (some 42) (42 ∷ []) token_held refl refl holds_token refl

delete_eim_example :
    (r : Store) × (apply_eco token_codec clock live own_tenant card delete_eim add_one none
        one_profile
      ≡ (ok tt, r))
    × shown.Ready r
    × ((j : Bytes)
        → shown.associated r j ≡ (if bytes_eq [] j then none else shown.associated one_profile j))
    × ((j : Bytes) → shown.profile r j ≡ shown.profile one_profile j)
    × (shown.euicc r ≡ shown.euicc one_profile)
delete_eim_example =
    delete_eim_lem token_codec clock own_tenant card shown one_profile add_one none held
