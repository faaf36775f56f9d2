-- ===== src/EuiccPkg/Association.antt =====
-- euiccpkg/state.go: the effects of a successful package on the eIM associations of a device, and
-- the effects of a whole package.
pub mod Tokens
pub mod Survival
use openiotrsp.Common.{
  ◌-◌, ◌/◌, Option, none, some, arith, Bytes, eq_nat, eq_bytes, Int64, not_found, signature_invalid,
  transaction_mismatch, counter_mismatch, result_not_found, context_error, invalid_input,
  encoding_error, Result, ok, err, Context, Action, pure, lift, ◌>>=◌, ◌>>◌,
}
use openiotrsp.Storage.{TenantId, AssociatedEim}
use openiotrsp.Storage.Api.{StoreApi}
use openiotrsp.Asn1.Package.{EuiccPackage, Eco, EimConfigurationData}
use openiotrsp.EuiccPkg.Operation.{OperationKind, package_eco, add_eim, update_eim, delete_eim}
use openiotrsp.EuiccPkg.Result.{PackageResult}
use openiotrsp.EuiccPkg.State.{or_missing, apply_psmo_state}

-- The codec of asn1 as this package calls it: Encode and Decode of an eIM configuration.
pub record EimCodec (Tlv : Type 0) : Type 0 where
  pub encode : EimConfigurationData Tlv → Result Bytes
  pub decode : Bytes → Result (EimConfigurationData Tlv)

module _ {Tlv : Type 0} (codec : EimCodec Tlv) where
  -- The token of a stored association; a missing association or a missing token is no token.
  unfoldable pub stored_token : Result AssociatedEim → Result (Option Int64)
  stored_token (ok associated) = elim (codec.decode associated.config_payload) [
    | ok config ↦ ok config.association_token
    | err e ↦ err e
  ]
  stored_token (err not_found) = ok none
  stored_token (err signature_invalid) = err signature_invalid
  stored_token (err transaction_mismatch) = err transaction_mismatch
  stored_token (err counter_mismatch) = err counter_mismatch
  stored_token (err result_not_found) = err result_not_found
  stored_token (err (context_error e)) = err (context_error e)
  stored_token (err (invalid_input e)) = err (invalid_input e)
  stored_token (err (encoding_error e)) = err (encoding_error e)

  -- associatedEIMFromConfig
  unfoldable pub associated_eim_from_config :
      Bytes → EimConfigurationData Tlv → Result AssociatedEim
  associated_eim_from_config eid config = elim (codec.encode config) [
    | err e ↦ err e
    | ok payload ↦ ok (record {
      eid = eid;
      eim_id = config.eim_id;
      eim_id_type = config.eim_id_type;
      config_payload = payload;
    })
  ]

-- addEim: the token that the eUICC returned replaces that of the configuration.
unfoldable pub with_returned_token :
    {Tlv : Type 0}
    → EimConfigurationData Tlv
    → Option (PackageResult Tlv)
    → EimConfigurationData Tlv
with_returned_token config none = config
with_returned_token config (some result) = elim result.add_eim_association_token [
  | none ↦ config
  | some token ↦ record config { association_token = some token }
]

-- updateEim: a token that is stored fills in for a missing one.
unfoldable pub with_stored_token :
    {Tlv : Type 0} → EimConfigurationData Tlv → Option Int64 → EimConfigurationData Tlv
with_stored_token config none = config
with_stored_token config (some token) = record config { association_token = some token }

module _ {S : Type 0} {Tlv : Type 0} (codec : EimCodec Tlv) (api : StoreApi S) (ctx : Context)
    (t : TenantId) (eid : Bytes) where
  -- existingAssociationToken
  unfoldable pub existing_association_token : Bytes → Action S (Option Int64)
  unfolding stored_token
  existing_association_token eim_id s =
      let (associated, r) = api.get_associated_eim ctx t eid eim_id s in
      (stored_token codec associated, r)

  -- The end of the addEim and updateEim case of applyECOState.
  unfoldable pub associate : EimConfigurationData Tlv → Action S (Unit {0})
  unfolding associated_eim_from_config
  associate config = do
    associated ← lift (associated_eim_from_config codec eid config)
    api.set_associated_eim ctx t associated

  unfoldable pub update_association : EimConfigurationData Tlv → Action S (Unit {0})
  unfolding existing_association_token associate with_stored_token
  update_association config = elim config.association_token [
    | some _ ↦ associate config
    | none ↦ existing_association_token config.eim_id >>= λ token.
        associate (with_stored_token config token)
  ]

  -- The switch of applyECOState.
  unfoldable pub apply_eco :
      OperationKind → Eco Tlv → Option (PackageResult Tlv) → Action S (Unit {0})
  unfolding associate update_association with_returned_token
  apply_eco add_eim eco result = elim eco.config [
    | none ↦ pure tt
    | some config ↦ associate (with_returned_token config result)
  ]
  apply_eco update_eim eco result = elim eco.config [
    | none ↦ pure tt
    | some config ↦ update_association config
  ]
  apply_eco delete_eim eco result = or_missing tt (api.delete_associated_eim ctx t eid eco.eim_id)
  apply_eco _ eco result = pure tt

  -- applyECOState
  unfoldable pub apply_eco_state :
      EuiccPackage Tlv → Option (PackageResult Tlv) → Action S (Unit {0})
  unfolding package_eco apply_eco
  apply_eco_state pkg result =
      let (operation, found) = package_eco pkg in
      elim found [ none ↦ pure tt | some eco ↦ apply_eco operation eco result ]

  -- ApplyPackageState without a result, ApplyPackageResultState with one
  unfoldable pub apply_package_state :
      EuiccPackage Tlv → Option (PackageResult Tlv) → Action S (Unit {0})
  unfolding apply_psmo_state apply_eco_state
  apply_package_state pkg result =
      apply_psmo_state api ctx t eid pkg result >> apply_eco_state pkg result
