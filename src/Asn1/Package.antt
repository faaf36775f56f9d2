-- ===== src/Asn1/Package.antt =====
-- asn1/euicc_package.go: eUICC packages. `Tlv` stands for the BER-TLV objects of the bertlv
-- library, which the package effects carry along and never look into.
pub mod Decode
pub mod Encode
use openiotrsp.Common.{ℕ, Bool, Option, List, Bytes, eq_nat, eq_bytes, Int64}

-- The operations are Go integers; the last constructor is any other one.
pub data EcoOperation : Type 0 where
  eco_add_eim eco_delete_eim eco_update_eim eco_list_eim : EcoOperation
  eco_unknown : Int64 → EcoOperation

pub data PsmoOperation : Type 0 where
  psmo_enable psmo_disable psmo_delete psmo_list_profile_info psmo_get_rat : PsmoOperation
  psmo_configure_immediate_enable psmo_set_fallback_attribute : PsmoOperation
  psmo_unset_fallback_attribute psmo_set_default_dp_address : PsmoOperation
  psmo_unknown : Int64 → PsmoOperation

pub data EuiccPackageKind : Type 0 where
  kind_psmo kind_eco : EuiccPackageKind
  kind_unknown : Int64 → EuiccPackageKind

module _ (Tlv : Type 0) where
  pub record X509Choice : Type 0 where
    pub kind : Int64
    pub choice_data : Option Tlv

  -- A pointer field is an option.
  pub record EimConfigurationData : Type 0 where
    pub eim_id : Bytes
    pub eim_fqdn : Option Bytes
    pub eim_id_type : Option Int64
    pub counter_value : Option Int64
    pub association_token : Option Int64
    pub eim_public_key_data : Option X509Choice
    pub trusted_public_key_data_tls : Option X509Choice
    pub eim_supported_protocol : Option (List Bool)
    pub euicc_ci_pkid : Option Bytes
    pub indirect_profile_download : Bool
    pub esipa_proprietary_protocol_information : Option Tlv

  pub record Eco : Type 0 where
    pub operation : EcoOperation
    pub config : Option EimConfigurationData
    pub eim_id : Bytes

  pub record ConfigureImmediateEnable : Type 0 where
    pub immediate_enable_flag : Bool
    pub default_smdp_oid : List ℕ
    pub default_smdp_address : Option Bytes

  pub record Psmo : Type 0 where
    pub operation : PsmoOperation
    pub iccid : Bytes
    pub rollback_flag : Bool
    pub profile_info_list_request : Option Tlv
    pub immediate_enable : Option ConfigureImmediateEnable
    pub set_default_dp_address : Option Bytes

  pub record EuiccPackage : Type 0 where
    pub kind : EuiccPackageKind
    pub psmos : List Psmo
    pub ecos : List Eco

  pub record EuiccPackageSigned : Type 0 where
    pub eim_id : Bytes
    pub eid : Bytes
    pub counter_value : Int64
    pub eim_transaction_id : Option Bytes
    pub euicc_package : EuiccPackage

  pub record EuiccPackageRequest : Type 0 where
    pub euicc_package_signed : EuiccPackageSigned
    pub eim_signature : Bytes
