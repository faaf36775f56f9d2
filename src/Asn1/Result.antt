-- ===== src/Asn1/Result.antt =====
-- asn1/result.go: the decoded forms of package results. `Tlv` stands for the objects of the bertlv
-- library.
pub mod Decode
pub mod Values
use openiotrsp.Common.{Bool, Option, List, Bytes, eq_nat, eq_bytes, Int64}

-- EuiccResultData: the raw object, where there is one.
abbrev pub EuiccResultData : Type 0 → Type 0
EuiccResultData Tlv = Option Tlv

pub data EuiccPackageResultKind : Type 0 where
  kind_ok kind_error_signed kind_error_unsigned : EuiccPackageResultKind
  kind_other : Int64 → EuiccPackageResultKind

pub record EuiccPackageErrorDataSigned : Type 0 where
  pub eim_id : Bytes
  pub counter_value : Int64
  pub eim_transaction_id : Bytes
  pub error_code : Int64

pub record EuiccPackageErrorSigned : Type 0 where
  pub error_data : EuiccPackageErrorDataSigned
  pub euicc_sign_epe : Bytes

pub record EuiccPackageErrorUnsigned : Type 0 where
  pub eim_id : Bytes
  pub eim_transaction_id : Bytes
  pub association_token : Option Int64
  pub error_code : Option Int64

module _ (Tlv : Type 0) where
  pub record EuiccPackageResultDataSigned : Type 0 where
    pub eim_id : Bytes
    pub counter_value : Int64
    pub eim_transaction_id : Bytes
    pub seq_number : Int64
    pub results : List (EuiccResultData Tlv)

  pub record EuiccPackageResultSigned : Type 0 where
    pub result_data : EuiccPackageResultDataSigned
    pub euicc_sign_epr : Bytes

  pub record EuiccPackageResult : Type 0 where
    pub kind : EuiccPackageResultKind
    pub signed : Option EuiccPackageResultSigned
    pub error_signed : Option EuiccPackageErrorSigned
    pub error_unsigned : Option EuiccPackageErrorUnsigned

-- ProfileInfo, as it is decoded. Its state is an integer, 1 for enabled.
pub record DecodedProfile : Type 0 where
  pub iccid : Bytes
  pub profile_state : Option Int64
  pub fallback_attribute : Bool

pub record ProfileInfoListResponse : Type 0 where
  pub profiles : List DecodedProfile
  pub list_error : Option Int64

pub record AddEimResult : Type 0 where
  pub association_token : Option Int64
  pub code : Option Int64

pub record EimIdInfo : Type 0 where
  pub eim_id : Bytes
  pub eim_id_type : Option Int64

pub record ListEimResult : Type 0 where
  pub eim_id_list : List EimIdInfo
  pub list_error : Option Int64
