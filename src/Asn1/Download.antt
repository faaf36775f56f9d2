-- ===== src/Asn1/Download.antt =====
-- asn1/result.go: profile download triggers.
use openiotrsp.Common.{
  Option, none, some, List, [], ◌∷◌, ◌++◌, if◌then◌else◌, Bytes, ascii, eq_nat, eq_bytes, Int64,
  on_ok, encoding_error, Result, ok, err,
}
use openiotrsp.Prelude.Fallible.{◌>>=◌, ◌>>◌, optional}
use openiotrsp.Asn1.Codec.{
  unexpected_tag, has_tag, expect_tag, octet_tlv, null_tlv, optional_value, sole_child, field,
  field_result,
}
use openiotrsp.Asn1.Tlv.{
  Bertlv, eq_tag, context_primitive, context_constructed, tag_utf8, tag_download_trig,
}

pub data ProfileDownloadDataKind : Type 0 where
  download_activation_code download_contact_default_smdp : ProfileDownloadDataKind
  download_contact_smds : ProfileDownloadDataKind
  download_unknown : Int64 → ProfileDownloadDataKind

pub record ProfileDownloadData : Type 0 where
  pub kind : ProfileDownloadDataKind
  pub activation_code : Bytes
  pub smds_address : Option Bytes

pub record ProfileDownloadTriggerRequest : Type 0 where
  pub profile_download_data : Option ProfileDownloadData
  pub eim_transaction_id : Option Bytes

module _ {Tlv : Type 0} (lib : Bertlv Tlv) where
  -- ProfileDownloadData.MarshalBERTLV, by the kind
  unfoldable pub marshal_download_kind : ProfileDownloadDataKind → ProfileDownloadData → Result Tlv
  marshal_download_kind download_activation_code d =
      ok (octet_tlv lib (context_primitive 0) d.activation_code)
  marshal_download_kind download_contact_default_smdp d = ok (null_tlv lib (context_primitive 1))
  marshal_download_kind download_contact_smds d =
      ok (lib.new_children (context_constructed 2) (field (octet_tlv lib tag_utf8) d.smds_address))
  marshal_download_kind (download_unknown _) d =
      err (encoding_error (ascii "unknown ProfileDownloadData kind"))

  unfoldable pub marshal_profile_download_data : ProfileDownloadData → Result Tlv
  unfolding marshal_download_kind
  marshal_profile_download_data d = marshal_download_kind d.kind d

  abbrev pub first_value : List Tlv → Option Bytes
  first_value [] = none
  first_value (child ∷ _) = some (lib.value child)

  -- ProfileDownloadData.UnmarshalBERTLV
  unfoldable pub unmarshal_profile_download_data : Tlv → Result ProfileDownloadData
  unmarshal_profile_download_data tlv =
      if has_tag lib tlv (context_primitive 0)
      then ok (record {
        kind = download_activation_code;
        activation_code = lib.value tlv;
        smds_address = none;
      })
      else if has_tag lib tlv (context_primitive 1)
      then ok (record {
        kind = download_contact_default_smdp;
        activation_code = [];
        smds_address = none;
      })
      else if has_tag lib tlv (context_constructed 2)
      then ok (record {
        kind = download_contact_smds;
        activation_code = [];
        smds_address = first_value (lib.children tlv);
      })
      else err unexpected_tag

  -- ProfileDownloadTriggerRequest.MarshalBERTLV
  unfoldable pub marshal_download_trigger_request : ProfileDownloadTriggerRequest → Result Tlv
  unfolding marshal_profile_download_data
  marshal_download_trigger_request r = do
    data_child ←
        field_result
          (λ d.
            on_ok (marshal_profile_download_data d)
              (λ child. ok (lib.new_children (context_constructed 0) (child ∷ []))))
          r.profile_download_data
    ok (
        lib.new_children tag_download_trig
          (data_child ++ field (octet_tlv lib (context_primitive 2)) r.eim_transaction_id))

  -- ProfileDownloadTriggerRequest.UnmarshalBERTLV
  unfoldable pub unmarshal_download_trigger_request : Tlv → Result ProfileDownloadTriggerRequest
  unfolding unmarshal_profile_download_data
  unmarshal_download_trigger_request tlv = do
    expect_tag lib tlv tag_download_trig
    found ←
        optional (λ wrapper. on_ok (sole_child lib wrapper) unmarshal_profile_download_data)
          (lib.first tlv (context_constructed 0))
    ok (record {
      profile_download_data = found;
      eim_transaction_id = optional_value lib (lib.first tlv (context_primitive 2));
    })
