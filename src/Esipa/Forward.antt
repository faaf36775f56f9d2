-- ===== src/Esipa/Forward.antt =====
-- esipa/handler.go: which messages go to the relay, and what is answered then.
use openiotrsp.Asn1.Codec.{is_present}
use openiotrsp.Asn1.Esipa.{unmarshal_from_eim}
use openiotrsp.Asn1.Tlv.{Tag, context_constructed, tag_notification_list}
use openiotrsp.Common.{
  Bool, true, false, not, ◌&&◌, ◌||◌, Option, none, some, [], if◌then◌else◌, Bytes, eq_nat,
  eq_bytes, bytes_eq, on_ok, Result, ok, err, Context,
}
use openiotrsp.Asn1.Tlv.{Bertlv}
use openiotrsp.Asn1.Codec.{decode, has_tag, sole_child}
use openiotrsp.Esipa.{Response, provide_result_tlv, empty_response, unsupported_message}

-- relay.Response
pub record RelayResponse : Type 0 where
  pub payload : Bytes
  pub no_content : Bool

-- The methods of relay.Relay that the front end calls.
pub record Relay : Type 0 where
  pub can_handle_notification : Bytes → Bool
  pub initiate_authentication : Context → Bytes → Result RelayResponse
  pub authenticate_client : Context → Bytes → Result RelayResponse
  pub get_bound_profile_package : Context → Bytes → Result RelayResponse
  pub cancel_session : Context → Bytes → Result RelayResponse
  pub handle_notification : Context → Bytes → Result RelayResponse

abbrev pub tag_initiate_auth : Tag
tag_initiate_auth = context_constructed 57

abbrev pub tag_authenticate : Tag
tag_authenticate = context_constructed 59

abbrev pub tag_get_bound_package : Tag
tag_get_bound_package = context_constructed 58

abbrev pub tag_cancel_session : Tag
tag_cancel_session = context_constructed 65

abbrev pub tag_handle_notify : Tag
tag_handle_notify = context_constructed 61

module _ {Tlv : Type 0} (lib : Bertlv Tlv) where
  -- isRelayMessage
  unfoldable pub is_relay_message : Tlv → Bool
  is_relay_message tlv =
      has_tag lib tlv tag_initiate_auth
      || has_tag lib tlv tag_authenticate
      || has_tag lib tlv tag_get_bound_package
      || has_tag lib tlv tag_cancel_session
      || has_tag lib tlv tag_handle_notify

  -- isLocalHandleNotification
  unfoldable pub is_local_handle_notification : Tlv → Bool
  unfolding provide_result_tlv
  is_local_handle_notification tlv =
      let listed : Bool = elim (sole_child lib tlv) [
        | ok child ↦ has_tag lib child tag_notification_list
        | err e ↦ false
      ] in
      is_present lib (provide_result_tlv lib tlv) || (has_tag lib tlv tag_handle_notify && listed)

  -- shouldRelay, with a relay
  unfoldable pub should_relay : Relay → Tlv → Bool
  unfolding is_relay_message is_local_handle_notification
  should_relay relay tlv =
      if not (is_relay_message tlv)
      then false
      else if not (has_tag lib tlv tag_handle_notify)
      then true
      else if is_local_handle_notification tlv
      then false
      else elim (lib.marshal_binary tlv) [
        | ok payload ↦ relay.can_handle_notification payload
        | err e ↦ false
      ]

  -- relayRequestPayload
  unfoldable pub relay_request_payload : Option Bytes → Tlv → Result Bytes
  relay_request_payload (some raw) tlv = ok raw
  relay_request_payload none tlv = lib.marshal_binary tlv

  -- relayResponse
  unfoldable pub relay_response : Bytes → Result (Response Tlv)
  unfolding decode unmarshal_from_eim
  relay_response payload =
      if bytes_eq payload []
      then ok empty_response
      else on_ok (decode lib (unmarshal_from_eim lib) payload)
          (λ message. ok (record { message = message; raw = some payload }))

  -- The switch of handleRelay.
  unfoldable pub relayed : Relay → Context → Tlv → Bytes → Result RelayResponse
  relayed relay ctx tlv payload =
      if has_tag lib tlv tag_initiate_auth
      then relay.initiate_authentication ctx payload
      else if has_tag lib tlv tag_authenticate
      then relay.authenticate_client ctx payload
      else if has_tag lib tlv tag_get_bound_package
      then relay.get_bound_profile_package ctx payload
      else if has_tag lib tlv tag_cancel_session
      then relay.cancel_session ctx payload
      else if has_tag lib tlv tag_handle_notify
      then relay.handle_notification ctx payload
      else err unsupported_message

  -- handleRelay
  unfoldable pub handle_relay : Relay → Context → Option Bytes → Tlv → Result (Response Tlv)
  unfolding relay_request_payload relayed relay_response
  handle_relay relay ctx raw tlv = on_ok (relay_request_payload raw tlv) λ payload.
      on_ok (relayed relay ctx tlv payload) λ answer.
        if has_tag lib tlv tag_handle_notify || answer.no_content
        then ok empty_response
        else relay_response answer.payload
