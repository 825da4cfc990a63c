-- ===== src/Attribute/Errors.antt =====
-- The decoders of typed AVPs raise nothing but `ValueError`, whatever AVP they are given.
use xcesp_l2tpv3d.Common.{◌%◌, ◌≤◌, ◌≡◌, arith}
use xcesp_l2tpv3d.Common.{[], ◌∷◌, length, drop, length-drop}
use xcesp_l2tpv3d.Exception.{OnlyValueError, OnlyValueError-bind, Safe}
use xcesp_l2tpv3d.Struct.{Bytes, unpack_u16, unpack_u32, unpack_u64, unpack_from_u16}
use xcesp_l2tpv3d.Avp.{Avp}
use xcesp_l2tpv3d.Attribute.Decode

unpack_u16_fits : (bs : Bytes) → length bs ≡ 2 → OnlyValueError (unpack_u16 bs)
unfolding unpack_u16
unpack_u16_fits (a ∷ b ∷ []) h = tt
unpack_u16_fits _ h = absurd (omega arith)

unpack_u32_fits : (bs : Bytes) → length bs ≡ 4 → OnlyValueError (unpack_u32 bs)
unfolding unpack_u32
unpack_u32_fits (a ∷ b ∷ c ∷ d ∷ []) h = tt
unpack_u32_fits _ h = absurd (omega arith)

unpack_u64_fits : (bs : Bytes) → length bs ≡ 8 → OnlyValueError (unpack_u64 bs)
unfolding unpack_u64
unpack_u64_fits (a ∷ b ∷ c ∷ d ∷ e ∷ f ∷ g ∷ h ∷ []) n = tt
unpack_u64_fits _ n = absurd (omega arith)

unpack_from_u16_fits : (bs : Bytes) → 2 ≤ length bs → OnlyValueError (unpack_from_u16 bs)
unfolding unpack_from_u16
unpack_from_u16_fits (a ∷ b ∷ rest) h = tt
unpack_from_u16_fits _ h = absurd (omega arith)

unpack_capabilities_fits :
    (bs : Bytes) → length bs % 2 ≡ 0 → OnlyValueError (Decode.unpack_capabilities bs)
unfolding Decode.unpack_capabilities unpack_from_u16
unpack_capabilities_fits [] h = tt
unpack_capabilities_fits (a ∷ []) h = absurd (omega arith)
unpack_capabilities_fits (a ∷ b ∷ rest) h =
    OnlyValueError-bind (Decode.unpack_capabilities rest) _
      (unpack_capabilities_fits rest (omega arith)) (λ more e. tt)

module _ (a : Avp) where
  decode_message_type-OnlyValueError : OnlyValueError (Decode.decode_message_type a)
  unfolding Decode.decode_message_type
  decode_message_type-OnlyValueError = ground (arith, unpack_u16_fits a.value)

  decode_pseudowire_type-OnlyValueError : OnlyValueError (Decode.decode_pseudowire_type a)
  unfolding Decode.decode_pseudowire_type
  decode_pseudowire_type-OnlyValueError = ground (arith, unpack_u16_fits a.value)

  decode_l2_specific_sublayer-OnlyValueError : OnlyValueError (Decode.decode_l2_specific_sublayer a)
  unfolding Decode.decode_l2_specific_sublayer
  decode_l2_specific_sublayer-OnlyValueError = ground (arith, unpack_u16_fits a.value)

  decode_data_sequencing-OnlyValueError : OnlyValueError (Decode.decode_data_sequencing a)
  unfolding Decode.decode_data_sequencing
  decode_data_sequencing-OnlyValueError = ground (arith, unpack_u16_fits a.value)

  decode_circuit_status-OnlyValueError : OnlyValueError (Decode.decode_circuit_status a)
  unfolding Decode.decode_circuit_status
  decode_circuit_status-OnlyValueError = ground (arith, unpack_u16_fits a.value)

  decode_receive_window_size-OnlyValueError : OnlyValueError (Decode.decode_receive_window_size a)
  unfolding Decode.decode_receive_window_size
  decode_receive_window_size-OnlyValueError = ground (arith, unpack_u16_fits a.value)

  decode_router_id-OnlyValueError : OnlyValueError (Decode.decode_router_id a)
  unfolding Decode.decode_router_id
  decode_router_id-OnlyValueError = ground (arith, unpack_u32_fits a.value)

  decode_assigned_control_connection_id-OnlyValueError :
      OnlyValueError (Decode.decode_assigned_control_connection_id a)
  unfolding Decode.decode_assigned_control_connection_id
  decode_assigned_control_connection_id-OnlyValueError = ground (arith, unpack_u32_fits a.value)

  decode_local_session_id-OnlyValueError : OnlyValueError (Decode.decode_local_session_id a)
  unfolding Decode.decode_local_session_id
  decode_local_session_id-OnlyValueError = ground (arith, unpack_u32_fits a.value)

  decode_remote_session_id-OnlyValueError : OnlyValueError (Decode.decode_remote_session_id a)
  unfolding Decode.decode_remote_session_id
  decode_remote_session_id-OnlyValueError = ground (arith, unpack_u32_fits a.value)

  decode_tx_connect_speed-OnlyValueError : OnlyValueError (Decode.decode_tx_connect_speed a)
  unfolding Decode.decode_tx_connect_speed
  decode_tx_connect_speed-OnlyValueError = ground (arith, unpack_u64_fits a.value)

  decode_rx_connect_speed-OnlyValueError : OnlyValueError (Decode.decode_rx_connect_speed a)
  unfolding Decode.decode_rx_connect_speed
  decode_rx_connect_speed-OnlyValueError = ground (arith, unpack_u64_fits a.value)

  decode_assigned_cookie-OnlyValueError : OnlyValueError (Decode.decode_assigned_cookie a)
  unfolding Decode.decode_assigned_cookie
  decode_assigned_cookie-OnlyValueError = ground arith

  decode_remote_end_id-OnlyValueError : OnlyValueError (Decode.decode_remote_end_id a)
  unfolding Decode.decode_remote_end_id
  decode_remote_end_id-OnlyValueError = ground arith

  decode_host_name-OnlyValueError : OnlyValueError (Decode.decode_host_name a)
  unfolding Decode.decode_host_name
  decode_host_name-OnlyValueError = ground arith

  decode_control_message_auth_nonce-OnlyValueError :
      OnlyValueError (Decode.decode_control_message_auth_nonce a)
  unfolding Decode.decode_control_message_auth_nonce
  decode_control_message_auth_nonce-OnlyValueError = ground arith

  decode_pseudowire_capabilities_list-OnlyValueError :
      OnlyValueError (Decode.decode_pseudowire_capabilities_list a)
  unfolding Decode.decode_pseudowire_capabilities_list
  decode_pseudowire_capabilities_list-OnlyValueError =
      ground (arith, unpack_capabilities_fits a.value)

  decode_result_code-OnlyValueError : OnlyValueError (Decode.decode_result_code a)
  unfolding Decode.decode_result_code
  decode_result_code-OnlyValueError = ground (
    arith,
    unpack_from_u16_fits a.value,
    unpack_from_u16_fits (drop 2 a.value),
    length-drop 2 a.value,
  )

pub decode_message_type-Safe : (a : Avp) → Safe (Decode.decode_message_type a)
decode_message_type-Safe a = record { only = decode_message_type-OnlyValueError a }

pub decode_pseudowire_type-Safe : (a : Avp) → Safe (Decode.decode_pseudowire_type a)
decode_pseudowire_type-Safe a = record { only = decode_pseudowire_type-OnlyValueError a }

pub decode_l2_specific_sublayer-Safe : (a : Avp) → Safe (Decode.decode_l2_specific_sublayer a)
decode_l2_specific_sublayer-Safe a = record { only = decode_l2_specific_sublayer-OnlyValueError a }

pub decode_data_sequencing-Safe : (a : Avp) → Safe (Decode.decode_data_sequencing a)
decode_data_sequencing-Safe a = record { only = decode_data_sequencing-OnlyValueError a }

pub decode_circuit_status-Safe : (a : Avp) → Safe (Decode.decode_circuit_status a)
decode_circuit_status-Safe a = record { only = decode_circuit_status-OnlyValueError a }

pub decode_receive_window_size-Safe : (a : Avp) → Safe (Decode.decode_receive_window_size a)
decode_receive_window_size-Safe a = record { only = decode_receive_window_size-OnlyValueError a }

pub decode_router_id-Safe : (a : Avp) → Safe (Decode.decode_router_id a)
decode_router_id-Safe a = record { only = decode_router_id-OnlyValueError a }

pub decode_assigned_control_connection_id-Safe :
    (a : Avp) → Safe (Decode.decode_assigned_control_connection_id a)
decode_assigned_control_connection_id-Safe a = record {
  only = decode_assigned_control_connection_id-OnlyValueError a;
}

pub decode_local_session_id-Safe : (a : Avp) → Safe (Decode.decode_local_session_id a)
decode_local_session_id-Safe a = record { only = decode_local_session_id-OnlyValueError a }

pub decode_remote_session_id-Safe : (a : Avp) → Safe (Decode.decode_remote_session_id a)
decode_remote_session_id-Safe a = record { only = decode_remote_session_id-OnlyValueError a }

pub decode_tx_connect_speed-Safe : (a : Avp) → Safe (Decode.decode_tx_connect_speed a)
decode_tx_connect_speed-Safe a = record { only = decode_tx_connect_speed-OnlyValueError a }

pub decode_rx_connect_speed-Safe : (a : Avp) → Safe (Decode.decode_rx_connect_speed a)
decode_rx_connect_speed-Safe a = record { only = decode_rx_connect_speed-OnlyValueError a }

pub decode_assigned_cookie-Safe : (a : Avp) → Safe (Decode.decode_assigned_cookie a)
decode_assigned_cookie-Safe a = record { only = decode_assigned_cookie-OnlyValueError a }

pub decode_remote_end_id-Safe : (a : Avp) → Safe (Decode.decode_remote_end_id a)
decode_remote_end_id-Safe a = record { only = decode_remote_end_id-OnlyValueError a }

pub decode_host_name-Safe : (a : Avp) → Safe (Decode.decode_host_name a)
decode_host_name-Safe a = record { only = decode_host_name-OnlyValueError a }

pub decode_control_message_auth_nonce-Safe :
    (a : Avp) → Safe (Decode.decode_control_message_auth_nonce a)
decode_control_message_auth_nonce-Safe a = record {
  only = decode_control_message_auth_nonce-OnlyValueError a;
}

pub decode_pseudowire_capabilities_list-Safe :
    (a : Avp) → Safe (Decode.decode_pseudowire_capabilities_list a)
decode_pseudowire_capabilities_list-Safe a = record {
  only = decode_pseudowire_capabilities_list-OnlyValueError a;
}

pub decode_result_code-Safe : (a : Avp) → Safe (Decode.decode_result_code a)
decode_result_code-Safe a = record { only = decode_result_code-OnlyValueError a }

pub ruleset decoder_rules = (
  decode_message_type-Safe, decode_pseudowire_type-Safe, decode_l2_specific_sublayer-Safe,
  decode_data_sequencing-Safe, decode_circuit_status-Safe, decode_receive_window_size-Safe,
  decode_router_id-Safe, decode_assigned_control_connection_id-Safe, decode_local_session_id-Safe,
  decode_remote_session_id-Safe, decode_tx_connect_speed-Safe, decode_rx_connect_speed-Safe,
  decode_assigned_cookie-Safe, decode_remote_end_id-Safe, decode_host_name-Safe,
  decode_control_message_auth_nonce-Safe, decode_pseudowire_capabilities_list-Safe,
  decode_result_code-Safe,
)
