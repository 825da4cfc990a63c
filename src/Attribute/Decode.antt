-- ===== src/Attribute/Decode.antt =====
-- The `decode_*` functions of xcesp_l2tpv3d/avp.py, and `_require_attr`.
use xcesp_l2tpv3d.Common.{ℕ, ◌%◌, false, ◌||◌, not, Option, none, some}
use xcesp_l2tpv3d.Common.{List, [], ◌∷◌, length, drop, ltb, leb, ◌==◌, if◌then◌else◌}
use xcesp_l2tpv3d.Exception.{
  Result, ok, err, ◌>>=◌, ◌>>◌, raise_if, odd_capabilities, cookie_length, wrong_attribute,
  exact_length, min_length, struct_error,
}
use xcesp_l2tpv3d.Struct.{Bytes, unpack_u16, unpack_u32, unpack_u64, unpack_from_u16}
use xcesp_l2tpv3d.Avp.{Avp, vendor_ietf}
use xcesp_l2tpv3d.Attribute.Build.{bad_cookie_length}
use xcesp_l2tpv3d.AttrType

-- `_require_attr(avp, expected_type, exact_len=..., min_len=...)`
unfoldable pub require_attr : Avp → ℕ → Option ℕ → Option ℕ → Result (Unit {0})
require_attr a expected_type exact_len min_len = do
  raise_if (not (a.vendor_id == vendor_ietf) || not (a.attribute_type == expected_type))
      wrong_attribute
  raise_if (elim exact_len [ none ↦ false | some n ↦ not (length a.value == n) ]) exact_length
  raise_if (elim min_len [ none ↦ false | some n ↦ ltb (length a.value) n ]) min_length

unfoldable pub decode_message_type : Avp → Result ℕ
unfolding require_attr
decode_message_type a = do require_attr a AttrType.message_type (some 2) none; unpack_u16 a.value

-- The error code is read where four bytes are there; the message is what follows it.
unfoldable pub error_code_of : Bytes → Result (Option ℕ × Bytes)
error_code_of val =
    if leb 4 (length val)
    then (do code ← unpack_from_u16 (drop 2 val); ok (some code, drop 4 val))
    else ok (none, [])

unfoldable pub decode_result_code : Avp → Result (ℕ × Option ℕ × Bytes)
unfolding require_attr error_code_of
decode_result_code a = do
  require_attr a AttrType.result_code none (some 2)
  result ← unpack_from_u16 a.value
  (error_code, error_message) ← error_code_of a.value
  ok (result, error_code, error_message)

unfoldable pub decode_router_id : Avp → Result ℕ
unfolding require_attr
decode_router_id a = do require_attr a AttrType.router_id (some 4) none; unpack_u32 a.value

-- `[struct.unpack_from("!H", avp.value, i)[0] for i in range(0, len(avp.value), 2)]`
unfoldable pub unpack_capabilities : Bytes → Result (List ℕ)
unpack_capabilities [] = ok []
unpack_capabilities (a ∷ []) = err struct_error
unpack_capabilities (a ∷ b ∷ rest) = do
  first ← unpack_from_u16 (a ∷ b ∷ rest)
  more ← unpack_capabilities rest
  ok (first ∷ more)

unfoldable pub decode_pseudowire_capabilities_list : Avp → Result (List ℕ)
unfolding require_attr
decode_pseudowire_capabilities_list a = do
  require_attr a AttrType.pseudowire_capabilities_list none (some 2)
  raise_if (not (length a.value % 2 == 0)) odd_capabilities
  unpack_capabilities a.value

unfoldable pub decode_control_message_auth_nonce : Avp → Result Bytes
unfolding require_attr
decode_control_message_auth_nonce a = do
  require_attr a AttrType.ctl_msg_auth_nonce none (some 1)
  ok a.value

unfoldable pub decode_assigned_control_connection_id : Avp → Result ℕ
unfolding require_attr
decode_assigned_control_connection_id a = do
  require_attr a AttrType.assigned_control_connection_id (some 4) none
  unpack_u32 a.value

unfoldable pub decode_host_name : Avp → Result Bytes
unfolding require_attr
decode_host_name a = do require_attr a AttrType.host_name none (some 0); ok a.value

unfoldable pub decode_receive_window_size : Avp → Result ℕ
unfolding require_attr
decode_receive_window_size a = do
  require_attr a AttrType.receive_window_size (some 2) none
  unpack_u16 a.value

unfoldable pub decode_local_session_id : Avp → Result ℕ
unfolding require_attr
decode_local_session_id a = do
  require_attr a AttrType.local_session_id (some 4) none
  unpack_u32 a.value

unfoldable pub decode_remote_session_id : Avp → Result ℕ
unfolding require_attr
decode_remote_session_id a = do
  require_attr a AttrType.remote_session_id (some 4) none
  unpack_u32 a.value

unfoldable pub decode_pseudowire_type : Avp → Result ℕ
unfolding require_attr
decode_pseudowire_type a = do
  require_attr a AttrType.pseudowire_type (some 2) none
  unpack_u16 a.value

unfoldable pub decode_l2_specific_sublayer : Avp → Result ℕ
unfolding require_attr
decode_l2_specific_sublayer a = do
  require_attr a AttrType.l2_specific_sublayer (some 2) none
  unpack_u16 a.value

unfoldable pub decode_data_sequencing : Avp → Result ℕ
unfolding require_attr
decode_data_sequencing a = do
  require_attr a AttrType.data_sequencing (some 2) none
  unpack_u16 a.value

unfoldable pub decode_circuit_status : Avp → Result ℕ
unfolding require_attr
decode_circuit_status a = do
  require_attr a AttrType.circuit_status (some 2) none
  unpack_u16 a.value

unfoldable pub decode_assigned_cookie : Avp → Result Bytes
unfolding require_attr
decode_assigned_cookie a = do
  require_attr a AttrType.assigned_cookie none none
  raise_if (bad_cookie_length (length a.value)) cookie_length
  ok a.value

unfoldable pub decode_remote_end_id : Avp → Result Bytes
unfolding require_attr
decode_remote_end_id a = do require_attr a AttrType.remote_end_id none none; ok a.value

unfoldable pub decode_tx_connect_speed : Avp → Result ℕ
unfolding require_attr
decode_tx_connect_speed a = do
  require_attr a AttrType.tx_connect_speed (some 8) none
  unpack_u64 a.value

unfoldable pub decode_rx_connect_speed : Avp → Result ℕ
unfolding require_attr
decode_rx_connect_speed a = do
  require_attr a AttrType.rx_connect_speed (some 8) none
  unpack_u64 a.value
