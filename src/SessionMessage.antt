-- ===== src/SessionMessage.antt =====
-- The session-level messages of xcesp_l2tpv3d/messages.py: the AVP lists of ICRQ, ICRP, ICCN and CDN,
-- and the functions that take such lists apart.
pub mod Find
pub mod Tail
pub mod Call
pub mod Icrq
pub mod Icrp
pub mod Iccn
pub mod Cdn
pub mod Errors
use xcesp_l2tpv3d.Common.{ℕ, Option, none, some}
use xcesp_l2tpv3d.Common.{List, [], ◌∷◌}
use xcesp_l2tpv3d.Exception.{Result, ok, ◌>>=◌, missing_local_session_id, missing_result_code}
use xcesp_l2tpv3d.Struct.{Bytes}
use xcesp_l2tpv3d.Avp.{Avp}
use xcesp_l2tpv3d.AttrType
use xcesp_l2tpv3d.MessageType
use xcesp_l2tpv3d.Attribute.Build.{
  build_message_type, build_local_session_id, build_remote_session_id, build_pseudowire_type,
  build_l2_specific_sublayer, build_data_sequencing, build_circuit_status, build_remote_end_id,
  build_assigned_cookie, build_tx_connect_speed, build_rx_connect_speed, build_result_code,
}
use xcesp_l2tpv3d.Attribute.Decode.{
  decode_local_session_id, decode_remote_session_id, decode_pseudowire_type,
  decode_l2_specific_sublayer, decode_data_sequencing, decode_circuit_status,
  decode_assigned_cookie, decode_remote_end_id, decode_tx_connect_speed, decode_rx_connect_speed,
  decode_result_code,
}
use xcesp_l2tpv3d.TunnelMessage.{append_optional, find_ietf, required, optional_field}

-- The keyword arguments that the session-level builders share.
pub record CallArgs : Type 0 where
  pub l2_specific_sublayer : ℕ
  pub data_sequencing : ℕ
  pub circuit_status : ℕ
  pub assigned_cookie : Option Bytes
  pub tx_connect_speed : Option ℕ
  pub rx_connect_speed : Option ℕ

unfoldable pub build_icrq_avps : ℕ → ℕ → Option Bytes → CallArgs → Result (List Avp)
build_icrq_avps local_sid pseudowire_type remote_end_id args = do
  mt ← build_message_type MessageType.icrq
  local ← build_local_session_id local_sid
  remote ← build_remote_session_id 0
  pw ← build_pseudowire_type pseudowire_type
  l2s ← build_l2_specific_sublayer args.l2_specific_sublayer
  ds ← build_data_sequencing args.data_sequencing
  cs ← build_circuit_status args.circuit_status
  avps ←
      append_optional (λ e. ok (build_remote_end_id e)) remote_end_id
        (mt ∷ local ∷ remote ∷ pw ∷ l2s ∷ ds ∷ cs ∷ [])
  avps ← append_optional build_assigned_cookie args.assigned_cookie avps
  avps ← append_optional build_tx_connect_speed args.tx_connect_speed avps
  append_optional build_rx_connect_speed args.rx_connect_speed avps

unfoldable pub build_icrp_avps : ℕ → ℕ → CallArgs → Result (List Avp)
build_icrp_avps local_sid remote_sid args = do
  mt ← build_message_type MessageType.icrp
  local ← build_local_session_id local_sid
  remote ← build_remote_session_id remote_sid
  l2s ← build_l2_specific_sublayer args.l2_specific_sublayer
  ds ← build_data_sequencing args.data_sequencing
  cs ← build_circuit_status args.circuit_status
  avps ←
      append_optional build_assigned_cookie args.assigned_cookie
        (mt ∷ local ∷ remote ∷ l2s ∷ ds ∷ cs ∷ [])
  avps ← append_optional build_tx_connect_speed args.tx_connect_speed avps
  append_optional build_rx_connect_speed args.rx_connect_speed avps

-- `build_iccn_avps` takes no cookie.
unfoldable pub build_iccn_avps : ℕ → ℕ → CallArgs → Result (List Avp)
build_iccn_avps local_sid remote_sid args = do
  mt ← build_message_type MessageType.iccn
  local ← build_local_session_id local_sid
  remote ← build_remote_session_id remote_sid
  l2s ← build_l2_specific_sublayer args.l2_specific_sublayer
  ds ← build_data_sequencing args.data_sequencing
  cs ← build_circuit_status args.circuit_status
  avps ←
      append_optional build_tx_connect_speed args.tx_connect_speed
        (mt ∷ local ∷ remote ∷ l2s ∷ ds ∷ cs ∷ [])
  append_optional build_rx_connect_speed args.rx_connect_speed avps

unfoldable pub build_cdn_avps : ℕ → ℕ → ℕ → Option ℕ → Bytes → Result (List Avp)
build_cdn_avps local_sid remote_sid result_code error_code error_message = do
  mt ← build_message_type MessageType.cdn
  local ← build_local_session_id local_sid
  remote ← build_remote_session_id remote_sid
  result ← build_result_code result_code error_code error_message
  ok (mt ∷ local ∷ remote ∷ result ∷ [])

pub record SessionFields : Type 0 where
  pub local_sid : ℕ
  pub remote_sid : ℕ
  pub pseudowire_type : Option ℕ
  pub l2_specific_sublayer : Option ℕ
  pub data_sequencing : Option ℕ
  pub circuit_status : Option ℕ
  pub assigned_cookie : Option Bytes
  pub remote_end_id : Option Bytes
  pub tx_connect_speed : Option ℕ
  pub rx_connect_speed : Option ℕ

-- `decode_remote_session_id(remote_avp) if remote_avp else 0`
abbrev pub remote_sid_of : Option Avp → Result ℕ
remote_sid_of none = ok 0
remote_sid_of (some a) = decode_remote_session_id a

unfoldable pub parse_session_fields : List Avp → Result SessionFields
parse_session_fields avps = do
  local_avp ← required (find_ietf avps AttrType.local_session_id) missing_local_session_id
  local_sid ← decode_local_session_id local_avp
  remote_sid ← remote_sid_of (find_ietf avps AttrType.remote_session_id)
  pw ← optional_field decode_pseudowire_type (find_ietf avps AttrType.pseudowire_type)
  l2s ← optional_field decode_l2_specific_sublayer (find_ietf avps AttrType.l2_specific_sublayer)
  ds ← optional_field decode_data_sequencing (find_ietf avps AttrType.data_sequencing)
  cs ← optional_field decode_circuit_status (find_ietf avps AttrType.circuit_status)
  cookie ← optional_field decode_assigned_cookie (find_ietf avps AttrType.assigned_cookie)
  eid ← optional_field decode_remote_end_id (find_ietf avps AttrType.remote_end_id)
  tx ← optional_field decode_tx_connect_speed (find_ietf avps AttrType.tx_connect_speed)
  rx ← optional_field decode_rx_connect_speed (find_ietf avps AttrType.rx_connect_speed)
  ok (record {
    local_sid = local_sid;
    remote_sid = remote_sid;
    pseudowire_type = pw;
    l2_specific_sublayer = l2s;
    data_sequencing = ds;
    circuit_status = cs;
    assigned_cookie = cookie;
    remote_end_id = eid;
    tx_connect_speed = tx;
    rx_connect_speed = rx;
  })

pub record CdnFields : Type 0 where
  pub local_sid : ℕ
  pub remote_sid : ℕ
  pub result_code : ℕ
  pub error_code : Option ℕ
  pub error_message : Bytes

unfoldable pub parse_cdn_fields : List Avp → Result CdnFields
parse_cdn_fields avps = do
  local_avp ← required (find_ietf avps AttrType.local_session_id) missing_local_session_id
  rc_avp ← required (find_ietf avps AttrType.result_code) missing_result_code
  (result, error, err_msg) ← decode_result_code rc_avp
  local_sid ← decode_local_session_id local_avp
  remote_sid ← remote_sid_of (find_ietf avps AttrType.remote_session_id)
  ok (record {
    local_sid = local_sid;
    remote_sid = remote_sid;
    result_code = result;
    error_code = error;
    error_message = err_msg;
  })
