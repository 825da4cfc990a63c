-- ===== src/TunnelMessage.antt =====
-- The tunnel-level messages of xcesp_l2tpv3d/messages.py: the AVP lists of SCCRQ, SCCRP, SCCCN,
-- HELLO and StopCCN, and the functions that take such lists apart.
pub mod Find
pub mod RoundTrip
pub mod Errors
use xcesp_l2tpv3d.Common.{ℕ, Option, none, some}
use xcesp_l2tpv3d.Common.{List, [], ◌∷◌, ◌++◌}
use xcesp_l2tpv3d.Exception.{
  Error, Result, ok, err, ◌>>=◌, missing_router_id, missing_assigned_ccid, missing_host_name,
  missing_capabilities, missing_result_code,
}
use xcesp_l2tpv3d.Struct.{Bytes}
use xcesp_l2tpv3d.Avp.{Avp, find_avp, vendor_ietf}
use xcesp_l2tpv3d.AttrType
use xcesp_l2tpv3d.MessageType
use xcesp_l2tpv3d.Attribute.Build.{
  build_message_type, build_router_id, build_assigned_control_connection_id,
  build_pseudowire_capabilities_list, build_host_name, build_receive_window_size, build_vendor_name,
  build_firmware_revision, build_control_message_auth_nonce, build_result_code,
}
use xcesp_l2tpv3d.Attribute.Decode.{
  decode_message_type, decode_router_id, decode_assigned_control_connection_id, decode_host_name,
  decode_pseudowire_capabilities_list, decode_receive_window_size,
  decode_control_message_auth_nonce, decode_result_code,
}

-- `if x is not None: avps.append(build(x))`
unfoldable pub append_optional {ℓ} :
    {A : Type ℓ} → (A → Result Avp) → Option A → List Avp → Result (List Avp)
append_optional build none avps = ok avps
append_optional build (some x) avps = do a ← build x; ok (avps ++ a ∷ [])

-- The arguments that `build_sccrq_avps` and `build_sccrp_avps` share.
pub record SccrxArgs : Type 0 where
  pub router_id : ℕ
  pub assigned_ccid : ℕ
  pub host_name : Bytes
  pub pw_capabilities : List ℕ
  pub receive_window : ℕ
  pub vendor_name : Option Bytes
  pub firmware_revision : Option ℕ
  pub auth_nonce : Option Bytes

unfoldable pub mandatory_sccrx_avps : ℕ → SccrxArgs → Result (List Avp)
mandatory_sccrx_avps message_type args = do
  mt ← build_message_type message_type
  router ← build_router_id args.router_id
  ccid ← build_assigned_control_connection_id args.assigned_ccid
  capabilities ← build_pseudowire_capabilities_list args.pw_capabilities
  window ← build_receive_window_size args.receive_window
  ok (mt ∷ router ∷ ccid ∷ capabilities ∷ build_host_name args.host_name ∷ window ∷ [])

unfoldable pub build_sccrx_avps : ℕ → SccrxArgs → Result (List Avp)
build_sccrx_avps message_type args = do
  avps ← mandatory_sccrx_avps message_type args
  avps ← append_optional (λ v. ok (build_vendor_name v)) args.vendor_name avps
  avps ← append_optional build_firmware_revision args.firmware_revision avps
  append_optional build_control_message_auth_nonce args.auth_nonce avps

unfoldable pub build_sccrq_avps : SccrxArgs → Result (List Avp)
build_sccrq_avps args = build_sccrx_avps MessageType.sccrq args

unfoldable pub build_sccrp_avps : SccrxArgs → Result (List Avp)
build_sccrp_avps args = build_sccrx_avps MessageType.sccrp args

unfoldable pub build_scccn_avps : Result (List Avp)
build_scccn_avps = do mt ← build_message_type MessageType.scccn; ok (mt ∷ [])

unfoldable pub build_hello_avps : Result (List Avp)
build_hello_avps = do mt ← build_message_type MessageType.hello; ok (mt ∷ [])

unfoldable pub build_stopccn_avps : ℕ → ℕ → Option ℕ → Bytes → Result (List Avp)
build_stopccn_avps assigned_ccid result_code error_code error_message = do
  mt ← build_message_type MessageType.stop_ccn
  ccid ← build_assigned_control_connection_id assigned_ccid
  result ← build_result_code result_code error_code error_message
  ok (mt ∷ ccid ∷ result ∷ [])

-- `find_avp(avps, attribute_type)` with the default vendor.
abbrev pub find_ietf : List Avp → ℕ → Option Avp
find_ietf avps attribute_type = find_avp avps attribute_type vendor_ietf

-- A missing AVP is an error, or is passed over.
abbrev pub required : Option Avp → Error → Result Avp
required none e = err e
required (some a) e = ok a

abbrev pub optional_field {ℓ} : {V : Type ℓ} → (Avp → Result V) → Option Avp → Result (Option V)
optional_field decode none = ok none
optional_field decode (some a) = do v ← decode a; ok (some v)

pub record SccrxFields : Type 0 where
  pub router_id : ℕ
  pub assigned_ccid : ℕ
  pub host_name : Bytes
  pub pw_capabilities : List ℕ
  pub receive_window : Option ℕ
  pub auth_nonce : Option Bytes

unfoldable pub parse_sccrx_fields : List Avp → Result SccrxFields
parse_sccrx_fields avps = do
  router_id_avp ← required (find_ietf avps AttrType.router_id) missing_router_id
  ccid_avp ← required (find_ietf avps AttrType.assigned_control_connection_id) missing_assigned_ccid
  host_avp ← required (find_ietf avps AttrType.host_name) missing_host_name
  pwc_avp ← required (find_ietf avps AttrType.pseudowire_capabilities_list) missing_capabilities
  router_id ← decode_router_id router_id_avp
  assigned_ccid ← decode_assigned_control_connection_id ccid_avp
  host_name ← decode_host_name host_avp
  pw_capabilities ← decode_pseudowire_capabilities_list pwc_avp
  receive_window ←
      optional_field decode_receive_window_size (find_ietf avps AttrType.receive_window_size)
  auth_nonce ←
      optional_field decode_control_message_auth_nonce (find_ietf avps AttrType.ctl_msg_auth_nonce)
  ok (record {
    router_id = router_id;
    assigned_ccid = assigned_ccid;
    host_name = host_name;
    pw_capabilities = pw_capabilities;
    receive_window = receive_window;
    auth_nonce = auth_nonce;
  })

pub record StopCcnFields : Type 0 where
  pub assigned_ccid : ℕ
  pub result_code : ℕ
  pub error_code : Option ℕ
  pub error_message : Bytes

unfoldable pub parse_stopccn_fields : List Avp → Result StopCcnFields
parse_stopccn_fields avps = do
  ccid_avp ← required (find_ietf avps AttrType.assigned_control_connection_id) missing_assigned_ccid
  rc_avp ← required (find_ietf avps AttrType.result_code) missing_result_code
  (result, error, err_msg) ← decode_result_code rc_avp
  assigned_ccid ← decode_assigned_control_connection_id ccid_avp
  ok (record {
    assigned_ccid = assigned_ccid;
    result_code = result;
    error_code = error;
    error_message = err_msg;
  })

-- `get_message_type`: `none` where no Message Type AVP is there.
unfoldable pub get_message_type : List Avp → Result (Option ℕ)
get_message_type avps = optional_field decode_message_type (find_ietf avps AttrType.message_type)
