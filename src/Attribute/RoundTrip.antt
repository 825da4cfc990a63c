-- ===== src/Attribute/RoundTrip.antt =====
-- What each builder packs, and that its decoder reads it back.
use xcesp_l2tpv3d.Common.{ℕ, ◌*◌, ◌≡◌, ap, ◌∙◌, arith, true, Option, none, some}
use xcesp_l2tpv3d.Common.{List, [], ◌∷◌, length}
use xcesp_l2tpv3d.Exception.{Result, ok, >>=-eq-ok}
use xcesp_l2tpv3d.Struct.{
  Bytes, pack_u16, pack_u32, pack_u64, unpack_u16, unpack_u32, unpack_from_u16, unpack_u64-be64,
}
use xcesp_l2tpv3d.Avp.{Avp}
use xcesp_l2tpv3d.AttrType
use xcesp_l2tpv3d.Attribute.Build
use xcesp_l2tpv3d.Attribute.Build.{ietf_avp}
use xcesp_l2tpv3d.Attribute.Decode

-- An AVP that a builder made, and that `decode` reads as `v`.
pub record Reads {ℓ} {V : Type ℓ} (attribute_type : ℕ) (decode : Avp → Result V) (v : V) (a : Avp)
    : Type ℓ where
  pub shape : a ≡ ietf_avp attribute_type a.value true
  pub reads : decode (ietf_avp attribute_type a.value true) ≡ ok v

pub Reads-of {ℓ} :
    {V : Type ℓ} (t : ℕ) (decode : Avp → Result V) (v : V) (a : Avp)
    → Reads t decode v a
    → decode a ≡ ok v
Reads-of t decode v a r = ap decode r.shape ∙ r.reads

pub message_type_read :
    (v : ℕ) (a : Avp)
    → Build.build_message_type v ≡ ok a
    → Reads AttrType.message_type Decode.decode_message_type v a
unfolding Build.build_message_type Decode.decode_message_type pack_u16 unpack_u16
message_type_read v a e = ground arith

pub pseudowire_type_read :
    (v : ℕ) (a : Avp)
    → Build.build_pseudowire_type v ≡ ok a
    → Reads AttrType.pseudowire_type Decode.decode_pseudowire_type v a
unfolding Build.build_pseudowire_type Decode.decode_pseudowire_type pack_u16 unpack_u16
pseudowire_type_read v a e = ground arith

pub l2_specific_sublayer_read :
    (v : ℕ) (a : Avp)
    → Build.build_l2_specific_sublayer v ≡ ok a
    → Reads AttrType.l2_specific_sublayer Decode.decode_l2_specific_sublayer v a
unfolding Build.build_l2_specific_sublayer Decode.decode_l2_specific_sublayer pack_u16 unpack_u16
l2_specific_sublayer_read v a e = ground arith

pub data_sequencing_read :
    (v : ℕ) (a : Avp)
    → Build.build_data_sequencing v ≡ ok a
    → Reads AttrType.data_sequencing Decode.decode_data_sequencing v a
unfolding Build.build_data_sequencing Decode.decode_data_sequencing pack_u16 unpack_u16
data_sequencing_read v a e = ground arith

pub circuit_status_read :
    (v : ℕ) (a : Avp)
    → Build.build_circuit_status v ≡ ok a
    → Reads AttrType.circuit_status Decode.decode_circuit_status v a
unfolding Build.build_circuit_status Decode.decode_circuit_status pack_u16 unpack_u16
circuit_status_read v a e = ground arith

pub receive_window_size_read :
    (v : ℕ) (a : Avp)
    → Build.build_receive_window_size v ≡ ok a
    → Reads AttrType.receive_window_size Decode.decode_receive_window_size v a
unfolding Build.build_receive_window_size Decode.decode_receive_window_size pack_u16 unpack_u16
receive_window_size_read v a e = ground arith

pub router_id_read :
    (v : ℕ) (a : Avp)
    → Build.build_router_id v ≡ ok a
    → Reads AttrType.router_id Decode.decode_router_id v a
unfolding Build.build_router_id Decode.decode_router_id pack_u32 unpack_u32
router_id_read v a e = ground arith

pub assigned_control_connection_id_read :
    (v : ℕ) (a : Avp)
    → Build.build_assigned_control_connection_id v ≡ ok a
    → Reads AttrType.assigned_control_connection_id Decode.decode_assigned_control_connection_id v a
unfolding Build.build_assigned_control_connection_id Decode.decode_assigned_control_connection_id
    pack_u32 unpack_u32
assigned_control_connection_id_read v a e = ground arith

pub local_session_id_read :
    (v : ℕ) (a : Avp)
    → Build.build_local_session_id v ≡ ok a
    → Reads AttrType.local_session_id Decode.decode_local_session_id v a
unfolding Build.build_local_session_id Decode.decode_local_session_id pack_u32 unpack_u32
local_session_id_read v a e = ground arith

pub remote_session_id_read :
    (v : ℕ) (a : Avp)
    → Build.build_remote_session_id v ≡ ok a
    → Reads AttrType.remote_session_id Decode.decode_remote_session_id v a
unfolding Build.build_remote_session_id Decode.decode_remote_session_id pack_u32 unpack_u32
remote_session_id_read v a e = ground arith

pub tx_connect_speed_read :
    (v : ℕ) (a : Avp)
    → Build.build_tx_connect_speed v ≡ ok a
    → Reads AttrType.tx_connect_speed Decode.decode_tx_connect_speed v a
unfolding Build.build_tx_connect_speed Decode.decode_tx_connect_speed pack_u64
tx_connect_speed_read v a e = ground (arith, unpack_u64-be64 v)

pub rx_connect_speed_read :
    (v : ℕ) (a : Avp)
    → Build.build_rx_connect_speed v ≡ ok a
    → Reads AttrType.rx_connect_speed Decode.decode_rx_connect_speed v a
unfolding Build.build_rx_connect_speed Decode.decode_rx_connect_speed pack_u64
rx_connect_speed_read v a e = ground (arith, unpack_u64-be64 v)

pub assigned_cookie_read :
    (v : Bytes) (a : Avp)
    → Build.build_assigned_cookie v ≡ ok a
    → Reads AttrType.assigned_cookie Decode.decode_assigned_cookie v a
unfolding Build.build_assigned_cookie Decode.decode_assigned_cookie
assigned_cookie_read v a e = ground arith

pub control_message_auth_nonce_read :
    (v : Bytes) (a : Avp)
    → Build.build_control_message_auth_nonce v ≡ ok a
    → Reads AttrType.ctl_msg_auth_nonce Decode.decode_control_message_auth_nonce v a
unfolding Build.build_control_message_auth_nonce Decode.decode_control_message_auth_nonce
control_message_auth_nonce_read v a e = ground arith

pub host_name_read :
    (v : Bytes) → Reads AttrType.host_name Decode.decode_host_name v (Build.build_host_name v)
unfolding Build.build_host_name Decode.decode_host_name
host_name_read v = ground arith

pub remote_end_id_read :
    (v : Bytes)
    → Reads AttrType.remote_end_id Decode.decode_remote_end_id v (Build.build_remote_end_id v)
unfolding Build.build_remote_end_id Decode.decode_remote_end_id
remote_end_id_read v = ground arith

unpack-pack_capabilities :
    (ts : List ℕ) (bytes : Bytes)
    → Build.pack_capabilities ts ≡ ok bytes
    → (Decode.unpack_capabilities bytes ≡ ok ts) × (length bytes ≡ 2 * length ts)
unfolding Build.pack_capabilities Decode.unpack_capabilities pack_u16 unpack_from_u16
unpack-pack_capabilities [] bytes e = ground arith
unpack-pack_capabilities (t ∷ ts) bytes e =
    let (first, x, e2) = >>=-eq-ok (pack_u16 t) _ e in
    let (rest, y, e3) = >>=-eq-ok (Build.pack_capabilities ts) _ e2 in
    ground (arith, x, e3, unpack-pack_capabilities ts rest y)

pub pseudowire_capabilities_list_read :
    (ts : List ℕ) (a : Avp)
    → Build.build_pseudowire_capabilities_list ts ≡ ok a
    → Reads AttrType.pseudowire_capabilities_list Decode.decode_pseudowire_capabilities_list ts a
unfolding Build.build_pseudowire_capabilities_list Decode.decode_pseudowire_capabilities_list
pseudowire_capabilities_list_read [] a e = ground arith
pseudowire_capabilities_list_read (t ∷ ts) a e =
    let (value, y, e2) = >>=-eq-ok (Build.pack_capabilities (t ∷ ts)) _ e in
    let (back, size) = unpack-pack_capabilities (t ∷ ts) value y in ground (arith, e2, back, size)

pub result_code_read :
    (result : ℕ) (error_code : Option ℕ) (message : Bytes) (a : Avp)
    → Build.build_result_code result error_code message ≡ ok a
    → Reads AttrType.result_code Decode.decode_result_code (result, error_code, message) a
unfolding Build.build_result_code Decode.decode_result_code pack_u16 unpack_from_u16
result_code_read result none [] a e = ground arith
result_code_read result none (b ∷ bs) a e = ground arith
result_code_read result (some code) message a e = ground arith
