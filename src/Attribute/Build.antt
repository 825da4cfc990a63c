-- ===== src/Attribute/Build.antt =====
-- The `build_*` functions of xcesp_l2tpv3d/avp.py.
use xcesp_l2tpv3d.Common.{ℕ, Bool, true, false, ◌||◌, Option, none, some, not}
use xcesp_l2tpv3d.Common.{List, [], ◌∷◌, ◌++◌, length, ltb, ◌==◌, if◌then◌else◌}
use xcesp_l2tpv3d.Exception.{
  Result, ok, err, ◌>>=◌, ◌>>◌, raise_if, router_id_range, assigned_ccid_range, error_message_alone,
  random_vector_short, empty_capabilities, u32_range, u64_range, cookie_length, window_range,
  firmware_range, empty_nonce, byte_range,
}
use xcesp_l2tpv3d.Struct.{Bytes, pack_u16, pack_u32, pack_u64}
use xcesp_l2tpv3d.Avp.{Avp, vendor_ietf}
use xcesp_l2tpv3d.Hiding.{md5_block}
use xcesp_l2tpv3d.AttrType

-- `AVP(attribute_type=..., value=..., mandatory=...)` with the defaults of the class.
abbrev pub ietf_avp : ℕ → Bytes → Bool → Avp
ietf_avp attribute_type value mandatory = record {
  attribute_type = attribute_type;
  value = value;
  mandatory = mandatory;
  hidden = false;
  vendor_id = vendor_ietf;
}

abbrev pub is_empty {ℓ} : {A : Type ℓ} → List A → Bool
is_empty [] = true
is_empty (x ∷ xs) = false

unfoldable pub build_message_type : ℕ → Result Avp
build_message_type mt = do value ← pack_u16 mt; ok (ietf_avp AttrType.message_type value true)

-- The error code and message behind the result.
unfoldable pub error_part : Option ℕ → Bytes → Result Bytes
error_part (some code) message = do packed ← pack_u16 code; ok (packed ++ message)
error_part none message = if is_empty message then ok [] else err error_message_alone

unfoldable pub build_result_code : ℕ → Option ℕ → Bytes → Result Avp
unfolding error_part
build_result_code result error_code error_message = do
  payload ← pack_u16 result
  error ← error_part error_code error_message
  ok (ietf_avp AttrType.result_code (payload ++ error) true)

unfoldable pub build_random_vector : Bytes → Result Avp
build_random_vector rv_bytes = do
  raise_if (ltb (length rv_bytes) md5_block) random_vector_short
  ok (ietf_avp AttrType.random_vector rv_bytes true)

unfoldable pub build_host_name : Bytes → Avp
build_host_name name = ietf_avp AttrType.host_name name true

unfoldable pub build_router_id : ℕ → Result Avp
build_router_id router_id = do
  raise_if (ltb 0xFFFF_FFFF router_id) router_id_range
  value ← pack_u32 router_id
  ok (ietf_avp AttrType.router_id value true)

unfoldable pub build_assigned_control_connection_id : ℕ → Result Avp
build_assigned_control_connection_id ccid = do
  raise_if (ltb 0xFFFF_FFFF ccid) assigned_ccid_range
  value ← pack_u32 ccid
  ok (ietf_avp AttrType.assigned_control_connection_id value true)

-- `b"".join(struct.pack("!H", int(t)) for t in pw_list)`
unfoldable pub pack_capabilities : List ℕ → Result Bytes
pack_capabilities [] = ok []
pack_capabilities (t ∷ ts) = do first ← pack_u16 t; rest ← pack_capabilities ts; ok (first ++ rest)

unfoldable pub build_pseudowire_capabilities_list : List ℕ → Result Avp
build_pseudowire_capabilities_list pw_list = do
  raise_if (is_empty pw_list) empty_capabilities
  value ← pack_capabilities pw_list
  ok (ietf_avp AttrType.pseudowire_capabilities_list value true)

-- `_u32_avp` and `_u64_avp`
unfoldable pub u32_avp : ℕ → ℕ → Result Avp
u32_avp attr n = do
  raise_if (ltb 0xFFFF_FFFF n) u32_range
  value ← pack_u32 n
  ok (ietf_avp attr value true)

unfoldable pub u64_avp : ℕ → ℕ → Result Avp
u64_avp attr n = do
  raise_if (ltb 0xFFFF_FFFF_FFFF_FFFF n) u64_range
  value ← pack_u64 n
  ok (ietf_avp attr value true)

unfoldable pub build_local_session_id : ℕ → Result Avp
unfolding u32_avp
build_local_session_id sid = u32_avp AttrType.local_session_id sid

unfoldable pub build_remote_session_id : ℕ → Result Avp
unfolding u32_avp
build_remote_session_id sid = u32_avp AttrType.remote_session_id sid

-- `n not in (0, 4, 8)`
abbrev pub bad_cookie_length : ℕ → Bool
bad_cookie_length n = not (n == 0 || (n == 4 || n == 8))

unfoldable pub build_assigned_cookie : Bytes → Result Avp
build_assigned_cookie cookie = do
  raise_if (bad_cookie_length (length cookie)) cookie_length
  ok (ietf_avp AttrType.assigned_cookie cookie true)

unfoldable pub build_remote_end_id : Bytes → Avp
build_remote_end_id end_id = ietf_avp AttrType.remote_end_id end_id true

unfoldable pub build_pseudowire_type : ℕ → Result Avp
build_pseudowire_type pw = do value ← pack_u16 pw; ok (ietf_avp AttrType.pseudowire_type value true)

unfoldable pub build_l2_specific_sublayer : ℕ → Result Avp
build_l2_specific_sublayer sublayer_type = do
  value ← pack_u16 sublayer_type
  ok (ietf_avp AttrType.l2_specific_sublayer value true)

unfoldable pub build_data_sequencing : ℕ → Result Avp
build_data_sequencing level = do
  value ← pack_u16 level
  ok (ietf_avp AttrType.data_sequencing value true)

unfoldable pub build_circuit_status : ℕ → Result Avp
build_circuit_status status = do
  value ← pack_u16 status
  ok (ietf_avp AttrType.circuit_status value true)

unfoldable pub build_preferred_language : Bytes → Avp
build_preferred_language lang_tag = ietf_avp AttrType.preferred_language lang_tag false

unfoldable pub build_tx_connect_speed : ℕ → Result Avp
unfolding u64_avp
build_tx_connect_speed bps = u64_avp AttrType.tx_connect_speed bps

unfoldable pub build_rx_connect_speed : ℕ → Result Avp
unfolding u64_avp
build_rx_connect_speed bps = u64_avp AttrType.rx_connect_speed bps

-- `bytes([int(hash_type)])` raises a `ValueError` for a number above 255.
unfoldable pub build_message_digest : ℕ → Bytes → Result Avp
build_message_digest hash_type digest = do
  raise_if (ltb 0xFF hash_type) byte_range
  ok (ietf_avp AttrType.message_digest (hash_type ∷ digest) true)

unfoldable pub build_receive_window_size : ℕ → Result Avp
build_receive_window_size window = do
  raise_if (ltb 0xFFFF window) window_range
  value ← pack_u16 window
  ok (ietf_avp AttrType.receive_window_size value true)

unfoldable pub build_vendor_name : Bytes → Avp
build_vendor_name name = ietf_avp AttrType.vendor_name name false

unfoldable pub build_firmware_revision : ℕ → Result Avp
build_firmware_revision revision = do
  raise_if (ltb 0xFFFF revision) firmware_range
  value ← pack_u16 revision
  ok (ietf_avp AttrType.firmware_revision value false)

unfoldable pub build_control_message_auth_nonce : Bytes → Result Avp
build_control_message_auth_nonce nonce = do
  raise_if (is_empty nonce) empty_nonce
  ok (ietf_avp AttrType.ctl_msg_auth_nonce nonce true)
