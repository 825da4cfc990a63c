-- ===== src/SessionMessage/Cdn.antt =====
-- The parser reads back what the builder of CDN was given.
use xcesp_l2tpv3d.Common.{ℕ, ◌≡◌, arith, Option, some}
use xcesp_l2tpv3d.Common.{List}
use xcesp_l2tpv3d.Exception.{ok, >>=-eq-ok}
use xcesp_l2tpv3d.Struct.{Bytes}
use xcesp_l2tpv3d.Avp.{Avp, find_avp}
use xcesp_l2tpv3d.MessageType
use xcesp_l2tpv3d.Attribute.Build.{
  build_message_type, build_local_session_id, build_remote_session_id, build_result_code,
}
use xcesp_l2tpv3d.Attribute.RoundTrip.{
  message_type_read, local_session_id_read, remote_session_id_read, result_code_read,
}
use xcesp_l2tpv3d.TunnelMessage.{get_message_type}
use xcesp_l2tpv3d.SessionMessage.{build_cdn_avps, parse_cdn_fields}

-- What the builder of CDN accepts, the parser of CDN gives back: both session ids, the result, the
-- error code and the error message. The message type is CDN.
pub parse_cdn_fields-build_cdn_avps :
    (local_sid remote_sid result_code : ℕ) (error_code : Option ℕ) (message : Bytes)
    (out : List Avp)
    → build_cdn_avps local_sid remote_sid result_code error_code message ≡ ok out
    → (parse_cdn_fields out
        ≡ ok (record {
          local_sid = local_sid;
          remote_sid = remote_sid;
          result_code = result_code;
          error_code = error_code;
          error_message = message;
        }))
      × (get_message_type out ≡ ok (some MessageType.cdn))
unfolding build_cdn_avps parse_cdn_fields find_avp get_message_type
parse_cdn_fields-build_cdn_avps local_sid remote_sid result_code error_code message out e =
    let (mt, x1, e1) = >>=-eq-ok (build_message_type MessageType.cdn) _ e in
    let (local, x2, e2) = >>=-eq-ok (build_local_session_id local_sid) _ e1 in
    let (remote, x3, e3) = >>=-eq-ok (build_remote_session_id remote_sid) _ e2 in
    let (result, x4, e4) = >>=-eq-ok (build_result_code result_code error_code message) _ e3 in
    let r1 = message_type_read MessageType.cdn mt x1 in
    let r2 = local_session_id_read local_sid local x2 in
    let r3 = remote_session_id_read remote_sid remote x3 in
    let r4 = result_code_read result_code error_code message result x4 in
    ground
      (arith, e4, r1.shape, r1.reads, r2.shape, r2.reads, r3.shape, r3.reads, r4.shape, r4.reads)
