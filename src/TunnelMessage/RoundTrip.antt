-- ===== src/TunnelMessage/RoundTrip.antt =====
-- The parsers read back what the tunnel-level builders were given.
use xcesp_l2tpv3d.Common.{ℕ, ◌≡◌, refl, ap, ◌∙◌, arith, true, false, Option, some}
use xcesp_l2tpv3d.Common.{List, [], ◌∷◌, ◌==◌}
use xcesp_l2tpv3d.TunnelMessage.Find.{find-append_optional_ne, find-append_optional_self}
use xcesp_l2tpv3d.Exception.{ok, >>=-eq-ok}
use xcesp_l2tpv3d.Struct.{Bytes}
use xcesp_l2tpv3d.Avp.{Avp, find_avp}
use xcesp_l2tpv3d.AttrType
use xcesp_l2tpv3d.MessageType
use xcesp_l2tpv3d.Attribute.Build.{
  ietf_avp, build_message_type, build_router_id, build_assigned_control_connection_id,
  build_pseudowire_capabilities_list, build_host_name, build_receive_window_size, build_vendor_name,
  build_firmware_revision, build_control_message_auth_nonce, build_result_code,
}
use xcesp_l2tpv3d.Attribute.Decode.{
  decode_message_type, decode_router_id, decode_assigned_control_connection_id, decode_host_name,
  decode_pseudowire_capabilities_list, decode_receive_window_size,
  decode_control_message_auth_nonce,
}
use xcesp_l2tpv3d.Attribute.RoundTrip.{
  message_type_read, router_id_read, assigned_control_connection_id_read, host_name_read,
  pseudowire_capabilities_list_read, receive_window_size_read, control_message_auth_nonce_read,
  result_code_read, Reads-of,
}
use xcesp_l2tpv3d.TunnelMessage.{
  append_optional, SccrxArgs, mandatory_sccrx_avps, build_sccrx_avps, SccrxFields, find_ietf,
  optional_field, parse_sccrx_fields, get_message_type, build_stopccn_avps, parse_stopccn_fields,
}

vendor_name_shape :
    (v : Bytes) (a : Avp)
    → ok (build_vendor_name v) ≡ ok a
    → a ≡ ietf_avp AttrType.vendor_name a.value false
unfolding build_vendor_name
vendor_name_shape v a e = ground arith

firmware_revision_shape :
    (v : ℕ) (a : Avp)
    → build_firmware_revision v ≡ ok a
    → a ≡ ietf_avp AttrType.firmware_revision a.value false
unfolding build_firmware_revision
firmware_revision_shape v a e = ground arith

-- The six mandatory AVPs, by their value bytes.
abbrev sccrx_list : Bytes → Bytes → Bytes → Bytes → Bytes → Bytes → List Avp
sccrx_list mt router ccid capabilities host window =
    ietf_avp AttrType.message_type mt true
    ∷ ietf_avp AttrType.router_id router true
    ∷ ietf_avp AttrType.assigned_control_connection_id ccid true
    ∷ ietf_avp AttrType.pseudowire_capabilities_list capabilities true
    ∷ ietf_avp AttrType.host_name host true
    ∷ ietf_avp AttrType.receive_window_size window true
    ∷ []

-- The mandatory AVPs of `args`, by their value bytes.
record Mandatory (message_type : ℕ) (args : SccrxArgs) (avps : List Avp) : Type 0 where
  mt : Bytes
  router : Bytes
  ccid : Bytes
  capabilities : Bytes
  window : Bytes
  list_there : avps ≡ sccrx_list mt router ccid capabilities args.host_name window
  mt_reads : decode_message_type (ietf_avp AttrType.message_type mt true) ≡ ok message_type
  router_reads : decode_router_id (ietf_avp AttrType.router_id router true) ≡ ok args.router_id
  ccid_reads :
      decode_assigned_control_connection_id
        (ietf_avp AttrType.assigned_control_connection_id ccid true)
      ≡ ok args.assigned_ccid
  capabilities_reads :
      decode_pseudowire_capabilities_list
        (ietf_avp AttrType.pseudowire_capabilities_list capabilities true)
      ≡ ok args.pw_capabilities
  window_reads :
      decode_receive_window_size (ietf_avp AttrType.receive_window_size window true)
      ≡ ok args.receive_window

Mandatory-of :
    (message_type : ℕ) (args : SccrxArgs) (avps : List Avp)
    → mandatory_sccrx_avps message_type args ≡ ok avps
    → Mandatory message_type args avps
unfolding mandatory_sccrx_avps build_host_name
Mandatory-of message_type args avps e =
    let (mt, x1, e1) = >>=-eq-ok (build_message_type message_type) _ e in
    let (router, x2, e2) = >>=-eq-ok (build_router_id args.router_id) _ e1 in
    let (ccid, x3, e3) = >>=-eq-ok (build_assigned_control_connection_id args.assigned_ccid) _ e2 in
    let (capabilities, x4, e4) =
      >>=-eq-ok (build_pseudowire_capabilities_list args.pw_capabilities) _ e3 in
    let (window, x5, e5) = >>=-eq-ok (build_receive_window_size args.receive_window) _ e4 in
    let r1 = message_type_read message_type mt x1 in
    let r2 = router_id_read args.router_id router x2 in
    let r3 = assigned_control_connection_id_read args.assigned_ccid ccid x3 in
    let r4 = pseudowire_capabilities_list_read args.pw_capabilities capabilities x4 in
    let r5 = receive_window_size_read args.receive_window window x5 in
    record {
      mt = mt.value;
      router = router.value;
      ccid = ccid.value;
      capabilities = capabilities.value;
      window = window.value;
      list_there = cc (e5, r1.shape, r2.shape, r3.shape, r4.shape, r5.shape);
      mt_reads = r1.reads;
      router_reads = r2.reads;
      ccid_reads = r3.reads;
      capabilities_reads = r4.reads;
      window_reads = r5.reads;
    }

-- The fields that the parser gives back for `args`.
abbrev pub fields_of : SccrxArgs → SccrxFields
fields_of args = record {
  router_id = args.router_id;
  assigned_ccid = args.assigned_ccid;
  host_name = args.host_name;
  pw_capabilities = args.pw_capabilities;
  receive_window = some args.receive_window;
  auth_nonce = args.auth_nonce;
}

parse_found :
    (args : SccrxArgs) (out : List Avp) (router ccid capabilities window : Bytes)
    → find_ietf out AttrType.router_id ≡ some (ietf_avp AttrType.router_id router true)
    → find_ietf out AttrType.assigned_control_connection_id
      ≡ some (ietf_avp AttrType.assigned_control_connection_id ccid true)
    → find_ietf out AttrType.host_name ≡ some (build_host_name args.host_name)
    → find_ietf out AttrType.pseudowire_capabilities_list
      ≡ some (ietf_avp AttrType.pseudowire_capabilities_list capabilities true)
    → find_ietf out AttrType.receive_window_size
      ≡ some (ietf_avp AttrType.receive_window_size window true)
    → optional_field decode_control_message_auth_nonce (find_ietf out AttrType.ctl_msg_auth_nonce)
      ≡ ok args.auth_nonce
    → decode_router_id (ietf_avp AttrType.router_id router true) ≡ ok args.router_id
    → decode_assigned_control_connection_id
        (ietf_avp AttrType.assigned_control_connection_id ccid true)
      ≡ ok args.assigned_ccid
    → decode_host_name (build_host_name args.host_name) ≡ ok args.host_name
    → decode_pseudowire_capabilities_list
        (ietf_avp AttrType.pseudowire_capabilities_list capabilities true)
      ≡ ok args.pw_capabilities
    → decode_receive_window_size (ietf_avp AttrType.receive_window_size window true)
      ≡ ok args.receive_window
    → parse_sccrx_fields out ≡ ok (fields_of args)
unfolding parse_sccrx_fields
parse_found args out router ccid capabilities window f1 f2 f3 f4 f5 f6 r1 r2 r3 r4 r5 =
    rw (f1, f2, f3, f4, f5, f6, r1, r2, r3, r4, r5) refl

-- Whatever the builder of SCCRQ or SCCRP accepts, the parser gives back field by field, with the
-- receive window and the nonce where one was given, and the message type is the one that was asked
-- for.
pub parse_sccrx_fields-build_sccrx_avps :
    (message_type : ℕ) (args : SccrxArgs) (out : List Avp)
    → build_sccrx_avps message_type args ≡ ok out
    → (parse_sccrx_fields out ≡ ok (fields_of args))
      × (get_message_type out ≡ ok (some message_type))
unfolding build_sccrx_avps find_avp build_host_name get_message_type
parse_sccrx_fields-build_sccrx_avps message_type args out e =
    let (base, x, e1) = >>=-eq-ok (mandatory_sccrx_avps message_type args) _ e in
    let (s1, y1, e2) =
      >>=-eq-ok (append_optional (λ v. ok (build_vendor_name v)) args.vendor_name base) _ e1 in
    let (s2, y2, y3) =
      >>=-eq-ok (append_optional build_firmware_revision args.firmware_revision s1) _ e2 in
    let m = Mandatory-of message_type args base x in
    let keep : (t : ℕ)
        → (AttrType.vendor_name == t) ≡ false
        → (AttrType.firmware_revision == t) ≡ false
        → find_ietf s2 t
          ≡ find_ietf (sccrx_list m.mt m.router m.ccid m.capabilities args.host_name m.window) t =
      λ t n1 n2.
        find-append_optional_ne build_firmware_revision AttrType.firmware_revision false
          firmware_revision_shape args.firmware_revision s1 s2 t n2 y2
        ∙ find-append_optional_ne (λ v. ok (build_vendor_name v)) AttrType.vendor_name false
            vendor_name_shape args.vendor_name base s1 t n1 y1
        ∙ ap (λ l. find_ietf l t) m.list_there in
    let nonce_shape = λ (v : Bytes) (a : Avp) (x : build_control_message_auth_nonce v ≡ ok a).
      (control_message_auth_nonce_read v a x).shape in
    let found : (t : ℕ)
        → (AttrType.vendor_name == t) ≡ false
        → (AttrType.firmware_revision == t) ≡ false
        → (AttrType.ctl_msg_auth_nonce == t) ≡ false
        → find_ietf out t
          ≡ find_ietf (sccrx_list m.mt m.router m.ccid m.capabilities args.host_name m.window) t =
      λ t n1 n2 n3.
        find-append_optional_ne build_control_message_auth_nonce AttrType.ctl_msg_auth_nonce true
          nonce_shape args.auth_nonce s2 out t n3 y3
        ∙ keep t n1 n2 in
    let nonce =
      find-append_optional_self build_control_message_auth_nonce AttrType.ctl_msg_auth_nonce true
        nonce_shape decode_control_message_auth_nonce
        (λ v a x. Reads-of _ _ v a (control_message_auth_nonce_read v a x)) args.auth_nonce s2 out
        (keep AttrType.ctl_msg_auth_nonce refl refl) y3 in
    (
      parse_found args out m.router m.ccid m.capabilities m.window
          (found AttrType.router_id refl refl refl)
          (found AttrType.assigned_control_connection_id refl refl refl)
          (found AttrType.host_name refl refl refl)
          (found AttrType.pseudowire_capabilities_list refl refl refl)
          (found AttrType.receive_window_size refl refl refl) nonce m.router_reads m.ccid_reads
          (host_name_read args.host_name).reads m.capabilities_reads m.window_reads,
      rw (found AttrType.message_type refl refl refl) (rw m.mt_reads),
    )

-- What the builder of StopCCN accepts, its parser gives back: the connection id, the result, the
-- error code and the error message. The message type is StopCCN.
pub parse_stopccn_fields-build_stopccn_avps :
    (assigned_ccid result_code : ℕ) (error_code : Option ℕ) (message : Bytes) (out : List Avp)
    → build_stopccn_avps assigned_ccid result_code error_code message ≡ ok out
    → (parse_stopccn_fields out
        ≡ ok (record {
          assigned_ccid = assigned_ccid;
          result_code = result_code;
          error_code = error_code;
          error_message = message;
        }))
      × (get_message_type out ≡ ok (some MessageType.stop_ccn))
unfolding build_stopccn_avps parse_stopccn_fields find_avp get_message_type
parse_stopccn_fields-build_stopccn_avps assigned_ccid result_code error_code message out e =
    let (mt, x1, e1) = >>=-eq-ok (build_message_type MessageType.stop_ccn) _ e in
    let (ccid, x2, e2) = >>=-eq-ok (build_assigned_control_connection_id assigned_ccid) _ e1 in
    let (result, x3, e3) = >>=-eq-ok (build_result_code result_code error_code message) _ e2 in
    let r1 = message_type_read MessageType.stop_ccn mt x1 in
    let r2 = assigned_control_connection_id_read assigned_ccid ccid x2 in
    let r3 = result_code_read result_code error_code message result x3 in
    ground (arith, e3, r1.shape, r1.reads, r2.shape, r2.reads, r3.shape, r3.reads)
