-- ===== src/SessionMessage/Iccn.antt =====
-- The parser reads back what the builder of ICCN was given.
use xcesp_l2tpv3d.Common.{ℕ, arith, ◌≡◌, refl, ap, ◌∙◌, none, some}
use xcesp_l2tpv3d.Common.{List}
use xcesp_l2tpv3d.Exception.{ok, >>=-eq-ok}
use xcesp_l2tpv3d.Avp.{Avp}
use xcesp_l2tpv3d.AttrType
use xcesp_l2tpv3d.MessageType
use xcesp_l2tpv3d.Attribute.Build.{
  build_message_type, build_local_session_id, build_remote_session_id, build_l2_specific_sublayer,
  build_data_sequencing, build_circuit_status,
}
use xcesp_l2tpv3d.Attribute.Decode.{decode_assigned_cookie}
use xcesp_l2tpv3d.Attribute.RoundTrip.{
  message_type_read, local_session_id_read, remote_session_id_read, l2_specific_sublayer_read,
  data_sequencing_read, circuit_status_read,
}
use xcesp_l2tpv3d.TunnelMessage.{optional_field, get_message_type}
use xcesp_l2tpv3d.SessionMessage.{CallArgs, build_iccn_avps, parse_session_fields}
use xcesp_l2tpv3d.SessionMessage.Tail.{append_speeds-SpeedsRead}
use xcesp_l2tpv3d.SessionMessage.Call.{
  Call, mandatory, no_cookie, no_tx, no_rx, parse_session_fields-call,
}

-- What the builder of ICCN accepts, the session parser gives back: both session ids, the three
-- negotiated numbers and the speeds where they were given, and no pseudowire type, remote end id or
-- cookie. The message type is ICCN.
pub parse_session_fields-build_iccn_avps :
    (local_sid remote_sid : ℕ) (args : CallArgs) (out : List Avp)
    → build_iccn_avps local_sid remote_sid args ≡ ok out
    → (parse_session_fields out
        ≡ ok (record {
          local_sid = local_sid;
          remote_sid = remote_sid;
          pseudowire_type = none;
          l2_specific_sublayer = some args.l2_specific_sublayer;
          data_sequencing = some args.data_sequencing;
          circuit_status = some args.circuit_status;
          assigned_cookie = none;
          remote_end_id = none;
          tx_connect_speed = args.tx_connect_speed;
          rx_connect_speed = args.rx_connect_speed;
        }))
      × (get_message_type out ≡ ok (some MessageType.iccn))
unfolding build_iccn_avps
parse_session_fields-build_iccn_avps local_sid remote_sid args out e0 =
    let (mt, x_mt, e1) = >>=-eq-ok (build_message_type MessageType.iccn) _ e0 in
    let (local, x_local, e2) = >>=-eq-ok (build_local_session_id local_sid) _ e1 in
    let (remote, x_remote, e3) = >>=-eq-ok (build_remote_session_id remote_sid) _ e2 in
    let (l2s, x_l2s, e4) = >>=-eq-ok (build_l2_specific_sublayer args.l2_specific_sublayer) _ e3 in
    let (ds, x_ds, e5) = >>=-eq-ok (build_data_sequencing args.data_sequencing) _ e4 in
    let (cs, x_cs, e6) = >>=-eq-ok (build_circuit_status args.circuit_status) _ e5 in
    let call : Call MessageType.iccn local_sid remote_sid args = record {
      mt = mt;
      local = local;
      remote = remote;
      l2s = l2s;
      ds = ds;
      cs = cs;
      mt_read = message_type_read MessageType.iccn mt x_mt;
      local_read = local_session_id_read local_sid local x_local;
      remote_read = remote_session_id_read remote_sid remote x_remote;
      l2s_read = l2_specific_sublayer_read args.l2_specific_sublayer l2s x_l2s;
      ds_read = data_sequencing_read args.data_sequencing ds x_ds;
      cs_read = circuit_status_read args.circuit_status cs x_cs;
    } in
    let r =
      append_speeds-SpeedsRead args.tx_connect_speed args.rx_connect_speed (mandatory call) out
        (no_tx call) (no_rx call) e6 in
    parse_session_fields-call call out none args.tx_connect_speed args.rx_connect_speed
      (λ t n. r.keeps t (ground (arith, n)))
      (ap (optional_field decode_assigned_cookie)
        (r.keeps AttrType.assigned_cookie refl ∙ no_cookie call))
      r.tx_reads r.rx_reads
