-- ===== src/Examples/Session.antt =====
-- Runs of the session-level messages, of the session state machine and of the dataplane.
use xcesp_l2tpv3d.Common.{ℕ, ◌≡◌, refl, true, false, Bool, none, some, List, [], ◌∷◌, ◌++◌}
use xcesp_l2tpv3d.Exception.{ok}
use xcesp_l2tpv3d.Struct.{pack_u16, pack_u32}
use xcesp_l2tpv3d.Avp.{Avp}
use xcesp_l2tpv3d.Attribute.Build.{
  ietf_avp, build_message_type, build_local_session_id, build_remote_session_id,
  build_pseudowire_type, build_l2_specific_sublayer, build_data_sequencing, build_circuit_status,
  build_remote_end_id, build_assigned_cookie, u32_avp,
}
use xcesp_l2tpv3d.AttrType
use xcesp_l2tpv3d.TunnelMessage.{append_optional}
use xcesp_l2tpv3d.SessionMessage.{build_icrq_avps, build_icrp_avps, build_iccn_avps}
use xcesp_l2tpv3d.SessionFsm
use xcesp_l2tpv3d.SessionFsm.Signals.{SessionReports, handle-SessionReports}
use xcesp_l2tpv3d.SessionFsm.Handshake.{netdev_to, session_joined, handshake-session_joined}
use xcesp_l2tpv3d.Dataplane.{
  TunnelParams, SessionParams, MockDataplane, udp, l2tpeth, default_sublayer, ethernet, find_tunnel,
  find_session,
}
use xcesp_l2tpv3d.Dataplane.Ordered.{IsOrdered, Serves, serve, serve-Serves, new_session}
use xcesp_l2tpv3d.Attribute.Build.{build_result_code, error_part}
use xcesp_l2tpv3d.TunnelMessage.{get_message_type}
use xcesp_l2tpv3d.SessionMessage.{build_cdn_avps, parse_session_fields, parse_cdn_fields}
use xcesp_l2tpv3d.SessionMessage.Icrq.{parse_session_fields-build_icrq_avps}
use xcesp_l2tpv3d.SessionMessage.Cdn.{parse_cdn_fields-build_cdn_avps}

abbrev session_config : ℕ → Bool → SessionFsm.SessionConfig
session_config sid initiator = record {
  name = 112 ∷ 119 ∷ [];
  local_ccid = 100;
  local_sid = sid;
  pseudowire_type = 5;
  initiator = initiator;
  l2_specific_sublayer = 1;
  data_sequencing = 0;
  circuit_status = 3;
  cookie = some (1 ∷ 2 ∷ 3 ∷ sid ∷ []);
  peer_cookie = none;
  tx_connect_speed = none;
  rx_connect_speed = none;
  ifname = none;
}

abbrev negotiated : List Avp
negotiated =
    ietf_avp AttrType.l2_specific_sublayer (0 ∷ 1 ∷ []) true
    ∷ ietf_avp AttrType.data_sequencing (0 ∷ 0 ∷ []) true
    ∷ ietf_avp AttrType.circuit_status (0 ∷ 3 ∷ []) true
    ∷ []

abbrev session_ids : ℕ → ℕ → ℕ → List Avp
session_ids mt local remote =
    ietf_avp AttrType.message_type (0 ∷ mt ∷ []) true
    ∷ ietf_avp AttrType.local_session_id (0 ∷ 0 ∷ 0 ∷ local ∷ []) true
    ∷ ietf_avp AttrType.remote_session_id (0 ∷ 0 ∷ 0 ∷ remote ∷ []) true
    ∷ []

abbrev cookie_avp : ℕ → Avp
cookie_avp sid = ietf_avp AttrType.assigned_cookie (1 ∷ 2 ∷ 3 ∷ sid ∷ []) true

abbrev icrq : List Avp
icrq =
    session_ids 10 41 0
    ++ (ietf_avp AttrType.pseudowire_type (0 ∷ 5 ∷ []) true
        ∷ (negotiated
            ++ (ietf_avp AttrType.remote_end_id (112 ∷ 119 ∷ []) true ∷ cookie_avp 41 ∷ [])))

abbrev icrp : List Avp
icrp = session_ids 11 42 41 ++ (negotiated ++ (cookie_avp 42 ∷ []))

abbrev iccn : List Avp
iccn = session_ids 12 41 42 ++ negotiated

build_icrq_avps-icrq :
    build_icrq_avps 41 5 (some (112 ∷ 119 ∷ [])) (SessionFsm.call_args (session_config 41 true))
    ≡ ok icrq
unfolding build_icrq_avps append_optional build_message_type build_local_session_id
    build_remote_session_id u32_avp build_pseudowire_type build_l2_specific_sublayer
    build_data_sequencing build_circuit_status build_remote_end_id build_assigned_cookie pack_u16
    pack_u32
build_icrq_avps-icrq = refl

build_icrp_avps-icrp :
    build_icrp_avps 42 41 (SessionFsm.call_args (session_config 42 false)) ≡ ok icrp
unfolding build_icrp_avps append_optional build_message_type build_local_session_id
    build_remote_session_id u32_avp build_l2_specific_sublayer build_data_sequencing
    build_circuit_status build_assigned_cookie pack_u16 pack_u32
build_icrp_avps-icrp = refl

build_iccn_avps-iccn :
    build_iccn_avps 41 42 (SessionFsm.call_args (session_config 41 true)) ≡ ok iccn
unfolding build_iccn_avps append_optional build_message_type build_local_session_id
    build_remote_session_id u32_avp build_l2_specific_sublayer build_data_sequencing
    build_circuit_status pack_u16 pack_u32
build_iccn_avps-iccn = refl

handshake-session_joined_example :
    let a = session_config 41 true in
    let b = session_config 42 false in
    let (a1, sent_a1) = SessionFsm.on_tunnel_established (SessionFsm.new_fsm a) in
    let (b1, sent_b1) = SessionFsm.on_message icrq (SessionFsm.new_fsm b) in
    let (a2, sent_a2) = SessionFsm.on_message icrp a1 in
    let (b2, sent_b2) = SessionFsm.on_message iccn b1 in
    (sent_a1 ≡ ok (SessionFsm.send_message icrq ∷ []))
    × (sent_b1 ≡ ok (SessionFsm.send_message icrp ∷ []))
    × (sent_a2
        ≡ ok (
            SessionFsm.send_message iccn
            ∷ SessionFsm.dataplane_add_session (netdev_to a b)
            ∷ SessionFsm.session_established
            ∷ []))
    × (sent_b2
        ≡ ok (
            SessionFsm.dataplane_add_session (netdev_to b a) ∷ SessionFsm.session_established ∷ []))
    × (a2 ≡ session_joined a b)
    × (b2 ≡ session_joined b a)
handshake-session_joined_example =
    handshake-session_joined (session_config 41 true) (session_config 42 false) icrq icrp iccn refl
      build_icrq_avps-icrq build_icrp_avps-icrp build_iccn_avps-iccn

-- The tunnel of a session that is up goes down.
handle-SessionReports_example :
    let up = session_joined (session_config 41 true) (session_config 42 false) in
    SessionReports up (SessionFsm.handle SessionFsm.tunnel_lost up)
handle-SessionReports_example =
    handle-SessionReports SessionFsm.tunnel_lost
      (session_joined (session_config 41 true) (session_config 42 false))

abbrev tunnel_params : TunnelParams
tunnel_params = record {
  local_ccid = 100;
  remote_ccid = 200;
  local_address = 1 ∷ [];
  remote_address = 2 ∷ [];
  encap = udp;
  udp_sport = 1701;
  udp_dport = 1701;
}

abbrev session_params : ℕ → SessionParams
session_params sid = record {
  local_ccid = 100;
  local_sid = sid;
  remote_sid = 42;
  ifname = l2tpeth 100 sid;
  cookie = none;
  peer_cookie = none;
  l2spec_type = default_sublayer;
  pseudowire_type = ethernet;
}

-- One session in its tunnel.
abbrev dataplane : MockDataplane
dataplane = record { calls = []; tunnels = tunnel_params ∷ []; sessions = session_params 41 ∷ [] }

dataplane-IsOrdered : IsOrdered dataplane
unfolding find_tunnel find_session
dataplane-IsOrdered = record { in_tunnels = (refl, tt); distinct = (refl, tt) }

serve-Serves_example :
    Serves
      (new_session (session_params 43))
      dataplane
      (serve (new_session (session_params 43)) dataplane)
serve-Serves_example = serve-Serves (new_session (session_params 43)) dataplane dataplane-IsOrdered

parse_session_fields-build_icrq_avps_example :
    (parse_session_fields icrq
      ≡ ok (record {
        local_sid = 41;
        remote_sid = 0;
        pseudowire_type = some 5;
        l2_specific_sublayer = some 1;
        data_sequencing = some 0;
        circuit_status = some 3;
        assigned_cookie = some (1 ∷ 2 ∷ 3 ∷ 41 ∷ []);
        remote_end_id = some (112 ∷ 119 ∷ []);
        tx_connect_speed = none;
        rx_connect_speed = none;
      }))
    × (get_message_type icrq ≡ ok (some 10))
parse_session_fields-build_icrq_avps_example =
    parse_session_fields-build_icrq_avps 41 5 (some (112 ∷ 119 ∷ []))
      (SessionFsm.call_args (session_config 41 true)) icrq build_icrq_avps-icrq

abbrev cdn : List Avp
cdn = session_ids 14 41 42 ++ (ietf_avp AttrType.result_code (0 ∷ 2 ∷ []) true ∷ [])

build_cdn_avps-cdn : build_cdn_avps 41 42 2 none [] ≡ ok cdn
unfolding build_cdn_avps build_message_type build_local_session_id build_remote_session_id u32_avp
    build_result_code error_part pack_u16 pack_u32
build_cdn_avps-cdn = refl

parse_cdn_fields-build_cdn_avps_example :
    (parse_cdn_fields cdn
      ≡ ok (record {
        local_sid = 41;
        remote_sid = 42;
        result_code = 2;
        error_code = none;
        error_message = [];
      }))
    × (get_message_type cdn ≡ ok (some 14))
parse_cdn_fields-build_cdn_avps_example =
    parse_cdn_fields-build_cdn_avps 41 42 2 none [] cdn build_cdn_avps-cdn
