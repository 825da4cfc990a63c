-- ===== src/Examples/Tunnel.antt =====
-- Runs of the tunnel-level messages and of the tunnel state machine.
use xcesp_l2tpv3d.Common.{ℕ, ◌≡◌, refl, arith, true, false, none, some, List, [], ◌∷◌}
use xcesp_l2tpv3d.Exception.{ok}
use xcesp_l2tpv3d.Struct.{pack_u16, pack_u32, unpack_u16}
use xcesp_l2tpv3d.Avp.{Avp, find_avp}
use xcesp_l2tpv3d.Attribute.Build.{
  ietf_avp, build_message_type, build_router_id, build_assigned_control_connection_id,
  pack_capabilities, build_pseudowire_capabilities_list, build_host_name, build_receive_window_size,
  build_firmware_revision,
}
use xcesp_l2tpv3d.AttrType
use xcesp_l2tpv3d.Attribute.Decode.{require_attr, decode_message_type}
use xcesp_l2tpv3d.TunnelMessage.{
  append_optional, mandatory_sccrx_avps, build_sccrx_avps, build_sccrq_avps, build_sccrp_avps,
  build_scccn_avps,
}
use xcesp_l2tpv3d.TunnelFsm
use xcesp_l2tpv3d.TunnelFsm.Signals.{TunnelReports, handle-TunnelReports}
use xcesp_l2tpv3d.TunnelFsm.Transition.{Leads, handle-Leads, name_of}
use xcesp_l2tpv3d.TunnelFsm.Returns.{is_ok}
use xcesp_l2tpv3d.TunnelFsm.Malformed.{Answers, handle-Answers}
use xcesp_l2tpv3d.TunnelFsm.Handshake.{tunnel_joined, handshake-tunnel_joined}
use xcesp_l2tpv3d.Attribute.Build.{build_result_code, error_part}
use xcesp_l2tpv3d.TunnelMessage.{
  build_stopccn_avps, parse_sccrx_fields, parse_stopccn_fields, get_message_type,
}
use xcesp_l2tpv3d.TunnelMessage.RoundTrip.{
  fields_of, parse_sccrx_fields-build_sccrx_avps, parse_stopccn_fields-build_stopccn_avps,
}

abbrev tunnel_config : ℕ → TunnelFsm.TunnelConfig
tunnel_config ccid = record {
  host_name = 112 ∷ 101 ∷ [];
  router_id = 10;
  local_ccid = ccid;
  pw_capabilities = 5 ∷ 4 ∷ [];
  receive_window = 4;
  hello_interval = 60000;
  vendor_name = none;
  firmware_revision = some 256;
}

abbrev sccrx_avps : ℕ → ℕ → List Avp
sccrx_avps mt ccid =
    ietf_avp AttrType.message_type (0 ∷ mt ∷ []) true
    ∷ ietf_avp AttrType.router_id (0 ∷ 0 ∷ 0 ∷ 10 ∷ []) true
    ∷ ietf_avp AttrType.assigned_control_connection_id (0 ∷ 0 ∷ 0 ∷ ccid ∷ []) true
    ∷ ietf_avp AttrType.pseudowire_capabilities_list (0 ∷ 5 ∷ 0 ∷ 4 ∷ []) true
    ∷ ietf_avp AttrType.host_name (112 ∷ 101 ∷ []) true
    ∷ ietf_avp AttrType.receive_window_size (0 ∷ 4 ∷ []) true
    ∷ ietf_avp AttrType.firmware_revision (1 ∷ 0 ∷ []) false
    ∷ []

abbrev scccn_avps : List Avp
scccn_avps = ietf_avp AttrType.message_type (0 ∷ 3 ∷ []) true ∷ []

build_sccrq_avps-tunnel_config :
    build_sccrq_avps (TunnelFsm.sccrx_args (tunnel_config 100)) ≡ ok (sccrx_avps 1 100)
unfolding build_sccrq_avps build_sccrx_avps mandatory_sccrx_avps append_optional build_message_type
    build_router_id build_assigned_control_connection_id build_pseudowire_capabilities_list
    pack_capabilities build_host_name build_receive_window_size build_firmware_revision pack_u16
    pack_u32
build_sccrq_avps-tunnel_config = refl

build_sccrp_avps-tunnel_config :
    build_sccrp_avps (TunnelFsm.sccrx_args (tunnel_config 200)) ≡ ok (sccrx_avps 2 200)
unfolding build_sccrp_avps build_sccrx_avps mandatory_sccrx_avps append_optional build_message_type
    build_router_id build_assigned_control_connection_id build_pseudowire_capabilities_list
    pack_capabilities build_host_name build_receive_window_size build_firmware_revision pack_u16
    pack_u32
build_sccrp_avps-tunnel_config = refl

build_scccn_avps-scccn_avps : build_scccn_avps ≡ ok scccn_avps
unfolding build_scccn_avps build_message_type pack_u16
build_scccn_avps-scccn_avps = refl

handshake-tunnel_joined_example :
    let a = tunnel_config 100 in
    let b = tunnel_config 200 in
    let (a1, sent_a1) = TunnelFsm.on_local_open (TunnelFsm.new_fsm a) in
    let (b1, sent_b1) = TunnelFsm.on_message (sccrx_avps 1 100) (TunnelFsm.new_fsm b) in
    let (a2, sent_a2) = TunnelFsm.on_message (sccrx_avps 2 200) a1 in
    let (b2, sent_b2) = TunnelFsm.on_message scccn_avps b1 in
    (sent_a1 ≡ ok (TunnelFsm.send_message (sccrx_avps 1 100) ∷ []))
    × (sent_b1 ≡ ok (TunnelFsm.send_message (sccrx_avps 2 200) ∷ []))
    × (sent_a2
        ≡ ok (
            TunnelFsm.send_message scccn_avps
            ∷ TunnelFsm.set_hello_timer 60000
            ∷ TunnelFsm.now_established
            ∷ []))
    × (sent_b2 ≡ ok (TunnelFsm.set_hello_timer 60000 ∷ TunnelFsm.now_established ∷ []))
    × (a2 ≡ tunnel_joined a b)
    × (b2 ≡ tunnel_joined b a)
handshake-tunnel_joined_example =
    handshake-tunnel_joined (tunnel_config 100) (tunnel_config 200) (sccrx_avps 1 100)
      (sccrx_avps 2 200) scccn_avps build_sccrq_avps-tunnel_config build_sccrp_avps-tunnel_config
      build_scccn_avps-scccn_avps

-- A tunnel that is up is closed.
abbrev tunnel_up : TunnelFsm.TunnelFsm
tunnel_up = tunnel_joined (tunnel_config 100) (tunnel_config 200)

handle-TunnelReports_example :
    TunnelReports TunnelFsm.established (TunnelFsm.handle (TunnelFsm.local_stop 6) tunnel_up)
handle-TunnelReports_example = handle-TunnelReports (TunnelFsm.local_stop 6) tunnel_up

handle-Leads_example :
    Leads TunnelFsm.established
      (name_of (TunnelFsm.message (sccrx_avps 1 200)))
      (TunnelFsm.handle (TunnelFsm.message (sccrx_avps 1 200)) tunnel_up).0.state
handle-Leads_example = handle-Leads (TunnelFsm.message (sccrx_avps 1 200)) tunnel_up

-- An SCCRQ without any of its fields.
abbrev bare_sccrq : List Avp
bare_sccrq = ietf_avp AttrType.message_type (0 ∷ 1 ∷ []) true ∷ []

bare_sccrq-IsReadable : is_ok (get_message_type bare_sccrq) ≡ true
unfolding get_message_type find_avp decode_message_type require_attr unpack_u16
bare_sccrq-IsReadable = refl

handle-Answers_example :
    Answers
      (TunnelFsm.message bare_sccrq)
      tunnel_up
      (TunnelFsm.handle (TunnelFsm.message bare_sccrq) tunnel_up)
handle-Answers_example =
    handle-Answers (TunnelFsm.message bare_sccrq) tunnel_up
      (record {
        router_id_fits = omega arith;
        ccid_fits = omega arith;
        some_capability = (5, 4 ∷ [], refl);
        capabilities_fit = (omega arith, (omega arith, tt));
        window_fits = omega arith;
        firmware_fits = omega arith;
      })
      bare_sccrq-IsReadable

parse_sccrx_fields-build_sccrx_avps_example :
    (parse_sccrx_fields (sccrx_avps 1 100)
      ≡ ok (fields_of (TunnelFsm.sccrx_args (tunnel_config 100))))
    × (get_message_type (sccrx_avps 1 100) ≡ ok (some 1))
unfolding build_sccrq_avps
parse_sccrx_fields-build_sccrx_avps_example =
    parse_sccrx_fields-build_sccrx_avps 1 (TunnelFsm.sccrx_args (tunnel_config 100))
      (sccrx_avps 1 100) build_sccrq_avps-tunnel_config

abbrev stopccn_avps : List Avp
stopccn_avps =
    ietf_avp AttrType.message_type (0 ∷ 4 ∷ []) true
    ∷ ietf_avp AttrType.assigned_control_connection_id (0 ∷ 0 ∷ 0 ∷ 100 ∷ []) true
    ∷ ietf_avp AttrType.result_code (0 ∷ 2 ∷ 0 ∷ 6 ∷ 104 ∷ 105 ∷ []) true
    ∷ []

build_stopccn_avps-stopccn_avps :
    build_stopccn_avps 100 2 (some 6) (104 ∷ 105 ∷ []) ≡ ok stopccn_avps
unfolding build_stopccn_avps build_message_type build_assigned_control_connection_id
    build_result_code error_part pack_u16 pack_u32
build_stopccn_avps-stopccn_avps = refl

parse_stopccn_fields-build_stopccn_avps_example :
    (parse_stopccn_fields stopccn_avps
      ≡ ok (record {
        assigned_ccid = 100;
        result_code = 2;
        error_code = some 6;
        error_message = 104 ∷ 105 ∷ [];
      }))
    × (get_message_type stopccn_avps ≡ ok (some 4))
parse_stopccn_fields-build_stopccn_avps_example =
    parse_stopccn_fields-build_stopccn_avps 100 2 (some 6) (104 ∷ 105 ∷ []) stopccn_avps
      build_stopccn_avps-stopccn_avps
