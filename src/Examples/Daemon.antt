-- ===== src/Examples/Daemon.antt =====
-- Runs of a tunnel and of the daemon.
use xcesp_l2tpv3d.Common.{
  ◌≡◌, ◌⊎◌, refl, arith, true, not, Bool, none, some, is_some, List, [], ◌∷◌, ◌++◌,
}
use xcesp_l2tpv3d.Exception.{ok, Result}
use xcesp_l2tpv3d.Struct.{Bytes, pack_u16, pack_u32, pack_bbhh, pack_bbhihh, pack_u8}
use xcesp_l2tpv3d.Avp.{Avp, encode, encode_all, encode_value, find_avp}
use xcesp_l2tpv3d.AttrType
use xcesp_l2tpv3d.Attribute.Build.{
  ietf_avp, build_message_type, build_local_session_id, build_remote_session_id, build_result_code,
  error_part, u32_avp, build_pseudowire_type, build_l2_specific_sublayer, build_data_sequencing,
  build_circuit_status, build_remote_end_id,
}
use xcesp_l2tpv3d.TunnelMessage.{append_optional}
use xcesp_l2tpv3d.SessionMessage.{CallArgs, build_icrq_avps, build_cdn_avps}
use xcesp_l2tpv3d.Message.{ControlMessage, encode_message, validate_fields}
use xcesp_l2tpv3d.Peer.{Peer, send, tick}
use xcesp_l2tpv3d.Dataplane.{MockDataplane}
use xcesp_l2tpv3d.Dataplane.Interface.{mock_dataplane}
use xcesp_l2tpv3d.TunnelFsm as TunnelFsm
use xcesp_l2tpv3d.TunnelFsm.Returns.{is_ok}
use xcesp_l2tpv3d.Tunnel.{find_sid}
use xcesp_l2tpv3d.Tunnel.Effect.{◌>>=◌, for_each}
use xcesp_l2tpv3d.Tunnel.Execute.{send_avps, fire_tunnel, tunnel_actions}
use xcesp_l2tpv3d.Tunnel.Dispatch.{
  handle_datagram, handle_message, handle_delivered, read_message, close,
}
use xcesp_l2tpv3d.Tunnel.Authentic.{Admitted, handle_datagram-Admitted}
use xcesp_l2tpv3d.Tunnel.Send.{IsSignature, outgoing, read_message-send_avps}
use xcesp_l2tpv3d.Tunnel.Armed.{closed, run, IsArmed, run-IsArmed}
use xcesp_l2tpv3d.Tunnel.Routing.{cdn, build_reply, handled_by, handle_delivered-build_reply}
use xcesp_l2tpv3d.Tunnel.Inbound.{here, opened_by, handle_delivered-build_icrq_avps}
use xcesp_l2tpv3d.Daemon.{tunnel_at, tick_round}
use xcesp_l2tpv3d.Daemon.Demux.{Delivers, dispatch_datagram-Delivers}
use xcesp_l2tpv3d.Daemon.Sound.{IsSound}
use xcesp_l2tpv3d.Daemon.Round.{tick_round-removes_dead}
use xcesp_l2tpv3d.Examples.Data.{
  weak_digests, secret, hello_avp, hello_message, hello_bytes, signed_bytes,
}
use xcesp_l2tpv3d.Examples.DaemonData.{
  tunnel_7, tunnel_entry, session_9, idle_shared, one_tunnel, tunnel_7-WellFormed,
}

-- A signed datagram, and a tunnel with the password.
handle_datagram-Admitted_example :
    (handle_datagram signed_bytes (idle_shared, tunnel_7 (some secret))
      ≡ ((idle_shared, tunnel_7 (some secret)), ok tt))
    ⊎ ((m : ControlMessage) × Admitted signed_bytes (tunnel_entry (some secret)) m
        × (handle_datagram signed_bytes (idle_shared, tunnel_7 (some secret))
            ≡ handle_message m (idle_shared, tunnel_7 (some secret))))
handle_datagram-Admitted_example =
    handle_datagram-Admitted signed_bytes (idle_shared, tunnel_7 (some secret)) (omega arith)

-- A tunnel without a password sends a HELLO.
abbrev sent : Result (Unit {0})
sent = (send_avps (hello_avp ∷ []) (idle_shared, tunnel_7 none)).1

sent_ok : is_ok sent ≡ true
unfolding send_avps ◌>>=◌ send encode_message validate_fields encode_all encode encode_value
    pack_bbhh pack_bbhihh pack_u8 pack_u16 pack_u32
sent_ok = refl

find_none : find_avp (hello_avp ∷ []) 59 0 ≡ none
unfolding find_avp
find_none = refl

read_message-send_avps_example :
    (wire : Bytes) × (signature : List Avp) × IsSignature none 0 signature
    × ((send_avps (hello_avp ∷ []) (idle_shared, tunnel_7 none)).0.0.transport
        ≡ [] ++ ((tunnel_7 none).remote_addr, wire) ∷ [])
    × (read_message (tunnel_entry none) wire
        ≡ ok (record (outgoing (tunnel_7 none).peer (hello_avp ∷ [])) {
          avps = (hello_avp ∷ []) ++ signature;
        }))
read_message-send_avps_example =
    read_message-send_avps (hello_avp ∷ []) idle_shared (tunnel_7 none) (tunnel_entry none) refl
      refl (omega arith) find_none sent_ok

-- The end of a new tunnel.
close_ok : is_ok (run {S = MockDataplane} closed (idle_shared, tunnel_7 none)).1 ≡ true
unfolding close fire_tunnel tunnel_actions for_each ◌>>=◌ TunnelFsm.on_local_close
close_ok = refl

run-IsArmed_example : IsArmed (run {S = MockDataplane} closed (idle_shared, tunnel_7 none)).0.1
run-IsArmed_example =
    run-IsArmed {S = MockDataplane} closed (idle_shared, tunnel_7 none) refl close_ok

-- A CDN for the session with id 9.
abbrev cdn_avps : List Avp
cdn_avps =
    ietf_avp AttrType.message_type (0 ∷ 14 ∷ []) true
    ∷ ietf_avp AttrType.local_session_id (0 ∷ 0 ∷ 0 ∷ 5 ∷ []) true
    ∷ ietf_avp AttrType.remote_session_id (0 ∷ 0 ∷ 0 ∷ 9 ∷ []) true
    ∷ ietf_avp AttrType.result_code (0 ∷ 3 ∷ []) true
    ∷ []

build_reply-cdn : build_reply (cdn 3 none []) 5 9 ≡ ok cdn_avps
unfolding build_cdn_avps build_message_type build_local_session_id build_remote_session_id
    build_result_code error_part u32_avp pack_u16 pack_u32
build_reply-cdn = refl

find_sid-session_9 : find_sid 9 (tunnel_7 none).sessions_by_local ≡ some session_9
unfolding find_sid
find_sid-session_9 = refl

handle_delivered-build_reply_example :
    handle_delivered cdn_avps (idle_shared, tunnel_7 none)
    ≡ handled_by 9 cdn_avps (idle_shared, tunnel_7 none)
handle_delivered-build_reply_example =
    handle_delivered-build_reply (cdn 3 none []) 5 9 cdn_avps idle_shared (tunnel_7 none) session_9
      (omega arith) find_sid-session_9 build_reply-cdn

-- An ICRQ for the session named "pw".
abbrev icrq_args : CallArgs
icrq_args = record {
  l2_specific_sublayer = 1;
  data_sequencing = 0;
  circuit_status = 3;
  assigned_cookie = none;
  tx_connect_speed = none;
  rx_connect_speed = none;
}

abbrev icrq_avps : List Avp
icrq_avps =
    ietf_avp AttrType.message_type (0 ∷ 10 ∷ []) true
    ∷ ietf_avp AttrType.local_session_id (0 ∷ 0 ∷ 0 ∷ 5 ∷ []) true
    ∷ ietf_avp AttrType.remote_session_id (0 ∷ 0 ∷ 0 ∷ 0 ∷ []) true
    ∷ ietf_avp AttrType.pseudowire_type (0 ∷ 5 ∷ []) true
    ∷ ietf_avp AttrType.l2_specific_sublayer (0 ∷ 1 ∷ []) true
    ∷ ietf_avp AttrType.data_sequencing (0 ∷ 0 ∷ []) true
    ∷ ietf_avp AttrType.circuit_status (0 ∷ 3 ∷ []) true
    ∷ ietf_avp AttrType.remote_end_id (112 ∷ 119 ∷ []) true
    ∷ []

build_icrq_avps-icrq_avps : build_icrq_avps 5 5 (some (112 ∷ 119 ∷ [])) icrq_args ≡ ok icrq_avps
unfolding build_icrq_avps append_optional build_message_type build_local_session_id
    build_remote_session_id u32_avp build_pseudowire_type build_l2_specific_sublayer
    build_data_sequencing build_circuit_status build_remote_end_id pack_u16 pack_u32
build_icrq_avps-icrq_avps = refl

handle_delivered-build_icrq_avps_example :
    handle_delivered icrq_avps (idle_shared, tunnel_7 none)
    ≡ opened_by (some 9) icrq_avps (idle_shared, tunnel_7 none)
handle_delivered-build_icrq_avps_example =
    handle_delivered-build_icrq_avps 5 5 (some (112 ∷ 119 ∷ [])) icrq_args icrq_avps idle_shared
      (tunnel_7 none) (some 9) (here session_9 [] (refl, refl)) build_icrq_avps-icrq_avps

-- A HELLO for the tunnel with id 7.
encode_message-hello : encode_message none none hello_message ≡ ok hello_bytes
unfolding encode_message validate_fields pack_bbhihh encode_all encode encode_value pack_bbhh
    pack_u8 pack_u16 pack_u32
encode_message-hello = refl

dispatch_datagram-Delivers_example :
    Delivers hello_bytes 7 (one_tunnel none) (tunnel_at 7 (one_tunnel none).tunnels)
dispatch_datagram-Delivers_example =
    dispatch_datagram-Delivers hello_message hello_bytes (one_tunnel none) encode_message-hello

-- A round of ticks of a daemon whose peer is alive.
one_tunnel-IsSound : IsSound (one_tunnel none)
unfolding tunnel_at
one_tunnel-IsSound = record {
  distinct = (refl, tt);
  shared = tt;
  tunnels = (tunnel_7-WellFormed none, tt);
  configured = omega arith;
}

tunnel_at-one_tunnel : tunnel_at 7 (one_tunnel none).tunnels ≡ some (tunnel_7 none)
unfolding tunnel_at
tunnel_at-one_tunnel = refl

tick_round-removes_dead_example :
    (is_ok (tick_round 500 (one_tunnel none)).1 ≡ true)
    × ((resends : List Bytes) × (dead : Bool) × (p : Peer) × (tick 500 (tunnel_7 none).peer
          ≡ ok (resends, dead, p))
        × (is_some (tunnel_at 7 (tick_round 500 (one_tunnel none)).0.tunnels) ≡ not dead))
tick_round-removes_dead_example =
    tick_round-removes_dead 500 7 (tunnel_7 none) (one_tunnel none) one_tunnel-IsSound
      tunnel_at-one_tunnel
