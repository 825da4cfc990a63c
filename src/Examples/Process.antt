-- ===== src/Examples/Process.antt =====
-- A run of the process with a configuration that lists no sessions.
use xcesp_l2tpv3d.Common.{◌≡◌, refl, true, none, [], ◌∷◌}
use xcesp_l2tpv3d.Struct.{pack_u16, pack_u32, pack_bbhh, pack_bbhihh, pack_u8}
use xcesp_l2tpv3d.Avp.{encode, encode_all, encode_value}
use xcesp_l2tpv3d.Attribute.Build.{
  build_message_type, build_router_id, build_assigned_control_connection_id, build_host_name,
  build_pseudowire_capabilities_list, build_receive_window_size, u32_avp, pack_capabilities,
}
use xcesp_l2tpv3d.TunnelMessage.{
  append_optional, build_sccrq_avps, build_sccrx_avps, mandatory_sccrx_avps,
}
use xcesp_l2tpv3d.Message.{encode_message, validate_fields}
use xcesp_l2tpv3d.Peer.{send}
use xcesp_l2tpv3d.Dataplane.{MockDataplane}
use xcesp_l2tpv3d.Dataplane.Interface.{mock_dataplane}
use xcesp_l2tpv3d.TunnelFsm.{on_local_open}
use xcesp_l2tpv3d.Config.{DaemonConfig}
use xcesp_l2tpv3d.Tunnel.{new_tunnel, new_sessions}
use xcesp_l2tpv3d.Tunnel.Effect.{◌>>=◌, for_each}
use xcesp_l2tpv3d.Tunnel.Execute.{fire_tunnel, tunnel_actions, send_avps}
use xcesp_l2tpv3d.Tunnel.Dispatch.{start}
use xcesp_l2tpv3d.Daemon.{Daemon, new_daemon, put_tunnel, start_tunnels, start_daemon}
use xcesp_l2tpv3d.Daemon.Invariant.{round, end}
use xcesp_l2tpv3d.Process.{System, serves, needs_dataplane, shared_of, async_main}
use xcesp_l2tpv3d.Process.Provides.{IsBare, async_main-IsBare}
use xcesp_l2tpv3d.Examples.Data.{weak_digests}
use xcesp_l2tpv3d.Examples.DaemonData.{tunnel_entry, daemon_config}

abbrev system : System MockDataplane
system = record { binds = true; default_dataplane = none; time = 100 }

-- One tunnel, to be kept alive.
abbrev keep_alive_config : DaemonConfig
keep_alive_config = record daemon_config {
  tunnels = record (tunnel_entry none) { sessions = [] } ∷ [];
}

async_main-IsBare_example : IsBare true (round 700 ∷ end ∷ []) (async_main system keep_alive_config)
async_main-IsBare_example =
    async_main-IsBare system keep_alive_config (round 700 ∷ end ∷ []) (refl, tt)

-- This process does start.
abbrev serving : Daemon MockDataplane
serving = (start_daemon (new_daemon keep_alive_config (shared_of system none))).0

async_main-serving : async_main system keep_alive_config ≡ serves serving
unfolding async_main needs_dataplane start_daemon start_tunnels start new_tunnel new_sessions
    fire_tunnel tunnel_actions for_each send_avps ◌>>=◌ on_local_open build_sccrq_avps
    build_sccrx_avps mandatory_sccrx_avps append_optional build_message_type build_router_id
    build_assigned_control_connection_id build_host_name build_pseudowire_capabilities_list
    build_receive_window_size u32_avp send encode_message validate_fields encode_all encode
    encode_value put_tunnel pack_capabilities pack_u16 pack_u32 pack_bbhh pack_bbhihh pack_u8
async_main-serving = refl
