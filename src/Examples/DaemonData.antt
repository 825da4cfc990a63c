-- ===== src/Examples/DaemonData.antt =====
-- Data of the runs of a tunnel and of the daemon.
use xcesp_l2tpv3d.Common.{refl, arith, true, false, none, some, [], ◌∷◌, Option}
use xcesp_l2tpv3d.Common.Int.{pos}
use xcesp_l2tpv3d.Struct.{Bytes}
use xcesp_l2tpv3d.Auth.{hmac_md5}
use xcesp_l2tpv3d.Peer.{new_peer}
use xcesp_l2tpv3d.Peer.Invariant.{WellFormed}
use xcesp_l2tpv3d.Peer.Reachable.{Reaches-WellFormed, start}
use xcesp_l2tpv3d.Dataplane.{MockDataplane}
use xcesp_l2tpv3d.TunnelFsm as TunnelFsm
use xcesp_l2tpv3d.SessionFsm as SessionFsm
use xcesp_l2tpv3d.Config.{TunnelConfigEntry, SessionConfigEntry, DaemonConfig, ethernet, info}
use xcesp_l2tpv3d.Tunnel.{Shared, Tunnel, tunnel_config, session_config}
use xcesp_l2tpv3d.Daemon.{Daemon}
use xcesp_l2tpv3d.Examples.Data.{secret, weak_digests}

abbrev pub session_entry : SessionConfigEntry
session_entry = record {
  name = 112 ∷ 119 ∷ [];
  pseudowire_type = ethernet;
  local_sid = 9;
  initiator = true;
  l2_specific_sublayer = 1;
  data_sequencing = 0;
  circuit_status = 3;
  cookie = none;
  peer_cookie = none;
  tx_connect_speed = none;
  rx_connect_speed = none;
  ifname = none;
}

abbrev pub tunnel_entry : Option Bytes → TunnelConfigEntry
tunnel_entry password = record {
  name = 116 ∷ 49 ∷ [];
  local_address = 49 ∷ 46 ∷ 50 ∷ 46 ∷ 51 ∷ 46 ∷ 52 ∷ [];
  remote_address = 49 ∷ 46 ∷ 50 ∷ 46 ∷ 51 ∷ 46 ∷ 53 ∷ [];
  local_ccid = 7;
  host_name = 112 ∷ 101 ∷ [];
  router_id = 10;
  remote_ccid = 0;
  password = password;
  digest_alg = hmac_md5;
  hello_interval = 60000;
  retransmit_interval = 1000;
  max_retries = 5;
  receive_window = 4;
  tx_connect_speed = pos 100;
  rx_connect_speed = pos 100;
  vendor_name = none;
  firmware_revision = none;
  sessions = session_entry ∷ [];
}

abbrev pub session_9 : SessionFsm.SessionFsm
session_9 = SessionFsm.new_fsm (session_config 7 session_entry)

-- A tunnel with one session, as it is at first.
abbrev pub tunnel_7 : Option Bytes → Tunnel
tunnel_7 password = record {
  cfg = tunnel_entry password;
  remote_addr = (49 ∷ 46 ∷ 50 ∷ 46 ∷ 51 ∷ 46 ∷ 53 ∷ [], 1701);
  peer = new_peer (49 ∷ 46 ∷ 50 ∷ 46 ∷ 51 ∷ 46 ∷ 53 ∷ [], 1701) 7 0 4 1000 5;
  fsm = TunnelFsm.new_fsm (tunnel_config (tunnel_entry password));
  hello_handle = none;
  sessions_by_local = session_9 ∷ [];
  sessions_by_remote = [];
  tunnel_dp_added = false;
}

abbrev pub idle_shared : Shared MockDataplane
idle_shared = record {
  transport = [];
  time = 0;
  dataplane = some (record { calls = []; tunnels = []; sessions = [] });
}

abbrev pub daemon_config : DaemonConfig
daemon_config = record {
  global = record { log_level = info; listen_address = []; listen_port = 1701 };
  tunnels = tunnel_entry (some secret) ∷ [];
}

-- A daemon with one tunnel.
abbrev pub one_tunnel : Option Bytes → Daemon MockDataplane
one_tunnel password = record {
  cfg = daemon_config;
  shared = idle_shared;
  tunnels = tunnel_7 password ∷ [];
  stopping = false;
}

pub tunnel_7-WellFormed : (password : Option Bytes) → WellFormed (tunnel_7 password).peer
tunnel_7-WellFormed password =
    Reaches-WellFormed _ _ (start (tunnel_7 password).peer) _ _ _ _ _ _ (omega arith) refl
