-- ===== src/Tunnel.antt =====
-- `Tunnel` of xcesp_l2tpv3d/main.py: its state, what it shares with the other tunnels, and
-- `__init__`. A session is kept once, under its local id; the index by the id of the peer holds the
-- local id of the same object.
pub mod Effect
pub mod Correlate
pub mod Execute
pub mod Dispatch
pub mod Fixed
pub mod Timer
pub mod Armed
pub mod Send
pub mod Authentic
pub mod Identity
pub mod Reliable
pub mod WellFormed
pub mod Returns
pub mod Routing
pub mod Inbound
pub mod Quiet
pub mod KeepAlive
use xcesp_l2tpv3d.Common.{
  ℕ, ◌^◌, Bool, true, false, Option, none, some, List, [], ◌∷◌, ◌==◌, if◌then◌else◌,
}
use xcesp_l2tpv3d.Common.Int.{ℤ, pos, negsuc}
use xcesp_l2tpv3d.Struct.{Bytes}
use xcesp_l2tpv3d.Peer.{Peer, SockAddr, new_peer}
use xcesp_l2tpv3d.TunnelFsm.{TunnelConfig, TunnelFsm}
use xcesp_l2tpv3d.TunnelFsm as TunnelFsm
use xcesp_l2tpv3d.SessionFsm.{SessionConfig, SessionFsm}
use xcesp_l2tpv3d.SessionFsm as SessionFsm
use xcesp_l2tpv3d.Config.{TunnelConfigEntry, SessionConfigEntry, pseudowire_number}

-- `L2TP_UDP_PORT`
abbrev pub l2tp_udp_port : ℕ
l2tp_udp_port = 1701

-- What all tunnels hold a reference to: the datagrams handed to the transport, the clock of the
-- event loop and the dataplane, if there is one.
pub record Shared (S : Type 0) : Type 0 where
  pub transport : List (SockAddr × Bytes)
  pub time : ℕ
  pub dataplane : Option S

-- `hello_handle` is the time at which the timer runs out, if it is set.
pub record Tunnel : Type 0 where
  pub cfg : TunnelConfigEntry
  pub remote_addr : SockAddr
  pub peer : Peer
  pub fsm : TunnelFsm
  pub hello_handle : Option ℕ
  pub sessions_by_local : List SessionFsm
  pub sessions_by_remote : List (ℕ × ℕ)
  pub tunnel_dp_added : Bool

-- `Tunnel.local_ccid`
abbrev pub local_ccid : Tunnel → ℕ
local_ccid t = t.cfg.local_ccid

-- A speed as the session takes it: `_u64_avp` refuses a negative number as it does 2^64, and the
-- machine has no negative numbers.
abbrev pub speed : Option ℤ → Option ℕ
speed none = none
speed (some (pos bps)) = some bps
speed (some (negsuc k)) = some (2 ^ 64)

abbrev pub peer_of : TunnelConfigEntry → Peer
peer_of cfg =
    new_peer (cfg.remote_address, l2tp_udp_port) cfg.local_ccid cfg.remote_ccid cfg.receive_window
      cfg.retransmit_interval cfg.max_retries

-- `pw_capabilities` keeps its default.
abbrev pub tunnel_config : TunnelConfigEntry → TunnelConfig
tunnel_config cfg = record {
  host_name = cfg.host_name;
  router_id = cfg.router_id;
  local_ccid = cfg.local_ccid;
  pw_capabilities = 5 ∷ 4 ∷ [];
  receive_window = cfg.receive_window;
  hello_interval = cfg.hello_interval;
  vendor_name = cfg.vendor_name;
  firmware_revision = cfg.firmware_revision;
}

abbrev pub session_config : ℕ → SessionConfigEntry → SessionConfig
session_config ccid scfg = record {
  name = scfg.name;
  local_ccid = ccid;
  local_sid = scfg.local_sid;
  pseudowire_type = pseudowire_number scfg.pseudowire_type;
  initiator = scfg.initiator;
  l2_specific_sublayer = scfg.l2_specific_sublayer;
  data_sequencing = scfg.data_sequencing;
  circuit_status = scfg.circuit_status;
  cookie = scfg.cookie;
  peer_cookie = scfg.peer_cookie;
  tx_connect_speed = speed scfg.tx_connect_speed;
  rx_connect_speed = speed scfg.rx_connect_speed;
  ifname = scfg.ifname;
}

-- `sessions_by_local[sid]`
unfoldable pub find_sid : ℕ → List SessionFsm → Option SessionFsm
find_sid sid [] = none
find_sid sid (s ∷ sessions) = if s.config.local_sid == sid then some s else find_sid sid sessions

-- `sessions_by_local[sess.config.local_sid] = sess`, in a dict that keeps the order of insertion.
unfoldable pub put_session : SessionFsm → List SessionFsm → List SessionFsm
put_session sess [] = sess ∷ []
put_session sess (s ∷ sessions) =
    if s.config.local_sid == sess.config.local_sid
    then sess ∷ sessions
    else s ∷ put_session sess sessions

unfoldable pub new_sessions : ℕ → List SessionConfigEntry → List SessionFsm → List SessionFsm
new_sessions ccid [] sessions = sessions
new_sessions ccid (scfg ∷ scfgs) sessions =
    new_sessions ccid scfgs (put_session (SessionFsm.new_fsm (session_config ccid scfg)) sessions)

-- `Tunnel.__init__`
unfoldable pub new_tunnel : TunnelConfigEntry → Tunnel
new_tunnel cfg = record {
  cfg = cfg;
  remote_addr = (cfg.remote_address, l2tp_udp_port);
  peer = peer_of cfg;
  fsm = TunnelFsm.new_fsm (tunnel_config cfg);
  hello_handle = none;
  sessions_by_local = new_sessions cfg.local_ccid cfg.sessions [];
  sessions_by_remote = [];
  tunnel_dp_added = false;
}
