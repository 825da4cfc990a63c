-- ===== src/Examples/Config.antt =====
-- Runs of the configuration parser.
use xcesp_l2tpv3d.Common.{◌≡◌, refl, true, false, none, some, [], ◌∷◌, All}
use xcesp_l2tpv3d.Common.Int.{pos}
use xcesp_l2tpv3d.Auth.{hmac_md5, eq_bytes}
use xcesp_l2tpv3d.TunnelFsm.Returns.{IsValid}
use xcesp_l2tpv3d.Config.{TunnelConfigEntry, SessionConfigEntry, DaemonConfig, ethernet_vlan, info}
use xcesp_l2tpv3d.Config.Value.{Table, string, integer, array, table, nil, cons, end, entry, lookup}
use xcesp_l2tpv3d.Config.Convert.{
  Python, codes, lower, truth, from_hex, from_hex_loop, hex_class, decimal, octet, split_dots,
  ipv4_address,
}
use xcesp_l2tpv3d.Config.Check.{
  passed, within, within_seconds, req_str, req_int, to_int, to_float, to_str, optional_int,
  optional_str, is_ip_address,
}
use xcesp_l2tpv3d.Config.Session.{
  parse_session, parse_cookie, parse_pseudowire_type, parse_router_id,
}
use xcesp_l2tpv3d.Config.Tunnel.{
  parse_tunnel, parse_sessions, parse_password, parse_digest_alg, has_name, has_sid, tunnels_loop,
  parse_tunnels,
}
use xcesp_l2tpv3d.Config.Load.{parse_global, parse_config, parse_log_level}
use xcesp_l2tpv3d.Config.Accepted.{IsAccepted, parse_tunnel-IsAccepted}
use xcesp_l2tpv3d.Config.Drives.{HaveNames, parse_config-IsValid, parse_config-IsSound}
use xcesp_l2tpv3d.Tunnel.{tunnel_config}
use xcesp_l2tpv3d.Dataplane.Interface.{mock_dataplane}
use xcesp_l2tpv3d.Daemon.{new_daemon}
use xcesp_l2tpv3d.Daemon.Invariant.{take_turns, begin, datagram, round}
use xcesp_l2tpv3d.Daemon.Sound.{IsSound}
use xcesp_l2tpv3d.Examples.Data.{weak_digests, hello_bytes}
use xcesp_l2tpv3d.Examples.DaemonData.{idle_shared}

-- A library that reads no number from a text and knows no IPv6 address.
instance abbrev plain_python : Python
plain_python = record {
  int_of_text = λ s. none;
  float_of_text = λ s. none;
  str_of = λ v. [];
  is_ipv6_address = λ s. false;
}

abbrev session_table : Table
session_table = entry "name" (string (codes "pw")) (
    entry "local_sid" (integer (pos 9)) (
      entry "pseudowire_type" (string (codes "Ethernet-VLAN"))
        (entry "cookie" (string (codes "DE ad be ef")) end)))

abbrev tunnel_table : Table
tunnel_table = entry "name" (string (codes "t1")) (
    entry "local_address" (string (codes "10.0.0.1")) (
      entry "remote_address" (string (codes "10.0.0.2")) (
        entry "local_ccid" (integer (pos 7)) (
          entry "host_name" (string (codes "pe")) (
            entry "router_id" (string (codes "192.168.0.1")) (
              entry "password" (string (codes "s3"))
                (entry "session" (array (cons (table session_table) nil)) end)))))))

abbrev parsed_session : SessionConfigEntry
parsed_session = record {
  name = codes "pw";
  pseudowire_type = ethernet_vlan;
  local_sid = 9;
  initiator = true;
  l2_specific_sublayer = 1;
  data_sequencing = 0;
  circuit_status = 3;
  cookie = some (222 ∷ 173 ∷ 190 ∷ 239 ∷ []);
  peer_cookie = none;
  tx_connect_speed = none;
  rx_connect_speed = none;
  ifname = none;
}

abbrev parsed_tunnel : TunnelConfigEntry
parsed_tunnel = record {
  name = codes "t1";
  local_address = codes "10.0.0.1";
  remote_address = codes "10.0.0.2";
  local_ccid = 7;
  host_name = codes "pe";
  router_id = 3232235521;
  remote_ccid = 0;
  password = some (codes "s3");
  digest_alg = hmac_md5;
  hello_interval = 60000;
  retransmit_interval = 1000;
  max_retries = 5;
  receive_window = 4;
  tx_connect_speed = pos 100_000_000;
  rx_connect_speed = pos 100_000_000;
  vendor_name = none;
  firmware_revision = none;
  sessions = parsed_session ∷ [];
}

parse_tunnel-tunnel_table : parse_tunnel tunnel_table ≡ passed parsed_tunnel
unfolding parse_tunnel parse_sessions parse_session lookup req_str req_int within within_seconds
    to_int to_float to_str optional_int optional_str is_ip_address ipv4_address split_dots octet
    decimal parse_router_id parse_password parse_digest_alg lower eq_bytes parse_pseudowire_type
    truth parse_cookie from_hex from_hex_loop hex_class has_name has_sid
parse_tunnel-tunnel_table = refl

parse_tunnel-IsAccepted_example : IsAccepted parsed_tunnel
parse_tunnel-IsAccepted_example =
    parse_tunnel-IsAccepted tunnel_table parsed_tunnel parse_tunnel-tunnel_table

abbrev config_table : Table
config_table = entry "tunnel" (array (cons (table tunnel_table) nil)) end

abbrev parsed_config : DaemonConfig
parsed_config = record {
  global = record { log_level = info; listen_address = codes "0.0.0.0"; listen_port = 1701 };
  tunnels = parsed_tunnel ∷ [];
}

parse_config-config_table : parse_config config_table ≡ passed parsed_config
unfolding parse_config parse_global parse_tunnels tunnels_loop lookup parse_log_level lower eq_bytes
    to_int within to_str is_ip_address ipv4_address split_dots octet decimal has_name
parse_config-config_table = rw parse_tunnel-tunnel_table refl

parse_config-IsValid_example :
    HaveNames parsed_config.tunnels [] × All (λ e. IsValid (tunnel_config e)) parsed_config.tunnels
parse_config-IsValid_example =
    parse_config-IsValid config_table parsed_config parse_config-config_table

parse_config-IsSound_example : IsSound (
    take_turns
      (begin ∷ datagram hello_bytes ∷ round 900 ∷ [])
      (new_daemon parsed_config idle_shared))
parse_config-IsSound_example =
    parse_config-IsSound config_table parsed_config idle_shared
      (begin ∷ datagram hello_bytes ∷ round 900 ∷ []) parse_config-config_table
