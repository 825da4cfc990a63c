-- ===== src/Config/Load.antt =====
-- `_parse_global` and `_parse` of xcesp_l2tpv3d/config.py, of the table that `tomllib` gives.
use xcesp_l2tpv3d.Common.{not, if◌then◌else◌}
use xcesp_l2tpv3d.Common.Int.{pos}
use xcesp_l2tpv3d.Struct.{Bytes}
use xcesp_l2tpv3d.Auth.{eq_bytes}
use xcesp_l2tpv3d.Config.{GlobalConfig, DaemonConfig, LogLevel, debug, info, warning, error}
use xcesp_l2tpv3d.Config.Value.{
  Value, Table, string, integer, array, table, nil, end, lookup, or_default,
}
use xcesp_l2tpv3d.Config.Convert.{Python, codes, lower}
use xcesp_l2tpv3d.Config.Check.{
  Checked, failed, passed, config_error, ◌>>=◌, ◌>>◌, fail_if, within, to_int, to_str,
  is_ip_address, global_no_table, log_level_invalid, port_range, listen_address_invalid,
}
use xcesp_l2tpv3d.Config.Tunnel.{dict_of, parse_tunnels}

-- `lvl not in ("debug", "info", "warning", "error")`
unfoldable pub parse_log_level : Bytes → Checked LogLevel
parse_log_level lvl =
    if eq_bytes lvl (codes "debug")
    then passed debug
    else if eq_bytes lvl (codes "info")
    then passed info
    else if eq_bytes lvl (codes "warning")
    then passed warning
    else if eq_bytes lvl (codes "error")
    then passed error
    else failed (config_error log_level_invalid)

module _ ⦃py : Python⦄ where
  -- `_parse_global`
  unfoldable pub parse_global : Value → Checked GlobalConfig
  parse_global section = do
    t ← dict_of global_no_table section
    lvl ←
        parse_log_level (lower (to_str (or_default (lookup "log_level" t) (string (codes "info")))))
    raw_port ← to_int (or_default (lookup "listen_port" t) (integer (pos 1701)))
    port ← within 1 65535 port_range raw_port
    let addr = to_str (or_default (lookup "listen_address" t) (string (codes "0.0.0.0")))
    fail_if (not (is_ip_address addr)) listen_address_invalid
    passed (record { log_level = lvl; listen_address = addr; listen_port = port })

  -- The end of `_parse`, of the table that `tomllib.loads` returns.
  unfoldable pub parse_config : Table → Checked DaemonConfig
  parse_config data_table = do
    global_config ← parse_global (or_default (lookup "global" data_table) (table end))
    tunnels ← parse_tunnels (or_default (lookup "tunnel" data_table) (array nil))
    passed (record { global = global_config; tunnels = tunnels })
