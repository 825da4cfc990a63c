-- ===== src/Config/Session.antt =====
-- `_parse_session`, `_parse_cookie` and `_parse_router_id` of xcesp_l2tpv3d/config.py.
use xcesp_l2tpv3d.Common.{ℕ, Bool, true, not, ◌||◌, Option, none, some, length, ◌==◌, if◌then◌else◌}
use xcesp_l2tpv3d.Common.Int.{pos}
use xcesp_l2tpv3d.Struct.{Bytes}
use xcesp_l2tpv3d.Auth.{eq_bytes}
use xcesp_l2tpv3d.Config.{SessionConfigEntry, PseudowireType, ethernet, ethernet_vlan}
use xcesp_l2tpv3d.Config.Value.{Value, Table, string, integer, boolean, lookup, or_default}
use xcesp_l2tpv3d.Config.Convert.{Python, codes, lower, truth, from_hex, ipv4_address}
use xcesp_l2tpv3d.Config.Check.{
  Checked, failed, passed, config_error, ◌>>=◌, within, req_str, req_int, to_int, to_str,
  optional_int, optional_str, local_sid_range, pseudowire_type_invalid,
  l2_specific_sublayer_invalid, data_sequencing_invalid, circuit_status_range, ifname_no_string,
  cookie_no_string, cookie_no_hex, cookie_length, router_id_range, router_id_no_address,
  router_id_wrong_type,
}

-- `len(b) not in (0, 4, 8)`
abbrev pub has_bad_length : Bytes → Bool
has_bad_length b = not (length b == 0 || (length b == 4 || length b == 8))

abbrev pub cookie_of : Option Bytes → Checked (Option Bytes)
cookie_of none = failed (config_error cookie_no_hex)
cookie_of (some b) =
    if has_bad_length b then failed (config_error cookie_length) else passed (some b)

-- `_parse_cookie`
unfoldable pub parse_cookie : Option Value → Checked (Option Bytes)
parse_cookie none = passed none
parse_cookie (some (string raw)) = cookie_of (from_hex raw)
parse_cookie (some _) = failed (config_error cookie_no_string)

abbrev pub address_of : Option ℕ → Checked ℕ
address_of none = failed (config_error router_id_no_address)
address_of (some n) = passed n

-- `_parse_router_id`
unfoldable pub parse_router_id : Value → Checked ℕ
parse_router_id (integer raw) = within 0 0xFFFF_FFFF router_id_range raw
parse_router_id (boolean b) = passed (if b then 1 else 0)
parse_router_id (string raw) = address_of (ipv4_address raw)
parse_router_id _ = failed (config_error router_id_wrong_type)

-- The two accepted texts.
unfoldable pub parse_pseudowire_type : Bytes → Checked PseudowireType
parse_pseudowire_type raw =
    if eq_bytes raw (codes "ethernet")
    then passed ethernet
    else if eq_bytes raw (codes "ethernet-vlan")
    then passed ethernet_vlan
    else failed (config_error pseudowire_type_invalid)

module _ ⦃py : Python⦄ where
  -- `_parse_session`
  unfoldable pub parse_session : Table → Checked SessionConfigEntry
  parse_session s = do
    name ← req_str "name" s
    raw_sid ← req_int "local_sid" s
    let pw_raw =
        lower (to_str (or_default (lookup "pseudowire_type" s) (string (codes "ethernet"))))
    local_sid ← within 1 0xFFFF_FFFF local_sid_range raw_sid
    pseudowire_type ← parse_pseudowire_type pw_raw
    let initiator = truth (or_default (lookup "initiator" s) (boolean true))
    raw_l2s ← to_int (or_default (lookup "l2_specific_sublayer" s) (integer (pos 1)))
    l2s ← within 0 1 l2_specific_sublayer_invalid raw_l2s
    raw_seq ← to_int (or_default (lookup "data_sequencing" s) (integer (pos 0)))
    data_seq ← within 0 2 data_sequencing_invalid raw_seq
    raw_status ← to_int (or_default (lookup "circuit_status" s) (integer (pos 3)))
    circuit_status ← within 0 0xFFFF circuit_status_range raw_status
    cookie ← parse_cookie (lookup "cookie" s)
    peer_cookie ← parse_cookie (lookup "peer_cookie" s)
    tx ← optional_int (lookup "tx_connect_speed" s)
    rx ← optional_int (lookup "rx_connect_speed" s)
    ifname ← optional_str ifname_no_string (lookup "ifname" s)
    passed (record {
      name = name;
      pseudowire_type = pseudowire_type;
      local_sid = local_sid;
      initiator = initiator;
      l2_specific_sublayer = l2s;
      data_sequencing = data_seq;
      circuit_status = circuit_status;
      cookie = cookie;
      peer_cookie = peer_cookie;
      tx_connect_speed = tx;
      rx_connect_speed = rx;
      ifname = ifname;
    })
