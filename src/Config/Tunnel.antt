-- ===== src/Config/Tunnel.antt =====
-- `_parse_tunnel` and `_parse_tunnels` of xcesp_l2tpv3d/config.py.
use xcesp_l2tpv3d.Common.{
  ℕ, Bool, false, not, ◌||◌, Option, none, some, List, [], ◌∷◌, ◌==◌, if◌then◌else◌,
}
use xcesp_l2tpv3d.Common.Int.{ℤ, pos}
use xcesp_l2tpv3d.Struct.{Bytes}
use xcesp_l2tpv3d.Auth.{DigestHash, hmac_md5, hmac_sha1, eq_bytes}
use xcesp_l2tpv3d.Config.{SessionConfigEntry, TunnelConfigEntry}
use xcesp_l2tpv3d.Config.Value.{
  Value, Values, Table, finite, string, integer, float, array, table, nil, cons, lookup, or_default,
}
use xcesp_l2tpv3d.Config.Convert.{Python, codes, lower}
use xcesp_l2tpv3d.Config.Check.{
  Fault, Checked, failed, passed, config_error, ◌>>=◌, ◌>>◌, fail_if, within, within_seconds,
  req_str, req_int, to_int, to_float, to_str, optional_int, optional_str, is_ip_address,
  missing_router_id, address_invalid, local_ccid_range, remote_ccid_range, password_invalid,
  digest_alg_invalid, hello_interval_range, retransmit_interval_range, max_retries_range,
  receive_window_range, vendor_name_no_string, firmware_revision_range, session_no_array,
  session_no_table, duplicate_session_name, duplicate_local_sid, tunnel_no_array, tunnel_no_table,
  duplicate_tunnel_name,
}
use xcesp_l2tpv3d.Config.Session.{parse_session, parse_router_id}

-- `name in names`, of a set of texts, and `sid in sids`, of a set of numbers.
unfoldable pub has_name : Bytes → List Bytes → Bool
has_name name [] = false
has_name name (n ∷ names) = eq_bytes n name || has_name name names

unfoldable pub has_sid : ℕ → List ℕ → Bool
has_sid sid [] = false
has_sid sid (n ∷ sids) = n == sid || has_sid sid sids

-- The key that has no default.
abbrev pub router_id_raw : Option Value → Checked Value
router_id_raw none = failed (config_error missing_router_id)
router_id_raw (some value) = passed value

-- `password`, which is a text that is not empty, if it is there.
unfoldable pub parse_password : Option Value → Checked (Option Bytes)
parse_password none = passed none
parse_password (some (string (b ∷ s))) = passed (some (b ∷ s))
parse_password (some _) = failed (config_error password_invalid)

unfoldable pub parse_digest_alg : Bytes → Checked DigestHash
parse_digest_alg raw =
    if eq_bytes raw (codes "md5")
    then passed hmac_md5
    else if eq_bytes raw (codes "sha1")
    then passed hmac_sha1
    else failed (config_error digest_alg_invalid)

-- The range of `firmware_revision`, if it is there.
abbrev pub within_optional : ℕ → ℕ → Fault → Option ℤ → Checked (Option ℕ)
within_optional low high fault none = passed none
within_optional low high fault (some n) = do m ← within low high fault n; passed (some m)

-- `isinstance(value, list)` and `isinstance(value, dict)`
abbrev pub list_of : Fault → Value → Checked Values
list_of fault (array vs) = passed vs
list_of fault _ = failed (config_error fault)

abbrev pub dict_of : Fault → Value → Checked Table
dict_of fault (table t) = passed t
dict_of fault _ = failed (config_error fault)

module _ ⦃py : Python⦄ where
  -- The loop over the sessions, with the names and the ids that it has seen.
  unfoldable pub parse_sessions : Values → List Bytes → List ℕ → Checked (List SessionConfigEntry)
  parse_sessions nil seen_names seen_sids = passed []
  parse_sessions (cons sraw rest) seen_names seen_sids = do
    t ← dict_of session_no_table sraw
    s ← parse_session t
    fail_if (has_name s.name seen_names) duplicate_session_name
    fail_if (has_sid s.local_sid seen_sids) duplicate_local_sid
    sessions ← parse_sessions rest (s.name ∷ seen_names) (s.local_sid ∷ seen_sids)
    passed (s ∷ sessions)

  -- `_parse_tunnel`
  unfoldable pub parse_tunnel : Table → Checked TunnelConfigEntry
  parse_tunnel t = do
    name ← req_str "name" t
    local_address ← req_str "local_address" t
    remote_address ← req_str "remote_address" t
    raw_ccid ← req_int "local_ccid" t
    host_name ← req_str "host_name" t
    raw_id ← router_id_raw (lookup "router_id" t)
    fail_if (not (is_ip_address local_address)) address_invalid
    fail_if (not (is_ip_address remote_address)) address_invalid
    router_id ← parse_router_id raw_id
    local_ccid ← within 1 0xFFFF_FFFF local_ccid_range raw_ccid
    raw_remote ← to_int (or_default (lookup "remote_ccid" t) (integer (pos 0)))
    remote_ccid ← within 0 0xFFFF_FFFF remote_ccid_range raw_remote
    password ← parse_password (lookup "password" t)
    digest_alg ←
        parse_digest_alg
          (lower (to_str (or_default (lookup "digest_alg" t) (string (codes "md5")))))
    hello ← to_float (or_default (lookup "hello_interval" t) (float (finite (pos 60000))))
    retransmit ← to_float (or_default (lookup "retransmit_interval" t) (float (finite (pos 1000))))
    raw_retries ← to_int (or_default (lookup "max_retries" t) (integer (pos 5)))
    raw_window ← to_int (or_default (lookup "receive_window" t) (integer (pos 4)))
    tx ← to_int (or_default (lookup "tx_connect_speed" t) (integer (pos 100_000_000)))
    rx ← to_int (or_default (lookup "rx_connect_speed" t) (integer (pos 100_000_000)))
    hello_interval ← within_seconds 1 3600 hello_interval_range hello
    retransmit_interval ← within_seconds 1 8 retransmit_interval_range retransmit
    max_retries ← within 1 10 max_retries_range raw_retries
    receive_window ← within 1 1024 receive_window_range raw_window
    vendor_name ← optional_str vendor_name_no_string (lookup "vendor_name" t)
    raw_revision ← optional_int (lookup "firmware_revision" t)
    firmware_revision ← within_optional 0 0xFFFF firmware_revision_range raw_revision
    sessions_raw ← list_of session_no_array (or_default (lookup "session" t) (array nil))
    sessions ← parse_sessions sessions_raw [] []
    passed (record {
      name = name;
      local_address = local_address;
      remote_address = remote_address;
      local_ccid = local_ccid;
      host_name = host_name;
      router_id = router_id;
      remote_ccid = remote_ccid;
      password = password;
      digest_alg = digest_alg;
      hello_interval = hello_interval;
      retransmit_interval = retransmit_interval;
      max_retries = max_retries;
      receive_window = receive_window;
      tx_connect_speed = tx;
      rx_connect_speed = rx;
      vendor_name = vendor_name;
      firmware_revision = firmware_revision;
      sessions = sessions;
    })

  -- The loop of `_parse_tunnels`, with the names that it has seen.
  unfoldable pub tunnels_loop : Values → List Bytes → Checked (List TunnelConfigEntry)
  tunnels_loop nil names = passed []
  tunnels_loop (cons value rest) names = do
    t ← dict_of tunnel_no_table value
    e ← parse_tunnel t
    fail_if (has_name e.name names) duplicate_tunnel_name
    tunnels ← tunnels_loop rest (e.name ∷ names)
    passed (e ∷ tunnels)

  -- `_parse_tunnels`
  unfoldable pub parse_tunnels : Value → Checked (List TunnelConfigEntry)
  parse_tunnels section = do vs ← list_of tunnel_no_array section; tunnels_loop vs []
