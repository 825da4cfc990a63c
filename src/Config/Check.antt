-- ===== src/Config/Check.antt =====
-- The exceptions of xcesp_l2tpv3d/config.py, and the conversions that may raise.
use Prim.Native.String.{String}
use xcesp_l2tpv3d.Common.{
  ℕ, suc, ◌-◌, ◌*◌, ◌^◌, Bool, true, false, ◌&&◌, Option, none, some, ltb, leb, if◌then◌else◌,
}
use xcesp_l2tpv3d.Common.Int.{ℤ, pos, negsuc}
use xcesp_l2tpv3d.Struct.{Bytes}
use xcesp_l2tpv3d.Config.Value.{
  Value, Float, Table, finite, nan, infinite, string, integer, float, boolean, moment, array, table,
  lookup,
}
use xcesp_l2tpv3d.Config.Convert.{Python, truncate, ipv4_address}

-- One constructor for each `raise ConfigError`, named for its message.
pub data Fault : Type 0 where
  global_no_table log_level_invalid port_range listen_address_invalid : Fault
  tunnel_no_array tunnel_no_table duplicate_tunnel_name : Fault
  missing_key wrong_type : String → Fault
  missing_router_id address_invalid local_ccid_range remote_ccid_range : Fault
  password_invalid digest_alg_invalid hello_interval_range retransmit_interval_range : Fault
  max_retries_range receive_window_range vendor_name_no_string firmware_revision_range : Fault
  session_no_array session_no_table duplicate_session_name duplicate_local_sid : Fault
  local_sid_range pseudowire_type_invalid l2_specific_sublayer_invalid : Fault
  data_sequencing_invalid circuit_status_range ifname_no_string : Fault
  cookie_no_string cookie_no_hex cookie_length : Fault
  router_id_range router_id_no_address router_id_wrong_type : Fault

-- The other exceptions come from `int` and `float`.
pub data Failure : Type 0 where
  config_error : Fault → Failure
  value_error type_error overflow_error : Failure

pub data Checked {ℓ} (A : Type ℓ) : Type ℓ where
  failed : Failure → Checked A
  passed : A → Checked A

module _ {ℓ κ} {A : Type ℓ} {B : Type κ} where
  infixl 5 ◌>>=◌
  abbrev pub ◌>>=◌ : Checked A → (A → Checked B) → Checked B
  failed e >>= k = failed e
  passed a >>= k = k a

infixl 5 ◌>>◌
abbrev pub ◌>>◌ {κ} : {B : Type κ} → Checked (Unit {0}) → Checked B → Checked B
m >> k = m >>= λ done. k

-- `if test: raise ConfigError(...)`
abbrev pub fail_if : Bool → Fault → Checked (Unit {0})
fail_if true fault = failed (config_error fault)
fail_if false fault = passed tt

-- `if not (low <= n <= high): raise ConfigError(...)`
unfoldable pub within : ℕ → ℕ → Fault → ℤ → Checked ℕ
within low high fault (pos n) =
    if leb low n && leb n high then passed n else failed (config_error fault)
within low high fault (negsuc n) = failed (config_error fault)

-- The same of a float: no comparison holds of no number.
unfoldable pub within_seconds : ℕ → ℕ → Fault → Float → Checked ℕ
within_seconds low high fault (finite ms) = within (1000 * low) (1000 * high) fault ms
within_seconds low high fault nan = failed (config_error fault)
within_seconds low high fault infinite = failed (config_error fault)

-- `req(key, str)`
unfoldable pub req_str : String → Table → Checked Bytes
req_str key t = elim (lookup key t) [
  | none ↦ failed (config_error (missing_key key))
  | some (string s) ↦ passed s
  | some _ ↦ failed (config_error (wrong_type key))
]

-- `req(key, int)`: a `bool` is an `int`, 1 or 0.
unfoldable pub req_int : String → Table → Checked ℤ
req_int key t = elim (lookup key t) [
  | none ↦ failed (config_error (missing_key key))
  | some (integer n) ↦ passed n
  | some (boolean b) ↦ passed (if b then pos 1 else pos 0)
  | some _ ↦ failed (config_error (wrong_type key))
]

abbrev pub or_value_error {ℓ} : {A : Type ℓ} → Option A → Checked A
or_value_error none = failed value_error
or_value_error (some a) = passed a

-- `if t.get(key) is not None and not isinstance(..., str): raise ConfigError(...)`
unfoldable pub optional_str : Fault → Option Value → Checked (Option Bytes)
optional_str fault none = passed none
optional_str fault (some (string s)) = passed (some s)
optional_str fault (some _) = failed (config_error fault)

-- The least integer that is too large for a float.
unfoldable pub float_bound : ℕ
float_bound = 2 ^ 1024 - 2 ^ 970

unfoldable pub float_of_int : ℤ → Checked Float
float_of_int (pos n) =
    if ltb n float_bound then passed (finite (pos (1000 * n))) else failed overflow_error
float_of_int (negsuc n) =
    if ltb (suc n) float_bound
    then passed (finite (negsuc (1000 * suc n - 1)))
    else failed overflow_error

module _ ⦃py : Python⦄ where
  -- `int(value)`
  unfoldable pub to_int : Value → Checked ℤ
  to_int (string s) = or_value_error (py.int_of_text s)
  to_int (integer n) = passed n
  to_int (float (finite ms)) = passed (truncate ms)
  to_int (float nan) = failed value_error
  to_int (float infinite) = failed overflow_error
  to_int (boolean b) = passed (if b then pos 1 else pos 0)
  to_int (moment s) = failed type_error
  to_int (array vs) = failed type_error
  to_int (table t) = failed type_error

  -- `float(value)`
  unfoldable pub to_float : Value → Checked Float
  to_float (string s) = or_value_error (py.float_of_text s)
  to_float (integer n) = float_of_int n
  to_float (float x) = passed x
  to_float (boolean b) = passed (finite (if b then pos 1000 else pos 0))
  to_float (moment s) = failed type_error
  to_float (array vs) = failed type_error
  to_float (table t) = failed type_error

  -- `str(value)`
  unfoldable pub to_str : Value → Bytes
  to_str (string s) = s
  to_str value = py.str_of value

  -- `int(value)`, unless there is none.
  unfoldable pub optional_int : Option Value → Checked (Option ℤ)
  optional_int none = passed none
  optional_int (some value) = do n ← to_int value; passed (some n)

  -- Whether `ipaddress.ip_address` accepts the text.
  unfoldable pub is_ip_address : Bytes → Bool
  is_ip_address s = elim (ipv4_address s) [ some n ↦ true | none ↦ py.is_ipv6_address s ]
