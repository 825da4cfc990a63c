-- ===== src/AttrType.antt =====
-- `AttrType` of xcesp_l2tpv3d/avp.py: an `IntEnum`, so its members are numbers.
use xcesp_l2tpv3d.Common.{ℕ}

abbrev pub message_type : ℕ
message_type = 0

abbrev pub result_code : ℕ
result_code = 1

abbrev pub protocol_version : ℕ
protocol_version = 2

abbrev pub framing_capabilities : ℕ
framing_capabilities = 3

abbrev pub bearer_capabilities : ℕ
bearer_capabilities = 4

abbrev pub tie_breaker : ℕ
tie_breaker = 5

abbrev pub firmware_revision : ℕ
firmware_revision = 6

abbrev pub host_name : ℕ
host_name = 7

abbrev pub vendor_name : ℕ
vendor_name = 8

abbrev pub assigned_tunnel_id : ℕ
assigned_tunnel_id = 9

abbrev pub receive_window_size : ℕ
receive_window_size = 10

abbrev pub challenge : ℕ
challenge = 11

abbrev pub q931_cause_code : ℕ
q931_cause_code = 12

abbrev pub challenge_response : ℕ
challenge_response = 13

abbrev pub assigned_session_id_v2 : ℕ
assigned_session_id_v2 = 14

abbrev pub call_serial_number : ℕ
call_serial_number = 15

abbrev pub minimum_bps : ℕ
minimum_bps = 16

abbrev pub random_vector : ℕ
random_vector = 36

abbrev pub extended_vendor_id : ℕ
extended_vendor_id = 58

abbrev pub message_digest : ℕ
message_digest = 59

abbrev pub router_id : ℕ
router_id = 60

abbrev pub assigned_control_connection_id : ℕ
assigned_control_connection_id = 61

abbrev pub pseudowire_capabilities_list : ℕ
pseudowire_capabilities_list = 62

abbrev pub local_session_id : ℕ
local_session_id = 63

abbrev pub remote_session_id : ℕ
remote_session_id = 64

abbrev pub assigned_cookie : ℕ
assigned_cookie = 65

abbrev pub remote_end_id : ℕ
remote_end_id = 66

abbrev pub pseudowire_type : ℕ
pseudowire_type = 68

abbrev pub l2_specific_sublayer : ℕ
l2_specific_sublayer = 69

abbrev pub data_sequencing : ℕ
data_sequencing = 70

abbrev pub circuit_status : ℕ
circuit_status = 71

abbrev pub preferred_language : ℕ
preferred_language = 72

abbrev pub ctl_msg_auth_nonce : ℕ
ctl_msg_auth_nonce = 73

abbrev pub tx_connect_speed : ℕ
tx_connect_speed = 74

abbrev pub rx_connect_speed : ℕ
rx_connect_speed = 75
