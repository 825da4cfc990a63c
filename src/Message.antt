-- ===== src/Message.antt =====
-- `ControlMessage` of xcesp_l2tpv3d/messages.py: its encoder and decoder.
pub mod RoundTrip
pub mod Decoded
use xcesp_l2tpv3d.Common.{ℕ, ◌+◌, bit_and, Bool, true, false, not, Option, none, some}
use xcesp_l2tpv3d.Common.{List, [], ◌∷◌, ◌++◌, length, ltb, ◌==◌, if◌then◌else◌}
use xcesp_l2tpv3d.Exception.{
  Result, ok, err, ◌>>=◌, ◌>>◌, raise_if, ccid_range, ns_range, nr_range, message_too_long,
  message_header_too_short, t_bit_clear, l_bit_clear, s_bit_clear, reserved_flag, reserved_nibble,
  unsupported_version, length_mismatch,
}
use xcesp_l2tpv3d.Struct.{Bytes, pack_bbhihh, unpack_from_bbhihh}
use xcesp_l2tpv3d.Crypto.{Crypto}
use xcesp_l2tpv3d.Avp.{Avp, encode_all, decode_sequence}

-- `HEADER_LEN`, `VERSION`, `_CTRL_FLAGS_BYTE0`, `_VERSION_BYTE1_MASK`, `MAX_MESSAGE_LEN`
abbrev pub header_len : ℕ
header_len = 12

abbrev pub version : ℕ
version = 3

abbrev pub ctrl_flags_byte0 : ℕ
ctrl_flags_byte0 = 0b11001000

abbrev pub version_byte1_mask : ℕ
version_byte1_mask = 0x0F

abbrev pub max_message_len : ℕ
max_message_len = 0xFFFF

pub record ControlMessage : Type 0 where
  pub control_connection_id : ℕ
  pub ns : ℕ
  pub nr : ℕ
  pub avps : List Avp

-- `is_zlb`
abbrev pub is_zlb : ControlMessage → Bool
is_zlb m = elim m.avps [ [] ↦ true | a ∷ avps ↦ false ]

-- `_validate_fields`
unfoldable pub validate_fields : ControlMessage → Result (Unit {0})
validate_fields m = do
  raise_if (ltb 0xFFFF_FFFF m.control_connection_id) ccid_range
  raise_if (ltb 0xFFFF m.ns) ns_range
  raise_if (ltb 0xFFFF m.nr) nr_range

-- The test of the flag byte in `decode`.
unfoldable pub check_flags : ℕ → Result (Unit {0})
check_flags b0 =
    if b0 == ctrl_flags_byte0
    then ok tt
    else if bit_and b0 0x80 == 0
    then err t_bit_clear
    else if bit_and b0 0x40 == 0
    then err l_bit_clear
    else if bit_and b0 0x08 == 0
    then err s_bit_clear
    else err reserved_flag

module _ ⦃c : Crypto⦄ where
  -- `ControlMessage.encode`
  unfoldable pub encode_message : Option Bytes → Option Bytes → ControlMessage → Result Bytes
  encode_message secret random_vector m = do
    validate_fields m
    body ← encode_all secret random_vector m.avps
    let total_len = header_len + length body
    raise_if (ltb max_message_len total_len) message_too_long
    header ←
        pack_bbhihh ctrl_flags_byte0 (bit_and version version_byte1_mask) total_len
          m.control_connection_id m.ns m.nr
    ok (header ++ body)

  -- `ControlMessage.decode`
  unfoldable pub decode_message : Option Bytes → Bytes → Result ControlMessage
  decode_message secret buf = do
    raise_if (ltb (length buf) header_len) message_header_too_short
    (b0, b1, total_len, ccid, ns, nr) ← unpack_from_bbhihh buf
    check_flags b0
    raise_if (not (bit_and b1 0xF0 == 0)) reserved_nibble
    raise_if (not (bit_and b1 version_byte1_mask == version)) unsupported_version
    raise_if (not (total_len == length buf)) length_mismatch
    avps ← decode_sequence secret buf header_len
    ok (record { control_connection_id = ccid; ns = ns; nr = nr; avps = avps })
