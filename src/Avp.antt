-- ===== src/Avp.antt =====
-- xcesp_l2tpv3d/avp.py: the `AVP` class, its encoder and its two decoders, and `find_avp`.
pub mod Header
pub mod RoundTrip
pub mod Decoded
pub mod Canonical
pub mod Sequence
pub mod Plain
use xcesp_l2tpv3d.Common.{
  ℕ, zero, suc, ◌+◌, ◌-◌, ◌*◌, ◌/◌, ◌^◌, bit_and, bit_or, Bool, true, false, not, ◌&&◌, Option,
  none, some,
}
use xcesp_l2tpv3d.Common.{List, [], ◌∷◌, ◌++◌, length, take, drop, ltb, ◌==◌, if◌then◌else◌}
use xcesp_l2tpv3d.Exception.{
  Result, ok, err, ◌>>=◌, ◌>>◌, raise_if, vendor_id_range, attribute_type_range,
  hidden_needs_secret, avp_too_long, header_too_short, reserved_bits, length_below_header,
  length_past_buffer, hidden_not_supplied, out_of_fuel,
}
use xcesp_l2tpv3d.Struct.{Bytes, pack_bbhh, unpack_from_bbhh}
use xcesp_l2tpv3d.Crypto.{Crypto}
use xcesp_l2tpv3d.Hiding.{hide_value, unhide_value}
use xcesp_l2tpv3d.AttrType

-- `VENDOR_IETF`, `AVP_HEADER_LEN`, `AVP_MAX_LEN`
abbrev pub vendor_ietf : ℕ
vendor_ietf = 0

abbrev pub avp_header_len : ℕ
avp_header_len = 6

abbrev pub avp_max_len : ℕ
avp_max_len = 0x03FF

pub record Avp : Type 0 where
  pub attribute_type : ℕ
  pub value : Bytes
  pub mandatory : Bool
  pub hidden : Bool
  pub vendor_id : ℕ

abbrev pub bit : Bool → ℕ
bit true = 1
bit false = 0

-- Byte 0 and byte 1 of the header.
abbrev pub flags_byte : Bool → Bool → ℕ → ℕ
flags_byte mandatory hidden total_len =
    bit_or (bit_or (bit mandatory * 2 ^ 7) (bit hidden * 2 ^ 6)) (bit_and (total_len / 2 ^ 8) 0x03)

abbrev pub length_byte : ℕ → ℕ
length_byte total_len = bit_and total_len 0xFF

-- A Random Vector AVP replaces the vector that later hidden AVPs are read with.
unfoldable pub next_vector : Option Bytes → Avp → Option Bytes
next_vector random_vector a =
    if a.vendor_id == vendor_ietf && a.attribute_type == AttrType.random_vector
    then some a.value
    else random_vector

module _ ⦃c : Crypto⦄ where
  unfoldable pub encode_hidden : Option Bytes → Option Bytes → ℕ → Bytes → Result Bytes
  encode_hidden (some secret) (some random_vector) attribute_type value =
      hide_value attribute_type value secret random_vector
  encode_hidden _ _ attribute_type value = err hidden_needs_secret

  unfoldable pub encode_value : Option Bytes → Option Bytes → Avp → Result Bytes
  unfolding encode_hidden
  encode_value secret random_vector a =
      if a.hidden then encode_hidden secret random_vector a.attribute_type a.value else ok a.value

  -- `AVP.encode`
  unfoldable pub encode : Option Bytes → Option Bytes → Avp → Result Bytes
  encode secret random_vector a = do
    raise_if (ltb 0xFFFF a.vendor_id) vendor_id_range
    raise_if (ltb 0xFFFF a.attribute_type) attribute_type_range
    value_field ← encode_value secret random_vector a
    let total_len = avp_header_len + length value_field
    raise_if (ltb avp_max_len total_len) avp_too_long
    let b0 = flags_byte a.mandatory a.hidden total_len
    let b1 = length_byte total_len
    header ← pack_bbhh b0 b1 a.vendor_id a.attribute_type
    ok (header ++ value_field)

  -- `b"".join(avp.encode(...) for avp in self.avps)` of `ControlMessage.encode`
  unfoldable pub encode_all : Option Bytes → Option Bytes → List Avp → Result Bytes
  encode_all secret random_vector [] = ok []
  encode_all secret random_vector (a ∷ avps) = do
    first ← encode secret random_vector a
    rest ← encode_all secret random_vector avps
    ok (first ++ rest)

  unfoldable pub decode_hidden : Option Bytes → Option Bytes → ℕ → Bytes → Result Bytes
  decode_hidden (some secret) (some random_vector) attribute_type field =
      unhide_value attribute_type field secret random_vector
  decode_hidden _ _ attribute_type field = err hidden_not_supplied

  unfoldable pub decode_value : Bool → Option Bytes → Option Bytes → ℕ → Bytes → Result Bytes
  unfolding decode_hidden
  decode_value hidden secret random_vector attribute_type field =
      if hidden then decode_hidden secret random_vector attribute_type field else ok field

  -- `AVP.decode_one`: the AVP at `offset`, and the offset behind it.
  unfoldable pub decode_one : Option Bytes → Option Bytes → Bytes → ℕ → Result (Avp × ℕ)
  decode_one secret random_vector buf offset = do
    let remaining = length buf - offset
    raise_if (ltb remaining avp_header_len) header_too_short
    (b0, b1, vendor, attr) ← unpack_from_bbhh (drop offset buf)
    let mandatory = not (bit_and b0 0x80 == 0)
    let hidden = not (bit_and b0 0x40 == 0)
    let rsvd = bit_and (b0 / 2 ^ 2) 0x0F
    raise_if (not (rsvd == 0)) reserved_bits
    let total_len = bit_or (bit_and b0 0x03 * 2 ^ 8) b1
    raise_if (ltb total_len avp_header_len) length_below_header
    raise_if (ltb (length buf) (offset + total_len)) length_past_buffer
    let field = take (total_len - avp_header_len) (drop (offset + avp_header_len) buf)
    value ← decode_value hidden secret random_vector attr field
    ok (
      record {
        attribute_type = attr;
        value = value;
        mandatory = mandatory;
        hidden = hidden;
        vendor_id = vendor;
      },
      offset + total_len,
    )

  -- The `while` loop of `AVP.decode_sequence`.
  unfoldable pub decode_loop : ℕ → Option Bytes → Bytes → Option Bytes → ℕ → Result (List Avp)
  decode_loop zero secret buf random_vector pos =
      if ltb pos (length buf) then err out_of_fuel else ok []
  decode_loop (suc fuel) secret buf random_vector pos =
      let more = (do
        (a, next) ← decode_one secret random_vector buf pos
        rest ← decode_loop fuel secret buf (next_vector random_vector a) next
        ok (a ∷ rest)) in
      if ltb pos (length buf) then more else ok []

  -- `AVP.decode_sequence`. Each round takes six bytes at least, so `length buf` rounds are enough.
  unfoldable pub decode_sequence : Option Bytes → Bytes → ℕ → Result (List Avp)
  decode_sequence secret buf offset = decode_loop (length buf) secret buf none offset

-- `find_avp`
unfoldable pub find_avp : List Avp → ℕ → ℕ → Option Avp
find_avp [] attribute_type vendor_id = none
find_avp (a ∷ avps) attribute_type vendor_id =
    if a.vendor_id == vendor_id && a.attribute_type == attribute_type
    then some a
    else find_avp avps attribute_type vendor_id
