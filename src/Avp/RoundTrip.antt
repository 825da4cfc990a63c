-- ===== src/Avp/RoundTrip.antt =====
-- `AVP.decode_one` reads back what `AVP.encode` wrote.
use xcesp_l2tpv3d.Common.{ℕ, ◌+◌, ◌/◌, ◌%◌, ◌≤◌, ◌≡◌, refl, ap, arith, Option, none, some}
use xcesp_l2tpv3d.Common.{
  ◌∷◌, ◌++◌, length, drop, length-append, length-drop, take_prefix, drop_prefix, drop-drop,
}
use xcesp_l2tpv3d.Exception.{Result, ok, err}
use xcesp_l2tpv3d.Struct.{Bytes, IsBytes, pack_bbhh, unpack_from_bbhh}
use xcesp_l2tpv3d.Crypto.{Crypto}
use xcesp_l2tpv3d.Hiding.RoundTrip.{unhide_hidden}
use xcesp_l2tpv3d.Avp.{
  Avp, encode_value, encode, decode_value, decode_one, avp_max_len, avp_header_len,
}
use xcesp_l2tpv3d.Avp.Header.{
  mandatory_read, hidden_read, reserved_read, length_read, flags_value, flags_byte_lem,
  length_byte_lem,
}

-- The bytes of an AVP on the wire, its value field being `field`.
abbrev pub wire : Avp → Bytes → Bytes
wire a field =
    flags_value a.mandatory a.hidden (avp_header_len + length field)
    ∷ (avp_header_len + length field) % 256
    ∷ a.vendor_id / 256
    ∷ a.vendor_id % 256
    ∷ a.attribute_type / 256
    ∷ a.attribute_type % 256
    ∷ field

-- The fields fit their places on the wire.
pub record Fits (a : Avp) (field : Bytes) : Type 0 where
  pub vendor_fits : a.vendor_id ≤ 0xFFFF
  pub attribute_fits : a.attribute_type ≤ 0xFFFF
  pub length_fits : avp_header_len + length field ≤ avp_max_len

module _ ⦃c : Crypto⦄ (secret random_vector : Option Bytes) where
  pub encode-wire :
      (a : Avp) (field : Bytes)
      → encode_value secret random_vector a ≡ ok field
      → Fits a field
      → encode secret random_vector a ≡ ok (wire a field)
  unfolding encode pack_bbhh
  encode-wire a field e f = ground (
    arith,
    flags_byte_lem a.mandatory a.hidden (avp_header_len + length field),
    length_byte_lem (avp_header_len + length field),
  )

  encode-Fits :
      (a : Avp) (field bytes : Bytes)
      → encode_value secret random_vector a ≡ ok field
      → encode secret random_vector a ≡ ok bytes
      → Fits a field
  unfolding encode
  encode-Fits a field bytes e x = ground arith

  pub encode-eq-ok :
      (a : Avp) (bytes : Bytes)
      → encode secret random_vector a ≡ ok bytes
      → (field : Bytes) × (encode_value secret random_vector a ≡ ok field)
        × Fits a field
        × (bytes ≡ wire a field)
  unfolding encode
  encode-eq-ok a bytes e = by_field (encode_value secret random_vector a) refl
    where
      by_field :
          (r : Result Bytes)
          → encode_value secret random_vector a ≡ r
          → (field : Bytes) × (encode_value secret random_vector a ≡ ok field)
            × Fits a field
            × (bytes ≡ wire a field)
      by_field (ok field) r =
          let f : Fits a field = encode-Fits a field bytes r e in
          (field, r, f, cc (e, encode-wire a field r f))
      by_field (err x) r = ground (arith, r, e)

  pub decode_one-wire :
      (buf : Bytes) (offset : ℕ) (a : Avp) (field rest : Bytes)
      → drop offset buf ≡ wire a field ++ rest
      → Fits a field
      → decode_value a.hidden secret random_vector a.attribute_type field ≡ ok a.value
      → decode_one secret random_vector buf offset ≡ ok (a, offset + length (wire a field))
  unfolding decode_one unpack_from_bbhh
  decode_one-wire buf offset a field rest d f v =
      let total = avp_header_len + length field in
      ground (
        arith,
        length-drop offset buf,
        ap length d,
        length-append field rest,
        drop-drop 6 offset buf,
        take_prefix field rest (length field),
        mandatory_read a.mandatory a.hidden total f.length_fits,
        hidden_read a.mandatory a.hidden total f.length_fits,
        reserved_read a.mandatory a.hidden total f.length_fits,
        length_read a.mandatory a.hidden total f.length_fits,
      )

module _ ⦃c : Crypto⦄ where
  decode_value-encode_value :
      (secret random_vector : Option Bytes) (a : Avp) (field : Bytes)
      → a.attribute_type ≤ 0xFFFF
      → IsBytes a.value
      → encode_value secret random_vector a ≡ ok field
      → decode_value a.hidden secret random_vector a.attribute_type field ≡ ok a.value
  unfolding encode_value decode_value
  decode_value-encode_value none random_vector a field n h e = ground arith
  decode_value-encode_value (some s) none a field n h e = ground arith
  decode_value-encode_value (some s) (some r) a field n h e =
      ground (arith, unhide_hidden a.attribute_type a.value s r field n h)

  -- Whatever `encode` accepts, hidden or not, `decode_one` reads back: at the offset where the
  -- bytes stand, with the same secret and random vector, it returns the same AVP and the offset of
  -- the first byte behind it, whatever stands before and behind. The value is made of bytes.
  pub decode_one-encode :
      (secret random_vector : Option Bytes) (a : Avp) (bytes before behind : Bytes)
      → IsBytes a.value
      → encode secret random_vector a ≡ ok bytes
      → decode_one secret random_vector (before ++ (bytes ++ behind)) (length before)
        ≡ ok (a, length before + length bytes)
  decode_one-encode secret random_vector a bytes before behind h e =
      let (field, v, f, w) = encode-eq-ok secret random_vector a bytes e in
      rw w (
        decode_one-wire secret random_vector (before ++ (wire a field ++ behind)) (length before) a
          field behind (drop_prefix before (wire a field ++ behind) (length before) refl) f
          (decode_value-encode_value secret random_vector a field f.attribute_fits h v))
