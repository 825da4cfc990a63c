-- ===== src/Message/RoundTrip.antt =====
-- `ControlMessage.decode` reads back what `ControlMessage.encode` wrote.
use xcesp_l2tpv3d.Common.{ℕ, ◌+◌, ◌≤◌, ◌≡◌, refl, arith, Option, none}
use xcesp_l2tpv3d.Common.{◌∷◌, ◌++◌, length}
use xcesp_l2tpv3d.Exception.{Result, ok, err}
use xcesp_l2tpv3d.Struct.{Bytes, be16, be32, pack_bbhihh, unpack_from_bbhihh}
use xcesp_l2tpv3d.Crypto.{Crypto}
use xcesp_l2tpv3d.Avp.{encode_all, decode_sequence}
use xcesp_l2tpv3d.Avp.Sequence.{Readable, decode_sequence-encode_all}
use xcesp_l2tpv3d.Message.{
  ControlMessage, validate_fields, check_flags, encode_message, decode_message, header_len,
  max_message_len, ctrl_flags_byte0,
}

-- The twelve header bytes of a message of `total` bytes.
abbrev pub header_bytes : ControlMessage → ℕ → Bytes
header_bytes m total =
    ctrl_flags_byte0
    ∷ 3
    ∷ (be16 total ++ (be32 m.control_connection_id ++ (be16 m.ns ++ be16 m.nr)))

pub record InRange (m : ControlMessage) : Type 0 where
  pub ccid_fits : m.control_connection_id ≤ 0xFFFF_FFFF
  pub ns_fits : m.ns ≤ 0xFFFF
  pub nr_fits : m.nr ≤ 0xFFFF

module _ ⦃c : Crypto⦄ (secret random_vector : Option Bytes) (m : ControlMessage) where
  pub encode_message_wire :
      (body : Bytes)
      → InRange m
      → encode_all secret random_vector m.avps ≡ ok body
      → header_len + length body ≤ max_message_len
      → encode_message secret random_vector m
        ≡ ok (header_bytes m (header_len + length body) ++ body)
  unfolding encode_message validate_fields pack_bbhihh
  encode_message_wire body r e n = ground arith

  InRange-of_encode : (bytes : Bytes) → encode_message secret random_vector m ≡ ok bytes → InRange m
  unfolding encode_message validate_fields
  InRange-of_encode bytes e = ground arith

  pub encode_message-eq-ok :
      (bytes : Bytes)
      → encode_message secret random_vector m ≡ ok bytes
      → (body : Bytes) × InRange m
        × (encode_all secret random_vector m.avps ≡ ok body)
        × (header_len + length body ≤ max_message_len)
        × (bytes ≡ header_bytes m (header_len + length body) ++ body)
  unfolding encode_message validate_fields
  encode_message-eq-ok bytes e = by_body (encode_all secret random_vector m.avps) refl
    where
      by_body :
          (r : Result Bytes)
          → encode_all secret random_vector m.avps ≡ r
          → (body : Bytes) × InRange m
            × (encode_all secret random_vector m.avps ≡ ok body)
            × (header_len + length body ≤ max_message_len)
            × (bytes ≡ header_bytes m (header_len + length body) ++ body)
      by_body (ok body) r =
          let fits : header_len + length body ≤ max_message_len = ground (arith, r, e) in
          (
            body,
            InRange-of_encode bytes e,
            r,
            fits,
            cc (e, encode_message_wire body (InRange-of_encode bytes e) r fits),
          )
      by_body (err x) r = ground (arith, r, e)

  pub decode_message_wire :
      (body : Bytes)
      → InRange m
      → header_len + length body ≤ max_message_len
      → decode_sequence secret (header_bytes m (header_len + length body) ++ body) header_len
        ≡ ok m.avps
      → decode_message secret (header_bytes m (header_len + length body) ++ body) ≡ ok m
  unfolding decode_message unpack_from_bbhihh check_flags
  decode_message_wire body r n e = ground arith

  -- What `encode` accepts, `decode` with the same secret reads back as the same message, if each
  -- hidden AVP follows a Random Vector AVP with the vector that `encode` was given.
  pub decode_message-encode_message :
      (bytes : Bytes)
      → Readable none random_vector m.avps
      → encode_message secret random_vector m ≡ ok bytes
      → decode_message secret bytes ≡ ok m
  decode_message-encode_message bytes r e =
      let (body, range, x, n, w) = encode_message-eq-ok bytes e in
      rw w (
        decode_message_wire body range n (
          decode_sequence-encode_all secret random_vector
            (header_bytes m (header_len + length body)) body m.avps r x))
