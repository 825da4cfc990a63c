-- ===== src/Examples/Wire.antt =====
-- Runs of the encoders and the decoders of AVPs and messages.
use xcesp_l2tpv3d.Common.{◌+◌, ◌≤◌, ◌≡◌, refl, arith, none, some, [], ◌∷◌, ◌++◌, length, All}
use xcesp_l2tpv3d.Exception.{ok, OnlyValueError}
use xcesp_l2tpv3d.Struct.{
  Bytes, IsBytes, pack_u16, pack_bbhh, unpack_from_bbhh, pack_bbhihh, unpack_from_bbhihh,
}
use xcesp_l2tpv3d.Hiding.{
  xor_bytes, pad_body, keystream_loop, generate_keystream, hide_value, unhide_value,
}
use xcesp_l2tpv3d.Hiding.Keystream.{IsKeystream, generate_keystream-IsKeystream}
use xcesp_l2tpv3d.Hiding.RoundTrip.{hidden_size, unhide_value-hide_value}
use xcesp_l2tpv3d.Avp.{
  encode_hidden, encode_value, encode, encode_all, decode_value, decode_one, decode_loop,
  decode_sequence, next_vector,
}
use xcesp_l2tpv3d.Avp.RoundTrip.{decode_one-encode}
use xcesp_l2tpv3d.Avp.Sequence.{Readable}
use xcesp_l2tpv3d.Avp.Decoded.{decode_one_bounds}
use xcesp_l2tpv3d.Avp.Canonical.{IsPlain}
use xcesp_l2tpv3d.Message.{encode_message, decode_message, validate_fields, check_flags}
use xcesp_l2tpv3d.Message.RoundTrip.{decode_message-encode_message}
use xcesp_l2tpv3d.Message.Decoded.{encode_message-decode_message, decode_message-OnlyValueError}
use xcesp_l2tpv3d.SequenceNumber.{seq_delta, Meets, seq_delta-Meets}
use xcesp_l2tpv3d.Examples.Data.{
  weak_digests, secret, vector, hello_avp, hidden_avp, hidden_message, hello_message, hello_bytes,
  hidden_avp_bytes, hidden_body, hidden_bytes,
}

encode-hidden_avp : encode (some secret) (some vector) hidden_avp ≡ ok hidden_avp_bytes
unfolding encode encode_value encode_hidden hide_value pad_body generate_keystream keystream_loop
    xor_bytes pack_u16 pack_bbhh
encode-hidden_avp = refl

decode_one-encode_example :
    decode_one (some secret) (some vector) (9 ∷ (hidden_avp_bytes ++ 5 ∷ [])) 1
    ≡ ok (hidden_avp, 23)
decode_one-encode_example =
    decode_one-encode (some secret) (some vector) hidden_avp hidden_avp_bytes (9 ∷ []) (5 ∷ [])
      (ground arith) encode-hidden_avp

hidden_message-Readable : Readable none (some vector) hidden_message.avps
unfolding next_vector
hidden_message-Readable = (
  (λ h. absurd (ground arith)),
  (omega arith, (omega arith, tt)),
  (
    (λ h. absurd (ground arith)),
    (omega arith, (omega arith, (omega arith, (omega arith, tt)))),
    ((λ h. refl), (omega arith, (omega arith, tt)), tt),
  ),
)

encode_all-hidden_message :
    encode_all (some secret) (some vector) hidden_message.avps ≡ ok hidden_body
unfolding encode_all encode encode_value encode_hidden hide_value pad_body generate_keystream
    keystream_loop xor_bytes pack_u16 pack_bbhh
encode_all-hidden_message = refl

encode_message-hidden_message :
    encode_message (some secret) (some vector) hidden_message ≡ ok hidden_bytes
unfolding encode_message validate_fields pack_bbhihh encode_all encode encode_value encode_hidden
    hide_value pad_body generate_keystream keystream_loop xor_bytes pack_u16 pack_bbhh
encode_message-hidden_message = refl

decode_message-encode_message_example :
    decode_message (some secret) hidden_bytes ≡ ok hidden_message
decode_message-encode_message_example =
    decode_message-encode_message (some secret) (some vector) hidden_message hidden_bytes
      hidden_message-Readable encode_message-hidden_message

hello_bytes-IsBytes : IsBytes hello_bytes
hello_bytes-IsBytes = ground arith

decode_message-hello_bytes : decode_message none hello_bytes ≡ ok hello_message
unfolding decode_message check_flags unpack_from_bbhihh decode_sequence decode_loop decode_one
    decode_value unpack_from_bbhh next_vector
decode_message-hello_bytes = refl

encode_message-decode_message_example :
    (encode_message none none hello_message ≡ ok hello_bytes) × All IsPlain hello_message.avps
encode_message-decode_message_example =
    encode_message-decode_message none none hello_bytes hello_message hello_bytes-IsBytes
      decode_message-hello_bytes

decode_message-OnlyValueError_example : OnlyValueError (decode_message none hello_bytes)
decode_message-OnlyValueError_example =
    decode_message-OnlyValueError none hello_bytes hello_bytes-IsBytes

decode_one-hello_bytes : decode_one none none hello_bytes 12 ≡ ok (hello_avp, 20)
unfolding decode_one decode_value unpack_from_bbhh
decode_one-hello_bytes = refl

decode_one_bounds_example :
    (12 + 6 ≤ 20)
    × (20 ≤ 12 + 1023)
    × (20 ≤ length hello_bytes)
    × (hello_avp.vendor_id ≤ 0xFFFF)
    × (hello_avp.attribute_type ≤ 0xFFFF)
decode_one_bounds_example =
    decode_one_bounds none none hello_bytes 12 hello_bytes-IsBytes hello_avp 20
      decode_one-hello_bytes

decode_sequence-hello_bytes : decode_sequence none hello_bytes 12 ≡ ok (hello_avp ∷ [])
unfolding decode_sequence decode_loop decode_one decode_value unpack_from_bbhh next_vector
decode_sequence-hello_bytes = refl

unhide_value-hide_value_example :
    (ciphertext : Bytes) × (hide_value 7 secret secret vector ≡ ok ciphertext)
    × (length ciphertext ≡ hidden_size (length secret))
    × (unhide_value 7 ciphertext secret vector ≡ ok secret)
unhide_value-hide_value_example =
    unhide_value-hide_value 7 secret secret vector (omega arith) (ground arith) (ground arith)

generate_keystream-IsKeystream_example :
    (out : Bytes) × (generate_keystream 7 secret vector 40 ≡ ok out) × IsKeystream 40 out
generate_keystream-IsKeystream_example =
    generate_keystream-IsKeystream 7 secret vector 40 (omega arith)

-- The numbers wrap: 2 is three ahead of 65535.
seq_delta-Meets_example : Meets 2 65535 (seq_delta 2 65535)
seq_delta-Meets_example = seq_delta-Meets 2 65535 (omega arith) (omega arith)
