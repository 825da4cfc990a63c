-- ===== src/Examples/Security.antt =====
-- Runs of signing and verification.
use xcesp_l2tpv3d.Common.{◌≡◌, refl, arith, none, [], ◌∷◌, ◌++◌, length, replicate}
use xcesp_l2tpv3d.Exception.{ok, err, missing_digest}
use xcesp_l2tpv3d.Struct.{Bytes, pack_bbhh, pack_bbhihh, unpack_from_bbhh, unpack_from_bbhihh}
use xcesp_l2tpv3d.Avp.{
  encode_value, encode, encode_all, decode_value, decode_one, decode_loop, decode_sequence,
  next_vector, find_avp,
}
use xcesp_l2tpv3d.Message.{
  ControlMessage, encode_message, decode_message, validate_fields, check_flags,
}
use xcesp_l2tpv3d.Attribute.Build.{build_message_digest}
use xcesp_l2tpv3d.Auth.{
  digest_hash, digest_size, compute_message_digest, verify_message_digest, eq_bytes,
}
use xcesp_l2tpv3d.Signing.{encode_signed, decode_and_verify, received_digest_of, zero_digests}
use xcesp_l2tpv3d.AttrType
use xcesp_l2tpv3d.Avp.{vendor_ietf}
use xcesp_l2tpv3d.Avp.Plain.{HasByteValues}
use xcesp_l2tpv3d.Signing.Plain.{decode_and_verify_unsigned}
use xcesp_l2tpv3d.Signing.Patch.{digest_avp}
use xcesp_l2tpv3d.Signing.RoundTrip.{decode_and_verify-encode_signed}
use xcesp_l2tpv3d.Signing.Verified.{Authentic, decode_and_verify-Authentic}
use xcesp_l2tpv3d.Examples.Data.{weak_digests, secret, hello_message, hello_bytes, signed_bytes}

hello_message-HasByteValues : HasByteValues hello_message.avps
hello_message-HasByteValues = ground arith

hello_message-unsigned : find_avp hello_message.avps AttrType.message_digest vendor_ietf ≡ none
unfolding find_avp
hello_message-unsigned = refl

encode_signed-hello_message : encode_signed hello_message 0 secret ≡ ok signed_bytes
unfolding encode_signed compute_message_digest digest_size digest_hash build_message_digest
    encode_message validate_fields pack_bbhihh encode_all encode encode_value pack_bbhh
encode_signed-hello_message = refl

decode_and_verify-encode_signed_example :
    (digest : Bytes) × (digest_size 0 ≡ ok (length digest))
    × (decode_and_verify signed_bytes 0 secret
        ≡ ok (record hello_message { avps = hello_message.avps ++ digest_avp 0 digest ∷ [] }))
decode_and_verify-encode_signed_example =
    decode_and_verify-encode_signed hello_message 0 secret signed_bytes hello_message-HasByteValues
      hello_message-unsigned encode_signed-hello_message

-- The message that the bytes stand for.
abbrev signed_message : ControlMessage
signed_message = record hello_message {
  avps = hello_message.avps ++ digest_avp 0 (replicate 16 18) ∷ [];
}

decode_and_verify-signed_bytes : decode_and_verify signed_bytes 0 secret ≡ ok signed_message
unfolding decode_and_verify verify_message_digest eq_bytes received_digest_of zero_digests find_avp
    decode_message check_flags unpack_from_bbhihh decode_sequence decode_loop decode_one
    decode_value unpack_from_bbhh next_vector compute_message_digest digest_size digest_hash
    build_message_digest encode_message validate_fields pack_bbhihh encode_all encode encode_value
    pack_bbhh
decode_and_verify-signed_bytes = refl

decode_and_verify-Authentic_example : Authentic signed_bytes 0 secret signed_message
decode_and_verify-Authentic_example =
    decode_and_verify-Authentic signed_bytes 0 secret signed_message (ground arith)
      decode_and_verify-signed_bytes

encode_message-hello_message : encode_message none none hello_message ≡ ok hello_bytes
unfolding encode_message validate_fields pack_bbhihh encode_all encode encode_value pack_bbhh
encode_message-hello_message = refl

decode_and_verify_unsigned_example : decode_and_verify hello_bytes 0 secret ≡ err missing_digest
decode_and_verify_unsigned_example =
    decode_and_verify_unsigned hello_message hello_bytes 0 secret hello_message-HasByteValues
      hello_message-unsigned encode_message-hello_message
