-- ===== src/Signing/Errors.antt =====
-- `encode` without a secret, and `decode_and_verify`, raise nothing but `ValueError`.
use xcesp_l2tpv3d.Common.{
  ℕ, ◌+◌, ◌≤◌, ◌<◌, Bool, refl, Option, none, some, List, [], ◌∷◌, length, arith,
}
use xcesp_l2tpv3d.Exception.{OnlyValueError, OnlyValueError-bind}
use xcesp_l2tpv3d.Struct.{Bytes, IsBytes, pack_bbhh, pack_bbhihh, pack_u8, pack_u16, pack_u32}
use xcesp_l2tpv3d.Crypto.{Crypto}
use xcesp_l2tpv3d.Avp.{
  Avp, encode, encode_value, encode_hidden, encode_all, flags_byte, length_byte,
}
use xcesp_l2tpv3d.Avp.{avp_header_len}
use xcesp_l2tpv3d.Avp.Header.{flags_byte_lem, length_byte_lem}
use xcesp_l2tpv3d.Message.{ControlMessage, encode_message, decode_message, validate_fields}
use xcesp_l2tpv3d.Message.Decoded.{decode_message-OnlyValueError}
use xcesp_l2tpv3d.Auth.{digest_size, digest_hash, compute_message_digest, verify_message_digest}
use xcesp_l2tpv3d.Attribute.Build.{build_message_digest}
use xcesp_l2tpv3d.Signing.{zero_digests, received_digest_of, decode_and_verify}

flags_byte_fits : (m h : Bool) (total : ℕ) → total ≤ 1023 → flags_byte m h total < 256
flags_byte_fits m h total le = rw (flags_byte_lem m h total le) (ground arith)

length_byte_fits : (total : ℕ) → total ≤ 1023 → length_byte total < 256
length_byte_fits total le = rw (length_byte_lem total le) (omega arith)

module _ ⦃c : Crypto⦄ where
  encode-OnlyValueError : (a : Avp) → OnlyValueError (encode none none a)
  unfolding encode encode_value encode_hidden pack_bbhh pack_u8 pack_u16
  encode-OnlyValueError a = ground (
    arith,
    flags_byte_fits a.mandatory a.hidden (avp_header_len + length a.value),
    length_byte_fits (avp_header_len + length a.value),
  )

  encode_all-OnlyValueError : (avps : List Avp) → OnlyValueError (encode_all none none avps)
  unfolding encode_all
  encode_all-OnlyValueError [] = tt
  encode_all-OnlyValueError (a ∷ avps) =
      ground (arith, encode-OnlyValueError a, encode_all-OnlyValueError avps)

  pub encode_message-OnlyValueError :
      (m : ControlMessage) → OnlyValueError (encode_message none none m)
  unfolding encode_message validate_fields pack_bbhihh pack_u8 pack_u16 pack_u32
  encode_message-OnlyValueError m = ground (arith, encode_all-OnlyValueError m.avps)

  zero_digests-OnlyValueError :
      (hash_type dsize : ℕ) (avps : List Avp) → OnlyValueError (zero_digests hash_type dsize avps)
  unfolding zero_digests build_message_digest
  zero_digests-OnlyValueError hash_type dsize [] = tt
  zero_digests-OnlyValueError hash_type dsize (a ∷ avps) =
      ground (arith, zero_digests-OnlyValueError hash_type dsize avps)

  digest_size-OnlyValueError : (hash_type : ℕ) → OnlyValueError (digest_size hash_type)
  unfolding digest_size digest_hash
  digest_size-OnlyValueError hash_type = ground arith

  received_digest_of-OnlyValueError :
      (hash_type : ℕ) (o : Option Avp) → OnlyValueError (received_digest_of hash_type o)
  unfolding received_digest_of
  received_digest_of-OnlyValueError hash_type none = refl
  received_digest_of-OnlyValueError hash_type (some a) =
      ground (arith, digest_size-OnlyValueError hash_type)

  verify_message_digest-OnlyValueError :
      (hash_type : ℕ) (secret message digest : Bytes)
      → OnlyValueError (verify_message_digest hash_type secret message digest)
  unfolding verify_message_digest compute_message_digest digest_hash
  verify_message_digest-OnlyValueError hash_type secret message digest = ground arith

  pub decode_and_verify-OnlyValueError :
      (buf : Bytes) (hash_type : ℕ) (secret : Bytes)
      → IsBytes buf
      → OnlyValueError (decode_and_verify buf hash_type secret)
  unfolding decode_and_verify
  decode_and_verify-OnlyValueError buf hash_type secret b =
      OnlyValueError-bind (decode_message none buf) _ (decode_message-OnlyValueError none buf b)
        (λ m e.
          OnlyValueError-bind (received_digest_of hash_type _) _
            (received_digest_of-OnlyValueError hash_type _)
            (λ received e1.
              OnlyValueError-bind (digest_size hash_type) _ (digest_size-OnlyValueError hash_type)
                (λ dsize e2.
                  OnlyValueError-bind (zero_digests hash_type dsize m.avps) _
                    (zero_digests-OnlyValueError hash_type dsize m.avps)
                    (λ zeroed e3.
                      OnlyValueError-bind _ _ (encode_message-OnlyValueError _) (λ bytes e4.
                        OnlyValueError-bind _ _
                          (verify_message_digest-OnlyValueError hash_type secret bytes received)
                          (λ verified e5. ground arith))))))
