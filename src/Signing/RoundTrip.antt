-- ===== src/Signing/RoundTrip.antt =====
-- A signed message passes the verification with the same secret.
use xcesp_l2tpv3d.Common.{ℕ, ◌-◌, ◌≡◌, refl, ap, sym, ◌∙◌, arith, none, some, true}
use xcesp_l2tpv3d.Common.{[], ◌∷◌, ◌++◌, length, take, replicate, length-replicate, All-append}
use xcesp_l2tpv3d.Exception.{ok, >>=-eq-ok}
use xcesp_l2tpv3d.Struct.{Bytes, IsBytes, IsByte}
use xcesp_l2tpv3d.Crypto.{Crypto, md5, sha1}
use xcesp_l2tpv3d.Avp.{Avp, find_avp, vendor_ietf}
use xcesp_l2tpv3d.AttrType
use xcesp_l2tpv3d.Avp.Plain.{HasByteValues}
use xcesp_l2tpv3d.Attribute.Build.{build_message_digest}
use xcesp_l2tpv3d.Message.{ControlMessage, encode_message, decode_message}
use xcesp_l2tpv3d.Auth.{
  digest_size, digest_hash, digest_size_of, hashlib_ctor, DigestHash, compute_message_digest,
  verify_message_digest, eq_bytes_refl,
}
use xcesp_l2tpv3d.Signing.{received_digest_of, encode_signed, decode_and_verify}
use xcesp_l2tpv3d.Signing.Plain.{decode_message_of_encoded}
use xcesp_l2tpv3d.Signing.Patch.{
  digest_avp, find-append_digest, zero_digests_signed, encode_message_patch,
}

module _ ⦃c : Crypto⦄ where
  pub digest_is_hmac :
      (hash_type : ℕ) (secret message digest : Bytes)
      → compute_message_digest hash_type secret message ≡ ok digest
      → (h : DigestHash) × (digest_hash hash_type ≡ ok h)
        × (digest ≡ c.hmac (hashlib_ctor h) secret (0x01 ∷ message))
  unfolding compute_message_digest
  digest_is_hmac hash_type secret message digest e =
      let (h, x, e1) = >>=-eq-ok (digest_hash hash_type) _ e in (h, x, ground (arith, e1))

  length_of_digest :
      (h : DigestHash) (secret message : Bytes)
      → length (c.hmac (hashlib_ctor h) secret message) ≡ digest_size_of h
  length_of_digest DigestHash.hmac_md5 secret message = c.length-hmac md5 secret message
  length_of_digest DigestHash.hmac_sha1 secret message = c.length-hmac sha1 secret message

  verified_digest :
      (hash_type : ℕ) (secret message digest : Bytes)
      → compute_message_digest hash_type secret message ≡ ok digest
      → verify_message_digest hash_type secret message digest ≡ ok true
  unfolding verify_message_digest
  verified_digest hash_type secret message digest e = rw e (ground (arith, eq_bytes_refl digest))

  received_signed :
      (hash_type dsize : ℕ) (digest : Bytes)
      → digest_size hash_type ≡ ok dsize
      → length digest ≡ dsize
      → received_digest_of hash_type (some (digest_avp hash_type digest)) ≡ ok digest
  unfolding received_digest_of
  received_signed hash_type dsize digest e n = ground arith

  accepted :
      (m : ControlMessage) (hash_type dsize : ℕ) (secret digest encoded bytes : Bytes)
      (placeholder : Avp)
      → digest_size hash_type ≡ ok dsize
      → length digest ≡ dsize
      → find_avp m.avps AttrType.message_digest vendor_ietf ≡ none
      → build_message_digest hash_type (replicate dsize 0) ≡ ok placeholder
      → encode_message none none (record m { avps = m.avps ++ placeholder ∷ [] }) ≡ ok encoded
      → compute_message_digest hash_type secret encoded ≡ ok digest
      → decode_message none bytes
        ≡ ok (record m { avps = m.avps ++ digest_avp hash_type digest ∷ [] })
      → decode_and_verify bytes hash_type secret
        ≡ ok (record m { avps = m.avps ++ digest_avp hash_type digest ∷ [] })
  unfolding decode_and_verify
  accepted m hash_type dsize secret digest encoded bytes placeholder ed n fresh b e ec d =
      rw
        (
          d,
          find-append_digest m.avps hash_type digest fresh,
          received_signed hash_type dsize digest ed n,
          ed,
          zero_digests_signed m.avps hash_type dsize digest placeholder fresh b,
          e,
          verified_digest hash_type secret encoded digest ec,
        )
        refl

  -- The steps of `encode_signed`.
  record Signed (m : ControlMessage) (hash_type : ℕ) (secret bytes : Bytes) : Type 0 where
    dsize : ℕ
    placeholder : Avp
    encoded : Bytes
    digest : Bytes
    size_there : digest_size hash_type ≡ ok dsize
    placeholder_there : build_message_digest hash_type (replicate dsize 0) ≡ ok placeholder
    encoded_there :
        encode_message none none (record m { avps = m.avps ++ placeholder ∷ [] }) ≡ ok encoded
    digest_there : compute_message_digest hash_type secret encoded ≡ ok digest
    bytes_there : bytes ≡ take (length encoded - dsize) encoded ++ digest

  Signed-steps :
      (m : ControlMessage) (hash_type : ℕ) (secret bytes : Bytes)
      → encode_signed m hash_type secret ≡ ok bytes
      → Signed m hash_type secret bytes
  unfolding encode_signed
  Signed-steps m hash_type secret bytes e =
      let (dsize, ed, e1) = >>=-eq-ok (digest_size hash_type) _ e in
      let (placeholder, eb, e2) =
        >>=-eq-ok (build_message_digest hash_type (replicate dsize 0)) _ e1 in
      let (encoded, ee, e3) =
        >>=-eq-ok (encode_message none none (record m { avps = m.avps ++ placeholder ∷ [] })) _
          e2 in
      let (digest, ec, e4) = >>=-eq-ok (compute_message_digest hash_type secret encoded) _ e3 in
      record {
        dsize = dsize;
        placeholder = placeholder;
        encoded = encoded;
        digest = digest;
        size_there = ed;
        placeholder_there = eb;
        encoded_there = ee;
        digest_there = ec;
        bytes_there = cc e4;
      }

  placeholder_shape :
      (hash_type : ℕ) (zeros : Bytes) (placeholder : Avp)
      → build_message_digest hash_type zeros ≡ ok placeholder
      → (placeholder ≡ digest_avp hash_type zeros) × IsByte hash_type
  unfolding build_message_digest
  placeholder_shape hash_type zeros placeholder e = ground arith

  -- A digest has the size of its hash, and is made of bytes.
  digest_fits :
      (hash_type dsize : ℕ) (secret message digest : Bytes)
      → digest_size hash_type ≡ ok dsize
      → compute_message_digest hash_type secret message ≡ ok digest
      → (length digest ≡ dsize) × IsBytes digest
  unfolding digest_size
  digest_fits hash_type dsize secret message digest ed ec =
      let (h, eh, is_hmac) = digest_is_hmac hash_type secret message digest ec in
      (
        ground (arith, eh, ap length is_hmac, length_of_digest h secret (0x01 ∷ message)),
        rw is_hmac (c.hmac-IsBytes (hashlib_ctor h) secret (0x01 ∷ message)),
      )

  -- The bytes that `encode_signed` writes pass `decode_and_verify` with the same hash and secret, and
  -- the message comes back with one Message Digest AVP, of the size of the hash, behind its AVPs.
  -- The message has no such AVP before, and its values are bytes.
  pub decode_and_verify-encode_signed :
      (m : ControlMessage) (hash_type : ℕ) (secret bytes : Bytes)
      → HasByteValues m.avps
      → find_avp m.avps AttrType.message_digest vendor_ietf ≡ none
      → encode_signed m hash_type secret ≡ ok bytes
      → (digest : Bytes) × (digest_size hash_type ≡ ok (length digest))
        × (decode_and_verify bytes hash_type secret
            ≡ ok (record m { avps = m.avps ++ digest_avp hash_type digest ∷ [] }))
  decode_and_verify-encode_signed m hash_type secret bytes b fresh e =
      let s = Signed-steps m hash_type secret bytes e in
      let (size, digest_bytes) =
        digest_fits hash_type s.dsize secret s.encoded s.digest s.size_there s.digest_there in
      let (shape, byte) =
        placeholder_shape hash_type (replicate s.dsize 0) s.placeholder s.placeholder_there in
      let zeros_size = length-replicate s.dsize 0 in
      let patch =
        encode_message_patch m hash_type s.digest (replicate s.dsize 0) s.encoded
          (size ∙ sym zeros_size)
          (ap (λ (a : Avp). encode_message none none (record m { avps = m.avps ++ a ∷ [] }))
              (sym shape)
            ∙ s.encoded_there) in
      let written : encode_message none none
            (record m { avps = m.avps ++ digest_avp hash_type s.digest ∷ [] })
          ≡ ok bytes =
        patch
        ∙ ap (λ k. ok (take (length s.encoded - k) s.encoded ++ s.digest)) zeros_size
        ∙ ap ok (sym s.bytes_there) in
      (
        s.digest,
        s.size_there ∙ ap ok (sym size),
        accepted m hash_type s.dsize secret s.digest s.encoded bytes s.placeholder s.size_there size
            fresh s.placeholder_there s.encoded_there s.digest_there
            (decode_message_of_encoded _ bytes
              (All-append _ m.avps (digest_avp hash_type s.digest ∷ []) b
                ((byte, digest_bytes), tt))
              written),
      )
