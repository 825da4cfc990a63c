-- ===== src/Signing/Verified.antt =====
-- What `decode_and_verify` has checked when it returns a message.
use xcesp_l2tpv3d.Common.{ℕ, ◌≡◌, ap, ◌∙◌, arith, none, true}
use xcesp_l2tpv3d.Common.{List, ◌∷◌}
use xcesp_l2tpv3d.Exception.{ok, >>=-eq-ok}
use xcesp_l2tpv3d.Struct.{Bytes, IsBytes}
use xcesp_l2tpv3d.Crypto.{Crypto}
use xcesp_l2tpv3d.Avp.{Avp, find_avp, vendor_ietf}
use xcesp_l2tpv3d.AttrType
use xcesp_l2tpv3d.Message.{ControlMessage, encode_message, decode_message}
use xcesp_l2tpv3d.Message.Decoded.{encode_message-decode_message}
use xcesp_l2tpv3d.Auth.{
  DigestHash, digest_hash, digest_size, digest_size_of, hashlib_ctor, compute_message_digest,
  verify_message_digest, eq_bytes-eq,
}
use xcesp_l2tpv3d.Signing.{zero_digests, received_digest_of, decode_and_verify}
use xcesp_l2tpv3d.Signing.RoundTrip.{digest_is_hmac}

module _ ⦃c : Crypto⦄ where
  -- The first Message Digest AVP holds `digest`, and this is the HMAC of the message with zeros in
  -- place of its digests; the bytes that came in are the one encoding of the message.
  pub record Authentic (buf : Bytes) (hash_type : ℕ) (secret : Bytes) (m : ControlMessage)
      : Type 0 where
    pub digest : Bytes
    pub zeroed_avps : List Avp
    pub zeroed : Bytes
    pub hash : DigestHash
    pub hash_there : digest_hash hash_type ≡ ok hash
    pub received :
        received_digest_of hash_type (find_avp m.avps AttrType.message_digest vendor_ietf)
        ≡ ok digest
    pub zeroed_digests : zero_digests hash_type (digest_size_of hash) m.avps ≡ ok zeroed_avps
    pub zeroed_encoding : encode_message none none (record m { avps = zeroed_avps }) ≡ ok zeroed
    pub is_hmac : digest ≡ c.hmac (hashlib_ctor hash) secret (0x01 ∷ zeroed)
    pub one_encoding : encode_message none none m ≡ ok buf

  verified_equal :
      (hash_type : ℕ) (secret message digest : Bytes)
      → verify_message_digest hash_type secret message digest ≡ ok true
      → compute_message_digest hash_type secret message ≡ ok digest
  unfolding verify_message_digest
  verified_equal hash_type secret message digest e =
      let (expected, x, e1) = >>=-eq-ok (compute_message_digest hash_type secret message) _ e in
      x ∙ ap ok (ground (arith, e1, eq_bytes-eq expected digest))

  -- `decode_and_verify` returns no message but an authentic one.
  pub decode_and_verify-Authentic :
      (buf : Bytes) (hash_type : ℕ) (secret : Bytes) (m : ControlMessage)
      → IsBytes buf
      → decode_and_verify buf hash_type secret ≡ ok m
      → Authentic buf hash_type secret m
  unfolding decode_and_verify digest_size
  decode_and_verify-Authentic buf hash_type secret m b e =
      let (m', em, e1) = >>=-eq-ok (decode_message none buf) _ e in
      let (digest, ed, e2) =
        >>=-eq-ok
          (received_digest_of hash_type (find_avp m'.avps AttrType.message_digest vendor_ietf)) _
          e1 in
      let (dsize, es, e3) = >>=-eq-ok (digest_size hash_type) _ e2 in
      let (zeroed_avps, ez, e4) = >>=-eq-ok (zero_digests hash_type dsize m'.avps) _ e3 in
      let (zeroed, ee, e5) =
        >>=-eq-ok (encode_message none none (record m' { avps = zeroed_avps })) _ e4 in
      let (verified, ev, e6) =
        >>=-eq-ok (verify_message_digest hash_type secret zeroed digest) _ e5 in
      let same : m' ≡ m = ground (arith, e6) in
      let yes_verified : verified ≡ true = ground (arith, e6) in
      let computed = verified_equal hash_type secret zeroed digest (ev ∙ ap ok yes_verified) in
      let (hash, eh, is_hmac) = digest_is_hmac hash_type secret zeroed digest computed in
      let size : dsize ≡ digest_size_of hash = ground (arith, es, eh) in
      rw (← same) (record {
        digest = digest;
        zeroed_avps = zeroed_avps;
        zeroed = zeroed;
        hash = hash;
        hash_there = eh;
        received = ed;
        zeroed_digests = rw (← size) ez;
        zeroed_encoding = ee;
        is_hmac = is_hmac;
        one_encoding = (encode_message-decode_message none none buf m' b em).0;
      })
