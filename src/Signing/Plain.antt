-- ===== src/Signing/Plain.antt =====
-- What is encoded without a secret is plain; an unsigned message fails verification.
use xcesp_l2tpv3d.Common.{ℕ, ◌≡◌, refl, none}
use xcesp_l2tpv3d.Exception.{ok, err, missing_digest}
use xcesp_l2tpv3d.Struct.{Bytes}
use xcesp_l2tpv3d.Crypto.{Crypto}
use xcesp_l2tpv3d.Avp.{find_avp, vendor_ietf}
use xcesp_l2tpv3d.AttrType
use xcesp_l2tpv3d.Avp.Plain.{HasByteValues, Readable-IsPlain, encode_all-IsPlain}
use xcesp_l2tpv3d.Message.{ControlMessage, encode_message, decode_message}
use xcesp_l2tpv3d.Message.RoundTrip.{encode_message-eq-ok, decode_message-encode_message}
use xcesp_l2tpv3d.Signing.{received_digest_of, decode_and_verify}

module _ ⦃c : Crypto⦄ where
  pub decode_message_of_encoded :
      (m : ControlMessage) (bytes : Bytes)
      → HasByteValues m.avps
      → encode_message none none m ≡ ok bytes
      → decode_message none bytes ≡ ok m
  decode_message_of_encoded m bytes b e =
      let (body, range, x, n, w) = encode_message-eq-ok none none m bytes e in
      decode_message-encode_message none none m bytes
        (Readable-IsPlain none none m.avps (encode_all-IsPlain m.avps body x) b) e

  -- The bytes of a message with no Message Digest AVP, such as an acknowledgement or what
  -- `Peer.tick` sends again, never pass the verification, whatever the secret and the hash.
  pub decode_and_verify_unsigned :
      (m : ControlMessage) (bytes : Bytes) (hash_type : ℕ) (secret : Bytes)
      → HasByteValues m.avps
      → find_avp m.avps AttrType.message_digest vendor_ietf ≡ none
      → encode_message none none m ≡ ok bytes
      → decode_and_verify bytes hash_type secret ≡ err missing_digest
  unfolding decode_and_verify received_digest_of
  decode_and_verify_unsigned m bytes hash_type secret b none_there e =
      rw (decode_message_of_encoded m bytes b e, none_there) refl
