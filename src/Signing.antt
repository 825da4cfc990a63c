-- ===== src/Signing.antt =====
-- Signing and verification of control messages in xcesp_l2tpv3d/messages.py.
pub mod Plain
pub mod Patch
pub mod RoundTrip
pub mod Verified
pub mod Errors
use xcesp_l2tpv3d.Common.{ℕ, suc, ◌+◌, ◌-◌, Bool, true, false, ◌&&◌, not, Option, none, some}
use xcesp_l2tpv3d.Common.{List, [], ◌∷◌, ◌++◌, length, take, replicate, ◌==◌, if◌then◌else◌}
use xcesp_l2tpv3d.Exception.{
  Result, ok, err, ◌>>=◌, ◌>>◌, raise_if, missing_digest, digest_too_short, hash_type_mismatch,
  digest_size_mismatch, verification_failed,
}
use xcesp_l2tpv3d.Struct.{Bytes}
use xcesp_l2tpv3d.Crypto.{Crypto}
use xcesp_l2tpv3d.Avp.{Avp, find_avp, vendor_ietf}
use xcesp_l2tpv3d.AttrType
use xcesp_l2tpv3d.Attribute.Build.{build_message_digest}
use xcesp_l2tpv3d.Message.{ControlMessage, encode_message, decode_message}
use xcesp_l2tpv3d.Auth.{digest_size, compute_message_digest, verify_message_digest}

-- The AVPs with each Message Digest AVP replaced by one of zeros: the loop of
-- `_decode_and_verify_impl`.
unfoldable pub zero_digests : ℕ → ℕ → List Avp → Result (List Avp)
zero_digests hash_type dsize [] = ok []
zero_digests hash_type dsize (a ∷ avps) = do
  zeroed ←
      (if a.vendor_id == vendor_ietf && a.attribute_type == AttrType.message_digest
        then build_message_digest hash_type (replicate dsize 0)
        else ok a)
  rest ← zero_digests hash_type dsize avps
  ok (zeroed ∷ rest)

-- `md_avp.value`, checked: the received digest.
unfoldable pub received_digest_of : ℕ → Option Avp → Result Bytes
received_digest_of hash_type none = err missing_digest
received_digest_of hash_type (some a) = elim a.value [
  | [] ↦ err digest_too_short
  | received_hash_type ∷ digest ↦ do
    raise_if (not (received_hash_type == hash_type)) hash_type_mismatch
    dsize ← digest_size hash_type
    raise_if (not (length digest + 1 == 1 + dsize)) digest_size_mismatch
    ok digest
]

module _ ⦃c : Crypto⦄ where
  -- `ControlMessage.encode_signed`, by `_encode_signed_impl`.
  unfoldable pub encode_signed : ControlMessage → ℕ → Bytes → Result Bytes
  encode_signed m hash_type shared_secret = do
    dsize ← digest_size hash_type
    placeholder ← build_message_digest hash_type (replicate dsize 0)
    encoded_zeroed ← encode_message none none (record m { avps = m.avps ++ placeholder ∷ [] })
    digest ← compute_message_digest hash_type shared_secret encoded_zeroed
    ok (take (length encoded_zeroed - dsize) encoded_zeroed ++ digest)

  -- `ControlMessage.decode_and_verify`, by `_decode_and_verify_impl`.
  unfoldable pub decode_and_verify : Bytes → ℕ → Bytes → Result ControlMessage
  decode_and_verify buf hash_type shared_secret = do
    m ← decode_message none buf
    received_digest ←
        received_digest_of hash_type (find_avp m.avps AttrType.message_digest vendor_ietf)
    dsize ← digest_size hash_type
    zeroed_avps ← zero_digests hash_type dsize m.avps
    zeroed_bytes ← encode_message none none (record m { avps = zeroed_avps })
    verified ← verify_message_digest hash_type shared_secret zeroed_bytes received_digest
    raise_if (not verified) verification_failed
    ok m
