-- ===== src/Signing/Patch.antt =====
-- A signed message with another digest of the same size.
use xcesp_l2tpv3d.Common.{
  ℕ, suc, ◌+◌, ◌-◌, ◌/◌, ◌%◌, ◌≡◌, refl, ap, sym, ◌∙◌, arith, none, some, true, false,
}
use xcesp_l2tpv3d.Common.{
  List, [], ◌∷◌, ◌++◌, length, take, replicate, length-append, take_prefix, append_assoc,
}
use xcesp_l2tpv3d.Exception.{ok}
use xcesp_l2tpv3d.Struct.{Bytes}
use xcesp_l2tpv3d.Crypto.{Crypto}
use xcesp_l2tpv3d.Avp.{Avp, find_avp, encode, vendor_ietf, avp_header_len}
use xcesp_l2tpv3d.AttrType
use xcesp_l2tpv3d.Avp.Canonical.{encode_plain}
use xcesp_l2tpv3d.Avp.RoundTrip.{wire}
use xcesp_l2tpv3d.Avp.Header.{flags_value}
use xcesp_l2tpv3d.Avp.Plain.{encode_plain-eq-ok, encode_all-append, encode_all_last}
use xcesp_l2tpv3d.Attribute.Build.{ietf_avp, build_message_digest}
use xcesp_l2tpv3d.Message.{ControlMessage, encode_message}
use xcesp_l2tpv3d.Message.RoundTrip.{encode_message-eq-ok, encode_message_wire, header_bytes}
use xcesp_l2tpv3d.TunnelMessage.Find.{find_avp-append}
use xcesp_l2tpv3d.Signing.{zero_digests}

-- The Message Digest AVP.
abbrev pub digest_avp : ℕ → Bytes → Avp
digest_avp hash_type digest = ietf_avp AttrType.message_digest (hash_type ∷ digest) true

-- Two digests of one size give AVPs that differ in the digest only.
pub wire_digest :
    (hash_type : ℕ) (digest zeros : Bytes)
    → length digest ≡ length zeros
    → (front : Bytes) × (wire (digest_avp hash_type digest) (hash_type ∷ digest) ≡ front ++ digest)
      × (wire (digest_avp hash_type zeros) (hash_type ∷ zeros) ≡ front ++ zeros)
wire_digest hash_type digest zeros n =
    let size = avp_header_len + length (hash_type ∷ zeros) in
    let front : Bytes =
      flags_value true false size
      ∷ size % 256
      ∷ 0
      ∷ 0
      ∷ AttrType.message_digest / 256
      ∷ AttrType.message_digest % 256
      ∷ hash_type
      ∷ [] in
    (
      front,
      ap
          (λ k.
            flags_value true false (avp_header_len + suc k)
            ∷ (avp_header_len + suc k) % 256
            ∷ 0
            ∷ 0
            ∷ 0
            ∷ 59
            ∷ hash_type
            ∷ digest)
          n,
      refl,
    )

-- The digest AVP is found behind AVPs that hold none.
pub find-append_digest :
    (avps : List Avp) (hash_type : ℕ) (digest : Bytes)
    → find_avp avps AttrType.message_digest vendor_ietf ≡ none
    → find_avp (avps ++ digest_avp hash_type digest ∷ []) AttrType.message_digest vendor_ietf
      ≡ some (digest_avp hash_type digest)
unfolding find_avp
find-append_digest avps hash_type digest e =
    ground
      (arith, e, find_avp-append avps (digest_avp hash_type digest ∷ []) AttrType.message_digest 0)

pub zero_digests_signed :
    (avps : List Avp) (hash_type dsize : ℕ) (digest : Bytes) (placeholder : Avp)
    → find_avp avps AttrType.message_digest vendor_ietf ≡ none
    → build_message_digest hash_type (replicate dsize 0) ≡ ok placeholder
    → zero_digests hash_type dsize (avps ++ digest_avp hash_type digest ∷ [])
      ≡ ok (avps ++ placeholder ∷ [])
unfolding zero_digests find_avp
zero_digests_signed [] hash_type dsize digest placeholder e b = rw b
zero_digests_signed (a ∷ avps) hash_type dsize digest placeholder e b =
    ground (arith, zero_digests_signed avps hash_type dsize digest placeholder)

module _ ⦃c : Crypto⦄ where
  patched :
      (m signed : ControlMessage) (front bytes zeros digest encoded body : Bytes)
      → body ≡ front ++ digest
      → bytes ≡ front ++ zeros
      → encoded ≡ header_bytes m (12 + length bytes) ++ bytes
      → length body ≡ length bytes
      → encode_message none none signed ≡ ok (header_bytes m (12 + length body) ++ body)
      → encode_message none none signed
        ≡ ok (take (length encoded - length zeros) encoded ++ digest)
  patched m signed front bytes zeros digest encoded body eb ez ew n e =
      let head : Bytes = header_bytes m (12 + length bytes) ++ front in
      let whole : encoded ≡ head ++ zeros =
        ew ∙ ap (λ t. header_bytes m (12 + length bytes) ++ t) ez in
      let cut : take (length encoded - length zeros) encoded ≡ head =
        ap (take (length encoded - length zeros)) whole
        ∙ take_prefix head zeros (length encoded - length zeros)
            (omega (arith, ap length whole, length-append head zeros)) in
      e
      ∙ ap ok (
          ap (λ k. header_bytes m (12 + k) ++ body) n
          ∙ ap (λ t. header_bytes m (12 + length bytes) ++ t) eb
          ∙ ap (λ t. t ++ digest) (sym cut))

  -- The placeholder's zeros are the last bytes, and the digest in their place is the encoding of the
  -- message with the digest.
  pub encode_message_patch :
      (m : ControlMessage) (hash_type : ℕ) (digest zeros encoded : Bytes)
      → length digest ≡ length zeros
      → encode_message none none (record m { avps = m.avps ++ digest_avp hash_type zeros ∷ [] })
        ≡ ok encoded
      → encode_message none none (record m { avps = m.avps ++ digest_avp hash_type digest ∷ [] })
        ≡ ok (take (length encoded - length zeros) encoded ++ digest)
  encode_message_patch m hash_type digest zeros encoded n e =
      let (bytes, range, x, fits, w) = encode_message-eq-ok none none _ encoded e in
      let (body, last, u, v, y) =
        encode_all_last none none m.avps (digest_avp hash_type zeros) bytes x in
      let (f, z) = encode_plain-eq-ok none none (digest_avp hash_type zeros) last refl v in
      let (front, wd, wz) = wire_digest hash_type digest zeros n in
      let signed_last : encode none none (digest_avp hash_type digest) ≡ ok (front ++ digest) =
        encode_plain none none (digest_avp hash_type digest) refl (record {
          vendor_fits = omega arith;
          attribute_fits = omega arith;
          length_fits = omega (arith, f.length_fits);
        })
        ∙ ap ok wd in
      let signed_body =
        encode_all-append none none m.avps (digest_avp hash_type digest) body (front ++ digest) u
          signed_last in
      let same_length : length (body ++ (front ++ digest)) ≡ length bytes = omega (
        arith,
        n,
        ap length y,
        ap length z,
        ap length wz,
        length-append body last,
        length-append body (front ++ digest),
        length-append front digest,
        length-append front zeros,
      ) in
      patched m _ (body ++ front) bytes zeros digest encoded (body ++ (front ++ digest))
        (sym (append_assoc body front digest))
        (y ∙ ap (λ t. body ++ t) (z ∙ wz) ∙ sym (append_assoc body front zeros)) w same_length
        (encode_message_wire none none
          (record m { avps = m.avps ++ digest_avp hash_type digest ∷ [] })
          (body ++ (front ++ digest))
          (record { ccid_fits = range.ccid_fits; ns_fits = range.ns_fits; nr_fits = range.nr_fits })
          signed_body (omega (arith, same_length, fits)))
