-- ===== src/Message/Decoded.antt =====
-- `ControlMessage.decode` on any bytes, and encoding again what was decoded.
use xcesp_l2tpv3d.Common.{ℕ, ◌+◌, ◌≤◌, ◌≡◌, refl, ap, ◌∙◌, arith, bit_and, Option, none}
use xcesp_l2tpv3d.Common.{◌∷◌, ◌++◌, length, All, ◌==◌, if◌then◌else◌, ◌&&◌}
use xcesp_l2tpv3d.Common.Table.{holds_below, equal_below}
use xcesp_l2tpv3d.Exception.{ok, OnlyValueError}
use xcesp_l2tpv3d.Struct.{Bytes, IsByte, IsBytes, unpack_from_bbhihh}
use xcesp_l2tpv3d.Crypto.{Crypto}
use xcesp_l2tpv3d.Avp.{decode_sequence}
use xcesp_l2tpv3d.Avp.Canonical.{IsPlain, encode_all-decode_sequence}
use xcesp_l2tpv3d.Avp.Decoded.{decode_sequence-OnlyValueError}
use xcesp_l2tpv3d.Message.{
  ControlMessage, check_flags, encode_message, decode_message, header_len, max_message_len,
}
use xcesp_l2tpv3d.Message.RoundTrip.{InRange, header_bytes, encode_message_wire}

-- The one version byte that passes both tests.
version_only :
    (b : ℕ) → IsByte b → (if bit_and b 0xF0 == 0 && bit_and b 0x0F == 3 then b else 3) ≡ 3
unfolding holds_below
version_only = equal_below 256 _ (λ b. 3) refl

module _ ⦃c : Crypto⦄ where
  decode_from :
      (b0 b1 c1 c0 d3 d2 d1 d0 s1 s0 r1 r0 : ℕ) (body : Bytes) (m : ControlMessage)
      → let buf = b0 ∷ b1 ∷ c1 ∷ c0 ∷ d3 ∷ d2 ∷ d1 ∷ d0 ∷ s1 ∷ s0 ∷ r1 ∷ r0 ∷ body in
        IsBytes buf
        → decode_message none buf ≡ ok m
        → InRange m
          × (header_bytes m (header_len + length body) ++ body ≡ buf)
          × (header_len + length body ≤ max_message_len)
          × (decode_sequence none buf header_len ≡ ok m.avps)
  unfolding decode_message unpack_from_bbhihh check_flags
  decode_from b0 b1 c1 c0 d3 d2 d1 d0 s1 s0 r1 r0 body m h e = (
    record { ccid_fits = ground arith; ns_fits = ground arith; nr_fits = ground arith },
    ground (arith, version_only b1),
    ground arith,
    ground arith,
  )

  -- Without a secret there is one encoding of a message: what `decode` accepts, `encode` gives back
  -- byte for byte, and no AVP of it is hidden.
  pub encode_message-decode_message :
      (secret random_vector : Option Bytes) (buf : Bytes) (m : ControlMessage)
      → IsBytes buf
      → decode_message none buf ≡ ok m
      → (encode_message secret random_vector m ≡ ok buf) × All IsPlain m.avps
  unfolding decode_message
  encode_message-decode_message secret random_vector
        (b0 ∷ b1 ∷ c1 ∷ c0 ∷ d3 ∷ d2 ∷ d1 ∷ d0 ∷ s1 ∷ s0 ∷ r1 ∷ r0 ∷ body) m h e =
      let (range, bytes, n, seq) = decode_from b0 b1 c1 c0 d3 d2 d1 d0 s1 s0 r1 r0 body m h e in
      let (again, plain) =
        encode_all-decode_sequence secret random_vector _ h header_len m.avps (omega arith) seq in
      (encode_message_wire secret random_vector m body range again n ∙ ap ok bytes, plain)
  encode_message-decode_message secret random_vector _ m h e = ground arith

module _ ⦃c : Crypto⦄ (secret : Option Bytes) where
  -- Decoding any bytes ends, with a message or with a `ValueError`.
  pub decode_message-OnlyValueError :
      (buf : Bytes) → IsBytes buf → OnlyValueError (decode_message secret buf)
  unfolding decode_message unpack_from_bbhihh check_flags
  decode_message-OnlyValueError (b0 ∷ b1 ∷ c1 ∷ c0 ∷ d3 ∷ d2 ∷ d1 ∷ d0 ∷ s1 ∷ s0 ∷ r1 ∷ r0 ∷ body)
        h =
      ground (
        arith,
        decode_sequence-OnlyValueError secret
            (b0 ∷ b1 ∷ c1 ∷ c0 ∷ d3 ∷ d2 ∷ d1 ∷ d0 ∷ s1 ∷ s0 ∷ r1 ∷ r0 ∷ body) h header_len,
      )
  decode_message-OnlyValueError _ h = ground arith
