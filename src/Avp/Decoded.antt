-- ===== src/Avp/Decoded.antt =====
-- `AVP.decode_one` and `AVP.decode_sequence` on any bytes, well formed or not.
use xcesp_l2tpv3d.Common.{
  ℕ, zero, suc, ◌+◌, ◌-◌, ◌*◌, ◌^◌, ◌≤◌, ◌≡◌, refl, arith, Bool, true, false, not, Option, none,
  some, inl, inr, bit_and, bit_or,
}
use xcesp_l2tpv3d.Common.{
  List, [], ◌∷◌, length, take, drop, length-drop, All-drop, ltb, ◌==◌, Bool-cases,
}
use xcesp_l2tpv3d.Exception.{ok, OnlyValueError, OnlyValueError-bind, >>=-eq-ok}
use xcesp_l2tpv3d.Struct.{IsByte, Bytes, IsBytes, unpack_from_bbhh}
use xcesp_l2tpv3d.Crypto.{Crypto}
use xcesp_l2tpv3d.Hiding.Errors.{unhide_value-OnlyValueError}
use xcesp_l2tpv3d.Avp.{
  Avp, decode_value, decode_one, next_vector, decode_loop, decode_sequence, avp_header_len,
}
use xcesp_l2tpv3d.Avp.Header.{low_two_bits, length_join}

module _ ⦃c : Crypto⦄ where
  decode_value-OnlyValueError :
      (hidden : Bool) (secret random_vector : Option Bytes) (attribute_type : ℕ) (field : Bytes)
      → attribute_type ≤ 0xFFFF
      → OnlyValueError (decode_value hidden secret random_vector attribute_type field)
  unfolding decode_value
  decode_value-OnlyValueError false secret random_vector attribute_type field h = tt
  decode_value-OnlyValueError true none random_vector attribute_type field h = refl
  decode_value-OnlyValueError true (some s) none attribute_type field h = refl
  decode_value-OnlyValueError true (some s) (some r) attribute_type field h =
      unhide_value-OnlyValueError attribute_type field s r h

  -- The header at the head of the bytes that are left.
  unpack_header :
      (left : Bytes)
      → IsBytes left
      → 6 ≤ length left
      → (b0 b1 vendor attr : ℕ) × (unpack_from_bbhh left ≡ ok (b0, b1, vendor, attr))
        × IsByte b0
        × IsByte b1
        × (vendor ≤ 0xFFFF)
        × (attr ≤ 0xFFFF)
  unfolding unpack_from_bbhh
  unpack_header (a ∷ b ∷ c ∷ d ∷ e ∷ f ∷ rest) h n =
      (a, b, c * 256 + d, e * 256 + f, refl, omega arith, omega arith, omega arith, omega arith)
  unpack_header _ h n = absurd (omega arith)

  module _ (secret random_vector : Option Bytes) (buf : Bytes) (offset : ℕ) (h : IsBytes buf) where
    -- The header, where the first test lets the decoder read it.
    header_there :
        ltb (length buf - offset) avp_header_len ≡ false
        → (b0 b1 vendor attr : ℕ) × (unpack_from_bbhh (drop offset buf) ≡ ok (b0, b1, vendor, attr))
          × IsByte b0
          × IsByte b1
          × (vendor ≤ 0xFFFF)
          × (attr ≤ 0xFFFF)
    header_there long =
        unpack_header (drop offset buf) (All-drop IsByte offset buf h)
          (ground (arith, length-drop offset buf))

    decode_one-OnlyValueError : OnlyValueError (decode_one secret random_vector buf offset)
    unfolding decode_one
    decode_one-OnlyValueError = elim (Bool-cases (ltb (length buf - offset) avp_header_len)) [
      | inl short ↦ rw short refl
      | inr long ↦
          let (b0, b1, vendor, attr, u, byte0, byte1, v, t) = header_there long in
          let total = bit_or (bit_and b0 0x03 * 2 ^ 8) b1 in
          let field = take (total - 6) (drop (offset + 6) buf) in
          ground (
            arith,
            long,
            u,
            decode_value-OnlyValueError (not (bit_and b0 0x40 == 0)) secret random_vector attr field
                t,
          )
    ]

    -- What is decoded lies in the buffer: the next offset is 6 to 1023 bytes further on and not
    -- past the end, and both identifiers have 16 bits.
    pub decode_one_bounds :
        (a : Avp) (next : ℕ)
        → decode_one secret random_vector buf offset ≡ ok (a, next)
        → (offset + 6 ≤ next)
          × (next ≤ offset + 1023)
          × (next ≤ length buf)
          × (a.vendor_id ≤ 0xFFFF)
          × (a.attribute_type ≤ 0xFFFF)
    unfolding decode_one
    decode_one_bounds a next e = elim (Bool-cases (ltb (length buf - offset) avp_header_len)) [
      | inl short ↦ ground (arith, short, e)
      | inr long ↦
          let (b0, b1, vendor, attr, u, byte0, byte1, v, t) = header_there long in
          ground (arith, long, u, e, low_two_bits b0 byte0, length_join (bit_and b0 0x03) b1)
    ]

  module _ (secret : Option Bytes) (buf : Bytes) (h : IsBytes buf) where
    decode_loop-OnlyValueError :
        (fuel : ℕ) (random_vector : Option Bytes) (pos : ℕ)
        → length buf ≤ pos + fuel
        → OnlyValueError (decode_loop fuel secret buf random_vector pos)
    unfolding decode_loop
    decode_loop-OnlyValueError zero random_vector pos n = ground arith
    decode_loop-OnlyValueError (suc fuel) random_vector pos n =
        elim (Bool-cases (ltb pos (length buf))) [
          | inl more ↦ rw more (
              OnlyValueError-bind (decode_one secret random_vector buf pos) _
                (decode_one-OnlyValueError secret random_vector buf pos h)
                (λ r e.
                  OnlyValueError-bind
                    (decode_loop fuel secret buf (next_vector random_vector r.0) r.1) _
                    (decode_loop-OnlyValueError fuel (next_vector random_vector r.0) r.1
                      (omega (arith, decode_one_bounds secret random_vector buf pos h r.0 r.1 e)))
                    (λ avps x. tt)))
          | inr done ↦ rw done tt
        ]

    -- The walk over any bytes ends, and what it raises is a `ValueError`: never `struct.error`.
    pub decode_sequence-OnlyValueError :
        (offset : ℕ) → OnlyValueError (decode_sequence secret buf offset)
    unfolding decode_sequence
    decode_sequence-OnlyValueError offset =
        decode_loop-OnlyValueError (length buf) none offset (omega arith)

module _ ⦃c : Crypto⦄ (fuel : ℕ) (secret : Option Bytes) (buf : Bytes) (current : Option Bytes)
    (pos : ℕ) where
  -- A walk that returns no AVP has reached the end.
  pub decode_loop_end : decode_loop fuel secret buf current pos ≡ ok [] → length buf ≤ pos
  unfolding decode_loop
  decode_loop_end e = at_fuel fuel e
    where
      at_fuel : (n : ℕ) → decode_loop n secret buf current pos ≡ ok [] → length buf ≤ pos
      at_fuel zero x = ground arith
      at_fuel (suc n) x = elim (Bool-cases (ltb pos (length buf))) [
        | inl more ↦
            let (r, one, y) = >>=-eq-ok (decode_one secret current buf pos) _ (rw more at x) in
            let (tail, z, end) =
              >>=-eq-ok (decode_loop n secret buf (next_vector current r.0) r.1) _ y in
            cc end
        | inr done ↦ ground (arith, done)
      ]

  -- A walk that returns AVPs has decoded the first of them, and goes on behind it.
  pub decode_loop_next :
      (a : Avp) (avps : List Avp)
      → decode_loop (suc fuel) secret buf current pos ≡ ok (a ∷ avps)
      → (next : ℕ) × (decode_one secret current buf pos ≡ ok (a, next))
        × (decode_loop fuel secret buf (next_vector current a) next ≡ ok avps)
  unfolding decode_loop
  decode_loop_next a avps e = elim (Bool-cases (ltb pos (length buf))) [
    | inl more ↦
        let (r, one, y) = >>=-eq-ok (decode_one secret current buf pos) _ (rw more at e) in
        let (tail, z, end) =
          >>=-eq-ok (decode_loop fuel secret buf (next_vector current r.0) r.1) _ y in
        (r.1, cc (one, end), cc (z, end))
    | inr done ↦ ground (arith, done, e)
  ]
