-- ===== src/Hiding/Errors.antt =====
-- `_unhide_value` raises nothing but `ValueError`.
use xcesp_l2tpv3d.Common.{ℕ, ◌≤◌, arith}
use xcesp_l2tpv3d.Common.{[], ◌∷◌, length}
use xcesp_l2tpv3d.Exception.{OnlyValueError}
use xcesp_l2tpv3d.Struct.{Bytes, unpack_from_u16}
use xcesp_l2tpv3d.Crypto.{Crypto}
use xcesp_l2tpv3d.Hiding.{unhide_value, xor_bytes}
use xcesp_l2tpv3d.Hiding.Xor.{length-xor_bytes}
use xcesp_l2tpv3d.Hiding.Keystream.{generate_keystream-IsKeystream}

OnlyValueError-unpack_from_u16 :
    (body : Bytes) → 2 ≤ length body → OnlyValueError (unpack_from_u16 body)
unfolding unpack_from_u16
OnlyValueError-unpack_from_u16 [] h = absurd (omega arith)
OnlyValueError-unpack_from_u16 (a ∷ []) h = absurd (omega arith)
OnlyValueError-unpack_from_u16 (a ∷ b ∷ rest) h = tt

module _ ⦃c : Crypto⦄ where
  pub unhide_value-OnlyValueError :
      (attribute_type : ℕ) (field secret random_vector : Bytes)
      → attribute_type ≤ 0xFFFF
      → OnlyValueError (unhide_value attribute_type field secret random_vector)
  unfolding unhide_value
  unhide_value-OnlyValueError attribute_type field secret random_vector h =
      let (ks, e, k) =
        generate_keystream-IsKeystream attribute_type secret random_vector (length field) h in
      ground (
        arith,
        e,
        k.0,
        length-xor_bytes field ks,
        OnlyValueError-unpack_from_u16 (xor_bytes field ks),
      )
