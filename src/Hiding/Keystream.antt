-- ===== src/Hiding/Keystream.antt =====
-- The keystream loop ends, and gives exactly the bytes that were asked for.
use xcesp_l2tpv3d.Common.{ℕ, zero, suc, ◌+◌, ◌≤◌, ◌≡◌, refl, arith, inl, inr}
use xcesp_l2tpv3d.Common.{
  [], ◌++◌, length, take, length-append, length-take, All-append, All-take, ltb, Bool-cases,
}
use xcesp_l2tpv3d.Exception.{ok}
use xcesp_l2tpv3d.Struct.{Bytes, IsBytes, pack_u16, be16}
use xcesp_l2tpv3d.Crypto.{Crypto, md5}
use xcesp_l2tpv3d.Hiding.{keystream_loop, generate_keystream}

-- What the caller of `_generate_keystream` relies on.
abbrev pub IsKeystream : ℕ → Bytes → Type 0
IsKeystream n ks = (length ks ≡ n) × IsBytes ks

module _ ⦃c : Crypto⦄ where
  keystream_loop-IsKeystream :
      (fuel : ℕ) (secret : Bytes) (wanted : ℕ) (ks prev : Bytes)
      → IsBytes ks
      → wanted ≤ fuel + length ks
      → (out : Bytes) × (keystream_loop fuel secret wanted ks prev ≡ ok out)
        × IsKeystream wanted out
  unfolding keystream_loop
  keystream_loop-IsKeystream zero secret wanted ks prev h e =
      (take wanted ks, ground arith, (omega (arith, length-take wanted ks), All-take _ wanted ks h))
  keystream_loop-IsKeystream (suc fuel) secret wanted ks prev h e =
      let block = c.digest md5 (secret ++ prev) in
      elim (Bool-cases (ltb (length ks) wanted)) [
        | inl more ↦ rw more (
            keystream_loop-IsKeystream fuel secret wanted (ks ++ block) block
              (All-append _ ks block h (c.digest-IsBytes md5 (secret ++ prev)))
              (omega (arith, length-append ks block, c.length-digest md5 (secret ++ prev))))
        | inr done ↦
            rw done (
              take wanted ks,
              refl,
              (ground (arith, length-take wanted ks), All-take _ wanted ks h),
            )
      ]

  -- For a 16-bit attribute type the keystream is there, of any length that is asked for.
  pub generate_keystream-IsKeystream :
      (attribute_type : ℕ) (secret random_vector : Bytes) (n : ℕ)
      → attribute_type ≤ 0xFFFF
      → (out : Bytes) × (generate_keystream attribute_type secret random_vector n ≡ ok out)
        × IsKeystream n out
  unfolding generate_keystream pack_u16
  generate_keystream-IsKeystream attribute_type secret random_vector zero h = ([], refl, (refl, tt))
  generate_keystream-IsKeystream attribute_type secret random_vector (suc n) h =
      let first = c.digest md5 ((be16 attribute_type ++ secret) ++ random_vector) in
      let (out, e, k) =
        keystream_loop-IsKeystream (suc n) secret (suc n) first first (c.digest-IsBytes md5 _)
          (omega arith) in
      (out, ground arith, k)
