-- ===== src/Hiding/RoundTrip.antt =====
-- `_unhide_value` undoes `_hide_value`.
use xcesp_l2tpv3d.Common.{ℕ, zero, suc, ◌+◌, ◌*◌, ◌/◌, ◌%◌, ◌≤◌, ◌≡◌, sym, ◌∙◌, arith}
use xcesp_l2tpv3d.Common.{
  ◌++◌, length, replicate, length-append, length-replicate, append-nil, take_prefix, All-append,
  All-replicate, ◌==◌, if◌then◌else◌,
}
use xcesp_l2tpv3d.Exception.{ok}
use xcesp_l2tpv3d.Struct.{Bytes, IsBytes, be16, pack_u16, unpack_from_u16}
use xcesp_l2tpv3d.Crypto.{Crypto}
use xcesp_l2tpv3d.Hiding.{
  xor_bytes, pad_length, pad_body, generate_keystream, hide_value, unhide_value,
}
use xcesp_l2tpv3d.Hiding.Xor.{xor_bytes_twice, length-xor_bytes}
use xcesp_l2tpv3d.Hiding.Keystream.{IsKeystream, generate_keystream-IsKeystream}

pad_by :
    (k : ℕ) (body : Bytes)
    → (if k == 0 then body else body ++ replicate k 0) ≡ body ++ replicate k 0
pad_by zero body = sym (append-nil body)
pad_by (suc k) body = ground arith

pad_body_lem : (body : Bytes) → pad_body body ≡ body ++ replicate (pad_length (length body)) 0
unfolding pad_body
pad_body_lem body = pad_by (pad_length (length body)) body

pub length-pad_body :
    (body : Bytes) → length (pad_body body) ≡ length body + pad_length (length body)
length-pad_body body = rw (pad_body_lem, length-append, length-replicate)

-- The size of a hidden value of `n` bytes: the next multiple of 16 above `n + 2`.
abbrev pub hidden_size : ℕ → ℕ
hidden_size n = 2 + n + pad_length (2 + n)

abbrev body_of : Bytes → Bytes
body_of plaintext = pad_body (be16 (length plaintext) ++ plaintext)

length-body_of : (plaintext : Bytes) → length (body_of plaintext) ≡ hidden_size (length plaintext)
length-body_of plaintext = omega (arith, length-pad_body (be16 (length plaintext) ++ plaintext))

body_of_split :
    (plaintext : Bytes)
    → body_of plaintext
      ≡ be16 (length plaintext)
        ++ (plaintext ++ replicate (pad_length (suc (suc (length plaintext)))) 0)
body_of_split plaintext = pad_body_lem (be16 (length plaintext) ++ plaintext)

body_of-IsBytes :
    (plaintext : Bytes)
    → IsBytes plaintext
    → length plaintext ≤ 0xFFFF
    → IsBytes (body_of plaintext)
body_of-IsBytes plaintext h n = rw pad_body_lem (
    All-append _ (be16 (length plaintext) ++ plaintext) (replicate _ 0)
      (omega arith, (omega arith, h)) (All-replicate _ _ 0 (omega arith)))

module _ ⦃c : Crypto⦄ where
  unhide_value_of_body :
      (attribute_type : ℕ) (plaintext secret random_vector ciphertext ks rest : Bytes)
      → length plaintext ≤ 0xFFFF
      → 16 ≤ length ciphertext
      → length ciphertext % 16 ≡ 0
      → generate_keystream attribute_type secret random_vector (length ciphertext) ≡ ok ks
      → xor_bytes ciphertext ks ≡ be16 (length plaintext) ++ (plaintext ++ rest)
      → unhide_value attribute_type ciphertext secret random_vector ≡ ok plaintext
  unfolding unhide_value unpack_from_u16
  unhide_value_of_body attribute_type plaintext secret random_vector ciphertext ks rest n lo m e x =
      ground (
        arith,
        x,
        length-append plaintext rest,
        take_prefix plaintext rest (length plaintext / 256 * 256 + length plaintext % 256),
      )

  -- Any plaintext of up to 65535 bytes can be hidden, the wire value has the padded size, and
  -- unhiding it with the same attribute type, secret and random vector gives the plaintext back.
  pub unhide_value-hide_value :
      (attribute_type : ℕ) (plaintext secret random_vector : Bytes)
      → attribute_type ≤ 0xFFFF
      → IsBytes plaintext
      → length plaintext ≤ 0xFFFF
      → (ciphertext : Bytes) × (hide_value attribute_type plaintext secret random_vector
          ≡ ok ciphertext)
        × (length ciphertext ≡ hidden_size (length plaintext))
        × (unhide_value attribute_type ciphertext secret random_vector ≡ ok plaintext)
  unfolding hide_value pack_u16
  unhide_value-hide_value attribute_type plaintext secret random_vector a h n =
      let (ks, e, k) =
        generate_keystream-IsKeystream attribute_type secret random_vector
          (length (body_of plaintext)) a in
      (
        xor_bytes (body_of plaintext) ks,
        ground (arith, e),
        omega (
          arith,
          length-xor_bytes (body_of plaintext) ks,
          k.0,
          length-pad_body (be16 (length plaintext) ++ plaintext),
        ),
        unhide_value_of_body attribute_type plaintext secret random_vector
            (xor_bytes (body_of plaintext) ks) ks _ n
            (omega (arith, length-xor_bytes (body_of plaintext) ks, k.0, length-body_of plaintext))
            (omega (arith, length-xor_bytes (body_of plaintext) ks, k.0, length-body_of plaintext))
            (rw (same_size ks k) e)
            (xor_bytes_twice (body_of plaintext) ks (body_of-IsBytes plaintext h n) k.1
                (omega (arith, k.0))
              ∙ body_of_split plaintext),
      )
    where
      same_size :
          (ks : Bytes)
          → IsKeystream (length (body_of plaintext)) ks
          → length (xor_bytes (body_of plaintext) ks) ≡ length (body_of plaintext)
      same_size ks k = omega (arith, length-xor_bytes (body_of plaintext) ks, k.0)

module _ ⦃c : Crypto⦄ (attribute_type : ℕ) (plaintext secret random_vector ciphertext : Bytes) where
  hide_value_fits :
      hide_value attribute_type plaintext secret random_vector ≡ ok ciphertext
      → length plaintext ≤ 0xFFFF
  unfolding hide_value
  hide_value_fits e = ground arith

  pub unhide_hidden :
      attribute_type ≤ 0xFFFF
      → IsBytes plaintext
      → hide_value attribute_type plaintext secret random_vector ≡ ok ciphertext
      → unhide_value attribute_type ciphertext secret random_vector ≡ ok plaintext
  unhide_hidden a h e = cc (
    e,
    (unhide_value-hide_value attribute_type plaintext secret random_vector a h
        (hide_value_fits e)).1,
    (unhide_value-hide_value attribute_type plaintext secret random_vector a h
        (hide_value_fits e)).3,
  )
