-- ===== src/Hiding.antt =====
-- The hidden-AVP path of xcesp_l2tpv3d/avp.py: `_hide_value`, `_unhide_value` and the MD5 keystream.
pub mod Xor
pub mod Keystream
pub mod RoundTrip
pub mod Errors
use xcesp_l2tpv3d.Common.{ℕ, zero, suc, ◌+◌, ◌-◌, ◌%◌, bit_xor, Bool, true, false, not, ◌||◌}
use xcesp_l2tpv3d.Common.{List, [], ◌∷◌, ◌++◌, length, take, drop, replicate}
use xcesp_l2tpv3d.Common.{ltb, leb, ◌==◌, if◌then◌else◌}
use xcesp_l2tpv3d.Exception.{
  Result, ok, err, ◌>>=◌, ◌>>◌, raise_if, hidden_value_too_long, ciphertext_length, original_length,
  out_of_fuel,
}
use xcesp_l2tpv3d.Struct.{Bytes, pack_u16, unpack_from_u16}
use xcesp_l2tpv3d.Crypto.{Crypto, md5}

-- `_MD5_BLOCK`
abbrev pub md5_block : ℕ
md5_block = 16

-- `bytes(a ^ b for a, b in zip(xs, ys))`
unfoldable pub xor_bytes : Bytes → Bytes → Bytes
xor_bytes [] ys = []
xor_bytes (x ∷ xs) [] = []
xor_bytes (x ∷ xs) (y ∷ ys) = bit_xor x y ∷ xor_bytes xs ys

-- `(-n) % 16`
abbrev pub pad_length : ℕ → ℕ
pad_length n = (md5_block - n % md5_block) % md5_block

-- `pad = (-len(body)) % _MD5_BLOCK; if pad: body += b"\x00" * pad`
unfoldable pub pad_body : Bytes → Bytes
pad_body body =
    let pad = pad_length (length body) in if pad == 0 then body else body ++ replicate pad 0

module _ ⦃c : Crypto⦄ where
  -- The `while` loop of `_generate_keystream`. Each round adds one block of 16 bytes.
  unfoldable pub keystream_loop : ℕ → Bytes → ℕ → Bytes → Bytes → Result Bytes
  keystream_loop zero secret wanted ks prev =
      if ltb (length ks) wanted then err out_of_fuel else ok (take wanted ks)
  keystream_loop (suc fuel) secret wanted ks prev =
      let block = c.digest md5 (secret ++ prev) in
      let more = keystream_loop fuel secret wanted (ks ++ block) block in
      if ltb (length ks) wanted then more else ok (take wanted ks)

  unfoldable pub generate_keystream : ℕ → Bytes → Bytes → ℕ → Result Bytes
  generate_keystream attribute_type secret random_vector wanted = if wanted == 0 then ok [] else do
    attr_bytes ← pack_u16 attribute_type
    let first = c.digest md5 ((attr_bytes ++ secret) ++ random_vector)
    keystream_loop wanted secret wanted first first

  unfoldable pub hide_value : ℕ → Bytes → Bytes → Bytes → Result Bytes
  hide_value attribute_type plaintext secret random_vector = do
    let original_len = length plaintext
    raise_if (ltb 0xFFFF original_len) hidden_value_too_long
    prefix ← pack_u16 original_len
    let body = pad_body (prefix ++ plaintext)
    keystream ← generate_keystream attribute_type secret random_vector (length body)
    ok (xor_bytes body keystream)

  unfoldable pub unhide_value : ℕ → Bytes → Bytes → Bytes → Result Bytes
  unhide_value attribute_type ciphertext secret random_vector = do
    let n = length ciphertext
    raise_if (ltb n md5_block || not (n % md5_block == 0)) ciphertext_length
    keystream ← generate_keystream attribute_type secret random_vector n
    let body = xor_bytes ciphertext keystream
    original_len ← unpack_from_u16 body
    raise_if (ltb (length body) (2 + original_len)) original_length
    ok (take original_len (drop 2 body))
