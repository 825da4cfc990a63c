-- ===== src/Crypto.antt =====
-- `hashlib` and `hmac` of the standard library, as an interface: the digests are functions of their
-- input, and all that is relied on is the documented digest size and that a digest is made of bytes.
use xcesp_l2tpv3d.Common.{ℕ, ◌≡◌, length}
use xcesp_l2tpv3d.Struct.{Bytes, IsBytes}

pub data HashName : Type 0 where
  md5 sha1 : HashName

-- `hashlib.md5().digest_size` and `hashlib.sha1().digest_size`
abbrev pub hash_size : HashName → ℕ
hash_size md5 = 16
hash_size sha1 = 20

pub record Crypto : Type 0 where
  pub digest : HashName → Bytes → Bytes
  pub hmac : HashName → Bytes → Bytes → Bytes
  pub length-digest : (h : HashName) (input : Bytes) → length (digest h input) ≡ hash_size h
  pub digest-IsBytes : (h : HashName) (input : Bytes) → IsBytes (digest h input)
  pub length-hmac : (h : HashName) (key input : Bytes) → length (hmac h key input) ≡ hash_size h
  pub hmac-IsBytes : (h : HashName) (key input : Bytes) → IsBytes (hmac h key input)
