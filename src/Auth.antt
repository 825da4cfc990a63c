-- ===== src/Auth.antt =====
-- xcesp_l2tpv3d/auth.py: digest sizes, the message integrity check and its verification.
use xcesp_l2tpv3d.Common.{ℕ, ◌≡◌, refl, arith, Bool, true, false, ◌&&◌, not}
use xcesp_l2tpv3d.Common.{[], ◌∷◌, length, ◌==◌, if◌then◌else◌}
use xcesp_l2tpv3d.Exception.{
  Result, ok, err, ◌>>=◌, ◌>>◌, raise_if, unknown_digest_hash, empty_secret,
}
use xcesp_l2tpv3d.Struct.{Bytes}
use xcesp_l2tpv3d.Crypto.{Crypto, HashName, md5, sha1}
use xcesp_l2tpv3d.Attribute.Build.{is_empty}

-- `DigestHash` of xcesp_l2tpv3d/avp.py
pub data DigestHash : Type 0 where
  hmac_md5 hmac_sha1 : DigestHash

-- `int(hash_type)`
abbrev pub digest_hash_number : DigestHash → ℕ
digest_hash_number hmac_md5 = 0
digest_hash_number hmac_sha1 = 1

-- `DigestHash(n)` raises a `ValueError` for a number that is no member.
unfoldable pub digest_hash : ℕ → Result DigestHash
digest_hash n =
    if n == 0 then ok hmac_md5 else if n == 1 then ok hmac_sha1 else err unknown_digest_hash

-- `_DIGEST_SIZE` and `_HASHLIB_CTOR`
abbrev pub digest_size_of : DigestHash → ℕ
digest_size_of hmac_md5 = 16
digest_size_of hmac_sha1 = 20

abbrev pub hashlib_ctor : DigestHash → HashName
hashlib_ctor hmac_md5 = md5
hashlib_ctor hmac_sha1 = sha1

unfoldable pub digest_size : ℕ → Result ℕ
digest_size hash_type = do ht ← digest_hash hash_type; ok (digest_size_of ht)

-- `hmac.compare_digest` and `==` on bytes
unfoldable pub eq_bytes : Bytes → Bytes → Bool
eq_bytes [] [] = true
eq_bytes [] (b ∷ bs) = false
eq_bytes (a ∷ as') [] = false
eq_bytes (a ∷ as') (b ∷ bs) = a == b && eq_bytes as' bs

pub eq_bytes-eq : (as' bs : Bytes) → eq_bytes as' bs ≡ true → as' ≡ bs
unfolding eq_bytes
eq_bytes-eq [] [] h = refl
eq_bytes-eq [] (b ∷ bs) h = cc
eq_bytes-eq (a ∷ as') [] h = cc
eq_bytes-eq (a ∷ as') (b ∷ bs) h = ground (arith, eq_bytes-eq as' bs)

pub eq_bytes_refl : (as' : Bytes) → eq_bytes as' as' ≡ true
unfolding eq_bytes
eq_bytes_refl [] = refl
eq_bytes_refl (a ∷ as') = ground (arith, eq_bytes_refl as')

module _ ⦃c : Crypto⦄ where
  unfoldable pub compute_message_digest : ℕ → Bytes → Bytes → Result Bytes
  compute_message_digest hash_type shared_secret message_with_digest_zeroed = do
    ht ← digest_hash hash_type
    raise_if (is_empty shared_secret) empty_secret
    ok (c.hmac (hashlib_ctor ht) shared_secret (0x01 ∷ message_with_digest_zeroed))

  unfoldable pub verify_message_digest : ℕ → Bytes → Bytes → Bytes → Result Bool
  verify_message_digest hash_type shared_secret message_with_digest_zeroed received_digest = do
    expected ← compute_message_digest hash_type shared_secret message_with_digest_zeroed
    if not (length received_digest == length expected)
        then ok false
        else ok (eq_bytes expected received_digest)
