-- ===== src/Hiding/Xor.antt =====
-- `xor_bytes` with the same key twice gives the text back.
use xcesp_l2tpv3d.Common.{ℕ, ◌+◌, ◌*◌, ◌/◌, ◌%◌, ◌≤◌, ◌<◌, ◌≡◌, refl, arith, bit_xor, true, min}
use xcesp_l2tpv3d.Common.{[], ◌∷◌, length, ltb, ltb→lt, ◌==◌, ==_iff}
use xcesp_l2tpv3d.Common.Table.{holds_below, holds_below_entry}
use xcesp_l2tpv3d.Struct.{IsByte, Bytes, IsBytes}
use xcesp_l2tpv3d.Hiding.{xor_bytes}

-- A pair of bytes is one number below 65536.
xor_twice_table :
    holds_below 65536 (λ t. bit_xor (bit_xor (t / 256) (t % 256)) (t % 256) == (t / 256)) ≡ true
unfolding holds_below
xor_twice_table = refl

xor_byte_table : holds_below 65536 (λ t. ltb (bit_xor (t / 256) (t % 256)) 256) ≡ true
unfolding holds_below
xor_byte_table = refl

pair_high : (a b : ℕ) → b < 256 → (a * 256 + b) / 256 ≡ a
pair_high a b h = omega arith

pair_low : (a b : ℕ) → b < 256 → (a * 256 + b) % 256 ≡ b
pair_low a b h = omega arith

pub xor_twice : (a b : ℕ) → IsByte a → IsByte b → bit_xor (bit_xor a b) b ≡ a
xor_twice a b ha hb =
    rw (pair_high a b hb, pair_low a b hb) at
      ((==_iff _ _).0 (holds_below_entry 65536 (a * 256 + b) _ (omega arith) xor_twice_table))

pub xor-IsByte : (a b : ℕ) → IsByte a → IsByte b → IsByte (bit_xor a b)
xor-IsByte a b ha hb = ltb→lt _ _ (
    rw (pair_high a b hb, pair_low a b hb) at
      (holds_below_entry 65536 (a * 256 + b) _ (omega arith) xor_byte_table))

pub xor_bytes_twice :
    (xs ks : Bytes)
    → IsBytes xs
    → IsBytes ks
    → length xs ≤ length ks
    → xor_bytes (xor_bytes xs ks) ks ≡ xs
unfolding xor_bytes
xor_bytes_twice [] ks hx hk h = refl
xor_bytes_twice (x ∷ xs) [] hx hk h = absurd (omega arith)
xor_bytes_twice (x ∷ xs) (k ∷ ks) hx hk h =
    cc (xor_twice x k hx.0 hk.0, xor_bytes_twice xs ks hx.1 hk.1 (omega arith))

pub length-xor_bytes : (xs ks : Bytes) → length (xor_bytes xs ks) ≡ min (length xs) (length ks)
unfolding xor_bytes
length-xor_bytes [] ks = omega arith
length-xor_bytes (x ∷ xs) [] = omega arith
length-xor_bytes (x ∷ xs) (k ∷ ks) = omega (arith, length-xor_bytes xs ks)

pub xor_bytes-IsBytes : (xs ks : Bytes) → IsBytes xs → IsBytes ks → IsBytes (xor_bytes xs ks)
unfolding xor_bytes
xor_bytes-IsBytes [] ks hx hk = tt
xor_bytes-IsBytes (x ∷ xs) [] hx hk = tt
xor_bytes-IsBytes (x ∷ xs) (k ∷ ks) hx hk =
    (xor-IsByte x k hx.0 hk.0, xor_bytes-IsBytes xs ks hx.1 hk.1)
