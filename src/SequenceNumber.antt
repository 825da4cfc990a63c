-- ===== src/SequenceNumber.antt =====
-- The 16-bit sequence numbers of xcesp_l2tpv3d/messages.py: `seq_delta` and `seq_advance`.
use xcesp_l2tpv3d.Common.{ℕ, ◌+◌, ◌-◌, ◌*◌, ◌/◌, ◌%◌, ◌^◌, ◌<◌, ◌≡◌, refl, arith, bit_and}
use xcesp_l2tpv3d.Common.{◌==◌, if◌then◌else◌, ltb}
use xcesp_l2tpv3d.Common.Table.{holds_below, equal_below}
use xcesp_l2tpv3d.Common.Int.{ℤ, pos, negsuc, sub_ℕ}

-- `x & 0xFFFF` of a number and of a difference, which may be negative.
abbrev pub low16 : ℕ → ℕ
low16 x = x % 2 ^ 16

abbrev pub low16_sub : ℕ → ℕ → ℕ
low16_sub a b = (a + 2 ^ 16 * (b / 2 ^ 16 + 1) - b) % 2 ^ 16

-- `seq_delta`: the signed distance from `b` to `a`.
unfoldable pub seq_delta : ℕ → ℕ → ℤ
seq_delta a b =
    let diff = low16_sub a b in if bit_and diff 0x8000 == 0 then pos diff else sub_ℕ diff 0x10000

-- `seq_advance`
unfoldable pub seq_advance : ℕ → ℕ → ℕ
seq_advance seq by = low16 (seq + by)

sign_bit : (d : ℕ) → d < 65536 → bit_and d 0x8000 ≡ d / 32768 * 32768
unfolding holds_below
sign_bit = equal_below 65536 _ _ refl

-- The delta by cases on the distance modulo 65536.
delta_cases :
    (a b : ℕ)
    → seq_delta a b
      ≡ (if ltb (low16_sub a b) 32768 then pos (low16_sub a b) else negsuc (65535 - low16_sub a b))
unfolding seq_delta
delta_cases a b = ground (arith, sign_bit (low16_sub a b))

-- What `seq_delta` says of two sequence numbers, by its sign.
abbrev pub Meets : ℕ → ℕ → ℤ → Type 0
Meets a b (pos k) = (k < 2 ^ 15) × (seq_advance b k ≡ a)
Meets a b (negsuc k) = (k < 2 ^ 15) × (seq_advance a (k + 1) ≡ b)

-- The distance between two 16-bit numbers lies in [-32768, 32767], and advancing the lower of
-- them by it, with the wrap at 65536, gives the other.
pub seq_delta-Meets : (a b : ℕ) → a < 2 ^ 16 → b < 2 ^ 16 → Meets a b (seq_delta a b)
unfolding seq_advance
seq_delta-Meets a b ha hb = ground (arith, delta_cases a b)

-- A number advanced by less than 32768 is ahead by just that much, whatever wraps.
pub seq_delta-seq_advance : (b k : ℕ) → k < 2 ^ 15 → seq_delta (seq_advance b k) b ≡ pos k
unfolding seq_advance
seq_delta-seq_advance b k h = ground (arith, delta_cases ((b + k) % 65536) b)
