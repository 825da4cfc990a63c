-- ===== src/Avp/Header.antt =====
-- The bit masks and shifts of the AVP header as arithmetic, each from a table of its values.
use xcesp_l2tpv3d.Common.{
  ℕ, ◌+◌, ◌*◌, ◌/◌, ◌%◌, ◌^◌, ◌≤◌, ◌<◌, ◌≡◌, refl, arith, bit_and, bit_or, Bool, true, false, not,
  ◌==◌,
}
use xcesp_l2tpv3d.Common.Table.{holds_below, equal_below}
use xcesp_l2tpv3d.Struct.{IsByte}
use xcesp_l2tpv3d.Avp.{bit, flags_byte, length_byte}

pub mandatory_mask : (b : ℕ) → IsByte b → bit_and b 0x80 ≡ b / 128 * 128
unfolding holds_below
mandatory_mask = equal_below 256 _ _ refl

pub hidden_mask : (b : ℕ) → IsByte b → bit_and b 0x40 ≡ b / 64 % 2 * 64
unfolding holds_below
hidden_mask = equal_below 256 _ _ refl

pub reserved_mask : (b : ℕ) → IsByte b → bit_and (b / 2 ^ 2) 0x0F ≡ b / 4 % 16
unfolding holds_below
reserved_mask = equal_below 256 _ _ refl

pub low_two_bits : (b : ℕ) → IsByte b → bit_and b 0x03 ≡ b % 4
unfolding holds_below
low_two_bits = equal_below 256 _ _ refl

join_table : (t : ℕ) → t < 1024 → bit_or (t / 256 * 2 ^ 8) (t % 256) ≡ t
unfolding holds_below
join_table = equal_below 1024 _ (λ t. t) refl

pub length_join : (hi lo : ℕ) → hi < 4 → IsByte lo → bit_or (hi * 2 ^ 8) lo ≡ hi * 256 + lo
length_join hi lo h l = rw (high, low) at (join_table (hi * 256 + lo) (omega arith))
  where
    high : (hi * 256 + lo) / 256 ≡ hi
    high = omega arith

    low : (hi * 256 + lo) % 256 ≡ lo
    low = omega arith

-- The value of the flags byte.
abbrev pub flags_value : Bool → Bool → ℕ → ℕ
flags_value mandatory hidden total = bit mandatory * 128 + bit hidden * 64 + total / 256

flags_table :
    (m h : Bool) (t : ℕ)
    → t < 4
    → bit_or (bit_or (bit m * 2 ^ 7) (bit h * 2 ^ 6)) (bit_and t 0x03)
      ≡ bit m * 128 + bit h * 64 + t
unfolding holds_below
flags_table true true = equal_below 4 _ _ refl
flags_table true false = equal_below 4 _ _ refl
flags_table false true = equal_below 4 _ _ refl
flags_table false false = equal_below 4 _ _ refl

pub flags_byte_lem :
    (m h : Bool) (total : ℕ) → total ≤ 1023 → flags_byte m h total ≡ flags_value m h total
flags_byte_lem m h total le = flags_table m h (total / 256) (omega arith)

pub length_byte_lem : (total : ℕ) → total ≤ 1023 → length_byte total ≡ total % 256
unfolding holds_below
length_byte_lem total le =
    equal_below 1024 (λ t. bit_and t 0xFF) (λ t. t % 256) refl total (omega arith)

-- What the decoder reads from a flags byte that the encoder wrote.
module _ (m h : Bool) (total : ℕ) (le : total ≤ 1023) where
  pub flags_value-IsByte : IsByte (flags_value m h total)
  flags_value-IsByte = ground arith

  pub mandatory_read : not (bit_and (flags_value m h total) 0x80 == 0) ≡ m
  mandatory_read = ground (arith, mandatory_mask (flags_value m h total))

  pub hidden_read : not (bit_and (flags_value m h total) 0x40 == 0) ≡ h
  hidden_read = ground (arith, hidden_mask (flags_value m h total))

  pub reserved_read : bit_and (flags_value m h total / 2 ^ 2) 0x0F ≡ 0
  reserved_read = ground (arith, reserved_mask (flags_value m h total))

  pub length_read : bit_or (bit_and (flags_value m h total) 0x03 * 2 ^ 8) (total % 256) ≡ total
  length_read = ground (
    arith,
    low_two_bits (flags_value m h total),
    length_join (bit_and (flags_value m h total) 0x03) (total % 256),
  )
