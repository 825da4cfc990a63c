-- ===== src/Struct.antt =====
-- Python's `struct.pack` and `struct.unpack_from` for the big-endian formats that the package
-- uses. Bytes are numbers below 256.
use xcesp_l2tpv3d.Common.{ℕ, ◌+◌, ◌*◌, ◌/◌, ◌%◌, ◌^◌, ◌<◌, ◌≡◌, arith}
use xcesp_l2tpv3d.Common.{List, [], ◌∷◌, ◌++◌, All, ltb, if◌then◌else◌}
use xcesp_l2tpv3d.Exception.{Result, ok, err, struct_error, ◌>>=◌}

abbrev pub IsByte : ℕ → Type 0
IsByte b = b < 256

abbrev pub Bytes : Type 0
Bytes = List ℕ

abbrev pub IsBytes : Bytes → Type 0
IsBytes bs = All IsByte bs

-- The bytes of a number that fits.
abbrev pub be16 : ℕ → Bytes
be16 v = v / 256 ∷ v % 256 ∷ []

abbrev pub be32 : ℕ → Bytes
be32 v = v / 2 ^ 24 ∷ v / 2 ^ 16 % 256 ∷ v / 2 ^ 8 % 256 ∷ v % 256 ∷ []

abbrev pub be64 : ℕ → Bytes
be64 v = be32 (v / 2 ^ 32) ++ be32 (v % 2 ^ 32)

abbrev pub of_be16 : ℕ → ℕ → ℕ
of_be16 a b = a * 256 + b

abbrev pub of_be32 : ℕ → ℕ → ℕ → ℕ → ℕ
of_be32 a b c d = a * 2 ^ 24 + b * 2 ^ 16 + c * 2 ^ 8 + d

-- `struct.pack("!B", v)`, `("!H", v)`, `("!I", v)`, `("!Q", v)`
unfoldable pub pack_u8 : ℕ → Result Bytes
pack_u8 v = if ltb 0xFF v then err struct_error else ok (v ∷ [])

unfoldable pub pack_u16 : ℕ → Result Bytes
pack_u16 v = if ltb 0xFFFF v then err struct_error else ok (be16 v)

unfoldable pub pack_u32 : ℕ → Result Bytes
pack_u32 v = if ltb 0xFFFF_FFFF v then err struct_error else ok (be32 v)

unfoldable pub pack_u64 : ℕ → Result Bytes
pack_u64 v = if ltb 0xFFFF_FFFF_FFFF_FFFF v then err struct_error else ok (be64 v)

-- `struct.unpack_from("!H", buf, 0)` reads a prefix; `struct.unpack("!H", buf)` wants two bytes.
unfoldable pub unpack_from_u16 : Bytes → Result ℕ
unpack_from_u16 (a ∷ b ∷ rest) = ok (of_be16 a b)
unpack_from_u16 _ = err struct_error

unfoldable pub unpack_u16 : Bytes → Result ℕ
unpack_u16 (a ∷ b ∷ []) = ok (of_be16 a b)
unpack_u16 _ = err struct_error

unfoldable pub unpack_u32 : Bytes → Result ℕ
unpack_u32 (a ∷ b ∷ c ∷ d ∷ []) = ok (of_be32 a b c d)
unpack_u32 _ = err struct_error

unfoldable pub unpack_u64 : Bytes → Result ℕ
unpack_u64 (a ∷ b ∷ c ∷ d ∷ e ∷ f ∷ g ∷ h ∷ []) = ok (of_be32 a b c d * 2 ^ 32 + of_be32 e f g h)
unpack_u64 _ = err struct_error

-- The format "!BBHH" of an AVP header, and "!BBHIHH" of a control-message header.
unfoldable pub pack_bbhh : ℕ → ℕ → ℕ → ℕ → Result Bytes
unfolding pack_u8 pack_u16
pack_bbhh a b c d = do
  w ← pack_u8 a
  x ← pack_u8 b
  y ← pack_u16 c
  z ← pack_u16 d
  ok (w ++ (x ++ (y ++ z)))

unfoldable pub unpack_from_bbhh : Bytes → Result (ℕ × ℕ × ℕ × ℕ)
unpack_from_bbhh (a ∷ b ∷ c ∷ d ∷ e ∷ f ∷ rest) = ok (a, b, of_be16 c d, of_be16 e f)
unpack_from_bbhh _ = err struct_error

unfoldable pub pack_bbhihh : ℕ → ℕ → ℕ → ℕ → ℕ → ℕ → Result Bytes
unfolding pack_u8 pack_u16 pack_u32
pack_bbhihh a b c d e f = do
  u ← pack_u8 a
  v ← pack_u8 b
  w ← pack_u16 c
  x ← pack_u32 d
  y ← pack_u16 e
  z ← pack_u16 f
  ok (u ++ (v ++ (w ++ (x ++ (y ++ z)))))

unfoldable pub unpack_from_bbhihh : Bytes → Result (ℕ × ℕ × ℕ × ℕ × ℕ × ℕ)
unpack_from_bbhihh (a ∷ b ∷ c ∷ d ∷ e ∷ f ∷ g ∷ h ∷ i ∷ j ∷ k ∷ l ∷ rest) =
    ok (a, b, of_be16 c d, of_be32 e f g h, of_be16 i j, of_be16 k l)
unpack_from_bbhihh _ = err struct_error

pub unpack_u16-be16 : (v : ℕ) → unpack_u16 (be16 v) ≡ ok v
unfolding unpack_u16
unpack_u16-be16 v = ground arith

pub unpack_u32-be32 : (v : ℕ) → unpack_u32 (be32 v) ≡ ok v
unfolding unpack_u32
unpack_u32-be32 v = ground arith

pub unpack_u64-be64 : (v : ℕ) → v < 2 ^ 64 → unpack_u64 (be64 v) ≡ ok v
unfolding unpack_u64
unpack_u64-be64 v h = ground arith
