-- ===== src/Config/Unique.antt =====
-- What `name in names` and `sid in sids` of xcesp_l2tpv3d/config.py mean where they are false.
use xcesp_l2tpv3d.Common.{ℕ, ◌≡◌, ◌≢◌, false, List, [], ◌∷◌, All, arith}
use xcesp_l2tpv3d.Struct.{Bytes}
use xcesp_l2tpv3d.Auth.{eq_bytes_refl}
use xcesp_l2tpv3d.Config.Tunnel.{has_name, has_sid}

-- The value is none of those that are there.
abbrev pub IsNew : {A : Type 0} → A → List A → Type 0
IsNew a seen = All (λ b. b ≢ a) seen

pub has_name-IsNew :
    (name : Bytes) (names : List Bytes) → has_name name names ≡ false → IsNew name names
unfolding has_name
has_name-IsNew name [] h = tt
has_name-IsNew name (n ∷ names) h = (
  (λ same. ground (arith, h, same, eq_bytes_refl name)),
  has_name-IsNew name names (ground (arith, h)),
)

pub has_sid-IsNew : (sid : ℕ) (sids : List ℕ) → has_sid sid sids ≡ false → IsNew sid sids
unfolding has_sid
has_sid-IsNew sid [] h = tt
has_sid-IsNew sid (n ∷ sids) h =
    ((λ same. ground (arith, h, same)), has_sid-IsNew sid sids (ground (arith, h)))
