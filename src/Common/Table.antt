-- ===== src/Common/Table.antt =====
-- Facts about a small range, checked value by value.
use Prim.Native.Nat.{ℕ, zero, suc, ◌<◌}
use mathlib.Core.Path.{◌≡◌}
use mathlib.Core.Bool.{Bool, true, ◌&&◌}
use native.Mathlib.Omega.{arith}
use xcesp_l2tpv3d.Common.Tests.{◌==◌, ==_iff}

-- The test holds of `bound - 1`, and so on down to 0.
unfoldable pub holds_below : ℕ → (ℕ → Bool) → Bool
holds_below zero test = true
holds_below (suc bound) test = test bound && holds_below bound test

pub holds_below_entry :
    (bound i : ℕ) (test : ℕ → Bool) → i < bound → holds_below bound test ≡ true → test i ≡ true
unfolding holds_below
holds_below_entry zero i test below table = absurd (omega arith)
holds_below_entry (suc bound) i test below table = ground (arith, holds_below_entry bound i test)

-- Two functions that a table shows equal below `bound`.
pub equal_below :
    (bound : ℕ) (f g : ℕ → ℕ)
    → holds_below bound (λ i. f i == g i) ≡ true
    → (i : ℕ) → i < bound
    → f i ≡ g i
equal_below bound f g table i below =
    (==_iff (f i) (g i)).0 (holds_below_entry bound i _ below table)
