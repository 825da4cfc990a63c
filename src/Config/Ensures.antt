-- ===== src/Config/Ensures.antt =====
-- What the checks of xcesp_l2tpv3d/config.py let through.
use xcesp_l2tpv3d.Common.{
  ℕ, ◌*◌, ◌≤◌, ◌≡◌, refl, Bool, true, false, Option, none, some, List, [], ◌∷◌, length, arith, ◌⊎◌,
}
use mathlib.Core.Path.{subst}
use xcesp_l2tpv3d.Common.Int.{ℤ, pos, negsuc}
use xcesp_l2tpv3d.Struct.{Bytes}
use xcesp_l2tpv3d.Config.Value.{
  Value, Float, finite, nan, infinite, string, integer, float, boolean, moment, array, table,
}
use xcesp_l2tpv3d.Config.Convert.{
  decimal, at_most_255, octet, split_dots, joined, ipv4_address, from_hex,
}
use xcesp_l2tpv3d.Config.Check.{
  Fault, Checked, failed, passed, ◌>>=◌, fail_if, within, within_seconds,
}
use xcesp_l2tpv3d.Config.Session.{parse_cookie, cookie_of, parse_router_id, address_of}
use xcesp_l2tpv3d.Config.Tunnel.{parse_password, within_optional}

-- The value has the property, if there is one.
abbrev pub Ensures {ℓ κ} : {A : Type ℓ} → (A → Type κ) → Checked A → Type κ
Ensures P (passed a) = P a
Ensures P (failed e) = Unit

-- A step of a chain, where something is known of its value, and where nothing is.
module _ {ℓ κ ν μ} {A : Type ℓ} {B : Type κ} (Q : A → Type ν) (P : B → Type μ) where
  pub Ensures-bind :
      (m : Checked A) (k : A → Checked B)
      → Ensures Q m
      → ((a : A) → Q a → Ensures P (k a))
      → Ensures P (m >>= k)
  Ensures-bind (passed a) k h hk = hk a h
  Ensures-bind (failed e) k h hk = tt

module _ {ℓ κ μ} {A : Type ℓ} {B : Type κ} (P : B → Type μ) where
  pub Ensures-any :
      (m : Checked A) (k : A → Checked B) → ((a : A) → Ensures P (k a)) → Ensures P (m >>= k)
  Ensures-any (passed a) k hk = hk a
  Ensures-any (failed e) k hk = tt

pub Ensures-all {ℓ κ} :
    {A : Type ℓ} (P : A → Type κ) (m : Checked A) → ((a : A) → P a) → Ensures P m
Ensures-all P (passed a) h = h a
Ensures-all P (failed e) h = tt

-- What is ensured of the value that there is.
pub of_passed {ℓ κ} :
    {A : Type ℓ} (P : A → Type κ) (m : Checked A) {a : A} → Ensures P m → m ≡ passed a → P a
of_passed P m h e = subst (λ x. Ensures P x) e h

pub Ensures-fail_if : (b : Bool) (fault : Fault) → Ensures (λ u. b ≡ false) (fail_if b fault)
Ensures-fail_if true fault = tt
Ensures-fail_if false fault = refl

pub Ensures-within :
    (low high : ℕ) (fault : Fault) (z : ℤ)
    → Ensures (λ n. (low ≤ n) × (n ≤ high)) (within low high fault z)
unfolding within
Ensures-within low high fault (pos n) = ground arith
Ensures-within low high fault (negsuc n) = tt

pub Ensures-within_seconds :
    (low high : ℕ) (fault : Fault) (x : Float)
    → Ensures (λ n. (1000 * low ≤ n) × (n ≤ 1000 * high)) (within_seconds low high fault x)
unfolding within_seconds
Ensures-within_seconds low high fault (finite ms) =
    Ensures-within (1000 * low) (1000 * high) fault ms
Ensures-within_seconds low high fault nan = tt
Ensures-within_seconds low high fault infinite = tt

-- The same of a number that was converted, and of a time.
pub Ensures-range :
    (low high : ℕ) (fault : Fault) (m : Checked ℤ)
    → Ensures (λ z. Ensures (λ n. (low ≤ n) × (n ≤ high)) (within low high fault z)) m
Ensures-range low high fault m =
    Ensures-all (λ z. Ensures (λ n. (low ≤ n) × (n ≤ high)) (within low high fault z)) m
      (Ensures-within low high fault)

pub Ensures-seconds :
    (low high : ℕ) (fault : Fault) (m : Checked Float)
    → Ensures
        (λ x. Ensures (λ n. (1000 * low ≤ n) × (n ≤ 1000 * high)) (within_seconds low high fault x))
        m
Ensures-seconds low high fault m =
    Ensures-all
      (λ x. Ensures (λ n. (1000 * low ≤ n) × (n ≤ 1000 * high)) (within_seconds low high fault x)) m
      (Ensures-within_seconds low high fault)

-- A number of at most 16 bits, if there is one.
abbrev pub AtMost : ℕ → Option ℕ → Type 0
AtMost high none = Unit
AtMost high (some n) = n ≤ high

pub Ensures-within_optional :
    (high : ℕ) (fault : Fault) (o : Option ℤ)
    → Ensures (λ n. AtMost high n) (within_optional 0 high fault o)
Ensures-within_optional high fault none = tt
Ensures-within_optional high fault (some z) =
    optional (within 0 high fault z) (Ensures-within 0 high fault z)
  where
    optional :
        (r : Checked ℕ)
        → Ensures (λ n. (0 ≤ n) × (n ≤ high)) r
        → Ensures (λ n. AtMost high n) (r >>= λ m. passed (some m))
    optional (passed n) h = h.1
    optional (failed e) h = tt

-- A cookie of 0, 4 or 8 bytes, if there is one.
abbrev pub HasCookieLength : Option Bytes → Type 0
HasCookieLength none = Unit
HasCookieLength (some b) = (length b ≡ 0) ⊎ ((length b ≡ 4) ⊎ (length b ≡ 8))

cookie_of-HasCookieLength : (o : Option Bytes) → Ensures HasCookieLength (cookie_of o)
cookie_of-HasCookieLength none = tt
cookie_of-HasCookieLength (some b) = ground arith

pub parse_cookie-HasCookieLength : (o : Option Value) → Ensures HasCookieLength (parse_cookie o)
unfolding parse_cookie
parse_cookie-HasCookieLength none = tt
parse_cookie-HasCookieLength (some (string raw)) = cookie_of-HasCookieLength (from_hex raw)
parse_cookie-HasCookieLength (some (integer n)) = tt
parse_cookie-HasCookieLength (some (float x)) = tt
parse_cookie-HasCookieLength (some (boolean b)) = tt
parse_cookie-HasCookieLength (some (moment s)) = tt
parse_cookie-HasCookieLength (some (array vs)) = tt
parse_cookie-HasCookieLength (some (table t)) = tt

-- A password that is not empty, if there is one.
abbrev pub IsFilled : Option Bytes → Type 0
IsFilled none = Unit
IsFilled (some b) = 1 ≤ length b

pub parse_password-IsFilled : (o : Option Value) → Ensures IsFilled (parse_password o)
unfolding parse_password
parse_password-IsFilled none = tt
parse_password-IsFilled (some (string [])) = tt
parse_password-IsFilled (some (string (b ∷ s))) = omega arith
parse_password-IsFilled (some (integer n)) = tt
parse_password-IsFilled (some (float x)) = tt
parse_password-IsFilled (some (boolean b)) = tt
parse_password-IsFilled (some (moment s)) = tt
parse_password-IsFilled (some (array vs)) = tt
parse_password-IsFilled (some (table t)) = tt

-- The value of an octet is a byte.
at_most_255-AtMost : (o : Option ℕ) → AtMost 255 (at_most_255 o)
at_most_255-AtMost none = tt
at_most_255-AtMost (some n) = ground arith

octet-AtMost : (s : Bytes) → AtMost 255 (octet s)
unfolding octet
octet-AtMost [] = tt
octet-AtMost (a ∷ []) = at_most_255-AtMost (decimal 0 (a ∷ []))
octet-AtMost (a ∷ b ∷ []) = ground (arith, at_most_255-AtMost (decimal 0 (a ∷ b ∷ [])))
octet-AtMost (a ∷ b ∷ c ∷ []) = ground (arith, at_most_255-AtMost (decimal 0 (a ∷ b ∷ c ∷ [])))
octet-AtMost (a ∷ b ∷ c ∷ d ∷ s) = tt

joined-AtMost :
    (a b c d : Option ℕ)
    → AtMost 255 a
    → AtMost 255 b
    → AtMost 255 c
    → AtMost 255 d
    → AtMost 0xFFFF_FFFF (joined a b c d)
joined-AtMost (some a) (some b) (some c) (some d) ha hb hc hd = omega arith
joined-AtMost none b c d ha hb hc hd = tt
joined-AtMost (some a) none c d ha hb hc hd = tt
joined-AtMost (some a) (some b) none d ha hb hc hd = tt
joined-AtMost (some a) (some b) (some c) none ha hb hc hd = tt

-- The four parts, if there are four.
abbrev number_of : List Bytes → Option ℕ
number_of (a ∷ b ∷ c ∷ d ∷ []) = joined (octet a) (octet b) (octet c) (octet d)
number_of _ = none

number_of-AtMost : (parts : List Bytes) → AtMost 0xFFFF_FFFF (number_of parts)
number_of-AtMost (a ∷ b ∷ c ∷ d ∷ []) =
    joined-AtMost (octet a) (octet b) (octet c) (octet d) (octet-AtMost a) (octet-AtMost b)
      (octet-AtMost c) (octet-AtMost d)
number_of-AtMost [] = tt
number_of-AtMost (a ∷ []) = tt
number_of-AtMost (a ∷ b ∷ []) = tt
number_of-AtMost (a ∷ b ∷ c ∷ []) = tt
number_of-AtMost (a ∷ b ∷ c ∷ d ∷ e ∷ parts) = tt

ipv4_address-AtMost : (s : Bytes) → AtMost 0xFFFF_FFFF (ipv4_address s)
unfolding ipv4_address
ipv4_address-AtMost s = number_of-AtMost (split_dots s)

address_of-AtMost :
    (o : Option ℕ) → AtMost 0xFFFF_FFFF o → Ensures (λ n. n ≤ 0xFFFF_FFFF) (address_of o)
address_of-AtMost none h = tt
address_of-AtMost (some n) h = h

pub parse_router_id-AtMost : (v : Value) → Ensures (λ n. n ≤ 0xFFFF_FFFF) (parse_router_id v)
unfolding parse_router_id within
parse_router_id-AtMost (integer (pos n)) = ground arith
parse_router_id-AtMost (integer (negsuc n)) = tt
parse_router_id-AtMost (boolean true) = omega arith
parse_router_id-AtMost (boolean false) = omega arith
parse_router_id-AtMost (string raw) = address_of-AtMost (ipv4_address raw) (ipv4_address-AtMost raw)
parse_router_id-AtMost (float x) = tt
parse_router_id-AtMost (moment s) = tt
parse_router_id-AtMost (array vs) = tt
parse_router_id-AtMost (table t) = tt
