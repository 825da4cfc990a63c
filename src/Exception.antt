-- ===== src/Exception.antt =====
-- The exceptions that the package raises, and functions that may raise.
use xcesp_l2tpv3d.Common.{Bool, true, false, ◌≡◌, refl, ◌⊎◌, inl, inr}

-- One constructor for each `raise` statement of avp.py, messages.py and auth.py, named for its
-- message; `struct_error` is raised by `struct.pack` and `struct.unpack`. `out_of_fuel` is no
-- Python exception: it marks a loop that was cut off.
pub data Error : Type 0 where
  vendor_id_range attribute_type_range hidden_needs_secret avp_too_long : Error
  header_too_short reserved_bits length_below_header length_past_buffer : Error
  hidden_not_supplied hidden_value_too_long ciphertext_length original_length : Error
  ccid_range ns_range nr_range message_too_long message_header_too_short : Error
  t_bit_clear l_bit_clear s_bit_clear reserved_flag reserved_nibble : Error
  unsupported_version length_mismatch : Error
  router_id_range assigned_ccid_range error_message_alone random_vector_short : Error
  empty_capabilities odd_capabilities u32_range u64_range cookie_length : Error
  window_range firmware_range empty_nonce byte_range : Error
  wrong_attribute exact_length min_length : Error
  unknown_digest_hash empty_secret : Error
  missing_digest digest_too_short hash_type_mismatch digest_size_mismatch : Error
  verification_failed : Error
  missing_local_session_id missing_result_code missing_router_id missing_assigned_ccid : Error
  missing_host_name missing_capabilities empty_avps : Error
  struct_error : Error
  out_of_fuel : Error

-- `except ValueError` catches every error but `struct.error`.
abbrev pub is_value_error : Error → Bool
is_value_error struct_error = false
is_value_error out_of_fuel = false
is_value_error _ = true

pub data Result {ℓ} (V : Type ℓ) : Type ℓ where
  err : Error → Result V
  ok : V → Result V

module _ {ℓ κ} {V : Type ℓ} {W : Type κ} where
  infixl 5 ◌>>=◌
  abbrev pub ◌>>=◌ : Result V → (V → Result W) → Result W
  err raised >>= next = err raised
  ok value >>= next = next value

infixl 5 ◌>>◌
abbrev pub ◌>>◌ {κ} : {W : Type κ} → Result (Unit {0}) → Result W → Result W
first >> rest = first >>= λ done. rest

-- `if test: raise e`
abbrev pub raise_if : Bool → Error → Result (Unit {0})
raise_if true e = err e
raise_if false e = ok tt

-- A chain that returns has a first part that returned.
module _ {ℓ κ} {V : Type ℓ} {W : Type κ} where
  pub >>=-eq-ok :
      (first : Result V) (next : V → Result W) {end : W}
      → (first >>= next) ≡ ok end
      → (value : V) × (first ≡ ok value) × (next value ≡ ok end)
  >>=-eq-ok (err raised) next returns = cc
  >>=-eq-ok (ok value) next returns = (value, refl, returns)

pub raise_if-eq-ok : (b : Bool) (e : Error) {u : Unit {0}} → raise_if b e ≡ ok u → b ≡ false
raise_if-eq-ok true e h = cc
raise_if-eq-ok false e h = refl

-- To split on a computed result and keep the equation.
pub Result-cases {ℓ} :
    {V : Type ℓ} (r : Result V) → ((v : V) × (r ≡ ok v)) ⊎ ((e : Error) × (r ≡ err e))
Result-cases (ok v) = inl (v, refl)
Result-cases (err e) = inr (e, refl)

-- Nothing but `ValueError` comes out: what the callers' `except ValueError` is enough for.
abbrev pub OnlyValueError {ℓ} : {A : Type ℓ} → Result A → Type 0
OnlyValueError (ok a) = Unit
OnlyValueError (err e) = is_value_error e ≡ true

pub OnlyValueError-bind {ℓ κ} :
    {A : Type ℓ} {B : Type κ} (m : Result A) (f : A → Result B)
    → OnlyValueError m
    → ((a : A) → m ≡ ok a → OnlyValueError (f a))
    → OnlyValueError (m >>= f)
OnlyValueError-bind (ok a) f h k = k a refl
OnlyValueError-bind (err e) f h k = h

-- The same as a record, whose rules prove it of a `do` block step by step.
pub record Safe {ℓ} {A : Type ℓ} (r : Result A) : Type 0 where
  pub only : OnlyValueError r

module _ {ℓ} {A : Type ℓ} where
  pub Safe-ok : (a : A) → Safe (ok a)
  Safe-ok a = record { only = tt }

  pub Safe-bind {κ} :
      {B : Type κ} (m : Result A) (f : A → Result B)
      → Safe m
      → ((a : A) → Safe (f a))
      → Safe (m >>= f)
  Safe-bind (ok a) f h k = k a
  Safe-bind (err e) f h k = record { only = h.only }

pub Safe-raise_if : (b : Bool) (e : Error) → is_value_error e ≡ true → Safe (raise_if b e)
Safe-raise_if true e h = record { only = h }
Safe-raise_if false e h = record { only = tt }
