-- ===== src/Avp/Canonical.antt =====
-- Without a shared secret, encoding what was decoded gives the bytes back: each AVP has one encoding.
use xcesp_l2tpv3d.Common.{
  ℕ, zero, suc, ◌+◌, ◌-◌, ◌*◌, ◌/◌, ◌%◌, ◌^◌, ◌≤◌, ◌≡◌, refl, sym, ap, ◌∙◌, arith, Bool, true,
  false, not, Option, none, bit_and, bit_or,
}
use xcesp_l2tpv3d.Common.{
  List, [], ◌∷◌, ◌++◌, length, take, drop, length-drop, length-take, drop-drop, drop_prefix,
  take-append-drop, All, All-drop, ◌==◌, append-nil,
}
use xcesp_l2tpv3d.Exception.{ok}
use xcesp_l2tpv3d.Struct.{IsByte, Bytes, IsBytes, unpack_from_bbhh}
use xcesp_l2tpv3d.Crypto.{Crypto}
use xcesp_l2tpv3d.Avp.{
  Avp, encode_value, encode, encode_all, decode_value, decode_one, next_vector, decode_loop,
  decode_sequence,
}
use xcesp_l2tpv3d.Avp.Header.{
  flags_value, mandatory_mask, hidden_mask, reserved_mask, low_two_bits, length_join,
}
use xcesp_l2tpv3d.Avp.RoundTrip.{Fits, wire, encode-wire}
use xcesp_l2tpv3d.Avp.Decoded.{decode_one_bounds, decode_loop_end, decode_loop_next}

-- What was decoded at `offset`: a plain AVP whose wire form stands there.
pub record Stands (buf : Bytes) (offset : ℕ) (a : Avp) (next : ℕ) : Type 0 where
  pub plain : a.hidden ≡ false
  pub fits : Fits a a.value
  pub bytes : drop offset buf ≡ wire a a.value ++ drop next buf

-- The two header bytes are rebuilt from what was read of them.
flags_again :
    (m : Bool) (b0 b1 : ℕ)
    → IsByte b0
    → IsByte b1
    → m ≡ not (bit_and b0 0x80 == 0)
    → false ≡ not (bit_and b0 0x40 == 0)
    → bit_and (b0 / 2 ^ 2) 0x0F ≡ 0
    → (flags_value m false (bit_or (bit_and b0 0x03 * 2 ^ 8) b1) ≡ b0)
      × (bit_or (bit_and b0 0x03 * 2 ^ 8) b1 % 256 ≡ b1)
      × (bit_or (bit_and b0 0x03 * 2 ^ 8) b1 ≤ 1023)
flags_again m b0 b1 h0 h1 em eh er = ground (
  arith,
  mandatory_mask b0,
  hidden_mask b0,
  reserved_mask b0,
  low_two_bits b0,
  length_join (bit_and b0 0x03) b1,
)

-- The value field and what follows it make up the bytes behind the header.
value_again :
    (buf body : Bytes) (offset total : ℕ)
    → drop (offset + 6) buf ≡ body
    → 6 ≤ total
    → offset + total ≤ length buf
    → (length (take (total - 6) body) + 6 ≡ total)
      × (take (total - 6) body ++ drop (offset + total) buf ≡ body)
value_again buf body offset total d lo hi = (
  omega (arith, length-take (total - 6) body, length-drop (offset + 6) buf, ap length d),
  rw (← behind) (take-append-drop (total - 6) body),
)
  where
    again : offset + 6 + (total - 6) ≡ offset + total
    again = omega arith

    behind : drop (total - 6) body ≡ drop (offset + total) buf
    behind =
        ap (drop (total - 6)) (sym d)
        ∙ drop-drop (total - 6) (offset + 6) buf
        ∙ ap (λ (n : ℕ). drop n buf) again

wire_there :
    (b0 b1 v1 v0 t1 t0 : ℕ) (body buf : Bytes) (offset total : ℕ) (a : Avp) (next : ℕ)
    → drop offset buf ≡ b0 ∷ b1 ∷ v1 ∷ v0 ∷ t1 ∷ t0 ∷ body
    → IsBytes (b0 ∷ b1 ∷ v1 ∷ v0 ∷ t1 ∷ t0 ∷ body)
    → a.hidden ≡ false
    → next ≡ offset + total
    → a.vendor_id ≡ v1 * 256 + v0
    → a.attribute_type ≡ t1 * 256 + t0
    → flags_value a.mandatory false total ≡ b0
    → total % 256 ≡ b1
    → total ≤ 1023
    → length (take (total - 6) body) + 6 ≡ total
    → take (total - 6) body ++ drop (offset + total) buf ≡ body
    → a.value ≡ take (total - 6) body
    → Stands buf offset a next
wire_there b0 b1 v1 v0 t1 t0 body buf offset total a next d h plain n v t flags low small size rest
      x =
    record {
      plain = plain;
      fits = record {
        vendor_fits = omega arith;
        attribute_fits = omega arith;
        length_fits = omega (arith, ap length x);
      };
      bytes = ground (arith, ap length x);
    }

module _ ⦃c : Crypto⦄ where
  plain_value :
      (hidden : Bool) (random_vector : Option Bytes) (attribute_type : ℕ) (field value : Bytes)
      → decode_value hidden none random_vector attribute_type field ≡ ok value
      → (hidden ≡ false) × (value ≡ field)
  unfolding decode_value
  plain_value false random_vector attribute_type field value e = (refl, cc)
  plain_value true random_vector attribute_type field value e = cc

  -- What a successful `decode_one` has read, the header's four numbers being given.
  record Read (random_vector : Option Bytes) (buf : Bytes) (offset b0 b1 : ℕ) (a : Avp) (next : ℕ)
      : Type 0 where
    mandatory_read : a.mandatory ≡ not (bit_and b0 0x80 == 0)
    reserved_clear : bit_and (b0 / 2 ^ 2) 0x0F ≡ 0
    long_enough : 6 ≤ bit_or (bit_and b0 0x03 * 2 ^ 8) b1
    inside : offset + bit_or (bit_and b0 0x03 * 2 ^ 8) b1 ≤ length buf
    next_read : next ≡ offset + bit_or (bit_and b0 0x03 * 2 ^ 8) b1
    hidden_read : a.hidden ≡ not (bit_and b0 0x40 == 0)
    value_read :
        decode_value
          (not (bit_and b0 0x40 == 0))
          none
          random_vector
          a.attribute_type
          (take (bit_or (bit_and b0 0x03 * 2 ^ 8) b1 - 6) (drop (offset + 6) buf))
        ≡ ok a.value

  Read-of :
      (random_vector : Option Bytes) (buf : Bytes) (offset b0 b1 vendor attr : ℕ) (a : Avp)
      (next : ℕ)
      → unpack_from_bbhh (drop offset buf) ≡ ok (b0, b1, vendor, attr)
      → decode_one none random_vector buf offset ≡ ok (a, next)
      → Read random_vector buf offset b0 b1 a next
        × (a.vendor_id ≡ vendor)
        × (a.attribute_type ≡ attr)
  unfolding decode_one
  Read-of random_vector buf offset b0 b1 vendor attr a next u e = ground arith

  Stands-at :
      (random_vector : Option Bytes) (buf : Bytes) (offset : ℕ) (a : Avp) (next : ℕ) (left : Bytes)
      → drop offset buf ≡ left
      → IsBytes left
      → IsBytes buf
      → decode_one none random_vector buf offset ≡ ok (a, next)
      → Stands buf offset a next
  unfolding unpack_from_bbhh
  Stands-at random_vector buf offset a next (b0 ∷ b1 ∷ v1 ∷ v0 ∷ t1 ∷ t0 ∷ body) d h hb e =
      let (r, v, t) =
        Read-of random_vector buf offset b0 b1 (v1 * 256 + v0) (t1 * 256 + t0) a next (rw d) e in
      let total = bit_or (bit_and b0 0x03 * 2 ^ 8) b1 in
      let body_there : drop (offset + 6) buf ≡ body =
        sym (drop-drop 6 offset buf) ∙ ap (drop 6) d in
      let (plain, value) = plain_value _ random_vector a.attribute_type _ a.value r.value_read in
      let (flags, low, small) =
        flags_again a.mandatory b0 b1 h.0 h.1.0 r.mandatory_read (sym plain) r.reserved_clear in
      let (size, rest) = value_again buf body offset total body_there r.long_enough r.inside in
      let value_there : a.value ≡ take (total - 6) body =
        value ∙ ap (take (total - 6)) body_there in
      wire_there b0 b1 v1 v0 t1 t0 body buf offset total a next d h (r.hidden_read ∙ plain)
        r.next_read v t flags low small size rest value_there
  Stands-at random_vector buf offset a next _ d h hb e = absurd (
      omega (
        arith,
        decode_one_bounds none random_vector buf offset hb a next e,
        length-drop offset buf,
        ap length d,
      ))

abbrev pub IsPlain : Avp → Type 0
IsPlain a = a.hidden ≡ false

drop_all : (buf : Bytes) (pos : ℕ) → pos ≡ length buf → drop pos buf ≡ []
drop_all buf pos e = rw append-nil at (drop_prefix buf [] pos e)

module _ ⦃c : Crypto⦄ (secret random_vector : Option Bytes) where
  -- A plain AVP needs no secret to be encoded.
  pub encode_plain :
      (a : Avp) → IsPlain a → Fits a a.value → encode secret random_vector a ≡ ok (wire a a.value)
  unfolding encode_value
  encode_plain a plain f = encode-wire secret random_vector a a.value (rw plain) f

  pub encode_all_step :
      (a : Avp) (avps : List Avp) (first rest : Bytes)
      → encode secret random_vector a ≡ ok first
      → encode_all secret random_vector avps ≡ ok rest
      → encode_all secret random_vector (a ∷ avps) ≡ ok (first ++ rest)
  unfolding encode_all
  encode_all_step a avps first rest e f = rw (e, f)

module _ ⦃c : Crypto⦄ (secret random_vector : Option Bytes) (buf : Bytes) (h : IsBytes buf) where
  encode_all-decode_loop :
      (fuel : ℕ) (current : Option Bytes) (pos : ℕ) (avps : List Avp)
      → pos ≤ length buf
      → decode_loop fuel none buf current pos ≡ ok avps
      → (encode_all secret random_vector avps ≡ ok (drop pos buf)) × All IsPlain avps
  unfolding decode_loop encode_all
  encode_all-decode_loop fuel current pos [] n e =
      (rw (drop_all buf pos (omega (arith, decode_loop_end fuel none buf current pos e))), tt)
  encode_all-decode_loop zero current pos (a ∷ avps) n e = ground arith
  encode_all-decode_loop (suc fuel) current pos (a ∷ avps) n e =
      let (next, one, more) = decode_loop_next fuel none buf current pos a avps e in
      let stands =
        Stands-at current buf pos a next (drop pos buf) refl (All-drop IsByte pos buf h) h one in
      let (again, plain) =
        encode_all-decode_loop fuel (next_vector current a) next avps
          (decode_one_bounds none current buf pos h a next one).2 more in
      (
        encode_all_step secret random_vector a avps _ _
              (encode_plain secret random_vector a stands.plain stands.fits) again
            ∙ ap ok (sym stands.bytes),
        (stands.plain, plain),
      )

  -- What `decode_sequence` reads without a secret is plain, and its encodings make up the bytes that
  -- were read.
  pub encode_all-decode_sequence :
      (offset : ℕ) (avps : List Avp)
      → offset ≤ length buf
      → decode_sequence none buf offset ≡ ok avps
      → (encode_all secret random_vector avps ≡ ok (drop offset buf)) × All IsPlain avps
  unfolding decode_sequence
  encode_all-decode_sequence offset avps n e =
      encode_all-decode_loop (length buf) none offset avps n e
