-- ===== src/Avp/Sequence.antt =====
-- `AVP.decode_sequence` reads back the AVPs that were encoded one behind the other.
use xcesp_l2tpv3d.Common.{
  ℕ, zero, suc, ◌≤◌, ◌<◌, ◌≡◌, ap, ◌∙◌, arith, true, false, Option, none, inl, inr,
}
use xcesp_l2tpv3d.Common.{List, [], ◌∷◌, ◌++◌, length, length-append, append_assoc, Bool-cases}
use xcesp_l2tpv3d.Exception.{ok, >>=-eq-ok}
use xcesp_l2tpv3d.Struct.{Bytes, IsBytes}
use xcesp_l2tpv3d.Crypto.{Crypto}
use xcesp_l2tpv3d.Avp.{
  Avp, encode_value, encode, encode_all, decode_one, next_vector, decode_loop, decode_sequence,
}
use xcesp_l2tpv3d.Avp.RoundTrip.{encode-eq-ok, decode_one-encode}

-- The receiver can read what was sent with the random vector `sent`: where a hidden AVP stands, the
-- last Random Vector AVP before it holds that vector. All values are bytes.
abbrev pub Readable : Option Bytes → Option Bytes → List Avp → Type 0
Readable current sent [] = Unit
Readable current sent (a ∷ avps) =
    (a.hidden ≡ true → current ≡ sent)
    × IsBytes a.value
    × Readable (next_vector current a) sent avps

module _ ⦃c : Crypto⦄ (secret sent : Option Bytes) where
  encode_other_vector :
      (current : Option Bytes) (a : Avp)
      → a.hidden ≡ false
      → encode secret current a ≡ encode secret sent a
  unfolding encode encode_value
  encode_other_vector current a h = rw h

  encode_current :
      (current : Option Bytes) (a : Avp)
      → (a.hidden ≡ true → current ≡ sent)
      → encode secret current a ≡ encode secret sent a
  encode_current current a h = elim (Bool-cases a.hidden) [
    | inl hidden ↦ rw (h hidden)
    | inr plain ↦ encode_other_vector current a plain
  ]

  -- The first AVP's bytes, and those of the rest.
  pub encode_all_parts :
      (a : Avp) (avps : List Avp) (body : Bytes)
      → encode_all secret sent (a ∷ avps) ≡ ok body
      → (first rest : Bytes) × (encode secret sent a ≡ ok first)
        × (encode_all secret sent avps ≡ ok rest)
        × (body ≡ first ++ rest)
  unfolding encode_all
  encode_all_parts a avps body e =
      let (first, x, e2) = >>=-eq-ok (encode secret sent a) _ e in
      let (rest, y, e3) = >>=-eq-ok (encode_all secret sent avps) _ e2 in (first, rest, x, y, cc e3)

  length-encode : (a : Avp) (bytes : Bytes) → encode secret sent a ≡ ok bytes → 6 ≤ length bytes
  length-encode a bytes e =
      let (field, v, f, w) = encode-eq-ok secret sent a bytes e in omega (arith, ap length w)

  decode_loop_step :
      (fuel : ℕ) (current : Option Bytes) (buf : Bytes) (pos next : ℕ) (a : Avp) (avps : List Avp)
      → pos < length buf
      → decode_one secret current buf pos ≡ ok (a, next)
      → decode_loop fuel secret buf (next_vector current a) next ≡ ok avps
      → decode_loop (suc fuel) secret buf current pos ≡ ok (a ∷ avps)
  unfolding decode_loop
  decode_loop_step fuel current buf pos next a avps lt one more = ground arith

  decode_loop-encode_all :
      (fuel : ℕ) (current : Option Bytes) (before body : Bytes) (avps : List Avp)
      → Readable current sent avps
      → encode_all secret sent avps ≡ ok body
      → length body ≤ fuel
      → decode_loop fuel secret (before ++ body) current (length before) ≡ ok avps
  unfolding decode_loop encode_all
  decode_loop-encode_all zero current before body [] r e n =
      ground (arith, length-append before body)
  decode_loop-encode_all (suc fuel) current before body [] r e n =
      ground (arith, length-append before body)
  decode_loop-encode_all zero current before body (a ∷ avps) r e n =
      let (first, rest, x, y, z) = encode_all_parts a avps body e in
      absurd (omega (arith, length-encode a first x, ap length z, length-append first rest))
  decode_loop-encode_all (suc fuel) current before body (a ∷ avps) r e n =
      let (first, rest, x, y, z) = encode_all_parts a avps body e in
      let one =
        decode_one-encode secret current a first before rest r.1
          (encode_current current a r.0 ∙ x) in
      let tail =
        decode_loop-encode_all fuel (next_vector current a) (before ++ first) rest avps r.2 y
          (omega (arith, length-encode a first x, ap length z, length-append first rest)) in
      rw z (
        decode_loop_step fuel current (before ++ (first ++ rest)) (length before) _ a avps
          (omega (
            arith,
            length-encode a first x,
            length-append before (first ++ rest),
            length-append first rest,
          ))
          one (rw (append_assoc, length-append) at tail))

  -- The walk over the encodings of AVPs that stand one behind the other, from the offset of the
  -- first to the end of the buffer, gives these AVPs, if each hidden one follows a Random Vector
  -- AVP with the vector that it was hidden with.
  pub decode_sequence-encode_all :
      (before body : Bytes) (avps : List Avp)
      → Readable none sent avps
      → encode_all secret sent avps ≡ ok body
      → decode_sequence secret (before ++ body) (length before) ≡ ok avps
  unfolding decode_sequence
  decode_sequence-encode_all before body avps r e =
      decode_loop-encode_all (length (before ++ body)) none before body avps r e
        (omega (arith, length-append before body))
