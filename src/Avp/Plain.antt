-- ===== src/Avp/Plain.antt =====
-- Lists of AVPs that are encoded without a secret.
use xcesp_l2tpv3d.Common.{◌≡◌, refl, ap, sym, ◌∙◌, arith, Option, none}
use xcesp_l2tpv3d.Common.{List, [], ◌∷◌, ◌++◌, All, append-nil, append_assoc}
use xcesp_l2tpv3d.Exception.{ok}
use xcesp_l2tpv3d.Struct.{Bytes, IsBytes}
use xcesp_l2tpv3d.Crypto.{Crypto}
use xcesp_l2tpv3d.Avp.{Avp, encode, encode_value, encode_all, next_vector}
use xcesp_l2tpv3d.Avp.Canonical.{IsPlain, encode_all_step}
use xcesp_l2tpv3d.Avp.RoundTrip.{encode-eq-ok, Fits, wire}
use xcesp_l2tpv3d.Avp.Sequence.{Readable, encode_all_parts}

abbrev pub HasByteValues : List Avp → Type 0
HasByteValues avps = All (λ a. IsBytes a.value) avps

pub Readable-IsPlain :
    (current sent : Option Bytes) (avps : List Avp)
    → All IsPlain avps
    → HasByteValues avps
    → Readable current sent avps
Readable-IsPlain current sent [] p b = tt
Readable-IsPlain current sent (a ∷ avps) p b =
    ((λ hidden. cc (p.0, hidden)), b.0, Readable-IsPlain (next_vector current a) sent avps p.1 b.1)

module _ ⦃c : Crypto⦄ where
  encode_value-IsPlain : (a : Avp) (field : Bytes) → encode_value none none a ≡ ok field → IsPlain a
  unfolding encode_value
  encode_value-IsPlain a field e = ground arith

  -- A plain AVP's bytes are its wire form.
  pub encode_plain-eq-ok :
      (secret random_vector : Option Bytes) (a : Avp) (bytes : Bytes)
      → IsPlain a
      → encode secret random_vector a ≡ ok bytes
      → Fits a a.value × (bytes ≡ wire a a.value)
  unfolding encode_value
  encode_plain-eq-ok secret random_vector a bytes p e =
      let (field, v, f, w) = encode-eq-ok secret random_vector a bytes e in
      let same : field ≡ a.value = ground (arith, v, p) in (rw same at f, rw same at w)

  pub encode_all-IsPlain :
      (avps : List Avp) (body : Bytes) → encode_all none none avps ≡ ok body → All IsPlain avps
  encode_all-IsPlain [] body e = tt
  encode_all-IsPlain (a ∷ avps) body e =
      let (first, rest, x, y, z) = encode_all_parts none none a avps body e in
      let (field, v, f, w) = encode-eq-ok none none a first x in
      (encode_value-IsPlain a field v, encode_all-IsPlain avps rest y)

  -- One more AVP at the end is its bytes at the end.
  pub encode_all-append :
      (secret random_vector : Option Bytes) (avps : List Avp) (a : Avp) (body bytes : Bytes)
      → encode_all secret random_vector avps ≡ ok body
      → encode secret random_vector a ≡ ok bytes
      → encode_all secret random_vector (avps ++ a ∷ []) ≡ ok (body ++ bytes)
  unfolding encode_all
  encode_all-append secret random_vector [] a body bytes e f = ground (arith, append-nil bytes)
  encode_all-append secret random_vector (b ∷ avps) a body bytes e f =
      let (first, rest, x, y, z) = encode_all_parts secret random_vector b avps body e in
      encode_all_step secret random_vector b (avps ++ a ∷ []) first (rest ++ bytes) x
        (encode_all-append secret random_vector avps a rest bytes y f)
      ∙ ap ok (sym (append_assoc first rest bytes) ∙ ap (λ t. t ++ bytes) (sym z))

  pub encode_all_last :
      (secret random_vector : Option Bytes) (avps : List Avp) (a : Avp) (bytes : Bytes)
      → encode_all secret random_vector (avps ++ a ∷ []) ≡ ok bytes
      → (body last : Bytes) × (encode_all secret random_vector avps ≡ ok body)
        × (encode secret random_vector a ≡ ok last)
        × (bytes ≡ body ++ last)
  unfolding encode_all
  encode_all_last secret random_vector [] a bytes e =
      let (last, rest, x, y, z) = encode_all_parts secret random_vector a [] bytes e in
      ([], last, refl, x, ground (arith, append-nil last))
  encode_all_last secret random_vector (b ∷ avps) a bytes e =
      let (first, rest, x, y, z) =
        encode_all_parts secret random_vector b (avps ++ a ∷ []) bytes e in
      let (body, last, u, v, w) = encode_all_last secret random_vector avps a rest y in
      (
        first ++ body,
        last,
        encode_all_step secret random_vector b avps first body x u,
        v,
        z ∙ ap (λ t. first ++ t) w ∙ sym (append_assoc first body last),
      )
