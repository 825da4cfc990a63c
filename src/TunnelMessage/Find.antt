-- ===== src/TunnelMessage/Find.antt =====
-- What `find_avp` finds in a list to which an optional AVP was appended.
use xcesp_l2tpv3d.Common.{ℕ, ◌≡◌, refl, arith, false, Bool, Option, none, some}
use xcesp_l2tpv3d.Common.{List, [], ◌∷◌, ◌++◌, ◌==◌}
use xcesp_l2tpv3d.Exception.{Result, ok, >>=-eq-ok}
use xcesp_l2tpv3d.Avp.{Avp, find_avp}
use xcesp_l2tpv3d.Attribute.Build.{ietf_avp}
use xcesp_l2tpv3d.TunnelMessage.{append_optional, find_ietf, optional_field}

abbrev or_else {ℓ} : {A : Type ℓ} → Option A → Option A → Option A
or_else none o = o
or_else (some a) o = some a

-- `find_avp` takes the first match.
pub find_avp-append :
    (xs ys : List Avp) (t v : ℕ)
    → find_avp (xs ++ ys) t v ≡ or_else (find_avp xs t v) (find_avp ys t v)
unfolding find_avp
find_avp-append [] ys t v = refl
find_avp-append (x ∷ xs) ys t v = ground (arith, find_avp-append xs ys t v)

pub find_avp-append_some :
    (xs ys : List Avp) (t v : ℕ) (a : Avp)
    → find_avp xs t v ≡ some a
    → find_avp (xs ++ ys) t v ≡ some a
find_avp-append_some xs ys t v a e = rw (find_avp-append, e)

module _ {ℓ} {V : Type ℓ} (build : V → Result Avp) (attribute_type : ℕ) (mandatory : Bool)
    (shape : (v : V) (a : Avp)
      → build v ≡ ok a
      → a ≡ ietf_avp attribute_type a.value mandatory) where
  -- A search for another attribute does not see what was appended.
  pub find-append_optional_ne :
      (o : Option V) (avps out : List Avp) (t : ℕ)
      → (attribute_type == t) ≡ false
      → append_optional build o avps ≡ ok out
      → find_ietf out t ≡ find_ietf avps t
  unfolding append_optional find_avp
  find-append_optional_ne none avps out t ne e = ground arith
  find-append_optional_ne (some v) avps out t ne e =
      let (a, x, e2) = >>=-eq-ok (build v) _ e in
      ground (arith, ne, e2, shape v a x, find_avp-append avps (a ∷ []) t 0)

  -- A search for its attribute finds it, if there was none before.
  pub find-append_optional_self :
      (decode : Avp → Result V)
      → ((v : V) (a : Avp) → build v ≡ ok a → decode a ≡ ok v)
      → (o : Option V) (avps out : List Avp) → find_ietf avps attribute_type ≡ none
      → append_optional build o avps ≡ ok out
      → optional_field decode (find_ietf out attribute_type) ≡ ok o
  unfolding append_optional find_avp
  find-append_optional_self decode reads none avps out fresh e = ground arith
  find-append_optional_self decode reads (some v) avps out fresh e =
      let (a, x, e2) = >>=-eq-ok (build v) _ e in
      ground
        (arith, fresh, e2, shape v a x, reads v a x, find_avp-append avps (a ∷ []) attribute_type 0)
