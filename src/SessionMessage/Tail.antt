-- ===== src/SessionMessage/Tail.antt =====
-- What `find_avp` finds behind the optional AVPs that end a session-level message: the cookie, if the
-- message has one, and the two speeds.
use xcesp_l2tpv3d.Common.{ℕ, ◌≡◌, refl, ap, ◌∙◌, arith, Bool, false, ◌||◌, Option, none}
use xcesp_l2tpv3d.Common.{List, ◌==◌}
use xcesp_l2tpv3d.Exception.{Result, ok, ◌>>=◌, >>=-eq-ok}
use xcesp_l2tpv3d.Struct.{Bytes}
use xcesp_l2tpv3d.Avp.{Avp}
use xcesp_l2tpv3d.AttrType
use xcesp_l2tpv3d.Attribute.Build.{
  build_assigned_cookie, build_tx_connect_speed, build_rx_connect_speed,
}
use xcesp_l2tpv3d.Attribute.Decode.{
  decode_assigned_cookie, decode_tx_connect_speed, decode_rx_connect_speed,
}
use xcesp_l2tpv3d.TunnelMessage.{append_optional, find_ietf, optional_field}
use xcesp_l2tpv3d.SessionMessage.Find.{
  assigned_cookie_ne, assigned_cookie_self, tx_connect_speed_ne, tx_connect_speed_self,
  rx_connect_speed_ne, rx_connect_speed_self,
}

abbrev pub is_speed : ℕ → Bool
is_speed t = AttrType.tx_connect_speed == t || AttrType.rx_connect_speed == t

abbrev pub is_tail : ℕ → Bool
is_tail t = AttrType.assigned_cookie == t || is_speed t

abbrev pub append_speeds : Option ℕ → Option ℕ → List Avp → Result (List Avp)
append_speeds tx rx avps = do
  avps ← append_optional build_tx_connect_speed tx avps
  append_optional build_rx_connect_speed rx avps

abbrev pub append_tail : Option Bytes → Option ℕ → Option ℕ → List Avp → Result (List Avp)
append_tail cookie tx rx avps = do
  avps ← append_optional build_assigned_cookie cookie avps
  append_speeds tx rx avps

-- The speeds are read back, and every other attribute is found as before.
pub record SpeedsRead (tx rx : Option ℕ) (avps out : List Avp) : Type 0 where
  pub keeps : (t : ℕ) → is_speed t ≡ false → find_ietf out t ≡ find_ietf avps t
  pub tx_reads :
      optional_field decode_tx_connect_speed (find_ietf out AttrType.tx_connect_speed) ≡ ok tx
  pub rx_reads :
      optional_field decode_rx_connect_speed (find_ietf out AttrType.rx_connect_speed) ≡ ok rx

pub append_speeds-SpeedsRead :
    (tx rx : Option ℕ) (avps out : List Avp)
    → find_ietf avps AttrType.tx_connect_speed ≡ none
    → find_ietf avps AttrType.rx_connect_speed ≡ none
    → append_speeds tx rx avps ≡ ok out
    → SpeedsRead tx rx avps out
append_speeds-SpeedsRead tx rx avps out no_tx no_rx e =
    let (s, y1, y2) = >>=-eq-ok (append_optional build_tx_connect_speed tx avps) _ e in
    record {
      keeps = λ t n.
          rx_connect_speed_ne s out rx t (ground (arith, n)) y2
          ∙ tx_connect_speed_ne avps s tx t (ground (arith, n)) y1;
      tx_reads =
          ap (optional_field decode_tx_connect_speed)
            (rx_connect_speed_ne s out rx AttrType.tx_connect_speed refl y2)
          ∙ tx_connect_speed_self avps s tx no_tx y1;
      rx_reads =
          rx_connect_speed_self s out rx
            (tx_connect_speed_ne avps s tx AttrType.rx_connect_speed refl y1 ∙ no_rx) y2;
    }

-- The same with the cookie before them.
pub record TailRead (cookie : Option Bytes) (tx rx : Option ℕ) (avps out : List Avp) : Type 0 where
  pub keeps : (t : ℕ) → is_tail t ≡ false → find_ietf out t ≡ find_ietf avps t
  pub cookie_reads :
      optional_field decode_assigned_cookie (find_ietf out AttrType.assigned_cookie) ≡ ok cookie
  pub tx_reads :
      optional_field decode_tx_connect_speed (find_ietf out AttrType.tx_connect_speed) ≡ ok tx
  pub rx_reads :
      optional_field decode_rx_connect_speed (find_ietf out AttrType.rx_connect_speed) ≡ ok rx

pub append_tail-TailRead :
    (cookie : Option Bytes) (tx rx : Option ℕ) (avps out : List Avp)
    → find_ietf avps AttrType.assigned_cookie ≡ none
    → find_ietf avps AttrType.tx_connect_speed ≡ none
    → find_ietf avps AttrType.rx_connect_speed ≡ none
    → append_tail cookie tx rx avps ≡ ok out
    → TailRead cookie tx rx avps out
append_tail-TailRead cookie tx rx avps out no_cookie no_tx no_rx e =
    let (s, y, e2) = >>=-eq-ok (append_optional build_assigned_cookie cookie avps) _ e in
    let past = assigned_cookie_ne avps s cookie in
    let speeds =
      append_speeds-SpeedsRead tx rx s out (past AttrType.tx_connect_speed refl y ∙ no_tx)
        (past AttrType.rx_connect_speed refl y ∙ no_rx) e2 in
    record {
      keeps = λ t n. speeds.keeps t (ground (arith, n)) ∙ past t (ground (arith, n)) y;
      cookie_reads =
          ap (optional_field decode_assigned_cookie) (speeds.keeps AttrType.assigned_cookie refl)
          ∙ assigned_cookie_self avps s cookie no_cookie y;
      tx_reads = speeds.tx_reads;
      rx_reads = speeds.rx_reads;
    }
