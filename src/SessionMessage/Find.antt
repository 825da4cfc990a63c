-- ===== src/SessionMessage/Find.antt =====
-- What `find_avp` finds of the optional AVPs of a session-level message.
use xcesp_l2tpv3d.Common.{ℕ, ◌≡◌, arith, true, false, Option, none}
use xcesp_l2tpv3d.Common.{List, ◌==◌}
use xcesp_l2tpv3d.Exception.{ok}
use xcesp_l2tpv3d.Struct.{Bytes}
use xcesp_l2tpv3d.Avp.{Avp}
use xcesp_l2tpv3d.AttrType
use xcesp_l2tpv3d.Attribute.Build.{
  ietf_avp, build_remote_end_id, build_assigned_cookie, build_tx_connect_speed,
  build_rx_connect_speed,
}
use xcesp_l2tpv3d.Attribute.Decode.{
  decode_assigned_cookie, decode_remote_end_id, decode_tx_connect_speed, decode_rx_connect_speed,
}
use xcesp_l2tpv3d.Attribute.RoundTrip.{
  assigned_cookie_read, remote_end_id_read, tx_connect_speed_read, rx_connect_speed_read, Reads-of,
}
use xcesp_l2tpv3d.TunnelMessage.{append_optional, find_ietf, optional_field}
use xcesp_l2tpv3d.TunnelMessage.Find.{find-append_optional_ne, find-append_optional_self}

remote_end_id_shape :
    (v : Bytes) (a : Avp)
    → ok (build_remote_end_id v) ≡ ok a
    → a ≡ ietf_avp AttrType.remote_end_id a.value true
unfolding build_remote_end_id
remote_end_id_shape v a e = ground arith

remote_end_id_reads :
    (v : Bytes) (a : Avp) → ok (build_remote_end_id v) ≡ ok a → decode_remote_end_id a ≡ ok v
remote_end_id_reads v a e = let r = remote_end_id_read v in cc (e, r.shape, r.reads)

-- The appended attributes, one rule for each: a search for another attribute passes it over, and a
-- search for it finds it.
module _ (avps out : List Avp) where
  pub remote_end_id_ne :
      (o : Option Bytes) (t : ℕ)
      → (AttrType.remote_end_id == t) ≡ false
      → append_optional (λ e. ok (build_remote_end_id e)) o avps ≡ ok out
      → find_ietf out t ≡ find_ietf avps t
  remote_end_id_ne o t ne e =
      find-append_optional_ne (λ e. ok (build_remote_end_id e)) AttrType.remote_end_id true
        remote_end_id_shape o avps out t ne e

  pub remote_end_id_self :
      (o : Option Bytes)
      → find_ietf avps AttrType.remote_end_id ≡ none
      → append_optional (λ e. ok (build_remote_end_id e)) o avps ≡ ok out
      → optional_field decode_remote_end_id (find_ietf out AttrType.remote_end_id) ≡ ok o
  remote_end_id_self o fresh e =
      find-append_optional_self (λ e. ok (build_remote_end_id e)) AttrType.remote_end_id true
        remote_end_id_shape decode_remote_end_id remote_end_id_reads o avps out fresh e

  pub assigned_cookie_ne :
      (o : Option Bytes) (t : ℕ)
      → (AttrType.assigned_cookie == t) ≡ false
      → append_optional build_assigned_cookie o avps ≡ ok out
      → find_ietf out t ≡ find_ietf avps t
  assigned_cookie_ne o t ne e =
      find-append_optional_ne build_assigned_cookie AttrType.assigned_cookie true
        (λ v a x. (assigned_cookie_read v a x).shape) o avps out t ne e

  pub assigned_cookie_self :
      (o : Option Bytes)
      → find_ietf avps AttrType.assigned_cookie ≡ none
      → append_optional build_assigned_cookie o avps ≡ ok out
      → optional_field decode_assigned_cookie (find_ietf out AttrType.assigned_cookie) ≡ ok o
  assigned_cookie_self o fresh e =
      find-append_optional_self build_assigned_cookie AttrType.assigned_cookie true
        (λ v a x. (assigned_cookie_read v a x).shape) decode_assigned_cookie
        (λ v a x. Reads-of _ _ v a (assigned_cookie_read v a x)) o avps out fresh e

  pub tx_connect_speed_ne :
      (o : Option ℕ) (t : ℕ)
      → (AttrType.tx_connect_speed == t) ≡ false
      → append_optional build_tx_connect_speed o avps ≡ ok out
      → find_ietf out t ≡ find_ietf avps t
  tx_connect_speed_ne o t ne e =
      find-append_optional_ne build_tx_connect_speed AttrType.tx_connect_speed true
        (λ v a x. (tx_connect_speed_read v a x).shape) o avps out t ne e

  pub tx_connect_speed_self :
      (o : Option ℕ)
      → find_ietf avps AttrType.tx_connect_speed ≡ none
      → append_optional build_tx_connect_speed o avps ≡ ok out
      → optional_field decode_tx_connect_speed (find_ietf out AttrType.tx_connect_speed) ≡ ok o
  tx_connect_speed_self o fresh e =
      find-append_optional_self build_tx_connect_speed AttrType.tx_connect_speed true
        (λ v a x. (tx_connect_speed_read v a x).shape) decode_tx_connect_speed
        (λ v a x. Reads-of _ _ v a (tx_connect_speed_read v a x)) o avps out fresh e

  pub rx_connect_speed_ne :
      (o : Option ℕ) (t : ℕ)
      → (AttrType.rx_connect_speed == t) ≡ false
      → append_optional build_rx_connect_speed o avps ≡ ok out
      → find_ietf out t ≡ find_ietf avps t
  rx_connect_speed_ne o t ne e =
      find-append_optional_ne build_rx_connect_speed AttrType.rx_connect_speed true
        (λ v a x. (rx_connect_speed_read v a x).shape) o avps out t ne e

  pub rx_connect_speed_self :
      (o : Option ℕ)
      → find_ietf avps AttrType.rx_connect_speed ≡ none
      → append_optional build_rx_connect_speed o avps ≡ ok out
      → optional_field decode_rx_connect_speed (find_ietf out AttrType.rx_connect_speed) ≡ ok o
  rx_connect_speed_self o fresh e =
      find-append_optional_self build_rx_connect_speed AttrType.rx_connect_speed true
        (λ v a x. (rx_connect_speed_read v a x).shape) decode_rx_connect_speed
        (λ v a x. Reads-of _ _ v a (rx_connect_speed_read v a x)) o avps out fresh e
