-- ===== src/TunnelFsm/Handshake.antt =====
-- Two tunnel state machines that open a control connection with each other.
use xcesp_l2tpv3d.Common.{◌≡◌, refl, arith, some, List, [], ◌∷◌}
use xcesp_l2tpv3d.Exception.{ok, >>=-eq-ok}
use xcesp_l2tpv3d.Avp.{Avp, find_avp}
use xcesp_l2tpv3d.MessageType
use xcesp_l2tpv3d.Attribute.Build.{build_message_type}
use xcesp_l2tpv3d.Attribute.RoundTrip.{message_type_read}
use xcesp_l2tpv3d.TunnelMessage.{
  build_sccrq_avps, build_sccrp_avps, build_scccn_avps, get_message_type,
}
use xcesp_l2tpv3d.TunnelMessage.RoundTrip.{parse_sccrx_fields-build_sccrx_avps}
use xcesp_l2tpv3d.TunnelFsm.{
  TunnelConfig, TunnelFsm, new_fsm, established, wait_ctl_conn, wait_ctl_reply, sccrx_args,
  transition, send_message, set_hello_timer, now_established, on_local_open, on_message, on_sccrq,
  on_sccrp, on_scccn,
}

-- A machine that is up and knows the other side.
abbrev pub tunnel_joined : TunnelConfig → TunnelConfig → TunnelFsm
tunnel_joined mine theirs = record {
  config = mine;
  state = established;
  peer_ccid = theirs.local_ccid;
  peer_host_name = theirs.host_name;
  peer_router_id = theirs.router_id;
}

pub get_message_type-build_scccn_avps :
    (scccn : List Avp)
    → build_scccn_avps ≡ ok scccn
    → get_message_type scccn ≡ ok (some MessageType.scccn)
unfolding build_scccn_avps get_message_type find_avp
get_message_type-build_scccn_avps scccn e =
    let (mt, x, e1) = >>=-eq-ok (build_message_type MessageType.scccn) _ e in
    let r = message_type_read MessageType.scccn mt x in ground (arith, e1, r.shape, r.reads)

open_ok :
    (mine : TunnelConfig) (sccrq : List Avp)
    → build_sccrq_avps (sccrx_args mine) ≡ ok sccrq
    → on_local_open (new_fsm mine)
      ≡ (transition wait_ctl_reply (new_fsm mine), ok (send_message sccrq ∷ []))
unfolding on_local_open
open_ok mine sccrq e = ground (arith, e)

sccrq_ok :
    (mine theirs : TunnelConfig) (sccrq sccrp : List Avp)
    → build_sccrq_avps (sccrx_args theirs) ≡ ok sccrq
    → build_sccrp_avps (sccrx_args mine) ≡ ok sccrp
    → on_message sccrq (new_fsm mine)
      ≡ (transition wait_ctl_conn (tunnel_joined mine theirs), ok (send_message sccrp ∷ []))
unfolding on_message on_sccrq build_sccrq_avps
sccrq_ok mine theirs sccrq sccrp e f =
    let (parsed, typed) =
      parse_sccrx_fields-build_sccrx_avps MessageType.sccrq (sccrx_args theirs) sccrq e in
    ground (arith, parsed, typed, f)

sccrp_ok :
    (mine theirs : TunnelConfig) (sccrp scccn : List Avp)
    → build_sccrp_avps (sccrx_args theirs) ≡ ok sccrp
    → build_scccn_avps ≡ ok scccn
    → on_message sccrp (transition wait_ctl_reply (new_fsm mine)) ≡ (
      tunnel_joined mine theirs,
      ok (send_message scccn ∷ set_hello_timer mine.hello_interval ∷ now_established ∷ []),
    )
unfolding on_message on_sccrp build_sccrp_avps
sccrp_ok mine theirs sccrp scccn e f =
    let (parsed, typed) =
      parse_sccrx_fields-build_sccrx_avps MessageType.sccrp (sccrx_args theirs) sccrp e in
    ground (arith, parsed, typed, f)

scccn_ok :
    (mine theirs : TunnelConfig) (scccn : List Avp)
    → build_scccn_avps ≡ ok scccn
    → on_message scccn (transition wait_ctl_conn (tunnel_joined mine theirs))
      ≡ (tunnel_joined mine theirs, ok (set_hello_timer mine.hello_interval ∷ now_established ∷ []))
unfolding on_message on_scccn
scccn_ok mine theirs scccn e = ground (arith, get_message_type-build_scccn_avps scccn e)

-- Two new machines, one of which is told to open, come up by the three messages that they send each
-- other, where these can be built: each then knows the other's connection id, host name and router
-- id, and each has armed its own timer and reported once that it is established.
pub handshake-tunnel_joined :
    (a b : TunnelConfig) (sccrq sccrp scccn : List Avp)
    → build_sccrq_avps (sccrx_args a) ≡ ok sccrq
    → build_sccrp_avps (sccrx_args b) ≡ ok sccrp
    → build_scccn_avps ≡ ok scccn
    → let (a1, sent_a1) = on_local_open (new_fsm a) in
      let (b1, sent_b1) = on_message sccrq (new_fsm b) in
      let (a2, sent_a2) = on_message sccrp a1 in
      let (b2, sent_b2) = on_message scccn b1 in
      (sent_a1 ≡ ok (send_message sccrq ∷ []))
      × (sent_b1 ≡ ok (send_message sccrp ∷ []))
      × (sent_a2
          ≡ ok (send_message scccn ∷ set_hello_timer a.hello_interval ∷ now_established ∷ []))
      × (sent_b2 ≡ ok (set_hello_timer b.hello_interval ∷ now_established ∷ []))
      × (a2 ≡ tunnel_joined a b)
      × (b2 ≡ tunnel_joined b a)
handshake-tunnel_joined a b sccrq sccrp scccn ea eb ec =
    rw
      (
        open_ok a sccrq ea,
        sccrq_ok b a sccrq sccrp ea eb,
        sccrp_ok a b sccrp scccn eb ec,
        scccn_ok b a scccn ec,
      )
      (refl, refl, refl, refl, refl, refl)
