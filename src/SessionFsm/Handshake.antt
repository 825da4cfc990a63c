-- ===== src/SessionFsm/Handshake.antt =====
-- Two session state machines that open a session with each other.
use xcesp_l2tpv3d.Common.{◌==◌, if◌then◌else◌, true, ◌≡◌, refl, arith, none, some, List, [], ◌∷◌}
use xcesp_l2tpv3d.Exception.{ok}
use xcesp_l2tpv3d.Avp.{Avp}
use xcesp_l2tpv3d.SessionMessage.{build_icrq_avps, build_icrp_avps, build_iccn_avps}
use xcesp_l2tpv3d.SessionMessage.Icrq.{parse_session_fields-build_icrq_avps}
use xcesp_l2tpv3d.SessionMessage.Icrp.{parse_session_fields-build_icrp_avps}
use xcesp_l2tpv3d.SessionMessage.Iccn.{parse_session_fields-build_iccn_avps}
use xcesp_l2tpv3d.Dataplane.{SessionParams, default_sublayer, no_sublayer, ethernet, ethernet_vlan}
use xcesp_l2tpv3d.SessionFsm.{
  ifname_of, SessionConfig, SessionFsm, new_fsm, established, wait_session_reply,
  wait_session_connect, transition, call_args, learned, send_message, dataplane_add_session,
  session_established, dataplane_params, on_tunnel_established, on_message, on_icrq, on_icrp,
  on_iccn,
}

-- A machine that is up and knows the other side.
abbrev pub session_joined : SessionConfig → SessionConfig → SessionFsm
session_joined mine theirs = record {
  config = mine;
  state = established;
  peer_sid = theirs.local_sid;
  peer_cookie_learned = learned theirs.cookie none;
}

-- The netdev of a session between two configurations: it sends to the other's session id with the
-- other's cookie, or where the other has none with the configured one, and expects its own.
abbrev pub netdev_to : SessionConfig → SessionConfig → SessionParams
netdev_to mine theirs = record {
  local_ccid = mine.local_ccid;
  local_sid = mine.local_sid;
  remote_sid = theirs.local_sid;
  ifname = ifname_of mine;
  cookie = mine.cookie;
  peer_cookie = elim theirs.cookie [ some (b ∷ bytes) ↦ some (b ∷ bytes) | _ ↦ mine.peer_cookie ];
  l2spec_type = if mine.l2_specific_sublayer == 1 then default_sublayer else no_sublayer;
  pseudowire_type = if mine.pseudowire_type == 4 then ethernet_vlan else ethernet;
}

dataplane_params-session_joined :
    (mine theirs : SessionConfig)
    → dataplane_params (session_joined mine theirs) ≡ netdev_to mine theirs
unfolding dataplane_params
dataplane_params-session_joined mine theirs = ground arith

icrq_sent :
    (mine : SessionConfig) (icrq : List Avp)
    → mine.initiator ≡ true
    → build_icrq_avps mine.local_sid mine.pseudowire_type (some mine.name) (call_args mine)
      ≡ ok icrq
    → on_tunnel_established (new_fsm mine)
      ≡ (transition wait_session_reply (new_fsm mine), ok (send_message icrq ∷ []))
unfolding on_tunnel_established
icrq_sent mine icrq i e = ground (arith, i, e)

icrq_answered :
    (mine theirs : SessionConfig) (icrq icrp : List Avp)
    → build_icrq_avps theirs.local_sid theirs.pseudowire_type (some theirs.name) (call_args theirs)
      ≡ ok icrq
    → build_icrp_avps mine.local_sid theirs.local_sid (call_args mine) ≡ ok icrp
    → on_message icrq (new_fsm mine)
      ≡ (transition wait_session_connect (session_joined mine theirs), ok (send_message icrp ∷ []))
unfolding on_message on_icrq
icrq_answered mine theirs icrq icrp e f =
    let (parsed, typed) =
      parse_session_fields-build_icrq_avps theirs.local_sid theirs.pseudowire_type
        (some theirs.name) (call_args theirs) icrq e in
    ground (arith, parsed, typed, f)

icrp_answered :
    (mine theirs : SessionConfig) (icrp iccn : List Avp)
    → build_icrp_avps theirs.local_sid mine.local_sid (call_args theirs) ≡ ok icrp
    → build_iccn_avps mine.local_sid theirs.local_sid (call_args mine) ≡ ok iccn
    → on_message icrp (transition wait_session_reply (new_fsm mine)) ≡ (
      session_joined mine theirs,
      ok (
          send_message iccn
          ∷ dataplane_add_session (dataplane_params (session_joined mine theirs))
          ∷ session_established
          ∷ []),
    )
unfolding on_message on_icrp dataplane_params
icrp_answered mine theirs icrp iccn e f =
    let (parsed, typed) =
      parse_session_fields-build_icrp_avps theirs.local_sid mine.local_sid (call_args theirs) icrp
        e in
    ground (arith, parsed, typed, f)

iccn_accepted :
    (mine theirs : SessionConfig) (iccn : List Avp)
    → build_iccn_avps theirs.local_sid mine.local_sid (call_args theirs) ≡ ok iccn
    → on_message iccn (transition wait_session_connect (session_joined mine theirs)) ≡ (
      session_joined mine theirs,
      ok (
          dataplane_add_session (dataplane_params (session_joined mine theirs))
          ∷ session_established
          ∷ []),
    )
unfolding on_message on_iccn dataplane_params
iccn_accepted mine theirs iccn e =
    let (parsed, typed) =
      parse_session_fields-build_iccn_avps theirs.local_sid mine.local_sid (call_args theirs) iccn
        e in
    ground (arith, parsed, typed)

-- Two new machines, of which the initiator is told that the tunnel is up, come up by the three
-- messages that they send each other, where these can be built: each then knows the other's session
-- id and cookie, and has asked once for a netdev, under its own ids and name, that sends to the
-- other's id with the other's cookie (the configured one, where the other has none or an empty one)
-- and takes its own cookie, with the configured sublayer and pseudowire type.
pub handshake-session_joined :
    (a b : SessionConfig) (icrq icrp iccn : List Avp)
    → a.initiator ≡ true
    → build_icrq_avps a.local_sid a.pseudowire_type (some a.name) (call_args a) ≡ ok icrq
    → build_icrp_avps b.local_sid a.local_sid (call_args b) ≡ ok icrp
    → build_iccn_avps a.local_sid b.local_sid (call_args a) ≡ ok iccn
    → let (a1, sent_a1) = on_tunnel_established (new_fsm a) in
      let (b1, sent_b1) = on_message icrq (new_fsm b) in
      let (a2, sent_a2) = on_message icrp a1 in
      let (b2, sent_b2) = on_message iccn b1 in
      (sent_a1 ≡ ok (send_message icrq ∷ []))
      × (sent_b1 ≡ ok (send_message icrp ∷ []))
      × (sent_a2
          ≡ ok (
              send_message iccn ∷ dataplane_add_session (netdev_to a b) ∷ session_established ∷ []))
      × (sent_b2 ≡ ok (dataplane_add_session (netdev_to b a) ∷ session_established ∷ []))
      × (a2 ≡ session_joined a b)
      × (b2 ≡ session_joined b a)
handshake-session_joined a b icrq icrp iccn i ea eb ec =
    rw
      (
        icrq_sent a icrq i ea,
        icrq_answered b a icrq icrp ea eb,
        icrp_answered a b icrp iccn eb ec,
        iccn_accepted b a iccn ec,
        dataplane_params-session_joined a b,
        dataplane_params-session_joined b a,
      )
      (refl, refl, refl, refl, refl, refl)
