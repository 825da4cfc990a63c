-- ===== src/Tunnel/Routing.antt =====
-- `Tunnel._dispatch_session_message` of xcesp_l2tpv3d/main.py on the messages that a peer builds for a
-- session.
use xcesp_l2tpv3d.Common.{ℕ, ◌≤◌, true, ◌≡◌, refl, Option, none, some, List, [], ◌∷◌, arith}
use xcesp_l2tpv3d.Exception.{Result, ok}
use xcesp_l2tpv3d.Struct.{Bytes}
use xcesp_l2tpv3d.Crypto.{Crypto}
use xcesp_l2tpv3d.Avp.{Avp, find_avp}
use xcesp_l2tpv3d.MessageType
use xcesp_l2tpv3d.TunnelMessage.{get_message_type}
use xcesp_l2tpv3d.SessionMessage.{CallArgs, build_icrp_avps, build_iccn_avps, build_cdn_avps}
use xcesp_l2tpv3d.SessionMessage.Icrp.{parse_session_fields-build_icrp_avps}
use xcesp_l2tpv3d.SessionMessage.Iccn.{parse_session_fields-build_iccn_avps}
use xcesp_l2tpv3d.SessionMessage.Cdn.{parse_cdn_fields-build_cdn_avps}
use xcesp_l2tpv3d.Dataplane.Interface.{Dataplane}
use xcesp_l2tpv3d.SessionFsm.{SessionFsm}
use xcesp_l2tpv3d.SessionFsm as SessionFsm
use xcesp_l2tpv3d.Tunnel.{Shared, Tunnel, find_sid}
use xcesp_l2tpv3d.Tunnel.Effect.{Method, ◌>>=◌, ◌>>◌}
use xcesp_l2tpv3d.Tunnel.Correlate.{correlation, select, index_remote, is_session_type}
use xcesp_l2tpv3d.Tunnel.Execute.{fire, set_tunnel, session_actions}
use xcesp_l2tpv3d.Tunnel.Dispatch.{handle_delivered, dispatch_session_message}

-- A message of the peer about a session that it knows by our id.
pub data Reply : Type 0 where
  icrp iccn : CallArgs → Reply
  cdn : ℕ → Option ℕ → Bytes → Reply

abbrev pub build_reply : Reply → ℕ → ℕ → Result (List Avp)
build_reply (icrp args) theirs ours = build_icrp_avps theirs ours args
build_reply (iccn args) theirs ours = build_iccn_avps theirs ours args
build_reply (cdn result_code error_code message) theirs ours =
    build_cdn_avps theirs ours result_code error_code message

abbrev type_of : Reply → ℕ
type_of (icrp args) = MessageType.icrp
type_of (iccn args) = MessageType.iccn
type_of (cdn result_code error_code message) = MessageType.cdn

-- What is read of it.
abbrev Read : List Avp → ℕ → ℕ → ℕ → Type 0
Read avps mt theirs ours =
    (get_message_type avps ≡ ok (some mt))
    × (correlation avps mt
        ≡ ok (record { local_target = ours; remote_key = theirs; end_id = none }))

reply-Read :
    (reply : Reply) (theirs ours : ℕ) (avps : List Avp)
    → build_reply reply theirs ours ≡ ok avps
    → Read avps (type_of reply) theirs ours
unfolding correlation
reply-Read (icrp args) theirs ours avps e =
    let (fields, mt) = parse_session_fields-build_icrp_avps theirs ours args avps e in
    (mt, rw fields refl)
reply-Read (iccn args) theirs ours avps e =
    let (fields, mt) = parse_session_fields-build_iccn_avps theirs ours args avps e in
    (mt, rw fields refl)
reply-Read (cdn result_code error_code message) theirs ours avps e =
    let (fields, mt) =
      parse_cdn_fields-build_cdn_avps theirs ours result_code error_code message avps e in
    (mt, rw fields refl)

-- The session that our id names.
select_named :
    (mt ours theirs : ℕ) (t : Tunnel) (sess : SessionFsm)
    → 1 ≤ ours
    → find_sid ours t.sessions_by_local ≡ some sess
    → select mt (record { local_target = ours; remote_key = theirs; end_id = none }) t ≡ some ours
unfolding select
select_named mt ours theirs t sess low found = ground (arith, found)

session_type : (reply : Reply) → is_session_type (type_of reply) ≡ true
session_type (icrp args) = refl
session_type (iccn args) = refl
session_type (cdn result_code error_code message) = refl

module _ {S : Type 0} ⦃c : Crypto⦄ ⦃d : Dataplane S⦄ where
  -- One session handles the message, and its actions are executed.
  abbrev pub handled_by : ℕ → List Avp → Method S (Unit {0})
  handled_by sid avps = do
    actions ← fire (SessionFsm.on_message avps) sid
    set_tunnel (index_remote sid)
    session_actions actions

  dispatch_session_message-Read :
      (reply : Reply) (theirs ours : ℕ) (avps : List Avp) (s : Shared S) (t : Tunnel)
      (sess : SessionFsm)
      → 1 ≤ ours
      → find_sid ours t.sessions_by_local ≡ some sess
      → Read avps (type_of reply) theirs ours
      → dispatch_session_message avps (type_of reply) (s, t) ≡ handled_by ours avps (s, t)
  unfolding dispatch_session_message ◌>>=◌
  dispatch_session_message-Read reply theirs ours avps s t sess low found (mt, there) =
      rw
        (dispatch_session_message, there, select_named (type_of reply) ours theirs t sess low found)
        refl

  handle_delivered-Read :
      (reply : Reply) (theirs ours : ℕ) (avps : List Avp) (s : Shared S) (t : Tunnel)
      (sess : SessionFsm)
      → 1 ≤ ours
      → find_sid ours t.sessions_by_local ≡ some sess
      → Read avps (type_of reply) theirs ours
      → handle_delivered avps (s, t) ≡ handled_by ours avps (s, t)
  unfolding handle_delivered get_message_type find_avp ◌>>=◌
  handle_delivered-Read reply theirs ours [] s t sess low found r = absurd (ground (arith, r.0))
  handle_delivered-Read reply theirs ours (a ∷ avps) s t sess low found r =
      rw (handle_delivered, r.0, session_type reply)
        (dispatch_session_message-Read reply theirs ours (a ∷ avps) s t sess low found r)

  -- An ICRP, an ICCN or a CDN that a peer builds for the session that we call by this id is handled
  -- by that session, whatever state it is in, and by nothing else, if the tunnel has it.
  pub handle_delivered-build_reply :
      (reply : Reply) (theirs ours : ℕ) (avps : List Avp) (s : Shared S) (t : Tunnel)
      (sess : SessionFsm)
      → 1 ≤ ours
      → find_sid ours t.sessions_by_local ≡ some sess
      → build_reply reply theirs ours ≡ ok avps
      → handle_delivered avps (s, t) ≡ handled_by ours avps (s, t)
  handle_delivered-build_reply reply theirs ours avps s t sess low found e =
      handle_delivered-Read reply theirs ours avps s t sess low found
        (reply-Read reply theirs ours avps e)
