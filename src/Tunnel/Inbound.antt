-- ===== src/Tunnel/Inbound.antt =====
-- `Tunnel._dispatch_session_message` of xcesp_l2tpv3d/main.py on the ICRQ by which a peer opens a
-- session.
use xcesp_l2tpv3d.Common.{
  ℕ, Bool, true, false, ◌≡◌, refl, Option, none, some, List, [], ◌∷◌, arith, Bool-cases, inl, inr,
  ◌&&◌,
}
use xcesp_l2tpv3d.Exception.{ok}
use xcesp_l2tpv3d.Struct.{Bytes}
use xcesp_l2tpv3d.Crypto.{Crypto}
use xcesp_l2tpv3d.Avp.{Avp, find_avp}
use xcesp_l2tpv3d.Auth.{eq_bytes-eq, eq_bytes_refl}
use xcesp_l2tpv3d.MessageType
use xcesp_l2tpv3d.TunnelMessage.{get_message_type}
use xcesp_l2tpv3d.SessionMessage.{CallArgs, build_icrq_avps}
use xcesp_l2tpv3d.SessionMessage.Icrq.{parse_session_fields-build_icrq_avps}
use xcesp_l2tpv3d.Dataplane.Interface.{Dataplane}
use xcesp_l2tpv3d.SessionFsm.{SessionFsm, SessionState}
use xcesp_l2tpv3d.SessionFsm as SessionFsm
use xcesp_l2tpv3d.Tunnel.{Shared, Tunnel}
use xcesp_l2tpv3d.Tunnel.Effect.{Method, pure, ◌>>=◌}
use xcesp_l2tpv3d.Tunnel.Correlate.{correlation, select, find_candidate, is_idle, names}
use xcesp_l2tpv3d.Tunnel.Dispatch.{handle_delivered, dispatch_session_message}
use xcesp_l2tpv3d.Tunnel.Routing.{handled_by}

-- An idle session that the Remote End ID names, where there is one.
abbrev pub Wants : Option Bytes → SessionFsm → Type 0
Wants none sess = sess.state ≡ SessionFsm.idle
Wants (some end_id) sess = (sess.state ≡ SessionFsm.idle) × (sess.config.name ≡ end_id)

-- The session that the peer opens: the first of those that want it, if there is one.
pub data Elects (end_id : Option Bytes) : List SessionFsm → Option ℕ → Type 0 where
  nobody : Elects end_id [] none
  here :
      (sess : SessionFsm) (sessions : List SessionFsm)
      → Wants end_id sess
      → Elects end_id (sess ∷ sessions) (some sess.config.local_sid)
  later :
      (sess : SessionFsm) (sessions : List SessionFsm) (elected : Option ℕ)
      → ¬ Wants end_id sess
      → Elects end_id sessions elected
      → Elects end_id (sess ∷ sessions) elected

is_idle-eq : (s : SessionState) → is_idle s ≡ true → s ≡ SessionFsm.idle
is_idle-eq SessionFsm.idle e = refl
is_idle-eq SessionFsm.wait_session_reply e = absurd (ground (arith, e))
is_idle-eq SessionFsm.wait_session_connect e = absurd (ground (arith, e))
is_idle-eq SessionFsm.established e = absurd (ground (arith, e))
is_idle-eq SessionFsm.send_cdn e = absurd (ground (arith, e))

-- The test of the loop.
abbrev takes : Option Bytes → SessionFsm → Bool
takes end_id sess = is_idle sess.state && names end_id sess.config.name

takes-Wants :
    (end_id : Option Bytes) (sess : SessionFsm) → Wants end_id sess → takes end_id sess ≡ true
takes-Wants none sess w = rw w refl
takes-Wants (some end_id) sess (w, n) = rw (w, n) (eq_bytes_refl end_id)

Wants-takes :
    (end_id : Option Bytes) (sess : SessionFsm) → takes end_id sess ≡ true → Wants end_id sess
Wants-takes none sess e = is_idle-eq sess.state (ground (arith, e))
Wants-takes (some end_id) sess e = (
  is_idle-eq sess.state (ground (arith, e)),
  eq_bytes-eq sess.config.name end_id (ground (arith, e)),
)

takes_not :
    (end_id : Option Bytes) (sess : SessionFsm) → ¬ Wants end_id sess → takes end_id sess ≡ false
takes_not end_id sess refused = elim (Bool-cases (takes end_id sess)) [
  | inl e ↦ absurd (refused (Wants-takes end_id sess e))
  | inr e ↦ e
]

find_candidate-Elects :
    (end_id : Option Bytes) (sessions : List SessionFsm) (elected : Option ℕ)
    → Elects end_id sessions elected
    → find_candidate end_id sessions ≡ elected
unfolding find_candidate
find_candidate-Elects end_id _ _ nobody = refl
find_candidate-Elects end_id _ _ (here sess sessions w) = rw (takes-Wants end_id sess w) refl
find_candidate-Elects end_id _ _ (later sess sessions elected refused rest) =
    rw (takes_not end_id sess refused) (find_candidate-Elects end_id sessions elected rest)

-- What is read of the message.
abbrev Read : List Avp → ℕ → Option Bytes → Type 0
Read avps theirs end_id =
    (get_message_type avps ≡ ok (some MessageType.icrq))
    × (correlation avps MessageType.icrq
        ≡ ok (record { local_target = 0; remote_key = theirs; end_id = end_id }))

build_icrq_avps-Read :
    (theirs pw : ℕ) (end_id : Option Bytes) (args : CallArgs) (avps : List Avp)
    → build_icrq_avps theirs pw end_id args ≡ ok avps
    → Read avps theirs end_id
unfolding correlation
build_icrq_avps-Read theirs pw end_id args avps e =
    let (fields, mt) = parse_session_fields-build_icrq_avps theirs pw end_id args avps e in
    (mt, rw fields refl)

select-Elects :
    (theirs : ℕ) (end_id : Option Bytes) (t : Tunnel) (elected : Option ℕ)
    → Elects end_id t.sessions_by_local elected
    → select MessageType.icrq (record { local_target = 0; remote_key = theirs; end_id = end_id }) t
      ≡ elected
unfolding select
select-Elects theirs end_id t elected h = find_candidate-Elects end_id t.sessions_by_local elected h

module _ {S : Type 0} ⦃c : Crypto⦄ ⦃d : Dataplane S⦄ where
  -- The elected session handles the message; without one nothing happens.
  abbrev pub opened_by : Option ℕ → List Avp → Method S (Unit {0})
  opened_by none avps = pure tt
  opened_by (some sid) avps = handled_by sid avps

  dispatch_session_message-Elects :
      (theirs : ℕ) (end_id : Option Bytes) (avps : List Avp) (s : Shared S) (t : Tunnel)
      (elected : Option ℕ)
      → Elects end_id t.sessions_by_local elected
      → Read avps theirs end_id
      → dispatch_session_message avps MessageType.icrq (s, t) ≡ opened_by elected avps (s, t)
  unfolding dispatch_session_message ◌>>=◌
  dispatch_session_message-Elects theirs end_id avps s t none h (mt, there) =
      rw (dispatch_session_message, there, select-Elects theirs end_id t none h) refl
  dispatch_session_message-Elects theirs end_id avps s t (some sid) h (mt, there) =
      rw (dispatch_session_message, there, select-Elects theirs end_id t (some sid) h) refl

  handle_delivered-Elects :
      (theirs : ℕ) (end_id : Option Bytes) (avps : List Avp) (s : Shared S) (t : Tunnel)
      (elected : Option ℕ)
      → Elects end_id t.sessions_by_local elected
      → Read avps theirs end_id
      → handle_delivered avps (s, t) ≡ opened_by elected avps (s, t)
  unfolding handle_delivered get_message_type find_avp ◌>>=◌
  handle_delivered-Elects theirs end_id [] s t elected h r = absurd (ground (arith, r.0))
  handle_delivered-Elects theirs end_id (a ∷ avps) s t elected h r =
      rw (handle_delivered, r.0)
        (dispatch_session_message-Elects theirs end_id (a ∷ avps) s t elected h r)

  -- An ICRQ that a peer builds is handled by the first of the configured sessions that is idle,
  -- initiator or not, and that the Remote End ID names, where the ICRQ has one, and by nothing else;
  -- if there is no such session, it changes nothing and nothing is sent.
  pub handle_delivered-build_icrq_avps :
      (theirs pw : ℕ) (end_id : Option Bytes) (args : CallArgs) (avps : List Avp) (s : Shared S)
      (t : Tunnel) (elected : Option ℕ)
      → Elects end_id t.sessions_by_local elected
      → build_icrq_avps theirs pw end_id args ≡ ok avps
      → handle_delivered avps (s, t) ≡ opened_by elected avps (s, t)
  handle_delivered-build_icrq_avps theirs pw end_id args avps s t elected h e =
      handle_delivered-Elects theirs end_id avps s t elected h
        (build_icrq_avps-Read theirs pw end_id args avps e)
