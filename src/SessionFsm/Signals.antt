-- ===== src/SessionFsm/Signals.antt =====
-- What the session state machine asks of the dataplane and tells the outer world.
use xcesp_l2tpv3d.Common.{ℕ, Bool, true, false, ◌≡◌, arith, List, [], ◌∷◌}
use xcesp_l2tpv3d.Exception.{ok, err}
use xcesp_l2tpv3d.Avp.{Avp}
use xcesp_l2tpv3d.TunnelFsm.{general_error}
use xcesp_l2tpv3d.SessionFsm.{
  SessionState, established, Reason, icrq_in_use, malformed_icrp, malformed_iccn, sid_mismatch,
  local_close, Action, send_message, dataplane_add_session, dataplane_del_session,
  session_established, session_torn_down, SessionFsm, SessionConfig, Outcome, dataplane_params,
  teardown_cdn, on_tunnel_established, on_local_close, on_tunnel_down, on_icrq, on_icrp, on_iccn,
  on_cdn, on_message, Event, handle, tunnel_up, tunnel_lost, local_stop, message,
}

-- Whether the session is up.
abbrev pub is_up : SessionState → Bool
is_up established = true
is_up _ = false

-- The actions fit, where `netdev` says whether the session's netdev is there and `up` whether the
-- session was reported established: a netdev is made only where there is none, and deleted only
-- where it is; both for the session's own ids. The session is reported established only when its
-- netdev is there, and torn down only when it is gone. In the end both are as `after` says.
abbrev pub Signals : SessionConfig → Bool → Bool → List Action → Bool → Type 0
Signals config netdev up [] after = (netdev ≡ after) × (up ≡ after)
Signals config netdev up (dataplane_add_session params ∷ actions) after =
    (netdev ≡ false)
    × (params.local_ccid ≡ config.local_ccid)
    × (params.local_sid ≡ config.local_sid)
    × Signals config true up actions after
Signals config netdev up (dataplane_del_session ccid sid ∷ actions) after =
    (netdev ≡ true)
    × (ccid ≡ config.local_ccid)
    × (sid ≡ config.local_sid)
    × Signals config false up actions after
Signals config netdev up (session_established ∷ actions) after =
    (netdev ≡ true) × (up ≡ false) × Signals config netdev true actions after
Signals config netdev up (session_torn_down reason ∷ actions) after =
    (netdev ≡ false) × (up ≡ true) × Signals config netdev false actions after
Signals config netdev up (send_message avps ∷ actions) after =
    Signals config netdev up actions after

-- What is claimed of the outcome of an event in a state.
abbrev pub SessionReports : SessionFsm → Outcome → Type 0
SessionReports before (fsm, err e) = fsm.state ≡ before.state
SessionReports before (fsm, ok actions) =
    Signals before.config (is_up before.state) (is_up before.state) actions (is_up fsm.state)

teardown_cdn-SessionReports :
    (code : ℕ) (reason : Reason) (fsm : SessionFsm)
    → SessionReports fsm (teardown_cdn code reason fsm)
unfolding teardown_cdn
teardown_cdn-SessionReports code reason fsm = ground arith

on_tunnel_established-SessionReports :
    (fsm : SessionFsm) → SessionReports fsm (on_tunnel_established fsm)
unfolding on_tunnel_established
on_tunnel_established-SessionReports fsm = ground arith

on_local_close-SessionReports :
    (code : ℕ) (fsm : SessionFsm) → SessionReports fsm (on_local_close code fsm)
unfolding on_local_close
on_local_close-SessionReports code fsm =
    ground (arith, teardown_cdn-SessionReports code local_close fsm)

on_tunnel_down-SessionReports : (fsm : SessionFsm) → SessionReports fsm (on_tunnel_down fsm)
unfolding on_tunnel_down
on_tunnel_down-SessionReports fsm = ground arith

on_icrq-SessionReports :
    (avps : List Avp) (fsm : SessionFsm) → SessionReports fsm (on_icrq avps fsm)
unfolding on_icrq
on_icrq-SessionReports avps fsm =
    ground (arith, teardown_cdn-SessionReports general_error icrq_in_use fsm)

on_icrp-SessionReports :
    (avps : List Avp) (fsm : SessionFsm) → SessionReports fsm (on_icrp avps fsm)
unfolding on_icrp dataplane_params
on_icrp-SessionReports avps fsm =
    ground (arith, teardown_cdn-SessionReports general_error malformed_icrp fsm)

on_iccn-SessionReports :
    (avps : List Avp) (fsm : SessionFsm) → SessionReports fsm (on_iccn avps fsm)
unfolding on_iccn dataplane_params
on_iccn-SessionReports avps fsm = ground (
  arith,
  teardown_cdn-SessionReports general_error malformed_iccn fsm,
  teardown_cdn-SessionReports general_error sid_mismatch fsm,
)

on_cdn-SessionReports : (avps : List Avp) (fsm : SessionFsm) → SessionReports fsm (on_cdn avps fsm)
unfolding on_cdn
on_cdn-SessionReports avps fsm = ground arith

on_message-SessionReports :
    (avps : List Avp) (fsm : SessionFsm) → SessionReports fsm (on_message avps fsm)
unfolding on_message
on_message-SessionReports avps fsm = ground (
  arith,
  on_icrq-SessionReports avps fsm,
  on_icrp-SessionReports avps fsm,
  on_iccn-SessionReports avps fsm,
  on_cdn-SessionReports avps fsm,
)

-- Whatever happens in whatever state, the netdev is made just where the session comes up, before
-- that is reported, and deleted just where the session goes down, before that is reported, always
-- under the session's own ids: the netdev is there exactly while the session is up. An event that
-- raises leaves the state.
pub handle-SessionReports : (e : Event) (fsm : SessionFsm) → SessionReports fsm (handle e fsm)
handle-SessionReports tunnel_up fsm = on_tunnel_established-SessionReports fsm
handle-SessionReports tunnel_lost fsm = on_tunnel_down-SessionReports fsm
handle-SessionReports (local_stop result_code) fsm = on_local_close-SessionReports result_code fsm
handle-SessionReports (message avps) fsm = on_message-SessionReports avps fsm
