-- ===== src/TunnelFsm/Signals.antt =====
-- What the tunnel state machine tells the outer world, and its timer.
use xcesp_l2tpv3d.Common.{ℕ, Bool, true, false, ◌≡◌, arith, List, [], ◌∷◌}
use xcesp_l2tpv3d.Exception.{ok, err}
use xcesp_l2tpv3d.Avp.{Avp}
use xcesp_l2tpv3d.TunnelFsm.{
  TunnelState, established, Reason, Action, set_hello_timer, clear_hello_timer, now_established,
  torn_down, TunnelFsm, Outcome, teardown, on_local_open, on_local_close, on_hello_timer,
  on_peer_dead, on_message, on_sccrq, on_sccrp, on_scccn, on_stopccn, Event, handle, local_open,
  hello_timer, dead, local_stop, message, local_close, peer_restart, malformed_sccrp, general_error,
}

-- Whether the tunnel is up.
abbrev pub is_up : TunnelState → Bool
is_up established = true
is_up _ = false

-- The signals fit the state: the tunnel comes up only where it is down and goes down only where
-- it is up, and ends as `after` says.
abbrev pub Signals : Bool → List Action → Bool → Type 0
Signals up [] after = up ≡ after
Signals up (now_established ∷ actions) after = (up ≡ false) × Signals true actions after
Signals up (torn_down reason ∷ actions) after = (up ≡ true) × Signals false actions after
Signals up (_ ∷ actions) after = Signals up actions after

-- Whether the HELLO timer runs after the actions.
abbrev pub armed_after : Bool → List Action → Bool
armed_after armed [] = armed
armed_after armed (set_hello_timer seconds ∷ actions) = armed_after true actions
armed_after armed (clear_hello_timer ∷ actions) = armed_after false actions
armed_after armed (_ ∷ actions) = armed_after armed actions

-- What is claimed of the outcome of an event in a state.
abbrev pub TunnelReports : TunnelState → Outcome → Type 0
TunnelReports before (fsm, err e) = fsm.state ≡ before
TunnelReports before (fsm, ok actions) =
    Signals (is_up before) actions (is_up fsm.state)
    × (armed_after (is_up before) actions ≡ is_up fsm.state)

teardown-TunnelReports :
    (code : ℕ) (reason : Reason) (fsm : TunnelFsm)
    → TunnelReports fsm.state (teardown code reason fsm)
unfolding teardown
teardown-TunnelReports code reason fsm = ground arith

on_local_open-TunnelReports : (fsm : TunnelFsm) → TunnelReports fsm.state (on_local_open fsm)
unfolding on_local_open
on_local_open-TunnelReports fsm = ground arith

on_local_close-TunnelReports :
    (code : ℕ) (fsm : TunnelFsm) → TunnelReports fsm.state (on_local_close code fsm)
unfolding on_local_close
on_local_close-TunnelReports code fsm = ground (arith, teardown-TunnelReports code local_close fsm)

on_hello_timer-TunnelReports : (fsm : TunnelFsm) → TunnelReports fsm.state (on_hello_timer fsm)
unfolding on_hello_timer
on_hello_timer-TunnelReports fsm = ground arith

on_peer_dead-TunnelReports : (fsm : TunnelFsm) → TunnelReports fsm.state (on_peer_dead fsm)
unfolding on_peer_dead
on_peer_dead-TunnelReports fsm = ground arith

on_sccrq-TunnelReports :
    (avps : List Avp) (fsm : TunnelFsm) → TunnelReports fsm.state (on_sccrq avps fsm)
unfolding on_sccrq
on_sccrq-TunnelReports avps fsm =
    ground (arith, teardown-TunnelReports general_error peer_restart fsm)

on_sccrp-TunnelReports :
    (avps : List Avp) (fsm : TunnelFsm) → TunnelReports fsm.state (on_sccrp avps fsm)
unfolding on_sccrp
on_sccrp-TunnelReports avps fsm =
    ground (arith, teardown-TunnelReports general_error malformed_sccrp fsm)

on_scccn-TunnelReports : (fsm : TunnelFsm) → TunnelReports fsm.state (on_scccn fsm)
unfolding on_scccn
on_scccn-TunnelReports fsm = ground arith

on_stopccn-TunnelReports :
    (avps : List Avp) (fsm : TunnelFsm) → TunnelReports fsm.state (on_stopccn avps fsm)
unfolding on_stopccn
on_stopccn-TunnelReports avps fsm = ground arith

on_message-TunnelReports :
    (avps : List Avp) (fsm : TunnelFsm) → TunnelReports fsm.state (on_message avps fsm)
unfolding on_message
on_message-TunnelReports avps fsm = ground (
  arith,
  on_sccrq-TunnelReports avps fsm,
  on_sccrp-TunnelReports avps fsm,
  on_scccn-TunnelReports fsm,
  on_stopccn-TunnelReports avps fsm,
)

-- Whatever happens in whatever state, the tunnel is reported established just where it comes up
-- and torn down just where it goes down, so that the reports alternate; the HELLO timer runs
-- afterwards exactly if the tunnel is up, provided that it did before; and an event that raises
-- leaves the state.
pub handle-TunnelReports : (e : Event) (fsm : TunnelFsm) → TunnelReports fsm.state (handle e fsm)
handle-TunnelReports local_open fsm = on_local_open-TunnelReports fsm
handle-TunnelReports hello_timer fsm = on_hello_timer-TunnelReports fsm
handle-TunnelReports dead fsm = on_peer_dead-TunnelReports fsm
handle-TunnelReports (local_stop result_code) fsm = on_local_close-TunnelReports result_code fsm
handle-TunnelReports (message avps) fsm = on_message-TunnelReports avps fsm
