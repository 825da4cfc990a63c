-- ===== src/TunnelFsm/Transition.antt =====
-- Which states of a control connection follow which.
use xcesp_l2tpv3d.Common.{
  ℕ, Bool, true, false, not, ◌⊎◌, ◌≡◌, arith, none, some, List, ◌==◌, if◌then◌else◌,
}
use xcesp_l2tpv3d.Exception.{ok, err}
use xcesp_l2tpv3d.Avp.{Avp}
use xcesp_l2tpv3d.MessageType
use xcesp_l2tpv3d.TunnelMessage.{get_message_type}
use xcesp_l2tpv3d.TunnelFsm.{
  TunnelState, idle, wait_ctl_reply, wait_ctl_conn, established, send_stopccn, TunnelFsm, teardown,
  on_local_open, on_local_close, on_hello_timer, on_peer_dead, on_message, on_sccrq, on_sccrp,
  on_scccn, on_stopccn, Event, handle, local_open, hello_timer, dead, local_stop, message,
}

-- The events of the module's documentation.
pub data EventName : Type 0 where
  open_event close_event timer_event dead_event : EventName
  rx_sccrq rx_sccrp rx_scccn rx_stopccn rx_other : EventName

abbrev pub message_name : ℕ → EventName
message_name mt =
    if mt == MessageType.sccrq
    then rx_sccrq
    else if mt == MessageType.sccrp
    then rx_sccrp
    else if mt == MessageType.scccn
    then rx_scccn
    else if mt == MessageType.stop_ccn
    then rx_stopccn
    else rx_other

abbrev pub name_of : Event → EventName
name_of local_open = open_event
name_of hello_timer = timer_event
name_of dead = dead_event
name_of (local_stop result_code) = close_event
name_of (message avps) = elim (get_message_type avps) [
  | err e ↦ rx_other
  | ok none ↦ rx_other
  | ok (some mt) ↦ message_name mt
]

abbrev is_idle : TunnelState → Bool
is_idle idle = true
is_idle _ = false

-- The transitions that section 7.2.1 of RFC 3931 has for an event, beside staying.
abbrev pub leads : TunnelState → EventName → TunnelState → Bool
leads idle open_event wait_ctl_reply = true
leads idle rx_sccrq wait_ctl_conn = true
leads wait_ctl_reply rx_sccrp established = true
leads wait_ctl_conn rx_scccn established = true
leads wait_ctl_reply rx_sccrp send_stopccn = true
leads before rx_sccrq send_stopccn = not (is_idle before)
leads before close_event send_stopccn = not (is_idle before)
leads before rx_stopccn idle = not (is_idle before)
leads before dead_event idle = not (is_idle before)
leads _ _ _ = false

-- An event leads from a state to another.
abbrev pub Leads : TunnelState → EventName → TunnelState → Type 0
Leads before e after = (after ≡ before) ⊎ (leads before e after ≡ true)

on_sccrq-Leads :
    (avps : List Avp) (fsm : TunnelFsm) → Leads fsm.state rx_sccrq (on_sccrq avps fsm).0.state
unfolding on_sccrq teardown
on_sccrq-Leads avps fsm = ground arith

on_sccrp-Leads :
    (avps : List Avp) (fsm : TunnelFsm) → Leads fsm.state rx_sccrp (on_sccrp avps fsm).0.state
unfolding on_sccrp teardown
on_sccrp-Leads avps fsm = ground arith

on_scccn-Leads : (fsm : TunnelFsm) → Leads fsm.state rx_scccn (on_scccn fsm).0.state
unfolding on_scccn
on_scccn-Leads fsm = ground arith

on_stopccn-Leads :
    (avps : List Avp) (fsm : TunnelFsm) → Leads fsm.state rx_stopccn (on_stopccn avps fsm).0.state
unfolding on_stopccn
on_stopccn-Leads avps fsm = ground arith

-- An event leads only to the states that the table has for its name: a control connection comes
-- up by an SCCRP that answers an SCCRQ of its own or by an SCCCN that answers an SCCRP of its own,
-- and by nothing else.
pub handle-Leads :
    (e : Event) (fsm : TunnelFsm) → Leads fsm.state (name_of e) (handle e fsm).0.state
unfolding on_local_open on_hello_timer on_peer_dead on_local_close teardown on_message
handle-Leads local_open fsm = ground arith
handle-Leads hello_timer fsm = ground arith
handle-Leads dead fsm = ground arith
handle-Leads (local_stop result_code) fsm = ground arith
handle-Leads (message avps) fsm = ground (
  arith,
  on_sccrq-Leads avps fsm,
  on_sccrp-Leads avps fsm,
  on_scccn-Leads fsm,
  on_stopccn-Leads avps fsm,
)
