-- ===== src/TunnelFsm.antt =====
-- xcesp_l2tpv3d/tunnel_fsm.py: the state machine of a control connection. A time is a number of
-- milliseconds. An operation gives the state after it and the actions, or the exception that it
-- raises: the state may have changed before that.
pub mod Transition
pub mod Signals
pub mod Returns
pub mod Malformed
pub mod Handshake
use xcesp_l2tpv3d.Common.{
  ℕ, Bool, true, false, Option, none, some, List, [], ◌∷◌, ◌++◌, ◌==◌, if◌then◌else◌,
}
use xcesp_l2tpv3d.Exception.{Error, Result, ok, err, is_value_error}
use xcesp_l2tpv3d.Struct.{Bytes}
use xcesp_l2tpv3d.Avp.{Avp}
use xcesp_l2tpv3d.MessageType
use xcesp_l2tpv3d.TunnelMessage.{
  SccrxArgs, SccrxFields, StopCcnFields, build_sccrq_avps, build_sccrp_avps, build_scccn_avps,
  build_hello_avps, build_stopccn_avps, parse_sccrx_fields, parse_stopccn_fields, get_message_type,
}

pub data TunnelState : Type 0 where
  idle wait_ctl_reply wait_ctl_conn established send_stopccn : TunnelState

-- `ResultCode.GENERAL_ERROR` and `ResultCode.ADMIN_SHUTDOWN`
abbrev pub general_error : ℕ
general_error = 2

abbrev pub admin_shutdown : ℕ
admin_shutdown = 6

-- The `reason` of `TornDown`: one constructor for each text.
pub data Reason : Type 0 where
  local_close peer_dead peer_restart malformed_sccrp peer_stopccn_unparseable : Reason
  peer_stopccn : StopCcnFields → Reason

pub data Action : Type 0 where
  send_message : List Avp → Action
  set_hello_timer : ℕ → Action
  clear_hello_timer : Action
  now_established : Action
  torn_down : Reason → Action

pub record TunnelConfig : Type 0 where
  pub host_name : Bytes
  pub router_id : ℕ
  pub local_ccid : ℕ
  pub pw_capabilities : List ℕ
  pub receive_window : ℕ
  pub hello_interval : ℕ
  pub vendor_name : Option Bytes
  pub firmware_revision : Option ℕ

pub record TunnelFsm : Type 0 where
  pub config : TunnelConfig
  pub state : TunnelState
  pub peer_ccid : ℕ
  pub peer_host_name : Bytes
  pub peer_router_id : ℕ

-- `TunnelFSM.__init__`
abbrev pub new_fsm : TunnelConfig → TunnelFsm
new_fsm config = record {
  config = config;
  state = idle;
  peer_ccid = 0;
  peer_host_name = [];
  peer_router_id = 0;
}

abbrev pub Outcome : Type 0
Outcome = TunnelFsm × Result (List Action)

-- `_transition`
abbrev pub transition : TunnelState → TunnelFsm → TunnelFsm
transition new_state fsm = record fsm { state = new_state }

-- The arguments of `build_sccrq_avps` and `build_sccrp_avps`.
abbrev pub sccrx_args : TunnelConfig → SccrxArgs
sccrx_args config = record {
  router_id = config.router_id;
  assigned_ccid = config.local_ccid;
  host_name = config.host_name;
  pw_capabilities = config.pw_capabilities;
  receive_window = config.receive_window;
  vendor_name = config.vendor_name;
  firmware_revision = config.firmware_revision;
  auth_nonce = none;
}

-- What follows a build: the exception, or the state and the actions for the AVPs.
abbrev pub with_avps : Result (List Avp) → TunnelFsm → (List Avp → Outcome) → Outcome
with_avps (err e) fsm k = (fsm, err e)
with_avps (ok avps) fsm k = k avps

-- `if prior == TunnelState.ESTABLISHED: actions.append(TornDown(reason))`
abbrev pub torn_down_from : TunnelState → Reason → List Action
torn_down_from established reason = torn_down reason ∷ []
torn_down_from _ reason = []

unfoldable pub on_local_open : TunnelFsm → Outcome
on_local_open fsm = elim fsm.state [
  | idle ↦
      with_avps (build_sccrq_avps (sccrx_args fsm.config)) fsm
        (λ avps. (transition wait_ctl_reply fsm, ok (send_message avps ∷ [])))
  | _ ↦ (fsm, ok [])
]

-- `_teardown_and_notify`, and the part of `on_local_close` that follows its test.
unfoldable pub teardown : ℕ → Reason → TunnelFsm → Outcome
teardown result_code reason fsm =
    with_avps (build_stopccn_avps fsm.config.local_ccid result_code none []) fsm (λ avps. (
      transition send_stopccn fsm,
      ok (send_message avps ∷ clear_hello_timer ∷ torn_down_from fsm.state reason),
    ))

unfoldable pub on_local_close : ℕ → TunnelFsm → Outcome
on_local_close result_code fsm = elim fsm.state [
  | idle ↦ (fsm, ok [])
  | send_stopccn ↦ (fsm, ok [])
  | _ ↦ teardown result_code local_close fsm
]

unfoldable pub on_hello_timer : TunnelFsm → Outcome
on_hello_timer fsm = elim fsm.state [
  | established ↦
      with_avps build_hello_avps fsm
        (λ avps. (fsm, ok (send_message avps ∷ set_hello_timer fsm.config.hello_interval ∷ [])))
  | _ ↦ (fsm, ok [])
]

unfoldable pub on_peer_dead : TunnelFsm → Outcome
on_peer_dead fsm = elim fsm.state [
  | idle ↦ (fsm, ok [])
  | prior ↦ (transition idle fsm, ok (clear_hello_timer ∷ torn_down_from prior peer_dead))
]

-- `self.peer_ccid = ...` and the two assignments after it.
abbrev pub capture : SccrxFields → TunnelFsm → TunnelFsm
capture fields fsm = record fsm {
  peer_ccid = fields.assigned_ccid;
  peer_host_name = fields.host_name;
  peer_router_id = fields.router_id;
}

-- `except ValueError`: another exception goes on to the caller.
abbrev pub catch : {V : Type 0} → Result V → TunnelFsm → Outcome → (V → Outcome) → Outcome
catch (ok v) fsm handler k = k v
catch (err e) fsm handler k = if is_value_error e then handler else (fsm, err e)

-- `_on_sccrq`
unfoldable pub on_sccrq : List Avp → TunnelFsm → Outcome
on_sccrq avps fsm = elim fsm.state [
  | idle ↦
      catch (parse_sccrx_fields avps) fsm (fsm, ok [])
        (λ fields.
          let known = capture fields fsm in
          with_avps (build_sccrp_avps (sccrx_args fsm.config)) known
            (λ reply. (transition wait_ctl_conn known, ok (send_message reply ∷ []))))
  | _ ↦ teardown general_error peer_restart fsm
]

-- `_on_sccrp`
unfoldable pub on_sccrp : List Avp → TunnelFsm → Outcome
on_sccrp avps fsm = elim fsm.state [
  | wait_ctl_reply ↦
      catch (parse_sccrx_fields avps) fsm (teardown general_error malformed_sccrp fsm) (λ fields.
        let known = capture fields fsm in
        with_avps build_scccn_avps known (λ reply. (
          transition established known,
          ok (
              send_message reply
              ∷ set_hello_timer fsm.config.hello_interval
              ∷ now_established
              ∷ []),
        )))
  | _ ↦ (fsm, ok [])
]

-- `_on_scccn`
unfoldable pub on_scccn : TunnelFsm → Outcome
on_scccn fsm = elim fsm.state [
  | wait_ctl_conn ↦ (
    transition established fsm,
    ok (set_hello_timer fsm.config.hello_interval ∷ now_established ∷ []),
  )
  | _ ↦ (fsm, ok [])
]

-- The end of `_on_stopccn`.
abbrev pub stopped : TunnelState → Reason → TunnelFsm → Outcome
stopped prior reason fsm =
    (transition idle fsm, ok (clear_hello_timer ∷ torn_down_from prior reason))

-- `_on_stopccn`
unfoldable pub on_stopccn : List Avp → TunnelFsm → Outcome
on_stopccn avps fsm = elim fsm.state [
  | idle ↦ (fsm, ok [])
  | prior ↦
      catch (parse_stopccn_fields avps) fsm (stopped prior peer_stopccn_unparseable fsm)
        (λ fields. stopped prior (peer_stopccn fields) fsm)
]

-- `on_message`, of the AVPs of the message, all that it reads of it.
unfoldable pub on_message : List Avp → TunnelFsm → Outcome
on_message avps fsm = elim (get_message_type avps) [
  | err e ↦ (fsm, err e)
  | ok none ↦ (fsm, ok [])
  | ok (some mt) ↦
      if mt == MessageType.sccrq
      then on_sccrq avps fsm
      else if mt == MessageType.sccrp
      then on_sccrp avps fsm
      else if mt == MessageType.scccn
      then on_scccn fsm
      else if mt == MessageType.hello
      then (fsm, ok [])
      else if mt == MessageType.stop_ccn
      then on_stopccn avps fsm
      else (fsm, ok [])
]

-- What the caller drives the machine with.
pub data Event : Type 0 where
  local_open hello_timer dead : Event
  local_stop : ℕ → Event
  message : List Avp → Event

abbrev pub handle : Event → TunnelFsm → Outcome
handle local_open fsm = on_local_open fsm
handle hello_timer fsm = on_hello_timer fsm
handle dead fsm = on_peer_dead fsm
handle (local_stop result_code) fsm = on_local_close result_code fsm
handle (message avps) fsm = on_message avps fsm
