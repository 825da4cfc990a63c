-- ===== src/SessionFsm.antt =====
-- xcesp_l2tpv3d/session_fsm.py: the state machine of a session. An operation gives the state after
-- it and the actions, or the exception that it raises: the state may have changed before that.
pub mod Signals
pub mod Handshake
use xcesp_l2tpv3d.Common.{
  ℕ, Bool, true, false, not, Option, none, some, List, [], ◌∷◌, ◌++◌, ◌==◌, if◌then◌else◌,
}
use xcesp_l2tpv3d.Exception.{Error, Result, ok, err, is_value_error}
use xcesp_l2tpv3d.Struct.{Bytes}
use xcesp_l2tpv3d.Avp.{Avp}
use xcesp_l2tpv3d.MessageType
use xcesp_l2tpv3d.Dataplane.{
  SessionParams, IfName, named, l2tpeth, default_sublayer, no_sublayer, ethernet, ethernet_vlan,
  L2SpecType, Pseudowire,
}
use xcesp_l2tpv3d.TunnelMessage.{get_message_type}
use xcesp_l2tpv3d.SessionMessage.{
  CallArgs, SessionFields, CdnFields, build_icrq_avps, build_icrp_avps, build_iccn_avps,
  build_cdn_avps, parse_session_fields, parse_cdn_fields,
}
use xcesp_l2tpv3d.TunnelFsm.{general_error, admin_shutdown}

pub data SessionState : Type 0 where
  idle wait_session_reply wait_session_connect established send_cdn : SessionState

-- The `reason` of `SessionTornDown`: one constructor for each text.
pub data Reason : Type 0 where
  local_close tunnel_down icrq_in_use malformed_icrp sid_mismatch malformed_iccn : Reason
  peer_cdn_unparseable : Reason
  peer_cdn : CdnFields → Reason

pub data Action : Type 0 where
  send_message : List Avp → Action
  dataplane_add_session : SessionParams → Action
  dataplane_del_session : ℕ → ℕ → Action
  session_established : Action
  session_torn_down : Reason → Action

pub record SessionConfig : Type 0 where
  pub name : Bytes
  pub local_ccid : ℕ
  pub local_sid : ℕ
  pub pseudowire_type : ℕ
  pub initiator : Bool
  pub l2_specific_sublayer : ℕ
  pub data_sequencing : ℕ
  pub circuit_status : ℕ
  pub cookie : Option Bytes
  pub peer_cookie : Option Bytes
  pub tx_connect_speed : Option ℕ
  pub rx_connect_speed : Option ℕ
  pub ifname : Option Bytes

pub record SessionFsm : Type 0 where
  pub config : SessionConfig
  pub state : SessionState
  pub peer_sid : ℕ
  pub peer_cookie_learned : Option Bytes

-- `SessionFSM.__init__`
abbrev pub new_fsm : SessionConfig → SessionFsm
new_fsm config = record { config = config; state = idle; peer_sid = 0; peer_cookie_learned = none }

abbrev pub Outcome : Type 0
Outcome = SessionFsm × Result (List Action)

-- `_transition`
abbrev pub transition : SessionState → SessionFsm → SessionFsm
transition new_state fsm = record fsm { state = new_state }

-- The keyword arguments that the machine takes from its configuration.
abbrev pub call_args : SessionConfig → CallArgs
call_args config = record {
  l2_specific_sublayer = config.l2_specific_sublayer;
  data_sequencing = config.data_sequencing;
  circuit_status = config.circuit_status;
  assigned_cookie = config.cookie;
  tx_connect_speed = config.tx_connect_speed;
  rx_connect_speed = config.rx_connect_speed;
}

-- What follows a build: the exception, or the state and the actions for the AVPs.
abbrev pub with_avps : Result (List Avp) → SessionFsm → (List Avp → Outcome) → Outcome
with_avps (err e) fsm k = (fsm, err e)
with_avps (ok avps) fsm k = k avps

-- `except ValueError`: another exception goes on to the caller.
abbrev pub catch : {V : Type 0} → Result V → SessionFsm → Outcome → (V → Outcome) → Outcome
catch (ok v) fsm handler k = k v
catch (err e) fsm handler k = if is_value_error e then handler else (fsm, err e)

-- The same around an outcome.
abbrev pub catch_outcome : Outcome → Outcome → Outcome
catch_outcome (fsm, ok actions) handler = (fsm, ok actions)
catch_outcome (fsm, err e) handler = if is_value_error e then handler else (fsm, err e)

-- The two actions that end an established session.
abbrev pub torn_down_from : SessionState → Reason → SessionConfig → List Action
torn_down_from established reason config =
    dataplane_del_session config.local_ccid config.local_sid ∷ session_torn_down reason ∷ []
torn_down_from _ reason config = []

unfoldable pub on_tunnel_established : SessionFsm → Outcome
on_tunnel_established fsm = if not fsm.config.initiator then (fsm, ok []) else elim fsm.state [
  | idle ↦
      with_avps
        (build_icrq_avps fsm.config.local_sid fsm.config.pseudowire_type (some fsm.config.name)
          (call_args fsm.config))
        fsm (λ avps. (transition wait_session_reply fsm, ok (send_message avps ∷ [])))
  | _ ↦ (fsm, ok [])
]

-- `_teardown_cdn`, and the part of `on_local_close` that follows its test.
unfoldable pub teardown_cdn : ℕ → Reason → SessionFsm → Outcome
teardown_cdn result_code reason fsm =
    with_avps (build_cdn_avps fsm.config.local_sid fsm.peer_sid result_code none []) fsm (λ avps. (
      transition send_cdn fsm,
      ok (send_message avps ∷ torn_down_from fsm.state reason fsm.config),
    ))

unfoldable pub on_local_close : ℕ → SessionFsm → Outcome
on_local_close result_code fsm = elim fsm.state [
  | idle ↦ (fsm, ok [])
  | send_cdn ↦ (fsm, ok [])
  | _ ↦ teardown_cdn result_code local_close fsm
]

unfoldable pub on_tunnel_down : SessionFsm → Outcome
on_tunnel_down fsm = elim fsm.state [
  | idle ↦ (fsm, ok [])
  | prior ↦ (transition idle fsm, ok (torn_down_from prior tunnel_down fsm.config))
]

-- `if fields.assigned_cookie is not None`
abbrev pub learned : Option Bytes → Option Bytes → Option Bytes
learned none before = before
learned (some cookie) before = some cookie

abbrev pub capture : SessionFields → SessionFsm → SessionFsm
capture fields fsm = record fsm {
  peer_sid = fields.local_sid;
  peer_cookie_learned = learned fields.assigned_cookie fsm.peer_cookie_learned;
}

-- `a or b`, where an empty value counts as none.
abbrev pub or_else : Option Bytes → Option Bytes → Option Bytes
or_else (some (b ∷ bytes)) other = some (b ∷ bytes)
or_else _ other = other

abbrev pub ifname_of : SessionConfig → IfName
ifname_of config = elim config.ifname [
  | some (b ∷ text) ↦ named (b ∷ text)
  | _ ↦ l2tpeth config.local_ccid config.local_sid
]

-- `_dataplane_params`; 4 is `PseudowireType.ETHERNET_VLAN`, 5 is `PseudowireType.ETHERNET`.
unfoldable pub dataplane_params : SessionFsm → SessionParams
dataplane_params fsm = record {
  local_ccid = fsm.config.local_ccid;
  local_sid = fsm.config.local_sid;
  remote_sid = fsm.peer_sid;
  ifname = ifname_of fsm.config;
  cookie = fsm.config.cookie;
  peer_cookie = or_else fsm.peer_cookie_learned fsm.config.peer_cookie;
  l2spec_type = if fsm.config.l2_specific_sublayer == 1 then default_sublayer else no_sublayer;
  pseudowire_type =
      if fsm.config.pseudowire_type == 5
      then ethernet
      else if fsm.config.pseudowire_type == 4
      then ethernet_vlan
      else ethernet;
}

-- `_on_icrq`
unfoldable pub on_icrq : List Avp → SessionFsm → Outcome
on_icrq avps fsm = elim fsm.state [
  | idle ↦
      catch (parse_session_fields avps) fsm (fsm, ok [])
        (λ fields.
          let known = capture fields fsm in
          with_avps (build_icrp_avps fsm.config.local_sid known.peer_sid (call_args fsm.config))
            known (λ reply. (transition wait_session_connect known, ok (send_message reply ∷ []))))
  | _ ↦ teardown_cdn general_error icrq_in_use fsm
]

-- `_on_icrp`
unfoldable pub on_icrp : List Avp → SessionFsm → Outcome
on_icrp avps fsm = elim fsm.state [
  | wait_session_reply ↦
      catch (parse_session_fields avps) fsm (teardown_cdn general_error malformed_icrp fsm)
        (λ fields.
          let known = capture fields fsm in
          with_avps (build_iccn_avps fsm.config.local_sid known.peer_sid (call_args fsm.config))
            known
            (λ reply. (
              transition established known,
              ok (
                  send_message reply
                  ∷ dataplane_add_session (dataplane_params known)
                  ∷ session_established
                  ∷ []),
            )))
  | _ ↦ (fsm, ok [])
]

-- `_on_iccn`: the teardown for a changed session id stands inside the `try`.
unfoldable pub on_iccn : List Avp → SessionFsm → Outcome
on_iccn avps fsm = elim fsm.state [
  | wait_session_connect ↦
      catch (parse_session_fields avps) fsm (teardown_cdn general_error malformed_iccn fsm)
        (λ fields.
          if not (fields.local_sid == fsm.peer_sid)
          then catch_outcome (teardown_cdn general_error sid_mismatch fsm)
              (teardown_cdn general_error malformed_iccn fsm)
          else (
            transition established fsm,
            ok (dataplane_add_session (dataplane_params fsm) ∷ session_established ∷ []),
          ))
  | _ ↦ (fsm, ok [])
]

-- The end of `_on_cdn`.
abbrev pub ended : SessionState → Reason → SessionFsm → Outcome
ended prior reason fsm = (transition idle fsm, ok (torn_down_from prior reason fsm.config))

-- `_on_cdn`
unfoldable pub on_cdn : List Avp → SessionFsm → Outcome
on_cdn avps fsm = elim fsm.state [
  | idle ↦ (fsm, ok [])
  | prior ↦
      catch (parse_cdn_fields avps) fsm (ended prior peer_cdn_unparseable fsm)
        (λ fields. ended prior (peer_cdn fields) fsm)
]

-- `on_message`, of the AVPs of the message, all that it reads of it.
unfoldable pub on_message : List Avp → SessionFsm → Outcome
on_message avps fsm = elim (get_message_type avps) [
  | err e ↦ (fsm, err e)
  | ok none ↦ (fsm, ok [])
  | ok (some mt) ↦
      if mt == MessageType.icrq
      then on_icrq avps fsm
      else if mt == MessageType.icrp
      then on_icrp avps fsm
      else if mt == MessageType.iccn
      then on_iccn avps fsm
      else if mt == MessageType.cdn
      then on_cdn avps fsm
      else (fsm, ok [])
]

-- What the caller drives the machine with.
pub data Event : Type 0 where
  tunnel_up tunnel_lost : Event
  local_stop : ℕ → Event
  message : List Avp → Event

abbrev pub handle : Event → SessionFsm → Outcome
handle tunnel_up fsm = on_tunnel_established fsm
handle tunnel_lost fsm = on_tunnel_down fsm
handle (local_stop result_code) fsm = on_local_close result_code fsm
handle (message avps) fsm = on_message avps fsm
