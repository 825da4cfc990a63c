-- ===== src/TunnelFsm/Malformed.antt =====
-- What the tunnel state machine does with a message that it cannot take apart.
use xcesp_l2tpv3d.Common.{
  ℕ, ◌<◌, ◌^◌, Bool, true, false, not, ◌||◌, ◌&&◌, ◌≡◌, ◌⊎◌, refl, sym, arith, some, Bool-cases,
  inl, inr, List, [], ◌∷◌, ◌==◌, if◌then◌else◌,
}
use mathlib.Core.Path.{subst}
use xcesp_l2tpv3d.Exception.{ok, err}
use xcesp_l2tpv3d.Avp.{Avp}
use xcesp_l2tpv3d.MessageType
use xcesp_l2tpv3d.TunnelMessage.{get_message_type, parse_sccrx_fields, parse_stopccn_fields}
use xcesp_l2tpv3d.TunnelMessage.Errors.{parse_sccrx_fields-Safe, parse_stopccn_fields-Safe}
use xcesp_l2tpv3d.TunnelFsm.{
  TunnelFsm, TunnelState, idle, wait_ctl_reply, wait_ctl_conn, established, send_stopccn, Action,
  set_hello_timer, now_established, Reason, teardown, general_error, peer_restart, malformed_sccrp,
  peer_stopccn_unparseable, stopped, Outcome, on_sccrq, on_sccrp, on_stopccn, on_message, Event,
  handle, local_open, hello_timer, dead, local_stop, message,
}
use xcesp_l2tpv3d.TunnelFsm.Returns.{is_ok, IsValid, IsReadable, stopccn-ok, handle-is_ok}

-- The fields of an SCCRQ, an SCCRP or a StopCCN cannot be parsed.
abbrev pub is_malformed : List Avp → ℕ → Bool
is_malformed avps mt =
    if mt == MessageType.sccrq || mt == MessageType.sccrp
    then not (is_ok (parse_sccrx_fields avps))
    else mt == MessageType.stop_ccn && not (is_ok (parse_stopccn_fields avps))

abbrev is_idle : TunnelState → Bool
is_idle idle = true
is_idle _ = false

-- The connection is over, or being ended.
abbrev pub is_ended : TunnelState → Bool
is_ended idle = true
is_ended send_stopccn = true
is_ended _ = false

abbrev pub is_ending : Action → Bool
is_ending (set_hello_timer wait) = false
is_ending now_established = false
is_ending _ = true

-- Actions of which none sets a timer or reports a connection.
abbrev pub all_ending : List Action → Bool
all_ending [] = true
all_ending (a ∷ actions) = is_ending a && all_ending actions

abbrev pub Ends : Outcome → Type 0
Ends (fsm, err e) = ⊥
Ends (fsm, ok actions) = (is_ended fsm.state ≡ true) × (all_ending actions ≡ true)

-- Nothing changes and nothing is done, or the connection ends.
abbrev pub Spurns : TunnelFsm → Outcome → Type 0
Spurns fsm out = (out ≡ (fsm, ok [])) ⊎ Ends out

teardown-Ends :
    (code : ℕ) (reason : Reason) (fsm : TunnelFsm)
    → code < 2 ^ 16
    → IsValid fsm.config
    → Ends (teardown code reason fsm)
unfolding teardown
teardown-Ends code reason fsm h v = ground (arith, stopccn-ok fsm.config code h v)

spurned : (fsm : TunnelFsm) (out after : Outcome) → out ≡ after → Ends after → Spurns fsm out
spurned fsm out after same e = inr (subst Ends (sym same) e)

on_sccrq-Spurns :
    (avps : List Avp) (fsm : TunnelFsm)
    → IsValid fsm.config
    → is_ok (parse_sccrx_fields avps) ≡ false
    → Spurns fsm (on_sccrq avps fsm)
unfolding on_sccrq
on_sccrq-Spurns avps fsm v bad = by_state fsm.state refl
  where
    ends : (s : TunnelState) → fsm.state ≡ s → is_idle s ≡ false → Spurns fsm (on_sccrq avps fsm)
    ends s h busy =
        spurned fsm _ (teardown general_error peer_restart fsm) (ground (arith, h, busy))
          (teardown-Ends general_error peer_restart fsm (omega arith) v)

    by_state : (s : TunnelState) → fsm.state ≡ s → Spurns fsm (on_sccrq avps fsm)
    by_state idle h = inl (ground (arith, h, bad, (parse_sccrx_fields-Safe avps).only))
    by_state wait_ctl_reply h = ends wait_ctl_reply h refl
    by_state wait_ctl_conn h = ends wait_ctl_conn h refl
    by_state established h = ends established h refl
    by_state send_stopccn h = ends send_stopccn h refl

on_sccrp-Spurns :
    (avps : List Avp) (fsm : TunnelFsm)
    → IsValid fsm.config
    → is_ok (parse_sccrx_fields avps) ≡ false
    → Spurns fsm (on_sccrp avps fsm)
unfolding on_sccrp
on_sccrp-Spurns avps fsm v bad = by_state fsm.state refl
  where
    by_state : (s : TunnelState) → fsm.state ≡ s → Spurns fsm (on_sccrp avps fsm)
    by_state wait_ctl_reply h =
        spurned fsm _ (teardown general_error malformed_sccrp fsm)
          (ground (arith, h, bad, (parse_sccrx_fields-Safe avps).only))
          (teardown-Ends general_error malformed_sccrp fsm (omega arith) v)
    by_state idle h = inl (ground (arith, h))
    by_state wait_ctl_conn h = inl (ground (arith, h))
    by_state established h = inl (ground (arith, h))
    by_state send_stopccn h = inl (ground (arith, h))

stopped-Ends :
    (prior : TunnelState) (reason : Reason) (fsm : TunnelFsm) → Ends (stopped prior reason fsm)
stopped-Ends prior reason fsm = ground arith

on_stopccn-Spurns :
    (avps : List Avp) (fsm : TunnelFsm)
    → is_ok (parse_stopccn_fields avps) ≡ false
    → Spurns fsm (on_stopccn avps fsm)
unfolding on_stopccn
on_stopccn-Spurns avps fsm bad = by_state fsm.state refl
  where
    ends : (s : TunnelState) → fsm.state ≡ s → is_idle s ≡ false → Spurns fsm (on_stopccn avps fsm)
    ends s h busy =
        spurned fsm _ (stopped fsm.state peer_stopccn_unparseable fsm)
          (ground (arith, h, busy, bad, (parse_stopccn_fields-Safe avps).only))
          (stopped-Ends fsm.state peer_stopccn_unparseable fsm)

    by_state : (s : TunnelState) → fsm.state ≡ s → Spurns fsm (on_stopccn avps fsm)
    by_state idle h = inl (ground (arith, h))
    by_state wait_ctl_reply h = ends wait_ctl_reply h refl
    by_state wait_ctl_conn h = ends wait_ctl_conn h refl
    by_state established h = ends established h refl
    by_state send_stopccn h = ends send_stopccn h refl

-- What is asked of a message: its type can be read, and where it is malformed it is spurned.
abbrev pub Answers : Event → TunnelFsm → Outcome → Type 0
Answers (message avps) fsm out =
    (is_ok out.1 ≡ true)
    × ((mt : ℕ)
        → get_message_type avps ≡ ok (some mt)
        → is_malformed avps mt ≡ true
        → Spurns fsm out)
Answers e fsm out = is_ok out.1 ≡ true

on_message-Spurns :
    (avps : List Avp) (mt : ℕ) (fsm : TunnelFsm)
    → IsValid fsm.config
    → get_message_type avps ≡ ok (some mt)
    → is_malformed avps mt ≡ true
    → Spurns fsm (on_message avps fsm)
unfolding on_message
on_message-Spurns avps mt fsm v typed bad = elim (Bool-cases (mt == MessageType.sccrq)) [
  | inl e ↦
      same_as (on_sccrq avps fsm) (ground (arith, typed, e))
        (on_sccrq-Spurns avps fsm v (ground (arith, bad, e)))
  | inr e1 ↦ elim (Bool-cases (mt == MessageType.sccrp)) [
    | inl e ↦
        same_as (on_sccrp avps fsm) (ground (arith, typed, e))
          (on_sccrp-Spurns avps fsm v (ground (arith, bad, e)))
    | inr e2 ↦
        let e : mt ≡ MessageType.stop_ccn = ground (arith, bad, e1, e2) in
        same_as (on_stopccn avps fsm) (ground (arith, typed, e))
          (on_stopccn-Spurns avps fsm (ground (arith, bad, e)))
  ]
]
  where
    same_as :
        (out : Outcome)
        → on_message avps fsm ≡ out
        → Spurns fsm out
        → Spurns fsm (on_message avps fsm)
    same_as out same h = subst (Spurns fsm) (sym same) h

-- A machine with a valid configuration answers every event, in every state, with actions and never
-- raises, if the result code of a local close has 16 bits and the type of a message can be read. An
-- SCCRQ, an SCCRP or a StopCCN whose fields cannot be parsed is ignored, without a change or an
-- action, or the machine goes to IDLE or SEND_STOPCCN, sets no timer and reports no connection.
pub handle-Answers :
    (e : Event) (fsm : TunnelFsm) → IsValid fsm.config → IsReadable e → Answers e fsm (handle e fsm)
handle-Answers local_open fsm v h = handle-is_ok local_open fsm v h
handle-Answers hello_timer fsm v h = handle-is_ok hello_timer fsm v h
handle-Answers dead fsm v h = handle-is_ok dead fsm v h
handle-Answers (local_stop code) fsm v h = handle-is_ok (local_stop code) fsm v h
handle-Answers (message avps) fsm v h =
    (handle-is_ok (message avps) fsm v h, λ mt. on_message-Spurns avps mt fsm v)
