-- ===== src/TunnelFsm/Returns.antt =====
-- With a valid configuration no event makes the tunnel state machine raise, but for a message whose
-- type cannot be read.
use xcesp_l2tpv3d.Common.{
  ℕ, Bool, true, false, ◌≡◌, ◌<◌, ◌^◌, refl, arith, Option, none, some, List, [], ◌∷◌, All,
}
use xcesp_l2tpv3d.Exception.{Result, ok, err}
use xcesp_l2tpv3d.Struct.{pack_u16, pack_u32}
use xcesp_l2tpv3d.Avp.{Avp}
use xcesp_l2tpv3d.MessageType
use xcesp_l2tpv3d.Attribute.Build.{
  build_message_type, build_router_id, build_assigned_control_connection_id, pack_capabilities,
  build_pseudowire_capabilities_list, build_receive_window_size, build_firmware_revision,
  build_result_code, error_part,
}
use xcesp_l2tpv3d.TunnelMessage.{
  mandatory_sccrx_avps, build_sccrx_avps, append_optional, build_sccrq_avps, build_sccrp_avps,
  build_scccn_avps, build_hello_avps, build_stopccn_avps, get_message_type,
}
use xcesp_l2tpv3d.TunnelMessage.Errors.{parse_sccrx_fields-Safe, parse_stopccn_fields-Safe}
use xcesp_l2tpv3d.TunnelFsm.{
  TunnelConfig, TunnelFsm, sccrx_args, teardown, general_error, Reason, local_close, on_local_open,
  on_local_close, on_hello_timer, on_peer_dead, on_message, on_sccrq, on_sccrp, on_scccn,
  on_stopccn, Event, handle, local_open, hello_timer, dead, local_stop, message, peer_restart,
  malformed_sccrp,
}

abbrev pub is_ok {ℓ} : {A : Type ℓ} → Result A → Bool
is_ok (ok a) = true
is_ok (err e) = false

abbrev pub FitsU16 : Option ℕ → Type 0
FitsU16 none = Unit
FitsU16 (some v) = v < 2 ^ 16

-- The numbers fit their AVPs.
pub record IsValid (config : TunnelConfig) : Type 0 where
  pub router_id_fits : config.router_id < 2 ^ 32
  pub ccid_fits : config.local_ccid < 2 ^ 32
  pub some_capability : (t : ℕ) × (ts : List ℕ) × (config.pw_capabilities ≡ t ∷ ts)
  pub capabilities_fit : All (λ t. t < 2 ^ 16) config.pw_capabilities
  pub window_fits : config.receive_window < 2 ^ 16
  pub firmware_fits : FitsU16 config.firmware_revision

pack_capabilities-ok :
    (ts : List ℕ) → All (λ t. t < 2 ^ 16) ts → is_ok (pack_capabilities ts) ≡ true
unfolding pack_capabilities pack_u16
pack_capabilities-ok [] h = refl
pack_capabilities-ok (t ∷ ts) h = ground (arith, pack_capabilities-ok ts h.1)

sccrx-ok :
    (mt : ℕ) (config : TunnelConfig)
    → mt < 2 ^ 16
    → IsValid config
    → is_ok (build_sccrx_avps mt (sccrx_args config)) ≡ true
unfolding build_sccrx_avps mandatory_sccrx_avps append_optional build_message_type build_router_id
    build_assigned_control_connection_id build_pseudowire_capabilities_list
    build_receive_window_size build_firmware_revision pack_u16 pack_u32
sccrx-ok mt config h v =
    let (t, ts, e) = v.some_capability in
    ground
      (arith, e, pack_capabilities-ok config.pw_capabilities v.capabilities_fit, v.firmware_fits)

pub stopccn-ok :
    (config : TunnelConfig) (code : ℕ)
    → code < 2 ^ 16
    → IsValid config
    → is_ok (build_stopccn_avps config.local_ccid code none []) ≡ true
unfolding build_stopccn_avps build_message_type build_assigned_control_connection_id
    build_result_code error_part pack_u16 pack_u32
stopccn-ok config code h v = ground arith

hello-ok : is_ok build_hello_avps ≡ true
unfolding build_hello_avps build_message_type pack_u16
hello-ok = refl

scccn-ok : is_ok build_scccn_avps ≡ true
unfolding build_scccn_avps build_message_type pack_u16
scccn-ok = refl

teardown-ok :
    (code : ℕ) (reason : Reason) (fsm : TunnelFsm)
    → code < 2 ^ 16
    → IsValid fsm.config
    → is_ok (teardown code reason fsm).1 ≡ true
unfolding teardown
teardown-ok code reason fsm h v = ground (arith, stopccn-ok fsm.config code h v)

on_sccrq-ok :
    (avps : List Avp) (fsm : TunnelFsm) → IsValid fsm.config → is_ok (on_sccrq avps fsm).1 ≡ true
unfolding on_sccrq build_sccrp_avps
on_sccrq-ok avps fsm v = ground (
  arith,
  sccrx-ok MessageType.sccrp fsm.config (omega arith) v,
  (parse_sccrx_fields-Safe avps).only,
  teardown-ok general_error peer_restart fsm (omega arith) v,
)

on_sccrp-ok :
    (avps : List Avp) (fsm : TunnelFsm) → IsValid fsm.config → is_ok (on_sccrp avps fsm).1 ≡ true
unfolding on_sccrp
on_sccrp-ok avps fsm v = ground (
  arith,
  scccn-ok,
  (parse_sccrx_fields-Safe avps).only,
  teardown-ok general_error malformed_sccrp fsm (omega arith) v,
)

on_scccn-ok : (fsm : TunnelFsm) → is_ok (on_scccn fsm).1 ≡ true
unfolding on_scccn
on_scccn-ok fsm = ground arith

on_stopccn-ok : (avps : List Avp) (fsm : TunnelFsm) → is_ok (on_stopccn avps fsm).1 ≡ true
unfolding on_stopccn
on_stopccn-ok avps fsm = ground (arith, (parse_stopccn_fields-Safe avps).only)

-- What an event asks for: a result code of 16 bits, a message whose type can be read.
abbrev pub IsReadable : Event → Type 0
IsReadable (local_stop code) = code < 2 ^ 16
IsReadable (message avps) = is_ok (get_message_type avps) ≡ true
IsReadable _ = Unit

-- A machine with a valid configuration answers every event, in every state, with actions.
pub handle-is_ok :
    (e : Event) (fsm : TunnelFsm)
    → IsValid fsm.config
    → IsReadable e
    → is_ok (handle e fsm).1 ≡ true
unfolding on_local_open on_hello_timer on_peer_dead on_local_close on_message build_sccrq_avps
handle-is_ok local_open fsm v h =
    ground (arith, sccrx-ok MessageType.sccrq fsm.config (omega arith) v)
handle-is_ok hello_timer fsm v h = ground (arith, hello-ok)
handle-is_ok dead fsm v h = ground arith
handle-is_ok (local_stop code) fsm v h = ground (arith, teardown-ok code local_close fsm h v)
handle-is_ok (message avps) fsm v h =
    ground (
      arith,
      on_sccrq-ok avps fsm v,
      on_sccrp-ok avps fsm v,
      on_scccn-ok fsm,
      on_stopccn-ok avps fsm,
    )
