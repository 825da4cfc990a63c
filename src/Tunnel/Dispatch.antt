-- ===== src/Tunnel/Dispatch.antt =====
-- `Tunnel.start`, `close`, `handle_datagram`, `_dispatch_session_message`, `tick` and
-- `_on_hello_timer` of xcesp_l2tpv3d/main.py.
use xcesp_l2tpv3d.Common.{
  ℕ, Bool, true, false, Option, none, some, List, [], ◌∷◌, ◌==◌, if◌then◌else◌,
}
use xcesp_l2tpv3d.Exception.{Result, ok, err, is_value_error}
use xcesp_l2tpv3d.Struct.{Bytes, unpack_u32}
use xcesp_l2tpv3d.Crypto.{Crypto}
use xcesp_l2tpv3d.Avp.{Avp, find_avp, vendor_ietf}
use xcesp_l2tpv3d.AttrType
use xcesp_l2tpv3d.Auth.{digest_hash_number}
use xcesp_l2tpv3d.Message.{ControlMessage, encode_message, decode_message}
use xcesp_l2tpv3d.Signing.{decode_and_verify}
use xcesp_l2tpv3d.TunnelMessage.{get_message_type}
use xcesp_l2tpv3d.Peer.{receive, tick, set_remote_ccid}
use xcesp_l2tpv3d.Dataplane.Interface.{Dataplane}
use xcesp_l2tpv3d.TunnelFsm.{on_local_open, on_local_close, on_hello_timer, on_peer_dead}
use xcesp_l2tpv3d.TunnelFsm as TunnelFsm
use xcesp_l2tpv3d.SessionFsm.{SessionFsm, SessionState}
use xcesp_l2tpv3d.SessionFsm as SessionFsm
use xcesp_l2tpv3d.Config.{TunnelConfigEntry}
use xcesp_l2tpv3d.Tunnel.{Tunnel}
use xcesp_l2tpv3d.Tunnel.Correlate.{is_session_type, correlation, select, index_remote}
use xcesp_l2tpv3d.Tunnel.Effect.{Method, pure, raise, lift, gets, ◌>>=◌, ◌>>◌, for_each}
use xcesp_l2tpv3d.Tunnel.Execute.{
  on_password, set_tunnel, set_peer, set_hello, transmit, fire, fire_tunnel, session_actions,
  tunnel_actions,
}

-- `ControlMessage.decode_and_verify`, if there is a password, or `ControlMessage.decode`.
module _ ⦃c : Crypto⦄ where
  abbrev pub read_message : TunnelConfigEntry → Bytes → Result ControlMessage
  read_message cfg buf =
      on_password cfg.password
        (λ secret. decode_and_verify buf (digest_hash_number cfg.digest_alg) secret)
        (decode_message none buf)

-- `assigned`, if the AVP is there, has four bytes and is not 0.
abbrev pub assigned_ccid : Option Avp → Option ℕ
assigned_ccid none = none
assigned_ccid (some a) = elim (unpack_u32 a.value) [
  | err e ↦ none
  | ok assigned ↦ if assigned == 0 then none else some assigned
]

unfoldable pub learn_remote_ccid : List Avp → Tunnel → Tunnel
learn_remote_ccid avps t =
    if t.peer.remote_ccid == 0
    then elim (assigned_ccid (find_avp avps AttrType.assigned_control_connection_id vendor_ietf)) [
      | none ↦ t
      | some assigned ↦ record t { peer = set_remote_ccid assigned t.peer }
    ]
    else t

-- `except ValueError`: the method ends; another exception goes on to the caller.
abbrev pub or_return : {S A : Type 0} → Result A → (A → Method S (Unit {0})) → Method S (Unit {0})
or_return (ok a) k = k a
or_return (err e) k = if is_value_error e then pure tt else raise e

module _ {S : Type 0} ⦃c : Crypto⦄ ⦃d : Dataplane S⦄ where
  -- `start`
  unfoldable pub start : Method S (Unit {0})
  start = do actions ← fire_tunnel on_local_open; tunnel_actions actions

  -- `close`, with the result code that `on_local_close` has by default.
  unfoldable pub close : Method S (Unit {0})
  close = do
    actions ← fire_tunnel (on_local_close TunnelFsm.admin_shutdown)
    tunnel_actions actions
    set_hello none

  -- `_on_hello_timer`
  unfoldable pub hello_timer : Method S (Unit {0})
  hello_timer = do set_hello none; actions ← fire_tunnel on_hello_timer; tunnel_actions actions

  -- `_dispatch_session_message`
  unfoldable pub dispatch_session_message : List Avp → ℕ → Method S (Unit {0})
  dispatch_session_message avps mt = or_return (correlation avps mt) (λ found. (do
    target ← gets (λ (s, t). select mt found t)
    elim target [
      | none ↦ pure tt
      | some sid ↦ (do
        actions ← fire (SessionFsm.on_message avps) sid
        set_tunnel (index_remote sid)
        session_actions actions)
    ]))

  -- The end of `handle_datagram`, for the AVPs that the peer delivers.
  unfoldable pub handle_delivered : List Avp → Method S (Unit {0})
  handle_delivered [] = pure tt
  handle_delivered (a ∷ avps) = do
    mt ← lift (get_message_type (a ∷ avps))
    (if elim mt [ none ↦ false | some n ↦ is_session_type n ]
        then dispatch_session_message (a ∷ avps) (elim mt [ none ↦ 0 | some n ↦ n ])
        else (do actions ← fire_tunnel (TunnelFsm.on_message (a ∷ avps)); tunnel_actions actions))

  -- `for resp in responses`: an acknowledgement is not signed.
  abbrev pub respond : ControlMessage → Method S (Unit {0})
  respond response = do wire ← lift (encode_message none none response); transmit wire

  unfoldable pub handle_message : ControlMessage → Method S (Unit {0})
  handle_message msg = do
    set_tunnel (learn_remote_ccid msg.avps)
    p ← gets (λ (s, t). t.peer)
    let (delivered, responses, after) = receive msg p
    set_peer after
    for_each respond responses
    handle_delivered delivered

  -- `handle_datagram`
  unfoldable pub handle_datagram : Bytes → Method S (Unit {0})
  handle_datagram buf = do
    received ← gets (λ (s, t). read_message t.cfg buf)
    or_return received handle_message

  -- `tick`: whether the tunnel is to be removed.
  unfoldable pub tick_tunnel : ℕ → Method S Bool
  tick_tunnel now = do
    p ← gets (λ (s, t). t.peer)
    (resends, dead, after) ← lift (tick now p)
    set_peer after
    for_each transmit resends
    (if dead
        then (do actions ← fire_tunnel on_peer_dead; tunnel_actions actions; pure true)
        else pure false)
