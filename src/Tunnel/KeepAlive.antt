-- ===== src/Tunnel/KeepAlive.antt =====
-- Every method of `Tunnel` in xcesp_l2tpv3d/main.py on a tunnel that has no sessions.
use xcesp_l2tpv3d.Common.{ℕ, ◌≡◌, refl, ap, Option, none, some, List, [], ◌∷◌}
use xcesp_l2tpv3d.Exception.{Result, ok, err, is_value_error}
use xcesp_l2tpv3d.Struct.{Bytes}
use xcesp_l2tpv3d.Crypto.{Crypto}
use xcesp_l2tpv3d.Avp.{Avp}
use xcesp_l2tpv3d.Message.{ControlMessage}
use xcesp_l2tpv3d.TunnelMessage.{get_message_type}
use xcesp_l2tpv3d.Peer.{receive}
use xcesp_l2tpv3d.Dataplane.Interface.{Dataplane}
use xcesp_l2tpv3d.TunnelFsm as TunnelFsm
use xcesp_l2tpv3d.TunnelFsm.{TunnelFsm, on_local_open, on_local_close, on_hello_timer, on_peer_dead}
use xcesp_l2tpv3d.SessionFsm.{on_tunnel_established, on_tunnel_down}
use xcesp_l2tpv3d.SessionFsm as SessionFsm
use xcesp_l2tpv3d.Tunnel.{find_sid}
use xcesp_l2tpv3d.Tunnel.Effect.{State, Method, pure, raise, ◌>>=◌, ◌>>◌, for_each}
use xcesp_l2tpv3d.Tunnel.Execute.{
  fire, session_actions, tunnel_action, tunnel_actions, transmit, set_tunnel,
}
use xcesp_l2tpv3d.Tunnel.Correlate.{index_remote, correlation}
use xcesp_l2tpv3d.Tunnel.Dispatch.{
  start, close, hello_timer, handle_datagram, handle_message, handle_delivered, tick_tunnel,
  or_return, respond, dispatch_session_message,
}
use xcesp_l2tpv3d.Tunnel.Armed.{Input, started, closed, timer_fired, received, ticked, run}
use xcesp_l2tpv3d.Tunnel.Quiet.{
  IsQuiet, Spares, still-IsQuiet, Spares-bind, Spares-pure, Spares-raise, Spares-lift, Spares-gets,
  Spares-modify, Spares-if, Spares-for_each, fire_tunnel-Spares, spares_rules,
  learn_remote_ccid-part, send_avps-Spares, each_session-Spares, drop_tunnel_dataplane-Spares,
}

module _ {S : Type 0} ⦃c : Crypto⦄ ⦃d : Dataplane S⦄ where
  tunnel_action-Spares : (action : TunnelFsm.Action) → Spares {S = S} (tunnel_action action)
  tunnel_action-Spares (TunnelFsm.send_message avps) = send_avps-Spares avps
  tunnel_action-Spares (TunnelFsm.set_hello_timer wait) = search spares_rules depth 8
  tunnel_action-Spares TunnelFsm.clear_hello_timer = search spares_rules depth 8
  tunnel_action-Spares TunnelFsm.now_established = each_session-Spares on_tunnel_established
  tunnel_action-Spares (TunnelFsm.torn_down reason) =
      Spares-bind _ _ (each_session-Spares on_tunnel_down) (λ u. drop_tunnel_dataplane-Spares)

  tunnel_actions-Spares :
      (actions : List TunnelFsm.Action) → Spares {S = S} (tunnel_actions actions)
  unfolding tunnel_actions
  tunnel_actions-Spares actions = Spares-for_each tunnel_action actions tunnel_action-Spares

  start-Spares : Spares {S = S} start
  unfolding start
  start-Spares = search (spares_rules, tunnel_actions-Spares) depth 8

  close-Spares : Spares {S = S} close
  unfolding close
  close-Spares = search (spares_rules, tunnel_actions-Spares) depth 8

  hello_timer-Spares : Spares {S = S} hello_timer
  unfolding hello_timer
  hello_timer-Spares = search (spares_rules, tunnel_actions-Spares) depth 8

  transmit-Spares : (wire : Bytes) → Spares {S = S} (transmit wire)
  transmit-Spares wire = search spares_rules depth 4

  respond-Spares : (response : ControlMessage) → Spares {S = S} (respond response)
  respond-Spares response = search spares_rules depth 8

  pub tick_tunnel-Spares : (now : ℕ) → Spares {S = S} (tick_tunnel now)
  unfolding tick_tunnel
  tick_tunnel-Spares now = search (spares_rules, tunnel_actions-Spares, transmit-Spares) depth 14

  -- No session is found, so that none has actions.
  dispatched-Spares :
      (avps : List Avp) (target : Option ℕ)
      → Spares {S = S} (elim target [
        | none ↦ pure tt
        | some sid ↦ (do
          actions ← fire (SessionFsm.on_message avps) sid
          set_tunnel (index_remote sid)
          session_actions actions)
      ])
  unfolding fire ◌>>=◌ find_sid index_remote session_actions for_each
  dispatched-Spares avps none = Spares-pure tt
  dispatched-Spares avps (some sid) = record {
    spared = λ (s, t) q. rw (fire, index_remote, q.0) refl;
  }

  or_return-Spares :
      {A : Type 0} (r : Result A) (k : A → Method S (Unit {0}))
      → ((a : A) → Spares (k a))
      → Spares (or_return r k)
  or_return-Spares (ok a) k h = h a
  or_return-Spares (err e) k h =
      Spares-if (is_value_error e) (pure tt) (raise e) (Spares-pure tt) (Spares-raise e)

  dispatch_session_message-Spares :
      (avps : List Avp) (mt : ℕ) → Spares {S = S} (dispatch_session_message avps mt)
  unfolding dispatch_session_message
  dispatch_session_message-Spares avps mt =
      or_return-Spares (correlation avps mt) _
        (λ found. Spares-bind _ _ (Spares-gets _) (λ target. dispatched-Spares avps target))

  handle_delivered-Spares : (avps : List Avp) → Spares {S = S} (handle_delivered avps)
  unfolding handle_delivered
  handle_delivered-Spares [] = Spares-pure tt
  handle_delivered-Spares (a ∷ avps) =
      Spares-bind _ _ (Spares-lift (get_message_type (a ∷ avps))) (λ mt.
        Spares-if _ _ _ (dispatch_session_message-Spares (a ∷ avps) _) (
          Spares-bind _ _ (fire_tunnel-Spares (TunnelFsm.on_message (a ∷ avps)))
            tunnel_actions-Spares))

  handle_message-Spares : (msg : ControlMessage) → Spares {S = S} (handle_message msg)
  unfolding handle_message
  handle_message-Spares msg =
      Spares-bind _ _ (Spares-modify _ (learn_remote_ccid-part msg.avps)) (λ done.
        Spares-bind _ _ (Spares-gets _) (λ p.
          Spares-bind _ _ (Spares-modify _ (λ t. refl)) (λ stored.
            Spares-bind _ _ (Spares-for_each respond _ respond-Spares)
              (λ sent. handle_delivered-Spares (receive msg p).0))))

  handle_datagram-Spares : (buf : Bytes) → Spares {S = S} (handle_datagram buf)
  unfolding handle_datagram
  handle_datagram-Spares buf =
      Spares-bind _ _ (Spares-gets _)
        (λ received. or_return-Spares received handle_message handle_message-Spares)

  run-Spares : (i : Input) → Spares {S = S} (run i)
  run-Spares started = start-Spares
  run-Spares closed = close-Spares
  run-Spares timer_fired = hello_timer-Spares
  run-Spares (received buf) = handle_datagram-Spares buf
  run-Spares (ticked now) = Spares-bind _ _ (tick_tunnel-Spares now) (λ dead. Spares-pure tt)

  -- Whatever the event loop calls on a tunnel that has no sessions and is not known to the
  -- dataplane, and whatever the peer sends it, the dataplane is as it was, and the tunnel still has no
  -- sessions and is still not known to the dataplane.
  pub run-IsQuiet :
      (i : Input) (t : State S)
      → IsQuiet t.1
      → ((run i t).0.0.dataplane ≡ t.0.dataplane) × IsQuiet (run i t).0.1
  run-IsQuiet i t q =
      let same = (run-Spares i).spared t q in
      (ap (λ p. p.dataplane) same, still-IsQuiet t (run i t).0 same q)
