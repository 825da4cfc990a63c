-- ===== src/Tunnel/Identity.antt =====
-- No method of `Tunnel` in xcesp_l2tpv3d/main.py changes its configuration or the address of its
-- peer.
use xcesp_l2tpv3d.Common.{ℕ, refl, ap, List, [], ◌∷◌}
use xcesp_l2tpv3d.Exception.{Result, ok, err, is_value_error}
use xcesp_l2tpv3d.Struct.{Bytes}
use xcesp_l2tpv3d.Crypto.{Crypto}
use xcesp_l2tpv3d.Avp.{Avp}
use xcesp_l2tpv3d.Message.{ControlMessage}
use xcesp_l2tpv3d.TunnelMessage.{get_message_type}
use xcesp_l2tpv3d.Peer.{SockAddr, receive}
use xcesp_l2tpv3d.Dataplane.Interface.{Dataplane}
use xcesp_l2tpv3d.TunnelFsm as TunnelFsm
use xcesp_l2tpv3d.TunnelFsm.{TunnelFsm, on_local_open, on_local_close, on_hello_timer, on_peer_dead}
use xcesp_l2tpv3d.SessionFsm.{on_tunnel_established, on_tunnel_down}
use xcesp_l2tpv3d.Config.{TunnelConfigEntry}
use xcesp_l2tpv3d.Tunnel.{Tunnel}
use xcesp_l2tpv3d.Tunnel.Effect.{Method, pure, raise}
use xcesp_l2tpv3d.Tunnel.Execute.{fire_tunnel, tunnel_action, tunnel_actions, transmit}
use xcesp_l2tpv3d.Tunnel.Dispatch.{
  start, close, hello_timer, handle_datagram, handle_message, handle_delivered, tick_tunnel,
  or_return, respond,
}
use xcesp_l2tpv3d.Tunnel.Fixed.{
  Fixes, Fixes-bind, Fixes-pure, Fixes-raise, Fixes-gets, Fixes-lift, Fixes-modify, Fixes-if,
  Fixes-for_each, fixed_rules, core, send_avps-core, each_session-core, drop_tunnel_dataplane-core,
  dispatch_session_message-core, learn_remote_ccid-core, respond-core,
}
use xcesp_l2tpv3d.Tunnel.Armed.{Input, started, closed, timer_fired, received, ticked, run}

abbrev pub identity : Tunnel → TunnelConfigEntry × SockAddr
identity t = (t.cfg, t.remote_addr)

core-identity : {S A : Type 0} (m : Method S A) → Fixes core m → Fixes identity m
core-identity m h = record { fixed = λ t. ap (λ k. (k.cfg, k.remote_addr)) (h.fixed t) }

fire_tunnel-identity :
    {S : Type 0} (handler : TunnelFsm → TunnelFsm.Outcome)
    → Fixes {S = S} identity (fire_tunnel handler)
unfolding fire_tunnel
fire_tunnel-identity handler = record { fixed = λ t. refl }

module _ {S : Type 0} ⦃c : Crypto⦄ ⦃d : Dataplane S⦄ where
  tunnel_action-identity :
      (action : TunnelFsm.Action) → Fixes {S = S} identity (tunnel_action action)
  tunnel_action-identity (TunnelFsm.send_message avps) = core-identity _ (send_avps-core avps)
  tunnel_action-identity (TunnelFsm.set_hello_timer wait) = search fixed_rules depth 8
  tunnel_action-identity TunnelFsm.clear_hello_timer = search fixed_rules depth 8
  tunnel_action-identity TunnelFsm.now_established =
      core-identity _ (each_session-core on_tunnel_established)
  tunnel_action-identity (TunnelFsm.torn_down reason) =
      core-identity _
        (Fixes-bind core _ _ (each_session-core on_tunnel_down) (λ u. drop_tunnel_dataplane-core))

  tunnel_actions-identity :
      (actions : List TunnelFsm.Action) → Fixes {S = S} identity (tunnel_actions actions)
  unfolding tunnel_actions
  tunnel_actions-identity actions =
      Fixes-for_each identity tunnel_action actions tunnel_action-identity

  start-identity : Fixes {S = S} identity start
  unfolding start
  start-identity = search (fixed_rules, fire_tunnel-identity, tunnel_actions-identity) depth 8

  close-identity : Fixes {S = S} identity close
  unfolding close
  close-identity = search (fixed_rules, fire_tunnel-identity, tunnel_actions-identity) depth 8

  hello_timer-identity : Fixes {S = S} identity hello_timer
  unfolding hello_timer
  hello_timer-identity = search (fixed_rules, fire_tunnel-identity, tunnel_actions-identity) depth 8

  transmit-identity : (wire : Bytes) → Fixes {S = S} identity (transmit wire)
  transmit-identity wire = search fixed_rules depth 4

  pub tick_tunnel-identity : (now : ℕ) → Fixes {S = S} identity (tick_tunnel now)
  unfolding tick_tunnel
  tick_tunnel-identity now =
      search
        (
          fixed_rules, fire_tunnel-identity, tunnel_actions-identity, Fixes-for_each,
          transmit-identity,
        )
        depth 14

  handle_delivered-identity : (avps : List Avp) → Fixes {S = S} identity (handle_delivered avps)
  unfolding handle_delivered
  handle_delivered-identity [] = Fixes-pure identity tt
  handle_delivered-identity (a ∷ avps) =
      Fixes-bind identity _ _ (Fixes-lift identity (get_message_type (a ∷ avps))) (λ mt.
        Fixes-if identity _ _ _ (core-identity _ (dispatch_session_message-core (a ∷ avps) _)) (
          Fixes-bind identity _ _ (fire_tunnel-identity (TunnelFsm.on_message (a ∷ avps)))
            (λ actions. tunnel_actions-identity actions)))

  handle_message-identity : (msg : ControlMessage) → Fixes {S = S} identity (handle_message msg)
  unfolding handle_message
  handle_message-identity msg =
      Fixes-bind identity _ _
        (Fixes-modify identity _
          (λ (s, t). ap (λ k. (k.cfg, k.remote_addr)) (learn_remote_ccid-core msg.avps t)))
        (λ done. Fixes-bind identity _ _ (Fixes-gets identity _) (λ p.
          Fixes-bind identity _ _ (Fixes-modify identity _ (λ t. refl)) (λ stored.
            Fixes-bind identity _ _ (core-identity _ (Fixes-for_each core respond _ respond-core))
              (λ sent. handle_delivered-identity (receive msg p).0))))

  or_return-identity :
      {A : Type 0} (r : Result A) (k : A → Method S (Unit {0}))
      → ((a : A) → Fixes identity (k a))
      → Fixes identity (or_return r k)
  or_return-identity (ok a) k h = h a
  or_return-identity (err e) k h =
      Fixes-if identity (is_value_error e) (pure tt) (raise e) (Fixes-pure identity tt)
        (Fixes-raise identity e)

  pub handle_datagram-identity : (buf : Bytes) → Fixes {S = S} identity (handle_datagram buf)
  unfolding handle_datagram
  handle_datagram-identity buf =
      Fixes-bind identity _ _ (Fixes-gets identity _)
        (λ received. or_return-identity received handle_message handle_message-identity)

  -- The same of whatever the event loop calls.
  pub run-identity : (i : Input) → Fixes {S = S} identity (run i)
  run-identity started = start-identity
  run-identity closed = close-identity
  run-identity timer_fired = hello_timer-identity
  run-identity (received buf) = handle_datagram-identity buf
  run-identity (ticked now) =
      Fixes-bind identity _ _ (tick_tunnel-identity now) (λ dead. Fixes-pure identity tt)
