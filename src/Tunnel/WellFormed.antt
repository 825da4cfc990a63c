-- ===== src/Tunnel/WellFormed.antt =====
-- Every method of `Tunnel` in xcesp_l2tpv3d/main.py leaves its `Peer` well-formed, and a tick returns.
use xcesp_l2tpv3d.Common.{
  ℕ, Bool, true, false, ◌≡◌, Option, none, some, List, [], ◌∷◌, if◌then◌else◌, arith, Bool-cases,
  Option-cases, inl, inr, ◌==◌,
}
use xcesp_l2tpv3d.Exception.{Result, ok, err, is_value_error}
use xcesp_l2tpv3d.Struct.{Bytes}
use xcesp_l2tpv3d.Crypto.{Crypto}
use xcesp_l2tpv3d.Avp.{Avp, find_avp, vendor_ietf}
use xcesp_l2tpv3d.AttrType
use xcesp_l2tpv3d.Message.{ControlMessage}
use xcesp_l2tpv3d.TunnelMessage.{get_message_type}
use xcesp_l2tpv3d.Peer.{receive}
use xcesp_l2tpv3d.Peer.Invariant.{WellFormed, receive-WellFormed}
use xcesp_l2tpv3d.Peer.Reachable.{tick-TickKeeps, Step-WellFormed, learns}
use xcesp_l2tpv3d.Dataplane.Interface.{Dataplane}
use xcesp_l2tpv3d.TunnelFsm as TunnelFsm
use xcesp_l2tpv3d.TunnelFsm.{TunnelFsm, on_local_open, on_local_close, on_hello_timer, on_peer_dead}
use xcesp_l2tpv3d.SessionFsm.{SessionFsm, on_tunnel_established, on_tunnel_down}
use xcesp_l2tpv3d.SessionFsm as SessionFsm
use xcesp_l2tpv3d.Tunnel.{Tunnel}
use xcesp_l2tpv3d.Tunnel.Effect.{State, Method, pure, raise, ◌>>=◌, ◌>>◌, for_each}
use xcesp_l2tpv3d.Tunnel.Execute.{
  fire_tunnel, fire, ensure_tunnel_dataplane, session_action, session_actions, each_session,
  drop_tunnel_dataplane, tunnel_action, tunnel_actions, transmit, set_tunnel,
}
use xcesp_l2tpv3d.Tunnel.Correlate.{index_remote, correlation}
use xcesp_l2tpv3d.Tunnel.Dispatch.{
  start, close, hello_timer, handle_datagram, handle_message, handle_delivered, tick_tunnel,
  or_return, respond, learn_remote_ccid, assigned_ccid, dispatch_session_message,
}
use xcesp_l2tpv3d.Tunnel.Armed.{Input, started, closed, timer_fired, received, ticked, run}
use xcesp_l2tpv3d.Tunnel.Reliable.{
  Keeps, Keeps-bind, Keeps-pure, Keeps-raise, Keeps-lift, Keeps-gets, Keeps-if, Keeps-for_each,
  keeps_rules, fire-Keeps, fire_tunnel-Keeps, on_dataplane-Keeps, send_avps-Keeps,
}

index_remote-peer : (sid : ℕ) (t : Tunnel) → (index_remote sid t).peer ≡ t.peer
unfolding index_remote
index_remote-peer sid t = ground arith

learn_remote_ccid-WellFormed :
    ⦃c : Crypto⦄
    → (avps : List Avp) (t : Tunnel) → WellFormed t.peer
    → WellFormed (learn_remote_ccid avps t).peer
unfolding learn_remote_ccid
learn_remote_ccid-WellFormed avps t w =
    elim (Bool-cases (t.peer.remote_ccid == 0))
      as (λ x. WellFormed (learn_remote_ccid avps t).peer) [
        | inr e ↦ rw (learn_remote_ccid, e) w
        | inl e ↦
            elim (Option-cases
                (assigned_ccid (find_avp avps AttrType.assigned_control_connection_id vendor_ietf)))
              as (λ x. WellFormed (learn_remote_ccid avps t).peer) [
                | inl h ↦ rw (learn_remote_ccid, e, h) w
                | inr (assigned, h) ↦
                    rw (learn_remote_ccid, e, h)
                      (Step-WellFormed t.peer _ w (learns t.peer assigned))
              ]
      ]

module _ {S : Type 0} ⦃c : Crypto⦄ ⦃d : Dataplane S⦄ where
  ensure_tunnel_dataplane-Keeps : Keeps {S = S} ensure_tunnel_dataplane
  unfolding ensure_tunnel_dataplane
  ensure_tunnel_dataplane-Keeps = search (keeps_rules, on_dataplane-Keeps) depth 14

  session_action-Keeps : (action : SessionFsm.Action) → Keeps {S = S} (session_action action)
  session_action-Keeps (SessionFsm.send_message avps) = send_avps-Keeps avps
  session_action-Keeps (SessionFsm.dataplane_add_session params) =
      search (keeps_rules, on_dataplane-Keeps, ensure_tunnel_dataplane-Keeps) depth 14
  session_action-Keeps (SessionFsm.dataplane_del_session ccid sid) =
      search (keeps_rules, on_dataplane-Keeps) depth 14
  session_action-Keeps SessionFsm.session_established = Keeps-pure tt
  session_action-Keeps (SessionFsm.session_torn_down reason) = Keeps-pure tt

  session_actions-Keeps :
      (actions : List SessionFsm.Action) → Keeps {S = S} (session_actions actions)
  unfolding session_actions
  session_actions-Keeps actions = Keeps-for_each session_action actions session_action-Keeps

  each_session-Keeps :
      (handler : SessionFsm → SessionFsm.Outcome) → Keeps {S = S} (each_session handler)
  unfolding each_session
  each_session-Keeps handler = Keeps-bind _ _ (Keeps-gets _) (λ sids.
      Keeps-for_each _ sids
        (λ sid. Keeps-bind _ _ (fire-Keeps handler sid) (λ actions. session_actions-Keeps actions)))

  drop_tunnel_dataplane-Keeps : Keeps {S = S} drop_tunnel_dataplane
  unfolding drop_tunnel_dataplane
  drop_tunnel_dataplane-Keeps = search (keeps_rules, on_dataplane-Keeps) depth 14

  tunnel_action-Keeps : (action : TunnelFsm.Action) → Keeps {S = S} (tunnel_action action)
  tunnel_action-Keeps (TunnelFsm.send_message avps) = send_avps-Keeps avps
  tunnel_action-Keeps (TunnelFsm.set_hello_timer wait) = search keeps_rules depth 8
  tunnel_action-Keeps TunnelFsm.clear_hello_timer = search keeps_rules depth 8
  tunnel_action-Keeps TunnelFsm.now_established = each_session-Keeps on_tunnel_established
  tunnel_action-Keeps (TunnelFsm.torn_down reason) =
      Keeps-bind _ _ (each_session-Keeps on_tunnel_down) (λ u. drop_tunnel_dataplane-Keeps)

  tunnel_actions-Keeps : (actions : List TunnelFsm.Action) → Keeps {S = S} (tunnel_actions actions)
  unfolding tunnel_actions
  tunnel_actions-Keeps actions = Keeps-for_each tunnel_action actions tunnel_action-Keeps

  event-Keeps :
      (handler : TunnelFsm → TunnelFsm.Outcome)
      → Keeps {S = S} (fire_tunnel handler >>= tunnel_actions)
  event-Keeps handler = Keeps-bind _ _ (fire_tunnel-Keeps handler) tunnel_actions-Keeps

  close-Keeps : Keeps {S = S} close
  unfolding close
  close-Keeps = search (keeps_rules, fire_tunnel-Keeps, tunnel_actions-Keeps) depth 8

  hello_timer-Keeps : Keeps {S = S} hello_timer
  unfolding hello_timer
  hello_timer-Keeps = search (keeps_rules, fire_tunnel-Keeps, tunnel_actions-Keeps) depth 8

  transmit-Keeps : (wire : Bytes) → Keeps {S = S} (transmit wire)
  transmit-Keeps wire = search keeps_rules depth 4

  respond-Keeps : (response : ControlMessage) → Keeps {S = S} (respond response)
  respond-Keeps response = search keeps_rules depth 8

  -- After the tick of the peer.
  ticked_on-Keeps :
      (resends : List Bytes) (dead : Bool)
      → Keeps {S = S} (
          for_each transmit resends
          >> (if dead
              then (fire_tunnel on_peer_dead >>= (λ actions. tunnel_actions actions >> pure true))
              else pure false))
  ticked_on-Keeps resends dead =
      search (keeps_rules, transmit-Keeps, fire_tunnel-Keeps, tunnel_actions-Keeps) depth 14

  pub tick_tunnel-Keeps : (now : ℕ) → Keeps {S = S} (tick_tunnel now)
  unfolding tick_tunnel ◌>>=◌
  tick_tunnel-Keeps now = record {
    kept = λ (s, t) w.
        let (resends, dead, p, e, v, same) = tick-TickKeeps t.peer now w in
        rw (tick_tunnel, e) ((ticked_on-Keeps resends dead).kept (s, record t { peer = p }) v);
  }

  dispatched-Keeps :
      (avps : List Avp) (target : Option ℕ)
      → Keeps {S = S} (elim target [
        | none ↦ pure tt
        | some sid ↦ (do
          actions ← fire (SessionFsm.on_message avps) sid
          set_tunnel (index_remote sid)
          session_actions actions)
      ])
  dispatched-Keeps avps none = Keeps-pure tt
  dispatched-Keeps avps (some sid) =
      search (keeps_rules, fire-Keeps, session_actions-Keeps, index_remote-peer) depth 14

  or_return-Keeps :
      {A : Type 0} (r : Result A) (k : A → Method S (Unit {0}))
      → ((a : A) → Keeps (k a))
      → Keeps (or_return r k)
  or_return-Keeps (ok a) k h = h a
  or_return-Keeps (err e) k h =
      Keeps-if (is_value_error e) (pure tt) (raise e) (Keeps-pure tt) (Keeps-raise e)

  dispatch_session_message-Keeps :
      (avps : List Avp) (mt : ℕ) → Keeps {S = S} (dispatch_session_message avps mt)
  unfolding dispatch_session_message
  dispatch_session_message-Keeps avps mt =
      or_return-Keeps (correlation avps mt) _
        (λ found. Keeps-bind _ _ (Keeps-gets _) (λ target. dispatched-Keeps avps target))

  handle_delivered-Keeps : (avps : List Avp) → Keeps {S = S} (handle_delivered avps)
  unfolding handle_delivered
  handle_delivered-Keeps [] = Keeps-pure tt
  handle_delivered-Keeps (a ∷ avps) =
      Keeps-bind _ _ (Keeps-lift (get_message_type (a ∷ avps))) (λ mt.
        Keeps-if _ _ _ (dispatch_session_message-Keeps (a ∷ avps) _)
          (event-Keeps (TunnelFsm.on_message (a ∷ avps))))

  responded-Keeps :
      (responses : List ControlMessage) (delivered : List Avp)
      → Keeps {S = S} (for_each respond responses >> handle_delivered delivered)
  responded-Keeps responses delivered =
      Keeps-bind _ _ (Keeps-for_each respond responses respond-Keeps)
        (λ u. handle_delivered-Keeps delivered)

  handle_message-Keeps : (msg : ControlMessage) → Keeps {S = S} (handle_message msg)
  unfolding handle_message ◌>>=◌
  handle_message-Keeps msg = record {
    kept = λ (s, t) w.
        let u = learn_remote_ccid msg.avps t in
        (responded-Keeps (receive msg u.peer).1 (receive msg u.peer).0).kept
          (s, record u { peer = (receive msg u.peer).2 })
          (receive-WellFormed u.peer msg (learn_remote_ccid-WellFormed msg.avps t w));
  }

  handle_datagram-Keeps : (buf : Bytes) → Keeps {S = S} (handle_datagram buf)
  unfolding handle_datagram
  handle_datagram-Keeps buf =
      Keeps-bind _ _ (Keeps-gets _)
        (λ received. or_return-Keeps received handle_message handle_message-Keeps)

  -- Whatever the event loop calls on a tunnel, and whether the call returns or raises, the peer of
  -- the tunnel is well-formed afterwards if it was before: its sequence numbers, counters and
  -- retransmission timers are as they should be.
  pub run-WellFormed :
      (i : Input) (t : State S) → WellFormed t.1.peer → WellFormed (run i t).0.1.peer
  unfolding start
  run-WellFormed started t = (event-Keeps on_local_open).kept t
  run-WellFormed closed t = close-Keeps.kept t
  run-WellFormed timer_fired t = hello_timer-Keeps.kept t
  run-WellFormed (received buf) t = (handle_datagram-Keeps buf).kept t
  run-WellFormed (ticked now) t =
      (Keeps-bind (tick_tunnel now) (λ dead. pure tt) (tick_tunnel-Keeps now)
          (λ dead. Keeps-pure tt)).kept
        t
