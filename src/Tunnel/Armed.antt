-- ===== src/Tunnel/Armed.antt =====
-- The methods of `Tunnel` in xcesp_l2tpv3d/main.py keep the HELLO timer in step with the state of
-- the tunnel.
use xcesp_l2tpv3d.Common.{
  ℕ, Bool, true, false, ◌≡◌, refl, sym, ap, ◌∙◌, none, is_some, List, [], ◌∷◌, arith, if◌then◌else◌,
}
use xcesp_l2tpv3d.Exception.{Result, ok, err, is_value_error}
use xcesp_l2tpv3d.Struct.{Bytes}
use xcesp_l2tpv3d.Crypto.{Crypto}
use xcesp_l2tpv3d.Avp.{Avp}
use xcesp_l2tpv3d.Message.{ControlMessage}
use xcesp_l2tpv3d.Peer.{receive}
use xcesp_l2tpv3d.TunnelMessage.{get_message_type}
use xcesp_l2tpv3d.Dataplane.Interface.{Dataplane}
use xcesp_l2tpv3d.TunnelFsm as TunnelFsm
use xcesp_l2tpv3d.TunnelFsm.{
  TunnelFsm, on_local_open, on_local_close, on_hello_timer, on_peer_dead, on_message, teardown,
}
use xcesp_l2tpv3d.TunnelFsm.Returns.{is_ok}
use xcesp_l2tpv3d.Tunnel.{Shared, Tunnel}
use xcesp_l2tpv3d.Tunnel.Effect.{State, Method, pure, raise, and_then, ◌>>=◌}
use xcesp_l2tpv3d.Tunnel.Execute.{fire_tunnel, tunnel_actions, set_hello, transmit}
use xcesp_l2tpv3d.Tunnel.Dispatch.{
  start, close, hello_timer, handle_datagram, handle_message, handle_delivered, tick_tunnel,
  or_return, respond,
}
use xcesp_l2tpv3d.Tunnel.Fixed.{
  Fixes, Fixes-gets, Fixes-lift, Fixes-modify, Fixes-for_each, Fixes-pure, Fixes-raise, Fixes-if,
  core, respond-core, dispatch_session_message-core, learn_remote_ccid-core, fixed_rules,
}
use xcesp_l2tpv3d.Tunnel.Timer.{
  is_established, timer_after, Sets, Leaves, tunnel_actions-Leaves, on_local_open-Sets,
  on_hello_timer-Sets, on_peer_dead-Sets, on_message-Sets,
}

-- The timer is set when the tunnel is established, and only then.
abbrev pub IsArmed : Tunnel → Type 0
IsArmed t = is_some t.hello_handle ≡ is_established t.fsm.state

pub record KeepsArmed {S A : Type 0} (method : Method S A) : Type 0 where
  pub kept : (t : State S) → IsArmed t.1 → is_ok (method t).1 ≡ true → IsArmed (method t).0.1

module _ {S : Type 0} where
  and_then-IsArmed :
      {A B : Type 0} (r : State S × Result A) (k : A → Method S B)
      → (is_ok r.1 ≡ true → IsArmed r.0.1)
      → ((a : A) → KeepsArmed (k a))
      → is_ok (and_then r k).1 ≡ true
      → IsArmed (and_then r k).0.1
  and_then-IsArmed (u, ok a) k h hk returned = (hk a).kept u (h refl) returned
  and_then-IsArmed (u, err e) k h hk returned = cc

  pub KeepsArmed-bind :
      {A B : Type 0} (m : Method S A) (k : A → Method S B)
      → KeepsArmed m
      → ((a : A) → KeepsArmed (k a))
      → KeepsArmed (m >>= k)
  unfolding ◌>>=◌
  KeepsArmed-bind m k hm hk = record {
    kept = λ t armed. and_then-IsArmed (m t) k (hm.kept t armed) hk;
  }

  pub KeepsArmed-core : {A : Type 0} (m : Method S A) → Fixes core m → KeepsArmed m
  KeepsArmed-core m h = record {
    kept = λ t armed returned.
        ap (λ k. is_some k.hello_handle) (h.fixed t)
        ∙ armed
        ∙ sym (ap (λ k. is_established k.fsm.state) (h.fixed t));
  }

  pub KeepsArmed-if :
      {A : Type 0} (b : Bool) (m k : Method S A)
      → KeepsArmed m
      → KeepsArmed k
      → KeepsArmed (if b then m else k)
  KeepsArmed-if true m k hm hk = hm
  KeepsArmed-if false m k hm hk = hk

on_local_close_down :
    (code : ℕ) (fsm : TunnelFsm)
    → is_ok (on_local_close code fsm).1 ≡ true
    → is_established (on_local_close code fsm).0.state ≡ false
unfolding on_local_close teardown
on_local_close_down code fsm = ground arith

module _ {S : Type 0} ⦃c : Crypto⦄ ⦃d : Dataplane S⦄ where
  -- The machine answers, and its actions are executed.
  answered-IsArmed :
      (s : Shared S) (t : Tunnel) (o : TunnelFsm.Outcome)
      → Sets (is_some t.hello_handle) o
      → is_ok (and_then ((s, record t { fsm = o.0 }), o.1) tunnel_actions).1 ≡ true
      → IsArmed (and_then ((s, record t { fsm = o.0 }), o.1) tunnel_actions).0.1
  unfolding tunnel_actions
  answered-IsArmed s t (after, ok actions) sets returned =
      let (same, timer) = tunnel_actions-Leaves actions (s, record t { fsm = after }) returned in
      timer ∙ sets refl ∙ sym (ap (λ (f : TunnelFsm). is_established f.state) same)
  answered-IsArmed s t (after, err e) sets returned = cc

  event-KeepsArmed :
      (handler : TunnelFsm → TunnelFsm.Outcome)
      → ((fsm : TunnelFsm) → Sets (is_established fsm.state) (handler fsm))
      → KeepsArmed {S = S} (fire_tunnel handler >>= tunnel_actions)
  unfolding ◌>>=◌ fire_tunnel
  event-KeepsArmed handler sets = record {
    kept = λ (s, t) armed returned.
        answered-IsArmed s t (handler t.fsm) (rw armed (sets t.fsm)) returned;
  }

  pub and_then_assoc :
      {A B C : Type 0} (r : State S × Result A) (f : A → Method S B) (k : B → Method S C)
      → and_then (and_then r f) k ≡ and_then r (λ a. f a >>= k)
  unfolding ◌>>=◌
  and_then_assoc (u, ok a) f k = refl
  and_then_assoc (u, err e) f k = refl

  event_then-KeepsArmed :
      {B : Type 0} (handler : TunnelFsm → TunnelFsm.Outcome) (k : Method S B)
      → ((fsm : TunnelFsm) → Sets (is_established fsm.state) (handler fsm))
      → KeepsArmed k
      → KeepsArmed (fire_tunnel handler >>= (λ actions. tunnel_actions actions >>= λ done. k))
  unfolding ◌>>=◌
  event_then-KeepsArmed handler k sets hk = record {
    kept = λ t armed returned.
        let e = and_then_assoc (fire_tunnel handler t) tunnel_actions (λ done. k) in
        rw (sym e) (
          (KeepsArmed-bind (fire_tunnel handler >>= tunnel_actions) (λ done. k)
              (event-KeepsArmed handler sets) (λ done. hk)).kept
            t armed (rw e returned));
  }

  start-KeepsArmed : KeepsArmed {S = S} start
  unfolding start
  start-KeepsArmed = event-KeepsArmed on_local_open on_local_open-Sets

  hello_timer-KeepsArmed : KeepsArmed {S = S} hello_timer
  unfolding hello_timer ◌>>=◌ fire_tunnel
  hello_timer-KeepsArmed = record {
    kept = λ (s, t) armed returned.
        answered-IsArmed s (record t { hello_handle = none }) (on_hello_timer t.fsm)
          (on_hello_timer-Sets t.fsm) returned;
  }

  transmit-core : (wire : Bytes) → Fixes {S = S} core (transmit wire)
  transmit-core wire = search fixed_rules depth 4

  tick_tunnel-KeepsArmed : (now : ℕ) → KeepsArmed {S = S} (tick_tunnel now)
  unfolding tick_tunnel
  tick_tunnel-KeepsArmed now = KeepsArmed-bind _ _ (KeepsArmed-core _ (Fixes-gets core _)) (λ p.
      KeepsArmed-bind _ _ (KeepsArmed-core _ (Fixes-lift core _)) (λ (resends, dead, after).
        KeepsArmed-bind _ _ (KeepsArmed-core _ (Fixes-modify core _ (λ t. refl))) (λ done.
          KeepsArmed-bind _ _
            (KeepsArmed-core _ (Fixes-for_each core transmit resends transmit-core))
            (λ sent.
              KeepsArmed-if dead _ _
                (event_then-KeepsArmed on_peer_dead (pure true) on_peer_dead-Sets
                  (KeepsArmed-core _ (Fixes-pure core true)))
                (KeepsArmed-core _ (Fixes-pure core false))))))

  handle_delivered-KeepsArmed : (avps : List Avp) → KeepsArmed {S = S} (handle_delivered avps)
  unfolding handle_delivered
  handle_delivered-KeepsArmed [] = KeepsArmed-core _ (Fixes-pure core tt)
  handle_delivered-KeepsArmed (a ∷ avps) =
      KeepsArmed-bind _ _ (KeepsArmed-core _ (Fixes-lift core (get_message_type (a ∷ avps)))) (λ mt.
        KeepsArmed-if _ _ _ (KeepsArmed-core _ (dispatch_session_message-core (a ∷ avps) _))
          (event-KeepsArmed (on_message (a ∷ avps)) (on_message-Sets (a ∷ avps))))

  handle_message-KeepsArmed : (msg : ControlMessage) → KeepsArmed {S = S} (handle_message msg)
  unfolding handle_message
  handle_message-KeepsArmed msg =
      KeepsArmed-bind _ _
        (KeepsArmed-core _ (Fixes-modify core _ (λ (s, t). learn_remote_ccid-core msg.avps t)))
        (λ done. KeepsArmed-bind _ _ (KeepsArmed-core _ (Fixes-gets core _)) (λ p.
          KeepsArmed-bind _ _ (KeepsArmed-core _ (Fixes-modify core _ (λ t. refl))) (λ stored.
            KeepsArmed-bind _ _ (KeepsArmed-core _ (Fixes-for_each core respond _ respond-core))
              (λ sent. handle_delivered-KeepsArmed (receive msg p).0))))

  or_return-KeepsArmed :
      {A : Type 0} (r : Result A) (k : A → Method S (Unit {0}))
      → ((a : A) → KeepsArmed (k a))
      → KeepsArmed (or_return r k)
  or_return-KeepsArmed (ok a) k h = h a
  or_return-KeepsArmed (err e) k h = KeepsArmed-core _ (
      Fixes-if core (is_value_error e) (pure tt) (raise e) (Fixes-pure core tt)
        (Fixes-raise core e))

  handle_datagram-KeepsArmed : (buf : Bytes) → KeepsArmed {S = S} (handle_datagram buf)
  unfolding handle_datagram
  handle_datagram-KeepsArmed buf =
      KeepsArmed-bind _ _ (KeepsArmed-core _ (Fixes-gets core _))
        (λ received. or_return-KeepsArmed received handle_message handle_message-KeepsArmed)

  unset-IsArmed :
      (r : State S × Result (Unit {0})) (fsm : TunnelFsm) (set : Bool)
      → Leaves fsm set r
      → is_established fsm.state ≡ false
      → is_ok (and_then r (λ done. set_hello none)).1 ≡ true
      → IsArmed (and_then r (λ done. set_hello none)).0.1
  unset-IsArmed (u, ok x) fsm set leaves down returned =
      sym (ap (λ (f : TunnelFsm). is_established f.state) (leaves refl).0 ∙ down)
  unset-IsArmed (u, err e) fsm set leaves down returned = cc

  closed-IsArmed :
      (s : Shared S) (t : Tunnel) (o : TunnelFsm.Outcome)
      → (is_ok o.1 ≡ true → is_established o.0.state ≡ false)
      → let r =
          and_then
            ((s, record t { fsm = o.0 }), o.1)
            (λ actions. tunnel_actions actions >>= λ done. set_hello none) in
        is_ok r.1 ≡ true → IsArmed r.0.1
  unfolding tunnel_actions ◌>>=◌
  closed-IsArmed s t (after, ok actions) down returned =
      unset-IsArmed (tunnel_actions actions (s, record t { fsm = after })) after
        (timer_after actions (is_some t.hello_handle))
        (tunnel_actions-Leaves actions (s, record t { fsm = after })) (down refl) returned
  closed-IsArmed s t (after, err e) down returned = cc

  close-KeepsArmed : KeepsArmed {S = S} close
  unfolding close ◌>>=◌ fire_tunnel
  close-KeepsArmed = record {
    kept = λ (s, t) armed returned.
        closed-IsArmed s t (on_local_close TunnelFsm.admin_shutdown t.fsm)
          (on_local_close_down TunnelFsm.admin_shutdown t.fsm) returned;
  }

-- What the event loop calls on a tunnel.
pub data Input : Type 0 where
  started closed timer_fired : Input
  received : Bytes → Input
  ticked : ℕ → Input

module _ {S : Type 0} ⦃c : Crypto⦄ ⦃d : Dataplane S⦄ where
  abbrev pub run : Input → Method S (Unit {0})
  run started = start
  run closed = close
  run timer_fired = hello_timer
  run (received buf) = handle_datagram buf
  run (ticked now) = (do dead ← tick_tunnel now; pure tt)

  -- Whatever the event loop calls on a tunnel, if the call returns, the HELLO timer is set
  -- afterwards exactly when the tunnel is established, provided that this was so before.
  pub run-IsArmed :
      (i : Input) (t : State S) → IsArmed t.1 → is_ok (run i t).1 ≡ true → IsArmed (run i t).0.1
  run-IsArmed started t = start-KeepsArmed.kept t
  run-IsArmed closed t = close-KeepsArmed.kept t
  run-IsArmed timer_fired t = hello_timer-KeepsArmed.kept t
  run-IsArmed (received buf) t = (handle_datagram-KeepsArmed buf).kept t
  run-IsArmed (ticked now) t =
      (KeepsArmed-bind (tick_tunnel now) (λ dead. pure tt) (tick_tunnel-KeepsArmed now)
          (λ dead. KeepsArmed-core _ (Fixes-pure core tt))).kept
        t
