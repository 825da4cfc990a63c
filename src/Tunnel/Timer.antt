-- ===== src/Tunnel/Timer.antt =====
-- The HELLO timer of a tunnel in xcesp_l2tpv3d/main.py, which the actions of its machine set and
-- clear.
use xcesp_l2tpv3d.Common.{ℕ, Bool, true, false, ◌≡◌, refl, ap, ◌∙◌, is_some, List, [], ◌∷◌, arith}
use xcesp_l2tpv3d.Exception.{Result, ok, err}
use xcesp_l2tpv3d.Crypto.{Crypto}
use xcesp_l2tpv3d.Avp.{Avp}
use xcesp_l2tpv3d.Dataplane.Interface.{Dataplane}
use xcesp_l2tpv3d.TunnelFsm as TunnelFsm
use xcesp_l2tpv3d.TunnelFsm.{
  TunnelFsm, TunnelState, Event, handle, on_local_open, on_local_close, on_hello_timer,
  on_peer_dead, on_message, on_sccrq, on_sccrp, on_scccn, on_stopccn, teardown,
}
use xcesp_l2tpv3d.TunnelFsm.Returns.{is_ok}
use xcesp_l2tpv3d.SessionFsm.{on_tunnel_established, on_tunnel_down}
use xcesp_l2tpv3d.Tunnel.Effect.{State, Method, and_then, ◌>>=◌, ◌>>◌, for_each}
use xcesp_l2tpv3d.Tunnel.Execute.{send_avps, each_session, drop_tunnel_dataplane, tunnel_action}
use xcesp_l2tpv3d.Tunnel.Fixed.{
  Fixes, Fixes-bind, core, send_avps-core, each_session-core, drop_tunnel_dataplane-core,
}

abbrev pub is_established : TunnelState → Bool
is_established TunnelFsm.established = true
is_established _ = false

-- Whether the timer is set after the actions.
abbrev pub timer_after : List TunnelFsm.Action → Bool → Bool
timer_after [] set = set
timer_after (TunnelFsm.set_hello_timer wait ∷ actions) set = timer_after actions true
timer_after (TunnelFsm.clear_hello_timer ∷ actions) set = timer_after actions false
timer_after (TunnelFsm.send_message avps ∷ actions) set = timer_after actions set
timer_after (TunnelFsm.now_established ∷ actions) set = timer_after actions set
timer_after (TunnelFsm.torn_down reason ∷ actions) set = timer_after actions set

abbrev pub actions_of : Result (List TunnelFsm.Action) → List TunnelFsm.Action
actions_of (ok actions) = actions
actions_of (err e) = []

-- The actions of an outcome set the timer as its state needs it.
abbrev pub Sets : Bool → TunnelFsm.Outcome → Type 0
Sets set (fsm, r) = is_ok r ≡ true → timer_after (actions_of r) set ≡ is_established fsm.state

teardown-Sets :
    (code : ℕ) (reason : TunnelFsm.Reason) (fsm : TunnelFsm) (set : Bool)
    → Sets set (teardown code reason fsm)
unfolding teardown
teardown-Sets code reason fsm set = ground arith

pub on_local_open-Sets : (fsm : TunnelFsm) → Sets (is_established fsm.state) (on_local_open fsm)
unfolding on_local_open
on_local_open-Sets fsm = ground arith

pub on_local_close-Sets :
    (code : ℕ) (fsm : TunnelFsm) → Sets (is_established fsm.state) (on_local_close code fsm)
unfolding on_local_close
on_local_close-Sets code fsm =
    ground (arith, teardown-Sets code TunnelFsm.local_close fsm (is_established fsm.state))

pub on_hello_timer-Sets : (fsm : TunnelFsm) → Sets false (on_hello_timer fsm)
unfolding on_hello_timer
on_hello_timer-Sets fsm = ground arith

pub on_peer_dead-Sets : (fsm : TunnelFsm) → Sets (is_established fsm.state) (on_peer_dead fsm)
unfolding on_peer_dead
on_peer_dead-Sets fsm = ground arith

on_sccrq-Sets :
    (avps : List Avp) (fsm : TunnelFsm) → Sets (is_established fsm.state) (on_sccrq avps fsm)
unfolding on_sccrq
on_sccrq-Sets avps fsm = ground (
  arith,
  teardown-Sets TunnelFsm.general_error TunnelFsm.peer_restart fsm (is_established fsm.state),
)

on_sccrp-Sets :
    (avps : List Avp) (fsm : TunnelFsm) → Sets (is_established fsm.state) (on_sccrp avps fsm)
unfolding on_sccrp
on_sccrp-Sets avps fsm = ground (
  arith,
  teardown-Sets TunnelFsm.general_error TunnelFsm.malformed_sccrp fsm (is_established fsm.state),
)

on_scccn-Sets : (fsm : TunnelFsm) → Sets (is_established fsm.state) (on_scccn fsm)
unfolding on_scccn
on_scccn-Sets fsm = ground arith

on_stopccn-Sets :
    (avps : List Avp) (fsm : TunnelFsm) → Sets (is_established fsm.state) (on_stopccn avps fsm)
unfolding on_stopccn
on_stopccn-Sets avps fsm = ground arith

pub on_message-Sets :
    (avps : List Avp) (fsm : TunnelFsm) → Sets (is_established fsm.state) (on_message avps fsm)
unfolding on_message
on_message-Sets avps fsm = ground (
  arith,
  on_sccrq-Sets avps fsm,
  on_sccrp-Sets avps fsm,
  on_scccn-Sets fsm,
  on_stopccn-Sets avps fsm,
)

timer_after-cons :
    (a : TunnelFsm.Action) (actions : List TunnelFsm.Action) (set : Bool)
    → timer_after (a ∷ actions) set ≡ timer_after actions (timer_after (a ∷ []) set)
timer_after-cons (TunnelFsm.send_message avps) actions set = refl
timer_after-cons (TunnelFsm.set_hello_timer wait) actions set = refl
timer_after-cons TunnelFsm.clear_hello_timer actions set = refl
timer_after-cons TunnelFsm.now_established actions set = refl
timer_after-cons (TunnelFsm.torn_down reason) actions set = refl

-- If it returns, the machine is as given, and the timer is set or not, as given.
abbrev pub Leaves : {S : Type 0} → TunnelFsm → Bool → State S × Result (Unit {0}) → Type 0
Leaves fsm set (t, r) = is_ok r ≡ true → (t.1.fsm ≡ fsm) × (is_some t.1.hello_handle ≡ set)

module _ {S : Type 0} where
  Leaves-core :
      (m : Method S (Unit {0})) (t : State S)
      → Fixes core m
      → Leaves t.1.fsm (is_some t.1.hello_handle) (m t)
  Leaves-core m t h returned =
      (ap (λ k. k.fsm) (h.fixed t), ap (λ k. is_some k.hello_handle) (h.fixed t))

  Leaves-and_then :
      (r : State S × Result (Unit {0})) (k : Unit {0} → Method S (Unit {0})) (fsm : TunnelFsm)
      (set : Bool) (f : Bool → Bool)
      → Leaves fsm set r
      → ((u : State S) → Leaves u.1.fsm (f (is_some u.1.hello_handle)) (k tt u))
      → Leaves fsm (f set) (and_then r k)
  Leaves-and_then (u, ok x) k fsm set f h hk returned =
      let (same, timer) = h refl in
      let (same_next, timer_next) = hk u returned in (same_next ∙ same, timer_next ∙ ap f timer)
  Leaves-and_then (u, err e) k fsm set f h hk returned = cc

module _ {S : Type 0} ⦃c : Crypto⦄ ⦃d : Dataplane S⦄ where
  tunnel_action-Leaves :
      (a : TunnelFsm.Action) (t : State S)
      → Leaves t.1.fsm (timer_after (a ∷ []) (is_some t.1.hello_handle)) (tunnel_action a t)
  unfolding ◌>>=◌
  tunnel_action-Leaves (TunnelFsm.send_message avps) t =
      Leaves-core (send_avps avps) t (send_avps-core avps)
  tunnel_action-Leaves (TunnelFsm.set_hello_timer wait) t = λ returned. (refl, refl)
  tunnel_action-Leaves TunnelFsm.clear_hello_timer t = λ returned. (refl, refl)
  tunnel_action-Leaves TunnelFsm.now_established t =
      Leaves-core (each_session on_tunnel_established) t (each_session-core on_tunnel_established)
  tunnel_action-Leaves (TunnelFsm.torn_down reason) t =
      Leaves-core (each_session on_tunnel_down >> drop_tunnel_dataplane) t
        (Fixes-bind core _ _ (each_session-core on_tunnel_down) (λ u. drop_tunnel_dataplane-core))

  pub tunnel_actions-Leaves :
      (actions : List TunnelFsm.Action) (t : State S)
      → Leaves t.1.fsm
          (timer_after actions (is_some t.1.hello_handle))
          (for_each tunnel_action actions t)
  unfolding for_each ◌>>=◌
  tunnel_actions-Leaves [] t = λ returned. (refl, refl)
  tunnel_actions-Leaves (a ∷ actions) t =
      rw (timer_after-cons a actions (is_some t.1.hello_handle)) (
        Leaves-and_then (tunnel_action a t) (λ u. for_each tunnel_action actions) t.1.fsm
          (timer_after (a ∷ []) (is_some t.1.hello_handle)) (timer_after actions)
          (tunnel_action-Leaves a t) (λ u. tunnel_actions-Leaves actions u))
