-- ===== src/Tunnel/Returns.antt =====
-- `Tunnel.tick` of xcesp_l2tpv3d/main.py returns, also where the peer is dead and the tunnel comes
-- down.
use xcesp_l2tpv3d.Common.{
  ℕ, Bool, true, false, ◌≡◌, refl, sym, Option, none, some, List, [], ◌∷◌, All, if◌then◌else◌,
}
use xcesp_l2tpv3d.Exception.{Result, ok, err}
use xcesp_l2tpv3d.Struct.{Bytes}
use xcesp_l2tpv3d.Crypto.{Crypto}
use xcesp_l2tpv3d.Peer.Invariant.{WellFormed}
use xcesp_l2tpv3d.Peer.Reachable.{tick-TickKeeps}
use xcesp_l2tpv3d.Dataplane.{Returned}
use xcesp_l2tpv3d.Dataplane.Interface.{Dataplane}
use xcesp_l2tpv3d.TunnelFsm as TunnelFsm
use xcesp_l2tpv3d.TunnelFsm.{TunnelFsm, on_peer_dead}
use xcesp_l2tpv3d.TunnelFsm.Returns.{is_ok}
use xcesp_l2tpv3d.SessionFsm.{SessionFsm, on_tunnel_down}
use xcesp_l2tpv3d.SessionFsm as SessionFsm
use xcesp_l2tpv3d.Tunnel.{find_sid}
use xcesp_l2tpv3d.Tunnel.Effect.{State, Method, pure, gets, modify, and_then, ◌>>=◌, ◌>>◌, for_each}
use xcesp_l2tpv3d.Tunnel.Execute.{
  fire_tunnel, fire, fired, on_dataplane, session_action, session_actions, each_session,
  drop_tunnel_dataplane, tunnel_action, tunnel_actions, transmit,
}
use xcesp_l2tpv3d.Tunnel.Dispatch.{tick_tunnel}
use xcesp_l2tpv3d.Tunnel.Armed.{and_then_assoc}

pub record Returns {S A : Type 0} (method : Method S A) : Type 0 where
  pub returns : (t : State S) → is_ok (method t).1 ≡ true

module _ {S : Type 0} where
  and_then-Returns :
      {A B : Type 0} (r : State S × Result A) (k : A → Method S B)
      → is_ok r.1 ≡ true
      → ((a : A) → Returns (k a))
      → is_ok (and_then r k).1 ≡ true
  and_then-Returns (u, ok a) k h hk = (hk a).returns u
  and_then-Returns (u, err e) k h hk = cc

  Returns-bind :
      {A B : Type 0} (m : Method S A) (k : A → Method S B)
      → Returns m
      → ((a : A) → Returns (k a))
      → Returns (m >>= k)
  unfolding ◌>>=◌
  Returns-bind m k hm hk = record { returns = λ t. and_then-Returns (m t) k (hm.returns t) hk }

  Returns-pure : {A : Type 0} (a : A) → Returns {S = S} (pure a)
  Returns-pure a = record { returns = λ t. refl }

  Returns-gets : {A : Type 0} (f : State S → A) → Returns (gets f)
  Returns-gets f = record { returns = λ t. refl }

  Returns-modify : (f : State S → State S) → Returns (modify f)
  Returns-modify f = record { returns = λ t. refl }

  Returns-if :
      {A : Type 0} (b : Bool) (m k : Method S A)
      → Returns m
      → Returns k
      → Returns (if b then m else k)
  Returns-if true m k hm hk = hm
  Returns-if false m k hm hk = hk

  -- A loop whose body returns for each element.
  Returns-for_each :
      {A : Type 0} (body : A → Method S (Unit {0})) (xs : List A)
      → All (λ x. Returns (body x)) xs
      → Returns (for_each body xs)
  unfolding for_each
  Returns-for_each body [] h = Returns-pure tt
  Returns-for_each body (x ∷ xs) h = Returns-bind (body x) _ h.0 (λ u. Returns-for_each body xs h.1)

  on_dataplane-Returns :
      {R : Type 0} (operation : S → S × Returned R) → Returns (on_dataplane operation)
  unfolding on_dataplane
  on_dataplane-Returns operation = record { returns = λ t. refl }

ruleset returns_rules =
    (Returns-bind, Returns-pure, Returns-gets, Returns-modify, Returns-if, on_dataplane-Returns)

All-always : {A : Type 0} (P : A → Type 0) (xs : List A) → ((x : A) → P x) → All P xs
All-always P [] h = tt
All-always P (x ∷ xs) h = (h x, All-always P xs h)

module _ {S : Type 0} ⦃c : Crypto⦄ ⦃d : Dataplane S⦄ where
  -- The two actions that end a session send nothing.
  ended-Returns :
      (ccid sid : ℕ) (reason : SessionFsm.Reason)
      → Returns {S = S} (
          session_actions
            (SessionFsm.dataplane_del_session ccid sid ∷ SessionFsm.session_torn_down reason ∷ []))
  unfolding session_actions
  ended-Returns ccid sid reason =
      Returns-for_each session_action _ (search returns_rules depth 14, (Returns-pure tt, tt))

  none-Returns : Returns {S = S} (session_actions [])
  unfolding session_actions
  none-Returns = Returns-for_each session_action [] tt

  down-Returns :
      (sid : ℕ) (t : State S) (o : Option SessionFsm)
      → is_ok (and_then (fired sid on_tunnel_down t o) session_actions).1 ≡ true
  unfolding on_tunnel_down
  down-Returns sid t none = none-Returns.returns t
  down-Returns sid (s, t) (some sess) =
      elim sess.state
        as (λ x.
          is_ok
            (and_then (fired sid on_tunnel_down (s, t) (some (record sess { state = x })))
              session_actions).1
          ≡ true) [
            | SessionFsm.established ↦ (ended-Returns _ _ _).returns _
            | _ ↦ none-Returns.returns _
          ]

  none_ok : (t : State S) → is_ok (tunnel_actions [] t).1 ≡ true
  unfolding tunnel_actions
  none_ok t = (Returns-for_each tunnel_action [] tt).returns t

  down_one-Returns : (sid : ℕ) → Returns {S = S} (fire on_tunnel_down sid >>= session_actions)
  unfolding fire ◌>>=◌
  down_one-Returns sid = record {
    returns = λ (s, t). down-Returns sid (s, t) (find_sid sid t.sessions_by_local);
  }

  each_down-Returns : Returns {S = S} (each_session on_tunnel_down)
  unfolding each_session
  each_down-Returns = Returns-bind _ _ (Returns-gets _) (λ sids. Returns-for_each _ sids (
      All-always (λ sid. Returns (fire on_tunnel_down sid >>= session_actions)) sids
        down_one-Returns))

  drop-Returns : Returns {S = S} drop_tunnel_dataplane
  unfolding drop_tunnel_dataplane
  drop-Returns = search returns_rules depth 14

  -- The actions of a dead peer send nothing either.
  lost-Returns :
      (t : State S) (reason : TunnelFsm.Reason) (state : TunnelFsm.TunnelState)
      → is_ok
          (tunnel_actions (TunnelFsm.clear_hello_timer ∷ TunnelFsm.torn_down_from state reason) t).1
        ≡ true
  unfolding tunnel_actions
  lost-Returns t reason TunnelFsm.established =
      (Returns-for_each tunnel_action _
          (Returns-modify _, (Returns-bind _ _ each_down-Returns (λ u. drop-Returns), tt))).returns
        t
  lost-Returns t reason TunnelFsm.idle =
      (Returns-for_each tunnel_action _ (Returns-modify _, tt)).returns t
  lost-Returns t reason TunnelFsm.wait_ctl_reply =
      (Returns-for_each tunnel_action _ (Returns-modify _, tt)).returns t
  lost-Returns t reason TunnelFsm.wait_ctl_conn =
      (Returns-for_each tunnel_action _ (Returns-modify _, tt)).returns t
  lost-Returns t reason TunnelFsm.send_stopccn =
      (Returns-for_each tunnel_action _ (Returns-modify _, tt)).returns t

  dead-Returns : Returns {S = S} (fire_tunnel on_peer_dead >>= tunnel_actions)
  unfolding fire_tunnel on_peer_dead ◌>>=◌
  dead-Returns = record {
    returns = λ (s, t).
        elim t.fsm.state
          as (λ x.
            is_ok
              ((fire_tunnel on_peer_dead >>= tunnel_actions)
                (s, record t { fsm = record t.fsm { state = x } })).1
            ≡ true) [
              | TunnelFsm.idle ↦ none_ok _
              | prior ↦ lost-Returns _ TunnelFsm.peer_dead prior
            ];
  }

  -- and_then is associative, so that what follows the actions may be added behind.
  reported-Returns :
      Returns {S = S}
        (fire_tunnel on_peer_dead >>= (λ actions. tunnel_actions actions >> pure true))
  unfolding ◌>>=◌
  reported-Returns = record {
    returns = λ t.
        rw (sym (and_then_assoc (fire_tunnel on_peer_dead t) tunnel_actions (λ done. pure true)))
          ((Returns-bind _ (λ done. pure true) dead-Returns (λ done. Returns-pure true)).returns t);
  }

  -- After the tick of the peer.
  ticked_on-Returns :
      (resends : List Bytes) (dead : Bool)
      → Returns {S = S} (
          for_each transmit resends
          >> (if dead
              then (fire_tunnel on_peer_dead >>= (λ actions. tunnel_actions actions >> pure true))
              else pure false))
  ticked_on-Returns resends dead =
      Returns-bind _ _
        (Returns-for_each transmit resends
          (All-always (λ wire. Returns (transmit wire)) resends (λ wire. Returns-modify _)))
        (λ sent. Returns-if dead _ _ reported-Returns (Returns-pure false))

  -- A tick returns, whatever the time and whatever state the sessions are in, if the peer is
  -- well-formed: also a peer that is given up, with all that its end sets off.
  pub tick_tunnel-returns :
      (now : ℕ) (t : State S) → WellFormed t.1.peer → is_ok (tick_tunnel now t).1 ≡ true
  unfolding tick_tunnel ◌>>=◌
  tick_tunnel-returns now (s, t) w =
      let (resends, dead, p, e, v, same) = tick-TickKeeps t.peer now w in
      rw (tick_tunnel, e) ((ticked_on-Returns resends dead).returns (s, record t { peer = p }))
