-- ===== src/Tunnel/Fixed.antt =====
-- What the methods of `Tunnel` leave alone: the parts of a tunnel that the actions of sessions never
-- change, and its configuration.
use xcesp_l2tpv3d.Common.{
  ℕ, Bool, true, false, ◌≡◌, refl, ap, ◌∙◌, Option, none, some, List, [], ◌∷◌, if◌then◌else◌, arith,
  Option-cases, inl, inr,
}
use xcesp_l2tpv3d.Exception.{Error, Result, ok, err, is_value_error}
use xcesp_l2tpv3d.Message.{ControlMessage}
use xcesp_l2tpv3d.Crypto.{Crypto}
use xcesp_l2tpv3d.Avp.{Avp}
use xcesp_l2tpv3d.Peer.{SockAddr}
use xcesp_l2tpv3d.Dataplane.{Returned}
use xcesp_l2tpv3d.Dataplane.Interface.{Dataplane}
use xcesp_l2tpv3d.TunnelFsm.{TunnelFsm}
use xcesp_l2tpv3d.SessionFsm.{SessionFsm}
use xcesp_l2tpv3d.SessionFsm as SessionFsm
use xcesp_l2tpv3d.Config.{TunnelConfigEntry}
use xcesp_l2tpv3d.Tunnel.{Tunnel, find_sid}
use xcesp_l2tpv3d.Tunnel.Effect.{
  State, Method, pure, raise, lift, gets, modify, and_then, ◌>>=◌, ◌>>◌, for_each,
}
use xcesp_l2tpv3d.Tunnel.Correlate.{index_remote, correlation}
use xcesp_l2tpv3d.Tunnel.Dispatch.{learn_remote_ccid, or_return, dispatch_session_message, respond}
use xcesp_l2tpv3d.Tunnel.Execute.{
  set_tunnel, fire, fired, on_dataplane, send_avps, ensure_tunnel_dataplane, session_action,
  session_actions, each_session, drop_tunnel_dataplane,
}

-- The method does not change what `part` reads of the tunnel, whether it returns or raises.
pub record Fixes {S A P : Type 0} (part : Tunnel → P) (method : Method S A) : Type 0 where
  pub fixed : (t : State S) → part (method t).0.1 ≡ part t.1

module _ {S P : Type 0} (part : Tunnel → P) where
  and_then-Fixes :
      {A B : Type 0} (t : State S) (r : State S × Result A) (k : A → Method S B)
      → part r.0.1 ≡ part t.1
      → ((a : A) → Fixes part (k a))
      → part (and_then r k).0.1 ≡ part t.1
  and_then-Fixes t (u, ok a) k h hk = (hk a).fixed u ∙ h
  and_then-Fixes t (u, err e) k h hk = h

  pub Fixes-bind :
      {A B : Type 0} (m : Method S A) (k : A → Method S B)
      → Fixes part m
      → ((a : A) → Fixes part (k a))
      → Fixes part (m >>= k)
  unfolding ◌>>=◌
  Fixes-bind m k hm hk = record { fixed = λ t. and_then-Fixes t (m t) k (hm.fixed t) hk }

  pub Fixes-pure : {A : Type 0} (a : A) → Fixes {S = S} part (pure a)
  Fixes-pure a = record { fixed = λ t. refl }

  pub Fixes-raise : {A : Type 0} (e : Error) → Fixes {S = S} {A = A} part (raise e)
  Fixes-raise e = record { fixed = λ t. refl }

  pub Fixes-lift : {A : Type 0} (r : Result A) → Fixes {S = S} part (lift r)
  Fixes-lift r = record { fixed = λ t. refl }

  pub Fixes-gets : {A : Type 0} (f : State S → A) → Fixes part (gets f)
  Fixes-gets f = record { fixed = λ t. refl }

  pub Fixes-modify :
      (f : State S → State S) → ((t : State S) → part (f t).1 ≡ part t.1) → Fixes part (modify f)
  Fixes-modify f h = record { fixed = h }

  pub Fixes-if :
      {A : Type 0} (b : Bool) (m k : Method S A)
      → Fixes part m
      → Fixes part k
      → Fixes part (if b then m else k)
  Fixes-if true m k hm hk = hm
  Fixes-if false m k hm hk = hk

  pub Fixes-for_each :
      {A : Type 0} (body : A → Method S (Unit {0})) (xs : List A)
      → ((x : A) → Fixes part (body x))
      → Fixes part (for_each body xs)
  unfolding for_each
  Fixes-for_each body [] h = Fixes-pure tt
  Fixes-for_each body (x ∷ xs) h = Fixes-bind (body x) _ (h x) (λ u. Fixes-for_each body xs h)

pub ruleset fixed_rules =
    (Fixes-bind, Fixes-pure, Fixes-raise, Fixes-lift, Fixes-gets, Fixes-if, Fixes-modify, refl)

-- The parts that only the tunnel's own actions and events change.
pub record Core : Type 0 where
  pub cfg : TunnelConfigEntry
  pub remote_addr : SockAddr
  pub fsm : TunnelFsm
  pub hello_handle : Option ℕ

abbrev pub core : Tunnel → Core
core t = record {
  cfg = t.cfg;
  remote_addr = t.remote_addr;
  fsm = t.fsm;
  hello_handle = t.hello_handle;
}

fired-core :
    {S : Type 0} (sid : ℕ) (handler : SessionFsm → SessionFsm.Outcome) (t : State S)
    (o : Option SessionFsm)
    → core (fired sid handler t o).0.1 ≡ core t.1
fired-core sid handler t none = refl
fired-core sid handler t (some sess) = refl

pub fire-core :
    {S : Type 0} (handler : SessionFsm → SessionFsm.Outcome) (sid : ℕ)
    → Fixes {S = S} core (fire handler sid)
unfolding fire
fire-core handler sid = record {
  fixed = λ t. fired-core sid handler t (find_sid sid t.1.sessions_by_local);
}

pub on_dataplane-core :
    {S R : Type 0} (operation : S → S × Returned R) → Fixes core (on_dataplane operation)
unfolding on_dataplane
on_dataplane-core operation = record { fixed = λ t. refl }

pub send_avps-core :
    {S : Type 0} ⦃c : Crypto⦄ → (avps : List Avp) → Fixes {S = S} core (send_avps avps)
unfolding send_avps
send_avps-core avps = search fixed_rules depth 14

module _ {S : Type 0} ⦃c : Crypto⦄ ⦃d : Dataplane S⦄ where
  ensure_tunnel_dataplane-core : Fixes {S = S} core ensure_tunnel_dataplane
  unfolding ensure_tunnel_dataplane
  ensure_tunnel_dataplane-core = search (fixed_rules, on_dataplane-core) depth 14

  session_action-core : (action : SessionFsm.Action) → Fixes {S = S} core (session_action action)
  session_action-core (SessionFsm.send_message avps) = send_avps-core avps
  session_action-core (SessionFsm.dataplane_add_session params) =
      search (fixed_rules, on_dataplane-core, ensure_tunnel_dataplane-core) depth 14
  session_action-core (SessionFsm.dataplane_del_session ccid sid) =
      search (fixed_rules, on_dataplane-core) depth 14
  session_action-core SessionFsm.session_established = Fixes-pure core tt
  session_action-core (SessionFsm.session_torn_down reason) = Fixes-pure core tt

  pub session_actions-core :
      (actions : List SessionFsm.Action) → Fixes {S = S} core (session_actions actions)
  unfolding session_actions
  session_actions-core actions = Fixes-for_each core session_action actions session_action-core

  pub each_session-core :
      (handler : SessionFsm → SessionFsm.Outcome) → Fixes {S = S} core (each_session handler)
  unfolding each_session
  each_session-core handler = Fixes-bind core _ _ (Fixes-gets core _) (λ sids.
      Fixes-for_each core _ sids (λ sid.
        Fixes-bind core _ _ (fire-core handler sid) (λ actions. session_actions-core actions)))

  pub drop_tunnel_dataplane-core : Fixes {S = S} core drop_tunnel_dataplane
  unfolding drop_tunnel_dataplane
  drop_tunnel_dataplane-core = search (fixed_rules, on_dataplane-core) depth 14

index_remote-core : (sid : ℕ) (t : Tunnel) → core (index_remote sid t) ≡ core t
unfolding index_remote
index_remote-core sid t = ground arith

pub learn_remote_ccid-core :
    (avps : List Avp) (t : Tunnel) → core (learn_remote_ccid avps t) ≡ core t
unfolding learn_remote_ccid
learn_remote_ccid-core avps t = ground arith

module _ {S : Type 0} ⦃c : Crypto⦄ ⦃d : Dataplane S⦄ where
  or_return-core :
      {A : Type 0} (r : Result A) (k : A → Method S (Unit {0}))
      → ((a : A) → Fixes core (k a))
      → Fixes core (or_return r k)
  or_return-core (ok a) k h = h a
  or_return-core (err e) k h =
      Fixes-if core (is_value_error e) (pure tt) (raise e) (Fixes-pure core tt) (Fixes-raise core e)

  dispatched-core :
      (avps : List Avp) (target : Option ℕ)
      → Fixes {S = S} core (elim target [
        | none ↦ pure tt
        | some sid ↦ (do
          actions ← fire (SessionFsm.on_message avps) sid
          set_tunnel (index_remote sid)
          session_actions actions)
      ])
  dispatched-core avps none = Fixes-pure core tt
  dispatched-core avps (some sid) =
      search (fixed_rules, fire-core, session_actions-core, index_remote-core) depth 14

  pub dispatch_session_message-core :
      (avps : List Avp) (mt : ℕ) → Fixes {S = S} core (dispatch_session_message avps mt)
  unfolding dispatch_session_message
  dispatch_session_message-core avps mt =
      or_return-core (correlation avps mt) _
        (λ found. Fixes-bind core _ _ (Fixes-gets core _) (λ target. dispatched-core avps target))

  pub respond-core : (response : ControlMessage) → Fixes {S = S} core (respond response)
  respond-core response = search fixed_rules depth 14
