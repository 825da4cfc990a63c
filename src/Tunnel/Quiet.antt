-- ===== src/Tunnel/Quiet.antt =====
-- `Tunnel` of xcesp_l2tpv3d/main.py without sessions: what it needs of the dataplane.
use xcesp_l2tpv3d.Common.{
  ℕ, Bool, true, false, ◌≡◌, refl, ap, ◌∙◌, Option, none, some, List, [], ◌∷◌, if◌then◌else◌, arith,
}
use xcesp_l2tpv3d.Exception.{Error, Result, ok, err}
use xcesp_l2tpv3d.Crypto.{Crypto}
use xcesp_l2tpv3d.Avp.{Avp}
use xcesp_l2tpv3d.Dataplane.Interface.{Dataplane}
use xcesp_l2tpv3d.TunnelFsm as TunnelFsm
use xcesp_l2tpv3d.TunnelFsm.{TunnelFsm, on_local_open, on_local_close, on_hello_timer, on_peer_dead}
use xcesp_l2tpv3d.SessionFsm.{SessionFsm, on_tunnel_established, on_tunnel_down}
use xcesp_l2tpv3d.SessionFsm as SessionFsm
use xcesp_l2tpv3d.Tunnel.{Tunnel}
use xcesp_l2tpv3d.Tunnel.Effect.{
  State, Method, pure, raise, lift, gets, modify, and_then, ◌>>=◌, for_each,
}
use xcesp_l2tpv3d.Tunnel.Execute.{fire_tunnel, send_avps, each_session, drop_tunnel_dataplane}
use xcesp_l2tpv3d.Tunnel.Dispatch.{learn_remote_ccid}

-- A tunnel without sessions that has not told the dataplane of itself.
abbrev pub IsQuiet : Tunnel → Type 0
IsQuiet t = (t.sessions_by_local ≡ []) × (t.tunnel_dp_added ≡ false)

-- What such a tunnel leaves alone.
pub record Part (S : Type 0) : Type 0 where
  pub dataplane : Option S
  pub sessions : List SessionFsm
  pub dp_added : Bool

abbrev pub part : {S : Type 0} → State S → Part S
part (s, t) = record {
  dataplane = s.dataplane;
  sessions = t.sessions_by_local;
  dp_added = t.tunnel_dp_added;
}

pub record Spares {S A : Type 0} (method : Method S A) : Type 0 where
  pub spared : (t : State S) → IsQuiet t.1 → part (method t).0 ≡ part t

module _ {S : Type 0} where
  pub still-IsQuiet : (t u : State S) → part u ≡ part t → IsQuiet t.1 → IsQuiet u.1
  still-IsQuiet t u e (h, k) = (ap (λ p. p.sessions) e ∙ h, ap (λ p. p.dp_added) e ∙ k)

  and_then-Spares :
      {A B : Type 0} (t : State S) (r : State S × Result A) (k : A → Method S B)
      → IsQuiet t.1
      → part r.0 ≡ part t
      → ((a : A) → Spares (k a))
      → part (and_then r k).0 ≡ part t
  and_then-Spares t (u, ok a) k q h hk = (hk a).spared u (still-IsQuiet t u h q) ∙ h
  and_then-Spares t (u, err e) k q h hk = h

  pub Spares-bind :
      {A B : Type 0} (m : Method S A) (k : A → Method S B)
      → Spares m
      → ((a : A) → Spares (k a))
      → Spares (m >>= k)
  unfolding ◌>>=◌
  Spares-bind m k hm hk = record { spared = λ t q. and_then-Spares t (m t) k q (hm.spared t q) hk }

  pub Spares-pure : {A : Type 0} (a : A) → Spares {S = S} (pure a)
  Spares-pure a = record { spared = λ t q. refl }

  pub Spares-raise : {A : Type 0} (e : Error) → Spares {S = S} {A = A} (raise e)
  Spares-raise e = record { spared = λ t q. refl }

  pub Spares-lift : {A : Type 0} (r : Result A) → Spares {S = S} (lift r)
  Spares-lift r = record { spared = λ t q. refl }

  pub Spares-gets : {A : Type 0} (f : State S → A) → Spares (gets f)
  Spares-gets f = record { spared = λ t q. refl }

  pub Spares-modify :
      (f : State S → State S) → ((t : State S) → part (f t) ≡ part t) → Spares (modify f)
  Spares-modify f h = record { spared = λ t q. h t }

  pub Spares-if :
      {A : Type 0} (b : Bool) (m k : Method S A) → Spares m → Spares k → Spares (if b then m else k)
  Spares-if true m k hm hk = hm
  Spares-if false m k hm hk = hk

  pub Spares-for_each :
      {A : Type 0} (body : A → Method S (Unit {0})) (xs : List A)
      → ((x : A) → Spares (body x))
      → Spares (for_each body xs)
  unfolding for_each
  Spares-for_each body [] h = Spares-pure tt
  Spares-for_each body (x ∷ xs) h = Spares-bind (body x) _ (h x) (λ u. Spares-for_each body xs h)

  pub fire_tunnel-Spares :
      (handler : TunnelFsm → TunnelFsm.Outcome) → Spares {S = S} (fire_tunnel handler)
  unfolding fire_tunnel
  fire_tunnel-Spares handler = record { spared = λ t q. refl }

pub ruleset spares_rules = (
  Spares-bind, Spares-pure, Spares-raise, Spares-lift, Spares-gets, Spares-modify, Spares-if,
  Spares-for_each, fire_tunnel-Spares, refl,
)

pub learn_remote_ccid-part :
    {S : Type 0} (avps : List Avp) (t : State S) → part (t.0, learn_remote_ccid avps t.1) ≡ part t
unfolding learn_remote_ccid
learn_remote_ccid-part avps t = ground arith

module _ {S : Type 0} ⦃c : Crypto⦄ where
  pub send_avps-Spares : (avps : List Avp) → Spares {S = S} (send_avps avps)
  unfolding send_avps
  send_avps-Spares avps = search spares_rules depth 14

module _ {S : Type 0} ⦃c : Crypto⦄ ⦃d : Dataplane S⦄ where
  -- The loops over the sessions have nothing to do.
  pub each_session-Spares :
      (handler : SessionFsm → SessionFsm.Outcome) → Spares {S = S} (each_session handler)
  unfolding each_session ◌>>=◌ for_each
  each_session-Spares handler = record { spared = λ (s, t) q. rw (each_session, q.0) refl }

  pub drop_tunnel_dataplane-Spares : Spares {S = S} drop_tunnel_dataplane
  unfolding drop_tunnel_dataplane ◌>>=◌
  drop_tunnel_dataplane-Spares = record {
    spared = λ (s, t) q. rw (drop_tunnel_dataplane, q.1) refl;
  }
