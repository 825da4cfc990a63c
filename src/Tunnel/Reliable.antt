-- ===== src/Tunnel/Reliable.antt =====
-- The methods of `Tunnel` in xcesp_l2tpv3d/main.py drive its `Peer` through well-formed states only.
use xcesp_l2tpv3d.Common.{
  ℕ, Bool, true, false, ◌≡◌, refl, ap, Option, none, some, List, [], ◌∷◌, if◌then◌else◌, arith,
  Bool-cases, Option-cases, inl, inr, ◌==◌,
}
use mathlib.Core.Path.{subst}
use xcesp_l2tpv3d.Exception.{Error, Result, ok, err, Result-cases}
use xcesp_l2tpv3d.Crypto.{Crypto}
use xcesp_l2tpv3d.Avp.{Avp}
use xcesp_l2tpv3d.Peer.{send}
use xcesp_l2tpv3d.Peer.Invariant.{WellFormed, send-WellFormed}
use xcesp_l2tpv3d.Dataplane.{Returned}
use xcesp_l2tpv3d.TunnelFsm as TunnelFsm
use xcesp_l2tpv3d.TunnelFsm.{TunnelFsm, on_local_open, on_local_close, on_hello_timer, on_peer_dead}
use xcesp_l2tpv3d.SessionFsm.{SessionFsm, on_tunnel_established, on_tunnel_down}
use xcesp_l2tpv3d.SessionFsm as SessionFsm
use xcesp_l2tpv3d.Tunnel.{find_sid}
use xcesp_l2tpv3d.Tunnel.Effect.{
  State, Method, pure, raise, lift, gets, modify, and_then, ◌>>=◌, for_each,
}
use xcesp_l2tpv3d.Tunnel.Execute.{fire_tunnel, fire, fired, on_dataplane, send_avps, wire_of}

module _ ⦃c : Crypto⦄ where
  -- The method leaves the peer well-formed, whether it returns or raises.
  pub record Keeps {S A : Type 0} (method : Method S A) : Type 0 where
    pub kept : (t : State S) → WellFormed t.1.peer → WellFormed (method t).0.1.peer

  module _ {S : Type 0} where
    pub and_then-Keeps :
        {A B : Type 0} (r : State S × Result A) (k : A → Method S B)
        → WellFormed r.0.1.peer
        → ((a : A) → Keeps (k a))
        → WellFormed (and_then r k).0.1.peer
    and_then-Keeps (u, ok a) k h hk = (hk a).kept u h
    and_then-Keeps (u, err e) k h hk = h

    pub Keeps-bind :
        {A B : Type 0} (m : Method S A) (k : A → Method S B)
        → Keeps m
        → ((a : A) → Keeps (k a))
        → Keeps (m >>= k)
    unfolding ◌>>=◌
    Keeps-bind m k hm hk = record { kept = λ t w. and_then-Keeps (m t) k (hm.kept t w) hk }

    pub Keeps-pure : {A : Type 0} (a : A) → Keeps {S = S} (pure a)
    Keeps-pure a = record { kept = λ t w. w }

    pub Keeps-raise : {A : Type 0} (e : Error) → Keeps {S = S} {A = A} (raise e)
    Keeps-raise e = record { kept = λ t w. w }

    pub Keeps-lift : {A : Type 0} (r : Result A) → Keeps {S = S} (lift r)
    Keeps-lift r = record { kept = λ t w. w }

    pub Keeps-gets : {A : Type 0} (f : State S → A) → Keeps (gets f)
    Keeps-gets f = record { kept = λ t w. w }

    pub Keeps-modify :
        (f : State S → State S) → ((t : State S) → (f t).1.peer ≡ t.1.peer) → Keeps (modify f)
    Keeps-modify f h = record { kept = λ t w. rw (h t) w }

    pub Keeps-if :
        {A : Type 0} (b : Bool) (m k : Method S A) → Keeps m → Keeps k → Keeps (if b then m else k)
    Keeps-if true m k hm hk = hm
    Keeps-if false m k hm hk = hk

    pub Keeps-for_each :
        {A : Type 0} (body : A → Method S (Unit {0})) (xs : List A)
        → ((x : A) → Keeps (body x))
        → Keeps (for_each body xs)
    unfolding for_each
    Keeps-for_each body [] h = Keeps-pure tt
    Keeps-for_each body (x ∷ xs) h = Keeps-bind (body x) _ (h x) (λ u. Keeps-for_each body xs h)

  pub ruleset keeps_rules = (
    Keeps-bind, Keeps-pure, Keeps-raise, Keeps-lift, Keeps-gets, Keeps-modify, Keeps-if,
    Keeps-for_each, refl,
  )

  fired-peer :
      {S : Type 0} (sid : ℕ) (handler : SessionFsm → SessionFsm.Outcome) (t : State S)
      (o : Option SessionFsm)
      → (fired sid handler t o).0.1.peer ≡ t.1.peer
  fired-peer sid handler t none = refl
  fired-peer sid handler t (some sess) = refl

  pub fire-Keeps :
      {S : Type 0} (handler : SessionFsm → SessionFsm.Outcome) (sid : ℕ)
      → Keeps {S = S} (fire handler sid)
  unfolding fire
  fire-Keeps handler sid = record {
    kept = λ t w. rw (fired-peer sid handler t (find_sid sid t.1.sessions_by_local)) w;
  }

  pub fire_tunnel-Keeps :
      {S : Type 0} (handler : TunnelFsm → TunnelFsm.Outcome) → Keeps {S = S} (fire_tunnel handler)
  unfolding fire_tunnel
  fire_tunnel-Keeps handler = record { kept = λ t w. w }

  pub on_dataplane-Keeps :
      {S R : Type 0} (operation : S → S × Returned R) → Keeps (on_dataplane operation)
  unfolding on_dataplane
  on_dataplane-Keeps operation = record { kept = λ t w. w }

  pub send_avps-Keeps : {S : Type 0} (avps : List Avp) → Keeps {S = S} (send_avps avps)
  unfolding send_avps ◌>>=◌
  send_avps-Keeps {S = S} avps = record {
    kept = λ (s, t) w.
        elim (Result-cases (send avps s.time t.peer))
          as (λ x. WellFormed (send_avps {S = S} avps (s, t)).0.1.peer) [
            | inr (e, h) ↦ rw (send_avps, h) w
            | inl ((m, q), h) ↦
                elim (Result-cases (wire_of t.cfg m))
                  as (λ x. WellFormed (send_avps {S = S} avps (s, t)).0.1.peer) [
                    | inr (e, h2) ↦
                        rw (send_avps, h, h2) (send-WellFormed t.peer q avps s.time m w h)
                    | inl (wire, h2) ↦
                        rw (send_avps, h, h2) (send-WellFormed t.peer q avps s.time m w h)
                  ]
          ];
  }
