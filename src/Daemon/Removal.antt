-- ===== src/Daemon/Removal.antt =====
-- Which tunnels a round of `Daemon._tick_loop` in xcesp_l2tpv3d/main.py removes.
use xcesp_l2tpv3d.Common.{
  ℕ, Bool, true, false, not, ◌≡◌, ◌≢◌, refl, ap, ◌∙◌, Option, none, some, is_some, List, All, arith,
}
use xcesp_l2tpv3d.Exception.{Result, ok, err}
use xcesp_l2tpv3d.Struct.{Bytes}
use xcesp_l2tpv3d.Crypto.{Crypto}
use xcesp_l2tpv3d.Peer.{Peer, tick}
use xcesp_l2tpv3d.Dataplane.Interface.{Dataplane}
use xcesp_l2tpv3d.TunnelFsm.Returns.{is_ok}
use xcesp_l2tpv3d.Tunnel.{Tunnel}
use xcesp_l2tpv3d.Tunnel.Effect.{Method}
use xcesp_l2tpv3d.Tunnel.Dispatch.{tick_tunnel}
use xcesp_l2tpv3d.Tunnel.Identity.{tick_tunnel-identity}
use xcesp_l2tpv3d.Daemon.{
  Daemon, tunnel_at, ccids, run_on, continue, forget_dead, tick_one, tick_each, tick_round,
}
use xcesp_l2tpv3d.Daemon.Table.{
  tunnel_at-delete_tunnel, AreDistinct, put_tunnel-AreDistinct, delete_tunnel-AreDistinct, Once,
  here, there, ccids-Once,
}
use xcesp_l2tpv3d.Daemon.Demux.{run_on_same}
use xcesp_l2tpv3d.Daemon.Tick.{tick_one_ne, tick_each_ne, forget_dead_ne, tick_tunnel-Ticks}

module _ {S : Type 0} where
  pub run_on-AreDistinct :
      {A : Type 0} (a : A) (o : Option Tunnel) (m : Method S A) (d : Daemon S)
      → AreDistinct d.tunnels
      → AreDistinct (run_on a o m d).0.tunnels
  run_on-AreDistinct a none m d h = h
  run_on-AreDistinct a (some t) m d h = put_tunnel-AreDistinct (m (d.shared, t)).0.1 d.tunnels h

  forget_dead-AreDistinct :
      (ccid : ℕ) (dead : Bool) (d : Daemon S)
      → AreDistinct d.tunnels
      → AreDistinct (forget_dead ccid dead d).tunnels
  forget_dead-AreDistinct ccid true d h = delete_tunnel-AreDistinct ccid d.tunnels h
  forget_dead-AreDistinct ccid false d h = h

  forget_dead_same :
      (ccid : ℕ) (dead : Bool) (d : Daemon S) (t : Tunnel)
      → AreDistinct d.tunnels
      → tunnel_at ccid d.tunnels ≡ some t
      → is_some (tunnel_at ccid (forget_dead ccid dead d).tunnels) ≡ not dead
  forget_dead_same ccid true d t h e = ap is_some (tunnel_at-delete_tunnel ccid d.tunnels h)
  forget_dead_same ccid false d t h e = ap is_some e

module _ {S : Type 0} ⦃c : Crypto⦄ ⦃dp : Dataplane S⦄ where
  -- The peer told whether it is dead, and the tunnel is there afterwards if and only if it is not.
  abbrev pub Settles : ℕ → ℕ → Tunnel → Daemon S × Result (Unit {0}) → Type 0
  Settles now ccid t (d, r) =
      is_ok r ≡ true
      → (resends : List Bytes) × (dead : Bool) × (p : Peer) × (tick now t.peer
          ≡ ok (resends, dead, p))
        × (is_some (tunnel_at ccid d.tunnels) ≡ not dead)

  -- What is known of the daemon after the tick of this tunnel.
  abbrev Ticked : ℕ → ℕ → Tunnel → Daemon S × Result Bool → Type 0
  Ticked now ccid t (d, r) =
      (is_ok r ≡ true
        → (resends : List Bytes) × (dead : Bool) × (p : Peer) × (tick now t.peer
            ≡ ok (resends, dead, p))
          × (r ≡ ok dead))
      × ((u : Tunnel) × (tunnel_at ccid d.tunnels ≡ some u))
      × AreDistinct d.tunnels

  tick_one-Ticked :
      (now ccid : ℕ) (t : Tunnel) (d : Daemon S)
      → AreDistinct d.tunnels
      → tunnel_at ccid d.tunnels ≡ some t
      → Ticked now ccid t (tick_one now ccid d)
  unfolding tick_one
  tick_one-Ticked now ccid t d h e =
      rw (tick_one, e)
        (
          tick_tunnel-Ticks now (d.shared, t),
          (_, run_on_same false ccid (tick_tunnel now) d t (tick_tunnel-identity now) e),
          run_on-AreDistinct false (some t) (tick_tunnel now) d h,
        )

  -- The rest of the loop, which does not reach the tunnel again.
  rest-Settles :
      (now ccid : ℕ) (t : Tunnel) (rest : List ℕ) (r : Daemon S × Result Bool)
      → All (λ x. ccid ≢ x) rest
      → Ticked now ccid t r
      → Settles now ccid t (continue r (λ dead e. tick_each now rest (forget_dead ccid dead e)))
  rest-Settles now ccid t rest (d, err x) away h returned = cc
  rest-Settles now ccid t rest (d, ok told) away (answer, (u, there_u), distinct) returned =
      let (resends, dead, p, ticked, e) = answer refl in
      (
        resends,
        told,
        p,
        ticked ∙ ground (arith, e),
        ap is_some (tick_each_ne now ccid rest (forget_dead ccid told d) away)
            ∙ forget_dead_same ccid told d u distinct there_u,
      )

  tick_each-Settles :
      (now ccid : ℕ) (t : Tunnel) (rest : List ℕ) (d : Daemon S)
      → Once ccid rest
      → AreDistinct d.tunnels
      → tunnel_at ccid d.tunnels ≡ some t
      → Settles now ccid t (tick_each now rest d)
  unfolding tick_each tick_one
  tick_each-Settles now ccid t _ d (here rest away) h e =
      rest-Settles now ccid t rest (tick_one now ccid d) away (tick_one-Ticked now ccid t d h e)
  tick_each-Settles now ccid t _ d (there x rest ne once) h e =
      later (tick_one now x d) (tick_one_ne now x ccid d ne ∙ e)
        (run_on-AreDistinct false (tunnel_at x d.tunnels) (tick_tunnel now) d h)
        (λ f h2 e2. tick_each-Settles now ccid t rest f once h2 e2)
    where
      later :
          (r : Daemon S × Result Bool)
          → tunnel_at ccid r.0.tunnels ≡ some t
          → AreDistinct r.0.tunnels
          → ((f : Daemon S)
              → AreDistinct f.tunnels
              → tunnel_at ccid f.tunnels ≡ some t
              → Settles now ccid t (tick_each now rest f))
          → Settles now ccid t (continue r (λ dead e. tick_each now rest (forget_dead x dead e)))
      later (f, err _) there_t distinct next = λ returned. cc
      later (f, ok dead) there_t distinct next =
          next (forget_dead x dead f) (forget_dead-AreDistinct x dead f distinct)
            (forget_dead_ne x ccid dead f ne ∙ there_t)

  -- After a round of ticks, if it returns.
  pub tick_round-Settles :
      (now ccid : ℕ) (t : Tunnel) (d : Daemon S)
      → AreDistinct d.tunnels
      → tunnel_at ccid d.tunnels ≡ some t
      → Settles now ccid t (tick_round now d)
  unfolding tick_round
  tick_round-Settles now ccid t d h e =
      tick_each-Settles now ccid t (ccids d.tunnels) d (ccids-Once ccid t d.tunnels h e) h e
