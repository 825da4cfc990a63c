-- ===== src/Daemon/Round.antt =====
-- A round of `Daemon._tick_loop` in xcesp_l2tpv3d/main.py returns, and what it leaves in the table.
use xcesp_l2tpv3d.Common.{
  ℕ, Bool, true, false, not, ◌≡◌, refl, some, is_some, List, [], ◌∷◌, Option-cases, inl, inr,
}
use xcesp_l2tpv3d.Exception.{Result, ok, err}
use xcesp_l2tpv3d.Struct.{Bytes}
use xcesp_l2tpv3d.Crypto.{Crypto}
use xcesp_l2tpv3d.Peer.{Peer, tick}
use xcesp_l2tpv3d.Dataplane.Interface.{Dataplane}
use xcesp_l2tpv3d.TunnelFsm.Returns.{is_ok}
use xcesp_l2tpv3d.Tunnel.{Tunnel}
use xcesp_l2tpv3d.Tunnel.Dispatch.{tick_tunnel}
use xcesp_l2tpv3d.Tunnel.WellFormed.{tick_tunnel-Keeps}
use xcesp_l2tpv3d.Tunnel.Returns.{tick_tunnel-returns}
use xcesp_l2tpv3d.Daemon.{
  Daemon, tunnel_at, ccids, continue, forget_dead, tick_one, tick_each, tick_round,
}
use xcesp_l2tpv3d.Daemon.Removal.{tick_round-Settles}
use xcesp_l2tpv3d.Daemon.Invariant.{run_on-Holds, forget_dead-Holds, tunnel_at-All}
use xcesp_l2tpv3d.Daemon.Sound.{IsSound, HasInterval, HasPeer}

module _ {S : Type 0} ⦃c : Crypto⦄ ⦃dp : Dataplane S⦄ where
  tick_one-returns :
      (now ccid : ℕ) (d : Daemon S) → IsSound d → is_ok (tick_one now ccid d).1 ≡ true
  unfolding tick_one
  tick_one-returns now ccid d h =
      elim (Option-cases (tunnel_at ccid d.tunnels))
        as (λ x. is_ok (tick_one now ccid d).1 ≡ true) [
          | inl e ↦ rw (tick_one, e) refl
          | inr (t, e) ↦
              rw (tick_one, e)
                (tick_tunnel-returns now (d.shared, t)
                  (tunnel_at-All HasPeer ccid t d.tunnels h.tunnels e))
        ]

  tick_each-returns :
      (now : ℕ) (rest : List ℕ) (d : Daemon S) → IsSound d → is_ok (tick_each now rest d).1 ≡ true
  unfolding tick_each tick_one
  tick_each-returns now [] d h = refl
  tick_each-returns now (ccid ∷ rest) d h =
      next (tick_one now ccid d) (tick_one-returns now ccid d h)
        (run_on-Holds (λ s. Unit) HasPeer HasInterval false ccid (tick_tunnel now) d h
          (λ t any w. (tt, (tick_tunnel-Keeps now).kept t w)))
        (λ e k. tick_each-returns now rest e k)
    where
      next :
          (r : Daemon S × Result Bool)
          → is_ok r.1 ≡ true
          → IsSound r.0
          → ((e : Daemon S) → IsSound e → is_ok (tick_each now rest e).1 ≡ true)
          → is_ok (continue r (λ dead e. tick_each now rest (forget_dead ccid dead e))).1 ≡ true
      next (e, ok dead) returned k go =
          go (forget_dead ccid dead e)
            (forget_dead-Holds (λ s. Unit) HasPeer HasInterval ccid dead e k)
      next (e, err x) returned k go = cc

  -- A round of ticks returns, and a tunnel that stood in the table is still there if and only if its
  -- peer, asked with the state that it had before, did not report itself dead. No two tunnels of the
  -- table have the same id, and their peers are well-formed.
  pub tick_round-removes_dead :
      (now ccid : ℕ) (t : Tunnel) (d : Daemon S)
      → IsSound d
      → tunnel_at ccid d.tunnels ≡ some t
      → (is_ok (tick_round now d).1 ≡ true)
        × ((resends : List Bytes) × (dead : Bool) × (p : Peer) × (tick now t.peer
              ≡ ok (resends, dead, p))
            × (is_some (tunnel_at ccid (tick_round now d).0.tunnels) ≡ not dead))
  unfolding tick_round
  tick_round-removes_dead now ccid t d h e =
      let returned = tick_each-returns now (ccids d.tunnels) d h in
      (returned, tick_round-Settles now ccid t d h.distinct e returned)
