-- ===== src/Daemon/Tick.antt =====
-- A round of `Daemon._tick_loop` in xcesp_l2tpv3d/main.py: which tunnels it removes.
use xcesp_l2tpv3d.Common.{
  ℕ, Bool, true, false, ◌≡◌, ◌≢◌, refl, ◌∙◌, List, [], ◌∷◌, if◌then◌else◌, All, inl, inr,
}
use xcesp_l2tpv3d.Exception.{Result, ok, err, Result-cases}
use xcesp_l2tpv3d.Struct.{Bytes}
use xcesp_l2tpv3d.Crypto.{Crypto}
use xcesp_l2tpv3d.Peer.{Peer, tick}
use xcesp_l2tpv3d.Dataplane.Interface.{Dataplane}
use xcesp_l2tpv3d.TunnelFsm.{on_peer_dead}
use xcesp_l2tpv3d.TunnelFsm.Returns.{is_ok}
use xcesp_l2tpv3d.Tunnel.Effect.{State, Method, pure, and_then, for_each, ◌>>=◌}
use xcesp_l2tpv3d.Tunnel.Execute.{fire_tunnel, tunnel_actions, transmit}
use xcesp_l2tpv3d.Tunnel.Dispatch.{tick_tunnel}
use xcesp_l2tpv3d.Tunnel.Identity.{tick_tunnel-identity}
use xcesp_l2tpv3d.Daemon.{Daemon, tunnel_at, continue, forget_dead, tick_one, tick_each}
use xcesp_l2tpv3d.Daemon.Table.{tunnel_at-delete_tunnel_ne}
use xcesp_l2tpv3d.Daemon.Demux.{run_on_ne}

-- The answer that comes out of a chain, if one does.
abbrev Answers : {S : Type 0} → Bool → State S × Result Bool → Type 0
Answers dead r = is_ok r.1 ≡ true → r.1 ≡ ok dead

module _ {S A : Type 0} where
  Answers-and_then :
      (r : State S × Result A) (k : A → Method S Bool) (dead : Bool)
      → ((a : A) (t : State S) → Answers dead (k a t))
      → Answers dead (and_then r k)
  Answers-and_then (t, ok a) k dead h = h a t
  Answers-and_then (t, err e) k dead h = λ returned. cc

module _ {S : Type 0} ⦃c : Crypto⦄ ⦃dp : Dataplane S⦄ where
  -- What a tick tells is what the peer tells.
  abbrev Ticks : ℕ → State S → Type 0
  Ticks now t =
      is_ok (tick_tunnel now t).1 ≡ true
      → (resends : List Bytes) × (dead : Bool) × (p : Peer) × (tick now t.1.peer
          ≡ ok (resends, dead, p))
        × ((tick_tunnel now t).1 ≡ ok dead)

  ends :
      (dead : Bool) (t : State S)
      → Answers dead (
          (if dead
              then (fire_tunnel on_peer_dead
                  >>= (λ actions. tunnel_actions actions >>= λ done. pure true))
              else pure false)
            t)
  unfolding ◌>>=◌
  ends true t =
      Answers-and_then (fire_tunnel on_peer_dead t) _ true
        (λ actions u. Answers-and_then (tunnel_actions actions u) _ true (λ done v returned. refl))
  ends false t = λ returned. refl

  pub tick_tunnel-Ticks : (now : ℕ) (t : State S) → Ticks now t
  unfolding tick_tunnel ◌>>=◌
  tick_tunnel-Ticks now (s, t) = elim (Result-cases (tick now t.peer)) as (λ x. Ticks now (s, t)) [
    | inr (e, h) ↦ rw (tick_tunnel, h) (λ returned. cc)
    | inl ((resends, dead, p), h) ↦
        rw (tick_tunnel, h)
          (λ returned. (
            resends,
            dead,
            p,
            refl,
            Answers-and_then (for_each transmit resends _) _ dead (λ done u. ends dead u) returned,
          ))
  ]

module _ {S : Type 0} where
  pub continue_keeps :
      {A : Type 0} (P : Daemon S → Type 0) (r : Daemon S × Result A)
      (next : A → Daemon S → Daemon S × Result (Unit {0}))
      → P r.0
      → ((a : A) (e : Daemon S) → P e → P (next a e).0)
      → P (continue r next).0
  continue_keeps P (e, ok a) next h hk = hk a e h
  continue_keeps P (e, err x) next h hk = h

  pub forget_dead_ne :
      (ccid other : ℕ) (dead : Bool) (d : Daemon S)
      → other ≢ ccid
      → tunnel_at other (forget_dead ccid dead d).tunnels ≡ tunnel_at other d.tunnels
  forget_dead_ne ccid other true d ne = tunnel_at-delete_tunnel_ne other ccid d.tunnels ne
  forget_dead_ne ccid other false d ne = refl

module _ {S : Type 0} ⦃c : Crypto⦄ ⦃dp : Dataplane S⦄ where
  pub tick_one_ne :
      (now ccid other : ℕ) (d : Daemon S)
      → other ≢ ccid
      → tunnel_at other (tick_one now ccid d).0.tunnels ≡ tunnel_at other d.tunnels
  unfolding tick_one
  tick_one_ne now ccid other d ne =
      run_on_ne false ccid other (tick_tunnel now) d (tick_tunnel-identity now) ne

  -- The rest of the loop does not touch an id that is not in it.
  pub tick_each_ne :
      (now other : ℕ) (rest : List ℕ) (d : Daemon S)
      → All (λ x. other ≢ x) rest
      → tunnel_at other (tick_each now rest d).0.tunnels ≡ tunnel_at other d.tunnels
  unfolding tick_each
  tick_each_ne now other [] d h = refl
  tick_each_ne now other (ccid ∷ rest) d h =
      continue_keeps (λ e. tunnel_at other e.tunnels ≡ tunnel_at other d.tunnels)
        (tick_one now ccid d) _ (tick_one_ne now ccid other d h.0)
        (λ dead e same.
          tick_each_ne now other rest (forget_dead ccid dead e) h.1
          ∙ forget_dead_ne ccid other dead e h.0
          ∙ same)
