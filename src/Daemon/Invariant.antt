-- ===== src/Daemon/Invariant.antt =====
-- Invariants of `Daemon` in xcesp_l2tpv3d/main.py: what holds of every tunnel and of what the tunnels
-- share, over the turns of its loops.
use xcesp_l2tpv3d.Common.{
  ℕ, ◌≡◌, Bool, true, false, some, List, [], ◌∷◌, length, ltb, All, arith, Bool-cases, Option-cases,
  inl, inr, ◌==◌,
}
use mathlib.Core.Path.{subst}
use xcesp_l2tpv3d.Exception.{Result, Result-cases}
use xcesp_l2tpv3d.Struct.{Bytes}
use xcesp_l2tpv3d.Crypto.{Crypto}
use xcesp_l2tpv3d.Dataplane.Interface.{Dataplane}
use xcesp_l2tpv3d.Config.{TunnelConfigEntry}
use xcesp_l2tpv3d.Tunnel.{Shared, Tunnel, new_tunnel}
use xcesp_l2tpv3d.Tunnel.Effect.{State, Method}
use xcesp_l2tpv3d.Tunnel.Dispatch as Dispatch
use xcesp_l2tpv3d.Tunnel.Armed.{Input, started, closed, received, run}
use xcesp_l2tpv3d.Daemon.{
  Daemon, tunnel_at, put_tunnel, delete_tunnel, ccids, dest_ccid, run_on, settle, forget_dead,
  start_tunnels, start_daemon, dispatch_datagram, tick_one, tick_each, tick_round, close_each, stop,
}
use xcesp_l2tpv3d.Daemon.Table.{AreDistinct, put_tunnel-AreDistinct, delete_tunnel-AreDistinct}
use xcesp_l2tpv3d.Daemon.Tick.{continue_keeps}

-- What the loops of the daemon do, one at a time.
pub data Turn : Type 0 where
  begin end : Turn
  datagram : Bytes → Turn
  round : ℕ → Turn

module _ {S : Type 0} ⦃c : Crypto⦄ ⦃dp : Dataplane S⦄ where
  abbrev pub take_turn : Turn → Daemon S → Daemon S × Result (Unit {0})
  take_turn begin d = start_daemon d
  take_turn end d = stop d
  take_turn (datagram buf) d = dispatch_datagram buf d
  take_turn (round now) d = tick_round now d

  -- Turns one after the other, also where one has raised.
  unfoldable pub take_turns : List Turn → Daemon S → Daemon S
  take_turns [] d = d
  take_turns (turn ∷ turns) d = take_turns turns (take_turn turn d).0

module _ (Q : Tunnel → Type 0) where
  put_tunnel-All :
      (t : Tunnel) (tunnels : List Tunnel) → Q t → All Q tunnels → All Q (put_tunnel t tunnels)
  unfolding put_tunnel
  put_tunnel-All t [] w h = (w, tt)
  put_tunnel-All t (u ∷ tunnels) w h =
      elim (Bool-cases (u.cfg.local_ccid == t.cfg.local_ccid))
        as (λ x. All Q (put_tunnel t (u ∷ tunnels))) [
          | inl e ↦ rw (put_tunnel, e) (w, h.1)
          | inr e ↦ rw (put_tunnel, e) (h.0, put_tunnel-All t tunnels w h.1)
        ]

  delete_tunnel-All :
      (ccid : ℕ) (tunnels : List Tunnel) → All Q tunnels → All Q (delete_tunnel ccid tunnels)
  unfolding delete_tunnel
  delete_tunnel-All ccid [] h = tt
  delete_tunnel-All ccid (u ∷ tunnels) h =
      elim (Bool-cases (u.cfg.local_ccid == ccid))
        as (λ x. All Q (delete_tunnel ccid (u ∷ tunnels))) [
          | inl e ↦ rw (delete_tunnel, e) h.1
          | inr e ↦ rw (delete_tunnel, e) (h.0, delete_tunnel-All ccid tunnels h.1)
        ]

  pub tunnel_at-All :
      (ccid : ℕ) (t : Tunnel) (tunnels : List Tunnel)
      → All Q tunnels
      → tunnel_at ccid tunnels ≡ some t
      → Q t
  unfolding tunnel_at
  tunnel_at-All ccid t [] h e = absurd (ground arith)
  tunnel_at-All ccid t (u ∷ tunnels) h e = elim (Bool-cases (u.cfg.local_ccid == ccid)) [
    | inl same ↦ let found : u ≡ t = ground (arith, same, e) in subst Q found h.0
    | inr other ↦ tunnel_at-All ccid t tunnels h.1 (ground (arith, other, e))
  ]

-- No two tunnels have the same id, `R` holds of what they share, `Q` of each of them, and `C` of the
-- configuration of each that is to be started.
pub record Holds {S : Type 0} (R : Shared S → Type 0) (Q : Tunnel → Type 0)
    (C : TunnelConfigEntry → Type 0) (d : Daemon S) : Type 0 where
  pub distinct : AreDistinct d.tunnels
  pub shared : R d.shared
  pub tunnels : All Q d.tunnels
  pub configured : All C d.cfg.tunnels

module _ {S : Type 0} (R : Shared S → Type 0) (Q : Tunnel → Type 0) where
  -- A method keeps both.
  abbrev pub Respects : {A : Type 0} → Method S A → Type 0
  Respects m = (t : State S) → R t.0 → Q t.1 → R (m t).0.0 × Q (m t).0.1

  module _ (C : TunnelConfigEntry → Type 0) where
    settle-Holds :
        {A : Type 0} (d : Daemon S) (r : State S × Result A)
        → Holds R Q C d
        → R r.0.0 × Q r.0.1
        → Holds R Q C (settle d r).0
    settle-Holds d ((s, t), r) h w = record {
      distinct = put_tunnel-AreDistinct t d.tunnels h.distinct;
      shared = w.0;
      tunnels = put_tunnel-All Q t d.tunnels w.1 h.tunnels;
      configured = h.configured;
    }

    pub run_on-Holds :
        {A : Type 0} (a : A) (ccid : ℕ) (m : Method S A) (d : Daemon S)
        → Holds R Q C d
        → Respects m
        → Holds R Q C (run_on a (tunnel_at ccid d.tunnels) m d).0
    run_on-Holds a ccid m d h k =
        elim (Option-cases (tunnel_at ccid d.tunnels))
          as (λ x. Holds R Q C (run_on a (tunnel_at ccid d.tunnels) m d).0) [
            | inl e ↦ rw e h
            | inr (t, e) ↦ rw e (
                settle-Holds d (m (d.shared, t)) h
                  (k (d.shared, t) h.shared (tunnel_at-All Q ccid t d.tunnels h.tunnels e)))
          ]

    pub forget_dead-Holds :
        (ccid : ℕ) (dead : Bool) (d : Daemon S)
        → Holds R Q C d
        → Holds R Q C (forget_dead ccid dead d)
    forget_dead-Holds ccid true d h = record {
      distinct = delete_tunnel-AreDistinct ccid d.tunnels h.distinct;
      shared = h.shared;
      tunnels = delete_tunnel-All Q ccid d.tunnels h.tunnels;
      configured = h.configured;
    }
    forget_dead-Holds ccid false d h = h

-- Whatever runs on a tunnel respects `R` and `Q`, and a tunnel as configured starts with `Q`.
pub record Preserves {S : Type 0} ⦃c : Crypto⦄ ⦃dp : Dataplane S⦄ (R : Shared S → Type 0)
    (Q : Tunnel → Type 0) (C : TunnelConfigEntry → Type 0) : Type 0 where
  pub runs : (i : Input) → Respects R Q (run i)
  pub ticks : (now : ℕ) → Respects R Q (Dispatch.tick_tunnel now)
  pub news : (tcfg : TunnelConfigEntry) → C tcfg → Q (new_tunnel tcfg)

module _ {S : Type 0} ⦃c : Crypto⦄ ⦃dp : Dataplane S⦄ {R : Shared S → Type 0} {Q : Tunnel → Type 0}
    {C : TunnelConfigEntry → Type 0} (p : Preserves R Q C) where
  tick_each-Holds :
      (now : ℕ) (rest : List ℕ) (d : Daemon S)
      → Holds R Q C d
      → Holds R Q C (tick_each now rest d).0
  unfolding tick_each tick_one
  tick_each-Holds now [] d h = h
  tick_each-Holds now (ccid ∷ rest) d h =
      continue_keeps (Holds R Q C) (tick_one now ccid d) _
        (run_on-Holds R Q C false ccid (Dispatch.tick_tunnel now) d h (p.ticks now))
        (λ dead e k.
          tick_each-Holds now rest (forget_dead ccid dead e)
            (forget_dead-Holds R Q C ccid dead e k))

  close_each-Holds :
      (rest : List ℕ) (d : Daemon S) → Holds R Q C d → Holds R Q C (close_each rest d).0
  unfolding close_each
  close_each-Holds [] d h = h
  close_each-Holds (ccid ∷ rest) d h =
      continue_keeps (Holds R Q C) (run_on tt (tunnel_at ccid d.tunnels) Dispatch.close d) _
        (run_on-Holds R Q C tt ccid Dispatch.close d h (p.runs closed))
        (λ done e k. close_each-Holds rest e k)

  start_tunnels-Holds :
      (tcfgs : List TunnelConfigEntry) (d : Daemon S)
      → All C tcfgs
      → Holds R Q C d
      → Holds R Q C (start_tunnels tcfgs d).0
  unfolding start_tunnels
  start_tunnels-Holds [] d i h = h
  start_tunnels-Holds (tcfg ∷ tcfgs) d i h =
      continue_keeps (Holds R Q C) (settle d (Dispatch.start (d.shared, new_tunnel tcfg))) _
        (settle-Holds R Q C d (Dispatch.start (d.shared, new_tunnel tcfg)) h
          (p.runs started (d.shared, new_tunnel tcfg) h.shared (p.news tcfg i.0)))
        (λ done e k. start_tunnels-Holds tcfgs e i.1 k)

  dispatch_datagram-Holds :
      (buf : Bytes) (d : Daemon S) → Holds R Q C d → Holds R Q C (dispatch_datagram buf d).0
  unfolding dispatch_datagram
  dispatch_datagram-Holds buf d h =
      elim (Bool-cases (ltb (length buf) 12)) as (λ x. Holds R Q C (dispatch_datagram buf d).0) [
        | inl e ↦ rw (dispatch_datagram, e) h
        | inr e ↦
            elim (Result-cases (dest_ccid buf)) as (λ x. Holds R Q C (dispatch_datagram buf d).0) [
              | inr (x, e2) ↦ rw (dispatch_datagram, e, e2) h
              | inl (ccid, e2) ↦
                  rw (dispatch_datagram, e, e2)
                    (run_on-Holds R Q C tt ccid (Dispatch.handle_datagram buf) d h
                      (p.runs (received buf)))
            ]
      ]

  take_turn-Holds : (turn : Turn) (d : Daemon S) → Holds R Q C d → Holds R Q C (take_turn turn d).0
  unfolding start_daemon stop tick_round
  take_turn-Holds begin d h = start_tunnels-Holds d.cfg.tunnels d h.configured h
  take_turn-Holds end d h =
      close_each-Holds (ccids d.tunnels) (record d { stopping = true })
        (record {
          distinct = h.distinct;
          shared = h.shared;
          tunnels = h.tunnels;
          configured = h.configured;
        })
  take_turn-Holds (datagram buf) d h = dispatch_datagram-Holds buf d h
  take_turn-Holds (round now) d h = tick_each-Holds now (ccids d.tunnels) d h

  -- Starting, receiving, ticking and stopping, in any order and whether they return or raise, keep
  -- what every method of a tunnel keeps.
  pub take_turns-Holds :
      (turns : List Turn) (d : Daemon S) → Holds R Q C d → Holds R Q C (take_turns turns d)
  unfolding take_turns
  take_turns-Holds [] d h = h
  take_turns-Holds (turn ∷ turns) d h =
      take_turns-Holds turns (take_turn turn d).0 (take_turn-Holds turn d h)
