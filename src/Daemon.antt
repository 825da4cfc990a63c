-- ===== src/Daemon.antt =====
-- `Daemon` of xcesp_l2tpv3d/main.py: the table of the tunnels, and what its loops do in one round.
pub mod Table
pub mod Demux
pub mod Tick
pub mod Removal
pub mod Invariant
pub mod Sound
pub mod KeepAlive
pub mod Round
use xcesp_l2tpv3d.Common.{
  ℕ, Bool, true, false, Option, none, some, List, [], ◌∷◌, map, length, take, drop, ltb, ◌==◌,
  if◌then◌else◌,
}
use xcesp_l2tpv3d.Exception.{Result, ok, err}
use xcesp_l2tpv3d.Struct.{Bytes, unpack_u32}
use xcesp_l2tpv3d.Crypto.{Crypto}
use xcesp_l2tpv3d.Dataplane.Interface.{Dataplane}
use xcesp_l2tpv3d.Config.{TunnelConfigEntry, DaemonConfig}
use xcesp_l2tpv3d.Tunnel.{Shared, Tunnel, new_tunnel}
use xcesp_l2tpv3d.Tunnel.Effect.{State, Method}
use xcesp_l2tpv3d.Tunnel.Dispatch.{start, close, handle_datagram, tick_tunnel}

-- The tunnels stand in the order of their insertion, each under its `local_ccid`.
pub record Daemon (S : Type 0) : Type 0 where
  pub cfg : DaemonConfig
  pub shared : Shared S
  pub tunnels : List Tunnel
  pub stopping : Bool

-- `Daemon.__init__`
abbrev pub new_daemon : {S : Type 0} → DaemonConfig → Shared S → Daemon S
new_daemon cfg shared = record { cfg = cfg; shared = shared; tunnels = []; stopping = false }

-- `self._tunnels.get(ccid)`
unfoldable pub tunnel_at : ℕ → List Tunnel → Option Tunnel
tunnel_at ccid [] = none
tunnel_at ccid (t ∷ tunnels) = if t.cfg.local_ccid == ccid then some t else tunnel_at ccid tunnels

-- `self._tunnels[t.local_ccid] = t`
unfoldable pub put_tunnel : Tunnel → List Tunnel → List Tunnel
put_tunnel t [] = t ∷ []
put_tunnel t (u ∷ tunnels) =
    if u.cfg.local_ccid == t.cfg.local_ccid then t ∷ tunnels else u ∷ put_tunnel t tunnels

-- `del self._tunnels[ccid]`
unfoldable pub delete_tunnel : ℕ → List Tunnel → List Tunnel
delete_tunnel ccid [] = []
delete_tunnel ccid (t ∷ tunnels) =
    if t.cfg.local_ccid == ccid then tunnels else t ∷ delete_tunnel ccid tunnels

-- The fields `dest_ccid` is read from.
abbrev pub dest_ccid : Bytes → Result ℕ
dest_ccid buf = unpack_u32 (take 4 (drop 4 buf))

abbrev pub ccids : List Tunnel → List ℕ
ccids tunnels = map (λ (t : Tunnel). t.cfg.local_ccid) tunnels

module _ {S : Type 0} where
  -- A method that ran on a tunnel: the tunnel and what is shared are as it left them.
  abbrev pub settle : {A : Type 0} → Daemon S → State S × Result A → Daemon S × Result A
  settle d ((s, t), r) = (record d { shared = s; tunnels = put_tunnel t d.tunnels }, r)

  abbrev pub run_on : {A : Type 0} → A → Option Tunnel → Method S A → Daemon S → Daemon S × Result A
  run_on a none method d = (d, ok a)
  run_on a (some t) method d = settle d (method (d.shared, t))

  -- The next step of a loop, unless this one raised.
  abbrev pub continue :
      {A : Type 0}
      → Daemon S × Result A
      → (A → Daemon S → Daemon S × Result (Unit {0}))
      → Daemon S × Result (Unit {0})
  continue (d, ok a) next = next a d
  continue (d, err e) next = (d, err e)

  -- `if is_dead`
  abbrev pub forget_dead : ℕ → Bool → Daemon S → Daemon S
  forget_dead ccid dead d = if dead then record d { tunnels = delete_tunnel ccid d.tunnels } else d

module _ {S : Type 0} ⦃c : Crypto⦄ ⦃dp : Dataplane S⦄ where
  -- The loop of `start`
  unfoldable pub start_tunnels : List TunnelConfigEntry → Daemon S → Daemon S × Result (Unit {0})
  start_tunnels [] d = (d, ok tt)
  start_tunnels (tcfg ∷ tcfgs) d =
      continue (settle d (start (d.shared, new_tunnel tcfg))) (λ done e. start_tunnels tcfgs e)

  -- `Daemon.start`
  unfoldable pub start_daemon : Daemon S → Daemon S × Result (Unit {0})
  start_daemon d = start_tunnels d.cfg.tunnels d

  -- `_dispatch_datagram`
  unfoldable pub dispatch_datagram : Bytes → Daemon S → Daemon S × Result (Unit {0})
  dispatch_datagram buf d = if ltb (length buf) 12 then (d, ok tt) else elim (dest_ccid buf) [
    | err e ↦ (d, err e)
    | ok ccid ↦ run_on tt (tunnel_at ccid d.tunnels) (handle_datagram buf) d
  ]

  -- The body of the loop over the tunnels in `_tick_loop`.
  unfoldable pub tick_one : ℕ → ℕ → Daemon S → Daemon S × Result Bool
  tick_one now ccid d = run_on false (tunnel_at ccid d.tunnels) (tick_tunnel now) d

  unfoldable pub tick_each : ℕ → List ℕ → Daemon S → Daemon S × Result (Unit {0})
  tick_each now [] d = (d, ok tt)
  tick_each now (ccid ∷ rest) d =
      continue (tick_one now ccid d) (λ dead e. tick_each now rest (forget_dead ccid dead e))

  -- A round of `_tick_loop`
  unfoldable pub tick_round : ℕ → Daemon S → Daemon S × Result (Unit {0})
  tick_round now d = tick_each now (ccids d.tunnels) d

  unfoldable pub close_each : List ℕ → Daemon S → Daemon S × Result (Unit {0})
  close_each [] d = (d, ok tt)
  close_each (ccid ∷ rest) d =
      continue (run_on tt (tunnel_at ccid d.tunnels) close d) (λ done e. close_each rest e)

  -- `Daemon.stop`
  unfoldable pub stop : Daemon S → Daemon S × Result (Unit {0})
  stop d = close_each (ccids d.tunnels) (record d { stopping = true })
