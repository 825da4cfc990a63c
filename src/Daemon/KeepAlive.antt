-- ===== src/Daemon/KeepAlive.antt =====
-- `Daemon` of xcesp_l2tpv3d/main.py with a configuration that lists no sessions, for which the process
-- makes no dataplane.
use xcesp_l2tpv3d.Common.{◌≡◌, refl, ◌∙◌, ap, Option, List, [], All}
use xcesp_l2tpv3d.Crypto.{Crypto}
use xcesp_l2tpv3d.Dataplane.Interface.{Dataplane}
use xcesp_l2tpv3d.Config.{TunnelConfigEntry, DaemonConfig}
use xcesp_l2tpv3d.Tunnel.{Shared, new_tunnel, new_sessions}
use xcesp_l2tpv3d.Tunnel.Quiet.{IsQuiet, still-IsQuiet}
use xcesp_l2tpv3d.Tunnel.Dispatch.{tick_tunnel}
use xcesp_l2tpv3d.Tunnel.KeepAlive.{run-IsQuiet, tick_tunnel-Spares}
use xcesp_l2tpv3d.Daemon.{new_daemon}
use xcesp_l2tpv3d.Daemon.Invariant.{Turn, take_turns, Preserves, take_turns-Holds}

abbrev pub HasNoSessions : TunnelConfigEntry → Type 0
HasNoSessions tcfg = tcfg.sessions ≡ []

new_tunnel-IsQuiet : (tcfg : TunnelConfigEntry) → HasNoSessions tcfg → IsQuiet (new_tunnel tcfg)
unfolding new_tunnel new_sessions
new_tunnel-IsQuiet tcfg h = (ap (λ scfgs. new_sessions tcfg.local_ccid scfgs []) h, refl)

module _ {S : Type 0} ⦃c : Crypto⦄ ⦃dp : Dataplane S⦄ where
  IsQuiet-Preserves :
      (before : Option S) → Preserves (λ s. s.dataplane ≡ before) IsQuiet HasNoSessions
  IsQuiet-Preserves before = record {
    runs = λ i t same q. let (kept, still) = run-IsQuiet i t q in (kept ∙ same, still);
    ticks = λ now t same q.
        let spared = (tick_tunnel-Spares now).spared t q in
        (ap (λ p. p.dataplane) spared ∙ same, still-IsQuiet t (tick_tunnel now t).0 spared q);
    news = new_tunnel-IsQuiet;
  }

  -- A daemon whose configuration lists no sessions does not touch the dataplane, if it has one,
  -- whatever is started, received, ticked and stopped in whatever order: it runs without one.
  pub take_turns_dataplane :
      (cfg : DaemonConfig) (shared : Shared S) (turns : List Turn)
      → All HasNoSessions cfg.tunnels
      → (take_turns turns (new_daemon cfg shared)).shared.dataplane ≡ shared.dataplane
  take_turns_dataplane cfg shared turns none_listed =
      (take_turns-Holds (IsQuiet-Preserves shared.dataplane) turns (new_daemon cfg shared)
        (record { distinct = tt; shared = refl; tunnels = tt; configured = none_listed })).shared
