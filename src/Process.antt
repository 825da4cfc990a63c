-- ===== src/Process.antt =====
-- `main` and `_async_main` of xcesp_l2tpv3d/main.py, up to the loops of the daemon.
pub mod Provides
use xcesp_l2tpv3d.Common.{
  ℕ, Bool, true, false, not, ◌||◌, Option, none, some, List, [], ◌∷◌, is_some, if◌then◌else◌,
}
use xcesp_l2tpv3d.Exception.{Error, Result, ok, err}
use xcesp_l2tpv3d.Crypto.{Crypto}
use xcesp_l2tpv3d.Dataplane.Interface.{Dataplane}
use xcesp_l2tpv3d.Config.{SessionConfigEntry, TunnelConfigEntry, DaemonConfig}
use xcesp_l2tpv3d.Config.Check.{Failure, Checked, failed, passed, config_error}
use xcesp_l2tpv3d.Tunnel.{Shared}
use xcesp_l2tpv3d.Daemon.{Daemon, new_daemon, start_daemon}

-- What the operating system does: whether the socket can be bound, the dataplane that
-- `default_dataplane` returns unless it raises, and the time.
pub record System (S : Type 0) : Type 0 where
  pub binds : Bool
  pub default_dataplane : Option S
  pub time : ℕ

-- The process ends with an exit code, or its loops run, or it ends with an exception of `load_file`
-- or of `Daemon.start`.
pub data Ending (S : Type 0) : Type 0 where
  exits : ℕ → Ending S
  serves : Daemon S → Ending S
  load_raises : Failure → Ending S
  start_raises : Error → Daemon S → Ending S

abbrev pub has_sessions : List SessionConfigEntry → Bool
has_sessions [] = false
has_sessions (scfg ∷ scfgs) = true

-- `needs_dp`
unfoldable pub needs_dataplane : List TunnelConfigEntry → Bool
needs_dataplane [] = false
needs_dataplane (t ∷ tunnels) = has_sessions t.sessions || needs_dataplane tunnels

abbrev pub shared_of : {S : Type 0} → System S → Option S → Shared S
shared_of sys dataplane = record { transport = []; time = sys.time; dataplane = dataplane }

module _ {S : Type 0} where
  abbrev pub began : Daemon S × Result (Unit {0}) → Ending S
  began (d, ok done) = serves d
  began (d, err e) = start_raises e d

module _ {S : Type 0} ⦃c : Crypto⦄ ⦃dp : Dataplane S⦄ where
  abbrev pub serve_with : System S → Option S → DaemonConfig → Ending S
  serve_with sys dataplane cfg = began (start_daemon (new_daemon cfg (shared_of sys dataplane)))

  abbrev pub with_default : System S → Option S → DaemonConfig → Ending S
  with_default sys none cfg = exits 3
  with_default sys (some d) cfg = serve_with sys (some d) cfg

  -- `_async_main`
  unfoldable pub async_main : System S → DaemonConfig → Ending S
  async_main sys cfg =
      if not sys.binds
      then exits 3
      else if needs_dataplane cfg.tunnels
      then with_default sys sys.default_dataplane cfg
      else serve_with sys none cfg

  -- `main`, of what `load_file` returns or raises.
  unfoldable pub main : System S → Checked DaemonConfig → Ending S
  main sys (failed (config_error fault)) = exits 2
  main sys (failed e) = load_raises e
  main sys (passed cfg) = async_main sys cfg
