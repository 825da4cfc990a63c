-- ===== src/Process/Provides.antt =====
-- When `_async_main` of xcesp_l2tpv3d/main.py makes a dataplane, and what follows for the daemon.
use xcesp_l2tpv3d.Common.{
  ◌≡◌, refl, ap, Bool, true, false, none, List, [], ◌∷◌, All, Bool-cases, inl, inr,
}
use xcesp_l2tpv3d.Exception.{Result, ok, err}
use xcesp_l2tpv3d.Crypto.{Crypto}
use xcesp_l2tpv3d.Dataplane.Interface.{Dataplane}
use xcesp_l2tpv3d.Config.{SessionConfigEntry, TunnelConfigEntry, DaemonConfig}
use xcesp_l2tpv3d.Daemon.{Daemon, new_daemon, start_daemon}
use xcesp_l2tpv3d.Daemon.Invariant.{Turn, begin, take_turns}
use xcesp_l2tpv3d.Daemon.KeepAlive.{HasNoSessions, take_turns_dataplane}
use xcesp_l2tpv3d.Process.{
  System, Ending, exits, serves, load_raises, start_raises, has_sessions, began, needs_dataplane,
  shared_of, async_main,
}

has_sessions_none : (scfgs : List SessionConfigEntry) → scfgs ≡ [] → has_sessions scfgs ≡ false
has_sessions_none scfgs e = ap has_sessions e

needs_dataplane_none :
    (tunnels : List TunnelConfigEntry) → All HasNoSessions tunnels → needs_dataplane tunnels ≡ false
unfolding needs_dataplane
needs_dataplane_none [] h = refl
needs_dataplane_none (t ∷ tunnels) h =
    rw (has_sessions_none t.sessions h.0) (needs_dataplane_none tunnels h.1)

module _ {S : Type 0} ⦃c : Crypto⦄ ⦃dp : Dataplane S⦄ where
  -- The process has no dataplane: it ends with the code 3 only where the socket cannot be bound, and
  -- a daemon that it starts has none, after the turns that it takes.
  abbrev pub IsBare : Bool → List Turn → Ending S → Type 0
  IsBare binds turns (exits code) = (code ≡ 3) × (binds ≡ false)
  IsBare binds turns (serves d) = (take_turns turns d).shared.dataplane ≡ none
  IsBare binds turns (start_raises e d) = d.shared.dataplane ≡ none
  IsBare binds turns (load_raises e) = ⊥

  began-IsBare :
      (binds : Bool) (turns : List Turn) (r : Daemon S × Result (Unit {0}))
      → r.0.shared.dataplane ≡ none
      → (take_turns turns r.0).shared.dataplane ≡ none
      → IsBare binds turns (began r)
  began-IsBare binds turns (d, ok done) now later = later
  began-IsBare binds turns (d, err e) now later = now

  -- Where no tunnel of the configuration lists a session, the process starts without a dataplane,
  -- whether one could be made or not: it ends with the code 3 only if the socket cannot be bound;
  -- otherwise a daemon is there, which serves or whose start raised, and it has no dataplane: if it
  -- serves, neither after whatever is received, ticked and stopped in whatever order.
  pub async_main-IsBare :
      (sys : System S) (cfg : DaemonConfig) (turns : List Turn)
      → All HasNoSessions cfg.tunnels
      → IsBare sys.binds turns (async_main sys cfg)
  unfolding async_main take_turns
  async_main-IsBare sys cfg turns none_listed =
      let first = new_daemon cfg (shared_of sys none) in
      let needless = needs_dataplane_none cfg.tunnels none_listed in
      elim (Bool-cases sys.binds) as (λ x. IsBare sys.binds turns (async_main sys cfg)) [
        | inr b ↦ rw (async_main, b) (refl, refl)
        | inl b ↦
            rw (async_main, b, needless)
              (began-IsBare true turns (start_daemon first)
                (take_turns_dataplane cfg (shared_of sys none) (begin ∷ []) none_listed)
                (take_turns_dataplane cfg (shared_of sys none) (begin ∷ turns) none_listed))
      ]
