-- ===== src/Config/Drives.antt =====
-- What a configuration that xcesp_l2tpv3d/config.py accepts means for the state machines and the daemon
-- that are built from it.
use xcesp_l2tpv3d.Common.{ℕ, ◌≡◌, refl, Option, none, some, List, [], ◌∷◌, All, arith}
use xcesp_l2tpv3d.Struct.{Bytes}
use xcesp_l2tpv3d.Crypto.{Crypto}
use xcesp_l2tpv3d.Dataplane.Interface.{Dataplane}
use xcesp_l2tpv3d.TunnelFsm.Returns.{IsValid, FitsU16}
use xcesp_l2tpv3d.Config.{TunnelConfigEntry, DaemonConfig}
use xcesp_l2tpv3d.Config.Value.{
  Value, Values, Table, nil, cons, array, table, end, lookup, or_default,
}
use xcesp_l2tpv3d.Config.Convert.{Python}
use xcesp_l2tpv3d.Config.Check.{
  Checked, passed, ◌>>=◌, ◌>>◌, fail_if, tunnel_no_table, tunnel_no_array, duplicate_tunnel_name,
}
use xcesp_l2tpv3d.Config.Tunnel.{
  has_name, dict_of, list_of, parse_tunnel, tunnels_loop, parse_tunnels,
}
use xcesp_l2tpv3d.Config.Load.{parse_global, parse_config}
use xcesp_l2tpv3d.Config.Unique.{IsNew, has_name-IsNew}
use xcesp_l2tpv3d.Config.Ensures.{Ensures, Ensures-bind, Ensures-any, AtMost, of_passed}
use xcesp_l2tpv3d.Config.Accepted.{IsAccepted, parse_tunnel-Ensures}
use xcesp_l2tpv3d.Tunnel.{Shared, tunnel_config}
use xcesp_l2tpv3d.Daemon.{new_daemon}
use xcesp_l2tpv3d.Daemon.Invariant.{Turn, take_turns}
use xcesp_l2tpv3d.Daemon.Sound.{IsSound, HasInterval, take_turns-IsSound}

-- No two tunnels have the same name.
abbrev pub HaveNames : List TunnelConfigEntry → List Bytes → Type 0
HaveNames [] names = Unit
HaveNames (e ∷ tunnels) names = IsNew e.name names × HaveNames tunnels (e.name ∷ names)

fits : (o : Option ℕ) → AtMost 0xFFFF o → FitsU16 o
fits none h = tt
fits (some n) h = omega arith

module _ ⦃py : Python⦄ where
  abbrev pub AllAccepted : List Bytes → List TunnelConfigEntry → Type 0
  AllAccepted names tunnels = All IsAccepted tunnels × HaveNames tunnels names

  abbrev after_tunnel : Values → List Bytes → TunnelConfigEntry → Checked (List TunnelConfigEntry)
  after_tunnel rest names e = do
    fail_if (has_name e.name names) duplicate_tunnel_name
    tunnels ← tunnels_loop rest (e.name ∷ names)
    passed (e ∷ tunnels)

  tunnels_loop-AllAccepted :
      (vs : Values) (names : List Bytes) → Ensures (AllAccepted names) (tunnels_loop vs names)
  unfolding tunnels_loop
  tunnels_loop-AllAccepted nil names = (tt, tt)
  tunnels_loop-AllAccepted (cons v vs) names =
      Ensures-any (AllAccepted names) (dict_of tunnel_no_table v) _ (λ t.
        Ensures-bind IsAccepted (AllAccepted names) (parse_tunnel t) (after_tunnel vs names)
          (parse_tunnel-Ensures t)
          (λ e accepted. ground (
            arith,
            accepted,
            has_name-IsNew e.name names,
            tunnels_loop-AllAccepted vs (e.name ∷ names),
          )))

  parse_tunnels-AllAccepted : (v : Value) → Ensures (AllAccepted []) (parse_tunnels v)
  unfolding parse_tunnels
  parse_tunnels-AllAccepted v =
      Ensures-any (AllAccepted []) (list_of tunnel_no_array v) _
        (λ vs. tunnels_loop-AllAccepted vs [])

  parse_config-AllAccepted :
      (t : Table) → Ensures (λ cfg. AllAccepted [] cfg.tunnels) (parse_config t)
  unfolding parse_config
  parse_config-AllAccepted t =
      Ensures-any (λ (cfg : DaemonConfig). AllAccepted [] cfg.tunnels)
        (parse_global (or_default (lookup "global" t) (table end))) _
        (λ g.
          Ensures-bind (AllAccepted []) (λ (cfg : DaemonConfig). AllAccepted [] cfg.tunnels)
            (parse_tunnels (or_default (lookup "tunnel" t) (array nil)))
            (λ tunnels. passed (record { global = g; tunnels = tunnels }))
            (parse_tunnels-AllAccepted (or_default (lookup "tunnel" t) (array nil)))
            (λ tunnels h. h))

  IsAccepted-IsValid : (e : TunnelConfigEntry) → IsAccepted e → IsValid (tunnel_config e)
  IsAccepted-IsValid e a = record {
    router_id_fits = omega (arith, a.ids.router_high);
    ccid_fits = omega (arith, a.ids.ccid_high);
    some_capability = (5, 4 ∷ [], refl);
    capabilities_fit = omega arith;
    window_fits = omega (arith, a.limits.window_high);
    firmware_fits = fits e.firmware_revision a.limits.revision_high;
  }

  All-IsValid :
      (tunnels : List TunnelConfigEntry)
      → All IsAccepted tunnels
      → All (λ e. IsValid (tunnel_config e)) tunnels
  All-IsValid [] h = tt
  All-IsValid (e ∷ tunnels) h = (IsAccepted-IsValid e h.0, All-IsValid tunnels h.1)

  -- The tunnels of a configuration that is accepted have different names. The router id, the
  -- connection id and the receive window that the state machine of each is configured with fit their
  -- AVPs, and so do the pseudowire capabilities, of which there is one at least, and the firmware
  -- revision, if there is one. Of the host name and the vendor name nothing is said.
  pub parse_config-IsValid :
      (t : Table) (cfg : DaemonConfig)
      → parse_config t ≡ passed cfg
      → HaveNames cfg.tunnels [] × All (λ e. IsValid (tunnel_config e)) cfg.tunnels
  parse_config-IsValid t cfg h =
      let (accepted, names) =
        of_passed (λ (k : DaemonConfig). AllAccepted [] k.tunnels) (parse_config t)
          (parse_config-AllAccepted t) h in
      (names, All-IsValid cfg.tunnels accepted)

  HasInterval-IsAccepted :
      (tunnels : List TunnelConfigEntry) → All IsAccepted tunnels → All HasInterval tunnels
  HasInterval-IsAccepted [] h = tt
  HasInterval-IsAccepted (e ∷ tunnels) h =
      (omega (arith, h.0.timers.interval_high), HasInterval-IsAccepted tunnels h.1)

module _ ⦃py : Python⦄ {S : Type 0} ⦃c : Crypto⦄ ⦃dp : Dataplane S⦄ where
  -- A daemon that runs from an accepted configuration keeps no two tunnels with one id and only
  -- well-formed peers, whatever is started, received, ticked and stopped in whatever order.
  pub parse_config-IsSound :
      (t : Table) (cfg : DaemonConfig) (shared : Shared S) (turns : List Turn)
      → parse_config t ≡ passed cfg
      → IsSound (take_turns turns (new_daemon cfg shared))
  parse_config-IsSound t cfg shared turns h =
      let (accepted, names) =
        of_passed (λ (k : DaemonConfig). AllAccepted [] k.tunnels) (parse_config t)
          (parse_config-AllAccepted t) h in
      take_turns-IsSound turns (new_daemon cfg shared) (record {
        distinct = tt;
        shared = tt;
        tunnels = tt;
        configured = HasInterval-IsAccepted cfg.tunnels accepted;
      })
