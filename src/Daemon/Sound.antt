-- ===== src/Daemon/Sound.antt =====
-- The table of `Daemon` in xcesp_l2tpv3d/main.py: its tunnels have different ids and well-formed peers.
use xcesp_l2tpv3d.Common.{◌≤◌, refl, List}
use xcesp_l2tpv3d.Crypto.{Crypto}
use xcesp_l2tpv3d.Peer.{retransmit_max_interval}
use xcesp_l2tpv3d.Peer.Invariant.{WellFormed}
use xcesp_l2tpv3d.Peer.Reachable.{Reaches-WellFormed, start}
use xcesp_l2tpv3d.Dataplane.Interface.{Dataplane}
use xcesp_l2tpv3d.Config.{TunnelConfigEntry}
use xcesp_l2tpv3d.Tunnel.{Shared, Tunnel, new_tunnel, peer_of}
use xcesp_l2tpv3d.Tunnel.WellFormed.{run-WellFormed, tick_tunnel-Keeps}
use xcesp_l2tpv3d.Daemon.{Daemon}
use xcesp_l2tpv3d.Daemon.Invariant.{Turn, take_turns, Holds, Preserves, take_turns-Holds}

-- The configured timers are within the longest.
abbrev pub HasInterval : TunnelConfigEntry → Type 0
HasInterval tcfg = tcfg.retransmit_interval ≤ retransmit_max_interval

module _ ⦃c : Crypto⦄ where
  abbrev pub HasPeer : Tunnel → Type 0
  HasPeer t = WellFormed t.peer

  -- No two tunnels have the same id, and the peer of each is well-formed.
  abbrev pub IsSound : {S : Type 0} → Daemon S → Type 0
  IsSound d = Holds (λ s. Unit) HasPeer HasInterval d

  new_tunnel-WellFormed :
      (tcfg : TunnelConfigEntry) → HasInterval tcfg → WellFormed (new_tunnel tcfg).peer
  unfolding new_tunnel
  new_tunnel-WellFormed tcfg h =
      Reaches-WellFormed (peer_of tcfg) (peer_of tcfg) (start (peer_of tcfg)) _ _ _ _ _ _ h refl

module _ {S : Type 0} ⦃c : Crypto⦄ ⦃dp : Dataplane S⦄ where
  WellFormed-Preserves : Preserves (λ (s : Shared S). Unit) HasPeer HasInterval
  WellFormed-Preserves = record {
    runs = λ i t any w. (tt, run-WellFormed i t w);
    ticks = λ now t any w. (tt, (tick_tunnel-Keeps now).kept t w);
    news = new_tunnel-WellFormed;
  }

  -- Starting, receiving, ticking and stopping, in any order and whether they return or raise, leave
  -- a table in which no two tunnels have the same id and every peer is well-formed, if it was so
  -- before and the configured intervals are 16 s at most.
  pub take_turns-IsSound :
      (turns : List Turn) (d : Daemon S) → IsSound d → IsSound (take_turns turns d)
  take_turns-IsSound turns d h = take_turns-Holds WellFormed-Preserves turns d h
