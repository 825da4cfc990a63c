-- ===== src/Daemon/Table.antt =====
-- The table of the tunnels of `Daemon` in xcesp_l2tpv3d/main.py.
use xcesp_l2tpv3d.Common.{
  ℕ, ◌≡◌, ◌≢◌, refl, sym, Bool-cases, inl, inr, none, some, List, [], ◌∷◌, ◌==◌, ==_iff, All, arith,
}
use mathlib.Core.Path.{subst}
use xcesp_l2tpv3d.Tunnel.{Tunnel}
use xcesp_l2tpv3d.Daemon.{tunnel_at, put_tunnel, delete_tunnel, ccids}

pub tunnel_at-put_tunnel_ne :
    (ccid : ℕ) (t : Tunnel) (tunnels : List Tunnel)
    → ccid ≢ t.cfg.local_ccid
    → tunnel_at ccid (put_tunnel t tunnels) ≡ tunnel_at ccid tunnels
unfolding tunnel_at put_tunnel
tunnel_at-put_tunnel_ne ccid t [] h = ground arith
tunnel_at-put_tunnel_ne ccid t (u ∷ tunnels) h =
    ground (arith, tunnel_at-put_tunnel_ne ccid t tunnels h)

pub tunnel_at-put_tunnel :
    (ccid : ℕ) (t : Tunnel) (tunnels : List Tunnel)
    → ccid ≡ t.cfg.local_ccid
    → tunnel_at ccid (put_tunnel t tunnels) ≡ some t
unfolding tunnel_at put_tunnel
tunnel_at-put_tunnel ccid t [] h = ground arith
tunnel_at-put_tunnel ccid t (u ∷ tunnels) h = ground (arith, tunnel_at-put_tunnel ccid t tunnels h)

pub tunnel_at-delete_tunnel_ne :
    (ccid gone : ℕ) (tunnels : List Tunnel)
    → ccid ≢ gone
    → tunnel_at ccid (delete_tunnel gone tunnels) ≡ tunnel_at ccid tunnels
unfolding tunnel_at delete_tunnel
tunnel_at-delete_tunnel_ne ccid gone [] h = refl
tunnel_at-delete_tunnel_ne ccid gone (u ∷ tunnels) h =
    ground (arith, tunnel_at-delete_tunnel_ne ccid gone tunnels h)

-- What is found under an id has that id.
pub tunnel_at_ccid :
    (ccid : ℕ) (t : Tunnel) (tunnels : List Tunnel)
    → tunnel_at ccid tunnels ≡ some t
    → t.cfg.local_ccid ≡ ccid
unfolding tunnel_at
tunnel_at_ccid ccid t [] e = cc
tunnel_at_ccid ccid t (u ∷ tunnels) e = ground (arith, tunnel_at_ccid ccid t tunnels)

-- No two tunnels have the same id.
abbrev pub AreDistinct : List Tunnel → Type 0
AreDistinct [] = Unit
AreDistinct (t ∷ tunnels) = (tunnel_at t.cfg.local_ccid tunnels ≡ none) × AreDistinct tunnels

pub put_tunnel-AreDistinct :
    (t : Tunnel) (tunnels : List Tunnel) → AreDistinct tunnels → AreDistinct (put_tunnel t tunnels)
unfolding put_tunnel tunnel_at
put_tunnel-AreDistinct t [] h = (refl, tt)
put_tunnel-AreDistinct t (u ∷ tunnels) h = ground (
  arith,
  put_tunnel-AreDistinct t tunnels h.1,
  tunnel_at-put_tunnel_ne u.cfg.local_ccid t tunnels,
)

pub delete_tunnel-AreDistinct :
    (ccid : ℕ) (tunnels : List Tunnel)
    → AreDistinct tunnels
    → AreDistinct (delete_tunnel ccid tunnels)
unfolding delete_tunnel tunnel_at
delete_tunnel-AreDistinct ccid [] h = tt
delete_tunnel-AreDistinct ccid (u ∷ tunnels) h = ground (
  arith,
  delete_tunnel-AreDistinct ccid tunnels h.1,
  tunnel_at-delete_tunnel_ne u.cfg.local_ccid ccid tunnels,
)

pub tunnel_at-delete_tunnel :
    (ccid : ℕ) (tunnels : List Tunnel)
    → AreDistinct tunnels
    → tunnel_at ccid (delete_tunnel ccid tunnels) ≡ none
unfolding delete_tunnel tunnel_at
tunnel_at-delete_tunnel ccid [] h = refl
tunnel_at-delete_tunnel ccid (u ∷ tunnels) h =
    ground (arith, tunnel_at-delete_tunnel ccid tunnels h.1)

-- An id that stands in a list exactly once.
pub data Once (ccid : ℕ) : List ℕ → Type 0 where
  here : (rest : List ℕ) → All (λ x. ccid ≢ x) rest → Once ccid (ccid ∷ rest)
  there : (x : ℕ) (rest : List ℕ) → ccid ≢ x → Once ccid rest → Once ccid (x ∷ rest)

absent :
    (ccid : ℕ) (tunnels : List Tunnel)
    → tunnel_at ccid tunnels ≡ none
    → All (λ x. ccid ≢ x) (ccids tunnels)
unfolding tunnel_at
absent ccid [] h = tt
absent ccid (u ∷ tunnels) h = (ground arith, absent ccid tunnels (ground arith))

pub ccids-Once :
    (ccid : ℕ) (t : Tunnel) (tunnels : List Tunnel)
    → AreDistinct tunnels
    → tunnel_at ccid tunnels ≡ some t
    → Once ccid (ccids tunnels)
unfolding tunnel_at
ccids-Once ccid t [] h e = absurd (ground arith)
ccids-Once ccid t (u ∷ tunnels) h e = elim (Bool-cases (u.cfg.local_ccid == ccid)) [
  | inl same ↦
      let same_id = (==_iff u.cfg.local_ccid ccid).0 same in
      subst (λ x. Once ccid (x ∷ ccids tunnels)) (sym same_id)
        (here (ccids tunnels)
          (absent ccid tunnels (subst (λ x. tunnel_at x tunnels ≡ none) same_id h.0)))
  | inr other ↦
      there u.cfg.local_ccid (ccids tunnels) (ground arith)
        (ccids-Once ccid t tunnels h.1 (ground arith))
]
