-- ===== src/Dataplane/Ordered.antt =====
-- The order that `MockDataplane` enforces: a tunnel is there before its sessions and after them.
use xcesp_l2tpv3d.Common.{is_some}
use xcesp_l2tpv3d.Common.{
  ℕ, true, false, ◌≡◌, ◌≢◌, refl, ap, ◌∙◌, arith, none, some, List, [], ◌∷◌, ◌++◌, ◌==◌, Bool-cases,
  Option-cases, inl, inr, All, All-append,
}
use mathlib.Core.Path.{subst}
use xcesp_l2tpv3d.Auth.{eq_bytes_refl}
use xcesp_l2tpv3d.Dataplane.{
  TunnelParams, SessionParams, MockDataplane, IfName, DataplaneError, Returned, returned, raised,
  find_tunnel, find_session, has_key, remove_session, remove_tunnel, is_live, same_params,
  same_encap, Encap, udp, ip, add_tunnel, add_session, del_session, del_tunnel, session_exists,
  unknown_tunnel, sessions_live, different_params,
}

-- Every session stands in a tunnel that is there.
abbrev pub HasTunnel : List TunnelParams → SessionParams → Type 0
HasTunnel tunnels s = is_some (find_tunnel s.local_ccid tunnels) ≡ true

-- No two sessions have the same key.
abbrev pub AreDistinct : List SessionParams → Type 0
AreDistinct [] = Unit
AreDistinct (s ∷ sessions) =
    (find_session s.local_ccid s.local_sid sessions ≡ none) × AreDistinct sessions

pub record IsOrdered (d : MockDataplane) : Type 0 where
  pub in_tunnels : All (HasTunnel d.tunnels) d.sessions
  pub distinct : AreDistinct d.sessions

find_tunnel-append :
    (ccid : ℕ) (tunnels : List TunnelParams) (t : TunnelParams)
    → is_some (find_tunnel ccid tunnels) ≡ true
    → is_some (find_tunnel ccid (tunnels ++ t ∷ [])) ≡ true
unfolding find_tunnel
find_tunnel-append ccid [] t h = absurd (ground arith)
find_tunnel-append ccid (u ∷ tunnels) t h = ground (arith, find_tunnel-append ccid tunnels t)

find_tunnel-remove_ne :
    (ccid gone : ℕ) (tunnels : List TunnelParams)
    → (ccid == gone) ≡ false
    → is_some (find_tunnel ccid (remove_tunnel gone tunnels)) ≡ is_some (find_tunnel ccid tunnels)
unfolding find_tunnel remove_tunnel
find_tunnel-remove_ne ccid gone [] h = refl
find_tunnel-remove_ne ccid gone (u ∷ tunnels) h =
    ground (arith, find_tunnel-remove_ne ccid gone tunnels h)

All-HasTunnel-append :
    (tunnels : List TunnelParams) (t : TunnelParams) (sessions : List SessionParams)
    → All (HasTunnel tunnels) sessions
    → All (HasTunnel (tunnels ++ t ∷ [])) sessions
All-HasTunnel-append tunnels t [] h = tt
All-HasTunnel-append tunnels t (s ∷ sessions) h =
    (find_tunnel-append s.local_ccid tunnels t h.0, All-HasTunnel-append tunnels t sessions h.1)

All-HasTunnel-remove :
    (tunnels : List TunnelParams) (gone : ℕ) (sessions : List SessionParams)
    → is_live gone sessions ≡ false
    → All (HasTunnel tunnels) sessions
    → All (HasTunnel (remove_tunnel gone tunnels)) sessions
unfolding is_live
All-HasTunnel-remove tunnels gone [] live h = tt
All-HasTunnel-remove tunnels gone (s ∷ sessions) live h = (
  find_tunnel-remove_ne s.local_ccid gone tunnels (ground arith) ∙ h.0,
  All-HasTunnel-remove tunnels gone sessions (ground arith) h.1,
)

All-remove_session :
    (tunnels : List TunnelParams) (ccid sid : ℕ) (sessions : List SessionParams)
    → All (HasTunnel tunnels) sessions
    → All (HasTunnel tunnels) (remove_session ccid sid sessions)
unfolding remove_session
All-remove_session tunnels ccid sid [] h = tt
All-remove_session tunnels ccid sid (s ∷ sessions) h =
    elim (Bool-cases (has_key ccid sid s))
      as (λ x. All (HasTunnel tunnels) (remove_session ccid sid (s ∷ sessions))) [
        | inl e ↦ rw (remove_session, e) h.1
        | inr e ↦ rw (remove_session, e) (h.0, All-remove_session tunnels ccid sid sessions h.1)
      ]

find_session-remove_session :
    (c s ccid sid : ℕ) (sessions : List SessionParams)
    → find_session c s sessions ≡ none
    → find_session c s (remove_session ccid sid sessions) ≡ none
unfolding find_session remove_session
find_session-remove_session c s ccid sid [] h = refl
find_session-remove_session c s ccid sid (p ∷ sessions) h =
    ground (arith, find_session-remove_session c s ccid sid sessions)

find_session-append :
    (c s : ℕ) (sessions : List SessionParams) (p : SessionParams)
    → find_session c s sessions ≡ none
    → has_key c s p ≡ false
    → find_session c s (sessions ++ p ∷ []) ≡ none
unfolding find_session
find_session-append c s [] p h n = ground arith
find_session-append c s (q ∷ sessions) p h n = ground (arith, find_session-append c s sessions p)

remove_session-AreDistinct :
    (ccid sid : ℕ) (sessions : List SessionParams)
    → AreDistinct sessions
    → AreDistinct (remove_session ccid sid sessions)
unfolding remove_session
remove_session-AreDistinct ccid sid [] d = tt
remove_session-AreDistinct ccid sid (s ∷ sessions) d =
    elim (Bool-cases (has_key ccid sid s))
      as (λ x. AreDistinct (remove_session ccid sid (s ∷ sessions))) [
        | inl e ↦ rw (remove_session, e) d.1
        | inr e ↦
            rw (remove_session, e)
              (
                find_session-remove_session s.local_ccid s.local_sid ccid sid sessions d.0,
                remove_session-AreDistinct ccid sid sessions d.1,
              )
      ]

append-AreDistinct :
    (sessions : List SessionParams) (p : SessionParams)
    → AreDistinct sessions
    → find_session p.local_ccid p.local_sid sessions ≡ none
    → AreDistinct (sessions ++ p ∷ [])
unfolding find_session
append-AreDistinct [] p d n = (refl, tt)
append-AreDistinct (s ∷ sessions) p d n = (
  find_session-append s.local_ccid s.local_sid sessions p d.0 (ground arith),
  append-AreDistinct sessions p d.1 (ground arith),
)

-- An operation of the dataplane that was asked for.
pub data Request : Type 0 where
  new_tunnel : TunnelParams → Request
  new_session : SessionParams → Request
  end_session : ℕ → ℕ → Request
  end_tunnel : ℕ → Request

abbrev pub without_name : Returned (IfName × MockDataplane) → Returned MockDataplane
without_name (raised e) = raised e
without_name (returned (name, d)) = returned d

abbrev pub serve : Request → MockDataplane → Returned MockDataplane
serve (new_tunnel params) d = add_tunnel params d
serve (new_session params) d = without_name (add_session params d)
serve (end_session ccid sid) d = returned (del_session ccid sid d)
serve (end_tunnel ccid) d = del_tunnel ccid d

-- The reason for an exception.
abbrev pub Refused : Request → MockDataplane → DataplaneError → Type 0
Refused (new_tunnel params) d different_params =
    (t : TunnelParams) × (find_tunnel params.local_ccid d.tunnels ≡ some t) × (t ≢ params)
Refused (new_session params) d session_exists =
    is_some (find_session params.local_ccid params.local_sid d.sessions) ≡ true
Refused (new_session params) d unknown_tunnel = find_tunnel params.local_ccid d.tunnels ≡ none
Refused (end_tunnel ccid) d sessions_live = is_live ccid d.sessions ≡ true
Refused _ d _ = ⊥

abbrev pub Serves : Request → MockDataplane → Returned MockDataplane → Type 0
Serves r d (raised e) = Refused r d e
Serves r d (returned after) = IsOrdered after

same_encap_refl : (e : Encap) → same_encap e e ≡ true
same_encap_refl udp = refl
same_encap_refl ip = refl

same_params_refl : (t : TunnelParams) → same_params t t ≡ true
same_params_refl t =
    ground (
      arith,
      eq_bytes_refl t.local_address,
      eq_bytes_refl t.remote_address,
      same_encap_refl t.encap,
    )

differ : (t u : TunnelParams) → same_params t u ≡ false → t ≢ u
differ t u other same =
    let equal = subst (λ v. same_params t v ≡ true) same (same_params_refl t) in
    absurd (ground (arith, equal, other))

add_tunnel-Serves :
    (params : TunnelParams) (d : MockDataplane)
    → IsOrdered d
    → Serves (new_tunnel params) d (add_tunnel params d)
unfolding add_tunnel
add_tunnel-Serves params d o =
    elim (Option-cases (find_tunnel params.local_ccid d.tunnels))
      as (λ x. Serves (new_tunnel params) d (add_tunnel params d)) [
        | inl e ↦
            rw (add_tunnel, e)
              (record {
                in_tunnels = All-HasTunnel-append d.tunnels params d.sessions o.in_tunnels;
                distinct = o.distinct;
              })
        | inr (t, e) ↦
            elim (Bool-cases (same_params t params))
              as (λ x. Serves (new_tunnel params) d (add_tunnel params d)) [
                | inl same ↦ rw (add_tunnel, e, same) o
                | inr other ↦ rw (add_tunnel, e, other) (t, e, λ same. differ t params other same)
              ]
      ]

add_session-Serves :
    (params : SessionParams) (d : MockDataplane)
    → IsOrdered d
    → Serves (new_session params) d (without_name (add_session params d))
unfolding add_session
add_session-Serves params d o =
    elim (Option-cases (find_session params.local_ccid params.local_sid d.sessions))
      as (λ x. Serves (new_session params) d (without_name (add_session params d))) [
        | inr (s, e) ↦ rw (add_session, e) (ap is_some e)
        | inl e ↦
            elim (Option-cases (find_tunnel params.local_ccid d.tunnels))
              as (λ x. Serves (new_session params) d (without_name (add_session params d))) [
                | inl none_there ↦ rw (add_session, e, none_there) none_there
                | inr (t, there) ↦
                    rw (add_session, e, there)
                      (record {
                        in_tunnels =
                            All-append (HasTunnel d.tunnels) d.sessions (params ∷ []) o.in_tunnels
                              (ap is_some there, tt);
                        distinct = append-AreDistinct d.sessions params o.distinct e;
                      })
              ]
      ]

del_session-IsOrdered :
    (ccid sid : ℕ) (d : MockDataplane) → IsOrdered d → IsOrdered (del_session ccid sid d)
unfolding del_session
del_session-IsOrdered ccid sid d o =
    elim (Option-cases (find_session ccid sid d.sessions))
      as (λ x. IsOrdered (del_session ccid sid d)) [
        | inl e ↦ rw (del_session, e) o
        | inr (s, e) ↦
            rw (del_session, e)
              (record {
                in_tunnels = All-remove_session d.tunnels ccid sid d.sessions o.in_tunnels;
                distinct = remove_session-AreDistinct ccid sid d.sessions o.distinct;
              })
      ]

del_tunnel-Serves :
    (ccid : ℕ) (d : MockDataplane) → IsOrdered d → Serves (end_tunnel ccid) d (del_tunnel ccid d)
unfolding del_tunnel
del_tunnel-Serves ccid d o =
    elim (Option-cases (find_tunnel ccid d.tunnels))
      as (λ x. Serves (end_tunnel ccid) d (del_tunnel ccid d)) [
        | inl e ↦ rw (del_tunnel, e) o
        | inr (t, e) ↦
            elim (Bool-cases (is_live ccid d.sessions))
              as (λ x. Serves (end_tunnel ccid) d (del_tunnel ccid d)) [
                | inl live ↦ rw (del_tunnel, e, live) live
                | inr free ↦
                    rw (del_tunnel, e, free)
                      (record {
                        in_tunnels =
                            All-HasTunnel-remove d.tunnels ccid d.sessions free o.in_tunnels;
                        distinct = o.distinct;
                      })
              ]
      ]

-- Every operation keeps the order: each session stands in a tunnel that is there, and no two have
-- the same ids. An exception has its reason: a tunnel that is there with other parameters, a
-- session that is there, a tunnel that is not, or sessions that still stand in it.
pub serve-Serves : (r : Request) (d : MockDataplane) → IsOrdered d → Serves r d (serve r d)
serve-Serves (new_tunnel params) d o = add_tunnel-Serves params d o
serve-Serves (new_session params) d o = add_session-Serves params d o
serve-Serves (end_session ccid sid) d o = del_session-IsOrdered ccid sid d o
serve-Serves (end_tunnel ccid) d o = del_tunnel-Serves ccid d o
