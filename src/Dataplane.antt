-- ===== src/Dataplane.antt =====
-- xcesp_l2tpv3d/dataplane.py: the parameters of tunnels and sessions, and `MockDataplane`.
pub mod Ordered
pub mod Interface
pub mod IpCommand
pub mod Agreement
use xcesp_l2tpv3d.Common.{
  ℕ, Bool, true, false, not, ◌&&◌, ◌||◌, Option, none, some, List, [], ◌∷◌, ◌++◌, ◌==◌,
  if◌then◌else◌,
}
use xcesp_l2tpv3d.Struct.{Bytes}
use xcesp_l2tpv3d.Auth.{eq_bytes}

-- `encap`: `"udp"` or `"ip"`.
pub data Encap : Type 0 where
  udp ip : Encap

pub record TunnelParams : Type 0 where
  pub local_ccid : ℕ
  pub remote_ccid : ℕ
  pub local_address : Bytes
  pub remote_address : Bytes
  pub encap : Encap
  pub udp_sport : ℕ
  pub udp_dport : ℕ

-- The name of a netdev: a given text, or `l2tpeth-<local_ccid>-<local_sid>`.
pub data IfName : Type 0 where
  named : Bytes → IfName
  l2tpeth : ℕ → ℕ → IfName

-- `l2spec_type` and `pseudowire_type`, which are texts.
pub data L2SpecType : Type 0 where
  default_sublayer no_sublayer : L2SpecType

pub data Pseudowire : Type 0 where
  ethernet ethernet_vlan : Pseudowire

pub record SessionParams : Type 0 where
  pub local_ccid : ℕ
  pub local_sid : ℕ
  pub remote_sid : ℕ
  pub ifname : IfName
  pub cookie : Option Bytes
  pub peer_cookie : Option Bytes
  pub l2spec_type : L2SpecType
  pub pseudowire_type : Pseudowire

-- The calls that `MockDataplane` records.
pub data Call : Type 0 where
  add_tunnel_call : TunnelParams → Call
  add_session_call : SessionParams → Call
  del_session_call : ℕ → ℕ → Call
  del_tunnel_call : ℕ → Call

-- The two dicts hold parameters under the ids that these name: `tunnels[p.local_ccid] = p` and
-- `sessions[(p.local_ccid, p.local_sid)] = p`.
pub record MockDataplane : Type 0 where
  pub calls : List Call
  pub tunnels : List TunnelParams
  pub sessions : List SessionParams

-- The `raise DataplaneError` statements.
pub data DataplaneError : Type 0 where
  different_params session_exists unknown_tunnel sessions_live : DataplaneError
  binary_not_found command_failed : DataplaneError

pub data Returned {ℓ} (A : Type ℓ) : Type ℓ where
  returned : A → Returned A
  raised : DataplaneError → Returned A

-- `local_ccid in self.tunnels` and `self.tunnels[local_ccid]`
unfoldable pub find_tunnel : ℕ → List TunnelParams → Option TunnelParams
find_tunnel ccid [] = none
find_tunnel ccid (t ∷ tunnels) = if t.local_ccid == ccid then some t else find_tunnel ccid tunnels

-- The key of a session is the pair of its ids.
abbrev pub has_key : ℕ → ℕ → SessionParams → Bool
has_key ccid sid s = s.local_ccid == ccid && s.local_sid == sid

unfoldable pub find_session : ℕ → ℕ → List SessionParams → Option SessionParams
find_session ccid sid [] = none
find_session ccid sid (s ∷ sessions) =
    if has_key ccid sid s then some s else find_session ccid sid sessions

unfoldable pub remove_session : ℕ → ℕ → List SessionParams → List SessionParams
remove_session ccid sid [] = []
remove_session ccid sid (s ∷ sessions) =
    if has_key ccid sid s then sessions else s ∷ remove_session ccid sid sessions

unfoldable pub remove_tunnel : ℕ → List TunnelParams → List TunnelParams
remove_tunnel ccid [] = []
remove_tunnel ccid (t ∷ tunnels) =
    if t.local_ccid == ccid then tunnels else t ∷ remove_tunnel ccid tunnels

-- `[k for k in self.sessions if k[0] == local_ccid]`, and whether it is not empty.
unfoldable pub is_live : ℕ → List SessionParams → Bool
is_live ccid [] = false
is_live ccid (s ∷ sessions) = s.local_ccid == ccid || is_live ccid sessions

abbrev pub same_encap : Encap → Encap → Bool
same_encap udp udp = true
same_encap ip ip = true
same_encap _ _ = false

-- `existing == params`
abbrev pub same_params : TunnelParams → TunnelParams → Bool
same_params a b =
    a.local_ccid == b.local_ccid
    && (a.remote_ccid == b.remote_ccid
        && (eq_bytes a.local_address b.local_address
            && (eq_bytes a.remote_address b.remote_address
                && (same_encap a.encap b.encap
                    && (a.udp_sport == b.udp_sport && a.udp_dport == b.udp_dport)))))

unfoldable pub add_tunnel : TunnelParams → MockDataplane → Returned MockDataplane
add_tunnel params d = elim (find_tunnel params.local_ccid d.tunnels) [
  | some existing ↦ if same_params existing params then returned d else raised different_params
  | none ↦ returned (record d {
    calls = d.calls ++ add_tunnel_call params ∷ [];
    tunnels = d.tunnels ++ params ∷ [];
  })
]

unfoldable pub add_session : SessionParams → MockDataplane → Returned (IfName × MockDataplane)
add_session params d = elim (find_session params.local_ccid params.local_sid d.sessions) [
  | some existing ↦ raised session_exists
  | none ↦ elim (find_tunnel params.local_ccid d.tunnels) [
    | none ↦ raised unknown_tunnel
    | some t ↦ returned (
      params.ifname,
      record d {
        calls = d.calls ++ add_session_call params ∷ [];
        sessions = d.sessions ++ params ∷ [];
      },
    )
  ]
]

unfoldable pub del_session : ℕ → ℕ → MockDataplane → MockDataplane
del_session local_ccid local_sid d = elim (find_session local_ccid local_sid d.sessions) [
  | none ↦ d
  | some existing ↦ record d {
    calls = d.calls ++ del_session_call local_ccid local_sid ∷ [];
    sessions = remove_session local_ccid local_sid d.sessions;
  }
]

unfoldable pub del_tunnel : ℕ → MockDataplane → Returned MockDataplane
del_tunnel local_ccid d = elim (find_tunnel local_ccid d.tunnels) [
  | none ↦ returned d
  | some t ↦
      if is_live local_ccid d.sessions
      then raised sessions_live
      else returned (record d {
        calls = d.calls ++ del_tunnel_call local_ccid ∷ [];
        tunnels = remove_tunnel local_ccid d.tunnels;
      })
]
