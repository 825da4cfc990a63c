-- ===== src/Dataplane/IpCommand.antt =====
-- `IpCommandDataplane` of xcesp_l2tpv3d/dataplane.py, which runs the command `ip`.
use Prim.Native.String.{String}
use xcesp_l2tpv3d.Common.{ℕ, Option, none, some, List, [], ◌∷◌, ◌++◌, ◌==◌, if◌then◌else◌}
use xcesp_l2tpv3d.Struct.{Bytes}
use xcesp_l2tpv3d.Dataplane.{
  TunnelParams, SessionParams, IfName, Encap, udp, ip, L2SpecType, default_sublayer, no_sublayer,
  Returned, returned, raised, binary_not_found, command_failed, sessions_live, find_tunnel,
  find_session, remove_session, remove_tunnel, is_live, has_key,
}
use xcesp_l2tpv3d.Dataplane.Interface.{Dataplane}

-- An argument of a command: a text of the code, a text of the parameters, a number by `str`, a
-- netdev or a cookie by `hex`.
pub data Argument : Type 0 where
  word : String → Argument
  given : Bytes → Argument
  number : ℕ → Argument
  device : IfName → Argument
  hex : Bytes → Argument

-- `subprocess.run`: it changes the world and gives the return code.
pub record Subprocess (W : Type 0) : Type 0 where
  pub execute : List Argument → W → W × ℕ

pub record IpCommandDataplane (W : Type 0) : Type 0 where
  pub binary : Bytes
  pub tunnels : List TunnelParams
  pub sessions : List SessionParams
  pub world : W

-- `IpCommandDataplane.__init__`, of what `shutil.which` finds.
abbrev pub new_dataplane : {W : Type 0} → Option Bytes → W → Returned (IpCommandDataplane W)
new_dataplane none world = raised binary_not_found
new_dataplane (some resolved) world =
    returned (record { binary = resolved; tunnels = []; sessions = []; world = world })

-- `self._sessions[key] = params`
unfoldable pub put_session : SessionParams → List SessionParams → List SessionParams
put_session params [] = params ∷ []
put_session params (s ∷ sessions) =
    if has_key params.local_ccid params.local_sid s
    then params ∷ sessions
    else s ∷ put_session params sessions

-- The optional arguments of the commands.
abbrev pub encap_text : Encap → String
encap_text udp = "udp"
encap_text ip = "ip"

abbrev pub port_arguments : TunnelParams → List Argument
port_arguments p = elim p.encap [
  | udp ↦ word "udp_sport" ∷ number p.udp_sport ∷ word "udp_dport" ∷ number p.udp_dport ∷ []
  | ip ↦ []
]

abbrev pub cookie_arguments : String → Option Bytes → List Argument
cookie_arguments key none = []
cookie_arguments key (some cookie) = word key ∷ hex cookie ∷ []

abbrev pub l2spec_text : L2SpecType → String
l2spec_text default_sublayer = "default"
l2spec_text no_sublayer = "none"

abbrev pub add_tunnel_argv : Bytes → TunnelParams → List Argument
add_tunnel_argv binary p =
    (given binary
      ∷ word "l2tp"
      ∷ word "add"
      ∷ word "tunnel"
      ∷ word "remote"
      ∷ given p.remote_address
      ∷ word "local"
      ∷ given p.local_address
      ∷ word "tunnel_id"
      ∷ number p.local_ccid
      ∷ word "peer_tunnel_id"
      ∷ number p.remote_ccid
      ∷ word "encap"
      ∷ word (encap_text p.encap)
      ∷ [])
    ++ port_arguments p

abbrev pub add_session_argv : Bytes → SessionParams → List Argument
add_session_argv binary p =
    (given binary
      ∷ word "l2tp"
      ∷ word "add"
      ∷ word "session"
      ∷ word "name"
      ∷ device p.ifname
      ∷ word "tunnel_id"
      ∷ number p.local_ccid
      ∷ word "session_id"
      ∷ number p.local_sid
      ∷ word "peer_session_id"
      ∷ number p.remote_sid
      ∷ [])
    ++ (cookie_arguments "cookie" p.cookie
        ++ (cookie_arguments "peer_cookie" p.peer_cookie
            ++ (word "l2spec_type" ∷ word (l2spec_text p.l2spec_type) ∷ [])))

module _ {W : Type 0} ⦃run : Subprocess W⦄ where
  -- `_run`
  unfoldable pub run_command :
      List Argument → IpCommandDataplane W → IpCommandDataplane W × Returned (Unit {0})
  run_command argv d =
      let (after, code) = run.execute argv d.world in
      (record d { world = after }, if code == 0 then returned tt else raised command_failed)

  -- What follows a call that may raise.
  abbrev pub and_then :
      {A B : Type 0}
      → IpCommandDataplane W × Returned A
      → (A → IpCommandDataplane W → IpCommandDataplane W × Returned B)
      → IpCommandDataplane W × Returned B
  and_then (d, returned a) next = next a d
  and_then (d, raised e) next = (d, raised e)

  unfoldable pub ip_add_tunnel :
      TunnelParams → IpCommandDataplane W → IpCommandDataplane W × Returned (Unit {0})
  ip_add_tunnel params d = elim (find_tunnel params.local_ccid d.tunnels) [
    | some t ↦ (d, returned tt)
    | none ↦
        and_then (run_command (add_tunnel_argv d.binary params) d)
          (λ done e. (record e { tunnels = e.tunnels ++ params ∷ [] }, returned tt))
  ]

  unfoldable pub ip_add_session :
      SessionParams → IpCommandDataplane W → IpCommandDataplane W × Returned IfName
  ip_add_session params d = and_then (run_command (add_session_argv d.binary params) d) (λ done e.
      and_then
        (run_command
          (given e.binary
            ∷ word "link"
            ∷ word "set"
            ∷ word "dev"
            ∷ device params.ifname
            ∷ word "up"
            ∷ [])
          e)
        (λ up f. (record f { sessions = put_session params f.sessions }, returned params.ifname)))

  unfoldable pub ip_del_session :
      ℕ → ℕ → IpCommandDataplane W → IpCommandDataplane W × Returned (Unit {0})
  ip_del_session ccid sid d = elim (find_session ccid sid d.sessions) [
    | none ↦ (d, returned tt)
    | some s ↦
        and_then
          (run_command
            (given d.binary
              ∷ word "l2tp"
              ∷ word "del"
              ∷ word "session"
              ∷ word "tunnel_id"
              ∷ number ccid
              ∷ word "session_id"
              ∷ number sid
              ∷ [])
            d)
          (λ done e. (record e { sessions = remove_session ccid sid e.sessions }, returned tt))
  ]

  unfoldable pub ip_del_tunnel :
      ℕ → IpCommandDataplane W → IpCommandDataplane W × Returned (Unit {0})
  ip_del_tunnel ccid d = elim (find_tunnel ccid d.tunnels) [
    | none ↦ (d, returned tt)
    | some t ↦
        if is_live ccid d.sessions
        then (d, raised sessions_live)
        else and_then
            (run_command
              (given d.binary
                ∷ word "l2tp"
                ∷ word "del"
                ∷ word "tunnel"
                ∷ word "tunnel_id"
                ∷ number ccid
                ∷ [])
              d)
            (λ done e. (record e { tunnels = remove_tunnel ccid e.tunnels }, returned tt))
  ]

  abbrev pub ip_command_dataplane : Dataplane (IpCommandDataplane W)
  ip_command_dataplane = record {
    add_tunnel = ip_add_tunnel;
    add_session = ip_add_session;
    del_session = ip_del_session;
    del_tunnel = ip_del_tunnel;
  }
