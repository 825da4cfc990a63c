-- ===== src/Tunnel/Execute.antt =====
-- `Tunnel._send`, `_ensure_tunnel_dataplane` and `_execute_actions` of xcesp_l2tpv3d/main.py. The
-- actions of a session and those of the tunnel are separate types here, and so are the loops over
-- them: the actions that a tunnel action sets off are those of sessions.
use xcesp_l2tpv3d.Common.{
  ℕ, ◌+◌, Bool, true, false, not, ◌&&◌, ◌||◌, Option, none, some, List, [], ◌∷◌, ◌++◌, map,
  if◌then◌else◌,
}
use xcesp_l2tpv3d.Exception.{Result, ok}
use xcesp_l2tpv3d.Struct.{Bytes}
use xcesp_l2tpv3d.Crypto.{Crypto}
use xcesp_l2tpv3d.Avp.{Avp}
use xcesp_l2tpv3d.Auth.{digest_hash_number}
use xcesp_l2tpv3d.Message.{ControlMessage, encode_message}
use xcesp_l2tpv3d.Signing.{encode_signed}
use xcesp_l2tpv3d.Peer.{Peer, send}
use xcesp_l2tpv3d.Dataplane.{TunnelParams, Returned, returned, raised, udp}
use xcesp_l2tpv3d.Dataplane.Interface.{Dataplane}
use xcesp_l2tpv3d.TunnelFsm as TunnelFsm
use xcesp_l2tpv3d.SessionFsm.{SessionFsm, on_tunnel_established, on_tunnel_down}
use xcesp_l2tpv3d.SessionFsm as SessionFsm
use xcesp_l2tpv3d.Config.{TunnelConfigEntry}
use xcesp_l2tpv3d.Tunnel.{Shared, Tunnel, l2tp_udp_port, find_sid, put_session}
use xcesp_l2tpv3d.Tunnel.Effect.{State, Method, pure, lift, gets, modify, ◌>>=◌, ◌>>◌, for_each}

-- `if self.cfg.password`, where an empty one counts as none.
abbrev pub on_password {ℓ} : {A : Type ℓ} → Option Bytes → (Bytes → A) → A → A
on_password (some (b ∷ secret)) signed plain = signed (b ∷ secret)
on_password _ signed plain = plain

abbrev pub is_returned {ℓ} : {A : Type ℓ} → Returned A → Bool
is_returned (returned a) = true
is_returned (raised e) = false

abbrev pub tunnel_params : Tunnel → TunnelParams
tunnel_params t = record {
  local_ccid = t.cfg.local_ccid;
  remote_ccid = t.peer.remote_ccid;
  local_address = t.cfg.local_address;
  remote_address = t.cfg.remote_address;
  encap = udp;
  udp_sport = l2tp_udp_port;
  udp_dport = l2tp_udp_port;
}

abbrev pub has_dataplane : {S : Type 0} → Shared S → Bool
has_dataplane s = elim s.dataplane [ none ↦ false | some d ↦ true ]

module _ {S : Type 0} where
  abbrev pub set_tunnel : (Tunnel → Tunnel) → Method S (Unit {0})
  set_tunnel f = modify (λ (s, t). (s, f t))

  abbrev pub set_peer : Peer → Method S (Unit {0})
  set_peer p = set_tunnel (λ t. record t { peer = p })

  abbrev pub set_hello : Option ℕ → Method S (Unit {0})
  set_hello handle = set_tunnel (λ t. record t { hello_handle = handle })

  -- `self._transport.send(self._remote_addr, wire)`
  abbrev pub transmit : Bytes → Method S (Unit {0})
  transmit wire =
      modify (λ (s, t). (record s { transport = s.transport ++ (t.remote_addr, wire) ∷ [] }, t))

  -- A method of the session with this local id: it stores the object, and gives the actions.
  abbrev pub fired :
      ℕ
      → (SessionFsm → SessionFsm.Outcome)
      → State S
      → Option SessionFsm
      → State S × Result (List SessionFsm.Action)
  fired sid handler t none = (t, ok [])
  fired sid handler (s, t) (some sess) =
      let (after, actions) = handler sess in
      ((s, record t { sessions_by_local = put_session after t.sessions_by_local }), actions)

  unfoldable pub fire : (SessionFsm → SessionFsm.Outcome) → ℕ → Method S (List SessionFsm.Action)
  fire handler sid (s, t) = fired sid handler (s, t) (find_sid sid t.sessions_by_local)

  -- The same of the machine of the tunnel.
  unfoldable pub fire_tunnel :
      (TunnelFsm.TunnelFsm → TunnelFsm.Outcome) → Method S (List TunnelFsm.Action)
  fire_tunnel handler (s, t) =
      let (after, actions) = handler t.fsm in ((s, record t { fsm = after }), actions)

  -- An operation of the dataplane in a `try` block with `except Exception`: it tells whether it
  -- returned. Without a dataplane nothing is done.
  abbrev pub with_dataplane {ℓ} :
      {R : Type ℓ} → (S → S × Returned R) → Shared S → Option S → Shared S × Bool
  with_dataplane operation s none = (s, false)
  with_dataplane operation s (some d) =
      let (after, r) = operation d in (record s { dataplane = some after }, is_returned r)

  unfoldable pub on_dataplane : {R : Type 0} → (S → S × Returned R) → Method S Bool
  on_dataplane operation (s, t) =
      let (after, done) = with_dataplane operation s s.dataplane in ((after, t), ok done)

module _ ⦃c : Crypto⦄ where
  -- The bytes of a message: signed, if there is a password.
  abbrev pub wire_of : TunnelConfigEntry → ControlMessage → Result Bytes
  wire_of cfg msg =
      on_password cfg.password
        (λ secret. encode_signed msg (digest_hash_number cfg.digest_alg) secret)
        (encode_message none none msg)

module _ {S : Type 0} ⦃c : Crypto⦄ where
  -- `_send`
  unfoldable pub send_avps : List Avp → Method S (Unit {0})
  send_avps avps = do
    now ← gets (λ (s, t). s.time)
    p ← gets (λ (s, t). t.peer)
    (msg, after) ← lift (send avps now p)
    set_peer after
    cfg ← gets (λ (s, t). t.cfg)
    wire ← lift (wire_of cfg msg)
    transmit wire

module _ {S : Type 0} ⦃c : Crypto⦄ ⦃d : Dataplane S⦄ where
  -- `_ensure_tunnel_dataplane`: the flag, which is clear here, is set if the call returns.
  unfoldable pub ensure_tunnel_dataplane : Method S (Unit {0})
  ensure_tunnel_dataplane = do
    skipped ← gets (λ (s, t). t.tunnel_dp_added || not (has_dataplane s))
    params ← gets (λ (s, t). tunnel_params t)
    (if skipped then pure tt else (do
      done ← on_dataplane (d.add_tunnel params)
      set_tunnel (λ t. record t { tunnel_dp_added = done })))

  -- `_execute_actions`, on the actions of a session.
  abbrev pub session_action : SessionFsm.Action → Method S (Unit {0})
  session_action (SessionFsm.send_message avps) = send_avps avps
  session_action (SessionFsm.dataplane_add_session params) = do
    ensure_tunnel_dataplane
    done ← on_dataplane (d.add_session params)
    pure tt
  session_action (SessionFsm.dataplane_del_session ccid sid) = do
    done ← on_dataplane (d.del_session ccid sid)
    pure tt
  session_action SessionFsm.session_established = pure tt
  session_action (SessionFsm.session_torn_down reason) = pure tt

  unfoldable pub session_actions : List SessionFsm.Action → Method S (Unit {0})
  session_actions actions = for_each session_action actions

  -- `for sess in self._sessions_by_local.values()`: the loop calls the handler and executes what it
  -- gives.
  unfoldable pub each_session : (SessionFsm → SessionFsm.Outcome) → Method S (Unit {0})
  each_session handler = do
    sids ← gets (λ (s, t). map (λ (sess : SessionFsm). sess.config.local_sid) t.sessions_by_local)
    for_each (λ sid. (do actions ← fire handler sid; session_actions actions)) sids

  -- The end of the branch for `TornDown`.
  unfoldable pub drop_tunnel_dataplane : Method S (Unit {0})
  drop_tunnel_dataplane = do
    there ← gets (λ (s, t). t.tunnel_dp_added && has_dataplane s)
    ccid ← gets (λ (s, t). t.cfg.local_ccid)
    (if there
        then (do
          done ← on_dataplane (d.del_tunnel ccid)
          set_tunnel (λ t. record t { tunnel_dp_added = false }))
        else pure tt)

  -- `_execute_actions`, on the actions of the tunnel.
  abbrev pub tunnel_action : TunnelFsm.Action → Method S (Unit {0})
  tunnel_action (TunnelFsm.send_message avps) = send_avps avps
  tunnel_action (TunnelFsm.set_hello_timer wait) = do
    now ← gets (λ (s, t). s.time)
    set_hello (some (now + wait))
  tunnel_action TunnelFsm.clear_hello_timer = set_hello none
  tunnel_action TunnelFsm.now_established = each_session on_tunnel_established
  tunnel_action (TunnelFsm.torn_down reason) = do each_session on_tunnel_down; drop_tunnel_dataplane

  unfoldable pub tunnel_actions : List TunnelFsm.Action → Method S (Unit {0})
  tunnel_actions actions = for_each tunnel_action actions
