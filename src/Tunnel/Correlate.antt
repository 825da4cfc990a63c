-- ===== src/Tunnel/Correlate.antt =====
-- The choice of the session that a message is for, in `_dispatch_session_message` of
-- xcesp_l2tpv3d/main.py.
use xcesp_l2tpv3d.Common.{is_some}
use xcesp_l2tpv3d.Common.{
  ℕ, Bool, true, false, not, ◌&&◌, ◌||◌, Option, none, some, List, [], ◌∷◌, ◌++◌, ◌==◌,
  if◌then◌else◌,
}
use xcesp_l2tpv3d.Exception.{Result, ok, ◌>>=◌}
use xcesp_l2tpv3d.Struct.{Bytes}
use xcesp_l2tpv3d.Avp.{Avp}
use xcesp_l2tpv3d.MessageType
use xcesp_l2tpv3d.Auth.{eq_bytes}
use xcesp_l2tpv3d.SessionMessage.{parse_session_fields, parse_cdn_fields}
use xcesp_l2tpv3d.SessionFsm.{SessionFsm, SessionState}
use xcesp_l2tpv3d.SessionFsm as SessionFsm
use xcesp_l2tpv3d.Tunnel.{Tunnel, find_sid}

-- `_SESSION_MSG_TYPES`
abbrev pub is_session_type : ℕ → Bool
is_session_type mt =
    mt == MessageType.icrq
    || (mt == MessageType.icrp || (mt == MessageType.iccn || mt == MessageType.cdn))

-- What `_dispatch_session_message` reads of a message: `local_target`, `remote_key` and, of a
-- message that is no CDN, `fields.remote_end_id`.
pub record Correlation : Type 0 where
  pub local_target : ℕ
  pub remote_key : ℕ
  pub end_id : Option Bytes

unfoldable pub correlation : List Avp → ℕ → Result Correlation
correlation avps mt =
    if mt == MessageType.cdn
    then (do
      fields ← parse_cdn_fields avps
      ok (record {
        local_target = fields.remote_sid;
        remote_key = fields.local_sid;
        end_id = none;
      }))
    else (do
      fields ← parse_session_fields avps
      ok (record {
        local_target = fields.remote_sid;
        remote_key = fields.local_sid;
        end_id = fields.remote_end_id;
      }))

-- `_sessions_by_remote`
unfoldable pub find_remote : ℕ → List (ℕ × ℕ) → Option ℕ
find_remote key [] = none
find_remote key ((peer_sid, sid) ∷ index) =
    if peer_sid == key then some sid else find_remote key index

abbrev pub is_idle : SessionState → Bool
is_idle SessionFsm.idle = true
is_idle _ = false

abbrev pub names : Option Bytes → Bytes → Bool
names none name = true
names (some end_id) name = eq_bytes name end_id

-- The loop over the candidates for an ICRQ: the first idle session that the Remote End ID, if there
-- is one, names.
unfoldable pub find_candidate : Option Bytes → List SessionFsm → Option ℕ
find_candidate end_id [] = none
find_candidate end_id (candidate ∷ sessions) =
    if is_idle candidate.state && names end_id candidate.config.name
    then some candidate.config.local_sid
    else find_candidate end_id sessions

-- The session that a message is for, by its local id.
unfoldable pub select : ℕ → Correlation → Tunnel → Option ℕ
select mt c t =
    if not (c.local_target == 0) && is_some (find_sid c.local_target t.sessions_by_local)
    then some c.local_target
    else if mt == MessageType.icrq
    then find_candidate c.end_id t.sessions_by_local
    else if not (c.remote_key == 0)
    then find_remote c.remote_key t.sessions_by_remote
    else none

-- `if sess.peer_sid and sess.peer_sid not in self._sessions_by_remote`
unfoldable pub index_remote : ℕ → Tunnel → Tunnel
index_remote sid t = elim (find_sid sid t.sessions_by_local) [
  | none ↦ t
  | some sess ↦
      if sess.peer_sid == 0 || is_some (find_remote sess.peer_sid t.sessions_by_remote)
      then t
      else record t { sessions_by_remote = t.sessions_by_remote ++ (sess.peer_sid, sid) ∷ [] }
]
