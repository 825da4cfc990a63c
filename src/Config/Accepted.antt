-- ===== src/Config/Accepted.antt =====
-- What `_parse_session` and `_parse_tunnel` of xcesp_l2tpv3d/config.py accept.
use xcesp_l2tpv3d.Common.{ℕ, ◌≤◌, ◌≡◌, true, List, [], ◌∷◌, All, arith}
use xcesp_l2tpv3d.Common.Int.{pos}
use xcesp_l2tpv3d.Struct.{Bytes}
use xcesp_l2tpv3d.Config.{SessionConfigEntry, TunnelConfigEntry}
use xcesp_l2tpv3d.Config.Value.{
  Values, Table, array, integer, float, finite, nil, cons, lookup, or_default,
}
use xcesp_l2tpv3d.Config.Convert.{Python}
use xcesp_l2tpv3d.Config.Check.{
  Checked, failed, passed, ◌>>=◌, ◌>>◌, fail_if, is_ip_address, req_int, within, to_int, to_float,
  optional_int, session_no_table, session_no_array, firmware_revision_range, local_ccid_range,
  remote_ccid_range, hello_interval_range, retransmit_interval_range, max_retries_range,
  receive_window_range, duplicate_session_name, duplicate_local_sid,
}
use xcesp_l2tpv3d.Config.Session.{parse_session, parse_router_id}
use xcesp_l2tpv3d.Config.Tunnel.{
  parse_sessions, parse_tunnel, has_name, has_sid, dict_of, list_of, router_id_raw, within_optional,
}
use xcesp_l2tpv3d.Config.Unique.{IsNew, has_name-IsNew, has_sid-IsNew}
use xcesp_l2tpv3d.Config.Ensures.{
  Ensures, Ensures-all, Ensures-range, Ensures-seconds, Ensures-any, Ensures-bind, of_passed,
  Ensures-within_optional, AtMost, HasCookieLength, IsFilled, parse_cookie-HasCookieLength,
  parse_password-IsFilled, parse_router_id-AtMost,
}

pub record IsAcceptedSession (s : SessionConfigEntry) : Type 0 where
  pub sid_low : 1 ≤ s.local_sid
  pub sid_high : s.local_sid ≤ 0xFFFF_FFFF
  pub sublayer : s.l2_specific_sublayer ≤ 1
  pub sequencing : s.data_sequencing ≤ 2
  pub status : s.circuit_status ≤ 0xFFFF
  pub cookie_length : HasCookieLength s.cookie
  pub peer_cookie_length : HasCookieLength s.peer_cookie

-- No two sessions have the same name or the same id.
abbrev pub AreDifferent : List SessionConfigEntry → List Bytes → List ℕ → Type 0
AreDifferent [] names sids = Unit
AreDifferent (s ∷ sessions) names sids =
    IsNew s.name names
    × IsNew s.local_sid sids
    × AreDifferent sessions (s.name ∷ names) (s.local_sid ∷ sids)

module _ ⦃py : Python⦄ where
  parse_session-IsAccepted : (t : Table) → Ensures IsAcceptedSession (parse_session t)
  unfolding parse_session within
  parse_session-IsAccepted t = ground (
    arith,
    parse_cookie-HasCookieLength (lookup "cookie" t),
    parse_cookie-HasCookieLength (lookup "peer_cookie" t),
  )

  -- The rest of the round for a session, and of the loop.
  abbrev after_session :
      Values → List Bytes → List ℕ → SessionConfigEntry → Checked (List SessionConfigEntry)
  after_session vs names sids s = do
    fail_if (has_name s.name names) duplicate_session_name
    fail_if (has_sid s.local_sid sids) duplicate_local_sid
    sessions ← parse_sessions vs (s.name ∷ names) (s.local_sid ∷ sids)
    passed (s ∷ sessions)

  abbrev AllAccepted : List Bytes → List ℕ → List SessionConfigEntry → Type 0
  AllAccepted names sids sessions =
      All IsAcceptedSession sessions × AreDifferent sessions names sids

  parse_sessions-IsAccepted :
      (vs : Values) (names : List Bytes) (sids : List ℕ)
      → Ensures (AllAccepted names sids) (parse_sessions vs names sids)
  unfolding parse_sessions
  parse_sessions-IsAccepted nil names sids = (tt, tt)
  parse_sessions-IsAccepted (cons v vs) names sids =
      Ensures-any (AllAccepted names sids) (dict_of session_no_table v) _ (λ t.
        Ensures-bind IsAcceptedSession (AllAccepted names sids) (parse_session t)
          (after_session vs names sids) (parse_session-IsAccepted t)
          (λ s accepted. ground (
            arith,
            accepted,
            has_name-IsNew s.name names,
            has_sid-IsNew s.local_sid sids,
            parse_sessions-IsAccepted vs (s.name ∷ names) (s.local_sid ∷ sids),
          )))

-- The parts of an accepted tunnel.
pub record HasIds (e : TunnelConfigEntry) : Type 0 where
  pub ccid_low : 1 ≤ e.local_ccid
  pub ccid_high : e.local_ccid ≤ 0xFFFF_FFFF
  pub remote_high : e.remote_ccid ≤ 0xFFFF_FFFF
  pub router_high : e.router_id ≤ 0xFFFF_FFFF

pub record HasTimers (e : TunnelConfigEntry) : Type 0 where
  pub hello_low : 1000 ≤ e.hello_interval
  pub hello_high : e.hello_interval ≤ 3600000
  pub interval_low : 1000 ≤ e.retransmit_interval
  pub interval_high : e.retransmit_interval ≤ 8000

pub record HasLimits (e : TunnelConfigEntry) : Type 0 where
  pub retries_low : 1 ≤ e.max_retries
  pub retries_high : e.max_retries ≤ 10
  pub window_low : 1 ≤ e.receive_window
  pub window_high : e.receive_window ≤ 1024
  pub revision_high : AtMost 0xFFFF e.firmware_revision

pub record HasTexts ⦃py : Python⦄ (e : TunnelConfigEntry) : Type 0 where
  pub local_valid : is_ip_address e.local_address ≡ true
  pub remote_valid : is_ip_address e.remote_address ≡ true
  pub password_filled : IsFilled e.password

pub record HasSessions (e : TunnelConfigEntry) : Type 0 where
  pub accepted : All IsAcceptedSession e.sessions
  pub different : AreDifferent e.sessions [] []

pub record IsAccepted ⦃py : Python⦄ (e : TunnelConfigEntry) : Type 0 where
  pub ids : HasIds e
  pub timers : HasTimers e
  pub limits : HasLimits e
  pub texts : HasTexts e
  pub sessions : HasSessions e

module _ ⦃py : Python⦄ (t : Table) where
  parse_tunnel-HasIds : Ensures HasIds (parse_tunnel t)
  unfolding parse_tunnel
  parse_tunnel-HasIds = ground (
    arith,
    Ensures-range 1 0xFFFF_FFFF local_ccid_range (req_int "local_ccid" t),
    Ensures-range 0 0xFFFF_FFFF remote_ccid_range
        (to_int (or_default (lookup "remote_ccid" t) (integer (pos 0)))),
    Ensures-all (λ v. Ensures (λ n. n ≤ 0xFFFF_FFFF) (parse_router_id v))
        (router_id_raw (lookup "router_id" t)) parse_router_id-AtMost,
  )

  parse_tunnel-HasTimers : Ensures HasTimers (parse_tunnel t)
  unfolding parse_tunnel
  parse_tunnel-HasTimers = ground (
    arith,
    Ensures-seconds 1 3600 hello_interval_range
        (to_float (or_default (lookup "hello_interval" t) (float (finite (pos 60000))))),
    Ensures-seconds 1 8 retransmit_interval_range
        (to_float (or_default (lookup "retransmit_interval" t) (float (finite (pos 1000))))),
  )

  parse_tunnel-HasLimits : Ensures HasLimits (parse_tunnel t)
  unfolding parse_tunnel
  parse_tunnel-HasLimits = ground (
    arith,
    Ensures-range 1 10 max_retries_range
        (to_int (or_default (lookup "max_retries" t) (integer (pos 5)))),
    Ensures-range 1 1024 receive_window_range
        (to_int (or_default (lookup "receive_window" t) (integer (pos 4)))),
    Ensures-all
        (λ z. Ensures (λ n. AtMost 0xFFFF n) (within_optional 0 0xFFFF firmware_revision_range z))
        (optional_int (lookup "firmware_revision" t))
        (Ensures-within_optional 0xFFFF firmware_revision_range),
  )

  parse_tunnel-HasTexts : Ensures HasTexts (parse_tunnel t)
  unfolding parse_tunnel
  parse_tunnel-HasTexts = ground (arith, parse_password-IsFilled (lookup "password" t))

  parse_tunnel-HasSessions : Ensures HasSessions (parse_tunnel t)
  unfolding parse_tunnel
  parse_tunnel-HasSessions = ground (
    arith,
    Ensures-all (λ vs. Ensures (AllAccepted [] []) (parse_sessions vs [] []))
        (list_of session_no_array (or_default (lookup "session" t) (array nil)))
        (λ vs. parse_sessions-IsAccepted vs [] []),
  )

  collected :
      (r : Checked TunnelConfigEntry)
      → Ensures HasIds r
      → Ensures HasTimers r
      → Ensures HasLimits r
      → Ensures HasTexts r
      → Ensures HasSessions r
      → Ensures IsAccepted r
  collected (passed e) i m l x s = record {
    ids = i;
    timers = m;
    limits = l;
    texts = x;
    sessions = s;
  }
  collected (failed e) i m l x s = tt

  pub parse_tunnel-Ensures : Ensures IsAccepted (parse_tunnel t)
  parse_tunnel-Ensures =
      collected (parse_tunnel t) parse_tunnel-HasIds parse_tunnel-HasTimers parse_tunnel-HasLimits
        parse_tunnel-HasTexts parse_tunnel-HasSessions

  -- A tunnel that `_parse_tunnel` accepts has values in the documented ranges: ids of 1 to 2^32-1,
  -- addresses, a password that is not empty, intervals of 1 to 3600 and of 1 to 8 seconds, 1 to 10
  -- retries, a window of 1 to 1024; and so have its sessions, no two of which share a name or an id.
  pub parse_tunnel-IsAccepted : (e : TunnelConfigEntry) → parse_tunnel t ≡ passed e → IsAccepted e
  parse_tunnel-IsAccepted e h = of_passed IsAccepted (parse_tunnel t) parse_tunnel-Ensures h
