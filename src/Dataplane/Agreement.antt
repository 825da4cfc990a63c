-- ===== src/Dataplane/Agreement.antt =====
-- `IpCommandDataplane` of xcesp_l2tpv3d/dataplane.py against `MockDataplane`, which the tests of the
-- daemon use in its place.
use xcesp_l2tpv3d.Common.{
  ℕ, ◌≡◌, refl, none, List, [], ◌∷◌, ◌++◌, arith, Bool-cases, Option-cases, inl, inr,
}
use mathlib.Core.Path.{subst}
use xcesp_l2tpv3d.Dataplane.{
  TunnelParams, SessionParams, MockDataplane, Returned, returned, raised, find_tunnel, find_session,
  is_live, add_tunnel, add_session, del_session, del_tunnel,
}
use xcesp_l2tpv3d.Dataplane.Ordered.{
  Request, new_tunnel, new_session, end_session, end_tunnel, serve, without_name,
}
use xcesp_l2tpv3d.Dataplane.IpCommand.{
  Argument, Subprocess, IpCommandDataplane, put_session, run_command, ip_add_tunnel, ip_add_session,
  ip_del_session, ip_del_tunnel,
}

put_session_fresh :
    (p : SessionParams) (sessions : List SessionParams)
    → find_session p.local_ccid p.local_sid sessions ≡ none
    → put_session p sessions ≡ sessions ++ p ∷ []
unfolding put_session find_session
put_session_fresh p [] h = refl
put_session_fresh p (s ∷ sessions) h = ground (arith, put_session_fresh p sessions)

-- The two hold the same tunnels and sessions.
abbrev pub Same : {W : Type 0} → MockDataplane → IpCommandDataplane W → Type 0
Same d e = (e.tunnels ≡ d.tunnels) × (e.sessions ≡ d.sessions)

-- They have done the same.
abbrev pub Agrees : {W A : Type 0} → MockDataplane → IpCommandDataplane W × Returned A → Type 0
Agrees d (e, returned a) = Same d e
Agrees d (e, raised x) = ⊥

module _ {W : Type 0} ⦃run : Subprocess W⦄ where
  abbrev pub AgreesOn : Request → MockDataplane → IpCommandDataplane W → Type 0
  AgreesOn (new_tunnel params) d e = Agrees d (ip_add_tunnel params e)
  AgreesOn (new_session params) d e = Agrees d (ip_add_session params e)
  AgreesOn (end_session ccid sid) d e = Agrees d (ip_del_session ccid sid e)
  AgreesOn (end_tunnel ccid) d e = Agrees d (ip_del_tunnel ccid e)

  module _ (succeeds : (argv : List Argument) (w : W) → (run.execute argv w).1 ≡ 0) where
    run_command-ok :
        (argv : List Argument) (e : IpCommandDataplane W)
        → run_command argv e ≡ (record e { world = (run.execute argv e.world).0 }, returned tt)
    unfolding run_command
    run_command-ok argv e = rw (succeeds argv e.world) refl

    add_tunnel-Agrees :
        (params : TunnelParams) (d d' : MockDataplane) (e : IpCommandDataplane W)
        → Same d e
        → add_tunnel params d ≡ returned d'
        → Agrees d' (ip_add_tunnel params e)
    unfolding add_tunnel ip_add_tunnel
    add_tunnel-Agrees params d d' e same h =
        elim (Option-cases (find_tunnel params.local_ccid e.tunnels))
          as (λ x. Agrees d' (ip_add_tunnel params e)) [
            | inr (t, there) ↦ rw (ip_add_tunnel, there) (ground (arith, same, there, h))
            | inl fresh ↦ rw (ip_add_tunnel, fresh, run_command-ok) (ground (arith, same, fresh, h))
          ]

    add_session-Agrees :
        (params : SessionParams) (d d' : MockDataplane) (e : IpCommandDataplane W)
        → Same d e
        → without_name (add_session params d) ≡ returned d'
        → Agrees d' (ip_add_session params e)
    unfolding add_session ip_add_session
    add_session-Agrees params d d' e same h =
        rw (ip_add_session, run_command-ok, run_command-ok)
          (ground (arith, same, h, put_session_fresh params e.sessions))

    del_session-Agrees :
        (ccid sid : ℕ) (d : MockDataplane) (e : IpCommandDataplane W)
        → Same d e
        → Agrees (del_session ccid sid d) (ip_del_session ccid sid e)
    unfolding del_session ip_del_session
    del_session-Agrees ccid sid d e same =
        elim (Option-cases (find_session ccid sid e.sessions))
          as (λ x. Agrees (del_session ccid sid d) (ip_del_session ccid sid e)) [
            | inl absent ↦ rw (ip_del_session, absent) (ground (arith, same, absent))
            | inr (s, there) ↦
                rw (ip_del_session, there, run_command-ok) (ground (arith, same, there))
          ]

    del_tunnel-Agrees :
        (ccid : ℕ) (d d' : MockDataplane) (e : IpCommandDataplane W)
        → Same d e
        → del_tunnel ccid d ≡ returned d'
        → Agrees d' (ip_del_tunnel ccid e)
    unfolding del_tunnel ip_del_tunnel
    del_tunnel-Agrees ccid d d' e same h =
        elim (Option-cases (find_tunnel ccid e.tunnels))
          as (λ x. Agrees d' (ip_del_tunnel ccid e)) [
            | inl absent ↦ rw (ip_del_tunnel, absent) (ground (arith, same, absent, h))
            | inr (t, there) ↦
                elim (Bool-cases (is_live ccid e.sessions))
                  as (λ x. Agrees d' (ip_del_tunnel ccid e)) [
                    | inl live ↦ absurd (ground (arith, same, there, live, h))
                    | inr free ↦
                        rw (ip_del_tunnel, there, free, run_command-ok)
                          (ground (arith, same, there, free, h))
                  ]
          ]

    -- Where the command `ip` succeeds whatever it is asked, a request from which `MockDataplane`
    -- returns has `IpCommandDataplane` return as well, and both hold the same tunnels and sessions
    -- afterwards if they did before.
    pub serve-AgreesOn :
        (r : Request) (d d' : MockDataplane) (e : IpCommandDataplane W)
        → Same d e
        → serve r d ≡ returned d'
        → AgreesOn r d' e
    serve-AgreesOn (new_tunnel params) d d' e same h = add_tunnel-Agrees params d d' e same h
    serve-AgreesOn (new_session params) d d' e same h = add_session-Agrees params d d' e same h
    serve-AgreesOn (end_session ccid sid) d d' e same h =
        let ended : del_session ccid sid d ≡ d' = ground (arith, h) in
        subst (λ x. Agrees x (ip_del_session ccid sid e)) ended
          (del_session-Agrees ccid sid d e same)
    serve-AgreesOn (end_tunnel ccid) d d' e same h = del_tunnel-Agrees ccid d d' e same h
