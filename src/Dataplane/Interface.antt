-- ===== src/Dataplane/Interface.antt =====
-- `Dataplane` of xcesp_l2tpv3d/dataplane.py, the operations that a tunnel calls, and `MockDataplane`
-- as one implementation. An operation that raises may have changed the state before.
use xcesp_l2tpv3d.Common.{ℕ}
use xcesp_l2tpv3d.Dataplane.{
  TunnelParams, SessionParams, IfName, MockDataplane, Returned, returned, raised, add_tunnel,
  add_session, del_session, del_tunnel,
}

pub record Dataplane (S : Type 0) : Type 0 where
  pub add_tunnel : TunnelParams → S → S × Returned (Unit {0})
  pub add_session : SessionParams → S → S × Returned IfName
  pub del_session : ℕ → ℕ → S → S × Returned (Unit {0})
  pub del_tunnel : ℕ → S → S × Returned (Unit {0})

-- `MockDataplane` raises before it changes anything.
abbrev pub or_unchanged :
    MockDataplane → Returned MockDataplane → MockDataplane × Returned (Unit {0})
or_unchanged before (returned d) = (d, returned tt)
or_unchanged before (raised e) = (before, raised e)

abbrev pub named_or_unchanged :
    MockDataplane → Returned (IfName × MockDataplane) → MockDataplane × Returned IfName
named_or_unchanged before (returned (ifname, d)) = (d, returned ifname)
named_or_unchanged before (raised e) = (before, raised e)

instance abbrev pub mock_dataplane : Dataplane MockDataplane
mock_dataplane = record {
  add_tunnel = λ params d. or_unchanged d (add_tunnel params d);
  add_session = λ params d. named_or_unchanged d (add_session params d);
  del_session = λ ccid sid d. (del_session ccid sid d, returned tt);
  del_tunnel = λ ccid d. or_unchanged d (del_tunnel ccid d);
}
