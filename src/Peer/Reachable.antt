-- ===== src/Peer/Reachable.antt =====
-- The operations of `Peer` as a step relation, and what holds in every state that they reach.
use xcesp_l2tpv3d.Common.{ℕ, ◌≤◌, ◌≡◌, refl, sym, arith, true, false, Bool}
use xcesp_l2tpv3d.Common.{List, [], if◌then◌else◌, All, map, Bool-cases, inl, inr}
use mathlib.Core.Path.{subst}
use xcesp_l2tpv3d.Exception.{ok}
use xcesp_l2tpv3d.Struct.{Bytes}
use xcesp_l2tpv3d.Crypto.{Crypto}
use xcesp_l2tpv3d.Avp.{Avp}
use xcesp_l2tpv3d.Message.{ControlMessage}
use xcesp_l2tpv3d.Peer.{
  SockAddr, PendingSend, Peer, new_peer, set_remote_ccid, send, receive, tick, tick_queue,
  retransmit_max_interval,
}
use xcesp_l2tpv3d.Peer.Retransmit.{InFlight, tick_queue-TickReturns, TickMeets, number}
use xcesp_l2tpv3d.Peer.Queue.{Contiguous-map}
use xcesp_l2tpv3d.Peer.Invariant.{WellFormed, send-WellFormed, receive-WellFormed}

module _ ⦃c : Crypto⦄ where
  -- One operation on a peer.
  pub data Step : Peer → Peer → Type 0 where
    sends :
        (p q : Peer) (avps : List Avp) (now : ℕ) (m : ControlMessage)
        → send avps now p ≡ ok (m, q)
        → Step p q
    receives : (p : Peer) (m : ControlMessage) → Step p (receive m p).2
    ticks :
        (p q : Peer) (now : ℕ) (datagrams : List Bytes) (dead : Bool)
        → tick now p ≡ ok (datagrams, dead, q)
        → Step p q
    learns : (p : Peer) (ccid : ℕ) → Step p (set_remote_ccid ccid p)

  pub data Reaches : Peer → Peer → Type 0 where
    start : (p : Peer) → Reaches p p
    after : (p q r : Peer) → Reaches p q → Step q r → Reaches p r

  -- The state after `tick`, where the peer was not dead.
  pub tick_alive :
      (p : Peer) (now : ℕ) (r : List PendingSend × List Bytes × Bool)
      → p.dead ≡ false
      → tick_queue p.max_retries p.nr_expect now p.send_queue ≡ ok r
      → tick now p
        ≡ ok (
            let q = record p { send_queue = r.0; dead = r.2 } in
            if r.2 then ([], true, q) else (r.1, false, q))
  unfolding tick
  tick_alive p now r alive e = rw (alive, e) refl

  -- What is claimed of `tick`: that it returns, and what it leaves.
  abbrev pub TickKeeps : ℕ → Peer → Type 0
  TickKeeps now p =
      (datagrams : List Bytes) × (dead : Bool) × (q : Peer) × (tick now p ≡ ok (datagrams, dead, q))
      × WellFormed q
      × (q.dead ≡ dead)

  tick_by_result :
      (p : Peer) (now : ℕ) (r : List PendingSend × List Bytes × Bool)
      → WellFormed p
      → p.dead ≡ false
      → tick_queue p.max_retries p.nr_expect now p.send_queue ≡ ok r
      → map number r.0 ≡ map number p.send_queue
      → TickMeets p.retransmit_interval p.max_retries p.nr_expect now p.send_queue r
      → TickKeeps now p
  tick_by_result p now (queue, datagrams, dead) w alive e ns t =
      by_dead dead (tick_alive p now _ alive e) t
    where
      kept :
          (b : Bool)
          → (b ≡ false → All (InFlight p.retransmit_interval p.max_retries) queue)
          → WellFormed (record p { send_queue = queue; dead = b })
      kept b h = record {
        interval_cap = w.interval_cap;
        ns_bound = w.ns_bound;
        nr_bound = w.nr_bound;
        in_order = (_, Contiguous-map _ _ p.send_queue queue ns w.in_order.1);
        in_flight = h;
      }

      by_dead :
          (b : Bool)
          → tick now p
            ≡ ok (
                let q = record p { send_queue = queue; dead = b } in
                if b then ([], true, q) else (datagrams, false, q))
          → TickMeets p.retransmit_interval p.max_retries p.nr_expect now p.send_queue
              (queue, datagrams, b)
          → TickKeeps now p
      by_dead true h m = ([], true, _, h, kept true (λ no. absurd (ground arith)), refl)
      by_dead false h m = (datagrams, false, _, h, kept false (λ yes. m.1), refl)

  -- In a well-formed state `tick` returns, whatever the time, and leaves a well-formed state. It
  -- reports the peer dead just when it marks it so.
  pub tick-TickKeeps : (p : Peer) (now : ℕ) → WellFormed p → TickKeeps now p
  unfolding tick
  tick-TickKeeps p now w = elim (Bool-cases p.dead) as (λ x. TickKeeps now p) [
    | inl gone ↦ ([], true, p, rw (tick, gone) refl, w, gone)
    | inr alive ↦
        let (r, e, ns, t) =
          tick_queue-TickReturns p.retransmit_interval p.max_retries p.nr_expect now p.send_queue
            w.nr_bound (w.in_flight alive) in
        tick_by_result p now r w alive e ns t
  ]

  pub Step-WellFormed : (p q : Peer) → WellFormed p → Step p q → WellFormed q
  Step-WellFormed p q w (sends _ _ avps now m e) = send-WellFormed p q avps now m w e
  Step-WellFormed p _ w (receives _ m) = receive-WellFormed p m w
  Step-WellFormed p q w (ticks _ _ now datagrams dead e) =
      let (datagrams', dead', q', e', v, same) = tick-TickKeeps p now w in
      subst WellFormed (ground (arith, e, e')) v
  Step-WellFormed p _ w (learns _ ccid) = record {
    interval_cap = w.interval_cap;
    ns_bound = w.ns_bound;
    nr_bound = w.nr_bound;
    in_order = w.in_order;
    in_flight = w.in_flight;
  }

  -- Every state that a new peer with a retransmit interval of 16 s at most reaches, by sending,
  -- receiving, ticking and learning the other side's id in any order, is well-formed: the sequence numbers of the unacknowledged messages
  -- follow each other up to the next one, the counters are 16-bit numbers, and until the peer is
  -- dead each message has been sent again `max_retries` times at most, with its timer at the
  -- interval doubled as often, 16 s at most.
  pub Reaches-WellFormed :
      (p q : Peer)
      → Reaches p q
      → (addr : SockAddr) (local_ccid remote_ccid window interval max_retries : ℕ)
      → interval ≤ retransmit_max_interval
      → p ≡ new_peer addr local_ccid remote_ccid window interval max_retries
      → WellFormed q
  Reaches-WellFormed p _ (start _) addr l r window interval max_retries h e =
      subst WellFormed (sym e) (record {
        interval_cap = h;
        ns_bound = omega arith;
        nr_bound = omega arith;
        in_order = (0, refl);
        in_flight = λ alive. tt;
      })
  Reaches-WellFormed p q (after _ m _ reach step) addr l r window interval max_retries h e =
      Step-WellFormed m q (Reaches-WellFormed p m reach addr l r window interval max_retries h e)
        step
