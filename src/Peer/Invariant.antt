-- ===== src/Peer/Invariant.antt =====
-- The invariant of `Peer`, and that `send` and `receive` keep it.
use xcesp_l2tpv3d.Common.{
  ℕ, zero, suc, ◌^◌, ◌≤◌, ◌<◌, ◌≡◌, refl, sym, arith, true, false, none, Bool, ◌||◌,
}
use xcesp_l2tpv3d.Common.{
  List, [], ◌∷◌, ◌++◌, length, leb, ◌==◌, if◌then◌else◌, All, All-append, Bool-cases, inl, inr,
}
use mathlib.Core.Path.{subst}
use xcesp_l2tpv3d.Common.Int.{ℤ, pos, negsuc}
use xcesp_l2tpv3d.Exception.{Result, ok, err}
use xcesp_l2tpv3d.Struct.{Bytes}
use xcesp_l2tpv3d.Crypto.{Crypto}
use xcesp_l2tpv3d.Avp.{Avp}
use xcesp_l2tpv3d.Message.{ControlMessage, encode_message, is_zlb}
use xcesp_l2tpv3d.ReorderBuffer.{Reorder}
use xcesp_l2tpv3d.SequenceNumber.{seq_advance, seq_delta}
use xcesp_l2tpv3d.Peer.{Peer, send, receive, receive_at, consume_acks, retransmit_max_interval}
use xcesp_l2tpv3d.Peer.Ack.{seq_advance_bound}
use xcesp_l2tpv3d.Peer.Retransmit.{InFlight, rto_after}
use xcesp_l2tpv3d.Peer.Queue.{
  Contiguous-append, consume_acks-IsQueue, drain_bound, All-consume_acks, IsQueue,
}

module _ ⦃c : Crypto⦄ where
  pub record WellFormed (p : Peer) : Type 0 where
    pub interval_cap : p.retransmit_interval ≤ retransmit_max_interval
    pub ns_bound : p.ns_send < 2 ^ 16
    pub nr_bound : p.nr_expect < 2 ^ 16
    pub in_order : IsQueue p.send_queue p.ns_send
    pub in_flight : p.dead ≡ false → All (InFlight p.retransmit_interval p.max_retries) p.send_queue

  -- The state after `send`.
  abbrev sent_state : Peer → ControlMessage → Bytes → ℕ → Peer
  sent_state p m encoded now = record p {
    send_queue =
        p.send_queue
        ++ record {
          msg = m;
          encoded = encoded;
          sent_at = now;
          retries = 0;
          next_rto = p.retransmit_interval;
        }
          ∷ [];
    ns_send = seq_advance p.ns_send 1;
  }

  send-eq-ok :
      (p q : Peer) (avps : List Avp) (now : ℕ) (m : ControlMessage)
      → send avps now p ≡ ok (m, q)
      → (encoded : Bytes) × (encode_message none none m ≡ ok encoded)
        × (m.ns ≡ p.ns_send)
        × (q ≡ sent_state p m encoded now)
  unfolding send
  send-eq-ok p q [] now m e = absurd (ground arith)
  send-eq-ok p q (a ∷ avps) now m e =
      by_bytes
        (encode_message none none (record {
          control_connection_id = p.remote_ccid;
          ns = p.ns_send;
          nr = p.nr_expect;
          avps = a ∷ avps;
        }))
        refl
    where
      by_bytes :
          (r : Result Bytes)
          → encode_message none none (record {
            control_connection_id = p.remote_ccid;
            ns = p.ns_send;
            nr = p.nr_expect;
            avps = a ∷ avps;
          })
            ≡ r
          → (encoded : Bytes) × (encode_message none none m ≡ ok encoded)
            × (m.ns ≡ p.ns_send)
            × (q ≡ sent_state p m encoded now)
      by_bytes (err x) h = absurd (ground arith)
      by_bytes (ok encoded) h = (encoded, ground arith, ground arith, ground arith)

  pub send-WellFormed :
      (p q : Peer) (avps : List Avp) (now : ℕ) (m : ControlMessage)
      → WellFormed p
      → send avps now p ≡ ok (m, q)
      → WellFormed q
  send-WellFormed p q avps now m w e =
      let (encoded, x, n, same) = send-eq-ok p q avps now m e in
      subst WellFormed (sym same) (record {
        interval_cap = w.interval_cap;
        ns_bound = seq_advance_bound p.ns_send 1;
        nr_bound = w.nr_bound;
        in_order = (w.in_order.0, Contiguous-append _ _ p.send_queue _ w.in_order.1 n);
        in_flight = λ alive.
            All-append (InFlight p.retransmit_interval p.max_retries) p.send_queue _
              (w.in_flight alive)
              (record { timer = first_timer; tries = omega arith; bytes = x }, tt);
      })
    where
      first_timer : p.retransmit_interval ≡ rto_after p.retransmit_interval 0
      first_timer = omega (arith, w.interval_cap)

  acked-WellFormed :
      (p : Peer) (nr : ℕ)
      → WellFormed p
      → WellFormed (record p { send_queue = consume_acks nr p.send_queue })
  acked-WellFormed p nr w = record {
    interval_cap = w.interval_cap;
    ns_bound = w.ns_bound;
    nr_bound = w.nr_bound;
    in_order = consume_acks-IsQueue nr p.ns_send p.send_queue w.in_order;
    in_flight = λ alive.
        All-consume_acks (InFlight p.retransmit_interval p.max_retries) nr p.send_queue
          (w.in_flight alive);
  }

  expecting-WellFormed :
      (p : Peer) (nr : ℕ) (r : Reorder)
      → nr < 2 ^ 16
      → WellFormed p
      → WellFormed (record p { nr_expect = nr; reorder = r })
  expecting-WellFormed p nr r h w = record {
    interval_cap = w.interval_cap;
    ns_bound = w.ns_bound;
    nr_bound = h;
    in_order = w.in_order;
    in_flight = w.in_flight;
  }

  receive_at-WellFormed :
      (delta : ℤ) (p : Peer) (m : ControlMessage)
      → WellFormed p
      → WellFormed (receive_at delta m p).2
  unfolding receive_at
  receive_at-WellFormed (pos zero) p m w =
      expecting-WellFormed p _ _
        (drain_bound (length p.reorder) _ p.reorder (seq_advance_bound p.nr_expect 1)) w
  receive_at-WellFormed (negsuc k) p m w = w
  receive_at-WellFormed (pos (suc k)) p m w =
      elim (Bool-cases (leb (suc k) p.receive_window))
        as (λ x. WellFormed (receive_at (pos (suc k)) m p).2) [
          | inl e ↦ rw (receive_at, e) (expecting-WellFormed p p.nr_expect _ w.nr_bound w)
          | inr e ↦ rw (receive_at, e) w
        ]

  pub receive-WellFormed :
      (p : Peer) (m : ControlMessage) → WellFormed p → WellFormed (receive m p).2
  unfolding receive
  receive-WellFormed p m w =
      elim (Bool-cases (m.control_connection_id == 0 || m.control_connection_id == p.local_ccid))
        as (λ x. WellFormed (receive m p).2) [
          | inr e ↦ rw (receive, e) w
          | inl e ↦ rw (receive, e) (by_avps (is_zlb m) (acked-WellFormed p m.nr w))
        ]
    where
      by_avps :
          {q : Peer} (z : Bool)
          → WellFormed q
          → WellFormed (if z then ([], [], q) else receive_at (seq_delta m.ns q.nr_expect) m q).2
      by_avps {q = q} true v = v
      by_avps {q = q} false v = receive_at-WellFormed _ q m v
