-- ===== src/Peer/Retransmit.antt =====
-- `Peer.send` and `Peer.tick`: the send queue and its timers.
use xcesp_l2tpv3d.Common.{
  ℕ, suc, ◌+◌, ◌*◌, ◌^◌, ◌≤◌, ◌<◌, ◌≡◌, refl, sym, ap, ◌∙◌, arith, true, false, none, Bool, min,
}
use xcesp_l2tpv3d.Common.{List, [], ◌∷◌, map, ltb, All, ltb→lt, Bool-cases, inl, inr}
use native.Mathlib.Nat.{pow-suc, mul_assoc}
use xcesp_l2tpv3d.Exception.{ok}
use xcesp_l2tpv3d.Struct.{Bytes}
use xcesp_l2tpv3d.Crypto.{Crypto}
use xcesp_l2tpv3d.Message.{ControlMessage, encode_message}
use xcesp_l2tpv3d.Message.RoundTrip.{encode_message_wire, encode_message-eq-ok}
use xcesp_l2tpv3d.Peer.{PendingSend, resend, backoff, tick_queue, retransmit_max_interval}

-- The timer after `retries` retransmissions: the interval doubled that often, 16 s at most.
abbrev pub rto_after : ℕ → ℕ → ℕ
rto_after interval retries = min (interval * 2 ^ retries) retransmit_max_interval

rto_after_suc :
    (interval retries : ℕ) → backoff (rto_after interval retries) ≡ rto_after interval (retries + 1)
unfolding backoff
rto_after_suc interval retries = omega (arith, doubled)
  where
    doubled : interval * 2 ^ (retries + 1) ≡ interval * 2 ^ retries * 2
    doubled =
        ap (λ k. interval * 2 ^ k) (omega arith)
        ∙ ap (λ k. interval * k) (pow-suc 2 retries)
        ∙ sym (mul_assoc interval (2 ^ retries) 2)

abbrev pub number : PendingSend → ℕ
number p = p.msg.ns

cons_cong : {x y : ℕ} {xs ys : List ℕ} → x ≡ y → xs ≡ ys → ◌≡◌ {A = List ℕ} (x ∷ xs) (y ∷ ys)
cons_cong {y = y} {xs = xs} e f = ap (λ k. k ∷ xs) e ∙ ap (λ l. y ∷ l) f

module _ ⦃c : Crypto⦄ where
  -- What holds of a message in the queue.
  pub record InFlight (interval max_retries : ℕ) (p : PendingSend) : Type 0 where
    pub timer : p.next_rto ≡ rto_after interval p.retries
    pub tries : p.retries ≤ max_retries
    pub bytes : encode_message none none p.msg ≡ ok p.encoded

  -- A message that was encoded once can be encoded with any other Nr.
  with_nr-encode :
      (m : ControlMessage) (nr : ℕ) (bytes : Bytes)
      → encode_message none none m ≡ ok bytes
      → nr < 2 ^ 16
      → (again : Bytes) × (encode_message none none (record m { nr = nr }) ≡ ok again)
  with_nr-encode m nr bytes e h =
      let (body, range, x, n, w) = encode_message-eq-ok none none m bytes e in
      (
        _,
        encode_message_wire none none (record m { nr = nr }) body
            (record { ccid_fits = range.ccid_fits; ns_fits = range.ns_fits; nr_fits = omega arith })
            x n,
      )

  -- The queue and the datagrams after a tick. A message whose timer has not run out is as it was;
  -- one whose timer has run out is sent again, with the current Nr.
  pub data Ticked (nr now : ℕ) : List PendingSend → List PendingSend → List Bytes → Type 0 where
    done : Ticked nr now [] [] []
    waits :
        (p : PendingSend) (queue after : List PendingSend) (datagrams : List Bytes)
        → now < p.sent_at + p.next_rto
        → Ticked nr now queue after datagrams
        → Ticked nr now (p ∷ queue) (p ∷ after) datagrams
    resends :
        (p q : PendingSend) (queue after : List PendingSend) (datagrams : List Bytes)
        → p.sent_at + p.next_rto ≤ now
        → q.msg ≡ record p.msg { nr = nr }
        → encode_message none none q.msg ≡ ok q.encoded
        → q.sent_at ≡ now
        → q.retries ≡ p.retries + 1
        → Ticked nr now queue after datagrams
        → Ticked nr now (p ∷ queue) (q ∷ after) (q.encoded ∷ datagrams)

  -- Some message has been sent again as often as it may, and its timer has run out once more.
  pub data Exhausted (max_retries now : ℕ) : List PendingSend → Type 0 where
    here :
        (p : PendingSend) (queue : List PendingSend)
        → p.sent_at + p.next_rto ≤ now
        → p.retries ≡ max_retries
        → Exhausted max_retries now (p ∷ queue)
    there :
        (p : PendingSend) (queue : List PendingSend)
        → Exhausted max_retries now queue
        → Exhausted max_retries now (p ∷ queue)

  module _ (interval max_retries nr now : ℕ) where
    -- What a tick does to a queue: it gives the peer up, or sends again what is due.
    abbrev pub TickMeets : List PendingSend → List PendingSend × List Bytes × Bool → Type 0
    TickMeets queue (after, datagrams, true) = Exhausted max_retries now queue
    TickMeets queue (after, datagrams, false) =
        Ticked nr now queue after datagrams × All (InFlight interval max_retries) after

    resend_meets :
        (p : PendingSend)
        → nr < 2 ^ 16
        → InFlight interval max_retries p
        → suc p.retries ≤ max_retries
        → (q : PendingSend) × (resend nr now p ≡ ok q)
          × InFlight interval max_retries q
          × (q.msg ≡ record p.msg { nr = nr })
          × (q.sent_at ≡ now)
          × (q.retries ≡ p.retries + 1)
    unfolding resend
    resend_meets p h i l =
        let (again, e) = with_nr-encode p.msg nr p.encoded i.bytes h in
        (
          _,
          rw e refl,
          record {
            timer = ap backoff i.timer ∙ rto_after_suc interval p.retries;
            tries = omega arith;
            bytes = e;
          },
          refl,
          refl,
          refl,
        )

    TickMeets-waits :
        (p : PendingSend) (queue : List PendingSend) (r : List PendingSend × List Bytes × Bool)
        → now < p.sent_at + p.next_rto
        → InFlight interval max_retries p
        → TickMeets queue r
        → TickMeets (p ∷ queue) (p ∷ r.0, r.1, r.2)
    TickMeets-waits p queue (after, datagrams, true) h i t = there p queue t
    TickMeets-waits p queue (after, datagrams, false) h i t =
        (waits p queue after datagrams h t.0, (i, t.1))

    TickMeets-resends :
        (p q : PendingSend) (queue : List PendingSend) (r : List PendingSend × List Bytes × Bool)
        → p.sent_at + p.next_rto ≤ now
        → InFlight interval max_retries q
        → q.msg ≡ record p.msg { nr = nr }
        → q.sent_at ≡ now
        → q.retries ≡ p.retries + 1
        → TickMeets queue r
        → TickMeets (p ∷ queue) (q ∷ r.0, q.encoded ∷ r.1, r.2)
    TickMeets-resends p q queue (after, datagrams, true) h i m s n t = there p queue t
    TickMeets-resends p q queue (after, datagrams, false) h i m s n t =
        (resends p q queue after datagrams h m i.bytes s n t.0, (i, t.1))

    abbrev pub TickReturns : List PendingSend → Type 0
    TickReturns queue =
        (r : List PendingSend × List Bytes × Bool) × (tick_queue max_retries nr now queue ≡ ok r)
        × (map number r.0 ≡ map number queue)
        × TickMeets queue r

    -- A tick never raises, and leaves the sequence numbers as they are. Either some message has used up its retransmissions and is due once
    -- more, and the peer is dead, or exactly the messages that are due are sent again, with the
    -- current Nr, and have their timers doubled up to 16 s.
    pub tick_queue-TickReturns :
        (queue : List PendingSend)
        → nr < 2 ^ 16
        → All (InFlight interval max_retries) queue
        → TickReturns queue
    unfolding tick_queue
    tick_queue-TickReturns [] h a = (([], [], false), refl, refl, (done, tt))
    tick_queue-TickReturns (p ∷ queue) h a =
        let (r, e, ns, t) = tick_queue-TickReturns queue h a.1 in
        elim (Bool-cases (ltb now (p.sent_at + p.next_rto))) as (λ x. TickReturns (p ∷ queue)) [
          | inl early ↦ (
            (p ∷ r.0, r.1, r.2),
            rw (early, e) refl,
            ap (λ x. p.msg.ns ∷ x) ns,
            TickMeets-waits p queue r (ltb→lt now _ early) a.0 t,
          )
          | inr due ↦
              elim (Bool-cases (ltb max_retries (p.retries + 1)))
                as (λ x. TickReturns (p ∷ queue)) [
                  | inl over ↦ (
                    (record p { retries = p.retries + 1 } ∷ queue, [], true),
                    rw (due, over) refl,
                    refl,
                    here p queue (ground arith) (ground (arith, a.0.tries)),
                  )
                  | inr more ↦
                      let (q, again, i, m, s, n) = resend_meets p h a.0 (ground arith) in
                      (
                        (q ∷ r.0, q.encoded ∷ r.1, r.2),
                        rw (due, more, again, e) refl,
                        cons_cong (ap (λ x. x.ns) m) ns,
                        TickMeets-resends p q queue r (ground arith) i m s n t,
                      )
                ]
        ]
