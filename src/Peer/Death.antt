-- ===== src/Peer/Death.antt =====
-- A peer that answers nothing is given up by `Peer.tick`.
use xcesp_l2tpv3d.Common.{
  ℕ, ◌+◌, ◌≤◌, ◌<◌, ◌≡◌, refl, sym, arith, true, false, Bool, List, [], ◌∷◌, length, All,
  Bool-cases, inl, inr, if◌then◌else◌,
}
use mathlib.Core.Path.{subst}
use xcesp_l2tpv3d.Exception.{Result, ok, ◌>>=◌}
use xcesp_l2tpv3d.Struct.{Bytes}
use xcesp_l2tpv3d.Crypto.{Crypto}
use xcesp_l2tpv3d.Peer.{Peer, PendingSend, tick, retransmit_max_interval}
use xcesp_l2tpv3d.Peer.Retransmit.{
  InFlight, Ticked, waits, resends, TickMeets, tick_queue-TickReturns,
}
use xcesp_l2tpv3d.Peer.Invariant.{WellFormed}
use xcesp_l2tpv3d.Peer.Reachable.{tick-TickKeeps, tick_alive}

-- Times that lie 16 seconds apart at least, the first of them after `last`.
abbrev pub IsSpaced : ℕ → List ℕ → Type 0
IsSpaced last [] = Unit
IsSpaced last (now ∷ times) = (last + retransmit_max_interval ≤ now) × IsSpaced now times

module _ ⦃c : Crypto⦄ where
  -- A tick at each of the times, with nothing received between them.
  unfoldable pub tick_all : List ℕ → Peer → Result Peer
  tick_all [] p = ok p
  tick_all (now ∷ times) p = do (datagrams, dead, q) ← tick now p; tick_all times q

  tick_gone : (now : ℕ) (p : Peer) → p.dead ≡ true → tick now p ≡ ok ([], true, p)
  unfolding tick
  tick_gone now p h = rw (tick, h) refl

  tick_all_gone : (times : List ℕ) (p : Peer) → p.dead ≡ true → tick_all times p ≡ ok p
  unfolding tick_all
  tick_all_gone [] p h = refl
  tick_all_gone (now ∷ times) p h = rw (tick_gone now p h) (tick_all_gone times p h)

  -- The first message of a queue after a tick, where its timer has run out.
  head_after :
      (nr now : ℕ) (h : PendingSend) (queue after : List PendingSend) (datagrams : List Bytes)
      → Ticked nr now (h ∷ queue) after datagrams
      → h.sent_at + h.next_rto ≤ now
      → (q : PendingSend) × (rest : List PendingSend) × (after ≡ q ∷ rest)
        × (q.sent_at ≡ now)
        × (q.retries ≡ h.retries + 1)
  head_after nr now h queue _ _ (waits _ _ after datagrams early t) due = absurd (omega arith)
  head_after nr now h queue _ _ (resends _ q _ after datagrams late m b s n t) due =
      (q, after, refl, s, n)

  -- The state after a tick is well-formed, if it is known.
  after-WellFormed :
      (p q : Peer) (now : ℕ) (datagrams : List Bytes) (dead : Bool)
      → WellFormed p
      → tick now p ≡ ok (datagrams, dead, q)
      → WellFormed q
  after-WellFormed p q now datagrams dead w e =
      let (datagrams', dead', q', e', v, same) = tick-TickKeeps p now w in
      subst WellFormed (ground (arith, e, e')) v

  -- What is known of the first message of the queue while the peer is alive.
  head_InFlight :
      (p : Peer) (h : PendingSend) (queue : List PendingSend)
      → WellFormed p
      → p.send_queue ≡ h ∷ queue
      → p.dead ≡ false
      → InFlight p.retransmit_interval p.max_retries h
  head_InFlight p h queue w e alive =
      (subst (All (InFlight p.retransmit_interval p.max_retries)) e (w.in_flight alive)).0

  -- The claim below, for given times.
  abbrev pub Dies : List ℕ → Peer → Type 0
  Dies times p = (q : Peer) × (tick_all times p ≡ ok q) × (q.dead ≡ true)

  Dies-after_tick :
      (now : ℕ) (times : List ℕ) (p : Peer) (h : PendingSend) (queue : List PendingSend)
      → WellFormed p
      → h.sent_at + h.next_rto ≤ now
      → IsSpaced now times
      → p.max_retries < h.retries + length (now ∷ times)
      → ((q : Peer) (g : PendingSend) (rest : List PendingSend)
          → WellFormed q
          → q.send_queue ≡ g ∷ rest
          → IsSpaced g.sent_at times
          → q.max_retries < g.retries + length times
          → Dies times q)
      → (r : List PendingSend × List Bytes × Bool)
      → tick now p
        ≡ ok (
            let q = record p { send_queue = r.0; dead = r.2 } in
            if r.2 then ([], true, q) else (r.1, false, q))
      → TickMeets p.retransmit_interval p.max_retries p.nr_expect now (h ∷ queue) r
      → Dies (now ∷ times) p
  unfolding tick_all
  Dies-after_tick now times p h queue w due s n later (after, datagrams, true) t meets =
      (record p { send_queue = after; dead = true }, rw t (tick_all_gone times _ refl), refl)
  Dies-after_tick now times p h queue w due s n later (after, datagrams, false) t meets =
      let (g, rest, same, sent, tries) =
        head_after p.nr_expect now h queue after datagrams meets.0 due in
      rw t (
        later (record p { send_queue = after; dead = false }) g rest
          (after-WellFormed p _ now datagrams false w t) same
          (subst (λ k. IsSpaced k times) (sym sent) s) (omega (arith, tries)))

  -- Where the first message of the queue is never acknowledged, the peer is dead after as many ticks,
  -- 16 seconds or more apart, as the message has retransmissions left, and one more.
  pub tick_all-dead :
      (times : List ℕ) (p : Peer) (h : PendingSend) (queue : List PendingSend)
      → WellFormed p
      → p.send_queue ≡ h ∷ queue
      → IsSpaced h.sent_at times
      → p.max_retries < h.retries + length times
      → Dies times p
  unfolding tick_all
  tick_all-dead [] p h queue w e s n = elim (Bool-cases p.dead) [
    | inl gone ↦ (p, refl, gone)
    | inr alive ↦ absurd (omega (arith, (head_InFlight p h queue w e alive).tries))
  ]
  tick_all-dead (now ∷ times) p h queue w e s n = elim (Bool-cases p.dead) [
    | inl gone ↦ (p, tick_all_gone (now ∷ times) p gone, gone)
    | inr alive ↦
        let (r, returns, ns, meets) =
          tick_queue-TickReturns p.retransmit_interval p.max_retries p.nr_expect now p.send_queue
            w.nr_bound (w.in_flight alive) in
        Dies-after_tick now times p h queue w
          (omega (arith, (head_InFlight p h queue w e alive).timer, s.0)) s.1 n
          (tick_all-dead times) r (tick_alive p now r alive returns)
          (subst (λ l. TickMeets p.retransmit_interval p.max_retries p.nr_expect now l r) e meets)
  ]
