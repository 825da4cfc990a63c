-- ===== src/Peer/Queue.antt =====
-- The send queue and the counters of `Peer` under its operations.
use xcesp_l2tpv3d.Common.{ℕ, zero, suc, ◌^◌, ◌<◌, ◌≡◌, sym, ap, ◌∙◌, arith}
use xcesp_l2tpv3d.Common.{List, [], ◌∷◌, ◌++◌, All, map, Bool-cases, Option-cases, inl, inr}
use xcesp_l2tpv3d.Common.Int.{pos, ltb_ℤ}
use xcesp_l2tpv3d.ReorderBuffer.{Reorder, get, remove}
use xcesp_l2tpv3d.SequenceNumber.{seq_advance, seq_delta}
use xcesp_l2tpv3d.Peer.{PendingSend, drain, consume_acks}
use xcesp_l2tpv3d.Peer.Ack.{Contiguous, seq_advance_bound}

pub Contiguous-append :
    (first next : ℕ) (queue : List PendingSend) (p : PendingSend)
    → Contiguous first queue next
    → p.msg.ns ≡ next
    → Contiguous first (queue ++ p ∷ []) (seq_advance next 1)
Contiguous-append first next [] p h e = (e ∙ sym h, ap (λ k. seq_advance k 1) h)
Contiguous-append first next (q ∷ queue) p h e =
    (h.0, Contiguous-append (seq_advance first 1) next queue p h.1 e)

-- The sequence numbers of a queue are as they should be, from some number on.
abbrev pub IsQueue : List PendingSend → ℕ → Type 0
IsQueue queue next = (first : ℕ) × Contiguous first queue next

pub consume_acks-IsQueue :
    (nr next : ℕ) (queue : List PendingSend)
    → IsQueue queue next
    → IsQueue (consume_acks nr queue) next
unfolding consume_acks
consume_acks-IsQueue nr next [] h = h
consume_acks-IsQueue nr next (p ∷ queue) (first, h) =
    elim (Bool-cases (ltb_ℤ (pos 0) (seq_delta nr p.msg.ns)))
      as (λ x. IsQueue (consume_acks nr (p ∷ queue)) next) [
        | inl e ↦ rw (consume_acks, e) (consume_acks-IsQueue nr next queue (_, h.1))
        | inr e ↦ rw (consume_acks, e) (first, h)
      ]

module _ {κ} (P : PendingSend → Type κ) where
  pub All-consume_acks :
      (nr : ℕ) (queue : List PendingSend) → All P queue → All P (consume_acks nr queue)
  unfolding consume_acks
  All-consume_acks nr [] h = tt
  All-consume_acks nr (p ∷ queue) h =
      elim (Bool-cases (ltb_ℤ (pos 0) (seq_delta nr p.msg.ns)))
        as (λ x. All P (consume_acks nr (p ∷ queue))) [
          | inl e ↦ rw (consume_acks, e) (All-consume_acks nr queue h.1)
          | inr e ↦ rw (consume_acks, e) h
        ]

pub drain_bound : (fuel nr : ℕ) (r : Reorder) → nr < 2 ^ 16 → (drain fuel nr r).1 < 2 ^ 16
unfolding drain
drain_bound zero nr r h = h
drain_bound (suc fuel) nr r h =
    elim (Option-cases (get nr r)) as (λ x. (drain (suc fuel) nr r).1 < 2 ^ 16) [
      | inl e ↦ rw (drain, e) h
      | inr (m, e) ↦ rw (drain, e) (drain_bound fuel _ (remove nr r) (seq_advance_bound nr 1))
    ]

-- Only the sequence numbers matter.
pub Contiguous-map :
    (first next : ℕ) (xs ys : List PendingSend)
    → map (λ p. p.msg.ns) ys ≡ map (λ p. p.msg.ns) xs
    → Contiguous first xs next
    → Contiguous first ys next
Contiguous-map first next [] [] e h = h
Contiguous-map first next [] (y ∷ ys) e h = absurd (ground arith)
Contiguous-map first next (x ∷ xs) [] e h = absurd (ground arith)
Contiguous-map first next (x ∷ xs) (y ∷ ys) e h =
    (ground (arith, h.0), Contiguous-map (seq_advance first 1) next xs ys (ground arith) h.1)
