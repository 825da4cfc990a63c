-- ===== src/Peer/Ack.antt =====
-- `_consume_acks` and the send queue of `Peer`.
use xcesp_l2tpv3d.Common.{ℕ, zero, suc, ◌^◌, ◌≤◌, ◌<◌, ◌≡◌, refl, arith}
use xcesp_l2tpv3d.Common.{List, [], ◌∷◌, length, drop}
use xcesp_l2tpv3d.SequenceNumber.{seq_advance, seq_delta-seq_advance}
use xcesp_l2tpv3d.Peer.{PendingSend, consume_acks}

-- The messages of a queue have the sequence numbers from `first` on, up to `next`.
abbrev pub Contiguous : ℕ → List PendingSend → ℕ → Type 0
Contiguous first [] next = first ≡ next
Contiguous first (p ∷ queue) next = (p.msg.ns ≡ first) × Contiguous (seq_advance first 1) queue next

pub seq_advance-seq_advance : (b j : ℕ) → seq_advance (seq_advance b 1) j ≡ seq_advance b (suc j)
unfolding seq_advance
seq_advance-seq_advance b j = omega arith

pub seq_advance_bound : (b j : ℕ) → seq_advance b j < 2 ^ 16
unfolding seq_advance
seq_advance_bound b j = omega arith

-- An acknowledgement of the first `j` messages of a queue with consecutive numbers, where `j` is
-- less than 32768, by the number that follows them, takes exactly these out, also where the numbers
-- wrap at 65536.
pub consume_acks-drop :
    (first next j : ℕ) (queue : List PendingSend)
    → Contiguous first queue next
    → first < 2 ^ 16
    → j ≤ length queue
    → j < 2 ^ 15
    → consume_acks (seq_advance first j) queue ≡ drop j queue
unfolding consume_acks
consume_acks-drop first next zero [] h f l b = refl
consume_acks-drop first next (suc j) [] h f l b = absurd (omega arith)
consume_acks-drop first next zero (p ∷ queue) h f l b =
    ground (arith, h.0, seq_delta-seq_advance first zero (omega arith))
consume_acks-drop first next (suc j) (p ∷ queue) h f l b = ground (
  arith,
  h.0,
  seq_delta-seq_advance first (suc j) b,
  seq_advance-seq_advance first j,
  consume_acks-drop (seq_advance first 1) next j queue h.1 (seq_advance_bound first 1) (omega arith)
      (omega arith),
)
