-- ===== src/Peer/Receiver.antt =====
-- A receiver of the stream of messages that the other side sends: what it has, and what the steps of
-- `Peer.receive` in xcesp_l2tpv3d/transport.py do to that.
use xcesp_l2tpv3d.Common.{
  ℕ, suc, ◌+◌, ◌%◌, ◌^◌, ◌≤◌, ◌<◌, ◌≡◌, refl, sym, ap, ◌∙◌, arith, true, none, ◌⊎◌,
}
use xcesp_l2tpv3d.Common.{is_some, ltb, List, [], ◌∷◌, ◌++◌, All, Bool-cases, inl, inr}
use xcesp_l2tpv3d.Avp.{Avp}
use xcesp_l2tpv3d.Message.{ControlMessage}
use xcesp_l2tpv3d.ReorderBuffer.{Reorder, get, insert, IsDict, get-insert, get-insert_some}
use xcesp_l2tpv3d.Peer.{Peer, ack_only}
use xcesp_l2tpv3d.Peer.Buffered.{stream, AllBuffered, Drains, DrainsBy, DrainsBy-step}

-- `sent i` are the AVPs of the `i`-th message of the other side, counted from 0 without a wrap,
-- and `window` the receive window.
module _ (sent : ℕ → List Avp) (window : ℕ) where
  -- The state of a receiver that has been given the first `n` messages of the stream.
  pub record Receiving (n : ℕ) (p : Peer) : Type 0 where
    pub window_size : p.receive_window ≡ window
    pub expected : p.nr_expect ≡ n % 2 ^ 16
    pub is_dict : IsDict p.reorder
    pub buffered : AllBuffered sent window n p.reorder
    pub gap : get (n % 2 ^ 16) p.reorder ≡ none

  -- The receiver has the `k`-th message: it has delivered it, or it holds it.
  abbrev pub Has : ℕ → Reorder → ℕ → Type 0
  Has n r k = (k < n) ⊎ ((k ≤ n + window) × (is_some (get (k % 2 ^ 16) r) ≡ true))

  -- What a receiver that has `n` messages does: it delivers the next `j`, in order and no other,
  -- what it sends acknowledges all of them, and it then has all that are `due`.
  abbrev pub Delivers : ℕ → (ℕ → Type 0) → List Avp × List ControlMessage × Peer → Type 0
  Delivers n Due (delivered, response, q) =
      (j : ℕ) × (delivered ≡ stream sent window n j)
      × Receiving (n + j) q
      × All (λ m. (m.nr ≡ (n + j) % 2 ^ 16) × (m.avps ≡ [])) response
      × ((k : ℕ) → Due k → Has (n + j) q.reorder k)

  -- Those that it had, and the `i`-th, if that is at most a window ahead.
  abbrev pub HadOr : ℕ → ℕ → Reorder → ℕ → Type 0
  HadOr n i r k = Has n r k ⊎ ((k ≡ i) × (i ≤ n + window))

  pub nothing_Delivers :
      (n : ℕ) (Due : ℕ → Type 0) (p : Peer) (response : List ControlMessage)
      → Receiving n p
      → All (λ m. (m.nr ≡ n % 2 ^ 16) × (m.avps ≡ [])) response
      → ((k : ℕ) → Due k → Has n p.reorder k)
      → Delivers n Due ([], response, p)
  nothing_Delivers n Due p response r a h =
      (0, refl, rw plus_zero r, rw plus_zero a, λ k due. rw plus_zero (h k due))
    where
      plus_zero : n + 0 ≡ n
      plus_zero = omega arith

  -- Emptying the buffer loses nothing.
  Has-DrainsBy :
      (j n k : ℕ) (r : Reorder) (avps : List Avp) (rest : List Avp × ℕ × Reorder)
      → DrainsBy sent window (suc j) n r (avps ++ rest.0, rest.1, rest.2)
      → HadOr n n r k
      → Has (n + suc j) rest.2 k
  Has-DrainsBy j n k r avps rest drained (inr (same, near)) = inl (omega arith)
  Has-DrainsBy j n k r avps rest drained (inl (inl before)) = inl (omega arith)
  Has-DrainsBy j n k r avps rest (payload, next, done, d, a, kept) (inl (inr (near, held))) =
      elim (Bool-cases (ltb k (n + suc j))) [
        | inl e ↦ inl (ground arith)
        | inr e ↦ inr (omega arith, ap is_some (kept k (ground arith) near) ∙ held)
      ]

  pub expected_Delivers :
      (n : ℕ) (m : ControlMessage) (p : Peer) (rest : List Avp × ℕ × Reorder)
      → Receiving n p
      → m.avps ≡ sent n
      → Drains sent window (suc n) p.reorder rest
      → let q = record p { nr_expect = rest.1; reorder = rest.2 } in
        Delivers n (HadOr n n p.reorder) (m.avps ++ rest.0, ack_only q ∷ [], q)
  unfolding ack_only
  expected_Delivers n m p (delivered, nr, left) r e (j, drained) =
      let step = DrainsBy-step sent window j n m.avps p.reorder (delivered, nr, left) e drained in
      let (payload, next, done, d, a, kept) = step in
      (
        suc j,
        payload,
        record {
          window_size = r.window_size;
          expected = next;
          is_dict = d;
          buffered = a;
          gap = ap (λ k. get k left) (sym next) ∙ done;
        },
        ((next, refl), tt),
        λ k due. Has-DrainsBy j n k p.reorder m.avps (delivered, nr, left) step due,
      )

  -- A message that is put into the buffer joins those that are there.
  pub Has-insert :
      (n i k : ℕ) (m : ControlMessage) (r : Reorder)
      → m.ns ≡ i % 2 ^ 16
      → HadOr n i r k
      → Has n (insert m.ns m r) k
  Has-insert n i k m r s (inr (same, near)) =
      let key : k % 2 ^ 16 ≡ m.ns = omega arith in
      inr (
        omega arith,
        ap (λ x. is_some (get x (insert m.ns m r))) key ∙ ap is_some (get-insert m.ns m r),
      )
  Has-insert n i k m r s (inl (inl before)) = inl before
  Has-insert n i k m r s (inl (inr (near, held))) =
      inr (near, get-insert_some (k % 2 ^ 16) m.ns m r held)
