-- ===== src/Peer/Buffered.antt =====
-- The reorder buffer of `Peer` against the stream of messages that the other side sends, and the
-- loop of `receive` that empties it.
use xcesp_l2tpv3d.Common.{
  ℕ, zero, suc, ◌+◌, ◌%◌, ◌^◌, ◌≤◌, ◌<◌, ◌≡◌, refl, ap, ◌∙◌, arith, none, some,
}
use xcesp_l2tpv3d.Common.{List, [], ◌∷◌, ◌++◌, length, Bool-cases, Option-cases, inl, inr, ◌==◌}
use xcesp_l2tpv3d.Avp.{Avp}
use xcesp_l2tpv3d.Message.{ControlMessage}
use xcesp_l2tpv3d.ReorderBuffer.{
  Reorder, get, insert, remove, IsDict, length-remove, get-remove, get-remove_ne, remove-IsDict,
}
use xcesp_l2tpv3d.SequenceNumber.{seq_advance}
use xcesp_l2tpv3d.Peer.{drain}

-- `sent i` are the AVPs of the `i`-th message of the other side, counted from 0 without a wrap,
-- and `window` the receive window.
module _ (sent : ℕ → List Avp) (window : ℕ) where
  -- The AVPs of `j` messages, from the `n`-th on.
  abbrev pub stream : ℕ → ℕ → List Avp
  stream n zero = []
  stream n (suc j) = sent n ++ stream (suc n) j

  -- The message is the `i`-th one.
  abbrev pub IsSent : ℕ → ControlMessage → Type 0
  IsSent i m = (m.ns ≡ i % 2 ^ 16) × (m.avps ≡ sent i)

  -- A buffered message is one of the window behind the `n`-th.
  abbrev pub IsBuffered : ℕ → ℕ → ControlMessage → Type 0
  IsBuffered n k m = (i : ℕ) × (n ≤ i) × (i ≤ n + window) × (k ≡ i % 2 ^ 16) × (m.avps ≡ sent i)

  abbrev pub AllBuffered : ℕ → Reorder → Type 0
  AllBuffered n [] = Unit
  AllBuffered n ((k, m) ∷ r) = IsBuffered n k m × AllBuffered n r

  get-IsBuffered :
      (n k : ℕ) (r : Reorder) {m : ControlMessage}
      → AllBuffered n r
      → get k r ≡ some m
      → IsBuffered n k m
  unfolding get
  get-IsBuffered n k [] a h = absurd (ground arith)
  get-IsBuffered n k ((l, m) ∷ r) {m = o} a h = elim (Bool-cases (l == k)) [
    | inl e ↦ let (i, low, high, key, payload) = a.0 in (i, low, high, ground arith, ground arith)
    | inr e ↦ get-IsBuffered n k r {m = o} a.1 (ground arith)
  ]

  AllBuffered-remove : (n k : ℕ) (r : Reorder) → AllBuffered n r → AllBuffered n (remove k r)
  unfolding remove
  AllBuffered-remove n k [] a = tt
  AllBuffered-remove n k ((l, m) ∷ r) a = elim (Bool-cases (l == k)) [
    | inl e ↦ rw e a.1
    | inr e ↦ rw e (a.0, AllBuffered-remove n k r a.1)
  ]

  -- Where the `n`-th message is not buffered, the window behind the next one has them all.
  pub AllBuffered-suc :
      (n : ℕ) (r : Reorder) → AllBuffered n r → get (n % 2 ^ 16) r ≡ none → AllBuffered (suc n) r
  unfolding get
  AllBuffered-suc n [] a h = tt
  AllBuffered-suc n ((l, m) ∷ r) a h =
      let (i, low, high, key, payload) = a.0 in
      ((i, ground arith, ground arith, key, payload), AllBuffered-suc n r a.1 (ground arith))

  pub AllBuffered-insert :
      (n k : ℕ) (m : ControlMessage) (r : Reorder)
      → IsBuffered n k m
      → AllBuffered n r
      → AllBuffered n (insert k m r)
  unfolding insert
  AllBuffered-insert n k m [] b a = (b, tt)
  AllBuffered-insert n k m ((l, o) ∷ r) b a = elim (Bool-cases (l == k)) [
    | inl e ↦
        let (i, low, high, key, payload) = b in rw e ((i, low, high, ground arith, payload), a.1)
    | inr e ↦ rw e (a.0, AllBuffered-insert n k m r b a.1)
  ]

  -- Emptying the buffer gives the next messages of the stream, as many as follow each other,
  -- and goes on until the one that is awaited is not there; the later ones stay.
  abbrev pub DrainsBy : ℕ → ℕ → Reorder → List Avp × ℕ × Reorder → Type 0
  DrainsBy j n r (delivered, nr, left) =
      (delivered ≡ stream n j)
      × (nr ≡ (n + j) % 2 ^ 16)
      × (get nr left ≡ none)
      × IsDict left
      × AllBuffered (n + j) left
      × ((k : ℕ) → n + j ≤ k → k ≤ n + window → get (k % 2 ^ 16) left ≡ get (k % 2 ^ 16) r)

  abbrev pub Drains : ℕ → Reorder → List Avp × ℕ × Reorder → Type 0
  Drains n r rest = (j : ℕ) × DrainsBy j n r rest

  head_payload :
      (n : ℕ) (r : Reorder) (m : ControlMessage)
      → window < 2 ^ 15
      → AllBuffered n r
      → get (n % 2 ^ 16) r ≡ some m
      → m.avps ≡ sent n
  head_payload n r m w a e =
      let (i, low, high, key, payload) = get-IsBuffered n (n % 2 ^ 16) r {m = m} a e in
      payload ∙ ap sent (omega arith)

  pub DrainsBy-step :
      (j n : ℕ) (avps : List Avp) (r : Reorder) (rest : List Avp × ℕ × Reorder)
      → avps ≡ sent n
      → DrainsBy j (suc n) r rest
      → DrainsBy (suc j) n r (avps ++ rest.0, rest.1, rest.2)
  DrainsBy-step j n avps r (delivered, nr, left) e (payload, next, done, d, a, kept) = (
    rw e (ap (λ y. sent n ++ y) payload),
    ground arith,
    done,
    d,
    rw plus_suc a,
    λ k low high. kept k (omega arith) (omega arith),
  )
    where
      plus_suc : n + suc j ≡ suc n + j
      plus_suc = omega arith

  -- What was taken out is none of the later ones.
  Drains-remove :
      (n : ℕ) (r : Reorder) (rest : List Avp × ℕ × Reorder)
      → window < 2 ^ 15
      → Drains (suc n) (remove (n % 2 ^ 16) r) rest
      → Drains (suc n) r rest
  Drains-remove n r rest w (j, (payload, next, done, d, a, kept)) = (
    j,
    (
      payload,
      next,
      done,
      d,
      a,
      λ k low high.
          kept k low high ∙ get-remove_ne (k % 2 ^ 16) (n % 2 ^ 16) r (λ same. omega arith),
    ),
  )

  pub advance_mod : (n : ℕ) → seq_advance (n % 2 ^ 16) 1 ≡ suc n % 2 ^ 16
  unfolding seq_advance
  advance_mod n = omega arith

  pub drain-Drains :
      window < 2 ^ 15
      → (fuel n : ℕ) (r : Reorder) → length r ≤ fuel
      → IsDict r
      → AllBuffered n r
      → Drains n r (drain fuel (n % 2 ^ 16) r)
  unfolding drain get
  drain-Drains w zero n [] f d a = (0, (refl, ground arith, refl, tt, tt, λ k low high. refl))
  drain-Drains w zero n (e ∷ r) f d a = absurd (omega arith)
  drain-Drains w (suc fuel) n r f d a =
      elim (Option-cases (get (n % 2 ^ 16) r))
        as (λ x. Drains n r (drain (suc fuel) (n % 2 ^ 16) r)) [
          | inl e ↦
              rw (drain, e) (0, (refl, ground arith, e, d, rw plus_zero a, λ k low high. refl))
          | inr (m, e) ↦
              let (j, rest) = Drains-remove n r _ w (
                drain-Drains w fuel (suc n) (remove (n % 2 ^ 16) r)
                  (omega (arith, length-remove (n % 2 ^ 16) r {m = m} e))
                  (remove-IsDict (n % 2 ^ 16) r d)
                  (AllBuffered-suc n _ (AllBuffered-remove n (n % 2 ^ 16) r a)
                    (get-remove (n % 2 ^ 16) r d))) in
              rw (drain, e, advance_mod n)
                (suc j, DrainsBy-step j n m.avps r _ (head_payload n r m w a e) rest)
        ]
    where
      plus_zero : n + 0 ≡ n
      plus_zero = omega arith
