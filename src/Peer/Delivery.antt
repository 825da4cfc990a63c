-- ===== src/Peer/Delivery.antt =====
-- What `Peer.receive` delivers, against the stream of messages that the other side sends.
use xcesp_l2tpv3d.Common.{ℕ, ◌+◌, ◌≤◌, ◌≡◌, true, false, ◌⊎◌, ◌||◌}
use xcesp_l2tpv3d.Common.{List, ◌==◌}
use xcesp_l2tpv3d.Avp.{Avp}
use xcesp_l2tpv3d.Message.{ControlMessage, is_zlb}
use xcesp_l2tpv3d.Peer.{Peer}
use xcesp_l2tpv3d.Peer.Buffered.{IsSent}
use xcesp_l2tpv3d.Peer.Receiver.{Has}

-- `sent i` are the AVPs of the `i`-th message of the other side, counted from 0 without a wrap,
-- and `window` the receive window.
module _ (sent : ℕ → List Avp) (window : ℕ) where
  -- What the receiver has after it was given `m`: what it had, and `m`, if that is for it, has AVPs
  -- and is the `i`-th, at most a window ahead.
  abbrev pub Due : ℕ → ℕ → ControlMessage → Peer → ℕ → Type 0
  Due n i m p k =
      Has sent window n p.reorder k
      ⊎ ((k ≡ i)
          × (i ≤ n + window)
          × IsSent sent window i m
          × (is_zlb m ≡ false)
          × ((m.control_connection_id == 0 || m.control_connection_id == p.local_ccid) ≡ true))
