-- ===== src/Peer.antt =====
-- `Peer` of xcesp_l2tpv3d/transport.py: the reliable delivery of control messages. A time is a
-- number of milliseconds.
pub mod Buffered
pub mod Receiver
pub mod Delivery
pub mod Ack
pub mod Retransmit
pub mod Queue
pub mod Invariant
pub mod Reachable
pub mod Death
use xcesp_l2tpv3d.Common.{ℕ, zero, suc, ◌+◌, ◌*◌, min, Bool, true, false, ◌||◌, Option, none, some}
use xcesp_l2tpv3d.Common.{List, [], ◌∷◌, ◌++◌, length, ltb, leb, ◌==◌, if◌then◌else◌}
use xcesp_l2tpv3d.Common.Int.{ℤ, pos, negsuc, ltb_ℤ}
use xcesp_l2tpv3d.Exception.{Result, ok, err, ◌>>=◌, empty_avps}
use xcesp_l2tpv3d.Struct.{Bytes}
use xcesp_l2tpv3d.Crypto.{Crypto}
use xcesp_l2tpv3d.Avp.{Avp}
use xcesp_l2tpv3d.Message.{ControlMessage, is_zlb, encode_message}
use xcesp_l2tpv3d.ReorderBuffer.{Reorder, get, insert, remove}
use xcesp_l2tpv3d.SequenceNumber.{seq_delta, seq_advance}

-- `RETRANSMIT_MAX_INTERVAL`
abbrev pub retransmit_max_interval : ℕ
retransmit_max_interval = 16000

-- `_PendingSend`
pub record PendingSend : Type 0 where
  pub msg : ControlMessage
  pub encoded : Bytes
  pub sent_at : ℕ
  pub retries : ℕ
  pub next_rto : ℕ

-- `SockAddr`
abbrev pub SockAddr : Type 0
SockAddr = Bytes × ℕ

pub record Peer : Type 0 where
  pub remote_addr : SockAddr
  pub local_ccid : ℕ
  pub remote_ccid : ℕ
  pub receive_window : ℕ
  pub retransmit_interval : ℕ
  pub max_retries : ℕ
  pub ns_send : ℕ
  pub nr_expect : ℕ
  pub send_queue : List PendingSend
  pub reorder : Reorder
  pub dead : Bool

-- `Peer.__init__`
abbrev pub new_peer : SockAddr → ℕ → ℕ → ℕ → ℕ → ℕ → Peer
new_peer remote_addr local_ccid remote_ccid receive_window retransmit_interval max_retries =
    record {
      remote_addr = remote_addr;
      local_ccid = local_ccid;
      remote_ccid = remote_ccid;
      receive_window = receive_window;
      retransmit_interval = retransmit_interval;
      max_retries = max_retries;
      ns_send = 0;
      nr_expect = 0;
      send_queue = [];
      reorder = [];
      dead = false;
    }

-- `Peer.unacked`
abbrev pub unacked : Peer → ℕ
unacked p = length p.send_queue

-- `Peer.set_remote_ccid`
abbrev pub set_remote_ccid : ℕ → Peer → Peer
set_remote_ccid ccid p = record p { remote_ccid = ccid }

-- `Peer.ack_only`
unfoldable pub ack_only : Peer → ControlMessage
ack_only p = record {
  control_connection_id = p.remote_ccid;
  ns = p.ns_send;
  nr = p.nr_expect;
  avps = [];
}

-- `_consume_acks`
unfoldable pub consume_acks : ℕ → List PendingSend → List PendingSend
consume_acks peer_nr [] = []
consume_acks peer_nr (head ∷ queue) =
    if ltb_ℤ (pos 0) (seq_delta peer_nr head.msg.ns)
    then consume_acks peer_nr queue
    else head ∷ queue

-- The loop that empties the reorder buffer: a round takes one entry out, so that their number is
-- fuel enough. It gives the AVPs in order, the next Ns and what is left.
unfoldable pub drain : ℕ → ℕ → Reorder → List Avp × ℕ × Reorder
drain zero nr_expect reorder = ([], nr_expect, reorder)
drain (suc fuel) nr_expect reorder = elim (get nr_expect reorder) [
  | none ↦ ([], nr_expect, reorder)
  | some queued ↦
      let (delivered, nr, left) = drain fuel (seq_advance nr_expect 1) (remove nr_expect reorder) in
      (queued.avps ++ delivered, nr, left)
]

-- What `receive` does with a message that is not a ZLB, by the distance of its Ns.
unfoldable pub receive_at : ℤ → ControlMessage → Peer → List Avp × List ControlMessage × Peer
receive_at (pos zero) msg p =
    let (delivered, nr, left) = drain (length p.reorder) (seq_advance p.nr_expect 1) p.reorder in
    let q = record p { nr_expect = nr; reorder = left } in
    (msg.avps ++ delivered, ack_only q ∷ [], q)
receive_at (negsuc k) msg p = ([], ack_only p ∷ [], p)
receive_at (pos (suc k)) msg p =
    if leb (suc k) p.receive_window
    then ([], [], record p { reorder = insert msg.ns msg p.reorder })
    else ([], [], p)

-- `Peer.receive`: the AVPs to deliver, the messages to send, and the state after it.
unfoldable pub receive : ControlMessage → Peer → List Avp × List ControlMessage × Peer
receive msg p =
    if msg.control_connection_id == 0 || msg.control_connection_id == p.local_ccid
    then (let q = record p { send_queue = consume_acks msg.nr p.send_queue } in
        if is_zlb msg then ([], [], q) else receive_at (seq_delta msg.ns q.nr_expect) msg q)
    else ([], [], p)

-- One more transmission of a message whose timer has run out.
unfoldable pub backoff : ℕ → ℕ
backoff rto = min (rto * 2) retransmit_max_interval

module _ ⦃c : Crypto⦄ where
  -- `Peer.send`
  unfoldable pub send : List Avp → ℕ → Peer → Result (ControlMessage × Peer)
  send [] now p = err empty_avps
  send (a ∷ avps) now p = do
    let msg : ControlMessage = record {
      control_connection_id = p.remote_ccid;
      ns = p.ns_send;
      nr = p.nr_expect;
      avps = a ∷ avps;
    }
    encoded ← encode_message none none msg
    let pending : PendingSend = record {
      msg = msg;
      encoded = encoded;
      sent_at = now;
      retries = 0;
      next_rto = p.retransmit_interval;
    }
    ok (
      msg,
      record p { send_queue = p.send_queue ++ pending ∷ []; ns_send = seq_advance p.ns_send 1 },
    )

  unfoldable pub resend : ℕ → ℕ → PendingSend → Result PendingSend
  resend nr_expect now pending = do
    let msg = record pending.msg { nr = nr_expect }
    encoded ← encode_message none none msg
    ok (record {
      msg = msg;
      encoded = encoded;
      sent_at = now;
      retries = pending.retries + 1;
      next_rto = backoff pending.next_rto;
    })

  -- The loop of `tick`: the queue after it, the datagrams, and whether the peer is dead.
  unfoldable pub tick_queue :
      ℕ → ℕ → ℕ → List PendingSend → Result (List PendingSend × List Bytes × Bool)
  tick_queue max_retries nr_expect now [] = ok ([], [], false)
  tick_queue max_retries nr_expect now (pending ∷ queue) =
      let rest = tick_queue max_retries nr_expect now queue in
      if ltb now (pending.sent_at + pending.next_rto)
      then (do (after, datagrams, dead) ← rest; ok (pending ∷ after, datagrams, dead))
      else if ltb max_retries (pending.retries + 1)
      then ok (record pending { retries = pending.retries + 1 } ∷ queue, [], true)
      else (do
        again ← resend nr_expect now pending
        (after, datagrams, dead) ← rest
        ok (again ∷ after, again.encoded ∷ datagrams, dead))

  -- `Peer.tick`
  unfoldable pub tick : ℕ → Peer → Result (List Bytes × Bool × Peer)
  tick now p = if p.dead then ok ([], true, p) else (do
    (queue, datagrams, dead) ← tick_queue p.max_retries p.nr_expect now p.send_queue
    let q = record p { send_queue = queue; dead = dead }
    ok (if dead then ([], true, q) else (datagrams, false, q)))
