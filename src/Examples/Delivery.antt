-- ===== src/Examples/Delivery.antt =====
-- Runs of `Peer`.
use xcesp_l2tpv3d.Common.{ℕ, ◌%◌, ◌^◌, ◌≡◌, refl, arith, none, List, [], ◌∷◌, drop}
use xcesp_l2tpv3d.Exception.{ok}
use xcesp_l2tpv3d.Struct.{Bytes, pack_bbhh, pack_bbhihh}
use xcesp_l2tpv3d.Avp.{Avp, encode_value, encode, encode_all}
use xcesp_l2tpv3d.Message.{ControlMessage, encode_message, validate_fields}
use xcesp_l2tpv3d.SequenceNumber.{seq_advance}
use xcesp_l2tpv3d.Peer.{Peer, PendingSend, new_peer, send, consume_acks}
use xcesp_l2tpv3d.Peer.Ack.{consume_acks-drop}
use xcesp_l2tpv3d.Peer.Retransmit.{TickReturns, tick_queue-TickReturns}
use xcesp_l2tpv3d.Peer.Invariant.{WellFormed}
use xcesp_l2tpv3d.Peer.Reachable.{start, after, sends, Reaches-WellFormed}
use xcesp_l2tpv3d.Peer.Death.{Dies, tick_all-dead}
use xcesp_l2tpv3d.Examples.Data.{weak_digests, hello_avp, hello_message, hello_bytes}

-- A stream of messages that differ in their number.
abbrev numbered : ℕ → List Avp
numbered i = record hello_avp { value = 0 ∷ i % 256 ∷ [] } ∷ []

abbrev numbered_message : ℕ → ControlMessage
numbered_message i = record {
  control_connection_id = 7;
  ns = i % 2 ^ 16;
  nr = 0;
  avps = numbered i;
}

abbrev fresh : Peer
fresh = new_peer (127 ∷ 0 ∷ 0 ∷ 1 ∷ [], 1701) 7 9 4 1000 5

-- It waits for number 65535 and holds the next one, whose number has wrapped to 0.
abbrev waiting : Peer
waiting = record fresh { nr_expect = 65535; reorder = (0, numbered_message 65536) ∷ [] }

abbrev pending : PendingSend
pending = record {
  msg = hello_message;
  encoded = hello_bytes;
  sent_at = 500;
  retries = 0;
  next_rto = 1000;
}

-- The numbers 65535 and 0 wait for an acknowledgement.
abbrev wrapped_queue : List PendingSend
wrapped_queue =
    record pending { msg = record hello_message { ns = 65535 } }
    ∷ record pending { msg = record hello_message { ns = 0 } }
    ∷ []

consume_acks-drop_example : consume_acks (seq_advance 65535 1) wrapped_queue ≡ drop 1 wrapped_queue
unfolding seq_advance
consume_acks-drop_example =
    consume_acks-drop 65535 1 1 wrapped_queue (refl, (refl, refl)) (omega arith) (ground arith)
      (omega arith)

encode_message-hello_message : encode_message none none hello_message ≡ ok hello_bytes
unfolding encode_message validate_fields pack_bbhihh encode_all encode encode_value pack_bbhh
encode_message-hello_message = refl

tick_queue-TickReturns_example : TickReturns 1000 5 4 2000 (pending ∷ [])
tick_queue-TickReturns_example =
    tick_queue-TickReturns 1000 5 4 2000 (pending ∷ []) (omega arith)
      (record { timer = refl; tries = omega arith; bytes = encode_message-hello_message }, tt)

abbrev first_message : ControlMessage
first_message = record { control_connection_id = 9; ns = 0; nr = 0; avps = hello_avp ∷ [] }

abbrev first_bytes : Bytes
first_bytes =
    200 ∷ 3 ∷ 0 ∷ 20 ∷ 0 ∷ 0 ∷ 0 ∷ 9 ∷ 0 ∷ 0 ∷ 0 ∷ 0 ∷ 128 ∷ 8 ∷ 0 ∷ 0 ∷ 0 ∷ 0 ∷ 0 ∷ 6 ∷ []

-- The state after a first message.
abbrev sending : Peer
sending = record fresh {
  send_queue =
      record {
        msg = first_message;
        encoded = first_bytes;
        sent_at = 500;
        retries = 0;
        next_rto = 1000;
      }
      ∷ [];
  ns_send = 1;
}

send-fresh : send (hello_avp ∷ []) 500 fresh ≡ ok (first_message, sending)
unfolding send seq_advance encode_message validate_fields pack_bbhihh encode_all encode encode_value
    pack_bbhh
send-fresh = refl

Reaches-WellFormed_example : WellFormed sending
Reaches-WellFormed_example =
    Reaches-WellFormed fresh sending
      (after fresh fresh sending (start fresh)
        (sends fresh sending (hello_avp ∷ []) 500 first_message send-fresh))
      (127 ∷ 0 ∷ 0 ∷ 1 ∷ [], 1701) 7 9 4 1000 5 (omega arith) refl

encode_message-first_message : encode_message none none first_message ≡ ok first_bytes
unfolding encode_message validate_fields pack_bbhihh encode_all encode encode_value pack_bbhh
encode_message-first_message = refl

sending-WellFormed : WellFormed sending
unfolding seq_advance
sending-WellFormed = record {
  interval_cap = omega arith;
  ns_bound = omega arith;
  nr_bound = omega arith;
  in_order = (0, (refl, refl));
  in_flight = λ alive.
      (record { timer = refl; tries = omega arith; bytes = encode_message-first_message }, tt);
}

tick_all-dead_example : Dies (17000 ∷ 34000 ∷ 51000 ∷ 68000 ∷ 85000 ∷ 102000 ∷ []) sending
tick_all-dead_example =
    tick_all-dead (17000 ∷ 34000 ∷ 51000 ∷ 68000 ∷ 85000 ∷ 102000 ∷ []) sending
      (record {
        msg = first_message;
        encoded = first_bytes;
        sent_at = 500;
        retries = 0;
        next_rto = 1000;
      })
      [] sending-WellFormed refl (ground arith) (ground arith)
