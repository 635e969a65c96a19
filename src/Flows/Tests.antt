-- ===== src/Flows/Tests.antt =====
-- The theorems on flows at concrete flows and segments.
use tas_smartnic.Prelude.{
  none, ◌-◌, ltb, if◌then◌else◌, some, add32, ◌+◌, u32, ◌≡◌, false, true, ℕ, arith, refl,
}
use tas_smartnic.Rdma.Ring.{Queue, nbytes_enqueued, nbytes_empty}
use tas_smartnic.Tcp.Window.{tcp_valid_rxack}
use tas_smartnic.Flows.State.{Flow, Packet, snd_una}
use tas_smartnic.Flows.Send.{send_next, fast_flows_qman}
use tas_smartnic.Flows.Receive.{out_of_order, deliver, acknowledge}
use tas_smartnic.Flows.Reassembly.{IsSane, Holds, out_of_order-Holds}
use tas_smartnic.Flows.Delivery.{Delivered}
use tas_smartnic.Flows.Merging.{deliver_lem}
use tas_smartnic.Flows.Packet.{payload_length, payload_off, process_payload}
use tas_smartnic.Flows.InOrder.{Accepted, process_payload_lem}
use tas_smartnic.Flows.Sending.{send_next_lem, qman_within_window}
use tas_smartnic.Flows.Acks.{overdrawn, IsInbound, Acked, acknowledge_lem}

-- A receive queue of 100 bytes, empty, 10 bytes before its end.
abbrev receiving : Queue
receiving = record {
  buffer = λ i. 0;
  buffer_size = 100;
  flush_offset = 90;
  rx_offset = 90;
  tx_offset = 90;
  paired = true;
  is_tx = true;
}

-- A transmit queue of 100 bytes, with 20 bytes in it.
abbrev sending : Queue
sending = record {
  buffer = λ i. i;
  buffer_size = 100;
  flush_offset = 95;
  rx_offset = 95;
  tx_offset = 15;
  paired = true;
  is_tx = false;
}

-- A flow that expects 1000, has the bytes 1005 to 1014, and has sent `sent` bytes from 500 on.
abbrev flow : ℕ → (ℕ → ℕ) → Flow
flow sent buffer = record {
  opaque = 1;
  rx = record {
    queue = record receiving { buffer = buffer };
    peer_buffer = λ i. 0;
    peer_tx_offset = 90;
    posted = 0;
  };
  slowpath = false;
  ecn = false;
  tx_fin = false;
  rx_fin = false;
  tx = sending;
  local_ip = 1;
  remote_ip = 2;
  local_port = 80;
  remote_port = 4000;
  remote_mac = 3;
  db_id = 0;
  flow_group = 0;
  bump_seq = 0;
  rx_next_seq = 1000;
  rx_remote_avail = 50;
  rx_dupack_cnt = 0;
  rx_ooo_start = 1005;
  rx_ooo_len = 10;
  tx_sent = sent;
  tx_next_seq = 500 + sent;
  tx_next_ts = 0;
  tx_rate = 1000;
  cnt_tx_drops = 0;
  cnt_rx_acks = 0;
  cnt_rx_ack_bytes = 0;
  cnt_rx_ecn_bytes = 0;
  rtt_est = 40;
}

-- The peer sends the bytes 0, 1, 2 and so on from 1000 on.
abbrev counting : ℕ → ℕ
counting i = if ltb i 90 then i + 10 else i - 90

abbrev busy : Flow
busy = flow 5 counting

busy-IsSane : IsSane busy
busy-IsSane = record {
  ring = record {
    small = omega arith;
    inside = omega arith;
    origin_in = omega arith;
    room = omega arith;
  };
  next_small = omega arith;
  start_small = omega arith;
}

busy_room : nbytes_empty busy.rx.queue ≡ 92
unfolding nbytes_empty
busy_room = refl

busy-Holds : Holds (λ k. k) busy
busy-Holds = record { fits = λ p. omega (arith, busy_room); held = λ i k. ground arith }

sending-IsInbound : IsInbound sending
sending-IsInbound = record { small = omega arith; rx_in = omega arith; end_in = omega arith }

sending_bytes : nbytes_enqueued sending ≡ 20
unfolding nbytes_enqueued
sending_bytes = refl

out_of_order-Holds_example : Holds (λ k. k) (out_of_order busy 1015 5 (λ i. 15 + i))
out_of_order-Holds_example =
    out_of_order-Holds (λ k. k) busy busy-IsSane busy-Holds 1015 5 (λ i. 15 + i) (omega arith)
      (omega arith) (omega arith) (omega (arith, busy_room)) (λ i k. omega arith)

deliver_lem_example : Delivered (λ k. k) busy 5 (deliver (λ n. 0) (λ n. 0) busy 5 (λ i. i))
deliver_lem_example =
    deliver_lem (λ n. 0) (λ n. 0) (λ k. k) busy busy-IsSane busy-Holds 5 (λ i. i) (omega arith)
      (omega arith) (omega (arith, busy_room)) (λ i k. omega arith) (omega arith)

send_next_lem_example : (send_next 9 (λ i. 0) busy 15 77).1.seqno ≡ add32 (snd_una busy) 5
send_next_lem_example =
    (send_next_lem 9 (λ i. 0) busy 15 77 (omega arith) (omega arith) (omega arith) (omega arith)).0

qman_within_window_example :
    snd_una (fast_flows_qman (λ g. 0) 0 9 (λ i. 0) busy 77).1 ≡ snd_una busy
qman_within_window_example =
    (qman_within_window (λ g. 0) 0 9 (λ i. 0) busy 77 (omega arith) (omega arith) (omega arith)).1

valid_ack : tcp_valid_rxack 505 5 (u32 (nbytes_enqueued sending)) 503 ≡ some 3
unfolding tcp_valid_rxack
valid_ack = rw sending_bytes refl

acknowledge_lem_example :
    if overdrawn busy 3 then (acknowledge busy 3 ≡ none) else Acked busy 3 503 (acknowledge busy 3)
acknowledge_lem_example =
    acknowledge_lem busy sending-IsInbound 503 3 (omega (arith, sending_bytes)) (omega arith)
      (omega arith) valid_ack

abbrev sample : Packet
sample = record {
  eth_src = 3;
  eth_dest = 9;
  ip_src = 2;
  ip_dest = 1;
  ip_len = 57;
  ip_ce = false;
  src_port = 4000;
  dest_port = 80;
  seqno = 1000;
  ackno = 503;
  wnd = 50;
  hdrlen = 8;
  flag_fin = false;
  flag_syn = false;
  flag_ack = true;
  flag_ece = false;
  other_flags = false;
  ts_val = 12;
  ts_ecr = 100;
  bytes = λ i. 0;
}

-- 17 bytes of payload from 1000 on, which cover the out-of-order bytes.
abbrev next_packet : Packet
next_packet = record sample { ip_len = 69; bytes = λ i. i - 66 }

next_packet_length : payload_length next_packet ≡ 17
unfolding payload_length
next_packet_length = refl

next_packet_offset : payload_off next_packet ≡ 66
unfolding payload_off
next_packet_offset = refl

process_payload_lem_example :
    Accepted
      (λ k. k)
      busy
      (payload_length next_packet)
      3
      (process_payload (λ n. 0) (λ n. 0) busy next_packet 3 180)
process_payload_lem_example =
    process_payload_lem (λ n. 0) (λ n. 0) (λ k. k) busy next_packet 3 180 busy-IsSane busy-Holds
      (omega arith) refl refl (omega (arith, next_packet_length))
      (omega (arith, next_packet_length)) (omega (arith, next_packet_length, busy_room))
      (λ i k. omega (arith, next_packet_offset)) refl
