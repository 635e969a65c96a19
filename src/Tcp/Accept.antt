-- ===== src/Tcp/Accept.antt =====
-- tcp_valid_rxseq, tcp_valid_rxack and tcp_txavail against arithmetic modulo 2^32.
use tas_smartnic.Prelude.{
  u16, add32, ℕ, ◌+◌, ◌-◌, ◌^◌, ◌≤◌, ◌<◌, ◌≡◌, Option, none, some, true, false, ◌&&◌, ltb, leb,
  if◌then◌else◌, arith, sub32, min,
}
use native.Mathlib.Decide.{dec_lt}
use tas_smartnic.Tcp.Window.{Trimmed, valid_interval, tcp_valid_rxseq, tcp_valid_rxack, tcp_txavail}
use tas_smartnic.Tcp.Trim.{InRange}

-- How many of the packet's bytes were received before.
abbrev pub already : ℕ → ℕ → ℕ
already next_seq pkt_seq = sub32 next_seq pkt_seq

-- What an in-order check should answer: a packet that starts at or before the next byte expected and
-- reaches it is cut at both ends of the window.
abbrev pub in_order : ℕ → ℕ → ℕ → ℕ → Option Trimmed
in_order next_seq avail pkt_seq pkt_bytes =
    let d : ℕ = already next_seq pkt_seq in
    if leb d pkt_bytes
    then some (record { trim_start = d; trim_end = pkt_bytes - d - avail })
    else none

module _ (pa n sa av : ℕ) (a : sa < 2 ^ 32) (b : pa < 2 ^ 32) (c : av < 2 ^ 31)
    (d : n < 2 ^ 16) where
  order_whole :
      pa + n < 2 ^ 32
      → sa + av < 2 ^ 32
      → valid_interval pa (pa + n) sa (sa + av) ≡ in_order sa av pa n
  unfolding valid_interval
  order_whole p q = ground arith

  order_window_wraps :
      pa + n < 2 ^ 32
      → 2 ^ 32 ≤ sa + av
      → valid_interval pa (pa + n) sa (sa + av - 2 ^ 32) ≡ in_order sa av pa n
  unfolding valid_interval
  order_window_wraps p q = ground arith

  order_both_wrap :
      2 ^ 32 ≤ pa + n
      → 2 ^ 32 ≤ sa + av
      → valid_interval pa (pa + n - 2 ^ 32) sa (sa + av - 2 ^ 32) ≡ in_order sa av pa n
  unfolding valid_interval
  order_both_wrap p q = ground arith

module _ {next_seq avail pkt_seq pkt_bytes : ℕ} (v : InRange next_seq avail pkt_seq pkt_bytes) where
  open v use {next_small as a, seq_small as b, avail_small as c, bytes_small as d}

  at_ends :
      (pb sb : ℕ)
      → add32 pkt_seq (u16 pkt_bytes) ≡ pb
      → add32 next_seq avail ≡ sb
      → valid_interval pkt_seq pb next_seq sb ≡ in_order next_seq avail pkt_seq pkt_bytes
      → tcp_valid_rxseq next_seq avail pkt_seq pkt_bytes ≡ in_order next_seq avail pkt_seq pkt_bytes
  unfolding tcp_valid_rxseq
  at_ends pb sb p q k = rw (p, q) k

  -- tcp_valid_rxseq is the in-order check, unless the packet goes past the end of the sequence
  -- space and the window does not.
  pub valid_rxseq_lem :
      (ltb (next_seq + avail) (2 ^ 32) && leb (2 ^ 32) (pkt_seq + pkt_bytes)) ≡ false
      → tcp_valid_rxseq next_seq avail pkt_seq pkt_bytes ≡ in_order next_seq avail pkt_seq pkt_bytes
  valid_rxseq_lem e = elim (dec_lt (pkt_seq + pkt_bytes) (2 ^ 32)) [
    | yes p ↦ elim (dec_lt (next_seq + avail) (2 ^ 32)) [
      | yes q ↦
          at_ends _ _ (omega arith) (omega arith)
            (order_whole pkt_seq pkt_bytes next_seq avail a b c d p q)
      | no q ↦
          at_ends _ (next_seq + avail - 2 ^ 32) (omega arith) (omega arith)
            (order_window_wraps pkt_seq pkt_bytes next_seq avail a b c d p (omega arith))
    ]
    | no p ↦
        at_ends (pkt_seq + pkt_bytes - 2 ^ 32) (next_seq + avail - 2 ^ 32) (omega arith)
          (ground arith)
          (order_both_wrap pkt_seq pkt_bytes next_seq avail a b c d (omega arith) (ground arith))
  ]

  -- In that remaining case it drops every packet, also one that carries the next byte expected.
  pub valid_rxseq_drops :
      (ltb (next_seq + avail) (2 ^ 32) && leb (2 ^ 32) (pkt_seq + pkt_bytes)) ≡ true
      → tcp_valid_rxseq next_seq avail pkt_seq pkt_bytes ≡ none
  unfolding tcp_valid_rxseq valid_interval
  valid_rxseq_drops e = ground arith

-- tcp_valid_rxack accepts an acknowledgement just when it lies between the oldest byte in flight and
-- `tx_sent + enqueued` bytes behind that, modulo 2^32, and then says how many bytes it acknowledges.
pub valid_rxack_lem :
    (tx_next_seq tx_sent enqueued ack : ℕ)
    → tx_next_seq < 2 ^ 32
    → ack < 2 ^ 32
    → tx_sent + enqueued < 2 ^ 32
    → let acked = sub32 ack (sub32 tx_next_seq tx_sent) in
      tcp_valid_rxack tx_next_seq tx_sent enqueued ack
      ≡ (if leb acked (tx_sent + enqueued) then some acked else none)
unfolding tcp_valid_rxack
valid_rxack_lem n s e ack a b c = ground arith

-- While the peer's window holds what is in flight, tcp_txavail is the smaller of the bytes in the
-- send buffer and the window that is left.
pub txavail_lem :
    (enqueued rx_remote_avail tx_sent : ℕ)
    → rx_remote_avail < 2 ^ 32
    → tx_sent ≤ rx_remote_avail
    → tcp_txavail enqueued rx_remote_avail tx_sent none ≡ min enqueued (rx_remote_avail - tx_sent)
unfolding tcp_txavail
txavail_lem e r s a h = ground arith

-- If more is in flight than the peer's window holds, the difference wraps: a buffer of less than 2^31
-- bytes counts as sendable in full whenever the excess is below 2^31.
pub txavail_overrun :
    (enqueued rx_remote_avail tx_sent : ℕ)
    → tx_sent < 2 ^ 31
    → enqueued < 2 ^ 31
    → rx_remote_avail < tx_sent
    → tcp_txavail enqueued rx_remote_avail tx_sent none ≡ enqueued
unfolding tcp_txavail
txavail_overrun e r s a b h = ground arith
