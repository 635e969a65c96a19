-- ===== src/Flows/Sending.antt =====
-- What fast_flows_qman and fast_flows_retransmit (tas_nic/fast/fast_flows.c) send, and under which
-- sequence numbers.
use tas_smartnic.Prelude.{
  ◌∙◌, false, lt→ltb, ◌==◌, ltb, ◌≢◌, true, if◌then◌else◌, add32, u32, ◌≡◌, ◌+◌, ◌≤◌, ◌^◌, ◌<◌, ℕ,
  arith,
}
use tas_smartnic.Rdma.Ring.{nbytes_enqueued}
use tas_smartnic.Rdma.Fifo.{byte}
use tas_smartnic.Tcp.Window.{tcp_txavail}
use tas_smartnic.Flows.State.{Flow, snd_una, tcp_mss}
use tas_smartnic.Flows.Buffer.{flow_tx_read}
use tas_smartnic.Flows.Send.{
  flow_tx_segment, send_offset, send_next, fast_flows_qman, flow_reset_retransmit,
  fast_flows_retransmit,
}

module _ (mac : ℕ) (scratch : ℕ → ℕ) (fs : Flow) where
  read_byte :
      (len i : ℕ)
      → fs.tx.buffer_size < 2 ^ 31
      → fs.tx.rx_offset ≤ fs.tx.buffer_size
      → len < 2 ^ 16
      → i < len
      → fs.tx_sent + i < fs.tx.buffer_size
      → flow_tx_read fs.tx (u32 (send_offset fs)) len scratch i ≡ byte fs.tx (fs.tx_sent + i)
  unfolding flow_tx_read send_offset
  read_byte len i small inside short h k = ground arith

  sent_byte :
      (len i : ℕ)
      → fs.tx.buffer_size < 2 ^ 31
      → fs.tx.rx_offset ≤ fs.tx.buffer_size
      → len < 2 ^ 16
      → i < len
      → fs.tx_sent + i < fs.tx.buffer_size
      → (if ltb 0 len then flow_tx_read fs.tx (u32 (send_offset fs)) len scratch else scratch) i
        ≡ byte fs.tx (fs.tx_sent + i)
  sent_byte len i small inside short h k =
      rw (lt→ltb 0 len (omega arith)) (read_byte len i small inside short h k)

  -- The segment that fast_flows_qman sends has the sequence number `tx_sent` beyond the first
  -- unacknowledged one, and byte `i` of its payload is byte `tx_sent + i` of the transmit queue, for
  -- all bytes in the queue's buffer; its length is at most TCP_MSS.
  pub send_next_lem :
      (avail ts : ℕ)
      → fs.tx.buffer_size < 2 ^ 31
      → fs.tx.rx_offset ≤ fs.tx.buffer_size
      → fs.tx_next_seq < 2 ^ 32
      → fs.tx_sent < 2 ^ 32
      → let seg = (send_next mac scratch fs avail ts).1 in
        (seg.seqno ≡ add32 (snd_una fs) fs.tx_sent)
        × (seg.payload_len ≤ tcp_mss)
        × ((i : ℕ)
            → i < seg.payload_len
            → fs.tx_sent + i < fs.tx.buffer_size
            → seg.payload i ≡ byte fs.tx (fs.tx_sent + i))
  unfolding send_next flow_tx_segment
  send_next_lem avail ts small inside next_small sent_small =
      (omega arith, ground arith, λ i h k. sent_byte _ i small inside (ground arith) h k)

module _ (steering : ℕ → ℕ) (core mac : ℕ) (scratch : ℕ → ℕ) (fs : Flow) where
  -- fast_flows_qman never counts more bytes as sent than the peer has room for, if that held before,
  -- and leaves the first unacknowledged number where it is.
  pub qman_within_window :
      (ts : ℕ)
      → fs.tx_sent ≤ fs.rx_remote_avail
      → fs.rx_remote_avail < 2 ^ 32
      → fs.tx_next_seq < 2 ^ 32
      → let fs' = (fast_flows_qman steering core mac scratch fs ts).1 in
        (fs'.tx_sent ≤ fs'.rx_remote_avail) × (snd_una fs' ≡ snd_una fs)
  unfolding fast_flows_qman send_next tcp_txavail
  qman_within_window ts h small next_small = (ground arith, ground arith)

  -- The bytes that wait in the transmit queue count as available although they were sent: with all of
  -- them in flight and room in the peer's window, fast_flows_qman sends a segment, and counts more
  -- bytes as sent than are enqueued.
  pub qman_sends_beyond_data :
      (ts : ℕ)
      → steering fs.flow_group ≡ core
      → 0 < nbytes_enqueued fs.tx
      → nbytes_enqueued fs.tx ≤ fs.tx_sent
      → fs.tx_sent < fs.rx_remote_avail
      → fs.rx_remote_avail < 2 ^ 32
      → let (sends, fs', _) = fast_flows_qman steering core mac scratch fs ts in
        (sends ≡ true) × (nbytes_enqueued fs'.tx < fs'.tx_sent)
  unfolding fast_flows_qman send_next tcp_txavail
  qman_sends_beyond_data ts here some_bytes sent room small = (ground arith, ground arith)

module _ (mac : ℕ) (scratch : ℕ → ℕ) (fs : Flow) where
  -- A retransmission of `tx_sent` bytes, not 0, forgets them without moving the next sequence number
  -- back: the next segment carries the bytes from the start of the transmit queue, those of the
  -- first unacknowledged number, under the number behind all that were sent.
  pub retransmit_renumbers :
      (avail ts : ℕ)
      → fs.tx.buffer_size < 2 ^ 31
      → fs.tx.rx_offset ≤ fs.tx.buffer_size
      → fs.tx_next_seq < 2 ^ 32
      → 0 < fs.tx_sent
      → fs.tx_sent < 2 ^ 32
      → let seg = (send_next mac scratch (fast_flows_retransmit fs).0 avail ts).1 in
        (seg.seqno ≡ add32 (snd_una fs) fs.tx_sent)
        × (seg.seqno ≢ snd_una fs)
        × ((i : ℕ) → i < seg.payload_len → i < fs.tx.buffer_size → seg.payload i ≡ byte fs.tx i)
  unfolding fast_flows_retransmit flow_reset_retransmit
  retransmit_renumbers avail ts small inside next_small some_bytes sent_small =
      let sent : (fs.tx_sent == 0) ≡ false = ground arith in
      let (number, _, bytes) =
        send_next_lem mac scratch (flow_reset_retransmit fs) avail ts small inside next_small
          (omega arith) in
      rw sent (
        number ∙ omega arith,
        λ e. absurd (omega (arith, e, number)),
        λ i h k. let same : 0 + i ≡ i = omega arith in rw same at (bytes i h (omega arith)),
      )
