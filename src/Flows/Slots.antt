-- ===== src/Flows/Slots.antt =====
-- Where flow_rx_seq_write and flow_rx_write put their bytes (tas_nic/fast/fast_flows.c). Bytes are
-- counted from the producer's offset, which is where the next byte in order goes.
use tas_smartnic.Prelude.{
  refl, ◌∙◌, u16, inl, inr, inr, inl, ◌⊎◌, ◌≡◌, sub32, ◌-◌, ◌≤◌, ◌+◌, ◌^◌, leb, ◌<◌, if◌then◌else◌,
  ℕ, arith,
}
use tas_smartnic.Rdma.Ring.{Queue}
use tas_smartnic.Flows.State.{Flow}
use tas_smartnic.Flows.Buffer.{flow_rx_write, seq_position, flow_rx_seq_write}

-- The position of the `k`-th byte behind the producer's offset.
abbrev pub slot : Queue → ℕ → ℕ
slot q k =
    if leb q.buffer_size (q.tx_offset + k) then q.tx_offset + k - q.buffer_size else q.tx_offset + k

module _ (q : Queue) (small : q.buffer_size < 2 ^ 31) (inside : q.tx_offset ≤ q.buffer_size) where
  position-slot :
      (next_seq seq : ℕ)
      → sub32 seq next_seq < q.buffer_size
      → seq_position q next_seq seq ≡ slot q (sub32 seq next_seq)
  unfolding seq_position
  position-slot next_seq seq h = ground arith

  write_slot_in :
      (d n : ℕ) (src : ℕ → ℕ) (i : ℕ)
      → d + n ≤ q.buffer_size
      → n < 2 ^ 16
      → i < n
      → flow_rx_write q (slot q d) n src (slot q (d + i)) ≡ src i
  unfolding flow_rx_write
  write_slot_in d n src i h k l = ground arith

  write_slot_out :
      (d n : ℕ) (src : ℕ → ℕ) (k : ℕ)
      → d + n ≤ q.buffer_size
      → n < 2 ^ 16
      → k < q.buffer_size
      → (k < d) ⊎ (d + n ≤ k)
      → flow_rx_write q (slot q d) n src (slot q k) ≡ q.buffer (slot q k)
  unfolding flow_rx_write
  write_slot_out d n src k h l m (inl o) = ground arith
  write_slot_out d n src k h l m (inr o) = ground arith

module _ (fs : Flow) (seq n : ℕ) (src : ℕ → ℕ) (small : fs.rx.queue.buffer_size < 2 ^ 31)
    (inside : fs.rx.queue.tx_offset ≤ fs.rx.queue.buffer_size) (short : n < 2 ^ 16)
    (fits : sub32 seq fs.rx_next_seq + n ≤ fs.rx.queue.buffer_size) (some_bytes : 0 < n) where
  abbrev after : ℕ → ℕ
  after k = (flow_rx_seq_write fs seq n src).rx.queue.buffer (slot fs.rx.queue k)

  after_lem :
      (k : ℕ)
      → after k
        ≡ flow_rx_write fs.rx.queue
            (slot fs.rx.queue (sub32 seq fs.rx_next_seq))
            n
            src
            (slot fs.rx.queue k)
  unfolding flow_rx_seq_write
  after_lem k =
      let e : u16 n ≡ n = omega arith in
      rw (position-slot fs.rx.queue small inside fs.rx_next_seq seq (omega arith), e) refl

  -- The bytes of the segment.
  pub seq_write_in :
      (i : ℕ)
      → i < n
      → (flow_rx_seq_write fs seq n src).rx.queue.buffer
          (slot fs.rx.queue (sub32 seq fs.rx_next_seq + i))
        ≡ src i
  seq_write_in i h =
      after_lem (sub32 seq fs.rx_next_seq + i)
      ∙ write_slot_in fs.rx.queue small inside (sub32 seq fs.rx_next_seq) n src i fits short h

  -- All other bytes of the buffer.
  pub seq_write_out :
      (k : ℕ)
      → k < fs.rx.queue.buffer_size
      → (k < sub32 seq fs.rx_next_seq) ⊎ (sub32 seq fs.rx_next_seq + n ≤ k)
      → (flow_rx_seq_write fs seq n src).rx.queue.buffer (slot fs.rx.queue k)
        ≡ fs.rx.queue.buffer (slot fs.rx.queue k)
  seq_write_out k h o =
      after_lem k
      ∙ write_slot_out fs.rx.queue small inside (sub32 seq fs.rx_next_seq) n src k fits short h o
