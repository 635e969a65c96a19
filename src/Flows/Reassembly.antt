-- ===== src/Flows/Reassembly.antt =====
-- Out-of-order data in fast_flows_packet (tas_nic/fast/fast_flows.c). `stream k` is the k-th byte that
-- the peer sends behind the next one expected.
use tas_smartnic.Prelude.{
  ◌==◌, Bool-cases, ◌-◌, add32, ◌⊎◌, inl, inr, ◌∙◌, ◌≡◌, ◌≤◌, ◌^◌, ◌+◌, ◌<◌, sub32, ℕ, arith,
}
use native.Mathlib.Decide.{dec_lt}
use tas_smartnic.Rdma.Ring.{nbytes_empty}
use tas_smartnic.Flows.State.{Flow}
use tas_smartnic.Flows.Buffer.{flow_rx_seq_write}
use tas_smartnic.Flows.Receive.{out_of_order}
use tas_smartnic.Flows.Ring.{IsRing, nbytes_empty_lem}
use tas_smartnic.Flows.Slots.{slot, seq_write_in, seq_write_out}

-- How far the out-of-order interval starts beyond the next byte expected.
abbrev pub ahead : Flow → ℕ
ahead fs = sub32 fs.rx_ooo_start fs.rx_next_seq

-- The receive queue's invariant, and numbers of 32 bits.
pub record IsSane (fs : Flow) : Type 0 where
  pub ring : IsRing fs.rx.queue
  pub next_small : fs.rx_next_seq < 2 ^ 32
  pub start_small : fs.rx_ooo_start < 2 ^ 32

-- The out-of-order interval fits the free room, and each of its bytes stands where it will be read when
-- the bytes before it have arrived.
pub record Holds (stream : ℕ → ℕ) (fs : Flow) : Type 0 where
  pub fits : 0 < fs.rx_ooo_len → ahead fs + fs.rx_ooo_len ≤ nbytes_empty fs.rx.queue
  pub held :
      (i : ℕ)
      → i < fs.rx_ooo_len
      → fs.rx.queue.buffer (slot fs.rx.queue (ahead fs + i)) ≡ stream (ahead fs + i)

module _ (stream : ℕ → ℕ) (fs : Flow) (sane : IsSane fs) (h : Holds stream fs) (seq n : ℕ)
    (src : ℕ → ℕ) (seq_small : seq < 2 ^ 32) (short : n < 2 ^ 16) (some_bytes : 0 < n)
    (fits : sub32 seq fs.rx_next_seq + n ≤ nbytes_empty fs.rx.queue)
    (same : (i : ℕ) → i < n → src i ≡ stream (sub32 seq fs.rx_next_seq + i)) where
  room_small : nbytes_empty fs.rx.queue ≤ fs.rx.queue.buffer_size
  room_small = omega (arith, nbytes_empty_lem (sane.ring))

  in_buffer : sub32 seq fs.rx_next_seq + n ≤ fs.rx.queue.buffer_size
  in_buffer = omega (arith, room_small)

  new_interval :
      Holds stream (record (flow_rx_seq_write fs seq n src) { rx_ooo_start = seq; rx_ooo_len = n })
  unfolding flow_rx_seq_write nbytes_empty
  new_interval = record {
    fits = λ _. fits;
    held = λ i k.
        seq_write_in fs seq n src sane.ring.small sane.ring.inside short in_buffer some_bytes i k
        ∙ same i k;
  }

  -- An old byte that the segment does not touch.
  kept :
      (i : ℕ)
      → i < fs.rx_ooo_len
      → (ahead fs + i < sub32 seq fs.rx_next_seq) ⊎ (sub32 seq fs.rx_next_seq + n ≤ ahead fs + i)
      → (flow_rx_seq_write fs seq n src).rx.queue.buffer (slot fs.rx.queue (ahead fs + i))
        ≡ stream (ahead fs + i)
  kept i k o =
      seq_write_out fs seq n src sane.ring.small sane.ring.inside short in_buffer some_bytes
        (ahead fs + i) (omega (arith, h.fits (omega arith), room_small)) o
      ∙ h.held i k

  -- A segment that ends where the interval starts.
  grown_down :
      0 < fs.rx_ooo_len
      → add32 seq n ≡ fs.rx_ooo_start
      → Holds stream (record (flow_rx_seq_write fs seq n src) {
        rx_ooo_start = seq;
        rx_ooo_len = add32 fs.rx_ooo_len n;
      })
  unfolding flow_rx_seq_write nbytes_empty
  grown_down pos e = record {
    fits = λ _. omega (arith, h.fits pos, sane.ring.small, room_small, sane.next_small);
    held = λ i k. elim (dec_lt i n) [
      | yes p ↦
          seq_write_in fs seq n src sane.ring.small sane.ring.inside short in_buffer some_bytes i p
          ∙ same i p
      | no p ↦
          let there : ahead fs + (i - n) ≡ sub32 seq fs.rx_next_seq + i =
            omega (arith, h.fits pos, sane.ring.small, room_small, sane.next_small) in
          rw there at (
            kept (i - n) (omega (arith, h.fits pos, sane.ring.small, room_small))
              (inr (omega arith)))
    ];
  }

  -- A segment that starts where the interval ends.
  grown_up :
      0 < fs.rx_ooo_len
      → add32 fs.rx_ooo_start fs.rx_ooo_len ≡ seq
      → Holds stream
          (record (flow_rx_seq_write fs seq n src) { rx_ooo_len = add32 fs.rx_ooo_len n })
  unfolding flow_rx_seq_write nbytes_empty
  grown_up pos e = record {
    fits = λ _.
        omega (arith, h.fits pos, sane.ring.small, room_small, sane.next_small, sane.start_small);
    held = λ i k. elim (dec_lt i fs.rx_ooo_len) [
      | yes p ↦ kept i p (
          inl (
            omega
              (arith, h.fits pos, sane.ring.small, room_small, sane.next_small, sane.start_small)))
      | no p ↦
          let there : sub32 seq fs.rx_next_seq + (i - fs.rx_ooo_len) ≡ ahead fs + i =
            omega
              (arith, h.fits pos, sane.ring.small, room_small, sane.next_small, sane.start_small) in
          rw there at (
            seq_write_in fs seq n src sane.ring.small sane.ring.inside short in_buffer some_bytes
              (i - fs.rx_ooo_len) (omega (arith, h.fits pos, sane.ring.small, room_small))
            ∙ same (i - fs.rx_ooo_len) (omega (arith, h.fits pos, sane.ring.small, room_small)))
    ];
  }

  -- A segment that is not the next one and fits the buffer: whether it starts the out-of-order
  -- interval, extends it at either end or is dropped, every byte of the interval afterwards stands
  -- where it is read when the bytes before it have arrived, and is the one the peer sent there.
  pub out_of_order-Holds : Holds stream (out_of_order fs seq n src)
  unfolding out_of_order
  out_of_order-Holds = elim (Bool-cases (fs.rx_ooo_len == 0)) [
    | inl e ↦ rw e new_interval
    | inr e ↦ elim (Bool-cases (add32 seq n == fs.rx_ooo_start)) [
      | inl p ↦ rw (e, p) (grown_down (ground arith) (ground arith))
      | inr p ↦ elim (Bool-cases (add32 fs.rx_ooo_start fs.rx_ooo_len == seq)) [
        | inl q ↦ rw (e, p, q) (grown_up (ground arith) (ground arith))
        | inr q ↦ rw (e, p, q) h
      ]
    ]
  ]
