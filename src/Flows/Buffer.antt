-- ===== src/Flows/Buffer.antt =====
-- Reading and writing a flow's buffers at a position: flow_tx_read, flow_rx_write and
-- flow_rx_seq_write of tas_nic/fast/fast_flows.c. A position is 32 bits wide, a length 16.
use tas_smartnic.Prelude.{add32, leb, sub32, if◌then◌else◌, ◌+◌, sub64, u16, u32, ℕ}
use tas_smartnic.Rdma.Ring.{Queue, copy, shift}
use tas_smartnic.Flows.State.{Flow}

-- flow_tx_read: the memory at `dst` after it.
unfoldable pub flow_tx_read : Queue → ℕ → ℕ → (ℕ → ℕ) → ℕ → ℕ
flow_tx_read q pos len dst =
    let part : ℕ = u32 (sub64 q.buffer_size pos) in
    if leb (add32 pos len) q.buffer_size
    then copy dst 0 (shift q.buffer pos) len
    else copy (copy dst 0 (shift q.buffer pos) part) part q.buffer (sub64 len part)

-- flow_rx_write: the receive buffer after it.
unfoldable pub flow_rx_write : Queue → ℕ → ℕ → (ℕ → ℕ) → ℕ → ℕ
flow_rx_write q pos len src =
    let part : ℕ = u32 (sub64 q.buffer_size pos) in
    if leb (add32 pos len) q.buffer_size
    then copy q.buffer pos src len
    else copy (copy q.buffer pos src part) 0 (shift src part) (sub64 len part)

-- The position that flow_rx_seq_write computes for a sequence number.
unfoldable pub seq_position : Queue → ℕ → ℕ → ℕ
seq_position q next_seq seq =
    let pos : ℕ = u32 (q.tx_offset + sub32 seq next_seq) in
    if leb q.buffer_size pos then u32 (sub64 pos q.buffer_size) else pos

abbrev pub with_buffer : Flow → (ℕ → ℕ) → Flow
with_buffer fs b = record fs { rx = record (fs.rx) { queue = record (fs.rx.queue) { buffer = b } } }

-- flow_rx_seq_write
unfoldable pub flow_rx_seq_write : Flow → ℕ → ℕ → (ℕ → ℕ) → Flow
flow_rx_seq_write fs seq len src =
    with_buffer fs
      (flow_rx_write fs.rx.queue (seq_position fs.rx.queue fs.rx_next_seq seq) (u16 len) src)
