-- ===== src/Flows/Delivery.antt =====
-- Data in order in fast_flows_packet (tas_nic/fast/fast_flows.c), and the out-of-order interval that
-- it reaches.
use tas_smartnic.Prelude.{
  ◌&&◌, ltb, leb, if◌then◌else◌, ap, sub32, ◌-◌, ◌∙◌, u16, none, u32, ◌≤◌, ◌+◌, ◌^◌, some, add32,
  ◌<◌, Option, ◌≡◌, refl, ℕ, arith,
}
use tas_smartnic.Rdma.Ring.{Queue, nbytes_empty, accept, write_bytes}
use tas_smartnic.Flows.State.{Flow}
use tas_smartnic.Flows.Buffer.{flow_rx_write}
use tas_smartnic.Flows.Slots.{slot}
use tas_smartnic.Flows.Ring.{
  IsRing, nbytes_empty_lem, accept-IsRing, nbytes_empty-accept, slot-accept,
}
use tas_smartnic.Flows.Reassembly.{ahead, IsSane, Holds}

-- From `fs` to `fs'` the next `bump` bytes of `stream` were delivered: they stand in the buffer from
-- the producer's old offset on, the offset, the free room and the number expected next moved by as
-- many, and what is left of the out-of-order interval is stored where the rest of the stream has it.
pub record Advanced (stream : ℕ → ℕ) (fs fs' : Flow) (bump : ℕ) : Type 0 where
  pub next : fs'.rx_next_seq ≡ add32 fs.rx_next_seq bump
  pub delivered : (i : ℕ) → i < bump → fs'.rx.queue.buffer (slot fs.rx.queue i) ≡ stream i
  pub slots :
      (k : ℕ)
      → bump + k ≤ nbytes_empty fs.rx.queue
      → slot fs'.rx.queue k ≡ slot fs.rx.queue (bump + k)
  pub room : nbytes_empty fs'.rx.queue + bump ≡ nbytes_empty fs.rx.queue
  pub sane : IsSane fs'
  pub rest : Holds (λ k. stream (bump + k)) fs'

-- How many bytes of the out-of-order interval follow the next `n` bytes without a gap, and how many stay
-- behind a gap.
abbrev pub reached : Flow → ℕ → ℕ
reached fs n =
    if leb (ahead fs) n && ltb n (ahead fs + fs.rx_ooo_len) then ahead fs + fs.rx_ooo_len - n else 0

abbrev pub ooo_left : Flow → ℕ → ℕ
ooo_left fs n = if ltb n (ahead fs) then fs.rx_ooo_len else 0

-- A delivery of `n` bytes succeeds, and takes the out-of-order bytes with it that they reach.
abbrev pub Delivered : (ℕ → ℕ) → Flow → ℕ → Option (Flow × ℕ) → Type 0
Delivered stream fs n none = ⊥
Delivered stream fs n (some (fs', bump)) =
    (bump ≡ n + reached fs n) × (fs'.rx_ooo_len ≡ ooo_left fs n) × Advanced stream fs fs' bump

-- flow_rx_write at the producer's offset, by bytes.
module _ (q : Queue) (r : IsRing q) (n : ℕ) (src : ℕ → ℕ) (short : n < 2 ^ 16)
    (fits : n ≤ q.buffer_size) where
  write_first : (i : ℕ) → i < n → flow_rx_write q (u32 q.tx_offset) (u16 n) src (slot q i) ≡ src i
  unfolding flow_rx_write
  write_first i h = ground (arith, r.small, r.inside)

  write_rest :
      (k : ℕ)
      → n ≤ k
      → k < q.buffer_size
      → flow_rx_write q (u32 q.tx_offset) (u16 n) src (slot q k) ≡ q.buffer (slot q k)
  unfolding flow_rx_write
  write_rest k h l = ground (arith, r.small, r.inside)

nbytes_empty-buffer :
    (q : Queue) (b : ℕ → ℕ) → nbytes_empty (record q { buffer = b }) ≡ nbytes_empty q
unfolding nbytes_empty
nbytes_empty-buffer q b = refl

-- The flow after the first `n` bytes, before the out-of-order interval is looked at.
abbrev pub written : Flow → ℕ → (ℕ → ℕ) → Queue
written fs n src = record (fs.rx.queue) {
  buffer = flow_rx_write fs.rx.queue (u32 fs.rx.queue.tx_offset) (u16 n) src;
}

abbrev pub first_flow : Flow → ℕ → (ℕ → ℕ) → Flow
first_flow fs n src = record fs {
  rx = record (fs.rx) { queue = accept (written fs n src) none n };
  rx_next_seq = add32 fs.rx_next_seq n;
}

module _ (stream : ℕ → ℕ) (fs : Flow) (sane : IsSane fs) (h : Holds stream fs) (n : ℕ) (src : ℕ → ℕ)
    (short : n < 2 ^ 16) (some_bytes : 0 < n) (fits : n ≤ nbytes_empty fs.rx.queue)
    (same : (i : ℕ) → i < n → src i ≡ stream i) where
  n_small : n ≤ fs.rx.queue.buffer_size
  n_small = omega (arith, nbytes_empty_lem (sane.ring))

  pub written-IsRing : IsRing (written fs n src)
  written-IsRing = record {
    small = sane.ring.small;
    inside = sane.ring.inside;
    origin_in = sane.ring.origin_in;
    room = sane.ring.room;
  }

  pub written_room : n ≤ nbytes_empty (written fs n src)
  written_room =
      rw
        (nbytes_empty-buffer (fs.rx.queue)
          (flow_rx_write fs.rx.queue (u32 fs.rx.queue.tx_offset) (u16 n) src))
        fits

  pub first_room : nbytes_empty (first_flow fs n src).rx.queue + n ≡ nbytes_empty fs.rx.queue
  first_room =
      nbytes_empty-accept written-IsRing n written_room ∙ nbytes_empty-buffer (fs.rx.queue) _

  pub first_slot :
      (k : ℕ)
      → n + k ≤ nbytes_empty fs.rx.queue
      → slot (first_flow fs n src).rx.queue k ≡ slot fs.rx.queue (n + k)
  first_slot k l = slot-accept written-IsRing n written_room k (
      rw
        (nbytes_empty-buffer (fs.rx.queue)
          (flow_rx_write fs.rx.queue (u32 fs.rx.queue.tx_offset) (u16 n) src))
        l)

  pub first_bytes :
      (k : ℕ) → k < n → (first_flow fs n src).rx.queue.buffer (slot fs.rx.queue k) ≡ stream k
  unfolding accept write_bytes
  first_bytes k l = write_first (fs.rx.queue) (sane.ring) n src short n_small k l ∙ same k l

  later_bytes :
      (k : ℕ)
      → n ≤ k
      → k < fs.rx.queue.buffer_size
      → (first_flow fs n src).rx.queue.buffer (slot fs.rx.queue k)
        ≡ fs.rx.queue.buffer (slot fs.rx.queue k)
  unfolding accept write_bytes
  later_bytes k l m = write_rest (fs.rx.queue) (sane.ring) n src short n_small k l m

  -- A byte of the interval that lies behind the delivered ones.
  pub ooo_byte :
      (k : ℕ)
      → n ≤ k
      → ahead fs ≤ k
      → k < ahead fs + fs.rx_ooo_len
      → (first_flow fs n src).rx.queue.buffer (slot fs.rx.queue k) ≡ stream k
  ooo_byte k l m o =
      let there : ahead fs + (k - ahead fs) ≡ k = omega arith in
      later_bytes k l (omega (arith, h.fits (omega arith), nbytes_empty_lem (sane.ring)))
      ∙ rw there at (h.held (k - ahead fs) (omega arith))

  -- A flow that keeps the interval from `start` on, of `len` bytes.
  pub kept_interval :
      (start len : ℕ)
      → start < 2 ^ 32
      → ((0 < len)
          → (ahead fs ≤ n + sub32 start (add32 fs.rx_next_seq n))
            × (n + sub32 start (add32 fs.rx_next_seq n) + len ≤ ahead fs + fs.rx_ooo_len))
      → Advanced stream fs
          (record (first_flow fs n src) { rx_ooo_start = start; rx_ooo_len = len })
          n
  kept_interval start len small inside = record {
    next = refl;
    delivered = first_bytes;
    slots = first_slot;
    room = first_room;
    sane = record {
      ring = accept-IsRing written-IsRing n written_room;
      next_small = omega arith;
      start_small = small;
    };
    rest = record {
      fits = λ pos. omega (arith, first_room, inside pos, h.fits (omega (arith, inside pos)));
      held = λ i k.
          let pos : 0 < len = omega arith in
          let l = sub32 start (add32 fs.rx_next_seq n) in
          let bounds = inside pos in
          let small_enough = h.fits (omega arith) in
          ap (first_flow fs n src).rx.queue.buffer (first_slot (l + i) (omega arith))
          ∙ ooo_byte (n + (l + i)) (omega arith) (omega arith) (omega arith);
    };
  }
