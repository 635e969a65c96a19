-- ===== src/Rdma/Ring.antt =====
-- The queue of include/rdma_queue.h: its offsets, its byte counts, and the two copying routines of
-- lib/utils/rdma_queue.c. The buffer is a function from offsets to bytes. The addresses and keys of
-- the end points are only handed to ibverbs, so they are left out, and so are the asserts that a
-- routine runs on the side that owns the queue.
use tas_smartnic.Prelude.{
  ℕ, ◌+◌, ◌-◌, ◌^◌, Bool, true, false, Option, none, some, ◌&&◌, ltb, leb, if◌then◌else◌, add64,
  sub64, through_int,
}

-- `rx_offset` and `tx_offset` are `endpoints.rx.offset` and `endpoints.tx.offset`.
pub record Queue : Type 0 where
  pub buffer : ℕ → ℕ
  pub buffer_size : ℕ
  pub flush_offset : ℕ
  pub rx_offset : ℕ
  pub tx_offset : ℕ
  pub paired : Bool
  pub is_tx : Bool

-- `RDMA_QUEUE_PAD`
abbrev pub pad : ℕ
pad = 8

-- memcpy of `n` bytes of `src` to offset `pos` of `dst`.
abbrev pub copy : (ℕ → ℕ) → ℕ → (ℕ → ℕ) → ℕ → ℕ → ℕ
copy dst pos src n i = if leb pos i && ltb i (pos + n) then src (i - pos) else dst i

-- The memory at a pointer that is moved forward by `k`.
abbrev pub shift : (ℕ → ℕ) → ℕ → ℕ → ℕ
shift src k i = src (k + i)

-- rq_nbytes
unfoldable pub nbytes : Queue → ℕ → ℕ → Bool → ℕ
nbytes q from to inner =
    if ltb from to
    then sub64 to from
    else if ltb to from
    then add64 (sub64 q.buffer_size from) to
    else if inner
    then 0
    else sub64 q.buffer_size pad

-- rq_nbytes_to_flush
unfoldable pub nbytes_to_flush : Queue → ℕ
unfolding nbytes
nbytes_to_flush q = nbytes q q.flush_offset q.tx_offset true

-- rq_nbytes_enqueued
unfoldable pub nbytes_enqueued : Queue → ℕ
unfolding nbytes
nbytes_enqueued q =
    if q.paired
    then nbytes q q.rx_offset q.tx_offset true
    else nbytes q q.rx_offset q.flush_offset true

-- rq_nbytes_empty; the count goes through an `int`.
unfoldable pub nbytes_empty : Queue → ℕ
unfolding nbytes nbytes_to_flush nbytes_enqueued
nbytes_empty q =
    let bytes : ℕ =
      if q.paired
      then if q.is_tx then nbytes_to_flush q else nbytes_enqueued q
      else nbytes q q.rx_offset q.tx_offset true in
    sub64 (sub64 q.buffer_size (through_int bytes)) pad

-- rq_nbytes_max_flush
unfoldable pub nbytes_max_flush : Queue → ℕ
unfolding nbytes
nbytes_max_flush q = nbytes q q.flush_offset q.rx_offset false

-- The bytes of an access of `sz` at `off` that lie before the end of the buffer (`b1`, an `int`).
unfoldable pub first_part : Queue → ℕ → ℕ → ℕ
first_part q off sz =
    through_int (if ltb q.buffer_size (add64 off sz) then sub64 q.buffer_size off else sz)

-- Those that lie at its start (`b2`, an `int`).
unfoldable pub second_part : Queue → ℕ → ℕ → ℕ
second_part q off sz = through_int (sub64 sz (first_part q off sz))

-- The test `b2 > 0`.
abbrev pub positive : ℕ → Bool
positive n = ltb 0 n && ltb n (2 ^ 63)

-- Where the offset stands after such an access.
unfoldable pub next_offset : Queue → ℕ → ℕ → ℕ
next_offset q off sz =
    if positive (second_part q off sz)
    then second_part q off sz
    else add64 off (first_part q off sz)

-- The two memcpys of rq_try_enqueue. The second one starts at `to_enqueue + b2`, as in the source.
unfoldable pub copy_in : (ℕ → ℕ) → ℕ → (ℕ → ℕ) → ℕ → ℕ → ℕ → ℕ
copy_in buffer off src b1 b2 =
    if positive b2
    then copy (copy buffer off src b1) 0 (shift src b2) b2
    else copy buffer off src b1

-- What an enqueue writes, for a source that may be NULL.
unfoldable pub write_bytes : Queue → Option (ℕ → ℕ) → ℕ → ℕ → ℕ
write_bytes q none sz = q.buffer
write_bytes q (some src) sz =
    copy_in q.buffer q.tx_offset src (first_part q q.tx_offset sz) (second_part q q.tx_offset sz)

unfoldable pub accept : Queue → Option (ℕ → ℕ) → ℕ → Queue
accept q src sz = record q {
  buffer = write_bytes q src sz;
  tx_offset = next_offset q q.tx_offset sz;
}

-- The two memcpys of rq_try_possible_dequeue.
unfoldable pub copy_out : (ℕ → ℕ) → (ℕ → ℕ) → ℕ → ℕ → ℕ → ℕ → ℕ
copy_out dst buffer off b1 b2 =
    if positive b2
    then copy (copy dst 0 (shift buffer off) b1) b1 buffer b2
    else copy dst 0 (shift buffer off) b1

-- What a non-NULL `dst` holds after a dequeue or a peek.
unfoldable pub read_bytes : Queue → (ℕ → ℕ) → ℕ → ℕ → ℕ
read_bytes q dst sz =
    copy_out dst q.buffer q.rx_offset (first_part q q.rx_offset sz) (second_part q q.rx_offset sz)

-- rq_try_possible_dequeue: the status, the memory at `buffer` and the queue.
unfoldable pub try_possible_dequeue : Queue → Option (ℕ → ℕ) → ℕ → Bool → ℕ × Option (ℕ → ℕ) × Queue
try_possible_dequeue q dst sz dequeue =
    if ltb (through_int (nbytes_enqueued q)) sz then (1, dst, q) else (
      0,
      elim dst [ none ↦ none | some d ↦ some (read_bytes q d sz) ],
      if dequeue then record q { rx_offset = next_offset q q.rx_offset sz } else q,
    )

-- rq_try_peek
unfoldable pub try_peek : Queue → Option (ℕ → ℕ) → ℕ → ℕ × Option (ℕ → ℕ) × Queue
unfolding try_possible_dequeue
try_peek q dst sz = try_possible_dequeue q dst sz false

-- rq_try_dequeue
unfoldable pub try_dequeue : Queue → Option (ℕ → ℕ) → ℕ → ℕ × Option (ℕ → ℕ) × Queue
unfolding try_possible_dequeue
try_dequeue q dst sz = try_possible_dequeue q dst sz true

-- rq_allocate_in_place over `nbytes` bytes of memory, for a header of `header` bytes; `none` is NULL.
unfoldable pub allocate_in_place : ℕ → ℕ → (ℕ → ℕ) → Option Queue
allocate_in_place header nbytes memory =
    if leb nbytes header
    then none
    else some (record {
      buffer = memory;
      buffer_size = nbytes - header;
      flush_offset = 0;
      rx_offset = 0;
      tx_offset = 0;
      paired = false;
      is_tx = false;
    })
