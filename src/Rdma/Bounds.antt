-- ===== src/Rdma/Bounds.antt =====
-- The invariant of a queue that one process uses from both ends (not paired with a peer), and that
-- no count or offset of lib/utils/rdma_queue.c leaves its range under it.
use tas_smartnic.Prelude.{
  ℕ, ◌+◌, ◌-◌, ◌^◌, ◌≤◌, ◌<◌, ◌≡◌, false, Option, inl, inr, ltb, if◌then◌else◌, arith, through_int,
  Bool-cases, ltb_false→le,
}
use tas_smartnic.Rdma.Ring.{
  Queue, pad, nbytes_to_flush, nbytes_enqueued, nbytes_empty, first_part, second_part, next_offset,
  accept, try_dequeue,
}

-- The distance from one offset to another, going round at `size`.
abbrev pub gap : ℕ → ℕ → ℕ → ℕ
gap size from to = if ltb to from then size - from + to else to - from

pub record IsValid (q : Queue) : Type 0 where
  pub local : q.paired ≡ false
  pub large : pad < q.buffer_size
  pub small : q.buffer_size < 2 ^ 31
  pub rx_in : q.rx_offset ≤ q.buffer_size
  pub flush_in : q.flush_offset ≤ q.buffer_size
  pub tx_in : q.tx_offset ≤ q.buffer_size
  pub room : gap q.buffer_size q.rx_offset q.tx_offset + pad ≤ q.buffer_size
  pub ordered :
      gap q.buffer_size q.rx_offset q.flush_offset + gap q.buffer_size q.flush_offset q.tx_offset
      ≡ gap q.buffer_size q.rx_offset q.tx_offset

pub nbytes_to_flush-gap :
    {q : Queue} → IsValid q → nbytes_to_flush q ≡ gap q.buffer_size q.flush_offset q.tx_offset
unfolding nbytes_to_flush
nbytes_to_flush-gap v = ground arith

pub nbytes_enqueued-gap :
    {q : Queue} → IsValid q → nbytes_enqueued q ≡ gap q.buffer_size q.rx_offset q.flush_offset
unfolding nbytes_enqueued
nbytes_enqueued-gap v = ground arith

pub nbytes_empty-gap :
    {q : Queue}
    → IsValid q
    → nbytes_empty q + pad + gap q.buffer_size q.rx_offset q.tx_offset ≡ q.buffer_size
unfolding nbytes_empty
nbytes_empty-gap v = ground arith

-- The split of an access into its two parts, and the offset behind it.
pub first_part_lem :
    (q : Queue) (off sz : ℕ)
    → q.buffer_size < 2 ^ 31
    → off ≤ q.buffer_size
    → sz ≤ q.buffer_size
    → first_part q off sz ≡ (if ltb q.buffer_size (off + sz) then q.buffer_size - off else sz)
unfolding first_part
first_part_lem q off sz small h k = ground arith

pub second_part_lem :
    (q : Queue) (off sz : ℕ)
    → q.buffer_size < 2 ^ 31
    → off ≤ q.buffer_size
    → sz ≤ q.buffer_size
    → second_part q off sz ≡ off + sz - q.buffer_size
unfolding second_part
second_part_lem q off sz small h k = ground (arith, first_part_lem q off sz)

pub next_offset_lem :
    (q : Queue) (off sz : ℕ)
    → q.buffer_size < 2 ^ 31
    → off ≤ q.buffer_size
    → sz ≤ q.buffer_size
    → next_offset q off sz
      ≡ (if ltb q.buffer_size (off + sz) then off + sz - q.buffer_size else off + sz)
unfolding next_offset
next_offset_lem q off sz small h k =
    ground (arith, first_part_lem q off sz, second_part_lem q off sz)

-- What an enqueue of no more than the free bytes does to the counts.
pub accept-IsValid :
    {q : Queue} (src : Option (ℕ → ℕ)) (sz : ℕ)
    → IsValid q
    → sz ≤ nbytes_empty q
    → IsValid (accept q src sz)
unfolding accept
accept-IsValid {q} src sz v h = ground (arith, nbytes_empty-gap v, next_offset_lem q q.tx_offset sz)

pub through_int_small : (n : ℕ) → n < 2 ^ 31 → through_int n ≡ n
through_int_small n h = ground arith

advance-IsValid :
    {q : Queue} (sz : ℕ)
    → IsValid q
    → sz ≤ nbytes_enqueued q
    → IsValid (record q { rx_offset = next_offset q q.rx_offset sz })
advance-IsValid {q} sz v h = ground (arith, nbytes_enqueued-gap v, next_offset_lem q q.rx_offset sz)

pub nbytes_enqueued-small : {q : Queue} → IsValid q → nbytes_enqueued q < 2 ^ 31
nbytes_enqueued-small v = ground (arith, nbytes_enqueued-gap v)

-- A dequeue, whether it takes bytes or not, keeps the offsets in range, the free bytes above the pad
-- and the flush offset between the two ends.
pub dequeue-IsValid :
    {q : Queue} (dst : Option (ℕ → ℕ)) (sz : ℕ) → IsValid q → IsValid (try_dequeue q dst sz).2
unfolding try_dequeue
dequeue-IsValid {q} dst sz v = elim (Bool-cases (ltb (nbytes_enqueued q) sz)) [
  | inl few ↦ rw (through_int_small _ (nbytes_enqueued-small v), few) v
  | inr enough ↦
      rw (through_int_small _ (nbytes_enqueued-small v), enough)
        (advance-IsValid sz v (ltb_false→le _ _ enough))
]

-- No copy of an enqueue or of a dequeue leaves the buffer.
pub parts_in_bounds :
    (q : Queue) (off sz : ℕ)
    → q.buffer_size < 2 ^ 31
    → off ≤ q.buffer_size
    → sz ≤ q.buffer_size
    → (off + first_part q off sz ≤ q.buffer_size)
      × (second_part q off sz ≤ q.buffer_size)
      × (first_part q off sz + second_part q off sz ≡ sz)
      × (next_offset q off sz ≤ q.buffer_size)
parts_in_bounds q off sz small h k =
    ground (arith, first_part_lem q off sz, second_part_lem q off sz, next_offset_lem q off sz)

pub nbytes_enqueued-le : {q : Queue} → IsValid q → nbytes_enqueued q + pad ≤ q.buffer_size
nbytes_enqueued-le v = ground (arith, nbytes_enqueued-gap v)
