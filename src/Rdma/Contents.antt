-- ===== src/Rdma/Contents.antt =====
-- What the operations do to the bytes of an unpaired queue, as lists: `contents` are all stored
-- bytes, oldest first, and `visible` those that were flushed, which the receiver may take.
use tas_smartnic.Prelude.{
  le→ltb_false, lt→ltb, false, ℕ, ◌+◌, ◌-◌, ◌≤◌, ◌<◌, ◌≡◌, refl, Option, some, List, ◌++◌, ltb,
  if◌then◌else◌, arith, tabulate, tabulate_congr, tabulate-add, through_int,
}
use tas_smartnic.Rdma.Ring.{
  Queue, nbytes_enqueued, nbytes_empty, accept, try_dequeue, try_peek, read_bytes, next_offset,
}
use tas_smartnic.Rdma.Bounds.{
  IsValid, nbytes_enqueued-gap, next_offset_lem, nbytes_enqueued-le, through_int_small,
  nbytes_enqueued-small,
}
use tas_smartnic.Rdma.Fifo.{
  byte, stored, stored-accept, byte-accept_old, byte-accept_new, read_bytes_lem,
}

abbrev pub contents : Queue → List ℕ
contents q = tabulate (byte q) (stored q)

abbrev pub visible : Queue → List ℕ
visible q = tabulate (byte q) (nbytes_enqueued q)

-- The bytes that an enqueue takes from its source.
abbrev pub taken : Queue → (ℕ → ℕ) → ℕ → ℕ → ℕ
taken q src sz i =
    if ltb (q.tx_offset + i) q.buffer_size
    then src i
    else src (q.tx_offset + sz - q.buffer_size + (q.tx_offset + i - q.buffer_size))

module _ {q : Queue} (v : IsValid q) where
  pub contents-accept :
      (src : ℕ → ℕ) (sz : ℕ)
      → sz ≤ nbytes_empty q
      → contents (accept q (some src) sz) ≡ contents q ++ tabulate (taken q src sz) sz
  contents-accept src sz h =
      let after : Queue = accept q (some src) sz in
      rw (stored-accept v (some src) sz h, tabulate-add (byte after) (stored q) sz)
        (rw (
          tabulate_congr (byte after) (byte q) (stored q) (λ i k. byte-accept_old v src sz i h k),
          tabulate_congr (λ i. byte after (stored q + i)) (taken q src sz) sz
              (λ i k. byte-accept_new v src sz i h k),
        ))

  byte-advance :
      (sz i : ℕ)
      → sz ≤ nbytes_enqueued q
      → i + sz < q.buffer_size
      → byte (record q { rx_offset = next_offset q q.rx_offset sz }) i ≡ byte q (sz + i)
  byte-advance sz i h k = ground (arith, nbytes_enqueued-le v, next_offset_lem q q.rx_offset sz)

  stored-advance :
      (sz : ℕ)
      → sz ≤ nbytes_enqueued q
      → sz + stored (record q { rx_offset = next_offset q q.rx_offset sz }) ≡ stored q
  stored-advance sz h = ground (arith, nbytes_enqueued-gap v, next_offset_lem q q.rx_offset sz)

  contents-advance :
      (sz : ℕ)
      → sz ≤ nbytes_enqueued q
      → tabulate (byte q) sz ++ contents (record q { rx_offset = next_offset q q.rx_offset sz })
        ≡ contents q
  contents-advance sz h =
      let after : Queue = record q { rx_offset = next_offset q q.rx_offset sz } in
      rw (
        tabulate_congr (byte after) (λ i. byte q (sz + i)) (stored after)
            (λ i k. byte-advance sz i h (omega (arith, stored-advance sz h, v.room))),
        ← tabulate-add (byte q) sz (stored after),
        stored-advance sz h,
      )

  -- The test of a dequeue or peek of `sz` bytes passes just when that many bytes are visible.
  enough : (sz : ℕ) → sz ≤ nbytes_enqueued q → ltb (through_int (nbytes_enqueued q)) sz ≡ false
  enough sz h = rw (through_int_small _ (nbytes_enqueued-small v)) (le→ltb_false _ _ h)

  -- A dequeue of no more bytes than are visible returns 0, copies out the oldest bytes in order and
  -- leaves the rest.
  pub dequeue_takes_oldest :
      (dst : ℕ → ℕ) (sz : ℕ)
      → sz ≤ nbytes_enqueued q
      → let (status, out, q') = try_dequeue q (some dst) sz in
        (status ≡ 0)
        × (out ≡ some (read_bytes q dst sz))
        × (tabulate (read_bytes q dst sz) sz ++ contents q' ≡ contents q)
  unfolding try_dequeue
  dequeue_takes_oldest dst sz h = rw (enough sz h) (
    refl,
    refl,
    rw (tabulate_congr (read_bytes q dst sz) (byte q) sz (λ i k. read_bytes_lem v dst sz i h k))
        (contents-advance sz h),
  )

  -- A peek copies out the same bytes and leaves the queue as it is.
  pub peek_keeps_queue :
      (dst : ℕ → ℕ) (sz : ℕ)
      → sz ≤ nbytes_enqueued q
      → let (status, out, q') = try_peek q (some dst) sz in
        (status ≡ 0) × (out ≡ (try_dequeue q (some dst) sz).1) × (q' ≡ q)
  unfolding try_dequeue try_peek
  peek_keeps_queue dst sz h = rw (enough sz h) (refl, refl, refl)

  -- A dequeue of more bytes than are visible returns 1 and changes nothing.
  pub dequeue_short :
      (dst : Option (ℕ → ℕ)) (sz : ℕ) → nbytes_enqueued q < sz → try_dequeue q dst sz ≡ (1, dst, q)
  unfolding try_dequeue
  dequeue_short dst sz h = rw (through_int_small _ (nbytes_enqueued-small v), lt→ltb _ _ h)
