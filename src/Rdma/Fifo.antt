-- ===== src/Rdma/Fifo.antt =====
-- A queue that is not paired is a FIFO of bytes: what enqueue, flush, peek and dequeue do to its
-- bytes. `byte q i` is the i-th byte from the receiver's offset on.
use tas_smartnic.Prelude.{
  ℕ, ◌+◌, ◌-◌, ◌^◌, ◌≤◌, ◌<◌, ◌≡◌, Option, some, ◌&&◌, leb, ltb, if◌then◌else◌, arith,
}
use tas_smartnic.Rdma.Ring.{
  Queue, nbytes_enqueued, nbytes_empty, write_bytes, read_bytes, copy_in, copy_out, accept,
}
use tas_smartnic.Rdma.Bounds.{
  IsValid, gap, nbytes_enqueued-le, nbytes_empty-gap, first_part_lem, second_part_lem,
  next_offset_lem,
}

abbrev pub byte : Queue → ℕ → ℕ
byte q i =
    if ltb (q.rx_offset + i) q.buffer_size
    then q.buffer (q.rx_offset + i)
    else q.buffer (q.rx_offset + i - q.buffer_size)

-- The bytes between the two ends, flushed or not.
abbrev pub stored : Queue → ℕ
stored q = gap q.buffer_size q.rx_offset q.tx_offset

-- The buffer after the two copies of an enqueue, by position: the bytes that go round come from
-- `src + b2`, where the first of them stands at `src + b1`.
copy_in_lem :
    (buffer src : ℕ → ℕ) (off b1 b2 j : ℕ)
    → b2 < 2 ^ 63
    → copy_in buffer off src b1 b2 j ≡ (
        if ltb j b2
        then src (b2 + j)
        else if leb off j && ltb j (off + b1)
        then src (j - off)
        else buffer j)
unfolding copy_in
copy_in_lem buffer src off b1 b2 j h = ground arith

copy_out_lem :
    (dst buffer : ℕ → ℕ) (off b1 b2 i : ℕ)
    → b2 < 2 ^ 63
    → copy_out dst buffer off b1 b2 i
      ≡ (if ltb i b1 then buffer (off + i) else if ltb i (b1 + b2) then buffer (i - b1) else dst i)
unfolding copy_out
copy_out_lem dst buffer off b1 b2 i h = ground arith

read_split :
    (buffer dst : ℕ → ℕ) (off size sz i : ℕ)
    → off ≤ size
    → i < sz
    → (if ltb i (if ltb size (off + sz) then size - off else sz)
        then buffer (off + i)
        else if ltb i ((if ltb size (off + sz) then size - off else sz) + (off + sz - size))
        then buffer (i - (if ltb size (off + sz) then size - off else sz))
        else dst i)
      ≡ (if ltb (off + i) size then buffer (off + i) else buffer (off + i - size))
read_split buffer dst off size sz i h k = ground arith

write_bytes_lem :
    {q : Queue} (src : ℕ → ℕ) (sz j : ℕ)
    → IsValid q
    → sz ≤ q.buffer_size
    → write_bytes q (some src) sz j ≡ (
        if ltb j (q.tx_offset + sz - q.buffer_size)
        then src (q.tx_offset + sz - q.buffer_size + j)
        else if leb q.tx_offset j && ltb j (q.tx_offset + sz) && ltb j q.buffer_size
        then src (j - q.tx_offset)
        else q.buffer j)
unfolding write_bytes
write_bytes_lem {q} src sz j v h =
    rw
      (
        first_part_lem q q.tx_offset sz v.small v.tx_in h,
        second_part_lem q q.tx_offset sz v.small v.tx_in h,
        copy_in_lem q.buffer src q.tx_offset _ (q.tx_offset + sz - q.buffer_size) j
            (omega (arith, v.small, v.tx_in)),
      )
      (split (q.tx_offset) q.buffer_size v.tx_in)
  where
    split :
        (t size : ℕ)
        → t ≤ size
        → (if ltb j (t + sz - size)
            then src (t + sz - size + j)
            else if leb t j && ltb j (t + (if ltb size (t + sz) then size - t else sz))
            then src (j - t)
            else q.buffer j)
          ≡ (if ltb j (t + sz - size)
              then src (t + sz - size + j)
              else if leb t j && ltb j (t + sz) && ltb j size
              then src (j - t)
              else q.buffer j)
    split t size le = ground arith

module _ {q : Queue} (v : IsValid q) where
  pub stored-accept :
      (src : Option (ℕ → ℕ)) (sz : ℕ)
      → sz ≤ nbytes_empty q
      → stored (accept q src sz) ≡ stored q + sz
  unfolding accept
  stored-accept src sz h = ground (arith, nbytes_empty-gap v, next_offset_lem q q.tx_offset sz)

  -- The bytes that were there stay.
  pub byte-accept_old :
      (src : ℕ → ℕ) (sz i : ℕ)
      → sz ≤ nbytes_empty q
      → i < stored q
      → byte (accept q (some src) sz) i ≡ byte q i
  unfolding accept
  byte-accept_old src sz i h k = ground (
    arith,
    nbytes_empty-gap v,
    write_bytes_lem src sz (q.rx_offset + i) v,
    write_bytes_lem src sz (q.rx_offset + i - q.buffer_size) v,
  )

  -- Reading: what a dequeue or a peek copies out are the first bytes, in order.
  pub read_bytes_lem :
      (dst : ℕ → ℕ) (sz i : ℕ) → sz ≤ nbytes_enqueued q → i < sz → read_bytes q dst sz i ≡ byte q i
  unfolding read_bytes
  read_bytes_lem dst sz i h k =
      let le : sz ≤ q.buffer_size = omega (arith, nbytes_enqueued-le v) in
      rw
        (
          first_part_lem q q.rx_offset sz v.small v.rx_in le,
          second_part_lem q q.rx_offset sz v.small v.rx_in le,
          copy_out_lem dst q.buffer q.rx_offset _ (q.rx_offset + sz - q.buffer_size) i
              (omega (arith, v.small, v.rx_in)),
        )
        (read_split q.buffer dst q.rx_offset q.buffer_size sz i v.rx_in k)

  -- The bytes that an enqueue adds: those before the end of the buffer are the source's; those that
  -- go round are taken from `src + b2` on, with `b2` the number of bytes that go round.
  pub byte-accept_new :
      (src : ℕ → ℕ) (sz i : ℕ)
      → sz ≤ nbytes_empty q
      → i < sz
      → byte (accept q (some src) sz) (stored q + i) ≡ (
          if ltb (q.tx_offset + i) q.buffer_size
          then src i
          else src (q.tx_offset + sz - q.buffer_size + (q.tx_offset + i - q.buffer_size)))
  unfolding accept
  byte-accept_new src sz i h k = ground (
    arith,
    nbytes_empty-gap v,
    write_bytes_lem src sz (q.rx_offset + (stored q + i)) v,
    write_bytes_lem src sz (q.rx_offset + (stored q + i) - q.buffer_size) v,
  )
