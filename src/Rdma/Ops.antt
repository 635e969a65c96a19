-- ===== src/Rdma/Ops.antt =====
-- The operations of lib/utils/rdma_queue.c that may have to talk to the peer.
use tas_smartnic.Prelude.{ℕ, Bool, not, Option, some, leb, ltb, if◌then◌else◌, add64, sub64}
use tas_smartnic.Rdma.Ring.{Queue, nbytes_to_flush, nbytes_max_flush, nbytes_empty, accept}
use tas_smartnic.Rdma.Verbs.{
  M, pure, fail_if, the_queue, ◌>>=◌, ◌>>◌, is_zero, read_rx_offset, flush,
}

-- The test of one pass of rq_try_reserve_flush.
unfoldable pub has_room : Queue → ℕ → Bool
has_room q n = leb (add64 (nbytes_to_flush q) n) (nbytes_max_flush q)

module _ (post : ℕ → ℕ) (seen : ℕ → ℕ) where
  -- rq_try_enqueue: -1 if the flush of a full queue fails, 1 if the queue was full, else 0.
  unfoldable pub try_enqueue : Option (ℕ → ℕ) → ℕ → M ℕ
  try_enqueue src sz = do
    q ← the_queue
    if ltb (nbytes_empty q) sz then (do n ← flush post seen; pure 1) else λ s.
        (some 0, record s { queue = accept q src sz })

  -- rq_nbytes_can_reserve. The counts are taken before the read of the peer's offset.
  unfoldable pub nbytes_can_reserve : M ℕ
  nbytes_can_reserve = do
    q ← the_queue
    let can = nbytes_max_flush q
    let pending = nbytes_to_flush q
    if not q.paired
        then pure (sub64 can pending)
        else if leb can pending
        then (do
          c ← read_rx_offset post seen
          fail_if (not (is_zero c))
          if ltb can pending then pure 0 else pure (sub64 can pending))
        else pure (sub64 can pending)

  -- rq_try_reserve_flush: 1 if the peer has room, with one read of its offset in between.
  unfoldable pub try_reserve_flush : ℕ → M ℕ
  try_reserve_flush to_flush = do
    q ← the_queue
    if has_room q to_flush then pure 1 else if not q.paired then pure 0 else (do
      c ← read_rx_offset post seen
      fail_if (not (is_zero c))
      q' ← the_queue
      if has_room q' to_flush then pure 1 else pure 0)
