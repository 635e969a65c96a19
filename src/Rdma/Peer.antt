-- ===== src/Rdma/Peer.antt =====
-- rq_nflush on a queue that is paired with a peer: what reaches the peer, what it is told, and what
-- happens when a request cannot be posted.
use tas_smartnic.Prelude.{
  lt→ltb, ◌∙◌, ap, ◌≢◌, Bool, ℕ, ◌+◌, ◌-◌, ◌^◌, ◌≤◌, ◌<◌, ◌≡◌, Option, some, ltb, leb,
  if◌then◌else◌, arith, true, ◌||◌, ◌&&◌,
}
use tas_smartnic.Rdma.Ring.{Queue, nbytes_to_flush, nbytes_max_flush}
use tas_smartnic.Rdma.Verbs.{
  after_first_pass, nflush_unpaired, >>=-some, Side, flush_pass, update_receiver, nflush_paired,
  nflush,
}
use tas_smartnic.Rdma.Bounds.{gap, first_part_lem, second_part_lem}

-- The offsets of a paired queue in range, and fewer pending bytes than the buffer has.
pub record IsPaired (q : Queue) : Type 0 where
  pub is_paired : q.paired ≡ true
  pub small : q.buffer_size < 2 ^ 31
  pub large : 8 < q.buffer_size
  pub rx_in : q.rx_offset ≤ q.buffer_size
  pub flush_in : q.flush_offset ≤ q.buffer_size
  pub tx_in : q.tx_offset ≤ q.buffer_size

abbrev pub advance : Queue → ℕ → ℕ
advance q n =
    if ltb q.buffer_size (q.flush_offset + n)
    then q.flush_offset + n - q.buffer_size
    else q.flush_offset + n

-- The bytes one pass of the loop flushes.
abbrev pub pass_size : Queue → ℕ → ℕ
pass_size q limit = if ltb (nbytes_max_flush q) limit then nbytes_max_flush q else limit

-- Whether position `j` lies among the `n` bytes from the flush offset on.
abbrev pub is_flushed : Queue → ℕ → ℕ → Bool
is_flushed q n j =
    ltb j (q.flush_offset + n - q.buffer_size)
    || (leb q.flush_offset j && ltb j (q.flush_offset + n) && ltb j q.buffer_size)

-- The bytes rq_nflush sets out to flush.
abbrev pub goal : Queue → ℕ → ℕ
goal q n = if ltb n (nbytes_to_flush q) then n else nbytes_to_flush q

module _ (post : ℕ → ℕ) (seen : ℕ → ℕ) (s : Side) (v : IsPaired s.queue) where
  -- The bound holds of any distance between offsets in range.
  pass_size-le :
      (limit : ℕ) → limit ≤ s.queue.buffer_size → pass_size (s.queue) limit ≤ s.queue.buffer_size
  pass_size-le limit h = ground arith

  -- Whatever ibv_post_send returns, a pass reports its bytes as flushed and moves the offset.
  pub flush_pass_lem :
      (limit : ℕ)
      → limit ≤ s.queue.buffer_size
      → let n = pass_size (s.queue) limit in
        let (r, t) = flush_pass post seen limit s in
        (r ≡ some n)
        × (t.queue ≡ record (s.queue) { flush_offset = advance (s.queue) n })
        × (t.peer_tx_offset ≡ s.peer_tx_offset)
  unfolding flush_pass
  flush_pass_lem limit h = ground (
    arith,
    pass_size-le limit h,
    first_part_lem (s.queue) s.queue.flush_offset (pass_size (s.queue) limit),
    second_part_lem (s.queue) s.queue.flush_offset (pass_size (s.queue) limit),
  )

  -- With no failure, the peer's buffer then holds those bytes at the same positions.
  peer_buffer-pass :
      (limit j : ℕ)
      → limit ≤ s.queue.buffer_size
      → ((k : ℕ) → post k ≡ 0)
      → (flush_pass post seen limit s).1.peer_buffer j ≡ (
          if is_flushed (s.queue) (pass_size (s.queue) limit) j
          then s.queue.buffer j
          else s.peer_buffer j)
  unfolding flush_pass
  peer_buffer-pass limit j h good = ground (
    arith,
    good s.posted,
    good (s.posted + 1),
    pass_size-le limit h,
    first_part_lem (s.queue) s.queue.flush_offset (pass_size (s.queue) limit),
    second_part_lem (s.queue) s.queue.flush_offset (pass_size (s.queue) limit),
  )

  -- A pass whose requests all fail leaves the peer's buffer as it was.
  peer_buffer-pass_failed :
      (limit j : ℕ)
      → ((k : ℕ) → post k ≢ 0)
      → (flush_pass post seen limit s).1.peer_buffer j ≡ s.peer_buffer j
  unfolding flush_pass
  peer_buffer-pass_failed limit j bad = ground (arith, bad s.posted, bad (s.posted + 1))

  pub goal-le : (n : ℕ) → goal s.queue n ≤ s.queue.buffer_size
  unfolding nbytes_to_flush
  goal-le n = ground arith

  pub nflush-paired : (n : ℕ) → nflush post seen n s ≡ nflush_paired post seen (goal s.queue n) s
  unfolding nflush
  nflush-paired n =
      ap {B = Option ℕ × Side}
        (λ b.
          (if b
              then nflush_paired post seen (goal s.queue n)
              else nflush_unpaired post seen (goal s.queue n))
            s)
        v.is_paired

  pub first_pass :
      (limit : ℕ)
      → limit ≤ s.queue.buffer_size
      → flush_pass post seen limit s
        ≡ (some (pass_size (s.queue) limit), (flush_pass post seen limit s).1)
  first_pass limit h =
      ap {B = Option ℕ × Side} (λ r. (r, (flush_pass post seen limit s).1))
        (flush_pass_lem limit h).0

  -- One pass is enough if the room at the peer, as last seen, holds the goal.
  nflush_one_pass :
      (n : ℕ)
      → goal s.queue n ≤ nbytes_max_flush s.queue
      → nflush post seen n s
        ≡ update_receiver post seen (goal s.queue n) (flush_pass post seen (goal s.queue n) s).1
  unfolding nflush_paired after_first_pass
  nflush_one_pass n h =
      nflush-paired n
      ∙ >>=-some {B = ℕ} (flush_pass post seen (goal s.queue n))
          (after_first_pass post seen (goal s.queue n)) (first_pass (goal s.queue n) (goal-le n))
      ∙ ground arith

  -- rq_nflush with room at the peer, when no request fails: it returns the goal, moves the flush
  -- offset by it, and the peer's buffer holds those bytes.
  pub nflush_delivers :
      (n j : ℕ)
      → goal s.queue n ≤ nbytes_max_flush s.queue
      → ((k : ℕ) → post k ≡ 0)
      → 0 < goal s.queue n
      → let (r, t) = nflush post seen n s in
        (r ≡ some (goal s.queue n))
        × (t.queue.flush_offset ≡ advance (s.queue) (goal s.queue n))
        × (t.peer_buffer j ≡ (
            if is_flushed (s.queue) (goal s.queue n) j then s.queue.buffer j else s.peer_buffer j))
        × (t.peer_tx_offset ≡ s.queue.tx_offset)
  unfolding update_receiver
  nflush_delivers n j h good some_bytes = rw (nflush_one_pass n h) (
      ground (
        arith,
        good (flush_pass post seen (goal s.queue n) s).1.posted,
        flush_pass_lem (goal s.queue n) (goal-le n),
        peer_buffer-pass (goal s.queue n) j (goal-le n) good,
      ))

  pending_left :
      (n : ℕ)
      → n < nbytes_to_flush s.queue
      → gap s.queue.buffer_size (advance (s.queue) n) s.queue.tx_offset + n
        ≡ nbytes_to_flush s.queue
  unfolding nbytes_to_flush
  pending_left n h = ground arith

  -- A flush of fewer bytes than are pending still writes the queue's own tx offset to the peer, which
  -- lies behind the bytes that were sent: the receiver is told of `nbytes_to_flush - n` bytes that
  -- did not reach it.
  pub nflush_partial_overpublishes :
      (n : ℕ)
      → 0 < n
      → n < nbytes_to_flush s.queue
      → n ≤ nbytes_max_flush s.queue
      → ((k : ℕ) → post k ≡ 0)
      → let t = (nflush post seen n s).1 in
        (t.peer_tx_offset ≡ s.queue.tx_offset)
        × (gap s.queue.buffer_size t.queue.flush_offset t.peer_tx_offset + n
            ≡ nbytes_to_flush s.queue)
  nflush_partial_overpublishes n some_bytes few h good =
      let is_n : goal s.queue n ≡ n = rw (lt→ltb _ _ few) in
      let sent = nflush_delivers n 0 (omega (arith, is_n)) good (omega (arith, is_n)) in
      (sent.3, rest is_n sent.1 sent.3)
    where
      rest :
          goal s.queue n ≡ n
          → (nflush post seen n s).1.queue.flush_offset ≡ advance (s.queue) (goal s.queue n)
          → (nflush post seen n s).1.peer_tx_offset ≡ s.queue.tx_offset
          → gap s.queue.buffer_size
                (nflush post seen n s).1.queue.flush_offset
                (nflush post seen n s).1.peer_tx_offset
              + n
            ≡ nbytes_to_flush s.queue
      rest e p t = rw (p, t, e) (pending_left n few)

  -- A failure of ibv_post_send is an errno value, which is positive, and the callers of rdma_write
  -- test for a negative one: rq_nflush reports success and moves the flush offset, and nothing
  -- reached the peer.
  pub nflush_failure_unnoticed :
      (n j : ℕ)
      → goal s.queue n ≤ nbytes_max_flush s.queue
      → ((k : ℕ) → post k ≢ 0)
      → let (r, t) = nflush post seen n s in
        (r ≡ some (goal s.queue n))
        × (t.queue.flush_offset ≡ advance (s.queue) (goal s.queue n))
        × (t.peer_buffer j ≡ s.peer_buffer j)
        × (t.peer_tx_offset ≡ s.peer_tx_offset)
  unfolding update_receiver
  nflush_failure_unnoticed n j h bad = rw (nflush_one_pass n h) (
      ground (
        arith,
        bad (flush_pass post seen (goal s.queue n) s).1.posted,
        flush_pass_lem (goal s.queue n) (goal-le n),
        peer_buffer-pass_failed (goal s.queue n) j bad,
      ))
