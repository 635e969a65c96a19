-- ===== src/Rdma/Local.antt =====
-- rq_try_enqueue, rq_nflush and rq_flush on a queue that is not paired.
use tas_smartnic.Prelude.{
  append_cancel, tabulate_inj, sym, ◌≢◌, ◌∙◌, lt→ltb, ap, le→ltb_false, ℕ, ◌+◌, ◌-◌, ◌≤◌, ◌<◌, ◌≡◌,
  refl, Option, some, ◌++◌, ltb, if◌then◌else◌, arith, min, tabulate, tabulate_congr,
}
use tas_smartnic.Rdma.Ring.{Queue, nbytes_enqueued, nbytes_empty, nbytes_to_flush, accept}
use tas_smartnic.Rdma.Verbs.{pure, >>=-some, Side, nflush, flush}
use tas_smartnic.Rdma.Ops.{try_enqueue}
use tas_smartnic.Rdma.Bounds.{IsValid, nbytes_enqueued-gap, nbytes_to_flush-gap, accept-IsValid}
use tas_smartnic.Rdma.Fifo.{stored, byte}
use tas_smartnic.Rdma.Contents.{visible, contents, taken, contents-accept}

-- The queue after a flush that moves the offset by `n`.
abbrev flushed : Queue → ℕ → Queue
flushed q n = record q {
  flush_offset =
      if ltb q.buffer_size (q.flush_offset + n)
      then q.flush_offset + n - q.buffer_size
      else q.flush_offset + n;
}

flushed-IsValid : {q : Queue} (n : ℕ) → IsValid q → n ≤ nbytes_to_flush q → IsValid (flushed q n)
flushed-IsValid n v h = ground (arith, nbytes_to_flush-gap v)

enqueued-flushed :
    {q : Queue} (n : ℕ)
    → IsValid q
    → n ≤ nbytes_to_flush q
    → nbytes_enqueued (flushed q n) ≡ nbytes_enqueued q + n
enqueued-flushed {q} n v h = ground (
  arith,
  nbytes_to_flush-gap v,
  nbytes_enqueued-gap v,
  nbytes_enqueued-gap (flushed-IsValid n v h),
)

visible_kept :
    {q : Queue} (src : Option (ℕ → ℕ)) (sz : ℕ)
    → IsValid q
    → sz ≤ nbytes_empty q
    → nbytes_enqueued (accept q src sz) ≡ nbytes_enqueued q
unfolding accept nbytes_enqueued
visible_kept src sz v h = rw (v.local)

stored_visible : {q : Queue} → IsValid q → nbytes_enqueued q + nbytes_to_flush q ≡ stored q
stored_visible v = omega (arith, nbytes_to_flush-gap v, nbytes_enqueued-gap v, v.ordered)

module _ (post : ℕ → ℕ) (seen : ℕ → ℕ) (s : Side) (v : IsValid s.queue) where
  nflush-flushed :
      (n : ℕ)
      → nflush post seen n s ≡ (
        some (min n (nbytes_to_flush s.queue)),
        record s { queue = flushed (s.queue) (min n (nbytes_to_flush s.queue)) },
      )
  unfolding nflush
  nflush-flushed n = ground (arith, nbytes_to_flush-gap v)

  flush-flushed : flush post seen s ≡ (
    some (nbytes_to_flush s.queue),
    record s { queue = flushed (s.queue) (nbytes_to_flush s.queue) },
  )
  unfolding flush
  flush-flushed =
      let e : min (nbytes_to_flush s.queue) (nbytes_to_flush s.queue) ≡ nbytes_to_flush s.queue =
        omega arith in
      rw e at (nflush-flushed (nbytes_to_flush s.queue))

  -- rq_nflush of an unpaired queue returns the number of bytes it flushed, the smaller of what was
  -- asked for and what was pending. It makes exactly those visible, keeps all stored bytes and the
  -- invariant, and posts nothing.
  pub nflush_local :
      (n : ℕ)
      → let m = min n (nbytes_to_flush s.queue) in
        let (r, t) = nflush post seen n s in
        (r ≡ some m)
        × (nbytes_enqueued t.queue ≡ nbytes_enqueued s.queue + m)
        × (contents t.queue ≡ contents s.queue)
        × IsValid t.queue
        × (t.posted ≡ s.posted)
  nflush_local n =
      let m = min n (nbytes_to_flush s.queue) in
      let le : m ≤ nbytes_to_flush s.queue = omega arith in
      rw (nflush-flushed n) (refl, enqueued-flushed m v le, refl, flushed-IsValid m v le, refl)

  -- rq_try_enqueue of bytes that fit and do not go round the end of the buffer returns 0 and appends
  -- exactly the source's bytes. What is visible stays, since nothing is flushed.
  pub enqueue_appends :
      (src : ℕ → ℕ) (sz : ℕ)
      → sz ≤ nbytes_empty s.queue
      → s.queue.tx_offset + sz ≤ s.queue.buffer_size
      → let (r, t) = try_enqueue post seen (some src) sz s in
        (r ≡ some 0)
        × (contents t.queue ≡ contents s.queue ++ tabulate src sz)
        × (nbytes_enqueued t.queue ≡ nbytes_enqueued s.queue)
        × IsValid t.queue
  unfolding try_enqueue
  enqueue_appends src sz h k = rw (le→ltb_false _ _ h) (
    refl,
    rw (contents-accept v src sz h) (
        ap (◌++◌ (contents s.queue))
          (tabulate_congr (taken (s.queue) src sz) src sz (λ i j. ground arith))),
    visible_kept (some src) sz v h,
    accept-IsValid (some src) sz v h,
  )

  -- rq_try_enqueue of more bytes than are free returns 1, stores nothing, and flushes: afterwards
  -- all stored bytes are visible.
  pub enqueue_full :
      (src : Option (ℕ → ℕ)) (sz : ℕ)
      → nbytes_empty s.queue < sz
      → let (r, t) = try_enqueue post seen src sz s in
        (r ≡ some 1) × (visible t.queue ≡ contents s.queue) × IsValid t.queue
  unfolding try_enqueue
  enqueue_full src sz h =
      rw (lt→ltb _ _ h, >>=-some {B = ℕ} (flush post seen) (λ n. pure 1) flush-flushed)
        (
          refl,
          ap (tabulate (byte (s.queue))) (enqueued-flushed _ v (omega arith) ∙ stored_visible v),
          flushed-IsValid _ v (omega arith),
        )

  -- The second copy of rq_try_enqueue starts at `to_enqueue + b2`, not `to_enqueue + b1`: an enqueue
  -- that fits but goes round the end, with `b1` bytes before it and `b2` behind, does not store the
  -- source's bytes whenever those at `b1` and `b2` differ.
  pub enqueue_wrap_wrong :
      (src : ℕ → ℕ) (sz : ℕ)
      → sz ≤ nbytes_empty s.queue
      → s.queue.buffer_size < s.queue.tx_offset + sz
      → let b1 = s.queue.buffer_size - s.queue.tx_offset in
        src b1 ≢ src (sz - b1)
        → ¬ (
            contents (try_enqueue post seen (some src) sz s).1.queue
            ≡ contents s.queue ++ tabulate src sz)
  unfolding try_enqueue
  enqueue_wrap_wrong src sz h k differ e =
      let b1 : ℕ = s.queue.buffer_size - s.queue.tx_offset in
      let stored_bytes : contents s.queue ++ tabulate (taken (s.queue) src sz) sz
          ≡ contents s.queue ++ tabulate src sz =
        sym (contents-accept v src sz h) ∙ (rw (le→ltb_false _ _ h) at e) in
      let here : taken (s.queue) src sz b1 ≡ src b1 =
        tabulate_inj (taken (s.queue) src sz) src sz b1
          (append_cancel (contents s.queue) _ _ stored_bytes) (omega (arith, v.tx_in)) in
      differ (sym here ∙ wraps)
    where
      wraps :
          taken (s.queue) src sz (s.queue.buffer_size - s.queue.tx_offset)
          ≡ src (sz - (s.queue.buffer_size - s.queue.tx_offset))
      wraps = ground (arith, v.tx_in)
