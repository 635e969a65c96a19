-- ===== src/Rdma/Verbs.antt =====
-- Flushing a queue to its peer: lib/utils/rdma_queue.c over rdma_write and rdma_read of
-- lib/utils/rdma.c. ibverbs is outside of the repository: `post n` is what the n-th call of
-- ibv_post_send returns (0, or an errno value) and `seen n` is the receiver offset that a read
-- posted by that call leaves in the queue, stale or not.
use tas_smartnic.Prelude.{
  ap, ℕ, ◌+◌, ◌==◌, ◌≡◌, Bool, true, false, not, Option, none, some, ltb, if◌then◌else◌, add64,
  sub64,
}
use tas_smartnic.Rdma.Ring.{
  Queue, copy, shift, positive, nbytes_to_flush, nbytes_max_flush, first_part, second_part,
}

-- What rdma_write and rdma_read return.
pub data Code : Type 0 where
  minus_one : Code
  code : ℕ → Code

abbrev pub is_negative : Code → Bool
is_negative minus_one = true
is_negative (code n) = false

abbrev pub is_zero : Code → Bool
is_zero minus_one = false
is_zero (code n) = n == 0

-- The queue, the peer's memory as this side writes it, and the number of work requests posted.
pub record Side : Type 0 where
  pub queue : Queue
  pub peer_buffer : ℕ → ℕ
  pub peer_tx_offset : ℕ
  pub posted : ℕ

-- A routine that returns -1 (`none`) or a value; what it did before an error stays done.
abbrev pub M : Type 0 → Type 0
M A = Side → Option A × Side

abbrev pub pure : {A : Type 0} → A → M A
pure a s = (some a, s)

abbrev pub fail : {A : Type 0} → M A
fail s = (none, s)

infixl 5 ◌>>=◌ ◌>>◌
abbrev pub ◌>>=◌ : {A B : Type 0} → M A → (A → M B) → M B
◌>>=◌ m f s = let (r, t) = m s in elim r [ none ↦ (none, t) | some a ↦ f a t ]

abbrev pub ◌>>◌ : {B : Type 0} → M (Unit {0}) → M B → M B
m >> k = m >>= λ _. k

-- A step whose outcome is known.
pub >>=-some :
    {A B : Type 0} (m : M A) (f : A → M B) {s t : Side} {a : A}
    → m s ≡ (some a, t)
    → (m >>= f) s ≡ f a t
>>=-some {A} {B} m f e = ap run e
  where
    run : Option A × Side → Option B × Side
    run (r, t) = elim r [ none ↦ (none, t) | some a ↦ f a t ]

-- `if (bad) return -1;`
abbrev pub fail_if : Bool → M (Unit {0})
fail_if true = fail
fail_if false = pure tt

-- Reads the queue.
abbrev pub the_queue : M Queue
the_queue s = (some (s.queue), s)

abbrev pub set_flush_offset : ℕ → M (Unit {0})
set_flush_offset off s = (some tt, record s { queue = record (s.queue) { flush_offset = off } })

module _ (post : ℕ → ℕ) (seen : ℕ → ℕ) where
  -- rdma_write, where `written` is this side after the peer's memory was written.
  unfoldable pub rdma_write : Side → M Code
  rdma_write written s = (
    some (code (post s.posted)),
    record (if post s.posted == 0 then written else s) { posted = s.posted + 1 },
  )

  -- rdma_write of `n` bytes at offset `off` to the same offset of the peer's buffer.
  unfoldable pub write_buffer : ℕ → ℕ → M Code
  unfolding rdma_write
  write_buffer off n s =
      rdma_write (record s { peer_buffer = copy s.peer_buffer off (shift s.queue.buffer off) n }) s

  -- rdma_write of `endpoints.tx.offset`.
  unfoldable pub write_tx_offset : M Code
  unfolding rdma_write
  write_tx_offset s = rdma_write (record s { peer_tx_offset = s.queue.tx_offset }) s

  -- rdma_read of the peer's `endpoints.rx.offset`: -1 if the request could not be posted.
  unfoldable pub read_rx_offset : M Code
  read_rx_offset s =
      if post s.posted == 0
      then (
        some (code 0),
        record s { queue = record (s.queue) { rx_offset = seen s.posted }; posted = s.posted + 1 },
      )
      else (some minus_one, record s { posted = s.posted + 1 })

  -- One pass of the loop in rq_nflush up to its `break`: the bytes flushed by it.
  unfoldable pub flush_pass : ℕ → M ℕ
  unfolding write_buffer
  flush_pass limit = do
    q ← the_queue
    let n = if ltb (nbytes_max_flush q) limit then nbytes_max_flush q else limit
    let b1 = first_part q q.flush_offset n
    let b2 = second_part q q.flush_offset n
    if ltb 0 n
        then (do
          c1 ← write_buffer q.flush_offset b1
          fail_if (is_negative c1)
          if positive b2
              then (do
                c2 ← write_buffer 0 b2
                fail_if (is_negative c2)
                set_flush_offset b2
                pure n)
              else (do set_flush_offset (add64 q.flush_offset b1); pure n))
        else pure n

  -- "update receiver" at the end of rq_nflush; a failure is printed and not returned.
  unfoldable pub update_receiver : ℕ → M ℕ
  unfolding write_tx_offset
  update_receiver total = if ltb 0 total then (do c ← write_tx_offset; pure total) else pure total

  -- The loop behind its first pass: the `break`, or a read of the peer's offset and a second pass,
  -- which flushes up to the whole of `limit` again.
  unfoldable pub after_first_pass : ℕ → ℕ → M ℕ
  after_first_pass limit n1 = if n1 == limit then update_receiver n1 else (do
    c ← read_rx_offset
    fail_if (not (is_zero c))
    n2 ← flush_pass limit
    update_receiver (n1 + n2))

  -- The `else` branch of rq_nflush.
  unfoldable pub nflush_paired : ℕ → M ℕ
  nflush_paired limit = do n1 ← flush_pass limit; after_first_pass limit n1

  -- The flush of a queue that is not paired: it only moves the flush offset.
  unfoldable pub nflush_unpaired : ℕ → M ℕ
  nflush_unpaired limit = do
    q ← the_queue
    let moved = add64 q.flush_offset limit
    set_flush_offset (if ltb q.buffer_size moved then sub64 moved q.buffer_size else moved)
    pure limit

  -- rq_nflush
  unfoldable pub nflush : ℕ → M ℕ
  unfolding nflush_unpaired
  nflush to_flush = do
    q ← the_queue
    let limit = if ltb to_flush (nbytes_to_flush q) then to_flush else nbytes_to_flush q
    if q.paired then nflush_paired limit else nflush_unpaired limit

  -- rq_flush
  unfoldable pub flush : M ℕ
  flush = do q ← the_queue; nflush (nbytes_to_flush q)
