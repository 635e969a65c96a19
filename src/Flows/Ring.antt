-- ===== src/Flows/Ring.antt =====
-- A receive queue between two calls of fast_flows_packet: the room that lib/utils/rdma_queue.c counts
-- in it, and what accepting bytes without copying them does to it.
use tas_smartnic.Prelude.{
  refl, le→ltb_false, ◌-◌, some, ltb, none, ◌≡◌, ◌^◌, ◌&&◌, ◌≤◌, ◌+◌, ◌<◌, if◌then◌else◌, ℕ, arith,
}
use tas_smartnic.Rdma.Ring.{Queue, pad, nbytes_empty, accept}
use tas_smartnic.Rdma.Bounds.{gap, next_offset_lem}
use tas_smartnic.Rdma.Verbs.{Side}
use tas_smartnic.Rdma.Ops.{try_enqueue}
use tas_smartnic.Flows.Slots.{slot}

-- Where the bytes begin that are no free room.
abbrev pub origin : Queue → ℕ
origin q = if q.paired && q.is_tx then q.flush_offset else q.rx_offset

pub record IsRing (q : Queue) : Type 0 where
  pub small : q.buffer_size < 2 ^ 31
  pub inside : q.tx_offset ≤ q.buffer_size
  pub origin_in : origin q ≤ q.buffer_size
  pub room : gap q.buffer_size (origin q) q.tx_offset + pad ≤ q.buffer_size

pub nbytes_empty_lem :
    {q : Queue}
    → IsRing q
    → nbytes_empty q + pad + gap q.buffer_size (origin q) q.tx_offset ≡ q.buffer_size
unfolding nbytes_empty
nbytes_empty_lem r = ground (arith, r.small, r.inside, r.origin_in, r.room)

module _ {q : Queue} (r : IsRing q) (n : ℕ) (h : n ≤ nbytes_empty q) where
  accept_offset : (accept q none n).tx_offset ≡ (
      if ltb q.buffer_size (q.tx_offset + n)
      then q.tx_offset + n - q.buffer_size
      else q.tx_offset + n)
  unfolding accept
  accept_offset =
      next_offset_lem q q.tx_offset n r.small r.inside (omega (arith, nbytes_empty_lem r))

  pub accept-IsRing : IsRing (accept q none n)
  unfolding accept
  accept-IsRing =
      let e = accept_offset in
      record {
        small = r.small;
        inside = ground (arith, r.small, r.inside, r.origin_in, nbytes_empty_lem r);
        origin_in = r.origin_in;
        room = ground (arith, r.small, r.inside, r.origin_in, nbytes_empty_lem r);
      }

  pub nbytes_empty-accept : nbytes_empty (accept q none n) + n ≡ nbytes_empty q
  unfolding accept
  nbytes_empty-accept =
      let e = accept_offset in
      ground
        (arith, r.small, r.inside, r.origin_in, nbytes_empty_lem r, nbytes_empty_lem accept-IsRing)

  pub slot-accept : (k : ℕ) → n + k ≤ nbytes_empty q → slot (accept q none n) k ≡ slot q (n + k)
  unfolding accept
  slot-accept k l = let e = accept_offset in ground (arith, r.small, r.inside, nbytes_empty_lem r)

pub try_enqueue_lem :
    (post seen : ℕ → ℕ) (s : Side) (n : ℕ)
    → n ≤ nbytes_empty s.queue
    → try_enqueue post seen none n s ≡ (some 0, record s { queue = accept s.queue none n })
unfolding try_enqueue
try_enqueue_lem post seen s n h = rw (le→ltb_false _ _ h) refl
