-- ===== src/Rdma/Reserve.antt =====
-- rq_nbytes_can_reserve and rq_try_reserve_flush: what they say of the room at the peer.
use tas_smartnic.Prelude.{◌^◌, ◌==◌, ℕ, ◌≤◌, ◌<◌, ◌≡◌, none, some, if◌then◌else◌, arith, true}
use tas_smartnic.Rdma.Ring.{Queue, nbytes_to_flush, nbytes_max_flush}
use tas_smartnic.Rdma.Verbs.{Side, read_rx_offset}
use tas_smartnic.Rdma.Ops.{has_room, nbytes_can_reserve, try_reserve_flush}

module _ (post : ℕ → ℕ) (seen : ℕ → ℕ) (s : Side) where
  -- The queue once the peer's offset was read.
  abbrev pub refreshed : Queue
  refreshed = record (s.queue) { rx_offset = seen s.posted }

  -- rq_try_reserve_flush on a paired queue answers 1 just when the peer had room as last seen or has
  -- it after one fresh read, and else 0; a read that cannot be posted is -1.
  pub try_reserve_flush_lem :
      (n : ℕ)
      → s.queue.paired ≡ true
      → (try_reserve_flush post seen n s).0 ≡ (
          if has_room (s.queue) n
          then some 1
          else if post s.posted == 0
          then (if has_room refreshed n then some 1 else some 0)
          else none)
  unfolding try_reserve_flush read_rx_offset
  try_reserve_flush_lem n p = ground arith

  -- rq_nbytes_can_reserve reads the peer's offset when the room it knows of is used up, but answers
  -- from the counts it took before: it is 0 then, whatever room the read shows.
  pub can_reserve_stale :
      s.queue.paired ≡ true
      → post s.posted ≡ 0
      → nbytes_max_flush s.queue ≤ nbytes_to_flush s.queue
      → nbytes_to_flush s.queue < 2 ^ 63
      → ((nbytes_can_reserve post seen s).0 ≡ some 0)
        × ((nbytes_can_reserve post seen s).1.queue ≡ refreshed)
  unfolding nbytes_can_reserve read_rx_offset
  can_reserve_stale p good used small = ground arith
