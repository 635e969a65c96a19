-- ===== src/Rdma/Tests.antt =====
-- Runs of the queue at small inputs, and its theorems at them.
use tas_smartnic.Prelude.{ℕ, ◌+◌, ◌≡◌, refl, true, false, some, [], ◌∷◌, arith}
use tas_smartnic.Rdma.Ring.{
  Queue, nbytes_to_flush, nbytes_enqueued, nbytes_empty, nbytes_max_flush, first_part, second_part,
  next_offset, copy_in, write_bytes, accept, try_peek,
}
use tas_smartnic.Rdma.Verbs.{Side, nflush}
use tas_smartnic.Rdma.Ops.{try_enqueue}
use tas_smartnic.Rdma.Bounds.{IsValid}
use tas_smartnic.Rdma.Contents.{contents, peek_keeps_queue}
use tas_smartnic.Rdma.Local.{enqueue_appends, enqueue_wrap_wrong}
use tas_smartnic.Rdma.Peer.{IsPaired, nflush_delivers}

-- Byte `i` of the buffer is `i`; two bytes are visible, and two more are stored.
abbrev local_queue : Queue
local_queue = record {
  buffer = λ i. i;
  buffer_size = 16;
  flush_offset = 8;
  rx_offset = 6;
  tx_offset = 10;
  paired = false;
  is_tx = false;
}

-- An enqueue of four bytes puts one before the end of the buffer and three behind it.
abbrev wrapping_queue : Queue
wrapping_queue = record local_queue { rx_offset = 12; flush_offset = 12; tx_offset = 15 }

-- Ten bytes are pending, and the peer had taken all that it was sent.
abbrev remote_queue : Queue
remote_queue = record {
  buffer = λ i. i;
  buffer_size = 40;
  flush_offset = 20;
  rx_offset = 24;
  tx_offset = 30;
  paired = true;
  is_tx = true;
}

abbrev side : Queue → Side
side q = record { queue = q; peer_buffer = λ i. 0; peer_tx_offset = 0; posted = 0 }

-- Every request succeeds; every request fails with errno 12.
abbrev succeeds : ℕ → ℕ
succeeds n = 0

abbrev out_of_memory : ℕ → ℕ
out_of_memory n = 12

-- The peer's offset when it is read.
abbrev reads : ℕ → ℕ
reads n = 19

abbrev source : ℕ → ℕ
source i = i + 100

abbrev scratch : ℕ → ℕ
scratch i = 0

contents_run : contents local_queue ≡ 6 ∷ 7 ∷ 8 ∷ 9 ∷ []
contents_run = refl

wrapped_run :
    contents
      (try_enqueue succeeds reads
        (some source)
        4
        (side (record local_queue { tx_offset = 14; rx_offset = 14; flush_offset = 14 }))).1.queue
    ≡ 100 ∷ 101 ∷ 102 ∷ 103 ∷ []
unfolding try_enqueue accept write_bytes copy_in first_part second_part next_offset nbytes_empty
wrapped_run = refl

local-IsValid : IsValid local_queue
local-IsValid = record {
  local = refl;
  large = omega arith;
  small = omega arith;
  rx_in = omega arith;
  flush_in = omega arith;
  tx_in = omega arith;
  room = omega arith;
  ordered = refl;
}

wrapping-IsValid : IsValid wrapping_queue
wrapping-IsValid = record {
  local = refl;
  large = omega arith;
  small = omega arith;
  rx_in = omega arith;
  flush_in = omega arith;
  tx_in = omega arith;
  room = omega arith;
  ordered = refl;
}

remote-IsPaired : IsPaired remote_queue
remote-IsPaired = record {
  is_paired = refl;
  small = omega arith;
  large = omega arith;
  rx_in = omega arith;
  flush_in = omega arith;
  tx_in = omega arith;
}

enqueue_appends_example :
    contents (try_enqueue succeeds reads (some source) 3 (side local_queue)).1.queue
    ≡ 6 ∷ 7 ∷ 8 ∷ 9 ∷ 100 ∷ 101 ∷ 102 ∷ []
unfolding nbytes_empty
enqueue_appends_example =
    (enqueue_appends succeeds reads (side local_queue) local-IsValid source 3 (omega arith)
      (omega arith)).1

enqueue_wrap_wrong_example : ¬ (
    contents (try_enqueue succeeds reads (some source) 4 (side wrapping_queue)).1.queue
    ≡ 12 ∷ 13 ∷ 14 ∷ 100 ∷ 101 ∷ 102 ∷ 103 ∷ [])
unfolding nbytes_empty
enqueue_wrap_wrong_example =
    enqueue_wrap_wrong succeeds reads (side wrapping_queue) wrapping-IsValid source 4 (omega arith)
      (omega arith) (omega arith)

peek_keeps_queue_example : (try_peek local_queue (some scratch) 2).2 ≡ local_queue
unfolding nbytes_enqueued
peek_keeps_queue_example = (peek_keeps_queue local-IsValid scratch 2 (omega arith)).2

nflush_delivers_example : (nflush succeeds reads 3 (side remote_queue)).1.peer_buffer 22 ≡ 22
unfolding nbytes_to_flush nbytes_max_flush
nflush_delivers_example =
    (nflush_delivers succeeds reads (side remote_queue) remote-IsPaired 3 22 (omega arith)
      (λ k. refl) (omega arith)).2
