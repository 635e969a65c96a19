-- ===== src/Rdma/Overshoot.antt =====
-- The second pass of the loop in rq_nflush.
use tas_smartnic.Prelude.{le→ltb_false, lt→ltb, ℕ, ◌+◌, ◌≤◌, ◌<◌, ◌≡◌, ◌∙◌, ap, Option, some, arith}
use tas_smartnic.Rdma.Ring.{nbytes_max_flush}
use tas_smartnic.Rdma.Verbs.{
  ◌>>=◌, code, Side, >>=-some, flush_pass, read_rx_offset, update_receiver, after_first_pass,
  nflush_paired, nflush,
}
use tas_smartnic.Rdma.Peer.{
  IsPaired, goal, goal-le, pass_size, flush_pass_lem, first_pass, nflush-paired,
}

module _ (post : ℕ → ℕ) (seen : ℕ → ℕ) where
  -- The side after a pass and the read that follows it.
  abbrev pub reread : ℕ → Side → Side
  reread limit s =
      let t = (flush_pass post seen limit s).1 in
      record t { queue = record (t.queue) { rx_offset = seen t.posted }; posted = t.posted + 1 }

  reread-IsPaired :
      (limit : ℕ) (s : Side)
      → IsPaired s.queue
      → limit ≤ s.queue.buffer_size
      → seen (flush_pass post seen limit s).1.posted ≤ s.queue.buffer_size
      → IsPaired (reread limit s).queue × ((reread limit s).queue.buffer_size ≡ s.queue.buffer_size)
  reread-IsPaired limit s v h k = ground (arith, flush_pass_lem post seen s v limit h)

  update_receiver-result :
      (total : ℕ) (s : Side) → (update_receiver post seen total s).0 ≡ some total
  unfolding update_receiver
  update_receiver-result total s = ground arith

  read_succeeds :
      (s : Side)
      → post s.posted ≡ 0
      → read_rx_offset post seen s ≡ (
        some (code 0),
        record s { queue = record (s.queue) { rx_offset = seen s.posted }; posted = s.posted + 1 },
      )
  unfolding read_rx_offset
  read_succeeds s h = ground arith

  after_short_pass :
      (limit n1 : ℕ) (s : Side)
      → n1 < limit
      → post s.posted ≡ 0
      → let t : Side = record s {
        queue = record (s.queue) { rx_offset = seen s.posted };
        posted = s.posted + 1;
      } in
        after_first_pass post seen limit n1 s
        ≡ (flush_pass post seen limit >>= λ n2. update_receiver post seen (n1 + n2)) t
  unfolding after_first_pass
  after_short_pass limit n1 s h good = ground (arith, read_succeeds s good)

  -- When the first pass of rq_nflush is cut short by the room at the peer, and the peer's fresh
  -- offset then shows room for the whole goal, the second pass flushes the goal once more and not
  -- the rest of it: the result exceeds the goal by the size of the first pass.
  pub nflush_second_pass_overshoots :
      (s : Side) (n : ℕ)
      → IsPaired s.queue
      → nbytes_max_flush s.queue < goal s.queue n
      → ((k : ℕ) → post k ≡ 0)
      → seen (flush_pass post seen (goal s.queue n) s).1.posted ≤ s.queue.buffer_size
      → goal s.queue n ≤ nbytes_max_flush (reread (goal s.queue n) s).queue
      → (nflush post seen n s).0 ≡ some (nbytes_max_flush s.queue + goal s.queue n)
  unfolding nflush_paired
  nflush_second_pass_overshoots s n v short good fresh room =
      let limit : ℕ = goal s.queue n in
      let le : limit ≤ s.queue.buffer_size = goal-le post seen s v n in
      let t : Side = (flush_pass post seen limit s).1 in
      let (w, same) = reread-IsPaired limit s v le fresh in
      let le' : limit ≤ (reread limit s).queue.buffer_size = rw same le in
      ap {B = Option ℕ} (λ r. r.0)
        (nflush-paired post seen s v n
          ∙ >>=-some {B = ℕ} (flush_pass post seen limit) (after_first_pass post seen limit)
              (first_pass post seen s v limit le)
          ∙ after_short_pass limit (pass_size s.queue limit) t (omega (arith, first_size))
              (good t.posted)
          ∙ >>=-some {B = ℕ} (flush_pass post seen limit)
              (λ n2. update_receiver post seen (pass_size s.queue limit + n2))
              (first_pass post seen (reread limit s) w limit le'))
      ∙ update_receiver-result (pass_size s.queue limit + pass_size (reread limit s).queue limit)
          (flush_pass post seen limit (reread limit s)).1
      ∙ ap some (omega (arith, first_size, second_size))
    where
      first_size : pass_size s.queue (goal s.queue n) ≡ nbytes_max_flush s.queue
      first_size = rw (lt→ltb _ _ short)

      second_size : pass_size (reread (goal s.queue n) s).queue (goal s.queue n) ≡ goal s.queue n
      second_size = rw (le→ltb_false _ _ room)
