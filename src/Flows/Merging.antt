-- ===== src/Flows/Merging.antt =====
-- The delivery of fast_flows_packet (tas_nic/fast/fast_flows.c) as a whole: with the bytes in order go
-- those of the out-of-order interval that they reach.
use tas_smartnic.Prelude.{
  ap, Bool-cases, subst, ◌∙◌, ◌&&◌, le→ltb_false, lt→ltb, false, ◌==◌, ◌+◌, sub32, true, ltb, ◌-◌,
  leb, if◌then◌else◌, add32, ◌≡◌, ◌≤◌, ◌^◌, ◌<◌, refl, inl, inr, ℕ, arith, some, none,
}
use native.Mathlib.Decide.{dec_lt}
use tas_smartnic.Rdma.Ring.{nbytes_empty, accept, write_bytes}
use tas_smartnic.Tcp.Window.{tcp_trim_rxbuf}
use tas_smartnic.Flows.State.{Flow}
use tas_smartnic.Flows.Receive.{deliver, merge_ooo, catch_up}
use tas_smartnic.Flows.Slots.{slot}
use tas_smartnic.Flows.Ring.{
  IsRing, nbytes_empty_lem, accept-IsRing, nbytes_empty-accept, slot-accept, try_enqueue_lem,
}
use tas_smartnic.Flows.Overlap.{trim_behind}
use tas_smartnic.Flows.Reassembly.{ahead, IsSane, Holds}
use tas_smartnic.Flows.Delivery.{
  Advanced, Delivered, written, first_flow, written_room, written-IsRing, first_room, first_slot,
  first_bytes, ooo_byte, kept_interval, reached, ooo_left,
}

module _ (post seen : ℕ → ℕ) (stream : ℕ → ℕ) (fs : Flow) (sane : IsSane fs) (h : Holds stream fs)
    (n : ℕ) (src : ℕ → ℕ) (short : n < 2 ^ 16) (some_bytes : 0 < n)
    (fits : n ≤ nbytes_empty fs.rx.queue) (same : (i : ℕ) → i < n → src i ≡ stream i)
    (len_small : fs.rx_ooo_len < 2 ^ 16) where
  deliver-merge :
      (fs' : Flow) (m : ℕ)
      → merge_ooo post seen (first_flow fs n src) ≡ some (fs', m)
      → deliver post seen fs n src ≡ some (fs', add32 n m)
  unfolding deliver
  deliver-merge fs' m e =
      let room : leb n (nbytes_empty fs.rx.queue) ≡ true = ground arith in
      rw
        (
          try_enqueue_lem post seen (record (fs.rx) { queue = written fs n src }) n
              (written_room stream fs sane h n src short some_bytes fits same),
          room,
          e,
        )
        refl

  -- The interval behind the trim.
  abbrev trimmed_flow : Flow
  trimmed_flow = record (first_flow fs n src) {
    rx_ooo_start = add32 fs.rx_ooo_start (n - ahead fs);
    rx_ooo_len = sub32 fs.rx_ooo_len (n - ahead fs + 0);
  }

  trim_first :
      0 < fs.rx_ooo_len
      → tcp_trim_rxbuf
          (add32 fs.rx_next_seq n)
          (nbytes_empty (first_flow fs n src).rx.queue)
          fs.rx_ooo_start
          fs.rx_ooo_len
        ≡ (if ltb (ahead fs + fs.rx_ooo_len) n
            then none
            else some (record { trim_start = n - ahead fs; trim_end = 0 }))
  trim_first pos =
      let left : nbytes_empty (first_flow fs n src).rx.queue ≡ nbytes_empty fs.rx.queue - n =
        omega (arith, first_room stream fs sane h n src short some_bytes fits same) in
      rw left (
        trim_behind fs.rx_next_seq (nbytes_empty fs.rx.queue) fs.rx_ooo_start fs.rx_ooo_len n
          sane.next_small sane.start_small
          (omega (arith, nbytes_empty_lem (sane.ring), sane.ring.small)) short pos len_small fits
          (h.fits pos))

  merge_drop :
      0 < fs.rx_ooo_len
      → ahead fs + fs.rx_ooo_len < n
      → merge_ooo post seen (first_flow fs n src)
        ≡ some (record (first_flow fs n src) { rx_ooo_len = 0 }, 0)
  unfolding merge_ooo
  merge_drop pos l =
      let some_len : (fs.rx_ooo_len == 0) ≡ false = ground arith in
      rw (some_len, trim_first pos, lt→ltb _ _ l) refl

  merge_keep :
      0 < fs.rx_ooo_len
      → n ≤ ahead fs + fs.rx_ooo_len
      → merge_ooo post seen (first_flow fs n src) ≡ catch_up post seen trimmed_flow
  unfolding merge_ooo
  merge_keep pos l =
      let some_len : (fs.rx_ooo_len == 0) ≡ false = ground arith in
      rw (some_len, trim_first pos, le→ltb_false _ _ l) refl

  abbrev caught_flow : Flow
  caught_flow = record trimmed_flow {
    rx = record (trimmed_flow.rx) {
      queue = accept (trimmed_flow.rx.queue) none trimmed_flow.rx_ooo_len;
    };
    rx_next_seq = add32 trimmed_flow.rx_next_seq trimmed_flow.rx_ooo_len;
    rx_ooo_len = 0;
  }

  left_room : nbytes_empty trimmed_flow.rx.queue + n ≡ nbytes_empty fs.rx.queue
  left_room = first_room stream fs sane h n src short some_bytes fits same

  left-IsRing : IsRing trimmed_flow.rx.queue
  left-IsRing =
      accept-IsRing (written-IsRing stream fs sane h n src short some_bytes fits same) n
        (written_room stream fs sane h n src short some_bytes fits same)

  -- The number at which the interval starts is the next one expected.
  catch_all :
      0 < trimmed_flow.rx_ooo_len
      → trimmed_flow.rx_ooo_start ≡ trimmed_flow.rx_next_seq
      → trimmed_flow.rx_ooo_len ≤ nbytes_empty trimmed_flow.rx.queue
      → catch_up post seen trimmed_flow ≡ some (caught_flow, trimmed_flow.rx_ooo_len)
  unfolding catch_up
  catch_all pos e l =
      let t : (ltb 0 trimmed_flow.rx_ooo_len
            && trimmed_flow.rx_ooo_start == trimmed_flow.rx_next_seq)
          ≡ true =
        ground arith in
      rw (try_enqueue_lem post seen (trimmed_flow.rx) trimmed_flow.rx_ooo_len l, t) refl

  catch_none :
      (ltb 0 trimmed_flow.rx_ooo_len && trimmed_flow.rx_ooo_start == trimmed_flow.rx_next_seq)
        ≡ false
      → catch_up post seen trimmed_flow ≡ some (trimmed_flow, 0)
  unfolding catch_up
  catch_none e = rw e refl

  caught-Advanced :
      0 < fs.rx_ooo_len
      → ahead fs ≤ n
      → n ≤ ahead fs + fs.rx_ooo_len
      → Advanced stream fs caught_flow (add32 n trimmed_flow.rx_ooo_len)
  unfolding accept write_bytes
  caught-Advanced pos l m =
      let window = h.fits pos in
      let size = nbytes_empty_lem (sane.ring) in
      let left = left_room in
      let small = sane.ring.small in
      let total : n + trimmed_flow.rx_ooo_len ≡ ahead fs + fs.rx_ooo_len = omega arith in
      let whole : add32 n trimmed_flow.rx_ooo_len ≡ n + trimmed_flow.rx_ooo_len = omega arith in
      let r : trimmed_flow.rx_ooo_len ≤ nbytes_empty trimmed_flow.rx.queue = omega arith in
      rw whole record {
        next = omega arith;
        delivered = λ i k. elim (dec_lt i n) [
          | yes p ↦ first_bytes stream fs sane h n src short some_bytes fits same i p
          | no p ↦
              ooo_byte stream fs sane h n src short some_bytes fits same i (omega arith)
                (omega arith) (omega arith)
        ];
        slots = λ k p.
            slot-accept left-IsRing trimmed_flow.rx_ooo_len r k (omega arith)
            ∙ first_slot stream fs sane h n src short some_bytes fits same
                (trimmed_flow.rx_ooo_len + k) (omega arith)
            ∙ ap (slot fs.rx.queue) (omega arith);
        room = omega (arith, nbytes_empty-accept left-IsRing trimmed_flow.rx_ooo_len r);
        sane = record {
          ring = accept-IsRing left-IsRing trimmed_flow.rx_ooo_len r;
          next_small = omega arith;
          start_small = omega arith;
        };
        rest = record { fits = λ p. omega arith; held = λ i p. absurd (omega (arith, p)) };
      }

  from_merge :
      (fs' : Flow) (m : ℕ)
      → merge_ooo post seen (first_flow fs n src) ≡ some (fs', m)
      → add32 n m ≡ n + reached fs n
      → fs'.rx_ooo_len ≡ ooo_left fs n
      → Advanced stream fs fs' (add32 n m)
      → Delivered stream fs n (deliver post seen fs n src)
  from_merge fs' m e l o a = rw (deliver-merge fs' m e) (l, o, a)

  -- Nothing merged, and what is left of the interval starts at `start` and has `len` bytes.
  from_first :
      (start len : ℕ)
      → start < 2 ^ 32
      → merge_ooo post seen (first_flow fs n src)
        ≡ some (record (first_flow fs n src) { rx_ooo_start = start; rx_ooo_len = len }, 0)
      → reached fs n ≡ 0
      → len ≡ ooo_left fs n
      → ((0 < len)
          → (ahead fs ≤ n + sub32 start (add32 fs.rx_next_seq n))
            × (n + sub32 start (add32 fs.rx_next_seq n) + len ≤ ahead fs + fs.rx_ooo_len))
      → Delivered stream fs n (deliver post seen fs n src)
  from_first start len small e none_reached rest inside =
      let same_bump : n ≡ add32 n 0 = omega arith in
      from_merge (record (first_flow fs n src) { rx_ooo_start = start; rx_ooo_len = len }) 0 e
        (omega (arith, none_reached)) rest
        (subst
          (Advanced stream fs
            (record (first_flow fs n src) { rx_ooo_start = start; rx_ooo_len = len }))
          same_bump
          (kept_interval stream fs sane h n src short some_bytes fits same start len small inside))

  merge_nothing :
      fs.rx_ooo_len ≡ 0 → merge_ooo post seen (first_flow fs n src) ≡ some (first_flow fs n src, 0)
  unfolding merge_ooo
  merge_nothing e = let no_len : (fs.rx_ooo_len == 0) ≡ true = ground arith in rw no_len refl

  left_inside :
      0 < fs.rx_ooo_len
      → n ≤ ahead fs + fs.rx_ooo_len
      → (ahead fs ≤ n + sub32 trimmed_flow.rx_ooo_start (add32 fs.rx_next_seq n))
        × (n + sub32 trimmed_flow.rx_ooo_start (add32 fs.rx_next_seq n) + trimmed_flow.rx_ooo_len
            ≤ ahead fs + fs.rx_ooo_len)
  left_inside pos l =
      let window = h.fits pos in
      let size = nbytes_empty_lem (sane.ring) in
      let small = sane.ring.small in
      let next_small = sane.next_small in
      let start_small = sane.start_small in (omega arith, omega arith)

  none_here :
      0 < fs.rx_ooo_len
      → ¬ (ahead fs + fs.rx_ooo_len < n)
      → (ltb 0 trimmed_flow.rx_ooo_len && trimmed_flow.rx_ooo_start == trimmed_flow.rx_next_seq)
        ≡ false
      → (reached fs n ≡ 0) × (trimmed_flow.rx_ooo_len ≡ ooo_left fs n)
  none_here pos q e =
      let window = h.fits pos in
      let size = nbytes_empty_lem (sane.ring) in
      let small = sane.ring.small in
      let next_small = sane.next_small in
      let start_small = sane.start_small in (ground arith, ground arith)

  from_caught :
      0 < fs.rx_ooo_len
      → n ≤ ahead fs + fs.rx_ooo_len
      → 0 < trimmed_flow.rx_ooo_len
      → trimmed_flow.rx_ooo_start ≡ trimmed_flow.rx_next_seq
      → Delivered stream fs n (deliver post seen fs n src)
  from_caught pos l more e =
      let window = h.fits pos in
      let size = nbytes_empty_lem (sane.ring) in
      let small = sane.ring.small in
      let next_small = sane.next_small in
      let start_small = sane.start_small in
      let left = left_room in
      let reached : ahead fs ≤ n = omega arith in
      from_merge caught_flow trimmed_flow.rx_ooo_len
        (merge_keep pos l ∙ catch_all more e (omega arith)) (ground arith) (ground arith)
        (caught-Advanced pos reached l)

  -- Payload of `n` bytes, fewer than 2^16, that is next in order and fits the free room is delivered,
  -- without an abort, where the out-of-order interval has fewer than 2^16 bytes. It stands in the buffer
  -- from the producer's offset on, followed, if it reaches the interval, by all bytes of that behind it,
  -- as the peer sent them. The number expected next, the offset and the free room move by exactly as
  -- many bytes, and an interval that was reached is empty then; one that was not keeps its length and
  -- is still stored where the rest of the stream has it.
  pub deliver_lem : Delivered stream fs n (deliver post seen fs n src)
  deliver_lem = elim (dec_lt 0 fs.rx_ooo_len) [
    | no p ↦
        from_first fs.rx_ooo_start fs.rx_ooo_len sane.start_small (merge_nothing (omega arith))
          (ground arith) (ground arith) (λ q. absurd (omega (arith, p, q)))
    | yes p ↦ elim (dec_lt (ahead fs + fs.rx_ooo_len) n) [
      | yes q ↦
          from_first fs.rx_ooo_start 0 sane.start_small (merge_drop p q) (ground arith)
            (ground arith) (λ r. absurd (omega (arith, r)))
      | no q ↦
          elim (Bool-cases (
            ltb 0 trimmed_flow.rx_ooo_len
            && trimmed_flow.rx_ooo_start == trimmed_flow.rx_next_seq)) [
              | inl e ↦ from_caught p (omega arith) (ground arith) (ground arith)
              | inr e ↦
                  from_first trimmed_flow.rx_ooo_start trimmed_flow.rx_ooo_len (omega arith)
                    (merge_keep p (omega arith) ∙ catch_none e) (none_here p q e).0
                    (none_here p q e).1 (λ _. left_inside p (omega arith))
            ]
    ]
  ]
