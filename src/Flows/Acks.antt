-- ===== src/Flows/Acks.antt =====
-- Acknowledgements, RTT samples, the FIN and queue bumps in tas_nic/fast/fast_flows.c.
use tas_smartnic.Prelude.{
  Bool, ◌&&◌, min, ◌%◌, max, true, sub32, leb_false→lt, leb→le, false, Bool-cases, add32, leb,
  through_int, u32, ◌-◌, ltb, ◌^◌, ◌≤◌, Option, ◌+◌, ◌≡◌, ◌<◌, if◌then◌else◌, ℕ, arith, refl, inl,
  inr, some, none,
}
use tas_smartnic.Rdma.Ring.{next_offset, Queue, nbytes_enqueued, try_dequeue}
use tas_smartnic.Rdma.Bounds.{gap, next_offset_lem}
use tas_smartnic.Tcp.Window.{tcp_valid_rxack}
use tas_smartnic.Flows.State.{Flow, Packet, snd_una, tcp_max_rtt}
use tas_smartnic.Flows.Send.{bump_is_stale, flow_reset_retransmit}
use tas_smartnic.Flows.Receive.{release, acknowledge, count_dupack, update_rtt}

-- Where the bytes end that the consumer of a queue may take.
abbrev pub end_offset : Queue → ℕ
end_offset q = if q.paired then q.tx_offset else q.flush_offset

-- A transmit queue: below 2^31 bytes, with its offsets inside.
pub record IsInbound (q : Queue) : Type 0 where
  pub small : q.buffer_size < 2 ^ 31
  pub rx_in : q.rx_offset ≤ q.buffer_size
  pub end_in : end_offset q ≤ q.buffer_size

nbytes_enqueued_lem :
    {q : Queue} → IsInbound q → nbytes_enqueued q ≡ gap q.buffer_size q.rx_offset (end_offset q)
unfolding nbytes_enqueued
nbytes_enqueued_lem v = ground (arith, v.small, v.rx_in, v.end_in)

enqueued_small : {q : Queue} → IsInbound q → nbytes_enqueued q ≤ q.buffer_size
enqueued_small v = ground (arith, nbytes_enqueued_lem v, v.small, v.rx_in, v.end_in)

-- The queue without its `n` oldest bytes.
abbrev pub Shorter : ℕ → Queue → Queue → Type 0
Shorter n q q' = IsInbound q' × (nbytes_enqueued q' + n ≡ nbytes_enqueued q)

module _ (fs : Flow) (v : IsInbound fs.tx) (n : ℕ) (h : n ≤ nbytes_enqueued fs.tx) where
  abbrev advanced : Queue
  advanced = record (fs.tx) { rx_offset = next_offset fs.tx fs.tx.rx_offset n }

  release-advanced : release fs n ≡ some (record fs { tx = advanced })
  unfolding release try_dequeue
  release-advanced =
      let enough : ltb (through_int (nbytes_enqueued fs.tx)) n ≡ false =
        ground (arith, nbytes_enqueued_lem v, v.small, v.rx_in, v.end_in) in
      rw enough refl

  advanced-Shorter : Shorter n (fs.tx) advanced
  advanced-Shorter =
      let e =
        next_offset_lem fs.tx fs.tx.rx_offset n v.small v.rx_in
          (omega (arith, enqueued_small v, v.small)) in
      let inbound : IsInbound advanced = record {
        small = v.small;
        rx_in = ground (arith, nbytes_enqueued_lem v, v.small, v.rx_in, v.end_in);
        end_in = v.end_in;
      } in
      (
        inbound,
        ground
            (arith, nbytes_enqueued_lem v, nbytes_enqueued_lem inbound, v.small, v.rx_in, v.end_in),
      )

-- How many bytes an acknowledgement of `tx_bump` bytes takes from the transmit queue.
abbrev pub taken : Flow → ℕ → ℕ
taken fs tx_bump = if leb tx_bump fs.tx_sent then tx_bump else tx_bump - fs.tx_sent

-- Whether it covers bytes in flight only, and more of them than the transmit queue holds.
abbrev pub overdrawn : Flow → ℕ → Bool
overdrawn fs tx_bump = leb tx_bump fs.tx_sent && ltb (nbytes_enqueued fs.tx) tx_bump

release-fails :
    (fs : Flow) (n : ℕ) → IsInbound fs.tx → nbytes_enqueued fs.tx < n → release fs n ≡ none
unfolding release try_dequeue
release-fails fs n v h =
    let short : ltb (through_int (nbytes_enqueued fs.tx)) n ≡ true =
      ground (arith, nbytes_enqueued_lem v, v.small, v.rx_in, v.end_in) in
    rw short refl

-- What an acknowledgement of `ack`, `tx_bump` bytes beyond the first unacknowledged number, leaves.
abbrev pub Acked : Flow → ℕ → ℕ → Option Flow → Type 0
Acked fs tx_bump ack none = ⊥
Acked fs tx_bump ack (some fs') =
    (snd_una fs' ≡ ack)
    × (fs'.tx_sent ≡ fs.tx_sent - tx_bump)
    × Shorter (taken fs tx_bump) (fs.tx) (fs'.tx)

module _ (fs : Flow) (v : IsInbound fs.tx) (ack tx_bump : ℕ)
    (sum_small : fs.tx_sent + nbytes_enqueued fs.tx < 2 ^ 32) (next_small : fs.tx_next_seq < 2 ^ 32)
    (ack_small : ack < 2 ^ 32)
    (valid : tcp_valid_rxack fs.tx_next_seq fs.tx_sent (u32 (nbytes_enqueued fs.tx)) ack
      ≡ some tx_bump) where
  bump_bounds : (tx_bump ≤ fs.tx_sent + nbytes_enqueued fs.tx) × (add32 (snd_una fs) tx_bump ≡ ack)
  unfolding tcp_valid_rxack
  bump_bounds =
      (ground (arith, enqueued_small v, v.small), ground (arith, enqueued_small v, v.small))

  refused : overdrawn fs tx_bump ≡ true → acknowledge fs tx_bump ≡ none
  unfolding acknowledge
  refused e =
      let within : leb tx_bump fs.tx_sent ≡ true = ground arith in
      rw (within, release-fails fs tx_bump v (ground arith)) refl

  covered : overdrawn fs tx_bump ≡ false → Acked fs tx_bump ack (acknowledge fs tx_bump)
  unfolding acknowledge
  covered held =
      let bounds = bump_bounds in
      let size = enqueued_small v in
      let small = v.small in
      elim (Bool-cases (leb tx_bump fs.tx_sent)) [
        | inl e ↦
            let enough : tx_bump ≤ nbytes_enqueued fs.tx = ground arith in
            let l = leb→le _ _ e in
            rw (e, release-advanced fs v tx_bump (omega arith))
              (omega arith, omega arith, rw e (advanced-Shorter fs v tx_bump (omega arith)))
        | inr e ↦
            let l = leb_false→lt _ _ e in
            let n : sub32 tx_bump fs.tx_sent ≡ tx_bump - fs.tx_sent = omega arith in
            rw (e, n, release-advanced fs v (tx_bump - fs.tx_sent) (omega arith))
              (
                omega arith,
                omega arith,
                rw e (advanced-Shorter fs v (tx_bump - fs.tx_sent) (omega arith)),
              )
      ]

  -- A valid acknowledgement, with fewer than 2^32 bytes in flight and in the transmit queue together,
  -- aborts exactly if it covers bytes in flight only and more of them than the transmit queue holds, so
  -- it can only where more bytes are in flight than that. Otherwise `ack` is the first
  -- unacknowledged number afterwards, whether it covers bytes in flight only or reaches beyond them.
  -- The transmit queue loses the acknowledged bytes in the first case, but in the second only those
  -- beyond the bytes that were in flight, which are forgotten and stay in the queue.
  pub acknowledge_lem :
      if overdrawn fs tx_bump
      then (acknowledge fs tx_bump ≡ none)
      else Acked fs tx_bump ack (acknowledge fs tx_bump)
  acknowledge_lem = elim (Bool-cases (overdrawn fs tx_bump)) [
    | inl over ↦ rw over (refused over)
    | inr held ↦ rw held (covered held)
  ]

-- From a count of 0, three acknowledgements in a row that acknowledge nothing and carry no payload start a
-- retransmission, and no fewer do.
pub dupacks_retransmit :
    (fs : Flow)
    → let (fs1, stop1) = count_dupack (record fs { rx_dupack_cnt = 0 }) 0 0 in
      let (fs2, stop2) = count_dupack fs1 0 0 in
      let (fs3, stop3) = count_dupack fs2 0 0 in
      (stop1 ≡ false) × (stop2 ≡ false) × (stop3 ≡ true) × (fs3 ≡ flow_reset_retransmit fs)
unfolding count_dupack flow_reset_retransmit
dupacks_retransmit fs = (refl, refl, refl, refl)

-- An RTT sample keeps the estimate below TCP_MAX_RTT, and between the old estimate and the sample.
pub update_rtt_bounds :
    (fs : Flow) (p : Packet) (ts : ℕ)
    → fs.rtt_est < tcp_max_rtt
    → let est = (update_rtt fs p ts).rtt_est in
      (est < tcp_max_rtt)
      × (est ≤ max fs.rtt_est (sub32 ts p.ts_ecr))
      × (min fs.rtt_est (sub32 ts p.ts_ecr) ≤ est)
unfolding update_rtt
update_rtt_bounds fs p ts h = (ground arith, ground arith, ground arith)

-- How far a bump's number is beyond the last one's, modulo 2^16.
abbrev pub bump_distance : ℕ → ℕ → ℕ
bump_distance fs_seq bump_seq = (bump_seq + 65536 - fs_seq) % 65536

-- A bump that fast_flows_bump accepts as in order is at most 32770 numbers beyond the last one, and
-- each that is at most 16383 beyond it is accepted, also where the numbers wrap round.
pub bump_is_stale_lem :
    (fs_seq bump_seq : ℕ)
    → fs_seq < 65536
    → bump_seq < 65536
    → ((bump_is_stale fs_seq bump_seq ≡ false) → bump_distance fs_seq bump_seq ≤ 32770)
      × (bump_distance fs_seq bump_seq ≤ 16383 → bump_is_stale fs_seq bump_seq ≡ false)
unfolding bump_is_stale
bump_is_stale_lem fs_seq bump_seq h k = (λ e. ground arith, λ d. ground arith)
