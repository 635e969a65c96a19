-- ===== src/Flows/InOrder.antt =====
-- A packet with the next bytes, from the test of its sequence number in fast_flows_packet
-- (tas_nic/fast/fast_flows.c) to the label `unlock`.
use tas_smartnic.Prelude.{
  ◌∙◌, ltb, ◌==◌, ◌-◌, add32, sub32, lt→ltb, ◌+◌, true, false, ◌≡◌, ◌^◌, ◌≤◌, ◌<◌, Option, ℕ, arith,
  refl, some, none,
}
use tas_smartnic.Rdma.Ring.{shift, nbytes_empty}
use tas_smartnic.Tcp.Window.{tcp_trim_rxbuf}
use tas_smartnic.Flows.State.{Flow, Packet}
use tas_smartnic.Flows.Receive.{deliver, update_rtt, process_fin}
use tas_smartnic.Flows.Packet.{Locals, payload_off, payload_length, in_order, process_payload}
use tas_smartnic.Flows.Ring.{nbytes_empty_lem}
use tas_smartnic.Flows.Overlap.{trim_behind}
use tas_smartnic.Flows.Reassembly.{IsSane, Holds}
use tas_smartnic.Flows.Delivery.{Advanced, Delivered, reached, ooo_left}
use tas_smartnic.Flows.Merging.{deliver_lem}

-- What fast_flows_packet has at `unlock` when `n` bytes were delivered, and with them the out-of-order
-- bytes that they reach.
abbrev pub Accepted : (ℕ → ℕ) → Flow → ℕ → ℕ → Option Locals → Type 0
Accepted stream fs n tx_bump none = ⊥
Accepted stream fs n tx_bump (some l) =
    (l.rx_bump ≡ n + reached fs n)
    × (l.flow.rx_ooo_len ≡ ooo_left fs n)
    × Advanced stream fs (l.flow) l.rx_bump
    × (l.tx_bump ≡ tx_bump)
    × (l.fin_bump ≡ false)
    × (l.trigger_ack ≡ true)

module _ (post seen : ℕ → ℕ) (stream : ℕ → ℕ) (fs : Flow) (p : Packet) (tx_bump ts : ℕ)
    (sane : IsSane fs) (h : Holds stream fs) (len_small : fs.rx_ooo_len < 2 ^ 16)
    (open_end : fs.rx_fin ≡ false) (no_fin : p.flag_fin ≡ false) (short : payload_length p < 2 ^ 16)
    (some_bytes : 0 < payload_length p) (fits : payload_length p ≤ nbytes_empty fs.rx.queue)
    (same : (i : ℕ) → i < payload_length p → p.bytes (payload_off p + i) ≡ stream i) where
  updated-IsSane : IsSane (update_rtt fs p ts)
  unfolding update_rtt
  updated-IsSane = record {
    ring = sane.ring;
    next_small = sane.next_small;
    start_small = sane.start_small;
  }

  updated-Holds : Holds stream (update_rtt fs p ts)
  unfolding update_rtt
  updated-Holds = record { fits = h.fits; held = h.held }

  still_open : (update_rtt fs p ts).rx_fin ≡ false
  unfolding update_rtt
  still_open = open_end

  from_updated :
      (fs' : Flow) (bump : ℕ)
      → Advanced stream (update_rtt fs p ts) fs' bump
      → Advanced stream fs fs' bump
  unfolding update_rtt
  from_updated fs' bump a = record {
    next = a.next;
    delivered = a.delivered;
    slots = a.slots;
    room = a.room;
    sane = a.sane;
    rest = a.rest;
  }

  reached_same :
      payload_length p + reached (update_rtt fs p ts) (payload_length p)
      ≡ payload_length p + reached fs (payload_length p)
  unfolding update_rtt
  reached_same = refl

  left_same : ooo_left (update_rtt fs p ts) (payload_length p) ≡ ooo_left fs (payload_length p)
  unfolding update_rtt
  left_same = refl

  -- The payload of the packet, as the code addresses it without a trim.
  abbrev payload : ℕ → ℕ
  payload = shift p.bytes (payload_off p + 0)

  delivery :
      Delivered stream
        (update_rtt fs p ts)
        (payload_length p)
        (deliver post seen (update_rtt fs p ts) (payload_length p) payload)
  unfolding update_rtt
  delivery =
      deliver_lem post seen stream (update_rtt fs p ts) updated-IsSane updated-Holds
        (payload_length p) payload short some_bytes fits
        (λ i k.
          let there : payload_off p + 0 + i ≡ payload_off p + i = omega arith in
          rw there (same i k))
        len_small

  fin_kept : (fs' : Flow) (n : ℕ) → process_fin fs' p n ≡ (fs', false)
  unfolding process_fin
  fin_kept fs' n = rw no_fin refl

  after_delivery :
      (o : Option (Flow × ℕ))
      → Delivered stream (update_rtt fs p ts) (payload_length p) o
      → deliver post seen (update_rtt fs p ts) (payload_length p) payload ≡ o
      → Accepted stream fs
          (payload_length p)
          tx_bump
          (in_order post seen fs p (payload_length p) payload tx_bump ts)
  unfolding in_order
  after_delivery none d e = absurd d
  after_delivery (some (fs', bump)) (l, o, a) e =
      let no_end : (update_rtt fs p ts).rx_fin ≡ false = still_open in
      rw (e, no_end, lt→ltb _ _ some_bytes, fin_kept fs' (payload_length p))
        (
          l ∙ reached_same,
          o ∙ left_same,
          from_updated fs' bump a,
          refl,
          refl,
          rw (lt→ltb _ _ some_bytes) refl,
        )

  untrimmed :
      p.seqno ≡ fs.rx_next_seq
      → tcp_trim_rxbuf fs.rx_next_seq (nbytes_empty fs.rx.queue) p.seqno (payload_length p)
        ≡ some (record { trim_start = 0; trim_end = 0 })
  untrimmed e =
      let next_small = sane.next_small in
      let no_offset : sub32 p.seqno fs.rx_next_seq ≡ 0 = omega arith in
      let same_next : add32 fs.rx_next_seq 0 ≡ fs.rx_next_seq = omega arith in
      let room : nbytes_empty fs.rx.queue - 0 ≡ nbytes_empty fs.rx.queue = omega arith in
      let not_behind : ltb (0 + payload_length p) 0 ≡ false = ground arith in
      rw (same_next, room, no_offset, not_behind) at
        (trim_behind fs.rx_next_seq (nbytes_empty fs.rx.queue) p.seqno (payload_length p) 0
          sane.next_small (omega arith)
          (omega (arith, nbytes_empty_lem (sane.ring), sane.ring.small)) (omega arith) some_bytes
          short (omega arith) (omega arith))

  -- A packet without FIN on a flow that has seen none, whose payload starts at the number expected
  -- next, has fewer than 2^16 bytes and fits the free room, with an out-of-order interval of fewer than
  -- 2^16 bytes, is not dropped, does not abort and is acknowledged. It is delivered, and with it, if it
  -- reaches the out-of-order interval, all bytes of that behind it, as the peer sent them; `rx_bump` is
  -- exactly the number of both, and the interval is empty then. An interval that it does not reach
  -- keeps its length and its bytes.
  pub process_payload_lem :
      p.seqno ≡ fs.rx_next_seq
      → Accepted stream fs (payload_length p) tx_bump (process_payload post seen fs p tx_bump ts)
  unfolding process_payload
  process_payload_lem e =
      let next_small = sane.next_small in
      let in_place : (add32 p.seqno 0 == fs.rx_next_seq) ≡ true = ground arith in
      let whole : sub32 (payload_length p) (0 + 0) ≡ payload_length p = omega arith in
      rw (process_payload, untrimmed e, in_place, whole) (after_delivery _ delivery refl)
