-- ===== src/Flows/Receive.antt =====
-- The blocks of fast_flows_packet (tas_nic/fast/fast_flows.c) that change the flow: the
-- acknowledgement, the out-of-order interval, delivery in order, the RTT estimate and the FIN.
-- FLEXNIC_PL_OOO_RECV and ALLOW_FUTURE_ACKS are defined. A failed assertion aborts.
use tas_smartnic.Prelude.{
  ◌/◌, ◌*◌, false, true, ltb, ◌+◌, not, some, u32, ◌&&◌, ◌==◌, u16, add32, leb, none, sub32,
  if◌then◌else◌, Bool, Option, ℕ,
}
use tas_smartnic.Rdma.Ring.{nbytes_enqueued, nbytes_empty, try_dequeue}
use tas_smartnic.Rdma.Ops.{try_enqueue}
use tas_smartnic.Tcp.Window.{tcp_trim_rxbuf, tcp_valid_rxack}
use tas_smartnic.Flows.State.{Flow, Packet, tcp_max_rtt}
use tas_smartnic.Flows.Buffer.{flow_rx_write, flow_rx_seq_write, with_buffer}
use tas_smartnic.Flows.Send.{flow_reset_retransmit}

-- rq_try_dequeue of `n` bytes from the transmit buffer, where only 0 does not abort.
unfoldable pub release : Flow → ℕ → Option Flow
release fs n =
    let (status, _, tx') = try_dequeue fs.tx none n in
    if status == 0 then some (record fs { tx = tx' }) else none

-- The flow after an acknowledgement of `tx_bump` bytes.
unfoldable pub acknowledge : Flow → ℕ → Option Flow
acknowledge fs tx_bump =
    if leb tx_bump fs.tx_sent
    then elim (release fs tx_bump) [
      | none ↦ none
      | some fs' ↦ some (record fs' { tx_sent = sub32 fs.tx_sent tx_bump })
    ]
    else elim (release fs (sub32 tx_bump fs.tx_sent)) [
      | none ↦ none
      | some fs' ↦ some (record fs' {
        tx_next_seq = add32 fs.tx_next_seq (sub32 tx_bump fs.tx_sent);
        tx_sent = 0;
      })
    ]

-- The counters for congestion control.
unfoldable pub count_ack : Flow → ℕ → Bool → Flow
count_ack fs tx_bump ece = record fs {
  cnt_rx_ack_bytes = add32 fs.cnt_rx_ack_bytes tx_bump;
  cnt_rx_ecn_bytes = if ece then add32 fs.cnt_rx_ecn_bytes tx_bump else fs.cnt_rx_ecn_bytes;
}

-- Duplicate acknowledgements: the flow, and whether the third one ends the processing.
unfoldable pub count_dupack : Flow → ℕ → ℕ → Flow × Bool
count_dupack fs tx_bump orig_payload =
    let fs' : Flow = record fs { rx_dupack_cnt = add32 fs.rx_dupack_cnt 1 } in
    if not (tx_bump == 0)
    then (record fs { rx_dupack_cnt = 0 }, false)
    else if orig_payload == 0
    then if leb 3 fs'.rx_dupack_cnt then (flow_reset_retransmit fs', true) else (fs', false)
    else (fs, false)

-- A packet whose flags were accepted, up to the test of its sequence number: the flow, `tx_bump`, and
-- whether the code goes on to `unlock`.
unfoldable pub process_ack : Flow → Packet → ℕ → Option (Flow × ℕ × Bool)
process_ack fs p orig_payload =
    let counted : Flow = record fs { cnt_rx_acks = u16 (fs.cnt_rx_acks + 1) } in
    if not p.flag_ack
    then some (fs, 0, false)
    else elim (tcp_valid_rxack fs.tx_next_seq fs.tx_sent (u32 (nbytes_enqueued fs.tx)) p.ackno) [
      | none ↦ some (counted, 0, false)
      | some tx_bump ↦ elim (acknowledge (count_ack counted tx_bump p.flag_ece) tx_bump) [
        | none ↦ none
        | some fs' ↦
            let (fs'', stop) = count_dupack fs' tx_bump orig_payload in some (fs'', tx_bump, stop)
      ]
    ]

-- A segment with payload that is not the next one.
unfoldable pub out_of_order : Flow → ℕ → ℕ → (ℕ → ℕ) → Flow
out_of_order fs seq payload_bytes payload =
    let written : Flow = flow_rx_seq_write fs seq payload_bytes payload in
    if fs.rx_ooo_len == 0
    then record written { rx_ooo_start = seq; rx_ooo_len = payload_bytes }
    else if add32 seq payload_bytes == fs.rx_ooo_start
    then record written { rx_ooo_start = seq; rx_ooo_len = add32 fs.rx_ooo_len payload_bytes }
    else if add32 fs.rx_ooo_start fs.rx_ooo_len == seq
    then record written { rx_ooo_len = add32 fs.rx_ooo_len payload_bytes }
    else fs

-- "update rtt estimate"
unfoldable pub update_rtt : Flow → Packet → ℕ → Flow
update_rtt fs p ts =
    let rtt : ℕ = sub32 ts p.ts_ecr in
    record fs {
      tx_next_ts = p.ts_val;
      rx_remote_avail = p.wnd;
      rtt_est =
          if p.flag_ack && not (p.ts_ecr == 0) && ltb rtt tcp_max_rtt
          then if fs.rtt_est == 0 then rtt else u32 (fs.rtt_est * 7 + rtt) / 8
          else fs.rtt_est;
    }

-- The FIN: the flow, and `fin_bump`.
unfoldable pub process_fin : Flow → Packet → ℕ → Flow × Bool
process_fin fs p orig_payload =
    if p.flag_fin
      && not fs.rx_fin
      && fs.rx_next_seq == add32 p.seqno orig_payload
      && fs.rx_ooo_len == 0
    then (record fs { rx_fin = true; rx_next_seq = add32 fs.rx_next_seq 1 }, true)
    else (fs, false)

module _ (post : ℕ → ℕ) (seen : ℕ → ℕ) where
  -- The out-of-order interval after a delivery, cut to the receive window: the flow and the bytes
  -- that became contiguous.
  unfoldable pub catch_up : Flow → Option (Flow × ℕ)
  catch_up fs =
      let (status, rx') = try_enqueue post seen none fs.rx_ooo_len fs.rx in
      if ltb 0 fs.rx_ooo_len && fs.rx_ooo_start == fs.rx_next_seq
      then if elim status [ none ↦ false | some n ↦ n == 0 ]
        then some (
          record fs { rx = rx'; rx_next_seq = add32 fs.rx_next_seq fs.rx_ooo_len; rx_ooo_len = 0 },
          fs.rx_ooo_len,
        )
        else none
      else some (fs, 0)

  unfoldable pub merge_ooo : Flow → Option (Flow × ℕ)
  merge_ooo fs =
      if fs.rx_ooo_len == 0
      then some (fs, 0)
      else elim (tcp_trim_rxbuf fs.rx_next_seq (nbytes_empty fs.rx.queue) fs.rx_ooo_start
          fs.rx_ooo_len) [
            | none ↦ some (record fs { rx_ooo_len = 0 }, 0)
            | some t ↦ catch_up (record fs {
              rx_ooo_start = add32 fs.rx_ooo_start t.trim_start;
              rx_ooo_len = sub32 fs.rx_ooo_len (t.trim_start + t.trim_end);
            })
          ]

  -- Payload in order: the flow and `rx_bump`. A flush that fails in rq_try_enqueue is printed only.
  unfoldable pub deliver : Flow → ℕ → (ℕ → ℕ) → Option (Flow × ℕ)
  deliver fs payload_bytes payload =
      let q = fs.rx.queue in
      let written : Flow =
        with_buffer fs (flow_rx_write q (u32 q.tx_offset) (u16 payload_bytes) payload) in
      let (status, rx') = try_enqueue post seen none payload_bytes written.rx in
      if leb payload_bytes (nbytes_empty q) && elim status [ none ↦ true | some n ↦ n == 0 ]
      then elim (merge_ooo
          (record fs { rx = rx'; rx_next_seq = add32 fs.rx_next_seq payload_bytes })) [
            | none ↦ none
            | some (fs', merged) ↦ some (fs', add32 payload_bytes merged)
          ]
      else none
