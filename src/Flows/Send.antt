-- ===== src/Flows/Send.antt =====
-- The sending half of tas_nic/fast/fast_flows.c: flow_tx_segment, flow_tx_ack,
-- flow_reset_retransmit, fast_flows_qman, fast_flows_qman_fwd, fast_flows_bump and
-- fast_flows_retransmit. The checksums are rte_ip's. `steering` is fp_state->flow_group_steering and
-- `mac` the NIC's address; `scratch` is what the packet buffer held.
use tas_smartnic.Prelude.{
  ◌++◌, [], ◌||◌, ◌∷◌, sub64, ◌/◌, ◌*◌, false, u32, not, ltb, ◌==◌, ◌-◌, true, some, leb, ◌&&◌,
  if◌then◌else◌, ◌+◌, List, none, min, add64, add32, u16, Bool, ℕ,
}
use tas_smartnic.Rdma.Ring.{nbytes_enqueued, nbytes_empty}
use tas_smartnic.Flows.State.{
  Flow, Packet, Segment, Action, add_avail, set_avail, forward, tx_send, tcp_mss, txavail,
}
use tas_smartnic.Flows.Buffer.{flow_tx_read}

-- flow_tx_segment: 14, 20 and 20 bytes of headers, and 12 of the timestamp option.
unfoldable pub flow_tx_segment :
    ℕ → (ℕ → ℕ) → Flow → (seq ack rxwnd payload payload_pos ts_my : ℕ) → Bool → Segment
flow_tx_segment mac scratch fs seq ack rxwnd payload payload_pos ts_my fin = record {
  eth_src = mac;
  eth_dest = fs.remote_mac;
  ip_src = fs.local_ip;
  ip_dest = fs.remote_ip;
  ip_len = u16 (52 + payload);
  ip_ect = fs.ecn;
  src_port = fs.local_port;
  dest_port = fs.remote_port;
  seqno = seq;
  ackno = ack;
  wnd = min 65535 rxwnd;
  hdrlen = 8;
  flag_psh = true;
  flag_fin = fin;
  flag_ece = false;
  ts_val = ts_my;
  ts_ecr = fs.tx_next_ts;
  payload = if ltb 0 payload then flow_tx_read fs.tx payload_pos payload scratch else scratch;
  payload_len = payload;
  length = u16 (66 + payload);
}

-- flow_tx_ack: the received packet turned into an acknowledgement.
unfoldable pub flow_tx_ack : Packet → Flow → (seq ack rxwnd ts_my : ℕ) → Segment
flow_tx_ack p fs seq ack rxwnd ts_my = record {
  eth_src = p.eth_dest;
  eth_dest = p.eth_src;
  ip_src = p.ip_dest;
  ip_dest = p.ip_src;
  ip_len = u16 (40 + (p.hdrlen - 5) * 4);
  ip_ect = false;
  src_port = p.dest_port;
  dest_port = p.src_port;
  seqno = seq;
  ackno = ack;
  wnd = min 65535 rxwnd;
  hdrlen = p.hdrlen;
  flag_psh = false;
  flag_fin = false;
  flag_ece = p.ip_ce;
  ts_val = ts_my;
  ts_ecr = fs.tx_next_ts;
  payload = p.bytes;
  payload_len = 0;
  length = u16 (54 + (p.hdrlen - 5) * 4);
}

-- flow_reset_retransmit
unfoldable pub flow_reset_retransmit : Flow → Flow
flow_reset_retransmit fs = record fs {
  rx_dupack_cnt = 0;
  rx_remote_avail = add32 fs.rx_remote_avail fs.tx_sent;
  tx_sent = 0;
  tx_rate = if fs.cnt_tx_drops == 0 then fs.tx_rate / 2 else fs.tx_rate;
  cnt_tx_drops = u16 (fs.cnt_tx_drops + 1);
}

-- Where fast_flows_qman starts to read the transmit buffer.
unfoldable pub send_offset : Flow → ℕ
send_offset fs =
    let off : ℕ = add64 fs.tx.rx_offset fs.tx_sent in
    if ltb fs.tx.buffer_size off then sub64 off fs.tx.buffer_size else off

-- fast_flows_qman behind its first test, with `avail` bytes to send: the flow with a segment of
-- `len` bytes counted as sent, and the segment, one byte shorter if it carries the FIN.
unfoldable pub send_next : ℕ → (ℕ → ℕ) → Flow → ℕ → ℕ → Flow × Segment
send_next mac scratch fs avail ts =
    let len = min avail tcp_mss in
    let fin = fs.tx_fin && ltb 0 (nbytes_enqueued fs.tx) in
    let fs' : Flow = record fs {
      tx_next_seq = add32 fs.tx_next_seq len;
      tx_sent = add32 fs.tx_sent len;
    } in
    (
      fs',
      flow_tx_segment mac scratch fs' fs.tx_next_seq fs.rx_next_seq (u32 (nbytes_empty fs.rx.queue))
          (if fin then len - 1 else len) (u32 (send_offset fs)) ts fin,
    )

-- fast_flows_qman on core `core`: whether it returns 0, the flow, and its calls.
unfoldable pub fast_flows_qman : (ℕ → ℕ) → ℕ → ℕ → (ℕ → ℕ) → Flow → ℕ → Bool × Flow × List Action
fast_flows_qman steering core mac scratch fs ts =
    let new_core : ℕ = steering fs.flow_group in
    let avail : ℕ = txavail fs none in
    if not (new_core == core)
    then (false, fs, forward new_core ∷ set_avail 0 0 0 ∷ [])
    else if avail == 0
    then (false, fs, [])
    else let (fs', seg) = send_next mac scratch fs avail ts in (true, fs', tx_send seg ∷ [])

-- fast_flows_qman_fwd
unfoldable pub fast_flows_qman_fwd : Flow → Action
fast_flows_qman_fwd fs = set_avail fs.tx_rate (txavail fs none) tcp_mss

-- The call of qman_set for what became available.
abbrev pub announce : Flow → ℕ → ℕ → List Action
announce fs old_avail new_avail =
    if ltb old_avail new_avail
    then add_avail fs.tx_rate (u32 (new_avail - old_avail)) tcp_mss ∷ []
    else []

-- The test of fast_flows_bump for bumps that are out of order.
unfoldable pub bump_is_stale : ℕ → ℕ → Bool
bump_is_stale fs_seq bump_seq =
    (leb fs_seq bump_seq && ltb 32767 (bump_seq - fs_seq))
    || (ltb bump_seq fs_seq && (ltb fs_seq 49149 || ltb 16383 bump_seq))

-- fast_flows_bump for a bump in order, behind the two tests of the FIN. `tx_bump` is what the second
-- one left.
unfoldable pub accept_bump : ℕ → (ℕ → ℕ) → Flow → ℕ → Bool → ℕ → Bool × Flow × List Action
accept_bump mac scratch fs tx_bump tx_done ts =
    let old_avail : ℕ = txavail fs (some (u32 (sub64 (nbytes_enqueued fs.tx) tx_bump))) in
    let new_avail : ℕ = txavail fs none in
    let fs' : Flow = record fs { tx_fin = fs.tx_fin || tx_done } in
    let window : ℕ = nbytes_empty fs.rx.queue in
    if new_avail == 0 && window == 0
    then (
      true,
      fs',
      announce fs' old_avail new_avail
          ++ (tx_send
                (flow_tx_segment mac scratch fs' fs.tx_next_seq fs.rx_next_seq window 0 0 ts false)
              ∷ []),
    )
    else (false, fs', announce fs' old_avail new_avail)

-- fast_flows_bump: whether it returns 0, the flow, and its calls. `tx_done` is FLEXTCP_PL_ATX_FLTXDONE.
unfoldable pub fast_flows_bump :
    ℕ → (ℕ → ℕ) → Flow → (bump_seq tx_bump : ℕ) → Bool → ℕ → Bool × Flow × List Action
fast_flows_bump mac scratch fs bump_seq tx_bump tx_done ts =
    let fs' : Flow = record fs { bump_seq = bump_seq } in
    if bump_is_stale fs.bump_seq bump_seq
    then (false, fs, [])
    else if fs.tx_fin && not (tx_bump == 0)
    then accept_bump mac scratch fs' 0 tx_done ts
    else if tx_done && not fs.tx_fin && tx_bump == 0
    then (false, fs', [])
    else accept_bump mac scratch fs' tx_bump tx_done ts

-- fast_flows_retransmit
unfoldable pub fast_flows_retransmit : Flow → Flow × List Action
fast_flows_retransmit fs =
    let fs' : Flow = flow_reset_retransmit fs in
    if fs.tx_sent == 0 then (fs, []) else (fs', announce fs' (txavail fs none) (txavail fs' none))
