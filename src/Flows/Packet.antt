-- ===== src/Flows/Packet.antt =====
-- fast_flows_packet of tas_nic/fast/fast_flows.c, put together from its blocks.
use tas_smartnic.Prelude.{
  ℕ, ◌+◌, ◌-◌, ◌*◌, Bool, true, false, not, ◌&&◌, ◌||◌, Option, some, none, List, [], ◌∷◌, ◌++◌,
  ltb, ◌==◌, if◌then◌else◌, add32, sub32, u32,
}
use tas_smartnic.Rdma.Ring.{shift, nbytes_empty}
use tas_smartnic.Rdma.Verbs.{nflush}
use tas_smartnic.Tcp.Window.{tcp_trim_rxbuf}
use tas_smartnic.Flows.State.{Flow, Packet, Action, arx_cache_add, tx_send, txavail}
use tas_smartnic.Flows.Send.{announce, flow_tx_ack}
use tas_smartnic.Flows.Receive.{process_ack, out_of_order, update_rtt, process_fin, deliver}

-- The flow and the local variables of fast_flows_packet at its label `unlock`.
pub record Locals : Type 0 where
  pub flow : Flow
  pub rx_bump : ℕ
  pub tx_bump : ℕ
  pub fin_bump : Bool
  pub trigger_ack : Bool

-- Its return value: -1 for the slow path, else `trigger_ack`.
pub data Verdict : Type 0 where
  slow_path : Verdict
  handled : (trigger_ack : Bool) → Verdict

-- `payload_off`, and `payload_bytes` as computed from the headers.
unfoldable pub payload_off : Packet → ℕ
payload_off p = 54 + (p.hdrlen - 5) * 4

unfoldable pub payload_length : Packet → ℕ
payload_length p = sub32 p.ip_len (40 + (p.hdrlen - 5) * 4)

module _ (post : ℕ → ℕ) (seen : ℕ → ℕ) where
  -- A segment in order: `payload_bytes` bytes of the `orig_payload` it carries can be used.
  unfoldable pub in_order : Flow → Packet → ℕ → (ℕ → ℕ) → ℕ → ℕ → Option Locals
  in_order fs p payload_bytes payload tx_bump ts =
      let orig_payload = payload_length p in
      let fs1 : Flow = update_rtt fs p ts in
      let delivered =
        if ltb 0 payload_bytes
        then deliver post seen fs1 payload_bytes payload
        else some (fs1, 0) in
      if fs1.rx_fin && ltb 0 payload_bytes
      then some (record {
        flow = fs1;
        rx_bump = 0;
        tx_bump = tx_bump;
        fin_bump = false;
        trigger_ack = ltb 0 orig_payload;
      })
      else elim delivered [
        | none ↦ none
        | some (fs2, rx_bump) ↦
            let (fs3, fin_bump) = process_fin fs2 p orig_payload in
            some (record {
              flow = fs3;
              rx_bump = rx_bump;
              tx_bump = tx_bump;
              fin_bump = fin_bump;
              trigger_ack = ltb 0 orig_payload || ltb 0 payload_bytes || fin_bump;
            })
      ]

  -- From the test of the sequence number to `unlock`.
  unfoldable pub process_payload : Flow → Packet → ℕ → ℕ → Option Locals
  process_payload fs p tx_bump ts =
      let stopped = λ (fs' : Flow). some (record {
        flow = fs';
        rx_bump = 0;
        tx_bump = tx_bump;
        fin_bump = false;
        trigger_ack = true;
      }) in
      elim (tcp_trim_rxbuf fs.rx_next_seq (nbytes_empty fs.rx.queue) p.seqno (payload_length p)) [
        | none ↦ stopped fs
        | some t ↦
            let n = sub32 (payload_length p) (t.trim_start + t.trim_end) in
            let payload = shift p.bytes (payload_off p + t.trim_start) in
            let seq = add32 p.seqno t.trim_start in
            if seq == fs.rx_next_seq
            then in_order fs p n payload tx_bump ts
            else stopped (if n == 0 then fs else out_of_order fs seq n payload)
      ]

  -- The flush and the notification of the application. The assertion wants all bytes flushed.
  unfoldable pub notify_application : Locals → ℕ → Option (Flow × List Action)
  notify_application l rx_pos =
      let fs = l.flow in
      let (flushed, rx') = nflush post seen l.rx_bump fs.rx in
      if not (l.rx_bump == 0) || not (l.tx_bump == 0) || l.fin_bump
      then if elim flushed [ none ↦ false | some n ↦ n == l.rx_bump ]
        then some (
          record fs { rx = rx' },
          arx_cache_add fs.db_id fs.opaque l.rx_bump rx_pos l.tx_bump l.fin_bump ∷ [],
        )
        else none
      else some (fs, [])

  -- From `unlock` on.
  unfoldable pub finish :
      Locals → Packet → (rx_pos old_avail ts : ℕ) → Option (Verdict × Flow × List Action)
  finish l p rx_pos old_avail ts = elim (notify_application l rx_pos) [
    | none ↦ none
    | some (fs, notified) ↦
        let ack =
          tx_send
            (flow_tx_ack p fs fs.tx_next_seq fs.rx_next_seq (u32 (nbytes_empty fs.rx.queue)) ts)
          ∷ [] in
        some (
          handled l.trigger_ack,
          fs,
          notified
              ++ announce fs old_avail (txavail fs none)
              ++ (if l.trigger_ack then ack else []),
        )
  ]

  -- A packet for the fast path.
  unfoldable pub process_packet : Flow → Packet → ℕ → Option (Verdict × Flow × List Action)
  process_packet fs p ts = elim (process_ack fs p (payload_length p)) [
    | none ↦ none
    | some (fs1, tx_bump, stop) ↦
        elim (if stop
          then some (record {
            flow = fs1;
            rx_bump = 0;
            tx_bump = tx_bump;
            fin_bump = false;
            trigger_ack = ltb 0 (payload_length p);
          })
          else process_payload fs1 p tx_bump ts) [
            | none ↦ none
            | some l ↦ finish l p (u32 fs.rx.queue.tx_offset) (txavail fs none) ts
          ]
  ]

  -- fast_flows_packet
  unfoldable pub fast_flows_packet : Flow → Packet → ℕ → Option (Verdict × Flow × List Action)
  fast_flows_packet fs p ts =
      let processed = process_packet fs p ts in
      if fs.slowpath || p.flag_syn || p.other_flags
      then some (slow_path, record fs { slowpath = fs.slowpath || not p.flag_syn }, [])
      else processed
