-- ===== src/Flows/State.antt =====
-- The state of a flow (struct flextcp_pl_flowst of include/tas_memif.h), the packets, and what the
-- routines of tas_nic/fast/fast_flows.c ask of the rest of the data path. A flow's spin lock is held
-- through each routine, so a routine is one step. Routines that abort return `none`.
use tas_smartnic.Prelude.{sub32, u32, ℕ, Bool, Option}
use tas_smartnic.Rdma.Ring.{Queue, nbytes_enqueued}
use tas_smartnic.Rdma.Verbs.{Side}
use tas_smartnic.Tcp.Window.{tcp_txavail}

-- struct flextcp_pl_flowst; `rx_flags` is a field for each flag. This side fills the queue `rx`, with
-- its peer's memory, and empties the queue `tx`.
pub record Flow : Type 0 where
  pub opaque : ℕ
  pub rx : Side
  pub slowpath : Bool
  pub ecn : Bool
  pub tx_fin : Bool
  pub rx_fin : Bool
  pub tx : Queue
  pub local_ip : ℕ
  pub remote_ip : ℕ
  pub local_port : ℕ
  pub remote_port : ℕ
  pub remote_mac : ℕ
  pub db_id : ℕ
  pub flow_group : ℕ
  pub bump_seq : ℕ
  pub rx_next_seq : ℕ
  pub rx_remote_avail : ℕ
  pub rx_dupack_cnt : ℕ
  pub rx_ooo_start : ℕ
  pub rx_ooo_len : ℕ
  pub tx_sent : ℕ
  pub tx_next_seq : ℕ
  pub tx_next_ts : ℕ
  pub tx_rate : ℕ
  pub cnt_tx_drops : ℕ
  pub cnt_rx_acks : ℕ
  pub cnt_rx_ack_bytes : ℕ
  pub cnt_rx_ecn_bytes : ℕ
  pub rtt_est : ℕ

-- A received packet: the header fields that are read, with TCPH_HDRLEN in `hdrlen`, and its bytes.
-- `other_flags` are RST and URG; `ts_val` and `ts_ecr` are those of the timestamp option.
pub record Packet : Type 0 where
  pub eth_src : ℕ
  pub eth_dest : ℕ
  pub ip_src : ℕ
  pub ip_dest : ℕ
  pub ip_len : ℕ
  pub ip_ce : Bool
  pub src_port : ℕ
  pub dest_port : ℕ
  pub seqno : ℕ
  pub ackno : ℕ
  pub wnd : ℕ
  pub hdrlen : ℕ
  pub flag_fin : Bool
  pub flag_syn : Bool
  pub flag_ack : Bool
  pub flag_ece : Bool
  pub other_flags : Bool
  pub ts_val : ℕ
  pub ts_ecr : ℕ
  pub bytes : ℕ → ℕ

-- A packet handed to tx_send, with its length there. `flag_psh` and so on are its TCP flags.
pub record Segment : Type 0 where
  pub eth_src : ℕ
  pub eth_dest : ℕ
  pub ip_src : ℕ
  pub ip_dest : ℕ
  pub ip_len : ℕ
  pub ip_ect : Bool
  pub src_port : ℕ
  pub dest_port : ℕ
  pub seqno : ℕ
  pub ackno : ℕ
  pub wnd : ℕ
  pub hdrlen : ℕ
  pub flag_psh : Bool
  pub flag_fin : Bool
  pub flag_ece : Bool
  pub ts_val : ℕ
  pub ts_ecr : ℕ
  pub payload : ℕ → ℕ
  pub payload_len : ℕ
  pub length : ℕ

-- Calls of other parts, in the order of the code: qman_set with QMAN_ADD_AVAIL or with
-- QMAN_SET_AVAIL, the forwarding of a flow to another core, arx_cache_add and tx_send. The
-- forwarding includes the wake-up of that core; its ring is taken not to be full (the source aborts).
pub data Action : Type 0 where
  add_avail : (rate avail max_chunk : ℕ) → Action
  set_avail : (rate avail max_chunk : ℕ) → Action
  forward : (core : ℕ) → Action
  arx_cache_add : (db_id opaque rx_bump rx_pos tx_bump : ℕ) → (rx_done : Bool) → Action
  tx_send : Segment → Action

-- TCP_MSS and TCP_MAX_RTT
abbrev pub tcp_mss : ℕ
tcp_mss = 1448

abbrev pub tcp_max_rtt : ℕ
tcp_max_rtt = 100000

-- tcp_txavail on a flow.
abbrev pub txavail : Flow → Option ℕ → ℕ
txavail fs pavail = tcp_txavail (u32 (nbytes_enqueued fs.tx)) fs.rx_remote_avail fs.tx_sent pavail

-- The first byte that the peer has not acknowledged.
abbrev pub snd_una : Flow → ℕ
snd_una fs = sub32 fs.tx_next_seq fs.tx_sent
