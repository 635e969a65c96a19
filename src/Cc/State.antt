-- ===== src/Cc/State.antt =====
-- The state of tas_nic/slow/cc.c: what it reads of `config` and of the flow's counters, and what it
-- keeps in a connection. The three algorithms share the memory of a union in the source; here each
-- has a field of its own, since the algorithm is never changed.
use tas_smartnic.Prelude.{ℕ, Bool}

-- enum config_cc_algorithm; `unknown` is any other number.
pub data Algorithm : Type 0 where
  dctcp_win dctcp_rate const_rate timely unknown : Algorithm

-- The part of struct configuration that cc.c reads.
pub record Config : Type 0 where
  pub tcp_rtt_init : ℕ
  pub tcp_link_bw : ℕ
  pub cc_algorithm : Algorithm
  pub cc_control_granularity : ℕ
  pub cc_control_interval : ℕ
  pub cc_rexmit_ints : ℕ
  pub cc_dctcp_weight : ℕ
  pub cc_dctcp_init : ℕ
  pub cc_dctcp_step : ℕ
  pub cc_dctcp_mimd : ℕ
  pub cc_dctcp_min : ℕ
  pub cc_dctcp_minpkts : ℕ
  pub cc_const_rate : ℕ
  pub cc_timely_tlow : ℕ
  pub cc_timely_thigh : ℕ
  pub cc_timely_step : ℕ
  pub cc_timely_init : ℕ
  pub cc_timely_alpha : ℕ
  pub cc_timely_beta : ℕ
  pub cc_timely_min_rtt : ℕ
  pub cc_timely_min_rate : ℕ

-- struct nicif_connection_stats
pub record Stats : Type 0 where
  pub c_drops : ℕ
  pub c_acks : ℕ
  pub c_ackb : ℕ
  pub c_ecnb : ℕ
  pub txp : Bool
  pub rtt : ℕ

-- struct connection_cc_dctcp_win
pub record DctcpWin : Type 0 where
  pub ecn_rate : ℕ
  pub window : ℕ
  pub slowstart : Bool

-- struct connection_cc_dctcp_rate
pub record DctcpRate : Type 0 where
  pub unproc_acks : ℕ
  pub unproc_ackb : ℕ
  pub unproc_ecnb : ℕ
  pub unproc_drops : ℕ
  pub ecn_rate : ℕ
  pub act_rate : ℕ
  pub slowstart : Bool

-- struct connection_cc_timely; `rtt_diff` is the bit pattern of an int32_t.
pub record Timely : Type 0 where
  pub rtt_prev : ℕ
  pub rtt_diff : ℕ
  pub hai_cnt : ℕ
  pub act_rate : ℕ
  pub last_ts : ℕ
  pub slowstart : Bool

-- The fields of struct connection that cc.c reads or writes: `opened` says whether the status is
-- CONN_OPEN, and `tx_size` is tx->buffer_size.
pub record Conn : Type 0 where
  pub opened : Bool
  pub flow_id : ℕ
  pub flow_group : ℕ
  pub tx_size : ℕ
  pub cc_last_ts : ℕ
  pub cc_rtt : ℕ
  pub cc_last_drops : ℕ
  pub cc_last_acks : ℕ
  pub cc_last_ackb : ℕ
  pub cc_last_ecnb : ℕ
  pub cc_rate : ℕ
  pub cc_rexmits : ℕ
  pub win : DctcpWin
  pub rate : DctcpRate
  pub timely : Timely
  pub cnt_tx_pending : ℕ
  pub ts_tx_pending : ℕ

-- struct kernel_statistics
pub record KernelStatistics : Type 0 where
  pub drops : ℕ
  pub kernel_rexmit : ℕ
  pub ecn_marked : ℕ
  pub acks : ℕ
