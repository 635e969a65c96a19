-- ===== src/Tcp/Window.antt =====
-- tcp_valid_rxseq, tcp_trim_rxbuf, tcp_valid_rxack and tcp_txavail of tas_nic/fast/tcp_common.h.
-- The flow state enters by the fields that are read: `next_seq` is `fs->rx_next_seq`, `avail` is
-- rq_nbytes_empty(fs->rx), `enqueued` is rq_nbytes_enqueued(fs->tx). `pkt_bytes` is taken in 16 bits, and
-- `trim_start` and `trim_end` are stored in 16 bits.
use tas_smartnic.Prelude.{
  ℕ, Option, none, some, ◌&&◌, ◌||◌, ltb, leb, if◌then◌else◌, add32, sub32, u16,
}

pub record Trimmed : Type 0 where
  pub trim_start : ℕ
  pub trim_end : ℕ

abbrev pub trimmed : ℕ → ℕ → Option Trimmed
trimmed s e = some (record { trim_start = u16 s; trim_end = u16 e })

-- The body of tcp_valid_rxseq, for the packet [pa, pb) and the buffer [sa, sb).
unfoldable pub valid_interval : ℕ → ℕ → ℕ → ℕ → Option Trimmed
valid_interval pa pb sa sb =
    let cut : ℕ = if ltb sb pb then sub32 pb sb else 0 in
    if leb pa pb && leb sa sb
    then if ltb pb sa then none else if ltb sa pa then none else trimmed (sub32 sa pa) cut
    else if leb pa pb && ltb sb sa
    then if leb sb pa && ltb pb sa
      then none
      else if ltb sa pa || ltb pa sb
      then none
      else trimmed (sub32 sa pa) 0
    else if ltb pb pa && leb sa sb
    then if ltb pb sa then none else if ltb sa pa then none else trimmed (sub32 sa pa) cut
    else if ltb sa pa
    then none
    else trimmed (sub32 sa pa) cut

-- tcp_valid_rxseq; `none` is -1.
unfoldable pub tcp_valid_rxseq : ℕ → ℕ → ℕ → ℕ → Option Trimmed
tcp_valid_rxseq next_seq avail pkt_seq pkt_bytes =
    valid_interval pkt_seq (add32 pkt_seq (u16 pkt_bytes)) next_seq (add32 next_seq avail)

-- The body of tcp_trim_rxbuf.
unfoldable pub trim_interval : ℕ → ℕ → ℕ → ℕ → Option Trimmed
trim_interval pa pb sa sb =
    let head : ℕ = if ltb pa sa then sub32 sa pa else 0 in
    let tail : ℕ = if ltb sb pb then sub32 pb sb else 0 in
    if leb pa pb && leb sa sb
    then if ltb pb sa then none else if ltb sb pa then none else trimmed head tail
    else if leb pa pb && ltb sb sa
    then if ltb sb pa && ltb pb sa
      then none
      else trimmed (if ltb sb pa && ltb pa sa then sub32 sa pa else 0)
          (if leb sb pb && ltb pb sa then sub32 pb sb else 0)
    else if ltb pb pa && leb sa sb
    then if ltb sb pa && ltb pb sa
      then none
      else trimmed (if leb sa pb || ltb pa sa then sub32 sa pa else 0)
          (if ltb sb pb || leb pa sa then sub32 pb sb else 0)
    else trimmed head tail

-- tcp_trim_rxbuf; `none` is -1.
unfoldable pub tcp_trim_rxbuf : ℕ → ℕ → ℕ → ℕ → Option Trimmed
tcp_trim_rxbuf next_seq avail pkt_seq pkt_bytes =
    trim_interval pkt_seq (add32 pkt_seq (u16 pkt_bytes)) next_seq (add32 next_seq avail)

-- tcp_valid_rxack, with ALLOW_FUTURE_ACKS: the bytes acknowledged, or `none` for -1.
unfoldable pub tcp_valid_rxack : ℕ → ℕ → ℕ → ℕ → Option ℕ
tcp_valid_rxack tx_next_seq tx_sent enqueued ack =
    let fsack_a : ℕ = sub32 tx_next_seq tx_sent in
    let fsack_b : ℕ = add32 tx_next_seq enqueued in
    if leb fsack_a fsack_b
    then if ltb ack fsack_a || ltb fsack_b ack then none else some (sub32 ack fsack_a)
    else if ltb ack fsack_a && ltb fsack_b ack
    then none
    else some (sub32 ack fsack_a)

-- tcp_txavail, for a pointer `pavail` that may be NULL.
unfoldable pub tcp_txavail : ℕ → ℕ → ℕ → Option ℕ → ℕ
tcp_txavail enqueued rx_remote_avail tx_sent pavail =
    let buf_avail : ℕ = elim pavail [ none ↦ enqueued | some n ↦ n ] in
    let fc_avail : ℕ = sub32 rx_remote_avail tx_sent in
    if ltb fc_avail buf_avail then fc_avail else buf_avail
