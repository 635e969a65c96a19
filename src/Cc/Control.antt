-- ===== src/Cc/Control.antt =====
-- The control loop of tas_nic/slow/cc.c over its list of connections, retransmissions, and the sleep
-- of slowpath_block (tas_nic/slow/kernel.c). The chain through cc_next is a list of connections, each
-- named by a number. What nicif_connection_stats and nicif_connection_retransmit answer are parameters.
use tas_smartnic.Prelude.{
  ℕ, zero, suc, ◌+◌, ◌-◌, ◌/◌, ◌%◌, ◌^◌, Bool, ◌&&◌, not, Option, none, some, List, [], ◌∷◌, ◌++◌,
  ltb, leb, ◌==◌, if◌then◌else◌, add32, sub32, mul32, add64,
}
use tas_smartnic.Cc.State.{
  Algorithm, dctcp_win, dctcp_rate, const_rate, timely, unknown, Config, Stats, Conn,
  KernelStatistics,
}
use tas_smartnic.Cc.Dctcp.{
  rtt_or_init, dctcp_win_init, dctcp_win_update, dctcp_rate_init, dctcp_rate_update,
}
use tas_smartnic.Cc.Timely.{timely_init, timely_update}

-- Calls of nicif.
pub data Call : Type 0 where
  setrate : (flow_id rate : ℕ) → Call
  retransmit : (flow_id flow_group : ℕ) → Call

-- cc_conns, next_conn, last_ts and kstats, and the connections.
pub record State : Type 0 where
  pub conns : List ℕ
  pub conn : ℕ → Conn
  pub next_conn : Option ℕ
  pub last_ts : ℕ
  pub kstats : KernelStatistics
  pub calls : List Call

abbrev pub put : (ℕ → Conn) → ℕ → Conn → ℕ → Conn
put conns k c i = if i == k then c else conns i

-- c->cc_next
unfoldable pub cc_next : List ℕ → ℕ → Option ℕ
cc_next [] c = none
cc_next (x ∷ []) c = none
cc_next (x ∷ y ∷ r) c = if x == c then some y else cc_next (y ∷ r) c

-- The connection that is polled after `c`.
unfoldable pub following : List ℕ → ℕ → ℕ
unfolding cc_next
following conns c = elim (cc_next conns c) [ some d ↦ d | none ↦ elim conns [ [] ↦ c | x ∷ r ↦ x ] ]

-- The connection at which cc_poll begins.
unfoldable pub first_conn : (next_conn : Option ℕ) → List ℕ → Option ℕ
first_conn (some c) conns = some c
first_conn none [] = none
first_conn none (x ∷ r) = some x

-- The list without a connection; `none` if it is not there.
unfoldable pub unlink : List ℕ → ℕ → Option (List ℕ)
unlink [] c = none
unlink (x ∷ xs) c =
    if x == c then some xs else elim (unlink xs c) [ none ↦ none | some ys ↦ some (x ∷ ys) ]

-- What cc_conn_remove makes of next_conn.
abbrev pub moved_on : Option ℕ → List ℕ → ℕ → Option ℕ
moved_on none conns c = none
moved_on (some d) conns c = if d == c then cc_next conns c else some d

-- cc_conn_remove; `none` is its abort.
unfoldable pub cc_conn_remove : State → ℕ → Option State
unfolding unlink cc_next
cc_conn_remove s c = elim (unlink s.conns c) [
  | none ↦ none
  | some rest ↦ some (record s { conns = rest; next_conn = moved_on s.next_conn s.conns c })
]

-- What a connection counts anew, of the flow's counters.
abbrev pub difference : Conn → Stats → Stats
difference c stats = record stats {
  c_drops = (stats.c_drops + 2 ^ 16 - c.cc_last_drops) % 2 ^ 16;
  c_acks = (stats.c_acks + 2 ^ 16 - c.cc_last_acks) % 2 ^ 16;
  c_ackb = sub32 stats.c_ackb c.cc_last_ackb;
  c_ecnb = sub32 stats.c_ecnb c.cc_last_ecnb;
}

abbrev pub counted : Conn → Stats → Conn
counted c stats = record c {
  cc_last_drops = stats.c_drops;
  cc_last_acks = stats.c_acks;
  cc_last_ackb = stats.c_ackb;
  cc_last_ecnb = stats.c_ecnb;
}

module _ (config : Config) where
  -- const_rate_init and const_rate_update
  unfoldable pub const_rate_init : Conn → Conn
  const_rate_init c = record c { cc_rate = config.cc_const_rate }

  unfoldable pub const_rate_update : Conn → Stats → Conn
  const_rate_update c stats = record c { cc_rtt = rtt_or_init config stats; cc_rexmits = 0 }

  -- The switches on the algorithm in cc_conn_init and in cc_poll.
  unfoldable pub algorithm_init : Algorithm → Conn → Option Conn
  unfolding dctcp_win_init dctcp_rate_init timely_init const_rate_init
  algorithm_init dctcp_win c = dctcp_win_init config c
  algorithm_init dctcp_rate c = some (dctcp_rate_init config c)
  algorithm_init timely c = some (timely_init config c)
  algorithm_init const_rate c = some (const_rate_init c)
  algorithm_init unknown c = none

  unfoldable pub algorithm_update : Algorithm → Conn → Stats → (cur_ts : ℕ) → Option Conn
  unfolding dctcp_win_update dctcp_rate_update timely_update const_rate_update
  algorithm_update dctcp_win c stats cur_ts = dctcp_win_update config c stats
  algorithm_update dctcp_rate c stats cur_ts = dctcp_rate_update config c stats cur_ts
  algorithm_update timely c stats cur_ts = timely_update config c stats cur_ts
  algorithm_update const_rate c stats cur_ts = some (const_rate_update c stats)
  algorithm_update unknown c stats cur_ts = none

  -- The fields that cc_conn_init sets for every algorithm.
  abbrev pub fresh : Conn → (cur_ts : ℕ) → Conn
  fresh c cur_ts = record c { cc_last_ts = cur_ts; cc_rtt = config.tcp_rtt_init; cc_rexmits = 0 }

  -- cc_conn_init, at the time `cur_ts`
  unfoldable pub cc_conn_init : State → (id cur_ts : ℕ) → Option State
  unfolding algorithm_init
  cc_conn_init s id cur_ts = elim (algorithm_init config.cc_algorithm (fresh (s.conn id) cur_ts)) [
    | none ↦ none
    | some c ↦ some (record s { conns = id ∷ s.conns; conn = put s.conn id c })
  ]

  -- Whether a flow with data to send had none acknowledged.
  abbrev pub silent : Stats → Bool
  silent stats = stats.txp && stats.c_ackb == 0

  -- Whether issue_retransmits asks for a retransmission.
  unfoldable pub overdue : Conn → Stats → (cur_ts : ℕ) → Bool
  overdue c stats cur_ts =
      silent stats
      && not (c.cnt_tx_pending == 0)
      && leb config.cc_rexmit_ints (add32 c.cnt_tx_pending 1)
      && leb (mul32 2 (rtt_or_init config stats)) (sub32 cur_ts c.ts_tx_pending)

  -- The part of issue_retransmits that works on the connection, with the answer of
  -- nicif_connection_retransmit.
  unfoldable pub pending : Conn → Stats → (cur_ts : ℕ) → (ok : Bool) → Conn
  pending c stats cur_ts ok =
      if silent stats
      then (if c.cnt_tx_pending == 0
          then record c { cnt_tx_pending = 1; ts_tx_pending = cur_ts }
          else if overdue c stats cur_ts && ok
          then record c { cnt_tx_pending = 0; cc_rexmits = add32 c.cc_rexmits 1 }
          else record c { cnt_tx_pending = add32 c.cnt_tx_pending 1 })
      else record c { cnt_tx_pending = 0 }

  -- cc_next_ts; `none` is the failed assertion, 2^32 - 1 no timeout.
  unfoldable pub next_due : (ℕ → Conn) → (cur_ts : ℕ) → List ℕ → (ts : ℕ) → ℕ
  next_due conn cur_ts [] ts = ts
  next_due conn cur_ts (x ∷ xs) ts =
      let c : Conn = conn x in
      let wait : ℕ =
        sub32 (mul32 c.cc_rtt config.cc_control_interval) (sub32 cur_ts c.cc_last_ts) in
      next_due conn cur_ts xs (
        if not c.opened
        then ts
        else if ltb wait (2 ^ 31)
        then (if ltb ts wait then ts else wait)
        else 0)

  unfoldable pub cc_next_ts : State → (cur_ts : ℕ) → Option ℕ
  unfolding next_due
  cc_next_ts s cur_ts =
      let ts : ℕ = next_due s.conn cur_ts s.conns (2 ^ 32 - 1) in
      let rest : ℕ = sub32 config.cc_control_granularity (sub32 cur_ts s.last_ts) in
      if ltb cur_ts s.last_ts
      then none
      else some (if ts == 2 ^ 32 - 1 then 2 ^ 32 - 1 else if ltb rest ts then ts else rest)

  module _ (stats : ℕ → Option Stats) (resend : (flow_id flow_group : ℕ) → Bool) where
    -- The end of a round of cc_poll: issue_retransmits, the new rate and the time.
    unfoldable pub finished : State → (id : ℕ) → Conn → Stats → (cur_ts : ℕ) → State
    unfolding pending overdue
    finished s id c st cur_ts =
        let ask : Bool = overdue c st cur_ts in
        let ok : Bool = resend c.flow_id c.flow_group in
        let c' : Conn = pending c st cur_ts ok in
        record s {
          conn = put s.conn id (record c' { cc_last_ts = cur_ts });
          kstats = record s.kstats {
            drops = add64 s.kstats.drops st.c_drops;
            ecn_marked = add64 s.kstats.ecn_marked st.c_ecnb;
            acks = add64 s.kstats.acks st.c_ackb;
            kernel_rexmit =
                if ask && ok then add64 s.kstats.kernel_rexmit 1 else s.kstats.kernel_rexmit;
          };
          calls =
              (if ask then s.calls ++ retransmit c.flow_id c.flow_group ∷ [] else s.calls)
              ++ setrate c.flow_id c'.cc_rate ∷ [];
        }

    -- Whether a connection is due.
    abbrev pub due : Conn → (cur_ts : ℕ) → Bool
    due c cur_ts =
        c.opened
        && not (ltb (sub32 cur_ts c.cc_last_ts) (mul32 c.cc_rtt config.cc_control_interval))

    -- A round of cc_poll; `none` is an abort.
    unfoldable pub visit : State → (id cur_ts : ℕ) → Option State
    unfolding algorithm_update finished
    visit s id cur_ts =
        let c : Conn = s.conn id in
        if due c cur_ts
        then elim (stats c.flow_id) [
          | none ↦ none
          | some st ↦
              elim (algorithm_update config.cc_algorithm (counted c st) (difference c st) cur_ts) [
                | none ↦ none
                | some c' ↦ some (finished s id c' (difference c st) cur_ts)
              ]
        ]
        else some s

    -- The loop of cc_poll, with `rounds` left of the 128, `n` done and `c` at hand.
    unfoldable pub poll_loop :
        (rounds n : ℕ) → State → (c c_first cur_ts : ℕ) → Option (State × ℕ × ℕ)
    unfolding visit following
    poll_loop zero n s c c_first cur_ts = some (s, n, c)
    poll_loop (suc rounds) n s c c_first cur_ts =
        let round : Option (State × ℕ × ℕ) = elim (visit s c cur_ts) [
          | none ↦ none
          | some t ↦ poll_loop rounds (suc n) t (following t.conns c) c_first cur_ts
        ] in
        if not (n == 0) && c == c_first then some (s, n, c) else round

    -- cc_poll, with the number of rounds
    unfoldable pub cc_poll : State → (cur_ts : ℕ) → Option (State × ℕ)
    unfolding poll_loop first_conn
    cc_poll s cur_ts = elim (first_conn s.next_conn s.conns) [
      | none ↦ some (record s { last_ts = cur_ts }, 0)
      | some c ↦ elim (poll_loop 128 0 s c c cur_ts) [
        | none ↦ none
        | some (t, n, d) ↦ some (record t { next_conn = some d; last_ts = cur_ts }, n)
      ]
    ]

-- The timeout of slowpath_block in milliseconds: 2^32 - 1 stands for no timeout of its two sources.
unfoldable pub block_ms : (cc_timeout util_timeout : ℕ) → ℕ
block_ms cc_timeout util_timeout =
    let never : ℕ = 2 ^ 32 - 1 in
    let timeout_us : ℕ =
      if not (cc_timeout == never) && not (util_timeout == never)
      then (if ltb cc_timeout util_timeout then cc_timeout else util_timeout)
      else if not (cc_timeout == never)
      then util_timeout
      else cc_timeout in
    if timeout_us == never
    then 10
    else if ltb 1000 (timeout_us / 1000)
    then 10
    else timeout_us / 1000
