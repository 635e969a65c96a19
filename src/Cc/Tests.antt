-- ===== src/Cc/Tests.antt =====
-- The theorems on congestion control at concrete connections, and runs of its code.
use tas_smartnic.Prelude.{
  Listed, ℕ, ◌+◌, ◌-◌, ◌/◌, ◌^◌, ◌≤◌, ◌<◌, ◌≡◌, refl, inl, inr, true, false, Option, none, some, [],
  ◌∷◌, arith, ltb, max, min, if◌then◌else◌, ◌==◌, Distinct, Apart,
}
use tas_smartnic.Cc.State.{dctcp_rate, Config, Stats, Conn, KernelStatistics}
use tas_smartnic.Cc.Dctcp.{conf_mss, measured, dctcp_win_update, dctcp_rate_update}
use tas_smartnic.Cc.Timely.{timely_update}
use tas_smartnic.Cc.Control.{
  State, silent, overdue, pending, cc_conn_init, cc_poll, cc_next_ts, next_due, block_ms,
}
use tas_smartnic.Cc.Windows.{win_most, win_least, dctcp_win_update_lem}
use tas_smartnic.Cc.Rates.{rate_most, dctcp_rate_update_lem}
use tas_smartnic.Cc.Silence.{Round, Silence, Rounds, start, round, overdue-Silence}
use tas_smartnic.Cc.Rounds.{take, ahead, visit_all, came_to, cc_poll_lem}
use tas_smartnic.Cc.Members.{NextListed, Inv, Step, add, here, next, Reach-Inv}
use tas_smartnic.Cc.Sleeping.{cc_next_ts_late, block_ms_lem}
use tas_smartnic.Cc.Backing.{timely_cut, timely_used, timely_update_high}

-- The defaults of tas_nic/config.c.
abbrev config : Config
config = record {
  tcp_rtt_init = 50;
  tcp_link_bw = 10;
  cc_algorithm = dctcp_rate;
  cc_control_granularity = 50;
  cc_control_interval = 2;
  cc_rexmit_ints = 4;
  cc_dctcp_weight = 268435455;
  cc_dctcp_init = 10000;
  cc_dctcp_step = 10000;
  cc_dctcp_mimd = 0;
  cc_dctcp_min = 0;
  cc_dctcp_minpkts = 50;
  cc_const_rate = 0;
  cc_timely_tlow = 30;
  cc_timely_thigh = 150;
  cc_timely_step = 10000;
  cc_timely_init = 10000;
  cc_timely_alpha = 85899345;
  cc_timely_beta = 3435973836;
  cc_timely_min_rtt = 11;
  cc_timely_min_rate = 10000;
}

abbrev c : Conn
c = record {
  opened = true;
  flow_id = 3;
  flow_group = 1;
  tx_size = 8192;
  cc_last_ts = 100;
  cc_rtt = 50;
  cc_last_drops = 0;
  cc_last_acks = 0;
  cc_last_ackb = 0;
  cc_last_ecnb = 0;
  cc_rate = 100000;
  cc_rexmits = 0;
  win = record { ecn_rate = 0; window = 4000; slowstart = true };
  rate = record {
    unproc_acks = 20;
    unproc_ackb = 20000;
    unproc_ecnb = 0;
    unproc_drops = 0;
    ecn_rate = 0;
    act_rate = 80000;
    slowstart = true;
  };
  timely = record {
    rtt_prev = 60;
    rtt_diff = 0;
    hai_cnt = 2;
    act_rate = 80000;
    last_ts = 100;
    slowstart = true;
  };
  cnt_tx_pending = 0;
  ts_tx_pending = 0;
}

-- Some segments were dropped.
abbrev lossy_stats : Stats
lossy_stats = record {
  c_drops = 2;
  c_acks = 40;
  c_ackb = 40000;
  c_ecnb = 100;
  txp = true;
  rtt = 200;
}

abbrev quiet : Stats
quiet = record { c_drops = 0; c_acks = 0; c_ackb = 0; c_ecnb = 0; txp = true; rtt = 30 }

abbrev kstats : KernelStatistics
kstats = record { drops = 0; kernel_rexmit = 0; ecn_marked = 0; acks = 0 }

abbrev three : State
three = record {
  conns = 7 ∷ 8 ∷ 9 ∷ [];
  conn = λ i. record c { flow_id = i };
  next_conn = some 8;
  last_ts = 250;
  kstats = kstats;
  calls = [];
}

three-Inv : Inv three
unfolding Distinct Apart NextListed Listed
three-Inv = record { once = omega arith; next = inr (inl refl) }

-- A window of 4000 is halved, but stays above one segment.
win_halved : ℕ
win_halved = elim (dctcp_win_update config c lossy_stats) [ none ↦ 0 | some d ↦ d.win.window ]

win_halved_lem : win_halved ≡ 2000
unfolding win_halved dctcp_win_update
win_halved_lem = refl

rate_halved : ℕ
rate_halved = elim (dctcp_rate_update config c lossy_stats 300) [ none ↦ 0 | some d ↦ d.cc_rate ]

rate_halved_lem : rate_halved ≡ 50000
unfolding rate_halved dctcp_rate_update
rate_halved_lem = refl

dctcp_win_update_lem_example :
    (d : Conn) × (dctcp_win_update config c lossy_stats ≡ some d)
    × (conf_mss ≤ d.win.window)
    × (d.win.window ≤ 8192)
    × (d.win.window ≤ win_most c lossy_stats)
    × (win_least c lossy_stats ≤ d.win.window)
dctcp_win_update_lem_example =
    dctcp_win_update_lem config c lossy_stats (omega arith) (omega arith) (omega arith)
      (omega arith) (omega arith) (omega arith) (omega arith) (omega arith)

dctcp_rate_update_lem_example :
    (d : Conn) × (now : ℕ) × (measured 60000 100 300 ≡ some now)
    × (dctcp_rate_update config c lossy_stats 300 ≡ some d)
    × (0 ≤ d.cc_rate)
    × (d.cc_rate ≤ max 0 (rate_most c now 2 100))
    × (d.rate.unproc_acks + d.rate.unproc_ackb + d.rate.unproc_ecnb + d.rate.unproc_drops ≡ 0)
dctcp_rate_update_lem_example =
    dctcp_rate_update_lem config c lossy_stats 300 (omega arith) (omega arith) (omega arith)
      (omega arith) (omega arith)

timely_update_high_example :
    (d : Conn) × (now : ℕ) × (measured 40000 100 300 ≡ some now)
    × (timely_update config c lossy_stats 300 ≡ some d)
    × (d.timely.slowstart ≡ false)
    × (10000 ≤ d.cc_rate)
    × (timely_used config c now / 2 ≤ d.cc_rate)
    × (d.cc_rate
        ≤ max 10000 (
            max
              (timely_used config c now / 2)
              (timely_cut config (timely_used config c now) lossy_stats.rtt)))
timely_update_high_example =
    timely_update_high config c lossy_stats 300 (omega arith) (omega arith) (omega arith)
      (omega arith) (omega arith) (omega arith) (omega arith) (omega arith)

-- Three silent rounds, and what they make of the connection.
abbrev silent_at : ℕ → Round
silent_at t = record { stats = quiet; at = t }

abbrev waiting : Conn
waiting = record c { cnt_tx_pending = 3; ts_tx_pending = 200 }

three_silent : Rounds config waiting (silent_at 400 ∷ silent_at 300 ∷ silent_at 200 ∷ [])
unfolding pending overdue
three_silent =
    round (record c { cnt_tx_pending = 2; ts_tx_pending = 200 })
      (round (record c { cnt_tx_pending = 1; ts_tx_pending = 200 })
        (round c (start {c = c} refl) refl refl (silent_at 200) false) refl refl (silent_at 300)
        false)
      refl refl (silent_at 400) false

-- The counter may also be reset by an acknowledgement: the silence must be unbroken.
overdue-Silence_example :
    (silent config quiet ≡ true)
    × (n : ℕ) × Silence config (silent_at 400 ∷ silent_at 300 ∷ silent_at 200 ∷ []) n 200
    × (0 < n)
    × (4 ≤ n + 1)
    × (60 ≤ 300)
unfolding overdue
overdue-Silence_example = overdue-Silence config {c = waiting} quiet 500 three_silent refl

abbrev stats_of : ℕ → Option Stats
stats_of i = some lossy_stats

cc_poll_lem_example :
    cc_poll config stats_of (λ f g. true) three 250
    ≡ came_to config stats_of
        (λ f g. true)
        (visit_all config stats_of (λ f g. true) (take 128 (8 ∷ 9 ∷ 7 ∷ [])) three 250)
        3
        (ahead 128 8 (9 ∷ 7 ∷ []) 8)
        250
unfolding Distinct Apart
cc_poll_lem_example =
    cc_poll_lem config stats_of (λ f g. true) three 250 (7 ∷ []) 8 (9 ∷ []) (omega arith) refl
      (inl refl)

-- A fourth connection is added.
abbrev four : State
four = record three {
  conns = 5 ∷ 7 ∷ 8 ∷ 9 ∷ [];
  conn = λ i.
      if i == 5
      then record (record c { flow_id = 5 }) {
        cc_last_ts = 260;
        cc_rate = 10000;
        rate = record c.rate { unproc_acks = 0; unproc_ackb = 0 };
      }
      else record c { flow_id = i };
}

grown : Step config stats_of (λ f g. true) three four
unfolding cc_conn_init Apart
grown = add 5 260 (omega arith) refl

Reach-Inv_example : Inv four
Reach-Inv_example = Reach-Inv config stats_of (λ f g. true) (next here grown) three-Inv

due_soon : next_due config three.conn 310 three.conns (2 ^ 32 - 1) < 2 ^ 32 - 1
unfolding next_due
due_soon = omega arith

cc_next_ts_late_example : (ts : ℕ) × (cc_next_ts config three 310 ≡ some ts) × (2 ^ 31 ≤ ts)
cc_next_ts_late_example =
    cc_next_ts_late config three 310 (omega arith) (omega arith) (omega arith) due_soon

block_ms_lem_example :
    (block_ms 5000 (2 ^ 32 - 1) ≡ 10)
    × (block_ms (2 ^ 32 - 1) 7000 ≡ 10)
    × (block_ms 5000 7000 ≡ (if ltb 1000 (min 5000 7000 / 1000) then 10 else min 5000 7000 / 1000))
block_ms_lem_example = block_ms_lem 5000 7000 (omega arith) (omega arith)
