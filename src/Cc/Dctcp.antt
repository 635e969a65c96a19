-- ===== src/Cc/Dctcp.antt =====
-- DCTCP of tas_nic/slow/cc.c, on windows and on rates. `none` is a failed assertion or a division by 0.
use tas_smartnic.Prelude.{
  ℕ, ◌+◌, ◌*◌, ◌/◌, Bool, true, false, ◌&&◌, ◌||◌, not, Option, none, some, ltb, leb, ◌==◌,
  if◌then◌else◌, u32, add32, sub32, add64, mul32, mul64, uint32_max,
}
use tas_smartnic.Cc.State.{Config, Stats, DctcpWin, DctcpRate, Conn}

-- `CONF_MSS`
abbrev pub conf_mss : ℕ
conf_mss = 1400

-- stats->rtt, or the estimate if it is 0.
abbrev pub rtt_or_init : Config → Stats → ℕ
rtt_or_init config stats = if stats.rtt == 0 then config.tcp_rtt_init else stats.rtt

-- Any indication of congestion.
abbrev pub congested : Conn → (drops ecnb : ℕ) → Bool
congested c drops ecnb = ltb 0 drops || ltb 0 ecnb || ltb 0 c.cc_rexmits

-- The new estimate of the rate of marked bytes, where `ecnb` is at most `ackb`.
unfoldable pub ewma : (weight ecn_rate ecnb ackb : ℕ) → ℕ
ewma weight ecn_rate ecnb ackb =
    let now : ℕ = mul64 ecnb uint32_max / ackb in
    u32 (add64 (mul64 now weight) (mul64 ecn_rate (sub32 uint32_max weight)) / uint32_max)

-- A window or a rate, cut by half the rate of marked bytes.
unfoldable pub cut : (x ecn_rate : ℕ) → ℕ
cut x ecn_rate = u32 (mul64 x (sub32 uint32_max (ecn_rate / 2)) / uint32_max)

-- The rate at which bytes were acknowledged since `last_ts`, unless that is 0.
unfoldable pub measured : (ackb last_ts cur_ts : ℕ) → Option ℕ
measured ackb last_ts cur_ts =
    if last_ts == 0
    then some 0
    else if sub32 cur_ts last_ts == 0
    then none
    else some (mul32 (mul32 ackb 8) 1000 / sub32 cur_ts last_ts)

-- The running mean of the measured rates.
unfoldable pub smoothed : (act_rate now : ℕ) → ℕ
smoothed act_rate now = add32 (mul32 7 act_rate) now / 8

-- `act_rate`, the larger one of the mean and the last rate, times 1.2
unfoldable pub ceiling : (act_rate now : ℕ) → ℕ
unfolding smoothed
ceiling act_rate now =
    mul64 (if leb (smoothed act_rate now) now then now else smoothed act_rate now) 12 / 10

module _ (config : Config) where
  -- The time that a window takes to send, and at least a round trip.
  unfoldable pub send_time : (window rtt : ℕ) → ℕ
  send_time window rtt =
      let time : ℕ = mul64 (mul64 window 8) 1000 / config.tcp_link_bw / 1000 in
      if ltb time (mul32 rtt 1000) then mul32 rtt 1000 else time

  -- window_to_rate
  unfoldable pub window_to_rate : (window rtt : ℕ) → Option ℕ
  unfolding send_time
  window_to_rate window rtt =
      let time : ℕ = send_time window rtt in
      let rate : ℕ = mul64 (mul64 window 8) 1000000 / time in
      if config.tcp_link_bw == 0
      then none
      else if time == 0
      then none
      else some (if ltb uint32_max rate then uint32_max else rate)

  -- dctcp_win_init
  unfoldable pub dctcp_win_init : Conn → Option Conn
  unfolding window_to_rate
  dctcp_win_init c = elim (window_to_rate (2 * conf_mss) config.tcp_rtt_init) [
    | none ↦ none
    | some rate ↦ some (record c {
      cc_rate = rate;
      win = record { ecn_rate = 0; window = 2 * conf_mss; slowstart = true };
    })
  ]

  -- The window after slow start.
  unfoldable pub win_slowstart : Conn → Stats → DctcpWin
  win_slowstart c stats =
      if c.win.slowstart
      then (if congested c stats.c_drops stats.c_ecnb
          then record c.win { slowstart = false }
          else if ltb c.win.window (add32 c.win.window stats.c_ackb)
          then record c.win { window = add32 c.win.window stats.c_ackb }
          else c.win)
      else c.win

  -- The marked bytes that count, and the new estimate of their rate.
  abbrev pub marked : (ecnb ackb : ℕ) → ℕ
  marked ecnb ackb = if ltb 0 ackb then (if leb ecnb ackb then ecnb else ackb) else ecnb

  abbrev pub new_ecn_rate : (ecn_rate ecnb ackb : ℕ) → ℕ
  new_ecn_rate ecn_rate ecnb ackb =
      if ltb 0 ackb then ewma config.cc_dctcp_weight ecn_rate (marked ecnb ackb) ackb else ecn_rate

  -- The additive increase of the window.
  unfoldable pub win_increase : (win ackb : ℕ) → ℕ
  win_increase win ackb =
      let incr : ℕ = mul64 ackb conf_mss / win in
      if ltb win (u32 (win + incr)) then u32 (win + incr) else win

  -- The window after congestion avoidance; the window is not 0.
  unfoldable pub win_avoidance : Conn → Stats → DctcpWin → DctcpWin
  unfolding win_increase ewma cut
  win_avoidance c stats w =
      let ecn_rate : ℕ = new_ecn_rate w.ecn_rate stats.c_ecnb stats.c_ackb in
      if w.slowstart
      then w
      else if ltb 0 stats.c_drops || ltb 0 c.cc_rexmits
      then record w { window = w.window / 2 }
      else if ltb 0 (marked stats.c_ecnb stats.c_ackb)
      then record w { window = cut w.window ecn_rate; ecn_rate = ecn_rate }
      else record w { window = win_increase w.window stats.c_ackb; ecn_rate = ecn_rate }

  -- The window, at least one segment and at most the buffer.
  abbrev pub win_bounded : Conn → ℕ → ℕ
  win_bounded c win =
      let win : ℕ = if ltb win conf_mss then conf_mss else win in
      if ltb c.tx_size win then c.tx_size else win

  -- dctcp_win_update
  unfoldable pub dctcp_win_update : Conn → Stats → Option Conn
  unfolding win_slowstart win_avoidance window_to_rate
  dctcp_win_update c stats =
      let w : DctcpWin = win_avoidance c stats (win_slowstart c stats) in
      let win : ℕ = win_bounded c w.window in
      if ltb c.win.window conf_mss
      then none
      else elim (window_to_rate win (rtt_or_init config stats)) [
        | none ↦ none
        | some rate ↦
            if ltb win conf_mss
            then none
            else some (record c {
              cc_rtt = rtt_or_init config stats;
              cc_rate = rate;
              win = record w { window = win };
              cc_rexmits = 0;
            })
      ]

  -- dctcp_rate_init, which leaves act_rate as malloc returned it.
  unfoldable pub dctcp_rate_init : Conn → Conn
  dctcp_rate_init c = record c {
    cc_rate = config.cc_dctcp_init;
    rate = record c.rate {
      ecn_rate = 0;
      slowstart = true;
      unproc_ecnb = 0;
      unproc_acks = 0;
      unproc_ackb = 0;
      unproc_drops = 0;
    };
  }

  -- The rate after slow start, and whether slow start goes on.
  unfoldable pub rate_slowstart : Conn → (rate drops ecnb : ℕ) → ℕ
  rate_slowstart c rate drops ecnb =
      if c.rate.slowstart && not (congested c drops ecnb)
      then (if leb rate (mul32 rate 2) then mul32 rate 2 else uint32_max)
      else rate

  -- The rate after congestion avoidance.
  unfoldable pub rate_avoidance : Conn → (rate ecn_rate drops marks : ℕ) → ℕ
  unfolding cut
  rate_avoidance c rate ecn_rate drops marks =
      if ltb 0 drops || ltb 0 c.cc_rexmits
      then rate / 2
      else if ltb 0 marks
      then cut rate ecn_rate
      else if config.cc_dctcp_mimd == 0
      then add32 rate config.cc_dctcp_step
      else u32 (rate + mul64 rate config.cc_dctcp_mimd / uint32_max)

  -- dctcp_rate_update once enough packets were acknowledged, with the counts and the measured rate.
  unfoldable pub rate_processed : Conn → (rtt now drops ackb ecnb : ℕ) → Conn
  rate_processed c rtt now drops ackb ecnb =
      let cc : DctcpRate = c.rate in
      let top : ℕ = ceiling cc.act_rate now in
      let clamped : ℕ = if ltb top c.cc_rate then u32 top else c.cc_rate in
      let slowstart : Bool = cc.slowstart && not (congested c drops ecnb) in
      let lossy : Bool = ltb 0 drops || ltb 0 c.cc_rexmits in
      let ecn_rate : ℕ =
        if slowstart || lossy then cc.ecn_rate else new_ecn_rate cc.ecn_rate ecnb ackb in
      let started : ℕ = rate_slowstart c clamped drops ecnb in
      let rate : ℕ =
        if slowstart then started else rate_avoidance c started ecn_rate drops (marked ecnb ackb) in
      record c {
        cc_rtt = rtt;
        cc_rate = if ltb rate config.cc_dctcp_min then config.cc_dctcp_min else rate;
        cc_rexmits = 0;
        rate = record {
          unproc_acks = 0;
          unproc_ackb = 0;
          unproc_ecnb = 0;
          unproc_drops = 0;
          ecn_rate = ecn_rate;
          act_rate = smoothed cc.act_rate now;
          slowstart = slowstart;
        };
      }

  -- dctcp_rate_update
  unfoldable pub dctcp_rate_update : Conn → Stats → (cur_ts : ℕ) → Option Conn
  unfolding rate_processed measured ewma smoothed ceiling rate_slowstart rate_avoidance
  dctcp_rate_update c stats cur_ts =
      let rtt : ℕ = rtt_or_init config stats in
      let ecnb : ℕ = add32 c.rate.unproc_ecnb stats.c_ecnb in
      let acks : ℕ = add32 c.rate.unproc_acks stats.c_acks in
      let ackb : ℕ = add32 c.rate.unproc_ackb stats.c_ackb in
      let drops : ℕ = add32 c.rate.unproc_drops stats.c_drops in
      if ltb acks config.cc_dctcp_minpkts
      then some (record c {
        cc_rtt = rtt;
        rate = record c.rate {
          unproc_ecnb = ecnb;
          unproc_acks = acks;
          unproc_ackb = ackb;
          unproc_drops = drops;
        };
      })
      else elim (measured ackb c.cc_last_ts cur_ts) [
        | none ↦ none
        | some now ↦ some (rate_processed c rtt now drops ackb ecnb)
      ]
