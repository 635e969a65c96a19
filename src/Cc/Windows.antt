-- ===== src/Cc/Windows.antt =====
-- How the window of dctcp_win_update (tas_nic/slow/cc.c) answers losses, marks and their absence.
use tas_smartnic.Prelude.{
  le→ltb_false, false, false, ℕ, ◌/◌, ◌^◌, ◌≤◌, ◌<◌, ◌≡◌, refl, ◌||◌, Bool, some, arith, ltb,
  if◌then◌else◌, max, min, uint32_max,
}
use tas_smartnic.Cc.State.{Config, Stats, DctcpWin, Conn}
use tas_smartnic.Cc.Dctcp.{
  conf_mss, rtt_or_init, congested, win_slowstart, win_increase, win_avoidance, marked,
  new_ecn_rate, win_bounded, dctcp_win_update,
}
use tas_smartnic.Cc.Bounds.{cut-le, ewma-lt, window_to_rate-some, rtt_or_init-pos}

-- A loss: dropped segments or a retransmission.
abbrev pub lossy : Conn → Stats → Bool
lossy c stats = ltb 0 stats.c_drops || ltb 0 c.cc_rexmits

-- The most that the window may be afterwards, and the least.
pub win_most : Conn → Stats → ℕ
win_most c stats =
    if lossy c stats
    then max conf_mss (c.win.window / 2)
    else if ltb 0 stats.c_ecnb
    then c.win.window
    else c.tx_size

pub win_least : Conn → Stats → ℕ
win_least c stats =
    if congested c stats.c_drops stats.c_ecnb then conf_mss else min c.win.window c.tx_size

module _ (config : Config) where
  new_ecn_rate-lt :
      (ecn_rate ecnb ackb : ℕ) → ecn_rate < 2 ^ 32 → new_ecn_rate config ecn_rate ecnb ackb < 2 ^ 32
  new_ecn_rate-lt ecn_rate ecnb ackb h =
      ground (arith, ewma-lt config.cc_dctcp_weight ecn_rate (marked config ecnb ackb) ackb)

  -- The window before it is bounded.
  abbrev moved : Conn → Stats → ℕ
  moved c stats = (win_avoidance config c stats (win_slowstart config c stats)).window

  win_increase-le : (win ackb : ℕ) → win ≤ win_increase config win ackb
  unfolding win_increase
  win_increase-le win ackb = ground arith

  moved_bounds :
      (c : Conn) (stats : Stats)
      → c.win.window < 2 ^ 32
      → c.win.ecn_rate < 2 ^ 32
      → (moved c stats ≤ (
          if lossy c stats
          then c.win.window / 2
          else if ltb 0 stats.c_ecnb
          then c.win.window
          else uint32_max))
        × ((if congested c stats.c_drops stats.c_ecnb then 0 else c.win.window) ≤ moved c stats)
  unfolding win_avoidance win_slowstart
  moved_bounds c stats small small_rate =
      let e : ℕ = new_ecn_rate config c.win.ecn_rate stats.c_ecnb stats.c_ackb in
      ground (
        arith,
        new_ecn_rate-lt c.win.ecn_rate stats.c_ecnb stats.c_ackb small_rate,
        cut-le c.win.window e,
        win_increase-le c.win.window stats.c_ackb,
      )

  clipped :
      (c : Conn) (stats : Stats) (m : ℕ)
      → m ≤ (
          if lossy c stats
          then c.win.window / 2
          else if ltb 0 stats.c_ecnb
          then c.win.window
          else uint32_max)
      → (if congested c stats.c_drops stats.c_ecnb then 0 else c.win.window) ≤ m
      → conf_mss ≤ c.win.window
      → conf_mss ≤ c.tx_size
      → (conf_mss ≤ win_bounded config c m)
        × (win_bounded config c m ≤ c.tx_size)
        × (win_bounded config c m ≤ win_most c stats)
        × (win_least c stats ≤ win_bounded config c m)
  unfolding win_most win_least
  clipped c stats m most least mss room = ground arith

  -- dctcp_win_update of a window of at least a segment succeeds, with a buffer of at least a segment, a
  -- bandwidth and an initial round-trip time that are not 0, and round-trip times below 4.29 seconds. The window is at least a segment and at most the buffer; a
  -- loss leaves at most the half or one segment, a mark never lets it grow, also not out of slow start,
  -- and without either it does not shrink.
  pub dctcp_win_update_lem :
      (c : Conn) (stats : Stats)
      → 0 < config.tcp_link_bw
      → 0 < config.tcp_rtt_init
      → config.tcp_rtt_init < 4294967
      → stats.rtt < 4294967
      → conf_mss ≤ c.win.window
      → c.win.window < 2 ^ 32
      → c.win.ecn_rate < 2 ^ 32
      → conf_mss ≤ c.tx_size
      → (c' : Conn) × (dctcp_win_update config c stats ≡ some c')
        × (conf_mss ≤ c'.win.window)
        × (c'.win.window ≤ c.tx_size)
        × (c'.win.window ≤ win_most c stats)
        × (win_least c stats ≤ c'.win.window)
  unfolding dctcp_win_update
  dctcp_win_update_lem c stats bw some_rtt small_rtt short mss small small_rate room =
      let (most, least) = moved_bounds c stats small small_rate in
      let (some_rtt', short') = rtt_or_init-pos config stats some_rtt small_rtt short in
      let w : DctcpWin = win_avoidance config c stats (win_slowstart config c stats) in
      let win : ℕ = win_bounded config c w.window in
      let (rate, e) =
        window_to_rate-some config win (rtt_or_init config stats) bw some_rtt' short' in
      let (lo, hi, top, bottom) = clipped c stats w.window most least mss room in
      let before : ltb c.win.window conf_mss ≡ false = le→ltb_false c.win.window conf_mss mss in
      let after : ltb win conf_mss ≡ false = le→ltb_false win conf_mss lo in
      (
        record c {
          cc_rtt = rtt_or_init config stats;
          cc_rate = rate;
          win = record w { window = win };
          cc_rexmits = 0;
        },
        rw (dctcp_win_update, before, e, after) refl,
        lo,
        hi,
        top,
        bottom,
      )
