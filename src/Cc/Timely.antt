-- ===== src/Cc/Timely.antt =====
-- TIMELY of tas_nic/slow/cc.c. int32_t and int64_t values are bit patterns; a product that leaves the
-- range of int64_t, which C leaves open, wraps around. `none` is a division by 0.
use tas_smartnic.Prelude.{
  ℕ, ◌/◌, ◌^◌, Bool, true, ◌&&◌, ◌||◌, not, Option, none, some, ltb, leb, ◌==◌, if◌then◌else◌, u32,
  add32, sub32, sub64, add64, mul32, mul64, uint32_max, int32_max, sign_extend, signed_div,
}
use tas_smartnic.Cc.State.{Config, Stats, Timely, Conn}
use tas_smartnic.Cc.Dctcp.{measured, smoothed, ceiling}

module _ (config : Config) where
  -- timely_init, which leaves act_rate as malloc returned it.
  unfoldable pub timely_init : Conn → Conn
  timely_init c = record c {
    cc_rate = config.cc_timely_init;
    timely = record c.timely {
      rtt_prev = 0;
      rtt_diff = 0;
      hai_cnt = 0;
      last_ts = 0;
      slowstart = true;
    };
  }

  -- The filtered difference of round-trip times.
  unfoldable pub new_rtt_diff : (rtt_diff rtt_prev new_rtt : ℕ) → ℕ
  new_rtt_diff rtt_diff rtt_prev new_rtt =
      let factor : ℕ = config.cc_timely_alpha / 2 in
      let diff : ℕ = sub32 new_rtt rtt_prev in
      let x : ℕ =
        add64 (mul64 (sub64 int32_max factor) (sign_extend rtt_diff))
          (mul64 factor (sign_extend diff)) in
      u32 (signed_div x int32_max)

  -- normalized_gradient, of the filtered difference
  unfoldable pub gradient : (rtt_diff : ℕ) → Option ℕ
  gradient rtt_diff =
      if config.cc_timely_min_rtt == 0
      then none
      else some (signed_div (mul64 (sign_extend rtt_diff) 32767) config.cc_timely_min_rtt)

  -- rate *= 1 - beta * (1 - Thigh / rtt)
  unfoldable pub cut_high : (rate new_rtt : ℕ) → ℕ
  cut_high rate new_rtt =
      let d : ℕ = u32 (mul64 uint32_max config.cc_timely_thigh / new_rtt) in
      let b : ℕ = sub32 uint32_max d in
      let a : ℕ = u32 (mul64 config.cc_timely_beta b / uint32_max) in
      u32 (mul64 rate (sub32 uint32_max a) / uint32_max)

  -- rate *= 1 - beta * normalized_gradient
  unfoldable pub cut_gradient : (rate gradient : ℕ) → ℕ
  cut_gradient rate gradient =
      let a : ℕ = mul64 (config.cc_timely_beta / 2) gradient in
      let b : ℕ = signed_div a 32767 in
      let d : ℕ = if leb (2 ^ 63) b || leb b int32_max then sub64 int32_max b else 0 in
      u32 (signed_div (mul64 rate d) int32_max)

  -- The new rate and hai_cnt; a gradient of at most 0 has the pattern 0 or one with the sign bit.
  unfoldable pub adjusted : Bool → (rate hai_cnt new_rtt gradient : ℕ) → ℕ × ℕ
  unfolding cut_high cut_gradient
  adjusted slowstart rate hai_cnt new_rtt gradient =
      if slowstart
      then (mul32 rate 2, hai_cnt)
      else if ltb new_rtt config.cc_timely_tlow
      then (add32 rate config.cc_timely_step, 0)
      else if ltb config.cc_timely_thigh new_rtt
      then (cut_high rate new_rtt, 0)
      else if gradient == 0 || leb (2 ^ 63) gradient
      then (if leb 5 (add32 hai_cnt 1)
          then (add32 rate (mul32 config.cc_timely_step 5), hai_cnt)
          else (add32 rate config.cc_timely_step, add32 hai_cnt 1))
      else (cut_gradient rate gradient, 0)

  -- At least half of the old rate, and at least the configured minimum.
  abbrev pub not_below : (orig_rate rate : ℕ) → ℕ
  not_below orig_rate rate =
      let half : ℕ = if ltb rate (orig_rate / 2) then orig_rate / 2 else rate in
      if ltb half config.cc_timely_min_rate then config.cc_timely_min_rate else half

  -- The rate after the clamp to 1.2 times the rate that was used.
  abbrev pub clamped : Bool → (rate act_rate now : ℕ) → ℕ
  clamped slowstart rate act_rate now =
      if not slowstart && ltb (ceiling act_rate now) rate then u32 (ceiling act_rate now) else rate

  -- timely_update for a round-trip time that is not 0, with the measured rate.
  unfoldable pub timely_measured : Conn → (rtt now cur_ts : ℕ) → Option Conn
  timely_measured c rtt now cur_ts =
      let cc : Timely = c.timely in
      let slowstart : Bool =
        cc.slowstart && not (ltb (add32 config.cc_timely_tlow config.cc_timely_thigh / 2) rtt) in
      let rate : ℕ = clamped slowstart c.cc_rate cc.act_rate now in
      let rtt_diff : ℕ =
        if cc.rtt_prev == 0 then cc.rtt_diff else new_rtt_diff cc.rtt_diff cc.rtt_prev rtt in
      elim (if cc.rtt_prev == 0 then some 0 else gradient rtt_diff) [
        | none ↦ none
        | some slope ↦
            let (rate', hai_cnt) = adjusted slowstart rate cc.hai_cnt rtt slope in
            some (record c {
              cc_rate = not_below rate rate';
              cc_rtt = rtt;
              cc_rexmits = 0;
              timely = record {
                rtt_prev = rtt;
                rtt_diff = rtt_diff;
                hai_cnt = hai_cnt;
                act_rate = smoothed cc.act_rate now;
                last_ts = cur_ts;
                slowstart = slowstart;
              };
            })
      ]

  -- timely_update
  unfoldable pub timely_update : Conn → Stats → (cur_ts : ℕ) → Option Conn
  unfolding measured smoothed timely_measured adjusted gradient new_rtt_diff ceiling
  timely_update c stats cur_ts = elim (measured stats.c_ackb c.timely.last_ts cur_ts) [
    | none ↦ none
    | some now ↦
        if stats.rtt == 0
        then some
            (record c { timely = record c.timely { act_rate = smoothed c.timely.act_rate now } })
        else timely_measured c stats.rtt now cur_ts
  ]
