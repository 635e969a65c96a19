-- ===== src/Cc/Backing.antt =====
-- How timely_update (tas_nic/slow/cc.c) answers a round-trip time above its upper threshold.
use native.Mathlib.Nat.{
  div-le_of_le-mul, mul-le-mul_right, mul-le-mul_left, mul-le-mul, le-div_iff_mul-le,
  div-lt_iff_lt-mul, lt_of_mul-lt-mul_left, mul_left_comm, mul_assoc, add-mul,
}
use tas_smartnic.Prelude.{
  ap, sym, ◌∙◌, ◌+◌, ◌-◌, ℕ, ◌*◌, ◌/◌, ◌^◌, ◌≤◌, ◌<◌, ◌≡◌, refl, ◌&&◌, not, true, false, some,
  arith, ltb, ◌==◌, if◌then◌else◌, max, min, uint32_max, sub32, add32, mul64, u32, le→ltb_false,
  lt→ltb, signed_div, sign_extend,
}
use tas_smartnic.Cc.State.{Config, Stats, Conn}
use tas_smartnic.Cc.Dctcp.{measured, smoothed, ceiling}
use tas_smartnic.Cc.Rates.{measured-some}
use tas_smartnic.Cc.Timely.{
  new_rtt_diff, gradient, cut_high, adjusted, not_below, clamped, timely_measured, timely_update,
}

module _ (config : Config) where
  -- What TIMELY means to take from the rate above its threshold, as a fraction of 2^32 - 1: beta times
  -- the part of the round-trip time that lies beyond the threshold.
  abbrev pub timely_share : (rtt : ℕ) → ℕ
  timely_share rtt = config.cc_timely_beta * (rtt - config.cc_timely_thigh) / rtt

  -- The rate without that share.
  abbrev pub timely_cut : (rate rtt : ℕ) → ℕ
  timely_cut rate rtt = rate * (uint32_max - timely_share rtt) / uint32_max

  module _ (rtt : ℕ) (high : config.cc_timely_thigh < rtt)
      (small_high : config.cc_timely_thigh < 2 ^ 31)
      (small_beta : config.cc_timely_beta ≤ uint32_max) where
    abbrev d : ℕ
    d = uint32_max * config.cc_timely_thigh / rtt

    abbrev b : ℕ
    b = uint32_max - d

    abbrev a : ℕ
    a = config.cc_timely_beta * b / uint32_max

    d_small : d ≤ uint32_max
    d_small = div-le_of_le-mul rtt (
        let p : config.cc_timely_thigh * uint32_max ≤ rtt * uint32_max =
          mul-le-mul_right uint32_max (omega arith) in
        omega (arith, p))

    d_exact : u32 (mul64 uint32_max config.cc_timely_thigh / rtt) ≡ d
    d_exact =
        let whole : mul64 uint32_max config.cc_timely_thigh ≡ uint32_max * config.cc_timely_thigh =
          omega arith in
        rw whole (omega (arith, d_small))

    product_small : config.cc_timely_beta * b ≤ uint32_max * uint32_max
    product_small = mul-le-mul {m₂ = uint32_max} small_beta (omega arith)

    -- beta * b, and so `a`, against the share.
    beyond : uint32_max * (rtt - config.cc_timely_thigh) ≤ b * rtt
    beyond =
        let cut : d * rtt ≤ uint32_max * config.cc_timely_thigh =
          (le-div_iff_mul-le {k = rtt} {x = d} (omega arith)).0 (omega arith) in
        let split : b * rtt + d * rtt ≡ uint32_max * rtt =
          sym (add-mul b d rtt) ∙ ap (λ n. n * rtt) (omega (arith, d_small)) in
        omega (arith, cut, split)

    share_taken : timely_share rtt ≤ a
    share_taken =
        let x : ℕ = config.cc_timely_beta * (rtt - config.cc_timely_thigh) in
        let y : ℕ = config.cc_timely_beta * b in
        let le : config.cc_timely_beta * (uint32_max * (rtt - config.cc_timely_thigh))
            ≤ config.cc_timely_beta * (b * rtt) =
          mul-le-mul_left config.cc_timely_beta beyond in
        let left : uint32_max * x
            ≡ config.cc_timely_beta * (uint32_max * (rtt - config.cc_timely_thigh)) =
          mul_left_comm uint32_max config.cc_timely_beta (rtt - config.cc_timely_thigh) in
        let right : y * rtt ≡ config.cc_timely_beta * (b * rtt) =
          mul_assoc config.cc_timely_beta b rtt in
        let above : y + 1 ≤ uint32_max * (a + 1) = omega arith in
        let times : (y + 1) * rtt ≤ uint32_max * (a + 1) * rtt = mul-le-mul_right rtt above in
        let spread : (y + 1) * rtt ≡ y * rtt + rtt = add-mul y 1 rtt ∙ omega arith in
        let joined : uint32_max * (a + 1) * rtt ≡ uint32_max * ((a + 1) * rtt) =
          mul_assoc uint32_max (a + 1) rtt in
        let less : uint32_max * x < uint32_max * ((a + 1) * rtt) =
          omega (arith, le, left, right, times, spread, joined, high) in
        let smaller : x < (a + 1) * rtt = lt_of_mul-lt-mul_left uint32_max less in
        let quotient : x / rtt < a + 1 =
          (div-lt_iff_lt-mul {k = rtt} {x = x} {y = a + 1} (omega arith)).1 smaller in
        omega (arith, quotient)

    -- The cut takes the share at least.
    cut_high-le : (rate : ℕ) → rate < 2 ^ 32 → cut_high config rate rtt ≤ timely_cut rate rtt
    unfolding cut_high
    cut_high-le rate small =
        let k : sub32 uint32_max d ≡ b = omega (arith, d_small) in
        let taken : u32 (mul64 config.cc_timely_beta b / uint32_max) ≡ a =
          omega (arith, product_small) in
        let kept : sub32 uint32_max a ≡ uint32_max - a = omega (arith, product_small) in
        let p : rate * (uint32_max - a) ≤ rate * (uint32_max - timely_share rtt) =
          mul-le-mul_left rate (omega (arith, share_taken)) in
        rw (cut_high, d_exact, k, taken, kept) (omega (arith, p))

  -- The rate, clamped to what was used.
  abbrev pub timely_used : Conn → (now : ℕ) → ℕ
  timely_used c now = min c.cc_rate (ceiling c.timely.act_rate now)

  gradient-some :
      (rtt_diff : ℕ) → 0 < config.cc_timely_min_rtt → (g : ℕ) × (gradient config rtt_diff ≡ some g)
  unfolding gradient
  gradient-some rtt_diff some_min =
      let differs : (config.cc_timely_min_rtt == 0) ≡ false = ground arith in
      (
        signed_div (mul64 (sign_extend rtt_diff) 32767) config.cc_timely_min_rtt,
        rw (gradient, differs) refl,
      )

  slope-some :
      (c : Conn) (rtt_diff : ℕ)
      → 0 < config.cc_timely_min_rtt
      → (g : ℕ) × ((if c.timely.rtt_prev == 0 then some 0 else gradient config rtt_diff) ≡ some g)
  slope-some c rtt_diff some_min =
      let (g, e) = gradient-some rtt_diff some_min in
      ((if c.timely.rtt_prev == 0 then 0 else g), ground (arith, e))

  adjusted_high :
      (rate hai_cnt rtt slope : ℕ)
      → config.cc_timely_tlow ≤ rtt
      → config.cc_timely_thigh < rtt
      → adjusted config false rate hai_cnt rtt slope ≡ (cut_high config rate rtt, 0)
  unfolding adjusted
  adjusted_high rate hai_cnt rtt slope low high =
      rw (le→ltb_false rtt config.cc_timely_tlow low, lt→ltb config.cc_timely_thigh rtt high) refl

  not_below_bounds :
      (orig rate most : ℕ)
      → rate ≤ most
      → (config.cc_timely_min_rate ≤ not_below config orig rate)
        × (orig / 2 ≤ not_below config orig rate)
        × (not_below config orig rate ≤ max config.cc_timely_min_rate (max (orig / 2) most))
  not_below_bounds orig rate most h = ground arith

  clamped-used :
      (c : Conn) (now : ℕ)
      → c.cc_rate < 2 ^ 32
      → clamped config false c.cc_rate c.timely.act_rate now ≡ timely_used c now
  clamped-used c now small = ground arith

  -- What timely_measured makes of the connection in this case.
  abbrev backed_off : Conn → (rtt now cur_ts : ℕ) → Conn
  backed_off c rtt now cur_ts = record c {
    cc_rate = not_below config (timely_used c now) (cut_high config (timely_used c now) rtt);
    cc_rtt = rtt;
    cc_rexmits = 0;
    timely = record {
      rtt_prev = rtt;
      rtt_diff =
          if c.timely.rtt_prev == 0
          then c.timely.rtt_diff
          else new_rtt_diff config c.timely.rtt_diff c.timely.rtt_prev rtt;
      hai_cnt = 0;
      act_rate = smoothed c.timely.act_rate now;
      last_ts = cur_ts;
      slowstart = false;
    };
  }

  measured_high :
      (c : Conn) (rtt now cur_ts : ℕ)
      → c.cc_rate < 2 ^ 32
      → 0 < config.cc_timely_min_rtt
      → config.cc_timely_tlow ≤ config.cc_timely_thigh
      → config.cc_timely_thigh < 2 ^ 31
      → config.cc_timely_thigh < rtt
      → timely_measured config c rtt now cur_ts ≡ some (backed_off c rtt now cur_ts)
  unfolding timely_measured
  measured_high c rtt now cur_ts small some_min order small_high high =
      let over : ltb (add32 config.cc_timely_tlow config.cc_timely_thigh / 2) rtt ≡ true =
        lt→ltb _ rtt (omega arith) in
      let off : (c.timely.slowstart
            && not (ltb (add32 config.cc_timely_tlow config.cc_timely_thigh / 2) rtt))
          ≡ false =
        ground arith in
      let rtt_diff : ℕ =
        if c.timely.rtt_prev == 0
        then c.timely.rtt_diff
        else new_rtt_diff config c.timely.rtt_diff c.timely.rtt_prev rtt in
      let (g, slope) = slope-some c rtt_diff some_min in
      rw
        (
          timely_measured,
          slope,
          off,
          clamped-used c now small,
          adjusted_high (timely_used c now) c.timely.hai_cnt rtt g (omega arith) high,
        )
        refl

  -- timely_update with a round-trip time above `cc_timely_thigh`, when time has passed since the last
  -- one, beta below 2^32 and the minimal round-trip time not 0: slow start is over. Of the old rate, or
  -- 1.2 times what was used if that is less, at least the share beta * (1 - thigh / rtt) is taken away,
  -- but never more than half is, and the rate does not fall below the configured minimum.
  pub timely_update_high :
      (c : Conn) (stats : Stats) (cur_ts : ℕ)
      → c.cc_rate < 2 ^ 32
      → c.timely.last_ts < cur_ts
      → cur_ts < 2 ^ 32
      → 0 < config.cc_timely_min_rtt
      → config.cc_timely_tlow ≤ config.cc_timely_thigh
      → config.cc_timely_thigh < 2 ^ 31
      → config.cc_timely_thigh < stats.rtt
      → config.cc_timely_beta ≤ uint32_max
      → (c' : Conn) × (now : ℕ) × (measured stats.c_ackb c.timely.last_ts cur_ts ≡ some now)
        × (timely_update config c stats cur_ts ≡ some c')
        × (c'.timely.slowstart ≡ false)
        × (config.cc_timely_min_rate ≤ c'.cc_rate)
        × (timely_used c now / 2 ≤ c'.cc_rate)
        × (c'.cc_rate
            ≤ max config.cc_timely_min_rate
                (max (timely_used c now / 2) (timely_cut (timely_used c now) stats.rtt)))
  unfolding timely_update
  timely_update_high c stats cur_ts small later time some_min order small_high high small_beta =
      let (now, timed) = measured-some stats.c_ackb c.timely.last_ts cur_ts later time in
      let some_rtt : (stats.rtt == 0) ≡ false = ground arith in
      let result = measured_high c stats.rtt now cur_ts small some_min order small_high high in
      let used_small : timely_used c now < 2 ^ 32 = ground arith in
      let (least, half, most) =
        not_below_bounds (timely_used c now) (cut_high config (timely_used c now) stats.rtt)
          (timely_cut (timely_used c now) stats.rtt)
          (cut_high-le stats.rtt high small_high small_beta (timely_used c now) used_small) in
      (
        backed_off c stats.rtt now cur_ts,
        now,
        timed,
        rw (timely_update, timed, some_rtt, result) refl,
        refl,
        least,
        half,
        most,
      )
