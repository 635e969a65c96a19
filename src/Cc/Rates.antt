-- ===== src/Cc/Rates.antt =====
-- How the rate of dctcp_rate_update (tas_nic/slow/cc.c) answers losses, marks and their absence, and
-- where the measured rate wraps around.
use tas_smartnic.Prelude.{
  sub32, mul32, ◌==◌, ℕ, ◌+◌, ◌/◌, ◌^◌, ◌≤◌, ◌<◌, ◌≡◌, refl, ◌||◌, ◌&&◌, not, true, false, some,
  arith, ltb, if◌then◌else◌, max, min, uint32_max, Bool-cases, inl, inr, add32, le→ltb_false, u32,
}
use tas_smartnic.Cc.State.{Config, Stats, Conn}
use tas_smartnic.Cc.Dctcp.{
  rtt_or_init, congested, marked, new_ecn_rate, measured, ceiling, rate_slowstart, rate_avoidance,
  rate_processed, dctcp_rate_update,
}
use tas_smartnic.Cc.Bounds.{cut-le, ewma-lt}

-- The rate, clamped to what was used.
abbrev pub used : Conn → (now : ℕ) → ℕ
used c now = min c.cc_rate (ceiling c.rate.act_rate now)

-- The most that the rate may be after the counts `drops` and `ecnb`, before the configured minimum.
pub rate_most : Conn → (now drops ecnb : ℕ) → ℕ
rate_most c now drops ecnb =
    if ltb 0 drops || ltb 0 c.cc_rexmits
    then used c now / 2
    else if ltb 0 ecnb
    then used c now
    else uint32_max

pub measured-some :
    (ackb last_ts cur_ts : ℕ)
    → last_ts < cur_ts
    → cur_ts < 2 ^ 32
    → (now : ℕ) × (measured ackb last_ts cur_ts ≡ some now)
unfolding measured
measured-some ackb last_ts cur_ts later small = elim (Bool-cases (last_ts == 0)) [
  | inl first ↦ (0, rw (measured, first) refl)
  | inr other ↦
      let passed : (sub32 cur_ts last_ts == 0) ≡ false = ground arith in
      (mul32 (mul32 ackb 8) 1000 / sub32 cur_ts last_ts, rw (measured, other, passed) refl)
]

-- The measured rate counts the acknowledged bytes modulo 2^26 only: `c_ackb * 8 * 1000` is a 32-bit
-- product, and wraps from 536871 bytes on.
pub measured_wraps :
    (ackb last_ts cur_ts : ℕ)
    → measured (ackb + 2 ^ 26) last_ts cur_ts ≡ measured ackb last_ts cur_ts
unfolding measured
measured_wraps ackb last_ts cur_ts =
    let same : mul32 (mul32 (ackb + 2 ^ 26) 8) 1000 ≡ mul32 (mul32 ackb 8) 1000 = omega arith in
    rw same refl

module _ (config : Config) where
  clamp-used :
      (c : Conn) (now : ℕ)
      → c.cc_rate < 2 ^ 32
      → (if ltb (ceiling c.rate.act_rate now) c.cc_rate
          then u32 (ceiling c.rate.act_rate now)
          else c.cc_rate)
        ≡ used c now
  clamp-used c now small = ground arith

  rate_avoidance-le :
      (c : Conn) (rate ecn_rate drops marks : ℕ)
      → rate < 2 ^ 32
      → ecn_rate < 2 ^ 32
      → rate_avoidance config c rate ecn_rate drops marks ≤ (
          if ltb 0 drops || ltb 0 c.cc_rexmits
          then rate / 2
          else if ltb 0 marks
          then rate
          else uint32_max)
  unfolding rate_avoidance
  rate_avoidance-le c rate ecn_rate drops marks small small_rate =
      ground (arith, cut-le rate ecn_rate)

  floored : (r lo most : ℕ) → r ≤ most → (if ltb r lo then lo else r) ≤ max lo most
  floored r lo most h = ground arith

  new_ecn_rate-lt :
      (ecn_rate ecnb ackb : ℕ) → ecn_rate < 2 ^ 32 → new_ecn_rate config ecn_rate ecnb ackb < 2 ^ 32
  new_ecn_rate-lt ecn_rate ecnb ackb h =
      ground (arith, ewma-lt config.cc_dctcp_weight ecn_rate (marked config ecnb ackb) ackb)

  -- Slow start goes on: nothing bounds the rate but its width.
  free_most :
      (c : Conn) (now drops ecnb : ℕ)
      → c.cc_rate < 2 ^ 32
      → (c.rate.slowstart && not (congested c drops ecnb)) ≡ true
      → rate_slowstart config c (used c now) drops ecnb ≤ rate_most c now drops ecnb
  unfolding rate_slowstart rate_most
  free_most c now drops ecnb small on = ground arith

  slowstart_off :
      (c : Conn) (rate drops ecnb : ℕ)
      → (c.rate.slowstart && not (congested c drops ecnb)) ≡ false
      → rate_slowstart config c rate drops ecnb ≡ rate
  unfolding rate_slowstart
  slowstart_off c rate drops ecnb off = rw off refl

  held_most :
      (c : Conn) (now ackb drops ecnb x : ℕ)
      → x ≤ (
          if ltb 0 drops || ltb 0 c.cc_rexmits
          then used c now / 2
          else if ltb 0 (marked config ecnb ackb)
          then used c now
          else uint32_max)
      → x ≤ rate_most c now drops ecnb
  unfolding rate_most
  held_most c now ackb drops ecnb x h = ground arith

  rate_processed-le :
      (c : Conn) (rtt now drops ackb ecnb : ℕ)
      → c.cc_rate < 2 ^ 32
      → c.rate.ecn_rate < 2 ^ 32
      → (rate_processed config c rtt now drops ackb ecnb).cc_rate
        ≤ max config.cc_dctcp_min (rate_most c now drops ecnb)
  unfolding rate_processed
  rate_processed-le c rtt now drops ackb ecnb small small_rate =
      elim (Bool-cases (c.rate.slowstart && not (congested c drops ecnb))) [
        | inl on ↦
            rw (rate_processed, clamp-used c now small, on)
              (floored _ config.cc_dctcp_min (rate_most c now drops ecnb)
                (free_most c now drops ecnb small on))
        | inr off ↦
            let kept = slowstart_off c (used c now) drops ecnb off in
            let e : ℕ =
              if ltb 0 drops || ltb 0 c.cc_rexmits
              then c.rate.ecn_rate
              else new_ecn_rate config c.rate.ecn_rate ecnb ackb in
            let e_small : e < 2 ^ 32 =
              ground (arith, new_ecn_rate-lt c.rate.ecn_rate ecnb ackb small_rate) in
            let used_small : used c now < 2 ^ 32 = ground arith in
            rw (rate_processed, clamp-used c now small, off, kept)
              (floored _ config.cc_dctcp_min (rate_most c now drops ecnb) (
                held_most c now ackb drops ecnb _ (
                  rate_avoidance-le c (used c now) e drops (marked config ecnb ackb) used_small
                    e_small)))
      ]

  rate_processed-ge :
      (c : Conn) (rtt now drops ackb ecnb : ℕ)
      → config.cc_dctcp_min ≤ (rate_processed config c rtt now drops ackb ecnb).cc_rate
  unfolding rate_processed
  rate_processed-ge c rtt now drops ackb ecnb = ground arith

  rate_processed_zero :
      (c : Conn) (rtt now drops ackb ecnb : ℕ)
      → let r = (rate_processed config c rtt now drops ackb ecnb).rate in
        r.unproc_acks + r.unproc_ackb + r.unproc_ecnb + r.unproc_drops ≡ 0
  unfolding rate_processed
  rate_processed_zero c rtt now drops ackb ecnb = omega arith

  -- dctcp_rate_update with packets enough, when time has passed since the last update: no rate above
  -- what was used times 1.2 after marked bytes, none above the half of that after a loss (but for the
  -- configured minimum), at least the minimum always, and no count is left over.
  pub dctcp_rate_update_lem :
      (c : Conn) (stats : Stats) (cur_ts : ℕ)
      → c.cc_rate < 2 ^ 32
      → c.rate.ecn_rate < 2 ^ 32
      → c.cc_last_ts < cur_ts
      → cur_ts < 2 ^ 32
      → config.cc_dctcp_minpkts ≤ add32 c.rate.unproc_acks stats.c_acks
      → (c' : Conn) × (now : ℕ) × (measured
            (add32 c.rate.unproc_ackb stats.c_ackb)
            c.cc_last_ts
            cur_ts
          ≡ some now)
        × (dctcp_rate_update config c stats cur_ts ≡ some c')
        × (config.cc_dctcp_min ≤ c'.cc_rate)
        × (c'.cc_rate
            ≤ max config.cc_dctcp_min (
                rate_most c now
                  (add32 c.rate.unproc_drops stats.c_drops)
                  (add32 c.rate.unproc_ecnb stats.c_ecnb)))
        × (c'.rate.unproc_acks + c'.rate.unproc_ackb + c'.rate.unproc_ecnb + c'.rate.unproc_drops
            ≡ 0)
  unfolding dctcp_rate_update
  dctcp_rate_update_lem c stats cur_ts small small_rate later time enough =
      let ackb : ℕ = add32 c.rate.unproc_ackb stats.c_ackb in
      let drops : ℕ = add32 c.rate.unproc_drops stats.c_drops in
      let ecnb : ℕ = add32 c.rate.unproc_ecnb stats.c_ecnb in
      let rtt : ℕ = rtt_or_init config stats in
      let (now, timed) = measured-some ackb c.cc_last_ts cur_ts later time in
      let many : ltb (add32 c.rate.unproc_acks stats.c_acks) config.cc_dctcp_minpkts ≡ false =
        le→ltb_false _ _ enough in
      (
        rate_processed config c rtt now drops ackb ecnb,
        now,
        timed,
        rw (dctcp_rate_update, many, timed) refl,
        rate_processed-ge c rtt now drops ackb ecnb,
        rate_processed-le c rtt now drops ackb ecnb small small_rate,
        rate_processed_zero c rtt now drops ackb ecnb,
      )
