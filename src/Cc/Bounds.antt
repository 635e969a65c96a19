-- ===== src/Cc/Bounds.antt =====
-- Bounds of the fixed-point arithmetic of tas_nic/slow/cc.c.
use native.Mathlib.Nat.{div-le_of_le-mul}
use tas_smartnic.Prelude.{
  false, ℕ, ◌+◌, ◌-◌, ◌*◌, ◌/◌, ◌^◌, ◌≤◌, ◌<◌, ◌≡◌, refl, some, arith, ltb, u32, sub32, mul64,
  add64, uint32_max, if◌then◌else◌, ◌==◌,
}
use tas_smartnic.Cc.State.{Config, Stats}
use tas_smartnic.Cc.Dctcp.{rtt_or_init, cut, ewma, send_time, window_to_rate}

-- A cut never makes anything larger.
pub cut-le : (x ecn_rate : ℕ) → x < 2 ^ 32 → ecn_rate < 2 ^ 32 → cut x ecn_rate ≤ x
unfolding cut
cut-le x ecn_rate small rate_small =
    let k : ℕ = sub32 uint32_max (ecn_rate / 2) in
    let below : k ≤ uint32_max = omega arith in
    let p : x * k ≤ x * uint32_max = grind arith in omega arith

-- The share of marked bytes is a fraction of 2^32 - 1.
share : (ecnb ackb : ℕ) → ecnb ≤ ackb → ecnb * uint32_max / ackb ≤ uint32_max
share ecnb ackb h = div-le_of_le-mul ackb (omega arith)

mean :
    (n w o : ℕ)
    → n ≤ uint32_max
    → w ≤ uint32_max
    → o ≤ uint32_max
    → u32 (add64 (mul64 n w) (mul64 o (sub32 uint32_max w)) / uint32_max)
      ≡ (n * w + o * (uint32_max - w)) / uint32_max
mean n w o hn hw ho =
    let k : sub32 uint32_max w ≡ uint32_max - w = omega arith in
    let p : n * w ≤ uint32_max * w = grind arith in
    let q : o * (uint32_max - w) ≤ uint32_max * (uint32_max - w) = grind arith in rw k (omega arith)

-- The estimate is the weighted mean of the share and the old estimate, and a fraction again: nothing
-- is cut off on the way.
pub ewma_lem :
    (weight ecn_rate ecnb ackb : ℕ)
    → weight ≤ uint32_max
    → ecn_rate ≤ uint32_max
    → ecnb ≤ ackb
    → ackb < 2 ^ 32
    → ewma weight ecn_rate ecnb ackb
      ≡ (ecnb * uint32_max / ackb * weight + ecn_rate * (uint32_max - weight)) / uint32_max
unfolding ewma
ewma_lem weight ecn_rate ecnb ackb w o le small =
    let exact : mul64 ecnb uint32_max ≡ ecnb * uint32_max = omega arith in
    rw (ewma, exact) (mean (ecnb * uint32_max / ackb) weight ecn_rate (share ecnb ackb le) w o)

pub send_time-pos :
    (config : Config) (window rtt : ℕ) → 0 < rtt → rtt < 4294967 → 0 < send_time config window rtt
unfolding send_time
send_time-pos config window rtt some_rtt short = ground arith

pub window_to_rate-some :
    (config : Config) (window rtt : ℕ)
    → 0 < config.tcp_link_bw
    → 0 < rtt
    → rtt < 4294967
    → (rate : ℕ) × (window_to_rate config window rtt ≡ some rate)
unfolding window_to_rate
window_to_rate-some config window rtt bw some_rtt short =
    let timed = send_time-pos config window rtt some_rtt short in
    let link : (config.tcp_link_bw == 0) ≡ false = ground arith in
    let time : (send_time config window rtt == 0) ≡ false = ground arith in
    let rate : ℕ = mul64 (mul64 window 8) 1000000 / send_time config window rtt in
    ((if ltb uint32_max rate then uint32_max else rate), rw (window_to_rate, link, time) refl)

pub ewma-lt : (weight ecn_rate ecnb ackb : ℕ) → ewma weight ecn_rate ecnb ackb < 2 ^ 32
unfolding ewma
ewma-lt weight ecn_rate ecnb ackb = omega arith

pub rtt_or_init-pos :
    (config : Config) (stats : Stats)
    → 0 < config.tcp_rtt_init
    → config.tcp_rtt_init < 4294967
    → stats.rtt < 4294967
    → (0 < rtt_or_init config stats) × (rtt_or_init config stats < 4294967)
rtt_or_init-pos config stats some_rtt small short = ground arith
