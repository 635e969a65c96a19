-- ===== src/Timeout/Clock.antt =====
-- Time stamps of 28 bits and the signed distance between them (rel_time in lib/utils/timeout.c). An
-- int32_t is its bit pattern.
use tas_smartnic.Prelude.{
  ℕ, ◌+◌, ◌-◌, ◌%◌, ◌^◌, ◌<◌, ◌≡◌, ◌≢◌, Bool, ◌&&◌, ◌==◌, ltb, leb, if◌then◌else◌, add32, sub32,
  arith,
}

-- `x & TIMEOUT_MASK`
abbrev pub mask : ℕ → ℕ
mask x = x % 2 ^ 28

-- `1 << (TIMEOUT_BITS - 1)`
abbrev pub middle : ℕ
middle = 2 ^ 27

-- rel_time of a stamp `to_ts` below 2^28.
unfoldable pub rel_stamp : ℕ → ℕ → ℕ
rel_stamp cur_ts to_ts =
    let start : ℕ = mask (sub32 cur_ts middle) in
    let end : ℕ = mask (add32 cur_ts middle) + 1 in
    if ltb cur_ts middle
    then if leb start to_ts && ltb to_ts (2 ^ 28)
      then sub32 (sub32 to_ts start) middle
      else sub32 to_ts cur_ts
    else if cur_ts == middle
    then sub32 to_ts cur_ts
    else if leb 0 cur_ts && ltb to_ts end
    then add32 to_ts (sub32 (2 ^ 28) cur_ts)
    else sub32 to_ts cur_ts

-- A pattern that stands for a negative number.
abbrev pub is_negative : ℕ → Bool
is_negative w = leb (2 ^ 31) w

-- How far `to_ts` lies ahead of `cur_ts`, going round at 2^28.
abbrev pub ahead : ℕ → ℕ → ℕ
ahead cur_ts to_ts = (to_ts + 2 ^ 28 - cur_ts) % 2 ^ 28

-- rel_time is the signed distance: up to half of the clock's range it is the way ahead, and beyond it
-- the way back, as a negative number. At exactly half, which no timeout can be armed for, it depends
-- on `cur_ts`.
pub rel_stamp_lem :
    (cur_ts to_ts : ℕ)
    → cur_ts < 2 ^ 28
    → to_ts < 2 ^ 28
    → ahead cur_ts to_ts ≢ middle
    → rel_stamp cur_ts to_ts ≡ (
        if ltb (ahead cur_ts to_ts) middle
        then ahead cur_ts to_ts
        else ahead cur_ts to_ts + 2 ^ 32 - 2 ^ 28)
unfolding rel_stamp
rel_stamp_lem c t a b h = ground arith

pub ahead-rel_stamp :
    (cur_ts to_ts : ℕ)
    → cur_ts < 2 ^ 28
    → to_ts < 2 ^ 28
    → rel_stamp cur_ts to_ts < middle
    → ahead cur_ts to_ts ≡ rel_stamp cur_ts to_ts
unfolding rel_stamp
ahead-rel_stamp c t a b h = ground arith

ahead-later :
    (cur_ts d to_ts : ℕ)
    → cur_ts < 2 ^ 28
    → to_ts < 2 ^ 28
    → d < middle
    → ahead (mask (cur_ts + d)) to_ts ≡ (
        if leb d (ahead cur_ts to_ts)
        then ahead cur_ts to_ts - d
        else 2 ^ 28 + ahead cur_ts to_ts - d)
ahead-later c d t a b h = ground arith

-- As time goes on by less than the half range, a distance ahead shrinks by as much.
pub rel_stamp-later :
    (cur_ts d to_ts r : ℕ)
    → cur_ts < 2 ^ 28
    → to_ts < 2 ^ 28
    → r < middle
    → rel_stamp cur_ts to_ts ≡ r
    → d < middle
    → rel_stamp (mask (cur_ts + d)) to_ts ≡ (if leb d r then r - d else 2 ^ 32 + r - d)
rel_stamp-later c d t r a b k e h =
    ground (arith, ahead-rel_stamp c t, ahead-later c d t a b h, rel_stamp_lem (mask (c + d)) t)
