-- ===== src/Qman/Times.antt =====
-- 32-bit time stamps of tas_nic/fast/qman.c and their order around the virtual time. An int64_t is its
-- bit pattern.
use tas_smartnic.Prelude.{
  ◌&&◌, ℕ, ◌+◌, ◌-◌, ◌%◌, ◌^◌, ◌<◌, ◌≡◌, ◌≢◌, Bool, ◌==◌, ltb, leb, if◌then◌else◌, sub64, add64,
  arith,
}

-- rel_time
unfoldable pub rel_time : (cur_ts ts : ℕ) → ℕ
rel_time cur_ts ts =
    let middle : ℕ = 2 ^ 31 in
    let start : ℕ = sub64 cur_ts middle % 2 ^ 32 in
    let end : ℕ = add64 cur_ts middle % 2 ^ 32 + 1 in
    if ltb cur_ts middle
    then if leb start ts && ltb ts (2 ^ 32) then sub64 (sub64 ts start) middle else sub64 ts cur_ts
    else if cur_ts == middle
    then sub64 ts cur_ts
    else if leb 0 cur_ts && ltb ts end
    then add64 ts (sub64 (2 ^ 32) cur_ts)
    else sub64 ts cur_ts

-- `a <= b` of two int64_t
abbrev pub signed_leb : ℕ → ℕ → Bool
signed_leb a b = leb ((a + 2 ^ 63) % 2 ^ 64) ((b + 2 ^ 63) % 2 ^ 64)

-- timestamp_lessthaneq, at the virtual time `cur_ts`
unfoldable pub timestamp_lessthaneq : (cur_ts a b : ℕ) → Bool
unfolding rel_time
timestamp_lessthaneq cur_ts a b = signed_leb (rel_time cur_ts a) (rel_time cur_ts b)

-- The place of a stamp in the 2^32 stamps around `cur_ts`, counted from the one half a turn behind it.
abbrev pub place : ℕ → ℕ → ℕ
place cur_ts ts = (ts + 2 ^ 31 + 2 ^ 32 - cur_ts) % 2 ^ 32

place-rel_time :
    (cur_ts ts : ℕ)
    → cur_ts < 2 ^ 32
    → ts < 2 ^ 32
    → place cur_ts ts ≢ 0
    → (rel_time cur_ts ts + 2 ^ 63) % 2 ^ 64 ≡ 2 ^ 63 - 2 ^ 31 + place cur_ts ts
unfolding rel_time
place-rel_time cur_ts ts c t half = ground arith

-- The order of two stamps is their order on the circle of 2^32 stamps, cut half a turn away from the
-- virtual time, for stamps that are not exactly half a turn away.
pub timestamp_lessthaneq_lem :
    (cur_ts a b : ℕ)
    → cur_ts < 2 ^ 32
    → a < 2 ^ 32
    → b < 2 ^ 32
    → place cur_ts a ≢ 0
    → place cur_ts b ≢ 0
    → timestamp_lessthaneq cur_ts a b ≡ leb (place cur_ts a) (place cur_ts b)
unfolding timestamp_lessthaneq
timestamp_lessthaneq_lem cur_ts a b c ha hb na nb =
    rw (place-rel_time cur_ts a c ha na, place-rel_time cur_ts b c hb nb) (ground arith)
