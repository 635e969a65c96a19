-- ===== src/Cc/Sleeping.antt =====
-- How long the slow path may sleep: cc_next_ts (tas_nic/slow/cc.c) and slowpath_block
-- (tas_nic/slow/kernel.c).
use tas_smartnic.Prelude.{
  ap, ◌∙◌, ℕ, ◌+◌, ◌-◌, ◌/◌, ◌^◌, ◌≤◌, ◌<◌, ◌≡◌, refl, inl, inr, false, some, List, [], ◌∷◌, arith,
  ltb, ◌==◌, if◌then◌else◌, sub32, mul32, Bool-cases, max, min, All,
}
use tas_smartnic.Cc.State.{Config, Conn}
use tas_smartnic.Cc.Control.{State, next_due, cc_next_ts, block_ms}

-- The time until a connection is due, for a connection that is open and not overdue by 2^31 or more:
-- its interval less what has passed, or 0.
pub wait : Config → Conn → (cur_ts : ℕ) → ℕ
wait config c cur_ts = mul32 c.cc_rtt config.cc_control_interval - sub32 cur_ts c.cc_last_ts

-- The interval and the time that has passed are below 2^31.
abbrev pub Timely31 : Config → Conn → ℕ → Type 0
Timely31 config c cur_ts =
    (mul32 c.cc_rtt config.cc_control_interval < 2 ^ 31) × (sub32 cur_ts c.cc_last_ts < 2 ^ 31)

-- The least of `ts` and the times until the open connections are due.
pub soonest : Config → (ℕ → Conn) → (cur_ts : ℕ) → List ℕ → (ts : ℕ) → ℕ
soonest config conn cur_ts [] ts = ts
soonest config conn cur_ts (x ∷ xs) ts =
    let rest = soonest config conn cur_ts xs ts in
    if (conn x).opened then min (wait config (conn x) cur_ts) rest else rest

module _ (config : Config) where
  soonest-min :
      (conn : ℕ → Conn) (cur_ts : ℕ) (xs : List ℕ) (w ts : ℕ)
      → soonest config conn cur_ts xs (min w ts) ≡ min w (soonest config conn cur_ts xs ts)
  unfolding soonest
  soonest-min conn cur_ts [] w ts = refl
  soonest-min conn cur_ts (x ∷ xs) w ts = elim (Bool-cases (conn x).opened) [
    | inl yes_open ↦ rw (yes_open, soonest-min conn cur_ts xs w ts) (omega arith)
    | inr shut ↦ rw (shut, soonest-min conn cur_ts xs w ts) refl
  ]

  -- What the loop makes of its bound at an open connection.
  next_bound :
      (c : Conn) (cur_ts ts : ℕ)
      → Timely31 config c cur_ts
      → (let left = sub32 (mul32 c.cc_rtt config.cc_control_interval) (sub32 cur_ts c.cc_last_ts) in
          if ltb left (2 ^ 31) then (if ltb ts left then ts else left) else 0)
        ≡ min (wait config c cur_ts) ts
  unfolding wait
  next_bound c cur_ts ts (interval, passed) = ground arith

  next_due-soonest :
      (conn : ℕ → Conn) (cur_ts : ℕ) (xs : List ℕ) (ts : ℕ)
      → All (λ x. Timely31 config (conn x) cur_ts) xs
      → next_due config conn cur_ts xs ts ≡ soonest config conn cur_ts xs ts
  unfolding next_due soonest wait
  next_due-soonest conn cur_ts [] ts all = refl
  next_due-soonest conn cur_ts (x ∷ xs) ts (t31, all) = elim (Bool-cases (conn x).opened) [
    | inl yes_open ↦
        rw (yes_open, next_bound (conn x) cur_ts ts t31)
          (next_due-soonest conn cur_ts xs (min (wait config (conn x) cur_ts) ts) all
            ∙ soonest-min conn cur_ts xs (wait config (conn x) cur_ts) ts)
    | inr shut ↦ rw shut (next_due-soonest conn cur_ts xs ts all)
  ]

  answered :
      (first granularity : ℕ)
      → (if first == 2 ^ 32 - 1
          then 2 ^ 32 - 1
          else if ltb granularity first
          then first
          else granularity)
        ≡ (if first == 2 ^ 32 - 1 then 2 ^ 32 - 1 else max first granularity)
  answered first granularity = ground arith

  -- Right after a poll: cc_next_ts is the time until the first open connection is due, or the
  -- granularity if that is longer, or no timeout if no connection is open.
  pub cc_next_ts_lem :
      (s : State) (cur_ts : ℕ)
      → s.last_ts ≡ cur_ts
      → config.cc_control_granularity < 2 ^ 32
      → All (λ x. Timely31 config (s.conn x) cur_ts) s.conns
      → let first = soonest config s.conn cur_ts s.conns (2 ^ 32 - 1) in
        cc_next_ts config s cur_ts
        ≡ some (if first == 2 ^ 32 - 1 then 2 ^ 32 - 1 else max first config.cc_control_granularity)
  unfolding cc_next_ts
  cc_next_ts_lem s cur_ts now small all =
      let due : next_due config s.conn cur_ts s.conns (2 ^ 32 - 1)
          ≡ soonest config s.conn cur_ts s.conns (2 ^ 32 - 1) =
        next_due-soonest s.conn cur_ts s.conns (2 ^ 32 - 1) all in
      let today : ltb cur_ts s.last_ts ≡ false = ground arith in
      let rest : sub32 config.cc_control_granularity (sub32 cur_ts s.last_ts)
          ≡ config.cc_control_granularity =
        omega arith in
      rw (cc_next_ts, today, rest, due)
        (ap some (
          answered (soonest config s.conn cur_ts s.conns (2 ^ 32 - 1))
            config.cc_control_granularity))

  -- With more than the granularity and less than 2^31 microseconds passed since the last poll, and a
  -- connection that has a deadline, the rest of the granularity wraps around: cc_next_ts answers more
  -- than half an hour, although the connection may be due.
  pub cc_next_ts_late :
      (s : State) (cur_ts : ℕ)
      → cur_ts < 2 ^ 32
      → s.last_ts + config.cc_control_granularity < cur_ts
      → cur_ts < s.last_ts + 2 ^ 31
      → next_due config s.conn cur_ts s.conns (2 ^ 32 - 1) < 2 ^ 32 - 1
      → (ts : ℕ) × (cc_next_ts config s cur_ts ≡ some ts) × (2 ^ 31 ≤ ts)
  unfolding cc_next_ts
  cc_next_ts_late s cur_ts small late recent due =
      let rest : ℕ = sub32 config.cc_control_granularity (sub32 cur_ts s.last_ts) in
      let ts : ℕ = next_due config s.conn cur_ts s.conns (2 ^ 32 - 1) in
      let today : ltb cur_ts s.last_ts ≡ false = ground arith in
      let some_due : (ts == 2 ^ 32 - 1) ≡ false = ground arith in
      let wraps : 2 ^ 31 ≤ rest = omega arith in
      ((if ltb rest ts then ts else rest), rw (cc_next_ts, today, some_due) refl, ground arith)

-- slowpath_block sleeps 10 milliseconds when only one of its two sources has a timeout, whatever that
-- is; otherwise it takes the earlier one, up to a second.
pub block_ms_lem :
    (t u : ℕ)
    → t < 2 ^ 32 - 1
    → u < 2 ^ 32 - 1
    → (block_ms t (2 ^ 32 - 1) ≡ 10)
      × (block_ms (2 ^ 32 - 1) u ≡ 10)
      × (block_ms t u ≡ (if ltb 1000 (min t u / 1000) then 10 else min t u / 1000))
unfolding block_ms
block_ms_lem t u ht hu = ground arith
