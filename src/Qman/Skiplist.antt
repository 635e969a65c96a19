-- ===== src/Qman/Skiplist.antt =====
-- The skip list of rate-limited queues of tas_nic/fast/qman.c. A walk along a level runs on fuel. `ffs`
-- gives __builtin_ffs of the random numbers of utils_rng_gen32, in order.
use tas_smartnic.Prelude.{
  leb, ◌==◌, ◌/◌, ltb, not, ◌*◌, ◌+◌, ◌-◌, if◌then◌else◌, u32, ℕ, zero, suc, true, Option, none,
  some,
}
use tas_smartnic.Qman.Times.{timestamp_lessthaneq}
use tas_smartnic.Qman.Thread.{
  Queue, Thread, put, with_queue, set_next, is_idle, queue_activate_nolimit,
}

-- QMAN_SKIPLIST_LEVELS
abbrev pub levels : ℕ
levels = 4

-- The bytes that a queue sends when it fires.
abbrev pub chunk : Queue → ℕ
chunk q = if leb q.avail q.max_chunk then q.avail else q.max_chunk

-- queue_new_ts
unfoldable pub queue_new_ts : Thread → Queue → (bytes : ℕ) → ℕ
queue_new_ts t q bytes = u32 (t.ts_virtual + bytes * 8 * 1000000 / q.rate)

-- The stamp that a queue is entered with: not in the past, and not later than if it had just sent
-- max_chunk bytes.
unfoldable pub entry_ts : Thread → Queue → ℕ
entry_ts t q =
    let max_ts : ℕ = queue_new_ts t q q.max_chunk in
    if timestamp_lessthaneq t.ts_virtual q.next_ts t.ts_virtual
    then t.ts_virtual
    else if not (timestamp_lessthaneq t.ts_virtual q.next_ts max_ts)
    then max_ts
    else q.next_ts

-- The walk along a level from `idx` on: the last queue whose stamp is not later, or `pred`.
unfoldable pub walk : ℕ → Thread → (ts l : ℕ) → (pred idx : Option ℕ) → Option (Option ℕ)
walk zero t ts l pred idx = none
walk (suc fuel) t ts l pred none = some pred
walk (suc fuel) t ts l pred (some i) =
    let rest = walk fuel t ts l (some i) ((t.queues i).next_idxs l) in
    if timestamp_lessthaneq t.ts_virtual (t.queues i).next_ts ts then rest else some pred

-- The predecessors at the levels below `l`, from the top down.
unfoldable pub find_preds : ℕ → Thread → (ts l : ℕ) → Option ℕ → Option (ℕ → Option ℕ)
find_preds fuel t ts zero pred = some (λ k. none)
find_preds fuel t ts (suc l) pred =
    elim (walk fuel t ts l pred (elim pred [ none ↦ t.head_idx l | some p ↦ some p ])) [
      | none ↦ none
      | some p ↦ elim (find_preds fuel t ts l p) [ none ↦ none | some preds ↦ some (put preds l p) ]
    ]

-- The queue in a level behind its predecessor, or at the level's head.
unfoldable pub link : Thread → (q_idx l : ℕ) → Option ℕ → Thread
link t q_idx l (some p) = set_next (set_next t q_idx l ((t.queues p).next_idxs l)) p l (some q_idx)
link t q_idx l none = record (set_next t q_idx l (t.head_idx l)) {
  head_idx = put t.head_idx l (some q_idx);
}

-- The levels below `l`, from the top down.
unfoldable pub insert_levels : Thread → (q_idx level : ℕ) → (ℕ → Option ℕ) → ℕ → Thread
insert_levels t q_idx level preds zero = t
insert_levels t q_idx level preds (suc l) =
    let t' : Thread = if ltb level l then set_next t q_idx l none else link t q_idx l (preds l) in
    insert_levels t' q_idx level preds l

-- The queue leaves the levels that it heads, from level `l` on, `n` at most.
unfoldable pub unlink_head : ℕ → Thread → (idx l : ℕ) → Thread
unlink_head zero t idx l = t
unlink_head (suc n) t idx l =
    let rest =
      unlink_head n (record t { head_idx = put t.head_idx l ((t.queues idx).next_idxs l) }) idx
        (l + 1) in
    elim (t.head_idx l) [ none ↦ t | some i ↦ if i == idx then rest else t ]

module _ (ffs : ℕ → ℕ) (fuel : ℕ) where
  -- queue_level, for the next random number
  unfoldable pub queue_level : Thread → ℕ
  queue_level t = let x : ℕ = (ffs t.draws - 1) / 3 in if ltb x levels then x else levels - 1

  -- queue_activate_skiplist; `none` is its assertion, or a walk that does not end.
  unfoldable pub queue_activate_skiplist : Thread → ℕ → Option Thread
  queue_activate_skiplist t q_idx =
      let q : Queue = t.queues q_idx in
      let ts : ℕ = entry_ts t q in
      let t1 : Thread = with_queue t q_idx (record q { next_ts = ts }) in
      if not (is_idle q) then none else elim (find_preds fuel t1 ts levels none) [
        | none ↦ none
        | some preds ↦
            let t2 =
              insert_levels (record t1 { draws = t1.draws + 1 }) q_idx (queue_level t1) preds
                levels in
            some (with_queue t2 q_idx (record (t2.queues q_idx) { in_skiplist = true }))
      ]

  -- queue_activate
  unfoldable pub queue_activate : Thread → ℕ → Option Thread
  queue_activate t idx =
      if (t.queues idx).rate == 0
      then queue_activate_nolimit t idx
      else queue_activate_skiplist t idx

  -- queue_fire, with the bytes that it reports
  unfoldable pub queue_fire : Thread → ℕ → Option (Thread × ℕ)
  queue_fire t idx =
      let q : Queue = t.queues idx in
      let bytes : ℕ = chunk q in
      let q' : Queue = record q {
        avail = q.avail - bytes;
        next_ts = if ltb 0 q.rate then queue_new_ts t q bytes else q.next_ts;
      } in
      let t' : Thread = with_queue t idx q' in
      if q.avail == 0
      then none
      else if ltb 0 (q.avail - bytes)
      then (elim (queue_activate t' idx) [ none ↦ none | some u ↦ some (u, bytes) ])
      else some (t', bytes)
