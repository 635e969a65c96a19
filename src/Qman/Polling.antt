-- ===== src/Qman/Polling.antt =====
-- Polling and setting the queues of tas_nic/fast/qman.c. The loops of the polls run on fuel; the time
-- is an argument.
use tas_smartnic.Prelude.{
  signed_div, u32, ◌++◌, ◌^◌, ◌&&◌, not, leb, ◌||◌, length, sub32, ◌==◌, ◌-◌, add32, if◌then◌else◌,
  ℕ, zero, suc, Bool, true, false, Option, none, some, List, [], ◌∷◌,
}
use tas_smartnic.Qman.Times.{timestamp_lessthaneq, rel_time}
use tas_smartnic.Qman.Thread.{Queue, Thread, with_queue, is_idle, take_nolimit}
use tas_smartnic.Qman.Skiplist.{levels, queue_fire, queue_activate, unlink_head}

-- A queue that fires, with its bytes.
pub record Fired : Type 0 where
  pub id : ℕ
  pub bytes : ℕ

-- The answer of a poll: the state and what fired, in order. `stopped` is a failed assertion.
pub data Polled : Type 0 where
  polled : Thread → List Fired → Polled
  stopped : Polled
  out_of_fuel : Polled

abbrev pub also : Fired → Polled → Polled
also f (polled t fs) = polled t (f ∷ fs)
also f stopped = stopped
also f out_of_fuel = out_of_fuel

module _ (ffs : ℕ → ℕ) (fuel : ℕ) where
  -- poll_nolimit, for `num` queues at most
  unfoldable pub poll_nolimit : ℕ → Thread → (num : ℕ) → Polled
  poll_nolimit zero t num = out_of_fuel
  poll_nolimit (suc n) t num = elim t.nolimit_head_idx [
    | none ↦ polled t []
    | some idx ↦
        let u : Thread = take_nolimit t idx in
        if num == 0
        then polled t []
        else if (u.queues idx).avail == 0
        then poll_nolimit n u num
        else elim (queue_fire ffs fuel u idx) [
          | none ↦ stopped
          | some (v, bytes) ↦ also (record { id = idx; bytes = bytes }) (poll_nolimit n v (num - 1))
        ]
  ]

  -- poll_skiplist, up to the update of ts_real, for `num` more queues
  unfoldable pub skiplist_loop : ℕ → Thread → (max_vts num : ℕ) → Polled
  skiplist_loop zero t max_vts num = out_of_fuel
  skiplist_loop (suc n) t max_vts num =
      let at_limit : Thread = elim (t.head_idx 0) [
        | none ↦ record t { ts_virtual = max_vts }
        | some idx ↦
            if timestamp_lessthaneq t.ts_virtual (t.queues idx).next_ts max_vts
            then record t { ts_virtual = (t.queues idx).next_ts }
            else record t { ts_virtual = max_vts }
      ] in
      if num == 0 then polled at_limit [] else elim (t.head_idx 0) [
        | none ↦ polled (record t { ts_virtual = max_vts }) []
        | some idx ↦
            let q : Queue = t.queues idx in
            let t1 = unlink_head levels t idx 0 in
            let t2 = record (with_queue t1 idx (record q { in_skiplist = false })) {
              ts_virtual = q.next_ts;
            } in
            if not (timestamp_lessthaneq t.ts_virtual q.next_ts max_vts)
            then polled (record t { ts_virtual = max_vts }) []
            else if not q.in_skiplist
            then stopped
            else if q.avail == 0
            then skiplist_loop n t2 max_vts num
            else elim (queue_fire ffs fuel t2 idx) [
              | none ↦ stopped
              | some (u, bytes) ↦
                  also (record { id = idx; bytes = bytes }) (skiplist_loop n u max_vts (num - 1))
            ]
      ]

  -- poll_skiplist
  unfoldable pub poll_skiplist : ℕ → Thread → (cur_ts num : ℕ) → Polled
  poll_skiplist n t cur_ts num =
      elim (skiplist_loop n t (add32 t.ts_virtual (sub32 cur_ts t.ts_real)) num) [
        | polled u fs ↦ polled (record u { ts_real = cur_ts }) fs
        | stopped ↦ stopped
        | out_of_fuel ↦ out_of_fuel
      ]

  -- The second poll of qman_poll, for what the first one leaves.
  unfoldable pub then_poll : Polled → (Thread → ℕ → Polled) → ℕ → Polled
  then_poll (polled t fs) second num = elim (second t (num - length fs)) [
    | polled u gs ↦ polled (record u { nolimit_first = not u.nolimit_first }) (fs ++ gs)
    | stopped ↦ stopped
    | out_of_fuel ↦ out_of_fuel
  ]
  then_poll stopped second num = stopped
  then_poll out_of_fuel second num = out_of_fuel

  -- qman_poll
  unfoldable pub qman_poll : ℕ → Thread → (ts num : ℕ) → Polled
  unfolding then_poll
  qman_poll n t ts num =
      if t.nolimit_first
      then then_poll (poll_nolimit n t num) (λ u m. poll_skiplist n u ts m) num
      else then_poll (poll_skiplist n t ts num) (λ u m. poll_nolimit n u m) num

  -- The flags of qman_set.
  pub record SetFlags : Type 0 where
    pub set_rate : Bool
    pub set_maxchunk : Bool
    pub set_avail : Bool
    pub add_avail : Bool

  -- set_impl; `none` is a failed assertion.
  unfoldable pub set_impl : Thread → (idx rate avail max_chunk : ℕ) → SetFlags → Option Thread
  set_impl t idx rate avail max_chunk flags =
      let q : Queue = t.queues idx in
      let q' : Queue = record q {
        rate = if flags.set_rate then rate else q.rate;
        max_chunk = if flags.set_maxchunk then max_chunk else q.max_chunk;
        avail =
            if flags.set_avail
            then avail
            else if flags.add_avail
            then add32 q.avail avail
            else q.avail;
      } in
      let t' : Thread = with_queue t idx q' in
      if (flags.set_avail || flags.add_avail) && not (q'.avail == 0) && is_idle q'
      then queue_activate ffs fuel t' idx
      else some t'

  -- qman_set: `none` in the pair is -1
  unfoldable pub qman_set :
      Thread → (id rate avail max_chunk : ℕ) → SetFlags → Option (Bool × Thread)
  unfolding set_impl
  qman_set t id rate avail max_chunk flags =
      if leb 131072 id
      then some (false, t)
      else elim (set_impl t id rate avail max_chunk flags) [ none ↦ none | some u ↦ some (true, u) ]

-- qman_next_ts, at the time `ts`: microseconds, or 2^32 - 1 for no timeout
unfoldable pub qman_next_ts : Thread → (ts : ℕ) → ℕ
qman_next_ts t ts =
    let ret_ts : ℕ = add32 t.ts_virtual (sub32 ts t.ts_real) in
    elim t.nolimit_head_idx [
      | some idx ↦ 0
      | none ↦ elim (t.head_idx 0) [
        | none ↦ 2 ^ 32 - 1
        | some idx ↦
            if timestamp_lessthaneq t.ts_virtual (t.queues idx).next_ts ret_ts
            then 0
            else u32 (signed_div (rel_time ret_ts (t.queues idx).next_ts) 1000)
      ]
    ]
