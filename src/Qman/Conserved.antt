-- ===== src/Qman/Conserved.antt =====
-- The bytes that the polls of tas_nic/fast/qman.c report are those that leave the queues.
use tas_smartnic.Prelude.{
  length-append, sub32, not, ◌++◌, add32, sym, ◌≢◌, ==-same, ◌-◌, if◌then◌else◌, inr, arith, inl,
  ltb, ◌==◌, Option-cases, ◌∙◌, Bool-cases, ℕ, zero, suc, Bool, true, false, Option, none, some,
  List, [], ◌∷◌, refl, ◌≡◌, ◌+◌, ◌≤◌, length,
}
use tas_smartnic.Qman.Times.{timestamp_lessthaneq}
use tas_smartnic.Qman.Thread.{Queue, Thread, with_queue, take_nolimit}
use tas_smartnic.Qman.Skiplist.{
  chunk, queue_new_ts, levels, queue_fire, queue_activate, unlink_head,
}
use tas_smartnic.Qman.Polling.{
  Fired, Polled, polled, stopped, out_of_fuel, also, poll_nolimit, skiplist_loop, poll_skiplist,
  then_poll, qman_poll,
}
use tas_smartnic.Qman.Same.{held, Same, put-avail, unlink_head-Same, activate-SameIn}

-- The bytes that a poll reports for a queue.
unfoldable pub sent : ℕ → List Fired → ℕ
sent i [] = 0
sent i (f ∷ fs) = (if i == f.id then f.bytes else 0) + sent i fs

module _ (ffs : ℕ → ℕ) (fuel : ℕ) where
  -- What queue_fire takes from a queue.
  abbrev Takes : Thread → ℕ → Option (Thread × ℕ) → Type 0
  Takes t idx none = Unit
  Takes t idx (some (u, bytes)) =
      ((i : ℕ) → held u i + (if i == idx then bytes else 0) ≡ held t i)
      × (bytes ≤ (t.queues idx).max_chunk)

  -- The queue without the bytes, and the queues with it in its place.
  abbrev pub drained : Thread → ℕ → ℕ → Queue
  drained t idx bytes =
      let q : Queue = t.queues idx in
      record q {
        avail = q.avail - bytes;
        next_ts = if ltb 0 q.rate then queue_new_ts t q bytes else q.next_ts;
      }

  abbrev pub taken : Thread → ℕ → ℕ → Thread
  taken t idx bytes = with_queue t idx (drained t idx bytes)

  taken-held :
      (t : Thread) (idx bytes i : ℕ)
      → bytes ≤ held t idx
      → held (taken t idx bytes) i + (if i == idx then bytes else 0) ≡ held t i
  taken-held t idx bytes i h = elim (Bool-cases (i == idx)) [
    | inl here ↦
        let same : i ≡ idx = ground arith in
        let there : held (taken t idx bytes) idx ≡ held t idx - bytes =
          rw (held, ==-same idx) refl in
        rw (here, same, there) (omega arith)
    | inr other ↦
        let kept : held (taken t idx bytes) i ≡ held t i = rw (held, other) refl in
        rw (other, kept) (omega arith)
  ]

  fire-Takes : (t : Thread) (idx : ℕ) → Takes t idx (queue_fire ffs fuel t idx)
  unfolding queue_fire
  fire-Takes t idx =
      let q : Queue = t.queues idx in
      let small : chunk (t.queues idx) ≤ held t idx = ground arith in
      let fits : chunk (t.queues idx) ≤ (t.queues idx).max_chunk = ground arith in
      let took = taken-held t idx (chunk (t.queues idx)) in
      elim (Bool-cases (q.avail == 0)) [
        | inl dry ↦ rw (queue_fire, dry) tt
        | inr wet ↦ elim (Bool-cases (ltb 0 (q.avail - chunk q))) [
          | inr done ↦ rw (queue_fire, wet, done) ((λ i. took i small), fits)
          | inl more ↦
              elim (Option-cases
                (queue_activate ffs fuel (taken t idx (chunk (t.queues idx))) idx)) [
                  | inl e ↦ rw (queue_fire, wet, more, e) tt
                  | inr (u, e) ↦
                      let same : Same (taken t idx (chunk (t.queues idx))) u =
                        rw e at
                          (activate-SameIn ffs fuel (taken t idx (chunk (t.queues idx))) idx) in
                      rw (queue_fire, wet, more, e) ((λ i. rw (same i) (took i small)), fits)
                ]
        ]
      ]

  -- What a poll for `num` queues takes.
  abbrev pub Conserves : Thread → ℕ → Polled → Type 0
  Conserves t num (polled u fs) = ((i : ℕ) → held u i + sent i fs ≡ held t i) × (length fs ≤ num)
  Conserves t num stopped = Unit
  Conserves t num out_of_fuel = Unit

  also-Conserves :
      (t v : Thread) (idx bytes num : ℕ) (r : Polled)
      → Takes t idx (some (v, bytes))
      → num ≢ 0
      → Conserves v (num - 1) r
      → Conserves t num (also (record { id = idx; bytes = bytes }) r)
  unfolding sent
  also-Conserves t v idx bytes num (polled u fs) (took, fits) some_num (all, few) =
      ((λ i. omega (arith, took i, all i)), omega arith)
  also-Conserves t v idx bytes num stopped took some_num all = tt
  also-Conserves t v idx bytes num out_of_fuel took some_num all = tt

  weaken : (t u : Thread) (num : ℕ) (r : Polled) → Same t u → Conserves u num r → Conserves t num r
  weaken t u num (polled v fs) same (all, few) = ((λ i. rw (← (same i)) (all i)), few)
  weaken t u num stopped same all = tt
  weaken t u num out_of_fuel same all = tt

  take-Same : (t : Thread) (idx : ℕ) → Same t (take_nolimit t idx)
  unfolding take_nolimit
  take-Same t idx i = put-avail t.queues idx (record (t.queues idx) { in_nolimit = false }) i refl

  nolimit-Conserves :
      (n : ℕ) (t : Thread) (num : ℕ) → Conserves t num (poll_nolimit ffs fuel n t num)
  unfolding poll_nolimit sent
  nolimit-Conserves zero t num = tt
  nolimit-Conserves (suc n) t num = elim (Option-cases t.nolimit_head_idx) [
    | inl e ↦ rw (poll_nolimit, e) ((λ i. omega arith), omega arith)
    | inr (idx, e) ↦
        let u : Thread = take_nolimit t idx in
        elim (Bool-cases (num == 0)) [
          | inl full ↦ rw (poll_nolimit, e, full) ((λ i. omega arith), omega arith)
          | inr room ↦ elim (Bool-cases (held u idx == 0)) [
            | inl dry ↦
                rw (poll_nolimit, e, room, dry)
                  (weaken t u num _ (take-Same t idx) (nolimit-Conserves n u num))
            | inr wet ↦ elim (Option-cases (queue_fire ffs fuel u idx)) [
              | inl f ↦ rw (poll_nolimit, e, room, wet, f) tt
              | inr ((v, bytes), f) ↦
                  let took : Takes u idx (some (v, bytes)) = rw f at (fire-Takes u idx) in
                  rw (poll_nolimit, e, room, wet, f)
                    (weaken t u num _ (take-Same t idx) (
                      also-Conserves u v idx bytes num _ took (ground arith)
                        (nolimit-Conserves n v (num - 1))))
            ]
          ]
        ]
  ]

  at_limit-Conserves :
      (t : Thread) (max_vts : ℕ) (head : Option ℕ) (num : ℕ)
      → Conserves t num (
          polled
            (elim head [
              | none ↦ record t { ts_virtual = max_vts }
              | some idx ↦
                  if timestamp_lessthaneq t.ts_virtual (t.queues idx).next_ts max_vts
                  then record t { ts_virtual = (t.queues idx).next_ts }
                  else record t { ts_virtual = max_vts }
            ])
            [])
  unfolding sent
  at_limit-Conserves t max_vts none num = ((λ i. omega arith), omega arith)
  at_limit-Conserves t max_vts (some idx) num =
      elim (Bool-cases (timestamp_lessthaneq t.ts_virtual (t.queues idx).next_ts max_vts)) [
        | inl due ↦ rw due ((λ i. omega arith), omega arith)
        | inr later ↦ rw later ((λ i. omega arith), omega arith)
      ]

  skiplist-Conserves :
      (n : ℕ) (t : Thread) (max_vts num : ℕ)
      → Conserves t num (skiplist_loop ffs fuel n t max_vts num)
  unfolding skiplist_loop sent
  skiplist-Conserves zero t max_vts num = tt
  skiplist-Conserves (suc n) t max_vts num = elim (Bool-cases (num == 0)) [
    | inl full ↦ rw (skiplist_loop, full) (at_limit-Conserves t max_vts (t.head_idx 0) num)
    | inr room ↦ elim (Option-cases (t.head_idx 0)) [
      | inl e ↦ rw (skiplist_loop, room, e) ((λ i. omega arith), omega arith)
      | inr (idx, e) ↦
          let q : Queue = t.queues idx in
          let t1 = unlink_head levels t idx 0 in
          let t2 : Thread = record (with_queue t1 idx (record q { in_skiplist = false })) {
            ts_virtual = q.next_ts;
          } in
          let same : Same t t2 = λ i.
            put-avail t1.queues idx (record q { in_skiplist = false }) i
              (sym (unlink_head-Same levels t idx 0 idx))
            ∙ unlink_head-Same levels t idx 0 i in
          elim (Bool-cases (timestamp_lessthaneq t.ts_virtual q.next_ts max_vts)) [
            | inr later ↦ rw (skiplist_loop, room, e, later) ((λ i. omega arith), omega arith)
            | inl due ↦ elim (Bool-cases q.in_skiplist) [
              | inr bad ↦ rw (skiplist_loop, room, e, due, bad) tt
              | inl good ↦ elim (Bool-cases (q.avail == 0)) [
                | inl dry ↦
                    rw (skiplist_loop, room, e, due, good, dry)
                      (weaken t t2 num _ same (skiplist-Conserves n t2 max_vts num))
                | inr wet ↦ elim (Option-cases (queue_fire ffs fuel t2 idx)) [
                  | inl f ↦ rw (skiplist_loop, room, e, due, good, wet, f) tt
                  | inr ((v, bytes), f) ↦
                      let took : Takes t2 idx (some (v, bytes)) = rw f at (fire-Takes t2 idx) in
                      rw (skiplist_loop, room, e, due, good, wet, f)
                        (weaken t t2 num _ same (
                          also-Conserves t2 v idx bytes num _ took (ground arith)
                            (skiplist-Conserves n v max_vts (num - 1))))
                ]
              ]
            ]
          ]
    ]
  ]

  stamped :
      (t : Thread) (num ts : ℕ) (r : Polled)
      → Conserves t num r
      → Conserves t num (elim r [
        | polled u fs ↦ polled (record u { ts_real = ts }) fs
        | stopped ↦ stopped
        | out_of_fuel ↦ out_of_fuel
      ])
  stamped t num ts (polled u fs) all = all
  stamped t num ts stopped all = tt
  stamped t num ts out_of_fuel all = tt

  poll_skiplist-Conserves :
      (n : ℕ) (t : Thread) (cur_ts num : ℕ)
      → Conserves t num (poll_skiplist ffs fuel n t cur_ts num)
  unfolding poll_skiplist
  poll_skiplist-Conserves n t cur_ts num =
      stamped t num cur_ts
        (skiplist_loop ffs fuel n t (add32 t.ts_virtual (sub32 cur_ts t.ts_real)) num)
        (skiplist-Conserves n t _ num)

  sent-append : (i : ℕ) (fs gs : List Fired) → sent i (fs ++ gs) ≡ sent i fs + sent i gs
  unfolding sent
  sent-append i [] gs = omega arith
  sent-append i (f ∷ fs) gs = rw (sent-append i fs gs) (omega arith)

  both :
      (t u : Thread) (fs : List Fired) (num : ℕ) (r : Polled)
      → ((i : ℕ) → held u i + sent i fs ≡ held t i)
      → length fs ≤ num
      → Conserves u (num - length fs) r
      → Conserves t num (elim r [
        | polled v gs ↦ polled (record v { nolimit_first = not v.nolimit_first }) (fs ++ gs)
        | stopped ↦ stopped
        | out_of_fuel ↦ out_of_fuel
      ])
  both t u fs num stopped all few rest = tt
  both t u fs num out_of_fuel all few rest = tt
  both t u fs num (polled v gs) all few (more, rest) =
      ((λ i. omega (arith, sent-append i fs gs, all i, more i)), omega (arith, length-append fs gs))

  then_poll-Conserves :
      (t : Thread) (num : ℕ) (r : Polled) (second : Thread → ℕ → Polled)
      → Conserves t num r
      → ((u : Thread) (m : ℕ) → Conserves u m (second u m))
      → Conserves t num (then_poll ffs fuel r second num)
  unfolding then_poll
  then_poll-Conserves t num stopped second all next = tt
  then_poll-Conserves t num out_of_fuel second all next = tt
  then_poll-Conserves t num (polled u fs) second (all, few) next =
      both t u fs num (second u (num - length fs)) all few (next u (num - length fs))

  either :
      (t : Thread) (num : ℕ) (b : Bool) (r s : Polled)
      → Conserves t num r
      → Conserves t num s
      → Conserves t num (if b then r else s)
  either t num true r s all other = all
  either t num false r s all other = other

  -- qman_poll reports at most `num` queues, and for every queue exactly the bytes that it has fewer
  -- afterwards, whichever list is polled first and however the loops end.
  pub qman_poll-Conserves :
      (n : ℕ) (t : Thread) (ts num : ℕ) → Conserves t num (qman_poll ffs fuel n t ts num)
  unfolding qman_poll
  qman_poll-Conserves n t ts num =
      either t num t.nolimit_first _ _
        (then_poll-Conserves t num _ _ (nolimit-Conserves n t num)
          (λ u m. poll_skiplist-Conserves n u ts m))
        (then_poll-Conserves t num _ _ (poll_skiplist-Conserves n t ts num)
          (λ u m. nolimit-Conserves n u m))
