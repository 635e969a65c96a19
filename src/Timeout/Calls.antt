-- ===== src/Timeout/Calls.antt =====
-- util_timeout_arm_ts, util_timeout_poll_ts, util_timeout_next and util_timeout_disarm on a manager
-- whose pending timeouts are in order.
use mathlib.Core.List.{reverse, reverse-cons, append-nil, append_assoc}
use tas_smartnic.Prelude.{
  inr, inl, ◌/◌, Bool-cases, ◌==◌, ℕ, zero, suc, ◌+◌, ◌^◌, ◌≤◌, ◌<◌, ◌≡◌, refl, sym, ap, subst, ◌∙◌,
  true, none, some, List, [], ◌∷◌, ◌++◌, ltb, if◌then◌else◌, arith, All, length, min, leb,
  length-append,
}
use tas_smartnic.Timeout.Clock.{mask, middle, is_negative}
use tas_smartnic.Timeout.Manager.{
  Timeout, Manager, rel_time, timeout_due, move_due_list, move_due_timeouts, insert_backwards,
  armed, timeout_arm_ts, timeout_next, unlink, is_in, timeout_disarm, poll_due, timeout_poll_ts,
}
use tas_smartnic.Timeout.Order.{Ordered, All-AtLeast, Ordered-mono, insert-Ordered, rel_time-armed}
use tas_smartnic.Timeout.Moves.{move_due-Moved}

-- How often the timeout with this address is in the list, and in the manager.
abbrev pub occurs : ℕ → List Timeout → ℕ
occurs id [] = 0
occurs id (x ∷ xs) = (if x.id == id then 1 else 0) + occurs id xs

abbrev pub armed_count : ℕ → Manager → ℕ
armed_count id m = occurs id m.timeouts + occurs id m.due

occurs-append : (id : ℕ) (xs ys : List Timeout) → occurs id (xs ++ ys) ≡ occurs id xs + occurs id ys
occurs-append id [] ys = omega arith
occurs-append id (x ∷ xs) ys = omega (arith, occurs-append id xs ys)

occurs-reverse : (id : ℕ) (xs : List Timeout) → occurs id (reverse xs) ≡ occurs id xs
occurs-reverse id [] = refl
occurs-reverse id (x ∷ xs) = omega (
  arith,
  ap (occurs id) (reverse-cons x xs),
  occurs-append id (reverse xs) (x ∷ []),
  occurs-reverse id xs,
)

occurs-insert :
    (id now us : ℕ) (to : Timeout) (xs : List Timeout)
    → occurs id (insert_backwards now us to xs) ≡ occurs id (to ∷ xs)
unfolding insert_backwards
occurs-insert id now us to [] = refl
occurs-insert id now us to (x ∷ xs) = ground (arith, occurs-insert id now us to xs)

armed_count-moved :
    (id now : ℕ) (xs due : List Timeout)
    → armed_count id (move_due_list now xs due) ≡ occurs id xs + occurs id due
unfolding move_due_list
armed_count-moved id now [] due = refl
armed_count-moved id now (x ∷ xs) due =
    ground (arith, armed_count-moved id now xs (due ++ (x ∷ [])), occurs-append id due (x ∷ []))

armed_count-move_due :
    (id now : ℕ) (m : Manager) → armed_count id (move_due_timeouts m now) ≡ armed_count id m
unfolding move_due_timeouts
armed_count-move_due id now m = armed_count-moved id now m.timeouts m.due

armed_count-insert :
    (id now us : ℕ) (m : Manager) (to : Timeout)
    → occurs id (reverse (insert_backwards now us to (reverse m.timeouts)))
      ≡ occurs id m.timeouts + (if to.id == id then 1 else 0)
armed_count-insert id now us m to = omega (
  arith,
  occurs-reverse id (insert_backwards now us to (reverse m.timeouts)),
  occurs-insert id now us to (reverse m.timeouts),
  occurs-reverse id m.timeouts,
)

id-armed : (to : Timeout) (us type now : ℕ) → (armed to us type now).id ≡ to.id
unfolding armed
id-armed to us type now = refl

-- Arming within the range of 2^27 microseconds, at `d` microseconds after a time at which the
-- pending timeouts were in order, keeps them in order, adds this timeout and loses none.
pub arm_keeps_order :
    (m : Manager) (to : Timeout) (now d us type : ℕ)
    → now < 2 ^ 28
    → d < middle
    → us < middle
    → Ordered now 0 m.timeouts
    → (m' : Manager) × (timeout_arm_ts m to us type (now + d) ≡ some m')
      × Ordered (mask (now + d)) 0 m'.timeouts
      × (rel_time (mask (now + d)) (armed to us type (mask (now + d))) ≡ us)
      × ((id : ℕ) → armed_count id m' ≡ armed_count id m + (if to.id == id then 1 else 0))
unfolding timeout_arm_ts
arm_keeps_order m to now d us type small near range o =
    let later : ℕ = mask (now + d) in
    let moved : Manager = move_due_timeouts m later in
    let fresh : Timeout = armed to us type later in
    let w = move_due-Moved now d small near m o in
    (
      record moved {
        timeouts = reverse (insert_backwards later us fresh (reverse moved.timeouts));
      },
      ground arith,
      insert-Ordered later fresh us moved.timeouts range
          (rel_time-armed later to us type (omega arith) range)
          (Ordered-mono later 1 0 moved.timeouts (omega arith) w.ordered),
      rel_time-armed later to us type (omega arith) range,
      λ id. ground (
        arith,
        armed_count-insert id later us moved fresh,
        armed_count-move_due id later m,
        id-armed to us type later,
      ),
    )

-- A timeout of 2^27 microseconds or more is refused.
pub arm_out_of_range :
    (m : Manager) (to : Timeout) (us type cur_ts : ℕ)
    → middle ≤ us
    → timeout_arm_ts m to us type cur_ts ≡ none
unfolding timeout_arm_ts
arm_out_of_range m to us type cur_ts h = ground arith

unlink-occurs :
    (id j : ℕ) (xs : List Timeout)
    → is_in id xs ≡ true
    → occurs j (unlink id xs) + (if id == j then 1 else 0) ≡ occurs j xs
unfolding unlink
unlink-occurs id j [] h = cc
unlink-occurs id j (x ∷ xs) h = ground (arith, unlink-occurs id j xs)

occurs-is_in : (id : ℕ) (xs : List Timeout) → is_in id xs ≡ ltb 0 (occurs id xs)
occurs-is_in id [] = refl
occurs-is_in id (x ∷ xs) = ground (arith, occurs-is_in id xs)

-- Disarming a timeout that is armed succeeds, removes one occurrence of it and no other timeout.
pub disarm_lem :
    (m : Manager) (id : ℕ)
    → 0 < armed_count id m
    → (m' : Manager) × (timeout_disarm m id ≡ some m')
      × ((j : ℕ) → armed_count j m' + (if id == j then 1 else 0) ≡ armed_count j m)
unfolding timeout_disarm
disarm_lem m id h = elim (Bool-cases (is_in id m.timeouts)) [
  | inl pending ↦ (
    record m { timeouts = unlink id m.timeouts },
    rw pending,
    λ j. omega (arith, unlink-occurs id j m.timeouts pending),
  )
  | inr other ↦
      let due : is_in id m.due ≡ true =
        ground (arith, occurs-is_in id m.timeouts, occurs-is_in id m.due) in
      (
        record m { due = unlink id m.due },
        rw (other, due),
        λ j. omega (arith, unlink-occurs id j m.due due),
      )
]

-- Disarming one that is not armed fails.
pub disarm_unarmed : (m : Manager) (id : ℕ) → armed_count id m ≡ 0 → timeout_disarm m id ≡ none
unfolding timeout_disarm
disarm_unarmed m id h = ground (arith, occurs-is_in id m.timeouts, occurs-is_in id m.due)

-- util_timeout_next never waits beyond a deadline: with nothing due it is the distance to the first
-- pending timeout, which no other undercuts.
pub next_is_earliest :
    (now : ℕ) (x : Timeout) (rest : List Timeout)
    → Ordered (mask now) 0 (x ∷ rest)
    → let next = timeout_next (record { timeouts = x ∷ rest; due = [] }) now in
      (next ≡ rel_time (mask now) x) × All (λ y. next ≤ rel_time (mask now) y) (x ∷ rest)
unfolding timeout_next
next_is_earliest now x rest o =
    let first : (if is_negative (rel_time (mask now) x) then 0 else rel_time (mask now) x)
        ≡ rel_time (mask now) x =
      ground (arith, o.1) in
    (
      first,
      subst (λ k. All (λ y. k ≤ rel_time (mask now) y) (x ∷ rest)) (sym first)
          (omega arith, All-AtLeast (mask now) (rel_time (mask now) x) rest o.2),
    )

-- Timeouts handed over one after the other: each is the first that is due, is taken off the due list and
-- given to the handler, which may put more behind that list. The indices are the manager before, the
-- timeouts handed over, those that the handler added, and the manager after.
pub data Handed (handler : Timeout → ℕ → Manager → Manager)
    : Manager → List Timeout → List Timeout → Manager → Type 0 where
  none_handed : {m : Manager} → Handed handler m [] [] m
  hand :
      {m m' : Manager} {fired added : List Timeout} (to : Timeout) (rest more : List Timeout)
      → m.due ≡ to ∷ rest
      → (handler to (to.timeout_type / 2 ^ 28) (record m { due = rest })).due ≡ rest ++ more
      → Handed handler
          (handler to (to.timeout_type / 2 ^ 28) (record m { due = rest }))
          fired
          added
          m'
      → Handed handler m (to ∷ fired) (more ++ added) m'

-- What a poll `d` microseconds after `now` hands to the handler and leaves due.
pub record PollOutcome (handler : Timeout → ℕ → Manager → Manager) (m : Manager) (now d : ℕ)
    (r : List Timeout × Manager) : Type 0 where
  pub early : List Timeout
  pub left : List Timeout
  pub split : m.timeouts ≡ early ++ left
  pub added : List Timeout
  pub fired : r.0 ++ r.1.due ≡ (m.due ++ early) ++ added
  pub handed : Handed handler (record { timeouts = left; due = m.due ++ early }) r.0 added r.1
  pub at_least : min 64 (length (m.due ++ early)) ≤ length r.0
  pub at_most : length r.0 ≤ 64
  pub reached : All (λ x. rel_time now x ≤ d) early
  pub ahead_of : All (λ x. d < rel_time now x) left

-- The due list with more behind it.
abbrev pub Appends : Manager → Manager → Type 0
Appends m m' = (more : List Timeout) × (m'.due ≡ m.due ++ more)

move_due_list-Appends :
    (cur_ts : ℕ) (pending due : List Timeout)
    → (more : List Timeout) × ((move_due_list cur_ts pending due).due ≡ due ++ more)
unfolding move_due_list
move_due_list-Appends cur_ts [] due = ([], sym (append-nil due))
move_due_list-Appends cur_ts (to ∷ rest) due = elim (Bool-cases (timeout_due cur_ts to)) [
  | inr later ↦ ([], rw later (sym (append-nil due)))
  | inl reached ↦
      let (more, e) = move_due_list-Appends cur_ts rest (due ++ (to ∷ [])) in
      (to ∷ more, rw reached (e ∙ append_assoc due (to ∷ []) more))
]

-- A handler that arms its timeout again, as arp_timeout and tcp_timeout do, which timeout_trigger
-- (tas_nic/slow/kernel.c) calls; a timeout that is out of range aborts in the source.
abbrev pub arm_again : (us type cur_ts : ℕ) → Timeout → Manager → Manager
arm_again us type cur_ts to m = elim (timeout_arm_ts m to us type cur_ts) [
  | none ↦ m
  | some m' ↦ m'
]

pub arm_again-Appends :
    (us type cur_ts : ℕ) (to : Timeout) (m : Manager) → Appends m (arm_again us type cur_ts to m)
unfolding timeout_arm_ts move_due_timeouts
arm_again-Appends us type cur_ts to m = elim (Bool-cases (leb middle us)) [
  | inl long ↦ ([], rw (arm_again, timeout_arm_ts, long) (sym (append-nil m.due)))
  | inr short ↦
      let (more, e) = move_due_list-Appends (mask cur_ts) m.timeouts m.due in
      (more, rw (arm_again, timeout_arm_ts, short) e)
]

-- A poll with a handler that may arm timeouts, and so move further ones to the end of the due list.
module _ (handler : Timeout → ℕ → Manager → Manager)
    (appends : (to : Timeout) (type : ℕ) (m : Manager) → Appends m (handler to type m)) where
  poll_due_lem :
      (left : ℕ) (pending due : List Timeout)
      → let (fired, m') = poll_due handler left (record { timeouts = pending; due = due }) in
        (added : List Timeout) × (fired ++ m'.due ≡ due ++ added)
        × Handed handler (record { timeouts = pending; due = due }) fired added m'
        × (min left (length due) ≤ length fired)
        × (length fired ≤ left)
  unfolding poll_due
  poll_due_lem zero pending due = ([], sym (append-nil due), none_handed, omega arith, omega arith)
  poll_due_lem (suc left) pending [] = ([], refl, none_handed, omega arith, omega arith)
  poll_due_lem (suc left) pending (to ∷ rest) =
      let m : Manager =
        handler to (to.timeout_type / 2 ^ 28) (record { timeouts = pending; due = rest }) in
      let (more, longer) =
        appends to (to.timeout_type / 2 ^ 28) (record { timeouts = pending; due = rest }) in
      let (added, all, run, least, most) = poll_due_lem left m.timeouts m.due in
      let size : length m.due ≡ length rest + length more =
        ap length longer ∙ length-append rest more in
      (
        more ++ added,
        ap (◌∷◌ to) (all ∙ ap (λ l. l ++ added) longer ∙ append_assoc rest more added),
        hand to rest more refl longer run,
        omega (arith, least, size),
        omega (arith, most),
      )

  -- util_timeout_poll_ts, `d` microseconds after a time at which the pending timeouts were in order, with
  -- a handler that changes the due list at its end only, if at all, as arming a timeout does. What it
  -- hands over, followed by what stays due, is what was due before, then exactly the pending timeouts
  -- whose deadline is reached, which were the front of the pending list, and then what the handler
  -- added; each is taken off the due list before it is handed over. It hands over at most 64 timeouts, and 64 or all that were due before or reached at least.
  pub poll_fires_due :
      (m : Manager) (now d : ℕ)
      → now < 2 ^ 28
      → d < middle
      → Ordered now 0 m.timeouts
      → PollOutcome handler m now d (timeout_poll_ts handler m (now + d))
  unfolding timeout_poll_ts
  poll_fires_due m now d small near o =
      let moved : Manager = move_due_timeouts m (mask (now + d)) in
      let w = move_due-Moved now d small near m o in
      let (added, all, run, least, most) = poll_due_lem 64 moved.timeouts moved.due in
      let size = ap length w.appended in
      record {
        early = w.early;
        left = moved.timeouts;
        split = w.split;
        added = added;
        fired = all ∙ ap (λ l. l ++ added) w.appended;
        handed =
            subst
              (λ l.
                Handed handler (record { timeouts = moved.timeouts; due = l })
                  (timeout_poll_ts handler m (now + d)).0 added
                  (timeout_poll_ts handler m (now + d)).1)
              w.appended run;
        at_least = omega (arith, least, size);
        at_most = most;
        reached = w.reached;
        ahead_of = w.left;
      }
