-- ===== src/Timeout/Tests.antt =====
-- Runs of the timeout manager across the wrap of its clock, and its theorems at them.
use tas_smartnic.Prelude.{ℕ, ◌+◌, ◌-◌, ◌^◌, ◌≡◌, refl, none, [], ◌∷◌, arith}
use tas_smartnic.Timeout.Clock.{rel_stamp}
use tas_smartnic.Timeout.Manager.{
  Timeout, Manager, rel_time, timeout_due, move_due_list, move_due_timeouts, timeout_arm_ts,
  insert_backwards, armed, poll_due, timeout_poll_ts,
}
use tas_smartnic.Timeout.Order.{Ordered}
use tas_smartnic.Timeout.Calls.{
  PollOutcome, arm_out_of_range, poll_fires_due, arm_again, arm_again-Appends,
}

-- Ten microseconds before the clock goes round.
abbrev late : ℕ
late = 2 ^ 28 - 10

abbrev timeout : ℕ → ℕ → Timeout
timeout id stamp = record { id = id; timeout_type = stamp }

-- One timeout 5 microseconds ahead, and one 30 ahead, behind the wrap.
abbrev two : Manager
two = record { timeouts = timeout 1 (2 ^ 28 - 5) ∷ timeout 2 20 ∷ []; due = [] }

abbrev ignore : Timeout → ℕ → Manager → Manager
ignore to type m = m

two-Ordered : Ordered late 0 two.timeouts
unfolding rel_time rel_stamp
two-Ordered = omega arith

poll_run : (timeout_poll_ts ignore two (late + 7)).0 ≡ timeout 1 (2 ^ 28 - 5) ∷ []
unfolding timeout_poll_ts poll_due move_due_timeouts move_due_list timeout_due rel_time rel_stamp
poll_run = refl

arm_out_of_range_example : timeout_arm_ts two (timeout 3 0) (2 ^ 27) 1 late ≡ none
arm_out_of_range_example = arm_out_of_range two (timeout 3 0) (2 ^ 27) 1 late (omega arith)

-- A handler that arms the timeout again, 100 microseconds ahead, when the second one is due, too.
abbrev again : Timeout → ℕ → Manager → Manager
again to type m = arm_again 100 type (late + 30) to m

poll_fires_due_example : PollOutcome again two late 7 (timeout_poll_ts again two (late + 7))
poll_fires_due_example =
    poll_fires_due again (λ to type m. arm_again-Appends 100 type (late + 30) to m) two late 7
      (omega arith) (omega arith) two-Ordered

again_run : (timeout_poll_ts again two (late + 7)).0 ≡ timeout 1 (2 ^ 28 - 5) ∷ timeout 2 20 ∷ []
unfolding timeout_poll_ts poll_due move_due_timeouts move_due_list timeout_due rel_time rel_stamp
    timeout_arm_ts insert_backwards armed
again_run = refl
