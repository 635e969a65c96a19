-- ===== src/Timeout/Manager.antt =====
-- The manager's two lists and its operations. A list is read from its first element to its last, so
-- the `next` and `prev` pointers are places in it; `id` stands for the address of the timeout.
use mathlib.Core.List.{reverse}
use tas_smartnic.Prelude.{
  ◌-◌, ℕ, zero, suc, ◌+◌, ◌*◌, ◌/◌, ◌^◌, Bool, false, ◌||◌, ◌==◌, Option, none, some, List, [], ◌∷◌,
  ◌++◌, ltb, leb, if◌then◌else◌, add32, u32,
}
use tas_smartnic.Timeout.Clock.{mask, middle, rel_stamp, is_negative}

-- struct timeout
pub record Timeout : Type 0 where
  pub id : ℕ
  pub timeout_type : ℕ

-- struct timeout_manager, but for the handler
pub record Manager : Type 0 where
  pub timeouts : List Timeout
  pub due : List Timeout

-- util_timeout_init
unfoldable pub timeout_init : Manager
timeout_init = record { timeouts = []; due = [] }

unfoldable pub rel_time : ℕ → Timeout → ℕ
rel_time cur_ts to = rel_stamp cur_ts (mask to.timeout_type)

unfoldable pub timeout_due : ℕ → Timeout → Bool
timeout_due ts to = rel_time ts to == 0 || is_negative (rel_time ts to)

-- The loop of move_due_timeouts, on the lists.
unfoldable pub move_due_list : ℕ → List Timeout → List Timeout → Manager
move_due_list cur_ts [] due = record { timeouts = []; due = due }
move_due_list cur_ts (to ∷ rest) due =
    let moved = move_due_list cur_ts rest (due ++ (to ∷ [])) in
    if timeout_due cur_ts to then moved else record { timeouts = to ∷ rest; due = due }

unfoldable pub move_due_timeouts : Manager → ℕ → Manager
move_due_timeouts m cur_ts = move_due_list cur_ts m.timeouts m.due

-- The search of util_timeout_arm_ts from the last element on, over the list read backwards: `to` goes
-- behind the first one found that is not later. The comparison is of unsigned numbers.
unfoldable pub insert_backwards : ℕ → ℕ → Timeout → List Timeout → List Timeout
insert_backwards cur_ts us to [] = to ∷ []
insert_backwards cur_ts us to (tp ∷ rest) =
    let further = tp ∷ insert_backwards cur_ts us to rest in
    if ltb us (rel_time cur_ts tp) then further else to ∷ tp ∷ rest

-- `to` with the type and deadline that arming gives it; the two fields share no bit.
unfoldable pub armed : Timeout → ℕ → ℕ → ℕ → Timeout
armed to us type cur_ts = record to { timeout_type = u32 (type * 2 ^ 28) + mask (add32 cur_ts us) }

-- util_timeout_arm_ts; `none` is the abort for a timeout that is out of range.
unfoldable pub timeout_arm_ts : Manager → Timeout → ℕ → ℕ → ℕ → Option Manager
timeout_arm_ts m to us type cur_ts =
    let now : ℕ = mask cur_ts in
    let moved = move_due_timeouts m now in
    if leb middle us
    then none
    else some (record moved {
      timeouts =
          reverse (insert_backwards now us (armed to us type now) (reverse (moved.timeouts)));
    })

-- Unlinks the timeout with this address.
unfoldable pub unlink : ℕ → List Timeout → List Timeout
unlink id [] = []
unlink id (to ∷ rest) = let later = to ∷ unlink id rest in if to.id == id then rest else later

abbrev pub is_in : ℕ → List Timeout → Bool
is_in id [] = false
is_in id (to ∷ rest) = to.id == id || is_in id rest

-- util_timeout_disarm; `none` for a timeout in neither list, where the source aborts or follows
-- stale pointers.
unfoldable pub timeout_disarm : Manager → ℕ → Option Manager
timeout_disarm m id =
    if is_in id m.timeouts
    then some (record m { timeouts = unlink id m.timeouts })
    else if is_in id m.due
    then some (record m { due = unlink id m.due })
    else none

-- util_timeout_next; `2 ^ 32 - 1` is -1U.
unfoldable pub timeout_next : Manager → ℕ → ℕ
timeout_next m cur_ts = elim m.due [
  | to ∷ rest ↦ 0
  | [] ↦ elim m.timeouts [
    | [] ↦ 2 ^ 32 - 1
    | to ∷ rest ↦ if is_negative (rel_time (mask cur_ts) to) then 0 else rel_time (mask cur_ts) to
  ]
]

module _ (handler : Timeout → ℕ → Manager → Manager) where
  -- The loop of util_timeout_poll_ts with `left` rounds to go (MAX_TIMEOUTS at first): the timeouts
  -- handed to the handler, in order, and the manager.
  unfoldable pub poll_due : ℕ → Manager → List Timeout × Manager
  poll_due zero m = ([], m)
  poll_due (suc left) m = elim m.due [
    | [] ↦ ([], m)
    | to ∷ rest ↦
        let (fired, m') =
          poll_due left (handler to (to.timeout_type / 2 ^ 28) (record m { due = rest })) in
        (to ∷ fired, m')
  ]

  unfoldable pub timeout_poll_ts : Manager → ℕ → List Timeout × Manager
  timeout_poll_ts m cur_ts = poll_due 64 (move_due_timeouts m (mask cur_ts))
