-- ===== src/Qman/Thread.antt =====
-- The state of tas_nic/fast/qman.c, and its queues without a rate. An index list's IDXLIST_INVAL is
-- `none`; the random numbers of queue_level are a sequence, of which `draws` were used.
use tas_smartnic.Prelude.{◌&&◌, ◌==◌, not, if◌then◌else◌, ℕ, Bool, true, false, Option, none, some}

-- struct queue: `in_skiplist` and `in_nolimit` are its flags.
pub record Queue : Type 0 where
  pub next_idxs : ℕ → Option ℕ
  pub next_ts : ℕ
  pub rate : ℕ
  pub avail : ℕ
  pub max_chunk : ℕ
  pub in_skiplist : Bool
  pub in_nolimit : Bool

-- struct qman_thread
pub record Thread : Type 0 where
  pub queues : ℕ → Queue
  pub head_idx : ℕ → Option ℕ
  pub nolimit_head_idx : Option ℕ
  pub nolimit_tail_idx : Option ℕ
  pub ts_real : ℕ
  pub ts_virtual : ℕ
  pub nolimit_first : Bool
  pub draws : ℕ

-- A function with one value changed.
abbrev pub put : {A : Type 0} → (ℕ → A) → ℕ → A → ℕ → A
put f k a i = if i == k then a else f i

abbrev pub with_queue : Thread → ℕ → Queue → Thread
with_queue t idx q = record t { queues = put t.queues idx q }

-- `q->next_idxs[l] = next`
abbrev pub set_next : Thread → ℕ → ℕ → Option ℕ → Thread
set_next t idx l next =
    with_queue t idx (record (t.queues idx) { next_idxs = put (t.queues idx).next_idxs l next })

abbrev pub is_idle : Queue → Bool
is_idle q = not q.in_skiplist && not q.in_nolimit

-- A queue at the end of the list without a rate.
abbrev pub joined : Thread → ℕ → Queue
joined t idx = record (t.queues idx) {
  in_nolimit = true;
  next_idxs = put (t.queues idx).next_idxs 0 none;
}

-- queue_activate_nolimit; `none` is its assertion.
unfoldable pub queue_activate_nolimit : Thread → ℕ → Option Thread
queue_activate_nolimit t idx =
    let t' : Thread = with_queue t idx (joined t idx) in
    if not (is_idle (t.queues idx)) then none else elim t.nolimit_tail_idx [
      | none ↦ some (record t' { nolimit_head_idx = some idx; nolimit_tail_idx = some idx })
      | some tail ↦ some (record (set_next t' tail 0 (some idx)) { nolimit_tail_idx = some idx })
    ]

-- The head of the list leaves it, in poll_nolimit.
unfoldable pub take_nolimit : Thread → ℕ → Thread
take_nolimit t idx =
    let q : Queue = t.queues idx in
    let t' : Thread = with_queue t idx (record q { in_nolimit = false }) in
    record t' {
      nolimit_head_idx = q.next_idxs 0;
      nolimit_tail_idx = elim (q.next_idxs 0) [ none ↦ none | some next ↦ t.nolimit_tail_idx ];
    }
