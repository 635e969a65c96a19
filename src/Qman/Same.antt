-- ===== src/Qman/Same.antt =====
-- What leaves the bytes of every queue of tas_nic/fast/qman.c alone: all changes of its lists.
use tas_smartnic.Prelude.{
  inr, arith, inl, ltb, ◌==◌, Option-cases, ◌∙◌, Bool-cases, ℕ, zero, suc, true, Option, none, some,
  refl, ◌≡◌, ◌+◌,
}
use tas_smartnic.Qman.Thread.{
  joined, Queue, Thread, put, with_queue, set_next, is_idle, queue_activate_nolimit,
}
use tas_smartnic.Qman.Skiplist.{
  queue_level, find_preds, entry_ts, levels, queue_activate, unlink_head, link, insert_levels,
  queue_activate_skiplist,
}

-- The bytes of a queue.
abbrev pub held : Thread → ℕ → ℕ
held t i = (t.queues i).avail

-- Every queue holds the same bytes in both.
abbrev pub Same : Thread → Thread → Type 0
Same t u = (i : ℕ) → held u i ≡ held t i

pub put-avail :
    (queues : ℕ → Queue) (idx : ℕ) (q : Queue) (i : ℕ)
    → q.avail ≡ (queues idx).avail
    → (put queues idx q i).avail ≡ (queues i).avail
put-avail queues idx q i e = elim (Bool-cases (i == idx)) [
  | inl here ↦ let same : i ≡ idx = ground arith in rw (here, same) e
  | inr other ↦ rw other refl
]

set_next-Same : (t : Thread) (idx l : ℕ) (next : Option ℕ) → Same t (set_next t idx l next)
set_next-Same t idx l next i =
    put-avail t.queues idx
      (record (t.queues idx) { next_idxs = put (t.queues idx).next_idxs l next }) i refl

link-Same : (t : Thread) (q_idx l : ℕ) (pred : Option ℕ) → Same t (link t q_idx l pred)
unfolding link
link-Same t q_idx l none i = set_next-Same t q_idx l (t.head_idx l) i
link-Same t q_idx l (some p) i =
    set_next-Same (set_next t q_idx l ((t.queues p).next_idxs l)) p l (some q_idx) i
    ∙ set_next-Same t q_idx l ((t.queues p).next_idxs l) i

insert_levels-Same :
    (t : Thread) (q_idx level : ℕ) (preds : ℕ → Option ℕ) (l : ℕ)
    → Same t (insert_levels t q_idx level preds l)
unfolding insert_levels
insert_levels-Same t q_idx level preds zero i = refl
insert_levels-Same t q_idx level preds (suc l) i = elim (Bool-cases (ltb level l)) [
  | inl above ↦ rw above (
      insert_levels-Same (set_next t q_idx l none) q_idx level preds l i
      ∙ set_next-Same t q_idx l none i)
  | inr below ↦ rw below (
      insert_levels-Same (link t q_idx l (preds l)) q_idx level preds l i
      ∙ link-Same t q_idx l (preds l) i)
]

pub unlink_head-Same : (n : ℕ) (t : Thread) (idx l : ℕ) → Same t (unlink_head n t idx l)
unfolding unlink_head
unlink_head-Same zero t idx l i = refl
unlink_head-Same (suc n) t idx l i = elim (Option-cases (t.head_idx l)) [
  | inl e ↦ rw (unlink_head, e) refl
  | inr (j, e) ↦ elim (Bool-cases (j == idx)) [
    | inl here ↦
        rw (unlink_head, e, here)
          (unlink_head-Same n
            (record t { head_idx = put t.head_idx l ((t.queues idx).next_idxs l) }) idx (l + 1) i)
    | inr other ↦ rw (unlink_head, e, other) refl
  ]
]

-- The result, where there is one, holds the same bytes.
abbrev pub SameIn : Thread → Option Thread → Type 0
SameIn t none = Unit
SameIn t (some u) = Same t u

nolimit-SameIn : (t : Thread) (idx : ℕ) → SameIn t (queue_activate_nolimit t idx)
unfolding queue_activate_nolimit
nolimit-SameIn t idx = elim (Bool-cases (is_idle (t.queues idx))) [
  | inr busy ↦ rw (queue_activate_nolimit, busy) tt
  | inl idle ↦ elim (Option-cases t.nolimit_tail_idx) [
    | inl e ↦
        rw (queue_activate_nolimit, idle, e) (λ i. put-avail t.queues idx (joined t idx) i refl)
    | inr (tail, e) ↦
        rw (queue_activate_nolimit, idle, e)
          (λ i.
            set_next-Same (with_queue t idx (joined t idx)) tail 0 (some idx) i
            ∙ put-avail t.queues idx (joined t idx) i refl)
  ]
]

module _ (ffs : ℕ → ℕ) (fuel : ℕ) where
  skiplist-SameIn : (t : Thread) (idx : ℕ) → SameIn t (queue_activate_skiplist ffs fuel t idx)
  unfolding queue_activate_skiplist
  skiplist-SameIn t idx =
      let q : Queue = record (t.queues idx) { next_ts = entry_ts t (t.queues idx) } in
      let t1 : Thread = with_queue t idx q in
      elim (Bool-cases (is_idle (t.queues idx))) [
        | inr busy ↦ rw (queue_activate_skiplist, busy) tt
        | inl idle ↦
            elim (Option-cases (find_preds fuel t1 (entry_ts t (t.queues idx)) levels none)) [
              | inl e ↦ rw (queue_activate_skiplist, idle, e) tt
              | inr (preds, e) ↦
                  let t2 =
                    insert_levels (record t1 { draws = t1.draws + 1 }) idx (queue_level ffs fuel t1)
                      preds levels in
                  rw (queue_activate_skiplist, idle, e)
                    (λ i.
                      put-avail t2.queues idx (record (t2.queues idx) { in_skiplist = true }) i refl
                      ∙ insert_levels-Same (record t1 { draws = t1.draws + 1 }) idx
                          (queue_level ffs fuel t1) preds levels i
                      ∙ put-avail t.queues idx q i refl)
            ]
      ]

  pub activate-SameIn : (t : Thread) (idx : ℕ) → SameIn t (queue_activate ffs fuel t idx)
  unfolding queue_activate
  activate-SameIn t idx = elim (Bool-cases ((t.queues idx).rate == 0)) [
    | inl free ↦ rw free (nolimit-SameIn t idx)
    | inr limited ↦ rw limited (skiplist-SameIn t idx)
  ]
