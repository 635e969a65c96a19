-- ===== src/Qman/Tests.antt =====
-- Two queues without a rate and two with one, and the theorems on the queue manager at them.
use tas_smartnic.Prelude.{
  Distinct, Apart, ◌==◌, arith, if◌then◌else◌, ℕ, Bool, true, false, Option, none, some, [], ◌∷◌,
  refl, ◌≡◌,
}
use tas_smartnic.Qman.Thread.{Queue, Thread, queue_activate_nolimit}
use tas_smartnic.Qman.Fifo.{IsFifo, last, ends, links, queue_activate_nolimit-IsFifo}
use tas_smartnic.Qman.Polling.{qman_poll, poll_nolimit}
use tas_smartnic.Qman.Conserved.{Conserves, qman_poll-Conserves}
use tas_smartnic.Qman.Ends.{Ends, Ready, poll_nolimit-Ends}

abbrev queue : (rate avail : ℕ) → (in_nolimit : Bool) → (next : Option ℕ) → Queue
queue rate avail in_nolimit next = record {
  next_idxs = λ l. next;
  next_ts = 0;
  rate = rate;
  avail = avail;
  max_chunk = 1000;
  in_skiplist = false;
  in_nolimit = in_nolimit;
}

-- Queue 3 and then queue 5 wait for their turn; queue 7 is idle.
abbrev two_wait : Thread
two_wait = record {
  queues = λ i.
      if i == 3
      then queue 0 1500 true (some 5)
      else if i == 5
      then queue 0 200 true none
      else queue 0 9 false none;
  head_idx = λ l. none;
  nolimit_head_idx = some 3;
  nolimit_tail_idx = some 5;
  ts_real = 0;
  ts_virtual = 0;
  nolimit_first = true;
  draws = 0;
}

two-IsFifo : IsFifo two_wait (3 ∷ 5 ∷ [])
unfolding last Distinct Apart
two-IsFifo = (links (links ends), refl, (((λ e. absurd (omega arith)), tt), (tt, tt)))

queue_activate_nolimit-IsFifo_example :
    (u : Thread) × (queue_activate_nolimit two_wait 7 ≡ some u) × IsFifo u (3 ∷ 5 ∷ 7 ∷ [])
unfolding last Distinct Apart
queue_activate_nolimit-IsFifo_example =
    queue_activate_nolimit-IsFifo two_wait (3 ∷ 5 ∷ []) 7 two-IsFifo
      ((λ e. absurd (omega arith)), ((λ e. absurd (omega arith)), tt)) refl

qman_poll-Conserves_example :
    Conserves (λ n. 1) 9 two_wait 4 (qman_poll (λ n. 1) 9 9 two_wait 100 4)
qman_poll-Conserves_example = qman_poll-Conserves (λ n. 1) 9 9 two_wait 100 4

poll_nolimit-Ends_example : Ends (λ n. 1) 9 (poll_nolimit (λ n. 1) 9 7 two_wait 4)
unfolding last Distinct Apart Ready
poll_nolimit-Ends_example =
    poll_nolimit-Ends (λ n. 1) 9 7 two_wait 4 (3 ∷ 5 ∷ []) (omega arith) two-IsFifo
      (refl, refl, (refl, refl, tt))
