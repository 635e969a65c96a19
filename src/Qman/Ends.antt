-- ===== src/Qman/Ends.antt =====
-- poll_nolimit of tas_nic/fast/qman.c ends, and keeps its list in order.
use tas_smartnic.Prelude.{
  Distinct, Apart, length-append, ◌-◌, ltb, ==-same, Option-cases, arith, ◌⊎◌, inr, inl, ◌==◌,
  Bool-cases, ◌∙◌, ℕ, zero, suc, true, false, Option, none, some, List, [], ◌∷◌, refl, ◌≡◌, ◌+◌,
  ◌<◌, length, ◌++◌,
}
use tas_smartnic.Qman.Thread.{
  Queue, Thread, put, with_queue, is_idle, take_nolimit, queue_activate_nolimit, joined,
}
use tas_smartnic.Qman.Skiplist.{queue_fire, queue_activate, chunk}
use tas_smartnic.Qman.Polling.{Fired, Polled, polled, stopped, out_of_fuel, also, poll_nolimit}
use tas_smartnic.Qman.Fifo.{
  IsFifo, Chain-Agree, put-Agree, take_nolimit-IsFifo, queue_activate_nolimit-IsFifo, Chain-nil,
}
use tas_smartnic.Qman.Conserved.{drained, taken}

-- The queues have no rate, and are not in the skip list.
unfoldable pub Ready : Thread → List ℕ → Type 0
Ready t [] = Unit
Ready t (i ∷ ids) = ((t.queues i).rate ≡ 0) × ((t.queues i).in_skiplist ≡ false) × Ready t ids

-- Every queue has the same rate and is in the skip list or not as before.
abbrev Alike : Thread → Thread → Type 0
Alike t u =
    (i : ℕ)
    → ((u.queues i).rate ≡ (t.queues i).rate)
      × ((u.queues i).in_skiplist ≡ (t.queues i).in_skiplist)

Ready-Alike : (t u : Thread) (ids : List ℕ) → Alike t u → Ready t ids → Ready u ids
unfolding Ready
Ready-Alike t u [] alike ready = tt
Ready-Alike t u (i ∷ ids) alike (rate, apart, ready) =
    let (same_rate, same_place) = alike i in
    (same_rate ∙ rate, same_place ∙ apart, Ready-Alike t u ids alike ready)

put-Alike :
    (t : Thread) (idx : ℕ) (q : Queue)
    → q.rate ≡ (t.queues idx).rate
    → q.in_skiplist ≡ (t.queues idx).in_skiplist
    → Alike t (with_queue t idx q)
put-Alike t idx q rate place i = elim (Bool-cases (i == idx)) [
  | inl here ↦ let same : i ≡ idx = ground arith in rw (here, same) (rate, place)
  | inr other ↦ rw (other) (refl, refl)
]

abbrev AlikeIn : Thread → Option Thread → Type 0
AlikeIn t none = Unit
AlikeIn t (some u) = Alike t u

activate-Alike : (t : Thread) (idx : ℕ) → AlikeIn t (queue_activate_nolimit t idx)
unfolding queue_activate_nolimit
activate-Alike t idx = elim (Bool-cases (is_idle (t.queues idx))) [
  | inr busy ↦ rw (queue_activate_nolimit, busy) tt
  | inl idle ↦ elim (Option-cases t.nolimit_tail_idx) [
    | inl e ↦ rw (queue_activate_nolimit, idle, e) (put-Alike t idx (joined t idx) refl refl)
    | inr (tail, e) ↦
        let t' : Thread = with_queue t idx (joined t idx) in
        rw (queue_activate_nolimit, idle, e)
          (λ i.
            let (a, b) =
              put-Alike t' tail
                (record (t'.queues tail) {
                  next_idxs = put (t'.queues tail).next_idxs 0 (some idx);
                })
                refl refl i in
            let (c, d) = put-Alike t idx (joined t idx) refl refl i in (a ∙ c, b ∙ d))
  ]
]

Ready-snoc :
    (t : Thread) (idx : ℕ) (ids : List ℕ)
    → Ready t ids
    → (t.queues idx).rate ≡ 0
    → (t.queues idx).in_skiplist ≡ false
    → Ready t (ids ++ idx ∷ [])
unfolding Ready
Ready-snoc t idx [] ready rate place = (rate, place, tt)
Ready-snoc t idx (i ∷ ids) (a, b, ready) rate place = (a, b, Ready-snoc t idx ids ready rate place)

-- A change of a queue that is not in the list leaves the list.
put-IsFifo :
    (t : Thread) (idx : ℕ) (q : Queue) (ids : List ℕ)
    → Apart idx ids
    → IsFifo t ids
    → IsFifo (with_queue t idx q) ids
put-IsFifo t idx q ids apart (chain, tail, d) =
    (Chain-Agree t.queues _ _ ids chain (put-Agree t.queues idx q ids apart), tail, d)

module _ (ffs : ℕ → ℕ) (fuel : ℕ) where
  -- A poll that ends with the list in order.
  abbrev pub Ends : Polled → Type 0
  Ends (polled u fs) = (ids : List ℕ) × IsFifo u ids × Ready u ids
  Ends stopped = ⊥
  Ends out_of_fuel = ⊥

  also-Ends : (f : Fired) (r : Polled) → Ends r → Ends (also f r)
  also-Ends f (polled u fs) e = e
  also-Ends f stopped e = e
  also-Ends f out_of_fuel e = e

  -- A queue without a rate that fires goes to the end of the list, or leaves it.
  fire-Ready :
      (t : Thread) (idx : ℕ) (ids : List ℕ)
      → IsFifo t ids
      → Ready t ids
      → Apart idx ids
      → (t.queues idx).rate ≡ 0
      → is_idle (t.queues idx) ≡ true
      → (t.queues idx).in_skiplist ≡ false
      → (t.queues idx).avail == 0 ≡ false
      → (v : Thread) × (bytes : ℕ) × (queue_fire ffs fuel t idx ≡ some (v, bytes))
        × ((IsFifo v ids × Ready v ids) ⊎ (IsFifo v (ids ++ idx ∷ []) × Ready v (ids ++ idx ∷ [])))
  unfolding queue_fire queue_activate
  fire-Ready t idx ids fifo ready apart rate idle place wet =
      let b : ℕ = chunk (t.queues idx) in
      let t' : Thread = taken ffs fuel t idx (chunk (t.queues idx)) in
      let fifo' : IsFifo t' ids =
        put-IsFifo t idx (drained ffs fuel t idx (chunk (t.queues idx))) ids apart fifo in
      let alike : Alike t t' =
        put-Alike t idx (drained ffs fuel t idx (chunk (t.queues idx))) refl refl in
      let ready' = Ready-Alike t t' ids alike ready in
      let rate' : (t'.queues idx).rate ≡ 0 = (alike idx).0 ∙ rate in
      let idle' : is_idle (t'.queues idx) ≡ true = rw (==-same idx) idle in
      let apart_skip : (t'.queues idx).in_skiplist ≡ false = (alike idx).1 ∙ place in
      elim (Bool-cases (ltb 0 ((t.queues idx).avail - chunk (t.queues idx)))) [
        | inr done ↦ (t', b, rw (queue_fire, wet, done) refl, inl (fifo', ready'))
        | inl more ↦
            let (u, e, fifo_u) = queue_activate_nolimit-IsFifo t' ids idx fifo' apart idle' in
            let free : ((t'.queues idx).rate == 0) ≡ true = rw rate' refl in
            let act : queue_activate ffs fuel t' idx ≡ some u = rw (queue_activate, free, e) refl in
            let kept : Alike t' u = rw e at (activate-Alike t' idx) in
            (
              u,
              b,
              rw (queue_fire, wet, more, act) refl,
              inr (
                fifo_u,
                Ready-snoc u idx ids (Ready-Alike t' u ids kept ready') ((kept idx).0 ∙ rate')
                    ((kept idx).1 ∙ apart_skip),
              ),
            )
      ]

  -- poll_nolimit of a list of queues that have no rate ends within one pass more than the queues asked for
  -- and those in the list, without a failed assertion, and leaves such a list.
  pub poll_nolimit-Ends :
      (n : ℕ) (t : Thread) (num : ℕ) (ids : List ℕ)
      → num + length ids < n
      → IsFifo t ids
      → Ready t ids
      → Ends (poll_nolimit ffs fuel n t num)
  unfolding poll_nolimit Ready Distinct take_nolimit
  poll_nolimit-Ends zero t num ids h fifo ready = absurd (omega arith)
  poll_nolimit-Ends (suc n) t num [] h (chain, tail, d) ready =
      let e = Chain-nil t.queues t.nolimit_head_idx chain in
      rw (poll_nolimit, e) ([], (chain, tail, d), tt)
  poll_nolimit-Ends (suc n) t num (i ∷ ids) h fifo (rate, place, ready) =
      let (e, fifo_u) = take_nolimit-IsFifo t i ids fifo in
      let u : Thread = take_nolimit t i in
      let alike : Alike t u =
        put-Alike t i (record (t.queues i) { in_nolimit = false }) refl refl in
      let ready_u = Ready-Alike t u ids alike ready in
      let idle : is_idle (u.queues i) ≡ true = rw (==-same i, place) refl in
      elim (Bool-cases (num == 0)) [
        | inl full ↦ rw (poll_nolimit, e, full) (i ∷ ids, fifo, (rate, place, ready))
        | inr room ↦ elim (Bool-cases ((u.queues i).avail == 0)) [
          | inl dry ↦
              rw (poll_nolimit, e, room, dry)
                (poll_nolimit-Ends n u num ids (omega arith) fifo_u ready_u)
          | inr wet ↦
              let (v, b, f, next) =
                fire-Ready u i ids fifo_u ready_u fifo.2.0 ((alike i).0 ∙ rate) idle
                  ((alike i).1 ∙ place) wet in
              rw (poll_nolimit, e, room, wet, f)
                (also-Ends (record { id = i; bytes = b }) _
                  (elim next [
                    | inl (fifo_v, ready_v) ↦
                        poll_nolimit-Ends n v (num - 1) ids (ground arith) fifo_v ready_v
                    | inr (fifo_v, ready_v) ↦
                        let size = length-append ids (i ∷ []) in
                        poll_nolimit-Ends n v (num - 1) (ids ++ i ∷ []) (ground arith) fifo_v
                          ready_v
                  ]))
        ]
      ]
