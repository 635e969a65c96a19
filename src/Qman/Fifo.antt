-- ===== src/Qman/Fifo.antt =====
-- The list of queues without a rate of tas_nic/fast/qman.c is a queue of indices.
use tas_smartnic.Prelude.{
  Distinct-snoc, Distinct, Apart, ==-same, inr, inl, arith, Option-cases, ◌==◌, ◌∷◌, [], List, ℕ,
  true, false, Option, none, some, ◌≡◌, ◌≢◌, ◌++◌, refl, sym,
}
use tas_smartnic.Qman.Thread.{
  joined, set_next, with_queue, Queue, Thread, put, is_idle, queue_activate_nolimit, take_nolimit,
}

-- The queues of the list from an index on, in order.
pub data Chain (queues : ℕ → Queue) : Option ℕ → List ℕ → Type 0 where
  ends : Chain queues none []
  links :
      {idx : ℕ} {ids : List ℕ}
      → Chain queues ((queues idx).next_idxs 0) ids
      → Chain queues (some idx) (idx ∷ ids)

unfoldable pub last : List ℕ → Option ℕ
last [] = none
last (i ∷ ids) = let rest = last ids in elim rest [ none ↦ some i | some j ↦ some j ]

-- The list holds just these queues, in this order, each once.
abbrev pub IsFifo : Thread → List ℕ → Type 0
IsFifo t ids =
    Chain t.queues t.nolimit_head_idx ids × (t.nolimit_tail_idx ≡ last ids) × Distinct ids

-- Both give each of these queues the same successor.
unfoldable pub Agree : (ℕ → Queue) → (ℕ → Queue) → List ℕ → Type 0
Agree qs rs [] = Unit
Agree qs rs (i ∷ ids) = ((rs i).next_idxs 0 ≡ (qs i).next_idxs 0) × Agree qs rs ids

pub Chain-Agree :
    (qs rs : ℕ → Queue) (head : Option ℕ) (ids : List ℕ)
    → Chain qs head ids
    → Agree qs rs ids
    → Chain rs head ids
unfolding Agree
Chain-Agree qs rs _ _ ends agree = ends
Chain-Agree qs rs _ _ (links {idx = i} {ids = ids} rest) (same, agree) =
    links (rw same (Chain-Agree qs rs _ ids rest agree))

pub put-Agree :
    (qs : ℕ → Queue) (idx : ℕ) (q : Queue) (ids : List ℕ)
    → Apart idx ids
    → Agree qs (put qs idx q) ids
unfolding Agree Apart
put-Agree qs idx q [] apart = tt
put-Agree qs idx q (i ∷ ids) (other, apart) =
    let differs : (i == idx) ≡ false = ground arith in
    (rw differs refl, put-Agree qs idx q ids apart)

last-Apart : (i tail : ℕ) (ids : List ℕ) → Apart i ids → last ids ≡ some tail → tail ≢ i
unfolding last Apart
last-Apart i tail [] apart e = absurd cc
last-Apart i tail (j ∷ ids) (other, apart) e = elim (Option-cases (last ids)) [
  | inl lone ↦ let same : j ≡ tail = cc (rw lone at e) in rw (sym same) other
  | inr (k, more) ↦
      let same : k ≡ tail = cc (rw more at e) in last-Apart i tail ids apart (rw (sym same) more)
]

-- The last queue, with another one behind it.
last_link :
    (qs rs : ℕ → Queue) (tail idx i : ℕ) (ids : List ℕ)
    → i ≡ tail
    → (rs tail).next_idxs 0 ≡ some idx
    → (rs idx).next_idxs 0 ≡ none
    → {head : Option ℕ} → Chain qs head ids
    → last ids ≡ none
    → Chain rs (some i) (i ∷ ids ++ idx ∷ [])
unfolding last
last_link qs rs tail idx i [] here at_tail at_new rest lone =
    links (rw (here, at_tail) (links (rw at_new ends)))
last_link qs rs tail idx i (j ∷ ids) here at_tail at_new rest lone =
    elim (Option-cases (last ids)) [
      | inl e ↦ absurd (cc (rw e at lone))
      | inr (k, e) ↦ absurd (cc (rw e at lone))
    ]

-- A queue linked behind the last one.
Chain-snoc :
    (qs rs : ℕ → Queue) (tail idx : ℕ) (head : Option ℕ) (ids : List ℕ)
    → ((i : ℕ) → i ≢ tail → i ≢ idx → (rs i).next_idxs 0 ≡ (qs i).next_idxs 0)
    → (rs tail).next_idxs 0 ≡ some idx
    → (rs idx).next_idxs 0 ≡ none
    → Chain qs head ids
    → Distinct ids
    → Apart idx ids
    → last ids ≡ some tail
    → Chain rs head (ids ++ idx ∷ [])
unfolding last Apart Distinct
Chain-snoc qs rs tail idx _ _ same at_tail at_new ends d a e = absurd cc
Chain-snoc qs rs tail idx _ _ same at_tail at_new (links {idx = i} {ids = ids} rest) (ai, d)
      (other, a) e =
    elim (Option-cases (last ids)) [
      | inl lone ↦
          let here : i ≡ tail = cc (rw lone at e) in
          last_link qs rs tail idx _ ids here at_tail at_new rest lone
      | inr (k, more) ↦
          let is_tail : k ≡ tail = cc (rw more at e) in
          let e' : last ids ≡ some tail = rw more (rw is_tail refl) in
          let differs : i ≢ tail = λ f. last-Apart i tail ids ai e' (sym f) in
          links (
            rw (same i differs other)
              (Chain-snoc qs rs tail idx _ ids same at_tail at_new rest d a e'))
    ]

last-snoc : (ids : List ℕ) (idx : ℕ) → last (ids ++ idx ∷ []) ≡ some idx
unfolding last
last-snoc [] idx = refl
last-snoc (i ∷ ids) idx = rw (last-snoc ids idx) refl

-- The last queue of a list that is not empty.
last-some : (i : ℕ) (ids : List ℕ) → (k : ℕ) × (last (i ∷ ids) ≡ some k)
unfolding last
last-some i ids = elim (Option-cases (last ids)) [
  | inl e ↦ (i, rw e refl)
  | inr (k, e) ↦ (k, rw e refl)
]

pub Chain-cons :
    (qs : ℕ → Queue) (head : Option ℕ) (i : ℕ) (ids : List ℕ)
    → Chain qs head (i ∷ ids)
    → (head ≡ some i) × Chain qs ((qs i).next_idxs 0) ids
Chain-cons qs _ i ids (links rest) = (refl, rest)

pub Chain-nil : (qs : ℕ → Queue) (head : Option ℕ) → Chain qs head [] → head ≡ none
Chain-nil qs _ ends = refl

-- The list with the queue as its only one, and behind the last one.
abbrev alone : Thread → ℕ → Thread
alone t idx = record (with_queue t idx (joined t idx)) {
  nolimit_head_idx = some idx;
  nolimit_tail_idx = some idx;
}

abbrev behind : Thread → ℕ → ℕ → Thread
behind t idx tail = record (set_next (with_queue t idx (joined t idx)) tail 0 (some idx)) {
  nolimit_tail_idx = some idx;
}

Chain-alone : (t : Thread) (idx : ℕ) → Chain (alone t idx).queues (some idx) (idx ∷ [])
Chain-alone t idx = links (rw (==-same idx) ends)

Chain-behind :
    (t : Thread) (idx tail : ℕ) (head : Option ℕ) (ids : List ℕ)
    → Chain t.queues head ids
    → Distinct ids
    → Apart idx ids
    → last ids ≡ some tail
    → Chain (behind t idx tail).queues head (ids ++ idx ∷ [])
Chain-behind t idx tail head ids chain d a e =
    let apart : tail ≢ idx = last-Apart idx tail ids a e in
    let differs : (idx == tail) ≡ false = ground arith in
    Chain-snoc t.queues (behind t idx tail).queues tail idx head ids
      (λ i f g.
        let h : (i == tail) ≡ false = ground arith in
        let k : (i == idx) ≡ false = ground arith in rw (h, k) refl)
      (rw (==-same tail) refl) (rw (differs, ==-same idx) refl) chain d a e

-- An idle queue that is activated joins the list at its end.
pub queue_activate_nolimit-IsFifo :
    (t : Thread) (ids : List ℕ) (idx : ℕ)
    → IsFifo t ids
    → Apart idx ids
    → is_idle (t.queues idx) ≡ true
    → (u : Thread) × (queue_activate_nolimit t idx ≡ some u) × IsFifo u (ids ++ idx ∷ [])
unfolding queue_activate_nolimit last Apart Distinct
queue_activate_nolimit-IsFifo t [] idx (chain, tail, d) a idle =
    (alone t idx, rw (queue_activate_nolimit, idle, tail) refl, (Chain-alone t idx, refl, (tt, tt)))
queue_activate_nolimit-IsFifo t (i ∷ ids) idx (chain, tail, d) a idle =
    let (k, e) = last-some i ids in
    (
      behind t idx k,
      rw (queue_activate_nolimit, idle, tail, e) refl,
      (
        Chain-behind t idx k t.nolimit_head_idx (i ∷ ids) chain d a e,
        sym (last-snoc (i ∷ ids) idx),
        Distinct-snoc idx (i ∷ ids) d a,
      ),
    )

-- The tail of a list without its head.
take-tail :
    (next tail : Option ℕ) (qs : ℕ → Queue) (i : ℕ) (ids : List ℕ)
    → Chain qs next ids
    → tail ≡ last (i ∷ ids)
    → elim next [ none ↦ none | some j ↦ tail ] ≡ last ids
unfolding last
take-tail next tail qs i [] chain e = rw (Chain-nil qs next chain) refl
take-tail next tail qs i (j ∷ ids) chain e =
    let (k, f) = last-some j ids in
    let (here, rest) = Chain-cons qs next j ids chain in rw (here, e, f) refl

-- The head leaves the list.
pub take_nolimit-IsFifo :
    (t : Thread) (i : ℕ) (ids : List ℕ)
    → IsFifo t (i ∷ ids)
    → (t.nolimit_head_idx ≡ some i) × IsFifo (take_nolimit t i) ids
unfolding take_nolimit Distinct
take_nolimit-IsFifo t i ids (chain, tail, (a, d)) =
    let (here, rest) = Chain-cons t.queues t.nolimit_head_idx i ids chain in
    (
      here,
      (
        Chain-Agree t.queues _ _ ids rest
            (put-Agree t.queues i (record (t.queues i) { in_nolimit = false }) ids a),
        take-tail _ t.nolimit_tail_idx t.queues i ids rest tail,
        d,
      ),
    )
