-- ===== src/Timeout/Moves.antt =====
-- As time goes on, the timeouts whose deadline is reached move to the due list, and no other does.
use mathlib.Core.List.{append-nil, append_assoc}
use tas_smartnic.Prelude.{
  leb_false→lt, leb→le, ◌∙◌, sym, inr, inl, Bool-cases, ℕ, ◌+◌, ◌-◌, ◌^◌, ◌≤◌, ◌<◌, ◌≡◌, refl, ap,
  subst, List, [], ◌∷◌, ◌++◌, leb, if◌then◌else◌, arith, All,
}
use tas_smartnic.Timeout.Clock.{mask, middle, rel_stamp-later}
use tas_smartnic.Timeout.Manager.{
  Timeout, Manager, rel_time, timeout_due, move_due_list, move_due_timeouts,
}
use tas_smartnic.Timeout.Order.{Ordered}

-- What move_due_timeouts does after `d` microseconds to timeouts in order: the front of the list, up
-- to the deadlines reached, is appended to the due list, and the rest stays, `d` nearer.
pub record Moved (now d : ℕ) (pending due : List Timeout) (m : Manager) : Type 0 where
  pub early : List Timeout
  pub split : pending ≡ early ++ m.timeouts
  pub appended : m.due ≡ due ++ early
  pub reached : All (λ x. rel_time now x ≤ d) early
  pub left : All (λ x. d < rel_time now x) m.timeouts
  pub ordered : Ordered (mask (now + d)) 1 m.timeouts

module _ (now d : ℕ) (small : now < 2 ^ 28) (near : d < middle) where
  rel_time-later :
      (x : Timeout)
      → rel_time now x < middle
      → rel_time (mask (now + d)) x
        ≡ (if leb d (rel_time now x) then rel_time now x - d else 2 ^ 32 + rel_time now x - d)
  unfolding rel_time
  rel_time-later x h =
      rel_stamp-later now d (mask x.timeout_type) (rel_time now x) small (omega arith) h refl near

  due-later :
      (x : Timeout)
      → rel_time now x < middle
      → timeout_due (mask (now + d)) x ≡ leb (rel_time now x) d
  unfolding timeout_due
  due-later x h = ground (arith, rel_time-later x h)

  Ordered-later :
      (lo : ℕ) (xs : List Timeout)
      → d < lo
      → Ordered now lo xs
      → Ordered (mask (now + d)) (lo - d) xs × All (λ x. d < rel_time now x) xs
  Ordered-later lo [] h o = (tt, tt)
  Ordered-later lo (x ∷ xs) h o =
      let (o', w) = Ordered-later (rel_time now x) xs (omega arith) o.2 in
      let e : rel_time (mask (now + d)) x ≡ rel_time now x - d =
        ground (arith, rel_time-later x o.1) in
      (
        (omega arith, omega arith, subst (λ k. Ordered (mask (now + d)) k xs) (sym e) o'),
        (omega arith, w),
      )

  move_due_list-Moved :
      (lo : ℕ) (pending due : List Timeout)
      → Ordered now lo pending
      → Moved now d pending due (move_due_list (mask (now + d)) pending due)
  unfolding move_due_list
  move_due_list-Moved lo [] due o = record {
    early = [];
    split = refl;
    appended = sym (append-nil due);
    reached = tt;
    left = tt;
    ordered = tt;
  }
  move_due_list-Moved lo (x ∷ xs) due o = elim (Bool-cases (leb (rel_time now x) d)) [
    | inl le ↦
        rw (due-later x o.1, le)
          (extend (move_due_list-Moved (rel_time now x) xs (due ++ (x ∷ [])) o.2)
            (omega (arith, leb→le _ _ le)))
    | inr gt ↦ rw (due-later x o.1, gt) (stay (leb_false→lt _ _ gt))
  ]
    where
      extend :
          {m : Manager}
          → Moved now d xs (due ++ (x ∷ [])) m
          → rel_time now x ≤ d
          → Moved now d (x ∷ xs) due m
      extend w le = record {
        early = x ∷ w.early;
        split = ap (◌∷◌ x) w.split;
        appended = w.appended ∙ append_assoc due (x ∷ []) w.early;
        reached = (le, w.reached);
        left = w.left;
        ordered = w.ordered;
      }

      stay : d < rel_time now x → Moved now d (x ∷ xs) due (record { timeouts = x ∷ xs; due = due })
      stay gt =
          let (o', w) = Ordered-later (d + 1) (x ∷ xs) (omega arith) (omega arith, o.1, o.2) in
          record {
            early = [];
            split = refl;
            appended = sym (append-nil due);
            reached = tt;
            left = w;
            ordered = subst (λ k. Ordered (mask (now + d)) k (x ∷ xs)) (omega arith) o';
          }

  -- move_due_timeouts, `d` microseconds after a time at which the pending timeouts were in order.
  pub move_due-Moved :
      (m : Manager)
      → Ordered now 0 m.timeouts
      → Moved now d m.timeouts m.due (move_due_timeouts m (mask (now + d)))
  unfolding move_due_timeouts
  move_due-Moved m o = move_due_list-Moved 0 m.timeouts m.due o
