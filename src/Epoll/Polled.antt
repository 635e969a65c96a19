-- ===== src/Epoll/Polled.antt =====
-- ep_poll_tas (lib/sockets/epoll.c) reports every binding with an event pending, as far as there is room.
use mathlib.Core.List.{append_assoc, append-nil}
use tas_smartnic.Prelude.{
  ==-same, ℕ, suc, ◌-◌, ◌≡◌, refl, sym, ap, ◌∙◌, subst, inl, inr, Bool, true, false, some, List, [],
  ◌∷◌, ◌++◌, ◌==◌, length, if◌then◌else◌, Bool-cases, Listed,
}
use tas_smartnic.Epoll.State.{State, is_ready, remove, es_deactivate, es_active_pushback}
use tas_smartnic.Epoll.Waiting.{Report, report, poll_active}
use tas_smartnic.Epoll.Invariant.{Stands, Inv}
use tas_smartnic.Epoll.Lists.{head-Listed}
use tas_smartnic.Epoll.Moves.{Moved, Moved-is_ready, Moved-report, here_active}
use tas_smartnic.Epoll.Deactivation.{es_deactivate-Inv, es_active_pushback-Inv}

-- The reports of the ready bindings of a list, in its order, up to `room`.
unfoldable pub ready_reports : State → List ℕ → (room : ℕ) → List Report
ready_reports s [] room = []
ready_reports s (e ∷ es) room =
    let rest = ready_reports s es room in
    let fewer = ready_reports s es (room - 1) in
    if room == 0 then [] else if is_ready s e then report s e ∷ fewer else rest

-- Two states in which the same is ready and reported.
Same : State → State → Type 0
Same s t = ((i : ℕ) → is_ready t i ≡ is_ready s i) × ((i : ℕ) → report t i ≡ report s i)

ready_reports-Same :
    (s t : State) (es : List ℕ) (room : ℕ)
    → Same s t
    → ready_reports t es room ≡ ready_reports s es room
unfolding ready_reports Same
ready_reports-Same s t [] room same = refl
ready_reports-Same s t (e ∷ es) room same =
    rw
      (
        same.0 e,
        same.1 e,
        ready_reports-Same s t es room same,
        ready_reports-Same s t es (room - 1) same,
      )
      refl

pub remove_head : (e : ℕ) (xs : List ℕ) → remove e (e ∷ xs) ≡ xs
unfolding remove
remove_head e xs = rw (==-same e) refl

-- The list of active ones after its first one was visited.
after_move :
    (s t : State) (e p : ℕ) (rest : List ℕ) (b : Bool) (I : List ℕ) (more : List ℕ)
    → (s.es e).ep ≡ p
    → (s.epoll p).active ≡ e ∷ rest
    → Moved s t e b I (remove e (s.epoll (s.es e).ep).active ++ more)
    → (t.epoll p).active ≡ rest ++ more
after_move s t e p rest b I more owner lists move =
    let old : (s.epoll (s.es e).ep).active ≡ e ∷ rest =
      subst (λ q. (s.epoll q).active ≡ e ∷ rest) (sym owner) lists in
    subst (λ q. (t.epoll q).active ≡ rest ++ more) owner
      (here_active move
        ∙ ap (λ l. remove e l ++ more) old
        ∙ ap (λ l. l ++ more) (remove_head e rest))

step_ready :
    (i : ℕ) (s t u : State) (p room e : ℕ) (rest : List ℕ) (rs : List Report)
    → (room == 0) ≡ false
    → (s.epoll p).active ≡ e ∷ rest
    → is_ready s e ≡ true
    → es_active_pushback s e ≡ some t
    → poll_active i t p (room - 1) ≡ some (u, rs)
    → poll_active (suc i) s p room ≡ some (u, report s e ∷ rs)
unfolding poll_active
step_ready i s t u p room e rest rs free lists ready moved polled =
    rw (free, lists, ready, moved, polled) refl

step_resting :
    (i : ℕ) (s t u : State) (p room e : ℕ) (rest : List ℕ) (rs : List Report)
    → (room == 0) ≡ false
    → (s.epoll p).active ≡ e ∷ rest
    → is_ready s e ≡ false
    → es_deactivate s e ≡ some t
    → poll_active i t p room ≡ some (u, rs)
    → poll_active (suc i) s p room ≡ some (u, rs)
unfolding poll_active
step_resting i s t u p room e rest rs free lists rests moved polled =
    rw (free, lists, rests, moved, polled) refl

reports_ready :
    (s t : State) (e : ℕ) (es : List ℕ) (room : ℕ)
    → (room == 0) ≡ false
    → is_ready s e ≡ true
    → Same s t
    → report s e ∷ ready_reports t es (room - 1) ≡ ready_reports s (e ∷ es) room
unfolding ready_reports
reports_ready s t e es room free ready same =
    rw (free, ready) (ap (λ l. report s e ∷ l) (ready_reports-Same s t es (room - 1) same))

reports_resting :
    (s t : State) (e : ℕ) (es : List ℕ) (room : ℕ)
    → (room == 0) ≡ false
    → is_ready s e ≡ false
    → Same s t
    → ready_reports t es room ≡ ready_reports s (e ∷ es) room
unfolding ready_reports
reports_resting s t e es room free rests same =
    rw (free, rests) (ready_reports-Same s t es room same)

-- The loop, at a list of which `pending` is not visited yet.
visit_pending :
    (pending done : List ℕ) (s : State) (p room : ℕ)
    → Inv s
    → (s.epoll p).active ≡ pending ++ done
    → (u : State) × (poll_active (length pending) s p room ≡ some (u, ready_reports s pending room))
      × Inv u
unfolding poll_active ready_reports Same
visit_pending [] done s p room inv lists = (s, refl, inv)
visit_pending (e ∷ pending) done s p room inv lists = elim (Bool-cases (room == 0)) [
  | inl full ↦ (s, rw full refl, inv)
  | inr free ↦
      let listed : Listed e (s.epoll p).active =
        subst (Listed e) (sym lists) (head-Listed e (pending ++ done)) in
      let stands : Stands s true p e = inv.busy p e listed in
      elim (Bool-cases (is_ready s e)) [
        | inl ready ↦
            let (t, done_t, inv_t, move) = es_active_pushback-Inv e inv stands.known stands.flag in
            let after : (t.epoll p).active ≡ pending ++ (done ++ e ∷ []) =
              after_move s t e p (pending ++ done) true _ (e ∷ []) stands.owner lists move
              ∙ append_assoc pending done (e ∷ []) in
            let (u, polled, inv_u) =
              visit_pending pending (done ++ e ∷ []) t p (room - 1) inv_t after in
            let same : Same s t = (Moved-is_ready move, Moved-report move) in
            let step =
              step_ready (length pending) s t u p room e (pending ++ done) _ free lists ready done_t
                polled in
            (
              u,
              subst (λ rs. poll_active (suc (length pending)) s p room ≡ some (u, rs))
                  (reports_ready s t e pending room free ready same) step,
              inv_u,
            )
        | inr rests ↦
            let (t, done_t, inv_t, move) = es_deactivate-Inv e inv stands.known stands.flag rests in
            let bare : Moved s t e false (e ∷ (s.epoll (s.es e).ep).inactive)
                (remove e (s.epoll (s.es e).ep).active ++ []) =
              subst (Moved s t e false (e ∷ (s.epoll (s.es e).ep).inactive))
                (sym (append-nil (remove e (s.epoll (s.es e).ep).active))) move in
            let after : (t.epoll p).active ≡ pending ++ done =
              after_move s t e p (pending ++ done) false _ [] stands.owner lists bare
              ∙ append-nil (pending ++ done) in
            let (u, polled, inv_u) = visit_pending pending done t p room inv_t after in
            let same : Same s t = (Moved-is_ready move, Moved-report move) in
            let step =
              step_resting (length pending) s t u p room e (pending ++ done) _ free lists rests
                done_t polled in
            (
              u,
              subst (λ rs. poll_active (suc (length pending)) s p room ≡ some (u, rs))
                  (reports_resting s t e pending room free rests same) step,
              inv_u,
            )
      ]
]

-- The loop of ep_poll_tas, from a state in the invariant: it ends without a failed assertion, reports
-- exactly the bindings of the active list with an unmasked event pending, in the order of the list and
-- with these events, as many as there is room for, and keeps the invariant.
pub poll_active_lem :
    (s : State) (p room : ℕ)
    → Inv s
    → (u : State) × (poll_active (s.epoll p).num_active s p room
        ≡ some (u, ready_reports s (s.epoll p).active room))
      × Inv u
poll_active_lem s p room inv =
    let (u, polled, inv_u) =
      visit_pending (s.epoll p).active [] s p room inv (sym (append-nil (s.epoll p).active)) in
    (
      u,
      subst (λ n. poll_active n s p room ≡ some (u, ready_reports s (s.epoll p).active room))
          (sym (inv.count p)) polled,
      inv_u,
    )
