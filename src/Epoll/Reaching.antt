-- ===== src/Epoll/Reaching.antt =====
-- The operations of lib/sockets/epoll.c one after the other, in any order: what they keep, and that an
-- event that is pending is reported.
use tas_smartnic.Prelude.{
  ℕ, ◌-◌, ◌≤◌, ◌≡◌, ◌⊎◌, sym, ap, ◌∙◌, subst, inl, inr, Bool, true, false, Option, some, List, [],
  ◌∷◌, arith, ◌==◌, Bool-cases, Listed, length,
}
use tas_smartnic.Epoll.State.{Events, State, is_ready}
use tas_smartnic.Epoll.Control.{
  Op, Request, Result, tas_epoll_ctl, linux_ctl, epoll_set, epoll_clear, epoll_destroy, sockclose,
}
use tas_smartnic.Epoll.Waiting.{Report, report, poll_active}
use tas_smartnic.Epoll.Invariant.{Inv}
use tas_smartnic.Epoll.Polled.{ready_reports, poll_active_lem}
use tas_smartnic.Epoll.Operations.{epoll_set-Inv, epoll_clear-Inv}
use tas_smartnic.Epoll.Destroying.{epoll_destroy-Inv}
use tas_smartnic.Epoll.Closing.{sockclose-Inv}
use tas_smartnic.Epoll.Controlled.{Unused, Room, tas_epoll_ctl-Inv, linux_ctl-Inv}

pub data Step (s t : State) : Type 0 where
  told : (k : ℕ) (evts : Events) → epoll_set s k evts ≡ t → Step s t
  cleared : (k : ℕ) (evts : Events) → epoll_clear s k evts ≡ t → Step s t
  controlled :
      (ep : ℕ) (op : Op) (k : ℕ) (r : Request) (fresh : Option ℕ) (res : Result)
      → Unused s fresh
      → Room s ep
      → tas_epoll_ctl s ep op k r fresh ≡ some (t, res)
      → Step s t
  linux_controlled :
      (ep : ℕ) (op : Op) (ok : Bool) (res : Result)
      → linux_ctl s ep op ok ≡ some (t, res)
      → Step s t
  polled :
      (ep room : ℕ) (rs : List Report)
      → poll_active (s.epoll ep).num_active s ep room ≡ some (t, rs)
      → Step s t
  closed : (k : ℕ) → sockclose s k ≡ some t → Step s t
  destroyed : (p : ℕ) → epoll_destroy s p ≡ some t → Step s t

pub data Runs (s : State) : State → Type 0 where
  started : Runs s s
  later : {t u : State} → Runs s t → Step t u → Runs s u

Step-Inv : {s t : State} → Step s t → Inv s → Inv t
Step-Inv {s} {t} (told k evts e) inv = subst Inv e (epoll_set-Inv s k evts inv)
Step-Inv {s} {t} (cleared k evts e) inv = subst Inv e (epoll_clear-Inv s k evts inv)
Step-Inv {s} {t} (controlled ep op k r fresh res unused room e) inv =
    let (u, res_u, done, kept) = tas_epoll_ctl-Inv s ep op k r fresh inv unused room in
    let is : u ≡ t = cc (sym done ∙ e) in subst Inv is kept
Step-Inv {s} {t} (linux_controlled ep op ok res e) inv = linux_ctl-Inv s t ep op ok res e inv
Step-Inv {s} {t} (polled ep room rs e) inv =
    let (u, done, kept) = poll_active_lem s ep room inv in
    let is : u ≡ t = cc (sym done ∙ e) in subst Inv is kept
Step-Inv {s} {t} (closed k e) inv =
    let (u, done, kept, none_left) = sockclose-Inv s k inv in
    let is : u ≡ t = cc (sym done ∙ e) in subst Inv is kept
Step-Inv {s} {t} (destroyed p e) inv =
    let (u, done, kept, none_active, none_left) = epoll_destroy-Inv s p inv in
    let is : u ≡ t = cc (sym done ∙ e) in subst Inv is kept

-- After any operations on sockets and epolls, in any order, all lists of bindings are in order, and no
-- binding with an unmasked event pending is in an inactive list.
pub Runs-Inv : {s t : State} → Runs s t → Inv s → Inv t
Runs-Inv started inv = inv
Runs-Inv (later r step) inv = Step-Inv step (Runs-Inv r inv)

pub Reported : Report → List Report → Type 0
Reported r [] = ⊥
Reported r (x ∷ xs) = (x ≡ r) ⊎ Reported r xs

ready_reports-Reported :
    (s : State) (e : ℕ) (es : List ℕ) (room : ℕ)
    → Listed e es
    → is_ready s e ≡ true
    → length es ≤ room
    → Reported (report s e) (ready_reports s es room)
unfolding ready_reports Reported Listed
ready_reports-Reported s e [] room l ready fits = absurd l
ready_reports-Reported s e (x ∷ es) room l ready fits =
    let free : (room == 0) ≡ false = ground arith in
    let fewer : length es ≤ room - 1 = omega arith in
    let wider : length es ≤ room = omega arith in
    elim l [
      | inl same ↦
          let it : is_ready s x ≡ true = ap (is_ready s) same ∙ ready in
          rw (free, it) (inl (ap (report s) same))
      | inr more ↦ elim (Bool-cases (is_ready s x)) [
        | inl it ↦ rw (free, it) (inr (ready_reports-Reported s e es (room - 1) more ready fewer))
        | inr rests ↦ rw (free, rests) (ready_reports-Reported s e es room more ready wider)
      ]
    ]

-- A binding of a socket whose unmasked event is pending is in the active list of its epoll.
ready-Listed :
    {s : State} (k e : ℕ)
    → Inv s
    → Listed e (s.socket k).eps
    → is_ready s e ≡ true
    → Listed e (s.epoll (s.es e).ep).active
ready-Listed {s} k e inv l ready =
    let place = (inv.bound k e l).1 in
    elim (Bool-cases (s.es e).active) [
      | inl on ↦ rw on at place
      | inr off ↦
          let there : Listed e (s.epoll (s.es e).ep).inactive = rw off at place in
          elim (inv.waits (s.es e).ep e there) [ inl rests ↦ absurd cc | inr todo ↦ absurd todo ]
    ]

-- After any operations, a poll of an epoll that has room for its active bindings reports every binding
-- of the epoll with an unmasked event pending.
pub pending-Reported :
    {s t : State} (k e room : ℕ)
    → Runs s t
    → Inv s
    → Listed e (t.socket k).eps
    → is_ready t e ≡ true
    → length (t.epoll (t.es e).ep).active ≤ room
    → (u : State) × (rs : List Report) × (poll_active
          (t.epoll (t.es e).ep).num_active
          t
          (t.es e).ep
          room
        ≡ some (u, rs))
      × Reported (report t e) rs
pending-Reported {s} {t} k e room r inv l ready fits =
    let inv_t : Inv t = Runs-Inv r inv in
    let (u, done, inv_u) = poll_active_lem t (t.es e).ep room inv_t in
    (u, _, done, ready_reports-Reported t e _ room (ready-Listed k e inv_t l ready) ready fits)
