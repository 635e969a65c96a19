-- ===== src/Epoll/Masks.antt =====
-- Masks of events (lib/sockets/epoll.c), bit by bit, and a change of a socket's events.
use tas_smartnic.Prelude.{
  ℕ, ◌≡◌, ◌⊎◌, refl, sym, subst, inl, inr, Bool, true, false, ◌&&◌, ◌||◌, not, arith, ◌==◌,
  if◌then◌else◌, Bool-cases, Listed, Distinct,
}
use tas_smartnic.Epoll.State.{
  Event, epollin, epollout, epollerr, epollhup, epollrdhup, Events, meets, State, is_ready,
  with_socket,
}
use tas_smartnic.Epoll.Invariant.{Stands, InvBut}

or_false : (a b : Bool) → (a || b) ≡ false → (a ≡ false) × (b ≡ false)
or_false false false h = (refl, refl)
or_false false true h = absurd cc
or_false true b h = absurd cc

pub meets-at : (a b : Events) → meets a b ≡ false → (v : Event) → (a v && b v) ≡ false
meets-at a b h v =
    let (h4, e4) = or_false _ _ h in
    let (h3, e3) = or_false _ _ h4 in
    let (h2, e2) = or_false _ _ h3 in
    let (e0, e1) = or_false _ _ h2 in
    elim v as (λ w. (a w && b w) ≡ false) [
      | epollin ↦ e0
      | epollout ↦ e1
      | epollerr ↦ e2
      | epollhup ↦ e3
      | epollrdhup ↦ e4
    ]

pub at-meets : (a b : Events) → ((v : Event) → (a v && b v) ≡ false) → meets a b ≡ false
at-meets a b h = rw (h epollin, h epollout, h epollerr, h epollhup, h epollrdhup) refl

-- Fewer events meet a mask less often.
pub meets_fewer :
    (a b m : Events)
    → ((v : Event) → a v ≡ true → b v ≡ true)
    → meets b m ≡ false
    → meets a m ≡ false
meets_fewer a b m less h = at-meets a m (λ v. elim (Bool-cases (a v)) [
  | inr off ↦ rw off refl
  | inl on ↦
      let both : (b v && m v) ≡ false = meets-at b m h v in
      let masked : m v ≡ false = rw (less v on) at both in rw (on, masked) refl
])

-- Old events, and new ones that the mask does not have.
pub meets_union :
    (old evts m : Events)
    → meets old m ≡ false
    → meets (λ v. not (old v) && evts v) m ≡ false
    → meets (λ v. old v || evts v) m ≡ false
meets_union old evts m h k =
    at-meets (λ v. old v || evts v) m
      (λ v.
        bits (old v) (evts v) (m v) (meets-at old m h v)
          (meets-at (λ w. not (old w) && evts w) m k v))
  where
    bits : (o e b : Bool) → (o && b) ≡ false → ((not o && e) && b) ≡ false → ((o || e) && b) ≡ false
    bits true e b h k = h
    bits false e b h k = k

-- The socket `k` with other events.
abbrev pub changed : State → (k : ℕ) → Events → State
changed s k new = with_socket s k (record (s.socket k) { ep_events = new })

pub changed-eps :
    (s : State) (k : ℕ) (new : Events) (i : ℕ) → ((changed s k new).socket i).eps ≡ (s.socket i).eps
changed-eps s k new i = ground arith

pub changed-ep_events :
    (s : State) (k : ℕ) (new : Events) (i : ℕ)
    → ((changed s k new).socket i).ep_events ≡ (if i == k then new else (s.socket i).ep_events)
changed-ep_events s k new i = ground arith

Stands-changed :
    (s : State) (k : ℕ) (new : Events) (b : Bool) (p e : ℕ)
    → Stands s b p e
    → Stands (changed s k new) b p e
Stands-changed s k new b p e st = record {
  flag = st.flag;
  owner = st.owner;
  known = subst (Listed e) (sym (changed-eps s k new (s.es e).s)) st.known;
}

-- The events of a socket change: the invariant is kept but for bindings that become ready.
pub changed-InvBut :
    {Todo : ℕ → Type 0} (More : ℕ → Type 0) (s : State) (k : ℕ) (new : Events)
    → InvBut Todo s
    → ((p e : ℕ) → Listed e (s.epoll p).inactive → (is_ready (changed s k new) e ≡ false) ⊎ More e)
    → InvBut More (changed s k new)
changed-InvBut More s k new inv waits = record {
  once_inactive = inv.once_inactive;
  once_active = inv.once_active;
  once_eps = λ i. subst Distinct (sym (changed-eps s k new i)) (inv.once_eps i);
  idle = λ p e l. Stands-changed s k new false p e (inv.idle p e l);
  busy = λ p e l. Stands-changed s k new true p e (inv.busy p e l);
  waits = waits;
  bound = λ i e l. inv.bound i e (subst (Listed e) (changed-eps s k new i) l);
  count = inv.count;
  few = inv.few;
}
