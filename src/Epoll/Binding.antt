-- ===== src/Epoll/Binding.antt =====
-- tas_epoll_ctl (lib/sockets/epoll.c) keeps the invariant: a binding is added, changed or removed.
use tas_smartnic.Prelude.{
  ℕ, ◌≡◌, refl, sym, ap, ◌∙◌, subst, inl, inr, Bool, true, false, some, List, [], ◌∷◌, arith, ◌==◌,
  Bool-cases, ==-same, Listed, Distinct, length,
}
use tas_smartnic.Epoll.State.{Events, State, with_es, with_epoll, with_epoll}
use tas_smartnic.Epoll.Control.{Request, mask_of, count_tas, find_es, epoll_mod}
use tas_smartnic.Epoll.Invariant.{Stands, Placed, InvBut, Inv}
use tas_smartnic.Epoll.Activation.{settle}

-- The binding that is looked for is one of the socket, on this epoll.
pub find_es-some :
    (s : State) (ep : ℕ) (es : List ℕ) (e : ℕ)
    → find_es s ep es ≡ some e
    → Listed e es × ((s.es e).ep ≡ ep)
unfolding find_es Listed
find_es-some s ep [] e h = absurd cc
find_es-some s ep (x ∷ es) e h = elim (Bool-cases ((s.es x).ep == ep)) [
  | inl here ↦
      let same : x ≡ e = cc (rw here at h) in
      let owner : (s.es x).ep ≡ ep = ground arith in
      (inl same, subst (λ j. (s.es j).ep ≡ ep) same owner)
  | inr there ↦ let (l, owner) = find_es-some s ep es e (rw there at h) in (inr l, owner)
]

-- The counters of sockets and linux_next are not looked at.
abbrev counters : State → (ep n l : ℕ) → Bool → State
counters s ep n l b =
    with_epoll s ep (record (s.epoll ep) { num_tas = n; num_linux = l; linux_next = b })

pub counters-InvBut :
    {Todo : ℕ → Type 0} (s : State) (ep n l : ℕ) (b : Bool)
    → InvBut Todo s
    → InvBut Todo (counters s ep n l b)
counters-InvBut s ep n m b inv =
    let same_i : (q : ℕ) → ((counters s ep n m b).epoll q).inactive ≡ (s.epoll q).inactive =
      λ q. inactive q in
    let same_a : (q : ℕ) → ((counters s ep n m b).epoll q).active ≡ (s.epoll q).active =
      λ q. active q in
    record {
      once_inactive = λ q. subst Distinct (sym (same_i q)) (inv.once_inactive q);
      once_active = λ q. subst Distinct (sym (same_a q)) (inv.once_active q);
      once_eps = inv.once_eps;
      idle = λ q e l.
          let st = inv.idle q e (subst (Listed e) (same_i q) l) in
          record { flag = st.flag; owner = st.owner; known = st.known };
      busy = λ q e l.
          let st = inv.busy q e (subst (Listed e) (same_a q) l) in
          record { flag = st.flag; owner = st.owner; known = st.known };
      waits = λ q e l. inv.waits q e (subst (Listed e) (same_i q) l);
      bound = λ k e l.
          let (of, placed) = inv.bound k e l in
          (of, rw (same_i (s.es e).ep, same_a (s.es e).ep) placed);
      count = λ q. count q ∙ inv.count q ∙ sym (ap length (same_a q));
      few = λ q. rw (same_i q, same_a q) (inv.few q);
    }
  where
    inactive : (q : ℕ) → ((counters s ep n m b).epoll q).inactive ≡ (s.epoll q).inactive
    inactive q = ground arith

    active : (q : ℕ) → ((counters s ep n m b).epoll q).active ≡ (s.epoll q).active
    active q = ground arith

    count : (q : ℕ) → ((counters s ep n m b).epoll q).num_active ≡ (s.epoll q).num_active
    count q = ground arith

pub count_tas-InvBut :
    {Todo : ℕ → Type 0} (s : State) (ep n : ℕ) → InvBut Todo s → InvBut Todo (count_tas s ep n)
count_tas-InvBut s ep n inv =
    counters-InvBut s ep n (s.epoll ep).num_linux (s.epoll ep).linux_next inv

-- EPOLL_CTL_MOD
masked : State → ℕ → Events → State
masked s e m = with_es s e (record (s.es e) { mask = m })

masked-InvBut : (s : State) (e : ℕ) (m : Events) → Inv s → InvBut (λ i. i ≡ e) (masked s e m)
unfolding masked
masked-InvBut s e m inv = record {
  once_inactive = inv.once_inactive;
  once_active = inv.once_active;
  once_eps = inv.once_eps;
  idle = λ p i l. stands false p i (inv.idle p i l);
  busy = λ p i l. stands true p i (inv.busy p i l);
  waits = λ p i l. elim (Bool-cases (i == e)) [
    | inl here ↦ inr (ground arith)
    | inr there ↦ elim (inv.waits p i l) [
      | inl rests ↦ inl (rw there rests)
      | inr none_todo ↦ absurd none_todo
    ]
  ];
  bound = λ k i l. let (of, placed) = inv.bound k i l in (same_s i ∙ of, place i placed);
  count = inv.count;
  few = inv.few;
}
  where
    same_s : (i : ℕ) → ((masked s e m).es i).s ≡ (s.es i).s
    same_s i = ground arith

    same_ep : (i : ℕ) → ((masked s e m).es i).ep ≡ (s.es i).ep
    same_ep i = ground arith

    same_flag : (i : ℕ) → ((masked s e m).es i).active ≡ (s.es i).active
    same_flag i = ground arith

    stands : (b : Bool) (p i : ℕ) → Stands s b p i → Stands (masked s e m) b p i
    stands b p i st = record {
      flag = same_flag i ∙ st.flag;
      owner = same_ep i ∙ st.owner;
      known = subst (λ k. Listed i (s.socket k).eps) (sym (same_s i)) st.known;
    }

    place : (i : ℕ) → Placed s i → Placed (masked s e m) i
    place i placed = rw (same_flag i, same_ep i) placed

pub epoll_mod-Inv :
    (s : State) (e : ℕ) (r : Request)
    → Inv s
    → Listed e (s.socket (s.es e).s).eps
    → Inv (epoll_mod s (some e) r).0
unfolding epoll_mod masked
epoll_mod-Inv s e r inv known =
    let t : State = masked s e (mask_of r) in
    let of : (t.es e).s ≡ (s.es e).s = rw (==-same e) refl in
    settle e (masked-InvBut s e (mask_of r) inv)
      (subst (λ k. Listed e (s.socket k).eps) (sym of) known)
