-- ===== src/Epoll/Closing.antt =====
-- EPOLL_CTL_DEL and flextcp_epoll_sockclose (lib/sockets/epoll.c) take bindings off all lists.
use tas_smartnic.Prelude.{
  ℕ, ◌-◌, ◌≡◌, refl, sym, subst, inl, inr, true, false, some, List, [], ◌∷◌, arith, ◌==◌,
  if◌then◌else◌, Bool-cases, Listed, length, sub32,
}
use tas_smartnic.Epoll.State.{State, remove, es_remove_inactive, es_remove_ep, es_remove_sock}
use tas_smartnic.Epoll.Control.{success, count_tas, epoll_del, unbind_each, sockclose}
use tas_smartnic.Epoll.Invariant.{Inv}
use tas_smartnic.Epoll.Lists.{head-Listed, remove-Listed, remove-Distinct, length-remove}
use tas_smartnic.Epoll.Activation.{in_remove, idle_place, busy_place, not_both}
use tas_smartnic.Epoll.Binding.{count_tas-InvBut}
use tas_smartnic.Epoll.Removing.{Gone, Gone-Inv}
use tas_smartnic.Epoll.Deactivation.{without, counted_pos}
use tas_smartnic.Epoll.Unbinding.{
  head_lost, unbind_more, off_socket, idle_gone, idle_eps, idle_inactive, idle_active, idle_count,
  idle_events, idle_es, busy_gone, busy_eps, busy_inactive, busy_active, busy_count, busy_events,
  busy_es,
}

module _ {s : State} (e : ℕ) (inv : Inv s) (known : Listed e (s.socket (s.es e).s).eps) where
  abbrev xs : List ℕ
  xs = (s.epoll (s.es e).ep).inactive

  abbrev ys : List ℕ
  ys = (s.epoll (s.es e).ep).active

  pub idle-Gone :
      (s.es e).active ≡ false → Gone s (es_remove_inactive (off_socket s e) e) e (remove e xs) ys
  idle-Gone off =
      let place : Listed e xs = idle_place e inv known off in
      let away : Listed e ys → ⊥ = λ l. not_both (s.es e).ep (s.es e).ep e inv place l in
      record {
        same_es = idle_es s e;
        same_events = idle_events s e;
        at_eps = idle_eps s e;
        at_inactive = idle_inactive s e;
        at_active = idle_active s e;
        at_count = λ q.
            subst
              (λ n.
                ((es_remove_inactive (off_socket s e) e).epoll q).num_active
                ≡ (if q == (s.es e).ep then n else (s.epoll q).num_active))
              (inv.count (s.es e).ep) (idle_count s e q);
        once_I = remove-Distinct e xs (inv.once_inactive (s.es e).ep);
        once_A = inv.once_active (s.es e).ep;
        in_I = λ i l. in_remove e xs (inv.once_inactive (s.es e).ep) i l;
        in_A = λ i l. ((λ same. away (subst (λ n. Listed n ys) same l)), l);
        out_I = λ i ne l. remove-Listed i e xs ne l;
        out_A = λ i ne l. l;
        sum = omega (arith, length-remove e xs place, inv.few (s.es e).ep);
      }

  pub busy-Gone : (s.es e).active ≡ true → Gone s (without (off_socket s e) e) e xs (remove e ys)
  busy-Gone on =
      let place : Listed e ys = busy_place e inv known on in
      let away : Listed e xs → ⊥ = λ l. not_both (s.es e).ep (s.es e).ep e inv l place in
      let shorter = length-remove e ys place in
      let next : (s.epoll (s.es e).ep).num_active - 1 ≡ length (remove e ys) =
        omega (arith, inv.count (s.es e).ep, shorter) in
      record {
        same_es = busy_es s e;
        same_events = busy_events s e;
        at_eps = busy_eps s e;
        at_inactive = busy_inactive s e;
        at_active = busy_active s e;
        at_count = λ q.
            subst
              (λ n.
                ((without (off_socket s e) e).epoll q).num_active
                ≡ (if q == (s.es e).ep then n else (s.epoll q).num_active))
              next (busy_count s e q);
        once_I = inv.once_inactive (s.es e).ep;
        once_A = remove-Distinct e ys (inv.once_active (s.es e).ep);
        in_I = λ i l. ((λ same. away (subst (λ n. Listed n xs) same l)), l);
        in_A = λ i l. in_remove e ys (inv.once_active (s.es e).ep) i l;
        out_I = λ i ne l. l;
        out_A = λ i ne l. remove-Listed i e ys ne l;
        sum = omega (arith, shorter, inv.few (s.es e).ep);
      }

  -- A binding is taken off its lists: no assertion fails, and what is left is in order.
  unbind-Inv :
      (t : State) × (es_remove_ep (es_remove_sock s e) e ≡ some t)
      × Inv t
      × ((k : ℕ)
          → (t.socket k).eps
            ≡ (if k == (s.es e).s then remove e (s.socket (s.es e).s).eps else (s.socket k).eps))
  unbind-Inv = elim (Bool-cases (s.es e).active) [
    | inr off ↦ (
      es_remove_inactive (off_socket s e) e,
      idle_gone s e off,
      Gone-Inv (idle-Gone off) inv,
      idle_eps s e,
    )
    | inl on ↦ (
      without (off_socket s e) e,
      busy_gone s e on (counted_pos e inv known on),
      Gone-Inv (busy-Gone on) inv,
      busy_eps s e,
    )
  ]

pub epoll_del-Inv :
    (s : State) (ep e : ℕ)
    → Inv s
    → Listed e (s.socket (s.es e).s).eps
    → (t : State) × (epoll_del s ep (some e) ≡ some (t, success)) × Inv t
unfolding epoll_del
epoll_del-Inv s ep e inv known =
    let c : State = count_tas s ep (sub32 (s.epoll ep).num_tas 1) in
    let inv_c : Inv c = count_tas-InvBut s ep (sub32 (s.epoll ep).num_tas 1) inv in
    let (t, gone, inv_t, eps) = unbind-Inv {s = c} e inv_c known in
    (t, rw (epoll_del, gone) refl, inv_t)

-- A socket that is closed: its bindings go, one after the other.
unbind_each-Inv :
    (es : List ℕ) (s : State) (k : ℕ)
    → Inv s
    → (s.socket k).eps ≡ es
    → (t : State) × (unbind_each es s ≡ some t) × Inv t × ((t.socket k).eps ≡ [])
unfolding unbind_each
unbind_each-Inv [] s k inv lists = (s, refl, inv, lists)
unbind_each-Inv (e ∷ es) s k inv lists =
    let listed : Listed e (s.socket k).eps = subst (Listed e) (sym lists) (head-Listed e es) in
    let of : (s.es e).s ≡ k = (inv.bound k e listed).0 in
    let known : Listed e (s.socket (s.es e).s).eps =
      subst (λ n. Listed e (s.socket n).eps) (sym of) listed in
    let (t, gone, inv_t, eps) = unbind-Inv {s = s} e inv known in
    let left : (t.socket k).eps ≡ es =
      head_lost (λ n. (s.socket n).eps) (t.socket k).eps e k (s.es e).s es of lists (eps k) in
    let (u, rest, inv_u, none_left) = unbind_each-Inv es t k inv_t left in
    (u, unbind_more s t e es (some u) gone rest, inv_u, none_left)

pub sockclose-Inv :
    (s : State) (k : ℕ)
    → Inv s
    → (t : State) × (sockclose s k ≡ some t) × Inv t × ((t.socket k).eps ≡ [])
unfolding sockclose
sockclose-Inv s k inv = unbind_each-Inv (s.socket k).eps s k inv refl
