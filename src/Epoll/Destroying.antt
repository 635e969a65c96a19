-- ===== src/Epoll/Destroying.antt =====
-- flextcp_epoll_destroy (lib/sockets/epoll.c): all bindings of an epoll go, the active ones first.
use tas_smartnic.Prelude.{
  ℕ, ◌≡◌, refl, sym, ap, ◌∙◌, subst, true, false, some, List, [], ◌∷◌, ◌==◌, if◌then◌else◌, ==-same,
  Listed,
}
use tas_smartnic.Epoll.State.{State, es_remove_inactive, es_remove_ep, es_remove_sock}
use tas_smartnic.Epoll.Control.{unbind_each, epoll_destroy}
use tas_smartnic.Epoll.Invariant.{Stands, Inv}
use tas_smartnic.Epoll.Lists.{head-Listed}
use tas_smartnic.Epoll.Removing.{Gone-Inv}
use tas_smartnic.Epoll.Deactivation.{without, counted_pos}
use tas_smartnic.Epoll.Unbinding.{
  head_lost, off_socket, unbind_more, idle_gone, idle_inactive, idle_active, busy_gone,
  busy_inactive, busy_active,
}
use tas_smartnic.Epoll.Closing.{idle-Gone, busy-Gone}

-- A list that stays.
none_lost :
    (f : ℕ → List ℕ) (now : List ℕ) (k m : ℕ)
    → m ≡ k
    → now ≡ (if k == m then f m else f k)
    → now ≡ f k
none_lost f now k m same is =
    let test : (k == m) ≡ true = rw (same, ==-same k) refl in
    is ∙ ap (λ b. if b then f m else f k) test ∙ ap f same

unbind_active :
    (es : List ℕ) (s : State) (p : ℕ)
    → Inv s
    → (s.epoll p).active ≡ es
    → (t : State) × (unbind_each es s ≡ some t)
      × Inv t
      × ((t.epoll p).active ≡ [])
      × ((t.epoll p).inactive ≡ (s.epoll p).inactive)
unfolding unbind_each
unbind_active [] s p inv lists = (s, refl, inv, lists, refl)
unbind_active (e ∷ es) s p inv lists =
    let st : Stands s true p e = inv.busy p e (subst (Listed e) (sym lists) (head-Listed e es)) in
    let t : State = without (off_socket s e) e in
    let gone : es_remove_ep (es_remove_sock s e) e ≡ some t =
      busy_gone s e st.flag (counted_pos e inv st.known st.flag) in
    let inv_t : Inv t = Gone-Inv (busy-Gone e inv st.known st.flag) inv in
    let fewer : (t.epoll p).active ≡ es =
      head_lost (λ n. (s.epoll n).active) (t.epoll p).active e p (s.es e).ep es st.owner lists
        (busy_active s e p) in
    let kept : (t.epoll p).inactive ≡ (s.epoll p).inactive =
      none_lost (λ n. (s.epoll n).inactive) (t.epoll p).inactive p (s.es e).ep st.owner
        (busy_inactive s e p) in
    let (u, rest, inv_u, none_left, same) = unbind_active es t p inv_t fewer in
    (u, unbind_more s t e es (some u) gone rest, inv_u, none_left, same ∙ kept)

unbind_inactive :
    (es : List ℕ) (s : State) (p : ℕ)
    → Inv s
    → (s.epoll p).inactive ≡ es
    → (t : State) × (unbind_each es s ≡ some t)
      × Inv t
      × ((t.epoll p).inactive ≡ [])
      × ((t.epoll p).active ≡ (s.epoll p).active)
unfolding unbind_each
unbind_inactive [] s p inv lists = (s, refl, inv, lists, refl)
unbind_inactive (e ∷ es) s p inv lists =
    let st : Stands s false p e = inv.idle p e (subst (Listed e) (sym lists) (head-Listed e es)) in
    let t : State = es_remove_inactive (off_socket s e) e in
    let gone : es_remove_ep (es_remove_sock s e) e ≡ some t = idle_gone s e st.flag in
    let inv_t : Inv t = Gone-Inv (idle-Gone e inv st.known st.flag) inv in
    let fewer : (t.epoll p).inactive ≡ es =
      head_lost (λ n. (s.epoll n).inactive) (t.epoll p).inactive e p (s.es e).ep es st.owner lists
        (idle_inactive s e p) in
    let kept : (t.epoll p).active ≡ (s.epoll p).active =
      none_lost (λ n. (s.epoll n).active) (t.epoll p).active p (s.es e).ep st.owner
        (idle_active s e p) in
    let (u, rest, inv_u, none_left, same) = unbind_inactive es t p inv_t fewer in
    (u, unbind_more s t e es (some u) gone rest, inv_u, none_left, same ∙ kept)

-- An epoll is destroyed without a failed assertion, its lists are empty then, and all others in order.
pub epoll_destroy-Inv :
    (s : State) (p : ℕ)
    → Inv s
    → (t : State) × (epoll_destroy s p ≡ some t)
      × Inv t
      × ((t.epoll p).active ≡ [])
      × ((t.epoll p).inactive ≡ [])
unfolding epoll_destroy
epoll_destroy-Inv s p inv =
    let (t, first, inv_t, none_active, same) = unbind_active (s.epoll p).active s p inv refl in
    let (u, second, inv_u, none_left, kept) = unbind_inactive (t.epoll p).inactive t p inv_t refl in
    (u, rw (epoll_destroy, first) second, inv_u, kept ∙ none_active, none_left)
