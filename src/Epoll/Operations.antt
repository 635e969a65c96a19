-- ===== src/Epoll/Operations.antt =====
-- flextcp_epoll_set and flextcp_epoll_clear (lib/sockets/epoll.c) keep the invariant.
use tas_smartnic.Prelude.{
  ℕ, ◌≡◌, refl, sym, ap, ◌∙◌, subst, inl, inr, true, false, ◌&&◌, ◌||◌, not, List, [], ◌∷◌, arith,
  ◌==◌, Bool-cases, Listed,
}
use tas_smartnic.Epoll.State.{
  Events, meets, Socket, State, is_ready, es_activate, es_remove_inactive, es_add_active,
}
use tas_smartnic.Epoll.Control.{activate_each, epoll_set, epoll_clear}
use tas_smartnic.Epoll.Invariant.{InvBut, Inv}
use tas_smartnic.Epoll.Activation.{es_activate-InvBut, InvBut-weaken, activate_socket}
use tas_smartnic.Epoll.Masks.{
  changed, changed-eps, changed-ep_events, changed-InvBut, meets_fewer, meets_union,
}

-- Inactive bindings have nothing pending.
rests : {s : State} (p e : ℕ) → Inv s → Listed e (s.epoll p).inactive → is_ready s e ≡ false
rests p e inv l = elim (inv.waits p e l) [ inl r ↦ r | inr none_todo ↦ absurd none_todo ]

-- Fewer events leave nothing more pending.
pub epoll_clear-Inv : (s : State) (k : ℕ) (evts : Events) → Inv s → Inv (epoll_clear s k evts)
unfolding epoll_clear
epoll_clear-Inv s k evts inv =
    let new : Events = λ v. (s.socket k).ep_events v && not (evts v) in
    changed-InvBut (λ e. ⊥) s k new inv
      (λ p e l.
        let at_rest : meets (s.socket (s.es e).s).ep_events (s.es e).mask ≡ false =
          rests p e inv l in
        inl (elim (Bool-cases ((s.es e).s == k)) [
          | inr there ↦
              let same : ((changed s k new).socket (s.es e).s).ep_events
                  ≡ (s.socket (s.es e).s).ep_events =
                changed-ep_events s k new (s.es e).s ∙ rw there refl in
              ap (λ a. meets a (s.es e).mask) same ∙ at_rest
          | inl here ↦
              let is : (s.es e).s ≡ k = ground arith in
              let now : ((changed s k new).socket (s.es e).s).ep_events ≡ new =
                changed-ep_events s k new (s.es e).s ∙ rw here refl in
              ap (λ a. meets a (s.es e).mask) now
              ∙ meets_fewer new (s.socket k).ep_events (s.es e).mask (λ v on. ground arith)
                  (subst (λ i. meets (s.socket i).ep_events (s.es e).mask ≡ false) is at_rest)
        ]))

-- The mask of a binding stays when another one, or it, is activated.
activate-mask : (s : State) (e i : ℕ) → ((es_activate s e).es i).mask ≡ (s.es i).mask
unfolding es_activate es_remove_inactive es_add_active
activate-mask s e i = ground arith

-- The loop over the bindings of a socket: those that have one of the new events and are not activated
-- yet are in `es`.
abbrev Pending : Events → List ℕ → State → ℕ → Type 0
Pending newevs es s e = Listed e es × (meets newevs (s.es e).mask ≡ true)

activate_each-Inv :
    (newevs : Events) (k : ℕ) (es : List ℕ) (s : State)
    → InvBut (Pending newevs es s) s
    → ((i : ℕ) → Listed i es → Listed i (s.socket k).eps)
    → Inv (activate_each newevs es s)
unfolding activate_each Listed
activate_each-Inv newevs k [] s inv known = InvBut-weaken (λ e. ⊥) inv (λ p i l todo. todo.0)
activate_each-Inv newevs k (e ∷ es) s inv known = elim (Bool-cases (meets newevs (s.es e).mask)) [
  | inl hit ↦
      let of : (s.es e).s ≡ k = (inv.bound k e (known e (inl refl))).0 in
      let own : Listed e (s.socket (s.es e).s).eps =
        subst (λ j. Listed e (s.socket j).eps) (sym of) (known e (inl refl)) in
      let next : InvBut (Pending newevs es (es_activate s e)) (es_activate s e) =
        InvBut-weaken (Pending newevs es (es_activate s e)) (es_activate-InvBut e inv own)
          (λ p i l todo. (
            elim todo.0.0 [ inl same ↦ absurd (todo.1 (sym same)) | inr later ↦ later ],
            ap (λ a. meets newevs a) (activate-mask s e i) ∙ todo.0.1,
          )) in
      rw hit (
        activate_each-Inv newevs k es (es_activate s e) next (λ i l.
          subst (λ (x : Socket). Listed i x.eps) (sym (activate_socket s e k)) (known i (inr l))))
  | inr miss ↦
      let next : InvBut (Pending newevs es s) s =
        InvBut-weaken (Pending newevs es s) inv (λ p i l todo. (
          elim todo.0 [
            | inl same ↦
                let hit : meets newevs (s.es e).mask ≡ true =
                  subst (λ j. meets newevs (s.es j).mask ≡ true) (sym same) todo.1 in
                absurd cc
            | inr later ↦ later
          ],
          todo.1,
        )) in
      rw miss (activate_each-Inv newevs k es s next (λ i l. known i (inr l)))
]

-- New events of a socket: every binding that has one of them unmasked becomes active.
pub epoll_set-Inv : (s : State) (k : ℕ) (evts : Events) → Inv s → Inv (epoll_set s k evts)
unfolding epoll_set
epoll_set-Inv s k evts inv =
    let old : Events = (s.socket k).ep_events in
    let new : Events = λ v. old v || evts v in
    let newevs : Events = λ v. not (old v) && evts v in
    let eps : List ℕ = (s.socket k).eps in
    elim (Bool-cases (not (meets newevs newevs))) [
      | inl nothing ↦ rw nothing inv
      | inr news ↦
          let t : State = changed s k new in
          let inv_t : InvBut (Pending newevs eps t) t =
            changed-InvBut (Pending newevs eps t) s k new inv (λ p e l.
              let at_rest : meets (s.socket (s.es e).s).ep_events (s.es e).mask ≡ false =
                rests p e inv l in
              elim (Bool-cases ((s.es e).s == k)) [
                | inr there ↦
                    let same : (t.socket (s.es e).s).ep_events ≡ (s.socket (s.es e).s).ep_events =
                      changed-ep_events s k new (s.es e).s ∙ rw there refl in
                    inl (ap (λ a. meets a (s.es e).mask) same ∙ at_rest)
                | inl here ↦
                    let is : (s.es e).s ≡ k = ground arith in
                    let now : (t.socket (s.es e).s).ep_events ≡ new =
                      changed-ep_events s k new (s.es e).s ∙ rw here refl in
                    elim (Bool-cases (meets newevs (s.es e).mask)) [
                      | inl hit ↦
                          inr
                            (subst (λ i. Listed e (s.socket i).eps) is (inv.idle p e l).known, hit)
                      | inr miss ↦ inl (
                          ap (λ a. meets a (s.es e).mask) now
                          ∙ meets_union old evts (s.es e).mask
                              (subst (λ i. meets (s.socket i).ep_events (s.es e).mask ≡ false) is
                                at_rest)
                              miss)
                    ]
              ]) in
          rw news (
            activate_each-Inv newevs k eps t inv_t
              (λ i l. subst (Listed i) (sym (changed-eps s k new k)) l))
    ]
