-- ===== src/Epoll/Adding.antt =====
-- EPOLL_CTL_ADD (lib/sockets/epoll.c): a new binding, inactive, and active if an event is pending.
use tas_smartnic.Prelude.{
  ℕ, ◌+◌, ◌^◌, ◌<◌, ◌≡◌, ◌≢◌, ◌⊎◌, refl, sym, ap, ◌∙◌, subst, inl, inr, Bool, true, false, none,
  some, List, ◌∷◌, arith, ◌==◌, if◌then◌else◌, Bool-cases, ==-same, Listed, Distinct, Apart, length,
  add32,
}
use tas_smartnic.Epoll.State.{meets, EpollSocket, State, is_ready, es_add_inactive}
use tas_smartnic.Epoll.Control.{Request, mask_of, count_tas, bind, epoll_add}
use tas_smartnic.Epoll.Invariant.{Stands, Placed, InvBut, Inv}
use tas_smartnic.Epoll.Lists.{not-Listed-Apart, Apart-not-Listed, head-Listed}
use tas_smartnic.Epoll.Activation.{settle}
use tas_smartnic.Epoll.Binding.{count_tas-InvBut}

cons_Distinct : (e : ℕ) (xs : List ℕ) → (Listed e xs → ⊥) → Distinct xs → Distinct (e ∷ xs)
unfolding Distinct
cons_Distinct e xs away once = (not-Listed-Apart e xs away, once)

module _ (s : State) (e ep k : ℕ) (r : Request) where
  abbrev t : State
  t = bind s e ep k r

  abbrev x : EpollSocket
  x = record { ep = ep; s = k; user = r.user; mask = mask_of r; active = false }

  bind_es : (i : ℕ) → t.es i ≡ (if i == e then x else s.es i)
  unfolding bind es_add_inactive
  bind_es i = ground arith

  bind_eps :
      (i : ℕ) → (t.socket i).eps ≡ (if i == k then e ∷ (s.socket k).eps else (s.socket i).eps)
  unfolding bind es_add_inactive
  bind_eps i = ground arith

  bind_ep_events : (i : ℕ) → (t.socket i).ep_events ≡ (s.socket i).ep_events
  unfolding bind es_add_inactive
  bind_ep_events i = ground arith

  bind_inactive :
      (q : ℕ)
      → (t.epoll q).inactive ≡ (if q == ep then e ∷ (s.epoll ep).inactive else (s.epoll q).inactive)
  unfolding bind es_add_inactive
  bind_inactive q = ground arith

  bind_active : (q : ℕ) → (t.epoll q).active ≡ (s.epoll q).active
  unfolding bind es_add_inactive
  bind_active q = ground arith

  bind_count : (q : ℕ) → (t.epoll q).num_active ≡ (s.epoll q).num_active
  unfolding bind es_add_inactive
  bind_count q = ground arith

  -- The bindings of before are other ones.
  module _ (inv : Inv s) (fresh : (i : ℕ) → Apart e (s.socket i).eps) where
    other : (i j : ℕ) → Listed i (s.socket j).eps → i ≢ e
    other i j l same =
        Apart-not-Listed e (s.socket j).eps (fresh j)
          (subst (λ n. Listed n (s.socket j).eps) same l)

    es_other : (i : ℕ) → i ≢ e → t.es i ≡ s.es i
    es_other i ne = let differs : (i == e) ≡ false = ground arith in bind_es i ∙ rw differs refl

    es_self : t.es e ≡ x
    es_self = bind_es e ∙ rw (==-same e) refl

    more_eps : (i j : ℕ) → Listed i (s.socket j).eps → Listed i (t.socket j).eps
    unfolding Listed
    more_eps i j l = elim (Bool-cases (j == k)) [
      | inl here ↦
          let is : j ≡ k = ground arith in
          let now : (t.socket j).eps ≡ e ∷ (s.socket k).eps = bind_eps j ∙ rw here refl in
          subst (Listed i) (sym now) (inr (subst (λ n. Listed i (s.socket n).eps) is l))
      | inr there ↦ subst (Listed i) (sym (bind_eps j ∙ rw there refl)) l
    ]

    less_eps :
        (i j : ℕ) → Listed i (t.socket j).eps → ((i ≡ e) × (j ≡ k)) ⊎ Listed i (s.socket j).eps
    unfolding Listed
    less_eps i j l = elim (Bool-cases (j == k)) [
      | inl here ↦
          let is : j ≡ k = ground arith in
          let now : (t.socket j).eps ≡ e ∷ (s.socket k).eps = bind_eps j ∙ rw here refl in
          let l' : Listed i (e ∷ (s.socket k).eps) = subst (Listed i) now l in
          elim l' [
            | inl same ↦ inl (sym same, is)
            | inr old ↦ inr (subst (λ n. Listed i (s.socket n).eps) (sym is) old)
          ]
      | inr there ↦
          let now : (t.socket j).eps ≡ (s.socket j).eps = bind_eps j ∙ rw there refl in
          inr (subst (Listed i) now l)
    ]

    self_known : Listed e (t.socket k).eps
    unfolding Listed
    self_known =
        let now : (t.socket k).eps ≡ e ∷ (s.socket k).eps = bind_eps k ∙ rw (==-same k) refl in
        subst (Listed e) (sym now) (inl refl)

    from_inactive :
        (q i : ℕ)
        → Listed i (t.epoll q).inactive
        → ((i ≡ e) × (q ≡ ep)) ⊎ Listed i (s.epoll q).inactive
    unfolding Listed
    from_inactive q i l = elim (Bool-cases (q == ep)) [
      | inl here ↦
          let is : q ≡ ep = ground arith in
          let now : (t.epoll q).inactive ≡ e ∷ (s.epoll ep).inactive =
            bind_inactive q ∙ rw here refl in
          let l' : Listed i (e ∷ (s.epoll ep).inactive) = subst (Listed i) now l in
          elim l' [
            | inl same ↦ inl (sym same, is)
            | inr old ↦ inr (subst (λ n. Listed i (s.epoll n).inactive) (sym is) old)
          ]
      | inr there ↦
          let now : (t.epoll q).inactive ≡ (s.epoll q).inactive = bind_inactive q ∙ rw there refl in
          inr (subst (Listed i) now l)
    ]

    to_inactive : (q i : ℕ) → Listed i (s.epoll q).inactive → Listed i (t.epoll q).inactive
    unfolding Listed
    to_inactive q i l = elim (Bool-cases (q == ep)) [
      | inl here ↦
          let is : q ≡ ep = ground arith in
          let now : (t.epoll q).inactive ≡ e ∷ (s.epoll ep).inactive =
            bind_inactive q ∙ rw here refl in
          subst (Listed i) (sym now) (inr (subst (λ n. Listed i (s.epoll n).inactive) is l))
      | inr there ↦ subst (Listed i) (sym (bind_inactive q ∙ rw there refl)) l
    ]

    Stands-old : (b : Bool) (q i : ℕ) → Stands s b q i → Stands t b q i
    Stands-old b q i st =
        let same : t.es i ≡ s.es i = es_other i (other i (s.es i).s st.known) in
        record {
          flag = ap (λ (y : EpollSocket). y.active) same ∙ st.flag;
          owner = ap (λ (y : EpollSocket). y.ep) same ∙ st.owner;
          known =
              subst (λ (y : EpollSocket). Listed i (t.socket y.s).eps) (sym same)
                (more_eps i (s.es i).s st.known);
        }

    Stands-new : Stands t false ep e
    Stands-new = record {
      flag = ap (λ (y : EpollSocket). y.active) es_self;
      owner = ap (λ (y : EpollSocket). y.ep) es_self;
      known = subst (λ (y : EpollSocket). Listed e (t.socket y.s).eps) (sym es_self) self_known;
    }

    is_ready-old : (i : ℕ) → i ≢ e → is_ready t i ≡ is_ready s i
    is_ready-old i ne =
        ap (λ (y : EpollSocket). meets (t.socket y.s).ep_events y.mask) (es_other i ne)
        ∙ ap (λ a. meets a (s.es i).mask) (bind_ep_events (s.es i).s)

    Placed-old : (i : ℕ) → i ≢ e → Placed s i → Placed t i
    Placed-old i ne placed =
        subst
          (λ (y : EpollSocket).
            Listed i (if y.active then (t.epoll y.ep).active else (t.epoll y.ep).inactive))
          (sym (es_other i ne)) (either (s.es i).active (s.es i).ep i placed)
      where
        either :
            (b : Bool) (q i : ℕ)
            → Listed i (if b then (s.epoll q).active else (s.epoll q).inactive)
            → Listed i (if b then (t.epoll q).active else (t.epoll q).inactive)
        either true q i l = subst (Listed i) (sym (bind_active q)) l
        either false q i l = to_inactive q i l

    Placed-new : Placed t e
    Placed-new =
        subst
          (λ (y : EpollSocket).
            Listed e (if y.active then (t.epoll y.ep).active else (t.epoll y.ep).inactive))
          (sym es_self) head
      where
        head : Listed e (t.epoll ep).inactive
        head =
            let now : (t.epoll ep).inactive ≡ e ∷ (s.epoll ep).inactive =
              bind_inactive ep ∙ rw (==-same ep) refl in
            subst (Listed e) (sym now) (head-Listed e (s.epoll ep).inactive)

    -- The new binding is in its lists, and may be ready.
    bind-InvBut :
        length (s.epoll ep).active + length (s.epoll ep).inactive + 1 < 2 ^ 32
        → InvBut (λ i. i ≡ e) t
    bind-InvBut room = record {
      once_inactive = λ q. elim (Bool-cases (q == ep)) [
        | inl here ↦
            let away : Listed e (s.epoll ep).inactive → ⊥ =
              λ l. let known = (inv.idle ep e l).known in other e (s.es e).s known refl in
            let once : Distinct (e ∷ (s.epoll ep).inactive) =
              cons_Distinct e (s.epoll ep).inactive away (inv.once_inactive ep) in
            subst Distinct (sym (bind_inactive q ∙ rw here refl)) once
        | inr there ↦ subst Distinct (sym (bind_inactive q ∙ rw there refl)) (inv.once_inactive q)
      ];
      once_active = λ q. subst Distinct (sym (bind_active q)) (inv.once_active q);
      once_eps = λ j. elim (Bool-cases (j == k)) [
        | inl here ↦
            let once : Distinct (e ∷ (s.socket k).eps) =
              cons_Distinct e (s.socket k).eps (λ l. other e k l refl) (inv.once_eps k) in
            subst Distinct (sym (bind_eps j ∙ rw here refl)) once
        | inr there ↦ subst Distinct (sym (bind_eps j ∙ rw there refl)) (inv.once_eps j)
      ];
      idle = λ q i l. elim (from_inactive q i l) [
        | inl (same, is) ↦
            subst (λ n. Stands t false q n) (sym same)
              (subst (λ n. Stands t false n e) (sym is) Stands-new)
        | inr old ↦ Stands-old false q i (inv.idle q i old)
      ];
      busy = λ q i l. Stands-old true q i (inv.busy q i (subst (Listed i) (bind_active q) l));
      waits = λ q i l. elim (from_inactive q i l) [
        | inl (same, is) ↦ inr same
        | inr old ↦ elim (inv.waits q i old) [
          | inl rests ↦ inl (is_ready-old i (other i (s.es i).s (inv.idle q i old).known) ∙ rests)
          | inr none_todo ↦ absurd none_todo
        ]
      ];
      bound = λ j i l. elim (less_eps i j l) [
        | inl (same, is) ↦
            subst (λ n. ((t.es n).s ≡ j) × Placed t n) (sym same)
              (ap (λ (y : EpollSocket). y.s) es_self ∙ sym is, Placed-new)
        | inr old ↦
            let (of, placed) = inv.bound j i old in
            let ne = other i j old in
            (ap (λ (y : EpollSocket). y.s) (es_other i ne) ∙ of, Placed-old i ne placed)
      ];
      count = λ q. bind_count q ∙ inv.count q ∙ sym (ap length (bind_active q));
      few = λ q. elim (Bool-cases (q == ep)) [
        | inl here ↦
            let is : q ≡ ep = ground arith in
            let i : (t.epoll q).inactive ≡ e ∷ (s.epoll ep).inactive =
              bind_inactive q ∙ rw here refl in
            let a : (t.epoll q).active ≡ (s.epoll ep).active =
              bind_active q ∙ ap (λ n. (s.epoll n).active) is in
            rw (i, a) (omega (arith, room))
        | inr there ↦
            let i : (t.epoll q).inactive ≡ (s.epoll q).inactive = bind_inactive q ∙ rw there refl in
            rw (i, bind_active q) (inv.few q)
      ];
    }

-- EPOLL_CTL_ADD of a socket that is not on the epoll.
pub epoll_add-Inv :
    (s : State) (e ep k : ℕ) (r : Request)
    → Inv s
    → ((i : ℕ) → Apart e (s.socket i).eps)
    → length (s.epoll ep).active + length (s.epoll ep).inactive + 1 < 2 ^ 32
    → Inv (epoll_add s ep k none r (some e)).0
unfolding epoll_add
epoll_add-Inv s e ep k r inv fresh room =
    let c : State = count_tas s ep (add32 (s.epoll ep).num_tas 1) in
    let inv_c : Inv c = count_tas-InvBut s ep (add32 (s.epoll ep).num_tas 1) inv in
    let room_c : length (c.epoll ep).active + length (c.epoll ep).inactive + 1 < 2 ^ 32 =
      rw (==-same ep) room in
    settle e (bind-InvBut c e ep k r inv_c fresh room_c) (Stands-new c e ep k r inv_c fresh).known
