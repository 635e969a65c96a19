-- ===== src/Epoll/Removing.antt =====
-- A binding goes off the lists of its socket and of its epoll (lib/sockets/epoll.c).
use tas_smartnic.Prelude.{
  ℕ, ◌+◌, ◌^◌, ◌<◌, ◌≡◌, ◌≢◌, refl, sym, ap, ◌∙◌, subst, inl, inr, Bool, true, false, List, arith,
  ◌==◌, if◌then◌else◌, Bool-cases, Listed, Distinct, length,
}
use tas_smartnic.Epoll.State.{meets, EpollSocket, State, is_ready, remove}
use tas_smartnic.Epoll.Invariant.{Stands, Placed, Inv}
use tas_smartnic.Epoll.Lists.{remove-Listed, remove-Distinct}
use tas_smartnic.Epoll.Activation.{in_remove}

-- `t` is `s` without the binding `e`: its epoll has the lists `I` and `A`.
pub record Gone (s t : State) (e : ℕ) (I A : List ℕ) : Type 0 where
  pub same_es : (i : ℕ) → t.es i ≡ s.es i
  pub same_events : (k : ℕ) → (t.socket k).ep_events ≡ (s.socket k).ep_events
  pub at_eps :
      (k : ℕ)
      → (t.socket k).eps
        ≡ (if k == (s.es e).s then remove e (s.socket (s.es e).s).eps else (s.socket k).eps)
  pub at_inactive :
      (q : ℕ) → (t.epoll q).inactive ≡ (if q == (s.es e).ep then I else (s.epoll q).inactive)
  pub at_active :
      (q : ℕ) → (t.epoll q).active ≡ (if q == (s.es e).ep then A else (s.epoll q).active)
  pub at_count :
      (q : ℕ)
      → (t.epoll q).num_active ≡ (if q == (s.es e).ep then length A else (s.epoll q).num_active)
  pub once_I : Distinct I
  pub once_A : Distinct A
  pub in_I : (i : ℕ) → Listed i I → (i ≢ e) × Listed i (s.epoll (s.es e).ep).inactive
  pub in_A : (i : ℕ) → Listed i A → (i ≢ e) × Listed i (s.epoll (s.es e).ep).active
  pub out_I : (i : ℕ) → i ≢ e → Listed i (s.epoll (s.es e).ep).inactive → Listed i I
  pub out_A : (i : ℕ) → i ≢ e → Listed i (s.epoll (s.es e).ep).active → Listed i A
  pub sum : length A + length I < 2 ^ 32

module _ {s t : State} {e : ℕ} {I A : List ℕ} (g : Gone s t e I A) (inv : Inv s) where
  from_inactive :
      (q i : ℕ) → Listed i (t.epoll q).inactive → (i ≢ e) × Listed i (s.epoll q).inactive
  from_inactive q i l = elim (Bool-cases (q == (s.es e).ep)) [
    | inl here ↦
        let is : q ≡ (s.es e).ep = ground arith in
        let now : (t.epoll q).inactive ≡ I = g.at_inactive q ∙ rw here refl in
        let (ne, old) = g.in_I i (subst (Listed i) now l) in
        (ne, subst (λ n. Listed i (s.epoll n).inactive) (sym is) old)
    | inr there ↦
        let now : (t.epoll q).inactive ≡ (s.epoll q).inactive = g.at_inactive q ∙ rw there refl in
        let old : Listed i (s.epoll q).inactive = subst (Listed i) now l in
        (
          (λ same.
              let owner : (s.es e).ep ≡ q =
                (inv.idle q e (subst (λ n. Listed n (s.epoll q).inactive) same old)).owner in
              absurd (ground arith)),
          old,
        )
  ]

  from_active : (q i : ℕ) → Listed i (t.epoll q).active → (i ≢ e) × Listed i (s.epoll q).active
  from_active q i l = elim (Bool-cases (q == (s.es e).ep)) [
    | inl here ↦
        let is : q ≡ (s.es e).ep = ground arith in
        let now : (t.epoll q).active ≡ A = g.at_active q ∙ rw here refl in
        let (ne, old) = g.in_A i (subst (Listed i) now l) in
        (ne, subst (λ n. Listed i (s.epoll n).active) (sym is) old)
    | inr there ↦
        let now : (t.epoll q).active ≡ (s.epoll q).active = g.at_active q ∙ rw there refl in
        let old : Listed i (s.epoll q).active = subst (Listed i) now l in
        (
          (λ same.
              let owner : (s.es e).ep ≡ q =
                (inv.busy q e (subst (λ n. Listed n (s.epoll q).active) same old)).owner in
              absurd (ground arith)),
          old,
        )
  ]

  to_inactive : (q i : ℕ) → i ≢ e → Listed i (s.epoll q).inactive → Listed i (t.epoll q).inactive
  to_inactive q i ne l = elim (Bool-cases (q == (s.es e).ep)) [
    | inl here ↦
        let is : q ≡ (s.es e).ep = ground arith in
        let now : (t.epoll q).inactive ≡ I = g.at_inactive q ∙ rw here refl in
        subst (Listed i) (sym now) (g.out_I i ne (subst (λ n. Listed i (s.epoll n).inactive) is l))
    | inr there ↦ subst (Listed i) (sym (g.at_inactive q ∙ rw there refl)) l
  ]

  to_active : (q i : ℕ) → i ≢ e → Listed i (s.epoll q).active → Listed i (t.epoll q).active
  to_active q i ne l = elim (Bool-cases (q == (s.es e).ep)) [
    | inl here ↦
        let is : q ≡ (s.es e).ep = ground arith in
        let now : (t.epoll q).active ≡ A = g.at_active q ∙ rw here refl in
        subst (Listed i) (sym now) (g.out_A i ne (subst (λ n. Listed i (s.epoll n).active) is l))
    | inr there ↦ subst (Listed i) (sym (g.at_active q ∙ rw there refl)) l
  ]

  from_eps : (k i : ℕ) → Listed i (t.socket k).eps → (i ≢ e) × Listed i (s.socket k).eps
  from_eps k i l = elim (Bool-cases (k == (s.es e).s)) [
    | inl here ↦
        let is : k ≡ (s.es e).s = ground arith in
        let now : (t.socket k).eps ≡ remove e (s.socket (s.es e).s).eps =
          g.at_eps k ∙ rw here refl in
        let (ne, old) =
          in_remove e (s.socket (s.es e).s).eps (inv.once_eps (s.es e).s) i
            (subst (Listed i) now l) in
        (ne, subst (λ n. Listed i (s.socket n).eps) (sym is) old)
    | inr there ↦
        let now : (t.socket k).eps ≡ (s.socket k).eps = g.at_eps k ∙ rw there refl in
        let old : Listed i (s.socket k).eps = subst (Listed i) now l in
        (
          (λ same.
              let of : (s.es e).s ≡ k =
                (inv.bound k e (subst (λ n. Listed n (s.socket k).eps) same old)).0 in
              absurd (ground arith)),
          old,
        )
  ]

  to_eps : (k i : ℕ) → i ≢ e → Listed i (s.socket k).eps → Listed i (t.socket k).eps
  to_eps k i ne l = elim (Bool-cases (k == (s.es e).s)) [
    | inl here ↦
        let is : k ≡ (s.es e).s = ground arith in
        let now : (t.socket k).eps ≡ remove e (s.socket (s.es e).s).eps =
          g.at_eps k ∙ rw here refl in
        subst (Listed i) (sym now) (
          remove-Listed i e (s.socket (s.es e).s).eps ne
            (subst (λ n. Listed i (s.socket n).eps) is l))
    | inr there ↦ subst (Listed i) (sym (g.at_eps k ∙ rw there refl)) l
  ]

  Stands-kept : (b : Bool) (q i : ℕ) → i ≢ e → Stands s b q i → Stands t b q i
  Stands-kept b q i ne st = record {
    flag = ap (λ (y : EpollSocket). y.active) (g.same_es i) ∙ st.flag;
    owner = ap (λ (y : EpollSocket). y.ep) (g.same_es i) ∙ st.owner;
    known =
        subst (λ (y : EpollSocket). Listed i (t.socket y.s).eps) (sym (g.same_es i))
          (to_eps (s.es i).s i ne st.known);
  }

  is_ready-kept : (i : ℕ) → is_ready t i ≡ is_ready s i
  is_ready-kept i =
      ap (λ (y : EpollSocket). meets (t.socket y.s).ep_events y.mask) (g.same_es i)
      ∙ ap (λ a. meets a (s.es i).mask) (g.same_events (s.es i).s)

  Placed-kept : (i : ℕ) → i ≢ e → Placed s i → Placed t i
  Placed-kept i ne placed =
      subst
        (λ (y : EpollSocket).
          Listed i (if y.active then (t.epoll y.ep).active else (t.epoll y.ep).inactive))
        (sym (g.same_es i)) (either (s.es i).active (s.es i).ep i ne placed)
    where
      either :
          (b : Bool) (q i : ℕ)
          → i ≢ e
          → Listed i (if b then (s.epoll q).active else (s.epoll q).inactive)
          → Listed i (if b then (t.epoll q).active else (t.epoll q).inactive)
      either true q i ne l = to_active q i ne l
      either false q i ne l = to_inactive q i ne l

  -- All that is left is in order.
  pub Gone-Inv : Inv t
  Gone-Inv = record {
    once_inactive = λ q. elim (Bool-cases (q == (s.es e).ep)) [
      | inl here ↦ subst Distinct (sym (g.at_inactive q ∙ rw here refl)) g.once_I
      | inr there ↦ subst Distinct (sym (g.at_inactive q ∙ rw there refl)) (inv.once_inactive q)
    ];
    once_active = λ q. elim (Bool-cases (q == (s.es e).ep)) [
      | inl here ↦ subst Distinct (sym (g.at_active q ∙ rw here refl)) g.once_A
      | inr there ↦ subst Distinct (sym (g.at_active q ∙ rw there refl)) (inv.once_active q)
    ];
    once_eps = λ k. elim (Bool-cases (k == (s.es e).s)) [
      | inl here ↦
          subst Distinct (sym (g.at_eps k ∙ rw here refl))
            (remove-Distinct e (s.socket (s.es e).s).eps (inv.once_eps (s.es e).s))
      | inr there ↦ subst Distinct (sym (g.at_eps k ∙ rw there refl)) (inv.once_eps k)
    ];
    idle =
        λ q i l. let (ne, old) = from_inactive q i l in Stands-kept false q i ne (inv.idle q i old);
    busy = λ q i l. let (ne, old) = from_active q i l in Stands-kept true q i ne (inv.busy q i old);
    waits = λ q i l.
        let (ne, old) = from_inactive q i l in
        elim (inv.waits q i old) [
          | inl rests ↦ inl (is_ready-kept i ∙ rests)
          | inr none_todo ↦ absurd none_todo
        ];
    bound = λ k i l.
        let (ne, old) = from_eps k i l in
        let (of, placed) = inv.bound k i old in
        (ap (λ (y : EpollSocket). y.s) (g.same_es i) ∙ of, Placed-kept i ne placed);
    count = λ q. elim (Bool-cases (q == (s.es e).ep)) [
      | inl here ↦
          let a : (t.epoll q).active ≡ A = g.at_active q ∙ rw here refl in
          let n : (t.epoll q).num_active ≡ length A = g.at_count q ∙ rw here refl in
          n ∙ sym (ap length a)
      | inr there ↦
          let a : (t.epoll q).active ≡ (s.epoll q).active = g.at_active q ∙ rw there refl in
          let n : (t.epoll q).num_active ≡ (s.epoll q).num_active = g.at_count q ∙ rw there refl in
          n ∙ inv.count q ∙ sym (ap length a)
    ];
    few = λ q. elim (Bool-cases (q == (s.es e).ep)) [
      | inl here ↦
          let a : (t.epoll q).active ≡ A = g.at_active q ∙ rw here refl in
          let i : (t.epoll q).inactive ≡ I = g.at_inactive q ∙ rw here refl in rw (a, i) g.sum
      | inr there ↦
          let a : (t.epoll q).active ≡ (s.epoll q).active = g.at_active q ∙ rw there refl in
          let i : (t.epoll q).inactive ≡ (s.epoll q).inactive = g.at_inactive q ∙ rw there refl in
          rw (a, i) (inv.few q)
    ];
  }
