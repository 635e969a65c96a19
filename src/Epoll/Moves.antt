-- ===== src/Epoll/Moves.antt =====
-- A binding that goes from a list of its epoll to the other, or to the end of its own.
use tas_smartnic.Prelude.{
  ℕ, ◌+◌, ◌^◌, ◌<◌, ◌≡◌, ◌≢◌, ◌⊎◌, refl, sym, ap, ◌∙◌, subst, inl, inr, Bool, true, false, List,
  arith, ◌==◌, length, if◌then◌else◌, Bool-cases, ==-same, Distinct, Listed,
}
use tas_smartnic.Epoll.State.{meets, EpollSocket, Socket, State, is_ready}
use tas_smartnic.Epoll.Waiting.{report, report_of}
use tas_smartnic.Epoll.Invariant.{Stands, Placed, InvBut}

-- `t` is `s` with the binding `e` moved: its flag is `b`, and its epoll has the lists `I` and `A`.
pub record Moved (s t : State) (e : ℕ) (b : Bool) (I A : List ℕ) : Type 0 where
  pub same_socket : (k : ℕ) → t.socket k ≡ s.socket k
  pub at_es : (i : ℕ) → t.es i ≡ (if i == e then record (s.es e) { active = b } else s.es i)
  pub at_inactive :
      (q : ℕ) → (t.epoll q).inactive ≡ (if q == (s.es e).ep then I else (s.epoll q).inactive)
  pub at_active :
      (q : ℕ) → (t.epoll q).active ≡ (if q == (s.es e).ep then A else (s.epoll q).active)
  pub at_count :
      (q : ℕ)
      → (t.epoll q).num_active ≡ (if q == (s.es e).ep then length A else (s.epoll q).num_active)
  pub once_I : Distinct I
  pub once_A : Distinct A
  pub in_I :
      (i : ℕ)
      → Listed i I
      → ((i ≢ e) × Listed i (s.epoll (s.es e).ep).inactive) ⊎ ((i ≡ e) × (b ≡ false))
  pub in_A :
      (i : ℕ)
      → Listed i A
      → ((i ≢ e) × Listed i (s.epoll (s.es e).ep).active) ⊎ ((i ≡ e) × (b ≡ true))
  pub out_I : (i : ℕ) → i ≢ e → Listed i (s.epoll (s.es e).ep).inactive → Listed i I
  pub out_A : (i : ℕ) → i ≢ e → Listed i (s.epoll (s.es e).ep).active → Listed i A
  pub new_place : Listed e (if b then A else I)
  pub sum : length A + length I < 2 ^ 32

-- The list that a flag says, when both lists grow.
pick :
    (c : Bool) (i : ℕ) (xs ys xs' ys' : List ℕ)
    → (Listed i xs → Listed i xs')
    → (Listed i ys → Listed i ys')
    → Listed i (if c then xs else ys)
    → Listed i (if c then xs' else ys')
pick true i xs ys xs' ys' f g listed = f listed
pick false i xs ys xs' ys' f g listed = g listed

module _ {s t : State} {e : ℕ} {b : Bool} {I A : List ℕ} (m : Moved s t e b I A) where
  at_other : (i : ℕ) → i ≢ e → t.es i ≡ s.es i
  at_other i other = let differs : (i == e) ≡ false = ground arith in m.at_es i ∙ rw differs refl

  at_self : t.es e ≡ record (s.es e) { active = b }
  at_self = m.at_es e ∙ rw (==-same e) refl

  here_inactive : (t.epoll (s.es e).ep).inactive ≡ I
  here_inactive = m.at_inactive (s.es e).ep ∙ rw (==-same (s.es e).ep) refl

  pub here_active : (t.epoll (s.es e).ep).active ≡ A
  here_active = m.at_active (s.es e).ep ∙ rw (==-same (s.es e).ep) refl

  there_inactive :
      (q : ℕ) → (q == (s.es e).ep) ≡ false → (t.epoll q).inactive ≡ (s.epoll q).inactive
  there_inactive q other = m.at_inactive q ∙ rw other refl

  there_active : (q : ℕ) → (q == (s.es e).ep) ≡ false → (t.epoll q).active ≡ (s.epoll q).active
  there_active q other = m.at_active q ∙ rw other refl

  -- Readiness stays.
  pub Moved-is_ready : (i : ℕ) → is_ready t i ≡ is_ready s i
  Moved-is_ready i = elim (Bool-cases (i == e)) [
    | inr differs ↦
        let other : i ≢ e = ground arith in
        let same : t.es i ≡ s.es i = at_other i other in
        ap (λ (x : EpollSocket). meets (t.socket x.s).ep_events x.mask) same
        ∙ ap (λ (x : Socket). meets x.ep_events (s.es i).mask) (m.same_socket (s.es i).s)
    | inl here ↦
        let is : i ≡ e = ground arith in
        subst (λ j. is_ready t j ≡ is_ready s j) (sym is)
          (ap (λ (x : EpollSocket). meets (t.socket x.s).ep_events x.mask) at_self
            ∙ ap (λ (x : Socket). meets x.ep_events (s.es e).mask) (m.same_socket (s.es e).s))
  ]

  -- What is reported stays.
  pub Moved-report : (i : ℕ) → report t i ≡ report s i
  Moved-report i = elim (Bool-cases (i == e)) [
    | inr differs ↦
        let other : i ≢ e = ground arith in
        ap (λ (x : EpollSocket). report_of (t.socket x.s) x) (at_other i other)
        ∙ ap (λ (x : Socket). report_of x (s.es i)) (m.same_socket (s.es i).s)
    | inl here ↦
        let is : i ≡ e = ground arith in
        subst (λ j. report t j ≡ report s j) (sym is)
          (ap (λ (x : EpollSocket). report_of (t.socket x.s) x) at_self
            ∙ ap (λ (x : Socket). report_of x (s.es e)) (m.same_socket (s.es e).s))
  ]

  -- What stood in a list, stands in it.
  Stands-other : (c : Bool) (q i : ℕ) → i ≢ e → Stands s c q i → Stands t c q i
  Stands-other c q i other st =
      let same : t.es i ≡ s.es i = at_other i other in
      record {
        flag = ap (λ (x : EpollSocket). x.active) same ∙ st.flag;
        owner = ap (λ (x : EpollSocket). x.ep) same ∙ st.owner;
        known =
            subst (λ (x : EpollSocket). Listed i (t.socket x.s).eps) (sym same)
              (subst (λ (x : Socket). Listed i x.eps) (sym (m.same_socket (s.es i).s)) st.known);
      }

  Stands-self : Listed e (s.socket (s.es e).s).eps → Stands t b (s.es e).ep e
  Stands-self known = record {
    flag = ap (λ (x : EpollSocket). x.active) at_self;
    owner = ap (λ (x : EpollSocket). x.ep) at_self;
    known =
        subst (λ (x : EpollSocket). Listed e (t.socket x.s).eps) (sym at_self)
          (subst (λ (x : Socket). Listed e x.eps) (sym (m.same_socket (s.es e).s)) known);
  }

  kept_inactive : (q i : ℕ) → i ≢ e → Listed i (s.epoll q).inactive → Listed i (t.epoll q).inactive
  kept_inactive q i other listed = elim (Bool-cases (q == (s.es e).ep)) [
    | inr differs ↦ subst (Listed i) (sym (there_inactive q differs)) listed
    | inl here ↦
        let is : q ≡ (s.es e).ep = ground arith in
        let old : Listed i (s.epoll (s.es e).ep).inactive =
          subst (λ j. Listed i (s.epoll j).inactive) is listed in
        subst (λ j. Listed i (t.epoll j).inactive) (sym is)
          (subst (Listed i) (sym here_inactive) (m.out_I i other old))
  ]

  kept_active : (q i : ℕ) → i ≢ e → Listed i (s.epoll q).active → Listed i (t.epoll q).active
  kept_active q i other listed = elim (Bool-cases (q == (s.es e).ep)) [
    | inr differs ↦ subst (Listed i) (sym (there_active q differs)) listed
    | inl here ↦
        let is : q ≡ (s.es e).ep = ground arith in
        let old : Listed i (s.epoll (s.es e).ep).active =
          subst (λ j. Listed i (s.epoll j).active) is listed in
        subst (λ j. Listed i (t.epoll j).active) (sym is)
          (subst (Listed i) (sym here_active) (m.out_A i other old))
  ]

  -- Where a binding of a list of `t` comes from.
  from_inactive :
      (q i : ℕ)
      → ((j : ℕ) → Listed e (s.epoll j).inactive → (s.es e).ep ≡ j)
      → Listed i (t.epoll q).inactive
      → ((i ≢ e) × Listed i (s.epoll q).inactive) ⊎ ((i ≡ e) × (b ≡ false) × (q ≡ (s.es e).ep))
  from_inactive q i home listed = elim (Bool-cases (q == (s.es e).ep)) [
    | inr differs ↦
        let old : Listed i (s.epoll q).inactive =
          subst (Listed i) (there_inactive q differs) listed in
        inl (
          (λ same.
              let at_home : (s.es e).ep ≡ q =
                home q (subst (λ j. Listed j (s.epoll q).inactive) same old) in
              absurd (ground arith)),
          old,
        )
    | inl here ↦
        let is : q ≡ (s.es e).ep = ground arith in
        let new : Listed i I =
          subst (Listed i) here_inactive (subst (λ j. Listed i (t.epoll j).inactive) is listed) in
        elim (m.in_I i new) [
          | inl (other, old) ↦ inl (other, subst (λ j. Listed i (s.epoll j).inactive) (sym is) old)
          | inr (same, off) ↦ inr (same, off, is)
        ]
  ]

  from_active :
      (q i : ℕ)
      → ((j : ℕ) → Listed e (s.epoll j).active → (s.es e).ep ≡ j)
      → Listed i (t.epoll q).active
      → ((i ≢ e) × Listed i (s.epoll q).active) ⊎ ((i ≡ e) × (b ≡ true) × (q ≡ (s.es e).ep))
  from_active q i home listed = elim (Bool-cases (q == (s.es e).ep)) [
    | inr differs ↦
        let old : Listed i (s.epoll q).active = subst (Listed i) (there_active q differs) listed in
        inl (
          (λ same.
              let at_home : (s.es e).ep ≡ q =
                home q (subst (λ j. Listed j (s.epoll q).active) same old) in
              absurd (ground arith)),
          old,
        )
    | inl here ↦
        let is : q ≡ (s.es e).ep = ground arith in
        let new : Listed i A =
          subst (Listed i) here_active (subst (λ j. Listed i (t.epoll j).active) is listed) in
        elim (m.in_A i new) [
          | inl (other, old) ↦ inl (other, subst (λ j. Listed i (s.epoll j).active) (sym is) old)
          | inr (same, on) ↦ inr (same, on, is)
        ]
  ]

  Placed-self : Placed t e
  Placed-self =
      subst
        (λ (x : EpollSocket).
          Listed e (if x.active then (t.epoll x.ep).active else (t.epoll x.ep).inactive))
        (sym at_self)
        (pick b e A I _ _ (λ l. subst (Listed e) (sym here_active) l)
          (λ l. subst (Listed e) (sym here_inactive) l) m.new_place)

  Placed-other : (i : ℕ) → i ≢ e → Placed s i → Placed t i
  Placed-other i other placed =
      subst
        (λ (x : EpollSocket).
          Listed i (if x.active then (t.epoll x.ep).active else (t.epoll x.ep).inactive))
        (sym (at_other i other))
        (pick (s.es i).active i _ _ _ _ (kept_active (s.es i).ep i other)
          (kept_inactive (s.es i).ep i other) placed)

  -- A move keeps the invariant, if the binding goes to the active ones or has nothing pending.
  pub Moved-InvBut :
      {Todo : ℕ → Type 0}
      → InvBut Todo s
      → Listed e (s.socket (s.es e).s).eps
      → ((b ≡ true) ⊎ (is_ready s e ≡ false))
      → InvBut (λ i. Todo i × (i ≢ e)) t
  Moved-InvBut inv known fit =
      let home_i = λ (j : ℕ) (l : Listed e (s.epoll j).inactive). (inv.idle j e l).owner in
      let home_a = λ (j : ℕ) (l : Listed e (s.epoll j).active). (inv.busy j e l).owner in
      record {
        once_inactive = λ q. elim (Bool-cases (q == (s.es e).ep)) [
          | inl here ↦ subst Distinct (sym (m.at_inactive q ∙ rw here refl)) m.once_I
          | inr there ↦ subst Distinct (sym (there_inactive q there)) (inv.once_inactive q)
        ];
        once_active = λ q. elim (Bool-cases (q == (s.es e).ep)) [
          | inl here ↦ subst Distinct (sym (m.at_active q ∙ rw here refl)) m.once_A
          | inr there ↦ subst Distinct (sym (there_active q there)) (inv.once_active q)
        ];
        once_eps =
            λ k. subst (λ (x : Socket). Distinct x.eps) (sym (m.same_socket k)) (inv.once_eps k);
        idle = λ q i l. elim (from_inactive q i home_i l) [
          | inl (other, old) ↦ Stands-other false q i other (inv.idle q i old)
          | inr (same, off, is) ↦
              subst (λ j. Stands t false q j) (sym same)
                (subst (λ j. Stands t false j e) (sym is)
                  (subst (λ c. Stands t c (s.es e).ep e) off (Stands-self known)))
        ];
        busy = λ q i l. elim (from_active q i home_a l) [
          | inl (other, old) ↦ Stands-other true q i other (inv.busy q i old)
          | inr (same, on, is) ↦
              subst (λ j. Stands t true q j) (sym same)
                (subst (λ j. Stands t true j e) (sym is)
                  (subst (λ c. Stands t c (s.es e).ep e) on (Stands-self known)))
        ];
        waits = λ q i l. elim (from_inactive q i home_i l) [
          | inl (other, old) ↦ elim (inv.waits q i old) [
            | inl rests ↦ inl (Moved-is_ready i ∙ rests)
            | inr todo ↦ inr (todo, other)
          ]
          | inr (same, off, is) ↦ elim fit [
            | inl on ↦ absurd cc
            | inr rests ↦
                inl (subst (λ j. is_ready t j ≡ false) (sym same) (Moved-is_ready e ∙ rests))
          ]
        ];
        bound = λ k i l.
            let old : Listed i (s.socket k).eps =
              subst (λ (x : Socket). Listed i x.eps) (m.same_socket k) l in
            let (of, placed) = inv.bound k i old in
            elim (Bool-cases (i == e)) [
              | inl here ↦
                  let is : i ≡ e = ground arith in
                  subst (λ j. ((t.es j).s ≡ k) × Placed t j) (sym is)
                    (
                      ap (λ (x : EpollSocket). x.s) at_self ∙ subst (λ j. (s.es j).s ≡ k) is of,
                      Placed-self,
                    )
              | inr differs ↦
                  let other : i ≢ e = ground arith in
                  (
                    ap (λ (x : EpollSocket). x.s) (at_other i other) ∙ of,
                    Placed-other i other placed,
                  )
            ];
        count = λ q. elim (Bool-cases (q == (s.es e).ep)) [
          | inl here ↦
              let a : (t.epoll q).active ≡ A = m.at_active q ∙ rw here refl in
              let n : (t.epoll q).num_active ≡ length A = m.at_count q ∙ rw here refl in
              n ∙ sym (ap length a)
          | inr there ↦
              let n : (t.epoll q).num_active ≡ (s.epoll q).num_active =
                m.at_count q ∙ rw there refl in
              n ∙ inv.count q ∙ sym (ap length (there_active q there))
        ];
        few = λ q. elim (Bool-cases (q == (s.es e).ep)) [
          | inl here ↦
              let a : (t.epoll q).active ≡ A = m.at_active q ∙ rw here refl in
              let n : (t.epoll q).inactive ≡ I = m.at_inactive q ∙ rw here refl in rw (a, n) m.sum
          | inr there ↦ rw (there_active q there, there_inactive q there) (inv.few q)
        ];
      }
