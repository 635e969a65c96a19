-- ===== src/Epoll/Deactivation.antt =====
-- es_deactivate and es_active_pushback (lib/sockets/epoll.c) keep the lists in order.
use tas_smartnic.Prelude.{
  ℕ, ◌-◌, ◌<◌, ◌≡◌, refl, subst, inl, inr, true, false, some, List, [], ◌∷◌, ◌++◌, arith, ◌==◌,
  length, if◌then◌else◌, Distinct, Listed, Distinct-snoc, Listed-append, length-append, add32,
}
use tas_smartnic.Epoll.State.{
  set_active, with_epoll, Epoll, State, is_ready, remove, es_add_inactive, es_remove_active,
  es_add_active, es_deactivate, es_active_pushback,
}
use tas_smartnic.Epoll.Invariant.{InvBut, Inv}
use tas_smartnic.Epoll.Moves.{Moved, Moved-InvBut}
use tas_smartnic.Epoll.Lists.{
  not-Listed-Apart, Listed-remove, remove-Listed, remove-Distinct, remove_gone, length-remove,
  snoc-Listed,
}
use tas_smartnic.Epoll.Activation.{
  not_both, busy_place, in_snoc, in_cons, in_remove, InvBut-weaken, Listed-pos,
}

-- A state without the binding among the active ones.
abbrev pub without : State → ℕ → State
without s e =
    let p = (s.es e).ep in
    let q : Epoll = s.epoll p in
    with_epoll s p (record q { active = remove e q.active; num_active = q.num_active - 1 })

module _ (s : State) (e : ℕ) (on : (s.es e).active ≡ true)
    (some_active : 0 < (s.epoll (s.es e).ep).num_active) where
  pub es_remove_active-some : es_remove_active s e ≡ some (without s e)
  unfolding es_remove_active
  es_remove_active-some = ground arith

  abbrev deactivated : State
  deactivated = es_add_inactive (set_active (without s e) e false) e

  es_deactivate-some : es_deactivate s e ≡ some deactivated
  unfolding es_deactivate
  es_deactivate-some = ground (arith, es_remove_active-some)

  deactivated_es :
      (i : ℕ) → deactivated.es i ≡ (if i == e then record (s.es e) { active = false } else s.es i)
  unfolding es_add_inactive
  deactivated_es i = ground arith

  deactivated_inactive :
      (q : ℕ)
      → (deactivated.epoll q).inactive
        ≡ (if q == (s.es e).ep then e ∷ (s.epoll (s.es e).ep).inactive else (s.epoll q).inactive)
  unfolding es_add_inactive
  deactivated_inactive q = ground arith

  deactivated_active :
      (q : ℕ)
      → (deactivated.epoll q).active
        ≡ (if q == (s.es e).ep then remove e (s.epoll (s.es e).ep).active else (s.epoll q).active)
  unfolding es_add_inactive
  deactivated_active q = ground arith

  deactivated_count :
      (q : ℕ)
      → (deactivated.epoll q).num_active ≡ (
          if q == (s.es e).ep then (s.epoll (s.es e).ep).num_active - 1 else (s.epoll q).num_active)
  unfolding es_add_inactive
  deactivated_count q = ground arith

  abbrev pushed_back : State
  pushed_back = es_add_active (without s e) e

  es_active_pushback-some : es_active_pushback s e ≡ some pushed_back
  unfolding es_active_pushback
  es_active_pushback-some = ground (arith, es_remove_active-some)

  pushed_back_es :
      (i : ℕ) → pushed_back.es i ≡ (if i == e then record (s.es e) { active = true } else s.es i)
  unfolding es_add_active
  pushed_back_es i = ground arith

  pushed_back_inactive :
      (q : ℕ)
      → (pushed_back.epoll q).inactive
        ≡ (if q == (s.es e).ep then (s.epoll (s.es e).ep).inactive else (s.epoll q).inactive)
  unfolding es_add_active
  pushed_back_inactive q = ground arith

  pushed_back_active :
      (q : ℕ)
      → (pushed_back.epoll q).active ≡ (
          if q == (s.es e).ep
          then remove e (s.epoll (s.es e).ep).active ++ e ∷ []
          else (s.epoll q).active)
  unfolding es_add_active
  pushed_back_active q = ground arith

  pushed_back_count :
      (q : ℕ)
      → (pushed_back.epoll q).num_active ≡ (
          if q == (s.es e).ep
          then add32 ((s.epoll (s.es e).ep).num_active - 1) 1
          else (s.epoll q).num_active)
  unfolding es_add_active
  pushed_back_count q = ground arith

-- The bindings of an active list, at least one of them.
pub counted_pos :
    {Todo : ℕ → Type 0} {s : State} (e : ℕ)
    → InvBut Todo s
    → Listed e (s.socket (s.es e).s).eps
    → (s.es e).active ≡ true
    → 0 < (s.epoll (s.es e).ep).num_active
counted_pos {s = s} e inv known on =
    omega (arith, inv.count (s.es e).ep, Listed-pos e _ (busy_place e inv known on))

-- es_deactivate of a binding with nothing pending, and es_active_pushback, succeed and keep the
-- invariant.
pub es_deactivate-Inv :
    {s : State} (e : ℕ)
    → Inv s
    → Listed e (s.socket (s.es e).s).eps
    → (s.es e).active ≡ true
    → is_ready s e ≡ false
    → (t : State) × (es_deactivate s e ≡ some t)
      × Inv t
      × Moved s t e false
          (e ∷ (s.epoll (s.es e).ep).inactive)
          (remove e (s.epoll (s.es e).ep).active)
unfolding Listed Distinct es_add_inactive
es_deactivate-Inv {s} e inv known on rests =
    let p : ℕ = (s.es e).ep in
    let xs : List ℕ = (s.epoll p).inactive in
    let ys : List ℕ = (s.epoll p).active in
    let pos = counted_pos e inv known on in
    let place : Listed e ys = busy_place e inv known on in
    let away : Listed e xs → ⊥ = λ l. not_both p p e inv l place in
    let shorter = length-remove e ys place in
    let next : (s.epoll p).num_active - 1 ≡ length (remove e ys) =
      omega (arith, inv.count p, shorter) in
    let t : State = deactivated s e on pos in
    let move : Moved s t e false (e ∷ xs) (remove e ys) = record {
      same_socket = λ k. refl;
      at_es = λ i. deactivated_es s e on pos i;
      at_inactive = λ q. deactivated_inactive s e on pos q;
      at_active = λ q. deactivated_active s e on pos q;
      at_count = λ q.
          subst (λ n. (t.epoll q).num_active ≡ (if q == p then n else (s.epoll q).num_active)) next
            (deactivated_count s e on pos q);
      once_I = (not-Listed-Apart e xs away, inv.once_inactive p);
      once_A = remove-Distinct e ys (inv.once_active p);
      in_I = in_cons e xs away;
      in_A = λ i l. inl (in_remove e ys (inv.once_active p) i l);
      out_I = λ i other l. inr l;
      out_A = λ i other l. remove-Listed i e ys other l;
      new_place = inl refl;
      sum = omega (arith, shorter, inv.few p);
    } in
    (
      t,
      es_deactivate-some s e on pos,
      InvBut-weaken (λ i. ⊥) (Moved-InvBut move inv known (inr rests)) (λ q i l todo. todo.0),
      move,
    )

pub es_active_pushback-Inv :
    {s : State} (e : ℕ)
    → Inv s
    → Listed e (s.socket (s.es e).s).eps
    → (s.es e).active ≡ true
    → (t : State) × (es_active_pushback s e ≡ some t)
      × Inv t
      × Moved s t e true
          (s.epoll (s.es e).ep).inactive
          (remove e (s.epoll (s.es e).ep).active ++ e ∷ [])
unfolding es_add_active
es_active_pushback-Inv {s} e inv known on =
    let p : ℕ = (s.es e).ep in
    let xs : List ℕ = (s.epoll p).inactive in
    let ys : List ℕ = (s.epoll p).active in
    let pos = counted_pos e inv known on in
    let place : Listed e ys = busy_place e inv known on in
    let away : Listed e xs → ⊥ = λ l. not_both p p e inv l place in
    let shorter = length-remove e ys place in
    let longer = length-append (remove e ys) (e ∷ []) in
    let gone = remove_gone e ys (inv.once_active p) in
    let next : add32 ((s.epoll p).num_active - 1) 1 ≡ length (remove e ys ++ e ∷ []) =
      omega (arith, inv.count p, shorter, longer, inv.few p) in
    let t : State = pushed_back s e on pos in
    let move : Moved s t e true xs (remove e ys ++ e ∷ []) = record {
      same_socket = λ k. refl;
      at_es = λ i. pushed_back_es s e on pos i;
      at_inactive = λ q. pushed_back_inactive s e on pos q;
      at_active = λ q. pushed_back_active s e on pos q;
      at_count = λ q.
          subst (λ n. (t.epoll q).num_active ≡ (if q == p then n else (s.epoll q).num_active)) next
            (pushed_back_count s e on pos q);
      once_I = inv.once_inactive p;
      once_A =
          Distinct-snoc e (remove e ys) (remove-Distinct e ys (inv.once_active p))
            (not-Listed-Apart e (remove e ys) gone);
      in_I = λ i l. inl ((λ same. away (subst (λ j. Listed j xs) same l)), l);
      in_A = λ i l. elim (in_snoc e (remove e ys) gone i l) [
        | inl (other, old) ↦ inl (other, Listed-remove i e ys old)
        | inr self ↦ inr self
      ];
      out_I = λ i other l. l;
      out_A = λ i other l. snoc-Listed i e (remove e ys) (remove-Listed i e ys other l);
      new_place = Listed-append e (remove e ys) [];
      sum = omega (arith, shorter, longer, inv.few p);
    } in
    (
      t,
      es_active_pushback-some s e on pos,
      InvBut-weaken (λ i. ⊥) (Moved-InvBut move inv known (inl refl)) (λ q i l todo. todo.0),
      move,
    )
