-- ===== src/Epoll/Activation.antt =====
-- es_activate (lib/sockets/epoll.c) keeps the lists in order.
use tas_smartnic.Prelude.{
  ℕ, ◌<◌, ◌≡◌, ◌≢◌, ◌⊎◌, refl, sym, subst, inl, inr, true, false, List, [], ◌∷◌, ◌++◌, arith, ◌==◌,
  length, if◌then◌else◌, Bool-cases, Distinct, Listed, Distinct-snoc, Listed-append, length-append,
  add32,
}
use tas_smartnic.Epoll.State.{
  State, is_ready, remove, es_remove_inactive, es_add_active, es_activate,
}
use tas_smartnic.Epoll.Invariant.{InvBut, Inv}
use tas_smartnic.Epoll.Moves.{Moved, Moved-InvBut}
use tas_smartnic.Epoll.Lists.{
  not-Listed-Apart, Listed-remove, remove-Listed, remove-Distinct, remove_gone, length-remove,
  Listed-snoc, snoc-Listed,
}

-- A binding of one list is not in the other.
pub not_both :
    {Todo : ℕ → Type 0} {s : State} (p q e : ℕ)
    → InvBut Todo s
    → Listed e (s.epoll p).inactive
    → Listed e (s.epoll q).active
    → ⊥
not_both p q e inv idle busy =
    let off = (inv.idle p e idle).flag in let on = (inv.busy q e busy).flag in cc

-- The lists after an activation.
pub activate_inactive :
    (s : State) (e q : ℕ)
    → (s.es e).active ≡ false
    → ((es_activate s e).epoll q).inactive
      ≡ (if q == (s.es e).ep then remove e (s.epoll (s.es e).ep).inactive else (s.epoll q).inactive)
unfolding es_activate es_remove_inactive es_add_active
activate_inactive s e q off = ground arith

activate_active :
    (s : State) (e q : ℕ)
    → (s.es e).active ≡ false
    → ((es_activate s e).epoll q).active
      ≡ (if q == (s.es e).ep then (s.epoll (s.es e).ep).active ++ e ∷ [] else (s.epoll q).active)
unfolding es_activate es_remove_inactive es_add_active
activate_active s e q off = ground arith

activate_count :
    (s : State) (e q : ℕ)
    → (s.es e).active ≡ false
    → ((es_activate s e).epoll q).num_active ≡ (
        if q == (s.es e).ep
        then add32 (s.epoll (s.es e).ep).num_active 1
        else (s.epoll q).num_active)
unfolding es_activate es_remove_inactive es_add_active
activate_count s e q off = ground arith

activate_es :
    (s : State) (e i : ℕ)
    → (s.es e).active ≡ false
    → (es_activate s e).es i ≡ (if i == e then record (s.es e) { active = true } else s.es i)
unfolding es_activate es_remove_inactive es_add_active
activate_es s e i off = ground arith

pub activate_socket : (s : State) (e k : ℕ) → (es_activate s e).socket k ≡ s.socket k
unfolding es_activate es_remove_inactive es_add_active
activate_socket s e k = ground arith

-- The list that a flag says.
pub idle_place :
    {Todo : ℕ → Type 0} {s : State} (e : ℕ)
    → InvBut Todo s
    → Listed e (s.socket (s.es e).s).eps
    → (s.es e).active ≡ false
    → Listed e (s.epoll (s.es e).ep).inactive
idle_place {s = s} e inv known off =
    subst
      (λ c. Listed e (if c then (s.epoll (s.es e).ep).active else (s.epoll (s.es e).ep).inactive))
      off (inv.bound (s.es e).s e known).1

pub busy_place :
    {Todo : ℕ → Type 0} {s : State} (e : ℕ)
    → InvBut Todo s
    → Listed e (s.socket (s.es e).s).eps
    → (s.es e).active ≡ true
    → Listed e (s.epoll (s.es e).ep).active
busy_place {s = s} e inv known on =
    subst
      (λ c. Listed e (if c then (s.epoll (s.es e).ep).active else (s.epoll (s.es e).ep).inactive))
      on (inv.bound (s.es e).s e known).1

-- To the end of a list that does not hold it.
pub in_snoc :
    (e : ℕ) (xs : List ℕ)
    → (Listed e xs → ⊥)
    → (i : ℕ) → Listed i (xs ++ e ∷ [])
    → ((i ≢ e) × Listed i xs) ⊎ ((i ≡ e) × (true ≡ true))
in_snoc e xs away i l = elim (Listed-snoc i e xs l) [
  | inl old ↦ inl ((λ same. away (subst (λ j. Listed j xs) same old)), old)
  | inr same ↦ inr (sym same, refl)
]

pub in_cons :
    (e : ℕ) (xs : List ℕ)
    → (Listed e xs → ⊥)
    → (i : ℕ) → Listed i (e ∷ xs)
    → ((i ≢ e) × Listed i xs) ⊎ ((i ≡ e) × (false ≡ false))
unfolding Listed
in_cons e xs away i (inl same) = inr (sym same, refl)
in_cons e xs away i (inr old) = inl ((λ same. away (subst (λ j. Listed j xs) same old)), old)

pub in_remove :
    (e : ℕ) (xs : List ℕ) → Distinct xs → (i : ℕ) → Listed i (remove e xs) → (i ≢ e) × Listed i xs
in_remove e xs once i l = (
  (λ same. remove_gone e xs once (subst (λ j. Listed j (remove e xs)) same l)),
  Listed-remove i e xs l,
)

activate-Moved :
    {Todo : ℕ → Type 0} {s : State} (e : ℕ)
    → InvBut Todo s
    → Listed e (s.socket (s.es e).s).eps
    → (s.es e).active ≡ false
    → Moved s
        (es_activate s e)
        e
        true
        (remove e (s.epoll (s.es e).ep).inactive)
        ((s.epoll (s.es e).ep).active ++ e ∷ [])
activate-Moved {s = s} e inv known off =
    let p : ℕ = (s.es e).ep in
    let xs : List ℕ = (s.epoll p).inactive in
    let ys : List ℕ = (s.epoll p).active in
    let place : Listed e xs = idle_place e inv known off in
    let away : Listed e ys → ⊥ = λ l. not_both p p e inv place l in
    let shorter = length-remove e xs place in
    let longer = length-append ys (e ∷ []) in
    let few = inv.few p in
    let next : add32 (s.epoll p).num_active 1 ≡ length (ys ++ e ∷ []) =
      omega (arith, inv.count p, few, longer) in
    record {
      same_socket = activate_socket s e;
      at_es = λ i. activate_es s e i off;
      at_inactive = λ q. activate_inactive s e q off;
      at_active = λ q. activate_active s e q off;
      at_count = λ q.
          subst
            (λ n.
              ((es_activate s e).epoll q).num_active
              ≡ (if q == p then n else (s.epoll q).num_active))
            next (activate_count s e q off);
      once_I = remove-Distinct e xs (inv.once_inactive p);
      once_A = Distinct-snoc e ys (inv.once_active p) (not-Listed-Apart e ys away);
      in_I = λ i l. inl (in_remove e xs (inv.once_inactive p) i l);
      in_A = in_snoc e ys away;
      out_I = λ i other l. remove-Listed i e xs other l;
      out_A = λ i other l. snoc-Listed i e ys l;
      new_place = Listed-append e ys [];
      sum = omega (arith, shorter, longer, few);
    }

-- Other exceptions.
pub InvBut-weaken :
    {Todo : ℕ → Type 0} (More : ℕ → Type 0) {s : State}
    → InvBut Todo s
    → ((p i : ℕ) → Listed i (s.epoll p).inactive → Todo i → More i)
    → InvBut More s
InvBut-weaken More inv more = record {
  once_inactive = inv.once_inactive;
  once_active = inv.once_active;
  once_eps = inv.once_eps;
  idle = inv.idle;
  busy = inv.busy;
  waits =
      λ p i l. elim (inv.waits p i l) [ inl rests ↦ inl rests | inr todo ↦ inr (more p i l todo) ];
  bound = inv.bound;
  count = inv.count;
  few = inv.few;
}

-- An activation keeps the invariant, and the binding is no exception any more.
pub es_activate-InvBut :
    {Todo : ℕ → Type 0} {s : State} (e : ℕ)
    → InvBut Todo s
    → Listed e (s.socket (s.es e).s).eps
    → InvBut (λ i. Todo i × (i ≢ e)) (es_activate s e)
unfolding es_activate
es_activate-InvBut {Todo} {s} e inv known = elim (Bool-cases (s.es e).active) [
  | inr off ↦ Moved-InvBut (activate-Moved e inv known off) inv known (inl refl)
  | inl on ↦
      let still : es_activate s e ≡ s = rw (es_activate, on) refl in
      subst (InvBut (λ i. Todo i × (i ≢ e))) (sym still) (
        InvBut-weaken (λ i. Todo i × (i ≢ e)) inv
          (λ p i l todo. (
            todo,
            λ same.
                let off : (s.es e).active ≡ false =
                  subst (λ j. (s.es j).active ≡ false) same (inv.idle p i l).flag in
                cc,
          )))
]

-- The exceptions have nothing pending.
pub InvBut-settled :
    {Todo : ℕ → Type 0} {s : State}
    → InvBut Todo s
    → ((i : ℕ) → Todo i → is_ready s i ≡ false)
    → Inv s
InvBut-settled inv rests = record {
  once_inactive = inv.once_inactive;
  once_active = inv.once_active;
  once_eps = inv.once_eps;
  idle = inv.idle;
  busy = inv.busy;
  waits = λ p i l. elim (inv.waits p i l) [ inl r ↦ inl r | inr todo ↦ inl (rests i todo) ];
  bound = inv.bound;
  count = inv.count;
  few = inv.few;
}

-- A binding that may be ready and inactive is activated if it is ready.
pub settle :
    {t : State} (e : ℕ)
    → InvBut (λ i. i ≡ e) t
    → Listed e (t.socket (t.es e).s).eps
    → Inv (if is_ready t e then es_activate t e else t)
settle {t} e inv known = elim (Bool-cases (is_ready t e)) [
  | inl ready ↦
      rw ready
        (InvBut-weaken (λ i. ⊥) (es_activate-InvBut e inv known) (λ p i l todo. todo.1 todo.0))
  | inr rests ↦
      rw rests (InvBut-settled inv (λ i same. subst (λ j. is_ready t j ≡ false) (sym same) rests))
]

-- One element at least.
pub Listed-pos : (e : ℕ) (xs : List ℕ) → Listed e xs → 0 < length xs
unfolding Listed
Listed-pos e [] l = absurd l
Listed-pos e (x ∷ xs) l = omega arith
