-- ===== src/Cc/Members.antt =====
-- The list of connections of tas_nic/slow/cc.c: cc_conn_init and cc_conn_remove.
use mathlib.Core.List.{append_assoc, append-nil}
use tas_smartnic.Prelude.{
  Listed, Listed-append, Listed-kept, ◌∙◌, All-append, zero, suc, All, ℕ, ◌≡◌, ◌≢◌, ◌⊎◌, refl, sym,
  inl, inr, Bool, false, Option, none, some, List, [], ◌∷◌, ◌++◌, arith, ◌==◌, Apart, Distinct,
  Bool-cases, Option-cases, ==-same, subst, Distinct-Apart,
}
use tas_smartnic.Cc.State.{Config, Stats}
use tas_smartnic.Cc.Rounds.{
  take, visit_all-conns, ahead, visit_all, cc_poll_lem, next_inside, next_last,
}
use tas_smartnic.Cc.Control.{
  cc_poll, fresh, moved_on, State, cc_next, unlink, cc_conn_init, cc_conn_remove, algorithm_init,
  put, first_conn,
}

-- The list without one of its elements.
unlink-middle :
    (xs : List ℕ) (c : ℕ) (ys : List ℕ) → Apart c xs → unlink (xs ++ c ∷ ys) c ≡ some (xs ++ ys)
unfolding unlink Apart
unlink-middle [] c ys apart = rw (==-same c) refl
unlink-middle (x ∷ xs) c ys (other, apart) =
    let differs : (x == c) ≡ false = ground arith in rw (differs, unlink-middle xs c ys apart) refl

pub Listed-split :
    (c : ℕ) (conns : List ℕ)
    → Listed c conns
    → (xs : List ℕ) × (ys : List ℕ) × (conns ≡ xs ++ c ∷ ys)
unfolding Listed
Listed-split c [] listed = absurd listed
Listed-split c (x ∷ conns) (inl same) = ([], conns, rw same refl)
Listed-split c (x ∷ conns) (inr rest) =
    let (xs, ys, e) = Listed-split c conns rest in (x ∷ xs, ys, rw e refl)

Apart-without :
    (z : ℕ) (xs : List ℕ) (c : ℕ) (ys : List ℕ) → Apart z (xs ++ c ∷ ys) → Apart z (xs ++ ys)
unfolding Apart
Apart-without z [] c ys (other, rest) = rest
Apart-without z (x ∷ xs) c ys (other, rest) = (other, Apart-without z xs c ys rest)

Distinct-without :
    (xs : List ℕ) (c : ℕ) (ys : List ℕ) → Distinct (xs ++ c ∷ ys) → Distinct (xs ++ ys)
unfolding Distinct
Distinct-without [] c ys (apart, once) = once
Distinct-without (x ∷ xs) c ys (apart, once) =
    (Apart-without x xs c ys apart, Distinct-without xs c ys once)

-- The connections of the list are different ones, and the next one to be polled is one of them.
unfoldable pub NextListed : Option ℕ → List ℕ → Type 0
NextListed none conns = Unit
NextListed (some c) conns = Listed c conns

pub record Inv (s : State) : Type 0 where
  pub once : Distinct s.conns
  pub next : NextListed s.next_conn s.conns

behind-Listed :
    (conns xs : List ℕ) (c : ℕ) (ys : List ℕ)
    → Distinct conns
    → conns ≡ xs ++ c ∷ ys
    → NextListed (cc_next conns c) (xs ++ ys)
unfolding NextListed
behind-Listed conns xs c [] once e =
    let apart = (Distinct-Apart xs c [] (subst Distinct e once)).0 in
    let none_next : cc_next conns c ≡ none = rw e (next_last xs c apart) in rw none_next tt
behind-Listed conns xs c (y ∷ ys) once e =
    let apart = (Distinct-Apart xs c (y ∷ ys) (subst Distinct e once)).0 in
    let next : cc_next conns c ≡ some y = rw e (next_inside xs c y ys apart) in
    rw next (Listed-append y xs ys)

moved_on-Listed :
    (next : Option ℕ) (conns xs : List ℕ) (c : ℕ) (ys : List ℕ)
    → Distinct conns
    → conns ≡ xs ++ c ∷ ys
    → NextListed next conns
    → NextListed (moved_on next conns c) (xs ++ ys)
unfolding NextListed
moved_on-Listed none conns xs c ys once e listed = tt
moved_on-Listed (some d) conns xs c ys once e listed = elim (Bool-cases (d == c)) [
  | inl same ↦ rw same (behind-Listed conns xs c ys once e)
  | inr differs ↦
      let other : c ≢ d = ground arith in
      rw differs (Listed-kept d c xs ys other (subst (λ l. Listed d l) e listed))
]

-- cc_conn_remove of a connection of the list, when next_conn is one of it or none: it succeeds, takes
-- that connection out, leaves the order of the others, and next_conn is again one of the list or none.
pub cc_conn_remove-Inv :
    (s : State) (c : ℕ) (xs ys : List ℕ)
    → Inv s
    → s.conns ≡ xs ++ c ∷ ys
    → (u : State) × (cc_conn_remove s c ≡ some u) × (u.conns ≡ xs ++ ys) × Inv u
unfolding cc_conn_remove
cc_conn_remove-Inv s c xs ys inv e =
    let apart = (Distinct-Apart xs c ys (subst Distinct e inv.once)).0 in
    let out : unlink s.conns c ≡ some (xs ++ ys) = rw e (unlink-middle xs c ys apart) in
    (
      record s { conns = xs ++ ys; next_conn = moved_on s.next_conn s.conns c },
      rw (cc_conn_remove, out) refl,
      refl,
      record {
        once = Distinct-without xs c ys (subst Distinct e inv.once);
        next = moved_on-Listed s.next_conn s.conns xs c ys inv.once e inv.next;
      },
    )

ahead-Listed :
    (n x : ℕ) (xs : List ℕ) (wrap : ℕ) (conns : List ℕ)
    → Listed x conns
    → All (λ y. Listed y conns) xs
    → Listed wrap conns
    → Listed (ahead n x xs wrap) conns
unfolding ahead
ahead-Listed zero x xs wrap conns here all last = here
ahead-Listed (suc n) x [] wrap conns here all last = last
ahead-Listed (suc n) x (y ∷ xs) wrap conns here (next, all) last =
    ahead-Listed n y xs wrap conns next all last

NextListed-more :
    (next : Option ℕ) (conns : List ℕ) (c : ℕ) → NextListed next conns → NextListed next (c ∷ conns)
unfolding NextListed Listed
NextListed-more none conns c listed = tt
NextListed-more (some d) conns c listed = inr listed

-- Where a poll begins: nowhere, or at a connection of the list.
Starts : Option ℕ → List ℕ → Type 0
Starts next conns =
    (first_conn next conns ≡ none)
    ⊎ ((pre : List ℕ) × (c : ℕ) × (post : List ℕ) × (conns ≡ pre ++ c ∷ post)
        × ((next ≡ some c) ⊎ ((next ≡ none) × (pre ≡ []))))

NextListed-Starts : (next : Option ℕ) (conns : List ℕ) → NextListed next conns → Starts next conns
unfolding NextListed Starts first_conn
NextListed-Starts none [] listed = inl refl
NextListed-Starts none (x ∷ conns) listed = inr ([], x, conns, refl, inr (refl, refl))
NextListed-Starts (some c) conns listed =
    let (pre, post, e) = Listed-split c conns listed in inr (pre, c, post, e, inl refl)

All-Listed : (xs ys zs : List ℕ) → All (λ y. Listed y (xs ++ (ys ++ zs))) ys
unfolding Listed
All-Listed xs [] zs = tt
All-Listed xs (y ∷ ys) zs = (
  Listed-append y xs (ys ++ zs),
  subst (λ l. All (λ z. Listed z l) ys) (append_assoc xs (y ∷ []) (ys ++ zs))
      (All-Listed (xs ++ y ∷ []) ys zs),
)

-- The connections behind and before one of the list are of the list.
around-Listed :
    (pre : List ℕ) (c : ℕ) (post : List ℕ) → All (λ y. Listed y (pre ++ c ∷ post)) (post ++ pre)
around-Listed pre c post =
    let whole : (pre ++ c ∷ []) ++ (post ++ []) ≡ pre ++ c ∷ post =
      simp (append_assoc, append-nil) in
    All-append (λ y. Listed y (pre ++ c ∷ post)) post pre
      (subst (λ l. All (λ y. Listed y l) post) whole (All-Listed (pre ++ c ∷ []) post []))
      (All-Listed [] pre (c ∷ post))

module _ (config : Config) (stats : ℕ → Option Stats)
    (resend : (flow_id flow_group : ℕ) → Bool) where
  cc_conn_init-Inv :
      (s t : State) (id cur_ts : ℕ)
      → Apart id s.conns
      → cc_conn_init config s id cur_ts ≡ some t
      → Inv s
      → Inv t
  unfolding cc_conn_init Distinct
  cc_conn_init-Inv s t id cur_ts new e inv =
      elim (Option-cases
        (algorithm_init config config.cc_algorithm (fresh config (s.conn id) cur_ts))) [
          | inl a ↦ cc (rw (cc_conn_init, a) at e)
          | inr (c, a) ↦
              let same : some (record s { conns = id ∷ s.conns; conn = put s.conn id c }) ≡ some t =
                rw (cc_conn_init, a) at e in
              let is : record s { conns = id ∷ s.conns; conn = put s.conn id c } ≡ t = cc in
              subst Inv is (record {
                once = (new, inv.once);
                next = NextListed-more s.next_conn s.conns id inv.next;
              })
        ]

  cc_poll-Inv :
      (s t : State) (cur_ts n : ℕ)
      → cc_poll config stats resend s cur_ts ≡ some (t, n)
      → Inv s
      → Inv t
  unfolding cc_poll Starts NextListed
  cc_poll-Inv s t cur_ts n e inv = elim (NextListed-Starts s.next_conn s.conns inv.next) [
    | inl idle ↦
        let is : record s { last_ts = cur_ts } ≡ t = cc (rw (cc_poll, idle) at e) in
        subst Inv is (record { once = inv.once; next = inv.next })
    | inr (pre, c, post, split, from) ↦
        let round : List ℕ = post ++ pre in
        let result = cc_poll_lem config stats resend s cur_ts pre c post inv.once split from in
        elim (Option-cases (visit_all config stats resend (take 128 (c ∷ round)) s cur_ts)) [
          | inl v ↦ absurd cc (rw v at (sym result ∙ e))
          | inr (u, v) ↦
              let same : u.conns ≡ s.conns = visit_all-conns config stats resend _ s u cur_ts v in
              let to : ℕ = ahead 128 c round c in
              let is : record u { next_conn = some to; last_ts = cur_ts } ≡ t =
                cc (rw v at (sym result ∙ e)) in
              let first : Listed c s.conns =
                subst (Listed c) (sym split) (Listed-append c pre post) in
              let others : All (λ y. Listed y s.conns) round =
                subst (λ l. All (λ y. Listed y l) round) (sym split) (around-Listed pre c post) in
              subst Inv is (record {
                once = subst Distinct (sym same) inv.once;
                next =
                    subst (Listed to) (sym same)
                      (ahead-Listed 128 c round c s.conns first others first);
              })
        ]
  ]

  -- Proper use of the list: a connection that is not in it is added, one that is in it is removed, and
  -- the list is polled. tcp.c does not always keep to it: listener_accept may run cc_conn_init a second
  -- time on the same connection, and a connection that failed may be freed while it is in the list.
  pub data Step : State → State → Type 0 where
    add :
        {s t : State} (id cur_ts : ℕ)
        → Apart id s.conns
        → cc_conn_init config s id cur_ts ≡ some t
        → Step s t
    remove : {s t : State} (c : ℕ) → Listed c s.conns → cc_conn_remove s c ≡ some t → Step s t
    poll :
        {s t : State} (cur_ts n : ℕ) → cc_poll config stats resend s cur_ts ≡ some (t, n) → Step s t

  pub data Reach (s : State) : State → Type 0 where
    here : Reach s s
    next : {t u : State} → Reach s t → Step t u → Reach s u

  Step-Inv : {s t : State} → Step s t → Inv s → Inv t
  Step-Inv {s} {t} (add id cur_ts new e) inv = cc_conn_init-Inv s t id cur_ts new e inv
  Step-Inv {s} {t} (remove c listed e) inv =
      let (xs, ys, split) = Listed-split c s.conns listed in
      let (u, done, same, kept) = cc_conn_remove-Inv s c xs ys inv split in
      let is : u ≡ t = cc (sym done ∙ e) in subst Inv is kept
  Step-Inv {s} {t} (poll cur_ts n e) inv = cc_poll-Inv s t cur_ts n e inv

  -- As long as only connections that are not in the list are added, and only those that are in it
  -- removed, through any such additions, removals and polls: the list holds no connection twice, and the
  -- one to be polled next is in it, so that a poll never follows a pointer to a connection that was
  -- removed with cc_conn_remove. (tcp.c can break the condition, by adding a connection twice.)
  pub Reach-Inv : {s t : State} → Reach s t → Inv s → Inv t
  Reach-Inv here inv = inv
  Reach-Inv (next r step) inv = Step-Inv step (Reach-Inv r inv)
